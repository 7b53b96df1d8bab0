-- ===== src/Parser/TotalExpressions.antt =====
-- `parse_expression` ends on fuel above the number of tokens.
use back_and_forth.Prelude.{
  ℕ, zero, suc, ◌+◌, ◌≤◌, ◌<◌, ◌≡◌, ◌≢◌, refl, ap, Bool, false, ◌&&◌, Option, none, some, arith,
  length, Text,
}
use back_and_forth.Token.{Token, TokenKind}
use back_and_forth.Syntax.{is_null, Expr, BinaryOp, no_args, null}
use back_and_forth.Parser.Kinds.{is_kind}
use back_and_forth.Parser.Stream.{
  Parser, M, pure, ◌>>=◌, ◌>>◌, first_token, peek_token, lookahead, advance_token, check, report_at,
  consume, skip_newlines,
}
use back_and_forth.Parser.Expressions.{
  qualified_parts, parse_argument_name, parse_args, parse_call_after_name, has_dot, parse_name,
  parse_parenthesised, primary_at, parse_primary, parse_unary, negate, complement, operator_at,
  binary_round, binary_loop, parse_binary,
}
use back_and_forth.Parser.Safe.{
  Returns, Safe, SafeBelow, bind-Safe, then-Safe, choose-Safe, pure-Safe, advance_token-Safe,
  advance-Returns, match-Safe, consume-Safe, consume_any-Safe, check-Safe, report_at-Safe,
  skip_newlines-Safe, peek_token-Safe, lookahead-Safe, peek-Safe, advance_at-Returns,
}

pub qualified_parts-Safe : (n j : ℕ) (sofar : Text) → j < n → Safe j (qualified_parts n sofar)
unfolding qualified_parts
qualified_parts-Safe zero j sofar h = absurd (omega arith)
qualified_parts-Safe (suc n) j sofar h =
    match-Safe j TokenKind.dot _ (cc) (pure-Safe j sofar) (λ d i hi.
      consume-Safe i TokenKind.identifier _ _ (cc) (pure-Safe i sofar)
        (λ t k hk. qualified_parts-Safe n k _ (omega arith)))

parse_argument_name-Safe : (j : ℕ) (saw_named : Bool) → Safe j (parse_argument_name saw_named)
unfolding parse_argument_name
parse_argument_name-Safe j saw_named = bind-Safe j peek_token _ (peek_token-Safe j) (λ first.
    bind-Safe j lookahead _ (lookahead-Safe j) (λ second.
      choose-Safe j (is_kind first.kind TokenKind.identifier && is_kind second.kind TokenKind.colon)
        _ _
        (bind-Safe j advance_token _ (advance_token-Safe j) (λ t.
          then-Safe j advance_token _ (advance_token-Safe j)
            (then-Safe j skip_newlines _ (skip_newlines-Safe j) (pure-Safe j _))))
        (choose-Safe j saw_named _ _
          (then-Safe j (report_at first _) _ (report_at-Safe j first _) (pure-Safe j _))
          (pure-Safe j _))))

parse_args-Safe :
    (expression : M Expr) (n j : ℕ) (saw_named : Bool)
    → j < n
    → ((i : ℕ) → i ≤ j → Safe i expression)
    → Safe j (parse_args expression n saw_named)
unfolding parse_args
parse_args-Safe expression zero j saw_named h e = absurd (omega arith)
parse_args-Safe expression (suc n) j saw_named h e =
    then-Safe j skip_newlines _ (skip_newlines-Safe j) (
      bind-Safe j (parse_argument_name saw_named) _ (parse_argument_name-Safe j saw_named) (λ head.
        bind-Safe j expression _ (e j (omega arith)) (λ value.
          then-Safe j skip_newlines _ (skip_newlines-Safe j) (
            match-Safe j TokenKind.comma _ (cc) (pure-Safe j _) (λ t i hi.
              bind-Safe i (parse_args expression n head.1) _
                (parse_args-Safe expression n i head.1 (omega arith) (λ k hk. e k (omega arith)))
                (λ rest. pure-Safe i _))))))

pub parse_call-Safe :
    (expression : M Expr) (n j : ℕ) (t : Token) (name : Text)
    → j < n
    → ((i : ℕ) → i ≤ j → Safe i expression)
    → Safe j (parse_call_after_name expression n t name)
unfolding parse_call_after_name
parse_call-Safe expression n j t name h e =
    then-Safe j (consume TokenKind.lparen _) _ (consume_any-Safe j TokenKind.lparen _) (
      then-Safe j skip_newlines _ (skip_newlines-Safe j) (
        bind-Safe j (check TokenKind.rparen) _ (check-Safe j TokenKind.rparen) (λ empty.
          bind-Safe j _ _
            (choose-Safe j empty (pure no_args) (parse_args expression n false)
              (pure-Safe j no_args) (parse_args-Safe expression n j false h e))
            (λ args. then-Safe j skip_newlines _ (skip_newlines-Safe j) (
              then-Safe j (consume TokenKind.rparen _) _ (consume_any-Safe j TokenKind.rparen _)
                (pure-Safe j _))))))

parse_name-Safe :
    (expression : M Expr) (n j : ℕ) (t : Token)
    → j < n
    → ((i : ℕ) → i ≤ j → Safe i expression)
    → Safe j (parse_name expression n t)
unfolding parse_name
parse_name-Safe expression n j t h e =
    bind-Safe j (qualified_parts n t.text) _ (qualified_parts-Safe n j t.text h) (λ qualified.
      bind-Safe j (check TokenKind.lparen) _ (check-Safe j TokenKind.lparen) (λ called.
        choose-Safe j called _ _
          (bind-Safe j (parse_call_after_name expression n t qualified) _
            (parse_call-Safe expression n j t qualified h e) (λ c. pure-Safe j _))
          (choose-Safe j (has_dot qualified) _ _
            (then-Safe j (report_at t _) _ (report_at-Safe j t _) (pure-Safe j _))
            (pure-Safe j _))))

parse_parenthesised-Safe :
    (expression : M Expr) (j : ℕ) → Safe j expression → Safe j (parse_parenthesised expression)
unfolding parse_parenthesised
parse_parenthesised-Safe expression j e = then-Safe j skip_newlines _ (skip_newlines-Safe j) (
    bind-Safe j expression _ e (λ x. then-Safe j skip_newlines _ (skip_newlines-Safe j) (
      then-Safe j (consume TokenKind.rparen _) _ (consume_any-Safe j TokenKind.rparen _)
        (pure-Safe j x))))

module _ (expression : M Expr) (n j : ℕ) (fuel : j ≤ n) (below : SafeBelow j expression) where
  primary_at-Returns :
      (p : Parser) (t : Token) (kind : TokenKind)
      → (first_token p.tokens).kind ≡ kind
      → length p.tokens ≤ j
      → Returns j (primary_at expression n t kind p)
  primary_at-Returns p t TokenKind.integer e h =
      advance_at-Returns j TokenKind.integer _ p e (cc) h (λ i hi. pure-Safe i _)
  primary_at-Returns p t TokenKind.string e h =
      advance_at-Returns j TokenKind.string _ p e (cc) h (λ i hi. pure-Safe i _)
  primary_at-Returns p t TokenKind.true_kw e h =
      advance_at-Returns j TokenKind.true_kw _ p e (cc) h (λ i hi. pure-Safe i _)
  primary_at-Returns p t TokenKind.false_kw e h =
      advance_at-Returns j TokenKind.false_kw _ p e (cc) h (λ i hi. pure-Safe i _)
  primary_at-Returns p t TokenKind.identifier e h =
      advance_at-Returns j TokenKind.identifier _ p e (cc) h
        (λ i hi. parse_name-Safe expression n i t (omega arith) (λ k hk. below k (omega arith)))
  primary_at-Returns p t TokenKind.lparen e h =
      advance_at-Returns j TokenKind.lparen _ p e (cc) h
        (λ i hi. parse_parenthesised-Safe expression i (below i hi))
  primary_at-Returns p t kind e h =
      (then-Safe j (report_at t _) _ (report_at-Safe j t _) (pure-Safe j null)).runs p h

  parse_primary-Safe : Safe j (parse_primary expression n)
  unfolding parse_primary
  parse_primary-Safe =
      peek-Safe j _
        (λ p h. primary_at-Returns p (first_token p.tokens) (first_token p.tokens).kind refl h)

pub parse_unary-Safe :
    (expression : M Expr) (n j : ℕ)
    → j < n
    → SafeBelow j expression
    → Safe j (parse_unary expression n)
unfolding parse_unary
parse_unary-Safe expression zero j h below = absurd (omega arith)
parse_unary-Safe expression (suc n) j h below =
    let after : (op : Token)
        → (build : Expr → Expr)
        → SafeBelow j (skip_newlines >> (parse_unary expression n >>= λ x. pure (build x))) =
      λ op build i hi. then-Safe i skip_newlines _ (skip_newlines-Safe i) (
        bind-Safe i (parse_unary expression n) _
          (parse_unary-Safe expression n i (omega arith) (λ k hk. below k (omega arith)))
          (λ x. pure-Safe i _)) in
    match-Safe j TokenKind.minus _ (cc)
      (match-Safe j TokenKind.bang _ (cc) (parse_primary-Safe expression n j (omega arith) below)
        (λ op. after op (complement op)))
      (λ op. after op (negate op))

operator_at-ne-eof :
    (m : ℕ) (kind : TokenKind) (x : BinaryOp × ℕ)
    → operator_at m kind ≡ some x
    → kind ≢ TokenKind.eof
operator_at-ne-eof m kind x h e = cc (h, ap (operator_at m) e)

binary_round-Returns :
    (right_of : ℕ → M Expr) (rest : Expr → M Expr) (min j : ℕ) (left : Expr) (p : Parser)
    (o : Option (BinaryOp × ℕ))
    → operator_at min (first_token p.tokens).kind ≡ o
    → length p.tokens ≤ j
    → ((k : ℕ) → SafeBelow j (right_of k))
    → ((e : Expr) → SafeBelow j (rest e))
    → Returns j (binary_round right_of rest (first_token p.tokens) left o p)
binary_round-Returns right_of rest min j left p none e h r l = h
binary_round-Returns right_of rest min j left p (some (op, precedence)) e h r l =
    let t = first_token p.tokens in
    advance-Returns j _ p (operator_at-ne-eof min t.kind (op, precedence) e) h (λ i hi.
      then-Safe i skip_newlines _ (skip_newlines-Safe i) (
        bind-Safe i (right_of (precedence + 1)) _ (r (precedence + 1) i hi)
          (λ right. choose-Safe i (is_null right) (pure left) _ (pure-Safe i left) (l _ i hi))))

binary_loop-Safe :
    (right_of : ℕ → M Expr) (n min j : ℕ) (left : Expr)
    → j < n
    → ((k : ℕ) → SafeBelow j (right_of k))
    → Safe j (binary_loop right_of n min left)
unfolding binary_loop
binary_loop-Safe right_of zero min j left h r = absurd (omega arith)
binary_loop-Safe right_of (suc n) min j left h r = peek-Safe j _ (λ p k.
    binary_round-Returns right_of (binary_loop right_of n min) min j left p _ refl k r
      (λ e i hi. binary_loop-Safe right_of n min i e (omega arith) (λ m l hl. r m l (omega arith))))

pub parse_binary-Safe : (n min j : ℕ) → j < n → Safe j (parse_binary n min)
unfolding parse_binary
parse_binary-Safe zero min j h = absurd (omega arith)
parse_binary-Safe (suc n) min j h =
    let below : (m : ℕ) → SafeBelow j (parse_binary n m) =
      λ m i hi. parse_binary-Safe n m i (omega arith) in
    bind-Safe j (parse_unary (parse_binary n 1) (suc n)) _
      (parse_unary-Safe (parse_binary n 1) (suc n) j h (below 1))
      (λ left.
        choose-Safe j (is_null left) (pure null) _ (pure-Safe j null)
          (binary_loop-Safe (parse_binary n) (suc n) min j left h below))
