-- ===== src/Parser/TotalStatements.antt =====
-- Conditions, and statements without a block of their own, end.
use Prim.Native.String.{String}
use back_and_forth.Prelude.{
  ℕ, suc, ◌≤◌, ◌<◌, ◌≡◌, ◌≢◌, refl, ap, Bool, true, false, Option, none, some, arith, length, Text,
}
use back_and_forth.Token.{Token, TokenKind}
use back_and_forth.Syntax.{Expr, Stmt, BinaryOp, var, null, null_stmt}
use back_and_forth.Parser.Stream.{
  Parser, M, pure, ◌>>=◌, first_token, advance_token, check, report_at, consume, skip_newlines,
  type_of_kind, parse_type_name, consume_statement_end,
}
use back_and_forth.Parser.Expressions.{qualified_parts, parse_call_after_name, has_dot}
use back_and_forth.Parser.Statements.{
  end_statement, parse_initializer, parse_declaration, assignment_at, assign_round,
  parse_assignment, parse_named_statement, simple_at, parse_simple_statement, parse_condition,
}
use back_and_forth.Parser.Safe.{
  Returns, Safe, bind-Safe, then-Safe, choose-Safe, pure-Safe, advance_token-Safe, advance-Returns,
  match-Safe, consume-Safe, consume_any-Safe, check-Safe, report_at-Safe, skip_newlines-Safe,
  peek-Safe, advance_at-Returns, parse_type_name-Safe, parse_type_name-Takes, advance-Takes,
  reported-Takes, consume_statement_end-Safe,
}
use back_and_forth.Parser.TotalExpressions.{qualified_parts-Safe, parse_call-Safe}

end_statement-Safe : (j : ℕ) (require_end : Bool) (s : Stmt) → Safe j (end_statement require_end s)
unfolding end_statement
end_statement-Safe j true s =
    then-Safe j consume_statement_end (pure s) (consume_statement_end-Safe j) (pure-Safe j s)
end_statement-Safe j false s = pure-Safe j s

assignment_at-ne-eof :
    (dotted : Bool) (kind : TokenKind) (x : Option BinaryOp)
    → assignment_at dotted kind ≡ some x
    → kind ≢ TokenKind.eof
assignment_at-ne-eof true kind x h e = cc
assignment_at-ne-eof false kind x h e = cc (h, ap (assignment_at false) e)

-- An action that ends on every number of tokens up to `j`.
abbrev pub SafeUpTo : {A : Type 0} → ℕ → M A → Type 0
SafeUpTo j m = (i : ℕ) → i ≤ j → Safe i m

-- A value in parentheses.
pub parse_condition-Safe :
    (expression : M Expr) (j : ℕ) (before after : String)
    → Safe j expression
    → Safe j (parse_condition expression before after)
unfolding parse_condition
parse_condition-Safe expression j before after e =
    then-Safe j (consume TokenKind.lparen before) _ (consume_any-Safe j TokenKind.lparen before) (
      then-Safe j skip_newlines _ (skip_newlines-Safe j) (
        bind-Safe j expression _ e (λ x. then-Safe j skip_newlines _ (skip_newlines-Safe j) (
          then-Safe j (consume TokenKind.rparen after) _ (consume_any-Safe j TokenKind.rparen after)
            (then-Safe j skip_newlines _ (skip_newlines-Safe j) (pure-Safe j x))))))

module _ (expression : M Expr) (j : ℕ) (e : SafeUpTo j expression) where
  parse_initializer-Safe : (i : ℕ) → i ≤ j → Safe i (parse_initializer expression)
  unfolding parse_initializer
  parse_initializer-Safe i h =
      match-Safe i TokenKind.equal _ (cc) (pure-Safe i null)
        (λ t k hk. then-Safe k skip_newlines expression (skip_newlines-Safe k) (e k (omega arith)))

  -- A declaration behind its type.
  parse_declared-Safe :
      (build : Token → Expr → Stmt) (require_end : Bool)
      → Safe j (
          consume TokenKind.identifier "expected variable name after type" >>= λ declared.
          elim declared as (λ _. M Stmt) [
            | none ↦ pure null_stmt
            | some t ↦ parse_initializer expression >>= λ x. end_statement require_end (build t x)
          ])
  parse_declared-Safe build require_end =
      consume-Safe j TokenKind.identifier _ _ (cc) (pure-Safe j null_stmt) (λ u i hi.
        bind-Safe i (parse_initializer expression) _ (parse_initializer-Safe i (omega arith))
          (λ x. end_statement-Safe i require_end _))

  parse_declaration-Safe :
      (require_end : Bool) (t : Token) → Safe j (parse_declaration expression require_end t)
  unfolding parse_declaration
  parse_declaration-Safe require_end t =
      bind-Safe j parse_type_name _ (parse_type_name-Safe j)
        (λ type. parse_declared-Safe (λ u x. var t type u.text x) require_end)

  -- The type of a declaration is taken.
  parse_declaration-Takes :
      (require_end : Bool) (t : Token) (p : Parser)
      → type_of_kind (first_token p.tokens).kind ≢ none
      → length p.tokens ≤ suc j
      → Returns j (parse_declaration expression require_end t p)
  unfolding parse_declaration
  parse_declaration-Takes require_end t p k h =
      parse_type_name-Takes j _ p k h
        (λ type. parse_declared-Safe (λ u x. var t type u.text x) require_end)

  assignment-Returns :
      (require_end : Bool) (name_token : Token) (n : Text) (p : Parser)
      (o : Option (Option BinaryOp))
      → assignment_at (has_dot n) (first_token p.tokens).kind ≡ o
      → length p.tokens ≤ j
      → Returns j (assign_round expression require_end name_token n (first_token p.tokens) o p)
  assignment-Returns require_end name_token n p none q h =
      (then-Safe j (report_at name_token _) _ (report_at-Safe j name_token _)
          (pure-Safe j null_stmt)).runs
        p h
  assignment-Returns require_end name_token n p (some op) q h =
      advance-Returns j _ p (assignment_at-ne-eof (has_dot n) _ op q) h (λ i hi.
        then-Safe i skip_newlines _ (skip_newlines-Safe i)
          (bind-Safe i expression _ (e i (omega arith)) (λ x. end_statement-Safe i require_end _)))

  parse_assignment-Safe :
      (require_end : Bool) (t : Token) (n : Text)
      → Safe j (parse_assignment expression require_end t n)
  unfolding parse_assignment
  parse_assignment-Safe require_end t n =
      peek-Safe j _ (λ p h. assignment-Returns require_end t n p _ refl h)

  parse_named-Safe :
      (n : ℕ) (require_end : Bool) (t : Token)
      → j < n
      → Safe j (parse_named_statement expression n require_end t)
  unfolding parse_named_statement
  parse_named-Safe n require_end t h =
      bind-Safe j (qualified_parts n t.text) _ (qualified_parts-Safe n j t.text h) (λ qualified.
        bind-Safe j (check TokenKind.lparen) _ (check-Safe j TokenKind.lparen) (λ called.
          choose-Safe j called _ _
            (bind-Safe j (parse_call_after_name expression n t qualified) _
              (parse_call-Safe expression n j t qualified h e)
              (λ c. end_statement-Safe j require_end _))
            (parse_assignment-Safe require_end t qualified)))

pub parse_simple-Safe :
    (expression : M Expr) (n j : ℕ) (require_end : Bool)
    → j < n
    → SafeUpTo j expression
    → Safe j (parse_simple_statement expression n require_end)
unfolding parse_simple_statement
parse_simple-Safe expression n j require_end h e =
    peek-Safe j _ (λ p k. at p (first_token p.tokens).kind refl k)
  where
    at :
        (p : Parser) (kind : TokenKind)
        → (first_token p.tokens).kind ≡ kind
        → length p.tokens ≤ j
        → Returns j (simple_at expression n require_end (first_token p.tokens) kind p)
    at p TokenKind.int_kw q k =
        (parse_declaration-Safe expression j e require_end (first_token p.tokens)).runs p k
    at p TokenKind.str_kw q k =
        (parse_declaration-Safe expression j e require_end (first_token p.tokens)).runs p k
    at p TokenKind.bool_kw q k =
        (parse_declaration-Safe expression j e require_end (first_token p.tokens)).runs p k
    at p TokenKind.identifier q k = advance_at-Returns j TokenKind.identifier _ p q (cc) k (λ i hi.
        parse_named-Safe expression i (λ l hl. e l (omega arith)) n require_end
          (first_token p.tokens) (omega arith))
    at p kind q k =
        let t = first_token p.tokens in
        let reported =
          then-Safe j (report_at t _) advance_token (report_at-Safe j t _) (advance_token-Safe j) in
        (then-Safe j _ (pure null_stmt) reported (pure-Safe j null_stmt)).runs p k

-- A statement that starts at neither a brace nor the end takes a token.
pub simple_at-Takes :
    (expression : M Expr) (n i : ℕ) (require_end : Bool)
    → i < n
    → SafeUpTo i expression
    → (p : Parser) (kind : TokenKind) → (first_token p.tokens).kind ≡ kind
    → kind ≢ TokenKind.eof
    → length p.tokens ≤ suc i
    → Returns i (simple_at expression n require_end (first_token p.tokens) kind p)
simple_at-Takes expression n i require_end h e p TokenKind.int_kw q k l =
    parse_declaration-Takes expression i e require_end (first_token p.tokens) p
      (λ z. cc (z, ap type_of_kind q)) l
simple_at-Takes expression n i require_end h e p TokenKind.str_kw q k l =
    parse_declaration-Takes expression i e require_end (first_token p.tokens) p
      (λ z. cc (z, ap type_of_kind q)) l
simple_at-Takes expression n i require_end h e p TokenKind.bool_kw q k l =
    parse_declaration-Takes expression i e require_end (first_token p.tokens) p
      (λ z. cc (z, ap type_of_kind q)) l
simple_at-Takes expression n i require_end h e p TokenKind.identifier q k l =
    advance-Takes i TokenKind.identifier _ p q k l
      (parse_named-Safe expression i e n require_end (first_token p.tokens) h)
simple_at-Takes expression n i require_end h e p kind q k l =
    reported-Takes i (first_token p.tokens) _ null_stmt p kind q k l
