-- ===== src/Parser/ExpressionTrees.antt =====
-- `parse_expression` reads what the grammar of expressions derives.
use back_and_forth.Prelude.{
  ℕ, Text, All, subst, zero, suc, ◌+◌, ◌≡◌, ◌≢◌, refl, sym, ap, ◌∙◌, false, List, [], ◌∷◌, ◌++◌,
  some, arith, length, length-append, append_assoc,
}
use back_and_forth.Token.{Token, TokenKind}
use back_and_forth.Diagnostic.{Diagnostics}
use back_and_forth.Syntax.{Expr, name, integer}
use back_and_forth.Parser.Stream.{pure, ◌>>◌, first_token, advance_token, is_newline}
use back_and_forth.Parser.Expressions.{
  has_dot, negate, complement, primary_at, parse_unary, parse_binary,
}
use back_and_forth.Parser.Grammar.{
  Blank, Primary, Unary, Binary, integer_literal, string_literal, true_literal, false_literal,
  variable, parenthesised, primary, negative, minus, bang, operand, operator, Follows,
}
use back_and_forth.Parser.Reads.{state, bind-eq, advance_token-eq, IsOperator-binary_op_for}
use back_and_forth.Parser.Shape.{
  Heads-first, Unary-Heads, Binary-Heads, Unary-ne-null, negate-eq, complement-eq,
}
use back_and_forth.Parser.Precedence.{
  ReadsUnary, ReadsLeft, ReadsBinary, ReadsLeft-ReadsBinary, left-operand, left-operator,
}
use back_and_forth.Parser.Expressions.{parse_expression}
use back_and_forth.Parser.Operands.{
  unary_at, literal_at, variable_at, parenthesised_at, minus_at, bang_at,
}

-- An operand of one token.
literal-ReadsUnary :
    (t : Token) (kind : TokenKind) (x : Expr)
    → t.kind ≡ kind
    → kind ≢ TokenKind.minus
    → kind ≢ TokenKind.bang
    → kind ≢ TokenKind.eof
    → ((k n : ℕ) → primary_at (parse_binary k 1) n t kind ≡ (advance_token >> pure x))
    → ReadsUnary (t ∷ []) x
literal-ReadsUnary t kind x h m b o same k zero rest d dot paren hk hn = absurd (omega arith)
literal-ReadsUnary t kind x h m b o same k (suc n) rest d dot paren hk hn =
    unary_at k n t rest d kind _ h m b
      (ap (λ f. f (state (t ∷ rest) d)) (same k n) ∙ literal_at k n t rest d x (λ z. o (sym h ∙ z)))

variable-ReadsUnary :
    (t : Token)
    → t.kind ≡ TokenKind.identifier
    → has_dot t.text ≡ false
    → ReadsUnary (t ∷ []) (name t t.text)
variable-ReadsUnary t h plain k zero rest d dot paren hk hn = absurd (omega arith)
variable-ReadsUnary t h plain k (suc zero) rest d dot paren hk hn = absurd (omega arith)
variable-ReadsUnary t h plain k (suc (suc n)) rest d dot paren hk hn =
    unary_at k (suc n) t rest d TokenKind.identifier _ h (cc) (cc) (
      bind-eq advance_token _ (state (t ∷ rest) d) (state rest d) t _
        (advance_token-eq t rest d (λ z. cc (h, z))) (variable_at k n t rest d plain dot paren))

-- What may follow an expression in parentheses.
inside-Follows :
    (r : Token) (ms rest : List Token)
    → r.kind ≡ TokenKind.rparen
    → Blank ms
    → Follows 1 (first_token (ms ++ (r ∷ rest))).kind
inside-Follows r [] rest h b = record {
  no_dot = λ z. cc (h, z);
  no_call = λ z. cc (h, z);
  looser = λ op p z. absurd (cc (h, IsOperator-binary_op_for p _ op z));
}
inside-Follows r (m ∷ ms) rest h b =
    let e = b.0 in
    record {
      no_dot = λ z. cc (e, z);
      no_call = λ z. cc (e, z);
      looser = λ op p z. absurd (cc (e, IsOperator-binary_op_for p _ op z));
    }

parenthesised-ReadsUnary :
    (l r : Token) (ns ts ms : List Token) (e : Expr)
    → l.kind ≡ TokenKind.lparen
    → r.kind ≡ TokenKind.rparen
    → Blank ns
    → Blank ms
    → Binary 1 ts e
    → ReadsBinary 1 ts e
    → ReadsUnary (l ∷ ns ++ (ts ++ (ms ++ (r ∷ [])))) e
parenthesised-ReadsUnary l r ns ts ms e h k b c dt reads m zero rest d dot paren hk hn =
    absurd (omega arith)
parenthesised-ReadsUnary l r ns ts ms e h k b c dt reads m (suc n) rest d dot paren hk hn =
    let inside = ms ++ (r ∷ rest) in
    let assoc : (ns ++ (ts ++ (ms ++ (r ∷ [])))) ++ rest ≡ ns ++ (ts ++ inside) =
      append_assoc ns (ts ++ (ms ++ (r ∷ []))) rest
      ∙ ap (λ x. ns ++ x)
          (append_assoc ts (ms ++ (r ∷ [])) rest
            ∙ ap (λ x. ts ++ x) (append_assoc ms (r ∷ []) rest)) in
    let total = ap length assoc in
    let tail = length-append ns (ts ++ inside) in
    ap (λ us. parse_unary (parse_binary m 1) (suc n) (state (l ∷ us) d)) assoc
    ∙ unary_at m n l (ns ++ (ts ++ inside)) d TokenKind.lparen _ h (cc) (cc) (
        bind-eq advance_token _ (state (l ∷ ns ++ (ts ++ inside)) d)
          (state (ns ++ (ts ++ inside)) d) l _
          (advance_token-eq l (ns ++ (ts ++ inside)) d (λ z. cc (h, z)))
          (parenthesised_at m r ns ts ms rest e d k b c
            (Heads-first ts inside (Binary-Heads 1 ts e dt))
            (reads m inside d (inside-Follows r ms rest k c) (omega arith))))

-- A unary operator in front of an operand.
prefixed-ReadsUnary :
    (op : Token) (ns ts : List Token) (e : Expr) (build : Expr → Expr)
    → Unary ts e
    → ReadsUnary ts e
    → ((k n : ℕ) (us ws : List Token) (d : Diagnostics)
        → is_newline (first_token us).kind ≡ false
        → parse_unary (parse_binary k 1) n (state us d) ≡ some (e, state ws d)
        → parse_unary (parse_binary k 1) (suc n) (state (op ∷ ns ++ us) d)
          ≡ some (build e, state ws d))
    → ReadsUnary (op ∷ ns ++ ts) (build e)
prefixed-ReadsUnary op ns ts e build du reads prefix k zero rest d dot paren hk hn =
    absurd (omega arith)
prefixed-ReadsUnary op ns ts e build du reads prefix k (suc n) rest d dot paren hk hn =
    let assoc = append_assoc ns ts rest in
    let total = ap length assoc in
    let tail = length-append ns (ts ++ rest) in
    ap (λ us. parse_unary (parse_binary k 1) (suc n) (state (op ∷ us) d)) assoc
    ∙ prefix k n (ts ++ rest) rest d (Heads-first ts rest (Unary-Heads ts e du))
        (reads k n rest d dot paren (omega arith) (omega arith))

no_dots : (n : Text) → All (λ c. c ≢ b'.') n → has_dot n ≡ false
no_dots [] h = refl
no_dots (c ∷ cs) h = let rest = no_dots cs h.1 in let first = h.0 in ground arith

mutual
  Primary-Reads : (ts : List Token) (e : Expr) → Primary ts e → ReadsUnary ts e
  Primary-Reads _ _ (integer_literal t h) =
      literal-ReadsUnary t TokenKind.integer _ h (cc) (cc) (cc) (λ k n. refl)
  Primary-Reads _ _ (string_literal t h) =
      literal-ReadsUnary t TokenKind.string _ h (cc) (cc) (cc) (λ k n. refl)
  Primary-Reads _ _ (true_literal t h) =
      literal-ReadsUnary t TokenKind.true_kw _ h (cc) (cc) (cc) (λ k n. refl)
  Primary-Reads _ _ (false_literal t h) =
      literal-ReadsUnary t TokenKind.false_kw _ h (cc) (cc) (cc) (λ k n. refl)
  Primary-Reads _ _ (variable t h q) = variable-ReadsUnary t h (no_dots t.text q)
  Primary-Reads _ _ (parenthesised l r ns ts ms e h k b c dt) =
      parenthesised-ReadsUnary l r ns ts ms e h k b c dt
        (ReadsLeft-ReadsBinary 1 ts e (Binary-Reads 1 ts e dt))

  Unary-Reads : (ts : List Token) (e : Expr) → Unary ts e → ReadsUnary ts e
  Unary-Reads _ _ (primary ts e dt) = Primary-Reads ts e dt
  Unary-Reads _ _ (negative op t v ns ts h b dt) =
      prefixed-ReadsUnary op ns ts (integer t v) (negate op) dt (Unary-Reads ts (integer t v) dt)
        (λ k n us ws d head inner. minus_at k n op ns us ws (integer t v) d h b head inner)
  Unary-Reads _ _ (minus op ns ts e h b dt other) =
      subst (ReadsUnary (op ∷ ns ++ ts)) (negate-eq op e (Unary-ne-null ts e dt) other) (
        prefixed-ReadsUnary op ns ts e (negate op) dt (Unary-Reads ts e dt)
          (λ k n us ws d head inner. minus_at k n op ns us ws e d h b head inner))
  Unary-Reads _ _ (bang op ns ts e h b dt) =
      subst (ReadsUnary (op ∷ ns ++ ts)) (complement-eq op e (Unary-ne-null ts e dt)) (
        prefixed-ReadsUnary op ns ts e (complement op) dt (Unary-Reads ts e dt)
          (λ k n us ws d head inner. bang_at k n op ns us ws e d h b head inner))

  Binary-Reads : (m : ℕ) (ts : List Token) (e : Expr) → Binary m ts e → ReadsLeft m ts e
  Binary-Reads _ _ _ (operand m ts e dt) =
      left-operand m ts e (Unary-ne-null ts e dt) (Unary-Reads ts e dt)
  Binary-Reads _ _ _ (operator m p t op ls ns rs l r h le dl b dr) =
      left-operator m p t op ls ns rs l r (IsOperator-binary_op_for p t.kind op h) le b dr
        (Binary-Reads p ls l dl) (Binary-Reads (p + 1) rs r dr)

-- Where the grammar derives the tree `e` for tokens `ts`, and no token behind them goes on with a
-- name, a call or an operator, `parse_expression` takes exactly these tokens, returns that tree and
-- reports nothing.
pub parse_expression-Binary :
    (ts rest : List Token) (e : Expr) (d : Diagnostics)
    → Binary 1 ts e
    → Follows 1 (first_token rest).kind
    → parse_expression (suc (length (ts ++ rest))) (record { tokens = ts ++ rest; diag = d })
      ≡ some (e, record { tokens = rest; diag = d })
parse_expression-Binary ts rest e d h f =
    ReadsLeft-ReadsBinary 1 ts e (Binary-Reads 1 ts e h) (suc (length (ts ++ rest))) rest d f
      (omega arith)
