-- ===== src/Parser/Operands.antt =====
-- `parse_primary` and `parse_unary` at the tokens of an operand.
use back_and_forth.Prelude.{
  ℕ, suc, ◌≡◌, ◌≢◌, refl, sym, ap, ◌∙◌, true, false, List, ◌∷◌, ◌++◌, Option, none, some, Text,
}
use back_and_forth.Token.{Token, TokenKind}
use back_and_forth.Diagnostic.{Diagnostics, qualified_name_must_be_called}
use back_and_forth.Syntax.{Expr, name}
use back_and_forth.Parser.Kinds.{is_kind-ne}
use back_and_forth.Parser.Stream.{
  Parser, M, pure, ◌>>◌, first_token, peek_token, advance_token, check, match, report_at, consume,
  is_newline, skip_newlines,
}
use back_and_forth.Parser.Expressions.{
  has_dot, negate, complement, qualified_parts, parse_name, parse_parenthesised, primary_at,
  parse_primary, parse_unary, parse_binary,
}
use back_and_forth.Parser.Grammar.{Blank}
use back_and_forth.Parser.Reads.{
  state, bind-eq, advance_token-eq, match-eq, match-ne, consume-eq, skip_newlines-eq,
}

module _ (k n : ℕ) (t : Token) (us : List Token) (d : Diagnostics) where
  -- An operand that starts with no unary operator.
  pub unary_at :
      (kind : TokenKind) (r : Option (Expr × Parser))
      → t.kind ≡ kind
      → kind ≢ TokenKind.minus
      → kind ≢ TokenKind.bang
      → primary_at (parse_binary k 1) n t kind (state (t ∷ us) d) ≡ r
      → parse_unary (parse_binary k 1) (suc n) (state (t ∷ us) d) ≡ r
  unfolding parse_unary parse_primary
  unary_at kind r e m b h =
      let p = state (t ∷ us) d in
      bind-eq (match TokenKind.minus) _ p p none _
        (match-ne TokenKind.minus (t ∷ us) d (λ z. m (sym e ∙ z)))
        (bind-eq (match TokenKind.bang) _ p p none _
          (match-ne TokenKind.bang (t ∷ us) d (λ z. b (sym e ∙ z)))
          (bind-eq peek_token _ p p t _ refl
            (ap (λ κ. primary_at (parse_binary k 1) n t κ p) e ∙ h)))

  -- A literal.
  pub literal_at :
      (x : Expr)
      → t.kind ≢ TokenKind.eof
      → (advance_token >> pure x) (state (t ∷ us) d) ≡ some (x, state us d)
  literal_at x h =
      bind-eq advance_token _ (state (t ∷ us) d) (state us d) t _ (advance_token-eq t us d h) refl

no_parts :
    (n : ℕ) (sofar : Text) (us : List Token) (d : Diagnostics)
    → (first_token us).kind ≢ TokenKind.dot
    → qualified_parts (suc n) sofar (state us d) ≡ some (sofar, state us d)
unfolding qualified_parts
no_parts n sofar us d h =
    bind-eq (match TokenKind.dot) _ (state us d) (state us d) none _ (match-ne TokenKind.dot us d h)
      refl

check-ne :
    (kind : TokenKind) (us : List Token) (d : Diagnostics)
    → (first_token us).kind ≢ kind
    → check kind (state us d) ≡ some (false, state us d)
unfolding check
check-ne kind us d h = ap (λ b. some (b, state us d)) (is_kind-ne (first_token us).kind kind h)

-- A name that neither a dot nor a parenthesis follows.
pub variable_at :
    (k n : ℕ) (t : Token) (us : List Token) (d : Diagnostics)
    → has_dot t.text ≡ false
    → (first_token us).kind ≢ TokenKind.dot
    → (first_token us).kind ≢ TokenKind.lparen
    → parse_name (parse_binary k 1) (suc n) t (state us d) ≡ some (name t t.text, state us d)
unfolding parse_name
variable_at k n t us d plain dot paren =
    let p = state us d in
    bind-eq (qualified_parts (suc n) t.text) _ p p t.text _ (no_parts n t.text us d dot) (
      bind-eq (check TokenKind.lparen) _ p p false _ (check-ne TokenKind.lparen us d paren) (
        ap
          (λ b.
            elim b as (λ _. M Expr) [
              | true ↦ report_at t (qualified_name_must_be_called t.text) >> pure (name t t.text)
              | false ↦ pure (name t t.text)
            ]
              p)
          plain))

-- What stands in parentheses.
pub parenthesised_at :
    (k : ℕ) (r : Token) (ns ts ms us : List Token) (e : Expr) (d : Diagnostics)
    → r.kind ≡ TokenKind.rparen
    → Blank ns
    → Blank ms
    → is_newline (first_token (ts ++ (ms ++ (r ∷ us)))).kind ≡ false
    → parse_binary k 1 (state (ts ++ (ms ++ (r ∷ us))) d) ≡ some (e, state (ms ++ (r ∷ us)) d)
    → parse_parenthesised (parse_binary k 1) (state (ns ++ (ts ++ (ms ++ (r ∷ us)))) d)
      ≡ some (e, state us d)
unfolding parse_parenthesised
parenthesised_at k r ns ts ms us e d h b c head inner =
    bind-eq skip_newlines _ _ (state (ts ++ (ms ++ (r ∷ us))) d) tt _
      (skip_newlines-eq ns _ d b head)
      (bind-eq (parse_binary k 1) _ _ (state (ms ++ (r ∷ us)) d) e _ inner (
        bind-eq skip_newlines _ _ (state (r ∷ us) d) tt _
          (skip_newlines-eq ms (r ∷ us) d c (ap is_newline h))
          (bind-eq (consume TokenKind.rparen _) _ _ (state us d) (some r) _
            (consume-eq r us d TokenKind.rparen _ (cc) h) refl)))

-- A unary operator, and its operand.
pub minus_at :
    (k n : ℕ) (op : Token) (ns us ws : List Token) (e : Expr) (d : Diagnostics)
    → op.kind ≡ TokenKind.minus
    → Blank ns
    → is_newline (first_token us).kind ≡ false
    → parse_unary (parse_binary k 1) n (state us d) ≡ some (e, state ws d)
    → parse_unary (parse_binary k 1) (suc n) (state (op ∷ ns ++ us) d)
      ≡ some (negate op e, state ws d)
unfolding parse_unary
minus_at k n op ns us ws e d h b head inner =
    bind-eq (match TokenKind.minus) _ _ (state (ns ++ us) d) (some op) _
      (match-eq op (ns ++ us) d TokenKind.minus (cc) h)
      (bind-eq skip_newlines _ _ (state us d) tt _ (skip_newlines-eq ns us d b head)
        (bind-eq (parse_unary (parse_binary k 1) n) _ _ (state ws d) e _ inner refl))

pub bang_at :
    (k n : ℕ) (op : Token) (ns us ws : List Token) (e : Expr) (d : Diagnostics)
    → op.kind ≡ TokenKind.bang
    → Blank ns
    → is_newline (first_token us).kind ≡ false
    → parse_unary (parse_binary k 1) n (state us d) ≡ some (e, state ws d)
    → parse_unary (parse_binary k 1) (suc n) (state (op ∷ ns ++ us) d)
      ≡ some (complement op e, state ws d)
unfolding parse_unary
bang_at k n op ns us ws e d h b head inner =
    bind-eq (match TokenKind.minus) _ (state (op ∷ ns ++ us) d) (state (op ∷ ns ++ us) d) none _
      (match-ne TokenKind.minus (op ∷ ns ++ us) d (λ z. cc (z, h)))
      (bind-eq (match TokenKind.bang) _ _ (state (ns ++ us) d) (some op) _
        (match-eq op (ns ++ us) d TokenKind.bang (cc) h)
        (bind-eq skip_newlines _ _ (state us d) tt _ (skip_newlines-eq ns us d b head)
          (bind-eq (parse_unary (parse_binary k 1) n) _ _ (state ws d) e _ inner refl)))
