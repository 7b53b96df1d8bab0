-- ===== src/Parser/Shape.antt =====
-- The first token of an expression, and that its tree is not NULL.
use back_and_forth.Prelude.{ℤ, ◌≢◌, ℕ, ◌≡◌, refl, ap, ◌∙◌, false, List, [], ◌∷◌, ◌++◌}
use back_and_forth.Token.{Token}
use back_and_forth.Syntax.{Expr, is_null, null, integer, unary, neg, not_op}
use back_and_forth.Parser.Stream.{first_token, is_newline}
use back_and_forth.Parser.Expressions.{negate, complement}
use back_and_forth.Parser.Grammar.{
  Primary, Unary, Binary, integer_literal, string_literal, true_literal, false_literal, variable,
  parenthesised, primary, negative, minus, bang, operand, operator,
}

-- The first token, which is no newline.
abbrev pub Heads : List Token → Type 0
Heads ts = (t : Token) × (us : List Token) × (ts ≡ t ∷ us) × (is_newline t.kind ≡ false)

Heads-append : (ts us : List Token) → Heads ts → Heads (ts ++ us)
Heads-append ts us (t, vs, e, h) = (t, vs ++ us, ap (λ x. x ++ us) e, h)

pub Heads-first :
    (ts rest : List Token) → Heads ts → is_newline (first_token (ts ++ rest)).kind ≡ false
Heads-first ts rest (t, vs, e, h) = ap (λ x. is_newline (first_token (x ++ rest)).kind) e ∙ h

-- What the parser builds for a unary operator, where the operand is not NULL.
pub negate-eq :
    (op : Token) (e : Expr)
    → is_null e ≡ false
    → ((t : Token) → (v : ℤ) → e ≢ integer t v)
    → negate op e ≡ unary op neg e
negate-eq op null h k = absurd (cc h)
negate-eq op (integer t v) h k = absurd (k t v refl)
negate-eq op e h k = refl

pub complement-eq :
    (op : Token) (e : Expr) → is_null e ≡ false → complement op e ≡ unary op not_op e
complement-eq op null h = absurd (cc h)
complement-eq op e h = refl

Primary-Heads : (ts : List Token) (e : Expr) → Primary ts e → Heads ts
Primary-Heads _ _ (integer_literal t h) = (t, [], refl, ap is_newline h)
Primary-Heads _ _ (string_literal t h) = (t, [], refl, ap is_newline h)
Primary-Heads _ _ (true_literal t h) = (t, [], refl, ap is_newline h)
Primary-Heads _ _ (false_literal t h) = (t, [], refl, ap is_newline h)
Primary-Heads _ _ (variable t h q) = (t, [], refl, ap is_newline h)
Primary-Heads _ _ (parenthesised l r ns ts ms e h k b c d) = (l, _, refl, ap is_newline h)

pub Unary-Heads : (ts : List Token) (e : Expr) → Unary ts e → Heads ts
Unary-Heads _ _ (primary ts e d) = Primary-Heads ts e d
Unary-Heads _ _ (negative op t v ns ts h b d) = (op, _, refl, ap is_newline h)
Unary-Heads _ _ (minus op ns ts e h b d k) = (op, _, refl, ap is_newline h)
Unary-Heads _ _ (bang op ns ts e h b d) = (op, _, refl, ap is_newline h)

pub Binary-Heads : (m : ℕ) (ts : List Token) (e : Expr) → Binary m ts e → Heads ts
Binary-Heads _ _ _ (operand m ts e d) = Unary-Heads ts e d
Binary-Heads _ _ _ (operator m p t op ls ns rs l r h k dl b dr) =
    Heads-append ls _ (Binary-Heads p ls l dl)

mutual
  pub Primary-ne-null : (ts : List Token) (e : Expr) → Primary ts e → is_null e ≡ false
  Primary-ne-null _ _ (integer_literal t h) = refl
  Primary-ne-null _ _ (string_literal t h) = refl
  Primary-ne-null _ _ (true_literal t h) = refl
  Primary-ne-null _ _ (false_literal t h) = refl
  Primary-ne-null _ _ (variable t h q) = refl
  Primary-ne-null _ _ (parenthesised l r ns ts ms e h k b c d) = Binary-ne-null 1 ts e d

  pub Unary-ne-null : (ts : List Token) (e : Expr) → Unary ts e → is_null e ≡ false
  Unary-ne-null _ _ (primary ts e d) = Primary-ne-null ts e d
  Unary-ne-null _ _ (negative op t v ns ts h b d) = refl
  Unary-ne-null _ _ (minus op ns ts e h b d k) = refl
  Unary-ne-null _ _ (bang op ns ts e h b d) = refl

  pub Binary-ne-null : (m : ℕ) (ts : List Token) (e : Expr) → Binary m ts e → is_null e ≡ false
  Binary-ne-null _ _ _ (operand m ts e d) = Unary-ne-null ts e d
  Binary-ne-null _ _ _ (operator m p t op ls ns rs l r h k dl b dr) = refl
