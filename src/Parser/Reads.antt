-- ===== src/Parser/Reads.antt =====
-- What the actions of the parser do at tokens that are written out.
use Prim.Native.String.{String}
use back_and_forth.Prelude.{
  subst, ℕ, ◌≡◌, ◌≢◌, ◌≤◌, refl, sym, ap, ◌∙◌, true, false, List, [], ◌∷◌, ◌++◌, Option, none, some,
  arith, Option-cases, inl, inr,
}
use back_and_forth.Token.{Token, TokenKind}
use back_and_forth.Diagnostic.{Diagnostics}
use back_and_forth.Syntax.{BinaryOp}
use back_and_forth.Parser.Kinds.{is_kind, is_kind_refl, is_kind-ne}
use back_and_forth.Parser.Stream.{
  Parser, M, ◌>>=◌, first_token, drop_first, advance_token, match, consume, is_newline, drop_kinds,
  skip_newlines,
}
use back_and_forth.Parser.Expressions.{binary_op_for, operator_at}
use back_and_forth.Parser.Safe.{match_present, match_absent, consume_present}
use back_and_forth.Parser.Grammar.{
  Blank, Follows, IsOperator, or_expression, and_expression, equality_equal, equality_different,
  relational_less, relational_less_equal, relational_greater, relational_greater_equal,
  additive_plus, additive_minus, multiplicative_star, multiplicative_slash, multiplicative_percent,
}

abbrev pub state : List Token → Diagnostics → Parser
state ts d = record { tokens = ts; diag = d }

-- An action whose result is known, and what follows.
pub bind-eq :
    {A B : Type 0} (m : M A) (f : A → M B) (p q : Parser) (a : A) (r : Option (B × Parser))
    → m p ≡ some (a, q)
    → f a q ≡ r
    → (m >>= f) p ≡ r
unfolding ◌>>=◌
bind-eq {A} {B} m f p q a r h k =
    ap (λ x. elim x as (λ _. Option (B × Parser)) [ none ↦ none | some (b, u) ↦ f b u ]) h ∙ k

is_kind-of : (t : Token) (kind : TokenKind) → t.kind ≡ kind → is_kind t.kind kind ≡ true
is_kind-of t kind e = ap (λ k. is_kind k kind) e ∙ is_kind_refl kind

drop_first-token : (t : Token) (ts : List Token) → t.kind ≢ TokenKind.eof → drop_first (t ∷ ts) ≡ ts
unfolding drop_first
drop_first-token t ts h = rw (is_kind-ne t.kind TokenKind.eof h) refl

module _ (t : Token) (ts : List Token) (d : Diagnostics) where
  pub advance_token-eq :
      t.kind ≢ TokenKind.eof → advance_token (state (t ∷ ts) d) ≡ some (t, state ts d)
  unfolding advance_token
  advance_token-eq h = ap (λ us. some (t, state us d)) (drop_first-token t ts h)

  pub match-eq :
      (kind : TokenKind)
      → kind ≢ TokenKind.eof
      → t.kind ≡ kind
      → match kind (state (t ∷ ts) d) ≡ some (some t, state ts d)
  match-eq kind h e =
      match_present kind (state (t ∷ ts) d) (is_kind-of t kind e)
      ∙ ap (λ us. some (some t, state us d)) (drop_first-token t ts (λ z. h (sym e ∙ z)))

  pub consume-eq :
      (kind : TokenKind) (message : String)
      → kind ≢ TokenKind.eof
      → t.kind ≡ kind
      → consume kind message (state (t ∷ ts) d) ≡ some (some t, state ts d)
  consume-eq kind message h e =
      consume_present kind message (state (t ∷ ts) d) (is_kind-of t kind e)
      ∙ ap (λ us. some (some t, state us d)) (drop_first-token t ts (λ z. h (sym e ∙ z)))

pub match-ne :
    (kind : TokenKind) (ts : List Token) (d : Diagnostics)
    → (first_token ts).kind ≢ kind
    → match kind (state ts d) ≡ some (none, state ts d)
match-ne kind ts d h = match_absent kind (state ts d) (is_kind-ne (first_token ts).kind kind h)

drop_kinds-Blank :
    (ns ts : List Token)
    → Blank ns
    → is_newline (first_token ts).kind ≡ false
    → drop_kinds is_newline (ns ++ ts) ≡ ts
unfolding drop_kinds
drop_kinds-Blank [] [] b h = refl
drop_kinds-Blank [] (t ∷ ts) b h = rw h refl
drop_kinds-Blank (n ∷ ns) ts b h =
    let e : is_newline n.kind ≡ true = ap is_newline b.0 in rw e (drop_kinds-Blank ns ts b.1 h)

-- Newlines are passed up to a token that is none.
pub skip_newlines-eq :
    (ns ts : List Token) (d : Diagnostics)
    → Blank ns
    → is_newline (first_token ts).kind ≡ false
    → skip_newlines (state (ns ++ ts) d) ≡ some (tt, state ts d)
unfolding skip_newlines
skip_newlines-eq ns ts d b h = ap (λ us. some (tt, state us d)) (drop_kinds-Blank ns ts b h)

-- An operator that binds at least as tight.
pub operator_at-eq :
    (m p : ℕ) (kind : TokenKind) (op : BinaryOp)
    → binary_op_for kind ≡ some (op, p)
    → m ≤ p
    → operator_at m kind ≡ some (op, p)
operator_at-eq m p kind op e h = rw (e, operator_at) (ground arith)

-- The table of the source is that of the grammar.
pub IsOperator-binary_op_for :
    (p : ℕ) (kind : TokenKind) (op : BinaryOp)
    → IsOperator p kind op
    → binary_op_for kind ≡ some (op, p)
IsOperator-binary_op_for _ _ _ or_expression = refl
IsOperator-binary_op_for _ _ _ and_expression = refl
IsOperator-binary_op_for _ _ _ equality_equal = refl
IsOperator-binary_op_for _ _ _ equality_different = refl
IsOperator-binary_op_for _ _ _ relational_less = refl
IsOperator-binary_op_for _ _ _ relational_less_equal = refl
IsOperator-binary_op_for _ _ _ relational_greater = refl
IsOperator-binary_op_for _ _ _ relational_greater_equal = refl
IsOperator-binary_op_for _ _ _ additive_plus = refl
IsOperator-binary_op_for _ _ _ additive_minus = refl
IsOperator-binary_op_for _ _ _ multiplicative_star = refl
IsOperator-binary_op_for _ _ _ multiplicative_slash = refl
IsOperator-binary_op_for _ _ _ multiplicative_percent = refl

-- An operator that the source finds is one of the grammar's.
abbrev OperatorOf : TokenKind → Option (BinaryOp × ℕ) → Type 0
OperatorOf kind none = Unit {0}
OperatorOf kind (some (op, p)) = IsOperator p kind op

binary_op_for-OperatorOf : (kind : TokenKind) → OperatorOf kind (binary_op_for kind)
binary_op_for-OperatorOf TokenKind.or_or = or_expression
binary_op_for-OperatorOf TokenKind.and_and = and_expression
binary_op_for-OperatorOf TokenKind.equal_equal = equality_equal
binary_op_for-OperatorOf TokenKind.bang_equal = equality_different
binary_op_for-OperatorOf TokenKind.less = relational_less
binary_op_for-OperatorOf TokenKind.less_equal = relational_less_equal
binary_op_for-OperatorOf TokenKind.greater = relational_greater
binary_op_for-OperatorOf TokenKind.greater_equal = relational_greater_equal
binary_op_for-OperatorOf TokenKind.plus = additive_plus
binary_op_for-OperatorOf TokenKind.minus = additive_minus
binary_op_for-OperatorOf TokenKind.star = multiplicative_star
binary_op_for-OperatorOf TokenKind.slash = multiplicative_slash
binary_op_for-OperatorOf TokenKind.percent = multiplicative_percent
binary_op_for-OperatorOf _ = tt

-- No operator, or one that binds less tight.
pub operator_at-Follows : (m : ℕ) (kind : TokenKind) → Follows m kind → operator_at m kind ≡ none
operator_at-Follows m kind f = elim (Option-cases (binary_op_for kind)) [
  | inl e ↦ rw (e, operator_at) refl
  | inr ((op, p), e) ↦
      let h = f.looser op p (subst (OperatorOf kind) e (binary_op_for-OperatorOf kind)) in
      rw (e, operator_at) (ground arith)
]
