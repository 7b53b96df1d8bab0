-- ===== src/Parser/Grammar.antt =====
-- The expressions of docs/GRAMMAR.md as a layered grammar, calls left out: which tree a list of
-- tokens stands for. Every operator is left associative.
use back_and_forth.Prelude.{
  ℤ, neg_ℤ, ℕ, ◌+◌, ◌≡◌, ◌≢◌, ◌≤◌, ◌<◌, true, false, List, [], ◌∷◌, ◌++◌, All,
}
use back_and_forth.Token.{Token, TokenKind}
use back_and_forth.Syntax.{
  BinaryOp, add, sub, mul, div, mod_op, eq, ne, lt, le, gt, ge, and_op, or_op, neg, not_op, Expr,
  integer, string, boolean, name, binary, unary,
}

-- Newlines, which may stand behind an operator and inside of parentheses.
abbrev pub Blank : List Token → Type 0
Blank ns = All (λ t. t.kind ≡ TokenKind.newline) ns

-- The layers of docs/GRAMMAR.md, from the loosest, and the operators of each.
pub data IsOperator : ℕ → TokenKind → BinaryOp → Type 0 where
  or_expression : IsOperator 1 TokenKind.or_or or_op
  and_expression : IsOperator 2 TokenKind.and_and and_op
  equality_equal : IsOperator 3 TokenKind.equal_equal eq
  equality_different : IsOperator 3 TokenKind.bang_equal ne
  relational_less : IsOperator 4 TokenKind.less lt
  relational_less_equal : IsOperator 4 TokenKind.less_equal le
  relational_greater : IsOperator 4 TokenKind.greater gt
  relational_greater_equal : IsOperator 4 TokenKind.greater_equal ge
  additive_plus : IsOperator 5 TokenKind.plus add
  additive_minus : IsOperator 5 TokenKind.minus sub
  multiplicative_star : IsOperator 6 TokenKind.star mul
  multiplicative_slash : IsOperator 6 TokenKind.slash div
  multiplicative_percent : IsOperator 6 TokenKind.percent mod_op

mutual
  pub data Primary : List Token → Expr → Type 0 where
    integer_literal :
        (t : Token) → t.kind ≡ TokenKind.integer → Primary (t ∷ []) (integer t t.value)
    string_literal : (t : Token) → t.kind ≡ TokenKind.string → Primary (t ∷ []) (string t t.text)
    true_literal : (t : Token) → t.kind ≡ TokenKind.true_kw → Primary (t ∷ []) (boolean t true)
    false_literal : (t : Token) → t.kind ≡ TokenKind.false_kw → Primary (t ∷ []) (boolean t false)
    variable :
        (t : Token)
        → t.kind ≡ TokenKind.identifier
        → All (λ c. c ≢ b'.') t.text
        → Primary (t ∷ []) (name t t.text)
    parenthesised :
        (l r : Token) (ns ts ms : List Token) (e : Expr)
        → l.kind ≡ TokenKind.lparen
        → r.kind ≡ TokenKind.rparen
        → Blank ns
        → Blank ms
        → Binary 1 ts e
        → Primary (l ∷ ns ++ (ts ++ (ms ++ (r ∷ [])))) e

  pub data Unary : List Token → Expr → Type 0 where
    primary : (ts : List Token) (e : Expr) → Primary ts e → Unary ts e
    -- A minus goes into the literal behind it.
    negative :
        (op t : Token) (v : ℤ) (ns ts : List Token)
        → op.kind ≡ TokenKind.minus
        → Blank ns
        → Unary ts (integer t v)
        → Unary (op ∷ ns ++ ts) (integer op (neg_ℤ v))
    minus :
        (op : Token) (ns ts : List Token) (e : Expr)
        → op.kind ≡ TokenKind.minus
        → Blank ns
        → Unary ts e
        → ((t : Token) → (v : ℤ) → e ≢ integer t v)
        → Unary (op ∷ ns ++ ts) (unary op neg e)
    bang :
        (op : Token) (ns ts : List Token) (e : Expr)
        → op.kind ≡ TokenKind.bang
        → Blank ns
        → Unary ts e
        → Unary (op ∷ ns ++ ts) (unary op not_op e)

  -- Operators of at least a precedence: the left operand has operators of the same one or a higher
  -- one, and the right operand of a higher one.
  pub data Binary : ℕ → List Token → Expr → Type 0 where
    operand : (m : ℕ) (ts : List Token) (e : Expr) → Unary ts e → Binary m ts e
    operator :
        (m p : ℕ) (t : Token) (op : BinaryOp) (ls ns rs : List Token) (l r : Expr)
        → IsOperator p t.kind op
        → m ≤ p
        → Binary p ls l
        → Blank ns
        → Binary (p + 1) rs r
        → Binary m (ls ++ (t ∷ ns ++ rs)) (binary t op l r)

-- What may follow an expression of precedence `m`: no name and no call goes on, and no operator
-- binds as tight.
pub record Follows (m : ℕ) (kind : TokenKind) : Type 0 where
  pub no_dot : kind ≢ TokenKind.dot
  pub no_call : kind ≢ TokenKind.lparen
  pub looser : (op : BinaryOp) → (p : ℕ) → IsOperator p kind op → p < m
