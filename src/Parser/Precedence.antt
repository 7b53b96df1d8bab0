-- ===== src/Parser/Precedence.antt =====
-- The loop of `parse_binary` over the operands of an expression.
use back_and_forth.Prelude.{
  ℕ, zero, suc, ◌+◌, ◌≡◌, ◌≢◌, ◌≤◌, ◌<◌, refl, sym, ap, ◌∙◌, true, false, List, ◌∷◌, ◌++◌, none,
  some, arith, length, length-append, append_assoc,
}
use back_and_forth.Token.{Token, TokenKind}
use back_and_forth.Diagnostic.{Diagnostics}
use back_and_forth.Syntax.{BinaryOp, Expr, is_null, null, binary}
use back_and_forth.Parser.Stream.{
  M, pure, ◌>>=◌, first_token, peek_token, advance_token, is_newline, skip_newlines,
}
use back_and_forth.Parser.Expressions.{
  binary_op_for, parse_unary, binary_round, binary_loop, parse_binary,
}
use back_and_forth.Parser.Grammar.{Blank, Binary, Follows}
use back_and_forth.Parser.Reads.{
  state, bind-eq, advance_token-eq, skip_newlines-eq, operator_at-eq, operator_at-Follows,
  IsOperator-binary_op_for,
}
use back_and_forth.Parser.Shape.{Heads-first, Binary-Heads, Binary-ne-null}

-- Reading an operand, whatever follows it that does not go on with a name; `k` bounds the
-- recursion of `parse_binary`, and `n` the operators in a row.
abbrev pub ReadsUnary : List Token → Expr → Type 0
ReadsUnary ts e =
    (k n : ℕ) (rest : List Token) (d : Diagnostics)
    → (first_token rest).kind ≢ TokenKind.dot
    → (first_token rest).kind ≢ TokenKind.lparen
    → length (ts ++ rest) ≤ k
    → length (ts ++ rest) < n
    → parse_unary (parse_binary k 1) n (state (ts ++ rest) d) ≡ some (e, state rest d)

-- The part of `parse_binary` behind its first operand.
abbrev pub behind : ℕ → ℕ → ℕ → Expr → M Expr
behind k n m left = elim (is_null left) [
  | true ↦ pure null
  | false ↦ binary_loop (parse_binary k) n m left
]

-- Reading as far as a left operand of precedence `p` goes: the loop is left with that operand, and
-- with fuel for what follows.
abbrev pub ReadsLeft : ℕ → List Token → Expr → Type 0
ReadsLeft p ts e =
    (m k n : ℕ) (rest : List Token) (d : Diagnostics)
    → m ≤ p
    → Follows (suc p) (first_token rest).kind
    → length (ts ++ rest) ≤ k
    → length (ts ++ rest) < n
    → (n' : ℕ) × (length rest < n')
      × ((parse_unary (parse_binary k 1) (suc k) >>= behind k n m) (state (ts ++ rest) d)
          ≡ binary_loop (parse_binary k) n' m e (state rest d))

abbrev pub ReadsBinary : ℕ → List Token → Expr → Type 0
ReadsBinary m ts e =
    (k : ℕ) (rest : List Token) (d : Diagnostics)
    → Follows m (first_token rest).kind
    → length (ts ++ rest) < k
    → parse_binary k m (state (ts ++ rest) d) ≡ some (e, state rest d)

Follows-weaken : (m n : ℕ) (kind : TokenKind) → m ≤ n → Follows m kind → Follows n kind
Follows-weaken m n kind le f = record {
  no_dot = f.no_dot;
  no_call = f.no_call;
  looser = λ op p h. let l = f.looser op p h in omega arith;
}

loop_stops :
    (right_of : ℕ → M Expr) (n m : ℕ) (e : Expr) (rest : List Token) (d : Diagnostics)
    → length rest < n
    → Follows m (first_token rest).kind
    → binary_loop right_of n m e (state rest d) ≡ some (e, state rest d)
unfolding binary_loop
loop_stops right_of zero m e rest d h f = absurd (omega arith)
loop_stops right_of (suc n) m e rest d h f =
    bind-eq peek_token _ (state rest d) (state rest d) (first_token rest) _ refl (
      ap
        (λ o.
          binary_round right_of (binary_loop right_of n m) (first_token rest) e o (state rest d))
        (operator_at-Follows m (first_token rest).kind f))

pub ReadsLeft-ReadsBinary :
    (m : ℕ) (ts : List Token) (e : Expr) → ReadsLeft m ts e → ReadsBinary m ts e
unfolding parse_binary
ReadsLeft-ReadsBinary m ts e reads zero rest d f h = absurd (omega arith)
ReadsLeft-ReadsBinary m ts e reads (suc k) rest d f h =
    let (n', fuel, same) =
      reads m k (suc k) rest d (omega arith)
        (Follows-weaken m (suc m) (first_token rest).kind (omega arith) f) (omega arith)
        (omega arith) in
    same ∙ loop_stops (parse_binary k) n' m e rest d fuel f

-- A round of the loop, whose right operand is read.
loop_goes_on :
    (k n m p : ℕ) (t : Token) (op : BinaryOp) (ns rs rest : List Token) (l r : Expr)
    (d : Diagnostics)
    → binary_op_for t.kind ≡ some (op, p)
    → m ≤ p
    → Blank ns
    → is_newline (first_token (rs ++ rest)).kind ≡ false
    → is_null r ≡ false
    → parse_binary k (p + 1) (state (rs ++ rest) d) ≡ some (r, state rest d)
    → binary_loop (parse_binary k) (suc n) m l (state (t ∷ ns ++ (rs ++ rest)) d)
      ≡ binary_loop (parse_binary k) n m (binary t op l r) (state rest d)
unfolding binary_loop
loop_goes_on k n m p t op ns rs rest l r d h le b head nonnull right =
    let p₀ = state (t ∷ ns ++ (rs ++ rest)) d in
    let loop = binary_loop (parse_binary k) n m in
    bind-eq peek_token _ p₀ p₀ t _ refl (
      ap (λ o. binary_round (parse_binary k) loop t l o p₀) (operator_at-eq m p t.kind op h le)
      ∙ bind-eq advance_token _ p₀ (state (ns ++ (rs ++ rest)) d) t _
          (advance_token-eq t (ns ++ (rs ++ rest)) d (λ z. cc (h, ap binary_op_for z)))
          (bind-eq skip_newlines _ _ (state (rs ++ rest) d) tt _
            (skip_newlines-eq ns (rs ++ rest) d b head)
            (bind-eq (parse_binary k (p + 1)) _ _ (state rest d) r _ right (
              ap
                (λ x.
                  elim x as (λ _. M Expr) [ true ↦ pure l | false ↦ loop (binary t op l r) ]
                    (state rest d))
                nonnull))))

pub left-operand :
    (p : ℕ) (ts : List Token) (e : Expr) → is_null e ≡ false → ReadsUnary ts e → ReadsLeft p ts e
left-operand p ts e nonnull reads m k n rest d le f h l = (
  n,
  omega (arith, length-append ts rest),
  bind-eq (parse_unary (parse_binary k 1) (suc k)) _ _ (state rest d) e _
      (reads k (suc k) rest d f.no_dot f.no_call h (omega arith))
      (ap
        (λ x.
          elim x as (λ _. M Expr) [ true ↦ pure null | false ↦ binary_loop (parse_binary k) n m e ]
            (state rest d))
        nonnull),
)

-- An operator is followed as an operand of a lower or the same precedence is.
operator-Follows :
    (p : ℕ) (kind : TokenKind) (op : BinaryOp)
    → binary_op_for kind ≡ some (op, p)
    → Follows (suc p) kind
operator-Follows p kind op h = record {
  no_dot = λ z. cc (h, ap binary_op_for z);
  no_call = λ z. cc (h, ap binary_op_for z);
  looser = λ op' p' h'.
      let e =
        ap (λ o. elim o as (λ _. ℕ) [ none ↦ 0 | some x ↦ x.1 ])
          (sym h ∙ IsOperator-binary_op_for p' kind op' h') in
      omega arith;
}

-- The operator behind a left operand, and its right operand.
right-operand :
    (k n m p : ℕ) (t : Token) (op : BinaryOp) (ns rs rest : List Token) (l r : Expr)
    (d : Diagnostics)
    → binary_op_for t.kind ≡ some (op, p)
    → m ≤ p
    → Blank ns
    → Binary (p + 1) rs r
    → parse_binary k (p + 1) (state (rs ++ rest) d) ≡ some (r, state rest d)
    → length (t ∷ ns ++ (rs ++ rest)) < n
    → (n' : ℕ) × (length rest < n')
      × (binary_loop (parse_binary k) n m l (state (t ∷ ns ++ (rs ++ rest)) d)
          ≡ binary_loop (parse_binary k) n' m (binary t op l r) (state rest d))
right-operand k zero m p t op ns rs rest l r d h le b dr right fuel = absurd (omega arith)
right-operand k (suc n) m p t op ns rs rest l r d h le b dr right fuel = (
  n,
  omega (arith, length-append ns (rs ++ rest), length-append rs rest),
  loop_goes_on k n m p t op ns rs rest l r d h le b
      (Heads-first rs rest (Binary-Heads (p + 1) rs r dr)) (Binary-ne-null (p + 1) rs r dr) right,
)

pub left-operator :
    (q p : ℕ) (t : Token) (op : BinaryOp) (ls ns rs : List Token) (l r : Expr)
    → binary_op_for t.kind ≡ some (op, p)
    → q ≤ p
    → Blank ns
    → Binary (p + 1) rs r
    → ReadsLeft p ls l
    → ReadsLeft (p + 1) rs r
    → ReadsLeft q (ls ++ (t ∷ ns ++ rs)) (binary t op l r)
left-operator q p t op ls ns rs l r h le b dr reads_left reads_right m k n rest d lem f hk hn =
    let from = t ∷ ns ++ (rs ++ rest) in
    let assoc : (ls ++ (t ∷ ns ++ rs)) ++ rest ≡ ls ++ from =
      append_assoc ls (t ∷ ns ++ rs) rest ∙ ap (λ x. ls ++ (t ∷ x)) (append_assoc ns rs rest) in
    let total = ap length assoc in
    let tail = length-append ls from in
    let inner = length-append ns (rs ++ rest) in
    let right =
      ReadsLeft-ReadsBinary (p + 1) rs r reads_right k rest d
        (Follows-weaken (suc q) (p + 1) (first_token rest).kind (omega arith) f) (omega arith) in
    let (n₁, fuel, before) =
      reads_left m k n from d (omega arith) (operator-Follows p t.kind op h) (omega arith)
        (omega arith) in
    let (n₂, left, round) =
      right-operand k n₁ m p t op ns rs rest l r d h (omega arith) b dr right fuel in
    (
      n₂,
      left,
      ap (λ us. (parse_unary (parse_binary k 1) (suc k) >>= behind k n m) (state us d)) assoc
          ∙ before
          ∙ round,
    )
