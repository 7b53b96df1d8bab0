-- ===== src/Sema/InferBlockKept.antt =====
-- Inference of blocks, and the rounds of `analyze_program`, keep what was known.
use back_and_forth.Prelude.{
  ℕ, zero, suc, Bool, true, false, List, [], ◌∷◌, ◌≡◌, Option, none, some, get_elem?, Bool-cases,
  Option-cases, inl, inr, length,
}
use back_and_forth.Syntax.{
  BafType, unknown, bool, Expr, Stmt, Block, Cases, Branches, Function, null_stmt, var, assign,
  call_stmt, while_stmt, for_stmt, switch_stmt, if_stmt, return_stmt, break_stmt, continue_stmt,
  no_stmts, stmt, no_cases, switch_case, no_branches, branch,
}
use back_and_forth.Sema.Types.{bind_parameters}
use back_and_forth.Sema.Infer.{Inference, fills, infer_expr}
use back_and_forth.Sema.InferBlock.{
  expected_of, takes_type, take_return, infer_returned, infer_return, return_expectation, current,
  reset, infer_case_value, infer_stmt, infer_block, infer_cases, infer_branches,
}
use back_and_forth.Sema.Analyze.{Round, infer_functions, infer_round, infer_rounds}
use back_and_forth.Sema.Kept.{Kept, set_return_type-Kept}
use back_and_forth.Sema.InferKept.{Keeps, infer_expr-Keeping, infer_args-Keeps}

module _ (fs : List Function) where
  take_return-Keeps :
      (i : ℕ) (f : Function) (t : BafType) (s : Inference)
      → get_elem? s.functions i ≡ some f
      → Keeps fs s
      → Keeps fs (take_return i f t s)
  take_return-Keeps i f t s at k = elim (Bool-cases (takes_type f t)) [
    | inl e ↦ rw (e, take_return) (set_return_type-Kept fs s.functions i f t at e k)
    | inr e ↦ rw (e, take_return) k
  ]

  infer_returned-Keeps :
      (cur : Option ℕ) (t : BafType) (s : Inference)
      → Keeps fs s
      → Keeps fs (infer_returned cur t s)
  unfolding infer_returned
  infer_returned-Keeps none t s k = k
  infer_returned-Keeps (some i) t s k = elim (Option-cases (get_elem? s.functions i)) [
    | inl e ↦ rw (e, infer_returned) k
    | inr (f, e) ↦ rw (e, infer_returned) (take_return-Keeps i f t s e k)
  ]

  infer_return-Keeps :
      (cur : Option ℕ) (e : Expr) (s : Inference) → Keeps fs s → Keeps fs (infer_return cur e s)
  unfolding infer_return
  infer_return-Keeps cur e s k =
      let expected = return_expectation (current cur s.functions) in
      let (actual, s₁) = infer_expr e expected s in
      infer_returned-Keeps cur actual s₁ (infer_expr-Keeping fs e expected s k)

  infer_case_value-Keeps :
      (subject : Expr) (is_default : Bool) (value : Expr) (t : BafType) (s : Inference)
      → Keeps fs s
      → Keeps fs (infer_case_value subject is_default value t s).1
  unfolding infer_case_value
  infer_case_value-Keeps subject true value t s k = k
  infer_case_value-Keeps subject false value t s k =
      let (case_type, s₁) = infer_expr value t s in
      let k₁ = infer_expr-Keeping fs value t s k in
      elim (Bool-cases (fills t case_type)) [
        | inl e ↦ rw (e, infer_case_value) (infer_expr-Keeping fs subject case_type s₁ k₁)
        | inr e ↦ rw (e, infer_case_value) k₁
      ]

  mutual
    unfolding infer_stmt

    infer_stmt-Keeps :
        (cur : Option ℕ) (x : Stmt) (s : Inference) → Keeps fs s → Keeps fs (infer_stmt cur x s)
    infer_stmt-Keeps cur null_stmt s k = k
    infer_stmt-Keeps cur (var t type n e) s k = infer_expr-Keeping fs e type s k
    infer_stmt-Keeps cur (assign t n e) s k =
        infer_expr-Keeping fs e (expected_of s.functions s.env n) s k
    infer_stmt-Keeps cur (call_stmt t info args) s k = infer_args-Keeps fs info args s k
    infer_stmt-Keeps cur (while_stmt t e b) s k =
        infer_block-Keeps cur b (infer_expr e bool s).1 (infer_expr-Keeping fs e bool s k)
    infer_stmt-Keeps cur (for_stmt t i e x b) s k =
        let s₀ = infer_stmt cur i s in
        let s₁ = (infer_expr e bool s₀).1 in
        infer_stmt-Keeps cur x (infer_block cur b s₁) (
          infer_block-Keeps cur b s₁ (infer_expr-Keeping fs e bool s₀ (infer_stmt-Keeps cur i s k)))
    infer_stmt-Keeps cur (if_stmt t bs) s k = infer_branches-Keeps cur bs s k
    infer_stmt-Keeps cur (return_stmt t e) s k = infer_return-Keeps cur e s k
    infer_stmt-Keeps cur (break_stmt t) s k = k
    infer_stmt-Keeps cur (continue_stmt t) s k = k
    infer_stmt-Keeps cur (switch_stmt t e cs) s k =
        let (type, s₁) = infer_expr e unknown s in
        infer_cases-Keeps cur e type cs s₁ (infer_expr-Keeping fs e unknown s k)

    pub infer_block-Keeps :
        (cur : Option ℕ) (b : Block) (s : Inference) → Keeps fs s → Keeps fs (infer_block cur b s)
    infer_block-Keeps cur no_stmts s k = k
    infer_block-Keeps cur (stmt x rest) s k =
        infer_block-Keeps cur rest (infer_stmt cur x s) (infer_stmt-Keeps cur x s k)

    infer_cases-Keeps :
        (cur : Option ℕ) (e : Expr) (type : BafType) (cs : Cases) (s : Inference)
        → Keeps fs s
        → Keeps fs (infer_cases cur e type cs s)
    infer_cases-Keeps cur e type no_cases s k = k
    infer_cases-Keeps cur e type (switch_case t d v b rest) s k =
        let (type', s₁) = infer_case_value e d v type s in
        infer_cases-Keeps cur e type' rest (reset (length s₁.env) (infer_block cur b s₁))
          (infer_block-Keeps cur b s₁ (infer_case_value-Keeps e d v type s k))

    infer_branches-Keeps :
        (cur : Option ℕ) (bs : Branches) (s : Inference)
        → Keeps fs s
        → Keeps fs (infer_branches cur bs s)
    infer_branches-Keeps cur no_branches s k = k
    infer_branches-Keeps cur (branch t e b rest) s k =
        let s₁ = (infer_expr e bool s).1 in
        infer_branches-Keeps cur rest (reset (length s₁.env) (infer_block cur b s₁))
          (infer_block-Keeps cur b s₁ (infer_expr-Keeping fs e bool s k))

  infer_functions-Kept :
      (i : ℕ) (remaining : List Function) (r : Round)
      → Kept fs r.0
      → Kept fs (infer_functions i remaining r).0
  unfolding infer_functions
  infer_functions-Kept i [] r k = k
  infer_functions-Kept i (f ∷ remaining) (gs, changed) k =
      let s : Inference = record {
        functions = gs;
        env = bind_parameters i 0 f.params [];
        changed = changed;
      } in
      let s₁ = infer_block (some i) f.body s in
      infer_functions-Kept (suc i) remaining (s₁.functions, s₁.changed)
        (infer_block-Keeps (some i) f.body s k)

  infer_round-Kept : (b : Block) (gs : List Function) → Kept fs gs → Kept fs (infer_round b gs).0
  unfolding infer_round
  infer_round-Kept b gs k =
      let (hs, changed) = infer_functions 0 gs (gs, false) in
      infer_block-Keeps none b (record { functions = hs; env = []; changed = changed })
        (infer_functions-Kept 0 gs (gs, false) k)

  pub infer_rounds-Kept :
      (n : ℕ) (b : Block) (gs : List Function) → Kept fs gs → Kept fs (infer_rounds n b gs)
  unfolding infer_rounds
  infer_rounds-Kept zero b gs k = k
  infer_rounds-Kept (suc n) b gs k =
      let (hs, changed) = infer_round b gs in
      let k₁ = infer_round-Kept b gs k in
      elim (Bool-cases changed) [
        | inl e ↦ rw (e, infer_rounds) (infer_rounds-Kept n b hs k₁)
        | inr e ↦ rw (e, infer_rounds) k₁
      ]
