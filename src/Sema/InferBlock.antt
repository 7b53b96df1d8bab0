-- ===== src/Sema/InferBlock.antt =====
-- `infer_block`. The index of `g_current_function`, if there is one, is an argument; a block leaves
-- its bindings in the environment, and the callers drop them where the source resets `env->count`.
use back_and_forth.Prelude.{
  ℕ, zero, suc, ◌-◌, Bool, true, false, not, ◌&&◌, ◌||◌, List, [], ◌∷◌, Option, none, some, Text,
  if◌then◌else◌, get_elem?, length,
}
use back_and_forth.Syntax.{
  BafType, unknown, void, bool, Expr, Stmt, Block, Cases, Branches, null_stmt, var, assign,
  call_stmt, while_stmt, for_stmt, switch_stmt, if_stmt, return_stmt, break_stmt, continue_stmt,
  no_stmts, stmt, no_cases, switch_case, no_branches, branch, Function,
}
use back_and_forth.Sema.Env.{own, Environment, env_add, env_find}
use back_and_forth.Sema.Types.{type_eq, is_unknown, binding_type}
use back_and_forth.Sema.Infer.{Inference, fills, infer_expr, infer_args}

-- Without the newest `n` bindings.
abbrev pub drop_newest : ℕ → Environment → Environment
drop_newest zero env = env
drop_newest (suc n) [] = []
drop_newest (suc n) (b ∷ bs) = drop_newest n bs

-- `env->count = count`
abbrev pub reset : ℕ → Inference → Inference
reset count s = record s { env = drop_newest (length s.env - count) s.env }

abbrev pub expected_of : List Function → Environment → Text → BafType
expected_of fs env n = elim (env_find env n) [ none ↦ unknown | some b ↦ binding_type fs b ]

-- `return_type = type`, in the function with index `f`.
unfoldable pub set_return_type : List Function → ℕ → BafType → List Function
set_return_type [] f type = []
set_return_type (g ∷ gs) zero type = record g { return_type = type } ∷ gs
set_return_type (g ∷ gs) (suc f) type = g ∷ set_return_type gs f type

abbrev pub return_expectation : Option Function → BafType
return_expectation none = unknown
return_expectation (some f) =
    if f.explicit_return_type || not (type_eq f.return_type void) then f.return_type else unknown

-- Whether an unannotated function takes the type of what it returns.
abbrev pub takes_type : Function → BafType → Bool
takes_type f actual =
    not f.explicit_return_type
    && type_eq f.return_type void
    && not (is_unknown actual)
    && not (type_eq actual void)

abbrev pub take_return : ℕ → Function → BafType → Inference → Inference
take_return i f actual s = elim (takes_type f actual) [
  | true ↦ record s { functions = set_return_type s.functions i actual; changed = true }
  | false ↦ s
]

-- The end of `case STMT_RETURN`, with the type that was inferred.
unfoldable pub infer_returned : Option ℕ → BafType → Inference → Inference
unfolding set_return_type
infer_returned none actual s = s
infer_returned (some i) actual s = elim (get_elem? s.functions i) [
  | none ↦ s
  | some f ↦ take_return i f actual s
]

abbrev pub current : Option ℕ → List Function → Option Function
current none fs = none
current (some i) fs = get_elem? fs i

unfoldable pub infer_return : Option ℕ → Expr → Inference → Inference
unfolding infer_expr infer_returned
infer_return cur e s =
    let (actual, s₁) = infer_expr e (return_expectation (current cur s.functions)) s in
    infer_returned cur actual s₁

-- The value of a case that is not the default: the subject's type, and the state.
unfoldable pub infer_case_value : Expr → Bool → Expr → BafType → Inference → BafType × Inference
unfolding infer_expr
infer_case_value subject true value type s = (type, s)
infer_case_value subject false value type s =
    let (case_type, s₁) = infer_expr value type s in
    elim (fills type case_type) [
      | true ↦ (case_type, (infer_expr subject case_type s₁).1)
      | false ↦ (type, s₁)
    ]

unfoldable mutual
  unfolding infer_expr infer_args infer_return infer_case_value env_find

  pub infer_stmt : Option ℕ → Stmt → Inference → Inference
  infer_stmt cur null_stmt s = s
  infer_stmt cur (var t type n initializer) s =
      let s₁ = (infer_expr initializer type s).1 in
      record s₁ { env = env_add s₁.env n (own type) t }
  infer_stmt cur (assign t n value) s = (infer_expr value (expected_of s.functions s.env n) s).1
  infer_stmt cur (call_stmt t info args) s = infer_args info args s
  infer_stmt cur (while_stmt t condition body) s =
      let s₁ = (infer_expr condition bool s).1 in reset (length s₁.env) (infer_block cur body s₁)
  infer_stmt cur (for_stmt t init condition step body) s =
      let s₁ = (infer_expr condition bool (infer_stmt cur init s)).1 in
      reset (length s.env) (infer_stmt cur step (infer_block cur body s₁))
  infer_stmt cur (if_stmt t branches) s = infer_branches cur branches s
  infer_stmt cur (return_stmt t value) s = infer_return cur value s
  infer_stmt cur (break_stmt t) s = s
  infer_stmt cur (continue_stmt t) s = s
  infer_stmt cur (switch_stmt t subject cases) s =
      let (type, s₁) = infer_expr subject unknown s in infer_cases cur subject type cases s₁

  pub infer_block : Option ℕ → Block → Inference → Inference
  infer_block cur no_stmts s = s
  infer_block cur (stmt x rest) s = infer_block cur rest (infer_stmt cur x s)

  pub infer_cases : Option ℕ → Expr → BafType → Cases → Inference → Inference
  infer_cases cur subject type no_cases s = s
  infer_cases cur subject type (switch_case t is_default value body rest) s =
      let (type', s₁) = infer_case_value subject is_default value type s in
      infer_cases cur subject type' rest (reset (length s₁.env) (infer_block cur body s₁))

  pub infer_branches : Option ℕ → Branches → Inference → Inference
  infer_branches cur no_branches s = s
  infer_branches cur (branch t condition body rest) s =
      let s₁ = (infer_expr condition bool s).1 in
      infer_branches cur rest (reset (length s₁.env) (infer_block cur body s₁))
