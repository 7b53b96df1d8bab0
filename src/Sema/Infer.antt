-- ===== src/Sema/Infer.antt =====
-- `infer_expr` and `infer_call`: types that are not known yet are filled in from their uses.
-- `Call.return_type`, which is brought up to date from the function before each reading, is read
-- from the function; a round of `analyze_program` that brings only such copies up to date is
-- followed by one that changes nothing, so that the types come out the same.
use back_and_forth.Prelude.{
  ℕ, zero, suc, Bool, true, false, not, ◌&&◌, ◌||◌, List, [], ◌∷◌, none, some, Text, text_eq,
  if◌then◌else◌,
}
use back_and_forth.Syntax.{
  BafType, unknown, int, str, bool, CallInfo, ArgInfo, Expr, Args, null, integer, string, boolean,
  name, binary, unary, call, no_args, arg, Parameter, Function,
}
use back_and_forth.Sema.Env.{own, external, Binding, Environment, env_find}
use back_and_forth.Sema.Types.{
  type_eq, is_unknown, binding_type, parameter_type, expected_call_parameter, call_type,
}
use back_and_forth.Sema.Validate.{Operation, equality, addition, plain, operation, unary_type}

-- What inference updates: the functions, the environment and `*changed`.
pub record Inference : Type 0 where
  pub functions : List Function
  pub env : Environment
  pub changed : Bool

-- `params[i].type = type`
unfoldable pub set_type : List Parameter → ℕ → BafType → List Parameter
set_type [] i type = []
set_type (q ∷ qs) zero type = record q { type = type } ∷ qs
set_type (q ∷ qs) (suc i) type = q ∷ set_type qs i type

-- The same, in the function with index `f`.
unfoldable pub set_parameter_type : List Function → ℕ → ℕ → BafType → List Function
unfolding set_type
set_parameter_type [] f i type = []
set_parameter_type (g ∷ gs) zero i type = record g { params = set_type g.params i type } ∷ gs
set_parameter_type (g ∷ gs) (suc f) i type = g ∷ set_parameter_type gs f i type

-- `binding->type = type` for the binding that `env_find` finds.
unfoldable pub set_own : Environment → Text → BafType → Environment
unfolding text_eq
set_own [] n type = []
set_own (b ∷ bs) n type =
    if text_eq b.name n then record b { slot = own type } ∷ bs else b ∷ set_own bs n type

abbrev pub fill_parameter : ℕ → ℕ → BafType → Inference → Inference
fill_parameter f i type s = record s {
  functions = set_parameter_type s.functions f i type;
  changed = true;
}

-- `*slot = type; *changed = true`
abbrev pub fill_binding : Binding → BafType → Inference → Inference
fill_binding b type s = elim b.slot [
  | own old ↦ record s { env = set_own s.env b.name type; changed = true }
  | external f i ↦ fill_parameter f i type s
]

-- A type to fill in, and one to fill it with.
abbrev pub fills : BafType → BafType → Bool
fills old type = is_unknown old && not (is_unknown type)

unfoldable pub infer_binding : Binding → BafType → Inference → BafType × Inference
unfolding set_parameter_type set_own
infer_binding b expected s =
    let type = binding_type s.functions b in
    if fills type expected then (expected, fill_binding b expected s) else (type, s)

-- `case EXPR_NAME`
unfoldable pub infer_name : Text → BafType → Inference → BafType × Inference
unfolding infer_binding env_find
infer_name n expected s = elim (env_find s.env n) [
  | none ↦ (unknown, s)
  | some b ↦ infer_binding b expected s
]

-- Inferring an expression, for the type that is expected of it.
abbrev pub Inferring : Type 0
Inferring = BafType → Inference → BafType × Inference

-- A second inference, which is run under a test only.
abbrev pub again_if : Bool → Inferring → BafType → Inference → Inference
again_if test run type s = elim test [ true ↦ (run type s).1 | false ↦ s ]

-- The end of an `==` or `!=`, with the types of both sides.
unfoldable pub infer_equal : Inferring → Inferring → BafType → BafType → Inference → Inference
infer_equal left right l r s = elim (fills l r) [
  | true ↦ (left r s).1
  | false ↦ again_if (fills r l) right l s
]

-- The end of a `+`.
unfoldable pub infer_sum :
    Inferring → Inferring → BafType → BafType → Inference → BafType × Inference
infer_sum left right l r s = elim (type_eq l str || type_eq r str) [
  | true ↦ (str, s)
  | false ↦ (int, again_if (is_unknown r) right int (again_if (is_unknown l) left int s))
]

-- `case EXPR_BINARY`
unfoldable pub infer_binary : Operation → Inferring → Inferring → Inference → BafType × Inference
unfolding infer_equal infer_sum
infer_binary equality left right s =
    let (l, s₁) = left unknown s in
    let (r, s₂) = right unknown s₁ in (bool, infer_equal left right l r s₂)
infer_binary addition left right s =
    let (l, s₁) = left unknown s in let (r, s₂) = right unknown s₁ in infer_sum left right l r s₂
infer_binary (plain operand result) left right s =
    let s₁ = (left operand s).1 in (result, (right operand s₁).1)

-- The loop of `infer_call` behind the inference of the argument: its type may be that of a
-- parameter.
unfoldable pub supply_parameter : CallInfo → ArgInfo → Inferring → BafType → Inference → Inference
unfolding set_parameter_type
supply_parameter info a run actual s = elim info.resolved [
  | none ↦ s
  | some f ↦ elim a.resolved_parameter [
    | none ↦ s
    | some i ↦ elim (fills (parameter_type s.functions f i) actual) [
      | true ↦ (run actual (fill_parameter f i actual s)).1
      | false ↦ s
    ]
  ]
]

unfoldable mutual
  unfolding infer_name infer_binary supply_parameter expected_call_parameter

  pub infer_expr : Expr → BafType → Inference → BafType × Inference
  infer_expr null expected s = (unknown, s)
  infer_expr (integer t v) expected s = (int, s)
  infer_expr (string t v) expected s = (str, s)
  infer_expr (boolean t v) expected s = (bool, s)
  infer_expr (name t n) expected s = infer_name n expected s
  infer_expr (binary t op left right) expected s =
      infer_binary (operation op) (λ type u. infer_expr left type u)
        (λ type u. infer_expr right type u) s
  infer_expr (unary t op operand) expected s =
      (unary_type op, (infer_expr operand (unary_type op) s).1)
  infer_expr (call t info args) expected s = (call_type s.functions info, infer_args info args s)

  -- The loop of `infer_call`.
  pub infer_args : CallInfo → Args → Inference → Inference
  infer_args info no_args s = s
  infer_args info (arg a e rest) s =
      let (actual, s₁) =
        infer_expr e (expected_call_parameter s.functions info a.resolved_parameter) s in
      infer_args info rest (supply_parameter info a (λ type u. infer_expr e type u) actual s₁)
