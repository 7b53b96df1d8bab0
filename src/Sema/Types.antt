-- ===== src/Sema/Types.antt =====
-- Types as the analyser reads them: comparing them, the type of a binding, of a call and of a
-- parameter (`binding_type`, `expected_call_parameter`, `valid_switch_type`).
use back_and_forth.Prelude.{
  ℕ, Bool, ◌||◌, List, [], ◌∷◌, Option, none, some, Text, ◌==◌, if◌then◌else◌, get_elem?,
}
use back_and_forth.Syntax.{BafType, unknown, void, int, str, bool, CallInfo, Function, Parameter}
use back_and_forth.Sema.Builtins.{BuiltinSpec, find_builtin}
use back_and_forth.Sema.Env.{own, external, Binding, Environment, env_add}

-- The value of the enumerator.
abbrev type_code : BafType → ℕ
type_code unknown = 0
type_code void = 1
type_code int = 2
type_code str = 3
type_code bool = 4

abbrev pub type_eq : BafType → BafType → Bool
type_eq a b = type_code a == type_code b

abbrev pub is_unknown : BafType → Bool
is_unknown t = type_eq t unknown

-- The parameter with this index of the function with that one.
abbrev pub parameter_type : List Function → ℕ → ℕ → BafType
parameter_type fs f i = elim (get_elem? fs f) [
  | none ↦ unknown
  | some g ↦ elim (get_elem? g.params i) [ none ↦ unknown | some q ↦ q.type ]
]

abbrev pub return_type_of : List Function → ℕ → BafType
return_type_of fs f = elim (get_elem? fs f) [ none ↦ unknown | some g ↦ g.return_type ]

-- `*binding_type(binding)`
abbrev pub binding_type : List Function → Binding → BafType
binding_type fs b = elim b.slot [ own t ↦ t | external f i ↦ parameter_type fs f i ]

abbrev pub type_at : List (Text × BafType) → ℕ → Option BafType
type_at ps i = elim (get_elem? ps i) [ none ↦ none | some q ↦ some q.1 ]

abbrev pub resolved_parameter_type : List Function → CallInfo → ℕ → BafType
resolved_parameter_type fs info i = elim info.resolved [
  | none ↦ unknown
  | some f ↦ parameter_type fs f i
]

-- The tail of `expected_call_parameter`: a builtin's own type where the index is in range.
abbrev pub expected_at : List Function → CallInfo → Option BuiltinSpec → ℕ → BafType
expected_at fs info none i = resolved_parameter_type fs info i
expected_at fs info (some b) i =
    if b.variadic
    then unknown
    else elim (type_at b.parameters i) [ none ↦ resolved_parameter_type fs info i | some t ↦ t ]

unfoldable pub expected_call_parameter : List Function → CallInfo → Option ℕ → BafType
unfolding find_builtin
expected_call_parameter fs info none = unknown
expected_call_parameter fs info (some i) = expected_at fs info (find_builtin info.callee) i

-- `call->return_type`, after it was set from the resolved function's.
abbrev pub call_type : List Function → CallInfo → BafType
call_type fs info = elim info.resolved [ none ↦ info.return_type | some f ↦ return_type_of fs f ]

abbrev pub valid_switch_type : BafType → Bool
valid_switch_type t = type_eq t str || type_eq t int || type_eq t bool

-- The bindings of a function's parameters, which a block of its own begins with.
abbrev pub bind_parameters : ℕ → ℕ → List Parameter → Environment → Environment
bind_parameters f i [] env = env
bind_parameters f i (q ∷ qs) env =
    bind_parameters f (ℕ.suc i) qs (env_add env q.name (external f i) q.token)
