-- ===== src/Sema/Typing.antt =====
-- The typing rules of docs/LANGUAGE.md for expressions. A type that is not known fits anything.
use back_and_forth.Prelude.{false, ◌≡◌, ◌≢◌, ◌⊎◌, List, some}
use back_and_forth.Syntax.{
  BafType, unknown, void, int, str, bool, BinaryOp, add, eq, ne, lt, le, gt, ge, and_op, or_op,
  UnaryOp, neg, not_op, CallInfo, Expr, Args, null, integer, string, boolean, name, binary, unary,
  call, no_args, arg, Function,
}
use back_and_forth.Sema.Builtins.{find_builtin}
use back_and_forth.Sema.Env.{Binding, Environment, env_find}
use back_and_forth.Sema.Types.{binding_type, expected_call_parameter, call_type}
use back_and_forth.Sema.Validate.{is_variadic}

-- One of the types is not known, or they are the same.
abbrev pub Fits : BafType → BafType → Type 0
Fits expected actual = (expected ≡ unknown) ⊎ (actual ≡ unknown) ⊎ (actual ≡ expected)

-- Both operands have a type, and the result is another.
abbrev pub Plain : BafType → BafType → BafType → BafType → BafType → Type 0
Plain operand result l r t = Fits operand l × Fits operand r × (t ≡ result)

-- Values of one type can be compared.
abbrev pub Comparable : BafType → BafType → BafType → Type 0
Comparable l r t = Fits l r × (l ≢ void) × (r ≢ void) × (t ≡ bool)

-- A `+` joins, if one side is a string and the other is a value, and adds integers otherwise.
abbrev pub Joins : BafType → BafType → BafType → Type 0
Joins l r t = ((l ≡ str) ⊎ (r ≡ str)) × (l ≢ void) × (r ≢ void) × (t ≡ str)

abbrev pub Typing : BinaryOp → BafType → BafType → BafType → Type 0
Typing and_op l r t = Plain bool bool l r t
Typing or_op l r t = Plain bool bool l r t
Typing eq l r t = Comparable l r t
Typing ne l r t = Comparable l r t
Typing add l r t = Joins l r t ⊎ Plain int int l r t
Typing lt l r t = Plain int bool l r t
Typing le l r t = Plain int bool l r t
Typing gt l r t = Plain int bool l r t
Typing ge l r t = Plain int bool l r t
Typing _ l r t = Plain int int l r t

abbrev pub UnaryTyping : UnaryOp → BafType → BafType → Type 0
UnaryTyping not_op a t = Fits bool a × (t ≡ bool)
UnaryTyping neg a t = Fits int a × (t ≡ int)

-- An argument of a variadic builtin is a value.
abbrev pub Printable : CallInfo → BafType → Type 0
Printable info t = (is_variadic (find_builtin info.callee) ≡ false) ⊎ (t ≢ void)

unfoldable mutual
  pub HasType : List Function → Environment → Expr → BafType → Type 0
  HasType fs env null t = t ≡ unknown
  HasType fs env (integer _ v) t = t ≡ int
  HasType fs env (string _ v) t = t ≡ str
  HasType fs env (boolean _ v) t = t ≡ bool
  HasType fs env (name _ n) t = (b : Binding) × (env_find env n ≡ some b) × (t ≡ binding_type fs b)
  HasType fs env (binary _ op left right) t =
      (l : BafType) × (r : BafType) × HasType fs env left l
      × HasType fs env right r
      × Typing op l r t
  HasType fs env (unary _ op operand) t =
      (a : BafType) × HasType fs env operand a × UnaryTyping op a t
  HasType fs env (call _ info args) t =
      (t ≡ call_type fs info) × (t ≢ void) × ArgsFit fs env info args

  -- Each argument fits the parameter that it supplies.
  pub ArgsFit : List Function → Environment → CallInfo → Args → Type 0
  ArgsFit fs env info no_args = Unit
  ArgsFit fs env info (arg a e rest) =
      ((t : BafType) × HasType fs env e t
        × Fits (expected_call_parameter fs info a.resolved_parameter) t
        × Printable info t)
      × ArgsFit fs env info rest
