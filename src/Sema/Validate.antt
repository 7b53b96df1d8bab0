-- ===== src/Sema/Validate.antt =====
-- `validate_call` and `validate_expr`.
use back_and_forth.Prelude.{
  Bool, true, false, ◌&&◌, ◌||◌, not, List, Option, none, some, Text, if◌then◌else◌,
}
use back_and_forth.Token.{Position}
use back_and_forth.Diagnostic.{
  Diagnostics, Message, diag_error, function_does_not_return_a_value, can_print_only_values,
  unknown_name, cannot_compare, cannot_compare_void, cannot_concatenate, left_side_is,
  right_side_is, expected_but_found,
}
use back_and_forth.Syntax.{
  BafType, unknown, void, int, str, bool, BinaryOp, add, eq, ne, lt, le, gt, ge, and_op, or_op,
  UnaryOp, neg, not_op, CallInfo, ArgInfo, Expr, Args, null, integer, string, boolean, name, binary,
  unary, call, no_args, arg, Function,
}
use back_and_forth.Sema.Builtins.{BuiltinSpec, find_builtin}
use back_and_forth.Sema.Env.{Environment, env_find}
use back_and_forth.Sema.Types.{
  type_eq, is_unknown, binding_type, expected_call_parameter, call_type,
}

unfoldable pub report_if : Bool → Diagnostics → Position → Message → Diagnostics
report_if test diag at m = if test then diag_error diag at m else diag

-- A type other than `unknown` and `t`.
abbrev pub clashes : BafType → BafType → Bool
clashes a t = not (is_unknown a) && not (type_eq a t)

abbrev pub is_variadic : Option BuiltinSpec → Bool
is_variadic none = false
is_variadic (some b) = b.variadic

-- The last test of the loop over a call's arguments.
abbrev pub check_printable : CallInfo → ArgInfo → BafType → Diagnostics → Diagnostics
check_printable info a actual diag =
    report_if
      (is_variadic (find_builtin info.callee)
        && not (is_unknown actual)
        && not (type_eq actual str)
        && not (type_eq actual int)
        && not (type_eq actual bool))
      diag a.token.at (can_print_only_values info.callee)

-- The test of an `==` or `!=`, with the types of both sides.
abbrev pub check_equality : Position → BafType → BafType → Diagnostics → Diagnostics
check_equality at left right diag =
    if not (is_unknown left) && not (is_unknown right) && not (type_eq left right)
    then diag_error diag at (cannot_compare left right)
    else report_if (type_eq left void || type_eq right void) diag at cannot_compare_void

-- The other side of a `+` with a string.
abbrev pub check_concatenation : Position → BafType → Diagnostics → BafType × Diagnostics
check_concatenation at other diag = (
  str,
  report_if
      (not (type_eq other str)
        && not (type_eq other int)
        && not (type_eq other bool)
        && not (is_unknown other))
      diag at (cannot_concatenate other),
)

-- The tests of a `+`, and the type of the sum.
abbrev pub check_add : Position → BafType → BafType → Diagnostics → BafType × Diagnostics
check_add at left right diag =
    if type_eq left str || type_eq right str
    then check_concatenation at (if type_eq left str then right else left) diag
    else (
      int,
      report_if (clashes right int) (report_if (clashes left int) diag at (left_side_is left)) at
          (right_side_is right),
    )

-- How a binary operator types its operands: what it expects of each, and what it yields.
pub data Operation : Type 0 where
  equality addition : Operation
  plain : BafType → BafType → Operation

abbrev pub operation : BinaryOp → Operation
operation and_op = plain bool bool
operation or_op = plain bool bool
operation eq = equality
operation ne = equality
operation add = addition
operation lt = plain int bool
operation le = plain int bool
operation gt = plain int bool
operation ge = plain int bool
operation _ = plain int int

abbrev pub operand_type : Operation → BafType
operand_type (plain operand result) = operand
operand_type _ = unknown

abbrev pub operation_result :
    Position → Operation → BafType → BafType → Diagnostics → BafType × Diagnostics
operation_result at equality left right diag = (bool, check_equality at left right diag)
operation_result at addition left right diag = check_add at left right diag
operation_result at (plain operand result) left right diag = (result, diag)

abbrev pub unary_type : UnaryOp → BafType
unary_type not_op = bool
unary_type neg = int

-- The last test of `validate_expr`.
abbrev pub check_expected : Position → BafType → BafType × Diagnostics → BafType × Diagnostics
check_expected at expected (actual, diag) = (
  actual,
  report_if (not (is_unknown expected) && clashes actual expected) diag at
      (expected_but_found expected actual),
)

abbrev pub check_name :
    List Function → Environment → Position → Text → Diagnostics → BafType × Diagnostics
check_name fs env at n diag = elim (env_find env n) [
  | none ↦ (unknown, diag_error diag at (unknown_name n))
  | some b ↦ (binding_type fs b, diag)
]

-- The head of `validate_call`.
abbrev pub check_call : List Function → CallInfo → Bool → Diagnostics → Diagnostics
check_call fs info used_as_expression diag =
    report_if (used_as_expression && type_eq (call_type fs info) void) diag info.token.at
      (function_does_not_return_a_value info.callee)

unfoldable mutual
  unfolding report_if env_find expected_call_parameter find_builtin

  pub validate_expr :
      List Function → Environment → BafType → Expr → Diagnostics → BafType × Diagnostics
  validate_expr fs env expected null diag = (unknown, diag)
  validate_expr fs env expected (integer t v) diag = check_expected t.at expected (int, diag)
  validate_expr fs env expected (string t v) diag = check_expected t.at expected (str, diag)
  validate_expr fs env expected (boolean t v) diag = check_expected t.at expected (bool, diag)
  validate_expr fs env expected (name t n) diag =
      check_expected t.at expected (check_name fs env t.at n diag)
  validate_expr fs env expected (binary t op left right) diag =
      let o = operation op in
      let (l, d₁) = validate_expr fs env (operand_type o) left diag in
      let (r, d₂) = validate_expr fs env (operand_type o) right d₁ in
      check_expected t.at expected (operation_result t.at o l r d₂)
  validate_expr fs env expected (unary t op operand) diag =
      let (_, d) = validate_expr fs env (unary_type op) operand diag in
      check_expected t.at expected (unary_type op, d)
  validate_expr fs env expected (call t info args) diag =
      check_expected t.at expected
        (call_type fs info, validate_args fs env info args (check_call fs info true diag))

  -- The loop of `validate_call`.
  pub validate_args : List Function → Environment → CallInfo → Args → Diagnostics → Diagnostics
  validate_args fs env info no_args diag = diag
  validate_args fs env info (arg a value rest) diag =
      let (actual, d) =
        validate_expr fs env (expected_call_parameter fs info a.resolved_parameter) value diag in
      validate_args fs env info rest (check_printable info a actual d)

unfoldable pub validate_call :
    List Function → Environment → Bool → CallInfo → Args → Diagnostics → Diagnostics
unfolding validate_args
validate_call fs env used_as_expression info args diag =
    validate_args fs env info args (check_call fs info used_as_expression diag)
