-- ===== src/Sema/Reports.antt =====
-- Reports are only ever added: where validation ends with none, there was none before.
use back_and_forth.Prelude.{
  Bool, true, false, ◌&&◌, ◌||◌, not, List, [], ◌≡◌, refl, Text, if◌then◌else◌, Bool-cases,
  Option-cases, inl, inr,
}
use back_and_forth.Token.{Position}
use back_and_forth.Diagnostic.{Diagnostics, Message, diag_error}
use back_and_forth.Syntax.{
  BafType, CallInfo, Expr, Args, Function, null, integer, string, boolean, name, binary, unary,
  call, no_args, arg,
}
use back_and_forth.Sema.Env.{Environment, env_find}
use back_and_forth.Sema.Types.{type_eq, is_unknown}
use back_and_forth.Sema.Validate.{
  report_if, check_equality, check_add, check_name, Operation, operation, equality, addition, plain,
  operation_result, validate_expr, validate_args, validate_call,
}
use back_and_forth.Sema.Assign.{diag_error-ne-nil}

-- What `d'` says of `d`: with no report now there was none then.
abbrev pub Keeps : Diagnostics → Diagnostics → Type 0
Keeps d d' = d' ≡ [] → d ≡ []

pub report_if-nil :
    (test : Bool) (d : Diagnostics) (at : Position) (m : Message)
    → report_if test d at m ≡ []
    → (d ≡ []) × (test ≡ false)
unfolding report_if
report_if-nil true d at m h = absurd (diag_error-ne-nil d _ h)
report_if-nil false d at m h = (h, refl)

pub report_if-Keeps :
    (test : Bool) (d : Diagnostics) (at : Position) (m : Message) → Keeps d (report_if test d at m)
report_if-Keeps test d at m h = (report_if-nil test d at m h).0

pub diag_error-Keeps : (d : Diagnostics) (at : Position) (m : Message) → Keeps d (diag_error d at m)
diag_error-Keeps d at m h = absurd (diag_error-ne-nil d _ h)

pub if-Keeps :
    (test : Bool) (d x y : Diagnostics) → Keeps d x → Keeps d y → Keeps d (if test then x else y)
if-Keeps true d x y hx hy = hx
if-Keeps false d x y hx hy = hy

check_equality-Keeps :
    (at : Position) (l r : BafType) (d : Diagnostics) → Keeps d (check_equality at l r d)
check_equality-Keeps at l r d =
    let differ = not (is_unknown l) && not (is_unknown r) && not (type_eq l r) in
    elim (Bool-cases differ) [
      | inl e ↦ rw e (diag_error-Keeps d at _)
      | inr e ↦ rw e (report_if-Keeps _ d at _)
    ]

check_add-Keeps : (at : Position) (l r : BafType) (d : Diagnostics) → Keeps d (check_add at l r d).1
check_add-Keeps at l r d = elim (Bool-cases (type_eq l BafType.str || type_eq r BafType.str)) [
  | inl e ↦ rw e (report_if-Keeps _ d at _)
  | inr e ↦ rw e (λ h. report_if-Keeps _ d at _ (report_if-Keeps _ _ at _ h))
]

pub operation_result-Keeps :
    (at : Position) (o : Operation) (l r : BafType) (d : Diagnostics)
    → Keeps d (operation_result at o l r d).1
operation_result-Keeps at equality l r d = check_equality-Keeps at l r d
operation_result-Keeps at addition l r d = check_add-Keeps at l r d
operation_result-Keeps at (plain a b) l r d = λ h. h

check_name-Keeps :
    (fs : List Function) (env : Environment) (at : Position) (n : Text) (d : Diagnostics)
    → Keeps d (check_name fs env at n d).1
check_name-Keeps fs env at n d = elim (Option-cases (env_find env n)) [
  | inl e ↦ rw (e, check_name) (diag_error-Keeps d at _)
  | inr (b, e) ↦ rw (e, check_name) (λ h. h)
]

mutual
  unfolding validate_expr

  pub validate_expr-Keeps :
      (fs : List Function) (env : Environment) (expected : BafType) (e : Expr) (d : Diagnostics)
      → Keeps d (validate_expr fs env expected e d).1
  validate_expr-Keeps fs env expected null d h = h
  validate_expr-Keeps fs env expected (integer t v) d h = report_if-Keeps _ d _ _ h
  validate_expr-Keeps fs env expected (string t v) d h = report_if-Keeps _ d _ _ h
  validate_expr-Keeps fs env expected (boolean t v) d h = report_if-Keeps _ d _ _ h
  validate_expr-Keeps fs env expected (name t n) d h =
      check_name-Keeps fs env t.at n d (report_if-Keeps _ _ _ _ h)
  validate_expr-Keeps fs env expected (binary t op left right) d h =
      validate_expr-Keeps fs env _ left d (
        validate_expr-Keeps fs env _ right _
          (operation_result-Keeps t.at (operation op) _ _ _ (report_if-Keeps _ _ _ _ h)))
  validate_expr-Keeps fs env expected (unary t op operand) d h =
      validate_expr-Keeps fs env _ operand d (report_if-Keeps _ _ _ _ h)
  validate_expr-Keeps fs env expected (call t info args) d h =
      report_if-Keeps _ d _ _ (validate_args-Keeps fs env info args _ (report_if-Keeps _ _ _ _ h))

  validate_args-Keeps :
      (fs : List Function) (env : Environment) (info : CallInfo) (args : Args) (d : Diagnostics)
      → Keeps d (validate_args fs env info args d)
  validate_args-Keeps fs env info no_args d h = h
  validate_args-Keeps fs env info (arg a value rest) d h =
      validate_expr-Keeps fs env _ value d
        (report_if-Keeps _ _ _ _ (validate_args-Keeps fs env info rest _ h))

pub validate_call-Keeps :
    (fs : List Function) (env : Environment) (used : Bool) (info : CallInfo) (args : Args)
    (d : Diagnostics)
    → Keeps d (validate_call fs env used info args d)
unfolding validate_call
validate_call-Keeps fs env used info args d h =
    report_if-Keeps _ d _ _ (validate_args-Keeps fs env info args _ h)
