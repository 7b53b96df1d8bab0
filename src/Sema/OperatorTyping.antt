-- ===== src/Sema/OperatorTyping.antt =====
-- The tests of `validate_expr` against the typing rules.
use back_and_forth.Prelude.{
  Bool, true, false, not, ◌&&◌, ◌||◌, ◌≡◌, ◌≢◌, ◌⊎◌, inl, inr, refl, sym, subst, [], arith,
  Bool-cases, if◌then◌else◌,
}
use back_and_forth.Token.{Position}
use back_and_forth.Diagnostic.{Diagnostics, Message, diag_error, left_side_is, right_side_is}
use back_and_forth.Syntax.{
  BafType, void, int, str, bool, BinaryOp, add, sub, mul, div, mod_op, eq, ne, lt, le, gt, ge,
  and_op, or_op,
}
use back_and_forth.Sema.Types.{type_eq, is_unknown}
use back_and_forth.Sema.Validate.{
  report_if, clashes, check_equality, check_add, check_concatenation, check_expected, operation,
  operand_type, operation_result,
}
use back_and_forth.Sema.Reports.{report_if-nil}
use back_and_forth.Sema.Assign.{diag_error-ne-nil}
use back_and_forth.Sema.Typing.{Fits, Comparable, Joins, Plain, Typing}

fits-test :
    (expected actual : BafType)
    → (not (is_unknown expected) && clashes actual expected) ≡ false
    → Fits expected actual
fits-test e a h = ground arith

pub check_expected-Fits :
    (at : Position) (expected t : BafType) (d : Diagnostics)
    → (check_expected at expected (t, d)).1 ≡ []
    → (d ≡ []) × Fits expected t
check_expected-Fits at expected t d h =
    let (quiet, test) = report_if-nil _ d at _ h in (quiet, fits-test expected t test)

comparable-tests :
    (l r : BafType)
    → (not (is_unknown l) && not (is_unknown r) && not (type_eq l r)) ≡ false
    → (type_eq l void || type_eq r void) ≡ false
    → Comparable l r bool
comparable-tests l r h g = ground arith

if_error-nil :
    (test : Bool) (d other : Diagnostics) (at : Position) (m : Message)
    → (if test then diag_error d at m else other) ≡ []
    → (test ≡ false) × (other ≡ [])
if_error-nil true d other at m h = absurd (diag_error-ne-nil d _ h)
if_error-nil false d other at m h = (refl, h)

check_equality-Comparable :
    (at : Position) (l r : BafType) (d : Diagnostics)
    → check_equality at l r d ≡ []
    → (d ≡ []) × Comparable l r bool
check_equality-Comparable at l r d h =
    let differ = not (is_unknown l) && not (is_unknown r) && not (type_eq l r) in
    let (same, h₁) = if_error-nil differ d _ at _ h in
    let (quiet, values) = report_if-nil _ d at _ h₁ in (quiet, comparable-tests l r same values)

joins-tests :
    (l r : BafType)
    → (type_eq l str || type_eq r str) ≡ true
    → (not (type_eq (if type_eq l str then r else l) str)
        && not (type_eq (if type_eq l str then r else l) int)
        && not (type_eq (if type_eq l str then r else l) bool)
        && not (is_unknown (if type_eq l str then r else l)))
      ≡ false
    → Joins l r str
joins-tests l r h g = ground arith

adds-tests : (l r : BafType) → clashes l int ≡ false → clashes r int ≡ false → Plain int int l r int
adds-tests l r h g = ground arith

-- The branch of `check_add` without a string.
abbrev add_integers : Position → BafType → BafType → Diagnostics → BafType × Diagnostics
add_integers at l r d = (
  int,
  report_if (clashes r int) (report_if (clashes l int) d at (left_side_is l)) at (right_side_is r),
)

check_add-Typing :
    (at : Position) (l r : BafType) (d : Diagnostics)
    → (check_add at l r d).1 ≡ []
    → (d ≡ []) × Typing add l r (check_add at l r d).0
check_add-Typing at l r d h = elim (Bool-cases (type_eq l str || type_eq r str)) [
  | inl e ↦
      let other = if type_eq l str then r else l in
      let same : check_add at l r d ≡ check_concatenation at other d = rw (e, check_add) refl in
      let (quiet, test) = report_if-nil _ d at _ (subst (λ x. x.1 ≡ []) same h) in
      subst (λ x. (d ≡ []) × Typing add l r x.0) (sym same) (quiet, inl (joins-tests l r e test))
  | inr e ↦
      let same : check_add at l r d ≡ add_integers at l r d = rw (e, check_add) refl in
      let (h₁, right) = report_if-nil _ _ at _ (subst (λ x. x.1 ≡ []) same h) in
      let (quiet, left) = report_if-nil _ d at _ h₁ in
      subst (λ x. (d ≡ []) × Typing add l r x.0) (sym same) (quiet, inr (adds-tests l r left right))
]

pub printable-test :
    (v : Bool) (t : BafType)
    → (v
        && not (is_unknown t)
        && not (type_eq t str)
        && not (type_eq t int)
        && not (type_eq t bool))
      ≡ false
    → (v ≡ false) ⊎ (t ≢ void)
printable-test v t h = ground arith

pub operation-Typing :
    (op : BinaryOp) (at : Position) (l r : BafType) (d : Diagnostics)
    → Fits (operand_type (operation op)) l
    → Fits (operand_type (operation op)) r
    → (operation_result at (operation op) l r d).1 ≡ []
    → (d ≡ []) × Typing op l r (operation_result at (operation op) l r d).0
operation-Typing and_op at l r d a b h = (h, (a, b, refl))
operation-Typing or_op at l r d a b h = (h, (a, b, refl))
operation-Typing eq at l r d a b h = check_equality-Comparable at l r d h
operation-Typing ne at l r d a b h = check_equality-Comparable at l r d h
operation-Typing add at l r d a b h = check_add-Typing at l r d h
operation-Typing sub at l r d a b h = (h, (a, b, refl))
operation-Typing mul at l r d a b h = (h, (a, b, refl))
operation-Typing div at l r d a b h = (h, (a, b, refl))
operation-Typing mod_op at l r d a b h = (h, (a, b, refl))
operation-Typing lt at l r d a b h = (h, (a, b, refl))
operation-Typing le at l r d a b h = (h, (a, b, refl))
operation-Typing gt at l r d a b h = (h, (a, b, refl))
operation-Typing ge at l r d a b h = (h, (a, b, refl))
