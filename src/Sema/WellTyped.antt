-- ===== src/Sema/WellTyped.antt =====
-- `validate_expr` against the typing rules.
use back_and_forth.Prelude.{
  true, false, ◌&&◌, ◌≡◌, ◌≢◌, inl, inr, refl, subst, ap, List, [], Text, arith, Option-cases,
}
use back_and_forth.Token.{Token, Position}
use back_and_forth.Diagnostic.{Diagnostics, diag_error, unknown_name}
use back_and_forth.Syntax.{
  BafType, unknown, void, int, str, bool, UnaryOp, neg, not_op, CallInfo, Expr, Args, null, integer,
  string, boolean, name, binary, unary, call, no_args, arg, Function,
}
use back_and_forth.Sema.Env.{Environment, env_find}
use back_and_forth.Sema.Types.{binding_type, type_eq, expected_call_parameter, call_type}
use back_and_forth.Sema.Validate.{
  check_printable, check_expected, check_name, check_call, operation, operand_type,
  operation_result, unary_type, validate_expr, validate_args,
}
use back_and_forth.Sema.Reports.{report_if-nil, operation_result-Keeps}
use back_and_forth.Sema.Assign.{diag_error-ne-nil}
use back_and_forth.Sema.Typing.{Fits, UnaryTyping, HasType, ArgsFit}
use back_and_forth.Sema.OperatorTyping.{check_expected-Fits, printable-test, operation-Typing}

unary-UnaryTyping :
    (op : UnaryOp) (a : BafType) → Fits (unary_type op) a → UnaryTyping op a (unary_type op)
unary-UnaryTyping not_op a f = (f, refl)
unary-UnaryTyping neg a f = (f, refl)

-- What a report-free validation of an expression gives.
record Typed (fs : List Function) (env : Environment) (expected : BafType) (e : Expr)
    (d : Diagnostics) (t : BafType) : Type 0 where
  quiet : d ≡ []
  has : HasType fs env e t
  fits : Fits expected t

check_expected-Typed :
    (fs : List Function) (env : Environment) (expected : BafType) (e : Expr) (at : Position)
    (d d' : Diagnostics) (t : BafType)
    → (d' ≡ [] → (d ≡ []) × HasType fs env e t)
    → (check_expected at expected (t, d')).1 ≡ []
    → Typed fs env expected e d t
check_expected-Typed fs env expected e at d d' t rule h =
    let (h', f) = check_expected-Fits at expected t d' h in
    let (quiet, has) = rule h' in record { quiet = quiet; has = has; fits = f }

check_name-HasType :
    (fs : List Function) (env : Environment) (at : Position) (t : Token) (n : Text)
    (d : Diagnostics)
    → (check_name fs env at n d).1 ≡ []
    → (d ≡ []) × HasType fs env (name t n) (check_name fs env at n d).0
unfolding HasType
check_name-HasType fs env at t n d h = elim (Option-cases (env_find env n)) [
  | inl e ↦
      let same : check_name fs env at n d ≡ (unknown, diag_error d at (unknown_name n)) =
        rw (e, check_name) refl in
      absurd (diag_error-ne-nil d _ (subst (λ x. x.1 ≡ []) same h))
  | inr (b, e) ↦
      let same : check_name fs env at n d ≡ (binding_type fs b, d) = rw (e, check_name) refl in
      (subst (λ x. x.1 ≡ []) same h, (b, e, ap (λ x. x.0) same))
]

not_void : (t : BafType) → (true && type_eq t void) ≡ false → t ≢ void
not_void t h = ground arith

mutual
  unfolding validate_expr HasType

  validate_expr-Typed :
      (fs : List Function) (env : Environment) (expected : BafType) (e : Expr) (d : Diagnostics)
      → (validate_expr fs env expected e d).1 ≡ []
      → Typed fs env expected e d (validate_expr fs env expected e d).0
  validate_expr-Typed fs env expected null d h = record {
    quiet = h;
    has = refl;
    fits = inr (inl refl);
  }
  validate_expr-Typed fs env expected (integer t v) d h =
      check_expected-Typed fs env expected (integer t v) t.at d d int (λ q. (q, refl)) h
  validate_expr-Typed fs env expected (string t v) d h =
      check_expected-Typed fs env expected (string t v) t.at d d str (λ q. (q, refl)) h
  validate_expr-Typed fs env expected (boolean t v) d h =
      check_expected-Typed fs env expected (boolean t v) t.at d d bool (λ q. (q, refl)) h
  validate_expr-Typed fs env expected (name t n) d h =
      let (type, d') = check_name fs env t.at n d in
      check_expected-Typed fs env expected (name t n) t.at d d' type
        (check_name-HasType fs env t.at t n d) h
  validate_expr-Typed fs env expected (binary t op left right) d h =
      let wanted = operand_type (operation op) in
      let (l, d₁) = validate_expr fs env wanted left d in
      let (r, d₂) = validate_expr fs env wanted right d₁ in
      let (type, d₃) = operation_result t.at (operation op) l r d₂ in
      let (h₃, f) = check_expected-Fits t.at expected type d₃ h in
      let h₂ = operation_result-Keeps t.at (operation op) l r d₂ h₃ in
      let on_right = validate_expr-Typed fs env wanted right d₁ h₂ in
      let on_left = validate_expr-Typed fs env wanted left d on_right.quiet in
      let (_, rule) = operation-Typing op t.at l r d₂ on_left.fits on_right.fits h₃ in
      record { quiet = on_left.quiet; has = (l, r, on_left.has, on_right.has, rule); fits = f }
  validate_expr-Typed fs env expected (unary t op operand) d h =
      let (a, d₁) = validate_expr fs env (unary_type op) operand d in
      let (h₁, f) = check_expected-Fits t.at expected (unary_type op) d₁ h in
      let inner = validate_expr-Typed fs env (unary_type op) operand d h₁ in
      record {
        quiet = inner.quiet;
        has = (a, inner.has, unary-UnaryTyping op a inner.fits);
        fits = f;
      }
  validate_expr-Typed fs env expected (call t info args) d h =
      let d₀ = check_call fs info true d in
      let (h₁, f) =
        check_expected-Fits t.at expected (call_type fs info) (validate_args fs env info args d₀)
          h in
      let (h₀, fit) = validate_args-Fit fs env info args d₀ h₁ in
      let (quiet, test) = report_if-nil _ d _ _ h₀ in
      record { quiet = quiet; has = (refl, not_void _ test, fit); fits = f }

  validate_args-Fit :
      (fs : List Function) (env : Environment) (info : CallInfo) (args : Args) (d : Diagnostics)
      → validate_args fs env info args d ≡ []
      → (d ≡ []) × ArgsFit fs env info args
  validate_args-Fit fs env info no_args d h = (h, tt)
  validate_args-Fit fs env info (arg a e rest) d h =
      let wanted = expected_call_parameter fs info a.resolved_parameter in
      let (t, d₁) = validate_expr fs env wanted e d in
      let (h₂, others) = validate_args-Fit fs env info rest (check_printable info a t d₁) h in
      let (h₁, test) = report_if-nil _ d₁ _ _ h₂ in
      let one = validate_expr-Typed fs env wanted e d h₁ in
      (one.quiet, ((t, one.has, one.fits, printable-test _ t test), others))

-- If validating an expression reports nothing, the typing rules give it the type that is returned,
-- and that type is the expected one if both are known.
pub validate_expr-HasType :
    (fs : List Function) (env : Environment) (expected : BafType) (e : Expr)
    → (validate_expr fs env expected e []).1 ≡ []
    → HasType fs env e (validate_expr fs env expected e []).0
      × Fits expected (validate_expr fs env expected e []).0
validate_expr-HasType fs env expected e h =
    let typed = validate_expr-Typed fs env expected e [] h in (typed.has, typed.fits)
