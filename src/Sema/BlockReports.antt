-- ===== src/Sema/BlockReports.antt =====
-- `validate_block` only adds reports.
use back_and_forth.Prelude.{
  Bool, true, false, Option, none, some, Text, if◌then◌else◌, Bool-cases, Option-cases, inl, inr,
  subst, sym,
}
use back_and_forth.Token.{Position}
use back_and_forth.Diagnostic.{
  Diagnostics, diag_error, begin_block_cannot_return_a_value, returns_void, must_return_a_value,
}
use back_and_forth.Syntax.{
  is_null, BafType, unknown, void, bool, Expr, Stmt, Block, Cases, Branches, Function, null_stmt,
  var, assign, call_stmt, while_stmt, for_stmt, switch_stmt, if_stmt, return_stmt, break_stmt,
  continue_stmt, no_stmts, stmt, no_cases, switch_case, no_branches, branch,
}
use back_and_forth.Sema.Env.{Environment, env_find}
use back_and_forth.Sema.Types.{type_eq}
use back_and_forth.Sema.ValidateBlock.{
  Context, in_loop, validate_in, validate_assign, validate_return, validate_begin_return,
  validate_function_return, validate_case_value, validate_stmt, validate_block, validate_cases,
  validate_branches,
}
use back_and_forth.Sema.Reports.{
  Keeps, report_if-Keeps, diag_error-Keeps, if-Keeps, validate_expr-Keeps, validate_call-Keeps,
}

-- An expression that is validated unless it is NULL, or unless another test holds.
optional-Keeps :
    (c : Context) (env : Environment) (type : BafType) (e : Expr) (test : Bool) (d : Diagnostics)
    → Keeps d (if test then d else validate_in c env type e d)
optional-Keeps c env type e test d =
    if-Keeps test d d (validate_in c env type e d) (λ h. h) (validate_expr-Keeps _ env type e d)

validate_assign-Keeps :
    (c : Context) (env : Environment) (at : Position) (n : Text) (e : Expr) (d : Diagnostics)
    → Keeps d (validate_assign c env at n e d)
validate_assign-Keeps c env at n e d = elim (Option-cases (env_find env n)) [
  | inl f ↦
      rw (f, validate_assign)
        (λ h. diag_error-Keeps d at _ (validate_expr-Keeps _ env unknown e _ h))
  | inr (b, f) ↦ rw (f, validate_assign) (validate_expr-Keeps _ env _ e d)
]

-- A value where none may stand.
refused-Keeps :
    (c : Context) (env : Environment) (e : Expr) (d d' : Diagnostics)
    → Keeps d d'
    → Keeps d (if is_null e then d else validate_in c env unknown e d')
refused-Keeps c env e d d' k =
    if-Keeps (is_null e) d d (validate_in c env unknown e d') (λ h. h)
      (λ h. k (validate_expr-Keeps _ env unknown e d' h))

validate_return-Keeps :
    (c : Context) (env : Environment) (at : Position) (e : Expr) (d : Diagnostics)
    → Keeps d (validate_return c env at e d)
validate_return-Keeps c env at e d = elim (Option-cases c.current_function) [
  | inl f ↦
      subst (λ o. Keeps d (return_at o)) (sym f)
        (refused-Keeps c env e d _ (diag_error-Keeps d at begin_block_cannot_return_a_value))
  | inr (g, f) ↦ subst (λ o. Keeps d (return_at o)) (sym f) (in_function g)
]
  where
    return_at : Option Function → Diagnostics
    return_at o = elim o [
      | none ↦ validate_begin_return c env at e d
      | some f ↦ validate_function_return c env at f e d
    ]

    in_function : (f : Function) → Keeps d (validate_function_return c env at f e d)
    in_function f = elim (Bool-cases (type_eq f.return_type void)) [
      | inl v ↦ rw v (refused-Keeps c env e d _ (diag_error-Keeps d at (returns_void f.name)))
      | inr v ↦ rw v (
          if-Keeps (is_null e) d (diag_error d at (must_return_a_value f.name f.return_type))
            (validate_in c env f.return_type e d)
            (diag_error-Keeps d at (must_return_a_value f.name f.return_type))
            (validate_expr-Keeps _ env f.return_type e d))
    ]

validate_case_value-Keeps :
    (c : Context) (env : Environment) (type : BafType) (at : Position) (is_default : Bool)
    (e : Expr) (d : Diagnostics)
    → Keeps d (validate_case_value c env type at is_default e d)
validate_case_value-Keeps c env type at true e d = λ h. h
validate_case_value-Keeps c env type at false e d =
    λ h. validate_expr-Keeps _ env type e d (report_if-Keeps _ _ at _ h)

mutual
  unfolding validate_stmt

  pub validate_stmt-Keeps :
      (c : Context) (env : Environment) (s : Stmt) (d : Diagnostics)
      → Keeps d (validate_stmt c env s d).1
  validate_stmt-Keeps c env null_stmt d h = h
  validate_stmt-Keeps c env (var t type n e) d h =
      report_if-Keeps _ d _ _ (optional-Keeps c env type e (is_null e) _ h)
  validate_stmt-Keeps c env (assign t n e) d h = validate_assign-Keeps c env t.at n e d h
  validate_stmt-Keeps c env (call_stmt t info args) d h =
      validate_call-Keeps _ env false info args d h
  validate_stmt-Keeps c env (while_stmt t e b) d h =
      validate_expr-Keeps _ env bool e d (validate_block-Keeps (in_loop c) env b _ h)
  validate_stmt-Keeps c env (for_stmt t i e s b) d h = validate_stmt-Keeps c env i d (
      optional-Keeps c _ bool e (is_null e) _
        (validate_block-Keeps (in_loop c) _ b _ (validate_stmt-Keeps c _ s _ h)))
  validate_stmt-Keeps c env (if_stmt t bs) d h = validate_branches-Keeps c env bs d h
  validate_stmt-Keeps c env (return_stmt t e) d h = validate_return-Keeps c env t.at e d h
  validate_stmt-Keeps c env (break_stmt t) d h = report_if-Keeps _ d _ _ h
  validate_stmt-Keeps c env (continue_stmt t) d h = report_if-Keeps _ d _ _ h
  validate_stmt-Keeps c env (switch_stmt t e cs) d h =
      validate_expr-Keeps _ env unknown e d
        (report_if-Keeps _ _ _ _ (validate_cases-Keeps c env _ cs _ h))

  pub validate_block-Keeps :
      (c : Context) (env : Environment) (b : Block) (d : Diagnostics)
      → Keeps d (validate_block c env b d).1
  validate_block-Keeps c env no_stmts d h = h
  validate_block-Keeps c env (stmt s rest) d h =
      validate_stmt-Keeps c env s d (validate_block-Keeps c _ rest _ h)

  pub validate_cases-Keeps :
      (c : Context) (env : Environment) (type : BafType) (cs : Cases) (d : Diagnostics)
      → Keeps d (validate_cases c env type cs d)
  validate_cases-Keeps c env type no_cases d h = h
  validate_cases-Keeps c env type (switch_case t f e b rest) d h =
      validate_case_value-Keeps c env type t.at f e d
        (validate_block-Keeps c env b _ (validate_cases-Keeps c env type rest _ h))

  pub validate_branches-Keeps :
      (c : Context) (env : Environment) (bs : Branches) (d : Diagnostics)
      → Keeps d (validate_branches c env bs d)
  validate_branches-Keeps c env no_branches d h = h
  validate_branches-Keeps c env (branch t e b rest) d h =
      optional-Keeps c env bool e (is_null e) d
        (validate_block-Keeps c env b _ (validate_branches-Keeps c env rest _ h))
