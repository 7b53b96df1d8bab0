-- ===== src/Sema/StepScope.antt =====
-- The scope that the step of a `for` is validated in.
use back_and_forth.Prelude.{
  [], ◌≡◌, ◌≢◌, refl, sym, subst, ◌∙◌, none, some, Text, text_eq, text_eq_iff, true,
}
use back_and_forth.Token.{Token}
use back_and_forth.Diagnostic.{diag_error, cannot_assign_to_unknown_name, name_already_declared}
use back_and_forth.Syntax.{
  BafType, unknown, Expr, Stmt, null, var, assign, for_stmt, null_stmt, stmt, no_stmts,
}
use back_and_forth.Sema.Env.{Environment, env_find, env_add, own}
use back_and_forth.Sema.Validate.{report_if, validate_expr}
use back_and_forth.Sema.ValidateBlock.{
  Context, is_bound, validate_in, validate_assign, validate_stmt,
}
use back_and_forth.Sema.Assign.{diag_error-ne-nil}
use back_and_forth.Sema.Reports.{validate_expr-Keeps}

-- for (; ; n = value) { type n }
abbrev pub step_of_body : Token → Token → Token → BafType → Text → Expr → Stmt
step_of_body for_token step_token type_token type n value =
    for_stmt for_token null_stmt null (assign step_token n value)
      (stmt (var type_token type n null) no_stmts)

text_eq_refl : (n : Text) → text_eq n n ≡ true
text_eq_refl n = (text_eq_iff n n).1 refl

validate_assign-unbound :
    (c : Context) (env : Environment) (t : Token) (n : Text) (value : Expr)
    → env_find env n ≡ none
    → validate_assign c env t.at n value []
      ≡ validate_in c env unknown value (diag_error [] t.at (cannot_assign_to_unknown_name n))
validate_assign-unbound c env t n value e = rw (e, validate_assign) refl

validate_assign-newest :
    (c : Context) (env : Environment) (t u : Token) (type : BafType) (n : Text) (value : Expr)
    → validate_assign c (env_add env n (own type) u) t.at n value []
      ≡ validate_in c (env_add env n (own type) u) type value []
unfolding env_find
validate_assign-newest c env t u type n value =
    let found : env_find (env_add env n (own type) u) n
        ≡ some (record { name = n; slot = own type; token = u }) =
      rw (text_eq_refl n, env_find) refl in
    rw (found, validate_assign) refl

report-unbound :
    (env : Environment) (t : Token) (n : Text)
    → env_find env n ≡ none
    → report_if (is_bound env n) [] t.at (name_already_declared n) ≡ []
unfolding report_if
report-unbound env t n e = rw (e, is_bound) refl

-- The step of a `for` is validated with the variables of the loop's body in scope: where `n` is not
-- bound, every assignment `n = value` is reported; and the loop `for (; ; n = value) { type n }` is
-- not, if the value is validated without a report as one of that type where `n` is declared with it.
pub validate_stmt-step_of_body :
    (c : Context) (env : Environment) (for_token step_token type_token : Token) (type : BafType)
    (n : Text) (value : Expr)
    → env_find env n ≡ none
    → (validate_expr c.functions (env_add env n (own type) type_token) type value []).1 ≡ []
    → ((validate_stmt c env (assign step_token n value) []).1 ≢ [])
      × ((validate_stmt c env (step_of_body for_token step_token type_token type n value) []).1
          ≡ [])
unfolding validate_stmt
validate_stmt-step_of_body c env for_token step_token type_token type n value unbound quiet = (
  λ h. diag_error-ne-nil [] _ (
      validate_expr-Keeps c.functions env unknown value _
        (sym (validate_assign-unbound c env step_token n value unbound) ∙ h)),
  subst (λ d. validate_assign c (env_add env n (own type) type_token) step_token.at n value d ≡ [])
      (sym (report-unbound env type_token n unbound))
      (validate_assign-newest c env step_token type_token type n value ∙ quiet),
)
