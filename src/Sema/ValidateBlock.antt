-- ===== src/Sema/ValidateBlock.antt =====
-- `validate_block`. `g_current_function` and `g_loop_depth` are arguments; a block hands back the
-- environment that it leaves, and the callers reset it where the source resets `env->count`.
use back_and_forth.Prelude.{
  ℕ, suc, Bool, true, false, ◌&&◌, not, List, Option, none, some, Text, ◌==◌, if◌then◌else◌,
}
use back_and_forth.Token.{Position}
use back_and_forth.Diagnostic.{
  Diagnostics, diag_error, name_already_declared, cannot_assign_to_unknown_name,
  begin_block_cannot_return_a_value, returns_void, must_return_a_value, break_outside_loop,
  continue_outside_loop, switch_supports_only, case_values_must_be_literals,
}
use back_and_forth.Syntax.{
  is_null, BafType, unknown, void, bool, Expr, Stmt, Block, Cases, Branches, Function, integer,
  string, boolean, null_stmt, var, assign, call_stmt, while_stmt, for_stmt, switch_stmt, if_stmt,
  return_stmt, break_stmt, continue_stmt, no_stmts, stmt, no_cases, switch_case, no_branches,
  branch,
}
use back_and_forth.Sema.Env.{own, Environment, env_find, env_add}
use back_and_forth.Sema.Types.{type_eq, is_unknown, binding_type, valid_switch_type}
use back_and_forth.Sema.Validate.{report_if, validate_expr, validate_call}

abbrev pub is_literal : Expr → Bool
is_literal (integer t v) = true
is_literal (string t v) = true
is_literal (boolean t v) = true
is_literal _ = false

abbrev pub is_bound : Environment → Text → Bool
is_bound env n = elim (env_find env n) [ none ↦ false | some b ↦ true ]

-- The functions, `g_current_function` and `g_loop_depth`.
pub record Context : Type 0 where
  pub functions : List Function
  pub current_function : Option Function
  pub loop_depth : ℕ

abbrev pub in_loop : Context → Context
in_loop c = record c { loop_depth = suc c.loop_depth }

abbrev pub validate_in : Context → Environment → BafType → Expr → Diagnostics → Diagnostics
validate_in c env expected e diag = (validate_expr c.functions env expected e diag).1

-- `case STMT_ASSIGN`
abbrev pub validate_assign :
    Context → Environment → Position → Text → Expr → Diagnostics → Diagnostics
validate_assign c env at n value diag = elim (env_find env n) [
  | none ↦ validate_in c env unknown value (diag_error diag at (cannot_assign_to_unknown_name n))
  | some b ↦ validate_in c env (binding_type c.functions b) value diag
]

-- `case STMT_RETURN` in the begin block, and in a function.
abbrev pub validate_begin_return :
    Context → Environment → Position → Expr → Diagnostics → Diagnostics
validate_begin_return c env at value diag =
    if is_null value
    then diag
    else validate_in c env unknown value (diag_error diag at begin_block_cannot_return_a_value)

abbrev pub validate_function_return :
    Context → Environment → Position → Function → Expr → Diagnostics → Diagnostics
validate_function_return c env at f value diag =
    if type_eq f.return_type void
    then (if is_null value
        then diag
        else validate_in c env unknown value (diag_error diag at (returns_void f.name)))
    else if is_null value
    then diag_error diag at (must_return_a_value f.name f.return_type)
    else validate_in c env f.return_type value diag

abbrev pub validate_return : Context → Environment → Position → Expr → Diagnostics → Diagnostics
validate_return c env at value diag = elim c.current_function [
  | none ↦ validate_begin_return c env at value diag
  | some f ↦ validate_function_return c env at f value diag
]

abbrev pub validate_subject :
    Context → Environment → Position → Expr → Diagnostics → BafType × Diagnostics
validate_subject c env at subject diag =
    let (type, d) = validate_expr c.functions env unknown subject diag in
    (
      type,
      report_if (not (is_unknown type) && not (valid_switch_type type)) d at switch_supports_only,
    )

-- The value of a case that is not the default.
abbrev pub validate_case_value :
    Context → Environment → BafType → Position → Bool → Expr → Diagnostics → Diagnostics
validate_case_value c env subject at is_default value diag =
    if is_default
    then diag
    else report_if (not (is_null value) && not (is_literal value))
        (validate_in c env subject value diag) at case_values_must_be_literals

unfoldable mutual
  unfolding report_if validate_expr validate_call env_find

  pub validate_stmt : Context → Environment → Stmt → Diagnostics → Environment × Diagnostics
  validate_stmt c env null_stmt diag = (env, diag)
  validate_stmt c env (var t type n initializer) diag =
      let d = report_if (is_bound env n) diag t.at (name_already_declared n) in
      let d' = if is_null initializer then d else validate_in c env type initializer d in
      (env_add env n (own type) t, d')
  validate_stmt c env (assign t n value) diag = (env, validate_assign c env t.at n value diag)
  validate_stmt c env (call_stmt t info args) diag =
      (env, validate_call c.functions env false info args diag)
  validate_stmt c env (while_stmt t condition body) diag =
      let d = validate_in c env bool condition diag in
      (env, (validate_block (in_loop c) env body d).1)
  validate_stmt c env (for_stmt t init condition step body) diag =
      let (inner, d₁) = validate_stmt c env init diag in
      let d₂ = if is_null condition then d₁ else validate_in c inner bool condition d₁ in
      let (behind, d₃) = validate_block (in_loop c) inner body d₂ in
      (env, (validate_stmt c behind step d₃).1)
  validate_stmt c env (if_stmt t branches) diag = (env, validate_branches c env branches diag)
  validate_stmt c env (return_stmt t value) diag = (env, validate_return c env t.at value diag)
  validate_stmt c env (break_stmt t) diag =
      (env, report_if (c.loop_depth == 0) diag t.at break_outside_loop)
  validate_stmt c env (continue_stmt t) diag =
      (env, report_if (c.loop_depth == 0) diag t.at continue_outside_loop)
  validate_stmt c env (switch_stmt t subject cases) diag =
      let (type, d) = validate_subject c env t.at subject diag in
      (env, validate_cases c env type cases d)

  pub validate_block : Context → Environment → Block → Diagnostics → Environment × Diagnostics
  validate_block c env no_stmts diag = (env, diag)
  validate_block c env (stmt s rest) diag =
      let (env', d) = validate_stmt c env s diag in validate_block c env' rest d

  pub validate_cases : Context → Environment → BafType → Cases → Diagnostics → Diagnostics
  validate_cases c env subject no_cases diag = diag
  validate_cases c env subject (switch_case t is_default value body rest) diag =
      let d = validate_case_value c env subject t.at is_default value diag in
      validate_cases c env subject rest (validate_block c env body d).1

  pub validate_branches : Context → Environment → Branches → Diagnostics → Diagnostics
  validate_branches c env no_branches diag = diag
  validate_branches c env (branch t condition body rest) diag =
      let d = if is_null condition then diag else validate_in c env bool condition diag in
      validate_branches c env rest (validate_block c env body d).1
