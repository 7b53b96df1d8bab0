-- ===== src/Sema/Resolve.antt =====
-- The rest of `resolve_call`, `resolve_expr` and `resolve_block_calls`: every call finds its function, and
-- every argument its parameter. A tree that the source updates in place is returned anew.
use back_and_forth.Prelude.{Option, suc, none, some, Text}
use back_and_forth.Diagnostic.{Diagnostics, diag_error, unknown_function}
use back_and_forth.Syntax.{
  CallInfo, Expr, Args, Stmt, Block, Cases, Branches, Program, null, integer, string, boolean, name,
  binary, unary, call, no_args, arg, null_stmt, var, assign, call_stmt, while_stmt, for_stmt,
  switch_stmt, if_stmt, return_stmt, break_stmt, continue_stmt, no_stmts, stmt, no_cases,
  switch_case, no_branches, branch,
}
use back_and_forth.Sema.Matching.{
  Target, Matching, resolve_callee, match_argument, arg_count, start_matching, finish_matching,
}

abbrev pub Resolved : Type 0
Resolved = CallInfo × Args × Diagnostics

-- `resolve_call` behind its head: `loop` is the loop over the arguments.
abbrev pub resolve_with :
    CallInfo
    → Args
    → Diagnostics
    → (Text → Target → Matching → Args × Matching)
    → Option (CallInfo × Target)
    → Resolved
resolve_with info args diag loop none =
    (info, args, diag_error diag info.token.at (unknown_function info.callee))
resolve_with info args diag loop (some (found, target)) =
    let (args', m) = loop info.callee target (start_matching found target (arg_count args) diag) in
    (found, args', finish_matching found target m)

unfoldable pub resolve_around :
    Program
    → CallInfo
    → Args
    → Diagnostics
    → (Text → Target → Matching → Args × Matching)
    → Resolved
unfolding resolve_callee start_matching finish_matching
resolve_around p info args diag loop = resolve_with info args diag loop (resolve_callee p info)

unfoldable mutual
  unfolding resolve_around match_argument

  pub resolve_expr : Program → Expr → Diagnostics → Expr × Diagnostics
  resolve_expr p (binary t op left right) diag =
      let (left', d₁) = resolve_expr p left diag in
      let (right', d₂) = resolve_expr p right d₁ in (binary t op left' right', d₂)
  resolve_expr p (unary t op operand) diag =
      let (operand', d) = resolve_expr p operand diag in (unary t op operand', d)
  resolve_expr p (call t info args) diag =
      let (info', args', d) =
        resolve_around p info args diag (λ callee target m. resolve_args p callee target args m) in
      (call t info' args', d)
  resolve_expr p null diag = (null, diag)
  resolve_expr p (integer t v) diag = (integer t v, diag)
  resolve_expr p (string t v) diag = (string t v, diag)
  resolve_expr p (boolean t v) diag = (boolean t v, diag)
  resolve_expr p (name t v) diag = (name t v, diag)

  -- The loop over the arguments.
  pub resolve_args : Program → Text → Target → Args → Matching → Args × Matching
  resolve_args p callee target no_args m = (no_args, m)
  resolve_args p callee target (arg a value rest) m =
      let (value', d) = resolve_expr p value m.diag in
      let (a', m') = match_argument callee target a (record m { diag = d }) in
      let (rest', last) = resolve_args p callee target rest (record m' { index = suc m'.index }) in
      (arg a' value' rest', last)

unfoldable pub resolve_call : Program → CallInfo → Args → Diagnostics → Resolved
unfolding resolve_around resolve_args
resolve_call p info args diag =
    resolve_around p info args diag (λ callee target m. resolve_args p callee target args m)

unfoldable mutual
  unfolding resolve_expr resolve_call

  pub resolve_stmt : Program → Stmt → Diagnostics → Stmt × Diagnostics
  resolve_stmt p (var t type n initializer) diag =
      let (e, d) = resolve_expr p initializer diag in (var t type n e, d)
  resolve_stmt p (assign t n value) diag =
      let (e, d) = resolve_expr p value diag in (assign t n e, d)
  resolve_stmt p (call_stmt t info args) diag =
      let (info', args', d) = resolve_call p info args diag in (call_stmt t info' args', d)
  resolve_stmt p (while_stmt t condition body) diag =
      let (e, d₁) = resolve_expr p condition diag in
      let (b, d₂) = resolve_block_calls p body d₁ in (while_stmt t e b, d₂)
  resolve_stmt p (for_stmt t init condition step body) diag =
      let (i, d₁) = resolve_stmt p init diag in
      let (e, d₂) = resolve_expr p condition d₁ in
      let (s, d₃) = resolve_stmt p step d₂ in
      let (b, d₄) = resolve_block_calls p body d₃ in (for_stmt t i e s b, d₄)
  resolve_stmt p (switch_stmt t subject cases) diag =
      let (e, d₁) = resolve_expr p subject diag in
      let (c, d₂) = resolve_cases p cases d₁ in (switch_stmt t e c, d₂)
  resolve_stmt p (if_stmt t branches) diag =
      let (b, d) = resolve_branches p branches diag in (if_stmt t b, d)
  resolve_stmt p (return_stmt t value) diag =
      let (e, d) = resolve_expr p value diag in (return_stmt t e, d)
  resolve_stmt p null_stmt diag = (null_stmt, diag)
  resolve_stmt p (break_stmt t) diag = (break_stmt t, diag)
  resolve_stmt p (continue_stmt t) diag = (continue_stmt t, diag)

  pub resolve_block_calls : Program → Block → Diagnostics → Block × Diagnostics
  resolve_block_calls p no_stmts diag = (no_stmts, diag)
  resolve_block_calls p (stmt s rest) diag =
      let (s', d₁) = resolve_stmt p s diag in
      let (rest', d₂) = resolve_block_calls p rest d₁ in (stmt s' rest', d₂)

  pub resolve_cases : Program → Cases → Diagnostics → Cases × Diagnostics
  resolve_cases p no_cases diag = (no_cases, diag)
  resolve_cases p (switch_case t is_default value body rest) diag =
      let (e, d₁) = resolve_expr p value diag in
      let (b, d₂) = resolve_block_calls p body d₁ in
      let (rest', d₃) = resolve_cases p rest d₂ in (switch_case t is_default e b rest', d₃)

  pub resolve_branches : Program → Branches → Diagnostics → Branches × Diagnostics
  resolve_branches p no_branches diag = (no_branches, diag)
  resolve_branches p (branch t condition body rest) diag =
      let (e, d₁) = resolve_expr p condition diag in
      let (b, d₂) = resolve_block_calls p body d₁ in
      let (rest', d₃) = resolve_branches p rest d₂ in (branch t e b rest', d₃)
