-- ===== src/Sema/ResolveTree.antt =====
-- Resolving a tree without a report leaves every call of it right.
use back_and_forth.Prelude.{suc, ◌≡◌, refl, ap, [], Text}
use back_and_forth.Diagnostic.{Diagnostics}
use back_and_forth.Syntax.{
  CallInfo, Expr, Args, Stmt, Block, Cases, Branches, Program, null, integer, string, boolean, name,
  binary, unary, call, no_args, arg, null_stmt, var, assign, call_stmt, while_stmt, for_stmt,
  switch_stmt, if_stmt, return_stmt, break_stmt, continue_stmt, no_stmts, stmt, no_cases,
  switch_case, no_branches, branch,
}
use back_and_forth.Sema.Matching.{Target, Matching, arg_count, match_argument}
use back_and_forth.Sema.Resolve.{
  resolve_expr, resolve_args, resolve_call, resolve_stmt, resolve_block_calls, resolve_cases,
  resolve_branches,
}
use back_and_forth.Sema.WellResolved.{ExprOk, ArgsOk, StmtOk, BlockOk, CasesOk, BranchesOk}
use back_and_forth.Sema.Supplied.{
  Matched, Matched-nil, Matched-cons, Matched-diag, next_round, ResolvedOk,
  resolve_around-ResolvedOk,
}

-- With no report at the end there was none before, and the tree is right.
abbrev Right {ℓ} : {A : Type 0} → (A → Type ℓ) → Diagnostics → A × Diagnostics → Type ℓ
Right P diag r = r.1 ≡ [] → (diag ≡ []) × P r.0

mutual
  unfolding resolve_expr ExprOk

  resolve_expr-Right :
      (p : Program) (e : Expr) (diag : Diagnostics) → Right (ExprOk p) diag (resolve_expr p e diag)
  resolve_expr-Right p (binary t op left right) diag h =
      let (h₁, r) = resolve_expr-Right p right _ h in
      let (h₀, l) = resolve_expr-Right p left diag h₁ in (h₀, (l, r))
  resolve_expr-Right p (unary t op operand) diag h = resolve_expr-Right p operand diag h
  resolve_expr-Right p (call t info args) diag h =
      let (k, ok, nested) =
        resolve_around-ResolvedOk p info args diag
          (λ callee target m. resolve_args p callee target args m)
          (λ callee target m. resolve_args-LoopOk p callee target args m) h in
      (k, (ok, nested))
  resolve_expr-Right p null diag h = (h, tt)
  resolve_expr-Right p (integer t v) diag h = (h, tt)
  resolve_expr-Right p (string t v) diag h = (h, tt)
  resolve_expr-Right p (boolean t v) diag h = (h, tt)
  resolve_expr-Right p (name t v) diag h = (h, tt)

  resolve_args-LoopOk :
      (p : Program) (callee : Text) (target : Target) (args : Args) (m : Matching)
      → (resolve_args p callee target args m).1.diag ≡ []
      → (m.diag ≡ [])
        × Matched target m (resolve_args p callee target args m)
        × (arg_count (resolve_args p callee target args m).0 ≡ arg_count args)
        × ArgsOk p (resolve_args p callee target args m).0
  resolve_args-LoopOk p callee target no_args m h = (h, Matched-nil target m, refl, tt)
  resolve_args-LoopOk p callee target (arg a value rest) m h =
      let (value', d) = resolve_expr p value m.diag in
      let m₁ = record m { diag = d } in
      let matched = match_argument callee target a m₁ in
      let r = resolve_args p callee target rest (next_round matched) in
      let (h₂, others, counted, nested) =
        resolve_args-LoopOk p callee target rest (next_round matched) h in
      let (h₁, all) = Matched-cons callee target a m₁ value' r h₂ others in
      let (h₀, ok) = resolve_expr-Right p value m.diag h₁ in
      (h₀, Matched-diag target m d _ all, ap suc counted, (ok, nested))

resolve_call-ResolvedOk :
    (p : Program) (info : CallInfo) (args : Args) (diag : Diagnostics)
    → ResolvedOk p diag (resolve_call p info args diag)
unfolding resolve_call
resolve_call-ResolvedOk p info args diag =
    resolve_around-ResolvedOk p info args diag
      (λ callee target m. resolve_args p callee target args m)
      (λ callee target m. resolve_args-LoopOk p callee target args m)

mutual
  unfolding resolve_stmt StmtOk

  resolve_stmt-Right :
      (p : Program) (s : Stmt) (diag : Diagnostics) → Right (StmtOk p) diag (resolve_stmt p s diag)
  resolve_stmt-Right p (var t type n e) diag h = resolve_expr-Right p e diag h
  resolve_stmt-Right p (assign t n e) diag h = resolve_expr-Right p e diag h
  resolve_stmt-Right p (call_stmt t info args) diag h =
      let (k, ok, nested) = resolve_call-ResolvedOk p info args diag h in (k, (ok, nested))
  resolve_stmt-Right p (while_stmt t e b) diag h =
      let (h₁, body) = resolve_block-Right p b _ h in
      let (h₀, test) = resolve_expr-Right p e diag h₁ in (h₀, (test, body))
  resolve_stmt-Right p (for_stmt t i e s b) diag h =
      let (h₃, body) = resolve_block-Right p b _ h in
      let (h₂, step) = resolve_stmt-Right p s _ h₃ in
      let (h₁, test) = resolve_expr-Right p e _ h₂ in
      let (h₀, init) = resolve_stmt-Right p i diag h₁ in (h₀, (init, test, step, body))
  resolve_stmt-Right p (switch_stmt t e c) diag h =
      let (h₁, cases) = resolve_cases-Right p c _ h in
      let (h₀, subject) = resolve_expr-Right p e diag h₁ in (h₀, (subject, cases))
  resolve_stmt-Right p (if_stmt t b) diag h = resolve_branches-Right p b diag h
  resolve_stmt-Right p (return_stmt t e) diag h = resolve_expr-Right p e diag h
  resolve_stmt-Right p null_stmt diag h = (h, tt)
  resolve_stmt-Right p (break_stmt t) diag h = (h, tt)
  resolve_stmt-Right p (continue_stmt t) diag h = (h, tt)

  pub resolve_block-Right :
      (p : Program) (b : Block) (diag : Diagnostics)
      → Right (BlockOk p) diag (resolve_block_calls p b diag)
  resolve_block-Right p no_stmts diag h = (h, tt)
  resolve_block-Right p (stmt s rest) diag h =
      let (h₁, others) = resolve_block-Right p rest _ h in
      let (h₀, first) = resolve_stmt-Right p s diag h₁ in (h₀, (first, others))

  resolve_cases-Right :
      (p : Program) (c : Cases) (diag : Diagnostics)
      → Right (CasesOk p) diag (resolve_cases p c diag)
  resolve_cases-Right p no_cases diag h = (h, tt)
  resolve_cases-Right p (switch_case t d e b rest) diag h =
      let (h₂, others) = resolve_cases-Right p rest _ h in
      let (h₁, body) = resolve_block-Right p b _ h₂ in
      let (h₀, value) = resolve_expr-Right p e diag h₁ in (h₀, (value, body, others))

  resolve_branches-Right :
      (p : Program) (b : Branches) (diag : Diagnostics)
      → Right (BranchesOk p) diag (resolve_branches p b diag)
  resolve_branches-Right p no_branches diag h = (h, tt)
  resolve_branches-Right p (branch t e b rest) diag h =
      let (h₂, others) = resolve_branches-Right p rest _ h in
      let (h₁, body) = resolve_block-Right p b _ h₂ in
      let (h₀, test) = resolve_expr-Right p e diag h₁ in (h₀, (test, body, others))

-- If resolving a block reports nothing, then in every call of it, however deep it is nested, the
-- callee exists and the call holds its kind, index and return type; a variadic callee has unnamed
-- arguments in order; any other has as many arguments as parameters, each parameter is supplied by
-- exactly one argument, and a named argument supplies the parameter of its name.
pub resolve_block_calls-BlockOk :
    (p : Program) (b : Block)
    → (resolve_block_calls p b []).1 ≡ []
    → BlockOk p (resolve_block_calls p b []).0
resolve_block_calls-BlockOk p b h = (resolve_block-Right p b [] h).1
