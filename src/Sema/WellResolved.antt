-- ===== src/Sema/WellResolved.antt =====
-- What a resolved tree satisfies, stated without the loop that matches the arguments. The lookups of
-- a callee and of a parameter are those of the code: `resolve_callee`, `index_of`.
use back_and_forth.Prelude.{
  ℕ, suc, ◌+◌, ◌<◌, ◌≡◌, Bool, true, false, none, some, List, Text, ◌==◌, length,
}
use back_and_forth.Syntax.{
  CallInfo, ArgInfo, Expr, Args, Stmt, Block, Cases, Branches, Program, null, integer, string,
  boolean, name, binary, unary, call, no_args, arg, null_stmt, var, assign, call_stmt, while_stmt,
  for_stmt, switch_stmt, if_stmt, return_stmt, break_stmt, continue_stmt, no_stmts, stmt, no_cases,
  switch_case, no_branches, branch,
}
use back_and_forth.Sema.Env.{index_of}
use back_and_forth.Sema.Matching.{Target, variadic, fixed, resolve_callee, arg_count}

abbrev pub to_ℕ : Bool → ℕ
to_ℕ true = 1
to_ℕ false = 0

abbrev pub stands_for : ArgInfo → ℕ → Bool
stands_for a i = elim a.resolved_parameter [ none ↦ false | some j ↦ j == i ]

-- How many arguments stand for the parameter `i`.
abbrev pub occurrences : ℕ → Args → ℕ
occurrences i no_args = 0
occurrences i (arg a e rest) = to_ℕ (stands_for a i) + occurrences i rest

-- An argument with a name stands for the parameter of that name.
abbrev pub ArgsNamed : List Text → Args → Type 0
ArgsNamed params no_args = Unit
ArgsNamed params (arg a e rest) =
    ((n : Text) → a.name ≡ some n → index_of params n ≡ a.resolved_parameter)
    × ArgsNamed params rest

-- Variadic arguments have no names, and are numbered from `k` on.
abbrev pub Numbered : ℕ → Args → Type 0
Numbered k no_args = Unit
Numbered k (arg a e rest) =
    (a.name ≡ none) × (a.resolved_parameter ≡ some k) × Numbered (suc k) rest

-- Each parameter is supplied exactly once.
abbrev pub Supplies : Target → Args → Type 0
Supplies variadic args = Numbered 0 args
Supplies (fixed params) args =
    (arg_count args ≡ length params)
    × ((i : ℕ) → i < length params → occurrences i args ≡ 1)
    × ArgsNamed params args

-- The callee exists, the call holds its kind, index and return type, and its arguments supply it.
abbrev pub CallOk : Program → CallInfo → Args → Type 0
CallOk p info args =
    (target : Target) × (resolve_callee p info ≡ some (info, target)) × Supplies target args

-- Every call in a tree is right.
unfoldable mutual
  pub ExprOk : Program → Expr → Type 0
  ExprOk p (binary t op left right) = ExprOk p left × ExprOk p right
  ExprOk p (unary t op operand) = ExprOk p operand
  ExprOk p (call t info args) = CallOk p info args × ArgsOk p args
  ExprOk p null = Unit
  ExprOk p (integer t v) = Unit
  ExprOk p (string t v) = Unit
  ExprOk p (boolean t v) = Unit
  ExprOk p (name t v) = Unit

  pub ArgsOk : Program → Args → Type 0
  ArgsOk p no_args = Unit
  ArgsOk p (arg a e rest) = ExprOk p e × ArgsOk p rest

unfoldable mutual
  unfolding ExprOk

  pub StmtOk : Program → Stmt → Type 0
  StmtOk p (var t type n e) = ExprOk p e
  StmtOk p (assign t n e) = ExprOk p e
  StmtOk p (call_stmt t info args) = CallOk p info args × ArgsOk p args
  StmtOk p (while_stmt t e b) = ExprOk p e × BlockOk p b
  StmtOk p (for_stmt t i e s b) = StmtOk p i × ExprOk p e × StmtOk p s × BlockOk p b
  StmtOk p (switch_stmt t e c) = ExprOk p e × CasesOk p c
  StmtOk p (if_stmt t b) = BranchesOk p b
  StmtOk p (return_stmt t e) = ExprOk p e
  StmtOk p null_stmt = Unit
  StmtOk p (break_stmt t) = Unit
  StmtOk p (continue_stmt t) = Unit

  pub BlockOk : Program → Block → Type 0
  BlockOk p no_stmts = Unit
  BlockOk p (stmt s rest) = StmtOk p s × BlockOk p rest

  pub CasesOk : Program → Cases → Type 0
  CasesOk p no_cases = Unit
  CasesOk p (switch_case t d e b rest) = ExprOk p e × BlockOk p b × CasesOk p rest

  pub BranchesOk : Program → Branches → Type 0
  BranchesOk p no_branches = Unit
  BranchesOk p (branch t e b rest) = ExprOk p e × BlockOk p b × BranchesOk p rest
