-- ===== src/Sema/Returns.antt =====
-- `block_always_returns`.
use back_and_forth.Prelude.{Bool, true, false, ◌&&◌, ◌||◌}
use back_and_forth.Syntax.{
  is_null, Stmt, Block, Cases, Branches, switch_stmt, if_stmt, return_stmt, no_stmts, stmt,
  no_cases, switch_case, no_branches, branch,
}

-- `has_else` and `has_default`
abbrev pub has_else : Branches → Bool
has_else no_branches = false
has_else (branch t e b rest) = is_null e || has_else rest

abbrev pub has_default : Cases → Bool
has_default no_cases = false
has_default (switch_case t d e b rest) = d || has_default rest

unfoldable mutual
  pub stmt_always_returns : Stmt → Bool
  stmt_always_returns (return_stmt t e) = true
  stmt_always_returns (if_stmt t branches) = has_else branches && branches_always_return branches
  stmt_always_returns (switch_stmt t e cases) = has_default cases && cases_always_return cases
  stmt_always_returns _ = false

  pub block_always_returns : Block → Bool
  block_always_returns no_stmts = false
  block_always_returns (stmt s rest) = stmt_always_returns s || block_always_returns rest

  -- `all` over the bodies
  pub branches_always_return : Branches → Bool
  branches_always_return no_branches = true
  branches_always_return (branch t e b rest) = block_always_returns b && branches_always_return rest

  pub cases_always_return : Cases → Bool
  cases_always_return no_cases = true
  cases_always_return (switch_case t d e b rest) =
      block_always_returns b && cases_always_return rest
