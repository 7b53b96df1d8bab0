-- ===== src/Sema/LeavesByReturn.antt =====
-- A block for which `block_always_returns` answers true never falls out at its end.
use back_and_forth.Prelude.{Bool, true, ◌&&◌, ◌≡◌, ◌≢◌, refl, arith, Bool-cases, inl, inr}
use back_and_forth.Syntax.{Stmt, Block, Cases, Branches}
use back_and_forth.Sema.Returns.{
  has_default, has_else, stmt_always_returns, block_always_returns, branches_always_return,
  cases_always_return,
}
use back_and_forth.Sema.Runs.{
  Outcome, ended, StmtRuns, BlockRuns, BranchesRun, CasesRun, runs_null, runs_var, runs_assign,
  runs_call, runs_return, runs_break, runs_continue, while_stops, while_leaves, while_again,
  for_stops, for_leaves, for_again, runs_if, runs_switch, switch_skips, runs_empty, runs_on,
  runs_out, no_branch, taken, passed, chosen, further,
}

and-left : (a b : Bool) → (a && b) ≡ true → a ≡ true
and-left a b h = ground arith

and-right : (a b : Bool) → (a && b) ≡ true → b ≡ true
and-right a b h = ground arith

mutual
  unfolding stmt_always_returns

  StmtRuns-ne-ended :
      {s : Stmt} {o : Outcome} → StmtRuns s o → stmt_always_returns s ≡ true → o ≢ ended
  StmtRuns-ne-ended runs_null h = cc
  StmtRuns-ne-ended runs_var h = cc
  StmtRuns-ne-ended runs_assign h = cc
  StmtRuns-ne-ended runs_call h = cc
  StmtRuns-ne-ended runs_return h = cc
  StmtRuns-ne-ended runs_break h = cc
  StmtRuns-ne-ended runs_continue h = cc
  StmtRuns-ne-ended while_stops h = cc
  StmtRuns-ne-ended (while_leaves r) h = cc
  StmtRuns-ne-ended (while_again r g k) h = cc
  StmtRuns-ne-ended for_stops h = cc
  StmtRuns-ne-ended (for_leaves r) h = cc
  StmtRuns-ne-ended (for_again r g k) h = cc
  StmtRuns-ne-ended (runs_if {bs} r) h =
      BranchesRun-ne-ended r (and-left (has_else bs) (branches_always_return bs) h)
        (and-right (has_else bs) (branches_always_return bs) h)
  StmtRuns-ne-ended (runs_switch {cs} r) h =
      CasesRun-ne-ended r (and-right (has_default cs) (cases_always_return cs) h)
  StmtRuns-ne-ended (switch_skips {cs} e) h =
      absurd (cc (e, and-left (has_default cs) (cases_always_return cs) h))

  BlockRuns-ne-ended :
      {b : Block} {o : Outcome} → BlockRuns b o → block_always_returns b ≡ true → o ≢ ended
  BlockRuns-ne-ended runs_empty h = cc
  BlockRuns-ne-ended (runs_on {s} {rest} r k) h = elim (Bool-cases (stmt_always_returns s)) [
    | inl e ↦ absurd (StmtRuns-ne-ended r e refl)
    | inr e ↦ BlockRuns-ne-ended k (rw e at h)
  ]
  BlockRuns-ne-ended (runs_out r ne) h = ne

  BranchesRun-ne-ended :
      {bs : Branches} {o : Outcome}
      → BranchesRun bs o
      → has_else bs ≡ true
      → branches_always_return bs ≡ true
      → o ≢ ended
  BranchesRun-ne-ended no_branch e h = cc
  BranchesRun-ne-ended (taken {b} {rest} r) e h =
      BlockRuns-ne-ended r (and-left (block_always_returns b) (branches_always_return rest) h)
  BranchesRun-ne-ended (passed {b} {rest} n r) e h =
      BranchesRun-ne-ended r (rw n at e)
        (and-right (block_always_returns b) (branches_always_return rest) h)

  CasesRun-ne-ended :
      {cs : Cases} {o : Outcome} → CasesRun cs o → cases_always_return cs ≡ true → o ≢ ended
  CasesRun-ne-ended (chosen {b} {rest} r) h =
      BlockRuns-ne-ended r (and-left (block_always_returns b) (cases_always_return rest) h)
  CasesRun-ne-ended (further {b} {rest} r) h =
      CasesRun-ne-ended r (and-right (block_always_returns b) (cases_always_return rest) h)

pub block_always_returns_sound :
    {b : Block} {o : Outcome} → BlockRuns b o → block_always_returns b ≡ true → o ≢ ended
block_always_returns_sound = BlockRuns-ne-ended
