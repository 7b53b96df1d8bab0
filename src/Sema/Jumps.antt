-- ===== src/Sema/Jumps.antt =====
-- `g_loop_depth`: a block that validates outside every loop is never left by `break` or `continue`.
use back_and_forth.Prelude.{ℕ, false, [], ◌≡◌, ◌≢◌, ◌==◌, arith}
use back_and_forth.Diagnostic.{Diagnostics}
use back_and_forth.Syntax.{BafType, Stmt, Block, Cases, Branches}
use back_and_forth.Sema.Env.{Environment}
use back_and_forth.Sema.ValidateBlock.{
  Context, validate_stmt, validate_block, validate_cases, validate_branches,
}
use back_and_forth.Sema.Reports.{report_if-nil}
use back_and_forth.Sema.BlockReports.{
  validate_block-Keeps, validate_cases-Keeps, validate_branches-Keeps,
}
use back_and_forth.Sema.Runs.{
  Outcome, ended, broke, continued, out_of_loop, StmtRuns, BlockRuns, BranchesRun, CasesRun,
  runs_null, runs_var, runs_assign, runs_call, runs_return, runs_break, runs_continue, while_stops,
  while_leaves, while_again, for_stops, for_leaves, for_again, runs_if, runs_switch, switch_skips,
  runs_empty, runs_on, runs_out, no_branch, taken, passed, chosen, further,
}

-- No jump out of a loop that is not there.
abbrev pub IsInside : Outcome → Type 0
IsInside o = (o ≢ broke) × (o ≢ continued)

out_of_loop-IsInside : (o : Outcome) → IsInside (out_of_loop o)
out_of_loop-IsInside ended = (cc, cc)
out_of_loop-IsInside _ = (cc, cc)

outside-of-loop : (n : ℕ) → n ≡ 0 → (n == 0) ≡ false → ⊥
outside-of-loop n z f = ground arith

module _ (c : Context) (outside : c.loop_depth ≡ 0) where
  mutual
    unfolding validate_stmt

    pub StmtRuns-IsInside :
        {s : Stmt} {o : Outcome}
        → StmtRuns s o
        → (env : Environment) (d : Diagnostics) → (validate_stmt c env s d).1 ≡ []
        → IsInside o
    StmtRuns-IsInside runs_null env d h = (cc, cc)
    StmtRuns-IsInside runs_var env d h = (cc, cc)
    StmtRuns-IsInside runs_assign env d h = (cc, cc)
    StmtRuns-IsInside runs_call env d h = (cc, cc)
    StmtRuns-IsInside runs_return env d h = (cc, cc)
    StmtRuns-IsInside (runs_break {t}) env d h =
        absurd (outside-of-loop c.loop_depth outside (report_if-nil _ d t.at _ h).1)
    StmtRuns-IsInside (runs_continue {t}) env d h =
        absurd (outside-of-loop c.loop_depth outside (report_if-nil _ d t.at _ h).1)
    StmtRuns-IsInside while_stops env d h = (cc, cc)
    StmtRuns-IsInside (while_leaves {o} r) env d h = out_of_loop-IsInside o
    StmtRuns-IsInside (while_again r g k) env d h = StmtRuns-IsInside k env d h
    StmtRuns-IsInside for_stops env d h = (cc, cc)
    StmtRuns-IsInside (for_leaves {o} r) env d h = out_of_loop-IsInside o
    StmtRuns-IsInside (for_again r g k) env d h = StmtRuns-IsInside k env d h
    StmtRuns-IsInside (runs_if r) env d h = BranchesRun-IsInside r env d h
    StmtRuns-IsInside (runs_switch r) env d h = CasesRun-IsInside r env _ _ h
    StmtRuns-IsInside (switch_skips e) env d h = (cc, cc)

    pub BlockRuns-IsInside :
        {b : Block} {o : Outcome}
        → BlockRuns b o
        → (env : Environment) (d : Diagnostics) → (validate_block c env b d).1 ≡ []
        → IsInside o
    BlockRuns-IsInside runs_empty env d h = (cc, cc)
    BlockRuns-IsInside (runs_on r k) env d h = BlockRuns-IsInside k _ _ h
    BlockRuns-IsInside (runs_out {rest} r ne) env d h =
        StmtRuns-IsInside r env d (validate_block-Keeps c _ rest _ h)

    BranchesRun-IsInside :
        {bs : Branches} {o : Outcome}
        → BranchesRun bs o
        → (env : Environment) (d : Diagnostics) → validate_branches c env bs d ≡ []
        → IsInside o
    BranchesRun-IsInside no_branch env d h = (cc, cc)
    BranchesRun-IsInside (taken {rest} r) env d h =
        BlockRuns-IsInside r env _ (validate_branches-Keeps c env rest _ h)
    BranchesRun-IsInside (passed n r) env d h = BranchesRun-IsInside r env _ h

    CasesRun-IsInside :
        {cs : Cases} {o : Outcome}
        → CasesRun cs o
        → (env : Environment) (type : BafType) (d : Diagnostics)
        → validate_cases c env type cs d ≡ []
        → IsInside o
    CasesRun-IsInside (chosen {rest} r) env type d h =
        BlockRuns-IsInside r env _ (validate_cases-Keeps c env type rest _ h)
    CasesRun-IsInside (further r) env type d h = CasesRun-IsInside r env type _ h
