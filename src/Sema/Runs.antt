-- ===== src/Sema/Runs.antt =====
-- Which ways a run can leave a statement, as docs/LANGUAGE.md describes the statements, whatever
-- the conditions and the subjects evaluate to.
use back_and_forth.Prelude.{Bool, true, false, ◌≡◌, ◌≢◌, Text}
use back_and_forth.Token.{Token}
use back_and_forth.Syntax.{
  is_null, BafType, CallInfo, Args, Stmt, Block, Cases, Branches, Expr, null_stmt, var, assign,
  call_stmt, while_stmt, for_stmt, switch_stmt, if_stmt, return_stmt, break_stmt, continue_stmt,
  no_stmts, stmt, switch_case, no_branches, branch,
}
use back_and_forth.Sema.Returns.{has_default}

-- Falling out at the end, or leaving by `return`, `break` or `continue`.
pub data Outcome : Type 0 where
  ended returned broke continued : Outcome

-- A loop goes on when its body ended or continued.
abbrev pub goes_on : Outcome → Bool
goes_on ended = true
goes_on continued = true
goes_on _ = false

-- What a loop does when its body leaves in this way and the loop stops there: a `return` goes
-- through, and all else stays inside.
abbrev pub out_of_loop : Outcome → Outcome
out_of_loop returned = returned
out_of_loop _ = ended

mutual
  pub data StmtRuns : Stmt → Outcome → Type 0 where
    runs_null : StmtRuns null_stmt ended
    runs_var : {t : Token} {ty : BafType} {n : Text} {e : Expr} → StmtRuns (var t ty n e) ended
    runs_assign : {t : Token} {n : Text} {e : Expr} → StmtRuns (assign t n e) ended
    runs_call : {t : Token} {i : CallInfo} {a : Args} → StmtRuns (call_stmt t i a) ended
    runs_return : {t : Token} {e : Expr} → StmtRuns (return_stmt t e) returned
    runs_break : {t : Token} → StmtRuns (break_stmt t) broke
    runs_continue : {t : Token} → StmtRuns (continue_stmt t) continued
    while_stops : {t : Token} {e : Expr} {b : Block} → StmtRuns (while_stmt t e b) ended
    while_leaves :
        {t : Token} {e : Expr} {b : Block} {o : Outcome}
        → BlockRuns b o
        → StmtRuns (while_stmt t e b) (out_of_loop o)
    while_again :
        {t : Token} {e : Expr} {b : Block} {o p : Outcome}
        → BlockRuns b o
        → goes_on o ≡ true
        → StmtRuns (while_stmt t e b) p
        → StmtRuns (while_stmt t e b) p
    for_stops :
        {t : Token} {i : Stmt} {e : Expr} {s : Stmt} {b : Block}
        → StmtRuns (for_stmt t i e s b) ended
    for_leaves :
        {t : Token} {i : Stmt} {e : Expr} {s : Stmt} {b : Block} {o : Outcome}
        → BlockRuns b o
        → StmtRuns (for_stmt t i e s b) (out_of_loop o)
    for_again :
        {t : Token} {i : Stmt} {e : Expr} {s : Stmt} {b : Block} {o p : Outcome}
        → BlockRuns b o
        → goes_on o ≡ true
        → StmtRuns (for_stmt t i e s b) p
        → StmtRuns (for_stmt t i e s b) p
    runs_if :
        {t : Token} {bs : Branches} {o : Outcome} → BranchesRun bs o → StmtRuns (if_stmt t bs) o
    runs_switch :
        {t : Token} {e : Expr} {cs : Cases} {o : Outcome}
        → CasesRun cs o
        → StmtRuns (switch_stmt t e cs) o
    switch_skips :
        {t : Token} {e : Expr} {cs : Cases}
        → has_default cs ≡ false
        → StmtRuns (switch_stmt t e cs) ended

  pub data BlockRuns : Block → Outcome → Type 0 where
    runs_empty : BlockRuns no_stmts ended
    runs_on :
        {s : Stmt} {rest : Block} {o : Outcome}
        → StmtRuns s ended
        → BlockRuns rest o
        → BlockRuns (stmt s rest) o
    runs_out :
        {s : Stmt} {rest : Block} {o : Outcome}
        → StmtRuns s o
        → o ≢ ended
        → BlockRuns (stmt s rest) o

  -- The first branch whose condition holds; a trailing else has none and is always taken.
  pub data BranchesRun : Branches → Outcome → Type 0 where
    no_branch : BranchesRun no_branches ended
    taken :
        {t : Token} {e : Expr} {b : Block} {rest : Branches} {o : Outcome}
        → BlockRuns b o
        → BranchesRun (branch t e b rest) o
    passed :
        {t : Token} {e : Expr} {b : Block} {rest : Branches} {o : Outcome}
        → is_null e ≡ false
        → BranchesRun rest o
        → BranchesRun (branch t e b rest) o

  -- One case or the default.
  pub data CasesRun : Cases → Outcome → Type 0 where
    chosen :
        {t : Token} {d : Bool} {e : Expr} {b : Block} {rest : Cases} {o : Outcome}
        → BlockRuns b o
        → CasesRun (switch_case t d e b rest) o
    further :
        {t : Token} {d : Bool} {e : Expr} {b : Block} {rest : Cases} {o : Outcome}
        → CasesRun rest o
        → CasesRun (switch_case t d e b rest) o
