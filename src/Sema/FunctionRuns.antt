-- ===== src/Sema/FunctionRuns.antt =====
-- What the analysis promises of the runs of a function.
use back_and_forth.Prelude.{ℕ, Bool, true, false, not, ◌&&◌, List, [], ◌≡◌, ◌≢◌, refl, arith}
use back_and_forth.Syntax.{BafType, void, Block, Function}
use back_and_forth.Sema.Types.{type_eq, bind_parameters}
use back_and_forth.Sema.Returns.{block_always_returns}
use back_and_forth.Sema.ValidateFunction.{validate_function, function_context, validate_begin}
use back_and_forth.Sema.Runs.{Outcome, ended, returned, broke, continued, BlockRuns}
use back_and_forth.Sema.Reports.{report_if-nil}
use back_and_forth.Sema.LeavesByReturn.{block_always_returns_sound}
use back_and_forth.Sema.Jumps.{IsInside, BlockRuns-IsInside}

returned-of : (o : Outcome) → IsInside o → o ≢ ended → o ≡ returned
returned-of ended h n = absurd (n refl)
returned-of returned h n = refl
returned-of broke h n = absurd (h.0 refl)
returned-of continued h n = absurd (h.1 refl)

type_eq→eq : (a b : BafType) → type_eq a b ≡ true → a ≡ b
type_eq→eq a b h = ground arith

always_of-test : (a b : Bool) → (not a && not b) ≡ false → a ≡ false → b ≡ true
always_of-test a b h e = ground arith

ne→type_eq : (a b : BafType) → a ≢ b → type_eq a b ≡ false
ne→type_eq a b h = ground arith

-- If the analysis of a function reports nothing and its return type is not void, every run of its
-- body leaves by a `return`: whatever the conditions evaluate to, it neither falls out at the end
-- nor leaves by a `break` or `continue`.
pub validate_function-returned :
    (fs : List Function) (i : ℕ) (f : Function) (o : Outcome)
    → validate_function fs i f [] ≡ []
    → f.return_type ≢ void
    → BlockRuns f.body o
    → o ≡ returned
unfolding validate_function
validate_function-returned fs i f o h typed runs =
    let (quiet, test) = report_if-nil _ _ f.token.at _ h in
    let always =
      always_of-test (type_eq f.return_type void) (block_always_returns f.body) test
        (ne→type_eq f.return_type void typed) in
    returned-of o
      (BlockRuns-IsInside (function_context fs f) refl runs (bind_parameters i 0 f.params []) []
        quiet)
      (block_always_returns_sound runs always)

-- If the analysis of the begin block reports nothing, no run of it leaves by a `break` or
-- `continue`.
pub validate_begin-IsInside :
    (fs : List Function) (b : Block) (o : Outcome)
    → validate_begin fs b [] ≡ []
    → BlockRuns b o
    → IsInside o
unfolding validate_begin
validate_begin-IsInside fs b o h runs = BlockRuns-IsInside _ refl runs [] [] h
