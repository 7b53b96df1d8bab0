-- ===== src/Sema/ValidateFunction.antt =====
-- The last loops of `analyze_program`: a function's body, and the begin block.
use back_and_forth.Prelude.{ℕ, suc, not, ◌&&◌, List, [], ◌∷◌, none, some}
use back_and_forth.Diagnostic.{Diagnostics, paths_without_return}
use back_and_forth.Syntax.{void, Block, Function}
use back_and_forth.Sema.Types.{type_eq, bind_parameters}
use back_and_forth.Sema.Validate.{report_if}
use back_and_forth.Sema.ValidateBlock.{Context, validate_block}
use back_and_forth.Sema.Returns.{block_always_returns}

abbrev pub function_context : List Function → Function → Context
function_context fs f = record { functions = fs; current_function = some f; loop_depth = 0 }

-- One round of the loop over the functions, at the function `f` with index `i`.
unfoldable pub validate_function : List Function → ℕ → Function → Diagnostics → Diagnostics
unfolding validate_block block_always_returns report_if
validate_function fs i f diag =
    let env = bind_parameters i 0 f.params [] in
    report_if (not (type_eq f.return_type void) && not (block_always_returns f.body))
      (validate_block (function_context fs f) env f.body diag).1 f.token.at
      (paths_without_return f.name f.return_type)

unfoldable pub validate_functions : List Function → ℕ → List Function → Diagnostics → Diagnostics
unfolding validate_function
validate_functions fs i [] diag = diag
validate_functions fs i (f ∷ rest) diag =
    validate_functions fs (suc i) rest (validate_function fs i f diag)

abbrev pub begin_context : List Function → Context
begin_context fs = record { functions = fs; current_function = none; loop_depth = 0 }

unfoldable pub validate_begin : List Function → Block → Diagnostics → Diagnostics
unfolding validate_block
validate_begin fs begin_block diag = (validate_block (begin_context fs) [] begin_block diag).1
