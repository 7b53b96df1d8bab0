-- ===== src/Sema/Declarations.antt =====
-- `validate_declarations`: which functions a program may declare.
use back_and_forth.Prelude.{
  Bool, true, false, ◌||◌, List, [], ◌∷◌, ◌++◌, Option, none, some, Text, codes, text_eq,
}
use back_and_forth.Token.{Position}
use back_and_forth.Diagnostic.{
  Diagnostics, Message, reserved_name, function_already_declared, duplicate_parameter,
}
use back_and_forth.Syntax.{Parameter, Function, Program}
use back_and_forth.Sema.Builtins.{BuiltinSpec, find_builtin}
use back_and_forth.Sema.Validate.{report_if}

abbrev pub is_found : Option BuiltinSpec → Bool
is_found none = false
is_found (some b) = true

unfoldable pub is_reserved : Text → Bool
unfolding find_builtin text_eq
is_reserved name = is_found (find_builtin name) || text_eq name (codes "main")

-- The loops over `j` and `q`: one report for each earlier name that is this one.
unfoldable pub report_equal_names :
    List Text → Text → Position → Message → Diagnostics → Diagnostics
unfolding text_eq report_if
report_equal_names [] name at m diag = diag
report_equal_names (n ∷ ns) name at m diag =
    report_equal_names ns name at m (report_if (text_eq n name) diag at m)

-- The loop over `p`, behind the parameters named `earlier`.
unfoldable pub validate_parameters : List Text → List Parameter → Diagnostics → Diagnostics
unfolding report_equal_names
validate_parameters earlier [] diag = diag
validate_parameters earlier (q ∷ qs) diag =
    validate_parameters (earlier ++ (q.name ∷ [])) qs
      (report_equal_names earlier q.name q.token.at (duplicate_parameter q.name) diag)

-- One round of the loop over `i`, behind the functions named `earlier`.
unfoldable pub validate_declaration : List Text → Function → Diagnostics → Diagnostics
unfolding is_reserved report_equal_names validate_parameters report_if
validate_declaration earlier f diag =
    let d = report_if (is_reserved f.name) diag f.token.at (reserved_name f.name) in
    validate_parameters [] f.params
      (report_equal_names earlier f.name f.token.at (function_already_declared f.name) d)

unfoldable pub validate_functions_declared : List Text → List Function → Diagnostics → Diagnostics
unfolding validate_declaration
validate_functions_declared earlier [] diag = diag
validate_functions_declared earlier (f ∷ fs) diag =
    validate_functions_declared (earlier ++ (f.name ∷ [])) fs (validate_declaration earlier f diag)

unfoldable pub validate_declarations : Program → Diagnostics → Diagnostics
unfolding validate_functions_declared
validate_declarations p diag = validate_functions_declared [] p.functions diag
