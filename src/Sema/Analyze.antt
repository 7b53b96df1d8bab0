-- ===== src/Sema/Analyze.antt =====
-- `analyze_program`.
use back_and_forth.Prelude.{ℕ, zero, suc, Bool, true, false, List, [], ◌∷◌, none, some}
use back_and_forth.Diagnostic.{Diagnostics, no_errors, cannot_infer_parameter}
use back_and_forth.Syntax.{Parameter, Function, Block, Program}
use back_and_forth.Sema.Types.{is_unknown, bind_parameters}
use back_and_forth.Sema.Validate.{report_if}
use back_and_forth.Sema.Resolve.{resolve_block_calls}
use back_and_forth.Sema.ValidateFunction.{validate_functions, validate_begin}
use back_and_forth.Sema.Declarations.{validate_declarations}
use back_and_forth.Sema.Infer.{Inference}
use back_and_forth.Sema.InferBlock.{infer_block}

-- The first loop: each function with its body resolved.
unfoldable pub resolve_functions :
    Program → List Function → Diagnostics → List Function × Diagnostics
unfolding resolve_block_calls
resolve_functions p [] diag = ([], diag)
resolve_functions p (f ∷ fs) diag =
    let (body, d₁) = resolve_block_calls p f.body diag in
    let (fs', d₂) = resolve_functions p fs d₁ in (record f { body = body } ∷ fs', d₂)

-- The functions and `changed`.
abbrev pub Round : Type 0
Round = List Function × Bool

abbrev pub outcome : Inference → Round
outcome s = (s.functions, s.changed)

-- The loop over the functions in a round: `remaining` holds the parameters and bodies from index `i` on.
unfoldable pub infer_functions : ℕ → List Function → Round → Round
unfolding infer_block
infer_functions i [] r = r
infer_functions i (f ∷ remaining) (fs, changed) = infer_functions (suc i) remaining (
    outcome (
      infer_block (some i) f.body
        (record { functions = fs; env = bind_parameters i 0 f.params []; changed = changed })))

-- One round of the loop over `iteration`.
unfoldable pub infer_round : Block → List Function → Round
unfolding infer_functions infer_block
infer_round begin_block fs =
    let (fs', changed) = infer_functions 0 fs (fs, false) in
    outcome (infer_block none begin_block (record { functions = fs'; env = []; changed = changed }))

-- `for (int iteration = 0; iteration < 64; iteration++)`
unfoldable pub infer_rounds : ℕ → Block → List Function → List Function
unfolding infer_round
infer_rounds zero begin_block fs = fs
infer_rounds (suc n) begin_block fs =
    let (fs', changed) = infer_round begin_block fs in
    elim changed [ true ↦ infer_rounds n begin_block fs' | false ↦ fs' ]

unfoldable pub report_unknown : List Parameter → Diagnostics → Diagnostics
unfolding report_if
report_unknown [] diag = diag
report_unknown (q ∷ qs) diag =
    report_unknown qs
      (report_if (is_unknown q.type) diag q.token.at (cannot_infer_parameter q.name))

unfoldable pub report_unknown_parameters : List Function → Diagnostics → Diagnostics
unfolding report_unknown
report_unknown_parameters [] diag = diag
report_unknown_parameters (f ∷ fs) diag =
    report_unknown_parameters fs (report_unknown f.params diag)

-- What follows the resolution of the calls: inference, and the last three loops.
unfoldable pub check_resolved : Program → Diagnostics → Program × Diagnostics
unfolding infer_rounds report_unknown_parameters validate_functions validate_begin
check_resolved p diag =
    let fs = infer_rounds 64 p.begin_block p.functions in
    let d₁ = report_unknown_parameters fs diag in
    let d₂ = validate_functions fs 0 fs d₁ in
    (record p { functions = fs }, validate_begin fs p.begin_block d₂)

-- The program as it is left, and the reports; the source returns whether there are none.
unfoldable pub analyze_program : Program → Program × Diagnostics
unfolding validate_declarations resolve_functions resolve_block_calls check_resolved
analyze_program p =
    let d₀ = validate_declarations p [] in
    let (fs, d₁) = resolve_functions p p.functions d₀ in
    let (begin_block, d₂) = resolve_block_calls p p.begin_block d₁ in
    let resolved : Program = record { functions = fs; begin_block = begin_block } in
    elim (no_errors d₂) [ true ↦ check_resolved resolved d₂ | false ↦ (resolved, d₂) ]
