-- ===== src/Sema/Accepted.antt =====
-- What `analyze_program` promises of a program that it accepts.
use back_and_forth.Prelude.{
  ℕ, suc, true, false, List, [], ◌∷◌, ◌≡◌, ◌≢◌, refl, sym, subst, All, arith, Bool-cases, inl, inr,
}
use back_and_forth.Diagnostic.{Diagnostics, no_errors}
use back_and_forth.Syntax.{BafType, unknown, void, Parameter, Function, Program}
use back_and_forth.Sema.Types.{is_unknown, bind_parameters}
use back_and_forth.Sema.Resolve.{resolve_block_calls}
use back_and_forth.Sema.ValidateFunction.{
  function_context, begin_context, validate_function, validate_functions, validate_begin,
}
use back_and_forth.Sema.Declarations.{validate_declarations}
use back_and_forth.Sema.Analyze.{
  resolve_functions, infer_rounds, report_unknown, report_unknown_parameters, check_resolved,
  analyze_program,
}
use back_and_forth.Sema.Runs.{Outcome, returned, BlockRuns}
use back_and_forth.Sema.Jumps.{IsInside}
use back_and_forth.Sema.Reports.{Keeps, report_if-nil}
use back_and_forth.Sema.BlockReports.{validate_block-Keeps}
use back_and_forth.Sema.FunctionRuns.{validate_function-returned, validate_begin-IsInside}
use back_and_forth.Sema.WellResolved.{BlockOk}
use back_and_forth.Sema.ResolveTree.{resolve_block-Right}
use back_and_forth.Sema.DistinctNames.{ProgramDeclarable, validate_declarations-ProgramDeclarable}
use back_and_forth.Sema.Kept.{Kept, Kept-refl}
use back_and_forth.Sema.InferBlockKept.{infer_rounds-Kept}

-- The second list is the first with bodies in which every call is right.
abbrev pub ResolvedAll : Program → List Function → List Function → Type 0
ResolvedAll p [] [] = Unit
ResolvedAll p (f ∷ fs) (g ∷ gs) =
    ((g ≡ record f { body = g.body }) × BlockOk p g.body) × ResolvedAll p fs gs
ResolvedAll p _ _ = ⊥

abbrev pub Typed : Function → Type 0
Typed f = All (λ q. q.type ≢ unknown) f.params

abbrev pub Returns : Function → Type 0
Returns f = f.return_type ≢ void → (o : Outcome) → BlockRuns f.body o → o ≡ returned

-- The program `q` that the analysis made of `p`.
pub record Accepted (p q : Program) : Type 0 where
  pub declarable : ProgramDeclarable p
  pub resolved : List Function
  pub resolution : ResolvedAll p p.functions resolved
  pub inference : Kept resolved q.functions
  pub typed : All Typed q.functions
  pub returns : All Returns q.functions
  pub begin_resolved : BlockOk p q.begin_block
  pub begin_stays : (o : Outcome) → BlockRuns q.begin_block o → IsInside o

resolve_functions-ResolvedAll :
    (p : Program) (fs : List Function) (d : Diagnostics)
    → (resolve_functions p fs d).1 ≡ []
    → (d ≡ []) × ResolvedAll p fs (resolve_functions p fs d).0
unfolding resolve_functions
resolve_functions-ResolvedAll p [] d h = (h, tt)
resolve_functions-ResolvedAll p (f ∷ fs) d h =
    let (h₁, others) = resolve_functions-ResolvedAll p fs (resolve_block_calls p f.body d).1 h in
    let (h₀, ok) = resolve_block-Right p f.body d h₁ in (h₀, ((refl, ok), others))

known : (t : BafType) → is_unknown t ≡ false → t ≢ unknown
known t h = ground arith

report_unknown-Typed :
    (qs : List Parameter) (d : Diagnostics)
    → report_unknown qs d ≡ []
    → (d ≡ []) × All (λ q. q.type ≢ unknown) qs
unfolding report_unknown
report_unknown-Typed [] d h = (h, tt)
report_unknown-Typed (q ∷ qs) d h =
    let (h₁, others) = report_unknown-Typed qs _ h in
    let (h₀, test) = report_if-nil _ d _ _ h₁ in (h₀, (known q.type test, others))

report_unknown_parameters-Typed :
    (fs : List Function) (d : Diagnostics)
    → report_unknown_parameters fs d ≡ []
    → (d ≡ []) × All Typed fs
unfolding report_unknown_parameters
report_unknown_parameters-Typed [] d h = (h, tt)
report_unknown_parameters-Typed (f ∷ fs) d h =
    let (h₁, others) = report_unknown_parameters-Typed fs _ h in
    let (h₀, one) = report_unknown-Typed f.params d h₁ in (h₀, (one, others))

validate_function-Keeps :
    (fs : List Function) (i : ℕ) (f : Function) (d : Diagnostics)
    → Keeps d (validate_function fs i f d)
unfolding validate_function
validate_function-Keeps fs i f d h =
    validate_block-Keeps (function_context fs f) (bind_parameters i 0 f.params []) f.body d
      (report_if-nil _ _ f.token.at _ h).0

validate_functions-Returns :
    (fs : List Function) (i : ℕ) (gs : List Function) (d : Diagnostics)
    → validate_functions fs i gs d ≡ []
    → (d ≡ []) × All Returns gs
unfolding validate_functions
validate_functions-Returns fs i [] d h = (h, tt)
validate_functions-Returns fs i (g ∷ gs) d h =
    let (h₁, others) = validate_functions-Returns fs (suc i) gs (validate_function fs i g d) h in
    let h₀ = validate_function-Keeps fs i g d h₁ in
    let quiet = subst (λ x. validate_function fs i g x ≡ []) h₀ h₁ in
    (h₀, ((λ typed o runs. validate_function-returned fs i g o quiet typed runs), others))

-- What the loops behind the resolution give.
record Checked (r q : Program) : Type 0 where
  inference : Kept r.functions q.functions
  typed : All Typed q.functions
  returns : All Returns q.functions
  begin_block : q.begin_block ≡ r.begin_block
  begin_stays : (o : Outcome) → BlockRuns q.begin_block o → IsInside o

check_resolved-Checked :
    (r : Program) (d : Diagnostics) → (check_resolved r d).1 ≡ [] → Checked r (check_resolved r d).0
unfolding check_resolved validate_begin
check_resolved-Checked r d h =
    let fs = infer_rounds 64 r.begin_block r.functions in
    let d₁ = report_unknown_parameters fs d in
    let d₂ = validate_functions fs 0 fs d₁ in
    let h₂ = validate_block-Keeps (begin_context fs) [] r.begin_block d₂ h in
    let (h₁, returns) = validate_functions-Returns fs 0 fs d₁ h₂ in
    let quiet = subst (λ x. validate_begin fs r.begin_block x ≡ []) h₂ h in
    record {
      inference =
          infer_rounds-Kept r.functions 64 r.begin_block r.functions (Kept-refl r.functions);
      typed = (report_unknown_parameters-Typed fs d h₁).1;
      returns = returns;
      begin_block = refl;
      begin_stays = λ o runs. validate_begin-IsInside fs r.begin_block o quiet runs;
    }

no_errors-nil : (d : Diagnostics) → no_errors d ≡ true → d ≡ []
no_errors-nil d h = ground arith

nil-no_errors : (d : Diagnostics) → d ≡ [] → no_errors d ≡ false → ⊥
nil-no_errors d h e = ground arith

-- The program and the reports behind the resolution.
abbrev resolve_program : Program → Program × Diagnostics
resolve_program p =
    let (fs, d₁) = resolve_functions p p.functions (validate_declarations p []) in
    let (b, d₂) = resolve_block_calls p p.begin_block d₁ in
    (record { functions = fs; begin_block = b }, d₂)

resolve_program-Accepted :
    (p q : Program) → (resolve_program p).1 ≡ [] → Checked (resolve_program p).0 q → Accepted p q
resolve_program-Accepted p q quiet checked =
    let (fs, d₁) = resolve_functions p p.functions (validate_declarations p []) in
    let (h₁, begin_ok) = resolve_block-Right p p.begin_block d₁ quiet in
    let (h₀, resolution) =
      resolve_functions-ResolvedAll p p.functions (validate_declarations p []) h₁ in
    record {
      declarable = (validate_declarations-ProgramDeclarable p).0 h₀;
      resolved = fs;
      resolution = resolution;
      inference = checked.inference;
      typed = checked.typed;
      returns = checked.returns;
      begin_resolved = subst (λ b. BlockOk p b) (sym checked.begin_block) begin_ok;
      begin_stays = checked.begin_stays;
    }

-- If `analyze_program` reports nothing: the names declared are unreserved and distinct; only the
-- bodies are changed before inference, to ones in which every call is right; inference keeps each
-- body, each type of a parameter that was known, and each return type that was written or not void;
-- every parameter has a type; every run of a function whose return type is not void leaves by a
-- `return`; every call of the begin block is right, and no run of it leaves by `break` or
-- `continue`.
pub analyze_program-Accepted :
    (p : Program) → (analyze_program p).1 ≡ [] → Accepted p (analyze_program p).0
unfolding analyze_program
analyze_program-Accepted p h =
    let (r, d₂) = resolve_program p in
    elim (Bool-cases (no_errors d₂)) [
      | inl e ↦
          let same : analyze_program p ≡ check_resolved r d₂ = rw (e, analyze_program) refl in
          let checked = check_resolved-Checked r d₂ (subst (λ x. x.1 ≡ []) same h) in
          subst (λ x. Accepted p x.0) (sym same)
            (resolve_program-Accepted p (check_resolved r d₂).0 (no_errors-nil d₂ e) checked)
      | inr e ↦
          let same : analyze_program p ≡ (r, d₂) = rw (e, analyze_program) refl in
          absurd (nil-no_errors d₂ (subst (λ x. x.1 ≡ []) same h) e)
    ]
