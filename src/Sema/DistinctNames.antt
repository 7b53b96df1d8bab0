-- ===== src/Sema/DistinctNames.antt =====
-- When `validate_declarations` reports nothing.
use back_and_forth.Prelude.{
  Bool, false, List, [], ◌∷◌, ◌++◌, ◌≡◌, ◌≢◌, ◌↔◌, refl, Text, text_eq, text_eq_iff, All, map,
  arith,
}
use back_and_forth.Token.{Position}
use back_and_forth.Diagnostic.{
  Diagnostics, Message, reserved_name, function_already_declared, duplicate_parameter,
}
use back_and_forth.Syntax.{Parameter, Function, Program}
use back_and_forth.Sema.Validate.{report_if}
use back_and_forth.Sema.Declarations.{
  is_reserved, report_equal_names, validate_parameters, validate_declaration,
  validate_functions_declared, validate_declarations,
}
use back_and_forth.Sema.Reports.{report_if-nil}

abbrev pub Fresh : List Text → Text → Type 0
Fresh earlier name = All (λ n. n ≢ name) earlier

-- No name occurs again in the list.
abbrev pub Distinct : List Text → Type 0
Distinct [] = Unit
Distinct (n ∷ ns) = All (λ m. n ≢ m) ns × Distinct ns

abbrev pub parameter_name : Parameter → Text
parameter_name q = q.name

abbrev pub function_name : Function → Text
function_name f = f.name

-- What the language asks of a function by itself.
pub record Declarable (f : Function) : Type 0 where
  pub unreserved : is_reserved f.name ≡ false
  pub parameters_distinct : Distinct (map parameter_name f.params)

abbrev pub ProgramDeclarable : Program → Type 0
ProgramDeclarable p = All Declarable p.functions × Distinct (map function_name p.functions)

-- The names are new as they come, behind those of `earlier`.
abbrev New : List Text → List Text → Type 0
New earlier [] = Unit
New earlier (n ∷ ns) = Fresh earlier n × New (earlier ++ (n ∷ [])) ns

text_eq-false : (a b : Text) → (text_eq a b ≡ false) ↔ (a ≢ b)
text_eq-false a b = ground (arith, text_eq_iff a b)

report_if-quiet :
    (test : Bool) (d : Diagnostics) (at : Position) (m : Message)
    → (report_if test d at m ≡ []) ↔ ((d ≡ []) × (test ≡ false))
unfolding report_if
report_if-quiet test d at m = (report_if-nil test d at m, λ h. rw (h.1, h.0) refl)

report_equal_names-quiet :
    (ns : List Text) (name : Text) (at : Position) (m : Message) (d : Diagnostics)
    → (report_equal_names ns name at m d ≡ []) ↔ ((d ≡ []) × Fresh ns name)
unfolding report_equal_names
report_equal_names-quiet [] name at m d = ground arith
report_equal_names-quiet (n ∷ ns) name at m d =
    let one = report_if-quiet (text_eq n name) d at m in
    let others = report_equal_names-quiet ns name at m (report_if (text_eq n name) d at m) in
    let test = text_eq-false n name in
    (
      λ h.
          let below = others.0 h in
          let (quiet, differs) = one.0 below.0 in (quiet, (test.0 differs, below.1)),
      λ h. others.1 (one.1 (h.0, test.1 h.1.0), h.1.1),
    )

Fresh-append :
    (earlier : List Text) (n m : Text) → Fresh (earlier ++ (n ∷ [])) m ↔ (Fresh earlier m × (n ≢ m))
Fresh-append [] n m = ground arith
Fresh-append (e ∷ es) n m = ground (arith, Fresh-append es n m)

All-Fresh-append :
    (earlier : List Text) (n : Text) (ms : List Text)
    → All (λ m. Fresh (earlier ++ (n ∷ [])) m) ms
      ↔ (All (λ m. Fresh earlier m) ms × All (λ m. n ≢ m) ms)
All-Fresh-append earlier n [] = ground arith
All-Fresh-append earlier n (m ∷ ms) =
    ground (arith, Fresh-append earlier n m, All-Fresh-append earlier n ms)

New-iff : (earlier ns : List Text) → New earlier ns ↔ (All (λ m. Fresh earlier m) ns × Distinct ns)
New-iff earlier [] = ground arith
New-iff earlier (n ∷ ns) =
    ground (arith, New-iff (earlier ++ (n ∷ [])) ns, All-Fresh-append earlier n ns)

All-Fresh-nil : (ns : List Text) → All (λ m. Fresh [] m) ns
All-Fresh-nil [] = tt
All-Fresh-nil (n ∷ ns) = (tt, All-Fresh-nil ns)

Distinct-New : (ns : List Text) → New [] ns ↔ Distinct ns
Distinct-New ns = ground (arith, New-iff [] ns, All-Fresh-nil ns)

validate_parameters-quiet :
    (earlier : List Text) (qs : List Parameter) (d : Diagnostics)
    → (validate_parameters earlier qs d ≡ []) ↔ ((d ≡ []) × New earlier (map parameter_name qs))
unfolding validate_parameters
validate_parameters-quiet earlier [] d = ground arith
validate_parameters-quiet earlier (q ∷ qs) d =
    let names = report_equal_names-quiet earlier q.name q.token.at (duplicate_parameter q.name) d in
    let others =
      validate_parameters-quiet (earlier ++ (q.name ∷ [])) qs
        (report_equal_names earlier q.name q.token.at (duplicate_parameter q.name) d) in
    (
      λ h. let (a, b) = others.0 h in let (c, e) = names.0 a in (c, (e, b)),
      λ h. others.1 (names.1 (h.0, h.1.0), h.1.1),
    )

validate_declaration-quiet :
    (earlier : List Text) (f : Function) (d : Diagnostics)
    → (validate_declaration earlier f d ≡ []) ↔ ((d ≡ []) × Declarable f × Fresh earlier f.name)
unfolding validate_declaration
validate_declaration-quiet earlier f d =
    let reserved = report_if-quiet (is_reserved f.name) d f.token.at (reserved_name f.name) in
    let d' = report_if (is_reserved f.name) d f.token.at (reserved_name f.name) in
    let names =
      report_equal_names-quiet earlier f.name f.token.at (function_already_declared f.name) d' in
    let d'' = report_equal_names earlier f.name f.token.at (function_already_declared f.name) d' in
    let params = validate_parameters-quiet [] f.params d'' in
    let distinct = Distinct-New (map parameter_name f.params) in
    (
      λ h.
          let (h₂, new) = params.0 h in
          let (h₁, fresh) = names.0 h₂ in
          let (h₀, free) = reserved.0 h₁ in
          (h₀, record { unreserved = free; parameters_distinct = distinct.0 new }, fresh),
      λ (h₀, declarable, fresh). params.1 (
        names.1 (reserved.1 (h₀, declarable.unreserved), fresh),
        distinct.1 declarable.parameters_distinct,
      ),
    )

validate_functions_declared-quiet :
    (earlier : List Text) (fs : List Function) (d : Diagnostics)
    → (validate_functions_declared earlier fs d ≡ [])
      ↔ ((d ≡ []) × All Declarable fs × New earlier (map function_name fs))
unfolding validate_functions_declared
validate_functions_declared-quiet earlier [] d = ground arith
validate_functions_declared-quiet earlier (f ∷ fs) d =
    let one = validate_declaration-quiet earlier f d in
    let others =
      validate_functions_declared-quiet (earlier ++ (f.name ∷ [])) fs
        (validate_declaration earlier f d) in
    (
      λ h.
          let (h₁, all, new) = others.0 h in
          let (h₀, declarable, fresh) = one.0 h₁ in (h₀, (declarable, all), (fresh, new)),
      λ (h₀, (declarable, all), (fresh, new)). others.1 (one.1 (h₀, declarable, fresh), all, new),
    )

-- `validate_declarations` reports nothing exactly when no function has the name of a builtin or
-- `main`, the functions have different names, and so have the parameters of each function.
pub validate_declarations-ProgramDeclarable :
    (p : Program) → (validate_declarations p [] ≡ []) ↔ ProgramDeclarable p
unfolding validate_declarations
validate_declarations-ProgramDeclarable p =
    let quiet = validate_functions_declared-quiet [] p.functions [] in
    let distinct = Distinct-New (map function_name p.functions) in
    (
      λ h. let (_, all, new) = quiet.0 h in (all, distinct.0 new),
      λ h. quiet.1 (refl, h.0, distinct.1 h.1),
    )
