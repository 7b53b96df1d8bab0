-- ===== src/Sema/Supplied.antt =====
-- A call that resolves without a report supplies each parameter exactly once.
use back_and_forth.Prelude.{
  ℕ, zero, suc, ◌+◌, ◌<◌, ◌≡◌, ◌≢◌, refl, sym, ap, ◌∙◌, subst, true, false, Option, none, some,
  List, [], ◌∷◌, Text, ◌==◌, if◌then◌else◌, length, arith, Bool-cases, inl, inr, ==_iff,
}
use back_and_forth.Diagnostic.{Diagnostics}
use back_and_forth.Syntax.{Program, CallInfo, ArgInfo, Expr, Args, no_args, arg}
use back_and_forth.Sema.Builtins.{find_builtin, BuiltinSpec}
use back_and_forth.Sema.Env.{index_of}
use back_and_forth.Sema.Matching.{
  Target, variadic, fixed, Matching, is_used, match_fixed, match_argument, all_unused,
  resolve_callee, start_matching, finish_matching, arg_count, callee_from, function_names,
}
use back_and_forth.Sema.Resolve.{resolve_around, resolve_with, Resolved}
use back_and_forth.Sema.WellResolved.{
  to_ℕ, stands_for, occurrences, ArgsNamed, Numbered, Supplies, CallOk, ArgsOk,
}
use back_and_forth.Sema.Assign.{
  diag_error-ne-nil, is_used-set, length-set, match_fixed-Takes, match_variadic_lem,
  report_missing-nil, report_missing-keeps,
}

some_injective {ℓ} : {A : Type ℓ} {x y : A} → some x ≡ some y → x ≡ y
some_injective h = cc

-- What a loop that started with `m` has done to the arguments, if it ended with no report.
abbrev pub Matched : Target → Matching → Args × Matching → Type 0
Matched variadic m r = Numbered m.index r.0
Matched (fixed params) m r =
    length m.used ≡ length params
    → (length r.1.used ≡ length params)
      × ((i : ℕ) → occurrences i r.0 + to_ℕ (is_used m.used i) ≡ to_ℕ (is_used r.1.used i))
      × ArgsNamed params r.0

pub Matched-nil : (target : Target) (m : Matching) → Matched target m (no_args, m)
Matched-nil variadic m = tt
Matched-nil (fixed params) m = λ e. (e, λ i. omega arith, tt)

abbrev pub next_round : ArgInfo × Matching → Matching
next_round r = record (r.1) { index = suc r.1.index }

Matched-fixed :
    (callee : Text) (params : List Text) (a : ArgInfo) (m : Matching) (value : Expr)
    (rest : Args × Matching)
    → (match_fixed callee params a m).1.diag ≡ []
    → Matched (fixed params) (next_round (match_fixed callee params a m)) rest
    → Matched (fixed params) m (arg (match_fixed callee params a m).0 value rest.0, rest.1)
Matched-fixed callee params a m value rest h others e =
    let t = match_fixed-Takes callee params a m h in
    let (used_length, counts, named) =
      others (ap length t.used_is ∙ length-set m.used t.parameter true ∙ e) in
    let free : t.parameter < length m.used = omega (arith, t.in_range, e) in
    (
      used_length,
      λ i. omega (
        arith,
        counts i,
        ap (λ us. to_ℕ (is_used us i)) t.used_is,
        ap (λ b. to_ℕ (stands_for b i)) t.argument_is,
        is_used-set m.used t.parameter i free t.was_free,
      ),
      (
        λ n en.
            t.named n (sym (ap (λ b. b.name) t.argument_is) ∙ en)
            ∙ sym (ap (λ b. b.resolved_parameter) t.argument_is),
        named,
      ),
    )

-- The reports play no part in the matching.
pub Matched-diag :
    (target : Target) (m : Matching) (d : Diagnostics) (r : Args × Matching)
    → Matched target (record m { diag = d }) r
    → Matched target m r
Matched-diag variadic m d r h = h
Matched-diag (fixed params) m d r h = h

-- One argument more, in front.
pub Matched-cons :
    (callee : Text) (target : Target) (a : ArgInfo) (m : Matching) (value : Expr)
    (rest : Args × Matching)
    → (match_argument callee target a m).1.diag ≡ []
    → Matched target (next_round (match_argument callee target a m)) rest
    → (m.diag ≡ [])
      × Matched target m (arg (match_argument callee target a m).0 value rest.0, rest.1)
unfolding match_argument
Matched-cons callee variadic a m value rest h others =
    let v = match_variadic_lem callee a m h in (v.0, (v.1, refl, others))
Matched-cons callee (fixed params) a m value rest h others = (
  (match_fixed-Takes callee params a m h).no_report,
  Matched-fixed callee params a m value rest h others,
)

report_starts :
    (params : List Text) (count : ℕ) (diag other : Diagnostics)
    → other ≢ []
    → (if count == length params then diag else other) ≡ []
    → (diag ≡ []) × (count ≡ length params)
report_starts params count diag other ne h = elim (Bool-cases (count == length params)) [
  | inl e ↦ (rw e at h, (==_iff count (length params)).0 e)
  | inr e ↦ absurd (ne (rw e at h))
]

length-all_unused : (params : List Text) → length (all_unused params) ≡ length params
length-all_unused [] = refl
length-all_unused (n ∷ ns) = ap suc (length-all_unused ns)

is_used-all_unused : (params : List Text) (i : ℕ) → is_used (all_unused params) i ≡ false
is_used-all_unused [] i = refl
is_used-all_unused (n ∷ ns) zero = refl
is_used-all_unused (n ∷ ns) (suc i) = is_used-all_unused ns i

-- From the start of the matching to its end.
Matched-Supplies :
    (info : CallInfo) (target : Target) (count : ℕ) (diag : Diagnostics) (r : Args × Matching)
    → arg_count r.0 ≡ count
    → (r.1.diag ≡ []
        → ((start_matching info target count diag).diag ≡ [])
          × Matched target (start_matching info target count diag) r)
    → finish_matching info target r.1 ≡ []
    → (diag ≡ []) × Supplies target r.0
unfolding start_matching finish_matching
Matched-Supplies info variadic count diag r counted loop h = loop h
Matched-Supplies info (fixed params) count diag r counted loop h =
    let quiet = report_missing-keeps info params r.1.used r.1.diag h in
    let (started, matched) = loop quiet in
    let (used_length, counts, named) = matched (length-all_unused params) in
    let (kept, right_count) =
      report_starts params count diag _ (diag_error-ne-nil diag _) started in
    let used = (report_missing-nil info params r.1.used r.1.diag used_length h).1 in
    (
      kept,
      (
        counted ∙ right_count,
        λ i lt. omega (arith, counts i, ap to_ℕ (used i lt), ap to_ℕ (is_used-all_unused params i)),
        named,
      ),
    )

abbrev SameCallee : Program → CallInfo → Option BuiltinSpec → Option ℕ → CallInfo × Target → Type 0
SameCallee p info b f x = (x.0.callee ≡ info.callee) × (callee_from p x.0 b f ≡ some x)

callee_from-SameCallee :
    (p : Program) (info : CallInfo) (b : Option BuiltinSpec) (f : Option ℕ) (x : CallInfo × Target)
    → callee_from p info b f ≡ some x
    → SameCallee p info b f x
callee_from-SameCallee p info (some b) f x h =
    subst (SameCallee p info (some b) f) (some_injective h) (refl, refl)
callee_from-SameCallee p info none (some i) x h =
    subst (SameCallee p info none (some i)) (some_injective h) (refl, refl)
callee_from-SameCallee p info none none x h = cc

finish_matching-keeps :
    (info : CallInfo) (target : Target) (m : Matching)
    → finish_matching info target m ≡ []
    → m.diag ≡ []
unfolding finish_matching
finish_matching-keeps info variadic m h = h
finish_matching-keeps info (fixed params) m h = report_missing-keeps info params m.used m.diag h

-- What is stored in a resolved call finds the same callee again.
resolve_callee_again :
    (p : Program) (info : CallInfo) (x : CallInfo × Target)
    → resolve_callee p info ≡ some x
    → resolve_callee p x.0 ≡ some x
unfolding resolve_callee
resolve_callee_again p info x h =
    let s = callee_from-SameCallee p info _ _ x h in
    ap (λ c. callee_from p x.0 (find_builtin c) (index_of (function_names p) c)) s.0 ∙ s.1

-- What the loop over the arguments owes to `resolve_around`.
abbrev pub LoopOk : Program → Args → (Text → Target → Matching → Args × Matching) → Type 0
LoopOk p args loop =
    (callee : Text) (target : Target) (m : Matching)
    → (loop callee target m).1.diag ≡ []
    → (m.diag ≡ [])
      × Matched target m (loop callee target m)
      × (arg_count (loop callee target m).0 ≡ arg_count args)
      × ArgsOk p (loop callee target m).0

abbrev pub ResolvedOk : Program → Diagnostics → Resolved → Type 0
ResolvedOk p diag r = r.2 ≡ [] → (diag ≡ []) × CallOk p r.0 r.1 × ArgsOk p r.1

-- With a loop that does its part, a call that resolves without a report is right.
pub resolve_around-ResolvedOk :
    (p : Program) (info : CallInfo) (args : Args) (diag : Diagnostics)
    (loop : Text → Target → Matching → Args × Matching)
    → LoopOk p args loop
    → ResolvedOk p diag (resolve_around p info args diag loop)
unfolding resolve_around
resolve_around-ResolvedOk p info args diag loop ok = go (resolve_callee p info) refl
  where
    go :
        (c : Option (CallInfo × Target))
        → resolve_callee p info ≡ c
        → ResolvedOk p diag (resolve_with info args diag loop c)
    go none e h = absurd (diag_error-ne-nil diag _ h)
    go (some (found, target)) e h =
        let m = start_matching found target (arg_count args) diag in
        let r = loop info.callee target m in
        let quiet = finish_matching-keeps found target r.1 h in
        let (_, _, counted, nested) = ok info.callee target m quiet in
        let (kept, supplied) =
          Matched-Supplies found target (arg_count args) diag r counted
            (λ q. let (a, b, _, _) = ok info.callee target m q in (a, b)) h in
        (kept, (target, resolve_callee_again p info (found, target) e, supplied), nested)
