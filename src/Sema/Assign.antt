-- ===== src/Sema/Assign.antt =====
-- One round of the loop over the arguments assigns a parameter that was free, or reports.
use back_and_forth.Prelude.{
  ℕ, zero, suc, ◌+◌, ◌<◌, ◌≡◌, ◌≢◌, refl, sym, ap, ◌∙◌, Bool, true, false, Option, none, some, List,
  [], ◌∷◌, ◌++◌, Text, ◌==◌, ltb, if◌then◌else◌, length, set, arith, Bool-cases, Option-cases, inl,
  inr,
}
use back_and_forth.Diagnostic.{Diagnostics}
use back_and_forth.Syntax.{CallInfo, ArgInfo}
use back_and_forth.Sema.Env.{index_of}
use back_and_forth.Sema.Matching.{
  Matching, is_used, skip_used, take_parameter, match_named, match_positional, match_fixed,
  match_variadic, report_missing, with_parameter,
}
use back_and_forth.Sema.WellResolved.{to_ℕ}

-- A report is there to stay.
pub diag_error-ne-nil {ℓ} : {A : Type ℓ} (d : List A) (x : A) → (d ++ (x ∷ [])) ≢ []
diag_error-ne-nil [] x = cc
diag_error-ne-nil (y ∷ d) x = cc

pub is_used-set :
    (us : List Bool) (i j : ℕ)
    → i < length us
    → is_used us i ≡ false
    → to_ℕ (is_used (set us i true) j) ≡ to_ℕ (i == j) + to_ℕ (is_used us j)
is_used-set [] i j h f = absurd (omega arith)
is_used-set (u ∷ us) zero zero h f = rw f
is_used-set (u ∷ us) zero (suc j) h f = ground arith
is_used-set (u ∷ us) (suc i) zero h f = ground arith
is_used-set (u ∷ us) (suc i) (suc j) h f = ground (arith, is_used-set us i j)

pub length-set {ℓ} : {A : Type ℓ} (xs : List A) (i : ℕ) (v : A) → length (set xs i v) ≡ length xs
length-set [] i v = refl
length-set (x ∷ xs) zero v = refl
length-set (x ∷ xs) (suc i) v = ap suc (length-set xs i v)

-- An argument took the parameter `i`, which was free.
pub record Takes (params : List Text) (a : ArgInfo) (m : Matching) (r : ArgInfo × Matching)
    : Type 0 where
  pub parameter : ℕ
  pub in_range : parameter < length params
  pub was_free : is_used m.used parameter ≡ false
  pub no_report : m.diag ≡ []
  pub argument_is : r.0 ≡ with_parameter a parameter
  pub used_is : r.1.used ≡ set m.used parameter true
  pub index_is : r.1.index ≡ m.index
  pub named : (n : Text) → a.name ≡ some n → index_of params n ≡ some parameter

take_parameter-Takes :
    (callee : Text) (params : List Text) (a : ArgInfo) (i : ℕ) (m : Matching)
    → ((n : Text) → a.name ≡ some n → index_of params n ≡ some i)
    → (take_parameter callee params a i m).1.diag ≡ []
    → Takes params a m (take_parameter callee params a i m)
unfolding take_parameter
take_parameter-Takes callee params a i m named h = elim (Bool-cases (ltb i (length params))) [
  | inr out ↦ absurd (diag_error-ne-nil m.diag _ (rw out at h))
  | inl inside ↦ elim (Bool-cases (is_used m.used i)) [
    | inl taken ↦ absurd (diag_error-ne-nil m.diag _ (rw (inside, taken) at h))
    | inr free ↦
        rw (inside, free)
          (record {
            parameter = i;
            in_range = ground arith;
            was_free = free;
            no_report = rw (inside, free) at h;
            argument_is = refl;
            used_is = refl;
            index_is = refl;
            named = named;
          })
  ]
]

some-injective {ℓ} : {A : Type ℓ} {x y : A} → some x ≡ some y → x ≡ y
some-injective h = cc

match_named-Takes :
    (callee : Text) (params : List Text) (a : ArgInfo) (n : Text) (m : Matching)
    → a.name ≡ some n
    → (match_named callee params a n m).1.diag ≡ []
    → Takes params a m (match_named callee params a n m)
unfolding match_named
match_named-Takes callee params a n m e h = elim (Option-cases (index_of params n)) [
  | inl missing ↦ absurd (diag_error-ne-nil m.diag _ (rw (missing, match_named) at h))
  | inr (i, found) ↦
      rw (found, match_named)
        (take_parameter-Takes callee params a i m (λ k ek. rw (some-injective (sym ek ∙ e)) found)
          (rw (found, match_named) at h))
]

match_positional-Takes :
    (callee : Text) (params : List Text) (a : ArgInfo) (m : Matching)
    → a.name ≡ none
    → (match_positional callee params a m).1.diag ≡ []
    → Takes params a m (match_positional callee params a m)
unfolding match_positional
match_positional-Takes callee params a m e h =
    let next = skip_used m.used m.next_positional in
    let m' = record m { next_positional = if ltb next (length params) then suc next else next } in
    let t = take_parameter-Takes callee params a next m' (λ k ek. cc) h in
    record {
      parameter = t.parameter;
      in_range = t.in_range;
      was_free = t.was_free;
      no_report = t.no_report;
      argument_is = t.argument_is;
      used_is = t.used_is;
      index_is = t.index_is;
      named = t.named;
    }

-- How `match_fixed` goes on at a given name.
abbrev matched_at : Text → List Text → ArgInfo → Matching → Option Text → ArgInfo × Matching
matched_at callee params a m n = elim n [
  | some k ↦ match_named callee params a k m
  | none ↦ match_positional callee params a m
]

-- An argument of a call with fixed parameters takes a free parameter, unless there is a report.
pub match_fixed-Takes :
    (callee : Text) (params : List Text) (a : ArgInfo) (m : Matching)
    → (match_fixed callee params a m).1.diag ≡ []
    → Takes params a m (match_fixed callee params a m)
unfolding match_fixed
match_fixed-Takes callee params a m h = go a.name refl h
  where
    go :
        (n : Option Text)
        → a.name ≡ n
        → (matched_at callee params a m n).1.diag ≡ []
        → Takes params a m (matched_at callee params a m n)
    go none e h = match_positional-Takes callee params a m e h
    go (some n) e h = match_named-Takes callee params a n m e h

-- A variadic argument takes its index, unless there is a report.
pub match_variadic_lem :
    (callee : Text) (a : ArgInfo) (m : Matching)
    → (match_variadic callee a m).1.diag ≡ []
    → (m.diag ≡ []) × (a.name ≡ none) × ((match_variadic callee a m).1.index ≡ m.index)
unfolding match_variadic
match_variadic_lem callee a m h = go a.name refl
  where
    go :
        (n : Option Text)
        → a.name ≡ n
        → (m.diag ≡ []) × (a.name ≡ none) × ((match_variadic callee a m).1.index ≡ m.index)
    go none e = (rw (e, match_variadic) at h, e, refl)
    go (some n) e = absurd (diag_error-ne-nil m.diag _ (rw (e, match_variadic) at h))

pub report_missing-keeps :
    (info : CallInfo) (params : List Text) (used : List Bool) (diag : Diagnostics)
    → report_missing info params used diag ≡ []
    → diag ≡ []
unfolding report_missing
report_missing-keeps info [] used diag h = h
report_missing-keeps info (n ∷ ns) [] diag h = h
report_missing-keeps info (n ∷ ns) (true ∷ us) diag h = report_missing-keeps info ns us diag h
report_missing-keeps info (n ∷ ns) (false ∷ us) diag h =
    absurd (diag_error-ne-nil diag _ (report_missing-keeps info ns us _ h))

-- The last loop reports nothing only if every parameter is used.
pub report_missing-nil :
    (info : CallInfo) (params : List Text) (used : List Bool) (diag : Diagnostics)
    → length used ≡ length params
    → report_missing info params used diag ≡ []
    → (diag ≡ []) × ((i : ℕ) → i < length params → is_used used i ≡ true)
unfolding report_missing
report_missing-nil info [] [] diag e h = (h, λ i lt. absurd (omega arith))
report_missing-nil info [] (u ∷ us) diag e h = absurd (omega arith)
report_missing-nil info (n ∷ ns) [] diag e h = absurd (omega arith)
report_missing-nil info (n ∷ ns) (true ∷ us) diag e h =
    let (d, used) = report_missing-nil info ns us diag (omega arith) h in
    (d, elim [ zero ↦ λ lt. refl | suc i ↦ λ lt. used i (omega arith) ])
report_missing-nil info (n ∷ ns) (false ∷ us) diag e h =
    absurd (diag_error-ne-nil diag _ (report_missing-nil info ns us _ (omega arith) h).0)
