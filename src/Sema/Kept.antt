-- ===== src/Sema/Kept.antt =====
-- What inference leaves alone: every type that was known or written stays.
use back_and_forth.Prelude.{
  ℕ, zero, suc, Bool, true, false, not, ◌&&◌, List, [], ◌∷◌, ◌≡◌, ◌≢◌, refl, sym, ap, ◌∙◌, none,
  some, arith, get_elem?,
}
use back_and_forth.Syntax.{BafType, unknown, void, Parameter, Function}
use back_and_forth.Sema.Types.{type_eq, is_unknown, parameter_type}
use back_and_forth.Sema.Infer.{set_type, set_parameter_type}
use back_and_forth.Sema.InferBlock.{set_return_type, takes_type}

-- The name, and the type if it is known.
abbrev pub KeptParameter : Parameter → Parameter → Type 0
KeptParameter q r = (r.name ≡ q.name) × (q.type ≢ unknown → r.type ≡ q.type)

abbrev pub KeptParameters : List Parameter → List Parameter → Type 0
KeptParameters [] [] = Unit
KeptParameters (q ∷ qs) (r ∷ rs) = KeptParameter q r × KeptParameters qs rs
KeptParameters _ _ = ⊥

-- The name, the body, a return type that is written or not void, and the parameters.
pub record KeptFunction (f g : Function) : Type 0 where
  pub name : g.name ≡ f.name
  pub body : g.body ≡ f.body
  pub explicit : g.explicit_return_type ≡ f.explicit_return_type
  pub written : f.explicit_return_type ≡ true → g.return_type ≡ f.return_type
  pub not_void : f.return_type ≢ void → g.return_type ≡ f.return_type
  pub parameters : KeptParameters f.params g.params

abbrev pub Kept : List Function → List Function → Type 0
Kept [] [] = Unit
Kept (f ∷ fs) (g ∷ gs) = KeptFunction f g × Kept fs gs
Kept _ _ = ⊥

KeptParameters-refl : (qs : List Parameter) → KeptParameters qs qs
KeptParameters-refl [] = tt
KeptParameters-refl (q ∷ qs) = ((refl, λ h. refl), KeptParameters-refl qs)

pub Kept-refl : (fs : List Function) → Kept fs fs
Kept-refl [] = tt
Kept-refl (f ∷ fs) = (
  record {
    name = refl;
    body = refl;
    explicit = refl;
    written = λ h. refl;
    not_void = λ h. refl;
    parameters = KeptParameters-refl f.params;
  },
  Kept-refl fs,
)

is_unknown-eq : (t : BafType) → is_unknown t ≡ true → t ≡ unknown
is_unknown-eq t h = ground arith

type_eq-void : (t : BafType) → type_eq t void ≡ true → t ≡ void
type_eq-void t h = ground arith

set_type-Kept :
    (qs rs : List Parameter) (i : ℕ) (t : BafType)
    → is_unknown (elim (get_elem? rs i) as (λ _. BafType) [ none ↦ unknown | some q ↦ q.type ])
      ≡ true
    → KeptParameters qs rs
    → KeptParameters qs (set_type rs i t)
unfolding set_type
set_type-Kept [] [] i t u k = tt
set_type-Kept [] (r ∷ rs) i t u k = absurd k
set_type-Kept (q ∷ qs) [] i t u k = absurd k
set_type-Kept (q ∷ qs) (r ∷ rs) zero t u k =
    ((k.0.0, λ h. absurd (h (sym (k.0.1 h) ∙ is_unknown-eq r.type u))), k.1)
set_type-Kept (q ∷ qs) (r ∷ rs) (suc i) t u k = (k.0, set_type-Kept qs rs i t u k.1)

set_type-KeptFunction :
    (f g : Function) (i : ℕ) (t : BafType)
    → is_unknown
        (elim (get_elem? g.params i) as (λ _. BafType) [ none ↦ unknown | some q ↦ q.type ])
      ≡ true
    → KeptFunction f g
    → KeptFunction f (record g { params = set_type g.params i t })
set_type-KeptFunction f g i t u k = record {
  name = k.name;
  body = k.body;
  explicit = k.explicit;
  written = k.written;
  not_void = k.not_void;
  parameters = set_type-Kept f.params g.params i t u k.parameters;
}

pub set_parameter_type-Kept :
    (fs gs : List Function) (f i : ℕ) (t : BafType)
    → is_unknown (parameter_type gs f i) ≡ true
    → Kept fs gs
    → Kept fs (set_parameter_type gs f i t)
unfolding set_parameter_type
set_parameter_type-Kept [] [] f i t u k = tt
set_parameter_type-Kept [] (g ∷ gs) f i t u k = absurd k
set_parameter_type-Kept (f₀ ∷ fs) [] f i t u k = absurd k
set_parameter_type-Kept (f₀ ∷ fs) (g ∷ gs) zero i t u k =
    (set_type-KeptFunction f₀ g i t u k.0, k.1)
set_parameter_type-Kept (f₀ ∷ fs) (g ∷ gs) (suc f) i t u k =
    (k.0, set_parameter_type-Kept fs gs f i t u k.1)

split-takes : (a b c d : Bool) → (not a && b && c && d) ≡ true → (a ≡ false) × (b ≡ true)
split-takes a b c d h = ground arith

takes_type-facts :
    (g : Function) (t : BafType)
    → takes_type g t ≡ true
    → (g.explicit_return_type ≡ false) × (g.return_type ≡ void)
takes_type-facts g t h =
    let (e, v) = split-takes g.explicit_return_type (type_eq g.return_type void) _ _ h in
    (e, type_eq-void g.return_type v)

set_return-KeptFunction :
    (f g : Function) (t : BafType)
    → takes_type g t ≡ true
    → KeptFunction f g
    → KeptFunction f (record g { return_type = t })
set_return-KeptFunction f g t h k =
    let (unwritten, is_void) = takes_type-facts g t h in
    let same = k.explicit in
    record {
      name = k.name;
      body = k.body;
      explicit = k.explicit;
      written = λ w. absurd (cc (w, same, unwritten));
      not_void = λ n. absurd (n (sym (k.not_void n) ∙ is_void));
      parameters = k.parameters;
    }

pub set_return_type-Kept :
    (fs gs : List Function) (i : ℕ) (g : Function) (t : BafType)
    → get_elem? gs i ≡ some g
    → takes_type g t ≡ true
    → Kept fs gs
    → Kept fs (set_return_type gs i t)
unfolding set_return_type
set_return_type-Kept [] [] i g t at h k = tt
set_return_type-Kept [] (g₀ ∷ gs) i g t at h k = absurd k
set_return_type-Kept (f ∷ fs) [] i g t at h k = absurd k
set_return_type-Kept (f ∷ fs) (g₀ ∷ gs) zero g t at h k =
    let same : g₀ ≡ g = cc at in
    (set_return-KeptFunction f g₀ t (ap (λ x. takes_type x t) same ∙ h) k.0, k.1)
set_return_type-Kept (f ∷ fs) (g₀ ∷ gs) (suc i) g t at h k =
    (k.0, set_return_type-Kept fs gs i g t at h k.1)
