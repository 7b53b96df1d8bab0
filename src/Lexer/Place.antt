-- ===== src/Lexer/Place.antt =====
-- The position of the lexer is that of the text which it has read.
use mathlib.Core.List.{append_cancel_right}
use back_and_forth.Prelude.{
  ℕ, suc, ◌+◌, ◌≡◌, refl, sym, ap, ◌∙◌, [], ◌∷◌, ◌++◌, append_assoc, Text, ◌==◌, if◌then◌else◌,
  Bool-cases, inl, inr, arith, append-nil,
}
use back_and_forth.Token.{Position}
use back_and_forth.Lexer.Chars.{advance}
use back_and_forth.Lexer.Trace.{Reads, stop, next}
use back_and_forth.Lexer.Rules.{newlines, column_from, place}

newlines-snoc :
    (w : Text) (c : ℕ)
    → newlines (w ++ (c ∷ [])) ≡ (if c == b'\n' then suc (newlines w) else newlines w)
unfolding newlines
newlines-snoc [] c = refl
newlines-snoc (x ∷ w) c =
    let rest = newlines-snoc w c in
    elim (Bool-cases (x == b'\n')) [
      | inl e ↦ elim (Bool-cases (c == b'\n')) [
        | inl f ↦ rw (e, rest, f) refl
        | inr f ↦ rw (e, rest, f) refl
      ]
      | inr e ↦ rw (e, rest) refl
    ]

column_from-snoc :
    (k : ℕ) (w : Text) (c : ℕ)
    → column_from k (w ++ (c ∷ [])) ≡ (if c == b'\n' then 1 else column_from k w + 1)
unfolding column_from
column_from-snoc k [] c = refl
column_from-snoc k (x ∷ w) c = elim (Bool-cases (x == b'\n')) [
  | inl e ↦ rw e (column_from-snoc 1 w c)
  | inr e ↦ rw e (column_from-snoc (k + 1) w c)
]

abbrev first_of : ℕ → Position
first_of n = record { line = n; column = 1 }

pub place-snoc : (w : Text) (c : ℕ) → place (w ++ (c ∷ [])) ≡ advance c (place w)
unfolding place advance
place-snoc w c =
    let lines = newlines-snoc w c in
    let columns = column_from-snoc 1 w c in
    let one_more : 1 + suc (newlines w) ≡ 1 + newlines w + 1 = omega arith in
    elim (Bool-cases (c == b'\n')) [
      | inl e ↦ rw (lines, columns, e) (ap first_of one_more)
      | inr e ↦ rw (lines, columns, e) refl
    ]

pub Reads-place :
    {s : Text} {at : Position} (s' : Text) (at' : Position) (w : Text)
    → Reads s at s' at'
    → at' ≡ place w
    → (p : Text) × (s' ≡ p ++ s) × (at ≡ place (w ++ p))
Reads-place _ at' w stop e = ([], refl, e ∙ ap place (sym (append-nil w)))
Reads-place _ at' w (next {c} {cs} r) e =
    let here : advance c at' ≡ place (w ++ (c ∷ [])) = ap (advance c) e ∙ sym (place-snoc w c) in
    let (p, split, at) = Reads-place cs (advance c at') (w ++ (c ∷ [])) r here in
    (c ∷ p, ap (λ x. c ∷ x) split, at ∙ ap place (append_assoc w (c ∷ []) p))

-- Reading the bytes `p` from behind `w` leads behind both.
pub Reads-place_split :
    {s : Text} {at : Position} (at' : Position) (w p : Text)
    → Reads s at (p ++ s) at'
    → at' ≡ place w
    → at ≡ place (w ++ p)
Reads-place_split {s} {at} at' w p r e =
    let (q, split, here) = Reads-place (p ++ s) at' w r e in
    here ∙ ap (λ x. place (w ++ x)) (sym (append_cancel_right p q s split))
