-- ===== src/FileSystem/Splice.antt =====
-- Bytes that are copied into a sector, and those beside them.
use back_and_forth.Prelude.{
  ℕ, zero, suc, ◌+◌, ◌≤◌, ◌<◌, ◌≡◌, ◌⊎◌, refl, sym, ◌∙◌, ap, List, [], ◌∷◌, arith, length,
}
use back_and_forth.FileSystem.Layout.{byte_at, bytes_at}
use back_and_forth.FileSystem.Encoding.{splice}

byte_at-front :
    (s xs : List ℕ) (j : ℕ)
    → length xs ≤ length s
    → j < length xs
    → byte_at (splice s zero xs) j ≡ byte_at xs j
unfolding splice byte_at
byte_at-front [] xs j h l = absurd (omega arith)
byte_at-front (b ∷ bs) [] j h l = absurd (omega arith)
byte_at-front (b ∷ bs) (x ∷ xs) zero h l = refl
byte_at-front (b ∷ bs) (x ∷ xs) (suc j) h l = byte_at-front bs xs j (omega arith) (omega arith)

suc_add : (k j : ℕ) → suc k + j ≡ suc (k + j)
suc_add k j = omega arith

-- Where the bytes are copied.
pub byte_at-splice :
    (s : List ℕ) (k : ℕ) (xs : List ℕ) (j : ℕ)
    → k + length xs ≤ length s
    → j < length xs
    → byte_at (splice s k xs) (k + j) ≡ byte_at xs j
unfolding splice byte_at
byte_at-splice [] k xs j h l = absurd (omega arith)
byte_at-splice (b ∷ bs) (suc k) xs j h l =
    ap (byte_at (b ∷ splice bs k xs)) (suc_add k j) ∙ byte_at-splice bs k xs j (omega arith) l
byte_at-splice (b ∷ bs) zero xs j h l =
    let front : zero + j ≡ j = omega arith in
    ap (byte_at (splice (b ∷ bs) zero xs)) front ∙ byte_at-front (b ∷ bs) xs j (omega arith) l

-- Beside them.
pub byte_at-splice_other :
    (s : List ℕ) (k : ℕ) (xs : List ℕ) (i : ℕ)
    → (i < k) ⊎ (k + length xs ≤ i)
    → byte_at (splice s k xs) i ≡ byte_at s i
unfolding splice byte_at
byte_at-splice_other [] k xs i h = refl
byte_at-splice_other (b ∷ bs) (suc k) xs zero h = refl
byte_at-splice_other (b ∷ bs) (suc k) xs (suc i) h = byte_at-splice_other bs k xs i (omega arith)
byte_at-splice_other (b ∷ bs) zero [] i h = refl
byte_at-splice_other (b ∷ bs) zero (x ∷ xs) zero h = absurd (omega arith)
byte_at-splice_other (b ∷ bs) zero (x ∷ xs) (suc i) h =
    byte_at-splice_other bs zero xs i (omega arith)

add_zero : (k : ℕ) → k + 0 ≡ k
add_zero k = omega arith

add_one : (k j : ℕ) → (k + 1) + j ≡ k + (1 + j)
add_one k j = omega arith

-- Two lists that agree from an offset on have the same bytes there.
pub bytes_at-cong :
    (s t : List ℕ) (k l n : ℕ)
    → ((j : ℕ) → j < n → byte_at s (k + j) ≡ byte_at t (l + j))
    → bytes_at s k n ≡ bytes_at t l n
unfolding bytes_at
bytes_at-cong s t k l zero h = refl
bytes_at-cong s t k l (suc n) h =
    let head : byte_at s k ≡ byte_at t l =
      sym (ap (byte_at s) (add_zero k)) ∙ h 0 (omega arith) ∙ ap (byte_at t) (add_zero l) in
    let rest : bytes_at s (k + 1) n ≡ bytes_at t (l + 1) n =
      bytes_at-cong s t (k + 1) (l + 1) n (λ j u.
        ap (byte_at s) (add_one k j)
        ∙ h (1 + j) (omega arith)
        ∙ sym (ap (byte_at t) (add_one l j))) in
    cc

-- All bytes of a list.
pub bytes_at_all : (xs : List ℕ) → bytes_at xs 0 (length xs) ≡ xs
unfolding bytes_at byte_at
bytes_at_all [] = refl
bytes_at_all (x ∷ xs) =
    let one : (j : ℕ) → 1 + j ≡ suc j = λ j. omega arith in
    let none : (j : ℕ) → 0 + j ≡ j = λ j. omega arith in
    let rest : bytes_at (x ∷ xs) 1 (length xs) ≡ bytes_at xs 0 (length xs) =
      bytes_at-cong (x ∷ xs) xs 1 0 (length xs)
        (λ j u. ap (byte_at (x ∷ xs)) (one j) ∙ sym (ap (byte_at xs) (none j))) in
    ap (λ ys. x ∷ ys) (rest ∙ bytes_at_all xs)
