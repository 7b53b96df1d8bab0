-- ===== src/FileSystem/FirstFit.antt =====
-- `fs_allocate` is first fit.
use back_and_forth.Prelude.{
  ℕ, zero, suc, ◌+◌, ◌-◌, ◌≤◌, ◌<◌, ◌≡◌, inl, inr, refl, sym, subst, true, false, ◌&&◌, Option,
  none, some, ltb, leb, ◌==◌, Bool-cases, arith,
}
use back_and_forth.FileSystem.Layout.{BafFsSuper, BafFsEntry}
use back_and_forth.FileSystem.Directory.{Reader}
use back_and_forth.FileSystem.Allocate.{first_overlap, allocate_from, fs_allocate}
use back_and_forth.FileSystem.FirstOverlap.{
  Readable, AllApart, InWay, Overlapped, clear, in_way, first_overlap-Overlapped,
}

-- The sectors from `s` on are in the data area, and no file but the ignored one has one of them.
pub record Fits (read : Reader) (super : BafFsSuper) (needed ignored s : ℕ) : Type 0 where
  pub lower : super.data_lba ≤ s
  pub upper : s + needed ≤ super.total_sectors
  pub free : AllApart read super ignored s needed 0 super.max_files

-- What `fs_allocate` returns: the lowest place that fits, or nothing, where none does.
pub data FirstFit (read : Reader) (super : BafFsSuper) (needed ignored : ℕ)
    : Option (Option ℕ) → Type 0 where
  found :
      (s : ℕ)
      → Fits read super needed ignored s
      → ((t : ℕ) → Fits read super needed ignored t → s ≤ t)
      → FirstFit read super needed ignored (some (some s))
  full :
      ((t : ℕ) → Fits read super needed ignored t → ⊥)
      → FirstFit read super needed ignored (some none)

module _ (read : Reader) (super : BafFsSuper) (needed ignored : ℕ) (some_needed : 0 < needed)
    (small : super.total_sectors < 4294967296)
    (readable : Readable read super 0 super.max_files) where
  -- Whatever fits at or behind `c` lies behind a file that is in the way at `c`.
  InWay-skip :
      (c t : ℕ) (e : BafFsEntry)
      → InWay read super ignored c needed 0 super.max_files e
      → Fits read super needed ignored t
      → c ≤ t
      → e.start_lba + e.sector_count ≤ t
  InWay-skip c t e w f le =
      let a = f.free.apart w.index e w.lower w.upper w.other w.stored w.file in
      let p = w.before_end in let q = w.after_start in let r = w.not_empty in omega arith

  stops :
      (n c : ℕ)
      → (ltb c super.total_sectors && leb needed (super.total_sectors - c)) ≡ false
      → allocate_from read super needed ignored (suc n) c ≡ some none
  unfolding allocate_from
  stops n c h = rw (h, allocate_from) refl

  -- What a round does with what it finds.
  next : ℕ → ℕ → Option (Option ℕ) → Option (Option ℕ)
  next n c o = elim o as (λ _. Option (Option ℕ)) [
    | none ↦ some none
    | some none ↦ some (some c)
    | some (some d) ↦ allocate_from read super needed ignored n d
  ]

  goes_on :
      (n c : ℕ)
      → (ltb c super.total_sectors && leb needed (super.total_sectors - c)) ≡ true
      → allocate_from read super needed ignored (suc n) c
        ≡ next n c (first_overlap read super needed ignored c 0 super.max_files)
  unfolding allocate_from next
  goes_on n c h = rw (h, allocate_from) refl

  round :
      (n c : ℕ) (o : Option (Option ℕ))
      → super.total_sectors - c < suc n
      → c + needed ≤ super.total_sectors
      → super.data_lba ≤ c
      → ((t : ℕ) → Fits read super needed ignored t → c ≤ t)
      → Overlapped read super ignored c needed 0 super.max_files o
      → ((d : ℕ)
          → super.total_sectors - d < n
          → super.data_lba ≤ d
          → ((t : ℕ) → Fits read super needed ignored t → d ≤ t)
          → FirstFit read super needed ignored (allocate_from read super needed ignored n d))
      → FirstFit read super needed ignored (next n c o)
  unfolding next
  round n c _ fuel room lower least (clear a) again =
      found c (record { lower = lower; upper = room; free = a }) least
  round n c _ fuel room lower least (in_way e w) again =
      let b = w.before_end in
      again (e.start_lba + e.sector_count) (omega arith) (omega arith)
        (λ t f. InWay-skip c t e w f (least t f))

  allocate_from-FirstFit :
      (n c : ℕ)
      → super.total_sectors - c < n
      → super.data_lba ≤ c
      → ((t : ℕ) → Fits read super needed ignored t → c ≤ t)
      → FirstFit read super needed ignored (allocate_from read super needed ignored n c)
  allocate_from-FirstFit zero c fuel lower least = absurd (omega arith)
  allocate_from-FirstFit (suc n) c fuel lower least =
      elim (Bool-cases (ltb c super.total_sectors && leb needed (super.total_sectors - c))) [
        | inr h ↦
            subst (FirstFit read super needed ignored) (sym (stops n c h))
              (full (λ t f. let le = least t f in let u = f.upper in ground arith))
        | inl h ↦
            let room : c + needed ≤ super.total_sectors = ground arith in
            subst (FirstFit read super needed ignored) (sym (goes_on n c h)) (
              round n c _ fuel room lower least
                (first_overlap-Overlapped read super ignored c needed (omega arith) some_needed 0
                  super.max_files readable)
                (λ d l b k. allocate_from-FirstFit n d l b k))
      ]

-- Where sectors are needed, the directory can be read, the ranges of its entries end within 32 bits,
-- and the disk has fewer than 2^32 sectors, `fs_allocate` ends: it returns the lowest place in the
-- data area that no other file overlaps, and it returns 0 only if there is none.
pub fs_allocate-FirstFit :
    (read : Reader) (super : BafFsSuper) (needed ignored : ℕ)
    → 0 < needed
    → super.total_sectors < 4294967296
    → Readable read super 0 super.max_files
    → FirstFit read super needed ignored (fs_allocate read super needed ignored)
unfolding fs_allocate
fs_allocate-FirstFit read super needed ignored some_needed small readable =
    let other : (needed == 0) ≡ false = ground arith in
    subst (FirstFit read super needed ignored) (sym (rw (other, fs_allocate) refl)) (
      allocate_from-FirstFit read super needed ignored some_needed small readable
        (suc super.total_sectors) super.data_lba (omega arith) (omega arith) (λ t f. f.lower))
