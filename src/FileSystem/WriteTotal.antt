-- ===== src/FileSystem/WriteTotal.antt =====
-- `fs_allocate` and `baf_core_fs_write` end on every disk, whatever its directory holds.
use back_and_forth.Prelude.{
  ℕ, zero, suc, ◌+◌, ◌-◌, ◌<◌, ◌≡◌, refl, ◌∙◌, ap, Bool, true, false, ◌&&◌, not, List, Option, none,
  some, arith, length, ltb, leb, ◌==◌, if◌then◌else◌, Bool-cases, inl, inr, Text,
}
use back_and_forth.FileSystem.Layout.{u32, BafFsSuper, BafFsEntry}
use back_and_forth.FileSystem.Directory.{Reader, fs_read_entry, is_file, fs_component_valid}
use back_and_forth.FileSystem.Allocate.{
  fs_ranges_overlap, first_overlap, allocate_from, fs_allocate,
}
use back_and_forth.FileSystem.Operations.{Drive, FileStore, load}
use back_and_forth.FileSystem.Files.{sectors_for, entry_for, store_at, store, fs_write}

-- The end that a file in the way has lies behind the candidate.
abbrev Later : ℕ → Option (Option ℕ) → Type 0
Later c none = Unit {0}
Later c (some none) = Unit {0}
Later c (some (some d)) = c < d

overlap_before :
    (c needed start count : ℕ)
    → fs_ranges_overlap c needed start count ≡ true
    → c < u32 (start + count)
unfolding fs_ranges_overlap
overlap_before c needed start count h = ground arith

module _ (read : Reader) (super : BafFsSuper) (needed ignored : ℕ) where
  entry-Later :
      (c : ℕ) (e : BafFsEntry) (b : Bool) (rest : Option (Option ℕ))
      → (is_file e && fs_ranges_overlap c needed e.start_lba e.sector_count) ≡ b
      → Later c rest
      → Later c (if b then some (some (u32 (e.start_lba + e.sector_count))) else rest)
  entry-Later c e true rest h l =
      let overlaps : fs_ranges_overlap c needed e.start_lba e.sector_count ≡ true = ground arith in
      overlap_before c needed e.start_lba e.sector_count overlaps
  entry-Later c e false rest h l = l

  round-Later :
      (c : ℕ) (b : Bool) (o : Option BafFsEntry) (rest : Option (Option ℕ))
      → Later c rest
      → Later c (
          if b then rest else elim o as (λ _. Option (Option ℕ)) [
            | none ↦ none
            | some e ↦
                if is_file e && fs_ranges_overlap c needed e.start_lba e.sector_count
                then some (some (u32 (e.start_lba + e.sector_count)))
                else rest
          ])
  round-Later c true o rest l = l
  round-Later c false none rest l = tt
  round-Later c false (some e) rest l = entry-Later c e _ rest refl l

  first_overlap-Later : (c i n : ℕ) → Later c (first_overlap read super needed ignored c i n)
  unfolding first_overlap
  first_overlap-Later c i zero = tt
  first_overlap-Later c i (suc n) =
      round-Later c (i == ignored) (fs_read_entry read super i) _ (first_overlap-Later c (i + 1) n)

  allocated :
      (c : ℕ) (b : Bool) (o : Option (Option ℕ)) (again : ℕ → Option (Option ℕ))
      → Later c o
      → (b ≡ true → (d : ℕ) → c < d → (r : Option ℕ) × (again d ≡ some r))
      → (r : Option ℕ) × ((if b
            then elim o as (λ _. Option (Option ℕ)) [
              | none ↦ some none
              | some none ↦ some (some c)
              | some (some d) ↦ again d
            ]
            else some none)
          ≡ some r)
  allocated c false o again l h = (none, refl)
  allocated c true none again l h = (none, refl)
  allocated c true (some none) again l h = (some c, refl)
  allocated c true (some (some d)) again l h = h refl d l

  allocate_from-total :
      (n c : ℕ)
      → super.total_sectors - c < n
      → (r : Option ℕ) × (allocate_from read super needed ignored n c ≡ some r)
  unfolding allocate_from
  allocate_from-total zero c h = absurd (omega arith)
  allocate_from-total (suc n) c h =
      allocated c (ltb c super.total_sectors && leb needed (super.total_sectors - c))
        (first_overlap read super needed ignored c 0 super.max_files)
        (allocate_from read super needed ignored n) (first_overlap-Later c 0 super.max_files)
        (λ inside d later.
          let before : c < super.total_sectors = ground arith in
          allocate_from-total n d (omega arith))

  fs_allocate-total : (r : Option ℕ) × (fs_allocate read super needed ignored ≡ some r)
  unfolding fs_allocate
  fs_allocate-total = elim (Bool-cases (needed == 0)) [
    | inl h ↦ (some super.data_lba, rw (h, fs_allocate) refl)
    | inr h ↦
        let (r, e) = allocate_from-total (suc super.total_sectors) super.data_lba (omega arith) in
        (r, rw (h, fs_allocate) e)
  ]

module _ {D : Type 0} (drive : Drive D) (fs : FileStore D) (name : Text) (content : List ℕ) where
  place_or_none : BafFsSuper → ℕ → ℕ → Option ℕ → Option (FileStore D × Bool)
  place_or_none super index generation x = elim x as (λ _. Option (FileStore D × Bool)) [
    | none ↦ some (fs, false)
    | some start ↦ some (store_at drive fs super name content index generation start)
  ]

  placed :
      (super : BafFsSuper) (index generation : ℕ) (x : Option ℕ)
      → (r : FileStore D × Bool) × (place_or_none super index generation x ≡ some r)
  unfolding place_or_none
  placed super index generation none = ((fs, false), refl)
  placed super index generation (some start) =
      (store_at drive fs super name content index generation start, refl)

  store-total :
      (super : BafFsSuper) (place : ℕ × ℕ × ℕ)
      → (r : FileStore D × Bool) × (store drive fs super name content place ≡ some r)
  unfolding place_or_none
  store-total super (index, old_index, generation) =
      let (x, e) =
        fs_allocate-total (drive.read fs.disk) super (sectors_for (u32 (length content)))
          old_index in
      let (r, h) = placed super index generation x in
      (
        r,
        ap
              (λ o. elim o as (λ _. Option (FileStore D × Bool)) [
                | none ↦ none
                | some y ↦ place_or_none super index generation y
              ])
              e
            ∙ h,
      )

  write_place :
      (super : BafFsSuper) (invalid : Bool) (o : Option (ℕ × ℕ × ℕ))
      → (r : FileStore D × Bool) × ((if invalid
            then some (fs, false)
            else elim o as (λ _. Option (FileStore D × Bool)) [
              | none ↦ some (fs, false)
              | some place ↦ store drive fs super name content place
            ])
          ≡ some r)
  write_place super true o = ((fs, false), refl)
  write_place super false none = ((fs, false), refl)
  write_place super false (some place) = store-total super place

  write_loaded :
      (o : Option BafFsSuper)
      → (r : FileStore D × Bool) × (elim o as (λ _. Option (FileStore D × Bool)) [
        | none ↦ some (fs, false)
        | some super ↦
            if not (fs_component_valid name)
            then some (fs, false)
            else elim (entry_for drive fs super name) as (λ _. Option (FileStore D × Bool)) [
              | none ↦ some (fs, false)
              | some place ↦ store drive fs super name content place
            ]
      ]
          ≡ some r)
  write_loaded none = ((fs, false), refl)
  write_loaded (some super) =
      write_place super (not (fs_component_valid name)) (entry_for drive fs super name)

-- `baf_core_fs_write` ends on every disk and every content, whatever the directory holds: the fuel of
-- `fs_allocate` never runs out.
pub fs_write-total :
    {D : Type 0} (drive : Drive D) (fs : FileStore D) (name : Text) (content : List ℕ)
    → (r : FileStore D × Bool) × (fs_write drive fs name content ≡ some r)
unfolding fs_write
fs_write-total drive fs name content = write_loaded drive fs name content (load drive fs)
