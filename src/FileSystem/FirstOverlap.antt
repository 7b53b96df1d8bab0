-- ===== src/FileSystem/FirstOverlap.antt =====
-- What the inner loop of `fs_allocate` finds, where the directory can be read and its ranges end
-- within 32 bits.
use back_and_forth.Prelude.{
  ℕ, zero, suc, ◌+◌, ◌≤◌, ◌<◌, ◌≡◌, ◌≢◌, ◌⊎◌, inl, inr, refl, sym, ◌∙◌, ap, subst, Bool, true,
  false, ◌&&◌, Option, none, some, ◌==◌, if◌then◌else◌, Bool-cases, arith,
}
use back_and_forth.FileSystem.Layout.{u32, BafFsSuper, BafFsEntry}
use back_and_forth.FileSystem.Directory.{Reader, fs_read_entry, is_file}
use back_and_forth.FileSystem.Allocate.{fs_ranges_overlap, first_overlap}

-- The sectors `s`, …, `s + n - 1` are none of the entry's.
abbrev pub Apart : ℕ → ℕ → BafFsEntry → Type 0
Apart s n e = (e.sector_count ≡ 0) ⊎ (s + n ≤ e.start_lba) ⊎ (e.start_lba + e.sector_count ≤ s)

-- The entries from `i` on, `n` of them, can be read, and end within 32 bits.
pub record Readable (read : Reader) (super : BafFsSuper) (i n : ℕ) : Type 0 where
  pub entry :
      (k : ℕ)
      → i ≤ k
      → k < i + n
      → (e : BafFsEntry) × (fs_read_entry read super k ≡ some e)
        × (e.start_lba + e.sector_count < 4294967296)

-- No file among them, but for the ignored entry, has one of the sectors.
pub record AllApart (read : Reader) (super : BafFsSuper) (ignored s needed i n : ℕ) : Type 0 where
  pub apart :
      (k : ℕ)
      → (e : BafFsEntry) → i ≤ k
      → k < i + n
      → k ≢ ignored
      → fs_read_entry read super k ≡ some e
      → is_file e ≡ true
      → Apart s needed e

-- A file that has one of the sectors.
pub record InWay (read : Reader) (super : BafFsSuper) (ignored s needed i n : ℕ) (e : BafFsEntry)
    : Type 0 where
  pub index : ℕ
  pub lower : i ≤ index
  pub upper : index < i + n
  pub other : index ≢ ignored
  pub stored : fs_read_entry read super index ≡ some e
  pub file : is_file e ≡ true
  pub before_end : s < e.start_lba + e.sector_count
  pub after_start : e.start_lba < s + needed
  pub not_empty : 0 < e.sector_count

u32-below : (n : ℕ) → n < 4294967296 → u32 n ≡ n
u32-below n h = omega arith

module _ (s needed start count : ℕ) (small : s + needed < 4294967296)
    (fits : start + count < 4294967296) (some_needed : 0 < needed) where
  ranges_apart :
      fs_ranges_overlap s needed start count ≡ false
      → (count ≡ 0) ⊎ (s + needed ≤ start) ⊎ (start + count ≤ s)
  unfolding fs_ranges_overlap
  ranges_apart h = ground (arith, u32-below (start + count) fits, u32-below (s + needed) small)

  ranges_overlap :
      fs_ranges_overlap s needed start count ≡ true
      → (s < start + count) × (start < s + needed) × (0 < count)
  unfolding fs_ranges_overlap
  ranges_overlap h = ground (arith, u32-below (start + count) fits, u32-below (s + needed) small)

pub data Overlapped (read : Reader) (super : BafFsSuper) (ignored s needed i n : ℕ)
    : Option (Option ℕ) → Type 0 where
  clear :
      AllApart read super ignored s needed i n
      → Overlapped read super ignored s needed i n (some none)
  in_way :
      (e : BafFsEntry)
      → InWay read super ignored s needed i n e
      → Overlapped read super ignored s needed i n (some (some (e.start_lba + e.sector_count)))

some_injective : {A : Type 0} {a b : A} → some a ≡ some b → a ≡ b
some_injective {A} {a} {b} h = ap (λ o. elim o as (λ _. A) [ none ↦ a | some x ↦ x ]) h

not_both : (a b : Bool) → a ≡ true → (a && b) ≡ false → b ≡ false
not_both a b h k = ground arith

module _ (read : Reader) (super : BafFsSuper) (ignored s needed : ℕ) where
  -- The first entry is not in the way.
  Overlapped-suc :
      (i n : ℕ) (o : Option (Option ℕ))
      → ((e : BafFsEntry)
          → i ≢ ignored
          → fs_read_entry read super i ≡ some e
          → is_file e ≡ true
          → Apart s needed e)
      → Overlapped read super ignored s needed (i + 1) n o
      → Overlapped read super ignored s needed i (suc n) o
  Overlapped-suc i n _ first (clear a) = clear (record {
    apart = λ k e l u other stored file. elim (Bool-cases (k == i)) [
      | inl same ↦
          let k_i : k ≡ i = ground arith in
          first e (λ z. other (k_i ∙ z)) (ap (fs_read_entry read super) (sym k_i) ∙ stored) file
      | inr h ↦
          let k_i : k ≢ i = λ z. ground arith in
          a.apart k e (omega arith) (omega arith) other stored file
    ];
  })
  Overlapped-suc i n _ first (in_way e w) = in_way e (record {
    index = w.index;
    lower = let l = w.lower in omega arith;
    upper = let u = w.upper in omega arith;
    other = w.other;
    stored = w.stored;
    file = w.file;
    before_end = w.before_end;
    after_start = w.after_start;
    not_empty = w.not_empty;
  })

  Readable-suc : (i n : ℕ) → Readable read super i (suc n) → Readable read super (i + 1) n
  Readable-suc i n r = record { entry = λ k l u. r.entry k (omega arith) (omega arith) }

  -- The loop, where the first entry is read.
  passes_ignored :
      (i n : ℕ)
      → (i == ignored) ≡ true
      → first_overlap read super needed ignored s i (suc n)
        ≡ first_overlap read super needed ignored s (i + 1) n
  unfolding first_overlap
  passes_ignored i n h = rw (h, first_overlap) refl

  passes_entry :
      (i n : ℕ) (e : BafFsEntry) (b : Bool)
      → (i == ignored) ≡ false
      → fs_read_entry read super i ≡ some e
      → (is_file e && fs_ranges_overlap s needed e.start_lba e.sector_count) ≡ b
      → first_overlap read super needed ignored s i (suc n) ≡ (
          if b
          then some (some (u32 (e.start_lba + e.sector_count)))
          else first_overlap read super needed ignored s (i + 1) n)
  unfolding first_overlap
  passes_entry i n e b h stored test = rw (h, stored, test, first_overlap) refl

  module _ (small : s + needed < 4294967296) (some_needed : 0 < needed) where
    -- The file at `i` is tested, and the rest is looked at if it is not in the way.
    tested-Overlapped :
        (i n : ℕ) (e : BafFsEntry) (b : Bool) (o : Option (Option ℕ))
        → i ≢ ignored
        → fs_read_entry read super i ≡ some e
        → e.start_lba + e.sector_count < 4294967296
        → (is_file e && fs_ranges_overlap s needed e.start_lba e.sector_count) ≡ b
        → Overlapped read super ignored s needed (i + 1) n o
        → Overlapped read super ignored s needed i
            (suc n)
            (if b then some (some (u32 (e.start_lba + e.sector_count))) else o)
    tested-Overlapped i n e true o other stored fits test rest =
        let both : (is_file e ≡ true)
            × (fs_ranges_overlap s needed e.start_lba e.sector_count ≡ true) =
          ground arith in
        let (before_end, after_start, not_empty) =
          ranges_overlap s needed e.start_lba e.sector_count small fits some_needed both.1 in
        subst (λ x. Overlapped read super ignored s needed i (suc n) (some (some x)))
          (sym (u32-below (e.start_lba + e.sector_count) fits))
          (in_way e (record {
            index = i;
            lower = omega arith;
            upper = omega arith;
            other = other;
            stored = stored;
            file = both.0;
            before_end = before_end;
            after_start = after_start;
            not_empty = not_empty;
          }))
    tested-Overlapped i n e false o other stored fits test rest =
        Overlapped-suc i n o
          (λ x h stored' file.
            let same : e ≡ x = some_injective (sym stored ∙ stored') in
            subst (λ y. Apart s needed y) same
              (ranges_apart s needed e.start_lba e.sector_count small fits some_needed
                (not_both (is_file e) _ (ap is_file same ∙ file) test)))
          rest

    pub first_overlap-Overlapped :
        (i n : ℕ)
        → Readable read super i n
        → Overlapped read super ignored s needed i n (first_overlap read super needed ignored s i n)
    unfolding first_overlap
    first_overlap-Overlapped i zero r =
        clear (record { apart = λ k e l u other stored file. absurd (omega arith) })
    first_overlap-Overlapped i (suc n) r =
        let rest = first_overlap-Overlapped (i + 1) n (Readable-suc i n r) in
        let (e, stored, fits) = r.entry i (omega arith) (omega arith) in
        elim (Bool-cases (i == ignored)) [
          | inl h ↦
              subst (Overlapped read super ignored s needed i (suc n)) (sym (passes_ignored i n h))
                (Overlapped-suc i n _ (λ x other stored' file. absurd (other (ground arith))) rest)
          | inr h ↦
              subst (Overlapped read super ignored s needed i (suc n))
                (sym (passes_entry i n e _ h stored refl))
                (tested-Overlapped i n e _ _ (λ z. ground arith) stored fits refl rest)
        ]
