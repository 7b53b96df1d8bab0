-- ===== src/FileSystem/Commit.antt =====
-- `fs_write_entry`: the directory is an array of entries.
use back_and_forth.Prelude.{
  ℕ, ◌+◌, ◌*◌, ◌/◌, ◌%◌, ◌≤◌, ◌≡◌, ◌≢◌, ◌⊎◌, inl, inr, refl, sym, ◌∙◌, ap, Bool, true, false,
  Option, none, some, arith, length, ltb, ◌==◌, if◌then◌else◌, Bool-cases,
}
use back_and_forth.FileSystem.Layout.{Sector, BafFsSuper, BafFsEntry, read_entry}
use back_and_forth.FileSystem.Encoding.{entry_bytes, splice}
use back_and_forth.FileSystem.Directory.{Reader, entries_per_sector, fs_read_entry}
use back_and_forth.FileSystem.Operations.{Drive, fs_write_entry}
use back_and_forth.FileSystem.Splice.{byte_at-splice, byte_at-splice_other}
use back_and_forth.FileSystem.EntryBytes.{IsEntry, read_entry-Holds, read_entry-cong}

-- What a drive that works promises: sectors of 512 bytes, a write that went well is read back, and
-- it leaves the other sectors.
pub record IsDrive {D : Type 0} (drive : Drive D) : Type 0 where
  pub read_length : (d : D) → (lba : ℕ) → (s : Sector) → drive.read d lba ≡ some s → length s ≡ 512
  pub read_written :
      (d e : D)
      → (lba : ℕ) → (s : Sector) → drive.write d lba s ≡ (e, true)
      → drive.read e lba ≡ some s
  pub read_other :
      (d e : D)
      → (lba other : ℕ) → (s : Sector) → drive.write d lba s ≡ (e, true)
      → other ≢ lba
      → drive.read e other ≡ drive.read d other

abbrev offset : ℕ → ℕ
offset index = (index % entries_per_sector) * 64

length-entry_bytes : (e : BafFsEntry) → IsEntry e → length (entry_bytes e) ≡ 64
unfolding entry_bytes
length-entry_bytes e w = let n = w.name in omega arith

-- Where the sector is read, the entry is the one at its offset.
pub fs_read_entry-eq :
    (read : Reader) (super : BafFsSuper) (index : ℕ) (s : Sector)
    → ltb index super.max_files ≡ true
    → read (super.directory_lba + index / entries_per_sector) ≡ some s
    → fs_read_entry read super index ≡ some (read_entry s (offset index))
unfolding fs_read_entry
fs_read_entry-eq read super index s h k = rw (h, k, fs_read_entry) refl

-- It depends on its sector only.
fs_read_entry-cong :
    (read read' : Reader) (super : BafFsSuper) (index : ℕ)
    → read (super.directory_lba + index / entries_per_sector)
      ≡ read' (super.directory_lba + index / entries_per_sector)
    → fs_read_entry read super index ≡ fs_read_entry read' super index
unfolding fs_read_entry
fs_read_entry-cong read read' super index h = rw (h, fs_read_entry) refl

fs_read_entry-outside :
    (read : Reader) (super : BafFsSuper) (index : ℕ)
    → ltb index super.max_files ≡ false
    → fs_read_entry read super index ≡ none
unfolding fs_read_entry
fs_read_entry-outside read super index h = rw (h, fs_read_entry) refl

module _ {D : Type 0} (drive : Drive D) (good : IsDrive drive) (super : BafFsSuper) (index : ℕ)
    (x : BafFsEntry) (w : IsEntry x) where
  module _ (d e : D) (s : Sector)
      (stored : drive.read d (super.directory_lba + index / entries_per_sector) ≡ some s)
      (inside : ltb index super.max_files ≡ true)
      (written : drive.write d
          (super.directory_lba + index / entries_per_sector)
          (splice s (offset index) (entry_bytes x))
        ≡ (e, true)) where
    room : offset index + length (entry_bytes x) ≤ length s
    room =
        let l = length-entry_bytes x w in
        let m = good.read_length d (super.directory_lba + index / entries_per_sector) s stored in
        omega arith

    same-entry : fs_read_entry (drive.read e) super index ≡ some x
    same-entry =
        fs_read_entry-eq (drive.read e) super index _ inside (good.read_written d e _ _ written)
        ∙ ap some (
            read_entry-Holds (splice s (offset index) (entry_bytes x)) (offset index) x w (λ j l.
              byte_at-splice s (offset index) (entry_bytes x) j room
                (let n = length-entry_bytes x w in omega arith)))

    -- Another entry of the same sector.
    beside-entry :
        (k : ℕ)
        → k ≢ index
        → k / entries_per_sector ≡ index / entries_per_sector
        → ltb k super.max_files ≡ true
        → fs_read_entry (drive.read e) super k ≡ fs_read_entry (drive.read d) super k
    beside-entry k h q l =
        let same = ap (λ y. super.directory_lba + y) q in
        let n = length-entry_bytes x w in
        let apart : (offset k + 64 ≤ offset index) ⊎ (offset index + 64 ≤ offset k) =
          omega (arith, h) in
        fs_read_entry-eq (drive.read e) super k _ l
          (ap (drive.read e) same ∙ good.read_written d e _ _ written)
        ∙ ap some (
            read_entry-cong (splice s (offset index) (entry_bytes x)) s (offset k) (λ j u.
              byte_at-splice_other s (offset index) (entry_bytes x) (offset k + j) (omega arith)))
        ∙ sym (fs_read_entry-eq (drive.read d) super k s l (ap (drive.read d) same ∙ stored))

    other-entry :
        (k : ℕ)
        → k ≢ index
        → fs_read_entry (drive.read e) super k ≡ fs_read_entry (drive.read d) super k
    other-entry k h = elim (Bool-cases (k / entries_per_sector == index / entries_per_sector)) [
      | inr q ↦
          let differ : super.directory_lba + k / entries_per_sector
              ≢ super.directory_lba + index / entries_per_sector =
            λ z. ground arith in
          fs_read_entry-cong (drive.read e) (drive.read d) super k
            (good.read_other d e _ _ _ written differ)
      | inl q ↦ elim (Bool-cases (ltb k super.max_files)) [
        | inl l ↦ beside-entry k h (ground arith) l
        | inr l ↦
            fs_read_entry-outside (drive.read e) super k l
            ∙ sym (fs_read_entry-outside (drive.read d) super k l)
      ]
    ]

  -- Where the entry stands, and what is written.
  record Written (d e : D) : Type 0 where
    pub sector : Sector
    pub stored : drive.read d (super.directory_lba + index / entries_per_sector) ≡ some sector
    pub inside : ltb index super.max_files ≡ true
    pub written :
        drive.write d
          (super.directory_lba + index / entries_per_sector)
          (splice sector (offset index) (entry_bytes x))
        ≡ (e, true)

  Written-of :
      (d e : D) (b : Bool) (o : Option Sector)
      → ltb index super.max_files ≡ b
      → drive.read d (super.directory_lba + index / entries_per_sector) ≡ o
      → (if b
          then elim o as (λ _. D × Bool) [
            | none ↦ (d, false)
            | some s ↦
                drive.write d
                  (super.directory_lba + index / entries_per_sector)
                  (splice s (offset index) (entry_bytes x))
          ]
          else (d, false))
        ≡ (e, true)
      → Written d e
  Written-of d e false o i r h = absurd (cc (ap (λ y. y.1) h))
  Written-of d e true none i r h = absurd (cc (ap (λ y. y.1) h))
  Written-of d e true (some s) i r h = record { sector = s; stored = r; inside = i; written = h }

  fs_write_entry-Written :
      (d e : D) → fs_write_entry drive d super index x ≡ (e, true) → Written d e
  unfolding fs_write_entry
  fs_write_entry-Written d e h = Written-of d e _ _ refl refl h

-- Where the drive works and the fields of the entry are within their widths: if `fs_write_entry`
-- succeeds, `fs_read_entry` gives this entry at its index from then on, and at every other index what
-- it gave before.
pub fs_write_entry-read :
    {D : Type 0} (drive : Drive D) (super : BafFsSuper) (index : ℕ) (x : BafFsEntry) (d e : D)
    → IsDrive drive
    → IsEntry x
    → fs_write_entry drive d super index x ≡ (e, true)
    → (fs_read_entry (drive.read e) super index ≡ some x)
      × ((k : ℕ)
          → k ≢ index
          → fs_read_entry (drive.read e) super k ≡ fs_read_entry (drive.read d) super k)
fs_write_entry-read drive super index x d e good w h =
    let v = fs_write_entry-Written drive good super index x w d e h in
    (
      same-entry drive good super index x w d e v.sector v.stored v.inside v.written,
      other-entry drive good super index x w d e v.sector v.stored v.inside v.written,
    )
