-- ===== src/FileSystem/EntryBytes.antt =====
-- An entry that is written into a sector is read back, and those beside it stay.
use back_and_forth.Prelude.{
  ℕ, suc, ◌+◌, ◌*◌, ◌/◌, ◌%◌, ◌<◌, ◌≡◌, refl, sym, ◌∙◌, ap, List, arith, length,
}
use back_and_forth.FileSystem.Layout.{BafFsEntry, byte_at, bytes_at, u16_at, u32_at, read_entry}
use back_and_forth.FileSystem.Encoding.{entry_bytes}
use back_and_forth.FileSystem.Splice.{bytes_at-cong, bytes_at_all}

-- The fields are within their widths.
pub record IsEntry (e : BafFsEntry) : Type 0 where
  pub parent_id : e.parent_id < 65536
  pub start_lba : e.start_lba < 4294967296
  pub size_bytes : e.size_bytes < 4294967296
  pub sector_count : e.sector_count < 4294967296
  pub checksum : e.checksum < 4294967296
  pub generation : e.generation < 4294967296
  pub name : length e.name ≡ 40

u16_of_bytes : (n : ℕ) → n < 65536 → n % 256 + 256 * (n / 256 % 256) ≡ n
u16_of_bytes n h = omega arith

u32_of_bytes :
    (n : ℕ)
    → n < 4294967296
    → (n % 256 + 256 * (n / 256 % 256)) + 65536 * (n / 65536 % 256 + 256 * (n / 16777216 % 256)) ≡ n
u32_of_bytes n h = omega arith

-- The bytes of `s` from `k` on are those of the entry.
abbrev pub Holds : List ℕ → ℕ → BafFsEntry → Type 0
Holds s k e = (j : ℕ) → j < 64 → byte_at s (k + j) ≡ byte_at (entry_bytes e) j

module _ (s : List ℕ) (k : ℕ) (e : BafFsEntry) (w : IsEntry e) (h : Holds s k e) where
  -- A byte of the entry, at an offset from one of its fields.
  byte-of :
      (i j m : ℕ) → k + i + j ≡ k + m → m < 64 → byte_at s (k + i + j) ≡ byte_at (entry_bytes e) m
  byte-of i j m same l = ap (byte_at s) same ∙ h m l

  parent-of : u16_at s (k + 2) ≡ e.parent_id
  unfolding byte_at entry_bytes
  parent-of =
      let a : byte_at s (k + 2) ≡ e.parent_id % 256 = h 2 (omega arith) in
      let b : byte_at s (k + 2 + 1) ≡ e.parent_id / 256 % 256 =
        byte-of 2 1 3 (omega arith) (omega arith) in
      let c = u16_of_bytes e.parent_id w.parent_id in cc

  u32-of :
      (i n : ℕ)
      → n < 4294967296
      → i + 3 < 64
      → byte_at (entry_bytes e) i ≡ n % 256
      → byte_at (entry_bytes e) (i + 1) ≡ n / 256 % 256
      → byte_at (entry_bytes e) (i + 2) ≡ n / 65536 % 256
      → byte_at (entry_bytes e) (i + 3) ≡ n / 16777216 % 256
      → u32_at s (k + i) ≡ n
  u32-of i n small inside a b c d =
      let a' : byte_at s (k + i) ≡ n % 256 = h i (omega arith) ∙ a in
      let b' : byte_at s (k + i + 1) ≡ n / 256 % 256 =
        byte-of i 1 (i + 1) (omega arith) (omega arith) ∙ b in
      let c' : byte_at s (k + i + 2) ≡ n / 65536 % 256 =
        byte-of i 2 (i + 2) (omega arith) (omega arith) ∙ c in
      let same : k + i + 2 + 1 ≡ k + (i + 3) = omega arith in
      let d' : byte_at s (k + i + 2 + 1) ≡ n / 16777216 % 256 =
        ap (byte_at s) same ∙ h (i + 3) (omega arith) ∙ d in
      let whole = u32_of_bytes n small in cc

  name_byte : (j : ℕ) → byte_at (entry_bytes e) (24 + j) ≡ byte_at e.name j
  unfolding byte_at entry_bytes
  name_byte j =
      let sucs : 24 + j
          ≡ suc (
              suc (
                suc (
                  suc (
                    suc (
                      suc (
                        suc (
                          suc (
                            suc (
                              suc (
                                suc (
                                  suc (
                                    suc (
                                      suc (
                                        suc (
                                          suc (
                                            suc (
                                              suc (
                                                suc (
                                                  suc (suc (suc (suc (suc j))))))))))))))))))))))) =
        omega arith in
      ap (byte_at (entry_bytes e)) sucs

  name-of : bytes_at s (k + 24) 40 ≡ e.name
  name-of =
      bytes_at-cong s e.name (k + 24) 0 40 (λ j l.
        let none : 0 + j ≡ j = omega arith in
        byte-of 24 j (24 + j) (omega arith) (omega arith)
        ∙ name_byte j
        ∙ sym (ap (byte_at e.name) none))
      ∙ ap (bytes_at e.name 0) (sym w.name)
      ∙ bytes_at_all e.name

  pub read_entry-Holds : read_entry s k ≡ e
  unfolding read_entry byte_at entry_bytes
  read_entry-Holds =
      let none : k + 0 ≡ k = omega arith in
      let a : byte_at s k ≡ e.status = sym (ap (byte_at s) none) ∙ h 0 (omega arith) in
      let b : byte_at s (k + 1) ≡ e.name_length = h 1 (omega arith) in
      let c = parent-of in
      let d = u32-of 4 e.start_lba w.start_lba (omega arith) refl refl refl refl in
      let f = u32-of 8 e.size_bytes w.size_bytes (omega arith) refl refl refl refl in
      let g = u32-of 12 e.sector_count w.sector_count (omega arith) refl refl refl refl in
      let o = u32-of 16 e.checksum w.checksum (omega arith) refl refl refl refl in
      let l = u32-of 20 e.generation w.generation (omega arith) refl refl refl refl in
      let m = name-of in
      λ x. record {
        status = a x;
        name_length = b x;
        parent_id = c x;
        start_lba = d x;
        size_bytes = f x;
        sector_count = g x;
        checksum = o x;
        generation = l x;
        name = m x;
      }

-- An entry is what its 64 bytes say.
module _ (s t : List ℕ) (k : ℕ) (h : (j : ℕ) → j < 64 → byte_at s (k + j) ≡ byte_at t (k + j)) where
  same_byte : (x m : ℕ) → x ≡ k + m → m < 64 → byte_at s x ≡ byte_at t x
  same_byte x m e l = ap (byte_at s) e ∙ h m l ∙ sym (ap (byte_at t) e)

  same_u16 : (i : ℕ) → i + 1 < 64 → u16_at s (k + i) ≡ u16_at t (k + i)
  same_u16 i l =
      let a = same_byte (k + i) i (omega arith) (omega arith) in
      let b = same_byte (k + i + 1) (i + 1) (omega arith) (omega arith) in cc

  same_u32 : (i : ℕ) → i + 3 < 64 → u32_at s (k + i) ≡ u32_at t (k + i)
  same_u32 i l =
      let a = same_byte (k + i) i (omega arith) (omega arith) in
      let b = same_byte (k + i + 1) (i + 1) (omega arith) (omega arith) in
      let c = same_byte (k + i + 2) (i + 2) (omega arith) (omega arith) in
      let d = same_byte (k + i + 2 + 1) (i + 3) (omega arith) (omega arith) in cc

  pub read_entry-cong : read_entry s k ≡ read_entry t k
  unfolding read_entry
  read_entry-cong =
      let a = same_byte k 0 (omega arith) (omega arith) in
      let b = same_byte (k + 1) 1 (omega arith) (omega arith) in
      let m =
        bytes_at-cong s t (k + 24) (k + 24) 40
          (λ j l. same_byte (k + 24 + j) (24 + j) (omega arith) (omega arith)) in
      λ x. record {
        status = a x;
        name_length = b x;
        parent_id = same_u16 2 (omega arith) x;
        start_lba = same_u32 4 (omega arith) x;
        size_bytes = same_u32 8 (omega arith) x;
        sector_count = same_u32 12 (omega arith) x;
        checksum = same_u32 16 (omega arith) x;
        generation = same_u32 20 (omega arith) x;
        name = m x;
      }
