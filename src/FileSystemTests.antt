-- ===== src/FileSystemTests.antt =====
-- Runs of the model of the BAFS1 file system at a concrete disk.
use back_and_forth.Prelude.{
  ℕ, zero, suc, ◌≡◌, refl, [], ◌∷◌, none, some, Option, List, arith, if◌then◌else◌, ◌==◌, ◌+◌, ◌≤◌,
  ◌<◌, codes, true, false, Bool, ==_iff, eq_refl, ◌≢◌, length, ap, sym, ◌∙◌, subst,
}
use back_and_forth.FileSystem.{
  Sector, BafFsSuper, BafFsEntry, read_entry, byte_at, bytes_at, Reader, fs_read_entry,
  fs_ranges_overlap, first_overlap, allocate_from, fs_allocate, Drive, FileStore, fs_write, fs_read,
  fs_format, fs_write_entry, entry_bytes, splice, padded, zero_entry, new_directory,
}
use back_and_forth.FileSystem.FirstOverlap.{Readable}
use back_and_forth.FileSystem.EntryBytes.{IsEntry}
use back_and_forth.FileSystem.WriteTotal.{fs_write-total}
use back_and_forth.FileSystem.Commit.{IsDrive, fs_write_entry-read}
use back_and_forth.FileSystem.FirstFit.{FirstFit, fs_allocate-FirstFit}

-- A file "a" of two sectors from sector 10 on; what follows is zero.
abbrev file_sector : Sector
file_sector = 1 ∷ 1 ∷ 0 ∷ 0 ∷ 10 ∷ 0 ∷ 0 ∷ 0 ∷ 0 ∷ 4 ∷ 0 ∷ 0 ∷ 2 ∷ 0 ∷ 0 ∷ 0 ∷ []

abbrev reader : Reader
reader lba = if lba == 2 then some file_sector else some []

abbrev super_of_two : BafFsSuper
super_of_two = record {
  magic = [];
  version = 1;
  directory_lba = 2;
  directory_sectors = 8;
  data_lba = 10;
  total_sectors = 20;
  max_files = 2;
  checksum = 0;
}

two_entries : Readable reader super_of_two 0 2
unfolding fs_read_entry read_entry bytes_at byte_at
two_entries = record { entry = at }
  where
    at :
        (k : ℕ)
        → zero ≤ k
        → k < 0 + 2
        → (e : BafFsEntry) × (fs_read_entry reader super_of_two k ≡ some e)
          × (e.start_lba + e.sector_count < 4294967296)
    at zero l u = (read_entry file_sector 0, refl, omega arith)
    at (suc zero) l u = (read_entry file_sector 64, refl, omega arith)
    at (suc (suc k)) l u = absurd (omega arith)

fs_allocate-FirstFit_example :
    FirstFit reader super_of_two 3 9 (fs_allocate reader super_of_two 3 9)
fs_allocate-FirstFit_example =
    fs_allocate-FirstFit reader super_of_two 3 9 (omega arith) (omega arith) two_entries

behind_the_file : fs_allocate reader super_of_two 3 9 ≡ some (some 12)
unfolding fs_allocate allocate_from first_overlap fs_ranges_overlap fs_read_entry read_entry
    bytes_at byte_at
behind_the_file = refl

-- The file itself is ignored.
in_place : fs_allocate reader super_of_two 3 0 ≡ some (some 10)
unfolding fs_allocate allocate_from first_overlap fs_ranges_overlap fs_read_entry read_entry
    bytes_at byte_at
in_place = refl

-- A drive in memory, which takes sectors of 512 bytes.
abbrev Memory : Type 0
Memory = ℕ → Sector

abbrev update : Memory → ℕ → Sector → Memory
update m lba s l = if l == lba then s else m l

abbrev memory_read : Memory → Reader
memory_read m lba = if length (m lba) == 512 then some (m lba) else none

abbrev memory_write : Memory → ℕ → Sector → Memory × Bool
memory_write m lba s = if length s == 512 then (update m lba s, true) else (m, false)

abbrev memory_drive : Drive Memory
memory_drive = record { sectors = λ m. 20; read = memory_read; write = memory_write }

read_test : (b : Bool) (x s : Sector) → (if b then some x else none) ≡ some s → (b ≡ true) × (x ≡ s)
read_test false x s h = absurd (cc h)
read_test true x s h = (refl, ap (λ o. elim o as (λ _. Sector) [ none ↦ x | some y ↦ y ]) h)

write_test :
    (b : Bool) (u m n : Memory)
    → ◌≡◌ {A = Memory × Bool} (if b then (u, true) else (m, false)) (n, true)
    → (b ≡ true) × (u ≡ n)
write_test false u m n h = absurd (cc (ap (λ y. y.1) h))
write_test true u m n h = (refl, ap (λ y. y.0) h)

memory_write-done :
    (m n : Memory) (lba : ℕ) (s : Sector)
    → memory_write m lba s ≡ (n, true)
    → ((length s == 512) ≡ true) × (update m lba s ≡ n)
memory_write-done m n lba s h = write_test (length s == 512) (update m lba s) m n h

memory-IsDrive : IsDrive memory_drive
memory-IsDrive = record {
  read_length = λ m lba s h.
      let (e, same) = read_test (length (m lba) == 512) (m lba) s h in
      ap length (sym same) ∙ (==_iff (length (m lba)) 512).0 e;
  read_written = λ m n lba s h.
      let (e, same) = memory_write-done m n lba s h in
      subst (λ k. memory_read k lba ≡ some s) same (rw (eq_refl lba, e) refl);
  read_other = λ m n lba other s h k.
      let (e, same) = memory_write-done m n lba s h in
      let differ : (other == lba) ≡ false = ground arith in
      subst (λ j. memory_read j other ≡ memory_read m other) same (rw differ refl);
}

abbrev empty_disk : Memory
empty_disk lba = padded 512 []

-- The directory "a" in the root.
abbrev directory_a : BafFsEntry
directory_a = new_directory (codes "a") 0

directory_a-IsEntry : IsEntry directory_a
unfolding zero_entry padded
directory_a-IsEntry = record {
  parent_id = omega arith;
  start_lba = omega arith;
  size_bytes = omega arith;
  sector_count = omega arith;
  checksum = omega arith;
  generation = omega arith;
  name = refl;
}

abbrev with_directory : Memory
with_directory = (fs_write_entry memory_drive empty_disk super_of_two 1 directory_a).0

fs_write_entry-read_example :
    (fs_read_entry (memory_read with_directory) super_of_two 1 ≡ some directory_a)
    × ((k : ℕ)
        → k ≢ 1
        → fs_read_entry (memory_read with_directory) super_of_two k
          ≡ fs_read_entry (memory_read empty_disk) super_of_two k)
unfolding fs_write_entry entry_bytes splice padded zero_entry
fs_write_entry-read_example =
    fs_write_entry-read memory_drive super_of_two 1 directory_a empty_disk with_directory
      memory-IsDrive directory_a-IsEntry refl

abbrev formatted : FileStore Memory
formatted = record {
  ready = true;
  disk = empty_disk;
  current_directory = 0;
  read_buffer = padded 8 [];
}

fs_write-total_example :
    (r : FileStore Memory × Bool) × (fs_write memory_drive formatted (codes "a") (codes "text")
      ≡ some r)
fs_write-total_example = fs_write-total memory_drive formatted (codes "a") (codes "text")

abbrev formatted_disk : FileStore Memory
formatted_disk = (fs_format memory_drive formatted).0

abbrev written_disk : Option (FileStore Memory × Bool)
written_disk = fs_write memory_drive formatted_disk (codes "a") (codes "text")

abbrev read_a : Option (FileStore Memory × Bool) → Option (List ℕ)
read_a none = none
read_a (some (fs, done)) = (fs_read memory_drive fs (codes "a")).1

read_back : read_a written_disk ≡ some (codes "text")
unfolding fs_write fs_read fs_format back_and_forth.FileSystem.fs_load_super
    back_and_forth.Prelude.text_eq back_and_forth.FileSystem.fs_component_valid
    back_and_forth.FileSystem.find_child_from back_and_forth.FileSystem.find_free_from fs_allocate
    allocate_from first_overlap fs_ranges_overlap fs_write_entry
    back_and_forth.FileSystem.hash_bytes back_and_forth.FileSystem.read_sectors
    back_and_forth.FileSystem.write_sectors back_and_forth.FileSystem.zero_sectors
    back_and_forth.FileSystem.drop back_and_forth.FileSystem.read_super read_entry bytes_at byte_at
    fs_read_entry entry_bytes splice padded zero_entry
read_back = refl
