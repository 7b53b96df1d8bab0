-- ===== src/FileSystem/Files.antt =====
-- `baf_core_fs_format`, `baf_core_fs_write` and `baf_core_fs_read`, up to what they print.
use Prim.Native.Nat.{min}
use back_and_forth.Prelude.{
  ℕ, zero, suc, ◌+◌, ◌-◌, ◌/◌, Bool, true, false, ◌||◌, not, List, [], ◌∷◌, ◌++◌, Option, none,
  some, Text, leb, ◌==◌, if◌then◌else◌, length, take,
}
use back_and_forth.FileSystem.Layout.{
  sector_size, super_lba, fs_version, fs_magic, directory_lba, directory_sectors, data_lba,
  max_files, name_max, u32, Sector, BafFsSuper, BafFsEntry, fs_super_checksum, fs_data_checksum,
}
use back_and_forth.FileSystem.Encoding.{u32_bytes, splice, padded, drop}
use back_and_forth.FileSystem.Directory.{fs_find_child, fs_find_free_entry, fs_component_valid}
use back_and_forth.FileSystem.Allocate.{fs_allocate}
use back_and_forth.FileSystem.Operations.{Drive, FileStore, load, commit}

abbrev pub read_capacity : ℕ
read_capacity = 65536

-- `old_index` where there is no old entry.
abbrev pub no_index : ℕ
no_index = 4294967295

abbrev pub without_checksum : ℕ → BafFsSuper
without_checksum sectors = record {
  magic = fs_magic;
  version = fs_version;
  directory_lba = directory_lba;
  directory_sectors = directory_sectors;
  data_lba = data_lba;
  total_sectors = sectors;
  max_files = max_files;
  checksum = 0;
}

abbrev pub super_bytes : BafFsSuper → ℕ → Sector
super_bytes s checksum = padded sector_size (
    s.magic
    ++ (u32_bytes s.version
        ++ (u32_bytes s.directory_lba
            ++ (u32_bytes s.directory_sectors
                ++ (u32_bytes s.data_lba
                    ++ (u32_bytes s.total_sectors
                        ++ (u32_bytes s.max_files ++ u32_bytes checksum)))))))

abbrev pub sectors_for : ℕ → ℕ
sectors_for content_length = u32 (content_length + (sector_size - 1)) / sector_size

abbrev pub new_file : Text → List ℕ → ℕ → ℕ → ℕ → BafFsEntry
new_file name content parent_id start generation = record {
  status = 1;
  name_length = length name;
  parent_id = parent_id;
  start_lba = start;
  size_bytes = u32 (length content);
  sector_count = sectors_for (u32 (length content));
  checksum = fs_data_checksum content;
  generation = generation;
  name = padded name_max name;
}

module _ {D : Type 0} (drive : Drive D) where
  -- The sectors from `lba` on are overwritten with zeros.
  unfoldable pub zero_sectors : D → ℕ → ℕ → D × Bool
  zero_sectors d lba zero = (d, true)
  zero_sectors d lba (suc n) =
      let (e, done) = drive.write d lba (padded sector_size []) in
      let rest = zero_sectors e (lba + 1) n in if done then rest else (e, false)

  unfoldable pub fs_format : FileStore D → FileStore D × Bool
  unfolding zero_sectors
  fs_format fs =
      let sectors = drive.sectors fs.disk in
      let super = without_checksum sectors in
      let (d, written) =
        drive.write fs.disk super_lba (super_bytes super (fs_super_checksum super)) in
      let (e, cleared) = zero_sectors d directory_lba directory_sectors in
      if not fs.ready || leb sectors data_lba
      then (fs, false)
      else if not written
      then (record fs { disk = d }, false)
      else if not cleared
      then (record fs { disk = e }, false)
      else (record fs { disk = e; current_directory = 0 }, true)

  -- The loop of `baf_core_fs_write` over its sectors.
  unfoldable pub write_sectors : D → ℕ → List ℕ → ℕ → D × Bool
  unfolding padded drop
  write_sectors d lba content zero = (d, true)
  write_sectors d lba content (suc n) =
      let (e, done) = drive.write d (u32 lba) (padded sector_size content) in
      let rest = write_sectors e (lba + 1) (drop sector_size content) n in
      if done then rest else (e, false)

  -- `entry_index`, `old_index` and `generation`; `none` where there is no place for the entry.
  abbrev pub entry_for : FileStore D → BafFsSuper → Text → Option (ℕ × ℕ × ℕ)
  entry_for fs super name =
      elim (fs_find_child (drive.read fs.disk) super fs.current_directory name 1)
        as (λ _. Option (ℕ × ℕ × ℕ)) [
          | some (old, index) ↦ some (index, index, u32 (old.generation + 1))
          | none ↦
              elim (fs_find_child (drive.read fs.disk) super fs.current_directory name 2)
                as (λ _. Option (ℕ × ℕ × ℕ)) [
                  | some directory ↦ none
                  | none ↦
                      elim (fs_find_free_entry (drive.read fs.disk) super)
                        as (λ _. Option (ℕ × ℕ × ℕ)) [
                          | none ↦ none
                          | some index ↦ some (index, no_index, 1)
                        ]
                ]
        ]

  -- The content is written, and then the entry.
  abbrev pub store_at : FileStore D → BafFsSuper → Text → List ℕ → ℕ → ℕ → ℕ → FileStore D × Bool
  store_at fs super name content index generation start =
      let (d, written) = write_sectors fs.disk start content (sectors_for (u32 (length content))) in
      let stored : FileStore D = record fs { disk = d } in
      if written
      then commit drive stored super index
          (new_file name content fs.current_directory start generation)
      else (stored, false)

  -- The allocation and what follows; `none`: its fuel ran out.
  abbrev pub store :
      FileStore D → BafFsSuper → Text → List ℕ → ℕ × ℕ × ℕ → Option (FileStore D × Bool)
  store fs super name content (index, old_index, generation) =
      elim (fs_allocate (drive.read fs.disk) super (sectors_for (u32 (length content))) old_index)
        as (λ _. Option (FileStore D × Bool)) [
          | none ↦ none
          | some none ↦ some (fs, false)
          | some (some start) ↦ some (store_at fs super name content index generation start)
        ]

  unfoldable pub fs_write : FileStore D → Text → List ℕ → Option (FileStore D × Bool)
  unfolding write_sectors
  fs_write fs name content = elim (load drive fs) as (λ _. Option (FileStore D × Bool)) [
    | none ↦ some (fs, false)
    | some super ↦
        if not (fs_component_valid name)
        then some (fs, false)
        else elim (entry_for fs super name) as (λ _. Option (FileStore D × Bool)) [
          | none ↦ some (fs, false)
          | some place ↦ store fs super name content place
        ]
  ]

  -- The loop of `baf_core_fs_read`: the buffer, and whether every sector was read; `copied` bytes of
  -- `size` are in the buffer.
  unfoldable pub read_sectors : D → ℕ → ℕ → ℕ → List ℕ → ℕ → List ℕ × Bool
  unfolding splice
  read_sectors d lba size copied buffer zero = (buffer, true)
  read_sectors d lba size copied buffer (suc n) =
      elim (drive.read d (u32 lba)) as (λ _. List ℕ × Bool) [
        | none ↦ (buffer, false)
        | some s ↦
            let chunk = min (size - copied) sector_size in
            read_sectors d (lba + 1) size (copied + chunk) (splice buffer copied (take chunk s)) n
      ]

  -- Behind the loop: the byte behind the content is set to 0, and the checksum is compared.
  abbrev pub finish_read : FileStore D → BafFsEntry → List ℕ × Bool → FileStore D × Option (List ℕ)
  finish_read fs entry (buffer, done) =
      let ended = splice buffer entry.size_bytes (0 ∷ []) in
      let content = take entry.size_bytes ended in
      if not done
      then (record fs { read_buffer = buffer }, none)
      else if fs_data_checksum content == entry.checksum
      then (record fs { read_buffer = ended }, some content)
      else (record fs { read_buffer = ended }, none)

  unfoldable pub fs_read : FileStore D → Text → FileStore D × Option (List ℕ)
  unfolding read_sectors splice
  fs_read fs name = elim (load drive fs) as (λ _. FileStore D × Option (List ℕ)) [
    | none ↦ (fs, none)
    | some super ↦
        elim (fs_find_child (drive.read fs.disk) super fs.current_directory name 1)
          as (λ _. FileStore D × Option (List ℕ)) [
            | none ↦ (fs, none)
            | some (entry, index) ↦
                if leb read_capacity entry.size_bytes
                then (fs, none)
                else finish_read fs entry (
                    read_sectors fs.disk entry.start_lba entry.size_bytes 0 fs.read_buffer
                      entry.sector_count)
          ]
  ]
