-- ===== src/FileSystem/Operations.antt =====
-- The operations of BAFS1 on the selected disk, up to what they print.
use back_and_forth.Prelude.{
  ℕ, ◌+◌, ◌*◌, ◌/◌, ◌%◌, Bool, true, false, not, List, Option, none, some, Text, ltb, if◌then◌else◌,
  length,
}
use back_and_forth.FileSystem.Layout.{name_max, Sector, BafFsSuper, BafFsEntry}
use back_and_forth.FileSystem.Encoding.{entry_bytes, splice, padded, zero_entry}
use back_and_forth.FileSystem.Directory.{
  Reader, fs_load_super, entries_per_sector, fs_find_child, fs_find_free_entry, fs_component_valid,
}

-- What the file system uses of a disk: its sectors, `disk_read_sector` and `disk_write_sector`, with
-- the disk as a write leaves it and whether the write went well.
pub record Drive (D : Type 0) : Type 0 where
  pub sectors : D → ℕ
  pub read : D → Reader
  pub write : D → ℕ → Sector → D × Bool

-- `ready`: a disk is selected.
pub record FileStore (D : Type 0) : Type 0 where
  pub ready : Bool
  pub disk : D
  pub current_directory : ℕ
  pub read_buffer : List ℕ

abbrev pub new_directory : Text → ℕ → BafFsEntry
new_directory name parent_id = record zero_entry {
  status = 2;
  name_length = length name;
  parent_id = parent_id;
  generation = 1;
  name = padded name_max name;
}

module _ {D : Type 0} (drive : Drive D) where
  unfoldable pub fs_write_entry : D → BafFsSuper → ℕ → BafFsEntry → D × Bool
  unfolding entry_bytes splice
  fs_write_entry d super index entry =
      let lba = super.directory_lba + index / entries_per_sector in
      if ltb index super.max_files
      then elim (drive.read d lba) [
        | none ↦ (d, false)
        | some s ↦
            drive.write d lba (splice s ((index % entries_per_sector) * 64) (entry_bytes entry))
      ]
      else (d, false)

  abbrev pub load : FileStore D → Option BafFsSuper
  load fs = if fs.ready then fs_load_super (drive.read fs.disk) (drive.sectors fs.disk) else none

  -- A commit, and its result.
  abbrev pub commit : FileStore D → BafFsSuper → ℕ → BafFsEntry → FileStore D × Bool
  commit fs super index entry =
      let (d, done) = fs_write_entry fs.disk super index entry in (record fs { disk = d }, done)

  unfoldable pub fs_create_dir : FileStore D → Text → FileStore D × Bool
  unfolding fs_write_entry
  fs_create_dir fs name = elim (load fs) as (λ _. FileStore D × Bool) [
    | none ↦ (fs, false)
    | some super ↦
        if not (fs_component_valid name)
        then (fs, false)
        else elim (fs_find_child (drive.read fs.disk) super fs.current_directory name 0)
            as (λ _. FileStore D × Bool) [
              | some found ↦ (fs, false)
              | none ↦
                  elim (fs_find_free_entry (drive.read fs.disk) super)
                    as (λ _. FileStore D × Bool) [
                      | none ↦ (fs, false)
                      | some index ↦ commit fs super index (new_directory name fs.current_directory)
                    ]
            ]
  ]

  unfoldable pub fs_remove : FileStore D → Text → FileStore D × Bool
  unfolding fs_write_entry zero_entry
  fs_remove fs name = elim (load fs) as (λ _. FileStore D × Bool) [
    | none ↦ (fs, false)
    | some super ↦
        elim (fs_find_child (drive.read fs.disk) super fs.current_directory name 1)
          as (λ _. FileStore D × Bool) [
            | none ↦ (fs, false)
            | some (entry, index) ↦ commit fs super index zero_entry
          ]
  ]

  unfoldable pub fs_exists : FileStore D → Text → Bool
  fs_exists fs name = elim (load fs) [
    | none ↦ false
    | some super ↦ elim (fs_find_child (drive.read fs.disk) super fs.current_directory name 1) [
      | none ↦ false
      | some found ↦ true
    ]
  ]

  unfoldable pub fs_size : FileStore D → Text → ℕ
  fs_size fs name = elim (load fs) [
    | none ↦ 0
    | some super ↦ elim (fs_find_child (drive.read fs.disk) super fs.current_directory name 1) [
      | none ↦ 0
      | some (entry, index) ↦ entry.size_bytes
    ]
  ]
