-- ===== src/FileSystem/Directory.antt =====
-- Looking up entries of the directory. `read` is `disk_read_sector` on the selected disk: `none`
-- where the drive fails.
use back_and_forth.Prelude.{
  ℕ, zero, suc, ◌+◌, ◌-◌, ◌*◌, ◌/◌, ◌%◌, Bool, false, ◌&&◌, ◌||◌, not, List, [], ◌∷◌, Option, none,
  some, Text, ltb, leb, ◌==◌, if◌then◌else◌, text_eq, length,
}
use back_and_forth.FileSystem.Layout.{
  super_lba, fs_version, fs_magic, directory_lba, directory_sectors, data_lba, max_files, name_max,
  Sector, BafFsSuper, BafFsEntry, read_super, read_entry, fs_super_checksum, bytes_at,
}

abbrev pub Reader : Type 0
Reader = ℕ → Option Sector

-- `fs_load_super` behind `fs_selected_ready`, on a disk with `sectors` sectors.
abbrev pub is_super : ℕ → BafFsSuper → Bool
is_super sectors s =
    text_eq s.magic fs_magic
    && (s.version == fs_version)
    && (s.directory_lba == directory_lba)
    && (s.directory_sectors == directory_sectors)
    && (s.data_lba == data_lba)
    && (s.max_files == max_files)
    && (s.checksum == fs_super_checksum s)
    && leb s.total_sectors sectors
    && ltb data_lba s.total_sectors

unfoldable pub fs_load_super : Reader → ℕ → Option BafFsSuper
unfolding read_super
fs_load_super read sectors = elim (read super_lba) [
  | none ↦ none
  | some s ↦ if is_super sectors (read_super s) then some (read_super s) else none
]

abbrev pub entries_per_sector : ℕ
entries_per_sector = 8

unfoldable pub fs_read_entry : Reader → BafFsSuper → ℕ → Option BafFsEntry
unfolding read_entry
fs_read_entry read super index =
    if ltb index super.max_files
    then elim (read (super.directory_lba + index / entries_per_sector)) [
      | none ↦ none
      | some s ↦ some (read_entry s ((index % entries_per_sector) * 64))
    ]
    else none

abbrev pub is_file : BafFsEntry → Bool
is_file e = e.status == 1

abbrev pub is_directory : BafFsEntry → Bool
is_directory e = e.status == 2

abbrev pub fs_entry_live : BafFsEntry → Bool
fs_entry_live e = is_file e || is_directory e

-- `wanted_status` is 0 for any.
abbrev pub fs_name_equal : BafFsEntry → ℕ → Text → ℕ → Bool
fs_name_equal e parent_id name wanted_status =
    fs_entry_live e
    && (e.parent_id == parent_id)
    && (wanted_status == 0 || e.status == wanted_status)
    && (e.name_length == length name)
    && text_eq (bytes_at e.name 0 (length name)) name

-- The loop of `fs_find_child`, over `n` entries from `i` on.
unfoldable pub find_child_from :
    Reader → BafFsSuper → ℕ → Text → ℕ → ℕ → ℕ → Option (BafFsEntry × ℕ)
unfolding fs_read_entry
find_child_from read super parent_id name wanted_status i zero = none
find_child_from read super parent_id name wanted_status i (suc n) =
    let rest = find_child_from read super parent_id name wanted_status (i + 1) n in
    elim (fs_read_entry read super i) [
      | none ↦ none
      | some e ↦ if fs_name_equal e parent_id name wanted_status then some (e, i) else rest
    ]

abbrev pub fs_find_child : Reader → BafFsSuper → ℕ → Text → ℕ → Option (BafFsEntry × ℕ)
fs_find_child read super parent_id name wanted_status =
    find_child_from read super parent_id name wanted_status 0 super.max_files

unfoldable pub fs_read_directory_by_id : Reader → BafFsSuper → ℕ → Option (BafFsEntry × ℕ)
unfolding fs_read_entry
fs_read_directory_by_id read super id =
    if id == 0 || ltb super.max_files id then none else elim (fs_read_entry read super (id - 1)) [
      | none ↦ none
      | some e ↦ if is_directory e then some (e, id - 1) else none
    ]

-- The loop of `fs_find_free_entry`.
unfoldable pub find_free_from : Reader → BafFsSuper → ℕ → ℕ → Option ℕ
unfolding fs_read_entry
find_free_from read super i zero = none
find_free_from read super i (suc n) =
    let rest = find_free_from read super (i + 1) n in
    elim (fs_read_entry read super i) [
      | none ↦ none
      | some e ↦ if fs_entry_live e then rest else some i
    ]

abbrev pub fs_find_free_entry : Reader → BafFsSuper → Option ℕ
fs_find_free_entry read super = find_free_from read super 0 super.max_files

abbrev pub separates : ℕ → Bool
separates b = b == b'/' || b == b'\\' || b == 0

abbrev pub any_separates : List ℕ → Bool
any_separates [] = false
any_separates (b ∷ bs) = separates b || any_separates bs

unfoldable pub fs_component_valid : Text → Bool
fs_component_valid name =
    not (length name == 0 || ltb name_max (length name))
    && not (text_eq name (b'.' ∷ []))
    && not (text_eq name (b'.' ∷ b'.' ∷ []))
    && not (any_separates name)
