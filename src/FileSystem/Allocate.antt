-- ===== src/FileSystem/Allocate.antt =====
-- `fs_ranges_overlap` and `fs_allocate`.
use back_and_forth.Prelude.{
  ℕ, zero, suc, ◌+◌, ◌-◌, Bool, false, ◌&&◌, ◌||◌, Option, none, some, ltb, leb, ◌==◌,
  if◌then◌else◌,
}
use back_and_forth.FileSystem.Layout.{u32, BafFsSuper}
use back_and_forth.FileSystem.Directory.{Reader, fs_read_entry, is_file}

unfoldable pub fs_ranges_overlap : ℕ → ℕ → ℕ → ℕ → Bool
fs_ranges_overlap left_start left_count right_start right_count =
    if left_count == 0 || right_count == 0
    then false
    else ltb left_start (u32 (right_start + right_count))
      && ltb right_start (u32 (left_start + left_count))

-- The inner loop of `fs_allocate`, over `n` entries from `i` on: `none` where a read fails,
-- `some none` where no file is in the way, and otherwise the end of the first file that is.
unfoldable pub first_overlap : Reader → BafFsSuper → ℕ → ℕ → ℕ → ℕ → ℕ → Option (Option ℕ)
unfolding fs_read_entry fs_ranges_overlap
first_overlap read super sectors_needed ignored_entry candidate i zero = some none
first_overlap read super sectors_needed ignored_entry candidate i (suc n) =
    let rest = first_overlap read super sectors_needed ignored_entry candidate (i + 1) n in
    if i == ignored_entry then rest else elim (fs_read_entry read super i) [
      | none ↦ none
      | some e ↦
          if is_file e && fs_ranges_overlap candidate sectors_needed e.start_lba e.sector_count
          then some (some (u32 (e.start_lba + e.sector_count)))
          else rest
    ]

-- The outer loop; `none`: the fuel ran out, `some none`: `fs_allocate` returns 0.
unfoldable pub allocate_from : Reader → BafFsSuper → ℕ → ℕ → ℕ → ℕ → Option (Option ℕ)
unfolding first_overlap
allocate_from read super sectors_needed ignored_entry zero candidate = none
allocate_from read super sectors_needed ignored_entry (suc n) candidate =
    let again = allocate_from read super sectors_needed ignored_entry n in
    if ltb candidate super.total_sectors && leb sectors_needed (super.total_sectors - candidate)
    then elim (first_overlap read super sectors_needed ignored_entry candidate 0 super.max_files) [
      | none ↦ some none
      | some none ↦ some (some candidate)
      | some (some c) ↦ again c
    ]
    else some none

-- Fuel above the number of sectors is enough.
unfoldable pub fs_allocate : Reader → BafFsSuper → ℕ → ℕ → Option (Option ℕ)
unfolding allocate_from
fs_allocate read super sectors_needed ignored_entry =
    if sectors_needed == 0
    then some (some super.data_lba)
    else allocate_from read super sectors_needed ignored_entry (suc super.total_sectors)
        super.data_lba
