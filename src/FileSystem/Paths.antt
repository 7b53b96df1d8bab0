-- ===== src/FileSystem/Paths.antt =====
-- `baf_core_fs_goto_dir`, and the loop of `fs_build_current_path` that climbs to the root.
use back_and_forth.Prelude.{
  ℕ, zero, suc, ◌+◌, ◌%◌, Bool, true, false, ◌&&◌, not, List, [], ◌∷◌, ◌++◌, Option, none, some,
  Text, leb, ◌==◌, if◌then◌else◌, text_eq, length,
}
use back_and_forth.FileSystem.Layout.{BafFsSuper, BafFsEntry, max_files}
use back_and_forth.FileSystem.Directory.{
  Reader, fs_find_child, fs_read_directory_by_id, fs_component_valid,
}
use back_and_forth.FileSystem.Encoding.{padded}
use back_and_forth.FileSystem.Operations.{Drive, FileStore, load}

abbrev pub path_capacity : ℕ
path_capacity = 4096

-- The ids from a directory up to the root, the last one first; at most `n` of them.
unfoldable pub climb : Reader → BafFsSuper → ℕ → ℕ → List ℕ → Option (List ℕ)
climb read super zero id chain = if id == 0 then some chain else none
climb read super (suc n) id chain =
    let parent = fs_read_directory_by_id read super id in
    if id == 0 then some chain else elim parent as (λ _. Option (List ℕ)) [
      | none ↦ none
      | some (e, index) ↦ climb read super n e.parent_id (id ∷ chain)
    ]

-- A slash, but for the first name, and the `name_length` bytes of a name.
abbrev pub append_name : Text → BafFsEntry → Option Text
append_name path e =
    let slashed = if length path == 1 then path else path ++ (b'/' ∷ []) in
    if not (length path == 1) && leb path_capacity (length path + 1)
    then none
    else if leb path_capacity (length slashed + e.name_length)
    then none
    else some (slashed ++ padded e.name_length e.name)

-- The loop that puts the names together.
unfoldable pub append_names : Reader → BafFsSuper → List ℕ → Text → Option Text
unfolding padded
append_names read super [] path = some path
append_names read super (id ∷ ids) path =
    elim (fs_read_directory_by_id read super id) as (λ _. Option Text) [
      | none ↦ none
      | some (e, index) ↦ elim (append_name path e) as (λ _. Option Text) [
        | none ↦ none
        | some longer ↦ append_names read super ids longer
      ]
    ]

unfoldable pub fs_build_current_path : Reader → BafFsSuper → ℕ → Option Text
unfolding climb append_names
fs_build_current_path read super current_directory =
    elim (climb read super max_files current_directory []) as (λ _. Option Text) [
      | none ↦ none
      | some chain ↦ append_names read super chain (b'/' ∷ [])
    ]

module _ {D : Type 0} (drive : Drive D) where
  unfoldable pub fs_get_dir : FileStore D → FileStore D × Option Text
  unfolding fs_build_current_path
  fs_get_dir fs = elim (load drive fs) as (λ _. FileStore D × Option Text) [
    | none ↦ (fs, none)
    | some super ↦
        elim (fs_build_current_path (drive.read fs.disk) super fs.current_directory)
          as (λ _. FileStore D × Option Text) [
            | none ↦ (record fs { current_directory = 0 }, none)
            | some path ↦ (fs, some path)
          ]
  ]

  -- The branch for "..".
  abbrev pub goto_parent : FileStore D → BafFsSuper → FileStore D × Bool
  goto_parent fs super =
      if fs.current_directory == 0
      then (fs, true)
      else elim (fs_read_directory_by_id (drive.read fs.disk) super fs.current_directory)
          as (λ _. FileStore D × Bool) [
            | none ↦ (record fs { current_directory = 0 }, false)
            | some (e, index) ↦ (record fs { current_directory = e.parent_id }, true)
          ]

  abbrev pub goto_child : FileStore D → BafFsSuper → Text → FileStore D × Bool
  goto_child fs super name =
      if not (fs_component_valid name)
      then (fs, false)
      else elim (fs_find_child (drive.read fs.disk) super fs.current_directory name 2)
          as (λ _. FileStore D × Bool) [
            | none ↦ (fs, false)
            | some (e, index) ↦ (record fs { current_directory = (index + 1) % 65536 }, true)
          ]

  unfoldable pub fs_goto_dir : FileStore D → Text → FileStore D × Bool
  fs_goto_dir fs name = elim (load drive fs) as (λ _. FileStore D × Bool) [
    | none ↦ (fs, false)
    | some super ↦
        if text_eq name (b'/' ∷ [])
        then (record fs { current_directory = 0 }, true)
        else if text_eq name (b'.' ∷ [])
        then (fs, true)
        else if text_eq name (b'.' ∷ b'.' ∷ [])
        then goto_parent fs super
        else goto_child fs super name
  ]
