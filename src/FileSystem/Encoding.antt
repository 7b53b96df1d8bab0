-- ===== src/FileSystem/Encoding.antt =====
-- The bytes of a directory entry, and memory that is copied into a sector.
use back_and_forth.Prelude.{ℕ, zero, suc, ◌/◌, ◌%◌, List, [], ◌∷◌, ◌++◌}
use back_and_forth.FileSystem.Layout.{BafFsEntry, name_max}

abbrev pub u16_bytes : ℕ → List ℕ
u16_bytes n = n % 256 ∷ n / 256 % 256 ∷ []

abbrev pub u32_bytes : ℕ → List ℕ
u32_bytes n = n % 256 ∷ n / 256 % 256 ∷ n / 65536 % 256 ∷ n / 16777216 % 256 ∷ []

-- The packed struct.
unfoldable pub entry_bytes : BafFsEntry → List ℕ
entry_bytes e =
    e.status
    ∷ e.name_length
    ∷ (u16_bytes e.parent_id
        ++ (u32_bytes e.start_lba
            ++ (u32_bytes e.size_bytes
                ++ (u32_bytes e.sector_count
                    ++ (u32_bytes e.checksum ++ (u32_bytes e.generation ++ e.name))))))

-- `memory_copy` to an offset; nothing is written behind the end.
unfoldable pub splice : List ℕ → ℕ → List ℕ → List ℕ
splice [] k xs = []
splice (b ∷ bs) (suc k) xs = b ∷ splice bs k xs
splice (b ∷ bs) zero [] = b ∷ bs
splice (b ∷ bs) zero (x ∷ xs) = x ∷ splice bs zero xs

-- `memory_zero` on `n` bytes, and a copy to their front.
unfoldable pub padded : ℕ → List ℕ → List ℕ
padded zero xs = []
padded (suc n) [] = 0 ∷ padded n []
padded (suc n) (x ∷ xs) = x ∷ padded n xs

unfoldable pub drop : ℕ → List ℕ → List ℕ
drop zero xs = xs
drop (suc n) [] = []
drop (suc n) (x ∷ xs) = drop n xs

-- `memory_zero` on an entry.
unfoldable pub zero_entry : BafFsEntry
unfolding padded
zero_entry = record {
  status = 0;
  name_length = 0;
  parent_id = 0;
  start_lba = 0;
  size_bytes = 0;
  sector_count = 0;
  checksum = 0;
  generation = 0;
  name = padded name_max [];
}
