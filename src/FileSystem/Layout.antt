-- ===== src/FileSystem/Layout.antt =====
-- The superblock and the directory entries of BAFS1, at the bytes of a sector.
use Prim.Native.Nat.{bit_xor}
use back_and_forth.Prelude.{ℕ, zero, suc, ◌+◌, ◌*◌, ◌%◌, ◌^◌, List, [], ◌∷◌, ◌++◌, codes, Text}

abbrev pub sector_size : ℕ
sector_size = 512

abbrev pub fs_version : ℕ
fs_version = 1

abbrev pub super_lba : ℕ
super_lba = 1

abbrev pub directory_lba : ℕ
directory_lba = 2

abbrev pub directory_sectors : ℕ
directory_sectors = 8

abbrev pub data_lba : ℕ
data_lba = 10

abbrev pub max_files : ℕ
max_files = 64

abbrev pub name_max : ℕ
name_max = 40

-- "BAFS1\0\0\0"
abbrev pub fs_magic : Text
fs_magic = codes "BAFS1" ++ (0 ∷ 0 ∷ 0 ∷ [])

-- Arithmetic of `uint32_t`.
abbrev pub u32 : ℕ → ℕ
u32 n = n % 2 ^ 32

-- The bytes of a sector.
abbrev pub Sector : Type 0
Sector = List ℕ

-- 0 behind the end, which no field is.
unfoldable pub byte_at : List ℕ → ℕ → ℕ
byte_at [] k = 0
byte_at (b ∷ bs) zero = b
byte_at (b ∷ bs) (suc k) = byte_at bs k

-- The machine is little-endian.
abbrev pub u16_at : List ℕ → ℕ → ℕ
u16_at bs k = byte_at bs k + 256 * byte_at bs (k + 1)

abbrev pub u32_at : List ℕ → ℕ → ℕ
u32_at bs k = u16_at bs k + 65536 * u16_at bs (k + 2)

-- `count` bytes from `k` on, as `memory_copy` reads them.
unfoldable pub bytes_at : List ℕ → ℕ → ℕ → List ℕ
unfolding byte_at
bytes_at bs k zero = []
bytes_at bs k (suc count) = byte_at bs k ∷ bytes_at bs (k + 1) count

-- The packed struct without its reserved bytes.
pub record BafFsSuper : Type 0 where
  pub magic : List ℕ
  pub version : ℕ
  pub directory_lba : ℕ
  pub directory_sectors : ℕ
  pub data_lba : ℕ
  pub total_sectors : ℕ
  pub max_files : ℕ
  pub checksum : ℕ

pub record BafFsEntry : Type 0 where
  pub status : ℕ
  pub name_length : ℕ
  pub parent_id : ℕ
  pub start_lba : ℕ
  pub size_bytes : ℕ
  pub sector_count : ℕ
  pub checksum : ℕ
  pub generation : ℕ
  pub name : List ℕ

unfoldable pub read_super : Sector → BafFsSuper
unfolding bytes_at
read_super s = record {
  magic = bytes_at s 0 8;
  version = u32_at s 8;
  directory_lba = u32_at s 12;
  directory_sectors = u32_at s 16;
  data_lba = u32_at s 20;
  total_sectors = u32_at s 24;
  max_files = u32_at s 28;
  checksum = u32_at s 32;
}

-- The entry at an offset of its sector.
unfoldable pub read_entry : Sector → ℕ → BafFsEntry
unfolding bytes_at
read_entry s k = record {
  status = byte_at s k;
  name_length = byte_at s (k + 1);
  parent_id = u16_at s (k + 2);
  start_lba = u32_at s (k + 4);
  size_bytes = u32_at s (k + 8);
  sector_count = u32_at s (k + 12);
  checksum = u32_at s (k + 16);
  generation = u32_at s (k + 20);
  name = bytes_at s (k + 24) 40;
}

abbrev pub fs_super_checksum : BafFsSuper → ℕ
fs_super_checksum s = bit_xor 3136618497 (
    bit_xor s.version (
      bit_xor s.directory_lba
        (bit_xor s.directory_sectors (bit_xor s.data_lba (bit_xor s.total_sectors s.max_files)))))

-- The loop of `fs_data_checksum`, from the hash of the bytes before.
unfoldable pub hash_bytes : ℕ → List ℕ → ℕ
hash_bytes hash [] = hash
hash_bytes hash (b ∷ bs) = hash_bytes (u32 (bit_xor hash b * 16777619)) bs

abbrev pub fs_data_checksum : List ℕ → ℕ
fs_data_checksum bs = hash_bytes 2166136261 bs
