-- ===== src/Nexofs.antt =====
-- The file system NexoFS: libraries/nexofs/src/lib.rs.
--
-- A block, or a slice of one, is a function from the index of a byte: every access of the code modelled
-- here is at an index in range. Numbers on disk are little-endian.
pub mod Bytes
mod Tests
pub mod Codec
pub mod Blocks
use nexo_os.Prelude.{
  ℕ, zero, suc, ◌+◌, ◌-◌, ◌*◌, ◌/◌, ◌%◌, ◌^◌, bit_and, Bool, true, false, not, ◌&&◌, ◌||◌, List, [],
  ◌∷◌, ◌++◌, length, get_or, leb, ltb, ◌==◌, if◌then◌else◌,
}
use Prim.Native.Nat.{bit_xor}

abbrev pub block_size : ℕ
block_size = 2048

-- `b"NEXOFS00"`.
abbrev pub magic : List ℕ
magic = 78 ∷ 69 ∷ 88 ∷ 79 ∷ 70 ∷ 83 ∷ 48 ∷ 48 ∷ []

abbrev pub version : ℕ
version = 0

abbrev pub inode_size : ℕ
inode_size = 128

abbrev pub dirent_size : ℕ
dirent_size = 64

abbrev pub name_max : ℕ
name_max = 55

abbrev pub ndirect : ℕ
ndirect = 12

abbrev pub ptrs_per_block : ℕ
ptrs_per_block = block_size / 8

abbrev pub max_file : ℕ
max_file = (ndirect + ptrs_per_block) * block_size

abbrev pub max_blocks : ℕ
max_blocks = 65536

abbrev pub root_ino : ℕ
root_ino = 1

abbrev pub max_depth : ℕ
max_depth = 16

-- What the text of `Corrupted` says.
pub data Flaw : Type 0 where
  superblock_magic superblock_crc superblock_version superblock_geometry : Flaw
  inode_crc inode_kind inode_number : Flaw
  dirent_crc dirent_name : Flaw
  block_pointer : Flaw

pub data FsError : Type 0 where
  io : FsError
  corrupted : Flaw → FsError
  not_found exists not_dir is_dir not_empty no_space too_big invalid_name invalid_args : FsError

-- `FsError::code`.
unfoldable pub error_code : FsError → ℕ
error_code io = 1
error_code (corrupted flaw) = 2
error_code not_found = 3
error_code exists = 4
error_code not_dir = 5
error_code is_dir = 6
error_code not_empty = 7
error_code no_space = 8
error_code too_big = 9
error_code invalid_name = 10
error_code invalid_args = 11

abbrev pub Bytes : Type 0
Bytes = ℕ → ℕ

abbrev pub zeros : Bytes
zeros i = 0

-- One turn of the inner loop of `crc32`.
unfoldable pub crc_bit : ℕ → ℕ
crc_bit crc = if crc % 2 == 1 then bit_xor (crc / 2) 0xedb88320 else crc / 2

unfoldable pub crc_byte : ℕ → ℕ → ℕ
unfolding crc_bit
crc_byte crc b =
    crc_bit (crc_bit (crc_bit (crc_bit (crc_bit (crc_bit (crc_bit (crc_bit (bit_xor crc b))))))))

unfoldable pub crc_from : ℕ → List ℕ → ℕ
unfolding crc_byte
crc_from crc [] = crc
crc_from crc (b ∷ bs) = crc_from (crc_byte crc b) bs

unfoldable pub crc32 : List ℕ → ℕ
unfolding crc_from
crc32 bytes = 0xffffffff - crc_from 0xffffffff bytes

-- `&b[o..o + n]`.
unfoldable pub slice : Bytes → ℕ → ℕ → List ℕ
slice b o zero = []
slice b o (suc n) = b o ∷ slice b (o + 1) n

unfoldable pub u32_at : Bytes → ℕ → ℕ
u32_at b o = b o + b (o + 1) * 2 ^ 8 + b (o + 2) * 2 ^ 16 + b (o + 3) * 2 ^ 24

unfoldable pub u64_at : Bytes → ℕ → ℕ
unfolding u32_at
u64_at b o = u32_at b o + u32_at b (o + 4) * 2 ^ 32

-- `n` bytes of `v`, least significant first.
unfoldable pub put_le : ℕ → Bytes → ℕ → ℕ → Bytes
put_le n b o v i = if leb o i && ltb i (o + n) then v / 2 ^ (8 * (i - o)) % 2 ^ 8 else b i

unfoldable pub put32 : Bytes → ℕ → ℕ → Bytes
unfolding put_le
put32 b o v = put_le 4 b o v

unfoldable pub put64 : Bytes → ℕ → ℕ → Bytes
unfolding put_le
put64 b o v = put_le 8 b o v

-- `b[o..o + xs.len()].copy_from_slice(xs)`.
unfoldable pub copy_at : Bytes → ℕ → List ℕ → Bytes
copy_at b o xs i = if leb o i && ltb i (o + length xs) then get_or xs (i - o) 0 else b i
