-- ===== src/Nexofs/Codec.antt =====
-- What libraries/nexofs/src/lib.rs keeps on disk: the superblock, inodes and directory entries.
pub mod Superblocks
pub mod Inodes
pub mod Dirents
use nexo_os.Prelude.{
  ℕ, zero, suc, ◌+◌, ◌-◌, ◌*◌, ◌/◌, ◌%◌, ◌^◌, Bool, true, false, not, ◌&&◌, ◌||◌, List, [], ◌∷◌,
  ◌++◌, Option, none, some, Result, ok, err, length, take, leb, ltb, ◌==◌, if◌then◌else◌,
}
use nexo_os.Nexofs.{
  block_size, magic, version, inode_size, name_max, ndirect, max_blocks, FsError, corrupted,
  superblock_magic, superblock_crc, superblock_version, superblock_geometry, inode_crc, inode_kind,
  dirent_crc, dirent_name, Bytes, zeros, crc32, slice, u32_at, u64_at, put32, put64, copy_at,
}

unfoldable pub same_bytes : List ℕ → List ℕ → Bool
same_bytes [] [] = true
same_bytes (x ∷ xs) (y ∷ ys) = (x == y) && same_bytes xs ys
same_bytes _ _ = false

pub record Superblock : Type 0 where
  pub total_blocks : ℕ
  pub bitmap_start : ℕ
  pub bitmap_blocks : ℕ
  pub inode_start : ℕ
  pub inode_blocks : ℕ
  pub data_start : ℕ
  pub inode_count : ℕ
  pub generation : ℕ

abbrev pub div_ceil : ℕ → ℕ → ℕ
div_ceil a b = (a + (b - 1)) / b

-- The condition `ok` of `Superblock::decode`; the sums of `u64` wrap.
unfoldable pub is_geometry : Superblock → Bool
is_geometry sb =
    leb 4 sb.total_blocks
    && leb sb.total_blocks max_blocks
    && (sb.bitmap_start == 1)
    && leb 1 sb.bitmap_blocks
    && (sb.inode_start == (sb.bitmap_start + sb.bitmap_blocks) % 2 ^ 64)
    && leb 1 sb.inode_blocks
    && (sb.data_start == (sb.inode_start + sb.inode_blocks) % 2 ^ 64)
    && ltb sb.data_start sb.total_blocks
    && leb 2 sb.inode_count
    && (div_ceil (sb.inode_count * inode_size) block_size == sb.inode_blocks)
    && (div_ceil sb.total_blocks (8 * block_size) == sb.bitmap_blocks)

-- The fields at their offsets.
unfoldable pub superblock_at : Bytes → Superblock
unfolding u32_at u64_at
superblock_at b = record {
  total_blocks = u64_at b 16;
  bitmap_start = u64_at b 24;
  bitmap_blocks = u64_at b 32;
  inode_start = u64_at b 40;
  inode_blocks = u64_at b 48;
  data_start = u64_at b 56;
  inode_count = u32_at b 64;
  generation = u64_at b 72;
}

unfoldable pub decode_superblock : Bytes → Result FsError Superblock
decode_superblock b =
    if not (same_bytes (slice b 0 8) magic)
    then err (corrupted superblock_magic)
    else if not (u32_at b 80 == crc32 (slice b 0 80))
    then err (corrupted superblock_crc)
    else if not (u32_at b 8 == version) || not (u32_at b 12 == block_size)
    then err (corrupted superblock_version)
    else if is_geometry (superblock_at b)
    then ok (superblock_at b)
    else err (corrupted superblock_geometry)

-- Without the checksum.
unfoldable pub superblock_fields : Superblock → Bytes
unfolding put32 put64 copy_at
superblock_fields sb =
    let b8 = put32 (copy_at zeros 0 magic) 8 version in
    let b12 = put32 b8 12 block_size in
    let b16 = put64 b12 16 sb.total_blocks in
    let b24 = put64 b16 24 sb.bitmap_start in
    let b32 = put64 b24 32 sb.bitmap_blocks in
    let b40 = put64 b32 40 sb.inode_start in
    let b48 = put64 b40 48 sb.inode_blocks in
    let b56 = put64 b48 56 sb.data_start in
    let b64 = put32 b56 64 sb.inode_count in put64 b64 72 sb.generation

unfoldable pub encode_superblock : Superblock → Bytes
encode_superblock sb = let b = superblock_fields sb in put32 b 80 (crc32 (slice b 0 80))

pub record Inode : Type 0 where
  pub kind : ℕ
  pub size : ℕ
  pub direct : List ℕ
  pub indirect : ℕ
  pub generation : ℕ

-- `Inode::FREE`.
abbrev pub free_inode : Inode
free_inode = record {
  kind = 0;
  size = 0;
  direct = 0 ∷ 0 ∷ 0 ∷ 0 ∷ 0 ∷ 0 ∷ 0 ∷ 0 ∷ 0 ∷ 0 ∷ 0 ∷ 0 ∷ [];
  indirect = 0;
  generation = 0;
}

-- The loops over the direct pointers.
unfoldable pub read_pointers : Bytes → ℕ → ℕ → List ℕ
unfolding u64_at
read_pointers b o zero = []
read_pointers b o (suc n) = u64_at b o ∷ read_pointers b (o + 8) n

unfoldable pub put_pointers : Bytes → ℕ → List ℕ → Bytes
unfolding put64
put_pointers b o [] = b
put_pointers b o (p ∷ ps) = put_pointers (put64 b o p) (o + 8) ps

unfoldable pub decode_inode : Bytes → Result FsError Inode
decode_inode b =
    if u32_at b 0 == 0
    then ok free_inode
    else if not (u32_at b 124 == crc32 (slice b 0 124))
    then err (corrupted inode_crc)
    else if not (u32_at b 0 == 1) && not (u32_at b 0 == 2)
    then err (corrupted inode_kind)
    else ok (record {
      kind = u32_at b 0;
      size = u64_at b 8;
      direct = read_pointers b 16 ndirect;
      indirect = u64_at b 112;
      generation = u32_at b 120;
    })

unfoldable pub inode_fields : Inode → Bytes
unfolding put32 put64 put_pointers
inode_fields inode =
    let b16 = put64 (put32 zeros 0 inode.kind) 8 inode.size in
    let b112 = put_pointers b16 16 inode.direct in
    put32 (put64 b112 112 inode.indirect) 120 inode.generation

unfoldable pub encode_inode : Inode → Bytes
encode_inode inode =
    let b = inode_fields inode in
    if inode.kind == 0 then zeros else put32 b 124 (crc32 (slice b 0 124))

pub record Dirent : Type 0 where
  pub ino : ℕ
  pub name_bytes : List ℕ
  pub len : ℕ

-- `Dirent::name`.
unfoldable pub name : Dirent → List ℕ
name e = take e.len e.name_bytes

-- The 60 bytes that the checksum of an entry is over.
abbrev pub checked : Bytes → List ℕ
checked b = slice b 0 4 ++ slice b 8 56

unfoldable pub decode_dirent : Bytes → Result FsError (Option Dirent)
decode_dirent b =
    if u32_at b 0 == 0
    then ok none
    else if not (u32_at b 4 == crc32 (checked b))
    then err (corrupted dirent_crc)
    else if (b 8 == 0) || ltb name_max (b 8)
    then err (corrupted dirent_name)
    else ok (some (record { ino = u32_at b 0; name_bytes = slice b 9 55; len = b 8 }))

unfoldable pub dirent_fields : ℕ → List ℕ → Bytes
unfolding put32 copy_at
dirent_fields ino text = copy_at (copy_at (put32 zeros 0 ino) 8 (length text % 2 ^ 8 ∷ [])) 9 text

unfoldable pub encode_dirent : ℕ → List ℕ → Bytes
encode_dirent ino text = let b = dirent_fields ino text in put32 b 4 (crc32 (checked b))
