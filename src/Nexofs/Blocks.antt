-- ===== src/Nexofs/Blocks.antt =====
-- Names, paths and the allocation of blocks of libraries/nexofs/src/lib.rs.
--
-- The bitmap in memory is the list of its bytes.
pub mod Laws
pub mod Masks
pub mod Paths
use nexo_os.Prelude.{
  ℕ, zero, suc, ◌+◌, ◌-◌, ◌*◌, ◌/◌, ◌%◌, ◌^◌, Bool, true, false, not, ◌&&◌, ◌||◌, List, [], ◌∷◌,
  ◌++◌, bit_and, bit_or, get_or, set, Option, none, some, Result, ok, err, ◌>>=◌, length, leb, ltb,
  ◌==◌, if◌then◌else◌,
}
use nexo_os.Nexofs.{
  name_max, inode_size, block_size, ndirect, ptrs_per_block, FsError, corrupted, inode_number,
  no_space, invalid_name, too_big,
}
use nexo_os.Nexofs.Codec.{Superblock, same_bytes}

-- `b'/'` and `b'.'`.
abbrev pub slash : ℕ
slash = 47

abbrev pub dot : ℕ
dot = 46

unfoldable pub has_byte : ℕ → List ℕ → Bool
has_byte c [] = false
has_byte c (x ∷ xs) = (x == c) || has_byte c xs

unfoldable pub valid_name : List ℕ → Result FsError (Unit {0})
unfolding has_byte same_bytes
valid_name text =
    if (length text == 0)
      || ltb name_max (length text)
      || has_byte slash text
      || same_bytes text (dot ∷ [])
      || same_bytes text (dot ∷ dot ∷ [])
    then err invalid_name
    else ok tt

-- The path without the slashes at its end.
unfoldable pub trim_step : ℕ → List ℕ → List ℕ
trim_step c [] = if c == slash then [] else c ∷ []
trim_step c (d ∷ ds) = c ∷ d ∷ ds

unfoldable pub trim : List ℕ → List ℕ
unfolding trim_step
trim [] = []
trim (c ∷ cs) = trim_step c (trim cs)

-- At the last slash, `rposition`.
unfoldable pub cut_last : List ℕ → Option (List ℕ × List ℕ)
cut_last [] = none
cut_last (c ∷ cs) = elim (cut_last cs) [
  | some (parent, text) ↦ some (c ∷ parent, text)
  | none ↦ if c == slash then some ([], cs) else none
]

-- The parent and the name.
unfoldable pub halves : List ℕ → List ℕ × List ℕ
unfolding cut_last
halves trimmed = elim (cut_last trimmed) [ none ↦ ([], trimmed) | some pair ↦ pair ]

unfoldable pub split_parent : List ℕ → Result FsError (List ℕ × List ℕ)
unfolding trim halves valid_name
split_parent path =
    let (parent, text) = halves (trim path) in valid_name text >>= λ u. ok (parent, text)

pub record Volume : Type 0 where
  pub sb : Superblock
  pub bitmap : List ℕ

-- `self.bitmap[b / 8] & (1 << (b % 8)) != 0`. (Past the storage the source panics.)
unfoldable pub bit : List ℕ → ℕ → Bool
bit bitmap b = not (bit_and (get_or bitmap (b / 8) 0) (2 ^ (b % 8)) == 0)

-- `|= m` and `&= !m`, on a byte.
unfoldable pub set_bit : Volume → ℕ → Bool → Volume
set_bit v b on =
    let i = b / 8 in
    let m = 2 ^ (b % 8) in
    let byte = get_or v.bitmap i 0 in
    record v {
      bitmap = set v.bitmap i (if on then bit_or byte m else bit_and byte (2 ^ 8 - 1 - m));
    }

-- The loop of `alloc_block`, over `n` blocks from `b`.
unfoldable pub first_free : List ℕ → ℕ → ℕ → Option ℕ
unfolding bit
first_free bitmap b zero = none
first_free bitmap b (suc n) =
    let rest = first_free bitmap (b + 1) n in if not (bit bitmap b) then some b else rest

unfoldable pub alloc_block : Volume → Result FsError (Volume × ℕ)
unfolding first_free set_bit
alloc_block v = elim (first_free v.bitmap v.sb.data_start (v.sb.total_blocks - v.sb.data_start)) [
  | none ↦ err no_space
  | some b ↦ ok (set_bit v b true, b)
]

unfoldable pub free_block : Volume → ℕ → Volume
unfolding set_bit
free_block v b = if leb v.sb.data_start b && ltb b v.sb.total_blocks then set_bit v b false else v

-- The count of `info`.
unfoldable pub count_free : List ℕ → ℕ → ℕ → ℕ
unfolding bit
count_free bitmap b zero = 0
count_free bitmap b (suc n) = (if bit bitmap b then 0 else 1) + count_free bitmap (b + 1) n

unfoldable pub free_blocks : Volume → ℕ
unfolding count_free
free_blocks v = count_free v.bitmap v.sb.data_start (v.sb.total_blocks - v.sb.data_start)

-- The block of an inode and its offset there.
unfoldable pub inode_pos : Superblock → ℕ → Result FsError (ℕ × ℕ)
inode_pos sb ino =
    if (ino == 0) || leb sb.inode_count ino
    then err (corrupted inode_number)
    else ok (sb.inode_start + ino * inode_size / block_size, ino * inode_size % block_size)
