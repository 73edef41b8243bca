-- ===== src/Nexofs/Tests.antt =====
-- The theorems on libraries/nexofs/src/lib.rs at a volume of 64 blocks with 32 inodes.
use nexo_os.Prelude.{ℕ, ◌≡◌, ◌⊎◌, inl, refl, true, List, [], ◌∷◌, ◌++◌, some, ok, arith, replicate}
use nexo_os.Nexofs.{crc32}
use nexo_os.Nexofs.Codec.{
  Superblock, Inode, Dirent, free_inode, name, decode_superblock, encode_superblock, decode_inode,
  encode_inode, decode_dirent, encode_dirent, is_geometry,
}
use nexo_os.Nexofs.Codec.Superblocks.{IsGeometry, decode-encode_superblock}
use nexo_os.Nexofs.Codec.Inodes.{IsInode, decode-encode_inode}
use nexo_os.Nexofs.Codec.Dirents.{decode-encode_dirent}
use nexo_os.Nexofs.Blocks.{Volume, slash, alloc_block, inode_pos, split_parent}
use nexo_os.Nexofs.Blocks.Laws.{
  IsAllocated, alloc_block-IsAllocated, IsPosition, inode_pos-IsPosition,
}
use nexo_os.Nexofs.Blocks.Paths.{IsName, split_parent_lem}

-- The checksum of "123456789" that the standard gives.
crc32-check : crc32 (49 ∷ 50 ∷ 51 ∷ 52 ∷ 53 ∷ 54 ∷ 55 ∷ 56 ∷ 57 ∷ []) ≡ 0xcbf43926
unfolding crc32
crc32-check = refl

abbrev small : Superblock
small = record {
  total_blocks = 64;
  bitmap_start = 1;
  bitmap_blocks = 1;
  inode_start = 2;
  inode_blocks = 2;
  data_start = 4;
  inode_count = 32;
  generation = 1;
}

small-is_geometry : is_geometry small ≡ true
unfolding is_geometry
small-is_geometry = refl

small-IsGeometry : IsGeometry small
small-IsGeometry = record {
  geometry = small-is_geometry;
  count_fits = omega arith;
  generation_fits = omega arith;
}

decode-encode_superblock_example : decode_superblock (encode_superblock small) ≡ ok small
decode-encode_superblock_example = decode-encode_superblock small small-IsGeometry

abbrev file : Inode
file = record {
  kind = 1;
  size = 3000;
  direct = 4 ∷ 5 ∷ 0 ∷ 0 ∷ 0 ∷ 0 ∷ 0 ∷ 0 ∷ 0 ∷ 0 ∷ 0 ∷ 0 ∷ [];
  indirect = 0;
  generation = 2;
}

file-IsInode : IsInode file
file-IsInode = record {
  in_use = inl refl;
  size_fits = omega arith;
  twelve = refl;
  direct_fit = ground arith;
  indirect_fits = omega arith;
  generation_fits = omega arith;
}

decode-encode_inode_example :
    (decode_inode (encode_inode file) ≡ ok file)
    × (decode_inode (encode_inode free_inode) ≡ ok free_inode)
decode-encode_inode_example = decode-encode_inode file file-IsInode

decode-encode_dirent_example :
    (e : Dirent) × (decode_dirent (encode_dirent 2 (97 ∷ 98 ∷ [])) ≡ ok (some e))
    × (e.ino ≡ 2)
    × (name e ≡ 97 ∷ 98 ∷ [])
decode-encode_dirent_example =
    decode-encode_dirent 2 (97 ∷ 98 ∷ []) (λ e. omega arith) (omega arith) (omega arith)
      (omega arith)

abbrev volume : Volume
volume = record { sb = small; bitmap = 63 ∷ replicate 7 0 }

alloc_block-IsAllocated_example : IsAllocated volume (alloc_block volume)
alloc_block-IsAllocated_example = alloc_block-IsAllocated volume (
  (
    omega arith,
    (
      omega arith,
      (omega arith, (omega arith, (omega arith, (omega arith, (omega arith, (omega arith, tt)))))),
    ),
  ),
  omega arith,
)

inode_pos-seventeen : inode_pos small 17 ≡ ok (3, 128)
unfolding inode_pos
inode_pos-seventeen = refl

inode_pos-IsPosition_example : IsPosition small 17 (3, 128)
inode_pos-IsPosition_example =
    inode_pos-IsPosition small 17 small-is_geometry (omega arith) inode_pos-seventeen

-- "/a/b/".
abbrev path : List ℕ
path = slash ∷ 97 ∷ slash ∷ 98 ∷ slash ∷ []

split_parent-path : split_parent path ≡ ok (slash ∷ 97 ∷ [], 98 ∷ [])
unfolding split_parent
split_parent-path = refl

split_parent_lem_example :
    ((k : ℕ) × ((path ≡ ((slash ∷ 97 ∷ []) ++ slash ∷ 98 ∷ []) ++ replicate k slash)
        ⊎ ((slash ∷ 97 ∷ [] ≡ []) × (path ≡ 98 ∷ [] ++ replicate k slash))))
    × IsName (98 ∷ [])
split_parent_lem_example = split_parent_lem path (slash ∷ 97 ∷ []) (98 ∷ []) split_parent-path
