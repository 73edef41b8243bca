-- ===== src/Nexofs/Codec/Superblocks.antt =====
-- The superblock of libraries/nexofs/src/lib.rs survives the disk.
use nexo_os.Prelude.{ℕ, ◌^◌, ◌<◌, ◌≡◌, refl, sym, ap, ◌∙◌, inl, true, ok, arith}
use nexo_os.Nexofs.{
  block_size, magic, version, Bytes, crc32, slice, u32_at, u64_at, put32, put64, put_le, copy_at,
}
use nexo_os.Nexofs.Bytes.{crc32-lt, u32_at-put32, slice-put32, digits32, digits64}
use nexo_os.Nexofs.Codec.{
  Superblock, same_bytes, is_geometry, superblock_at, decode_superblock, superblock_fields,
  encode_superblock,
}

-- What `decode` demands of a superblock, and that its counts fit where they are written.
pub record IsGeometry (sb : Superblock) : Type 0 where
  pub geometry : is_geometry sb ≡ true
  pub count_fits : sb.inode_count < 2 ^ 32
  pub generation_fits : sb.generation < 2 ^ 64

record Bounded (sb : Superblock) : Type 0 where
  pub total : sb.total_blocks < 2 ^ 64
  pub start : sb.bitmap_start < 2 ^ 64
  pub blocks : sb.bitmap_blocks < 2 ^ 64
  pub inodes : sb.inode_start < 2 ^ 64
  pub inode_blocks : sb.inode_blocks < 2 ^ 64
  pub data_blocks : sb.data_start < 2 ^ 64

bounded : (sb : Superblock) → IsGeometry sb → Bounded sb
unfolding is_geometry
bounded sb g = ground (arith, g.geometry)

module _ (sb : Superblock) (g : IsGeometry sb) where
  -- Every field is read back, whatever the checksum.
  fields_back : (c : ℕ) → superblock_at (put32 (superblock_fields sb) 80 c) ≡ sb
  unfolding superblock_at superblock_fields u64_at u32_at put64 put32 put_le copy_at
  fields_back c =
      let b = bounded sb g in
      λ i. record {
        total_blocks = digits64 sb.total_blocks b.total i;
        bitmap_start = digits64 sb.bitmap_start b.start i;
        bitmap_blocks = digits64 sb.bitmap_blocks b.blocks i;
        inode_start = digits64 sb.inode_start b.inodes i;
        inode_blocks = digits64 sb.inode_blocks b.inode_blocks i;
        data_start = digits64 sb.data_start b.data_blocks i;
        inode_count = digits32 sb.inode_count g.count_fits i;
        generation = digits64 sb.generation g.generation_fits i;
      }

  header_back :
      (c : ℕ)
      → let e = put32 (superblock_fields sb) 80 c in
        (same_bytes (slice e 0 8) magic ≡ true)
        × (u32_at e 8 ≡ version)
        × (u32_at e 12 ≡ block_size)
  unfolding same_bytes slice superblock_fields u32_at put64 put32 put_le copy_at
  header_back c = (refl, refl, refl)

decode-ok :
    (b : Bytes) {sb : Superblock}
    → same_bytes (slice b 0 8) magic ≡ true
    → u32_at b 80 ≡ crc32 (slice b 0 80)
    → u32_at b 8 ≡ version
    → u32_at b 12 ≡ block_size
    → superblock_at b ≡ sb
    → is_geometry sb ≡ true
    → decode_superblock b ≡ ok sb
unfolding decode_superblock
decode-ok b m c v s e g = ground arith

-- A superblock that `decode` can accept is read back from the block that it was written to.
pub decode-encode_superblock :
    (sb : Superblock) → IsGeometry sb → decode_superblock (encode_superblock sb) ≡ ok sb
unfolding encode_superblock
decode-encode_superblock sb g =
    let f = superblock_fields sb in
    let c = crc32 (slice f 0 80) in
    let (m, v, s) = header_back sb g c in
    let sum =
      u32_at-put32 f 80 c (crc32-lt (slice f 0 80))
      ∙ ap crc32 (sym (slice-put32 f 80 c 0 80 (inl (omega arith)))) in
    decode-ok (put32 f 80 c) m sum v s (fields_back sb g c) g.geometry
