-- ===== src/Nexofs/Codec/Inodes.antt =====
-- The inodes of libraries/nexofs/src/lib.rs survive the disk.
use nexo_os.Prelude.{
  ℕ, zero, suc, ◌+◌, ◌*◌, ◌^◌, ◌≤◌, ◌<◌, ◌≡◌, refl, sym, ap, ◌∙◌, ◌⊎◌, inl, false, List, [], ◌∷◌,
  ok, arith, ◌==◌, All, length,
}
use nexo_os.Nexofs.{ndirect, Bytes, zeros, crc32, slice, u32_at, u64_at, put_le, put32, put64}
use nexo_os.Nexofs.Bytes.{
  crc32-lt, u32_at-put32, u64_at-put64, u64_at-put64_ne, u64_at-put32_ne, put_le-out, slice-put32,
  digits32,
}
use nexo_os.Nexofs.Codec.{
  Inode, free_inode, read_pointers, put_pointers, decode_inode, inode_fields, encode_inode,
}

pointers-out : (b : Bytes) (o : ℕ) (ps : List ℕ) (i : ℕ) → i < o → put_pointers b o ps i ≡ b i
unfolding put_pointers put64
pointers-out b o [] i h = refl
pointers-out b o (p ∷ ps) i h =
    pointers-out (put64 b o p) (o + 8) ps i (omega arith) ∙ put_le-out 8 b o p i (inl h)

u64_at-pointers :
    (b : Bytes) (o : ℕ) (ps : List ℕ) (p : ℕ)
    → p + 8 ≤ o
    → u64_at (put_pointers b o ps) p ≡ u64_at b p
unfolding put_pointers
u64_at-pointers b o [] p h = refl
u64_at-pointers b o (q ∷ ps) p h =
    u64_at-pointers (put64 b o q) (o + 8) ps p (omega arith) ∙ u64_at-put64_ne b o q p (inl h)

-- What is written as pointers is read back.
pointers-back :
    (b : Bytes) (o : ℕ) (ps : List ℕ)
    → All (λ p. p < 2 ^ 64) ps
    → read_pointers (put_pointers b o ps) o (length ps) ≡ ps
unfolding read_pointers put_pointers
pointers-back b o [] h = refl
pointers-back b o (p ∷ ps) (h, hs) =
    let e = u64_at-pointers (put64 b o p) (o + 8) ps o (omega arith) ∙ u64_at-put64 b o p h in
    rw (e, pointers-back (put64 b o p) (o + 8) ps hs)

read_pointers-put64 :
    (b : Bytes) (o v p n : ℕ)
    → p + 8 * n ≤ o
    → read_pointers (put64 b o v) p n ≡ read_pointers b p n
unfolding read_pointers
read_pointers-put64 b o v p zero h = refl
read_pointers-put64 b o v p (suc n) h =
    rw (
      u64_at-put64_ne b o v p (inl (omega arith)),
      read_pointers-put64 b o v (p + 8) n (omega arith),
    )

read_pointers-put32 :
    (b : Bytes) (o v p n : ℕ)
    → p + 8 * n ≤ o
    → read_pointers (put32 b o v) p n ≡ read_pointers b p n
unfolding read_pointers
read_pointers-put32 b o v p zero h = refl
read_pointers-put32 b o v p (suc n) h =
    rw (
      u64_at-put32_ne b o v p (inl (omega arith)),
      read_pointers-put32 b o v (p + 8) n (omega arith),
    )

-- An inode in use whose fields fit where they are written.
pub record IsInode (inode : Inode) : Type 0 where
  pub in_use : (inode.kind ≡ 1) ⊎ (inode.kind ≡ 2)
  pub size_fits : inode.size < 2 ^ 64
  pub twelve : length inode.direct ≡ ndirect
  pub direct_fit : All (λ p. p < 2 ^ 64) inode.direct
  pub indirect_fits : inode.indirect < 2 ^ 64
  pub generation_fits : inode.generation < 2 ^ 32

module _ (inode : Inode) (v : IsInode inode) (c : ℕ) where
  abbrev head : Bytes
  head = put64 (put32 zeros 0 inode.kind) 8 inode.size

  abbrev table : Bytes
  table = put_pointers head 16 inode.direct

  abbrev tail : Bytes
  tail = put64 table 112 inode.indirect

  abbrev whole : Bytes
  whole = put32 (inode_fields inode) 124 c

  kind_back : u32_at whole 0 ≡ inode.kind
  unfolding u32_at inode_fields put64 put32 put_le
  kind_back =
      let at = λ (i : ℕ) (h : i < 16). pointers-out head 16 inode.direct i h in
      let k : inode.kind < 2 ^ 32 = let u = v.in_use in ground arith in
      rw (at 0 (omega arith), at 1 (omega arith), at 2 (omega arith), at 3 (omega arith))
        (digits32 inode.kind k)

  size_back : u64_at whole 8 ≡ inode.size
  unfolding inode_fields
  size_back =
      u64_at-put32_ne (inode_fields inode) 124 c 8 (inl (omega arith))
      ∙ u64_at-put32_ne tail 120 inode.generation 8 (inl (omega arith))
      ∙ u64_at-put64_ne table 112 inode.indirect 8 (inl (omega arith))
      ∙ u64_at-pointers head 16 inode.direct 8 (omega arith)
      ∙ u64_at-put64 (put32 zeros 0 inode.kind) 8 inode.size v.size_fits

  direct_back : read_pointers whole 16 ndirect ≡ inode.direct
  unfolding inode_fields
  direct_back =
      let e = pointers-back head 16 inode.direct v.direct_fit in
      read_pointers-put32 (inode_fields inode) 124 c 16 12 (omega arith)
      ∙ read_pointers-put32 tail 120 inode.generation 16 12 (omega arith)
      ∙ read_pointers-put64 table 112 inode.indirect 16 12 (omega arith)
      ∙ rw (← v.twelve) e

  indirect_back : u64_at whole 112 ≡ inode.indirect
  unfolding inode_fields
  indirect_back =
      u64_at-put32_ne (inode_fields inode) 124 c 112 (inl (omega arith))
      ∙ u64_at-put32_ne tail 120 inode.generation 112 (inl (omega arith))
      ∙ u64_at-put64 table 112 inode.indirect v.indirect_fits

  generation_back : u32_at whole 120 ≡ inode.generation
  unfolding inode_fields u32_at put32 put_le
  generation_back = digits32 inode.generation v.generation_fits

decode-ok :
    (b : Bytes) (inode : Inode)
    → (inode.kind ≡ 1) ⊎ (inode.kind ≡ 2)
    → u32_at b 124 ≡ crc32 (slice b 0 124)
    → u32_at b 0 ≡ inode.kind
    → u64_at b 8 ≡ inode.size
    → read_pointers b 16 ndirect ≡ inode.direct
    → u64_at b 112 ≡ inode.indirect
    → u32_at b 120 ≡ inode.generation
    → decode_inode b ≡ ok inode
unfolding decode_inode
decode-ok b inode u c k s d i g = ground arith

in_use_back : (inode : Inode) → IsInode inode → decode_inode (encode_inode inode) ≡ ok inode
unfolding encode_inode
in_use_back inode v =
    let f = inode_fields inode in
    let c = crc32 (slice f 0 124) in
    let used : (inode.kind == 0) ≡ false = let u = v.in_use in ground arith in
    let sum =
      u32_at-put32 f 124 c (crc32-lt (slice f 0 124))
      ∙ ap crc32 (sym (slice-put32 f 124 c 0 124 (inl (omega arith)))) in
    rw (encode_inode, used)
      (decode-ok (put32 f 124 c) inode v.in_use sum (kind_back inode v c) (size_back inode v c)
        (direct_back inode v c) (indirect_back inode v c) (generation_back inode v c))

-- An inode in use is read back from the slice that it was written to, and a free one as free.
pub decode-encode_inode :
    (inode : Inode)
    → IsInode inode
    → (decode_inode (encode_inode inode) ≡ ok inode)
      × (decode_inode (encode_inode free_inode) ≡ ok free_inode)
unfolding decode_inode encode_inode u32_at
decode-encode_inode inode v = (in_use_back inode v, refl)
