-- ===== src/Nexofs/Codec/Dirents.antt =====
-- The directory entries of libraries/nexofs/src/lib.rs survive the disk.
use nexo_os.Prelude.{
  ℕ, zero, suc, ◌+◌, ◌-◌, ◌%◌, ◌^◌, ◌≤◌, ◌<◌, ◌≡◌, ◌≢◌, refl, sym, ap, ◌∙◌, inl, inr, true, ◌&&◌,
  List, [], ◌∷◌, some, ok, arith, leb, ltb, length, get_or, take,
}
use nexo_os.Nexofs.{name_max, Bytes, zeros, crc32, slice, u32_at, put_le, put32, copy_at}
use nexo_os.Nexofs.Bytes.{crc32-lt, u32_at-put32, put_le-out, slice-put32, digits32}
use nexo_os.Nexofs.Codec.{Dirent, name, checked, decode_dirent, dirent_fields, encode_dirent}

copy_at-in :
    (b : Bytes) (o : ℕ) (xs : List ℕ) (k : ℕ)
    → k < length xs
    → copy_at b o xs (o + k) ≡ get_or xs k 0
unfolding copy_at
copy_at-in b o xs k h =
    let e : o + k - o ≡ k = omega arith in
    let t : (leb o (o + k) && ltb (o + k) (o + length xs)) ≡ true = ground arith in
    rw (copy_at, t, e)

-- A list that stands in a block is read from there.
take-slice :
    (f : Bytes) (o m : ℕ) (xs : List ℕ)
    → length xs ≤ m
    → ((k : ℕ) → k < length xs → f (o + k) ≡ get_or xs k 0)
    → take (length xs) (slice f o m) ≡ xs
unfolding slice
take-slice f o m [] h e = refl
take-slice f o zero (x ∷ xs) h e = absurd (omega arith)
take-slice f o (suc m) (x ∷ xs) h e =
    let here : f o ≡ x = ap f (omega arith) ∙ e 0 (omega arith) in
    let next : (k : ℕ) → k < length xs → f (o + 1 + k) ≡ get_or xs k 0 =
      λ k l. ap f (omega arith) ∙ e (suc k) (omega arith) in
    rw (here, take-slice f (o + 1) m xs (omega arith) next)

decode-ok :
    (b : Bytes) (ino n : ℕ)
    → ino ≢ 0
    → n ≢ 0
    → n ≤ name_max
    → u32_at b 4 ≡ crc32 (checked b)
    → u32_at b 0 ≡ ino
    → b 8 ≡ n
    → decode_dirent b ≡ ok (some (record { ino = ino; name_bytes = slice b 9 55; len = n }))
unfolding decode_dirent
decode-ok b ino n i m h c e l = ground arith

module _ (ino : ℕ) (text : List ℕ) (named : ino ≢ 0) (fits : ino < 2 ^ 32)
    (some_text : 1 ≤ length text) (short : length text ≤ name_max) (c : ℕ) where
  abbrev whole : Bytes
  whole = put32 (dirent_fields ino text) 4 c

  ino_back : u32_at whole 0 ≡ ino
  unfolding u32_at dirent_fields copy_at put32 put_le
  ino_back = digits32 ino fits

  len_back : whole 8 ≡ length text
  unfolding dirent_fields copy_at put32 put_le
  len_back = omega arith

  text_back : take (length text) (slice whole 9 55) ≡ text
  unfolding dirent_fields
  text_back = take-slice whole 9 55 text short λ k h.
      put_le-out 4 (dirent_fields ino text) 4 c (9 + k) (inr (omega arith))
      ∙ copy_at-in (copy_at (put32 zeros 0 ino) 8 (length text % 2 ^ 8 ∷ [])) 9 text k h

  sum_back : c ≡ crc32 (checked (dirent_fields ino text)) → u32_at whole 4 ≡ crc32 (checked whole)
  sum_back e =
      let f = dirent_fields ino text in
      let same : checked whole ≡ checked f =
        rw
          (slice-put32 f 4 c 0 4 (inl (omega arith)), slice-put32 f 4 c 8 56 (inr (omega arith))) in
      u32_at-put32 f 4 c (rw e (crc32-lt (checked f))) ∙ e ∙ ap crc32 (sym same)

-- An entry of a name that may be given is read back as that inode and that name.
pub decode-encode_dirent :
    (ino : ℕ) (text : List ℕ)
    → ino ≢ 0
    → ino < 2 ^ 32
    → 1 ≤ length text
    → length text ≤ name_max
    → (e : Dirent) × (decode_dirent (encode_dirent ino text) ≡ ok (some e))
      × (e.ino ≡ ino)
      × (name e ≡ text)
unfolding encode_dirent name
decode-encode_dirent ino text n f s h =
    let c = crc32 (checked (dirent_fields ino text)) in
    (
      _,
      decode-ok (whole ino text n f s h c) ino (length text) n (λ z. omega arith) h
          (sum_back ino text n f s h c refl) (ino_back ino text n f s h c)
          (len_back ino text n f s h c),
      refl,
      text_back ino text n f s h c,
    )
