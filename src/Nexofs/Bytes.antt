-- ===== src/Nexofs/Bytes.antt =====
-- Numbers in the blocks of libraries/nexofs/src/lib.rs: what is written is read back, and a write
-- leaves the rest as it was.
use nexo_os.Prelude.{
  ℕ, zero, suc, ◌+◌, ◌-◌, ◌*◌, ◌/◌, ◌%◌, ◌^◌, ◌≤◌, ◌<◌, ◌≡◌, refl, ◌⊎◌, true, ◌&&◌, List, arith,
  leb, ltb,
}
use nexo_os.Nexofs.{Bytes, crc32, slice, u32_at, u64_at, put_le, put32, put64}

-- A checksum is a number of 32 bits.
pub crc32-lt : (xs : List ℕ) → crc32 xs < 2 ^ 32
unfolding crc32
crc32-lt xs = omega arith

pub put_le-in :
    (n : ℕ) (b : Bytes) (o v k : ℕ) → k < n → put_le n b o v (o + k) ≡ v / 2 ^ (8 * k) % 2 ^ 8
unfolding put_le
put_le-in n b o v k h =
    let e : o + k - o ≡ k = omega arith in
    let t : (leb o (o + k) && ltb (o + k) (o + n)) ≡ true = ground arith in rw (put_le, t, e)

put_le-at :
    (n : ℕ) (b : Bytes) (o v k i : ℕ)
    → i ≡ o + k
    → k < n
    → put_le n b o v i ≡ v / 2 ^ (8 * k) % 2 ^ 8
put_le-at n b o v k i e h = rw e (put_le-in n b o v k h)

put_le-start : (n : ℕ) (b : Bytes) (o v : ℕ) → 0 < n → put_le n b o v o ≡ v % 2 ^ 8
unfolding put_le
put_le-start n b o v h =
    let e : o - o ≡ 0 = omega arith in
    let t : (leb o o && ltb o (o + n)) ≡ true = ground arith in rw (put_le, t, e) (omega arith)

pub put_le-out : (n : ℕ) (b : Bytes) (o v i : ℕ) → (i < o) ⊎ (o + n ≤ i) → put_le n b o v i ≡ b i
unfolding put_le
put_le-out n b o v i h = ground arith

-- A word written is read back.
pub u32_at-put32 : (b : Bytes) (o v : ℕ) → v < 2 ^ 32 → u32_at (put32 b o v) o ≡ v
unfolding u32_at put32
u32_at-put32 b o v h = omega (
  arith,
  put_le-start 4 b o v (omega arith),
  put_le-in 4 b o v 1 (omega arith),
  put_le-in 4 b o v 2 (omega arith),
  put_le-in 4 b o v 3 (omega arith),
)

low_word : (b : Bytes) (o v : ℕ) → u32_at (put64 b o v) o ≡ v % 2 ^ 32
unfolding u32_at put64
low_word b o v = omega (
  arith,
  put_le-start 8 b o v (omega arith),
  put_le-in 8 b o v 1 (omega arith),
  put_le-in 8 b o v 2 (omega arith),
  put_le-in 8 b o v 3 (omega arith),
)

high_word : (b : Bytes) (o v : ℕ) → u32_at (put64 b o v) (o + 4) ≡ v / 2 ^ 32 % 2 ^ 32
unfolding u32_at put64
high_word b o v = omega (
  arith,
  put_le-in 8 b o v 4 (omega arith),
  put_le-at 8 b o v 5 (o + 4 + 1) (omega arith) (omega arith),
  put_le-at 8 b o v 6 (o + 4 + 2) (omega arith) (omega arith),
  put_le-at 8 b o v 7 (o + 4 + 3) (omega arith) (omega arith),
)

pub u64_at-put64 : (b : Bytes) (o v : ℕ) → v < 2 ^ 64 → u64_at (put64 b o v) o ≡ v
unfolding u64_at
u64_at-put64 b o v h = omega (arith, low_word b o v, high_word b o v)

-- A word elsewhere is as before.
pub u32_at-put32_ne :
    (b : Bytes) (o v p : ℕ) → (p + 4 ≤ o) ⊎ (o + 4 ≤ p) → u32_at (put32 b o v) p ≡ u32_at b p
unfolding u32_at put32 put_le
u32_at-put32_ne b o v p h = ground arith

pub u32_at-put64_ne :
    (b : Bytes) (o v p : ℕ) → (p + 4 ≤ o) ⊎ (o + 8 ≤ p) → u32_at (put64 b o v) p ≡ u32_at b p
unfolding u32_at put64 put_le
u32_at-put64_ne b o v p h = ground arith

pub u64_at-put32_ne :
    (b : Bytes) (o v p : ℕ) → (p + 8 ≤ o) ⊎ (o + 4 ≤ p) → u64_at (put32 b o v) p ≡ u64_at b p
unfolding u64_at
u64_at-put32_ne b o v p h =
    omega
      (arith, u32_at-put32_ne b o v p (ground arith), u32_at-put32_ne b o v (p + 4) (ground arith))

pub u64_at-put64_ne :
    (b : Bytes) (o v p : ℕ) → (p + 8 ≤ o) ⊎ (o + 8 ≤ p) → u64_at (put64 b o v) p ≡ u64_at b p
unfolding u64_at
u64_at-put64_ne b o v p h =
    omega
      (arith, u32_at-put64_ne b o v p (ground arith), u32_at-put64_ne b o v (p + 4) (ground arith))

-- A slice that ends before a word is as before.
pub slice-put32 :
    (b : Bytes) (o v p n : ℕ) → (p + n ≤ o) ⊎ (o + 4 ≤ p) → slice (put32 b o v) p n ≡ slice b p n
unfolding slice put32
slice-put32 b o v p zero h = refl
slice-put32 b o v p (suc n) h =
    ground (arith, put_le-out 4 b o v p (ground arith), slice-put32 b o v (p + 1) n (ground arith))

pub slice-put64 :
    (b : Bytes) (o v p n : ℕ) → (p + n ≤ o) ⊎ (o + 8 ≤ p) → slice (put64 b o v) p n ≡ slice b p n
unfolding slice put64
slice-put64 b o v p zero h = refl
slice-put64 b o v p (suc n) h =
    ground (arith, put_le-out 8 b o v p (ground arith), slice-put64 b o v (p + 1) n (ground arith))

-- The digits of a number give it back.
pub digits32 :
    (v : ℕ)
    → v < 2 ^ 32
    → v / 1 % 2 ^ 8
        + v / 2 ^ 8 % 2 ^ 8 * 2 ^ 8
        + v / 2 ^ 16 % 2 ^ 8 * 2 ^ 16
        + v / 2 ^ 24 % 2 ^ 8 * 2 ^ 24
      ≡ v
digits32 v h = omega arith

pub digits64 :
    (v : ℕ)
    → v < 2 ^ 64
    → v / 1 % 2 ^ 8
        + v / 2 ^ 8 % 2 ^ 8 * 2 ^ 8
        + v / 2 ^ 16 % 2 ^ 8 * 2 ^ 16
        + v / 2 ^ 24 % 2 ^ 8 * 2 ^ 24
        + (v / 2 ^ 32 % 2 ^ 8
            + v / 2 ^ 40 % 2 ^ 8 * 2 ^ 8
            + v / 2 ^ 48 % 2 ^ 8 * 2 ^ 16
            + v / 2 ^ 56 % 2 ^ 8 * 2 ^ 24)
          * 2 ^ 32
      ≡ v
digits64 v h = omega arith
