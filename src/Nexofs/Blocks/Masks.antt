-- ===== src/Nexofs/Blocks/Masks.antt =====
-- The bits of one byte of the bitmap of libraries/nexofs/src/lib.rs, and of the bitmap.
use nexo_os.Prelude.{
  ℕ, zero, suc, ◌-◌, ◌*◌, ◌/◌, ◌%◌, ◌^◌, ◌<◌, ◌≡◌, refl, Bool, true, false, not, ◌&&◌, ◌||◌, arith,
  ltb, ◌==◌, if◌then◌else◌, bit_and, bit_or, get_or, length, Bool-cases, inl, inr, All, All-get_or,
  All-set, get_or-set_self, get_or-set_ne, length-set, ◌∙◌,
}
use native.Mathlib.Decide.{ℕ_discrete}
use nexo_os.Nexofs.Blocks.{Volume, bit, set_bit}

-- The test holds below `n`.
abbrev all_below : ℕ → (ℕ → Bool) → Bool
all_below zero f = true
all_below (suc n) f = f n && all_below n f

below : (n : ℕ) (f : ℕ → Bool) (i : ℕ) → all_below n f ≡ true → i < n → f i ≡ true
below zero f i h l = absurd (omega arith)
below (suc n) f i h l = elim (Bool-cases (i == n)) [
  | inl e ↦ let q : i ≡ n = ground arith in rw q (ground arith)
  | inr e ↦ below n f i (ground arith) (ground arith)
]

abbrev pub bit_of : ℕ → ℕ → Bool
bit_of x k = not (bit_and x (2 ^ k) == 0)

abbrev same : Bool → Bool → Bool
same true b = b
same false b = not b

-- Setting and clearing bit `k` of a byte changes that bit alone.
abbrev masked : ℕ → ℕ → ℕ → Bool
masked x k l =
    same (bit_of (bit_or x (2 ^ k)) l) (k == l || bit_of x l)
    && same (bit_of (bit_and x (2 ^ 8 - 1 - 2 ^ k)) l) (not (k == l) && bit_of x l)
    && ltb (bit_or x (2 ^ k)) (2 ^ 8)
    && ltb (bit_and x (2 ^ 8 - 1 - 2 ^ k)) (2 ^ 8)

all_masked : all_below 256 (λ x. all_below 8 (λ k. all_below 8 (λ l. masked x k l))) ≡ true
all_masked = refl

masked_lem : (x k l : ℕ) → x < 256 → k < 8 → l < 8 → masked x k l ≡ true
masked_lem x k l a b c =
    below 8 (λ m. masked x k m) l
      (below 8 (λ j. all_below 8 (λ m. masked x j m)) k
        (below 256 (λ y. all_below 8 (λ j. all_below 8 (λ m. masked y j m))) x all_masked a) b)
      c

-- The byte that `set_bit` writes.
abbrev pub written : ℕ → ℕ → Bool → ℕ
written x k on = if on then bit_or x (2 ^ k) else bit_and x (2 ^ 8 - 1 - 2 ^ k)

bit_of-written :
    (x k l : ℕ) (on : Bool)
    → x < 256
    → k < 8
    → l < 8
    → (bit_of (written x k on) l ≡ (if k == l then on else bit_of x l)) × (written x k on < 256)
bit_of-written x k l true a b c = ground (arith, masked_lem x k l a b c)
bit_of-written x k l false a b c = ground (arith, masked_lem x k l a b c)

-- What is read of the bitmap after a write: the bit that was written, and all others as before.
pub bit-set_bit :
    (v : Volume) (b i : ℕ) (on : Bool)
    → All (λ x. x < 256) v.bitmap
    → b < 8 * length v.bitmap
    → bit (set_bit v b on).bitmap i ≡ (if b == i then on else bit v.bitmap i)
unfolding bit set_bit
bit-set_bit v b i on w h =
    let x = get_or v.bitmap (b / 8) 0 in
    let x_le : x < 256 = All-get_or (λ x. x < 256) v.bitmap (b / 8) 0 w (omega arith) in
    let (read, le) = bit_of-written x (b % 8) (i % 8) on x_le (omega arith) (omega arith) in
    elim (ℕ_discrete (b / 8) (i / 8)) [
      | yes e ↦
          rw (← e, get_or-set_self v.bitmap (b / 8) (written x (b % 8) on) 0 (omega arith))
            (read ∙ same_place e)
      | no ne ↦
          rw (get_or-set_ne v.bitmap (b / 8) (i / 8) (written x (b % 8) on) 0 ne) (ground arith)
    ]
  where
    same_place :
        b / 8 ≡ i / 8
        → (if b % 8 == i % 8 then on else bit_of (get_or v.bitmap (b / 8) 0) (i % 8))
          ≡ (if b == i then on else bit_of (get_or v.bitmap (b / 8) 0) (i % 8))
    same_place e = ground arith

-- The bytes stay bytes.
pub set_bit-All :
    (v : Volume) (b : ℕ) (on : Bool)
    → All (λ x. x < 256) v.bitmap
    → b < 8 * length v.bitmap
    → All (λ x. x < 256) (set_bit v b on).bitmap
unfolding set_bit
set_bit-All v b on w h =
    let x_le = All-get_or (λ x. x < 256) v.bitmap (b / 8) 0 w (omega arith) in
    All-set (λ x. x < 256) v.bitmap (b / 8) _ w
      (bit_of-written (get_or v.bitmap (b / 8) 0) (b % 8) 0 on x_le (omega arith) (omega arith)).1

pub length-set_bit :
    (v : Volume) (b : ℕ) (on : Bool) → length (set_bit v b on).bitmap ≡ length v.bitmap
unfolding set_bit
length-set_bit v b on = length-set v.bitmap (b / 8) _
