-- ===== src/Frames/Bits.antt =====
-- Laws of the bitmap words of kernel/lib/mm/src/bitmap.rs: reads after writes, and counts.
use nexo_os.Prelude.{
  ℕ, zero, suc, ◌+◌, ◌*◌, ◌/◌, ◌%◌, ◌≤◌, ◌<◌, ◌≡◌, refl, ◌⊎◌, inl, inr, Bool, true, false, List, [],
  ◌∷◌, arith, length, get_or, set, replicate, length-set, get_or-set_self, get_or-set_ne, All,
  All-get_or, All-set, ◌==◌, if◌then◌else◌,
}
use native.Mathlib.Decide.{ℕ_discrete}
use nexo_os.Frames.{Word, bit, put, is_full, trailing_ones}

-- The words of a bitmap have 64 bits each.
abbrev pub IsShaped : List Word → Type 0
IsShaped ws = All (λ w. length w ≡ 64) ws

abbrev pub tally : Bool → Bool → ℕ
tally true true = 1
tally false false = 1
tally true false = 0
tally false true = 0

-- How many bits of a word, and of a bitmap, are `b`.
pub count : Bool → Word → ℕ
count b [] = 0
count b (x ∷ w) = tally b x + count b w

pub total : Bool → List Word → ℕ
total b [] = 0
total b (w ∷ ws) = count b w + total b ws

count-set :
    (b : Bool) (w : Word) (i : ℕ) (v d : Bool)
    → i < length w
    → count b (set w i v) + tally b (get_or w i d) ≡ count b w + tally b v
unfolding count
count-set b [] i v d h = absurd (omega arith)
count-set b (x ∷ w) zero v d h = omega arith
count-set b (x ∷ w) (suc i) v d h = omega (arith, count-set b w i v d (omega arith))

total-set :
    (b : Bool) (ws : List Word) (k : ℕ) (w : Word)
    → k < length ws
    → total b (set ws k w) + count b (get_or ws k []) ≡ total b ws + count b w
unfolding total
total-set b [] k w h = absurd (omega arith)
total-set b (x ∷ ws) zero w h = omega arith
total-set b (x ∷ ws) (suc k) w h = omega (arith, total-set b ws k w (omega arith))

pub total-put :
    (b : Bool) (ws : List Word) (f : ℕ) (v : Bool)
    → IsShaped ws
    → f < 64 * length ws
    → total b (put ws f v) + tally b (bit ws f) ≡ total b ws + tally b v
unfolding put bit
total-put b ws f v s h =
    let long : length (get_or ws (f / 64) []) ≡ 64 =
      All-get_or (λ w. length w ≡ 64) ws (f / 64) [] s (omega arith) in
    omega (
      arith,
      total-set b ws (f / 64) (set (get_or ws (f / 64) []) (f % 64) v) (omega arith),
      count-set b (get_or ws (f / 64) []) (f % 64) v true (omega arith),
    )

pub length-put : (ws : List Word) (f : ℕ) (v : Bool) → length (put ws f v) ≡ length ws
unfolding put
length-put ws f v = length-set ws (f / 64) _

pub put-IsShaped :
    (ws : List Word) (f : ℕ) (v : Bool) → IsShaped ws → f < 64 * length ws → IsShaped (put ws f v)
unfolding put
put-IsShaped ws f v s h =
    All-set (λ w. length w ≡ 64) ws (f / 64) _ s
      (rw length-set (All-get_or (λ w. length w ≡ 64) ws (f / 64) [] s (omega arith)))

-- A write at `f` is read at `f` alone.
pub bit-put :
    (ws : List Word) (f g : ℕ) (v : Bool)
    → IsShaped ws
    → f < 64 * length ws
    → bit (put ws f v) g ≡ (if f == g then v else bit ws g)
unfolding put bit
bit-put ws f g v s h = elim (ℕ_discrete (f / 64) (g / 64)) [
  | yes e ↦
      let long : length (get_or ws (g / 64) []) ≡ 64 =
        All-get_or (λ w. length w ≡ 64) ws (g / 64) [] s (omega arith) in
      rw (e, get_or-set_self ws (g / 64) (set (get_or ws (g / 64) []) (f % 64) v) [] (omega arith))
        (same e long)
  | no ne ↦
      rw (get_or-set_ne ws (f / 64) (g / 64) (set (get_or ws (f / 64) []) (f % 64) v) [] ne)
        (ground arith)
]
  where
    same :
        f / 64 ≡ g / 64
        → length (get_or ws (g / 64) []) ≡ 64
        → get_or (set (get_or ws (g / 64) []) (f % 64) v) (g % 64) true
          ≡ (if f == g then v else get_or (get_or ws (g / 64) []) (g % 64) true)
    same e long = ground (
      arith,
      get_or-set_self (get_or ws (g / 64) []) (f % 64) v true,
      get_or-set_ne (get_or ws (g / 64) []) (f % 64) (g % 64) v true,
    )

-- A word that is not full has a zero at `trailing_ones`, and none below.
pub bit-trailing_ones : (w : Word) → is_full w ≡ false → get_or w (trailing_ones w) true ≡ false
unfolding is_full trailing_ones
bit-trailing_ones [] h = ground arith
bit-trailing_ones (true ∷ w) h = bit-trailing_ones w h
bit-trailing_ones (false ∷ w) h = refl

pub trailing_ones-lt : (w : Word) → is_full w ≡ false → trailing_ones w < length w
unfolding is_full trailing_ones
trailing_ones-lt [] h = absurd (ground arith)
trailing_ones-lt (true ∷ w) h = omega (arith, trailing_ones-lt w h)
trailing_ones-lt (false ∷ w) h = omega arith

pub trailing_ones-le :
    (w : Word) (i : ℕ) → get_or w i true ≡ false → (is_full w ≡ false) × (trailing_ones w ≤ i)
unfolding is_full trailing_ones
trailing_ones-le [] i h = absurd (ground arith)
trailing_ones-le (true ∷ w) zero h = absurd (ground arith)
trailing_ones-le (true ∷ w) (suc i) h = ground (arith, trailing_ones-le w i h)
trailing_ones-le (false ∷ w) i h = (refl, omega arith)

total-replicate : (b : Bool) (n : ℕ) (w : Word) → count b w ≡ 0 → total b (replicate n w) ≡ 0
unfolding total
total-replicate b zero w h = refl
total-replicate b (suc n) w h = omega (arith, total-replicate b n w h)

pub replicate-IsShaped : (n : ℕ) (v : Bool) → IsShaped (replicate n (replicate 64 v))
replicate-IsShaped zero v = tt
replicate-IsShaped (suc n) v = (refl, replicate-IsShaped n v)

get_or-replicate {ℓ} :
    {A : Type ℓ} (n i : ℕ) (a d : A)
    → (get_or (replicate n a) i d ≡ a) ⊎ (get_or (replicate n a) i d ≡ d)
get_or-replicate zero i a d = inr refl
get_or-replicate (suc n) zero a d = inl refl
get_or-replicate (suc n) (suc i) a d = get_or-replicate n i a d

-- A bitmap of ones has no zero.
pub bit-ones : (n f : ℕ) → bit (replicate n (replicate 64 true)) f ≡ true
unfolding bit
bit-ones n f = elim (get_or-replicate n (f / 64) (replicate 64 true) []) [
  | inl e ↦ rw e (elim (get_or-replicate 64 (f % 64) true true) [ inl p ↦ p | inr p ↦ p ])
  | inr e ↦ rw e
]

pub total-ones : (n : ℕ) → total false (replicate n (replicate 64 true)) ≡ 0
unfolding count
total-ones n = total-replicate false n _ refl

pub total-zeros : (n : ℕ) → total true (replicate n (replicate 64 false)) ≡ 0
unfolding count
total-zeros n = total-replicate true n _ refl
