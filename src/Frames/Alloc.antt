-- ===== src/Frames/Alloc.antt =====
-- What `allocate` and `free` of kernel/lib/mm/src/bitmap.rs promise of single frames.
use nexo_os.Prelude.{
  ℕ, zero, suc, ◌+◌, ◌-◌, ◌*◌, ◌/◌, ◌%◌, ◌≤◌, ◌<◌, ◌≡◌, refl, ◌⊎◌, inl, inr, true, false, [],
  Option, none, some, arith, length, get_or, ◌==◌, leb, if◌then◌else◌, Bool-cases, All-get_or,
}
use native.Mathlib.Nat.{mod-lt, mod-eq_of_lt, mod-eq-sub-mod}
use native.Mathlib.Decide.{ℕ_discrete}
use nexo_os.Frames.{Allocator, page_size, bit, is_full, trailing_ones, scan, take_frame, allocate}
use nexo_os.Frames.Bits.{bit-trailing_ones, trailing_ones-lt, trailing_ones-le}
use nexo_os.Frames.Inv.{IsValid, bit-put_bits, total_taken, take-IsValid}

-- The first zero of word `w`, read as a frame.
frame_of_word :
    (a : Allocator) (w : ℕ)
    → IsValid a
    → w < length a.bits
    → is_full (get_or a.bits w []) ≡ false
    → bit a.bits (w * 64 + trailing_ones (get_or a.bits w [])) ≡ false
unfolding bit
frame_of_word a w v h e =
    let long : length (get_or a.bits w []) ≡ 64 =
      All-get_or (λ u. length u ≡ 64) a.bits w [] v.shaped_bits h in
    let short = trailing_ones-lt (get_or a.bits w []) e in
    let q : (w * 64 + trailing_ones (get_or a.bits w [])) / 64 ≡ w = omega arith in
    let r : (w * 64 + trailing_ones (get_or a.bits w [])) % 64
        ≡ trailing_ones (get_or a.bits w []) =
      omega arith in
    rw (q, r) (bit-trailing_ones (get_or a.bits w []) e)

-- A free frame makes its word's first zero a frame that is no later.
word_of_frame :
    (a : Allocator) (f w : ℕ)
    → f / 64 ≡ w
    → bit a.bits f ≡ false
    → (is_full (get_or a.bits w []) ≡ false) × (w * 64 + trailing_ones (get_or a.bits w []) ≤ f)
unfolding bit
word_of_frame a f w e z =
    let z' : get_or (get_or a.bits w []) (f % 64) true ≡ false = rw e at z in
    let t = trailing_ones-le (get_or a.bits w []) (f % 64) z' in (t.0, omega arith)

-- What the loop finds is a free frame of the word that it names.
scan_sound :
    (a : Allocator) (n step w frame : ℕ)
    → IsValid a
    → 0 < length a.bits
    → scan a n step ≡ some (w, frame)
    → (frame < a.capacity) × (bit a.bits frame ≡ false) × (w < length a.bits)
unfolding scan
scan_sound a zero step w frame v p h = ground arith
scan_sound a (suc n) step w frame v p h =
    let lt : (a.hint + step) % length a.bits < length a.bits = mod-lt _ p in
    ground (
      arith,
      frame_of_word a ((a.hint + step) % length a.bits) v lt,
      scan_sound a n (step + 1) w frame v p,
    )

-- If the loop finds nothing, no word that it looked at has a free frame.
scan_complete :
    (a : Allocator) (n step k f : ℕ)
    → scan a n step ≡ none
    → step ≤ k
    → k < step + n
    → f / 64 ≡ (a.hint + k) % length a.bits
    → f < a.capacity
    → bit a.bits f ≡ true
unfolding scan
scan_complete a zero step k f h le lt e inside = absurd (omega arith)
scan_complete a (suc n) step k f h le lt e inside = elim (ℕ_discrete k step) [
  | yes q ↦
      let e' : f / 64 ≡ (a.hint + step) % length a.bits = rw (← q) e in
      ground (arith, word_of_frame a f ((a.hint + step) % length a.bits) e')
  | no ne ↦ elim (Bool-cases (bit a.bits f)) [
    | inl b ↦ b
    | inr z ↦ ground (arith, scan_complete a n (step + 1) k f)
  ]
]

-- The round at which the loop reaches word `w`.
abbrev round_of : ℕ → ℕ → ℕ → ℕ
round_of hint words w = if leb hint w then w - hint else w + words - hint

round_of_lem :
    (hint words w : ℕ)
    → hint < words
    → w < words
    → (round_of hint words w < words) × (w ≡ (hint + round_of hint words w) % words)
round_of_lem hint words w h k =
    ground (arith, mod-eq_of_lt {n = w} {m = words} k, mod-eq-sub-mod {n = w + words} {m = words})

-- Over the whole bitmap the loop finds nothing only if no frame is free.
scan-none :
    (a : Allocator) (f : ℕ)
    → IsValid a
    → scan a (length a.bits) 0 ≡ none
    → f < a.capacity
    → bit a.bits f ≡ true
scan-none a f v h inside =
    let s = v.size in
    let hi = v.hint_in in
    let r = round_of_lem a.hint (length a.bits) (f / 64) (hi (omega arith)) (omega arith) in
    scan_complete a (length a.bits) 0 (round_of a.hint (length a.bits) (f / 64)) f h (omega arith)
      (omega arith) r.1 inside

-- Frame `f` of `a` became busy in `a'`, and nothing else of the bitmaps moved.
pub record Took (a a' : Allocator) (f : ℕ) : Type 0 where
  pub inside : f < a.capacity
  pub was_usable : bit a.usable f ≡ true
  pub was_free : bit a.bits f ≡ false
  pub others : (g : ℕ) → bit a'.bits g ≡ (if f == g then true else bit a.bits g)
  pub usable_same : a'.usable ≡ a.usable
  pub capacity_same : a'.capacity ≡ a.capacity
  pub free_less : a'.stats.free + 1 ≡ a.stats.free
  pub counted : a'.stats.allocations ≡ a.stats.allocations + 1

-- `allocate` ran out: every managed frame is busy, and only the failure is counted.
pub record Exhausted (a a' : Allocator) : Type 0 where
  pub none_free : (f : ℕ) → f < a.capacity → bit a.bits f ≡ true
  pub bits_same : a'.bits ≡ a.bits
  pub usable_same : a'.usable ≡ a.usable
  pub free_same : a'.stats.free ≡ a.stats.free
  pub counted : a'.stats.failures ≡ a.stats.failures + 1

scan_cases : (o : Option (ℕ × ℕ)) → (o ≡ none) ⊎ ((w : ℕ) × (f : ℕ) × (o ≡ some (w, f)))
scan_cases none = inl refl
scan_cases (some (w, f)) = inr (w, f, refl)

no_words : (a : Allocator) → length a.bits ≡ 0 → scan a (length a.bits) 0 ≡ none
unfolding scan
no_words a e = rw e

words_pos : (a : Allocator) (w f : ℕ) → scan a (length a.bits) 0 ≡ some (w, f) → 0 < length a.bits
words_pos a w f e = ground (arith, no_words a)

took :
    (a : Allocator) (w f : ℕ)
    → IsValid a
    → scan a (length a.bits) 0 ≡ some (w, f)
    → IsValid (take_frame a (some (w, f))).0 × Took a (take_frame a (some (w, f))).0 f
unfolding take_frame
took a w f v e =
    let found = scan_sound a (length a.bits) 0 w f v (words_pos a w f e) e in
    let less = total_taken v found.0 found.1 in
    let count = v.free_count in
    (
      take-IsValid v found.0 w _ found.1 (λ _. found.2) refl refl refl,
      record {
        inside = found.0;
        was_usable = (v.free_usable f found.1).0;
        was_free = found.1;
        others = bit-put_bits v found.0 true;
        usable_same = refl;
        capacity_same = refl;
        free_less = omega arith;
        counted = refl;
      },
    )

-- What a call of the allocation may have done.
abbrev pub Allocated : Allocator → Allocator × Option ℕ → Type 0
Allocated a (a', out) =
    IsValid a'
    × (((f : ℕ) × (out ≡ some (f * page_size)) × Took a a' f) ⊎ ((out ≡ none) × Exhausted a a'))

exhausted :
    (a : Allocator) → IsValid a → scan a (length a.bits) 0 ≡ none → Allocated a (take_frame a none)
unfolding take_frame
exhausted a v e = (
  record {
    size = v.size;
    same_size = v.same_size;
    shaped_bits = v.shaped_bits;
    shaped_usable = v.shaped_usable;
    capacity_same = v.capacity_same;
    free_count = v.free_count;
    usable_count = v.usable_count;
    free_usable = v.free_usable;
    hint_in = v.hint_in;
  },
  inr (
    refl,
    record {
      none_free = λ f. scan-none a f v e;
      bits_same = refl;
      usable_same = refl;
      free_same = refl;
      counted = refl;
    },
  ),
)

served :
    (a : Allocator) (w f : ℕ)
    → IsValid a
    → scan a (length a.bits) 0 ≡ some (w, f)
    → Allocated a (take_frame a (some (w, f)))
unfolding take_frame
served a w f v e = let t = took a w f v e in (t.0, inl (f, refl, t.1))

-- On a valid allocator `allocate` keeps the invariant, and either returns the address of a usable
-- frame that was free, which becomes busy while no other frame changes, or returns nothing, and
-- then no managed frame was free.
pub allocate_lem : (a : Allocator) → IsValid a → Allocated a (allocate a)
unfolding allocate
allocate_lem a v = elim (scan_cases (scan a (length a.bits) 0)) [
  | inl e ↦ rw e (exhausted a v e)
  | inr (w, f, e) ↦ rw e (served a w f v e)
]
