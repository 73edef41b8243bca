-- ===== src/Frames/Inv.antt =====
-- The invariant of `BitmapFrameAllocator` (kernel/lib/mm/src/bitmap.rs), kept by every operation.
use nexo_os.Prelude.{
  ℕ, zero, suc, ◌+◌, ◌-◌, ◌*◌, ◌/◌, ◌≤◌, ◌<◌, ◌≡◌, refl, sym, subst, ◌∙◌, ◌⊎◌, inl, inr, Bool, true,
  false, ok, arith, length, length-replicate, ◌==◌, if◌then◌else◌, Bool-cases, Result-cases, min,
}
use nexo_os.Frames.{
  FrameStats, Allocator, bit, put, words, new, frame_range, mark_usable_frame, mark_used_frame,
  for_frames, mark_usable, mark_used, release_frame,
}
use nexo_os.Frames.Bits.{
  IsShaped, total, total-put, length-put, put-IsShaped, bit-put, total-ones, total-zeros, bit-ones,
  replicate-IsShaped,
}

-- `free` counts the zeros of `bits` and `total_usable` the ones of `usable`; a zero of `bits` is a
-- usable frame below the capacity; the hint names a word.
pub record IsValid (a : Allocator) : Type 0 where
  pub size : length a.bits ≡ words a.capacity
  pub same_size : length a.usable ≡ length a.bits
  pub shaped_bits : IsShaped a.bits
  pub shaped_usable : IsShaped a.usable
  pub capacity_same : a.stats.capacity ≡ a.capacity
  pub free_count : a.stats.free ≡ total false a.bits
  pub usable_count : a.stats.total_usable ≡ total true a.usable
  pub free_usable : (f : ℕ) → bit a.bits f ≡ false → (bit a.usable f ≡ true) × (f < a.capacity)
  pub hint_in : 0 < length a.bits → a.hint < length a.bits

-- Writing one bit of a bitmap where it changes moves the count by one.
module _ {a : Allocator} (v : IsValid a) {f : ℕ} (inside : f < a.capacity) where
  pub bits_in : f < 64 * length a.bits
  bits_in = let s = v.size in omega arith

  usable_in : f < 64 * length a.usable
  usable_in = let s = v.size in let t = v.same_size in omega arith

  pub bit-put_bits :
      (b : Bool) (g : ℕ) → bit (put a.bits f b) g ≡ (if f == g then b else bit a.bits g)
  bit-put_bits b g = bit-put a.bits f g b v.shaped_bits bits_in

  pub bit-put_usable :
      (b : Bool) (g : ℕ) → bit (put a.usable f b) g ≡ (if f == g then b else bit a.usable g)
  bit-put_usable b g = bit-put a.usable f g b v.shaped_usable usable_in

  pub total_taken : bit a.bits f ≡ false → total false (put a.bits f true) + 1 ≡ total false a.bits
  total_taken e = ground (arith, total-put false a.bits f true v.shaped_bits bits_in)

  pub total_given : bit a.bits f ≡ true → total false (put a.bits f false) ≡ total false a.bits + 1
  total_given e = ground (arith, total-put false a.bits f false v.shaped_bits bits_in)

  total_usable_given :
      bit a.usable f ≡ false → total true (put a.usable f true) ≡ total true a.usable + 1
  total_usable_given e = ground (arith, total-put true a.usable f true v.shaped_usable usable_in)

  -- A frame that becomes busy keeps the invariant, whatever the hint and the other counters.
  pub take-IsValid :
      (hint : ℕ) (s : FrameStats)
      → bit a.bits f ≡ false
      → (0 < length a.bits → hint < length a.bits)
      → s.capacity ≡ a.stats.capacity
      → s.total_usable ≡ a.stats.total_usable
      → s.free ≡ a.stats.free - 1
      → IsValid (record a { bits = put a.bits f true; stats = s; hint = hint })
  take-IsValid hint s e h c t fr = record {
    size = length-put a.bits f true ∙ v.size;
    same_size = v.same_size ∙ sym (length-put a.bits f true);
    shaped_bits = put-IsShaped a.bits f true v.shaped_bits bits_in;
    shaped_usable = v.shaped_usable;
    capacity_same = c ∙ v.capacity_same;
    free_count = omega (arith, total_taken e, v.free_count);
    usable_count = t ∙ v.usable_count;
    free_usable = λ g z. ground (arith, bit-put_bits true g, v.free_usable g);
    hint_in = rw (length-put a.bits f true) h;
  }

  -- So does a usable frame that becomes free.
  pub give-IsValid :
      (hint : ℕ) (s : FrameStats)
      → bit a.usable f ≡ true
      → bit a.bits f ≡ true
      → (0 < length a.bits → hint < length a.bits)
      → s.capacity ≡ a.stats.capacity
      → s.total_usable ≡ a.stats.total_usable
      → s.free ≡ a.stats.free + 1
      → IsValid (record a { bits = put a.bits f false; stats = s; hint = hint })
  give-IsValid hint s u e h c t fr = record {
    size = length-put a.bits f false ∙ v.size;
    same_size = v.same_size ∙ sym (length-put a.bits f false);
    shaped_bits = put-IsShaped a.bits f false v.shaped_bits bits_in;
    shaped_usable = v.shaped_usable;
    capacity_same = c ∙ v.capacity_same;
    free_count = omega (arith, total_given e, v.free_count);
    usable_count = t ∙ v.usable_count;
    free_usable = λ g z. ground (arith, bit-put_bits false g, v.free_usable g);
    hint_in = rw (length-put a.bits f false) h;
  }

  -- And a frame that becomes usable and free.
  open_frame-IsValid :
      bit a.usable f ≡ false
      → IsValid (record a {
        usable = put a.usable f true;
        bits = put a.bits f false;
        stats = record (a.stats) {
          total_usable = a.stats.total_usable + 1;
          free = a.stats.free + 1;
        };
      })
  open_frame-IsValid u =
      let busy : bit a.bits f ≡ true = ground (arith, v.free_usable f) in
      record {
        size = length-put a.bits f false ∙ v.size;
        same_size = length-put a.usable f true ∙ v.same_size ∙ sym (length-put a.bits f false);
        shaped_bits = put-IsShaped a.bits f false v.shaped_bits bits_in;
        shaped_usable = put-IsShaped a.usable f true v.shaped_usable usable_in;
        capacity_same = v.capacity_same;
        free_count = omega (arith, total_given busy, v.free_count);
        usable_count = omega (arith, total_usable_given u, v.usable_count);
        free_usable =
            λ g z. ground (arith, bit-put_bits false g, bit-put_usable true g, v.free_usable g);
        hint_in = rw (length-put a.bits f false) v.hint_in;
      }

  pub mark_usable_frame-IsValid : IsValid (mark_usable_frame a f)
  unfolding mark_usable_frame
  mark_usable_frame-IsValid = elim (Bool-cases (bit a.usable f)) [
    | inl e ↦ rw e v
    | inr e ↦ rw e (open_frame-IsValid e)
  ]

  pub mark_used_frame-IsValid : IsValid (mark_used_frame a f)
  unfolding mark_used_frame
  mark_used_frame-IsValid = elim (Bool-cases (bit a.bits f)) [
    | inl e ↦ rw e v
    | inr e ↦ rw e (take-IsValid a.hint _ e v.hint_in refl refl refl)
  ]

  pub release_frame-IsValid :
      bit a.usable f ≡ true → bit a.bits f ≡ true → IsValid (release_frame a f)
  unfolding release_frame
  release_frame-IsValid u e =
      let h = v.hint_in in
      give-IsValid (min a.hint (f / 64)) _ u e (λ p. omega (arith, h p)) refl refl refl

pub capacity-mark_usable_frame :
    (a : Allocator) (f : ℕ) → (mark_usable_frame a f).capacity ≡ a.capacity
unfolding mark_usable_frame
capacity-mark_usable_frame a f = ground arith

pub capacity-mark_used_frame : (a : Allocator) (f : ℕ) → (mark_used_frame a f).capacity ≡ a.capacity
unfolding mark_used_frame
capacity-mark_used_frame a f = ground arith

pub new-IsValid : (frames : ℕ) → IsValid (new frames)
unfolding new
new-IsValid frames = record {
  size = length-replicate (words frames) _;
  same_size = length-replicate (words frames) _ ∙ sym (length-replicate (words frames) _);
  shaped_bits = replicate-IsShaped (words frames) true;
  shaped_usable = replicate-IsShaped (words frames) false;
  capacity_same = refl;
  free_count = sym (total-ones (words frames));
  usable_count = sym (total-zeros (words frames));
  free_usable = λ f z. ground (arith, bit-ones (words frames) f);
  hint_in = λ p. p;
}

-- What every round keeps, a loop over frames below the capacity keeps.
for_frames_inv :
    (P : Allocator → Type 0) (body : Allocator → ℕ → Allocator)
    → ((a : Allocator) (f : ℕ) → (body a f).capacity ≡ a.capacity)
    → ((a : Allocator) (f : ℕ) → P a → f < a.capacity → P (body a f))
    → (a : Allocator) (f n : ℕ) → P a
    → (n ≡ 0) ⊎ (f + n ≤ a.capacity)
    → P (for_frames body a f n)
unfolding for_frames
for_frames_inv P body same keep a f zero v h = v
for_frames_inv P body same keep a f (suc n) v h =
    for_frames_inv P body same keep (body a f) (f + 1) n (keep a f v (omega arith))
      (omega (arith, same a f))

frame_range_in :
    (a : Allocator) (start end s n : ℕ)
    → frame_range a start end ≡ ok (s, n)
    → (n ≡ 0) ⊎ (s + n ≤ a.capacity)
unfolding frame_range
frame_range_in a start end s n h = ground arith

-- A successful `mark_usable` keeps what its rounds keep.
pub mark_usable_inv :
    (P : Allocator → Type 0)
    → ((a : Allocator) (f : ℕ) → P a → f < a.capacity → P (mark_usable_frame a f))
    → (a : Allocator) (start end : ℕ) {a' : Allocator} → P a
    → mark_usable a start end ≡ ok a'
    → P a'
unfolding mark_usable
mark_usable_inv P keep a start end v h = elim (Result-cases (frame_range a start end)) [
  | inl ((s, n), e) ↦
      let w =
        for_frames_inv P mark_usable_frame capacity-mark_usable_frame keep a s n v
          (frame_range_in a start end s n e) in
      subst P (ground arith) w
  | inr (e, p) ↦ ground arith
]

-- So does a successful `mark_used`.
pub mark_used_inv :
    (P : Allocator → Type 0)
    → ((a : Allocator) (f : ℕ) → P a → f < a.capacity → P (mark_used_frame a f))
    → (a : Allocator) (start end : ℕ) {a' : Allocator} → P a
    → mark_used a start end ≡ ok a'
    → P a'
unfolding mark_used
mark_used_inv P keep a start end v h = elim (Result-cases (frame_range a start end)) [
  | inl ((s, n), e) ↦
      let w =
        for_frames_inv P mark_used_frame capacity-mark_used_frame keep a s n v
          (frame_range_in a start end s n e) in
      subst P (ground arith) w
  | inr (e, p) ↦ ground arith
]
