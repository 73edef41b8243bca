-- ===== src/Frames/Free.antt =====
-- `free` of kernel/lib/mm/src/bitmap.rs, and its play with `allocate`.
use nexo_os.Prelude.{
  ℕ, ◌+◌, ◌*◌, ◌<◌, ◌≡◌, refl, subst, inl, inr, true, false, some, ok, err, arith, ◌==◌,
  if◌then◌else◌,
}
use nexo_os.Frames.{
  Allocator, double_free, page_size, bit, allocate, release_frame, free, is_aligned, frame_index,
}
use nexo_os.Frames.Inv.{IsValid, bit-put_bits, release_frame-IsValid}
use nexo_os.Frames.Alloc.{Took, Allocated, allocate_lem}

-- Frame `f` of `a` became free in `a'`, and nothing else of the bitmaps moved.
pub record Gave (a a' : Allocator) (f : ℕ) : Type 0 where
  pub inside : f < a.capacity
  pub was_usable : bit a.usable f ≡ true
  pub was_busy : bit a.bits f ≡ true
  pub others : (g : ℕ) → bit a'.bits g ≡ (if f == g then false else bit a.bits g)
  pub usable_same : a'.usable ≡ a.usable
  pub capacity_same : a'.capacity ≡ a.capacity
  pub free_more : a'.stats.free ≡ a.stats.free + 1

-- What the four tests of `free` leave over.
free_ok :
    (a : Allocator) (addr : ℕ) {a' : Allocator}
    → free a addr ≡ ok a'
    → (is_aligned addr ≡ true)
      × (frame_index addr < a.capacity)
      × (bit a.usable (frame_index addr) ≡ true)
      × (bit a.bits (frame_index addr) ≡ true)
      × (a' ≡ release_frame a (frame_index addr))
unfolding free
free_ok a addr h = ground arith

-- Conversely the tests let such a frame through.
free_accepts :
    (a : Allocator) (addr : ℕ)
    → is_aligned addr ≡ true
    → frame_index addr < a.capacity
    → bit a.usable (frame_index addr) ≡ true
    → bit a.bits (frame_index addr) ≡ true
    → free a addr ≡ ok (release_frame a (frame_index addr))
unfolding free
free_accepts a addr p q r s = ground arith

gave :
    (a : Allocator) (f : ℕ)
    → IsValid a
    → f < a.capacity
    → bit a.usable f ≡ true
    → bit a.bits f ≡ true
    → Gave a (release_frame a f) f
unfolding release_frame
gave a f v i u b = record {
  inside = i;
  was_usable = u;
  was_busy = b;
  others = bit-put_bits v i false;
  usable_same = refl;
  capacity_same = refl;
  free_more = refl;
}

free_again :
    (a a' : Allocator) (addr : ℕ)
    → is_aligned addr ≡ true
    → Gave a a' (frame_index addr)
    → free a' addr ≡ err (double_free addr)
unfolding free
free_again a a' addr p g =
    let o = g.others (frame_index addr) in
    let u : bit a'.usable (frame_index addr) ≡ true = rw (g.usable_same) (g.was_usable) in
    ground (arith, g.inside, g.capacity_same)

-- On a valid allocator a successful `free` keeps the invariant and clears exactly the frame of its
-- address, a usable one that was busy; a second `free` of that address is refused as a double
-- free.
pub free_lem :
    (a : Allocator) (addr : ℕ) {a' : Allocator}
    → IsValid a
    → free a addr ≡ ok a'
    → IsValid a' × Gave a a' (frame_index addr) × (free a' addr ≡ err (double_free addr))
free_lem a addr v h =
    let t = free_ok a addr h in
    let g = gave a (frame_index addr) v t.1 t.2 t.3 in
    rw (t.4) (
      release_frame-IsValid v t.1 t.2 t.3,
      g,
      free_again a (release_frame a (frame_index addr)) addr t.0 g,
    )

-- What freeing the frame that was just taken gives.
abbrev Restores : Allocator → Allocator → ℕ → Type 0
Restores a a' addr =
    (b : Allocator) × (free a' addr ≡ ok b)
    × IsValid b
    × ((g : ℕ) → bit b.bits g ≡ bit a.bits g)
    × (b.stats.free ≡ a.stats.free)

restores : (a a' : Allocator) (f : ℕ) → IsValid a' → Took a a' f → Restores a a' (f * page_size)
restores a a' f w t =
    let e : frame_index (f * page_size) ≡ f = omega arith in
    let i : f < a'.capacity = rw (t.capacity_same) (t.inside) in
    let u : bit a'.usable f ≡ true = rw (t.usable_same) (t.was_usable) in
    let o = t.others f in
    let b : bit a'.bits f ≡ true = ground arith in
    let g = gave a' f w i u b in
    (
      release_frame a' f,
      accepted a' f i u b,
      release_frame-IsValid w i u b,
      (λ h. ground (arith, g.others h, t.others h, t.was_free)),
      omega (arith, g.free_more, t.free_less),
    )
  where
    accepted :
        (c : Allocator) (k : ℕ)
        → k < c.capacity
        → bit c.usable k ≡ true
        → bit c.bits k ≡ true
        → free c (k * page_size) ≡ ok (release_frame c k)
    accepted c k p q r =
        let e : frame_index (k * page_size) ≡ k = omega arith in
        let d : is_aligned (k * page_size) ≡ true = ground arith in
        subst (λ n. free c (k * page_size) ≡ ok (release_frame c n)) e
          (free_accepts c (k * page_size) d (rw e p) (rw e q) (rw e r))

-- Freeing what `allocate` has just returned succeeds, and gives back every frame bit, the number
-- of free frames and the invariant.
pub free-allocate :
    (a : Allocator) (addr : ℕ) {a' : Allocator}
    → IsValid a
    → allocate a ≡ (a', some addr)
    → (b : Allocator) × (free a' addr ≡ ok b)
      × IsValid b
      × ((g : ℕ) → bit b.bits g ≡ bit a.bits g)
      × (b.stats.free ≡ a.stats.free)
free-allocate a addr {a'} v h =
    let l : Allocated a (a', some addr) = rw h at (allocate_lem a v) in
    elim (l.1) [
      | inl (f, e, t) ↦ let e' : addr ≡ f * page_size = cc in rw e' (restores a a' f (l.0) t)
      | inr (e, x) ↦ cc
    ]
