-- ===== src/Frames/Trace.antt =====
-- Sequences of calls of the frame allocator (kernel/lib/mm/src/bitmap.rs).
use nexo_os.Prelude.{
  ℕ, ◌*◌, ◌<◌, ◌≡◌, ◌≢◌, refl, ap, ◌∙◌, inl, inr, true, false, List, [], ◌∷◌, Option, none, some,
  ok, err, arith, Result, Result-cases, All,
}
use nexo_os.Frames.{
  Allocator, FrameError, page_size, bit, new, allocate, free, mark_usable, mark_used,
  mark_usable_frame, mark_used_frame, frame_index,
}
use nexo_os.Frames.Inv.{
  IsValid, new-IsValid, mark_usable_inv, mark_used_inv, mark_usable_frame-IsValid,
  mark_used_frame-IsValid, bit-put_bits, bit-put_usable,
}
use nexo_os.Frames.Alloc.{allocate_lem}
use nexo_os.Frames.Free.{free_lem}

-- The calls of the kernel; a refused one leaves the allocator as it was.
pub data Op : Type 0 where
  alloc : Op
  release : ℕ → Op
  open_range shut_range : ℕ → ℕ → Op

unfoldable pub settle : Allocator → Result FrameError Allocator → Allocator
settle a (ok b) = b
settle a (err e) = a

unfoldable pub step : Allocator → Op → Allocator × Option ℕ
unfolding settle
step a alloc = allocate a
step a (release addr) = (settle a (free a addr), none)
step a (open_range s e) = (settle a (mark_usable a s e), none)
step a (shut_range s e) = (settle a (mark_used a s e), none)

unfoldable pub prepend : Option ℕ → List ℕ → List ℕ
prepend none outs = outs
prepend (some addr) outs = addr ∷ outs

-- The allocator after the calls, and the addresses that they handed out.
unfoldable pub run : Allocator → List Op → Allocator × List ℕ
unfolding prepend
run a [] = (a, [])
run a (op ∷ ops) = let (b, out) = step a op in let (c, outs) = run b ops in (c, prepend out outs)

-- The invariant, with frame `f` in use: usable, and busy.
abbrev pub InUse : ℕ → Allocator → Type 0
InUse f a = IsValid a × (bit a.usable f ≡ true) × (bit a.bits f ≡ true)

mark_usable_frame-InUse :
    (f : ℕ) (a : Allocator) (g : ℕ) → InUse f a → g < a.capacity → InUse f (mark_usable_frame a g)
unfolding mark_usable_frame
mark_usable_frame-InUse f a g u h =
    let v = mark_usable_frame-IsValid (u.0) h in
    (v, ground (arith, bit-put_usable (u.0) h true f), ground (arith, bit-put_bits (u.0) h false f))

mark_used_frame-InUse :
    (f : ℕ) (a : Allocator) (g : ℕ) → InUse f a → g < a.capacity → InUse f (mark_used_frame a g)
unfolding mark_used_frame
mark_used_frame-InUse f a g u h =
    let v = mark_used_frame-IsValid (u.0) h in
    (v, ground arith, ground (arith, bit-put_bits (u.0) h true f))

step-IsValid : (a : Allocator) (op : Op) → IsValid a → IsValid (step a op).0
unfolding step
step-IsValid a alloc v = (allocate_lem a v).0
step-IsValid a (release addr) v = elim (Result-cases (free a addr)) [
  | inl (b, e) ↦ rw (e, settle) ((free_lem a addr v e).0)
  | inr (x, e) ↦ rw (e, settle) v
]
step-IsValid a (open_range s t) v = elim (Result-cases (mark_usable a s t)) [
  | inl (b, e) ↦
      rw (e, settle) (mark_usable_inv IsValid (λ c f w h. mark_usable_frame-IsValid w h) a s t v e)
  | inr (x, e) ↦ rw (e, settle) v
]
step-IsValid a (shut_range s t) v = elim (Result-cases (mark_used a s t)) [
  | inl (b, e) ↦
      rw (e, settle) (mark_used_inv IsValid (λ c f w h. mark_used_frame-IsValid w h) a s t v e)
  | inr (x, e) ↦ rw (e, settle) v
]

run-IsValid : (a : Allocator) (ops : List Op) → IsValid a → IsValid (run a ops).0
unfolding run
run-IsValid a [] v = v
run-IsValid a (op ∷ ops) v = run-IsValid (step a op).0 ops (step-IsValid a op v)

-- Every sequence of calls on a fresh allocator leaves it in the invariant.
pub run-new-IsValid : (frames : ℕ) (ops : List Op) → IsValid (run (new frames) ops).0
run-new-IsValid frames ops = run-IsValid (new frames) ops (new-IsValid frames)

-- The call is no release of frame `f`.
abbrev pub Spares : ℕ → Op → Type 0
Spares f alloc = Unit
Spares f (release addr) = frame_index addr ≢ f
Spares f (open_range s e) = Unit
Spares f (shut_range s e) = Unit

alloc-InUse :
    (a : Allocator) (f : ℕ)
    → InUse f a
    → InUse f (allocate a).0 × ((allocate a).1 ≢ some (f * page_size))
alloc-InUse a f u =
    let l = allocate_lem a (u.0) in
    elim (l.1) [
      | inl (g, e, t) ↦ (
        (l.0, rw (t.usable_same) (u.1), ground (arith, t.others f)),
        (λ p. ground (arith, t.was_free)),
      )
      | inr (e, x) ↦ ((l.0, rw (x.usable_same) (u.1), rw (x.bits_same) (u.2)), (λ p. cc))
    ]

step-InUse :
    (a : Allocator) (f : ℕ) (op : Op)
    → InUse f a
    → Spares f op
    → InUse f (step a op).0 × ((step a op).1 ≢ some (f * page_size))
unfolding step
step-InUse a f alloc u s = alloc-InUse a f u
step-InUse a f (release addr) u s = (
  elim (Result-cases (free a addr)) [
    | inl (b, e) ↦
        let l = free_lem a addr (u.0) e in
        let o = l.1.others f in rw (e, settle) (l.0, rw (l.1.usable_same) (u.1), ground arith)
    | inr (x, e) ↦ rw (e, settle) u
  ],
  (λ p. cc),
)
step-InUse a f (open_range x y) u s = (
  elim (Result-cases (mark_usable a x y)) [
    | inl (b, e) ↦ rw (e, settle) (mark_usable_inv (InUse f) (mark_usable_frame-InUse f) a x y u e)
    | inr (z, e) ↦ rw (e, settle) u
  ],
  (λ p. cc),
)
step-InUse a f (shut_range x y) u s = (
  elim (Result-cases (mark_used a x y)) [
    | inl (b, e) ↦ rw (e, settle) (mark_used_inv (InUse f) (mark_used_frame-InUse f) a x y u e)
    | inr (z, e) ↦ rw (e, settle) u
  ],
  (λ p. cc),
)

All-prepend :
    (P : ℕ → Type 0) (out : Option ℕ) (outs : List ℕ)
    → ((addr : ℕ) → out ≡ some addr → P addr)
    → All P outs
    → All P (prepend out outs)
unfolding prepend
All-prepend P none outs h t = t
All-prepend P (some addr) outs h t = (h addr refl, t)

-- A frame in use stays in use, and is not handed out again, through every sequence of calls that
-- does not release it.
pub run_no_reuse :
    (a : Allocator) (f : ℕ) (ops : List Op)
    → InUse f a
    → All (Spares f) ops
    → InUse f (run a ops).0 × All (λ addr. addr ≢ f * page_size) (run a ops).1
unfolding run
run_no_reuse a f [] u s = (u, tt)
run_no_reuse a f (op ∷ ops) u s =
    let k = step-InUse a f op u (s.0) in
    let r = run_no_reuse (step a op).0 f ops (k.0) (s.1) in
    (r.0, All-prepend _ (step a op).1 _ (λ addr e p. k.1 (e ∙ ap some p)) (r.1))
