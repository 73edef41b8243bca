-- ===== src/Heap/Allocation.antt =====
-- `allocate`, `deallocate` and `extend` of kernel/lib/heap/src/lib.rs.
use nexo_os.Prelude.{
  ℕ, ◌+◌, ◌-◌, ◌*◌, ◌/◌, ◌%◌, ◌^◌, ◌≤◌, ◌≡◌, refl, max, true, not, ◌&&◌, List, [], ◌∷◌, Option,
  none, some, arith, length, ◌==◌, All, Bool-cases, inl, inr,
}
use nexo_os.Heap.{
  FreeNode, AllocHeader, Heap, Cut, new, align_up, first_fit, allocated, allocate, put_header,
  header_at, node_size, header_size, min_align, magic_live,
}
use nexo_os.Heap.Insert.{Spread, bytes, has, free_at}
use nexo_os.Heap.Refusal.{HasRoom, All-none}
use nexo_os.Heap.Cutting.{Unwrapped, Taken, Fitted, first_fit-Fitted}

-- The free list is in order, apart and counted, and the bytes in use and the free ones are the
-- bytes that were given to the heap.
pub record IsValid (h : Heap) : Type 0 where
  pub spread : Spread 0 h.free
  pub free_blocks : h.stats.free_blocks ≡ length h.free
  pub total : h.stats.used_bytes + bytes h.free ≡ h.stats.total_bytes

pub new-IsValid : IsValid new
unfolding new
new-IsValid = record { spread = tt; free_blocks = refl; total = refl }

-- The size and the alignment that a request is rounded to.
abbrev pub rounded : ℕ → ℕ
rounded layout_size = align_up (max layout_size 1) min_align

-- What an allocation with a result did to the heap. `start` is where its block begins, and `size`
-- how long that is.
pub record Allocated (h h' : Heap) (layout_size layout_align ptr start size : ℕ) : Type 0 where
  pub aligned : ptr % max layout_align min_align ≡ 0
  pub header : start + header_size ≡ ptr
  pub holds : ptr + layout_size ≤ start + size
  pub owned : (x : ℕ) → has start size x ≡ true → free_at x h.free ≡ true
  pub covers : (x : ℕ) → free_at x h'.free ≡ (free_at x h.free && not (has start size x))
  pub written :
      header_at start h'.headers
      ≡ some (record { block_start = start; block_size = size; magic = magic_live })
  pub used : h'.stats.used_bytes ≡ h.stats.used_bytes + size

-- The size asked for, at least 1, rounded up to 16.
abbrev pub padded : ℕ → ℕ
padded layout_size = (max layout_size 1 + 15) / 16 * 16

padded-rounded : (n : ℕ) → n + 32 ≤ 2 ^ 64 → padded n ≡ rounded n
padded-rounded n h = omega arith

-- Without a pointer, no free block had room anywhere, and one failure more is counted.
abbrev pub Outcome : Heap → ℕ → ℕ → Heap × Option ℕ → Type 0
Outcome h layout_size layout_align (h', none) =
    All (λ n. (p : ℕ) → ¬ HasRoom (padded layout_size) (max layout_align min_align) n p) h.free
    × (h' ≡ record h { stats = record h.stats { failures = h.stats.failures + 1 } })
Outcome h layout_size layout_align (h', some ptr) =
    (start : ℕ) × (size : ℕ) × Allocated h h' layout_size layout_align ptr start size

rounded_lem : (n : ℕ) → n + 32 ≤ 2 ^ 64 → (n ≤ rounded n) × (node_size ≤ rounded n)
rounded_lem n h = omega arith

same : (n : ℕ) → (n == n) ≡ true
same n = ground arith

header_at-put :
    (g : AllocHeader) (gs : List AllocHeader) → header_at g.block_start (put_header g gs) ≡ some g
header_at-put g [] = rw (same g.block_start) refl
header_at-put g (k ∷ gs) =
    let r = header_at-put g gs in
    elim (Bool-cases (k.block_start == g.block_start)) [
      | inl e ↦ rw (e, same g.block_start) refl
      | inr e ↦ rw (e, e) r
    ]

-- A request whose sums do not wrap, for any free block of the heap.
abbrev pub Reasonable : Heap → ℕ → ℕ → Type 0
Reasonable h layout_size layout_align =
    (layout_size + 32 ≤ 2 ^ 64)
    × All (Unwrapped (rounded layout_size) (max layout_align min_align)) h.free

abbrev taken_by : Heap → ℕ → ℕ → Option (Cut × List FreeNode) → Heap × Option ℕ
taken_by h size align none =
    (record h { stats = record h.stats { failures = h.stats.failures + 1 } }, none)
taken_by h size align (some (c, rest)) = (allocated h c rest, some c.ptr)

Taken-Outcome :
    (h : Heap) (layout_size layout_align : ℕ) (c : Cut) (rest : List FreeNode)
    → layout_size ≤ rounded layout_size
    → Taken 0 (rounded layout_size) (max layout_align min_align) h.free c rest
    → IsValid h
    → Outcome h layout_size layout_align (allocated h c rest, some c.ptr)
      × IsValid (allocated h c rest)
Taken-Outcome h layout_size layout_align c rest r t v =
    let start = c.ptr - header_size in
    (
      (
        start,
        c.alloc_end - start,
        record {
          aligned = t.aligned;
          header = omega (arith, t.header);
          holds = omega (arith, t.holds, t.header);
          owned = t.owned;
          covers = t.covers;
          written = header_at-put _ h.headers;
          used = refl;
        },
      ),
      record {
        spread = t.spread;
        free_blocks = omega (arith, t.count, v.free_blocks);
        total = omega (arith, t.sum, v.total);
      },
    )

taken_by-Outcome :
    (h : Heap) (layout_size layout_align : ℕ) (r : Option (Cut × List FreeNode))
    → layout_size ≤ rounded layout_size
    → Reasonable h layout_size layout_align
    → Fitted 0 (rounded layout_size) (max layout_align min_align) h.free r
    → IsValid h
    → let out = taken_by h (rounded layout_size) (max layout_align min_align) r in
      Outcome h layout_size layout_align out × IsValid out.0
taken_by-Outcome h layout_size layout_align none r (b, u) f v = (
  (
    rw (padded-rounded layout_size b)
        (All-none (rounded layout_size) (max layout_align min_align) h.free (omega arith) u f),
    refl,
  ),
  record { spread = v.spread; free_blocks = v.free_blocks; total = v.total },
)
taken_by-Outcome h layout_size layout_align (some (c, rest)) r u f v =
    Taken-Outcome h layout_size layout_align c rest r f v

-- Allocation in a valid heap, for a request whose sums of addresses do not wrap. A pointer is
-- aligned as asked, has its header before it, and its block holds the size asked for, lies wholly in
-- what was free, and is free no more while every other byte is as before; no pointer means that no
-- free block has room anywhere for the header and the size, rounded up to 16, with what is left in
-- front nothing or at least 16 bytes, and changes nothing but the count of failures. The heap stays valid.
pub allocate-Outcome :
    (h : Heap) (layout_size layout_align : ℕ)
    → IsValid h
    → Reasonable h layout_size layout_align
    → let out = allocate h layout_size layout_align in
      Outcome h layout_size layout_align out × IsValid out.0
unfolding allocate
allocate-Outcome h layout_size layout_align v (b, u) =
    let (r, n) = rounded_lem layout_size b in
    let size = rounded layout_size in
    let align = max layout_align min_align in
    let f = first_fit-Fitted 0 size align h.free n (omega arith) v.spread u in
    taken_by-Outcome h layout_size layout_align (first_fit size align h.free) r (b, u) f v
