-- ===== src/Heap/Cutting.antt =====
-- What an allocation takes from the free list of kernel/lib/heap/src/lib.rs.
use nexo_os.Prelude.{
  ℕ, ◌+◌, ◌-◌, ◌/◌, ◌%◌, ◌^◌, ◌≤◌, ◌<◌, ◌≡◌, refl, sym, subst, ◌∙◌, Bool, true, false, not, ◌&&◌,
  ◌||◌, List, [], ◌∷◌, ◌++◌, Option, none, some, arith, length, leb, ltb, ◌==◌, if◌then◌else◌, All,
  Bool-cases, Option-cases, inl, inr, ◌⊎◌,
}
use mathlib.Core.List.{append_assoc}
use mathlib.Core.Option.{some-injective}
use native.Mathlib.Nat.{lt-div-mul-add, div-mul-le_self, mul-mod_left}
use nexo_os.Heap.{
  FreeNode, Cut, cut_at, align_up, add64, place, cut, remains, block, first_fit, node_size,
  header_size, one_if,
}
use nexo_os.Heap.Insert.{Spread, Spread-le, bytes, has, free_at}

-- No sum that the allocator forms of the block's addresses wraps.
abbrev pub Unwrapped : ℕ → ℕ → FreeNode → Type 0
Unwrapped size align n = n.addr + n.size + size + align + 64 ≤ 2 ^ 64

pub align_up_lem :
    (v a : ℕ)
    → 1 ≤ a
    → v + a ≤ 2 ^ 64
    → (v ≤ align_up v a) × (align_up v a < v + a) × (align_up v a % a ≡ 0)
align_up_lem v a h k =
    let w : (v + a - 1) % 2 ^ 64 ≡ v + a - 1 = omega arith in
    rw w (
      omega (arith, lt-div-mul-add {a = v + a - 1} {b = a} h),
      omega (arith, div-mul-le_self (v + a - 1) a),
      mul-mod_left ((v + a - 1) / a) a,
    )

-- A gap too small for a free block moves the pointer to the second place.
chosen :
    (addr align near far : ℕ)
    → (addr + header_size ≤ near) × (near < addr + header_size + align) × (near % align ≡ 0)
    → (addr + (node_size + header_size) ≤ far)
      × (far < addr + (node_size + header_size) + align)
      × (far % align ≡ 0)
    → let gap = near - header_size - addr in
      let ptr = if not (gap == 0) && ltb gap node_size then far else near in
      (addr + header_size ≤ ptr)
      × (ptr < addr + align + 48)
      × (ptr % align ≡ 0)
      × ((ptr ≡ addr + header_size) ⊎ (addr + header_size + node_size ≤ ptr))
chosen addr align near far (n0, n1, n2) (f0, f1, f2) =
    let gap = near - header_size - addr in
    elim (Bool-cases (not (gap == 0) && ltb gap node_size)) [
      | inl c ↦ rw c (omega arith, omega arith, f2, inr (omega arith))
      | inr c ↦ rw c (n0, omega arith, n2, ground arith)
    ]

pub place_lem :
    (align : ℕ) (n : FreeNode)
    → node_size ≤ align
    → n.addr + align + 64 ≤ 2 ^ 64
    → let ptr = place align n in
      (n.addr + header_size ≤ ptr)
      × (ptr < n.addr + align + 48)
      × (ptr % align ≡ 0)
      × ((ptr ≡ n.addr + header_size) ⊎ (n.addr + header_size + node_size ≤ ptr))
unfolding place
place_lem align n h k =
    let near = align_up_lem (n.addr + header_size) align (omega arith) (omega arith) in
    let far = align_up_lem (n.addr + (node_size + header_size)) align (omega arith) (omega arith) in
    let e : add64 n.addr header_size ≡ n.addr + header_size = omega arith in
    let f : add64 n.addr (node_size + header_size) ≡ n.addr + (node_size + header_size) =
      omega arith in
    rw (e, f) (chosen n.addr align _ _ near far)

-- How the block `n` is divided: the pointer is aligned and has a header before it, the block from
-- the header on holds the size asked for, and what is left before and after it is nothing or enough
-- for a free block.
pub record Divides (size align : ℕ) (n : FreeNode) (c : Cut) : Type 0 where
  pub aligned : c.ptr % align ≡ 0
  pub front : n.addr + c.front_gap + header_size ≡ c.ptr
  pub holds : c.ptr + size ≤ c.alloc_end
  pub back : c.alloc_end + c.tail ≡ n.addr + n.size
  pub front_size : (c.front_gap ≡ 0) ⊎ (node_size ≤ c.front_gap)
  pub tail_size : (c.tail ≡ 0) ⊎ (node_size ≤ c.tail)

divided :
    (size align ptr end : ℕ) (n : FreeNode)
    → (n.addr + header_size ≤ ptr)
      × (ptr < n.addr + align + 48)
      × (ptr % align ≡ 0)
      × ((ptr ≡ n.addr + header_size) ⊎ (n.addr + header_size + node_size ≤ ptr))
    → end ≡ ptr + size
    → end ≤ n.addr + n.size
    → Divides size align n (cut_at n ptr end)
divided size align ptr end n (p0, p1, p2, p3) e b = record {
  aligned = p2;
  front = omega arith;
  holds = ground arith;
  back = ground arith;
  front_size = ground arith;
  tail_size = ground arith;
}

cut-Divides :
    (size align : ℕ) (n : FreeNode) (c : Cut)
    → node_size ≤ align
    → Unwrapped size align n
    → cut size align n ≡ some c
    → Divides size align n c
unfolding cut
cut-Divides size align n c h w e =
    let p = place_lem align n h (omega arith) in
    let end : add64 (place align n) size ≡ place align n + size = omega (arith, p.1) in
    elim (Bool-cases (leb (add64 (place align n) size) (n.addr + n.size))) [
      | inr f ↦ absurd (ground arith)
      | inl f ↦
          let d =
            divided size align (place align n) (add64 (place align n) size) n p end
              (ground arith) in
          let hit : cut size align n
              ≡ some (cut_at n (place align n) (add64 (place align n) size)) =
            rw f refl in
          subst (Divides size align n) (some-injective _ c (sym hit ∙ e)) d
    ]

-- No free byte lies before the first free block.
Spread-free : (low x : ℕ) (ns : List FreeNode) → Spread low ns → x < low → free_at x ns ≡ false
Spread-free low x [] s h = refl
Spread-free low x (n ∷ ns) (s0, s1, s2) h =
    let r = Spread-free (n.addr + n.size + 1) x ns s2 (omega arith) in ground (arith, r)

-- The allocation `c` taken from the free blocks `ns`, which leaves `rest`.
pub record Taken (low size align : ℕ) (ns : List FreeNode) (c : Cut) (rest : List FreeNode)
    : Type 0 where
  pub aligned : c.ptr % align ≡ 0
  pub header : low + header_size ≤ c.ptr
  pub holds : c.ptr + size ≤ c.alloc_end
  pub spread : Spread low rest
  pub sum : bytes rest + (c.alloc_end - (c.ptr - header_size)) ≡ bytes ns
  pub count :
      length rest + 1 ≡ length ns + one_if (not (c.tail == 0)) + one_if (not (c.front_gap == 0))
  pub owned :
      (x : ℕ)
      → has (c.ptr - header_size) (c.alloc_end - (c.ptr - header_size)) x ≡ true
      → free_at x ns ≡ true
  pub covers :
      (x : ℕ)
      → free_at x rest
        ≡ (free_at x ns && not (has (c.ptr - header_size) (c.alloc_end - (c.ptr - header_size)) x))

-- A block that may be empty, in front of the free blocks.
block_lem :
    (low addr size : ℕ) (ns : List FreeNode)
    → low ≤ addr
    → (size ≡ 0) ⊎ (node_size ≤ size)
    → Spread (addr + size + 1) ns
    → let ns' = block addr size ++ ns in
      Spread low ns'
      × (bytes ns' ≡ size + bytes ns)
      × (length ns' ≡ one_if (not (size == 0)) + length ns)
      × ((x : ℕ) → free_at x ns' ≡ (has addr size x || free_at x ns))
block_lem low addr size ns h (inl e) s = rw e (
  Spread-le low (addr + size + 1) ns (omega arith) s,
  omega arith,
  omega arith,
  λ x. ground arith,
)
block_lem low addr size ns h (inr e) s =
    let c : (size == 0) ≡ false = ground arith in rw c ((h, e, s), refl, omega arith, λ x. refl)

-- Of the bytes of a block that is divided, those outside the allocation stay free.
left_free :
    (addr size gap ptr end tail x : ℕ) (b : Bool)
    → addr + gap + header_size ≡ ptr
    → ptr ≤ end
    → end + tail ≡ addr + size
    → (x < addr + size + 1 → b ≡ false)
    → (has addr gap x || (has end tail x || b))
      ≡ ((has addr size x || b) && not (has (ptr - header_size) (end - (ptr - header_size)) x))
left_free addr size gap ptr end tail x false p q r h = ground arith
left_free addr size gap ptr end tail x true p q r h = ground arith

remains-Taken :
    (low size align : ℕ) (n : FreeNode) (ns : List FreeNode) (c : Cut)
    → Spread low (n ∷ ns)
    → node_size ≤ size
    → Divides size align n c
    → Taken low size align (n ∷ ns) c (remains n c ++ ns)
unfolding remains
remains-Taken low size align n ns c (s0, s1, s2) h d =
    let back : c.alloc_end + c.tail + 1 ≡ n.addr + n.size + 1 = omega (arith, d.back) in
    let (t0, t1, t2, t3) =
      block_lem (n.addr + c.front_gap + 1) c.alloc_end c.tail ns (omega (arith, d.front, d.holds))
        d.tail_size (rw back s2) in
    let (f0, f1, f2, f3) =
      block_lem low n.addr c.front_gap (block c.alloc_end c.tail ++ ns) s0 d.front_size t0 in
    rw (append_assoc (block n.addr c.front_gap) (block c.alloc_end c.tail) ns) (record {
      aligned = d.aligned;
      header = omega (arith, d.front);
      holds = d.holds;
      spread = f0;
      sum = omega (arith, f1, t1, d.front, d.holds, d.back);
      count = omega (arith, f2, t2);
      owned = λ x e. let p = d.front in let q = d.holds in let r = d.back in ground arith;
      covers = λ x.
          rw (f3 x, t3 x)
            (left_free n.addr n.size c.front_gap c.ptr c.alloc_end c.tail x (free_at x ns) d.front
              (omega (arith, d.holds)) d.back (Spread-free (n.addr + n.size + 1) x ns s2));
    })

skip-Taken :
    (low size align : ℕ) (n : FreeNode) (ns : List FreeNode) (c : Cut) (rest : List FreeNode)
    → Spread low (n ∷ ns)
    → Taken (n.addr + n.size + 1) size align ns c rest
    → Taken low size align (n ∷ ns) c (n ∷ rest)
skip-Taken low size align n ns c rest (s0, s1, s2) t = record {
  aligned = t.aligned;
  header = omega (arith, t.header);
  holds = t.holds;
  spread = (s0, s1, t.spread);
  sum = omega (arith, t.sum);
  count = omega (arith, t.count);
  owned = λ x e. let o = t.owned x e in ground arith;
  covers = λ x. let k = t.covers x in let h = t.header in let o = t.owned x in ground arith;
}

-- A search that fails found no block that holds the allocation.
abbrev pub Fitted : ℕ → ℕ → ℕ → List FreeNode → Option (Cut × List FreeNode) → Type 0
Fitted low size align ns none = All (λ n. cut size align n ≡ none) ns
Fitted low size align ns (some (c, rest)) = Taken low size align ns c rest

skip-Fitted :
    (low size align : ℕ) (n : FreeNode) (ns : List FreeNode) (r : Option (Cut × List FreeNode))
    → Spread low (n ∷ ns)
    → cut size align n ≡ none
    → Fitted (n.addr + n.size + 1) size align ns r
    → Fitted low size align (n ∷ ns) (elim r [ some (c, rest) ↦ some (c, n ∷ rest) | none ↦ none ])
skip-Fitted low size align n ns none s f t = (f, t)
skip-Fitted low size align n ns (some (c, rest)) s f t = skip-Taken low size align n ns c rest s t

pub first_fit-Fitted :
    (low size align : ℕ) (ns : List FreeNode)
    → node_size ≤ size
    → node_size ≤ align
    → Spread low ns
    → All (Unwrapped size align) ns
    → Fitted low size align ns (first_fit size align ns)
unfolding first_fit
first_fit-Fitted low size align [] h k s u = tt
first_fit-Fitted low size align (n ∷ ns) h k s u =
    let next = first_fit-Fitted (n.addr + n.size + 1) size align ns h k s.2 u.1 in
    elim (Option-cases (cut size align n)) [
      | inr (c, f) ↦
          rw (Fitted, f)
            (remains-Taken low size align n ns c s h (cut-Divides size align n c k u.0 f))
      | inl f ↦ rw (Fitted, f) (skip-Fitted low size align n ns (first_fit size align ns) s f next)
    ]
