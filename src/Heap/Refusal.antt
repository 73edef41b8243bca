-- ===== src/Heap/Refusal.antt =====
-- Why an allocation of kernel/lib/heap/src/lib.rs fails: no place in a free block would do.
use nexo_os.Prelude.{
  ℕ, ◌+◌, ◌-◌, ◌%◌, ◌^◌, ◌≤◌, ◌<◌, ◌≡◌, sym, ap, ◌∙◌, not, ◌&&◌, List, [], ◌∷◌, none, arith, ltb,
  leb, ◌==◌, if◌then◌else◌, All, Bool-cases, inl, inr, ◌⊎◌,
}
use native.Mathlib.Nat.{mod-add-mod, mod-eq_of_lt}
use nexo_os.Heap.{FreeNode, align_up, add64, place, cut, node_size, header_size}
use nexo_os.Heap.Cutting.{Unwrapped, align_up_lem, place_lem}

-- The free block has room for a block with pointer `ptr`: aligned, with the header before it, what is
-- left in front nothing or enough for a free block, and `size` bytes behind it.
abbrev pub HasRoom : ℕ → ℕ → FreeNode → ℕ → Type 0
HasRoom size align n ptr =
    (ptr % align ≡ 0)
    × ((ptr ≡ n.addr + header_size) ⊎ (n.addr + header_size + node_size ≤ ptr))
    × (ptr + size ≤ n.addr + n.size)

multiple_small : (p d a : ℕ) → p % a ≡ 0 → (p + d) % a ≡ 0 → d < a → d ≡ 0
multiple_small p d a h k l =
    let s : (0 + d) % a ≡ (p + d) % a = rw⁻¹ h (mod-add-mod p a d) in
    let t : d % a ≡ d = mod-eq_of_lt l in
    let z : 0 + d ≡ d = omega arith in sym t ∙ ap (λ x. x % a) (sym z) ∙ s ∙ k

-- `align_up` gives the least multiple.
align_up-least : (v a p : ℕ) → 1 ≤ a → v + a ≤ 2 ^ 64 → p % a ≡ 0 → v ≤ p → align_up v a ≤ p
align_up-least v a p h k m l =
    let (lo, hi, al) = align_up_lem v a h k in
    elim (Bool-cases (leb (align_up v a) p)) [
      | inl c ↦ ground arith
      | inr c ↦
          let e : p + (align_up v a - p) ≡ align_up v a = ground arith in
          let z = multiple_small p (align_up v a - p) a m (ap (λ x. x % a) e ∙ al) (ground arith) in
          absurd (ground arith)
    ]

least_chosen :
    (addr align near far p : ℕ)
    → (addr + header_size ≤ near) × (near < addr + header_size + align) × (near % align ≡ 0)
    → near ≤ p
    → ((p ≡ addr + header_size) ⊎ (addr + header_size + node_size ≤ p))
    → (addr + header_size + node_size ≤ p → far ≤ p)
    → let gap = near - header_size - addr in
      (if not (gap == 0) && ltb gap node_size then far else near) ≤ p
least_chosen addr align near far p (a, b, c) h (inl e) w = ground arith
least_chosen addr align near far p (a, b, c) h (inr e) w = let f = w e in ground arith

place-least :
    (size align : ℕ) (n : FreeNode) (p : ℕ)
    → node_size ≤ align
    → n.addr + align + 64 ≤ 2 ^ 64
    → HasRoom size align n p
    → place align n ≤ p
unfolding place
place-least size align n p h k (m, o, r) =
    let e : add64 n.addr header_size ≡ n.addr + header_size = omega arith in
    let f : add64 n.addr (node_size + header_size) ≡ n.addr + (node_size + header_size) =
      omega arith in
    let near = align_up_lem (n.addr + header_size) align (omega arith) (omega arith) in
    let le : n.addr + header_size ≤ p = elim o [ inl q ↦ omega arith | inr q ↦ omega arith ] in
    rw (e, f)
      (least_chosen n.addr align _ _ p near
        (align_up-least (n.addr + header_size) align p (omega arith) (omega arith) m le) o
        (λ q.
          align_up-least (n.addr + (node_size + header_size)) align p (omega arith) (omega arith) m
            (omega arith)))

pub cut-none :
    (size align : ℕ) (n : FreeNode)
    → node_size ≤ align
    → Unwrapped size align n
    → cut size align n ≡ none
    → (p : ℕ) → ¬ HasRoom size align n p
unfolding cut
cut-none size align n h u e p r =
    let b = place_lem align n h (omega arith) in
    let l = place-least size align n p h (omega arith) r in
    let end : add64 (place align n) size ≡ place align n + size = omega (arith, b.1) in
    let room = r.2 in ground arith

-- No free block of the list has room anywhere.
pub All-none :
    (size align : ℕ) (ns : List FreeNode)
    → node_size ≤ align
    → All (Unwrapped size align) ns
    → All (λ n. cut size align n ≡ none) ns
    → All (λ n. (p : ℕ) → ¬ HasRoom size align n p) ns
All-none size align [] h u c = tt
All-none size align (n ∷ ns) h (u, us) (c, cs) =
    (cut-none size align n h u c, All-none size align ns h us cs)
