-- ===== src/Heap/Insert.antt =====
-- What putting a free block back does to the free list of kernel/lib/heap/src/lib.rs.
use nexo_os.Prelude.{
  ℕ, ◌+◌, ◌≤◌, ◌≡◌, refl, Bool, false, ◌&&◌, ◌||◌, List, [], ◌∷◌, arith, length, leb, ltb, ◌==◌,
  All, Bool-cases, inl, inr, ◌⊎◌,
}
use nexo_os.Heap.{FreeNode, node_size, one_if, join_next, join_prev, insert_after, insert_nodes}

-- The free blocks lie in the order of their addresses from `low` on, large enough for a node each,
-- and no two of them touch.
abbrev pub Spread : ℕ → List FreeNode → Type 0
Spread low [] = Unit
Spread low (n ∷ ns) = (low ≤ n.addr) × (node_size ≤ n.size) × Spread (n.addr + n.size + 1) ns

-- No byte of the free blocks lies in the block.
abbrev pub Clear : ℕ → ℕ → List FreeNode → Type 0
Clear start size ns = All (λ n. (n.addr + n.size ≤ start) ⊎ (start + size ≤ n.addr)) ns

pub Spread-le : (low high : ℕ) (ns : List FreeNode) → low ≤ high → Spread high ns → Spread low ns
Spread-le low high [] h s = tt
Spread-le low high (n ∷ ns) h (a, b, c) = (omega arith, b, c)

abbrev pub bytes : List FreeNode → ℕ
bytes [] = 0
bytes (n ∷ ns) = n.size + bytes ns

-- Does the block hold the byte at `x`; does one of the free blocks?
abbrev pub has : ℕ → ℕ → ℕ → Bool
has start size x = leb start x && ltb x (start + size)

abbrev pub free_at : ℕ → List FreeNode → Bool
free_at x [] = false
free_at x (n ∷ ns) = has n.addr n.size x || free_at x ns

-- Clear blocks behind the start of one in the list are behind its end.
past :
    (n : FreeNode) (start size : ℕ)
    → node_size ≤ n.size
    → node_size ≤ size
    → (n.addr + n.size ≤ start) ⊎ (start + size ≤ n.addr)
    → n.addr ≤ start
    → n.addr + n.size ≤ start
past n start size h k c l = ground arith

-- The block `start`, `size` put among the blocks `ns` of which the first begins behind `low`.
pub record Inserted (low start size : ℕ) (ns : List FreeNode) (r : List FreeNode × ℕ × ℕ)
    : Type 0 where
  pub spread : Spread low r.0
  pub sum : bytes r.0 ≡ size + bytes ns
  pub count : length r.0 + r.2 ≡ length ns + r.1
  pub fewer : r.2 ≤ length ns
  pub covers : (x : ℕ) → free_at x r.0 ≡ (has start size x || free_at x ns)

-- With the next block, if that begins where the new one ends.
abbrev Joined : ℕ → ℕ → List FreeNode → FreeNode × List FreeNode × Bool → Type 0
Joined start size ns (b, rest, joined) =
    (b.addr ≡ start) × Inserted start start size ns (b ∷ rest, 1, one_if joined)

join_next-Joined :
    (start size : ℕ) (ns : List FreeNode)
    → Spread (start + size) ns
    → node_size ≤ size
    → Joined start size ns (join_next start size ns)
unfolding join_next
join_next-Joined start size [] s h = (
  refl,
  record {
    spread = (omega arith, h, tt);
    sum = refl;
    count = refl;
    fewer = omega arith;
    covers = λ x. refl;
  },
)
join_next-Joined start size (n ∷ ns) (a, b, c) h = elim (Bool-cases (start + size == n.addr)) [
  | inl e ↦
      let q : start + size ≡ n.addr = ground arith in
      let after : start + (size + n.size) + 1 ≡ n.addr + n.size + 1 = omega arith in
      rw e (
        refl,
        record {
          spread = (omega arith, omega arith, rw after c);
          sum = omega arith;
          count = omega arith;
          fewer = omega arith;
          covers = λ x. ground arith;
        },
      )
  | inr e ↦ rw e (
    refl,
    record {
      spread = (omega arith, h, (ground arith, b, c));
      sum = refl;
      count = omega arith;
      fewer = omega arith;
      covers = λ x. refl;
    },
  )
]

-- And with the block before it, if that ends where the new one begins.
join_prev-Inserted :
    (low start size : ℕ) (p : FreeNode) (ns : List FreeNode) (b : FreeNode) (rest : List FreeNode)
    (joined : Bool)
    → low ≤ p.addr
    → node_size ≤ p.size
    → p.addr + p.size ≤ start
    → Joined start size ns (b, rest, joined)
    → let (nodes, added) = join_prev p b rest in
      Inserted low start size (p ∷ ns) (nodes, added, one_if joined)
unfolding join_prev
join_prev-Inserted low start size p ns b rest joined l m e (at, j) =
    let (j0, j1, j2) = j.spread in
    elim (Bool-cases (p.addr + p.size == b.addr)) [
      | inl c ↦
          let q : p.addr + p.size ≡ b.addr = ground arith in
          let after : p.addr + (p.size + b.size) + 1 ≡ b.addr + b.size + 1 = omega arith in
          rw c (record {
            spread = (l, omega arith, rw after j2);
            sum = omega (arith, j.sum);
            count = omega (arith, j.count);
            fewer = omega (arith, j.fewer);
            covers = λ x. let k = j.covers x in ground arith;
          })
      | inr c ↦ rw c (record {
        spread = (l, m, (ground arith, j1, j2));
        sum = omega (arith, j.sum);
        count = omega (arith, j.count);
        fewer = omega (arith, j.fewer);
        covers = λ x. let k = j.covers x in ground arith;
      })
    ]

skip-Inserted :
    (low start size : ℕ) (p n : FreeNode) (ns : List FreeNode) (r : List FreeNode × ℕ × ℕ)
    → Spread low (p ∷ n ∷ ns)
    → Inserted (p.addr + p.size + 1) start size (n ∷ ns) r
    → Inserted low start size (p ∷ n ∷ ns) (p ∷ r.0, r.1, r.2)
skip-Inserted low start size p n ns r (l, m, s) j = record {
  spread = (l, m, j.spread);
  sum = omega (arith, j.sum);
  count = omega (arith, j.count);
  fewer = omega (arith, j.fewer);
  covers = λ x. let k = j.covers x in ground arith;
}

insert_after-Inserted :
    (low start size : ℕ) (p : FreeNode) (ns : List FreeNode)
    → Spread low (p ∷ ns)
    → p.addr + p.size ≤ start
    → Clear start size ns
    → node_size ≤ size
    → Inserted low start size (p ∷ ns) (insert_after p ns start size)
unfolding insert_after
insert_after-Inserted low start size p [] (l, m, s) e c h =
    join_prev-Inserted low start size p [] _ _ (join_next start size []).2 l m e
      (join_next-Joined start size [] tt h)
insert_after-Inserted low start size p (n ∷ ns) (l, m, (s0, s1, s2)) e (c0, cs) h =
    elim (Bool-cases (ltb start n.addr)) [
      | inl q ↦
          let room : Spread (start + size) (n ∷ ns) = (ground (arith, c0), s1, s2) in
          let j = join_next-Joined start size (n ∷ ns) room h in
          rw q (
            join_prev-Inserted low start size p (n ∷ ns) _ _ (join_next start size (n ∷ ns)).2 l m e
              j)
      | inr q ↦
          let behind = past n start size s1 h c0 (ground arith) in
          let j =
            insert_after-Inserted (p.addr + p.size + 1) start size n ns (s0, s1, s2) behind cs h in
          rw q (
            skip-Inserted low start size p n ns (insert_after n ns start size) (l, m, (s0, s1, s2))
              j)
    ]

from_zero :
    (start size : ℕ) (ns : List FreeNode) (r : List FreeNode × ℕ × ℕ)
    → Inserted start start size ns r
    → Inserted 0 start size ns r
from_zero start size ns r j = record {
  spread = Spread-le 0 start r.0 (omega arith) j.spread;
  sum = j.sum;
  count = j.count;
  fewer = j.fewer;
  covers = j.covers;
}

-- A block that holds no free byte is put back: the free blocks stay in order, apart and large enough
-- for a node, the free bytes are those that were free and those of the block, and the counts agree.
pub insert_nodes-Inserted :
    (start size : ℕ) (ns : List FreeNode)
    → Spread 0 ns
    → Clear start size ns
    → node_size ≤ size
    → Inserted 0 start size ns (insert_nodes ns start size)
unfolding insert_nodes
insert_nodes-Inserted start size [] s c h =
    from_zero start size [] _ (join_next-Joined start size [] tt h).1
insert_nodes-Inserted start size (n ∷ ns) (s0, s1, s2) (c0, cs) h =
    elim (Bool-cases (ltb start n.addr)) [
      | inl q ↦
          let room : Spread (start + size) (n ∷ ns) = (ground (arith, c0), s1, s2) in
          rw q (from_zero start size (n ∷ ns) _ (join_next-Joined start size (n ∷ ns) room h).1)
      | inr q ↦
          let behind = past n start size s1 h c0 (ground arith) in
          rw q (insert_after-Inserted 0 start size n ns (s0, s1, s2) behind cs h)
    ]
