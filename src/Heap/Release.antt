-- ===== src/Heap/Release.antt =====
-- Giving blocks and regions to the heap of kernel/lib/heap/src/lib.rs.
use nexo_os.Prelude.{
  ℕ, ◌+◌, ◌-◌, ◌*◌, ◌/◌, ◌^◌, ◌≤◌, ◌≡◌, refl, subst, max, true, false, ◌&&◌, ◌||◌, List, [], ◌∷◌,
  some, arith, length, leb, ltb, ◌==◌, Bool-cases, inl, inr, ◌⊎◌,
}
use nexo_os.Heap.{
  FreeNode, AllocHeader, Heap, align_up, add64, allocate, insert_free, deallocate, extend,
  put_header, header_at, node_size, header_size, min_align, magic_live, magic_freed,
}
use nexo_os.Heap.Insert.{Spread, Clear, insert_nodes-Inserted, bytes, has, free_at}
use nexo_os.Heap.Allocation.{IsValid, Outcome, Reasonable, allocate-Outcome}

insert_free-IsValid :
    (h : Heap) (start size : ℕ)
    → Spread 0 h.free
    → h.stats.free_blocks ≡ length h.free
    → h.stats.used_bytes + size + bytes h.free ≡ h.stats.total_bytes
    → Clear start size h.free
    → node_size ≤ size
    → let h' = insert_free h start size in
      IsValid h' × ((x : ℕ) → free_at x h'.free ≡ (has start size x || free_at x h.free))
unfolding insert_free
insert_free-IsValid h start size s f t c z =
    let i = insert_nodes-Inserted start size h.free s c z in
    (
      record {
        spread = i.spread;
        free_blocks = omega (arith, i.count, i.fewer, f);
        total = omega (arith, i.sum, t);
      },
      i.covers,
    )

-- A block without a free byte is clear of every free block.
apart-Clear :
    (low start size : ℕ) (ns : List FreeNode)
    → Spread low ns
    → 1 ≤ size
    → ((x : ℕ) → has start size x ≡ true → free_at x ns ≡ false)
    → Clear start size ns
apart-Clear low start size [] s h f = tt
apart-Clear low start size (n ∷ ns) (s0, s1, s2) h f =
    let k = f (max start n.addr) in
    (
      ground arith,
      apart-Clear (n.addr + n.size + 1) start size ns s2 h (λ x e. let g = f x e in ground arith),
    )

-- Releasing a block of a valid heap whose header is live: it is accepted, exactly its bytes become
-- free, they are no longer counted as used, and the heap stays valid. The block must be large enough
-- for a node, counted as used, and must hold no free byte.
pub deallocate_lem :
    (h : Heap) (ptr : ℕ) (g : AllocHeader)
    → IsValid h
    → header_at (ptr - header_size) h.headers ≡ some g
    → g.magic ≡ magic_live
    → Clear g.block_start g.block_size h.free
    → node_size ≤ g.block_size
    → g.block_size ≤ h.stats.used_bytes
    → (h' : Heap) × (deallocate h ptr ≡ some h')
      × IsValid h'
      × ((x : ℕ) → free_at x h'.free ≡ (has g.block_start g.block_size x || free_at x h.free))
      × (h'.stats.used_bytes + g.block_size ≡ h.stats.used_bytes)
unfolding deallocate insert_free
deallocate_lem h ptr g v e m c z b =
    let freed = record h {
      headers = put_header (record g { magic = magic_freed }) h.headers;
      stats = record h.stats {
        used_bytes = h.stats.used_bytes - g.block_size;
        frees = h.stats.frees + 1;
      };
    } in
    let (valid, covers) =
      insert_free-IsValid freed g.block_start g.block_size v.spread v.free_blocks
        (omega (arith, v.total)) c z in
    let live : (g.magic == magic_live) ≡ true = rw m refl in
    (
      insert_free freed g.block_start g.block_size,
      rw (deallocate, e, live) refl,
      valid,
      covers,
      omega arith,
    )

-- Releasing what was just allocated: the heap accepts the pointer, and after it the same bytes are
-- free and in use as before the allocation.
pub allocate-deallocate :
    (h h' : Heap) (layout_size layout_align ptr : ℕ)
    → IsValid h
    → Reasonable h layout_size layout_align
    → allocate h layout_size layout_align ≡ (h', some ptr)
    → (h'' : Heap) × (deallocate h' ptr ≡ some h'')
      × IsValid h''
      × ((x : ℕ) → free_at x h''.free ≡ free_at x h.free)
      × (h''.stats.used_bytes ≡ h.stats.used_bytes)
unfolding deallocate
allocate-deallocate h h' layout_size layout_align ptr v u e =
    let (o, v') =
      subst (λ out. Outcome h layout_size layout_align out × IsValid out.0) e
        (allocate-Outcome h layout_size layout_align v u) in
    let (start, size, a) = o in
    let at : ptr - header_size ≡ start = omega (arith, a.header) in
    let bare : (x : ℕ) → has start size x ≡ true → free_at x h'.free ≡ false =
      λ x g. let k = a.covers x in ground arith in
    let clear =
      apart-Clear 0 start size h'.free v'.spread (omega (arith, a.header, a.holds)) bare in
    let w = a.written in
    let (h'', d, valid, covers, used) =
      deallocate_lem h' ptr _ v' (rw at w) refl clear (omega (arith, a.header, a.holds))
        (omega (arith, a.used)) in
    (
      h'',
      d,
      valid,
      λ x. let c = covers x in let k = a.covers x in let o = a.owned x in ground arith,
      omega (arith, used, a.used),
    )

few :
    (s e : ℕ)
    → (leb e s || ltb (e - s) node_size) ≡ true
    → (e ≤ s) ⊎ (s + node_size ≤ e)
    → ltb s e ≡ false
few s e q h = ground arith

Clear-in :
    (start size s z : ℕ) (ns : List FreeNode)
    → Clear start size ns
    → start ≤ s
    → s + z ≤ start + size
    → 1 ≤ z
    → Clear s z ns
Clear-in start size s z [] c l h k = tt
Clear-in start size s z (n ∷ ns) (c, cs) l h k = (ground arith, Clear-in start size s z ns cs l h k)

-- A region that holds no free byte and whose end does not wrap: the heap stays valid, and the bytes
-- that become free are those of the 16-byte granules wholly inside the region, or none if they are
-- too few for a node.
pub extend_lem :
    (h : Heap) (start size : ℕ)
    → IsValid h
    → start + size + 16 ≤ 2 ^ 64
    → Clear start size h.free
    → let s = align_up start min_align in
      let e = (start + size) / min_align * min_align in
      IsValid (extend h start size)
      × ((x : ℕ)
          → free_at x (extend h start size).free
            ≡ ((ltb s e && has s (e - s) x) || free_at x h.free))
unfolding extend
extend_lem h start size v b c =
    let s = align_up start min_align in
    let e = (start + size) / min_align * min_align in
    let w : add64 start size / min_align * min_align ≡ e = omega arith in
    let lo : start ≤ s = omega arith in
    let hi : e ≤ start + size = omega arith in
    elim (Bool-cases (leb e s || ltb (e - s) node_size)) [
      | inl q ↦
          let few_bytes : ltb s e ≡ false = few s e q (omega arith) in
          rw (extend, w, q, few_bytes) (v, λ x. refl)
      | inr q ↦
          let enough : ltb s e ≡ true = ground arith in
          let narrow = Clear-in start size s (e - s) h.free c lo (ground arith) (ground arith) in
          let grown = record h {
            stats = record h.stats { total_bytes = h.stats.total_bytes + (e - s) };
          } in
          rw (extend, w, q, enough)
            (insert_free-IsValid grown s (e - s) v.spread v.free_blocks (omega (arith, v.total))
              narrow (ground arith))
    ]
