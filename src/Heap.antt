-- ===== src/Heap.antt =====
-- The kernel's heap: kernel/lib/heap/src/lib.rs.
--
-- The linked list of free blocks is the list of its nodes, in its order; a header is kept under the
-- address where it is written. `usize` is 64 bits and wraps. What the free nodes and headers
-- overwrite in blocks that nobody owns is not followed. A call that would panic or that breaks the
-- contract of `deallocate` has no result.
pub mod Cutting
pub mod Insert
pub mod Refusal
pub mod Allocation
pub mod Release
mod Tests
use nexo_os.Prelude.{
  ℕ, zero, suc, ◌+◌, ◌-◌, ◌*◌, ◌/◌, ◌%◌, ◌^◌, max, Bool, true, false, not, ◌&&◌, ◌||◌, List, [],
  ◌∷◌, ◌++◌, Option, none, some, length, leb, ltb, ◌==◌, if◌then◌else◌,
}

abbrev pub min_align : ℕ
min_align = 16

abbrev pub header_size : ℕ
header_size = 32

abbrev pub node_size : ℕ
node_size = 16

abbrev pub magic_live : ℕ
magic_live = 0xA110_C8ED_0000_0001

abbrev pub magic_freed : ℕ
magic_freed = 0xDEAD_F4EE_0000_0002

pub record FreeNode : Type 0 where
  pub addr : ℕ
  pub size : ℕ

pub record AllocHeader : Type 0 where
  pub block_start : ℕ
  pub block_size : ℕ
  pub magic : ℕ

pub record HeapStats : Type 0 where
  pub total_bytes : ℕ
  pub used_bytes : ℕ
  pub peak_bytes : ℕ
  pub allocations : ℕ
  pub frees : ℕ
  pub failures : ℕ
  pub free_blocks : ℕ

pub record Heap : Type 0 where
  pub free : List FreeNode
  pub headers : List AllocHeader
  pub stats : HeapStats

unfoldable pub new : Heap
new = record {
  free = [];
  headers = [];
  stats = record {
    total_bytes = 0;
    used_bytes = 0;
    peak_bytes = 0;
    allocations = 0;
    frees = 0;
    failures = 0;
    free_blocks = 0;
  };
}

abbrev pub add64 : ℕ → ℕ → ℕ
add64 a b = (a + b) % 2 ^ 64

-- `& !(a - 1)` clears the low bits, `a` being a power of two.
abbrev pub align_up : ℕ → ℕ → ℕ
align_up v a = (v + a - 1) % 2 ^ 64 / a * a

-- Where an allocation lies in a free block: the free bytes before it, the pointer, its end and the
-- free bytes after it.
pub record Cut : Type 0 where
  pub front_gap : ℕ
  pub ptr : ℕ
  pub alloc_end : ℕ
  pub tail : ℕ

-- The pointer: pushed on if the gap before it is too small for a free block.
unfoldable pub place : ℕ → FreeNode → ℕ
place align n =
    let ptr = align_up (add64 n.addr header_size) align in
    let gap = ptr - header_size - n.addr in
    if not (gap == 0) && ltb gap node_size
    then align_up (add64 n.addr (node_size + header_size)) align
    else ptr

-- A tail too small for a free block goes to the allocation.
abbrev pub cut_at : FreeNode → ℕ → ℕ → Cut
cut_at n ptr end =
    let block_end = n.addr + n.size in
    let small = ltb (block_end - end) node_size in
    record {
      front_gap = ptr - header_size - n.addr;
      ptr = ptr;
      alloc_end = if small then block_end else end;
      tail = if small then 0 else block_end - end;
    }

unfoldable pub cut : ℕ → ℕ → FreeNode → Option Cut
unfolding place
cut size align n =
    let ptr = place align n in
    let end = add64 ptr size in if leb end (n.addr + n.size) then some (cut_at n ptr end) else none

abbrev pub block : ℕ → ℕ → List FreeNode
block addr size = if size == 0 then [] else record { addr = addr; size = size } ∷ []

-- What takes the place of the free block that is cut.
unfoldable pub remains : FreeNode → Cut → List FreeNode
remains n c = block n.addr c.front_gap ++ block c.alloc_end c.tail

-- First fit: the cut, and the list after it.
unfoldable pub first_fit : ℕ → ℕ → List FreeNode → Option (Cut × List FreeNode)
unfolding cut remains
first_fit size align [] = none
first_fit size align (n ∷ ns) = elim (cut size align n) [
  | some c ↦ some (c, remains n c ++ ns)
  | none ↦ elim (first_fit size align ns) [ some (c, rest) ↦ some (c, n ∷ rest) | none ↦ none ]
]

-- A write at the address `h.block_start`.
abbrev pub put_header : AllocHeader → List AllocHeader → List AllocHeader
put_header h [] = h ∷ []
put_header h (g ∷ gs) =
    let rest = put_header h gs in if g.block_start == h.block_start then h ∷ gs else g ∷ rest

abbrev pub header_at : ℕ → List AllocHeader → Option AllocHeader
header_at addr [] = none
header_at addr (g ∷ gs) =
    let rest = header_at addr gs in if g.block_start == addr then some g else rest

abbrev pub one_if : Bool → ℕ
one_if true = 1
one_if false = 0

-- The state after a cut, and the pointer.
abbrev pub allocated : Heap → Cut → List FreeNode → Heap
allocated h c rest =
    let start = c.ptr - header_size in
    let used = h.stats.used_bytes + (c.alloc_end - start) in
    record {
      free = rest;
      headers =
          put_header
            (record { block_start = start; block_size = c.alloc_end - start; magic = magic_live })
            h.headers;
      stats = record h.stats {
        used_bytes = used;
        peak_bytes = max h.stats.peak_bytes used;
        allocations = h.stats.allocations + 1;
        free_blocks =
            h.stats.free_blocks + one_if (not (c.tail == 0)) + one_if (not (c.front_gap == 0)) - 1;
      };
    }

unfoldable pub allocate : Heap → ℕ → ℕ → Heap × Option ℕ
unfolding first_fit
allocate h layout_size layout_align =
    let align = max layout_align min_align in
    let size = align_up (max layout_size 1) min_align in
    elim (first_fit size align h.free) [
      | some (c, rest) ↦ (allocated h c rest, some c.ptr)
      | none ↦ (record h { stats = record h.stats { failures = h.stats.failures + 1 } }, none)
    ]

-- The new block joined with the free block after it, if they touch. Whether they do, too.
unfoldable pub join_next : ℕ → ℕ → List FreeNode → FreeNode × List FreeNode × Bool
join_next start size [] = (record { addr = start; size = size }, [], false)
join_next start size (n ∷ ns) =
    if start + size == n.addr
    then (record { addr = start; size = size + n.size }, ns, true)
    else (record { addr = start; size = size }, n ∷ ns, false)

-- The list from `prev` on, and the change of `free_blocks`: what is added and what is taken away.
unfoldable pub join_prev : FreeNode → FreeNode → List FreeNode → List FreeNode × ℕ
join_prev p b ns =
    if p.addr + p.size == b.addr
    then (record p { size = p.size + b.size } ∷ ns, 0)
    else (p ∷ b ∷ ns, 1)

unfoldable pub insert_after : FreeNode → List FreeNode → ℕ → ℕ → List FreeNode × ℕ × ℕ
unfolding join_next join_prev
insert_after p [] start size =
    let (b, rest, joined) = join_next start size [] in
    let (nodes, added) = join_prev p b rest in (nodes, added, one_if joined)
insert_after p (n ∷ ns) start size =
    let (b, rest, joined) = join_next start size (n ∷ ns) in
    let (nodes, added) = join_prev p b rest in
    let (later, added', gone) = insert_after n ns start size in
    if ltb start n.addr then (nodes, added, one_if joined) else (p ∷ later, added', gone)

unfoldable pub insert_nodes : List FreeNode → ℕ → ℕ → List FreeNode × ℕ × ℕ
unfolding insert_after
insert_nodes [] start size =
    let (b, rest, joined) = join_next start size [] in (b ∷ rest, 1, one_if joined)
insert_nodes (n ∷ ns) start size =
    let (b, rest, joined) = join_next start size (n ∷ ns) in
    if ltb start n.addr then (b ∷ rest, 1, one_if joined) else insert_after n ns start size

unfoldable pub insert_free : Heap → ℕ → ℕ → Heap
unfolding insert_nodes
insert_free h start size =
    let (nodes, added, gone) = insert_nodes h.free start size in
    record h {
      free = nodes;
      stats = record h.stats { free_blocks = h.stats.free_blocks - gone + added };
    }

unfoldable pub extend : Heap → ℕ → ℕ → Heap
unfolding insert_free
extend h start size =
    let s = align_up start min_align in
    let e = add64 start size / min_align * min_align in
    if leb e s || ltb (e - s) node_size
    then h
    else insert_free
        (record h { stats = record h.stats { total_bytes = h.stats.total_bytes + (e - s) } }) s
        (e - s)

unfoldable pub deallocate : Heap → ℕ → Option Heap
unfolding insert_free
deallocate h ptr = elim (header_at (ptr - header_size) h.headers) [
  | none ↦ none
  | some g ↦
      if g.magic == magic_live
      then some (
          insert_free
            (record h {
              headers = put_header (record g { magic = magic_freed }) h.headers;
              stats = record h.stats {
                used_bytes = h.stats.used_bytes - g.block_size;
                frees = h.stats.frees + 1;
              };
            })
            g.block_start g.block_size)
      else none
]

unfoldable pub largest_free_block : ℕ → List FreeNode → ℕ
largest_free_block best [] = best
largest_free_block best (n ∷ ns) = largest_free_block (max best n.size) ns
