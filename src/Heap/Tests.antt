-- ===== src/Heap/Tests.antt =====
-- The theorems on kernel/lib/heap/src/lib.rs at a concrete heap.
use nexo_os.Prelude.{ℕ, ◌≡◌, refl, some, arith}
use nexo_os.Heap.{Heap, AllocHeader, new, allocate, deallocate, extend, magic_live}
use nexo_os.Heap.Insert.{free_at}
use nexo_os.Heap.Allocation.{IsValid, new-IsValid, Outcome, Reasonable, allocate-Outcome}
use nexo_os.Heap.Release.{allocate-deallocate, extend_lem}

-- The granules of that region.
abbrev region : Heap
unfolding new extend
region = extend new 4100 1000

region-IsValid : IsValid region
unfolding region extend
region-IsValid = (extend_lem new 4100 1000 new-IsValid (omega arith) tt).0

region-Reasonable : Reasonable region 100 64
unfolding region
region-Reasonable = omega arith

allocate-Outcome_example :
    Outcome region 100 64 (allocate region 100 64) × IsValid (allocate region 100 64).0
allocate-Outcome_example = allocate-Outcome region 100 64 region-IsValid region-Reasonable

abbrev used : Heap
unfolding allocate
used = (allocate region 100 64).0

region_pointer : allocate region 100 64 ≡ (used, some 4160)
unfolding allocate region
region_pointer = refl

allocate-deallocate_example :
    (h : Heap) × (deallocate used 4160 ≡ some h)
    × IsValid h
    × ((x : ℕ) → free_at x h.free ≡ free_at x region.free)
    × (h.stats.used_bytes ≡ region.stats.used_bytes)
allocate-deallocate_example =
    allocate-deallocate region used 100 64 4160 region-IsValid region-Reasonable region_pointer

abbrev owned : AllocHeader
owned = record { block_start = 4128; block_size = 144; magic = magic_live }
