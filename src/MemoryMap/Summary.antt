-- ===== src/MemoryMap/Summary.antt =====
-- What `summarize` of kernel/lib/mm/src/map.rs adds up.
use nexo_os.Prelude.{ℕ, ◌+◌, ◌-◌, ◌≤◌, ◌≡◌, max, List, [], ◌∷◌, arith, length, All}
use nexo_os.MemoryMap.{
  MemoryKind, MemoryRegion, MapSummary, unsummed, kind_of, sum_up, summarize_from, summarize,
}

abbrev pub bytes : MapSummary → ℕ
bytes s = s.usable_bytes + s.kernel_bytes + s.reserved_bytes

unfoldable pub total : List MemoryRegion → ℕ
total [] = 0
total (r ∷ rs) = (r.end - r.start) + total rs

bytes-sum_up :
    (s : MapSummary) (k : MemoryKind) (len end : ℕ) → bytes (sum_up s k len end) ≡ bytes s + len
unfolding sum_up
bytes-sum_up s k len end = ground arith

top-sum_up :
    (s : MapSummary) (k : MemoryKind) (len end m : ℕ)
    → s.max_usable_addr ≤ m
    → (sum_up s k len end).max_usable_addr ≤ max m end
unfolding sum_up
top-sum_up s k len end m h = ground arith

same-sum_up :
    (s : MapSummary) (k : MemoryKind) (len end : ℕ) → (sum_up s k len end).max_addr ≡ s.max_addr
unfolding sum_up
same-sum_up s k len end = ground arith

summed :
    (s : MapSummary) (rs : List MemoryRegion)
    → s.max_usable_addr ≤ s.max_addr
    → (bytes (summarize_from s rs) ≡ bytes s + total rs)
      × ((summarize_from s rs).max_usable_addr ≤ (summarize_from s rs).max_addr)
      × (s.max_addr ≤ (summarize_from s rs).max_addr)
      × All (λ r. r.end ≤ (summarize_from s rs).max_addr) rs
unfolding summarize_from total
summed s [] h = (omega arith, h, omega arith, tt)
summed s (r ∷ rs) h =
    let t = sum_up s (kind_of r) (r.end - r.start) r.end in
    let n = record t { max_addr = max t.max_addr r.end } in
    let b = bytes-sum_up s (kind_of r) (r.end - r.start) r.end in
    let m = same-sum_up s (kind_of r) (r.end - r.start) r.end in
    let u = top-sum_up s (kind_of r) (r.end - r.start) r.end s.max_addr h in
    let (e, f, g, a) = summed n rs (omega arith) in (omega arith, f, omega arith, (omega arith, a))

-- The summary of a map accounts for every byte of its regions once, as usable, of the kernel or
-- reserved; no region ends after the greatest address, nor does the usable memory.
pub summarize_lem :
    (map : List MemoryRegion)
    → (bytes (summarize map) ≡ total map)
      × ((summarize map).max_usable_addr ≤ (summarize map).max_addr)
      × All (λ r. r.end ≤ (summarize map).max_addr) map
unfolding summarize
summarize_lem map =
    let (e, f, g, a) = summed (unsummed (length map)) map (omega arith) in (omega arith, f, a)
