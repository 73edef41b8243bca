-- ===== src/MemoryMap/Tests.antt =====
-- The theorems on kernel/lib/mm/src/map.rs at the map of its second test.
use nexo_os.Prelude.{ℕ, ◌≤◌, ◌<◌, ◌≡◌, ◌⊎◌, refl, List, [], ◌∷◌, ok, err, arith, length}
use nexo_os.MemoryMap.{
  MemoryRegion, usable, mmio, region, normalize, valid_regions, max_input_regions,
  too_many_input_regions,
}
use nexo_os.MemoryMap.Kinds.{kind_at}
use nexo_os.MemoryMap.Best.{IsKind}
use nexo_os.MemoryMap.Laws.{IsMap}
use nexo_os.MemoryMap.Normal.{normalize_lem}
use nexo_os.MemoryMap.Room.{normalize_total}

abbrev overlap : List MemoryRegion
overlap = region 0x1000 0x9000 usable ∷ region 0x4800 0x5800 mmio ∷ []

abbrev carved : List MemoryRegion
carved = region 0x1000 0x4000 usable ∷ region 0x4000 0x6000 mmio ∷ region 0x6000 0x9000 usable ∷ []

normalize-overlap : normalize overlap 8 ≡ ok carved
unfolding normalize
normalize-overlap = refl

normalize_lem_example :
    IsMap 0 carved × ((x : ℕ) → IsKind (valid_regions overlap) x (kind_at carved x))
normalize_lem_example = normalize_lem overlap 8 normalize-overlap

normalize_total_example :
    ((length overlap ≤ max_input_regions)
      × (out : List MemoryRegion) × (normalize overlap 8 ≡ ok out)
      × (length out ≤ 8))
    ⊎ ((max_input_regions < length overlap) × (normalize overlap 8 ≡ err too_many_input_regions))
normalize_total_example = normalize_total overlap 8 (omega arith)
