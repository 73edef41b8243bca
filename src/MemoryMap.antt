-- ===== src/MemoryMap.antt =====
-- The memory map handed over by the firmware: kernel/lib/mm/src/map.rs, with the kinds of memory of
-- abi/boot/src/lib.rs.
--
-- Addresses are `u64`. An array that is filled from its start is the list of what it holds, and one
-- whose last entry is looked at is that list from its end (`sink`, `emit`). `align_down` and
-- `align_up` are only called with the size of a page, a power of two.
pub mod Cuts
pub mod Kinds
pub mod Best
pub mod Laws
pub mod Normal
pub mod Room
pub mod Summary
mod Tests
use nexo_os.Prelude.{
  ℕ, zero, suc, ◌+◌, ◌-◌, ◌*◌, ◌/◌, ◌^◌, max, Bool, true, false, not, ◌&&◌, ◌||◌, List, [], ◌∷◌,
  ◌++◌, Option, none, some, Result, ok, err, ◌>>=◌, length, leb, ltb, ◌==◌, if◌then◌else◌,
}
use nexo_os.Frames.{page_size}

pub data MemoryKind : Type 0 where
  unknown usable reserved acpi_reclaimable acpi_nvs mmio uefi_runtime loader_reclaimable :
      MemoryKind
  kernel_image kernel_page_tables kernel_stack boot_info kernel_file framebuffer initrd : MemoryKind

-- `kind as u32`.
unfoldable pub code : MemoryKind → ℕ
code unknown = 0
code usable = 1
code reserved = 2
code acpi_reclaimable = 3
code acpi_nvs = 4
code mmio = 5
code uefi_runtime = 6
code loader_reclaimable = 7
code kernel_image = 8
code kernel_page_tables = 9
code kernel_stack = 10
code boot_info = 11
code kernel_file = 12
code framebuffer = 13
code initrd = 14

unfoldable pub from_u32 : ℕ → MemoryKind
from_u32 v =
    if v == 1
    then usable
    else if v == 2
    then reserved
    else if v == 3
    then acpi_reclaimable
    else if v == 4
    then acpi_nvs
    else if v == 5
    then mmio
    else if v == 6
    then uefi_runtime
    else if v == 7
    then loader_reclaimable
    else if v == 8
    then kernel_image
    else if v == 9
    then kernel_page_tables
    else if v == 10
    then kernel_stack
    else if v == 11
    then boot_info
    else if v == 12
    then kernel_file
    else if v == 13
    then framebuffer
    else if v == 14
    then initrd
    else unknown

unfoldable pub is_usable_after_boot : MemoryKind → Bool
is_usable_after_boot usable = true
is_usable_after_boot loader_reclaimable = true
is_usable_after_boot _ = false

unfoldable pub priority : MemoryKind → ℕ
priority unknown = 0
priority usable = 1
priority loader_reclaimable = 2
priority acpi_reclaimable = 3
priority framebuffer = 4
priority kernel_file = 5
priority initrd = 6
priority boot_info = 7
priority kernel_stack = 8
priority kernel_page_tables = 9
priority kernel_image = 10
priority uefi_runtime = 11
priority acpi_nvs = 12
priority mmio = 13
priority reserved = 14

-- `kind()` is `from_u32` of the raw number.
pub record MemoryRegion : Type 0 where
  pub start : ℕ
  pub end : ℕ
  pub kind : ℕ
  pub reserved_word : ℕ

abbrev pub kind_of : MemoryRegion → MemoryKind
kind_of r = from_u32 r.kind

-- `MemoryRegion::new`.
abbrev pub region : ℕ → ℕ → MemoryKind → MemoryRegion
region lo hi k = record { start = lo; end = hi; kind = code k; reserved_word = 0 }

unfoldable pub is_empty : MemoryRegion → Bool
is_empty r = leb r.end r.start

pub data MapError : Type 0 where
  too_many_input_regions output_too_small : MapError

abbrev pub max_input_regions : ℕ
max_input_regions = 528

unfoldable pub align_down : ℕ → ℕ → ℕ
align_down v align = v / align * align

-- What does not fit into 64 bits becomes the last multiple.
unfoldable pub align_up : ℕ → ℕ → ℕ
align_up v align =
    if ltb (v + (align - 1)) (2 ^ 64) then (v + (align - 1)) / align * align else 2 ^ 64 - align

unfoldable pub page_align : MemoryRegion → MemoryRegion
unfolding align_down align_up is_usable_after_boot from_u32
page_align r =
    if is_usable_after_boot (kind_of r)
    then record r { start = align_up r.start page_size; end = align_down r.end page_size }
    else record r { start = align_down r.start page_size; end = align_up r.end page_size }

abbrev pub is_unknown : MemoryKind → Bool
is_unknown unknown = true
is_unknown _ = false

-- The closure `valid`, over the input.
unfoldable pub valid_regions : List MemoryRegion → List MemoryRegion
unfolding page_align is_empty from_u32
valid_regions [] = []
valid_regions (r ∷ rs) =
    let a = page_align r in
    let rest = valid_regions rs in
    if not (is_empty a) && not (is_unknown (kind_of a)) then a ∷ rest else rest

unfoldable pub cuts_of : List MemoryRegion → List ℕ
cuts_of [] = []
cuts_of (r ∷ rs) = r.start ∷ r.end ∷ cuts_of rs

-- The inner loop of the sort: the sorted part from its end, into which `x` moves.
unfoldable pub sink : ℕ → List ℕ → List ℕ
sink x [] = x ∷ []
sink x (y ∷ ys) = if ltb x y then y ∷ sink x ys else x ∷ y ∷ ys

unfoldable pub sort_from : List ℕ → List ℕ → List ℕ
unfolding sink
sort_from sorted [] = sorted
sort_from sorted (x ∷ xs) = sort_from (sink x sorted) xs

-- A list from its other end.
unfoldable pub turn {ℓ} : {A : Type ℓ} → List A → List A → List A
turn [] acc = acc
turn (x ∷ xs) acc = turn xs (x ∷ acc)

-- The loop that drops what equals the cut kept last.
unfoldable pub uniq_after : ℕ → List ℕ → List ℕ
uniq_after u [] = []
uniq_after u (x ∷ xs) = let rest = uniq_after x xs in if x == u then rest else x ∷ rest

unfoldable pub uniq : List ℕ → List ℕ
unfolding uniq_after
uniq [] = []
uniq (x ∷ xs) = x ∷ uniq_after x xs

unfoldable pub cuts : List MemoryRegion → List ℕ
unfolding cuts_of sort_from turn uniq
cuts valid = uniq (turn (sort_from [] (cuts_of valid)) [])

-- A kind against the best so far: only a higher priority replaces it.
unfoldable pub better : Option MemoryKind → MemoryKind → Option MemoryKind
unfolding priority
better none k = some k
better (some b) k = if ltb (priority b) (priority k) then some k else some b

-- The best kind among the regions that cover the interval.
unfoldable pub best_from : ℕ → ℕ → Option MemoryKind → List MemoryRegion → Option MemoryKind
unfolding better from_u32
best_from lo hi best [] = best
best_from lo hi best (r ∷ rs) =
    best_from lo hi (if leb r.start lo && leb hi r.end then better best (kind_of r) else best) rs

unfoldable pub same_kind : MemoryKind → MemoryKind → Bool
unfolding code
same_kind a b = code a == code b

-- The output, its last region first; `size` is what fits.
unfoldable pub emit :
    ℕ → List MemoryRegion → ℕ → ℕ → MemoryKind → Result MapError (List MemoryRegion)
unfolding same_kind from_u32 code
emit size [] lo hi k = if leb size 0 then err output_too_small else ok (region lo hi k ∷ [])
emit size (r ∷ rs) lo hi k =
    if (r.end == lo) && same_kind (kind_of r) k
    then ok (record r { end = hi } ∷ rs)
    else if leb size (length (r ∷ rs))
    then err output_too_small
    else ok (region lo hi k ∷ r ∷ rs)

-- The windows of two cuts: `lo` and those after it.
unfoldable pub fill :
    ℕ → List MemoryRegion → List MemoryRegion → ℕ → List ℕ → Result MapError (List MemoryRegion)
unfolding best_from emit
fill size valid out lo [] = ok out
fill size valid out lo (hi ∷ his) =
    elim (best_from lo hi none valid) [ none ↦ ok out | some k ↦ emit size out lo hi k ] >>= λ out'.
    fill size valid out' hi his

unfoldable pub fill_all : ℕ → List MemoryRegion → List ℕ → Result MapError (List MemoryRegion)
unfolding fill
fill_all size valid [] = ok []
fill_all size valid (lo ∷ his) = fill size valid [] lo his

-- The part of `output` that is written.
unfoldable pub normalize : List MemoryRegion → ℕ → Result MapError (List MemoryRegion)
unfolding valid_regions cuts fill_all turn
normalize input size =
    let valid = valid_regions input in
    if ltb max_input_regions (length input)
    then err too_many_input_regions
    else fill_all size valid (cuts valid) >>= λ out. ok (turn out [])

pub record MapSummary : Type 0 where
  pub usable_bytes : ℕ
  pub kernel_bytes : ℕ
  pub reserved_bytes : ℕ
  pub max_addr : ℕ
  pub max_usable_addr : ℕ
  pub regions : ℕ

-- The arms of the match, as sums of `u64` that a map of disjoint regions does not exceed.
unfoldable pub sum_up : MapSummary → MemoryKind → ℕ → ℕ → MapSummary
sum_up s usable len end = record s {
  usable_bytes = s.usable_bytes + len;
  max_usable_addr = max s.max_usable_addr end;
}
sum_up s loader_reclaimable len end = record s {
  usable_bytes = s.usable_bytes + len;
  max_usable_addr = max s.max_usable_addr end;
}
sum_up s kernel_image len end = record s {
  kernel_bytes = s.kernel_bytes + len;
  max_usable_addr = max s.max_usable_addr end;
}
sum_up s kernel_page_tables len end = record s {
  kernel_bytes = s.kernel_bytes + len;
  max_usable_addr = max s.max_usable_addr end;
}
sum_up s kernel_stack len end = record s {
  kernel_bytes = s.kernel_bytes + len;
  max_usable_addr = max s.max_usable_addr end;
}
sum_up s boot_info len end = record s {
  kernel_bytes = s.kernel_bytes + len;
  max_usable_addr = max s.max_usable_addr end;
}
sum_up s kernel_file len end = record s {
  kernel_bytes = s.kernel_bytes + len;
  max_usable_addr = max s.max_usable_addr end;
}
sum_up s initrd len end = record s {
  kernel_bytes = s.kernel_bytes + len;
  max_usable_addr = max s.max_usable_addr end;
}
sum_up s _ len end = record s { reserved_bytes = s.reserved_bytes + len }

unfoldable pub summarize_from : MapSummary → List MemoryRegion → MapSummary
unfolding sum_up from_u32
summarize_from s [] = s
summarize_from s (r ∷ rs) =
    let t = sum_up s (kind_of r) (r.end - r.start) r.end in
    summarize_from (record t { max_addr = max t.max_addr r.end }) rs

-- `Default`, with the number of regions.
abbrev pub unsummed : ℕ → MapSummary
unsummed n = record {
  usable_bytes = 0;
  kernel_bytes = 0;
  reserved_bytes = 0;
  max_addr = 0;
  max_usable_addr = 0;
  regions = n;
}

unfoldable pub summarize : List MemoryRegion → MapSummary
unfolding summarize_from
summarize map = summarize_from (unsummed (length map)) map
