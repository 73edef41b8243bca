-- ===== src/MemoryMap/Kinds.antt =====
-- The kind of memory at one address: what `normalize` of kernel/lib/mm/src/map.rs is measured by.
use nexo_os.Prelude.{
  ℕ, ◌≤◌, ◌<◌, ◌≡◌, refl, sym, ap, ◌∙◌, ◌⊎◌, Bool, true, false, ◌&&◌, List, [], ◌∷◌, Option, none,
  some, arith, leb, ltb, if◌then◌else◌, All,
}
use nexo_os.MemoryMap.{
  MemoryKind, MemoryRegion, unknown, usable, reserved, acpi_reclaimable, acpi_nvs, mmio,
  uefi_runtime, loader_reclaimable, kernel_image, kernel_page_tables, kernel_stack, boot_info,
  kernel_file, framebuffer, initrd, code, from_u32, kind_of, better, best_from, same_kind,
}

-- `MemoryRegion::contains`.
abbrev pub contains : MemoryRegion → ℕ → Bool
contains r x = leb r.start x && ltb x r.end

-- The kind that a map gives to an address: that of its first region there.
unfoldable pub kind_at : List MemoryRegion → ℕ → Option MemoryKind
kind_at [] x = none
kind_at (r ∷ rs) x = if contains r x then some (kind_of r) else kind_at rs x

-- The kind of the highest priority among the regions there, the first of those that tie.
unfoldable pub best_at : ℕ → Option MemoryKind → List MemoryRegion → Option MemoryKind
unfolding better from_u32
best_at x best [] = best
best_at x best (r ∷ rs) = best_at x (if contains r x then better best (kind_of r) else best) rs

pub from_u32-code : (k : MemoryKind) → from_u32 (code k) ≡ k
unfolding from_u32 code
from_u32-code unknown = refl
from_u32-code usable = refl
from_u32-code reserved = refl
from_u32-code acpi_reclaimable = refl
from_u32-code acpi_nvs = refl
from_u32-code mmio = refl
from_u32-code uefi_runtime = refl
from_u32-code loader_reclaimable = refl
from_u32-code kernel_image = refl
from_u32-code kernel_page_tables = refl
from_u32-code kernel_stack = refl
from_u32-code boot_info = refl
from_u32-code kernel_file = refl
from_u32-code framebuffer = refl
from_u32-code initrd = refl

pub same_kind-eq : (a b : MemoryKind) → same_kind a b ≡ true → a ≡ b
unfolding same_kind
same_kind-eq a b h =
    let e : code a ≡ code b = ground arith in
    sym (from_u32-code a) ∙ ap from_u32 e ∙ from_u32-code b

-- No bound of the region lies inside the interval.
abbrev pub IsClear : ℕ → ℕ → MemoryRegion → Type 0
IsClear lo hi r =
    ((r.start ≤ lo) ⊎ (hi ≤ r.start)) × ((r.end ≤ lo) ⊎ (hi ≤ r.end)) × (r.start < r.end)

-- In such an interval what is chosen for the whole is what is chosen for each address.
pub best_from-eq-best_at :
    (lo hi x : ℕ) (best : Option MemoryKind) (rs : List MemoryRegion)
    → lo ≤ x
    → x < hi
    → All (IsClear lo hi) rs
    → best_from lo hi best rs ≡ best_at x best rs
unfolding best_from best_at
best_from-eq-best_at lo hi x best [] a b c = refl
best_from-eq-best_at lo hi x best (r ∷ rs) a b (c, cs) =
    let same : (leb r.start lo && leb hi r.end) ≡ contains r x = ground arith in
    rw same (
      best_from-eq-best_at lo hi x (if contains r x then better best (kind_of r) else best) rs a b
        cs)

-- No region there, no kind.
pub best_at-none :
    (x : ℕ) (rs : List MemoryRegion) → All (λ r. contains r x ≡ false) rs → best_at x none rs ≡ none
unfolding best_at
best_at-none x [] h = refl
best_at-none x (r ∷ rs) (h, hs) = rw h (best_at-none x rs hs)
