-- ===== src/Frames.antt =====
-- The frame allocator of kernel/lib/mm/src/bitmap.rs, with the addresses of addr.rs.
--
-- A `u64` of the two bitmaps is the list of its 64 bits, the lowest first, so `|= 1 << b` writes
-- `true` at `b` and `&= !(1 << b)` writes `false`. The counters are numbers without a bound: they
-- never pass the number of bits, and the laws show that each `-= 1` meets a positive counter.
pub mod Bits
pub mod Inv
pub mod Alloc
pub mod Free
pub mod Trace
mod Tests
use nexo_os.Prelude.{
  ℕ, zero, suc, ◌+◌, ◌-◌, ◌*◌, ◌/◌, ◌%◌, min, max, Bool, true, false, not, ◌&&◌, List, [], ◌∷◌,
  Option, none, some, Result, ok, err, length, get_or, set, replicate, leb, ltb, ◌==◌,
  if◌then◌else◌, ◌>>=◌,
}

abbrev pub page_size : ℕ
page_size = 4096

-- `PhysAddr::is_aligned(PAGE_SIZE)`: the low twelve bits are clear.
abbrev pub is_aligned : ℕ → Bool
is_aligned addr = addr % page_size == 0

-- `PhysAddr::frame_index`: a shift by twelve.
abbrev pub frame_index : ℕ → ℕ
frame_index addr = addr / page_size

abbrev pub Word : Type 0
Word = List Bool

pub data FrameError : Type 0 where
  unaligned out_of_range double_free not_usable : ℕ → FrameError

pub record FrameStats : Type 0 where
  pub capacity : ℕ
  pub total_usable : ℕ
  pub free : ℕ
  pub allocations : ℕ
  pub frees : ℕ
  pub failures : ℕ

pub record Allocator : Type 0 where
  pub bits : List Word
  pub usable : List Word
  pub capacity : ℕ
  pub stats : FrameStats
  pub hint : ℕ

-- Bit `f` of a bitmap. (Past the storage the source panics; no operation goes there.)
unfoldable pub bit : List Word → ℕ → Bool
bit ws f = get_or (get_or ws (f / 64) []) (f % 64) true

unfoldable pub put : List Word → ℕ → Bool → List Word
put ws f v = set ws (f / 64) (set (get_or ws (f / 64) []) (f % 64) v)

-- `word != u64::MAX` fails.
unfoldable pub is_full : Word → Bool
is_full [] = true
is_full (b ∷ w) = b && is_full w

unfoldable pub trailing_ones : Word → ℕ
trailing_ones [] = 0
trailing_ones (true ∷ w) = suc (trailing_ones w)
trailing_ones (false ∷ w) = 0

-- `frames.div_ceil(64)`, half of `words_for`.
abbrev pub words : ℕ → ℕ
words frames = (frames + 63) / 64

-- Every frame unavailable, on storage of `words_for frames` words.
unfoldable pub new : ℕ → Allocator
new frames = record {
  bits = replicate (words frames) (replicate 64 true);
  usable = replicate (words frames) (replicate 64 false);
  capacity = frames;
  stats = record {
    capacity = frames;
    total_usable = 0;
    free = 0;
    allocations = 0;
    frees = 0;
    failures = 0;
  };
  hint = 0;
}

-- The first frame and the number of frames of `start..end`, cut at the capacity.
unfoldable pub frame_range : Allocator → ℕ → ℕ → Result FrameError (ℕ × ℕ)
frame_range a start end =
    if not (is_aligned start)
    then err (unaligned start)
    else if not (is_aligned end)
    then err (unaligned end)
    else ok (frame_index start, min (frame_index end) a.capacity - frame_index start)

unfoldable pub mark_usable_frame : Allocator → ℕ → Allocator
mark_usable_frame a f = if bit a.usable f then a else record a {
  usable = put a.usable f true;
  bits = put a.bits f false;
  stats = record (a.stats) { total_usable = a.stats.total_usable + 1; free = a.stats.free + 1 };
}

unfoldable pub mark_used_frame : Allocator → ℕ → Allocator
mark_used_frame a f =
    if bit a.bits f
    then a
    else record a { bits = put a.bits f true; stats = record (a.stats) { free = a.stats.free - 1 } }

-- `for f in s..s + n`.
unfoldable pub for_frames : (Allocator → ℕ → Allocator) → Allocator → ℕ → ℕ → Allocator
for_frames body a f zero = a
for_frames body a f (suc n) = for_frames body (body a f) (f + 1) n

unfoldable pub mark_usable : Allocator → ℕ → ℕ → Result FrameError Allocator
mark_usable a start end = do
  (s, n) ← frame_range a start end
  ok (for_frames mark_usable_frame a s n)

unfoldable pub mark_used : Allocator → ℕ → ℕ → Result FrameError Allocator
mark_used a start end = do (s, n) ← frame_range a start end; ok (for_frames mark_used_frame a s n)

unfoldable pub is_free : Allocator → ℕ → Bool
is_free a addr = ltb (frame_index addr) a.capacity && not (bit a.bits (frame_index addr))

-- The loop of `allocate` with `n` rounds left: the word and the frame that it takes.
unfoldable pub scan : Allocator → ℕ → ℕ → Option (ℕ × ℕ)
scan a zero step = none
scan a (suc n) step =
    let w = (a.hint + step) % length a.bits in
    let word = get_or a.bits w [] in
    let frame = w * 64 + trailing_ones word in
    let rest = scan a n (step + 1) in
    if is_full word then rest else if leb a.capacity frame then rest else some (w, frame)

unfoldable pub take_frame : Allocator → Option (ℕ × ℕ) → Allocator × Option ℕ
take_frame a none =
    (record a { stats = record (a.stats) { failures = a.stats.failures + 1 } }, none)
take_frame a (some (w, frame)) = (
  record a {
    bits = put a.bits frame true;
    hint = w;
    stats = record (a.stats) { free = a.stats.free - 1; allocations = a.stats.allocations + 1 };
  },
  some (frame * page_size),
)

unfoldable pub allocate : Allocator → Allocator × Option ℕ
allocate a = take_frame a (scan a (length a.bits) 0)

unfoldable pub release_frame : Allocator → ℕ → Allocator
release_frame a f = record a {
  bits = put a.bits f false;
  hint = min a.hint (f / 64);
  stats = record (a.stats) { free = a.stats.free + 1; frees = a.stats.frees + 1 };
}

unfoldable pub free : Allocator → ℕ → Result FrameError Allocator
free a addr =
    if not (is_aligned addr)
    then err (unaligned addr)
    else if leb a.capacity (frame_index addr)
    then err (out_of_range addr)
    else if not (bit a.usable (frame_index addr))
    then err (not_usable addr)
    else if not (bit a.bits (frame_index addr))
    then err (double_free addr)
    else ok (release_frame a (frame_index addr))
