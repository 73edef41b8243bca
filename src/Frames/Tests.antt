-- ===== src/Frames/Tests.antt =====
-- The theorems on kernel/lib/mm/src/bitmap.rs at concrete allocators.
use nexo_os.Prelude.{ℕ, ◌*◌, ◌≡◌, ◌≢◌, refl, List, [], ◌∷◌, arith, some, ok, All}
use nexo_os.Frames.{
  Allocator, release_frame, page_size, bit, frame_index, double_free, new, allocate, free,
}
use nexo_os.Frames.Inv.{IsValid}
use nexo_os.Frames.Alloc.{Allocated, allocate_lem}
use nexo_os.Frames.Free.{free-allocate}
use nexo_os.Frames.Trace.{
  Op, alloc, release, open_range, run, InUse, Spares, run-new-IsValid, run_no_reuse,
}

-- Three frames, all usable.
abbrev opening : List Op
opening = open_range 0 12288 ∷ []

abbrev three : Allocator
unfolding new run
three = (run (new 3) opening).0

three-IsValid : IsValid three
unfolding three run
three-IsValid = run-new-IsValid 3 opening

run-new-IsValid_example : IsValid (run (new 3) (open_range 0 12288 ∷ alloc ∷ release 0 ∷ [])).0
run-new-IsValid_example = run-new-IsValid 3 (open_range 0 12288 ∷ alloc ∷ release 0 ∷ [])

allocate_lem_example : Allocated three (allocate three)
allocate_lem_example = allocate_lem three three-IsValid

-- The frame at address 0 is in use.
abbrev two_left : Allocator
unfolding allocate
two_left = (allocate three).0

handed_out : allocate three ≡ (two_left, some 0)
unfolding allocate nexo_os.Frames.take_frame nexo_os.Frames.scan three nexo_os.Frames.Trace.step
    nexo_os.Frames.mark_usable nexo_os.Frames.frame_range nexo_os.Frames.for_frames
    nexo_os.Frames.mark_usable_frame bit nexo_os.Frames.put nexo_os.Frames.is_full
    nexo_os.Frames.trailing_ones
handed_out = refl

free-allocate_example :
    (b : Allocator) × (free two_left 0 ≡ ok b)
    × IsValid b
    × ((g : ℕ) → bit b.bits g ≡ bit three.bits g)
    × (b.stats.free ≡ three.stats.free)
free-allocate_example = free-allocate three 0 three-IsValid handed_out

two_left-IsValid : IsValid two_left
unfolding two_left run nexo_os.Frames.take_frame nexo_os.Frames.Trace.step three
    nexo_os.Frames.mark_usable
two_left-IsValid = run-new-IsValid 3 (open_range 0 12288 ∷ alloc ∷ [])

abbrev returned : Allocator
unfolding release_frame
returned = release_frame two_left 0

given_back : free two_left 0 ≡ ok returned
unfolding free two_left nexo_os.Frames.take_frame nexo_os.Frames.scan three
    nexo_os.Frames.Trace.step returned nexo_os.Frames.mark_usable nexo_os.Frames.frame_range
    nexo_os.Frames.for_frames nexo_os.Frames.mark_usable_frame bit nexo_os.Frames.put
    nexo_os.Frames.is_full nexo_os.Frames.trailing_ones
given_back = refl

other_frame : frame_index 4096 ≢ 0
other_frame = omega arith

run_no_reuse_example :
    InUse 0 (run two_left (alloc ∷ release 4096 ∷ alloc ∷ [])).0
    × All (λ addr. addr ≢ 0 * page_size) (run two_left (alloc ∷ release 4096 ∷ alloc ∷ [])).1
unfolding bit two_left nexo_os.Frames.take_frame nexo_os.Frames.scan three nexo_os.Frames.Trace.step
    nexo_os.Frames.mark_usable nexo_os.Frames.frame_range nexo_os.Frames.for_frames
    nexo_os.Frames.mark_usable_frame nexo_os.Frames.put nexo_os.Frames.is_full
    nexo_os.Frames.trailing_ones
run_no_reuse_example =
    run_no_reuse two_left 0 (alloc ∷ release 4096 ∷ alloc ∷ []) (two_left-IsValid, refl, refl)
      (tt, (other_frame, (tt, tt)))
