-- ===== src/Ipc/Handles.antt =====
-- The handle table of a process (`HandleTable` of kernel/src/ipc.rs).
pub mod Laws
use nexo_os.Prelude.{
  ℕ, zero, suc, ◌+◌, Bool, true, false, List, [], ◌∷◌, ◌++◌, Option, none, some, Result, ok, err,
  length, get_elem?, set, leb, if◌then◌else◌, ◌>>=◌,
}
use nexo_os.Ipc.Types.{Handle, Status, no_memory, bad_handle}

abbrev pub Table : Type 0
Table = List (Option Handle)

abbrev pub handles_max : ℕ
handles_max = 256

-- `slots.iter().position(|s| s.is_none())`.
unfoldable pub first_free : Table → Option ℕ
first_free [] = none
first_free (none ∷ t) = some 0
first_free (some h ∷ t) = elim (first_free t) [ none ↦ none | some i ↦ some (suc i) ]

-- The slot, and the table with the handle in it: the first free slot, else a new one at the end.
-- (What `insert` does to the end of a channel is `Ends.unpin`.)
unfoldable pub place : Table → Handle → Option ℕ → Result Status (ℕ × Table)
place t h (some i) = ok (i, set t i (some h))
place t h none =
    if leb handles_max (length t) then err no_memory else ok (length t, t ++ (some h ∷ []))

unfoldable pub insert : Table → Handle → Result Status (ℕ × Table)
unfolding place
insert t h = place t h (first_free t)

-- `get` and `take` see a slot past the end as an empty one.
abbrev pub slot : Table → ℕ → Option Handle
slot [] i = none
slot (s ∷ t) zero = s
slot (s ∷ t) (suc i) = slot t i

unfoldable pub found : Option Handle → Result Status Handle
found none = err bad_handle
found (some h) = ok h

unfoldable pub get : Table → ℕ → Result Status Handle
unfolding found
get t i = found (slot t i)

unfoldable pub take : Table → ℕ → Result Status (Handle × Table)
unfolding get
take t i = do h ← get t i; ok (h, set t i none)

-- How many slots hold a handle.
unfoldable pub len : Table → ℕ
len [] = 0
len (none ∷ t) = len t
len (some h ∷ t) = suc (len t)

unfoldable pub is_empty : Table → Bool
unfolding len
is_empty t = leb (len t) 0
