-- ===== src/Ipc/Payload.antt =====
-- `Payload` of kernel/src/ipc.rs: a message's bytes, inline when they fit, else on the heap.
use nexo_os.Prelude.{
  ℕ, zero, ◌-◌, ◌≤◌, ◌≡◌, refl, ap, List, [], ◌∷◌, ◌++◌, arith, length, length-append,
  length-replicate, take, replicate, leb, if◌then◌else◌, inl, inr, Bool-cases,
}

abbrev pub payload_inline : ℕ
payload_inline = 128

-- `inline` holds `PAYLOAD_INLINE` bytes, of which the first `len` count.
pub data Payload : Type 0 where
  inline : List ℕ → ℕ → Payload
  heap : List ℕ → Payload

unfoldable pub from_slice : List ℕ → Payload
from_slice dados =
    if leb (length dados) payload_inline
    then inline (dados ++ replicate (payload_inline - length dados) 0) (length dados)
    else heap dados

-- `From<Vec<u8>>`: the vector is taken over as it is.
unfoldable pub from_vec : List ℕ → Payload
from_vec v = heap v

unfoldable pub deref : Payload → List ℕ
deref (inline bytes len) = take len bytes
deref (heap v) = v

-- The fixed array of an inline payload is full, and its length fits.
abbrev pub Fits : Payload → Type 0
Fits (inline bytes len) = (length bytes ≡ payload_inline) × (len ≤ payload_inline)
Fits (heap v) = Unit

take-append : (xs ys : List ℕ) → take (length xs) (xs ++ ys) ≡ xs
take-append [] ys = refl
take-append (x ∷ xs) ys = ap (◌∷◌ x) (take-append xs ys)

-- A payload reads back the bytes it was made from, by either constructor, and `from_slice` fills
-- its array exactly.
pub deref-from_slice :
    (dados : List ℕ)
    → (deref (from_slice dados) ≡ dados)
      × (deref (from_vec dados) ≡ dados)
      × Fits (from_slice dados)
unfolding deref from_slice from_vec
deref-from_slice dados = elim (Bool-cases (leb (length dados) payload_inline)) [
  | inl e ↦ rw e (
    take-append dados _,
    refl,
    (
      omega (
        arith,
        length-append dados (replicate (payload_inline - length dados) 0),
        length-replicate (payload_inline - length dados) (zero),
        (let h : length dados ≤ 128 = ground arith in h),
      ),
      ground arith,
    ),
  )
  | inr e ↦ rw e (refl, refl, tt)
]
