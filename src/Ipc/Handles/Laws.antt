-- ===== src/Ipc/Handles/Laws.antt =====
-- Laws of the handle table of kernel/src/ipc.rs.
use nexo_os.Prelude.{
  ℕ, zero, suc, ◌≤◌, ◌<◌, ◌≡◌, ◌≢◌, refl, ap, [], ◌∷◌, ◌++◌, Option, none, some, ok, err, arith,
  length, length-set, length-append, set, ◌==◌, if◌then◌else◌, inl, inr, Option-cases,
}
use nexo_os.Ipc.Types.{Handle, Status, no_memory, bad_handle}
use nexo_os.Ipc.Handles.{Table, handles_max, first_free, place, insert, slot, get, take, len}

slot-set :
    (t : Table) (i j : ℕ) (v : Option Handle)
    → i < length t
    → slot (set t i v) j ≡ (if i == j then v else slot t j)
slot-set [] i j v h = absurd (omega arith)
slot-set (s ∷ t) zero zero v h = refl
slot-set (s ∷ t) zero (suc j) v h = ground arith
slot-set (s ∷ t) (suc i) zero v h = ground arith
slot-set (s ∷ t) (suc i) (suc j) v h = ground (arith, slot-set t i j v)

slot-append :
    (t : Table) (j : ℕ) (h : Handle)
    → slot (t ++ (some h ∷ [])) j ≡ (if length t == j then some h else slot t j)
slot-append [] zero h = refl
slot-append [] (suc j) h = ground arith
slot-append (s ∷ t) zero h = ground arith
slot-append (s ∷ t) (suc j) h = ground (arith, slot-append t j h)

slot_past : (t : Table) (j : ℕ) → length t ≤ j → slot t j ≡ none
slot_past [] j h = refl
slot_past (s ∷ t) zero h = absurd (omega arith)
slot_past (s ∷ t) (suc j) h = slot_past t j (omega arith)

slot_some_lt : (t : Table) (j : ℕ) (h : Handle) → slot t j ≡ some h → j < length t
slot_some_lt [] j h e = cc
slot_some_lt (s ∷ t) zero h e = omega arith
slot_some_lt (s ∷ t) (suc j) h e = omega (arith, slot_some_lt t j h e)

-- The first free slot is free, and every slot before it is taken.
first_free-some :
    (t : Table) (i : ℕ)
    → first_free t ≡ some i
    → (i < length t) × (slot t i ≡ none) × ((j : ℕ) → j < i → slot t j ≢ none)
unfolding first_free
first_free-some [] i e = cc
first_free-some (none ∷ t) zero e = (omega arith, refl, (λ j lt p. absurd (omega arith)))
first_free-some (none ∷ t) (suc i) e = absurd (ground arith)
first_free-some (some h ∷ t) zero e = absurd (ground arith)
first_free-some (some h ∷ t) (suc i) e =
    let r = first_free-some t i (ground arith) in (omega arith, r.1, before t h i (r.2))
  where
    before :
        (t : Table) (h : Handle) (i : ℕ)
        → ((j : ℕ) → j < i → slot t j ≢ none)
        → (j : ℕ) → j < suc i
        → slot (some h ∷ t) j ≢ none
    before t h i r zero lt p = cc
    before t h i r (suc j) lt p = r j (omega arith) p

-- A table with no free slot holds a handle in each.
first_free-none : (t : Table) → first_free t ≡ none → len t ≡ length t
unfolding first_free len
first_free-none [] e = refl
first_free-none (none ∷ t) e = cc
first_free-none (some h ∷ t) e = ground (arith, first_free-none t)

len-set-some :
    (t : Table) (i : ℕ) (h : Handle)
    → i < length t
    → slot t i ≡ none
    → len (set t i (some h)) ≡ suc (len t)
unfolding len
len-set-some [] i h lt e = absurd (omega arith)
len-set-some (none ∷ t) zero h lt e = refl
len-set-some (some k ∷ t) zero h lt e = cc
len-set-some (none ∷ t) (suc i) h lt e = len-set-some t i h (omega arith) e
len-set-some (some k ∷ t) (suc i) h lt e = ap suc (len-set-some t i h (omega arith) e)

len-append : (t : Table) (h : Handle) → len (t ++ (some h ∷ [])) ≡ suc (len t)
unfolding len
len-append [] h = refl
len-append (none ∷ t) h = len-append t h
len-append (some k ∷ t) h = ap suc (len-append t h)

-- What an insertion at `i` does to a table.
pub record Placed (t : Table) (h : Handle) (i : ℕ) (t' : Table) : Type 0 where
  pub stored : get t' i ≡ ok h
  pub was_free : get t i ≡ err bad_handle
  pub lowest : (j : ℕ) → j < i → slot t j ≢ none
  pub others : (j : ℕ) → slot t' j ≡ (if i == j then some h else slot t j)
  pub counted : len t' ≡ suc (len t)
  pub bounded : length t' ≤ handles_max

Placed-free :
    (t : Table) (h : Handle) (i : ℕ)
    → length t ≤ handles_max
    → first_free t ≡ some i
    → Placed t h i (set t i (some h))
unfolding get
Placed-free t h i b e =
    let r = first_free-some t i e in
    let o = slot-set t i i (some h) (r.0) in
    record {
      stored = ground arith;
      was_free = rw (r.1);
      lowest = r.2;
      others = λ j. slot-set t i j (some h) (r.0);
      counted = len-set-some t i h (r.0) (r.1);
      bounded = rw length-set b;
    }

no_gap : (t : Table) → first_free t ≡ none → (j : ℕ) → j < length t → slot t j ≢ none
unfolding first_free
no_gap [] e j lt p = absurd (omega arith)
no_gap (none ∷ t) e j lt p = cc
no_gap (some h ∷ t) e zero lt p = cc
no_gap (some h ∷ t) e (suc j) lt p = no_gap t (ground arith) j (omega arith) p

Placed-last :
    (t : Table) (h : Handle)
    → length t < handles_max
    → first_free t ≡ none
    → Placed t h (length t) (t ++ (some h ∷ []))
unfolding get
Placed-last t h b e =
    let o = slot-append t (length t) h in
    let p = slot_past t (length t) (omega arith) in
    record {
      stored = ground arith;
      was_free = rw p;
      lowest = no_gap t e;
      others = λ j. slot-append t j h;
      counted = len-append t h;
      bounded = omega (arith, length-append t (some h ∷ []));
    }

place-some :
    (t : Table) (h : Handle) (k i : ℕ) (t' : Table)
    → place t h (some k) ≡ ok (i, t')
    → (i ≡ k) × (t' ≡ set t k (some h))
unfolding place
place-some t h k i t' e = ground arith

place-none :
    (t : Table) (h : Handle) (i : ℕ) (t' : Table)
    → place t h none ≡ ok (i, t')
    → (length t < handles_max) × (i ≡ length t) × (t' ≡ t ++ (some h ∷ []))
unfolding place
place-none t h i t' e = ground arith

-- In a table within its bound a successful `insert` stores the handle in the lowest free slot, or
-- in a new last one if none is free, changes no other slot, counts one handle more and keeps the
-- bound.
pub insert-Placed :
    (t : Table) (h : Handle) {i : ℕ} {t' : Table}
    → length t ≤ handles_max
    → insert t h ≡ ok (i, t')
    → Placed t h i t'
unfolding insert
insert-Placed t h {i} {t'} b e = elim (Option-cases (first_free t)) [
  | inr (k, f) ↦ let q = place-some t h k i t' (rw f at e) in rw (q.0, q.1) (Placed-free t h k b f)
  | inl f ↦ let q = place-none t h i t' (rw f at e) in rw (q.1, q.2) (Placed-last t h (q.0) f)
]

-- `insert` refuses exactly when every one of the 256 slots holds a handle, with `NoMemory`.
pub insert_refused :
    (t : Table) (h : Handle) (e : Status)
    → length t ≤ handles_max
    → insert t h ≡ err e
    → (e ≡ no_memory) × (len t ≡ handles_max)
unfolding insert
insert_refused t h e b r = elim (Option-cases (first_free t)) [
  | inr (k, f) ↦ ground arith
  | inl f ↦ ground (arith, first_free-none t f)
]

-- Taking out the handle that was just inserted returns it and leaves every slot as it was.
pub take-insert :
    (t : Table) (h : Handle) {i : ℕ} {t' : Table}
    → length t ≤ handles_max
    → insert t h ≡ ok (i, t')
    → (t'' : Table) × (take t' i ≡ ok (h, t'')) × ((j : ℕ) → slot t'' j ≡ slot t j)
unfolding take
take-insert t h {i} {t'} b e =
    let p = insert-Placed t h b e in
    let s : slot t' i ≡ some h = ground (arith, p.others i) in
    let lt = slot_some_lt t' i h s in
    let g : get t' i ≡ ok h = p.stored in
    (
      set t' i none,
      rw g,
      (λ j. ground (arith, slot-set t' i j none lt, p.others j, vacant t i (p.was_free))),
    )
  where
    vacant : (t : Table) (i : ℕ) → get t i ≡ err bad_handle → slot t i ≡ none
    vacant t i e = ground arith
