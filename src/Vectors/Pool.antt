-- ===== src/Vectors/Pool.antt =====
-- The pool of vectors of kernel/src/irq.rs.
use nexo_os.Prelude.{
  ℕ, zero, suc, ◌+◌, ◌-◌, ◌<◌, ◌≡◌, refl, ap, subst, sym, ◌∙◌, Bool, true, false, List, [], ◌∷◌,
  Option, none, some, arith, length, get_or, set, Option-cases, inl, inr,
}
use nexo_os.Vectors.{
  Vectors, user_vector_base, user_vectors, is_user_vector, first_unused, alloc, free, wake,
}

-- The first unused entry, or none at all.
abbrev First : List Bool → Option ℕ → Type 0
First us none = (i : ℕ) → i < length us → get_or us i false ≡ true
First us (some i) =
    (i < length us) × (get_or us i true ≡ false) × ((j : ℕ) → j < i → get_or us j false ≡ true)

skip-First :
    (us : List Bool) (o : Option ℕ)
    → First us o
    → First (true ∷ us) (elim o [ none ↦ none | some i ↦ some (suc i) ])
skip-First us none f = none_left
  where
    none_left : (i : ℕ) → i < suc (length us) → get_or (true ∷ us) i false ≡ true
    none_left zero b = refl
    none_left (suc i) b = f i (omega arith)
skip-First us (some i) (a, b, c) = (omega arith, b, before)
  where
    before : (j : ℕ) → j < suc i → get_or (true ∷ us) j false ≡ true
    before zero k = refl
    before (suc j) k = c j (omega arith)

first_unused-First : (us : List Bool) → First us (first_unused us)
unfolding first_unused
first_unused-First [] = λ i h. absurd (omega arith)
first_unused-First (true ∷ us) = skip-First us (first_unused us) (first_unused-First us)
first_unused-First (false ∷ us) = (omega arith, refl, λ j k. absurd (omega arith))

-- What a call of `alloc` means. A vector is the lowest that was unused, and is marked used.
abbrev pub Outcome : Vectors → Vectors × Option ℕ → Type 0
Outcome s (s', none) = (s' ≡ s) × ((n : ℕ) → n < user_vectors → get_or s.allocated n false ≡ true)
Outcome s (s', some v) =
    (is_user_vector v ≡ true)
    × (get_or s.allocated (v - user_vector_base) true ≡ false)
    × ((n : ℕ) → n < v - user_vector_base → get_or s.allocated n false ≡ true)
    × (s'.allocated ≡ set s.allocated (v - user_vector_base) true)

-- In a pool of 32 entries `alloc` returns the lowest vector that was unused, one of a user's range,
-- and marks it used; it returns none only if every vector is used, and then changes nothing.
pub alloc-Outcome : (s : Vectors) → length s.allocated ≡ user_vectors → Outcome s (alloc s)
unfolding alloc is_user_vector
alloc-Outcome s h =
    let f = first_unused-First s.allocated in
    elim (Option-cases (first_unused s.allocated)) [
      | inl e ↦
          let g : First s.allocated none = rw e at f in
          rw (alloc, e) (refl, λ n b. g n (omega arith))
      | inr (i, e) ↦
          let (a, b, c) : First s.allocated (some i) = rw e at f in
          let n : user_vector_base + i - user_vector_base ≡ i = omega arith in
          rw (alloc, e, n) (ground arith, b, c, refl)
    ]

set-set : (us : List Bool) (n : ℕ) → get_or us n true ≡ false → set (set us n true) n false ≡ us
set-set [] n h = refl
set-set (u ∷ us) zero h = ap (λ b. b ∷ us) (sym h)
set-set (u ∷ us) (suc n) h = ap (λ vs. u ∷ vs) (set-set us n h)

-- Freeing the vector that a pool of 32 entries has just handed out gives back the pool as it was.
pub free-alloc :
    (s s' : Vectors) (v : ℕ)
    → length s.allocated ≡ user_vectors
    → alloc s ≡ (s', some v)
    → (free s' v).0.allocated ≡ s.allocated
unfolding free wake
free-alloc s s' v h e =
    let (user, unused, lowest, marked) = subst (Outcome s) e (alloc-Outcome s h) in
    rw user (
      ap (λ us. set us (v - user_vector_base) false) marked
      ∙ set-set s.allocated (v - user_vector_base) unused)
