-- ===== src/MemoryMap/Room.antt =====
-- How much room the output of `normalize` (kernel/lib/mm/src/map.rs) needs.
use nexo_os.Prelude.{
  ℕ, suc, ◌+◌, ◌*◌, ◌≤◌, ◌<◌, ◌≡◌, refl, inl, inr, ◌&&◌, List, [], ◌∷◌, none, Result, ok, err,
  arith, leb, ltb, ◌==◌, Bool-cases, ◌⊎◌, if_cases, Result-cases, Option-cases, length,
}
use nexo_os.MemoryMap.{
  MemoryKind, MemoryRegion, MapError, valid_regions, cuts_of, sink, sort_from, turn, uniq_after,
  uniq, cuts, best_from, emit, same_kind, kind_of, fill, fill_all, normalize, max_input_regions,
  too_many_input_regions,
}

length-valid_regions : (rs : List MemoryRegion) → length (valid_regions rs) ≤ length rs
unfolding valid_regions
length-valid_regions [] = omega arith
length-valid_regions (r ∷ rs) = ground (arith, length-valid_regions rs)

length-cuts_of : (rs : List MemoryRegion) → length (cuts_of rs) ≡ 2 * length rs
unfolding cuts_of
length-cuts_of [] = refl
length-cuts_of (r ∷ rs) = omega (arith, length-cuts_of rs)

length-sink : (x : ℕ) (ys : List ℕ) → length (sink x ys) ≡ suc (length ys)
unfolding sink
length-sink x [] = refl
length-sink x (y ∷ ys) = ground (arith, length-sink x ys)

length-sort_from : (sorted xs : List ℕ) → length (sort_from sorted xs) ≡ length sorted + length xs
unfolding sort_from
length-sort_from sorted [] = omega arith
length-sort_from sorted (x ∷ xs) =
    omega (arith, length-sort_from (sink x sorted) xs, length-sink x sorted)

length-turn {ℓ} : {A : Type ℓ} (xs acc : List A) → length (turn xs acc) ≡ length xs + length acc
unfolding turn
length-turn [] acc = omega arith
length-turn (x ∷ xs) acc = omega (arith, length-turn xs (x ∷ acc))

length-uniq_after : (u : ℕ) (xs : List ℕ) → length (uniq_after u xs) ≤ length xs
unfolding uniq_after
length-uniq_after u [] = omega arith
length-uniq_after u (x ∷ xs) = ground (arith, length-uniq_after x xs)

length-uniq : (xs : List ℕ) → length (uniq xs) ≤ length xs
unfolding uniq
length-uniq [] = omega arith
length-uniq (x ∷ xs) = omega (arith, length-uniq_after x xs)

length-cuts : (rs : List MemoryRegion) → length (cuts (valid_regions rs)) ≤ 2 * length rs
unfolding cuts
length-cuts rs =
    let cs = cuts_of (valid_regions rs) in
    omega (
      arith,
      length-uniq (turn (sort_from [] cs) []),
      length-turn (sort_from [] cs) [],
      length-sort_from [] cs,
      length-cuts_of (valid_regions rs),
      length-valid_regions rs,
    )

-- The output was written and has at most `n` regions.
abbrev Fits : ℕ → Result MapError (List MemoryRegion) → Type 0
Fits n (ok out) = length out ≤ n
Fits n (err e) = ⊥

-- A window needs room for one region more.
emit-Fits :
    (size : ℕ) (out : List MemoryRegion) (lo hi : ℕ) (k : MemoryKind)
    → length out < size
    → Fits (suc (length out)) (emit size out lo hi k)
unfolding emit
emit-Fits size [] lo hi k h =
    if_cases (Fits 1) (leb size 0) _ _ (λ e. absurd (ground arith)) (λ e. omega arith)
emit-Fits size (r ∷ rs) lo hi k h =
    if_cases (Fits (suc (suc (length rs)))) ((r.end == lo) && same_kind (kind_of r) k) _ _
      (λ e. omega arith)
      λ e.
        if_cases (Fits (suc (suc (length rs)))) (leb size (suc (length rs))) _ _
          (λ f. absurd (ground arith)) (λ f. omega arith)

fill-Fits :
    (size : ℕ) (valid out : List MemoryRegion) (lo : ℕ) (his : List ℕ)
    → length out + length his ≤ size
    → Fits size (fill size valid out lo his)
unfolding fill
fill-Fits size valid out lo [] h = omega arith
fill-Fits size valid out lo (hi ∷ his) h = elim (Option-cases (best_from lo hi none valid)) [
  | inl b ↦ rw b (fill-Fits size valid out hi his (omega arith))
  | inr (k, b) ↦
      let w = emit-Fits size out lo hi k (omega arith) in
      elim (Result-cases (emit size out lo hi k)) [
        | inl (out', m) ↦
            let w' : length out' ≤ suc (length out) = rw m at w in
            rw (b, m) (fill-Fits size valid out' hi his (omega arith))
        | inr (e, m) ↦ absurd (rw m at w)
      ]
]

fill_all-Fits :
    (size : ℕ) (valid : List MemoryRegion) (cs : List ℕ)
    → length cs ≤ size
    → Fits size (fill_all size valid cs)
unfolding fill_all
fill_all-Fits size valid [] h = omega arith
fill_all-Fits size valid (lo ∷ his) h = fill-Fits size valid [] lo his (omega arith)

-- Two regions of output for each of input are room enough, for as many regions as are accepted; more
-- are refused, however much room there is.
pub normalize_total :
    (input : List MemoryRegion) (size : ℕ)
    → 2 * length input ≤ size
    → ((length input ≤ max_input_regions)
        × (out : List MemoryRegion) × (normalize input size ≡ ok out)
        × (length out ≤ size))
      ⊎ ((max_input_regions < length input) × (normalize input size ≡ err too_many_input_regions))
unfolding normalize
normalize_total input size h = elim (Bool-cases (ltb max_input_regions (length input))) [
  | inl e ↦ inr (ground arith, rw e)
  | inr e ↦
      let valid = valid_regions input in
      let w = fill_all-Fits size valid (cuts valid) (omega (arith, length-cuts input)) in
      elim (Result-cases (fill_all size valid (cuts valid))) [
        | inl (out, m) ↦
            let w' : length out ≤ size = rw m at w in
            inl (ground arith, turn out [], rw (e, m), omega (arith, length-turn out []))
        | inr (x, m) ↦ absurd (rw m at w)
      ]
]
