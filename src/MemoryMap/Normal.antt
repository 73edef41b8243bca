-- ===== src/MemoryMap/Normal.antt =====
-- The whole of `normalize` (kernel/lib/mm/src/map.rs): from the cuts to the output.
use nexo_os.Prelude.{
  ℕ, ◌≤◌, ◌<◌, ◌≡◌, sym, refl, subst, ◌∙◌, ◌⊎◌, inl, inr, true, false, not, ◌&&◌, List, [], ◌∷◌,
  none, Result, ok, err, Result-cases, Option-cases, arith, ltb, ◌==◌, if_cases, All, All-mono,
  Bool-cases,
}
use nexo_os.MemoryMap.{
  MemoryRegion, MapError, kind_of, best_from, turn, emit, fill, fill_all, valid_regions, cuts_of,
  cuts, normalize, is_empty, is_unknown, page_align,
}
use nexo_os.MemoryMap.Cuts.{
  has, has-cuts, IsIncreasing, AreIncreasing, cuts-AreIncreasing, lt_of_has,
}
use nexo_os.MemoryMap.Kinds.{contains, kind_at, best_at, IsClear, best_at-none}
use nexo_os.MemoryMap.Best.{IsKind, best_at-IsKind}
use nexo_os.MemoryMap.Laws.{
  IsMap, IsStack, IsDone, skip-IsDone, emit-IsDone, kind_at-turn, kind_at-IsStack, turn-IsMap,
}

-- A bound is a cut that was passed, or one that is still to come.
abbrev IsKnown : ℕ → List ℕ → ℕ → Type 0
IsKnown lo his v = (v ≤ lo) ⊎ (has v his ≡ true)

abbrev AreKnown : ℕ → List ℕ → MemoryRegion → Type 0
AreKnown lo his r = IsKnown lo his r.start × IsKnown lo his r.end × (r.start < r.end)

clear_one :
    (lo hi v : ℕ) (his : List ℕ)
    → IsIncreasing lo (hi ∷ his)
    → IsKnown lo (hi ∷ his) v
    → (v ≤ lo) ⊎ (hi ≤ v)
unfolding has
clear_one lo hi v his (a, i) (inl h) = inl h
clear_one lo hi v his (a, i) (inr h) = inr (ground (arith, lt_of_has hi v his i))

known_one : (lo hi v : ℕ) (his : List ℕ) → lo < hi → IsKnown lo (hi ∷ his) v → IsKnown hi his v
unfolding has
known_one lo hi v his a (inl h) = inl (omega arith)
known_one lo hi v his a (inr h) = elim (Bool-cases (hi == v)) [
  | inl e ↦ inl (ground arith)
  | inr e ↦ inr (ground arith)
]

clear :
    (lo hi : ℕ) (his : List ℕ) (r : MemoryRegion)
    → IsIncreasing lo (hi ∷ his)
    → AreKnown lo (hi ∷ his) r
    → IsClear lo hi r
clear lo hi his r i (s, e, n) = (clear_one lo hi r.start his i s, clear_one lo hi r.end his i e, n)

known :
    (lo hi : ℕ) (his : List ℕ) (r : MemoryRegion)
    → lo < hi
    → AreKnown lo (hi ∷ his) r
    → AreKnown hi his r
known lo hi his r a (s, e, n) = (known_one lo hi r.start his a s, known_one lo hi r.end his a e, n)

past : (lo x : ℕ) (r : MemoryRegion) → lo ≤ x → AreKnown lo [] r → contains r x ≡ false
unfolding has
past lo x r h (s, inl e, n) = ground arith
past lo x r h (s, inr e, n) = ground arith

-- What the output says when all windows are done.
abbrev IsEqual : List MemoryRegion → List MemoryRegion → Type 0
IsEqual valid out = (x : ℕ) → kind_at out x ≡ best_at x none valid

finished :
    (valid out : List MemoryRegion) (lo : ℕ)
    → All (AreKnown lo []) valid
    → IsDone valid out lo
    → IsEqual valid out
finished valid out lo k d x = elim (Bool-cases (ltb x lo)) [
  | inl e ↦ ground (arith, d.kinds x)
  | inr e ↦
      let far =
        best_at-none x valid
          (All-mono (AreKnown lo []) _ valid (λ r. past lo x r (ground arith)) k) in
      ground (arith, d.kinds x)
]

fill-IsDone :
    (size : ℕ) (valid out : List MemoryRegion) (lo : ℕ) (his : List ℕ) {out' : List MemoryRegion}
    → IsIncreasing lo his
    → All (AreKnown lo his) valid
    → IsDone valid out lo
    → fill size valid out lo his ≡ ok out'
    → (hi : ℕ) × IsStack hi out' × IsEqual valid out'
unfolding fill
fill-IsDone size valid out lo [] i k d e =
    subst (λ o. (hi : ℕ) × IsStack hi o × IsEqual valid o) (ground arith)
      (lo, d.stack, finished valid out lo k d)
fill-IsDone size valid out lo (hi ∷ his) {out'} (a, i) k d e =
    let c =
      All-mono (AreKnown lo (hi ∷ his)) (IsClear lo hi) valid (λ r. clear lo hi his r (a, i)) k in
    let k' =
      All-mono (AreKnown lo (hi ∷ his)) (AreKnown hi his) valid (λ r. known lo hi his r a) k in
    elim (Option-cases (best_from lo hi none valid)) [
      | inl b ↦
          let e' : fill size valid out hi his ≡ ok out' = rw b at e in
          fill-IsDone size valid out hi his i k' (skip-IsDone valid out lo hi a c d b) e'
      | inr (kind, b) ↦ elim (Result-cases (emit size out lo hi kind)) [
        | inl (out1, m) ↦
            let e' : fill size valid out1 hi his ≡ ok out' = rw (b, m) at e in
            fill-IsDone size valid out1 hi his i k'
              (emit-IsDone valid out lo hi kind size a c d b m) e'
        | inr (x, m) ↦
            let e' : (let r : Result MapError (List MemoryRegion) = err x in r) ≡ ok out' =
              rw (b, m) at e in
            absurd (cc)
      ]
    ]

-- A valid region is not empty.
valid_filled : (rs : List MemoryRegion) → All (λ r. r.start < r.end) (valid_regions rs)
unfolding valid_regions is_empty
valid_filled [] = tt
valid_filled (r ∷ rs) =
    if_cases (All (λ (s : MemoryRegion). s.start < s.end))
      (not (is_empty (page_align r)) && not (is_unknown (kind_of (page_align r)))) _ _
      (λ e. (ground arith, valid_filled rs)) (λ e. valid_filled rs)

-- The bounds of regions are among their cuts.
bounds :
    (rs : List MemoryRegion) (cs : List ℕ)
    → ((v : ℕ) → has v (cuts_of rs) ≡ true → has v cs ≡ true)
    → All (λ r. r.start < r.end) rs
    → All (λ r. (has r.start cs ≡ true) × (has r.end cs ≡ true) × (r.start < r.end)) rs
unfolding cuts_of has
bounds [] cs h f = tt
bounds (r ∷ rs) cs h (a, f) = (
  (h r.start (ground arith), h r.end (ground arith), a),
  bounds rs cs (λ v e. h v (ground arith)) f,
)

-- Before the first cut there is no region.
first :
    (lo : ℕ) (his : List ℕ) (v : ℕ)
    → IsIncreasing lo his
    → has v (lo ∷ his) ≡ true
    → (lo ≤ v) × IsKnown lo his v
unfolding has
first lo his v i h = elim (Bool-cases (lo == v)) [
  | inl e ↦ (ground arith, inl (ground arith))
  | inr e ↦ (ground (arith, lt_of_has lo v his i), inr (ground arith))
]

start-IsDone :
    (valid : List MemoryRegion) (lo : ℕ) → All (λ r. lo ≤ r.start) valid → IsDone valid [] lo
unfolding kind_at
start-IsDone valid lo h = record {
  stack = tt;
  kinds = λ x. elim (Bool-cases (ltb x lo)) [
    | inl e ↦
        let far =
          best_at-none x valid
            (All-mono (λ (r : MemoryRegion). lo ≤ r.start) _ valid (λ r k. ground arith) h) in
        ground arith
    | inr e ↦ ground arith
  ];
}

fill_all-IsEqual :
    (size : ℕ) (valid : List MemoryRegion) (cs : List ℕ) {out : List MemoryRegion}
    → AreIncreasing cs
    → All (λ r. (has r.start cs ≡ true) × (has r.end cs ≡ true) × (r.start < r.end)) valid
    → fill_all size valid cs ≡ ok out
    → (hi : ℕ) × IsStack hi out × IsEqual valid out
unfolding fill_all
fill_all-IsEqual size [] [] {out} i b e =
    unfold kind_at best_at in
    let same : [] ≡ out = ground arith in
    subst (λ o. (hi : ℕ) × IsStack hi o × IsEqual [] o) same (0, tt, λ x. refl)
fill_all-IsEqual size (r ∷ rs) [] i b e = unfold has in ground (arith, b.0)
fill_all-IsEqual size valid (lo ∷ his) i b e =
    let k =
      All-mono _ (AreKnown lo his) valid
        (λ r h. ((first lo his r.start i h.0).1, (first lo his r.end i h.1).1, h.2)) b in
    let f =
      All-mono _ (λ (r : MemoryRegion). lo ≤ r.start) valid (λ r h. (first lo his r.start i h.0).0)
        b in
    fill-IsDone size valid [] lo his i k (start-IsDone valid lo f) e

-- Turned round, the output is a map and says the same.
turned :
    (valid out : List MemoryRegion) (hi : ℕ)
    → IsStack hi out
    → IsEqual valid out
    → IsMap 0 (turn out []) × IsEqual valid (turn out [])
turned valid out hi s e = (
  turn-IsMap hi out [] s tt,
  λ x.
      unfold kind_at in
      ground (arith, kind_at-turn hi x out [] s (λ h. refl), kind_at-IsStack hi x out s, e x),
)

-- As `normalize` writes it, and as a search at each address finds it.
normalize-best_at :
    (input : List MemoryRegion) (size : ℕ) {out : List MemoryRegion}
    → normalize input size ≡ ok out
    → IsMap 0 out × IsEqual (valid_regions input) out
unfolding normalize
normalize-best_at input size {out} e =
    let valid = valid_regions input in
    let cs = cuts valid in
    let b = bounds valid cs (λ v h. has-cuts v valid ∙ h) (valid_filled input) in
    elim (Result-cases (fill_all size valid cs)) [
      | inl (written, m) ↦
          let (hi, s, q) = fill_all-IsEqual size valid cs (cuts-AreIncreasing valid) b m in
          subst (λ o. IsMap 0 o × IsEqual valid o) (ground arith) (turned valid written hi s q)
      | inr (x, m) ↦ ground arith
    ]

-- A memory map that `normalize` accepts comes out sorted, without empty or overlapping regions, and
-- gives every address its kind: that of an aligned input region there, neither empty nor of unknown
-- kind, than which no other such region there has a higher priority; and none where there is no such
-- region.
pub normalize_lem :
    (input : List MemoryRegion) (size : ℕ) {out : List MemoryRegion}
    → normalize input size ≡ ok out
    → IsMap 0 out × ((x : ℕ) → IsKind (valid_regions input) x (kind_at out x))
normalize_lem input size {out} e =
    let valid = valid_regions input in
    let (m, q) = normalize-best_at input size e in
    (m, λ x. subst (IsKind valid x) (sym (q x)) (best_at-IsKind valid x))
