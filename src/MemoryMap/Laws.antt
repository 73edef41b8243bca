-- ===== src/MemoryMap/Laws.antt =====
-- `normalize` of kernel/lib/mm/src/map.rs gives every address the kind that the input gives it.
use nexo_os.Prelude.{
  ℕ, ◌≤◌, ◌<◌, ◌≡◌, refl, sym, ap, subst, ◌∙◌, inl, inr, ◌&&◌, List, [], ◌∷◌, none, some, ok, arith,
  ltb, ◌==◌, if◌then◌else◌, All, Bool-cases,
}
use nexo_os.MemoryMap.{MemoryKind, MemoryRegion, kind_of, best_from, same_kind, region, turn, emit}
use nexo_os.MemoryMap.Kinds.{
  kind_at, best_at, from_u32-code, same_kind-eq, IsClear, best_from-eq-best_at,
}

-- The output from its end: no region is empty, each ends before the one written after it starts.
abbrev pub IsStack : ℕ → List MemoryRegion → Type 0
IsStack hi [] = Unit {0}
IsStack hi (r ∷ rs) = (r.end ≤ hi) × (r.start < r.end) × IsStack r.start rs

-- The same from its start.
abbrev pub IsMap : ℕ → List MemoryRegion → Type 0
IsMap lo [] = Unit {0}
IsMap lo (r ∷ rs) = (lo ≤ r.start) × (r.start < r.end) × IsMap r.end rs

pub kind_at-IsStack :
    (hi x : ℕ) (out : List MemoryRegion) → IsStack hi out → hi ≤ x → kind_at out x ≡ none
unfolding kind_at
kind_at-IsStack hi x [] s h = refl
kind_at-IsStack hi x (r ∷ rs) (a, b, s) h = ground (arith, kind_at-IsStack r.start x rs s)

pub kind_at-turn :
    (hi x : ℕ) (out acc : List MemoryRegion)
    → IsStack hi out
    → (x < hi → kind_at acc x ≡ none)
    → kind_at (turn out acc) x ≡ (if ltb x hi then kind_at out x else kind_at acc x)
unfolding kind_at turn
kind_at-turn hi x [] acc s h = ground arith
kind_at-turn hi x (r ∷ rs) acc (a, b, s) h = ground (
  arith,
  kind_at-turn r.start x rs (r ∷ acc) s (λ k. ground arith),
  kind_at-IsStack r.start x rs s,
)

weaken-IsMap : (lo hi : ℕ) (rs : List MemoryRegion) → lo ≤ hi → IsMap hi rs → IsMap lo rs
weaken-IsMap lo hi [] h m = tt
weaken-IsMap lo hi (r ∷ rs) h (a, b, m) = (omega arith, b, m)

weaken-IsStack : (lo hi : ℕ) (rs : List MemoryRegion) → lo ≤ hi → IsStack lo rs → IsStack hi rs
weaken-IsStack lo hi [] h s = tt
weaken-IsStack lo hi (r ∷ rs) h (a, b, s) = (omega arith, b, s)

pub turn-IsMap :
    (hi : ℕ) (out acc : List MemoryRegion) → IsStack hi out → IsMap hi acc → IsMap 0 (turn out acc)
unfolding turn
turn-IsMap hi [] acc s m = weaken-IsMap 0 hi acc (omega arith) m
turn-IsMap hi (r ∷ rs) acc (a, b, s) m =
    turn-IsMap r.start rs (r ∷ acc) s (omega arith, b, weaken-IsMap r.end hi acc a m)

-- What the output says once the windows below `lo` are done.
pub record IsDone (valid out : List MemoryRegion) (lo : ℕ) : Type 0 where
  pub stack : IsStack lo out
  pub kinds : (x : ℕ) → kind_at out x ≡ (if ltb x lo then best_at x none valid else none)

module _ (valid out : List MemoryRegion) (lo hi : ℕ) (h : lo < hi) (c : All (IsClear lo hi) valid)
    (d : IsDone valid out lo) where
  best_in : (x : ℕ) → lo ≤ x → x < hi → best_at x none valid ≡ best_from lo hi none valid
  best_in x a b = sym (best_from-eq-best_at lo hi x none valid a b c)

  -- A window that no region covers.
  pub skip-IsDone : best_from lo hi none valid ≡ none → IsDone valid out hi
  skip-IsDone e = record {
    stack = weaken-IsStack lo hi out (omega arith) d.stack;
    kinds = λ x. ground (arith, d.kinds x, best_in x);
  }

  -- A window with a kind: joined to the last region, or a region of its own.
  new-IsDone :
      (k : MemoryKind)
      → best_from lo hi none valid ≡ some k
      → IsDone valid (region lo hi k ∷ out) hi
  unfolding kind_at
  new-IsDone k e = record {
    stack = (omega arith, h, d.stack);
    kinds = λ x. ground (arith, d.kinds x, best_in x, from_u32-code k);
  }

join-IsDone :
    (valid : List MemoryRegion) (r : MemoryRegion) (rs : List MemoryRegion) (lo hi : ℕ)
    → lo < hi
    → All (IsClear lo hi) valid
    → IsDone valid (r ∷ rs) lo
    → best_from lo hi none valid ≡ some (kind_of r)
    → r.end ≡ lo
    → IsDone valid (record r { end = hi } ∷ rs) hi
unfolding kind_at
join-IsDone valid r rs lo hi h c d e q = record {
  stack = let s = d.stack in (omega arith, omega arith, s.2);
  kinds = λ x.
      let s = d.stack in
      ground
        (arith, d.kinds x, best_in valid (r ∷ rs) lo hi h c d x, kind_at-IsStack r.start x rs s.2);
}

pub emit-IsDone :
    (valid out : List MemoryRegion) (lo hi : ℕ) (k : MemoryKind) (size : ℕ)
    {out' : List MemoryRegion}
    → lo < hi
    → All (IsClear lo hi) valid
    → IsDone valid out lo
    → best_from lo hi none valid ≡ some k
    → emit size out lo hi k ≡ ok out'
    → IsDone valid out' hi
unfolding emit
emit-IsDone valid [] lo hi k size h c d e m =
    subst (λ o. IsDone valid o hi) (ground arith) (new-IsDone valid [] lo hi h c d k e)
emit-IsDone valid (r ∷ rs) lo hi k size h c d e m =
    elim (Bool-cases ((r.end == lo) && same_kind (kind_of r) k)) [
      | inl t ↦
          let q : r.end ≡ lo = ground arith in
          let same : kind_of r ≡ k = same_kind-eq (kind_of r) k (ground arith) in
          subst (λ o. IsDone valid o hi) (ground arith)
            (join-IsDone valid r rs lo hi h c d (e ∙ ap some (sym same)) q)
      | inr t ↦
          subst (λ o. IsDone valid o hi) (ground arith) (new-IsDone valid (r ∷ rs) lo hi h c d k e)
    ]
