-- ===== src/MemoryMap/Best.antt =====
-- What the kind of an address is, of several regions there: kernel/lib/mm/src/map.rs.
use nexo_os.Prelude.{
  ℕ, ◌≤◌, ◌≡◌, refl, sym, ◌∙◌, ◌⊎◌, inl, inr, true, false, List, [], ◌∷◌, Option, none, some, arith,
  ltb, All, Bool-cases,
}
use nexo_os.MemoryMap.{MemoryKind, MemoryRegion, kind_of, priority, better}
use nexo_os.MemoryMap.Kinds.{contains, best_at}

-- Some entry of a list has the property.
abbrev pub Any {ℓ} : {A : Type ℓ} → (A → Type 0) → List A → Type 0
Any P [] = ⊥
Any P (x ∷ xs) = P x ⊎ Any P xs

-- No region there has a kind of a higher priority.
abbrev pub IsTop : ℕ → MemoryKind → MemoryRegion → Type 0
IsTop x k r = contains r x ≡ true → priority (kind_of r) ≤ priority k

abbrev pub IsThere : ℕ → MemoryKind → MemoryRegion → Type 0
IsThere x k r = (contains r x ≡ true) × (kind_of r ≡ k)

-- The kind of an address: of a region there, and of the highest priority; none where there is none.
abbrev pub IsKind : List MemoryRegion → ℕ → Option MemoryKind → Type 0
IsKind rs x none = All (λ r. contains r x ≡ false) rs
IsKind rs x (some k) = Any (IsThere x k) rs × All (IsTop x k) rs

-- The best from `b` on.
IsFrom : MemoryKind → List MemoryRegion → ℕ → Option MemoryKind → Type 0
IsFrom b rs x none = ⊥
IsFrom b rs x (some k) =
    ((k ≡ b) ⊎ Any (IsThere x k) rs) × All (IsTop x k) rs × (priority b ≤ priority k)

below :
    (k c : MemoryKind) (r : MemoryRegion) (x : ℕ)
    → priority (kind_of r) ≤ priority c
    → priority c ≤ priority k
    → priority (kind_of r) ≤ priority k
below k c r x h q = omega arith

seen :
    (b c : MemoryKind) (r : MemoryRegion) (rs : List MemoryRegion) (x : ℕ) (o : Option MemoryKind)
    → ((c ≡ b) ⊎ IsThere x c r)
    → priority b ≤ priority c
    → IsTop x c r
    → IsFrom c rs x o
    → IsFrom b (r ∷ rs) x o
unfolding IsFrom
seen b c r rs x none h p t w = w
seen b c r rs x (some k) (inl h) p t (inl e, a, q) =
    (inl (e ∙ h), ((λ i. below k c r x (t i) q), a), omega arith)
seen b c r rs x (some k) (inr (h, m)) p t (inl e, a, q) =
    (inr (inl (h, m ∙ sym e)), ((λ i. below k c r x (t i) q), a), omega arith)
seen b c r rs x (some k) h p t (inr e, a, q) =
    (inr (inr e), ((λ i. below k c r x (t i) q), a), omega arith)

best_some :
    (b : MemoryKind) (rs : List MemoryRegion) (x : ℕ) → IsFrom b rs x (best_at x (some b) rs)
unfolding IsFrom best_at
best_some b [] x = (inl refl, tt, omega arith)
best_some b (r ∷ rs) x = elim (Bool-cases (contains r x)) [
  | inr e ↦ rw e (
      unfold IsFrom in
      seen b b r rs x _ (inl refl) (omega arith) (λ i. ground arith) (best_some b rs x))
  | inl e ↦ elim (Bool-cases (ltb (priority b) (priority (kind_of r)))) [
    | inl h ↦
        rw (e, better, h)
          (seen b (kind_of r) r rs x _ (inr (e, refl)) (ground arith) (λ i. omega arith)
            (best_some (kind_of r) rs x))
    | inr h ↦
        rw (e, better, h)
          (seen b b r rs x _ (inl refl) (omega arith) (λ i. ground arith) (best_some b rs x))
  ]
]

-- The first region there counts as any later one.
opened :
    (r : MemoryRegion) (rs : List MemoryRegion) (x : ℕ) (o : Option MemoryKind)
    → contains r x ≡ true
    → IsFrom (kind_of r) rs x o
    → IsKind (r ∷ rs) x o
unfolding IsFrom
opened r rs x none e w = absurd w
opened r rs x (some k) e (inl h, a, q) = (inl (e, sym h), ((λ i. q), a))
opened r rs x (some k) e (inr h, a, q) = (inr h, ((λ i. q), a))

passed :
    (r : MemoryRegion) (rs : List MemoryRegion) (x : ℕ) (o : Option MemoryKind)
    → contains r x ≡ false
    → IsKind rs x o
    → IsKind (r ∷ rs) x o
passed r rs x none e w = (e, w)
passed r rs x (some k) e (h, a) = (inr h, ((λ i. ground arith), a))

-- The search over the regions finds the kind of the address.
pub best_at-IsKind : (rs : List MemoryRegion) (x : ℕ) → IsKind rs x (best_at x none rs)
unfolding best_at better
best_at-IsKind [] x = tt
best_at-IsKind (r ∷ rs) x = elim (Bool-cases (contains r x)) [
  | inl e ↦ rw e (opened r rs x _ e (best_some (kind_of r) rs x))
  | inr e ↦ rw e (passed r rs x _ e (best_at-IsKind rs x))
]
