-- ===== src/MemoryMap/Cuts.antt =====
-- The cuts of kernel/lib/mm/src/map.rs: sorted, without repetition, and none is lost.
use nexo_os.Prelude.{
  ℕ, ◌≤◌, ◌<◌, ◌≡◌, refl, subst, inl, inr, Bool, true, false, ◌||◌, List, [], ◌∷◌, arith, ltb, ◌==◌,
  Bool-cases,
}
use nexo_os.MemoryMap.{MemoryRegion, cuts_of, sink, sort_from, turn, uniq_after, uniq, cuts}

unfoldable pub has : ℕ → List ℕ → Bool
has v [] = false
has v (x ∷ xs) = (x == v) || has v xs

has-sink : (v x : ℕ) (ys : List ℕ) → has v (sink x ys) ≡ ((x == v) || has v ys)
unfolding has sink
has-sink v x [] = refl
has-sink v x (y ∷ ys) = ground (arith, has-sink v x ys)

has-sort_from :
    (v : ℕ) (sorted xs : List ℕ) → has v (sort_from sorted xs) ≡ (has v sorted || has v xs)
unfolding has sort_from
has-sort_from v sorted [] = ground arith
has-sort_from v sorted (x ∷ xs) =
    ground (arith, has-sort_from v (sink x sorted) xs, has-sink v x sorted)

has-turn : (v : ℕ) (xs acc : List ℕ) → has v (turn xs acc) ≡ (has v xs || has v acc)
unfolding has turn
has-turn v [] acc = refl
has-turn v (x ∷ xs) acc = ground (arith, has-turn v xs (x ∷ acc))

has-uniq_after :
    (v u : ℕ) (xs : List ℕ) → ((u == v) || has v (uniq_after u xs)) ≡ ((u == v) || has v xs)
unfolding has uniq_after
has-uniq_after v u [] = refl
has-uniq_after v u (x ∷ xs) = ground (arith, has-uniq_after v x xs)

has-uniq : (v : ℕ) (xs : List ℕ) → has v (uniq xs) ≡ has v xs
unfolding uniq has
has-uniq v [] = refl
has-uniq v (x ∷ xs) = has-uniq_after v x xs

-- Every bound of a valid region is a cut.
pub has-cuts : (v : ℕ) (valid : List MemoryRegion) → has v (cuts valid) ≡ has v (cuts_of valid)
unfolding cuts has
has-cuts v valid =
    let s = sort_from [] (cuts_of valid) in
    ground (arith, has-uniq v (turn s []), has-turn v s [], has-sort_from v [] (cuts_of valid))

-- From the end of the sorted part each entry is at most the one before.
abbrev Under : ℕ → List ℕ → Type 0
Under b [] = Unit {0}
Under b (y ∷ ys) = y ≤ b

abbrev IsFalling : List ℕ → Type 0
IsFalling [] = Unit {0}
IsFalling (y ∷ ys) = Under y ys × IsFalling ys

Under-sink : (b x : ℕ) (ys : List ℕ) → x ≤ b → Under b ys → Under b (sink x ys)
unfolding sink
Under-sink b x [] h u = h
Under-sink b x (y ∷ ys) h u = elim (Bool-cases (ltb x y)) [ inl e ↦ rw e u | inr e ↦ rw e h ]

sink-IsFalling : (x : ℕ) (ys : List ℕ) → IsFalling ys → IsFalling (sink x ys)
unfolding sink
sink-IsFalling x [] f = (tt, tt)
sink-IsFalling x (y ∷ ys) (u, f) = elim (Bool-cases (ltb x y)) [
  | inl e ↦ rw e (Under-sink y x ys (ground arith) u, sink-IsFalling x ys f)
  | inr e ↦ rw e (ground arith, (u, f))
]

sort_from-IsFalling : (sorted xs : List ℕ) → IsFalling sorted → IsFalling (sort_from sorted xs)
unfolding sort_from
sort_from-IsFalling sorted [] f = f
sort_from-IsFalling sorted (x ∷ xs) f =
    sort_from-IsFalling (sink x sorted) xs (sink-IsFalling x sorted f)

abbrev IsRising : ℕ → List ℕ → Type 0
IsRising lo [] = Unit {0}
IsRising lo (y ∷ ys) = (lo ≤ y) × IsRising y ys

turn-IsRising :
    (x : ℕ) (xs acc : List ℕ) → IsFalling (x ∷ xs) → IsRising x acc → IsRising 0 (turn xs (x ∷ acc))
unfolding turn
turn-IsRising x [] acc f r = (omega arith, r)
turn-IsRising x (y ∷ ys) acc (u, f) r = turn-IsRising y ys (x ∷ acc) f (u, r)

turn_all-IsRising : (xs : List ℕ) → IsFalling xs → IsRising 0 (turn xs [])
unfolding turn
turn_all-IsRising [] f = tt
turn_all-IsRising (x ∷ xs) f = turn-IsRising x xs [] f tt

-- Each is greater than the one before.
abbrev pub IsIncreasing : ℕ → List ℕ → Type 0
IsIncreasing lo [] = Unit {0}
IsIncreasing lo (y ∷ ys) = (lo < y) × IsIncreasing y ys

abbrev pub AreIncreasing : List ℕ → Type 0
AreIncreasing [] = Unit {0}
AreIncreasing (y ∷ ys) = IsIncreasing y ys

uniq_after-IsIncreasing : (u : ℕ) (xs : List ℕ) → IsRising u xs → IsIncreasing u (uniq_after u xs)
unfolding uniq_after
uniq_after-IsIncreasing u [] r = tt
uniq_after-IsIncreasing u (x ∷ xs) (h, r) = elim (Bool-cases (x == u)) [
  | inl e ↦ rw e (
      subst (λ b. IsIncreasing b (uniq_after x xs)) (ground arith) (uniq_after-IsIncreasing x xs r))
  | inr e ↦ rw e (ground arith, uniq_after-IsIncreasing x xs r)
]

uniq-AreIncreasing : (lo : ℕ) (xs : List ℕ) → IsRising lo xs → AreIncreasing (uniq xs)
unfolding uniq
uniq-AreIncreasing lo [] r = tt
uniq-AreIncreasing lo (x ∷ xs) (h, r) = uniq_after-IsIncreasing x xs r

-- The cuts are sorted and none is there twice.
pub cuts-AreIncreasing : (valid : List MemoryRegion) → AreIncreasing (cuts valid)
unfolding cuts
cuts-AreIncreasing valid =
    uniq-AreIncreasing 0 (turn (sort_from [] (cuts_of valid)) [])
      (turn_all-IsRising _ (sort_from-IsFalling [] (cuts_of valid) tt))

pub lt_of_has : (lo v : ℕ) (xs : List ℕ) → IsIncreasing lo xs → has v xs ≡ true → lo < v
unfolding has
lt_of_has lo v [] i h = ground arith
lt_of_has lo v (x ∷ xs) (a, i) h = ground (arith, lt_of_has x v xs i)
