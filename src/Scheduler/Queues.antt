-- ===== src/Scheduler/Queues.antt =====
-- How often a thread stands in a queue of the scheduler.
use nexo_os.Prelude.{
  ◌⊎◌, subst, ℕ, zero, suc, ◌+◌, ◌-◌, ◌≤◌, ◌<◌, ◌≡◌, Bool, true, false, List, [], ◌∷◌, ◌++◌, none,
  some, arith, ◌==◌, if◌then◌else◌, get_or, length, Bool-cases, inl, inr,
}
use nexo_os.Scheduler.{remove, position}
use nexo_os.Scheduler.Calls.{without, without_all}

abbrev pub one : Bool → ℕ
one true = 1
one false = 0

unfoldable pub count : ℕ → List ℕ → ℕ
count x [] = 0
count x (y ∷ ys) = one (y == x) + count x ys

pub count-append : (x : ℕ) (xs ys : List ℕ) → count x (xs ++ ys) ≡ count x xs + count x ys
unfolding count
count-append x [] ys = omega arith
count-append x (y ∷ xs) ys = omega (arith, count-append x xs ys)

pub count-snoc : (x : ℕ) (xs : List ℕ) (y : ℕ) → count x (xs ++ y ∷ []) ≡ count x xs + one (y == x)
unfolding count
count-snoc x xs y = omega (arith, count-append x xs (y ∷ []))

pub count-nil : (x : ℕ) (xs : List ℕ) → count x (xs ++ []) ≡ count x xs
unfolding count
count-nil x xs = omega (arith, count-append x xs [])

-- What stands at an index is there once less when it is removed.
pub count-remove :
    (x : ℕ) (xs : List ℕ) (i d : ℕ)
    → i < length xs
    → count x (remove xs i) + one (get_or xs i d == x) ≡ count x xs
unfolding count remove
count-remove x [] i d h = absurd (omega arith)
count-remove x (y ∷ xs) zero d h = omega arith
count-remove x (y ∷ xs) (suc i) d h = omega (arith, count-remove x xs i d (omega arith))

-- `position` returns the first index, counted from `k`, at which the test holds.
pub record First (f : ℕ → Bool) (xs : List ℕ) (d i : ℕ) : Type 0 where
  pub inside : i < length xs
  pub holds : f (get_or xs i d) ≡ true
  pub first : (j : ℕ) → j < i → f (get_or xs j d) ≡ false

earlier :
    (f : ℕ → Bool) (x d i : ℕ) (xs : List ℕ)
    → f x ≡ false
    → ((j : ℕ) → j < i → f (get_or xs j d) ≡ false)
    → (j : ℕ) → j < suc i
    → f (get_or (x ∷ xs) j d) ≡ false
earlier f x d i xs p w zero h = p
earlier f x d i xs p w (suc j) h = w j (omega arith)

here : {f : ℕ → Bool} {x d : ℕ} {xs : List ℕ} → f x ≡ true → First f (x ∷ xs) d 0
here p = record { inside = omega arith; holds = p; first = λ i h. absurd (omega arith) }

later :
    {f : ℕ → Bool} {x d i : ℕ} {xs : List ℕ}
    → f x ≡ false
    → First f xs d i
    → First f (x ∷ xs) d (suc i)
later {f} {x} {d} {i} {xs} p w = record {
  inside = let a = w.inside in omega arith;
  holds = w.holds;
  first = earlier f x d i xs p w.first;
}

pub position-First :
    (f : ℕ → Bool) (xs : List ℕ) (k d : ℕ) {j : ℕ}
    → position f xs k ≡ some j
    → (k ≤ j) × First f xs d (j - k)
unfolding position
position-First f [] k d e = ground arith
position-First f (x ∷ xs) k d {j} e = elim (Bool-cases (f x)) [
  | inl p ↦
      let q : j ≡ k = ground arith in
      (omega arith, subst (First f (x ∷ xs) d) (omega arith) (here p))
  | inr p ↦
      let (a, w) : (suc k ≤ j) × First f xs d (j - suc k) =
        position-First f xs (suc k) d (ground arith) in
      (omega arith, subst (First f (x ∷ xs) d) (omega arith) (later p w))
]

pub position-none :
    (f : ℕ → Bool) (xs : List ℕ) (k d : ℕ)
    → position f xs k ≡ none
    → (j : ℕ) → j < length xs
    → f (get_or xs j d) ≡ false
unfolding position
position-none f [] k d e j h = absurd (omega arith)
position-none f (x ∷ xs) k d e zero h = ground arith
position-none f (x ∷ xs) k d e (suc j) h = elim (Bool-cases (f x)) [
  | inl p ↦ ground arith
  | inr p ↦ position-none f xs (suc k) d (ground arith) j (omega arith)
]

pub count-get_or : (xs : List ℕ) (i d : ℕ) → i < length xs → 1 ≤ count (get_or xs i d) xs
unfolding count
count-get_or [] i d h = absurd (omega arith)
count-get_or (y ∷ xs) zero d h = ground arith
count-get_or (y ∷ xs) (suc i) d h = omega (arith, count-get_or xs i d (omega arith))

count-without :
    (s d : ℕ) (ts : List ℕ) → count s (without d ts) ≡ (if d == s then 0 else count s ts)
unfolding count without
count-without s d [] = ground arith
count-without s d (t ∷ ts) = ground (arith, count-without s d ts)

count-without_all :
    (s : ℕ) (ds ts : List ℕ)
    → count s (without_all ds ts) ≡ (if count s ds == 0 then count s ts else 0)
unfolding count without_all
count-without_all s [] ts = ground arith
count-without_all s (d ∷ ds) ts =
    ground (arith, count-without_all s ds (without d ts), count-without s d ts)

-- Taking those of a list out of another that holds each of them as often or not at all.
pub count-without_all-add :
    (s : ℕ) (ds ts : List ℕ)
    → (count s ds ≡ 0) ⊎ (count s ds ≡ count s ts)
    → count s (without_all ds ts) + count s ds ≡ count s ts
count-without_all-add s ds ts h = ground (arith, count-without_all s ds ts)
