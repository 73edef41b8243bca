-- ===== src/Ipc/Collector/Worlds.antt =====
-- What other threads may change between the sections of the collector of kernel/src/ipc.rs, and what
-- it then sees.
use nexo_os.Prelude.{
  ℕ, zero, suc, ◌+◌, ◌≤◌, refl, ◌∙◌, get_or, ◌⊎◌, ◌++◌, ◌<◌, ◌≡◌, true, List, [], ◌∷◌, arith,
  length, ◌==◌, Bool-cases, inl, inr,
}
use native.Mathlib.Decide.{ℕ_discrete}
use native.Mathlib.Nat.{le_trans, add-zero}
use nexo_os.Ipc.Handles.{Table}
use nexo_os.Ipc.Ends.{end_at}
use nexo_os.Ipc.Collector.{
  contains, roots, carried, World, History, channels_held, pinned_seen, channels_seen,
}
use nexo_os.Ipc.Collector.Marking.{Has, Has-append}

-- Nothing is reachable in the second world, of what the collector looks at, that was not in the
-- first: neither in a queue, nor in a table, nor as an end that only the kernel holds.
abbrev pub NoNew : List ℕ → World → World → Type 0
NoNew ends w w' =
    ((d x : ℕ) → Has (carried w'.ipc d) x → Has (carried w.ipc d) x)
    × ((j x : ℕ)
        → Has (channels_held (get_or w'.live j [])) x
        → Has (channels_held (get_or w.live j [])) x)
    × ((x : ℕ) → Has ends x → (end_at w'.ipc x).pinned ≡ true → (end_at w.ipc x).pinned ≡ true)

-- What other threads may do between two sections: open a window of transit, which raises the
-- generation; anything while one is open; and without one, nothing that makes an end reachable.
abbrev pub Follows : List ℕ → World → World → Type 0
Follows ends w w' =
    (w.ipc.generation < w'.ipc.generation)
    ⊎ ((w'.ipc.generation ≡ w.ipc.generation)
        × ((1 ≤ w.ipc.inflight) ⊎ ((w'.ipc.inflight ≡ 0) × NoNew ends w w')))

-- A run of the collector: the windows are kept, and `n` bounds the ends.
pub record IsRun (h : History) (n : ℕ) : Type 0 where
  pub follows : (t : ℕ) → Follows (h 0).ipc.registry (h t) (h (suc t))
  pub queued : (t d x : ℕ) → Has (carried (h t).ipc d) x → x < n
  pub rooted : (x : ℕ) → Has (roots h) x → x < n
  pub registered : (t x : ℕ) → Has (h 0).ipc.registry x → x < length (h t).ipc.ends

-- The channel ends alive in a world: those that were registered and only the kernel holds, those in
-- the tables of live processes, and all that the queues of such ends carry.
pub data Alive (ends : List ℕ) (w : World) : ℕ → Type 0 where
  pinned_by : {x : ℕ} → Has ends x → (end_at w.ipc x).pinned ≡ true → Alive ends w x
  held_in : {x : ℕ} (j : ℕ) → Has (channels_held (get_or w.live j [])) x → Alive ends w x
  carried_by : {x : ℕ} (d : ℕ) → Alive ends w d → Has (carried w.ipc d) x → Alive ends w x

pub NoNew-trans : (ends : List ℕ) (u v w : World) → NoNew ends u v → NoNew ends v w → NoNew ends u w
NoNew-trans ends u v w (a, b, c) (a', b', c') =
    (λ d x k. a d x (a' d x k), λ j x k. b j x (b' j x k), λ x k p. c x k (c' x k p))

pub NoNew-same : (ends : List ℕ) (w : World) → NoNew ends w w
NoNew-same ends w = (λ d x k. k, λ j x k. k, λ x k p. p)

-- `k` sections after `t`.
abbrev pub later : ℕ → ℕ → ℕ
later zero t = t
later (suc k) t = suc (later k t)

pub later_lem : (k t : ℕ) → later k t ≡ k + t
later_lem zero t = omega arith
later_lem (suc k) t = omega (arith, later_lem k t)

pub Follows-le :
    (ends : List ℕ) (w w' : World) → Follows ends w w' → w.ipc.generation ≤ w'.ipc.generation
Follows-le ends w w' (inl up) = omega arith
Follows-le ends w w' (inr (same, o)) = omega (arith, same)

-- The generation never goes down.
pub generation_grows :
    (h : History) (n : ℕ)
    → IsRun h n
    → (t k : ℕ) → (h t).ipc.generation ≤ (h (later k t)).ipc.generation
generation_grows h n r t zero = omega arith
generation_grows h n r t (suc k) =
    le_trans (generation_grows h n r t k)
      (Follows-le (h 0).ipc.registry (h (later k t)) (h (suc (later k t))) (r.follows (later k t)))

-- A step from a world with no window open to one with the same generation.
pub settled :
    (ends : List ℕ) (w w' : World)
    → Follows ends w w'
    → w'.ipc.generation ≤ w.ipc.generation
    → w.ipc.inflight ≡ 0
    → (w'.ipc.generation ≡ w.ipc.generation) × (w'.ipc.inflight ≡ 0) × NoNew ends w w'
settled ends w w' (inl up) g z = absurd (omega (arith, up, g))
settled ends w w' (inr (same, inl busy)) g z = absurd (omega (arith, busy, z))
settled ends w w' (inr (same, inr (q, m))) g z = (same, q, m)

-- While the generation stays what it was with no window open, no window opens and nothing moves.
pub still :
    (h : History) (n t k : ℕ)
    → IsRun h n
    → (h t).ipc.inflight ≡ 0
    → (h (later k t)).ipc.generation ≤ (h t).ipc.generation
    → ((h (later k t)).ipc.inflight ≡ 0) × NoNew (h 0).ipc.registry (h t) (h (later k t))
still h n t zero r z g = (z, NoNew-same (h 0).ipc.registry (h t))
still h n t (suc k) r z g =
    let ends = (h 0).ipc.registry in
    let f = r.follows (later k t) in
    let up = Follows-le ends (h (later k t)) (h (suc (later k t))) f in
    let (z', m) = still h n t k r z (le_trans up g) in
    let (same, q, m') =
      settled ends (h (later k t)) (h (suc (later k t))) f (le_trans g (generation_grows h n r t k))
        z' in
    (q, NoNew-trans ends (h t) (h (later k t)) (h (suc (later k t))) m m')

-- From the start, with no window open then, to a last section of the same generation: whatever is
-- reachable there was so at every section before it.
pub unmoved :
    (h : History) (n t k : ℕ)
    → IsRun h n
    → (h 0).ipc.inflight ≡ 0
    → (h (k + t)).ipc.generation ≤ (h 0).ipc.generation
    → NoNew (h 0).ipc.registry (h t) (h (k + t))
unmoved h n t k r z g =
    let last = later_lem k t in
    let first = later_lem t 0 in
    let e : later t 0 ≡ t = first ∙ add-zero t in
    let g' : (h (later k t)).ipc.generation ≤ (h 0).ipc.generation = rw last g in
    let begin = generation_grows h n r 0 t in
    let begin' : (h 0).ipc.generation ≤ (h t).ipc.generation = rw e at begin in
    let up = generation_grows h n r t k in
    let (z', m) = still h n 0 t r z (rw e (le_trans up g')) in
    let zt : (h t).ipc.inflight ≡ 0 = rw e at z' in
    let (q, m') = still h n t k r zt (le_trans g' begin') in rw last at m'

pub Has-left : (xs ys : List ℕ) (x : ℕ) → Has xs x → Has (xs ++ ys) x
Has-left xs ys x h = ground (arith, Has-append xs ys x)

pub Has-right : (xs ys : List ℕ) (x : ℕ) → Has ys x → Has (xs ++ ys) x
Has-right xs ys x h = ground (arith, Has-append xs ys x)

pub Has-cons : (y : ℕ) (xs : List ℕ) (x : ℕ) → Has xs x → Has (y ∷ xs) x
unfolding contains
Has-cons y xs x h = ground arith

-- The roots that the collector saw hold those of a later world in which nothing is new.
pub pinned_seen-Has :
    (h : History) (w : World) (all : List ℕ) (t : ℕ) (es : List ℕ)
    → ((u : ℕ) → t ≤ u → u < t + length es → NoNew all (h u) w)
    → (x : ℕ) → Has es x
    → Has all x
    → (end_at w.ipc x).pinned ≡ true
    → Has (pinned_seen h t es) x
unfolding pinned_seen contains
pinned_seen-Has h w all t [] m x k a p = absurd (ground arith)
pinned_seen-Has h w all t (e ∷ es) m x k a p =
    let rest = λ (b : Has es x).
      pinned_seen-Has h w all (suc t) es (λ u l r. m u (omega (arith, l)) (omega (arith, r))) x b a
        p in
    elim (ℕ_discrete e x) [
      | yes q ↦
          let was = (m t (omega arith) (omega arith)).2 x a p in
          let was' : (end_at (h t).ipc e).pinned ≡ true = rw (← q) at was in
          rw was' (let s : (e == x) ≡ true = ground (arith, q) in rw s refl)
      | no ne ↦
          let b : Has es x = ground (arith, ne, k) in
          let c = rest b in
          elim (Bool-cases (end_at (h t).ipc e).pinned) [
            | inl y ↦ rw y (Has-cons e _ x c)
            | inr y ↦ rw y c
          ]
    ]

pub held_past : (ts : List Table) (i : ℕ) → length ts ≤ i → get_or ts i [] ≡ []
held_past [] i h = refl
held_past (t ∷ ts) zero h = absurd (omega arith)
held_past (t ∷ ts) (suc i) h = held_past ts i (omega arith)

pub channels_seen-Has :
    (h : History) (w : World) (all : List ℕ) (t j n : ℕ)
    → ((u : ℕ) → t ≤ u → u < t + n → NoNew all (h u) w)
    → (i x : ℕ) → j ≤ i
    → i < j + n
    → Has (channels_held (get_or w.live i [])) x
    → Has (channels_seen h t j n) x
unfolding channels_seen
channels_seen-Has h w all t j zero m i x l r k = absurd (omega (arith, l, r))
channels_seen-Has h w all t j (suc n) m i x l r k =
    let front = channels_held (get_or (h t).live j []) in
    let back = channels_seen h (suc t) (suc j) n in
    elim (ℕ_discrete j i) [
      | yes q ↦
          let k' : Has (channels_held (get_or w.live j [])) x = rw q k in
          let a = (m t (omega arith) (omega arith)).1 j x k' in Has-left front back x a
      | no ne ↦
          let b =
            channels_seen-Has h w all (suc t) (suc j) n
              (λ u l r. m u (omega (arith, l)) (omega (arith, r))) i x (omega (arith, l, ne))
              (omega (arith, r)) k in
          Has-right front back x b
    ]
