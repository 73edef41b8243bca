-- ===== src/Ipc/Collector/Marking.antt =====
-- The marking loop of the collector of kernel/src/ipc.rs marks exactly what is reachable.
use nexo_os.Prelude.{
  ℕ, zero, suc, ◌+◌, ◌<◌, ◌≤◌, ◌≡◌, refl, true, false, ◌||◌, List, [], ◌∷◌, ◌++◌, arith, length,
  ◌==◌, if◌then◌else◌, Bool-cases, ltb, ap, ◌∙◌, inl, inr, ◌⊎◌,
}
use native.Mathlib.Decide.{ℕ_discrete}
use nexo_os.Ipc.Collector.{contains, Marks, root, root_all, mark_loop}

-- The list holds `x`.
abbrev pub Has : List ℕ → ℕ → Type 0
Has xs x = contains xs x ≡ true

pub Has-append : (xs ys : List ℕ) (x : ℕ) → contains (xs ++ ys) x ≡ (contains xs x || contains ys x)
unfolding contains
Has-append [] ys x = refl
Has-append (y ∷ xs) ys x = ground (arith, Has-append xs ys x)

module _ (succs : ℕ → List ℕ) (start : List ℕ) where
  -- What can be reached from the starting ends along the queues.
  pub data Reach : ℕ → Type 0 where
    from : {e : ℕ} → Has start e → Reach e
    along : {d e : ℕ} → Reach d → Has (succs d) e → Reach e

module _ (see : ℕ → ℕ → List ℕ) (start : List ℕ) where
  -- What can be reached along queues as they were seen at some time.
  pub data Seen : ℕ → Type 0 where
    first : {e : ℕ} → Has start e → Seen e
    next_to : {d e : ℕ} (t : ℕ) → Seen d → Has (see t d) e → Seen e

-- `root` marks the end, and keeps what was marked.
contains-root :
    (m : Marks) (e x : ℕ) → contains (root m e).marked x ≡ ((e == x) || contains m.marked x)
unfolding root contains
contains-root m e x = elim (ℕ_discrete e x) [ yes q ↦ rw q (ground arith) | no ne ↦ ground arith ]

contains-root_all :
    (m : Marks) (es : List ℕ) (x : ℕ)
    → contains (root_all m es).marked x ≡ (contains es x || contains m.marked x)
unfolding root_all contains
contains-root_all m [] x = refl
contains-root_all m (e ∷ es) x =
    ground (arith, contains-root_all (root m e) es x, contains-root m e x)

-- What was to be visited still is.
work-root_all : (m : Marks) (es : List ℕ) (x : ℕ) → Has m.work x → Has (root_all m es).work x
unfolding root_all root contains
work-root_all m [] x h = h
work-root_all m (e ∷ es) x h = work-root_all (root m e) es x (ground arith)

-- What is newly marked is to be visited.
fresh-root :
    (m : Marks) (e x : ℕ) → Has (root m e).marked x → (Has m.marked x) ⊎ (Has (root m e).work x)
unfolding root contains
fresh-root m e x h = ground arith

fresh-root_all :
    (m : Marks) (es : List ℕ) (x : ℕ)
    → Has (root_all m es).marked x
    → (Has m.marked x) ⊎ (Has (root_all m es).work x)
unfolding root_all
fresh-root_all m [] x h = inl h
fresh-root_all m (e ∷ es) x h = elim (fresh-root_all (root m e) es x h) [
  | inl p ↦ elim (fresh-root m e x p) [
    | inl q ↦ inl q
    | inr q ↦ inr (work-root_all (root m e) es x q)
  ]
  | inr p ↦ inr p
]

-- What is to be visited stays marked.
abbrev Within : Marks → Type 0
Within m = (x : ℕ) → Has m.work x → Has m.marked x

root-Within : (m : Marks) (e : ℕ) → Within m → Within (root m e)
unfolding root contains
root-Within m e w x h = ground (arith, w x)

root_all-Within : (m : Marks) (es : List ℕ) → Within m → Within (root_all m es)
unfolding root_all
root_all-Within m [] w = w
root_all-Within m (e ∷ es) w = root_all-Within (root m e) es (root-Within m e w)

-- How many of the ends below `n` are not marked.
unmarked : ℕ → List ℕ → ℕ
unmarked zero xs = 0
unmarked (suc n) xs = (if contains xs n then 0 else 1) + unmarked n xs

unmarked-cons :
    (n : ℕ) (xs : List ℕ) (e : ℕ)
    → contains xs e ≡ false
    → unmarked n xs ≡ unmarked n (e ∷ xs) + (if ltb e n then 1 else 0)
unfolding unmarked contains
unmarked-cons zero xs e h = ground arith
unmarked-cons (suc n) xs e h = elim (ℕ_discrete e n) [
  | yes q ↦ ground (arith, unmarked-cons n xs e h)
  | no ne ↦ ground (arith, unmarked-cons n xs e h)
]

-- The rounds that are left at most.
potential : ℕ → Marks → ℕ
potential n m = unmarked n m.marked + length m.work

potential-root : (n : ℕ) (m : Marks) (e : ℕ) → e < n → potential n (root m e) ≡ potential n m
unfolding potential root
potential-root n m e h = ground (arith, unmarked-cons n m.marked e)

potential-root_all :
    (n : ℕ) (m : Marks) (es : List ℕ)
    → ((x : ℕ) → Has es x → x < n)
    → potential n (root_all m es) ≡ potential n m
unfolding root_all contains
potential-root_all n m [] h = refl
potential-root_all n m (e ∷ es) h =
    potential-root_all n (root m e) es (λ x k. h x (ground arith))
    ∙ potential-root n m e (h e (ground arith))

List-cases : (xs : List ℕ) → (xs ≡ []) ⊎ ((x : ℕ) × (ys : List ℕ) × (xs ≡ x ∷ ys))
List-cases [] = inl refl
List-cases (x ∷ ys) = inr (x, ys, refl)

-- A round lowers the potential.
less :
    (es : List ℕ) (n : ℕ)
    → ((x : ℕ) → Has es x → x < n)
    → (m : Marks) (e : ℕ) (rest : List ℕ) → m.work ≡ e ∷ rest
    → (fuel : ℕ) → potential n m < suc fuel
    → potential n (root_all (record m { work = rest }) es) < fuel
less es n b m e rest w fuel p =
    let q = potential-root_all n (record m { work = rest }) es b in
    let l = ap (length {A = ℕ}) w in unfold potential in omega arith

-- The queues as they are seen at each time, and as they are at last: nothing is in them then that was
-- not seen before.
module _ (see : ℕ → ℕ → List ℕ) (succs : ℕ → List ℕ) (limit : ℕ)
    (low : (t d x : ℕ) → t < limit → Has (succs d) x → Has (see t d) x) (start : List ℕ) where
  -- What the loop keeps.
  record Inv (m : Marks) : Type 0 where
    sound : (x : ℕ) → Has m.marked x → Seen see start x
    within : Within m
    visited :
        (d x : ℕ) → Has m.marked d → contains m.work d ≡ false → Has (succs d) x → Has m.marked x
    started : (x : ℕ) → Has start x → Has m.marked x

  -- One round: `e` leaves the stack, and the ends that it leads to are marked.
  module _ (t : ℕ) (lt : t < limit) (m : Marks) (e : ℕ) (rest : List ℕ) (w : m.work ≡ e ∷ rest)
      (v : Inv m) where
    abbrev next : Marks
    next = root_all (record m { work = rest }) (see t e)

    contains-work : (x : ℕ) → contains m.work x ≡ ((e == x) || contains rest x)
    unfolding contains
    contains-work x = rw w

    e_reached : Seen see start e
    e_reached = v.sound e (v.within e (ground (arith, contains-work e)))

    contains-next : (x : ℕ) → contains next.marked x ≡ (contains (see t e) x || contains m.marked x)
    contains-next x = contains-root_all (record m { work = rest }) (see t e) x

    sound-next : (x : ℕ) → Has next.marked x → Seen see start x
    sound-next x h = elim (Bool-cases (contains (see t e) x)) [
      | inl p ↦ next_to t e_reached p
      | inr p ↦ v.sound x (ground (arith, contains-next x))
    ]

    visited-next :
        (d x : ℕ)
        → Has next.marked d
        → contains next.work d ≡ false
        → Has (succs d) x
        → Has next.marked x
    visited-next d x hm hw hs = elim (fresh-root_all (record m { work = rest }) (see t e) d hm) [
      | inr p ↦ absurd (ground arith)
      | inl p ↦ elim (ℕ_discrete e d) [
        | yes q ↦
            let hs' : Has (succs e) x = rw q hs in
            let seen = low t e x lt hs' in ground (arith, contains-next x)
        | no ne ↦
            let old = work-root_all (record m { work = rest }) (see t e) d in
            let idle : contains m.work d ≡ false = ground (arith, contains-work d) in
            let old_marked = v.visited d x p idle hs in ground (arith, contains-next x)
      ]
    ]

    step-Inv : Inv next
    step-Inv = record {
      sound = sound-next;
      within =
          root_all-Within (record m { work = rest }) (see t e)
            (λ x h. v.within x (ground (arith, contains-work x)));
      visited = visited-next;
      started = λ x h. let o = v.started x h in ground (arith, contains-next x);
    }

  -- With fuel above the potential the loop runs until nothing is left to visit, and keeps the
  -- invariant.
  mark_loop-Inv :
      (n : ℕ)
      → ((t d x : ℕ) → Has (see t d) x → x < n)
      → (t fuel : ℕ) (m : Marks) → Inv m
      → potential n m < fuel
      → t + fuel ≤ limit
      → Inv (mark_loop see t fuel m) × ((mark_loop see t fuel m).work ≡ [])
  unfolding mark_loop
  mark_loop-Inv n b t zero m v p l = absurd (omega (arith, p))
  mark_loop-Inv n b t (suc fuel) m v p l = elim (List-cases m.work) [
    | inl w ↦ rw (w, mark_loop) (v, w)
    | inr (e, rest, w) ↦
        rw (w, mark_loop)
          (mark_loop-Inv n b (suc t) fuel (root_all (record m { work = rest }) (see t e))
            (step-Inv t (omega (arith, l)) m e rest w v)
            (less (see t e) n (b t e) m e rest w fuel p) (omega (arith, l)))
  ]

  abbrev blank : Marks
  blank = record { marked = []; work = [] }

  blank-Inv : Inv (root_all blank start)
  unfolding contains
  blank-Inv = record {
    sound = λ x h. first (ground (arith, contains-root_all blank start x));
    within = root_all-Within blank start (λ x h. cc);
    visited = λ d x hm hw hs. ground (arith, fresh-root_all blank start d hm);
    started = λ x h. ground (arith, contains-root_all blank start x);
  }

  -- At the end every end that can be reached is marked.
  reached : (m : Marks) → Inv m → m.work ≡ [] → {x : ℕ} → Reach succs start x → Has m.marked x
  unfolding contains
  reached m v w {x} (from h) = v.started x h
  reached m v w {x} (along {d = d} r h) = v.visited d x (reached m v w r) (rw w) h

  unmarked-nil : (n : ℕ) → unmarked n [] ≡ n
  unfolding unmarked contains
  unmarked-nil zero = refl
  unmarked-nil (suc n) = omega (arith, unmarked-nil n)

  potential-blank : (n : ℕ) → potential n blank ≡ n
  potential-blank n = unfold potential in omega (arith, unmarked-nil n)

  -- With fuel for one round more than there are ends the marking loop marks every end that can be
  -- reached along the last queues, and only ends that can be reached along queues as they were seen,
  -- if all these are among the `n` ends.
  pub mark_loop-Reach :
      (t n x : ℕ)
      → ((t d y : ℕ) → Has (see t d) y → y < n)
      → ((y : ℕ) → Has start y → y < n)
      → t + suc n ≤ limit
      → let marked =
          (mark_loop see t (suc n) (root_all (record { marked = []; work = [] }) start)).marked in
        (Reach succs start x → Has marked x) × (Has marked x → Seen see start x)
  mark_loop-Reach t n x b bs l =
      let p : potential n (root_all blank start) < suc n =
        omega (arith, potential-root_all n blank start bs, potential-blank n) in
      let r = mark_loop-Inv n b t (suc n) (root_all blank start) blank-Inv p l in
      (reached (mark_loop see t (suc n) (root_all blank start)) (r.0) (r.1), r.0.sound x)
