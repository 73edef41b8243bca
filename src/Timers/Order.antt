-- ===== src/Timers/Order.antt =====
-- The order of the pending timers of kernel/src/timer.rs.
use nexo_os.Prelude.{ℕ, ◌≤◌, List, [], ◌∷◌, arith, inl, inr, ltb, ◌==◌, All, Bool-cases}
use nexo_os.Timers.{
  Pending, Fired, Timers, insert, after_ns, periodic_ns, retain, cancel, expire, insert_all,
  on_tick,
}

-- Every timer of the list is due at `d` or later.
abbrev pub From : ℕ → List Pending → Type 0
From d ps = All (λ p. d ≤ p.deadline_ns) ps

abbrev pub Sorted : List Pending → Type 0
Sorted [] = Unit
Sorted (p ∷ ps) = From p.deadline_ns ps × Sorted ps

pub From-le : (d e : ℕ) (ps : List Pending) → d ≤ e → From e ps → From d ps
From-le d e [] h f = tt
From-le d e (p ∷ ps) h f = (omega (arith, f.0), From-le d e ps h f.1)

insert-From :
    (d : ℕ) (ps : List Pending) (p : Pending) → From d ps → d ≤ p.deadline_ns → From d (insert ps p)
unfolding insert
insert-From d [] p f h = (h, tt)
insert-From d (q ∷ qs) p f h =
    let r = insert-From d qs p f.1 h in
    elim (Bool-cases (ltb p.deadline_ns q.deadline_ns)) [
      | inl c ↦ rw c (h, f)
      | inr c ↦ rw c (f.0, r)
    ]

pub insert-Sorted : (ps : List Pending) (p : Pending) → Sorted ps → Sorted (insert ps p)
unfolding insert
insert-Sorted [] p s = (tt, tt)
insert-Sorted (q ∷ qs) p s = elim (Bool-cases (ltb p.deadline_ns q.deadline_ns)) [
  | inl c ↦
      let le : p.deadline_ns ≤ q.deadline_ns = ground arith in
      rw c ((le, From-le p.deadline_ns q.deadline_ns qs le s.0), s)
  | inr c ↦
      let le : q.deadline_ns ≤ p.deadline_ns = ground arith in
      rw c (insert-From q.deadline_ns qs p s.0 le, insert-Sorted qs p s.1)
]

pub insert_all-Sorted : (ps qs : List Pending) → Sorted ps → Sorted (insert_all ps qs)
unfolding insert_all
insert_all-Sorted ps [] s = s
insert_all-Sorted ps (q ∷ qs) s = insert_all-Sorted (insert ps q) qs (insert-Sorted ps q s)

retain-From : (d id : ℕ) (ps : List Pending) → From d ps → From d (retain id ps)
unfolding retain
retain-From d id [] f = tt
retain-From d id (p ∷ ps) f =
    let r = retain-From d id ps f.1 in
    elim (Bool-cases (p.id == id)) [ inl c ↦ rw c r | inr c ↦ rw c (f.0, r) ]

retain-Sorted : (id : ℕ) (ps : List Pending) → Sorted ps → Sorted (retain id ps)
unfolding retain
retain-Sorted id [] s = tt
retain-Sorted id (p ∷ ps) s =
    let r = retain-Sorted id ps s.1 in
    elim (Bool-cases (p.id == id)) [
      | inl c ↦ rw c r
      | inr c ↦ rw c (retain-From p.deadline_ns id ps s.0, r)
    ]

expire-Sorted :
    (now : ℕ) (ps : List Pending) (fired : List Fired) (requeue : List Pending)
    → Sorted ps
    → Sorted (expire now ps fired requeue).0
unfolding expire
expire-Sorted now [] fired requeue s = tt
expire-Sorted now (p ∷ ps) fired requeue s = elim (Bool-cases (ltb now p.deadline_ns)) [
  | inl c ↦ rw c s
  | inr c ↦ rw c (expire-Sorted now ps _ _ s.1)
]

pub data Op : Type 0 where
  after periodic : ℕ → ℕ → ℕ → ℕ → Op
  cancels ticks : ℕ → Op

unfoldable pub step : Timers → Op → Timers
step t (after now ns callback arg) = (after_ns t now ns callback arg).0
step t (periodic now ns callback arg) = (periodic_ns t now ns callback arg).0
step t (cancels id) = (cancel t id).0
step t (ticks now) = on_tick t now

unfoldable pub run : Timers → List Op → Timers
run t [] = t
run t (op ∷ ops) = run (step t op) ops

step-Sorted : (t : Timers) (op : Op) → Sorted t.pending → Sorted (step t op).pending
unfolding step after_ns periodic_ns cancel on_tick
step-Sorted t (after now ns callback arg) s = insert-Sorted t.pending _ s
step-Sorted t (periodic now ns callback arg) s = insert-Sorted t.pending _ s
step-Sorted t (cancels id) s = retain-Sorted id t.pending s
step-Sorted t (ticks now) s =
    let (left, fired, requeue) = expire now t.pending t.fired [] in
    insert_all-Sorted left requeue (expire-Sorted now t.pending t.fired [] s)

-- Scheduling, cancelling and ticks, in any sequence and at any readings of the clock, keep the
-- pending timers in the order of their deadlines.
pub run-Sorted : (t : Timers) (ops : List Op) → Sorted t.pending → Sorted (run t ops).pending
unfolding run
run-Sorted t [] s = s
run-Sorted t (op ∷ ops) s = run-Sorted (step t op) ops (step-Sorted t op s)
