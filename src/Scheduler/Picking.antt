-- ===== src/Scheduler/Picking.antt =====
-- Which thread a CPU gets (`pick_next` of kernel/src/sched.rs) and who wakes on a tick.
use mathlib.Core.List.{append_assoc}
use nexo_os.Prelude.{
  ℕ, ◌+◌, ◌<◌, ◌≡◌, ◌≢◌, ◌↔◌, ◌^◌, min, bit_and, refl, subst, ◌⊎◌, inl, inr, Bool, true, false,
  List, [], ◌∷◌, ◌++◌, Option, some, none, arith, leb, if◌then◌else◌, Option-cases, Bool-cases,
  length, get_or,
}
use nexo_os.Scheduler.Quota.{Accounts, em_throttle, tem_quota}
use nexo_os.Scheduler.{Sched, Thread, throttled, position, allowed_on, normal_on, pick_next}
use nexo_os.Scheduler.Queues.{count, count-append, count-snoc, First, position-First, position-none}
use nexo_os.Scheduler.Switch.{push_ready}
use nexo_os.Scheduler.Tick.{wake_due}

-- The mask of the thread has the bit of the CPU, and the job of its process, if it has one with a
-- limit, has budget left.
abbrev pub MayRun : Sched → ℕ → ℕ → Type 0
MayRun g c t =
    (bit_and (g.thread t).affinity (2 ^ min c 63) ≢ 0)
    × ((p n : ℕ)
        → (g.thread t).process ≡ some p
        → g.accounts.job p ≡ some n
        → (g.accounts.jobs n).cpu_limite_ns ≢ 0
        → (g.accounts.jobs n).throttled ≡ false)

abbrev pub MayRunFirst : Sched → ℕ → ℕ → Type 0
MayRunFirst g c t = MayRun g c t × ((g.thread t).prio ≡ 0)

not_throttled :
    (a : Accounts) (th : Thread)
    → throttled a th ≡ false ↔ (
        (p n : ℕ)
        → th.process ≡ some p
        → a.job p ≡ some n
        → (a.jobs n).cpu_limite_ns ≢ 0
        → (a.jobs n).throttled ≡ false)
unfolding throttled em_throttle tem_quota
not_throttled a th = (
  λ h p n k l z. ground arith,
  λ h. elim (Option-cases th.process) [
    | inl e ↦ ground arith
    | inr (p, e) ↦ elim (Option-cases (a.job p)) [
      | inl f ↦ ground arith
      | inr (n, f) ↦ let w = h p n e f in ground arith
    ]
  ],
)

allowed_on-MayRun : (g : Sched) (c t : ℕ) → allowed_on g c t ≡ true ↔ MayRun g c t
unfolding allowed_on
allowed_on-MayRun g c t =
    let (to, from) = not_throttled g.accounts (g.thread t) in
    (λ h. (ground arith, to (ground arith)), λ (m, w). let q = from w in ground arith)

normal_on-MayRunFirst : (g : Sched) (c t : ℕ) → normal_on g c t ≡ true ↔ MayRunFirst g c t
unfolding normal_on
normal_on-MayRunFirst g c t =
    let (to, from) = allowed_on-MayRun g c t in
    (λ h. (to (ground arith), ground arith), λ (m, w). let q = from m in ground arith)

-- The first place of the queue at which `P` holds.
abbrev pub IsFirst : (ℕ → Type 0) → List ℕ → ℕ → Type 0
IsFirst P q i = (i < length q) × P (get_or q i 0) × ((j : ℕ) → j < i → ¬ P (get_or q j 0))

-- What may be said of a choice: the first normal thread that may run on the CPU, and without one the
-- first that may run there.
abbrev pub IsPick : Sched → List ℕ → ℕ → Option ℕ → Type 0
IsPick g q c none = (j : ℕ) → j < length q → ¬ MayRun g c (get_or q j 0)
IsPick g q c (some i) =
    IsFirst (MayRunFirst g c) q i
    ⊎ (IsFirst (MayRun g c) q i × ((j : ℕ) → j < length q → ¬ MayRunFirst g c (get_or q j 0)))

never : (P : ℕ → Type 0) (f : ℕ → Bool) (t : ℕ) → ((u : ℕ) → f u ≡ true ↔ P u) → f t ≡ false → ¬ P t
never P f t w e p = let h = (w t).1 p in absurd (cc)

First-IsFirst :
    (P : ℕ → Type 0) (f : ℕ → Bool) (q : List ℕ) (i : ℕ)
    → ((u : ℕ) → f u ≡ true ↔ P u)
    → First f q 0 i
    → IsFirst P q i
First-IsFirst P f q i w h =
    (h.inside, (w (get_or q i 0)).0 h.holds, λ j k. never P f (get_or q j 0) w (h.first j k))

-- `pick_next` chooses the first normal thread of the queue that may run on the CPU, and only if there
-- is none the first of those that may run there, of low priority then; it chooses none only if no
-- thread of the queue may run there. May run means that the mask allows the CPU and that the job of
-- the process has budget left.
pub pick_next-IsPick : (g : Sched) (q : List ℕ) (c : ℕ) → IsPick g q c (pick_next g q c)
unfolding pick_next
pick_next-IsPick g q c =
    let may = allowed_on-MayRun g c in
    let first = normal_on-MayRunFirst g c in
    elim (Option-cases (position (normal_on g c) q 0)) [
      | inl n ↦
          let no_first = λ (j : ℕ) (k : j < length q).
            never (MayRunFirst g c) (normal_on g c) (get_or q j 0) first
              (position-none (normal_on g c) q 0 0 n j k) in
          elim (Option-cases (position (allowed_on g c) q 0)) [
            | inl m ↦
                rw (pick_next, n, m)
                  (λ j k.
                    never (MayRun g c) (allowed_on g c) (get_or q j 0) may
                      (position-none (allowed_on g c) q 0 0 m j k))
            | inr (i, m) ↦
                let (k, w) = position-First (allowed_on g c) q 0 0 m in
                let w' = subst (First (allowed_on g c) q 0) (omega arith) w in
                rw (pick_next, n, m)
                  (inr (First-IsFirst (MayRun g c) (allowed_on g c) q i may w', no_first))
          ]
      | inr (i, n) ↦
          let (k, w) = position-First (normal_on g c) q 0 0 n in
          let w' = subst (First (normal_on g c) q 0) (omega arith) w in
          rw (pick_next, n) (inl (First-IsFirst (MayRunFirst g c) (normal_on g c) q i first w'))
    ]

-- A thread whose sleep is over.
abbrev pub is_due : Sched → ℕ → ℕ → Bool
is_due g now t = leb (g.thread t).wake_at_ns now

-- What the tick leaves of a thread in a queue: how often it stands there.
Woken : Sched → ℕ → ℕ → List ℕ → List ℕ → Sched → Type 0
Woken g now t kept ts g' =
    (count t g'.sleepers ≡ count t kept + (if is_due g now t then 0 else count t ts))
    × (count t g'.run_queue ≡ count t g.run_queue + (if is_due g now t then count t ts else 0))

due-push_ready :
    (g : Sched) (now s t : ℕ) (sleepers : List ℕ)
    → is_due (push_ready (record g { sleepers = sleepers }) s) now t ≡ is_due g now t
due-push_ready g now s t sleepers = ground arith

rouse_here :
    (g : Sched) (now s t : ℕ) (kept ts : List ℕ) (g' : Sched)
    → is_due g now s ≡ true
    → Woken (push_ready (record g { sleepers = kept ++ ts }) s) now t kept ts g'
    → Woken g now t kept (s ∷ ts) g'
unfolding Woken count
rouse_here g now s t kept ts g' d (h, k) =
    let e = due-push_ready g now s t (kept ++ ts) in
    (ground arith, ground (arith, count-snoc t g.run_queue s))

pass_later :
    (g : Sched) (now s t : ℕ) (kept ts : List ℕ) (g' : Sched)
    → is_due g now s ≡ false
    → Woken g now t (kept ++ s ∷ []) ts g'
    → Woken g now t kept (s ∷ ts) g'
unfolding Woken count
pass_later g now s t kept ts g' d (h, k) = (ground (arith, count-snoc t kept s), ground arith)

wakes :
    (g : Sched) (now t : ℕ) (kept ts : List ℕ)
    → g.sleepers ≡ kept ++ ts
    → Woken g now t kept ts (wake_due g now kept ts)
unfolding wake_due
wakes g now t kept [] e =
    unfold Woken count in rw e (ground (arith, count-append t kept []), ground arith)
wakes g now t kept (s ∷ ts) e = elim (Bool-cases (is_due g now s)) [
  | inl d ↦ rw d (
      rouse_here g now s t kept ts _ d
        (wakes (push_ready (record g { sleepers = kept ++ ts }) s) now t kept ts refl))
  | inr d ↦ rw d (
      pass_later g now s t kept ts _ d
        (wakes g now t (kept ++ s ∷ []) ts (rw (append_assoc kept (s ∷ []) ts) e)))
]

-- A tick wakes exactly the threads whose sleep is over: such a thread is among the sleepers no more,
-- and in the run queue as often as it was in both; any other stays where it was.
pub wake_due_lem :
    (g : Sched) (now t : ℕ)
    → let g' = wake_due g now [] g.sleepers in
      (count t g'.sleepers ≡ (if is_due g now t then 0 else count t g.sleepers))
      × (count t g'.run_queue
          ≡ count t g.run_queue + (if is_due g now t then count t g.sleepers else 0))
wake_due_lem g now t = unfold Woken count in ground (arith, wakes g now t [] g.sleepers refl)
