-- ===== src/Scheduler/Inv/Ticks.antt =====
-- The interrupts of kernel/src/sched.rs keep every thread in its place and do not panic.
use nexo_os.Prelude.{
  ℕ, ◌+◌, ◌≡◌, refl, inl, inr, Bool, not, ◌&&◌, List, [], ◌∷◌, ◌++◌, some, arith, leb, ◌==◌,
  if◌then◌else◌, if_cases, Bool-cases, Option-cases,
}
use mathlib.Core.List.{append_assoc}
use nexo_os.Scheduler.{ready, Sched, put}
use nexo_os.Scheduler.Quota.{Accounts}
use nexo_os.Scheduler.Queues.{count, count-append, one}
use nexo_os.Scheduler.Switch.{push_ready}
use nexo_os.Scheduler.Tick.{
  wake_due, spend, charge, preempt, normal_waiting, sem_orcamento, gives_way, answers, on_tick,
  on_resched_ipi,
}
use nexo_os.Scheduler.Places.{view}
use nexo_os.Scheduler.Places.Moves.{rouse-IsPlaced}
use nexo_os.Scheduler.Inv.{IsValid, update-IsPlaced}
use nexo_os.Scheduler.Inv.Calls.{Safe, put-IsValid}
use nexo_os.Scheduler.Inv.Threads.{ready-Safe}

-- Counters and accounts say nothing on where a thread stands.
pub recount-IsValid :
    (g : Sched) (accounts : Accounts) (preemptions prio_preempts : ℕ)
    → IsValid g
    → IsValid
        (record g { accounts = accounts; preemptions = preemptions; prio_preempts = prio_preempts })
recount-IsValid g accounts preemptions prio_preempts v = record {
  placed = v.placed;
  settled = v.settled;
}

count-middle :
    (s t : ℕ) (xs ys : List ℕ) → count s (xs ++ ys) + one (t == s) ≡ count s (xs ++ t ∷ ys)
unfolding count
count-middle s t xs ys = omega (arith, count-append s xs ys, count-append s xs (t ∷ ys))

-- One sleeper wakes.
rouse-IsValid :
    (g : Sched) (t : ℕ) (kept ts : List ℕ)
    → IsValid g
    → g.sleepers ≡ kept ++ t ∷ ts
    → IsValid (push_ready (record g { sleepers = kept ++ ts }) t)
rouse-IsValid g t kept ts v e = record {
  placed =
      update-IsPlaced (view (push_ready (record g { sleepers = kept ++ ts }) t) []) g.thread t
        (record (g.thread t) { state = ready })
        (rouse-IsPlaced (view g []) t (kept ++ ts) v.placed λ s. rw e (count-middle s t kept ts));
  settled = v.settled;
}

wake_due-IsValid :
    (g : Sched) (now : ℕ) (kept ts : List ℕ)
    → IsValid g
    → g.sleepers ≡ kept ++ ts
    → IsValid (wake_due g now kept ts)
unfolding wake_due
wake_due-IsValid g now kept [] v e = v
wake_due-IsValid g now kept (t ∷ ts) v e =
    let due = leb (g.thread t).wake_at_ns now in
    let woken = push_ready (record g { sleepers = kept ++ ts }) t in
    elim (Bool-cases due) [
      | inl d ↦ rw d (wake_due-IsValid woken now kept ts (rouse-IsValid g t kept ts v e) refl)
      | inr d ↦
          rw d (wake_due-IsValid g now (kept ++ t ∷ []) ts v (rw (append_assoc kept (t ∷ []) ts) e))
    ]

preempt-Safe :
    (g : Sched) (c cur : ℕ) (fronteira : Bool) (later agora : ℕ)
    → IsValid g
    → g.running_on c ≡ some cur
    → Safe (preempt g c cur fronteira later agora)
unfolding preempt
preempt-Safe g c cur fronteira later agora v r =
    let th = spend (g.thread cur) fronteira in
    let spent = put-IsValid g cur th v refl in
    let charged = charge g.accounts th fronteira later in
    let w = λ (m n : ℕ). recount-IsValid (put g cur th) charged m n spent in
    if_cases Safe (sem_orcamento charged th) _ _
      (λ h. ready-Safe _ (w (g.preemptions + 1) g.prio_preempts) c cur agora r)
      λ h.
        if_cases Safe (gives_way (put g cur th) c th) _ _
          (λ k.
            ready-Safe _
              (w (g.preemptions + 1) (
                if normal_waiting (put g cur th) c th && not (th.quantum_left == 0)
                then g.prio_preempts + 1
                else g.prio_preempts))
              c cur agora r)
          λ k. w g.preemptions g.prio_preempts

pub on_tick-Safe :
    (g : Sched) (c : ℕ) (fronteira : Bool) (now later agora : ℕ)
    → IsValid g
    → Safe (on_tick g c fronteira now later agora)
unfolding on_tick
on_tick-Safe g c fronteira now later agora v =
    let awake = wake_due g now [] g.sleepers in
    let w = wake_due-IsValid g now [] g.sleepers v refl in
    if_cases Safe g.active _ _
      (λ a. elim (Option-cases (awake.running_on c)) [
        | inl e ↦ rw e w
        | inr (cur, e) ↦ rw e (preempt-Safe awake c cur fronteira later agora w e)
      ])
      (λ a. v)

pub on_resched_ipi-Safe : (g : Sched) (c agora : ℕ) → IsValid g → Safe (on_resched_ipi g c agora)
unfolding on_resched_ipi
on_resched_ipi-Safe g c agora v =
    if_cases Safe g.active _ _
      (λ a. elim (Option-cases (g.running_on c)) [
        | inl e ↦ rw e v
        | inr (cur, e) ↦ rw e (
            if_cases Safe (answers g c (g.thread cur)) _ _ (λ h. ready-Safe g v c cur agora e)
              λ h. v)
      ])
      (λ a. v)
