-- ===== src/Scheduler/Inv/Schedule.antt =====
-- `schedule_locked` with `finish_switch` (kernel/src/sched.rs) never panics on a CPU that has a
-- thread, and keeps every thread in its place.
use nexo_os.Prelude.{
  ℕ, ◌≡◌, ◌≢◌, refl, sym, subst, ap, ◌∙◌, inl, inr, true, false, List, [], ◌∷◌, ◌++◌, some, none,
  arith, ◌==◌, Option-cases,
}
use mathlib.Core.List.{append-nil}
use native.Mathlib.Decide.{ℕ_discrete}
use nexo_os.Scheduler.{State, dying, Sched, put}
use nexo_os.Scheduler.Quota.{update}
use nexo_os.Scheduler.Switch.{
  take_next, switch_to, resume, finish_switch, bury, schedule_locked, schedule, wake_waiter,
  wake_waiters,
}
use nexo_os.Scheduler.Places.{view, IsPlaced, is_ready, is_running, is_dead, is_dying}
use nexo_os.Scheduler.Inv.{IsValid, wake_waiters-IsPlaced}
use nexo_os.Scheduler.Inv.Switching.{
  IsNext, take_next-IsNext, stay-IsPlaced, leave-IsPlaced, gone_to, gone_to, dead_now, die-IsPlaced,
}

prev_for_finish-wake_waiters :
    (g : Sched) (ws : List ℕ) → (wake_waiters g ws).prev_for_finish ≡ g.prev_for_finish
unfolding wake_waiters wake_waiter
prev_for_finish-wake_waiters g [] = refl
prev_for_finish-wake_waiters g (w ∷ ws) =
    prev_for_finish-wake_waiters (wake_waiter g w) ws ∙ ground arith

prev_for_finish-bury : (g : Sched) (t : ℕ) → (bury g t).prev_for_finish ≡ g.prev_for_finish
unfolding bury
prev_for_finish-bury g t = prev_for_finish-wake_waiters _ (g.thread t).waiters

abbrev pub taken : Sched → ℕ → Sched
taken g c = record g { prev_for_finish = update g.prev_for_finish c none }

-- A thread that was dying is buried, any other left as it is.
pub finish-dying :
    (g : Sched) (c t : ℕ)
    → g.prev_for_finish c ≡ some t
    → (g.thread t).state ≡ dying
    → finish_switch g c ≡ bury (taken g c) t
unfolding finish_switch
finish-dying g c t e h = ground arith

finish-other :
    (g : Sched) (c t : ℕ)
    → g.prev_for_finish c ≡ some t
    → is_dying (g.thread t).state ≡ false
    → finish_switch g c ≡ taken g c
unfolding finish_switch
finish-other g c t e h = ground arith

module _ (g : Sched) (c cur next : ℕ) (rest : List ℕ) (agora : ℕ) (v : IsValid g)
    (r : g.running_on c ≡ some cur) (n : IsNext (view g []) c cur next rest) (ne : next ≢ cur) where
  abbrev pub gone : State → Sched
  gone = gone_to g c cur next rest agora

  pub prev_gone : (st : State) → (gone st).prev_for_finish c ≡ some cur
  unfolding switch_to
  prev_gone st = ground arith

  pub state_gone : (st : State) → ((gone st).thread cur).state ≡ st
  unfolding switch_to
  state_gone st = ground arith

  settled_gone : (st : State) (d : ℕ) → (taken (gone st) c).prev_for_finish d ≡ none
  unfolding switch_to
  settled_gone st d = ground (arith, v.settled d)

  finish_other-IsValid :
      (st : State)
      → is_running st ≡ false
      → is_dying st ≡ false
      → is_dead st ≡ false
      → ((g.thread cur).is_idle ≡ true → is_ready st ≡ true)
      → IsValid (finish_switch (gone st) c)
  finish_other-IsValid st sr sd sg si =
      subst IsValid (sym (finish-other (gone st) c cur (prev_gone st) (rw (state_gone st) sd)))
        (record {
          placed = leave-IsPlaced g c cur next rest agora v.placed r n ne st sr sd sg si;
          settled = settled_gone st;
        })

  abbrev woken : Sched
  woken = wake_waiters (dead_now g c cur next rest agora) ((gone dying).thread cur).waiters

  finish_dying-IsValid : (g.thread cur).is_idle ≡ false → IsValid (finish_switch (gone dying) c)
  unfolding bury
  finish_dying-IsValid i =
      subst IsValid (sym (finish-dying (gone dying) c cur (prev_gone dying) (state_gone dying)))
        (record {
          placed =
              subst (λ b. IsPlaced (record (view woken []) { buried = b }))
                (sym (append-nil (woken.dead_list ++ cur ∷ [])))
                (wake_waiters-IsPlaced _ ((gone dying).thread cur).waiters (cur ∷ [])
                  (die-IsPlaced g c cur next rest agora v.placed r n ne i));
          settled = λ d.
              ap (λ h. h d) (prev_for_finish-bury (taken (gone dying) c) cur)
              ∙ settled_gone dying d;
        })

  -- Whatever state the old thread takes.
  finish-IsValid :
      (st : State)
      → is_running st ≡ false
      → is_dead st ≡ false
      → ((g.thread cur).is_idle ≡ true → is_ready st ≡ true)
      → IsValid (finish_switch (gone st) c)
  finish-IsValid dying sr sg si = finish_dying-IsValid (ground arith)
  finish-IsValid st sr sg si = finish_other-IsValid st sr refl sg si

module _ (g : Sched) (c cur idle : ℕ) (st : State) (agora : ℕ) (v : IsValid g)
    (r : g.running_on c ≡ some cur) (i : g.idle_of c ≡ some idle) (sr : is_running st ≡ false)
    (sd : is_dead st ≡ false) (si : (g.thread cur).is_idle ≡ true → is_ready st ≡ true) where
  abbrev next : ℕ
  next = (take_next g c idle).0

  abbrev rest : List ℕ
  rest = (take_next g c idle).1

  schedule_stays :
      next ≡ cur
      → schedule g c st agora
        ≡ some (put (record g { run_queue = rest }) cur (resume (g.thread cur)))
  unfolding schedule schedule_locked
  schedule_stays q =
      let e : (next == cur) ≡ true = ground arith in rw (schedule, schedule_locked, r, i, e)

  pub schedule_goes :
      next ≢ cur
      → schedule g c st agora ≡ some (finish_switch (gone_to g c cur next rest agora st) c)
  unfolding schedule schedule_locked
  schedule_goes q =
      let e : (next == cur) ≡ false = ground arith in rw (schedule, schedule_locked, r, i, e)

  schedule_from : (g' : Sched) × (schedule g c st agora ≡ some g') × IsValid g'
  schedule_from =
      let n = take_next-IsNext g c cur idle v.placed r i in
      elim (ℕ_discrete next cur) [
        | yes q ↦ (
          _,
          schedule_stays q,
          record {
            placed =
                stay-IsPlaced g c cur rest v.placed r
                  (subst (λ t. IsNext (view g []) c cur t rest) q n);
            settled = v.settled;
          },
        )
        | no ne ↦ (_, schedule_goes ne, finish-IsValid g c cur next rest agora v r n ne st sr sd si)
      ]

-- On a CPU that has a thread the scheduler does not panic, and every thread is in its place again
-- when the lock is given back: whatever state the thread takes that gives up the CPU, except that an
-- idle thread only waits for its turn.
pub schedule-IsValid :
    (g : Sched) (c cur : ℕ) (st : State) (agora : ℕ)
    → IsValid g
    → g.running_on c ≡ some cur
    → is_running st ≡ false
    → is_dead st ≡ false
    → ((g.thread cur).is_idle ≡ true → is_ready st ≡ true)
    → (g' : Sched) × (schedule g c st agora ≡ some g') × IsValid g'
schedule-IsValid g c cur st agora v r sr sd si = elim (Option-cases (g.idle_of c)) [
  | inl none_there ↦ absurd (v.placed.idle_some c cur r none_there)
  | inr (idle, i) ↦ schedule_from g c cur idle st agora v r i sr sd si
]
