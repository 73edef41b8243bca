-- ===== src/Scheduler/Inv/Threads.antt =====
-- What threads call in kernel/src/sched.rs keeps every thread in its place and does not panic, on a
-- CPU that has a thread.
use nexo_os.Prelude.{
  ℕ, ◌+◌, ◌%◌, ◌≡◌, refl, subst, inl, inr, true, false, not, some, none, arith, ◌==◌, ◌||◌,
  Bool-cases, if_cases, Option-cases,
}
use nexo_os.Scheduler.{ready, sleeping, blocked, dying, Sched, put, find}
use nexo_os.Scheduler.Quota.{u64_mod, contains}
use nexo_os.Scheduler.Switch.{schedule}
use nexo_os.Scheduler.Calls.{yield_now, sleep_ns, exit_current, await, join_turn, park_with}
use nexo_os.Scheduler.Reach.{state_of}
use nexo_os.Scheduler.Inv.{IsValid}
use nexo_os.Scheduler.Inv.Calls.{Safe, schedule-Safe, put-IsValid}

module _ (g : Sched) (v : IsValid g) (c cur agora : ℕ) (r : g.running_on c ≡ some cur) where
  pub ready-Safe : Safe (schedule g c ready agora)
  ready-Safe = schedule-Safe g c cur ready agora v r refl refl (λ i. refl)

  pub yield_now-Safe : Safe (yield_now g c agora)
  unfolding yield_now
  yield_now-Safe = if_cases Safe g.active _ _ (λ a. ready-Safe) (λ a. v)

  pub exit_current-Safe : (g.thread cur).is_idle ≡ false → Safe (exit_current g c agora)
  unfolding exit_current
  exit_current-Safe i = schedule-Safe g c cur dying agora v r refl refl (λ h. ground arith)

  pub park_with-Safe : Safe (park_with g c agora)
  unfolding park_with
  park_with-Safe =
      rw (park_with, r)
        (if_cases Safe (g.thread cur).is_idle _ _ (λ i. v)
          λ i. schedule-Safe g c cur blocked agora v r refl refl (λ h. ground arith))

  pub sleep_ns-Safe : (ns now : ℕ) → Safe (sleep_ns g c ns now agora)
  unfolding sleep_ns
  sleep_ns-Safe ns now =
      let th = record (g.thread cur) { wake_at_ns = (now + ns) % u64_mod } in
      let w = put-IsValid g cur th v refl in
      rw (sleep_ns, r)
        (if_cases Safe (not g.active) _ _ (λ a. v)
          λ a.
            if_cases Safe (g.thread cur).is_idle _ _ (λ i. v)
              λ i.
                schedule-Safe (put g cur th) c cur sleeping agora w r refl refl (λ h. ground arith))

  await-IsValid : (t : ℕ) → IsValid (await g t cur)
  unfolding await
  await-IsValid t = elim (Bool-cases (contains (g.thread t).waiters cur)) [
    | inl h ↦ rw (await, h) (record { placed = v.placed; settled = v.settled })
    | inr h ↦ rw (await, h) (put-IsValid g t _ v refl)
  ]

  running-await : (t : ℕ) → (await g t cur).running_on c ≡ some cur
  unfolding await
  running-await t = ground arith

  idle-await : (t : ℕ) → ((await g t cur).thread cur).is_idle ≡ (g.thread cur).is_idle
  unfolding await
  idle-await t = ground arith

  join_await-Safe :
      (t : ℕ)
      → (g.thread cur).is_idle ≡ false
      → Safe (
          state_of (elim (schedule (await g t cur) c blocked agora) [
            | none ↦ none
            | some g' ↦ some (g', true, false)
          ]))
  join_await-Safe t i =
      let w =
        schedule-Safe (await g t cur) c cur blocked agora (await-IsValid t) (running-await t) refl
          refl (λ h. ground (arith, idle-await t)) in
      elim (Option-cases (schedule (await g t cur) c blocked agora)) [
        | inl e ↦ rw e (subst Safe e w)
        | inr (g', e) ↦ rw e (subst Safe e w)
      ]

  pub join_turn-Safe : (id : ℕ) → Safe (state_of (join_turn g c id agora))
  unfolding join_turn
  join_turn-Safe id = elim (Option-cases (find g g.all id)) [
    | inl e ↦ rw (join_turn, e) v
    | inr (t, e) ↦
        rw (join_turn, e, r)
          (if_cases (λ o. Safe (state_of o)) (g.thread t).finished _ _ (λ f. v)
            λ f.
              if_cases (λ o. Safe (state_of o)) ((g.thread cur).is_idle || (cur == t)) _ _ (λ h. v)
                λ h. join_await-Safe t (ground arith))
  ]
