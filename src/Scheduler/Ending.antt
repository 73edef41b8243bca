-- ===== src/Scheduler/Ending.antt =====
-- What the end of a thread does to those who wait for it (kernel/src/sched.rs).
use nexo_os.Prelude.{
  ℕ, ◌≤◌, ◌≡◌, refl, subst, ap, ◌∙◌, ◌⊎◌, inl, inr, Bool, true, false, List, [], ◌∷◌, some, arith,
  Option-cases, Bool-cases, ◌==◌, none,
}
use nexo_os.Scheduler.{dying, blocked, Sched, find}
use nexo_os.Scheduler.Quota.{Accounts, contains}
use nexo_os.Scheduler.Queues.{count, count-snoc}
use nexo_os.Scheduler.Switch.{
  is_blocked, take_next, switch_to, wake_waiter, wake_waiters, bury, schedule,
}
use nexo_os.Scheduler.Calls.{exit_current, join_turn, await}
use nexo_os.Scheduler.Inv.{IsValid}
use nexo_os.Scheduler.Inv.Switching.{take_next-IsNext, gone_to}
use nexo_os.Scheduler.Inv.Schedule.{taken, finish-dying, prev_gone, state_gone, schedule_goes}
use nexo_os.Scheduler.Reach.{Reached, perform, joins}
use nexo_os.Scheduler.Reach.Laws.{Reached-IsValid, perform_total}

-- A thread that is blocked is not blocked after it is woken, and none becomes so.
unblocked :
    (g : Sched) (w t : ℕ)
    → (is_blocked (g.thread t).state ≡ false) ⊎ (w ≡ t)
    → is_blocked ((wake_waiter g w).thread t).state ≡ false
unfolding wake_waiter
unblocked g w t h = ground arith

unblocked_all :
    (g : Sched) (ws : List ℕ) (t : ℕ)
    → (is_blocked (g.thread t).state ≡ false) ⊎ (1 ≤ count t ws)
    → is_blocked ((wake_waiters g ws).thread t).state ≡ false
unfolding wake_waiters count
unblocked_all g [] t (inl h) = h
unblocked_all g [] t (inr h) = absurd (omega arith)
unblocked_all g (w ∷ ws) t h =
    unblocked_all (wake_waiter g w) ws t (ground (arith, unblocked g w t))

finished-wake_waiters :
    (g : Sched) (ws : List ℕ) (t : ℕ)
    → ((wake_waiters g ws).thread t).finished ≡ (g.thread t).finished
unfolding wake_waiters wake_waiter
finished-wake_waiters g [] t = refl
finished-wake_waiters g (w ∷ ws) t = finished-wake_waiters (wake_waiter g w) ws t ∙ ground arith

-- What is left of the thread that ended, and of those who waited for it.
abbrev Ended : Sched → ℕ → List ℕ → Type 0
Ended g t waiters =
    ((g.thread t).finished ≡ true)
    × ((w : ℕ) → 1 ≤ count w waiters → is_blocked (g.thread w).state ≡ false)

bury-Ended : (g : Sched) (t : ℕ) → Ended (bury g t) t (g.thread t).waiters
unfolding bury
bury-Ended g t = (
  finished-wake_waiters _ (g.thread t).waiters t ∙ ground arith,
  λ w h. unblocked_all _ (g.thread t).waiters w (inr h),
)

waiters_gone :
    (g : Sched) (c cur next : ℕ) (rest : List ℕ) (agora : ℕ)
    → ((gone_to g c cur next rest agora dying).thread cur).waiters ≡ (g.thread cur).waiters
unfolding switch_to
waiters_gone g c cur next rest agora = ground arith

ends_idle {ℓ} : {P : Type ℓ} {b : Bool} → b ≡ true → b ≡ false → P
ends_idle h k = absurd (cc)

ends :
    (g : Sched) (c cur idle agora : ℕ)
    → IsValid g
    → g.running_on c ≡ some cur
    → g.idle_of c ≡ some idle
    → (g.thread cur).is_idle ≡ false
    → (g' : Sched) × (exit_current g c agora ≡ some g') × Ended g' cur (g.thread cur).waiters
unfolding exit_current
ends g c cur idle agora v e h i =
    let n = take_next-IsNext g c cur idle v.placed e h in
    let (next, rest) = take_next g c idle in
    let ne = λ (q : next ≡ cur). ends_idle (n.is_cur q) i in
    let gone = gone_to g c cur next rest agora dying in
    let goes = schedule_goes g c cur idle dying agora v e h refl refl (λ k. ends_idle k i) ne in
    let buried =
      finish-dying gone c cur (prev_gone g c cur next rest agora v e n ne dying)
        (state_gone g c cur next rest agora v e n ne dying) in
    (
      bury (taken gone c) cur,
      goes ∙ ap some buried,
      subst (Ended (bury (taken gone c) cur) cur) (waiters_gone g c cur next rest agora)
          (bury-Ended (taken gone c) cur),
    )

count-contains : (xs : List ℕ) (x : ℕ) → contains xs x ≡ true → 1 ≤ count x xs
unfolding contains count
count-contains [] x h = absurd (ground arith)
count-contains (y ∷ ys) x h = ground (arith, count-contains ys x)

await-count : (g : Sched) (t cur : ℕ) → 1 ≤ count cur ((await g t cur).thread t).waiters
unfolding await
await-count g t cur = elim (Bool-cases (contains (g.thread t).waiters cur)) [
  | inl h ↦ rw h (count-contains (g.thread t).waiters cur h)
  | inr h ↦ rw h (ground (arith, count-snoc cur (g.thread t).waiters cur))
]

-- The join by thread `cur` on CPU `c` of the thread `t` called `id` blocks, and at the moment that it
-- gives up the CPU, in the state `h`, it stands among those who wait for `t`.
abbrev pub Recorded : Sched → ℕ → ℕ → ℕ → ℕ → ℕ → Type 0
Recorded g c cur id t agora =
    (h : Sched) × (g' : Sched) × (1 ≤ count cur (h.thread t).waiters)
    × (schedule h c blocked agora ≡ some g')
    × (join_turn g c id agora ≡ some (g', true, false))

unjoined :
    (g : Sched) (c id agora : ℕ)
    → join_turn g c id agora ≡ none
    → perform g (joins c id agora) ≡ none
unfolding perform
unjoined g c id agora q = rw q refl

join_turn-Recorded :
    {a : Accounts} (g : Sched) (c cur id t agora : ℕ)
    → Reached a g
    → g.running_on c ≡ some cur
    → (g.thread cur).is_idle ≡ false
    → find g g.all id ≡ some t
    → (g.thread t).finished ≡ false
    → (cur == t) ≡ false
    → Recorded g c cur id t agora
unfolding join_turn
join_turn-Recorded {a} g c cur id t agora r e i f d n =
    elim (Option-cases (schedule (await g t cur) c blocked agora)) [
      | inr (g', s) ↦
          (await g t cur, g', await-count g t cur, s, rw (join_turn, f, d, e, i, n, s) refl)
      | inl s ↦
          let (g', p) = (perform_total g (joins c id agora) r (cur, e)).0 tt in
          let q : join_turn g c id agora ≡ none = rw (join_turn, f, d, e, i, n, s) refl in
          let z = unjoined g c id agora q in absurd (ground arith)
    ]

-- In every state that the scheduler can come to, of a thread that has a CPU and is not idle: when it
-- joins another thread that has not finished, it blocks, and stands among those who wait for that
-- thread at the moment it gives up the CPU; and when it ends, it is finished afterwards, and no thread
-- that stands among those who wait for it is left blocked.
pub exit_current_wakes :
    {a : Accounts} (g : Sched) (c cur agora : ℕ)
    → Reached a g
    → g.running_on c ≡ some cur
    → (g.thread cur).is_idle ≡ false
    → ((g' : Sched) × (exit_current g c agora ≡ some g')
        × (((g'.thread cur).finished ≡ true)
            × ((w : ℕ)
                → 1 ≤ count w (g.thread cur).waiters
                → is_blocked (g'.thread w).state ≡ false)))
      × ((id t : ℕ)
          → find g g.all id ≡ some t
          → (g.thread t).finished ≡ false
          → (cur == t) ≡ false
          → Recorded g c cur id t agora)
exit_current_wakes {a} g c cur agora r e i =
    let v = Reached-IsValid r in
    let woken : (g' : Sched) × (exit_current g c agora ≡ some g')
        × Ended g' cur (g.thread cur).waiters =
      elim (Option-cases (g.idle_of c)) [
        | inl h ↦ absurd (v.placed.idle_some c cur e h)
        | inr (idle, h) ↦ ends g c cur idle agora v e h i
      ] in
    (woken, λ id t. join_turn-Recorded g c cur id t agora r e i)
