-- ===== src/Scheduler/Reach/Laws.antt =====
-- What holds in every state that the scheduler of kernel/src/sched.rs can come to.
use nexo_os.Prelude.{
  ℕ, ◌≡◌, ◌↔◌, refl, false, subst, sym, ◌∙◌, inl, inr, true, not, ◌&&◌, some, arith, Option-cases,
  if◌then◌else◌,
}
use nexo_os.Scheduler.{Sched}
use nexo_os.Scheduler.Quota.{Accounts}
use nexo_os.Scheduler.Queues.{count, count-nil, one}
use nexo_os.Scheduler.Places.{is_ready, is_running, is_sleeping, is_dead}
use nexo_os.Scheduler.Inv.{IsValid, empty-IsValid}
use nexo_os.Scheduler.Inv.Calls.{
  Safe, spawn_on-IsValid, ap_idle_loop-IsValid, begin-IsValid, unpark-IsValid, reap-IsValid,
  set_affinity-IsValid, set_priority-IsValid,
}
use nexo_os.Scheduler.Inv.Threads.{
  yield_now-Safe, exit_current-Safe, park_with-Safe, sleep_ns-Safe, join_turn-Safe,
}
use nexo_os.Scheduler.Inv.Ticks.{on_tick-Safe, on_resched_ipi-Safe, recount-IsValid}
use nexo_os.Scheduler.Reach.{
  Call, starts, joins_in, spawns, yields, exits, parks, sleeps, joins, unparks, reaps, pins, ranks,
  ticks, interrupts, attaches, limits, charges, perform, Permitted, HasStack, Reached, start, step,
}

-- In a valid state a call that may be made and has its stack does not panic and leaves a valid state.
pub perform-Safe :
    (g : Sched) (call : Call) → IsValid g → Permitted g call → HasStack call → Safe (perform g call)
unfolding perform nexo_os.Scheduler.Calls.init nexo_os.Scheduler.Calls.spawn_full
perform-Safe g (starts c slot) v (off, free) e = rw e (begin-IsValid g v c off free)
perform-Safe g (joins_in c) v (off, free) e = ap_idle_loop-IsValid g v c off free
perform-Safe g (spawns c mask process slot) v h e = rw e (spawn_on-IsValid g v c mask process)
perform-Safe g (yields c agora) v (cur, r) e = yield_now-Safe g v c cur agora r
perform-Safe g (exits c agora) v (cur, r, i) e = exit_current-Safe g v c cur agora r i
perform-Safe g (parks c agora) v (cur, r) e = park_with-Safe g v c cur agora r
perform-Safe g (sleeps c ns now agora) v (cur, r) e = sleep_ns-Safe g v c cur agora r ns now
perform-Safe g (joins c id agora) v (cur, r) e = join_turn-Safe g v c cur agora r id
perform-Safe g (unparks id) v h e = unpark-IsValid g v id
perform-Safe g reaps v h e = reap-IsValid g v
perform-Safe g (pins id mask) v h e = set_affinity-IsValid g v id mask
perform-Safe g (ranks id prio) v h e = set_priority-IsValid g v id prio
perform-Safe g (ticks c fronteira now later agora) v h e =
    on_tick-Safe g c fronteira now later agora v
perform-Safe g (interrupts c agora) v h e = on_resched_ipi-Safe g c agora v
perform-Safe g (attaches job p) v h e = recount-IsValid g _ g.preemptions g.prio_preempts v
perform-Safe g (limits job ns) v h e = recount-IsValid g _ g.preemptions g.prio_preempts v
perform-Safe g charges v h e = recount-IsValid g _ g.preemptions g.prio_preempts v

-- Without its stack a call panics.
starved : (g : Sched) (call : Call) {g' : Sched} → perform g call ≡ some g' → HasStack call
unfolding perform nexo_os.Scheduler.Calls.init nexo_os.Scheduler.Calls.spawn_full
starved g (starts c true) e = refl
starved g (starts c false) e = absurd (ground arith)
starved g (spawns c mask process true) e = refl
starved g (spawns c mask process false) e = absurd (ground arith)
starved g (joins_in c) e = tt
starved g (yields c agora) e = tt
starved g (exits c agora) e = tt
starved g (parks c agora) e = tt
starved g (sleeps c ns now agora) e = tt
starved g (joins c id agora) e = tt
starved g (unparks id) e = tt
starved g reaps e = tt
starved g (pins id mask) e = tt
starved g (ranks id prio) e = tt
starved g (ticks c fronteira now later agora) e = tt
starved g (interrupts c agora) e = tt
starved g (attaches job p) e = tt
starved g (limits job ns) e = tt
starved g charges e = tt

pub Reached-IsValid : {a : Accounts} {g : Sched} → Reached a g → IsValid g
Reached-IsValid {a} start = empty-IsValid a
Reached-IsValid (step {g} call r h e) =
    subst Safe e (perform-Safe g call (Reached-IsValid r) h (starved g call e))

pub perform_total :
    {a : Accounts} (g : Sched) (call : Call)
    → Reached a g
    → Permitted g call
    → HasStack call ↔ ((g' : Sched) × (perform g call ≡ some g'))
perform_total g call r h = (
  λ k. elim (Option-cases (perform g call)) [
    | inl e ↦ absurd (subst Safe e (perform-Safe g call (Reached-IsValid r) h k))
    | inr (g', e) ↦ (g', e)
  ],
  λ (g', e). starved g call e,
)

one_cpu :
    (g : Sched) (t c d : ℕ) → IsValid g → g.running_on c ≡ some t → g.running_on d ≡ some t → c ≡ d
one_cpu g t c d v e h = ground (arith, v.placed.on_cpu c t, v.placed.on_cpu d t)

-- In every state that the scheduler can come to, the state of a thread says where it stands: a ready
-- thread is in the run queue once, unless it is idle, a sleeping one among the sleepers once, a dead
-- one in the list of the dead as long as it is in that of all threads, and none of them in these
-- lists otherwise; a thread that is running is on the CPU that it was last given, and a thread that
-- is on a CPU is running, and on no other CPU.
pub Reached_place :
    {a : Accounts} (g : Sched) (t : ℕ)
    → Reached a g
    → let st = (g.thread t).state in
      (count t g.run_queue ≡ one (is_ready st && not (g.thread t).is_idle))
      × (count t g.sleepers ≡ one (is_sleeping st))
      × (count t g.dead_list ≡ (if is_dead st then count t g.all else 0))
      × (is_running st ≡ true → g.running_on (g.thread t).last_cpu ≡ some t)
      × ((c : ℕ) → g.running_on c ≡ some t → is_running st ≡ true)
      × ((c d : ℕ) → g.running_on c ≡ some t → g.running_on d ≡ some t → c ≡ d)
Reached_place g t r =
    let v = Reached-IsValid r in
    let p = v.placed in
    (
      p.queued t,
      p.asleep t,
      sym (count-nil t g.dead_list) ∙ p.gone t,
      p.has_cpu t,
      λ c e. (p.on_cpu c t e).0,
      λ c d. one_cpu g t c d v,
    )
