-- ===== src/Scheduler/Switch.antt =====
-- The change of threads on a CPU: `schedule_locked` and `finish_switch` of kernel/src/sched.rs.
--
-- `none` is the panic of a CPU that has no thread, or no idle thread.
use nexo_os.Prelude.{
  ℕ, ◌+◌, ◌-◌, ◌%◌, Bool, true, false, List, [], ◌∷◌, ◌++◌, Option, none, some, ◌==◌, if◌then◌else◌,
  get_or,
}
use nexo_os.Scheduler.{
  State, ready, running, sleeping, blocked, dying, dead, Thread, Sched, quantum_ticks, put,
  set_current, remove, pick_next,
}
use nexo_os.Scheduler.Quota.{Accounts, update, u64_mod}

abbrev pub is_blocked : State → Bool
is_blocked blocked = true
is_blocked _ = false

abbrev pub push_ready : Sched → ℕ → Sched
push_ready g t = record g {
  thread = update g.thread t (record (g.thread t) { state = ready });
  run_queue = g.run_queue ++ t ∷ [];
}

-- The thread to run, and the queue without it. An index that `pick_next` returns is in range.
unfoldable pub take_next : Sched → ℕ → ℕ → ℕ × List ℕ
unfolding pick_next remove
take_next g c idle = elim (pick_next g g.run_queue c) [
  | none ↦ (idle, g.run_queue)
  | some i ↦ (get_or g.run_queue i idle, remove g.run_queue i)
]

-- The time of the thread that leaves, credited to its process.
unfoldable pub credit : Accounts → Thread → ℕ → Accounts
credit a th agora = elim (th.process) [
  | none ↦ a
  | some p ↦ record a {
    cpu_ns = update a.cpu_ns p ((a.cpu_ns p + (agora - th.entrou_em_ns)) % u64_mod);
  }
]

-- The queues after the thread `cur` took the state `new_state`.
abbrev pub queue_ready : Thread → ℕ → State → List ℕ → List ℕ
queue_ready th cur ready q = if th.is_idle then q else q ++ cur ∷ []
queue_ready th cur _ q = q

abbrev pub queue_sleeping : ℕ → State → List ℕ → List ℕ
queue_sleeping cur sleeping q = q ++ cur ∷ []
queue_sleeping cur _ q = q

abbrev pub resume : Thread → Thread
resume th = record th { state = running; quantum_left = quantum_ticks }

-- What `schedule_locked` writes when `next` takes the CPU `c` from `cur`.
unfoldable pub switch_to : Sched → ℕ → ℕ → ℕ → State → ℕ → Sched
unfolding credit
switch_to g c cur next new_state agora =
    let left = update g.thread cur (record (g.thread cur) { state = new_state }) in
    record g {
      accounts = credit g.accounts (g.thread cur) agora;
      thread =
          update left next (set_current c (resume (record (left next) { entrou_em_ns = agora })));
      run_queue = queue_ready (g.thread cur) cur new_state g.run_queue;
      sleepers = queue_sleeping cur new_state g.sleepers;
      running_on = update g.running_on c (some next);
      prev_for_finish = update g.prev_for_finish c (some cur);
      switches = g.switches + 1;
    }

-- The flag says whether the CPU changed hands.
unfoldable pub schedule_locked : Sched → ℕ → State → ℕ → Option (Sched × Bool)
unfolding take_next switch_to
schedule_locked g c new_state agora = elim (g.running_on c) [
  | none ↦ none
  | some cur ↦ elim (g.idle_of c) [
    | none ↦ none
    | some idle ↦
        let (next, rest) = take_next g c idle in
        let g' = record g { run_queue = rest } in
        if next == cur
        then some (put g' cur (resume (g'.thread cur)), false)
        else some (switch_to g' c cur next new_state agora, true)
  ]
]

-- A waiter that is not blocked is not queued again.
unfoldable pub wake_waiter : Sched → ℕ → Sched
wake_waiter g w =
    if is_blocked (g.thread w).state
    then push_ready g w
    else record g { join_skips = g.join_skips + 1 }

unfoldable pub wake_waiters : Sched → List ℕ → Sched
unfolding wake_waiter
wake_waiters g [] = g
wake_waiters g (w ∷ ws) = wake_waiters (wake_waiter g w) ws

-- The thread `prev`, which was dying, becomes dead.
unfoldable pub bury : Sched → ℕ → Sched
unfolding wake_waiters
bury g prev =
    let th = g.thread prev in
    let woken =
      wake_waiters (put g prev (record th { state = dead; waiters = []; finished = true }))
        th.waiters in
    record woken { dead_list = woken.dead_list ++ prev ∷ [] }

unfoldable pub finish_switch : Sched → ℕ → Sched
unfolding bury
finish_switch g c = elim (g.prev_for_finish c) [
  | none ↦ g
  | some prev ↦
      let taken = record g { prev_for_finish = update g.prev_for_finish c none } in
      elim ((g.thread prev).state) [ dying ↦ bury taken prev | _ ↦ taken ]
]

-- Both, as the lock is held in between.
unfoldable pub schedule : Sched → ℕ → State → ℕ → Option Sched
unfolding schedule_locked finish_switch
schedule g c new_state agora = elim (schedule_locked g c new_state agora) [
  | none ↦ none
  | some (g', switched) ↦ some (if switched then finish_switch g' c else g')
]
