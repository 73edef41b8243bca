-- ===== src/Scheduler/Tick.antt =====
-- The interrupts of a CPU: `on_tick` and `on_resched_ipi` of kernel/src/sched.rs.
--
-- The first CPU's call of the kernel timers is the module Timers.
use nexo_os.Prelude.{
  ℕ, ◌+◌, ◌-◌, Bool, not, ◌&&◌, ◌||◌, List, [], ◌∷◌, ◌++◌, Option, none, some, leb, ◌==◌,
  if◌then◌else◌,
}
use nexo_os.Scheduler.{Thread, Sched, ready, put, any, allowed_on, normal_ready, throttled}
use nexo_os.Scheduler.Quota.{Accounts, tem_quota, estourou, marca_throttle}
use nexo_os.Scheduler.Switch.{schedule, push_ready}

-- The loop over the sleepers: `kept` were passed over, the list is still to come.
unfoldable pub wake_due : Sched → ℕ → List ℕ → List ℕ → Sched
wake_due g now kept [] = g
wake_due g now kept (t ∷ ts) =
    let due = leb (g.thread t).wake_at_ns now in
    wake_due (if due then push_ready (record g { sleepers = kept ++ ts }) t else g) now
      (if due then kept else kept ++ t ∷ []) ts

-- The running thread's check of its own job, on a boundary of a tick.
unfoldable pub charge : Accounts → Thread → Bool → ℕ → Accounts
unfolding tem_quota estourou marca_throttle
charge a th fronteira now = if not fronteira then a else elim (th.process) [
  | none ↦ a
  | some p ↦ elim (a.job p) [
    | none ↦ a
    | some n ↦
        if tem_quota (a.jobs n) && estourou a (a.jobs n) (now - th.entrou_em_ns)
        then marca_throttle a n
        else a
  ]
]

abbrev pub spend : Thread → Bool → Thread
spend th fronteira = record th {
  quantum_left = if fronteira then th.quantum_left - 1 else th.quantum_left;
}

-- A low thread while a normal one waits for the CPU.
abbrev pub normal_waiting : Sched → ℕ → Thread → Bool
normal_waiting g c th = (th.prio == 1) && normal_ready g g.run_queue c

abbrev pub has_work : Sched → ℕ → Bool
has_work g c = any (allowed_on g c) g.run_queue

abbrev pub sem_orcamento : Accounts → Thread → Bool
sem_orcamento a th = throttled a th && not th.is_idle

-- Whether the running thread `th` gives way on a tick.
abbrev pub gives_way : Sched → ℕ → Thread → Bool
gives_way g c th = has_work g c && (th.is_idle || (th.quantum_left == 0) || normal_waiting g c th)

-- The part after the sleepers, for the thread `cur` that runs on the CPU.
unfoldable pub preempt : Sched → ℕ → ℕ → Bool → ℕ → ℕ → Option Sched
unfolding any allowed_on normal_ready charge throttled schedule
preempt g c cur fronteira later agora =
    let th = spend (g.thread cur) fronteira in
    let spent = put g cur th in
    let charged = charge g.accounts th fronteira later in
    if sem_orcamento charged th
    then schedule (record spent { accounts = charged; preemptions = g.preemptions + 1 }) c ready
        agora
    else if gives_way spent c th
    then schedule
        (record spent {
          accounts = charged;
          preemptions = g.preemptions + 1;
          prio_preempts =
              if normal_waiting spent c th && not (th.quantum_left == 0)
              then g.prio_preempts + 1
              else g.prio_preempts;
        })
        c ready agora
    else some (record spent { accounts = charged })

unfoldable pub on_tick : Sched → ℕ → Bool → ℕ → ℕ → ℕ → Option Sched
unfolding wake_due preempt
on_tick g c fronteira now later agora =
    let awake = wake_due g now [] g.sleepers in
    if g.active
    then elim (awake.running_on c) [
      | none ↦ some awake
      | some cur ↦ preempt awake c cur fronteira later agora
    ]
    else some g

-- Whether the running thread gives way to what another CPU made ready.
abbrev pub answers : Sched → ℕ → Thread → Bool
answers g c th = (th.is_idle && has_work g c) || normal_waiting g c th

unfoldable pub on_resched_ipi : Sched → ℕ → ℕ → Option Sched
unfolding any allowed_on normal_ready schedule
on_resched_ipi g c agora =
    if g.active
    then elim (g.running_on c) [
      | none ↦ some g
      | some cur ↦ if answers g c (g.thread cur) then schedule g c ready agora else some g
    ]
    else some g
