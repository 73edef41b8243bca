-- ===== src/Scheduler.antt =====
-- The scheduler of kernel threads: kernel/src/sched.rs.
--
-- The state under the lock `SCHED` is the record `Sched`, with the flag `ACTIVE`. An `Arc<Thread>` is the number of the
-- thread: the value that `NEXT_ID` had when the thread was made, of which `id` is the 64-bit
-- reading; `thread` is the store that the `Arc`s point into. A CPU is its index. The lock is held
-- through a context switch, so `schedule_locked` and the `finish_switch` of the thread that gets the
-- CPU are one step. Readings of the clock are arguments. Stacks, registers, page tables and the
-- interrupts sent to other CPUs are left out.
pub mod Quota
mod Tests
pub mod Switch
pub mod Calls
pub mod Tick
pub mod Queues
pub mod Places
pub mod Inv
pub mod Reach
pub mod Picking
pub mod Ending
use nexo_os.Prelude.{
  ℕ, zero, suc, ◌+◌, ◌-◌, ◌%◌, ◌^◌, min, bit_and, Bool, true, false, not, ◌&&◌, ◌||◌, List, [], ◌∷◌,
  ◌++◌, Option, none, some, leb, ltb, ◌==◌, if◌then◌else◌, length,
}
use nexo_os.Scheduler.Quota.{Accounts, update, u64_mod, em_throttle}

pub data State : Type 0 where
  ready running sleeping blocked dying dead : State

-- `Thread` with its `Inner`.
pub record Thread : Type 0 where
  pub id : ℕ
  pub is_idle : Bool
  pub finished : Bool
  pub runs : ℕ
  pub last_cpu : ℕ
  pub affinity : ℕ
  pub prio : ℕ
  pub process : Option ℕ
  pub state : State
  pub entrou_em_ns : ℕ
  pub wake_at_ns : ℕ
  pub quantum_left : ℕ
  pub waiters : List ℕ

pub record Sched : Type 0 where
  pub thread : ℕ → Thread
  pub next_id : ℕ
  pub run_queue : List ℕ
  pub sleepers : List ℕ
  pub dead_list : List ℕ
  pub all : List ℕ
  pub running_on : ℕ → Option ℕ
  pub idle_of : ℕ → Option ℕ
  pub prev_for_finish : ℕ → Option ℕ
  pub switches : ℕ
  pub preemptions : ℕ
  pub spawned : ℕ
  pub reaped : ℕ
  pub join_dedups : ℕ
  pub join_skips : ℕ
  pub prio_preempts : ℕ
  pub accounts : Accounts
  pub active : Bool

abbrev pub quantum_ticks : ℕ
quantum_ticks = 10

abbrev pub u64_max : ℕ
u64_max = u64_mod - 1

abbrev pub put : Sched → ℕ → Thread → Sched
put g t th = record g { thread = update g.thread t th }

-- What a number stands for that no thread has yet.
abbrev pub no_thread : Thread
no_thread = record {
  id = 0;
  is_idle = false;
  finished = true;
  runs = 0;
  last_cpu = u64_max;
  affinity = 0;
  prio = 0;
  process = none;
  state = dead;
  entrou_em_ns = 0;
  wake_at_ns = 0;
  quantum_left = 0;
  waiters = [];
}

-- The initial value of `SCHED` and `NEXT_ID`, over the accounts of the processes.
abbrev pub empty : Accounts → Sched
empty accounts = record {
  thread = λ t. no_thread;
  next_id = 1;
  run_queue = [];
  sleepers = [];
  dead_list = [];
  all = [];
  running_on = λ c. none;
  idle_of = λ c. none;
  prev_for_finish = λ c. none;
  switches = 0;
  preemptions = 0;
  spawned = 0;
  reaped = 0;
  join_dedups = 0;
  join_skips = 0;
  prio_preempts = 0;
  accounts = accounts;
  active = false;
}

-- `new_thread`, with the fields that its callers set before the thread can be seen.
abbrev pub new_thread : ℕ → Bool → State → ℕ → ℕ → Option ℕ → Thread
new_thread n is_idle state affinity prio process = record {
  id = n % u64_mod;
  is_idle = is_idle;
  finished = false;
  runs = 0;
  last_cpu = u64_max;
  affinity = affinity;
  prio = prio;
  process = process;
  state = state;
  entrou_em_ns = 0;
  wake_at_ns = 0;
  quantum_left = quantum_ticks;
  waiters = [];
}

-- `set_current`, the part that concerns the thread.
abbrev pub set_current : ℕ → Thread → Thread
set_current c th = record th { last_cpu = c; runs = th.runs + 1 }

-- `q.iter().position(f)`, counted from `i`.
unfoldable pub position : (ℕ → Bool) → List ℕ → ℕ → Option ℕ
position f [] i = none
position f (t ∷ ts) i = if f t then some i else position f ts (suc i)

unfoldable pub any : (ℕ → Bool) → List ℕ → Bool
any f [] = false
any f (t ∷ ts) = f t || any f ts

unfoldable pub remove : List ℕ → ℕ → List ℕ
remove [] i = []
remove (t ∷ ts) zero = ts
remove (t ∷ ts) (suc i) = t ∷ remove ts i

unfoldable pub throttled : Accounts → Thread → Bool
unfolding em_throttle
throttled a th = elim (th.process) [ none ↦ false | some p ↦ em_throttle a p ]

unfoldable pub allowed_on : Sched → ℕ → ℕ → Bool
unfolding throttled
allowed_on g c t =
    if bit_and (g.thread t).affinity (2 ^ min c 63) == 0
    then false
    else not (throttled g.accounts (g.thread t))

-- The test of `pick_next` and `normal_ready` for the preferred class.
unfoldable pub normal_on : Sched → ℕ → ℕ → Bool
unfolding allowed_on
normal_on g c t = allowed_on g c t && ((g.thread t).prio == 0)

unfoldable pub pick_next : Sched → List ℕ → ℕ → Option ℕ
unfolding position normal_on allowed_on
pick_next g q c = elim (position (normal_on g c) q 0) [
  | none ↦ position (allowed_on g c) q 0
  | some i ↦ some i
]

unfoldable pub normal_ready : Sched → List ℕ → ℕ → Bool
unfolding any normal_on
normal_ready g q c = any (normal_on g c) q

-- `g.all.iter().find(|t| t.id == id)`.
unfoldable pub find : Sched → List ℕ → ℕ → Option ℕ
find g [] id = none
find g (t ∷ ts) id = if (g.thread t).id == id then some t else find g ts id
