-- ===== src/Scheduler/Reach.antt =====
-- The states that the scheduler of kernel/src/sched.rs can come to, over all calls and interrupts of
-- all CPUs in every order.
pub mod Laws
use nexo_os.Prelude.{ℕ, ◌≡◌, ◌≢◌, Bool, true, false, List, Option, none, some}
use nexo_os.Scheduler.{Thread, Sched, empty}
use nexo_os.Scheduler.Quota.{Accounts, attach, set_cpu_limit, cpu_quota_tick}
use nexo_os.Scheduler.Calls.{
  init, ap_idle_loop, spawn_full, yield_now, sleep_ns, exit_current, join_turn, park_with, unpark,
  reap, set_affinity, set_priority,
}
use nexo_os.Scheduler.Tick.{on_tick, on_resched_ipi}

-- Each with its CPU first where it has one, and the readings of the clock. A start and a spawn say
-- whether there is a slot for a stack.
pub data Call : Type 0 where
  starts : ℕ → Bool → Call
  joins_in : ℕ → Call
  spawns : ℕ → ℕ → Option ℕ → Bool → Call
  yields exits parks : ℕ → ℕ → Call
  sleeps : ℕ → ℕ → ℕ → ℕ → Call
  joins : ℕ → ℕ → ℕ → Call
  unparks : ℕ → Call
  reaps : Call
  pins ranks : ℕ → ℕ → Call
  ticks : ℕ → Bool → ℕ → ℕ → ℕ → Call
  interrupts : ℕ → ℕ → Call
  attaches limits : ℕ → ℕ → Call
  charges : Call

-- Without the pair that `join` reads.
abbrev pub state_of : Option (Sched × Bool × Bool) → Option Sched
state_of none = none
state_of (some (g', found, done)) = some g'

-- `none` is a panic.
unfoldable pub perform : Sched → Call → Option Sched
perform g (starts c slot) = init g c slot
perform g (joins_in c) = some (ap_idle_loop g c)
perform g (spawns c mask process slot) = elim (spawn_full g c mask process slot) [
  | none ↦ none
  | some (g', t) ↦ some g'
]
perform g (yields c agora) = yield_now g c agora
perform g (exits c agora) = exit_current g c agora
perform g (parks c agora) = park_with g c agora
perform g (sleeps c ns now agora) = sleep_ns g c ns now agora
perform g (joins c id agora) = state_of (join_turn g c id agora)
perform g (unparks id) = some (unpark g id)
perform g reaps = some (reap g).0
perform g (pins id mask) = some (set_affinity g id mask).0
perform g (ranks id prio) = some (set_priority g id prio).0
perform g (ticks c fronteira now later agora) = on_tick g c fronteira now later agora
perform g (interrupts c agora) = on_resched_ipi g c agora
perform g (attaches job p) = some (record g { accounts = attach g.accounts job p })
perform g (limits job ns) = some (record g { accounts = set_cpu_limit g.accounts job ns })
perform g charges = some (record g { accounts = cpu_quota_tick g.accounts })

-- A CPU starts once; what calls on a CPU is its thread; an idle thread never ends.
abbrev pub Permitted : Sched → Call → Type 0
Permitted g (starts c slot) = (g.running_on c ≡ none) × (g.idle_of c ≡ none)
Permitted g (joins_in c) = (g.running_on c ≡ none) × (g.idle_of c ≡ none)
Permitted g (yields c agora) = (cur : ℕ) × (g.running_on c ≡ some cur)
Permitted g (exits c agora) =
    (cur : ℕ) × (g.running_on c ≡ some cur) × ((g.thread cur).is_idle ≡ false)
Permitted g (parks c agora) = (cur : ℕ) × (g.running_on c ≡ some cur)
Permitted g (sleeps c ns now agora) = (cur : ℕ) × (g.running_on c ≡ some cur)
Permitted g (joins c id agora) = (cur : ℕ) × (g.running_on c ≡ some cur)
Permitted g _ = Unit {0}

-- The call has the slot for a stack that it needs.
abbrev pub HasStack : Call → Type 0
HasStack (starts c slot) = slot ≡ true
HasStack (spawns c mask process slot) = slot ≡ true
HasStack _ = Unit {0}

pub data Reached (a : Accounts) : Sched → Type 0 where
  start : Reached a (empty a)
  step :
      {g g' : Sched} (call : Call)
      → Reached a g
      → Permitted g call
      → perform g call ≡ some g'
      → Reached a g'
