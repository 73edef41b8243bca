-- ===== src/Scheduler/Places.antt =====
-- Where each thread of the scheduler stands.
pub mod Moves
use nexo_os.Prelude.{
  ◌≢◌, ℕ, zero, suc, ◌+◌, ◌-◌, ◌≤◌, ◌<◌, ◌≡◌, ◌⊎◌, inl, inr, refl, Bool, true, false, not, ◌&&◌,
  ◌||◌, List, [], ◌∷◌, ◌++◌, Option, none, some, arith, ◌==◌, if◌then◌else◌,
}
use nexo_os.Scheduler.{State, ready, running, sleeping, blocked, dying, dead, Sched, Thread}
use nexo_os.Scheduler.Quota.{update}
use nexo_os.Scheduler.Queues.{count, count-snoc, one}
use nexo_os.Scheduler.Switch.{is_blocked}

-- The part of a thread that says where it stands.
pub record Core : Type 0 where
  pub state : State
  pub is_idle : Bool
  pub last_cpu : ℕ
  pub finished : Bool

abbrev pub core : Thread → Core
core th = record {
  state = th.state;
  is_idle = th.is_idle;
  last_cpu = th.last_cpu;
  finished = th.finished;
}

pub record View : Type 0 where
  pub core_of : ℕ → Core
  pub next_id : ℕ
  pub queue : List ℕ
  pub sleepers : List ℕ
  pub buried : List ℕ
  pub all : List ℕ
  pub running_on : ℕ → Option ℕ
  pub idle_of : ℕ → Option ℕ

-- `leaving` are dead threads on their way to the list of the dead.
abbrev pub view : Sched → List ℕ → View
view g leaving = record {
  core_of = λ t. core (g.thread t);
  next_id = g.next_id;
  queue = g.run_queue;
  sleepers = g.sleepers;
  buried = g.dead_list ++ leaving;
  all = g.all;
  running_on = g.running_on;
  idle_of = g.idle_of;
}

abbrev pub is_ready : State → Bool
is_ready ready = true
is_ready _ = false

abbrev pub is_running : State → Bool
is_running running = true
is_running _ = false

abbrev pub is_sleeping : State → Bool
is_sleeping sleeping = true
is_sleeping _ = false

abbrev pub is_dead : State → Bool
is_dead dead = true
is_dead _ = false

abbrev pub is_dying : State → Bool
is_dying dying = true
is_dying _ = false

pub record IsPlaced (v : View) : Type 0 where
  pub queued :
      (t : ℕ) → count t v.queue ≡ one (is_ready (v.core_of t).state && not (v.core_of t).is_idle)
  pub asleep : (t : ℕ) → count t v.sleepers ≡ one (is_sleeping (v.core_of t).state)
  pub gone : (t : ℕ) → count t v.buried ≡ (if is_dead (v.core_of t).state then count t v.all else 0)
  pub alive : (t : ℕ) → is_dying (v.core_of t).state ≡ false
  pub listed : (t : ℕ) → one (not (is_dead (v.core_of t).state)) ≤ count t v.all
  pub listed_once : (t : ℕ) → count t v.all ≤ 1
  pub idle_state :
      (t : ℕ)
      → (v.core_of t).is_idle ≡ true
      → (is_ready (v.core_of t).state || is_running (v.core_of t).state) ≡ true
  pub finished : (t : ℕ) → (v.core_of t).finished ≡ is_dead (v.core_of t).state
  pub on_cpu :
      (c t : ℕ)
      → v.running_on c ≡ some t
      → (is_running (v.core_of t).state ≡ true) × ((v.core_of t).last_cpu ≡ c)
  pub has_cpu :
      (t : ℕ) → is_running (v.core_of t).state ≡ true → v.running_on (v.core_of t).last_cpu ≡ some t
  pub idle_cur :
      (c t : ℕ) → v.running_on c ≡ some t → (v.core_of t).is_idle ≡ true → v.idle_of c ≡ some t
  pub idle_home :
      (c t : ℕ)
      → v.idle_of c ≡ some t
      → ((v.core_of t).is_idle ≡ true)
        × ((is_ready (v.core_of t).state ≡ true) ⊎ (v.running_on c ≡ some t))
  pub idle_one : (c d t : ℕ) → v.idle_of c ≡ some t → v.idle_of d ≡ some t → c ≡ d
  pub idle_some : (c t : ℕ) → v.running_on c ≡ some t → v.idle_of c ≢ none
  pub fresh : (t : ℕ) → v.next_id ≤ t → (is_dead (v.core_of t).state ≡ true) × (count t v.all ≡ 0)

abbrev pub set_state : View → ℕ → State → ℕ → Core
set_state v t st = update v.core_of t (record (v.core_of t) { state = st })

-- A blocked thread becomes ready.
pub wake-IsPlaced :
    (v : View) (t : ℕ)
    → IsPlaced v
    → is_blocked (v.core_of t).state ≡ true
    → IsPlaced (record v { core_of = set_state v t ready; queue = v.queue ++ t ∷ [] })
wake-IsPlaced v t p b = record {
  queued = λ s. ground (arith, p.queued s, p.idle_state t, count-snoc s v.queue t);
  asleep = λ s. ground (arith, p.asleep s);
  gone = λ s. ground (arith, p.gone s);
  alive = λ s. ground (arith, p.alive s);
  listed = λ s. ground (arith, p.listed s);
  listed_once = p.listed_once;
  idle_state = λ s i. ground (arith, p.idle_state s);
  finished = λ s. ground (arith, p.finished s);
  on_cpu = λ c s e. ground (arith, p.on_cpu c s);
  has_cpu = λ s e. ground (arith, p.has_cpu s);
  idle_cur = λ c s e i. ground (arith, p.idle_cur c s);
  idle_home = λ c s e. ground (arith, p.idle_home c s, p.idle_state t);
  idle_one = p.idle_one;
  idle_some = p.idle_some;
  fresh = λ s e. ground (arith, p.fresh s);
}
