-- ===== src/Scheduler/Tests.antt =====
-- The theorems on kernel/src/sched.rs and the jobs of kernel/src/process.rs at a small machine: a main
-- thread 1 and an idle thread 2 on CPU 0, a thread 3 that waits for the main one.
use nexo_os.Prelude.{
  ℕ, ◌-◌, ◌*◌, ◌+◌, ◌≤◌, ◌≡◌, refl, ◌==◌, true, false, not, ◌&&◌, [], ◌∷◌, Option, some, none,
  arith, leb, if◌then◌else◌,
}
use nexo_os.Scheduler.{Sched, Thread, empty, pick_next, allowed_on, normal_on}
use nexo_os.Scheduler.Quota.{Accounts, new_job, update}
use nexo_os.Scheduler.Quota.Laws.{spent, windows, windows_charge}
use nexo_os.Scheduler.Queues.{count, one}
use nexo_os.Scheduler.Switch.{is_blocked}
use nexo_os.Scheduler.Calls.{exit_current}
use nexo_os.Scheduler.Tick.{wake_due}
use nexo_os.Scheduler.Places.{is_ready, is_running, is_sleeping, is_dead}
use nexo_os.Scheduler.Reach.{starts, spawns, yields, joins, sleeps, perform, Reached, start, step}
use nexo_os.Scheduler.Reach.Laws.{Reached_place}
use nexo_os.Scheduler.Picking.{IsPick, pick_next-IsPick, is_due, wake_due_lem}
use nexo_os.Scheduler.{find}
use nexo_os.Scheduler.Ending.{Recorded, exit_current_wakes}

abbrev quiet : Accounts
quiet = record { cpu_ns = λ p. 0; job = λ p. none; jobs = λ n. new_job; jobs_com_quota = [] }

abbrev get : Option Sched → Sched
get none = empty quiet
get (some g) = g

abbrev started : Sched
started = get (perform (empty quiet) (starts 0 true))

abbrev spawned : Sched
spawned = get (perform started (spawns 0 0 none true))

abbrev yielded : Sched
yielded = get (perform spawned (yields 0 5))

abbrev waiting : Sched
waiting = get (perform yielded (joins 0 1 6))

abbrev asleep : Sched
asleep = get (perform yielded (sleeps 0 100 6 7))

yielded_queue : yielded.run_queue ≡ 1 ∷ []
unfolding perform nexo_os.Scheduler.Calls.yield_now nexo_os.Scheduler.Calls.spawn_full
    nexo_os.Scheduler.Calls.init
yielded_queue = refl

waiting_waiters : (waiting.thread 1).waiters ≡ 3 ∷ []
unfolding perform nexo_os.Scheduler.Calls.join_turn nexo_os.Scheduler.Calls.yield_now
    nexo_os.Scheduler.Calls.spawn_full nexo_os.Scheduler.Calls.init
waiting_waiters = refl

spawned-Reached : Reached quiet spawned
unfolding perform nexo_os.Scheduler.Calls.init nexo_os.Scheduler.Calls.spawn_full
spawned-Reached = step (spawns 0 0 none true) (step (starts 0 true) start (refl, refl) refl) tt refl

yielded-Reached : Reached quiet yielded
unfolding perform nexo_os.Scheduler.Calls.spawn_full nexo_os.Scheduler.Calls.init
    nexo_os.Scheduler.Calls.yield_now
yielded-Reached = step (yields 0 5) spawned-Reached (1, refl) refl

waiting-Reached : Reached quiet waiting
unfolding perform nexo_os.Scheduler.Calls.yield_now nexo_os.Scheduler.Calls.spawn_full
    nexo_os.Scheduler.Calls.init nexo_os.Scheduler.Calls.join_turn
waiting-Reached = step (joins 0 1 6) yielded-Reached (3, refl) refl

Reached_place_example :
    let st = (waiting.thread 1).state in
    (count 1 waiting.run_queue ≡ one (is_ready st && not (waiting.thread 1).is_idle))
    × (count 1 waiting.sleepers ≡ one (is_sleeping st))
    × (count 1 waiting.dead_list ≡ (if is_dead st then count 1 waiting.all else 0))
    × (is_running st ≡ true → waiting.running_on (waiting.thread 1).last_cpu ≡ some 1)
    × ((c : ℕ) → waiting.running_on c ≡ some 1 → is_running st ≡ true)
    × ((c d : ℕ) → waiting.running_on c ≡ some 1 → waiting.running_on d ≡ some 1 → c ≡ d)
Reached_place_example = Reached_place waiting 1 waiting-Reached

exit_current_wakes_example :
    ((g' : Sched) × (exit_current waiting 0 9 ≡ some g')
      × (((g'.thread 1).finished ≡ true)
          × ((w : ℕ)
              → 1 ≤ count w (waiting.thread 1).waiters
              → is_blocked (g'.thread w).state ≡ false)))
    × ((id t : ℕ)
        → find waiting waiting.all id ≡ some t
        → (waiting.thread t).finished ≡ false
        → (1 == t) ≡ false
        → Recorded waiting 0 1 id t 9)
unfolding perform nexo_os.Scheduler.Calls.join_turn nexo_os.Scheduler.Calls.yield_now
    nexo_os.Scheduler.Calls.spawn_full nexo_os.Scheduler.Calls.init
exit_current_wakes_example = exit_current_wakes waiting 0 1 9 waiting-Reached refl refl

pick_next-IsPick_example : IsPick yielded (2 ∷ 1 ∷ []) 0 (pick_next yielded (2 ∷ 1 ∷ []) 0)
pick_next-IsPick_example = pick_next-IsPick yielded (2 ∷ 1 ∷ []) 0

wake_due_lem_example :
    let g' = wake_due asleep 106 [] asleep.sleepers in
    (count 3 g'.sleepers ≡ (if is_due asleep 106 3 then 0 else count 3 asleep.sleepers))
    × (count 3 g'.run_queue
        ≡ count 3 asleep.run_queue + (if is_due asleep 106 3 then count 3 asleep.sleepers else 0))
wake_due_lem_example = wake_due_lem asleep 106 3

-- A job of one process that used 25 of a budget of 10.
abbrev spender : Accounts
spender = record quiet {
  cpu_ns = update (λ p. 0) 7 25;
  jobs = update (λ n. new_job) 1 (record new_job { members = 7 ∷ []; cpu_limite_ns = 10 });
}

windows_charge_example :
    let a' = windows 2 spender 1 in
    let limite = (spender.jobs 1).cpu_limite_ns in
    (spent a' 1 ≡ spent spender 1 - 2 * limite)
    × ((a'.jobs 1).throttled ≡ leb limite (spent spender 1 - 1 * limite))
windows_charge_example = windows_charge 1 spender 1 (λ e. omega arith)
