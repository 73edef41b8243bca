-- ===== src/Scheduler/Calls.antt =====
-- What threads call: the operations of kernel/src/sched.rs, each up to the point where it gives the
-- lock back or gets the CPU again.
--
-- The loops of `sleep_ns` and `join` that follow are further calls. The current thread of a CPU is
-- the one that `running` holds for it.
use nexo_os.Prelude.{
  ℕ, ◌+◌, ◌-◌, ◌%◌, min, Bool, true, false, not, ◌||◌, List, [], ◌∷◌, ◌++◌, Option, none, some, ltb,
  ◌==◌, if◌then◌else◌, length,
}
use nexo_os.Scheduler.{
  ready, running, sleeping, blocked, dying, Sched, put, u64_max, new_thread, set_current, find,
}
use nexo_os.Scheduler.Quota.{update, u64_mod, contains}
use nexo_os.Scheduler.Switch.{schedule, is_blocked, push_ready}

-- The main thread of the first CPU, then its idle thread.
-- `init` with a stack for the idle thread.
unfoldable pub begin : Sched → ℕ → Sched
begin g c =
    let main = g.next_id in
    let idle = g.next_id + 1 in
    record g {
      thread =
          update (update g.thread main (set_current c (new_thread main false running 1 0 none)))
            idle (new_thread idle true ready u64_max 0 none);
      next_id = g.next_id + 2;
      running_on = update g.running_on c (some main);
      idle_of = update g.idle_of c (some idle);
      all = g.all ++ main ∷ idle ∷ [];
      active = true;
    }

-- `slot` is whether `stack::alloc` finds a free slot; without one the code panics.
unfoldable pub init : Sched → ℕ → Bool → Option Sched
unfolding begin
init g c slot = if slot then some (begin g c) else none

unfoldable pub ap_idle_loop : Sched → ℕ → Sched
ap_idle_loop g c =
    let idle = g.next_id in
    record g {
      thread = update g.thread idle (set_current c (new_thread idle true running u64_max 0 none));
      next_id = g.next_id + 1;
      running_on = update g.running_on c (some idle);
      idle_of = update g.idle_of c (some idle);
      all = g.all ++ idle ∷ [];
    }

abbrev pub inherited_prio : Sched → ℕ → ℕ
inherited_prio g c = elim (g.running_on c) [ none ↦ 0 | some cur ↦ (g.thread cur).prio ]

-- `spawn_full` with a stack for the thread.
unfoldable pub spawn_on : Sched → ℕ → ℕ → Option ℕ → Sched × ℕ
spawn_on g c mask process =
    let t = g.next_id in
    (
      record g {
        thread = update g.thread t (
            new_thread t false ready (if mask == 0 then u64_max else mask) (inherited_prio g c)
              process);
        next_id = g.next_id + 1;
        spawned = g.spawned + 1;
        all = g.all ++ t ∷ [];
        run_queue = g.run_queue ++ t ∷ [];
      },
      t % u64_mod,
    )

unfoldable pub spawn_full : Sched → ℕ → ℕ → Option ℕ → Bool → Option (Sched × ℕ)
unfolding spawn_on
spawn_full g c mask process slot = if slot then some (spawn_on g c mask process) else none

unfoldable pub yield_now : Sched → ℕ → ℕ → Option Sched
unfolding schedule
yield_now g c agora = if g.active then schedule g c ready agora else some g

unfoldable pub sleep_ns : Sched → ℕ → ℕ → ℕ → ℕ → Option Sched
unfolding schedule
sleep_ns g c ns now agora = if not g.active then some g else elim (g.running_on c) [
  | none ↦ none
  | some cur ↦
      if (g.thread cur).is_idle
      then some g
      else schedule (put g cur (record (g.thread cur) { wake_at_ns = (now + ns) % u64_mod })) c
          sleeping agora
]

unfoldable pub current_slice_ns : Sched → ℕ → ℕ → ℕ
current_slice_ns g c now = elim (g.running_on c) [
  | none ↦ 0
  | some cur ↦ now - (g.thread cur).entrou_em_ns
]

-- `min` of those that are still to come.
unfoldable pub earliest : Sched → ℕ → List ℕ → Option ℕ
earliest g now [] = none
earliest g now (t ∷ ts) =
    let w = (g.thread t).wake_at_ns in
    let rest = earliest g now ts in
    if ltb now w then elim rest [ none ↦ some w | some v ↦ some (min w v) ] else rest

unfoldable pub next_wake_after : Sched → ℕ → Option ℕ
unfolding earliest
next_wake_after g now = earliest g now g.sleepers

unfoldable pub exit_current : Sched → ℕ → ℕ → Option Sched
unfolding schedule
exit_current g c agora = schedule g c dying agora

-- `cur` among those who wait for `t`, once.
unfoldable pub await : Sched → ℕ → ℕ → Sched
unfolding contains
await g t cur =
    let th = g.thread t in
    if contains th.waiters cur
    then record g { join_dedups = g.join_dedups + 1 }
    else put g t (record th { waiters = th.waiters ++ cur ∷ [] })

-- One turn of the loop of `join`, with its pair `(found, done)`.
unfoldable pub join_turn : Sched → ℕ → ℕ → ℕ → Option (Sched × Bool × Bool)
unfolding find await schedule
join_turn g c id agora = elim (find g g.all id) [
  | none ↦ some (g, false, true)
  | some t ↦ if (g.thread t).finished then some (g, true, true) else elim (g.running_on c) [
    | none ↦ none
    | some cur ↦
        if (g.thread cur).is_idle || (cur == t)
        then some (g, true, false)
        else elim (schedule (await g t cur) c blocked agora) [
          | none ↦ none
          | some g' ↦ some (g', true, false)
        ]
  ]
]

unfoldable pub park_with : Sched → ℕ → ℕ → Option Sched
unfolding schedule
park_with g c agora = elim (g.running_on c) [
  | none ↦ none
  | some cur ↦ if (g.thread cur).is_idle then some g else schedule g c blocked agora
]

unfoldable pub unpark : Sched → ℕ → Sched
unfolding find
unpark g id = elim (find g g.all id) [
  | none ↦ g
  | some t ↦ if is_blocked (g.thread t).state then push_ready g t else g
]

unfoldable pub belongs_to : Sched → ℕ → ℕ → Bool
unfolding find
belongs_to g id p = elim (find g g.all id) [
  | none ↦ false
  | some t ↦ elim ((g.thread t).process) [ none ↦ false | some q ↦ q == p ]
]

unfoldable pub is_finished : Sched → ℕ → Bool
unfolding find
is_finished g id = elim (find g g.all id) [ none ↦ true | some t ↦ (g.thread t).finished ]

-- `list.retain(|t| !Arc::ptr_eq(t, d))`, for each `d` that is dead.
unfoldable pub without : ℕ → List ℕ → List ℕ
without d [] = []
without d (t ∷ ts) = let rest = without d ts in if t == d then rest else t ∷ rest

unfoldable pub without_all : List ℕ → List ℕ → List ℕ
unfolding without
without_all [] ts = ts
without_all (d ∷ ds) ts = without_all ds (without d ts)

unfoldable pub reap : Sched → Sched × ℕ
unfolding without_all
reap g =
    let n = length g.dead_list in
    (record g { dead_list = []; all = without_all g.dead_list g.all; reaped = g.reaped + n }, n)

unfoldable pub set_affinity : Sched → ℕ → ℕ → Sched × Bool
unfolding find
set_affinity g id mask = if mask == 0 then (g, false) else elim (find g g.all id) [
  | none ↦ (g, false)
  | some t ↦ (put g t (record (g.thread t) { affinity = mask }), true)
]

unfoldable pub set_priority : Sched → ℕ → ℕ → Sched × Bool
unfolding find
set_priority g id prio = if ltb 1 prio then (g, false) else elim (find g g.all id) [
  | none ↦ (g, false)
  | some t ↦ (put g t (record (g.thread t) { prio = prio }), true)
]
