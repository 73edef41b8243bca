-- ===== src/Scheduler/Inv/Calls.antt =====
-- Each operation of kernel/src/sched.rs keeps every thread in its place and does not panic.
use mathlib.Core.Path.{fun_ext}
use nexo_os.Prelude.{
  ℕ, ◌+◌, ◌≡◌, refl, sym, subst, ◌⊎◌, inl, inr, true, false, [], Option, some, none, arith, ltb,
  ◌==◌, if◌then◌else◌, Bool-cases, Option-cases,
}
use nexo_os.Scheduler.{
  State, ready, running, Thread, Sched, put, find, u64_max, new_thread, set_current,
}
use nexo_os.Scheduler.Queues.{count, count-without_all-add, count-nil}
use nexo_os.Scheduler.Switch.{is_blocked, schedule}
use nexo_os.Scheduler.Calls.{
  begin, ap_idle_loop, inherited_prio, spawn_on, unpark, reap, without_all, set_affinity,
  set_priority,
}
use nexo_os.Scheduler.Places.{core, view, IsPlaced, is_ready, is_running, is_dead}
use nexo_os.Scheduler.Places.Moves.{
  spawn-IsPlaced, start_idle-IsPlaced, start_main-IsPlaced, reap-IsPlaced,
}
use nexo_os.Scheduler.Inv.{IsValid, update-IsPlaced, keep-IsPlaced, push_ready-IsPlaced}
use nexo_os.Scheduler.Inv.Schedule.{schedule-IsValid}

-- The operation does not panic, and what it leaves is valid.
abbrev pub Safe : Option Sched → Type 0
Safe none = ⊥
Safe (some g) = IsValid g

-- The scheduler at any thread that may give up the CPU.
pub schedule-Safe :
    (g : Sched) (c cur : ℕ) (st : State) (agora : ℕ)
    → IsValid g
    → g.running_on c ≡ some cur
    → is_running st ≡ false
    → is_dead st ≡ false
    → ((g.thread cur).is_idle ≡ true → is_ready st ≡ true)
    → Safe (schedule g c st agora)
schedule-Safe g c cur st agora v r sr sd si =
    let (g', e, w) = schedule-IsValid g c cur st agora v r sr sd si in subst Safe (sym e) w

pub put-IsValid :
    (g : Sched) (t : ℕ) (th : Thread)
    → IsValid g
    → core th ≡ core (g.thread t)
    → IsValid (put g t th)
put-IsValid g t th v e = record {
  placed = keep-IsPlaced (view g []) g.thread t th e v.placed;
  settled = v.settled;
}

module _ (g : Sched) (v : IsValid g) where
  pub spawn_on-IsValid : (c mask : ℕ) (process : Option ℕ) → IsValid (spawn_on g c mask process).0
  unfolding spawn_on
  spawn_on-IsValid c mask process = record {
    placed =
        let th =
          new_thread g.next_id false ready (if mask == 0 then u64_max else mask)
            (inherited_prio g c) process in
        update-IsPlaced (view (spawn_on g c mask process).0 []) g.thread g.next_id th
          (spawn-IsPlaced (view g []) (core th) v.placed refl refl refl);
    settled = v.settled;
  }

  module _ (c : ℕ) (off : g.running_on c ≡ none) (free : g.idle_of c ≡ none) where
    pub ap_idle_loop-IsValid : IsValid (ap_idle_loop g c)
    unfolding ap_idle_loop
    ap_idle_loop-IsValid = record {
      placed =
          let th = set_current c (new_thread g.next_id true running u64_max 0 none) in
          update-IsPlaced (view (ap_idle_loop g c) []) g.thread g.next_id th
            (start_idle-IsPlaced (view g []) c (core th) v.placed free off refl refl refl refl);
      settled = v.settled;
    }

    pub begin-IsValid : IsValid (begin g c)
    unfolding begin
    begin-IsValid = record {
      placed =
          let main = set_current c (new_thread g.next_id false running 1 0 none) in
          let idle = new_thread (g.next_id + 1) true ready u64_max 0 none in
          subst (λ h. IsPlaced (record (view (begin g c) []) { core_of = h }))
            (fun_ext λ s. ground arith)
            (start_main-IsPlaced (view g []) c (core main) (core idle) v.placed free off refl refl
              refl refl refl refl refl);
      settled = v.settled;
    }

  pub unpark-IsValid : (id : ℕ) → IsValid (unpark g id)
  unfolding unpark
  unpark-IsValid id = elim (Option-cases (find g g.all id)) [
    | inl e ↦ rw (unpark, e) v
    | inr (t, e) ↦ elim (Bool-cases (is_blocked (g.thread t).state)) [
      | inl b ↦
          rw (unpark, e, b)
            (record { placed = push_ready-IsPlaced g t [] v.placed b; settled = v.settled })
      | inr b ↦ rw (unpark, e, b) v
    ]
  ]

  pub reap-IsValid : IsValid (reap g).0
  unfolding reap
  reap-IsValid = record {
    placed = reap-IsPlaced (view g []) (without_all g.dead_list g.all) v.placed λ s.
        let same = count-nil s g.dead_list in
        let h : (count s g.dead_list ≡ 0) ⊎ (count s g.dead_list ≡ count s g.all) =
          ground (arith, v.placed.gone s) in
        omega (arith, same, count-without_all-add s g.dead_list g.all h);
    settled = v.settled;
  }

  pub set_affinity-IsValid : (id mask : ℕ) → IsValid (set_affinity g id mask).0
  unfolding set_affinity
  set_affinity-IsValid id mask = elim (Option-cases (find g g.all id)) [
    | inl e ↦ elim (Bool-cases (mask == 0)) [
      | inl z ↦ rw (set_affinity, z) v
      | inr z ↦ rw (set_affinity, z, e) v
    ]
    | inr (t, e) ↦ elim (Bool-cases (mask == 0)) [
      | inl z ↦ rw (set_affinity, z) v
      | inr z ↦ rw (set_affinity, z, e) (put-IsValid g t _ v refl)
    ]
  ]

  pub set_priority-IsValid : (id prio : ℕ) → IsValid (set_priority g id prio).0
  unfolding set_priority
  set_priority-IsValid id prio = elim (Option-cases (find g g.all id)) [
    | inl e ↦ elim (Bool-cases (ltb 1 prio)) [
      | inl z ↦ rw (set_priority, z) v
      | inr z ↦ rw (set_priority, z, e) v
    ]
    | inr (t, e) ↦ elim (Bool-cases (ltb 1 prio)) [
      | inl z ↦ rw (set_priority, z) v
      | inr z ↦ rw (set_priority, z, e) (put-IsValid g t _ v refl)
    ]
  ]
