-- ===== src/Scheduler/Inv.antt =====
-- What every step of kernel/src/sched.rs keeps: each thread stands in one place, the one that its
-- state names.
pub mod Switching
pub mod Schedule
pub mod Calls
pub mod Threads
pub mod Ticks
use nexo_os.Prelude.{
  ℕ, ◌+◌, ◌≤◌, ◌<◌, ◌≡◌, ◌≢◌, refl, subst, ◌⊎◌, inl, inr, Bool, true, false, not, ◌&&◌, List, [],
  ◌∷◌, ◌++◌, Option, some, none, arith, ◌==◌, if◌then◌else◌, Bool-cases, Option-cases,
}
use mathlib.Core.Path.{fun_ext}
use nexo_os.Scheduler.{
  State, ready, running, sleeping, blocked, dying, dead, Thread, Sched, put, empty,
}
use nexo_os.Scheduler.Quota.{Accounts, update}
use nexo_os.Scheduler.Queues.{count, count-snoc, one}
use nexo_os.Scheduler.Switch.{is_blocked, push_ready, wake_waiter, wake_waiters}
use nexo_os.Scheduler.Places.{
  Core, core, View, view, IsPlaced, is_ready, is_running, is_sleeping, is_dead, is_dying,
  wake-IsPlaced,
}

-- Between two steps no CPU is in the middle of a switch.
pub record IsValid (g : Sched) : Type 0 where
  pub placed : IsPlaced (view g [])
  pub settled : (c : ℕ) → g.prev_for_finish c ≡ none

module _ (v : View) (f : ℕ → Thread) (t : ℕ) (th : Thread) where
  core-update : (s : ℕ) → update (λ i. core (f i)) t (core th) s ≡ core (update f t th s)
  core-update s = ground arith

  -- A write to the store is a write of what it says on where the thread stands.
  pub update-IsPlaced :
      IsPlaced (record v { core_of = update (λ s. core (f s)) t (core th) })
      → IsPlaced (record v { core_of = λ s. core (update f t th s) })
  update-IsPlaced p = subst (λ h. IsPlaced (record v { core_of = h })) (fun_ext core-update) p

  same_core : core th ≡ core (f t) → (s : ℕ) → core (f s) ≡ core (update f t th s)
  same_core e s = ground arith

  -- Nothing moves if the write says nothing new on that.
  pub keep-IsPlaced :
      core th ≡ core (f t)
      → IsPlaced (record v { core_of = λ s. core (f s) })
      → IsPlaced (record v { core_of = λ s. core (update f t th s) })
  keep-IsPlaced e p = subst (λ h. IsPlaced (record v { core_of = h })) (fun_ext (same_core e)) p

pub push_ready-IsPlaced :
    (g : Sched) (t : ℕ) (leaving : List ℕ)
    → IsPlaced (view g leaving)
    → is_blocked (g.thread t).state ≡ true
    → IsPlaced (view (push_ready g t) leaving)
push_ready-IsPlaced g t leaving p b =
    update-IsPlaced (view (record g { run_queue = g.run_queue ++ t ∷ [] }) leaving) g.thread t
      (record (g.thread t) { state = ready }) (wake-IsPlaced (view g leaving) t p b)

wake_waiter-IsPlaced :
    (g : Sched) (w : ℕ) (leaving : List ℕ)
    → IsPlaced (view g leaving)
    → IsPlaced (view (wake_waiter g w) leaving)
unfolding wake_waiter
wake_waiter-IsPlaced g w leaving p = elim (Bool-cases (is_blocked (g.thread w).state)) [
  | inl b ↦ rw b (push_ready-IsPlaced g w leaving p b)
  | inr b ↦ rw b p
]

pub wake_waiters-IsPlaced :
    (g : Sched) (ws leaving : List ℕ)
    → IsPlaced (view g leaving)
    → IsPlaced (view (wake_waiters g ws) leaving)
unfolding wake_waiters
wake_waiters-IsPlaced g [] leaving p = p
wake_waiters-IsPlaced g (w ∷ ws) leaving p =
    wake_waiters-IsPlaced (wake_waiter g w) ws leaving (wake_waiter-IsPlaced g w leaving p)

pub empty-IsValid : (a : Accounts) → IsValid (empty a)
empty-IsValid a = record {
  placed = record {
    queued = λ t. unfold count in refl;
    asleep = λ t. unfold count in refl;
    gone = λ t. unfold count in refl;
    alive = λ t. refl;
    listed = λ t. unfold count in omega arith;
    listed_once = λ t. unfold count in omega arith;
    idle_state = λ t e. ground arith;
    finished = λ t. refl;
    on_cpu = λ c t e. ground arith;
    has_cpu = λ t e. ground arith;
    idle_cur = λ c t e i. ground arith;
    idle_home = λ c t e. ground arith;
    idle_one = λ c d t e h. ground arith;
    idle_some = λ c t e. ground arith;
    fresh = λ t e. unfold count in (refl, refl);
  };
  settled = λ c. refl;
}
