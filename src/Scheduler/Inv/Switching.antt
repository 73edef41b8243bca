-- ===== src/Scheduler/Inv/Switching.antt =====
-- The switch of kernel/src/sched.rs keeps every thread in its place.
use nexo_os.Prelude.{
  ℕ, ◌+◌, ◌<◌, ◌≡◌, ◌≢◌, refl, subst, ◌⊎◌, inl, inr, true, false, not, ◌&&◌, List, [], ◌∷◌, ◌++◌,
  some, none, arith, ◌==◌, Option-cases, length, get_or,
}
use nexo_os.Scheduler.{
  State, ready, sleeping, dying, dead, Thread, Sched, put, pick_next, position, allowed_on,
  normal_on,
}
use nexo_os.Scheduler.Quota.{update}
use nexo_os.Scheduler.Queues.{
  count, count-snoc, count-nil, one, count-remove, count-get_or, position-First,
}
use nexo_os.Scheduler.Switch.{take_next, switch_to, resume, queue_ready, queue_sleeping}
use nexo_os.Scheduler.Places.{
  View, view, IsPlaced, is_ready, is_running, is_sleeping, is_dead, is_dying,
}
use mathlib.Core.Path.{fun_ext}
use nexo_os.Scheduler.Places.Moves.{hand_over-IsPlaced, requeue-IsPlaced}
use nexo_os.Scheduler.Inv.{keep-IsPlaced}

-- What is picked is in the queue.
pub pick_next_inside :
    (g : Sched) (q : List ℕ) (c : ℕ) {i : ℕ} → pick_next g q c ≡ some i → i < length q
unfolding pick_next
pick_next_inside g q c {i} e = elim (Option-cases (position (normal_on g c) q 0)) [
  | inl n ↦
      let e' : position (allowed_on g c) q 0 ≡ some i = ground arith in
      let w = (position-First (allowed_on g c) q 0 0 e').1.inside in omega arith
  | inr (j, n) ↦
      let same : i ≡ j = ground arith in
      let w = (position-First (normal_on g c) q 0 0 n).1.inside in omega arith
]

-- What a switch can go to: `next`, with `rest` in the queue.
pub record IsNext (v : View) (c cur next : ℕ) (rest : List ℕ) : Type 0 where
  pub is_cur : next ≡ cur → (v.core_of cur).is_idle ≡ true
  pub ready_or_cur : (next ≡ cur) ⊎ (is_ready (v.core_of next).state ≡ true)
  pub home : (v.core_of next).is_idle ≡ true → v.idle_of c ≡ some next
  pub counts :
      (s : ℕ) → count s rest + one ((next == s) && not (v.core_of next).is_idle) ≡ count s v.queue

pub take_next-IsNext :
    (g : Sched) (c cur idle : ℕ)
    → IsPlaced (view g [])
    → g.running_on c ≡ some cur
    → g.idle_of c ≡ some idle
    → IsNext (view g []) c cur (take_next g c idle).0 (take_next g c idle).1
unfolding take_next
take_next-IsNext g c cur idle p r i = elim (Option-cases (pick_next g g.run_queue c)) [
  | inl e ↦
      rw (take_next, e)
        (record {
          is_cur = λ q. ground (arith, p.idle_home c idle);
          ready_or_cur = ground (arith, p.idle_home c idle);
          home = λ h. i;
          counts = λ s. ground (arith, p.idle_home c idle);
        })
  | inr (k, e) ↦
      let inside = pick_next_inside g g.run_queue c e in
      let t = get_or g.run_queue k idle in
      let there = count-get_or g.run_queue k idle inside in
      rw (take_next, e)
        (record {
          is_cur = λ q. ground (arith, p.queued t, p.on_cpu c cur);
          ready_or_cur = ground (arith, p.queued t);
          home = λ h. ground (arith, p.queued t);
          counts = λ s. ground (arith, p.queued t, count-remove s g.run_queue k idle inside);
        })
]

count-queue_ready :
    (s : ℕ) (th : Thread) (cur : ℕ) (st : State) (q : List ℕ)
    → count s (queue_ready th cur st q)
      ≡ count s q + one ((cur == s) && (is_ready st && not th.is_idle))
count-queue_ready s th cur ready q = ground (arith, count-snoc s q cur)
count-queue_ready s th cur st q = ground arith

count-queue_sleeping :
    (s cur : ℕ) (st : State) (q : List ℕ)
    → count s (queue_sleeping cur st q) ≡ count s q + one ((cur == s) && is_sleeping st)
count-queue_sleeping s cur sleeping q = ground (arith, count-snoc s q cur)
count-queue_sleeping s cur st q = ground arith

-- The CPU keeps its thread.
pub stay-IsPlaced :
    (g : Sched) (c cur : ℕ) (rest : List ℕ)
    → IsPlaced (view g [])
    → g.running_on c ≡ some cur
    → IsNext (view g []) c cur cur rest
    → IsPlaced (view (put (record g { run_queue = rest }) cur (resume (g.thread cur))) [])
stay-IsPlaced g c cur rest p r n =
    let idle = n.is_cur refl in
    keep-IsPlaced (view (record g { run_queue = rest }) []) g.thread cur (resume (g.thread cur))
      (ground (arith, p.on_cpu c cur r))
      (requeue-IsPlaced (view g []) rest p (λ s. ground (arith, n.counts s)))

-- The states on the way of a switch, and when a thread that was dying is marked dead.
module _ (g : Sched) (c cur next : ℕ) (rest : List ℕ) (agora : ℕ) where
  abbrev pub gone_to : State → Sched
  gone_to st = switch_to (record g { run_queue = rest }) c cur next st agora

  abbrev pub dead_now : Sched
  dead_now =
      put
        (record (gone_to dying) { prev_for_finish = update (gone_to dying).prev_for_finish c none })
        cur (record ((gone_to dying).thread cur) { state = dead; waiters = []; finished = true })

module _ (g : Sched) (c cur next : ℕ) (rest : List ℕ) (agora : ℕ) (p : IsPlaced (view g []))
    (r : g.running_on c ≡ some cur) (n : IsNext (view g []) c cur next rest) (ne : next ≢ cur) where
  -- The CPU goes to another thread, and the old one waits for its turn, for a time or for another.
  pub leave-IsPlaced :
      (st : State)
      → is_running st ≡ false
      → is_dying st ≡ false
      → is_dead st ≡ false
      → ((g.thread cur).is_idle ≡ true → is_ready st ≡ true)
      → IsPlaced (view (gone_to g c cur next rest agora st) [])
  unfolding switch_to
  leave-IsPlaced st sr sd sg si =
      subst (λ h. IsPlaced (record (view (gone_to g c cur next rest agora st) []) { core_of = h }))
        (fun_ext λ s. ground (arith, p.finished cur, p.on_cpu c cur r))
        (hand_over-IsPlaced (view g []) c cur next st (gone_to g c cur next rest agora st).run_queue
          (gone_to g c cur next rest agora st).sleepers (g.dead_list ++ []) p r ne
          (ground (arith, n.ready_or_cur)) n.home sr sd si
          (λ s. ground (arith, n.counts s, count-queue_ready s (g.thread cur) cur st rest))
          (λ s. ground (arith, count-queue_sleeping s cur st g.sleepers)) (λ s. ground arith))

  pub die-IsPlaced :
      (g.thread cur).is_idle ≡ false → IsPlaced (view (dead_now g c cur next rest agora) (cur ∷ []))
  unfolding switch_to
  die-IsPlaced si =
      subst
        (λ h.
          IsPlaced (record (view (dead_now g c cur next rest agora) (cur ∷ [])) { core_of = h }))
        (fun_ext λ s. ground arith)
        (hand_over-IsPlaced (view g []) c cur next dead rest g.sleepers (g.dead_list ++ cur ∷ []) p
          r ne (ground (arith, n.ready_or_cur)) n.home refl refl (λ h. ground arith)
          (λ s. ground (arith, n.counts s)) (λ s. ground arith)
          (λ s. ground (arith, count-snoc s g.dead_list cur, count-nil s g.dead_list)))
