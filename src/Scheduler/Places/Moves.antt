-- ===== src/Scheduler/Places/Moves.antt =====
-- The moves of threads that keep every thread in its place.
use nexo_os.Prelude.{
  ℕ, ◌+◌, ◌≡◌, ◌≢◌, Bool, true, false, not, ◌&&◌, List, [], ◌∷◌, ◌++◌, some, none, arith, ◌==◌,
}
use nexo_os.Scheduler.{State, ready, running}
use nexo_os.Scheduler.Quota.{update}
use nexo_os.Scheduler.Queues.{count, count-snoc, count-append, one}
use nexo_os.Scheduler.Places.{
  Core, View, IsPlaced, is_ready, is_running, is_sleeping, is_dead, is_dying, set_state,
}

-- A sleeper becomes ready.
pub rouse-IsPlaced :
    (v : View) (t : ℕ) (rest : List ℕ)
    → IsPlaced v
    → ((s : ℕ) → count s rest + one (t == s) ≡ count s v.sleepers)
    → IsPlaced
        (record v { core_of = set_state v t ready; queue = v.queue ++ t ∷ []; sleepers = rest })
rouse-IsPlaced v t rest p k =
    let was : is_sleeping (v.core_of t).state ≡ true = ground (arith, k t, p.asleep t) in
    record {
      queued = λ s. ground (arith, p.queued s, p.idle_state t, count-snoc s v.queue t);
      asleep = λ s. ground (arith, p.asleep s, k s);
      gone = λ s. ground (arith, p.gone s);
      alive = λ s. ground (arith, p.alive s);
      listed = λ s. ground (arith, p.listed s);
      listed_once = p.listed_once;
      idle_state = λ s i. ground (arith, p.idle_state s);
      finished = λ s. ground (arith, p.finished s);
      on_cpu = λ c s e. ground (arith, p.on_cpu c s);
      has_cpu = λ s e. ground (arith, p.has_cpu s);
      idle_cur = λ c s e i. ground (arith, p.idle_cur c s);
      idle_home = λ c s e. ground (arith, p.idle_home c s, p.idle_state t);
      idle_one = p.idle_one;
      idle_some = p.idle_some;
      fresh = λ s e. ground (arith, p.fresh s);
    }

-- The CPU `c` goes from `cur`, which takes the state `st`, to the ready thread `next`.
abbrev pub hand_over : View → ℕ → ℕ → ℕ → State → Bool → ℕ → Core
hand_over v c cur next st finished =
    let left = update v.core_of cur (record (v.core_of cur) { state = st; finished = finished }) in
    update left next (record (left next) { state = running; last_cpu = c })

pub hand_over-IsPlaced :
    (v : View) (c cur next : ℕ) (st : State) (queue sleepers buried : List ℕ)
    → IsPlaced v
    → v.running_on c ≡ some cur
    → next ≢ cur
    → is_ready (v.core_of next).state ≡ true
    → ((v.core_of next).is_idle ≡ true → v.idle_of c ≡ some next)
    → is_running st ≡ false
    → is_dying st ≡ false
    → ((v.core_of cur).is_idle ≡ true → is_ready st ≡ true)
    → ((s : ℕ)
        → count s queue + one ((next == s) && not (v.core_of next).is_idle)
          ≡ count s v.queue + one ((cur == s) && (is_ready st && not (v.core_of cur).is_idle)))
    → ((s : ℕ) → count s sleepers ≡ count s v.sleepers + one ((cur == s) && is_sleeping st))
    → ((s : ℕ) → count s buried ≡ count s v.buried + one ((cur == s) && is_dead st))
    → IsPlaced (record v {
      core_of = hand_over v c cur next st (is_dead st);
      queue = queue;
      sleepers = sleepers;
      buried = buried;
      running_on = update v.running_on c (some next);
    })
hand_over-IsPlaced v c cur next st queue sleepers buried p r ne n home sr sd si kq ks kb =
    let on = p.on_cpu c cur r in
    record {
      queued = λ s. ground (arith, p.queued s, kq s);
      asleep = λ s. ground (arith, p.asleep s, ks s);
      gone = λ s. ground (arith, p.gone s, kb s, p.listed s, p.listed_once s);
      alive = λ s. ground (arith, p.alive s);
      listed = λ s. ground (arith, p.listed s);
      listed_once = p.listed_once;
      idle_state = λ s i. ground (arith, p.idle_state s);
      finished = λ s. ground (arith, p.finished s);
      on_cpu = λ d s e. ground (arith, p.on_cpu d s);
      has_cpu = λ s e. ground (arith, p.has_cpu s);
      idle_cur = λ d s e i. ground (arith, p.idle_cur d s);
      idle_home = λ d s e. ground (arith, p.idle_home d s, p.idle_one c d s, p.idle_cur c cur);
      idle_one = p.idle_one;
      idle_some = λ d s e. ground (arith, p.idle_some c cur, p.idle_some d s);
      fresh = λ s e. ground (arith, p.fresh s);
    }

-- Only how often each thread is queued matters.
pub requeue-IsPlaced :
    (v : View) (queue : List ℕ)
    → IsPlaced v
    → ((s : ℕ) → count s queue ≡ count s v.queue)
    → IsPlaced (record v { queue = queue })
requeue-IsPlaced v queue p k = record {
  queued = λ s. omega (arith, p.queued s, k s);
  asleep = p.asleep;
  gone = p.gone;
  alive = p.alive;
  listed = p.listed;
  listed_once = p.listed_once;
  idle_state = p.idle_state;
  finished = p.finished;
  on_cpu = p.on_cpu;
  has_cpu = p.has_cpu;
  idle_cur = p.idle_cur;
  idle_home = p.idle_home;
  idle_one = p.idle_one;
  idle_some = p.idle_some;
  fresh = p.fresh;
}

-- A thread that no one has is put into the queue.
pub spawn-IsPlaced :
    (v : View) (x : Core)
    → IsPlaced v
    → x.state ≡ ready
    → x.is_idle ≡ false
    → x.finished ≡ false
    → IsPlaced (record v {
      core_of = update v.core_of v.next_id x;
      next_id = v.next_id + 1;
      all = v.all ++ v.next_id ∷ [];
      queue = v.queue ++ v.next_id ∷ [];
    })
spawn-IsPlaced v x p st i f =
    let new = p.fresh v.next_id (omega arith) in
    record {
      queued = λ s. ground (arith, p.queued s, count-snoc s v.queue v.next_id);
      asleep = λ s. ground (arith, p.asleep s);
      gone = λ s. ground (arith, p.gone s, count-snoc s v.all v.next_id);
      alive = λ s. ground (arith, p.alive s);
      listed = λ s. ground (arith, p.listed s, count-snoc s v.all v.next_id);
      listed_once = λ s. ground (arith, p.listed_once s, count-snoc s v.all v.next_id);
      idle_state = λ s i. ground (arith, p.idle_state s);
      finished = λ s. ground (arith, p.finished s);
      on_cpu = λ d s e. ground (arith, p.on_cpu d s);
      has_cpu = λ s e. ground (arith, p.has_cpu s);
      idle_cur = λ d s e i. ground (arith, p.idle_cur d s, p.on_cpu d s);
      idle_home = λ d s e. ground (arith, p.idle_home d s, p.idle_state s);
      idle_one = p.idle_one;
      idle_some = p.idle_some;
      fresh = λ s e. ground (arith, p.fresh s, count-snoc s v.all v.next_id);
    }

count-pair :
    (s : ℕ) (xs : List ℕ) (a b : ℕ)
    → count s (xs ++ a ∷ b ∷ []) ≡ count s xs + one (a == s) + one (b == s)
unfolding count
count-pair s xs a b = omega (arith, count-append s xs (a ∷ b ∷ []))

-- The threads that a CPU starts with: an idle one, alone or beside another that runs.
pub start_idle-IsPlaced :
    (v : View) (c : ℕ) (x : Core)
    → IsPlaced v
    → v.idle_of c ≡ none
    → v.running_on c ≡ none
    → x.state ≡ running
    → x.is_idle ≡ true
    → x.finished ≡ false
    → x.last_cpu ≡ c
    → IsPlaced (record v {
      core_of = update v.core_of v.next_id x;
      next_id = v.next_id + 1;
      all = v.all ++ v.next_id ∷ [];
      running_on = update v.running_on c (some v.next_id);
      idle_of = update v.idle_of c (some v.next_id);
    })
start_idle-IsPlaced v c x p free off st i f l =
    let new = p.fresh v.next_id (omega arith) in
    record {
      queued = λ s. ground (arith, p.queued s);
      asleep = λ s. ground (arith, p.asleep s);
      gone = λ s. ground (arith, p.gone s, count-snoc s v.all v.next_id);
      alive = λ s. ground (arith, p.alive s);
      listed = λ s. ground (arith, p.listed s, count-snoc s v.all v.next_id);
      listed_once = λ s. ground (arith, p.listed_once s, count-snoc s v.all v.next_id);
      idle_state = λ s i. ground (arith, p.idle_state s);
      finished = λ s. ground (arith, p.finished s);
      on_cpu = λ d s e. ground (arith, p.on_cpu d s);
      has_cpu = λ s e. ground (arith, p.has_cpu s);
      idle_cur = λ d s e i. ground (arith, p.idle_cur d s, p.on_cpu d s);
      idle_home = λ d s e. ground (arith, p.idle_home d s, p.idle_state s);
      idle_one = λ d e s h k.
          ground (arith, p.idle_one d e s, p.idle_home d s, p.idle_home e s, p.idle_state s);
      idle_some = λ d s e. ground (arith, p.idle_some d s);
      fresh = λ s e. ground (arith, p.fresh s, count-snoc s v.all v.next_id);
    }

pub start_main-IsPlaced :
    (v : View) (c : ℕ) (x y : Core)
    → IsPlaced v
    → v.idle_of c ≡ none
    → v.running_on c ≡ none
    → x.state ≡ running
    → x.is_idle ≡ false
    → x.finished ≡ false
    → x.last_cpu ≡ c
    → y.state ≡ ready
    → y.is_idle ≡ true
    → y.finished ≡ false
    → IsPlaced (record v {
      core_of = update (update v.core_of v.next_id x) (v.next_id + 1) y;
      next_id = v.next_id + 2;
      all = v.all ++ v.next_id ∷ (v.next_id + 1) ∷ [];
      running_on = update v.running_on c (some v.next_id);
      idle_of = update v.idle_of c (some (v.next_id + 1));
    })
start_main-IsPlaced v c x y p free off xs xi xf xl ys yi yf =
    let new = p.fresh v.next_id (omega arith) in
    let new' = p.fresh (v.next_id + 1) (omega arith) in
    record {
      queued = λ s. ground (arith, p.queued s);
      asleep = λ s. ground (arith, p.asleep s);
      gone = λ s. ground (arith, p.gone s, count-pair s v.all v.next_id (v.next_id + 1));
      alive = λ s. ground (arith, p.alive s);
      listed = λ s. ground (arith, p.listed s, count-pair s v.all v.next_id (v.next_id + 1));
      listed_once =
          λ s. ground (arith, p.listed_once s, count-pair s v.all v.next_id (v.next_id + 1));
      idle_state = λ s i. ground (arith, p.idle_state s);
      finished = λ s. ground (arith, p.finished s);
      on_cpu = λ d s e. ground (arith, p.on_cpu d s);
      has_cpu = λ s e. ground (arith, p.has_cpu s);
      idle_cur = λ d s e i. ground (arith, p.idle_cur d s, p.on_cpu d s);
      idle_home = λ d s e. ground (arith, p.idle_home d s, p.idle_state s);
      idle_one = λ d e s h k.
          ground (arith, p.idle_one d e s, p.idle_home d s, p.idle_home e s, p.idle_state s);
      idle_some = λ d s e. ground (arith, p.idle_some d s);
      fresh = λ s e. ground (arith, p.fresh s, count-pair s v.all v.next_id (v.next_id + 1));
    }

-- The dead leave the list of all threads.
pub reap-IsPlaced :
    (v : View) (all : List ℕ)
    → IsPlaced v
    → ((s : ℕ) → count s all + count s v.buried ≡ count s v.all)
    → IsPlaced (record v { buried = []; all = all })
reap-IsPlaced v all p k = record {
  queued = p.queued;
  asleep = p.asleep;
  gone = λ s. unfold count in ground (arith, p.gone s, k s);
  alive = p.alive;
  listed = λ s. ground (arith, p.listed s, p.gone s, k s);
  listed_once = λ s. ground (arith, p.listed_once s, k s);
  idle_state = p.idle_state;
  finished = p.finished;
  on_cpu = p.on_cpu;
  has_cpu = p.has_cpu;
  idle_cur = p.idle_cur;
  idle_home = p.idle_home;
  idle_one = p.idle_one;
  idle_some = p.idle_some;
  fresh = λ s e. ground (arith, p.fresh s, k s);
}
