-- ===== src/Timers.antt =====
-- Kernel timers: kernel/src/timer.rs.
--
-- The two locked lists and the counter of ids are one record, and the clock's reading is an argument
-- of each call. Deadlines, periods and ids are `u64` and wrap; a callback is known by its address.
-- The statistics, the programming of the next interrupt (`notify_deadline`) and the worker thread
-- that runs what was fired are left out.
pub mod Order
pub mod Ticks
mod Tests
use nexo_os.Prelude.{
  ℕ, ◌+◌, ◌-◌, ◌%◌, ◌^◌, max, Bool, true, false, not, ◌&&◌, ◌||◌, List, [], ◌∷◌, ◌++◌, Option, none,
  some, length, leb, ltb, ◌==◌, if◌then◌else◌,
}

pub record Pending : Type 0 where
  pub id : ℕ
  pub deadline_ns : ℕ
  pub period_ns : ℕ
  pub callback : ℕ
  pub arg : ℕ

pub record Fired : Type 0 where
  pub callback : ℕ
  pub arg : ℕ

pub record Timers : Type 0 where
  pub pending : List Pending
  pub fired : List Fired
  pub next_id : ℕ

abbrev pub add64 : ℕ → ℕ → ℕ
add64 a b = (a + b) % 2 ^ 64

-- Before the first timer whose deadline is later, so after those that are equal.
unfoldable pub insert : List Pending → Pending → List Pending
insert [] p = p ∷ []
insert (q ∷ qs) p = if ltb p.deadline_ns q.deadline_ns then p ∷ q ∷ qs else q ∷ insert qs p

-- The timer that `after_ns` and `periodic_ns` schedule.
abbrev pub arm : Timers → ℕ → ℕ → ℕ → ℕ → Timers × ℕ
arm t deadline period callback arg = (
  record t {
    pending = insert t.pending (record {
      id = t.next_id;
      deadline_ns = deadline;
      period_ns = period;
      callback = callback;
      arg = arg;
    });
    next_id = add64 t.next_id 1;
  },
  t.next_id,
)

unfoldable pub after_ns : Timers → ℕ → ℕ → ℕ → ℕ → Timers × ℕ
unfolding insert
after_ns t now after callback arg = arm t (add64 now after) 0 callback arg

unfoldable pub periodic_ns : Timers → ℕ → ℕ → ℕ → ℕ → Timers × ℕ
unfolding insert
periodic_ns t now period callback arg = arm t (add64 now (max period 1)) (max period 1) callback arg

-- `list.retain(|p| p.id != id)`.
unfoldable pub retain : ℕ → List Pending → List Pending
retain id [] = []
retain id (p ∷ ps) = let rest = retain id ps in if p.id == id then rest else p ∷ rest

unfoldable pub cancel : Timers → ℕ → Timers × Bool
unfolding retain
cancel t id =
    let kept = retain id t.pending in
    (record t { pending = kept }, not (length kept == length t.pending))

unfoldable pub next_deadline_after : List Pending → ℕ → Option ℕ
next_deadline_after [] now = none
next_deadline_after (p ∷ ps) now =
    if ltb now p.deadline_ns then some p.deadline_ns else next_deadline_after ps now

abbrev pub fire : Pending → Fired
fire p = record { callback = p.callback; arg = p.arg }

-- The next shot of a periodic timer.
abbrev pub renew : Pending → Pending
renew p = record p { deadline_ns = add64 p.deadline_ns p.period_ns }

-- The loop over the timers that are due: what is left, the shots, and the timers to queue again.
unfoldable pub expire :
    ℕ → List Pending → List Fired → List Pending → List Pending × List Fired × List Pending
expire now [] fired requeue = ([], fired, requeue)
expire now (p ∷ ps) fired requeue =
    let rest =
      expire now ps (fired ++ fire p ∷ [])
        (if p.period_ns == 0 then requeue else requeue ++ renew p ∷ []) in
    if ltb now p.deadline_ns then (p ∷ ps, fired, requeue) else rest

unfoldable pub insert_all : List Pending → List Pending → List Pending
unfolding insert
insert_all pending [] = pending
insert_all pending (p ∷ ps) = insert_all (insert pending p) ps

-- The early return on an empty or future head is the loop's first test.
unfoldable pub on_tick : Timers → ℕ → Timers
unfolding expire insert_all
on_tick t now =
    let (left, fired, requeue) = expire now t.pending t.fired [] in
    record t { pending = insert_all left requeue; fired = fired }
