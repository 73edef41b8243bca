-- ===== src/Ipc/Event.antt =====
-- `Event` of kernel/src/ipc.rs: a binary signal, with a manual and an automatic mode. The lock
-- makes each operation one step.
pub mod Laws
use nexo_os.Prelude.{ℕ, Bool, true, false, not, List, [], ◌∷◌, Option, none, some, if◌then◌else◌}

pub record Event : Type 0 where
  pub sinalizado : Bool
  pub waiters : List ℕ
  pub auto : Bool

unfoldable pub new : Bool → Event
new auto = record { sinalizado = false; waiters = []; auto = auto }

-- `waiters.pop()`: the last one pushed, and the rest. The head of the list is the back of the vector.
unfoldable pub pop_waiter : List ℕ → List ℕ × List ℕ
pop_waiter [] = ([], [])
pop_waiter (t ∷ ts) = (t ∷ [], ts)

-- The new state, and the threads to unpark: one in the automatic mode, all in the manual one.
unfoldable pub sinalizar : Event → Event × List ℕ
unfolding pop_waiter
sinalizar e =
    let (woken, rest) = pop_waiter e.waiters in
    if e.auto
    then (record e { sinalizado = true; waiters = rest }, woken)
    else (record e { sinalizado = true; waiters = [] }, e.waiters)

unfoldable pub resetar : Event → Event
resetar e = record e { sinalizado = false }

-- Whether the event lets the thread pass; the automatic mode consumes the signal.
unfoldable pub tomar : Event → Event × Bool
tomar e =
    if not e.sinalizado
    then (e, false)
    else (if e.auto then record e { sinalizado = false } else e, true)

unfoldable pub register_waiter : Event → ℕ → Event
register_waiter e t = record e { waiters = t ∷ e.waiters }
