-- ===== src/Ipc/Collector.antt =====
-- The collector of unreachable channel ends (`collect_marked` of kernel/src/ipc.rs).
pub mod Marking
pub mod Worlds
pub mod Laws
use nexo_os.Prelude.{
  ℕ, zero, suc, ◌+◌, Bool, true, false, not, ◌&&◌, ◌||◌, List, [], ◌∷◌, ◌++◌, Option, none, some,
  length, get_or, ◌==◌, if◌then◌else◌,
}
use nexo_os.Ipc.Types.{Handle, Object, channel}
use nexo_os.Ipc.Channel.{Message, half}
use nexo_os.Ipc.Handles.{Table}
use nexo_os.Ipc.Ends.{Ipc, End, end_at, channel_of, close_end}

-- `marked.contains(&p)`.
unfoldable pub contains : List ℕ → ℕ → Bool
contains [] x = false
contains (y ∷ ys) x = (y == x) || contains ys x

-- `marked` and `work`; the head of a list is the back of the vector.
pub record Marks : Type 0 where
  pub marked : List ℕ
  pub work : List ℕ

unfoldable pub root : Marks → ℕ → Marks
root m e = if contains m.marked e then m else record { marked = e ∷ m.marked; work = e ∷ m.work }

unfoldable pub root_all : Marks → List ℕ → Marks
root_all m [] = m
root_all m (e ∷ es) = root_all (root m e) es

-- The channel ends among the handles of a list, of the messages of a queue, of a table.
unfoldable pub channels_in : List Handle → List ℕ
channels_in [] = []
channels_in (h ∷ hs) = elim (h.object) [ channel e ↦ e ∷ channels_in hs | _ ↦ channels_in hs ]

unfoldable pub channels_queued : List Message → List ℕ
unfolding channels_in
channels_queued [] = []
channels_queued (m ∷ ms) = channels_in m.handles ++ channels_queued ms

unfoldable pub channels_held : Table → List ℕ
unfolding channels_in
channels_held [] = []
channels_held (none ∷ t) = channels_held t
channels_held (some h ∷ t) = channels_in (h ∷ []) ++ channels_held t

-- The ends carried by the messages that wait at end `e`.
unfoldable pub carried : Ipc → ℕ → List ℕ
unfolding channels_queued
carried i e = channels_queued (half (channel_of i e) (end_at i e).side).queue

-- What the collector sees under one lock: the store of ends and the tables of the live processes.
pub record World : Type 0 where
  pub ipc : Ipc
  pub live : List Table

-- The world at each of the collector's sections, one after the other; other threads run in between.
abbrev pub History : Type 0
History = ℕ → World

-- The ends that only the kernel holds, each read in a section of its own from `t` on.
unfoldable pub pinned_seen : History → ℕ → List ℕ → List ℕ
pinned_seen h t [] = []
pinned_seen h t (e ∷ es) =
    let rest = pinned_seen h (suc t) es in if (end_at (h t).ipc e).pinned then e ∷ rest else rest

-- The ends in the tables from `j` on, `n` of them, each under the lock of its table.
unfoldable pub channels_seen : History → ℕ → ℕ → ℕ → List ℕ
unfolding channels_held
channels_seen h t j zero = []
channels_seen h t j (suc n) =
    channels_held (get_or (h t).live j []) ++ channels_seen h (suc t) (suc j) n

-- `while let Some(e) = work.pop()`, on fuel, each round under the lock of its channel: `see t e` are
-- the ends that the queue of `e` carries at section `t`.
unfoldable pub mark_loop : (ℕ → ℕ → List ℕ) → ℕ → ℕ → Marks → Marks
mark_loop see t zero m = m
mark_loop see t (suc fuel) m = elim (m.work) [
  | [] ↦ m
  | e ∷ rest ↦ mark_loop see (suc t) fuel (root_all (record m { work = rest }) (see t e))
]

-- The sections at which the tables are read, the marking begins, and the counters are read.
abbrev pub tables_at : History → ℕ
tables_at h = suc (length (h 0).ipc.registry)

abbrev pub marks_at : History → ℕ
marks_at h = tables_at h + length (h (tables_at h)).live

abbrev pub checks_at : History → ℕ → ℕ
checks_at h fuel = marks_at h + fuel

abbrev pub roots : History → List ℕ
roots h =
    pinned_seen h 1 (h 0).ipc.registry
    ++ channels_seen h (tables_at h) 0 (length (h (tables_at h)).live)

unfoldable pub mark : History → ℕ → List ℕ
unfolding mark_loop pinned_seen channels_seen
mark h fuel =
    (mark_loop (λ t e. carried (h t).ipc e) (marks_at h) fuel
      (root_all (record { marked = []; work = [] }) (roots h))).marked

-- Closes what is not marked; the number counts the ends that were open.
unfoldable pub sweep : Ipc → List ℕ → List ℕ → Ipc × ℕ
sweep i marked [] = (i, 0)
sweep i marked (e ∷ es) =
    let closed = close_end i e in
    let (kept, n) = sweep (if contains marked e then i else closed.0) marked es in
    (kept, (if not (contains marked e) && closed.1 then suc n else n))

-- `collect_marked`, on fuel for the marking. Nobody runs between the closes of the sweep.
unfoldable pub collect_marked : History → ℕ → ℕ → Ipc × Option ℕ
unfolding mark sweep
collect_marked h fuel gen0 =
    let i = (h (checks_at h fuel)).ipc in
    let (swept, n) = sweep i (mark h fuel) (h 0).ipc.registry in
    elim ((h 0).ipc.registry) [
      | [] ↦ (i, some 0)
      | e ∷ es ↦
          if not (i.inflight == 0) || not (i.generation == gen0)
          then (i, none)
          else (record swept { collected = swept.collected + n }, some n)
    ]
