-- ===== src/Vectors.antt =====
-- The interrupt vectors of user drivers: kernel/src/irq.rs.
--
-- The four statics are one record, and the channels that a vector notifies are ends of the store of
-- Ipc.Ends. Counters are `u64` and wrap. An interrupt is three steps, between which other threads run.
pub mod Pool
pub mod Delivery
mod Tests
use nexo_os.Prelude.{
  ℕ, zero, suc, ◌+◌, ◌-◌, ◌%◌, ◌^◌, Bool, true, false, not, ◌&&◌, List, [], ◌∷◌, ◌++◌, Option, none,
  some, Result, ok, err, get_or, set, leb, ltb, ◌==◌, if◌then◌else◌,
}
use nexo_os.Ipc.Types.{Status, peer_closed}
use nexo_os.Ipc.Payload.{from_slice}
use nexo_os.Ipc.Channel.{Channel, Message, Side, send, peer_readable}
use nexo_os.Ipc.Ends.{Ipc, end_at, channel_of}

abbrev pub user_vector_base : ℕ
user_vector_base = 0x50

abbrev pub user_vectors : ℕ
user_vectors = 32

pub record Vectors : Type 0 where
  pub counts : List ℕ
  pub allocated : List Bool
  pub waiters : List (ℕ × ℕ)
  pub channels : List (ℕ × ℕ)

unfoldable pub is_user_vector : ℕ → Bool
is_user_vector v = leb user_vector_base v && ltb v (user_vector_base + user_vectors)

abbrev pub threads_of : ℕ → List (ℕ × ℕ) → List ℕ
threads_of v [] = []
threads_of v ((u, t) ∷ ws) = let rest = threads_of v ws in if u == v then t ∷ rest else rest

abbrev pub waiting_elsewhere : ℕ → List (ℕ × ℕ) → List (ℕ × ℕ)
waiting_elsewhere v [] = []
waiting_elsewhere v ((u, t) ∷ ws) =
    let rest = waiting_elsewhere v ws in if u == v then rest else (u, t) ∷ rest

-- `on_interrupt_wake_only`: the threads to unpark.
unfoldable pub wake : Vectors → ℕ → Vectors × List ℕ
wake s v = (record s { waiters = waiting_elsewhere v s.waiters }, threads_of v s.waiters)

unfoldable pub free : Vectors → ℕ → Vectors × List ℕ
unfolding is_user_vector wake
free s v =
    if not (is_user_vector v)
    then (s, [])
    else wake (record s { allocated = set s.allocated (v - user_vector_base) false }) v

-- `a.iter().position(|used| !*used)`.
unfoldable pub first_unused : List Bool → Option ℕ
first_unused [] = none
first_unused (used ∷ us) =
    if not used then some 0 else elim (first_unused us) [ none ↦ none | some i ↦ some (suc i) ]

unfoldable pub alloc : Vectors → Vectors × Option ℕ
unfolding first_unused
alloc s = elim (first_unused s.allocated) [
  | none ↦ (s, none)
  | some i ↦ (record s { allocated = set s.allocated i true }, some (user_vector_base + i))
]

abbrev pub notice : Message
unfolding from_slice
notice = record { payload = from_slice (1 ∷ []); handles = [] }

-- What a send to an attached end comes to: the store, whether the end stays attached, and the
-- threads to unpark.
abbrev pub sent : Ipc → ℕ → Result Status (Channel × List ℕ) → Ipc × Bool × List ℕ
sent i e (ok (c, woken)) =
    (record i { channels = set i.channels (end_at i e).inner c }, true, woken)
sent i e (err peer_closed) = (i, false, [])
sent i e (err other) = (i, true, [])

-- One attached end of the vector: a notice that still waits is not doubled.
unfoldable pub notify : Ipc → ℕ → Ipc × Bool × List ℕ
notify i e =
    if peer_readable (channel_of i e) (end_at i e).side
    then (i, true, [])
    else sent i e (send (channel_of i e) (end_at i e).side notice)

-- The attached ends, in their order.
unfoldable pub notify_all : Ipc → ℕ → List (ℕ × ℕ) → Ipc × List (ℕ × ℕ) × List ℕ
unfolding notify
notify_all i v [] = (i, [], [])
notify_all i v ((u, e) ∷ ends) =
    let (i', stays, woken) = notify i e in
    let (k, rest, later) = notify_all (if u == v then i' else i) v ends in
    if u == v
    then (k, (if stays then (u, e) ∷ rest else rest), woken ++ later)
    else (k, (u, e) ∷ rest, later)

-- The atomic addition of `on_interrupt`.
unfoldable pub shoot : Vectors → ℕ → Vectors
shoot s v =
    let n = v - user_vector_base in
    record s { counts = set s.counts n ((get_or s.counts n 0 + 1) % 2 ^ 64) }

-- Its section under the lock of the channels.
unfoldable pub tell : Vectors → Ipc → ℕ → Vectors × Ipc × List ℕ
unfolding notify_all
tell s i v =
    let (i', kept, woken) = notify_all i v s.channels in (record s { channels = kept }, i', woken)

unfoldable pub attach_channel : Vectors → ℕ → ℕ → Vectors
attach_channel s v e = record s { channels = s.channels ++ (v, e) ∷ [] }

abbrev pub count : Vectors → ℕ → ℕ
count s v = get_or s.counts (v - user_vector_base) 0

-- One turn of the loop of `wait`, for the current thread if there is one: the count to return, or
-- none if the thread parks.
unfoldable pub wait_turn : Vectors → ℕ → ℕ → Option ℕ → Vectors × Option ℕ
wait_turn s v seen none = (s, some (count s v))
wait_turn s v seen (some me) =
    if ltb seen (count s v)
    then (s, some (count s v))
    else (record s { waiters = s.waiters ++ (v, me) ∷ [] }, none)

-- The steps that threads and interrupts take, each under one lock or atomic: a turn of `wait` (the
-- vector, the count seen, the thread), the three steps of an interrupt, and the calls on the pool.
pub data Act : Type 0 where
  turns : ℕ → ℕ → ℕ → Act
  shoots tells wakes frees : ℕ → Act
  attaches : ℕ → ℕ → Act
  allocs : Act

-- The order of the three steps; other threads run between them.
unfoldable pub on_interrupt : ℕ → List Act
on_interrupt v = shoots v ∷ tells v ∷ wakes v ∷ []

-- The state after a step, and the threads that it unparks.
unfoldable pub act : Vectors → Ipc → Act → Vectors × Ipc × List ℕ
unfolding shoot tell wake free alloc attach_channel wait_turn
act s i (turns v seen me) = ((wait_turn s v seen (some me)).0, i, [])
act s i (shoots v) = (shoot s v, i, [])
act s i (tells v) = tell s i v
act s i (wakes v) = ((wake s v).0, i, (wake s v).1)
act s i (frees v) = ((free s v).0, i, (free s v).1)
act s i (attaches v e) = (attach_channel s v e, i, [])
act s i allocs = ((alloc s).0, i, [])

unfoldable pub run : Vectors → Ipc → List Act → Vectors × Ipc × List ℕ
unfolding act
run s i [] = (s, i, [])
run s i (a ∷ rest) =
    let (s', i', woken) = act s i a in
    let (s'', i'', later) = run s' i' rest in (s'', i'', woken ++ later)
