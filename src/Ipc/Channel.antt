-- ===== src/Ipc/Channel.antt =====
-- A channel of kernel/src/ipc.rs: two ends, each with a queue of messages, a closed flag and the
-- threads that wait on it. The lock makes each operation one step; the threads that an operation
-- unparks are part of its result.
pub mod Fifo
pub mod Wakeups
use nexo_os.Prelude.{
  ℕ, Bool, true, false, not, ◌&&◌, ◌||◌, List, [], ◌∷◌, ◌++◌, Option, none, some, Result, ok, err,
  length, leb, if◌then◌else◌,
}
use nexo_os.Ipc.Types.{Handle, Status, peer_closed, queue_full, would_block, denied}
use nexo_os.Ipc.Payload.{Payload}

pub record Message : Type 0 where
  pub payload : Payload
  pub handles : List Handle

abbrev pub channel_queue_max : ℕ
channel_queue_max = 64

-- `side` 0 and 1, and `1 - side`.
pub data Side : Type 0 where
  first second : Side

abbrev pub peer : Side → Side
peer first = second
peer second = first

-- The entry of each of the three arrays at one side. The front of the queue is the head of the list.
pub record Half : Type 0 where
  pub queue : List Message
  pub closed : Bool
  pub waiters : List ℕ

-- `ChannelInner`.
pub record Channel : Type 0 where
  pub half_first : Half
  pub half_second : Half

abbrev pub half : Channel → Side → Half
half c first = c.half_first
half c second = c.half_second

abbrev pub set_half : Channel → Side → Half → Channel
set_half c first h = record c { half_first = h }
set_half c second h = record c { half_second = h }

abbrev empty_half : Half
empty_half = record { queue = []; closed = false; waiters = [] }

-- The channel of `create_pair`.
unfoldable pub create : Channel
create = record { half_first = empty_half; half_second = empty_half }

-- The part of `close` under the lock: the queue of this end goes, and who waits at the peer wakes.
unfoldable pub close : Channel → Side → Channel × List ℕ
close c s =
    let c' = set_half c s (record (half c s) { closed = true; queue = [] }) in
    (set_half c' (peer s) (record (half c' (peer s)) { waiters = [] }), (half c' (peer s)).waiters)

-- The new channel and the threads to unpark.
unfoldable pub send : Channel → Side → Message → Result Status (Channel × List ℕ)
send c s m =
    let h = half c (peer s) in
    if h.closed
    then err peer_closed
    else if leb channel_queue_max (length h.queue)
    then err queue_full
    else ok
        (set_half c (peer s) (record h { queue = h.queue ++ (m ∷ []); waiters = [] }), h.waiters)

is_empty : List Message → Bool
is_empty [] = true
is_empty (m ∷ q) = false

unfoldable pub peer_readable : Channel → Side → Bool
unfolding is_empty
peer_readable c s = not (is_empty (half c (peer s)).queue)

unfoldable pub readable : Channel → Side → Bool
unfolding is_empty
readable c s = not (is_empty (half c s).queue) || (half c (peer s)).closed

unfoldable pub register_waiter : Channel → Side → ℕ → Channel
register_waiter c s t = set_half c s (record (half c s) { waiters = t ∷ (half c s).waiters })

-- `try_recv` on the queue of its end.
unfoldable pub take_front : Channel → Side → List Message → Channel × Result Status Message
take_front c s [] = (c, err (if (half c (peer s)).closed then peer_closed else would_block))
take_front c s (m ∷ q) = (set_half c s (record (half c s) { queue = q }), ok m)

unfoldable pub try_recv : Channel → Side → Channel × Result Status Message
unfolding take_front
try_recv c s = take_front c s (half c s).queue

-- What one turn of the loop of `recv` comes to.
pub data Turn : Type 0 where
  returns : Result Status Message → Turn
  parks : ℕ → Turn

unfoldable pub block : Channel → Side → Option ℕ → Channel × Turn
block c s none = (c, returns (err denied))
block c s (some me) = (register_waiter c s me, parks me)

unfoldable pub recv_front : Channel → Side → Option ℕ → List Message → Channel × Turn
unfolding block register_waiter
recv_front c s me (m ∷ q) = (set_half c s (record (half c s) { queue = q }), returns (ok m))
recv_front c s me [] =
    if (half c (peer s)).closed then (c, returns (err peer_closed)) else block c s me

-- One turn: `killed` is `killed_current()`, `me` the current thread if there is one.
unfoldable pub recv_turn : Channel → Side → Bool → Option ℕ → Channel × Turn
unfolding recv_front
recv_turn c s killed me =
    if killed then (c, returns (err peer_closed)) else recv_front c s me (half c s).queue
