-- ===== src/Ipc/Channel/Fifo.antt =====
-- The channel of kernel/src/ipc.rs as a pair of bounded queues: order, loss and bounds.
use nexo_os.Prelude.{
  ℕ, ◌≤◌, ◌≡◌, ap, sym, ◌∙◌, Bool, true, false, List, [], ◌∷◌, ◌++◌, Option, Result, ok, err, arith,
  length, length-append, if◌then◌else◌, All, All,
}
use mathlib.Core.List.{append-nil, append_assoc}
use nexo_os.Ipc.Types.{Status}
use nexo_os.Ipc.Channel.{
  Channel, Side, first, second, peer, Message, half, channel_queue_max, create, close, send,
  try_recv, Turn, returns, parks, recv_turn, register_waiter,
}

-- A call on one end of the channel.
pub data Op : Type 0 where
  sends : Side → Message → Op
  tries : Side → Op
  turns : Side → Bool → Option ℕ → Op
  closes : Side → Op
  waits : Side → ℕ → Op

-- What a call did to the traffic towards one side: a message put in, a message taken out, or none.
pub data Effect : Type 0 where
  put : Side → Message → Effect
  got : Side → Message → Effect
  quiet : Effect

unfoldable pub sent : Channel → Side → Message → Result Status (Channel × List ℕ) → Channel × Effect
sent c s m (ok (c', woken)) = (c', put (peer s) m)
sent c s m (err e) = (c, quiet)

unfoldable pub received : Side → Channel × Result Status Message → Channel × Effect
received s (c, ok m) = (c, got s m)
received s (c, err e) = (c, quiet)

unfoldable pub turned : Side → Channel × Turn → Channel × Effect
turned s (c, returns (ok m)) = (c, got s m)
turned s (c, returns (err e)) = (c, quiet)
turned s (c, parks t) = (c, quiet)

unfoldable pub step : Channel → Op → Channel × Effect
unfolding sent received turned
step c (sends s m) = sent c s m (send c s m)
step c (tries s) = received s (try_recv c s)
step c (turns s killed me) = turned s (recv_turn c s killed me)
step c (closes s) = ((close c s).0, quiet)
step c (waits s t) = (register_waiter c s t, quiet)

abbrev same_side : Side → Side → Bool
same_side first first = true
same_side second second = true
same_side first second = false
same_side second first = false

-- The messages put towards side `s`, and those taken out there, in order.
abbrev pub puts : Side → Effect → List Message
puts s (put t m) = if same_side s t then m ∷ [] else []
puts s (got t m) = []
puts s quiet = []

abbrev pub gots : Side → Effect → List Message
gots s (put t m) = []
gots s (got t m) = if same_side s t then m ∷ [] else []
gots s quiet = []

unfoldable pub run : Channel → List Op → Channel × List Effect
run c [] = (c, [])
run c (op ∷ ops) = let (d, e) = step c op in let (f, es) = run d ops in (f, e ∷ es)

unfoldable pub collect : (Effect → List Message) → List Effect → List Message
collect f [] = []
collect f (e ∷ es) = f e ++ collect f es

-- The call does not close side `s`.
abbrev pub KeepsOpen : Side → Op → Type 0
KeepsOpen s (closes t) = same_side s t ≡ false
KeepsOpen s (sends t m) = Unit
KeepsOpen s (tries t) = Unit
KeepsOpen s (turns t k me) = Unit
KeepsOpen s (waits t w) = Unit

-- One call: what was in the queue and what was put in is what was taken out and what is left.
step_fifo :
    (c : Channel) (s : Side) (op : Op)
    → KeepsOpen s op
    → let (d, e) = step c op in (half c s).queue ++ puts s e ≡ gots s e ++ (half d s).queue
unfolding step send try_recv recv_turn close register_waiter
step_fifo c first (sends first m) k = ground (arith, append-nil c.half_first.queue)
step_fifo c first (sends second m) k = ground (arith, append-nil c.half_first.queue)
step_fifo c first (tries first) k = ground (arith, append-nil c.half_first.queue)
step_fifo c first (tries second) k = ground (arith, append-nil c.half_first.queue)
step_fifo c first (turns first killed me) k = ground (arith, append-nil c.half_first.queue)
step_fifo c first (turns second killed me) k = ground (arith, append-nil c.half_first.queue)
step_fifo c first (closes first) k = ground (arith, append-nil c.half_first.queue)
step_fifo c first (closes second) k = ground (arith, append-nil c.half_first.queue)
step_fifo c first (waits first t) k = ground (arith, append-nil c.half_first.queue)
step_fifo c first (waits second t) k = ground (arith, append-nil c.half_first.queue)
step_fifo c second (sends first m) k = ground (arith, append-nil c.half_second.queue)
step_fifo c second (sends second m) k = ground (arith, append-nil c.half_second.queue)
step_fifo c second (tries first) k = ground (arith, append-nil c.half_second.queue)
step_fifo c second (tries second) k = ground (arith, append-nil c.half_second.queue)
step_fifo c second (turns first killed me) k = ground (arith, append-nil c.half_second.queue)
step_fifo c second (turns second killed me) k = ground (arith, append-nil c.half_second.queue)
step_fifo c second (closes first) k = ground (arith, append-nil c.half_second.queue)
step_fifo c second (closes second) k = ground (arith, append-nil c.half_second.queue)
step_fifo c second (waits first t) k = ground (arith, append-nil c.half_second.queue)
step_fifo c second (waits second t) k = ground (arith, append-nil c.half_second.queue)

-- Over every sequence of calls on both ends, closes of side `s` apart, the messages taken out at
-- `s` followed by those still queued there are the ones queued at the start followed by those put
-- in: nothing is lost, doubled, altered or reordered.
pub run_fifo :
    (c : Channel) (s : Side) (ops : List Op)
    → All (KeepsOpen s) ops
    → let (d, es) = run c ops in
      collect (gots s) es ++ (half d s).queue ≡ (half c s).queue ++ collect (puts s) es
unfolding run collect
run_fifo c s [] k = rw append-nil
run_fifo c s (op ∷ ops) k =
    let (d, e) = step c op in
    let rest = run_fifo d s ops (k.1) in
    let here = step_fifo c s op (k.0) in
    append_assoc (gots s e) _ _
    ∙ ap (λ q. gots s e ++ q) rest
    ∙ sym (append_assoc (gots s e) _ _)
    ∙ ap (λ q. q ++ collect (puts s) (run d ops).1) (sym here)
    ∙ append_assoc (half c s).queue (puts s e) _

-- The queues within their bound.
abbrev pub IsBounded : Channel → Type 0
IsBounded c =
    (length c.half_first.queue ≤ channel_queue_max)
    × (length c.half_second.queue ≤ channel_queue_max)

step-IsBounded : (c : Channel) (op : Op) → IsBounded c → IsBounded (step c op).0
unfolding step send try_recv recv_turn close register_waiter
step-IsBounded c (sends first m) b = ground (arith, length-append c.half_second.queue (m ∷ []))
step-IsBounded c (sends second m) b = ground (arith, length-append c.half_first.queue (m ∷ []))
step-IsBounded c (tries first) b = ground arith
step-IsBounded c (tries second) b = ground arith
step-IsBounded c (turns first killed me) b = ground arith
step-IsBounded c (turns second killed me) b = ground arith
step-IsBounded c (closes first) b = ground arith
step-IsBounded c (closes second) b = ground arith
step-IsBounded c (waits first t) b = ground arith
step-IsBounded c (waits second t) b = ground arith

run-IsBounded : (c : Channel) (ops : List Op) → IsBounded c → IsBounded (run c ops).0
unfolding run
run-IsBounded c [] b = b
run-IsBounded c (op ∷ ops) b = run-IsBounded (step c op).0 ops (step-IsBounded c op b)

-- No sequence of calls on a new channel leaves more than 64 messages in a queue.
pub run-create-IsBounded : (ops : List Op) → IsBounded (run create ops).0
unfolding create
run-create-IsBounded ops = run-IsBounded create ops (omega arith)
