-- ===== src/Ipc/Channel/Wakeups.antt =====
-- Who sleeps on a channel of kernel/src/ipc.rs, and what the other end still sees of a closed one.
use nexo_os.Prelude.{
  ℕ, zero, suc, ◌+◌, ◌≡◌, refl, ap, true, false, List, [], ◌∷◌, ◌++◌, Result, ok, err, arith, ◌⊎◌,
  inl, All, length, map,
}
use nexo_os.Scheduler.Queues.{count}
use nexo_os.Ipc.Types.{Status, peer_closed}
use nexo_os.Ipc.Channel.{
  Channel, Side, first, second, peer, Message, half, create, close, send, try_recv, recv_turn, Turn,
  returns, parks, register_waiter,
}
use nexo_os.Ipc.Channel.Fifo.{Op, sends, tries, turns, closes, waits, step, run}

-- Whoever waits at side `s` has nothing to wait for: its queue is empty and the peer is open.
abbrev pub IsAlert : Channel → Side → Type 0
IsAlert c s =
    ((half c s).waiters ≡ []) ⊎ (((half c s).queue ≡ []) × ((half c (peer s)).closed ≡ false))

abbrev pub AllAlert : Channel → Type 0
AllAlert c = IsAlert c first × IsAlert c second

-- The call does not register a waiter from outside `recv` (the waits over several channels do, and
-- look again by themselves).
abbrev pub IsDirect : Op → Type 0
IsDirect (waits s t) = ⊥
IsDirect (sends s m) = Unit
IsDirect (tries s) = Unit
IsDirect (turns s k me) = Unit
IsDirect (closes s) = Unit

step-AllAlert : (c : Channel) (op : Op) → IsDirect op → AllAlert c → AllAlert (step c op).0
unfolding step send try_recv recv_turn close register_waiter
step-AllAlert c (sends first m) k a = ground arith
step-AllAlert c (sends second m) k a = ground arith
step-AllAlert c (tries first) k a = ground arith
step-AllAlert c (tries second) k a = ground arith
step-AllAlert c (turns first killed me) k a = ground arith
step-AllAlert c (turns second killed me) k a = ground arith
step-AllAlert c (closes first) k a = ground arith
step-AllAlert c (closes second) k a = ground arith
step-AllAlert c (waits s t) k a = absurd k

run-AllAlert :
    (c : Channel) (ops : List Op) → All IsDirect ops → AllAlert c → AllAlert (run c ops).0
unfolding run
run-AllAlert c [] k a = a
run-AllAlert c (op ∷ ops) k a = run-AllAlert (step c op).0 ops (k.1) (step-AllAlert c op (k.0) a)

-- The threads that a call unparks, and those that it parks.
abbrev pub roused : Result Status (Channel × List ℕ) → List ℕ
roused (ok (c, woken)) = woken
roused (err e) = []

abbrev pub lulled : Turn → List ℕ
lulled (returns r) = []
lulled (parks t) = t ∷ []

unfoldable pub unparked : Channel → Op → List ℕ
unparked c (sends s m) = roused (send c s m)
unparked c (closes s) = (close c s).1
unparked c (tries s) = []
unparked c (turns s killed me) = []
unparked c (waits s t) = []

unfoldable pub parked : Channel → Op → List ℕ
parked c (turns s killed me) = lulled (recv_turn c s killed me).1
parked c (waits s t) = t ∷ []
parked c (sends s m) = []
parked c (closes s) = []
parked c (tries s) = []

-- Over a run: how often thread `t` was unparked, and how often it parked.
unfoldable pub times : ℕ → (Channel → Op → List ℕ) → Channel → List Op → ℕ
times t f c [] = 0
times t f c (op ∷ ops) = count t (f c op) + times t f (step c op).0 ops

-- How often it stands among those who wait.
abbrev pub waiting : Channel → ℕ → ℕ
waiting c t = count t (half c first).waiters + count t (half c second).waiters

step-waiting :
    (c : Channel) (op : Op) (t : ℕ)
    → waiting c t + count t (parked c op) ≡ waiting (step c op).0 t + count t (unparked c op)
unfolding step send try_recv recv_turn close register_waiter unparked parked count
step-waiting c (sends first m) t = ground arith
step-waiting c (sends second m) t = ground arith
step-waiting c (tries first) t = ground arith
step-waiting c (tries second) t = ground arith
step-waiting c (turns first killed me) t = ground arith
step-waiting c (turns second killed me) t = ground arith
step-waiting c (closes first) t = ground arith
step-waiting c (closes second) t = ground arith
step-waiting c (waits first w) t = ground arith
step-waiting c (waits second w) t = ground arith

run-waiting :
    (c : Channel) (ops : List Op) (t : ℕ)
    → waiting c t + times t parked c ops ≡ waiting (run c ops).0 t + times t unparked c ops
unfolding run times
run-waiting c [] t = omega arith
run-waiting c (op ∷ ops) t = omega (arith, step-waiting c op t, run-waiting (step c op).0 ops t)

-- No wake-up is lost: whatever sends, receives and closes a new channel has seen, no thread is
-- parked at a side whose queue holds a message or whose peer has closed; and every thread was
-- unparked as often as it parked, less the times that it still stands among those who wait.
pub run-create-AllAlert :
    (ops : List Op)
    → All IsDirect ops
    → AllAlert (run create ops).0
      × ((t : ℕ)
          → times t parked create ops ≡ waiting (run create ops).0 t + times t unparked create ops)
unfolding create count
run-create-AllAlert ops k =
    (run-AllAlert create ops k (inl refl, inl refl), λ t. omega (arith, run-waiting create ops t))

-- What `n` calls of `try_recv` in a row answer.
unfoldable pub tried : ℕ → Channel → Side → List (Result Status Message)
tried zero c s = []
tried (suc n) c s = (try_recv c s).1 ∷ tried n (try_recv c s).0 s

try_recv-front :
    (c : Channel) (s : Side) (m : Message) (q : List Message)
    → (half c s).queue ≡ m ∷ q
    → (half c (peer s)).closed ≡ true
    → let (d, r) = try_recv c s in
      (r ≡ ok m) × ((half d s).queue ≡ q) × ((half d (peer s)).closed ≡ true)
unfolding try_recv
try_recv-front c first m q e h = ground arith
try_recv-front c second m q e h = ground arith

try_recv-empty :
    (c : Channel) (s : Side)
    → (half c s).queue ≡ []
    → (half c (peer s)).closed ≡ true
    → (try_recv c s).1 ≡ err peer_closed
unfolding try_recv
try_recv-empty c first e h = ground arith
try_recv-empty c second e h = ground arith

drained :
    (c : Channel) (s : Side) (q : List Message)
    → (half c s).queue ≡ q
    → (half c (peer s)).closed ≡ true
    → tried (suc (length q)) c s ≡ map ok q ++ err peer_closed ∷ []
unfolding tried
drained c s [] e h = rw (try_recv-empty c s e h) refl
drained c s (m ∷ q) e h =
    let (r, e', h') = try_recv-front c s m q e h in
    rw r (ap (λ rs. ok m ∷ rs) (drained (try_recv c s).0 s q e' h'))

-- After one end closes, the other still takes out everything that was sent to it before, message by
-- message in order, and then learns that the peer has closed; what it sends is refused, and
-- everyone parked there is woken.
pub close-peer :
    (c : Channel) (s : Side) (m : Message)
    → let (d, woken) = close c s in
      let q = (half c (peer s)).queue in
      (tried (suc (length q)) d (peer s) ≡ map ok q ++ err peer_closed ∷ [])
      × (send d (peer s) m ≡ err peer_closed)
      × (woken ≡ (half c (peer s)).waiters)
      × ((half d (peer s)).waiters ≡ [])
unfolding close send
close-peer c first m = (
  drained (close c first).0 second c.half_second.queue (ground arith) (ground arith),
  ground arith,
  ground arith,
  ground arith,
)
close-peer c second m = (
  drained (close c second).0 first c.half_first.queue (ground arith) (ground arith),
  ground arith,
  ground arith,
  ground arith,
)
