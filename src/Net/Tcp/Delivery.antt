-- ===== src/Net/Tcp/Delivery.antt =====
-- In-order delivery over a whole connection of libraries/net/src/tcp.rs.
use nexo_os.Prelude.{
  ℕ, ◌+◌, ◌%◌, ◌^◌, ◌≤◌, ◌<◌, ◌≡◌, refl, ap, ◌∙◌, min, false, ◌&&◌, List, [], ◌∷◌, ◌++◌, arith,
  length, take, take-append-drop, ◌==◌, All, Bool-cases, inl, inr, ◌⊎◌,
}
use mathlib.Core.List.{append-nil, append_assoc}
use nexo_os.Net.Tcp.{
  State, closed, listen, syn_rcvd, syn_sent, established, fin_wait1, fin_wait2, close_wait,
  last_ack, Segment, TcpSocket, has, tcp_ack, tcp_rst, on_syn,
}
use nexo_os.Net.Tcp.Receive.{
  acceptable, take_ack, finish_handshake, dispatch, on_segment, torn_down,
}
use nexo_os.Net.Tcp.Transmit.{send, close, poll, take_rx, window_update}
use nexo_os.Net.Tcp.Stream.{
  IsHonest, HasRead, awaits_syn, same-HasRead, receive-HasRead, append-HasRead,
}
use nexo_os.Net.Tcp.Trace.{Op, syn, segment, sends, closes, polls, reads, updates, sent, step, run}

take_ack_same :
    (s : TcpSocket) (seg : Segment)
    → let t = take_ack s seg in
      (t.rx ≡ s.rx)
      × (t.rcv_nxt ≡ s.rcv_nxt)
      × (t.peer_closed ≡ s.peer_closed)
      × (t.state ≡ s.state)
unfolding take_ack
take_ack_same s seg = ground arith

-- The receiving side is as it was, and no SYN is awaited.
abbrev Untouched : TcpSocket → TcpSocket → Type 0
Untouched s t =
    (t.rx ≡ s.rx)
    × (t.rcv_nxt ≡ s.rcv_nxt)
    × (t.peer_closed ≡ s.peer_closed)
    × (awaits_syn t.state ≡ false)

module _ (s : TcpSocket) (o : awaits_syn s.state ≡ false) where
  on_syn_same : (ip : List ℕ) (seg : Segment) (now : ℕ) → Untouched s (on_syn s ip seg now).0
  unfolding on_syn
  on_syn_same ip seg now = ground arith

  send_same : (payload : List ℕ) (now : ℕ) → Untouched s (sent s (send s payload now))
  unfolding send sent
  send_same payload now = ground arith

  close_same : (now : ℕ) → Untouched s (close s now).0
  unfolding close
  close_same now = ground arith

  poll_same : (now : ℕ) → Untouched s (poll s now).0
  unfolding poll
  poll_same now = ground arith

  update_same : Untouched s (window_update s).0
  unfolding window_update
  update_same = ground arith

module _ (stream : List ℕ) (base : ℕ) where
  -- The call brings no segment but the peer's own.
  abbrev pub FromPeer : Op → Type 0
  FromPeer (segment seg) = IsHonest stream base seg
  FromPeer (syn ip seg now) = Unit
  FromPeer (sends payload now) = Unit
  FromPeer (closes now) = Unit
  FromPeer (polls now) = Unit
  FromPeer (reads n) = Unit
  FromPeer updates = Unit

module _ (stream : List ℕ) (base : ℕ) (small : length stream + 1 < 2 ^ 32) where
  handshake-HasRead :
      (s : TcpSocket) (got : List ℕ) (seg : Segment)
      → HasRead stream base s got
      → IsHonest stream base seg
      → HasRead stream base (finish_handshake s seg).0 got
  unfolding finish_handshake
  handshake-HasRead s got seg h g =
      let open_s = record s { state = established } in
      let o = same-HasRead stream base small s open_s got h refl refl refl refl in
      elim (Bool-cases (has seg.flags tcp_ack && seg.ack == s.snd_nxt)) [
        | inr f ↦ rw f h
        | inl t ↦ elim (Bool-cases (acceptable s seg)) [
          | inl a ↦ rw (t, a) (append-HasRead stream base small open_s got seg o g a)
          | inr a ↦ rw (t, a) o
        ]
      ]

  dispatch-HasRead :
      (st : State) (s : TcpSocket) (got : List ℕ) (seg : Segment)
      → HasRead stream base s got
      → awaits_syn st ≡ false
      → IsHonest stream base seg
      → HasRead stream base (dispatch st s seg).0 got
  unfolding dispatch
  dispatch-HasRead closed s got seg h a g = h
  dispatch-HasRead listen s got seg h a g = h
  dispatch-HasRead syn_rcvd s got seg h a g = handshake-HasRead s got seg h g
  dispatch-HasRead syn_sent s got seg h a g = cc
  dispatch-HasRead established s got seg h a g = receive-HasRead stream base small s got seg h g
  dispatch-HasRead fin_wait1 s got seg h a g = receive-HasRead stream base small s got seg h g
  dispatch-HasRead fin_wait2 s got seg h a g = receive-HasRead stream base small s got seg h g
  dispatch-HasRead close_wait s got seg h a g = h
  dispatch-HasRead last_ack s got seg h a g =
      let o = h.opened in
      same-HasRead stream base small s _ got h (ground arith) (ground arith) (ground arith)
        (ground arith)

  on_segment-HasRead :
      (s : TcpSocket) (got : List ℕ) (seg : Segment)
      → HasRead stream base s got
      → IsHonest stream base seg
      → HasRead stream base (on_segment s seg).0 got
  unfolding on_segment
  on_segment-HasRead s got seg h g =
      let o = h.opened in
      let acked = take_ack_same s seg in
      let a : awaits_syn (take_ack s seg).state ≡ false = rw (acked.3) o in
      let k = same-HasRead stream base small s (take_ack s seg) got h acked.0 acked.1 acked.2 a in
      elim (Bool-cases (has seg.flags tcp_rst)) [
        | inl r ↦ rw r (same-HasRead stream base small s (torn_down s) got h refl refl refl refl)
        | inr r ↦ rw r (dispatch-HasRead (take_ack s seg).state (take_ack s seg) got seg k a g)
      ]

  quiet-HasRead :
      (s t : TcpSocket) (got : List ℕ)
      → HasRead stream base s got
      → Untouched s t
      → HasRead stream base t (got ++ [])
  quiet-HasRead s t got h u =
      rw append-nil (same-HasRead stream base small s t got h u.0 u.1 u.2 u.3)

  read-HasRead :
      (s : TcpSocket) (got : List ℕ) (n : ℕ)
      → HasRead stream base s got
      → HasRead stream base (take_rx s n).0 (got ++ (take_rx s n).1)
  unfolding take_rx
  read-HasRead s got n h = record {
    count = h.count;
    within = h.within;
    prefix =
        append_assoc got _ _
        ∙ ap (λ xs. got ++ xs) (take-append-drop (min (length s.rx) n) s.rx)
        ∙ h.prefix;
    next = h.next;
    ended = h.ended;
    opened = h.opened;
  }

  step-HasRead :
      (s : TcpSocket) (got : List ℕ) (op : Op)
      → HasRead stream base s got
      → FromPeer stream base op
      → HasRead stream base (step s op).0 (got ++ (step s op).1)
  unfolding step
  step-HasRead s got (syn ip seg now) h g =
      quiet-HasRead s _ got h (on_syn_same s h.opened ip seg now)
  step-HasRead s got (segment seg) h g = rw append-nil (on_segment-HasRead s got seg h g)
  step-HasRead s got (sends payload now) h g =
      quiet-HasRead s _ got h (send_same s h.opened payload now)
  step-HasRead s got (closes now) h g = quiet-HasRead s _ got h (close_same s h.opened now)
  step-HasRead s got (polls now) h g = quiet-HasRead s _ got h (poll_same s h.opened now)
  step-HasRead s got (reads n) h g = read-HasRead s got n h
  step-HasRead s got updates h g = quiet-HasRead s _ got h (update_same s h.opened)

  run-HasRead :
      (s : TcpSocket) (got : List ℕ) (ops : List Op)
      → HasRead stream base s got
      → All (FromPeer stream base) ops
      → HasRead stream base (run s ops).0 (got ++ (run s ops).1)
  unfolding run
  run-HasRead s got [] h g = rw append-nil h
  run-HasRead s got (op ∷ ops) h g =
      rw (← append_assoc)
        (run-HasRead (step s op).0 (got ++ (step s op).1) ops (step-HasRead s got op h g.0) g.1)

-- The peer writes `stream`, shorter than 2 ^ 32 - 1 bytes, its first byte numbered `base`. Whatever
-- sequence of its segments arrives (lost, repeated, cut differently or out of order), mixed with
-- whatever calls of the application and the timer, what the application of a socket that is past
-- the peer's SYN has read, followed by what waits in the buffer, is a prefix of the stream; and the
-- socket reports the peer's end only when that prefix is the whole stream.
pub run_delivers :
    (stream : List ℕ) (base : ℕ) (s : TcpSocket) (ops : List Op)
    → length stream + 1 < 2 ^ 32
    → s.rx ≡ []
    → s.rcv_nxt ≡ base % 2 ^ 32
    → s.peer_closed ≡ false
    → awaits_syn s.state ≡ false
    → All (FromPeer stream base) ops
    → let (t, got) = run s ops in
      (n : ℕ) × (n ≤ length stream)
      × (got ++ t.rx ≡ take n stream)
      × ((t.peer_closed ≡ false) ⊎ (n ≡ length stream))
run_delivers stream base s ops small x n p o g =
    let start : HasRead stream base s [] = record {
      count = 0;
      within = omega arith;
      prefix = x;
      next = rw p (let e : base ≡ base + (0 + 0) = omega arith in rw (← e) n);
      ended = inl p;
      opened = o;
    } in
    let h = run-HasRead stream base small s [] ops start g in (h.count, h.within, h.prefix, h.ended)
