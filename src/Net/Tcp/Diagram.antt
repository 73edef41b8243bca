-- ===== src/Net/Tcp/Diagram.antt =====
-- The state diagram of docs/spec/tcp-states.md, and the calls of libraries/net/src/tcp.rs that move
-- a socket along it.
use nexo_os.Prelude.{ℕ, ◌≤◌, ◌≡◌, bit_and, bit_or, true, false, List, some, length, get_elem?, ◌⊎◌}
use nexo_os.Net.Tcp.{
  State, closed, listen, syn_rcvd, syn_sent, established, fin_wait1, fin_wait2, close_wait,
  last_ack, Segment, TcpSocket, has, tcp_rst, tcp_fin, tcp_syn, tcp_ack, TxPend, wrapping_add,
  max_retries, any_used,
}
use nexo_os.Net.Tcp.Receive.{take_ack}
use nexo_os.Net.Tcp.Retransmit.{IsDue}
use nexo_os.Net.Tcp.Trace.{Op, syn, segment, closes, polls}

-- A FIN that is the next in order, by itself or behind a payload that is.
abbrev pub FinNext : TcpSocket → Segment → Type 0
FinNext s seg =
    (has seg.flags tcp_fin ≡ true)
    × ((wrapping_add seg.seq (length seg.payload) ≡ s.rcv_nxt) ⊎ (seg.seq ≡ s.rcv_nxt))

-- With the acknowledgement of the segment, nothing of ours is in flight.
abbrev pub AllAcked : TcpSocket → Segment → Type 0
AllAcked s seg = (j : ℕ) (p : TxPend) → get_elem? (take_ack s seg).pend j ≡ some p → p.used ≡ false

-- A segment in flight is overdue and was repeated as often as allowed.
abbrev pub Exhausted : TcpSocket → ℕ → Type 0
Exhausted s now =
    (k : ℕ) × (p : TxPend) × (get_elem? s.pend k ≡ some p) × IsDue now p × (max_retries ≤ p.retries)

-- The arrows of the diagram from the state of a socket, each with the call that takes it and with
-- what that call must bring. In FIN_WAIT_1 the FIN of the peer leads to CLOSED whether or not our own
-- is acknowledged, where the document asks for both.
pub data Edge (s : TcpSocket) : Op → State → Type 0 where
  syn_received :
      {ip : List ℕ} {seg : Segment} {now : ℕ}
      → s.state ≡ listen
      → has seg.flags tcp_syn ≡ true
      → has seg.flags tcp_ack ≡ false
      → Edge s (syn ip seg now) syn_rcvd
  accepted :
      {seg : Segment}
      → s.state ≡ syn_rcvd
      → has seg.flags tcp_ack ≡ true
      → seg.ack ≡ s.snd_nxt
      → Edge s (segment seg) established
  connected :
      {seg : Segment}
      → s.state ≡ syn_sent
      → bit_and seg.flags (bit_or tcp_syn tcp_ack) ≡ bit_or tcp_syn tcp_ack
      → seg.ack ≡ s.snd_nxt
      → Edge s (segment seg) established
  closing : {now : ℕ} → s.state ≡ established → Edge s (closes now) fin_wait1
  peer_closing :
      {seg : Segment} → s.state ≡ established → FinNext s seg → Edge s (segment seg) close_wait
  fin_confirmed :
      {seg : Segment} → s.state ≡ fin_wait1 → AllAcked s seg → Edge s (segment seg) fin_wait2
  both_closed :
      {seg : Segment}
      → s.state ≡ fin_wait1
      → FinNext s seg ⊎ ((s.peer_closed ≡ true) × AllAcked s seg)
      → Edge s (segment seg) closed
  peer_closed : {seg : Segment} → s.state ≡ fin_wait2 → FinNext s seg → Edge s (segment seg) closed
  answering : {now : ℕ} → s.state ≡ close_wait → Edge s (closes now) last_ack
  answered : {seg : Segment} → s.state ≡ last_ack → AllAcked s seg → Edge s (segment seg) closed
  reset : {seg : Segment} → has seg.flags tcp_rst ≡ true → Edge s (segment seg) closed
  exhausted : {now : ℕ} → Exhausted s now → Edge s (polls now) closed

-- The state stays, or takes an arrow of the diagram.
abbrev pub Moves : TcpSocket → Op → State → Type 0
Moves s op st' = (st' ≡ s.state) ⊎ Edge s op st'

-- What holds of the socket `s'` that the acknowledgement of a segment leaves of `s`.
abbrev Acked : TcpSocket → TcpSocket → Segment → Type 0
Acked s s' seg =
    (s'.snd_nxt ≡ s.snd_nxt)
    × (s'.peer_closed ≡ s.peer_closed)
    × (FinNext s' seg → FinNext s seg)
    × (any_used s'.pend ≡ false → AllAcked s seg)
