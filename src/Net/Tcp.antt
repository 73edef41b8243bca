-- ===== src/Net/Tcp.antt =====
-- The TCP state machine of libraries/net/src/tcp.rs: the socket, and how one is opened.
--
-- Sequence numbers are `u32` and wrap; bytes, ports and addresses are only moved. Times are
-- nanoseconds without a bound. `rx` is the list of the first `rx_len` bytes of the receive buffer,
-- the only ones that are ever read.
pub mod Receive
pub mod Transmit
pub mod Inv
pub mod Trace
pub mod Stream
pub mod Delivery
pub mod Retransmit
pub mod Budget
pub mod Diagram
mod Tests
use nexo_os.Prelude.{
  ℕ, zero, suc, ◌+◌, ◌-◌, ◌%◌, ◌^◌, min, bit_and, bit_or, Bool, true, false, not, ◌&&◌, ◌||◌, List,
  [], ◌∷◌, Option, none, some, length, get_or, set, replicate, take, leb, ltb, ◌==◌, if◌then◌else◌,
}

pub data State : Type 0 where
  closed listen syn_rcvd syn_sent established fin_wait1 fin_wait2 close_wait last_ack : State

abbrev pub state_eq : State → State → Bool
state_eq closed closed = true
state_eq listen listen = true
state_eq syn_rcvd syn_rcvd = true
state_eq syn_sent syn_sent = true
state_eq established established = true
state_eq fin_wait1 fin_wait1 = true
state_eq fin_wait2 fin_wait2 = true
state_eq close_wait close_wait = true
state_eq last_ack last_ack = true
state_eq _ _ = false

abbrev pub rto_ns : ℕ
rto_ns = 500_000_000

abbrev pub max_retries : ℕ
max_retries = 5

abbrev pub tx_slots : ℕ
tx_slots = 4

abbrev pub rx_cap : ℕ
rx_cap = 4096

abbrev pub mss : ℕ
mss = 1400

abbrev pub tcp_fin : ℕ
tcp_fin = 0x01

abbrev pub tcp_syn : ℕ
tcp_syn = 0x02

abbrev pub tcp_rst : ℕ
tcp_rst = 0x04

abbrev pub tcp_psh : ℕ
tcp_psh = 0x08

abbrev pub tcp_ack : ℕ
tcp_ack = 0x10

-- `u32::wrapping_add` and `wrapping_sub`.
abbrev pub wrapping_add : ℕ → ℕ → ℕ
wrapping_add a b = (a + b) % 2 ^ 32

abbrev pub wrapping_sub : ℕ → ℕ → ℕ
wrapping_sub a b = (a + 2 ^ 32 - b) % 2 ^ 32

-- `flags & mask != 0`.
abbrev pub has : ℕ → ℕ → Bool
has flags mask = not (bit_and flags mask == 0)

-- `usize::MAX`: no slot.
abbrev pub no_slot : ℕ
no_slot = 2 ^ 64 - 1

-- The fields of `TcpSegment` that the machine reads.
pub record Segment : Type 0 where
  pub src_port : ℕ
  pub seq : ℕ
  pub ack : ℕ
  pub flags : ℕ
  pub payload : List ℕ

pub record TxSeg : Type 0 where
  pub seq : ℕ
  pub ack : ℕ
  pub flags : ℕ
  pub payload_len : ℕ
  pub slot : ℕ

pub record TxPend : Type 0 where
  pub used : Bool
  pub seq : ℕ
  pub len : ℕ
  pub flags : ℕ
  pub deadline : ℕ
  pub retries : ℕ

abbrev pub pend_free : TxPend
pend_free = record { used = false; seq = 0; len = 0; flags = 0; deadline = 0; retries = 0 }

pub record TcpSocket : Type 0 where
  pub state : State
  pub reset : Bool
  pub peer_closed : Bool
  pub local_port : ℕ
  pub remote_ip : List ℕ
  pub remote_port : ℕ
  pub snd_nxt : ℕ
  pub snd_una : ℕ
  pub rcv_nxt : ℕ
  pub tx : List (List ℕ)
  pub pend : List TxPend
  pub rx : List ℕ
  pub win_low : Bool

unfoldable pub blank : ℕ → ℕ → TcpSocket
blank local_port iss = record {
  state = closed;
  reset = false;
  peer_closed = false;
  local_port = local_port;
  remote_ip = 0 ∷ 0 ∷ 0 ∷ 0 ∷ [];
  remote_port = 0;
  snd_nxt = wrapping_add iss 1;
  snd_una = iss;
  rcv_nxt = 0;
  tx = replicate tx_slots (replicate mss 0);
  pend = replicate tx_slots pend_free;
  rx = [];
  win_low = false;
}

-- The entry of a segment that has just been emitted.
abbrev pub sent_at : ℕ → ℕ → ℕ → ℕ → TxPend
sent_at seq len flags now = record {
  used = true;
  seq = seq;
  len = len;
  flags = flags;
  deadline = now + rto_ns;
  retries = 0;
}

unfoldable pub connect : ℕ → List ℕ → ℕ → ℕ → ℕ → TcpSocket × TxSeg
unfolding blank
connect local_port remote_ip remote_port iss now =
    let s = blank local_port iss in
    (
      record s {
        state = syn_sent;
        remote_ip = remote_ip;
        remote_port = remote_port;
        pend = set s.pend 0 (sent_at iss 0 tcp_syn now);
      },
      record { seq = iss; ack = 0; flags = tcp_syn; payload_len = 0; slot = 0 },
    )

unfoldable pub open_listen : ℕ → ℕ → TcpSocket
unfolding blank
open_listen local_port iss = record (blank local_port iss) { state = listen }

unfoldable pub on_syn : TcpSocket → List ℕ → Segment → ℕ → TcpSocket × Option TxSeg
on_syn s src_ip seg now =
    if not (state_eq s.state listen) || not (has seg.flags tcp_syn) || has seg.flags tcp_ack
    then (s, none)
    else (
      record s {
        remote_ip = src_ip;
        remote_port = seg.src_port;
        rcv_nxt = wrapping_add seg.seq 1;
        state = syn_rcvd;
        pend = set s.pend 0 (sent_at s.snd_una 0 (bit_or tcp_syn tcp_ack) now);
      },
      some (record {
        seq = s.snd_una;
        ack = wrapping_add seg.seq 1;
        flags = bit_or tcp_syn tcp_ack;
        payload_len = 0;
        slot = 0;
      }),
    )

-- `(RX_CAP - rx_len) as u16`.
abbrev pub window : TcpSocket → ℕ
window s = (rx_cap - length s.rx) % 2 ^ 16

unfoldable pub slot_payload : TcpSocket → ℕ → ℕ → List ℕ
slot_payload s slot len = if leb tx_slots slot then [] else take (min len mss) (get_or s.tx slot [])

any_used : List TxPend → Bool
any_used [] = false
any_used (p ∷ ps) = p.used || any_used ps

unfoldable pub inflight : TcpSocket → Bool
unfolding any_used
inflight s = any_used s.pend

-- `pend.iter().position(|p| !p.used)`.
unfoldable pub free_from : List TxPend → Option ℕ
free_from [] = none
free_from (p ∷ ps) =
    if not p.used then some 0 else elim (free_from ps) [ none ↦ none | some i ↦ some (suc i) ]

abbrev pub ack_seg : TcpSocket → TxSeg
ack_seg s = record {
  seq = s.snd_nxt;
  ack = s.rcv_nxt;
  flags = tcp_ack;
  payload_len = 0;
  slot = no_slot;
}
