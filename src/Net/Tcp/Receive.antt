-- ===== src/Net/Tcp/Receive.antt =====
-- `on_segment` of libraries/net/src/tcp.rs: what a received segment does.
use nexo_os.Prelude.{
  ℕ, ◌-◌, bit_and, bit_or, Bool, true, false, not, ◌&&◌, ◌||◌, List, [], ◌∷◌, ◌++◌, Option, none,
  some, length, map, replicate, leb, ltb, ◌==◌, if◌then◌else◌,
}
use nexo_os.Net.Tcp.{
  State, closed, listen, syn_rcvd, syn_sent, established, fin_wait1, fin_wait2, close_wait,
  last_ack, state_eq, tx_slots, rx_cap, mss, tcp_fin, tcp_syn, tcp_rst, tcp_ack, wrapping_add,
  wrapping_sub, has, Segment, TxSeg, TxPend, pend_free, TcpSocket, window, inflight, ack_seg,
}

-- The sequence number after a pending segment: SYN and FIN count one.
unfoldable pub end_of : TxPend → ℕ
end_of p =
    wrapping_add (wrapping_add p.seq p.len) (if has p.flags (bit_or tcp_syn tcp_fin) then 1 else 0)

-- A slot is freed if the acknowledgement passes its end.
unfoldable pub confirm : ℕ → ℕ → TxPend → TxPend
unfolding end_of
confirm una adv p =
    if p.used && leb (wrapping_sub (end_of p) una) adv then record p { used = false } else p

-- Cumulative acknowledgement; one outside what was sent changes nothing.
unfoldable pub take_ack : TcpSocket → Segment → TcpSocket
unfolding confirm
take_ack s seg =
    let adv = wrapping_sub seg.ack s.snd_una in
    if has seg.flags tcp_ack && leb adv (wrapping_sub s.snd_nxt s.snd_una)
    then record s { pend = map (confirm s.snd_una adv) s.pend; snd_una = seg.ack }
    else s

abbrev pub is_empty : List ℕ → Bool
is_empty [] = true
is_empty (b ∷ bs) = false

-- The payload is the next in order, and the buffer has room for all of it.
abbrev pub acceptable : TcpSocket → Segment → Bool
acceptable s seg =
    not (is_empty seg.payload)
    && seg.seq == s.rcv_nxt
    && leb (length seg.payload) (rx_cap - length s.rx)

unfoldable pub append_rx : TcpSocket → List ℕ → TcpSocket
append_rx s payload =
    let s' = record s { rx = s.rx ++ payload; rcv_nxt = wrapping_add s.rcv_nxt (length payload) } in
    record s' { win_low = s.win_low || ltb (window s') mss }

-- In `SynRcvd`.
unfoldable pub finish_handshake : TcpSocket → Segment → TcpSocket × Option TxSeg
unfolding append_rx
finish_handshake s seg =
    let open_s = record s { state = established } in
    let fed = append_rx open_s seg.payload in
    if has seg.flags tcp_ack && seg.ack == s.snd_nxt
    then (if acceptable s seg then (fed, some (ack_seg fed)) else (open_s, none))
    else (s, none)

-- In `SynSent`.
unfoldable pub finish_connect : TcpSocket → Segment → TcpSocket × Option TxSeg
finish_connect s seg =
    let open_s = record s { rcv_nxt = wrapping_add seg.seq 1; state = established } in
    if bit_and seg.flags (bit_or tcp_syn tcp_ack) == bit_or tcp_syn tcp_ack && seg.ack == s.snd_nxt
    then (open_s, some (ack_seg open_s))
    else (s, none)

-- The peer's FIN, if it is the next in order. Whether it was, too.
unfoldable pub take_fin : TcpSocket → Segment → TcpSocket × Bool
take_fin s seg =
    if has seg.flags tcp_fin && wrapping_add seg.seq (length seg.payload) == s.rcv_nxt
    then (
      record s {
        rcv_nxt = wrapping_add s.rcv_nxt 1;
        peer_closed = true;
        state = if state_eq s.state established then close_wait else closed;
      },
      true,
    )
    else (s, false)

-- Our own FIN is confirmed when nothing is in flight any more.
unfoldable pub settle_fin : TcpSocket → TcpSocket
settle_fin s =
    if state_eq s.state fin_wait1 && not (inflight s)
    then record s { state = if s.peer_closed then closed else fin_wait2 }
    else s

-- In `Established`, `FinWait1` and `FinWait2`.
unfoldable pub receive : TcpSocket → Segment → TcpSocket × Option TxSeg
unfolding append_rx take_fin settle_fin
receive s seg =
    let taken = acceptable s seg in
    let s1 = if taken then append_rx s seg.payload else s in
    let (s2, fin) = take_fin s1 seg in
    let s3 = settle_fin s2 in
    if not (is_empty seg.payload) && not (seg.seq == s.rcv_nxt)
    then (s, some (ack_seg s))
    else (s3, if taken || fin then some (ack_seg s3) else none)

unfoldable pub dispatch : State → TcpSocket → Segment → TcpSocket × Option TxSeg
unfolding finish_handshake finish_connect receive
dispatch syn_rcvd s seg = finish_handshake s seg
dispatch syn_sent s seg = finish_connect s seg
dispatch established s seg = receive s seg
dispatch fin_wait1 s seg = receive s seg
dispatch fin_wait2 s seg = receive s seg
dispatch last_ack s seg = (if not (inflight s) then record s { state = closed } else s, none)
dispatch close_wait s seg = (s, none)
dispatch closed s seg = (s, none)
dispatch listen s seg = (s, none)

abbrev pub torn_down : TcpSocket → TcpSocket
torn_down s = record s { state = closed; reset = true; pend = replicate tx_slots pend_free }

unfoldable pub on_segment : TcpSocket → Segment → TcpSocket × Option TxSeg
unfolding take_ack dispatch
on_segment s seg =
    let s' = take_ack s seg in
    if has seg.flags tcp_rst then (torn_down s, none) else dispatch s'.state s' seg
