-- ===== src/Net/Tcp/Transmit.antt =====
-- The sending side of libraries/net/src/tcp.rs: `send`, `close`, the timer, and the reader's calls.
use nexo_os.Prelude.{
  ℕ, suc, ◌+◌, min, bit_or, Bool, true, false, not, ◌&&◌, ◌||◌, List, [], ◌∷◌, ◌++◌, Option, none,
  some, Result, ok, err, length, get_or, set, take, drop, leb, ltb, if◌then◌else◌,
}
use nexo_os.Net.Tcp.{
  closed, established, fin_wait1, close_wait, last_ack, state_eq, rto_ns, max_retries, mss, tcp_fin,
  tcp_psh, tcp_ack, wrapping_add, wrapping_sub, TxSeg, TxPend, TcpSocket, sent_at, window,
  free_from, ack_seg,
}
use nexo_os.Net.Tcp.Receive.{is_empty, torn_down}

unfoldable pub send_in : TcpSocket → List ℕ → ℕ → ℕ → TcpSocket × TxSeg
send_in s payload now slot = (
  record s {
    tx = set s.tx slot (payload ++ drop (length payload) (get_or s.tx slot []));
    pend = set s.pend slot (sent_at s.snd_nxt (length payload) (bit_or tcp_ack tcp_psh) now);
    snd_nxt = wrapping_add s.snd_nxt (length payload);
  },
  record {
    seq = s.snd_nxt;
    ack = s.rcv_nxt;
    flags = bit_or tcp_ack tcp_psh;
    payload_len = length payload;
    slot = slot;
  },
)

-- `err true`: the window is full; `err false`: not connected.
unfoldable pub send : TcpSocket → List ℕ → ℕ → Result Bool (TcpSocket × TxSeg)
unfolding send_in
send s payload now =
    if not (state_eq s.state established) && not (state_eq s.state close_wait)
    then err false
    else if is_empty payload || ltb mss (length payload)
    then err true
    else elim (free_from s.pend) [ none ↦ err true | some slot ↦ ok (send_in s payload now slot) ]

unfoldable pub close_in : TcpSocket → ℕ → ℕ → TcpSocket × Option TxSeg
close_in s now slot = (
  record s {
    pend = set s.pend slot (sent_at s.snd_nxt 0 (bit_or tcp_fin tcp_ack) now);
    snd_nxt = wrapping_add s.snd_nxt 1;
    state = if state_eq s.state established then fin_wait1 else last_ack;
  },
  some (record {
    seq = s.snd_nxt;
    ack = s.rcv_nxt;
    flags = bit_or tcp_fin tcp_ack;
    payload_len = 0;
    slot = slot;
  }),
)

unfoldable pub close : TcpSocket → ℕ → TcpSocket × Option TxSeg
unfolding close_in
close s now =
    if state_eq s.state established || state_eq s.state close_wait
    then elim (free_from s.pend) [ none ↦ (s, none) | some slot ↦ close_in s now slot ]
    else (s, none)

-- One round of the timer's search: slot `i` is taken if it is overdue and nothing was found yet, or
-- if it is nearer to `una` than what was found.
unfoldable pub pick : ℕ → ℕ → ℕ → Option (ℕ × TxPend) → TxPend → Option (ℕ × TxPend)
pick una now i none p = if not p.used || ltb now p.deadline then none else some (i, p)
pick una now i (some (o, q)) p =
    if not p.used || ltb now p.deadline
    then some (o, q)
    else if ltb (wrapping_sub p.seq una) (wrapping_sub q.seq una)
    then some (i, p)
    else some (o, q)

-- The slot that the timer takes. `i` is the index of the head of the list.
unfoldable pub oldest : ℕ → ℕ → ℕ → Option (ℕ × TxPend) → List TxPend → Option (ℕ × TxPend)
oldest una now i best [] = best
oldest una now i best (p ∷ ps) = oldest una now (suc i) (pick una now i best p) ps

unfoldable pub resend : TcpSocket → ℕ → ℕ → TxPend → TcpSocket × Option TxSeg
resend s now i p = if leb max_retries p.retries then (torn_down s, none) else (
  record s { pend = set s.pend i (record p { retries = p.retries + 1; deadline = now + rto_ns }) },
  some (record { seq = p.seq; ack = s.rcv_nxt; flags = p.flags; payload_len = p.len; slot = i }),
)

unfoldable pub poll : TcpSocket → ℕ → TcpSocket × Option TxSeg
unfolding resend
poll s now =
    if state_eq s.state closed then (s, none) else elim (oldest s.snd_una now 0 none s.pend) [
      | none ↦ (s, none)
      | some (i, p) ↦ resend s now i p
    ]

-- `room` is the length of the reader's buffer; the bytes are what it receives.
unfoldable pub take_rx : TcpSocket → ℕ → TcpSocket × List ℕ
take_rx s room = let n = min (length s.rx) room in (record s { rx = drop n s.rx }, take n s.rx)

unfoldable pub window_update : TcpSocket → TcpSocket × Option TxSeg
window_update s =
    if s.win_low && leb mss (window s)
    then (record s { win_low = false }, some (ack_seg s))
    else (s, none)
