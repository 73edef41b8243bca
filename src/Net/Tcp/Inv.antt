-- ===== src/Net/Tcp/Inv.antt =====
-- The shape of a socket of libraries/net/src/tcp.rs, kept by every call.
use nexo_os.Prelude.{
  ℕ, suc, ◌≤◌, ◌≡◌, refl, min, not, ◌||◌, List, [], ◌∷◌, Option, none, some, ok, arith, length, map,
  leb, All, All-set, length-set, length-append, length-drop, length-map, Bool-cases, Option-cases,
  inl, inr,
}
use nexo_os.Net.Tcp.{
  State, closed, listen, syn_rcvd, syn_sent, established, fin_wait1, fin_wait2, close_wait,
  last_ack, state_eq, tx_slots, rx_cap, mss, max_retries, tcp_rst, wrapping_sub, Segment, TxSeg,
  TxPend, TcpSocket, connect, open_listen, on_syn, free_from, has, tcp_syn, tcp_ack,
}
use nexo_os.Net.Tcp.Receive.{confirm, take_ack, dispatch, on_segment, torn_down}
use nexo_os.Net.Tcp.Transmit.{
  send, send_in, close, close_in, pick, oldest, resend, poll, take_rx, window_update,
}

-- A pending segment that can be sent again: its payload fits a segment, and it was not repeated
-- more often than allowed.
abbrev pub Sendable : TxPend → Type 0
Sendable p = (p.len ≤ mss) × (p.retries ≤ max_retries)

pub record IsValid (s : TcpSocket) : Type 0 where
  pub slots : length s.pend ≡ tx_slots
  pub buffers : length s.tx ≡ tx_slots
  pub sendable : All Sendable s.pend
  pub room : length s.rx ≤ rx_cap

confirm-Sendable :
    (una adv : ℕ) (ps : List TxPend) → All Sendable ps → All Sendable (map (confirm una adv) ps)
unfolding confirm
confirm-Sendable una adv [] h = tt
confirm-Sendable una adv (p ∷ ps) h = (ground arith, confirm-Sendable una adv ps h.1)

take_ack-IsValid : (s : TcpSocket) (seg : Segment) → IsValid s → IsValid (take_ack s seg)
unfolding take_ack
take_ack-IsValid s seg v =
    let adv = wrapping_sub seg.ack s.snd_una in
    ground (
      arith,
      length-map s.pend (confirm s.snd_una adv),
      confirm-Sendable s.snd_una adv s.pend v.sendable,
    )

-- The part of a valid socket that receiving data may change is the buffer, within its room.
dispatch-IsValid :
    (st : State) (s : TcpSocket) (seg : Segment) → IsValid s → IsValid (dispatch st s seg).0
unfolding dispatch
dispatch-IsValid syn_rcvd s seg v = ground (arith, length-append s.rx seg.payload)
dispatch-IsValid syn_sent s seg v = ground arith
dispatch-IsValid established s seg v = ground (arith, length-append s.rx seg.payload)
dispatch-IsValid fin_wait1 s seg v = ground (arith, length-append s.rx seg.payload)
dispatch-IsValid fin_wait2 s seg v = ground (arith, length-append s.rx seg.payload)
dispatch-IsValid last_ack s seg v = ground arith
dispatch-IsValid close_wait s seg v = v
dispatch-IsValid closed s seg v = v
dispatch-IsValid listen s seg v = v

pub torn_down-IsValid : (s : TcpSocket) → IsValid s → IsValid (torn_down s)
torn_down-IsValid s v = record {
  slots = refl;
  buffers = v.buffers;
  sendable = omega arith;
  room = v.room;
}

pub on_segment-IsValid : (s : TcpSocket) (seg : Segment) → IsValid s → IsValid (on_segment s seg).0
unfolding on_segment
on_segment-IsValid s seg v = elim (Bool-cases (has seg.flags tcp_rst)) [
  | inl r ↦ rw r (torn_down-IsValid s v)
  | inr r ↦ rw r (dispatch-IsValid (take_ack s seg).state _ seg (take_ack-IsValid s seg v))
]

send_in-IsValid :
    (s : TcpSocket) (payload : List ℕ) (now slot : ℕ)
    → IsValid s
    → length payload ≤ mss
    → IsValid (send_in s payload now slot).0
unfolding send_in
send_in-IsValid s payload now slot v h = record {
  slots = rw length-set v.slots;
  buffers = rw length-set v.buffers;
  sendable = All-set Sendable s.pend slot _ v.sendable (omega arith);
  room = v.room;
}

pub send-IsValid :
    (s : TcpSocket) (payload : List ℕ) (now : ℕ) (r : TcpSocket × TxSeg)
    → IsValid s
    → send s payload now ≡ ok r
    → IsValid r.0
unfolding send
send-IsValid s payload now r v h = elim (Option-cases (free_from s.pend)) [
  | inl e ↦ ground arith
  | inr (slot, e) ↦ let k = send_in-IsValid s payload now slot v in ground arith
]

pub on_syn-IsValid :
    (s : TcpSocket) (ip : List ℕ) (seg : Segment) (now : ℕ)
    → IsValid s
    → IsValid (on_syn s ip seg now).0
unfolding on_syn
on_syn-IsValid s ip seg now v =
    let k = λ (e : TxPend) (g : Sendable e). All-set Sendable s.pend 0 e v.sendable g in
    elim (Bool-cases
      (not (state_eq s.state listen) || not (has seg.flags tcp_syn) || has seg.flags tcp_ack)) [
        | inl c ↦ rw c v
        | inr c ↦ rw c (record {
          slots = rw length-set v.slots;
          buffers = v.buffers;
          sendable = k _ (omega arith);
          room = v.room;
        })
      ]

pub close-IsValid : (s : TcpSocket) (now : ℕ) → IsValid s → IsValid (close s now).0
unfolding close close_in
close-IsValid s now v =
    elim (Bool-cases (state_eq s.state established || state_eq s.state close_wait)) [
      | inr c ↦ rw c v
      | inl c ↦ elim (Option-cases (free_from s.pend)) [
        | inl e ↦ rw (c, e) v
        | inr (slot, e) ↦
            rw (c, e)
              (record {
                slots = rw length-set v.slots;
                buffers = v.buffers;
                sendable = All-set Sendable s.pend slot _ v.sendable (omega arith);
                room = v.room;
              })
      ]
    ]

pick-Sendable :
    (una now i : ℕ) (best : Option (ℕ × TxPend)) (q : TxPend)
    → Sendable q
    → ((j : ℕ) (p : TxPend) → best ≡ some (j, p) → Sendable p)
    → (j : ℕ) (p : TxPend) → pick una now i best q ≡ some (j, p)
    → Sendable p
unfolding pick
pick-Sendable una now i none q h b j p e = ground arith
pick-Sendable una now i (some (o, r)) q h b j p e = ground (arith, b o r refl)

oldest-Sendable :
    (una now i : ℕ) (best : Option (ℕ × TxPend)) (ps : List TxPend)
    → All Sendable ps
    → ((j : ℕ) (p : TxPend) → best ≡ some (j, p) → Sendable p)
    → (j : ℕ) (p : TxPend) → oldest una now i best ps ≡ some (j, p)
    → Sendable p
unfolding oldest
oldest-Sendable una now i best [] h b j p e = b j p e
oldest-Sendable una now i best (q ∷ qs) h b j p e =
    oldest-Sendable una now (suc i) (pick una now i best q) qs h.1
      (pick-Sendable una now i best q h.0 b) j p e

pub poll-IsValid : (s : TcpSocket) (now : ℕ) → IsValid s → IsValid (poll s now).0
unfolding poll resend
poll-IsValid s now v = elim (Bool-cases (state_eq s.state closed)) [
  | inl c ↦ rw c v
  | inr c ↦ elim (Option-cases (oldest s.snd_una now 0 none s.pend)) [
    | inl e ↦ rw (c, e) v
    | inr ((i, p), e) ↦
        let g =
          oldest-Sendable s.snd_una now 0 none s.pend v.sendable (λ j q f. ground arith) i p e in
        elim (Bool-cases (leb max_retries p.retries)) [
          | inl r ↦ rw (c, e, r) (torn_down-IsValid s v)
          | inr r ↦
              rw (c, e, r)
                (record {
                  slots = rw length-set v.slots;
                  buffers = v.buffers;
                  sendable = All-set Sendable s.pend i _ v.sendable (ground arith);
                  room = v.room;
                })
        ]
  ]
]

pub take_rx-IsValid : (s : TcpSocket) (n : ℕ) → IsValid s → IsValid (take_rx s n).0
unfolding take_rx
take_rx-IsValid s n v = record {
  slots = v.slots;
  buffers = v.buffers;
  sendable = v.sendable;
  room = ground (arith, length-drop (min (length s.rx) n) s.rx, v.room);
}

pub window_update-IsValid : (s : TcpSocket) → IsValid s → IsValid (window_update s).0
unfolding window_update
window_update-IsValid s v = ground arith

pub open_listen-IsValid : (port iss : ℕ) → IsValid (open_listen port iss)
unfolding open_listen
open_listen-IsValid port iss = record {
  slots = refl;
  buffers = refl;
  sendable = omega arith;
  room = omega arith;
}

pub connect-IsValid :
    (port : ℕ) (ip : List ℕ) (peer iss now : ℕ) → IsValid (connect port ip peer iss now).0
unfolding connect
connect-IsValid port ip peer iss now = record {
  slots = refl;
  buffers = refl;
  sendable = omega arith;
  room = omega arith;
}
