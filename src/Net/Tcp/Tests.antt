-- ===== src/Net/Tcp/Tests.antt =====
-- The theorems on libraries/net/src/tcp.rs at concrete sockets.
use nexo_os.Prelude.{
  ℕ, ◌≤◌, ◌≡◌, ◌≢◌, ◌⊎◌, refl, false, List, [], ◌∷◌, ◌++◌, some, none, arith, length, take, inl,
  inr,
}
use nexo_os.Net.Tcp.{
  State, established, closed, syn_sent, Segment, TxSeg, TxPend, TcpSocket, blank, connect,
  open_listen, tx_slots, mss, pend_free, max_retries, rto_ns,
}
use nexo_os.Net.Tcp.Transmit.{poll}
use nexo_os.Net.Tcp.Trace.{Op, segment, polls, reads, run, run_fresh-IsValid}
use nexo_os.Net.Tcp.Inv.{IsValid, connect-IsValid}
use nexo_os.Net.Tcp.Stream.{IsHonest}
use nexo_os.Net.Tcp.Delivery.{run_delivers}
use nexo_os.Net.Tcp.Budget.{resends, resends_bounded}

-- A socket that has just sent its SYN.
abbrev calling : TcpSocket
unfolding connect
calling = (connect 41000 (10 ∷ 0 ∷ 2 ∷ 2 ∷ []) 80 7 1000).0

calling-IsValid : IsValid calling
unfolding calling connect
calling-IsValid = connect-IsValid 41000 (10 ∷ 0 ∷ 2 ∷ 2 ∷ []) 80 7 1000

resends_bounded_example : resends calling (600_000_000 ∷ 1_200_000_000 ∷ []) ≤ 20
resends_bounded_example = resends_bounded calling (600_000_000 ∷ 1_200_000_000 ∷ []) calling-IsValid

run_fresh-IsValid_example :
    IsValid (run (connect 41000 [] 80 7 1000).0 (polls 600_000_000 ∷ [])).0
    × IsValid (run (open_listen 41000 7) (polls 600_000_000 ∷ [])).0
run_fresh-IsValid_example = run_fresh-IsValid 41000 [] 80 7 1000 (polls 600_000_000 ∷ [])

abbrev after_resend : TcpSocket
unfolding poll
after_resend = (poll calling 600_000_000).0

abbrev syn_again : TxSeg
syn_again = record { seq = 7; ack = 0; flags = 2; payload_len = 0; slot = 0 }

resent : poll calling 600_000_000 ≡ (after_resend, some syn_again)
unfolding poll calling nexo_os.Net.Tcp.Transmit.oldest nexo_os.Net.Tcp.Transmit.pick
resent = refl

calling_open : calling.state ≢ closed
unfolding calling
calling_open = ground arith

too_early : poll calling 2000 ≡ (calling, none)
unfolding poll calling nexo_os.Net.Tcp.Transmit.oldest nexo_os.Net.Tcp.Transmit.pick
too_early = refl

-- An open connection, whose peer writes three bytes from number 100 on.
abbrev talking : TcpSocket
unfolding blank
talking = record (blank 41000 7) { state = established; rcv_nxt = 100 }

abbrev letters : List ℕ
letters = 0x61 ∷ 0x62 ∷ 0x63 ∷ []

abbrev late : Segment
late = record { src_port = 80; seq = 101; ack = 8; flags = 0x11; payload = 0x62 ∷ 0x63 ∷ [] }

abbrev early : Segment
early = record { src_port = 80; seq = 100; ack = 8; flags = 0x10; payload = 0x61 ∷ [] }

late-IsHonest : IsHonest letters 100 late
late-IsHonest = record {
  offset = 1;
  fits = omega arith;
  piece = refl;
  number = refl;
  last = inr refl;
}

early-IsHonest : IsHonest letters 100 early
early-IsHonest = record {
  offset = 0;
  fits = omega arith;
  piece = refl;
  number = refl;
  last = inl refl;
}

-- The second segment arrives first, and again after the first.
abbrev arrivals : List Op
arrivals = segment late ∷ segment early ∷ reads 10 ∷ segment late ∷ []

run_delivers_example :
    (n : ℕ) × (n ≤ length letters)
    × ((run talking arrivals).1 ++ (run talking arrivals).0.rx ≡ take n letters)
    × (((run talking arrivals).0.peer_closed ≡ false) ⊎ (n ≡ length letters))
unfolding talking
run_delivers_example =
    run_delivers letters 100 talking arrivals (omega arith) refl refl refl refl
      (late-IsHonest, (early-IsHonest, (tt, (late-IsHonest, tt))))
