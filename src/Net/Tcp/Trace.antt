-- ===== src/Net/Tcp/Trace.antt =====
-- Sequences of calls of a socket of libraries/net/src/tcp.rs, and what they keep.
use nexo_os.Prelude.{ℕ, Bool, List, [], ◌∷◌, ◌++◌, Result, ok, err, Result-cases, inl, inr}
use nexo_os.Net.Tcp.{Segment, TxSeg, TcpSocket, connect, open_listen, on_syn}
use nexo_os.Net.Tcp.Receive.{on_segment}
use nexo_os.Net.Tcp.Transmit.{send, close, poll, take_rx, window_update}
use nexo_os.Net.Tcp.Inv.{
  IsValid, on_segment-IsValid, send-IsValid, on_syn-IsValid, close-IsValid, poll-IsValid,
  take_rx-IsValid, window_update-IsValid, open_listen-IsValid, connect-IsValid,
}

pub data Op : Type 0 where
  syn : List ℕ → Segment → ℕ → Op
  segment : Segment → Op
  sends : List ℕ → ℕ → Op
  closes polls reads : ℕ → Op
  updates : Op

unfoldable pub sent : TcpSocket → Result Bool (TcpSocket × TxSeg) → TcpSocket
sent s (ok (s', seg)) = s'
sent s (err full) = s

-- The socket after a call, and the bytes that the call handed to the reader.
unfoldable pub step : TcpSocket → Op → TcpSocket × List ℕ
unfolding sent
step s (syn ip seg now) = ((on_syn s ip seg now).0, [])
step s (segment seg) = ((on_segment s seg).0, [])
step s (sends payload now) = (sent s (send s payload now), [])
step s (closes now) = ((close s now).0, [])
step s (polls now) = ((poll s now).0, [])
step s (reads n) = take_rx s n
step s updates = ((window_update s).0, [])

unfoldable pub run : TcpSocket → List Op → TcpSocket × List ℕ
run s [] = (s, [])
run s (op ∷ ops) = let (s', out) = step s op in let (s'', outs) = run s' ops in (s'', out ++ outs)

step-IsValid : (s : TcpSocket) (op : Op) → IsValid s → IsValid (step s op).0
unfolding step
step-IsValid s (syn ip seg now) v = on_syn-IsValid s ip seg now v
step-IsValid s (segment seg) v = on_segment-IsValid s seg v
step-IsValid s (sends payload now) v = elim (Result-cases (send s payload now)) [
  | inl (r, e) ↦ rw e (send-IsValid s payload now r v e)
  | inr (full, e) ↦ rw e v
]
step-IsValid s (closes now) v = close-IsValid s now v
step-IsValid s (polls now) v = poll-IsValid s now v
step-IsValid s (reads n) v = take_rx-IsValid s n v
step-IsValid s updates v = window_update-IsValid s v

-- Every call keeps a valid socket valid: four slots and four buffers, no pending segment longer than
-- a segment may be or repeated more often than allowed, and no more received bytes than the receive
-- buffer holds.
pub run-IsValid : (s : TcpSocket) (ops : List Op) → IsValid s → IsValid (run s ops).0
unfolding run
run-IsValid s [] v = v
run-IsValid s (op ∷ ops) v = run-IsValid (step s op).0 ops (step-IsValid s op v)

-- A socket is valid after any calls on one that `connect` or `listen` made.
pub run_fresh-IsValid :
    (port : ℕ) (ip : List ℕ) (peer iss now : ℕ) (ops : List Op)
    → IsValid (run (connect port ip peer iss now).0 ops).0
      × IsValid (run (open_listen port iss) ops).0
run_fresh-IsValid port ip peer iss now ops = (
  run-IsValid _ ops (connect-IsValid port ip peer iss now),
  run-IsValid _ ops (open_listen-IsValid port iss),
)
