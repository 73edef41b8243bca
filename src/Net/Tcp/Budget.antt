-- ===== src/Net/Tcp/Budget.antt =====
-- How often the timer of libraries/net/src/tcp.rs can send before it gives up.
use nexo_os.Prelude.{
  ℕ, zero, suc, ◌+◌, ◌-◌, ◌*◌, ◌≤◌, ◌≡◌, ◌≢◌, refl, ap, true, false, List, [], ◌∷◌, Option, none,
  some, arith, length, get_elem?, set, length-set, if◌then◌else◌, Bool-cases, inl, inr,
}
use nexo_os.Net.Tcp.{closed, state_eq, max_retries, rto_ns, TxSeg, TxPend, TcpSocket, tx_slots}
use nexo_os.Net.Tcp.Transmit.{poll}
use nexo_os.Net.Tcp.Inv.{IsValid}
use nexo_os.Net.Tcp.Retransmit.{Resent, poll-Resent, poll_quiet}

-- How often the segments of a list may still be repeated.
budget : List TxPend → ℕ
budget [] = 0
budget (p ∷ ps) = (max_retries - p.retries) + budget ps

budget-set :
    (ps : List TxPend) (k : ℕ) (p q : TxPend)
    → get_elem? ps k ≡ some p
    → budget (set ps k q) + (max_retries - p.retries) ≡ budget ps + (max_retries - q.retries)
unfolding budget
budget-set [] k p q e = cc
budget-set (r ∷ ps) zero p q e = ground arith
budget-set (r ∷ ps) (suc k) p q e = omega (arith, budget-set ps k p q e)

budget-le : (ps : List TxPend) → budget ps ≤ max_retries * length ps
unfolding budget
budget-le [] = omega arith
budget-le (p ∷ ps) = omega (arith, budget-le ps)

-- One when the timer sent something.
abbrev emitted : Option TxSeg → ℕ
emitted none = 0
emitted (some seg) = 1

-- The segments that the timer sends when it is run at the given times and nothing else happens.
unfoldable pub resends : TcpSocket → List ℕ → ℕ
resends s [] = 0
resends s (now ∷ times) = let (s', out) = poll s now in emitted out + resends s' times

-- What the timer may still send; a closed socket sends nothing.
room : TcpSocket → ℕ
room s = if state_eq s.state closed then 0 else budget s.pend

state_eq_closed : (s : TcpSocket) → state_eq s.state closed ≡ false → s.state ≢ closed
state_eq_closed s h e = ground (arith, ap (λ st. state_eq st closed) e)

poll_closed : (s : TcpSocket) (now : ℕ) → state_eq s.state closed ≡ true → poll s now ≡ (s, none)
unfolding poll
poll_closed s now h = ground arith

-- What one run of the timer leaves: as many slots, and less room if something was sent.
abbrev Spends : TcpSocket → TcpSocket → ℕ → Type 0
Spends s s' n = (length s'.pend ≡ tx_slots) × (room s' + n ≤ room s)

quiet-Spends :
    (s : TcpSocket) (now : ℕ) (s' : TcpSocket)
    → poll s now ≡ (s', none)
    → length s.pend ≡ tx_slots
    → Spends s s' 0
unfolding room
quiet-Spends s now s' e l = elim (Bool-cases (state_eq s.state closed)) [
  | inl c ↦ let k = poll_closed s now c in let q : s' ≡ s = cc in rw q (l, omega arith)
  | inr c ↦ elim (poll_quiet s now (state_eq_closed s c) e) [
    | inl (q, due) ↦ rw q (l, omega arith)
    | inr (k, p, a, d, r, q) ↦ rw q (refl, omega arith)
  ]
]

abbrev again : ℕ → TxPend → TxPend
again now p = record p { retries = p.retries + 1; deadline = now + rto_ns }

budget-Resent :
    (s s' : TcpSocket) (now : ℕ) (seg : TxSeg) (k : ℕ) (p : TxPend)
    → Resent s s' now seg k p
    → (length s'.pend ≡ length s.pend) × (budget s'.pend + 1 ≡ budget s.pend)
budget-Resent s s' now seg k p r =
    let b = budget-set s.pend k p (again now p) r.pending in
    let a = r.allowed in rw (r.noted) (length-set s.pend k (again now p), omega arith)

resent-Spends :
    (s : TcpSocket) (now : ℕ) (s' : TcpSocket) (seg : TxSeg)
    → poll s now ≡ (s', some seg)
    → length s.pend ≡ tx_slots
    → Spends s s' 1
unfolding room
resent-Spends s now s' seg e l = elim (Bool-cases (state_eq s.state closed)) [
  | inl c ↦ let k = poll_closed s now c in absurd (ground arith)
  | inr c ↦
      let (k, p, r) = poll-Resent s now e in
      let b = budget-Resent s s' now seg k p r in ground arith
]

poll-Spends :
    (s : TcpSocket) (now : ℕ) (r : TcpSocket × Option TxSeg)
    → poll s now ≡ r
    → length s.pend ≡ tx_slots
    → Spends s r.0 (emitted r.1)
poll-Spends s now (s', none) e l = quiet-Spends s now s' e l
poll-Spends s now (s', some seg) e l = resent-Spends s now s' seg e l

resends-le-room :
    (s : TcpSocket) (times : List ℕ) → length s.pend ≡ tx_slots → resends s times ≤ room s
unfolding resends
resends-le-room s [] l = omega arith
resends-le-room s (now ∷ times) l =
    let p = poll-Spends s now (poll s now) refl l in
    omega (arith, resends-le-room (poll s now).0 times p.0)

-- A socket whose peer stays silent sends at most twenty retransmissions, however often and
-- whenever the timer runs: five for each of its four slots.
pub resends_bounded : (s : TcpSocket) (times : List ℕ) → IsValid s → resends s times ≤ 20
resends_bounded s times v =
    let l = v.slots in
    let m : room s ≤ budget s.pend = unfold room in ground arith in
    omega (arith, resends-le-room s times l, budget-le s.pend)
