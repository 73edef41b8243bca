-- ===== src/Net/Tcp/Retransmit.antt =====
-- The retransmission timer of libraries/net/src/tcp.rs (`poll`).
use nexo_os.Prelude.{
  ℕ, suc, ◌+◌, ◌≤◌, ◌<◌, ◌≡◌, ◌≢◌, refl, subst, true, not, ◌||◌, List, [], ◌∷◌, Option, none, some,
  arith, length, get_elem?, set, ltb, Bool-cases, inl, inr, ◌⊎◌,
}
use native.Mathlib.Decide.{ℕ_discrete}
use native.Mathlib.Nat.{add-zero}
use nexo_os.Net.Tcp.{closed, rto_ns, max_retries, wrapping_sub, TxSeg, TxPend, TcpSocket}
use nexo_os.Net.Tcp.Receive.{torn_down}
use nexo_os.Net.Tcp.Transmit.{pick, oldest, resend, poll}

-- A segment in flight whose deadline has passed.
abbrev pub IsDue : ℕ → TxPend → Type 0
IsDue now p = (p.used ≡ true) × (p.deadline ≤ now)

-- How far a segment lies behind the oldest unconfirmed number.
abbrev pub distance : ℕ → TxPend → ℕ
distance una p = wrapping_sub p.seq una

module _ (una now : ℕ) (at : ℕ → Option TxPend) where
  -- What the search has found among the slots below `i`.
  abbrev Best : ℕ → Option (ℕ × TxPend) → Type 0
  Best i none = (j : ℕ) (q : TxPend) → j < i → at j ≡ some q → IsDue now q → ⊥
  Best i (some (k, p)) =
      (at k ≡ some p)
      × IsDue now p
      × ((j : ℕ) (q : TxPend)
          → j < i
          → at j ≡ some q
          → IsDue now q
          → distance una p ≤ distance una q)

  -- What holds of the slots below `i` and of slot `i` holds below `i + 1`.
  up_to :
      (i : ℕ) (p : TxPend)
      → at i ≡ some p
      → (P : TxPend → Type 0) → P p
      → ((j : ℕ) (q : TxPend) → j < i → at j ≡ some q → P q)
      → (j : ℕ) (q : TxPend) → j < suc i
      → at j ≡ some q
      → P q
  up_to i p e P h b j q lt a = elim (ℕ_discrete i j) [
    | yes k ↦ let e' : at j ≡ some p = rw (← k) e in let pq : p ≡ q = cc in subst P pq h
    | no ne ↦ b j q (omega arith) a
  ]

  pick-Best :
      (i : ℕ) (best : Option (ℕ × TxPend)) (p : TxPend)
      → at i ≡ some p
      → Best i best
      → Best (suc i) (pick una now i best p)
  unfolding pick
  pick-Best i none p e b = elim (Bool-cases (not p.used || ltb now p.deadline)) [
    | inl t ↦ rw t (up_to i p e (λ q. IsDue now q → ⊥) (λ d. ground arith) b)
    | inr f ↦ rw f (
      e,
      ground arith,
      up_to i p e (λ q. IsDue now q → distance una p ≤ distance una q) (λ d. omega arith)
          (λ j q lt a d. absurd (b j q lt a d)),
    )
  ]
  pick-Best i (some (o, q)) p e b = elim (Bool-cases (not p.used || ltb now p.deadline)) [
    | inl t ↦ rw t (
      b.0,
      b.1,
      up_to i p e (λ r. IsDue now r → distance una q ≤ distance una r) (λ d. absurd (ground arith))
          (b.2),
    )
    | inr f ↦ elim (Bool-cases (ltb (wrapping_sub p.seq una) (wrapping_sub q.seq una))) [
      | inl c ↦
          let near : distance una p < distance una q = ground arith in
          rw (f, c)
            (
              e,
              ground arith,
              up_to i p e (λ r. IsDue now r → distance una p ≤ distance una r) (λ d. omega arith)
                  (λ j r lt a d. let k = b.2 j r lt a d in omega arith),
            )
      | inr c ↦
          rw (f, c)
            (
              b.0,
              b.1,
              up_to i p e (λ r. IsDue now r → distance una q ≤ distance una r) (λ d. ground arith)
                  (b.2),
            )
    ]
  ]

  oldest-Best :
      (i : ℕ) (best : Option (ℕ × TxPend)) (ps : List TxPend) (n : ℕ)
      → ((j : ℕ) (q : TxPend) → get_elem? ps j ≡ some q → at (i + j) ≡ some q)
      → n ≡ i + length ps
      → Best i best
      → Best n (oldest una now i best ps)
  unfolding oldest
  oldest-Best i best [] n h e b = let e' : n ≡ i = omega arith in rw e' b
  oldest-Best i best (p ∷ ps) n h e b =
      oldest-Best (suc i) (pick una now i best p) ps n
        (λ j q g. subst (λ k. at k ≡ some q) (omega arith) (h (suc j) q g)) (omega arith)
        (pick-Best i best p (subst (λ k. at k ≡ some p) (add-zero i) (h 0 p refl)) b)

-- The search over all slots.
search_lem :
    (s : TcpSocket) (now : ℕ)
    → Best s.snd_una now (get_elem? s.pend) (length s.pend) (oldest s.snd_una now 0 none s.pend)
search_lem s now =
    oldest-Best s.snd_una now (get_elem? s.pend) 0 none s.pend (length s.pend)
      (λ j q e. subst (λ k. get_elem? s.pend k ≡ some q) (omega arith) e) (omega arith)
      (λ j q lt. absurd (omega arith))

-- What the timer did in sending slot `k` again.
pub record Resent (s s' : TcpSocket) (now : ℕ) (seg : TxSeg) (k : ℕ) (p : TxPend) : Type 0 where
  pub pending : get_elem? s.pend k ≡ some p
  pub due : IsDue now p
  pub nearest :
      (j : ℕ) (q : TxPend)
      → j < length s.pend
      → get_elem? s.pend j ≡ some q
      → IsDue now q
      → distance s.snd_una p ≤ distance s.snd_una q
  pub allowed : p.retries < max_retries
  pub segment :
      seg ≡ record { seq = p.seq; ack = s.rcv_nxt; flags = p.flags; payload_len = p.len; slot = k }
  pub buffers_same : s'.tx ≡ s.tx
  pub noted : s'.pend ≡ set s.pend k (record p { retries = p.retries + 1; deadline = now + rto_ns })

resend-some :
    (s : TcpSocket) (now k : ℕ) (p : TxPend) (s' : TcpSocket) (seg : TxSeg)
    → Best s.snd_una now (get_elem? s.pend) (length s.pend) (some (k, p))
    → resend s now k p ≡ (s', some seg)
    → Resent s s' now seg k p
unfolding resend
resend-some s now k p s' seg b e = record {
  pending = b.0;
  due = b.1;
  nearest = b.2;
  allowed = ground arith;
  segment = ground arith;
  buffers_same = ground arith;
  noted = ground arith;
}

-- The search came back with nothing, or with a slot.
pub pair_cases :
    (o : Option (ℕ × TxPend)) → (o ≡ none) ⊎ ((k : ℕ) × (p : TxPend) × (o ≡ some (k, p)))
pair_cases none = inl refl
pair_cases (some (k, p)) = inr (k, p, refl)

-- The slot that the search finds is in flight and overdue.
pub oldest-IsDue :
    (s : TcpSocket) (now : ℕ) {k : ℕ} {p : TxPend}
    → oldest s.snd_una now 0 none s.pend ≡ some (k, p)
    → (get_elem? s.pend k ≡ some p) × IsDue now p
oldest-IsDue s now e =
    let b = subst (Best s.snd_una now (get_elem? s.pend) (length s.pend)) e (search_lem s now) in
    (b.0, b.1)

-- When the timer sends a segment it is one that is in flight and overdue, of those the one nearest
-- to the oldest unconfirmed number, and was repeated fewer than five times. It goes out with its
-- own number, flags and length, from an unchanged buffer; only its count and deadline change.
pub poll-Resent :
    (s : TcpSocket) (now : ℕ) {s' : TcpSocket} {seg : TxSeg}
    → poll s now ≡ (s', some seg)
    → (k : ℕ) × (p : TxPend) × Resent s s' now seg k p
unfolding poll
poll-Resent s now {s'} {seg} e = elim (pair_cases (oldest s.snd_una now 0 none s.pend)) [
  | inl f ↦ ground arith
  | inr (k, p, f) ↦
      let b : Best s.snd_una now (get_elem? s.pend) (length s.pend) (some (k, p)) =
        rw f at (search_lem s now) in
      (k, p, resend-some s now k p s' seg b (ground arith))
]

-- When the timer sends nothing on an open socket, either nothing in flight is overdue and the
-- socket is unchanged, or an overdue segment had been repeated five times and the connection is
-- torn down.
pub poll_quiet :
    (s : TcpSocket) (now : ℕ) {s' : TcpSocket}
    → s.state ≢ closed
    → poll s now ≡ (s', none)
    → ((s' ≡ s)
        × ((j : ℕ) (q : TxPend) → j < length s.pend → get_elem? s.pend j ≡ some q → ¬ IsDue now q))
      ⊎ ((k : ℕ) × (p : TxPend) × (get_elem? s.pend k ≡ some p)
          × IsDue now p
          × (max_retries ≤ p.retries)
          × (s' ≡ torn_down s))
unfolding poll
poll_quiet s now {s'} open_s e = elim (pair_cases (oldest s.snd_una now 0 none s.pend)) [
  | inl f ↦
      let b : Best s.snd_una now (get_elem? s.pend) (length s.pend) none =
        rw f at (search_lem s now) in
      inl (ground arith, b)
  | inr (k, p, f) ↦
      let b : Best s.snd_una now (get_elem? s.pend) (length s.pend) (some (k, p)) =
        rw f at (search_lem s now) in
      inr (k, p, b.0, b.1, ground arith, ground arith)
]
