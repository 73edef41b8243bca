-- ===== src/Net/Tcp/Stream.antt =====
-- In-order delivery by the socket of libraries/net/src/tcp.rs: what the application reads is a
-- prefix of what the peer wrote, whatever the network loses, repeats or reorders.
use nexo_os.Prelude.{
  ℕ, zero, suc, ◌+◌, ◌%◌, ◌^◌, ◌≤◌, ◌<◌, ◌≡◌, refl, ap, sym, ◌∙◌, Bool, true, false, not, ◌&&◌,
  List, [], ◌∷◌, ◌++◌, arith, length, take, drop, ◌==◌, if◌then◌else◌, Bool-cases, inl, inr, ◌⊎◌,
}
use mathlib.Core.List.{append_assoc}
use nexo_os.Net.Tcp.{State, listen, syn_sent, Segment, TcpSocket, wrapping_add, tcp_fin, has}
use nexo_os.Net.Tcp.Receive.{is_empty, acceptable, append_rx, take_fin, settle_fin, receive}

take-nil : (n : ℕ) → take {A = ℕ} n [] ≡ []
take-nil zero = refl
take-nil (suc n) = refl

take-take-drop : (n m : ℕ) (xs : List ℕ) → take n xs ++ take m (drop n xs) ≡ take (n + m) xs
take-take-drop zero m xs = let e : m ≡ 0 + m = omega arith in ap (λ k. take k xs) e
take-take-drop (suc n) m [] = take-nil m ∙ sym (take-nil (suc n + m))
take-take-drop (suc n) m (x ∷ xs) =
    let e : suc (n + m) ≡ suc n + m = omega arith in
    ap (λ ys. x ∷ ys) (take-take-drop n m xs) ∙ ap (λ k. take k (x ∷ xs)) e

-- The states in which no SYN of the peer was taken yet.
abbrev pub awaits_syn : State → Bool
awaits_syn syn_sent = true
awaits_syn listen = true
awaits_syn _ = false

-- `stream` is what the peer writes, its first byte numbered `base`.
module _ (stream : List ℕ) (base : ℕ) where
  -- A segment of the peer: a piece of the stream under its number, with a FIN only at the end.
  pub record IsHonest (seg : Segment) : Type 0 where
    pub offset : ℕ
    pub fits : offset + length seg.payload ≤ length stream
    pub piece : seg.payload ≡ take (length seg.payload) (drop offset stream)
    pub number : seg.seq ≡ (base + offset) % 2 ^ 32
    pub last : (has seg.flags tcp_fin ≡ false) ⊎ (offset + length seg.payload ≡ length stream)

  -- The socket has `n` bytes of the stream, of which it holds those that were not read yet.
  pub record HasRead (s : TcpSocket) (got : List ℕ) : Type 0 where
    pub count : ℕ
    pub within : count ≤ length stream
    pub prefix : got ++ s.rx ≡ take count stream
    pub next : s.rcv_nxt ≡ (base + (count + (if s.peer_closed then 1 else 0))) % 2 ^ 32
    pub ended : (s.peer_closed ≡ false) ⊎ (count ≡ length stream)
    pub opened : awaits_syn s.state ≡ false

module _ (stream : List ℕ) (base : ℕ) (small : length stream + 1 < 2 ^ 32) where
  -- An honest segment that the socket takes continues what it has.
  in_order :
      (s : TcpSocket) (got : List ℕ) (seg : Segment)
      → (h : HasRead stream base s got) → (g : IsHonest stream base seg) → acceptable s seg ≡ true
      → (g.offset ≡ h.count) × (s.peer_closed ≡ false)
  in_order s got seg h g a =
      let e = h.ended in
      let n = h.next in
      let m = g.number in
      let f = g.fits in
      let w = h.within in
      let p : 0 < length seg.payload = nonempty seg.payload (ground arith) in ground arith
    where
      nonempty : (xs : List ℕ) → is_empty xs ≡ false → 0 < length xs
      nonempty [] q = absurd (ground arith)
      nonempty (x ∷ xs) q = omega arith

  pub append-HasRead :
      (s : TcpSocket) (got : List ℕ) (seg : Segment)
      → HasRead stream base s got
      → IsHonest stream base seg
      → acceptable s seg ≡ true
      → HasRead stream base (append_rx s seg.payload) got
  unfolding append_rx
  append-HasRead s got seg h g a =
      let (o, c) = in_order s got seg h g a in
      record {
        count = h.count + length seg.payload;
        within = let f = g.fits in omega arith;
        prefix =
            sym (append_assoc got s.rx seg.payload)
            ∙ ap (λ xs. xs ++ seg.payload) h.prefix
            ∙ ap (λ xs. take h.count stream ++ xs)
                (g.piece ∙ ap (λ k. take (length seg.payload) (drop k stream)) o)
            ∙ take-take-drop h.count (length seg.payload) stream;
        next =
            let n = h.next in
            rw c
              (let n' : s.rcv_nxt ≡ (base + (h.count + 0)) % 2 ^ 32 = ground arith in omega arith);
        ended = inl c;
        opened = h.opened;
      }

  -- A FIN that is next in order comes when the whole stream is there.
  fin_at :
      (s : TcpSocket) (got : List ℕ) (seg : Segment)
      → (h : HasRead stream base s got) → IsHonest stream base seg
      → (has seg.flags tcp_fin && wrapping_add seg.seq (length seg.payload) == s.rcv_nxt) ≡ true
      → (h.count ≡ length stream) × (s.peer_closed ≡ false)
  fin_at s got seg h g t =
      let e = h.ended in
      let n = h.next in let m = g.number in let l = g.last in let w = h.within in ground arith

  fin-HasRead :
      (s : TcpSocket) (got : List ℕ) (seg : Segment)
      → HasRead stream base s got
      → IsHonest stream base seg
      → HasRead stream base (take_fin s seg).0 got
  unfolding take_fin
  fin-HasRead s got seg h g =
      elim (Bool-cases
        (has seg.flags tcp_fin && wrapping_add seg.seq (length seg.payload) == s.rcv_nxt)) [
          | inr f ↦ rw f h
          | inl t ↦
              let (full, c) = fin_at s got seg h g t in
              rw t (record {
                count = h.count;
                within = h.within;
                prefix = h.prefix;
                next = let n = h.next in ground arith;
                ended = inr full;
                opened = ground arith;
              })
        ]

  settle-HasRead :
      (s : TcpSocket) (got : List ℕ)
      → HasRead stream base s got
      → HasRead stream base (settle_fin s) got
  unfolding settle_fin
  settle-HasRead s got h = record {
    count = h.count;
    within = h.within;
    prefix = ground (arith, h.prefix);
    next = ground (arith, h.next);
    ended = ground (arith, h.ended);
    opened = ground (arith, h.opened);
  }

  -- Only `rx`, the next number, the peer's end and the kind of state matter.
  pub same-HasRead :
      (s s' : TcpSocket) (got : List ℕ)
      → HasRead stream base s got
      → s'.rx ≡ s.rx
      → s'.rcv_nxt ≡ s.rcv_nxt
      → s'.peer_closed ≡ s.peer_closed
      → awaits_syn s'.state ≡ false
      → HasRead stream base s' got
  same-HasRead s s' got h x n p o = record {
    count = h.count;
    within = h.within;
    prefix = rw x h.prefix;
    next = rw (n, p) h.next;
    ended = rw p h.ended;
    opened = o;
  }

  data-HasRead :
      (s : TcpSocket) (got : List ℕ) (seg : Segment)
      → HasRead stream base s got
      → IsHonest stream base seg
      → HasRead stream base (if acceptable s seg then append_rx s seg.payload else s) got
  data-HasRead s got seg h g = elim (Bool-cases (acceptable s seg)) [
    | inl a ↦ rw a (append-HasRead s got seg h g a)
    | inr a ↦ rw a h
  ]

  pub receive-HasRead :
      (s : TcpSocket) (got : List ℕ) (seg : Segment)
      → HasRead stream base s got
      → IsHonest stream base seg
      → HasRead stream base (receive s seg).0 got
  receive-HasRead s got seg h g =
      let k = settle-HasRead _ got (fin-HasRead _ got seg (data-HasRead s got seg h g) g) in
      elim (Bool-cases (not (is_empty seg.payload) && not (seg.seq == s.rcv_nxt))) [
        | inl d ↦ unfold receive in rw d h
        | inr d ↦ unfold receive in rw d k
      ]
