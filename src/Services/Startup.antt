-- ===== src/Services/Startup.antt =====
-- The rounds of libraries/svcdep/src/lib.rs end in an order or in a cycle.
use nexo_os.Prelude.{
  ℕ, zero, suc, ◌+◌, ◌≤◌, ◌<◌, ◌≡◌, refl, ap, sym, subst, ◌∙◌, Bool, true, false, not, ◌&&◌, List,
  [], ◌∷◌, ◌++◌, Option, none, some, Result, ok, err, arith, length, get_or, get_elem?, set, ltb,
  ◌==◌, Bool-cases, Option-cases, inl, inr, ◌⊎◌, length-append,
}
use nexo_os.Services.{
  Spec, position, DepErro, desconhecida, ciclo, duplicado, espaco, liberado, round, rounds, stuck,
}
use nexo_os.Services.Ready.{
  elem, InOrder, Tracks, mark-Tracks, marks, marks_le, marks_full, full_marks,
}

-- `ss` is what is left of `specs` from index `i` on.
abbrev From : List Spec → ℕ → List Spec → Type 0
From specs i ss =
    (i + length ss ≡ length specs) × ((k : ℕ) → get_elem? ss k ≡ get_elem? specs (i + k))

From-next :
    (specs : List Spec) (i : ℕ) (s : Spec) (ss : List Spec)
    → From specs i (s ∷ ss)
    → From specs (suc i) ss
From-next specs i s ss f =
    (omega (arith, f.0), λ k. f.1 (suc k) ∙ ap (get_elem? specs) (omega arith))

From-head :
    (specs : List Spec) (i : ℕ) (s : Spec) (ss : List Spec)
    → From specs i (s ∷ ss)
    → get_elem? specs i ≡ some s
From-head specs i s ss f = sym (f.1 0 ∙ ap (get_elem? specs) (omega arith))

round-Tracks :
    (specs : List Spec) (i : ℕ) (ss : List Spec) (pronto : List Bool) (saida : List ℕ)
    → From specs i ss
    → Tracks specs pronto saida
    → let (pronto', saida') = round specs i ss pronto saida in
      Tracks specs pronto' saida' × (length saida ≤ length saida')
unfolding round
round-Tracks specs i [] pronto saida f t = (t, omega arith)
round-Tracks specs i (s ∷ ss) pronto saida f t =
    let next = From-next specs i s ss f in
    elim (Bool-cases (not (get_or pronto i false) && liberado specs pronto s.depende)) [
      | inr c ↦ rw (round, c) (round-Tracks specs (suc i) ss pronto saida next t)
      | inl c ↦
          let t' =
            mark-Tracks specs pronto saida i s t (From-head specs i s ss f) (omega (arith, f.0))
              (ground arith) (ground arith) in
          let (h, k) =
            round-Tracks specs (suc i) ss (set pronto i true) (saida ++ i ∷ []) next t' in
          rw (round, c) (h, omega (arith, k, length-append saida (i ∷ [])))
    ]

-- The service is ready, or something it depends on is not.
abbrev pub Held : List Spec → List Bool → ℕ → Spec → Type 0
Held specs pronto i s = (get_or pronto i false ≡ true) ⊎ (liberado specs pronto s.depende ≡ false)

Held-now :
    (specs : List Spec) (pronto : List Bool) (i : ℕ) (s : Spec)
    → (not (get_or pronto i false) && liberado specs pronto s.depende) ≡ false
    → Held specs pronto (i + 0) s
Held-now specs pronto i s c = let e : i + 0 ≡ i = omega arith in rw e (ground arith)

Held-all :
    (specs : List Spec) (pronto : List Bool) (i : ℕ) (s : Spec) (ss : List Spec)
    → Held specs pronto (i + 0) s
    → ((k : ℕ) (r : Spec) → get_elem? ss k ≡ some r → Held specs pronto (suc i + k) r)
    → (k : ℕ) (r : Spec) → get_elem? (s ∷ ss) k ≡ some r
    → Held specs pronto (i + k) r
Held-all specs pronto i s ss h hs zero r e = let q : s ≡ r = cc in rw⁻¹ q h
Held-all specs pronto i s ss h hs (suc k) r e =
    let q : i + suc k ≡ suc i + k = omega arith in rw q (hs k r e)

round_stuck :
    (specs : List Spec) (i : ℕ) (ss : List Spec) (pronto : List Bool) (saida : List ℕ)
    → From specs i ss
    → Tracks specs pronto saida
    → let (pronto', saida') = round specs i ss pronto saida in
      length saida' ≡ length saida
      → (pronto' ≡ pronto)
        × ((k : ℕ) (s : Spec) → get_elem? ss k ≡ some s → Held specs pronto (i + k) s)
unfolding round
round_stuck specs i [] pronto saida f t = λ e. (refl, λ k s h. absurd (ground arith))
round_stuck specs i (s ∷ ss) pronto saida f t =
    let next = From-next specs i s ss f in
    elim (Bool-cases (not (get_or pronto i false) && liberado specs pronto s.depende)) [
      | inr c ↦
          let head : Held specs pronto (i + 0) s = Held-now specs pronto i s c in
          rw (round, c)
            (λ e.
              let (same, held) = round_stuck specs (suc i) ss pronto saida next t e in
              (same, Held-all specs pronto i s ss head held))
      | inl c ↦
          let t' =
            mark-Tracks specs pronto saida i s t (From-head specs i s ss f) (omega (arith, f.0))
              (ground arith) (ground arith) in
          let (h, k) =
            round-Tracks specs (suc i) ss (set pronto i true) (saida ++ i ∷ []) next t' in
          rw (round, c) (λ e. absurd (omega (arith, k, e, length-append saida (i ∷ []))))
    ]

-- `d` is one of the names of the list.
abbrev pub Names : List (List ℕ) → List ℕ → Type 0
Names ds d = (k : ℕ) × (get_elem? ds k ≡ some d)

-- The service depends on a name for which the table has no service, or has as its first a service
-- that is not ready.
abbrev pub Blocked : List Spec → List Bool → Spec → Type 0
Blocked specs pronto s =
    (d : List ℕ) × Names s.depende d
    × ((position specs d ≡ none)
        ⊎ ((j : ℕ) × (position specs d ≡ some j) × (get_or pronto j false ≡ false)))

blocked_by :
    (specs : List Spec) (pronto : List Bool) (ds : List (List ℕ))
    → liberado specs pronto ds ≡ false
    → (d : List ℕ) × Names ds d
      × ((position specs d ≡ none)
          ⊎ ((j : ℕ) × (position specs d ≡ some j) × (get_or pronto j false ≡ false)))
unfolding liberado
blocked_by specs pronto [] h = absurd (ground arith)
blocked_by specs pronto (d ∷ ds) h = elim (Option-cases (position specs d)) [
  | inl e ↦ (d, (0, refl), inl e)
  | inr (j, e) ↦ elim (Bool-cases (get_or pronto j false)) [
    | inr f ↦ (d, (0, refl), inr (j, e, f))
    | inl f ↦ let (c, (k, n), w) = blocked_by specs pronto ds (ground arith) in (c, (suc k, n), w)
  ]
]

-- The stated set of services (those not ready) is not empty, holds the named one, and every service
-- of it depends on a name whose service is in the set, or that has no service.
abbrev pub Trapped : List Spec → List ℕ → Type 0
Trapped specs name =
    (pronto : List Bool) × ((i : ℕ) × (s : Spec) × (get_elem? specs i ≡ some s)
      × (s.nome ≡ name)
      × (get_or pronto i false ≡ false))
    × ((i : ℕ) (s : Spec)
        → get_elem? specs i ≡ some s
        → get_or pronto i false ≡ false
        → Blocked specs pronto s)

Held-Blocked :
    (specs : List Spec) (pronto : List Bool) (i : ℕ) (s : Spec)
    → Held specs pronto i s
    → get_or pronto i false ≡ false
    → Blocked specs pronto s
Held-Blocked specs pronto i s (inl r) n = absurd (ground arith)
Held-Blocked specs pronto i s (inr l) n = blocked_by specs pronto s.depende l

all_marked :
    (i : ℕ) (ss : List Spec) (pronto : List Bool)
    → get_or pronto i false ≡ true
    → ((k : ℕ) → k < length ss → get_or pronto (suc i + k) false ≡ true)
    → (k : ℕ) → k < suc (length ss)
    → get_or pronto (i + k) false ≡ true
all_marked i ss pronto c h zero b = let e : i + 0 ≡ i = omega arith in rw e c
all_marked i ss pronto c h (suc k) b =
    let e : i + suc k ≡ suc i + k = omega arith in rw e (h k (omega arith))

stuck_lem :
    (i : ℕ) (ss : List Spec) (pronto : List Bool)
    → let name = stuck i ss pronto in
      ((k : ℕ) → k < length ss → get_or pronto (i + k) false ≡ true)
      ⊎ ((k : ℕ) × (s : Spec) × (get_elem? ss k ≡ some s)
          × (s.nome ≡ name)
          × (get_or pronto (i + k) false ≡ false))
unfolding stuck
stuck_lem i [] pronto = inl (λ k h. absurd (omega arith))
stuck_lem i (s ∷ ss) pronto = elim (Bool-cases (get_or pronto i false)) [
  | inr c ↦ rw c (inr (0, s, refl, refl, let e : i + 0 ≡ i = omega arith in rw e c))
  | inl c ↦ elim (stuck_lem (suc i) ss pronto) [
    | inl h ↦ inl (all_marked i ss pronto c h)
    | inr (k, r, e, n, g) ↦
        rw c (inr (suc k, r, e, n, let q : i + suc k ≡ suc i + k = omega arith in rw q g))
  ]
]

-- The order holds every service once, each behind all that it depends on.
abbrev pub Complete : List Spec → List ℕ → Type 0
Complete specs saida =
    InOrder specs [] saida
    × (length saida ≡ length specs)
    × ((i : ℕ) → i < length specs → elem i saida ≡ true)

done-Complete :
    (specs : List Spec) (pronto : List Bool) (saida : List ℕ)
    → Tracks specs pronto saida
    → length specs ≤ length saida
    → Complete specs saida
done-Complete specs pronto saida t h =
    let full : marks (length specs) pronto ≡ length specs =
      omega (arith, t.count, marks_le (length specs) pronto) in
    (
      t.order,
      omega (arith, t.count, full),
      λ i b. sym (t.same i) ∙ marks_full (length specs) pronto i full b,
    )

zero_add : (k : ℕ) → 0 + k ≡ k
zero_add k = omega arith

trap-Trapped :
    (specs : List Spec) (pronto : List Bool) (saida : List ℕ)
    → Tracks specs pronto saida
    → length saida < length specs
    → ((i : ℕ) (s : Spec) → get_elem? specs i ≡ some s → Held specs pronto i s)
    → Trapped specs (stuck 0 specs pronto)
trap-Trapped specs pronto saida t h held = elim (stuck_lem 0 specs pronto) [
  | inr (k, s, e, n, g) ↦ (
    pronto,
    (k, s, e, n, subst (λ i. get_or pronto i false ≡ false) (zero_add k) g),
    λ i s e n. Held-Blocked specs pronto i s (held i s e) n,
  )
  | inl all ↦ absurd (
      omega (
        arith,
        t.count,
        full_marks (length specs) pronto t.room
            (λ k b. subst (λ i. get_or pronto i false ≡ true) (zero_add k) (all k b)),
      ))
]

-- What a result of the loop over rounds means.
abbrev pub Verdict : List Spec → Option (Result DepErro (List ℕ)) → Type 0
Verdict specs none = ⊥
Verdict specs (some (ok saida)) = Complete specs saida
Verdict specs (some (err (ciclo name))) = Trapped specs name
Verdict specs (some (err (duplicado name))) = ⊥
Verdict specs (some (err (desconhecida s d))) = ⊥
Verdict specs (some (err espaco)) = ⊥

start-From : (specs : List Spec) → From specs 0 specs
start-From specs = (omega arith, λ k. ap (get_elem? specs) (sym (zero_add k)))

pub rounds-Verdict :
    (fuel : ℕ) (specs : List Spec) (pronto : List Bool) (saida : List ℕ)
    → Tracks specs pronto saida
    → length specs < fuel + length saida
    → Verdict specs (rounds fuel specs pronto saida)
unfolding rounds
rounds-Verdict zero specs pronto saida t h =
    absurd (omega (arith, h, t.count, marks_le (length specs) pronto))
rounds-Verdict (suc fuel) specs pronto saida t h =
    let (t', le) = round-Tracks specs 0 specs pronto saida (start-From specs) t in
    let (pronto', saida') = round specs 0 specs pronto saida in
    let held = round_stuck specs 0 specs pronto saida (start-From specs) t in
    elim (Bool-cases (ltb (length saida) (length specs))) [
      | inr c ↦ rw c (done-Complete specs pronto saida t (ground arith))
      | inl c ↦ elim (Bool-cases (length saida' == length saida)) [
        | inl e ↦
            let (same, held') = held (ground arith) in
            rw (c, e, same)
              (trap-Trapped specs pronto saida t (ground arith)
                (λ i s g. subst (λ k. Held specs pronto k s) (zero_add i) (held' i s g)))
        | inr e ↦ rw (c, e) (rounds-Verdict fuel specs pronto' saida' t' (ground arith))
      ]
    ]
