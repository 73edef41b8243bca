-- ===== src/Timers/Ticks.antt =====
-- What a tick of kernel/src/timer.rs fires, and when the next is due.
use nexo_os.Prelude.{
  ℕ, suc, ◌≤◌, ◌<◌, ◌≡◌, refl, ap, sym, ◌∙◌, List, [], ◌∷◌, ◌++◌, map, Option, none, some, arith,
  inl, inr, get_elem?, ltb, ◌==◌, if◌then◌else◌, All, Bool-cases,
}
use mathlib.Core.List.{append-nil, append_assoc, Perm, perm_middle}
use mathlib.Core.List.Perm
use nexo_os.Timers.{
  Pending, Fired, Timers, insert, next_deadline_after, expire, insert_all, on_tick, fire, renew,
}
use nexo_os.Timers.Order.{From, Sorted}

-- The timers that are due, and the others.
abbrev pub due : ℕ → List Pending → List Pending
due now [] = []
due now (p ∷ ps) = if ltb now p.deadline_ns then due now ps else p ∷ due now ps

abbrev pub later : ℕ → List Pending → List Pending
later now [] = []
later now (p ∷ ps) = if ltb now p.deadline_ns then p ∷ later now ps else later now ps

abbrev pub periodic : List Pending → List Pending
periodic [] = []
periodic (p ∷ ps) = if p.period_ns == 0 then periodic ps else p ∷ periodic ps

none_due :
    (now d : ℕ) (ps : List Pending) → now < d → From d ps → (due now ps ≡ []) × (later now ps ≡ ps)
none_due now d [] h f = (refl, refl)
none_due now d (p ∷ ps) h f =
    let r = none_due now d ps h f.1 in
    elim (Bool-cases (ltb now p.deadline_ns)) [
      | inl c ↦ rw c (r.0, ap (λ qs. p ∷ qs) r.1)
      | inr c ↦ ground (arith, f.0)
    ]

expire_lem :
    (now : ℕ) (ps : List Pending) (fired : List Fired) (requeue : List Pending)
    → Sorted ps
    → let (left, shots, again) = expire now ps fired requeue in
      (left ≡ later now ps)
      × (shots ≡ fired ++ map fire (due now ps))
      × (again ≡ requeue ++ map renew (periodic (due now ps)))
unfolding expire
expire_lem now [] fired requeue s = (refl, sym (append-nil fired), sym (append-nil requeue))
expire_lem now (p ∷ ps) fired requeue s = elim (Bool-cases (ltb now p.deadline_ns)) [
  | inl c ↦
      let n = none_due now p.deadline_ns ps (ground arith) s.0 in
      rw (c, n.0, n.1) (refl, sym (append-nil fired), sym (append-nil requeue))
  | inr c ↦ elim (Bool-cases (p.period_ns == 0)) [
    | inl z ↦
        let r = expire_lem now ps (fired ++ fire p ∷ []) requeue s.1 in
        rw (c, z) (r.0, r.1 ∙ append_assoc fired _ _, r.2)
    | inr z ↦
        let r = expire_lem now ps (fired ++ fire p ∷ []) (requeue ++ renew p ∷ []) s.1 in
        rw (c, z) (r.0, r.1 ∙ append_assoc fired _ _, r.2 ∙ append_assoc requeue _ _)
  ]
]

insert-Perm : (ps : List Pending) (p : Pending) → Perm (insert ps p) (p ∷ ps)
unfolding insert
insert-Perm [] p = Perm.refl (p ∷ [])
insert-Perm (q ∷ qs) p =
    let r = insert-Perm qs p in
    elim (Bool-cases (ltb p.deadline_ns q.deadline_ns)) [
      | inl c ↦ rw c (Perm.refl (p ∷ q ∷ qs))
      | inr c ↦ rw c (Perm.trans (Perm.cons q r) (Perm.swap p q qs))
    ]

insert_all-Perm : (ps qs : List Pending) → Perm (insert_all ps qs) (ps ++ qs)
unfolding insert_all
insert_all-Perm ps [] = rw append-nil (Perm.refl ps)
insert_all-Perm ps (q ∷ qs) =
    let moved : Perm (insert ps q ++ qs) (q ∷ ps ++ qs) = Perm.append_right qs (insert-Perm ps q) in
    Perm.trans (insert_all-Perm (insert ps q) qs) (Perm.trans moved (Perm.symm (perm_middle ps qs)))

-- With the pending timers in order, a tick fires every one that is due and no other, in the order of
-- their deadlines and behind what was fired before. What stays pending is every timer that was not
-- due and the next shot of every periodic one that was.
pub on_tick_lem :
    (t : Timers) (now : ℕ)
    → Sorted t.pending
    → let t' = on_tick t now in
      (t'.fired ≡ t.fired ++ map fire (due now t.pending))
      × Perm t'.pending (later now t.pending ++ map renew (periodic (due now t.pending)))
      × (t'.next_id ≡ t.next_id)
unfolding on_tick
on_tick_lem t now s =
    let (left, shots, again) = expire_lem now t.pending t.fired [] s in
    (
      shots,
      rw (left, again)
          (insert_all-Perm (later now t.pending) (map renew (periodic (due now t.pending)))),
      refl,
    )

-- What the next deadline must be.
abbrev pub Next : List Pending → ℕ → Option ℕ → Type 0
Next ps now none = All (λ p. p.deadline_ns ≤ now) ps
Next ps now (some d) =
    (now < d)
    × ((i : ℕ) × (p : Pending) × (get_elem? ps i ≡ some p) × (p.deadline_ns ≡ d))
    × All (λ p. now < p.deadline_ns → d ≤ p.deadline_ns) ps

future_bound :
    (now d : ℕ) (ps : List Pending)
    → From d ps
    → All (λ p. now < p.deadline_ns → d ≤ p.deadline_ns) ps
future_bound now d [] f = tt
future_bound now d (p ∷ ps) f = (λ h. f.0, future_bound now d ps f.1)

Next-past :
    (p : Pending) (ps : List Pending) (now : ℕ) (o : Option ℕ)
    → p.deadline_ns ≤ now
    → Next ps now o
    → Next (p ∷ ps) now o
Next-past p ps now none h n = (h, n)
Next-past p ps now (some d) h (l, (i, q, e, f), b) = (l, (suc i, q, e, f), (λ g. omega arith, b))

-- With the pending timers in order, the deadline to program next is the earliest that is still to
-- come: it is that of a pending timer, in the future, and no other future deadline comes before it;
-- and there is none exactly when no pending timer is in the future.
pub next_deadline_after_lem :
    (ps : List Pending) (now : ℕ) → Sorted ps → Next ps now (next_deadline_after ps now)
unfolding next_deadline_after
next_deadline_after_lem [] now s = tt
next_deadline_after_lem (p ∷ ps) now s =
    let r = next_deadline_after_lem ps now s.1 in
    elim (Bool-cases (ltb now p.deadline_ns)) [
      | inl c ↦
          let h : now < p.deadline_ns = ground arith in
          rw c (h, (0, p, refl, refl), (λ g. omega arith, future_bound now p.deadline_ns ps s.0))
      | inr c ↦ rw c (Next-past p ps now (next_deadline_after ps now) (ground arith) r)
    ]
