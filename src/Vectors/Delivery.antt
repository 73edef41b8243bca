-- ===== src/Vectors/Delivery.antt =====
-- No interrupt of kernel/src/irq.rs is lost between a thread that waits and the three steps of the
-- interrupt, in whatever order the steps of all threads fall.
use nexo_os.Prelude.{
  ℕ, ◌+◌, ◌-◌, ◌%◌, ◌^◌, ◌≤◌, ◌<◌, ◌≡◌, refl, ◌∙◌, ◌⊎◌, inl, inr, true, List, [], ◌∷◌, ◌++◌, some,
  arith, length, ltb, ◌==◌, Bool-cases, get_or-set_self, get_or-set_ne, length-set, if◌then◌else◌,
}
use native.Mathlib.Decide.{ℕ_discrete}
use nexo_os.Scheduler.Queues
use nexo_os.Scheduler.Queues.{count-append}
use nexo_os.Ipc.Ends.{Ipc}
use nexo_os.Vectors.{
  Vectors, Act, turns, shoots, tells, wakes, frees, attaches, allocs, user_vector_base,
  user_vectors, is_user_vector, threads_of, waiting_elsewhere, wake, shoot, tell, free, alloc,
  attach_channel, act, run, on_interrupt, count, wait_turn,
}

-- The steps `xs` are among the steps `ys`, in this order.
abbrev pub Within : List Act → List Act → Type 0
Within [] ys = Unit
Within (x ∷ xs) [] = ⊥
Within (x ∷ xs) (y ∷ ys) = ((x ≡ y) × Within xs ys) ⊎ Within (x ∷ xs) ys

Within-tail : (x : Act) (xs ys : List Act) → Within (x ∷ xs) ys → Within xs ys
Within-tail x [] ys w = tt
Within-tail x (z ∷ xs) [] w = absurd w
Within-tail x (z ∷ xs) (y ∷ ys) (inl (e, w)) = inr w
Within-tail x (z ∷ xs) (y ∷ ys) (inr w) = inr (Within-tail x (z ∷ xs) ys w)

-- The first step falls into the first part, or all fall into the second.
Within-split :
    (x : Act) (xs ps bs : List Act)
    → Within (x ∷ xs) (ps ++ bs)
    → Within (x ∷ []) ps ⊎ Within (x ∷ xs) bs
Within-split x xs [] bs w = inr w
Within-split x xs (a ∷ ps) bs (inl (e, w)) = inl (inl (e, tt))
Within-split x xs (a ∷ ps) bs (inr w) = elim (Within-split x xs ps bs w) [
  | inl h ↦ inl (inr h)
  | inr h ↦ inr h
]

length-counts : (s : Vectors) (i : Ipc) (a : Act) → length (act s i a).0.counts ≡ length s.counts
unfolding act shoot tell wake free attach_channel wait_turn alloc
length-counts s i (turns v seen me) = ground arith
length-counts s i (shoots v) = length-set s.counts (v - user_vector_base) _
length-counts s i (tells v) = refl
length-counts s i (wakes v) = refl
length-counts s i (frees v) = ground arith
length-counts s i (attaches v e) = refl
length-counts s i allocs = ground arith

count-shoot :
    (s : Vectors) (u v : ℕ)
    → length s.counts ≡ user_vectors
    → is_user_vector v ≡ true
    → count s v + 1 < 2 ^ 64
    → let c = count (shoot s u) v in (count s v ≤ c) × (c ≤ count s v + 1) × (u ≡ v → count s v < c)
unfolding shoot is_user_vector
count-shoot s u v l h b = elim (ℕ_discrete (u - user_vector_base) (v - user_vector_base)) [
  | yes e ↦
      rw
        (
          e,
          get_or-set_self s.counts (v - user_vector_base) ((count s v + 1) % 2 ^ 64) 0
              (ground arith),
        )
        (omega arith, omega arith, λ q. omega arith)
  | no ne ↦
      rw
        (get_or-set_ne s.counts (u - user_vector_base) (v - user_vector_base)
          ((count s u + 1) % 2 ^ 64) 0 ne)
        (omega arith, omega arith, λ q. absurd (ne (rw q refl)))
]

-- A step counts at most one shot, and one of the vector if it is its shot.
count-act :
    (s : Vectors) (i : Ipc) (a : Act) (v : ℕ)
    → length s.counts ≡ user_vectors
    → is_user_vector v ≡ true
    → count s v + 1 < 2 ^ 64
    → let c = count (act s i a).0 v in
      (count s v ≤ c) × (c ≤ count s v + 1) × (shoots v ≡ a → count s v < c)
unfolding act tell wake free attach_channel wait_turn alloc
count-act s i (turns u seen me) v l h b = ground arith
count-act s i (shoots u) v l h b = ground (arith, count-shoot s u v l h b)
count-act s i (tells u) v l h b = (omega arith, omega arith, λ q. ground arith)
count-act s i (wakes u) v l h b = (omega arith, omega arith, λ q. ground arith)
count-act s i (frees u) v l h b = ground arith
count-act s i (attaches u e) v l h b = (omega arith, omega arith, λ q. ground arith)
count-act s i allocs v l h b = ground arith

-- How often a thread waits for a vector.
abbrev pub waiting : Vectors → ℕ → ℕ → ℕ
waiting s v t = Queues.count t (threads_of v s.waiters)

-- A wake for a vector takes those who wait for it, and no others.
woken_or_kept :
    (u v t : ℕ) (ws : List (ℕ × ℕ))
    → Queues.count t (threads_of v ws)
      ≤ Queues.count t (threads_of v (waiting_elsewhere u ws))
        + (if u == v then Queues.count t (threads_of u ws) else 0)
unfolding Queues.count
woken_or_kept u v t [] = omega arith
woken_or_kept u v t ((w, x) ∷ ws) = ground (arith, woken_or_kept u v t ws)

waiting-snoc :
    (v t : ℕ) (ws : List (ℕ × ℕ)) (w : ℕ × ℕ)
    → Queues.count t (threads_of v ws) ≤ Queues.count t (threads_of v (ws ++ w ∷ []))
unfolding Queues.count
waiting-snoc v t [] w = omega arith
waiting-snoc v t ((u, x) ∷ ws) w = ground (arith, waiting-snoc v t ws w)

waits_here : (v t : ℕ) (ws : List (ℕ × ℕ)) → 1 ≤ Queues.count t (threads_of v (ws ++ (v, t) ∷ []))
unfolding Queues.count
waits_here v t [] = ground arith
waits_here v t ((u, x) ∷ ws) = ground (arith, waits_here v t ws)

waiting-act :
    (s : Vectors) (i : Ipc) (a : Act) (v t : ℕ)
    → let (s', i', woken) = act s i a in waiting s v t ≤ waiting s' v t + Queues.count t woken
unfolding act shoot tell wake free attach_channel wait_turn alloc
waiting-act s i (turns u seen me) v t = ground (arith, waiting-snoc v t s.waiters (u, me))
waiting-act s i (shoots u) v t = omega arith
waiting-act s i (tells u) v t = omega arith
waiting-act s i (wakes u) v t = ground (arith, woken_or_kept u v t s.waiters)
waiting-act s i (frees u) v t = ground (arith, woken_or_kept u v t s.waiters)
waiting-act s i (attaches u e) v t = omega arith
waiting-act s i allocs v t = ground arith

-- Who waits is woken as soon as the wake of the vector comes, if not before.
heard :
    (s : Vectors) (i : Ipc) (v t : ℕ) (bs : List Act)
    → 1 ≤ waiting s v t
    → Within (wakes v ∷ []) bs
    → 1 ≤ Queues.count t (run s i bs).2
unfolding run
heard s i v t [] h w = absurd w
heard s i v t (b ∷ bs) h (inl (e, w)) =
    let woken : (act s i b).2 ≡ threads_of v s.waiters = unfold act wake in rw⁻¹ e refl in
    let later = (run (act s i b).0 (act s i b).1 bs).2 in
    let c = count-append t (threads_of v s.waiters) later in rw woken (omega (arith, c))
heard s i v t (b ∷ bs) h (inr w) =
    let s' = (act s i b).0 in
    let i' = (act s i b).1 in
    let woken = (act s i b).2 in
    let c = count-append t woken (run s' i' bs).2 in
    elim (Bool-cases (waiting s' v t == 0)) [
      | inl z ↦ ground (arith, waiting-act s i b v t, c)
      | inr p ↦ omega (arith, heard s' i' v t bs (ground arith) w, c)
    ]

-- Along a run without a wrap, the count does not go down, and goes up with a shot.
counted :
    (s : Vectors) (i : Ipc) (v : ℕ) (ps : List Act)
    → length s.counts ≡ user_vectors
    → is_user_vector v ≡ true
    → count s v + length ps < 2 ^ 64
    → let c = count (run s i ps).0 v in
      (count s v ≤ c) × (Within (shoots v ∷ []) ps → count s v < c)
unfolding run
counted s i v [] l h b = (omega arith, λ w. absurd w)
counted s i v (p ∷ ps) l h b =
    let (le, ge, up) = count-act s i p v l h (omega arith) in
    let (m, n) =
      counted (act s i p).0 (act s i p).1 v ps (length-counts s i p ∙ l) h (omega arith) in
    (
      omega arith,
      λ w. elim w [ inl q ↦ let k = up (q.0) in omega arith | inr q ↦ let k = n q in omega arith ],
    )

-- No interrupt of a user's vector is lost by a thread that waits for the next one, while the counter
-- does not wrap. Let the thread have seen the count of some state, and let an interrupt of the
-- vector happen after that: its steps fall, with steps of other threads and interrupts before,
-- between and behind, into what comes before the thread looks (`ps`) and what comes after (`bs`).
-- Then the thread returns a higher count than it had seen, or it is unparked afterwards.
pub wait-on_interrupt :
    (s : Vectors) (i : Ipc) (v me : ℕ) (ps bs : List Act)
    → length s.counts ≡ user_vectors
    → is_user_vector v ≡ true
    → count s v + length ps < 2 ^ 64
    → Within (on_interrupt v) (ps ++ turns v (count s v) me ∷ bs)
    → let (s', i', woken) = run s i ps in
      let (s'', out) = wait_turn s' v (count s v) (some me) in
      ((c : ℕ) × (out ≡ some c) × (count s v < c)) ⊎ (1 ≤ Queues.count me (run s'' i' bs).2)
unfolding on_interrupt wait_turn Queues.count
wait-on_interrupt s i v me ps bs l h b w =
    let (s', i', woken) = run s i ps in
    let m = counted s i v ps l h b in
    let rest = turns v (count s v) me ∷ bs in
    elim (Bool-cases (ltb (count s v) (count s' v))) [
      | inl c ↦ rw c (inl (count s' v, refl, ground arith))
      | inr c ↦ elim (Within-split (shoots v) (tells v ∷ wakes v ∷ []) ps rest w) [
        | inl k ↦ let up = m.1 k in absurd (ground arith)
        | inr k ↦
            let k' =
              Within-tail (tells v) (wakes v ∷ []) rest
                (Within-tail (shoots v) (tells v ∷ wakes v ∷ []) rest k) in
            rw c (
              inr (
                heard _ i' v me bs (waits_here v me s'.waiters)
                  (elim k' [ inl q ↦ absurd (ground (arith, q.0)) | inr q ↦ q ])))
      ]
    ]
