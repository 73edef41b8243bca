-- ===== src/Services/Ready.antt =====
-- What the rounds of libraries/svcdep/src/lib.rs keep: the marks of the services that are ready,
-- and the order written so far.
use nexo_os.Prelude.{
  ℕ, zero, suc, ◌+◌, ◌≤◌, ◌<◌, ◌≡◌, refl, ap, sym, ◌∙◌, Bool, true, false, ◌||◌, List, [], ◌∷◌,
  ◌++◌, some, arith, length, get_or, get_elem?, set, ◌==◌, if◌then◌else◌, All, Bool-cases,
  Option-cases, inl, inr, length-append, length-set, get_or-set_self, get_or-set_ne,
}
use mathlib.Core.List.{append_assoc, append-nil}
use nexo_os.Services.{Spec, position, liberado}

abbrev pub elem : ℕ → List ℕ → Bool
elem j [] = false
elem j (i ∷ is) = j == i || elem j is

-- The service that the dependency names stands in the list.
abbrev pub Met : List Spec → List ℕ → List ℕ → Type 0
Met specs before d = (j : ℕ) × (position specs d ≡ some j) × (elem j before ≡ true)

-- Service `i` is new, and all it depends on stands in the list.
abbrev pub Startable : List Spec → List ℕ → ℕ → Type 0
Startable specs before i =
    (s : Spec) × (get_elem? specs i ≡ some s)
    × (elem i before ≡ false)
    × All (Met specs before) s.depende

-- Every service of the second list can start once those before it have.
abbrev pub InOrder : List Spec → List ℕ → List ℕ → Type 0
InOrder specs before [] = Unit
InOrder specs before (i ∷ is) = Startable specs before i × InOrder specs (before ++ i ∷ []) is

pub InOrder-snoc :
    (specs : List Spec) (before is : List ℕ) (i : ℕ)
    → InOrder specs before is
    → Startable specs (before ++ is) i
    → InOrder specs before (is ++ i ∷ [])
InOrder-snoc specs before [] i o s = (rw⁻¹ (append-nil before) s, tt)
InOrder-snoc specs before (j ∷ is) i o s =
    (o.0, InOrder-snoc specs (before ++ j ∷ []) is i o.1 (rw (append_assoc before (j ∷ []) is) s))

elem_snoc : (j i : ℕ) (is : List ℕ) → elem j (is ++ i ∷ []) ≡ (elem j is || j == i)
elem_snoc j i [] = ground arith
elem_snoc j i (k ∷ is) = rw (elem_snoc j i is) (ground arith)

-- How many of the first `n` marks are set.
abbrev pub marks : ℕ → List Bool → ℕ
marks zero bs = 0
marks (suc n) [] = 0
marks (suc n) (b ∷ bs) = (if b then 1 else 0) + marks n bs

pub marks_le : (n : ℕ) (bs : List Bool) → marks n bs ≤ n
marks_le zero bs = omega arith
marks_le (suc n) [] = omega arith
marks_le (suc n) (b ∷ bs) = let r = marks_le n bs in ground arith

pub marks-set :
    (n : ℕ) (bs : List Bool) (i : ℕ)
    → i < n
    → i < length bs
    → get_or bs i false ≡ false
    → marks n (set bs i true) ≡ marks n bs + 1
marks-set zero bs i h k e = omega arith
marks-set (suc n) [] i h k e = omega arith
marks-set (suc n) (b ∷ bs) zero h k e = rw e (omega arith)
marks-set (suc n) (b ∷ bs) (suc i) h k e =
    let r = marks-set n bs i (omega arith) (omega arith) e in omega arith

pub marks_full :
    (n : ℕ) (bs : List Bool) (i : ℕ) → marks n bs ≡ n → i < n → get_or bs i false ≡ true
marks_full zero bs i h k = absurd (omega arith)
marks_full (suc n) [] i h k = absurd (omega arith)
marks_full (suc n) (b ∷ bs) zero h k = let r = marks_le n bs in ground arith
marks_full (suc n) (b ∷ bs) (suc i) h k =
    let r = marks_le n bs in marks_full n bs i (ground arith) (omega arith)

pub full_marks :
    (n : ℕ) (bs : List Bool)
    → n ≤ length bs
    → ((i : ℕ) → i < n → get_or bs i false ≡ true)
    → marks n bs ≡ n
full_marks zero bs h k = refl
full_marks (suc n) [] h k = absurd (omega arith)
full_marks (suc n) (b ∷ bs) h k =
    let r = full_marks n bs (omega arith) (λ i g. k (suc i) (omega arith)) in
    rw (k 0 (omega arith)) (omega (arith, r))

-- The marks are those of the services written, which are in order.
pub record Tracks (specs : List Spec) (pronto : List Bool) (saida : List ℕ) : Type 0 where
  pub room : length specs ≤ length pronto
  pub same : (j : ℕ) → get_or pronto j false ≡ elem j saida
  pub order : InOrder specs [] saida
  pub count : marks (length specs) pronto ≡ length saida

liberado-Met :
    (specs : List Spec) (pronto : List Bool) (saida : List ℕ) (ds : List (List ℕ))
    → ((j : ℕ) → get_or pronto j false ≡ elem j saida)
    → liberado specs pronto ds ≡ true
    → All (Met specs saida) ds
unfolding liberado
liberado-Met specs pronto saida [] h l = tt
liberado-Met specs pronto saida (d ∷ ds) h l = elim (Option-cases (position specs d)) [
  | inl e ↦ ground arith
  | inr (j, e) ↦
      let m : elem j saida ≡ true = ground (arith, h j) in
      ((j, e, m), liberado-Met specs pronto saida ds h (ground arith))
]

==_self : (i : ℕ) → (i == i) ≡ true
==_self i = ground arith

mark_same :
    (pronto : List Bool) (saida : List ℕ) (i : ℕ)
    → ((j : ℕ) → get_or pronto j false ≡ elem j saida)
    → i < length pronto
    → (j : ℕ) → get_or (set pronto i true) j false ≡ elem j (saida ++ i ∷ [])
mark_same pronto saida i h b j = elim (Bool-cases (j == i)) [
  | inl c ↦
      let e : j ≡ i = ground arith in
      rw (elem_snoc j i saida, c, e, get_or-set_self pronto i true false b) (ground arith)
  | inr c ↦
      let e : i ≡ j → ⊥ = ground arith in
      rw (elem_snoc j i saida, c, get_or-set_ne pronto i j true false e, h j) (ground arith)
]

-- Marking one more service that can start.
pub mark-Tracks :
    (specs : List Spec) (pronto : List Bool) (saida : List ℕ) (i : ℕ) (s : Spec)
    → Tracks specs pronto saida
    → get_elem? specs i ≡ some s
    → i < length specs
    → get_or pronto i false ≡ false
    → liberado specs pronto s.depende ≡ true
    → Tracks specs (set pronto i true) (saida ++ i ∷ [])
mark-Tracks specs pronto saida i s t e b f l = record {
  room = rw length-set t.room;
  same = mark_same pronto saida i t.same (let r = t.room in omega arith);
  order =
      InOrder-snoc specs [] saida i t.order
        (s, e, sym (t.same i) ∙ f, liberado-Met specs pronto saida s.depende t.same l);
  count =
      marks-set (length specs) pronto i b (let r = t.room in omega arith) f
      ∙ ap (λ n. n + 1) t.count
      ∙ sym (length-append saida (i ∷ []));
}
