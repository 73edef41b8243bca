-- ===== src/Nexofs/Blocks/Paths.antt =====
-- How `split_parent` of libraries/nexofs/src/lib.rs takes a path apart.
use mathlib.Core.Path.{ap₂}
use nexo_os.Prelude.{
  ℕ, suc, ◌≤◌, ◌≡◌, refl, subst, ap, ◌⊎◌, inl, inr, false, List, [], ◌∷◌, ◌++◌, some, Result, ok,
  ◌>>=◌, arith, ◌==◌, Bool-cases, Option-cases, Result-cases, length, replicate,
}
use nexo_os.Nexofs.{name_max, FsError}
use nexo_os.Nexofs.Codec.{same_bytes}
use nexo_os.Nexofs.Blocks.{
  slash, dot, has_byte, valid_name, trim_step, trim, cut_last, halves, split_parent,
}

-- A name that may be given: neither empty nor too long, without a slash, and not of dots alone.
pub record IsName (text : List ℕ) : Type 0 where
  pub filled : 1 ≤ length text
  pub short : length text ≤ name_max
  pub no_slash : has_byte slash text ≡ false
  pub not_dot : same_bytes text (dot ∷ []) ≡ false
  pub not_dots : same_bytes text (dot ∷ dot ∷ []) ≡ false

valid_name-IsName : (text : List ℕ) → valid_name text ≡ ok tt → IsName text
unfolding valid_name
valid_name-IsName text e = record {
  filled = ground arith;
  short = ground arith;
  no_slash = ground arith;
  not_dot = ground arith;
  not_dots = ground arith;
}

-- Only slashes are cut off at the end.
abbrev IsTrimmed : List ℕ → List ℕ → Type 0
IsTrimmed cs rest = (k : ℕ) × (cs ≡ rest ++ replicate k slash)

trim_step-IsTrimmed :
    (c : ℕ) (cs rest : List ℕ) → IsTrimmed cs rest → IsTrimmed (c ∷ cs) (trim_step c rest)
unfolding trim_step
trim_step-IsTrimmed c cs [] (k, e) = elim (Bool-cases (c == slash)) [
  | inl h ↦ let q : c ≡ slash = ground arith in rw h (suc k, ap₂ (λ a b. a ∷ b) q e)
  | inr h ↦ rw h (k, ap (λ b. c ∷ b) e)
]
trim_step-IsTrimmed c cs (d ∷ ds) (k, e) = (k, ap (λ b. c ∷ b) e)

trim-IsTrimmed : (cs : List ℕ) → IsTrimmed cs (trim cs)
unfolding trim
trim-IsTrimmed [] = (0, refl)
trim-IsTrimmed (c ∷ cs) = trim_step-IsTrimmed c cs (trim cs) (trim-IsTrimmed cs)

cut_last_lem :
    (cs parent text : List ℕ) → cut_last cs ≡ some (parent, text) → cs ≡ parent ++ slash ∷ text
unfolding cut_last
cut_last_lem [] parent text e = ground arith
cut_last_lem (c ∷ cs) parent text e = elim (Option-cases (cut_last cs)) [
  | inl n ↦ elim (Bool-cases (c == slash)) [ inl h ↦ ground arith | inr h ↦ ground arith ]
  | inr ((p, t), n) ↦
      let q = cut_last_lem cs p t n in
      let same : parent ≡ c ∷ p = ground arith in
      let same' : text ≡ t = ground arith in rw (same, same', ← q)
]

-- The halves of a path: joined by a slash, or a name alone.
abbrev AreHalves : List ℕ → List ℕ × List ℕ → Type 0
AreHalves cs (parent, text) = (cs ≡ parent ++ slash ∷ text) ⊎ ((parent ≡ []) × (cs ≡ text))

halves-AreHalves : (cs : List ℕ) → AreHalves cs (halves cs)
unfolding halves
halves-AreHalves cs = elim (Option-cases (cut_last cs)) [
  | inl n ↦ rw (halves, n) (inr (refl, refl))
  | inr ((p, t), n) ↦ rw (halves, n) (inl (cut_last_lem cs p t n))
]

abbrev both : List ℕ × List ℕ → Unit {0} → Result FsError (List ℕ × List ℕ)
both (p, t) u = ok (p, t)

split_ok :
    (pair : List ℕ × List ℕ) (parent text : List ℕ)
    → (valid_name pair.1 >>= both pair) ≡ ok (parent, text)
    → (pair ≡ (parent, text)) × (valid_name text ≡ ok tt)
split_ok (p, t) parent text e = elim (Result-cases (valid_name t)) [
  | inl (u, v) ↦ let q : t ≡ text = ground arith in (ground arith, rw (← q) v)
  | inr (x, v) ↦ ground arith
]

joined :
    (path trimmed parent text : List ℕ) (k : ℕ)
    → path ≡ trimmed ++ replicate k slash
    → AreHalves trimmed (parent, text)
    → (path ≡ (parent ++ slash ∷ text) ++ replicate k slash)
      ⊎ ((parent ≡ []) × (path ≡ text ++ replicate k slash))
joined path trimmed parent text k t (inl h) = inl (rw (← h) t)
joined path trimmed parent text k t (inr (n, h)) = inr (n, rw (← h) t)

-- A path that `split_parent` accepts is the parent, a slash and the name, or the name alone, with
-- slashes after it; and the name may be given.
pub split_parent_lem :
    (path parent text : List ℕ)
    → split_parent path ≡ ok (parent, text)
    → ((k : ℕ) × ((path ≡ (parent ++ slash ∷ text) ++ replicate k slash)
          ⊎ ((parent ≡ []) × (path ≡ text ++ replicate k slash))))
      × IsName text
unfolding split_parent
split_parent_lem path parent text e =
    let (same, w) = split_ok (halves (trim path)) parent text e in
    let (k, t) = trim-IsTrimmed path in
    let h : AreHalves (trim path) (parent, text) =
      subst (AreHalves (trim path)) same (halves-AreHalves (trim path)) in
    ((k, joined path (trim path) parent text k t h), valid_name-IsName text w)
