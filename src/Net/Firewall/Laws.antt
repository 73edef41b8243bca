-- ===== src/Net/Firewall/Laws.antt =====
-- What the policy of libraries/net/src/firewall.rs lets through.
use nexo_os.Prelude.{
  ℕ, zero, suc, ◌+◌, ◌≤◌, ◌<◌, ◌≡◌, ◌≢◌, ◌⊎◌, min, bit_and, refl, ap, sym, ◌∙◌, Bool, true, false,
  ◌&&◌, ◌||◌, List, [], ◌∷◌, some, Result, ok, err, arith, length, length-set, get_elem?, set, take,
  leb, ltb, if◌then◌else◌, Bool-cases, inl, inr,
}
use nexo_os.Net.Firewall.{
  Rule, Profile, Deny, no_rule, protocol, dns, listen, max_rules, matches_addr, matches, add_rule,
  any, active, deny_for, allows_in, allows, mask, from_be_bytes,
}

-- One of the rules is as wanted, or none is.
abbrev pub Holds : (Rule → Bool) → List Rule → Type 0
Holds f rs = (i : ℕ) × (r : Rule) × (get_elem? rs i ≡ some r) × (f r ≡ true)

abbrev pub Never : (Rule → Bool) → List Rule → Type 0
Never f rs = (i : ℕ) (r : Rule) → get_elem? rs i ≡ some r → f r ≡ false

matches_le :
    (r : Rule) (ip : List ℕ) (port proto : ℕ)
    → matches_addr r ip ≡ false
    → matches r ip port proto ≡ false
unfolding matches
matches_le r ip port proto h = ground arith

-- The first bits of the address are those of the rule's, as many as its prefix says.
abbrev pub InNet : Rule → List ℕ → Type 0
InNet r ip =
    (r.prefix ≡ 0)
    ⊎ (bit_and (from_be_bytes 0 ip) (mask (min r.prefix 32))
        ≡ bit_and (from_be_bytes 0 r.base) (mask (min r.prefix 32)))

-- The rule covers the address, the port and the protocol.
abbrev pub Covers : Rule → List ℕ → ℕ → ℕ → Type 0
Covers r ip port proto =
    InNet r ip × (r.port_lo ≤ port) × (port ≤ r.port_hi) × (bit_and r.protos proto ≢ 0)

-- Some rule, and no rule, is as wanted.
abbrev pub Some : (Rule → Type 0) → List Rule → Type 0
Some P rs = (i : ℕ) × (r : Rule) × (get_elem? rs i ≡ some r) × P r

abbrev pub None : (Rule → Type 0) → List Rule → Type 0
None P rs = (i : ℕ) (r : Rule) → get_elem? rs i ≡ some r → ¬ P r

-- What each answer means, for the rules `rs` of a profile.
abbrev pub Answer : List Rule → List ℕ → ℕ → ℕ → Result {0, 0} Deny Unit → Type 0
Answer rs ip port proto (ok u) = Some (λ r. Covers r ip port proto) rs
Answer rs ip port proto (err protocol) =
    None (λ r. Covers r ip port proto) rs × Some (λ r. InNet r ip) rs
Answer rs ip port proto (err no_rule) = None (λ r. InNet r ip) rs
Answer rs ip port proto (err dns) = ⊥
Answer rs ip port proto (err listen) = ⊥

abbrev pub is_ok : Result {0, 0} Deny Unit → Bool
is_ok (ok u) = true
is_ok (err e) = false

-- The loop of `allows` is a search for a rule that matches.
allows_in-any :
    (p : Profile) (rs : List Rule) (ip : List ℕ) (port proto : ℕ)
    → allows_in p rs ip port proto
      ≡ (if any (λ r. matches r ip port proto) rs then ok tt else err (deny_for p ip))
unfolding allows_in
allows_in-any p [] ip port proto = refl
allows_in-any p (r ∷ rs) ip port proto =
    let e = allows_in-any p rs ip port proto in
    elim (Bool-cases (matches r ip port proto)) [ inl c ↦ rw c refl | inr c ↦ rw (c, e) refl ]

is_ok-allows :
    (p : Profile) (ip : List ℕ) (port proto : ℕ)
    → is_ok (allows p ip port proto) ≡ any (λ r. matches r ip port proto) (active p)
unfolding allows
is_ok-allows p ip port proto =
    let a = allows_in-any p (active p) ip port proto in
    elim (Bool-cases (any (λ r. matches r ip port proto) (active p))) [
      | inl c ↦ rw (a, c) refl
      | inr c ↦ rw (a, c) refl
    ]

-- As many rules as the array holds, at most all of them in force.
abbrev pub Fits : Profile → Type 0
Fits p = (length p.rules ≡ max_rules) × (p.count ≤ max_rules)

any_snoc :
    (f : Rule → Bool) (rs : List Rule) (n : ℕ) (r : Rule)
    → n < length rs
    → any f (take (suc n) (set rs n r)) ≡ (any f (take n rs) || f r)
any_snoc f [] n r h = absurd (omega arith)
any_snoc f (q ∷ qs) zero r h = ground arith
any_snoc f (q ∷ qs) (suc n) r h = let e = any_snoc f qs n r (omega arith) in ground (arith, e)

-- A rule more: the profile still fits, every destination that was allowed stays so, and of the
-- others exactly those that the new rule covers are allowed now. A full profile refuses the rule and
-- keeps what it allowed.
pub add_rule_lem :
    (p : Profile) (r : Rule) (ip : List ℕ) (port proto : ℕ)
    → Fits p
    → let (p', added) = add_rule p r in
      Fits p'
      × (added ≡ ltb p.count max_rules)
      × (is_ok (allows p' ip port proto)
          ≡ (is_ok (allows p ip port proto) || (added && matches r ip port proto)))
unfolding add_rule
add_rule_lem p r ip port proto (l, b) = elim (Bool-cases (leb max_rules p.count)) [
  | inl c ↦ rw c ((l, b), ground arith, ground arith)
  | inr c ↦
      let p' = record p { rules = set p.rules p.count r; count = p.count + 1 } in
      let n : p.count + 1 ≡ suc p.count = omega arith in
      let s = any_snoc (λ q. matches q ip port proto) p.rules p.count r (ground (arith, l)) in
      let after : is_ok (allows p' ip port proto)
          ≡ any (λ q. matches q ip port proto) (take (suc p.count) (set p.rules p.count r)) =
        rw⁻¹ n (is_ok-allows p' ip port proto) in
      let before = is_ok-allows p ip port proto in
      rw c (
        (length-set p.rules p.count r ∙ l, ground arith),
        ground arith,
        after ∙ s ∙ ap (λ u. u || matches r ip port proto) (sym before),
      )
]
