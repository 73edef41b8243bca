-- ===== src/Initrd/Laws.antt =====
-- What `parse` of kernel/lib/initrd/src/lib.rs makes sure of, and what `find` finds.
use nexo_os.Prelude.{
  ℕ, zero, suc, ◌+◌, ◌*◌, ◌≤◌, ◌<◌, ◌≡◌, ◌≢◌, refl, sym, subst, take, ap, ◌⊎◌, inl, inr, Bool, true,
  false, ◌||◌, List, Option, none, some, Result, ok, err, arith, length, ltb, ◌==◌, if◌then◌else◌,
  if_cases, Bool-cases, Option-cases,
}
use nexo_os.Initrd.{
  InitrdError, bad_magic, truncated, bad_entry, Initrd, Member, header_size, entry_size, same_bytes,
  u32_at, member, all_members, has_magic, parse, find_from, find, magic,
}
use nexo_os.Initrd.Members.{
  IsMember, number, member-IsMember, has_magic-take, u32_at-number, u32_at-none, same_bytes-eq,
  same_bytes_self,
}

-- Every member from `i` on can be read, or one cannot.
abbrev AllRead : (List ℕ → Bool) → Initrd → ℕ → ℕ → Bool → Type 0
AllRead utf8 ird i n true = (j : ℕ) → i ≤ j → j < i + n → member utf8 ird j ≢ none
AllRead utf8 ird i n false = (j : ℕ) × (i ≤ j) × (j < i + n) × (member utf8 ird j ≡ none)

later :
    (utf8 : List ℕ → Bool) (ird : Initrd) (i n : ℕ) (m : Member) (all : Bool)
    → member utf8 ird i ≡ some m
    → AllRead utf8 ird (suc i) n all
    → AllRead utf8 ird i (suc n) all
later utf8 ird i n m true e w = λ j a b. elim (Bool-cases (i == j)) [
  | inl q ↦ λ z. let same : i ≡ j = ground arith in ground (arith, ap (member utf8 ird) same)
  | inr q ↦ w j (ground arith) (omega arith)
]
later utf8 ird i n m false e (j, a, b, z) = (j, omega arith, omega arith, z)

all_members-AllRead :
    (utf8 : List ℕ → Bool) (ird : Initrd) (i n : ℕ)
    → AllRead utf8 ird i n (all_members utf8 ird i n)
unfolding all_members
all_members-AllRead utf8 ird i zero = λ j a b. absurd (omega arith)
all_members-AllRead utf8 ird i (suc n) = elim (Option-cases (member utf8 ird i)) [
  | inl e ↦ rw e (i, omega arith, omega arith, e)
  | inr (m, e) ↦ rw e (later utf8 ird i n m _ e (all_members-AllRead utf8 ird (suc i) n))
]

-- What `parse` may answer, in the words of its own tests.
abbrev Checked : (List ℕ → Bool) → List ℕ → Result InitrdError Initrd → Type 0
Checked utf8 b (ok ird) =
    (has_magic utf8 b ≡ true)
    × (ird.bytes ≡ b)
    × (u32_at b 8 ≡ some ird.count)
    × (ird.count ≤ 4096)
    × (header_size + ird.count * entry_size ≤ length b)
    × ((i : ℕ) → i < ird.count → member utf8 ird i ≢ none)
Checked utf8 b (err bad_magic) = has_magic utf8 b ≡ false
Checked utf8 b (err truncated) =
    (has_magic utf8 b ≡ true)
    × ((u32_at b 8 ≡ none)
        ⊎ ((n : ℕ) × (u32_at b 8 ≡ some n)
            × ((4096 < n) ⊎ (length b < header_size + n * entry_size))))
Checked utf8 b (err bad_entry) =
    (n : ℕ) × (i : ℕ) × (has_magic utf8 b ≡ true)
    × (u32_at b 8 ≡ some n)
    × (n ≤ 4096)
    × (header_size + n * entry_size ≤ length b)
    × (i < n)
    × (member utf8 (record { bytes = b; count = n }) i ≡ none)

entries-Checked :
    (utf8 : List ℕ → Bool) (b : List ℕ) (n : ℕ) (all : Bool)
    → has_magic utf8 b ≡ true
    → u32_at b 8 ≡ some n
    → n ≤ 4096
    → header_size + n * entry_size ≤ length b
    → AllRead utf8 (record { bytes = b; count = n }) 0 n all
    → Checked utf8 b (if all then ok (record { bytes = b; count = n }) else err bad_entry)
entries-Checked utf8 b n true m e h k w = (m, refl, e, h, k, λ i l. w i (omega arith) (omega arith))
entries-Checked utf8 b n false m e h k (j, a, l, z) = (n, j, m, e, h, k, omega arith, z)

bounds :
    (b : List ℕ) (n : ℕ)
    → (ltb 4096 n || ltb (length b) (header_size + n * entry_size)) ≡ true
    → (4096 < n) ⊎ (length b < header_size + n * entry_size)
bounds b n t = elim (Bool-cases (ltb 4096 n)) [
  | inl e ↦ inl (ground arith)
  | inr e ↦ inr (ground arith)
]

parse-Checked : (utf8 : List ℕ → Bool) (b : List ℕ) → Checked utf8 b (parse utf8 b)
unfolding parse
parse-Checked utf8 b = elim (Bool-cases (has_magic utf8 b)) [
  | inr m ↦ rw (parse, m) m
  | inl m ↦ elim (Option-cases (u32_at b 8)) [
    | inl e ↦ rw (parse, m, e) (m, inl e)
    | inr (n, e) ↦
        rw (parse, m, e)
          (if_cases (Checked utf8 b) (ltb 4096 n || ltb (length b) (header_size + n * entry_size)) _
            _ (λ t. (m, inr (n, e, bounds b n t)))
            λ t.
              entries-Checked utf8 b n _ m e (ground arith) (ground arith)
                (all_members-AllRead utf8 (record { bytes = b; count = n }) 0 n))
  ]
]

-- What `parse` may answer, as the bytes say: whether they begin with "NEXOIRD1", hold the header of
-- 16 bytes with the number of members in it and a table of 48 bytes for each, and what the entries
-- say. No member can be read at `i` if no name and contents are those of an entry there.
abbrev pub IsParsed : (List ℕ → Bool) → List ℕ → Result InitrdError Initrd → Type 0
IsParsed utf8 b (ok ird) =
    (take 8 b ≡ magic)
    × (ird.bytes ≡ b)
    × (ird.count ≡ number b 8 4)
    × (ird.count ≤ 4096)
    × (16 + ird.count * 48 ≤ length b)
    × ((i : ℕ) → i < ird.count → (m : Member) × IsMember utf8 b i m)
IsParsed utf8 b (err bad_magic) = take 8 b ≢ magic
IsParsed utf8 b (err truncated) =
    (take 8 b ≡ magic)
    × ((length b < 12) ⊎ ((4096 < number b 8 4) ⊎ (length b < 16 + number b 8 4 * 48)))
IsParsed utf8 b (err bad_entry) =
    (i : ℕ) × (take 8 b ≡ magic)
    × (number b 8 4 ≤ 4096)
    × (16 + number b 8 4 * 48 ≤ length b)
    × (i < number b 8 4)
    × ((m : Member) → ¬ IsMember utf8 b i m)

some_member :
    (utf8 : List ℕ → Bool) (ird : Initrd) (b : List ℕ) (i : ℕ)
    → ird.bytes ≡ b
    → member utf8 ird i ≢ none
    → (m : Member) × IsMember utf8 b i m
some_member utf8 ird b i q h = elim (Option-cases (member utf8 ird i)) [
  | inl e ↦ absurd (h e)
  | inr (m, e) ↦ (m, subst (λ c. IsMember utf8 c i m) q ((member-IsMember utf8 ird i m).0 e))
]

no_member :
    (utf8 : List ℕ → Bool) (ird : Initrd) (i : ℕ)
    → member utf8 ird i ≡ none
    → (m : Member) → ¬ IsMember utf8 ird.bytes i m
no_member utf8 ird i e m w = let q = (member-IsMember utf8 ird i m).1 w in absurd (ground arith)

Checked-IsParsed :
    (utf8 : List ℕ → Bool) (b : List ℕ) (r : Result InitrdError Initrd)
    → Checked utf8 b r
    → IsParsed utf8 b r
Checked-IsParsed utf8 b (ok ird) (m, q, n, l, k, w) =
    let (s, e) = (u32_at-number b 8 ird.count).0 n in
    ((has_magic-take utf8 b).0 m, q, sym e, l, k, λ i h. some_member utf8 ird b i q (w i h))
Checked-IsParsed utf8 b (err bad_magic) m = λ q. let h = (has_magic-take utf8 b).1 q in absurd (cc)
Checked-IsParsed utf8 b (err truncated) (m, inl e) =
    ((has_magic-take utf8 b).0 m, inl (u32_at-none b 8 e))
Checked-IsParsed utf8 b (err truncated) (m, inr (n, e, h)) =
    let (s, q) = (u32_at-number b 8 n).0 e in ((has_magic-take utf8 b).0 m, inr (rw q h))
Checked-IsParsed utf8 b (err bad_entry) (n, i, m, e, l, k, h, z) =
    let (s, q) = (u32_at-number b 8 n).0 e in
    let ird : Initrd = record { bytes = b; count = n } in
    (i, (has_magic-take utf8 b).0 m, rw q l, rw q k, rw q h, no_member utf8 ird i z)

-- `parse` accepts an archive exactly if it begins with the magic, its header and table are whole, for
-- at most 4096 members, and every entry says a member: its name is UTF-8 and its contents lie
-- in the archive. Each error names the first of these that does
-- not hold.
pub parse-IsParsed : (utf8 : List ℕ → Bool) (b : List ℕ) → IsParsed utf8 b (parse utf8 b)
parse-IsParsed utf8 b = Checked-IsParsed utf8 b (parse utf8 b) (parse-Checked utf8 b)

-- No member from `i` to before `j` has the name.
abbrev pub Lacks : (List ℕ → Bool) → Initrd → List ℕ → ℕ → ℕ → Type 0
Lacks utf8 ird text i j =
    (k : ℕ) (m : Member) → i ≤ k → k < j → member utf8 ird k ≡ some m → m.name ≢ text

-- What a search may answer, of the members from `i` to before `j`.
abbrev pub Finds : (List ℕ → Bool) → Initrd → List ℕ → ℕ → ℕ → Option (List ℕ) → Type 0
Finds utf8 ird text i j none = Lacks utf8 ird text i j
Finds utf8 ird text i j (some c) =
    (k : ℕ) × (m : Member) × (i ≤ k)
    × (k < j)
    × (member utf8 ird k ≡ some m)
    × (m.name ≡ text)
    × (m.contents ≡ c)
    × Lacks utf8 ird text i k

module _ (utf8 : List ℕ → Bool) (ird : Initrd) (text : List ℕ) where
  Lacks-step :
      (i j : ℕ)
      → ((m : Member) → member utf8 ird i ≡ some m → m.name ≢ text)
      → Lacks utf8 ird text (suc i) j
      → Lacks utf8 ird text i j
  Lacks-step i j h l k m a b e = elim (Bool-cases (i == k)) [
    | inl q ↦ let same : k ≡ i = ground arith in h m (rw (← same) e)
    | inr q ↦ l k m (ground arith) b e
  ]

  Finds-step :
      (i j : ℕ) (o : Option (List ℕ))
      → ((m : Member) → member utf8 ird i ≡ some m → m.name ≢ text)
      → Finds utf8 ird text (suc i) j o
      → Finds utf8 ird text i j o
  Finds-step i j none h w = Lacks-step i j h w
  Finds-step i j (some c) h (k, m, a, b, e, n, d, l) =
      (k, m, omega arith, b, e, n, d, Lacks-step i k h l)

  unnamed :
      (i : ℕ) (m : Member)
      → member utf8 ird i ≡ some m
      → same_bytes m.name text ≡ false
      → (m' : Member) → member utf8 ird i ≡ some m'
      → m'.name ≢ text
  unnamed i m e s m' e' q =
      let same : m ≡ m' = ground arith in
      let t : same_bytes m'.name text ≡ false = rw same at s in
      let u : same_bytes text text ≡ false = rw q at t in ground (arith, same_bytes_self text)

  find_from-Finds : (i n j : ℕ) → j ≡ i + n → Finds utf8 ird text i j (find_from utf8 ird text i n)
  unfolding find_from
  find_from-Finds i zero j q = λ k m a b. absurd (omega arith)
  find_from-Finds i (suc n) j q =
      let w = find_from-Finds (suc i) n j (omega arith) in
      elim (Option-cases (member utf8 ird i)) [
        | inl e ↦ rw (e, find_from) (Finds-step i j _ (λ m h. ground arith) w)
        | inr (m, e) ↦ elim (Bool-cases (same_bytes m.name text)) [
          | inl s ↦
              rw (e, s, find_from)
                (
                  i,
                  m,
                  omega arith,
                  omega arith,
                  e,
                  same_bytes-eq m.name text s,
                  refl,
                  λ k m' a b. absurd (omega arith),
                )
          | inr s ↦ rw (e, s, find_from) (Finds-step i j _ (unnamed i m e s) w)
        ]
      ]

  -- `find` returns the contents of the first member that can be read and has the name, and none
  -- exactly if there is no such member.
  pub find-Finds : Finds utf8 ird text 0 ird.count (find utf8 ird text)
  unfolding find
  find-Finds = find_from-Finds 0 ird.count ird.count (omega arith)
