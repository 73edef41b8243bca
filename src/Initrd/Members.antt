-- ===== src/Initrd/Members.antt =====
-- What an entry of kernel/lib/initrd/src/lib.rs says, read off the bytes of the archive.
use nexo_os.Prelude.{
  ℕ, ◌+◌, ◌*◌, ◌^◌, ◌≤◌, ◌<◌, ◌≡◌, ◌≢◌, ◌↔◌, refl, ap, Bool, true, List, [], ◌∷◌, ◌++◌, none, some,
  arith, length, take, drop, leb, ◌==◌, if◌then◌else◌, All, Bool-cases, inl, inr, length-take,
}
use nexo_os.Initrd.{
  Initrd, Member, magic, same_bytes, get, from_le, u32_at, u64_at, until_zero, get_checked, member,
  has_magic,
}

abbrev ZeroFirst : List ℕ → Type 0
ZeroFirst [] = Unit
ZeroFirst (c ∷ cs) = c ≡ 0

-- The text of a field: its bytes up to the first zero, or all of them.
abbrev pub IsText : List ℕ → List ℕ → Type 0
IsText raw text = (rest : List ℕ) × (raw ≡ text ++ rest) × All (λ c. c ≢ 0) text × ZeroFirst rest

until_zero-IsText : (raw : List ℕ) → IsText raw (until_zero raw)
unfolding until_zero
until_zero-IsText [] = ([], refl, tt, tt)
until_zero-IsText (c ∷ cs) = elim (Bool-cases (c == 0)) [
  | inl e ↦ rw e (c ∷ cs, refl, tt, ground arith)
  | inr e ↦
      let (rest, q, a, z) = until_zero-IsText cs in
      rw e (rest, ap (λ xs. c ∷ xs) q, (ground arith, a), z)
]

IsText-until_zero : (raw text : List ℕ) → IsText raw text → text ≡ until_zero raw
unfolding until_zero
IsText-until_zero [] [] w = refl
IsText-until_zero [] (t ∷ ts) (rest, q, a, z) = absurd (ground arith)
IsText-until_zero (c ∷ cs) [] (rest, q, a, z) = go c cs rest q z
  where
    go :
        (c : ℕ) (cs rest : List ℕ)
        → c ∷ cs ≡ rest
        → ZeroFirst rest
        → [] ≡ (if c == 0 then [] else c ∷ until_zero cs)
    go c cs [] q z = absurd (ground arith)
    go c cs (r ∷ rs) q z = ground arith
IsText-until_zero (c ∷ cs) (t ∷ ts) (rest, q, (n, a), z) =
    let same : c ≡ t = ground arith in
    let r = IsText-until_zero cs ts (rest, ground arith, a, z) in ground arith

-- The number of `n` bytes at `o`.
abbrev pub number : List ℕ → ℕ → ℕ → ℕ
number b o n = from_le (take n (drop o b))

-- Member `i`, of the entry of 48 bytes after the header: its name is UTF-8, and its contents lie in
-- the archive.
abbrev pub IsMember : (List ℕ → Bool) → List ℕ → ℕ → Member → Type 0
IsMember utf8 b i m =
    let base = 16 + i * 48 in
    let offset = number b (base + 32) 8 in
    let size = number b (base + 40) 8 in
    (base + 48 ≤ length b)
    × IsText (take 32 (drop base b)) m.name
    × (utf8 m.name ≡ true)
    × (offset + size < 2 ^ 64)
    × (offset + size ≤ length b)
    × (m.contents ≡ take size (drop offset b))

module _ (utf8 : List ℕ → Bool) (ird : Initrd) (i : ℕ) where
  -- What `member` looks at, in the code's words.
  Looks : Member → Type 0
  Looks m =
      let b = ird.bytes in
      let base = 16 + i * 48 in
      let offset = number b (base + 32) 8 in
      let size = number b (base + 40) 8 in
      (base + 48 ≤ length b)
      × (m.name ≡ until_zero (take 32 (drop base b)))
      × (utf8 m.name ≡ true)
      × (offset + size < 2 ^ 64)
      × (offset + size ≤ length b)
      × (m.contents ≡ take size (drop offset b))

  member-Looks : (m : Member) → member utf8 ird i ≡ some m → Looks m
  unfolding member get u64_at get_checked Looks
  member-Looks m e = ground arith

  Looks-member : (m : Member) → Looks m → member utf8 ird i ≡ some m
  unfolding member get u64_at get_checked Looks
  Looks-member m l = ground arith

  pub member-IsMember : (m : Member) → member utf8 ird i ≡ some m ↔ IsMember utf8 ird.bytes i m
  unfolding Looks
  member-IsMember m = (
    λ e. let (s, n, u, a, c, d) = member-Looks m e in (s, rw n (until_zero-IsText _), u, a, c, d),
    λ (s, t, u, a, c, d). Looks-member m (s, IsText-until_zero _ m.name t, u, a, c, d),
  )

pub same_bytes-eq : (xs ys : List ℕ) → same_bytes xs ys ≡ true → xs ≡ ys
unfolding same_bytes
same_bytes-eq [] [] e = refl
same_bytes-eq [] (y ∷ ys) e = ground arith
same_bytes-eq (x ∷ xs) [] e = ground arith
same_bytes-eq (x ∷ xs) (y ∷ ys) e = ground (arith, same_bytes-eq xs ys)

pub same_bytes_self : (xs : List ℕ) → same_bytes xs xs ≡ true
unfolding same_bytes
same_bytes_self [] = refl
same_bytes_self (x ∷ xs) = ground (arith, same_bytes_self xs)

pub has_magic-take :
    (utf8 : List ℕ → Bool) (b : List ℕ) → has_magic utf8 b ≡ true ↔ (take 8 b ≡ magic)
unfolding has_magic get
has_magic-take utf8 b = (
  λ e. elim (Bool-cases (leb 8 (length b))) [
    | inl h ↦ same_bytes-eq (take 8 b) magic (ground arith)
    | inr h ↦ absurd (ground arith)
  ],
  λ q.
      let l : length (take 8 b) ≡ 8 = rw q refl in
      let h : leb 8 (length b) ≡ true = ground (arith, length-take 8 b) in
      let s : same_bytes (take 8 b) magic ≡ true = rw q (same_bytes_self magic) in ground arith,
)

pub u32_at-number :
    (b : List ℕ) (o n : ℕ) → u32_at b o ≡ some n ↔ ((o + 4 ≤ length b) × (number b o 4 ≡ n))
unfolding u32_at get
u32_at-number b o n = (λ e. ground arith, λ h. ground arith)

pub u32_at-none : (b : List ℕ) (o : ℕ) → u32_at b o ≡ none → length b < o + 4
unfolding u32_at get
u32_at-none b o e = ground arith
