-- ===== src/Initrd.antt =====
-- The archive of initial files: kernel/lib/initrd/src/lib.rs.
--
-- A `str` is the list of its bytes; whether bytes are UTF-8 is the parameter `utf8`, of which nothing
-- is assumed.
pub mod Laws
pub mod Members
mod Tests
use nexo_os.Prelude.{
  ℕ, zero, suc, ◌+◌, ◌*◌, ◌^◌, Bool, true, false, not, ◌&&◌, ◌||◌, List, [], ◌∷◌, Option, none,
  some, Result, ok, err, length, take, drop, leb, ltb, ◌==◌, if◌then◌else◌,
}

-- `b"NEXOIRD1"`.
abbrev pub magic : List ℕ
magic = 78 ∷ 69 ∷ 88 ∷ 79 ∷ 73 ∷ 82 ∷ 68 ∷ 49 ∷ []

abbrev pub header_size : ℕ
header_size = 16

abbrev pub entry_size : ℕ
entry_size = 48

abbrev pub name_max : ℕ
name_max = 32

pub data InitrdError : Type 0 where
  bad_magic truncated bad_entry : InitrdError

pub record Initrd : Type 0 where
  pub bytes : List ℕ
  pub count : ℕ

pub record Member : Type 0 where
  pub name : List ℕ
  pub contents : List ℕ

unfoldable pub same_bytes : List ℕ → List ℕ → Bool
same_bytes [] [] = true
same_bytes (x ∷ xs) (y ∷ ys) = (x == y) && same_bytes xs ys
same_bytes _ _ = false

-- `b.get(o..o + n)`.
unfoldable pub get : List ℕ → ℕ → ℕ → Option (List ℕ)
get b o n = if leb (o + n) (length b) then some (take n (drop o b)) else none

-- `from_le_bytes`.
unfoldable pub from_le : List ℕ → ℕ
from_le [] = 0
from_le (x ∷ xs) = x + 2 ^ 8 * from_le xs

unfoldable pub u32_at : List ℕ → ℕ → Option ℕ
unfolding get from_le
u32_at b o = elim (get b o 4) [ none ↦ none | some w ↦ some (from_le w) ]

unfoldable pub u64_at : List ℕ → ℕ → Option ℕ
unfolding get from_le
u64_at b o = elim (get b o 8) [ none ↦ none | some w ↦ some (from_le w) ]

-- `raw[..end]`, up to the first zero.
unfoldable pub until_zero : List ℕ → List ℕ
until_zero [] = []
until_zero (x ∷ xs) = if x == 0 then [] else x ∷ until_zero xs

-- `data.get(offset..offset.checked_add(size)?)`.
unfoldable pub get_checked : List ℕ → ℕ → ℕ → Option (List ℕ)
unfolding get
get_checked b offset size = if ltb (offset + size) (2 ^ 64) then get b offset size else none

infixl 5 ◌>>=◌
abbrev ◌>>=◌ {ℓ κ} : {A : Type ℓ} {B : Type κ} → Option A → (A → Option B) → Option B
none >>= f = none
some a >>= f = f a

abbrev when : Bool → Option (Unit {0})
when true = some tt
when false = none

module _ (utf8 : List ℕ → Bool) where
  unfoldable pub member : Initrd → ℕ → Option Member
  unfolding get until_zero u64_at get_checked
  member ird i = do
    let base = header_size + i * entry_size
    raw ← get ird.bytes base name_max
    let text = until_zero raw
    valid ← when (utf8 text)
    offset ← u64_at ird.bytes (base + 32)
    size ← u64_at ird.bytes (base + 40)
    contents ← get_checked ird.bytes offset size
    some (record { name = text; contents = contents })

  abbrev pub is_some : Option Member → Bool
  is_some none = false
  is_some (some m) = true

  -- The loop of `parse` over `n` members from `i`.
  unfoldable pub all_members : Initrd → ℕ → ℕ → Bool
  unfolding member
  all_members ird i zero = true
  all_members ird i (suc n) = is_some (member ird i) && all_members ird (suc i) n

  unfoldable pub has_magic : List ℕ → Bool
  unfolding get same_bytes
  has_magic b = elim (get b 0 8) [ none ↦ false | some m ↦ same_bytes m magic ]

  unfoldable pub parse : List ℕ → Result InitrdError Initrd
  unfolding has_magic u32_at all_members
  parse b = if not (has_magic b) then err bad_magic else elim (u32_at b 8) [
    | none ↦ err truncated
    | some count ↦
        if ltb 4096 count || ltb (length b) (header_size + count * entry_size)
        then err truncated
        else if all_members (record { bytes = b; count = count }) 0 count
        then ok (record { bytes = b; count = count })
        else err bad_entry
  ]

  -- The search over the members that can be read, `n` from `i`.
  unfoldable pub find_from : Initrd → List ℕ → ℕ → ℕ → Option (List ℕ)
  unfolding member same_bytes
  find_from ird text i zero = none
  find_from ird text i (suc n) =
      let rest = find_from ird text (suc i) n in
      elim (member ird i) [
        | none ↦ rest
        | some m ↦ if same_bytes m.name text then some m.contents else rest
      ]

  unfoldable pub find : Initrd → List ℕ → Option (List ℕ)
  unfolding find_from
  find ird text = find_from ird text 0 ird.count
