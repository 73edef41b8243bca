-- ===== src/Net/Firewall.antt =====
-- The network policy of a session: libraries/net/src/firewall.rs.
pub mod Laws
mod Tests
use nexo_os.Prelude.{
  ℕ, zero, suc, ◌+◌, ◌-◌, ◌*◌, ◌^◌, min, bit_and, bit_or, Bool, true, false, not, ◌&&◌, ◌||◌, List,
  [], ◌∷◌, Result, ok, err, length, set, take, replicate, leb, ltb, ◌==◌, if◌then◌else◌,
}

pub record Rule : Type 0 where
  pub base : List ℕ
  pub prefix : ℕ
  pub port_lo : ℕ
  pub port_hi : ℕ
  pub protos : ℕ

abbrev pub proto_tcp : ℕ
proto_tcp = 1

abbrev pub proto_udp : ℕ
proto_udp = 2

abbrev pub proto_icmp : ℕ
proto_icmp = 4

abbrev pub max_rules : ℕ
max_rules = 8

-- `u32::from_be_bytes`, on from an accumulator.
abbrev pub from_be_bytes : ℕ → List ℕ → ℕ
from_be_bytes acc [] = acc
from_be_bytes acc (b ∷ bs) = from_be_bytes (acc * 256 + b) bs

-- `!((1 << (32 - bits)) - 1)` as a `u32`; all ones for 32 bits.
abbrev pub mask : ℕ → ℕ
mask bits = if bits == 32 then 2 ^ 32 - 1 else 2 ^ 32 - 2 ^ (32 - bits)

unfoldable pub matches_addr : Rule → List ℕ → Bool
matches_addr r ip =
    r.prefix == 0
    || bit_and (from_be_bytes 0 ip) (mask (min r.prefix 32))
      == bit_and (from_be_bytes 0 r.base) (mask (min r.prefix 32))

unfoldable pub matches : Rule → List ℕ → ℕ → ℕ → Bool
unfolding matches_addr
matches r ip port proto =
    if bit_and r.protos proto == 0 || ltb port r.port_lo || ltb r.port_hi port
    then false
    else matches_addr r ip

pub record Profile : Type 0 where
  pub rules : List Rule
  pub count : ℕ
  pub allow_dns : Bool
  pub allow_listen : Bool

pub data Deny : Type 0 where
  no_rule protocol dns listen : Deny

abbrev pub blank : Rule
blank = record { base = 0 ∷ 0 ∷ 0 ∷ 0 ∷ []; prefix = 0; port_lo = 0; port_hi = 0; protos = 0 }

unfoldable pub deny_all : Profile
deny_all = record {
  rules = replicate max_rules blank;
  count = 0;
  allow_dns = false;
  allow_listen = false;
}

unfoldable pub unrestricted : Profile
unfolding deny_all
unrestricted = record {
  rules = set deny_all.rules 0 (record {
    base = 0 ∷ 0 ∷ 0 ∷ 0 ∷ [];
    prefix = 0;
    port_lo = 0;
    port_hi = 2 ^ 16 - 1;
    protos = bit_or (bit_or proto_tcp proto_udp) proto_icmp;
  });
  count = 1;
  allow_dns = true;
  allow_listen = true;
}

unfoldable pub add_rule : Profile → Rule → Profile × Bool
add_rule p r =
    if leb max_rules p.count
    then (p, false)
    else (record p { rules = set p.rules p.count r; count = p.count + 1 }, true)

abbrev pub any : (Rule → Bool) → List Rule → Bool
any f [] = false
any f (r ∷ rs) = f r || any f rs

-- `&self.rules[..self.count]`.
abbrev pub active : Profile → List Rule
active p = take p.count p.rules

unfoldable pub deny_for : Profile → List ℕ → Deny
deny_for p ip = if any (λ r. matches_addr r ip) (active p) then protocol else no_rule

unfoldable pub allows_in : Profile → List Rule → List ℕ → ℕ → ℕ → Result {0, 0} Deny Unit
unfolding deny_for
allows_in p [] ip port proto = err (deny_for p ip)
allows_in p (r ∷ rs) ip port proto =
    let rest = allows_in p rs ip port proto in if matches r ip port proto then ok tt else rest

unfoldable pub allows : Profile → List ℕ → ℕ → ℕ → Result {0, 0} Deny Unit
unfolding allows_in
allows p ip port proto = allows_in p (active p) ip port proto

unfoldable pub allows_icmp : Profile → List ℕ → Result {0, 0} Deny Unit
unfolding deny_for
allows_icmp p ip =
    if any (λ r. not (bit_and r.protos proto_icmp == 0) && matches_addr r ip) (active p)
    then ok tt
    else err (deny_for p ip)

unfoldable pub allows_dns : Profile → Result {0, 0} Deny Unit
allows_dns p = if p.allow_dns then ok tt else err dns

unfoldable pub allows_listen : Profile → Result {0, 0} Deny Unit
allows_listen p = if p.allow_listen then ok tt else err listen
