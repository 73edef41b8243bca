-- ===== src/Net/Firewall/Tests.antt =====
-- The theorems on libraries/net/src/firewall.rs at concrete profiles.
use nexo_os.Prelude.{ℕ, ◌≡◌, refl, true, List, [], ◌∷◌, arith}
use nexo_os.Net.Firewall.{Rule, deny_all, add_rule, allows, matches, proto_tcp}
use nexo_os.Net.Firewall.Laws.{Fits, is_ok}

-- Web traffic to 10.0.2.0/24.
abbrev web : Rule
web = record { base = 10 ∷ 0 ∷ 2 ∷ 0 ∷ []; prefix = 24; port_lo = 80; port_hi = 443; protos = 1 }

abbrev host : List ℕ
host = 10 ∷ 0 ∷ 2 ∷ 2 ∷ []

deny_all-Fits : Fits deny_all
unfolding deny_all
deny_all-Fits = (refl, omega arith)

web_allowed : is_ok (allows (add_rule deny_all web).0 host 80 proto_tcp) ≡ true
unfolding allows add_rule deny_all matches
web_allowed = refl
