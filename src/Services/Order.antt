-- ===== src/Services/Order.antt =====
-- What `ordem` of libraries/svcdep/src/lib.rs returns.
use nexo_os.Prelude.{
  ℕ, suc, ◌<◌, ◌≡◌, Bool, true, false, List, Option, none, some, Result, ok, err, length, get_or,
  get_elem?, drop, ◌⊎◌,
}
use nexo_os.Services.{Spec, DepErro, desconhecida, ciclo, duplicado, espaco, max_servicos, declared}
use nexo_os.Services.Ready.{Tracks, marks}
use nexo_os.Services.Ready.{marks, Tracks}
use nexo_os.Services.Startup.{Complete, Names}

-- A service of the table with the name, at index `j`.
abbrev pub Service : List Spec → List ℕ → ℕ → Type 0
Service specs d j = (r : Spec) × (get_elem? specs j ≡ some r) × (r.nome ≡ d)

-- A set of services, given by marks that are false on it, holds one with the name, and each service
-- of the set depends on a service of the set.
abbrev pub Circular : List Spec → List ℕ → Type 0
Circular specs name =
    (pronto : List Bool) × ((i : ℕ) × Service specs name i × (get_or pronto i false ≡ false))
    × ((i : ℕ) (s : Spec)
        → get_elem? specs i ≡ some s
        → get_or pronto i false ≡ false
        → (d : List ℕ) × Names s.depende d
          × ((j : ℕ) × Service specs d j × (get_or pronto j false ≡ false)))

-- What a result of `ordem` means, for an output of the given capacity.
abbrev pub Answer : List Spec → ℕ → Option (Result DepErro (List ℕ)) → Type 0
Answer specs capacity none = ⊥
Answer specs capacity (some (ok saida)) = Complete specs saida
Answer specs capacity (some (err (ciclo name))) = Circular specs name
Answer specs capacity (some (err (duplicado name))) =
    (i : ℕ) × (s : Spec) × (get_elem? specs i ≡ some s)
    × (s.nome ≡ name)
    × (declared (drop (suc i) specs) name ≡ true)
Answer specs capacity (some (err (desconhecida s d))) = declared specs d ≡ false
Answer specs capacity (some (err espaco)) =
    (max_servicos < length specs) ⊎ (capacity < length specs)
