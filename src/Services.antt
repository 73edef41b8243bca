-- ===== src/Services.antt =====
-- The order in which services start: libraries/svcdep/src/lib.rs.
--
-- A name is the list of its bytes. The vector `saida` is its length on entry and, on success, the
-- list of the indices that were written. The loop over rounds runs on fuel; `ordem` gives it one
-- round more than there are services.
pub mod Ready
pub mod Startup
pub mod Order
mod Tests
use nexo_os.Prelude.{
  ℕ, zero, suc, ◌+◌, ◌-◌, Bool, true, false, not, ◌&&◌, ◌||◌, List, [], ◌∷◌, ◌++◌, Option, none,
  some, Result, ok, err, length, get_or, set, replicate, leb, ltb, ◌==◌, if◌then◌else◌,
}

abbrev pub max_servicos : ℕ
max_servicos = 32

abbrev pub name_eq : List ℕ → List ℕ → Bool
name_eq [] [] = true
name_eq [] (c ∷ cs) = false
name_eq (b ∷ bs) [] = false
name_eq (b ∷ bs) (c ∷ cs) = b == c && name_eq bs cs

pub record Spec : Type 0 where
  pub nome : List ℕ
  pub depende : List (List ℕ)

pub data DepErro : Type 0 where
  desconhecida : List ℕ → List ℕ → DepErro
  ciclo duplicado : List ℕ → DepErro
  espaco : DepErro

-- `specs.iter().position(|o| o.nome == d)`.
unfoldable pub position : List Spec → List ℕ → Option ℕ
position [] d = none
position (s ∷ ss) d =
    if name_eq s.nome d
    then some 0
    else elim (position ss d) [ none ↦ none | some i ↦ some (suc i) ]

abbrev pub declared : List Spec → List ℕ → Bool
declared [] d = false
declared (s ∷ ss) d = name_eq s.nome d || declared ss d

-- The first name that a later service repeats.
unfoldable pub duplicate : List Spec → Option (List ℕ)
duplicate [] = none
duplicate (s ∷ ss) = if declared ss s.nome then some s.nome else duplicate ss

unfoldable pub unknown_in : List Spec → List (List ℕ) → Option (List ℕ)
unknown_in specs [] = none
unknown_in specs (d ∷ ds) = if declared specs d then unknown_in specs ds else some d

-- The first dependency on a name that is not declared, with who declares it.
unfoldable pub unknown : List Spec → List Spec → Option (List ℕ × List ℕ)
unfolding unknown_in
unknown specs [] = none
unknown specs (s ∷ ss) = elim (unknown_in specs s.depende) [
  | none ↦ unknown specs ss
  | some d ↦ some (s.nome, d)
]

abbrev pub ready_at : List Bool → Option ℕ → Bool
ready_at pronto none = false
ready_at pronto (some j) = get_or pronto j false

unfoldable pub liberado : List Spec → List Bool → List (List ℕ) → Bool
unfolding position
liberado specs pronto [] = true
liberado specs pronto (d ∷ ds) = ready_at pronto (position specs d) && liberado specs pronto ds

-- One round over the services; `i` is the index of the head of the list.
unfoldable pub round : List Spec → ℕ → List Spec → List Bool → List ℕ → List Bool × List ℕ
unfolding liberado
round specs i [] pronto saida = (pronto, saida)
round specs i (s ∷ ss) pronto saida =
    let free = not (get_or pronto i false) && liberado specs pronto s.depende in
    round specs (suc i) ss (if free then set pronto i true else pronto)
      (if free then saida ++ i ∷ [] else saida)

-- The name of the first service that is not ready.
unfoldable pub stuck : ℕ → List Spec → List Bool → List ℕ
stuck i [] pronto = 0x3f ∷ []
stuck i (s ∷ ss) pronto = if get_or pronto i false then stuck (suc i) ss pronto else s.nome

unfoldable pub rounds : ℕ → List Spec → List Bool → List ℕ → Option (Result DepErro (List ℕ))
unfolding round stuck
rounds zero specs pronto saida = none
rounds (suc fuel) specs pronto saida =
    let (pronto', saida') = round specs 0 specs pronto saida in
    let rest = rounds fuel specs pronto' saida' in
    if not (ltb (length saida) (length specs))
    then some (ok saida)
    else if length saida' == length saida
    then some (err (ciclo (stuck 0 specs pronto')))
    else rest

unfoldable pub ordem : List Spec → ℕ → Option (Result DepErro (List ℕ))
unfolding duplicate unknown rounds
ordem specs capacity =
    if ltb max_servicos (length specs) || ltb capacity (length specs)
    then some (err espaco)
    else elim (duplicate specs) [
      | some name ↦ some (err (duplicado name))
      | none ↦ elim (unknown specs specs) [
        | some (servico, dependencia) ↦ some (err (desconhecida servico dependencia))
        | none ↦ rounds (suc (length specs)) specs (replicate max_servicos false) []
      ]
    ]
