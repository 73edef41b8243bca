-- ===== src/Services/Tests.antt =====
-- The theorem on libraries/svcdep/src/lib.rs at concrete tables.
use nexo_os.Prelude.{◌≡◌, refl, List, [], ◌∷◌, some, ok, err}
use nexo_os.Services.{Spec, ordem, ciclo}

-- Service `c` needs `a` and `b`, and `b` needs `a`.
abbrev chain : List Spec
chain =
    record { nome = 0x63 ∷ []; depende = (0x61 ∷ []) ∷ (0x62 ∷ []) ∷ [] }
    ∷ record { nome = 0x62 ∷ []; depende = (0x61 ∷ []) ∷ [] }
    ∷ record { nome = 0x61 ∷ []; depende = [] }
    ∷ []

chain_order : ordem chain 3 ≡ some (ok (2 ∷ 1 ∷ 0 ∷ []))
unfolding ordem
chain_order = refl

-- Two services that need each other.
abbrev knot : List Spec
knot =
    record { nome = 0x61 ∷ []; depende = (0x62 ∷ []) ∷ [] }
    ∷ record { nome = 0x62 ∷ []; depende = (0x61 ∷ []) ∷ [] }
    ∷ []

knot_order : ordem knot 3 ≡ some (err (ciclo (0x61 ∷ [])))
unfolding ordem
knot_order = refl
