-- ===== src/Grid/Tests.antt =====
-- The theorem on libraries/textgrid/src/lib.rs at a concrete grid.
use nexo_os.Prelude.{ℕ, List, [], ◌∷◌, arith}
use nexo_os.Grid.{new, feed_all}
use nexo_os.Grid.Scrolling.{Shows, typed_all, blank_page, feed_all-new-Shows}

-- Two columns, two rows, and a text that scrolls.
abbrev text : List ℕ
text = 0x61 ∷ 0x62 ∷ 0x63 ∷ 0x0a ∷ 0x64 ∷ 0x08 ∷ 0x65 ∷ []

feed_all-new-Shows_example :
    Shows 2 2 (feed_all 2 2 (new 2 2) text) (typed_all 2 (blank_page 2 2) text)
feed_all-new-Shows_example = feed_all-new-Shows 2 2 text (omega arith) (omega arith)
