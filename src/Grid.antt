-- ===== src/Grid.antt =====
-- The text grid of the terminal and the editor: libraries/textgrid/src/lib.rs.
--
-- The sizes `C` and `R`, constants of the type there, are arguments; `scrolled` has no bound.
pub mod Scrolling
mod Tests
use nexo_os.Prelude.{
  ℕ, zero, suc, ◌+◌, ◌-◌, Bool, true, false, not, ◌&&◌, ◌||◌, List, [], ◌∷◌, ◌++◌, Option, none,
  some, get_elem?, get_or, set, drop, replicate, leb, ltb, ◌==◌, if◌then◌else◌,
}

pub record Grid : Type 0 where
  pub cells : List (List ℕ)
  pub cx : ℕ
  pub cy : ℕ
  pub scrolled : ℕ

abbrev pub blank_row : ℕ → List ℕ
blank_row cols = replicate cols 0x20

unfoldable pub new : ℕ → ℕ → Grid
new cols rows = record { cells = replicate rows (blank_row cols); cx = 0; cy = 0; scrolled = 0 }

-- Below the last row, all rows move up by one and the last is blank.
unfoldable pub newline : ℕ → ℕ → Grid → Grid
newline cols rows g =
    if g.cy + 1 == rows
    then record g {
      cells = drop 1 g.cells ++ blank_row cols ∷ [];
      cy = rows - 1;
      scrolled = g.scrolled + 1;
    }
    else record g { cy = g.cy + 1 }

-- `cells[cy][cx] = b`.
abbrev pub write : List (List ℕ) → ℕ → ℕ → ℕ → List (List ℕ)
write cells cy cx b = set cells cy (set (get_or cells cy []) cx b)

unfoldable pub feed : ℕ → ℕ → Grid → ℕ → Grid
unfolding newline
feed cols rows g b =
    let typed = record g { cells = write g.cells g.cy g.cx b } in
    if b == 0x0d
    then record g { cx = 0 }
    else if b == 0x0a
    then newline cols rows (record g { cx = 0 })
    else if b == 0x08
    then record g { cx = g.cx - 1 }
    else if leb 0x20 b && leb b 0x7e
    then (if g.cx + 1 == cols
        then newline cols rows (record typed { cx = 0 })
        else record typed { cx = g.cx + 1 })
    else g

unfoldable pub feed_all : ℕ → ℕ → Grid → List ℕ → Grid
unfolding feed
feed_all cols rows g [] = g
feed_all cols rows g (b ∷ bs) = feed_all cols rows (feed cols rows g b) bs

abbrev ascii : List ℕ → ℕ → Option ℕ
ascii = get_elem?

unfoldable pub evdev_char : ℕ → Option ℕ
evdev_char code =
    if leb 16 code && leb code 25
    then ascii (0x71 ∷ 0x77 ∷ 0x65 ∷ 0x72 ∷ 0x74 ∷ 0x79 ∷ 0x75 ∷ 0x69 ∷ 0x6f ∷ 0x70 ∷ [])
        (code - 16)
    else if leb 30 code && leb code 38
    then ascii (0x61 ∷ 0x73 ∷ 0x64 ∷ 0x66 ∷ 0x67 ∷ 0x68 ∷ 0x6a ∷ 0x6b ∷ 0x6c ∷ []) (code - 30)
    else if leb 44 code && leb code 50
    then ascii (0x7a ∷ 0x78 ∷ 0x63 ∷ 0x76 ∷ 0x62 ∷ 0x6e ∷ 0x6d ∷ []) (code - 44)
    else if leb 2 code && leb code 10
    then ascii (0x31 ∷ 0x32 ∷ 0x33 ∷ 0x34 ∷ 0x35 ∷ 0x36 ∷ 0x37 ∷ 0x38 ∷ 0x39 ∷ []) (code - 2)
    else if code == 11
    then some 0x30
    else if code == 57
    then some 0x20
    else if code == 28
    then some 0x0a
    else if code == 14
    then some 0x08
    else none
