-- ===== src/Grid/Scrolling.antt =====
-- The grid of libraries/textgrid/src/lib.rs as a window on a page without an end.
use nexo_os.Prelude.{
  ℕ, zero, suc, ◌+◌, ◌-◌, ◌≤◌, ◌<◌, ◌≡◌, refl, ap, sym, ◌∙◌, true, false, ◌&&◌, List, [], ◌∷◌, ◌++◌,
  arith, get_or, set, drop, replicate, leb, ◌==◌, if◌then◌else◌, length, length-set, length-append,
  length-replicate, Bool-cases, inl, inr,
}
use nexo_os.Grid.{Grid, blank_row, new, newline, write, feed, feed_all}

-- A page whose rows are never lost: below the last row there is a new one.
pub record Page : Type 0 where
  pub lines : List (List ℕ)
  pub cx : ℕ
  pub cy : ℕ

abbrev pub blank_page : ℕ → ℕ → Page
blank_page cols rows = record { lines = replicate rows (blank_row cols); cx = 0; cy = 0 }

abbrev pub next_line : ℕ → Page → Page
next_line cols p =
    if p.cy + 1 == length p.lines
    then record p { lines = p.lines ++ blank_row cols ∷ []; cy = p.cy + 1 }
    else record p { cy = p.cy + 1 }

-- The cursor and the rows after one byte.
abbrev pub typed : ℕ → Page → ℕ → Page
typed cols p b =
    let p' = record p { lines = write p.lines p.cy p.cx b } in
    if b == 0x0d
    then record p { cx = 0 }
    else if b == 0x0a
    then next_line cols (record p { cx = 0 })
    else if b == 0x08
    then record p { cx = p.cx - 1 }
    else if leb 0x20 b && leb b 0x7e
    then (if p.cx + 1 == cols
        then next_line cols (record p' { cx = 0 })
        else record p' { cx = p.cx + 1 })
    else p

abbrev pub typed_all : ℕ → Page → List ℕ → Page
typed_all cols p [] = p
typed_all cols p (b ∷ bs) = typed_all cols (typed cols p b) bs

-- The grid shows the last `rows` rows of the page, and its cursor is the page's, inside the grid.
pub record Shows (cols rows : ℕ) (g : Grid) (p : Page) : Type 0 where
  pub window : g.cells ≡ drop g.scrolled p.lines
  pub size : length p.lines ≡ g.scrolled + rows
  pub column : p.cx ≡ g.cx
  pub row : p.cy ≡ g.scrolled + g.cy
  pub inside : (g.cx < cols) × (g.cy < rows)

drop-snoc :
    (n : ℕ) (xs : List (List ℕ)) (x : List ℕ)
    → n ≤ length xs
    → drop n (xs ++ x ∷ []) ≡ drop n xs ++ x ∷ []
drop-snoc zero xs x h = refl
drop-snoc (suc n) [] x h = absurd (omega arith)
drop-snoc (suc n) (y ∷ ys) x h = drop-snoc n ys x (omega arith)

drop-drop_one : (n : ℕ) (xs : List (List ℕ)) → drop 1 (drop n xs) ≡ drop (suc n) xs
drop-drop_one zero xs = refl
drop-drop_one (suc n) [] = refl
drop-drop_one (suc n) (x ∷ xs) = drop-drop_one n xs

drop-set :
    (n k : ℕ) (xs : List (List ℕ)) (v : List ℕ) → drop n (set xs (n + k) v) ≡ set (drop n xs) k v
drop-set zero k xs v = let e : 0 + k ≡ k = omega arith in rw e refl
drop-set (suc n) k [] v = refl
drop-set (suc n) k (x ∷ xs) v =
    let e : suc n + k ≡ suc (n + k) = omega arith in rw e (drop-set n k xs v)

get_or-drop : (n k : ℕ) (xs : List (List ℕ)) → get_or xs (n + k) [] ≡ get_or (drop n xs) k []
get_or-drop zero k xs = let e : 0 + k ≡ k = omega arith in rw e refl
get_or-drop (suc n) k [] = refl
get_or-drop (suc n) k (x ∷ xs) =
    let e : suc n + k ≡ suc (n + k) = omega arith in rw e (get_or-drop n k xs)

roll-Shows :
    (cols rows : ℕ) (g : Grid) (p : Page)
    → Shows cols rows g p
    → g.cy + 1 ≡ rows
    → Shows cols rows
        (record g {
          cells = drop 1 g.cells ++ blank_row cols ∷ [];
          cy = rows - 1;
          scrolled = g.scrolled + 1;
        })
        (record p { lines = p.lines ++ blank_row cols ∷ []; cy = p.cy + 1 })
roll-Shows cols rows g p s e =
    let n : g.scrolled + 1 ≡ suc g.scrolled = omega arith in
    let h : suc g.scrolled ≤ length p.lines = omega (arith, s.size) in
    record {
      window =
          ap (λ xs. drop 1 xs ++ blank_row cols ∷ []) s.window
          ∙ ap (λ xs. xs ++ blank_row cols ∷ []) (drop-drop_one g.scrolled p.lines)
          ∙ sym (drop-snoc (suc g.scrolled) p.lines (blank_row cols) h)
          ∙ ap (λ k. drop k (p.lines ++ blank_row cols ∷ [])) (sym n);
      size = omega (arith, length-append p.lines (blank_row cols ∷ []), s.size);
      column = s.column;
      row = omega (arith, s.row);
      inside = let (a, b) = s.inside in (a, omega arith);
    }

newline-Shows :
    (cols rows : ℕ) (g : Grid) (p : Page)
    → Shows cols rows g p
    → Shows cols rows (newline cols rows g) (next_line cols p)
unfolding newline
newline-Shows cols rows g p s = elim (Bool-cases (g.cy + 1 == rows)) [
  | inl e ↦
      let f : (p.cy + 1 == length p.lines) ≡ true =
        let k = s.size in let r = s.row in ground arith in
      rw (e, f) (roll-Shows cols rows g p s (ground arith))
  | inr e ↦
      let f : (p.cy + 1 == length p.lines) ≡ false =
        let k = s.size in let r = s.row in ground arith in
      rw (e, f)
        (record {
          window = s.window;
          size = s.size;
          column = s.column;
          row = omega (arith, s.row);
          inside = let (a, b) = s.inside in (a, ground arith);
        })
]

write-Shows :
    (cols rows : ℕ) (g : Grid) (p : Page) (b : ℕ)
    → Shows cols rows g p
    → write g.cells g.cy g.cx b ≡ drop g.scrolled (write p.lines p.cy p.cx b)
write-Shows cols rows g p b s =
    rw
      (
        s.row,
        s.column,
        drop-set g.scrolled g.cy p.lines (set (get_or p.lines (g.scrolled + g.cy) []) g.cx b),
        get_or-drop g.scrolled g.cy p.lines,
        s.window,
      )
      refl

feed-Shows :
    (cols rows : ℕ) (g : Grid) (p : Page) (b : ℕ)
    → Shows cols rows g p
    → Shows cols rows (feed cols rows g b) (typed cols p b)
unfolding feed
feed-Shows cols rows g p b s =
    let (in_cols, in_rows) = s.inside in
    let home : Shows cols rows (record g { cx = 0 }) (record p { cx = 0 }) = record {
      window = s.window;
      size = s.size;
      column = refl;
      row = s.row;
      inside = (omega arith, in_rows);
    } in
    let g' = record g { cells = write g.cells g.cy g.cx b } in
    let p' = record p { lines = write p.lines p.cy p.cx b } in
    let w = write-Shows cols rows g p b s in
    let len = length-set p.lines p.cy (set (get_or p.lines p.cy []) p.cx b) ∙ s.size in
    elim (Bool-cases (b == 0x0d)) [
      | inl e ↦ rw e home
      | inr e0 ↦ elim (Bool-cases (b == 0x0a)) [
        | inl e ↦ rw (e0, e) (newline-Shows cols rows _ _ home)
        | inr e1 ↦ elim (Bool-cases (b == 0x08)) [
          | inl e ↦
              rw (e0, e1, e)
                (record {
                  window = s.window;
                  size = s.size;
                  column = ap (λ n. n - 1) s.column;
                  row = s.row;
                  inside = (omega arith, in_rows);
                })
          | inr e2 ↦ elim (Bool-cases (leb 0x20 b && leb b 0x7e)) [
            | inr e ↦ rw (e0, e1, e2, e) s
            | inl e3 ↦ elim (Bool-cases (g.cx + 1 == cols)) [
              | inl e ↦
                  let f : (p.cx + 1 == cols) ≡ true = rw (s.column) e in
                  rw (e0, e1, e2, e3, e, f)
                    (newline-Shows cols rows (record g' { cx = 0 }) (record p' { cx = 0 })
                      (record {
                        window = w;
                        size = len;
                        column = refl;
                        row = s.row;
                        inside = (omega arith, in_rows);
                      }))
              | inr e ↦
                  let f : (p.cx + 1 == cols) ≡ false = rw (s.column) e in
                  rw (e0, e1, e2, e3, e, f)
                    (record {
                      window = w;
                      size = len;
                      column = ap (λ n. n + 1) s.column;
                      row = s.row;
                      inside = (ground arith, in_rows);
                    })
            ]
          ]
        ]
      ]
    ]

feed_all-Shows :
    (cols rows : ℕ) (g : Grid) (p : Page) (bs : List ℕ)
    → Shows cols rows g p
    → Shows cols rows (feed_all cols rows g bs) (typed_all cols p bs)
unfolding feed_all
feed_all-Shows cols rows g p [] s = s
feed_all-Shows cols rows g p (b ∷ bs) s =
    feed_all-Shows cols rows (feed cols rows g b) (typed cols p b) bs (feed-Shows cols rows g p b s)

-- Whatever bytes a grid of at least one row and one column is fed, it shows the last rows of the
-- page that the same bytes fill without losing a row, `scrolled` is how many rows of the page lie
-- above it, and its cursor is the page's and lies inside the grid.
pub feed_all-new-Shows :
    (cols rows : ℕ) (bs : List ℕ)
    → 1 ≤ cols
    → 1 ≤ rows
    → Shows cols rows
        (feed_all cols rows (new cols rows) bs)
        (typed_all cols (blank_page cols rows) bs)
unfolding new
feed_all-new-Shows cols rows bs h k =
    feed_all-Shows cols rows (new cols rows) (blank_page cols rows) bs (record {
      window = refl;
      size = omega (arith, length-replicate rows (blank_row cols));
      column = refl;
      row = omega arith;
      inside = (h, k);
    })
