-- ===== src/Cli/CopyMode.antt =====
-- crates/tymux-cli/src/copy_mode.rs: moving about and selecting in a captured grid. A cell is its text.
use tymux.Base.{
  ℕ, ◌+◌, ◌-◌, ◌%◌, ◌^◌, ◌<◌, ◌≡◌, ap₂, refl, inl, inr, Bool, true, false, ◌&&◌, ◌||◌, Option, none,
  some, List, [], ◌∷◌, ◌++◌, ◌==◌, ltb, leb, if◌then◌else◌, length, min, arith, Bool-cases,
}
use tymux.Base.Bytes.{Bytes}
use tymux.Base.Words.{add16}

pub record CellPos : Type 0 where
  pub row : ℕ
  pub col : ℕ

pub data CopyModeEvent : Type 0 where
  redraw exit yanked consumed : CopyModeEvent

pub record CopyModeState : Type 0 where
  pub scrollback_offset : ℕ
  pub cursor : CellPos
  pub selecting_from : Option CellPos
  pub yanked : Bytes
  pub rows : ℕ
  pub cols : ℕ

unfoldable pub new : ℕ → ℕ → CopyModeState
new rows cols = record {
  scrollback_offset = 0;
  cursor = record { row = 0; col = 0 };
  selecting_from = none;
  yanked = [];
  rows = rows;
  cols = cols;
}

abbrev pub at_col : CopyModeState → ℕ → CopyModeState
at_col s col = record s { cursor = record { row = s.cursor.row; col = col } }

abbrev pub at_row : CopyModeState → ℕ → CopyModeState
at_row s row = record s { cursor = record { row = row; col = s.cursor.col } }

abbrev pub is_selecting : Option CellPos → Bool
is_selecting none = false
is_selecting (some pos) = true

-- `q` and ESC, then `h`, `l`, `k`, `j`, `v` and `y`; additions are on u16 and, for the offset, u64.
unfoldable pub handle_byte : CopyModeState → ℕ → CopyModeState × CopyModeEvent
handle_byte s b =
    if (b == 113) || (b == 27)
    then (s, exit)
    else if b == 104
    then (at_col s (s.cursor.col - 1), redraw)
    else if b == 108
    then (at_col s (min (add16 s.cursor.col 1) (s.cols - 1)), redraw)
    else if b == 107
    then if s.cursor.row == 0
      then (record s { scrollback_offset = (s.scrollback_offset + 1) % 2 ^ 64 }, redraw)
      else (at_row s (s.cursor.row - 1), redraw)
    else if b == 106
    then if leb s.rows (add16 s.cursor.row 1)
      then (record s { scrollback_offset = s.scrollback_offset - 1 }, redraw)
      else (at_row s (add16 s.cursor.row 1), redraw)
    else if b == 118
    then (record s { selecting_from = some s.cursor }, consumed)
    else if b == 121
    then if is_selecting s.selecting_from then (s, CopyModeEvent.yanked) else (s, consumed)
    else (s, consumed)

unfoldable pub handle_bytes : CopyModeState → Bytes → CopyModeState
unfolding handle_byte
handle_bytes s [] = s
handle_bytes s (b ∷ bs) = handle_bytes (handle_byte s b).0 bs

abbrev pub pos_le : CellPos → CellPos → Bool
pos_le a b = ltb a.row b.row || ((a.row == b.row) && leb a.col b.col)

-- The cells of a row between two columns, from the index `i` on.
unfoldable pub select_cells : ℕ → ℕ → List Bytes → ℕ → Bytes
select_cells col_start col_end [] i = []
select_cells col_start col_end (cell ∷ rest) i =
    let later = select_cells col_start col_end rest (i + 1) in
    let col_idx = i % 65536 in
    if leb col_start col_idx && leb col_idx col_end then cell ++ later else later

unfoldable pub select_row : CellPos → CellPos → List Bytes → ℕ → Bytes
unfolding select_cells
select_row start end row row_idx =
    let col_start = if row_idx == start.row then start.col else 0 in
    let col_end = if row_idx == end.row then end.col else (length row - 1) % 65536 in
    let text = select_cells col_start col_end row 0 in
    if row_idx == end.row then text else text ++ 10 ∷ []

unfoldable pub select_rows : CellPos → CellPos → List (List Bytes) → ℕ → Bytes
unfolding select_row
select_rows start end [] i = []
select_rows start end (row ∷ rest) i =
    let later = select_rows start end rest (i + 1) in
    let row_idx = i % 65536 in
    if ltb row_idx start.row || ltb end.row row_idx
    then later
    else select_row start end row row_idx ++ later

unfoldable pub extract_selection : List (List Bytes) → CellPos → CellPos → Bytes
unfolding select_rows
extract_selection grid from to =
    if pos_le from to then select_rows from to grid 0 else select_rows to from grid 0

-- The cursor is on the grid.
pub record IsOnGrid (s : CopyModeState) : Type 0 where
  pub row_lt : s.cursor.row < s.rows
  pub col_lt : s.cursor.col < s.cols

handle_byte-IsOnGrid :
    (s : CopyModeState) (b : ℕ)
    → s.rows < 65536
    → s.cols < 65536
    → IsOnGrid s
    → IsOnGrid (handle_byte s b).0
      × ((handle_byte s b).0.rows ≡ s.rows)
      × ((handle_byte s b).0.cols ≡ s.cols)
unfolding handle_byte
handle_byte-IsOnGrid s b r c h = ground (arith, h.row_lt, h.col_lt)

-- Whatever is typed, from the top left corner on, the cursor stays on a grid that has a cell and fits u16.
pub handle_bytes-IsOnGrid :
    (s : CopyModeState) (bs : Bytes)
    → s.rows < 65536
    → s.cols < 65536
    → IsOnGrid s
    → IsOnGrid (handle_bytes s bs)
unfolding handle_bytes
handle_bytes-IsOnGrid s [] r c h = h
handle_bytes-IsOnGrid s (b ∷ bs) r c h =
    let (kept, rows, cols) = handle_byte-IsOnGrid s b r c h in
    handle_bytes-IsOnGrid (handle_byte s b).0 bs (rw rows r) (rw cols c) kept

-- The first position of the two, row by row.
pos_le-antisym : (a b : CellPos) → pos_le a b ≡ true → pos_le b a ≡ true → a ≡ b
pos_le-antisym a b h k =
    let rows : a.row ≡ b.row = ground (arith, h, k) in
    let cols : a.col ≡ b.col = ground (arith, h, k, rows) in
    ap₂ (λ r c. record { row = r; col = c }) rows cols

pos_le-total : (a b : CellPos) → pos_le a b ≡ false → pos_le b a ≡ true
pos_le-total a b h = ground (arith, h)

-- A selection is the same from either end.
pub extract_selection_comm :
    (grid : List (List Bytes)) (from to : CellPos)
    → extract_selection grid from to ≡ extract_selection grid to from
unfolding extract_selection
extract_selection_comm grid from to = elim (Bool-cases (pos_le from to)) [
  | inr e ↦ rw (e, pos_le-total from to e) refl
  | inl e ↦ elim (Bool-cases (pos_le to from)) [
    | inr f ↦ rw (e, f) refl
    | inl f ↦ ap₂ (extract_selection grid) (pos_le-antisym from to e f) (pos_le-antisym to from f e)
  ]
]
