-- ===== src/Layout.antt =====
-- crates/tymux-core/src/layout.rs: the tree of splits that arranges a window's panes.
-- A `Split` holds exactly two children, `(first, first_ratio)` and `(second, second_ratio)`: the
-- source keeps a `Vec` of length 2 for the recursion's sake. A pane id is a number. Ratios are
-- `f32`, taken as a parameter. `none` is a panic.
pub mod Leaves
pub mod Geometry
pub mod Splitting
pub mod Closing
use tymux.Base.{
  ℕ, ◌/◌, Bool, true, false, ◌&&◌, ◌||◌, Option, none, some, List, [], ◌∷◌, ◌++◌, ltb, ◌==◌,
  if◌then◌else◌, ◌>>=◌, Result, ok, err,
}
use tymux.Base.Words.{add16, sub16}

pub data Orientation : Type 0 where
  horizontal vertical : Orientation

abbrev pub min_pane_rows : ℕ
min_pane_rows = 2

abbrev pub min_pane_cols : ℕ
min_pane_cols = 10

abbrev pub recommended_split_min_rows : ℕ
recommended_split_min_rows = 20

pub record PtyRect : Type 0 where
  pub row : ℕ
  pub col : ℕ
  pub rows : ℕ
  pub cols : ℕ

pub data LayoutNode (R : Type 0) : Type 0 where
  leaf : ℕ → LayoutNode R
  split : Orientation → LayoutNode R → R → LayoutNode R → R → LayoutNode R

pub data RemoveOutcome (R : Type 0) : Type 0 where
  collapsed : LayoutNode R → RemoveOutcome R
  window_empty : RemoveOutcome R

pub data LayoutError : Type 0 where
  below_minimum_size : ℕ → ℕ → LayoutError
  below_recommended_size : ℕ → LayoutError
  pane_not_found : ℕ → LayoutError

-- The operations of `f32` that the layout uses.
pub record Float32 : Type 1 where
  pub F : Type 0
  pub of_u16 : ℕ → F
  pub mul : F → F → F
  pub floor : F → F
  pub to_u16 : F → ℕ
  pub half : F

module _ {R : Type 0} where
  unfoldable pub contains : LayoutNode R → ℕ → Bool
  contains (leaf id) pane_id = id == pane_id
  contains (split o first r second s) pane_id = contains first pane_id || contains second pane_id

  unfoldable pub leaves : LayoutNode R → List ℕ
  leaves (leaf id) = id ∷ []
  leaves (split o first r second s) = leaves first ++ leaves second

  abbrev pub is_leaf : LayoutNode R → Bool
  is_leaf (leaf id) = true
  is_leaf (split o first r second s) = false

  -- The `Split` around a recursive removal, from the side that held the pane.
  rebuild : (LayoutNode R → LayoutNode R) → LayoutNode R → RemoveOutcome R → RemoveOutcome R
  rebuild around sibling (collapsed n) = collapsed (around n)
  rebuild around sibling window_empty = collapsed sibling

  unfoldable pub remove : LayoutNode R → ℕ → RemoveOutcome R
  unfolding rebuild
  remove (leaf id) pane_id = if id == pane_id then window_empty else collapsed (leaf id)
  remove (split o first r second s) pane_id =
      let in_first = rebuild (λ n. split o n r second s) second (remove first pane_id) in
      let in_second = rebuild (λ n. split o first r n s) first (remove second pane_id) in
      if contains first pane_id && is_leaf first
      then collapsed second
      else if contains second pane_id && is_leaf second
      then collapsed first
      else if contains first pane_id
      then in_first
      else if contains second pane_id
      then in_second
      else collapsed (split o first r second s)

  -- The inner function of `replace_leaf`. The flag says whether the `FnOnce` is still there; a
  -- second visit of the target is the source's `expect` panic.
  go : LayoutNode R → ℕ → (LayoutNode R → LayoutNode R) → Bool → Option (LayoutNode R × Bool)
  go (leaf id) target f available =
      if id == target
      then if available then some (f (leaf id), false) else none
      else some (leaf id, available)
  go (split o first r second s) target f available = do
    (first', left) ← go first target f available
    (second', rest) ← go second target f left
    some (split o first' r second' s, rest)

  unfoldable pub replace_leaf :
      LayoutNode R → ℕ → (LayoutNode R → LayoutNode R) → Option (LayoutNode R)
  unfolding go
  replace_leaf n target f = do (n', rest) ← go n target f true; some n'

-- The rectangle of a pane in a list of them: `find` and `map`.
unfoldable pub rect_of : ℕ → List (ℕ × PtyRect) → Option PtyRect
rect_of target [] = none
rect_of target ((id, rect) ∷ rest) = if id == target then some rect else rect_of target rest

-- The size that `split` checks: a horizontal split halves the columns, a vertical one the rows.
abbrev pub new_size : Orientation → PtyRect → ℕ × ℕ
new_size horizontal rect = (rect.rows, rect.cols / 2)
new_size vertical rect = (rect.rows / 2, rect.cols)

abbrev pub is_horizontal : Orientation → Bool
is_horizontal horizontal = true
is_horizontal vertical = false

-- The checks of `split` against the rectangle of its target, in the order of the source.
abbrev pub size_error : Orientation → PtyRect → Option LayoutError
size_error o rect =
    let (new_rows, new_cols) = new_size o rect in
    if ltb new_rows min_pane_rows || ltb new_cols min_pane_cols
    then some (below_minimum_size new_rows new_cols)
    else if is_horizontal o && ltb new_rows recommended_split_min_rows
    then some (below_recommended_size new_rows)
    else none

module _ (fl : Float32) where
  open fl use {F, of_u16, mul, floor, to_u16, half}

  unfoldable pub split_extent : ℕ → F → ℕ
  split_extent extent ratio = to_u16 (floor (mul (of_u16 extent) ratio))

  unfoldable pub compute_geometry_at : LayoutNode F → ℕ → ℕ → ℕ → ℕ → List (ℕ × PtyRect)
  compute_geometry_at (leaf id) row col rows cols =
      (id, record { row = row; col = col; rows = rows; cols = cols }) ∷ []
  compute_geometry_at (split horizontal first r second s) row col rows cols =
      let first_cols = split_extent cols r in
      compute_geometry_at first row col rows first_cols
      ++ compute_geometry_at second row (add16 col first_cols) rows (sub16 cols first_cols)
  compute_geometry_at (split vertical first r second s) row col rows cols =
      let first_rows = split_extent rows r in
      compute_geometry_at first row col first_rows cols
      ++ compute_geometry_at second (add16 row first_rows) col (sub16 rows first_rows) cols

  unfoldable pub compute_geometry : LayoutNode F → ℕ → ℕ → List (ℕ × PtyRect)
  unfolding compute_geometry_at
  compute_geometry n rows cols = compute_geometry_at n 0 0 rows cols

  abbrev pub nest : Orientation → ℕ → LayoutNode F → LayoutNode F
  nest o new_pane old = split o old half (leaf new_pane) half

  -- The tree and the result once the target's rectangle is known.
  split_at :
      LayoutNode F
      → ℕ
      → Orientation
      → ℕ
      → PtyRect
      → Option (LayoutNode F × Result (Unit {0}) LayoutError)
  split_at n target o new_pane rect = elim (size_error o rect) [
    | some e ↦ some (n, err e)
    | none ↦ replace_leaf n target (nest o new_pane) >>= λ n'. some (n', ok tt)
  ]

  -- The tree after the call, and the call's result.
  unfoldable pub split_node :
      LayoutNode F
      → ℕ
      → Orientation
      → ℕ
      → ℕ
      → ℕ
      → Option (LayoutNode F × Result (Unit {0}) LayoutError)
  unfolding split_at
  split_node n target o new_pane window_rows window_cols =
      if contains n target
      then rect_of target (compute_geometry n window_rows window_cols)
        >>= split_at n target o new_pane
      else some (n, err (pane_not_found target))
