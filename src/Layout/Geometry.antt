-- ===== src/Layout/Geometry.antt =====
-- crates/tymux-core/src/layout.rs: `compute_geometry` tiles the window, one rectangle for a leaf.
use tymux.Base.{
  ℕ, ◌+◌, ◌-◌, ◌/◌, ◌≤◌, ◌<◌, ◌≡◌, refl, ◌∙◌, Bool, ◌&&◌, List, [], ◌∷◌, ◌++◌, map, map-append,
  arith, ltb, leb, ◌==◌, if◌then◌else◌,
}
use tymux.Base.Words.{add16, sub16}
use tymux.Layout.{
  Orientation, horizontal, vertical, PtyRect, LayoutNode, leaf, split, Float32, leaves, nest,
  split_extent, compute_geometry_at, compute_geometry,
}
use tymux.Layout.Leaves.{substitute}

-- What the layout relies on of IEEE single precision: a u16 is represented exactly, a product with
-- a ratio in [0, 1] does not round above it, and a half is exact.
pub record IsFloat32 (fl : Float32) : Type 1 where
  pub IsUnit : fl.F → Type 0
  pub half_unit : IsUnit fl.half
  pub shrinks :
      (n : ℕ) (r : fl.F) → n < 65536 → IsUnit r → fl.to_u16 (fl.floor (fl.mul (fl.of_u16 n) r)) ≤ n
  pub halves : (n : ℕ) → n < 65536 → fl.to_u16 (fl.floor (fl.mul (fl.of_u16 n) fl.half)) ≡ n / 2

abbrev pub inside : PtyRect → ℕ → ℕ → Bool
inside rect y x =
    (leb rect.row y && ltb y (rect.row + rect.rows))
    && (leb rect.col x && ltb x (rect.col + rect.cols))

-- How many rectangles of the list hold the cell in line `y` and column `x`.
abbrev pub cover : ℕ → ℕ → List (ℕ × PtyRect) → ℕ
cover y x [] = 0
cover y x ((id, rect) ∷ rest) = (if inside rect y x then 1 else 0) + cover y x rest

pub cover-append :
    (y x : ℕ) (ps qs : List (ℕ × PtyRect)) → cover y x (ps ++ qs) ≡ cover y x ps + cover y x qs
cover-append y x [] qs = omega arith
cover-append y x ((id, rect) ∷ rest) qs = omega (arith, cover-append y x rest qs)

-- The two parts of a rectangle, the odd line or column in the second.
abbrev pub first_half : Orientation → PtyRect → PtyRect
first_half horizontal rect = record rect { cols = rect.cols / 2 }
first_half vertical rect = record rect { rows = rect.rows / 2 }

abbrev pub second_half : Orientation → PtyRect → PtyRect
second_half horizontal rect = record rect {
  col = rect.col + rect.cols / 2;
  cols = rect.cols - rect.cols / 2;
}
second_half vertical rect = record rect {
  row = rect.row + rect.rows / 2;
  rows = rect.rows - rect.rows / 2;
}

-- The list with the rectangle of `t` cut in two, the second part for `new`.
abbrev pub splice : ℕ → Orientation → ℕ → List (ℕ × PtyRect) → List (ℕ × PtyRect)
splice t o new [] = []
splice t o new ((id, rect) ∷ rest) =
    if id == t
    then (id, first_half o rect) ∷ (new, second_half o rect) ∷ splice t o new rest
    else (id, rect) ∷ splice t o new rest

pub splice-append :
    (t : ℕ) (o : Orientation) (new : ℕ) (ps qs : List (ℕ × PtyRect))
    → splice t o new (ps ++ qs) ≡ splice t o new ps ++ splice t o new qs
splice-append t o new [] qs = refl
splice-append t o new ((id, rect) ∷ rest) qs = ground (arith, splice-append t o new rest qs)

abbrev hit : ℕ → ℕ → ℕ → ℕ → ℕ → ℕ → ℕ
hit row col rows cols y x =
    if inside (record { row = row; col = col; rows = rows; cols = cols }) y x then 1 else 0

cut_cols :
    (row col rows cols k y x : ℕ)
    → k ≤ cols
    → hit row col rows k y x + hit row (col + k) rows (cols - k) y x ≡ hit row col rows cols y x
cut_cols row col rows cols k y x h = ground arith

cut_rows :
    (row col rows cols k y x : ℕ)
    → k ≤ rows
    → hit row col k cols y x + hit (row + k) col (rows - k) cols y x ≡ hit row col rows cols y x
cut_rows row col rows cols k y x h = ground arith

pub sub16-eq-sub : (a b : ℕ) → a < 65536 → b ≤ a → sub16 a b ≡ a - b
sub16-eq-sub a b h k = omega arith

pub add16-eq-add : (a b : ℕ) → a + b < 65536 → add16 a b ≡ a + b
add16-eq-add a b h = omega arith

module _ (fl : Float32) (laws : IsFloat32 fl) where
  -- Every first ratio of the tree lies in [0, 1].
  abbrev pub ValidRatios : LayoutNode fl.F → Type 0
  ValidRatios (leaf id) = Unit {0}
  ValidRatios (split o a r b s) = laws.IsUnit r × ValidRatios a × ValidRatios b

  split_extent-le : (n : ℕ) (r : fl.F) → n < 65536 → laws.IsUnit r → split_extent fl n r ≤ n
  unfolding split_extent
  split_extent-le n r h u = laws.shrinks n r h u

  split_extent-half : (n : ℕ) → n < 65536 → split_extent fl n fl.half ≡ n / 2
  unfolding split_extent
  split_extent-half n h = laws.halves n h

  geometry_at_tiles :
      (n : LayoutNode fl.F) (row col rows cols y x : ℕ)
      → ValidRatios n
      → row + rows < 65536
      → col + cols < 65536
      → cover y x (compute_geometry_at fl n row col rows cols)
        ≡ (if inside (record { row = row; col = col; rows = rows; cols = cols }) y x then 1 else 0)
  unfolding compute_geometry_at
  geometry_at_tiles (leaf id) row col rows cols y x v h k = omega arith
  geometry_at_tiles (split horizontal a r b s) row col rows cols y x v h k =
      let f = split_extent fl cols r in
      let f_le : f ≤ cols = split_extent-le cols r (omega arith) v.0 in
      rw
        (
          cover-append,
          add16-eq-add col f (omega arith),
          sub16-eq-sub cols f (omega arith) f_le,
          geometry_at_tiles a row col rows f y x v.1 h (omega arith),
          geometry_at_tiles b row (col + f) rows (cols - f) y x v.2 h (omega arith),
        )
        (cut_cols row col rows cols f y x f_le)
  geometry_at_tiles (split vertical a r b s) row col rows cols y x v h k =
      let f = split_extent fl rows r in
      let f_le : f ≤ rows = split_extent-le rows r (omega arith) v.0 in
      rw
        (
          cover-append,
          add16-eq-add row f (omega arith),
          sub16-eq-sub rows f (omega arith) f_le,
          geometry_at_tiles a row col f cols y x v.1 (omega arith) k,
          geometry_at_tiles b (row + f) col (rows - f) cols y x v.2 (omega arith) k,
        )
        (cut_rows row col rows cols f y x f_le)

  map-geometry_at :
      (n : LayoutNode fl.F) (row col rows cols : ℕ)
      → map (λ (p : ℕ × PtyRect). p.0) (compute_geometry_at fl n row col rows cols) ≡ leaves n
  unfolding compute_geometry_at leaves
  map-geometry_at (leaf id) row col rows cols = refl
  map-geometry_at (split horizontal a r b s) row col rows cols =
      rw (map-append, map-geometry_at a _ _ _ _, map-geometry_at b _ _ _ _)
  map-geometry_at (split vertical a r b s) row col rows cols =
      rw (map-append, map-geometry_at a _ _ _ _, map-geometry_at b _ _ _ _)

  geometry_at-nest :
      (id : ℕ) (o : Orientation) (new row col rows cols : ℕ)
      → row + rows < 65536
      → col + cols < 65536
      → let whole : PtyRect = record { row = row; col = col; rows = rows; cols = cols } in
        compute_geometry_at fl (nest fl o new (leaf id)) row col rows cols
        ≡ (id, first_half o whole) ∷ (new, second_half o whole) ∷ []
  unfolding compute_geometry_at
  geometry_at-nest id horizontal new row col rows cols h k = rw (
    split_extent-half cols (omega arith),
    add16-eq-add col (cols / 2) (omega arith),
    sub16-eq-sub cols (cols / 2) (omega arith) (omega arith),
  )
  geometry_at-nest id vertical new row col rows cols h k = rw (
    split_extent-half rows (omega arith),
    add16-eq-add row (rows / 2) (omega arith),
    sub16-eq-sub rows (rows / 2) (omega arith) (omega arith),
  )

  geometry_at-substitute :
      (n : LayoutNode fl.F) (t : ℕ) (o : Orientation) (new row col rows cols : ℕ)
      → ValidRatios n
      → row + rows < 65536
      → col + cols < 65536
      → compute_geometry_at fl (substitute n t (nest fl o new)) row col rows cols
        ≡ splice t o new (compute_geometry_at fl n row col rows cols)
  unfolding compute_geometry_at substitute
  geometry_at-substitute (leaf id) t o new row col rows cols v h k =
      ground (arith, geometry_at-nest id o new row col rows cols h k)
  geometry_at-substitute (split horizontal a r b s) t o new row col rows cols v h k =
      let f = split_extent fl cols r in
      let f_le : f ≤ cols = split_extent-le cols r (omega arith) v.0 in
      rw (
        splice-append,
        add16-eq-add col f (omega arith),
        sub16-eq-sub cols f (omega arith) f_le,
        geometry_at-substitute a t o new row col rows f v.1 h (omega arith),
        geometry_at-substitute b t o new row (col + f) rows (cols - f) v.2 h (omega arith),
      )
  geometry_at-substitute (split vertical a r b s) t o new row col rows cols v h k =
      let f = split_extent fl rows r in
      let f_le : f ≤ rows = split_extent-le rows r (omega arith) v.0 in
      rw (
        splice-append,
        add16-eq-add row f (omega arith),
        sub16-eq-sub rows f (omega arith) f_le,
        geometry_at-substitute a t o new row col f cols v.1 (omega arith) k,
        geometry_at-substitute b t o new (row + f) col (rows - f) cols v.2 (omega arith) k,
      )

  -- In a window of fewer than 2^16 rows and columns, with every first ratio in [0, 1], the
  -- rectangles of the leaves tile the window: each cell of the window lies in exactly one of them,
  -- and no other cell in any.
  pub geometry_tiles :
      (n : LayoutNode fl.F) (rows cols y x : ℕ)
      → ValidRatios n
      → rows < 65536
      → cols < 65536
      → cover y x (compute_geometry fl n rows cols) ≡ (if ltb y rows && ltb x cols then 1 else 0)
  unfolding compute_geometry
  geometry_tiles n rows cols y x v h k =
      geometry_at_tiles n 0 0 rows cols y x v (omega arith) (omega arith) ∙ ground arith

  -- There is one rectangle for each leaf, in the order of `leaves`.
  pub map-geometry :
      (n : LayoutNode fl.F) (rows cols : ℕ)
      → map (λ (p : ℕ × PtyRect). p.0) (compute_geometry fl n rows cols) ≡ leaves n
  unfolding compute_geometry
  map-geometry n rows cols = map-geometry_at n 0 0 rows cols

  -- Nesting a split at a leaf cuts that leaf's rectangle in two and moves no other.
  pub geometry-substitute :
      (n : LayoutNode fl.F) (t : ℕ) (o : Orientation) (new rows cols : ℕ)
      → ValidRatios n
      → rows < 65536
      → cols < 65536
      → compute_geometry fl (substitute n t (nest fl o new)) rows cols
        ≡ splice t o new (compute_geometry fl n rows cols)
  unfolding compute_geometry
  geometry-substitute n t o new rows cols v h k =
      geometry_at-substitute n t o new 0 0 rows cols v (omega arith) (omega arith)
