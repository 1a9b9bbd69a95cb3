-- ===== src/Layout/Splitting.antt =====
-- crates/tymux-core/src/layout.rs: `split` on every branch, and `remove` after it.
use tymux.Base.{
  ℕ, ◌/◌, ◌≤◌, ◌<◌, ◌≡◌, refl, ◌⊎◌, inl, inr, ◌||◌, Option, none, some, List, [], ◌∷◌, map, arith,
  ltb, ◌==◌, Result, ok, err, Bool-cases,
}
use tymux.Layout.{
  Orientation, horizontal, vertical, PtyRect, LayoutNode, leaf, split, LayoutError,
  below_minimum_size, below_recommended_size, pane_not_found, min_pane_rows, min_pane_cols,
  recommended_split_min_rows, Float32, leaves, rect_of, compute_geometry, size_error, nest,
  split_node,
}
use tymux.Layout.Leaves.{
  count, insert_after, insert_after-append, contains-count, substitute, replace_leaf_once,
}
use tymux.Layout.Geometry.{
  IsFloat32, ValidRatios, map-geometry, splice, geometry-substitute, first_half, second_half,
}

-- A list of rectangles has one for every id among its names.
rect_of-found :
    (t : ℕ) (ps : List (ℕ × PtyRect))
    → 0 < count t (map (λ (p : ℕ × PtyRect). p.0) ps)
    → (rect : PtyRect) × (rect_of t ps ≡ some rect)
unfolding rect_of
rect_of-found t [] h = absurd (omega arith)
rect_of-found t ((id, rect) ∷ rest) h = elim (Bool-cases (id == t)) [
  | inl e ↦ (rect, rw e)
  | inr e ↦ rw e (rect_of-found t rest (rw e at h))
]

-- A rectangle of at least the minimum size.
pub record IsLargeEnough (rect : PtyRect) : Type 0 where
  pub rows_ok : min_pane_rows ≤ rect.rows
  pub cols_ok : min_pane_cols ≤ rect.cols

halves_large :
    (o : Orientation) (rect : PtyRect)
    → size_error o rect ≡ none
    → IsLargeEnough (first_half o rect) × IsLargeEnough (second_half o rect)
halves_large horizontal rect h = ground arith
halves_large vertical rect h = ground arith

-- Why a size is refused, and the numbers that the error carries.
pub data Refusal (o : Orientation) (rect : PtyRect) : LayoutError → Type 0 where
  too_small :
      (rows cols : ℕ)
      → rows ≡ (first_half o rect).rows
      → cols ≡ (first_half o rect).cols
      → (rows < min_pane_rows) ⊎ (cols < min_pane_cols)
      → Refusal o rect (below_minimum_size rows cols)
  too_short :
      (rows : ℕ)
      → o ≡ horizontal
      → rows ≡ rect.rows
      → rows < recommended_split_min_rows
      → IsLargeEnough (first_half o rect)
      → Refusal o rect (below_recommended_size rows)

recommended :
    (o : Orientation) (rect : PtyRect)
    → size_error o rect ≡ none
    → (o ≡ vertical) ⊎ (recommended_split_min_rows ≤ rect.rows)
recommended horizontal rect h = inr (ground arith)
recommended vertical rect h = inl refl

size_error-cases :
    (o : Orientation) (rect : PtyRect)
    → (size_error o rect ≡ none)
      ⊎ ((e : LayoutError) × (size_error o rect ≡ some e) × Refusal o rect e)
size_error-cases horizontal rect =
    elim (Bool-cases (ltb rect.rows min_pane_rows || ltb (rect.cols / 2) min_pane_cols)) [
      | inl e ↦ inr (_, rw e, too_small _ _ refl refl (ground arith))
      | inr e ↦ elim (Bool-cases (ltb rect.rows recommended_split_min_rows)) [
        | inl f ↦ inr (_, rw (e, f), too_short _ refl refl (ground arith) (ground arith))
        | inr f ↦ inl (rw (e, f))
      ]
    ]
size_error-cases vertical rect =
    elim (Bool-cases (ltb (rect.rows / 2) min_pane_rows || ltb rect.cols min_pane_cols)) [
      | inl e ↦ inr (_, rw e, too_small _ _ refl refl (ground arith))
      | inr e ↦ inl (rw e)
    ]

module _ (fl : Float32) where
  leaves-nest :
      (n : LayoutNode fl.F) (t : ℕ) (o : Orientation) (new : ℕ)
      → leaves (substitute n t (nest fl o new)) ≡ insert_after t new (leaves n)
  unfolding substitute leaves
  leaves-nest (leaf id) t o new = ground arith
  leaves-nest (split o' a r b s) t o new =
      rw (insert_after-append, leaves-nest a t o new, leaves-nest b t o new)

  split_found :
      (n : LayoutNode fl.F) (t : ℕ) (o : Orientation) (new rows cols : ℕ) (rect : PtyRect)
      → count t (leaves n) ≡ 1
      → rect_of t (compute_geometry fl n rows cols) ≡ some rect
      → split_node fl n t o new rows cols ≡ elim (size_error o rect) [
        | some e ↦ some (n, err e)
        | none ↦ some (substitute n t (nest fl o new), ok tt)
      ]
  unfolding split_node
  split_found n t o new rows cols rect c e =
      ground (arith, contains-count n t, replace_leaf_once n t (nest fl o new))

  -- The result of `split`, whose `none` is a panic.
  pub data SplitSpec (n : LayoutNode fl.F) (t : ℕ) (o : Orientation) (new rows cols : ℕ)
      : Option (LayoutNode fl.F × Result (Unit {0}) LayoutError) → Type 0 where
    missing :
        count t (leaves n) ≡ 0 → SplitSpec n t o new rows cols (some (n, err (pane_not_found t)))
    refused :
        (rect : PtyRect) (e : LayoutError)
        → rect_of t (compute_geometry fl n rows cols) ≡ some rect
        → Refusal o rect e
        → SplitSpec n t o new rows cols (some (n, err e))
    nested :
        (rect : PtyRect) (n' : LayoutNode fl.F)
        → rect_of t (compute_geometry fl n rows cols) ≡ some rect
        → IsLargeEnough (first_half o rect)
        → IsLargeEnough (second_half o rect)
        → (o ≡ vertical) ⊎ (recommended_split_min_rows ≤ rect.rows)
        → leaves n' ≡ insert_after t new (leaves n)
        → compute_geometry fl n' rows cols ≡ splice t o new (compute_geometry fl n rows cols)
        → SplitSpec n t o new rows cols (some (n', ok tt))

  split_node_missing :
      (n : LayoutNode fl.F) (t : ℕ) (o : Orientation) (new rows cols : ℕ)
      → count t (leaves n) ≡ 0
      → split_node fl n t o new rows cols ≡ some (n, err (pane_not_found t))
  unfolding split_node
  split_node_missing n t o new rows cols h = ground (arith, contains-count n t)

  split_node_once :
      (laws : IsFloat32 fl) (n : LayoutNode fl.F) (t : ℕ) (o : Orientation) (new rows cols : ℕ)
      → ValidRatios fl laws n
      → rows < 65536
      → cols < 65536
      → count t (leaves n) ≡ 1
      → SplitSpec n t o new rows cols (split_node fl n t o new rows cols)
  split_node_once laws n t o new rows cols v h k c =
      let (rect, found) =
        rect_of-found t (compute_geometry fl n rows cols)
          (rw (map-geometry fl laws n rows cols) (omega arith)) in
      rw (split_found n t o new rows cols rect c found) (elim (size_error-cases o rect) [
        | inl e ↦ rw e (
            nested rect _ found (halves_large o rect e).0 (halves_large o rect e).1
              (recommended o rect e) (leaves-nest n t o new)
              (geometry-substitute fl laws n t o new rows cols v h k))
        | inr (e, e_eq, why) ↦ rw e_eq (refused rect e found why)
      ])

  -- `split` on a tree that holds the target at most once, with valid ratios and a window of u16
  -- size, never panics. A target that is missing, or whose parts would be under the minimum size, or
  -- (horizontally) whose rows are under the recommended ones, is refused with the tree as it was and
  -- the numbers in the error. Else the new pane's leaf stands right behind the target's, both parts
  -- of the target's rectangle have the minimum size, and no other rectangle changes.
  pub split_node-SplitSpec :
      (laws : IsFloat32 fl) (n : LayoutNode fl.F) (t : ℕ) (o : Orientation) (new rows cols : ℕ)
      → ValidRatios fl laws n
      → rows < 65536
      → cols < 65536
      → count t (leaves n) ≤ 1
      → SplitSpec n t o new rows cols (split_node fl n t o new rows cols)
  split_node-SplitSpec laws n t o new rows cols v h k c =
      elim (Bool-cases (ltb 0 (count t (leaves n)))) [
        | inl e ↦ split_node_once laws n t o new rows cols v h k (ground arith)
        | inr e ↦
            let absent : count t (leaves n) ≡ 0 = ground arith in
            rw (split_node_missing n t o new rows cols absent) (missing absent)
      ]

  -- Whatever its ratios and sizes are: `split` refuses and leaves the tree, or adds a leaf.
  pub split_node-cases :
      (laws : IsFloat32 fl) (n : LayoutNode fl.F) (t : ℕ) (o : Orientation) (new rows cols : ℕ)
      → count t (leaves n) ≤ 1
      → ((x : LayoutError) × (split_node fl n t o new rows cols ≡ some (n, err x)))
        ⊎ ((n' : LayoutNode fl.F) × (split_node fl n t o new rows cols ≡ some (n', ok tt))
            × (count t (leaves n) ≡ 1)
            × (leaves n' ≡ insert_after t new (leaves n)))
  split_node-cases laws n t o new rows cols c = elim (Bool-cases (ltb 0 (count t (leaves n)))) [
    | inr e ↦ inl (_, split_node_missing n t o new rows cols (ground arith))
    | inl e ↦
        let once : count t (leaves n) ≡ 1 = ground arith in
        let (rect, found) =
          rect_of-found t (compute_geometry fl n rows cols)
            (rw (map-geometry fl laws n rows cols) (omega arith)) in
        let it = split_found n t o new rows cols rect once found in
        elim (size_error-cases o rect) [
          | inl k ↦ inr (_, ground (arith, it, k), once, leaves-nest n t o new)
          | inr (x, k, why) ↦ inl (x, ground (arith, it, k))
        ]
  ]
