-- ===== src/Tests/Layout.antt =====
-- Runs of the layout, with a fixed-point stand-in for `f32` in halves.
use tymux.Base.{ℕ, ◌*◌, ◌/◌, ◌≤◌, ◌≡◌, refl, some, [], ◌∷◌, arith, ok, err}
use tymux.Layout.{
  horizontal, vertical, LayoutNode, leaf, split, collapsed, Float32, leaves, remove, contains,
  rect_of, replace_leaf, split_extent, compute_geometry, split_node, below_minimum_size,
  below_recommended_size, pane_not_found,
}
use tymux.Layout.Leaves.{leaves-remove, remaining}
use tymux.Layout.Geometry.{IsFloat32, cover, geometry_tiles}
use tymux.Layout.Splitting.{SplitSpec, split_node-SplitSpec}
use tymux.Layout.Closing.{remove-split_node}

-- A number of halves.
abbrev pub half_units : Float32
half_units = record {
  F = ℕ;
  of_u16 = λ n. 2 * n;
  mul = λ a b. a * b / 2;
  floor = λ a. a / 2 * 2;
  to_u16 = λ a. a / 2;
  half = 1;
}

pub half_units-shrinks : (n r : ℕ) → r ≤ 2 → 2 * n * r / 2 / 2 * 2 / 2 ≤ n
half_units-shrinks n r h =
    let bound : n * r ≤ n * 2 = grind arith in
    let regroup : 2 * n * r ≡ 2 * (n * r) = grind arith in rw regroup (omega arith)

pub half_units-halves : (n : ℕ) → 2 * n * 1 / 2 / 2 * 2 / 2 ≡ n / 2
half_units-halves n = omega arith

pub half_units-half : 1 ≤ 2
half_units-half = omega arith

abbrev pub half_units-laws : IsFloat32 half_units
half_units-laws = record {
  IsUnit = λ r. r ≤ 2;
  half_unit = half_units-half;
  shrinks = λ n r _ h. half_units-shrinks n r h;
  halves = λ n _. half_units-halves n;
}

-- Pane 1 beside a column of pane 2 over pane 3.
abbrev three : LayoutNode ℕ
three = split horizontal (leaf 1) 1 (split vertical (leaf 2) 1 (leaf 3) 1) 1

three_geometry :
    compute_geometry half_units three 24 81
    ≡ (1, record { row = 0; col = 0; rows = 24; cols = 40 })
      ∷ (2, record { row = 0; col = 40; rows = 12; cols = 41 })
      ∷ (3, record { row = 12; col = 40; rows = 12; cols = 41 })
      ∷ []
unfolding compute_geometry split_extent
three_geometry = refl

geometry_tiles_example : cover 12 40 (compute_geometry half_units three 24 81) ≡ 1
geometry_tiles_example =
    geometry_tiles half_units half_units-laws three 24 81 12 40 (omega arith) (omega arith)
      (omega arith)

split_node-SplitSpec_example :
    SplitSpec half_units three 2 vertical 4 24 81 (split_node half_units three 2 vertical 4 24 81)
unfolding leaves
split_node-SplitSpec_example =
    split_node-SplitSpec half_units half_units-laws three 2 vertical 4 24 81 (omega arith)
      (omega arith) (omega arith) (omega arith)

-- A vertical split of pane 2, and refusals of a pane that is too small, too low, or not there.
split_below :
    split_node half_units three 2 vertical 4 24 81
    ≡ some (
      split horizontal
          (leaf 1)
          1
          (split vertical (split vertical (leaf 2) 1 (leaf 4) 1) 1 (leaf 3) 1)
          1,
      ok tt,
    )
unfolding split_node contains rect_of compute_geometry split_extent replace_leaf
split_below = refl

split_too_small :
    split_node half_units three 3 vertical 4 6 81 ≡ some (three, err (below_minimum_size 1 41))
unfolding split_node contains rect_of compute_geometry split_extent
split_too_small = refl

split_too_low :
    split_node half_units three 2 horizontal 4 24 81 ≡ some (three, err (below_recommended_size 12))
unfolding split_node contains rect_of compute_geometry split_extent
split_too_low = refl

split_missing :
    split_node half_units three 9 horizontal 4 24 81 ≡ some (three, err (pane_not_found 9))
unfolding split_node contains
split_missing = refl

leaves-remove_example : remaining (remove three 2) ≡ 1 ∷ 3 ∷ []
unfolding leaves
leaves-remove_example = leaves-remove three 2 (omega arith)

remove-split_node_example :
    remove
      (split horizontal
        (leaf 1)
        1
        (split vertical (split vertical (leaf 2) 1 (leaf 4) 1) 1 (leaf 3) 1)
        1)
      4
    ≡ collapsed three
unfolding leaves
remove-split_node_example =
    remove-split_node half_units vertical 2 4 three _ 24 81 (omega arith) refl split_below
