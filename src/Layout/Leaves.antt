-- ===== src/Layout/Leaves.antt =====
-- crates/tymux-core/src/layout.rs: what `contains`, `remove` and `replace_leaf` do to the leaves.
use tymux.Base.{
  ℕ, suc, ◌+◌, ◌≤◌, ◌≡◌, refl, sym, ◌≢◌, ◌↔◌, Bool, true, false, some, List, [], ◌∷◌, ◌++◌,
  append-nil, arith, ltb, ◌==◌, if◌then◌else◌,
}
use tymux.Layout.{
  LayoutNode, leaf, split, RemoveOutcome, collapsed, window_empty, contains, leaves, is_leaf,
  rebuild, remove, go, replace_leaf,
}

-- How often an id stands in a list.
abbrev pub count : ℕ → List ℕ → ℕ
count t [] = 0
count t (id ∷ ids) = if id == t then suc (count t ids) else count t ids

-- The list with every copy of an id left out.
abbrev pub without : ℕ → List ℕ → List ℕ
without t [] = []
without t (id ∷ ids) = if id == t then without t ids else id ∷ without t ids

-- The list with `new` put behind every copy of an id.
abbrev pub insert_after : ℕ → ℕ → List ℕ → List ℕ
insert_after t new [] = []
insert_after t new (id ∷ ids) =
    if id == t then id ∷ new ∷ insert_after t new ids else id ∷ insert_after t new ids

pub count-append : (t : ℕ) (xs ys : List ℕ) → count t (xs ++ ys) ≡ count t xs + count t ys
count-append t [] ys = omega arith
count-append t (x ∷ xs) ys = ground (arith, count-append t xs ys)

pub without-append : (t : ℕ) (xs ys : List ℕ) → without t (xs ++ ys) ≡ without t xs ++ without t ys
without-append t [] ys = refl
without-append t (x ∷ xs) ys = ground (arith, without-append t xs ys)

pub insert_after-append :
    (t new : ℕ) (xs ys : List ℕ)
    → insert_after t new (xs ++ ys) ≡ insert_after t new xs ++ insert_after t new ys
insert_after-append t new [] ys = refl
insert_after-append t new (x ∷ xs) ys = ground (arith, insert_after-append t new xs ys)

pub count-insert_after :
    (t new id : ℕ) (xs : List ℕ)
    → count id (insert_after t new xs) ≡ count id xs + (if new == id then count t xs else 0)
count-insert_after t new id [] = ground arith
count-insert_after t new id (x ∷ xs) = ground (arith, count-insert_after t new id xs)

pub count-without :
    (t id : ℕ) (xs : List ℕ) → count id (without t xs) ≡ (if t == id then 0 else count id xs)
count-without t id [] = ground arith
count-without t id (x ∷ xs) = ground (arith, count-without t id xs)

pub without_absent : (t : ℕ) (xs : List ℕ) → count t xs ≡ 0 → without t xs ≡ xs
without_absent t [] h = refl
without_absent t (x ∷ xs) h = ground (arith, without_absent t xs)

pub insert_after_absent : (t new : ℕ) (xs : List ℕ) → count t xs ≡ 0 → insert_after t new xs ≡ xs
insert_after_absent t new [] h = refl
insert_after_absent t new (x ∷ xs) h = ground (arith, insert_after_absent t new xs)

module _ {R : Type 0} where
  -- Every pane has one leaf at most.
  abbrev pub IsWellFormed : LayoutNode R → Type 0
  IsWellFormed n = (t : ℕ) → count t (leaves n) ≤ 1

  pub contains-count : (n : LayoutNode R) (t : ℕ) → contains n t ≡ ltb 0 (count t (leaves n))
  unfolding contains leaves
  contains-count (leaf id) t = ground arith
  contains-count (split o a r b s) t =
      ground (arith, contains-count a t, contains-count b t, count-append t (leaves a) (leaves b))

  unfoldable pub remaining : RemoveOutcome R → List ℕ
  remaining (collapsed n) = leaves n
  remaining window_empty = []

  rebuild_first :
      (o : _) (r s : R) (b : LayoutNode R) (out : RemoveOutcome R)
      → remaining (rebuild (λ n. split o n r b s) b out) ≡ remaining out ++ leaves b
  unfolding remaining rebuild leaves
  rebuild_first o r s b (collapsed n) = refl
  rebuild_first o r s b window_empty = refl

  rebuild_second :
      (o : _) (r s : R) (a : LayoutNode R) (out : RemoveOutcome R)
      → remaining (rebuild (λ n. split o a r n s) a out) ≡ leaves a ++ remaining out
  unfolding remaining rebuild leaves
  rebuild_second o r s a (collapsed n) = refl
  rebuild_second o r s a window_empty = sym (append-nil _)

  is_leaf-without :
      (n : LayoutNode R) (t : ℕ)
      → is_leaf n ≡ true
      → contains n t ≡ true
      → without t (leaves n) ≡ []
  unfolding contains leaves
  is_leaf-without (leaf id) t l c = ground arith
  is_leaf-without (split o a r b s) t l c = cc

  -- Removing a pane keeps every other leaf, in order, and drops its own.
  pub leaves-remove :
      (n : LayoutNode R) (t : ℕ)
      → count t (leaves n) ≤ 1
      → remaining (remove n t) ≡ without t (leaves n)
  unfolding remove leaves remaining
  leaves-remove (leaf id) t h = ground arith
  leaves-remove (split o a r b s) t h = ground (
    arith,
    count-append t (leaves a) (leaves b),
    without-append t (leaves a) (leaves b),
    contains-count a t,
    contains-count b t,
    without_absent t (leaves a),
    without_absent t (leaves b),
    is_leaf-without a t,
    is_leaf-without b t,
    append-nil (leaves a),
    rebuild_first o r s b (remove a t),
    rebuild_second o r s a (remove b t),
    leaves-remove a t,
    leaves-remove b t,
  )

  rebuild-ne-empty :
      (f : LayoutNode R → LayoutNode R) (b : LayoutNode R) (out : RemoveOutcome R)
      → rebuild f b out ≢ window_empty
  unfolding rebuild
  rebuild-ne-empty f b (collapsed n) = λ e. cc
  rebuild-ne-empty f b window_empty = λ e. cc

  -- Removal empties the window exactly when the pane was the whole tree.
  pub remove-window_empty : (n : LayoutNode R) (t : ℕ) → (remove n t ≡ window_empty) ↔ (n ≡ leaf t)
  unfolding remove
  remove-window_empty (leaf id) t = (ground arith, ground arith)
  remove-window_empty (split o a r b s) t = (
    ground (
      arith,
      rebuild-ne-empty (λ n. split o n r b s) b (remove a t),
      rebuild-ne-empty (λ n. split o a r n s) a (remove b t),
    ),
    λ e. cc,
  )

  -- A visit that does not meet the target changes nothing.
  go_absent :
      (n : LayoutNode R) (t : ℕ) (f : LayoutNode R → LayoutNode R) (left : Bool)
      → count t (leaves n) ≡ 0
      → go n t f left ≡ some (n, left)
  unfolding go leaves
  go_absent (leaf id) t f left h = ground arith
  go_absent (split o a r b s) t f left h =
      ground
        (arith, count-append t (leaves a) (leaves b), go_absent a t f left, go_absent b t f left)

  -- The tree with `f` applied at the target's leaves.
  unfoldable pub substitute : LayoutNode R → ℕ → (LayoutNode R → LayoutNode R) → LayoutNode R
  substitute (leaf id) t f = if id == t then f (leaf id) else leaf id
  substitute (split o a r b s) t f = split o (substitute a t f) r (substitute b t f) s

  pub substitute_absent :
      (n : LayoutNode R) (t : ℕ) (f : LayoutNode R → LayoutNode R)
      → count t (leaves n) ≡ 0
      → substitute n t f ≡ n
  unfolding substitute leaves
  substitute_absent (leaf id) t f h = ground arith
  substitute_absent (split o a r b s) t f h = ground (
    arith,
    count-append t (leaves a) (leaves b),
    substitute_absent a t f,
    substitute_absent b t f,
  )

  go_once :
      (n : LayoutNode R) (t : ℕ) (f : LayoutNode R → LayoutNode R)
      → count t (leaves n) ≡ 1
      → go n t f true ≡ some (substitute n t f, false)
  unfolding go substitute leaves
  go_once (leaf id) t f h = ground arith
  go_once (split o a r b s) t f h = ground (
    arith,
    count-append t (leaves a) (leaves b),
    go_once a t f,
    go_once b t f,
    go_absent a t f true,
    go_absent b t f true,
    go_absent b t f false,
    substitute_absent a t f,
    substitute_absent b t f,
  )

  pub replace_leaf_once :
      (n : LayoutNode R) (t : ℕ) (f : LayoutNode R → LayoutNode R)
      → count t (leaves n) ≡ 1
      → replace_leaf n t f ≡ some (substitute n t f)
  unfolding replace_leaf
  replace_leaf_once n t f h = ground (arith, go_once n t f)
