-- ===== src/Layout/Closing.antt =====
-- crates/tymux-core/src/layout.rs: closing the pane that a split has just made restores the tree.
use tymux.Base.{
  ℕ, ◌≤◌, ◌<◌, ◌≡◌, refl, true, false, some, [], ◌∷◌, arith, inl, inr, ltb, ok, Bool-cases,
}
use tymux.Layout.{
  Orientation, LayoutNode, leaf, split, collapsed, Float32, contains, leaves, is_leaf, rebuild,
  remove, nest, split_node,
}
use tymux.Layout.Leaves.{
  count, count-append, contains-count, substitute, substitute_absent, replace_leaf_once,
}

module _ {R : Type 0} (o : Orientation) (a b : LayoutNode R) (r s : R) (t : ℕ) where
  remove_first :
      (a' : LayoutNode R)
      → contains a t ≡ true
      → is_leaf a ≡ false
      → contains b t ≡ false
      → remove a t ≡ collapsed a'
      → remove (split o a r b s) t ≡ collapsed (split o a' r b s)
  unfolding remove rebuild
  remove_first a' h l k e = rw (h, l, k, e)

  remove_second :
      (b' : LayoutNode R)
      → contains a t ≡ false
      → contains b t ≡ true
      → is_leaf b ≡ false
      → remove b t ≡ collapsed b'
      → remove (split o a r b s) t ≡ collapsed (split o a r b' s)
  unfolding remove rebuild
  remove_second b' h k l e = rw (h, k, l, e)

  remove_second_leaf :
      contains a t ≡ false
      → contains b t ≡ true
      → is_leaf b ≡ true
      → remove (split o a r b s) t ≡ collapsed a
  unfolding remove
  remove_second_leaf h k l = rw (h, k, l)

module _ (fl : Float32) (o : Orientation) (t new : ℕ) where
  count-nest :
      (n : LayoutNode fl.F)
      → count new (leaves n) ≡ 0
      → count new (leaves (substitute n t (nest fl o new))) ≡ count t (leaves n)
  unfolding substitute leaves
  count-nest (leaf id) h = ground arith
  count-nest (split o' a r b s) h = ground (
    arith,
    count-append t (leaves a) (leaves b),
    count-append new (leaves a) (leaves b),
    count-append new (leaves (substitute a t (nest fl o new)))
        (leaves (substitute b t (nest fl o new))),
    count-nest a,
    count-nest b,
  )

  is_leaf-nest :
      (n : LayoutNode fl.F)
      → 0 < count t (leaves n)
      → is_leaf (substitute n t (nest fl o new)) ≡ false
  unfolding substitute leaves
  is_leaf-nest (leaf id) h = ground arith
  is_leaf-nest (split o' a r b s) h = refl

  nest_here :
      (id : ℕ)
      → count t (id ∷ []) ≡ 1
      → substitute (leaf id) t (nest fl o new) ≡ nest fl o new (leaf id)
  unfolding substitute
  nest_here id h = ground arith

  contains-true : (n : LayoutNode fl.F) (p : ℕ) → 0 < count p (leaves n) → contains n p ≡ true
  contains-true n p h = ground (arith, contains-count n p)

  contains-false : (n : LayoutNode fl.F) (p : ℕ) → count p (leaves n) ≡ 0 → contains n p ≡ false
  contains-false n p h = ground (arith, contains-count n p)

  remove-nest :
      (n : LayoutNode fl.F)
      → count t (leaves n) ≡ 1
      → count new (leaves n) ≡ 0
      → remove (substitute n t (nest fl o new)) new ≡ collapsed n
  unfolding substitute leaves
  remove-nest (leaf id) h k = rw (nest_here id h) (
      remove_second_leaf o (leaf id) (leaf new) fl.half fl.half new (contains-false (leaf id) new k)
        (contains-true (leaf new) new (ground arith)) refl)
  remove-nest (split o' a r b s) h k =
      let in_t = count-append t (leaves a) (leaves b) in
      let in_new = count-append new (leaves a) (leaves b) in
      elim (Bool-cases (ltb 0 (count t (leaves a)))) [
        | inl e ↦
            let held : count t (leaves a) ≡ 1 = ground arith in
            rw (substitute_absent b t (nest fl o new) (ground arith)) (
              remove_first o' _ b r s new a
                (contains-true _ new (rw (count-nest a (omega arith)) (omega arith)))
                (is_leaf-nest a (omega arith)) (contains-false b new (omega arith))
                (remove-nest a held (omega arith)))
        | inr e ↦
            let held : count t (leaves b) ≡ 1 = ground arith in
            rw (substitute_absent a t (nest fl o new) (ground arith)) (
              remove_second o' a _ r s new b (contains-false a new (omega arith))
                (contains-true _ new (rw (count-nest b (omega arith)) (omega arith)))
                (is_leaf-nest b (omega arith)) (remove-nest b held (omega arith)))
      ]

  -- A split that succeeded for a pane that the tree did not hold is undone by removing that pane.
  pub remove-split_node :
      (n n' : LayoutNode fl.F) (rows cols : ℕ)
      → count t (leaves n) ≤ 1
      → count new (leaves n) ≡ 0
      → split_node fl n t o new rows cols ≡ some (n', ok tt)
      → remove n' new ≡ collapsed n
  unfolding split_node
  remove-split_node n n' rows cols h k e =
      ground (arith, contains-count n t, replace_leaf_once n t (nest fl o new), remove-nest n)
