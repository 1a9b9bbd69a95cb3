-- ===== src/Engine/Remainders.antt =====
-- crates/tymux-core/src/engine.rs: what `close_pane` uses of the layout that a removal leaves.
use tymux.Base.{ℕ, ◌≡◌, refl, inl, inr, ◌⊎◌, true, not, ◌&&◌, arith, ltb, ◌==◌}
use tymux.Layout.{LayoutNode, contains, leaves, RemoveOutcome, collapsed, window_empty}
use tymux.Layout
use tymux.Layout.Leaves.{
  IsWellFormed, count, remaining, leaves-remove, contains-count, count-without,
}

module _ {R : Type 0} where
  pub outcome_cases :
      (out : RemoveOutcome R) → ((n : LayoutNode R) × (out ≡ collapsed n)) ⊎ (out ≡ window_empty)
  outcome_cases (collapsed n) = inl (n, refl)
  outcome_cases window_empty = inr refl

  contains-remaining :
      (n : LayoutNode R) (t p : ℕ)
      → IsWellFormed n
      → ltb 0 (count p (remaining (Layout.remove n t))) ≡ (contains n p && not (t == p))
  contains-remaining n t p wf =
      ground (arith, leaves-remove n t (wf t), contains-count n p, count-without t p (leaves n))

  pub contains-collapsed :
      (n n' : LayoutNode R) (t p : ℕ)
      → IsWellFormed n
      → Layout.remove n t ≡ collapsed n'
      → contains n' p ≡ (contains n p && not (t == p))
  unfolding remaining
  contains-collapsed n n' t p wf k =
      ground (arith, k, contains-remaining n t p wf, contains-count n' p)

  pub collapsed-IsWellFormed :
      (n n' : LayoutNode R) (t : ℕ)
      → IsWellFormed n
      → Layout.remove n t ≡ collapsed n'
      → IsWellFormed n'
  unfolding remaining
  collapsed-IsWellFormed n n' t wf k p =
      ground (arith, k, leaves-remove n t (wf t), count-without t p (leaves n), wf p)

  pub contains-window_empty :
      (n : LayoutNode R) (t p : ℕ)
      → IsWellFormed n
      → Layout.remove n t ≡ window_empty
      → contains n p ≡ true
      → t ≡ p
  unfolding remaining
  contains-window_empty n t p wf k c = ground (arith, k, contains-remaining n t p wf)
