-- ===== src/Persistence/Checking.antt =====
-- crates/tymux-core/src/persistence.rs: what the check of a record on disk lets through.
use tymux.Base.{ℕ, ◌≡◌, inl, inr, refl, ◌≢◌, false, none, List, Result, ok, err, arith, Bool-cases}
use tymux.Layout.{LayoutNode, Orientation}
use tymux.Restart.{PersistedRestartState}
use tymux.Persistence.{
  Opaque, leaf, split, nil, cons, InvalidRecord, and_then, Node, Panes, validate_structure,
  validate_children, from_live, persisted_layout_to_live, children_to_live,
}

module _ (ty : Opaque) where
  open ty use {F, R, is_off_one}

  -- The ratios of every split sum to one, as far as `validate_structure` looks.
  abbrev pub HasRatios : LayoutNode R → Type 0
  HasRatios (LayoutNode.leaf id) = Unit {0}
  HasRatios (LayoutNode.split o a r b s) = (is_off_one r s ≡ false) × HasRatios a × HasRatios b

  pub validate_structure-from_live :
      (n : LayoutNode R) (panes : Panes ty) (restart : List (ℕ × PersistedRestartState F))
      → HasRatios n
      → validate_structure ty (from_live ty n panes restart) ≡ ok tt
  unfolding validate_structure validate_children from_live
  validate_structure-from_live (LayoutNode.leaf id) panes restart h = refl
  validate_structure-from_live (LayoutNode.split o a r b s) panes restart h = ground (
    arith,
    validate_structure-from_live a panes restart h.1,
    validate_structure-from_live b panes restart h.2,
  )

  and_then-ok :
      (x y : Result (Unit {0}) InvalidRecord) → and_then x y ≡ ok tt → (x ≡ ok tt) × (y ≡ ok tt)
  and_then-ok (ok u) y h = (refl, h)
  and_then-ok (err e) y h = ground arith

  split_checks :
      (o : Orientation) (a b : Node ty) (r s : R)
      → validate_structure ty (split o (cons a r (cons b s nil))) ≡ ok tt
      → (validate_structure ty a ≡ ok tt) × (validate_structure ty b ≡ ok tt)
  unfolding validate_structure validate_children
  split_checks o a b r s h = elim (Bool-cases (is_off_one r s)) [
    | inl k ↦ ground (arith, k, h)
    | inr k ↦
        let both : and_then (validate_structure ty a) (and_then (validate_structure ty b) (ok tt))
            ≡ ok tt =
          rw k at h in
        let (first, rest) = and_then-ok (validate_structure ty a) _ both in
        (first, (and_then-ok (validate_structure ty b) (ok tt) rest).0)
  ]

  -- A record that passes the check can be loaded: no `Split` in it has another number of children
  -- than two.
  pub validated-to_live :
      (t : Node ty) (into : Panes ty)
      → validate_structure ty t ≡ ok tt
      → (persisted_layout_to_live ty t into).0 ≢ none
  unfolding persisted_layout_to_live children_to_live validate_structure
  validated-to_live (leaf pane) into h = ground arith
  validated-to_live (split o nil) into h = ground (arith, h)
  validated-to_live (split o (cons a r nil)) into h = ground (arith, h)
  validated-to_live (split o (cons a r (cons b s nil))) into h =
      let (first, second) = split_checks o a b r s h in
      ground (
        arith,
        validated-to_live a into first,
        validated-to_live b (persisted_layout_to_live ty a into).1 second,
      )
  validated-to_live (split o (cons a r (cons b s (cons c t rest)))) into h = ground (arith, h)
