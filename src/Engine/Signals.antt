-- ===== src/Engine/Signals.antt =====
-- crates/tymux-core/src/engine.rs: which children are killed, and which supervisors forgotten, when
-- panes are dropped.
use tymux.Base.{
  ℕ, ◌+◌, ◌≡◌, ◌∙◌, refl, inl, inr, Bool, false, not, ◌&&◌, none, some, List, [], ◌∷◌, ◌++◌, arith,
  ltb, ◌==◌, if◌then◌else◌, Option-cases, Bool-cases,
}
use tymux.Base.Maps.{get, get-remove}
use tymux.Layout.Leaves.{count}
use tymux.Persistence.{PaneEntry}
use tymux.Supervision.Table.{forget}
use tymux.Engine.{
  Platform, Engine, Effect, started, killed, saved, deleted, resized, notified, drop_pane,
  drop_panes,
}

module _ (sys : Platform) where
  -- How often the child of a pane was killed.
  abbrev pub kills : ℕ → List (Effect sys) → ℕ
  kills p [] = 0
  kills p (killed id ∷ rest) = let n = kills p rest in if id == p then n + 1 else n
  kills p (saved r ∷ rest) = kills p rest
  kills p (started id ∷ rest) = kills p rest
  kills p (deleted id ∷ rest) = kills p rest
  kills p (resized id r c ∷ rest) = kills p rest
  kills p (notified id ∷ rest) = kills p rest

  -- A pane whose child has not exited.
  abbrev pub has_child : (ℕ → Bool) → Engine sys → ℕ → Bool
  has_child is_exited e p = elim (get e.panes p) [
    | some (PaneEntry.live x) ↦ not (is_exited p)
    | _ ↦ false
  ]

  pub kills-snoc :
      (p : ℕ) (xs : List (Effect sys)) (x : Effect sys)
      → kills p (xs ++ x ∷ []) ≡ kills p xs + kills p (x ∷ [])
  kills-snoc p [] x = ground arith
  kills-snoc p (killed id ∷ rest) x = ground (arith, kills-snoc p rest x)
  kills-snoc p (saved r ∷ rest) x = kills-snoc p rest x
  kills-snoc p (started id ∷ rest) x = kills-snoc p rest x
  kills-snoc p (deleted id ∷ rest) x = kills-snoc p rest x
  kills-snoc p (resized id r c ∷ rest) x = kills-snoc p rest x
  kills-snoc p (notified id ∷ rest) x = kills-snoc p rest x

  -- What is left of one pane, and whether its child was killed once more.
  abbrev pub IsSignalled : (ℕ → Bool) → Engine sys → Engine sys → ℕ → Bool → Type 0
  IsSignalled is_exited e e' p dropped =
      (kills p e'.effects
        ≡ kills p e.effects + (if dropped && has_child is_exited e p then 1 else 0))
      × (get e'.supervision.entries p ≡ (if dropped then none else get e.supervision.entries p))
      × (get e'.panes p ≡ (if dropped then none else get e.panes p))

  drop_pane-IsSignalled :
      (is_exited : ℕ → Bool) (e : Engine sys) (id p : ℕ)
      → IsSignalled is_exited e (drop_pane sys is_exited e id) p (id == p)
  unfolding drop_pane forget
  drop_pane-IsSignalled is_exited e id p =
      let entries = get-remove e.supervision.entries id p in
      let panes = get-remove e.panes id p in
      elim (Option-cases (get e.panes id)) [
        | inl k ↦ rw (drop_pane, k) (ground (arith, k), entries, panes)
        | inr (PaneEntry.dead r, k) ↦ rw (drop_pane, k) (ground (arith, k), entries, panes)
        | inr (PaneEntry.live x, k) ↦ elim (Bool-cases (is_exited id)) [
          | inl l ↦ rw (drop_pane, k, l) (ground (arith, k, l), entries, panes)
          | inr l ↦
              rw (drop_pane, k, l)
                (kills-snoc p e.effects (killed id) ∙ ground (arith, k, l), entries, panes)
        ]
      ]

  pub drop_panes-IsSignalled :
      (is_exited : ℕ → Bool) (e : Engine sys) (ids : List ℕ) (p : ℕ)
      → IsSignalled is_exited e (drop_panes sys is_exited e ids) p (ltb 0 (count p ids))
  unfolding drop_panes
  drop_panes-IsSignalled is_exited e [] p = (ground arith, refl, refl)
  drop_panes-IsSignalled is_exited e (id ∷ ids) p =
      let first = drop_pane-IsSignalled is_exited e id p in
      let rest = drop_panes-IsSignalled is_exited (drop_pane sys is_exited e id) ids p in
      ground (arith, first, rest)
