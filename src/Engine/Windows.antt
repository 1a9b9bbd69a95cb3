-- ===== src/Engine/Windows.antt =====
-- crates/tymux-core/src/engine.rs: the windows of one session, found, added, replaced and taken out.
use tymux.Base.{
  ℕ, ◌≡◌, ◌≢◌, refl, ◌⊎◌, inl, inr, none, some, [], ◌∷◌, ◌++◌, arith, ◌==◌, if◌then◌else◌,
  Bool-cases,
}
use tymux.Persistence.Sessions.{WindowState}
use tymux.Engine.{Platform, ty, find_window}
use tymux.Engine.Operations.{Windows, update_window}
use tymux.Engine.Removals.{take_window}

module _ (sys : Platform) where
  -- No two windows have one id.
  abbrev pub IsDistinct : Windows sys → Type 0
  IsDistinct [] = Unit {0}
  IsDistinct (w ∷ rest) = (find_window sys w.id rest ≡ none) × IsDistinct rest

  pub find_window-id :
      (ws : Windows sys) (id : ℕ) (w : WindowState (ty sys))
      → find_window sys id ws ≡ some w
      → w.id ≡ id
  find_window-id [] id w h = ground arith
  find_window-id (x ∷ ws) id w h = ground (arith, find_window-id ws id w)

  pub find_window-append :
      (ws : Windows sys) (new : WindowState (ty sys)) (j : ℕ)
      → find_window sys new.id ws ≡ none
      → find_window sys j (ws ++ new ∷ [])
        ≡ (if new.id == j then some new else find_window sys j ws)
  find_window-append [] new j h = refl
  find_window-append (x ∷ ws) new j h = ground (arith, find_window-append ws new j)

  pub append-IsDistinct :
      (ws : Windows sys) (new : WindowState (ty sys))
      → find_window sys new.id ws ≡ none
      → IsDistinct ws
      → IsDistinct (ws ++ new ∷ [])
  append-IsDistinct [] new h d = (refl, tt)
  append-IsDistinct (x ∷ ws) new h d =
      ground (arith, append-IsDistinct ws new, find_window-append ws new x.id)

  pub find_window-update :
      (ws : Windows sys) (new : WindowState (ty sys)) (j : ℕ)
      → find_window sys new.id ws ≢ none
      → find_window sys j (update_window sys ws new)
        ≡ (if new.id == j then some new else find_window sys j ws)
  find_window-update [] new j h = absurd (h refl)
  find_window-update (x ∷ ws) new j h = ground (arith, find_window-update ws new j)

  pub update-IsDistinct :
      (ws : Windows sys) (new : WindowState (ty sys))
      → find_window sys new.id ws ≢ none
      → IsDistinct ws
      → IsDistinct (update_window sys ws new)
  update-IsDistinct [] new h d = tt
  update-IsDistinct (x ∷ ws) new h d =
      ground (arith, update-IsDistinct ws new, find_window-update ws new x.id)

  -- What stands around the window that is taken.
  pub record Surrounds (ws before : Windows sys) (w : WindowState (ty sys)) (after : Windows sys)
      : Type 0 where
    pub whole : ws ≡ before ++ w ∷ after
    pub first : find_window sys w.id before ≡ none

  pub take_window-cases :
      (id : ℕ) (ws : Windows sys)
      → ((take_window sys id ws ≡ none) × (find_window sys id ws ≡ none))
        ⊎ ((before : Windows sys) × (w : WindowState (ty sys)) × (after : Windows sys)
            × (take_window sys id ws ≡ some (before, w, after))
            × (find_window sys id ws ≡ some w)
            × (w.id ≡ id)
            × Surrounds ws before w after)
  take_window-cases id [] = inl (refl, refl)
  take_window-cases id (x ∷ ws) = elim (Bool-cases (x.id == id)) [
    | inl e ↦
        inr ([], x, ws, rw e refl, rw e refl, ground arith, record { whole = refl; first = refl })
    | inr e ↦ elim (take_window-cases id ws) [
      | inl (k, l) ↦ inl (rw (e, k) refl, rw (e, l) refl)
      | inr (before, w, after, k, l, same, around) ↦ inr (
        x ∷ before,
        w,
        after,
        rw (e, k) refl,
        rw (e, l) refl,
        same,
        record { whole = rw around.whole refl; first = ground (arith, around.first) },
      )
    ]
  ]

  pub find_window-taken :
      (before : Windows sys) (w : WindowState (ty sys)) (after : Windows sys) (j : ℕ)
      → find_window sys w.id before ≡ none
      → IsDistinct (before ++ w ∷ after)
      → find_window sys j (before ++ after)
        ≡ (if w.id == j then none else find_window sys j (before ++ w ∷ after))
  find_window-taken [] w after j h d = ground arith
  find_window-taken (x ∷ before) w after j h d = ground (arith, find_window-taken before w after j)

  pub taken-IsDistinct :
      (before : Windows sys) (w : WindowState (ty sys)) (after : Windows sys)
      → find_window sys w.id before ≡ none
      → IsDistinct (before ++ w ∷ after)
      → IsDistinct (before ++ after)
  taken-IsDistinct [] w after h d = d.1
  taken-IsDistinct (x ∷ before) w after h d =
      ground (arith, taken-IsDistinct before w after, find_window-taken before w after x.id)

  pub find_window-replaced :
      (before : Windows sys) (w new : WindowState (ty sys)) (after : Windows sys) (j : ℕ)
      → find_window sys w.id before ≡ none
      → new.id ≡ w.id
      → find_window sys j (before ++ new ∷ after)
        ≡ (if w.id == j then some new else find_window sys j (before ++ w ∷ after))
  find_window-replaced [] w new after j h same = ground arith
  find_window-replaced (x ∷ before) w new after j h same =
      ground (arith, find_window-replaced before w new after j)

  pub replaced-IsDistinct :
      (before : Windows sys) (w new : WindowState (ty sys)) (after : Windows sys)
      → find_window sys w.id before ≡ none
      → new.id ≡ w.id
      → IsDistinct (before ++ w ∷ after)
      → IsDistinct (before ++ new ∷ after)
  replaced-IsDistinct [] w new after h same d = ground arith
  replaced-IsDistinct (x ∷ before) w new after h same d =
      ground (
        arith,
        replaced-IsDistinct before w new after,
        find_window-replaced before w new after x.id,
      )
