-- ===== src/Engine/Sizing.antt =====
-- crates/tymux-core/src/engine.rs: the size of a window is within bounds and fits all its clients, and
-- a new size keeps the index in agreement with the sessions.
use tymux.Base.{ℕ, ◌≡◌, inl, inr, Bool, some, arith, Option-cases}
use tymux.Base.Maps.{get, remove}
use tymux.Persistence.Sessions.{SessionState}
use tymux.Engine.{Platform, ty, Engine, find_window}
use tymux.Engine.Operations.{update_window}
use tymux.Engine.Indexing.{Window, IsIndexed, is_some}
use tymux.Engine.Ranges.{IsClamped, remove-AllInRange, insert-IsClamped, get-IsClamped}
use tymux.Engine.Viewports.{effective_size, with_size, unregister_viewport}

module _ (sys : Platform) where
  -- A resize touches the sizes of panes alone.
  record Resizes (e e' : Engine sys) : Type 0 where
    same_sessions : e'.sessions ≡ e.sessions
    same_index : e'.window_index ≡ e.window_index
    same_viewports : e'.viewports ≡ e.viewports
    same_panes : (j : ℕ) → is_some sys (get e'.panes j) ≡ is_some sys (get e.panes j)

  -- A recomputation of a known window.
  module _ (accepted : ℕ → Bool) (e : Engine sys) (w0 s0 : ℕ) (session : SessionState (ty sys))
      (w : Window sys) (h : IsIndexed sys e) (ws : get e.window_index.window_session w0 ≡ some s0)
      (at_s : get e.sessions s0 ≡ some session)
      (at_w : find_window sys w0 session.windows ≡ some w) where
    abbrev sized : Window sys
    sized = let (rows, cols) = effective_size (get e.viewports w0) in with_size sys w rows cols

    abbrev sized_session : SessionState (ty sys)
    sized_session = record session { windows = update_window sys session.windows sized }

  -- What is on file stays in range when a client leaves.
  pub unregister_viewport-IsClamped :
      (e : Engine sys) (window_id client_id : ℕ)
      → IsClamped e.viewports
      → IsClamped (unregister_viewport sys e window_id client_id).viewports
  unfolding unregister_viewport
  unregister_viewport-IsClamped e window_id client_id h =
      elim (Option-cases (get e.viewports window_id)) [
        | inl k ↦ rw (unregister_viewport, k) h
        | inr (clients, k) ↦
            rw (unregister_viewport, k)
              (insert-IsClamped e.viewports window_id (remove clients client_id) h (
                remove-AllInRange clients client_id
                  (ground (arith, k, get-IsClamped e.viewports window_id h))))
      ]
