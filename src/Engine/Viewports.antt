-- ===== src/Engine/Viewports.antt =====
-- crates/tymux-core/src/engine.rs: the viewports that clients report, and the size of a window that
-- follows from them. Whether the kernel accepts a pane's new size is an argument.
use tymux.Base.{
  ℕ, ◌%◌, ◌^◌, Bool, true, false, ◌&&◌, Option, none, some, List, [], ◌∷◌, ◌==◌, if◌then◌else◌, min,
  max, length,
}
use tymux.Base.Maps.{get, insert, remove}
use tymux.Layout.{PtyRect, compute_geometry, min_pane_rows, min_pane_cols}
use tymux.Persistence.{LivePane, live}
use tymux.Persistence.Sessions.{WindowState, SessionState, default_rows, default_cols}
use tymux.Engine.{
  Platform, ty, Engine, resized, notified, session_for_window, find_window, emit, persist_session,
}
use tymux.Engine.Operations.{update_window}

abbrev pub max_pane_rows : ℕ
max_pane_rows = 500

abbrev pub max_pane_cols : ℕ
max_pane_cols = 1000

unfoldable pub clamp_viewport : ℕ → ℕ → ℕ × ℕ
clamp_viewport rows cols =
    (min (max rows min_pane_rows) max_pane_rows, min (max cols min_pane_cols) max_pane_cols)

abbrev pub Viewports : Type 0
Viewports = List (ℕ × (ℕ × ℕ))

-- The smallest rows and columns of the clients, the first of which is given.
unfoldable pub min_rows : ℕ → Viewports → ℕ
min_rows rows [] = rows
min_rows rows ((id, (r, c)) ∷ rest) = min_rows (min rows r) rest

unfoldable pub min_cols : ℕ → Viewports → ℕ
min_cols cols [] = cols
min_cols cols ((id, (r, c)) ∷ rest) = min_cols (min cols c) rest

unfoldable pub effective_size : Option Viewports → ℕ × ℕ
unfolding min_rows min_cols
effective_size (some ((id, (r, c)) ∷ rest)) = (min_rows r rest, min_cols c rest)
effective_size _ = (default_rows, default_cols)

abbrev pub clients_of : Option Viewports → Viewports
clients_of none = []
clients_of (some clients) = clients

module _ (sys : Platform) where
  -- `Pane::resize`: the size after it, and whether the kernel was told.
  unfoldable pub resize : Bool → LivePane (ty sys) → ℕ → ℕ → LivePane (ty sys) × Bool
  resize accepted p rows cols =
      let rows' = min rows max_pane_rows in
      let cols' = min cols max_pane_cols in
      if (p.size_rows == rows') && (p.size_cols == cols')
      then (p, false)
      else if accepted
      then (record p { size_rows = rows'; size_cols = cols' }, true)
      else (p, false)

  -- Each live pane gets the rectangle of its own id; others are left out.
  unfoldable pub resize_panes : (ℕ → Bool) → Engine sys → List (ℕ × PtyRect) → Engine sys
  unfolding resize
  resize_panes accepted e [] = e
  resize_panes accepted e ((id, rect) ∷ rest) = elim (get e.panes id) [
    | some (live p) ↦
        let (p', told) = resize (accepted id) p rect.rows rect.cols in
        let e' = record e { panes = insert e.panes id (live p') } in
        resize_panes accepted
          (if told then emit sys e' (resized id p'.size_rows p'.size_cols) else e') rest
    | _ ↦ resize_panes accepted e rest
  ]

  abbrev pub with_size : WindowState (ty sys) → ℕ → ℕ → WindowState (ty sys)
  with_size w rows cols = record w { rows = rows; cols = cols }

  unfoldable pub recompute_window_geometry :
      (ℕ → Bool) → Engine sys → ℕ → Engine sys × Option (ℕ × ℕ)
  unfolding session_for_window effective_size resize_panes persist_session
  recompute_window_geometry accepted e window_id =
      let (rows, cols) = effective_size (get e.viewports window_id) in
      elim (session_for_window e.window_index window_id) [
        | none ↦ (e, none)
        | some session_id ↦ elim (get e.sessions session_id) [
          | none ↦ (e, none)
          | some session ↦ elim (find_window sys window_id session.windows) [
            | none ↦ (e, none)
            | some w ↦
                let new = with_size w rows cols in
                let session' : SessionState (ty sys) = record session {
                  windows = update_window sys session.windows new;
                } in
                let e1 = record e { sessions = insert e.sessions session_id session' } in
                let e2 = resize_panes accepted e1 (compute_geometry sys.f32 new.layout rows cols) in
                (
                  persist_session sys (emit sys e2 (notified window_id)) session_id,
                  some (rows, cols),
                )
          ]
        ]
      ]

  unfoldable pub report_viewport_and_recompute :
      (ℕ → Bool) → Engine sys → ℕ → ℕ → ℕ → ℕ → Engine sys × Option (ℕ × ℕ)
  unfolding clamp_viewport recompute_window_geometry
  report_viewport_and_recompute accepted e window_id client_id rows cols =
      let clients =
        insert (clients_of (get e.viewports window_id)) client_id (clamp_viewport rows cols) in
      recompute_window_geometry accepted
        (record e { viewports = insert e.viewports window_id clients }) window_id

  unfoldable pub unregister_viewport : Engine sys → ℕ → ℕ → Engine sys
  unregister_viewport e window_id client_id = elim (get e.viewports window_id) [
    | none ↦ e
    | some clients ↦ record e {
      viewports = insert e.viewports window_id (remove clients client_id);
    }
  ]

  unfoldable pub attached_client_count : Engine sys → ℕ → ℕ
  attached_client_count e window_id = elim (get e.viewports window_id) [
    | none ↦ 0
    | some clients ↦ length clients % 2 ^ 32
  ]
