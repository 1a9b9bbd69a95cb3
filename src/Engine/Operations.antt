-- ===== src/Engine/Operations.antt =====
-- crates/tymux-core/src/engine.rs: the operations that create sessions, windows and panes.
-- `none` is a panic, which `LayoutNode::split` and the snapshot of a session that is gone could raise.
use tymux.Base.{
  ℕ, Bool, Option, none, some, List, [], ◌∷◌, ◌++◌, ◌==◌, if◌then◌else◌, Result, ok, err, length,
}
use tymux.Base.Maps.{get, insert}
use tymux.Layout.{LayoutNode, Orientation, LayoutError, split_node}
use tymux.Restart.Policy.{RestartPolicy, validate}
use tymux.Persistence.{live}
use tymux.Persistence.Sessions.{WindowState, SessionState, default_rows, default_cols}
use tymux.Supervision.{
  EngineError, pane_not_found, session_not_found, invalid_restart_policy, below_minimum_size,
  below_recommended_size,
}
use tymux.Supervision.Table.{register_live}
use tymux.Engine.{
  Platform, ty, started, notified, Spawned, Engine, WindowIndex, insert_pane, insert_window,
  window_and_session_for_pane, emit, find_window, persist_session,
}
use tymux.Engine.Snapshots.{SessionSnapshot, R, session_to_snapshot, session_snapshot}

abbrev pub layout_error : {F : Type 0} → LayoutError → EngineError F
layout_error (LayoutError.below_minimum_size rows cols) = below_minimum_size rows cols
layout_error (LayoutError.below_recommended_size rows) = below_recommended_size rows
layout_error (LayoutError.pane_not_found pane_id) = pane_not_found pane_id

module _ (sys : Platform) where
  open sys use {Text, to_string}

  abbrev pub Error : Type 0
  Error = EngineError sys.f64.F

  abbrev pub Snapshot : Type 0
  Snapshot = SessionSnapshot Text (R sys)

  abbrev pub Windows : Type 0
  Windows = List (WindowState (ty sys))

  -- A new pane in the map, under supervision and in the index.
  abbrev pub add_pane :
      Engine sys → Spawned sys → RestartPolicy sys.f64.F → ℕ → sys.f64.F → WindowIndex → Engine sys
  add_pane e new policy now unit index = record e {
    panes = insert e.panes new.id (live new.kept);
    supervision = register_live sys.f64 e.supervision new.id new.pane policy now unit;
    window_index = index;
  }

  abbrev pub new_window : ℕ → Text → ℕ → WindowState (ty sys)
  new_window id name pane_id = record {
    id = id;
    name = name;
    layout = LayoutNode.leaf pane_id;
    rows = default_rows;
    cols = default_cols;
  }

  -- A refused policy is an error of the engine; `none` is the error of the spawn itself.
  unfoldable pub create_session_supervised :
      Engine sys
      → Text
      → RestartPolicy sys.f64.F
      → Option (Spawned sys)
      → ℕ
      → ℕ
      → ℕ
      → sys.f64.F
      → Engine sys × Result ℕ (Option Error)
  unfolding insert_pane insert_window persist_session
  create_session_supervised e name policy spawned window_id id now unit =
      elim (validate sys.f64 policy) [
        | err x ↦ (e, err (some (invalid_restart_policy x)))
        | ok u ↦ elim spawned [
          | none ↦ (e, err none)
          | some new ↦
              let session : SessionState (ty sys) = record {
                id = id;
                name = name;
                windows = new_window window_id (to_string 0) new.id ∷ [];
                active_window_id = window_id;
                default_restart_policy = policy;
              } in
              let e1 = record e { sessions = insert e.sessions id session } in
              let index =
                insert_pane (insert_window e1.window_index window_id id) new.id window_id in
              let e2 = add_pane e1 new policy now unit index in (persist_session sys e2 id, ok id)
        ]
      ]

  -- The window in place of the one with its id: `iter_mut().find(..)` and a write.
  abbrev pub update_window : Windows → WindowState (ty sys) → Windows
  update_window [] new = []
  update_window (w ∷ rest) new = if w.id == new.id then new ∷ rest else w ∷ update_window rest new

  -- What `split_pane` does once the layout has split and the sessions are unlocked. Other calls may run
  -- before the new pane is filed (`early`) and before the sessions are locked again for the snapshot
  -- (`late`); `&sessions[..]` panics, `none`, if the session is not there any more.
  unfoldable pub after_split :
      (ℕ → Bool)
      → (Engine sys → Engine sys)
      → (Engine sys → Engine sys)
      → Engine sys
      → ℕ
      → ℕ
      → RestartPolicy sys.f64.F
      → Spawned sys
      → ℕ
      → sys.f64.F
      → Option (Engine sys × Result Snapshot Error)
  unfolding insert_pane persist_session session_snapshot
  after_split is_exited early late e window_id session_id policy new now unit =
      let e1 = early e in
      let index = insert_pane e1.window_index new.id window_id in
      let e2 = late (add_pane e1 new policy now unit index) in
      elim (get e2.sessions session_id) [
        | none ↦ none
        | some session ↦ some (
          emit sys (persist_session sys e2 session_id) (notified window_id),
          ok (session_to_snapshot sys is_exited e2.supervision session e2.panes),
        )
      ]

  -- The process runs before anything is checked, and nothing ends it when the split is refused.
  unfoldable pub split_pane :
      (ℕ → Bool)
      → (Engine sys → Engine sys)
      → (Engine sys → Engine sys)
      → Engine sys
      → ℕ
      → Orientation
      → Option (Spawned sys)
      → ℕ
      → sys.f64.F
      → Option (Engine sys × Result Snapshot Error)
  unfolding window_and_session_for_pane after_split
  split_pane is_exited early late e0 pane_id o none now unit =
      some (e0, err (pane_not_found pane_id))
  split_pane is_exited early late e0 pane_id o (some new) now unit =
      let e = emit sys e0 (started new.id) in
      elim (window_and_session_for_pane {F = sys.f64.F} e.window_index pane_id) [
        | err x ↦ some (e, err x)
        | ok (window_id, session_id) ↦ elim (get e.sessions session_id) [
          | none ↦ some (e, err (pane_not_found pane_id))
          | some session ↦ elim (find_window sys window_id session.windows) [
            | none ↦ some (e, err (pane_not_found pane_id))
            | some w ↦ elim (split_node sys.f32 w.layout pane_id o new.id w.rows w.cols) [
              | none ↦ none
              | some (layout, err x) ↦ some (e, err (layout_error x))
              | some (layout, ok u) ↦
                  let windows = update_window session.windows (record w { layout = layout }) in
                  let session' : SessionState (ty sys) = record session { windows = windows } in
                  after_split is_exited early late
                    (record e { sessions = insert e.sessions session_id session' }) window_id
                    session_id session.default_restart_policy new now unit
            ]
          ]
        ]
      ]

  unfoldable pub create_window :
      (ℕ → Bool)
      → Engine sys
      → ℕ
      → Option (Spawned sys)
      → ℕ
      → ℕ
      → sys.f64.F
      → Engine sys × Result Snapshot Error
  unfolding insert_pane insert_window persist_session session_to_snapshot
  create_window is_exited e session_id none window_id now unit =
      (e, err (session_not_found session_id))
  create_window is_exited e session_id (some new) window_id now unit =
      elim (get e.sessions session_id) [
        | none ↦ (e, err (session_not_found session_id))
        | some session ↦
            let added = new_window window_id (to_string (length session.windows)) new.id in
            let session' : SessionState (ty sys) = record session {
              windows = session.windows ++ added ∷ [];
              active_window_id = window_id;
            } in
            let e1 = record e { sessions = insert e.sessions session_id session' } in
            let index =
              insert_pane (insert_window e1.window_index window_id session_id) new.id window_id in
            let e2 = add_pane e1 new session'.default_restart_policy now unit index in
            (
              persist_session sys e2 session_id,
              ok (session_to_snapshot sys is_exited e2.supervision session' e2.panes),
            )
      ]
