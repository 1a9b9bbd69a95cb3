-- ===== src/Engine/Removals.antt =====
-- crates/tymux-core/src/engine.rs: the operations that remove panes, windows and sessions.
use tymux.Base.{
  ℕ, Bool, Option, none, some, List, [], ◌∷◌, ◌++◌, ◌==◌, if◌then◌else◌, Result, ok, err,
}
use tymux.Base.Maps.{get, insert, remove}
use tymux.Layout.{LayoutNode, RemoveOutcome, collapsed, window_empty}
use tymux.Layout
use tymux.Persistence.Sessions.{WindowState, SessionState}
use tymux.Supervision.{pane_not_found}
use tymux.Engine.{
  Platform, ty, deleted, notified, Engine, WindowIndex, remove_pane, remove_window,
  window_and_session_for_pane, emit, all_leaves, persist_session, drop_pane, drop_panes,
}
use tymux.Engine.Snapshots.{R, session_to_snapshot}
use tymux.Engine.Operations.{Error, Snapshot, Windows}

module _ (sys : Platform) where
  open sys use {Text}

  pub record ClosePaneOutcome : Type 0 where
    pub window_closed : Option (ℕ × Text)
    pub session_closed : Option (ℕ × Text)
    pub session : Option (Snapshot sys)

  -- The end of a killed session: its windows leave the index, and its panes are dropped.
  abbrev pub remove_windows : WindowIndex → Windows sys → WindowIndex
  remove_windows index [] = index
  remove_windows index (w ∷ rest) = remove_windows (remove_window index w.id) rest

  abbrev pub remove_indexed : WindowIndex → List ℕ → WindowIndex
  remove_indexed index [] = index
  remove_indexed index (id ∷ ids) = remove_indexed (remove_pane index id) ids

  unfoldable pub kill_session :
      (ℕ → Bool) → Engine sys → ℕ → Engine sys × Result (Unit {0}) (Unit {0})
  unfolding all_leaves drop_panes remove_window remove_pane
  kill_session is_exited e id = elim (get e.sessions id) [
    | none ↦ (e, err tt)
    | some session ↦
        let pane_ids = all_leaves sys session.windows in
        let e1 = record e {
          sessions = remove e.sessions id;
          window_index = remove_indexed (remove_windows e.window_index session.windows) pane_ids;
        } in
        (emit sys (drop_panes sys is_exited e1 pane_ids) (deleted id), ok tt)
  ]

  -- The windows before the one with an id, that window, and those behind it: `position` and `remove`.
  abbrev pub take_window :
      ℕ → Windows sys → Option (Windows sys × WindowState (ty sys) × Windows sys)
  take_window id [] = none
  take_window id (w ∷ rest) =
      let later = take_window id rest in
      if w.id == id then some ([], w, rest) else elim later [
        | none ↦ none
        | some (before, found, after) ↦ some (w ∷ before, found, after)
      ]

  abbrev pub first_or : ℕ → Windows sys → ℕ
  first_or id [] = id
  first_or id (w ∷ rest) = w.id

  -- What the removal of a pane leaves of its window, in the place where the window stood.
  abbrev pub put_back : WindowState (ty sys) → RemoveOutcome (R sys) → Windows sys → Windows sys
  put_back w (collapsed layout) after = record w { layout = layout } ∷ after
  put_back w window_empty after = after

  abbrev pub closed_window : WindowState (ty sys) → RemoveOutcome (R sys) → Option (ℕ × Text)
  closed_window w (collapsed layout) = none
  closed_window w window_empty = some (w.id, w.name)

  -- The active window changes only when a window has closed.
  abbrev pub next_active : Option (ℕ × Text) → ℕ → Windows sys → ℕ
  next_active none id ws = id
  next_active (some closed) id ws = first_or id ws

  -- The session's end or its new state, with the write to disk that follows.
  abbrev pub store_session : Engine sys → ℕ → SessionState (ty sys) → Windows sys → Engine sys
  store_session e id session [] =
      emit sys (record e { sessions = remove e.sessions id }) (deleted id)
  store_session e id session (w ∷ ws) =
      persist_session sys (record e { sessions = insert e.sessions id session }) id

  abbrev pub session_end : SessionState (ty sys) → Windows sys → Option (ℕ × Text)
  session_end session [] = some (session.id, session.name)
  session_end session (w ∷ ws) = none

  abbrev pub unindex : WindowIndex → ℕ → Option (ℕ × Text) → WindowIndex
  unindex index pane_id none = remove_pane index pane_id
  unindex index pane_id (some (id, name)) = remove_window (remove_pane index pane_id) id

  abbrev pub notice : Engine sys → Option (ℕ × Text) → ℕ → Engine sys
  notice e none id = emit sys e (notified id)
  notice e (some closed) id = e

  -- The panes of a session that closed with its last window; the source looks for more in it.
  abbrev pub left_over : Option (ℕ × Text) → Windows sys → List ℕ
  left_over none ws = []
  left_over (some closed) ws = all_leaves sys ws

  -- The call once the window is found, with the windows around it.
  unfoldable pub close_in :
      (ℕ → Bool)
      → Engine sys
      → ℕ
      → ℕ
      → SessionState (ty sys)
      → Windows sys
      → WindowState (ty sys)
      → Windows sys
      → Engine sys × ClosePaneOutcome
  unfolding all_leaves persist_session drop_pane drop_panes remove_window remove_pane
  close_in is_exited e pane_id session_id session before w after =
      let out = Layout.remove w.layout pane_id in
      let closed = closed_window w out in
      let windows = before ++ put_back w out after in
      let session' : SessionState (ty sys) = record session {
        windows = windows;
        active_window_id = next_active closed session.active_window_id windows;
      } in
      let ended = session_end session windows in
      let e1 = store_session e session_id session' windows in
      let e2 = record e1 { window_index = unindex e1.window_index pane_id closed } in
      let e3 = drop_panes sys is_exited e2 (pane_id ∷ left_over ended windows) in
      let snapshot = session_to_snapshot sys is_exited e.supervision session' e.panes in
      (
        notice e3 closed w.id,
        record {
          window_closed = closed;
          session_closed = ended;
          session = elim ended [ none ↦ some snapshot | some x ↦ none ];
        },
      )

  unfoldable pub close_pane :
      (ℕ → Bool) → Engine sys → ℕ → Engine sys × Result ClosePaneOutcome (Error sys)
  unfolding window_and_session_for_pane close_in
  close_pane is_exited e pane_id =
      elim (window_and_session_for_pane {F = sys.f64.F} e.window_index pane_id) [
        | err x ↦ (e, err x)
        | ok (window_id, session_id) ↦ elim (get e.sessions session_id) [
          | none ↦ (e, err (pane_not_found pane_id))
          | some session ↦ elim (take_window window_id session.windows) [
            | none ↦ (e, err (pane_not_found pane_id))
            | some (before, w, after) ↦
                let (e', outcome) =
                  close_in is_exited e pane_id session_id session before w after in
                (e', ok outcome)
          ]
        ]
      ]
