-- ===== src/Engine/Snapshots.antt =====
-- crates/tymux-core/src/engine.rs: what the engine tells of its sessions, and the lookups of a pane.
use tymux.Base.{ℕ, Bool, false, not, ◌||◌, Option, none, some, List, [], ◌∷◌, if◌then◌else◌, map}
use tymux.Base.Maps.{get}
use tymux.Layout.{LayoutNode, Orientation}
use tymux.Restart.{LifecycleState}
use tymux.Restart
use tymux.Persistence.{LivePane, PaneEntry, Panes}
use tymux.Persistence.Sessions.{WindowState, SessionState}
use tymux.Supervision.{Inner}
use tymux.Engine.{Platform, ty, Engine, find_window}

pub record PaneInfo (Text : Type 0) : Type 0 where
  pub id : ℕ
  pub rows : ℕ
  pub cols : ℕ
  pub live : Bool
  pub cwd : Text
  pub state : LifecycleState

pub data LayoutSnapshot (Text R : Type 0) : Type 0 where
  leaf : PaneInfo Text → LayoutSnapshot Text R
  split :
      Orientation → LayoutSnapshot Text R → R → LayoutSnapshot Text R → R → LayoutSnapshot Text R

pub record WindowSnapshot (Text R : Type 0) : Type 0 where
  pub id : ℕ
  pub name : Text
  pub layout : LayoutSnapshot Text R

pub record SessionSnapshot (Text R : Type 0) : Type 0 where
  pub id : ℕ
  pub name : Text
  pub windows : List (WindowSnapshot Text R)
  pub live : Bool

unfoldable pub window_has_live_pane : {Text R : Type 0} → LayoutSnapshot Text R → Bool
window_has_live_pane (leaf info) = info.live
window_has_live_pane (split o a r b s) = window_has_live_pane a || window_has_live_pane b

abbrev pub any_live : {Text R : Type 0} → List (WindowSnapshot Text R) → Bool
any_live [] = false
any_live (w ∷ rest) = window_has_live_pane w.layout || any_live rest

pub data PaneLookup (P : Type 0) : Type 0 where
  live : P → PaneLookup P
  dead : PaneLookup P
  unknown : PaneLookup P

module _ (sys : Platform) where
  open sys use {Text, empty_text}

  abbrev pub R : Type 0
  R = sys.f32.F

  unfoldable pub state_of : Inner sys.f64.F → ℕ → Option LifecycleState
  state_of inner id = elim (get inner.entries id) [ none ↦ none | some x ↦ some x.sup.state ]

  unfoldable pub pane_state : Inner sys.f64.F → ℕ → Bool → LifecycleState
  unfolding state_of
  pane_state inner id is_live = elim (state_of inner id) [
    | none ↦ if is_live then Restart.live else Restart.exited
    | some state ↦ state
  ]

  abbrev pub info : Inner sys.f64.F → ℕ → ℕ → ℕ → Bool → Text → PaneInfo Text
  info inner id rows cols is_live cwd = record {
    id = id;
    rows = rows;
    cols = cols;
    live = is_live;
    cwd = cwd;
    state = pane_state inner id is_live;
  }

  -- What is told of a leaf, by its entry in the map of panes.
  unfoldable pub leaf_info :
      (ℕ → Bool) → Inner sys.f64.F → ℕ → Option (PaneEntry (ty sys)) → PaneInfo Text
  leaf_info is_exited inner id (some (PaneEntry.live p)) =
      info inner id p.size_rows p.size_cols (not (is_exited id)) p.cwd
  leaf_info is_exited inner id (some (PaneEntry.dead r)) = info inner id r.rows r.cols false r.cwd
  leaf_info is_exited inner id none = info inner id 0 0 false empty_text

  unfoldable pub layout_to_snapshot :
      (ℕ → Bool) → Inner sys.f64.F → LayoutNode R → Panes (ty sys) → LayoutSnapshot Text R
  unfolding leaf_info
  layout_to_snapshot is_exited inner (LayoutNode.leaf id) panes =
      leaf (leaf_info is_exited inner id (get panes id))
  layout_to_snapshot is_exited inner (LayoutNode.split o a r b s) panes =
      split o (layout_to_snapshot is_exited inner a panes) r
        (layout_to_snapshot is_exited inner b panes) s

  unfoldable pub window_to_snapshot :
      (ℕ → Bool) → Inner sys.f64.F → Panes (ty sys) → WindowState (ty sys) → WindowSnapshot Text R
  unfolding layout_to_snapshot
  window_to_snapshot is_exited inner panes w = record {
    id = w.id;
    name = w.name;
    layout = layout_to_snapshot is_exited inner w.layout panes;
  }

  unfoldable pub session_to_snapshot :
      (ℕ → Bool) → Inner sys.f64.F → SessionState (ty sys) → Panes (ty sys) → SessionSnapshot Text R
  unfolding window_to_snapshot window_has_live_pane
  session_to_snapshot is_exited inner session panes =
      let windows = map (window_to_snapshot is_exited inner panes) session.windows in
      record { id = session.id; name = session.name; windows = windows; live = any_live windows }

  unfoldable pub session_snapshot : (ℕ → Bool) → Engine sys → ℕ → Option (SessionSnapshot Text R)
  unfolding session_to_snapshot
  session_snapshot is_exited e session_id = elim (get e.sessions session_id) [
    | none ↦ none
    | some session ↦ some (session_to_snapshot is_exited e.supervision session e.panes)
  ]

  -- `sessions.values().flat_map(..).find(..)`, in the order of the list.
  abbrev pub find_in_sessions : ℕ → List (ℕ × SessionState (ty sys)) → Option (WindowState (ty sys))
  find_in_sessions id [] = none
  find_in_sessions id ((k, s) ∷ rest) = elim (find_window sys id s.windows) [
    | some w ↦ some w
    | none ↦ find_in_sessions id rest
  ]

  unfoldable pub window_snapshot : (ℕ → Bool) → Engine sys → ℕ → Option (WindowSnapshot Text R)
  unfolding window_to_snapshot
  window_snapshot is_exited e window_id = elim (find_in_sessions window_id e.sessions) [
    | none ↦ none
    | some w ↦ some (window_to_snapshot is_exited e.supervision e.panes w)
  ]

  unfoldable pub pane_lookup : (ℕ → Bool) → Engine sys → ℕ → PaneLookup (LivePane (ty sys))
  pane_lookup is_exited e id = elim (get e.panes id) [
    | none ↦ unknown
    | some (PaneEntry.dead r) ↦ PaneLookup.dead
    | some (PaneEntry.live p) ↦ if is_exited id then PaneLookup.dead else PaneLookup.live p
  ]

  unfoldable pub exited_pane : (ℕ → Bool) → Engine sys → ℕ → Option (LivePane (ty sys))
  exited_pane is_exited e id = elim (get e.panes id) [
    | some (PaneEntry.live p) ↦ if is_exited id then some p else none
    | _ ↦ none
  ]

  unfoldable pub held_pane : Engine sys → ℕ → Option (LivePane (ty sys))
  held_pane e id = elim (get e.panes id) [ some (PaneEntry.live p) ↦ some p | _ ↦ none ]

  unfoldable pub dead_pane_exit_code : (ℕ → Bool) → Engine sys → ℕ → Option (Option ℕ)
  dead_pane_exit_code is_exited e id = elim (get e.panes id) [
    | some (PaneEntry.dead r) ↦ some r.exit_code
    | some (PaneEntry.live p) ↦ if is_exited id then some p.exit_code else none
    | none ↦ none
  ]
