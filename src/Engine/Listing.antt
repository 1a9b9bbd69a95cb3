-- ===== src/Engine/Listing.antt =====
-- crates/tymux-core/src/engine.rs: `list_sessions`, which looks up every pane under the locks and asks
-- the panes after it has released them.
use tymux.Base.{ℕ, ◌≡◌, refl, ap, ap₂, Bool, false, not, Option, none, some, List, [], ◌∷◌, map}
use tymux.Base.Maps.{get}
use tymux.Layout.{LayoutNode, Orientation}
use tymux.Persistence.{LivePane, PersistedPaneRecord, PaneEntry, Panes}
use tymux.Persistence.Sessions.{WindowState, SessionState}
use tymux.Supervision.{Inner}
use tymux.Engine.{Platform, ty, Engine}
use tymux.Engine.Snapshots.{
  LayoutSnapshot, WindowSnapshot, SessionSnapshot, PaneInfo, R, info, leaf_info, any_live,
  window_has_live_pane, layout_to_snapshot, window_to_snapshot, session_to_snapshot,
}

module _ (sys : Platform) where
  open sys use {Text, empty_text}

  -- A leaf's entry, held while the locks are, and looked at later.
  pub data PaneHandle : Type 0 where
    live : LivePane (ty sys) → PaneHandle
    dead : PersistedPaneRecord (ty sys) → PaneHandle
    missing : PaneHandle

  pub data LayoutHandle : Type 0 where
    leaf : ℕ → PaneHandle → LayoutHandle
    split : Orientation → LayoutHandle → R sys → LayoutHandle → R sys → LayoutHandle

  pub record WindowHandle : Type 0 where
    pub id : ℕ
    pub name : Text
    pub layout : LayoutHandle

  pub record SessionHandle : Type 0 where
    pub id : ℕ
    pub name : Text
    pub windows : List WindowHandle

  abbrev pub handle_of : Option (PaneEntry (ty sys)) → PaneHandle
  handle_of (some (PaneEntry.live p)) = PaneHandle.live p
  handle_of (some (PaneEntry.dead r)) = PaneHandle.dead r
  handle_of none = missing

  unfoldable pub layout_to_handle : LayoutNode (R sys) → Panes (ty sys) → LayoutHandle
  layout_to_handle (LayoutNode.leaf id) panes = LayoutHandle.leaf id (handle_of (get panes id))
  layout_to_handle (LayoutNode.split o a r b s) panes =
      LayoutHandle.split o (layout_to_handle a panes) r (layout_to_handle b panes) s

  unfoldable pub handle_info : (ℕ → Bool) → Inner sys.f64.F → ℕ → PaneHandle → PaneInfo Text
  handle_info is_exited inner id (PaneHandle.live p) =
      info sys inner id p.size_rows p.size_cols (not (is_exited id)) p.cwd
  handle_info is_exited inner id (PaneHandle.dead r) = info sys inner id r.rows r.cols false r.cwd
  handle_info is_exited inner id missing = info sys inner id 0 0 false empty_text

  unfoldable pub handle_to_layout_snapshot :
      (ℕ → Bool) → Inner sys.f64.F → LayoutHandle → LayoutSnapshot Text (R sys)
  unfolding handle_info
  handle_to_layout_snapshot is_exited inner (LayoutHandle.leaf id h) =
      LayoutSnapshot.leaf (handle_info is_exited inner id h)
  handle_to_layout_snapshot is_exited inner (LayoutHandle.split o a r b s) =
      LayoutSnapshot.split o (handle_to_layout_snapshot is_exited inner a) r
        (handle_to_layout_snapshot is_exited inner b) s

  abbrev pub window_handle : Panes (ty sys) → WindowState (ty sys) → WindowHandle
  window_handle panes w = record {
    id = w.id;
    name = w.name;
    layout = layout_to_handle w.layout panes;
  }

  abbrev pub session_handle : Panes (ty sys) → SessionState (ty sys) → SessionHandle
  session_handle panes s = record {
    id = s.id;
    name = s.name;
    windows = map (window_handle panes) s.windows;
  }

  -- The first phase of `list_sessions`, under the locks.
  unfoldable pub session_handles :
      List (ℕ × SessionState (ty sys)) → Panes (ty sys) → List SessionHandle
  unfolding layout_to_handle
  session_handles [] panes = []
  session_handles ((k, s) ∷ rest) panes = session_handle panes s ∷ session_handles rest panes

  abbrev pub resolve_window :
      (ℕ → Bool) → Inner sys.f64.F → WindowHandle → WindowSnapshot Text (R sys)
  resolve_window is_exited inner w = record {
    id = w.id;
    name = w.name;
    layout = handle_to_layout_snapshot is_exited inner w.layout;
  }

  -- The second phase, after the locks are released.
  unfoldable pub resolve_session :
      (ℕ → Bool) → Inner sys.f64.F → SessionHandle → SessionSnapshot Text (R sys)
  unfolding handle_to_layout_snapshot window_has_live_pane
  resolve_session is_exited inner s =
      let windows = map (resolve_window is_exited inner) s.windows in
      record { id = s.id; name = s.name; windows = windows; live = any_live windows }

  unfoldable pub list_sessions : (ℕ → Bool) → Engine sys → List (SessionSnapshot Text (R sys))
  unfolding session_handles resolve_session
  list_sessions is_exited e =
      map (resolve_session is_exited e.supervision) (session_handles e.sessions e.panes)

  handle_info-handle_of :
      (is_exited : ℕ → Bool) (inner : Inner sys.f64.F) (id : ℕ) (x : Option (PaneEntry (ty sys)))
      → handle_info is_exited inner id (handle_of x) ≡ leaf_info sys is_exited inner id x
  unfolding handle_info leaf_info
  handle_info-handle_of is_exited inner id none = refl
  handle_info-handle_of is_exited inner id (some (PaneEntry.live p)) = refl
  handle_info-handle_of is_exited inner id (some (PaneEntry.dead r)) = refl

  handle_to_layout_snapshot-layout_to_handle :
      (is_exited : ℕ → Bool) (inner : Inner sys.f64.F) (n : LayoutNode (R sys))
      (panes : Panes (ty sys))
      → handle_to_layout_snapshot is_exited inner (layout_to_handle n panes)
        ≡ layout_to_snapshot sys is_exited inner n panes
  unfolding handle_to_layout_snapshot layout_to_handle layout_to_snapshot
  handle_to_layout_snapshot-layout_to_handle is_exited inner (LayoutNode.leaf id) panes =
      ap LayoutSnapshot.leaf (handle_info-handle_of is_exited inner id (get panes id))
  handle_to_layout_snapshot-layout_to_handle is_exited inner (LayoutNode.split o a r b s) panes =
      ap₂ (λ x y. LayoutSnapshot.split o x r y s)
        (handle_to_layout_snapshot-layout_to_handle is_exited inner a panes)
        (handle_to_layout_snapshot-layout_to_handle is_exited inner b panes)

  resolve_windows :
      (is_exited : ℕ → Bool) (inner : Inner sys.f64.F) (panes : Panes (ty sys))
      (ws : List (WindowState (ty sys)))
      → map (resolve_window is_exited inner) (map (window_handle panes) ws)
        ≡ map (window_to_snapshot sys is_exited inner panes) ws
  unfolding window_to_snapshot
  resolve_windows is_exited inner panes [] = refl
  resolve_windows is_exited inner panes (w ∷ ws) =
      ap₂ (λ layout rest. record { id = w.id; name = w.name; layout = layout } ∷ rest)
        (handle_to_layout_snapshot-layout_to_handle is_exited inner w.layout panes)
        (resolve_windows is_exited inner panes ws)

  abbrev pub snapshots :
      (ℕ → Bool)
      → Inner sys.f64.F
      → Panes (ty sys)
      → List (ℕ × SessionState (ty sys))
      → List (SessionSnapshot Text (R sys))
  snapshots is_exited inner panes [] = []
  snapshots is_exited inner panes ((k, s) ∷ rest) =
      session_to_snapshot sys is_exited inner s panes ∷ snapshots is_exited inner panes rest

  resolve_sessions :
      (is_exited : ℕ → Bool) (inner : Inner sys.f64.F) (panes : Panes (ty sys))
      (sessions : List (ℕ × SessionState (ty sys)))
      → map (resolve_session is_exited inner) (session_handles sessions panes)
        ≡ snapshots is_exited inner panes sessions
  unfolding session_handles resolve_session session_to_snapshot
  resolve_sessions is_exited inner panes [] = refl
  resolve_sessions is_exited inner panes ((k, s) ∷ rest) =
      ap₂
        (λ windows later.
          record { id = s.id; name = s.name; windows = windows; live = any_live windows } ∷ later)
        (resolve_windows is_exited inner panes s.windows)
        (resolve_sessions is_exited inner panes rest)

  -- The list made in two phases is the list of the snapshots that each session gives by itself, in one
  -- pass, if no pane changes between the phases.
  pub list_sessions-snapshots :
      (is_exited : ℕ → Bool) (e : Engine sys)
      → list_sessions is_exited e ≡ snapshots is_exited e.supervision e.panes e.sessions
  unfolding list_sessions
  list_sessions-snapshots is_exited e = resolve_sessions is_exited e.supervision e.panes e.sessions
