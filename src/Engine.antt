-- ===== src/Engine.antt =====
-- crates/tymux-core/src/engine.rs: sessions, windows, panes and the index between them, as the state
-- that the engine's locks guard. A method that takes several locks in turn is one step, but for
-- `split_pane`; what it does outside (saves, deletes, kills, resizes, notices) is added to a list. Ids that the source draws,
-- the outcome of a spawn, the clock and whether a pane's child has exited are arguments.
pub mod Snapshots
pub mod Listing
pub mod Operations
pub mod Removals
pub mod Reviving
pub mod Starting
pub mod Started
pub mod Wanted
pub mod Revived
pub mod Viewports
pub mod Ranges
pub mod Sizing
pub mod Windows
pub mod Indexing
pub mod Adding
pub mod Filing
pub mod Splitting
pub mod Storing
pub mod Signals
pub mod Remainders
pub mod Closing
pub mod Killing
use tymux.Base.{
  ℕ, Bool, true, false, not, Option, none, some, List, [], ◌∷◌, ◌++◌, ◌==◌, suc, ◌%◌, ◌^◌,
  if◌then◌else◌, Result, ok, err,
}
use tymux.Base.Maps.{get, insert, remove}
use tymux.Layout.{Float32, leaves}
use tymux.Restart.Policy.{Float64, RestartPolicy}
use tymux.Restart.{PersistedRestartState, persisted}
use tymux.Pane.{Pane}
use tymux.Persistence.{Opaque, LivePane, PaneEntry, live, dead, Panes}
use tymux.Persistence.Sessions.{
  WindowState, SessionState, PersistedSessionRecord, from_session_state_with_restart,
}
use tymux.Supervision.{EngineError, pane_not_found, Inner}
use tymux.Supervision.Table.{forget}

-- The floats of the machine, the types that the code does not look into, and `usize::to_string`.
pub record Platform : Type 1 where
  pub f32 : Float32
  pub f64 : Float64
  pub Text : Type 0
  pub Launch : Type 0
  pub empty_text : Text
  pub empty_launch : Launch
  pub default_policy : RestartPolicy f64.F
  pub is_default : RestartPolicy f64.F → Bool
  pub is_off_one : f32.F → f32.F → Bool
  pub to_string : ℕ → Text

abbrev pub opaque_types : Platform → Opaque
opaque_types sys = record {
  Text = sys.Text;
  Launch = sys.Launch;
  F = sys.f64.F;
  R = sys.f32.F;
  empty_text = sys.empty_text;
  empty_launch = sys.empty_launch;
  default_policy = sys.default_policy;
  is_default = sys.is_default;
  is_off_one = sys.is_off_one;
}

-- pane_id to window_id, and window_id to session_id.
pub record WindowIndex : Type 0 where
  pub pane_window : List (ℕ × ℕ)
  pub window_session : List (ℕ × ℕ)

unfoldable pub window_for_pane : WindowIndex → ℕ → Option ℕ
window_for_pane index pane_id = get index.pane_window pane_id

unfoldable pub session_for_window : WindowIndex → ℕ → Option ℕ
session_for_window index window_id = get index.window_session window_id

unfoldable pub insert_pane : WindowIndex → ℕ → ℕ → WindowIndex
insert_pane index pane_id window_id = record index {
  pane_window = insert index.pane_window pane_id window_id;
}

unfoldable pub insert_window : WindowIndex → ℕ → ℕ → WindowIndex
insert_window index window_id session_id = record index {
  window_session = insert index.window_session window_id session_id;
}

unfoldable pub remove_pane : WindowIndex → ℕ → WindowIndex
remove_pane index pane_id = record index { pane_window = remove index.pane_window pane_id }

unfoldable pub remove_window : WindowIndex → ℕ → WindowIndex
remove_window index window_id = record index {
  window_session = remove index.window_session window_id;
}

unfoldable pub window_and_session_for_pane :
    {F : Type 0} → WindowIndex → ℕ → Result (ℕ × ℕ) (EngineError F)
unfolding window_for_pane session_for_window
window_and_session_for_pane index pane_id = elim (window_for_pane index pane_id) [
  | none ↦ err (pane_not_found pane_id)
  | some window_id ↦ elim (session_for_window index window_id) [
    | none ↦ err (pane_not_found pane_id)
    | some session_id ↦ ok (window_id, session_id)
  ]
]

module _ (sys : Platform) where
  abbrev pub ty : Opaque
  ty = opaque_types sys

  -- What is done outside the engine's state. `started` is told of `split_pane` alone, which starts its
  -- process before it checks anything.
  pub data Effect : Type 0 where
    started : ℕ → Effect
    saved : PersistedSessionRecord ty → Effect
    deleted : ℕ → Effect
    killed : ℕ → Effect
    resized : ℕ → ℕ → ℕ → Effect
    notified : ℕ → Effect

  -- A pane that was spawned: its id, what is persisted of it, and its process.
  pub record Spawned : Type 0 where
    pub id : ℕ
    pub kept : LivePane ty
    pub pane : Pane

  pub record Engine : Type 0 where
    pub sessions : List (ℕ × SessionState ty)
    pub panes : Panes ty
    pub viewports : List (ℕ × List (ℕ × (ℕ × ℕ)))
    pub next_client_id : ℕ
    pub window_index : WindowIndex
    pub supervision : Inner sys.f64.F
    pub effects : List Effect

  abbrev pub emit : Engine → Effect → Engine
  emit e x = record e { effects = e.effects ++ x ∷ [] }

  abbrev pub find_window : ℕ → List (WindowState ty) → Option (WindowState ty)
  find_window id [] = none
  find_window id (w ∷ rest) = if w.id == id then some w else find_window id rest

  -- The leaves of all windows of a session.
  unfoldable pub all_leaves : List (WindowState ty) → List ℕ
  all_leaves [] = []
  all_leaves (w ∷ rest) = leaves w.layout ++ all_leaves rest

  unfoldable pub persisted_for :
      Inner sys.f64.F → List ℕ → List (ℕ × PersistedRestartState sys.f64.F)
  persisted_for inner [] = []
  persisted_for inner (id ∷ ids) =
      let rest = persisted_for inner ids in
      elim (get inner.entries id) [ none ↦ rest | some x ↦ (id, persisted x.sup) ∷ rest ]

  unfoldable pub snapshot_persisted_record : Engine → ℕ → Option (PersistedSessionRecord ty)
  unfolding all_leaves persisted_for
  snapshot_persisted_record e session_id = elim (get e.sessions session_id) [
    | none ↦ none
    | some session ↦ some (
        from_session_state_with_restart ty session e.panes
          (persisted_for e.supervision (all_leaves session.windows)))
  ]

  unfoldable pub persist_session : Engine → ℕ → Engine
  unfolding snapshot_persisted_record
  persist_session e session_id = elim (snapshot_persisted_record e session_id) [
    | none ↦ e
    | some r ↦ emit e (saved r)
  ]

  -- `forget`, the removal from the map, and the kill of a child that runs.
  unfoldable pub drop_pane : (ℕ → Bool) → Engine → ℕ → Engine
  unfolding forget
  drop_pane is_exited e id =
      let e' = record e { panes = remove e.panes id; supervision = (forget e.supervision id).0 } in
      elim (get e.panes id) [
        | some (live p) ↦ if is_exited id then e' else emit e' (killed id)
        | _ ↦ e'
      ]

  unfoldable pub drop_panes : (ℕ → Bool) → Engine → List ℕ → Engine
  unfolding drop_pane
  drop_panes is_exited e [] = e
  drop_panes is_exited e (id ∷ ids) = drop_panes is_exited (drop_pane is_exited e id) ids

  unfoldable pub new_client_id : Engine → Engine × ℕ
  new_client_id e =
      (record e { next_client_id = (suc e.next_client_id) % 2 ^ 64 }, e.next_client_id)
