-- ===== src/Supervision/Table.antt =====
-- crates/tymux-core/src/supervision.rs: the methods of `Supervision` on the table of entries and the set
-- of ids to persist.
use tymux.Base.{
  ℕ, ◌+◌, Bool, false, ◌&&◌, Option, none, some, List, [], ◌∷◌, if◌then◌else◌, min, max, Result, ok,
  err,
}
use tymux.Restart.Policy.{Float64, RestartPolicy, validate}
use tymux.Restart.{
  PaneSupervisor, PersistedRestartState, new, due, restart_pending, is_backoff, reset_budget,
}
use tymux.Pane.{Pane, Killed, retire}
use tymux.Base.Maps.{get, insert, remove}
use tymux.Supervision.{
  running, EngineError, pane_not_found, invalid_restart_policy, SignalOutcome, Entry, Inner,
  map_pane, mark, unmark,
}
use tymux.Supervision.Calls.{
  account_exit, do_respawn, live_entry, restored_entry, adopted_entry, stop_entry, restart_entry,
  start_entry, policy_entry,
}

abbrev pub earliest : Option ℕ → Option ℕ → Option ℕ
earliest none b = b
earliest (some a) none = some a
earliest (some a) (some b) = some (min a b)

abbrev pub not_before : ℕ → Option ℕ → Option ℕ
not_before now none = none
not_before now (some at) = some (max at (now + 1))

abbrev pub has_exited : Option Pane → Bool
has_exited none = false
has_exited (some p) = p.exited

module _ {F : Type 0} where
  abbrev pub update : Inner F → ℕ → Entry F → Inner F
  update inner id e = record inner { entries = insert inner.entries id e }

  abbrev pub touch : Inner F → ℕ → Inner F
  touch inner id = record inner { dirty = mark inner.dirty id }

  abbrev pub pane_of : Option (Entry F) → Option Pane
  pane_of none = none
  pane_of (some e) = e.pane

  -- The table without the entry, and the pane that is retired, if it lives.
  unfoldable pub forget : Inner F → ℕ → Inner F × Option Pane
  forget inner id = (
    record { entries = remove inner.entries id; dirty = unmark inner.dirty id },
    map_pane retire (pane_of (get inner.entries id)),
  )

  unfoldable pub take_dirty : Inner F → Inner F × List ℕ
  take_dirty inner = (record inner { dirty = [] }, inner.dirty)

  unfoldable pub reset_pane_budget : Inner F → ℕ → Inner F × Result (Unit {0}) (EngineError F)
  reset_pane_budget inner id = elim (get inner.entries id) [
    | none ↦ (inner, err (pane_not_found id))
    | some e ↦ (touch (update inner id (record e { sup = reset_budget e.sup })) id, ok tt)
  ]

  -- The time of the next restart of an entry, if one is pending.
  abbrev pub pending_at : PaneSupervisor F → Option ℕ
  pending_at sup = if restart_pending sup.state then sup.next_restart_at_ms else none

  -- What `run_due` returns.
  unfoldable pub next_deadline : List (ℕ × Entry F) → ℕ → Option ℕ
  next_deadline [] now = none
  next_deadline ((id, e) ∷ rest) now =
      earliest (not_before now (pending_at e.sup)) (next_deadline rest now)

  unfoldable pub is_ready : Entry F → ℕ → Bool
  is_ready e now = due e.sup now && has_exited e.pane

  unfoldable pub due_ids : List (ℕ × Entry F) → ℕ → List ℕ
  unfolding is_ready
  due_ids [] now = []
  due_ids ((id, e) ∷ rest) now =
      let ids = due_ids rest now in if is_ready e now then id ∷ ids else ids

module _ (fl : Float64) where
  open fl use {F}

  unfoldable pub register_live : Inner F → ℕ → Pane → RestartPolicy F → ℕ → F → Inner F
  register_live inner id pane policy now unit =
      touch (update inner id (live_entry fl policy pane now unit)) id

  unfoldable pub register_restored :
      Inner F → ℕ → Option (PersistedRestartState F) → RestartPolicy F → Inner F
  register_restored inner id persisted policy = update inner id (restored_entry fl persisted policy)

  unfoldable pub adopt_started : Inner F → ℕ → Pane → RestartPolicy F → ℕ → F → Inner F
  adopt_started inner id pane fallback now unit = elim (get inner.entries id) [
    | none ↦ touch (update inner id (adopted_entry fl (new fallback) pane now unit)) id
    | some e ↦ touch (update inner id (adopted_entry fl e.sup pane now unit)) id
  ]

  -- `same` tells whether the pane that exits is the one that the entry points to; whether a restart is
  -- pending is returned.
  unfoldable pub handle_exit : Inner F → ℕ → Bool → ℕ → Option ℕ → F → Inner F × Bool
  handle_exit inner id same now code unit = elim (get inner.entries id) [
    | none ↦ (inner, false)
    | some e ↦ elim e.pane [
      | none ↦ (inner, false)
      | some p ↦
          let e' = account_exit fl e.sup p now code unit in
          if same
          then (touch (update inner id e') id, restart_pending e'.sup.state)
          else (inner, false)
    ]
  ]

  unfoldable pub set_pane_policy :
      Inner F → ℕ → RestartPolicy F → ℕ → Inner F × Result (Unit {0}) (EngineError F)
  set_pane_policy inner id policy now = elim (validate fl policy) [
    | err x ↦ (inner, err (invalid_restart_policy x))
    | ok u ↦ elim (get inner.entries id) [
      | none ↦ (inner, err (pane_not_found id))
      | some e ↦ (touch (update inner id (policy_entry fl e policy now)) id, ok tt)
    ]
  ]

  unfoldable pub stop : Inner F → ℕ → ℕ → Killed → Inner F × Result SignalOutcome (EngineError F)
  stop inner id now answer = elim (get inner.entries id) [
    | none ↦ (inner, err (pane_not_found id))
    | some e ↦
        let (e', r) = stop_entry fl e id now answer in
        elim r [
          | ok outcome ↦ (touch (update inner id e') id, ok outcome)
          | err x ↦ (update inner id e', err x)
        ]
  ]

  unfoldable pub restart :
      Inner F
      → ℕ
      → Bool
      → ℕ
      → F
      → Killed
      → Option (Option ℕ)
      → Inner F × Result SignalOutcome (EngineError F)
  restart inner id reset_backoff now unit answer started = elim (get inner.entries id) [
    | none ↦ (inner, err (pane_not_found id))
    | some e ↦
        let (e', r) = restart_entry fl e id reset_backoff now unit answer started in
        (touch (update inner id e') id, r)
  ]

  unfoldable pub start :
      Inner F → ℕ → ℕ → F → Option (Option ℕ) → Inner F × Result (Unit {0}) (EngineError F)
  start inner id now unit started = elim (get inner.entries id) [
    | none ↦ (inner, err (pane_not_found id))
    | some e ↦
        let (e', r) = start_entry fl e id now unit started in
        elim (running e.pane) [ some p ↦ (inner, r) | none ↦ (touch (update inner id e') id, r) ]
  ]

  -- The loop of `run_due`; `units` and `starts` are the jitter and the kernel's answer for each id.
  unfoldable pub run_ids : Inner F → List ℕ → ℕ → (ℕ → F) → (ℕ → Option (Option ℕ)) → Inner F
  run_ids inner [] now units starts = inner
  run_ids inner (id ∷ rest) now units starts = elim (get inner.entries id) [
    | none ↦ run_ids inner rest now units starts
    | some e ↦
        let e' = (do_respawn fl e id now (units id) (is_backoff e.sup.state) (starts id)).0 in
        run_ids (touch (update inner id e') id) rest now units starts
  ]

  unfoldable pub run_due : Inner F → ℕ → (ℕ → F) → (ℕ → Option (Option ℕ)) → Inner F × Option ℕ
  unfolding run_ids due_ids next_deadline
  run_due inner now units starts =
      let after = run_ids inner (due_ids inner.entries now) now units starts in
      (after, next_deadline after.entries now)
