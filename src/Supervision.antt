-- ===== src/Supervision.antt =====
-- crates/tymux-core/src/supervision.rs: `Supervision` over the supervisors of restart.rs and the panes
-- of pane.rs. The entries are an association list; an entry holds its pane as long as the pane lives,
-- and `none` once its `Weak` is dead. An operation runs under one lock and reads the clock and the
-- jitter once; `wake` is left out. The kernel's answers are arguments.
pub mod Calls
pub mod Table
pub mod Tracking
pub mod Respawning
pub mod Restarting
pub mod Refining
pub mod Timers
use tymux.Base.{
  ℕ, ◌+◌, Bool, true, false, not, ◌&&◌, ◌||◌, Option, none, some, List, [], ◌∷◌, ◌++◌, ◌==◌, leb,
  if◌then◌else◌, min, max, Result, ok, err,
}
use tymux.Restart.Policy.{Float64, RestartPolicy, RestartMode, never, PolicyError, validate}
use tymux.Restart.{
  LifecycleState, ExitRecord, PaneSupervisor, PersistedRestartState, new, restore, persisted,
  on_started, due, restart_pending, is_backoff, begin_restart, schedule_manual_restart_now,
  request_stop, request_restart, reset_for_start, reset_budget, set_policy, on_exit,
  on_spawn_failed, ExitKind, not_restarted, scheduled, manual_restart, budget_exhausted,
  stop_honored,
}
use tymux.Pane.{
  LifecycleEvent, LifecycleEventKind, ExitText, by_signal, with_code, unexplained, Marker,
  not_restarting, restarting_in, restarting_now, gave_up, exit_stopped, retrying_in, budget_spent,
  start_failed, policy_changed, restart_cancelled, was_stopped, restarted_banner, Pane, Killed,
  RespawnError, signal_sent, set_restart_pending, emit_lifecycle, inject_output, retire,
  set_exit_hook, terminate, respawn_with,
}

pub data EngineError (F : Type 0) : Type 0 where
  pane_not_found : ℕ → EngineError F
  pane_running : ℕ → EngineError F
  pane_start : ℕ → EngineError F
  invalid_restart_policy : PolicyError F → EngineError F
  session_not_found : ℕ → EngineError F
  below_minimum_size : ℕ → ℕ → EngineError F
  below_recommended_size : ℕ → EngineError F
  revive_launch : ℕ → EngineError F
  pane_stopped : ℕ → EngineError F
  pane_failed : ℕ → EngineError F

pub data SignalOutcome : Type 0 where
  signaled immediate : SignalOutcome

pub record Entry (F : Type 0) : Type 0 where
  pub sup : PaneSupervisor F
  pub pane : Option Pane

pub record Inner (F : Type 0) : Type 0 where
  pub entries : List (ℕ × Entry F)
  pub dirty : List ℕ

abbrev pub is_stopped : LifecycleState → Bool
is_stopped LifecycleState.stopped = true
is_stopped _ = false

abbrev pub is_exited : LifecycleState → Bool
is_exited LifecycleState.exited = true
is_exited _ = false

abbrev pub is_never : RestartMode → Bool
is_never never = true
is_never _ = false

-- `running_pane`.
abbrev pub running : Option Pane → Option Pane
running none = none
running (some p) = if p.exited then none else some p

abbrev pub map_pane : (Pane → Pane) → Option Pane → Option Pane
map_pane f none = none
map_pane f (some p) = some (f p)

abbrev pub describe_exit : Option ℕ → Option ℕ → ExitText
describe_exit code (some signal) = by_signal signal
describe_exit (some code) none = with_code code
describe_exit none none = unexplained

abbrev pub last_code : Option ExitRecord → Option ℕ
last_code none = none
last_code (some last) = last.code

abbrev pub last_signal : Option ExitRecord → Option ℕ
last_signal none = none
last_signal (some last) = last.signal

abbrev pub mark : List ℕ → ℕ → List ℕ
mark [] id = id ∷ []
mark (k ∷ rest) id = if k == id then k ∷ rest else k ∷ mark rest id

abbrev pub unmark : List ℕ → ℕ → List ℕ
unmark [] id = []
unmark (k ∷ rest) id = if k == id then unmark rest id else k ∷ unmark rest id

module _ {F : Type 0} where
  unfoldable pub event : LifecycleEventKind → PaneSupervisor F → ℕ → LifecycleEvent
  event kind sup now = record {
    kind = kind;
    state = sup.state;
    exit_code = last_code sup.last_exit;
    exit_signal = last_signal sup.last_exit;
    delay_ms = none;
    next_restart_at_ms = sup.next_restart_at_ms;
    pid = none;
    restart_count = sup.restart_count;
    at_ms = now;
  }

  -- The event of a restart that is scheduled.
  unfoldable pub scheduled_event : PaneSupervisor F → ℕ → ℕ → ℕ → LifecycleEvent
  unfolding event
  scheduled_event sup now delay at = record (event LifecycleEventKind.restart_scheduled sup now) {
    delay_ms = some delay;
    next_restart_at_ms = some at;
  }

  unfoldable pub announce_exit : PaneSupervisor F → Pane → ExitKind → Option ℕ → Option ℕ → ℕ → Pane
  unfolding event scheduled_event emit_lifecycle inject_output
  announce_exit sup pane kind code signal now =
      let what = describe_exit code signal in
      let p = emit_lifecycle pane (event LifecycleEventKind.exited sup now) in
      elim kind [
        | not_restarted ↦
            if is_never sup.policy.mode then p else inject_output p (not_restarting what)
        | scheduled delay at ↦
            emit_lifecycle (inject_output p (restarting_in what delay))
              (scheduled_event sup now delay at)
        | manual_restart ↦ inject_output p (restarting_now what)
        | budget_exhausted ↦
            emit_lifecycle
              (inject_output p (gave_up what sup.policy.max_restarts sup.policy.window_ms))
              (event LifecycleEventKind.failed sup now)
        | stop_honored ↦
            emit_lifecycle (inject_output p (exit_stopped what))
              (event LifecycleEventKind.stopped sup now)
      ]

  unfoldable pub announce_failed_spawn : PaneSupervisor F → Pane → ExitKind → ℕ → Pane
  unfolding event scheduled_event emit_lifecycle inject_output
  announce_failed_spawn sup pane kind now = elim kind [
    | scheduled delay at ↦
        emit_lifecycle (inject_output pane (retrying_in delay)) (scheduled_event sup now delay at)
    | budget_exhausted ↦
        emit_lifecycle (inject_output pane budget_spent) (event LifecycleEventKind.failed sup now)
    | _ ↦ inject_output pane start_failed
  ]
