-- ===== src/Restart.antt =====
-- crates/tymux-core/src/restart.rs: the restart policy and the lifecycle of a supervised pane.
-- Times are unix milliseconds, an `i32` exit code or signal is its bit pattern. `f64` is a
-- parameter. A method that mutates its receiver returns the new record.
pub mod Policy
pub mod Lifecycle
pub mod Stopping
pub mod Budget
pub mod CrashLoop
pub mod Restoring
use tymux.Base.{
  ℕ, ◌+◌, ◌-◌, Bool, true, false, not, ◌&&◌, ◌||◌, Option, none, some, List, [], ◌∷◌, ◌++◌, ltb,
  leb, ◌==◌, if◌then◌else◌, length, min, Result, ok, err,
}
use tymux.Base.Words.{sat_add32, sat_add64}
use Policy.{
  Float64, RestartMode, never, on_failure, always, unless_stopped, RestartPolicy, delay_ms,
}

pub data LifecycleState : Type 0 where
  live exited backoff restarting failed stopped : LifecycleState

abbrev pub restart_pending : LifecycleState → Bool
restart_pending backoff = true
restart_pending restarting = true
restart_pending _ = false

pub record ExitRecord : Type 0 where
  pub code : Option ℕ
  pub signal : Option ℕ
  pub at_ms : ℕ

pub data ExitKind : Type 0 where
  not_restarted : ExitKind
  scheduled : ℕ → ℕ → ExitKind
  manual_restart : ExitKind
  budget_exhausted : ExitKind
  stop_honored : ExitKind

pub record PersistedRestartState (F : Type 0) : Type 0 where
  pub policy : RestartPolicy F
  pub state : LifecycleState
  pub restart_count : ℕ
  pub restart_log_ms : List ℕ
  pub consecutive_failures : ℕ
  pub last_exit : Option ExitRecord

pub record PaneSupervisor (F : Type 0) : Type 0 where
  pub policy : RestartPolicy F
  pub state : LifecycleState
  pub restart_count : ℕ
  pub restart_log : List ℕ
  pub consecutive_failures : ℕ
  pub started_at_ms : Option ℕ
  pub last_exit : Option ExitRecord
  pub next_restart_at_ms : Option ℕ
  pub stop_requested : Bool
  pub restart_requested : Bool

abbrev pub is_some : Option ℕ → Bool
is_some none = false
is_some (some n) = true

-- `code != Some(0)`.
abbrev pub is_failure : Option ℕ → Bool
is_failure none = true
is_failure (some n) = not (n == 0)

-- Whether a mode restarts after an exit with this code.
abbrev pub wants_restart : RestartMode → Option ℕ → Bool
wants_restart never code = false
wants_restart on_failure code = is_failure code
wants_restart always code = true
wants_restart unless_stopped code = true

-- The loop that pops restarts that have left the window.
pub pop_expired : ℕ → List ℕ → List ℕ
pop_expired start [] = []
pop_expired start (t ∷ rest) =
    let popped = pop_expired start rest in if leb t start then popped else t ∷ rest

-- The restarts after `start`.
abbrev pub count_after : ℕ → List ℕ → ℕ
count_after start [] = 0
count_after start (t ∷ rest) = (if ltb start t then 1 else 0) + count_after start rest

abbrev pub is_due_at : Option ℕ → ℕ → Bool
is_due_at none now = false
is_due_at (some at) now = leb at now

-- `is_some_and(|d| d >= healthy)`.
abbrev pub is_healthy : Option ℕ → ℕ → Bool
is_healthy none healthy = false
is_healthy (some ran) healthy = leb healthy ran

abbrev pub ran_for : Option ℕ → ℕ → Option ℕ
ran_for none now = none
ran_for (some started) now = some (now - started)

abbrev pub is_backoff : LifecycleState → Bool
is_backoff backoff = true
is_backoff _ = false

abbrev pub is_failed : LifecycleState → Bool
is_failed failed = true
is_failed _ = false

-- `matches!(state, Live | Restarting)`.
abbrev pub has_process : LifecycleState → Bool
has_process live = true
has_process restarting = true
has_process _ = false

abbrev pub exit_code : Option ExitRecord → Option ℕ
exit_code none = none
exit_code (some e) = e.code

-- The states that survive a daemon restart.
abbrev pub restored_state : LifecycleState → LifecycleState
restored_state stopped = stopped
restored_state failed = failed
restored_state _ = exited

module _ {F : Type 0} where
  unfoldable pub new : RestartPolicy F → PaneSupervisor F
  new policy = record {
    policy = policy;
    state = exited;
    restart_count = 0;
    restart_log = [];
    consecutive_failures = 0;
    started_at_ms = none;
    last_exit = none;
    next_restart_at_ms = none;
    stop_requested = false;
    restart_requested = false;
  }

  unfoldable pub restore : PersistedRestartState F → PaneSupervisor F
  restore p = record {
    policy = p.policy;
    state = restored_state p.state;
    restart_count = p.restart_count;
    restart_log = p.restart_log_ms;
    consecutive_failures = p.consecutive_failures;
    started_at_ms = none;
    last_exit = p.last_exit;
    next_restart_at_ms = none;
    stop_requested = false;
    restart_requested = false;
  }

  unfoldable pub persisted : PaneSupervisor F → PersistedRestartState F
  persisted s = record {
    policy = s.policy;
    state = s.state;
    restart_count = s.restart_count;
    restart_log_ms = s.restart_log;
    consecutive_failures = s.consecutive_failures;
    last_exit = s.last_exit;
  }

  unfoldable pub window_start : RestartPolicy F → ℕ → ℕ
  window_start policy now = if policy.window_ms == 0 then 0 else now - policy.window_ms

  unfoldable pub restarts_in_window : PaneSupervisor F → ℕ → ℕ
  unfolding window_start
  restarts_in_window s now = count_after (window_start s.policy now) s.restart_log

  unfoldable pub on_started : PaneSupervisor F → ℕ → PaneSupervisor F
  on_started s now = record s {
    state = live;
    started_at_ms = some now;
    next_restart_at_ms = none;
    stop_requested = false;
    restart_requested = false;
  }

  unfoldable pub due : PaneSupervisor F → ℕ → Bool
  due s now = restart_pending s.state && is_due_at s.next_restart_at_ms now

  unfoldable pub begin_restart : PaneSupervisor F → ℕ → Bool → PaneSupervisor F
  begin_restart s now automatic = record s {
    restart_count = sat_add32 s.restart_count 1;
    restart_log = if automatic then s.restart_log ++ (now ∷ []) else s.restart_log;
    next_restart_at_ms = none;
    state = restarting;
  }

  unfoldable pub schedule_manual_restart_now : PaneSupervisor F → ℕ → PaneSupervisor F
  schedule_manual_restart_now s now = record s {
    stop_requested = false;
    restart_requested = false;
    state = restarting;
    next_restart_at_ms = some now;
  }

  unfoldable pub request_stop : PaneSupervisor F → PaneSupervisor F × Bool
  request_stop s =
      let process_running = (has_process s.state && is_some s.started_at_ms) || s.stop_requested in
      (
        record s {
          restart_requested = false;
          next_restart_at_ms = none;
          stop_requested = if process_running then true else s.stop_requested;
          state = stopped;
        },
        process_running,
      )

  unfoldable pub request_restart : PaneSupervisor F → Bool → PaneSupervisor F × Bool
  request_restart s reset_backoff =
      let process_running = is_some s.started_at_ms in
      (
        record s {
          consecutive_failures = if reset_backoff then 0 else s.consecutive_failures;
          restart_log = if reset_backoff then [] else s.restart_log;
          stop_requested = false;
          restart_requested = if process_running then true else s.restart_requested;
          state = if process_running then restarting else s.state;
        },
        process_running,
      )

  unfoldable pub reset_for_start : PaneSupervisor F → PaneSupervisor F
  reset_for_start s = record s {
    consecutive_failures = 0;
    restart_log = [];
    stop_requested = false;
    restart_requested = false;
    next_restart_at_ms = none;
  }

  unfoldable pub reset_budget : PaneSupervisor F → PaneSupervisor F
  reset_budget s = record s {
    consecutive_failures = 0;
    restart_log = [];
    state = if is_failed s.state then exited else s.state;
  }

  unfoldable pub set_policy : PaneSupervisor F → RestartPolicy F → PaneSupervisor F
  set_policy s policy =
      if is_backoff s.state && not (wants_restart policy.mode (exit_code s.last_exit))
      then record s { policy = policy; state = exited; next_restart_at_ms = none }
      else record s { policy = policy }

module _ (fl : Float64) where
  open fl use {F}

  unfoldable pub after_failure :
      PaneSupervisor F → ℕ → Option ℕ → Option ℕ → F → PaneSupervisor F × ExitKind
  unfolding pop_expired window_start
  after_failure s now code ran unit =
      let failures =
        if is_healthy ran s.policy.healthy_after_ms then 0 else s.consecutive_failures in
      let log = pop_expired (window_start s.policy now) s.restart_log in
      let delay = delay_ms fl s.policy failures unit in
      let at = sat_add64 now delay in
      if not (wants_restart s.policy.mode code)
      then (record s { state = exited }, not_restarted)
      else if leb s.policy.max_restarts (length log)
      then (
        record s { consecutive_failures = failures; restart_log = log; state = failed },
        budget_exhausted,
      )
      else (
        record s {
          consecutive_failures = sat_add32 failures 1;
          restart_log = log;
          state = backoff;
          next_restart_at_ms = some at;
        },
        scheduled delay at,
      )

  unfoldable pub on_exit :
      PaneSupervisor F → ℕ → Option ℕ → Option ℕ → F → PaneSupervisor F × ExitKind
  on_exit s now code signal unit =
      let dead = record s {
        last_exit = some (record { code = code; signal = signal; at_ms = now });
        started_at_ms = none;
        next_restart_at_ms = none;
      } in
      if s.stop_requested
      then (
        record dead { stop_requested = false; restart_requested = false; state = stopped },
        stop_honored,
      )
      else if s.restart_requested
      then (
        record dead {
          restart_requested = false;
          state = restarting;
          next_restart_at_ms = some now;
        },
        manual_restart,
      )
      else after_failure dead now code (ran_for s.started_at_ms now) unit

  unfoldable pub on_spawn_failed : PaneSupervisor F → ℕ → F → PaneSupervisor F × ExitKind
  on_spawn_failed s now unit =
      after_failure (record s { started_at_ms = none; next_restart_at_ms = none }) now none none
        unit
