-- ===== src/Restart/Lifecycle.antt =====
-- crates/tymux-core/src/restart.rs: the steps of a supervised pane, in the order in which
-- supervision.rs makes them, and what holds between two steps.
use tymux.Base.{ℕ, ◌≡◌, ◌⊎◌, Bool, true, false, ◌||◌, Option, none, some, arith}
use tymux.Restart.Policy.{Float64, RestartPolicy}
use tymux.Restart.{
  exited, backoff, restarting, failed, stopped, restart_pending, PaneSupervisor, ran_for,
  has_process, is_some, new, restore, PersistedRestartState, on_started, due, begin_restart,
  schedule_manual_restart_now, request_stop, request_restart, reset_for_start, reset_budget,
  set_policy, after_failure, on_exit, on_spawn_failed,
}

-- One call on the supervisor. A process exits only while one is running, a restart begins only with
-- no process and no stop under way, and a failed spawn follows the begin of a restart.
pub data Step (fl : Float64) (s : PaneSupervisor fl.F) : PaneSupervisor fl.F → Type 0 where
  starts : (now : ℕ) → Step fl s (on_started s now)
  exits :
      (now : ℕ) (code signal : Option ℕ) (unit : fl.F)
      → is_some s.started_at_ms ≡ true
      → Step fl s (on_exit fl s now code signal unit).0
  spawn_fails :
      (now : ℕ) (unit : fl.F)
      → s.state ≡ restarting
      → s.started_at_ms ≡ none
      → Step fl s (on_spawn_failed fl s now unit).0
  begins_automatic :
      (now : ℕ) → s.state ≡ backoff → due s now ≡ true → Step fl s (begin_restart s now true)
  begins_manual :
      (now : ℕ)
      → s.started_at_ms ≡ none
      → s.stop_requested ≡ false
      → Step fl s (begin_restart s now false)
  schedules_manual : (now : ℕ) → Step fl s (schedule_manual_restart_now s now)
  stops : Step fl s (request_stop s).0
  restarts : (reset_backoff : Bool) → Step fl s (request_restart s reset_backoff).0
  resets_for_start : s.started_at_ms ≡ none → Step fl s (reset_for_start s)
  resets_budget : Step fl s (reset_budget s)
  sets_policy : (policy : RestartPolicy fl.F) → Step fl s (set_policy s policy)

pub data Reach (fl : Float64) (s : PaneSupervisor fl.F) : PaneSupervisor fl.F → Type 0 where
  here : Reach fl s s
  next : {t u : PaneSupervisor fl.F} → Reach fl s t → Step fl t u → Reach fl s u

pub record IsValid {F : Type 0} (s : PaneSupervisor F) : Type 0 where
  -- A running process is known to the state, or is being stopped.
  pub tracked : (s.started_at_ms ≡ none) ⊎ ((has_process s.state || s.stop_requested) ≡ true)
  -- A restart has a time only while one is pending.
  pub timed : (s.next_restart_at_ms ≡ none) ⊎ (restart_pending s.state ≡ true)
  -- A requested stop or restart waits for a running process.
  pub stopping :
      (s.stop_requested ≡ false) ⊎ ((s.state ≡ stopped) × (is_some s.started_at_ms ≡ true))
  pub replacing :
      (s.restart_requested ≡ false) ⊎ ((s.state ≡ restarting) × (is_some s.started_at_ms ≡ true))

module _ {F : Type 0} where
  pub new-IsValid : (policy : RestartPolicy F) → IsValid (new policy)
  unfolding new
  new-IsValid policy = ground arith

  pub restore-IsValid : (p : PersistedRestartState F) → IsValid (restore p)
  unfolding restore
  restore-IsValid p = ground arith

module _ (fl : Float64) where
  -- What `after_failure` leaves alone, and the states in which it ends.
  pub record Keeps (s t : PaneSupervisor fl.F) : Type 0 where
    pub same_policy : t.policy ≡ s.policy
    pub same_count : t.restart_count ≡ s.restart_count
    pub same_started : t.started_at_ms ≡ s.started_at_ms
    pub same_stop : t.stop_requested ≡ s.stop_requested
    pub same_restart : t.restart_requested ≡ s.restart_requested
    pub settled :
        ((t.state ≡ backoff) × (is_some t.next_restart_at_ms ≡ true))
        ⊎ (((t.state ≡ exited) ⊎ (t.state ≡ failed))
            × (t.next_restart_at_ms ≡ s.next_restart_at_ms))

  pub after_failure-Keeps :
      (s : PaneSupervisor fl.F) (now : ℕ) (code ran : Option ℕ) (unit : fl.F)
      → Keeps s (after_failure fl s now code ran unit).0
  unfolding after_failure
  after_failure-Keeps s now code ran unit = ground arith

  abbrev pub dead : PaneSupervisor fl.F → ℕ → Option ℕ → Option ℕ → PaneSupervisor fl.F
  dead s now code signal = record s {
    last_exit = some (record { code = code; signal = signal; at_ms = now });
    started_at_ms = none;
    next_restart_at_ms = none;
  }

  pub Step-IsValid : {s t : PaneSupervisor fl.F} → Step fl s t → IsValid s → IsValid t
  unfolding on_started on_exit on_spawn_failed begin_restart due schedule_manual_restart_now
      request_stop request_restart reset_for_start reset_budget set_policy
  Step-IsValid (starts now) v = ground arith
  Step-IsValid {s = s} (exits now code signal unit h) v = ground (
    arith,
    after_failure-Keeps (dead s now code signal) now code (ran_for s.started_at_ms now) unit,
  )
  Step-IsValid {s = s} (spawn_fails now unit h k) v = ground (
    arith,
    after_failure-Keeps (record s { started_at_ms = none; next_restart_at_ms = none }) now none none
        unit,
  )
  Step-IsValid (begins_automatic now h d) v = ground arith
  Step-IsValid (begins_manual now h k) v = ground arith
  Step-IsValid (schedules_manual now) v = ground arith
  Step-IsValid stops v = ground arith
  Step-IsValid (restarts reset_backoff) v = ground arith
  Step-IsValid (resets_for_start h) v = ground arith
  Step-IsValid resets_budget v = ground arith
  Step-IsValid (sets_policy policy) v = ground arith

  -- In a supervisor that is reached by steps from one that satisfies them: a running process is known
  -- to the state or is being stopped; a restart has a time only while the state says that one is
  -- pending; a stop that was requested waits, in `stopped`, for a running process to exit, and a
  -- restart that was requested waits for it in `restarting`.
  pub Reach-IsValid : {s t : PaneSupervisor fl.F} → IsValid s → Reach fl s t → IsValid t
  Reach-IsValid v here = v
  Reach-IsValid v (next r st) = Step-IsValid st (Reach-IsValid v r)
