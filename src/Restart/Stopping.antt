-- ===== src/Restart/Stopping.antt =====
-- crates/tymux-core/src/restart.rs: an operator's stop holds in every mode.
use tymux.Base.{ℕ, ◌≡◌, ◌⊎◌, true, false, Option, none, arith}
use tymux.Restart.Policy.{Float64, RestartPolicy}
use tymux.Restart.{
  stopped, PaneSupervisor, stop_honored, is_some, due, request_stop, reset_budget, set_policy,
  on_exit,
}
use tymux.Restart.Lifecycle.{IsValid}

-- What may happen to a stopped pane without an operator's start or restart: its process exits, its
-- policy is replaced, its budget is reset, it is stopped again.
pub data Quiet (fl : Float64) (s : PaneSupervisor fl.F) : PaneSupervisor fl.F → Type 0 where
  exits :
      (now : ℕ) (code signal : Option ℕ) (unit : fl.F)
      → is_some s.started_at_ms ≡ true
      → Quiet fl s (on_exit fl s now code signal unit).0
  sets_policy : (policy : RestartPolicy fl.F) → Quiet fl s (set_policy s policy)
  resets_budget : Quiet fl s (reset_budget s)
  stops : Quiet fl s (request_stop s).0

pub data Quiets (fl : Float64) (s : PaneSupervisor fl.F) : PaneSupervisor fl.F → Type 0 where
  here : Quiets fl s s
  next : {t u : PaneSupervisor fl.F} → Quiets fl s t → Quiet fl t u → Quiets fl s u

pub record IsHalted {F : Type 0} (s : PaneSupervisor F) : Type 0 where
  pub at_rest : s.state ≡ stopped
  pub untimed : s.next_restart_at_ms ≡ none
  pub dying : (s.stop_requested ≡ true) ⊎ (s.started_at_ms ≡ none)

module _ {F : Type 0} where
  request_stop-IsHalted : (s : PaneSupervisor F) → IsValid s → IsHalted (request_stop s).0
  unfolding request_stop
  request_stop-IsHalted s v = ground arith

  IsHalted-due : (s : PaneSupervisor F) (now : ℕ) → IsHalted s → due s now ≡ false
  unfolding due
  IsHalted-due s now h = ground arith

module _ (fl : Float64) where
  Quiet-IsHalted : {s t : PaneSupervisor fl.F} → Quiet fl s t → IsHalted s → IsHalted t
  unfolding on_exit set_policy reset_budget request_stop
  Quiet-IsHalted {s = s} (exits now code signal unit h) v = ground arith
  Quiet-IsHalted (sets_policy policy) v = ground arith
  Quiet-IsHalted resets_budget v = ground arith
  Quiet-IsHalted stops v = ground arith

  Quiets-IsHalted : {s t : PaneSupervisor fl.F} → IsHalted s → Quiets fl s t → IsHalted t
  Quiets-IsHalted v here = v
  Quiets-IsHalted v (next r st) = Quiet-IsHalted st (Quiets-IsHalted v r)

  -- After an operator's stop of a valid supervisor, whatever its mode, and until an operator starts
  -- or restarts the pane, the state stays `stopped` and no restart falls due at any time, also when
  -- the process exits, the policy is replaced or the budget is reset in between.
  pub request_stop-Quiets :
      (s t : PaneSupervisor fl.F) (now : ℕ)
      → IsValid s
      → Quiets fl (request_stop s).0 t
      → (t.state ≡ stopped) × (due t now ≡ false)
  request_stop-Quiets s t now v r =
      let h = Quiets-IsHalted (request_stop-IsHalted s v) r in (h.at_rest, IsHalted-due t now h)

  -- When a process that is running under a valid supervisor is stopped, its exit is reported as the
  -- stop, whatever the mode, the exit code and the signal, and leaves no flag set.
  pub on_exit-request_stop :
      (s : PaneSupervisor fl.F) (now : ℕ) (code signal : Option ℕ) (unit : fl.F)
      → IsValid s
      → is_some s.started_at_ms ≡ true
      → let (t, kind) = on_exit fl (request_stop s).0 now code signal unit in
        (kind ≡ stop_honored)
        × (t.state ≡ stopped)
        × (t.stop_requested ≡ false)
        × (t.restart_requested ≡ false)
        × (t.started_at_ms ≡ none)
  unfolding on_exit request_stop
  on_exit-request_stop s now code signal unit v h = ground arith
