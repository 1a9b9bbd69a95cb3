-- ===== src/Restart/CrashLoop.antt =====
-- crates/tymux-core/src/restart.rs: what a scheduled restart is, and the end of a crash loop.
use tymux.Base.{
  ℕ, zero, suc, ◌+◌, ◌≤◌, ◌<◌, ◌≡◌, refl, ap, ◌∙◌, true, false, Option, none, List, [], ◌∷◌, ◌++◌,
  leb, if◌then◌else◌, length, length-append, arith, ◌^◌,
}
use tymux.Base.Words.{sat_add64}
use tymux.Restart.Policy.{Float64, IsFloat64, RestartPolicy, delay_ms, delay_ms-le-max}
use tymux.Restart.{
  failed, PaneSupervisor, scheduled, budget_exhausted, ran_for, is_healthy, wants_restart,
  pop_expired, on_started, due, begin_restart, after_failure, on_exit,
}

module _ (fl : Float64) where
  -- An exit that schedules a restart: neither a stop nor a restart was requested, the mode wants one,
  -- the delay is within the policy's maximum, the restart has its time `delay` after the exit
  -- (saturating), and it falls due from that time on and not before.
  pub on_exit-scheduled :
      (laws : IsFloat64 fl) (s t : PaneSupervisor fl.F) (now : ℕ) (code signal : Option ℕ)
      (unit : fl.F) (delay at later : ℕ)
      → s.policy.max_delay_ms ≤ 2 ^ 53
      → on_exit fl s now code signal unit ≡ (t, scheduled delay at)
      → (s.stop_requested ≡ false)
        × (s.restart_requested ≡ false)
        × (wants_restart s.policy.mode code ≡ true)
        × (delay ≤ s.policy.max_delay_ms)
        × (at ≡ sat_add64 now delay)
        × (due t later ≡ leb at later)
  unfolding on_exit after_failure due
  on_exit-scheduled laws s t now code signal unit delay at later h e = ground (
    arith,
    delay_ms-le-max fl laws s.policy s.consecutive_failures unit h,
    delay_ms-le-max fl laws s.policy 0 unit h,
  )

  -- A process that exits at `now` with `code`, is restarted as soon as that is due, and exits again
  -- at once, for that many rounds at most or until no restart is scheduled.
  pub crash_loop : ℕ → PaneSupervisor fl.F → ℕ → Option ℕ → fl.F → PaneSupervisor fl.F
  crash_loop zero s now code unit = s
  crash_loop (suc rounds) s now code unit =
      let (t, kind) = on_exit fl s now code none unit in
      elim kind [
        | scheduled delay at ↦
            crash_loop rounds (on_started (begin_restart t at true) at) at code unit
        | _ ↦ t
      ]

  abbrev pub AllPositive : List ℕ → Type 0
  AllPositive [] = Unit {0}
  AllPositive (t ∷ rest) = (0 < t) × AllPositive rest

  AllPositive-snoc : (xs : List ℕ) (t : ℕ) → AllPositive xs → 0 < t → AllPositive (xs ++ (t ∷ []))
  AllPositive-snoc [] t h k = (k, tt)
  AllPositive-snoc (x ∷ xs) t h k = (h.0, AllPositive-snoc xs t h.1 k)

  pop_expired-zero : (log : List ℕ) → AllPositive log → pop_expired 0 log ≡ log
  unfolding pop_expired
  pop_expired-zero [] h = refl
  pop_expired-zero (t ∷ rest) h = ground arith

  -- A live supervisor with a lifetime budget whose mode restarts after `code`.
  pub record IsCrashing (s : PaneSupervisor fl.F) (code : Option ℕ) : Type 0 where
    pub no_stop : s.stop_requested ≡ false
    pub no_restart : s.restart_requested ≡ false
    pub wants : wants_restart s.policy.mode code ≡ true
    pub lifetime : s.policy.window_ms ≡ 0
    pub times : AllPositive s.restart_log

  exit_exhausted :
      (s : PaneSupervisor fl.F) (now : ℕ) (code : Option ℕ) (unit : fl.F)
      → IsCrashing s code
      → length s.restart_log ≡ s.policy.max_restarts
      → let (t, kind) = on_exit fl s now code none unit in
        (t.state ≡ failed) × (kind ≡ budget_exhausted) × (t.restart_log ≡ s.restart_log)
  unfolding on_exit after_failure
  exit_exhausted s now code unit v h =
      ground (arith, v.lifetime, v.wants, pop_expired-zero s.restart_log v.times)

  abbrev next_delay : PaneSupervisor fl.F → ℕ → fl.F → ℕ
  next_delay s now unit =
      let healthy = is_healthy (ran_for s.started_at_ms now) s.policy.healthy_after_ms in
      delay_ms fl s.policy (if healthy then 0 else s.consecutive_failures) unit

  exit_scheduled :
      (s : PaneSupervisor fl.F) (now : ℕ) (code : Option ℕ) (unit : fl.F)
      → IsCrashing s code
      → length s.restart_log < s.policy.max_restarts
      → let (t, kind) = on_exit fl s now code none unit in
        (kind ≡ scheduled (next_delay s now unit) (sat_add64 now (next_delay s now unit)))
        × (t.policy ≡ s.policy)
        × (t.restart_log ≡ s.restart_log)
  unfolding on_exit after_failure
  exit_scheduled s now code unit v h =
      ground (arith, v.lifetime, v.wants, pop_expired-zero s.restart_log v.times)

  restarted-IsCrashing :
      (s t : PaneSupervisor fl.F) (at : ℕ) (code : Option ℕ)
      → IsCrashing s code
      → t.policy ≡ s.policy
      → t.restart_log ≡ s.restart_log
      → 0 < at
      → IsCrashing (on_started (begin_restart t at true) at) code
  unfolding on_started begin_restart
  restarted-IsCrashing s t at code v p l h = record {
    no_stop = refl;
    no_restart = refl;
    wants = rw p v.wants;
    lifetime = rw p v.lifetime;
    times = rw l (AllPositive-snoc s.restart_log at v.times h);
  }

  restarted-fields :
      (t : PaneSupervisor fl.F) (at : ℕ)
      → let u = on_started (begin_restart t at true) at in
        (u.policy ≡ t.policy) × (length u.restart_log ≡ length t.restart_log + 1)
  unfolding on_started begin_restart
  restarted-fields t at = (refl, length-append t.restart_log (at ∷ []))

  crash_loop-exhausted :
      (rounds : ℕ) (s : PaneSupervisor fl.F) (now : ℕ) (code : Option ℕ) (unit : fl.F)
      → (on_exit fl s now code none unit).1 ≡ budget_exhausted
      → crash_loop (suc rounds) s now code unit ≡ (on_exit fl s now code none unit).0
  unfolding crash_loop
  crash_loop-exhausted rounds s now code unit e = rw (e, crash_loop)

  crash_loop-scheduled :
      (rounds : ℕ) (s : PaneSupervisor fl.F) (now : ℕ) (code : Option ℕ) (unit : fl.F)
      (delay at : ℕ)
      → (on_exit fl s now code none unit).1 ≡ scheduled delay at
      → crash_loop (suc rounds) s now code unit
        ≡ crash_loop rounds
            (on_started (begin_restart (on_exit fl s now code none unit).0 at true) at)
            at
            code
            unit
  unfolding crash_loop
  crash_loop-scheduled rounds s now code unit delay at e = rw (e, crash_loop)

  -- With a lifetime budget (no window), a mode that restarts after the exit code, and `rounds`
  -- restarts left of the budget, a process that exits again each time it is started is restarted
  -- exactly that often: one exit more and the pane is `failed`. The clock starts after 0.
  pub crash_loop-failed :
      (rounds : ℕ) (s : PaneSupervisor fl.F) (now : ℕ) (code : Option ℕ) (unit : fl.F)
      → IsCrashing s code
      → length s.restart_log + rounds ≡ s.policy.max_restarts
      → 0 < now
      → let t = crash_loop (suc rounds) s now code unit in
        (t.state ≡ failed) × (length t.restart_log ≡ s.policy.max_restarts)
  crash_loop-failed zero s now code unit v h k =
      let (state_eq, kind_eq, log_eq) = exit_exhausted s now code unit v (omega arith) in
      rw (crash_loop-exhausted zero s now code unit kind_eq)
        (state_eq, omega (arith, ap length log_eq))
  crash_loop-failed (suc rounds) s now code unit v h k =
      let (kind_eq, policy_eq, log_eq) = exit_scheduled s now code unit v (omega arith) in
      let t = (on_exit fl s now code none unit).0 in
      let at = sat_add64 now (next_delay s now unit) in
      let at_pos : 0 < at = omega arith in
      let (same_policy, longer) = restarted-fields t at in
      let limit : (on_started (begin_restart t at true) at).policy.max_restarts
          ≡ s.policy.max_restarts =
        ap (λ (q : RestartPolicy fl.F). q.max_restarts) (same_policy ∙ policy_eq) in
      let (state_eq, length_eq) =
        crash_loop-failed rounds (on_started (begin_restart t at true) at) at code unit
          (restarted-IsCrashing s t at code v policy_eq log_eq at_pos)
          (omega (arith, longer, ap length log_eq)) at_pos in
      rw (crash_loop-scheduled (suc rounds) s now code unit _ at kind_eq)
        (state_eq, length_eq ∙ limit)
