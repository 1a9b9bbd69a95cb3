-- ===== src/Supervision/Restarting.antt =====
-- crates/tymux-core/src/supervision.rs: the calls of an operator, as steps of the supervisor.
use tymux.Base.{
  ℕ, ◌≡◌, ◌⊎◌, inl, inr, refl, subst, sym, Bool, true, false, Option, none, some, arith, Bool-cases,
  Option-cases,
}
use tymux.Restart.Policy.{Float64, RestartPolicy}
use tymux.Restart.{
  PaneSupervisor, on_started, schedule_manual_restart_now, request_stop, request_restart,
  reset_for_start, set_policy, on_exit,
}
use tymux.Restart.Lifecycle.{Step, Reach}
use tymux.Pane.{
  Pane, Killed, signal_sent, set_restart_pending, emit_lifecycle, inject_output, set_exit_hook,
  terminate,
}
use tymux.Supervision.{Entry, running}
use tymux.Supervision.Calls.{
  account_exit, do_respawn, install_hook, adopted_entry, stop_entry, restart_entry, start_entry,
  policy_entry,
}
use tymux.Supervision.Tracking.{
  Refines, along, IsUnhooked, Tracks, IsConsistent, one, account_exit-Tracks,
}
use tymux.Supervision.Respawning.{do_respawn-Reach, do_respawn-Tracks}

module _ (fl : Float64) where
  open fl use {F}

  stop_entry-sup :
      (e : Entry F) (id now : ℕ) (answer : Killed)
      → ((stop_entry fl e id now answer).0.sup ≡ e.sup)
        ⊎ ((stop_entry fl e id now answer).0.sup ≡ (request_stop e.sup).0)
  unfolding stop_entry
  stop_entry-sup e id now answer = ground arith

  stop_entry-Tracks :
      (e : Entry F) (id now : ℕ) (answer : Killed)
      → Tracks e.sup e.pane
      → Tracks (stop_entry fl e id now answer).0.sup (stop_entry fl e id now answer).0.pane
  unfolding stop_entry request_stop set_restart_pending emit_lifecycle inject_output terminate
  stop_entry-Tracks e id now answer v = elim (Option-cases e.pane) [
    | inl k ↦ ground (arith, k)
    | inr (p, k) ↦ ground (arith, k)
  ]

  pub stop_entry-Refines :
      (e : Entry F) (id now : ℕ) (answer : Killed)
      → IsConsistent e
      → Refines fl e (stop_entry fl e id now answer).0
  stop_entry-Refines e id now answer v = (
    elim (stop_entry-sup e id now answer) [
      | inl k ↦ along fl e.sup _ k Reach.here
      | inr k ↦ along fl (request_stop e.sup).0 _ k (one fl Step.stops)
    ],
    stop_entry-Tracks e id now answer v.tracks,
  )

  pub policy_entry-Tracks :
      (e : Entry F) (policy : RestartPolicy F) (now : ℕ)
      → Tracks e.sup e.pane
      → Tracks (policy_entry fl e policy now).sup (policy_entry fl e policy now).pane
  unfolding policy_entry set_policy set_restart_pending emit_lifecycle inject_output
  policy_entry-Tracks e policy now v = elim (Option-cases e.pane) [
    | inl k ↦ ground (arith, k)
    | inr (p, k) ↦ ground (arith, k)
  ]

  install_hook-Tracks :
      (s : PaneSupervisor F) (p : Pane) (now started : ℕ) (unit : F)
      → IsUnhooked p
      → Tracks
          (install_hook fl (on_started s started) p now unit).sup
          (install_hook fl (on_started s started) p now unit).pane
  unfolding install_hook set_exit_hook on_started
  install_hook-Tracks s p now started unit h = elim (Bool-cases p.exit_checked) [
    | inl k ↦ ground (
      arith,
      k,
      account_exit-Tracks fl (on_started s started) (record p { exit_hook = true }) now p.exit_code
          unit,
    )
    | inr k ↦ ground (arith, k)
  ]

  install_hook-sup :
      (s : PaneSupervisor F) (p : Pane) (now : ℕ) (unit : F)
      → ((install_hook fl s p now unit).sup ≡ s)
        ⊎ ((install_hook fl s p now unit).sup
            ≡ (on_exit fl s now p.exit_code (signal_sent p) unit).0)
  unfolding install_hook set_exit_hook account_exit signal_sent
  install_hook-sup s p now unit = ground arith

  pub adopted_entry-Refines :
      (e : Entry F) (p : Pane) (now : ℕ) (unit : F)
      → e.sup.started_at_ms ≡ none
      → IsUnhooked p
      → Refines fl e (adopted_entry fl e.sup p now unit)
  unfolding adopted_entry on_started
  adopted_entry-Refines e p now unit h k =
      let s = reset_for_start e.sup in
      let r : Reach fl e.sup (on_started s now) =
        Reach.next (one fl (Step.resets_for_start h)) (Step.starts now) in
      (
        elim (install_hook-sup (on_started s now) p now unit) [
          | inl m ↦ along fl (on_started s now) _ m r
          | inr m ↦
              along fl (on_exit fl (on_started s now) now p.exit_code (signal_sent p) unit).0 _ m
                (Reach.next r (Step.exits now p.exit_code (signal_sent p) unit refl))
        ],
        install_hook-Tracks s p now now unit k,
      )

  pub Reach-append : {s t u : PaneSupervisor F} → Reach fl s t → Reach fl t u → Reach fl s u
  Reach-append r Reach.here = r
  Reach-append r (Reach.next q st) = Reach.next (Reach-append r q) st

  -- With no running pane there is no process.
  idle :
      (s : PaneSupervisor F) (o : Option Pane)
      → Tracks s o
      → running o ≡ none
      → s.started_at_ms ≡ none
  idle s none v h = v
  idle s (some p) v h = ground arith

  -- A respawn by an operator, after a step that leaves no process, no stop, and the state as it was.
  manual-Refines :
      (e : Entry F) (s : PaneSupervisor F) (id now : ℕ) (unit : F) (started : Option (Option ℕ))
      → Step fl e.sup s
      → s.started_at_ms ≡ none
      → s.stop_requested ≡ false
      → Tracks s e.pane
      → Refines fl e (do_respawn fl (record { sup = s; pane = e.pane }) id now unit false started).0
  manual-Refines e s id now unit started st h k v =
      let e' : Entry F = record { sup = s; pane = e.pane } in
      (
        Reach-append (one fl st)
            (do_respawn-Reach fl e' id now unit false started (Step.begins_manual now h k) h),
        do_respawn-Tracks fl e' id now unit false started v h,
      )

  reset_for_start-Tracks :
      (s : PaneSupervisor F) (o : Option Pane) → Tracks s o → Tracks (reset_for_start s) o
  unfolding reset_for_start
  reset_for_start-Tracks s none v = v
  reset_for_start-Tracks s (some p) v = v

  request_restart-Tracks :
      (s : PaneSupervisor F) (o : Option Pane) (reset_backoff : Bool)
      → Tracks s o
      → Tracks (request_restart s reset_backoff).0 o
  unfolding request_restart
  request_restart-Tracks s none reset_backoff v = v
  request_restart-Tracks s (some p) reset_backoff v = ground arith

  pub start_entry-Refines :
      (e : Entry F) (id now : ℕ) (unit : F) (started : Option (Option ℕ))
      → IsConsistent e
      → Refines fl e (start_entry fl e id now unit started).0
  unfolding start_entry
  start_entry-Refines e id now unit started v = elim (Option-cases (running e.pane)) [
    | inr (p, k) ↦ rw (start_entry, k) (Reach.here, v.tracks)
    | inl k ↦
        let h = idle e.sup e.pane v.tracks k in
        rw (start_entry, k)
          (manual-Refines e (reset_for_start e.sup) id now unit started (Step.resets_for_start h)
            (unfold reset_for_start in h) (unfold reset_for_start in refl)
            (reset_for_start-Tracks e.sup e.pane v.tracks))
  ]

  restart_idle-eq :
      (e : Entry F) (id : ℕ) (reset_backoff : Bool) (now : ℕ) (unit : F) (answer : Killed)
      (started : Option (Option ℕ))
      → running e.pane ≡ none
      → e.sup.started_at_ms ≡ none
      → (restart_entry fl e id reset_backoff now unit answer started).0
        ≡ (do_respawn fl
            (record { sup = (request_restart e.sup reset_backoff).0; pane = e.pane })
            id
            now
            unit
            false
            started).0
  unfolding restart_entry request_restart
  restart_idle-eq e id reset_backoff now unit answer started k h = ground arith

  request_restart_idle :
      (s : PaneSupervisor F) (reset_backoff : Bool)
      → s.started_at_ms ≡ none
      → let t = (request_restart s reset_backoff).0 in
        (t.started_at_ms ≡ none) × (t.stop_requested ≡ false)
  unfolding request_restart
  request_restart_idle s reset_backoff h = ground arith

  restart_idle :
      (e : Entry F) (id : ℕ) (reset_backoff : Bool) (now : ℕ) (unit : F) (answer : Killed)
      (started : Option (Option ℕ))
      → running e.pane ≡ none
      → IsConsistent e
      → Refines fl e (restart_entry fl e id reset_backoff now unit answer started).0
  restart_idle e id reset_backoff now unit answer started k v =
      let h = idle e.sup e.pane v.tracks k in
      let (quiet, unstopped) = request_restart_idle e.sup reset_backoff h in
      subst (λ t. Refines fl e t)
        (sym (restart_idle-eq e id reset_backoff now unit answer started k h))
        (manual-Refines e (request_restart e.sup reset_backoff).0 id now unit started
          (Step.restarts reset_backoff) quiet unstopped
          (request_restart-Tracks e.sup e.pane reset_backoff v.tracks))

  restart_running-sup :
      (e : Entry F) (id : ℕ) (reset_backoff : Bool) (now : ℕ) (unit : F) (answer : Killed)
      (started : Option (Option ℕ)) (p : Pane)
      → running e.pane ≡ some p
      → let s = (request_restart e.sup reset_backoff).0 in
        let t = (restart_entry fl e id reset_backoff now unit answer started).0.sup in
        (t ≡ e.sup) ⊎ ((t ≡ s) ⊎ (t ≡ schedule_manual_restart_now s now))
  unfolding restart_entry
  restart_running-sup e id reset_backoff now unit answer started p k = ground arith

  restart_running-Tracks :
      (e : Entry F) (id : ℕ) (reset_backoff : Bool) (now : ℕ) (unit : F) (answer : Killed)
      (started : Option (Option ℕ)) (p : Pane)
      → running e.pane ≡ some p
      → Tracks e.sup e.pane
      → Tracks
          (restart_entry fl e id reset_backoff now unit answer started).0.sup
          (restart_entry fl e id reset_backoff now unit answer started).0.pane
  unfolding restart_entry request_restart schedule_manual_restart_now terminate set_restart_pending
  restart_running-Tracks e id reset_backoff now unit answer started p k v =
      elim (Option-cases e.pane) [ inl m ↦ ground (arith, m) | inr (q, m) ↦ ground (arith, m) ]

  restart_running :
      (e : Entry F) (id : ℕ) (reset_backoff : Bool) (now : ℕ) (unit : F) (answer : Killed)
      (started : Option (Option ℕ)) (p : Pane)
      → running e.pane ≡ some p
      → IsConsistent e
      → Refines fl e (restart_entry fl e id reset_backoff now unit answer started).0
  restart_running e id reset_backoff now unit answer started p k v =
      let s = (request_restart e.sup reset_backoff).0 in
      let r : Reach fl e.sup s = one fl (Step.restarts reset_backoff) in
      (
        elim (restart_running-sup e id reset_backoff now unit answer started p k) [
          | inl m ↦ along fl e.sup _ m Reach.here
          | inr (inl m) ↦ along fl s _ m r
          | inr (inr m) ↦
              along fl (schedule_manual_restart_now s now) _ m
                (Reach.next r (Step.schedules_manual now))
        ],
        restart_running-Tracks e id reset_backoff now unit answer started p k v.tracks,
      )

  pub restart_entry-Refines :
      (e : Entry F) (id : ℕ) (reset_backoff : Bool) (now : ℕ) (unit : F) (answer : Killed)
      (started : Option (Option ℕ))
      → IsConsistent e
      → Refines fl e (restart_entry fl e id reset_backoff now unit answer started).0
  restart_entry-Refines e id reset_backoff now unit answer started v =
      elim (Option-cases (running e.pane)) [
        | inr (p, k) ↦ restart_running e id reset_backoff now unit answer started p k v
        | inl k ↦ restart_idle e id reset_backoff now unit answer started k v
      ]
