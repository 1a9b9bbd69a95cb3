-- ===== src/Supervision/Calls.antt =====
-- crates/tymux-core/src/supervision.rs: the methods of `Supervision`, first on one entry, then on the
-- table of entries and the set of ids to persist.
use tymux.Base.{ℕ, Bool, true, false, ◌&&◌, Option, none, some, if◌then◌else◌, Result, ok, err}
use tymux.Restart.Policy.{Float64, RestartPolicy}
use tymux.Restart.{
  PaneSupervisor, PersistedRestartState, new, restore, on_started, restart_pending, is_backoff,
  begin_restart, schedule_manual_restart_now, request_stop, request_restart, reset_for_start,
  set_policy, on_exit, on_spawn_failed,
}
use tymux.Pane.{
  LifecycleEventKind, policy_changed, restart_cancelled, was_stopped, restarted_banner, Pane,
  Killed, signal_sent, set_restart_pending, emit_lifecycle, inject_output, set_exit_hook, terminate,
  respawn_with,
}
use tymux.Supervision.{
  EngineError, pane_not_found, pane_running, pane_start, SignalOutcome, signaled, immediate, Entry,
  is_stopped, is_exited, running, map_pane, event, announce_exit, announce_failed_spawn,
}

module _ (fl : Float64) where
  open fl use {F}

  unfoldable pub account_exit : PaneSupervisor F → Pane → ℕ → Option ℕ → F → Entry F
  account_exit sup pane now code unit =
      let signal = signal_sent pane in
      let (s, kind) = on_exit fl sup now code signal unit in
      record {
        sup = s;
        pane = some (
            set_restart_pending (announce_exit s pane kind code signal now)
              (restart_pending s.state));
      }

  unfoldable pub respawn_pane :
      PaneSupervisor F
      → Pane
      → ℕ
      → ℕ
      → F
      → Bool
      → Option (Option ℕ)
      → Entry F × Result (Option ℕ) (EngineError F)
  respawn_pane sup pane id now unit automatic started =
      let begun = begin_restart sup now automatic in
      let s = on_started begun now in
      let (f, kind) = on_spawn_failed fl begun now unit in
      let (p, r) = respawn_with pane started (λ pid. restarted_banner pid begun.restart_count) in
      elim r [
        | ok pid ↦ (
          record {
            sup = s;
            pane = some (
                emit_lifecycle (set_restart_pending p false)
                  (record (event LifecycleEventKind.restarted s now) { pid = pid }));
          },
          ok pid,
        )
        | err e ↦ (
          record {
            sup = f;
            pane = some (
                set_restart_pending (if p.retired then p else announce_failed_spawn f p kind now)
                  (restart_pending f.state));
          },
          err (pane_start id),
        )
      ]

  unfoldable pub do_respawn :
      Entry F → ℕ → ℕ → F → Bool → Option (Option ℕ) → Entry F × Result (Option ℕ) (EngineError F)
  do_respawn e id now unit automatic started = elim e.pane [
    | none ↦ (e, err (pane_not_found 0))
    | some p ↦
        if p.retired
        then (e, err (pane_not_found id))
        else respawn_pane e.sup p id now unit automatic started
  ]

  -- Installing the hook of an entry's pane; an exit that the reader did not report is accounted here.
  unfoldable pub install_hook : PaneSupervisor F → Pane → ℕ → F → Entry F
  install_hook sup pane now unit =
      let (p, exited_before_hook) = set_exit_hook pane in
      if exited_before_hook
      then account_exit sup p now p.exit_code unit
      else record { sup = sup; pane = some p }

  unfoldable pub live_entry : RestartPolicy F → Pane → ℕ → F → Entry F
  live_entry policy pane now unit = install_hook (on_started (new policy) now) pane now unit

  unfoldable pub restored_entry : Option (PersistedRestartState F) → RestartPolicy F → Entry F
  restored_entry none policy = record { sup = new policy; pane = none }
  restored_entry (some p) policy = record { sup = restore p; pane = none }

  unfoldable pub adopted_entry : PaneSupervisor F → Pane → ℕ → F → Entry F
  adopted_entry sup pane now unit =
      install_hook (on_started (reset_for_start sup) now) pane now unit

  unfoldable pub stop_entry :
      Entry F → ℕ → ℕ → Killed → Entry F × Result SignalOutcome (EngineError F)
  stop_entry e id now answer =
      let (sup, needs_signal) = request_stop e.sup in
      let pane = map_pane (λ p. set_restart_pending p false) e.pane in
      let marker = if is_backoff e.sup.state then restart_cancelled else was_stopped in
      let told : Entry F = record {
        sup = sup;
        pane =
            if is_stopped e.sup.state
            then pane
            else map_pane
                (λ p.
                  emit_lifecycle (inject_output p marker)
                    (event LifecycleEventKind.stopped sup now))
                pane;
      } in
      if needs_signal
      then elim (running pane) [
        | none ↦ (record { sup = sup; pane = pane }, ok signaled)
        | some p ↦
            let (p', killed) = terminate p answer in
            if killed then (record { sup = sup; pane = some p' }, ok signaled) else (
              record {
                sup = e.sup;
                pane = some (set_restart_pending p' (restart_pending e.sup.state));
              },
              err (pane_start id),
            )
      ]
      else (told, ok immediate)

  unfoldable pub restart_entry :
      Entry F
      → ℕ
      → Bool
      → ℕ
      → F
      → Killed
      → Option (Option ℕ)
      → Entry F × Result SignalOutcome (EngineError F)
  restart_entry e id reset_backoff now unit answer started =
      let (sup, signal) = request_restart e.sup reset_backoff in
      let (respawned, r) =
        do_respawn (record { sup = sup; pane = e.pane }) id now unit false started in
      let done = elim r as (λ _. Result SignalOutcome (EngineError F)) [
        | ok pid ↦ ok immediate
        | err x ↦ err x
      ] in
      elim (running e.pane) [
        | none ↦
            if signal then (record { sup = sup; pane = e.pane }, ok signaled) else (respawned, done)
        | some p ↦
            let (p', killed) = terminate p answer in
            if signal
            then if killed
              then (record { sup = sup; pane = some p' }, ok signaled)
              else (record { sup = e.sup; pane = some p' }, err (pane_start id))
            else (
              record {
                sup = schedule_manual_restart_now sup now;
                pane = some (set_restart_pending p true);
              },
              ok signaled,
            )
      ]

  unfoldable pub start_entry :
      Entry F → ℕ → ℕ → F → Option (Option ℕ) → Entry F × Result (Unit {0}) (EngineError F)
  start_entry e id now unit started =
      let (respawned, r) =
        do_respawn (record { sup = reset_for_start e.sup; pane = e.pane }) id now unit false
          started in
      elim (running e.pane) [
        | some p ↦ (e, err (pane_running id))
        | none ↦ (respawned, elim r [ ok pid ↦ ok tt | err x ↦ err x ])
      ]

  unfoldable pub policy_entry : Entry F → RestartPolicy F → ℕ → Entry F
  policy_entry e policy now =
      let sup = set_policy e.sup policy in
      let pending = map_pane (λ p. set_restart_pending p (restart_pending sup.state)) e.pane in
      record {
        sup = sup;
        pane =
            if is_backoff e.sup.state && is_exited sup.state
            then map_pane
                (λ p.
                  emit_lifecycle (inject_output p policy_changed)
                    (event LifecycleEventKind.exited sup now))
                pending
            else pending;
      }
