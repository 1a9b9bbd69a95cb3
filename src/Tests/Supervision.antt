-- ===== src/Tests/Supervision.antt =====
-- Runs of the supervision of panes.
use tymux.Base.{ℕ, ◌+◌, ◌≡◌, refl, ◌⊎◌, true, false, none, some, [], ◌∷◌, max, arith}
use tymux.Restart.{LifecycleState, restart_pending, due, request_stop}
use tymux.Restart.Lifecycle.{Reach}
use tymux.Pane.{
  Pane, reading, ended, Killed, delivered, refused, is_final, set_restart_pending, terminate,
  emit_lifecycle, inject_output,
}
use tymux.Base.Maps.{get, insert}
use tymux.Supervision.{Entry, Inner, immediate, EngineError, pane_not_found, pane_start}
use tymux.Supervision.Calls.{stop_entry}
use tymux.Supervision.Table.{run_due, stop, due_ids, run_ids, is_ready}
use tymux.Supervision.Tracking.{IsConsistent}
use tymux.Supervision.Refining.{EntryReach, EntryStep, EntryReach-Refines, final_exit}
use tymux.Supervision.Timers.{IsBy, IsAfter, run_due-IsBy, run_due-stop, stop-error}
use tymux.Tests.Restart.{whole, running}

abbrev dead_pane : Pane
dead_pane = record {
  reader = ended;
  exited = true;
  exit_checked = true;
  exit_hook = true;
  exit_code = some 1;
  restart_pending = true;
  retired = false;
  pid = 0;
  last_signal = 0;
  generation = 0;
  stream = [];
  lifecycle = [];
}

abbrev waiting : Entry ℕ
waiting = record {
  sup = record running {
    state = LifecycleState.backoff;
    started_at_ms = none;
    next_restart_at_ms = some 5000;
  };
  pane = some dead_pane;
}

abbrev table : Inner ℕ
table = record { entries = (7, waiting) ∷ []; dirty = [] }

-- At its time the process is started again.
started : (run_due whole table 5000 (λ _. 0) (λ _. some (some 42))).0.dirty ≡ 7 ∷ []
unfolding run_due run_ids due_ids is_ready due
started = refl

run_due-IsBy_example :
    IsBy (run_due whole table 1000 (λ _. 0) (λ _. none)).1 (max 5000 (1000 + 1))
    × IsAfter (run_due whole table 1000 (λ _. 0) (λ _. none)).1 1000
unfolding run_due run_ids due_ids is_ready due
run_due-IsBy_example = run_due-IsBy whole table 1000 (λ _. 0) (λ _. none) 7 waiting 5000 refl refl

run_due-stop_example :
    get
      (run_due whole (stop whole table 7 1000 delivered).0 9000 (λ _. 0) (λ _. some none)).0.entries
      7
    ≡ some (stop_entry whole waiting 7 1000 delivered).0
unfolding stop stop_entry request_stop
run_due-stop_example =
    run_due-stop whole table 7 1000 9000 delivered (λ _. 0) (λ _. some none) waiting immediate
      (refl, tt) refl refl

abbrev live_pane : Pane
live_pane = record dead_pane {
  reader = reading;
  exited = false;
  exit_checked = false;
  exit_code = none;
  restart_pending = false;
  pid = 42;
}

abbrev busy : Inner ℕ
busy = record { entries = (7, record { sup = running; pane = some live_pane }) ∷ []; dirty = [] }

stop-error_example :
    ((get busy.entries 7 ≡ none)
      × (◌≡◌ {A = EngineError ℕ} (pane_start 7) (pane_not_found 7))
      × ((stop whole busy 7 300 refused).0 ≡ busy))
    ⊎ ((e : Entry ℕ) × (t : Entry ℕ) × (get busy.entries 7 ≡ some e)
        × (◌≡◌ {A = EngineError ℕ} (pane_start 7) (pane_start 7))
        × (◌≡◌ {A = Killed} refused refused)
        × ((stop whole busy 7 300 refused).0 ≡ record busy { entries = insert busy.entries 7 t })
        × (t.sup ≡ e.sup))
unfolding stop stop_entry request_stop terminate set_restart_pending
stop-error_example = stop-error whole busy 7 300 refused (pane_start 7) refl

waiting-IsConsistent : IsConsistent waiting
waiting-IsConsistent = ground arith

-- The pane is stopped in its pause.
abbrev halted : Entry ℕ
halted = (stop_entry whole waiting 7 1000 delivered).0

EntryReach-Refines_example : Reach whole waiting.sup halted.sup × IsConsistent halted
EntryReach-Refines_example =
    EntryReach-Refines whole (EntryReach.next EntryReach.here (EntryStep.stops 7 1000 delivered))
      waiting-IsConsistent

final_exit_example : (restart_pending halted.sup.state ≡ false) × (halted.sup.started_at_ms ≡ none)
unfolding stop_entry request_stop set_restart_pending emit_lifecycle inject_output is_final
final_exit_example =
    final_exit whole {e = waiting} {t = halted} _
      (EntryReach.next EntryReach.here (EntryStep.stops 7 1000 delivered)) waiting-IsConsistent refl
      refl
