-- ===== src/Pane.antt =====
-- crates/tymux-core/src/pane.rs: what the supervisor reads and writes of a pane, and the end of its
-- reader thread. Signals, exit codes and pids are numbers, where 0 stands for none as in the source. A
-- marker or event that is sent is added to a list. What the kernel answers is an argument.
use tymux.Base.{
  ℕ, ◌+◌, ◌%◌, ◌^◌, Bool, true, false, not, Option, none, some, List, [], ◌∷◌, ◌++◌, ◌==◌,
  if◌then◌else◌, Result, ok, err,
}
use tymux.Restart.{LifecycleState}

pub data LifecycleEventKind : Type 0 where
  exited restart_scheduled restarted failed stopped : LifecycleEventKind

pub record LifecycleEvent : Type 0 where
  pub kind : LifecycleEventKind
  pub state : LifecycleState
  pub exit_code : Option ℕ
  pub exit_signal : Option ℕ
  pub delay_ms : Option ℕ
  pub next_restart_at_ms : Option ℕ
  pub pid : Option ℕ
  pub restart_count : ℕ
  pub at_ms : ℕ

-- `describe_exit`.
pub data ExitText : Type 0 where
  by_signal : ℕ → ExitText
  with_code : ℕ → ExitText
  unexplained : ExitText

-- The texts that the supervisor writes into the stream of a pane, before they are formatted.
pub data Marker : Type 0 where
  not_restarting : ExitText → Marker
  restarting_in : ExitText → ℕ → Marker
  restarting_now : ExitText → Marker
  gave_up : ExitText → ℕ → ℕ → Marker
  exit_stopped : ExitText → Marker
  retrying_in : ℕ → Marker
  budget_spent : Marker
  start_failed : Marker
  policy_changed : Marker
  restart_cancelled : Marker
  was_stopped : Marker
  restarted_banner : Option ℕ → ℕ → Marker

-- Where the reader thread is: it reads; it has reaped the child and taken the exit hook, which it still
-- has to call; the exit is accounted and not yet published; it is done.
pub data Reader : Type 0 where
  reading accounting reported ended : Reader

pub record Pane : Type 0 where
  pub reader : Reader
  pub exited : Bool
  pub exit_checked : Bool
  pub exit_hook : Bool
  pub exit_code : Option ℕ
  pub restart_pending : Bool
  pub retired : Bool
  pub pid : ℕ
  pub last_signal : ℕ
  pub generation : ℕ
  pub stream : List Marker
  pub lifecycle : List LifecycleEvent

-- What `kill(2)` answers, and what `start_process` returns.
pub data Killed : Type 0 where
  delivered no_such_process refused : Killed

pub data RespawnError : Type 0 where
  closed still_running start_refused : RespawnError

abbrev pub non_zero : ℕ → Option ℕ
non_zero n = if n == 0 then none else some n

abbrev pub or_zero : Option ℕ → ℕ
or_zero none = 0
or_zero (some n) = n

unfoldable pub signal_sent : Pane → Option ℕ
signal_sent p = non_zero p.last_signal

unfoldable pub set_restart_pending : Pane → Bool → Pane
set_restart_pending p pending = record p { restart_pending = pending }

unfoldable pub emit_lifecycle : Pane → LifecycleEvent → Pane
emit_lifecycle p event = record p { lifecycle = p.lifecycle ++ (event ∷ []) }

unfoldable pub inject_output : Pane → Marker → Pane
inject_output p marker = record p { stream = p.stream ++ (marker ∷ []) }

unfoldable pub retire : Pane → Pane
retire p = record p { retired = true; restart_pending = false }

unfoldable pub set_exit_hook : Pane → Pane × Bool
set_exit_hook p = (record p { exit_hook = true }, p.exit_checked)

-- The signal now; the SIGKILL after the grace only makes the child exit.
unfoldable pub signal_then_kill : Pane → ℕ → Killed → Pane × Bool
signal_then_kill p signal answer = if p.pid == 0 then (p, true) else (
  record p { last_signal = signal },
  elim answer [ delivered ↦ true | no_such_process ↦ true | refused ↦ false ],
)

abbrev pub sigterm : ℕ
sigterm = 15

unfoldable pub terminate : Pane → Killed → Pane × Bool
unfolding signal_then_kill
terminate p answer = signal_then_kill p sigterm answer

-- `started` is what `start_process` returns: the new pid, if it has one, or `none` for an error.
unfoldable pub respawn_with :
    Pane → Option (Option ℕ) → (Option ℕ → Marker) → Pane × Result (Option ℕ) RespawnError
unfolding inject_output
respawn_with p started banner =
    if p.retired
    then (p, err closed)
    else if not p.exited
    then (p, err still_running)
    else elim started [
      | none ↦ (p, err start_refused)
      | some pid ↦ (
        inject_output
            (record p {
              pid = or_zero pid;
              generation = (p.generation + 1) % 2 ^ 64;
              last_signal = 0;
              exit_code = none;
              exit_checked = false;
              exited = false;
              reader = reading;
            })
            (banner pid),
        ok pid,
      )
    ]

-- The reader thread at the end of its input: it reaps the child and takes the hook, and later, the hook
-- called if there was one, it publishes the exit.
unfoldable pub reap : Pane → Option ℕ → Pane
reap p code = record p {
  exit_code = code;
  pid = 0;
  exit_checked = true;
  reader = if p.exit_hook then accounting else reported;
}

unfoldable pub publish : Pane → Pane
publish p = record p { exited = true; reader = ended }

-- The condition on which `wait_final_exit` resolves.
unfoldable pub is_final : Pane → Bool
is_final p = if p.exited then not p.restart_pending else false
