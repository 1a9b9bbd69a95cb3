-- ===== src/Tests/Engine.antt =====
-- Runs of the engine: a session, a second pane, a second window, and their end.
use tymux.Base.{ℕ, ◌≡◌, refl, Bool, true, false, some, none, [], ◌==◌, not, ◌+◌, arith}
use tymux.Layout.{vertical, split_node, contains, rect_of, compute_geometry, replace_leaf, leaves}
use tymux.Pane.{Pane, reading}
use tymux.Engine.{Platform, Engine, Spawned, insert_pane, insert_window, persist_session}
use tymux.Restart.Policy.{validate}
use tymux.Engine.Operations.{create_session_supervised, create_window, split_pane}
use tymux.Engine.Removals.{close_pane, kill_session}
use tymux.Engine.Indexing.{IsIndexed}
use tymux.Engine.Adding.{create_session-IsIndexed, create_window-IsIndexed}
use tymux.Engine.Splitting.{SplitOutcome, split_pane-SplitOutcome}
use tymux.Engine.Closing.{CloseOutcome, close_pane-CloseOutcome}
use tymux.Engine.Killing.{KillOutcome, kill_session-KillOutcome}
use tymux.Engine.Reviving.{Answers, revive_session}
use tymux.Engine.Revived.{ReviveEnd, revive_session-ReviveEnd}
use tymux.Engine.Listing.{list_sessions, snapshots, list_sessions-snapshots}
use tymux.Tests.Layout.{half_units, half_units-laws}
use tymux.Tests.Restart.{whole, policy}

abbrev machine : Platform
machine = record {
  f32 = half_units;
  f64 = whole;
  Text = ℕ;
  Launch = ℕ;
  empty_text = 0;
  empty_launch = 0;
  default_policy = policy;
  is_default = λ p. p.max_restarts == 2;
  is_off_one = λ r s. not (r + s == 2);
  to_string = λ n. n;
}

abbrev process : Pane
process = record {
  reader = reading;
  exited = false;
  exit_checked = false;
  exit_hook = false;
  exit_code = none;
  restart_pending = false;
  retired = false;
  pid = 71;
  last_signal = 0;
  generation = 0;
  stream = [];
  lifecycle = [];
}

abbrev spawned : ℕ → Spawned machine
spawned id = record {
  id = id;
  kept = record {
    command = 9;
    cwd = 8;
    size_rows = 24;
    size_cols = 80;
    exit_code = none;
    launch = 3;
  };
  pane = process;
}

abbrev empty : Engine machine
empty = record {
  sessions = [];
  panes = [];
  viewports = [];
  next_client_id = 1;
  window_index = record { pane_window = []; window_session = [] };
  supervision = record { entries = []; dirty = [] };
  effects = [];
}

empty-IsIndexed : IsIndexed machine empty
empty-IsIndexed = record {
  agrees = record {
    window_indexed = λ s w h. absurd (h refl);
    window_there = λ s w h. ground (arith, h);
    pane_indexed = λ s w p h. ground (arith, h);
    pane_there = λ w p h. ground (arith, h);
    pane_held = λ s w p h k. ground (arith, h);
    well_formed = λ s w x h. ground (arith, h);
  };
  known = λ p. refl;
  sound = λ s x h. ground (arith, h);
}

abbrev running : ℕ → Bool
running id = false

-- Session 7 with window 5 and pane 1.
abbrev one : Engine machine
one = (create_session_supervised machine empty 4 policy (some (spawned 1)) 5 7 0 1).0

one-IsIndexed : IsIndexed machine one
one-IsIndexed =
    create_session-IsIndexed machine empty 4 policy (some (spawned 1)) 5 7 0 1 empty-IsIndexed refl
      (λ new h. record { pane_fresh = refl; window_fresh = refl })

create_session-IsIndexed_example : IsIndexed machine one
create_session-IsIndexed_example =
    create_session-IsIndexed machine empty 4 policy (some (spawned 1)) 5 7 0 1 empty-IsIndexed refl
      (λ new h. record { pane_fresh = refl; window_fresh = refl })

create_window-IsIndexed_example :
    IsIndexed machine (create_window machine running one 7 (some (spawned 2)) 6 0 1).0
unfolding create_session_supervised insert_pane insert_window persist_session validate
create_window-IsIndexed_example =
    create_window-IsIndexed machine running one 7 (some (spawned 2)) 6 0 1 one-IsIndexed
      (λ new h. record { pane_fresh = ground (arith, h); window_fresh = refl })

abbrev alone : Engine machine → Engine machine
alone e = e

split_pane-SplitOutcome_example :
    SplitOutcome machine alone one 1 vertical
      (spawned 2)
      (split_pane machine running alone alone one 1 vertical (some (spawned 2)) 0 1)
unfolding create_session_supervised insert_pane insert_window persist_session validate
split_pane-SplitOutcome_example =
    split_pane-SplitOutcome machine half_units-laws running alone one 1 vertical (spawned 2) 0 1
      one-IsIndexed refl (λ x h. h)

-- The session is killed just before the snapshot.
split_panics :
    split_pane machine running alone
      (λ e. (kill_session machine running e 7).0)
      one
      1
      vertical
      (some (spawned 2))
      0
      1
    ≡ none
unfolding split_pane kill_session create_session_supervised persist_session validate split_node
    contains rect_of compute_geometry replace_leaf leaves
split_panics = refl

close_pane-CloseOutcome_example : CloseOutcome machine one 1 (close_pane machine running one 1)
close_pane-CloseOutcome_example = close_pane-CloseOutcome machine running one 1 one-IsIndexed

kill_session-KillOutcome_example :
    KillOutcome machine running one 7 (kill_session machine running one 7)
kill_session-KillOutcome_example = kill_session-KillOutcome machine running one 7 one-IsIndexed

list_sessions-snapshots_example :
    list_sessions machine running one
    ≡ snapshots machine running one.supervision one.panes one.sessions
list_sessions-snapshots_example = list_sessions-snapshots machine running one

-- All children have exited, each launch resolves, and each pane starts.
abbrev willing : Answers machine
willing = record {
  is_exited = λ id. true;
  prepares = λ launch. true;
  spawns = λ id. none;
  starts = λ id. some (some 72);
  now = 60000;
  unit = 0;
}

revive_session-ReviveEnd_example :
    ReviveEnd machine willing one 7 (revive_session machine willing one 7)
revive_session-ReviveEnd_example = revive_session-ReviveEnd machine willing one 7 one-IsIndexed
