-- ===== src/Tests/Persistence.antt =====
-- Runs of persistence, with numbers for text, launch specs and ratios (in percent).
use tymux.Base.{ℕ, ◌+◌, ◌≡◌, refl, not, none, some, [], ◌∷◌, ◌==◌, err}
use tymux.Layout.{LayoutNode, vertical, contains}
use tymux.Persistence.{
  Opaque, live, dead, Panes, validate_structure, ratio_sum, children_count, from_live,
  persisted_layout_to_live, PersistedLayoutNode, nil, cons,
}
use tymux.Persistence.Trees.{IsRestored, from_live-IsRestored}
use tymux.Persistence.Sessions.{
  SessionState, load_session, from_session_state_with_restart, with_default_size,
  load_session-from_session_state,
}
use tymux.Tests.Restart.{policy}

abbrev numbers : Opaque
numbers = record {
  Text = ℕ;
  Launch = ℕ;
  F = ℕ;
  R = ℕ;
  empty_text = 0;
  empty_launch = 0;
  default_policy = policy;
  is_default = λ p. p.max_restarts == 2;
  is_off_one = λ r s. not (r + s == 100);
}

abbrev side_by_side : LayoutNode ℕ
side_by_side = LayoutNode.split vertical (LayoutNode.leaf 1) 60 (LayoutNode.leaf 2) 40

-- One pane runs; the other is not known any more.
abbrev panes : Panes numbers
panes =
    (
      1,
      live (record {
        command = 9;
        cwd = 8;
        size_rows = 24;
        size_cols = 48;
        exit_code = none;
        launch = 3;
      }),
    )
    ∷ []

-- Both panes are on file, the second with the exit code of its last run.
abbrev filed : Panes numbers
filed =
    (
      2,
      dead (record {
        pane_id = 2;
        command = 9;
        cwd = 8;
        rows = 24;
        cols = 32;
        exit_code = some 1;
        launch = 3;
        restart = none;
      }),
    )
    ∷ panes

from_live-IsRestored_example :
    let (tree, after) =
      persisted_layout_to_live numbers (from_live numbers side_by_side filed []) [] in
    (tree ≡ some side_by_side)
    × ((id : ℕ) → IsRestored numbers filed [] [] after id (contains side_by_side id))
    × (from_live numbers side_by_side after [] ≡ from_live numbers side_by_side filed [])
from_live-IsRestored_example = from_live-IsRestored numbers side_by_side filed [] [] (refl, tt)

-- A split with one child, and one whose ratios do not sum to one.
lone :
    validate_structure numbers (
      PersistedLayoutNode.split vertical
        (cons (from_live numbers (LayoutNode.leaf 1) panes []) 100 nil))
    ≡ err (children_count 1)
unfolding validate_structure
lone = refl

skewed :
    validate_structure numbers (
      from_live numbers
        (LayoutNode.split vertical (LayoutNode.leaf 1) 60 (LayoutNode.leaf 2) 60)
        panes
        [])
    ≡ err ratio_sum
unfolding validate_structure from_live
skewed = refl

abbrev session : SessionState numbers
session = record {
  id = 77;
  name = 5;
  windows = record { id = 70; name = 6; layout = side_by_side; rows = 50; cols = 200 } ∷ [];
  active_window_id = 70;
  default_restart_policy = policy;
}

load_session-from_session_state_example :
    (load_session numbers (from_session_state_with_restart numbers session panes []) []).0
    ≡ some (record session { windows = with_default_size numbers session.windows })
load_session-from_session_state_example =
    load_session-from_session_state numbers session panes [] [] tt (λ _. refl)
