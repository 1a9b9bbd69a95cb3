-- ===== src/Supervision/Tracking.antt =====
-- crates/tymux-core/src/supervision.rs: what the supervisor of a pane knows of its process.
use tymux.Base.{ℕ, ◌≡◌, ◌⊎◌, subst, sym, Bool, true, false, not, Option, none, some, arith}
use tymux.Restart.Policy.{Float64}
use tymux.Restart.{
  PaneSupervisor, restart_pending, is_some, on_exit, on_spawn_failed, ExitKind, ran_for,
}
use tymux.Restart.Lifecycle.{Step, Reach, IsValid, after_failure-Keeps, dead}
use tymux.Pane.{
  Pane, Reader, reading, accounting, ended, signal_sent, set_restart_pending, emit_lifecycle,
  inject_output,
}
use tymux.Supervision.{Entry, announce_exit, announce_failed_spawn}
use tymux.Supervision.Calls.{account_exit}

-- The reader has not accounted an exit of the process.
abbrev pub in_flight : Reader → Bool
in_flight reading = true
in_flight accounting = true
in_flight _ = false

abbrev pub is_ended : Reader → Bool
is_ended ended = true
is_ended _ = false

abbrev pub is_reading : Reader → Bool
is_reading reading = true
is_reading _ = false

-- A pane as its supervisor should see it: hooked, exited once its reader is done, with a process
-- exactly until the exit is accounted, and from then on with the supervisor's word on a restart.
module _ {F : Type 0} where
  abbrev pub Tracks : PaneSupervisor F → Option Pane → Type 0
  Tracks s none = s.started_at_ms ≡ none
  Tracks s (some p) =
      (p.exit_hook ≡ true)
      × (p.exited ≡ is_ended p.reader)
      × (p.exit_checked ≡ not (is_reading p.reader))
      × (is_some s.started_at_ms ≡ in_flight p.reader)
      × ((in_flight p.reader ≡ true) ⊎ (p.restart_pending ≡ restart_pending s.state))

pub record IsConsistent {F : Type 0} (e : Entry F) : Type 0 where
  pub valid : IsValid e.sup
  pub tracks : Tracks e.sup e.pane

-- A pane that no supervisor has hooked: its reader reports no exit.
abbrev pub IsUnhooked : Pane → Type 0
IsUnhooked p =
    (p.exit_hook ≡ false)
    × (p.exited ≡ is_ended p.reader)
    × (p.exit_checked ≡ not (is_reading p.reader))
    × ((in_flight p.reader ≡ false) ⊎ (p.reader ≡ reading))

module _ (fl : Float64) where
  open fl use {F}

  -- What the supervisor's writing to a pane leaves alone.
  abbrev pub SameProcess : Pane → Pane → Type 0
  SameProcess p q =
      (q.reader ≡ p.reader)
      × (q.exited ≡ p.exited)
      × (q.exit_checked ≡ p.exit_checked)
      × (q.exit_hook ≡ p.exit_hook)
      × (q.retired ≡ p.retired)

  pub announce_exit-SameProcess :
      (s : PaneSupervisor F) (p : Pane) (kind : ExitKind) (code signal : Option ℕ) (now : ℕ)
      → SameProcess p (announce_exit s p kind code signal now)
  unfolding announce_exit emit_lifecycle inject_output
  announce_exit-SameProcess s p kind code signal now = ground arith

  pub announce_failed_spawn-SameProcess :
      (s : PaneSupervisor F) (p : Pane) (kind : ExitKind) (now : ℕ)
      → SameProcess p (announce_failed_spawn s p kind now)
  unfolding announce_failed_spawn emit_lifecycle inject_output
  announce_failed_spawn-SameProcess s p kind now = ground arith

  -- A step sequence of the supervisor that ends in an entry that tracks its process.
  pub record Follows (s : PaneSupervisor F) (e : Entry F) : Type 0 where
    pub reach : Reach fl s e.sup
    pub tracks : Tracks e.sup e.pane

  pub one : {s t : PaneSupervisor F} → Step fl s t → Reach fl s t
  one st = Reach.next Reach.here st

  pub on_exit_settled :
      (s : PaneSupervisor F) (now : ℕ) (code signal : Option ℕ) (unit : F)
      → (on_exit fl s now code signal unit).0.started_at_ms ≡ none
  unfolding on_exit
  on_exit_settled s now code signal unit = ground (
    arith,
    after_failure-Keeps fl (dead fl s now code signal) now code (ran_for s.started_at_ms now) unit,
  )

  pub on_spawn_failed_settled :
      (s : PaneSupervisor F) (now : ℕ) (unit : F)
      → (on_spawn_failed fl s now unit).0.started_at_ms ≡ none
  unfolding on_spawn_failed
  on_spawn_failed_settled s now unit = ground (
    arith,
    after_failure-Keeps fl (record s { started_at_ms = none; next_restart_at_ms = none }) now none
        none unit,
  )

  -- The reader of a hooked pane whose exit was not accounted goes on to `reader` once it is.
  pub account_exit-Tracks :
      (s : PaneSupervisor F) (p : Pane) (now : ℕ) (code : Option ℕ) (unit : F)
      → p.exit_hook ≡ true
      → p.exited ≡ is_ended p.reader
      → p.exit_checked ≡ true
      → in_flight p.reader ≡ false
      → Tracks (account_exit fl s p now code unit).sup (account_exit fl s p now code unit).pane
  unfolding account_exit set_restart_pending
  account_exit-Tracks s p now code unit h k m n =
      let (sup, kind) = on_exit fl s now code (signal_sent p) unit in
      ground (
        arith,
        announce_exit-SameProcess sup p kind code (signal_sent p) now,
        on_exit_settled s now code (signal_sent p) unit,
      )

  abbrev pub Refines : Entry F → Entry F → Type 0
  Refines e t = Reach fl e.sup t.sup × Tracks t.sup t.pane

  pub along : {s : PaneSupervisor F} (t u : PaneSupervisor F) → u ≡ t → Reach fl s t → Reach fl s u
  along {s = s} t u k r = subst (λ x. Reach fl s x) (sym k) r
