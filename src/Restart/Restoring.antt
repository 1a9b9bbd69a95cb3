-- ===== src/Restart/Restoring.antt =====
-- crates/tymux-core/src/restart.rs: `persisted` and `restore` across a daemon restart.
use tymux.Base.{ℕ, ◌≡◌, ◌⊎◌, false, arith}
use tymux.Restart.{
  exited, restored_state, PaneSupervisor, persisted, restore, due, is_some, restarts_in_window,
}

module _ {F : Type 0} where
  -- What a daemon restart keeps and drops: the policy, the counters, the restart log and the last
  -- exit come back; `stopped` and `failed` stay and every other state is `exited`; nothing is
  -- running and nothing falls due, at any time.
  pub restore-persisted :
      (s : PaneSupervisor F) (now : ℕ)
      → let t = restore (persisted s) in
        (persisted t ≡ record (persisted s) { state = restored_state s.state })
        × (restarts_in_window t now ≡ restarts_in_window s now)
        × (is_some t.started_at_ms ≡ false)
        × (due t now ≡ false)
        × ((t.state ≡ s.state) ⊎ (t.state ≡ exited))
  unfolding restore persisted due restarts_in_window
  restore-persisted s now = ground arith

  -- A second daemon restart changes nothing more.
  pub restore_twice :
      (s : PaneSupervisor F) → restore (persisted (restore (persisted s))) ≡ restore (persisted s)
  unfolding restore persisted
  restore_twice s = ground arith
