-- ===== src/Supervision/Refining.antt =====
-- crates/tymux-core/src/supervision.rs: what happens to a supervised pane, the reader thread of pane.rs
-- included, refines the steps of its supervisor.
use tymux.Base.{
  ℕ, ◌≡◌, inl, inr, refl, subst, Bool, true, false, Option, none, some, arith, Bool-cases,
  Option-cases,
}
use tymux.Restart.Policy.{Float64, RestartPolicy}
use tymux.Restart.{
  PaneSupervisor, PersistedRestartState, new, restore, due, restart_pending, is_backoff,
  begin_restart, reset_budget,
}
use tymux.Restart.Lifecycle.{Step, Reach, IsValid, Reach-IsValid, new-IsValid, restore-IsValid}
use tymux.Pane.{
  Pane, reading, accounting, reported, ended, Killed, reap, publish, signal_sent, is_final,
}
use tymux.Supervision.{Entry}
use tymux.Supervision.Calls.{
  account_exit, do_respawn, restored_entry, adopted_entry, stop_entry, restart_entry, start_entry,
  policy_entry,
}
use tymux.Supervision.Table.{is_ready}
use tymux.Supervision.Tracking.{Refines, IsUnhooked, Tracks, IsConsistent, one, account_exit-Tracks}
use tymux.Supervision.Restarting.{
  Reach-append, stop_entry-Refines, policy_entry-Tracks, adopted_entry-Refines, start_entry-Refines,
  restart_entry-Refines,
}
use tymux.Supervision.Respawning.{do_respawn-Reach, do_respawn-Tracks}

-- What may happen to an entry: the reader reaps the child, calls the hook, publishes the exit; the pane
-- is dropped once its reader is done; an operator or a timer calls.
pub data EntryStep (fl : Float64) (e : Entry fl.F) : Entry fl.F → Type 0 where
  reaps :
      (p : Pane) (code : Option ℕ)
      → e.pane ≡ some p
      → p.reader ≡ reading
      → EntryStep fl e (record e { pane = some (reap p code) })
  accounts :
      (p : Pane) (now : ℕ) (unit : fl.F)
      → e.pane ≡ some p
      → p.reader ≡ accounting
      → EntryStep fl e (account_exit fl e.sup (record p { reader = reported }) now p.exit_code unit)
  publishes :
      (p : Pane)
      → e.pane ≡ some p
      → p.reader ≡ reported
      → EntryStep fl e (record e { pane = some (publish p) })
  drops :
      (p : Pane) → e.pane ≡ some p → p.reader ≡ ended → EntryStep fl e (record e { pane = none })
  stops : (id now : ℕ) (answer : Killed) → EntryStep fl e (stop_entry fl e id now answer).0
  restarts :
      (id : ℕ) (reset_backoff : Bool) (now : ℕ) (unit : fl.F) (answer : Killed)
      (started : Option (Option ℕ))
      → EntryStep fl e (restart_entry fl e id reset_backoff now unit answer started).0
  starts :
      (id now : ℕ) (unit : fl.F) (started : Option (Option ℕ))
      → EntryStep fl e (start_entry fl e id now unit started).0
  sets_policy :
      (policy : RestartPolicy fl.F) (now : ℕ) → EntryStep fl e (policy_entry fl e policy now)
  resets_budget : EntryStep fl e (record e { sup = reset_budget e.sup })
  runs_due :
      (id now : ℕ) (unit : fl.F) (started : Option (Option ℕ))
      → is_ready e now ≡ true
      → EntryStep fl e (do_respawn fl e id now unit (is_backoff e.sup.state) started).0
  adopts :
      (p : Pane) (now : ℕ) (unit : fl.F)
      → e.sup.started_at_ms ≡ none
      → IsUnhooked p
      → EntryStep fl e (adopted_entry fl e.sup p now unit)

module _ (fl : Float64) where
  open fl use {F}

  reaps-Tracks :
      (s : PaneSupervisor F) (p : Pane) (code : Option ℕ)
      → Tracks s (some p)
      → p.reader ≡ reading
      → Tracks s (some (reap p code))
  unfolding reap
  reaps-Tracks s p code v h = ground arith

  publishes-Tracks :
      (s : PaneSupervisor F) (p : Pane)
      → Tracks s (some p)
      → p.reader ≡ reported
      → Tracks s (some (publish p))
  unfolding publish
  publishes-Tracks s p v h = ground arith

  drops-Tracks :
      (s : PaneSupervisor F) (p : Pane) → Tracks s (some p) → p.reader ≡ ended → Tracks s none
  drops-Tracks s p v h = ground arith

  policy_entry-Reach :
      (e : Entry F) (policy : RestartPolicy F) (now : ℕ)
      → Reach fl e.sup (policy_entry fl e policy now).sup
  unfolding policy_entry
  policy_entry-Reach e policy now = one fl (Step.sets_policy policy)

  resets_budget-Tracks :
      (s : PaneSupervisor F) (o : Option Pane) → Tracks s o → Tracks (reset_budget s) o
  unfolding reset_budget
  resets_budget-Tracks s none v = v
  resets_budget-Tracks s (some p) v = ground arith

  accounts-Refines :
      (e : Entry F) (p : Pane) (now : ℕ) (unit : F)
      → Tracks e.sup (some p)
      → p.reader ≡ accounting
      → Refines fl e (account_exit fl e.sup (record p { reader = reported }) now p.exit_code unit)
  unfolding account_exit
  accounts-Refines e p now unit v h = (
    one fl (
        Step.exits now p.exit_code (signal_sent (record p { reader = reported })) unit
          (ground arith)),
    account_exit-Tracks fl e.sup (record p { reader = reported }) now p.exit_code unit
        (ground arith) (ground arith) (ground arith) refl,
  )

  is_ready-Step :
      (e : Entry F) (now : ℕ)
      → IsConsistent e
      → is_ready e now ≡ true
      → (due e.sup now ≡ true) × (e.sup.started_at_ms ≡ none)
  unfolding is_ready
  is_ready-Step e now v h = elim (Option-cases e.pane) [
    | inl k ↦ ground (arith, k)
    | inr (p, k) ↦ ground (arith, k)
  ]

  due_manual :
      (s : PaneSupervisor F) (now : ℕ)
      → IsValid s
      → due s now ≡ true
      → is_backoff s.state ≡ false
      → s.stop_requested ≡ false
  unfolding due
  due_manual s now v d k = ground arith

  begins-Step :
      (s : PaneSupervisor F) (now : ℕ)
      → IsValid s
      → due s now ≡ true
      → s.started_at_ms ≡ none
      → Step fl s (begin_restart s now (is_backoff s.state))
  begins-Step s now v d h = elim (Bool-cases (is_backoff s.state)) [
    | inl k ↦ rw k (Step.begins_automatic now (ground (arith, k)) d)
    | inr k ↦ rw k (Step.begins_manual now h (due_manual s now v d k))
  ]

  -- Whatever happens to a consistent entry, its supervisor makes steps of its lifecycle, and the entry
  -- tracks its process as before.
  EntryStep-Refines : {e t : Entry F} → EntryStep fl e t → IsConsistent e → Refines fl e t
  EntryStep-Refines {e = e} (reaps p code k h) v =
      (Reach.here, reaps-Tracks e.sup p code (subst (Tracks e.sup) k v.tracks) h)
  EntryStep-Refines {e = e} (accounts p now unit k h) v =
      accounts-Refines e p now unit (subst (Tracks e.sup) k v.tracks) h
  EntryStep-Refines {e = e} (publishes p k h) v =
      (Reach.here, publishes-Tracks e.sup p (subst (Tracks e.sup) k v.tracks) h)
  EntryStep-Refines {e = e} (drops p k h) v =
      (Reach.here, drops-Tracks e.sup p (subst (Tracks e.sup) k v.tracks) h)
  EntryStep-Refines {e = e} (stops id now answer) v = stop_entry-Refines fl e id now answer v
  EntryStep-Refines {e = e} (restarts id reset_backoff now unit answer started) v =
      restart_entry-Refines fl e id reset_backoff now unit answer started v
  EntryStep-Refines {e = e} (starts id now unit started) v =
      start_entry-Refines fl e id now unit started v
  EntryStep-Refines {e = e} (sets_policy policy now) v =
      (policy_entry-Reach e policy now, policy_entry-Tracks fl e policy now v.tracks)
  EntryStep-Refines {e = e} resets_budget v =
      (one fl Step.resets_budget, resets_budget-Tracks e.sup e.pane v.tracks)
  EntryStep-Refines {e = e} (runs_due id now unit started h) v =
      let (d, quiet) = is_ready-Step e now v h in
      (
        do_respawn-Reach fl e id now unit (is_backoff e.sup.state) started
            (begins-Step e.sup now v.valid d quiet) quiet,
        do_respawn-Tracks fl e id now unit (is_backoff e.sup.state) started v.tracks quiet,
      )
  EntryStep-Refines {e = e} (adopts p now unit h k) v = adopted_entry-Refines fl e p now unit h k

  pub data EntryReach (e : Entry F) : Entry F → Type 0 where
    here : EntryReach e e
    next : {t u : Entry F} → EntryReach e t → EntryStep fl t u → EntryReach e u

  -- From a consistent entry on, whatever happens to it and in whatever order, its supervisor is where
  -- steps of the lifecycle take it, and the entry stays consistent.
  pub EntryReach-Refines :
      {e t : Entry F} → EntryReach e t → IsConsistent e → Reach fl e.sup t.sup × IsConsistent t
  EntryReach-Refines here v = (Reach.here, v)
  EntryReach-Refines {e = e} (next {t = t} r st) v =
      let (q, w) = EntryReach-Refines r v in
      let (q', tracks) = EntryStep-Refines st w in
      (Reach-append fl q q', record { valid = Reach-IsValid fl w.valid q'; tracks = tracks })

  final-quiet :
      (s : PaneSupervisor F) (p : Pane)
      → Tracks s (some p)
      → is_final p ≡ true
      → (restart_pending s.state ≡ false) × (s.started_at_ms ≡ none)
  unfolding is_final
  final-quiet s p v h = ground arith

  -- Whatever happened to a consistent entry: when its pane has exited and no restart is announced, which
  -- is what a client waits for, the supervisor has none pending and knows of no process.
  pub final_exit :
      {e t : Entry F} (p : Pane)
      → EntryReach e t
      → IsConsistent e
      → t.pane ≡ some p
      → is_final p ≡ true
      → (restart_pending t.sup.state ≡ false) × (t.sup.started_at_ms ≡ none)
  final_exit {t = t} p r v k h =
      final-quiet t.sup p (subst (Tracks t.sup) k (EntryReach-Refines r v).1.tracks) h

  -- A pane restored from disk is consistent.
  pub restored_entry-IsConsistent :
      (persisted : Option (PersistedRestartState F)) (policy : RestartPolicy F)
      → IsConsistent (restored_entry fl persisted policy)
  unfolding restored_entry new restore
  restored_entry-IsConsistent none policy = record {
    valid = unfold new in new-IsValid policy;
    tracks = refl;
  }
  restored_entry-IsConsistent (some p) policy = record {
    valid = unfold restore in restore-IsValid p;
    tracks = refl;
  }
