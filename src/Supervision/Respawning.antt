-- ===== src/Supervision/Respawning.antt =====
-- crates/tymux-core/src/supervision.rs: a respawn, as steps of the supervisor.
use tymux.Base.{
  ℕ, ◌≡◌, ◌⊎◌, inl, inr, refl, subst, sym, Bool, Option, none, some, arith, Option-cases,
}
use tymux.Restart.Policy.{Float64}
use tymux.Restart.{PaneSupervisor, on_started, begin_restart, on_spawn_failed}
use tymux.Restart.Lifecycle.{Step, Reach}
use tymux.Pane.{Pane, set_restart_pending, emit_lifecycle, inject_output, respawn_with}
use tymux.Supervision.{Entry}
use tymux.Supervision.Calls.{respawn_pane, do_respawn}
use tymux.Supervision.Tracking.{
  Tracks, one, on_spawn_failed_settled, announce_failed_spawn-SameProcess,
}

module _ (fl : Float64) where
  open fl use {F}

  -- The three ways in which a respawn leaves the supervisor.
  abbrev Respawned : PaneSupervisor F → ℕ → F → Bool → PaneSupervisor F → Type 0
  Respawned s now unit automatic t =
      (t ≡ s)
      ⊎ ((t ≡ on_started (begin_restart s now automatic) now)
          ⊎ (t ≡ (on_spawn_failed fl (begin_restart s now automatic) now unit).0))

  do_respawn-Respawned :
      (e : Entry F) (id now : ℕ) (unit : F) (automatic : Bool) (started : Option (Option ℕ))
      → Respawned e.sup now unit automatic (do_respawn fl e id now unit automatic started).0.sup
  unfolding do_respawn respawn_pane respawn_with
  do_respawn-Respawned e id now unit automatic started = ground arith

  -- A respawn takes the supervisor through the begin of a restart to its start or its failure.
  pub do_respawn-Reach :
      (e : Entry F) (id now : ℕ) (unit : F) (automatic : Bool) (started : Option (Option ℕ))
      → Step fl e.sup (begin_restart e.sup now automatic)
      → e.sup.started_at_ms ≡ none
      → Reach fl e.sup (do_respawn fl e id now unit automatic started).0.sup
  unfolding begin_restart
  do_respawn-Reach e id now unit automatic started begins h =
      elim (do_respawn-Respawned e id now unit automatic started) [
        | inl k ↦ subst (λ t. Reach fl e.sup t) (sym k) Reach.here
        | inr (inl k) ↦
            subst (λ t. Reach fl e.sup t) (sym k) (Reach.next (one fl begins) (Step.starts now))
        | inr (inr k) ↦
            subst (λ t. Reach fl e.sup t) (sym k)
              (Reach.next (one fl begins) (Step.spawn_fails now unit refl h))
      ]

  respawn_pane-Tracks :
      (s : PaneSupervisor F) (p : Pane) (id now : ℕ) (unit : F) (automatic : Bool)
      (started : Option (Option ℕ))
      → Tracks s (some p)
      → s.started_at_ms ≡ none
      → Tracks
          (respawn_pane fl s p id now unit automatic started).0.sup
          (respawn_pane fl s p id now unit automatic started).0.pane
  unfolding respawn_pane respawn_with set_restart_pending emit_lifecycle inject_output on_started
  respawn_pane-Tracks s p id now unit automatic started v h =
      let begun = begin_restart s now automatic in
      let (f, kind) = on_spawn_failed fl begun now unit in
      ground (
        arith,
        announce_failed_spawn-SameProcess fl f p kind now,
        on_spawn_failed_settled fl begun now unit,
      )

  -- A respawn that is made when no process runs keeps the pane tracked.
  pub do_respawn-Tracks :
      (e : Entry F) (id now : ℕ) (unit : F) (automatic : Bool) (started : Option (Option ℕ))
      → Tracks e.sup e.pane
      → e.sup.started_at_ms ≡ none
      → Tracks
          (do_respawn fl e id now unit automatic started).0.sup
          (do_respawn fl e id now unit automatic started).0.pane
  unfolding do_respawn
  do_respawn-Tracks e id now unit automatic started v h = elim (Option-cases e.pane) [
    | inl k ↦ ground (arith, k)
    | inr (p, k) ↦ ground (arith, k, respawn_pane-Tracks e.sup p id now unit automatic started)
  ]
