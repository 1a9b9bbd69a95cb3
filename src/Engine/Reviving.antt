-- ===== src/Engine/Reviving.antt =====
-- crates/tymux-core/src/engine.rs: `revive_session` and `start_pane_inner`. What the kernel and the pane
-- answer is a record of functions of the pane's id.
use tymux.Base.{
  ℕ, ◌+◌, ◌≡◌, ◌∙◌, refl, inl, inr, Bool, true, false, not, ◌||◌, Option, none, some, List, [], ◌∷◌,
  if◌then◌else◌, Result, ok, err, arith, Bool-cases, Option-cases,
}
use tymux.Base.Maps.{get, insert, get-insert}
use tymux.Restart.Policy.{RestartPolicy}
use tymux.Restart.{LifecycleState}
use tymux.Pane.{Pane}
use tymux.Persistence.{LivePane, PaneEntry, live}
use tymux.Supervision.{
  pane_not_found, pane_running, pane_start, pane_stopped, pane_failed, revive_launch,
  session_not_found,
}
use tymux.Supervision.Table.{start, adopt_started}
use tymux.Engine.{Platform, ty, Engine, all_leaves, persist_session}
use tymux.Engine.Snapshots.{state_of}
use tymux.Engine.Operations.{Error}
use tymux.Engine.Indexing.{is_some}

pub data ReviveOutcome : Type 0 where
  revived : ℕ → ReviveOutcome
  already_live : ReviveOutcome

abbrev pub is_held : Option LifecycleState → Bool
is_held (some LifecycleState.stopped) = true
is_held (some LifecycleState.failed) = true
is_held _ = false

module _ (sys : Platform) where
  -- Whether a child has exited, a launch can be resolved, a new process is spawned for a restored record,
  -- and a pane in memory starts again; the clock and the jitter.
  pub record Answers : Type 0 where
    pub is_exited : ℕ → Bool
    pub prepares : sys.Launch → Bool
    pub spawns : ℕ → Option (LivePane (ty sys) × Pane)
    pub starts : ℕ → Option (Option ℕ)
    pub now : ℕ
    pub unit : sys.f64.F

  unfoldable pub start_pane_inner :
      Answers
      → Engine sys
      → ℕ
      → RestartPolicy sys.f64.F
      → Engine sys × Result (Unit {0}) (Error sys)
  start_pane_inner a e id fallback = elim (get e.panes id) [
    | none ↦ (e, err (pane_not_found id))
    | some (PaneEntry.live p) ↦
        let (inner, r) = start sys.f64 e.supervision id a.now a.unit (a.starts id) in
        if not (a.is_exited id)
        then (e, err (pane_running id))
        else (record e { supervision = inner }, r)
    | some (PaneEntry.dead r) ↦ elim (a.spawns id) [
      | none ↦ (e, err (pane_start id))
      | some (kept, pane) ↦ (
        record e {
          panes = insert e.panes id (live kept);
          supervision = adopt_started sys.f64 e.supervision id pane fallback a.now a.unit;
        },
        ok tt,
      )
    ]
  ]

  abbrev pub runs : Answers → Engine sys → ℕ → Bool
  runs a e id = elim (get e.panes id) [ some (PaneEntry.live p) ↦ not (a.is_exited id) | _ ↦ false ]

  abbrev pub any_runs : Answers → Engine sys → List ℕ → Bool
  any_runs a e [] = false
  any_runs a e (id ∷ ids) = runs a e id || any_runs a e ids

  -- `partition`: the panes that are held, and the others.
  abbrev pub held_ids : Engine sys → List ℕ → List ℕ
  held_ids e [] = []
  held_ids e (id ∷ ids) =
      let rest = held_ids e ids in
      if is_held (state_of sys e.supervision id) then id ∷ rest else rest

  abbrev pub other_ids : Engine sys → List ℕ → List ℕ
  other_ids e [] = []
  other_ids e (id ∷ ids) =
      let rest = other_ids e ids in
      if is_held (state_of sys e.supervision id) then rest else id ∷ rest

  abbrev pub launch_of : PaneEntry (ty sys) → sys.Launch
  launch_of (PaneEntry.live p) = p.launch
  launch_of (PaneEntry.dead r) = r.launch

  -- The first pane whose launch cannot be resolved.
  abbrev pub unresolved : Answers → Engine sys → List ℕ → Option ℕ
  unresolved a e [] = none
  unresolved a e (id ∷ ids) =
      let later = unresolved a e ids in
      elim (get e.panes id) [
        | none ↦ later
        | some entry ↦ if a.prepares (launch_of entry) then later else some id
      ]

  abbrev pub held_error : Option LifecycleState → ℕ → Error sys
  held_error (some LifecycleState.stopped) id = pane_stopped id
  held_error _ id = pane_failed id

  abbrev pub count_ok : Result (Unit {0}) (Error sys) → ℕ → ℕ
  count_ok (ok u) n = n + 1
  count_ok (err x) n = n

  -- The loop that starts the panes, and how many have started; an error is only logged.
  unfoldable pub start_each :
      Answers → Engine sys → RestartPolicy sys.f64.F → List ℕ → Engine sys × ℕ
  unfolding start_pane_inner
  start_each a e fallback [] = (e, 0)
  start_each a e fallback (id ∷ ids) =
      let (e1, r) = start_pane_inner a e id fallback in
      let (e2, n) = start_each a e1 fallback ids in (e2, count_ok r n)

  unfoldable pub revive_panes :
      Answers
      → Engine sys
      → ℕ
      → RestartPolicy sys.f64.F
      → List ℕ
      → Engine sys × Result ReviveOutcome (Error sys)
  unfolding start_each persist_session
  revive_panes a e session_id fallback ids = elim (unresolved a e ids) [
    | some id ↦ (e, err (revive_launch id))
    | none ↦
        let (e', n) = start_each a e fallback ids in
        (persist_session sys e' session_id, ok (revived n))
  ]

  unfoldable pub revive_session :
      Answers → Engine sys → ℕ → Engine sys × Result ReviveOutcome (Error sys)
  unfolding all_leaves revive_panes state_of
  revive_session a e session_id = elim (get e.sessions session_id) [
    | none ↦ (e, err (session_not_found session_id))
    | some session ↦
        let ids = all_leaves sys session.windows in
        let fallback = session.default_restart_policy in
        if any_runs a e ids then (e, ok already_live) else elim (other_ids e ids) [
          | [] ↦ elim (held_ids e ids) [
            | [] ↦ revive_panes a e session_id fallback []
            | id ∷ rest ↦ (e, err (held_error (state_of sys e.supervision id) id))
          ]
          | id ∷ rest ↦ revive_panes a e session_id fallback (id ∷ rest)
        ]
  ]

  -- What starting panes leaves alone: sessions, the index, and which panes there are.
  pub record Starts (e e' : Engine sys) : Type 0 where
    pub same_sessions : e'.sessions ≡ e.sessions
    pub same_index : e'.window_index ≡ e.window_index
    pub same_panes : (j : ℕ) → is_some sys (get e'.panes j) ≡ is_some sys (get e.panes j)

  none_touched : (e : Engine sys) → Starts e e
  none_touched e = record { same_sessions = refl; same_index = refl; same_panes = λ j. refl }

  start_pane_inner-Starts :
      (a : Answers) (e : Engine sys) (id : ℕ) (fallback : RestartPolicy sys.f64.F)
      → Starts e (start_pane_inner a e id fallback).0
  unfolding start_pane_inner
  start_pane_inner-Starts a e id fallback = elim (Option-cases (get e.panes id)) [
    | inl k ↦ rw (start_pane_inner, k) (none_touched e)
    | inr (PaneEntry.live p, k) ↦ elim (Bool-cases (a.is_exited id)) [
      | inr x ↦ rw (start_pane_inner, k, x) (none_touched e)
      | inl x ↦
          rw (start_pane_inner, k, x)
            (record { same_sessions = refl; same_index = refl; same_panes = λ j. refl })
    ]
    | inr (PaneEntry.dead r, k) ↦ elim (Option-cases (a.spawns id)) [
      | inl x ↦ rw (start_pane_inner, k, x) (none_touched e)
      | inr (new, x) ↦
          rw (start_pane_inner, k, x)
            (record {
              same_sessions = refl;
              same_index = refl;
              same_panes = λ j. ground (arith, get-insert e.panes id j (live new.0), k);
            })
    ]
  ]

  pub start_each-Starts :
      (a : Answers) (e : Engine sys) (fallback : RestartPolicy sys.f64.F) (ids : List ℕ)
      → Starts e (start_each a e fallback ids).0
  unfolding start_each
  start_each-Starts a e fallback [] = none_touched e
  start_each-Starts a e fallback (id ∷ ids) =
      let e1 = (start_pane_inner a e id fallback).0 in
      let first = start_pane_inner-Starts a e id fallback in
      let rest = start_each-Starts a e1 fallback ids in
      record {
        same_sessions = rest.same_sessions ∙ first.same_sessions;
        same_index = rest.same_index ∙ first.same_index;
        same_panes = λ j. rest.same_panes j ∙ first.same_panes j;
      }
