-- ===== src/Engine/Revived.antt =====
-- crates/tymux-core/src/engine.rs: how `revive_session` ends, and what a revived session's panes are.
use tymux.Base.{
  ℕ, ◌≡◌, ◌∙◌, refl, ap, sym, subst, inl, inr, true, false, ◌&&◌, none, some, List, [], ◌∷◌, ltb,
  Result, ok, err, arith, Bool-cases, Option-cases,
}
use tymux.Base.Maps.{get}
use tymux.Layout.Leaves.{count}
use tymux.Persistence.Sessions.{SessionState}
use tymux.Supervision.{session_not_found, revive_launch}
use tymux.Engine.{Platform, ty, Engine, all_leaves, persist_session}
use tymux.Engine.Snapshots.{state_of}
use tymux.Engine.Operations.{Error}
use tymux.Engine.Indexing.{IsIndexed, persist_session-IsIndexed}
use tymux.Engine.Started.{
  Becomes, Becomes-same, IsOnce, total_up, start_each-Becomes, start_each-total_up,
}
use tymux.Engine.Reviving.{
  ReviveOutcome, revived, already_live, is_held, Answers, any_runs, held_ids, other_ids, held_error,
  start_each, start_each-Starts, revive_panes, revive_session,
}
use tymux.Engine.Wanted.{
  is_wanted, is_blocked, wanted_up, all_leaves-IsOnce, count-other_ids, total_up-other_ids,
  unresolved-cases, persist_session-parts, Starts-IsIndexed,
}

module _ (sys : Platform) where
  module _ (a : Answers sys) (e : Engine sys) (session : SessionState (ty sys)) where
    -- What a revive that goes ahead does: each wanted pane, which can be launched, becomes what its start
    -- makes of it, every other pane and its supervision are as before, and those that start are counted.
    pub record Revived (session_id : ℕ) (e' : Engine sys) (n : ℕ) : Type 0 where
      pub found : get e.sessions session_id ≡ some session
      pub none_ran : any_runs sys a e (all_leaves sys session.windows) ≡ false
      pub launchable :
          (p : ℕ)
          → (is_wanted sys e (all_leaves sys session.windows) p && is_blocked sys a e p) ≡ false
      pub indexed : IsIndexed sys e'
      pub same_sessions : e'.sessions ≡ e.sessions
      pub became :
          (p : ℕ)
          → Becomes sys a session.default_restart_policy e e' p
              (is_wanted sys e (all_leaves sys session.windows) p)
      pub counted : n ≡ wanted_up sys a e session (all_leaves sys session.windows)

  -- How `revive_session` ends.
  pub data ReviveEnd (a : Answers sys) (e : Engine sys) (session_id : ℕ)
      : Engine sys × Result ReviveOutcome (Error sys) → Type 0 where
    unknown :
        get e.sessions session_id ≡ none
        → ReviveEnd a e session_id (e, err (session_not_found session_id))
    ran :
        (session : SessionState (ty sys))
        → get e.sessions session_id ≡ some session
        → any_runs sys a e (all_leaves sys session.windows) ≡ true
        → ReviveEnd a e session_id (e, ok already_live)
    all_held :
        (session : SessionState (ty sys)) (id : ℕ) (rest : List ℕ)
        → get e.sessions session_id ≡ some session
        → all_leaves sys session.windows ≡ id ∷ rest
        → ((p : ℕ) → is_wanted sys e (id ∷ rest) p ≡ false)
        → ReviveEnd a e session_id (e, err (held_error sys (state_of sys e.supervision id) id))
    unlaunchable :
        (session : SessionState (ty sys)) (id : ℕ)
        → get e.sessions session_id ≡ some session
        → is_wanted sys e (all_leaves sys session.windows) id ≡ true
        → is_blocked sys a e id ≡ true
        → ReviveEnd a e session_id (e, err (revive_launch id))
    restored :
        (session : SessionState (ty sys)) (e' : Engine sys) (n : ℕ)
        → Revived a e session session_id e' n
        → ReviveEnd a e session_id (e', ok (revived n))

  module _ (a : Answers sys) (e : Engine sys) (session_id : ℕ) (session : SessionState (ty sys))
      (h : IsIndexed sys e) (found : get e.sessions session_id ≡ some session)
      (none_ran : any_runs sys a e (all_leaves sys session.windows) ≡ false) where
    abbrev all : List ℕ
    all = all_leaves sys session.windows

    wanted-count : (p : ℕ) → ltb 0 (count p (other_ids sys e all)) ≡ is_wanted sys e all p
    wanted-count p = elim (Bool-cases (is_held (state_of sys e.supervision p))) [
      | inl k ↦ ground (arith, k, count-other_ids sys e all p)
      | inr k ↦ ground (arith, k, count-other_ids sys e all p)
    ]

    once : IsOnce sys a session.default_restart_policy (other_ids sys e all)
    once p =
        let leaves_once =
          all_leaves-IsOnce sys session.windows (get e.window_index.pane_window)
            (h.sound session_id session found).0
            (λ v q k. h.agrees.pane_indexed session_id v q (ground (arith, found, k)))
            (λ v w k. h.agrees.well_formed session_id v w (ground (arith, found, k))) p in
        ground (arith, leaves_once, count-other_ids sys e all p)

    revive_panes-ReviveEnd :
        (ids : List ℕ)
        → ids ≡ other_ids sys e all
        → ReviveEnd a e session_id
            (revive_panes sys a e session_id session.default_restart_policy ids)
    unfolding revive_panes
    revive_panes-ReviveEnd ids same = elim (unresolved-cases sys a e ids) [
      | inl (id, k, m, b) ↦
          rw (revive_panes, k)
            (unlaunchable session id found
              (sym (wanted-count id) ∙ ap (λ l. ltb 0 (count id l)) (sym same) ∙ m) b)
      | inr (k, free) ↦
          let policy = session.default_restart_policy in
          let started = start_each sys a e policy ids in
          let starts = start_each-Starts sys a e policy ids in
          let (panes, sessions, supervision) = persist_session-parts sys started.0 session_id in
          let ids_once : IsOnce sys a policy ids = rw same once in
          rw (revive_panes, k)
            (restored session _ _ (record {
              found = found;
              none_ran = none_ran;
              launchable = λ p. rw (← wanted-count p, ← same) (free p);
              indexed =
                  persist_session-IsIndexed sys started.0 session_id
                    (Starts-IsIndexed sys e started.0 starts h);
              same_sessions = sessions ∙ starts.same_sessions;
              became = λ p.
                  subst (Becomes sys a policy e (persist_session sys started.0 session_id) p)
                    (ap (λ l. ltb 0 (count p l)) same ∙ wanted-count p)
                    (Becomes-same sys a policy e started.0
                      (persist_session sys started.0 session_id) p (ltb 0 (count p ids)) panes
                      supervision (start_each-Becomes sys a policy e ids ids_once p));
              counted =
                  start_each-total_up sys a policy e ids ids_once
                  ∙ ap (total_up sys a policy e) same
                  ∙ total_up-other_ids sys a e session all;
            }))
    ]

    none_wanted : other_ids sys e all ≡ [] → (p : ℕ) → is_wanted sys e all p ≡ false
    none_wanted k p = sym (wanted-count p) ∙ ap (λ l. ltb 0 (count p l)) k

  -- With no other pane, the held ones are all, and the first of them is the first of all.
  held-all : (e : Engine sys) (ids : List ℕ) → other_ids sys e ids ≡ [] → held_ids sys e ids ≡ ids
  held-all e [] h = refl
  held-all e (id ∷ ids) h = elim (Bool-cases (is_held (state_of sys e.supervision id))) [
    | inl k ↦ rw k (ap (id ∷◌) (held-all e ids (ground (arith, k, h))))
    | inr k ↦ absurd (ground (arith, k, h))
  ]

  -- Reviving a session of an engine in which index, panes and sessions agree. It is refused, and changes
  -- nothing, if the session is unknown, if it has panes and all are held stopped or failed (the error
  -- names the first), or if a pane that is wanted, because it is not held, has a launch that cannot be
  -- resolved (the error names one). It changes nothing if a pane of the session runs. Else no wanted pane
  -- is blocked, and each becomes what its start makes of it: a pane on file whose process is spawned is
  -- live and supervised, a pane in memory is started by its supervisor. Every other pane, those held among
  -- them, keeps its entry and its supervision, the sessions are as before, index, panes and sessions
  -- agree, and the number returned is that of the panes that start.
  pub revive_session-ReviveEnd :
      (a : Answers sys) (e : Engine sys) (session_id : ℕ)
      → IsIndexed sys e
      → ReviveEnd a e session_id (revive_session sys a e session_id)
  unfolding revive_session
  revive_session-ReviveEnd a e session_id h = elim (Option-cases (get e.sessions session_id)) [
    | inl k ↦ rw (revive_session, k) (unknown k)
    | inr (session, k) ↦ elim (Bool-cases (any_runs sys a e (all_leaves sys session.windows))) [
      | inl r ↦ rw (revive_session, k, r) (ran session k r)
      | inr r ↦ rw (revive_session, k, r) (by_others session k r _ refl _ refl)
    ]
  ]
    where
      by_others :
          (session : SessionState (ty sys))
          → get e.sessions session_id ≡ some session
          → any_runs sys a e (all_leaves sys session.windows) ≡ false
          → (others : List ℕ) → others ≡ other_ids sys e (all_leaves sys session.windows)
          → (held : List ℕ) → held ≡ held_ids sys e (all_leaves sys session.windows)
          → ReviveEnd a e session_id (elim others [
            | [] ↦ elim held [
              | [] ↦ revive_panes sys a e session_id session.default_restart_policy []
              | id ∷ rest ↦ (e, err (held_error sys (state_of sys e.supervision id) id))
            ]
            | id ∷ rest ↦ revive_panes sys a e session_id session.default_restart_policy (id ∷ rest)
          ])
      by_others session k r [] o [] l = revive_panes-ReviveEnd a e session_id session h k r [] o
      by_others session k r [] o (id ∷ rest) l =
          let leaves = l ∙ held-all e (all_leaves sys session.windows) (sym o) in
          all_held session id rest k (sym leaves) (λ p.
            ap (λ ids. is_wanted sys e ids p) leaves
            ∙ none_wanted a e session_id session h k r (sym o) p)
      by_others session k r (id ∷ rest) o held l =
          revive_panes-ReviveEnd a e session_id session h k r (id ∷ rest) o
