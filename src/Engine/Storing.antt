-- ===== src/Engine/Storing.antt =====
-- crates/tymux-core/src/engine.rs: the steps that closing a pane and killing a session share: panes are
-- dropped, and a session is written or removed.
use tymux.Base.{
  ℕ, ◌≡◌, ◌≢◌, refl, inl, inr, Bool, none, some, List, [], ◌∷◌, arith, ltb, ◌==◌, if◌then◌else◌,
  Option-cases, Bool-cases, ◌∙◌,
}
use tymux.Base.Maps.{get, insert, get-remove}
use tymux.Layout.Leaves.{count}
use tymux.Persistence.{PaneEntry}
use tymux.Persistence.Sessions.{SessionState}
use tymux.Engine.{
  Platform, ty, Engine, find_window, drop_pane, drop_panes, persist_session,
  snapshot_persisted_record,
}
use tymux.Engine.Operations.{Windows}
use tymux.Engine.Removals.{store_session}
use tymux.Engine.Indexing.{
  IsSound, window_at, window_at-insert, window_at-remove, insert-IsSound, remove-IsSound,
}

module _ (sys : Platform) where
  -- What the closing operations do to the panes leaves the sessions and the index alone.
  pub record Drops (e e' : Engine sys) (dropped : ℕ → Bool) : Type 0 where
    pub same_sessions : e'.sessions ≡ e.sessions
    pub same_index : e'.window_index ≡ e.window_index
    pub panes_left : (j : ℕ) → get e'.panes j ≡ (if dropped j then none else get e.panes j)

  drop_pane-Drops :
      (is_exited : ℕ → Bool) (e : Engine sys) (id : ℕ)
      → Drops e (drop_pane sys is_exited e id) (λ j. id == j)
  unfolding drop_pane
  drop_pane-Drops is_exited e id = elim (Option-cases (get e.panes id)) [
    | inl k ↦
        rw (drop_pane, k)
          (record { same_sessions = refl; same_index = refl; panes_left = get-remove e.panes id })
    | inr (PaneEntry.dead r, k) ↦
        rw (drop_pane, k)
          (record { same_sessions = refl; same_index = refl; panes_left = get-remove e.panes id })
    | inr (PaneEntry.live p, k) ↦ elim (Bool-cases (is_exited id)) [
      | inl x ↦
          rw (drop_pane, k, x)
            (record { same_sessions = refl; same_index = refl; panes_left = get-remove e.panes id })
      | inr x ↦
          rw (drop_pane, k, x)
            (record { same_sessions = refl; same_index = refl; panes_left = get-remove e.panes id })
    ]
  ]

  pub drop_panes-Drops :
      (is_exited : ℕ → Bool) (e : Engine sys) (ids : List ℕ)
      → Drops e (drop_panes sys is_exited e ids) (λ j. ltb 0 (count j ids))
  unfolding drop_panes
  drop_panes-Drops is_exited e [] = record {
    same_sessions = refl;
    same_index = refl;
    panes_left = λ j. refl;
  }
  drop_panes-Drops is_exited e (id ∷ ids) =
      let first = drop_pane-Drops is_exited e id in
      let rest = drop_panes-Drops is_exited (drop_pane sys is_exited e id) ids in
      record {
        same_sessions = rest.same_sessions ∙ first.same_sessions;
        same_index = rest.same_index ∙ first.same_index;
        panes_left = λ j. ground (arith, rest.panes_left j, first.panes_left j);
      }

  -- The write of a session to the map and to disk.
  pub record Stores (e e' : Engine sys) (id : ℕ) (windows : Windows sys) : Type 0 where
    pub stored :
        (s w : ℕ)
        → window_at sys e'.sessions s w
          ≡ (if id == s then find_window sys w windows else window_at sys e.sessions s w)
    pub stored_sound :
        (s : ℕ) (x : SessionState (ty sys)) → get e'.sessions s ≡ some x → IsSound sys x
    pub stored_index : e'.window_index ≡ e.window_index
    pub stored_panes : e'.panes ≡ e.panes

  pub persist_session-fields :
      (e : Engine sys) (id : ℕ)
      → ((persist_session sys e id).sessions ≡ e.sessions)
        × ((persist_session sys e id).window_index ≡ e.window_index)
        × ((persist_session sys e id).panes ≡ e.panes)
  unfolding persist_session
  persist_session-fields e id = elim (Option-cases (snapshot_persisted_record sys e id)) [
    | inl k ↦ rw (persist_session, k) (refl, refl, refl)
    | inr (r, k) ↦ rw (persist_session, k) (refl, refl, refl)
  ]

  pub store_session-Stores :
      (e : Engine sys) (id : ℕ) (session : SessionState (ty sys)) (windows : Windows sys)
      → session.windows ≡ windows
      → ((s : ℕ) (x : SessionState (ty sys)) → get e.sessions s ≡ some x → IsSound sys x)
      → (windows ≢ [] → IsSound sys session)
      → Stores e (store_session sys e id session windows) id windows
  store_session-Stores e id session [] same sound new = record {
    stored = window_at-remove sys e.sessions id;
    stored_sound = remove-IsSound sys e.sessions id sound;
    stored_index = refl;
    stored_panes = refl;
  }
  store_session-Stores e id session (w ∷ ws) same sound new =
      let (sessions, index, panes) =
        persist_session-fields (record e { sessions = insert e.sessions id session }) id in
      record {
        stored =
            λ s j. ground (arith, sessions, same, window_at-insert sys e.sessions id session s j);
        stored_sound = rw sessions (insert-IsSound sys e.sessions id session sound (new (λ x. cc)));
        stored_index = index;
        stored_panes = panes;
      }
