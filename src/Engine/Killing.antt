-- ===== src/Engine/Killing.antt =====
-- crates/tymux-core/src/engine.rs: what `kill_session` takes out of the engine.
use tymux.Base.{
  ℕ, ◌≡◌, ◌<◌, ◌∙◌, ap, refl, inl, inr, ◌⊎◌, Bool, true, none, List, [], ◌∷◌, arith, ltb,
  if◌then◌else◌, ◌==◌, Option-cases, Bool-cases, some, Result, ok, err,
}
use tymux.Base.Maps.{get, remove, get-remove}
use tymux.Layout.{contains, leaves}
use tymux.Layout.Leaves.{count, count-append, contains-count}
use tymux.Engine.{
  Platform, ty, Engine, WindowIndex, window_for_pane, session_for_window, find_window, remove_pane,
  remove_window, all_leaves, deleted, drop_panes,
}
use tymux.Engine.Operations.{Windows}
use tymux.Engine.Removals.{remove_windows, remove_indexed, kill_session}
use tymux.Engine.Windows.{IsDistinct}
use tymux.Engine.Indexing.{
  IsIndexed, window_at-remove, remove-Agrees, remove-IsSound, emit-IsIndexed, holds, is_some,
}
use tymux.Engine.Storing.{drop_panes-Drops}
use tymux.Engine.Signals.{IsSignalled, kills-snoc, drop_panes-IsSignalled}
use tymux.Persistence.Sessions.{SessionState}

module _ (sys : Platform) where
  remove_windows-fields :
      (index : WindowIndex) (ws : Windows sys) (j : ℕ)
      → ((remove_windows sys index ws).pane_window ≡ index.pane_window)
        × (get (remove_windows sys index ws).window_session j
            ≡ (if is_some sys (find_window sys j ws) then none else get index.window_session j))
  unfolding remove_window
  remove_windows-fields index [] j = (refl, refl)
  remove_windows-fields index (w ∷ ws) j =
      let rest = remove_windows-fields (remove_window index w.id) ws j in
      (rest.0, ground (arith, rest.1, get-remove index.window_session w.id j))

  remove_indexed-fields :
      (index : WindowIndex) (ids : List ℕ) (j : ℕ)
      → ((remove_indexed sys index ids).window_session ≡ index.window_session)
        × (get (remove_indexed sys index ids).pane_window j
            ≡ (if ltb 0 (count j ids) then none else get index.pane_window j))
  unfolding remove_pane
  remove_indexed-fields index [] j = (refl, refl)
  remove_indexed-fields index (id ∷ ids) j =
      let rest = remove_indexed-fields (remove_pane index id) ids j in
      (rest.0, ground (arith, rest.1, get-remove index.pane_window id j))

  -- A leaf of a window of the session is among all leaves, and the other way round.
  all_leaves-found :
      (ws : Windows sys) (v p : ℕ)
      → holds sys (find_window sys v ws) p ≡ true
      → 0 < count p (all_leaves sys ws)
  unfolding all_leaves
  all_leaves-found [] v p h = ground arith
  all_leaves-found (w ∷ ws) v p h = ground (
    arith,
    count-append p (leaves w.layout) (all_leaves sys ws),
    contains-count w.layout p,
    all_leaves-found ws v p,
  )

  pub all_leaves-cases :
      (ws : Windows sys) (p : ℕ)
      → IsDistinct sys ws
      → (count p (all_leaves sys ws) ≡ 0) ⊎ ((v : ℕ) × (holds sys (find_window sys v ws) p ≡ true))
  unfolding all_leaves
  all_leaves-cases [] p d = inl refl
  all_leaves-cases (w ∷ ws) p d = elim (Bool-cases (contains w.layout p)) [
    | inl k ↦ inr (w.id, ground (arith, k))
    | inr k ↦ elim (all_leaves-cases ws p d.1) [
      | inl l ↦ inl (
          ground (
            arith,
            l,
            k,
            count-append p (leaves w.layout) (all_leaves sys ws),
            contains-count w.layout p,
          ))
      | inr (v, l) ↦ inr (v, ground (arith, l, d.0))
    ]
  ]

  -- The id of a pane of the session, and the id of a window of it.
  abbrev pub has_pane : SessionState (ty sys) → ℕ → Bool
  has_pane session p = ltb 0 (count p (all_leaves sys session.windows))

  abbrev pub has_window : SessionState (ty sys) → ℕ → Bool
  has_window session w = is_some sys (find_window sys w session.windows)

  -- What a session that is killed leaves behind.
  pub record Removed (is_exited : ℕ → Bool) (e : Engine sys) (id : ℕ)
      (session : SessionState (ty sys)) (e' : Engine sys) : Type 0 where
    pub found : get e.sessions id ≡ some session
    pub indexed : IsIndexed sys e'
    pub sessions_left : (s : ℕ) → get e'.sessions s ≡ (if id == s then none else get e.sessions s)
    pub windows_left :
        (w : ℕ)
        → session_for_window e'.window_index w
          ≡ (if has_window session w then none else session_for_window e.window_index w)
    pub panes_left :
        (p : ℕ)
        → window_for_pane e'.window_index p
          ≡ (if has_pane session p then none else window_for_pane e.window_index p)
    pub signalled : (p : ℕ) → IsSignalled sys is_exited e e' p (has_pane session p)

  -- How `kill_session` ends.
  pub data KillOutcome (is_exited : ℕ → Bool) (e : Engine sys) (id : ℕ)
      : Engine sys × Result (Unit {0}) (Unit {0}) → Type 0 where
    unknown : get e.sessions id ≡ none → KillOutcome is_exited e id (e, err tt)
    removed :
        (session : SessionState (ty sys)) (e' : Engine sys)
        → Removed is_exited e id session e'
        → KillOutcome is_exited e id (e', ok tt)

  -- Killing a session is refused exactly if its id is unknown, and then changes nothing. Else that
  -- session, its windows and exactly their panes leave the maps, the index and the supervision, each
  -- pane's child that has not exited is killed once and no other child is, every other session, window
  -- and pane is as before, and index, panes and sessions agree again.
  pub kill_session-KillOutcome :
      (is_exited : ℕ → Bool) (e : Engine sys) (id : ℕ)
      → IsIndexed sys e
      → KillOutcome is_exited e id (kill_session sys is_exited e id)
  unfolding kill_session window_for_pane session_for_window
  kill_session-KillOutcome is_exited e id h = elim (Option-cases (get e.sessions id)) [
    | inl k ↦ rw (kill_session, k) (unknown k)
    | inr (session, k) ↦
        let ws = session.windows in
        let ids = all_leaves sys ws in
        let index1 = remove_windows sys e.window_index ws in
        let index2 = remove_indexed sys index1 ids in
        let e1 : Engine sys = record e { sessions = remove e.sessions id; window_index = index2 } in
        let d = drop_panes-Drops sys is_exited e1 ids in
        let a = h.agrees in
        let gone = λ (j : ℕ). is_some sys (find_window sys j ws) in
        let pw = λ (p : ℕ). remove_indexed-fields index1 ids p in
        let wi = λ (j : ℕ). remove_windows-fields e.window_index ws j in
        let kept : IsIndexed sys (drop_panes sys is_exited e1 ids) = record {
          agrees =
              rw (d.same_sessions, d.same_index)
                (remove-Agrees sys gone a
                  (λ s j. ground (
                    arith,
                    k,
                    window_at-remove sys e.sessions id s j,
                    a.window_indexed id j,
                    a.window_indexed s j,
                  ))
                  (λ j. ground (arith, (wi j).1, (pw j).0))
                  (λ p j x y. ground (
                    arith,
                    x,
                    y,
                    k,
                    (pw p).1,
                    (wi j).0,
                    a.pane_held id j p,
                    a.window_indexed id j,
                    all_leaves-found ws j p,
                  ))
                  (λ p j x y. elim (all_leaves-cases ws p (h.sound id session k).0) [
                    | inl none_held ↦ ground (arith, x, none_held, (pw p).1, (wi p).0)
                    | inr (v, held) ↦ ground (arith, x, y, held, k, a.pane_indexed id v p)
                  ])
                  (λ p x. ground (arith, x, (pw p).1, (wi p).0)));
          known = λ p. ground (arith, d.panes_left p, d.same_index, (pw p).1, (wi p).0, h.known p);
          sound = rw d.same_sessions (remove-IsSound sys e.sessions id h.sound);
        } in
        rw (kill_session, k)
          (removed session _ (record {
            found = k;
            indexed = emit-IsIndexed sys _ (deleted id) kept;
            sessions_left = λ s. ground (arith, d.same_sessions, get-remove e.sessions id s);
            windows_left = λ w.
                ap (λ x. get x.window_session w) d.same_index
                ∙ ap (λ x. get x w) (remove_indexed-fields index1 ids w).0
                ∙ (wi w).1;
            panes_left = λ p.
                ap (λ x. get x.pane_window p) d.same_index ∙ ground (arith, (pw p).1, (wi p).0);
            signalled = λ p.
                let (kills, entry, pane) = drop_panes-IsSignalled sys is_exited e1 ids p in
                (
                  kills-snoc sys p (drop_panes sys is_exited e1 ids).effects (deleted id)
                      ∙ ground (arith, kills),
                  entry,
                  pane,
                );
          }))
  ]
