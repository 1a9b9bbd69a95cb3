-- ===== src/Engine/Closing.antt =====
-- crates/tymux-core/src/engine.rs: `close_pane` keeps the index in agreement with the sessions.
use tymux.Base.{
  ℕ, ◌≡◌, ◌≢◌, refl, inl, inr, Bool, Option, none, some, [], ◌∷◌, ◌++◌, arith, ◌==◌, if◌then◌else◌,
  Option-cases, Result, ok, err, subst,
}
use tymux.Base.Maps.{get, get-remove}
use tymux.Layout.{LayoutNode, contains, leaves, RemoveOutcome, collapsed, window_empty}
use tymux.Layout
use tymux.Layout.Leaves.{IsWellFormed}
use tymux.Persistence.Sessions.{SessionState}
use tymux.Supervision.{pane_not_found}
use tymux.Engine.{
  Platform, ty, notified, Engine, drop_panes, find_window, remove_pane, remove_window,
  window_for_pane, session_for_window, window_and_session_for_pane, all_leaves,
}
use tymux.Engine.Operations.{Error, Windows}
use tymux.Engine.Removals.{
  ClosePaneOutcome, notice, first_or, put_back, closed_window, next_active, store_session,
  session_end, unindex, left_over, close_in, close_pane,
}
use tymux.Engine.Windows.{
  IsDistinct, Surrounds, take_window-cases, find_window-taken, taken-IsDistinct,
  find_window-replaced, replaced-IsDistinct,
}
use tymux.Engine.Indexing.{
  Window, Agrees, IsIndexed, IsSound, window_at, write-Agrees, remove-Agrees, emit-IsIndexed,
}
use tymux.Engine.Remainders.{
  outcome_cases, contains-collapsed, collapsed-IsWellFormed, contains-window_empty,
}
use tymux.Engine.Storing.{drop_panes-Drops, store_session-Stores}

module _ (sys : Platform) where
  open sys use {Text}

  left_over-nil :
      (session : SessionState (ty sys)) (ws : Windows sys)
      → left_over sys (session_end sys session ws) ws ≡ []
  unfolding all_leaves
  left_over-nil session [] = refl
  left_over-nil session (w ∷ ws) = refl

  first_or-found :
      (id : ℕ) (ws : Windows sys) → ws ≢ [] → find_window sys (first_or sys id ws) ws ≢ none
  first_or-found id [] h = absurd (h refl)
  first_or-found id (w ∷ ws) h = ground arith

  notice-index :
      (e : Engine sys) (x : Option (ℕ × Text)) (id : ℕ)
      → (notice sys e x id).window_index ≡ e.window_index
  notice-index e none id = refl
  notice-index e (some x) id = refl

  notice-IsIndexed :
      (e : Engine sys) (x : Option (ℕ × Text)) (id : ℕ)
      → IsIndexed sys e
      → IsIndexed sys (notice sys e x id)
  notice-IsIndexed e none id h = emit-IsIndexed sys e (notified id) h
  notice-IsIndexed e (some x) id h = h

  -- A window is the one that held the pane, and stands with its id between the others.
  module _ (e : Engine sys) (p0 w0 s0 : ℕ) (session : SessionState (ty sys)) (before : Windows sys)
      (w : Window sys) (after : Windows sys) (h : IsIndexed sys e)
      (pw : get e.window_index.pane_window p0 ≡ some w0)
      (ws : get e.window_index.window_session w0 ≡ some s0)
      (at_s : get e.sessions s0 ≡ some session) (at_w : find_window sys w0 session.windows ≡ some w)
      (same : w.id ≡ w0) (around : Surrounds sys session.windows before w after) where
    abbrev out : RemoveOutcome sys.f32.F
    out = Layout.remove w.layout p0

    abbrev windows_left : Windows sys
    windows_left = before ++ put_back sys w out after

    abbrev session_left : SessionState (ty sys)
    session_left = record session {
      windows = windows_left;
      active_window_id =
          next_active sys (closed_window sys w out) session.active_window_id windows_left;
    }

    wf : IsWellFormed w.layout
    wf = h.agrees.well_formed s0 w0 w (ground (arith, at_s, at_w))

    distinct : IsDistinct sys (before ++ w ∷ after)
    distinct = subst (IsDistinct sys) around.whole (h.sound s0 session at_s).0

    left_found :
        (j : ℕ)
        → find_window sys j windows_left ≡ (
            if w0 == j
            then find_window sys w0 (put_back sys w out [])
            else find_window sys j session.windows)
    left_found j = elim (outcome_cases out) [
      | inl (n, k) ↦ ground (
        arith,
        k,
        same,
        around.whole,
        find_window-replaced sys before w (record w { layout = n }) after j around.first refl,
      )
      | inr k ↦ ground (
        arith,
        k,
        same,
        around.whole,
        find_window-taken sys before w after j around.first distinct,
      )
    ]

    left-IsSound : windows_left ≢ [] → IsSound sys session_left
    left-IsSound nonempty = elim (outcome_cases out) [
      | inl (n, k) ↦
          let d =
            replaced-IsDistinct sys before w (record w { layout = n }) after around.first refl
              distinct in
          (
            rw k d,
            ground
                (arith, k, left_found session.active_window_id, (h.sound s0 session at_s).1, same),
          )
      | inr k ↦ (
        rw k (taken-IsDistinct sys before w after around.first distinct),
        ground (arith, k, first_or-found session.active_window_id windows_left nonempty),
      )
    ]

    pw_left :
        (j : ℕ)
        → get (unindex sys e.window_index p0 (closed_window sys w out)).pane_window j
          ≡ (if p0 == j then none else get e.window_index.pane_window j)
    unfolding remove_pane remove_window
    pw_left j = elim (outcome_cases out) [
      | inl (n, k) ↦ rw k (get-remove e.window_index.pane_window p0 j)
      | inr k ↦ rw k (get-remove e.window_index.pane_window p0 j)
    ]

    ws_left :
        (j : ℕ)
        → get (unindex sys e.window_index p0 (closed_window sys w out)).window_session j ≡ (
            if w0 == j
            then elim out [ collapsed n ↦ some s0 | window_empty ↦ none ]
            else get e.window_index.window_session j)
    unfolding remove_pane remove_window
    ws_left j = elim (outcome_cases out) [
      | inl (n, k) ↦ ground (arith, k, ws)
      | inr k ↦ rw k (ground (arith, same, get-remove e.window_index.window_session w.id j))
    ]

    left-Agrees :
        {at' : ℕ → ℕ → Option (Window sys)}
        → ((s j : ℕ)
            → at' s j
              ≡ (if s0 == s then find_window sys j windows_left else window_at sys e.sessions s j))
        → Agrees sys at'
            (get (unindex sys e.window_index p0 (closed_window sys w out)).pane_window)
            (get (unindex sys e.window_index p0 (closed_window sys w out)).window_session)
    left-Agrees at_eq =
        let a = h.agrees in
        let held = λ (p : ℕ). a.pane_held s0 w0 p in
        let here = λ (p : ℕ). a.pane_indexed s0 w0 p in
        elim (outcome_cases out) [
          | inl (n, k) ↦
              let left = λ (p : ℕ). contains-collapsed w.layout n p0 p wf k in
              write-Agrees sys s0 w0 (record w { layout = n }) a
                (λ s j. ground (arith, at_eq s j, left_found j, k, at_s))
                (λ j. ground (arith, ws_left j, k)) (λ s x. ground (arith, x, ws))
                (λ p x. ground (arith, x, left p, pw_left p, here p, at_s, at_w))
                (λ p x. ground (arith, x, left p, pw_left p, held p, at_s, at_w, ws))
                (λ p x y. ground (arith, x, y, pw_left p, pw))
                (λ p x y. ground (arith, x, y, left p, here p, at_s, at_w))
                (λ p j x y. ground (arith, x, y, pw_left p))
                (collapsed-IsWellFormed w.layout n p0 wf k)
          | inr k ↦
              let only = λ (p : ℕ). contains-window_empty w.layout p0 p wf k in
              remove-Agrees sys (λ j. w0 == j) a
                (λ s j. ground (arith, at_eq s j, left_found j, k, at_s, a.window_indexed s w0, ws))
                (λ j. ground (arith, ws_left j, k))
                (λ p j x y. ground (arith, x, y, pw_left p, only p, held p, at_s, at_w, ws))
                (λ p j x y. ground (arith, x, y, pw_left p, pw))
                (λ p x. ground (arith, x, pw_left p))
        ]

    left-IsIndexed :
        (is_exited : ℕ → Bool)
        → IsIndexed sys (close_in sys is_exited e p0 s0 session before w after).0
    unfolding close_in
    left-IsIndexed is_exited =
        let st =
          store_session-Stores sys e s0 session_left windows_left refl h.sound left-IsSound in
        let e1 = store_session sys e s0 session_left windows_left in
        let e2 : Engine sys = record e1 {
          window_index = unindex sys e1.window_index p0 (closed_window sys w out);
        } in
        let ids = p0 ∷ left_over sys (session_end sys session windows_left) windows_left in
        let d = drop_panes-Drops sys is_exited e2 ids in
        let kept : IsIndexed sys (drop_panes sys is_exited e2 ids) = record {
          agrees = rw (d.same_sessions, d.same_index, st.stored_index) (left-Agrees st.stored);
          known = λ p. ground (
            arith,
            d.panes_left p,
            d.same_index,
            st.stored_index,
            st.stored_panes,
            left_over-nil session windows_left,
            pw_left p,
            h.known p,
          );
          sound = rw d.same_sessions st.stored_sound;
        } in
        notice-IsIndexed _ _ w.id kept

    left_panes :
        (is_exited : ℕ → Bool) (j : ℕ)
        → get (close_in sys is_exited e p0 s0 session before w after).0.window_index.pane_window j
          ≡ (if p0 == j then none else get e.window_index.pane_window j)
    unfolding close_in
    left_panes is_exited j =
        let st =
          store_session-Stores sys e s0 session_left windows_left refl h.sound left-IsSound in
        let e1 = store_session sys e s0 session_left windows_left in
        let e2 : Engine sys = record e1 {
          window_index = unindex sys e1.window_index p0 (closed_window sys w out);
        } in
        let ids = p0 ∷ left_over sys (session_end sys session windows_left) windows_left in
        let d = drop_panes-Drops sys is_exited e2 ids in
        rw
          (
            notice-index (drop_panes sys is_exited e2 ids) (closed_window sys w out) w.id,
            d.same_index,
            st.stored_index,
          )
          (pw_left j)

  -- How `close_pane` ends: the pane is not indexed and nothing changes, or it alone leaves the index.
  pub data CloseOutcome (e : Engine sys) (pane_id : ℕ)
      : Engine sys × Result (ClosePaneOutcome sys) (Error sys) → Type 0 where
    unknown :
        get e.window_index.pane_window pane_id ≡ none
        → CloseOutcome e pane_id (e, err (pane_not_found pane_id))
    closed :
        (e' : Engine sys) (o : ClosePaneOutcome sys)
        → IsIndexed sys e'
        → ((j : ℕ)
            → get e'.window_index.pane_window j
              ≡ (if pane_id == j then none else get e.window_index.pane_window j))
        → CloseOutcome e pane_id (e', ok o)

  close_found :
      (is_exited : ℕ → Bool) (e : Engine sys) (pane_id w0 s0 : ℕ) (session : SessionState (ty sys))
      → IsIndexed sys e
      → get e.window_index.pane_window pane_id ≡ some w0
      → get e.window_index.window_session w0 ≡ some s0
      → get e.sessions s0 ≡ some session
      → CloseOutcome e pane_id (close_pane sys is_exited e pane_id)
  unfolding close_pane window_and_session_for_pane window_for_pane session_for_window
  close_found is_exited e pane_id w0 s0 session h pw ws at_s =
      elim (take_window-cases sys w0 session.windows) [
        | inl (k, l) ↦ absurd (h.agrees.window_there s0 w0 ws (ground (arith, at_s, l)))
        | inr (before, w, after, k, l, same, around) ↦
            rw (close_pane, window_and_session_for_pane, pw, ws, at_s, k)
              (closed _ _
                (left-IsIndexed e pane_id w0 s0 session before w after h pw ws at_s l same around
                  is_exited)
                (left_panes e pane_id w0 s0 session before w after h pw ws at_s l same around
                  is_exited))
      ]

  -- `close_pane` refuses exactly the panes that are not indexed, and then changes nothing. Else that
  -- pane and no other leaves the index and the map of panes, a window or session that it empties goes
  -- with it, and the index agrees with the sessions as before.
  pub close_pane-CloseOutcome :
      (is_exited : ℕ → Bool) (e : Engine sys) (pane_id : ℕ)
      → IsIndexed sys e
      → CloseOutcome e pane_id (close_pane sys is_exited e pane_id)
  unfolding close_pane window_and_session_for_pane window_for_pane session_for_window
  close_pane-CloseOutcome is_exited e pane_id h =
      elim (Option-cases (get e.window_index.pane_window pane_id)) [
        | inl k ↦ rw (close_pane, window_and_session_for_pane, k) (unknown k)
        | inr (w0, pw) ↦ elim (Option-cases (get e.window_index.window_session w0)) [
          | inl k ↦ absurd (h.agrees.pane_there w0 pane_id pw k)
          | inr (s0, ws) ↦ elim (Option-cases (get e.sessions s0)) [
            | inl k ↦ absurd (h.agrees.window_there s0 w0 ws (ground (arith, k)))
            | inr (session, at_s) ↦ close_found is_exited e pane_id w0 s0 session h pw ws at_s
          ]
        ]
      ]
