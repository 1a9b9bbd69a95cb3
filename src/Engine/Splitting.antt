-- ===== src/Engine/Splitting.antt =====
-- crates/tymux-core/src/engine.rs: how `split_pane` ends, also when other calls come in between.
use tymux.Base.{
  ℕ, ◌≡◌, ◌≢◌, inl, inr, Bool, Option, none, some, arith, Option-cases, Result, ok, err,
}
use tymux.Base.Maps.{get, insert}
use tymux.Layout.{LayoutNode, LayoutError, Orientation, leaves, split_node}
use tymux.Layout.Leaves.{count, insert_after}
use tymux.Layout.Geometry.{IsFloat32}
use tymux.Layout.Splitting.{split_node-cases}
use tymux.Persistence.Sessions.{SessionState}
use tymux.Engine.{
  Platform, ty, started, emit, Engine, Spawned, find_window, window_for_pane, session_for_window,
  window_and_session_for_pane,
}
use tymux.Engine.Operations.{Error, Snapshot, split_pane, after_split, layout_error}
use tymux.Engine.Indexing.{Window, IsIndexed, persist_session-IsIndexed, emit-IsIndexed}
use tymux.Engine.Storing.{persist_session-fields}
use tymux.Supervision.{pane_not_found}
use tymux.Engine.Filing.{Holds, Filed, filed, filed-Filed, split_session}

module _ (sys : Platform) where
  -- How `split_pane` ends, when other calls run before its snapshot: the pane is not indexed or its
  -- layout refuses the split, and only the process is left; or the new pane is filed, and the session is
  -- still there or the call panics.
  pub data SplitOutcome (late : Engine sys → Engine sys) (e : Engine sys) (pane_id : ℕ)
      (o : Orientation) (new : Spawned sys)
      : Option (Engine sys × Result (Snapshot sys) (Error sys)) → Type 0 where
    unknown :
        window_for_pane e.window_index pane_id ≡ none
        → SplitOutcome late e pane_id o new
            (some (emit sys e (started new.id), err (pane_not_found pane_id)))
    refused :
        (w : Window sys) (x : LayoutError)
        → Holds sys e pane_id w
        → split_node sys.f32 w.layout pane_id o new.id w.rows w.cols ≡ some (w.layout, err x)
        → SplitOutcome late e pane_id o new
            (some (emit sys e (started new.id), err (layout_error x)))
    joined :
        (s0 : ℕ) (e1 e' : Engine sys) (s : Snapshot sys)
        → Filed sys e pane_id o new s0 e1
        → get (late e1).sessions s0 ≢ none
        → IsIndexed sys e'
        → e'.sessions ≡ (late e1).sessions
        → e'.panes ≡ (late e1).panes
        → SplitOutcome late e pane_id o new (some (e', ok s))
    panicked :
        (s0 : ℕ) (e1 : Engine sys)
        → Filed sys e pane_id o new s0 e1
        → get (late e1).sessions s0 ≡ none
        → SplitOutcome late e pane_id o new none

  module _ (is_exited : ℕ → Bool) (e : Engine sys) (pane_id w0 s0 : ℕ)
      (session : SessionState (ty sys)) (w : Window sys) (layout : LayoutNode sys.f32.F)
      (new : Spawned sys) (h : IsIndexed sys e)
      (fresh : get e.window_index.pane_window new.id ≡ none)
      (at_session : get e.sessions s0 ≡ some session)
      (at_window : find_window sys w0 session.windows ≡ some w)
      (once : count pane_id (leaves w.layout) ≡ 1)
      (grown : leaves layout ≡ insert_after pane_id new.id (leaves w.layout)) where
    -- The end of the call, with the session there or not.
    after_split-SplitOutcome :
        (o : Orientation) (late : Engine sys → Engine sys) (now : ℕ) (unit : sys.f64.F)
        → ((x : Engine sys) → IsIndexed sys x → IsIndexed sys (late x))
        → Filed sys e pane_id o new s0 (
            filed sys is_exited e pane_id w0 s0 session w layout new h fresh at_session at_window
              once grown now unit)
        → let e0 = emit sys e (started new.id) in
          SplitOutcome late e pane_id o new (
            after_split sys is_exited
              (λ x. x)
              late
              (record e0 {
                sessions = insert e.sessions s0 (
                    split_session sys is_exited e pane_id w0 s0 session w layout new h fresh
                      at_session at_window once grown);
              })
              w0
              s0
              session.default_restart_policy
              new
              now
              unit)
    unfolding after_split
    after_split-SplitOutcome o late now unit keeps f =
        let e2 = late (
          filed sys is_exited e pane_id w0 s0 session w layout new h fresh at_session at_window once
            grown now unit) in
        let (sessions, index, panes) = persist_session-fields sys e2 s0 in
        elim (Option-cases (get e2.sessions s0)) [
          | inl k ↦ rw (after_split, k) (panicked s0 _ f k)
          | inr (there, k) ↦
              rw (after_split, k)
                (joined s0
                  (filed sys is_exited e pane_id w0 s0 session w layout new h fresh at_session
                    at_window once grown now unit)
                  _ _ f (λ n. cc)
                  (emit-IsIndexed sys _ _ (persist_session-IsIndexed sys e2 s0 (keeps _ f.indexed)))
                  sessions panes)
        ]

  module _ (laws : IsFloat32 sys.f32) (is_exited : ℕ → Bool) (late : Engine sys → Engine sys)
      (e : Engine sys) (pane_id : ℕ) (o : Orientation) (new : Spawned sys) (now : ℕ)
      (unit : sys.f64.F) (h : IsIndexed sys e)
      (fresh : get e.window_index.pane_window new.id ≡ none)
      (keeps : (x : Engine sys) → IsIndexed sys x → IsIndexed sys (late x)) where
    abbrev outcome : Option (Engine sys × Result (Snapshot sys) (Error sys))
    outcome = split_pane sys is_exited (λ x. x) late e pane_id o (some new) now unit

    split_in :
        (w0 s0 : ℕ) (session : SessionState (ty sys)) (w : Window sys)
        → get e.window_index.pane_window pane_id ≡ some w0
        → get e.window_index.window_session w0 ≡ some s0
        → get e.sessions s0 ≡ some session
        → find_window sys w0 session.windows ≡ some w
        → SplitOutcome late e pane_id o new outcome
    unfolding split_pane window_and_session_for_pane window_for_pane session_for_window
    split_in w0 s0 session w pw ws at_s at_w =
        let wf = h.agrees.well_formed s0 w0 w (ground (arith, at_s, at_w)) in
        elim (split_node-cases sys.f32 laws w.layout pane_id o new.id w.rows w.cols (wf pane_id)) [
          | inl (x, k) ↦
              rw (split_pane, window_and_session_for_pane, pw, ws, at_s, at_w, k)
                (refused w x (w0, s0, pw, ws, ground (arith, at_s, at_w)) k)
          | inr (layout, k, once, grown) ↦
              rw (split_pane, window_and_session_for_pane, pw, ws, at_s, at_w, k)
                (after_split-SplitOutcome is_exited e pane_id w0 s0 session w layout new h fresh
                  at_s at_w once grown o late now unit keeps
                  (filed-Filed sys is_exited e pane_id w0 s0 session w layout new h fresh at_s at_w
                    once grown o now unit k pw ws))
        ]

    -- `split_pane`, with a new id for the new pane and no other call between the split of the layout and
    -- the filing of the pane, while the calls that run before its snapshot keep index, panes and sessions
    -- in agreement. A pane that is not indexed, and a split that the layout refuses, is an error that
    -- changes nothing, but the process that was started stays. Else the layout of the pane's window is the
    -- split one and no other, the new pane is supervised, and it and nothing else joins that window;
    -- index, panes and sessions agree then and at the end, and the call returns exactly if the session has
    -- not been killed before the snapshot, and panics if it has.
    pub split_pane-SplitOutcome : SplitOutcome late e pane_id o new outcome
    unfolding split_pane window_and_session_for_pane window_for_pane session_for_window
    split_pane-SplitOutcome = elim (Option-cases (get e.window_index.pane_window pane_id)) [
      | inl k ↦ rw (split_pane, window_and_session_for_pane, k) (unknown k)
      | inr (w0, pw) ↦ elim (Option-cases (get e.window_index.window_session w0)) [
        | inl k ↦ absurd (h.agrees.pane_there w0 pane_id pw k)
        | inr (s0, ws) ↦ elim (Option-cases (get e.sessions s0)) [
          | inl k ↦ absurd (h.agrees.window_there s0 w0 ws (ground (arith, k)))
          | inr (session, at_s) ↦ elim (Option-cases (find_window sys w0 session.windows)) [
            | inl k ↦ absurd (h.agrees.window_there s0 w0 ws (ground (arith, at_s, k)))
            | inr (w, at_w) ↦ split_in w0 s0 session w pw ws at_s at_w
          ]
        ]
      ]
    ]
