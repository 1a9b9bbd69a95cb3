-- ===== src/Engine/Filing.antt =====
-- crates/tymux-core/src/engine.rs: the state in which `split_pane` has filed the new pane.
use tymux.Base.{ℕ, ◌≡◌, Bool, none, some, arith, ◌==◌, ◌&&◌, ◌||◌, if◌then◌else◌, ok}
use tymux.Base.Maps.{get, insert, get-insert}
use tymux.Layout.{LayoutNode, Orientation, contains, leaves, split_node}
use tymux.Layout.Leaves.{IsWellFormed, count, insert_after, contains-count, count-insert_after}
use tymux.Persistence.{live}
use tymux.Persistence.Sessions.{SessionState}
use tymux.Engine.{
  Platform, ty, started, emit, Engine, Spawned, find_window, insert_pane, window_for_pane,
  session_for_window,
}
use tymux.Engine.Operations.{add_pane, update_window}
use tymux.Engine.Windows.{find_window-id, find_window-update, update-IsDistinct}
use tymux.Engine.Indexing.{
  Window, IsIndexed, IsSound, write-Agrees, is_some, window_at, window_at-insert, insert-IsSound,
}
use tymux.Supervision.Table.{register_live}
use tymux.Supervision.Calls.{live_entry}

module _ (sys : Platform) where
  contains-insert_after :
      (n n' : LayoutNode sys.f32.F) (t new p : ℕ)
      → count t (leaves n) ≡ 1
      → leaves n' ≡ insert_after t new (leaves n)
      → contains n' p ≡ (contains n p || (new == p))
  contains-insert_after n n' t new p once l =
      ground
        (arith, contains-count n p, contains-count n' p, l, count-insert_after t new p (leaves n))

  insert_after-IsWellFormed :
      (n n' : LayoutNode sys.f32.F) (t new : ℕ)
      → count t (leaves n) ≡ 1
      → leaves n' ≡ insert_after t new (leaves n)
      → contains n new ≡ Bool.false
      → IsWellFormed n
      → IsWellFormed n'
  insert_after-IsWellFormed n n' t new once l absent wf p =
      ground (arith, l, contains-count n new, count-insert_after t new p (leaves n), wf p)

  -- The state in which the new pane is filed: it is supervised and has joined the window of the pane that
  -- was split, whose layout is the split one; every other window and pane is as before.
  pub record Filed (e : Engine sys) (pane_id : ℕ) (o : Orientation) (new : Spawned sys) (s0 : ℕ)
      (e1 : Engine sys) : Type 0 where
    pub window : ℕ
    pub of_pane : window_for_pane e.window_index pane_id ≡ some window
    pub of_window : session_for_window e.window_index window ≡ some s0
    pub old : Window sys
    pub layout : LayoutNode sys.f32.F
    pub held : window_at sys e.sessions s0 window ≡ some old
    pub splits :
        split_node sys.f32 old.layout pane_id o new.id old.rows old.cols ≡ some (layout, ok tt)
    pub layouts :
        (s j : ℕ)
        → window_at sys e1.sessions s j ≡ (
            if (s0 == s) && (window == j)
            then some (record old { layout = layout })
            else window_at sys e.sessions s j)
    pub supervised :
        (p : ℕ)
        → is_some sys (get e1.supervision.entries p)
          ≡ ((new.id == p) || is_some sys (get e.supervision.entries p))
    pub indexed : IsIndexed sys e1
    pub windows :
        (p : ℕ)
        → window_for_pane e1.window_index p
          ≡ (if new.id == p then some window else window_for_pane e.window_index p)
    pub panes :
        (p : ℕ) → get e1.panes p ≡ (if new.id == p then some (live new.kept) else get e.panes p)

  -- The window that holds a pane.
  abbrev pub Holds : Engine sys → ℕ → Window sys → Type 0
  Holds e pane_id w =
      (w0 : ℕ) × (s0 : ℕ) × (window_for_pane e.window_index pane_id ≡ some w0)
      × (session_for_window e.window_index w0 ≡ some s0)
      × (window_at sys e.sessions s0 w0 ≡ some w)

  module _ (is_exited : ℕ → Bool) (e : Engine sys) (pane_id w0 s0 : ℕ)
      (session : SessionState (ty sys)) (w : Window sys) (layout : LayoutNode sys.f32.F)
      (new : Spawned sys) (h : IsIndexed sys e)
      (fresh : get e.window_index.pane_window new.id ≡ none)
      (at_session : get e.sessions s0 ≡ some session)
      (at_window : find_window sys w0 session.windows ≡ some w)
      (once : count pane_id (leaves w.layout) ≡ 1)
      (grown : leaves layout ≡ insert_after pane_id new.id (leaves w.layout)) where
    abbrev pub split_window : Window sys
    split_window = record w { layout = layout }

    abbrev pub split_session : SessionState (ty sys)
    split_session = record session { windows = update_window sys session.windows split_window }

    same_id : w.id ≡ w0
    same_id = find_window-id sys session.windows w0 w at_window

    found :
        (j : ℕ)
        → find_window sys j split_session.windows
          ≡ (if w0 == j then some split_window else find_window sys j session.windows)
    found j =
        ground (arith, same_id, at_window, find_window-update sys session.windows split_window j)

    new_absent : contains w.layout new.id ≡ Bool.false
    new_absent = ground (arith, fresh, at_session, at_window, h.agrees.pane_indexed s0 w0 new.id)

    split-IsSound : IsSound sys split_session
    split-IsSound =
        let sound = h.sound s0 session at_session in
        (
          update-IsDistinct sys session.windows split_window (ground (arith, same_id, at_window))
              sound.0,
          ground (arith, found session.active_window_id, sound.1),
        )

    abbrev pub filed : ℕ → sys.f64.F → Engine sys
    filed now unit =
        let e0 = emit sys e (started new.id) in
        add_pane sys (record e0 { sessions = insert e.sessions s0 split_session }) new
          session.default_restart_policy now unit (insert_pane e.window_index new.id w0)

    filed-IsIndexed : (now : ℕ) (unit : sys.f64.F) → IsIndexed sys (filed now unit)
    unfolding insert_pane
    filed-IsIndexed now unit = record {
      agrees =
          let a = h.agrees in
          let pw = λ (p : ℕ). get-insert e.window_index.pane_window new.id p w0 in
          let grows =
            λ (p : ℕ). contains-insert_after w.layout layout pane_id new.id p once grown in
          let indexed : get e.window_index.window_session w0 ≡ some s0 =
            ground (arith, at_session, at_window, a.window_indexed s0 w0) in
          let held = λ (p : ℕ). a.pane_held s0 w0 p in
          let here = λ (p : ℕ). a.pane_indexed s0 w0 p in
          write-Agrees sys s0 w0 split_window a
            (λ s j.
              ground
                (arith, window_at-insert sys e.sessions s0 split_session s j, found j, at_session))
            (λ j. ground (arith, indexed)) (λ s k. ground (arith, k, indexed))
            (λ p k. ground (arith, k, pw p, grows p, here p, at_session, at_window))
            (λ p k. ground (arith, k, pw p, grows p, held p, at_session, at_window, indexed))
            (λ p n k. ground (arith, k, pw p, grows p))
            (λ p k n. ground (arith, k, grows p, here p, at_session, at_window, fresh))
            (λ p j k l. ground (arith, k, l, pw p))
            (insert_after-IsWellFormed w.layout layout pane_id new.id once grown new_absent
              (a.well_formed s0 w0 w (ground (arith, at_session, at_window))));
      known = λ p. ground (
        arith,
        get-insert e.window_index.pane_window new.id p w0,
        get-insert e.panes new.id p (live new.kept),
        h.known p,
      );
      sound = insert-IsSound sys e.sessions s0 split_session h.sound split-IsSound;
    }

    pub filed-Filed :
        (o : Orientation) (now : ℕ) (unit : sys.f64.F)
        → split_node sys.f32 w.layout pane_id o new.id w.rows w.cols ≡ some (layout, ok tt)
        → get e.window_index.pane_window pane_id ≡ some w0
        → get e.window_index.window_session w0 ≡ some s0
        → Filed e pane_id o new s0 (filed now unit)
    unfolding insert_pane window_for_pane session_for_window register_live
    filed-Filed o now unit splits pw ws = record {
      window = w0;
      of_pane = pw;
      of_window = ws;
      old = w;
      layout = layout;
      held = ground (arith, at_session, at_window);
      splits = splits;
      layouts = λ s j.
          ground (arith, window_at-insert sys e.sessions s0 split_session s j, found j, at_session);
      supervised = λ p. ground (
        arith,
        get-insert e.supervision.entries new.id p
            (live_entry sys.f64 session.default_restart_policy new.pane now unit),
      );
      indexed = filed-IsIndexed now unit;
      windows = λ p. get-insert e.window_index.pane_window new.id p w0;
      panes = λ p. get-insert e.panes new.id p (live new.kept);
    }
