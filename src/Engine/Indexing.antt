-- ===== src/Engine/Indexing.antt =====
-- crates/tymux-core/src/engine.rs: that the index from panes to windows and from windows to sessions
-- agrees with the sessions, and one write or removal of a window or session.
use tymux.Base.{
  ℕ, ◌≡◌, ◌≢◌, inl, inr, Bool, true, false, ◌&&◌, Option, none, some, List, arith, ◌==◌,
  if◌then◌else◌, Option-cases, Bool-cases,
}
use tymux.Base.Maps.{get, insert, remove, get-insert, get-remove}
use tymux.Layout.{contains}
use tymux.Layout.Leaves.{IsWellFormed}
use tymux.Persistence.Sessions.{WindowState, SessionState}
use tymux.Engine.{
  Platform, ty, Effect, Engine, find_window, emit, persist_session, snapshot_persisted_record,
}
use tymux.Engine.Windows.{IsDistinct}

module _ (sys : Platform) where
  abbrev pub Window : Type 0
  Window = WindowState (ty sys)

  abbrev pub Sessions : Type 0
  Sessions = List (ℕ × SessionState (ty sys))

  abbrev pub window_of : Option (SessionState (ty sys)) → ℕ → Option Window
  window_of none w = none
  window_of (some session) w = find_window sys w session.windows

  abbrev pub window_at : Sessions → ℕ → ℕ → Option Window
  window_at sessions s w = window_of (get sessions s) w

  abbrev pub holds : Option Window → ℕ → Bool
  holds none p = false
  holds (some w) p = contains w.layout p

  -- The index and the windows say the same, and no pane has two leaves in a window.
  pub record Agrees (at : ℕ → ℕ → Option Window) (pw ws : ℕ → Option ℕ) : Type 0 where
    pub window_indexed : (s w : ℕ) → at s w ≢ none → ws w ≡ some s
    pub window_there : (s w : ℕ) → ws w ≡ some s → at s w ≢ none
    pub pane_indexed : (s w p : ℕ) → holds (at s w) p ≡ true → pw p ≡ some w
    pub pane_there : (w p : ℕ) → pw p ≡ some w → ws w ≢ none
    pub pane_held : (s w p : ℕ) → pw p ≡ some w → ws w ≡ some s → holds (at s w) p ≡ true
    pub well_formed : (s w : ℕ) (x : Window) → at s w ≡ some x → IsWellFormed x.layout

  -- A session's windows have ids of their own, and the active one is among them.
  abbrev pub IsSound : SessionState (ty sys) → Type 0
  IsSound session =
      IsDistinct sys session.windows
      × (find_window sys session.active_window_id session.windows ≢ none)

  abbrev pub is_some : {A : Type 0} → Option A → Bool
  is_some none = false
  is_some (some a) = true

  -- The agreement that a reader of the engine finds whenever no operation runs.
  pub record IsIndexed (e : Engine sys) : Type 0 where
    pub agrees :
        Agrees
          (window_at e.sessions)
          (get e.window_index.pane_window)
          (get e.window_index.window_session)
    pub known : (p : ℕ) → is_some (get e.panes p) ≡ is_some (get e.window_index.pane_window p)
    pub sound : (s : ℕ) (x : SessionState (ty sys)) → get e.sessions s ≡ some x → IsSound x

  pub window_at-insert :
      (sessions : Sessions) (s0 : ℕ) (x : SessionState (ty sys)) (s w : ℕ)
      → window_at (insert sessions s0 x) s w
        ≡ (if s0 == s then find_window sys w x.windows else window_at sessions s w)
  window_at-insert sessions s0 x s w = ground (arith, get-insert sessions s0 s x)

  pub window_at-remove :
      (sessions : Sessions) (s0 s w : ℕ)
      → window_at (remove sessions s0) s w ≡ (if s0 == s then none else window_at sessions s w)
  window_at-remove sessions s0 s w = ground (arith, get-remove sessions s0 s)

  pub insert-IsSound :
      (sessions : Sessions) (s0 : ℕ) (new : SessionState (ty sys))
      → ((s : ℕ) (x : SessionState (ty sys)) → get sessions s ≡ some x → IsSound x)
      → IsSound new
      → (s : ℕ) (x : SessionState (ty sys)) → get (insert sessions s0 new) s ≡ some x
      → IsSound x
  insert-IsSound sessions s0 new h n s x k = elim (Bool-cases (s0 == s)) [
    | inl e ↦ ground (arith, e, get-insert sessions s0 s new)
    | inr e ↦ h s x (ground (arith, e, k, get-insert sessions s0 s new))
  ]

  pub remove-IsSound :
      (sessions : Sessions) (s0 : ℕ)
      → ((s : ℕ) (x : SessionState (ty sys)) → get sessions s ≡ some x → IsSound x)
      → (s : ℕ) (x : SessionState (ty sys)) → get (remove sessions s0) s ≡ some x
      → IsSound x
  remove-IsSound sessions s0 h s x k = h s x (ground (arith, k, get-remove sessions s0 s))

  module _ {at at' : ℕ → ℕ → Option Window} {pw pw' ws ws' : ℕ → Option ℕ} where
    -- One window is written, in a session that has it or in which it is new.
    pub write-Agrees :
        (s0 w0 : ℕ) (new : Window)
        → Agrees at pw ws
        → ((s w : ℕ) → at' s w ≡ (if (s0 == s) && (w0 == w) then some new else at s w))
        → ((w : ℕ) → ws' w ≡ (if w0 == w then some s0 else ws w))
        → ((s : ℕ) → ws w0 ≡ some s → s ≡ s0)
        → ((p : ℕ) → contains new.layout p ≡ true → pw' p ≡ some w0)
        → ((p : ℕ) → contains new.layout p ≡ false → pw' p ≢ some w0)
        → ((p : ℕ) → pw p ≢ some w0 → contains new.layout p ≡ false → pw' p ≡ pw p)
        → ((p : ℕ) → contains new.layout p ≡ true → pw p ≢ some w0 → pw p ≡ none)
        → ((p w : ℕ) → pw p ≡ some w0 → pw' p ≡ some w → w ≡ w0)
        → IsWellFormed new.layout
        → Agrees at' pw' ws'
    write-Agrees s0 w0 new a at_eq ws_eq own here gone same fresh stays wf = record {
      window_indexed = λ s w h. ground (arith, at_eq s w, ws_eq w, a.window_indexed s w, own s);
      window_there = λ s w h. ground (arith, at_eq s w, ws_eq w, a.window_there s w);
      pane_indexed = λ s w p h. ground (
        arith,
        at_eq s w,
        here p,
        a.pane_indexed s w p,
        a.window_indexed s w,
        own s,
        same p,
        fresh p,
      );
      pane_there = λ w p h. ground (arith, ws_eq w, same p, a.pane_there w p, stays p w, here p);
      pane_held = λ s w p h k.
          ground (arith, at_eq s w, ws_eq w, here p, gone p, same p, stays p w, a.pane_held s w p);
      well_formed = λ s w x h. ground (arith, at_eq s w, a.well_formed s w x, wf);
    }

    -- Some windows are removed, with all their panes.
    pub remove-Agrees :
        (gone : ℕ → Bool)
        → Agrees at pw ws
        → ((s w : ℕ) → at' s w ≡ (if gone w then none else at s w))
        → ((w : ℕ) → ws' w ≡ (if gone w then none else ws w))
        → ((p w : ℕ) → pw p ≡ some w → gone w ≡ true → pw' p ≡ none)
        → ((p w : ℕ) → pw p ≡ some w → gone w ≡ false → pw' p ≡ some w)
        → ((p : ℕ) → pw p ≡ none → pw' p ≡ none)
        → Agrees at' pw' ws'
    remove-Agrees gone a at_eq ws_eq dropped kept absent = record {
      window_indexed = λ s w h. ground (arith, at_eq s w, ws_eq w, a.window_indexed s w);
      window_there = λ s w h. ground (arith, at_eq s w, ws_eq w, a.window_there s w);
      pane_indexed = λ s w p h. ground (arith, at_eq s w, a.pane_indexed s w p, kept p w);
      pane_there = λ w p h. elim (Option-cases (pw p)) [
        | inl k ↦ ground (arith, h, absent p k)
        | inr (v, k) ↦ ground (arith, h, k, dropped p v k, kept p v k, ws_eq w, a.pane_there v p k)
      ];
      pane_held = λ s w p h l. elim (Option-cases (pw p)) [
        | inl k ↦ ground (arith, h, absent p k)
        | inr (v, k) ↦
            ground
              (arith, h, l, k, dropped p v k, kept p v k, ws_eq w, at_eq s w, a.pane_held s v p k)
      ];
      well_formed = λ s w x h. ground (arith, at_eq s w, a.well_formed s w x);
    }

  -- A save changes nothing that the agreement reads.
  pub persist_session-IsIndexed :
      (e : Engine sys) (id : ℕ) → IsIndexed e → IsIndexed (persist_session sys e id)
  unfolding persist_session
  persist_session-IsIndexed e id h = elim (Option-cases (snapshot_persisted_record sys e id)) [
    | inl k ↦ rw (persist_session, k) h
    | inr (r, k) ↦
        rw (persist_session, k) (record { agrees = h.agrees; known = h.known; sound = h.sound })
  ]

  pub emit-IsIndexed : (e : Engine sys) (x : Effect sys) → IsIndexed e → IsIndexed (emit sys e x)
  emit-IsIndexed e x h = record { agrees = h.agrees; known = h.known; sound = h.sound }
