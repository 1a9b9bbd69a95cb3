-- ===== src/Engine/Adding.antt =====
-- crates/tymux-core/src/engine.rs: `create_session_supervised`, `create_window` and `split_pane` keep
-- the index in agreement with the sessions.
use tymux.Base.{
  ℕ, ◌≡◌, refl, inl, inr, Bool, Option, none, some, [], ◌∷◌, ◌++◌, arith, ◌==◌, if◌then◌else◌,
  Option-cases, Result-cases, length,
}
use tymux.Base.Maps.{get, insert, get-insert}
use tymux.Layout.{LayoutNode, contains, leaves}
use tymux.Layout.Leaves.{IsWellFormed}
use tymux.Restart.Policy.{RestartPolicy, validate}
use tymux.Persistence.{live}
use tymux.Persistence.Sessions.{SessionState}
use tymux.Engine.{Platform, ty, Engine, Spawned, find_window, insert_pane, insert_window}
use tymux.Engine.Operations.{new_window, add_pane, create_session_supervised, create_window}
use tymux.Engine.Windows.{find_window-append, append-IsDistinct}
use tymux.Engine.Indexing.{
  IsIndexed, IsSound, window_at, write-Agrees, window_at-insert, insert-IsSound,
  persist_session-IsIndexed,
}

module _ (sys : Platform) where
  -- The ids that a call draws are new to the engine.
  pub record AreFresh (e : Engine sys) (pane_id window_id : ℕ) : Type 0 where
    pub pane_fresh : get e.window_index.pane_window pane_id ≡ none
    pub window_fresh : get e.window_index.window_session window_id ≡ none

  leaf-IsWellFormed : (id : ℕ) → IsWellFormed {R = sys.f32.F} (LayoutNode.leaf id)
  unfolding leaves
  leaf-IsWellFormed id t = ground arith

  -- A window with one new pane joins a session that is written with it.
  module _ (e : Engine sys) (new : Spawned sys) (window_id id : ℕ) (session : SessionState (ty sys))
      (name : sys.Text) (h : IsIndexed sys e) (fresh : AreFresh e new.id window_id)
      (found : (w : ℕ)
        → find_window sys w session.windows ≡ (
            if window_id == w
            then some (new_window sys window_id name new.id)
            else window_at sys e.sessions id w))
      (sound : IsSound sys session) where
    add_window-IsIndexed :
        (policy : RestartPolicy sys.f64.F) (now : ℕ) (unit : sys.f64.F)
        → IsIndexed sys (
            add_pane sys
              (record e { sessions = insert e.sessions id session })
              new
              policy
              now
              unit
              (insert_pane (insert_window e.window_index window_id id) new.id window_id))
    unfolding insert_pane insert_window contains
    add_window-IsIndexed policy now unit = record {
      agrees =
          let a = h.agrees in
          let pw = λ (p : ℕ). get-insert e.window_index.pane_window new.id p window_id in
          write-Agrees sys id window_id (new_window sys window_id name new.id) a
            (λ s w. ground (arith, window_at-insert sys e.sessions id session s w, found w))
            (λ w. get-insert e.window_index.window_session window_id w id)
            (λ s k. ground (arith, k, fresh.window_fresh)) (λ p k. ground (arith, k, pw p))
            (λ p k. ground (arith, k, pw p, a.pane_there window_id p, fresh.window_fresh))
            (λ p n k. ground (arith, k, pw p)) (λ p k n. ground (arith, k, fresh.pane_fresh))
            (λ p w k l. ground (arith, k, a.pane_there window_id p, fresh.window_fresh))
            (leaf-IsWellFormed new.id);
      known = λ p. ground (
        arith,
        get-insert e.window_index.pane_window new.id p window_id,
        get-insert e.panes new.id p (live new.kept),
        h.known p,
      );
      sound = insert-IsSound sys e.sessions id session h.sound sound;
    }

  -- A new session, a refused policy and a failed spawn.
  pub create_session-IsIndexed :
      (e : Engine sys) (name : sys.Text) (policy : RestartPolicy sys.f64.F)
      (spawned : Option (Spawned sys)) (window_id id now : ℕ) (unit : sys.f64.F)
      → IsIndexed sys e
      → get e.sessions id ≡ none
      → ((new : Spawned sys) → spawned ≡ some new → AreFresh e new.id window_id)
      → IsIndexed sys (create_session_supervised sys e name policy spawned window_id id now unit).0
  unfolding create_session_supervised
  create_session-IsIndexed e name policy none window_id id now unit h s f =
      elim (Result-cases (validate sys.f64 policy)) [
        | inl (u, k) ↦ rw (create_session_supervised, k) h
        | inr (x, k) ↦ rw (create_session_supervised, k) h
      ]
  create_session-IsIndexed e name policy (some new) window_id id now unit h s f =
      elim (Result-cases (validate sys.f64 policy)) [
        | inr (x, k) ↦ rw (create_session_supervised, k) h
        | inl (u, k) ↦
            let session : SessionState (ty sys) = record {
              id = id;
              name = name;
              windows = new_window sys window_id (sys.to_string 0) new.id ∷ [];
              active_window_id = window_id;
              default_restart_policy = policy;
            } in
            rw (create_session_supervised, k)
              (persist_session-IsIndexed sys _ id (
                add_window-IsIndexed e new window_id id session (sys.to_string 0) h (f new refl)
                  (λ w. ground (arith, s)) ((refl, tt), ground arith) policy now unit))
      ]

  -- A new window, an unknown session and a failed spawn.
  pub create_window-IsIndexed :
      (is_exited : ℕ → Bool) (e : Engine sys) (id : ℕ) (spawned : Option (Spawned sys))
      (window_id now : ℕ) (unit : sys.f64.F)
      → IsIndexed sys e
      → ((new : Spawned sys) → spawned ≡ some new → AreFresh e new.id window_id)
      → IsIndexed sys (create_window sys is_exited e id spawned window_id now unit).0
  unfolding create_window
  create_window-IsIndexed is_exited e id none window_id now unit h f = h
  create_window-IsIndexed is_exited e id (some new) window_id now unit h f =
      elim (Option-cases (get e.sessions id)) [
        | inl k ↦ rw (create_window, k) h
        | inr (session, k) ↦
            let name = sys.to_string (length session.windows) in
            let added = new_window sys window_id name new.id in
            let session' : SessionState (ty sys) = record session {
              windows = session.windows ++ added ∷ [];
              active_window_id = window_id;
            } in
            let absent : find_window sys window_id session.windows ≡ none =
              ground (arith, k, h.agrees.window_indexed id window_id, (f new refl).window_fresh) in
            let found = λ (w : ℕ). find_window-append sys session.windows added w absent in
            rw (create_window, k)
              (persist_session-IsIndexed sys _ id (
                add_window-IsIndexed e new window_id id session' name h (f new refl)
                  (λ w. ground (arith, found w, k))
                  (
                    append-IsDistinct sys session.windows added absent (h.sound id session k).0,
                    ground (arith, found window_id),
                  )
                  session'.default_restart_policy now unit))
      ]
