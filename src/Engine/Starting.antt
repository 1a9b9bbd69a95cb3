-- ===== src/Engine/Starting.antt =====
-- crates/tymux-core/src/engine.rs: what `start_pane_inner` makes of each pane that a revive starts.
use tymux.Base.{
  ℕ, ◌≡◌, ◌∙◌, refl, inl, inr, Bool, true, false, ◌&&◌, Option, none, some, List, ◌==◌, Result, ok,
  err, arith, Bool-cases, Option-cases,
}
use tymux.Base.Maps.{get, insert, get-insert}
use tymux.Restart.Policy.{RestartPolicy}
use tymux.Restart.{PaneSupervisor, new}
use tymux.Pane.{Pane}
use tymux.Persistence.{LivePane, PersistedPaneRecord, PaneEntry, live, dead}
use tymux.Supervision.{Entry, running}
use tymux.Supervision.Calls.{start_entry, adopted_entry}
use tymux.Supervision.Table.{start, adopt_started}
use tymux.Engine.{Platform, ty, Engine}
use tymux.Engine.Operations.{Error}
use tymux.Engine.Reviving.{Answers, start_pane_inner}

module _ (sys : Platform) (a : Answers sys) (fallback : RestartPolicy sys.f64.F) where
  abbrev pub Sup : Type 0
  Sup = Option (Entry sys.f64.F)

  -- The supervisor that a new process is put under: the pane's own, or one with the session's policy.
  abbrev pub sup_or_new : Sup → PaneSupervisor sys.f64.F
  sup_or_new none = new fallback
  sup_or_new (some x) = x.sup

  -- A pane and its supervision entry before and after a revive that starts it.
  pub data PaneEnd (p : ℕ)
      : Option (PaneEntry (ty sys)) → Sup → Option (PaneEntry (ty sys)) → Sup → Type 0 where
    unknown : (x : Sup) → PaneEnd p none x none x
    -- The new process of a pane that was on file runs and is supervised.
    spawned :
        (r : PersistedPaneRecord (ty sys)) (x : Sup) (kept : LivePane (ty sys)) (pane : Pane)
        → a.spawns p ≡ some (kept, pane)
        → PaneEnd p
            (some (dead r))
            x
            (some (live kept))
            (some (adopted_entry sys.f64 (sup_or_new x) pane a.now a.unit))
    unspawned :
        (r : PersistedPaneRecord (ty sys)) (x : Sup)
        → a.spawns p ≡ none
        → PaneEnd p (some (dead r)) x (some (dead r)) x
    -- A pane in memory whose child has exited is started by its supervisor.
    restarted :
        (q : LivePane (ty sys)) (x : Entry sys.f64.F)
        → a.is_exited p ≡ true
        → running x.pane ≡ none
        → PaneEnd p
            (some (live q))
            (some x)
            (some (live q))
            (some (start_entry sys.f64 x p a.now a.unit (a.starts p)).0)
    busy :
        (q : LivePane (ty sys)) (x : Entry sys.f64.F) (held : Pane)
        → running x.pane ≡ some held
        → PaneEnd p (some (live q)) (some x) (some (live q)) (some x)
    unsupervised : (q : LivePane (ty sys)) → PaneEnd p (some (live q)) none (some (live q)) none
    still_runs :
        (q : LivePane (ty sys)) (x : Sup)
        → a.is_exited p ≡ false
        → PaneEnd p (some (live q)) x (some (live q)) x

  -- One start: what becomes of the pane, and that all else is as before.
  pub record StartsOne (e : Engine sys) (id : ℕ) (e' : Engine sys) : Type 0 where
    pub ends :
        PaneEnd id
          (get e.panes id)
          (get e.supervision.entries id)
          (get e'.panes id)
          (get e'.supervision.entries id)
    pub spared :
        (j : ℕ)
        → (id == j) ≡ false
        → (get e'.panes j ≡ get e.panes j)
          × (get e'.supervision.entries j ≡ get e.supervision.entries j)

  abbrev pub is_ok : Result (Unit {0}) (Error sys) → Bool
  is_ok (ok u) = true
  is_ok (err x) = false

  -- Whether a pane starts, seen from its state before the revive.
  abbrev pub starts_up : ℕ → Option (PaneEntry (ty sys)) → Sup → Bool
  starts_up p none x = false
  starts_up p (some (dead r)) x = elim (a.spawns p) [ none ↦ false | some s ↦ true ]
  starts_up p (some (live q)) none = false
  starts_up p (some (live q)) (some x) =
      a.is_exited p && is_ok (start_entry sys.f64 x p a.now a.unit (a.starts p)).1

  abbrev pub StartEnd : Engine sys → ℕ → Type 0
  StartEnd e id =
      StartsOne e id (start_pane_inner sys a e id fallback).0
      × (is_ok (start_pane_inner sys a e id fallback).1
          ≡ starts_up id (get e.panes id) (get e.supervision.entries id))

  spared_all :
      (e : Engine sys) (id j : ℕ)
      → (id == j) ≡ false
      → (get e.panes j ≡ get e.panes j)
        × (get e.supervision.entries j ≡ get e.supervision.entries j)
  spared_all e id j k = (refl, refl)

  written :
      {V : Type 0} (m : List (ℕ × V)) (id j : ℕ) (v : V)
      → (id == j) ≡ false
      → get (insert m id v) j ≡ get m j
  written m id j v k = get-insert m id j v ∙ rw k refl

  own : {V : Type 0} (m : List (ℕ × V)) (id : ℕ) (v : V) → get (insert m id v) id ≡ some v
  own m id v = get-insert m id id v ∙ ground arith

  start_unknown : (e : Engine sys) (id : ℕ) → get e.panes id ≡ none → StartEnd e id
  unfolding start_pane_inner
  start_unknown e id k =
      rw (start_pane_inner, k)
        (
          record { ends = rw k (unknown (get e.supervision.entries id)); spared = spared_all e id },
          refl,
        )

  pub joined_end :
      (id : ℕ) {p b p' b' : Option (PaneEntry (ty sys))} {s x s' x' : Sup}
      → p ≡ b
      → s ≡ x
      → p' ≡ b'
      → s' ≡ x'
      → PaneEnd id b x b' x'
      → PaneEnd id p s p' s'
  joined_end id before sup after new_sup h = rw (before, sup, after, new_sup) h

  start_dead :
      (e : Engine sys) (id : ℕ) (r : PersistedPaneRecord (ty sys))
      → get e.panes id ≡ some (dead r)
      → StartEnd e id
  unfolding start_pane_inner adopt_started
  start_dead e id r k = elim (Option-cases (a.spawns id)) [
    | inl s ↦
        rw (start_pane_inner, k, s)
          (
            record {
              ends = joined_end id k refl k refl (unspawned r _ s);
              spared = spared_all e id;
            },
            ground (arith, k, s),
          )
    | inr ((kept, pane), s) ↦ elim (Option-cases (get e.supervision.entries id)) [
      | inl x ↦
          rw (start_pane_inner, k, s, adopt_started, x)
            (
              record {
                ends =
                    joined_end id k x (own e.panes id _) (own e.supervision.entries id _)
                      (spawned r none kept pane s);
                spared = λ j n. (written e.panes id j _ n, written e.supervision.entries id j _ n);
              },
              ground (arith, k, s),
            )
      | inr (entry, x) ↦
          rw (start_pane_inner, k, s, adopt_started, x)
            (
              record {
                ends =
                    joined_end id k x (own e.panes id _) (own e.supervision.entries id _)
                      (spawned r (some entry) kept pane s);
                spared = λ j n. (written e.panes id j _ n, written e.supervision.entries id j _ n);
              },
              ground (arith, k, s),
            )
    ]
  ]

  start_live :
      (e : Engine sys) (id : ℕ) (q : LivePane (ty sys))
      → get e.panes id ≡ some (live q)
      → StartEnd e id
  unfolding start_pane_inner start
  start_live e id q k = elim (Bool-cases (a.is_exited id)) [
    | inr s ↦
        rw (start_pane_inner, k, s)
          (
            record {
              ends = joined_end id k refl k refl (still_runs q _ s);
              spared = spared_all e id;
            },
            refused_start s,
          )
    | inl s ↦ elim (Option-cases (get e.supervision.entries id)) [
      | inl x ↦
          rw (start_pane_inner, k, s, start, x)
            (
              record { ends = joined_end id k x k x (unsupervised q); spared = spared_all e id },
              refl,
            )
      | inr (entry, x) ↦ elim (Option-cases (running entry.pane)) [
        | inl y ↦
            rw (start_pane_inner, k, s, start, x, y)
              (
                record {
                  ends =
                      joined_end id k x k (own e.supervision.entries id _) (restarted q entry s y);
                  spared = λ j n. (refl, written e.supervision.entries id j _ n);
                },
                ground (arith, s),
              )
        | inr (held, y) ↦
            rw (start_pane_inner, k, s, start, x, y)
              (
                record {
                  ends = joined_end id k x k x (busy q entry held y);
                  spared = spared_all e id;
                },
                ground (arith, s),
              )
      ]
    ]
  ]
    where
      refused_start :
          a.is_exited id ≡ false
          → false ≡ starts_up id (some (live q)) (get e.supervision.entries id)
      refused_start s = by_sup (get e.supervision.entries id)
        where
          by_sup : (x : Sup) → false ≡ starts_up id (some (live q)) x
          by_sup none = refl
          by_sup (some x) = ground (arith, s)

  pub start_pane_inner-StartEnd : (e : Engine sys) (id : ℕ) → StartEnd e id
  start_pane_inner-StartEnd e id = elim (Option-cases (get e.panes id)) [
    | inl k ↦ start_unknown e id k
    | inr (PaneEntry.dead r, k) ↦ start_dead e id r k
    | inr (PaneEntry.live q, k) ↦ start_live e id q k
  ]
