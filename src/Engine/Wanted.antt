-- ===== src/Engine/Wanted.antt =====
-- crates/tymux-core/src/engine.rs: which panes of a session a revive starts.
use tymux.Base.{
  ℕ, ◌+◌, ◌≤◌, ◌≡◌, ◌⊎◌, ◌∙◌, refl, ap, sym, inl, inr, Bool, true, false, not, ◌&&◌, Option, none,
  some, List, [], ◌∷◌, ◌==◌, ltb, if◌then◌else◌, arith, Bool-cases, Option-cases,
}
use tymux.Base.Maps.{get}
use tymux.Layout.{contains, leaves}
use tymux.Layout.Leaves.{IsWellFormed, count, count-append, contains-count}
use tymux.Persistence.Sessions.{SessionState}
use tymux.Engine.{
  Platform, ty, Engine, find_window, all_leaves, persist_session, snapshot_persisted_record,
}
use tymux.Engine.Snapshots.{state_of}
use tymux.Engine.Operations.{Windows}
use tymux.Engine.Windows.{IsDistinct}
use tymux.Engine.Indexing.{Window, IsIndexed, holds}
use tymux.Engine.Killing.{all_leaves-cases}
use tymux.Engine.Started.{total_up}
use tymux.Engine.Reviving.{is_held, Answers, other_ids, launch_of, unresolved, Starts}
use tymux.Engine.Starting.{starts_up}

module _ (sys : Platform) where
  -- No pane has two leaves in the windows of a session whose panes are indexed.
  pub all_leaves-IsOnce :
      (ws : Windows sys) (pw : ℕ → Option ℕ)
      → IsDistinct sys ws
      → ((v p : ℕ) → holds sys (find_window sys v ws) p ≡ true → pw p ≡ some v)
      → ((v : ℕ) (w : Window sys) → find_window sys v ws ≡ some w → IsWellFormed w.layout)
      → (p : ℕ) → count p (all_leaves sys ws) ≤ 1
  unfolding all_leaves
  all_leaves-IsOnce [] pw d indexed wf p = omega arith
  all_leaves-IsOnce (w ∷ ws) pw d indexed wf p =
      let own = wf w.id w (ground arith) p in
      let split = count-append p (leaves w.layout) (all_leaves sys ws) in
      let rest_indexed : (v q : ℕ) → holds sys (find_window sys v ws) q ≡ true → pw q ≡ some v =
        λ v q k. indexed v q (ground (arith, k, d.0)) in
      let rest_wf : (v : ℕ) (x : Window sys)
          → find_window sys v ws ≡ some x
          → IsWellFormed x.layout =
        λ v x k. wf v x (ground (arith, k, d.0)) in
      let rest = all_leaves-IsOnce ws pw d.1 rest_indexed rest_wf p in
      elim (all_leaves-cases sys ws p d.1) [
        | inl k ↦ omega (arith, split, own, k)
        | inr (v, k) ↦ elim (Bool-cases (contains w.layout p)) [
          | inr n ↦ ground (arith, split, rest, n, contains-count w.layout p)
          | inl c ↦
              absurd
                (ground (arith, k, c, d.0, rest_indexed v p k, indexed w.id p (ground (arith, c))))
        ]
      ]

  -- A pane that a revive starts: one of the session's that is not held stopped or failed.
  abbrev pub is_wanted : Engine sys → List ℕ → ℕ → Bool
  is_wanted e all p = ltb 0 (count p all) && not (is_held (state_of sys e.supervision p))

  -- A pane whose launch cannot be resolved.
  abbrev pub is_blocked : Answers sys → Engine sys → ℕ → Bool
  is_blocked a e p = elim (get e.panes p) [
    | none ↦ false
    | some entry ↦ not (a.prepares (launch_of sys entry))
  ]

  module _ (a : Answers sys) (e : Engine sys) (session : SessionState (ty sys)) where
    -- How many of the wanted panes start, each seen from its state before the revive.
    abbrev pub wanted_up : List ℕ → ℕ
    wanted_up [] = 0
    wanted_up (id ∷ ids) =
        let rest = wanted_up ids in
        if not (is_held (state_of sys e.supervision id))
          && starts_up sys a session.default_restart_policy id (get e.panes id)
              (get e.supervision.entries id)
        then rest + 1
        else rest

  pub count-other_ids :
      (e : Engine sys) (ids : List ℕ) (p : ℕ)
      → count p (other_ids sys e ids)
        ≡ (if is_held (state_of sys e.supervision p) then 0 else count p ids)
  count-other_ids e [] p = ground arith
  count-other_ids e (id ∷ ids) p = elim (Bool-cases (id == p)) [
    | inl k ↦
        let same : id ≡ p = ground (arith, k) in rw same (ground (arith, count-other_ids e ids p))
    | inr k ↦ ground (arith, k, count-other_ids e ids p)
  ]

  pub total_up-other_ids :
      (a : Answers sys) (e : Engine sys) (session : SessionState (ty sys)) (ids : List ℕ)
      → total_up sys a session.default_restart_policy e (other_ids sys e ids)
        ≡ wanted_up a e session ids
  total_up-other_ids a e session [] = refl
  total_up-other_ids a e session (id ∷ ids) =
      elim (Bool-cases (is_held (state_of sys e.supervision id))) [
        | inl k ↦ rw (k, total_up-other_ids a e session ids) refl
        | inr k ↦ rw (k, total_up-other_ids a e session ids) refl
      ]

  pub unresolved-cases :
      (a : Answers sys) (e : Engine sys) (ids : List ℕ)
      → ((id : ℕ) × (unresolved sys a e ids ≡ some id)
          × (ltb 0 (count id ids) ≡ true)
          × (is_blocked a e id ≡ true))
        ⊎ ((unresolved sys a e ids ≡ none)
            × ((p : ℕ) → (ltb 0 (count p ids) && is_blocked a e p) ≡ false))
  unresolved-cases a e [] = inr (refl, λ p. refl)
  unresolved-cases a e (id ∷ ids) = elim (Bool-cases (is_blocked a e id)) [
    | inl k ↦ inl (id, ground (arith, k), ground arith, k)
    | inr k ↦ elim (unresolved-cases a e ids) [
      | inl (j, u, m, b) ↦ inl (j, ground (arith, k, u), ground (arith, m), b)
      | inr (u, all) ↦ inr (
        ground (arith, k, u),
        λ p. elim (Bool-cases (id == p)) [
          | inl s ↦ let same : id ≡ p = ground (arith, s) in rw (← same) (rw k (ground arith))
          | inr s ↦ ground (arith, s, all p)
        ],
      )
    ]
  ]

  pub persist_session-parts :
      (e : Engine sys) (id : ℕ)
      → ((persist_session sys e id).panes ≡ e.panes)
        × ((persist_session sys e id).sessions ≡ e.sessions)
        × ((persist_session sys e id).supervision ≡ e.supervision)
  unfolding persist_session
  persist_session-parts e id = elim (Option-cases (snapshot_persisted_record sys e id)) [
    | inl k ↦ rw (persist_session, k) (refl, refl, refl)
    | inr (r, k) ↦ rw (persist_session, k) (refl, refl, refl)
  ]

  pub Starts-IsIndexed : (e e' : Engine sys) → Starts sys e e' → IsIndexed sys e → IsIndexed sys e'
  Starts-IsIndexed e e' s h = record {
    agrees = rw (s.same_sessions, s.same_index) h.agrees;
    known = λ p. s.same_panes p ∙ h.known p ∙ rw (s.same_index) refl;
    sound = λ t x k. h.sound t x (ap (λ m. get m t) (sym s.same_sessions) ∙ k);
  }
