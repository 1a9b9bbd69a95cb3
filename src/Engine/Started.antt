-- ===== src/Engine/Started.antt =====
-- crates/tymux-core/src/engine.rs: what the loop that starts the panes of a revive makes of them.
use tymux.Base.{
  ℕ, ◌+◌, ◌≤◌, ◌≡◌, ◌≢◌, ◌∙◌, refl, sym, ltb, inl, inr, Bool, true, false, List, [], ◌∷◌, ◌==◌,
  if◌then◌else◌, Result, ok, err, arith, Bool-cases, subst,
}
use tymux.Base.Maps.{get}
use tymux.Layout.Leaves.{count}
use tymux.Restart.Policy.{RestartPolicy}
use tymux.Engine.{Platform, Engine}
use tymux.Engine.Operations.{Error}
use tymux.Engine.Reviving.{Answers, start_pane_inner, start_each, count_ok}
use tymux.Engine.Starting.{PaneEnd, joined_end, is_ok, starts_up, start_pane_inner-StartEnd}

module _ (sys : Platform) (a : Answers sys) (fallback : RestartPolicy sys.f64.F) where
  -- What becomes of a pane, by whether it is among those that are started.
  abbrev pub Becomes : Engine sys → Engine sys → ℕ → Bool → Type 0
  Becomes e e' p false =
      (get e'.panes p ≡ get e.panes p)
      × (get e'.supervision.entries p ≡ get e.supervision.entries p)
  Becomes e e' p true =
      PaneEnd sys a fallback p (get e.panes p) (get e.supervision.entries p) (get e'.panes p)
        (get e'.supervision.entries p)

  -- How many of the panes start.
  abbrev pub total_up : Engine sys → List ℕ → ℕ
  total_up e [] = 0
  total_up e (id ∷ ids) =
      let rest = total_up e ids in
      if starts_up sys a fallback id (get e.panes id) (get e.supervision.entries id)
      then rest + 1
      else rest

  pub Becomes-same :
      (e e1 e2 : Engine sys) (p : ℕ) (b : Bool)
      → e2.panes ≡ e1.panes
      → e2.supervision ≡ e1.supervision
      → Becomes e e1 p b
      → Becomes e e2 p b
  Becomes-same e e1 e2 p false panes supervision h = rw (panes, supervision) h
  Becomes-same e e1 e2 p true panes supervision h = rw (panes, supervision) h

  Becomes-after :
      (e e1 e' : Engine sys) (p : ℕ) (b : Bool)
      → Becomes e e1 p false
      → Becomes e1 e' p b
      → Becomes e e' p b
  Becomes-after e e1 e' p false s h = (h.0 ∙ s.0, h.1 ∙ s.1)
  Becomes-after e e1 e' p true s h = joined_end sys a fallback p (sym s.0) (sym s.1) refl refl h

  Becomes-before :
      (e e1 e' : Engine sys) (p : ℕ)
      → Becomes e e1 p true
      → Becomes e1 e' p false
      → Becomes e e' p true
  Becomes-before e e1 e' p h s = joined_end sys a fallback p refl refl s.0 s.1 h

  abbrev pub IsOnce : List ℕ → Type 0
  IsOnce ids = (p : ℕ) → count p ids ≤ 1

  tail-IsOnce : (id : ℕ) (ids : List ℕ) → IsOnce (id ∷ ids) → IsOnce ids
  tail-IsOnce id ids once p = ground (arith, once p)

  head_once : (id : ℕ) (ids : List ℕ) → IsOnce (id ∷ ids) → count id ids ≡ 0
  head_once id ids once = ground (arith, once id)

  pub start_each-Becomes :
      (e : Engine sys) (ids : List ℕ)
      → IsOnce ids
      → (p : ℕ) → Becomes e (start_each sys a e fallback ids).0 p (ltb 0 (count p ids))
  unfolding start_each
  start_each-Becomes e [] once p = (refl, refl)
  start_each-Becomes e (id ∷ ids) once p =
      let e1 = (start_pane_inner sys a e id fallback).0 in
      let e2 = (start_each sys a e1 fallback ids).0 in
      let one = (start_pane_inner-StartEnd sys a fallback e id).0 in
      let later = start_each-Becomes e1 ids (tail-IsOnce id ids once) p in
      elim (Bool-cases (id == p)) [
        | inl k ↦
            let same : id ≡ p = ground (arith, k) in
            let gone : ltb 0 (count p ids) ≡ false = ground (arith, same, head_once id ids once) in
            let hit : ltb 0 (count p (id ∷ ids)) ≡ true = ground (arith, k) in
            rw hit (
              Becomes-before e e1 e2 p (subst (λ q. Becomes e e1 q true) same one.ends)
                (subst (Becomes e1 e2 p) gone later))
        | inr k ↦
            let miss : ltb 0 (count p (id ∷ ids)) ≡ ltb 0 (count p ids) = ground (arith, k) in
            rw miss (Becomes-after e e1 e2 p (ltb 0 (count p ids)) (one.spared p k) later)
      ]

  total_up-spared :
      (e e1 : Engine sys) (ids : List ℕ)
      → ((p : ℕ) → count p ids ≢ 0 → Becomes e e1 p false)
      → total_up e1 ids ≡ total_up e ids
  total_up-spared e e1 [] s = refl
  total_up-spared e e1 (id ∷ ids) s =
      let here = s id (ground arith) in
      let later = total_up-spared e e1 ids (λ p n. s p (ground (arith, n))) in
      rw (here.0, here.1, later) refl

  pub start_each-total_up :
      (e : Engine sys) (ids : List ℕ)
      → IsOnce ids
      → (start_each sys a e fallback ids).1 ≡ total_up e ids
  unfolding start_each
  start_each-total_up e [] once = refl
  start_each-total_up e (id ∷ ids) once =
      let e1 = (start_pane_inner sys a e id fallback).0 in
      let (one, up) = start_pane_inner-StartEnd sys a fallback e id in
      let later = start_each-total_up e1 ids (tail-IsOnce id ids once) in
      let same =
        total_up-spared e e1 ids (λ p n. one.spared p (ground (arith, n, head_once id ids once))) in
      counted (start_pane_inner sys a e id fallback).1 _ ∙ rw (up, later, same) refl
    where
      counted :
          (r : Result (Unit {0}) (Error sys)) (n : ℕ)
          → count_ok sys r n ≡ (if is_ok sys a fallback r then n + 1 else n)
      counted (ok u) n = refl
      counted (err x) n = refl
