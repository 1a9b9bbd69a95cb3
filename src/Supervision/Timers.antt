-- ===== src/Supervision/Timers.antt =====
-- crates/tymux-core/src/supervision.rs: `run_due`, the deadline that it returns, and a stop before it.
use tymux.Base.{
  ℕ, ◌+◌, ◌≤◌, ◌<◌, ◌≡◌, ◌⊎◌, ◌∙◌, inl, inr, refl, subst, sym, Bool, false, ◌||◌, Option, none,
  some, List, [], ◌∷◌, ok, err, arith, ◌==◌, Bool-cases, Option-cases, max,
}
use tymux.Restart.Policy.{Float64}
use tymux.Restart.{is_backoff, due, request_stop}
use tymux.Pane.{Killed, terminate}
use tymux.Base.Maps.{get, insert, IsKeyed, get-insert, insert-IsKeyed}
use tymux.Supervision.{Entry, Inner, SignalOutcome, EngineError, pane_not_found, pane_start}
use tymux.Supervision.Calls.{do_respawn, stop_entry}
use tymux.Supervision.Table.{
  update, touch, pending_at, earliest, not_before, next_deadline, is_ready, due_ids, run_ids,
  run_due, stop,
}

abbrev pub has : List ℕ → ℕ → Bool
has [] id = false
has (k ∷ rest) id = (k == id) || has rest id

-- There is a deadline, at most at `bound`.
abbrev pub IsBy : Option ℕ → ℕ → Type 0
IsBy none bound = ⊥
IsBy (some d) bound = d ≤ bound

-- A deadline, if there is one, lies after `now`.
abbrev pub IsAfter : Option ℕ → ℕ → Type 0
IsAfter none now = Unit {0}
IsAfter (some d) now = now < d

earliest-IsBy_left : (a b : Option ℕ) (bound : ℕ) → IsBy a bound → IsBy (earliest a b) bound
earliest-IsBy_left none b bound h = absurd h
earliest-IsBy_left (some x) none bound h = h
earliest-IsBy_left (some x) (some y) bound h = omega arith

earliest-IsBy_right : (a b : Option ℕ) (bound : ℕ) → IsBy b bound → IsBy (earliest a b) bound
earliest-IsBy_right none b bound h = h
earliest-IsBy_right (some x) none bound h = absurd h
earliest-IsBy_right (some x) (some y) bound h = omega arith

earliest-IsAfter :
    (a b : Option ℕ) (now : ℕ) → IsAfter a now → IsAfter b now → IsAfter (earliest a b) now
earliest-IsAfter none b now h k = k
earliest-IsAfter (some x) none now h k = h
earliest-IsAfter (some x) (some y) now h k = omega arith

not_before-IsAfter : (o : Option ℕ) (now : ℕ) → IsAfter (not_before now o) now
not_before-IsAfter none now = tt
not_before-IsAfter (some at) now = omega arith

module _ {F : Type 0} where
  next_deadline-IsBy :
      (entries : List (ℕ × Entry F)) (now id : ℕ) (e : Entry F) (at : ℕ)
      → get entries id ≡ some e
      → pending_at e.sup ≡ some at
      → IsBy (next_deadline entries now) (max at (now + 1))
  unfolding next_deadline
  next_deadline-IsBy [] now id e at h k = ground arith
  next_deadline-IsBy ((i, f) ∷ rest) now id e at h k = elim (Bool-cases (i == id)) [
    | inl m ↦
        earliest-IsBy_left (not_before now (pending_at f.sup)) (next_deadline rest now)
          (max at (now + 1)) (first f (ground (arith, m, h)))
    | inr m ↦
        earliest-IsBy_right (not_before now (pending_at f.sup)) (next_deadline rest now)
          (max at (now + 1)) (next_deadline-IsBy rest now id e at (ground (arith, m, h)) k)
  ]
    where
      first : (g : Entry F) → g ≡ e → IsBy (not_before now (pending_at g.sup)) (max at (now + 1))
      first g m =
          subst (λ (x : Entry F). IsBy (not_before now (pending_at x.sup)) (max at (now + 1)))
            (sym m)
            (subst (λ (o : Option ℕ). IsBy (not_before now o) (max at (now + 1))) (sym k)
              (omega arith))

  next_deadline-IsAfter :
      (entries : List (ℕ × Entry F)) (now : ℕ) → IsAfter (next_deadline entries now) now
  unfolding next_deadline
  next_deadline-IsAfter [] now = tt
  next_deadline-IsAfter ((i, f) ∷ rest) now =
      earliest-IsAfter (not_before now (pending_at f.sup)) (next_deadline rest now) now
        (not_before-IsAfter (pending_at f.sup) now) (next_deadline-IsAfter rest now)

  due_ids-get :
      (entries : List (ℕ × Entry F)) (now id : ℕ)
      → IsKeyed entries
      → get entries id ≡ none
      → has (due_ids entries now) id ≡ false
  unfolding due_ids
  due_ids-get [] now id v h = refl
  due_ids-get ((i, f) ∷ rest) now id v h = ground (arith, due_ids-get rest now id)

  due_ids-ready :
      (entries : List (ℕ × Entry F)) (now id : ℕ) (e : Entry F)
      → IsKeyed entries
      → get entries id ≡ some e
      → is_ready e now ≡ false
      → has (due_ids entries now) id ≡ false
  unfolding due_ids
  due_ids-ready [] now id e v h k = ground arith
  due_ids-ready ((i, f) ∷ rest) now id e v h k = elim (Bool-cases (i == id)) [
    | inl m ↦ ground (arith, m, due_ids-get rest now id)
    | inr m ↦ ground (arith, m, due_ids-ready rest now id e)
  ]

module _ (fl : Float64) where
  open fl use {F}

  run_ids-get :
      (inner : Inner F) (ids : List ℕ) (now : ℕ) (units : ℕ → F) (starts : ℕ → Option (Option ℕ))
      (id : ℕ)
      → has ids id ≡ false
      → get (run_ids fl inner ids now units starts).entries id ≡ get inner.entries id
  unfolding run_ids
  run_ids-get inner [] now units starts id h = refl
  run_ids-get inner (k ∷ ids) now units starts id h = elim (Option-cases (get inner.entries k)) [
    | inl m ↦ rw (run_ids, m) (run_ids-get inner ids now units starts id (ground arith))
    | inr (e, m) ↦
        let e' = (do_respawn fl e k now (units k) (is_backoff e.sup.state) (starts k)).0 in
        rw (run_ids, m)
          (run_ids-get (touch (update inner k e') k) ids now units starts id (ground arith)
            ∙ get-insert inner.entries k id e'
            ∙ ground arith)
  ]

  -- If a restart with a time is pending after `run_due`, it answers with a deadline, which lies after
  -- now and at most at the restart's time, or at the next millisecond if that is late.
  pub run_due-IsBy :
      (inner : Inner F) (now : ℕ) (units : ℕ → F) (starts : ℕ → Option (Option ℕ)) (id : ℕ)
      (e : Entry F) (at : ℕ)
      → let (after, deadline) = run_due fl inner now units starts in
        get after.entries id ≡ some e
        → pending_at e.sup ≡ some at
        → IsBy deadline (max at (now + 1)) × IsAfter deadline now
  unfolding run_due
  run_due-IsBy inner now units starts id e at h k =
      let after = run_ids fl inner (due_ids inner.entries now) now units starts in
      (next_deadline-IsBy after.entries now id e at h k, next_deadline-IsAfter after.entries now)

  -- `run_due` changes no entry that is not due or whose process has not exited.
  pub run_due-spares :
      (inner : Inner F) (now : ℕ) (units : ℕ → F) (starts : ℕ → Option (Option ℕ)) (id : ℕ)
      (e : Entry F)
      → IsKeyed inner.entries
      → get inner.entries id ≡ some e
      → is_ready e now ≡ false
      → get (run_due fl inner now units starts).0.entries id ≡ some e
  unfolding run_due
  run_due-spares inner now units starts id e v h k =
      run_ids-get inner (due_ids inner.entries now) now units starts id
        (due_ids-ready inner.entries now id e v h k)
      ∙ h

  stop_entry-halts :
      (e : Entry F) (id now now' : ℕ) (answer : Killed) (outcome : SignalOutcome)
      → (stop_entry fl e id now answer).1 ≡ ok outcome
      → is_ready (stop_entry fl e id now answer).0 now' ≡ false
  unfolding stop_entry request_stop is_ready due
  stop_entry-halts e id now now' answer outcome h = ground arith

  stop-stop_entry :
      (inner : Inner F) (id now : ℕ) (answer : Killed) (e : Entry F)
      → get inner.entries id ≡ some e
      → ((stop fl inner id now answer).0.entries
          ≡ insert inner.entries id (stop_entry fl e id now answer).0)
        × ((stop fl inner id now answer).1 ≡ (stop_entry fl e id now answer).1)
  unfolding stop
  stop-stop_entry inner id now answer e h = ground (arith, h)

  -- A stop that succeeds holds against the timers: in a table with one entry for each id, at any later
  -- time `run_due` leaves the entry as the stop left it.
  pub run_due-stop :
      (inner : Inner F) (id now now' : ℕ) (answer : Killed) (units : ℕ → F)
      (starts : ℕ → Option (Option ℕ)) (e : Entry F) (outcome : SignalOutcome)
      → IsKeyed inner.entries
      → get inner.entries id ≡ some e
      → (stop fl inner id now answer).1 ≡ ok outcome
      → get (run_due fl (stop fl inner id now answer).0 now' units starts).0.entries id
        ≡ some (stop_entry fl e id now answer).0
  run_due-stop inner id now now' answer units starts e outcome v h k =
      let (entries, result) = stop-stop_entry inner id now answer e h in
      let e' = (stop_entry fl e id now answer).0 in
      run_due-spares (stop fl inner id now answer).0 now' units starts id e'
        (subst (IsKeyed {V = Entry F}) (sym entries) (insert-IsKeyed inner.entries id e' v))
        (subst (λ t. get t id ≡ some e') (sym entries)
          (get-insert inner.entries id id e' ∙ ground arith))
        (stop_entry-halts e id now now' answer outcome (sym result ∙ k))

  stop_entry-error :
      (e : Entry F) (id now : ℕ) (answer : Killed) (x : EngineError F)
      → (stop_entry fl e id now answer).1 ≡ err x
      → (x ≡ pane_start id)
        × (answer ≡ Killed.refused)
        × ((stop_entry fl e id now answer).0.sup ≡ e.sup)
  unfolding stop_entry terminate
  stop_entry-error e id now answer x h = ground arith

  stop_unknown :
      (inner : Inner F) (id now : ℕ) (answer : Killed) (x : EngineError F)
      → get inner.entries id ≡ none
      → (stop fl inner id now answer).1 ≡ err x
      → (x ≡ pane_not_found id) × ((stop fl inner id now answer).0 ≡ inner)
  unfolding stop
  stop_unknown inner id now answer x k h = ground (arith, k)

  stop_refused :
      (inner : Inner F) (id now : ℕ) (answer : Killed) (x : EngineError F) (e : Entry F)
      → get inner.entries id ≡ some e
      → (stop_entry fl e id now answer).1 ≡ err x
      → (stop fl inner id now answer).0
        ≡ record inner { entries = insert inner.entries id (stop_entry fl e id now answer).0 }
  unfolding stop
  stop_refused inner id now answer x e k h = ground (arith, k, h)

  -- A stop that fails: the pane is unknown, and nothing changes; or the kernel refused the signal (that
  -- the process is gone already is no failure), and the supervisor of the entry is as it was, with every
  -- other entry and the ids to persist.
  pub stop-error :
      (inner : Inner F) (id now : ℕ) (answer : Killed) (x : EngineError F)
      → (stop fl inner id now answer).1 ≡ err x
      → ((get inner.entries id ≡ none)
          × (x ≡ pane_not_found id)
          × ((stop fl inner id now answer).0 ≡ inner))
        ⊎ ((e : Entry F) × (t : Entry F) × (get inner.entries id ≡ some e)
            × (x ≡ pane_start id)
            × (answer ≡ Killed.refused)
            × ((stop fl inner id now answer).0
                ≡ record inner { entries = insert inner.entries id t })
            × (t.sup ≡ e.sup))
  stop-error inner id now answer x h = elim (Option-cases (get inner.entries id)) [
    | inl k ↦ let (kind, same) = stop_unknown inner id now answer x k h in inl (k, kind, same)
    | inr (e, k) ↦
        let failed : (stop_entry fl e id now answer).1 ≡ err x =
          sym (stop-stop_entry inner id now answer e k).1 ∙ h in
        let (kind, denied, kept) = stop_entry-error e id now answer x failed in
        inr (
          e,
          (stop_entry fl e id now answer).0,
          k,
          kind,
          denied,
          stop_refused inner id now answer x e k failed,
          kept,
        )
  ]
