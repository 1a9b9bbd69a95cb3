-- ===== src/Health/Accepting.antt =====
-- crates/tymuxd/src/listener_health.rs: when the accept loop gives a listener up.
use tymux.Base.{
  ℕ, suc, ◌+◌, ◌*◌, ◌≤◌, ◌<◌, ◌≡◌, refl, ◌⊎◌, inl, inr, false, Option, none, some, List, [], ◌∷◌,
  leb, if◌then◌else◌, arith, length, ◌∙◌,
}
use tymux.Health.{
  Errno, classify_accept_error, is_fatal, AcceptErrorLimiter, admit, accept_backoff_start,
  accept_backoff_max, accept_persistent_error_limit, AcceptState, dead, retry_after, error, conn,
  on_error, accept_round,
}

-- A listener that has only failed since `since`, last at `last`.
pub record IsFailing (st : AcceptState) (since last : ℕ) : Type 0 where
  pub started : st.failing_since ≡ some since
  pub latest : st.last_error ≡ some last
  pub paused : (accept_backoff_start ≤ st.backoff) × (st.backoff ≤ accept_backoff_max)

-- An error that is not fatal, at most two seconds after the one before: it is swallowed with a pause
-- of at most a second while the streak is shorter than two minutes, and given up from then on.
accept_round-streak :
    (st : AcceptState) (since last now : ℕ) (e : Option Errno)
    → IsFailing st since last
    → is_fatal (classify_accept_error e) ≡ false
    → now ≤ last + accept_backoff_max * 2
    → let (st', yield) = accept_round st now (error e) in
      ((since + accept_persistent_error_limit ≤ now) × (yield ≡ dead e))
      ⊎ ((now < since + accept_persistent_error_limit)
          × (yield ≡ retry_after st.backoff)
          × IsFailing st' since now)
unfolding accept_round on_error
accept_round-streak st since last now e v h k = ground arith

-- The time at which the loop gives the listener up, over a list of errors and their times.
pub given_up_at : AcceptState → List (ℕ × Option Errno) → Option ℕ
given_up_at st [] = none
given_up_at st ((now, e) ∷ rest) =
    let (st', yield) = accept_round st now (error e) in
    let later = given_up_at st' rest in elim yield [ dead _ ↦ some now | _ ↦ later ]

abbrev pub first_from : ℕ → List (ℕ × Option Errno) → Option ℕ
first_from bound [] = none
first_from bound ((now, e) ∷ rest) = if leb bound now then some now else first_from bound rest

-- Errors that are not fatal, each at most two seconds after the one before.
abbrev pub Streak : ℕ → List (ℕ × Option Errno) → Type 0
Streak last [] = Unit {0}
Streak last ((now, e) ∷ rest) =
    (is_fatal (classify_accept_error e) ≡ false)
    × (now ≤ last + accept_backoff_max * 2)
    × Streak now rest

-- A listener that has failed since `since` and goes on failing, with errors that are not fatal and at
-- most two seconds apart, is given up at the first error that comes two minutes or more after
-- `since`, and at none before.
pub given_up_at-eq :
    (st : AcceptState) (since last : ℕ) (errors : List (ℕ × Option Errno))
    → IsFailing st since last
    → Streak last errors
    → given_up_at st errors ≡ first_from (since + accept_persistent_error_limit) errors
unfolding given_up_at
given_up_at-eq st since last [] v h = refl
given_up_at-eq st since last ((now, e) ∷ rest) v h =
    elim (accept_round-streak st since last now e v h.0 h.1) [
      | inl (late, y) ↦ rw (y, given_up_at) (ground arith)
      | inr (early, y, v') ↦
          rw (y, given_up_at)
            (given_up_at-eq (accept_round st now (error e)).0 since now rest v' h.2 ∙ ground arith)
    ]

-- The first error after a connection, if it is not fatal, starts a streak at its time and pauses for
-- the first backoff.
pub accept_round-first :
    (st : AcceptState) (now connected_at : ℕ) (e : Option Errno)
    → is_fatal (classify_accept_error e) ≡ false
    → let (st', yield) = accept_round (accept_round st connected_at conn).0 now (error e) in
      (yield ≡ retry_after accept_backoff_start) × IsFailing st' now now
unfolding accept_round on_error
accept_round-first st now connected_at e h = ground arith

-- The errors that one admitted log line accounts for: itself and those suppressed before it.
abbrev pub accounted : Option ℕ → ℕ
accounted none = 0
accounted (some suppressed) = suc suppressed

-- The limiter over the times of a list of errors, and all that its log lines account for.
pub admit_all : AcceptErrorLimiter → List ℕ → AcceptErrorLimiter × ℕ
admit_all l [] = (l, 0)
admit_all l (now ∷ rest) =
    let (l', line) = admit l now in
    let (end_state, total) = admit_all l' rest in (end_state, accounted line + total)

-- No accept error is lost from the log: over any errors, the log lines account for all of them and
-- for those suppressed before, but for those that are still suppressed at the end.
pub admit_all-accounts :
    (l : AcceptErrorLimiter) (times : List ℕ)
    → (admit_all l times).1 + (admit_all l times).0.suppressed ≡ l.suppressed + length times
unfolding admit_all admit
admit_all-accounts l [] = omega arith
admit_all-accounts l (now ∷ rest) = ground (arith, admit_all-accounts (admit l now).0 rest)
