-- ===== src/Replay/Window.antt =====
-- crates/tymux-core/src/replay_buffer.rs: `replay_since` against all the output of the pane.
use tymux.Base.{
  ℕ, ◌≤◌, ◌<◌, ◌≡◌, refl, sym, ap, ◌∙◌, subst, inl, inr, Option, none, some, List, [], ◌∷◌, ◌++◌,
  arith, ltb, leb, if◌then◌else◌, Bool-cases,
}
use tymux.Replay.{
  Chunk, ReplayOutcome, in_window, gap_exceeded, first_seq, oldest_seq, window, replay_since, new,
  feed,
}
use tymux.Replay.Eviction.{new-IsValid, feed-suffix}

-- The sequence numbers grow along the list, from above `low`.
abbrev pub Increasing : ℕ → List Chunk → Type 0
Increasing low [] = Unit {0}
Increasing low ((seq, bytes) ∷ rest) = (low < seq) × Increasing seq rest

window_past : (from latest : ℕ) (xs : List Chunk) → latest ≤ from → window from latest xs ≡ []
window_past from latest [] h = refl
window_past from latest ((seq, bytes) ∷ rest) h = ground (arith, window_past from latest rest)

Increasing-lt :
    (low : ℕ) (dropped : List Chunk) (seq : ℕ) (bytes : List ℕ) (rest : List Chunk)
    → Increasing low (dropped ++ ((seq, bytes) ∷ rest))
    → low < seq
Increasing-lt low [] seq bytes rest h = h.0
Increasing-lt low ((s, b) ∷ dropped) seq bytes rest h =
    omega (arith, Increasing-lt s dropped seq bytes rest h.1)

window_dropped :
    (low from latest : ℕ) (dropped : List Chunk) (seq : ℕ) (bytes : List ℕ) (rest : List Chunk)
    → Increasing low (dropped ++ ((seq, bytes) ∷ rest))
    → seq ≤ from
    → window from latest (dropped ++ ((seq, bytes) ∷ rest))
      ≡ window from latest ((seq, bytes) ∷ rest)
window_dropped low from latest [] seq bytes rest h k = refl
window_dropped low from latest ((s, b) ∷ dropped) seq bytes rest h k = ground (
  arith,
  Increasing-lt s dropped seq bytes rest h.1,
  window_dropped s from latest dropped seq bytes rest h.1 k,
)

-- The history past `from`, and of that the part up to `latest`.
abbrev pub skip_to : ℕ → List Chunk → List Chunk
skip_to from [] = []
skip_to from ((seq, bytes) ∷ rest) = if leb seq from then skip_to from rest else (seq, bytes) ∷ rest

abbrev pub take_to : ℕ → List Chunk → List Chunk
take_to latest [] = []
take_to latest ((seq, bytes) ∷ rest) =
    if leb seq latest then (seq, bytes) ∷ take_to latest rest else []

-- The segment of the history that a client misses.
abbrev pub missed : ℕ → ℕ → List Chunk → List Chunk
missed from latest history = take_to latest (skip_to from history)

window_after :
    (from latest low : ℕ) (xs : List Chunk)
    → Increasing low xs
    → latest ≤ low
    → window from latest xs ≡ []
window_after from latest low [] h k = refl
window_after from latest low ((seq, bytes) ∷ rest) h k =
    ground (arith, window_after from latest seq rest h.1)

window_take :
    (from latest low : ℕ) (xs : List Chunk)
    → Increasing low xs
    → from ≤ low
    → window from latest xs ≡ take_to latest xs
window_take from latest low [] h k = refl
window_take from latest low ((seq, bytes) ∷ rest) h k =
    ground (arith, window_take from latest seq rest h.1, window_after from latest seq rest h.1)

-- On a history whose sequence numbers grow, the filter of `replay_since` is the segment.
window-eq-missed :
    (from latest low : ℕ) (xs : List Chunk)
    → Increasing low xs
    → window from latest xs ≡ missed from latest xs
window-eq-missed from latest low [] h = refl
window-eq-missed from latest low ((seq, bytes) ∷ rest) h = ground (
  arith,
  window-eq-missed from latest seq rest h.1,
  window_take from latest seq rest h.1,
  window_after from latest seq rest h.1,
)

-- What a client that has everything up to `from` is told, where `history` is all the output.
pub data ReplaySpec (history : List Chunk) (oldest : Option ℕ) (from latest : ℕ)
    : ReplayOutcome → Type 0 where
  future : latest < from → ReplaySpec history oldest from latest (gap_exceeded oldest)
  evicted :
      (seq : ℕ)
      → oldest ≡ some seq
      → from ≤ latest
      → from < seq
      → ReplaySpec history oldest from latest (gap_exceeded oldest)
  nothing_retained :
      oldest ≡ none → from < latest → ReplaySpec history oldest from latest (gap_exceeded oldest)
  caught_up :
      oldest ≡ none
      → from ≡ latest
      → ReplaySpec history oldest from latest (in_window (missed from latest history) latest)
  served :
      (seq : ℕ)
      → oldest ≡ some seq
      → seq ≤ from
      → from ≤ latest
      → ReplaySpec history oldest from latest (in_window (missed from latest history) latest)

entries-ReplaySpec :
    (history dropped entries : List Chunk) (total budget low from latest : ℕ)
    → history ≡ dropped ++ entries
    → Increasing low history
    → ReplaySpec history (first_seq entries) from latest (
        replay_since
          (record { entries = entries; total_bytes = total; budget_bytes = budget })
          from
          latest)
unfolding replay_since
entries-ReplaySpec history dropped [] total budget low from latest e h =
    elim (Bool-cases (ltb latest from)) [
      | inl late ↦ rw late (future (ground arith))
      | inr soon ↦ elim (Bool-cases (leb latest from)) [
        | inl at ↦ rw (soon, at, ← past (ground arith)) (caught_up refl (ground arith))
        | inr before ↦ rw (soon, before) (nothing_retained refl (ground arith))
      ]
    ]
  where
    past : latest ≤ from → missed from latest history ≡ []
    past k = sym (window-eq-missed from latest low history h) ∙ window_past from latest history k
entries-ReplaySpec history dropped ((seq, bytes) ∷ rest) total budget low from latest e h =
    elim (Bool-cases (ltb latest from)) [
      | inl late ↦ rw late (future (ground arith))
      | inr soon ↦ elim (Bool-cases (leb seq from)) [
        | inl at ↦
            rw (soon, at, ← same (ground arith)) (served seq refl (ground arith) (ground arith))
        | inr before ↦ rw (soon, before) (evicted seq refl (ground arith) (ground arith))
      ]
    ]
  where
    same : seq ≤ from → missed from latest history ≡ window from latest ((seq, bytes) ∷ rest)
    same k =
        sym (window-eq-missed from latest low history h)
        ∙ ap (window from latest) e
        ∙ window_dropped low from latest dropped seq bytes rest (subst (Increasing low) e h) k

-- A buffer that was given all of `history`, whose sequence numbers grow, answers a resuming client
-- as `ReplaySpec` says: with every chunk of the whole history that the client misses, up to
-- `latest`, and nothing else; or with a gap, exactly when the client is ahead of `latest`, when
-- the oldest chunk retained is newer than what it has, or when nothing is retained and it is
-- behind.
pub replay_since-ReplaySpec :
    (budget low : ℕ) (history : List Chunk) (from latest : ℕ)
    → Increasing low history
    → ReplaySpec history
        (oldest_seq (feed (new budget) history))
        from
        latest
        (replay_since (feed (new budget) history) from latest)
unfolding oldest_seq
replay_since-ReplaySpec budget low history from latest h =
    let (dropped, e) = feed-suffix (new budget) history (new-IsValid budget) in
    let buf = feed (new budget) history in
    entries-ReplaySpec history dropped buf.entries buf.total_bytes buf.budget_bytes low from latest
      (unfold new in e) h
