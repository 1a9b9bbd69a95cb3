-- ===== src/Replay.antt =====
-- crates/tymux-core/src/replay_buffer.rs: the bounded log of recent output chunks of a pane, and
-- the budget that all panes share. A chunk is its sequence number and its bytes. Byte counts are
-- those of memory that is held, so their sums do not wrap.
pub mod Eviction
pub mod Window
pub mod Budget
pub mod Race
use tymux.Base.{
  ℕ, ◌+◌, ◌-◌, ◌*◌, Bool, ◌&&◌, Option, none, some, List, [], ◌∷◌, ◌++◌, ltb, leb, if◌then◌else◌,
  length, min,
}

abbrev pub default_replay_buffer_bytes : ℕ
default_replay_buffer_bytes = 262144

abbrev pub global_replay_buffer_budget_bytes : ℕ
global_replay_buffer_budget_bytes = 67108864

abbrev pub Chunk : Type 0
Chunk = ℕ × List ℕ

pub data ReplayOutcome : Type 0 where
  in_window : List Chunk → ℕ → ReplayOutcome
  gap_exceeded : Option ℕ → ReplayOutcome

pub record ReplayBuffer : Type 0 where
  pub entries : List Chunk
  pub total_bytes : ℕ
  pub budget_bytes : ℕ

unfoldable pub new : ℕ → ReplayBuffer
new budget = record { entries = []; total_bytes = 0; budget_bytes = budget }

-- The loop of `push`: what is left, and its bytes.
pub evict : List Chunk → ℕ → ℕ → List Chunk × ℕ
evict [] total budget = ([], total)
evict ((seq, bytes) ∷ rest) total budget =
    let evicted = evict rest (total - length bytes) budget in
    if ltb budget total && ltb 1 (length ((seq, bytes) ∷ rest))
    then evicted
    else ((seq, bytes) ∷ rest, total)

unfoldable pub push : ReplayBuffer → ℕ → List ℕ → ReplayBuffer
unfolding evict
push buf seq bytes =
    let (left, total) =
      evict (buf.entries ++ ((seq, bytes) ∷ [])) (buf.total_bytes + length bytes)
        buf.budget_bytes in
    record buf { entries = left; total_bytes = total }

abbrev pub first_seq : List Chunk → Option ℕ
first_seq [] = none
first_seq ((seq, bytes) ∷ rest) = some seq

unfoldable pub oldest_seq : ReplayBuffer → Option ℕ
oldest_seq buf = first_seq buf.entries

-- The chunks past `from`, up to `latest`.
abbrev pub window : ℕ → ℕ → List Chunk → List Chunk
window from latest [] = []
window from latest ((seq, bytes) ∷ rest) =
    if ltb from seq && leb seq latest
    then (seq, bytes) ∷ window from latest rest
    else window from latest rest

abbrev pub unwrap_or : ℕ → Option ℕ → ℕ
unwrap_or d none = d
unwrap_or d (some n) = n

unfoldable pub replay_since : ReplayBuffer → ℕ → ℕ → ReplayOutcome
unfolding oldest_seq
replay_since buf resume_from_seq latest_seq =
    if ltb latest_seq resume_from_seq
    then gap_exceeded (oldest_seq buf)
    else if leb (unwrap_or latest_seq (oldest_seq buf)) resume_from_seq
    then in_window (window resume_from_seq latest_seq buf.entries) latest_seq
    else gap_exceeded (oldest_seq buf)

-- The buffer after a list of pushes.
unfoldable pub feed : ReplayBuffer → List Chunk → ReplayBuffer
feed buf [] = buf
feed buf ((seq, bytes) ∷ rest) = feed (push buf seq bytes) rest

-- The grant that `allocate_replay_budget` computes from the count that it has loaded.
unfoldable pub grant : ℕ → ℕ
grant used = min default_replay_buffer_bytes (global_replay_buffer_budget_bytes - used)

-- `allocate_replay_budget` with no other thread between its load and its add: the new count and
-- the grant.
unfoldable pub allocate_replay_budget : ℕ → ℕ × ℕ
unfolding grant
allocate_replay_budget used = (used + grant used, grant used)

unfoldable pub release_replay_budget : ℕ → ℕ → ℕ
release_replay_budget used bytes = used - bytes
