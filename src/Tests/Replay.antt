-- ===== src/Tests/Replay.antt =====
-- Runs of the replay buffer and of the shared budget.
use tymux.Base.{◌<◌, ◌≡◌, ◌≢◌, ◌↔◌, refl, some, List, [], ◌∷◌, ◌++◌, arith}
use tymux.Replay.{
  Chunk, ReplayBuffer, in_window, gap_exceeded, new, push, feed, oldest_seq, replay_since,
  global_replay_buffer_budget_bytes, allocate_replay_budget,
}
use tymux.Replay.Eviction.{Evicts, push-Evicts, push-retains}
use tymux.Replay.Window.{ReplaySpec, replay_since-ReplaySpec}
use tymux.Replay.Budget.{Pool, allocate, here, next, IsBounded, Reach-IsBounded}
use tymux.Replay.Race.{Shared, Turn, left_turn, right_turn, both_start, interleave, grant_race}

-- Three chunks of two bytes against a budget of five: the first is evicted.
abbrev output : List Chunk
output = (1, 97 ∷ 98 ∷ []) ∷ (2, 99 ∷ 100 ∷ []) ∷ (3, 101 ∷ 102 ∷ []) ∷ []

abbrev retained : ReplayBuffer
retained = record {
  entries = (2, 99 ∷ 100 ∷ []) ∷ (3, 101 ∷ 102 ∷ []) ∷ [];
  total_bytes = 4;
  budget_bytes = 5;
}

three_chunks : feed (new 5) output ≡ retained
unfolding feed new push
three_chunks = refl

resume_in_window : replay_since retained 2 3 ≡ in_window ((3, 101 ∷ 102 ∷ []) ∷ []) 3
unfolding replay_since
resume_in_window = refl

resume_too_old : replay_since retained 1 3 ≡ gap_exceeded (some 2)
unfolding replay_since
resume_too_old = refl

replay_since-ReplaySpec_example :
    ReplaySpec output
      (oldest_seq (feed (new 5) output))
      2
      3
      (replay_since (feed (new 5) output) 2 3)
replay_since-ReplaySpec_example = replay_since-ReplaySpec 5 0 output 2 3 (omega arith)

push-Evicts_example :
    Evicts
      (retained.entries ++ ((4, 103 ∷ 104 ∷ []) ∷ []))
      (push retained 4 (103 ∷ 104 ∷ [])).entries
      (push retained 4 (103 ∷ 104 ∷ [])).total_bytes
      5
push-Evicts_example = push-Evicts retained 4 (103 ∷ 104 ∷ []) refl

-- A pane that was granted nothing retains its last chunk.
push-retains_example :
    (older : List Chunk) × ((push (new 0) 7 (65 ∷ [])).entries ≡ older ++ ((7, 65 ∷ []) ∷ []))
unfolding new
push-retains_example = push-retains (new 0) 7 (65 ∷ []) refl

no_grant_in_window : replay_since (push (new 0) 7 (65 ∷ [])) 7 7 ≡ in_window [] 7
unfolding replay_since push new
no_grant_in_window = refl

abbrev one_pane : Pool
one_pane = record {
  used = (allocate_replay_budget 0).0;
  grants = (allocate_replay_budget 0).1 ∷ [];
}

Reach-IsBounded_example : IsBounded one_pane
Reach-IsBounded_example = Reach-IsBounded (next here allocate)

-- Both threads load, then both add.
abbrev raced : Shared
raced = interleave (both_start 67108000) (left_turn ∷ right_turn ∷ left_turn ∷ right_turn ∷ [])

grant_race_example :
    (global_replay_buffer_budget_bytes < raced.used) ↔ (◌≢◌ {A = Turn} left_turn right_turn)
grant_race_example =
    grant_race 67108000 left_turn right_turn (left_turn ∷ right_turn ∷ []) (omega arith)
      (omega arith) tt tt
