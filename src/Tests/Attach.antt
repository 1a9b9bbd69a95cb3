-- ===== src/Tests/Attach.antt =====
-- A run of an attached client that resumes.
use tymux.Base.{ℕ, ◌≡◌, refl, Bool, true, some, List, [], ◌∷◌, ◌++◌, length, replicate, arith}
use tymux.Replay.{Chunk, new, feed, push, replay_since, oldest_seq}
use tymux.Clients.{empty}
use tymux.Attach.{
  sent, Turn, prime, prime_resumed, attach, output_turn, heartbeat_turn, received, drain, live_loop,
  forward_step_for_output_result,
}
use tymux.Attach.Backlog.{bytes_of}
use tymux.Attach.Resuming.{quiet, chunk, beat, begins, payloads, attach_delivers}
use tymux.Replay.Window.{skip_to}

-- Three chunks before the client resumes from the first, and one after.
abbrev history : List Chunk
history = (1, 65 ∷ []) ∷ (2, 66 ∷ []) ∷ (3, 67 ∷ []) ∷ []

abbrev later : List Chunk
later = (4, 68 ∷ []) ∷ []

-- The client has subscribed before the third.
abbrev turns : List (Turn × Bool)
turns =
    (output_turn (received 3 (67 ∷ [])), true)
    ∷ (heartbeat_turn, true)
    ∷ (output_turn (received 4 (68 ∷ [])), true)
    ∷ []

attach_delivers_example :
    payloads ℕ
      (attach empty
        (some 1)
        (feed (new 100) history)
        3
        (9, 3)
        (replicate
          (length (prime {Screen = ℕ} (some 1) (feed (new 100) history) 3 (9, 3)).replay_chunks)
          sent)
        turns).0
    ≡ bytes_of (skip_to (begins ℕ (some 1) (feed (new 100) history) 3 3) (history ++ later))
attach_delivers_example =
    attach_delivers ℕ empty (some 1) 100 0 3 2 history later (9, 3) turns
      (omega arith, (omega arith, (omega arith, (omega arith, tt)))) (omega arith, tt) (omega arith)
      (omega arith) (chunk 3 (67 ∷ []) (beat (chunk 4 (68 ∷ []) quiet)))

-- It reads what it has missed, and no chunk twice.
resumed :
    payloads ℕ (attach empty (some 1) (feed (new 100) history) 3 (9, 3) (sent ∷ sent ∷ []) turns).0
    ≡ (66 ∷ []) ∷ (67 ∷ []) ∷ (68 ∷ []) ∷ []
unfolding payloads attach prime prime_resumed drain live_loop forward_step_for_output_result
    replay_since oldest_seq feed push new
resumed = refl
