-- ===== src/Attach.antt =====
-- crates/tymuxd/src/main.rs: the stream of an attached client: what it is primed with, and what its
-- forwarding task sends. A screen is opaque. Each turn of a loop is given with what `select!` found
-- ready, and with whether the client took what was sent; ids, logs and the heartbeat's clock are left
-- out.
pub mod Backlog
pub mod Resuming
use tymux.Base.{
  ℕ, ◌+◌, Bool, true, false, Option, none, some, List, [], ◌∷◌, ◌++◌, leb, if◌then◌else◌,
}
use tymux.Replay.{
  Chunk, ReplayBuffer, ReplayOutcome, in_window, gap_exceeded, replay_since, unwrap_or,
}
use tymux.Clients.{ClientRegistry, register, go_live_after, set_lagged, release}
use tymux.Pane.{LifecycleEvent}

pub data ResumeOutcome : Type 0 where
  resumed_from_buffer gap_exceeded_fallback no_resume_token_full_attach : ResumeOutcome

pub record ResumeOutcomeCounters : Type 0 where
  pub resumed : ℕ
  pub fallback : ℕ
  pub full : ℕ

-- `fetch_add` on the counter of the outcome.
unfoldable pub record_resume_outcome : ResumeOutcomeCounters → ResumeOutcome → ResumeOutcomeCounters
record_resume_outcome c resumed_from_buffer = record c { resumed = c.resumed + 1 }
record_resume_outcome c gap_exceeded_fallback = record c { fallback = c.fallback + 1 }
record_resume_outcome c no_resume_token_full_attach = record c { full = c.full + 1 }

pub data AttachEvent (Screen : Type 0) : Type 0 where
  output : List ℕ → AttachEvent Screen
  output_chunk : ℕ → List ℕ → AttachEvent Screen
  output_gap : AttachEvent Screen
  gap_exceeded_event : ℕ → AttachEvent Screen
  snapshot : Screen → AttachEvent Screen
  lifecycle : LifecycleEvent → AttachEvent Screen
  exited : Option ℕ → AttachEvent Screen
  heartbeat : AttachEvent Screen

-- What a broadcast receiver returns.
pub data Received : Type 0 where
  received : ℕ → List ℕ → Received
  lagged : ℕ → Received
  closed : Received

pub data ForwardStep (Screen : Type 0) : Type 0 where
  emit : AttachEvent Screen → ForwardStep Screen
  skip : ForwardStep Screen
  end : ForwardStep Screen

-- How the stream begins: its first events, the last sequence number that they cover, whether output
-- carries its number, and the chunks to send before live output.
pub record Priming (Screen : Type 0) : Type 0 where
  pub events : List (AttachEvent Screen)
  pub live_threshold_seq : ℕ
  pub emit_output_chunk : Bool
  pub replay_chunks : List Chunk
  pub outcome : ResumeOutcome

-- A turn of the loop that drains the replayed chunks: sent, refused by a client that is gone, or
-- overtaken by the pane's final exit, with its code.
pub data DrainTurn : Type 0 where
  sent : DrainTurn
  refused : DrainTurn
  final_exit : Option ℕ → DrainTurn

-- How the drain ends: the live loop follows, the task has returned, or it still waits.
pub data DrainEnd : Type 0 where
  follows returned waits : DrainEnd

pub data Turn : Type 0 where
  output_turn : Received → Turn
  lifecycle_turn : LifecycleEvent → Turn
  exit_turn : Option ℕ → Turn
  heartbeat_turn : Turn

abbrev pub note_lag : ClientRegistry → ℕ → Received → ClientRegistry
note_lag registry client (lagged n) = set_lagged registry client true
note_lag registry client (received seq bytes) = set_lagged registry client false
note_lag registry client closed = registry

module _ {Screen : Type 0} where
  unfoldable pub forward_step_for_output_result : Received → ℕ → Bool → ForwardStep Screen
  forward_step_for_output_result (received seq bytes) threshold_seq chunked =
      if leb seq threshold_seq
      then skip
      else if chunked
      then emit (output_chunk seq bytes)
      else emit (output bytes)
  forward_step_for_output_result (lagged n) threshold_seq chunked = emit output_gap
  forward_step_for_output_result closed threshold_seq chunked = end

  -- The answer of the replay buffer, and the screen with its sequence number if it is taken.
  unfoldable pub prime_resumed : ReplayOutcome → Screen × ℕ → Priming Screen
  prime_resumed (in_window chunks tail_seq) shot = record {
    events = [];
    live_threshold_seq = tail_seq;
    emit_output_chunk = true;
    replay_chunks = chunks;
    outcome = resumed_from_buffer;
  }
  prime_resumed (gap_exceeded oldest) shot = record {
    events = gap_exceeded_event (unwrap_or 0 oldest) ∷ snapshot shot.0 ∷ [];
    live_threshold_seq = shot.1;
    emit_output_chunk = true;
    replay_chunks = [];
    outcome = gap_exceeded_fallback;
  }

  -- `latest` is the pane's sequence number when the buffer is asked.
  unfoldable pub prime : Option ℕ → ReplayBuffer → ℕ → Screen × ℕ → Priming Screen
  unfolding prime_resumed
  prime (some seq) buf latest shot = prime_resumed (replay_since buf seq latest) shot
  prime none buf latest shot = record {
    events = snapshot shot.0 ∷ [];
    live_threshold_seq = shot.1;
    emit_output_chunk = false;
    replay_chunks = [];
    outcome = no_resume_token_full_attach;
  }

  unfoldable pub drain : List Chunk → List DrainTurn → List (AttachEvent Screen) × DrainEnd
  drain [] turns = ([], follows)
  drain (c ∷ rest) [] = ([], waits)
  drain ((seq, bytes) ∷ rest) (sent ∷ turns) =
      let (events, ending) = drain rest turns in (output_chunk seq bytes ∷ events, ending)
  drain (c ∷ rest) (refused ∷ turns) = ([], returned)
  drain (c ∷ rest) (final_exit code ∷ turns) = (exited code ∷ [], returned)

  -- The live loop, over turns that say whether the client takes what is sent. The client's slot is
  -- released when the task returns.
  unfoldable pub live_loop :
      ClientRegistry
      → ℕ
      → ℕ
      → Bool
      → List (Turn × Bool)
      → List (AttachEvent Screen) × ClientRegistry
  unfolding forward_step_for_output_result
  live_loop registry client threshold chunked [] = ([], registry)
  live_loop registry client threshold chunked ((output_turn result, taken) ∷ turns) =
      let noted = note_lag registry client result in
      let (events, after) = live_loop noted client threshold chunked turns in
      elim (forward_step_for_output_result result threshold chunked) [
        | emit event ↦ if taken then (event ∷ events, after) else ([], release noted client)
        | skip ↦ (events, after)
        | end ↦ ([], release noted client)
      ]
  live_loop registry client threshold chunked ((lifecycle_turn event, taken) ∷ turns) =
      let (events, after) = live_loop registry client threshold chunked turns in
      if taken then (lifecycle event ∷ events, after) else ([], release registry client)
  live_loop registry client threshold chunked ((exit_turn code, taken) ∷ turns) =
      (if taken then exited code ∷ [] else [], release registry client)
  live_loop registry client threshold chunked ((heartbeat_turn, taken) ∷ turns) =
      let (events, after) = live_loop registry client threshold chunked turns in
      if taken then (heartbeat ∷ events, after) else ([], release registry client)

  -- The whole stream of a client, from its registration on.
  unfoldable pub attach :
      ClientRegistry
      → Option ℕ
      → ReplayBuffer
      → ℕ
      → Screen × ℕ
      → List DrainTurn
      → List (Turn × Bool)
      → List (AttachEvent Screen) × ClientRegistry
  unfolding prime drain live_loop
  attach registry resume buf latest shot drains turns =
      let (registered, client) = register registry in
      let p = prime resume buf latest shot in
      let live = go_live_after registered client p.live_threshold_seq in
      let (replayed, ending) = drain p.replay_chunks drains in
      let (events, after) = live_loop live client p.live_threshold_seq p.emit_output_chunk turns in
      elim ending [
        | follows ↦ (p.events ++ (replayed ++ events), after)
        | returned ↦ (p.events ++ replayed, release live client)
        | waits ↦ (p.events ++ replayed, live)
      ]
