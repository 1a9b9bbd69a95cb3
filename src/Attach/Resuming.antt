-- ===== src/Attach/Resuming.antt =====
-- crates/tymuxd/src/main.rs: what an attached client reads, against all the output of the pane.
use tymux.Base.{
  ℕ, ◌≤◌, ◌≡◌, ◌∙◌, refl, ap, ap₂, inl, inr, Bool, true, false, Option, none, some, List, [], ◌∷◌,
  ◌++◌, leb, length, replicate, arith, Bool-cases,
}
use tymux.Replay.{
  Chunk, ReplayBuffer, ReplayOutcome, in_window, gap_exceeded, replay_since, new, feed, oldest_seq,
}
use tymux.Replay.Window.{
  Increasing, skip_to, ReplaySpec, future, evicted, nothing_retained, caught_up, served,
  replay_since-ReplaySpec,
}
use tymux.Attach.Backlog.{bytes_of, past, past-skip_to, Increasing-first, served_parts}
use tymux.Clients.{ClientRegistry, register, go_live_after}
use tymux.Pane.{LifecycleEvent}
use tymux.Attach.{
  AttachEvent, output, output_chunk, received, skip, emit, sent, follows, Turn, output_turn,
  lifecycle_turn, heartbeat_turn, note_lag, forward_step_for_output_result, prime, prime_resumed,
  drain, live_loop, attach,
}

-- A receiver that gets these chunks and never lags, among lifecycle events and heartbeats, with a client
-- that takes all that is sent.
pub data Live : List Chunk → List (Turn × Bool) → Type 0 where
  quiet : Live [] []
  chunk :
      (seq : ℕ) (bytes : List ℕ) {cs : List Chunk} {turns : List (Turn × Bool)}
      → Live cs turns
      → Live ((seq, bytes) ∷ cs) ((output_turn (received seq bytes), true) ∷ turns)
  event :
      (e : LifecycleEvent) {cs : List Chunk} {turns : List (Turn × Bool)}
      → Live cs turns
      → Live cs ((lifecycle_turn e, true) ∷ turns)
  beat :
      {cs : List Chunk} {turns : List (Turn × Bool)}
      → Live cs turns
      → Live cs ((heartbeat_turn, true) ∷ turns)

-- The sequence number behind which a client's output begins: the one that it resumes from, if the
-- replay buffer serves it, else that of its snapshot.
abbrev pub begins_after : ReplayOutcome → ℕ → ℕ → ℕ
begins_after (in_window chunks tail_seq) from shot_seq = from
begins_after (gap_exceeded oldest) from shot_seq = shot_seq

module _ (Screen : Type 0) where
  -- The output that the events of a stream carry, in either form.
  unfoldable pub payloads : List (AttachEvent Screen) → List (List ℕ)
  payloads [] = []
  payloads (output bytes ∷ rest) = bytes ∷ payloads rest
  payloads (output_chunk seq bytes ∷ rest) = bytes ∷ payloads rest
  payloads (e ∷ rest) = payloads rest

  payloads-append :
      (xs ys : List (AttachEvent Screen)) → payloads (xs ++ ys) ≡ payloads xs ++ payloads ys
  unfolding payloads
  payloads-append [] ys = refl
  payloads-append (output bytes ∷ xs) ys = ap (bytes ∷◌) (payloads-append xs ys)
  payloads-append (output_chunk seq bytes ∷ xs) ys = ap (bytes ∷◌) (payloads-append xs ys)
  payloads-append (_ ∷ xs) ys = payloads-append xs ys

  drain_sent :
      (cs : List Chunk)
      → (payloads (drain {Screen = Screen} cs (replicate (length cs) sent)).0 ≡ bytes_of cs)
        × ((drain {Screen = Screen} cs (replicate (length cs) sent)).1 ≡ follows)
  unfolding drain payloads
  drain_sent [] = (refl, refl)
  drain_sent ((seq, bytes) ∷ rest) =
      let (sent_all, ends) = drain_sent rest in (ap (bytes ∷◌) sent_all, ends)

  step_past :
      (seq t : ℕ) (bytes : List ℕ) (chunked : Bool)
      → leb seq t ≡ true
      → forward_step_for_output_result {Screen = Screen} (received seq bytes) t chunked ≡ skip
  unfolding forward_step_for_output_result
  step_past seq t bytes chunked h = ground (arith, h)

  step_new :
      (seq t : ℕ) (bytes : List ℕ) (chunked : Bool)
      → leb seq t ≡ false
      → (e : AttachEvent Screen) × (forward_step_for_output_result {Screen = Screen}
            (received seq bytes)
            t
            chunked
          ≡ emit e)
        × ((rest : List (AttachEvent Screen)) → payloads (e ∷ rest) ≡ bytes ∷ payloads rest)
  unfolding forward_step_for_output_result payloads
  step_new seq t bytes true h = (output_chunk seq bytes, ground (arith, h), λ rest. refl)
  step_new seq t bytes false h = (output bytes, ground (arith, h), λ rest. refl)

  live_loop-past :
      (registry : ClientRegistry) (client threshold : ℕ) (chunked : Bool) {cs : List Chunk}
      {turns : List (Turn × Bool)}
      → Live cs turns
      → payloads (live_loop {Screen = Screen} registry client threshold chunked turns).0
        ≡ bytes_of (past threshold cs)
  unfolding live_loop payloads
  live_loop-past registry client threshold chunked quiet = refl
  live_loop-past registry client threshold chunked (chunk seq bytes rest) =
      let noted = note_lag registry client (received seq bytes) in
      let ih = live_loop-past noted client threshold chunked rest in
      elim (Bool-cases (leb seq threshold)) [
        | inl e ↦ rw (live_loop, step_past seq threshold bytes chunked e, e) ih
        | inr e ↦
            let (sent_event, step, carried) = step_new seq threshold bytes chunked e in
            rw (live_loop, step, e) (carried _ ∙ ap (bytes ∷◌) ih)
      ]
  live_loop-past registry client threshold chunked (event e rest) =
      live_loop-past registry client threshold chunked rest
  live_loop-past registry client threshold chunked (beat rest) =
      live_loop-past registry client threshold chunked rest

  stream_parts :
      (events replayed live : List (AttachEvent Screen))
      → payloads (events ++ (replayed ++ live))
        ≡ payloads events ++ (payloads replayed ++ payloads live)
  stream_parts events replayed live =
      payloads-append events (replayed ++ live)
      ∙ ap (payloads events ++◌) (payloads-append replayed live)

  attach-parts :
      (registry : ClientRegistry) (resume : Option ℕ) (buf : ReplayBuffer) (latest : ℕ)
      (shot : Screen × ℕ) {cs : List Chunk} {turns : List (Turn × Bool)}
      → Live cs turns
      → let p = prime resume buf latest shot in
        payloads
          (attach registry resume buf latest shot (replicate (length p.replay_chunks) sent) turns).0
        ≡ payloads p.events ++ (bytes_of p.replay_chunks ++ bytes_of (past p.live_threshold_seq cs))
  unfolding attach
  attach-parts registry resume buf latest shot turns_live =
      let p = prime resume buf latest shot in
      let (registered, client) = register registry in
      let live = go_live_after registered client p.live_threshold_seq in
      let (all_sent, ends) = drain_sent p.replay_chunks in
      let forwarded =
        live_loop-past live client p.live_threshold_seq p.emit_output_chunk turns_live in
      rw (attach, ends)
        (stream_parts p.events _ _
          ∙ ap (payloads p.events ++◌) (ap₂ (λ x y. x ++ y) all_sent forwarded))

  -- Where the output of a client begins, by what it asks for and what the replay buffer answers.
  abbrev pub begins : Option ℕ → ReplayBuffer → ℕ → ℕ → ℕ
  begins none buf latest shot_seq = shot_seq
  begins (some from) buf latest shot_seq = begins_after (replay_since buf from latest) from shot_seq

  resumed_parts :
      (low from latest start : ℕ) (history later : List Chunk) (oldest : Option ℕ)
      (shot : Screen × ℕ) (r : ReplayOutcome)
      → ReplaySpec history oldest from latest r
      → Increasing low (history ++ later)
      → Increasing latest later
      → start ≤ latest
      → start ≤ shot.1
      → let p = prime_resumed r shot in
        payloads p.events
          ++ (bytes_of p.replay_chunks
              ++ bytes_of (past p.live_threshold_seq (skip_to start (history ++ later))))
        ≡ bytes_of (skip_to (begins_after r from shot.1) (history ++ later))
  unfolding prime_resumed payloads
  resumed_parts low from latest start history later oldest shot _ (future _) h k l m =
      ap bytes_of (past-skip_to low start shot.1 (history ++ later) h m)
  resumed_parts low from latest start history later oldest shot _ (evicted _ _ _ _) h k l m =
      ap bytes_of (past-skip_to low start shot.1 (history ++ later) h m)
  resumed_parts low from latest start history later oldest shot _ (nothing_retained _ _) h k l m =
      ap bytes_of (past-skip_to low start shot.1 (history ++ later) h m)
  resumed_parts low from latest start history later oldest shot _ (caught_up _ e) h k l m =
      served_parts low from latest start history later h k l (rw e (omega arith))
  resumed_parts low from latest start history later oldest shot _ (served _ _ _ e) h k l m =
      served_parts low from latest start history later h k l e

  -- Whatever a client asks for, the output that it reads is the output of the pane from one point on,
  -- each chunk once and in order: from the number that it resumes from, if the replay buffer has all
  -- that it misses, else from its snapshot. Chunks that are both replayed and broadcast are sent once,
  -- however early the client has subscribed, if no output that comes after the replay buffer is asked
  -- has a number that it had then. This is for a client that keeps up, takes all that is sent, and whose
  -- pane does not exit meanwhile; lifecycle events and heartbeats may come in between.
  pub attach_delivers :
      (registry : ClientRegistry) (resume : Option ℕ) (budget low latest start : ℕ)
      (history later : List Chunk) (shot : Screen × ℕ) (turns : List (Turn × Bool))
      → Increasing low (history ++ later)
      → Increasing latest later
      → start ≤ latest
      → start ≤ shot.1
      → Live (skip_to start (history ++ later)) turns
      → let buf = feed (new budget) history in
        let p = prime resume buf latest shot in
        payloads
          (attach registry resume buf latest shot (replicate (length p.replay_chunks) sent) turns).0
        ≡ bytes_of (skip_to (begins resume buf latest shot.1) (history ++ later))
  unfolding prime payloads
  attach_delivers registry none budget low latest start history later shot turns h k l m live =
      attach-parts registry none (feed (new budget) history) latest shot live
      ∙ ap bytes_of (past-skip_to low start shot.1 (history ++ later) h m)
  attach_delivers registry (some from) budget low latest start history later shot turns h k l m
        live =
      let buf = feed (new budget) history in
      attach-parts registry (some from) buf latest shot live
      ∙ resumed_parts low from latest start history later (oldest_seq buf) shot
          (replay_since buf from latest)
          (replay_since-ReplaySpec budget low history from latest
            (Increasing-first low history later h))
          h k l m
