-- ===== src/Queries/Outbox.antt =====
-- crates/tymux-core/src/terminal_query/outbox.rs: the bounded queue of replies. The lock makes each
-- call one step; `f64` and the seconds of a duration are parameters.
use tymux.Base.Bytes.{Bytes, bytes_eq, bytes_eq_comm}
use tymux.Base.{
  ℕ, ◌+◌, ◌-◌, ◌%◌, ◌^◌, ◌≤◌, ◌≡◌, refl, Bool, true, false, not, ◌||◌, List, [], ◌∷◌, ◌++◌, ◌==◌,
  leb, if◌then◌else◌, length, arith, length-append, Bool-cases, inl, inr,
}
use tymux.Restart.Policy.{Float64}

abbrev pub max_pending : ℕ
max_pending = 32

abbrev pub contains : List Bytes → Bytes → Bool
contains [] reply = false
contains (q ∷ rest) reply = bytes_eq q reply || contains rest reply

abbrev pub pop_front : List Bytes → List Bytes
pop_front [] = []
pop_front (q ∷ rest) = rest

abbrev pub Distinct : List Bytes → Type 0
Distinct [] = Unit {0}
Distinct (q ∷ rest) = (contains rest q ≡ false) × Distinct rest

contains-snoc :
    (queue : List Bytes) (reply other : Bytes)
    → contains (queue ++ (reply ∷ [])) other ≡ contains queue other || bytes_eq reply other
contains-snoc [] reply other = ground arith
contains-snoc (q ∷ queue) reply other = ground (arith, contains-snoc queue reply other)

Distinct-snoc :
    (queue : List Bytes) (reply : Bytes)
    → Distinct queue
    → contains queue reply ≡ false
    → Distinct (queue ++ (reply ∷ []))
Distinct-snoc [] reply v h = (refl, tt)
Distinct-snoc (q ∷ queue) reply v h =
    ground (arith, contains-snoc queue reply q, bytes_eq_comm q reply, Distinct-snoc queue reply)

-- The queue with room for one more, and the reply in it.
abbrev pub make_room : List Bytes → List Bytes
make_room queue = if leb max_pending (length queue) then pop_front queue else queue

make_room_bounded :
    (queue : List Bytes) (reply : Bytes)
    → length queue ≤ max_pending
    → length (make_room queue ++ (reply ∷ [])) ≤ max_pending
make_room_bounded [] reply h = omega arith
make_room_bounded (q ∷ queue) reply h =
    ground (arith, length-append (q ∷ queue) (reply ∷ []), length-append queue (reply ∷ []))

make_room-Distinct :
    (queue : List Bytes) (reply : Bytes)
    → Distinct queue
    → contains queue reply ≡ false
    → Distinct (make_room queue ++ (reply ∷ []))
make_room-Distinct [] reply v h = (refl, tt)
make_room-Distinct (q ∷ queue) reply v h =
    ground (arith, Distinct-snoc (q ∷ queue) reply v h, Distinct-snoc queue reply)

-- The shared state; `has_writer` holds until the drain thread is started.
pub record State (F : Type 0) : Type 0 where
  pub queue : List Bytes
  pub tokens : F
  pub last : ℕ
  pub closed : Bool
  pub has_writer : Bool
  pub generation : ℕ
  pub accepted : ℕ

module _ (fl : Float64) (as_secs : ℕ → fl.F) where
  open fl use {F, of_u64, add, sub, mul, fmin, lt}

  abbrev pub rate_burst : F
  rate_burst = of_u64 16

  abbrev pub rate_refill_per_sec : F
  rate_refill_per_sec = of_u64 8

  unfoldable pub new_outbox : ℕ → State F
  new_outbox now = record {
    queue = [];
    tokens = rate_burst;
    last = now;
    closed = false;
    has_writer = true;
    generation = 0;
    accepted = 0;
  }

  -- `spawned` tells whether the drain thread could be started, where it is needed.
  unfoldable pub offer : State F → Bytes → ℕ → Bool → State F
  offer st reply now spawned =
      let tokens =
        fmin (add st.tokens (mul (as_secs (now - st.last)) rate_refill_per_sec)) rate_burst in
      if st.closed || contains st.queue reply
      then st
      else if lt tokens (of_u64 1)
      then record st { last = now; tokens = tokens }
      else record st {
        last = now;
        tokens = sub tokens (of_u64 1);
        queue = make_room st.queue ++ (reply ∷ []);
        accepted = (st.accepted + 1) % 2 ^ 64;
        has_writer = false;
        closed = if st.has_writer then not spawned else st.closed;
      }

  unfoldable pub rearm : State F → ℕ → State F
  rearm st now = record st {
    generation = (st.generation + 1) % 2 ^ 64;
    closed = false;
    queue = [];
    tokens = rate_burst;
    last = now;
    has_writer = true;
  }

  unfoldable pub close : State F → State F
  close st = record st { closed = true }

  pub data Drained : Type 0 where
    finished waiting : Drained
    wrote : Bytes → Drained

  -- One round of the drain thread of a generation.
  unfoldable pub drain : State F → ℕ → State F × Drained
  drain st generation =
      if st.closed || not (st.generation == generation) then (st, finished) else elim st.queue [
        | [] ↦ (st, waiting)
        | reply ∷ rest ↦ (record st { queue = rest }, wrote reply)
      ]

  pub data Op : Type 0 where
    offers : Bytes → ℕ → Bool → Op
    rearms : ℕ → Op
    closes : Op
    drains : ℕ → Op

  abbrev pub apply : State F → Op → State F
  apply st (offers reply now spawned) = offer st reply now spawned
  apply st (rearms now) = rearm st now
  apply st closes = close st
  apply st (drains generation) = (drain st generation).0

  abbrev pub run : State F → List Op → State F
  run st [] = st
  run st (op ∷ rest) = run (apply st op) rest

  pub record IsBounded (st : State F) : Type 0 where
    pub bounded : length st.queue ≤ max_pending
    pub distinct : Distinct st.queue

  apply-IsBounded : (st : State F) (op : Op) → IsBounded st → IsBounded (apply st op)
  unfolding offer rearm close drain
  apply-IsBounded st (offers reply now spawned) v = elim (Bool-cases (contains st.queue reply)) [
    | inl k ↦ ground (arith, k)
    | inr k ↦ ground (
      arith,
      k,
      make_room_bounded st.queue reply v.bounded,
      make_room-Distinct st.queue reply v.distinct k,
    )
  ]
  apply-IsBounded st (rearms now) v = ground arith
  apply-IsBounded st closes v = ground arith
  apply-IsBounded st (drains generation) v = ground arith

  run-IsBounded_from : (st : State F) (ops : List Op) → IsBounded st → IsBounded (run st ops)
  run-IsBounded_from st [] v = v
  run-IsBounded_from st (op ∷ rest) v =
      run-IsBounded_from (apply st op) rest (apply-IsBounded st op v)

  -- Whatever is offered, drained, closed and rearmed, at most 32 replies are pending, all different.
  pub run-IsBounded : (now : ℕ) (ops : List Op) → IsBounded (run (new_outbox now) ops)
  unfolding new_outbox
  run-IsBounded now ops = run-IsBounded_from (new_outbox now) ops (ground arith)
