-- ===== src/Replay/Race.antt =====
-- crates/tymux-core/src/replay_buffer.rs: two threads in `allocate_replay_budget` at the same time, one
-- atomic operation of one thread in each turn.
use tymux.Base.{ℕ, ◌+◌, ◌*◌, ◌<◌, ◌≡◌, ◌≢◌, ◌↔◌, ◌∙◌, refl, List, [], ◌∷◌, arith}
use tymux.Replay.{default_replay_buffer_bytes, global_replay_buffer_budget_bytes, grant}

-- Where a thread is: before its load, between the load and the add with the grant that it has computed,
-- and behind the add.
pub data Thread : Type 0 where
  starting : Thread
  loaded granted : ℕ → Thread

-- The shared counter and the two threads.
pub record Shared : Type 0 where
  pub used : ℕ
  pub left : Thread
  pub right : Thread

pub data Turn : Type 0 where
  left_turn right_turn : Turn

-- The next operation of a thread on the counter: `load`, then `fetch_add`.
abbrev pub advance : ℕ → Thread → ℕ × Thread
advance used starting = (used, loaded (grant used))
advance used (loaded g) = (used + g, granted g)
advance used (granted g) = (used, granted g)

abbrev pub take_turn : Shared → Turn → Shared
take_turn s left_turn = let (used, t) = advance s.used s.left in record s { used = used; left = t }
take_turn s right_turn =
    let (used, t) = advance s.used s.right in record s { used = used; right = t }

abbrev pub interleave : Shared → List Turn → Shared
interleave s [] = s
interleave s (t ∷ ts) = interleave (take_turn s t) ts

abbrev pub both_start : ℕ → Shared
both_start used = record { used = used; left = starting; right = starting }

abbrev pub HasGrant : Thread → Type 0
HasGrant (granted g) = Unit {0}
HasGrant _ = ⊥

-- What the counter comes to when both threads are through, once a thread has added or both have loaded.
abbrev total : ℕ → Thread → Thread → ℕ
total used (loaded g) (loaded h) = used + g + h
total used (loaded g) (granted h) = used + g
total used (granted g) (loaded h) = used + h
total used (granted g) starting = used + grant used
total used starting (granted g) = used + grant used
total used _ _ = used

abbrev IsSettled : Thread → Thread → Type 0
IsSettled (loaded g) (loaded h) = Unit {0}
IsSettled (granted g) _ = Unit {0}
IsSettled _ (granted g) = Unit {0}
IsSettled _ _ = ⊥

take_turn-total :
    (s : Shared) (t : Turn)
    → IsSettled s.left s.right
    → let s' = take_turn s t in
      IsSettled s'.left s'.right × (total s'.used s'.left s'.right ≡ total s.used s.left s.right)
take_turn-total s left_turn v = ground arith
take_turn-total s right_turn v = ground arith

interleave-total :
    (s : Shared) (ts : List Turn)
    → IsSettled s.left s.right
    → HasGrant (interleave s ts).left
    → HasGrant (interleave s ts).right
    → (interleave s ts).used ≡ total s.used s.left s.right
interleave-total s [] v l r = ground arith
interleave-total s (t ∷ ts) v l r =
    let (v', same) = take_turn-total s t v in interleave-total (take_turn s t) ts v' l r ∙ same

-- Two panes are spawned at once, while the room left is positive and less than two default grants.
-- However the two threads take turns, once both have their grants the counter is past the cap exactly if
-- their first two operations were the two loads, so that neither saw the other's add.
pub grant_race :
    (used : ℕ) (first second : Turn) (rest : List Turn)
    → used < global_replay_buffer_budget_bytes
    → global_replay_buffer_budget_bytes < used + 2 * default_replay_buffer_bytes
    → HasGrant (interleave (both_start used) (first ∷ second ∷ rest)).left
    → HasGrant (interleave (both_start used) (first ∷ second ∷ rest)).right
    → (global_replay_buffer_budget_bytes
        < (interleave (both_start used) (first ∷ second ∷ rest)).used)
      ↔ (first ≢ second)
unfolding grant
grant_race used left_turn left_turn rest h k l r =
    let e = interleave-total _ rest tt l r in (λ c. absurd (omega arith), λ n. absurd (n refl))
grant_race used right_turn right_turn rest h k l r =
    let e = interleave-total _ rest tt l r in (λ c. absurd (omega arith), λ n. absurd (n refl))
grant_race used left_turn right_turn rest h k l r =
    let e = interleave-total _ rest tt l r in (λ c n. cc, λ n. omega arith)
grant_race used right_turn left_turn rest h k l r =
    let e = interleave-total _ rest tt l r in (λ c n. cc, λ n. omega arith)
