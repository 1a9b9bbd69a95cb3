-- ===== src/Replay/Budget.antt =====
-- crates/tymux-core/src/replay_buffer.rs: the budget that all panes share.
use tymux.Base.{ℕ, ◌+◌, ◌≤◌, ◌≡◌, refl, ap, ◌∙◌, List, [], ◌∷◌, ◌++◌, arith}
use tymux.Replay.{global_replay_buffer_budget_bytes, allocate_replay_budget, release_replay_budget}

-- The shared counter, and the grants that panes hold.
pub record Pool : Type 0 where
  pub used : ℕ
  pub grants : List ℕ

abbrev pub sum : List ℕ → ℕ
sum [] = 0
sum (g ∷ gs) = g + sum gs

sum-append : (xs ys : List ℕ) → sum (xs ++ ys) ≡ sum xs + sum ys
sum-append [] ys = omega arith
sum-append (x ∷ xs) ys = omega (arith, sum-append xs ys)

-- One pane is spawned, or one is dropped, with no other call between a load and its add.
pub data Step (p : Pool) : Pool → Type 0 where
  allocate : Step p (record {
    used = (allocate_replay_budget p.used).0;
    grants = (allocate_replay_budget p.used).1 ∷ p.grants;
  })
  release :
      (before : List ℕ) (bytes : ℕ) (after : List ℕ)
      → p.grants ≡ before ++ (bytes ∷ after)
      → Step p (record { used = release_replay_budget p.used bytes; grants = before ++ after })

pub data Reach (p : Pool) : Pool → Type 0 where
  here : Reach p p
  next : {q r : Pool} → Reach p q → Step q r → Reach p r

pub record IsBounded (p : Pool) : Type 0 where
  pub exact : p.used ≡ sum p.grants
  pub capped : p.used ≤ global_replay_buffer_budget_bytes

Step-IsBounded : {p q : Pool} → Step p q → IsBounded p → IsBounded q
unfolding allocate_replay_budget release_replay_budget
Step-IsBounded allocate v = record { exact = omega arith; capped = omega arith }
Step-IsBounded (release before bytes after e) v =
    let total = ap sum e ∙ sum-append before (bytes ∷ after) in
    record { exact = omega (arith, sum-append before after); capped = omega arith }

abbrev pub empty : Pool
empty = record { used = 0; grants = [] }

-- While every allocation's load and add stand together, the counter is the sum of the grants held
-- and never passes the cap, after any allocations and releases.
pub Reach-IsBounded : {p : Pool} → Reach empty p → IsBounded p
Reach-IsBounded here = record { exact = refl; capped = omega arith }
Reach-IsBounded (next r s) = Step-IsBounded s (Reach-IsBounded r)
