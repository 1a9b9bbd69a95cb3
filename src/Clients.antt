-- ===== src/Clients.antt =====
-- crates/tymux-core/src/terminal_query/clients.rs: the attached clients that can answer a terminal
-- query. `heap` holds the slots that `Arc` and `Weak` share, at their addresses; a slot is alive until
-- its client is dropped. Atomic loads and stores are sequential.
pub mod Answering
pub mod History
use tymux.Base.{
  ℕ, zero, suc, ◌+◌, ◌-◌, ◌^◌, Bool, true, false, not, ◌&&◌, ◌||◌, Option, none, some, List, [],
  ◌∷◌, ◌++◌, ltb, if◌then◌else◌, get_elem?, set, length,
}

pub record Slot : Type 0 where
  pub live_from : ℕ
  pub answering : Bool
  pub alive : Bool

pub record ClientRegistry : Type 0 where
  pub heap : List Slot
  pub slots : List ℕ

abbrev pub alive_at : List Slot → ℕ → Bool
alive_at heap a = elim (get_elem? heap a) [ none ↦ false | some s ↦ s.alive ]

abbrev pub retain : (ℕ → Bool) → List ℕ → List ℕ
retain f [] = []
retain f (a ∷ rest) = let kept = retain f rest in if f a then a ∷ kept else kept

abbrev pub any : (ℕ → Bool) → List ℕ → Bool
any f [] = false
any f (a ∷ rest) = f a || any f rest

abbrev pub u64_max : ℕ
u64_max = 2 ^ 64 - 1

abbrev pub new_slot : Slot
new_slot = record { live_from = u64_max; answering = true; alive = true }

-- The new client is the address.
unfoldable pub register : ClientRegistry → ClientRegistry × ℕ
register r = (
  record {
    heap = r.heap ++ (new_slot ∷ []);
    slots = retain (alive_at r.heap) r.slots ++ (length r.heap ∷ []);
  },
  length r.heap,
)

abbrev pub answers : List Slot → ℕ → ℕ → Bool
answers heap seq a = elim (get_elem? heap a) [
  | none ↦ false
  | some s ↦ s.alive && (s.answering && ltb s.live_from seq)
]

unfoldable pub has_answerer : ClientRegistry → ℕ → Bool
has_answerer r seq = any (answers r.heap seq) r.slots

abbrev pub modify : ClientRegistry → ℕ → (Slot → Slot) → ClientRegistry
modify r a f = elim (get_elem? r.heap a) [
  | none ↦ r
  | some s ↦ record r { heap = set r.heap a (f s) }
]

unfoldable pub go_live_after : ClientRegistry → ℕ → ℕ → ClientRegistry
go_live_after r a seq = modify r a (λ s. record s { live_from = seq })

unfoldable pub set_lagged : ClientRegistry → ℕ → Bool → ClientRegistry
set_lagged r a lagged = modify r a (λ s. record s { answering = not lagged })

-- Dropping the `LiveClient` frees its slot.
unfoldable pub release : ClientRegistry → ℕ → ClientRegistry
release r a = modify r a (λ s. record s { alive = false })

abbrev pub empty : ClientRegistry
empty = record { heap = []; slots = [] }
