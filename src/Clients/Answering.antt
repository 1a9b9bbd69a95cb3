-- ===== src/Clients/Answering.antt =====
-- crates/tymux-core/src/terminal_query/clients.rs: the registry forgets no client that lives.
use tymux.Base.{
  ℕ, zero, suc, ◌≡◌, ◌↔◌, refl, ◌⊎◌, inl, inr, Bool, true, false, ◌||◌, none, some, List, [], ◌∷◌,
  ◌++◌, ◌==◌, arith, get_elem?, set, length, ==_iff, Bool-cases, Option-cases, subst, ◌∙◌,
}
use tymux.Clients.{
  Slot, ClientRegistry, alive_at, retain, any, new_slot, register, answers, has_answerer, modify,
  go_live_after, set_lagged, release, empty,
}

abbrev pub has : ℕ → List ℕ → Bool
has a [] = false
has a (b ∷ rest) = (a == b) || has a rest

has-retain :
    (f : ℕ → Bool) (a : ℕ) (xs : List ℕ) → has a xs ≡ true → f a ≡ true → has a (retain f xs) ≡ true
has-retain f a [] h k = ground arith
has-retain f a (b ∷ xs) h k = elim (Bool-cases (a == b)) [
  | inl e ↦ ground (arith, h, k, subst (λ c. f c ≡ true) ((==_iff a b).0 e) k)
  | inr e ↦ ground (arith, e, h, k, has-retain f a xs)
]

has-append : (a : ℕ) (xs ys : List ℕ) → has a (xs ++ ys) ≡ has a xs || has a ys
has-append a [] ys = refl
has-append a (b ∷ xs) ys = ground (arith, has-append a xs ys)

any-has : (f : ℕ → Bool) (a : ℕ) (xs : List ℕ) → has a xs ≡ true → f a ≡ true → any f xs ≡ true
any-has f a [] h k = ground arith
any-has f a (b ∷ xs) h k = elim (Bool-cases (a == b)) [
  | inl e ↦ ground (arith, subst (λ c. f c ≡ true) ((==_iff a b).0 e) k)
  | inr e ↦ ground (arith, e, h, k, any-has f a xs)
]

any_witness : (f : ℕ → Bool) (xs : List ℕ) → any f xs ≡ true → (a : ℕ) × (f a ≡ true)
any_witness f [] h = absurd (ground arith)
any_witness f (a ∷ xs) h = elim (Bool-cases (f a)) [
  | inl e ↦ (a, e)
  | inr e ↦ any_witness f xs (ground (arith, e, h))
]

-- Every slot whose client lives is known to the registry.
abbrev pub IsTracked : ClientRegistry → Type 0
IsTracked r = (a : ℕ) → alive_at r.heap a ≡ true → has a r.slots ≡ true

pub get_elem?-snoc :
    (heap : List Slot) (s : Slot) (a : ℕ)
    → (a ≡ length heap) ⊎ (get_elem? (heap ++ (s ∷ [])) a ≡ get_elem? heap a)
get_elem?-snoc [] s zero = inl refl
get_elem?-snoc [] s (suc a) = inr refl
get_elem?-snoc (x ∷ heap) s zero = inr refl
get_elem?-snoc (x ∷ heap) s (suc a) = elim (get_elem?-snoc heap s a) [
  | inl e ↦ inl (omega arith)
  | inr e ↦ inr e
]

alive_before :
    (r : ClientRegistry) (a : ℕ)
    → get_elem? (r.heap ++ (new_slot ∷ [])) a ≡ get_elem? r.heap a
    → alive_at (r.heap ++ (new_slot ∷ [])) a ≡ true
    → alive_at r.heap a ≡ true
alive_before r a e h =
    subst (λ o. elim o as (λ _. Bool) [ none ↦ false | some s ↦ s.alive ] ≡ true) e h

register-IsTracked : (r : ClientRegistry) → IsTracked r → IsTracked (register r).0
unfolding register
register-IsTracked r v a h = elim (get_elem?-snoc r.heap new_slot a) [
  | inl e ↦ has-append a (retain (alive_at r.heap) r.slots) (length r.heap ∷ []) ∙ ground (arith, e)
  | inr e ↦
      has-append a (retain (alive_at r.heap) r.slots) (length r.heap ∷ [])
      ∙ ground (
        arith,
        has-retain (alive_at r.heap) a r.slots (v a (alive_before r a e h)) (alive_before r a e h),
      )
]

alive_at-set :
    (heap : List Slot) (i : ℕ) (s s' : Slot) (a : ℕ)
    → get_elem? heap i ≡ some s
    → (s'.alive ≡ true → s.alive ≡ true)
    → alive_at (set heap i s') a ≡ true
    → alive_at heap a ≡ true
alive_at-set [] i s s' a h k m = ground arith
alive_at-set (x ∷ heap) zero s s' zero h k m = ground (arith, h, k m)
alive_at-set (x ∷ heap) zero s s' (suc a) h k m = m
alive_at-set (x ∷ heap) (suc i) s s' zero h k m = m
alive_at-set (x ∷ heap) (suc i) s s' (suc a) h k m = alive_at-set heap i s s' a h k m

modify-IsTracked :
    (r : ClientRegistry) (i : ℕ) (f : Slot → Slot)
    → ((s : Slot) → (f s).alive ≡ true → s.alive ≡ true)
    → IsTracked r
    → IsTracked (modify r i f)
modify-IsTracked r i f k v = elim (Option-cases (get_elem? r.heap i)) [
  | inl e ↦ rw (IsTracked, modify, e) v
  | inr (s, e) ↦ rw (IsTracked, modify, e) (λ a h. v a (alive_at-set r.heap i s (f s) a e (k s) h))
]

-- What is done to a registry: a client attaches, goes live, lags or catches up, and goes.
pub data Op : Type 0 where
  attach : Op
  live : ℕ → ℕ → Op
  lag : ℕ → Bool → Op
  detach : ℕ → Op

abbrev pub apply : ClientRegistry → Op → ClientRegistry
apply r attach = (register r).0
apply r (live a seq) = go_live_after r a seq
apply r (lag a lagged) = set_lagged r a lagged
apply r (detach a) = release r a

apply-IsTracked : (r : ClientRegistry) (op : Op) → IsTracked r → IsTracked (apply r op)
unfolding go_live_after set_lagged release
apply-IsTracked r attach v = register-IsTracked r v
apply-IsTracked r (live a seq) v = modify-IsTracked r a _ (λ s h. h) v
apply-IsTracked r (lag a lagged) v = modify-IsTracked r a _ (λ s h. h) v
apply-IsTracked r (detach a) v = modify-IsTracked r a _ (λ s h. ground arith) v

-- The registry after a history, the newest operation first.
abbrev pub after : List Op → ClientRegistry
after [] = empty
after (op ∷ older) = apply (after older) op

after-IsTracked : (history : List Op) → IsTracked (after history)
after-IsTracked [] = λ a h. ground arith
after-IsTracked (op ∷ older) = apply-IsTracked (after older) op (after-IsTracked older)

pub answers-alive_at :
    (heap : List Slot) (seq a : ℕ) → answers heap seq a ≡ true → alive_at heap a ≡ true
answers-alive_at heap seq a h = elim (Option-cases (get_elem? heap a)) [
  | inl e ↦ ground (arith, e, h)
  | inr (s, e) ↦ ground (arith, e, h)
]

-- The list of slots answers as all slots on the heap do: the dead ones that are dropped from it on the
-- way change nothing.
pub has_answerer-answers :
    (history : List Op) (seq : ℕ)
    → (has_answerer (after history) seq ≡ true)
      ↔ ((a : ℕ) × (answers (after history).heap seq a ≡ true))
unfolding has_answerer
has_answerer-answers history seq = (
  (λ h. any_witness (answers (after history).heap seq) (after history).slots h),
  (λ w.
      any-has (answers (after history).heap seq) w.0 (after history).slots
        (after-IsTracked history w.0 (answers-alive_at (after history).heap seq w.0 w.1)) w.1),
)
