-- ===== src/Clients/History.antt =====
-- crates/tymux-core/src/terminal_query/clients.rs: which client answers, read off from what was done.
use tymux.Base.{
  ℕ, suc, zero, ◌≡◌, ◌≤◌, ◌<◌, ◌↔◌, ◌∙◌, refl, inl, inr, Bool, true, false, not, ◌&&◌, Option, none,
  some, List, [], ◌∷◌, ◌++◌, ◌==◌, ltb, if◌then◌else◌, arith, get_elem?, set, length, length-append,
  length-set, Bool-cases, Option-cases,
}
use tymux.Clients.{
  Slot, ClientRegistry, u64_max, new_slot, register, answers, has_answerer, modify, go_live_after,
  set_lagged, release,
}
use tymux.Clients.Answering.{
  Op, attach, live, lag, detach, after, get_elem?-snoc, has_answerer-answers,
}

-- Clients are numbered in the order in which they attach. What a history, the newest operation first,
-- says of one, with no registry; what is done to a client that has not attached yet does not count.
abbrev pub clients : List Op → ℕ
clients [] = 0
clients (attach ∷ older) = suc (clients older)
clients (live a seq ∷ older) = clients older
clients (lag a lagged ∷ older) = clients older
clients (detach a ∷ older) = clients older

abbrev pub concerns : ℕ → ℕ → List Op → Bool
concerns a client older = (a == client) && ltb client (clients older)

-- The client was dropped.
abbrev pub has_gone : ℕ → List Op → Bool
has_gone client [] = false
has_gone client (detach a ∷ older) =
    let before = has_gone client older in if concerns a client older then true else before
has_gone client (attach ∷ older) = has_gone client older
has_gone client (live a seq ∷ older) = has_gone client older
has_gone client (lag a lagged ∷ older) = has_gone client older

-- What the client said last of its lag.
abbrev pub is_lagging : ℕ → List Op → Bool
is_lagging client [] = false
is_lagging client (lag a lagged ∷ older) =
    let before = is_lagging client older in if concerns a client older then lagged else before
is_lagging client (attach ∷ older) = is_lagging client older
is_lagging client (live a seq ∷ older) = is_lagging client older
is_lagging client (detach a ∷ older) = is_lagging client older

-- The chunk after which the client went live last; none is behind the greatest number.
abbrev pub went_live_after : ℕ → List Op → ℕ
went_live_after client [] = u64_max
went_live_after client (live a seq ∷ older) =
    let before = went_live_after client older in if concerns a client older then seq else before
went_live_after client (attach ∷ older) = went_live_after client older
went_live_after client (lag a lagged ∷ older) = went_live_after client older
went_live_after client (detach a ∷ older) = went_live_after client older

-- The client has attached, has not gone, does not lag, and went live before the chunk.
pub record Sees (history : List Op) (seq client : ℕ) : Type 0 where
  pub attached : client < clients history
  pub stays : has_gone client history ≡ false
  pub follows : is_lagging client history ≡ false
  pub live_before : went_live_after client history < seq

get_elem?-last : (heap : List Slot) (s : Slot) → get_elem? (heap ++ (s ∷ [])) (length heap) ≡ some s
get_elem?-last [] s = refl
get_elem?-last (x ∷ heap) s = get_elem?-last heap s

abbrev changed : (Slot → Slot) → Option Slot → Option Slot
changed f none = none
changed f (some s) = some (f s)

get_elem?-set :
    (heap : List Slot) (i : ℕ) (s s' : Slot) (j : ℕ)
    → get_elem? heap i ≡ some s
    → get_elem? (set heap i s') j ≡ (if i == j then some s' else get_elem? heap j)
get_elem?-set [] i s s' j h = ground (arith, h)
get_elem?-set (x ∷ heap) zero s s' zero h = refl
get_elem?-set (x ∷ heap) zero s s' (suc j) h = ground arith
get_elem?-set (x ∷ heap) (suc i) s s' zero h = ground arith
get_elem?-set (x ∷ heap) (suc i) s s' (suc j) h = get_elem?-set heap i s s' j h ∙ ground arith

get_elem?-modify :
    (r : ClientRegistry) (i : ℕ) (f : Slot → Slot) (j : ℕ)
    → get_elem? (modify r i f).heap j
      ≡ (if i == j then changed f (get_elem? r.heap j) else get_elem? r.heap j)
get_elem?-modify r i f j = elim (Option-cases (get_elem? r.heap i)) [
  | inl e ↦ elim (Bool-cases (i == j)) [
    | inl k ↦ ground (arith, e, k)
    | inr k ↦ ground (arith, e, k)
  ]
  | inr (s, e) ↦ rw (modify, e) (get_elem?-set r.heap i s (f s) j e ∙ ground (arith, e))
]

length-modify :
    (r : ClientRegistry) (i : ℕ) (f : Slot → Slot) → length (modify r i f).heap ≡ length r.heap
length-modify r i f = elim (Option-cases (get_elem? r.heap i)) [
  | inl e ↦ rw (modify, e) refl
  | inr (s, e) ↦ rw (modify, e) (length-set r.heap i (f s))
]

length-after : (history : List Op) → length (after history).heap ≡ clients history
unfolding register go_live_after set_lagged release
length-after [] = refl
length-after (attach ∷ older) =
    omega (arith, length-append (after older).heap (new_slot ∷ []), length-after older)
length-after (live a seq ∷ older) = length-modify (after older) a _ ∙ length-after older
length-after (lag a lagged ∷ older) = length-modify (after older) a _ ∙ length-after older
length-after (detach a ∷ older) = length-modify (after older) a _ ∙ length-after older

-- Nothing is said of a client that has not attached.
unborn :
    (history : List Op) (client : ℕ)
    → clients history ≤ client
    → (has_gone client history ≡ false)
      × (is_lagging client history ≡ false)
      × (went_live_after client history ≡ u64_max)
unborn [] client h = (refl, refl, refl)
unborn (attach ∷ older) client h = unborn older client (omega arith)
unborn (live a seq ∷ older) client h = ground (arith, unborn older client h)
unborn (lag a lagged ∷ older) client h = ground (arith, unborn older client h)
unborn (detach a ∷ older) client h = ground (arith, unborn older client h)

-- The slot that the history gives a client.
abbrev slot_of : ℕ → List Op → Option Slot
slot_of client history =
    if ltb client (clients history)
    then some (record {
      live_from = went_live_after client history;
      answering = not (is_lagging client history);
      alive = not (has_gone client history);
    })
    else none

slot-modify :
    (history : List Op) (i : ℕ) (f : Slot → Slot) (client : ℕ)
    → get_elem? (after history).heap client ≡ slot_of client history
    → get_elem? (modify (after history) i f).heap client
      ≡ (if i == client then changed f (slot_of client history) else slot_of client history)
slot-modify history i f client h = get_elem?-modify (after history) i f client ∙ rw h refl

-- The heap holds for each client what the history says of it.
slot-after :
    (history : List Op) (client : ℕ)
    → get_elem? (after history).heap client ≡ slot_of client history
unfolding register go_live_after set_lagged release
slot-after [] client = ground arith
slot-after (attach ∷ older) client =
    let heap = (after older).heap in
    let size = length-after older in
    elim (get_elem?-snoc heap new_slot client) [
      | inl e ↦ rw e (
          get_elem?-last heap new_slot
          ∙ ground (arith, size, unborn older (length heap) (omega (arith, size))))
      | inr e ↦ elim (Bool-cases (client == clients older)) [
        | inl k ↦
            let last : client ≡ length heap = ground (arith, size, k) in
            rw last (
              get_elem?-last heap new_slot
              ∙ ground (arith, size, unborn older (length heap) (omega (arith, size))))
        | inr k ↦ e ∙ slot-after older client ∙ ground (arith, k)
      ]
    ]
slot-after (live a seq ∷ older) client =
    slot-modify older a (λ s. record s { live_from = seq }) client (slot-after older client)
    ∙ ground arith
slot-after (lag a lagged ∷ older) client =
    slot-modify older a (λ s. record s { answering = not lagged }) client (slot-after older client)
    ∙ ground arith
slot-after (detach a ∷ older) client =
    slot-modify older a (λ s. record s { alive = false }) client (slot-after older client)
    ∙ ground arith

answers-Sees :
    (history : List Op) (seq client : ℕ)
    → (answers (after history).heap seq client ≡ true) ↔ Sees history seq client
answers-Sees history seq client = rw (answers, slot-after history client) (ground arith)

-- After any operations, a chunk has an answerer exactly when some client has attached, was not dropped
-- since, said last that it does not lag, or never that it does, and went live last after an earlier
-- chunk: that slots of dropped clients are taken off the list on the way changes nothing.
pub has_answerer-Sees :
    (history : List Op) (seq : ℕ)
    → (has_answerer (after history) seq ≡ true) ↔ ((client : ℕ) × Sees history seq client)
has_answerer-Sees history seq =
    let (there, back) = has_answerer-answers history seq in
    (
      λ h. let (client, sees) = there h in (client, (answers-Sees history seq client).0 sees),
      λ w. back (w.0, (answers-Sees history seq w.0).1 w.1),
    )
