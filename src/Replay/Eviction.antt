-- ===== src/Replay/Eviction.antt =====
-- crates/tymux-core/src/replay_buffer.rs: what `push` keeps and what it drops.
use tymux.Base.{
  ℕ, ◌+◌, ◌-◌, ◌≤◌, ◌<◌, ◌≡◌, refl, sym, ap, ◌∙◌, ◌⊎◌, inl, inr, ◌≢◌, false, ◌&&◌, List, [], ◌∷◌,
  ◌++◌, append-nil, append_assoc, arith, ltb, length, Bool-cases,
}
use tymux.Replay.{Chunk, ReplayBuffer, evict, push, new, feed}

-- The bytes of a list of chunks.
abbrev pub size : List Chunk → ℕ
size [] = 0
size ((seq, bytes) ∷ rest) = length bytes + size rest

pub size-append : (xs ys : List Chunk) → size (xs ++ ys) ≡ size xs + size ys
size-append [] ys = omega arith
size-append ((seq, bytes) ∷ rest) ys = omega (arith, size-append rest ys)

-- How `push` splits the entries with the new one: `dropped` in front, and a rest that fits the
-- budget or is one chunk; each chunk was dropped because the budget was passed with it.
pub record Evicts (all kept : List Chunk) (total budget : ℕ) : Type 0 where
  pub dropped : List Chunk
  pub split : all ≡ dropped ++ kept
  pub counted : total ≡ size kept
  pub fits : (total ≤ budget) ⊎ (length kept ≡ 1)
  pub kept_one : kept ≢ []
  pub needed :
      (dropped ≡ [])
      ⊎ ((older : List Chunk) × (c : Chunk) × (dropped ≡ older ++ (c ∷ []))
          × (budget < size (c ∷ kept)))

keep_all :
    (seq : ℕ) (bytes : List ℕ) (rest : List Chunk) (total budget : ℕ)
    → total ≡ size ((seq, bytes) ∷ rest)
    → (ltb budget total && ltb 1 (length ((seq, bytes) ∷ rest))) ≡ false
    → Evicts ((seq, bytes) ∷ rest) ((seq, bytes) ∷ rest) total budget
keep_all seq bytes rest total budget h e = record {
  dropped = [];
  split = refl;
  counted = h;
  fits = ground arith;
  kept_one = λ p. cc;
  needed = inl refl;
}

drop_more :
    (c d : Chunk) (rest kept : List Chunk) (total before budget : ℕ)
    → budget < before
    → before ≡ size (c ∷ d ∷ rest)
    → Evicts (d ∷ rest) kept total budget
    → Evicts (c ∷ d ∷ rest) kept total budget
drop_more c d rest kept total before budget h k v = record {
  dropped = c ∷ v.dropped;
  split = ap (◌∷◌ c) v.split;
  counted = v.counted;
  fits = v.fits;
  kept_one = v.kept_one;
  needed = inr (elim v.needed [
    | inl e ↦ ([], c, ap (◌∷◌ c) e, first_drop e)
    | inr (older, x, e, more) ↦ (c ∷ older, x, ap (◌∷◌ c) e, more)
  ]);
}
  where
    first_drop : v.dropped ≡ [] → budget < size (c ∷ kept)
    first_drop e =
        let whole : size (d ∷ rest) ≡ size v.dropped + size kept =
          ap size v.split ∙ size-append v.dropped kept in
        omega (arith, ap size e)

not_alone : (total budget : ℕ) → (ltb budget total && false) ≡ false
not_alone total budget = ground arith

evict-Evicts :
    (all : List Chunk) (total budget : ℕ)
    → total ≡ size all
    → all ≢ []
    → Evicts all (evict all total budget).0 (evict all total budget).1 budget
unfolding evict
evict-Evicts [] total budget h ne = absurd (ne refl)
evict-Evicts ((seq, bytes) ∷ []) total budget h ne =
    rw (not_alone total budget) (keep_all seq bytes [] total budget h (not_alone total budget))
evict-Evicts ((seq, bytes) ∷ d ∷ rest) total budget h ne =
    elim (Bool-cases (ltb budget total && ltb 1 (length ((seq, bytes) ∷ d ∷ rest)))) [
      | inl e ↦ rw e (
          drop_more (seq, bytes) d rest _ _ total budget (ground arith) h
            (evict-Evicts (d ∷ rest) (total - length bytes) budget (omega (arith, h)) (λ p. cc)))
      | inr e ↦ rw e (keep_all seq bytes (d ∷ rest) total budget h e)
    ]

-- The counter is exact, and more than one chunk is retained only within the budget.
pub record IsValid (buf : ReplayBuffer) : Type 0 where
  pub counted : buf.total_bytes ≡ size buf.entries
  pub fits : (buf.total_bytes ≤ buf.budget_bytes) ⊎ (length buf.entries ≤ 1)

-- On a buffer whose counter is exact, `push` drops chunks from the front only, and only while the
-- budget is passed; the rest ends in the new chunk, is within the budget or is the new chunk
-- alone, and the counter stays exact.
pub push-Evicts :
    (buf : ReplayBuffer) (seq : ℕ) (bytes : List ℕ)
    → buf.total_bytes ≡ size buf.entries
    → Evicts
        (buf.entries ++ ((seq, bytes) ∷ []))
        (push buf seq bytes).entries
        (push buf seq bytes).total_bytes
        buf.budget_bytes
unfolding push
push-Evicts buf seq bytes h =
    evict-Evicts (buf.entries ++ ((seq, bytes) ∷ [])) (buf.total_bytes + length bytes)
      buf.budget_bytes (omega (arith, size-append buf.entries ((seq, bytes) ∷ [])))
      (append-ne-nil buf.entries)
  where
    append-ne-nil : (xs : List Chunk) → (xs ++ ((seq, bytes) ∷ [])) ≢ []
    append-ne-nil [] = λ p. cc
    append-ne-nil (x ∷ xs) = λ p. cc

push-budget :
    (buf : ReplayBuffer) (seq : ℕ) (bytes : List ℕ)
    → (push buf seq bytes).budget_bytes ≡ buf.budget_bytes
unfolding push
push-budget buf seq bytes = refl

push-IsValid :
    (buf : ReplayBuffer) (seq : ℕ) (bytes : List ℕ) → IsValid buf → IsValid (push buf seq bytes)
push-IsValid buf seq bytes v =
    let e = push-Evicts buf seq bytes v.counted in
    let same = push-budget buf seq bytes in
    record { counted = e.counted; fits = ground (arith, same) }

-- After any pushes the counter is exact, and what is retained is within the budget or one chunk.
pub feed-IsValid :
    (buf : ReplayBuffer) (history : List Chunk) → IsValid buf → IsValid (feed buf history)
unfolding feed
feed-IsValid buf [] v = v
feed-IsValid buf ((seq, bytes) ∷ rest) v =
    feed-IsValid (push buf seq bytes) rest (push-IsValid buf seq bytes v)

pub new-IsValid : (budget : ℕ) → IsValid (new budget)
unfolding new
new-IsValid budget = record { counted = refl; fits = inr (omega arith) }

-- What a buffer retains is the end of all it was given.
pub feed-suffix :
    (buf : ReplayBuffer) (history : List Chunk)
    → IsValid buf
    → (dropped : List Chunk) × (buf.entries ++ history ≡ dropped ++ (feed buf history).entries)
unfolding feed
feed-suffix buf [] v = ([], append-nil buf.entries)
feed-suffix buf ((seq, bytes) ∷ rest) v =
    let e = push-Evicts buf seq bytes v.counted in
    let (more, p) = feed-suffix (push buf seq bytes) rest (push-IsValid buf seq bytes v) in
    (
      e.dropped ++ more,
      sym (append_assoc buf.entries ((seq, bytes) ∷ []) rest)
          ∙ ap (λ (xs : List Chunk). xs ++ rest) e.split
          ∙ append_assoc e.dropped (push buf seq bytes).entries rest
          ∙ ap (◌++◌ e.dropped) p
          ∙ sym (append_assoc e.dropped more _),
    )

last_kept :
    (dropped xs kept : List Chunk) (c : Chunk)
    → xs ++ (c ∷ []) ≡ dropped ++ kept
    → kept ≢ []
    → (older : List Chunk) × (kept ≡ older ++ (c ∷ []))
last_kept [] xs kept c e ne = (xs, sym e)
last_kept (d ∷ []) [] kept c e ne = absurd (ne (cc))
last_kept (d ∷ d' ∷ dropped) [] kept c e ne = cc
last_kept (d ∷ dropped) (x ∷ xs) kept c e ne = last_kept dropped xs kept c (cc) ne

-- The chunk just pushed is retained, as the last entry, whatever the budget: also when it is 0.
pub push-retains :
    (buf : ReplayBuffer) (seq : ℕ) (bytes : List ℕ)
    → buf.total_bytes ≡ size buf.entries
    → (older : List Chunk) × ((push buf seq bytes).entries ≡ older ++ ((seq, bytes) ∷ []))
push-retains buf seq bytes h =
    let e = push-Evicts buf seq bytes h in
    last_kept e.dropped buf.entries _ (seq, bytes) e.split e.kept_one
