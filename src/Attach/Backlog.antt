-- ===== src/Attach/Backlog.antt =====
-- crates/tymuxd/src/main.rs: the chunks of a pane's output before and after a sequence number.
use tymux.Base.{ℕ, ◌≤◌, ◌≡◌, ◌∙◌, refl, sym, ap, List, [], ◌∷◌, ◌++◌, leb, if◌then◌else◌, arith}
use tymux.Replay.{Chunk}
use tymux.Replay.Window.{Increasing, skip_to, take_to, missed}

abbrev pub bytes_of : List Chunk → List (List ℕ)
bytes_of [] = []
bytes_of ((seq, bytes) ∷ rest) = bytes ∷ bytes_of rest

bytes_of-append : (xs ys : List Chunk) → bytes_of (xs ++ ys) ≡ bytes_of xs ++ bytes_of ys
bytes_of-append [] ys = refl
bytes_of-append ((seq, bytes) ∷ xs) ys = ap (bytes ∷◌) (bytes_of-append xs ys)

abbrev pub past : ℕ → List Chunk → List Chunk
past threshold [] = []
past threshold ((seq, bytes) ∷ rest) =
    let later = past threshold rest in if leb seq threshold then later else (seq, bytes) ∷ later

past_all : (low t : ℕ) (cs : List Chunk) → Increasing low cs → t ≤ low → past t cs ≡ cs
past_all low t [] h k = refl
past_all low t ((seq, bytes) ∷ rest) h k = ground (arith, past_all seq t rest h.1)

past-eq-skip_to : (low t : ℕ) (cs : List Chunk) → Increasing low cs → past t cs ≡ skip_to t cs
past-eq-skip_to low t [] h = refl
past-eq-skip_to low t ((seq, bytes) ∷ rest) h =
    ground (arith, past-eq-skip_to seq t rest h.1, past_all seq t rest h.1)

-- What comes past the threshold does not depend on when the client subscribed before it.
pub past-skip_to :
    (low start t : ℕ) (cs : List Chunk)
    → Increasing low cs
    → start ≤ t
    → past t (skip_to start cs) ≡ skip_to t cs
past-skip_to low start t [] h k = refl
past-skip_to low start t ((seq, bytes) ∷ rest) h k =
    ground (arith, past-skip_to seq start t rest h.1, past-eq-skip_to low t ((seq, bytes) ∷ rest) h)

skip_to_all : (low t : ℕ) (cs : List Chunk) → Increasing low cs → t ≤ low → skip_to t cs ≡ cs
skip_to_all low t [] h k = refl
skip_to_all low t ((seq, bytes) ∷ rest) h k = ground arith

take_to-skip_to :
    (low latest : ℕ) (history later : List Chunk)
    → Increasing low (history ++ later)
    → Increasing latest later
    → take_to latest history ++ skip_to latest (history ++ later) ≡ history ++ later
take_to-skip_to low latest [] later h k = skip_to_all latest latest later k (omega arith)
take_to-skip_to low latest ((seq, bytes) ∷ rest) later h k =
    ground (arith, take_to-skip_to seq latest rest later h.1 k)

-- What is replayed and what follows it live make up all that the client misses.
missed-skip_to :
    (low from latest : ℕ) (history later : List Chunk)
    → Increasing low (history ++ later)
    → Increasing latest later
    → from ≤ latest
    → missed from latest history ++ skip_to latest (history ++ later)
      ≡ skip_to from (history ++ later)
missed-skip_to low from latest [] later h k l =
    skip_to_all latest latest later k (omega arith) ∙ sym (skip_to_all latest from later k l)
missed-skip_to low from latest ((seq, bytes) ∷ rest) later h k l = ground (
  arith,
  missed-skip_to seq from latest rest later h.1 k l,
  take_to-skip_to seq latest rest later h.1 k,
)

pub Increasing-first :
    (low : ℕ) (history later : List Chunk)
    → Increasing low (history ++ later)
    → Increasing low history
Increasing-first low [] later h = tt
Increasing-first low ((seq, bytes) ∷ rest) later h = (h.0, Increasing-first seq rest later h.1)

pub served_parts :
    (low from latest start : ℕ) (history later : List Chunk)
    → Increasing low (history ++ later)
    → Increasing latest later
    → start ≤ latest
    → from ≤ latest
    → bytes_of (missed from latest history)
        ++ bytes_of (past latest (skip_to start (history ++ later)))
      ≡ bytes_of (skip_to from (history ++ later))
served_parts low from latest start history later h k l m =
    ap (λ x. bytes_of (missed from latest history) ++ bytes_of x)
      (past-skip_to low start latest (history ++ later) h l)
    ∙ sym (bytes_of-append (missed from latest history) (skip_to latest (history ++ later)))
    ∙ ap bytes_of (missed-skip_to low from latest history later h k m)
