-- ===== src/Tests/Queries.antt =====
-- Runs of the query scanner's tests and of the outbox of replies.
use tymux.Base.Bytes.{Bytes}
use tymux.Base.{ℕ, ◌-◌, ◌≤◌, ◌≡◌, refl, true, none, some, [], ◌∷◌, length, get_elem?}
use tymux.Queries.{classify_csi, da1, complete_other_csi}
use tymux.Queries.Skipping.{complete_other_csi-classify_csi}
use tymux.Queries.Outbox.{
  IsBounded, run, new_outbox, offers, drains, rearms, closes, run-IsBounded, offer,
}
use tymux.Tests.Restart.{whole}

-- ESC [ 1 ; 3 1 m, then text.
abbrev red : Bytes
red = 27 ∷ 91 ∷ 49 ∷ 59 ∷ 51 ∷ 49 ∷ 109 ∷ 104 ∷ 105 ∷ []

skipped : complete_other_csi red ≡ some 7
unfolding complete_other_csi
skipped = refl

-- ESC [ c is a query, and not skipped.
asked : complete_other_csi (27 ∷ 91 ∷ 99 ∷ []) ≡ none
unfolding complete_other_csi
asked = refl

primary : classify_csi none none 0 99 ≡ some da1
unfolding classify_csi
primary = refl

complete_other_csi-classify_csi_example :
    (fin : ℕ) × (get_elem? red (7 - 1) ≡ some fin)
    × (7 ≤ length red)
    × (classify_csi none none 1 fin ≡ none)
unfolding complete_other_csi
complete_other_csi-classify_csi_example = complete_other_csi-classify_csi red 7 none none 1 refl

abbrev a_reply : Bytes
a_reply = 27 ∷ 91 ∷ 99 ∷ []

-- The same reply twice is queued once.
absorbed :
    (run whole
      (λ n. n)
      (new_outbox whole (λ n. n) 0)
      (offers a_reply 1 true ∷ offers a_reply 2 true ∷ [])).queue
    ≡ a_reply ∷ []
unfolding new_outbox offer
absorbed = refl

run-IsBounded_example :
    IsBounded whole
      (λ n. n)
      (run whole
        (λ n. n)
        (new_outbox whole (λ n. n) 0)
        (offers a_reply 1 true ∷ offers (1 ∷ []) 2 true ∷ drains 0 ∷ closes ∷ rearms 9 ∷ []))
run-IsBounded_example =
    run-IsBounded whole (λ n. n) 0
      (offers a_reply 1 true ∷ offers (1 ∷ []) 2 true ∷ drains 0 ∷ closes ∷ rearms 9 ∷ [])
