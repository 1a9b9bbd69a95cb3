-- ===== src/Queries.antt =====
-- crates/tymux-core/src/terminal_query.rs and its scanner: which control sequences are queries, and
-- which the scanner passes over without the tokenizer. A byte is a number, text its bytes. `memchr` is
-- a parameter.
pub mod Skipping
pub mod Outbox
use tymux.Base.Bytes.{Bytes}
use tymux.Base.{
  ℕ, zero, suc, ◌+◌, ◌-◌, ◌≤◌, ◌≡◌, Bool, true, false, not, ◌&&◌, ◌||◌, Option, none, some, List,
  [], ◌∷◌, ◌==◌, ltb, leb, if◌then◌else◌, ◌>>=◌, length, take, drop, get_elem?, min,
}

pub data Query : Type 0 where
  da1 da2 status_report cursor_position dec_cursor_position xt_version : Query
  mode_report : Bool → ℕ → Query
  size_report : ℕ → Query

-- `(i1, i2, fin)` of the source's match; 99 is `c`, 110 `n`, 113 `q`, 112 `p`, 116 `t`, 62 `>`, 63 `?`
-- and 36 `$`.
abbrev pub bare_csi : ℕ → ℕ → Option Query
bare_csi p0 fin =
    if fin == 99 && p0 == 0
    then some da1
    else if fin == 110 && p0 == 5
    then some status_report
    else if fin == 110 && p0 == 6
    then some cursor_position
    else if fin == 116 && (p0 == 18 || p0 == 19)
    then some (size_report p0)
    else none

abbrev pub private_csi : ℕ → ℕ → ℕ → Option Query
private_csi i1 p0 fin =
    if i1 == 62 && (fin == 99 && p0 == 0)
    then some da2
    else if i1 == 63 && (fin == 110 && p0 == 6)
    then some dec_cursor_position
    else if i1 == 62 && (fin == 113 && p0 == 0)
    then some xt_version
    else if i1 == 36 && fin == 112
    then some (mode_report false p0)
    else none

unfoldable pub classify_csi : Option ℕ → Option ℕ → ℕ → ℕ → Option Query
classify_csi none none p0 fin = bare_csi p0 fin
classify_csi none (some i2) p0 fin = none
classify_csi (some i1) none p0 fin = private_csi i1 p0 fin
classify_csi (some i1) (some i2) p0 fin =
    if i1 == 63 && (i2 == 36 && fin == 112) then some (mode_report true p0) else none

unfoldable pub may_be_query_final : ℕ → Bool
may_be_query_final b = b == 99 || (b == 110 || (b == 113 || (b == 112 || b == 116)))

-- The count of `take_while(0x20..=0x3f)`.
unfoldable pub count_params : Bytes → ℕ
count_params [] = 0
count_params (b ∷ rest) = let n = count_params rest in if leb 32 b && leb b 63 then suc n else 0

unfoldable pub complete_other_csi : Bytes → Option ℕ
unfolding count_params may_be_query_final
complete_other_csi (a ∷ b ∷ c ∷ rest) =
    if not (a == 27) || not (b == 91)
    then none
    else let params = count_params (c ∷ rest) in
      get_elem? (a ∷ b ∷ c ∷ rest) (2 + params) >>= λ fin.
      if (leb 64 fin && leb fin 126) && not (may_be_query_final fin)
      then some (params + 3)
      else none
complete_other_csi _ = none

-- `iter().position(|&b| b == byte)`.
unfoldable pub position : ℕ → Bytes → Option ℕ
position byte [] = none
position byte (b ∷ rest) =
    let later = position byte rest in
    if b == byte then some 0 else elim later [ none ↦ none | some p ↦ some (suc p) ]

abbrev pub short : ℕ
short = 24

module _ (memchr : ℕ → Bytes → Option ℕ) where
  unfoldable pub find_esc : Bytes → Option ℕ
  unfolding position
  find_esc s =
      let far = memchr 27 (drop short s) in
      elim (position 27 (take (min (length s) short) s)) [
        | some p ↦ some p
        | none ↦
            if ltb short (length s)
            then elim far [ none ↦ none | some p ↦ some (p + short) ]
            else none
      ]
