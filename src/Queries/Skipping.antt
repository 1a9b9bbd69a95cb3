-- ===== src/Queries/Skipping.antt =====
-- crates/tymux-core/src/terminal_query/scanner.rs: what the scanner skips is no query.
use tymux.Base.Bytes.{Bytes}
use tymux.Base.{
  ℕ, zero, suc, ◌+◌, ◌-◌, ◌≤◌, ◌<◌, ◌≡◌, refl, sym, ap, ◌∙◌, inl, inr, false, Option, none, some,
  [], ◌∷◌, ◌++◌, ltb, length, take, drop, get_elem?, min, arith, Bool-cases, Option-cases,
  take-append-drop, length-take,
}
use tymux.Queries.{
  classify_csi, may_be_query_final, count_params, complete_other_csi, position, short, find_esc,
}

-- A final byte that `may_be_query_final` rules out makes no query, with any prefix and parameter.
classify_csi-none :
    (i1 i2 : Option ℕ) (p0 fin : ℕ)
    → may_be_query_final fin ≡ false
    → classify_csi i1 i2 p0 fin ≡ none
unfolding classify_csi may_be_query_final
classify_csi-none none none p0 fin h = ground arith
classify_csi-none none (some i2) p0 fin h = refl
classify_csi-none (some i1) none p0 fin h = ground arith
classify_csi-none (some i1) (some i2) p0 fin h = ground arith

get_elem?-lt : (s : Bytes) (i b : ℕ) → get_elem? s i ≡ some b → i < length s
get_elem?-lt [] i b h = ground arith
get_elem?-lt (x ∷ s) zero b h = omega arith
get_elem?-lt (x ∷ s) (suc i) b h = omega (arith, get_elem?-lt s i b h)

-- A sequence that the scanner skips without the tokenizer lies within the bytes that are there, and its
-- final byte makes no query, with any prefix and any first parameter.
pub complete_other_csi-classify_csi :
    (s : Bytes) (n : ℕ) (i1 i2 : Option ℕ) (p0 : ℕ)
    → complete_other_csi s ≡ some n
    → (fin : ℕ) × (get_elem? s (n - 1) ≡ some fin)
      × (n ≤ length s)
      × (classify_csi i1 i2 p0 fin ≡ none)
unfolding complete_other_csi
complete_other_csi-classify_csi [] n i1 i2 p0 h = absurd (ground arith)
complete_other_csi-classify_csi (a ∷ []) n i1 i2 p0 h = absurd (ground arith)
complete_other_csi-classify_csi (a ∷ b ∷ []) n i1 i2 p0 h = absurd (ground arith)
complete_other_csi-classify_csi (a ∷ b ∷ c ∷ rest) n i1 i2 p0 h =
    elim (Option-cases (get_elem? (a ∷ b ∷ c ∷ rest) (2 + count_params (c ∷ rest)))) [
      | inl k ↦ absurd (ground (arith, k, h))
      | inr (fin, k) ↦
          let e : (n ≡ count_params (c ∷ rest) + 3) × (may_be_query_final fin ≡ false) =
            ground (arith, k, h) in
          (
            fin,
            rw (e.0) (ground (arith, k)),
            ground
                (arith, e.0, get_elem?-lt (a ∷ b ∷ c ∷ rest) (2 + count_params (c ∷ rest)) fin k),
            classify_csi-none i1 i2 p0 fin e.1,
          )
    ]

abbrev pub shift : ℕ → Option ℕ → Option ℕ
shift k none = none
shift k (some p) = some (p + k)

-- `position` over two parts, from the first where it is found.
abbrev pub first_of : ℕ → Option ℕ → Option ℕ → Option ℕ
first_of k (some p) later = some p
first_of k none later = shift k later

position-append :
    (byte : ℕ) (xs ys : Bytes)
    → position byte (xs ++ ys) ≡ first_of (length xs) (position byte xs) (position byte ys)
unfolding position
position-append byte [] ys = ground arith
position-append byte (x ∷ xs) ys = ground (arith, position-append byte xs ys)

-- What the code relies on of the library's search.
abbrev pub IsMemchr : (ℕ → Bytes → Option ℕ) → Type 0
IsMemchr memchr = (byte : ℕ) (s : Bytes) → memchr byte s ≡ position byte s

take_all : (n : ℕ) (s : Bytes) → length s ≤ n → take n s ≡ s
take_all zero [] h = refl
take_all (suc n) [] h = refl
take_all zero (x ∷ s) h = absurd (omega arith)
take_all (suc n) (x ∷ s) h = ap (λ t. x ∷ t) (take_all n s (omega arith))

min_right : (a b : ℕ) → b ≤ a → min a b ≡ b
min_right a b h = omega arith

min_left : (a b : ℕ) → a ≤ b → min a b ≡ a
min_left a b h = omega arith

position-split :
    (byte k : ℕ) (s : Bytes)
    → k ≤ length s
    → first_of k (position byte (take (min (length s) k) s)) (position byte (drop k s))
      ≡ position byte s
position-split byte k s h =
    ap (λ n. first_of k (position byte (take n s)) (position byte (drop k s)))
      (min_right (length s) k h)
    ∙ ap (λ n. first_of n (position byte (take k s)) (position byte (drop k s)))
        (sym (length-take k s ∙ min_left k (length s) h))
    ∙ sym (position-append byte (take k s) (drop k s))
    ∙ ap (position byte) (take-append-drop k s)

position-short :
    (byte k : ℕ) (s : Bytes)
    → length s ≤ k
    → position byte (take (min (length s) k) s) ≡ position byte s
position-short byte k s h =
    ap (position byte)
      (ap (λ n. take n s) (min_left (length s) k h) ∙ take_all (length s) s (omega arith))

module _ (memchr : ℕ → Bytes → Option ℕ) (law : IsMemchr memchr) where
  -- The search in two parts finds the first ESC, as a plain search does, if `memchr` does.
  pub find_esc-position : (s : Bytes) → find_esc memchr s ≡ position 27 s
  unfolding find_esc
  find_esc-position s = elim (Bool-cases (ltb short (length s))) [
    | inl k ↦
        ground (arith, k, law 27 (drop short s), position-split 27 short s (ground (arith, k)))
    | inr k ↦ ground (arith, k, position-short 27 short s (ground (arith, k)))
  ]
