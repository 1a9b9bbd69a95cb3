-- ===== src/Auth/Gate.antt =====
-- crates/tymuxd/src/auth.rs: whom a daemon that started lets in over TCP.
use tymux.Base.Bytes.{Bytes, bytes_eq, bytes_eq_self, bytes_eq-eq}
use tymux.Base.{
  ℕ, ◌≡◌, ◌↔◌, refl, inl, inr, Bool, true, false, Option, none, some, List, [], ◌∷◌, ◌++◌, arith,
  subst, ok, Option-cases,
}
use tymux.Auth.{
  strip_prefix, is_empty, BearerToken, parse, resolve_token, or_else, flag_value, token_flag,
  check_non_loopback_requires_token, bearer_prefix, bearer_call,
}

strip_prefix-some : (p v r : Bytes) → strip_prefix p v ≡ some r → v ≡ p ++ r
strip_prefix-some [] v r h = ground arith
strip_prefix-some (x ∷ p) [] r h = ground arith
strip_prefix-some (x ∷ p) (c ∷ v) r h = ground (arith, strip_prefix-some p v r)

strip_prefix-append : (p r : Bytes) → strip_prefix p (p ++ r) ≡ some r
strip_prefix-append [] r = refl
strip_prefix-append (x ∷ p) r = ground (arith, strip_prefix-append p r)

resolve_token-is_empty :
    (args : List Bytes) (env_value : Option Bytes) (token : BearerToken)
    → resolve_token args env_value ≡ some token
    → is_empty token.bytes ≡ false
unfolding resolve_token parse
resolve_token-is_empty args env_value token h =
    elim (Option-cases (or_else (flag_value token_flag args) env_value)) [
      | inl e ↦ ground (arith, e)
      | inr (v, e) ↦ ground (arith, e)
    ]

-- What the code relies on of the library's comparison.
abbrev pub IsEquality : (Bytes → Bytes → Bool) → Type 0
IsEquality test = (a b : Bytes) → (test a b ≡ true) ↔ (a ≡ b)

pub bytes_eq-IsEquality : IsEquality bytes_eq
bytes_eq-IsEquality a b =
    (bytes_eq-eq a b, (λ e. subst (λ c. bytes_eq a c ≡ true) e (bytes_eq_self a)))

module _ (constant_time_eq : Bytes → Bytes → Bool) (eq : IsEquality constant_time_eq) where
  bearer_call_iff :
      (token : BearerToken) (count : ℕ) (header : Option Bytes)
      → ((bearer_call constant_time_eq token count header).1 ≡ ok tt)
        ↔ (header ≡ some (bearer_prefix ++ token.bytes))
  unfolding bearer_call
  bearer_call_iff token count none = ((λ h. ground arith), (λ h. ground arith))
  bearer_call_iff token count (some v) = elim (Option-cases (strip_prefix bearer_prefix v)) [
    | inl e ↦ (
      (λ h. ground (arith, e)),
      (λ h. ground (arith, e, h, strip_prefix-append bearer_prefix token.bytes)),
    )
    | inr (r, e) ↦ (
      (λ h. ground (arith, e, h, (eq r token.bytes).0, strip_prefix-some bearer_prefix v r e)),
      (λ h.
          ground
            (arith, e, h, (eq r token.bytes).1, strip_prefix-append bearer_prefix token.bytes)),
    )
  ]

  -- A daemon that passes the start-up gate on an address that is not loopback has a token, which is
  -- not empty, and lets a request in exactly when its header is `Bearer ` and that token.
  pub gate-guards :
      (args : List Bytes) (env_value : Option Bytes) (count : ℕ) (header : Option Bytes)
      → check_non_loopback_requires_token false (resolve_token args env_value) ≡ ok tt
      → (token : BearerToken) × (resolve_token args env_value ≡ some token)
        × (is_empty token.bytes ≡ false)
        × (((bearer_call constant_time_eq token count header).1 ≡ ok tt)
            ↔ (header ≡ some (bearer_prefix ++ token.bytes)))
  unfolding check_non_loopback_requires_token
  gate-guards args env_value count header h = elim (Option-cases (resolve_token args env_value)) [
    | inl e ↦ ground (arith, e)
    | inr (token, e) ↦ (
      token,
      e,
      resolve_token-is_empty args env_value token e,
      bearer_call_iff token count header,
    )
  ]
