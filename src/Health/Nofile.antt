-- ===== src/Health/Nofile.antt =====
-- crates/tymuxd/src/listener_health.rs: raising the limit ends, and never lowers it.
use tymux.Base.{
  ℕ, zero, suc, ◌-◌, ◌≤◌, ◌<◌, ◌≡◌, refl, ◌⊎◌, inl, inr, Option, none, some, ◌==◌, min, max, arith,
  Result, ok, err, Result-cases, Option-cases, Bool-cases,
}
use tymux.Health.{
  NofileLimits, desired_soft_limit, next_lower_target, raise_with, raise_nofile_limit,
}

next_lower_target-lt :
    (target soft next : ℕ)
    → soft ≤ target
    → next_lower_target target soft ≡ some next
    → (soft < next) × (next < target)
unfolding next_lower_target
next_lower_target-lt target soft next h e = ground arith

module _ {S E : Type 0} (set : S → ℕ → S × Result (Unit {0}) E) where
  -- The result of a raise: a value between the soft limit and the target, the target itself or
  -- above the soft limit, or the kernel's last refusal.
  pub data Raised (soft target : ℕ) : Option (S × Result ℕ E) → Type 0 where
    accepted :
        (k : S) (v : ℕ)
        → v ≤ target
        → (v ≡ target) ⊎ (soft < v)
        → Raised soft target (some (k, ok v))
    refused : (k : S) (e : E) → Raised soft target (some (k, err e))

  Raised-weaken :
      (soft lower target : ℕ) (r : Option (S × Result ℕ E))
      → soft < lower
      → lower < target
      → Raised soft lower r
      → Raised soft target r
  Raised-weaken soft lower target r h k (accepted k' v le from) =
      accepted k' v (omega arith) (inr (ground arith))
  Raised-weaken soft lower target r h k (refused k' e) = refused k' e

  -- With more fuel than the gap, the search for a limit that the kernel accepts ends, whatever the
  -- kernel answers: with a value that it accepted, at most the target and above the soft limit
  -- unless it is the target, or with an error of the kernel.
  pub raise_with-Raised :
      (fuel : ℕ) (kernel : S) (soft target : ℕ)
      → soft ≤ target
      → target - soft < fuel
      → Raised soft target (raise_with set fuel kernel soft target)
  unfolding raise_with
  raise_with-Raised zero kernel soft target h k = elim k [ ]
  raise_with-Raised (suc fuel) kernel soft target h k = elim (Result-cases (set kernel target).1) [
    | inl (a, e) ↦ rw (e, raise_with) (accepted _ target (omega arith) (inl refl))
    | inr (a, e) ↦ elim (Option-cases (next_lower_target target soft)) [
      | inl f ↦ rw (e, raise_with, f) (refused _ a)
      | inr (lower, f) ↦
          let (above, below) = next_lower_target-lt target soft lower h f in
          rw (e, raise_with, f)
            (Raised-weaken soft lower target _ above below
              (raise_with-Raised fuel (set kernel target).0 soft lower (omega arith) (omega arith)))
    ]
  ]

  -- What `raise_nofile_limit` reports: limits that are not lower than before and not above the target,
  -- or the kernel's refusal.
  pub data Reported (soft hard cap : ℕ) : Option (Result NofileLimits E) → Type 0 where
    raised :
        (limits : NofileLimits)
        → limits.soft_before ≡ soft
        → limits.hard ≡ hard
        → soft ≤ limits.soft_after
        → limits.soft_after ≤ max soft (min hard cap)
        → Reported soft hard cap (some (ok limits))
    refused : (e : E) → Reported soft hard cap (some (err e))

  Raised-Reported :
      (soft hard cap : ℕ) (r : Option (S × Result ℕ E))
      → Raised soft (max soft (min hard cap)) r
      → Reported soft hard cap (elim r [
        | none ↦ none
        | some (k, ok after) ↦
            some (ok (record { soft_before = soft; soft_after = after; hard = hard }))
        | some (k, err e) ↦ some (err e)
      ])
  Raised-Reported soft hard cap r (accepted k v le from) = raised _ refl refl (ground arith) le
  Raised-Reported soft hard cap r (refused k e) = refused e

  -- Given more fuel than the target, raising the limit ends, whatever the kernel answers; the limit
  -- is then at least what it was and at most the target, or the kernel's error is returned.
  pub raise_nofile_limit-Reported :
      (fuel : ℕ) (kernel : S) (soft hard cap : ℕ)
      → max soft (min hard cap) < fuel
      → Reported soft hard cap (raise_nofile_limit set fuel kernel soft hard cap)
  unfolding raise_nofile_limit desired_soft_limit
  raise_nofile_limit-Reported fuel kernel soft hard cap h =
      elim (Bool-cases (max soft (min hard cap) == soft)) [
        | inl e ↦ rw e (raised _ refl refl (omega arith) (omega arith))
        | inr e ↦ rw e (
            Raised-Reported soft hard cap _ (
              raise_with-Raised fuel kernel soft (max soft (min hard cap)) (omega arith)
                (omega arith)))
      ]
