-- ===== src/Restart/Policy.antt =====
-- crates/tymux-core/src/restart.rs: `RestartPolicy`, its validation and the backoff delay.
use tymux.Base.{
  ℕ, ◌≤◌, Bool, not, ◌&&◌, ◌||◌, ltb, ◌==◌, if◌then◌else◌, min, Result, ok, err, arith, ◌^◌,
}

-- The operations of `f64` that the policy uses; `round` is followed by `as u64`.
pub record Float64 : Type 1 where
  pub F : Type 0
  pub of_u64 : ℕ → F
  pub add : F → F → F
  pub sub : F → F → F
  pub mul : F → F → F
  pub powi : F → ℕ → F
  pub fmin : F → F → F
  pub clamp : F → F → F → F
  pub round : F → F
  pub to_u64 : F → ℕ
  pub lt : F → F → Bool
  pub le : F → F → Bool
  pub is_finite : F → Bool

-- What the policy relies on of IEEE double precision: rounding a value that was clamped to
-- [0, max] stays within `max`, where `max` is a number that f64 represents exactly.
pub record IsFloat64 (fl : Float64) : Type 0 where
  pub round_clamp :
      (x : fl.F) (max : ℕ)
      → max ≤ 2 ^ 53
      → fl.to_u64 (fl.round (fl.clamp x (fl.of_u64 0) (fl.of_u64 max))) ≤ max

pub data RestartMode : Type 0 where
  never on_failure always unless_stopped : RestartMode

pub record RestartPolicy (F : Type 0) : Type 0 where
  pub mode : RestartMode
  pub max_restarts : ℕ
  pub window_ms : ℕ
  pub initial_delay_ms : ℕ
  pub multiplier : F
  pub max_delay_ms : ℕ
  pub jitter : F
  pub healthy_after_ms : ℕ

-- The reasons of `validate`; the source formats the offending values into a text.
pub data PolicyError (F : Type 0) : Type 0 where
  bad_multiplier : F → PolicyError F
  bad_jitter : F → PolicyError F
  bad_delays : ℕ → ℕ → PolicyError F

module _ (fl : Float64) where
  open fl use {F, of_u64, add, sub, mul, powi, fmin, clamp, round, to_u64, lt, le, is_finite}

  unfoldable pub validate : RestartPolicy F → Result (Unit {0}) (PolicyError F)
  validate p =
      if not (is_finite p.multiplier) || lt p.multiplier (of_u64 1)
      then err (bad_multiplier p.multiplier)
      else if not (is_finite p.jitter) || not (le (of_u64 0) p.jitter && le p.jitter (of_u64 1))
      then err (bad_jitter p.jitter)
      else if ltb p.max_delay_ms p.initial_delay_ms
      then err (bad_delays p.max_delay_ms p.initial_delay_ms)
      else ok tt

  -- The capped exponential backoff, before jitter.
  abbrev pub base_delay : RestartPolicy F → ℕ → F
  base_delay p consecutive_failures =
      fmin (mul (of_u64 p.initial_delay_ms) (powi p.multiplier (min consecutive_failures 1024)))
        (of_u64 p.max_delay_ms)

  -- A point of the jitter band around the base.
  abbrev pub jittered : RestartPolicy F → ℕ → F → F
  jittered p consecutive_failures unit = mul (base_delay p consecutive_failures) (
      add (of_u64 1)
        (mul p.jitter (sub (mul (of_u64 2) (clamp unit (of_u64 0) (of_u64 1))) (of_u64 1))))

  unfoldable pub delay_ms : RestartPolicy F → ℕ → F → ℕ
  delay_ms p consecutive_failures unit =
      if p.initial_delay_ms == 0
      then 0
      else to_u64
          (round (clamp (jittered p consecutive_failures unit) (of_u64 0) (of_u64 p.max_delay_ms)))

  -- A delay never passes the policy's maximum, whatever the failures and the jitter sample.
  pub delay_ms-le-max :
      (laws : IsFloat64 fl) (p : RestartPolicy F) (failures : ℕ) (unit : F)
      → p.max_delay_ms ≤ 2 ^ 53
      → delay_ms p failures unit ≤ p.max_delay_ms
  unfolding delay_ms
  delay_ms-le-max laws p failures unit h =
      ground (arith, laws.round_clamp (jittered p failures unit) p.max_delay_ms)
