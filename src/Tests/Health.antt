-- ===== src/Tests/Health.antt =====
-- Runs of the listener's health checks.
use tymux.Base.{ℕ, true, ◌≡◌, refl, some, [], ◌∷◌, arith, leb, if◌then◌else◌, Result, ok, err}
use tymux.Health.{
  emfile, classify_accept_error, AcceptState, initial, raise_with, raise_nofile_limit, fd_pressure,
  next_lower_target, desired_soft_limit,
}
use tymux.Health.Nofile.{Reported, raise_nofile_limit-Reported}
use tymux.Health.Accepting.{given_up_at, given_up_at-eq}

-- A kernel that allows 10240 descriptors.
abbrev kernel : Unit {0} → ℕ → Unit {0} × Result (Unit {0}) ℕ
kernel s n = (s, if leb n 10240 then ok tt else err 22)

raised :
    raise_nofile_limit kernel 50 tt 256 1048576 65536
    ≡ some (ok (record { soft_before = 256; soft_after = 8416; hard = 1048576 }))
unfolding raise_nofile_limit raise_with next_lower_target desired_soft_limit
raised = refl

raise_nofile_limit-Reported_example :
    Reported kernel 256 1048576 65536 (raise_nofile_limit kernel 65537 tt 256 1048576 65536)
raise_nofile_limit-Reported_example =
    raise_nofile_limit-Reported kernel 65537 tt 256 1048576 65536 (omega arith)

pressed : fd_pressure 80 100 ≡ true
unfolding fd_pressure
pressed = refl

-- Out of descriptors since 5 s.
abbrev stuck : AcceptState
stuck = record initial {
  backoff = 1000000000;
  failing_since = some 5000000000;
  last_error = some 124000000000;
}

given_up_at-eq_example :
    given_up_at stuck ((124500000000, some emfile) ∷ (125500000000, some emfile) ∷ [])
    ≡ some 125500000000
unfolding classify_accept_error
given_up_at-eq_example =
    given_up_at-eq stuck 5000000000 124000000000
      ((124500000000, some emfile) ∷ (125500000000, some emfile) ∷ [])
      (record { started = refl; latest = refl; paused = omega arith })
      (refl, omega arith, (refl, omega arith, tt))
