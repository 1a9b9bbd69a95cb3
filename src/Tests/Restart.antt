-- ===== src/Tests/Restart.antt =====
-- Runs of the supervisor, with a stand-in for `f64` in whole numbers.
use tymux.Base.{
  ℕ, ◌+◌, ◌-◌, ◌*◌, ◌^◌, ◌≤◌, ◌≡◌, refl, true, false, none, some, [], ◌∷◌, ltb, leb, min, max,
  length, arith,
}
use tymux.Restart.Policy.{Float64, IsFloat64, RestartPolicy, always, delay_ms}
use tymux.Restart.{
  live, backoff, failed, stopped, PaneSupervisor, scheduled, new, on_started, on_exit,
  begin_restart, request_stop, due, count_after, window_start, after_failure,
}
use tymux.Restart.Lifecycle.{stops, here, next, IsValid, Reach-IsValid}
use tymux.Restart.Stopping
use tymux.Restart.Stopping.{request_stop-Quiets, on_exit-request_stop}
use tymux.Restart.Budget
use tymux.Restart.Budget.{World, restart_budget, fresh}
use tymux.Restart.CrashLoop.{crash_loop, crash_loop-failed}

abbrev pub whole : Float64
whole = record {
  F = ℕ;
  of_u64 = λ n. n;
  add = λ a b. a + b;
  sub = λ a b. a - b;
  mul = λ a b. a * b;
  powi = λ a n. a ^ n;
  fmin = λ a b. min a b;
  clamp = λ x lo hi. min (max x lo) hi;
  round = λ a. a;
  to_u64 = λ a. a;
  lt = ltb;
  le = leb;
  is_finite = λ a. true;
}

whole-round_clamp : (x limit : ℕ) → min (max x 0) limit ≤ limit
whole-round_clamp x limit = omega arith

whole-laws : IsFloat64 whole
whole-laws = record { round_clamp = λ x limit _. whole-round_clamp x limit }

-- A second, doubled up to eight; two restarts, over the pane's life.
abbrev pub policy : RestartPolicy ℕ
policy = record {
  mode = always;
  max_restarts = 2;
  window_ms = 0;
  initial_delay_ms = 1000;
  multiplier = 2;
  max_delay_ms = 8000;
  jitter = 0;
  healthy_after_ms = 10000;
}

abbrev pub running : PaneSupervisor ℕ
running = record {
  policy = policy;
  state = live;
  restart_count = 0;
  restart_log = [];
  consecutive_failures = 0;
  started_at_ms = some 100;
  last_exit = none;
  next_restart_at_ms = none;
  stop_requested = false;
  restart_requested = false;
}

running_started : on_started (new policy) 100 ≡ running
unfolding on_started new
running_started = refl

running-IsValid : IsValid running
running-IsValid = ground arith

-- The process dies at 200 with code 1: a restart is scheduled a second later.
abbrev backing_off : PaneSupervisor ℕ
backing_off = record running {
  state = backoff;
  consecutive_failures = 1;
  started_at_ms = none;
  last_exit = some (record { code = some 1; signal = none; at_ms = 200 });
  next_restart_at_ms = some 1200;
}

first_exit : on_exit whole running 200 (some 1) none 0 ≡ (backing_off, scheduled 1000 1200)
unfolding on_exit after_failure delay_ms
first_exit = refl

crash_loop-failed_example :
    ((crash_loop whole 3 running 200 (some 1) 0).state ≡ failed)
    × (length (crash_loop whole 3 running 200 (some 1) 0).restart_log ≡ 2)
crash_loop-failed_example =
    crash_loop-failed whole 2 running 200 (some 1) 0
      (record { no_stop = refl; no_restart = refl; wants = refl; lifetime = refl; times = tt }) refl
      (omega arith)

Reach-IsValid_example : IsValid (request_stop running).0
Reach-IsValid_example = Reach-IsValid whole running-IsValid (next here stops)

request_stop-Quiets_example :
    ((on_exit whole (request_stop running).0 300 (some 1) none 0).0.state ≡ stopped)
    × (due (on_exit whole (request_stop running).0 300 (some 1) none 0).0 9000 ≡ false)
unfolding request_stop
request_stop-Quiets_example =
    request_stop-Quiets whole running _ 9000 running-IsValid
      (Stopping.next Stopping.here (Stopping.exits 300 (some 1) none 0 refl))

-- The same first crash with the history of restarts beside it.
abbrev second_run : World ℕ
second_run = record {
  sup = begin_restart (on_exit whole (on_started (new policy) 100) 200 (some 1) none 0).0 1200 true;
  restarts = 1200 ∷ [];
  clock = 1200;
}

crash_in_backoff :
    (on_exit whole (on_started (new policy) 100) 200 (some 1) none 0).0.state ≡ backoff
unfolding on_exit after_failure on_started new
crash_in_backoff = refl

restart_budget_example : count_after (window_start policy 1200) (1200 ∷ []) ≤ 2
restart_budget_example = restart_budget whole policy second_run (
    Budget.next
      (Budget.next (Budget.next Budget.here (Budget.starts 100))
        (Budget.exits 200 (some 1) none 0 (omega arith)))
      (Budget.restarts_automatically 1200 (omega arith) crash_in_backoff))
