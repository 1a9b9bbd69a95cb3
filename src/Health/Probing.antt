-- ===== src/Health/Probing.antt =====
-- crates/tymuxd/src/main.rs: the probe's failure count against the outcomes that it saw.
use tymux.Base.{ℕ, suc, ◌≡◌, refl, List, [], ◌∷◌, leb, if◌then◌else◌, arith}
use tymux.Health.{
  TcpProbeOutcome, connected, failed, inconclusive, TcpHealthProbeLog, silent, failing, given_up,
  recovered, tcp_health_probe_transition,
}

-- The count after a list of outcomes, the newest first.
pub count_of : List TcpProbeOutcome → ℕ
count_of [] = 0
count_of (o ∷ before) = (tcp_health_probe_transition (count_of before) o).0

-- How many outcomes failed since the last connection; inconclusive ones do not count.
abbrev pub failed_since_connected : List TcpProbeOutcome → ℕ
failed_since_connected [] = 0
failed_since_connected (connected ∷ before) = 0
failed_since_connected (failed ∷ before) = suc (failed_since_connected before)
failed_since_connected (inconclusive ∷ before) = failed_since_connected before

count_of-eq : (os : List TcpProbeOutcome) → count_of os ≡ failed_since_connected os
unfolding count_of tcp_health_probe_transition
count_of-eq [] = refl
count_of-eq (connected ∷ before) = refl
count_of-eq (failed ∷ before) = omega (arith, count_of-eq before)
count_of-eq (inconclusive ∷ before) = count_of-eq before

-- What is logged for the newest outcome, from what came before it.
abbrev pub expected_log : List TcpProbeOutcome → TcpProbeOutcome → TcpHealthProbeLog
expected_log before connected = if leb 3 (failed_since_connected before) then recovered else silent
expected_log before inconclusive = silent
expected_log before failed =
    if leb 3 (failed_since_connected before)
    then given_up (suc (failed_since_connected before))
    else if leb 2 (failed_since_connected before)
    then failing 3
    else silent

-- After any outcomes, the probe gives up at a failed one exactly when three failed before it since
-- the last connection, warns at the third, reports recovery at a connection after three, and is
-- silent else; inconclusive outcomes neither count nor reset.
pub probe-expected_log :
    (before : List TcpProbeOutcome) (o : TcpProbeOutcome)
    → (tcp_health_probe_transition (count_of before) o).1 ≡ expected_log before o
unfolding tcp_health_probe_transition
probe-expected_log before connected = ground (arith, count_of-eq before)
probe-expected_log before inconclusive = refl
probe-expected_log before failed = ground (arith, count_of-eq before)
