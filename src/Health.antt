-- ===== src/Health.antt =====
-- crates/tymuxd/src/listener_health.rs and the health probe of crates/tymuxd/src/main.rs: the file
-- descriptor limit, the accept loop of a listener, and the self-dialing probe. Times are
-- nanoseconds and arguments; the kernel is a state and a function on it.
pub mod Nofile
pub mod Accepting
pub mod Probing
use tymux.Base.{
  ℕ, zero, suc, ◌+◌, ◌-◌, ◌*◌, ◌/◌, Bool, true, false, ◌&&◌, Option, none, some, ltb, leb, ◌==◌,
  if◌then◌else◌, min, max, Result, ok, err,
}

unfoldable pub desired_soft_limit : ℕ → ℕ → ℕ → ℕ
desired_soft_limit soft hard cap = max soft (min hard cap)

unfoldable pub next_lower_target : ℕ → ℕ → Option ℕ
next_lower_target target soft =
    let next = soft + (target - soft) / 2 in if ltb soft next then some next else none

unfoldable pub fd_pressure : ℕ → ℕ → Bool
fd_pressure open_fds limit = ltb 0 limit && leb (limit * 80) (open_fds * 100)

pub record NofileLimits : Type 0 where
  pub soft_before : ℕ
  pub soft_after : ℕ
  pub hard : ℕ

module _ {S E : Type 0} (set : S → ℕ → S × Result (Unit {0}) E) where
  -- The loop of `raise_with`, on fuel: `none` means that it ran out.
  unfoldable pub raise_with : ℕ → S → ℕ → ℕ → Option (S × Result ℕ E)
  raise_with zero kernel soft candidate = none
  raise_with (suc fuel) kernel soft candidate =
      let (kernel', answer) = set kernel candidate in
      elim answer [
        | ok _ ↦ some (kernel', ok candidate)
        | err e ↦ elim (next_lower_target candidate soft) [
          | some lower ↦ raise_with fuel kernel' soft lower
          | none ↦ some (kernel', err e)
        ]
      ]

  -- `raise_nofile_limit` once `getrlimit` has given `soft` and `hard`.
  unfoldable pub raise_nofile_limit : ℕ → S → ℕ → ℕ → ℕ → Option (Result NofileLimits E)
  raise_nofile_limit fuel kernel soft hard cap =
      let target = desired_soft_limit soft hard cap in
      let raised = raise_with fuel kernel soft target in
      if target == soft
      then some (ok (record { soft_before = soft; soft_after = soft; hard = hard }))
      else elim raised [
        | none ↦ none
        | some (k, ok after) ↦
            some (ok (record { soft_before = soft; soft_after = after; hard = hard }))
        | some (k, err e) ↦ some (err e)
      ]

-- What `raw_os_error` may be, as far as the code tells the numbers apart.
pub data Errno : Type 0 where
  ebadf enotsock einval emfile enfile : Errno
  other : ℕ → Errno

pub data AcceptErrorKind : Type 0 where
  fatal : Errno → AcceptErrorKind
  fd_exhausted : Errno → AcceptErrorKind
  transient : AcceptErrorKind

unfoldable pub classify_accept_error : Option Errno → AcceptErrorKind
classify_accept_error (some ebadf) = fatal ebadf
classify_accept_error (some enotsock) = fatal enotsock
classify_accept_error (some einval) = fatal einval
classify_accept_error (some emfile) = fd_exhausted emfile
classify_accept_error (some enfile) = fd_exhausted enfile
classify_accept_error _ = transient

abbrev pub is_fatal : AcceptErrorKind → Bool
is_fatal (fatal e) = true
is_fatal (fd_exhausted e) = false
is_fatal transient = false

abbrev pub accept_error_log_interval : ℕ
accept_error_log_interval = 10000000000

abbrev pub accept_backoff_start : ℕ
accept_backoff_start = 10000000

abbrev pub accept_backoff_max : ℕ
accept_backoff_max = 1000000000

abbrev pub accept_persistent_error_limit : ℕ
accept_persistent_error_limit = 120000000000

pub record AcceptErrorLimiter : Type 0 where
  pub last_logged : Option ℕ
  pub suppressed : ℕ

-- `is_none_or(|t| now - t >= bound)`, and `is_some_and(|t| now - t > bound)`.
abbrev pub none_or_since : Option ℕ → ℕ → ℕ → Bool
none_or_since none now bound = true
none_or_since (some t) now bound = leb bound (now - t)

abbrev pub longer_than : Option ℕ → ℕ → ℕ → Bool
longer_than none now bound = false
longer_than (some t) now bound = ltb bound (now - t)

unfoldable pub admit : AcceptErrorLimiter → ℕ → AcceptErrorLimiter × Option ℕ
admit l now =
    if none_or_since l.last_logged now accept_error_log_interval
    then (record { last_logged = some now; suppressed = 0 }, some l.suppressed)
    else (record l { suppressed = l.suppressed + 1 }, none)

-- The state of the stream that `log_accept_errors` makes.
pub record AcceptState : Type 0 where
  pub limiter : AcceptErrorLimiter
  pub backoff : ℕ
  pub failing_since : Option ℕ
  pub last_error : Option ℕ

pub data Incoming : Type 0 where
  conn : Incoming
  error : Option Errno → Incoming
  ended : Incoming

-- What one round of the loop does: yield a connection, yield an error after `on_dead`, end after
-- `on_dead`, or sleep and go on.
pub data Yield : Type 0 where
  connection : Yield
  dead : Option Errno → Yield
  finished : Yield
  retry_after : ℕ → Yield

abbrev pub get_or_insert : Option ℕ → ℕ → ℕ
get_or_insert none now = now
get_or_insert (some t) now = t

-- A round that takes an error that is not fatal, once the limiter has seen it. The clock is read once,
-- so `since.elapsed()` is `now - since`.
unfoldable pub on_error : AcceptState → ℕ → Option Errno → AcceptState × Yield
on_error st now e =
    let stale = longer_than st.last_error now (accept_backoff_max * 2) in
    let backoff = if stale then accept_backoff_start else st.backoff in
    let since = if stale then now else get_or_insert st.failing_since now in
    let st' = record st { last_error = some now; failing_since = some since; backoff = backoff } in
    if leb accept_persistent_error_limit (now - since)
    then (st', dead e)
    else (record st' { backoff = min (backoff * 2) accept_backoff_max }, retry_after backoff)

unfoldable pub accept_round : AcceptState → ℕ → Incoming → AcceptState × Yield
accept_round st now ended = (st, finished)
accept_round st now conn =
    (record st { backoff = accept_backoff_start; failing_since = none }, connection)
accept_round st now (error e) =
    let logged = record st { limiter = (admit st.limiter now).0 } in
    if is_fatal (classify_accept_error e) then (logged, dead e) else on_error logged now e

abbrev pub initial : AcceptState
initial = record {
  limiter = record { last_logged = none; suppressed = 0 };
  backoff = accept_backoff_start;
  failing_since = none;
  last_error = none;
}

pub data TcpProbeOutcome : Type 0 where
  connected failed inconclusive : TcpProbeOutcome

-- `silent` is the source's `None`, `given_up` its `Fatal`.
pub data TcpHealthProbeLog : Type 0 where
  silent : TcpHealthProbeLog
  failing : ℕ → TcpHealthProbeLog
  given_up : ℕ → TcpHealthProbeLog
  recovered : TcpHealthProbeLog

abbrev pub warn_threshold : ℕ
warn_threshold = 3

abbrev pub exit_threshold : ℕ
exit_threshold = 4

unfoldable pub tcp_health_probe_transition : ℕ → TcpProbeOutcome → ℕ × TcpHealthProbeLog
tcp_health_probe_transition failures connected =
    (0, if leb warn_threshold failures then recovered else silent)
tcp_health_probe_transition failures inconclusive = (failures, silent)
tcp_health_probe_transition failures failed = (
  failures + 1,
  if leb exit_threshold (failures + 1)
      then given_up (failures + 1)
      else if leb warn_threshold (failures + 1)
      then failing (failures + 1)
      else silent,
)
