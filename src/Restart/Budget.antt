-- ===== src/Restart/Budget.antt =====
-- crates/tymux-core/src/restart.rs: the sliding window holds at most `max_restarts` restarts.
use tymux.Base.{
  ℕ, ◌≤◌, ◌<◌, ◌≡◌, refl, sym, ap, ◌∙◌, subst, ◌⊎◌, inl, inr, true, false, Option, none, List, [],
  ◌∷◌, ◌++◌, append_assoc, leb, length, length-append, arith, Bool-cases,
}
use tymux.Restart.Policy.{Float64, RestartPolicy}
use tymux.Restart.{
  backoff, PaneSupervisor, new, ran_for, is_backoff, count_after, pop_expired, window_start,
  on_started, begin_restart, schedule_manual_restart_now, request_stop, request_restart,
  after_failure, on_exit, on_spawn_failed,
}
use tymux.Restart.Lifecycle.{dead}

-- Every time of the list is at most `start`.
abbrev pub Below : ℕ → List ℕ → Type 0
Below start [] = Unit {0}
Below start (t ∷ rest) = (t ≤ start) × Below start rest

Below-mono : {a b : ℕ} (xs : List ℕ) → a ≤ b → Below a xs → Below b xs
Below-mono [] h v = tt
Below-mono (t ∷ rest) h v = (omega arith, Below-mono rest h v.1)

Below-append : (a : ℕ) (xs ys : List ℕ) → Below a xs → Below a ys → Below a (xs ++ ys)
Below-append a [] ys h k = k
Below-append a (t ∷ rest) ys h k = (h.0, Below-append a rest ys h.1 k)

count_after-Below :
    (start : ℕ) (old log : List ℕ) → Below start old → count_after start (old ++ log) ≤ length log
count_after-Below start [] [] h = omega arith
count_after-Below start [] (t ∷ rest) h = ground (arith, count_after-Below start [] rest tt)
count_after-Below start (t ∷ old) log h = ground (arith, count_after-Below start old log h.1)

pop_expired-split :
    (start : ℕ) (log : List ℕ)
    → (dropped : List ℕ) × (log ≡ dropped ++ pop_expired start log) × Below start dropped
unfolding pop_expired
pop_expired-split start [] = ([], refl, tt)
pop_expired-split start (t ∷ rest) = elim (Bool-cases (leb t start)) [
  | inl e ↦
      let (dropped, p, b) = pop_expired-split start rest in
      rw e (t ∷ dropped, ap (◌∷◌ t) p, (ground arith, b))
  | inr e ↦ rw e ([], refl, tt)
]

window_start_mono :
    {F : Type 0} (p : RestartPolicy F) (a b : ℕ) → a ≤ b → window_start p a ≤ window_start p b
unfolding window_start
window_start_mono p a b h = ground arith

-- A supervisor with the times of all its automatic restarts, oldest first, and the last time seen.
pub record World (F : Type 0) : Type 0 where
  pub sup : PaneSupervisor F
  pub restarts : List ℕ
  pub clock : ℕ

-- The calls that do not reset the budget or the policy, at times that do not go back.
pub data Tick (fl : Float64) (w : World fl.F) : World fl.F → Type 0 where
  starts : (now : ℕ) → Tick fl w (record w { sup = on_started w.sup now })
  exits :
      (now : ℕ) (code signal : Option ℕ) (unit : fl.F)
      → w.clock ≤ now
      → Tick fl w (record w { sup = (on_exit fl w.sup now code signal unit).0; clock = now })
  spawn_fails :
      (now : ℕ) (unit : fl.F)
      → w.clock ≤ now
      → Tick fl w (record w { sup = (on_spawn_failed fl w.sup now unit).0; clock = now })
  restarts_automatically :
      (now : ℕ)
      → w.clock ≤ now
      → w.sup.state ≡ backoff
      → Tick fl w (record {
        sup = begin_restart w.sup now true;
        restarts = w.restarts ++ (now ∷ []);
        clock = now;
      })
  restarts_manually : (now : ℕ) → Tick fl w (record w { sup = begin_restart w.sup now false })
  schedules_manual :
      (now : ℕ) → Tick fl w (record w { sup = schedule_manual_restart_now w.sup now })
  requests_restart : Tick fl w (record w { sup = (request_restart w.sup false).0 })
  stops : Tick fl w (record w { sup = (request_stop w.sup).0 })

pub data Ticks (fl : Float64) (w : World fl.F) : World fl.F → Type 0 where
  here : Ticks fl w w
  next : {u v : World fl.F} → Ticks fl w u → Tick fl u v → Ticks fl w v

pub record IsBudgeted {F : Type 0} (p : RestartPolicy F) (w : World F) : Type 0 where
  pub same : w.sup.policy ≡ p
  pub old : List ℕ
  pub split : w.restarts ≡ old ++ w.sup.restart_log
  pub below : Below (window_start p w.clock) old
  pub within : length w.sup.restart_log ≤ p.max_restarts
  pub spare : (is_backoff w.sup.state ≡ false) ⊎ (length w.sup.restart_log < p.max_restarts)

module _ (fl : Float64) where
  -- What `after_failure` does to the log: nothing, or it drops what has left the window and
  -- schedules only with room to spare.
  after_failure-log :
      (s : PaneSupervisor fl.F) (now : ℕ) (code ran : Option ℕ) (unit : fl.F)
      → let t = (after_failure fl s now code ran unit).0 in
        (t.policy ≡ s.policy)
        × (((t.restart_log ≡ s.restart_log) × (is_backoff t.state ≡ false))
            ⊎ ((t.restart_log ≡ pop_expired (window_start s.policy now) s.restart_log)
                × ((is_backoff t.state ≡ false) ⊎ (length t.restart_log < s.policy.max_restarts))))
  unfolding after_failure
  after_failure-log s now code ran unit = ground arith

  IsBudgeted-failure :
      (p : RestartPolicy fl.F) (s : PaneSupervisor fl.F) (history : List ℕ) (clock now : ℕ)
      (code ran : Option ℕ) (unit : fl.F) (old : List ℕ)
      → s.policy ≡ p
      → history ≡ old ++ s.restart_log
      → Below (window_start p clock) old
      → length s.restart_log ≤ p.max_restarts
      → clock ≤ now
      → IsBudgeted p (record {
        sup = (after_failure fl s now code ran unit).0;
        restarts = history;
        clock = now;
      })
  IsBudgeted-failure p s history clock now code ran unit old e split below within later =
      let t = (after_failure fl s now code ran unit).0 in
      let (policy_eq, change) = after_failure-log s now code ran unit in
      let old_below : Below (window_start p now) old =
        Below-mono old (window_start_mono p clock now later) below in
      elim change [
        | inl (log_eq, idle) ↦ record {
          same = policy_eq ∙ e;
          old = old;
          split = rw log_eq split;
          below = old_below;
          within = rw log_eq within;
          spare = inl idle;
        }
        | inr (log_eq, room) ↦
            let (dropped, p_eq, gone) =
              pop_expired-split (window_start s.policy now) s.restart_log in
            record {
              same = policy_eq ∙ e;
              old = old ++ dropped;
              split =
                  split
                  ∙ ap (◌++◌ old) (p_eq ∙ ap (◌++◌ dropped) (sym log_eq))
                  ∙ sym (append_assoc old dropped t.restart_log);
              below =
                  Below-append _ old dropped old_below
                    (subst (λ q. Below (window_start q now) dropped) e gone);
              within = omega (
                arith,
                ap length p_eq,
                length-append dropped (pop_expired (window_start s.policy now) s.restart_log),
                ap length log_eq,
              );
              spare = elim room [ inl idle ↦ inl idle | inr less ↦ inr (rw (← e) less) ];
            }
      ]

  -- A call that keeps the policy and the log, and does not schedule.
  IsBudgeted-idle :
      (p : RestartPolicy fl.F) (w : World fl.F) (t : PaneSupervisor fl.F) (now : ℕ)
      → IsBudgeted p w
      → w.clock ≤ now
      → t.policy ≡ w.sup.policy
      → t.restart_log ≡ w.sup.restart_log
      → (is_backoff t.state ≡ false) ⊎ (length w.sup.restart_log < p.max_restarts)
      → IsBudgeted p (record { sup = t; restarts = w.restarts; clock = now })
  IsBudgeted-idle p w t now b later policy_eq log_eq calm = record {
    same = policy_eq ∙ b.same;
    old = b.old;
    split = rw log_eq b.split;
    below = Below-mono b.old (window_start_mono p w.clock now later) b.below;
    within = rw log_eq b.within;
    spare = rw log_eq calm;
  }

  exits-IsBudgeted :
      (p : RestartPolicy fl.F) (w : World fl.F) (now : ℕ) (code signal : Option ℕ) (unit : fl.F)
      → IsBudgeted p w
      → w.clock ≤ now
      → IsBudgeted p (record w { sup = (on_exit fl w.sup now code signal unit).0; clock = now })
  unfolding on_exit
  exits-IsBudgeted p w now code signal unit b later = elim (Bool-cases w.sup.stop_requested) [
    | inl e ↦ rw (e, on_exit) (IsBudgeted-idle p w _ now b later refl refl (inl refl))
    | inr e ↦ elim (Bool-cases w.sup.restart_requested) [
      | inl f ↦ rw (e, f, on_exit) (IsBudgeted-idle p w _ now b later refl refl (inl refl))
      | inr f ↦
          rw (e, f, on_exit)
            (IsBudgeted-failure p
              (record (dead fl w.sup now code signal) {
                stop_requested = false;
                restart_requested = false;
              })
              w.restarts w.clock now code (ran_for w.sup.started_at_ms now) unit b.old b.same
              b.split b.below b.within later)
    ]
  ]

  automatic-IsBudgeted :
      (p : RestartPolicy fl.F) (w : World fl.F) (now : ℕ)
      → IsBudgeted p w
      → w.clock ≤ now
      → w.sup.state ≡ backoff
      → IsBudgeted p (record {
        sup = begin_restart w.sup now true;
        restarts = w.restarts ++ (now ∷ []);
        clock = now;
      })
  unfolding begin_restart
  automatic-IsBudgeted p w now b later h = record {
    same = b.same;
    old = b.old;
    split =
        ap (λ (xs : List ℕ). xs ++ (now ∷ [])) b.split
        ∙ append_assoc b.old w.sup.restart_log (now ∷ []);
    below = Below-mono b.old (window_start_mono p w.clock now later) b.below;
    within = ground (arith, length-append w.sup.restart_log (now ∷ []), b.spare);
    spare = inl refl;
  }

  Tick-IsBudgeted :
      (p : RestartPolicy fl.F) {w v : World fl.F} → Tick fl w v → IsBudgeted p w → IsBudgeted p v
  unfolding on_started begin_restart schedule_manual_restart_now request_restart request_stop
      on_spawn_failed
  Tick-IsBudgeted p {w = w} (starts now) b =
      IsBudgeted-idle p w _ w.clock b (omega arith) refl refl (inl refl)
  Tick-IsBudgeted p {w = w} (exits now code signal unit later) b =
      exits-IsBudgeted p w now code signal unit b later
  Tick-IsBudgeted p {w = w} (spawn_fails now unit later) b =
      IsBudgeted-failure p (record w.sup { started_at_ms = none; next_restart_at_ms = none })
        w.restarts w.clock now none none unit b.old b.same b.split b.below b.within later
  Tick-IsBudgeted p {w = w} (restarts_automatically now later h) b =
      automatic-IsBudgeted p w now b later h
  Tick-IsBudgeted p {w = w} (restarts_manually now) b =
      IsBudgeted-idle p w _ w.clock b (omega arith) refl refl (inl refl)
  Tick-IsBudgeted p {w = w} (schedules_manual now) b =
      IsBudgeted-idle p w _ w.clock b (omega arith) refl refl (inl refl)
  Tick-IsBudgeted p {w = w} requests_restart b =
      IsBudgeted-idle p w _ w.clock b (omega arith) refl refl (ground (arith, b.spare))
  Tick-IsBudgeted p {w = w} stops b =
      IsBudgeted-idle p w _ w.clock b (omega arith) refl refl (inl refl)

  abbrev pub fresh : RestartPolicy fl.F → World fl.F
  fresh p = record { sup = new p; restarts = []; clock = 0 }

  Ticks-IsBudgeted :
      (p : RestartPolicy fl.F) {w v : World fl.F} → IsBudgeted p w → Ticks fl w v → IsBudgeted p v
  Ticks-IsBudgeted p b here = b
  Ticks-IsBudgeted p b (next r t) = Tick-IsBudgeted p t (Ticks-IsBudgeted p b r)

  fresh-IsBudgeted : (p : RestartPolicy fl.F) → IsBudgeted p (fresh p)
  unfolding new
  fresh-IsBudgeted p = record {
    same = refl;
    old = [];
    split = refl;
    below = tt;
    within = omega arith;
    spare = inl refl;
  }

  -- From a new supervisor, through any starts, exits, failed spawns, stops and restarts at times that
  -- do not go back, without a budget reset or a change of policy: the automatic restarts of all
  -- time that lie after the start of the window at the last time seen are at most `max_restarts`.
  pub restart_budget :
      (p : RestartPolicy fl.F) (w : World fl.F)
      → Ticks fl (fresh p) w
      → count_after (window_start p w.clock) w.restarts ≤ p.max_restarts
  restart_budget p w r =
      let b = Ticks-IsBudgeted p (fresh-IsBudgeted p) r in
      rw b.split (
        omega (
          arith,
          count_after-Below (window_start p w.clock) b.old w.sup.restart_log b.below,
          b.within,
        ))
