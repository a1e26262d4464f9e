-- ===== src/Wait/Progress.antt =====
-- The wait of opnsense_workflow/waiting.py reaches the verdict that the provider gives in time.
use iaas.Prelude.{ℕ, zero, suc, ◌+◌, ◌-◌, ◌≤◌, ◌<◌, ◌≡◌, Option, none, some, ◌∷◌, arith, min}
use iaas.Wait.{
  Policy, Status, Reason, Observation, mapping, Env, Trace, Outcome, attempt, conclude, returned,
  reraised, pause, after_read, poll, wait_for_confirmation, judge, final, again, tick,
}

-- A result with this status and reason, after this many attempts, that retains this observation.
abbrev pub Decides : Status → Reason → ℕ → Observation → Outcome → Type 0
Decides status reason n o (returned r) =
    (r.status ≡ status) × (r.reason ≡ reason) × (r.attempts ≡ n) × (r.last_observation ≡ some o)
Decides status reason n o reraised = ⊥

-- An environment in which the clock stays before the deadline, sleeping is not interrupted, and the
-- reads up to the n-th return the observations `obs`, of which the n-th is the first that is not
-- judged to be processing.
pub record Answers (env : Env) (policy : Policy) (obs : ℕ → Observation) (n : ℕ) (status : Status)
    (reason : Reason) : Type 0 where
  pub within : n ≤ policy.max_attempts
  pub early : (i : ℕ) → env.clock i < env.clock 0 + policy.deadline_seconds
  pub rested : (i τ : ℕ) → env.sleep i τ ≡ none
  pub answered : (i τ : ℕ) → i ≤ n → env.read i τ ≡ mapping (obs i)
  pub processing : (i : ℕ) → i < n → judge (obs i) ≡ again
  pub decided : judge (obs n) ≡ final status reason

module _ (env : Env) (policy : Policy) (obs : ℕ → Observation) (n : ℕ) (status : Status)
    (reason : Reason) (h : Answers env policy obs n status reason) where
  poll-Decides :
      (left d attempts : ℕ) (last : Option Observation) (t : Trace)
      → attempts + suc d ≡ n
      → n ≤ attempts + left
      → Decides status reason n (obs n) (poll env policy (env.clock 0) left attempts last t).0
  unfolding poll attempt after_read conclude pause
  poll-Decides zero d attempts last t e room = absurd (omega arith)
  poll-Decides (suc left) zero attempts last t e room =
      let now = env.clock t.ticks in
      let timeout =
        min policy.request_timeout_seconds (env.clock 0 + policy.deadline_seconds - now) in
      ground (
        arith,
        h.early t.ticks,
        h.early (suc t.ticks),
        h.answered (suc attempts) timeout,
        h.decided,
      )
  poll-Decides (suc left) (suc d) attempts last t e room =
      let now = env.clock t.ticks in
      let timeout =
        min policy.request_timeout_seconds (env.clock 0 + policy.deadline_seconds - now) in
      let later = env.clock (suc t.ticks) in
      let w = min policy.interval_seconds (env.clock 0 + policy.deadline_seconds - later) in
      let t1 : Trace = record (tick (tick t)) {
        reads = (now, timeout) ∷ t.reads;
        sleeps = (later, w) ∷ t.sleeps;
      } in
      ground (
        arith,
        h.early t.ticks,
        h.early (suc t.ticks),
        h.answered (suc attempts) timeout,
        h.processing (suc attempts),
        h.rested (suc attempts) w,
        poll-Decides left d (suc attempts) (some (obs (suc attempts))) t1,
      )

-- In such an environment the wait returns the verdict on the first observation that is not
-- processing, after exactly that many attempts, and retains that observation.
pub wait_for_confirmation-Decides :
    (env : Env) (policy : Policy) (obs : ℕ → Observation) (k : ℕ) (status : Status)
    (reason : Reason)
    → Answers env policy obs (suc k) status reason
    → Decides status reason (suc k) (obs (suc k)) (wait_for_confirmation env policy).0
unfolding wait_for_confirmation
wait_for_confirmation-Decides env policy obs k status reason h =
    poll-Decides env policy obs (suc k) status reason h policy.max_attempts k 0 none _ (omega arith)
      (omega (arith, h.within))
