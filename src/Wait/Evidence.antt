-- ===== src/Wait/Evidence.antt =====
-- What a result of the wait of opnsense_workflow/waiting.py says of the observations.
use iaas.Prelude.{
  ℕ, zero, suc, ◌+◌, ◌-◌, ◌≤◌, ◌≡◌, refl, true, false, Option, none, some, ◌∷◌, arith, min, Text,
  codes, lower, text_eq, text_eq_iff, is_in, Option-cases, Bool-cases, ltb, leb, subst, inl, inr,
}
use iaas.Wait.{
  Policy, Reason, Observation, Failure, Read, mapping, not_mapping, raised, Env, Trace, Outcome,
  returned, reraised, Continue, stop_now, stop_failure, pause, after_read, attempt, poll, conclude,
  Verdict, failed, unknown, WaitResult, wait_for_confirmation, judge, judge_state, final, again,
  tick, timeout_error, exception, base_exception, confirmed, completed,
}

-- Complete, fresh and untruncated evidence of a confirmed operation.
pub record IsConfirmation (o : Observation) : Type 0 where
  pub state : Text
  pub stated : o.status ≡ some state
  pub says : lower state ≡ codes "confirmed"
  pub complete : o.complete ≡ true
  pub fresh : o.fresh ≡ true
  pub whole : o.truncated ≡ false

judge_state-confirmed :
    (o : Observation) (s : Text) (reason : Reason)
    → judge_state o s ≡ final confirmed reason
    → (text_eq s (codes "confirmed") ≡ true)
      × (o.complete ≡ true)
      × (o.fresh ≡ true)
      × (o.truncated ≡ false)
      × (reason ≡ completed)
unfolding judge_state is_in
judge_state-confirmed o s reason h = ground arith

-- An observation is judged confirmed only on full evidence, and then as completed.
pub judge-IsConfirmation :
    (o : Observation) (reason : Reason)
    → judge o ≡ final confirmed reason
    → IsConfirmation o × (reason ≡ completed)
unfolding judge
judge-IsConfirmation o reason h = elim (Option-cases o.status) [
  | inl e ↦ absurd (ground arith)
  | inr (s, e) ↦
      let j : judge_state o (lower s) ≡ final confirmed reason = ground arith in
      let (says, complete, fresh, whole, why) = judge_state-confirmed o (lower s) reason j in
      (
        record {
          state = s;
          stated = e;
          says = (text_eq_iff (lower s) _).0 says;
          complete = complete;
          fresh = fresh;
          whole = whole;
        },
        why,
      )
]

module _ (env : Env) (policy : Policy) where
  -- The last read returned a confirmation, and was observed by the deadline.
  pub record IsEvidenced (r : WaitResult) : Type 0 where
    pub observation : Observation
    pub retained : r.last_observation ≡ some observation
    pub confirms : IsConfirmation observation
    pub timeout : ℕ
    pub read : env.read r.attempts timeout ≡ mapping observation
    pub reason : r.reason ≡ completed
    pub in_time : r.elapsed_seconds ≤ policy.deadline_seconds

  abbrev Honest : Outcome → Type 0
  Honest (returned r) = r.status ≡ confirmed → IsEvidenced r
  Honest reraised = Unit

  module _ (started : ℕ) where
    module _ (attempts : ℕ) (last : Option Observation) (t : Trace) where
      stop_now-Honest :
          (reason : Reason) → Honest (stop_now env policy started reason attempts last t).0
      unfolding stop_now
      stop_now-Honest reason = λ h. cc

      stop_failure-Honest :
          (e : Failure) → Honest (stop_failure env policy started e attempts last t).0
      unfolding stop_failure
      stop_failure-Honest timeout_error = λ h. cc
      stop_failure-Honest (exception true) = λ h. cc
      stop_failure-Honest (exception false) = λ h. cc
      stop_failure-Honest (base_exception true) = λ h. cc
      stop_failure-Honest (base_exception false) = tt

    abbrev StaysHonest : ℕ → Continue → Type 0
    StaysHonest attempts next =
        (last : Option Observation) (t : Trace) → Honest (next attempts last t).0

    module _ (next : Continue) (attempts : ℕ) (rest : StaysHonest attempts next) where
      pause-Honest :
          (observed_at : ℕ) (last : Option Observation) (t : Trace)
          → Honest (pause env policy started observed_at next attempts last t).0
      unfolding pause
      pause-Honest observed_at last t =
          let w = min policy.interval_seconds (started + policy.deadline_seconds - observed_at) in
          let t' : Trace = record t { sleeps = (observed_at, w) ∷ t.sleeps } in
          ground (arith, rest last t')

      conclude-Honest :
          (v : Verdict) (o : Observation) (timeout observed_at : ℕ) (t : Trace)
          → judge o ≡ v
          → env.read attempts timeout ≡ mapping o
          → observed_at ≤ started + policy.deadline_seconds
          → Honest (conclude env policy started v observed_at next attempts (some o) t).0
      unfolding conclude
      conclude-Honest again o timeout observed_at t j e early = pause-Honest observed_at (some o) t
      conclude-Honest (final failed reason) o timeout observed_at t j e early = λ h. cc
      conclude-Honest (final unknown reason) o timeout observed_at t j e early = λ h. cc
      conclude-Honest (final confirmed reason) o timeout observed_at t j e early = λ _. record {
        observation = o;
        retained = refl;
        confirms = (judge-IsConfirmation o reason j).0;
        timeout = timeout;
        read = e;
        reason = (judge-IsConfirmation o reason j).1;
        in_time = omega arith;
      }

      after_read-Honest :
          (r : Read) (timeout : ℕ) (last : Option Observation) (t : Trace)
          → env.read attempts timeout ≡ r
          → Honest (after_read env policy started r next attempts last t).0
      unfolding after_read
      after_read-Honest (raised e) timeout last t _ = stop_failure-Honest attempts last t e
      after_read-Honest not_mapping timeout last t _ = stop_now-Honest attempts last t _
      after_read-Honest (mapping o) timeout last t e =
          elim (Bool-cases (ltb (started + policy.deadline_seconds) (env.clock t.ticks))) [
            | inl late ↦ rw late (λ h. cc)
            | inr early ↦ rw early (
                conclude-Honest (judge o) o timeout (env.clock t.ticks) (tick t) refl e
                  (ground arith))
          ]

    attempt-Honest :
        (next : Continue) (attempts : ℕ)
        → StaysHonest (suc attempts) next
        → StaysHonest attempts (attempt env policy started next)
    unfolding attempt
    attempt-Honest next attempts rest last t =
        let now = env.clock t.ticks in
        let timeout =
          min policy.request_timeout_seconds (started + policy.deadline_seconds - now) in
        let t' : Trace = record (tick t) { reads = (now, timeout) ∷ t.reads } in
        elim (Bool-cases (leb (started + policy.deadline_seconds) now)) [
          | inl late ↦ rw late (λ h. cc)
          | inr early ↦ rw early (
              after_read-Honest next (suc attempts) rest (env.read (suc attempts) timeout) timeout
                last t' refl)
        ]

    poll-Honest : (left attempts : ℕ) → StaysHonest attempts (poll env policy started left)
    unfolding poll
    poll-Honest zero attempts last t = stop_now-Honest attempts last t _
    poll-Honest (suc left) attempts last t =
        attempt-Honest (poll env policy started left) attempts (poll-Honest left (suc attempts))
          last t

-- A confirmed result is honest: the read of its last attempt returned the retained observation,
-- that says `confirmed`, is complete, fresh and not truncated, and was observed by the deadline.
-- An exception, a late, partial or stale observation and a used-up policy never give `confirmed`.
pub wait_for_confirmation-Honest :
    (env : Env) (policy : Policy) (r : WaitResult)
    → (wait_for_confirmation env policy).0 ≡ returned r
    → r.status ≡ confirmed
    → IsEvidenced env policy r
unfolding wait_for_confirmation
wait_for_confirmation-Honest env policy r h =
    subst (Honest env policy) h (poll-Honest env policy (env.clock 0) policy.max_attempts 0 none _)
