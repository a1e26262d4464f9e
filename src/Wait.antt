-- ===== src/Wait.antt =====
-- src/iaas/opnsense_workflow/waiting.py: the bounded, read-only wait for a completion observation.
-- Times are natural numbers of one fixed tick. What the process does not control, the clock, the
-- read callback and the sleeper, is an `Env`: what each answers to its n-th call.

pub mod Bounds
pub mod Evidence
pub mod Examples
pub mod Admission
pub mod Progress
use iaas.Prelude.{
  ℕ, zero, suc, ◌+◌, ◌-◌, Bool, true, false, not, ◌||◌, Option, none, some, List, [], ◌∷◌, Text,
  codes, is_in, lower, ltb, leb, min, if◌then◌else◌,
}

pub record Policy : Type 0 where
  pub deadline_seconds : ℕ
  pub max_attempts : ℕ
  pub request_timeout_seconds : ℕ
  pub interval_seconds : ℕ

pub data Status : Type 0 where
  confirmed failed unknown : Status

pub data Reason : Type 0 where
  completed explicit_failure incomplete_evidence deadline request_timeout cancelled unreadable
        unconfirmed unknown_state unsupported attempt_limit :
      Reason

-- The entries of the provider's mapping that the wait reads: `status` if it is a `str`, and
-- whether `complete`, `fresh` and `truncated` are `True`.
pub record Observation : Type 0 where
  pub status : Option Text
  pub complete : Bool
  pub fresh : Bool
  pub truncated : Bool

pub record WaitResult : Type 0 where
  pub status : Status
  pub reason : Reason
  pub attempts : ℕ
  pub elapsed_seconds : ℕ
  pub last_observation : Option Observation

-- What a callback may raise: `TimeoutError`, another `Exception`, or another `BaseException`, the
-- last two with whether the class is named `CancelledError` or `CanceledError`.
pub data Failure : Type 0 where
  timeout_error : Failure
  exception : Bool → Failure
  base_exception : Bool → Failure

pub data Read : Type 0 where
  mapping : Observation → Read
  not_mapping : Read
  raised : Failure → Read

pub record Env : Type 0 where
  pub clock : ℕ → ℕ
  pub read : ℕ → ℕ → Read
  pub sleep : ℕ → ℕ → Option Failure

-- What the wait has done so far: the clock calls, and each read and sleep with the clock reading
-- that was last taken before it and the duration that it was given, the latest first.
pub record Trace : Type 0 where
  pub ticks : ℕ
  pub reads : List (ℕ × ℕ)
  pub sleeps : List (ℕ × ℕ)

-- An exception that the wait passes on is `reraised`.
pub data Outcome : Type 0 where
  returned : WaitResult → Outcome
  reraised : Outcome

pub data Verdict : Type 0 where
  final : Status → Reason → Verdict
  again : Verdict

abbrev pub confirmed_states : List Text
confirmed_states = codes "confirmed" ∷ []

abbrev pub failed_states : List Text
failed_states = codes "failed" ∷ codes "failure" ∷ codes "error" ∷ []

abbrev pub processing_states : List Text
processing_states = codes "processing" ∷ []

abbrev pub unknown_terminal_states : List Text
unknown_terminal_states =
    codes "accepted"
    ∷ codes "canceled"
    ∷ codes "cancelled"
    ∷ codes "incomplete"
    ∷ codes "pending"
    ∷ codes "timeout"
    ∷ codes "unknown"
    ∷ codes "unconfirmed"
    ∷ codes "unsupported"
    ∷ []

unfoldable pub unknown_reason : Text → Reason
unfolding is_in
unknown_reason state =
    if is_in state (codes "cancelled" ∷ codes "canceled" ∷ [])
    then cancelled
    else if is_in state (codes "timeout" ∷ [])
    then request_timeout
    else if is_in state (codes "accepted" ∷ codes "pending" ∷ codes "unconfirmed" ∷ [])
    then unconfirmed
    else if is_in state (codes "unknown" ∷ [])
    then unknown_state
    else if is_in state (codes "incomplete" ∷ [])
    then incomplete_evidence
    else unsupported

judge_state : Observation → Text → Verdict
judge_state o state =
    if is_in state confirmed_states
    then (if not o.complete || (not o.fresh || o.truncated)
        then final unknown incomplete_evidence
        else final confirmed completed)
    else if is_in state failed_states
    then final failed explicit_failure
    else if is_in state unknown_terminal_states
    then final unknown (unknown_reason state)
    else if not (is_in state processing_states)
    then final unknown unreadable
    else again

unfoldable pub judge : Observation → Verdict
unfolding judge_state
judge o = elim o.status [ none ↦ final unknown unreadable | some s ↦ judge_state o (lower s) ]

-- The `except` clauses; `none` is the bare `raise`.
unfoldable pub interruption : Failure → Option Reason
interruption timeout_error = some request_timeout
interruption (exception true) = some cancelled
interruption (exception false) = some unreadable
interruption (base_exception true) = some cancelled
interruption (base_exception false) = none

unfoldable pub result : Status → Reason → ℕ → ℕ → ℕ → Option Observation → Outcome
result status reason attempts started now last = returned (record {
  status = status;
  reason = reason;
  attempts = attempts;
  elapsed_seconds = now - started;
  last_observation = last;
})

abbrev pub tick : Trace → Trace
tick t = record t { ticks = suc t.ticks }

abbrev pub Continue : Type 0
Continue = ℕ → Option Observation → Trace → Outcome × Trace

module _ (env : Env) (policy : Policy) (started : ℕ) where
  -- A result whose `now` is one more `clock()` call.
  unfoldable pub stop_now : Reason → Continue
  unfolding result
  stop_now reason attempts last t =
      (result unknown reason attempts started (env.clock t.ticks) last, tick t)

  unfoldable pub stop_failure : Failure → Continue
  unfolding stop_now interruption
  stop_failure e attempts last t = elim (interruption e) [
    | none ↦ (reraised, t)
    | some reason ↦ stop_now reason attempts last t
  ]

  -- A processing observation: the attempt limit, the time that is left, and the sleep.
  unfoldable pub pause : ℕ → Continue → Continue
  unfolding stop_failure result
  pause observed_at next attempts last t =
      if leb policy.max_attempts attempts
      then (result unknown attempt_limit attempts started observed_at last, t)
      else if leb (started + policy.deadline_seconds) observed_at
      then (result unknown deadline attempts started observed_at last, t)
      else let wait_interval =
          min policy.interval_seconds (started + policy.deadline_seconds - observed_at) in
        let t' = record t { sleeps = (observed_at, wait_interval) ∷ t.sleeps } in
        elim (env.sleep attempts wait_interval) [
          | none ↦ next attempts last t'
          | some e ↦ stop_failure e attempts last t'
        ]

  unfoldable pub conclude : Verdict → ℕ → Continue → Continue
  unfolding pause result
  conclude (final status reason) observed_at next attempts last t =
      (result status reason attempts started observed_at last, t)
  conclude again observed_at next attempts last t = pause observed_at next attempts last t

  unfoldable pub observed : Observation → ℕ → Continue → Continue
  unfolding conclude
  observed o observed_at next attempts last t =
      if ltb (started + policy.deadline_seconds) observed_at
      then (result unknown deadline attempts started observed_at last, t)
      else conclude (judge o) observed_at next attempts last t

  unfoldable pub after_read : Read → Continue → Continue
  unfolding stop_now stop_failure observed
  after_read (raised e) next attempts last t = stop_failure e attempts last t
  after_read not_mapping next attempts last t = stop_now unreadable attempts last t
  after_read (mapping o) next attempts last t =
      observed o (env.clock t.ticks) next attempts (some o) (tick t)

  -- One round of the loop, from its first `clock()` call.
  unfoldable pub attempt : Continue → Continue
  unfolding after_read result
  attempt next attempts last t =
      let now = env.clock t.ticks in
      if leb (started + policy.deadline_seconds) now
      then (result unknown deadline attempts started now last, tick t)
      else let timeout =
          min policy.request_timeout_seconds (started + policy.deadline_seconds - now) in
        after_read (env.read (suc attempts) timeout) next (suc attempts) last
          (record (tick t) { reads = (now, timeout) ∷ t.reads })

  -- `while attempts < policy.max_attempts`, by recursion on the rounds that the test still admits.
  unfoldable pub poll : ℕ → Continue
  unfolding stop_now attempt
  poll zero = stop_now attempt_limit
  poll (suc left) = attempt (poll left)

unfoldable pub wait_for_confirmation : Env → Policy → Outcome × Trace
unfolding poll
wait_for_confirmation env policy =
    poll env policy (env.clock 0) policy.max_attempts 0 none
      (record { ticks = 1; reads = []; sleeps = [] })
