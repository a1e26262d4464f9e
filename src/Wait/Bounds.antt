-- ===== src/Wait/Bounds.antt =====
-- What the wait of opnsense_workflow/waiting.py does to the outside world.
use iaas.Prelude.{
  ℕ, zero, suc, ◌+◌, ◌≤◌, ◌≡◌, Option, none, some, List, ◌∷◌, arith, length, All, min, ◌-◌,
}
use iaas.Wait.{
  Policy, Reason, Observation, Failure, Read, mapping, not_mapping, raised, Env, Trace, Outcome,
  returned, reraised, Continue, stop_now, stop_failure, pause, observed, after_read, attempt, poll,
  wait_for_confirmation, tick,
}

-- Each call was made with a duration of at most `most`, which ends by the deadline if it is
-- counted from the clock reading taken before the call.
abbrev pub Timely : ℕ → ℕ → List (ℕ × ℕ) → Type 0
Timely deadline most = All (λ c. (c.1 ≤ most) × (c.0 + c.1 ≤ deadline))

abbrev pub Counts : ℕ → Outcome → Type 0
Counts n (returned r) = r.attempts ≡ n
Counts n reraised = Unit

module _ (policy : Policy) (started : ℕ) where
  -- The reads are as many as the attempts, and reads and sleeps are timely.
  pub record IsBounded (attempts : ℕ) (t : Trace) : Type 0 where
    pub counted : length t.reads ≡ attempts
    pub capped : attempts ≤ policy.max_attempts
    pub reads_timely :
        Timely (started + policy.deadline_seconds) policy.request_timeout_seconds t.reads
    pub sleeps_timely : Timely (started + policy.deadline_seconds) policy.interval_seconds t.sleeps

  pub record IsBoundedEnd (end : Outcome × Trace) : Type 0 where
    pub bounded : IsBounded (length (end.1).reads) end.1
    pub counts : Counts (length (end.1).reads) end.0

module _ (env : Env) (policy : Policy) (started : ℕ) where
  abbrev IsFinal : Outcome × Trace → Type 0
  IsFinal = IsBoundedEnd policy started

  abbrev Bounded : ℕ → Trace → Type 0
  Bounded = IsBounded policy started

  module _ (attempts : ℕ) (last : Option Observation) (t : Trace) (b : Bounded attempts t) where
    stop_now-IsFinal :
        (reason : Reason) → IsFinal (stop_now env policy started reason attempts last t)
    unfolding stop_now
    stop_now-IsFinal reason = ground arith

    stop_failure-IsFinal :
        (e : Failure) → IsFinal (stop_failure env policy started e attempts last t)
    unfolding stop_failure
    stop_failure-IsFinal e = ground arith

  -- The rest of the loop, given to a round, ends well from every bounded trace.
  abbrev EndsWell : ℕ → Continue → Type 0
  EndsWell attempts next =
      (last : Option Observation) (t : Trace) → Bounded attempts t → IsFinal (next attempts last t)

  module _ (next : Continue) (attempts : ℕ) (ends : EndsWell attempts next) where
    pause-IsFinal :
        (observed_at : ℕ) (last : Option Observation) (t : Trace)
        → Bounded attempts t
        → IsFinal (pause env policy started observed_at next attempts last t)
    unfolding pause
    pause-IsFinal observed_at last t b =
        let w = min policy.interval_seconds (started + policy.deadline_seconds - observed_at) in
        let t' : Trace = record t { sleeps = (observed_at, w) ∷ t.sleeps } in
        ground (arith, ends last t')

    observed-IsFinal :
        (o : Observation) (observed_at : ℕ) (last : Option Observation) (t : Trace)
        → Bounded attempts t
        → IsFinal (observed env policy started o observed_at next attempts last t)
    unfolding observed
    observed-IsFinal o observed_at last t b =
        let w = min policy.interval_seconds (started + policy.deadline_seconds - observed_at) in
        let t' : Trace = record t { sleeps = (observed_at, w) ∷ t.sleeps } in
        ground (arith, ends last t')

    after_read-IsFinal :
        (r : Read) (last : Option Observation) (t : Trace)
        → Bounded attempts t
        → IsFinal (after_read env policy started r next attempts last t)
    unfolding after_read
    after_read-IsFinal (raised e) last t b = stop_failure-IsFinal attempts last t b e
    after_read-IsFinal not_mapping last t b = stop_now-IsFinal attempts last t b _
    after_read-IsFinal (mapping o) last t b =
        observed-IsFinal o (env.clock t.ticks) (some o) (tick t) (record {
          counted = b.counted;
          capped = b.capped;
          reads_timely = b.reads_timely;
          sleeps_timely = b.sleeps_timely;
        })

  attempt-IsFinal :
      (next : Continue) (attempts : ℕ)
      → EndsWell (suc attempts) next
      → suc attempts ≤ policy.max_attempts
      → EndsWell attempts (attempt env policy started next)
  unfolding attempt
  attempt-IsFinal next attempts ends room last t b =
      let now = env.clock t.ticks in
      let timeout = min policy.request_timeout_seconds (started + policy.deadline_seconds - now) in
      let t' : Trace = record (tick t) { reads = (now, timeout) ∷ t.reads } in
      ground (
        arith,
        after_read-IsFinal next (suc attempts) ends (env.read (suc attempts) timeout) last t',
      )

  poll-IsFinal :
      (left attempts : ℕ)
      → attempts + left ≤ policy.max_attempts
      → EndsWell attempts (poll env policy started left)
  unfolding poll
  poll-IsFinal zero attempts room last t b = stop_now-IsFinal attempts last t b _
  poll-IsFinal (suc left) attempts room last t b =
      attempt-IsFinal (poll env policy started left) attempts
        (poll-IsFinal left (suc attempts) (omega arith)) (omega arith) last t b

-- Whatever the clock, the callback and the sleeper do, the wait makes at most `max_attempts` reads,
-- as many as the attempts that a returned result reports. Each read is given at most the request
-- timeout and each sleep at most the interval, and neither reaches past the deadline, counted from
-- the clock reading before it.
pub wait_for_confirmation-IsBoundedEnd :
    (env : Env) (policy : Policy)
    → IsBoundedEnd policy (env.clock 0) (wait_for_confirmation env policy)
unfolding wait_for_confirmation
wait_for_confirmation-IsBoundedEnd env policy =
    poll-IsFinal env policy (env.clock 0) policy.max_attempts 0 (omega arith) none _ (omega arith)
