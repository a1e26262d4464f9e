-- ===== src/Observe/Ready.antt =====
-- When `observe` of observation.py reports that something is ready.
use iaas.Prelude.{
  ℕ, zero, suc, ◌≡◌, ◌≢◌, ◌∙◌, ap, sym, refl, Option, none, some, Bool-cases, inl, inr, arith,
  subst, length,
}
use iaas.Prelude.Int.{ℤ, min_ℤ}
use iaas.Value.{Fields, end}
use iaas.Observe.Facts.{safe_facts}
use iaas.Observe.Trail.{length-append_row}
use iaas.Observe.{
  Status, ready, pending, invalid, Decision, Env, Outcome, decided, State, Continue, call, log,
  expire, keep_last, interrupted, wait, settle_by, timed, judged_by, decide, asked, loop, observe,
}

module _ (env : Env) where
  -- What attempt `attempt` found was classified so, and the budget had time before and after it. The
  -- two calls of the budget are the last of `calls`.
  pub record IsTimely (d : Decision) (attempt calls : ℕ) : Type 0 where
    pub before : ℕ
    pub left : ℤ
    pub granted : env.remaining before ≡ some left
    pub status : (decide env (env.probe attempt left)).status ≡ ready
    pub reason : (decide env (env.probe attempt left)).reason ≡ d.reason
    pub evidence : safe_facts (decide env (env.probe attempt left)).evidence ≡ d.evidence
    pub left_after : ℤ
    pub granted_after : env.remaining (suc before) ≡ some left_after
    pub last_call : calls ≡ suc (suc before)

  abbrev pub TimelyIfReady : Option (Outcome × State) → Type 0
  TimelyIfReady (some (decided d, s)) = d.status ≡ ready → IsTimely d (length s.rows) s.calls
  TimelyIfReady _ = Unit

  abbrev Keeps : Continue → Type 0
  Keeps next =
      (attempt : ℕ) (last : Fields) (s : State)
      → attempt ≡ length s.rows
      → TimelyIfReady (next attempt last s)

  module _ (next : Continue) (keeps : Keeps next) where
    wait-Keeps : (left : Option ℤ) → Keeps (wait env left next)
    unfolding wait interrupted
    wait-Keeps none attempt last s n = λ e. cc
    wait-Keeps (some left) attempt last s n =
        elim (Bool-cases (env.sleep attempt (min_ℤ env.interval left))) [
          | inl e ↦ rw e (λ p. cc)
          | inr e ↦ rw e (keeps attempt last s n)
        ]

    settle_by-Keeps :
        (st : Status) (d : Decision) (attempt : ℕ) (last : Fields) (s : State)
        → attempt ≡ suc (length s.rows)
        → (d.status ≡ ready → IsTimely d attempt s.calls)
        → TimelyIfReady (settle_by env st d next attempt last s)
    unfolding settle_by
    settle_by-Keeps pending d attempt last s n timely =
        wait-Keeps (env.remaining s.calls) attempt last (call (log attempt d s))
          (n ∙ sym (length-append_row s.rows _))
    settle_by-Keeps _ d attempt last s n timely =
        λ h. subst (λ a. IsTimely d a s.calls) (n ∙ sym (length-append_row s.rows _)) (timely h)

    expire-ne-ready : (d : Decision) → (expire d).status ≢ ready
    unfolding expire
    expire-ne-ready d = ground arith

    timed-IsTimely :
        (answer : Option ℤ) (d : Decision) (attempt : ℕ) (left : ℤ) (before : ℕ)
        → d ≡ decide env (env.probe attempt left)
        → env.remaining before ≡ some left
        → env.remaining (suc before) ≡ answer
        → let d' = timed env answer (record d { evidence = safe_facts d.evidence }) in
          d'.status ≡ ready → IsTimely d' attempt (suc (suc before))
    unfolding timed
    timed-IsTimely none d attempt left before e granted after p =
        absurd (expire-ne-ready (record d { evidence = safe_facts d.evidence }) p)
    timed-IsTimely (some left_after) d attempt left before e granted after p = record {
      before = before;
      left = left;
      granted = granted;
      status = rw (← e) p;
      reason = rw (← e) refl;
      evidence = rw (← e) refl;
      left_after = left_after;
      granted_after = after;
      last_call = refl;
    }

    judged_by-Keeps :
        (st : Status) (d : Decision) (attempt : ℕ) (left : ℤ) (last : Fields) (s : State)
        → d ≡ decide env (env.probe attempt left)
        → env.remaining s.calls ≡ some left
        → attempt ≡ suc (length s.rows)
        → TimelyIfReady (judged_by env st d next attempt last (call s))
    unfolding judged_by
    judged_by-Keeps invalid d attempt left last s e granted n = tt
    judged_by-Keeps _ d attempt left last s e granted n =
        let facts = safe_facts d.evidence in
        let d' = timed env (env.remaining (suc s.calls)) (record d { evidence = facts }) in
        settle_by-Keeps d'.status d' attempt (keep_last facts last) (call (call s)) n
          (timed-IsTimely (env.remaining (suc s.calls)) d attempt left s.calls e granted refl)

    asked-Keeps :
        (left : Option ℤ) (attempt : ℕ) (last : Fields) (s : State)
        → env.remaining s.calls ≡ left
        → attempt ≡ length s.rows
        → TimelyIfReady (asked env left next attempt last (call s))
    unfolding asked
    asked-Keeps none attempt last s granted n = λ e. cc
    asked-Keeps (some left) attempt last s granted n =
        judged_by-Keeps (decide env (env.probe (suc attempt) left)).status
          (decide env (env.probe (suc attempt) left)) (suc attempt) left last s refl granted
          (ap suc n)

  loop-Keeps : (fuel : ℕ) → Keeps (loop env fuel)
  unfolding loop
  loop-Keeps zero attempt last s n = tt
  loop-Keeps (suc fuel) attempt last s n =
      asked-Keeps (loop env fuel) (loop-Keeps fuel) (env.remaining s.calls) attempt last s refl n

-- `ready` is returned only if the last attempt was decided as ready, with that reason and, reduced,
-- that evidence: the probe with the number of the last row, which is the number of rows, asked with the
-- time that the budget granted, was classified so, or `retry_error` decided so of its exception. Of the
-- calls of the budget, the last but one granted that time, and the last, after the probe, still found
-- time left.
pub observe-IsTimely :
    (env : Env) (fuel : ℕ) (d : Decision) (s : State)
    → observe env fuel ≡ some (decided d, s)
    → d.status ≡ ready
    → IsTimely env d (length s.rows) s.calls
unfolding observe
observe-IsTimely env fuel d s h = subst (TimelyIfReady env) h (loop-Keeps env fuel 0 end _ refl)
