-- ===== src/Observe/Total.antt =====
-- `observe` of observation.py ends: at the latest when the budget refuses.
use iaas.Prelude.{
  ℕ, zero, suc, ◌+◌, ◌≤◌, ◌<◌, ◌≡◌, refl, Option, none, some, Bool-cases, inl, inr, arith,
}
use iaas.Prelude.Int.{ℤ, min_ℤ}
use iaas.Value.{Fields, end}
use iaas.Observe.Facts.{safe_facts}
use iaas.Observe.{
  Status, pending, invalid, Decision, Env, Outcome, State, Continue, call, log, keep_last,
  interrupted, wait, settle_by, timed, judged_by, decide, asked, loop, observe,
}
use iaas.Observe.Trail.{expire-ne-pending, IsTrail, HasTrail, observe-HasTrail}

abbrev Returns : Option (Outcome × State) → Type 0
Returns none = ⊥
Returns (some r) = Unit

-- The n-th call of `budget.remaining` raises.
module _ (env : Env) (n : ℕ) (refused : env.remaining n ≡ none) where
  abbrev Ends : Continue → Type 0
  Ends next =
      (attempt : ℕ) (last : Fields) (s : State) → s.calls ≤ n → Returns (next attempt last s)

  not_yet : (k : ℕ) {left : ℤ} → env.remaining k ≡ some left → k ≤ n → suc k ≤ n
  not_yet k e h = ground arith

  module _ (fuel : ℕ)
      (ends : (attempt : ℕ) (last : Fields) (s : State)
        → s.calls ≤ n
        → n < s.calls + fuel
        → Returns (loop env fuel attempt last s)) where
    module _ (attempt : ℕ) (last : Fields) (s : State) (soon : s.calls ≤ n)
        (enough : n < s.calls + fuel) where
      wait-Returns :
          (left : Option ℤ)
          → env.remaining s.calls ≡ left
          → Returns (wait env left (loop env fuel) attempt last (call s))
      unfolding wait interrupted
      wait-Returns none e = tt
      wait-Returns (some left) e = elim (Bool-cases (env.sleep attempt (min_ℤ env.interval left))) [
        | inl b ↦ rw b tt
        | inr b ↦ rw b (ends attempt last (call s) (not_yet s.calls e soon) (omega arith))
      ]

    settle_by-Returns :
        (st : Status) (d : Decision) (attempt : ℕ) (last : Fields) (s : State)
        → (st ≡ pending → s.calls ≤ n)
        → n < s.calls + fuel
        → Returns (settle_by env st d (loop env fuel) attempt last s)
    unfolding settle_by
    settle_by-Returns pending d attempt last s soon enough =
        wait-Returns attempt last (log attempt d s) (soon refl) enough (env.remaining s.calls) refl
    settle_by-Returns _ d attempt last s soon enough = tt

    timed-soon :
        (left : Option ℤ) (d : Decision) (k : ℕ)
        → env.remaining k ≡ left
        → k ≤ n
        → (timed env left d).status ≡ pending
        → suc k ≤ n
    unfolding timed
    timed-soon none d k e h p = absurd (expire-ne-pending d p)
    timed-soon (some left) d k e h p = not_yet k e h

    judged_by-Returns :
        (st : Status) (d : Decision) (attempt : ℕ) (last : Fields) (s : State)
        → s.calls ≤ n
        → n < s.calls + fuel
        → Returns (judged_by env st d (loop env fuel) attempt last s)
    unfolding judged_by
    judged_by-Returns invalid d attempt last s soon enough = tt
    judged_by-Returns _ d attempt last s soon enough =
        let facts = safe_facts d.evidence in
        let d' = timed env (env.remaining s.calls) (record d { evidence = facts }) in
        settle_by-Returns d'.status d' attempt (keep_last facts last) (call s)
          (timed-soon (env.remaining s.calls) (record d { evidence = facts }) s.calls refl soon)
          (omega arith)

    asked-Returns :
        (left : Option ℤ) (attempt : ℕ) (last : Fields) (s : State)
        → env.remaining s.calls ≡ left
        → s.calls ≤ n
        → n < s.calls + suc fuel
        → Returns (asked env left (loop env fuel) attempt last (call s))
    unfolding asked
    asked-Returns none attempt last s e soon enough = tt
    asked-Returns (some left) attempt last s e soon enough =
        judged_by-Returns (decide env (env.probe (suc attempt) left)).status _ (suc attempt) last
          (call s) (not_yet s.calls e soon) (omega arith)

  loop-Returns :
      (fuel attempt : ℕ) (last : Fields) (s : State)
      → s.calls ≤ n
      → n < s.calls + fuel
      → Returns (loop env fuel attempt last s)
  unfolding loop
  loop-Returns zero attempt last s soon enough = absurd (omega arith)
  loop-Returns (suc fuel) attempt last s soon enough =
      asked-Returns fuel (loop-Returns fuel) (env.remaining s.calls) attempt last s refl soon enough

with-IsTrail :
    (env : Env) (r : Option (Outcome × State))
    → Returns r
    → HasTrail env r
    → (o : Outcome) × (s : State) × (r ≡ some (o, s)) × IsTrail env o s.rows
with-IsTrail env none h t = absurd h
with-IsTrail env (some (o, s)) h t = (o, s, refl, t)

-- If call `n` of the budget is refused, the loop ends within `n + 1` rounds. The rows before the last
-- are those of the attempts 1, 2, 3 and so on, each pending by what its own probe was decided as. The
-- last row is the returned decision, which is not pending: it is what the next probe was decided as, also
-- where the deadline passed meanwhile, or it is unknown, without a further attempt, and has the number
-- of the attempt before. All rows hold safe facts; before a `ValueError` there are pending rows only.
pub observe-IsTrail :
    (env : Env) (n : ℕ)
    → env.remaining n ≡ none
    → (o : Outcome) × (s : State) × (observe env (suc n) ≡ some (o, s)) × IsTrail env o s.rows
unfolding observe
observe-IsTrail env n refused =
    with-IsTrail env (observe env (suc n))
      (loop-Returns env n refused (suc n) 0 end _ (omega arith) (omega arith))
      (observe-HasTrail env (suc n))
