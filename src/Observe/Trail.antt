-- ===== src/Observe/Trail.antt =====
-- The rows that `observe` of observation.py hands to the sink, and the decision that it returns.
use iaas.Prelude.{
  ℕ, zero, suc, ◌+◌, ◌≡◌, ◌≢◌, ◌∙◌, ◌⊎◌, ap, sym, refl, Option, none, some, List, [], ◌∷◌, ◌++◌,
  Bool-cases, inl, inr, not, ◌&&◌, codes, arith, length, subst,
}
use iaas.Prelude.Int.{ℤ, min_ℤ}
use iaas.Value.{Fields, end, has_key}
use iaas.Observe.Facts.{safe_facts}
use iaas.Observe.Safety.{AreSafeFields, safe_end, safe_facts-AreSafeFields}
use iaas.Observe.{
  Status, pending, unknown, invalid, Decision, Row, Env, Outcome, decided, value_error, State,
  Continue, call, log, is_empty, expire, keep_last, interrupted, wait, settle_by, timed, judged_by,
  decide, asked, loop, observe, finish,
}

abbrev pub reduced : Decision → Decision
reduced d = record d { evidence = safe_facts d.evidence }

module _ (env : Env) where
  -- What was decided of the probe of that number, as it is or after the deadline.
  abbrev pub IsVerdict : ℕ → Decision → Type 0
  IsVerdict attempt d =
      (left : ℤ) × ((d ≡ reduced (decide env (env.probe attempt left)))
        ⊎ (d ≡ expire (reduced (decide env (env.probe attempt left)))))

  -- The rows of the attempts behind the k-th, in order: each is pending, with safe facts, by the
  -- verdict of its own probe.
  abbrev pub ArePending : ℕ → List Row → Type 0
  ArePending k [] = Unit
  ArePending k (r ∷ rows) =
      ((r.attempt ≡ suc k)
        × (r.decision.status ≡ pending)
        × AreSafeFields 6 r.decision.evidence
        × IsVerdict (suc k) r.decision)
      × ArePending (suc k) rows

  -- The last row is the verdict of the attempt behind `n` pending ones; or no further attempt was made,
  -- and the row has the number of the last one.
  abbrev pub IsLast : ℕ → ℕ → Decision → Type 0
  IsLast n attempt d =
      ((attempt ≡ suc n) × IsVerdict attempt d) ⊎ ((attempt ≡ n) × (d.status ≡ unknown))

  -- The rows of a returned decision are pending rows and then the row of that decision, which is not
  -- pending and has safe facts. Before a `ValueError` there are pending rows only.
  abbrev pub IsTrail : Outcome → List Row → Type 0
  IsTrail (decided d) rows =
      (before : List Row) × (attempt : ℕ) × (rows
        ≡ before ++ (record { attempt = attempt; decision = d } ∷ []))
      × ArePending 0 before
      × IsLast (length before) attempt d
      × (d.status ≢ pending)
      × AreSafeFields 6 d.evidence
  IsTrail value_error rows = ArePending 0 rows

  abbrev pub HasTrail : Option (Outcome × State) → Type 0
  HasTrail none = Unit
  HasTrail (some (o, s)) = IsTrail o s.rows

  ArePending-append_row :
      (k : ℕ) (rows : List Row) (r : Row)
      → ArePending k rows
      → r.attempt ≡ suc (k + length rows)
      → r.decision.status ≡ pending
      → AreSafeFields 6 r.decision.evidence
      → IsVerdict r.attempt r.decision
      → ArePending k (rows ++ r ∷ [])
  ArePending-append_row k [] r h n p safe v =
      let first : r.attempt ≡ suc k = omega (arith, n) in
      ((first, p, safe, subst (λ a. IsVerdict a r.decision) first v), tt)
  ArePending-append_row k (x ∷ rows) r h n p safe v =
      (h.0, ArePending-append_row (suc k) rows r h.1 (omega (arith, n)) p safe v)

pub length-append_row : (rows : List Row) (r : Row) → length (rows ++ r ∷ []) ≡ suc (length rows)
length-append_row [] r = refl
length-append_row (x ∷ rows) r = ap suc (length-append_row rows r)

pub expire-ne-pending : (d : Decision) → (expire d).status ≢ pending
unfolding expire
expire-ne-pending d = ground arith

expire-evidence : (d : Decision) → (expire d).evidence ≡ d.evidence
unfolding expire
expire-evidence d = ground arith

keep_last-AreSafeFields :
    (facts last : Fields)
    → AreSafeFields 6 facts
    → AreSafeFields 6 last
    → AreSafeFields 6 (keep_last facts last)
unfolding keep_last
keep_last-AreSafeFields facts last hf hl =
    elim (Bool-cases (not (is_empty facts) && not (has_key (codes "category") facts))) [
      | inl e ↦ rw e hf
      | inr e ↦ rw e hl
    ]

module _ (env : Env) where
  abbrev Keeps : Continue → Type 0
  Keeps next =
      (attempt : ℕ) (last : Fields) (s : State)
      → attempt ≡ length s.rows
      → AreSafeFields 6 last
      → ArePending env 0 s.rows
      → HasTrail env (next attempt last s)

  finish-HasTrail :
      (d : Decision) (attempt : ℕ) (s : State)
      → d.status ≢ pending
      → IsLast env (length s.rows) attempt d
      → AreSafeFields 6 d.evidence
      → ArePending env 0 s.rows
      → HasTrail env (finish d attempt s)
  finish-HasTrail d attempt s ne final safe rows = (s.rows, attempt, refl, rows, final, ne, safe)

  interrupted-Keeps : Keeps (interrupted env)
  unfolding interrupted
  interrupted-Keeps attempt last s n safe rows =
      finish-HasTrail _ attempt s (λ e. cc) (inr (n, refl)) safe rows

  module _ (next : Continue) (keeps : Keeps next) where
    wait-Keeps : (left : Option ℤ) → Keeps (wait env left next)
    unfolding wait
    wait-Keeps none attempt last s n safe rows = interrupted-Keeps attempt last s n safe rows
    wait-Keeps (some left) attempt last s n safe rows =
        elim (Bool-cases (env.sleep attempt (min_ℤ env.interval left))) [
          | inl e ↦ rw e (interrupted-Keeps attempt last s n safe rows)
          | inr e ↦ rw e (keeps attempt last s n safe rows)
        ]

    settle_by-Keeps :
        (st : Status) (d : Decision) (attempt : ℕ) (last : Fields) (s : State)
        → d.status ≡ st
        → AreSafeFields 6 d.evidence
        → IsVerdict env attempt d
        → attempt ≡ suc (length s.rows)
        → AreSafeFields 6 last
        → ArePending env 0 s.rows
        → HasTrail env (settle_by env st d next attempt last s)
    unfolding settle_by
    settle_by-Keeps pending d attempt last s e facts v n safe rows =
        wait-Keeps (env.remaining s.calls) attempt last (call (log attempt d s))
          (n ∙ sym (length-append_row s.rows _)) safe
          (ArePending-append_row env 0 s.rows _ rows (omega (arith, n)) e facts v)
    settle_by-Keeps _ d attempt last s e facts v n safe rows =
        finish-HasTrail d attempt s (λ p. cc) (inl (n, v)) facts rows

    timed-safe :
        (left : Option ℤ) (d : Decision)
        → AreSafeFields 6 d.evidence
        → AreSafeFields 6 (timed env left d).evidence
    unfolding timed
    timed-safe none d safe = rw expire-evidence safe
    timed-safe (some left) d safe = safe

    timed-IsVerdict :
        (answer : Option ℤ) (attempt : ℕ) (left : ℤ)
        → IsVerdict env attempt (timed env answer (reduced (decide env (env.probe attempt left))))
    unfolding timed
    timed-IsVerdict none attempt left = (left, inr refl)
    timed-IsVerdict (some after) attempt left = (left, inl refl)

    judged_by-Keeps :
        (st : Status) (attempt : ℕ) (left : ℤ) (last : Fields) (s : State)
        → attempt ≡ suc (length s.rows)
        → AreSafeFields 6 last
        → ArePending env 0 s.rows
        → HasTrail env (judged_by env st (decide env (env.probe attempt left)) next attempt last s)
    unfolding judged_by
    judged_by-Keeps invalid attempt left last s n safe rows = rows
    judged_by-Keeps _ attempt left last s n safe rows =
        let d = decide env (env.probe attempt left) in
        let facts = safe_facts d.evidence in
        let clean = safe_facts-AreSafeFields d.evidence in
        let d' = timed env (env.remaining s.calls) (reduced d) in
        settle_by-Keeps d'.status d' attempt (keep_last facts last) (call s) refl
          (timed-safe (env.remaining s.calls) (reduced d) clean)
          (timed-IsVerdict (env.remaining s.calls) attempt left) n
          (keep_last-AreSafeFields facts last clean safe) rows

    asked-Keeps : (left : Option ℤ) → Keeps (asked env left next)
    unfolding asked
    asked-Keeps none attempt last s n safe rows =
        finish-HasTrail _ attempt s (λ e. cc) (inr (n, refl)) safe rows
    asked-Keeps (some left) attempt last s n safe rows =
        judged_by-Keeps (decide env (env.probe (suc attempt) left)).status (suc attempt) left last s
          (ap suc n) safe rows

  loop-Keeps : (fuel : ℕ) → Keeps (loop env fuel)
  unfolding loop
  loop-Keeps zero attempt last s n safe rows = tt
  loop-Keeps (suc fuel) attempt last s n safe rows =
      asked-Keeps (loop env fuel) (loop-Keeps fuel) (env.remaining s.calls) attempt last (call s) n
        safe rows

pub observe-HasTrail : (env : Env) (fuel : ℕ) → HasTrail env (observe env fuel)
unfolding observe
observe-HasTrail env fuel = loop-Keeps env fuel 0 end _ refl safe_end tt
