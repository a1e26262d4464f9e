-- ===== src/Observe.antt =====
-- src/iaas/observation.py: `observe`, the read-only observation loop. The budget, the probe and the
-- sleeper are an `Env`: what each answers to its calls, numbered in order. Time stamps of the rows
-- are left out, and a row is handed to the sink, if there is one, by `rows`.
pub mod Facts
pub mod Safety
pub mod Trail
pub mod Total
pub mod Ready
pub mod Sink
pub mod Examples
pub mod Budget
pub mod Task
use iaas.Prelude.{
  ℕ, zero, suc, Bool, true, false, not, ◌&&◌, Option, none, some, List, [], ◌∷◌, ◌++◌, Text, codes,
  if◌then◌else◌,
}
use iaas.Prelude.Int.{ℤ, min_ℤ}
use iaas.Value.{Value, Fields, end, field, str, has_key}
use iaas.Observe.Facts.{safe_facts}

-- `invalid` is any other text.
pub data Status : Type 0 where
  ready pending failed unknown invalid : Status

pub record Decision : Type 0 where
  pub status : Status
  pub reason : Text
  pub evidence : Fields

-- The exception that a probe raises has a number of its own.
pub data Probe : Type 0 where
  value : Value → Probe
  raised : ℕ → Probe

pub record Row : Type 0 where
  pub attempt : ℕ
  pub decision : Decision

-- `remaining` is `none` where `budget.remaining` raises, `sleep` true where `sleep` does.
pub record Env : Type 0 where
  pub remaining : ℕ → Option ℤ
  pub probe : ℕ → ℤ → Probe
  pub sleep : ℕ → ℤ → Bool
  pub classify : Value → Decision
  pub retry_error : Option (ℕ → Decision)
  pub interval : ℤ

pub data Outcome : Type 0 where
  decided : Decision → Outcome
  value_error : Outcome

-- `calls` counts the calls of `budget.remaining`.
pub record State : Type 0 where
  pub calls : ℕ
  pub rows : List Row

abbrev pub Continue : Type 0
Continue = ℕ → Fields → State → Option (Outcome × State)

abbrev pub call : State → State
call s = record s { calls = suc s.calls }

abbrev pub log : ℕ → Decision → State → State
log attempt d s = record s { rows = s.rows ++ (record { attempt = attempt; decision = d } ∷ []) }

abbrev pub is_empty : Fields → Bool
is_empty end = true
is_empty (field k v fs) = false

abbrev pub decision : Status → Text → Fields → Decision
decision status reason evidence = record { status = status; reason = reason; evidence = evidence }

-- A decision that is handed to the sink and returned.
abbrev pub finish : Decision → ℕ → State → Option (Outcome × State)
finish d attempt s = some (decided d, log attempt d s)

unclassified : Decision
unclassified =
    decision unknown (codes "unclassified_query_error")
      (field (codes "category") (str (codes "unclassified")) end)

-- A failure stands also after the deadline.
unfoldable pub expire : Decision → Decision
expire d = elim d.status [
  | failed ↦ d
  | _ ↦ decision unknown (codes "observation_deadline_expired") d.evidence
]

-- The last evidence that is no mere category of an error.
unfoldable pub keep_last : Fields → Fields → Fields
keep_last facts last =
    if not (is_empty facts) && not (has_key (codes "category") facts) then facts else last

module _ (env : Env) where
  retried : Option (ℕ → Decision) → ℕ → Decision
  unfolding unclassified
  retried none e = unclassified
  retried (some f) e = f e

  unfoldable pub decide : Probe → Decision
  unfolding retried
  decide (value v) = env.classify v
  decide (raised e) = retried env.retry_error e

  interrupted : Continue
  interrupted attempt last s =
      finish (decision unknown (codes "observation_wait_interrupted") last) attempt s

  -- The sleep after a pending decision; the budget is asked for its length.
  unfoldable pub wait : Option ℤ → Continue → Continue
  unfolding interrupted
  wait none next attempt last s = interrupted attempt last s
  wait (some left) next attempt last s =
      if env.sleep attempt (min_ℤ env.interval left)
      then interrupted attempt last s
      else next attempt last s

  -- `d` has the reduced evidence already.
  unfoldable pub settle_by : Status → Decision → Continue → Continue
  unfolding wait
  settle_by pending d next attempt last s =
      wait (env.remaining s.calls) next attempt last (call (log attempt d s))
  settle_by _ d next attempt last s = finish d attempt s

  unfoldable pub settle : Decision → Continue → Continue
  unfolding settle_by
  settle d = settle_by d.status d

  unfoldable pub timed : Option ℤ → Decision → Decision
  unfolding expire
  timed none d = expire d
  timed (some left) d = d

  unfoldable pub judged_by : Status → Decision → Continue → Continue
  unfolding settle timed keep_last
  judged_by invalid d next attempt last s = some (value_error, s)
  judged_by _ d next attempt last s =
      let facts = safe_facts d.evidence in
      settle (timed (env.remaining s.calls) (record d { evidence = facts })) next attempt
        (keep_last facts last) (call s)

  unfoldable pub judged : Decision → Continue → Continue
  unfolding judged_by
  judged d = judged_by d.status d

  unfoldable pub asked : Option ℤ → Continue → Continue
  unfolding judged decide
  asked none next attempt last s =
      finish (decision unknown (codes "observation_deadline_expired") last) attempt s
  asked (some left) next attempt last s =
      judged (decide (env.probe (suc attempt) left)) next (suc attempt) last s

  -- `while True`, on fuel; `none` means that the fuel ran out.
  unfoldable pub loop : ℕ → Continue
  unfolding asked
  loop zero attempt last s = none
  loop (suc fuel) attempt last s = asked (env.remaining s.calls) (loop fuel) attempt last (call s)

unfoldable pub observe : Env → ℕ → Option (Outcome × State)
unfolding loop
observe env fuel = loop env fuel 0 end (record { calls = 0; rows = [] })
