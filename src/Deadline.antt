-- ===== src/Deadline.antt =====
-- src/iaas/pve_template/deadlines.py: the frozen budget of one native operation. Times are whole
-- ticks. A clock reading that is not finite is `none`; a `local` bound of `none` is `inf`.

pub mod Frozen
pub mod Outcomes
pub mod Examples
use iaas.Prelude.{ℕ, Bool, true, false, Option, none, some, ◌||◌, if◌then◌else◌, List, [], ◌∷◌}
use iaas.Prelude.Int.{ℤ, pos, negsuc, ◌+ℤ◌, ◌-ℤ◌, leb_ℤ, min_ℤ}

pub data Phase : Type 0 where
  work cleanup : Phase

-- A Python dict with the keys `work` and `cleanup`.
pub record PerPhase (A : Type 0) : Type 0 where
  pub work : A
  pub cleanup : A

abbrev pub at : {A : Type 0} → PerPhase A → Phase → A
at p work = p.work
at p cleanup = p.cleanup

abbrev pub put : {A : Type 0} → PerPhase A → Phase → A → PerPhase A
put p work a = record { work = a; cleanup = p.cleanup }
put p cleanup a = record { work = p.work; cleanup = a }

pub data OutcomePhase : Type 0 where
  no_phase admission : OutcomePhase
  phase : Phase → OutcomePhase

pub data OutcomeStatus : Type 0 where
  not_exceeded rejected exceeded : OutcomeStatus

pub record Outcome : Type 0 where
  pub phase : OutcomePhase
  pub status : OutcomeStatus

pub record DeadlineBudget : Type 0 where
  pub absolute : PerPhase ℤ
  pub bounds : PerPhase ℤ
  pub local : PerPhase (Option ℤ)
  pub outcome : Outcome

-- One reading of `time.time()` and `time.monotonic()`.
pub record Sample : Type 0 where
  pub utc : Option ℤ
  pub monotonic : Option ℤ

pub data Failure : Type 0 where
  clock_unavailable : Failure
  deadline_expired local_timeout : Phase → Failure

pub data Result (A : Type 0) : Type 0 where
  ok : A → Result A
  raise : Failure → Result A

-- `__init__`, given the two parsed deadlines.
new_at : PerPhase ℤ → Option ℤ → Option ℤ → Result DeadlineBudget
new_at absolute (some utc) (some monotonic) = ok (record {
  absolute = absolute;
  bounds = record {
    work = monotonic +ℤ absolute.work -ℤ utc;
    cleanup = monotonic +ℤ absolute.cleanup -ℤ utc;
  };
  local = record { work = none; cleanup = none };
  outcome = record { phase = no_phase; status = not_exceeded };
})
new_at absolute _ _ = raise clock_unavailable

unfoldable pub new : PerPhase ℤ → Sample → Result DeadlineBudget
unfolding new_at
new absolute s = new_at absolute s.utc s.monotonic

-- The tests of `remaining` behind the tightening of the bound; `left` is `bounds[phase] - now`.
check_local : DeadlineBudget → Phase → ℤ → ℤ → Option ℤ → DeadlineBudget × Result ℤ
check_local b p now left none = (b, ok left)
check_local b p now left (some bound) =
    if leb_ℤ (bound -ℤ now) (pos 0)
    then (b, raise (local_timeout p))
    else (b, ok (min_ℤ left (bound -ℤ now)))

check_bound : DeadlineBudget → Phase → ℤ → ℤ → DeadlineBudget × Result ℤ
unfolding check_local
check_bound b p now left =
    if leb_ℤ left (pos 0)
    then (
      record b { outcome = record { phase = phase p; status = exceeded } },
      raise (deadline_expired p),
    )
    else check_local b p now left (at b.local p)

remaining_at : DeadlineBudget → Phase → Option ℤ → Option ℤ → DeadlineBudget × Result ℤ
unfolding check_bound
remaining_at b p (some utc) (some now) =
    let bound = min_ℤ (at b.bounds p) (now +ℤ at b.absolute p -ℤ utc) in
    check_bound (record b { bounds = put b.bounds p bound }) p now (bound -ℤ now)
remaining_at b p _ _ = (b, raise clock_unavailable)

unfoldable pub remaining : DeadlineBudget → Phase → Sample → DeadlineBudget × Result ℤ
unfolding remaining_at
remaining b p s = remaining_at b p s.utc s.monotonic

-- `except DeadlineExpired` of `admit`.
rejecting : DeadlineBudget × Result ℤ → DeadlineBudget × Result ℤ
rejecting (b, raise (deadline_expired p)) = (
  record b { outcome = record { phase = admission; status = rejected } },
  raise (deadline_expired p),
)
rejecting r = r

admit_cleanup : DeadlineBudget × Result ℤ → Sample → DeadlineBudget × Result ℤ
unfolding rejecting
admit_cleanup (b, ok left) s = rejecting (remaining b cleanup s)
admit_cleanup (b, raise e) s = rejecting (b, raise e)

-- The two samples are those of its two calls of `remaining`.
unfoldable pub admit : DeadlineBudget → Sample → Sample → DeadlineBudget × Result ℤ
unfolding remaining admit_cleanup
admit b s s' = admit_cleanup (remaining b work s) s'

abbrev min_inf : Option ℤ → ℤ → Option ℤ
min_inf none z = some z
min_inf (some y) z = some (min_ℤ y z)

-- `limit` adds to a monotonic reading that it does not test; the reading is finite here.
unfoldable pub limit : DeadlineBudget → Phase → ℤ → ℤ → DeadlineBudget
limit b p now seconds = record b { local = put b.local p (min_inf (at b.local p) (now +ℤ seconds)) }
