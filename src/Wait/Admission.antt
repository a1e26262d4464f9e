-- ===== src/Wait/Admission.antt =====
-- src/iaas/opnsense_workflow/waiting.py: `WaitPolicy.__post_init__`, which admits a policy.
use iaas.Prelude.{◌<◌, ◌≡◌, Bool, true, false, arith, if◌then◌else◌, ◌||◌, not}
use iaas.Prelude.Int.{ℤ, pos, leb_ℤ, ltb_ℤ, pos_part}
use iaas.Wait.{Policy}

-- A Python value where a number is expected; a `float` is its count of ticks.
pub data Number : Type 0 where
  not_number boolean infinite_or_nan : Number
  int : ℤ → Number
  float : ℤ → Number

-- The values that the four parameters are given.
pub record PolicyArgs : Type 0 where
  pub deadline_seconds : Number
  pub max_attempts : Number
  pub request_timeout_seconds : Number
  pub interval_seconds : Number

pub data PolicyError : Type 0 where
  not_finite deadline_not_positive attempts_not_positive request_not_positive interval_negative :
      PolicyError

pub data Admitted : Type 0 where
  policy : Policy → Admitted
  value_error : PolicyError → Admitted

-- `isinstance(value, (int, float))` and not `bool`, and finite
abbrev pub is_finite : Number → Bool
is_finite (int z) = true
is_finite (float z) = true
is_finite _ = false

abbrev pub amount : Number → ℤ
amount (int z) = z
amount (float z) = z
amount _ = pos 0

-- `type(value) is not int or value <= 0`
abbrev pub is_positive_int : Number → Bool
is_positive_int (int z) = ltb_ℤ (pos 0) z
is_positive_int _ = false

unfoldable pub post_init : PolicyArgs → Admitted
post_init a =
    if not (is_finite a.deadline_seconds)
      || (not (is_finite a.request_timeout_seconds) || not (is_finite a.interval_seconds))
    then value_error not_finite
    else if leb_ℤ (amount a.deadline_seconds) (pos 0)
    then value_error deadline_not_positive
    else if not (is_positive_int a.max_attempts)
    then value_error attempts_not_positive
    else if leb_ℤ (amount a.request_timeout_seconds) (pos 0)
    then value_error request_not_positive
    else if ltb_ℤ (amount a.interval_seconds) (pos 0)
    then value_error interval_negative
    else policy (record {
      deadline_seconds = pos_part (amount a.deadline_seconds);
      max_attempts = pos_part (amount a.max_attempts);
      request_timeout_seconds = pos_part (amount a.request_timeout_seconds);
      interval_seconds = pos_part (amount a.interval_seconds);
    })

-- A number, and no Boolean, infinity, NaN or other value; its value is `z`.
abbrev pub IsFiniteNumber : Number → ℤ → Type 0
IsFiniteNumber (int y) z = y ≡ z
IsFiniteNumber (float y) z = y ≡ z
IsFiniteNumber _ z = ⊥

pub record IsAdmitted (a : PolicyArgs) (p : Policy) : Type 0 where
  pub deadline_pos : 0 < p.deadline_seconds
  pub attempts_pos : 0 < p.max_attempts
  pub request_pos : 0 < p.request_timeout_seconds
  pub deadline_kept : IsFiniteNumber a.deadline_seconds (pos p.deadline_seconds)
  pub attempts_kept : a.max_attempts ≡ int (pos p.max_attempts)
  pub request_kept : IsFiniteNumber a.request_timeout_seconds (pos p.request_timeout_seconds)
  pub interval_kept : IsFiniteNumber a.interval_seconds (pos p.interval_seconds)

-- A policy is admitted only if the deadline, the request timeout and the interval that were given are
-- finite numbers, the attempts a Python `int`, all but the interval positive and the interval not
-- negative; the policy has these numbers.
pub post_init-IsAdmitted : (a : PolicyArgs) (p : Policy) → post_init a ≡ policy p → IsAdmitted a p
unfolding post_init
post_init-IsAdmitted a p h = ground arith
