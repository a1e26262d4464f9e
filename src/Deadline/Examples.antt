-- ===== src/Deadline/Examples.antt =====
-- Runs of pve_template/deadlines.py at concrete clock readings, and the theorems at them.
use iaas.Prelude.{◌≡◌, refl, none, some, List, [], ◌∷◌}
use iaas.Prelude.Int.{ℤ, pos, ◌+ℤ◌, ◌-ℤ◌}
use iaas.Deadline.{
  work, cleanup, DeadlineBudget, Sample, ok, raise, deadline_expired, new, remaining, admit, limit,
  no_phase, not_exceeded,
}
use iaas.Deadline.Frozen.{
  Call, ask, limit_local, run, Tightens, run-Tightens, IsWithin, remaining-IsWithin,
}
use iaas.Deadline.Outcomes.{IsAdmission, admit-IsAdmission}

abbrev at_time : ℤ → ℤ → Sample
at_time utc now = record { utc = some utc; monotonic = some now }

-- The work deadline is 100 ticks after the start, the cleanup deadline 130.
abbrev budget : DeadlineBudget
budget = record {
  absolute = record { work = pos 1100; cleanup = pos 1130 };
  bounds = record { work = pos 105; cleanup = pos 135 };
  local = record { work = none; cleanup = none };
  outcome = record { phase = no_phase; status = not_exceeded };
}

new-budget :
    new (record { work = pos 1100; cleanup = pos 1130 }) (at_time (pos 1000) (pos 5)) ≡ ok budget
unfolding new ◌+ℤ◌ ◌-ℤ◌
new-budget = refl

-- The wall clock jumps ahead, and back.
abbrev calls : List Call
calls =
    ask work (at_time (pos 1090) (pos 10))
    ∷ limit_local work (pos 11) (pos 5)
    ∷ ask cleanup (at_time (pos 900) (pos 12))
    ∷ []

run-Tightens_example : Tightens budget (run budget calls)
run-Tightens_example = run-Tightens budget calls

after_jump : (remaining (run budget calls) work (at_time (pos 1001) (pos 13))).1 ≡ ok (pos 3)
unfolding run remaining limit ◌+ℤ◌ ◌-ℤ◌
after_jump = refl

remaining-IsWithin_example : IsWithin budget calls work (pos 1001) (pos 13) (pos 3)
remaining-IsWithin_example =
    remaining-IsWithin budget calls work (pos 1001) (pos 13) (pos 3) after_jump

admit-IsAdmission_example :
    let s = at_time (pos 1001) (pos 6) in
    let s' = at_time (pos 1131) (pos 6) in IsAdmission budget s s' (admit budget s s')
admit-IsAdmission_example =
    admit-IsAdmission budget (at_time (pos 1001) (pos 6)) (at_time (pos 1131) (pos 6))

admitted : (admit budget (at_time (pos 1000) (pos 5)) (at_time (pos 1000) (pos 5))).1 ≡ ok (pos 130)
unfolding admit ◌+ℤ◌ ◌-ℤ◌
admitted = refl

expired : (remaining budget work (at_time (pos 1100) (pos 5))).1 ≡ raise (deadline_expired work)
unfolding remaining ◌+ℤ◌ ◌-ℤ◌
expired = refl
