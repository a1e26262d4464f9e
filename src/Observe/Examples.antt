-- ===== src/Observe/Examples.antt =====
-- Runs of observation.py on concrete environments, and the theorems at them.
use iaas.Prelude.{
  ℕ, ◌≡◌, refl, false, none, some, List, [], ◌∷◌, arith, Text, codes, contains, ltb, if◌then◌else◌,
  ◌↔◌, zero, ◌+◌, ◌*◌,
}
use iaas.Prelude.Int.{pos}
use iaas.Value.{Value, Fields, end, field, str, dict, int}
use iaas.Deadline.{Sample}
use iaas.Observe.{
  Env, value, Decision, decision, ready, pending, failed, Row, Outcome, decided, State, observe,
}
use iaas.Observe.Facts.{safe_facts}
use iaas.Observe.Safety.{AreSafeFields, safe_facts-AreSafeFields}
use iaas.Observe.Trail.{IsTrail}
use iaas.Observe.Total.{observe-IsTrail}
use iaas.Observe.Ready.{IsTimely, observe-IsTimely}
use iaas.Observe.Budget.{
  ObservationBudget, IsOver, bound_reached, answer, answer-none, observe-ends,
}
use iaas.Observe.Sink.{group_of, sink_all, group_spec, rows_of, sink_all-group_spec}
use iaas.Observe.Task.{task_decision, status_of, IsStopped, IsOk, task_decision-ready}

abbrev secret : Fields
secret = field (codes "node") (str (codes "pve1")) (
    field (codes "password") (str (codes "x"))
      (field (codes "scsi0") (str (codes "http://h/")) end))

safe_secret :
    safe_facts secret
    ≡ field
        (codes "node")
        (str (codes "pve1"))
        (field (codes "scsi0") (str (codes "[excluded]")) end)
unfolding safe_facts contains
safe_secret = refl

safe_facts-AreSafeFields_example : AreSafeFields 6 (safe_facts secret)
safe_facts-AreSafeFields_example = safe_facts-AreSafeFields secret

abbrev facts : Fields
facts = field (codes "exists") (int (pos 1)) end

-- The third probe finds what it looks for.
abbrev found : Env
found = record {
  remaining = λ n. if ltb n 20 then some (pos 9) else none;
  probe = λ attempt left. value (int (if ltb attempt 3 then pos 0 else pos 1));
  sleep = λ attempt duration. false;
  classify = λ v. elim v [
    | int (pos zero) ↦ decision pending (codes "absent") end
    | _ ↦ decision ready (codes "present") facts
  ];
  retry_error = none;
  interval = pos 1;
}

abbrev row : ℕ → Decision → Row
row attempt d = record { attempt = attempt; decision = d }

abbrev found_state : State
found_state = record {
  calls = 8;
  rows =
      row 1 (decision pending (codes "absent") end)
      ∷ row 2 (decision pending (codes "absent") end)
      ∷ row 3 (decision ready (codes "present") facts)
      ∷ [];
}

observe_found :
    observe found 5 ≡ some (decided (decision ready (codes "present") facts), found_state)
unfolding observe safe_facts
observe_found = refl

observe-IsTrail_example :
    (o : Outcome) × (s : State) × (observe found 21 ≡ some (o, s)) × IsTrail found o s.rows
observe-IsTrail_example = observe-IsTrail found 20 refl

observe-IsTimely_example : IsTimely found (decision ready (codes "present") facts) 3 8
observe-IsTimely_example =
    observe-IsTimely found 5 (decision ready (codes "present") facts) found_state observe_found refl

abbrev window : ObservationBudget
window = record { cutoff = pos 1120; bound = pos 120; local = none }

-- Both clocks advance by ten ticks between two calls.
abbrev clock : ℕ → Sample
clock n = record { utc = some (pos (1000 + n * 10)); monotonic = some (pos (n * 10)) }

window-IsOver : IsOver window (clock 12)
window-IsOver = bound_reached (pos 120) refl (omega arith)

answer-none_example : answer window clock 12 ≡ none
answer-none_example = answer-none window clock 12 window-IsOver

observe-ends_example :
    let env = record found { remaining = answer window clock } in
    (o : Outcome) × (s : State) × (observe env 13 ≡ some (o, s)) × IsTrail env o s.rows
observe-ends_example = observe-ends found window clock 12 window-IsOver

abbrev rows : List (Text × Row)
rows =
    (codes "a", row 1 (decision pending (codes "absent") facts))
    ∷ (codes "b", row 1 (decision failed (codes "gone") facts))
    ∷ (codes "a", row 2 (decision ready (codes "present") end))
    ∷ (codes "a", row 3 (decision failed (codes "late") facts))
    ∷ []

sink_all-group_spec_example :
    group_of (codes "a") (sink_all [] rows) ≡ group_spec (rows_of (codes "a") rows)
sink_all-group_spec_example = sink_all-group_spec (codes "a") rows

abbrev task : Text → Value
task exit =
    dict
      (field (codes "status") (str (codes "stopped")) (field (codes "exitstatus") (str exit) end))

task_decision-ready_example :
    (status_of (task_decision (task (codes "OK"))) ≡ some ready)
    ↔ IsStopped IsOk (task (codes "OK"))
task_decision-ready_example = task_decision-ready (task (codes "OK"))
