-- ===== src/Observe/Task.antt =====
-- src/iaas/observation.py: `task_decision`, the decision on a provider task's status row.
use iaas.Prelude.{
  ◌≡◌, ◌≢◌, ◌↔◌, refl, Option, none, some, [], ◌∷◌, Text, codes, text_eq, text_eq_iff,
  if◌then◌else◌, arith, not, Bool-cases, inl, inr, ap, ◌∙◌,
}
use iaas.Value.{Value, Fields, str, list, dict, end, field, get, has_key, truthy}
use iaas.Observe.{Status, ready, pending, failed, unknown, Decision, decision}

abbrev fact : Text → Fields → Fields → Fields
fact key row rest = if has_key key row then field key (get key row) rest else rest

unfoldable pub task_facts : Fields → Fields
task_facts row = fact (codes "status") row (fact (codes "exitstatus") row end)

-- The exit status of a stopped task.
unfoldable pub exit_decision : Value → Fields → Decision
exit_decision (str []) facts = decision pending (codes "task_terminal_outcome_missing") facts
exit_decision (str (c ∷ s)) facts =
    if text_eq (c ∷ s) (codes "OK")
    then decision ready (codes "task_ok") facts
    else decision failed (codes "task_failed") facts
exit_decision v facts =
    if not (truthy v)
    then decision pending (codes "task_terminal_outcome_missing") facts
    else decision unknown (codes "invalid_task_response") facts

abbrev pub invalid_response : Decision
invalid_response = decision unknown (codes "invalid_task_response") end

-- A list or a dict is not hashable, so that the test in a set raises: `none`.
by_status : Value → Fields → Option Decision
by_status (list vs) row = none
by_status (dict fs) row = none
by_status (str s) row =
    if text_eq s (codes "running")
    then some (decision pending (codes "task_running") (task_facts row))
    else if text_eq s (codes "stopped")
    then some (exit_decision (get (codes "exitstatus") row) (task_facts row))
    else some invalid_response
by_status _ row = some invalid_response

unfoldable pub task_decision : Value → Option Decision
unfolding by_status
task_decision (dict row) = by_status (get (codes "status") row) row
task_decision _ = some invalid_response

-- The status of a decision, if there is one.
abbrev pub status_of : Option Decision → Option Status
status_of none = none
status_of (some d) = some d.status

-- `v` is a dict whose `status` is `stopped` and whose `exitstatus` is a text with this property.
pub record IsStopped (P : Text → Type 0) (v : Value) : Type 0 where
  pub row : Fields
  pub is_row : v ≡ dict row
  pub stopped : get (codes "status") row ≡ str (codes "stopped")
  pub exit : Text
  pub exited : get (codes "exitstatus") row ≡ str exit
  pub holds : P exit

abbrev pub IsOk : Text → Type 0
IsOk exit = exit ≡ codes "OK"

exit_decision-ready :
    (v : Value) (facts : Fields) → (exit_decision v facts).status ≡ ready → v ≡ str (codes "OK")
unfolding exit_decision
exit_decision-ready (str []) facts h = cc
exit_decision-ready (str (c ∷ s)) facts h = elim (Bool-cases (text_eq (c ∷ s) (codes "OK"))) [
  | inl e ↦ ap str ((text_eq_iff _ _).0 e)
  | inr e ↦ absurd (ground arith)
]
exit_decision-ready v facts h = absurd (ground arith)

abbrev pub IsOther : Text → Type 0
IsOther exit = (exit ≢ []) × (exit ≢ codes "OK")

exit_decision-failed :
    (v : Value) (facts : Fields)
    → (exit_decision v facts).status ≡ failed
    → (exit : Text) × (v ≡ str exit) × IsOther exit
unfolding exit_decision
exit_decision-failed (str []) facts h = cc
exit_decision-failed (str (c ∷ s)) facts h = elim (Bool-cases (text_eq (c ∷ s) (codes "OK"))) [
  | inl e ↦ absurd (ground arith)
  | inr e ↦ (c ∷ s, refl, (λ p. cc, λ p. ground (arith, (text_eq_iff (c ∷ s) (codes "OK")).1 p)))
]
exit_decision-failed v facts h = absurd (ground arith)

-- What a ready or failed decision says of the row.
by_status-stopped :
    (v : Value) (row : Fields) (st : Status)
    → (st ≢ pending) × (st ≢ unknown)
    → status_of (by_status v row) ≡ some st
    → (v ≡ str (codes "stopped"))
      × ((exit_decision (get (codes "exitstatus") row) (task_facts row)).status ≡ st)
unfolding by_status
by_status-stopped (str s) row st ne h = elim (Bool-cases (text_eq s (codes "running"))) [
  | inl e ↦ absurd (ground arith)
  | inr e ↦ elim (Bool-cases (text_eq s (codes "stopped"))) [
    | inl e' ↦ (ap str ((text_eq_iff _ _).0 e'), ground arith)
    | inr e' ↦ absurd (ground arith)
  ]
]
by_status-stopped v row st ne h = absurd (ground arith)

exit-stopped-ready :
    (row : Fields)
    → get (codes "status") row ≡ str (codes "stopped")
    → (exit : Text) → get (codes "exitstatus") row ≡ str exit
    → task_decision (dict row) ≡ some (exit_decision (str exit) (task_facts row))
unfolding task_decision by_status text_eq
exit-stopped-ready row p exit q = rw p (rw q)

exit_decision-ok : (facts : Fields) → (exit_decision (str (codes "OK")) facts).status ≡ ready
unfolding exit_decision text_eq
exit_decision-ok facts = refl

exit_decision-other :
    (exit : Text) (facts : Fields) → IsOther exit → (exit_decision (str exit) facts).status ≡ failed
unfolding exit_decision
exit_decision-other [] facts h = absurd (h.0 refl)
exit_decision-other (c ∷ s) facts h = elim (Bool-cases (text_eq (c ∷ s) (codes "OK"))) [
  | inl e ↦ absurd (h.1 ((text_eq_iff _ _).0 e))
  | inr e ↦ rw e
]

-- From a status other than pending and unknown to the row.
module _ (row : Fields) (st : Status) (ne : (st ≢ pending) × (st ≢ unknown)) where
  row_of :
      status_of (task_decision (dict row)) ≡ some st
      → (get (codes "status") row ≡ str (codes "stopped"))
        × ((exit_decision (get (codes "exitstatus") row) (task_facts row)).status ≡ st)
  unfolding task_decision
  row_of h = by_status-stopped (get (codes "status") row) row st ne h

not_row : (st : Status) → st ≢ unknown → status_of (some invalid_response) ≡ some st → ⊥
not_row st ne h = ground arith

-- A task is ready exactly if its row is a dict with the status `stopped` and the exit status `OK`.
pub task_decision-ready :
    (v : Value) → (status_of (task_decision v) ≡ some ready) ↔ IsStopped IsOk v
unfolding task_decision
task_decision-ready v = (forth v, back)
  where
    forth : (w : Value) → status_of (task_decision w) ≡ some ready → IsStopped IsOk w
    forth (dict row) h =
        let (stopped, exit) = row_of row ready (λ e. cc, λ e. cc) h in
        record {
          row = row;
          is_row = refl;
          stopped = stopped;
          exit = codes "OK";
          exited = exit_decision-ready (get (codes "exitstatus") row) (task_facts row) exit;
          holds = refl;
        }
    forth _ h = absurd (not_row ready (λ e. cc) h)

    back : IsStopped IsOk v → status_of (task_decision v) ≡ some ready
    back h =
        rw (h.is_row, exit-stopped-ready h.row h.stopped (codes "OK") (h.exited ∙ ap str h.holds))
          (ap some (exit_decision-ok (task_facts h.row)))

-- A task has failed exactly if its row is a dict with the status `stopped` and, as exit status, a
-- text that is neither empty nor `OK`.
pub task_decision-failed :
    (v : Value) → (status_of (task_decision v) ≡ some failed) ↔ IsStopped IsOther v
unfolding task_decision
task_decision-failed v = (forth v, back)
  where
    forth : (w : Value) → status_of (task_decision w) ≡ some failed → IsStopped IsOther w
    forth (dict row) h =
        let (stopped, exit) = row_of row failed (λ e. cc, λ e. cc) h in
        let (e, exited, other) =
          exit_decision-failed (get (codes "exitstatus") row) (task_facts row) exit in
        record {
          row = row;
          is_row = refl;
          stopped = stopped;
          exit = e;
          exited = exited;
          holds = other;
        }
    forth _ h = absurd (not_row failed (λ e. cc) h)

    back : IsStopped IsOther v → status_of (task_decision v) ≡ some failed
    back h =
        rw (h.is_row, exit-stopped-ready h.row h.stopped h.exit h.exited)
          (ap some (exit_decision-other h.exit (task_facts h.row) h.holds))
