-- ===== src/Execute/Apply/Stages/Saved.antt =====
-- The result that `apply` of src/iaas/opnsense_workflow/executor.py returns, and where it raises.
use iaas.Prelude.{◌≡◌, Bool, Option, none, some, List, ◌∷◌, Text}
use iaas.Value.{Value, Fields}
use iaas.Execute.{
  Env, read, saved_result, saved_recovery, not_saved, Trace, Machine, Run, Entry, Outcome,
  ResultStatus, checked,
}
use iaas.Execute.Apply.{Reviewed}

abbrev pub IsBehindRead : Trace → Type 0
IsBehindRead (read resources answer ∷ past) = Unit
IsBehindRead _ = ⊥

-- What was done before the result of a failure was saved. Where there are recovery entries, either the
-- records were read for the final verification, or the entries were read back and saved as they are, or
-- read back and not saved.
abbrev pub IsCollected : Option (List Entry) → List Outcome → Trace → Type 0
IsCollected none outcomes past = Unit
IsCollected (some entries) outcomes (read resources answer ∷ past) = Unit
IsCollected (some entries) outcomes (not_saved ∷ past) = IsBehindRead past
IsCollected (some entries) outcomes (saved_recovery es os ∷ past) =
    (es ≡ entries) × (os ≡ outcomes) × IsBehindRead past
IsCollected (some entries) outcomes _ = ⊥

-- The last event saved this result, in this state of the entries.
abbrev pub IsSavedLast : ResultStatus → Option (List Entry) → List Outcome → Trace → Type 0
IsSavedLast status recovery outcomes (saved_result t os ∷ past) =
    (t ≡ status)
    × (os ≡ outcomes)
    × (status ≡ ResultStatus.failed → IsCollected recovery outcomes past)
IsSavedLast status recovery outcomes _ = ⊥

-- The last event is a file that was not saved, or a read.
abbrev pub IsBroken : Trace → Type 0
IsBroken (not_saved ∷ past) = Unit
IsBroken (read resources answer ∷ past) = Unit
IsBroken _ = ⊥

-- A returned result is the one that was saved last; an exception comes of a file or of a read.
abbrev pub IsSavedEnd : Machine × Option ResultStatus → Type 0
IsSavedEnd (s, none) = IsBroken s.trace
IsSavedEnd (s, some status) = IsSavedLast status s.recovery s.outcomes s.trace

-- A result of a check was saved last, and a failed verification is behind its read.
abbrev IsSavedCheck : Machine × Option ResultStatus → Type 0
IsSavedCheck (s, some checked) = IsSavedLast checked s.recovery s.outcomes s.trace
IsSavedCheck (s, some ResultStatus.failed) = IsBehindRead s.trace
IsSavedCheck _ = Unit

record EndsUnchecked (m : Run ResultStatus) : Type 0 where
  saved : (s : Machine) → IsSavedCheck (m s)

module _ (semantic : Text → Fields → Fields) (is_network : Text → Bool) (printed : Value → Text)
    (is_declarable : Text → Fields → Bool) (env : Env) (r : Reviewed) where
  -- An exception is behind a read; a result of a check was saved, and that of a failure is to be saved.
  abbrev IsConcluded : Machine × Option ResultStatus → Type 0
  IsConcluded (s, none) = IsBroken s.trace
  IsConcluded (s, some checked) = IsSavedLast checked s.recovery s.outcomes s.trace
  IsConcluded (s, some ResultStatus.failed) = IsCollected s.recovery s.outcomes s.trace
  IsConcluded (s, some status) = Unit

  abbrev IsHandled : Machine × Option (Unit {0}) → Type 0
  IsHandled (s, none) = IsBroken s.trace
  IsHandled (s, some u) = IsCollected s.recovery s.outcomes s.trace
