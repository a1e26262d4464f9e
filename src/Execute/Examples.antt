-- ===== src/Execute/Examples.antt =====
-- An execution of executor.py that creates an alias, and the theorems at it.
use iaas.Prelude.{◌≡◌, refl, Bool, true, false, Option, none, some, List, [], ◌∷◌, Text, codes}
use iaas.Value.{Value, Values, Fields, nil, cons, end, field, str, bool, list, dict}
use iaas.Staging.{Item, overlay}
use iaas.Dependency.Check.{valid_state}
use iaas.Candidate.{Observations}
use iaas.Candidate.Changes.{Request, Candidate, candidate_of}
use iaas.Execute.{Env, written, Trace, fully_verified, checked, ◌>>=◌, require, lift, ok}
use iaas.Execute.Apply.{Reviewed}
use iaas.Execute.Apply.Stages.{apply, stage_items}
use iaas.Execute.Apply.Stages.Calm.{Extends}
use iaas.Execute.Apply.Stages.Recorded.{IsExecution, apply-IsExecution}
use iaas.Execute.Apply.Stages.Checked.{apply-Extends}

abbrev no_network : Text → Bool
no_network t = false

abbrev no_text : Value → Text
no_text v = []

abbrev same : Text → Fields → Fields
same resource row = row

abbrev declarable : Text → Fields → Bool
declarable resource row = true

abbrev one : Text → Value
one t = list (cons (str t) nil)

abbrev alias_row : Fields
alias_row = field (codes "state") (str (codes "present")) (
    field (codes "name") (str (codes "web"))
      (field (codes "type") (str (codes "port")) (field (codes "content") (one (codes "80")) end)))

abbrev independent : Fields
independent = field (codes "origin") (str (codes "user_config")) (
    field (codes "management") (str (codes "independent"))
      (field (codes "basis") (one (codes "supported_model")) end))

abbrev live_alias : Fields
live_alias = field (codes "identity") (one (codes "web")) (
    field (codes "classification") (dict independent) (
      field (codes "recovery") (str (codes "expressible"))
        (field (codes "configuration") (dict alias_row) end)))

abbrev observation : Values → Fields
observation objects =
    field (codes "observation_scope") (str (codes "configuration"))
      (field (codes "status") (str (codes "complete")) (field (codes "objects") (list objects) end))

abbrev names : List Text
names =
    codes "aliases"
    ∷ codes "dnat"
    ∷ codes "filter-rules"
    ∷ codes "gateways"
    ∷ codes "interface-groups"
    ∷ codes "one-to-one-nat"
    ∷ []

abbrev observed : Values → Observations
observed aliases = (codes "aliases", observation aliases) ∷ []

-- The alias is there once it was written.
abbrev is_written : Trace → Bool
is_written [] = false
is_written (written resource items answer ∷ past) = true
is_written (e ∷ past) = is_written past

abbrev aliases_at : Bool → Values
aliases_at true = cons (dict live_alias) nil
aliases_at false = nil

abbrev answer : Text → Fields
answer status = field (codes "status") (str status) end

abbrev env : Env
env = record {
  read = λ t resources. some (observed (aliases_at (is_written t)));
  pending_changes = λ t. str (codes "clear");
  is_saved = λ t. true;
  save = λ t resource rows. some (answer (codes "saved"));
  activate = λ t resource. some (answer (codes "confirmed"));
}

abbrev selected : List Item
selected =
    record { resource = codes "aliases"; identity = codes "web" ∷ []; desired = alias_row } ∷ []

abbrev request : Request
request = record { managed = []; adopted = []; recovery = [] }

abbrev given : Option Candidate → Candidate
given none = record {
  before = [];
  differences = [];
  stages = [];
  admission = record { is_ready = false; gaps = []; manual_recovery = false };
}
given (some c) = c

abbrev reviewed : Reviewed
reviewed = record {
  candidate = given (candidate_of same no_network no_text request selected (observed nil));
  selected = selected;
  coverage = names;
  is_declared = true;
  binding = record {
    target = str (codes "t");
    candidate_sha256 = str (codes "d");
    execution_id = str (codes "e");
    conclusion = field (codes "target") (str (codes "t")) (
        field (codes "candidate_sha256") (str (codes "d")) (
          field (codes "execution_id") (str (codes "e")) (
            field (codes "checked_no_pending") (bool true)
              (field (codes "serialized") (bool true) end))));
  };
}

-- The alias is saved, verified, activated and verified again.
verifies : (apply same no_network no_text declarable env reviewed false).1 ≡ some fully_verified
unfolding apply candidate_of valid_state overlay stage_items ◌>>=◌ require lift ok
verifies = refl

checks : (apply same no_network no_text declarable env reviewed true).1 ≡ some checked
unfolding apply candidate_of valid_state overlay stage_items ◌>>=◌ require lift ok
checks = refl

apply-IsExecution_example :
    IsExecution same no_network no_text declarable env reviewed
      (apply same no_network no_text declarable env reviewed false)
apply-IsExecution_example = apply-IsExecution same no_network no_text declarable env reviewed false

apply-Extends_example :
    Extends [] (apply same no_network no_text declarable env reviewed true).0.trace
apply-Extends_example = apply-Extends same no_network no_text declarable env reviewed
