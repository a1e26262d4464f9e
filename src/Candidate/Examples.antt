-- ===== src/Candidate/Examples.antt =====
-- A candidate of planning.py on concrete observations, and the theorems at it.
use iaas.Prelude.{
  suc, ◌≡◌, refl, Bool, false, Option, none, some, List, [], ◌∷◌, Text, codes, length,
}
use iaas.Value.{Value, Fields, nil, cons, end, field, str, list, dict}
use iaas.Staging.{Item, Action, update, create}
use iaas.Staging.{overlay}
use iaas.Dependency.Check.{valid_state}
use iaas.Candidate.{Observations, Link, Reached, spread}
use iaas.Candidate.Scope.Least.{IsLeast, spread-IsLeast}
use iaas.Candidate.Changes.{Request, Row, Candidate, differences_of, candidate_of}
use iaas.Candidate.Changes.Allowed.{AreDifferences, differences_of-AreDifferences}
use iaas.Candidate.Changes.Sound.{IsCandidate, candidate_of-IsCandidate}

abbrev no_network : Text → Bool
no_network t = false

abbrev no_text : Value → Text
no_text v = []

abbrev same : Text → Fields → Fields
same resource row = row

abbrev one : Text → Value
one t = list (cons (str t) nil)

-- A host alias, and the same with another name of a host.
abbrev alias_row : Text → Fields
alias_row host = field (codes "state") (str (codes "present")) (
    field (codes "name") (str (codes "web"))
      (field (codes "type") (str (codes "host")) (field (codes "content") (one host) end)))

abbrev independent : Fields
independent = field (codes "origin") (str (codes "user_config")) (
    field (codes "management") (str (codes "independent"))
      (field (codes "basis") (one (codes "supported_model")) end))

abbrev live_alias : Fields
live_alias = field (codes "identity") (one (codes "web")) (
    field (codes "classification") (dict independent)
      (field (codes "configuration") (dict (alias_row (codes "a"))) end))

abbrev observation : Text → Value → Fields
observation resource objects = field (codes "observation_scope") (str (codes "configuration")) (
    field (codes "status") (str (codes "complete"))
      (field (codes "objects") objects (field (codes "interfaces") (one (codes "lan")) end)))

abbrev observations : Observations
observations =
    (codes "aliases", observation (codes "aliases") (list (cons (dict live_alias) nil)))
    ∷ (codes "filter-rules", observation (codes "filter-rules") (list nil))
    ∷ []

abbrev rule_row : Fields
rule_row = field (codes "state") (str (codes "present")) (
    field (codes "interface") (one (codes "lan"))
      (field (codes "source_net") (one (codes "web")) end))

abbrev selected : List Item
selected =
    record {
      resource = codes "aliases";
      identity = codes "web" ∷ [];
      desired = alias_row (codes "b");
    }
    ∷ record { resource = codes "filter-rules"; identity = codes "r" ∷ []; desired = rule_row }
    ∷ []

abbrev request : Request
request = record {
  managed = (codes "aliases" ∷ codes "web" ∷ []) ∷ [];
  adopted = [];
  recovery = [];
}

abbrev found : Option Candidate
found = candidate_of same no_network no_text request selected observations

abbrev given : Option Candidate → Candidate
given none = record {
  before = [];
  differences = [];
  stages = [];
  admission = record { is_ready = false; gaps = []; manual_recovery = false };
}
given (some c) = c

abbrev actions : List Row → List Action
actions [] = []
actions (row ∷ rows) = row.action ∷ actions rows

is_given : found ≡ some (given found)
unfolding candidate_of valid_state overlay
is_given = refl

-- The alias is updated, and the rule created.
updates : actions (given found).differences ≡ update ∷ create ∷ []
unfolding candidate_of valid_state overlay
updates = refl

candidate_of-IsCandidate_example :
    IsCandidate same no_network no_text request selected observations (given found)
candidate_of-IsCandidate_example =
    candidate_of-IsCandidate same no_network no_text request selected observations (given found)
      is_given

all_differences :
    differences_of same request selected (given found).before ≡ some (given found).differences
unfolding candidate_of valid_state overlay differences_of
all_differences = refl

differences_of-AreDifferences_example :
    AreDifferences same request (given found).before selected (given found).differences
differences_of-AreDifferences_example =
    differences_of-AreDifferences same request selected (given found).before
      (given found).differences all_differences

abbrev links : List Link
links =
    record {
      marker = codes "aliases" ∷ codes "web" ∷ [];
      label = some (codes "aliases:web");
      refs = codes "aliases:more" ∷ [];
    }
    ∷ record {
      marker = codes "aliases" ∷ codes "more" ∷ [];
      label = some (codes "aliases:more");
      refs = [];
    }
    ∷ []

abbrev start : Reached
start = record { wanted = []; needed = codes "aliases:web" ∷ [] }

spread-IsLeast_example :
    (t : Reached) × (spread [] (suc (length links)) start links ≡ some t) × IsLeast [] start links t
spread-IsLeast_example = spread-IsLeast [] start links
