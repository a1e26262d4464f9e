-- ===== src/Confirm/Examples.antt =====
-- Runs of confirmation.py on a concrete candidate, and the theorems at them.
use iaas.Prelude.{◌≡◌, refl, ◌↔◌, Bool, true, false, none, some, List, [], ◌∷◌, Text, codes, All}
use iaas.Value.{Fields, end, field, str, bool, list, nil, cons}
use iaas.Staging.{Stage, save}
use iaas.Confirm.{Change, bind_stages, disposition}
use iaas.Confirm.Recheck.{
  IsComplete, IsRechecked, recheck, recheck-IsRechecked, disposition-IsComplete,
}

abbrev stages : List Stage
stages =
    record { resource = codes "aliases"; mode = save; identities = (codes "hosts" ∷ []) ∷ [] } ∷ []

-- An alias of host names is created.
abbrev changes : List Change
changes =
    record {
      resource = codes "aliases";
      identity = codes "hosts" ∷ [];
      before = none;
      after = some (
          field (codes "type") (str (codes "host")) (
            field (codes "enabled") (bool true)
              (field (codes "content") (list (cons (str (codes "example.org")) nil)) end)));
    }
    ∷ []

abbrev no_address : Text → Bool
no_address t = false

abbrev complete : Text → Fields
complete resource = field (codes "status") (str (codes "complete")) end

passes :
    recheck no_address true (bind_stages no_address stages changes complete) changes complete ≡ none
unfolding recheck bind_stages
passes = refl

recheck-IsRechecked_example :
    (true ≡ true)
    × All (IsRechecked no_address changes complete) (bind_stages no_address stages changes complete)
recheck-IsRechecked_example =
    recheck-IsRechecked no_address true (bind_stages no_address stages changes complete) changes
      complete passes

disposition-IsComplete_example :
    ((disposition (bind_stages no_address stages changes complete)).is_ready ≡ true)
    ↔ All (IsComplete complete) stages
disposition-IsComplete_example = disposition-IsComplete no_address stages changes complete
