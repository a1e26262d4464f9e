-- ===== src/Staging/Examples.antt =====
-- A run of `stages_for` of planning.py, and its theorem at it.
use iaas.Prelude.{
  ◌≡◌, refl, Bool, true, false, not, ◌||◌, Option, none, some, List, [], ◌∷◌, Text, codes,
}
use iaas.Value.{Fields, end, field, str}
use iaas.Staging.{
  Item, State, find, overlay, apply, Difference, create, save, changed_of, pending_of, stages_for,
}
use iaas.Staging.Order.{IsOrder, stages_for-IsOrder}

abbrev item : Text → Text → Item
item resource name = record {
  resource = resource;
  identity = name ∷ [];
  desired = field (codes "state") (str (codes "present")) end;
}

abbrev is_there : Option Fields → Bool
is_there none = false
is_there (some obj) = true

-- A rule needs the alias.
abbrev valid : State → Bool
unfolding find
valid state =
    not (is_there (find (codes "filter-rules" ∷ codes "r" ∷ []) state))
    || is_there (find (codes "aliases" ∷ codes "a" ∷ []) state)

abbrev same : Text → Fields → Fields
same resource row = row

abbrev selected : List Item
selected = item (codes "filter-rules") (codes "r") ∷ item (codes "aliases") (codes "a") ∷ []

abbrev differences : List Difference
differences =
    record { resource = codes "filter-rules"; identity = codes "r" ∷ []; action = create }
    ∷ record { resource = codes "aliases"; identity = codes "a" ∷ []; action = create }
    ∷ []

-- The alias is written before the rule.
alias_first :
    stages_for same valid selected [] differences []
    ≡ some (
        record { resource = codes "aliases"; mode = save; identities = (codes "a" ∷ []) ∷ [] }
        ∷ record {
          resource = codes "filter-rules";
          mode = save;
          identities = (codes "r" ∷ []) ∷ [];
        }
        ∷ [])
unfolding stages_for find overlay
alias_first = refl

all_valid : valid (apply same valid [] selected) ≡ true
unfolding apply find overlay
all_valid = refl

stages_for-IsOrder_example :
    IsOrder same valid
      (changed_of differences)
      []
      (pending_of (changed_of differences) [] selected)
      []
      (stages_for same valid selected [] differences [])
stages_for-IsOrder_example = stages_for-IsOrder same valid selected [] differences [] all_valid
