-- ===== src/Dependency/Examples.antt =====
-- Runs of `valid_state` of planning.py, and its theorems at them.
use iaas.Prelude.{ℕ, ◌≡◌, refl, ◌↔◌, Bool, true, false, some, List, [], ◌∷◌, Text, codes, map}
use mathlib.Core.List.{Perm}
use iaas.Value.{Value, Fields, nil, cons, end, field, str, list}
use iaas.Staging.{
  Marker, Item, State, Difference, create, Stage, save, changed_of, pending_of, apply, stages_for,
  overlay,
}
use iaas.Staging.Order.{entry, entries}
use iaas.Dependency.Check.{Graph, peel, valid_state}
use iaas.Dependency.Check.Topology.{IsRanked}
use iaas.Dependency.Check.Ranked.{peel-IsRanked_iff}
use iaas.Dependency.Check.Sound.{IsValid, valid_state-IsValid}
use iaas.Dependency.Stages.{AreValid, stages_for-AreValid}

abbrev no_network : Text → Bool
no_network t = false

abbrev no_text : Value → Text
no_text v = []

abbrev interfaces : List Text
interfaces = codes "lan" ∷ []

abbrev present : Fields → Fields
present row = field (codes "state") (str (codes "present")) row

-- A port alias, and a rule that uses it on an interface.
abbrev alias_row : Fields
alias_row =
    present
      (field (codes "name") (str (codes "web")) (field (codes "type") (str (codes "port")) end))

abbrev rule_row : Fields
rule_row = present (
    field (codes "interface") (list (cons (str (codes "lan")) nil))
      (field (codes "destination_port") (str (codes "web")) end))

abbrev selected : List Item
selected =
    record { resource = codes "filter-rules"; identity = codes "r" ∷ []; desired = rule_row }
    ∷ record { resource = codes "aliases"; identity = codes "web" ∷ []; desired = alias_row }
    ∷ []

abbrev differences : List Difference
differences =
    record { resource = codes "filter-rules"; identity = codes "r" ∷ []; action = create }
    ∷ record { resource = codes "aliases"; identity = codes "web" ∷ []; action = create }
    ∷ []

abbrev same : Text → Fields → Fields
same resource row = row

abbrev valid : State → Bool
valid = valid_state no_network no_text interfaces

abbrev after : State
after = apply same valid [] selected

abbrev stages : List Stage
stages =
    record { resource = codes "aliases"; mode = save; identities = (codes "web" ∷ []) ∷ [] }
    ∷ record { resource = codes "filter-rules"; mode = save; identities = (codes "r" ∷ []) ∷ [] }
    ∷ []

after_valid : valid after ≡ true
unfolding valid_state apply overlay
after_valid = refl

-- The alias comes first, since the rule alone has an unresolved reference.
alias_first : stages_for same valid selected [] differences [] ≡ some stages
unfolding valid_state apply overlay stages_for
alias_first = refl

valid_state-IsValid_example : IsValid no_network no_text interfaces after
valid_state-IsValid_example = valid_state-IsValid no_network no_text interfaces after after_valid

stages_for-AreValid_example :
    IsValid no_network no_text interfaces (apply same valid [] selected)
    × ((sequence : List Item) × Perm (pending_of (changed_of differences) [] selected) sequence
        × AreValid same no_network no_text interfaces [] sequence
        × (entries stages ≡ map (entry (changed_of differences)) sequence))
stages_for-AreValid_example =
    stages_for-AreValid same no_network no_text interfaces selected [] differences [] stages
      alias_first

abbrev chain : Graph
chain =
    (codes "a" ∷ [], (codes "b" ∷ []) ∷ [])
    ∷ (codes "b" ∷ [], (codes "c" ∷ []) ∷ [])
    ∷ (codes "c" ∷ [], [])
    ∷ []

peel-IsRanked_iff_example : (peel 3 chain ≡ true) ↔ ((rank : Marker → ℕ) × IsRanked chain rank)
peel-IsRanked_iff_example = peel-IsRanked_iff chain
