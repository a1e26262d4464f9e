-- ===== src/Candidate/Changes.antt =====
-- The differences of `plan` in src/iaas/opnsense_workflow/planning.py, and the candidate that is made of
-- them. `semantic` is the normal form of a record. An existing object is not an empty mapping.
pub mod Allowed
pub mod Sound
use iaas.Prelude.{
  Bool, true, false, not, ◌&&◌, ◌||◌, Option, none, some, List, [], ◌∷◌, ◌++◌, Text, codes, text_eq,
  if◌then◌else◌, all, map, is_in, ◌==◌, length,
}
use iaas.Value.{
  Value, Values, Fields, null, str, list, dict, nil, cons, end, field, get, has_key, is_text,
}
use iaas.Classify.{same_value}
use iaas.Admission.{require_independent}
use iaas.Staging.{
  Marker, Item, key, State, find, is_marked, Action, create, update, delete, unchanged, Stage,
  stages_for,
}
use iaas.Staging as Staging
use iaas.Dependency.{configuration, texts_of}
use iaas.Dependency.Check.{valid_state}
use iaas.Confirm.{Change, Bound, bind_stages, Disposition, disposition}
use iaas.Candidate.{Observations, relevant}

abbrev pub keys_of : Fields → List Text
keys_of end = []
keys_of (field k v fs) = k ∷ keys_of fs

-- `==` of two values; the order of the keys of a mapping does not count.
unfoldable mutual
  pub equal : Value → Value → Bool
  equal (list vs) (list ws) = equal_all vs ws
  equal (dict c) (dict d) = (length (keys_of c) == length (keys_of d)) && equal_in c d
  equal v w = same_value v w

  equal_all : Values → Values → Bool
  equal_all nil nil = true
  equal_all (cons v vs) (cons w ws) = equal v w && equal_all vs ws
  equal_all _ _ = false

  equal_in : Fields → Fields → Bool
  equal_in end d = true
  equal_in (field k v fs) d = (has_key k d && equal v (get k d)) && equal_in fs d

-- The sets of identities that a request names.
pub record Request : Type 0 where
  pub managed : List Marker
  pub adopted : List Marker
  pub recovery : List Marker

-- An entry of `differences`.
pub record Row : Type 0 where
  pub resource : Text
  pub identity : List Text
  pub action : Action
  pub before : Option Fields
  pub after : Option Fields
  pub adopted : Bool
  pub recovery : Value

unfoldable pub is_absent : Item → Bool
unfolding get text_eq
is_absent item = is_text (codes "absent") (get (codes "state") item.desired)

after_of : Item → Option Fields
unfolding get text_eq
after_of item =
    if is_text (codes "present") (get (codes "state") item.desired) then some item.desired else none

recovery_of : Fields → Value
unfolding get has_key
recovery_of obj =
    if has_key (codes "recovery") obj
    then get (codes "recovery") obj
    else str (codes "manual_required")

row_of : Request → Item → Action → Option Fields → Value → Row
unfolding after_of is_marked
row_of request item action before recovery = record {
  resource = item.resource;
  identity = item.identity;
  action = action;
  before = before;
  after = after_of item;
  adopted = is_marked (key item) request.adopted;
  recovery = recovery;
}

-- The alias of another type is not migrated.
unfoldable pub keeps_type : Item → Fields → Bool
unfolding text_eq get equal
keeps_type item actual =
    not (text_eq item.resource (codes "aliases"))
    || equal (get (codes "type") actual) (get (codes "type") item.desired)

-- The action on an object that is configured already.
existing_action : (Text → Fields → Fields) → Item → Fields → Option Action
unfolding is_absent keeps_type equal
existing_action semantic item actual =
    if is_absent item
    then some delete
    else if keeps_type item actual
    then some (
        if equal (dict (semantic item.resource actual)) (dict (semantic item.resource item.desired))
        then unchanged
        else update)
    else none

acted : Request → Item → Fields → Fields → Option Action → Option Row
unfolding row_of recovery_of
acted request item obj actual none = none
acted request item obj actual (some action) =
    some (row_of request item action (some actual) (recovery_of obj))

existing_difference :
    (Text → Fields → Fields) → Request → Item → Fields → Option Fields → Option Row
unfolding acted existing_action is_marked
existing_difference semantic request item obj none = none
existing_difference semantic request item obj (some actual) =
    if is_marked (key item) request.managed || is_marked (key item) request.adopted
    then acted request item obj actual (existing_action semantic item actual)
    else none

new_difference : Request → Item → Option Row
unfolding row_of is_marked is_absent
new_difference request item =
    if is_marked (key item) request.recovery
    then none
    else some (
        row_of request item (if is_absent item then unchanged else create) none
          (str (codes "expressible")))

-- The difference of one record and the object that is there.
unfoldable pub difference_of :
    (Text → Fields → Fields) → Request → Item → Option Fields → Option Row
unfolding new_difference existing_difference require_independent configuration
difference_of semantic request item none = new_difference request item
difference_of semantic request item (some obj) =
    if require_independent obj
    then existing_difference semantic request item obj (configuration obj)
    else none

unfoldable pub differences_of :
    (Text → Fields → Fields) → Request → List Item → State → Option (List Row)
unfolding difference_of find
differences_of semantic request [] before = some []
differences_of semantic request (item ∷ items) before =
    let rest = differences_of semantic request items before in
    elim (difference_of semantic request item (find (key item) before)) [
      | none ↦ none
      | some row ↦ elim rest [ none ↦ none | some rows ↦ some (row ∷ rows) ]
    ]

-- `managed | adopted | recovery <= chosen`
is_within : Request → List Item → Bool
unfolding is_marked
is_within request selected =
    all (λ m. is_marked m (map key selected))
      (request.managed ++ request.adopted ++ request.recovery)

abbrev pub difference_row : Row → Staging.Difference
difference_row row = record {
  resource = row.resource;
  identity = row.identity;
  action = row.action;
}

unfoldable pub change_row : Row → Change
change_row row = record {
  resource = row.resource;
  identity = row.identity;
  before = row.before;
  after = row.after;
}

pub record Candidate : Type 0 where
  pub before : State
  pub differences : List Row
  pub stages : List Bound
  pub admission : Disposition

-- `observations.get(resource, {})`
unfoldable pub observation_at : Observations → Text → Fields
unfolding text_eq
observation_at [] resource = end
observation_at ((r, observation) ∷ rest) resource =
    let later = observation_at rest resource in if text_eq r resource then observation else later

named_interfaces : Fields → Option (List Text)
unfolding has_key get texts_of
named_interfaces observation =
    if has_key (codes "interfaces") observation
    then texts_of (get (codes "interfaces") observation)
    else some []

unfoldable pub interfaces_from : Observations → Option (List Text)
unfolding named_interfaces
interfaces_from [] = some []
interfaces_from ((resource, observation) ∷ rest) =
    let others = interfaces_from rest in
    elim (named_interfaces observation) [
      | none ↦ none
      | some names ↦ elim others [ none ↦ none | some more ↦ some (names ++ more) ]
    ]

module _ (semantic : Text → Fields → Fields) (is_network : Text → Bool)
    (printed : Value → Text) where
  bound : Observations → State → List Row → Option (List Stage) → Option Candidate
  unfolding bind_stages disposition change_row observation_at
  bound observations before rows none = none
  bound observations before rows (some stages) =
      let bs = bind_stages is_network stages (map change_row rows) (observation_at observations) in
      some (record { before = before; differences = rows; stages = bs; admission = disposition bs })

  staged :
      Request → List Item → Observations → State → Option (List Text) → List Row → Option Candidate
  unfolding bound stages_for
  staged request selected observations before none rows = none
  staged request selected observations before (some interfaces) rows =
      bound observations before rows (
        stages_for semantic (valid_state is_network printed interfaces) selected before
          (map difference_row rows) request.recovery)

  compared : Request → List Item → Observations → State → Option (List Row) → Option Candidate
  unfolding staged interfaces_from
  compared request selected observations before none = none
  compared request selected observations before (some rows) =
      staged request selected observations before (interfaces_from observations) rows

  related : Request → List Item → Observations → Option State → Option Candidate
  unfolding compared differences_of is_within
  related request selected observations none = none
  related request selected observations (some before) =
      if is_within request selected
      then compared request selected observations before
          (differences_of semantic request selected before)
      else none

  -- `plan`, behind the reading of the request and of the records that it selects: the content of a
  -- candidate.
  unfoldable pub candidate_of : Request → List Item → Observations → Option Candidate
  unfolding related relevant
  candidate_of request selected observations =
      related request selected observations (relevant is_network printed observations selected)
