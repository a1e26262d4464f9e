-- ===== src/Staging.antt =====
-- `overlay` and `stages_for` of src/iaas/opnsense_workflow/planning.py: the order in which selected
-- records are written. `semantic` is the normal form of a desired record, and `valid_state` says that
-- a state has no missing, ambiguous or cyclic dependency.
pub mod Order
mod Examples
use iaas.Prelude.{
  ℕ, zero, suc, Bool, true, false, not, ◌&&◌, ◌||◌, Option, none, some, List, [], ◌∷◌, ◌++◌, Text,
  codes, text_eq, if◌then◌else◌, any, map, length,
}
use iaas.Value.{Value, Values, Fields, nil, cons, end, field, str, bool, list, dict, get, is_text}

-- The JSON text of `key` is the list of its texts.
abbrev pub Marker : Type 0
Marker = List Text

unfoldable pub same_marker : Marker → Marker → Bool
unfolding text_eq
same_marker [] [] = true
same_marker (s ∷ ss) (t ∷ ts) = text_eq s t && same_marker ss ts
same_marker _ _ = false

-- An entry of `selected`.
pub record Item : Type 0 where
  pub resource : Text
  pub identity : List Text
  pub desired : Fields

abbrev pub key : Item → Marker
key item = item.resource ∷ item.identity

abbrev pub State : Type 0
State = List (Marker × Option Fields)

-- `state.get(marker)`
unfoldable pub find : Marker → State → Option Fields
unfolding same_marker
find marker [] = none
find marker ((k, obj) ∷ rest) =
    let later = find marker rest in if same_marker k marker then obj else later

unfoldable pub put : Marker → Option Fields → State → State
unfolding same_marker
put marker obj [] = (marker, obj) ∷ []
put marker obj ((k, old) ∷ rest) =
    let later = put marker obj rest in
    if same_marker k marker then (k, obj) ∷ rest else (k, old) ∷ later

unfoldable pub set_field : Text → Value → Fields → Fields
unfolding text_eq
set_field key value end = field key value end
set_field key value (field k v rest) =
    let later = set_field key value rest in
    if text_eq k key then field k value rest else field k v later

unfoldable pub texts_value : List Text → Values
texts_value [] = nil
texts_value (t ∷ ts) = cons (str t) (texts_value ts)

or_empty : Option Fields → Fields
or_empty none = end
or_empty (some obj) = obj

created : Option Fields → Fields → Fields
unfolding set_field
created none obj = set_field (codes "creation_expected") (bool true) obj
created (some old) obj = obj

written : (Text → Fields → Fields) → Item → Option Fields → Fields
unfolding set_field texts_value or_empty created
written semantic item old = created old (
    set_field (codes "recovery") (str (codes "expressible")) (
      set_field (codes "configuration") (dict (semantic item.resource item.desired)) (
        set_field (codes "identity") (list (texts_value item.identity))
          (set_field (codes "resource") (str item.resource) (or_empty old)))))

unfoldable pub overlay : (Text → Fields → Fields) → State → Item → State
unfolding written put find get text_eq
overlay semantic state item =
    put (key item)
      (if is_text (codes "absent") (get (codes "state") item.desired)
        then none
        else some (written semantic item (find (key item) state)))
      state

pub data Action : Type 0 where
  create : Action
  update : Action
  delete : Action
  unchanged : Action

pub record Difference : Type 0 where
  pub resource : Text
  pub identity : List Text
  pub action : Action

pub data Mode : Type 0 where
  save : Mode
  activation_recovery : Mode

pub record Stage : Type 0 where
  pub resource : Text
  pub mode : Mode
  pub identities : List (List Text)

unfoldable pub is_marked : Marker → List Marker → Bool
unfolding same_marker
is_marked marker = any (same_marker marker)

-- `changed`
unfoldable pub changed_of : List Difference → List Marker
changed_of [] = []
changed_of (d ∷ ds) =
    let rest = changed_of ds in
    elim d.action [ unchanged ↦ rest | _ ↦ (d.resource ∷ d.identity) ∷ rest ]

unfoldable pub mode_of : List Marker → Item → Mode
unfolding is_marked
mode_of changed item = if is_marked (key item) changed then save else activation_recovery

-- The items that are changed or recovered.
unfoldable pub pending_of : List Marker → List Marker → List Item → List Item
unfolding is_marked
pending_of changed recovery [] = []
pending_of changed recovery (item ∷ items) =
    let rest = pending_of changed recovery items in
    if is_marked (key item) changed || is_marked (key item) recovery then item ∷ rest else rest

abbrev pub same_mode : Mode → Mode → Bool
same_mode save save = true
same_mode activation_recovery activation_recovery = true
same_mode _ _ = false

new_stage : Item → Mode → Stage
new_stage item mode = record {
  resource = item.resource;
  mode = mode;
  identities = item.identity ∷ [];
}

-- Consecutive items of one resource and mode share a stage.
unfoldable pub add_stage : List Stage → Item → Mode → List Stage
unfolding new_stage text_eq
add_stage [] item mode = new_stage item mode ∷ []
add_stage (s ∷ []) item mode =
    if text_eq s.resource item.resource && same_mode s.mode mode
    then record s { identities = s.identities ++ item.identity ∷ [] } ∷ []
    else s ∷ new_stage item mode ∷ []
add_stage (s ∷ t ∷ ts) item mode = s ∷ add_stage (t ∷ ts) item mode

module _ (semantic : Text → Fields → Fields) (valid_state : State → Bool) where
  -- The state after the items.
  unfoldable pub apply : State → List Item → State
  apply state [] = state
  apply state (item ∷ items) = apply (overlay semantic state item) items

  -- The first item whose write keeps the state valid, and the others.
  unfoldable pub admit : State → List Item → Option (Item × List Item)
  admit state [] = none
  admit state (item ∷ items) =
      let later = admit state items in
      if valid_state (overlay semantic state item)
      then some (item, items)
      else elim later [ none ↦ none | some (found, rest) ↦ some (found, item ∷ rest) ]

  -- `while pending`, with one round of fuel for each item.
  unfoldable pub order : List Marker → ℕ → State → List Item → List Stage → Option (List Stage)
  unfolding admit add_stage mode_of
  order changed fuel state [] stages = some stages
  order changed zero state (item ∷ items) stages = none
  order changed (suc fuel) state (item ∷ items) stages = elim (admit state (item ∷ items)) [
    | none ↦ none
    | some (found, rest) ↦
        order changed fuel (overlay semantic state found) rest
          (add_stage stages found (mode_of changed found))
  ]

-- `none` where `stages_for` raises.
unfoldable pub stages_for :
    (Text → Fields → Fields)
    → (State → Bool)
    → List Item
    → State
    → List Difference
    → List Marker
    → Option (List Stage)
unfolding apply order pending_of changed_of
stages_for semantic valid_state selected before differences recovery =
    let changed = changed_of differences in
    let pending = pending_of changed recovery selected in
    if valid_state (apply semantic valid_state before selected)
    then order semantic valid_state changed (length pending) before pending []
    else none
