-- ===== src/Dependency/Check.antt =====
-- `valid_state` of src/iaas/opnsense_workflow/planning.py: the labels of a state, the references of
-- its objects, the types of the aliases that rules use, and the order of the dependencies. A test is
-- false where the source raises. Configurations have the fields of their resource, without which the
-- source has an error that `stages_for` does not catch.
pub mod Topology
pub mod Ranked
pub mod Labels
pub mod Sound
use iaas.Prelude.{
  ℕ, zero, suc, Bool, true, false, not, ◌&&◌, ◌||◌, Option, none, some, List, [], ◌∷◌, ◌++◌, Text,
  codes, text_eq, if◌then◌else◌, any, all, is_in, map, length, take, leb, ◌-◌, ◌==◌,
}
use iaas.Value.{
  Value, Values, Fields, str, dict, end, field, get, is_text, is_true, is_null, full_text,
}
use iaas.Admission.{reference_label, reference_support, require_reference}
use iaas.Staging.{Marker, State, find, same_marker, is_marked}
use iaas.Dependency.{
  consumers, reference, text_of, label, cut_at, reference_fields, field_values, shown,
  configuration, object_references,
}

abbrev pub Labels : Type 0
Labels = List (Text × Marker)

-- `labels.get(ref)`
pub label_in : Text → Labels → Option Marker
unfolding text_eq
label_in ref [] = none
label_in ref ((l, m) ∷ labels) = if text_eq l ref then some m else label_in ref labels

filled_text : Option Value → Option (Option Text)
filled_text none = none
filled_text (some v) = some (full_text v)

-- The label of an object; an empty configuration is like a missing one.
unfoldable pub object_label : Fields → Option (Option Text)
unfolding label reference_label get text_of filled_text configuration
object_label obj = elim (configuration obj) [
  | some (field k v fs) ↦ elim (text_of (get (codes "resource") obj)) [
    | none ↦ none
    | some resource ↦ label resource (field k v fs)
  ]
  | _ ↦ filled_text (reference_label obj)
]

-- An object with its label behind the labels before.
add_label : Labels → Marker → Option (Option Text) → Option Labels
unfolding label_in
add_label labels marker none = none
add_label labels marker (some none) = some labels
add_label labels marker (some (some [])) = some labels
add_label labels marker (some (some (c ∷ l))) = elim (label_in (c ∷ l) labels) [
  | none ↦ some ((c ∷ l, marker) ∷ labels)
  | some other ↦ none
]

pub labels_from : Labels → State → Option Labels
unfolding add_label object_label
labels_from labels [] = some labels
labels_from labels ((marker, none) ∷ state) = labels_from labels state
labels_from labels ((marker, some obj) ∷ state) =
    elim (add_label labels marker (object_label obj)) [
      | none ↦ none
      | some more ↦ labels_from more state
    ]

-- `name.endswith('ip') and name[:-2]`
stem : Text → Option Text
unfolding text_eq
stem name = elim (leb 2 (length name)) [
  | true ↦
      let n = length name - 2 in
      if text_eq name (take n name ++ codes "ip") then some (take n name) else none
  | false ↦ none
]

is_stem_in : Option Text → List Text → Bool
unfolding is_in
is_stem_in none interfaces = false
is_stem_in (some t) interfaces = is_in t interfaces

-- A native interface, or the address of one.
pub is_interface : List Text → Text → Text → Bool
unfolding is_in text_eq is_stem_in stem
is_interface interfaces category name =
    (is_in category (codes "aliases" ∷ codes "interface-groups" ∷ []) && is_in name interfaces)
    || (text_eq category (codes "aliases") && is_stem_in (stem name) interfaces)

is_complete : Option (Option Fields) → Bool
unfolding get
is_complete (some (some support)) = is_true (get (codes "dependencies_complete") support)
is_complete _ = false

of_consumer : Value → Bool
unfolding is_in
of_consumer (str r) = is_in r consumers
of_consumer _ = false

-- A dependency without a configuration.
is_described : Value → Text → Option Fields → Bool
unfolding is_complete reference_support require_reference text_eq of_consumer
is_described resource category none = false
is_described resource category (some dependency) =
    of_consumer resource
    && (if text_eq category (codes "aliases")
        then is_complete (reference_support dependency)
        else require_reference dependency
            (if text_eq category (codes "interface-groups")
              then codes "interface-group"
              else codes "address")
            none)

nested_types : List Text
nested_types = codes "host" ∷ codes "network" ∷ codes "urltable" ∷ codes "networkgroup" ∷ []

is_nested : Value → Bool
unfolding nested_types is_in
is_nested (str t) = is_in t nested_types
is_nested _ = false

configured : Option Fields → Option Fields
unfolding configuration
configured none = none
configured (some obj) = configuration obj

-- Whether an object of `resource` may refer to the dependency.
pub is_fit : Value → Text → Option Fields → Bool
unfolding is_nested get text_eq is_described configured
is_fit resource category dependency = elim (configured dependency) [
  | none ↦
      is_described resource category dependency
      && not (text_eq category (codes "aliases") && is_text (codes "aliases") resource)
  | some config ↦
      not (text_eq category (codes "aliases") && is_text (codes "aliases") resource)
      || is_nested (get (codes "type") config)
]

-- The object that a reference leads to: `some none` for an interface.
resolve : List Text → Labels → State → Value → Text → Option (Option Marker)
unfolding cut_at label_in is_interface is_fit find
resolve interfaces labels state resource ref =
    let (category, rest) = cut_at b':' ref in
    elim rest [
      | none ↦ none
      | some name ↦ elim (label_in ref labels) [
        | none ↦ if is_interface interfaces category name then some none else none
        | some marker ↦
            if is_fit resource category (find marker state) then some (some marker) else none
      ]
    ]

add_dependency : Option Marker → List Marker → List Marker
add_dependency none deps = deps
add_dependency (some d) deps = d ∷ deps

dependencies : List Text → Labels → State → Value → List Text → Option (List Marker)
unfolding resolve add_dependency
dependencies interfaces labels state resource [] = some []
dependencies interfaces labels state resource (ref ∷ refs) =
    let rest = dependencies interfaces labels state resource refs in
    elim (resolve interfaces labels state resource ref) [
      | none ↦ none
      | some d ↦ elim rest [ none ↦ none | some deps ↦ some (add_dependency d deps) ]
    ]

typed_fields : List Text
typed_fields =
    codes "source_net"
    ∷ codes "destination_net"
    ∷ codes "target"
    ∷ codes "external"
    ∷ codes "source_port"
    ∷ codes "destination_port"
    ∷ codes "local_port"
    ∷ []

-- `field.endswith('port')`, for the fields above.
is_port_field : Text → Bool
unfolding is_in
is_port_field key =
    is_in key (codes "source_port" ∷ codes "destination_port" ∷ codes "local_port" ∷ [])

same_bool : Bool → Bool → Bool
same_bool true b = b
same_bool false b = not b

-- Whether the linked object may stand in the field.
is_typed : Text → Value → Option Fields → Bool
unfolding configured get text_eq same_bool is_port_field require_reference text_of
is_typed key protocol dependency = elim (configured dependency) [
  | some config ↦ same_bool (is_text (codes "port") (get (codes "type") config)) (is_port_field key)
  | none ↦ elim dependency [
    | none ↦ false
    | some obj ↦
        require_reference obj (if is_port_field key then codes "port" else codes "address")
          (text_of protocol)
  ]
]

is_token_typed : (Value → Text) → Labels → State → Text → Value → Value → Bool
unfolding label_in shown is_typed find
is_token_typed printed labels state key protocol token =
    elim (label_in (reference (codes "aliases") (shown printed token)) labels) [
      | none ↦ true
      | some marker ↦ is_typed key protocol (find marker state)
    ]

-- Every alias that a consumer uses has the type of its field.
are_fields_typed : (Value → Text) → Labels → State → Fields → List Text → Bool
unfolding is_token_typed field_values get
are_fields_typed printed labels state row [] = true
are_fields_typed printed labels state row (key ∷ keys) =
    all (is_token_typed printed labels state key (get (codes "ip_protocol") row))
      (field_values key row)
    && are_fields_typed printed labels state row keys

pub are_tokens_typed : (Value → Text) → Labels → State → Value → Option Fields → Bool
unfolding are_fields_typed of_consumer typed_fields
are_tokens_typed printed labels state resource none = true
are_tokens_typed printed labels state resource (some row) =
    not (of_consumer resource) || are_fields_typed printed labels state row typed_fields

-- The coverage of a system object without a configuration.
pub is_covered : Fields → Bool
unfolding configuration is_complete reference_support get
is_covered obj = elim (configuration obj) [
  | some config ↦ true
  | none ↦ elim (reference_support obj) [
    | none ↦ false
    | some none ↦ true
    | some (some support) ↦ is_true (get (codes "dependencies_complete") support)
  ]
]

abbrev pub Graph : Type 0
Graph = List (Marker × List Marker)

-- The dependencies of an object.
object_dependencies :
    (Text → Bool) → (Value → Text) → List Text → Labels → State → Fields → Option (List Marker)
unfolding is_covered object_references dependencies are_tokens_typed configuration get
object_dependencies is_network printed interfaces labels state obj =
    let resource = get (codes "resource") obj in
    if is_covered obj
    then elim (object_references is_network printed obj) [
      | none ↦ none
      | some refs ↦ elim (dependencies interfaces labels state resource refs) [
        | none ↦ none
        | some deps ↦
            if are_tokens_typed printed labels state resource (configuration obj)
            then some deps
            else none
      ]
    ]
    else none

graph_of : (Text → Bool) → (Value → Text) → List Text → Labels → State → State → Option Graph
unfolding object_dependencies
graph_of is_network printed interfaces labels state [] = some []
graph_of is_network printed interfaces labels state ((marker, none) ∷ objs) =
    graph_of is_network printed interfaces labels state objs
graph_of is_network printed interfaces labels state ((marker, some obj) ∷ objs) =
    let rest = graph_of is_network printed interfaces labels state objs in
    elim (object_dependencies is_network printed interfaces labels state obj) [
      | none ↦ none
      | some deps ↦ elim rest [ none ↦ none | some graph ↦ some ((marker, deps) ∷ graph) ]
    ]

abbrev pub keys : Graph → List Marker
keys [] = []
keys ((m, deps) ∷ graph) = m ∷ keys graph

-- `not deps & pending.keys()`
pub is_ready : List Marker → Marker × List Marker → Bool
unfolding is_marked
is_ready pending (m, deps) = not (any (λ d. is_marked d pending) deps)

-- The objects that are left when the ready ones are deleted.
pub blocked : List Marker → Graph → Graph
unfolding is_ready
blocked pending [] = []
blocked pending (e ∷ es) =
    let rest = blocked pending es in if is_ready pending e then rest else e ∷ rest

-- `while pending`, with one round of fuel for each object.
pub peel : ℕ → Graph → Bool
unfolding blocked is_ready
peel fuel [] = true
peel zero (e ∷ es) = false
peel (suc fuel) (e ∷ es) =
    any (is_ready (keys (e ∷ es))) (e ∷ es) && peel fuel (blocked (keys (e ∷ es)) (e ∷ es))

-- Whether `valid_state` returns.
unfoldable pub valid_state : (Text → Bool) → (Value → Text) → List Text → State → Bool
unfolding labels_from graph_of peel
valid_state is_network printed interfaces state = elim (labels_from [] state) [
  | none ↦ false
  | some labels ↦ elim (graph_of is_network printed interfaces labels state state) [
    | none ↦ false
    | some graph ↦ peel (length graph) graph
  ]
]
