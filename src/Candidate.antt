-- ===== src/Candidate.antt =====
-- The scope of a candidate in src/iaas/opnsense_workflow/planning.py: the resources that are read,
-- the live objects, and those that the selected records touch. `none` is an error; a set is a list.
-- `is_network` and `printed` are those of Dependency.
pub mod Scope
pub mod Changes
mod Examples
use iaas.Prelude.{
  ℕ, zero, suc, ◌+◌, Bool, true, false, not, ◌&&◌, ◌||◌, Option, none, some, List, [], ◌∷◌, ◌++◌,
  Text, codes, text_eq, if◌then◌else◌, any, is_in, map, sorted_set, length, ◌==◌,
}
use iaas.Value.{Value, Values, Fields, null, str, list, dict, end, field, get, is_text, to_list}
use iaas.Admission.{validate_classification, require_configuration_observation}
use iaas.Staging.{Marker, Item, key, is_marked, same_marker, set_field}
use iaas.Dependency.{consumers, referred, label, references, object_references, texts_of}
use iaas.Dependency.Check.{object_label}

any_in : List Text → List Text → Bool
unfolding is_in
any_in resources set = any (λ r. is_in r set) resources

with_if : Bool → List Text → List Text → List Text
with_if true more resources = resources ++ more
with_if false more resources = resources

-- The three extensions of `coverage`, in turn.
unfoldable pub covered_by : List Text → List Text
unfolding any_in with_if is_in
covered_by resources =
    let r1 = with_if (any_in resources consumers) referred resources in
    let r2 =
      with_if (any_in r1 (codes "aliases" ∷ codes "interface-groups" ∷ [])) (consumers ++ referred)
        r1 in
    with_if (is_in (codes "gateways") r2)
      (codes "filter-rules" ∷ codes "aliases" ∷ codes "interface-groups" ∷ []) r2

unfoldable pub coverage : List Item → List Text
unfolding covered_by sorted_set
coverage selected = sorted_set (covered_by (map (λ item. item.resource) selected))

abbrev pub Live : Type 0
Live = List (Marker × Fields)

abbrev pub Observations : Type 0
Observations = List (Text × Fields)

has_live : Marker → Live → Bool
unfolding same_marker
has_live marker [] = false
has_live marker ((m, obj) ∷ live) = same_marker m marker || has_live marker live

classified : Option Fields → Bool
classified none = false
classified (some c) = true

-- An object of an observation, behind the objects before.
add_object : Text → Live → Value → Option Live
unfolding get validate_classification classified texts_of has_live set_field
add_object resource live (dict obj) =
    if classified (validate_classification (get (codes "classification") obj))
    then elim (texts_of (get (codes "identity") obj)) [
      | none ↦ none
      | some identity ↦
          if has_live (resource ∷ identity) live
          then none
          else some
              (live ++ (resource ∷ identity, set_field (codes "resource") (str resource) obj) ∷ [])
    ]
    else none
add_object resource live _ = none

add_objects : Text → Live → List Value → Option Live
unfolding add_object
add_objects resource live [] = some live
add_objects resource live (v ∷ vs) = elim (add_object resource live v) [
  | none ↦ none
  | some more ↦ add_objects resource more vs
]

values_of : Value → Option (List Value)
values_of (list vs) = some (to_list vs)
values_of _ = none

observed : Text → Live → Fields → Option Live
unfolding require_configuration_observation get values_of add_objects text_eq
observed resource live observation =
    if require_configuration_observation observation
      && is_text (codes "complete") (get (codes "status") observation)
    then elim (values_of (get (codes "objects") observation)) [
      | none ↦ none
      | some vs ↦ add_objects resource live vs
    ]
    else none

objects_from : Live → Observations → Option Live
unfolding observed
objects_from live [] = some live
objects_from live ((resource, observation) ∷ rest) = elim (observed resource live observation) [
  | none ↦ none
  | some more ↦ objects_from more rest
]

unfoldable pub objects : Observations → Option Live
unfolding objects_from
objects = objects_from []

-- What a round of `relevant` reads of a live object.
pub record Link : Type 0 where
  pub marker : Marker
  pub label : Option Text
  pub refs : List Text

pub record Reached : Type 0 where
  pub wanted : List Marker
  pub needed : List Text

unfoldable pub add_marker : Marker → List Marker → List Marker
unfolding is_marked
add_marker m ms = if is_marked m ms then ms else m ∷ ms

unfoldable pub add_texts : List Text → List Text → List Text
unfolding is_in
add_texts [] set = set
add_texts (t ∷ ts) set = add_texts ts (if is_in t set then set else t ∷ set)

is_labelled : Option Text → List Text → Bool
unfolding is_in
is_labelled none set = false
is_labelled (some t) set = is_in t set

-- `marker in wanted or obj_label in needed or refs & labels`
unfoldable pub is_touched : List Text → Reached → Link → Bool
unfolding is_marked is_labelled any_in
is_touched labels s link =
    is_marked link.marker s.wanted || (is_labelled link.label s.needed || any_in link.refs labels)

unfoldable pub reach : List Text → Reached → Link → Reached
unfolding is_touched add_marker add_texts
reach labels s link =
    if is_touched labels s link
    then record { wanted = add_marker link.marker s.wanted; needed = add_texts link.refs s.needed }
    else s

-- One pass over the live objects.
unfoldable pub pass : List Text → Reached → List Link → Reached
unfolding reach
pass labels s [] = s
pass labels s (link ∷ links) = pass labels (reach labels s link) links

unfoldable pub same_size : Reached → Reached → Bool
same_size s t = length s.wanted == length t.wanted && length s.needed == length t.needed

-- `while changed`; `none` where the fuel is out.
unfoldable pub spread : List Text → ℕ → Reached → List Link → Option Reached
unfolding pass same_size
spread labels zero s links = none
spread labels (suc fuel) s links =
    let later = spread labels fuel (pass labels s links) links in
    if same_size (pass labels s links) s then some (pass labels s links) else later

-- `labels`: a record that is present, or may be referred to, has its label.
labels_of : List Item → Option (List Text)
unfolding get text_eq label is_in
labels_of [] = some []
labels_of (item ∷ items) =
    let rest = labels_of items in
    if not (is_text (codes "absent") (get (codes "state") item.desired))
      || is_in item.resource referred
    then elim (label item.resource item.desired) [
      | none ↦ none
      | some none ↦ rest
      | some (some l) ↦ elim rest [ none ↦ none | some ls ↦ some (l ∷ ls) ]
    ]
    else rest

module _ (is_network : Text → Bool) (printed : Value → Text) where
  link_of : Marker → Fields → Option Link
  unfolding object_label object_references
  link_of marker obj = elim (object_label obj) [
    | none ↦ none
    | some label ↦ elim (object_references is_network printed obj) [
      | none ↦ none
      | some refs ↦ some (record { marker = marker; label = label; refs = refs })
    ]
  ]

  links_of : Live → Option (List Link)
  unfolding link_of
  links_of [] = some []
  links_of ((marker, obj) ∷ live) =
      let rest = links_of live in
      elim (link_of marker obj) [
        | none ↦ none
        | some link ↦ elim rest [ none ↦ none | some links ↦ some (link ∷ links) ]
      ]

  needed_of : List Item → Option (List Text)
  unfolding references
  needed_of [] = some []
  needed_of (item ∷ items) =
      let rest = needed_of items in
      elim (references is_network printed item.resource item.desired) [
        | none ↦ none
        | some refs ↦ elim rest [ none ↦ none | some more ↦ some (refs ++ more) ]
      ]

  start : List Item → List Text → Reached
  unfolding add_texts
  start selected needed = record { wanted = map key selected; needed = add_texts needed [] }

  live_at : Marker → Live → Option Fields
  unfolding same_marker
  live_at marker [] = none
  live_at marker ((m, obj) ∷ live) =
      let later = live_at marker live in if same_marker m marker then some obj else later

  -- The live object of each wanted marker; the source sorts the markers.
  taken : Live → Option Reached → Option (List (Marker × Option Fields))
  unfolding live_at
  taken live none = none
  taken live (some s) = some (map (λ m. (m, live_at m live)) s.wanted)

  -- One round of fuel for each live object, and one that changes nothing.
  unfoldable pub relevant : Observations → List Item → Option (List (Marker × Option Fields))
  unfolding objects labels_of links_of needed_of start taken spread
  relevant observations selected = elim (objects observations) [
    | none ↦ none
    | some live ↦ elim (labels_of selected) [
      | none ↦ none
      | some labels ↦ elim (needed_of selected) [
        | none ↦ none
        | some needed ↦ elim (links_of live) [
          | none ↦ none
          | some links ↦
              taken live (spread labels (suc (length links)) (start selected needed) links)
        ]
      ]
    ]
  ]
