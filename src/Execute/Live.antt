-- ===== src/Execute/Live.antt =====
-- `fingerprint`, `checked_live` and `activation_admission` of
-- src/iaas/opnsense_workflow/executor.py: the checks of the live state before each write and activation.
use iaas.Prelude.{
  Bool, true, false, ◌&&◌, ◌||◌, Option, none, some, List, [], ◌∷◌, ◌++◌, Text, codes, text_eq,
  if◌then◌else◌, all, any, is_in, length, ◌==◌, text_before,
}
use iaas.Value.{
  Value, Fields, null, str, list, dict, end, field, get, has_key, is_text, is_true, truthy, to_list,
}
use iaas.Admission.{validate_classification, require_independent}
use iaas.Staging.{Marker, Item, key, State, find, same_marker, put, set_field, texts_value}
use iaas.Dependency.{configuration}
use iaas.Candidate.{Live, Observations, objects, relevant, coverage}
use iaas.Candidate.Changes.{equal}
use iaas.Execute.{Env, read, asked, Run, ◌>>=◌, ◌>>◌, ok, require, lift, log}

-- `sorted` of the texts of a list.
insert_sorted : Text → List Text → List Text
unfolding text_before
insert_sorted t [] = t ∷ []
insert_sorted t (u ∷ us) =
    let rest = insert_sorted t us in if text_before t u then t ∷ u ∷ us else u ∷ rest

sorted_texts : List Value → List Text
unfolding insert_sorted
sorted_texts [] = []
sorted_texts (str t ∷ vs) = insert_sorted t (sorted_texts vs)
sorted_texts (v ∷ vs) = sorted_texts vs

sorted_value : Value → Value
unfolding sorted_texts texts_value
sorted_value (list vs) = list (texts_value (sorted_texts (to_list vs)))
sorted_value v = v

semantics_of : Option Fields → Option Value
unfolding get sorted_value
semantics_of none = none
semantics_of (some c) = some (
    dict (
      field (codes "management") (get (codes "management") c) (
        field (codes "basis") (sorted_value (get (codes "basis") c))
          (field (codes "source") (get (codes "source") c) end))))

-- `management_semantics` of src/iaas/opnsense_workflow/admission.py.
unfoldable pub management_semantics : Value → Option Value
unfolding semantics_of validate_classification
management_semantics v = semantics_of (validate_classification v)

normal_value : (Text → Fields → Fields) → Fields → Option Fields → Value
unfolding get
normal_value semantic obj (some (field k v rest)) = resourced (get (codes "resource") obj)
  where
    resourced : Value → Value
    resourced (str resource) = dict (semantic resource (field k v rest))
    resourced _ = null
normal_value semantic obj _ = null

given_or : Text → Value → Fields → Value
unfolding get has_key
given_or key default obj = if has_key key obj then get key obj else default

-- The fingerprint of an object.
print_object : (Text → Fields → Fields) → Fields → Option Value
unfolding management_semantics normal_value given_or configuration get
print_object semantic obj = elim (management_semantics (get (codes "classification") obj)) [
  | none ↦ none
  | some management ↦ some (
      dict (
        field (codes "configuration") (normal_value semantic obj (configuration obj)) (
          field (codes "references")
            (elim (configuration obj) [ none ↦ get (codes "references") obj | some c ↦ null ])
            (field (codes "recovery")
              (given_or (codes "recovery") (str (codes "manual_required")) obj)
              (field (codes "management") management
                (field (codes "reference_support") (get (codes "reference_support") obj) end))))))
]

unfoldable pub fingerprint : (Text → Fields → Fields) → State → Option (List (Marker × Value))
unfolding print_object
fingerprint semantic [] = some []
fingerprint semantic ((marker, none) ∷ state) = elim (fingerprint semantic state) [
  | none ↦ none
  | some prints ↦ some ((marker, null) ∷ prints)
]
fingerprint semantic ((marker, some obj) ∷ state) =
    let rest = fingerprint semantic state in
    elim (print_object semantic obj) [
      | none ↦ none
      | some p ↦ elim rest [ none ↦ none | some prints ↦ some ((marker, p) ∷ prints) ]
    ]

has_print : Marker × Value → List (Marker × Value) → Bool
unfolding same_marker equal
has_print (marker, p) prints = any (λ q. same_marker marker q.0 && equal p q.1) prints

-- `==` of two fingerprints; the markers of each are distinct.
same_prints : Option (List (Marker × Value)) → Option (List (Marker × Value)) → Bool
unfolding has_print
same_prints (some ps) (some qs) = (length ps == length qs) && all (λ p. has_print p qs) ps
same_prints _ _ = false

has_marker : Marker → State → Bool
unfolding same_marker
has_marker marker state = any (λ e. same_marker marker e.0) state

live_of : Marker → Live → Option Fields
unfolding same_marker
live_of marker [] = none
live_of marker ((m, obj) ∷ live) =
    let later = live_of marker live in if same_marker m marker then some obj else later

-- `current.setdefault(marker, live.get(marker))` for each expected marker.
with_expected : State → Live → State → State
unfolding has_marker live_of
with_expected [] live current = current
with_expected ((m, obj) ∷ expected) live current =
    with_expected expected live
      (if has_marker m current then current else current ++ (m, live_of m live) ∷ [])

is_created : Option Fields → Bool
unfolding get
is_created none = false
is_created (some previous) = truthy (get (codes "creation_expected") previous)

reclassified : Option Fields → Fields → Option Fields
unfolding set_field get
reclassified none actual = none
reclassified (some previous) actual =
    some (set_field (codes "classification") (get (codes "classification") actual) previous)

-- The comparison behind one selected record.
compared_item : Item → State → Option Fields → Option State
unfolding is_created find require_independent reclassified put
compared_item item comparison none =
    if is_created (find (key item) comparison) then none else some comparison
compared_item item comparison (some actual) =
    if require_independent actual
    then if is_created (find (key item) comparison)
      then some (put (key item) (reclassified (find (key item) comparison) actual) comparison)
      else some comparison
    else none

compared_items : List Item → State → State → Option State
unfolding compared_item find
compared_items [] current comparison = some comparison
compared_items (item ∷ items) current comparison =
    elim (compared_item item comparison (find (key item) current)) [
      | none ↦ none
      | some next ↦ compared_items items current next
    ]

-- The current state, if it is the expected one.
unfoldable pub undrifted : (Text → Fields → Fields) → List Item → State → State → Option State
unfolding compared_items fingerprint same_prints
undrifted semantic selected expected current = elim (compared_items selected current expected) [
  | none ↦ none
  | some comparison ↦
      if same_prints (fingerprint semantic current) (fingerprint semantic comparison)
      then some current
      else none
]

module _ (semantic : Text → Fields → Fields) (is_network : Text → Bool)
    (printed : Value → Text) where
  -- What `checked_live` makes of the observations.
  unfoldable pub current_of : List Item → State → Observations → Option State
  unfolding with_expected undrifted relevant objects
  current_of selected expected observations =
      elim (relevant is_network printed observations selected) [
        | none ↦ none
        | some related ↦ elim (objects observations) [
          | none ↦ none
          | some live ↦ undrifted semantic selected expected (with_expected expected live related)
        ]
      ]

  unfoldable pub read_all : Env → List Text → Run Observations
  read_all env resources =
      λ s. (log (read resources (env.read s.trace resources)) s, env.read s.trace resources)

  unfoldable pub is_covering : List Item → List Text → Bool
  unfolding coverage is_in
  is_covering selected supplied = all (λ r. is_in r supplied) (coverage selected)

  unfoldable pub checked_live : Env → List Item → List Text → State → Run (Observations × State)
  unfolding read_all current_of is_covering
  checked_live env selected supplied expected = do
    require (is_covering selected supplied)
    observations ← read_all env supplied
    current ← lift (current_of selected expected observations)
    ok (observations, current)

-- What the caller concludes, and what it is bound to.
pub record Binding : Type 0 where
  pub target : Value
  pub candidate_sha256 : Value
  pub execution_id : Value
  pub conclusion : Fields

conclusion_keys : List Text
conclusion_keys =
    codes "target"
    ∷ codes "candidate_sha256"
    ∷ codes "execution_id"
    ∷ codes "checked_no_pending"
    ∷ codes "serialized"
    ∷ []

only_keys : List Text → Fields → Bool
unfolding is_in
only_keys allowed end = true
only_keys allowed (field k v rest) = is_in k allowed && only_keys allowed rest

unfoldable pub is_bound : Binding → Bool
unfolding conclusion_keys only_keys has_key get equal
is_bound b =
    all (λ k. has_key k b.conclusion) conclusion_keys
    && (only_keys conclusion_keys b.conclusion
        && (equal (get (codes "target") b.conclusion) b.target
            && (equal (get (codes "candidate_sha256") b.conclusion) b.candidate_sha256
                && (equal (get (codes "execution_id") b.conclusion) b.execution_id
                    && (is_true (get (codes "checked_no_pending") b.conclusion)
                        && is_true (get (codes "serialized") b.conclusion))))))

-- The status of the automated observation is neither a conflict nor anything else than these.
unfoldable pub is_clear : Value → Bool
unfolding text_eq
is_clear status = is_text (codes "clear") status || is_text (codes "unknown") status

unfoldable pub activation_admission : Env → Binding → Run (Unit {0})
unfolding is_clear is_bound
activation_admission env binding = λ s. (
  log (asked (env.pending_changes s.trace)) s,
  if is_clear (env.pending_changes s.trace) && is_bound binding then some tt else none,
)
