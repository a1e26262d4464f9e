-- ===== src/Execute.antt =====
-- src/iaas/opnsense_workflow/executor.py: the state of an execution, its effects, and the verification
-- and readback of the saved configuration. The reader, the writer and the files answer as functions of
-- everything that was done before; `none` is an exception. A digest of the candidate, the target and
-- the execution are values that are compared only.
pub mod Live
pub mod Apply
mod Examples
use iaas.Prelude.{
  ℕ, zero, suc, Bool, true, false, not, ◌&&◌, ◌||◌, Option, none, some, List, [], ◌∷◌, ◌++◌, Text,
  codes, text_eq, if◌then◌else◌, map, any, all, is_in, sorted_set, length, leb,
}
use iaas.Value.{
  Value, Values, Fields, null, str, list, dict, nil, cons, end, field, get, has_key, is_text,
  is_true, is_null, to_list,
}
use iaas.Admission.{validate_classification, require_independent}
use iaas.Staging.{
  Marker, Item, key, State, find, is_marked, same_marker, texts_value, Stage, overlay,
}
use iaas.Dependency.{configuration}
use iaas.Confirm.{Bound}
use iaas.Candidate.{Observations}
use iaas.Candidate.Changes.{equal, is_absent, observation_at, Candidate}

pub data AfterStatus : Type 0 where
  unknown : AfterStatus
  confirmed : AfterStatus

-- An entry of the recovery document.
pub record Entry : Type 0 where
  pub resource : Text
  pub identity : List Text
  pub before : Option Fields
  pub before_absent : Bool
  pub before_classification : Value
  pub recovery : Value
  pub desired : Fields
  pub attempted : Bool
  pub after_status : AfterStatus
  pub after : Option Fields
  pub after_classification : Value

abbrev pub entry_key : Entry → Marker
entry_key e = e.resource ∷ e.identity

-- The configuration of one record in a verification.
pub data Check : Type 0 where
  verified : Check
  failed : Check
  unclear : Check

-- What the result says of one stage; the evidence that is only reported is left out.
pub record Outcome : Type 0 where
  pub stage : Bound
  pub save : Value
  pub configuration : Check
  pub activation : Value
  pub content_update : List Text
  pub active : List Check

pub data ResultStatus : Type 0 where
  running : ResultStatus
  checked : ResultStatus
  fully_verified : ResultStatus
  failed : ResultStatus

-- What an execution does, with the answers.
pub data Event : Type 0 where
  read : List Text → Option Observations → Event
  asked : Value → Event
  saved_result : ResultStatus → List Outcome → Event
  saved_recovery : List Entry → List Outcome → Event
  not_saved : Event
  written : Text → List Item → Option Fields → Event
  activated : Text → List Item → Option Fields → Event

-- Everything that was done, the last event first.
abbrev pub Trace : Type 0
Trace = List Event

-- The reader, the writer and the files.
pub record Env : Type 0 where
  pub read : Trace → List Text → Option Observations
  pub pending_changes : Trace → Value
  pub is_saved : Trace → Bool
  pub save : Trace → Text → List Fields → Option Fields
  pub activate : Trace → Text → Option Fields

-- `recovery` and `result['stages']`; the stages of the recovery document are the same list.
pub record Machine : Type 0 where
  pub trace : Trace
  pub recovery : Option (List Entry)
  pub outcomes : List Outcome

abbrev pub Run {ℓ} : Type ℓ → Type ℓ
Run A = Machine → Machine × Option A

abbrev pub then_run {ℓ κ} :
    {A : Type ℓ} {B : Type κ} → (A → Run B) → Machine × Option A → Machine × Option B
then_run f (s, none) = (s, none)
then_run f (s, some a) = f a s

infixl 5 ◌>>=◌ ◌>>◌
unfoldable pub ◌>>=◌ {ℓ κ} : {A : Type ℓ} {B : Type κ} → Run A → (A → Run B) → Run B
m >>= f = λ s. then_run f (m s)

abbrev pub ◌>>◌ {ℓ κ} : {A : Type ℓ} {B : Type κ} → Run A → Run B → Run B
m >> k = m >>= λ a. k

unfoldable pub ok {ℓ} : {A : Type ℓ} → A → Run A
ok a = λ s. (s, some a)

-- `require`
unfoldable pub require : Bool → Run (Unit {0})
require true = λ s. (s, some tt)
require false = λ s. (s, none)

-- A value that may have raised.
unfoldable pub lift {ℓ} : {A : Type ℓ} → Option A → Run A
lift o = λ s. (s, o)

abbrev pub log : Event → Machine → Machine
log event s = record s { trace = event ∷ s.trace }

-- The objects of an observation with this identity; `none` is the exception of an object that is no
-- mapping or has no identity, or of objects that are no sequence.
has_identity : List Text → Value → Option Bool
unfolding equal get has_key texts_value
has_identity identity (dict obj) =
    if has_key (codes "identity") obj
    then some (equal (get (codes "identity") obj) (list (texts_value identity)))
    else none
has_identity identity _ = none

matching : List Text → List Value → Option (List Value)
unfolding has_identity
matching identity [] = some []
matching identity (v ∷ vs) =
    let later = matching identity vs in
    elim (has_identity identity v) [
      | none ↦ none
      | some b ↦ elim later [ none ↦ none | some found ↦ some (if b then v ∷ found else found) ]
    ]

-- A text or a mapping is read as one that holds objects only if it is empty.
values_in : Value → Option (List Value)
values_in (list vs) = some (to_list vs)
values_in (str []) = some []
values_in (dict end) = some []
values_in _ = none

objects_in : Fields → Option (List Value)
unfolding values_in get has_key
objects_in observation =
    if has_key (codes "objects") observation
    then values_in (get (codes "objects") observation)
    else some []

unfoldable pub matches_in : Fields → List Text → Option (List Value)
unfolding matching objects_in
matches_in observation identity = elim (objects_in observation) [
  | none ↦ none
  | some vs ↦ matching identity vs
]

-- A complete observation of the configuration.
unfoldable pub is_read : Fields → Bool
unfolding get text_eq
is_read observation =
    is_text (codes "configuration") (get (codes "observation_scope") observation)
    && is_text (codes "complete") (get (codes "status") observation)

abbrev first_configuration : Value → Option Fields
first_configuration (dict obj) = configuration obj
first_configuration _ = none

module _ (semantic : Text → Fields → Fields) where
  same_normal : Item → Option Fields → Check
  unfolding equal
  same_normal item none = unclear
  same_normal item (some actual) =
      if equal (dict (semantic item.resource actual)) (dict (semantic item.resource item.desired))
      then verified
      else failed

  compare_matches : Item → List Value → Check
  unfolding same_normal is_absent
  compare_matches item [] = if is_absent item then verified else failed
  compare_matches item (v ∷ []) =
      if is_absent item then failed else same_normal item (first_configuration v)
  compare_matches item (v ∷ w ∷ vs) = unclear

  -- The check of one record in a verification; `none` is an exception.
  check_item : Observations → Item → Option Check
  unfolding compare_matches matches_in is_read observation_at
  check_item observations item =
      let observation = observation_at observations item.resource in
      elim (matches_in observation item.identity) [
        | none ↦ none
        | some found ↦ some (if is_read observation then compare_matches item found else unclear)
      ]

  unfoldable pub check_items : Observations → List Item → Option (List Check)
  unfolding check_item
  check_items observations [] = some []
  check_items observations (item ∷ items) =
      let later = check_items observations items in
      elim (check_item observations item) [
        | none ↦ none
        | some c ↦ elim later [ none ↦ none | some cs ↦ some (c ∷ cs) ]
      ]

is_verified : Check → Bool
is_verified verified = true
is_verified _ = false

-- `all(row['configuration'] == 'verified' ...)` of a verification.
unfoldable pub all_verified : List Check → Bool
unfolding is_verified
all_verified checks = all is_verified checks

are_verified : Option (List Check) → Bool
unfolding all_verified
are_verified none = false
are_verified (some checks) = all_verified checks

-- Whether a read of the configuration shows all of these records as they are desired.
unfoldable pub shows : (Text → Fields → Fields) → List Item → Option Observations → Bool
unfolding check_items are_verified
shows semantic items none = false
shows semantic items (some observations) = are_verified (check_items semantic observations items)
