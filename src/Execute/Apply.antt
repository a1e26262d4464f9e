-- ===== src/Execute/Apply.antt =====
-- `verify`, `recovery_document`, `readback` and `apply` of
-- src/iaas/opnsense_workflow/executor.py. `is_declarable` is whether `validate_document` takes the record
-- as a declaration, and `is_declared` whether `selected_records` takes the documents of the candidate
-- again.
pub mod Answers
pub mod Stages
use iaas.Prelude.{
  Bool, true, false, not, ◌&&◌, ◌||◌, Option, none, some, List, [], ◌∷◌, ◌++◌, Text, codes, text_eq,
  if◌then◌else◌, all, any, is_in, map, sorted_set,
}
use iaas.Value.{
  Value, Values, Fields, null, str, list, dict, nil, cons, end, field, get, has_key, is_text,
  to_list,
}
use iaas.Admission.{validate_classification, require_independent}
use iaas.Staging.{
  Marker, Item, key, State, find, is_marked, Stage, overlay, Mode, save, activation_recovery,
}
use iaas.Dependency.{configuration}
use iaas.Dependency.Check.{valid_state}
use iaas.Confirm.{Bound, Content, Disposition}
use iaas.Confirm.Recheck.{recheck, RecheckError}
use iaas.Candidate.{Observations}
use iaas.Candidate.Changes.{Candidate, Row, change_row, observation_at, interfaces_from, is_absent}
use iaas.Execute.{
  Env, Event, read, saved_result, saved_recovery, not_saved, written, activated, Machine, Run,
  ◌>>=◌, ◌>>◌, ok, require, lift, log, then_run, Entry, entry_key, AfterStatus, Outcome,
  ResultStatus, running, checked, fully_verified, Check, all_verified, check_item, matches_in,
  is_read, first_configuration,
}
use iaas.Execute.Live.{Binding, checked_live, activation_admission, read_all}

-- A candidate as `apply` takes it.
pub record Reviewed : Type 0 where
  pub candidate : Candidate
  pub selected : List Item
  pub coverage : List Text
  pub is_declared : Bool
  pub binding : Binding

resources_of : List Item → List Text
unfolding sorted_set
resources_of items = sorted_set (map (λ item. item.resource) items)

-- `[item for item in selected if key(...) in markers]`
unfoldable pub chosen : List Marker → List Item → List Item
unfolding is_marked
chosen markers [] = []
chosen markers (item ∷ items) =
    let rest = chosen markers items in if is_marked (key item) markers then item ∷ rest else rest

unfoldable pub stage_markers : Bound → List Marker
stage_markers b = map (λ identity. b.stage.resource ∷ identity) b.stage.identities

-- What one read says of an entry.
classified_after : Entry → Fields → Fields → Option Fields → Entry
classified_after e obj config none = record e {
  after_status = AfterStatus.unknown;
  after = none;
  after_classification = null;
}
classified_after e obj config (some classification) = record e {
  after_status = AfterStatus.confirmed;
  after = some config;
  after_classification = dict classification;
}

unknown_after : Entry → Entry
unknown_after e = record e {
  after_status = AfterStatus.unknown;
  after = none;
  after_classification = null;
}

configured_after : Entry → Fields → Option Fields → Entry
unfolding classified_after unknown_after validate_classification get
configured_after e obj none = unknown_after e
configured_after e obj (some config) =
    classified_after e obj config (validate_classification (get (codes "classification") obj))

matched_after : Entry → List Value → Entry
unfolding configured_after unknown_after configuration
matched_after e [] = record e {
  after_status = AfterStatus.confirmed;
  after = none;
  after_classification = null;
}
matched_after e (dict obj ∷ []) = configured_after e obj (configuration obj)
matched_after e _ = unknown_after e

-- `none` is an exception.
read_entry : Observations → Entry → Option Entry
unfolding matched_after matches_in is_read observation_at unknown_after
read_entry observations e =
    let observation = observation_at observations e.resource in
    elim (matches_in observation e.identity) [
      | none ↦ none
      | some found ↦ some (if is_read observation then matched_after e found else unknown_after e)
    ]

-- An exception leaves the entries before updated, and the others as they were.
read_entries : Observations → List Entry → List Entry × Bool
unfolding read_entry
read_entries observations [] = ([], true)
read_entries observations (e ∷ es) =
    let later = read_entries observations es in
    elim (read_entry observations e) [
      | none ↦ (e ∷ es, false)
      | some after ↦ (after ∷ later.0, later.1)
    ]

or_empty : Option Observations → Observations
or_empty none = []
or_empty (some observations) = observations

abbrev or_no_entries : Option (List Entry) → List Entry
or_no_entries none = []
or_no_entries (some entries) = entries

pub read_back : Option Observations → Option (List Entry) → Option (List Entry) × Bool
unfolding read_entries or_empty
read_back observations none = (none, true)
read_back observations (some entries) =
    let found = read_entries (or_empty observations) entries in (some found.0, found.1)

-- The entries of a stage before its write.
unfoldable pub invalidated : List Marker → List Entry → List Entry
unfolding is_marked
invalidated markers [] = []
invalidated markers (e ∷ es) =
    let rest = invalidated markers es in
    (if is_marked (entry_key e) markers
      then record e {
        attempted = true;
        after_status = AfterStatus.unknown;
        after = none;
        after_classification = null;
      }
      else e)
    ∷ rest

abbrev saved_as : Event → Bool → Machine → Machine × Option (Unit {0})
saved_as event true s = (log event s, some tt)
saved_as event false s = (log not_saved s, none)

abbrev save_file : Env → Event → Run (Unit {0})
save_file env event = λ s. saved_as event (env.is_saved s.trace) s

-- The last outcome, that is the one of the stage.
last_outcome : (Outcome → Outcome) → List Outcome → List Outcome
last_outcome f [] = []
last_outcome f (o ∷ []) = f o ∷ []
last_outcome f (o ∷ p ∷ os) = o ∷ last_outcome f (p ∷ os)

unfoldable pub update_outcome : (Outcome → Outcome) → Run (Unit {0})
unfolding last_outcome
update_outcome f = λ s. (record s { outcomes = last_outcome f s.outcomes }, some tt)

unfoldable pub save_recovery : Env → Run (Unit {0})
save_recovery env = λ s. save_file env (saved_recovery (or_no_entries s.recovery) s.outcomes) s

unfoldable pub save_result : Env → ResultStatus → Run (Unit {0})
save_result env status = λ s. save_file env (saved_result status s.outcomes) s

-- `readback`: an exception of the reader leaves no observations; malformed objects raise.
unfoldable pub readback : Env → Run (Unit {0})
unfolding read_back
readback env = λ s.
    let resources = sorted_set (map (λ e. e.resource) (or_no_entries s.recovery)) in
    let answer = env.read s.trace resources in
    let found = read_back answer s.recovery in
    (
      record s { trace = read resources answer ∷ s.trace; recovery = found.0 },
      if found.1 then some tt else none,
    )

-- The recovery entry of a record that a stage writes.
recovery_kind : (Text → Fields → Bool) → Item → Fields → Value
unfolding get has_key configuration text_eq
recovery_kind is_declarable item obj =
    if has_key (codes "recovery") obj
    then if is_text (codes "expressible") (get (codes "recovery") obj)
      then if declarable (configuration obj)
        then str (codes "expressible")
        else str (codes "manual_required")
      else get (codes "recovery") obj
    else str (codes "manual_required")
  where
    declarable : Option Fields → Bool
    declarable none = false
    declarable (some row) = is_declarable item.resource row

new_entry : Item → Option Fields → Bool → Value → Value → Entry
new_entry item before absent classification kind = record {
  resource = item.resource;
  identity = item.identity;
  before = before;
  before_absent = absent;
  before_classification = classification;
  recovery = kind;
  desired = item.desired;
  attempted = false;
  after_status = AfterStatus.unknown;
  after = none;
  after_classification = null;
}

entry_of : (Text → Fields → Bool) → Item → Option Fields → Option Entry
unfolding new_entry recovery_kind require_independent configuration get
entry_of is_declarable item none = some (new_entry item none true null (str (codes "expressible")))
entry_of is_declarable item (some obj) =
    if require_independent obj
    then some (
        new_entry item (configuration obj) false (get (codes "classification") obj)
          (recovery_kind is_declarable item obj))
    else none

entries_of : (Text → Fields → Bool) → List Item → State → Option (List Entry)
unfolding entry_of find
entries_of is_declarable [] current = some []
entries_of is_declarable (item ∷ items) current =
    let rest = entries_of is_declarable items current in
    elim (entry_of is_declarable item (find (key item) current)) [
      | none ↦ none
      | some e ↦ elim rest [ none ↦ none | some es ↦ some (e ∷ es) ]
    ]

pub all_markers : List Bound → List Marker
unfolding stage_markers
all_markers [] = []
all_markers (b ∷ bs) = stage_markers b ++ all_markers bs

-- The entries of `recovery_document`, for the records that the stages write.
unfoldable pub recovery_document :
    (Text → Fields → Bool) → List Item → List Bound → State → Option (List Entry)
unfolding entries_of all_markers chosen
recovery_document is_declarable selected stages current =
    entries_of is_declarable (chosen (all_markers stages) selected) current
