-- ===== src/Membership.antt =====
-- src/iaas/opnsense_workflow/group_checks.py: a saved interface group against the groups that the
-- kernel reports of the interfaces. A sequence is a list, as in decoded JSON.
pub mod Check
pub mod Mapping
mod Examples
use iaas.Prelude.{
  ℕ, zero, suc, Bool, true, false, not, ◌&&◌, ◌||◌, Option, none, some, List, [], ◌∷◌, ◌++◌, Text,
  codes, text_eq, leb, ltb, ◌==◌, if◌then◌else◌, any, all, map, length, is_in, sorted_set,
}
use iaas.Prelude.Int.{pos}
use iaas.Value.{
  Value, Fields, end, field, dict, list, str, int, get, has_key, to_list, full_text, all_full,
  items,
}
use iaas.Pf.Words.{strip}

pub data Status : Type 0 where
  verified : Status
  failed : Status
  unknown : Status
  not_applicable : Status
  incomplete : Status
  unsupported : Status

pub data Reason : Type 0 where
  malformed_desired_group : Reason
  group_name_unavailable : Reason
  malformed_group_members : Reason
  duplicate_group_members : Reason
  malformed_interface_overview : Reason
  incomplete_interface_overview : Reason
  malformed_interface_overview_row : Reason
  malformed_interface_identifier : Reason
  malformed_interface_device : Reason
  ambiguous_logical_interface_mapping : Reason
  ambiguous_physical_interface_mapping : Reason
  malformed_interface_diagnostics : Reason
  malformed_interface_diagnostics_row : Reason
  interface_groups_unavailable : Reason
  malformed_interface_groups : Reason
  duplicate_interface_groups : Reason
  logical_interface_unmapped : Reason
  diagnostic_interface_missing : Reason
  current_group_membership_mismatch : Reason
  current_group_membership_matches : Reason
  malformed_consumer_observation : Reason
  consumer_observation_unavailable : Reason
  observed : Value → Reason  -- the reason of the consumer's observation

-- A value, or the reason why there is none.
pub data Checked {ℓ} (A : Type ℓ) : Type ℓ where
  ok : A → Checked A
  bad : Reason → Checked A

-- A dict with text keys and values.
abbrev pub Dict : Type 0 → Type 0
Dict A = List (Text × A)

unfoldable pub lookup : {A : Type 0} → Text → Dict A → Option A
unfolding text_eq
lookup key [] = none
lookup key ((k, v) ∷ rest) = let later = lookup key rest in if text_eq k key then some v else later

-- `dict[key] = value`
unfoldable pub put : {A : Type 0} → Text → A → Dict A → Dict A
unfolding text_eq
put key value [] = (key, value) ∷ []
put key value ((k, v) ∷ rest) =
    let later = put key value rest in if text_eq k key then (k, value) ∷ rest else (k, v) ∷ later

-- `len(set(values)) == len(values)`
unfoldable pub are_distinct : List Text → Bool
unfolding is_in text_eq
are_distinct [] = true
are_distinct (t ∷ ts) = not (is_in t ts) && are_distinct ts

-- `_text`
unfoldable pub text_of : Value → Option Text
unfolding strip
text_of (str s) = full_text (str (strip s))
text_of _ = none

-- The rows and whether they are all.
abbrev pub Rows : Type 0
Rows = List Value × Bool

abbrev natural : Value → Option ℕ
natural (int (pos n)) = some n
natural _ = none

counted_rows : List Value → Option ℕ → Option ℕ → Option ℕ → Checked Rows
counted_rows rows (some current) (some row_count) (some total) =
    if ltb current 1 || (ltb row_count (length rows) || ltb total (length rows))
    then bad malformed_interface_overview
    else ok (rows, total == length rows)
counted_rows rows _ _ _ = bad malformed_interface_overview

paged_rows : Fields → Value → Checked Rows
unfolding counted_rows get
paged_rows page (list rows) =
    counted_rows (to_list rows) (natural (get (codes "current") page))
      (natural (get (codes "rowCount") page)) (natural (get (codes "total") page))
paged_rows page _ = bad malformed_interface_overview

unfoldable pub rows_of : Value → Checked Rows
unfolding paged_rows get
rows_of (list rows) = ok (to_list rows, true)
rows_of (dict page) = paged_rows page (get (codes "rows") page)
rows_of _ = bad malformed_interface_overview

-- `mapping` and `physical_to_logical`
pub record Maps : Type 0 where
  pub mapping : Dict Text
  pub physical_to_logical : Dict Text

is_other : Text → Option Text → Bool
unfolding text_eq
is_other logical none = false
is_other logical (some other) = not (text_eq other logical)

is_mapped : Text → Dict Text → Bool
unfolding lookup
is_mapped logical mapping = elim (lookup logical mapping) [ none ↦ false | some p ↦ true ]

map_device : Maps → Text → Text → Checked Maps
unfolding is_mapped is_other lookup put
map_device maps [] physical = ok maps
map_device maps (c ∷ logical) physical =
    if is_mapped (c ∷ logical) maps.mapping
    then bad ambiguous_logical_interface_mapping
    else if is_other (c ∷ logical) (lookup physical maps.physical_to_logical)
    then bad ambiguous_physical_interface_mapping
    else ok (record {
      mapping = put (c ∷ logical) physical maps.mapping;
      physical_to_logical = put physical (c ∷ logical) maps.physical_to_logical;
    })

named_row : Maps → Value → Option Text → Checked Maps
unfolding map_device
named_row maps (str logical) none = bad malformed_interface_device
named_row maps (str logical) (some physical) = map_device maps logical physical
named_row maps _ physical = bad malformed_interface_identifier

map_row : Maps → Value → Checked Maps
unfolding named_row text_of get
map_row maps (dict row) =
    named_row maps (get (codes "identifier") row) (text_of (get (codes "device") row))
map_row maps _ = bad malformed_interface_overview_row

map_rows : Checked Maps → List Value → Checked Maps
unfolding map_row
map_rows (bad reason) rows = bad reason
map_rows (ok maps) [] = ok maps
map_rows (ok maps) (row ∷ rows) = map_rows (map_row maps row) rows

complete_mapping : Checked Rows → Checked (Dict Text)
unfolding map_rows
complete_mapping (bad reason) = bad reason
complete_mapping (ok (rows, false)) = bad incomplete_interface_overview
complete_mapping (ok (rows, true)) =
    elim (map_rows (ok (record { mapping = []; physical_to_logical = [] })) rows) [
      | bad reason ↦ bad reason
      | ok maps ↦ ok maps.mapping
    ]

unfoldable pub overview_mapping : Value → Checked (Dict Text)
unfolding complete_mapping rows_of
overview_mapping overview = complete_mapping (rows_of overview)

distinct_groups : Option (List Text) → Checked (List Text)
unfolding are_distinct
distinct_groups none = bad malformed_interface_groups
distinct_groups (some groups) =
    if are_distinct groups then ok groups else bad duplicate_interface_groups

row_groups : Value → Checked (List Text)
unfolding distinct_groups all_full
row_groups (list groups) = distinct_groups (all_full (to_list groups))
row_groups _ = bad interface_groups_unavailable

device_row : Option Text → Value → Checked (Text × List Text)
unfolding row_groups get
device_row (some device) (dict details) = elim (row_groups (get (codes "groups") details)) [
  | bad reason ↦ bad reason
  | ok groups ↦ ok (device, groups)
]
device_row _ _ = bad malformed_interface_diagnostics_row

put_row : Dict (List Text) → Checked (Text × List Text) → Checked (Dict (List Text))
unfolding put
put_row result (bad reason) = bad reason
put_row result (ok (device, groups)) = ok (put device groups result)

device_rows : Checked (Dict (List Text)) → Fields → Checked (Dict (List Text))
unfolding put_row device_row text_of
device_rows (bad reason) rows = bad reason
device_rows (ok result) end = ok result
device_rows (ok result) (field device details rows) =
    device_rows (put_row result (device_row (text_of (str device)) details)) rows

unfoldable pub ifconfig_rows : Value → Checked (Dict (List Text))
unfolding device_rows
ifconfig_rows (dict (field k v rows)) = device_rows (ok []) (field k v rows)
ifconfig_rows _ = bad malformed_interface_diagnostics
