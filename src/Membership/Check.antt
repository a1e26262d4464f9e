-- ===== src/Membership/Check.antt =====
-- `check_interface_group_current` of src/iaas/opnsense_workflow/group_checks.py, with the folding of
-- a consumer's observation.
pub mod Exact
use iaas.Prelude.{
  Bool, true, false, not, ◌&&◌, ◌||◌, Option, none, some, List, [], ◌∷◌, ◌++◌, Text, codes, text_eq,
  if◌then◌else◌, any, all, map, is_in, sorted_set,
}
use iaas.Value.{Value, Fields, end, dict, list, str, get, has_key, to_list, all_full}
use iaas.Membership.{
  Status, verified, failed, unknown, not_applicable, incomplete, unsupported, Reason,
  malformed_desired_group, group_name_unavailable, malformed_group_members, duplicate_group_members,
  logical_interface_unmapped, diagnostic_interface_missing, current_group_membership_mismatch,
  current_group_membership_matches, malformed_consumer_observation,
  consumer_observation_unavailable, observed, Checked, ok, bad, Dict, lookup, are_distinct, text_of,
  overview_mapping, ifconfig_rows,
}

pub record Expected : Type 0 where
  pub group : Text
  pub logical_members : List Text
  pub physical_members : Option (List Text)

pub data Evidence : Type 0 where
  nothing : Evidence
  logical_to_physical : Dict Text → Evidence
  missing_devices : List Text → Evidence
  membership : List Text → Dict (List Text) → Evidence

-- The `consumer` entry.
pub data Consumer : Type 0 where
  filter_consumption_unobserved : Consumer
  malformed : Consumer
  given : Fields → Consumer

-- `scope` and `completion` are the same in all results.
pub record Result : Type 0 where
  pub status : Status
  pub reason : Reason
  pub consumer : Consumer
  pub expected : Option Expected
  pub observed : Evidence
  pub current_status : Option Status

unfoldable pub result : Status → Reason → Option Expected → Evidence → Result
result status reason expected evidence = record {
  status = status;
  reason = reason;
  consumer = filter_consumption_unobserved;
  expected = expected;
  observed = evidence;
  current_status = none;
}

abbrev undecided : Reason → Result
unfolding result
undecided reason = result unknown reason none nothing

abbrev status_of_text : Text → Option Status
unfolding text_eq
status_of_text s =
    if text_eq s (codes "verified")
    then some verified
    else if text_eq s (codes "not_applicable")
    then some not_applicable
    else if text_eq s (codes "failed")
    then some failed
    else if text_eq s (codes "unknown")
    then some unknown
    else if text_eq s (codes "incomplete")
    then some incomplete
    else if text_eq s (codes "unsupported")
    then some unsupported
    else none

-- A list or a dict, which cannot be hashed, raises in the source; it is malformed here, as the others.
unfoldable pub consumer_status : Value → Option Status
unfolding text_eq
consumer_status (str s) = status_of_text s
consumer_status _ = none

is_verified : Status → Bool
is_verified verified = true
is_verified _ = false

-- A verified membership gets the status of the consumer.
worsen : Status → Reason → Result → Result
unfolding is_verified
worsen status reason r =
    if is_verified r.status then record r { status = status; reason = reason } else r

malformed_consumer : Result → Result
unfolding worsen
malformed_consumer r =
    worsen unknown malformed_consumer_observation (record r { consumer = malformed })

-- `observation.get("reason", "consumer_observation_unavailable")`
consumer_reason : Fields → Reason
unfolding get has_key
consumer_reason observation =
    if has_key (codes "reason") observation
    then observed (get (codes "reason") observation)
    else consumer_observation_unavailable

fold_status : Result → Fields → Option Status → Result
unfolding malformed_consumer worsen consumer_reason
fold_status r observation none = malformed_consumer r
fold_status r observation (some verified) = record r { consumer = given observation }
fold_status r observation (some not_applicable) = record r { consumer = given observation }
fold_status r observation (some status) =
    worsen status (consumer_reason observation) (record r { consumer = given observation })

fold_observation : Result → Option Value → Result
unfolding fold_status malformed_consumer consumer_status get
fold_observation r none = r
fold_observation r (some (dict observation)) =
    fold_status r observation (consumer_status (get (codes "status") observation))
fold_observation r (some _) = malformed_consumer r

unfoldable pub with_consumer : Result → Option Value → Result
unfolding fold_observation
with_consumer r observation =
    fold_observation (record r { current_status = some r.status }) observation

-- The devices of the logical members, or the members before the first that is not mapped.
unfoldable pub physical_members : Dict Text → List Text → Option (List Text)
unfolding lookup
physical_members mapping [] = some []
physical_members mapping (t ∷ ts) =
    let rest = physical_members mapping ts in
    elim (lookup t mapping) [
      | none ↦ none
      | some p ↦ elim rest [ none ↦ none | some ps ↦ some (p ∷ ps) ]
    ]

unfoldable pub without : List Text → List Text → List Text
unfolding is_in text_eq
without known [] = []
without known (t ∷ ts) = let rest = without known ts in if is_in t known then rest else t ∷ rest

-- The devices that have the group.
unfoldable pub devices_in : Text → Dict (List Text) → List Text
unfolding is_in text_eq
devices_in group [] = []
devices_in group ((device, groups) ∷ rows) =
    let rest = devices_in group rows in if is_in group groups then device ∷ rest else rest

-- Equal sets.
unfoldable pub same_set : List Text → List Text → Bool
unfolding is_in text_eq
same_set ss ts = all (λ t. is_in t ts) ss && all (λ t. is_in t ss) ts

compare : Text → List Text → List Text → Dict (List Text) → Option Value → Result
unfolding same_set devices_in with_consumer result sorted_set
compare group logical physical rows observation =
    let seen = devices_in group rows in
    let expected : Expected = record {
      group = group;
      logical_members = logical;
      physical_members = some (sorted_set physical);
    } in
    let evidence = membership (sorted_set seen) rows in
    if same_set seen physical
    then with_consumer (result verified current_group_membership_matches (some expected) evidence)
        observation
    else with_consumer (result failed current_group_membership_mismatch (some expected) evidence)
        observation

with_missing : Text → List Text → List Text → Dict (List Text) → Option Value → List Text → Result
unfolding compare result sorted_set
with_missing group logical physical rows observation [] =
    compare group logical physical rows observation
with_missing group logical physical rows observation (t ∷ ts) =
    result unknown diagnostic_interface_missing
      (some (record {
        group = group;
        logical_members = logical;
        physical_members = some (sorted_set physical);
      }))
      (missing_devices (sorted_set (t ∷ ts)))

with_rows :
    Text → List Text → Dict Text → List Text → Option Value → Checked (Dict (List Text)) → Result
unfolding with_missing without result
with_rows group logical mapping physical observation (bad reason) =
    result unknown reason
      (some (record { group = group; logical_members = logical; physical_members = some physical }))
      (logical_to_physical mapping)
with_rows group logical mapping physical observation (ok rows) =
    with_missing group logical physical rows observation (without (map (λ r. r.0) rows) physical)

with_physical : Text → List Text → Dict Text → Value → Option Value → Option (List Text) → Result
unfolding with_rows ifconfig_rows result
with_physical group logical mapping ifconfig observation none =
    result unknown logical_interface_unmapped
      (some (record { group = group; logical_members = logical; physical_members = none }))
      (logical_to_physical mapping)
with_physical group logical mapping ifconfig observation (some physical) =
    with_rows group logical mapping physical observation (ifconfig_rows ifconfig)

with_mapping : Text → List Text → Value → Option Value → Checked (Dict Text) → Result
unfolding with_physical physical_members result
with_mapping group logical ifconfig observation (bad reason) = undecided reason
with_mapping group logical ifconfig observation (ok mapping) =
    with_physical group logical mapping ifconfig observation (physical_members mapping logical)

with_members : Text → Value → Value → Option Value → Option (List Text) → Result
unfolding with_mapping overview_mapping are_distinct result
with_members group overview ifconfig observation (some (t ∷ ts)) =
    if are_distinct (t ∷ ts)
    then with_mapping group (t ∷ ts) ifconfig observation (overview_mapping overview)
    else undecided duplicate_group_members
with_members group overview ifconfig observation _ = undecided malformed_group_members

-- `_member_list`
unfoldable pub member_list : Value → Option (List Text)
unfolding all_full
member_list (list vs) = all_full (to_list vs)
member_list _ = none

with_name : Fields → Value → Value → Option Value → Option Text → Result
unfolding with_members member_list get result
with_name desired overview ifconfig observation none = undecided group_name_unavailable
with_name desired overview ifconfig observation (some group) =
    with_members group overview ifconfig observation (member_list (get (codes "members") desired))

unfoldable pub check_interface_group_current : Value → Value → Value → Option Value → Result
unfolding with_name text_of get result
check_interface_group_current (dict desired) overview ifconfig observation =
    with_name desired overview ifconfig observation (text_of (get (codes "name") desired))
check_interface_group_current _ overview ifconfig observation = undecided malformed_desired_group
