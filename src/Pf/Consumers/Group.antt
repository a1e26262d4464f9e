-- ===== src/Pf/Consumers/Group.antt =====
-- `check_interface_group_active` of src/iaas/opnsense_workflow/pf_consumers.py. A set of texts is
-- the list of its elements.
pub mod Soundness
use iaas.Prelude.{
  ℕ, Bool, true, false, not, ◌&&◌, ◌||◌, Option, none, some, List, [], ◌∷◌, ◌++◌, Text, codes,
  text_eq, if◌then◌else◌, any, all, map, is_in,
}
use iaas.Value.{Value, Fields, dict, list, get, to_list, is_text, full_text, all_full}
use iaas.Pf.Report.{
  Checked, ok, bad, Status, incomplete, failed, unknown, unsupported, verified, not_applicable,
  Reason, Report, result, result_for, result_with, malformed_interface_group_configuration,
  malformed_interface_group_members, incomplete_consumer_configuration,
  malformed_consumer_configuration, unsupported_nat_consumer_identity,
  complete_consumer_configuration_empty, consumer_native_uuid_not_loaded,
  loaded_interface_group_scope_unresolved, loaded_interface_group_members_mismatch,
  loaded_interface_group_matches,
}
use iaas.Pf.Rule.{Rule}
use iaas.Pf.Snapshot.{parse_loaded_pf_rules}
use iaas.Pf.Alias.{is_nat}
use iaas.Pf.Consumers.{
  as_strings, enabled_state, is_resource, Consumer, related_consumers, active_rules,
}

pub record Contract : Type 0 where
  pub name : Text
  pub members : List Text

-- `dict.fromkeys(members)`
distinct : List Text → List Text → List Text
unfolding is_in text_eq
distinct seen [] = []
distinct seen (t ∷ ts) =
    let rest = distinct (t ∷ seen) ts in if is_in t seen then rest else t ∷ rest

with_members : Text → Option (List Text) → Checked Contract
unfolding distinct
with_members name none = bad malformed_interface_group_members
with_members name (some members) = ok (record { name = name; members = distinct [] members })

named_contract : Option Text → Value → Checked Contract
unfolding with_members all_full
named_contract (some name) (list vs) = with_members name (all_full (to_list vs))
named_contract _ _ = bad malformed_interface_group_configuration

unfoldable pub group_contract : Fields → Checked Contract
unfolding named_contract get
group_contract group =
    named_contract (full_text (get (codes "name") group)) (get (codes "members") group)

-- `name in _as_strings(row.get("interface"))`
unfoldable pub on_group : Text → Fields → Bool
unfolding is_in text_eq as_strings get
on_group name row = is_in name (as_strings (get (codes "interface") row))

nat_use : Text → Fields → Checked Bool → Option (Status × Reason)
unfolding is_nat on_group
nat_use name row (bad reason) = some (incomplete, reason)
nat_use name row (ok false) = none
nat_use name row (ok true) =
    if is_nat row && on_group name row
    then some (unsupported, unsupported_nat_consumer_identity)
    else none

-- The first loop, up to the row that it returns at.
row_stop : Text → Value → Option (Status × Reason)
unfolding nat_use enabled_state
row_stop name (dict row) = nat_use name row (enabled_state row)
row_stop name _ = some (incomplete, malformed_consumer_configuration)

first_stop : Text → List Value → Option (Status × Reason)
unfolding row_stop
first_stop name [] = none
first_stop name (v ∷ vs) =
    let later = first_stop name vs in elim (row_stop name v) [ some r ↦ some r | none ↦ later ]

-- The predicate of a consumer of the group.
unfoldable pub is_grouped : Text → Fields → Bool
unfolding is_resource is_nat on_group
is_grouped name row = (is_resource (codes "filter-rules") row || is_nat row) && on_group name row

-- `loaded_on`, `none` if a rule has no interface.
unfoldable pub interfaces : List Rule → Option (List Text)
interfaces [] = some []
interfaces (rule ∷ rules) =
    let rest = interfaces rules in
    elim rule.on [ none ↦ none | some on ↦ elim rest [ none ↦ none | some ons ↦ some (on ∷ ons) ] ]

pub record Match : Type 0 where
  pub uuid : Text
  pub pf_index : Option ℕ
  pub on : Option Text

match_of : Rule → Match
match_of rule = record { uuid = rule.uuid; pf_index = rule.pf_index; on = rule.on }

pub data Verdict : Type 0 where
  not_loaded : Verdict
  unresolved : Verdict
  mismatch : Verdict
  matching : List Rule → Verdict

judged : Contract → List Rule → Option (List Text) → Verdict
unfolding is_in text_eq
judged contract rules none = unresolved
judged contract rules (some on) =
    if not (all (λ t. is_in t (contract.name ∷ contract.members)) on)
    then unresolved
    else if not (is_in contract.name on) && not (all (λ t. is_in t on) contract.members)
    then mismatch
    else matching rules

unfoldable pub verdict : Contract → List Rule → Verdict
unfolding judged interfaces
verdict contract [] = not_loaded
verdict contract (rule ∷ rules) = judged contract (rule ∷ rules) (interfaces (rule ∷ rules))

-- `return`, or the next consumer.
unfoldable pub after : Verdict → Text → (List Rule → Report Match) → Report Match
unfolding result_for
after not_loaded uuid next = result_for failed consumer_native_uuid_not_loaded uuid none
after unresolved uuid next = result_for unknown loaded_interface_group_scope_unresolved uuid none
after mismatch uuid next = result_for failed loaded_interface_group_members_mismatch uuid none
after (matching rules) uuid next = next rules

unfoldable pub check_consumers : Contract → List Rule → List Match → List Consumer → Report Match
unfolding after verdict active_rules result_with match_of
check_consumers contract loaded matches [] =
    result_with verified loaded_interface_group_matches matches
check_consumers contract loaded matches (c ∷ cs) =
    after (verdict contract (active_rules c.uuid loaded)) c.uuid
      (λ rules. check_consumers contract loaded (matches ++ map match_of rules) cs)

check_loaded : Contract → List Consumer → Checked (List Rule) → Report Match
unfolding check_consumers result
check_loaded contract related (bad reason) = result incomplete reason
check_loaded contract related (ok loaded) = check_consumers contract loaded [] related

check_related : (ℕ → Bool) → Contract → Value → Checked (List Consumer) → Report Match
unfolding check_loaded parse_loaded_pf_rules is_resource result
check_related wide contract snapshot (bad reason) = result incomplete reason
check_related wide contract snapshot (ok []) =
    result not_applicable complete_consumer_configuration_empty
check_related wide contract snapshot (ok (c ∷ cs)) =
    if any (λ k. not (is_resource (codes "filter-rules") k.row)) (c ∷ cs)
    then result unsupported unsupported_nat_consumer_identity
    else check_loaded contract (c ∷ cs) (parse_loaded_pf_rules wide snapshot)

check_stopped : (ℕ → Bool) → Contract → Value → Value → Option (Status × Reason) → Report Match
unfolding check_related related_consumers is_grouped result
check_stopped wide contract snapshot consumers (some (status, reason)) = result status reason
check_stopped wide contract snapshot consumers none =
    check_related wide contract snapshot (related_consumers (is_grouped contract.name) consumers)

check_contract : (ℕ → Bool) → Value → Value → Checked Contract → Report Match
unfolding check_stopped first_stop result
check_contract wide snapshot consumers (bad reason) = result incomplete reason
check_contract wide snapshot (list vs) (ok contract) =
    check_stopped wide contract snapshot (list vs) (first_stop contract.name (to_list vs))
check_contract wide snapshot _ (ok contract) = result incomplete incomplete_consumer_configuration

unfoldable pub check_interface_group_active : (ℕ → Bool) → Fields → Value → Value → Report Match
unfolding check_contract group_contract
check_interface_group_active wide group snapshot consumers =
    check_contract wide snapshot consumers (group_contract group)
