-- ===== src/Pf/Alias.antt =====
-- `check_port_alias_active` of src/iaas/opnsense_workflow/pf_rules.py: a port alias against the
-- loaded rules of the consumers that refer to it.
pub mod Check
use iaas.Prelude.{
  ℕ, Bool, true, false, not, ◌&&◌, ◌||◌, Option, none, some, List, [], ◌∷◌, ◌++◌, Text, codes,
  text_eq, ltb, ◌==◌, if◌then◌else◌, any, all, map, lower, is_in,
}
use iaas.Value.{
  Value, Values, Fields, end, field, dict, null, list, str, get, is_null, is_text, to_list,
  full_text, is_true, is_false, is_bad_flag,
}
use iaas.Pf.Ports.{Interval, port_token, merge_intervals, is_nil}
use iaas.Pf.Report.{
  Checked, ok, bad, Status, incomplete, failed, verified, not_applicable, Report, result,
  result_for, result_with, selected_alias_is_not_port, malformed_port_alias_name,
  malformed_port_alias_content, unsupported_port_alias_content, incomplete_consumer_configuration,
  malformed_consumer_configuration, malformed_consumer_enabled_state,
  consumer_native_uuid_unavailable, duplicate_consumer_native_uuid,
  malformed_consumer_port_configuration, unsupported_consumer_translated_port_role,
  unsupported_nat_consumer_identity, complete_consumer_configuration_empty,
  consumer_native_uuid_not_loaded, malformed_consumer_protocol, loaded_port_alias_protocol_mismatch,
  loaded_port_alias_rule_mismatch, loaded_port_alias_matches,
}
use iaas.Pf.Scan.{is_native_uuid, rule_label}
use iaas.Pf.Rule.{Rule, parse_rule}
use iaas.Pf.Words.{strip}
use iaas.Pf.Snapshot.{is_incomplete, snapshot_rules, add_rule}

-- `value if isinstance(value, list) else [value]`
abbrev pub as_list : Value → List Value
as_list (list vs) = to_list vs
as_list v = v ∷ []

-- The intervals of the content, before they are merged.
content_item : Value → Checked (List Interval)
unfolding port_token strip
content_item (str s) = elim (port_token (strip s)) [
  | none ↦ bad unsupported_port_alias_content
  | some parsed ↦ ok parsed
]
content_item _ = bad malformed_port_alias_content

extend : Checked (List Interval) → Checked (List Interval) → Checked (List Interval)
extend (bad reason) rest = bad reason
extend (ok parsed) (bad reason) = bad reason
extend (ok parsed) (ok intervals) = ok (parsed ++ intervals)

unfoldable pub content_intervals : List Value → Checked (List Interval)
unfolding extend content_item
content_intervals [] = ok []
content_intervals (v ∷ vs) = extend (content_item v) (content_intervals vs)

content_list : Value → Checked (List Interval)
unfolding content_intervals
content_list (list vs) =
    if is_none (to_list vs)
    then bad malformed_port_alias_content
    else content_intervals (to_list vs)
  where
    is_none : List Value → Bool
    is_none [] = true
    is_none (v ∷ vs) = false
content_list _ = bad malformed_port_alias_content

named_content : Option Text → Value → Checked (Text × List Interval)
unfolding content_list
named_content none content = bad malformed_port_alias_name
named_content (some name) content = elim (content_list content) [
  | bad reason ↦ bad reason
  | ok intervals ↦ ok (name, intervals)
]

-- `_alias_ports`, with the name of the alias. The intervals are merged by the caller.
unfoldable pub alias_intervals : Value → Checked (Text × List Interval)
unfolding named_content get text_eq
alias_intervals (dict alias) =
    if is_text (codes "port") (get (codes "type") alias)
    then named_content (full_text (get (codes "name") alias)) (get (codes "content") alias)
    else bad selected_alias_is_not_port
alias_intervals _ = bad selected_alias_is_not_port

unfoldable pub consumer_is_enabled : Fields → Checked Bool
unfolding get
consumer_is_enabled row =
    let disabled = get (codes "disabled") row in
    let enabled = get (codes "enabled") row in
    if is_bad_flag disabled || is_bad_flag enabled
    then bad malformed_consumer_enabled_state
    else ok (not (is_true disabled || is_false enabled))

pub data Role : Type 0 where
  source : Role
  destination : Role

-- The texts of a list, `none` if it has another value.
texts : List Value → Option (List Text)
texts [] = some []
texts (str s ∷ vs) = let rest = texts vs in elim rest [ none ↦ none | some ts ↦ some (s ∷ ts) ]
texts (v ∷ vs) = none

non_empty : List Text → List Text
non_empty [] = []
non_empty (t ∷ ts) = let rest = non_empty ts in if is_nil t then rest else t ∷ rest

-- `item.lstrip("$")`
strip_dollar : Text → Text
strip_dollar [] = []
strip_dollar (c ∷ s) = let rest = strip_dollar s in if c == b'$' then rest else c ∷ s

abbrev names : Text → List Text → Bool
unfolding strip_dollar text_eq is_in
names name values = is_in name values || any (λ v. text_eq name (strip_dollar v)) values

field_references : Text → Role → Value → Checked (List (Role × List Text))
unfolding texts non_empty strip_dollar text_eq is_in
field_references name role null = ok []
field_references name role v = elim (texts (as_list v)) [
  | none ↦ bad malformed_consumer_port_configuration
  | some values ↦ ok (if names name (non_empty values) then (role, non_empty values) ∷ [] else [])
]

-- Whether a translated port names the alias.
translates : Text → Value → Bool
unfolding strip_dollar text_eq
translates name v =
    any (λ item. elim item [ str s ↦ text_eq (strip_dollar s) name | _ ↦ false ]) (as_list v)

both_references :
    Checked (List (Role × List Text))
    → Checked (List (Role × List Text))
    → Bool
    → Checked (List (Role × List Text))
both_references (bad reason) _ translated = bad reason
both_references (ok sources) (bad reason) translated = bad reason
both_references (ok sources) (ok destinations) translated =
    if translated
    then bad unsupported_consumer_translated_port_role
    else ok (sources ++ destinations)

unfoldable pub consumer_references : Fields → Text → Checked (List (Role × List Text))
unfolding both_references field_references translates get
consumer_references row name =
    both_references (field_references name source (get (codes "source_port") row))
      (field_references name destination (get (codes "destination_port") row))
      (translates name (get (codes "local_port") row)
        || translates name (get (codes "target_port") row))

-- An entry of `related`.
pub record Related : Type 0 where
  pub row : Fields
  pub uuid : Text
  pub references : List (Role × List Text)

-- `resource in {"dnat", "one-to-one-nat"}`
unfoldable pub is_nat : Fields → Bool
unfolding get text_eq
is_nat row =
    let resource = get (codes "resource") row in
    is_text (codes "dnat") resource || is_text (codes "one-to-one-nat") resource
