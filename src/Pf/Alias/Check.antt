-- ===== src/Pf/Alias/Check.antt =====
-- `check_port_alias_active` of src/iaas/opnsense_workflow/pf_rules.py: the loops over the consumers,
-- the loaded rules and the related consumers.
pub mod Loaded
pub mod Soundness
use iaas.Prelude.{
  ℕ, Bool, true, false, not, ◌&&◌, ◌||◌, Option, none, some, List, [], ◌∷◌, ◌++◌, Text, codes,
  text_eq, ltb, ◌==◌, if◌then◌else◌, any, all, map, lower, is_in, sorted_set,
}
use iaas.Value.{Value, Fields, end, field, dict, null, list, str, get, to_list}
use iaas.Pf.Ports.{Interval, merge_intervals}
use iaas.Pf.Report.{
  Checked, ok, bad, Status, Reason, incomplete, failed, verified, not_applicable, Report, result,
  result_for, result_with, incomplete_consumer_configuration, malformed_consumer_configuration,
  consumer_native_uuid_unavailable, duplicate_consumer_native_uuid,
  unsupported_nat_consumer_identity, complete_consumer_configuration_empty,
  consumer_native_uuid_not_loaded, malformed_consumer_protocol, loaded_port_alias_protocol_mismatch,
  loaded_port_alias_rule_mismatch, loaded_port_alias_matches,
}
use iaas.Pf.Scan.{is_native_uuid, rule_label}
use iaas.Pf.Rule.{Rule, parse_rule}
use iaas.Pf.Snapshot.{is_incomplete, snapshot_rules, add_rule}
use iaas.Pf.Alias.{
  Role, source, destination, Related, as_list, texts, non_empty, alias_intervals,
  consumer_is_enabled, consumer_references, is_nat,
}

-- What the loop makes of one consumer: it goes on, it has seen a UUID, or it relates the consumer.
pub data Step : Type 0 where
  skip : Step
  seen : Text → Step
  relate : Related → Step

relation : Fields → Text → Checked (List (Role × List Text)) → Checked Step
unfolding is_nat
relation row uuid (bad reason) = bad reason
relation row uuid (ok []) = ok (seen uuid)
relation row uuid (ok (r ∷ rs)) =
    if is_nat row
    then bad unsupported_nat_consumer_identity
    else ok (relate (record { row = row; uuid = uuid; references = r ∷ rs }))

identified : Text → List Text → Fields → Value → Checked Step
unfolding relation consumer_references is_native_uuid lower is_in text_eq
identified name before row (str uuid) =
    if not (is_native_uuid uuid)
    then bad consumer_native_uuid_unavailable
    else if is_in (lower uuid) before
    then bad duplicate_consumer_native_uuid
    else relation row (lower uuid) (consumer_references row name)
identified name before row _ = bad consumer_native_uuid_unavailable

enabled_step : Text → List Text → Fields → Checked Bool → Checked Step
unfolding identified get
enabled_step name before row (bad reason) = bad reason
enabled_step name before row (ok false) = ok skip
enabled_step name before row (ok true) = identified name before row (get (codes "uuid") row)

unfoldable pub consumer_step : Text → List Text → Value → Checked Step
unfolding enabled_step consumer_is_enabled is_incomplete get
consumer_step name before (dict row) =
    if is_incomplete (get (codes "status") row)
    then bad incomplete_consumer_configuration
    else enabled_step name before row (consumer_is_enabled row)
consumer_step name before _ = bad malformed_consumer_configuration

push : Related → Checked (List Related) → Checked (List Related)
push item (bad reason) = bad reason
push item (ok items) = ok (item ∷ items)

-- `before` is `seen_uuid`.
unfoldable pub related_from : Text → List Text → List Value → Checked (List Related)
unfolding push consumer_step
related_from name before [] = ok []
related_from name before (v ∷ vs) = elim (consumer_step name before v) [
  | bad reason ↦ bad reason
  | ok skip ↦ related_from name before vs
  | ok (seen uuid) ↦ related_from name (uuid ∷ before) vs
  | ok (relate item) ↦ push item (related_from name (item.uuid ∷ before) vs)
]

unfoldable pub related_consumers : Text → Value → Checked (List Related)
unfolding related_from
related_consumers name (list vs) = related_from name [] (to_list vs)
related_consumers name _ = bad incomplete_consumer_configuration

-- A rule that is not parsed matters only if its label is a related consumer's.
loaded_rule :
    List Text → Text → Option Text → Checked Rule → Checked (List Rule) → Checked (List Rule)
unfolding add_rule text_eq is_in
loaded_rule uuids section label (ok rule) rest = add_rule section (ok rule) rest
loaded_rule uuids section none (bad reason) rest = rest
loaded_rule uuids section (some label) (bad reason) rest =
    if is_in label uuids then bad reason else rest

load_section : (ℕ → Bool) → List Text → Text → Fields → Checked (List Rule) → Checked (List Rule)
unfolding loaded_rule rule_label parse_rule
load_section wide uuids section end rest = rest
load_section wide uuids section (field raw counters rules) rest =
    loaded_rule uuids section (rule_label wide raw) (parse_rule wide raw counters)
      (load_section wide uuids section rules rest)

unfoldable pub load : (ℕ → Bool) → List Text → List (Text × Fields) → Checked (List Rule)
unfolding load_section
load wide uuids [] = ok []
load wide uuids ((section, rules) ∷ sections) =
    load_section wide uuids section rules (load wide uuids sections)

-- `loaded.get(uuid, [])`: the dict of lists is the list of all loaded rules.
unfoldable pub rules_of : Text → List Rule → List Rule
unfolding text_eq
rules_of uuid [] = []
rules_of uuid (rule ∷ rules) =
    let rest = rules_of uuid rules in if text_eq rule.uuid uuid then rule ∷ rest else rest

or_any : List Text → List Text
or_any [] = codes "any" ∷ []
or_any (t ∷ ts) = t ∷ ts

lowered : Option (List Text) → Option (List Text)
unfolding or_any sorted_set lower non_empty
lowered none = none
lowered (some values) = some (or_any (sorted_set (map lower (non_empty values))))

unfoldable pub configured_protocols : Value → Option (List Text)
unfolding lowered texts
configured_protocols null = some (codes "any" ∷ [])
configured_protocols v = lowered (texts (as_list v))

same_texts : List Text → List Text → Bool
unfolding text_eq
same_texts [] [] = true
same_texts (s ∷ ss) (t ∷ ts) = text_eq s t && same_texts ss ts
same_texts _ _ = false

-- `rule["protocol"] or ("any",)`
protocol_of : Option (List Text) → List Text
unfolding or_any
protocol_of none = codes "any" ∷ []
protocol_of (some values) = or_any values

with_protocol : List Text → List Rule → List Rule
unfolding same_texts protocol_of
with_protocol protocol [] = []
with_protocol protocol (rule ∷ rules) =
    let rest = with_protocol protocol rules in
    if same_texts (protocol_of rule.protocol) protocol then rule ∷ rest else rest

some_rules : List Rule → Checked (List Rule)
some_rules [] = bad loaded_port_alias_protocol_mismatch
some_rules (rule ∷ rules) = ok (rule ∷ rules)

protocol_rules : List Rule → Option (List Text) → Checked (List Rule)
unfolding some_rules with_protocol
protocol_rules active none = bad malformed_consumer_protocol
protocol_rules active (some protocol) = some_rules (with_protocol protocol active)

unfoldable pub matching_loaded_rules : List Rule → Fields → Checked (List Rule)
unfolding protocol_rules configured_protocols get
matching_loaded_rules active row =
    protocol_rules active (configured_protocols (get (codes "protocol") row))

unfoldable pub role_ports : Role → Rule → Option (List Interval)
role_ports source rule = rule.source_ports
role_ports destination rule = rule.destination_ports

-- `expanded`, `none` if a rule has no ports in the role.
unfoldable pub expanded : Role → List Rule → Option (List Interval)
unfolding role_ports
expanded role [] = some []
expanded role (rule ∷ rules) =
    let rest = expanded role rules in
    elim (role_ports role rule) [
      | none ↦ none
      | some ports ↦ elim rest [ none ↦ none | some intervals ↦ some (ports ++ intervals) ]
    ]

same_intervals : List Interval → List Interval → Bool
same_intervals [] [] = true
same_intervals ((a, b) ∷ xs) ((c, d) ∷ ys) = (a == c) && ((b == d) && same_intervals xs ys)
same_intervals _ _ = false

covered : List Interval → Option (List Interval) → Bool
unfolding same_intervals merge_intervals
covered expected none = false
covered expected (some intervals) = same_intervals (merge_intervals intervals) expected

role_matches : List Interval → List Rule → Role × List Text → Bool
unfolding covered expanded
role_matches expected rules (role, values) = covered expected (expanded role rules)

pub record Match : Type 0 where
  pub uuid : Text
  pub section : Text
  pub pf_index : Option ℕ
  pub protocol : Option (List Text)
  pub source_port : Option Text
  pub destination_port : Option Text

match_of : Text → Rule → Match
match_of uuid rule = record {
  uuid = uuid;
  section = rule.section;
  pf_index = rule.pf_index;
  protocol = rule.protocol;
  source_port = rule.source_port_raw;
  destination_port = rule.destination_port_raw;
}

-- The first failure of a related consumer with its reason and whether it comes with the matches,
-- or the rules that match.
pub data Verdict : Type 0 where
  fails : Reason → Bool → Verdict
  passes : List Rule → Verdict

roles_verdict : List Interval → List (Role × List Text) → Checked (List Rule) → Verdict
unfolding role_matches
roles_verdict expected references (bad reason) = fails reason true
roles_verdict expected references (ok rules) =
    if all (role_matches expected rules) references
    then passes rules
    else fails loaded_port_alias_rule_mismatch true

active_verdict : List Interval → Related → List Rule → Verdict
unfolding roles_verdict matching_loaded_rules
active_verdict expected item [] = fails consumer_native_uuid_not_loaded false
active_verdict expected item (rule ∷ rules) =
    roles_verdict expected item.references (matching_loaded_rules (rule ∷ rules) item.row)

unfoldable pub item_verdict : List Interval → List Rule → Related → Verdict
unfolding active_verdict rules_of
item_verdict expected loaded item = active_verdict expected item (rules_of item.uuid loaded)

-- `return`, or the next related consumer.
unfoldable pub after : Verdict → Text → List Match → (List Rule → Report Match) → Report Match
unfolding result_for
after (fails reason true) uuid matches next = result_for failed reason uuid (some matches)
after (fails reason false) uuid matches next = result_for failed reason uuid none
after (passes rules) uuid matches next = next rules

unfoldable pub check_items : List Interval → List Rule → List Match → List Related → Report Match
unfolding after item_verdict result_with match_of
check_items expected loaded matches [] = result_with verified loaded_port_alias_matches matches
check_items expected loaded matches (item ∷ items) =
    after (item_verdict expected loaded item) item.uuid matches
      (λ rules. check_items expected loaded (matches ++ map (match_of item.uuid) rules) items)

check_loaded : List Interval → List Related → Checked (List Rule) → Report Match
unfolding check_items result
check_loaded expected related (bad reason) = result incomplete reason
check_loaded expected related (ok loaded) = check_items expected loaded [] related

check_related :
    (ℕ → Bool) → List Interval → List (Text × Fields) → Checked (List Related) → Report Match
unfolding check_loaded load result
check_related wide expected sections (bad reason) = result incomplete reason
check_related wide expected sections (ok []) =
    result not_applicable complete_consumer_configuration_empty
check_related wide expected sections (ok (item ∷ items)) =
    check_loaded expected (item ∷ items) (load wide (map (λ r. r.uuid) (item ∷ items)) sections)

check_sections :
    (ℕ → Bool) → Text → List Interval → Value → Checked (List (Text × Fields)) → Report Match
unfolding check_related related_consumers result
check_sections wide name expected consumers (bad reason) = result incomplete reason
check_sections wide name expected consumers (ok sections) =
    check_related wide expected sections (related_consumers name consumers)

check_ports : (ℕ → Bool) → Value → Value → Checked (Text × List Interval) → Report Match
unfolding check_sections snapshot_rules merge_intervals result
check_ports wide snapshot consumers (bad reason) = result incomplete reason
check_ports wide snapshot consumers (ok (name, intervals)) =
    check_sections wide name (merge_intervals intervals) consumers (snapshot_rules snapshot)

unfoldable pub check_port_alias_active : (ℕ → Bool) → Value → Value → Value → Report Match
unfolding check_ports alias_intervals
check_port_alias_active wide alias snapshot consumers =
    check_ports wide snapshot consumers (alias_intervals alias)
