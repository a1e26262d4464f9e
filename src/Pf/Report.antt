-- ===== src/Pf/Report.antt =====
-- The results of the checks of src/iaas/opnsense_workflow/pf_rules.py and pf_consumers.py: their
-- statuses, the reasons that they give, and the fallible steps that end with a reason.
use iaas.Prelude.{Option, none, some, List, Text, codes}

pub data Status : Type 0 where
  verified : Status
  failed : Status
  unknown : Status
  incomplete : Status
  unsupported : Status
  not_applicable : Status

pub data Reason : Type 0 where
  selected_alias_is_not_port : Reason
  malformed_port_alias_name : Reason
  malformed_port_alias_content : Reason
  unsupported_port_alias_content : Reason
  malformed_pf_statistics_snapshot : Reason
  incomplete_pf_statistics_snapshot : Reason
  missing_pf_statistics_rules : Reason
  incomplete_pf_statistics_rules : Reason
  malformed_pf_statistics_rule : Reason
  incomplete_consumer_configuration : Reason
  malformed_consumer_configuration : Reason
  malformed_consumer_enabled_state : Reason
  consumer_native_uuid_unavailable : Reason
  duplicate_consumer_native_uuid : Reason
  malformed_consumer_port_configuration : Reason
  unsupported_consumer_translated_port_role : Reason
  unsupported_nat_consumer_identity : Reason
  complete_consumer_configuration_empty : Reason
  malformed_loaded_pf_rule : Reason
  loaded_pf_rule_uuid_unavailable : Reason
  unsupported_loaded_pf_rule_protocol : Reason
  malformed_loaded_pf_rule_endpoints : Reason
  unsupported_loaded_pf_rule_endpoint : Reason
  consumer_native_uuid_not_loaded : Reason
  malformed_consumer_protocol : Reason
  loaded_port_alias_protocol_mismatch : Reason
  loaded_port_alias_rule_mismatch : Reason
  loaded_port_alias_matches : Reason
  malformed_gateway_configuration : Reason
  unsupported_gateway_next_hop : Reason
  gateway_physical_interfaces_unavailable : Reason
  loaded_gateway_route_mismatch : Reason
  loaded_gateway_route_matches : Reason
  malformed_interface_group_configuration : Reason
  malformed_interface_group_members : Reason
  loaded_interface_group_scope_unresolved : Reason
  loaded_interface_group_members_mismatch : Reason
  loaded_interface_group_matches : Reason

-- `(value, None)` and `(None, reason)`.
pub data Checked {ℓ} (A : Type ℓ) : Type ℓ where
  ok : A → Checked A
  bad : Reason → Checked A

-- The dict of `_result`, with the keys `uuid` and `matches` where it has them.
pub record Report (M : Type 0) : Type 0 where
  pub status : Status
  pub reason : Reason
  pub uuid : Option Text
  pub matches : Option (List M)

unfoldable pub result : {M : Type 0} → Status → Reason → Report M
result status reason = record { status = status; reason = reason; uuid = none; matches = none }

unfoldable pub result_for : {M : Type 0} → Status → Reason → Text → Option (List M) → Report M
result_for status reason uuid matches = record {
  status = status;
  reason = reason;
  uuid = some uuid;
  matches = matches;
}

unfoldable pub result_with : {M : Type 0} → Status → Reason → List M → Report M
result_with status reason matches = record {
  status = status;
  reason = reason;
  uuid = none;
  matches = some matches;
}

-- The reasons that the source compares or passes on are these texts.
abbrev pub filter_rules : Text
filter_rules = codes "filter rules"

abbrev pub nat_rules : Text
nat_rules = codes "nat rules"
