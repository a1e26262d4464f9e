-- ===== src/Pf/Consumers/Gateway.antt =====
-- `check_gateway_active` of src/iaas/opnsense_workflow/pf_consumers.py. `is_address` is what
-- `ipaddress.ip_address` accepts.
pub mod Soundness
use iaas.Prelude.{
  ℕ, Bool, true, false, not, ◌&&◌, Option, none, some, List, [], ◌∷◌, ◌++◌, Text, codes, text_eq,
  if◌then◌else◌, all, map, is_in,
}
use iaas.Value.{Value, Fields, list, get, is_text, full_text}
use iaas.Pf.Report.{
  Checked, ok, bad, Status, incomplete, failed, verified, not_applicable, Report, result,
  result_for, result_with, malformed_gateway_configuration, unsupported_gateway_next_hop,
  gateway_physical_interfaces_unavailable, complete_consumer_configuration_empty,
  consumer_native_uuid_not_loaded, loaded_gateway_route_mismatch, loaded_gateway_route_matches,
}
use iaas.Pf.Rule.{Rule}
use iaas.Pf.Snapshot.{parse_loaded_pf_rules}
use iaas.Pf.Consumers.{as_strings, is_resource, Consumer, related_consumers, active_rules}

pub record Contract : Type 0 where
  pub name : Text
  pub next_hop : Text
  pub interfaces : List Text

with_interfaces : Text → Text → List Text → Checked Contract
with_interfaces name next_hop [] = bad gateway_physical_interfaces_unavailable
with_interfaces name next_hop (i ∷ is) =
    ok (record { name = name; next_hop = next_hop; interfaces = i ∷ is })

physical_contract : Text → Text → Value → Checked Contract
unfolding with_interfaces as_strings
physical_contract name next_hop (list vs) = with_interfaces name next_hop (as_strings (list vs))
physical_contract name next_hop _ = bad gateway_physical_interfaces_unavailable

named_contract : (Text → Bool) → Option Text → Option Text → Value → Checked Contract
unfolding physical_contract
named_contract is_address (some name) (some next_hop) physical =
    if is_address next_hop
    then physical_contract name next_hop physical
    else bad unsupported_gateway_next_hop
named_contract is_address _ _ physical = bad malformed_gateway_configuration

unfoldable pub gateway_contract : (Text → Bool) → Fields → Checked Contract
unfolding named_contract get
gateway_contract is_address gateway =
    named_contract is_address (full_text (get (codes "name") gateway))
      (full_text (get (codes "gateway") gateway)) (get (codes "physical_interfaces") gateway)

-- The predicate of a consumer of the gateway.
unfoldable pub is_routed : Text → Fields → Bool
unfolding is_resource get text_eq
is_routed name row =
    is_resource (codes "filter-rules") row && is_text name (get (codes "gateway") row)

route_matches : Contract → Option (Text × Text) → Bool
unfolding is_in text_eq
route_matches contract none = false
route_matches contract (some (interface, next_hop)) =
    is_in interface contract.interfaces && text_eq next_hop contract.next_hop

pub record Match : Type 0 where
  pub uuid : Text
  pub pf_index : Option ℕ
  pub route_to : Option (Text × Text)

match_of : Rule → Match
match_of rule = record { uuid = rule.uuid; pf_index = rule.pf_index; route_to = rule.route_to }

pub data Verdict : Type 0 where
  not_loaded : Verdict
  mismatch : Verdict
  matching : List Rule → Verdict

unfoldable pub verdict : Contract → List Rule → Verdict
unfolding route_matches
verdict contract [] = not_loaded
verdict contract (rule ∷ rules) =
    if all (λ r. route_matches contract r.route_to) (rule ∷ rules)
    then matching (rule ∷ rules)
    else mismatch

-- `return`, or the next consumer.
unfoldable pub after : Verdict → Text → (List Rule → Report Match) → Report Match
unfolding result_for
after not_loaded uuid next = result_for failed consumer_native_uuid_not_loaded uuid none
after mismatch uuid next = result_for failed loaded_gateway_route_mismatch uuid none
after (matching rules) uuid next = next rules

unfoldable pub check_consumers : Contract → List Rule → List Match → List Consumer → Report Match
unfolding after verdict active_rules result_with match_of
check_consumers contract loaded matches [] =
    result_with verified loaded_gateway_route_matches matches
check_consumers contract loaded matches (c ∷ cs) =
    after (verdict contract (active_rules c.uuid loaded)) c.uuid
      (λ rules. check_consumers contract loaded (matches ++ map match_of rules) cs)

check_loaded : Contract → List Consumer → Checked (List Rule) → Report Match
unfolding check_consumers result
check_loaded contract related (bad reason) = result incomplete reason
check_loaded contract related (ok loaded) = check_consumers contract loaded [] related

check_related : (ℕ → Bool) → Contract → Value → Checked (List Consumer) → Report Match
unfolding check_loaded parse_loaded_pf_rules result
check_related wide contract snapshot (bad reason) = result incomplete reason
check_related wide contract snapshot (ok []) =
    result not_applicable complete_consumer_configuration_empty
check_related wide contract snapshot (ok (c ∷ cs)) =
    check_loaded contract (c ∷ cs) (parse_loaded_pf_rules wide snapshot)

check_contract : (ℕ → Bool) → Value → Value → Checked Contract → Report Match
unfolding check_related related_consumers is_routed result
check_contract wide snapshot consumers (bad reason) = result incomplete reason
check_contract wide snapshot consumers (ok contract) =
    check_related wide contract snapshot (related_consumers (is_routed contract.name) consumers)

unfoldable pub check_gateway_active :
    (ℕ → Bool) → (Text → Bool) → Fields → Value → Value → Report Match
unfolding check_contract gateway_contract
check_gateway_active wide is_address gateway snapshot consumers =
    check_contract wide snapshot consumers (gateway_contract is_address gateway)
