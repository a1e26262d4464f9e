-- ===== src/Routing.antt =====
-- src/iaas/opnsense_workflow/gateway_checks.py: the current interface, next hop, monitor configuration and
-- route of a gateway. `to_bool` is `optional_bool` of src/iaas/common/conversion.py, that asks Pydantic, and
-- `same_network` compares `ipaddress.ip_network(text, strict=False)` of two texts, `none` where one is
-- no network. Of a fact the expected and observed values, that are only reported, are left out.
pub mod Current
mod Examples
use iaas.Prelude.{
  ℕ, zero, suc, Bool, true, false, not, ◌&&◌, ◌||◌, Option, none, some, List, [], ◌∷◌, Text, codes,
  text_eq, if◌then◌else◌, any, length, leb, ◌==◌,
}
use iaas.Prelude.Int.{ℤ, pos}
use iaas.Value.{Value, Values, Fields, null, str, int, list, dict, get, has_key, is_text, to_list}
use iaas.Membership.{text_of}

pub data Status : Type 0 where
  verified : Status
  failed : Status
  unknown : Status
  unsupported : Status
  not_applicable : Status

-- The reasons that the source gives, and the one that a consumer's observation has.
pub data Reason : Type 0 where
  malformed_live_routes : Reason
  malformed_gateway_status : Reason
  monitor_configuration_unavailable : Reason
  monitor_disabled_by_desired : Reason
  monitor_disable_mismatch : Reason
  monitor_not_enabled : Reason
  monitor_target_mismatch : Reason
  no_explicit_route_purpose : Reason
  malformed_route_expectation : Reason
  route_to_consumer_requires_pf_rules : Reason
  route_purpose_unavailable : Reason
  monitor_route_configuration_unavailable : Reason
  monitor_host_route_not_required : Reason
  route_interface_or_gateway_unavailable : Reason
  required_route_not_present : Reason
  malformed_desired_gateway : Reason
  required_gateway_identity_unavailable : Reason
  gateway_status_page_incomplete : Reason
  gateway_status_missing_or_ambiguous : Reason
  gateway_interface_unavailable : Reason
  gateway_physical_interface_unavailable : Reason
  gateway_next_hop_mismatch : Reason
  gateway_next_hop_unavailable : Reason
  runtime_status_informational_only : Reason
  gateway_runtime_status_unavailable : Reason
  loaded_route_to_observation_unavailable : Reason
  malformed_consumer_observation : Reason

pub record Fact : Type 0 where
  pub status : Status
  pub reason : Option Reason

abbrev pub fact : Status → Reason → Fact
fact status reason = record { status = status; reason = some reason }

abbrev pub plain : Status → Fact
plain status = record { status = status; reason = none }

-- The mappings of a list, `none` where an entry is none.
dicts : List Value → Option (List Fields)
dicts [] = some []
dicts (dict row ∷ vs) = elim (dicts vs) [ none ↦ none | some rows ↦ some (row ∷ rows) ]
dicts (v ∷ vs) = none

unfoldable pub route_rows : Value → Option (List Fields)
unfolding dicts
route_rows (list vs) = dicts (to_list vs)
route_rows _ = none

-- A natural number that is not a bool.
natural : Value → Option ℕ
natural (int (pos n)) = some n
natural _ = none

pub data Page : Type 0 where
  malformed : Page
  page : List Fields → Bool → Page

-- The rows of a page, with whether it is complete.
counted : ℕ → ℕ → Option (List Fields) → Page
counted row_count total none = malformed
counted row_count total (some rows) =
    if leb (length rows) row_count && leb (length rows) total
    then page rows (total == length rows || total == 0)
    else malformed

sized : Option ℕ → Option ℕ → Option ℕ → Value → Page
unfolding counted route_rows
sized (some (suc current)) (some row_count) (some total) rows =
    counted row_count total (route_rows rows)
sized _ _ _ rows = malformed

unfoldable pub gateway_rows : Value → Page
unfolding sized natural get
gateway_rows (dict fields) =
    sized (natural (get (codes "current") fields)) (natural (get (codes "rowCount") fields))
      (natural (get (codes "total") fields)) (get (codes "rows") fields)
gateway_rows _ = malformed

-- The rows with this name.
unfoldable pub named : Text → List Fields → List Fields
unfolding get text_eq
named name [] = []
named name (row ∷ rows) =
    let rest = named name rows in if is_text name (get (codes "name") row) then row ∷ rest else rest

unfoldable pub find_gateway : List Fields → Text → Option Fields
unfolding named
find_gateway rows name = elim (named name rows) [
  | [] ↦ none
  | row ∷ more ↦ elim more [ [] ↦ some row | other ∷ others ↦ none ]
]

unfoldable pub field_text : Text → Fields → Option Text
unfolding text_of get
field_text key row = text_of (get key row)

-- Whether two texts that may be missing are the same.
unfoldable pub same_text : Option Text → Option Text → Bool
unfolding text_eq
same_text none none = true
same_text (some s) (some t) = text_eq s t
same_text _ _ = false

is_given : Option Text → Bool
is_given none = false
is_given (some t) = true

-- The status of an observed text.
unfoldable pub compared : Text → Option Text → Reason → Option Reason → Fact
unfolding text_eq
compared expected none missing mismatch = fact unknown missing
compared expected (some observed) missing mismatch =
    if text_eq observed expected
    then plain verified
    else record { status = failed; reason = mismatch }

module _ (to_bool : Value → Option Bool) (same_network : Text → Text → Option Bool) where
  -- The value of the flag, where it is one.
  pub flag : Text → Fields → Option Bool
  unfolding get
  flag key row = to_bool (get key row)

  pub is_disabled_by : Option Bool → Bool
  is_disabled_by none = false
  is_disabled_by (some b) = b

  -- The monitor of a gateway that is to be monitored.
  monitored : Fields → Fields → Bool → Fact
  unfolding field_text same_text is_given has_key
  monitored desired live disabled =
      let expected = field_text (codes "monitor") desired in
      if not (has_key (codes "monitor") live)
      then fact unknown monitor_configuration_unavailable
      else if disabled
      then fact failed monitor_not_enabled
      else if is_given expected && not (same_text (field_text (codes "monitor") live) expected)
      then fact failed monitor_target_mismatch
      else plain verified

  pub by_disabled : Fields → Fields → Bool → Option Bool → Fact
  unfolding monitored
  by_disabled desired live is_expected none = fact unknown monitor_configuration_unavailable
  by_disabled desired live true (some true) = fact not_applicable monitor_disabled_by_desired
  by_disabled desired live true (some false) = fact failed monitor_disable_mismatch
  by_disabled desired live false (some disabled) = monitored desired live disabled

  unfoldable pub configured_monitor : Fields → Fields → Fact
  unfolding by_disabled is_disabled_by flag
  configured_monitor desired live =
      by_disabled desired live (is_disabled_by (flag (codes "monitor_disable") desired))
        (flag (codes "monitor_disable") live)

  unfoldable pub destination_matches : Text → Option Text → Bool
  unfolding text_eq
  destination_matches expected none = false
  destination_matches expected (some observed) = elim (same_network expected observed) [
    | none ↦ text_eq expected observed
    | some same ↦ same
  ]

  -- A route to the destination by the gateway and its interface.
  unfoldable pub is_route : Text → Text → Text → Fields → Bool
  unfolding destination_matches field_text same_text
  is_route destination gateway netif row =
      destination_matches destination (field_text (codes "destination") row)
      && (same_text (field_text (codes "gateway") row) (some gateway)
          && same_text (field_text (codes "netif") row) (some netif))

  installed : Text → List Fields → Option Text → Option Text → Fact
  unfolding is_route
  installed destination routes (some netif) (some gateway) =
      if any (is_route destination gateway netif) routes
      then plain verified
      else fact failed required_route_not_present
  installed destination routes _ _ = fact unknown route_interface_or_gateway_unavailable

  by_monitor : Text → List Fields → Fields → Option Bool → Option Bool → Fact
  unfolding installed field_text
  by_monitor destination routes live (some disable) (some noroute) =
      if disable || noroute
      then fact not_applicable monitor_host_route_not_required
      else installed destination routes (field_text (codes "if") live)
          (field_text (codes "gateway") live)
  by_monitor destination routes live _ _ = fact unknown monitor_route_configuration_unavailable

  by_purpose : Value → Option Text → List Fields → Fields → Fact
  unfolding by_monitor flag text_eq
  by_purpose purpose destination routes live =
      if is_text (codes "pbr_consumer") purpose
      then fact unsupported route_to_consumer_requires_pf_rules
      else if not (is_text (codes "monitor_host") purpose)
      then fact unsupported route_purpose_unavailable
      else elim destination [
        | none ↦ fact unsupported route_purpose_unavailable
        | some d ↦
            by_monitor d routes live (flag (codes "monitor_disable") live)
              (flag (codes "monitor_noroute") live)
      ]

  unfoldable pub route_check : Value → List Fields → Fields → Fact
  unfolding by_purpose field_text get
  route_check null routes live = fact not_applicable no_explicit_route_purpose
  route_check (dict expectation) routes live =
      by_purpose (get (codes "purpose") expectation) (field_text (codes "destination") expectation)
        routes live
  route_check _ routes live = fact unknown malformed_route_expectation
