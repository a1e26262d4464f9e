-- ===== src/Routing/Current.antt =====
-- `check_gateway_current` of src/iaas/opnsense_workflow/gateway_checks.py.
pub mod Facts
pub mod Usable
use iaas.Prelude.{
  Bool, true, false, not, ◌&&◌, ◌||◌, Option, none, some, List, [], ◌∷◌, Text, codes, text_eq,
  if◌then◌else◌, any, all,
}
use iaas.Value.{Value, Fields, null, str, dict, get, is_null}
use iaas.Routing.{
  Status, verified, failed, unknown, unsupported, not_applicable, Reason, malformed_live_routes,
  malformed_gateway_status, malformed_desired_gateway, required_gateway_identity_unavailable,
  gateway_status_page_incomplete, gateway_status_missing_or_ambiguous,
  gateway_interface_unavailable, gateway_physical_interface_unavailable, gateway_next_hop_mismatch,
  gateway_next_hop_unavailable, runtime_status_informational_only,
  gateway_runtime_status_unavailable, loaded_route_to_observation_unavailable,
  malformed_consumer_observation, Fact, fact, plain, route_rows, Page, malformed, page,
  gateway_rows, find_gateway, field_text, is_given, compared, configured_monitor, route_check,
}

is_status : Status → Status → Bool
is_status verified verified = true
is_status failed failed = true
is_status unknown unknown = true
is_status unsupported unsupported = true
is_status not_applicable not_applicable = true
is_status _ _ = false

unfoldable pub is_good : Status → Bool
is_good verified = true
is_good not_applicable = true
is_good _ = false

-- `_aggregate`
unfoldable pub aggregate : List Status → Status
unfolding is_status is_good
aggregate statuses =
    if any (is_status failed) statuses
    then failed
    else if any (is_status unknown) statuses
    then unknown
    else if any (is_status unsupported) statuses
    then unsupported
    else if all is_good statuses
    then verified
    else unknown

pub data Consumer : Type 0 where
  unavailable : Consumer
  malformed_observation : Consumer
  given : Status → Fields → Consumer

status_of_text : Text → Option Status
unfolding text_eq
status_of_text s =
    if text_eq s (codes "verified")
    then some verified
    else if text_eq s (codes "failed")
    then some failed
    else if text_eq s (codes "unknown")
    then some unknown
    else if text_eq s (codes "unsupported")
    then some unsupported
    else if text_eq s (codes "not_applicable")
    then some not_applicable
    else none

-- A list or a dict, which cannot be hashed, raises in the source; it is malformed here, as the others.
status_of : Value → Option Status
unfolding status_of_text
status_of (str s) = status_of_text s
status_of _ = none

-- `_consumer`
unfoldable pub consumer_of : Value → Consumer
unfolding status_of get
consumer_of null = unavailable
consumer_of (dict observation) = elim (status_of (get (codes "status") observation)) [
  | none ↦ malformed_observation
  | some status ↦ given status observation
]
consumer_of _ = malformed_observation

unfoldable pub consumer_status : Consumer → Status
consumer_status unavailable = unsupported
consumer_status malformed_observation = unknown
consumer_status (given status observation) = status

-- The result of one gateway, without the fixed entry on the completion.
pub record Current : Type 0 where
  pub status : Status
  pub current_status : Status
  pub identity : Text
  pub interface : Fact
  pub physical_interface : Fact
  pub next_hop : Fact
  pub monitor_configuration : Fact
  pub runtime_status : Fact
  pub route : Fact
  pub consumer : Consumer

pub data Result : Type 0 where
  undecided : Reason → Result
  current : Current → Result

-- An expected route that could not be read is unknown.
unread_route : Bool → Status → Fact → Fact
unread_route true verified f = fact unknown malformed_live_routes
unread_route true failed f = fact unknown malformed_live_routes
unread_route unread status f = f

or_no_rows : Option (List Fields) → List Fields
or_no_rows none = []
or_no_rows (some rows) = rows

is_none : Option (List Fields) → Bool
is_none none = true
is_none (some rows) = false

observed_if : Option Text → Reason → Fact
observed_if none missing = fact unknown missing
observed_if (some t) missing = plain verified

runtime_of : Option Text → Fact
runtime_of none = fact unknown gateway_runtime_status_unavailable
runtime_of (some t) = fact not_applicable runtime_status_informational_only

module _ (to_bool : Value → Option Bool) (same_network : Text → Text → Option Bool) where
  -- The route check on the routes as they were given.
  routed : Value → Value → Fields → Fact
  unfolding route_check route_rows unread_route or_no_rows is_none
  routed expectation live_routes live =
      if is_null expectation || is_null live_routes
      then route_check to_bool same_network expectation [] live
      else let route =
          route_check to_bool same_network expectation (or_no_rows (route_rows live_routes)) live in
        unread_route (is_none (route_rows live_routes)) route.status route

  current_of : Text → Text → Text → Fields → Fields → Value → Value → Value → Current
  unfolding compared observed_if runtime_of configured_monitor routed aggregate consumer_of
      consumer_status field_text
  current_of name logical gateway desired live live_routes consumer_observation expectation =
      let interface =
        compared logical (field_text (codes "interface") live) gateway_interface_unavailable none in
      let next_hop =
        compared gateway (field_text (codes "gateway") live) gateway_next_hop_unavailable
          (some gateway_next_hop_mismatch) in
      let monitor = configured_monitor to_bool same_network desired live in
      let route = routed expectation live_routes live in
      let status =
        aggregate (interface.status ∷ next_hop.status ∷ monitor.status ∷ route.status ∷ []) in
      let consumer = consumer_of consumer_observation in
      record {
        status = aggregate (status ∷ consumer_status consumer ∷ []);
        current_status = status;
        identity = name;
        interface = interface;
        physical_interface =
            observed_if (field_text (codes "if") live) gateway_physical_interface_unavailable;
        next_hop = next_hop;
        monitor_configuration = monitor;
        runtime_status = runtime_of (field_text (codes "status") live);
        route = route;
        consumer = consumer;
      }

  found : Text → Text → Text → Fields → Value → Value → Value → Option Fields → Result
  unfolding current_of
  found name logical gateway desired live_routes consumer_observation expectation none =
      undecided gateway_status_missing_or_ambiguous
  found name logical gateway desired live_routes consumer_observation expectation (some live) =
      current
        (current_of name logical gateway desired live live_routes consumer_observation expectation)

  paged : Text → Text → Text → Fields → Value → Value → Value → Page → Result
  unfolding found find_gateway
  paged name logical gateway desired live_routes consumer_observation expectation malformed =
      undecided malformed_gateway_status
  paged name logical gateway desired live_routes consumer_observation expectation
        (page rows false) =
      undecided gateway_status_page_incomplete
  paged name logical gateway desired live_routes consumer_observation expectation (page rows true) =
      found name logical gateway desired live_routes consumer_observation expectation
        (find_gateway rows name)

  identified :
      Option Text → Option Text → Option Text → Fields → Value → Value → Value → Value → Result
  unfolding paged gateway_rows
  identified (some name) (some logical) (some gateway) desired live_routes gateway_status
        consumer_observation expectation =
      paged name logical gateway desired live_routes consumer_observation expectation
        (gateway_rows gateway_status)
  identified _ _ _ desired live_routes gateway_status consumer_observation expectation =
      undecided required_gateway_identity_unavailable

  unfoldable pub check_gateway_current : Value → Value → Value → Value → Value → Result
  unfolding identified field_text
  check_gateway_current (dict desired) live_routes gateway_status consumer_observation expectation =
      identified (field_text (codes "name") desired) (field_text (codes "interface") desired)
        (field_text (codes "gateway") desired) desired live_routes gateway_status
        consumer_observation expectation
  check_gateway_current _ live_routes gateway_status consumer_observation expectation =
      undecided malformed_desired_gateway
