-- ===== src/Routing/Examples.antt =====
-- A gateway of gateway_checks.py whose monitor has its route, and the theorem at it.
use iaas.Prelude.{
  ◌≡◌, refl, Bool, true, false, Option, none, some, Text, codes, text_eq, if◌then◌else◌,
}
use iaas.Prelude.Int.{pos}
use iaas.Prelude.Unicode.{is_space}
use iaas.Value.{Value, Fields, nil, cons, end, field, str, int, list, dict}
use iaas.Routing.{Status, verified}
use iaas.Routing.Current.{Result, undecided, current, check_gateway_current}
use iaas.Routing.Current.Usable.{IsVerified}

abbrev to_bool : Value → Option Bool
unfolding text_eq
to_bool (str s) =
    if text_eq s (codes "0") then some false else if text_eq s (codes "1") then some true else none
to_bool _ = none

abbrev no_network : Text → Text → Option Bool
no_network s t = none

abbrev desired : Fields
desired = field (codes "name") (str (codes "gw")) (
    field (codes "interface") (str (codes "wan")) (
      field (codes "gateway") (str (codes "10.0.0.1"))
        (field (codes "monitor") (str (codes "10.0.0.9")) end)))

abbrev live : Fields
live = field (codes "name") (str (codes "gw")) (
    field (codes "interface") (str (codes "wan")) (
      field (codes "if") (str (codes "em0")) (
        field (codes "gateway") (str (codes "10.0.0.1")) (
          field (codes "monitor") (str (codes " 10.0.0.9")) (
            field (codes "monitor_disable") (str (codes "0"))
              (field (codes "monitor_noroute") (str (codes "0")) end))))))

abbrev status : Value
status = dict (
    field (codes "current") (int (pos 1)) (
      field (codes "rowCount") (int (pos 10)) (
        field (codes "total") (int (pos 1))
          (field (codes "rows") (list (cons (dict live) nil)) end))))

abbrev expectation : Value
expectation = dict (
    field (codes "purpose") (str (codes "monitor_host"))
      (field (codes "destination") (str (codes "10.0.0.9")) end))

abbrev routes : Text → Value
routes netif = list (
    cons
      (dict (
        field (codes "destination") (str (codes "10.0.0.9")) (
          field (codes "gateway") (str (codes "10.0.0.1"))
            (field (codes "netif") (str netif) end))))
      nil)

abbrev consumer : Value
consumer = dict (field (codes "status") (str (codes "verified")) end)

-- The status of a result that is not undecided.
abbrev status_of : Result → Option Status
status_of (undecided reason) = none
status_of (current c) = some c.status

verifies :
    status_of (
      check_gateway_current to_bool no_network
        (dict desired)
        (routes (codes "em0"))
        status
        consumer
        expectation)
    ≡ some verified
unfolding check_gateway_current is_space
verifies = refl

-- A route by another interface does not do.
other_interface :
    status_of (
      check_gateway_current to_bool no_network
        (dict desired)
        (routes (codes "em1"))
        status
        consumer
        expectation)
    ≡ some Status.failed
unfolding check_gateway_current is_space
other_interface = refl

is_verified : IsVerified to_bool no_network (
    check_gateway_current to_bool no_network
      (dict desired)
      (routes (codes "em0"))
      status
      consumer
      expectation)
unfolding check_gateway_current is_space
is_verified = refl
