-- ===== src/Membership/Examples.antt =====
-- Runs of group_checks.py on concrete observations, and the theorems at them.
use iaas.Prelude.{◌≡◌, refl, some, List, [], ◌∷◌, Text, codes}
use iaas.Value.{Value, end, field, str, list, nil, cons, dict}
use iaas.Membership.{verified, Dict, ok, overview_mapping}
use iaas.Membership.Check.{check_interface_group_current}
use iaas.Membership.Check.Exact.{IsCurrent, check_interface_group_current-IsCurrent}
use iaas.Membership.Mapping.{IsOneToOne, overview_mapping-IsOneToOne}

abbrev interface : Text → Text → Value
interface identifier device =
    dict (field (codes "identifier") (str identifier) (field (codes "device") (str device) end))

abbrev overview : Value
overview = list (
    cons (interface (codes "lan") (codes "igc0"))
      (cons (interface [] (codes "igc2")) (cons (interface (codes "wan") (codes "igc1")) nil)))

abbrev mapping : Dict Text
mapping = (codes "lan", codes "igc0") ∷ (codes "wan", codes "igc1") ∷ []

mapped : overview_mapping overview ≡ ok mapping
unfolding overview_mapping
mapped = refl

overview_mapping-IsOneToOne_example : IsOneToOne mapping
overview_mapping-IsOneToOne_example = overview_mapping-IsOneToOne overview mapping mapped

abbrev groups : List Text → Value
groups [] = dict (field (codes "groups") (list nil) end)
groups (g ∷ gs) = dict (field (codes "groups") (list (cons (str g) nil)) end)

abbrev ifconfig : Value
ifconfig =
    dict (field (codes "igc0") (groups (codes "lans" ∷ [])) (field (codes "igc1") (groups []) end))

abbrev desired : Value
desired = dict (
    field (codes "name") (str (codes "lans"))
      (field (codes "members") (list (cons (str (codes "lan")) nil)) end))

abbrev consumer : Value
consumer = dict (field (codes "status") (str (codes "not_applicable")) end)

current :
    (check_interface_group_current desired overview ifconfig (some consumer)).status ≡ verified
unfolding check_interface_group_current
current = refl

check_interface_group_current-IsCurrent_example :
    IsCurrent desired overview ifconfig (some consumer)
check_interface_group_current-IsCurrent_example =
    check_interface_group_current-IsCurrent desired overview ifconfig (some consumer) current
