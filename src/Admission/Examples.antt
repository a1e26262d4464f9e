-- ===== src/Admission/Examples.antt =====
-- Runs of admission.py on concrete objects, and the theorems at them.
use iaas.Prelude.{◌≡◌, refl, true, some, Text, codes}
use iaas.Value.{Value, Fields, end, field, str, bool, list, nil, cons, dict}
use iaas.Admission.{require_independent, require_reference}
use iaas.Admission.Evidence.{IsIndependent, require_independent-IsIndependent}
use iaas.Admission.Reference.{IsReference, require_reference-IsReference}

abbrev classification : Text → Text → Value
classification origin management = dict (
    field (codes "origin") (str origin) (
      field (codes "management") (str management)
        (field (codes "basis") (list (cons (str (codes "persistent_configuration")) nil)) end)))

abbrev alias : Fields
alias =
    field (codes "classification") (classification (codes "user_config") (codes "independent")) end

alias_independent : require_independent alias ≡ true
unfolding require_independent
alias_independent = refl

require_independent-IsIndependent_example : IsIndependent alias
require_independent-IsIndependent_example =
    require_independent-IsIndependent alias alias_independent

abbrev support : Value
support = dict (
    field (codes "label") (str (codes "aliases:lan_nets")) (
      field (codes "roles") (list (cons (str (codes "address")) nil)) (
        field (codes "basis") (list (cons (str (codes "native_internal_type")) nil)) (
          field (codes "dependencies_complete") (bool true)
            (field (codes "ip_protocol") (str (codes "inet")) end)))))

abbrev system_alias : Fields
system_alias = field (codes "resource") (str (codes "aliases")) (
    field (codes "identity") (list (cons (str (codes "lan_nets")) nil)) (
      field (codes "classification") (classification (codes "system_builtin") (codes "read_only"))
        (field (codes "reference_support") support end)))

referred : require_reference system_alias (codes "address") (some (codes "inet")) ≡ true
unfolding require_reference
referred = refl

require_reference-IsReference_example :
    IsReference system_alias (codes "address") (some (codes "inet"))
require_reference-IsReference_example =
    require_reference-IsReference system_alias (codes "address") (some (codes "inet")) referred
