-- ===== src/Classify/Examples.antt =====
-- Runs of classification.py on concrete rows, and the theorems at them.
use iaas.Prelude.{
  sym, ◌∙◌, ◌≡◌, ◌≢◌, refl, ◌⊎◌, Option, none, some, [], ◌∷◌, Text, codes, if◌then◌else◌,
  starts_with,
}
use iaas.Value.{Fields, end, field, str, list, nil, cons, get, null}
use iaas.Classify.{user_config, unknown, system_builtin, origin_text, Classification, read_only}
use iaas.Classify.Resource.{classify_resource, evidence_row}
use iaas.Classify.Resource.Founded.{IsFounded, classify_resource-IsFounded}
use iaas.Classify.Resource.Agree.{classify_resource-Agrees}
use iaas.Classify.Support.{Family, inet, reference_support}
use iaas.Classify.Support.Literal.{IsSupported, reference_support-IsSupported}

abbrev alias : Fields
alias = field (codes "type") (str (codes "host")) (
    field (codes "name") (str (codes "servers"))
      (field (codes "origin") (str (codes "user_config")) end))

from_user :
    (classify_resource (codes "aliases") alias (codes "servers" ∷ []) none).0.origin ≡ user_config
unfolding classify_resource evidence_row
from_user = refl

known_origin :
    (classify_resource (codes "aliases") alias (codes "servers" ∷ []) none).0.origin ≢ unknown
known_origin h = let e : user_config ≡ unknown = sym from_user ∙ h in cc

classify_resource-IsFounded_example :
    IsFounded
      (codes "aliases")
      alias
      (codes "servers" ∷ [])
      (evidence_row alias none)
      (classify_resource (codes "aliases") alias (codes "servers" ∷ []) none)
classify_resource-IsFounded_example =
    classify_resource-IsFounded (codes "aliases") alias (codes "servers" ∷ []) none

classify_resource-Agrees_example :
    (get (codes "origin") (evidence_row alias none) ≡ null)
    ⊎ (get (codes "origin") (evidence_row alias none)
        ≡ str (
            origin_text
              (classify_resource (codes "aliases") alias (codes "servers" ∷ []) none).0.origin))
classify_resource-Agrees_example =
    classify_resource-Agrees (codes "aliases") alias (codes "servers" ∷ []) none known_origin

-- The networks in 10.0.0.0/8.
abbrev version : Text → Option Family
version t = if starts_with (codes "10.") t then some inet else none

abbrev internal : Fields
internal = field (codes "name") (str (codes "lan_nets")) (
    field (codes "content")
      (list (cons (str (codes "10.1.0.0/16")) (cons (str (codes "10.2.0.1")) nil))) end)

abbrev builtin : Classification
builtin = record {
  origin = system_builtin;
  management = read_only;
  basis = [];
  source = none;
  reason = none;
}

reference_support-IsSupported_example :
    IsSupported version
      (codes "aliases")
      internal
      builtin
      (reference_support version (codes "aliases") internal builtin)
reference_support-IsSupported_example =
    reference_support-IsSupported version (codes "aliases") internal builtin
