-- ===== src/Classify.antt =====
-- src/iaas/opnsense_workflow/classification.py: where a native object comes from and how it may be
-- managed, from the evidence of its row.
pub mod Resource
pub mod Support
mod Examples
use iaas.Prelude.{
  ℕ, Bool, true, false, not, ◌&&◌, ◌||◌, Option, none, some, List, [], ◌∷◌, ◌++◌, Text, codes,
  text_eq, if◌then◌else◌, all, length, is_in,
}
use iaas.Prelude.Int.{ℤ, pos, leb_ℤ}
use iaas.Value.{
  Value, Values, Fields, null, bool, int, float_integer, float_other, str, list, dict, object, nil,
  cons, end, field, get, has_key, items, to_list, all_full, is_null, is_true, is_text, truthy,
}

pub data Origin : Type 0 where
  user_config : Origin
  system_builtin : Origin
  derived : Origin
  unknown : Origin

pub data Management : Type 0 where
  independent : Management
  via_source : Management
  read_only : Management
  unknown_management : Management  -- "unknown"

-- `SUPPORTED_BASIS`, that also names the nature of the data.
pub data Basis : Type 0 where
  supported_model : Basis
  native_internal_type : Basis
  native_external_type : Basis
  persistent_configuration : Basis
  dynamic_contents : Basis
  runtime_state : Basis
  reference_role_from_content : Basis
  complete_literal_membership : Basis
  native_static_child : Basis
  reference_role_from_native_identity : Basis
  classification_evidence_missing : Basis
  partial_management_unsupported : Basis

pub data Reason : Type 0 where
  evidence_missing : Reason  -- "classification_evidence_missing"
  conflicting_classification : Reason

pub record Classification : Type 0 where
  pub origin : Origin
  pub management : Management
  pub basis : List Basis
  pub source : Option Text
  pub reason : Option Reason

-- A classification and the nature of the data.
abbrev pub Classified : Type 0
Classified = Classification × List Basis

abbrev pub origin_text : Origin → Text
origin_text user_config = codes "user_config"
origin_text system_builtin = codes "system_builtin"
origin_text derived = codes "derived"
origin_text unknown = codes "unknown"

-- A classification without a source; the basis names each kind once.
abbrev pub classified : Origin → Management → List Basis → Option Reason → List Basis → Classified
classified origin management basis reason nature = (
  record {
    origin = origin;
    management = management;
    basis = basis;
    source = none;
    reason = reason;
  },
  nature,
)

abbrev pub from_source : Origin → List Basis → Text → Classified
from_source origin basis source = (
  record {
    origin = origin;
    management = read_only;
    basis = basis;
    source = some source;
    reason = none;
  },
  persistent_configuration ∷ [],
)

abbrev pub unclassified : List Basis → Classified
unclassified nature =
    classified unknown unknown_management (classification_evidence_missing ∷ [])
      (some evidence_missing) nature

-- `_finish`: `marker` is the origin that the native row claims.
unfoldable pub finish_by : Value → Classified → Classified
unfolding text_eq
finish_by marker (c, nature) =
    if is_null marker || is_text (origin_text c.origin) marker
    then (c, nature)
    else classified unknown unknown_management (classification_evidence_missing ∷ [])
        (some conflicting_classification) nature

-- Python's `==` where one side is a text, a number or the empty list, as in the rows of the provider's
-- models: other lists and dicts, and floats that are no integers, are taken to differ.
number_of : Value → Option ℤ
number_of (bool true) = some (pos 1)
number_of (bool false) = some (pos 0)
number_of (int n) = some n
number_of (float_integer n) = some n
number_of _ = none

same_number : Option ℤ → Option ℤ → Bool
same_number (some m) (some n) = leb_ℤ m n && leb_ℤ n m
same_number _ _ = false

unfoldable pub same_value : Value → Value → Bool
unfolding text_eq number_of same_number
same_value null null = true
same_value (str s) (str t) = text_eq s t
same_value (list nil) (list nil) = true
same_value v w = same_number (number_of v) (number_of w)

abbrev pub alias_types : List Text
alias_types =
    codes "host"
    ∷ codes "network"
    ∷ codes "port"
    ∷ codes "url"
    ∷ codes "urltable"
    ∷ codes "urljson"
    ∷ codes "geoip"
    ∷ codes "networkgroup"
    ∷ codes "mac"
    ∷ codes "dynipv6host"
    ∷ codes "external"
    ∷ codes "internal"
    ∷ []

abbrev pub dynamic_alias_types : List Text
dynamic_alias_types =
    codes "url" ∷ codes "urltable" ∷ codes "urljson" ∷ codes "geoip" ∷ codes "dynipv6host" ∷ []

abbrev pub crud_resources : List Text
crud_resources =
    codes "aliases"
    ∷ codes "vips"
    ∷ codes "gateways"
    ∷ codes "filter-rules"
    ∷ codes "dnat"
    ∷ codes "one-to-one-nat"
    ∷ []

abbrev pub static_groups : List (Text × Text)
static_groups =
    (codes "openvpn", codes "OpenVPN (Group)")
    ∷ (codes "enc0", codes "IPsec encapsulation")
    ∷ (codes "wireguard", codes "WireGuard (Group)")
    ∷ []

-- The description and the expiry of a static alias.
abbrev pub static_aliases : List (Text × Text × Text)
static_aliases =
    (codes "bogons", codes "bogon networks (internal)", [])
    ∷ (codes "bogonsv6", codes "bogon networks IPv6 (internal)", [])
    ∷ (codes "virusprot", codes "overload table for rate limiting (internal)", codes "3600")
    ∷ (codes "sshlockout", codes "abuse lockout table (internal)", codes "3600")
    ∷ []
