-- ===== src/Admission.antt =====
-- src/iaas/opnsense_workflow/admission.py: the evidence that an object needs to be written, or to be
-- referred to. `none` is a ValidationError.
pub mod Evidence
pub mod Reference
mod Examples
use iaas.Prelude.{
  Bool, true, false, not, ◌&&◌, ◌||◌, Option, none, some, List, [], ◌∷◌, ◌++◌, Text, codes, text_eq,
  if◌then◌else◌, any, all, is_in,
}
use iaas.Value.{
  Value, Values, Fields, null, bool, str, list, dict, nil, cons, get, has_key, is_text, is_true,
  to_list,
}

abbrev pub supported_basis : List Text
supported_basis =
    codes "supported_model"
    ∷ codes "native_internal_type"
    ∷ codes "native_external_type"
    ∷ codes "persistent_configuration"
    ∷ codes "dynamic_contents"
    ∷ codes "runtime_state"
    ∷ codes "reference_role_from_content"
    ∷ codes "complete_literal_membership"
    ∷ codes "native_static_child"
    ∷ codes "reference_role_from_native_identity"
    ∷ codes "classification_evidence_missing"
    ∷ codes "partial_management_unsupported"
    ∷ []

-- `value in (...)`, for a tuple of texts.
unfoldable pub one_of : List Text → Value → Bool
unfolding is_in
one_of texts (str s) = is_in s texts
one_of texts _ = false

all_of : List Text → List Value → Bool
unfolding one_of
all_of texts [] = true
all_of texts (v ∷ vs) = one_of texts v && all_of texts vs

-- A list of texts of these; `bool(value)` for a list.
unfoldable pub list_of : List Text → Value → Bool
unfolding all_of
list_of texts (list vs) = all_of texts (to_list vs)
list_of texts _ = false

unfoldable pub is_filled : Value → Bool
is_filled (list (cons v vs)) = true
is_filled _ = false

abbrev pub origins : List Text
origins = codes "user_config" ∷ codes "system_builtin" ∷ codes "derived" ∷ codes "unknown" ∷ []

abbrev pub managements : List Text
managements = codes "independent" ∷ codes "via_source" ∷ codes "read_only" ∷ codes "unknown" ∷ []

pub is_classification : Fields → Bool
unfolding has_key get one_of list_of is_filled text_eq
is_classification c =
    has_key (codes "origin") c
    && (has_key (codes "management") c
        && (has_key (codes "basis") c
            && (one_of origins (get (codes "origin") c)
                && (one_of managements (get (codes "management") c)
                    && (list_of supported_basis (get (codes "basis") c)
                        && (is_text (codes "unknown") (get (codes "management") c)
                            || is_filled (get (codes "basis") c)))))))

unfoldable pub validate_classification : Value → Option Fields
unfolding is_classification
validate_classification (dict c) = if is_classification c then some c else none
validate_classification _ = none

is_independent : Option Fields → Bool
unfolding get text_eq
is_independent none = false
is_independent (some c) = is_text (codes "independent") (get (codes "management") c)

-- Whether `require_independent` returns.
unfoldable pub require_independent : Fields → Bool
unfolding is_independent validate_classification get
require_independent obj =
    is_independent (validate_classification (get (codes "classification") obj))

abbrev pub all_roles : List Text
all_roles = codes "address" ∷ codes "port" ∷ codes "interface-group" ∷ []

abbrev pub families : List Text
families = codes "inet" ∷ codes "inet6" ∷ codes "inet46" ∷ []

is_flag : Value → Bool
is_flag (bool b) = true
is_flag _ = false

is_label : Value → Bool
is_label (str s) = true
is_label _ = false

unfoldable pub has_role : Text → Value → Bool
unfolding text_eq
has_role role (list vs) = any (is_text role) (to_list vs)
has_role role _ = false

-- `support['label'] == resource + ':' + obj['identity'][0]`; an identity is a list of texts.
names : Text → Value → Value → Bool
unfolding text_eq
names resource (list (cons (str first) rest)) label = is_text (resource ++ b':' ∷ first) label
names resource _ label = false

is_named : Value → Value → Value → Bool
unfolding names is_in text_eq
is_named (str resource) identity label =
    is_in resource (codes "aliases" ∷ codes "interface-groups" ∷ [])
    && names resource identity label
is_named _ identity label = false

unfoldable pub allowed_roles : Value → List Text
unfolding text_eq
allowed_roles resource =
    if is_text (codes "interface-groups") resource
    then codes "interface-group" ∷ []
    else codes "address" ∷ codes "port" ∷ []

-- The requirements on the support of an object with this classification.
is_support : Fields → Fields → Fields → Bool
unfolding get one_of list_of is_filled is_flag is_label has_role is_named allowed_roles text_eq
is_support obj c support =
    let roles = get (codes "roles") support in
    one_of (codes "system_builtin" ∷ codes "derived" ∷ []) (get (codes "origin") c)
    && (is_label (get (codes "label") support)
        && (is_filled roles
            && (list_of all_roles roles
                && (is_filled (get (codes "basis") support)
                    && (list_of supported_basis (get (codes "basis") support)
                        && (is_flag (get (codes "dependencies_complete") support)
                            && (is_named (get (codes "resource") obj) (get (codes "identity") obj)
                                  (get (codes "label") support)
                                && (list_of (allowed_roles (get (codes "resource") obj)) roles
                                    && (not (has_role (codes "address") roles)
                                        || one_of families
                                            (get (codes "ip_protocol") support))))))))))

supported : Fields → Option Fields → Value → Option (Option Fields)
unfolding is_support
supported obj (some c) (dict support) =
    if is_support obj c support then some (some support) else none
supported obj _ _ = none

unfoldable pub support_of : Fields → Value → Option (Option Fields)
unfolding supported validate_classification get
support_of obj null = some none
support_of obj v = supported obj (validate_classification (get (codes "classification") obj)) v

-- `reference_support`: `some none` where the object has none.
unfoldable pub reference_support : Fields → Option (Option Fields)
unfolding support_of get
reference_support obj = support_of obj (get (codes "reference_support") obj)

unfoldable pub label_of : Fields → Option (Option Fields) → Option Value
unfolding get
label_of obj none = none
label_of obj (some none) = some (get (codes "label") obj)
label_of obj (some (some support)) = some (get (codes "label") support)

unfoldable pub reference_label : Fields → Option Value
unfolding label_of reference_support
reference_label obj = label_of obj (reference_support obj)

-- The address family of the reference, where it has one.
unfoldable pub fits_family : Text → Option Text → Fields → Bool
unfolding get text_eq
fits_family role none support = true
fits_family role (some []) support = true
fits_family role (some (c ∷ protocol)) support =
    not (text_eq role (codes "address"))
    || (is_text (codes "inet46") (get (codes "ip_protocol") support)
        || is_text (c ∷ protocol) (get (codes "ip_protocol") support))

permits : Text → Option Text → Option (Option Fields) → Bool
unfolding fits_family has_role get
permits role ip_protocol (some (some support)) =
    is_true (get (codes "dependencies_complete") support)
    && (has_role role (get (codes "roles") support) && fits_family role ip_protocol support)
permits role ip_protocol _ = false

-- Whether `require_reference` returns.
unfoldable pub require_reference : Fields → Text → Option Text → Bool
unfolding permits reference_support
require_reference obj role ip_protocol = permits role ip_protocol (reference_support obj)

-- Whether `require_configuration_observation` returns.
unfoldable pub require_configuration_observation : Fields → Bool
unfolding get text_eq
require_configuration_observation observation =
    is_text (codes "configuration") (get (codes "observation_scope") observation)
