-- ===== src/Classify/Support.antt =====
-- `reference_support` of src/iaas/opnsense_workflow/classification.py: what a reference to a system
-- object may be used as. `network_version` is `ipaddress.ip_network(item, strict=False)`: the version
-- of the network, if the text is one.
pub mod Literal
use iaas.Prelude.{
  ◌≡◌, ◌≢◌, refl, ap, subst, ◌⊎◌, inl, inr, Bool, true, false, not, ◌&&◌, ◌||◌, Option, none, some,
  List, [], ◌∷◌, ◌++◌, Text, codes, text_eq, text_eq_iff, leb, ◌==◌, if◌then◌else◌, all, any, All,
  length, arith, Bool-cases,
}
use iaas.Value.{Value, Fields, str, list, get, to_list, all_full, full_text}
use iaas.Classify.{
  Origin, user_config, system_builtin, derived, unknown, Classification, Basis, native_static_child,
  reference_role_from_native_identity, native_internal_type, reference_role_from_content,
  complete_literal_membership, static_groups,
}

pub data Role : Type 0 where
  address : Role
  port : Role
  interface_group : Role

-- The versions of `ipaddress`, 4 and 6: `inet` and `inet6`.
pub data Family : Type 0 where
  inet : Family
  inet6 : Family

pub record Support : Type 0 where
  pub label : Text
  pub roles : List Role
  pub basis : List Basis
  pub dependencies_complete : Bool
  pub ip_protocol : Option Family

-- `re.split(r"[,\n]", value)`, without the empty items.
add_item : Text → List Text → List Text
add_item [] items = items
add_item (c ∷ s) items = (c ∷ s) ∷ items

split_items : Text → Text → List Text
unfolding add_item
split_items item [] = add_item item []
split_items item (c ∷ s) =
    let ends = c == b',' || c == 10 in
    let rest = split_items (if ends then [] else item ++ c ∷ []) s in
    if ends then add_item item rest else rest

-- `_members`; the caller takes an empty list as none.
unfoldable pub members : Value → List Text
unfolding split_items all_full
members (list vs) = elim (all_full (to_list vs)) [ none ↦ [] | some ts ↦ ts ]
members (str s) = split_items [] s
members _ = []

-- `[1-9][0-9]{0,4}`
is_port_number : Text → Bool
is_port_number [] = false
is_port_number (c ∷ s) =
    leb b'1' c && (leb c b'9' && (leb (length s) 4 && all (λ d. leb b'0' d && leb d b'9') s))

at_dash : Text → Text × Option Text
at_dash [] = ([], none)
at_dash (c ∷ s) =
    let (left, right) = at_dash s in if c == b'-' then ([], some s) else (c ∷ left, right)

port_ends : Text × Option Text → Bool
unfolding is_port_number
port_ends (low, none) = is_port_number low
port_ends (low, some high) = is_port_number low && is_port_number high

-- `_PORT.fullmatch`
unfoldable pub is_port : Text → Bool
unfolding at_dash port_ends
is_port s = port_ends (at_dash s)

abbrev pub same_family : Family → Family → Bool
same_family inet inet = true
same_family inet6 inet6 = true
same_family _ _ = false

has_family : Family → Option Family → Bool
has_family f none = false
has_family f (some g) = same_family g f

-- The one version of all the networks.
one_family : (Text → Option Family) → List Text → Option Family → Option Family
unfolding has_family
one_family network_version values none = none
one_family network_version values (some f) =
    if all (λ v. has_family f (network_version v)) values then some f else none

unfoldable pub common_family : (Text → Option Family) → List Text → Option Family
unfolding one_family
common_family network_version [] = none
common_family network_version (v ∷ vs) = one_family network_version vs (network_version v)

abbrev content_support : Text → Role → Option Family → Support
content_support name role family = record {
  label = codes "aliases:" ++ name;
  roles = role ∷ [];
  basis = native_internal_type ∷ reference_role_from_content ∷ complete_literal_membership ∷ [];
  dependencies_complete = true;
  ip_protocol = family;
}

address_support : Text → Option Family → Option Support
address_support name none = none
address_support name (some f) = some (content_support name address (some f))

alias_support : (Text → Option Family) → Option Text → List Text → Option Support
unfolding address_support common_family is_port
alias_support network_version none values = none
alias_support network_version (some name) [] = none
alias_support network_version (some name) (v ∷ vs) =
    if all is_port (v ∷ vs)
    then some (content_support name port none)
    else address_support name (common_family network_version (v ∷ vs))

is_static_name : List (Text × Text) → Text → Bool
unfolding text_eq
is_static_name groups name = any (λ g. text_eq name g.0) groups

group_support : Value → Option Support
unfolding is_static_name
group_support (str name) =
    if is_static_name static_groups name
    then some (record {
      label = codes "interface-groups:" ++ name;
      roles = interface_group ∷ [];
      basis = native_static_child ∷ reference_role_from_native_identity ∷ [];
      dependencies_complete = true;
      ip_protocol = none;
    })
    else none
group_support _ = none

is_derived : Origin → Bool
is_derived derived = true
is_derived _ = false

is_system : Origin → Bool
is_system system_builtin = true
is_system _ = false

unfoldable pub reference_support :
    (Text → Option Family) → Text → Fields → Classification → Option Support
unfolding group_support alias_support members is_derived is_system text_eq get
reference_support network_version resource row c =
    if text_eq resource (codes "interface-groups") && is_derived c.origin
    then group_support (get (codes "name") row)
    else if not (text_eq resource (codes "aliases")) || not (is_system c.origin)
    then none
    else alias_support network_version (full_text (get (codes "name") row))
        (members (get (codes "content") row))
