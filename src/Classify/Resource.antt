-- ===== src/Classify/Resource.antt =====
-- `classify_resource` of src/iaas/opnsense_workflow/classification.py.
pub mod Agree
pub mod Static
pub mod Founded
use iaas.Prelude.{
  ℕ, Bool, true, false, not, ◌&&◌, ◌||◌, Option, none, some, List, [], ◌∷◌, ◌++◌, Text, codes,
  text_eq, if◌then◌else◌, is_in,
}
use iaas.Prelude.Int.{pos}
use iaas.Value.{
  Value, Fields, null, int, str, list, nil, dict, end, field, get, has_key, to_list, all_full,
  is_true, is_text, truthy,
}
use iaas.Classify.{
  Classified, classified, from_source, unclassified, finish_by, same_value, user_config,
  system_builtin, derived, unknown, independent, read_only, unknown_management, supported_model,
  native_internal_type, native_external_type, persistent_configuration, dynamic_contents,
  runtime_state, native_static_child, evidence_missing, alias_types, dynamic_alias_types,
  crud_resources, static_groups, static_aliases,
}

pub static_alias : List (Text × Text × Text) → Value → Option (Text × Text)
unfolding text_eq
static_alias ((name, description, expire) ∷ rest) (str s) =
    let later = static_alias rest (str s) in
    if text_eq name s then some (description, expire) else later
static_alias _ _ = none

pub static_group : List (Text × Text) → Value → Option Text
unfolding text_eq
static_group ((name, description) ∷ rest) (str s) =
    let later = static_group rest (str s) in if text_eq name s then some description else later
static_group _ _ = none

-- `exact_static`
pub matches_alias : Text → Fields → Fields → Option (Text × Text) → Bool
unfolding get text_eq same_value
matches_alias alias_type row native none = false
matches_alias alias_type row native (some (description, expire)) =
    let name = get (codes "name") row in
    same_value (get (codes "uuid") native) name
    && (same_value (get (codes "name") native) name
        && (text_eq alias_type (codes "external")
            && (is_text description (get (codes "description") row)
                && (is_text expire (get (codes "expire") native)
                    && (same_value (get (codes "content") row) (list nil)
                        && is_true (get (codes "enabled") row))))))

-- An alias of ordinary create, update and delete operations.
ordinary_alias : Text → Classified
unfolding is_in text_eq
ordinary_alias alias_type =
    let external = text_eq alias_type (codes "external") in
    let dynamic = is_in alias_type dynamic_alias_types in
    classified user_config independent
      ((if external
          then supported_model ∷ native_external_type ∷ persistent_configuration ∷ []
          else supported_model ∷ persistent_configuration ∷ [])
        ++ (if dynamic then dynamic_contents ∷ [] else []))
      none (persistent_configuration ∷ (if dynamic then dynamic_contents ∷ [] else []))

classify_alias_type : Text → Fields → Fields → Classified
unfolding ordinary_alias matches_alias static_alias get text_eq same_value
classify_alias_type alias_type row native =
    let name = get (codes "name") row in
    if matches_alias alias_type row native (static_alias static_aliases name)
    then from_source system_builtin (native_static_child ∷ persistent_configuration ∷ [])
        (codes "firewall/alias/static-child")
    else if text_eq alias_type (codes "external") && same_value (get (codes "uuid") native) name
    then unclassified (persistent_configuration ∷ dynamic_contents ∷ [])
    else if text_eq alias_type (codes "internal")
    then classified system_builtin read_only (native_internal_type ∷ persistent_configuration ∷ [])
        none (persistent_configuration ∷ [])
    else ordinary_alias alias_type

classify_alias : Value → Fields → Fields → Classified
unfolding classify_alias_type is_in text_eq
classify_alias (str alias_type) row native =
    if is_in alias_type alias_types
    then classify_alias_type alias_type row native
    else unclassified (persistent_configuration ∷ [])
classify_alias _ row native = unclassified (persistent_configuration ∷ [])

-- `native.get("ifname", native.get("name"))`
native_name : Fields → Value
unfolding get has_key
native_name native =
    if has_key (codes "ifname") native
    then get (codes "ifname") native
    else get (codes "name") native

pub matches_group : Fields → Fields → Option Text → Bool
unfolding get text_eq same_value native_name
matches_group row native none = false
matches_group row native (some description) =
    let name = get (codes "name") row in
    same_value (native_name native) name
    && (same_value (get (codes "uuid") native) name
        && (same_value (get (codes "sequence") row) (int (pos 10))
            && (is_text description (get (codes "description") row)
                && same_value (get (codes "members") row) (list nil))))

has_names : Option (List Text) → Bool
has_names (some (t ∷ ts)) = true
has_names _ = false

-- `isinstance(members, list) and members and all(...)`
pub has_members : Value → Bool
unfolding has_names all_full
has_members (list vs) = has_names (all_full (to_list vs))
has_members _ = false

classify_group : Fields → Fields → Classified
unfolding matches_group static_group has_members get
classify_group row native =
    if matches_group row native (static_group static_groups (get (codes "name") row))
    then from_source derived (native_static_child ∷ persistent_configuration ∷ [])
        (codes "firewall/group/static-child")
    else if has_members (get (codes "members") row)
    then classified user_config independent (supported_model ∷ persistent_configuration ∷ []) none
        (persistent_configuration ∷ [])
    else unclassified (persistent_configuration ∷ [])

classify_other : Text → Fields → Classified
unfolding get text_eq
classify_other resource row =
    if text_eq resource (codes "gateways") && not (truthy (get (codes "gateway") row))
    then classified unknown unknown_management (supported_model ∷ persistent_configuration ∷ [])
        (some evidence_missing) (persistent_configuration ∷ runtime_state ∷ [])
    else classified user_config independent (supported_model ∷ persistent_configuration ∷ []) none
        (persistent_configuration ∷ [])

has_identity : List Text → Bool
has_identity [] = false
has_identity (t ∷ ts) = true

-- The classification before `_finish`.
by_resource : Text → Fields → List Text → Fields → Classified
unfolding classify_alias classify_group classify_other has_identity is_in text_eq get
by_resource resource row identity native =
    if text_eq resource (codes "aliases")
    then classify_alias (get (codes "type") row) row native
    else if text_eq resource (codes "interface-groups")
    then classify_group row native
    else if is_in resource crud_resources && has_identity identity
    then classify_other resource row
    else unclassified (persistent_configuration ∷ [])

-- `native_row or row`
unfoldable pub evidence_row : Fields → Option Fields → Fields
evidence_row row (some (field k v rest)) = field k v rest
evidence_row row _ = row

-- `identity` is empty where the source has `None`.
unfoldable pub classify_resource : Text → Fields → List Text → Option Fields → Classified
unfolding by_resource finish_by get
classify_resource resource row identity native_row =
    let native = evidence_row row native_row in
    finish_by (get (codes "origin") native) (by_resource resource row identity native)
