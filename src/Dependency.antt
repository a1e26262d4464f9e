-- ===== src/Dependency.antt =====
-- The references between objects of src/iaas/opnsense_workflow/planning.py. `none` is an error; a set
-- is a list. `is_network` is whether `ipaddress.ip_network(value, strict=False)` takes the text, and
-- `printed` is Python's `str` of a value that is not a text. A configuration is a mapping or is
-- missing, and a label is a text.

pub mod Check
pub mod Stages
mod Examples
use iaas.Prelude.{
  ℕ, Bool, true, false, not, ◌&&◌, ◌||◌, Option, none, some, List, [], ◌∷◌, ◌++◌, Text, codes,
  text_eq, if◌then◌else◌, any, all, is_in, map, ◌==◌,
}
use iaas.Prelude.Unicode.{is_digit}
use iaas.Value.{
  Value, Fields, str, list, dict, end, field, get, has_key, is_text, to_list, full_text,
}
use iaas.Admission.{reference_label}

abbrev pub consumers : List Text
consumers = codes "filter-rules" ∷ codes "dnat" ∷ codes "one-to-one-nat" ∷ []

abbrev pub referred : List Text
referred = codes "aliases" ∷ codes "interface-groups" ∷ codes "gateways" ∷ []

-- `category + ':' + name`
abbrev pub reference : Text → Text → Text
reference category name = category ++ b':' ∷ name

unfoldable pub text_of : Value → Option Text
text_of (str s) = some s
text_of _ = none

named : Text → Option Text → Option (Option Text)
named resource none = none
named resource (some name) = some (some (reference resource name))

-- `some none` where the resource has no label.
unfoldable pub label : Text → Fields → Option (Option Text)
unfolding named text_of get is_in
label resource row =
    if is_in resource referred then named resource (text_of (get (codes "name") row)) else some none

-- The texts of a list.
texts_in : List Value → Option (List Text)
unfolding text_of
texts_in [] = some []
texts_in (v ∷ vs) =
    let rest = texts_in vs in
    elim (text_of v) [ none ↦ none | some t ↦ elim rest [ none ↦ none | some ts ↦ some (t ∷ ts) ] ]

unfoldable pub texts_of : Value → Option (List Text)
unfolding texts_in
texts_of (list vs) = texts_in (to_list vs)
texts_of _ = none

-- `row.get(key, [])`, with a value that is not a list as the list of it.
field_values : Text → Fields → List Value
unfolding get has_key
field_values key row = if has_key key row then as_list (get key row) else []
  where
    as_list : Value → List Value
    as_list (list vs) = to_list vs
    as_list v = v ∷ []

unfoldable pub is_decimal : Text → Bool
unfolding is_digit
is_decimal [] = false
is_decimal (c ∷ s) = all is_digit (c ∷ s)

-- The text up to the first `mark`, and the rest behind it, if there is one.
pub cut_at : ℕ → Text → Text × Option Text
cut_at mark [] = ([], none)
cut_at mark (c ∷ s) =
    let (before, rest) = cut_at mark s in if c == mark then ([], some s) else (c ∷ before, rest)

-- `value.split(mark)`
split_at : ℕ → Text → List Text
split_at mark [] = [] ∷ []
split_at mark (c ∷ s) =
    let rest = split_at mark s in
    if c == mark then [] ∷ rest else elim rest [ [] ↦ (c ∷ []) ∷ [] | t ∷ ts ↦ (c ∷ t) ∷ ts ]

-- `'-' in value and all(part.isdecimal() for part in value.split('-'))`
is_port_range : Text → Bool
unfolding split_at is_decimal
is_port_range value = any (λ c. c == b'-') value && all is_decimal (split_at b'-' value)

-- The values that name no alias, networks apart.
is_literal : Text → Bool
unfolding is_in is_decimal is_port_range
is_literal [] = true
is_literal value =
    is_in value (codes "any" ∷ codes "(self)" ∷ []) || (is_decimal value || is_port_range value)

abbrev pub reference_fields : List Text
reference_fields =
    codes "source_net"
    ∷ codes "destination_net"
    ∷ codes "source_port"
    ∷ codes "destination_port"
    ∷ codes "target"
    ∷ codes "external"
    ∷ codes "local_port"
    ∷ []

-- The gateway of a filter rule: `some []` where it has none.
gateway_reference : Text → Value → Option (List Text)
unfolding is_in text_eq
gateway_reference resource gateway =
    if text_eq resource (codes "filter-rules") then of_value gateway else some []
  where
    of_value : Value → Option (List Text)
    of_value Value.null = some []
    of_value (str g) =
        if is_in g ([] ∷ codes "default" ∷ codes "*" ∷ [])
        then some []
        else some (reference (codes "gateways") g ∷ [])
    of_value _ = none

interface_names : Text → Fields → Option (List Text)
unfolding texts_in field_values
interface_names key row = texts_in (field_values key row)

prefixed : Text → Option (List Text) → Option (List Text)
prefixed category none = none
prefixed category (some ts) = some (map (reference category) ts)

joined : List Text → Option (List Text) → Option (List Text) → Option (List Text)
joined xs (some ys) (some zs) = some (xs ++ ys ++ zs)
joined xs _ _ = none

single : Option Text → Option (List Text)
single none = none
single (some t) = some (t ∷ [])

or_no_list : Text → Fields → Option (List Text)
unfolding has_key get texts_of
or_no_list key row = if has_key key row then texts_of (get key row) else some []

-- `obj.get('configuration')`
unfoldable pub configuration : Fields → Option Fields
unfolding get
configuration obj = elim (get (codes "configuration") obj) [ dict c ↦ some c | _ ↦ none ]

-- `str(value)`
shown : (Value → Text) → Value → Text
shown printed (str s) = s
shown printed v = printed v

module _ (is_network : Text → Bool) (printed : Value → Text) where
  token_references : List Value → List Text
  unfolding shown is_literal
  token_references [] = []
  token_references (v ∷ vs) =
      let rest = token_references vs in
      if is_literal (shown printed v) || is_network (shown printed v)
      then rest
      else reference (codes "aliases") (shown printed v) ∷ rest

  fields_references : List Text → Fields → List Text
  unfolding token_references field_values
  fields_references [] row = []
  fields_references (key ∷ keys) row =
      token_references (field_values key row) ++ fields_references keys row

  unfoldable pub references : Text → Fields → Option (List Text)
  unfolding fields_references gateway_reference interface_names prefixed joined single text_of
      texts_of or_no_list get is_in text_eq
  references resource row =
      if text_eq resource (codes "aliases")
        && is_text (codes "networkgroup") (get (codes "type") row)
      then prefixed (codes "aliases") (texts_of (get (codes "content") row))
      else if text_eq resource (codes "interface-groups")
      then prefixed (codes "interface-groups") (or_no_list (codes "members") row)
      else if is_in resource (codes "gateways" ∷ codes "vips" ∷ [])
      then prefixed (codes "interface-groups") (single (text_of (get (codes "interface") row)))
      else if is_in resource consumers
      then joined (fields_references reference_fields row)
          (gateway_reference resource (get (codes "gateway") row))
          (prefixed (codes "interface-groups") (interface_names (codes "interface") row))
      else some []

  unfoldable pub object_references : Fields → Option (List Text)
  unfolding references texts_of text_of get configuration
  object_references obj = elim (configuration obj) [
    | none ↦ texts_of (get (codes "references") obj)
    | some config ↦ elim (text_of (get (codes "resource") obj)) [
      | none ↦ none
      | some resource ↦ references resource config
    ]
  ]
