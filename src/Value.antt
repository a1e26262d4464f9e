-- ===== src/Value.antt =====
-- The dynamic Python values that the sources take from JSON documents and provider responses. A
-- `dict` has text keys, in insertion order. A `float` is the integer that it equals, or other.
use iaas.Prelude.{
  zero, ◌≡◌, ◌↔◌, refl, ap, Bool, true, false, ◌||◌, Option, none, some, List, [], ◌∷◌, Text,
  text_eq, text_eq_iff, if◌then◌else◌,
}
use iaas.Prelude.Int.{ℤ, pos}

mutual
  pub data Value : Type 0 where
    null : Value
    bool : Bool → Value
    int : ℤ → Value
    float_integer : ℤ → Value
    float_other : Value
    str : Text → Value
    list : Values → Value
    dict : Fields → Value
    object : Value  -- a value of any other type

  pub data Values : Type 0 where
    nil : Values
    cons : Value → Values → Values

  pub data Fields : Type 0 where
    end : Fields
    field : Text → Value → Fields → Fields

-- `fields.get(key)`: `None` if the key is missing.
unfoldable pub get : Text → Fields → Value
unfolding text_eq
get key end = null
get key (field k v fs) = if text_eq k key then v else get key fs

-- `key in fields`
unfoldable pub has_key : Text → Fields → Bool
unfolding text_eq
has_key key end = false
has_key key (field k v fs) = text_eq k key || has_key key fs

abbrev pub to_list : Values → List Value
to_list nil = []
to_list (cons v vs) = v ∷ to_list vs

abbrev pub items : Fields → List (Text × Value)
items end = []
items (field k v fs) = (k, v) ∷ items fs

-- `isinstance(value, str) and value`
abbrev pub full_text : Value → Option Text
full_text (str []) = none
full_text (str (c ∷ s)) = some (c ∷ s)
full_text _ = none

-- `value is None`
abbrev pub is_null : Value → Bool
is_null null = true
is_null _ = false

-- `value is True`, `value is False`
abbrev pub is_true : Value → Bool
is_true (bool true) = true
is_true _ = false

abbrev pub is_false : Value → Bool
is_false (bool false) = true
is_false _ = false

-- `value is not None and type(value) is not bool`
abbrev pub is_bad_flag : Value → Bool
is_bad_flag null = false
is_bad_flag (bool b) = false
is_bad_flag _ = true

-- `value == text`
abbrev pub is_text : Text → Value → Bool
is_text t (str s) = text_eq s t
is_text t _ = false

pub is_text_iff : (t : Text) (v : Value) → (is_text t v ≡ true) ↔ (v ≡ str t)
is_text_iff t (str s) = (λ h. ap str ((text_eq_iff s t).0 h), λ e. (text_eq_iff s t).1 (cc e))
is_text_iff t null = (λ h. cc, λ e. cc)
is_text_iff t (bool b) = (λ h. cc, λ e. cc)
is_text_iff t (int n) = (λ h. cc, λ e. cc)
is_text_iff t (float_integer n) = (λ h. cc, λ e. cc)
is_text_iff t float_other = (λ h. cc, λ e. cc)
is_text_iff t (list vs) = (λ h. cc, λ e. cc)
is_text_iff t (dict fs) = (λ h. cc, λ e. cc)
is_text_iff t object = (λ h. cc, λ e. cc)

-- `bool(value)`; a float other than an integer is not zero.
abbrev pub truthy : Value → Bool
truthy null = false
truthy (bool b) = b
truthy (int (pos zero)) = false
truthy (int _) = true
truthy (float_integer (pos zero)) = false
truthy (float_integer _) = true
truthy (str []) = false
truthy (list nil) = false
truthy (dict end) = false
truthy _ = true

pub is_true-bool : (v : Value) → is_true v ≡ true → v ≡ bool true
is_true-bool (bool true) h = refl
is_true-bool (bool false) h = cc
is_true-bool _ h = cc

-- The texts of a list, `none` if one of its values is not a text or is empty.
unfoldable pub all_full : List Value → Option (List Text)
all_full [] = some []
all_full (v ∷ vs) =
    let rest = all_full vs in
    elim (full_text v) [
      | none ↦ none
      | some t ↦ elim rest [ none ↦ none | some ts ↦ some (t ∷ ts) ]
    ]
