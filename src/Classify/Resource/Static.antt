-- ===== src/Classify/Resource/Static.antt =====
-- The evidence of a row that src/iaas/opnsense_workflow/classification.py tests for: the fixed fields of
-- the native children, and named members.
use iaas.Prelude.{
  both, ℕ, ◌≡◌, refl, ◌⊎◌, inl, inr, ap, Bool, true, false, Option, none, some, List, [], ◌∷◌, Text,
  codes, text_eq, text_eq_iff, Bool-cases, Option-cases, ◌∙◌, if◌then◌else◌, arith,
}
use iaas.Prelude.Int.{pos}
use iaas.Value.{
  is_true-bool, Value, Values, Fields, null, bool, int, float_integer, float_other, str, list, dict,
  object, nil, cons, get, has_key, is_text, is_text_iff, all_full, to_list,
}
use iaas.Classify.{static_groups, static_aliases, same_value}
use iaas.Classify.Resource.{
  matches_alias, static_alias, matches_group, static_group, native_name, has_members, has_names,
}

-- One of the rows of a table.
abbrev pub IsRowOf : {A : Type 0} → A → List A → Type 0
IsRowOf a [] = ⊥
IsRowOf a (x ∷ xs) = (x ≡ a) ⊎ IsRowOf a xs

-- Texts that are not empty.
abbrev pub AreFilledTexts : List Value → Type 0
AreFilledTexts [] = Unit
AreFilledTexts (v ∷ vs) = ((c : ℕ) × (t : Text) × (v ≡ str (c ∷ t))) × AreFilledTexts vs

-- The row and the native row are one of the four static aliases in every fixed field.
pub record IsStaticAlias (row native : Fields) : Type 0 where
  pub name : Text
  pub description : Text
  pub expire : Text
  pub fixed : IsRowOf (name, description, expire) static_aliases
  pub row_name : get (codes "name") row ≡ str name
  pub native_name : get (codes "name") native ≡ str name
  pub uuid : get (codes "uuid") native ≡ str name
  pub external : get (codes "type") row ≡ str (codes "external")
  pub row_description : get (codes "description") row ≡ str description
  pub native_expire : get (codes "expire") native ≡ str expire
  pub content : get (codes "content") row ≡ list nil
  pub enabled : get (codes "enabled") row ≡ bool true

-- The row and the native row are one of the three static groups in every fixed field.
pub record IsStaticGroup (row native : Fields) : Type 0 where
  pub name : Text
  pub description : Text
  pub fixed : IsRowOf (name, description) static_groups
  pub row_name : get (codes "name") row ≡ str name
  pub ifname :
      if has_key (codes "ifname") native
      then get (codes "ifname") native ≡ str name
      else (get (codes "name") native ≡ str name)
  pub uuid : get (codes "uuid") native ≡ str name
  pub sequence :
      (get (codes "sequence") row ≡ int (pos 10))
      ⊎ (get (codes "sequence") row ≡ float_integer (pos 10))
  pub row_description : get (codes "description") row ≡ str description
  pub members : get (codes "members") row ≡ list nil

same_value-str : (v : Value) (t : Text) → same_value v (str t) ≡ true → v ≡ str t
unfolding same_value
same_value-str (str s) t h = ap str ((text_eq_iff s t).0 h)
same_value-str (list nil) t h = cc
same_value-str (list (cons v vs)) t h = cc
same_value-str null t h = cc
same_value-str (bool true) t h = cc
same_value-str (bool false) t h = cc
same_value-str (int n) t h = cc
same_value-str (float_integer n) t h = cc
same_value-str float_other t h = cc
same_value-str (dict fs) t h = cc
same_value-str object t h = cc

pub same_value_refl : (t : Text) → same_value (str t) (str t) ≡ true
unfolding same_value
same_value_refl t = (text_eq_iff t t).1 refl

same_value-nil : (v : Value) → same_value v (list nil) ≡ true → v ≡ list nil
unfolding same_value
same_value-nil (list nil) h = refl
same_value-nil (list (cons v vs)) h = cc
same_value-nil (str s) h = cc
same_value-nil null h = cc
same_value-nil (bool true) h = cc
same_value-nil (bool false) h = cc
same_value-nil (int n) h = cc
same_value-nil (float_integer n) h = cc
same_value-nil float_other h = cc
same_value-nil (dict fs) h = cc
same_value-nil object h = cc

same_value-ten :
    (v : Value)
    → same_value v (int (pos 10)) ≡ true
    → (v ≡ int (pos 10)) ⊎ (v ≡ float_integer (pos 10))
unfolding same_value
same_value-ten (int n) h = let ten : n ≡ pos 10 = ground arith in inl (ap int ten)
same_value-ten (float_integer n) h =
    let ten : n ≡ pos 10 = ground arith in inr (ap float_integer ten)
same_value-ten (list nil) h = cc
same_value-ten (list (cons v vs)) h = cc
same_value-ten (str s) h = cc
same_value-ten null h = cc
same_value-ten (bool true) h = cc
same_value-ten (bool false) h = cc
same_value-ten float_other h = cc
same_value-ten (dict fs) h = cc
same_value-ten object h = cc

static_alias-IsRowOf :
    (table : List (Text × Text × Text)) (v : Value) (d e : Text)
    → static_alias table v ≡ some (d, e)
    → (n : Text) × (v ≡ str n) × IsRowOf (n, d, e) table
unfolding static_alias
static_alias-IsRowOf [] v d e h = cc
static_alias-IsRowOf ((name, description, expire) ∷ rest) (str s) d e h =
    elim (Bool-cases (text_eq name s)) [
      | inl y ↦
          let same : description ≡ d = cc (rw y at h) in
          let expiry : expire ≡ e = cc (rw y at h) in
          (s, refl, inl (λ i. ((text_eq_iff name s).0 y i, same i, expiry i)))
      | inr y ↦
          let (n, found, fixed) = static_alias-IsRowOf rest (str s) d e (rw y at h) in
          (n, found, inr fixed)
    ]
static_alias-IsRowOf (r ∷ rest) _ d e h = cc

static_group-IsRowOf :
    (table : List (Text × Text)) (v : Value) (d : Text)
    → static_group table v ≡ some d
    → (n : Text) × (v ≡ str n) × IsRowOf (n, d) table
unfolding static_group
static_group-IsRowOf [] v d h = cc
static_group-IsRowOf ((name, description) ∷ rest) (str s) d h = elim (Bool-cases (text_eq name s)) [
  | inl y ↦
      let same : description ≡ d = cc (rw y at h) in
      (s, refl, inl (λ i. ((text_eq_iff name s).0 y i, same i)))
  | inr y ↦
      let (n, found, fixed) = static_group-IsRowOf rest (str s) d (rw y at h) in
      (n, found, inr fixed)
]
static_group-IsRowOf (r ∷ rest) _ d h = cc

module _ (row native : Fields) where
  pub matches_alias-IsStaticAlias :
      (t : Text) (o : Option (Text × Text))
      → get (codes "type") row ≡ str t
      → static_alias static_aliases (get (codes "name") row) ≡ o
      → matches_alias t row native o ≡ true
      → IsStaticAlias row native
  unfolding matches_alias
  matches_alias-IsStaticAlias t none given found h = cc
  matches_alias-IsStaticAlias t (some (d, e)) given found h =
      let name = get (codes "name") row in
      let (n, row_name, fixed) = static_alias-IsRowOf static_aliases name d e found in
      let (uuid, h1) = both (same_value (get (codes "uuid") native) name) _ h in
      let (native_name, h2) = both (same_value (get (codes "name") native) name) _ h1 in
      let (external, h3) = both (text_eq t (codes "external")) _ h2 in
      let (row_description, h4) = both (is_text d (get (codes "description") row)) _ h3 in
      let (native_expire, h5) = both (is_text e (get (codes "expire") native)) _ h4 in
      let (content, enabled) = both (same_value (get (codes "content") row) (list nil)) _ h5 in
      record {
        name = n;
        description = d;
        expire = e;
        fixed = fixed;
        row_name = row_name;
        native_name = same_value-str (get (codes "name") native) n (rw row_name at native_name);
        uuid = same_value-str (get (codes "uuid") native) n (rw row_name at uuid);
        external = given ∙ ap str ((text_eq_iff t (codes "external")).0 external);
        row_description = (is_text_iff d (get (codes "description") row)).0 row_description;
        native_expire = (is_text_iff e (get (codes "expire") native)).0 native_expire;
        content = same_value-nil (get (codes "content") row) content;
        enabled = is_true-bool (get (codes "enabled") row) enabled;
      }

  named_by :
      (b : Bool) (n : Text)
      → same_value (if b then get (codes "ifname") native else get (codes "name") native) (str n)
        ≡ true
      → if b then get (codes "ifname") native ≡ str n else (get (codes "name") native ≡ str n)
  named_by true n h = same_value-str (get (codes "ifname") native) n h
  named_by false n h = same_value-str (get (codes "name") native) n h

  pub matches_group-IsStaticGroup :
      (o : Option Text)
      → static_group static_groups (get (codes "name") row) ≡ o
      → matches_group row native o ≡ true
      → IsStaticGroup row native
  unfolding matches_group native_name
  matches_group-IsStaticGroup none found h = cc
  matches_group-IsStaticGroup (some d) found h =
      let name = get (codes "name") row in
      let (n, row_name, fixed) = static_group-IsRowOf static_groups name d found in
      let (ifname, h1) = both (same_value (native_name native) name) _ h in
      let (uuid, h2) = both (same_value (get (codes "uuid") native) name) _ h1 in
      let (sequence, h3) = both (same_value (get (codes "sequence") row) (int (pos 10))) _ h2 in
      let (row_description, members) = both (is_text d (get (codes "description") row)) _ h3 in
      record {
        name = n;
        description = d;
        fixed = fixed;
        row_name = row_name;
        ifname = named_by (has_key (codes "ifname") native) n (rw row_name at ifname);
        uuid = same_value-str (get (codes "uuid") native) n (rw row_name at uuid);
        sequence = same_value-ten (get (codes "sequence") row) sequence;
        row_description = (is_text_iff d (get (codes "description") row)).0 row_description;
        members = same_value-nil (get (codes "members") row) members;
      }

all_full-AreFilledTexts :
    (vs : List Value) (ts : List Text) → all_full vs ≡ some ts → AreFilledTexts vs
unfolding all_full
all_full-AreFilledTexts [] ts h = tt
all_full-AreFilledTexts (str (c ∷ t) ∷ vs) ts h = elim (Option-cases (all_full vs)) [
  | inl e ↦ absurd (cc (rw e at h))
  | inr (us, e) ↦ ((c, t, refl), all_full-AreFilledTexts vs us e)
]
all_full-AreFilledTexts (str [] ∷ vs) ts h = cc
all_full-AreFilledTexts (_ ∷ vs) ts h = cc

pub has_members-AreFilledTexts :
    (v : Value)
    → has_members v ≡ true
    → (w : Value) × (vs : Values) × (v ≡ list (cons w vs)) × AreFilledTexts (w ∷ to_list vs)
unfolding has_members has_names
has_members-AreFilledTexts (list nil) h = cc
has_members-AreFilledTexts (list (cons w vs)) h = elim (Option-cases (all_full (w ∷ to_list vs))) [
  | inl e ↦ absurd (cc (rw e at h))
  | inr (ts, e) ↦ (w, vs, refl, all_full-AreFilledTexts (w ∷ to_list vs) ts e)
]
has_members-AreFilledTexts _ h = cc
