-- ===== src/Admission/Reference.antt =====
-- What `require_reference` of src/iaas/opnsense_workflow/admission.py says of an object.
use iaas.Prelude.{
  both, ℕ, ◌≡◌, refl, ◌⊎◌, ap, subst, inl, inr, true, false, ◌||◌, Option, none, some, List, [],
  ◌∷◌, Text, codes, text_eq, text_eq_iff, Bool-cases, All, any, is_in, arith,
}
use iaas.Value.{
  is_true-bool, Value, Values, Fields, null, bool, str, list, dict, get, is_text, is_text_iff,
  is_true, to_list,
}
use iaas.Admission.{
  all_roles, is_label, is_flag, is_named, supported_basis, one_of, list_of, all_of, is_filled,
  validate_classification, has_role, is_support, supported, support_of, reference_support,
  fits_family, permits, require_reference, allowed_roles,
}
use iaas.Admission.Evidence.{validated}

-- One of the texts of a list.
abbrev pub HasText : Text → List Value → Type 0
HasText t [] = ⊥
HasText t (v ∷ vs) = (v ≡ str t) ⊎ HasText t vs

-- A role that a resource may support: an interface group that of a group, an alias the other two.
abbrev pub IsRoleOf : Value → Value → Type 0
IsRoleOf resource v =
    ((resource ≡ str (codes "interface-groups")) × (v ≡ str (codes "interface-group")))
    ⊎ ((resource ≡ str (codes "aliases"))
        × ((v ≡ str (codes "address")) ⊎ (v ≡ str (codes "port"))))

-- The evidence of a reference in a role.
pub record IsReference (obj : Fields) (role : Text) (ip_protocol : Option Text) : Type 0 where
  pub classification : Fields
  pub support : Fields
  pub roles : Values
  pub given : get (codes "reference_support") obj ≡ dict support
  pub classified : get (codes "classification") obj ≡ dict classification
  pub system :
      (get (codes "origin") classification ≡ str (codes "system_builtin"))
      ⊎ (get (codes "origin") classification ≡ str (codes "derived"))
  pub given_roles : get (codes "roles") support ≡ list roles
  pub allowed : All (IsRoleOf (get (codes "resource") obj)) (to_list roles)
  pub in_role : HasText role (to_list roles)
  pub dependencies : get (codes "dependencies_complete") support ≡ bool true
  pub family :
      (c : ℕ) (protocol : Text)
      → role ≡ codes "address"
      → ip_protocol ≡ some (c ∷ protocol)
      → (get (codes "ip_protocol") support ≡ str (codes "inet46"))
        ⊎ (get (codes "ip_protocol") support ≡ str (c ∷ protocol))

one_of_two : (t u : Text) (v : Value) → one_of (t ∷ u ∷ []) v ≡ true → (v ≡ str t) ⊎ (v ≡ str u)
unfolding one_of is_in
one_of_two t u (str s) h = elim (Bool-cases (text_eq s t)) [
  | inl e ↦ inl (ap str ((text_eq_iff s t).0 e))
  | inr e ↦
      let last : text_eq s u ≡ true = cc (last_of s (rw e at h)) in
      inr (ap str ((text_eq_iff s u).0 last))
]
  where
    last_of : (s : Text) → text_eq s u || false ≡ true → text_eq s u ≡ true
    last_of s h = ground arith
one_of_two t u _ h = cc

one_of_one : (t : Text) (v : Value) → one_of (t ∷ []) v ≡ true → v ≡ str t
unfolding one_of is_in
one_of_one t (str s) h =
    let only : text_eq s t ≡ true = ground arith in ap str ((text_eq_iff s t).0 only)
one_of_one t _ h = cc

has_role-HasText : (role : Text) (vs : List Value) → any (is_text role) vs ≡ true → HasText role vs
has_role-HasText role [] h = cc
has_role-HasText role (v ∷ vs) h = elim (Bool-cases (is_text role v)) [
  | inl e ↦ inl ((is_text_iff role v).0 e)
  | inr e ↦ inr (has_role-HasText role vs (rw e at h))
]

roles_in :
    (role : Text) (v : Value)
    → has_role role v ≡ true
    → (roles : Values) × (v ≡ list roles) × HasText role (to_list roles)
unfolding has_role
roles_in role (list vs) h = (vs, refl, has_role-HasText role (to_list vs) h)
roles_in role _ h = cc

-- The resource of a named object is one of two.
is_named-resource :
    (resource identity label : Value)
    → is_named resource identity label ≡ true
    → (resource ≡ str (codes "aliases")) ⊎ (resource ≡ str (codes "interface-groups"))
unfolding is_named one_of
is_named-resource (str resource) identity label h =
    one_of_two _ _ (str resource)
      (both (one_of (codes "aliases" ∷ codes "interface-groups" ∷ []) (str resource)) _ h).0
is_named-resource _ identity label h = cc

all_of-All :
    (resource : Value) (texts : List Text) (vs : List Value)
    → ((v : Value) → one_of texts v ≡ true → IsRoleOf resource v)
    → all_of texts vs ≡ true
    → All (IsRoleOf resource) vs
unfolding all_of
all_of-All resource texts [] f h = tt
all_of-All resource texts (v ∷ vs) f h =
    let (first, rest) = both (one_of texts v) _ h in
    (f v first, all_of-All resource texts vs f rest)

allowed-IsRoleOf :
    (resource : Value)
    → (resource ≡ str (codes "aliases")) ⊎ (resource ≡ str (codes "interface-groups"))
    → (vs : Values) → list_of (allowed_roles resource) (list vs) ≡ true
    → All (IsRoleOf resource) (to_list vs)
unfolding allowed_roles list_of text_eq
allowed-IsRoleOf resource (inl e) vs h =
    all_of-All resource (codes "address" ∷ codes "port" ∷ []) (to_list vs)
      (λ v k. inr (e, one_of_two _ _ v k)) (rw e at h)
allowed-IsRoleOf resource (inr e) vs h =
    all_of-All resource (codes "interface-group" ∷ []) (to_list vs)
      (λ v k. inl (e, one_of_one _ v k)) (rw e at h)

fits_family-given :
    (role : Text) (ip_protocol : Option Text) (support : Fields) (c : ℕ) (protocol : Text)
    → fits_family role ip_protocol support ≡ true
    → role ≡ codes "address"
    → ip_protocol ≡ some (c ∷ protocol)
    → (get (codes "ip_protocol") support ≡ str (codes "inet46"))
      ⊎ (get (codes "ip_protocol") support ≡ str (c ∷ protocol))
unfolding fits_family
fits_family-given role ip_protocol support c protocol h e given =
    let v = get (codes "ip_protocol") support in
    elim (Bool-cases (is_text (codes "inet46") v)) [
      | inl k ↦ inl ((is_text_iff (codes "inet46") v).0 k)
      | inr k ↦ inr (
          (is_text_iff (c ∷ protocol) v).0
            (rw ((text_eq_iff role (codes "address")).1 e, k) at (rw given at h)))
    ]

supported-some :
    (obj : Fields) (o : Option Fields) (v : Value) (support : Fields)
    → supported obj o v ≡ some (some support)
    → (c : Fields) × (o ≡ some c) × (v ≡ dict support) × (is_support obj c support ≡ true)
unfolding supported
supported-some obj none v support h = cc
supported-some obj (some c) (dict d) support h = elim (Bool-cases (is_support obj c d)) [
  | inl e ↦
      let same : d ≡ support = cc (rw e at h) in
      (c, refl, ap dict same, subst (λ x. is_support obj c x ≡ true) same e)
  | inr e ↦ absurd (cc (rw e at h))
]
supported-some obj (some c) _ support h = cc

support_of-some :
    (obj : Fields) (v : Value) (support : Fields)
    → support_of obj v ≡ some (some support)
    → (c : Fields) × (validate_classification (get (codes "classification") obj) ≡ some c)
      × (v ≡ dict support)
      × (is_support obj c support ≡ true)
unfolding support_of
support_of-some obj null support h = cc
support_of-some obj v support h =
    supported-some obj (validate_classification (get (codes "classification") obj)) v support h

is_support-allowed :
    (obj c support : Fields)
    → is_support obj c support ≡ true
    → (one_of (codes "system_builtin" ∷ codes "derived" ∷ []) (get (codes "origin") c) ≡ true)
      × (is_named
            (get (codes "resource") obj)
            (get (codes "identity") obj)
            (get (codes "label") support)
          ≡ true)
      × (list_of (allowed_roles (get (codes "resource") obj)) (get (codes "roles") support) ≡ true)
unfolding is_support
is_support-allowed obj c support h =
    let (system, h1) =
      both (one_of (codes "system_builtin" ∷ codes "derived" ∷ []) (get (codes "origin") c)) _ h in
    let (k2, h2) = both (is_label (get (codes "label") support)) _ h1 in
    let (k3, h3) = both (is_filled (get (codes "roles") support)) _ h2 in
    let (k4, h4) = both (list_of all_roles (get (codes "roles") support)) _ h3 in
    let (k5, h5) = both (is_filled (get (codes "basis") support)) _ h4 in
    let (k6, h6) = both (list_of supported_basis (get (codes "basis") support)) _ h5 in
    let (k7, h7) = both (is_flag (get (codes "dependencies_complete") support)) _ h6 in
    let (k8, h8) =
      both
        (is_named (get (codes "resource") obj) (get (codes "identity") obj)
          (get (codes "label") support))
        _ h7 in
    let (allowed, h9) =
      both (list_of (allowed_roles (get (codes "resource") obj)) (get (codes "roles") support)) _
        h8 in
    (system, k8, allowed)

permitted :
    (obj : Fields) (role : Text) (ip_protocol : Option Text) (o : Option (Option Fields))
    → reference_support obj ≡ o
    → permits role ip_protocol o ≡ true
    → IsReference obj role ip_protocol
unfolding permits reference_support
permitted obj role ip_protocol none e h = cc
permitted obj role ip_protocol (some none) e h = cc
permitted obj role ip_protocol (some (some support)) e h =
    let (c, classified, given, valid) =
      support_of-some obj (get (codes "reference_support") obj) support e in
    let (system, named, allowed) = is_support-allowed obj c support valid in
    let (dependencies, rest) = both (is_true (get (codes "dependencies_complete") support)) _ h in
    let (in_role, family) = both (has_role role (get (codes "roles") support)) _ rest in
    let (roles, given_roles, has) = roles_in role (get (codes "roles") support) in_role in
    record {
      classification = c;
      support = support;
      roles = roles;
      given = given;
      classified = (validated (get (codes "classification") obj) c classified).0;
      system = one_of_two _ _ (get (codes "origin") c) system;
      given_roles = given_roles;
      allowed =
          allowed-IsRoleOf (get (codes "resource") obj)
            (is_named-resource (get (codes "resource") obj) (get (codes "identity") obj)
              (get (codes "label") support) named)
            roles (rw given_roles at allowed);
      in_role = has;
      dependencies = is_true-bool (get (codes "dependencies_complete") support) dependencies;
      family = λ x protocol. fits_family-given role ip_protocol support x protocol family;
    }

-- `require_reference` accepts an object in a role only if its classification calls it of the system or
-- derived; its reference support lists the role, and only roles that its resource may have, with
-- complete dependencies; and for the role of an address with a given family, the support is of that
-- family or of both.
pub require_reference-IsReference :
    (obj : Fields) (role : Text) (ip_protocol : Option Text)
    → require_reference obj role ip_protocol ≡ true
    → IsReference obj role ip_protocol
unfolding require_reference
require_reference-IsReference obj role ip_protocol h =
    permitted obj role ip_protocol (reference_support obj) refl h
