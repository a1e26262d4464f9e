-- ===== src/Classify/Support/Literal.antt =====
-- What a support of `reference_support` of classification.py says of its object.
use iaas.Prelude.{
  ◌≡◌, ◌≢◌, refl, ap, subst, ◌⊎◌, inl, inr, Bool, true, false, not, ◌&&◌, ◌||◌, Option, none, some,
  List, [], ◌∷◌, Text, codes, text_eq, text_eq_iff, if◌then◌else◌, all, All, arith, Bool-cases,
}
use iaas.Value.{Value, Fields, str, get, full_text}
use iaas.Classify.{
  Origin, user_config, system_builtin, derived, unknown, Classification, static_groups,
}
use iaas.Classify.Support.{
  address, port, interface_group, Family, inet, inet6, Support, address_support, alias_support,
  common_family, group_support, has_family, is_derived, is_port, is_static_name, is_system, members,
  one_family, reference_support,
}

-- What a support says of the object.
abbrev pub IsSupported :
    (Text → Option Family) → Text → Fields → Classification → Option Support → Type 0
IsSupported network_version resource row c none = Unit
IsSupported network_version resource row c (some s) =
    ((c.origin ≡ derived)
      × (resource ≡ codes "interface-groups")
      × (s.roles ≡ interface_group ∷ []))
    ⊎ ((c.origin ≡ system_builtin)
        × (resource ≡ codes "aliases")
        × (members (get (codes "content") row) ≢ [])
        × (((s.roles ≡ port ∷ []) × (all is_port (members (get (codes "content") row)) ≡ true))
            ⊎ ((f : Family) × (s.roles ≡ address ∷ [])
                × (s.ip_protocol ≡ some f)
                × All (λ v. network_version v ≡ some f) (members (get (codes "content") row)))))

has_family-≡ : (f : Family) (o : Option Family) → has_family f o ≡ true → o ≡ some f
unfolding has_family
has_family-≡ f none h = cc
has_family-≡ inet (some inet) h = refl
has_family-≡ inet6 (some inet6) h = refl
has_family-≡ inet (some inet6) h = cc
has_family-≡ inet6 (some inet) h = cc

all-has_family :
    (network_version : Text → Option Family) (f : Family) (values : List Text)
    → all (λ v. has_family f (network_version v)) values ≡ true
    → All (λ v. network_version v ≡ some f) values
all-has_family network_version f [] h = tt
all-has_family network_version f (v ∷ vs) h = (
  has_family-≡ f (network_version v) (ground arith),
  all-has_family network_version f vs (ground arith),
)

one_family-All :
    (network_version : Text → Option Family) (values : List Text) (o : Option Family) (f : Family)
    → one_family network_version values o ≡ some f
    → (o ≡ some f) × All (λ v. network_version v ≡ some f) values
unfolding one_family
one_family-All network_version values none f h = cc
one_family-All network_version values (some g) f h =
    elim (Bool-cases (all (λ v. has_family g (network_version v)) values)) [
      | inl e ↦
          let same : g ≡ f = cc (rw e at h) in
          (
            ap some same,
            subst (λ k. All (λ v. network_version v ≡ some k) values) same
                (all-has_family network_version g values e),
          )
      | inr e ↦ absurd (cc (rw e at h))
    ]

common_family-All :
    (network_version : Text → Option Family) (values : List Text) (f : Family)
    → common_family network_version values ≡ some f
    → All (λ v. network_version v ≡ some f) values
unfolding common_family
common_family-All network_version [] f h = cc
common_family-All network_version (v ∷ vs) f h =
    one_family-All network_version vs (network_version v) f h

is_derived-≡ : (o : Origin) → is_derived o ≡ true → o ≡ derived
unfolding is_derived
is_derived-≡ derived h = refl
is_derived-≡ user_config h = cc
is_derived-≡ system_builtin h = cc
is_derived-≡ unknown h = cc

is_system-≡ : (o : Origin) → is_system o ≡ true → o ≡ system_builtin
unfolding is_system
is_system-≡ system_builtin h = refl
is_system-≡ user_config h = cc
is_system-≡ derived h = cc
is_system-≡ unknown h = cc

module _ (network_version : Text → Option Family) (resource : Text) (row : Fields)
    (c : Classification) where
  if-IsSupported :
      (b : Bool) (x y : Option Support)
      → (b ≡ true → IsSupported network_version resource row c x)
      → (b ≡ false → IsSupported network_version resource row c y)
      → IsSupported network_version resource row c (if b then x else y)
  if-IsSupported true x y h k = h refl
  if-IsSupported false x y h k = k refl

  group_support-IsSupported :
      (v : Value)
      → c.origin ≡ derived
      → resource ≡ codes "interface-groups"
      → IsSupported network_version resource row c (group_support v)
  unfolding group_support
  group_support-IsSupported (str name) o r =
      if-IsSupported (is_static_name static_groups name) _ none (λ e. inl (o, r, refl)) (λ e. tt)
  group_support-IsSupported _ o r = tt

  address-IsSupported :
      (name : Text) (o : Option Family)
      → c.origin ≡ system_builtin
      → resource ≡ codes "aliases"
      → members (get (codes "content") row) ≢ []
      → common_family network_version (members (get (codes "content") row)) ≡ o
      → IsSupported network_version resource row c (address_support name o)
  unfolding address_support
  address-IsSupported name none origin r n e = tt
  address-IsSupported name (some f) origin r n e =
      inr (origin, r, n, inr (f, refl, refl, common_family-All network_version _ f e))

  alias-IsSupported :
      (name : Option Text) (values : List Text)
      → members (get (codes "content") row) ≡ values
      → c.origin ≡ system_builtin
      → resource ≡ codes "aliases"
      → IsSupported network_version resource row c (alias_support network_version name values)
  unfolding alias_support
  alias-IsSupported none values e o r = tt
  alias-IsSupported (some name) [] e o r = tt
  alias-IsSupported (some name) (v ∷ vs) e o r = elim (Bool-cases (all is_port (v ∷ vs))) [
    | inl p ↦ rw p (inr (o, r, some_members, inl (refl, rw e p)))
    | inr p ↦ rw p (
        address-IsSupported name (common_family network_version (v ∷ vs)) o r some_members
          (rw e refl))
  ]
    where
      some_members : members (get (codes "content") row) ≢ []
      some_members n = cc (e, n)

-- A support is given only to a derived interface group, as a group, and to a system alias whose
-- content is not empty: as ports if all its entries are port literals, and as addresses if they are
-- not and all are networks of the one version that it names.
pub reference_support-IsSupported :
    (network_version : Text → Option Family) (resource : Text) (row : Fields) (c : Classification)
    → IsSupported network_version resource row c (reference_support network_version resource row c)
unfolding reference_support
reference_support-IsSupported network_version resource row c =
    let g = text_eq_iff resource (codes "interface-groups") in
    let a = text_eq_iff resource (codes "aliases") in
    if-IsSupported network_version resource row c
      (text_eq resource (codes "interface-groups") && is_derived c.origin) _ _
      (λ e.
        group_support-IsSupported network_version resource row c (get (codes "name") row)
          (is_derived-≡ c.origin (ground (arith, e))) (g.0 (ground (arith, e))))
      (λ e.
        if-IsSupported network_version resource row c
          (not (text_eq resource (codes "aliases")) || not (is_system c.origin)) none _ (λ k. tt)
          (λ k.
            alias-IsSupported network_version resource row c (full_text (get (codes "name") row))
              (members (get (codes "content") row)) refl (is_system-≡ c.origin (ground (arith, k)))
              (a.0 (ground (arith, k)))))
