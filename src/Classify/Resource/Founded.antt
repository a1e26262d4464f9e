-- ===== src/Classify/Resource/Founded.antt =====
-- What each management of `classify_resource` of src/iaas/opnsense_workflow/classification.py rests on.
use iaas.Prelude.{
  both, ◌≡◌, ◌≢◌, refl, ◌∙◌, ◌⊎◌, inl, inr, ap, sym, subst, Bool, true, false, not, ◌&&◌, ◌||◌,
  Option, none, List, [], ◌∷◌, Text, codes, text_eq, text_eq_iff, Bool-cases, if◌then◌else◌, is_in,
}
use iaas.Value.{Value, Values, Fields, str, list, cons, get, truthy, is_null, is_text, to_list}
use iaas.Classify.{
  Management, Basis, Classification, Classified, origin_text, finish_by, user_config,
  system_builtin, derived, unknown, independent, via_source, read_only, unknown_management,
  supported_model, static_groups, static_aliases, alias_types, crud_resources, same_value,
}
use iaas.Classify.Resource.{
  ordinary_alias, matches_alias, static_alias, classify_alias_type, classify_alias, matches_group,
  static_group, has_members, classify_group, classify_other, has_identity, by_resource,
  evidence_row, classify_resource,
}
use iaas.Classify.Resource.Static.{
  AreFilledTexts, IsStaticAlias, IsStaticGroup, same_value_refl, matches_alias-IsStaticAlias,
  matches_group-IsStaticGroup, has_members-AreFilledTexts,
}

module _ (resource : Text) (row : Fields) (identity : List Text) (native : Fields) where
  -- The evidence of a configuration with operations of its own: an alias of a known type that is
  -- neither internal nor a native child; a group with named members; or an object of another supported
  -- model that has an identity, a gateway only with an address.
  abbrev pub IsOrdinary : Type 0
  IsOrdinary =
      ((resource ≡ codes "aliases")
        × (t : Text) × (get (codes "type") row ≡ str t)
        × (is_in t alias_types ≡ true)
        × (t ≢ codes "internal")
        × (t ≡ codes "external"
            → (n : Text) → get (codes "name") row ≡ str n
            → get (codes "uuid") native ≢ str n))
      ⊎ (((resource ≡ codes "interface-groups")
            × (v : Value) × (vs : Values) × (get (codes "members") row ≡ list (cons v vs))
            × AreFilledTexts (v ∷ to_list vs))
          ⊎ ((resource ≢ codes "aliases")
              × (is_in resource crud_resources ≡ true)
              × (identity ≢ [])
              × (resource ≡ codes "gateways" → truthy (get (codes "gateway") row) ≡ true)))

  -- What a classification of a resource rests on.
  abbrev pub IsFoundedBy : Management → Classification → Type 0
  IsFoundedBy independent c =
      (c.origin ≡ user_config)
      × (c.reason ≡ none)
      × ((rest : List Basis) × (c.basis ≡ supported_model ∷ rest))
      × IsOrdinary
  IsFoundedBy via_source c = ⊥
  IsFoundedBy read_only c =
      (c.reason ≡ none)
      × (((resource ≡ codes "aliases")
            × (c.origin ≡ system_builtin)
            × ((get (codes "type") row ≡ str (codes "internal")) ⊎ IsStaticAlias row native))
          ⊎ ((resource ≡ codes "interface-groups")
              × (c.origin ≡ derived)
              × IsStaticGroup row native))
  IsFoundedBy unknown_management c = (c.origin ≡ unknown) × (c.reason ≢ none)

  abbrev pub IsFounded : Classified → Type 0
  IsFounded (c, nature) = IsFoundedBy c.management c

if_holds :
    {A : Type 0} (P : A → Type 0) (b : Bool) (x y : A)
    → (b ≡ true → P x)
    → (b ≡ false → P y)
    → P (if b then x else y)
if_holds P true x y h k = h refl
if_holds P false x y h k = k refl

ne-true : {b : Bool} → b ≡ false → b ≢ true
ne-true e h = cc

other_case : (s t : Text) → text_eq s t ≡ false → s ≢ t
other_case s t e same = ne-true e ((text_eq_iff s t).1 same)

module _ (row : Fields) (identity : List Text) (native : Fields) where
  ordinary_alias-IsFounded :
      (resource t : Text)
      → IsOrdinary resource row identity native
      → IsFounded resource row identity native (ordinary_alias t)
  unfolding ordinary_alias
  ordinary_alias-IsFounded resource t h = elim (Bool-cases (text_eq t (codes "external"))) [
    | inl e ↦ rw e (refl, refl, (_, refl), h)
    | inr e ↦ rw e (refl, refl, (_, refl), h)
  ]

  -- An external alias that is no native child has another identity than its name.
  no_child :
      (t : Text)
      → text_eq t (codes "external")
          && same_value (get (codes "uuid") native) (get (codes "name") row)
        ≡ false
      → t ≡ codes "external"
      → (n : Text) → get (codes "name") row ≡ str n
      → get (codes "uuid") native ≢ str n
  no_child t h e n name uuid =
      ne-true (rw ((text_eq_iff t (codes "external")).1 e, name, uuid) at h) (same_value_refl n)

  classify_alias_type-IsFounded :
      (t : Text)
      → get (codes "type") row ≡ str t
      → is_in t alias_types ≡ true
      → IsFounded (codes "aliases") row identity native (classify_alias_type t row native)
  unfolding classify_alias_type
  classify_alias_type-IsFounded t given known =
      let P = IsFounded (codes "aliases") row identity native in
      let name = get (codes "name") row in
      let static = static_alias static_aliases name in
      if_holds P (matches_alias t row native static) _ _
        (λ h. (
          refl,
          inl (refl, refl, inr (matches_alias-IsStaticAlias row native t static given refl h)),
        ))
        (λ h.
          if_holds P (text_eq t (codes "external") && same_value (get (codes "uuid") native) name) _
            _ (λ h. (refl, λ e. cc))
            (λ child.
              if_holds P (text_eq t (codes "internal")) _ _
                (λ h. (
                  refl,
                  inl (refl, refl, inl (given ∙ ap str ((text_eq_iff t (codes "internal")).0 h))),
                ))
                (λ h. ordinary_alias-IsFounded (codes "aliases") t (
                  inl
                    (refl, t, given, known, other_case t (codes "internal") h, no_child t child)))))

  classify_alias-IsFounded :
      (v : Value)
      → get (codes "type") row ≡ v
      → IsFounded (codes "aliases") row identity native (classify_alias v row native)
  unfolding classify_alias
  classify_alias-IsFounded (str s) given =
      if_holds (IsFounded (codes "aliases") row identity native) (is_in s alias_types) _ _
        (classify_alias_type-IsFounded s given) (λ h. (refl, λ e. cc))
  classify_alias-IsFounded _ given = (refl, λ e. cc)

  classify_group-IsFounded :
      IsFounded (codes "interface-groups") row identity native (classify_group row native)
  unfolding classify_group
  classify_group-IsFounded =
      let P = IsFounded (codes "interface-groups") row identity native in
      let static = static_group static_groups (get (codes "name") row) in
      let members = get (codes "members") row in
      if_holds P (matches_group row native static) _ _
        (λ h. (refl, inr (refl, refl, matches_group-IsStaticGroup row native static refl h)))
        (λ h.
          if_holds P (has_members members) _ _
            (λ h.
              let (v, vs, given, filled) = has_members-AreFilledTexts members h in
              (refl, refl, (_, refl), inr (inl (refl, v, vs, given, filled))))
            (λ h. (refl, λ e. cc)))

  has_address :
      (resource : Text) (v : Value)
      → text_eq resource (codes "gateways") && not (truthy v) ≡ false
      → resource ≡ codes "gateways"
      → truthy v ≡ true
  has_address resource v h e = elim (Bool-cases (truthy v)) [
    | inl k ↦ k
    | inr k ↦ absurd (cc (rw ((text_eq_iff resource (codes "gateways")).1 e, k) at h))
  ]

  classify_other-IsFounded :
      (resource : Text)
      → resource ≢ codes "aliases"
      → is_in resource crud_resources ≡ true
      → identity ≢ []
      → IsFounded resource row identity native (classify_other resource row)
  unfolding classify_other
  classify_other-IsFounded resource other known named =
      let gateway = get (codes "gateway") row in
      if_holds (IsFounded resource row identity native)
        (text_eq resource (codes "gateways") && not (truthy gateway)) _ _ (λ h. (refl, λ e. cc))
        (λ h.
          (refl, refl, (_, refl), inr (inr (other, known, named, has_address resource gateway h))))

  identity_given : has_identity identity ≡ true → identity ≢ []
  unfolding has_identity
  identity_given h e = cc (rw e at h)

  by_resource-IsFounded :
      (resource : Text)
      → IsFounded resource row identity native (by_resource resource row identity native)
  unfolding by_resource
  by_resource-IsFounded resource =
      let P = IsFounded resource row identity native in
      let a = codes "aliases" in
      let g = codes "interface-groups" in
      let v = get (codes "type") row in
      if_holds P (text_eq resource a) _ _
        (λ e.
          subst (λ r. IsFounded r row identity native (classify_alias v row native))
            (sym ((text_eq_iff resource a).0 e)) (classify_alias-IsFounded v refl))
        (λ other.
          if_holds P (text_eq resource g) _ _
            (λ e.
              subst (λ r. IsFounded r row identity native (classify_group row native))
                (sym ((text_eq_iff resource g).0 e)) classify_group-IsFounded)
            (λ k.
              if_holds P (is_in resource crud_resources && has_identity identity) _ _
                (λ h.
                  let (known, named) = both (is_in resource crud_resources) _ h in
                  classify_other-IsFounded resource (other_case resource a other) known
                    (identity_given named))
                (λ h. (refl, λ e. cc))))

  finish_by-IsFounded :
      (resource : Text) (marker : Value) (x : Classified)
      → IsFounded resource row identity native x
      → IsFounded resource row identity native (finish_by marker x)
  unfolding finish_by
  finish_by-IsFounded resource marker (c, nature) h =
      if_holds (IsFounded resource row identity native)
        (is_null marker || is_text (origin_text c.origin) marker) _ _ (λ k. h)
        (λ k. (refl, λ e. cc))

-- A resource is independent only as a user's configuration of a supported model, on the evidence of its
-- row: an alias of a known type that is neither internal nor a native child, a group with named members,
-- or another object with an identity, a gateway only with an address. It is read-only only as a system
-- alias, which is internal or one of the static aliases in all fixed fields, or as a derived group, which
-- is one of the static groups in all fixed fields. It is never classified as managed through its source,
-- and an unknown management has an unknown origin and a reason.
pub classify_resource-IsFounded :
    (resource : Text) (row : Fields) (identity : List Text) (native_row : Option Fields)
    → IsFounded resource row identity
        (evidence_row row native_row)
        (classify_resource resource row identity native_row)
unfolding classify_resource
classify_resource-IsFounded resource row identity native_row =
    let native = evidence_row row native_row in
    finish_by-IsFounded row identity native resource (get (codes "origin") native)
      (by_resource resource row identity native)
      (by_resource-IsFounded row identity native resource)
