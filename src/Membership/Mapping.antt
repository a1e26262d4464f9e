-- ===== src/Membership/Mapping.antt =====
-- `_overview_mapping` of src/iaas/opnsense_workflow/group_checks.py: no two logical interfaces share
-- a device.
use iaas.Prelude.{
  ◌≡◌, refl, ◌∙◌, ap, sym, subst, true, false, Option, none, some, List, [], ◌∷◌, Text, codes,
  text_eq, text_eq_iff, text_eq_refl, arith, Bool-cases, Option-cases, inl, inr, if◌then◌else◌,
}
use iaas.Value.{Value, str, dict, get}
use iaas.Membership.{
  Checked, ok, bad, Dict, lookup, put, Maps, Rows, is_other, is_mapped, map_device, named_row,
  map_row, map_rows, complete_mapping, overview_mapping, rows_of, text_of,
}

-- Two keys that differ are looked up in either order.
swap :
    {A : Type 0} (k i j : Text)
    → text_eq i j ≡ false
    → (w v : A) (o : Option A)
    → (if text_eq i k then some w else if text_eq j k then some v else o)
      ≡ (if text_eq j k then some v else if text_eq i k then some w else o)
swap k i j e w v o = elim (Bool-cases (text_eq i k)) [
  | inl p ↦ elim (Bool-cases (text_eq j k)) [
    | inl q ↦
        absurd (ground (arith, e, text_eq_iff i j, (text_eq_iff i k).0 p, (text_eq_iff j k).0 q))
    | inr q ↦ rw (p, q) refl
  ]
  | inr p ↦ rw p refl
]

pub lookup-put :
    {A : Type 0} (k j : Text) (v : A) (d : Dict A)
    → lookup k (put j v d) ≡ (if text_eq j k then some v else lookup k d)
unfolding lookup put
lookup-put k j v [] = refl
lookup-put k j v ((i, w) ∷ rest) = elim (Bool-cases (text_eq i j)) [
  | inl e ↦ rw (e, (text_eq_iff i j).0 e, lookup) (ground arith)
  | inr e ↦ rw (e, lookup, lookup-put k j v rest) (swap k i j e w v (lookup k rest))
]

-- The device of a logical interface belongs to that interface.
abbrev IsInverse : Maps → Type 0
IsInverse maps =
    (a p : Text) → lookup a maps.mapping ≡ some p → lookup p maps.physical_to_logical ≡ some a

abbrev Inverse : Checked Maps → Type 0
Inverse (bad reason) = Unit
Inverse (ok maps) = IsInverse maps

is_mapped-none : (a : Text) (d : Dict Text) → is_mapped a d ≡ false → lookup a d ≡ none
unfolding is_mapped
is_mapped-none a d h = elim (Option-cases (lookup a d)) [
  | inl e ↦ e
  | inr (p, e) ↦ absurd (cc (rw (e, is_mapped) at h))
]

-- What is said of a device that is found under another name.
is_other-same : (b a : Text) (o : Option Text) → is_other b o ≡ false → o ≡ some a → a ≡ b
unfolding is_other
is_other-same b a none h e = cc
is_other-same b a (some c) h e = ground (arith, text_eq_iff c b)

put-IsInverse :
    (maps : Maps) (b q : Text)
    → IsInverse maps
    → is_other b (lookup q maps.physical_to_logical) ≡ false
    → IsInverse (record {
      mapping = put b q maps.mapping;
      physical_to_logical = put q b maps.physical_to_logical;
    })
put-IsInverse maps b q inverse other a p h =
    let k : (if text_eq b a then some q else lookup a maps.mapping) ≡ some p =
      sym (lookup-put a b q maps.mapping) ∙ h in
    lookup-put p q b maps.physical_to_logical ∙ elim (Bool-cases (text_eq b a)) [
      | inl e ↦
          let same : some q ≡ some p = rw e at k in
          let device : q ≡ p = cc same in
          rw (device, text_eq_refl p) (ap some ((text_eq_iff b a).0 e))
      | inr e ↦
          let found = inverse a p (rw e at k) in
          elim (Bool-cases (text_eq q p)) [
            | inl d ↦
                let device = (text_eq_iff q p).0 d in
                let same =
                  is_other-same b a (lookup q maps.physical_to_logical) other (rw device found) in
                absurd (cc (e, sym (text_eq_refl b), ap (text_eq b) same))
            | inr d ↦ rw d found
          ]
    ]

map_device-Inverse :
    (maps : Maps) (logical physical : Text)
    → IsInverse maps
    → Inverse (map_device maps logical physical)
unfolding map_device
map_device-Inverse maps [] physical h = h
map_device-Inverse maps (c ∷ l) physical h = elim (Bool-cases (is_mapped (c ∷ l) maps.mapping)) [
  | inl e ↦ rw e tt
  | inr e ↦ elim (Bool-cases (is_other (c ∷ l) (lookup physical maps.physical_to_logical))) [
    | inl o ↦ rw (e, o) tt
    | inr o ↦ rw (e, o) (put-IsInverse maps (c ∷ l) physical h o)
  ]
]

named_row-Inverse :
    (maps : Maps) (v : Value) (o : Option Text) → IsInverse maps → Inverse (named_row maps v o)
unfolding named_row
named_row-Inverse maps (str logical) none h = tt
named_row-Inverse maps (str logical) (some physical) h = map_device-Inverse maps logical physical h
named_row-Inverse maps _ o h = tt

map_row-Inverse : (maps : Maps) (v : Value) → IsInverse maps → Inverse (map_row maps v)
unfolding map_row
map_row-Inverse maps (dict row) h =
    named_row-Inverse maps (get (codes "identifier") row) (text_of (get (codes "device") row)) h
map_row-Inverse maps _ h = tt

map_rows-Inverse : (c : Checked Maps) (rows : List Value) → Inverse c → Inverse (map_rows c rows)
unfolding map_rows
map_rows-Inverse (bad reason) rows h = tt
map_rows-Inverse (ok maps) [] h = h
map_rows-Inverse (ok maps) (row ∷ rows) h =
    map_rows-Inverse (map_row maps row) rows (map_row-Inverse maps row h)

-- Two names of one device are the same.
abbrev pub IsOneToOne : Dict Text → Type 0
IsOneToOne mapping = (a b p : Text) → lookup a mapping ≡ some p → lookup b mapping ≡ some p → a ≡ b

inverse-IsOneToOne : (maps : Maps) → IsInverse maps → IsOneToOne maps.mapping
inverse-IsOneToOne maps inverse a b p h k =
    let found : some a ≡ some b = sym (inverse a p h) ∙ inverse b p k in cc found

mapped :
    (c : Checked Maps) (mapping : Dict Text)
    → Inverse c
    → elim c [ bad reason ↦ bad reason | ok maps ↦ ok maps.mapping ] ≡ ok mapping
    → IsOneToOne mapping
mapped (bad reason) mapping h e = cc
mapped (ok maps) mapping h e =
    let same : maps.mapping ≡ mapping = cc e in subst IsOneToOne same (inverse-IsOneToOne maps h)

no_names : IsInverse (record { mapping = []; physical_to_logical = [] })
unfolding lookup
no_names a p h = cc

complete_mapping-IsOneToOne :
    (c : Checked Rows) (mapping : Dict Text) → complete_mapping c ≡ ok mapping → IsOneToOne mapping
unfolding complete_mapping
complete_mapping-IsOneToOne (bad reason) mapping h = cc
complete_mapping-IsOneToOne (ok (rows, false)) mapping h = cc
complete_mapping-IsOneToOne (ok (rows, true)) mapping h =
    let none_yet : Maps = record { mapping = []; physical_to_logical = [] } in
    mapped (map_rows (ok none_yet) rows) mapping (map_rows-Inverse (ok none_yet) rows no_names) h

-- An overview that is accepted maps no two logical interfaces to one device.
pub overview_mapping-IsOneToOne :
    (overview : Value) (mapping : Dict Text)
    → overview_mapping overview ≡ ok mapping
    → IsOneToOne mapping
unfolding overview_mapping
overview_mapping-IsOneToOne overview mapping h =
    complete_mapping-IsOneToOne (rows_of overview) mapping h
