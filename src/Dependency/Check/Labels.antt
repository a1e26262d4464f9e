-- ===== src/Dependency/Check/Labels.antt =====
-- The labels of a state, in `valid_state` of src/iaas/opnsense_workflow/planning.py.
use iaas.Prelude.{
  ◌≡◌, refl, subst, inl, inr, true, Option, none, some, List, [], ◌∷◌, Text, text_eq, arith,
  Bool-cases, Option-cases,
}
use iaas.Staging.{Marker, State, is_marked}
use iaas.Dependency.Check.{Labels, label_in, object_label, add_label, labels_from}
use iaas.Dependency.Check.Topology.{same_marker_refl}

-- No two labels of a state are the same.
abbrev pub AreDistinct : Labels → Type 0
AreDistinct [] = Unit
AreDistinct ((l, m) ∷ labels) = (label_in l labels ≡ none) × AreDistinct labels

-- The markers of the objects that are there.
abbrev pub present : State → List Marker
present [] = []
present ((m, none) ∷ state) = present state
present ((m, some obj) ∷ state) = m ∷ present state

add_label-AreDistinct :
    (labels : Labels) (m : Marker) (o : Option (Option Text)) (more : Labels)
    → add_label labels m o ≡ some more
    → AreDistinct labels
    → AreDistinct more
unfolding add_label
add_label-AreDistinct labels m none more h d = cc
add_label-AreDistinct labels m (some none) more h d =
    let same : labels ≡ more = cc h in subst AreDistinct same d
add_label-AreDistinct labels m (some (some [])) more h d =
    let same : labels ≡ more = cc h in subst AreDistinct same d
add_label-AreDistinct labels m (some (some (c ∷ l))) more h d =
    elim (Option-cases (label_in (c ∷ l) labels)) [
      | inl e ↦
          let same : (c ∷ l, m) ∷ labels ≡ more = cc (rw (e, add_label) at h) in
          subst AreDistinct same (e, d)
      | inr (x, e) ↦ absurd (cc (rw (e, add_label) at h))
    ]

labels_from-AreDistinct :
    (labels : Labels) (state : State) (all : Labels)
    → labels_from labels state ≡ some all
    → AreDistinct labels
    → AreDistinct all
unfolding labels_from
labels_from-AreDistinct labels [] all h d =
    let same : labels ≡ all = cc h in subst AreDistinct same d
labels_from-AreDistinct labels ((m, none) ∷ state) all h d =
    labels_from-AreDistinct labels state all h d
labels_from-AreDistinct labels ((m, some obj) ∷ state) all h d =
    elim (Option-cases (add_label labels m (object_label obj))) [
      | inl e ↦ absurd (cc (rw (e, labels_from) at h))
      | inr (more, e) ↦
          labels_from-AreDistinct more state all (rw (e, labels_from) at h)
            (add_label-AreDistinct labels m (object_label obj) more e d)
    ]

-- A marker that a label leads to is one of these.
abbrev pub LeadTo : List Marker → Labels → Type 0
LeadTo markers labels =
    (ref : Text) (d : Marker) → label_in ref labels ≡ some d → is_marked d markers ≡ true

add_label-LeadTo :
    (labels : Labels) (m : Marker) (o : Option (Option Text)) (more : Labels)
    (markers : List Marker)
    → add_label labels m o ≡ some more
    → is_marked m markers ≡ true
    → LeadTo markers labels
    → LeadTo markers more
unfolding add_label label_in
add_label-LeadTo labels m none more markers h k d = absurd (cc h)
add_label-LeadTo labels m (some none) more markers h k d =
    let same : labels ≡ more = cc h in subst (LeadTo markers) same d
add_label-LeadTo labels m (some (some [])) more markers h k d =
    let same : labels ≡ more = cc h in subst (LeadTo markers) same d
add_label-LeadTo labels m (some (some (c ∷ l))) more markers h k d =
    elim (Option-cases (label_in (c ∷ l) labels)) [
      | inl e ↦
          let same : (c ∷ l, m) ∷ labels ≡ more = cc (rw (e, add_label) at h) in
          subst (LeadTo markers) same (one_more (c ∷ l))
      | inr (x, e) ↦ absurd (cc (rw (e, add_label) at h))
    ]
  where
    one_more : (l : Text) → LeadTo markers ((l, m) ∷ labels)
    one_more l ref x e = elim (Bool-cases (text_eq l ref)) [
      | inl y ↦
          let same : some m ≡ some x = rw (y, label_in) at e in
          let x_eq : x ≡ m = cc same in rw x_eq k
      | inr y ↦ d ref x (rw (y, label_in) at e)
    ]

labels_from-LeadTo :
    (labels : Labels) (state : State) (all : Labels) (markers : List Marker)
    → labels_from labels state ≡ some all
    → ((d : Marker) → is_marked d (present state) ≡ true → is_marked d markers ≡ true)
    → LeadTo markers labels
    → LeadTo markers all
unfolding labels_from is_marked
labels_from-LeadTo labels [] all markers h k d =
    let same : labels ≡ all = cc h in subst (LeadTo markers) same d
labels_from-LeadTo labels ((m, none) ∷ state) all markers h k d =
    labels_from-LeadTo labels state all markers h k d
labels_from-LeadTo labels ((m, some obj) ∷ state) all markers h k d =
    elim (Option-cases (add_label labels m (object_label obj))) [
      | inl e ↦ absurd (cc (rw (e, labels_from) at h))
      | inr (more, e) ↦
          labels_from-LeadTo more state all markers (rw (e, labels_from) at h)
            (λ x i. k x (ground (arith, i)))
            (add_label-LeadTo labels m (object_label obj) more markers e
              (k m (rw (same_marker_refl m) refl)) d)
    ]

-- The labels of a state are distinct, and lead to objects that are there.
pub labels_from-present :
    (state : State) (labels : Labels)
    → labels_from [] state ≡ some labels
    → AreDistinct labels × LeadTo (present state) labels
unfolding label_in
labels_from-present state labels h = (
  labels_from-AreDistinct [] state labels h tt,
  labels_from-LeadTo [] state labels (present state) h (λ d k. k) no_label,
)
  where
    no_label : LeadTo (present state) []
    no_label ref d e = absurd (cc e)
