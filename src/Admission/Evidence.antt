-- ===== src/Admission/Evidence.antt =====
-- What the requirements of src/iaas/opnsense_workflow/admission.py say of an object.
use iaas.Prelude.{
  both, ◌≡◌, refl, ◌∙◌, ap, sym, subst, inl, inr, Bool, true, false, ◌||◌, Option, none, some, Text,
  codes, text_eq, text_eq_iff, Bool-cases,
}
use iaas.Value.{Value, Fields, str, dict, get, has_key, is_text}
use iaas.Admission.{
  origins, managements, supported_basis, one_of, list_of, is_filled, is_classification,
  validate_classification, is_independent, require_independent,
}

-- The classification of an object that is written.
pub record IsIndependent (obj : Fields) : Type 0 where
  pub classification : Fields
  pub given : get (codes "classification") obj ≡ dict classification
  pub management : is_text (codes "independent") (get (codes "management") classification) ≡ true
  pub basis_known : list_of supported_basis (get (codes "basis") classification) ≡ true
  pub basis_filled : is_filled (get (codes "basis") classification) ≡ true

either : (a b : Bool) → a || b ≡ true → a ≡ false → b ≡ true
either true b h k = cc
either false b h k = h

-- A text is not two texts.
other_text :
    (s t : Text) (v : Value) → text_eq t s ≡ false → is_text s v ≡ true → is_text t v ≡ false
other_text s t (str u) n h = elim (Bool-cases (text_eq u t)) [
  | inl e ↦
      absurd (cc (n, (text_eq_iff t s).1 (sym ((text_eq_iff u t).0 e) ∙ (text_eq_iff u s).0 h)))
  | inr e ↦ e
]
other_text s t _ n h = cc

is_classification-basis :
    (c : Fields)
    → is_classification c ≡ true
    → is_text (codes "independent") (get (codes "management") c) ≡ true
    → (list_of supported_basis (get (codes "basis") c) ≡ true)
      × (is_filled (get (codes "basis") c) ≡ true)
unfolding is_classification text_eq
is_classification-basis c h k =
    let (k1, h1) = both (has_key (codes "origin") c) _ h in
    let (k2, h2) = both (has_key (codes "management") c) _ h1 in
    let (k3, h3) = both (has_key (codes "basis") c) _ h2 in
    let (k4, h4) = both (one_of origins (get (codes "origin") c)) _ h3 in
    let (k5, h5) = both (one_of managements (get (codes "management") c)) _ h4 in
    let (known, filled) = both (list_of supported_basis (get (codes "basis") c)) _ h5 in
    (
      known,
      either _ _ filled
          (other_text (codes "independent") (codes "unknown") (get (codes "management") c) refl k),
    )

pub validated :
    (v : Value) (c : Fields)
    → validate_classification v ≡ some c
    → (v ≡ dict c) × (is_classification c ≡ true)
unfolding validate_classification
validated (dict d) c h = elim (Bool-cases (is_classification d)) [
  | inl e ↦
      let same : d ≡ c = cc (rw e at h) in
      (ap dict same, subst (λ x. is_classification x ≡ true) same e)
  | inr e ↦ absurd (cc (rw e at h))
]
validated _ c h = cc

is_independent-IsIndependent :
    (obj : Fields) (o : Option Fields)
    → validate_classification (get (codes "classification") obj) ≡ o
    → is_independent o ≡ true
    → IsIndependent obj
unfolding is_independent
is_independent-IsIndependent obj none e h = cc
is_independent-IsIndependent obj (some c) e h =
    let (given, valid) = validated (get (codes "classification") obj) c e in
    let (known, filled) = is_classification-basis c valid h in
    record {
      classification = c;
      given = given;
      management = h;
      basis_known = known;
      basis_filled = filled;
    }

-- An object is written only with a classification that is independent, on a basis of supported
-- evidence that is not empty.
pub require_independent-IsIndependent :
    (obj : Fields) → require_independent obj ≡ true → IsIndependent obj
unfolding require_independent
require_independent-IsIndependent obj h =
    is_independent-IsIndependent obj (validate_classification (get (codes "classification") obj))
      refl h
