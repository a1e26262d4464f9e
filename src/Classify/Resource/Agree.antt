-- ===== src/Classify/Resource/Agree.antt =====
-- The agreement of `classify_resource` of src/iaas/opnsense_workflow/classification.py with the native
-- origin.
use iaas.Prelude.{
  ◌≡◌, ◌≢◌, refl, ◌⊎◌, inl, inr, ap, Option, List, Text, codes, text_eq, text_eq_iff, Bool-cases,
}
use iaas.Value.{Value, Fields, str, null, get}
use iaas.Classify.{Classified, origin_text, finish_by, unknown}
use iaas.Classify.Resource.{by_resource, evidence_row, classify_resource}

agreed :
    (marker : Value) (x : Classified)
    → (finish_by marker x).0.origin ≢ unknown
    → (marker ≡ null) ⊎ (marker ≡ str (origin_text (finish_by marker x).0.origin))
unfolding finish_by
agreed null x h = inl refl
agreed (str s) (c, nature) h = elim (Bool-cases (text_eq s (origin_text c.origin))) [
  | inl e ↦ rw e (inr (ap str ((text_eq_iff s (origin_text c.origin)).0 e)))
  | inr e ↦ absurd (rw e at h refl)
]
agreed _ (c, nature) h = absurd (h refl)

-- A known origin does not contradict the origin that the native row claims, if it claims one.
pub classify_resource-Agrees :
    (resource : Text) (row : Fields) (identity : List Text) (native_row : Option Fields)
    → (classify_resource resource row identity native_row).0.origin ≢ unknown
    → (get (codes "origin") (evidence_row row native_row) ≡ null)
      ⊎ (get (codes "origin") (evidence_row row native_row)
          ≡ str (origin_text (classify_resource resource row identity native_row).0.origin))
unfolding classify_resource
classify_resource-Agrees resource row identity native_row h =
    let native = evidence_row row native_row in
    agreed (get (codes "origin") native) (by_resource resource row identity native) h
