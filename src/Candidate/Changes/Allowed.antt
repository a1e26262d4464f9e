-- ===== src/Candidate/Changes/Allowed.antt =====
-- What the differences of `plan` in src/iaas/opnsense_workflow/planning.py ask of an existing object.
use iaas.Prelude.{
  ◌≡◌, refl, subst, inl, inr, true, false, ◌||◌, Option, none, some, List, [], ◌∷◌, Text, codes,
  Bool-cases, Option-cases, if◌then◌else◌,
}
use iaas.Value.{Fields, str, dict}
use iaas.Admission.{require_independent}
use iaas.Admission.Evidence.{IsIndependent, require_independent-IsIndependent}
use iaas.Staging.{Item, key, State, find, is_marked, Action, create, update, delete, unchanged}
use iaas.Dependency.{configuration}
use iaas.Candidate.Changes.{
  equal, Request, Row, is_absent, keeps_type, row_of, existing_action, acted, existing_difference,
  new_difference, difference_of, differences_of, recovery_of,
}

-- The action on an existing object with this configuration.
pub data Acts (semantic : Text → Fields → Fields) (item : Item) (actual : Fields)
    : Action → Type 0 where
  deletes : is_absent item ≡ true → Acts semantic item actual delete
  keeps :
      is_absent item ≡ false
      → keeps_type item actual ≡ true
      → equal (dict (semantic item.resource actual)) (dict (semantic item.resource item.desired))
        ≡ true
      → Acts semantic item actual unchanged
  changes :
      is_absent item ≡ false
      → keeps_type item actual ≡ true
      → equal (dict (semantic item.resource actual)) (dict (semantic item.resource item.desired))
        ≡ false
      → Acts semantic item actual update

-- What holds of the difference of a record and the object that is there.
abbrev pub IsAllowed :
    (Text → Fields → Fields) → Request → Item → Option Fields → Action → Option Fields → Type 0
IsAllowed semantic request item none action before =
    (is_marked (key item) request.recovery ≡ false)
    × (before ≡ none)
    × (action ≡ (if is_absent item then unchanged else create))
IsAllowed semantic request item (some obj) action before =
    IsIndependent obj
    × (is_marked (key item) request.managed || is_marked (key item) request.adopted ≡ true)
    × ((actual : Fields) × (configuration obj ≡ some actual)
        × (before ≡ some actual)
        × Acts semantic item actual action)

-- The difference of a record names it, and is allowed.
pub record IsDifference (semantic : Text → Fields → Fields) (request : Request) (item : Item)
    (old : Option Fields) (row : Row) : Type 0 where
  pub resource : row.resource ≡ item.resource
  pub identity : row.identity ≡ item.identity
  pub allowed : IsAllowed semantic request item old row.action row.before

existing_action-Acts :
    (semantic : Text → Fields → Fields) (item : Item) (actual : Fields) (action : Action)
    → existing_action semantic item actual ≡ some action
    → Acts semantic item actual action
unfolding existing_action
existing_action-Acts semantic item actual action h = elim (Bool-cases (is_absent item)) [
  | inl e ↦
      let same : some delete ≡ some action = rw (e, existing_action) at h in
      let found : delete ≡ action = cc same in subst (Acts semantic item actual) found (deletes e)
  | inr e ↦ elim (Bool-cases (keeps_type item actual)) [
    | inr k ↦ absurd (cc (rw (e, k, existing_action) at h))
    | inl k ↦
        elim (Bool-cases (
          equal (dict (semantic item.resource actual))
            (dict (semantic item.resource item.desired)))) [
              | inl q ↦
                  let same : some unchanged ≡ some action = rw (e, k, q, existing_action) at h in
                  let found : unchanged ≡ action = cc same in
                  subst (Acts semantic item actual) found (keeps e k q)
              | inr q ↦
                  let same : some update ≡ some action = rw (e, k, q, existing_action) at h in
                  let found : update ≡ action = cc same in
                  subst (Acts semantic item actual) found (changes e k q)
            ]
  ]
]

acted-IsDifference :
    (semantic : Text → Fields → Fields) (request : Request) (item : Item) (obj actual : Fields)
    (row : Row) (o : Option Action)
    → IsIndependent obj
    → is_marked (key item) request.managed || is_marked (key item) request.adopted ≡ true
    → configuration obj ≡ some actual
    → existing_action semantic item actual ≡ o
    → acted request item obj actual o ≡ some row
    → IsDifference semantic request item (some obj) row
unfolding acted row_of
acted-IsDifference semantic request item obj actual row none i m c e h = cc
acted-IsDifference semantic request item obj actual row (some action) i m c e h =
    let found : row_of request item action (some actual) (recovery_of obj) ≡ row = cc h in
    subst (IsDifference semantic request item (some obj)) found (record {
      resource = refl;
      identity = refl;
      allowed = (i, m, (actual, c, refl, existing_action-Acts semantic item actual action e));
    })

existing_difference-IsDifference :
    (semantic : Text → Fields → Fields) (request : Request) (item : Item) (obj : Fields) (row : Row)
    (o : Option Fields)
    → IsIndependent obj
    → configuration obj ≡ o
    → existing_difference semantic request item obj o ≡ some row
    → IsDifference semantic request item (some obj) row
unfolding existing_difference
existing_difference-IsDifference semantic request item obj row none i e h = cc
existing_difference-IsDifference semantic request item obj row (some actual) i e h =
    elim (Bool-cases
      (is_marked (key item) request.managed || is_marked (key item) request.adopted)) [
        | inl m ↦
            acted-IsDifference semantic request item obj actual row
              (existing_action semantic item actual) i m e refl (rw (m, existing_difference) at h)
        | inr m ↦ absurd (cc (rw (m, existing_difference) at h))
      ]

difference_of-IsDifference :
    (semantic : Text → Fields → Fields) (request : Request) (item : Item) (old : Option Fields)
    (row : Row)
    → difference_of semantic request item old ≡ some row
    → IsDifference semantic request item old row
unfolding difference_of new_difference row_of
difference_of-IsDifference semantic request item none row h =
    elim (Bool-cases (is_marked (key item) request.recovery)) [
      | inl e ↦ absurd (cc (rw (e, difference_of) at h))
      | inr e ↦
          let found : row_of request item (if is_absent item then unchanged else create) none
                (str (codes "expressible"))
              ≡ row =
            cc (rw (e, difference_of) at h) in
          subst (IsDifference semantic request item none) found
            (record { resource = refl; identity = refl; allowed = (e, refl, refl) })
    ]
difference_of-IsDifference semantic request item (some obj) row h =
    elim (Bool-cases (require_independent obj)) [
      | inl e ↦
          existing_difference-IsDifference semantic request item obj row (configuration obj)
            (require_independent-IsIndependent obj e) refl (rw (e, difference_of) at h)
      | inr e ↦ absurd (cc (rw (e, difference_of) at h))
    ]

-- One difference for each record, in order.
abbrev pub AreDifferences :
    (Text → Fields → Fields) → Request → State → List Item → List Row → Type 0
AreDifferences semantic request before [] [] = Unit
AreDifferences semantic request before (item ∷ items) (row ∷ rows) =
    IsDifference semantic request item (find (key item) before) row
    × AreDifferences semantic request before items rows
AreDifferences semantic request before _ _ = ⊥

-- There is one difference for each selected record. An object that is there already is compared only
-- if its classification is independent, its configuration is known and its identity is managed or
-- adopted; it is deleted exactly if the record is absent, and updated exactly if its normal form is
-- another one, and an alias keeps its type. A record without an object is created unless it is absent,
-- and is not one whose activation is recovered.
pub differences_of-AreDifferences :
    (semantic : Text → Fields → Fields) (request : Request) (selected : List Item) (before : State)
    (rows : List Row)
    → differences_of semantic request selected before ≡ some rows
    → AreDifferences semantic request before selected rows
unfolding differences_of
differences_of-AreDifferences semantic request [] before rows h =
    let same : [] ≡ rows = cc h in subst (AreDifferences semantic request before []) same tt
differences_of-AreDifferences semantic request (item ∷ items) before rows h =
    elim (Option-cases (difference_of semantic request item (find (key item) before))) [
      | inl e ↦ absurd (cc (rw (e, differences_of) at h))
      | inr (row, e) ↦ elim (Option-cases (differences_of semantic request items before)) [
        | inl k ↦ absurd (cc (rw (e, k, differences_of) at h))
        | inr (rest, k) ↦
            let found : some (row ∷ rest) ≡ some rows = rw (e, k, differences_of) at h in
            let same : row ∷ rest ≡ rows = cc found in
            subst (AreDifferences semantic request before (item ∷ items)) same (
              difference_of-IsDifference semantic request item (find (key item) before) row e,
              differences_of-AreDifferences semantic request items before rest k,
            )
      ]
    ]
