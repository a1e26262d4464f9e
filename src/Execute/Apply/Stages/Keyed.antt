-- ===== src/Execute/Apply/Stages/Keyed.antt =====
-- The keys of the recovery entries in `recovery_document`, `readback` and `apply` of
-- src/iaas/opnsense_workflow/executor.py: each step keeps them.
use iaas.Prelude.{
  ◌≡◌, refl, sym, ◌∙◌, ap, subst, inl, inr, Bool, true, false, Option, none, some, List, [], ◌∷◌,
  ◌++◌, Text, map, All, Bool-cases, Option-cases, if◌then◌else◌,
}
use iaas.Value.{Value, Fields, dict}
use iaas.Staging.{Item, key, State, Marker, find, is_marked, same_marker}
use iaas.Dependency.{configuration}
use iaas.Dependency.Check.Topology.{All-map, same_marker_refl, same_marker-≡}
use iaas.Admission.{require_independent}
use iaas.Confirm.{Bound}
use iaas.Candidate.{Observations}
use iaas.Candidate.Changes.{observation_at}
use iaas.Execute.Apply.Stages.Written.{chosen-is_marked}
use iaas.Execute.{Entry, entry_key, matches_in, is_read}
use iaas.Execute.Apply.{
  chosen, all_markers, or_no_entries, or_empty, invalidated, classified_after, unknown_after,
  configured_after, matched_after, read_entry, read_entries, read_back, new_entry, entry_of,
  entries_of, recovery_document,
}

-- Keys of a list are keys of a longer one.
abbrev pub AllMarked : List Marker → List Item → Type 0
AllMarked markers items = All (λ item. is_marked (key item) markers ≡ true) items

module _ (m : Marker) where
  pub is_marked_later :
      (k : Marker) (ks : List Marker) → is_marked m ks ≡ true → is_marked m (k ∷ ks) ≡ true
  unfolding is_marked
  is_marked_later k ks h = elim (Bool-cases (same_marker m k)) [
    | inl e ↦ rw e refl
    | inr e ↦ rw e h
  ]

  pub is_marked-append_left :
      (xs ys : List Marker) → is_marked m xs ≡ true → is_marked m (xs ++ ys) ≡ true
  unfolding is_marked
  is_marked-append_left [] ys h = cc
  is_marked-append_left (x ∷ xs) ys h = elim (Bool-cases (same_marker m x)) [
    | inl e ↦ rw e refl
    | inr e ↦ rw e (is_marked-append_left xs ys (rw e at h))
  ]

  pub is_marked-append_right :
      (xs ys : List Marker) → is_marked m ys ≡ true → is_marked m (xs ++ ys) ≡ true
  unfolding is_marked
  is_marked-append_right [] ys h = h
  is_marked-append_right (x ∷ xs) ys h =
      is_marked_later x (xs ++ ys) (is_marked-append_right xs ys h)

AllMarked-later :
    (k : Marker) (markers : List Marker) (items : List Item)
    → AllMarked markers items
    → AllMarked (k ∷ markers) items
AllMarked-later k markers items =
    All-map _ _ (λ item h. is_marked_later (key item) k markers h) items

is_marked_self : (m : Marker) (ks : List Marker) → is_marked m (m ∷ ks) ≡ true
unfolding is_marked
is_marked_self m ks = rw (same_marker_refl m) refl

-- Each record has one of the keys of all of them.
pub key-AllMarked : (items : List Item) → AllMarked (map key items) items
key-AllMarked [] = tt
key-AllMarked (item ∷ items) = (
  is_marked_self (key item) (map key items),
  AllMarked-later (key item) (map key items) items (key-AllMarked items),
)

chosen-among :
    (markers : List Marker) (items : List Item) (m : Marker)
    → is_marked m (map key (chosen markers items)) ≡ true
    → is_marked m (map key items) ≡ true
unfolding chosen is_marked
chosen-among markers [] m h = cc
chosen-among markers (item ∷ items) m h = elim (Bool-cases (same_marker m (key item))) [
  | inl y ↦ rw y refl
  | inr y ↦ rw y (elim (Bool-cases (is_marked (key item) markers)) [
    | inl e ↦ chosen-among markers items m (rw (e, y) at h)
    | inr e ↦ chosen-among markers items m (rw e at h)
  ])
]

among-chosen :
    (markers : List Marker) (items : List Item) (m : Marker)
    → is_marked m (map key items) ≡ true
    → is_marked m markers ≡ true
    → is_marked m (map key (chosen markers items)) ≡ true
unfolding chosen is_marked
among-chosen markers [] m h k = cc
among-chosen markers (item ∷ items) m h k = elim (Bool-cases (same_marker m (key item))) [
  | inl y ↦
      let here : is_marked (key item) markers ≡ true =
        subst (λ x. is_marked x markers ≡ true) (same_marker-≡ m (key item) y) k in
      rw (here, y) refl
  | inr y ↦
      let rest = among-chosen markers items m (rw y at h) k in
      elim (Bool-cases (is_marked (key item) markers)) [
        | inl e ↦ rw (e, y) rest
        | inr e ↦ rw e rest
      ]
]

-- The records with some of the markers are among those with more of them.
pub chosen-AllMarked :
    (fewer markers : List Marker) (items : List Item)
    → ((m : Marker) → is_marked m fewer ≡ true → is_marked m markers ≡ true)
    → AllMarked (map key (chosen markers items)) (chosen fewer items)
chosen-AllMarked fewer markers items sub =
    All-map _ _
      (λ item h.
        among-chosen markers items (key item) (chosen-among fewer items (key item) h)
          (sub (key item) (chosen-is_marked fewer items (key item) h)))
      (chosen fewer items) (key-AllMarked (chosen fewer items))

abbrev pub keys_of : List Entry → List Marker
keys_of entries = map entry_key entries

pub invalidated-keys :
    (markers : List Marker) (entries : List Entry)
    → keys_of (invalidated markers entries) ≡ keys_of entries
unfolding invalidated
invalidated-keys markers [] = refl
invalidated-keys markers (e ∷ es) = elim (Bool-cases (is_marked (entry_key e) markers)) [
  | inl y ↦ rw y (ap (λ ks. entry_key e ∷ ks) (invalidated-keys markers es))
  | inr y ↦ rw y (ap (λ ks. entry_key e ∷ ks) (invalidated-keys markers es))
]

classified_after-key :
    (e : Entry) (obj config : Fields) (c : Option Fields)
    → entry_key (classified_after e obj config c) ≡ entry_key e
unfolding classified_after
classified_after-key e obj config none = refl
classified_after-key e obj config (some c) = refl

configured_after-key :
    (e : Entry) (obj : Fields) (c : Option Fields)
    → entry_key (configured_after e obj c) ≡ entry_key e
unfolding configured_after unknown_after
configured_after-key e obj none = refl
configured_after-key e obj (some config) = classified_after-key e obj config _

matched_after-key : (e : Entry) (vs : List Value) → entry_key (matched_after e vs) ≡ entry_key e
unfolding matched_after unknown_after
matched_after-key e [] = refl
matched_after-key e (dict obj ∷ []) = configured_after-key e obj (configuration obj)
matched_after-key e _ = refl

if-key :
    (b : Bool) (e : Entry) (vs : List Value)
    → entry_key (if b then matched_after e vs else unknown_after e) ≡ entry_key e
unfolding unknown_after
if-key true e vs = matched_after-key e vs
if-key false e vs = refl

read_entry-key :
    (observations : Observations) (e after : Entry)
    → read_entry observations e ≡ some after
    → entry_key after ≡ entry_key e
unfolding read_entry
read_entry-key observations e after h =
    let observation = observation_at observations e.resource in
    elim (Option-cases (matches_in observation e.identity)) [
      | inl y ↦ absurd (cc (rw (y, read_entry) at h))
      | inr (vs, y) ↦
          let found : (if is_read observation then matched_after e vs else unknown_after e)
              ≡ after =
            cc (rw (y, read_entry) at h) in
          ap entry_key (sym found) ∙ if-key (is_read observation) e vs
    ]

read_entries-keys :
    (observations : Observations) (entries : List Entry)
    → keys_of (read_entries observations entries).0 ≡ keys_of entries
unfolding read_entries
read_entries-keys observations [] = refl
read_entries-keys observations (e ∷ es) = elim (Option-cases (read_entry observations e)) [
  | inl y ↦ rw (y, read_entries) refl
  | inr (after, y) ↦
      rw (y, read_entries)
        (λ i. read_entry-key observations e after y i ∷ read_entries-keys observations es i)
]

-- The recovery entries have these keys.
abbrev pub HasKeys : List Marker → Option (List Entry) → Type 0
HasKeys ks none = ⊥
HasKeys ks (some entries) = keys_of entries ≡ ks

pub HasKeys-keys_of :
    (ks : List Marker) (o : Option (List Entry)) → HasKeys ks o → keys_of (or_no_entries o) ≡ ks
HasKeys-keys_of ks none h = absurd h
HasKeys-keys_of ks (some entries) h = h

pub read_back-HasKeys :
    (ks : List Marker) (answer : Option Observations) (o : Option (List Entry))
    → HasKeys ks o
    → HasKeys ks (read_back answer o).0
unfolding read_back
read_back-HasKeys ks answer none h = h
read_back-HasKeys ks answer (some entries) h = read_entries-keys (or_empty answer) entries ∙ h

entry_of-key :
    (is_declarable : Text → Fields → Bool) (item : Item) (o : Option Fields) (e : Entry)
    → entry_of is_declarable item o ≡ some e
    → entry_key e ≡ key item
unfolding entry_of new_entry
entry_of-key is_declarable item none e h = ap entry_key (given h)
  where
    given : {a : Entry} → some a ≡ some e → e ≡ a
    given h = cc
entry_of-key is_declarable item (some obj) e h = elim (Bool-cases (require_independent obj)) [
  | inl y ↦ ap entry_key (given (rw y at h))
  | inr y ↦ absurd (cc (rw y at h))
]
  where
    given : {a : Entry} → some a ≡ some e → e ≡ a
    given h = cc

entries_of-keys :
    (is_declarable : Text → Fields → Bool) (items : List Item) (current : State)
    (entries : List Entry)
    → entries_of is_declarable items current ≡ some entries
    → keys_of entries ≡ map key items
unfolding entries_of
entries_of-keys is_declarable [] current entries h = cc h
entries_of-keys is_declarable (item ∷ items) current entries h =
    elim (Option-cases (entry_of is_declarable item (find (key item) current))) [
      | inl y ↦ absurd (cc (rw (y, entries_of) at h))
      | inr (e, y) ↦ elim (Option-cases (entries_of is_declarable items current)) [
        | inl z ↦ absurd (cc (rw (y, z, entries_of) at h))
        | inr (es, z) ↦
            let same : entries ≡ e ∷ es = cc (rw (y, z, entries_of) at h) in
            ap (map entry_key) same ∙ λ i.
            entry_of-key is_declarable item (find (key item) current) e y i
            ∷ entries_of-keys is_declarable items current es z i
      ]
    ]

-- A recovery document has an entry of each record that the stages write.
pub recovery_document-HasKeys :
    (is_declarable : Text → Fields → Bool) (selected : List Item) (stages : List Bound)
    (current : State) (entries : List Entry)
    → recovery_document is_declarable selected stages current ≡ some entries
    → HasKeys (map key (chosen (all_markers stages) selected)) (some entries)
unfolding recovery_document
recovery_document-HasKeys is_declarable selected stages current entries h =
    entries_of-keys is_declarable (chosen (all_markers stages) selected) current entries h
