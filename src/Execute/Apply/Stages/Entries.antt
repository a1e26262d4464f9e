-- ===== src/Execute/Apply/Stages/Entries.antt =====
-- The recovery entries that `apply` of src/iaas/opnsense_workflow/executor.py saved before a write.
use iaas.Prelude.{
  ◌≡◌, refl, sym, ◌⊎◌, inl, inr, subst, true, Option, none, some, List, [], ◌∷◌, Text, map, All,
  Bool-cases,
}
use iaas.Value.{Fields}
use iaas.Staging.{Item, key, Marker, is_marked, same_marker}
use iaas.Dependency.Check.Topology.{same_marker-≡}
use iaas.Execute.{
  read, asked, saved_result, saved_recovery, not_saved, written, activated, Trace, Entry, entry_key,
}
use iaas.Execute.Apply.Stages.Keyed.{AllMarked, key-AllMarked, keys_of}
use iaas.Execute.Apply.Stages.Steady.{AllKeyed}
use iaas.Execute.Apply.Stages.Safe.{last_saved, IsInvalidated, IsPrepared, IsSafe}

-- An entry with this key says that its record was attempted, and nothing of what became of it.
abbrev pub HasEntry : Marker → List Entry → Type 0
HasEntry m [] = ⊥
HasEntry m (e ∷ es) = ((entry_key e ≡ m) × IsInvalidated e) ⊎ HasEntry m es

abbrev pub HaveEntries : List Item → Option (List Entry) → Type 0
HaveEntries items none = ⊥
HaveEntries items (some entries) = All (λ item. HasEntry (key item) entries) items

-- Before each write, the recovery document that was saved last had an entry of each record.
abbrev pub IsRecorded : Trace → Type 0
IsRecorded [] = Unit
IsRecorded (written resource items answer ∷ past) =
    HaveEntries items (last_saved past) × IsRecorded past
IsRecorded (e ∷ past) = IsRecorded past

marked-HasEntry :
    (ms : List Marker) (m : Marker) (entries : List Entry)
    → is_marked m ms ≡ true
    → All (λ e. is_marked (entry_key e) ms ≡ true → IsInvalidated e) entries
    → is_marked m (keys_of entries) ≡ true
    → HasEntry m entries
unfolding is_marked
marked-HasEntry ms m [] h invalid k = cc
marked-HasEntry ms m (e ∷ es) h (first, rest) k = elim (Bool-cases (same_marker m (entry_key e))) [
  | inl y ↦
      let same = same_marker-≡ m (entry_key e) y in
      inl (sym same, first (subst (λ x. is_marked x ms ≡ true) same h))
  | inr y ↦ inr (marked-HasEntry ms m es h rest (rw y at k))
]

keyed-HaveEntries :
    (ks : List Marker) (items : List Item) (o : Option (List Entry))
    → AllMarked ks items
    → ((entries : List Entry) → o ≡ some entries → keys_of entries ≡ ks)
    → IsPrepared items o
    → HaveEntries items o
keyed-HaveEntries ks items none among keyed prepared = absurd prepared
keyed-HaveEntries ks items (some entries) among keyed prepared =
    all items (key-AllMarked items) among
  where
    all :
        (part : List Item)
        → AllMarked (map key items) part
        → AllMarked ks part
        → All (λ item. HasEntry (key item) entries) part
    all [] own among = tt
    all (item ∷ part) (own, owns) (one, among) = (
      marked-HasEntry (map key items) (key item) entries own prepared
          (subst (λ x. is_marked (key item) x ≡ true) (sym (keyed entries refl)) one),
      all part owns among,
    )

last_saved-keys :
    (ks : List Marker) (t : Trace) (entries : List Entry)
    → AllKeyed ks t
    → last_saved t ≡ some entries
    → keys_of entries ≡ ks
last_saved-keys ks [] entries h e = cc
last_saved-keys ks (saved_recovery es outcomes ∷ past) entries h e =
    let same : es ≡ entries = cc e in subst (λ x. keys_of x ≡ ks) same h.0
last_saved-keys ks (written resource items answer ∷ past) entries h e =
    last_saved-keys ks past entries h.1 e
last_saved-keys ks (read rs a ∷ past) entries h e = last_saved-keys ks past entries h e
last_saved-keys ks (asked v ∷ past) entries h e = last_saved-keys ks past entries h e
last_saved-keys ks (saved_result st o ∷ past) entries h e = last_saved-keys ks past entries h e
last_saved-keys ks (not_saved ∷ past) entries h e = last_saved-keys ks past entries h e
last_saved-keys ks (activated resource items a ∷ past) entries h e =
    last_saved-keys ks past entries h e

pub keyed-IsRecorded :
    (semantic : Text → Fields → Fields) (ks : List Marker) (t : Trace)
    → IsSafe semantic t
    → AllKeyed ks t
    → IsRecorded t
keyed-IsRecorded semantic ks [] safe h = tt
keyed-IsRecorded semantic ks (written resource items answer ∷ past) (prepared, good, safe) h = (
  keyed-HaveEntries ks items (last_saved past) h.0
      (λ entries e. last_saved-keys ks past entries h.1 e) prepared,
  keyed-IsRecorded semantic ks past safe h.1,
)
keyed-IsRecorded semantic ks (activated resource items a ∷ past) (shown, good, safe) h =
    keyed-IsRecorded semantic ks past safe h
keyed-IsRecorded semantic ks (saved_recovery es o ∷ past) safe h =
    keyed-IsRecorded semantic ks past safe h.1
keyed-IsRecorded semantic ks (read rs a ∷ past) safe h = keyed-IsRecorded semantic ks past safe h
keyed-IsRecorded semantic ks (asked v ∷ past) safe h = keyed-IsRecorded semantic ks past safe h
keyed-IsRecorded semantic ks (saved_result st o ∷ past) safe h =
    keyed-IsRecorded semantic ks past safe h
keyed-IsRecorded semantic ks (not_saved ∷ past) safe h = keyed-IsRecorded semantic ks past safe h
