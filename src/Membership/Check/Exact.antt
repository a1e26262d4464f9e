-- ===== src/Membership/Check/Exact.antt =====
-- `check_interface_group_current` of src/iaas/opnsense_workflow/group_checks.py: a group is verified
-- only if exactly the devices of its members have it.
use iaas.Prelude.{
  ◌⊎◌, ◌≡◌, ◌≢◌, refl, ◌∙◌, ap, sym, subst, map, Bool, true, ◌&&◌, ◌||◌, Option, none, some, List,
  [], ◌∷◌, Text, codes, text_eq, text_eq_iff, all, any, arith, Bool-cases, inl, inr, is_in,
}
use iaas.Value.{
  Value, Fields, null, bool, int, float_integer, float_other, object, dict, str, list, get,
}
use iaas.Membership.{
  Status, verified, failed, unknown, not_applicable, incomplete, unsupported, Reason, Checked, ok,
  bad, Dict, are_distinct, text_of, overview_mapping, ifconfig_rows, malformed_consumer_observation,
}
use iaas.Membership.Check.{
  Result, result, consumer_status, is_verified, worsen, consumer_reason, given, malformed,
  malformed_consumer, fold_status, fold_observation, with_consumer, physical_members, without,
  devices_in, same_set, compare, with_missing, with_rows, with_physical, with_mapping, with_members,
  member_list, with_name, check_interface_group_current,
}

-- The kernel reports that the device has the group.
abbrev pub has_group : Text → Text → Dict (List Text) → Bool
unfolding is_in text_eq
has_group group device = any (λ r. text_eq device r.0 && is_in group r.1)

-- The consumer's observation, where there is one, does not refute the membership.
abbrev pub IsConsistent : Option Value → Type 0
IsConsistent none = Unit
IsConsistent (some v) =
    (observation : Fields) × (status : Status) × (v ≡ dict observation)
    × (consumer_status (get (codes "status") observation) ≡ some status)
    × ((status ≡ verified) ⊎ (status ≡ not_applicable))

-- What the result `verified` says of the inputs.
pub record IsCurrent (desired overview ifconfig : Value) (observation : Option Value) : Type 0 where
  pub group : Text
  pub logical : List Text
  pub mapping : Dict Text
  pub physical : List Text
  pub rows : Dict (List Text)
  pub saved :
      (row : Fields) × (desired ≡ dict row)
      × (text_of (get (codes "name") row) ≡ some group)
      × (member_list (get (codes "members") row) ≡ some logical)
  pub some_members : logical ≢ []
  pub mapped : overview_mapping overview ≡ ok mapping
  pub devices : physical_members mapping logical ≡ some physical
  pub reported : ifconfig_rows ifconfig ≡ ok rows
  pub exact : (device : Text) → has_group group device rows ≡ is_in device physical
  pub consistent : IsConsistent observation

-- The devices that are counted are those that have the group.
devices_in-has_group :
    (group device : Text) (rows : Dict (List Text))
    → is_in device (devices_in group rows) ≡ has_group group device rows
unfolding devices_in is_in
devices_in-has_group group device [] = refl
devices_in-has_group group device ((d, groups) ∷ rows) =
    elim (Bool-cases (any (text_eq group) groups)) [
      | inl e ↦
          rw e (
            ap (λ b. text_eq device d || b) (devices_in-has_group group device rows) ∙ ground arith)
      | inr e ↦ rw e (devices_in-has_group group device rows ∙ ground arith)
    ]

all-is_in :
    (p : Text → Bool) (ts : List Text) (t : Text) → all p ts ≡ true → is_in t ts ≡ true → p t ≡ true
unfolding is_in
all-is_in p [] t h k = cc
all-is_in p (u ∷ us) t h k = elim (Bool-cases (text_eq t u)) [
  | inl e ↦ subst (λ x. p x ≡ true) (sym ((text_eq_iff t u).0 e)) (ground (arith, h))
  | inr e ↦ all-is_in p us t (ground arith) (ground arith)
]

same_set-is_in : (ss ts : List Text) (t : Text) → same_set ss ts ≡ true → is_in t ss ≡ is_in t ts
unfolding same_set
same_set-is_in ss ts t h = elim (Bool-cases (is_in t ss)) [
  | inl e ↦ e ∙ sym (all-is_in (λ u. is_in u ts) ss t (ground arith) e)
  | inr e ↦ elim (Bool-cases (is_in t ts)) [
    | inl k ↦ absurd (cc (e, all-is_in (λ u. is_in u ss) ts t (ground arith) k))
    | inr k ↦ e ∙ sym k
  ]
]

is_verified-≡ : (s : Status) → is_verified s ≡ true → s ≡ verified
unfolding is_verified
is_verified-≡ verified h = refl
is_verified-≡ failed h = cc
is_verified-≡ unknown h = cc
is_verified-≡ not_applicable h = cc
is_verified-≡ incomplete h = cc
is_verified-≡ unsupported h = cc

worsen-other :
    (s : Status) (reason : Reason) (r : Result)
    → s ≢ verified
    → (worsen s reason r).status ≢ verified
unfolding worsen
worsen-other s reason r n h = elim (Bool-cases (is_verified r.status)) [
  | inl e ↦ n (rw (e, worsen) at h)
  | inr e ↦ absurd (cc (e, ap is_verified (rw (e, worsen) at h), verified_lem))
]
  where
    verified_lem : is_verified verified ≡ true
    verified_lem = refl

malformed_consumer-other : (r : Result) → (malformed_consumer r).status ≢ verified
unfolding malformed_consumer
malformed_consumer-other r =
    worsen-other unknown malformed_consumer_observation (record r { consumer = malformed })
      (λ e. cc)

fold_status-verified :
    (r : Result) (observation : Fields) (o : Option Status)
    → (fold_status r observation o).status ≡ verified
    → (r.status ≡ verified) × (s : Status) × (o ≡ some s) × ((s ≡ verified) ⊎ (s ≡ not_applicable))
unfolding fold_status
fold_status-verified r observation none h = absurd (malformed_consumer-other r h)
fold_status-verified r observation (some verified) h = (h, verified, refl, inl refl)
fold_status-verified r observation (some not_applicable) h = (h, not_applicable, refl, inr refl)
fold_status-verified r observation (some failed) h = absurd (
    worsen-other failed (consumer_reason observation) (record r { consumer = given observation })
      (λ e. cc) h)
fold_status-verified r observation (some unknown) h = absurd (
    worsen-other unknown (consumer_reason observation) (record r { consumer = given observation })
      (λ e. cc) h)
fold_status-verified r observation (some incomplete) h = absurd (
    worsen-other incomplete (consumer_reason observation)
      (record r { consumer = given observation }) (λ e. cc) h)
fold_status-verified r observation (some unsupported) h = absurd (
    worsen-other unsupported (consumer_reason observation)
      (record r { consumer = given observation }) (λ e. cc) h)

fold_observation-verified :
    (r : Result) (o : Option Value)
    → (fold_observation r o).status ≡ verified
    → (r.status ≡ verified) × IsConsistent o
unfolding fold_observation
fold_observation-verified r none h = (h, tt)
fold_observation-verified r (some (dict observation)) h =
    let (v, s, e, harmless) =
      fold_status-verified r observation (consumer_status (get (codes "status") observation)) h in
    (v, (observation, s, refl, e, harmless))
fold_observation-verified r (some null) h = absurd (malformed_consumer-other r h)
fold_observation-verified r (some (bool b)) h = absurd (malformed_consumer-other r h)
fold_observation-verified r (some (int n)) h = absurd (malformed_consumer-other r h)
fold_observation-verified r (some (float_integer n)) h = absurd (malformed_consumer-other r h)
fold_observation-verified r (some float_other) h = absurd (malformed_consumer-other r h)
fold_observation-verified r (some (str s)) h = absurd (malformed_consumer-other r h)
fold_observation-verified r (some (list vs)) h = absurd (malformed_consumer-other r h)
fold_observation-verified r (some object) h = absurd (malformed_consumer-other r h)

compare-verified :
    (group : Text) (logical physical : List Text) (rows : Dict (List Text)) (o : Option Value)
    → (compare group logical physical rows o).status ≡ verified
    → ((device : Text) → has_group group device rows ≡ is_in device physical) × IsConsistent o
unfolding compare with_consumer result
compare-verified group logical physical rows o h =
    elim (Bool-cases (same_set (devices_in group rows) physical)) [
      | inl e ↦
          let (v, c) = fold_observation-verified _ o (rw (e, compare) at h) in
          (
            λ device.
                sym (devices_in-has_group group device rows)
                ∙ same_set-is_in (devices_in group rows) physical device e,
            c,
          )
      | inr e ↦ absurd (cc (fold_observation-verified _ o (rw (e, compare) at h)).0)
    ]

module _ (desired overview ifconfig : Value) (observation : Option Value) (group : Text)
    (logical : List Text)
    (saved : (row : Fields) × (desired ≡ dict row)
      × (text_of (get (codes "name") row) ≡ some group)
      × (member_list (get (codes "members") row) ≡ some logical))
    (some_members : logical ≢ []) where
  missing-IsCurrent :
      (mapping : Dict Text) (physical : List Text) (rows : Dict (List Text)) (missing : List Text)
      → overview_mapping overview ≡ ok mapping
      → physical_members mapping logical ≡ some physical
      → ifconfig_rows ifconfig ≡ ok rows
      → (with_missing group logical physical rows observation missing).status ≡ verified
      → IsCurrent desired overview ifconfig observation
  unfolding with_missing result
  missing-IsCurrent mapping physical rows [] m p r h =
      let (exact, consistent) = compare-verified group logical physical rows observation h in
      record {
        group = group;
        logical = logical;
        mapping = mapping;
        physical = physical;
        rows = rows;
        saved = saved;
        some_members = some_members;
        mapped = m;
        devices = p;
        reported = r;
        exact = exact;
        consistent = consistent;
      }
  missing-IsCurrent mapping physical rows (t ∷ ts) m p r h = cc

  rows-IsCurrent :
      (mapping : Dict Text) (physical : List Text) (c : Checked (Dict (List Text)))
      → overview_mapping overview ≡ ok mapping
      → physical_members mapping logical ≡ some physical
      → ifconfig_rows ifconfig ≡ c
      → (with_rows group logical mapping physical observation c).status ≡ verified
      → IsCurrent desired overview ifconfig observation
  unfolding with_rows result
  rows-IsCurrent mapping physical (bad reason) m p r h = cc
  rows-IsCurrent mapping physical (ok rows) m p r h =
      missing-IsCurrent mapping physical rows (without (map (λ x. x.0) rows) physical) m p r h

  physical-IsCurrent :
      (mapping : Dict Text) (o : Option (List Text))
      → overview_mapping overview ≡ ok mapping
      → physical_members mapping logical ≡ o
      → (with_physical group logical mapping ifconfig observation o).status ≡ verified
      → IsCurrent desired overview ifconfig observation
  unfolding with_physical result
  physical-IsCurrent mapping none m p h = cc
  physical-IsCurrent mapping (some physical) m p h =
      rows-IsCurrent mapping physical (ifconfig_rows ifconfig) m p refl h

  mapping-IsCurrent :
      (c : Checked (Dict Text))
      → overview_mapping overview ≡ c
      → (with_mapping group logical ifconfig observation c).status ≡ verified
      → IsCurrent desired overview ifconfig observation
  unfolding with_mapping result
  mapping-IsCurrent (bad reason) m h = cc
  mapping-IsCurrent (ok mapping) m h =
      physical-IsCurrent mapping (physical_members mapping logical) m refl h

members-IsCurrent :
    (overview ifconfig : Value) (observation : Option Value) (group : Text) (row : Fields)
    (o : Option (List Text))
    → text_of (get (codes "name") row) ≡ some group
    → member_list (get (codes "members") row) ≡ o
    → (with_members group overview ifconfig observation o).status ≡ verified
    → IsCurrent (dict row) overview ifconfig observation
unfolding with_members result
members-IsCurrent overview ifconfig observation group row none n m h = cc
members-IsCurrent overview ifconfig observation group row (some []) n m h = cc
members-IsCurrent overview ifconfig observation group row (some (t ∷ ts)) n m h =
    elim (Bool-cases (are_distinct (t ∷ ts))) [
      | inl e ↦
          mapping-IsCurrent (dict row) overview ifconfig observation group (t ∷ ts)
            (row, refl, n, m) (λ z. cc) (overview_mapping overview) refl (rw (e, with_members) at h)
      | inr e ↦ absurd (cc (rw (e, with_members) at h))
    ]

name-IsCurrent :
    (overview ifconfig : Value) (observation : Option Value) (row : Fields) (o : Option Text)
    → text_of (get (codes "name") row) ≡ o
    → (with_name row overview ifconfig observation o).status ≡ verified
    → IsCurrent (dict row) overview ifconfig observation
unfolding with_name result
name-IsCurrent overview ifconfig observation row none n h = cc
name-IsCurrent overview ifconfig observation row (some group) n h =
    members-IsCurrent overview ifconfig observation group row
      (member_list (get (codes "members") row)) n refl h

-- A saved interface group is verified only if both observations are complete, its members are mapped
-- to devices, the kernel reports the group of exactly these devices, and the observation of a
-- consumer, where there is one, is `verified` or `not_applicable`.
pub check_interface_group_current-IsCurrent :
    (desired overview ifconfig : Value) (observation : Option Value)
    → (check_interface_group_current desired overview ifconfig observation).status ≡ verified
    → IsCurrent desired overview ifconfig observation
unfolding check_interface_group_current result
check_interface_group_current-IsCurrent (dict row) overview ifconfig observation h =
    name-IsCurrent overview ifconfig observation row (text_of (get (codes "name") row)) refl h
check_interface_group_current-IsCurrent _ overview ifconfig observation h = cc
