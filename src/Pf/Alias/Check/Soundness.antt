-- ===== src/Pf/Alias/Check/Soundness.antt =====
-- `check_port_alias_active` of src/iaas/opnsense_workflow/pf_rules.py reports `verified` only if the
-- loaded rules of each consumer that refers to the alias expand to exactly its ports.
use iaas.Prelude.{
  ℕ, ◌≡◌, ◌≢◌, refl, ◌∙◌, ap, sym, subst, Bool, true, Option, none, some, List, [], ◌∷◌, ◌++◌, map,
  Text, all, All, arith, Bool-cases, inl, inr,
}
use iaas.Value.{Value, Fields}
use iaas.Pf.Ports.{Interval, merge_intervals}
use iaas.Pf.Ports.Merge.{AreIntervals, covers, covers-merge_intervals}
use iaas.Pf.Report.{Checked, ok, bad, result, verified}
use iaas.Pf.Rule.{Rule}
use iaas.Pf.Rule.Intervals.{HasIntervals, AreRulePorts}
use iaas.Pf.Snapshot.{snapshot_rules}
use iaas.Pf.Alias.{Role, Related, alias_intervals}
use iaas.Pf.Alias.Check.Loaded.{
  NamedContent, alias_intervals-NamedContent, Loaded, load-Loaded, rules_of-Loaded, matching-ok,
  after-verified, expanded-HasIntervals,
}
use iaas.Pf.Alias.Check.{
  related_consumers, load, rules_of, matching_loaded_rules, expanded, same_intervals, covered,
  role_matches, Match, match_of, passes, roles_verdict, active_verdict, item_verdict, check_items,
  check_loaded, check_related, check_sections, check_ports, check_port_alias_active,
}

-- The rules expand in this role to the ports of the alias.
abbrev pub IsExpanded : List Interval → List Rule → Role × List Text → Type 0
IsExpanded intervals rules (role, values) =
    (ports : List Interval) × (expanded role rules ≡ some ports)
    × ((p : ℕ) → covers p ports ≡ covers p intervals)

-- The loaded rules with the UUID and the protocols of the consumer: there is one, and they expand to
-- the ports of the alias in each role that refers to it.
abbrev pub IsServed : List Interval → List Rule → Related → Type 0
IsServed intervals loaded item =
    (rules : List Rule) × (matching_loaded_rules (rules_of item.uuid loaded) item.row ≡ ok rules)
    × (rules ≢ [])
    × All (IsExpanded intervals rules) item.references

-- What the result `verified` says of the inputs.
pub record IsCovered (wide : ℕ → Bool) (alias snapshot consumers : Value) : Type 0 where
  pub name : Text
  pub intervals : List Interval
  pub sections : List (Text × Fields)
  pub related : List Related
  pub loaded : List Rule
  pub content : alias_intervals alias ≡ ok (name, intervals)
  pub complete : snapshot_rules snapshot ≡ ok sections
  pub relates : related_consumers name consumers ≡ ok related
  pub some_related : related ≢ []
  pub parsed : load wide (map (λ r. r.uuid) related) sections ≡ ok loaded
  pub served : All (IsServed intervals loaded) related

same_intervals-≡ : (xs ys : List Interval) → same_intervals xs ys ≡ true → xs ≡ ys
unfolding same_intervals
same_intervals-≡ [] [] h = refl
same_intervals-≡ [] (y ∷ ys) h = cc
same_intervals-≡ (x ∷ xs) [] h = cc
same_intervals-≡ ((a, b) ∷ xs) ((c, d) ∷ ys) h =
    let first : a ≡ c = ground arith in
    let second : b ≡ d = ground arith in cc (first, second, same_intervals-≡ xs ys (ground arith))

module _ (intervals : List Interval) (content : AreIntervals intervals) where
  covered-IsExpanded :
      (o : Option (List Interval))
      → HasIntervals o
      → covered (merge_intervals intervals) o ≡ true
      → (ports : List Interval) × (o ≡ some ports) × ((p : ℕ) → covers p ports ≡ covers p intervals)
  unfolding covered
  covered-IsExpanded none h e = cc
  covered-IsExpanded (some ports) h e =
      let same = same_intervals-≡ (merge_intervals ports) (merge_intervals intervals) e in
      (
        ports,
        refl,
        λ p.
            sym (covers-merge_intervals p ports h)
            ∙ (ap (covers p) same ∙ covers-merge_intervals p intervals content),
      )

  roles-IsExpanded :
      (rules : List Rule) (references : List (Role × List Text))
      → All AreRulePorts rules
      → all (role_matches (merge_intervals intervals) rules) references ≡ true
      → All (IsExpanded intervals rules) references
  unfolding role_matches
  roles-IsExpanded rules [] a h = tt
  roles-IsExpanded rules ((role, values) ∷ rs) a h = (
    covered-IsExpanded (expanded role rules) (expanded-HasIntervals role rules a) (ground arith),
    roles-IsExpanded rules rs a (ground arith),
  )

  roles_verdict-passes :
      (references : List (Role × List Text)) (m : Checked (List Rule)) (found : List Rule)
      → roles_verdict (merge_intervals intervals) references m ≡ passes found
      → (m ≡ ok found) × (all (role_matches (merge_intervals intervals) found) references ≡ true)
  unfolding roles_verdict
  roles_verdict-passes references (bad reason) found h = cc
  roles_verdict-passes references (ok rules) found h =
      elim (Bool-cases (all (role_matches (merge_intervals intervals) rules) references)) [
        | inl e ↦
            let same : rules ≡ found = cc (rw e at h) in
            (
              ap ok same,
              subst (λ r. all (role_matches (merge_intervals intervals) r) references ≡ true) same
                  e,
            )
        | inr e ↦ absurd (cc (rw e at h))
      ]

  active-IsServed :
      (item : Related) (active found : List Rule)
      → All AreRulePorts active
      → active_verdict (merge_intervals intervals) item active ≡ passes found
      → (rules : List Rule) × (matching_loaded_rules active item.row ≡ ok rules)
        × (rules ≢ [])
        × All (IsExpanded intervals rules) item.references
  unfolding active_verdict
  active-IsServed item [] found a h = cc
  active-IsServed item (r ∷ rs) found a h =
      let (e, each) =
        roles_verdict-passes item.references (matching_loaded_rules (r ∷ rs) item.row) found h in
      let (some_found, parsed) = matching-ok (r ∷ rs) found item.row a e in
      (found, e, some_found, roles-IsExpanded found item.references parsed each)

  check_items-IsServed :
      (loaded : List Rule) (matches : List Match) (related : List Related)
      → All AreRulePorts loaded
      → (check_items (merge_intervals intervals) loaded matches related).status ≡ verified
      → All (IsServed intervals loaded) related
  unfolding check_items item_verdict
  check_items-IsServed loaded matches [] a h = tt
  check_items-IsServed loaded matches (item ∷ items) a h =
      let (found, e, rest) =
        after-verified (item_verdict (merge_intervals intervals) loaded item) item.uuid matches _
          h in
      (
        active-IsServed item (rules_of item.uuid loaded) found (rules_of-Loaded item.uuid loaded a)
            e,
        check_items-IsServed loaded (matches ++ map (match_of item.uuid) found) items a rest,
      )

module _ (wide : ℕ → Bool) (alias snapshot consumers : Value) (name : Text)
    (intervals : List Interval) (content : alias_intervals alias ≡ ok (name, intervals))
    (a : AreIntervals intervals) (sections : List (Text × Fields))
    (complete : snapshot_rules snapshot ≡ ok sections) where
  Loaded-IsCovered :
      (related : List Related) (l : Checked (List Rule))
      → related_consumers name consumers ≡ ok related
      → related ≢ []
      → load wide (map (λ r. r.uuid) related) sections ≡ l
      → Loaded l
      → (check_loaded (merge_intervals intervals) related l).status ≡ verified
      → IsCovered wide alias snapshot consumers
  unfolding check_loaded result
  Loaded-IsCovered related (bad reason) r n e k h = cc
  Loaded-IsCovered related (ok loaded) r n e k h = record {
    name = name;
    intervals = intervals;
    sections = sections;
    related = related;
    loaded = loaded;
    content = content;
    complete = complete;
    relates = r;
    some_related = n;
    parsed = e;
    served = check_items-IsServed intervals a loaded [] related k h;
  }

  related-IsCovered :
      (r : Checked (List Related))
      → related_consumers name consumers ≡ r
      → (check_related wide (merge_intervals intervals) sections r).status ≡ verified
      → IsCovered wide alias snapshot consumers
  unfolding check_related result
  related-IsCovered (bad reason) e h = cc
  related-IsCovered (ok []) e h = cc
  related-IsCovered (ok (item ∷ items)) e h =
      let uuids = map (λ r. r.uuid) (item ∷ items) in
      Loaded-IsCovered (item ∷ items) (load wide uuids sections) e (λ n. cc) refl
        (load-Loaded wide uuids sections) h

sections-IsCovered :
    (wide : ℕ → Bool) (alias snapshot consumers : Value) (name : Text) (intervals : List Interval)
    → alias_intervals alias ≡ ok (name, intervals)
    → AreIntervals intervals
    → (s : Checked (List (Text × Fields))) → snapshot_rules snapshot ≡ s
    → (check_sections wide name (merge_intervals intervals) consumers s).status ≡ verified
    → IsCovered wide alias snapshot consumers
unfolding check_sections result
sections-IsCovered wide alias snapshot consumers name intervals content a (bad reason) e h = cc
sections-IsCovered wide alias snapshot consumers name intervals content a (ok sections) e h =
    related-IsCovered wide alias snapshot consumers name intervals content a sections e
      (related_consumers name consumers) refl h

content-IsCovered :
    (wide : ℕ → Bool) (alias snapshot consumers : Value) (c : Checked (Text × List Interval))
    → alias_intervals alias ≡ c
    → NamedContent c
    → (check_ports wide snapshot consumers c).status ≡ verified
    → IsCovered wide alias snapshot consumers
unfolding check_ports result
content-IsCovered wide alias snapshot consumers (bad reason) e a h = cc
content-IsCovered wide alias snapshot consumers (ok (name, intervals)) e a h =
    sections-IsCovered wide alias snapshot consumers name intervals e a (snapshot_rules snapshot)
      refl h

-- A port alias is reported as verified only if its content is complete and the rules of the snapshot
-- are, at least one enabled consumer refers to it, and for each of those at least one rule with its
-- UUID and its protocols is loaded, and the rules of that kind expand in each role that refers to
-- the alias to exactly the ports of its content.
pub check_port_alias_active-IsCovered :
    (wide : ℕ → Bool) (alias snapshot consumers : Value)
    → (check_port_alias_active wide alias snapshot consumers).status ≡ verified
    → IsCovered wide alias snapshot consumers
unfolding check_port_alias_active
check_port_alias_active-IsCovered wide alias snapshot consumers h =
    content-IsCovered wide alias snapshot consumers (alias_intervals alias) refl
      (alias_intervals-NamedContent alias) h
