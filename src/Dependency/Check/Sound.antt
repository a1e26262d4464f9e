-- ===== src/Dependency/Check/Sound.antt =====
-- What `valid_state` of src/iaas/opnsense_workflow/planning.py says of a state, and of the states
-- between the stages that `stages_for` makes of it.
use iaas.Prelude.{
  ℕ, ◌≡◌, refl, sym, ap, subst, ◌<◌, inl, inr, Bool, true, Option, none, some, List, [], ◌∷◌, Text,
  codes, length, All, Bool-cases, Option-cases,
}
use iaas.Value.{Value, Fields, get}
use iaas.Staging.{Marker, State, find, is_marked}
use iaas.Dependency.{cut_at, configuration, object_references}
use iaas.Dependency.Check.{
  Labels, Graph, keys, label_in, labels_from, is_interface, is_fit, resolve, add_dependency,
  dependencies, is_covered, are_tokens_typed, object_dependencies, graph_of, peel, valid_state,
}
use iaas.Dependency.Check.Topology.{All-map, peel-IsRanked}
use iaas.Dependency.Check.Labels.{AreDistinct, LeadTo, present, labels_from-present}

module _ (interfaces : List Text) (labels : Labels) (state : State) where
  -- A reference leads to a native interface that no object is labelled with, or to the object with
  -- the label, which is one that the object may refer to and which has the property.
  pub data IsResolved (resource : Value) (Q : Marker → Type 0) (ref : Text) : Type 0 where
    native :
        (category name : Text)
        → cut_at b':' ref ≡ (category, some name)
        → label_in ref labels ≡ none
        → is_interface interfaces category name ≡ true
        → IsResolved resource Q ref
    linked :
        (category name : Text) (d : Marker)
        → cut_at b':' ref ≡ (category, some name)
        → label_in ref labels ≡ some d
        → is_fit resource category (find d state) ≡ true
        → Q d
        → IsResolved resource Q ref

  resolve-IsResolved :
      (resource : Value) (Q : Marker → Type 0) (ref : Text) (o : Option Marker)
      → resolve interfaces labels state resource ref ≡ some o
      → All Q (add_dependency o [])
      → IsResolved resource Q ref
  unfolding resolve add_dependency
  resolve-IsResolved resource Q ref o h q = elim (Option-cases (cut_at b':' ref).1) [
    | inl e ↦ absurd (cc (rw (e, resolve) at h))
    | inr (name, e) ↦
        let category = (cut_at b':' ref).0 in
        let cut : cut_at b':' ref ≡ (category, some name) = ap (λ r. (category, r)) e in
        elim (Option-cases (label_in ref labels)) [
          | inl k ↦ elim (Bool-cases (is_interface interfaces category name)) [
            | inl i ↦ native category name cut k i
            | inr i ↦ absurd (cc (rw (e, k, i, resolve) at h))
          ]
          | inr (d, k) ↦ elim (Bool-cases (is_fit resource category (find d state))) [
            | inl i ↦
                let found : some (some d) ≡ some o = rw (e, k, i, resolve) at h in
                let same : o ≡ some d = cc found in
                linked category name d cut k i (subst (λ x. All Q (add_dependency x [])) same q).0
            | inr i ↦ absurd (cc (rw (e, k, i, resolve) at h))
          ]
        ]
  ]

  add_dependency-All :
      (Q : Marker → Type 0) (o : Option Marker) (deps : List Marker)
      → All Q (add_dependency o deps)
      → All Q (add_dependency o []) × All Q deps
  unfolding add_dependency
  add_dependency-All Q none deps q = (tt, q)
  add_dependency-All Q (some d) deps q = ((q.0, tt), q.1)

  dependencies-IsResolved :
      (resource : Value) (Q : Marker → Type 0) (refs : List Text) (deps : List Marker)
      → dependencies interfaces labels state resource refs ≡ some deps
      → All Q deps
      → All (IsResolved resource Q) refs
  unfolding dependencies
  dependencies-IsResolved resource Q [] deps h q = tt
  dependencies-IsResolved resource Q (ref ∷ refs) deps h q =
      elim (Option-cases (resolve interfaces labels state resource ref)) [
        | inl e ↦ absurd (cc (rw (e, dependencies) at h))
        | inr (o, e) ↦ elim (Option-cases (dependencies interfaces labels state resource refs)) [
          | inl k ↦ absurd (cc (rw (e, k, dependencies) at h))
          | inr (rest, k) ↦
              let same : some (add_dependency o rest) ≡ some deps = rw (e, k, dependencies) at h in
              let deps_eq : deps ≡ add_dependency o rest = cc same in
              let (first, later) = add_dependency-All Q o rest (subst (λ x. All Q x) deps_eq q) in
              (
                resolve-IsResolved resource Q ref o e first,
                dependencies-IsResolved resource Q refs rest k later,
              )
        ]
      ]

  module _ (is_network : Text → Bool) (printed : Value → Text) where
    -- An object has complete evidence, its references lead to objects of the property, and the
    -- aliases in its fields have the type of the field.
    pub record IsSettled (Q : Marker → Type 0) (obj : Fields) : Type 0 where
      pub refs : List Text
      pub covered : is_covered obj ≡ true
      pub referred : object_references is_network printed obj ≡ some refs
      pub resolved : All (IsResolved (get (codes "resource") obj) Q) refs
      pub typed :
          are_tokens_typed printed labels state (get (codes "resource") obj) (configuration obj)
          ≡ true

    object_dependencies-IsSettled :
        (Q : Marker → Type 0) (obj : Fields) (deps : List Marker)
        → object_dependencies is_network printed interfaces labels state obj ≡ some deps
        → All Q deps
        → IsSettled Q obj
    unfolding object_dependencies
    object_dependencies-IsSettled Q obj deps h q =
        let resource = get (codes "resource") obj in
        elim (Bool-cases (is_covered obj)) [
          | inr e ↦ absurd (cc (rw (e, object_dependencies) at h))
          | inl e ↦ elim (Option-cases (object_references is_network printed obj)) [
            | inl r ↦ absurd (cc (rw (e, r, object_dependencies) at h))
            | inr (refs, r) ↦
                elim (Option-cases (dependencies interfaces labels state resource refs)) [
                  | inl d ↦ absurd (cc (rw (e, r, d, object_dependencies) at h))
                  | inr (found, d) ↦
                      elim (Bool-cases
                        (are_tokens_typed printed labels state resource (configuration obj))) [
                          | inr y ↦ absurd (cc (rw (e, r, d, y, object_dependencies) at h))
                          | inl y ↦
                              let same : some found ≡ some deps =
                                rw (e, r, d, y, object_dependencies) at h in
                              let deps_eq : deps ≡ found = cc same in
                              record {
                                refs = refs;
                                covered = e;
                                referred = r;
                                resolved =
                                    dependencies-IsResolved resource Q refs found d
                                      (subst (λ x. All Q x) deps_eq q);
                                typed = y;
                              }
                        ]
                ]
          ]
        ]

    -- Every object that is there is settled.
    abbrev pub AllSettled : (Marker → Marker → Type 0) → State → Type 0
    AllSettled Q [] = Unit
    AllSettled Q ((m, none) ∷ objs) = AllSettled Q objs
    AllSettled Q ((m, some obj) ∷ objs) = IsSettled (Q m) obj × AllSettled Q objs

    graph_of-keys :
        (objs : State) (graph : Graph)
        → graph_of is_network printed interfaces labels state objs ≡ some graph
        → keys graph ≡ present objs
    unfolding graph_of
    graph_of-keys [] graph h = let same : graph ≡ [] = cc h in rw same refl
    graph_of-keys ((m, none) ∷ objs) graph h = graph_of-keys objs graph h
    graph_of-keys ((m, some obj) ∷ objs) graph h =
        elim (Option-cases (object_dependencies is_network printed interfaces labels state obj)) [
          | inl e ↦ absurd (cc (rw (e, graph_of) at h))
          | inr (deps, e) ↦
              elim (Option-cases (graph_of is_network printed interfaces labels state objs)) [
                | inl k ↦ absurd (cc (rw (e, k, graph_of) at h))
                | inr (rest, k) ↦
                    let same : some ((m, deps) ∷ rest) ≡ some graph = rw (e, k, graph_of) at h in
                    let graph_eq : graph ≡ (m, deps) ∷ rest = cc same in
                    rw graph_eq (ap (λ l. m ∷ l) (graph_of-keys objs rest k))
              ]
        ]

    graph_of-AllSettled :
        (Q : Marker → Marker → Type 0) (objs : State) (graph : Graph)
        → graph_of is_network printed interfaces labels state objs ≡ some graph
        → All (λ e. All (Q e.0) e.1) graph
        → AllSettled Q objs
    unfolding graph_of
    graph_of-AllSettled Q [] graph h q = tt
    graph_of-AllSettled Q ((m, none) ∷ objs) graph h q = graph_of-AllSettled Q objs graph h q
    graph_of-AllSettled Q ((m, some obj) ∷ objs) graph h q =
        elim (Option-cases (object_dependencies is_network printed interfaces labels state obj)) [
          | inl e ↦ absurd (cc (rw (e, graph_of) at h))
          | inr (deps, e) ↦
              elim (Option-cases (graph_of is_network printed interfaces labels state objs)) [
                | inl k ↦ absurd (cc (rw (e, k, graph_of) at h))
                | inr (rest, k) ↦
                    let same : some ((m, deps) ∷ rest) ≡ some graph = rw (e, k, graph_of) at h in
                    let graph_eq : graph ≡ (m, deps) ∷ rest = cc same in
                    let (first, later) = subst (λ g. All (λ x. All (Q x.0) x.1) g) graph_eq q in
                    (
                      object_dependencies-IsSettled (Q m) obj deps e first,
                      graph_of-AllSettled Q objs rest k later,
                    )
              ]
        ]

    IsResolved-map :
        (resource : Value) (markers : List Marker) (P : Marker → Type 0)
        → LeadTo markers labels
        → (ref : Text) → IsResolved resource (λ d. is_marked d markers ≡ true → P d) ref
        → IsResolved resource P ref
    IsResolved-map resource markers P lead ref (native category name cut free i) =
        native category name cut free i
    IsResolved-map resource markers P lead ref (linked category name d cut found fit p) =
        linked category name d cut found fit (p (lead ref d found))

    IsSettled-map :
        (markers : List Marker) (P : Marker → Type 0) (obj : Fields)
        → LeadTo markers labels
        → IsSettled (λ d. is_marked d markers ≡ true → P d) obj
        → IsSettled P obj
    IsSettled-map markers P obj lead s = record {
      refs = s.refs;
      covered = s.covered;
      referred = s.referred;
      resolved = All-map _ _ (IsResolved-map _ markers P lead) s.refs s.resolved;
      typed = s.typed;
    }

    AllSettled-map :
        (markers : List Marker) (P : Marker → Marker → Type 0) (objs : State)
        → LeadTo markers labels
        → AllSettled (λ m d. is_marked d markers ≡ true → P m d) objs
        → AllSettled P objs
    AllSettled-map markers P [] lead s = tt
    AllSettled-map markers P ((m, none) ∷ objs) lead s = AllSettled-map markers P objs lead s
    AllSettled-map markers P ((m, some obj) ∷ objs) lead (s, ss) =
        (IsSettled-map markers (P m) obj lead s, AllSettled-map markers P objs lead ss)

-- A state whose dependencies are complete, unambiguous and without a cycle.
pub record IsValid (is_network : Text → Bool) (printed : Value → Text) (interfaces : List Text)
    (state : State) : Type 0 where
  pub labels : Labels
  pub indexed : labels_from [] state ≡ some labels
  pub distinct : AreDistinct labels
  pub rank : Marker → ℕ
  pub settled : AllSettled interfaces labels state is_network printed (λ m d. rank d < rank m) state

-- A valid state has distinct labels; the evidence of each object is complete; each reference leads to
-- a native interface or to an object that may be referred to so; the aliases of a rule have the types
-- of their fields; and there is a rank by which each object stands above all objects it refers to.
pub valid_state-IsValid :
    (is_network : Text → Bool) (printed : Value → Text) (interfaces : List Text) (state : State)
    → valid_state is_network printed interfaces state ≡ true
    → IsValid is_network printed interfaces state
unfolding valid_state
valid_state-IsValid is_network printed interfaces state h =
    elim (Option-cases (labels_from [] state)) [
      | inl e ↦ absurd (cc (rw (e, valid_state) at h))
      | inr (labels, e) ↦
          elim (Option-cases (graph_of is_network printed interfaces labels state state)) [
            | inl k ↦ absurd (cc (rw (e, k, valid_state) at h))
            | inr (graph, k) ↦
                let done : peel (length graph) graph ≡ true = rw (e, k, valid_state) at h in
                let (rank, ranked) = peel-IsRanked (length graph) graph done in
                let (distinct, lead) = labels_from-present state labels e in
                let same = graph_of-keys interfaces labels state is_network printed state graph k in
                record {
                  labels = labels;
                  indexed = e;
                  distinct = distinct;
                  rank = rank;
                  settled =
                      AllSettled-map interfaces labels state is_network printed (keys graph) _ state
                        (subst (λ ms. LeadTo ms labels) (sym same) lead)
                        (graph_of-AllSettled interfaces labels state is_network printed _ state
                          graph k ranked);
                }
          ]
    ]
