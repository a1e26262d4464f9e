-- ===== src/Staging/Order.antt =====
-- `stages_for` of src/iaas/opnsense_workflow/planning.py: the stages are an order of the pending
-- items that keeps every state on the way valid, and there are none only where there is no next item.
use iaas.Prelude.{
  ℕ, zero, suc, ◌≡◌, ◌≢◌, refl, ◌∙◌, ap, sym, subst, inl, inr, Bool, true, false, ◌&&◌, Option,
  none, some, List, [], ◌∷◌, ◌++◌, Text, text_eq, text_eq_iff, map, length, All, arith, Bool-cases,
  Option-cases, ◌≤◌,
}
use mathlib.Core.List.{Perm, append-nil}
use mathlib.Core.List.Perm
use iaas.Value.{Fields}
use iaas.Staging.{
  Marker, Item, State, overlay, Difference, Mode, save, activation_recovery, Stage, changed_of,
  mode_of, pending_of, same_mode, new_stage, add_stage, apply, admit, order, stages_for,
}

-- What is written, one identity after the other.
abbrev pub Entry : Type 0
Entry = Text × Mode × List Text

abbrev pub entry : List Marker → Item → Entry
entry changed item = (item.resource, mode_of changed item, item.identity)

abbrev pub at_stage : Stage → List Text → Entry
at_stage s identity = (s.resource, s.mode, identity)

abbrev pub entries : List Stage → List Entry
entries [] = []
entries (s ∷ stages) = map (at_stage s) s.identities ++ entries stages

same_mode-≡ : (m n : Mode) → same_mode m n ≡ true → m ≡ n
same_mode-≡ save save h = refl
same_mode-≡ activation_recovery activation_recovery h = refl
same_mode-≡ save activation_recovery h = cc
same_mode-≡ activation_recovery save h = cc

append_one : (xs : List Entry) (x : Entry) (ys : List Entry) → (xs ++ x ∷ []) ++ ys ≡ xs ++ x ∷ ys
append_one [] x ys = refl
append_one (z ∷ xs) x ys = ap (λ l. z ∷ l) (append_one xs x ys)

map_append :
    (s : Stage) (xs : List (List Text)) (y : List Text)
    → map (at_stage s) (xs ++ y ∷ []) ≡ map (at_stage s) xs ++ at_stage s y ∷ []
map_append s [] y = refl
map_append s (x ∷ xs) y = ap (λ l. at_stage s x ∷ l) (map_append s xs y)

append_assoc : (xs ys zs : List Entry) → (xs ++ ys) ++ zs ≡ xs ++ (ys ++ zs)
append_assoc [] ys zs = refl
append_assoc (x ∷ xs) ys zs = ap (λ l. x ∷ l) (append_assoc xs ys zs)

-- The stages after an item write one entry more.
entries-add_stage :
    (stages : List Stage) (item : Item) (mode : Mode)
    → entries (add_stage stages item mode)
      ≡ entries stages ++ (item.resource, mode, item.identity) ∷ []
unfolding add_stage new_stage
entries-add_stage [] item mode = refl
entries-add_stage (s ∷ []) item mode =
    elim (Bool-cases (text_eq s.resource item.resource && same_mode s.mode mode)) [
      | inl e ↦
          let resource : s.resource ≡ item.resource =
            (text_eq_iff s.resource item.resource).0 (ground (arith, e)) in
          let kind : s.mode ≡ mode = same_mode-≡ s.mode mode (ground (arith, e)) in
          rw e (
            ap (λ l. l ++ []) (map_append s s.identities item.identity)
            ∙ (append-nil _
                ∙ (ap (λ r. map (at_stage s) s.identities ++ (r, s.mode, item.identity) ∷ [])
                      resource
                    ∙ (ap
                          (λ m.
                            map (at_stage s) s.identities ++ (item.resource, m, item.identity) ∷ [])
                          kind
                        ∙ ap (λ l. l ++ (item.resource, mode, item.identity) ∷ [])
                            (sym (append-nil (map (at_stage s) s.identities)))))))
      | inr e ↦ rw e (
          ap (λ l. l ++ (item.resource, mode, item.identity) ∷ [])
            (sym (append-nil (map (at_stage s) s.identities))))
    ]
entries-add_stage (s ∷ t ∷ ts) item mode =
    ap (λ l. map (at_stage s) s.identities ++ l) (entries-add_stage (t ∷ ts) item mode)
    ∙ sym (append_assoc (map (at_stage s) s.identities) (entries (t ∷ ts)) _)

module _ (semantic : Text → Fields → Fields) (valid_state : State → Bool) where
  -- Every state after an item is valid.
  abbrev pub IsSafe : State → List Item → Type 0
  IsSafe state [] = Unit
  IsSafe state (item ∷ items) =
      (valid_state (overlay semantic state item) ≡ true)
      × IsSafe (overlay semantic state item) items

  -- None of the items can be written next.
  abbrev pub IsStuck : State → List Item → Type 0
  IsStuck state items =
      (items ≢ []) × All (λ item. valid_state (overlay semantic state item) ≡ false) items

  -- The outcome for the items that are pending in a state, behind what is `written` already.
  abbrev pub IsOrder : List Marker → State → List Item → List Entry → Option (List Stage) → Type 0
  IsOrder changed state pending written (some stages) =
      (sequence : List Item) × Perm pending sequence
      × IsSafe state sequence
      × (entries stages ≡ written ++ map (entry changed) sequence)
  IsOrder changed state pending written none =
      (sequence rest : List Item) × Perm pending (sequence ++ rest)
      × IsSafe state sequence
      × IsStuck (apply semantic valid_state state sequence) rest

  admit-none :
      (state : State) (items : List Item)
      → admit semantic valid_state state items ≡ none
      → All (λ item. valid_state (overlay semantic state item) ≡ false) items
  unfolding admit
  admit-none state [] h = tt
  admit-none state (item ∷ items) h =
      elim (Bool-cases (valid_state (overlay semantic state item))) [
        | inl e ↦ absurd (cc (rw (e, admit) at h))
        | inr e ↦ elim (Option-cases (admit semantic valid_state state items)) [
          | inl k ↦ (e, admit-none state items k)
          | inr (a, k) ↦ absurd (cc (rw (e, k, admit) at h))
        ]
      ]

  admit-some :
      (state : State) (items rest : List Item) (item : Item)
      → admit semantic valid_state state items ≡ some (item, rest)
      → (valid_state (overlay semantic state item) ≡ true) × Perm items (item ∷ rest)
  unfolding admit
  admit-some state [] rest item h = cc
  admit-some state (i ∷ is) rest item h =
      elim (Bool-cases (valid_state (overlay semantic state i))) [
        | inl e ↦
            let found : some (i, is) ≡ some (item, rest) = rw (e, admit) at h in
            let first : i ≡ item = cc found in
            let others : is ≡ rest = cc found in
            (
              subst (λ j. valid_state (overlay semantic state j) ≡ true) first e,
              subst (λ js. Perm (i ∷ is) (item ∷ js)) others
                  (subst (λ j. Perm (i ∷ is) (j ∷ is)) first (Perm.refl (i ∷ is))),
            )
        | inr e ↦ elim (Option-cases (admit semantic valid_state state is)) [
          | inl k ↦ absurd (cc (rw (e, k, admit) at h))
          | inr ((j, js), k) ↦
              let found : some (j, i ∷ js) ≡ some (item, rest) = rw (e, k, admit) at h in
              let first : j ≡ item = cc found in
              let others : i ∷ js ≡ rest = cc found in
              let (valid, perm) = admit-some state is js j k in
              (
                subst (λ x. valid_state (overlay semantic state x) ≡ true) first valid,
                subst (λ xs. Perm (i ∷ is) (item ∷ xs)) others
                    (subst (λ x. Perm (i ∷ is) (x ∷ i ∷ js)) first
                      (Perm.trans (Perm.cons i perm) (Perm.swap j i js))),
              )
        ]
      ]

  admit-length :
      (state : State) (items rest : List Item) (item : Item)
      → admit semantic valid_state state items ≡ some (item, rest)
      → length items ≡ suc (length rest)
  unfolding admit
  admit-length state [] rest item h = cc
  admit-length state (i ∷ is) rest item h =
      elim (Bool-cases (valid_state (overlay semantic state i))) [
        | inl e ↦
            let found : some (i, is) ≡ some (item, rest) = rw (e, admit) at h in
            let others : is ≡ rest = cc found in ap (λ l. suc (length l)) others
        | inr e ↦ elim (Option-cases (admit semantic valid_state state is)) [
          | inl k ↦ absurd (cc (rw (e, k, admit) at h))
          | inr ((j, js), k) ↦
              let found : some (j, i ∷ js) ≡ some (item, rest) = rw (e, k, admit) at h in
              let others : i ∷ js ≡ rest = cc found in
              ap suc (admit-length state is js j k ∙ ap length others)
        ]
      ]

  -- One more item in front.
  IsOrder-cons :
      (changed : List Marker) (state : State) (item : Item) (pending rest : List Item)
      (written : List Entry) (o : Option (List Stage))
      → valid_state (overlay semantic state item) ≡ true
      → Perm pending (item ∷ rest)
      → IsOrder changed (overlay semantic state item) rest (written ++ entry changed item ∷ []) o
      → IsOrder changed state pending written o
  unfolding apply
  IsOrder-cons changed state item pending rest written (some stages) v p (sequence, q, safe, e) = (
    item ∷ sequence,
    Perm.trans p (Perm.cons item q),
    (v, safe),
    e ∙ append_one written (entry changed item) (map (entry changed) sequence),
  )
  IsOrder-cons changed state item pending rest written none v p (sequence, left, q, safe, stuck) =
      (item ∷ sequence, left, Perm.trans p (Perm.cons item q), (v, safe), stuck)

  -- The rounds behind the admitted item.
  next-IsOrder :
      (changed : List Marker) (fuel : ℕ) (state : State) (item : Item) (items : List Item)
      (stages : List Stage)
      → ((s : State) (rest : List Item) (ss : List Stage)
          → length rest ≤ fuel
          → IsOrder changed s rest (entries ss) (order semantic valid_state changed fuel s rest ss))
      → length items ≤ fuel
      → (o : Option (Item × List Item)) → admit semantic valid_state state (item ∷ items) ≡ o
      → IsOrder changed state (item ∷ items) (entries stages) (elim o [
        | none ↦ none
        | some (found, rest) ↦
            order semantic valid_state changed fuel
              (overlay semantic state found)
              rest
              (add_stage stages found (mode_of changed found))
      ])
  unfolding apply
  next-IsOrder changed fuel state item items stages later h none e = (
    [],
    item ∷ items,
    Perm.refl (item ∷ items),
    tt,
    ((λ n. cc), admit-none state (item ∷ items) e),
  )
  next-IsOrder changed fuel state item items stages later h (some (found, rest)) e =
      let (v, p) = admit-some state (item ∷ items) rest found e in
      let written = add_stage stages found (mode_of changed found) in
      let shorter = admit-length state (item ∷ items) rest found e in
      IsOrder-cons changed state found (item ∷ items) rest (entries stages) _ v p (
        subst
          (λ w.
            IsOrder changed (overlay semantic state found) rest w
              (order semantic valid_state changed fuel (overlay semantic state found) rest written))
          (entries-add_stage stages found (mode_of changed found))
          (later (overlay semantic state found) rest written (omega (arith, shorter, h))))

  order-IsOrder :
      (changed : List Marker) (fuel : ℕ) (state : State) (pending : List Item) (stages : List Stage)
      → length pending ≤ fuel
      → IsOrder changed state pending
          (entries stages)
          (order semantic valid_state changed fuel state pending stages)
  unfolding order
  order-IsOrder changed fuel state [] stages h =
      ([], Perm.refl [], tt, sym (append-nil (entries stages)))
  order-IsOrder changed zero state (item ∷ items) stages h = absurd (omega (arith, h))
  order-IsOrder changed (suc fuel) state (item ∷ items) stages h =
      next-IsOrder changed fuel state item items stages
        (λ s rest ss k. order-IsOrder changed fuel s rest ss k) (omega (arith, h))
        (admit semantic valid_state state (item ∷ items)) refl

-- If the state with all selected writes is valid, the stages write exactly the changed and recovered
-- items, each once, in an order that keeps the state valid after every write; there are no stages
-- only if after such an order of some of them no other item can be written.
pub stages_for-IsOrder :
    (semantic : Text → Fields → Fields) (valid_state : State → Bool) (selected : List Item)
    (before : State) (differences : List Difference) (recovery : List Marker)
    → valid_state (apply semantic valid_state before selected) ≡ true
    → IsOrder semantic valid_state
        (changed_of differences)
        before
        (pending_of (changed_of differences) recovery selected)
        []
        (stages_for semantic valid_state selected before differences recovery)
unfolding stages_for
stages_for-IsOrder semantic valid_state selected before differences recovery h = rw h (
    order-IsOrder semantic valid_state (changed_of differences) _ before
      (pending_of (changed_of differences) recovery selected) [] (omega arith))
