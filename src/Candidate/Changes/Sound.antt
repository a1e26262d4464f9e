-- ===== src/Candidate/Changes/Sound.antt =====
-- What `plan` of src/iaas/opnsense_workflow/planning.py promises of a candidate.
use iaas.Prelude.{
  ◌≡◌, refl, ap, subst, inl, inr, Bool, Option, none, some, List, [], ◌∷◌, Text, map, Bool-cases,
}
use mathlib.Core.List.{Perm}
use iaas.Value.{Value, Fields}
use iaas.Staging.{Item, State, Stage, changed_of, pending_of, apply, stages_for}
use iaas.Staging.Order.{entry, entries}
use iaas.Dependency.Check.{valid_state}
use iaas.Dependency.Check.Sound.{IsValid}
use iaas.Dependency.Stages.{AreValid, stages_for-AreValid}
use iaas.Confirm.{Bound, bind_stages, Change, disposition}
use iaas.Candidate.{Observations, relevant}
use iaas.Candidate.Changes.{
  Request, Row, Candidate, difference_row, differences_of, interfaces_from, observation_at,
  is_within, change_row, bound, staged, compared, related, candidate_of,
}
use iaas.Candidate.Changes.Allowed.{AreDifferences, differences_of-AreDifferences}

abbrev pub written : List Bound → List Stage
written [] = []
written (b ∷ bs) = b.stage ∷ written bs

module _ (semantic : Text → Fields → Fields) (is_network : Text → Bool) (printed : Value → Text)
    (request : Request) (selected : List Item) (observations : Observations) where
  -- The differences of a candidate are allowed, and its stages are a valid order of them.
  pub record IsCandidate (c : Candidate) : Type 0 where
    pub interfaces : List Text
    pub related : relevant is_network printed observations selected ≡ some c.before
    pub named : interfaces_from observations ≡ some interfaces
    pub differences : AreDifferences semantic request c.before selected c.differences
    pub after :
        IsValid is_network printed interfaces
          (apply semantic (valid_state is_network printed interfaces) c.before selected)
    pub sequence : List Item
    pub complete :
        Perm
          (pending_of (changed_of (map difference_row c.differences)) request.recovery selected)
          sequence
    pub valid : AreValid semantic is_network printed interfaces c.before sequence
    pub order :
        entries (written c.stages)
        ≡ map (entry (changed_of (map difference_row c.differences))) sequence
    pub admission : c.admission ≡ disposition c.stages

  written-bind_stages :
      (stages : List Stage) (changes : List Change) (observed : Text → Fields)
      → written (bind_stages is_network stages changes observed) ≡ stages
  unfolding bind_stages
  written-bind_stages [] changes observed = refl
  written-bind_stages (s ∷ stages) changes observed =
      ap (λ l. s ∷ l) (written-bind_stages stages changes observed)

  bound-IsCandidate :
      (before : State) (rows : List Row) (interfaces : List Text) (c : Candidate)
      (o : Option (List Stage))
      → relevant is_network printed observations selected ≡ some before
      → interfaces_from observations ≡ some interfaces
      → AreDifferences semantic request before selected rows
      → stages_for semantic
          (valid_state is_network printed interfaces)
          selected
          before
          (map difference_row rows)
          request.recovery
        ≡ o
      → bound semantic is_network printed observations before rows o ≡ some c
      → IsCandidate c
  unfolding bound
  bound-IsCandidate before rows interfaces c none r i d e h = absurd (cc h)
  bound-IsCandidate before rows interfaces c (some stages) r i d e h =
      let (after, (sequence, perm, valid, order)) =
        stages_for-AreValid semantic is_network printed interfaces selected before
          (map difference_row rows) request.recovery stages e in
      let bs = bind_stages is_network stages (map change_row rows) (observation_at observations) in
      let made : Candidate = record {
        before = before;
        differences = rows;
        stages = bs;
        admission = disposition bs;
      } in
      let same : made ≡ c = cc h in
      subst IsCandidate same (record {
        interfaces = interfaces;
        related = r;
        named = i;
        differences = d;
        after = after;
        sequence = sequence;
        complete = perm;
        valid = valid;
        order =
            rw (written-bind_stages stages (map change_row rows) (observation_at observations))
              order;
        admission = refl;
      })

  staged-IsCandidate :
      (before : State) (rows : List Row) (c : Candidate) (o : Option (List Text))
      → relevant is_network printed observations selected ≡ some before
      → interfaces_from observations ≡ o
      → AreDifferences semantic request before selected rows
      → staged semantic is_network printed request selected observations before o rows ≡ some c
      → IsCandidate c
  unfolding staged
  staged-IsCandidate before rows c none r i d h = absurd (cc h)
  staged-IsCandidate before rows c (some interfaces) r i d h =
      bound-IsCandidate before rows interfaces c _ r i d refl h

  compared-IsCandidate :
      (before : State) (c : Candidate) (o : Option (List Row))
      → relevant is_network printed observations selected ≡ some before
      → differences_of semantic request selected before ≡ o
      → compared semantic is_network printed request selected observations before o ≡ some c
      → IsCandidate c
  unfolding compared
  compared-IsCandidate before c none r e h = absurd (cc h)
  compared-IsCandidate before c (some rows) r e h =
      staged-IsCandidate before rows c (interfaces_from observations) r refl
        (differences_of-AreDifferences semantic request selected before rows e) h

  related-IsCandidate :
      (c : Candidate) (o : Option State)
      → relevant is_network printed observations selected ≡ o
      → related semantic is_network printed request selected observations o ≡ some c
      → IsCandidate c
  unfolding related
  related-IsCandidate c none r h = absurd (cc h)
  related-IsCandidate c (some before) r h = elim (Bool-cases (is_within request selected)) [
    | inl e ↦
        compared-IsCandidate before c (differences_of semantic request selected before) r refl
          (rw (e, related) at h)
    | inr e ↦ absurd (cc (rw (e, related) at h))
  ]

-- A candidate holds the live objects that its records touch and one allowed difference for each
-- record; its stages write exactly the changed and recovered records, each once, and after every
-- write, as after all of them, the state has distinct labels, resolved references and no cycle.
pub candidate_of-IsCandidate :
    (semantic : Text → Fields → Fields) (is_network : Text → Bool) (printed : Value → Text)
    (request : Request) (selected : List Item) (observations : Observations) (c : Candidate)
    → candidate_of semantic is_network printed request selected observations ≡ some c
    → IsCandidate semantic is_network printed request selected observations c
unfolding candidate_of
candidate_of-IsCandidate semantic is_network printed request selected observations c h =
    related-IsCandidate semantic is_network printed request selected observations c
      (relevant is_network printed observations selected) refl h
