-- ===== src/Confirm/Recheck.antt =====
-- `disposition` and `recheck` of src/iaas/opnsense_workflow/confirmation.py: a candidate is ready,
-- and stays so, only while the configuration of each stage is read completely.
use iaas.Prelude.{
  ◌≡◌, refl, ◌↔◌, Bool, true, false, not, ◌&&◌, Option, none, some, List, [], ◌∷◌, Text, codes,
  text_eq, if◌then◌else◌, All, arith, Bool-cases, Option-cases, inl, inr,
}
use iaas.Value.{Fields, str, get, is_text_iff}
use iaas.Staging.{same_marker, Stage}
use iaas.Confirm.{
  Change, Content, Trigger, recovery, created, source_changed, re_enabled, Update, initialize,
  update, same_source, Contract, stage_contract, Bound, bind_stages, blocked, disposition,
}

same_trigger : Trigger → Trigger → Bool
same_trigger recovery recovery = true
same_trigger created created = true
same_trigger source_changed source_changed = true
same_trigger re_enabled re_enabled = true
same_trigger _ _ = false

same_update : Update → Update → Bool
same_update initialize initialize = true
same_update update update = true
same_update _ _ = false

unfoldable pub same_actions : List Content → List Content → Bool
unfolding same_trigger same_update same_marker same_source
same_actions [] [] = true
same_actions (c ∷ cs) (d ∷ ds) =
    same_marker c.identity d.identity
    && (same_source c.source d.source
        && (same_trigger c.trigger d.trigger
            && (same_update c.action d.action && same_actions cs ds)))
same_actions _ _ = false

same_bool : Bool → Bool → Bool
same_bool true b = b
same_bool false b = not b

unfoldable pub same_contract : Contract → Contract → Bool
unfolding same_bool same_actions text_eq
same_contract c d =
    text_eq c.rule_resource d.rule_resource
    && (same_bool c.is_available d.is_available
        && (same_bool c.has_gap d.has_gap
            && (same_bool c.has_warning d.has_warning && same_actions c.actions d.actions)))

pub data RecheckError : Type 0 where
  blocked_candidate : RecheckError
  capability_lost : RecheckError
  conditions_changed : RecheckError
  actions_differ : RecheckError

-- The three requirements of one stage, `none` where they hold.
stage_error : Contract → Bound → Option RecheckError
unfolding same_contract same_actions
stage_error current b =
    if not current.is_available
    then some capability_lost
    else if not (same_contract current b.confirmation)
    then some conditions_changed
    else if not (same_actions b.content_actions current.actions)
    then some actions_differ
    else none

stages_error : (Text → Bool) → List Change → (Text → Fields) → List Bound → Option RecheckError
unfolding stage_error stage_contract
stages_error is_network changes observations [] = none
stages_error is_network changes observations (b ∷ bs) =
    let later = stages_error is_network changes observations bs in
    elim (stage_error (stage_contract is_network b.stage changes (observations b.stage.resource))
      b) [ some e ↦ some e | none ↦ later ]

-- The error that `recheck` raises, or `none`; `is_ready` is the admission of the candidate.
unfoldable pub recheck :
    (Text → Bool) → Bool → List Bound → List Change → (Text → Fields) → Option RecheckError
unfolding stages_error
recheck is_network is_ready stages changes observations =
    if not is_ready
    then some blocked_candidate
    else stages_error is_network changes observations stages

-- The configuration of the stage is read completely.
abbrev pub IsComplete : (Text → Fields) → Stage → Type 0
IsComplete observations stage =
    get (codes "status") (observations stage.resource) ≡ str (codes "complete")

available-IsComplete :
    (is_network : Text → Bool) (changes : List Change) (observations : Text → Fields)
    (stage : Stage)
    → ((stage_contract is_network stage changes (observations stage.resource)).is_available ≡ true)
      ↔ IsComplete observations stage
unfolding stage_contract
available-IsComplete is_network changes observations stage = is_text_iff (codes "complete") _

stage_error-none :
    (c : Contract) (b : Bound)
    → stage_error c b ≡ none
    → (c.is_available ≡ true)
      × (same_contract c b.confirmation ≡ true)
      × (same_actions b.content_actions c.actions ≡ true)
unfolding stage_error
stage_error-none c b h = ground arith

-- What a candidate that passes its recheck says of the observations.
pub record IsRechecked (is_network : Text → Bool) (changes : List Change)
    (observations : Text → Fields) (b : Bound) : Type 0 where
  pub complete : IsComplete observations b.stage
  pub unchanged :
      same_contract
        (stage_contract is_network b.stage changes (observations b.stage.resource))
        b.confirmation
      ≡ true
  pub reviewed :
      same_actions b.content_actions
        (stage_contract is_network b.stage changes (observations b.stage.resource)).actions
      ≡ true

stages_error-IsRechecked :
    (is_network : Text → Bool) (changes : List Change) (observations : Text → Fields)
    (stages : List Bound)
    → stages_error is_network changes observations stages ≡ none
    → All (IsRechecked is_network changes observations) stages
unfolding stages_error
stages_error-IsRechecked is_network changes observations [] h = tt
stages_error-IsRechecked is_network changes observations (b ∷ bs) h =
    let current = stage_contract is_network b.stage changes (observations b.stage.resource) in
    elim (Option-cases (stage_error current b)) [
      | inr (e, k) ↦ absurd (cc (rw (k, stages_error) at h))
      | inl k ↦
          let (available, unchanged, reviewed) = stage_error-none current b k in
          (
            record {
              complete = (available-IsComplete is_network changes observations b.stage).0 available;
              unchanged = unchanged;
              reviewed = reviewed;
            },
            stages_error-IsRechecked is_network changes observations bs (rw (k, stages_error) at h),
          )
    ]

-- A candidate passes its recheck only if it was admitted as ready and, for each stage, the
-- configuration is still read completely, the contract is the one that was bound to the stage, and
-- so are the content actions.
pub recheck-IsRechecked :
    (is_network : Text → Bool) (is_ready : Bool) (stages : List Bound) (changes : List Change)
    (observations : Text → Fields)
    → recheck is_network is_ready stages changes observations ≡ none
    → (is_ready ≡ true) × All (IsRechecked is_network changes observations) stages
unfolding recheck
recheck-IsRechecked is_network false stages changes observations h = cc
recheck-IsRechecked is_network true stages changes observations h =
    (refl, stages_error-IsRechecked is_network changes observations stages h)

-- The stages are ready exactly if the configuration of each is read completely.
pub disposition-IsComplete :
    (is_network : Text → Bool) (stages : List Stage) (changes : List Change)
    (observations : Text → Fields)
    → ((disposition (bind_stages is_network stages changes observations)).is_ready ≡ true)
      ↔ All (IsComplete observations) stages
unfolding disposition blocked bind_stages
disposition-IsComplete is_network [] changes observations = (λ h. tt, λ h. refl)
disposition-IsComplete is_network (s ∷ stages) changes observations =
    let (forth, back) = available-IsComplete is_network changes observations s in
    let (rest_forth, rest_back) = disposition-IsComplete is_network stages changes observations in
    elim (Bool-cases (stage_contract is_network s changes (observations s.resource)).is_available) [
      | inl e ↦ rw e (λ h. (forth e, rest_forth h), λ h. rest_back h.1)
      | inr e ↦ rw e (λ h. cc, λ h. absurd (cc (e, back h.0)))
    ]
