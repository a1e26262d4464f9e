-- ===== src/Execute/Apply/Stages.antt =====
-- The loop of `apply` in src/iaas/opnsense_workflow/executor.py over the stages of a candidate, and
-- what is done before and behind it. Printed warnings and the reason of a failure are left out.
pub mod Calm
pub mod Safe
pub mod Written
pub mod Ordered
pub mod Whole
pub mod Checked
pub mod Keyed
pub mod Steady
pub mod Steps
pub mod Entries
pub mod Recorded
pub mod Saved
use iaas.Prelude.{
  Bool, true, false, not, ◌&&◌, ◌||◌, Option, none, some, List, [], ◌∷◌, ◌++◌, Text, codes, text_eq,
  if◌then◌else◌, all, any, is_in, map, sorted_set,
}
use iaas.Value.{
  Value, Values, Fields, null, bool, str, list, dict, nil, cons, end, field, get, has_key, is_null,
  is_text, to_list,
}
use iaas.Staging.{
  Marker, Item, key, State, is_marked, Stage, overlay, Mode, save, activation_recovery,
}
use iaas.Dependency.Check.{valid_state}
use iaas.Confirm.{Bound, Content, Disposition}
use iaas.Confirm.Recheck.{recheck, RecheckError}
use iaas.Candidate.{Observations}
use iaas.Candidate.Changes.{Candidate, Row, change_row, observation_at, interfaces_from}
use iaas.Execute.{
  Env, Event, read, saved_result, saved_recovery, not_saved, written, activated, Machine, Run,
  ◌>>=◌, ◌>>◌, ok, require, lift, log, then_run, Entry, entry_key, AfterStatus, Outcome,
  ResultStatus, running, checked, fully_verified, Check, all_verified, check_items, shows,
}
use iaas.Execute.Live.{Binding, checked_live, activation_admission, read_all}
use iaas.Execute.Apply.{
  Reviewed, resources_of, chosen, stage_markers, or_no_entries, invalidated, save_file,
  update_outcome, save_recovery, save_result, readback, recovery_document,
}
use iaas.Execute.Apply.Answers.{native_content_results, is_saved, is_confirmed, has_diagnostics}

module _ (semantic : Text → Fields → Fields) (is_network : Text → Bool) (printed : Value → Text)
    (is_declarable : Text → Fields → Bool) (env : Env) (r : Reviewed) where
  pub live : State → Run (Observations × State)
  unfolding checked_live
  live expected = checked_live semantic is_network printed env r.selected r.coverage expected

  pub is_rechecked : Observations → Bool
  unfolding recheck change_row observation_at
  is_rechecked observations =
      elim (recheck is_network r.candidate.admission.is_ready r.candidate.stages
        (map change_row r.candidate.differences) (observation_at observations)) [
          | none ↦ true
          | some e ↦ false
        ]

  -- `verify` for some of the selected records.
  pub verify : List Item → Run (List Check)
  unfolding resources_of read_all check_items
  verify items = do
    answer ← read_all semantic is_network printed env (resources_of r.selected)
    lift (check_items semantic answer items)

  pub overlaid : State → List Item → State
  unfolding overlay
  overlaid state [] = state
  overlaid state (item ∷ items) = overlaid (overlay semantic state item) items

  pub is_valid_after : Observations → State → Bool
  unfolding valid_state interfaces_from
  is_valid_after observations state = elim (interfaces_from observations) [
    | none ↦ false
    | some interfaces ↦ valid_state is_network printed interfaces state
  ]

  pub new_outcome : Bound → Outcome
  new_outcome b = record {
    stage = b;
    save = str (codes "not_attempted");
    configuration = Check.unclear;
    activation = str (codes "not_attempted");
    content_update = map (λ c. codes "not_attempted") b.content_actions;
    active = [];
  }

  -- The outcome of the stage, and the entries that its write makes out of date.
  pub begin : Bound → Run (Unit {0})
  unfolding new_outcome invalidated
  begin b = λ s. (
    record s {
      recovery = some (invalidated (stage_markers b) (or_no_entries s.recovery));
      outcomes = s.outcomes ++ new_outcome b ∷ [];
    },
    some tt,
  )

  unfoldable pub stage_items : Bound → List Item
  unfolding chosen
  stage_items b = chosen (stage_markers b) r.selected

  -- The checks before a write, up to the saved files.
  pub enter : State → Bound → Run State
  unfolding live is_rechecked activation_admission overlaid is_valid_after begin save_recovery
      save_result
  enter expected b = do
    now ← live expected
    require (is_rechecked now.0)
    activation_admission env r.binding
    require (is_valid_after now.0 (overlaid expected (stage_items b)))
    begin b
    save_recovery env
    save_result env running
    ok (overlaid expected (stage_items b))

  pub call_save : Text → List Item → Run Fields
  call_save resource items = λ s.
      let answer = env.save s.trace resource (map (λ item. item.desired) items) in
      (log (written resource items answer) s, answer)

  pub record_save : Value → Run (Unit {0})
  unfolding update_outcome
  record_save status = update_outcome (λ o. record o { save = status })

  -- The diagnostics of a failed save are saved with the result.
  pub keep_failure : Bool → Run (Unit {0})
  unfolding save_result save_recovery
  keep_failure false = ok tt
  keep_failure true = do save_result env running; save_recovery env

  pub write : Bound → Mode → Run (Unit {0})
  unfolding call_save record_save is_saved get keep_failure has_diagnostics
  write b save = do
    record_save (str (codes "unknown"))
    answer ← call_save b.stage.resource (stage_items b)
    record_save (get (codes "status") answer)
    keep_failure (has_diagnostics (get (codes "save") answer))
    require (is_saved answer)
  write b activation_recovery = record_save (str (codes "unchanged"))

  -- The saved configuration is verified independently of the activation.
  pub confirm : State → Bound → Run (Unit {0})
  unfolding readback save_recovery verify update_outcome all_verified live activation_admission
      save_result
  confirm after b = do
    readback env
    save_recovery env
    checks ← verify (stage_items b)
    update_outcome (λ o. record o {
      configuration = if all_verified checks then Check.verified else Check.failed;
    })
    require (all_verified checks)
    live after
    activation_admission env r.binding
    update_outcome (λ o. record o { activation = str (codes "unknown") })
    save_result env running

  pub call_activate : Bound → Run Fields
  call_activate b = λ s.
      let answer = env.activate s.trace b.stage.resource in
      (log (activated b.stage.resource (stage_items b) answer) s, answer)

  pub activate : Bound → Run (List Text)
  unfolding call_activate update_outcome native_content_results verify is_confirmed all_verified get
  activate b = do
    answer ← call_activate b
    update_outcome (λ o. record o { activation = get (codes "status") answer })
    content ← lift (native_content_results b answer)
    update_outcome (λ o. record o { content_update = content })
    checks ← verify (stage_items b)
    update_outcome (λ o. record o { active = checks })
    require (is_confirmed answer)
    require (all (text_eq (codes "provider_managed")) content)
    require (all_verified checks)
    ok content

  -- The state that the next stage expects.
  pub leave : State → Run State
  unfolding live readback save_recovery save_result
  leave after = do
    now ← live after
    readback env
    save_recovery env
    save_result env running
    ok now.1

  pub stage : State → Bound → Run State
  unfolding enter write confirm activate leave
  stage expected b = do
    after ← enter expected b
    write b b.stage.mode
    confirm after b
    activate b
    leave after

  pub stages : State → List Bound → Run State
  unfolding stage
  stages expected [] = ok expected
  stages expected (b ∷ bs) = do next ← stage expected b; stages next bs

  pub set_recovery : List Entry → Run (Unit {0})
  set_recovery entries = λ s. (record s { recovery = some entries }, some tt)

  pub admit : List Bound → Run (Unit {0})
  unfolding activation_admission
  admit [] = ok tt
  admit (b ∷ bs) = activation_admission env r.binding

  -- Before the first stage: the candidate is checked again, and the recovery entries are saved.
  pub prepare : Run State
  unfolding live is_rechecked overlaid is_valid_after activation_admission recovery_document
      save_recovery set_recovery admit
  prepare = do
    now ← live r.candidate.before
    require (is_rechecked now.0)
    require r.is_declared
    require (is_valid_after now.0 (overlaid now.1 r.selected))
    admit r.candidate.stages
    entries ← lift (recovery_document is_declarable r.selected r.candidate.stages now.1)
    set_recovery entries
    save_recovery env
    ok now.1

  -- The stages, and the verification of all selected records.
  pub execute : State → Run ResultStatus
  unfolding stages verify all_verified
  execute current = do
    last ← stages current r.candidate.stages
    checks ← verify r.selected
    ok (if all_verified checks then fully_verified else ResultStatus.failed)

  pub attempt : Bool → Run ResultStatus
  unfolding prepare execute save_result
  attempt true = do current ← prepare; save_result env checked; ok checked
  attempt false = do current ← prepare; execute current

  pub resaved : Machine × Option (Unit {0}) → Machine × Option (Unit {0})
  unfolding save_recovery
  resaved (s, none) = (s, none)
  resaved (s, some u) = ((save_recovery env s).0, some tt)

  -- `except Exception`: a recovery document is read back, which may raise, and saved; a file that is not
  -- saved is noted in the result.
  pub recover : Option (List Entry) → Machine → Machine × Option (Unit {0})
  unfolding readback resaved
  recover none s = (s, some tt)
  recover (some entries) s = resaved (readback env s)

  pub failed_after : Machine × Option (Unit {0}) → Machine × Option ResultStatus
  failed_after (s, none) = (s, none)
  failed_after (s, some u) = (s, some ResultStatus.failed)

  pub concluded : Machine × Option ResultStatus → Machine × Option ResultStatus
  unfolding recover failed_after
  concluded (s, some status) = (s, some status)
  concluded (s, none) = failed_after (recover s.recovery s)

  pub status_after : ResultStatus → Machine × Option (Unit {0}) → Machine × Option ResultStatus
  status_after status (s, none) = (s, none)
  status_after status (s, some u) = (s, some status)

  -- The status of the result, `none` where the handler raised or the result itself is not saved. The
  -- result of a check is saved already.
  pub finished : Machine × Option ResultStatus → Machine × Option ResultStatus
  unfolding save_result status_after
  finished (s, none) = (s, none)
  finished (s, some checked) = (s, some checked)
  finished (s, some status) = status_after status (save_result env status s)

  pub started : Bool → Machine × Option (Unit {0}) → Machine × Option ResultStatus
  unfolding attempt concluded finished
  started check_mode (s, none) = (s, none)
  started check_mode (s, some u) = finished (concluded (attempt check_mode s))

-- `apply`
unfoldable pub apply :
    (Text → Fields → Fields)
    → (Text → Bool)
    → (Value → Text)
    → (Text → Fields → Bool)
    → Env
    → Reviewed
    → Bool
    → Machine × Option ResultStatus
unfolding started save_result
apply semantic is_network printed is_declarable env r check_mode =
    let start : Machine = record { trace = []; recovery = none; outcomes = [] } in
    started semantic is_network printed is_declarable env r check_mode
      (save_result env running start)
