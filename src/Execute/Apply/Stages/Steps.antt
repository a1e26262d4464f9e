-- ===== src/Execute/Apply/Stages/Steps.antt =====
-- The steps of `apply` in src/iaas/opnsense_workflow/executor.py keep the keys of the recovery entries.
use iaas.Prelude.{◌≡◌, ◌∙◌, refl, Bool, true, false, List, [], ◌∷◌, Text, map}
use iaas.Value.{Value, Fields}
use iaas.Staging.{Item, key, State, Marker, is_marked, Mode, save, activation_recovery}
use iaas.Confirm.{Bound}
use iaas.Execute.{Env, Run, running, check_items}
use iaas.Execute.Live.{read_all, checked_live, is_covering, current_of}
use iaas.Execute.Apply.{Reviewed, chosen, resources_of, stage_markers, all_markers, or_no_entries}
use iaas.Execute.Apply.Stages.{
  live, verify, begin, stage_items, enter, call_save, record_save, keep_failure, write, confirm,
  call_activate, activate, leave, stage, stages, execute,
}
use iaas.Execute.Apply.Stages.Keyed.{
  is_marked-append_left, is_marked-append_right, chosen-AllMarked, invalidated-keys,
  HasKeys-keys_of,
}
use iaas.Execute.Apply.Stages.Steady.{
  IsQuiet, IsSteady, IsQuiet-IsSteady, >>=-IsQuiet, >>=-IsSteady, ok-IsQuiet, lift-IsQuiet,
  require-IsQuiet, update_outcome-IsQuiet, save_result-IsQuiet, save_recovery-IsSteady,
  readback-IsSteady, activation_admission-IsQuiet,
}

module _ (semantic : Text → Fields → Fields) (is_network : Text → Bool) (printed : Value → Text)
    (is_declarable : Text → Fields → Bool) (env : Env) (r : Reviewed) where
  -- The keys of the records that the stages write.
  abbrev pub all_keys : List Marker
  all_keys = map key (chosen (all_markers r.candidate.stages) r.selected)

  abbrev quiet {ℓ} : {A : Type ℓ} {m : Run A} → IsQuiet all_keys m → IsSteady all_keys m
  quiet h = IsQuiet-IsSteady all_keys h

  read_all-IsQuiet :
      (resources : List Text)
      → IsQuiet all_keys (read_all semantic is_network printed env resources)
  unfolding read_all
  read_all-IsQuiet resources = record { same = λ s. refl; keyed = λ s c. c }

  pub live-IsQuiet :
      (expected : State)
      → IsQuiet all_keys (live semantic is_network printed is_declarable env r expected)
  unfolding live checked_live
  live-IsQuiet expected =
      >>=-IsQuiet all_keys
        (require-IsQuiet all_keys (is_covering semantic is_network printed r.selected r.coverage))
        (λ u. >>=-IsQuiet all_keys (read_all-IsQuiet r.coverage) (λ observations.
          >>=-IsQuiet all_keys
            (lift-IsQuiet all_keys
              (current_of semantic is_network printed r.selected expected observations))
            (λ current. ok-IsQuiet all_keys (observations, current))))

  verify-IsQuiet :
      (items : List Item)
      → IsQuiet all_keys (verify semantic is_network printed is_declarable env r items)
  unfolding verify
  verify-IsQuiet items =
      >>=-IsQuiet all_keys (read_all-IsQuiet (resources_of r.selected))
        (λ answer. lift-IsQuiet all_keys (check_items semantic answer items))

  begin-IsSteady :
      (b : Bound) → IsSteady all_keys (begin semantic is_network printed is_declarable env r b)
  unfolding begin
  begin-IsSteady b = record {
    keeps = λ s c. (
      invalidated-keys (stage_markers b) (or_no_entries s.recovery)
          ∙ HasKeys-keys_of all_keys s.recovery c.0,
      c.1,
    );
  }

  enter-IsSteady :
      (expected : State) (b : Bound)
      → IsSteady all_keys (enter semantic is_network printed is_declarable env r expected b)
  unfolding enter
  enter-IsSteady expected b = >>=-IsSteady all_keys (quiet (live-IsQuiet expected)) (λ now.
      >>=-IsSteady all_keys (quiet (require-IsQuiet all_keys _)) (λ u.
        >>=-IsSteady all_keys (quiet (activation_admission-IsQuiet all_keys env r.binding)) (λ u.
          >>=-IsSteady all_keys (quiet (require-IsQuiet all_keys _)) (λ u.
            >>=-IsSteady all_keys (begin-IsSteady b) (λ u.
              >>=-IsSteady all_keys (save_recovery-IsSteady all_keys env) (λ u.
                >>=-IsSteady all_keys (quiet (save_result-IsQuiet all_keys env running))
                  (λ u. quiet (ok-IsQuiet all_keys _))))))))

  record_save-IsQuiet :
      (status : Value)
      → IsQuiet all_keys (record_save semantic is_network printed is_declarable env r status)
  unfolding record_save
  record_save-IsQuiet status = update_outcome-IsQuiet all_keys _

  keep_failure-IsSteady :
      (b : Bool)
      → IsSteady all_keys (keep_failure semantic is_network printed is_declarable env r b)
  unfolding keep_failure
  keep_failure-IsSteady false = quiet (ok-IsQuiet all_keys tt)
  keep_failure-IsSteady true =
      >>=-IsSteady all_keys (quiet (save_result-IsQuiet all_keys env running))
        (λ u. save_recovery-IsSteady all_keys env)

  -- The markers of the stage are among those of all stages.
  abbrev IsIncluded : Bound → Type 0
  IsIncluded b =
      (m : Marker)
      → is_marked m (stage_markers b) ≡ true
      → is_marked m (all_markers r.candidate.stages) ≡ true

  call_save-IsSteady :
      (b : Bound)
      → IsIncluded b
      → IsSteady all_keys (
          call_save semantic is_network printed is_declarable env r b.stage.resource
            (stage_items semantic is_network printed is_declarable env r b))
  unfolding call_save stage_items
  call_save-IsSteady b h = record {
    keeps = λ s c. (
      c.0,
      (chosen-AllMarked (stage_markers b) (all_markers r.candidate.stages) r.selected h, c.1),
    );
  }

  write-IsSteady :
      (b : Bound) (mode : Mode)
      → IsIncluded b
      → IsSteady all_keys (write semantic is_network printed is_declarable env r b mode)
  unfolding write
  write-IsSteady b save h = >>=-IsSteady all_keys (quiet (record_save-IsQuiet _)) (λ u.
      >>=-IsSteady all_keys (call_save-IsSteady b h) (λ answer.
        >>=-IsSteady all_keys (quiet (record_save-IsQuiet _)) (λ u.
          >>=-IsSteady all_keys (keep_failure-IsSteady _)
            (λ u. quiet (require-IsQuiet all_keys _)))))
  write-IsSteady b activation_recovery h = quiet (record_save-IsQuiet _)

  confirm-IsSteady :
      (after : State) (b : Bound)
      → IsSteady all_keys (confirm semantic is_network printed is_declarable env r after b)
  unfolding confirm
  confirm-IsSteady after b = >>=-IsSteady all_keys (readback-IsSteady all_keys env) (λ u.
      >>=-IsSteady all_keys (save_recovery-IsSteady all_keys env) (λ u.
        >>=-IsSteady all_keys (quiet (verify-IsQuiet _)) (λ checks.
          >>=-IsSteady all_keys (quiet (update_outcome-IsQuiet all_keys _)) (λ u.
            >>=-IsSteady all_keys (quiet (require-IsQuiet all_keys _)) (λ u.
              >>=-IsSteady all_keys (quiet (live-IsQuiet after)) (λ now.
                >>=-IsSteady all_keys (quiet (activation_admission-IsQuiet all_keys env r.binding))
                  (λ u.
                    >>=-IsSteady all_keys (quiet (update_outcome-IsQuiet all_keys _))
                      (λ u. quiet (save_result-IsQuiet all_keys env running)))))))))

  call_activate-IsQuiet :
      (b : Bound)
      → IsQuiet all_keys (call_activate semantic is_network printed is_declarable env r b)
  unfolding call_activate
  call_activate-IsQuiet b = record { same = λ s. refl; keyed = λ s c. c }

  activate-IsQuiet :
      (b : Bound) → IsQuiet all_keys (activate semantic is_network printed is_declarable env r b)
  unfolding activate
  activate-IsQuiet b = >>=-IsQuiet all_keys (call_activate-IsQuiet b) (λ answer.
      >>=-IsQuiet all_keys (update_outcome-IsQuiet all_keys _) (λ u.
        >>=-IsQuiet all_keys (lift-IsQuiet all_keys _) (λ content.
          >>=-IsQuiet all_keys (update_outcome-IsQuiet all_keys _) (λ u.
            >>=-IsQuiet all_keys (verify-IsQuiet _) (λ checks.
              >>=-IsQuiet all_keys (update_outcome-IsQuiet all_keys _) (λ u.
                >>=-IsQuiet all_keys (require-IsQuiet all_keys _) (λ u.
                  >>=-IsQuiet all_keys (require-IsQuiet all_keys _) (λ u.
                    >>=-IsQuiet all_keys (require-IsQuiet all_keys _)
                      (λ u. ok-IsQuiet all_keys content)))))))))

  leave-IsSteady :
      (after : State)
      → IsSteady all_keys (leave semantic is_network printed is_declarable env r after)
  unfolding leave
  leave-IsSteady after = >>=-IsSteady all_keys (quiet (live-IsQuiet after)) (λ now.
      >>=-IsSteady all_keys (readback-IsSteady all_keys env) (λ u.
        >>=-IsSteady all_keys (save_recovery-IsSteady all_keys env) (λ u.
          >>=-IsSteady all_keys (quiet (save_result-IsQuiet all_keys env running))
            (λ u. quiet (ok-IsQuiet all_keys now.1)))))

  stage-IsSteady :
      (expected : State) (b : Bound)
      → IsIncluded b
      → IsSteady all_keys (stage semantic is_network printed is_declarable env r expected b)
  unfolding stage
  stage-IsSteady expected b h = >>=-IsSteady all_keys (enter-IsSteady expected b) (λ after.
      >>=-IsSteady all_keys (write-IsSteady b b.stage.mode h) (λ u.
        >>=-IsSteady all_keys (confirm-IsSteady after b) (λ u.
          >>=-IsSteady all_keys (quiet (activate-IsQuiet b)) (λ content. leave-IsSteady after))))

  stages-IsSteady :
      (expected : State) (bs : List Bound)
      → ((m : Marker)
          → is_marked m (all_markers bs) ≡ true
          → is_marked m (all_markers r.candidate.stages) ≡ true)
      → IsSteady all_keys (stages semantic is_network printed is_declarable env r expected bs)
  unfolding stages all_markers
  stages-IsSteady expected [] sub = quiet (ok-IsQuiet all_keys expected)
  stages-IsSteady expected (b ∷ bs) sub =
      >>=-IsSteady all_keys
        (stage-IsSteady expected b
          (λ m h. sub m (is_marked-append_left m (stage_markers b) (all_markers bs) h)))
        (λ next.
          stages-IsSteady next bs
            (λ m h. sub m (is_marked-append_right m (stage_markers b) (all_markers bs) h)))

  pub execute-IsSteady :
      (current : State)
      → IsSteady all_keys (execute semantic is_network printed is_declarable env r current)
  unfolding execute
  execute-IsSteady current =
      >>=-IsSteady all_keys (stages-IsSteady current r.candidate.stages (λ m h. h)) (λ last.
        >>=-IsSteady all_keys (quiet (verify-IsQuiet r.selected))
          (λ checks. quiet (ok-IsQuiet all_keys _)))
