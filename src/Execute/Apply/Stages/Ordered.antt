-- ===== src/Execute/Apply/Stages/Ordered.antt =====
-- The blocks of a stage of `apply` in src/iaas/opnsense_workflow/executor.py keep its effects in order.
use iaas.Prelude.{◌≡◌, refl, inl, Bool, true, Option, none, some, List, [], ◌∷◌, Text}
use iaas.Value.{Value, Fields}
use iaas.Staging.{Item, State}
use iaas.Confirm.{Bound}
use iaas.Candidate.{Observations}
use iaas.Execute.{
  Env, Event, activated, Machine, lift, log, running, Check, check_items, all_verified,
  are_verified, shows,
}
use iaas.Execute.Live.{read_all}
use iaas.Execute.Apply.{Reviewed, resources_of}
use iaas.Execute.Apply.Stages.{
  verify, stage_items, confirm, call_activate, activate, leave, stage, stages,
}
use iaas.Execute.Apply.Answers.{is_confirmed, native_content_results}
use iaas.Execute.Apply.Stages.Calm.{
  >>=-IsCalm, ok-IsCalm, lift-IsCalm, require-IsCalm, update_outcome-IsCalm, save_recovery-IsCalm,
  save_result-IsCalm, readback-IsCalm, activation_admission-IsCalm, verify-IsCalm,
}
use iaas.Execute.Apply.Stages.Safe.{
  IsFine, IsFine-IsStable, IsFineIf, IsFineIf-IsStable, IsReady, IsReady-IsStable, IsReadyIf,
  IsReadyIf-IsStable, Post, Triple, >>=-Triple, require-Triple,
}
use iaas.Execute.Apply.Stages.Written.{calm, live_of-IsCalm, enter-CanWrite, write-IsFine}

module _ (semantic : Text → Fields → Fields) (is_network : Text → Bool) (printed : Value → Text)
    (is_declarable : Text → Fields → Bool) (env : Env) (r : Reviewed) where
  read_all-IsReadyIf :
      (resources : List Text) (items : List Item)
      → Triple semantic
          (IsFine semantic)
          (read_all semantic is_network printed env resources)
          (λ o. IsReadyIf semantic (shows semantic items (some o) ≡ true) items)
  unfolding read_all
  read_all-IsReadyIf resources items = record {
    holds = λ s c. answered s (env.read s.trace resources) c;
  }
    where
      answered :
          (s : Machine) (o : Option Observations)
          → IsFine semantic s.trace
          → Post semantic
              (λ a. IsReadyIf semantic (shows semantic items (some a) ≡ true) items)
              (log (Event.read resources o) s, o)
      answered s none (safe, good) = safe
      answered s (some a) (safe, good) = ((safe, (tt, good)), (λ h. inl h))

  -- What the verification of these records says holds by the read behind it.
  checked_items :
      (answer : Observations) (items : List Item) (s : Machine) (o : Option (List Check))
      → check_items semantic answer items ≡ o
      → IsReadyIf semantic (shows semantic items (some answer) ≡ true) items s.trace
      → Post semantic (λ checks. IsReadyIf semantic (all_verified checks ≡ true) items) (s, o)
  unfolding shows are_verified
  checked_items answer items s none e c = c.0.0
  checked_items answer items s (some checks) e c = (c.0, (λ h. c.1 (rw e h)))

  pub verify-IsReadyIf :
      (items : List Item)
      → Triple semantic
          (IsFine semantic)
          (verify semantic is_network printed is_declarable env r items)
          (λ checks. IsReadyIf semantic (all_verified checks ≡ true) items)
  unfolding verify lift
  verify-IsReadyIf items =
      >>=-Triple semantic (read_all-IsReadyIf (resources_of r.selected) items) (λ answer. record {
        holds = λ s c. checked_items answer items s (check_items semantic answer items) refl c;
      })

  confirm-IsReady :
      (after : State) (b : Bound)
      → Triple semantic
          (IsFine semantic)
          (confirm semantic is_network printed is_declarable env r after b)
          (λ u. IsReady semantic (stage_items semantic is_network printed is_declarable env r b))
  unfolding confirm
  confirm-IsReady after b =
      let items = stage_items semantic is_network printed is_declarable env r b in
      let fine = IsFine-IsStable semantic in
      let ready = IsReady-IsStable semantic items in
      >>=-Triple semantic
        (calm semantic is_network printed is_declarable env r fine (readback-IsCalm env))
        (λ u.
          >>=-Triple semantic
            (calm semantic is_network printed is_declarable env r fine (save_recovery-IsCalm env))
            (λ u. >>=-Triple semantic (verify-IsReadyIf items) (λ checks.
              >>=-Triple semantic
                (calm semantic is_network printed is_declarable env r
                  (IsReadyIf-IsStable semantic (all_verified checks ≡ true) items)
                  (update_outcome-IsCalm _))
                (λ u.
                  >>=-Triple semantic
                    (require-Triple semantic {D = IsReady semantic items} (all_verified checks)
                      (λ t c. c.0.0) (λ t c h. (c.0, c.1 h)))
                    (λ u.
                      >>=-Triple semantic
                        (calm semantic is_network printed is_declarable env r ready
                          (live_of-IsCalm semantic is_network printed is_declarable env r after))
                        (λ now.
                          >>=-Triple semantic
                            (calm semantic is_network printed is_declarable env r ready
                              (activation_admission-IsCalm env r.binding))
                            (λ u.
                              >>=-Triple semantic
                                (calm semantic is_network printed is_declarable env r ready
                                  (update_outcome-IsCalm _))
                                (λ u.
                                  calm semantic is_network printed is_declarable env r ready
                                    (save_result-IsCalm env running)))))))))

  call_activate-IsFineIf :
      (b : Bound)
      → Triple semantic
          (IsReady semantic (stage_items semantic is_network printed is_declarable env r b))
          (call_activate semantic is_network printed is_declarable env r b)
          (λ a. IsFineIf semantic (is_confirmed a ≡ true))
  unfolding call_activate
  call_activate-IsFineIf b = record {
    holds = λ s c. answered s (env.activate s.trace b.stage.resource) c;
  }
    where
      answered :
          (s : Machine) (o : Option Fields)
          → IsReady semantic (stage_items semantic is_network printed is_declarable env r b) s.trace
          → Post semantic
              (λ a. IsFineIf semantic (is_confirmed a ≡ true))
              (
                log
                    (activated b.stage.resource
                      (stage_items semantic is_network printed is_declarable env r b)
                      o)
                    s,
                o,
              )
      answered s none ((safe, good), shown) = (shown, good, safe)
      answered s (some a) ((safe, good), shown) = ((shown, good, safe), (λ h. (h, good)))

  activate-IsFine :
      (b : Bound)
      → Triple semantic
          (IsReady semantic (stage_items semantic is_network printed is_declarable env r b))
          (activate semantic is_network printed is_declarable env r b)
          (λ content. IsFine semantic)
  unfolding activate
  activate-IsFine b =
      let fine = IsFine-IsStable semantic in
      >>=-Triple semantic (call_activate-IsFineIf b) (λ answer.
        let fine_if = IsFineIf-IsStable semantic (is_confirmed answer ≡ true) in
        >>=-Triple semantic
          (calm semantic is_network printed is_declarable env r fine_if (update_outcome-IsCalm _))
          (λ u.
            >>=-Triple semantic
              (calm semantic is_network printed is_declarable env r fine_if
                (lift-IsCalm (native_content_results b answer)))
              (λ content.
                >>=-Triple semantic
                  (calm semantic is_network printed is_declarable env r fine_if
                    (update_outcome-IsCalm _))
                  (λ u.
                    >>=-Triple semantic
                      (calm semantic is_network printed is_declarable env r fine_if
                        (verify-IsCalm semantic is_network printed is_declarable env r _))
                      (λ checks.
                        >>=-Triple semantic
                          (calm semantic is_network printed is_declarable env r fine_if
                            (update_outcome-IsCalm _))
                          (λ u.
                            >>=-Triple semantic
                              (require-Triple semantic {D = IsFine semantic} (is_confirmed answer)
                                (λ t c. c.0) (λ t c h. (c.0, c.1 h)))
                              (λ u.
                                >>=-Triple semantic
                                  (calm semantic is_network printed is_declarable env r fine
                                    (require-IsCalm _))
                                  (λ u.
                                    >>=-Triple semantic
                                      (calm semantic is_network printed is_declarable env r fine
                                        (require-IsCalm _))
                                      (λ u.
                                        calm semantic is_network printed is_declarable env r fine
                                          (ok-IsCalm content))))))))))

  leave-IsFine :
      (after : State)
      → Triple semantic
          (IsFine semantic)
          (leave semantic is_network printed is_declarable env r after)
          (λ next. IsFine semantic)
  unfolding leave
  leave-IsFine after =
      let fine = IsFine-IsStable semantic in
      calm semantic is_network printed is_declarable env r fine (
        >>=-IsCalm (live_of-IsCalm semantic is_network printed is_declarable env r after) (λ now.
          >>=-IsCalm (readback-IsCalm env) (λ u.
            >>=-IsCalm (save_recovery-IsCalm env)
              (λ u. >>=-IsCalm (save_result-IsCalm env running) (λ u. ok-IsCalm now.1)))))

  stage-IsFine :
      (expected : State) (b : Bound)
      → Triple semantic
          (IsFine semantic)
          (stage semantic is_network printed is_declarable env r expected b)
          (λ next. IsFine semantic)
  unfolding stage
  stage-IsFine expected b =
      >>=-Triple semantic
        (enter-CanWrite semantic is_network printed is_declarable env r expected b)
        (λ after.
          >>=-Triple semantic
            (write-IsFine semantic is_network printed is_declarable env r b b.stage.mode)
            (λ u.
              >>=-Triple semantic (confirm-IsReady after b)
                (λ u. >>=-Triple semantic (activate-IsFine b) (λ content. leave-IsFine after))))

  pub stages-IsFine :
      (expected : State) (bs : List Bound)
      → Triple semantic
          (IsFine semantic)
          (stages semantic is_network printed is_declarable env r expected bs)
          (λ last. IsFine semantic)
  unfolding stages
  stages-IsFine expected [] =
      calm semantic is_network printed is_declarable env r (IsFine-IsStable semantic)
        (ok-IsCalm expected)
  stages-IsFine expected (b ∷ bs) =
      >>=-Triple semantic (stage-IsFine expected b) (λ next. stages-IsFine next bs)
