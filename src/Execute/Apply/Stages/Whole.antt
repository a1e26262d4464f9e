-- ===== src/Execute/Apply/Stages/Whole.antt =====
-- `apply` of src/iaas/opnsense_workflow/executor.py from start to end.
use iaas.Prelude.{
  ◌≡◌, refl, Bool, true, false, Option, none, some, List, [], ◌∷◌, Text, if◌then◌else◌,
}
use iaas.Value.{Value, Fields}
use iaas.Staging.{State}
use iaas.Confirm.{Bound}
use iaas.Execute.{
  Env, Trace, Machine, ok, Entry, ResultStatus, running, checked, fully_verified, all_verified,
}
use iaas.Execute.Apply.{Reviewed, save_result, readback}
use iaas.Execute.Apply.Stages.{
  admit, set_recovery, prepare, execute, attempt, resaved, recover, failed_after, concluded,
  finished, status_after, started, apply,
}
use iaas.Execute.Apply.Stages.Calm.{
  Extends, here, Extends-trans, IsCalm, >>=-IsCalm, ok-IsCalm, lift-IsCalm, require-IsCalm,
  save_recovery-IsCalm, save_result-IsCalm, readback-IsCalm, activation_admission-IsCalm,
  live-IsCalm,
}
use iaas.Execute.Apply.Stages.Safe.{
  AllGood, AreShown, IsSafe, IsStable, IsStable-Extends, IsSafe-IsStable, IsSafe-keeps,
  AllGood-keeps, AreShown-keeps, IsFine, IsFine-IsStable, IsReadyIf, Post, Triple, >>=-Triple,
  IsCalm-Triple,
}
use iaas.Execute.Apply.Stages.Ordered.{stages-IsFine, verify-IsReadyIf}

module _ (semantic : Text → Fields → Fields) (is_network : Text → Bool) (printed : Value → Text)
    (is_declarable : Text → Fields → Bool) (env : Env) (r : Reviewed) where
  admit-IsCalm :
      (bs : List Bound) → IsCalm (admit semantic is_network printed is_declarable env r bs)
  unfolding admit
  admit-IsCalm [] = ok-IsCalm tt
  admit-IsCalm (b ∷ bs) = activation_admission-IsCalm env r.binding

  set_recovery-IsCalm :
      (entries : List Entry)
      → IsCalm (set_recovery semantic is_network printed is_declarable env r entries)
  unfolding set_recovery
  set_recovery-IsCalm entries = record { extends = λ s. here }

  prepare-IsCalm : IsCalm (prepare semantic is_network printed is_declarable env r)
  unfolding prepare
  prepare-IsCalm =
      >>=-IsCalm (live-IsCalm semantic is_network printed is_declarable env r r.candidate.before)
        (λ now. >>=-IsCalm (require-IsCalm _) (λ u. >>=-IsCalm (require-IsCalm _) (λ u.
          >>=-IsCalm (require-IsCalm _) (λ u. >>=-IsCalm (admit-IsCalm r.candidate.stages) (λ u.
            >>=-IsCalm (lift-IsCalm _) (λ entries.
              >>=-IsCalm (set_recovery-IsCalm entries)
                (λ u. >>=-IsCalm (save_recovery-IsCalm env) (λ u. ok-IsCalm now.1))))))))

  -- Fine, and every selected record was read as desired at the end if all were verified.
  abbrev IsDone : ResultStatus → Trace → Type 0
  IsDone status = IsReadyIf semantic (status ≡ fully_verified) r.selected

  status-IsDone :
      (b : Bool) (t : Trace)
      → IsReadyIf semantic (b ≡ true) r.selected t
      → IsDone (if b then fully_verified else ResultStatus.failed) t
  status-IsDone true t (fine, shown) = (fine, (λ h. shown refl))
  status-IsDone false t (fine, shown) = (fine, (λ h. absurd (cc h)))

  execute-IsDone :
      (current : State)
      → Triple semantic
          (IsFine semantic)
          (execute semantic is_network printed is_declarable env r current)
          IsDone
  unfolding execute ok
  execute-IsDone current =
      >>=-Triple semantic
        (stages-IsFine semantic is_network printed is_declarable env r current r.candidate.stages)
        (λ last.
          >>=-Triple semantic
            (verify-IsReadyIf semantic is_network printed is_declarable env r r.selected)
            (λ checks. record { holds = λ s c. status-IsDone (all_verified checks) s.trace c }))

  pub attempt-IsCalm : IsCalm (attempt semantic is_network printed is_declarable env r true)
  unfolding attempt
  attempt-IsCalm =
      >>=-IsCalm prepare-IsCalm
        (λ current. >>=-IsCalm (save_result-IsCalm env checked) (λ u. ok-IsCalm checked))

  checked-IsDone : (t : Trace) → IsFine semantic t → IsDone checked t
  checked-IsDone t c = (c, (λ h. absurd (cc h)))

  attempt-IsDone :
      (check_mode : Bool)
      → Triple semantic
          (IsFine semantic)
          (attempt semantic is_network printed is_declarable env r check_mode)
          IsDone
  unfolding attempt ok
  attempt-IsDone true =
      let fine = IsFine-IsStable semantic in
      >>=-Triple semantic (IsCalm-Triple semantic fine prepare-IsCalm) (λ current.
        >>=-Triple semantic (IsCalm-Triple semantic fine (save_result-IsCalm env checked))
          (λ u. record { holds = λ s c. checked-IsDone s.trace c }))
  attempt-IsDone false =
      >>=-Triple semantic (IsCalm-Triple semantic (IsFine-IsStable semantic) prepare-IsCalm)
        (λ current. execute-IsDone current)

  resaved-Extends :
      (t : Trace) (p : Machine × Option (Unit {0}))
      → Extends t p.0.trace
      → Extends t (resaved semantic is_network printed is_declarable env r p).0.trace
  unfolding resaved
  resaved-Extends t (s, none) x = x
  resaved-Extends t (s, some u) x = Extends-trans x ((save_recovery-IsCalm env).extends s)

  recover-Extends :
      (o : Option (List Entry)) (s : Machine)
      → Extends s.trace (recover semantic is_network printed is_declarable env r o s).0.trace
  unfolding recover
  recover-Extends none s = here
  recover-Extends (some entries) s =
      resaved-Extends s.trace (readback env s) ((readback-IsCalm env).extends s)

  failed_after-Extends :
      (t : Trace) (p : Machine × Option (Unit {0}))
      → Extends t p.0.trace
      → Extends t (failed_after semantic is_network printed is_declarable env r p).0.trace
  unfolding failed_after
  failed_after-Extends t (s, none) x = x
  failed_after-Extends t (s, some u) x = x

  pub handled-Extends :
      (s : Machine)
      → Extends s.trace
          (concluded semantic is_network printed is_declarable env r (s, none)).0.trace
  unfolding concluded
  handled-Extends s = failed_after-Extends s.trace _ (recover-Extends s.recovery s)

  -- What holds at the end: safety, and with the status of full verification, all of it.
  abbrev pub IsEnd : ResultStatus → Trace → Type 0
  IsEnd status t =
      IsSafe semantic t × (status ≡ fully_verified → AllGood t × AreShown semantic r.selected t)

  IsEnd-IsStable : (status : ResultStatus) → IsStable semantic (IsEnd status)
  IsEnd-IsStable status = record {
    keeps = λ e t h c. (
      IsSafe-keeps semantic e t h c.0,
      (λ k. (
        AllGood-keeps semantic e t h (c.1 k).0,
        AreShown-keeps semantic r.selected e t h (c.1 k).1,
      )),
    );
    safe = λ t c. c.0;
  }

  abbrev pub IsEndOf : Machine × Option ResultStatus → Type 0
  IsEndOf (s, none) = IsSafe semantic s.trace
  IsEndOf (s, some status) = IsEnd status s.trace

  failed_after-IsEndOf :
      (p : Machine × Option (Unit {0}))
      → IsSafe semantic p.0.trace
      → IsEndOf (failed_after semantic is_network printed is_declarable env r p)
  unfolding failed_after
  failed_after-IsEndOf (s, none) safe = safe
  failed_after-IsEndOf (s, some u) safe = (safe, (λ h. absurd (cc h)))

  concluded-IsEndOf :
      (p : Machine × Option ResultStatus)
      → Post semantic IsDone p
      → IsEndOf (concluded semantic is_network printed is_declarable env r p)
  unfolding concluded
  concluded-IsEndOf (s, some status) ((safe, good), shown) = (safe, (λ h. (good, shown h)))
  concluded-IsEndOf (s, none) safe =
      failed_after-IsEndOf (recover semantic is_network printed is_declarable env r s.recovery s)
        (IsStable-Extends semantic _ (IsSafe-IsStable semantic) safe (recover-Extends s.recovery s))

  status_after-IsEndOf :
      (status : ResultStatus) (t : Trace) (p : Machine × Option (Unit {0}))
      → IsEnd status t
      → Extends t p.0.trace
      → IsEndOf (status_after semantic is_network printed is_declarable env r status p)
  unfolding status_after
  status_after-IsEndOf status t (s, none) e x =
      (IsStable-Extends semantic _ (IsEnd-IsStable status) e x).0
  status_after-IsEndOf status t (s, some u) e x =
      IsStable-Extends semantic _ (IsEnd-IsStable status) e x

  finished-IsEndOf :
      (p : Machine × Option ResultStatus)
      → IsEndOf p
      → IsEndOf (finished semantic is_network printed is_declarable env r p)
  unfolding finished
  finished-IsEndOf (s, none) e = e
  finished-IsEndOf (s, some checked) e = e
  finished-IsEndOf (s, some running) e =
      status_after-IsEndOf running s.trace _ e ((save_result-IsCalm env running).extends s)
  finished-IsEndOf (s, some fully_verified) e =
      status_after-IsEndOf fully_verified s.trace _ e
        ((save_result-IsCalm env fully_verified).extends s)
  finished-IsEndOf (s, some ResultStatus.failed) e =
      status_after-IsEndOf ResultStatus.failed s.trace _ e
        ((save_result-IsCalm env ResultStatus.failed).extends s)

  started-IsEndOf :
      (check_mode : Bool) (p : Machine × Option (Unit {0}))
      → IsFine semantic p.0.trace
      → IsEndOf (started semantic is_network printed is_declarable env r check_mode p)
  unfolding started
  started-IsEndOf check_mode (s, none) (safe, good) = safe
  started-IsEndOf check_mode (s, some u) fine =
      finished-IsEndOf
        (concluded semantic is_network printed is_declarable env r
          (attempt semantic is_network printed is_declarable env r check_mode s))
        (concluded-IsEndOf (attempt semantic is_network printed is_declarable env r check_mode s)
          ((attempt-IsDone check_mode).holds s fine))

abbrev pub begun : Machine
begun = record { trace = []; recovery = none; outcomes = [] }

saved-IsFine :
    (semantic : Text → Fields → Fields) (env : Env)
    → IsFine semantic (save_result env running begun).0.trace
saved-IsFine semantic env =
    IsStable-Extends semantic _ (IsFine-IsStable semantic) (tt, tt)
      ((save_result-IsCalm env running).extends begun)

pub apply-IsEndOf :
    (semantic : Text → Fields → Fields) (is_network : Text → Bool) (printed : Value → Text)
    (is_declarable : Text → Fields → Bool) (env : Env) (r : Reviewed) (check_mode : Bool)
    → IsEndOf semantic is_network printed is_declarable env r
        (apply semantic is_network printed is_declarable env r check_mode)
unfolding apply
apply-IsEndOf semantic is_network printed is_declarable env r check_mode =
    started-IsEndOf semantic is_network printed is_declarable env r check_mode
      (save_result env running begun) (saved-IsFine semantic env)
