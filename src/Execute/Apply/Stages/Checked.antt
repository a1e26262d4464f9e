-- ===== src/Execute/Apply/Stages/Checked.antt =====
-- A check of `apply` in src/iaas/opnsense_workflow/executor.py.
use iaas.Prelude.{Bool, true, Option, none, some, [], Text}
use iaas.Value.{Value, Fields}
use iaas.Execute.{Env, Trace, Machine, ResultStatus, running, checked, fully_verified}
use iaas.Execute.Apply.{Reviewed, save_result}
use iaas.Execute.Apply.Stages.{attempt, concluded, finished, status_after, started, apply}
use iaas.Execute.Apply.Stages.Calm.{Extends, here, Extends-trans, save_result-IsCalm}
use iaas.Execute.Apply.Stages.Whole.{begun, attempt-IsCalm, handled-Extends}

module _ (semantic : Text → Fields → Fields) (is_network : Text → Bool) (printed : Value → Text)
    (is_declarable : Text → Fields → Bool) (env : Env) (r : Reviewed) where
  status_after-Extends :
      (status : ResultStatus) (t : Trace) (p : Machine × Option (Unit {0}))
      → Extends t p.0.trace
      → Extends t (status_after semantic is_network printed is_declarable env r status p).0.trace
  unfolding status_after
  status_after-Extends status t (s, none) x = x
  status_after-Extends status t (s, some u) x = x

  finished-Extends :
      (p : Machine × Option ResultStatus)
      → Extends p.0.trace (finished semantic is_network printed is_declarable env r p).0.trace
  unfolding finished
  finished-Extends (s, none) = here
  finished-Extends (s, some checked) = here
  finished-Extends (s, some running) =
      status_after-Extends running s.trace _ ((save_result-IsCalm env running).extends s)
  finished-Extends (s, some fully_verified) =
      status_after-Extends fully_verified s.trace _
        ((save_result-IsCalm env fully_verified).extends s)
  finished-Extends (s, some ResultStatus.failed) =
      status_after-Extends ResultStatus.failed s.trace _
        ((save_result-IsCalm env ResultStatus.failed).extends s)

  concluded-Extends :
      (p : Machine × Option ResultStatus)
      → Extends p.0.trace (concluded semantic is_network printed is_declarable env r p).0.trace
  unfolding concluded
  concluded-Extends (s, some status) = here
  concluded-Extends (s, none) = handled-Extends semantic is_network printed is_declarable env r s

  started-Extends :
      (p : Machine × Option (Unit {0}))
      → Extends p.0.trace (started semantic is_network printed is_declarable env r true p).0.trace
  unfolding started
  started-Extends (s, none) = here
  started-Extends (s, some u) =
      let p = attempt semantic is_network printed is_declarable env r true s in
      Extends-trans ((attempt-IsCalm semantic is_network printed is_declarable env r).extends s) (
        Extends-trans (concluded-Extends p)
          (finished-Extends (concluded semantic is_network printed is_declarable env r p)))

-- A check writes nothing and activates nothing, whatever the reader and the files answer.
pub apply-Extends :
    (semantic : Text → Fields → Fields) (is_network : Text → Bool) (printed : Value → Text)
    (is_declarable : Text → Fields → Bool) (env : Env) (r : Reviewed)
    → Extends [] (apply semantic is_network printed is_declarable env r true).0.trace
unfolding apply
apply-Extends semantic is_network printed is_declarable env r =
    Extends-trans ((save_result-IsCalm env running).extends begun) (
      started-Extends semantic is_network printed is_declarable env r
        (save_result env running begun))
