-- ===== src/Execute/Apply/Stages/Calm.antt =====
-- The steps of `apply` in src/iaas/opnsense_workflow/executor.py that neither write nor activate.
use iaas.Prelude.{Bool, true, false, Option, none, some, List, ◌∷◌, Text}
use iaas.Value.{Value, Fields}
use iaas.Staging.{Item, State}
use iaas.Execute.{
  Env, Event, written, activated, Trace, Machine, Run, ◌>>=◌, ok, require, lift, then_run, Outcome,
  ResultStatus, check_items,
}
use iaas.Execute.Live.{
  Binding, read_all, is_covering, current_of, checked_live, activation_admission,
}
use iaas.Execute.Apply.{
  Reviewed, resources_of, saved_as, save_file, update_outcome, save_recovery, save_result, readback,
}
use iaas.Execute.Apply.Stages.{live, verify}

abbrev pub IsHarmless : Event → Type 0
IsHarmless (written resource items answer) = ⊥
IsHarmless (activated resource items answer) = ⊥
IsHarmless _ = Unit

-- Only harmless events were added.
pub data Extends (t : Trace) : Trace → Type 0 where
  here : Extends t t
  more : {e : Event} {u : Trace} → IsHarmless e → Extends t u → Extends t (e ∷ u)

pub Extends-trans : {t u v : Trace} → Extends t u → Extends u v → Extends t v
Extends-trans h here = h
Extends-trans h (more i k) = more i (Extends-trans h k)

-- A step that only adds harmless events, whatever comes of it.
pub record IsCalm {ℓ} {A : Type ℓ} (m : Run A) : Type 0 where
  pub extends : (s : Machine) → Extends s.trace (m s).0.trace

then_run-Extends {ℓ κ} :
    {A : Type ℓ} {B : Type κ} (t : Trace) (f : A → Run B) (p : Machine × Option A)
    → ((a : A) → IsCalm (f a))
    → Extends t p.0.trace
    → Extends t (then_run f p).0.trace
then_run-Extends t f (s, none) calm h = h
then_run-Extends t f (s, some a) calm h = Extends-trans h ((calm a).extends s)

pub >>=-IsCalm {ℓ κ} :
    {A : Type ℓ} {B : Type κ} {m : Run A} {f : A → Run B}
    → IsCalm m
    → ((a : A) → IsCalm (f a))
    → IsCalm (m >>= f)
unfolding ◌>>=◌
>>=-IsCalm {m = m} {f = f} h k = record {
  extends = λ s. then_run-Extends s.trace f (m s) k (h.extends s);
}

pub ok-IsCalm {ℓ} : {A : Type ℓ} (a : A) → IsCalm (ok a)
unfolding ok
ok-IsCalm a = record { extends = λ s. here }

pub lift-IsCalm {ℓ} : {A : Type ℓ} (o : Option A) → IsCalm (lift o)
unfolding lift
lift-IsCalm o = record { extends = λ s. here }

pub require-IsCalm : (b : Bool) → IsCalm (require b)
unfolding require
require-IsCalm true = record { extends = λ s. here }
require-IsCalm false = record { extends = λ s. here }

pub update_outcome-IsCalm : (f : Outcome → Outcome) → IsCalm (update_outcome f)
unfolding update_outcome
update_outcome-IsCalm f = record { extends = λ s. here }

save_file-IsCalm : (env : Env) (event : Event) → IsHarmless event → IsCalm (save_file env event)
save_file-IsCalm env event h = record { extends = λ s. saved s (env.is_saved s.trace) }
  where
    saved : (s : Machine) (b : Bool) → Extends s.trace (saved_as event b s).0.trace
    saved s true = more h here
    saved s false = more tt here

pub save_recovery-IsCalm : (env : Env) → IsCalm (save_recovery env)
unfolding save_recovery
save_recovery-IsCalm env = record { extends = λ s. (save_file-IsCalm env _ tt).extends s }

pub save_result-IsCalm : (env : Env) (status : ResultStatus) → IsCalm (save_result env status)
unfolding save_result
save_result-IsCalm env status = record { extends = λ s. (save_file-IsCalm env _ tt).extends s }

pub readback-IsCalm : (env : Env) → IsCalm (readback env)
unfolding readback
readback-IsCalm env = record { extends = λ s. more tt here }

pub activation_admission-IsCalm :
    (env : Env) (binding : Binding) → IsCalm (activation_admission env binding)
unfolding activation_admission
activation_admission-IsCalm env binding = record { extends = λ s. more tt here }

module _ (semantic : Text → Fields → Fields) (is_network : Text → Bool) (printed : Value → Text)
    (is_declarable : Text → Fields → Bool) (env : Env) (r : Reviewed) where
  pub read_all-IsCalm :
      (resources : List Text) → IsCalm (read_all semantic is_network printed env resources)
  unfolding read_all
  read_all-IsCalm resources = record { extends = λ s. more tt here }

  pub live-IsCalm :
      (expected : State) → IsCalm (live semantic is_network printed is_declarable env r expected)
  unfolding live checked_live
  live-IsCalm expected =
      >>=-IsCalm (require-IsCalm (is_covering semantic is_network printed r.selected r.coverage))
        (λ u. >>=-IsCalm (read_all-IsCalm r.coverage) (λ observations.
          >>=-IsCalm
            (lift-IsCalm (current_of semantic is_network printed r.selected expected observations))
            (λ current. ok-IsCalm (observations, current))))

  pub verify-IsCalm :
      (items : List Item) → IsCalm (verify semantic is_network printed is_declarable env r items)
  unfolding verify
  verify-IsCalm items =
      >>=-IsCalm (read_all-IsCalm (resources_of r.selected))
        (λ answer. lift-IsCalm (check_items semantic answer items))
