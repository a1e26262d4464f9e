-- ===== src/Execute/Apply/Stages/Steady.antt =====
-- The stages of `apply` in src/iaas/opnsense_workflow/executor.py keep the keys of the recovery entries,
-- also of those that they save, and write only records that have entries.
use iaas.Prelude.{
  ◌≡◌, refl, Bool, true, false, Option, none, some, List, [], ◌∷◌, map, ◌∙◌, sorted_set,
}
use iaas.Staging.{Marker}
use iaas.Execute.{
  Env, saved_result, saved_recovery, written, Trace, Machine, Run, ◌>>=◌, ok, require, lift,
  then_run, Outcome, ResultStatus,
}
use iaas.Execute.Live.{Binding, activation_admission}
use iaas.Execute.Apply.{
  or_no_entries, saved_as, update_outcome, save_recovery, save_result, readback,
}
use iaas.Execute.Apply.Stages.Keyed.{
  AllMarked, keys_of, HasKeys, HasKeys-keys_of, read_back-HasKeys,
}

module _ (ks : List Marker) where
  -- The saved entries have these keys, and the written records have some of them.
  abbrev pub AllKeyed : Trace → Type 0
  AllKeyed [] = Unit
  AllKeyed (saved_recovery entries outcomes ∷ past) = (keys_of entries ≡ ks) × AllKeyed past
  AllKeyed (written resource items answer ∷ past) = AllMarked ks items × AllKeyed past
  AllKeyed (e ∷ past) = AllKeyed past

  -- A step that leaves the entries alone, saves none and writes nothing.
  pub record IsQuiet {ℓ} {A : Type ℓ} (m : Run A) : Type 0 where
    pub same : (s : Machine) → (m s).0.recovery ≡ s.recovery
    pub keyed : (s : Machine) → AllKeyed s.trace → AllKeyed (m s).0.trace

  abbrev pub IsKeyed : Machine → Type 0
  IsKeyed s = HasKeys ks s.recovery × AllKeyed s.trace

  pub record IsSteady {ℓ} {A : Type ℓ} (m : Run A) : Type 0 where
    pub keeps : (s : Machine) → IsKeyed s → IsKeyed (m s).0

  pub IsQuiet-IsSteady {ℓ} : {A : Type ℓ} {m : Run A} → IsQuiet m → IsSteady m
  IsQuiet-IsSteady {m = m} h = record { keeps = λ s k. (rw (h.same s) k.0, h.keyed s k.1) }

  then_run-recovery {ℓ κ} :
      {A : Type ℓ} {B : Type κ} (f : A → Run B) (p : Machine × Option A) (s : Machine)
      → ((a : A) → IsQuiet (f a))
      → p.0.recovery ≡ s.recovery
      → (then_run f p).0.recovery ≡ s.recovery
  then_run-recovery f (t, none) s h e = e
  then_run-recovery f (t, some a) s h e = (h a).same t ∙ e

  then_run-AllKeyed {ℓ κ} :
      {A : Type ℓ} {B : Type κ} (f : A → Run B) (p : Machine × Option A)
      → ((a : A) → IsQuiet (f a))
      → AllKeyed p.0.trace
      → AllKeyed (then_run f p).0.trace
  then_run-AllKeyed f (t, none) h k = k
  then_run-AllKeyed f (t, some a) h k = (h a).keyed t k

  then_run-IsKeyed {ℓ κ} :
      {A : Type ℓ} {B : Type κ} (f : A → Run B) (p : Machine × Option A)
      → ((a : A) → IsSteady (f a))
      → IsKeyed p.0
      → IsKeyed (then_run f p).0
  then_run-IsKeyed f (t, none) h k = k
  then_run-IsKeyed f (t, some a) h k = (h a).keeps t k

  pub >>=-IsQuiet {ℓ κ} :
      {A : Type ℓ} {B : Type κ} {m : Run A} {f : A → Run B}
      → IsQuiet m
      → ((a : A) → IsQuiet (f a))
      → IsQuiet (m >>= f)
  unfolding ◌>>=◌
  >>=-IsQuiet {m = m} {f = f} h k = record {
    same = λ s. then_run-recovery f (m s) s k (h.same s);
    keyed = λ s c. then_run-AllKeyed f (m s) k (h.keyed s c);
  }

  pub >>=-IsSteady {ℓ κ} :
      {A : Type ℓ} {B : Type κ} {m : Run A} {f : A → Run B}
      → IsSteady m
      → ((a : A) → IsSteady (f a))
      → IsSteady (m >>= f)
  unfolding ◌>>=◌
  >>=-IsSteady {m = m} {f = f} h k = record {
    keeps = λ s c. then_run-IsKeyed f (m s) k (h.keeps s c);
  }

  pub ok-IsQuiet {ℓ} : {A : Type ℓ} (a : A) → IsQuiet (ok a)
  unfolding ok
  ok-IsQuiet a = record { same = λ s. refl; keyed = λ s c. c }

  pub lift-IsQuiet {ℓ} : {A : Type ℓ} (o : Option A) → IsQuiet (lift o)
  unfolding lift
  lift-IsQuiet o = record { same = λ s. refl; keyed = λ s c. c }

  pub require-IsQuiet : (b : Bool) → IsQuiet (require b)
  unfolding require
  require-IsQuiet true = record { same = λ s. refl; keyed = λ s c. c }
  require-IsQuiet false = record { same = λ s. refl; keyed = λ s c. c }

  pub update_outcome-IsQuiet : (f : Outcome → Outcome) → IsQuiet (update_outcome f)
  unfolding update_outcome
  update_outcome-IsQuiet f = record { same = λ s. refl; keyed = λ s c. c }

  module _ (env : Env) where
    pub save_result-IsQuiet : (status : ResultStatus) → IsQuiet (save_result env status)
    unfolding save_result
    save_result-IsQuiet status = record {
      same = λ s. same_by s (env.is_saved s.trace);
      keyed = λ s c. keyed_by s (env.is_saved s.trace) c;
    }
      where
        same_by :
            (s : Machine) (b : Bool)
            → (saved_as (saved_result status s.outcomes) b s).0.recovery ≡ s.recovery
        same_by s true = refl
        same_by s false = refl

        keyed_by :
            (s : Machine) (b : Bool)
            → AllKeyed s.trace
            → AllKeyed (saved_as (saved_result status s.outcomes) b s).0.trace
        keyed_by s true c = c
        keyed_by s false c = c

    pub save_recovery-IsSteady : IsSteady (save_recovery env)
    unfolding save_recovery
    save_recovery-IsSteady = record { keeps = λ s c. kept s (env.is_saved s.trace) c }
      where
        kept :
            (s : Machine) (b : Bool)
            → IsKeyed s
            → IsKeyed (saved_as (saved_recovery (or_no_entries s.recovery) s.outcomes) b s).0
        kept s true c = (c.0, (HasKeys-keys_of ks s.recovery c.0, c.1))
        kept s false c = c

    pub readback-IsSteady : IsSteady (readback env)
    unfolding readback
    readback-IsSteady = record {
      keeps = λ s c. (
        read_back-HasKeys ks
            (env.read s.trace (sorted_set (map (λ e. e.resource) (or_no_entries s.recovery))))
            s.recovery c.0,
        c.1,
      );
    }

    pub activation_admission-IsQuiet :
        (binding : Binding) → IsQuiet (activation_admission env binding)
    unfolding activation_admission
    activation_admission-IsQuiet binding = record { same = λ s. refl; keyed = λ s c. c }
