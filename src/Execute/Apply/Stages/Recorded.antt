-- ===== src/Execute/Apply/Stages/Recorded.antt =====
-- `apply` of src/iaas/opnsense_workflow/executor.py from start to end, with the recovery entries of its
-- writes.
use iaas.Prelude.{◌≡◌, refl, ◌∙◌, subst, Bool, true, false, Option, none, some, List, [], ◌∷◌, Text}
use iaas.Value.{Value, Fields}
use iaas.Staging.{State, Marker}
use iaas.Confirm.{Bound}
use iaas.Execute.{
  Env, Machine, Run, ◌>>=◌, ok, lift, then_run, Entry, ResultStatus, running, checked,
}
use iaas.Execute.Apply.{Reviewed, save_recovery, save_result, readback, recovery_document}
use iaas.Execute.Apply.Stages.{
  admit, prepare, set_recovery, attempt, resaved, recover, failed_after, concluded, status_after,
  finished, started, apply,
}
use iaas.Execute.Apply.Stages.Keyed.{keys_of, HasKeys, recovery_document-HasKeys}
use iaas.Execute.Apply.Stages.Steady.{
  AllKeyed, IsKeyed, IsQuiet, IsSteady, >>=-IsSteady, IsQuiet-IsSteady, ok-IsQuiet, require-IsQuiet,
  save_result-IsQuiet, save_recovery-IsSteady, readback-IsSteady, activation_admission-IsQuiet,
}
use iaas.Execute.Apply.Stages.Steps.{all_keys, live-IsQuiet, execute-IsSteady}
use iaas.Execute.Apply.Stages.Safe.{IsSafe}
use iaas.Execute.Apply.Stages.Entries.{IsRecorded, keyed-IsRecorded}
use iaas.Execute.Apply.Stages.Whole.{IsEndOf, apply-IsEndOf, begun}

module _ (ks : List Marker) where
  -- There are no entries yet, or they have these keys.
  abbrev MayHaveKeys : Option (List Entry) → Type 0
  MayHaveKeys none = Unit
  MayHaveKeys (some entries) = keys_of entries ≡ ks

  abbrev IsWeak : Machine → Type 0
  IsWeak s = MayHaveKeys s.recovery × AllKeyed ks s.trace

  HasKeys-MayHaveKeys : (o : Option (List Entry)) → HasKeys ks o → MayHaveKeys o
  HasKeys-MayHaveKeys none h = tt
  HasKeys-MayHaveKeys (some entries) h = h

  MayHaveKeys-none : (o : Option (List Entry)) → o ≡ none → MayHaveKeys o
  MayHaveKeys-none none e = tt
  MayHaveKeys-none (some entries) e = cc

  abbrev PostKeyed {ℓ} : {A : Type ℓ} → Machine × Option A → Type 0
  PostKeyed (s, none) = IsWeak s
  PostKeyed (s, some a) = IsKeyed ks s

  PostKeyed-IsKeyed {ℓ} : {A : Type ℓ} (p : Machine × Option A) → IsKeyed ks p.0 → PostKeyed p
  PostKeyed-IsKeyed (s, none) k = (HasKeys-MayHaveKeys s.recovery k.0, k.1)
  PostKeyed-IsKeyed (s, some a) k = k

  -- Before there are entries.
  record IsPreparing {ℓ} {A : Type ℓ} (m : Run A) : Type 0 where
    keyed : (s : Machine) → s.recovery ≡ none → AllKeyed ks s.trace → PostKeyed (m s)

  then_run-PostKeyed {ℓ κ} :
      {A : Type ℓ} {B : Type κ} (f : A → Run B) (p : Machine × Option A)
      → ((a : A) → IsPreparing (f a))
      → p.0.recovery ≡ none
      → AllKeyed ks p.0.trace
      → PostKeyed (then_run f p)
  then_run-PostKeyed f (t, none) h e k = (MayHaveKeys-none t.recovery e, k)
  then_run-PostKeyed f (t, some a) h e k = (h a).keyed t e k

  >>=-IsPreparing {ℓ κ} :
      {A : Type ℓ} {B : Type κ} {m : Run A} {f : A → Run B}
      → IsQuiet ks m
      → ((a : A) → IsPreparing (f a))
      → IsPreparing (m >>= f)
  unfolding ◌>>=◌
  >>=-IsPreparing {m = m} {f = f} h k = record {
    keyed = λ s e c. then_run-PostKeyed f (m s) k (h.same s ∙ e) (h.keyed s c);
  }

module _ (semantic : Text → Fields → Fields) (is_network : Text → Bool) (printed : Value → Text)
    (is_declarable : Text → Fields → Bool) (env : Env) (r : Reviewed) where
  abbrev ks : List Marker
  ks = all_keys semantic is_network printed is_declarable env r

  admit-IsQuiet :
      (bs : List Bound) → IsQuiet ks (admit semantic is_network printed is_declarable env r bs)
  unfolding admit
  admit-IsQuiet [] = ok-IsQuiet ks tt
  admit-IsQuiet (b ∷ bs) = activation_admission-IsQuiet ks env r.binding

  set_recovery-IsPreparing :
      (current : State) (o : Option (List Entry))
      → ((entries : List Entry) → o ≡ some entries → keys_of entries ≡ ks)
      → IsPreparing ks (
          lift o >>= λ entries.
          (set_recovery semantic is_network printed is_declarable env r entries >>= λ u.
          (save_recovery env >>= λ u. ok current)))
  unfolding lift set_recovery ◌>>=◌
  set_recovery-IsPreparing current none h = record {
    keyed = λ s e k. (MayHaveKeys-none ks s.recovery e, k);
  }
  set_recovery-IsPreparing current (some entries) h =
      let rest : IsSteady ks (save_recovery env >>= λ u. ok current) =
        >>=-IsSteady ks (save_recovery-IsSteady ks env)
          (λ u. IsQuiet-IsSteady ks (ok-IsQuiet ks current)) in
      record {
        keyed = λ s e k.
            let t = record s { recovery = some entries } in
            PostKeyed-IsKeyed ks ((save_recovery env >>= λ u. ok current) t)
              (rest.keeps t (h entries refl, k));
      }

  prepare-IsPreparing : IsPreparing ks (prepare semantic is_network printed is_declarable env r)
  unfolding prepare
  prepare-IsPreparing =
      >>=-IsPreparing ks
        (live-IsQuiet semantic is_network printed is_declarable env r r.candidate.before)
        (λ now. >>=-IsPreparing ks (require-IsQuiet ks _) (λ u.
          >>=-IsPreparing ks (require-IsQuiet ks _) (λ u.
            >>=-IsPreparing ks (require-IsQuiet ks _) (λ u.
              >>=-IsPreparing ks (admit-IsQuiet r.candidate.stages) (λ u.
                set_recovery-IsPreparing now.1
                  (recovery_document is_declarable r.selected r.candidate.stages now.1)
                  (λ entries h.
                    recovery_document-HasKeys is_declarable r.selected r.candidate.stages now.1
                      entries h))))))

  steady-IsWeak {ℓ κ} :
      {A : Type ℓ} {B : Type κ} (f : A → Run B) (p : Machine × Option A)
      → ((a : A) → IsSteady ks (f a))
      → PostKeyed ks p
      → IsWeak ks (then_run f p).0
  steady-IsWeak f (t, none) h k = k
  steady-IsWeak f (t, some a) h k =
      let c = (h a).keeps t k in (HasKeys-MayHaveKeys ks (f a t).0.recovery c.0, c.1)

  attempt-IsWeak :
      (check_mode : Bool) (s : Machine)
      → s.recovery ≡ none
      → AllKeyed ks s.trace
      → IsWeak ks (attempt semantic is_network printed is_declarable env r check_mode s).0
  unfolding attempt ◌>>=◌
  attempt-IsWeak true s e k =
      steady-IsWeak _ (prepare semantic is_network printed is_declarable env r s)
        (λ current.
          >>=-IsSteady ks (IsQuiet-IsSteady ks (save_result-IsQuiet ks env checked))
            (λ u. IsQuiet-IsSteady ks (ok-IsQuiet ks checked)))
        (prepare-IsPreparing.keyed s e k)
  attempt-IsWeak false s e k =
      steady-IsWeak _ (prepare semantic is_network printed is_declarable env r s)
        (λ current. execute-IsSteady semantic is_network printed is_declarable env r current)
        (prepare-IsPreparing.keyed s e k)

  resaved-AllKeyed :
      (p : Machine × Option (Unit {0}))
      → IsKeyed ks p.0
      → AllKeyed ks (resaved semantic is_network printed is_declarable env r p).0.trace
  unfolding resaved
  resaved-AllKeyed (s, none) k = k.1
  resaved-AllKeyed (s, some u) k = ((save_recovery-IsSteady ks env).keeps s k).1

  recover-AllKeyed :
      (o : Option (List Entry)) (s : Machine)
      → o ≡ s.recovery
      → MayHaveKeys ks o
      → AllKeyed ks s.trace
      → AllKeyed ks (recover semantic is_network printed is_declarable env r o s).0.trace
  unfolding recover
  recover-AllKeyed none s e h k = k
  recover-AllKeyed (some entries) s e h k =
      resaved-AllKeyed (readback env s)
        ((readback-IsSteady ks env).keeps s (subst (HasKeys ks) e h, k))

  failed_after-AllKeyed :
      (p : Machine × Option (Unit {0}))
      → AllKeyed ks p.0.trace
      → AllKeyed ks (failed_after semantic is_network printed is_declarable env r p).0.trace
  unfolding failed_after
  failed_after-AllKeyed (s, none) k = k
  failed_after-AllKeyed (s, some u) k = k

  concluded-AllKeyed :
      (p : Machine × Option ResultStatus)
      → IsWeak ks p.0
      → AllKeyed ks (concluded semantic is_network printed is_declarable env r p).0.trace
  unfolding concluded
  concluded-AllKeyed (s, some status) k = k.1
  concluded-AllKeyed (s, none) k =
      failed_after-AllKeyed (recover semantic is_network printed is_declarable env r s.recovery s)
        (recover-AllKeyed s.recovery s refl k.0 k.1)

  status_after-AllKeyed :
      (status : ResultStatus) (p : Machine × Option (Unit {0}))
      → AllKeyed ks p.0.trace
      → AllKeyed ks (status_after semantic is_network printed is_declarable env r status p).0.trace
  unfolding status_after
  status_after-AllKeyed status (s, none) k = k
  status_after-AllKeyed status (s, some u) k = k

  finished-AllKeyed :
      (p : Machine × Option ResultStatus)
      → AllKeyed ks p.0.trace
      → AllKeyed ks (finished semantic is_network printed is_declarable env r p).0.trace
  unfolding finished
  finished-AllKeyed (s, none) k = k
  finished-AllKeyed (s, some checked) k = k
  finished-AllKeyed (s, some status) k =
      status_after-AllKeyed status (save_result env status s)
        ((save_result-IsQuiet ks env status).keyed s k)

  started-AllKeyed :
      (check_mode : Bool) (p : Machine × Option (Unit {0}))
      → p.0.recovery ≡ none
      → AllKeyed ks p.0.trace
      → AllKeyed ks (started semantic is_network printed is_declarable env r check_mode p).0.trace
  unfolding started
  started-AllKeyed check_mode (s, none) e k = k
  started-AllKeyed check_mode (s, some u) e k =
      let p = attempt semantic is_network printed is_declarable env r check_mode s in
      finished-AllKeyed (concluded semantic is_network printed is_declarable env r p)
        (concluded-AllKeyed p (attempt-IsWeak check_mode s e k))

  -- What an execution did, and how it ended.
  pub record IsExecution (p : Machine × Option ResultStatus) : Type 0 where
    pub recorded : IsRecorded p.0.trace
    pub ended : IsEndOf semantic is_network printed is_declarable env r p

IsEndOf-IsSafe :
    (semantic : Text → Fields → Fields) (is_network : Text → Bool) (printed : Value → Text)
    (is_declarable : Text → Fields → Bool) (env : Env) (r : Reviewed)
    (p : Machine × Option ResultStatus)
    → IsEndOf semantic is_network printed is_declarable env r p
    → IsSafe semantic p.0.trace
IsEndOf-IsSafe semantic is_network printed is_declarable env r (s, none) h = h
IsEndOf-IsSafe semantic is_network printed is_declarable env r (s, some status) h = h.0

-- Whatever the reader, the writer and the files answer: each write comes behind a saved recovery
-- document that has an entry of each record written, and its entries of the records of the stage call
-- them attempted and their outcome unknown; each activation comes behind a read, later than the last
-- write, that shows the records of its stage as desired; both come only behind writes that were saved
-- and activations that were confirmed; and where the result is full verification, all were, and a read
-- behind the last of them shows all selected records.
pub apply-IsExecution :
    (semantic : Text → Fields → Fields) (is_network : Text → Bool) (printed : Value → Text)
    (is_declarable : Text → Fields → Bool) (env : Env) (r : Reviewed) (check_mode : Bool)
    → IsExecution semantic is_network printed is_declarable env r
        (apply semantic is_network printed is_declarable env r check_mode)
unfolding apply
apply-IsExecution semantic is_network printed is_declarable env r check_mode =
    let ks = all_keys semantic is_network printed is_declarable env r in
    let first = save_result-IsQuiet ks env running in
    let ended = apply-IsEndOf semantic is_network printed is_declarable env r check_mode in
    record {
      recorded =
          keyed-IsRecorded semantic ks
            (apply semantic is_network printed is_declarable env r check_mode).0.trace
            (IsEndOf-IsSafe semantic is_network printed is_declarable env r
              (apply semantic is_network printed is_declarable env r check_mode) ended)
            (started-AllKeyed semantic is_network printed is_declarable env r check_mode
              (save_result env running begun) (first.same begun) (first.keyed begun tt));
      ended = ended;
    }
