-- ===== src/Execute/Apply/Stages/Written.antt =====
-- The checks before a write, and the write, of a stage of `apply` in
-- src/iaas/opnsense_workflow/executor.py keep the effects in order.
use iaas.Prelude.{
  ◌≡◌, refl, sym, subst, inl, inr, Bool, true, false, ◌||◌, Option, none, some, List, [], ◌∷◌, ◌++◌,
  Text, map, All, Bool-cases,
}
use iaas.Value.{Value, Fields}
use iaas.Staging.{Item, key, State, Marker, is_marked, same_marker, Mode, save, activation_recovery}
use iaas.Dependency.Check.Topology.{All-map, same_marker-≡}
use iaas.Confirm.{Bound}
use iaas.Execute.{
  Env, written, saved_recovery, saved_result, Trace, Machine, Run, ◌>>=◌, ◌>>◌, ok, log, then_run,
  Entry, entry_key, running,
}
use iaas.Execute.Apply.{
  Reviewed, chosen, stage_markers, or_no_entries, invalidated, saved_as, update_outcome,
  save_recovery, save_result,
}
use iaas.Execute.Apply.Stages.{
  live, begin, new_outcome, stage_items, enter, call_save, record_save, keep_failure, write,
}
use iaas.Execute.Apply.Answers.{is_saved}
use iaas.Execute.Apply.Stages.Calm.{
  IsCalm, >>=-IsCalm, ok-IsCalm, require-IsCalm, update_outcome-IsCalm, save_recovery-IsCalm,
  save_result-IsCalm, activation_admission-IsCalm, live-IsCalm,
}
use iaas.Execute.Apply.Stages.Safe.{
  last_saved, IsInvalidated, IsPrepared, IsStable, IsFine, IsFine-IsStable, IsFineIf,
  IsFineIf-IsStable, Post, Triple, >>=-Triple, IsCalm-Triple, require-Triple,
}

-- A record of the stage has one of its markers.
pub chosen-is_marked :
    (markers : List Marker) (items : List Item) (m : Marker)
    → is_marked m (map key (chosen markers items)) ≡ true
    → is_marked m markers ≡ true
unfolding chosen is_marked
chosen-is_marked markers [] m h = cc
chosen-is_marked markers (item ∷ items) m h = elim (Bool-cases (is_marked (key item) markers)) [
  | inr e ↦ chosen-is_marked markers items m (rw e at h)
  | inl e ↦
      let either : same_marker m (key item) || is_marked m (map key (chosen markers items)) ≡ true =
        rw e at h in
      elim (Bool-cases (same_marker m (key item))) [
        | inl y ↦ subst (λ x. is_marked x markers ≡ true) (sym (same_marker-≡ m (key item) y)) e
        | inr y ↦ chosen-is_marked markers items m (rw y at either)
      ]
]

invalidated-All :
    (markers : List Marker) (entries : List Entry)
    → All
        (λ e. is_marked (entry_key e) markers ≡ true → IsInvalidated e)
        (invalidated markers entries)
unfolding invalidated
invalidated-All markers [] = tt
invalidated-All markers (e ∷ es) = elim (Bool-cases (is_marked (entry_key e) markers)) [
  | inl y ↦ rw y (
    (λ h. record { attempted = refl; after_status = refl; after = refl }),
    invalidated-All markers es,
  )
  | inr y ↦ rw y ((λ h. absurd (cc (y, h))), invalidated-All markers es)
]

invalidated-IsPrepared :
    (markers : List Marker) (items : List Item) (entries : List Entry)
    → IsPrepared (chosen markers items) (some (invalidated markers entries))
invalidated-IsPrepared markers items entries =
    All-map _ _ (λ e h k. h (chosen-is_marked markers items (entry_key e) k))
      (invalidated markers entries) (invalidated-All markers entries)

module _ (semantic : Text → Fields → Fields) (is_network : Text → Bool) (printed : Value → Text)
    (is_declarable : Text → Fields → Bool) (env : Env) (r : Reviewed) where
  -- Fine, and the saved entries of the stage are out of date.
  abbrev pub CanWrite : Bound → Trace → Type 0
  CanWrite b t =
      IsFine semantic t
      × IsPrepared (stage_items semantic is_network printed is_declarable env r b) (last_saved t)

  saved_files :
      (b : Bound) (x : State) (s : Machine) (saves : Bool)
      → IsFine semantic s.trace
      → IsPrepared
          (stage_items semantic is_network printed is_declarable env r b)
          (some (or_no_entries s.recovery))
      → Post semantic
          (λ a. CanWrite b)
          (then_run
            (λ u. save_result env running >> ok x)
            (saved_as (saved_recovery (or_no_entries s.recovery) s.outcomes) saves s))
  unfolding save_result ok ◌>>=◌
  saved_files b x s false fine prepared = fine.0
  saved_files b x s true fine prepared =
      result (env.is_saved (log (saved_recovery (or_no_entries s.recovery) s.outcomes) s).trace)
    where
      result :
          (c : Bool)
          → Post semantic
              (λ a. CanWrite b)
              (then_run
                (λ u s. (s, some x))
                (saved_as
                  (saved_result running s.outcomes)
                  c
                  (log (saved_recovery (or_no_entries s.recovery) s.outcomes) s)))
      result true = ((fine.0, (tt, (tt, fine.1))), prepared)
      result false = fine.0

  begin-CanWrite :
      (b : Bound) (x : State)
      → Triple semantic
          (IsFine semantic)
          (begin semantic is_network printed is_declarable env r b
            >> (save_recovery env >> (save_result env running >> ok x)))
          (λ a. CanWrite b)
  unfolding begin stage_items save_recovery save_result ok ◌>>=◌
  begin-CanWrite b x = record {
    holds = λ s fine.
        saved_files b x
          (record s {
            recovery = some (invalidated (stage_markers b) (or_no_entries s.recovery));
            outcomes =
                s.outcomes ++ new_outcome semantic is_network printed is_declarable env r b ∷ [];
          })
          (env.is_saved s.trace) fine
          (invalidated-IsPrepared (stage_markers b) r.selected (or_no_entries s.recovery));
  }

  pub calm :
      {A : Type 0} {C : Trace → Type 0} {m : Run A}
      → IsStable semantic C
      → IsCalm m
      → Triple semantic C m (λ a. C)
  calm k h = IsCalm-Triple semantic k h

  pub live_of-IsCalm :
      (expected : State) → IsCalm (live semantic is_network printed is_declarable env r expected)
  live_of-IsCalm expected = live-IsCalm semantic is_network printed is_declarable env r expected

  pub enter-CanWrite :
      (expected : State) (b : Bound)
      → Triple semantic
          (IsFine semantic)
          (enter semantic is_network printed is_declarable env r expected b)
          (λ a. CanWrite b)
  unfolding enter
  enter-CanWrite expected b =
      let fine = IsFine-IsStable semantic in
      >>=-Triple semantic (calm fine (live_of-IsCalm expected)) (λ now.
        >>=-Triple semantic (calm fine (require-IsCalm _)) (λ u.
          >>=-Triple semantic (calm fine (activation_admission-IsCalm env r.binding))
            (λ v. >>=-Triple semantic (calm fine (require-IsCalm _)) (λ w. begin-CanWrite b _))))

  record_save-CanWrite :
      (b : Bound) (status : Value)
      → Triple semantic
          (CanWrite b)
          (record_save semantic is_network printed is_declarable env r status)
          (λ u. CanWrite b)
  unfolding record_save update_outcome
  record_save-CanWrite b status = record { holds = λ s c. c }

  record_save-IsCalm :
      (status : Value) → IsCalm (record_save semantic is_network printed is_declarable env r status)
  unfolding record_save
  record_save-IsCalm status = update_outcome-IsCalm _

  keep_failure-IsCalm :
      (b : Bool) → IsCalm (keep_failure semantic is_network printed is_declarable env r b)
  unfolding keep_failure
  keep_failure-IsCalm false = ok-IsCalm tt
  keep_failure-IsCalm true =
      >>=-IsCalm (save_result-IsCalm env running) (λ u. save_recovery-IsCalm env)

  call_save-IsFineIf :
      (b : Bound)
      → Triple semantic
          (CanWrite b)
          (call_save semantic is_network printed is_declarable env r b.stage.resource
            (stage_items semantic is_network printed is_declarable env r b))
          (λ a. IsFineIf semantic (is_saved a ≡ true))
  unfolding call_save
  call_save-IsFineIf b = record { holds = λ s c. answered s (env.save s.trace _ _) c }
    where
      answered :
          (s : Machine) (o : Option Fields)
          → CanWrite b s.trace
          → Post semantic
              (λ a. IsFineIf semantic (is_saved a ≡ true))
              (
                log
                    (written b.stage.resource
                      (stage_items semantic is_network printed is_declarable env r b)
                      o)
                    s,
                o,
              )
      answered s none ((safe, good), prepared) = (prepared, good, safe)
      answered s (some a) ((safe, good), prepared) = ((prepared, good, safe), (λ h. (h, good)))

  pub write-IsFine :
      (b : Bound) (mode : Mode)
      → Triple semantic
          (CanWrite b)
          (write semantic is_network printed is_declarable env r b mode)
          (λ u. IsFine semantic)
  unfolding write
  write-IsFine b save = >>=-Triple semantic (record_save-CanWrite b _) (λ u.
      >>=-Triple semantic (call_save-IsFineIf b) (λ answer.
        >>=-Triple semantic
          (calm (IsFineIf-IsStable semantic (is_saved answer ≡ true)) (record_save-IsCalm _))
          (λ v.
            >>=-Triple semantic
              (calm (IsFineIf-IsStable semantic (is_saved answer ≡ true)) (keep_failure-IsCalm _))
              (λ w.
                require-Triple semantic (is_saved answer) (λ t c. c.0) (λ t c h. (c.0, c.1 h))))))
  write-IsFine b activation_recovery = record { holds = λ s c. c.0 }
