-- ===== src/Deadline/Frozen.antt =====
-- The budget of pve_template/deadlines.py is frozen at its start: no later call extends it.
use iaas.Prelude.{◌≡◌, ◌∙◌, ap, sym, subst, refl, Option, none, some, List, [], ◌∷◌, arith, ◌<◌}
use iaas.Prelude.Int.{ℤ, pos_part, ◌+ℤ◌, ◌-ℤ◌, ◌≤ℤ◌, min_ℤ, int_laws}
use iaas.Deadline.{
  Phase, work, cleanup, at, DeadlineBudget, Sample, deadline_expired, Result, ok, raise, remaining,
  remaining_at, check_local, check_bound, put, min_inf, rejecting, admit_cleanup, admit, limit,
}

-- A time is no later than a local bound; `none` is no bound.
abbrev pub EndsBy : ℤ → Option ℤ → Type 0
EndsBy z none = Unit
EndsBy z (some bound) = z ≤ℤ bound

-- A call of a method, with what the clocks read during it.
pub data Call : Type 0 where
  ask : Phase → Sample → Call
  admission_check : Sample → Sample → Call
  limit_local : Phase → ℤ → ℤ → Call

-- No call limited the phase to an earlier time.
abbrev pub Obeys : Phase → ℤ → List Call → Type 0
Obeys p z [] = Unit
Obeys p z (limit_local q now seconds ∷ calls) = (q ≡ p → z ≤ℤ now +ℤ seconds) × Obeys p z calls
Obeys p z (_ ∷ calls) = Obeys p z calls

-- `r` is positive, and ends by the frozen bound, the deadline, the local bound that the budget had, if
-- any, and the local limits that the calls set.
pub record IsWithin (b : DeadlineBudget) (calls : List Call) (p : Phase) (utc now r : ℤ)
    : Type 0 where
  pub positive : 0 < pos_part r
  pub by_local : EndsBy (now +ℤ r) (at b.local p)
  pub by_limits : Obeys p (now +ℤ r) calls
  pub by_bound : now +ℤ r ≤ℤ at b.bounds p
  pub by_deadline : utc +ℤ r ≤ℤ at b.absolute p

module _ (b : DeadlineBudget) (p : Phase) (now left : ℤ) {b' : DeadlineBudget} {r : ℤ} where
  check_local-le :
      (o : Option ℤ)
      → 0 < pos_part left
      → check_local b p now left o ≡ (b', ok r)
      → (0 < pos_part r) × (r ≤ℤ left) × EndsBy (now +ℤ r) o
  unfolding check_local
  check_local-le none h e = ground arith
  check_local-le (some bound) h e = grind int_laws

  check_bound-le :
      check_bound b p now left ≡ (b', ok r)
      → (0 < pos_part r) × (r ≤ℤ left) × EndsBy (now +ℤ r) (at b.local p)
  unfolding check_bound
  check_bound-le e = ground (arith, check_local-le (at b.local p))

min-le : (x y : ℤ) → (min_ℤ x y ≤ℤ x) × (min_ℤ x y ≤ℤ y)
min-le x y = ground arith

-- The bounds of the budget that `remaining` is called on.
record IsBounded (b : DeadlineBudget) (p : Phase) (utc now r : ℤ) : Type 0 where
  positive : 0 < pos_part r
  by_bound : now +ℤ r ≤ℤ at b.bounds p
  by_deadline : utc +ℤ r ≤ℤ at b.absolute p
  by_local : EndsBy (now +ℤ r) (at b.local p)

module _ (b : DeadlineBudget) (p : Phase) (utc now : ℤ) where
  remaining_at-IsBounded :
      {b' : DeadlineBudget} {r : ℤ}
      → remaining_at b p (some utc) (some now) ≡ (b', ok r)
      → IsBounded b p utc now r
  unfolding remaining_at
  remaining_at-IsBounded {r} h =
      let bound = min_ℤ (at b.bounds p) (now +ℤ at b.absolute p -ℤ utc) in
      let (below_bounds, below_cutoff) = min-le (at b.bounds p) (now +ℤ at b.absolute p -ℤ utc) in
      let (positive, short, by_local) =
        check_bound-le (record b { bounds = put b.bounds p bound }) p now (bound -ℤ now) h in
      record {
        positive = positive;
        by_bound = within bound r now (at b.bounds p) short below_bounds;
        by_deadline = before bound r now utc (at b.absolute p) short below_cutoff;
        by_local = by_local;
      }
    where
      within : (bound r now limit : ℤ) → r ≤ℤ bound -ℤ now → bound ≤ℤ limit → now +ℤ r ≤ℤ limit
      within bound r now limit short below = omega int_laws

      before :
          (bound r now utc limit : ℤ)
          → r ≤ℤ bound -ℤ now
          → bound ≤ℤ now +ℤ limit -ℤ utc
          → utc +ℤ r ≤ℤ limit
      before bound r now utc limit short below = omega int_laws

-- `none` is no local bound.
abbrev pub NoLater : Option ℤ → Option ℤ → Type 0
NoLater o none = Unit
NoLater none (some y) = ⊥
NoLater (some x) (some y) = x ≤ℤ y

-- `b'` has the deadlines of `b`, and no bound of it is later.
pub record Tightens (b b' : DeadlineBudget) : Type 0 where
  pub absolute : b'.absolute ≡ b.absolute
  pub work : b'.bounds.work ≤ℤ b.bounds.work
  pub cleanup : b'.bounds.cleanup ≤ℤ b.bounds.cleanup
  pub local_work : NoLater b'.local.work b.local.work
  pub local_cleanup : NoLater b'.local.cleanup b.local.cleanup

NoLater-refl : (o : Option ℤ) → NoLater o o
NoLater-refl none = tt
NoLater-refl (some x) = omega arith

NoLater-trans : (x y z : Option ℤ) → NoLater x y → NoLater y z → NoLater x z
NoLater-trans x y none h k = tt
NoLater-trans x none (some c) h k = absurd k
NoLater-trans none (some b) (some c) h k = absurd h
NoLater-trans (some a) (some b) (some c) h k = omega arith

NoLater-min_inf : (o : Option ℤ) (z : ℤ) → NoLater (min_inf o z) o
NoLater-min_inf none z = tt
NoLater-min_inf (some y) z = (min-le y z).0

Tightens-refl : (b : DeadlineBudget) → Tightens b b
Tightens-refl b = record {
  absolute = refl;
  work = omega arith;
  cleanup = omega arith;
  local_work = NoLater-refl b.local.work;
  local_cleanup = NoLater-refl b.local.cleanup;
}

Tightens-trans : (a b c : DeadlineBudget) → Tightens a b → Tightens b c → Tightens a c
Tightens-trans a b c h k = record {
  absolute = k.absolute ∙ h.absolute;
  work = omega (arith, h.work, k.work);
  cleanup = omega (arith, h.cleanup, k.cleanup);
  local_work = NoLater-trans c.local.work b.local.work a.local.work k.local_work h.local_work;
  local_cleanup =
      NoLater-trans c.local.cleanup b.local.cleanup a.local.cleanup k.local_cleanup h.local_cleanup;
}

remaining_at-Tightens :
    (b : DeadlineBudget) (p : Phase) (utc now : Option ℤ) → Tightens b (remaining_at b p utc now).0
unfolding remaining_at
remaining_at-Tightens b work (some utc) (some now) =
    ground (arith, NoLater-refl b.local.work, NoLater-refl b.local.cleanup)
remaining_at-Tightens b cleanup (some utc) (some now) =
    ground (arith, NoLater-refl b.local.work, NoLater-refl b.local.cleanup)
remaining_at-Tightens b _ _ _ = Tightens-refl b

pub remaining-Tightens :
    (b : DeadlineBudget) (p : Phase) (s : Sample) → Tightens b (remaining b p s).0
unfolding remaining
remaining-Tightens b p s = remaining_at-Tightens b p s.utc s.monotonic

limit-Tightens :
    (b : DeadlineBudget) (p : Phase) (now seconds : ℤ) → Tightens b (limit b p now seconds)
unfolding limit
limit-Tightens b work now seconds = record {
  absolute = refl;
  work = omega arith;
  cleanup = omega arith;
  local_work = NoLater-min_inf b.local.work (now +ℤ seconds);
  local_cleanup = NoLater-refl b.local.cleanup;
}
limit-Tightens b cleanup now seconds = record {
  absolute = refl;
  work = omega arith;
  cleanup = omega arith;
  local_work = NoLater-refl b.local.work;
  local_cleanup = NoLater-min_inf b.local.cleanup (now +ℤ seconds);
}

rejecting-Tightens :
    (b : DeadlineBudget) (r : DeadlineBudget × Result ℤ)
    → Tightens b r.0
    → Tightens b (rejecting r).0
unfolding rejecting
rejecting-Tightens b (b', raise (deadline_expired p)) h = record {
  absolute = h.absolute;
  work = h.work;
  cleanup = h.cleanup;
  local_work = h.local_work;
  local_cleanup = h.local_cleanup;
}
rejecting-Tightens b (b', _) h = h

admit_cleanup-Tightens :
    (b : DeadlineBudget) (r : DeadlineBudget × Result ℤ) (s : Sample)
    → Tightens b r.0
    → Tightens b (admit_cleanup r s).0
unfolding admit_cleanup
admit_cleanup-Tightens b (b', ok left) s h =
    rejecting-Tightens b (remaining b' cleanup s)
      (Tightens-trans b b' _ h (remaining-Tightens b' cleanup s))
admit_cleanup-Tightens b (b', raise e) s h = rejecting-Tightens b (b', raise e) h

abbrev pub step : DeadlineBudget → Call → DeadlineBudget
step b (ask p s) = (remaining b p s).0
step b (admission_check s s') = (admit b s s').0
step b (limit_local p now seconds) = limit b p now seconds

step-Tightens : (b : DeadlineBudget) (c : Call) → Tightens b (step b c)
unfolding admit
step-Tightens b (ask p s) = remaining-Tightens b p s
step-Tightens b (admission_check s s') =
    admit_cleanup-Tightens b (remaining b work s) s' (remaining-Tightens b work s)
step-Tightens b (limit_local p now seconds) = limit-Tightens b p now seconds

unfoldable pub run : DeadlineBudget → List Call → DeadlineBudget
run b [] = b
run b (c ∷ cs) = run (step b c) cs

-- No sequence of calls, failing or not and whatever the clocks read, moves a bound of the budget
-- to a later time or changes its deadlines.
pub run-Tightens : (b : DeadlineBudget) (calls : List Call) → Tightens b (run b calls)
unfolding run
run-Tightens b [] = Tightens-refl b
run-Tightens b (c ∷ cs) =
    Tightens-trans b (step b c) _ (step-Tightens b c) (run-Tightens (step b c) cs)

Tightens-at :
    (b b' : DeadlineBudget) (p : Phase)
    → Tightens b b'
    → (at b'.bounds p ≤ℤ at b.bounds p)
      × (at b'.absolute p ≡ at b.absolute p)
      × NoLater (at b'.local p) (at b.local p)
Tightens-at b b' work h = (h.work, ap (λ a. a.work) h.absolute, h.local_work)
Tightens-at b b' cleanup h = (h.cleanup, ap (λ a. a.cleanup) h.absolute, h.local_cleanup)

EndsBy-NoLater : (z : ℤ) (x y : Option ℤ) → EndsBy z x → NoLater x y → EndsBy z y
EndsBy-NoLater z x none h k = tt
EndsBy-NoLater z none (some y) h k = absurd k
EndsBy-NoLater z (some x) (some y) h k = omega (arith, h, k)

min_inf-NoLater : (o : Option ℤ) (z : ℤ) → NoLater (min_inf o z) (some z)
min_inf-NoLater none z = omega arith
min_inf-NoLater (some y) z = (min-le y z).1

limit-NoLater :
    (b : DeadlineBudget) (p : Phase) (now seconds : ℤ)
    → NoLater (at (limit b p now seconds).local p) (some (now +ℤ seconds))
unfolding limit
limit-NoLater b work now seconds = min_inf-NoLater b.local.work (now +ℤ seconds)
limit-NoLater b cleanup now seconds = min_inf-NoLater b.local.cleanup (now +ℤ seconds)

run-Obeys :
    (b : DeadlineBudget) (calls : List Call) (p : Phase) (z : ℤ)
    → EndsBy z (at (run b calls).local p)
    → Obeys p z calls
unfolding run
run-Obeys b [] p z h = tt
run-Obeys b (ask q s ∷ calls) p z h = run-Obeys (step b (ask q s)) calls p z h
run-Obeys b (admission_check s s' ∷ calls) p z h =
    run-Obeys (step b (admission_check s s')) calls p z h
run-Obeys b (limit_local q now seconds ∷ calls) p z h =
    let c = limit b q now seconds in
    let (bound, cutoff, local) = Tightens-at c (run c calls) q (run-Tightens c calls) in
    (
      (λ e.
          EndsBy-NoLater z (at c.local q) (some (now +ℤ seconds))
            (EndsBy-NoLater z (at (run c calls).local q) (at c.local q)
              (subst (λ x. EndsBy z (at (run c calls).local x)) (sym e) h) local)
            (limit-NoLater b q now seconds)),
      run-Obeys c calls p z h,
    )

-- Whatever calls came before, the time that `remaining` grants is positive and ends by the bound that
-- the budget had at its start, by the deadline on the wall clock, by the local bound that the budget
-- had, if any, and by every local limit that one of the calls set for the phase.
pub remaining-IsWithin :
    (b : DeadlineBudget) (calls : List Call) (p : Phase) (utc now r : ℤ)
    → (remaining (run b calls) p (record { utc = some utc; monotonic = some now })).1 ≡ ok r
    → IsWithin b calls p utc now r
unfolding remaining
remaining-IsWithin b calls p utc now r h =
    let c = run b calls in
    let (bound, cutoff, local) = Tightens-at b c p (run-Tightens b calls) in
    let w =
      remaining_at-IsBounded c p utc now {b' = (remaining_at c p (some utc) (some now)).0} {r = r}
        (pair _ h) in
    record {
      positive = w.positive;
      by_local = EndsBy-NoLater (now +ℤ r) (at c.local p) (at b.local p) w.by_local local;
      by_limits = run-Obeys b calls p (now +ℤ r) w.by_local;
      by_bound = omega (arith, w.by_bound, bound);
      by_deadline = rw (← cutoff) w.by_deadline;
    }
  where
    pair : (x : DeadlineBudget × Result ℤ) → x.1 ≡ ok r → x ≡ (x.0, ok r)
    pair x e = λ i. (x.0, e i)
