-- ===== src/Deadline/Outcomes.antt =====
-- What the methods of pve_template/deadlines.py record of a failure.
use iaas.Prelude.{
  ◌≡◌, ◌≢◌, ◌∙◌, ◌⊎◌, inl, inr, sym, refl, true, Option, none, some, arith, Bool-cases,
}
use iaas.Prelude.Int.{min_ℤ, ◌+ℤ◌, ℤ, ◌-ℤ◌, ◌≤ℤ◌, leb_ℤ, pos, int_laws}
use iaas.Deadline.{
  Phase, work, cleanup, at, DeadlineBudget, Sample, clock_unavailable, deadline_expired,
  local_timeout, Result, ok, raise, remaining, remaining_at, check_bound, check_local, admit,
  admit_cleanup, rejecting, put, admission, rejected, exceeded, phase,
}

-- An expired deadline is recorded with its phase; nothing else changes the recorded outcome.
abbrev pub Records : DeadlineBudget → DeadlineBudget × Result ℤ → Type 0
Records b (b', raise (deadline_expired p)) =
    b'.outcome ≡ record { phase = phase p; status = exceeded }
Records b (b', _) = b'.outcome ≡ b.outcome

check_local-Records :
    (b : DeadlineBudget) (p : Phase) (now left : ℤ) (o : Option ℤ)
    → Records b (check_local b p now left o)
unfolding check_local
check_local-Records b p now left none = refl
check_local-Records b p now left (some bound) = ground arith

check_bound-Records :
    (b : DeadlineBudget) (p : Phase) (now left : ℤ) → Records b (check_bound b p now left)
unfolding check_bound
check_bound-Records b p now left = ground (arith, check_local-Records b p now left (at b.local p))

remaining_at-Records :
    (b : DeadlineBudget) (p : Phase) (utc now : Option ℤ) → Records b (remaining_at b p utc now)
unfolding remaining_at
remaining_at-Records b p (some utc) (some now) =
    let bound = min_ℤ (at b.bounds p) (now +ℤ at b.absolute p -ℤ utc) in
    check_bound-Records (record b { bounds = put b.bounds p bound }) p now (bound -ℤ now)
remaining_at-Records b p _ _ = refl

pub remaining-Records : (b : DeadlineBudget) (p : Phase) (s : Sample) → Records b (remaining b p s)
unfolding remaining
remaining-Records b p s = remaining_at-Records b p s.utc s.monotonic

Records-after :
    (b b' : DeadlineBudget) (r : DeadlineBudget × Result ℤ)
    → b'.outcome ≡ b.outcome
    → Records b' r
    → Records b r
Records-after b b' (c, ok left) e h = h ∙ e
Records-after b b' (c, raise clock_unavailable) e h = h ∙ e
Records-after b b' (c, raise (local_timeout p)) e h = h ∙ e
Records-after b b' (c, raise (deadline_expired p)) e h = h

-- The frozen bound or the deadline of the phase has passed at the sample.
abbrev pub ExpiredAt : ℤ → ℤ → Option ℤ → Option ℤ → Type 0
ExpiredAt bound deadline (some utc) (some now) = (bound ≤ℤ now) ⊎ (deadline ≤ℤ utc)
ExpiredAt bound deadline _ _ = ⊥

abbrev pub IsExpired : DeadlineBudget → Phase → Sample → Type 0
IsExpired b p s = ExpiredAt (at b.bounds p) (at b.absolute p) s.utc s.monotonic

abbrev pub Grants : DeadlineBudget → Phase → Sample → Type 0
Grants b p s = (left : ℤ) × ((remaining b p s).1 ≡ ok left)

abbrev pub IsRejected : Phase → DeadlineBudget × Result ℤ → Type 0
IsRejected p (b', r) =
    (b'.outcome ≡ record { phase = admission; status = rejected })
    × (r ≡ raise (deadline_expired p))

-- How an admission of `b` at two samples ends in `r`.
pub record IsAdmission (b : DeadlineBudget) (s s' : Sample) (r : DeadlineBudget × Result ℤ)
    : Type 0 where
  pub by_work : IsExpired b work s → IsRejected work r
  pub by_cleanup : Grants b work s → IsExpired b cleanup s' → IsRejected cleanup r
  pub kept :
      ¬ IsExpired b work s → (Grants b work s → ¬ IsExpired b cleanup s') → r.0.outcome ≡ b.outcome

expired-le :
    (bound limit utc now : ℤ)
    → (bound ≤ℤ now) ⊎ (limit ≤ℤ utc)
    → leb_ℤ (min_ℤ bound (now +ℤ limit -ℤ utc) -ℤ now) (pos 0) ≡ true
expired-le bound limit utc now (inl h) = grind int_laws
expired-le bound limit utc now (inr h) = grind int_laws

le-expired :
    (bound limit utc now : ℤ)
    → leb_ℤ (min_ℤ bound (now +ℤ limit -ℤ utc) -ℤ now) (pos 0) ≡ true
    → (bound ≤ℤ now) ⊎ (limit ≤ℤ utc)
le-expired bound limit utc now h = elim (Bool-cases (leb_ℤ bound (now +ℤ limit -ℤ utc))) [
  | inl e ↦ inl (grind int_laws)
  | inr e ↦ inr (grind int_laws)
]

check_local-ne-expired :
    (b : DeadlineBudget) (p : Phase) (now left : ℤ) (o : Option ℤ) (q : Phase)
    → (check_local b p now left o).1 ≢ raise (deadline_expired q)
unfolding check_local
check_local-ne-expired b p now left none q = λ e. cc
check_local-ne-expired b p now left (some bound) q = ground arith

module _ (b : DeadlineBudget) (p : Phase) where
  remaining_at-expired :
      (utc now : Option ℤ)
      → ExpiredAt (at b.bounds p) (at b.absolute p) utc now
      → (remaining_at b p utc now).1 ≡ raise (deadline_expired p)
  unfolding remaining_at check_bound
  remaining_at-expired (some utc) (some now) h =
      rw (expired-le (at b.bounds p) (at b.absolute p) utc now h) refl
  remaining_at-expired none now h = absurd h
  remaining_at-expired (some utc) none h = absurd h

  remaining_at-raise :
      (utc now : Option ℤ) (q : Phase)
      → (remaining_at b p utc now).1 ≡ raise (deadline_expired q)
      → ExpiredAt (at b.bounds p) (at b.absolute p) utc now
  unfolding remaining_at check_bound
  remaining_at-raise (some utc) (some now) q h =
      let bound = min_ℤ (at b.bounds p) (now +ℤ at b.absolute p -ℤ utc) in
      let c = record b { bounds = put b.bounds p bound } in
      elim (Bool-cases (leb_ℤ (bound -ℤ now) (pos 0))) [
        | inl e ↦ le-expired (at b.bounds p) (at b.absolute p) utc now e
        | inr e ↦
            absurd (check_local-ne-expired c p now (bound -ℤ now) (at c.local p) q (rw e at h))
      ]
  remaining_at-raise none now q h = cc
  remaining_at-raise (some utc) none q h = cc

-- A call for the work phase leaves the cleanup phase as it was.
remaining_at-cleanup :
    (b : DeadlineBudget) (utc now : Option ℤ)
    → let c = (remaining_at b work utc now).0 in
      (c.bounds.cleanup ≡ b.bounds.cleanup) × (c.absolute.cleanup ≡ b.absolute.cleanup)
unfolding remaining_at check_bound check_local
remaining_at-cleanup b (some utc) (some now) = ground arith
remaining_at-cleanup b none now = (refl, refl)
remaining_at-cleanup b (some utc) none = (refl, refl)

rejecting-IsRejected :
    (p : Phase) (x : DeadlineBudget × Result ℤ)
    → x.1 ≡ raise (deadline_expired p)
    → IsRejected p (rejecting x)
unfolding rejecting
rejecting-IsRejected p (b', ok left) e = cc
rejecting-IsRejected p (b', raise clock_unavailable) e = cc
rejecting-IsRejected p (b', raise (local_timeout q)) e = cc
rejecting-IsRejected p (b', raise (deadline_expired q)) e = (refl, e)

rejecting-kept :
    (b : DeadlineBudget) (x : DeadlineBudget × Result ℤ)
    → Records b x
    → ((q : Phase) → x.1 ≢ raise (deadline_expired q))
    → (rejecting x).0.outcome ≡ b.outcome
unfolding rejecting
rejecting-kept b (b', ok left) h ne = h
rejecting-kept b (b', raise clock_unavailable) h ne = h
rejecting-kept b (b', raise (local_timeout p)) h ne = h
rejecting-kept b (b', raise (deadline_expired p)) h ne = absurd (ne p refl)

module _ (b : DeadlineBudget) (s' : Sample) where
  by_raise :
      (p : Phase) (x : DeadlineBudget × Result ℤ)
      → x.1 ≡ raise (deadline_expired p)
      → IsRejected p (admit_cleanup x s')
  unfolding admit_cleanup
  by_raise p (b', ok left) e = cc
  by_raise p (b', raise f) e = rejecting-IsRejected p (b', raise f) e

  -- The budget `c` behind the call for the work phase.
  abbrev KeepsCleanup : DeadlineBudget → Type 0
  KeepsCleanup c = (c.bounds.cleanup ≡ b.bounds.cleanup) × (c.absolute.cleanup ≡ b.absolute.cleanup)

  by_ok :
      (x : DeadlineBudget × Result ℤ) (left : ℤ)
      → KeepsCleanup x.0
      → x.1 ≡ ok left
      → IsExpired b cleanup s'
      → IsRejected cleanup (admit_cleanup x s')
  unfolding admit_cleanup remaining
  by_ok (b', ok l) left (bounds, absolute) e h =
      rejecting-IsRejected cleanup (remaining b' cleanup s')
        (remaining_at-expired b' cleanup s'.utc s'.monotonic (rw (bounds, absolute) h))
  by_ok (b', raise f) left keeps e h = cc

  kept_by :
      (x : DeadlineBudget × Result ℤ)
      → KeepsCleanup x.0
      → Records b x
      → ((q : Phase) → x.1 ≢ raise (deadline_expired q))
      → ((left : ℤ) → x.1 ≡ ok left → ¬ IsExpired b cleanup s')
      → (admit_cleanup x s').0.outcome ≡ b.outcome
  unfolding admit_cleanup remaining
  kept_by (b', ok left) (bounds, absolute) h ne clear =
      let expired = remaining_at-raise b' cleanup s'.utc s'.monotonic in
      rejecting-kept b (remaining b' cleanup s')
        (Records-after b b' (remaining b' cleanup s') h (remaining-Records b' cleanup s'))
        (λ q e. clear left refl (rw (bounds, absolute) at (expired q e)))
  kept_by (b', raise f) keeps h ne clear = rejecting-kept b (b', raise f) h ne

-- If the bound or the deadline of the work phase has passed at the first sample, `admit` raises its
-- expiry and records a rejected admission. So it does for the cleanup phase at the second sample, if
-- the work phase was granted time. In all other cases the recorded outcome is as it was.
pub admit-IsAdmission : (b : DeadlineBudget) (s s' : Sample) → IsAdmission b s s' (admit b s s')
unfolding admit remaining
admit-IsAdmission b s s' =
    let w = remaining b work s in
    let keeps = remaining_at-cleanup b s.utc s.monotonic in
    record {
      by_work = λ h. by_raise b s' work w (remaining_at-expired b work s.utc s.monotonic h);
      by_cleanup = λ g h. by_ok b s' w g.0 keeps g.1 h;
      kept = λ no clear.
          kept_by b s' w keeps (remaining-Records b work s)
            (λ q e. no (remaining_at-raise b work s.utc s.monotonic q e))
            (λ left e. clear (left, e));
    }

-- `admit` succeeds only if the work phase and then the cleanup phase had time left.
pub admit-ok :
    (b : DeadlineBudget) (s s' : Sample) (left : ℤ)
    → (admit b s s').1 ≡ ok left
    → (left_work : ℤ) × ((remaining b work s).1 ≡ ok left_work)
      × ((remaining (remaining b work s).0 cleanup s').1 ≡ ok left)
unfolding admit
admit-ok b s s' left h = by_work (remaining b work s) h
  where
    kept : (r : DeadlineBudget × Result ℤ) → (rejecting r).1 ≡ r.1
    kept (b', ok l) = refl
    kept (b', raise clock_unavailable) = refl
    kept (b', raise (local_timeout p)) = refl
    kept (b', raise (deadline_expired p)) = refl

    by_work :
        (r : DeadlineBudget × Result ℤ)
        → (admit_cleanup r s').1 ≡ ok left
        → (left_work : ℤ) × (r.1 ≡ ok left_work) × ((remaining r.0 cleanup s').1 ≡ ok left)
    by_work (b', ok l) e = (l, refl, sym (kept (remaining b' cleanup s')) ∙ e)
    by_work (b', raise x) e = cc (kept (b', raise x))
