-- ===== src/Observe/Budget.antt =====
-- src/iaas/observation.py: `ObservationBudget`, one window that no probe renews, and `observe` under
-- it. Times are whole ticks; a clock reading or a number of seconds that is not finite is `none`.
use iaas.Prelude.{
  ℕ, zero, suc, ◌≡◌, ◌⊎◌, inl, inr, refl, Option, none, some, if◌then◌else◌, arith, ◌∙◌,
}
use iaas.Prelude.Int.{ℤ, pos, ◌+ℤ◌, ◌-ℤ◌, ◌≤ℤ◌, leb_ℤ, min_ℤ, int_laws}
use iaas.Deadline.{Sample}
use iaas.Observe.{Env, Outcome, State, observe}
use iaas.Observe.Trail.{IsTrail}
use iaas.Observe.Total.{observe-IsTrail}

pub record ObservationBudget : Type 0 where
  pub cutoff : ℤ
  pub bound : ℤ
  pub local : Option ℤ

pub data Failure : Type 0 where
  bad_timeout clock_unavailable observation_deadline_expired : Failure

pub data Started : Type 0 where
  ok : ObservationBudget → Started
  raise : Failure → Started

abbrev cutoff_of : ℤ → ℤ → Option ℤ → ℤ
cutoff_of started seconds none = started +ℤ seconds
cutoff_of started seconds (some cutoff) = min_ℤ (started +ℤ seconds) cutoff

start_at : ℤ → Option ℤ → Option ℤ → Option ℤ → Started
start_at seconds cutoff (some started) (some now) =
    let cut = cutoff_of started seconds cutoff in
    ok (record { cutoff = cut; bound = now +ℤ cut -ℤ started; local = none })
start_at seconds cutoff _ _ = raise clock_unavailable

-- `__init__`
unfoldable pub start : Option ℤ → Option ℤ → Sample → Started
unfolding start_at
start none cutoff s = raise bad_timeout
start (some seconds) cutoff s =
    if leb_ℤ seconds (pos 0) then raise bad_timeout else start_at seconds cutoff s.utc s.monotonic

abbrev pub min_local : ℤ → Option ℤ → ℤ
min_local bound none = bound
min_local bound (some local) = min_ℤ bound local

-- `none` in place of a raised `ObservationExpired`.
abbrev positive : ℤ → Option ℤ
positive left = if leb_ℤ left (pos 0) then none else some left

remaining_at : ObservationBudget → Option ℤ → Option ℤ → ObservationBudget × Option ℤ
remaining_at b (some utc) (some now) =
    let bound = min_ℤ b.bound (now +ℤ b.cutoff -ℤ utc) in
    (record b { bound = bound }, positive (min_local bound b.local -ℤ now))
remaining_at b _ _ = (b, none)

unfoldable pub remaining : ObservationBudget → Sample → ObservationBudget × Option ℤ
unfolding remaining_at
remaining b s = remaining_at b s.utc s.monotonic

-- `limit`, at a monotonic reading.
unfoldable pub limit : ObservationBudget → ℤ → ℤ → ObservationBudget
limit b now seconds = record b { local = some (min_local (now +ℤ seconds) b.local) }

-- The budget after its first `n` calls, and what it answers to the next.
unfoldable pub after : ObservationBudget → (ℕ → Sample) → ℕ → ObservationBudget
after b samples zero = b
after b samples (suc n) = (remaining (after b samples n) (samples n)).0

unfoldable pub answer : ObservationBudget → (ℕ → Sample) → ℕ → Option ℤ
unfolding after remaining
answer b samples n = (remaining (after b samples n) (samples n)).1

remaining_at-frozen :
    (b : ObservationBudget) (utc now : Option ℤ)
    → ((remaining_at b utc now).0.bound ≤ℤ b.bound) × ((remaining_at b utc now).0.cutoff ≡ b.cutoff)
unfolding remaining_at
remaining_at-frozen b (some utc) (some now) = ground arith
remaining_at-frozen b _ _ = ground arith

after-frozen :
    (b : ObservationBudget) (samples : ℕ → Sample) (n : ℕ)
    → ((after b samples n).bound ≤ℤ b.bound) × ((after b samples n).cutoff ≡ b.cutoff)
unfolding after remaining
after-frozen b samples zero = ground arith
after-frozen b samples (suc n) =
    let c = after b samples n in
    let (bound, cutoff) = after-frozen b samples n in
    let (bound', cutoff') = remaining_at-frozen c (samples n).utc (samples n).monotonic in
    (omega (arith, bound, bound'), cutoff' ∙ cutoff)

min_local-le : (bound : ℤ) (local : Option ℤ) → min_local bound local ≤ℤ bound
min_local-le bound none = omega arith
min_local-le bound (some local) = ground arith

-- The window is over at a sample: a clock is not finite, the monotonic clock has reached the bound
-- of the start, or the wall clock the cutoff.
pub data IsOver (b : ObservationBudget) (s : Sample) : Type 0 where
  no_utc : s.utc ≡ none → IsOver b s
  no_monotonic : s.monotonic ≡ none → IsOver b s
  bound_reached : (now : ℤ) → s.monotonic ≡ some now → b.bound ≤ℤ now → IsOver b s
  cutoff_reached : (utc : ℤ) → s.utc ≡ some utc → b.cutoff ≤ℤ utc → IsOver b s

positive-none : (left : ℤ) → left ≤ℤ pos 0 → positive left ≡ none
positive-none left h = ground arith

refused_by_bound : (m bound now : ℤ) → m ≤ℤ bound → bound ≤ℤ now → m -ℤ now ≤ℤ pos 0
refused_by_bound m bound now h k = omega int_laws

refused_by_cutoff :
    (m cutoff utc now : ℤ) → m ≤ℤ now +ℤ cutoff -ℤ utc → cutoff ≤ℤ utc → m -ℤ now ≤ℤ pos 0
refused_by_cutoff m cutoff utc now h k = omega int_laws

le_trans_ℤ : (x y z : ℤ) → x ≤ℤ y → y ≤ℤ z → x ≤ℤ z
le_trans_ℤ x y z h k = omega arith

min_ℤ-le : (x y : ℤ) → (min_ℤ x y ≤ℤ x) × (min_ℤ x y ≤ℤ y)
min_ℤ-le x y = ground arith

module _ (b c : ObservationBudget) (bound : c.bound ≤ℤ b.bound) (cutoff : c.cutoff ≡ b.cutoff) where
  refused_at :
      (utc now : ℤ)
      → (b.bound ≤ℤ now) ⊎ (b.cutoff ≤ℤ utc)
      → (remaining_at c (some utc) (some now)).1 ≡ none
  unfolding remaining_at
  refused_at utc now h =
      let until = now +ℤ c.cutoff -ℤ utc in
      let m = min_ℤ c.bound until in
      let below = min_local-le m c.local in
      let (by_bound, by_cutoff) = min_ℤ-le c.bound until in
      positive-none (min_local m c.local -ℤ now) (elim h [
        | inl reached ↦
            refused_by_bound (min_local m c.local) b.bound now
              (le_trans_ℤ _ m _ below (le_trans_ℤ m c.bound _ by_bound bound)) reached
        | inr reached ↦
            refused_by_cutoff (min_local m c.local) c.cutoff utc now
              (le_trans_ℤ _ m _ below by_cutoff) (rw cutoff reached)
      ])

  refused :
      (utc now : Option ℤ)
      → IsOver b (record { utc = utc; monotonic = now })
      → (remaining_at c utc now).1 ≡ none
  refused (some utc) (some now) (no_utc e) = cc
  refused (some utc) (some now) (no_monotonic e) = cc
  refused (some utc) (some now) (bound_reached n e h) = refused_at utc now (inl (ground arith))
  refused (some utc) (some now) (cutoff_reached u e h) = refused_at utc now (inr (ground arith))
  refused (some utc) none h = unfold remaining_at in refl
  refused none now h = unfold remaining_at in refl

-- Once the window is over, the budget refuses, whatever it was asked before.
pub answer-none :
    (b : ObservationBudget) (samples : ℕ → Sample) (n : ℕ)
    → IsOver b (samples n)
    → answer b samples n ≡ none
unfolding answer
answer-none b samples n over =
    let (bound, cutoff) = after-frozen b samples n in
    refused b (after b samples n) bound cutoff (samples n).utc (samples n).monotonic over

-- An observation under a budget whose window is over at the sample of its call `n` ends within `n + 1`
-- rounds, with the rows described by `IsTrail`.
pub observe-ends :
    (env : Env) (b : ObservationBudget) (samples : ℕ → Sample) (n : ℕ)
    → IsOver b (samples n)
    → let env' = record env { remaining = answer b samples } in
      (o : Outcome) × (s : State) × (observe env' (suc n) ≡ some (o, s)) × IsTrail env' o s.rows
observe-ends env b samples n over =
    observe-IsTrail (record env { remaining = answer b samples }) n (answer-none b samples n over)
