-- ===== src/Execute/Apply/Stages/Safe.antt =====
-- The order of effects in `apply` of src/iaas/opnsense_workflow/executor.py: what was saved before a
-- write, what was read before an activation, and what both rest on.
use iaas.Prelude.{
  ◌≡◌, refl, ◌⊎◌, inr, Bool, true, false, Option, none, some, List, [], ◌∷◌, Text, map, All,
}
use iaas.Value.{Fields}
use iaas.Staging.{Item, key, is_marked}
use iaas.Execute.{
  Event, read, asked, saved_result, saved_recovery, not_saved, written, activated, Trace, Machine,
  Run, ◌>>=◌, ok, require, then_run, Entry, entry_key, AfterStatus, shows,
}
use iaas.Execute.Apply.Answers.{is_saved, is_confirmed}
use iaas.Execute.Apply.Stages.Calm.{IsHarmless, Extends, here, more, IsCalm}

-- The recovery document that was saved last.
abbrev pub last_saved : Trace → Option (List Entry)
last_saved [] = none
last_saved (saved_recovery entries outcomes ∷ past) = some entries
last_saved (e ∷ past) = last_saved past

-- The entry says that its record was attempted, and nothing of what became of it.
pub record IsInvalidated (e : Entry) : Type 0 where
  pub attempted : e.attempted ≡ true
  pub after_status : e.after_status ≡ AfterStatus.unknown
  pub after : e.after ≡ none

-- The recovery document has invalidated entries of these records.
abbrev pub IsPrepared : List Item → Option (List Entry) → Type 0
IsPrepared items none = ⊥
IsPrepared items (some entries) =
    All (λ e. is_marked (entry_key e) (map key items) ≡ true → IsInvalidated e) entries

-- A write that was saved, or an activation that was confirmed.
abbrev pub IsGood : Event → Type 0
IsGood (written resource items none) = ⊥
IsGood (written resource items (some answer)) = is_saved answer ≡ true
IsGood (activated resource items none) = ⊥
IsGood (activated resource items (some answer)) = is_confirmed answer ≡ true
IsGood _ = Unit

abbrev pub AllGood : Trace → Type 0
AllGood [] = Unit
AllGood (e ∷ past) = IsGood e × AllGood past

module _ (semantic : Text → Fields → Fields) where
  -- A read behind the last write or activation shows the records as they are desired.
  abbrev pub AreShown : List Item → Trace → Type 0
  AreShown items [] = ⊥
  AreShown items (written resource others answer ∷ past) = ⊥
  AreShown items (activated resource others answer ∷ past) = ⊥
  AreShown items (read resources answer ∷ past) =
      (shows semantic items answer ≡ true) ⊎ AreShown items past
  AreShown items (e ∷ past) = AreShown items past

  -- Before each write its entries were invalidated in the saved recovery document; before each
  -- activation its records were read as desired; and all writes and activations before were good.
  abbrev pub IsSafe : Trace → Type 0
  IsSafe [] = Unit
  IsSafe (written resource items answer ∷ past) =
      IsPrepared items (last_saved past) × AllGood past × IsSafe past
  IsSafe (activated resource items answer ∷ past) = AreShown items past × AllGood past × IsSafe past
  IsSafe (e ∷ past) = IsSafe past

  -- A property of what was done that harmless events keep, and that is safe.
  pub record IsStable (C : Trace → Type 0) : Type 0 where
    pub keeps : (e : Event) (t : Trace) → IsHarmless e → C t → C (e ∷ t)
    pub safe : (t : Trace) → C t → IsSafe t

  pub IsStable-Extends : (C : Trace → Type 0) {t u : Trace} → IsStable C → C t → Extends t u → C u
  IsStable-Extends C k c here = c
  IsStable-Extends C k c (more {e} {u} h x) = k.keeps e u h (IsStable-Extends C k c x)

  pub IsSafe-keeps : (e : Event) (t : Trace) → IsHarmless e → IsSafe t → IsSafe (e ∷ t)
  IsSafe-keeps (read rs a) t h s = s
  IsSafe-keeps (asked v) t h s = s
  IsSafe-keeps (saved_result r o) t h s = s
  IsSafe-keeps (saved_recovery es o) t h s = s
  IsSafe-keeps not_saved t h s = s
  IsSafe-keeps (written r i a) t h s = absurd h
  IsSafe-keeps (activated r i a) t h s = absurd h

  pub AllGood-keeps : (e : Event) (t : Trace) → IsHarmless e → AllGood t → AllGood (e ∷ t)
  AllGood-keeps (read rs a) t h s = (tt, s)
  AllGood-keeps (asked v) t h s = (tt, s)
  AllGood-keeps (saved_result r o) t h s = (tt, s)
  AllGood-keeps (saved_recovery es o) t h s = (tt, s)
  AllGood-keeps not_saved t h s = (tt, s)
  AllGood-keeps (written r i a) t h s = absurd h
  AllGood-keeps (activated r i a) t h s = absurd h

  pub AreShown-keeps :
      (items : List Item) (e : Event) (t : Trace)
      → IsHarmless e
      → AreShown items t
      → AreShown items (e ∷ t)
  AreShown-keeps items (read rs a) t h s = inr s
  AreShown-keeps items (asked v) t h s = s
  AreShown-keeps items (saved_result r o) t h s = s
  AreShown-keeps items (saved_recovery es o) t h s = s
  AreShown-keeps items not_saved t h s = s
  AreShown-keeps items (written r i a) t h s = absurd h
  AreShown-keeps items (activated r i a) t h s = absurd h

  pub IsSafe-IsStable : IsStable IsSafe
  IsSafe-IsStable = record { keeps = IsSafe-keeps; safe = λ t c. c }

  -- Safe and good so far.
  abbrev pub IsFine : Trace → Type 0
  IsFine t = IsSafe t × AllGood t

  pub IsFine-IsStable : IsStable IsFine
  IsFine-IsStable = record {
    keeps = λ e t h c. (IsSafe-keeps e t h c.0, AllGood-keeps e t h c.1);
    safe = λ t c. c.0;
  }

  -- Safe, and good if the condition holds.
  abbrev pub IsFineIf : Type 0 → Trace → Type 0
  IsFineIf P t = IsSafe t × (P → AllGood t)

  pub IsFineIf-IsStable : (P : Type 0) → IsStable (IsFineIf P)
  IsFineIf-IsStable P = record {
    keeps = λ e t h c. (IsSafe-keeps e t h c.0, (λ p. AllGood-keeps e t h (c.1 p)));
    safe = λ t c. c.0;
  }

  abbrev pub IsReady : List Item → Trace → Type 0
  IsReady items t = IsFine t × AreShown items t

  pub IsReady-IsStable : (items : List Item) → IsStable (IsReady items)
  IsReady-IsStable items = record {
    keeps = λ e t h c. (IsFine-IsStable.keeps e t h c.0, AreShown-keeps items e t h c.1);
    safe = λ t c. c.0.0;
  }

  -- Fine, and shown if the condition holds.
  abbrev pub IsReadyIf : Type 0 → List Item → Trace → Type 0
  IsReadyIf P items t = IsFine t × (P → AreShown items t)

  pub IsReadyIf-IsStable : (P : Type 0) (items : List Item) → IsStable (IsReadyIf P items)
  IsReadyIf-IsStable P items = record {
    keeps = λ e t h c. (IsFine-IsStable.keeps e t h c.0, (λ p. AreShown-keeps items e t h (c.1 p)));
    safe = λ t c. c.0.0;
  }

  -- What holds behind a step: `Q` where it returns, and safety where it raises.
  abbrev pub Post {ℓ} : {A : Type ℓ} → (A → Trace → Type 0) → Machine × Option A → Type 0
  Post Q (s, none) = IsSafe s.trace
  Post Q (s, some a) = Q a s.trace

  pub record Triple {ℓ} {A : Type ℓ} (C : Trace → Type 0) (m : Run A) (Q : A → Trace → Type 0)
      : Type 0 where
    pub holds : (s : Machine) → C s.trace → Post Q (m s)

  then_run-Post {ℓ κ} :
      {A : Type ℓ} {B : Type κ} (Q : A → Trace → Type 0) (R : B → Trace → Type 0) (f : A → Run B)
      (p : Machine × Option A)
      → ((a : A) → Triple (Q a) (f a) R)
      → Post Q p
      → Post R (then_run f p)
  then_run-Post Q R f (s, none) h q = q
  then_run-Post Q R f (s, some a) h q = (h a).holds s q

  pub >>=-Triple {ℓ κ} :
      {A : Type ℓ} {B : Type κ} {C : Trace → Type 0} {m : Run A} {f : A → Run B}
      {Q : A → Trace → Type 0} {R : B → Trace → Type 0}
      → Triple C m Q
      → ((a : A) → Triple (Q a) (f a) R)
      → Triple C (m >>= f) R
  unfolding ◌>>=◌
  >>=-Triple {m = m} {f = f} {Q = Q} {R = R} h k = record {
    holds = λ s c. then_run-Post Q R f (m s) k (h.holds s c);
  }

  calm-Post {ℓ} :
      {A : Type ℓ} (C : Trace → Type 0) (t : Trace) (p : Machine × Option A)
      → IsStable C
      → C t
      → Extends t p.0.trace
      → Post (λ a. C) p
  calm-Post C t (s, none) k c x = k.safe s.trace (IsStable-Extends C k c x)
  calm-Post C t (s, some a) k c x = IsStable-Extends C k c x

  pub IsCalm-Triple {ℓ} :
      {A : Type ℓ} {C : Trace → Type 0} {m : Run A} → IsStable C → IsCalm m → Triple C m (λ a. C)
  IsCalm-Triple {C = C} {m = m} k h = record {
    holds = λ s c. calm-Post C s.trace (m s) k c (h.extends s);
  }

  -- A requirement gives what holds under it.
  pub require-Triple :
      {C D : Trace → Type 0} (b : Bool)
      → ((t : Trace) → C t → IsSafe t)
      → ((t : Trace) → C t → b ≡ true → D t)
      → Triple C (require b) (λ u. D)
  unfolding require
  require-Triple true safe gives = record { holds = λ s c. gives s.trace c refl }
  require-Triple false safe gives = record { holds = λ s c. safe s.trace c }

  pub ok-Triple {ℓ} :
      {A : Type ℓ} {C D : Trace → Type 0} (a : A)
      → ((t : Trace) → C t → D t)
      → Triple C (ok a) (λ x. D)
  unfolding ok
  ok-Triple a h = record { holds = λ s c. h s.trace c }
