-- ===== src/Dependency/Stages.antt =====
-- `stages_for` of src/iaas/opnsense_workflow/planning.py with its `valid_state`: what holds of the
-- states between the writes.
use iaas.Prelude.{◌≡◌, inl, inr, Bool, true, some, List, [], ◌∷◌, Text, map, Bool-cases}
use mathlib.Core.List.{Perm}
use iaas.Value.{Value, Fields}
use iaas.Staging.{
  Marker, Item, State, overlay, Difference, Stage, changed_of, pending_of, apply, stages_for,
}
use iaas.Staging.Order.{entry, entries, IsSafe, stages_for-IsOrder}
use iaas.Dependency.Check.{valid_state}
use iaas.Dependency.Check.Sound.{IsValid, valid_state-IsValid}

module _ (semantic : Text → Fields → Fields) (is_network : Text → Bool) (printed : Value → Text)
    (interfaces : List Text) where
  -- The state after each of the items is valid.
  abbrev pub AreValid : State → List Item → Type 0
  AreValid state [] = Unit
  AreValid state (item ∷ items) =
      IsValid is_network printed interfaces (overlay semantic state item)
      × AreValid (overlay semantic state item) items

  IsSafe-AreValid :
      (state : State) (items : List Item)
      → IsSafe semantic (valid_state is_network printed interfaces) state items
      → AreValid state items
  IsSafe-AreValid state [] h = tt
  IsSafe-AreValid state (item ∷ items) (h, hs) = (
    valid_state-IsValid is_network printed interfaces (overlay semantic state item) h,
    IsSafe-AreValid (overlay semantic state item) items hs,
  )

  ordered :
      (selected : List Item) (before : State) (differences : List Difference)
      (recovery : List Marker) (stages : List Stage)
      → valid_state is_network printed interfaces
          (apply semantic (valid_state is_network printed interfaces) before selected)
        ≡ true
      → stages_for semantic
          (valid_state is_network printed interfaces)
          selected
          before
          differences
          recovery
        ≡ some stages
      → (sequence : List Item) × Perm
          (pending_of (changed_of differences) recovery selected)
          sequence
        × AreValid before sequence
        × (entries stages ≡ map (entry (changed_of differences)) sequence)
  ordered selected before differences recovery stages v h =
      let valid = valid_state is_network printed interfaces in
      let order = stages_for-IsOrder semantic valid selected before differences recovery v in
      let (sequence, perm, safe, written) = rw h at order in
      (sequence, perm, IsSafe-AreValid before sequence safe, written)

-- Stages are given only where the state with all selected writes is valid, and then they write exactly
-- the changed and recovered items, each once, in an order after each write of which the labels are
-- distinct, every reference is resolved and no dependency has a cycle.
pub stages_for-AreValid :
    (semantic : Text → Fields → Fields) (is_network : Text → Bool) (printed : Value → Text)
    (interfaces : List Text) (selected : List Item) (before : State) (differences : List Difference)
    (recovery : List Marker) (stages : List Stage)
    → stages_for semantic
        (valid_state is_network printed interfaces)
        selected
        before
        differences
        recovery
      ≡ some stages
    → IsValid is_network printed interfaces
        (apply semantic (valid_state is_network printed interfaces) before selected)
      × ((sequence : List Item) × Perm
            (pending_of (changed_of differences) recovery selected)
            sequence
          × AreValid semantic is_network printed interfaces before sequence
          × (entries stages ≡ map (entry (changed_of differences)) sequence))
unfolding stages_for
stages_for-AreValid semantic is_network printed interfaces selected before differences recovery
      stages h =
    let valid = valid_state is_network printed interfaces in
    elim (Bool-cases (valid (apply semantic valid before selected))) [
      | inl v ↦ (
        valid_state-IsValid is_network printed interfaces (apply semantic valid before selected) v,
        ordered semantic is_network printed interfaces selected before differences recovery stages v
            h,
      )
      | inr v ↦ absurd (cc (rw (v, stages_for) at h))
    ]
