-- ===== src/Pf/Consumers.antt =====
-- src/iaas/opnsense_workflow/pf_consumers.py: the managed filter consumers of a gateway or of an
-- interface group, and the checks of the loaded rules of each. A `resource` is a text or is
-- missing: for a list or a dict, Python's set membership raises TypeError.
pub mod Gateway
pub mod Group
use iaas.Prelude.{
  Bool, true, false, not, ◌&&◌, ◌||◌, Option, none, some, List, [], ◌∷◌, Text, codes, text_eq,
  if◌then◌else◌, is_in,
}
use iaas.Value.{
  Value, Fields, dict, list, str, get, to_list, is_text, full_text, is_true, is_false, is_bad_flag,
}
use iaas.Pf.Report.{
  Checked, ok, bad, filter_rules, incomplete_consumer_configuration,
  malformed_consumer_configuration, malformed_consumer_enabled_state,
  consumer_native_uuid_unavailable, duplicate_consumer_native_uuid,
}
use iaas.Pf.Rule.{Rule}
use iaas.Pf.Alias.{as_list}

-- `_as_strings`
full_texts : List Value → List Text
full_texts [] = []
full_texts (v ∷ vs) =
    let rest = full_texts vs in elim (full_text v) [ none ↦ rest | some t ↦ t ∷ rest ]

unfoldable pub as_strings : Value → List Text
unfolding full_texts
as_strings v = full_texts (as_list v)

-- `malformed_consumer_enabled_state`, or whether the row is enabled.
unfoldable pub enabled_state : Fields → Checked Bool
unfolding get
enabled_state row =
    let enabled = get (codes "enabled") row in
    let disabled = get (codes "disabled") row in
    if is_bad_flag enabled || is_bad_flag disabled
    then bad malformed_consumer_enabled_state
    else ok (not (is_true disabled || is_false enabled))

-- An entry of `_related_consumers`, its row with its UUID.
pub record Consumer : Type 0 where
  pub uuid : Text
  pub row : Fields

pub data Step : Type 0 where
  skip : Step
  relate : Consumer → Step

identified : List Text → Fields → Option Text → Checked Step
unfolding is_in text_eq
identified seen row none = bad consumer_native_uuid_unavailable
identified seen row (some uuid) =
    if is_in uuid seen
    then bad duplicate_consumer_native_uuid
    else ok (relate (record { uuid = uuid; row = row }))

enabled_step : (Fields → Bool) → List Text → Fields → Checked Bool → Checked Step
unfolding identified get
enabled_step predicate seen row (bad reason) = bad reason
enabled_step predicate seen row (ok false) = ok skip
enabled_step predicate seen row (ok true) =
    if predicate row then identified seen row (full_text (get (codes "uuid") row)) else ok skip

unfoldable pub consumer_step : (Fields → Bool) → List Text → Value → Checked Step
unfolding enabled_step enabled_state
consumer_step predicate seen (dict row) = enabled_step predicate seen row (enabled_state row)
consumer_step predicate seen _ = bad malformed_consumer_configuration

push : Consumer → Checked (List Consumer) → Checked (List Consumer)
push consumer (bad reason) = bad reason
push consumer (ok consumers) = ok (consumer ∷ consumers)

unfoldable pub related_from : (Fields → Bool) → List Text → List Value → Checked (List Consumer)
unfolding push consumer_step
related_from predicate seen [] = ok []
related_from predicate seen (v ∷ vs) = elim (consumer_step predicate seen v) [
  | bad reason ↦ bad reason
  | ok skip ↦ related_from predicate seen vs
  | ok (relate consumer) ↦ push consumer (related_from predicate (consumer.uuid ∷ seen) vs)
]

unfoldable pub related_consumers : (Fields → Bool) → Value → Checked (List Consumer)
unfolding related_from
related_consumers predicate (list vs) = related_from predicate [] (to_list vs)
related_consumers predicate _ = bad incomplete_consumer_configuration

unfoldable pub is_resource : Text → Fields → Bool
unfolding get text_eq
is_resource resource row = is_text resource (get (codes "resource") row)

abbrev is_active : Text → Rule → Bool
unfolding text_eq
is_active uuid rule = text_eq rule.section filter_rules && text_eq rule.uuid uuid

-- The filter rules that are loaded for a consumer.
unfoldable pub active_rules : Text → List Rule → List Rule
unfolding text_eq
active_rules uuid [] = []
active_rules uuid (rule ∷ rules) =
    let rest = active_rules uuid rules in if is_active uuid rule then rule ∷ rest else rest
