-- ===== src/Confirm.antt =====
-- src/iaas/opnsense_workflow/confirmation.py: the contract of each stage with the content updates
-- that it starts, the disposition of a candidate, and its recheck before a write. `is_network` is
-- what `ipaddress.ip_network(entry, strict=False)` accepts.
pub mod Recheck
mod Examples
use iaas.Prelude.{
  Bool, true, false, not, ◌&&◌, ◌||◌, Option, none, some, List, [], ◌∷◌, ◌++◌, Text, codes, text_eq,
  if◌then◌else◌, any, all, is_in,
}
use iaas.Value.{
  Value, Values, Fields, end, field, nil, cons, null, bool, int, str, list, get, has_key, is_text,
  is_null, truthy, to_list,
}
use iaas.Classify.{same_value}
use iaas.Staging.{Marker, same_marker, Mode, save, activation_recovery, same_mode, Stage}

-- An entry of `differences`.
pub record Change : Type 0 where
  pub resource : Text
  pub identity : Marker
  pub before : Option Fields
  pub after : Option Fields

pub data Trigger : Type 0 where
  recovery : Trigger
  created : Trigger
  source_changed : Trigger
  re_enabled : Trigger

pub data Update : Type 0 where
  initialize : Update
  update : Update

abbrev pub Source : Type 0
Source = List (Text × Value)

-- A content action, without its fixed entries.
pub record Content : Type 0 where
  pub identity : Marker
  pub source : Source
  pub trigger : Trigger
  pub action : Update

abbrev pub limited_resources : List Text
limited_resources = codes "aliases" ∷ codes "gateways" ∷ codes "interface-groups" ∷ []

-- Whether `response_warnings` has its one warning.
unfoldable pub is_limited : Text → Bool
unfolding is_in
is_limited resource = is_in resource limited_resources

-- The entries of a normalized content are texts.
no_network : (Text → Bool) → Value → Bool
no_network is_network (str s) = not (is_network s)
no_network is_network _ = false

content_list : Value → List Value
content_list (list vs) = to_list vs
content_list _ = []

unfoldable pub dynamic_alias : (Text → Bool) → Fields → Bool
unfolding no_network content_list get text_eq
dynamic_alias is_network row =
    let kind = get (codes "type") row in
    is_text (codes "urltable") kind
    || (is_text (codes "urljson") kind
        || (is_text (codes "dynipv6host") kind
            || (is_text (codes "host") kind
                && any (no_network is_network) (content_list (get (codes "content") row)))))

abbrev source_fields : List Text
source_fields =
    codes "type"
    ∷ codes "content"
    ∷ codes "updatefreq_days"
    ∷ codes "interface"
    ∷ codes "counters"
    ∷ []

source_from : List Text → Fields → List (Text × Value)
unfolding get has_key
source_from [] row = []
source_from (f ∷ fs) row =
    let rest = source_from fs row in if has_key f row then (f, get f row) ∷ rest else rest

unfoldable pub source_of : Fields → List (Text × Value)
unfolding source_from
source_of row = source_from source_fields row

-- Lists are compared entry by entry.
same_values : Values → Values → Bool
unfolding same_value
same_values nil nil = true
same_values (cons v vs) (cons w ws) = same_value v w && same_values vs ws
same_values _ _ = false

same_entry : Value → Value → Bool
unfolding same_values same_value
same_entry (list vs) (list ws) = same_values vs ws
same_entry v w = same_value v w

unfoldable pub same_source : List (Text × Value) → List (Text × Value) → Bool
unfolding same_entry text_eq
same_source [] [] = true
same_source ((f, v) ∷ xs) ((g, w) ∷ ys) = text_eq f g && (same_entry v w && same_source xs ys)
same_source _ _ = false

is_enabled : Fields → Bool
unfolding get
is_enabled row = truthy (get (codes "enabled") row)

-- The action of a dynamic alias that is enabled after the change.
started : Mode → Marker → Fields → Option Fields → Option Content
unfolding source_of same_source is_enabled
started activation_recovery identity after none = some (record {
  identity = identity;
  source = source_of after;
  trigger = recovery;
  action = initialize;
})
started activation_recovery identity after (some before) =
    some (record {
      identity = identity;
      source = source_of after;
      trigger = recovery;
      action = update;
    })
started save identity after none = some (record {
  identity = identity;
  source = source_of after;
  trigger = created;
  action = initialize;
})
started save identity after (some before) =
    if not (same_source (source_of after) (source_of before))
    then some (record {
      identity = identity;
      source = source_of after;
      trigger = source_changed;
      action = update;
    })
    else if is_enabled before
    then none
    else some (record {
      identity = identity;
      source = source_of after;
      trigger = re_enabled;
      action = update;
    })

-- An empty dict is false.
abbrev filled : Option Fields → Option Fields
filled (some (field k v rest)) = some (field k v rest)
filled _ = none

change_action : (Text → Bool) → Mode → Change → Option Fields → Option Content
unfolding started is_enabled dynamic_alias
change_action is_network mode c none = none
change_action is_network mode c (some after) =
    if not (is_enabled after) || not (dynamic_alias is_network after)
    then none
    else started mode c.identity after (filled c.before)

in_stage : Stage → Change → Bool
unfolding text_eq same_marker
in_stage stage c =
    text_eq c.resource (codes "aliases") && any (same_marker c.identity) stage.identities

add_content : Option Content → List Content → List Content
add_content none rest = rest
add_content (some c) rest = c ∷ rest

actions_from : (Text → Bool) → Stage → List Change → List Content
unfolding change_action in_stage add_content
actions_from is_network stage [] = []
actions_from is_network stage (c ∷ cs) =
    let rest = actions_from is_network stage cs in
    if in_stage stage c
    then add_content (change_action is_network stage.mode c (filled c.after)) rest
    else rest

unfoldable pub content_actions : (Text → Bool) → Stage → List Change → List Content
unfolding actions_from text_eq
content_actions is_network stage changes =
    if text_eq stage.resource (codes "aliases") then actions_from is_network stage changes else []

-- The dict of `stage_contract`, without its fixed entries: `has_gap` is its one gap.
pub record Contract : Type 0 where
  pub rule_resource : Text
  pub is_available : Bool
  pub has_gap : Bool
  pub has_warning : Bool
  pub actions : List Content

unfoldable pub stage_contract : (Text → Bool) → Stage → List Change → Fields → Contract
unfolding content_actions is_limited get text_eq
stage_contract is_network stage changes observation =
    let complete = is_text (codes "complete") (get (codes "status") observation) in
    record {
      rule_resource = stage.resource;
      is_available = complete;
      has_gap = not complete;
      has_warning = is_limited stage.resource;
      actions = content_actions is_network stage changes;
    }

pub record Bound : Type 0 where
  pub stage : Stage
  pub confirmation : Contract
  pub content_actions : List Content

-- `observations.get(resource, {})` is a function here.
unfoldable pub bind_stages : (Text → Bool) → List Stage → List Change → (Text → Fields) → List Bound
unfolding stage_contract content_actions
bind_stages is_network [] changes observations = []
bind_stages is_network (s ∷ stages) changes observations =
    record {
      stage = s;
      confirmation = stage_contract is_network s changes (observations s.resource);
      content_actions = content_actions is_network s changes;
    }
    ∷ bind_stages is_network stages changes observations

-- The blocked stages: the gaps of the disposition.
unfoldable pub blocked : List Bound → List Bound
blocked [] = []
blocked (b ∷ bs) = let rest = blocked bs in if b.confirmation.is_available then rest else b ∷ rest

pub record Disposition : Type 0 where
  pub is_ready : Bool
  pub gaps : List Bound
  pub manual_recovery : Bool

is_empty : List Bound → Bool
is_empty [] = true
is_empty (b ∷ bs) = false

unfoldable pub disposition : List Bound → Disposition
unfolding blocked is_empty
disposition stages = record {
  is_ready = is_empty (blocked stages);
  gaps = blocked stages;
  manual_recovery = any (λ b. same_mode b.stage.mode activation_recovery) (blocked stages);
}
