-- ===== src/Pf/Rule.antt =====
-- `_parse_rule` of src/iaas/opnsense_workflow/pf_rules.py, with its endpoints and options: the parts
-- of one raw PF rule that the checks need.
pub mod Intervals
use iaas.Prelude.{
  ℕ, zero, suc, ◌+◌, Bool, true, false, not, ◌&&◌, ◌||◌, Option, none, some, List, [], ◌∷◌, ◌++◌,
  Text, codes, text_eq, leb, ltb, ◌==◌, if◌then◌else◌, any, all, map, drop, length, lower, is_in,
  starts_with, contains,
}
use iaas.Prelude.Unicode.{is_space}
use iaas.Value.{Value, Fields, dict}
use iaas.Pf.Ports.{Interval, skip_spaces, is_nil, port_token, merge_intervals}
use iaas.Pf.Words.{strip, split, partition, ends_in, drop_last, inner}
use iaas.Pf.Report.{
  Checked, ok, bad, malformed_loaded_pf_rule, loaded_pf_rule_uuid_unavailable,
  unsupported_loaded_pf_rule_protocol, malformed_loaded_pf_rule_endpoints,
  unsupported_loaded_pf_rule_endpoint,
}
use iaas.Pf.Scan.{Word, top_level_words, slice, matching_delimiter, rule_label, pf_index}

-- The loop over the tokens, `intervals.extend(parsed)`.
port_tokens : List Text → Option (List Interval)
unfolding port_token
port_tokens [] = some []
port_tokens (token ∷ tokens) =
    let rest = port_tokens tokens in
    elim (port_token token) [
      | none ↦ none
      | some parsed ↦ elim rest [ none ↦ none | some intervals ↦ some (parsed ++ intervals) ]
    ]

merged : Option (List Interval) → Option (List Interval)
unfolding merge_intervals
merged none = none
merged (some intervals) = some (merge_intervals intervals)

braced_ports : List Text → Option (List Interval)
unfolding merged port_tokens
braced_ports [] = none
braced_ports (token ∷ tokens) = merged (port_tokens (token ∷ tokens))

abbrev is_macro : Text → Bool
unfolding contains
is_macro value =
    is_nil value
    || (contains (codes "$") value
        || (contains (codes "<") value && not (contains (codes "<>") value)))

unfoldable pub parse_port_expression : Text → Option (List Interval)
unfolding contains starts_with ends_in inner strip split port_token braced_ports
parse_port_expression value =
    if is_macro value
    then none
    else if starts_with (codes "{") value
    then if not (ends_in b'}' value) then none else braced_ports (split (strip (inner value)))
    else port_token value

pub record Endpoint : Type 0 where
  pub address : Text
  pub expression : Option Text
  pub ports : Option (List Interval)

abbrev with_ports : Text → Text → Option (List Interval) → Option Endpoint
with_ports address expression none = none
with_ports address expression (some ports) =
    some (record { address = address; expression = some expression; ports = some ports })

abbrev after_address : Text → Text → Option Endpoint
unfolding starts_with strip parse_port_expression
after_address address rest =
    if is_nil rest
    then some (record { address = address; expression = none; ports = none })
    else if not (starts_with (codes "port ") rest)
    then none
    else with_ports address (strip (drop 5 rest)) (parse_port_expression (strip (drop 5 rest)))

endpoint : Text × Text → Option Endpoint
unfolding starts_with strip parse_port_expression
endpoint (address, rest) =
    if is_nil address || (starts_with (codes "!") address || starts_with (codes "$") address)
    then none
    else after_address address (strip rest)

unfoldable pub parse_endpoint : Text → Option Endpoint
unfolding endpoint strip partition
parse_endpoint value =
    if is_nil (strip value) then none else endpoint (partition b' ' (strip value))

-- `[A-Za-z0-9_-]`
abbrev is_name_code : ℕ → Bool
is_name_code c =
    leb b'0' c && leb c b'9'
    || (leb b'A' c && leb c b'Z' || (leb b'a' c && leb c b'z' || (c == b'_' || c == b'-')))

full : List Text → Option (List Text)
full [] = none
full (v ∷ vs) = some (v ∷ vs)

unfoldable pub expression_values : Text → ℕ → ℕ → Option (List Text)
unfolding full split strip starts_with ends_in inner slice
expression_values text start stop =
    let value = strip (slice start stop text) in
    if starts_with (codes "{") value && ends_in b'}' value
    then full (split (inner value))
    else if not (is_nil value) && all is_name_code value
    then some (value ∷ [])
    else none

-- The first word that is `w`, with the words behind it.
find_word : Text → List Word → Option (Word × List Word)
unfolding text_eq
find_word w [] = none
find_word w (x ∷ xs) =
    let later = find_word w xs in if text_eq x.word w then some (x, xs) else later

route_pair : List Text → Option (Text × Text)
route_pair (a ∷ b ∷ []) = some (a, b)
route_pair _ = none

-- The text in parentheses that begins at `start`, and its end.
route_inside : Text → ℕ → Option ℕ → Option (Text × Text)
unfolding route_pair split slice
route_inside raw start none = none
route_inside raw start (some stop) = route_pair (split (slice (start + 1) stop raw))

-- `start` behind the spaces that `rest`, the text from there, begins with.
open_paren : Text → ℕ → Text → Option (Text × Text)
unfolding is_space route_inside matching_delimiter
open_paren raw start [] = none
open_paren raw start (c ∷ rest) =
    let further = open_paren raw (suc start) rest in
    if is_space c
    then further
    else if c == b'('
    then route_inside raw start (matching_delimiter raw start b'(' b')')
    else none

rule_option_at : Text → Option (Word × List Word) → Option (Text × Text)
unfolding open_paren
rule_option_at raw none = none
rule_option_at raw (some (w, later)) = open_paren raw w.stop (drop w.stop raw)

unfoldable pub rule_option : (ℕ → Bool) → Text → Text → Option (Text × Text)
unfolding rule_option_at find_word top_level_words
rule_option wide raw option = rule_option_at raw (find_word option (top_level_words wide raw))

-- `_RULE_TAIL`
abbrev rule_tail : List Text
rule_tail =
    codes "allow-opts"
    ∷ codes "binat-to"
    ∷ codes "dup-to"
    ∷ codes "flags"
    ∷ codes "keep"
    ∷ codes "label"
    ∷ codes "max-pkt-rate"
    ∷ codes "nat-to"
    ∷ codes "no-df"
    ∷ codes "no-pfsync"
    ∷ codes "prio"
    ∷ codes "queue"
    ∷ codes "rdr-to"
    ∷ codes "reply-to"
    ∷ codes "route-to"
    ∷ codes "rtable"
    ∷ codes "scrub"
    ∷ codes "set"
    ∷ codes "set-prio"
    ∷ codes "state"
    ∷ codes "tag"
    ∷ codes "tagged"
    ∷ codes "tos"
    ∷ codes "urpf-failed"
    ∷ []

-- The start of the first word of the tail, or the end of the text.
tail_start : Text → List Word → ℕ
unfolding is_in
tail_start raw [] = length raw
tail_start raw (w ∷ ws) =
    let later = tail_start raw ws in if is_in w.word rule_tail then w.start else later

-- The interface behind `on`.
on_of : Text → Option (Word × List Word) → Option Text
unfolding slice
on_of raw (some (w, next ∷ later)) = some (slice next.start next.stop raw)
on_of raw _ = none

protocol_end : Text → List Word → ℕ
unfolding is_in
protocol_end raw [] = length raw
protocol_end raw (next ∷ later) =
    if is_in next.word (codes "from" ∷ codes "to" ∷ []) then next.start else next.stop

lowered : Option (List Text) → Checked (Option (List Text))
unfolding lower
lowered none = bad unsupported_loaded_pf_rule_protocol
lowered (some values) = ok (some (map lower values))

protocol_of : Text → Option (Word × List Word) → Checked (Option (List Text))
unfolding lowered expression_values protocol_end
protocol_of raw none = ok none
protocol_of raw (some (w, later)) = lowered (expression_values raw w.stop (protocol_end raw later))

-- The words `from` and `to`, and those behind `to`.
ends_of : Option (Word × List Word) → Option (Word × Word × List Word)
unfolding find_word
ends_of none = none
ends_of (some (from_word, later)) = elim (find_word (codes "to") later) [
  | none ↦ none
  | some (to_word, tail) ↦ some (from_word, to_word, tail)
]

-- The dict of one loaded rule.
pub record Rule : Type 0 where
  pub uuid : Text
  pub pf_index : Option ℕ
  pub on : Option Text
  pub route_to : Option (Text × Text)
  pub section : Text
  pub protocol : Option (List Text)
  pub source_port_raw : Option Text
  pub destination_port_raw : Option Text
  pub source_ports : Option (List Interval)
  pub destination_ports : Option (List Interval)
  pub raw : Text
  pub counters : Fields

with_endpoints :
    (ℕ → Bool)
    → Text
    → Fields
    → Text
    → Option (List Text)
    → Option Endpoint
    → Option Endpoint
    → Checked Rule
unfolding on_of find_word top_level_words rule_option pf_index
with_endpoints wide raw counters label protocol (some source) (some destination) = ok (record {
  uuid = label;
  pf_index = pf_index raw;
  on = on_of raw (find_word (codes "on") (top_level_words wide raw));
  route_to = rule_option wide raw (codes "route-to");
  section = [];
  protocol = protocol;
  source_port_raw = source.expression;
  destination_port_raw = destination.expression;
  source_ports = source.ports;
  destination_ports = destination.ports;
  raw = raw;
  counters = counters;
})
with_endpoints wide raw counters label protocol _ _ = bad unsupported_loaded_pf_rule_endpoint

with_ends :
    (ℕ → Bool)
    → Text
    → Fields
    → Text
    → Option (List Text)
    → Option (Word × Word × List Word)
    → Checked Rule
unfolding with_endpoints parse_endpoint slice tail_start
with_ends wide raw counters label protocol none = bad malformed_loaded_pf_rule_endpoints
with_ends wide raw counters label protocol (some (from_word, to_word, tail)) =
    with_endpoints wide raw counters label protocol
      (parse_endpoint (slice from_word.stop to_word.start raw))
      (parse_endpoint (slice to_word.stop (tail_start raw tail) raw))

with_protocol :
    (ℕ → Bool) → Text → Fields → Text → List Word → Checked (Option (List Text)) → Checked Rule
unfolding with_ends ends_of find_word
with_protocol wide raw counters label words (bad reason) = bad reason
with_protocol wide raw counters label words (ok protocol) =
    with_ends wide raw counters label protocol (ends_of (find_word (codes "from") words))

with_label : (ℕ → Bool) → Text → Fields → Option Text → Checked Rule
unfolding with_protocol protocol_of find_word top_level_words
with_label wide raw counters none = bad loaded_pf_rule_uuid_unavailable
with_label wide raw counters (some label) =
    let words = top_level_words wide raw in
    with_protocol wide raw counters label words (protocol_of raw (find_word (codes "proto") words))

unfoldable pub parse_rule : (ℕ → Bool) → Text → Value → Checked Rule
unfolding with_label rule_label
parse_rule wide raw (dict counters) = with_label wide raw counters (rule_label wide raw)
parse_rule wide raw _ = bad malformed_loaded_pf_rule
