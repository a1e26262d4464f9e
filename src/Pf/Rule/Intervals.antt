-- ===== src/Pf/Rule/Intervals.antt =====
-- The ports of a rule that `_parse_rule` accepts are intervals that are not reversed.
use iaas.Prelude.{
  ℕ, ◌+◌, drop, Bool, true, false, not, ◌||◌, Option, none, some, List, [], ◌∷◌, ◌++◌, Text, codes,
  if◌then◌else◌, starts_with,
}
use iaas.Value.{Value, Fields, dict}
use iaas.Pf.Ports.{Interval, is_nil, port_token, merge_intervals}
use iaas.Pf.Ports.Merge.{AreIntervals, IsSpaced, merge_intervals-IsSpaced}
use iaas.Pf.Ports.Tokens.{Ranges, port_token-Ranges}
use iaas.Pf.Report.{Checked, ok, bad}
use iaas.Pf.Scan.{Word, rule_label, top_level_words, slice}
use iaas.Pf.Rule.{
  Endpoint, with_ports, after_address, endpoint, parse_endpoint, port_tokens, merged, braced_ports,
  is_macro, parse_port_expression, Rule, with_endpoints, with_ends, with_protocol, with_label,
  parse_rule, tail_start, ends_of, find_word, protocol_of,
}
use iaas.Pf.Words.{inner, strip, split, ends_in, partition}

abbrev pub HasIntervals : Option (List Interval) → Type 0
HasIntervals none = Unit
HasIntervals (some ports) = AreIntervals ports

-- The ports of the rule in both roles.
abbrev pub AreRulePorts : Rule → Type 0
AreRulePorts rule = HasIntervals rule.source_ports × HasIntervals rule.destination_ports

pub AreIntervals-append :
    (xs ys : List Interval) → AreIntervals xs → AreIntervals ys → AreIntervals (xs ++ ys)
AreIntervals-append [] ys h k = k
AreIntervals-append (x ∷ xs) ys h k = (h.0, AreIntervals-append xs ys h.1 k)

spaced : (from : ℕ) (xs : List Interval) → IsSpaced from xs → AreIntervals xs
spaced from [] h = tt
spaced from ((l, u) ∷ xs) h = (h.1, spaced (u + 2) xs h.2)

pub ranges : (o : Option (List Interval)) → Ranges o → HasIntervals o
ranges none h = tt
ranges (some xs) h = all_ranges xs h
  where
    all_ranges : (xs : List Interval) → Ranges (some xs) → AreIntervals xs
    all_ranges [] h = tt
    all_ranges (x ∷ xs) h = (h.0.0, all_ranges xs h.1)

pub extended :
    (o rest : Option (List Interval))
    → HasIntervals o
    → HasIntervals rest
    → HasIntervals (elim o [
      | none ↦ none
      | some parsed ↦ elim rest [ none ↦ none | some intervals ↦ some (parsed ++ intervals) ]
    ])
extended none rest h k = tt
extended (some xs) none h k = tt
extended (some xs) (some ys) h k = AreIntervals-append xs ys h k

port_tokens-HasIntervals : (tokens : List Text) → HasIntervals (port_tokens tokens)
unfolding port_tokens
port_tokens-HasIntervals [] = tt
port_tokens-HasIntervals (t ∷ ts) =
    extended (port_token t) (port_tokens ts) (ranges _ (port_token-Ranges t))
      (port_tokens-HasIntervals ts)

merged-HasIntervals : (o : Option (List Interval)) → HasIntervals o → HasIntervals (merged o)
unfolding merged
merged-HasIntervals none h = tt
merged-HasIntervals (some xs) h = spaced 0 (merge_intervals xs) (merge_intervals-IsSpaced xs h)

braced_ports-HasIntervals : (tokens : List Text) → HasIntervals (braced_ports tokens)
unfolding braced_ports
braced_ports-HasIntervals [] = tt
braced_ports-HasIntervals (t ∷ ts) =
    merged-HasIntervals (port_tokens (t ∷ ts)) (port_tokens-HasIntervals (t ∷ ts))

if-HasIntervals :
    (b : Bool) (o o' : Option (List Interval))
    → HasIntervals o
    → HasIntervals o'
    → HasIntervals (if b then o else o')
if-HasIntervals true o o' h k = h
if-HasIntervals false o o' h k = k

parse_port_expression-HasIntervals : (value : Text) → HasIntervals (parse_port_expression value)
unfolding parse_port_expression
parse_port_expression-HasIntervals value = if-HasIntervals (is_macro value) none _ tt (
    if-HasIntervals (starts_with (codes "{") value) _ _
      (if-HasIntervals (not (ends_in b'}' value)) none _ tt
        (braced_ports-HasIntervals (split (strip (inner value)))))
      (ranges (port_token value) (port_token-Ranges value)))

abbrev HasPorts : Option Endpoint → Type 0
HasPorts none = Unit
HasPorts (some e) = HasIntervals e.ports

if-HasPorts :
    (b : Bool) (o o' : Option Endpoint) → HasPorts o → HasPorts o' → HasPorts (if b then o else o')
if-HasPorts true o o' h k = h
if-HasPorts false o o' h k = k

with_ports-HasPorts :
    (address expression : Text) (o : Option (List Interval))
    → HasIntervals o
    → HasPorts (with_ports address expression o)
with_ports-HasPorts address expression none h = tt
with_ports-HasPorts address expression (some ports) h = h

after_address-HasPorts : (address rest : Text) → HasPorts (after_address address rest)
unfolding after_address
after_address-HasPorts address rest = if-HasPorts (is_nil rest) _ _ tt (
    if-HasPorts (not (starts_with (codes "port ") rest)) none _ tt (
      with_ports-HasPorts address _ (parse_port_expression (strip (drop 5 rest)))
        (parse_port_expression-HasIntervals (strip (drop 5 rest)))))

endpoint-HasPorts : (parts : Text × Text) → HasPorts (endpoint parts)
unfolding endpoint
endpoint-HasPorts (address, rest) =
    if-HasPorts
      (is_nil address || (starts_with (codes "!") address || starts_with (codes "$") address)) none
      _ tt (after_address-HasPorts address (strip rest))

parse_endpoint-HasPorts : (value : Text) → HasPorts (parse_endpoint value)
unfolding parse_endpoint
parse_endpoint-HasPorts value =
    if-HasPorts (is_nil (strip value)) none _ tt (endpoint-HasPorts (partition b' ' (strip value)))

abbrev pub Parsed : (Rule → Type 0) → Checked Rule → Type 0
Parsed P (bad reason) = Unit
Parsed P (ok rule) = P rule

with_endpoints-AreRulePorts :
    (wide : ℕ → Bool) (raw : Text) (counters : Fields) (label : Text)
    (protocol : Option (List Text)) (s d : Option Endpoint)
    → HasPorts s
    → HasPorts d
    → Parsed AreRulePorts (with_endpoints wide raw counters label protocol s d)
unfolding with_endpoints
with_endpoints-AreRulePorts wide raw counters label protocol none d h k = tt
with_endpoints-AreRulePorts wide raw counters label protocol (some s) none h k = tt
with_endpoints-AreRulePorts wide raw counters label protocol (some s) (some d) h k = (h, k)

with_ends-AreRulePorts :
    (wide : ℕ → Bool) (raw : Text) (counters : Fields) (label : Text)
    (protocol : Option (List Text)) (ends : Option (Word × Word × List Word))
    → Parsed AreRulePorts (with_ends wide raw counters label protocol ends)
unfolding with_ends
with_ends-AreRulePorts wide raw counters label protocol none = tt
with_ends-AreRulePorts wide raw counters label protocol (some (f, t, tail)) =
    with_endpoints-AreRulePorts wide raw counters label protocol _ _
      (parse_endpoint-HasPorts (slice f.stop t.start raw))
      (parse_endpoint-HasPorts (slice t.stop (tail_start raw tail) raw))

with_protocol-AreRulePorts :
    (wide : ℕ → Bool) (raw : Text) (counters : Fields) (label : Text) (words : List Word)
    (protocol : Checked (Option (List Text)))
    → Parsed AreRulePorts (with_protocol wide raw counters label words protocol)
unfolding with_protocol
with_protocol-AreRulePorts wide raw counters label words (bad reason) = tt
with_protocol-AreRulePorts wide raw counters label words (ok protocol) =
    with_ends-AreRulePorts wide raw counters label protocol
      (ends_of (find_word (codes "from") words))

with_label-AreRulePorts :
    (wide : ℕ → Bool) (raw : Text) (counters : Fields) (label : Option Text)
    → Parsed AreRulePorts (with_label wide raw counters label)
unfolding with_label
with_label-AreRulePorts wide raw counters none = tt
with_label-AreRulePorts wide raw counters (some label) =
    with_protocol-AreRulePorts wide raw counters label (top_level_words wide raw)
      (protocol_of raw (find_word (codes "proto") (top_level_words wide raw)))

pub parse_rule-AreRulePorts :
    (wide : ℕ → Bool) (raw : Text) (counters : Value)
    → Parsed AreRulePorts (parse_rule wide raw counters)
unfolding parse_rule
parse_rule-AreRulePorts wide raw (dict counters) =
    with_label-AreRulePorts wide raw counters (rule_label wide raw)
parse_rule-AreRulePorts wide raw _ = tt
