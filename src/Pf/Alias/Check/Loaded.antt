-- ===== src/Pf/Alias/Check/Loaded.antt =====
-- The intervals of an alias and of the rules that src/iaas/opnsense_workflow/pf_rules.py loads for
-- its consumers are not reversed.
use iaas.Prelude.{
  ℕ, ◌≡◌, ◌≢◌, refl, subst, Bool, true, false, Option, none, some, List, [], ◌∷◌, codes, Text,
  text_eq, is_in, All, Bool-cases, inl, inr, if◌then◌else◌,
}
use iaas.Value.{
  Value, nil, cons, is_text, full_text, get, Fields, end, field, list, str, dict, to_list,
}
use iaas.Pf.Ports.{Interval, port_token}
use iaas.Pf.Ports.Merge.{AreIntervals}
use iaas.Pf.Ports.Tokens.{port_token-Ranges}
use iaas.Pf.Report.{Checked, ok, bad, Report, Reason, result, result_for, verified}
use iaas.Pf.Scan.{rule_label}
use iaas.Pf.Rule.{Rule, parse_rule}
use iaas.Pf.Words.{strip}
use iaas.Pf.Rule.Intervals.{
  HasIntervals, AreRulePorts, AreIntervals-append, ranges, extended, Parsed,
  parse_rule-AreRulePorts,
}
use iaas.Pf.Snapshot.{add_rule}
use iaas.Pf.Alias.{
  Role, source, destination, alias_intervals, content_item, extend, content_intervals, content_list,
  named_content,
}
use iaas.Pf.Alias.Check.{
  loaded_rule, load_section, load, rules_of, some_rules, same_texts, protocol_of,
  configured_protocols, with_protocol, protocol_rules, matching_loaded_rules, role_ports, expanded,
  Match, Verdict, fails, passes, after,
}

-- The content of the alias.
abbrev pub Content : Checked (List Interval) → Type 0
Content (bad reason) = Unit
Content (ok xs) = AreIntervals xs

content_item-Content : (v : Value) → Content (content_item v)
unfolding content_item
content_item-Content (str s) =
    tokens (port_token (strip s)) (ranges _ (port_token-Ranges (strip s)))
  where
    tokens :
        (o : Option (List Interval))
        → HasIntervals o
        → Content (elim o [
          | none ↦ bad iaas.Pf.Report.unsupported_port_alias_content
          | some parsed ↦ ok parsed
        ])
    tokens none h = tt
    tokens (some xs) h = h
content_item-Content _ = tt

extend-Content : (a b : Checked (List Interval)) → Content a → Content b → Content (extend a b)
unfolding extend
extend-Content (bad reason) b h k = tt
extend-Content (ok xs) (bad reason) h k = tt
extend-Content (ok xs) (ok ys) h k = AreIntervals-append xs ys h k

content_intervals-Content : (vs : List Value) → Content (content_intervals vs)
unfolding content_intervals
content_intervals-Content [] = tt
content_intervals-Content (v ∷ vs) =
    extend-Content (content_item v) (content_intervals vs) (content_item-Content v)
      (content_intervals-Content vs)

content_list-Content : (v : Value) → Content (content_list v)
unfolding content_list
content_list-Content (list nil) = tt
content_list-Content (list (cons v vs)) = content_intervals-Content (to_list (cons v vs))
content_list-Content _ = tt

abbrev pub NamedContent : Checked (Text × List Interval) → Type 0
NamedContent (bad reason) = Unit
NamedContent (ok (name, xs)) = AreIntervals xs

with_name :
    (name : Text) (c : Checked (List Interval))
    → Content c
    → NamedContent (elim c [ bad reason ↦ bad reason | ok intervals ↦ ok (name, intervals) ])
with_name name (bad reason) h = tt
with_name name (ok xs) h = h

named_content-NamedContent : (o : Option Text) (v : Value) → NamedContent (named_content o v)
unfolding named_content
named_content-NamedContent none v = tt
named_content-NamedContent (some name) v = with_name name (content_list v) (content_list-Content v)

if-NamedContent :
    (b : Bool) (c : Checked (Text × List Interval)) (reason : Reason)
    → NamedContent c
    → NamedContent (if b then c else bad reason)
if-NamedContent true c reason h = h
if-NamedContent false c reason h = tt

pub alias_intervals-NamedContent : (alias : Value) → NamedContent (alias_intervals alias)
unfolding alias_intervals
alias_intervals-NamedContent (dict alias) =
    if-NamedContent (is_text (codes "port") (get (codes "type") alias)) _ _ (
      named_content-NamedContent (full_text (get (codes "name") alias))
        (get (codes "content") alias))
alias_intervals-NamedContent _ = tt

-- The loaded rules.
abbrev pub Loaded : Checked (List Rule) → Type 0
Loaded (bad reason) = Unit
Loaded (ok rules) = All AreRulePorts rules

Loaded-if :
    (b : Bool) (reason : Reason) (rest : Checked (List Rule))
    → Loaded rest
    → Loaded (if b then bad reason else rest)
Loaded-if true reason rest k = tt
Loaded-if false reason rest k = k

loaded_rule-Loaded :
    (uuids : List Text) (section : Text) (label : Option Text) (r : Checked Rule)
    (rest : Checked (List Rule))
    → Parsed AreRulePorts r
    → Loaded rest
    → Loaded (loaded_rule uuids section label r rest)
unfolding loaded_rule add_rule
loaded_rule-Loaded uuids section label (ok rule) (bad reason) h k = tt
loaded_rule-Loaded uuids section label (ok rule) (ok rules) h k = (h, k)
loaded_rule-Loaded uuids section none (bad reason) rest h k = k
loaded_rule-Loaded uuids section (some label) (bad reason) rest h k =
    Loaded-if (is_in label uuids) reason rest k

load_section-Loaded :
    (wide : ℕ → Bool) (uuids : List Text) (section : Text) (rules : Fields)
    (rest : Checked (List Rule))
    → Loaded rest
    → Loaded (load_section wide uuids section rules rest)
unfolding load_section
load_section-Loaded wide uuids section end rest k = k
load_section-Loaded wide uuids section (field raw counters rules) rest k =
    loaded_rule-Loaded uuids section (rule_label wide raw) (parse_rule wide raw counters) _
      (parse_rule-AreRulePorts wide raw counters)
      (load_section-Loaded wide uuids section rules rest k)

pub load-Loaded :
    (wide : ℕ → Bool) (uuids : List Text) (sections : List (Text × Fields))
    → Loaded (load wide uuids sections)
unfolding load
load-Loaded wide uuids [] = tt
load-Loaded wide uuids ((section, rules) ∷ sections) =
    load_section-Loaded wide uuids section rules (load wide uuids sections)
      (load-Loaded wide uuids sections)

pub rules_of-Loaded :
    (uuid : Text) (rules : List Rule)
    → All AreRulePorts rules
    → All AreRulePorts (rules_of uuid rules)
unfolding rules_of
rules_of-Loaded uuid [] h = tt
rules_of-Loaded uuid (rule ∷ rules) h = elim (Bool-cases (text_eq rule.uuid uuid)) [
  | inl e ↦ rw e (h.0, rules_of-Loaded uuid rules h.1)
  | inr e ↦ rw e (rules_of-Loaded uuid rules h.1)
]

with_protocol-Loaded :
    (protocol : List Text) (rules : List Rule)
    → All AreRulePorts rules
    → All AreRulePorts (with_protocol protocol rules)
unfolding with_protocol
with_protocol-Loaded protocol [] h = tt
with_protocol-Loaded protocol (rule ∷ rules) h =
    elim (Bool-cases (same_texts (protocol_of rule.protocol) protocol)) [
      | inl e ↦ rw e (h.0, with_protocol-Loaded protocol rules h.1)
      | inr e ↦ rw e (with_protocol-Loaded protocol rules h.1)
    ]

some_rules-ok :
    (found rules : List Rule) → some_rules found ≡ ok rules → (found ≡ rules) × (rules ≢ [])
unfolding some_rules
some_rules-ok [] rules h = cc
some_rules-ok (r ∷ rs) rules h = (cc, λ e. cc)

protocol_rules-ok :
    (active rules : List Rule) (protocol : Option (List Text))
    → All AreRulePorts active
    → protocol_rules active protocol ≡ ok rules
    → (rules ≢ []) × All AreRulePorts rules
unfolding protocol_rules
protocol_rules-ok active rules none a h = cc
protocol_rules-ok active rules (some protocol) a h =
    let (same, found) = some_rules-ok (with_protocol protocol active) rules h in
    (found, subst (All AreRulePorts) same (with_protocol-Loaded protocol active a))

pub matching-ok :
    (active rules : List Rule) (row : Fields)
    → All AreRulePorts active
    → matching_loaded_rules active row ≡ ok rules
    → (rules ≢ []) × All AreRulePorts rules
unfolding matching_loaded_rules
matching-ok active rules row a h =
    protocol_rules-ok active rules (configured_protocols (get (codes "protocol") row)) a h

pub after-verified :
    (v : Verdict) (uuid : Text) (matches : List Match) (next : List Rule → Report Match)
    → (after v uuid matches next).status ≡ verified
    → (rules : List Rule) × (v ≡ passes rules) × ((next rules).status ≡ verified)
unfolding after result_for
after-verified (fails reason true) uuid matches next h = cc
after-verified (fails reason false) uuid matches next h = cc
after-verified (passes rules) uuid matches next h = (rules, refl, h)

role_ports-HasIntervals :
    (role : Role) (rule : Rule) → AreRulePorts rule → HasIntervals (role_ports role rule)
unfolding role_ports
role_ports-HasIntervals source rule h = h.0
role_ports-HasIntervals destination rule h = h.1

pub expanded-HasIntervals :
    (role : Role) (rules : List Rule) → All AreRulePorts rules → HasIntervals (expanded role rules)
unfolding expanded
expanded-HasIntervals role [] h = tt
expanded-HasIntervals role (rule ∷ rules) h =
    extended (role_ports role rule) (expanded role rules) (role_ports-HasIntervals role rule h.0)
      (expanded-HasIntervals role rules h.1)
