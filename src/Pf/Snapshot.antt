-- ===== src/Pf/Snapshot.antt =====
-- `_snapshot_rules` and `parse_loaded_pf_rules` of src/iaas/opnsense_workflow/pf_rules.py: the rules
-- of a decoded PF statistics response, and those of them that carry a native UUID.
use iaas.Prelude.{
  ℕ, Bool, true, false, not, ◌&&◌, ◌||◌, Option, none, some, List, [], ◌∷◌, Text, codes, text_eq,
  if◌then◌else◌,
}
use iaas.Value.{Value, Fields, end, field, dict, get, is_null, is_text}
use iaas.Pf.Ports.{is_nil}
use iaas.Pf.Report.{
  Checked, ok, bad, filter_rules, nat_rules, malformed_pf_statistics_snapshot,
  incomplete_pf_statistics_snapshot, missing_pf_statistics_rules, incomplete_pf_statistics_rules,
  malformed_pf_statistics_rule,
}
use iaas.Pf.Scan.{balanced_rule_text, rule_label}
use iaas.Pf.Rule.{Rule, parse_rule}

-- `value not in (None, "complete")`
unfoldable pub is_incomplete : Value → Bool
unfolding text_eq
is_incomplete v = not (is_null v || is_text (codes "complete") v)

-- The raw texts are the keys of a JSON object, so they are texts.
are_rules : Fields → Bool
unfolding balanced_rule_text
are_rules end = true
are_rules (field raw (dict counters) rest) =
    not (is_nil raw) && (balanced_rule_text raw && are_rules rest)
are_rules (field raw _ rest) = false

section_rules : Value → Checked Fields
unfolding are_rules
section_rules (dict rules) = if are_rules rules then ok rules else bad malformed_pf_statistics_rule
section_rules _ = bad incomplete_pf_statistics_rules

both_sections : Checked Fields → Checked Fields → Checked (List (Text × Fields))
both_sections (bad reason) _ = bad reason
both_sections (ok filter) (bad reason) = bad reason
both_sections (ok filter) (ok nat) = ok ((filter_rules, filter) ∷ (nat_rules, nat) ∷ [])

root_rules : Value → Checked (List (Text × Fields))
unfolding both_sections section_rules get
root_rules (dict root) =
    both_sections (section_rules (get filter_rules root)) (section_rules (get nat_rules root))
root_rules _ = bad missing_pf_statistics_rules

unfoldable pub snapshot_rules : Value → Checked (List (Text × Fields))
unfolding root_rules get is_incomplete
snapshot_rules (dict snapshot) =
    if is_incomplete (get (codes "status") snapshot)
    then bad incomplete_pf_statistics_snapshot
    else root_rules (get (codes "rules") snapshot)
snapshot_rules _ = bad malformed_pf_statistics_snapshot

-- A parsed rule and those behind it.
unfoldable pub add_rule : Text → Checked Rule → Checked (List Rule) → Checked (List Rule)
add_rule section (bad reason) rest = bad reason
add_rule section (ok rule) (bad reason) = bad reason
add_rule section (ok rule) (ok rules) = ok (record rule { section = section } ∷ rules)

-- `continue` at a rule without a label.
labelled : Option Text → Text → Checked Rule → Checked (List Rule) → Checked (List Rule)
unfolding add_rule
labelled none section rule rest = rest
labelled (some label) section rule rest = add_rule section rule rest

-- The rules of one section, before those of `rest`.
parse_section : (ℕ → Bool) → Text → Fields → Checked (List Rule) → Checked (List Rule)
unfolding labelled rule_label parse_rule
parse_section wide section end rest = rest
parse_section wide section (field raw counters rules) rest =
    labelled (rule_label wide raw) section (parse_rule wide raw counters)
      (parse_section wide section rules rest)

parse_sections : (ℕ → Bool) → List (Text × Fields) → Checked (List Rule)
unfolding parse_section
parse_sections wide [] = ok []
parse_sections wide ((section, rules) ∷ sections) =
    parse_section wide section rules (parse_sections wide sections)

loaded_from : (ℕ → Bool) → Checked (List (Text × Fields)) → Checked (List Rule)
unfolding parse_sections
loaded_from wide (bad reason) = bad reason
loaded_from wide (ok sections) = parse_sections wide sections

unfoldable pub parse_loaded_pf_rules : (ℕ → Bool) → Value → Checked (List Rule)
unfolding loaded_from snapshot_rules
parse_loaded_pf_rules wide snapshot = loaded_from wide (snapshot_rules snapshot)
