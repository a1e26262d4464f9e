-- ===== src/Pf/Examples.antt =====
-- Runs of pf_rules.py and pf_consumers.py on concrete rules, and the theorems at them.
use iaas.Prelude.{
  ℕ, ◌≡◌, ◌↔◌, refl, Bool, false, none, some, List, [], ◌∷◌, arith, Text, codes, leb, if◌then◌else◌,
  text_eq, lower, starts_with,
}
use Prim.Native.String.{String}
use iaas.Prelude.Int.{◌+ℤ◌, ◌-ℤ◌}
use iaas.Prelude.Unicode.{is_space, digit}
use iaas.Value.{Value, nil, cons, Fields, end, field, str, list, dict}
use iaas.Pf.Ports.{
  skip_spaces, number, two_numbers, Interval, merge_intervals, port_token, max_port,
}
use iaas.Pf.Ports.Merge.{covers, IsSpaced, merge_intervals-IsSpaced}
use iaas.Pf.Ports.Canonical.{merge_intervals-canonical}
use iaas.Pf.Ports.Tokens.{Ranges, decimal, value_of, port_token-Ranges, port_token-decimal}
use iaas.Pf.Report.{verified}
use iaas.Pf.Scan.{Word, top_level_words, rule_label, run, quoted, spaced, is_native_uuid}
use iaas.Pf.Alias.Check.{check_port_alias_active}
use iaas.Pf.Alias.Check.Soundness.{IsCovered, check_port_alias_active-IsCovered}
use iaas.Pf.Consumers.Gateway.{check_gateway_active}
use iaas.Pf.Consumers.Gateway.Soundness.{IsReachable, check_gateway_active-IsReachable}
use iaas.Pf.Consumers.Group.{check_interface_group_active}
use iaas.Pf.Consumers.Group.Soundness.{IsApplied, check_interface_group_active-IsApplied}

abbrev web : List Interval
web = (443, 443) ∷ (80, 81) ∷ (82, 90) ∷ []

merged_web : merge_intervals web ≡ (80, 90) ∷ (443, 443) ∷ []
unfolding merge_intervals
merged_web = refl

merge_intervals-IsSpaced_example : IsSpaced 0 (merge_intervals web)
merge_intervals-IsSpaced_example =
    merge_intervals-IsSpaced web (omega arith, (omega arith, (omega arith, tt)))

merge_intervals-canonical_example :
    (merge_intervals web ≡ merge_intervals ((80, 90) ∷ (443, 443) ∷ []))
    ↔ ((p : ℕ) → covers p web ≡ covers p ((80, 90) ∷ (443, 443) ∷ []))
merge_intervals-canonical_example =
    merge_intervals-canonical web ((80, 90) ∷ (443, 443) ∷ [])
      (omega arith, (omega arith, (omega arith, tt))) (omega arith, (omega arith, tt))

port_token-Ranges_example : Ranges (port_token (codes "80<>90"))
port_token-Ranges_example = port_token-Ranges (codes "80<>90")

port_token-decimal_example :
    let n = value_of 0 (4 ∷ 4 ∷ 3 ∷ []) in
    port_token (decimal (4 ∷ 4 ∷ 3 ∷ [])) ≡ (if leb n max_port then some ((n, n) ∷ []) else none)
port_token-decimal_example =
    port_token-decimal 4 (4 ∷ 3 ∷ []) (omega arith, (omega arith, (omega arith, tt)))

-- No code point behind ASCII is alphanumeric here.
abbrev narrow : ℕ → Bool
narrow c = false

abbrev rule_uuid : Text
rule_uuid = codes "0a1b2c3d-0000-4000-8000-00000000000f"

abbrev raw_rule : Text
raw_rule =
    codes
      "pass on lan route-to (wan 10.0.0.1) from any to any port {80:90 443} label \"0a1b2c3d-0000-4000-8000-00000000000f\""

abbrev word : String → ℕ → ℕ → Word
word w start stop = record { word = codes w; start = start; stop = stop }

abbrev rule_words : List Word
rule_words =
    word "pass" 0 4
    ∷ word "on" 5 7
    ∷ word "lan" 8 11
    ∷ word "route-to" 12 20
    ∷ word "from" 36 40
    ∷ word "any" 41 44
    ∷ word "to" 45 47
    ∷ word "any" 48 51
    ∷ word "port" 52 56
    ∷ word "label" 69 74
    ∷ []

words_of_rule : top_level_words narrow raw_rule ≡ rule_words
unfolding top_level_words lower run ◌+ℤ◌ ◌-ℤ◌
words_of_rule = refl

label_of_rule : rule_label narrow raw_rule ≡ some rule_uuid
unfolding rule_label starts_with quoted spaced is_space skip_spaces is_native_uuid lower
label_of_rule = refl

abbrev snapshot : Value
snapshot = dict (
    field (codes "rules")
      (dict (
        field (codes "filter rules") (dict (field raw_rule (dict end) end))
          (field (codes "nat rules") (dict end) end)))
      end)

abbrev consumer : Fields
consumer = field (codes "resource") (str (codes "filter-rules")) (
    field (codes "uuid") (str rule_uuid) (
      field (codes "destination_port") (str (codes "web")) (
        field (codes "gateway") (str (codes "wan_gw"))
          (field (codes "interface") (list (cons (str (codes "lans")) nil)) end))))

abbrev consumers : Value
consumers = list (cons (dict consumer) nil)

abbrev alias : Value
alias = dict (
    field (codes "type") (str (codes "port")) (
      field (codes "name") (str (codes "web")) (
        field (codes "content")
          (list (
            cons (str (codes "443")) (cons (str (codes "80-85")) (cons (str (codes "86:90")) nil))))
          end)))

alias_active : (check_port_alias_active narrow alias snapshot consumers).status ≡ verified
unfolding check_port_alias_active quoted ◌+ℤ◌ ◌-ℤ◌ number digit two_numbers
alias_active = refl

check_port_alias_active-IsCovered_example : IsCovered narrow alias snapshot consumers
check_port_alias_active-IsCovered_example =
    check_port_alias_active-IsCovered narrow alias snapshot consumers alias_active

abbrev gateway : Fields
gateway = field (codes "name") (str (codes "wan_gw")) (
    field (codes "gateway") (str (codes "10.0.0.1"))
      (field (codes "physical_interfaces") (list (cons (str (codes "wan")) nil)) end))

-- Only this address is one here.
abbrev is_address : Text → Bool
is_address t = text_eq t (codes "10.0.0.1")

gateway_active :
    (check_gateway_active narrow is_address gateway snapshot consumers).status ≡ verified
unfolding check_gateway_active text_eq quoted ◌+ℤ◌ ◌-ℤ◌ number digit two_numbers
gateway_active = refl

check_gateway_active-IsReachable_example : IsReachable narrow is_address gateway snapshot consumers
check_gateway_active-IsReachable_example =
    check_gateway_active-IsReachable narrow is_address gateway snapshot consumers gateway_active

abbrev group : Fields
group =
    field (codes "name") (str (codes "lans"))
      (field (codes "members") (list (cons (str (codes "lan")) nil)) end)

group_active : (check_interface_group_active narrow group snapshot consumers).status ≡ verified
unfolding check_interface_group_active quoted ◌+ℤ◌ ◌-ℤ◌ number digit two_numbers
group_active = refl

check_interface_group_active-IsApplied_example : IsApplied narrow group snapshot consumers
check_interface_group_active-IsApplied_example =
    check_interface_group_active-IsApplied narrow group snapshot consumers group_active
