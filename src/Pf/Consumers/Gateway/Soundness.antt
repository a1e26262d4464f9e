-- ===== src/Pf/Consumers/Gateway/Soundness.antt =====
-- `check_gateway_active` of src/iaas/opnsense_workflow/pf_consumers.py reports `verified` only if
-- the loaded rules of each related consumer route to the gateway.
use iaas.Prelude.{
  ℕ, ◌≡◌, ◌≢◌, refl, map, ◌++◌, Bool, true, ◌&&◌, Option, none, some, List, [], ◌∷◌, Text, text_eq,
  text_eq_iff, all, All, arith, Bool-cases, inl, inr, is_in, ap,
}
use iaas.Value.{Value, Fields}
use iaas.Pf.Report.{Checked, ok, bad, Report, result, result_for, verified, filter_rules}
use iaas.Pf.Rule.{Rule}
use iaas.Pf.Snapshot.{parse_loaded_pf_rules}
use iaas.Pf.Consumers.{Consumer, related_consumers, active_rules}
use iaas.Pf.Consumers.Gateway.{
  Contract, gateway_contract, is_routed, route_matches, Match, match_of, Verdict, not_loaded,
  mismatch, matching, verdict, after, check_consumers, check_loaded, check_related, check_contract,
  check_gateway_active,
}

-- The rule leaves by an interface of the gateway to its address.
abbrev pub IsRouted : Contract → Rule → Type 0
IsRouted contract rule =
    (i : Text) × (rule.route_to ≡ some (i, contract.next_hop))
    × (is_in i contract.interfaces ≡ true)

-- At least one filter rule with this UUID is loaded, and each such rule has the property.
abbrev pub HasRules : (Rule → Type 0) → List Rule → Text → Type 0
HasRules P loaded uuid =
    (active_rules uuid loaded ≢ [])
    × All (λ rule. rule.section ≡ filter_rules → rule.uuid ≡ uuid → P rule) loaded

-- What the result `verified` says of the inputs.
pub record IsReachable (wide : ℕ → Bool) (is_address : Text → Bool) (gateway : Fields)
    (snapshot consumers : Value) : Type 0 where
  pub contract : Contract
  pub related : List Consumer
  pub loaded : List Rule
  pub named : gateway_contract is_address gateway ≡ ok contract
  pub relates : related_consumers (is_routed contract.name) consumers ≡ ok related
  pub some_related : related ≢ []
  pub parsed : parse_loaded_pf_rules wide snapshot ≡ ok loaded
  pub routed : All (λ c. HasRules (IsRouted contract) loaded c.uuid) related

all-active :
    (p : Rule → Bool) (P : Rule → Type 0) (uuid : Text)
    → ((rule : Rule) → p rule ≡ true → P rule)
    → (loaded : List Rule) → all p (active_rules uuid loaded) ≡ true
    → All (λ rule. rule.section ≡ filter_rules → rule.uuid ≡ uuid → P rule) loaded
unfolding active_rules
all-active p P uuid f [] h = tt
all-active p P uuid f (rule ∷ rules) h =
    elim (Bool-cases (text_eq rule.section filter_rules && text_eq rule.uuid uuid)) [
      | inl e ↦ (λ s u. f rule (ground (arith, e)), all-active p P uuid f rules (ground (arith, e)))
      | inr e ↦ (
        λ s u.
            absurd (
              ground (arith, e, text_eq_iff rule.section filter_rules, text_eq_iff rule.uuid uuid)),
        all-active p P uuid f rules (ground (arith, e)),
      )
    ]

routes :
    (contract : Contract) (o : Option (Text × Text))
    → route_matches contract o ≡ true
    → (i : Text) × (o ≡ some (i, contract.next_hop)) × (is_in i contract.interfaces ≡ true)
unfolding route_matches
routes contract none h = cc
routes contract (some (i, hop)) h =
    (i, ap (λ t. some (i, t)) ((text_eq_iff hop contract.next_hop).0 (ground arith)), ground arith)

verdict-matching :
    (contract : Contract) (rules found : List Rule)
    → verdict contract rules ≡ matching found
    → (rules ≢ []) × (all (λ r. route_matches contract r.route_to) rules ≡ true)
unfolding verdict
verdict-matching contract [] found h = cc
verdict-matching contract (rule ∷ rules) found h = (λ e. cc, ground arith)

after-verified :
    (v : Verdict) (uuid : Text) (next : List Rule → Report Match)
    → (after v uuid next).status ≡ verified
    → (rules : List Rule) × (v ≡ matching rules) × ((next rules).status ≡ verified)
unfolding after result_for
after-verified not_loaded uuid next h = cc
after-verified mismatch uuid next h = cc
after-verified (matching rules) uuid next h = (rules, refl, h)

check_consumers-verified :
    (contract : Contract) (loaded : List Rule) (matches : List Match) (related : List Consumer)
    → (check_consumers contract loaded matches related).status ≡ verified
    → All (λ c. HasRules (IsRouted contract) loaded c.uuid) related
unfolding check_consumers
check_consumers-verified contract loaded matches [] h = tt
check_consumers-verified contract loaded matches (c ∷ cs) h =
    let (rules, e, rest) =
      after-verified (verdict contract (active_rules c.uuid loaded)) c.uuid _ h in
    let (found, each) = verdict-matching contract (active_rules c.uuid loaded) rules e in
    (
      (
        found,
        all-active _ (IsRouted contract) c.uuid (λ rule. routes contract rule.route_to) loaded each,
      ),
      check_consumers-verified contract loaded (matches ++ map match_of rules) cs rest,
    )

module _ (wide : ℕ → Bool) (is_address : Text → Bool) (gateway : Fields)
    (snapshot consumers : Value) (contract : Contract)
    (named : gateway_contract is_address gateway ≡ ok contract) where
  loaded-verified :
      (related : List Consumer) (l : Checked (List Rule))
      → related_consumers (is_routed contract.name) consumers ≡ ok related
      → related ≢ []
      → parse_loaded_pf_rules wide snapshot ≡ l
      → (check_loaded contract related l).status ≡ verified
      → IsReachable wide is_address gateway snapshot consumers
  unfolding check_loaded result
  loaded-verified related (bad reason) r n p h = cc
  loaded-verified related (ok loaded) r n p h = record {
    contract = contract;
    related = related;
    loaded = loaded;
    named = named;
    relates = r;
    some_related = n;
    parsed = p;
    routed = check_consumers-verified contract loaded [] related h;
  }

  related-verified :
      (r : Checked (List Consumer))
      → related_consumers (is_routed contract.name) consumers ≡ r
      → (check_related wide contract snapshot r).status ≡ verified
      → IsReachable wide is_address gateway snapshot consumers
  unfolding check_related result
  related-verified (bad reason) e h = cc
  related-verified (ok []) e h = cc
  related-verified (ok (c ∷ cs)) e h =
      loaded-verified (c ∷ cs) (parse_loaded_pf_rules wide snapshot) e (λ n. cc) refl h

contract-verified :
    (wide : ℕ → Bool) (is_address : Text → Bool) (gateway : Fields) (snapshot consumers : Value)
    (c : Checked Contract)
    → gateway_contract is_address gateway ≡ c
    → (check_contract wide snapshot consumers c).status ≡ verified
    → IsReachable wide is_address gateway snapshot consumers
unfolding check_contract result
contract-verified wide is_address gateway snapshot consumers (bad reason) e h = cc
contract-verified wide is_address gateway snapshot consumers (ok contract) e h =
    related-verified wide is_address gateway snapshot consumers contract e
      (related_consumers (is_routed contract.name) consumers) refl h

-- A gateway is reported as verified only if its configuration and the rules are complete, at least
-- one enabled filter rule uses it, and for each of those at least one filter rule with its UUID is
-- loaded and each one routes by an interface of the gateway to the gateway's address.
pub check_gateway_active-IsReachable :
    (wide : ℕ → Bool) (is_address : Text → Bool) (gateway : Fields) (snapshot consumers : Value)
    → (check_gateway_active wide is_address gateway snapshot consumers).status ≡ verified
    → IsReachable wide is_address gateway snapshot consumers
unfolding check_gateway_active
check_gateway_active-IsReachable wide is_address gateway snapshot consumers h =
    contract-verified wide is_address gateway snapshot consumers
      (gateway_contract is_address gateway) refl h
