-- ===== src/Pf/Consumers/Group/Soundness.antt =====
-- `check_interface_group_active` of src/iaas/opnsense_workflow/pf_consumers.py reports `verified`
-- only if the loaded rules of each related consumer stand on the group or on its members.
use iaas.Prelude.{
  ℕ, ◌≡◌, ◌≢◌, refl, ◌∙◌, ap, map, ◌++◌, Bool, true, false, not, ◌||◌, Option, none, some, List, [],
  ◌∷◌, Text, codes, text_eq, all, any, All, arith, Bool-cases, Option-cases, inl, inr, is_in,
}
use iaas.Value.{Value, Fields, dict, list, to_list}
use iaas.Pf.Report.{Status, Reason, Checked, ok, bad, Report, result, result_for, verified}
use iaas.Pf.Rule.{Rule}
use iaas.Pf.Snapshot.{parse_loaded_pf_rules}
use iaas.Pf.Consumers.{Consumer, related_consumers, active_rules, is_resource, enabled_state}
use iaas.Pf.Consumers.Group.{
  Contract, group_contract, is_grouped, interfaces, Match, match_of, Verdict, not_loaded,
  unresolved, mismatch, matching, judged, verdict, after, check_consumers, check_loaded,
  check_related, check_stopped, check_contract, check_interface_group_active, nat_use, row_stop,
  first_stop,
}

-- A rule of the list stands on this interface.
abbrev pub is_on : Text → List Rule → Bool
unfolding text_eq
is_on t = any (λ rule. elim rule.on [ none ↦ false | some u ↦ text_eq t u ])

-- At least one rule, each on the group or one of its members, and the group itself or all its
-- members have a rule.
abbrev pub IsScoped : Contract → List Rule → Type 0
unfolding is_in
IsScoped contract rules =
    (rules ≢ [])
    × All
        (λ rule.
          (t : Text) × (rule.on ≡ some t) × (is_in t (contract.name ∷ contract.members) ≡ true))
        rules
    × (is_on contract.name rules || all (λ m. is_on m rules) contract.members ≡ true)

pub record IsApplied (wide : ℕ → Bool) (group : Fields) (snapshot consumers : Value) : Type 0 where
  pub contract : Contract
  pub related : List Consumer
  pub loaded : List Rule
  pub named : group_contract group ≡ ok contract
  pub relates : related_consumers (is_grouped contract.name) consumers ≡ ok related
  pub some_related : related ≢ []
  pub filters : any (λ c. not (is_resource (codes "filter-rules") c.row)) related ≡ false
  pub parsed : parse_loaded_pf_rules wide snapshot ≡ ok loaded
  pub scoped : All (λ c. IsScoped contract (active_rules c.uuid loaded)) related

-- The interfaces of a list of rules that all have one.
interfaces-cons :
    (rule : Rule) (rules : List Rule) (on : List Text)
    → interfaces (rule ∷ rules) ≡ some on
    → (t : Text) × (ts : List Text) × (rule.on ≡ some t)
      × (interfaces rules ≡ some ts)
      × (on ≡ t ∷ ts)
unfolding interfaces
interfaces-cons rule rules on h = elim (Option-cases rule.on) [
  | inl e ↦ absurd (cc (rw e at h))
  | inr (t, e) ↦ elim (Option-cases (interfaces rules)) [
    | inl k ↦ absurd (cc (rw (e, k) at h))
    | inr (ts, k) ↦ (t, ts, e, k, cc (rw (e, k) at h))
  ]
]

interfaces-on :
    (p : Text → Bool) (rules : List Rule) (on : List Text)
    → interfaces rules ≡ some on
    → all p on ≡ true
    → All (λ rule. (t : Text) × (rule.on ≡ some t) × (p t ≡ true)) rules
interfaces-on p [] on h k = tt
interfaces-on p (rule ∷ rules) on h k =
    let (t, ts, e, rest, same) = interfaces-cons rule rules on h in
    let each : all p (t ∷ ts) ≡ true = rw same at k in
    ((t, e, ground (arith, each)), interfaces-on p rules ts rest (ground (arith, each)))

is_in-is_on :
    (u : Text) (rules : List Rule) (on : List Text)
    → interfaces rules ≡ some on
    → is_in u on ≡ is_on u rules
unfolding is_in interfaces
is_in-is_on u [] on h = let empty : on ≡ [] = cc in ap (any (text_eq u)) empty
is_in-is_on u (rule ∷ rules) on h =
    let (t, ts, e, rest, same) = interfaces-cons rule rules on h in
    rw (same, e) (ap (λ b. text_eq u t || b) (is_in-is_on u rules ts rest))

all-is_on :
    (members : List Text) (rules : List Rule) (on : List Text)
    → interfaces rules ≡ some on
    → all (λ m. is_in m on) members ≡ all (λ m. is_on m rules) members
all-is_on [] rules on h = refl
all-is_on (m ∷ ms) rules on h = rw (is_in-is_on m rules on h, all-is_on ms rules on h) refl

judged-IsScoped :
    (contract : Contract) (rules found : List Rule) (o : Option (List Text))
    → rules ≢ []
    → interfaces rules ≡ o
    → judged contract rules o ≡ matching found
    → IsScoped contract rules
unfolding judged
judged-IsScoped contract rules found none n e h = cc
judged-IsScoped contract rules found (some on) n e h =
    let known : all (λ t. is_in t (contract.name ∷ contract.members)) on ≡ true = ground arith in
    let whole : is_in contract.name on || all (λ m. is_in m on) contract.members ≡ true =
      ground arith in
    (
      n,
      interfaces-on _ rules on e known,
      rw (is_in-is_on contract.name rules on e, all-is_on contract.members rules on e) at whole,
    )

verdict-IsScoped :
    (contract : Contract) (rules found : List Rule)
    → verdict contract rules ≡ matching found
    → IsScoped contract rules
unfolding verdict
verdict-IsScoped contract [] found h = cc
verdict-IsScoped contract (r ∷ rs) found h =
    judged-IsScoped contract (r ∷ rs) found (interfaces (r ∷ rs)) (λ e. cc) refl h

after-verified :
    (v : Verdict) (uuid : Text) (next : List Rule → Report Match)
    → (after v uuid next).status ≡ verified
    → (rules : List Rule) × (v ≡ matching rules) × ((next rules).status ≡ verified)
unfolding after result_for
after-verified not_loaded uuid next h = cc
after-verified unresolved uuid next h = cc
after-verified mismatch uuid next h = cc
after-verified (matching rules) uuid next h = (rules, refl, h)

check_consumers-IsScoped :
    (contract : Contract) (loaded : List Rule) (matches : List Match) (related : List Consumer)
    → (check_consumers contract loaded matches related).status ≡ verified
    → All (λ c. IsScoped contract (active_rules c.uuid loaded)) related
unfolding check_consumers
check_consumers-IsScoped contract loaded matches [] h = tt
check_consumers-IsScoped contract loaded matches (c ∷ cs) h =
    let (rules, e, rest) =
      after-verified (verdict contract (active_rules c.uuid loaded)) c.uuid _ h in
    (
      verdict-IsScoped contract (active_rules c.uuid loaded) rules e,
      check_consumers-IsScoped contract loaded (matches ++ map match_of rules) cs rest,
    )

-- The first loop returns with another status.
nat_use-other :
    (name : Text) (row : Fields) (c : Checked Bool) (s : Status) (r : Reason)
    → nat_use name row c ≡ some (s, r)
    → s ≢ verified
unfolding nat_use
nat_use-other name row (bad reason) s r h = λ e. cc
nat_use-other name row (ok false) s r h = cc
nat_use-other name row (ok true) s r h = λ e. ground arith

row_stop-other :
    (name : Text) (v : Value) (s : Status) (r : Reason)
    → row_stop name v ≡ some (s, r)
    → s ≢ verified
unfolding row_stop
row_stop-other name (dict row) s r h = nat_use-other name row (enabled_state row) s r h
row_stop-other name _ s r h = λ e. cc

first_stop-other :
    (name : Text) (vs : List Value) (s : Status) (r : Reason)
    → first_stop name vs ≡ some (s, r)
    → s ≢ verified
unfolding first_stop
first_stop-other name [] s r h = cc
first_stop-other name (v ∷ vs) s r h = elim (Option-cases (row_stop name v)) [
  | inl e ↦ first_stop-other name vs s r (rw (e, first_stop) at h)
  | inr ((s', r'), e) ↦ row_stop-other name v s r (e ∙ (rw (e, first_stop) at h))
]

module _ (wide : ℕ → Bool) (group : Fields) (snapshot consumers : Value) (contract : Contract)
    (named : group_contract group ≡ ok contract) where
  loaded-IsApplied :
      (related : List Consumer) (l : Checked (List Rule))
      → related_consumers (is_grouped contract.name) consumers ≡ ok related
      → related ≢ []
      → any (λ c. not (is_resource (codes "filter-rules") c.row)) related ≡ false
      → parse_loaded_pf_rules wide snapshot ≡ l
      → (check_loaded contract related l).status ≡ verified
      → IsApplied wide group snapshot consumers
  unfolding check_loaded result
  loaded-IsApplied related (bad reason) r n f p h = cc
  loaded-IsApplied related (ok loaded) r n f p h = record {
    contract = contract;
    related = related;
    loaded = loaded;
    named = named;
    relates = r;
    some_related = n;
    filters = f;
    parsed = p;
    scoped = check_consumers-IsScoped contract loaded [] related h;
  }

  related-IsApplied :
      (r : Checked (List Consumer))
      → related_consumers (is_grouped contract.name) consumers ≡ r
      → (check_related wide contract snapshot r).status ≡ verified
      → IsApplied wide group snapshot consumers
  unfolding check_related result
  related-IsApplied (bad reason) e h = cc
  related-IsApplied (ok []) e h = cc
  related-IsApplied (ok (c ∷ cs)) e h =
      elim (Bool-cases (any (λ k. not (is_resource (codes "filter-rules") k.row)) (c ∷ cs))) [
        | inl other ↦ absurd (cc (rw other at h))
        | inr f ↦
            loaded-IsApplied (c ∷ cs) (parse_loaded_pf_rules wide snapshot) e (λ n. cc) f refl
              (rw f at h)
      ]

  stopped-IsApplied :
      (o : Option (Status × Reason))
      → ((s : Status) (r : Reason) → o ≡ some (s, r) → s ≢ verified)
      → (check_stopped wide contract snapshot consumers o).status ≡ verified
      → IsApplied wide group snapshot consumers
  unfolding check_stopped result
  stopped-IsApplied none other h =
      related-IsApplied (related_consumers (is_grouped contract.name) consumers) refl h
  stopped-IsApplied (some (s, r)) other h = absurd (other s r refl h)

contract-IsApplied :
    (wide : ℕ → Bool) (group : Fields) (snapshot consumers : Value) (c : Checked Contract)
    → group_contract group ≡ c
    → (check_contract wide snapshot consumers c).status ≡ verified
    → IsApplied wide group snapshot consumers
unfolding check_contract result
contract-IsApplied wide group snapshot consumers (bad reason) e h = cc
contract-IsApplied wide group snapshot (list vs) (ok contract) e h =
    stopped-IsApplied wide group snapshot (list vs) contract e
      (first_stop contract.name (to_list vs)) (first_stop-other contract.name (to_list vs)) h
contract-IsApplied wide group snapshot _ (ok contract) e h = cc

-- An interface group is reported as verified only if its configuration and the rules are complete,
-- at least one enabled consumer and no NAT rule uses it, and the filter rules that are loaded for
-- each consumer, at least one, all stand on the group or on its members: on the group itself or on
-- every member.
pub check_interface_group_active-IsApplied :
    (wide : ℕ → Bool) (group : Fields) (snapshot consumers : Value)
    → (check_interface_group_active wide group snapshot consumers).status ≡ verified
    → IsApplied wide group snapshot consumers
unfolding check_interface_group_active
check_interface_group_active-IsApplied wide group snapshot consumers h =
    contract-IsApplied wide group snapshot consumers (group_contract group) refl h
