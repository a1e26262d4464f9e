-- ===== src/Lib.antt =====
-- A verification library for the decision code of iaas: the code that decides whether an operation
-- has completed, whether a firewall's loaded state agrees with its configuration, and in which order
-- records are written. That code reads the documents and observations that it is given, so it is
-- modelled as functions on values; its clocks, reads and sleeps are arguments.
--
-- Prelude  Native numbers, lists, Boolean tests, integers, texts as lists of code points, and the
--          character classes of Python's `re` and `str`.
-- Value    The dynamic values of decoded JSON documents.
-- Wait     src/iaas/opnsense_workflow/waiting.py. Wait.Admission is `WaitPolicy.__post_init__`,
--          Wait is the rest of the file up to `wait_for_confirmation`, whose loop is `poll`.
-- Deadline src/iaas/pve_template/deadlines.py: `DeadlineBudget` as a record, its methods as functions
--          from a budget to a budget and a result.
-- Observe  src/iaas/observation.py. Observe is the loop of `observe`, Observe.Budget its
--          `ObservationBudget`, Observe.Facts `safe_facts`, Observe.Sink `EvidenceSink` and
--          Observe.Task `task_decision`.
-- Pf       src/iaas/opnsense_workflow/pf_rules.py and pf_consumers.py. Pf.Ports are port tokens and
--          intervals, Pf.Scan and Pf.Words the scanners of a raw rule, Pf.Rule `_parse_rule`, Pf.Snapshot
--          `_snapshot_rules` and `parse_loaded_pf_rules`, Pf.Alias `check_port_alias_active`,
--          Pf.Consumers.Gateway and Pf.Consumers.Group the checks of pf_consumers.py.
-- Membership src/iaas/opnsense_workflow/group_checks.py.
-- Routing  src/iaas/opnsense_workflow/gateway_checks.py.
-- Classify src/iaas/opnsense_workflow/classification.py.
-- Admission src/iaas/opnsense_workflow/admission.py: the requirements as tests of an object.
-- Staging  `overlay` and `stages_for` of src/iaas/opnsense_workflow/planning.py.
-- Dependency The references and `valid_state` of planning.py: Dependency is `references`,
--          Dependency.Check the test, Dependency.Stages the stages under it.
-- Candidate The other functions of planning.py: Candidate is `coverage`, `objects` and `relevant`,
--          Candidate.Changes the differences and `plan`.
-- Execute  src/iaas/opnsense_workflow/executor.py up to `apply`: Execute is the state with its effects
--          and the check of a record, Execute.Live `checked_live` and `activation_admission`,
--          Execute.Apply `recovery_document` and `readback`, Execute.Apply.Stages the stages and `apply`.
-- Confirm  The content actions, contracts, disposition and recheck of
--          src/iaas/opnsense_workflow/confirmation.py.
--
-- The parts meet where the source has them meet: the interface group check folds the result of a
-- consumer check as a value, and the consumer checks read the rules that Pf.Snapshot parses. A
-- candidate is made with Dependency's `valid_state`, Staging's `stages_for` and Confirm's contracts,
-- and Execute checks it again with Candidate's `relevant` and Confirm's `recheck` before each write.
--
-- Effects. `apply` is a function on a state with the list of all that was done, from which the reader,
-- the writer and the files answer; an exception is `none`, and ends the rest of the block.
--
-- Numbers. A time is an integer number of ticks, so that a float of the source is a finite one of
-- some resolution; an infinite limit is `none`. A clock that is not finite is `none`.
-- Fuel. `observe` has as many rounds as its fuel, and a theorem gives a number that is enough; the
-- wait has one round for each attempt that the policy allows, and the ordering of writes one for each
-- pending item, the loop over dependencies one for each object, and `relevant` one round more than
-- there are live objects, so these loops never run out.
-- Arguments. `wide` is `str.isalnum` behind ASCII, `is_address` is `ipaddress.ip_address`,
-- `network_version` and `is_network` are `ipaddress.ip_network`, `semantic` is the normal form of a record,
-- `printed` is `str` of a value that is no text, `is_declarable` the validation of a declaration, and
-- `valid_state` of Staging any test of a state; `to_bool` is `optional_bool`, and `same_network` compares
-- two networks of `ipaddress`. The theorems hold for any of them.
-- Not modelled: `reverse_documents` of executor.py; the documents of contracts.py, that are validated
-- before what is modelled; the provider client, files, processes and rendering; the validation of
-- declared documents; the lower case of characters behind ASCII, none of which is compared; the
-- exception that a list or a dict as the status of a consumer observation raises, which is malformed
-- here; the limit of `int` on the number of digits, and decimal digits that Unicode got lately.
pub mod Admission
pub mod Candidate
pub mod Classify
pub mod Confirm
pub mod Deadline
pub mod Dependency
pub mod Execute
pub mod Membership
pub mod Observe
pub mod Pf
pub mod Prelude
pub mod Routing
pub mod Staging
pub mod Value
pub mod Wait
