-- ===== src/Pf.antt =====
-- src/iaas/opnsense_workflow/pf_rules.py and src/iaas/opnsense_workflow/pf_consumers.py: the
-- reading of the loaded PF rules of a firewall, and the checks of port aliases, gateways and
-- interface groups against them.
pub mod Ports
mod Examples
pub mod Report
pub mod Scan
pub mod Words
pub mod Rule
pub mod Snapshot
pub mod Alias
pub mod Consumers
