-- ===== src/Accounting.antt =====
-- crates/static-accounting/src/lib.rs: what a node keeps of its peers, with no ledger beside it.
pub mod Credit
pub mod State
pub mod Service
pub mod Sponsors
pub mod Prepayments
pub mod Reconcile
pub mod Challenge
mod Examples
