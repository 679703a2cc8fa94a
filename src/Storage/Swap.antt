-- ===== src/Storage/Swap.antt =====
-- crates/static-storage/src/swap.rs, in parts: the messages and their signatures, the decision, the record of
-- pending and finished swaps, and the capacity that swaps draw on.
pub mod Reasons
pub mod Proposal
pub mod Accept
pub mod Commit
pub mod Abort
pub mod Decision
pub mod State
pub mod Capacity
pub mod Binding
