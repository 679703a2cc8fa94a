-- ===== src/Storage.antt =====
-- The crate crates/static-storage: leases, swaps and integrity proofs.
pub mod Crypto
pub mod Lease
pub mod Merkle
pub mod Holder
pub mod Swap
pub mod Heartbeat
pub mod Seeds
pub mod Wire
pub mod Verification
pub mod Files
pub mod Retrieval
pub mod Compute
pub mod Repair
pub mod Rotation
pub mod Gossip
pub mod HiddenService
pub mod Examples
