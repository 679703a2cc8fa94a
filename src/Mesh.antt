-- ===== src/Mesh.antt =====
-- The crate crates/static-mesh: fragments, replay caches and the swap protocol.
pub mod Fragment
pub mod Replay
pub mod Routing
pub mod CoverTraffic
pub mod Peers
pub mod Handshake
pub mod SwapProtocol
mod Examples
