-- ===== src/Lib.antt =====
-- A model of the storage and mesh core of `static`, an anonymous peer-to-peer storage network in Rust.
--
-- The program is a set of crates. `static-storage` keeps encrypted chunks under leases and exchanges
-- them with other nodes by swaps; `static-mesh` moves messages between nodes in fixed-size Sphinx
-- bodies and runs the swap protocol; the other crates encrypt packets, keep accounts, and wire a node
-- together. A swap has two phases. A proposal that is accepted reserves capacity for one chunk on each
-- side and stores nothing; each side then retrieves the other's chunk, verifies it, and commits; when
-- both commits are in, the chunk is stored and the reservation becomes stored bytes. An abort, a failed
-- verification or a timeout gives the reservation back.
--
-- Files and code, with paths from the root of the repository:
--   Common            machine words, byte strings, list operations and Boolean tests that all parts use
--   HashMap           `std::collections::HashMap` as an association list; what depends on the order of
--                     iteration takes a choice, `Pick`, as an argument
--   Mesh/Fragment     crates/static-mesh/src/fragment.rs: `fragment_payload`, `serialize_fragment`,
--                     `deserialize_fragment`; the children Reassembler and Manager are the structs
--                     `Reassembler` and `ReassemblyManager`, one function per method
--   Mesh/Replay       crates/static-mesh/src/transport.rs: `check_handshake_nonce` and
--                     `check_maintenance_nonce`
--   Mesh/SwapProtocol crates/static-mesh/src/transport.rs: `begin_swap_proposal`, the handlers
--                     `handle_maintenance_proposal`, `_accept`, `_commit`, `_abort` and `_reject`,
--                     `handle_swap_chunk_retrieval`, `finalize_swap_if_ready` and
--                     `expire_pending_swaps`, over the record `Node` of the state they share
--   Storage/Crypto    what the crate calls of blake3, hkdf and ed25519-dalek, as a record of functions
--   Storage/Lease     crates/static-storage/src/lib.rs: `ChunkLease` and its operations
--   Storage/Merkle    crates/static-storage/src/integrity.rs: roots, proofs and `verify_chunk`
--   Storage/Holder    crates/static-storage/src/retrieval.rs: `ChunkHolder`
--   Storage/Swap      crates/static-storage/src/swap.rs: the four signed messages (Proposal, Accept,
--                     Commit, Abort), rejections (Reasons), `SwapState` (State), `StorageCapacity`
--                     (Capacity) and the decision on a proposal (Decision)
--   Storage/Heartbeat crates/static-storage/src/heartbeat.rs: `Heartbeat` and `LeaseManager`; the child
--                     Codec is the wire format
--   Storage/Seeds     crates/static-storage/src/heartbeat.rs: `SeedManager`
--   Accounting        crates/static-accounting/src/lib.rs: credit of peers (Credit), the state and its
--                     pruning (State), whom to serve (Service), sponsored seeds (Sponsors), limits on
--                     prepayments (Prepayments), reconciliation (Reconcile) and challenges (Challenge)
--   Storage/Wire      what the codecs of crates/static-storage share: fixed arrays, lengths, return routes
--   Storage/Verification  crates/static-storage/src/verification.rs, and the answer of a holder,
--                     `handle_verification_challenge` of crates/static-node/src/runner.rs
--   Storage/Files     crates/static-storage/src/lib.rs: `encrypt_file`, `decrypt_file` and their parts
--   Storage/Retrieval crates/static-storage/src/retrieval.rs: the wire format and `handle_request`; the
--                     child Retriever is `ContentRetriever`
--   Storage/Compute   crates/static-storage/src/compute.rs: the four messages; the children Responses
--                     and Payments hold all but the request
--   Storage/Repair    crates/static-storage/src/repair.rs: health of a content, plans, `RepairState`
--   Storage/Rotation  crates/static-storage/src/rotation.rs: `RotationState`
--   Mesh/Routing      crates/static-mesh/src/routing.rs: `RoutingTable` and its routes; the child Gossip
--                     is `PeerGossip` and what is made of it
--   Storage/Gossip    crates/static-storage/src/gossip.rs: reports of missing chunks
--   Storage/HiddenService  crates/static-storage/src/hidden_service.rs: manifests under a content's key
--   Mesh/CoverTraffic crates/static-mesh/src/lib.rs: `CoverTrafficGenerator`
--   Mesh/Peers        crates/static-mesh/src/lib.rs: `Peer`, `MeshState`
--   Mesh/Handshake    crates/static-mesh/src/wire.rs: the messages of the handshake; the child
--                     Identity is the signed `Handshake`
-- The Examples modules run the theorems on concrete inputs.
--
-- Conventions. A number stands for a machine word, with the wrap-around of a release build written
-- out, and for a byte array of fixed width, as the number that its bytes spell. Times are seconds, or
-- nanoseconds for an `Instant`; the clock and the random generator are arguments. A handler runs whole:
-- its locks are taken one at a time, and that another handler runs between two of them is not modelled.
-- What a handler sends is part of its result. The loops of the Merkle code run on fuel, the number of
-- leaves: each round shortens a level of two or more hashes, so the fuel is never used up before the
-- loop ends. The slicing of a chunk into segments runs on fuel too, the length of the chunk: each round
-- slices off at least a byte. Every other loop is a recursion on the list it walks, or on its number of
-- rounds.
--
-- Not modelled: the ciphers, key derivation, digests, signatures and the erasure code, which are calls
-- of other libraries, and the Sphinx packets; sockets, connections and framing; the running of remote
-- computations; the node's runner but for its answer to a verification challenge, its HTTP interface,
-- configuration and payments.
-- Floats for display (`progress`), rankings by floats and poisoned locks are left out.
pub mod Common
pub mod HashMap
pub mod Storage
pub mod Mesh
pub mod Accounting
