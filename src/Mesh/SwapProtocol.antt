-- ===== src/Mesh/SwapProtocol.antt =====
-- crates/static-mesh/src/transport.rs: the handlers of the two-phase swap over the shared state of a
-- node. Each runs whole, as its locks are taken one at a time and no other handler runs between; the
-- clock, the generator and the choice of a return chunk are arguments. What is sent is returned.
pub mod Inv
pub mod Steps
pub mod Messages
pub mod Timers
pub mod Safety
pub mod Leak
pub mod Settlement
pub mod Completion
mod Examples
use static.Common.{
  ℕ, zero, suc, ◌+◌, ◌-◌, ◌≤◌, ◌<◌, Bool, true, false, not, ◌&&◌, Option, none, some, List, [], ◌∷◌,
  ◌++◌, length, add64, ltb, leb, codes, ◌==◌, if◌then◌else◌, is_some,
}
use static.HashMap.{HashMap, Pick, first_key, get, insert, remove, modify, retain, contains_key}
use static.Mesh.Replay.{check_nonce}
use static.Storage.Crypto.{Crypto}
use static.Storage.Holder.{ChunkHolder, encrypted_chunk_size, add_chunk, has_chunk, total_bytes}
use static.Storage.Lease.{ChunkLease}
use static.Storage.Merkle.{MerkleProof, verify_chunk}
use static.Storage.Swap.Abort as Abort
use static.Storage.Swap.Abort.{SwapAbort, create_swap_abort}
use static.Storage.Swap.Accept as Accept
use static.Storage.Swap.Accept.{SwapAccept, create_swap_accept}
use static.Storage.Swap.Capacity as Capacity
use static.Storage.Swap.Capacity.{StorageCapacity, can_accept, reserve, release_reserved}
use static.Storage.Swap.Commit as Commit
use static.Storage.Swap.Commit.{SwapCommit, create_swap_commit}
use static.Storage.Swap.Decision.{decide_on_swap}
use static.Storage.Swap.Proposal.{SwapProposal, proposal_id}
use static.Storage.Swap.Reasons.{
  Checked, accepted, rejected, SwapRejectReason, no_capacity, SwapReject, create_swap_reject,
}
use static.Storage.Swap.State as State
use static.Storage.Swap.State.{
  SwapState, PendingSwap, max_pending_swaps, remove_proposal, start_pending_swap,
  receive_their_chunk, mark_commit_sent, mark_commit_received, complete_swap, abort_swap,
  expire_pending_swaps,
}

-- The parts of `TransportState` that the handlers touch. `identities` are the pinned keys of the
-- routing table's entries.
pub record Node : Type 0 where
  pub node_id : ℕ
  pub identity_key : ℕ
  pub storage_key : ℕ
  pub swaps : SwapState
  pub capacity : StorageCapacity
  pub holder : ChunkHolder
  pub peer_chunk_counts : HashMap ℕ
  pub lease_manager : Option (HashMap ChunkLease)
  pub maintenance_nonces : HashMap ℕ
  pub identities : HashMap (Option ℕ)
  pub peer_activity : HashMap ℕ
  pub pending_swap_timeout_secs : ℕ

-- What a handler sends, and to whom.
pub data Sent : Type 0 where
  sends_accept : ℕ → SwapAccept → Sent
  sends_reject : ℕ → SwapReject → Sent
  sends_commit : ℕ → SwapCommit → Sent
  sends_abort : ℕ → SwapAbort → Sent

abbrev pub Reply : Type 0
Reply = Node × List Sent

unfoldable pub note_peer_activity : Node → ℕ → ℕ → Node
note_peer_activity n peer now = record n { peer_activity = insert peer now n.peer_activity }

unfoldable pub check_maintenance_sender : Node → ℕ → ℕ → Bool
check_maintenance_sender n claimed presented = elim (get claimed n.identities) [
  | some (some stored) ↦ stored == presented
  | _ ↦ true
]

-- `is_some_and(|swap| swap.peer == sender)`
abbrev pub is_with_peer : ℕ → Option PendingSwap → Bool
is_with_peer sender none = false
is_with_peer sender (some w) = w.peer == sender

abbrev pub count_of : ℕ → HashMap ℕ → ℕ
count_of peer counts = elim (get peer counts) [ none ↦ 0 | some k ↦ k ]

-- `abort_swap`, and the release of what was reserved for the swap.
unfoldable pub release_aborted : Node → ℕ → Node
release_aborted n pid =
    let (s, w) = abort_swap n.swaps pid in
    elim w [
      | none ↦ record n { swaps = s }
      | some swap ↦ record n {
        swaps = s;
        capacity = release_reserved n.capacity swap.reserved_bytes false;
      }
    ]

-- The reasons that aborts carry, as bytes.
abbrev pub no_return_capacity : List ℕ
no_return_capacity = codes "no capacity for return chunk"

abbrev pub failed_integrity : List ℕ
failed_integrity = codes "retrieved chunk failed integrity verification"

abbrev pub timed_out : List ℕ
timed_out = codes "pending swap timed out"

module _ (c : Crypto) where
  unfoldable pub signed_abort : Node → ℕ → List ℕ → ℕ → SwapAbort
  signed_abort n pid reason fresh =
      Abort.sign c n.identity_key fresh (create_swap_abort c pid n.node_id reason none fresh fresh)

  -- `begin_swap_proposal`: called as a proposal is sent.
  unfoldable pub begin_swap_proposal : Node → ℕ → SwapProposal → ℕ → Node × ℕ
  begin_swap_proposal n peer p now =
      let pid = proposal_id c p in
      let swap : PendingSwap = record {
        proposal_id = pid;
        peer = peer;
        our_chunk_id = p.chunk_id;
        their_chunk_id = 0;
        their_chunk_data = [];
        reserved_bytes = 0;
        received_their_chunk = false;
        retrieval_requested = false;
        content_root = 0;
        merkle_proof = record { leaf_index = 0; siblings = [] };
        sent_commit = false;
        received_commit = false;
        renewal_token = 0;
        lease_expires_at = 0;
        content_pub_key = 0;
        started_at = now;
      } in
      (record n { swaps = start_pending_swap n.swaps swap }, pid)

  -- The pending swap of an accepted proposal, for which `ret_id` goes back.
  abbrev pub answered : SwapProposal → ℕ → ℕ → PendingSwap
  answered p ret_id now = record {
    proposal_id = proposal_id c p;
    peer = p.from_node;
    our_chunk_id = ret_id;
    their_chunk_id = p.chunk_id;
    their_chunk_data = [];
    reserved_bytes = encrypted_chunk_size;
    received_their_chunk = false;
    retrieval_requested = false;
    content_root = p.content_root;
    merkle_proof = p.merkle_proof;
    sent_commit = false;
    received_commit = false;
    renewal_token = p.lease.renewal_token;
    lease_expires_at = p.lease.expires_at;
    content_pub_key = p.content_public_key;
    started_at = now;
  }

  abbrev pub reject_with : Node → SwapProposal → SwapRejectReason → List Sent
  reject_with n p reason =
      sends_reject p.from_node (create_swap_reject n.node_id (proposal_id c p) reason) ∷ []

  -- The prepare phase, once the decision is to accept and a return chunk is chosen.
  unfoldable pub prepare : Node → SwapProposal → ℕ → ℕ → ℕ → Reply
  prepare n p ret_id now fresh =
      if leb max_pending_swaps (length n.swaps.pending_swaps)
      then (n, reject_with n p no_capacity)
      else if can_accept n.capacity encrypted_chunk_size (count_of p.from_node n.peer_chunk_counts)
      then (let accept =
            create_swap_accept c n.node_id ret_id n.storage_key (proposal_id c p) 86400 now fresh in
          (
            record n {
              capacity = reserve n.capacity encrypted_chunk_size;
              swaps =
                  start_pending_swap (remove_proposal n.swaps (proposal_id c p)).0
                    (answered p ret_id now);
            },
            sends_accept p.from_node (Accept.sign c n.identity_key fresh accept) ∷ [],
          ))
      else (n, reject_with n p no_capacity)

  unfoldable pub reject_proposal : Node → SwapProposal → SwapRejectReason → Reply
  reject_proposal n p reason =
      let s = (remove_proposal n.swaps (proposal_id c p)).0 in
      (
        record n { swaps = record s { rejected_swaps = add64 s.rejected_swaps 1 } },
        reject_with n p reason,
      )

  -- The first chunk held, as iterated, that is not the one offered.
  abbrev pub return_chunk : Pick → Node → SwapProposal → Option ℕ
  return_chunk pick n p = first_key pick (retain (λ id _. not (id == p.chunk_id)) n.holder.chunks)

  unfoldable pub handle_proposal : Pick → Node → SwapProposal → ℕ → ℕ → Reply
  handle_proposal pick n₀ p now fresh =
      let m = note_peer_activity n₀ p.from_node now in
      let n = record m { capacity = Capacity.reconcile m.capacity (total_bytes m.holder) } in
      elim (decide_on_swap c p n.capacity (count_of p.from_node n.peer_chunk_counts)
        encrypted_chunk_size now) [
          | rejected reason ↦ reject_proposal n p reason
          | accepted ↦ elim (return_chunk pick n p) [
            | none ↦ (n, reject_with n p no_capacity)
            | some ret_id ↦ prepare n p ret_id now fresh
          ]
        ]

  -- What an accept writes into the pending swap.
  abbrev pub adopt : SwapAccept → PendingSwap → PendingSwap
  adopt a w =
      let terms = record w {
        their_chunk_id = a.chunk_id;
        reserved_bytes = encrypted_chunk_size;
        renewal_token = a.lease.renewal_token;
        lease_expires_at = a.lease.expires_at;
      } in
      if a.return_content_root == 0 then terms else record terms {
        content_root = a.return_content_root;
        merkle_proof = a.return_merkle_proof;
      }

  -- The reservation for the return chunk, or the abort of the swap.
  unfoldable pub reserve_return : Node → SwapAccept → ℕ → Reply
  reserve_return n a fresh =
      if can_accept n.capacity encrypted_chunk_size 0
      then (
        record n {
          capacity = reserve n.capacity encrypted_chunk_size;
          swaps = record n.swaps {
            pending_swaps = modify a.proposal_id (adopt a) n.swaps.pending_swaps;
          };
        },
        [],
      )
      else (
        release_aborted n a.proposal_id,
        sends_abort a.from_node (signed_abort n a.proposal_id no_return_capacity fresh) ∷ [],
      )

  -- The checks that the signed messages share, in the order of the source: the signature, the sender's
  -- key, and the nonce, which is recorded. The node that is left, and whether to go on.
  unfoldable pub authenticate : Node → Bool → ℕ → ℕ → ℕ → ℕ → Node × Bool
  authenticate n signed sender identity nonce now =
      if not signed
      then (n, false)
      else if not (check_maintenance_sender n sender identity)
      then (n, false)
      else (let (nonces, is_fresh) = check_nonce n.maintenance_nonces now nonce in
          (record n { maintenance_nonces = nonces }, is_fresh))

  unfoldable pub handle_accept : Node → SwapAccept → ℕ → ℕ → Reply
  handle_accept n₀ a now fresh =
      let (n, authentic) =
        authenticate (note_peer_activity n₀ a.from_node now) (Accept.verify_signature c a)
          a.from_node a.identity_public_key a.nonce now in
      if not authentic
      then (n, [])
      else if is_with_peer a.from_node (get a.proposal_id n.swaps.pending_swaps)
      then reserve_return n a fresh
      else (n, [])

  abbrev pub is_ready : Option PendingSwap → Bool
  is_ready none = false
  is_ready (some w) = w.sent_commit && (w.received_commit && w.received_their_chunk)

  -- The effects of a completed swap: the chunk is stored if it is not held yet, the reservation ends,
  -- and a stored chunk is counted and gets its lease.
  unfoldable pub settle : Node → PendingSwap → Node
  settle n w =
      if has_chunk n.holder w.their_chunk_id
      then record n { capacity = release_reserved n.capacity w.reserved_bytes false }
      else record n {
        holder = add_chunk n.holder w.their_chunk_id w.their_chunk_data 0;
        capacity = release_reserved n.capacity w.reserved_bytes true;
        peer_chunk_counts =
            insert w.peer (count_of w.peer n.peer_chunk_counts + 1) n.peer_chunk_counts;
        lease_manager = elim n.lease_manager [
          | none ↦ none
          | some leases ↦ some (
              insert w.their_chunk_id
                (record {
                  chunk_id = w.their_chunk_id;
                  expires_at = w.lease_expires_at;
                  renewal_token = w.renewal_token;
                  content_pub_key = w.content_pub_key;
                })
                leases)
        ];
      }

  unfoldable pub finalize_swap_if_ready : Node → ℕ → Node × Bool
  finalize_swap_if_ready n pid =
      if is_ready (get pid n.swaps.pending_swaps)
      then (let (s, w) = complete_swap n.swaps pid in
          elim w [ none ↦ (n, false) | some swap ↦ (settle (record n { swaps = s }) swap, true) ])
      else (n, false)

  unfoldable pub handle_commit : Node → SwapCommit → ℕ → Reply
  handle_commit n₀ m now =
      let (n, authentic) =
        authenticate (note_peer_activity n₀ m.from_node now) (Commit.verify_signature c m)
          m.from_node m.identity_public_key m.nonce now in
      if not authentic
      then (n, [])
      else if is_with_peer m.from_node (get m.proposal_id n.swaps.pending_swaps)
      then (
        (finalize_swap_if_ready
            (record n { swaps = (mark_commit_received n.swaps m.proposal_id).0 }) m.proposal_id).0,
        [],
      )
      else (n, [])

  unfoldable pub handle_abort : Node → SwapAbort → ℕ → Reply
  handle_abort n₀ m now =
      let (n, authentic) =
        authenticate (note_peer_activity n₀ m.from_node now) (Abort.verify_signature c m)
          m.from_node m.identity_public_key m.nonce now in
      if not authentic
      then (n, [])
      else if is_with_peer m.from_node (get m.proposal_id n.swaps.pending_swaps)
      then (release_aborted n m.proposal_id, [])
      else (record n { swaps = (remove_proposal n.swaps m.proposal_id).0 }, [])

  unfoldable pub handle_reject : Node → SwapReject → Reply
  handle_reject n m =
      let s = record n.swaps { rejected_swaps = add64 n.swaps.rejected_swaps 1 } in
      (record n { swaps = (remove_proposal s m.proposal_id).0 }, [])

  -- `values().find(..)`: of several waiting swaps the first, as iterated.
  unfoldable pub waiting_for : ℕ → HashMap PendingSwap → Option PendingSwap
  waiting_for chunk_id [] = none
  waiting_for chunk_id ((_, w) ∷ m) =
      if not w.received_their_chunk && w.their_chunk_id == chunk_id
      then some w
      else waiting_for chunk_id m

  -- The chunk is buffered in the pending swap, our commit is sent unless it was, and the swap is
  -- finalised if it is ready.
  unfoldable pub buffer_chunk : Node → PendingSwap → List ℕ → ℕ → Reply × Bool
  buffer_chunk n w bytes fresh =
      let (s, found) = receive_their_chunk n.swaps w.proposal_id bytes in
      if not found
      then ((record n { swaps = s }, []), false)
      else (let already : Bool = elim (get w.proposal_id s.pending_swaps) [
        | none ↦ false
        | some v ↦ v.sent_commit
      ] in
          let t = if already then s else mark_commit_sent s w.proposal_id in
          let commit =
            Commit.sign c n.identity_key fresh
              (create_swap_commit c w.proposal_id n.node_id none fresh fresh) in
          (
            (
              (finalize_swap_if_ready (record n { swaps = t }) w.proposal_id).0,
              if already then [] else sends_commit w.peer commit ∷ [],
            ),
            true,
          ))

  -- `handle_swap_chunk_retrieval`; the flag says whether a pending swap took the chunk.
  unfoldable pub handle_chunk_retrieval : Node → ℕ → List ℕ → ℕ → Reply × Bool
  handle_chunk_retrieval n chunk_id bytes fresh =
      if not (length bytes == encrypted_chunk_size)
      then ((n, []), false)
      else elim (waiting_for chunk_id n.swaps.pending_swaps) [
        | none ↦ ((n, []), false)
        | some w ↦
            if not (w.content_root == 0) && not (verify_chunk c bytes w.merkle_proof w.content_root)
            then (
              (
                release_aborted n w.proposal_id,
                sends_abort w.peer (signed_abort n w.proposal_id failed_integrity fresh) ∷ [],
              ),
              true,
            )
            else buffer_chunk n w bytes fresh
      ]

  -- One expired swap after the other: its reservation is released and its peer is told.
  unfoldable pub release_expired : Node → List PendingSwap → ℕ → Reply
  release_expired n [] fresh = (n, [])
  release_expired n (w ∷ ws) fresh =
      let (m, sent) =
        release_expired (record n { capacity = release_reserved n.capacity w.reserved_bytes false })
          ws fresh in
      (m, sends_abort w.peer (signed_abort n w.proposal_id timed_out fresh) ∷ sent)

  unfoldable pub expire : Node → ℕ → ℕ → Reply
  expire n now fresh =
      let (s, expired) = expire_pending_swaps n.swaps now n.pending_swap_timeout_secs in
      release_expired (record n { swaps = s }) expired fresh
