-- ===== src/Mesh/SwapProtocol/Examples.antt =====
-- A node that runs one swap from proposal to stored chunk, and the theorems applied to it.
use static.Common.{
  ◌≤◌, ◌≡◌, refl, true, some, List, [], ◌∷◌, arith, replicate, be_bytes, from_be_acc,
}
use static.HashMap.{get, retain}
use static.HashMap.Sums.{sum_of}
use static.Storage.Crypto.{check_signature}
use static.Storage.Examples.{toy, pick_first, offer, no_proof, waiting}
use static.Storage.Holder.{encrypted_chunk_size, total_bytes}
use static.Storage.Lease.{create_lease}
use static.Storage.Swap.Accept as Accept
use static.Storage.Swap.Accept.{SwapAccept}
use static.Storage.Swap.Capacity.{can_accept}
use static.Storage.Swap.Proposal as Proposal
use static.Storage.Swap.Proposal.{SwapProposal, proposal_id}
use static.Mesh.Replay.{check_nonce, prune, evict_oldest}
use static.Mesh.SwapProtocol.{
  Node, handle_accept, handle_commit, authenticate, note_peer_activity, check_maintenance_sender,
}
use static.Mesh.SwapProtocol.Inv.{reserved_for}
use static.Mesh.SwapProtocol.Steps.{Sound}
use static.Mesh.SwapProtocol.Safety.{
  Event, gets_proposal, gets_commit, retrieves, times_out, run, run-Sound, never_overcommits,
}
use static.Storage.Swap.State as State
use static.Mesh.SwapProtocol.Leak.{second_accept_leaks}
use static.Mesh.SwapProtocol.Completion.{Outcome, commit_completes}
use static.Storage.Swap.Commit as Commit
use static.Storage.Swap.Commit.{SwapCommit}

-- A node that holds one small chunk and offers four million bytes.
abbrev fresh_node : Node
fresh_node = record {
  node_id = 1;
  identity_key = 2;
  storage_key = 3;
  swaps = record {
    pending_proposals = [];
    pending_swaps = [];
    active_swaps = [];
    completed_swaps = [];
    aborted_swaps = [];
    total_swapped_bytes = 0;
    successful_swaps = 0;
    rejected_swaps = 0;
  };
  capacity = record {
    max_bytes = 4000000;
    current_bytes = 2;
    reserved_bytes = 0;
    max_chunks_per_peer = 100;
  };
  holder = record { chunks = (8, 1 ∷ 2 ∷ []) ∷ []; chunk_to_content = [] };
  peer_chunk_counts = [];
  lease_manager = some [];
  maintenance_nonces = [];
  identities = [];
  peer_activity = [];
  pending_swap_timeout_secs = 300;
}

fresh_node-Sound : Sound 4000000 fresh_node
unfolding total_bytes sum_of get
fresh_node-Sound = record {
  distinct = tt;
  chunks_distinct = (refl, tt);
  covered = omega arith;
  exact = refl;
  within = omega arith;
  fixed = refl;
  room = omega arith;
  backed = tt;
}

abbrev signed_offer : SwapProposal
signed_offer = Proposal.sign toy 5 21 offer

abbrev events : List Event
events =
    gets_proposal pick_first signed_offer 1001 31
    ∷ retrieves 9 (replicate encrypted_chunk_size 0) 32
    ∷ gets_commit
        (record {
          proposal_id = proposal_id toy signed_offer;
          from_node = 7;
          nonce = 33;
          identity_public_key = 5;
          signature = [];
        })
        1003
    ∷ times_out 2000 34
    ∷ []

never_overcommits_example : total_bytes (run toy fresh_node events).holder ≤ 4000000
never_overcommits_example =
    never_overcommits toy 4000000 fresh_node events
      (tt, (λ e. absurd (omega (arith, e)), (tt, (tt, tt)))) fresh_node-Sound

run-Sound_example : Sound 4000000 (run toy fresh_node events)
run-Sound_example =
    run-Sound toy {bound = 4000000} fresh_node events
      (tt, (λ e. absurd (omega (arith, e)), (tt, (tt, tt)))) fresh_node-Sound

-- The node in the middle of a swap for which it has reserved a chunk.
abbrev waiting_node : Node
waiting_node = record fresh_node {
  swaps = record fresh_node.swaps { pending_swaps = (3, waiting 1000) ∷ [] };
  capacity = record fresh_node.capacity { reserved_bytes = 1048592 };
}

abbrev unsigned_again : SwapAccept
unsigned_again = record {
  from_node = 7;
  chunk_id = 2;
  lease = create_lease toy 2 5 100 1000;
  proposal_id = 3;
  encrypted_master_key = [];
  return_content_root = 0;
  return_merkle_proof = no_proof;
  return_content_signature = [];
  nonce = 44;
  identity_public_key = 5;
  signature = [];
}

abbrev again : SwapAccept
again = Accept.sign toy 5 44 unsigned_again

again_authentic :
    (authenticate toy
      (note_peer_activity waiting_node 7 1010)
      (Accept.verify_signature toy again)
      7
      again.identity_public_key
      again.nonce
      1010).1
    ≡ true
unfolding authenticate note_peer_activity Accept.verify_signature Accept.sign check_signature
    be_bytes Accept.signing_bytes check_nonce prune evict_oldest check_maintenance_sender get retain
    from_be_acc
again_authentic = refl

waiting_found : get 3 waiting_node.swaps.pending_swaps ≡ some (waiting 1000)
unfolding get
waiting_found = refl

has_room : can_accept waiting_node.capacity encrypted_chunk_size 0 ≡ true
unfolding can_accept
has_room = refl

second_accept_leaks_example :
    let n' = (handle_accept toy waiting_node again 1010 55).0 in
    (n'.capacity.reserved_bytes ≡ 2097184)
    × (reserved_for n'.swaps.pending_swaps ≡ reserved_for waiting_node.swaps.pending_swaps)
unfolding Accept.sign
second_accept_leaks_example =
    second_accept_leaks toy waiting_node again (waiting 1000) 1010 55 again_authentic waiting_found
      refl refl has_room (omega arith)

-- The swap once its chunk is in and our commit is sent.
abbrev in_hand : State.PendingSwap
in_hand = record (waiting 1000) {
  their_chunk_data = 5 ∷ 6 ∷ [];
  received_their_chunk = true;
  sent_commit = true;
}

abbrev ready_node : Node
ready_node = record waiting_node {
  swaps = record fresh_node.swaps { pending_swaps = (3, in_hand) ∷ [] };
}

abbrev unsigned_commit : SwapCommit
unsigned_commit = record {
  proposal_id = 3;
  from_node = 7;
  nonce = 45;
  identity_public_key = 5;
  signature = [];
}

abbrev their_commit : SwapCommit
their_commit = Commit.sign toy 5 45 unsigned_commit

their_commit_authentic :
    (authenticate toy
      (note_peer_activity ready_node 7 1010)
      (Commit.verify_signature toy their_commit)
      7
      their_commit.identity_public_key
      their_commit.nonce
      1010).1
    ≡ true
unfolding authenticate note_peer_activity Commit.verify_signature Commit.sign check_signature
    be_bytes Commit.signing_bytes check_nonce prune evict_oldest check_maintenance_sender get retain
    from_be_acc
their_commit_authentic = refl

in_hand_found : get 3 ready_node.swaps.pending_swaps ≡ some in_hand
unfolding get
in_hand_found = refl

commit_completes_example :
    let n' = (handle_commit toy ready_node their_commit 1010).0 in
    Outcome true ready_node 3 in_hand n' (handle_commit toy n' their_commit 1020).0
unfolding Commit.sign
commit_completes_example =
    commit_completes toy ready_node their_commit their_commit in_hand 1010 1020
      their_commit_authentic in_hand_found refl refl
