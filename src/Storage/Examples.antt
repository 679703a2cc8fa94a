-- ===== src/Storage/Examples.antt =====
-- Concrete keys, proposals and chunks, and the storage theorems applied to them.
use static.Common.{
  filter, ℕ, ◌+◌, ◌%◌, ◌^◌, ◌≡◌, refl, true, false, not, some, List, [], ◌∷◌, arith, be_bytes,
  from_be, length-be_bytes, ==_refl, ◌==◌, get_elem?,
}
use static.HashMap.{Pick, get, retain, values}
use static.HashMap.Laws.{kept}
use static.Storage.Crypto.{Crypto, CryptoLaws}
use static.Storage.Seeds.{
  SeedNodeConfig, get_active_seeds, mark_inactive, get_active_seeds-mark_inactive,
}
use static.Storage.Lease.{create_lease}
use static.Storage.Merkle.{MerkleProof, generate_proofs, verify_chunk, compute_root}
use static.Storage.Merkle.Soundness.{generated_proof_verifies}
use static.Storage.Swap.Reasons.{accepted}
use static.Storage.Swap.Proposal as Proposal
use static.Storage.Swap.Proposal.{SwapProposal, signing_bytes}
use static.Storage.Swap.Accept as Accept
use static.Storage.Swap.Accept.{SwapAccept}
use static.Storage.Swap.Commit as Commit
use static.Storage.Swap.Commit.{SwapCommit}
use static.Storage.Swap.Abort as Abort
use static.Storage.Swap.Abort.{SwapAbort}
use static.Storage.Swap.Binding.{signing_bytes_bind, signed_messages_verify, commit_is_an_abort}
use static.Storage.Swap.State.{SwapState, PendingSwap, expire_pending_swaps}
use static.Storage.Swap.State.Bounds as Bounds
use static.Storage.Swap.State.Bounds.{IsBounded, swap_state-IsBounded}
use static.Storage.Swap.State.Expiry.{is_late, expire_pending_swaps_lem}

-- A hash that reads its input as a number, and signatures that anyone can compute.
abbrev pub toy : Crypto
toy = record {
  hash = λ bytes. from_be bytes % 256 ^ 32;
  derive = λ key context. key;
  key_parses = λ public. true;
  verify = λ public message signature.
      from_be signature == from_be (be_bytes 64 (from_be message + public));
  verifying_key = λ key. key;
  sign = λ key message. be_bytes 64 (from_be message + key);
}

pub toy-laws : CryptoLaws toy
toy-laws = record {
  signature_length = λ key message. length-be_bytes 64 (from_be message + key);
  verifying_key_parses = λ key. refl;
  verify-sign = λ key message. ==_refl (from_be (be_bytes 64 (from_be message + key)));
  hash-lt = λ message. omega arith;
}

abbrev pub pick_first : Pick
pick_first ids = 0

abbrev pub no_proof : MerkleProof
no_proof = record { leaf_index = 0; siblings = [] }

abbrev pub offer : SwapProposal
offer = record {
  from_node = 7;
  chunk_id = 9;
  lease = create_lease toy 9 5 100 1000;
  encrypted_master_key = [];
  content_root = 11;
  merkle_proof = no_proof;
  proposal_nonce = 13;
  content_public_key = 5;
  content_signature = [];
}

-- The same offer under another key: the bytes that are signed are the same.
abbrev other_key : SwapProposal
other_key = record offer { content_public_key = 6 }

abbrev pub waiting : ℕ → PendingSwap
waiting started_at = record {
  proposal_id = 3;
  peer = 7;
  our_chunk_id = 1;
  their_chunk_id = 2;
  their_chunk_data = [];
  reserved_bytes = 1048592;
  received_their_chunk = false;
  retrieval_requested = false;
  content_root = 0;
  merkle_proof = no_proof;
  sent_commit = false;
  received_commit = false;
  renewal_token = 0;
  lease_expires_at = 0;
  content_pub_key = 0;
  started_at = started_at;
}

abbrev two_waiting : SwapState
two_waiting = record {
  pending_proposals = [];
  pending_swaps = (3, waiting 100) ∷ (4, waiting 500) ∷ [];
  active_swaps = [];
  completed_swaps = [];
  aborted_swaps = [];
  total_swapped_bytes = 0;
  successful_swaps = 0;
  rejected_swaps = 0;
}

two_waiting-IsBounded : IsBounded two_waiting
two_waiting-IsBounded = record {
  distinct = tt;
  proposals = omega arith;
  completed = omega arith;
  aborted = omega arith;
}

abbrev three_chunks : List (List ℕ)
three_chunks = (1 ∷ 2 ∷ []) ∷ (3 ∷ []) ∷ (4 ∷ 5 ∷ 6 ∷ []) ∷ []

generated_proof_verifies_example :
    (proof : MerkleProof) × (get_elem? (generate_proofs toy three_chunks).1 2 ≡ some proof)
    × (verify_chunk toy (4 ∷ 5 ∷ 6 ∷ []) proof (generate_proofs toy three_chunks).0 ≡ true)
    × ((generate_proofs toy three_chunks).0 ≡ compute_root toy three_chunks)
generated_proof_verifies_example = generated_proof_verifies toy three_chunks 2 (4 ∷ 5 ∷ 6 ∷ []) refl

signing_bytes_bind_example :
    (offer.content_root ≡ other_key.content_root)
    × (offer.chunk_id ≡ other_key.chunk_id)
    × (offer.from_node ≡ other_key.from_node)
    × (offer.proposal_nonce ≡ other_key.proposal_nonce)
unfolding signing_bytes
signing_bytes_bind_example =
    signing_bytes_bind offer other_key (omega arith, omega arith, omega arith, omega arith)
      (omega arith, omega arith, omega arith, omega arith) refl

signed_messages_verify_example :
    ((p : SwapProposal)
      → Proposal.verify_content_signature toy (Proposal.sign toy 5 21 p) ≡ accepted)
    × ((a : SwapAccept) → Accept.verify_signature toy (Accept.sign toy 5 21 a) ≡ true)
    × ((m : SwapCommit) → Commit.verify_signature toy (Commit.sign toy 5 21 m) ≡ true)
    × ((m : SwapAbort) → Abort.verify_signature toy (Abort.sign toy 5 21 m) ≡ true)
signed_messages_verify_example = signed_messages_verify toy 5 21 toy-laws

abbrev some_commit : SwapCommit
some_commit = record {
  proposal_id = 3;
  from_node = 7;
  nonce = 17;
  identity_public_key = 5;
  signature = [];
}

commit_is_an_abort_example :
    Abort.verify_signature toy (record {
      proposal_id = 3;
      from_node = 7;
      reason = [];
      nonce = 17;
      identity_public_key = 5;
      signature = [];
    })
    ≡ Commit.verify_signature toy some_commit
commit_is_an_abort_example = commit_is_an_abort toy some_commit

swap_state-IsBounded_example :
    IsBounded
      (Bounds.run toy two_waiting (Bounds.records pick_first offer ∷ Bounds.times_out 600 300 ∷ []))
swap_state-IsBounded_example =
    swap_state-IsBounded toy two_waiting
      (Bounds.records pick_first offer ∷ Bounds.times_out 600 300 ∷ []) two_waiting-IsBounded

expire_pending_swaps_example :
    let (s', expired) = expire_pending_swaps two_waiting 600 300 in
    (expired ≡ values (retain (λ _ w. is_late 600 300 w) two_waiting.pending_swaps))
    × ((id : ℕ)
        → get id s'.pending_swaps
          ≡ kept (λ _ w. not (is_late 600 300 w)) id (get id two_waiting.pending_swaps))
unfolding get
expire_pending_swaps_example = expire_pending_swaps_lem 600 300 two_waiting (refl, (refl, tt))

abbrev two_seeds : List SeedNodeConfig
two_seeds =
    record { node_id = 1; address = []; active = true }
    ∷ record { node_id = 2; address = []; active = true }
    ∷ []

get_active_seeds_example :
    get_active_seeds (mark_inactive ((50, two_seeds) ∷ []) 50 1) 50
    ≡ filter (λ s. not (s.node_id == 1)) (get_active_seeds ((50, two_seeds) ∷ []) 50)
get_active_seeds_example = get_active_seeds-mark_inactive ((50, two_seeds) ∷ []) 50 1 50
