-- ===== src/Storage/Swap/State.antt =====
-- crates/static-storage/src/swap.rs, `SwapState`: proposals, pending swaps, and what became of them.
-- Counters are `u64`.
pub mod Bounds
pub mod Expiry
use static.Common.{
  ℕ, zero, suc, ◌+◌, ◌-◌, ◌≤◌, ◌<◌, Bool, true, false, not, ◌&&◌, Option, none, some, List, [], ◌∷◌,
  ◌++◌, length, add64, ltb, leb, if◌then◌else◌,
}
use static.HashMap.{HashMap, Pick, first_key, get, insert, remove, modify, contains_key}
use static.Storage.Crypto.{Crypto}
use static.Storage.Merkle.{MerkleProof}
use static.Storage.Swap.Proposal.{SwapProposal, proposal_id}

abbrev pub max_pending_swaps : ℕ
max_pending_swaps = 32

abbrev pub max_pending_proposals : ℕ
max_pending_proposals = 128

abbrev pub max_completed_swaps : ℕ
max_completed_swaps = 256

pub record PendingSwap : Type 0 where
  pub proposal_id : ℕ
  pub peer : ℕ
  pub our_chunk_id : ℕ
  pub their_chunk_id : ℕ
  pub their_chunk_data : List ℕ
  pub reserved_bytes : ℕ
  pub received_their_chunk : Bool
  pub retrieval_requested : Bool
  pub content_root : ℕ
  pub merkle_proof : MerkleProof
  pub sent_commit : Bool
  pub received_commit : Bool
  pub renewal_token : ℕ
  pub lease_expires_at : ℕ
  pub content_pub_key : ℕ
  pub started_at : ℕ

pub record SwapState : Type 0 where
  pub pending_proposals : HashMap SwapProposal
  pub pending_swaps : HashMap PendingSwap
  pub active_swaps : HashMap ℕ
  pub completed_swaps : List ℕ
  pub aborted_swaps : List ℕ
  pub total_swapped_bytes : ℕ
  pub successful_swaps : ℕ
  pub rejected_swaps : ℕ

unfoldable pub new : SwapState
new = record {
  pending_proposals = [];
  pending_swaps = [];
  active_swaps = [];
  completed_swaps = [];
  aborted_swaps = [];
  total_swapped_bytes = 0;
  successful_swaps = 0;
  rejected_swaps = 0;
}

-- The eviction of an entry that the iterator yields first, in a map that has reached its bound.
unfoldable pub make_room {ℓ} : {V : Type ℓ} → Pick → ℕ → HashMap V → HashMap V
make_room pick bound m =
    if leb bound (length m) then elim (first_key pick m) [ none ↦ m | some k ↦ remove k m ] else m

unfoldable pub record_proposal : Crypto → Pick → SwapState → SwapProposal → SwapState
record_proposal c pick s p = record s {
  pending_proposals =
      insert (proposal_id c p) p (make_room pick max_pending_proposals s.pending_proposals);
}

unfoldable pub remove_proposal : SwapState → ℕ → SwapState × Option SwapProposal
remove_proposal s id =
    (record s { pending_proposals = remove id s.pending_proposals }, get id s.pending_proposals)

unfoldable pub record_swap : SwapState → ℕ → ℕ → ℕ → SwapState
record_swap s chunk_id partner bytes = record s {
  active_swaps = insert chunk_id partner s.active_swaps;
  total_swapped_bytes = add64 s.total_swapped_bytes bytes;
  successful_swaps = add64 s.successful_swaps 1;
}

unfoldable pub remove_swap : SwapState → ℕ → SwapState × Option ℕ
remove_swap s chunk_id =
    (record s { active_swaps = remove chunk_id s.active_swaps }, get chunk_id s.active_swaps)

unfoldable pub start_pending_swap : SwapState → PendingSwap → SwapState
start_pending_swap s swap = record s {
  pending_swaps = insert swap.proposal_id swap s.pending_swaps;
}

unfoldable pub mark_chunk_received : SwapState → ℕ → SwapState
mark_chunk_received s id = record s {
  pending_swaps = modify id (λ w. record w { received_their_chunk = true }) s.pending_swaps;
}

unfoldable pub receive_their_chunk : SwapState → ℕ → List ℕ → SwapState × Bool
receive_their_chunk s id bytes = (
  record s {
    pending_swaps =
        modify id (λ w. record w { their_chunk_data = bytes; received_their_chunk = true })
          s.pending_swaps;
  },
  contains_key id s.pending_swaps,
)

unfoldable pub mark_retrieval_requested : SwapState → ℕ → SwapState
mark_retrieval_requested s id = record s {
  pending_swaps = modify id (λ w. record w { retrieval_requested = true }) s.pending_swaps;
}

unfoldable pub mark_commit_sent : SwapState → ℕ → SwapState
mark_commit_sent s id = record s {
  pending_swaps = modify id (λ w. record w { sent_commit = true }) s.pending_swaps;
}

unfoldable pub mark_commit_received : SwapState → ℕ → SwapState × Bool
mark_commit_received s id = (
  record s { pending_swaps = modify id (λ w. record w { received_commit = true }) s.pending_swaps },
  elim (get id s.pending_swaps) [ none ↦ false | some w ↦ w.sent_commit && w.received_their_chunk ],
)

-- `while v.len() > MAX_COMPLETED_SWAPS { v.remove(0); }`
unfoldable pub trim : List ℕ → List ℕ
trim [] = []
trim (id ∷ ids) = elim (ltb max_completed_swaps (length (id ∷ ids))) [
  | true ↦ trim ids
  | false ↦ id ∷ ids
]

unfoldable pub complete_swap : SwapState → ℕ → SwapState × Option PendingSwap
complete_swap s id = elim (get id s.pending_swaps) [
  | none ↦ (s, none)
  | some w ↦ (
    record s {
      pending_swaps = remove id s.pending_swaps;
      active_swaps = insert w.their_chunk_id w.peer s.active_swaps;
      successful_swaps = add64 s.successful_swaps 1;
      total_swapped_bytes = add64 s.total_swapped_bytes w.reserved_bytes;
      completed_swaps = trim (s.completed_swaps ++ (id ∷ []));
    },
    some w,
  )
]

unfoldable pub abort_swap : SwapState → ℕ → SwapState × Option PendingSwap
abort_swap s id = elim (get id s.pending_swaps) [
  | none ↦ (s, none)
  | some w ↦ (
    record s {
      pending_swaps = remove id s.pending_swaps;
      aborted_swaps = trim (s.aborted_swaps ++ (id ∷ []));
    },
    some w,
  )
]

-- The ids of the pending swaps that are older than the timeout, in the order of iteration.
unfoldable pub expired_ids : HashMap PendingSwap → ℕ → ℕ → List ℕ
expired_ids [] current_time timeout_secs = []
expired_ids ((id, w) ∷ m) current_time timeout_secs =
    let rest = expired_ids m current_time timeout_secs in
    if ltb timeout_secs (current_time - w.started_at) then id ∷ rest else rest

-- The closure of `filter_map`, run over the expired ids.
unfoldable pub expire_ids : SwapState → List ℕ → SwapState × List PendingSwap
expire_ids s [] = (s, [])
expire_ids s (id ∷ ids) =
    let s' = record s {
      pending_swaps = remove id s.pending_swaps;
      aborted_swaps = trim (s.aborted_swaps ++ (id ∷ []));
    } in
    let (s'', swaps) = expire_ids s' ids in
    (s'', elim (get id s.pending_swaps) [ none ↦ swaps | some w ↦ w ∷ swaps ])

unfoldable pub expire_pending_swaps : SwapState → ℕ → ℕ → SwapState × List PendingSwap
expire_pending_swaps s current_time timeout_secs =
    expire_ids s (expired_ids s.pending_swaps current_time timeout_secs)

pub record SwapStats : Type 0 where
  pub pending_count : ℕ
  pub active_count : ℕ
  pub total_swapped_bytes : ℕ
  pub successful_swaps : ℕ
  pub rejected_swaps : ℕ

unfoldable pub stats : SwapState → SwapStats
stats s = record {
  pending_count = length s.pending_proposals;
  active_count = length s.active_swaps;
  total_swapped_bytes = s.total_swapped_bytes;
  successful_swaps = s.successful_swaps;
  rejected_swaps = s.rejected_swaps;
}
