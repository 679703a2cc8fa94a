-- ===== src/Storage/Swap/State/Bounds.antt =====
-- The bounds that `SwapState` keeps on what it remembers: crates/static-storage/src/swap.rs.
use static.Common.{
  ℕ, ◌≤◌, ◌<◌, inl, inr, List, [], ◌∷◌, ◌++◌, length, arith, leb, Bool-cases, Option-cases,
}
use static.HashMap.{HashMap, Pick, first_key, get, remove, Distinct}
use static.HashMap.Laws.{
  first_key-some, length-remove-lt, length-remove-le, length-insert-le, insert-Distinct,
  remove-Distinct,
}
use static.Storage.Crypto.{Crypto}
use static.Storage.Swap.Proposal.{SwapProposal, proposal_id}
use static.Storage.Swap.State.{
  SwapState, PendingSwap, max_pending_proposals, max_completed_swaps, make_room, record_proposal,
  trim, complete_swap, abort_swap, remove_proposal, expired_ids, expire_ids, expire_pending_swaps,
  start_pending_swap, receive_their_chunk, mark_commit_sent, mark_commit_received,
  mark_retrieval_requested, mark_chunk_received, record_swap, remove_swap,
}

pub record IsBounded (s : SwapState) : Type 0 where
  pub distinct : Distinct s.pending_proposals
  pub proposals : length s.pending_proposals ≤ max_pending_proposals
  pub completed : length s.completed_swaps ≤ max_completed_swaps
  pub aborted : length s.aborted_swaps ≤ max_completed_swaps

length-make_room :
    (pick : Pick) (bound : ℕ) (m : HashMap SwapProposal)
    → 0 < bound
    → length m ≤ bound
    → length (make_room pick bound m) < bound
unfolding make_room
length-make_room pick bound m h l = elim (Bool-cases (leb bound (length m))) [
  | inr room ↦ rw room (ground (arith, room))
  | inl full ↦
      let (k, e, p) = first_key-some pick m (ground (arith, full)) in
      elim (Option-cases (get k m)) [
        | inl missing ↦ absurd (p missing)
        | inr (v, found) ↦ rw (full, e) (omega (arith, l, length-remove-lt k v m found))
      ]
]

make_room-Distinct :
    (pick : Pick) (bound : ℕ) (m : HashMap SwapProposal)
    → Distinct m
    → Distinct (make_room pick bound m)
unfolding make_room
make_room-Distinct pick bound m d = elim (Bool-cases (leb bound (length m))) [
  | inr room ↦ rw room d
  | inl full ↦ elim (Option-cases (first_key pick m)) [
    | inl e ↦ rw (full, e) d
    | inr (k, e) ↦ rw (full, e) (remove-Distinct k m d)
  ]
]

length-trim : (ids : List ℕ) → length (trim ids) ≤ max_completed_swaps
unfolding trim
length-trim [] = omega arith
length-trim (id ∷ ids) = ground (arith, length-trim ids)

complete_swap-IsBounded : (s : SwapState) (id : ℕ) → IsBounded s → IsBounded (complete_swap s id).0
unfolding complete_swap
complete_swap-IsBounded s id b = ground (
  arith,
  b.distinct,
  b.proposals,
  b.completed,
  b.aborted,
  length-trim (s.completed_swaps ++ (id ∷ [])),
)

abort_swap-IsBounded : (s : SwapState) (id : ℕ) → IsBounded s → IsBounded (abort_swap s id).0
unfolding abort_swap
abort_swap-IsBounded s id b = ground (
  arith,
  b.distinct,
  b.proposals,
  b.completed,
  b.aborted,
  length-trim (s.aborted_swaps ++ (id ∷ [])),
)

record_proposal-IsBounded :
    (c : Crypto) (pick : Pick) (s : SwapState) (p : SwapProposal)
    → IsBounded s
    → IsBounded (record_proposal c pick s p)
unfolding record_proposal
record_proposal-IsBounded c pick s p b =
    let room = make_room pick max_pending_proposals s.pending_proposals in
    record {
      distinct =
          insert-Distinct (proposal_id c p) p room
            (make_room-Distinct pick max_pending_proposals s.pending_proposals b.distinct);
      proposals = omega (
        arith,
        length-insert-le (proposal_id c p) p room,
        length-make_room pick max_pending_proposals s.pending_proposals (omega arith) b.proposals,
      );
      completed = b.completed;
      aborted = b.aborted;
    }

expire_ids-IsBounded : (s : SwapState) (ids : List ℕ) → IsBounded s → IsBounded (expire_ids s ids).0
unfolding expire_ids
expire_ids-IsBounded s [] b = b
expire_ids-IsBounded s (id ∷ ids) b =
    expire_ids-IsBounded
      (record s {
        pending_swaps = remove id s.pending_swaps;
        aborted_swaps = trim (s.aborted_swaps ++ (id ∷ []));
      })
      ids
      (record {
        distinct = b.distinct;
        proposals = b.proposals;
        completed = b.completed;
        aborted = length-trim (s.aborted_swaps ++ (id ∷ []));
      })

-- The calls that change a `SwapState`.
pub data Call : Type 0 where
  records : Pick → SwapProposal → Call
  removes : ℕ → Call
  completes : ℕ → Call
  aborts : ℕ → Call
  times_out : ℕ → ℕ → Call
  starts : PendingSwap → Call
  receives : ℕ → List ℕ → Call
  sends_commit : ℕ → Call
  gets_commit : ℕ → Call
  requests : ℕ → Call
  marks : ℕ → Call
  tracks : ℕ → ℕ → ℕ → Call
  forgets : ℕ → Call

module _ (c : Crypto) where
  unfoldable pub step : SwapState → Call → SwapState
  step s (records pick p) = record_proposal c pick s p
  step s (removes id) = (remove_proposal s id).0
  step s (completes id) = (complete_swap s id).0
  step s (aborts id) = (abort_swap s id).0
  step s (times_out current_time timeout_secs) =
      (expire_pending_swaps s current_time timeout_secs).0
  step s (starts swap) = start_pending_swap s swap
  step s (receives id bytes) = (receive_their_chunk s id bytes).0
  step s (sends_commit id) = mark_commit_sent s id
  step s (gets_commit id) = (mark_commit_received s id).0
  step s (requests id) = mark_retrieval_requested s id
  step s (marks id) = mark_chunk_received s id
  step s (tracks chunk_id partner bytes) = record_swap s chunk_id partner bytes
  step s (forgets chunk_id) = (remove_swap s chunk_id).0

  unfoldable pub run : SwapState → List Call → SwapState
  run s [] = s
  run s (call ∷ calls) = run (step s call) calls

  -- A change of the pending swaps alone.
  pending_swaps-IsBounded :
      (s : SwapState) (swaps : HashMap PendingSwap)
      → IsBounded s
      → IsBounded (record s { pending_swaps = swaps })
  pending_swaps-IsBounded s swaps b = record {
    distinct = b.distinct;
    proposals = b.proposals;
    completed = b.completed;
    aborted = b.aborted;
  }

  step-IsBounded : (s : SwapState) (call : Call) → IsBounded s → IsBounded (step s call)
  unfolding step remove_proposal expire_pending_swaps start_pending_swap receive_their_chunk
      mark_commit_sent mark_commit_received mark_retrieval_requested mark_chunk_received record_swap
      remove_swap
  step-IsBounded s (records pick p) b = record_proposal-IsBounded c pick s p b
  step-IsBounded s (removes id) b = record {
    distinct = remove-Distinct id s.pending_proposals b.distinct;
    proposals = omega (arith, b.proposals, length-remove-le id s.pending_proposals);
    completed = b.completed;
    aborted = b.aborted;
  }
  step-IsBounded s (completes id) b = complete_swap-IsBounded s id b
  step-IsBounded s (aborts id) b = abort_swap-IsBounded s id b
  step-IsBounded s (times_out current_time timeout_secs) b =
      expire_ids-IsBounded s (expired_ids s.pending_swaps current_time timeout_secs) b
  step-IsBounded s (starts swap) b = pending_swaps-IsBounded s _ b
  step-IsBounded s (receives id bytes) b = pending_swaps-IsBounded s _ b
  step-IsBounded s (sends_commit id) b = pending_swaps-IsBounded s _ b
  step-IsBounded s (gets_commit id) b = pending_swaps-IsBounded s _ b
  step-IsBounded s (requests id) b = pending_swaps-IsBounded s _ b
  step-IsBounded s (marks id) b = pending_swaps-IsBounded s _ b
  step-IsBounded s (tracks chunk_id partner bytes) b = record {
    distinct = b.distinct;
    proposals = b.proposals;
    completed = b.completed;
    aborted = b.aborted;
  }
  step-IsBounded s (forgets chunk_id) b = record {
    distinct = b.distinct;
    proposals = b.proposals;
    completed = b.completed;
    aborted = b.aborted;
  }

  -- Whatever calls follow one another, expiries included, a state within the bounds stays within them:
  -- at most 128 proposals, each under its own id, and at most 256 of the completed and of the aborted
  -- swaps, whichever proposal is evicted.
  pub swap_state-IsBounded :
      (s : SwapState) (calls : List Call) → IsBounded s → IsBounded (run s calls)
  unfolding run
  swap_state-IsBounded s [] b = b
  swap_state-IsBounded s (call ∷ calls) b =
      swap_state-IsBounded (step s call) calls (step-IsBounded s call b)
