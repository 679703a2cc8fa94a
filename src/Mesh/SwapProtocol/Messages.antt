-- ===== src/Mesh/SwapProtocol/Messages.antt =====
-- The signed messages, the retrieval of a chunk, and the timeout keep the invariant of `Inv`.
use static.Common.{
  ℕ, ◌≡◌, ◌≢◌, refl, inl, inr, Bool, true, false, not, ◌&&◌, Option, none, some, List, [], ◌∷◌,
  length, arith, ◌==◌, if◌then◌else◌, Bool-cases,
}
use static.HashMap.{HashMap, get, Distinct}
use static.HashMap.Sums.{Every, get-Every}
use static.Storage.Crypto.{Crypto}
use static.Storage.Holder.{encrypted_chunk_size}
use static.Storage.Swap.Accept as Accept
use static.Storage.Swap.Accept.{SwapAccept}
use static.Storage.Swap.Abort as Abort
use static.Storage.Swap.Abort.{SwapAbort}
use static.Storage.Swap.Commit as Commit
use static.Storage.Swap.Commit.{SwapCommit}
use static.Storage.Swap.Reasons.{SwapReject}
use static.Storage.Swap.State.{PendingSwap, remove_proposal, mark_commit_received}
use static.Mesh.SwapProtocol.{
  Node, Reply, note_peer_activity, release_aborted, is_with_peer, reserve_return, authenticate,
  handle_accept, finalize_swap_if_ready, handle_commit, handle_abort, handle_reject, waiting_for,
}
use static.Mesh.SwapProtocol.Inv.{IsBacked, modify-IsSound}
use static.Mesh.SwapProtocol.Steps.{
  Sound, release_aborted-Sound, finalize-Sound, authenticate-Sound, reserve_return-Sound,
}

is_with_peer-some :
    (sender : ℕ) (o : Option PendingSwap)
    → is_with_peer sender o ≡ true
    → (w : PendingSwap) × (o ≡ some w)
is_with_peer-some sender none e = absurd (ground (arith, e))
is_with_peer-some sender (some w) e = (w, refl)

marked-IsBacked :
    (k : ℕ) (w : PendingSwap) → IsBacked k w → IsBacked k (record w { received_commit = true })
marked-IsBacked k w b = record {
  keyed = b.keyed;
  known = b.known;
  reserved = b.reserved;
  full = b.full;
}

pub sent-IsBacked :
    (k : ℕ) (w : PendingSwap) → IsBacked k w → IsBacked k (record w { sent_commit = true })
sent-IsBacked k w b = record {
  keyed = b.keyed;
  known = b.known;
  reserved = b.reserved;
  full = b.full;
}

pub received-IsBacked :
    (k : ℕ) (w : PendingSwap) (bytes : List ℕ)
    → length bytes ≡ encrypted_chunk_size
    → w.their_chunk_id ≢ 0
    → IsBacked k w
    → IsBacked k (record w { their_chunk_data = bytes; received_their_chunk = true })
received-IsBacked k w bytes size known b = record {
  keyed = b.keyed;
  known = b.known;
  reserved = λ r. b.known known;
  full = λ r. size;
}

module _ (c : Crypto) where
  -- The swap that waits for a chunk is the entry of its own id.
  pub waiting_for-some :
      (chunk_id : ℕ) (m : HashMap PendingSwap) (w : PendingSwap)
      → Distinct m
      → Every IsBacked m
      → waiting_for c chunk_id m ≡ some w
      → (get w.proposal_id m ≡ some w) × (w.their_chunk_id ≡ chunk_id)
  unfolding waiting_for get
  waiting_for-some chunk_id [] w d b e = absurd (ground (arith, e))
  waiting_for-some chunk_id ((k, v) ∷ m) w d b e =
      elim (Bool-cases (not v.received_their_chunk && v.their_chunk_id == chunk_id)) [
        | inl here ↦ ground (arith, e, here, b.0.keyed)
        | inr on ↦ ground (arith, e, on, d.0, waiting_for-some chunk_id m w d.1 b.1)
      ]

  pub handle_reject-Sound :
      {bound : ℕ} (n : Node) (m : SwapReject) → Sound bound n → Sound bound (handle_reject c n m).0
  unfolding handle_reject remove_proposal
  handle_reject-Sound n m s = s

  accepted_turn :
      {bound : ℕ} (n : Node) (go : Bool) (a : SwapAccept) (fresh : ℕ)
      → Sound bound n
      → let r : Reply =
          if not go
          then (n, [])
          else if is_with_peer a.from_node (get a.proposal_id n.swaps.pending_swaps)
          then reserve_return c n a fresh
          else (n, []) in
        Sound bound r.0
  accepted_turn n false a fresh s = s
  accepted_turn n true a fresh s =
      elim (Bool-cases (is_with_peer a.from_node (get a.proposal_id n.swaps.pending_swaps))) [
        | inl e ↦
            let (w, found) =
              is_with_peer-some a.from_node (get a.proposal_id n.swaps.pending_swaps) e in
            rw e (reserve_return-Sound c n a w fresh found s)
        | inr e ↦ rw e s
      ]

  pub handle_accept-Sound :
      {bound : ℕ} (n : Node) (a : SwapAccept) (now fresh : ℕ)
      → Sound bound n
      → Sound bound (handle_accept c n a now fresh).0
  unfolding handle_accept note_peer_activity
  handle_accept-Sound n a now fresh s =
      let turn =
        authenticate c (note_peer_activity n a.from_node now) (Accept.verify_signature c a)
          a.from_node a.identity_public_key a.nonce now in
      accepted_turn turn.0 turn.1 a fresh (
        authenticate-Sound c (note_peer_activity n a.from_node now) (Accept.verify_signature c a)
          a.from_node a.identity_public_key a.nonce now s)

  commit_turn :
      {bound : ℕ} (n : Node) (go : Bool) (m : SwapCommit)
      → Sound bound n
      → let r : Reply =
          if not go
          then (n, [])
          else if is_with_peer m.from_node (get m.proposal_id n.swaps.pending_swaps)
          then (
            (finalize_swap_if_ready c
                (record n { swaps = (mark_commit_received n.swaps m.proposal_id).0 })
                m.proposal_id).0,
            [],
          )
          else (n, []) in
        Sound bound r.0
  unfolding mark_commit_received
  commit_turn n false m s = s
  commit_turn n true m s =
      elim (Bool-cases (is_with_peer m.from_node (get m.proposal_id n.swaps.pending_swaps))) [
        | inl e ↦
            let (w, found) =
              is_with_peer-some m.from_node (get m.proposal_id n.swaps.pending_swaps) e in
            rw e (
              finalize-Sound c (record n { swaps = (mark_commit_received n.swaps m.proposal_id).0 })
                m.proposal_id
                (modify-IsSound n.swaps.pending_swaps n.capacity n.holder s m.proposal_id
                  (λ v. record v { received_commit = true }) w found refl
                  (marked-IsBacked m.proposal_id w
                    (get-Every IsBacked m.proposal_id w n.swaps.pending_swaps found s.backed))))
        | inr e ↦ rw e s
      ]

  pub handle_commit-Sound :
      {bound : ℕ} (n : Node) (m : SwapCommit) (now : ℕ)
      → Sound bound n
      → Sound bound (handle_commit c n m now).0
  unfolding handle_commit note_peer_activity
  handle_commit-Sound n m now s =
      let turn =
        authenticate c (note_peer_activity n m.from_node now) (Commit.verify_signature c m)
          m.from_node m.identity_public_key m.nonce now in
      commit_turn turn.0 turn.1 m (
        authenticate-Sound c (note_peer_activity n m.from_node now) (Commit.verify_signature c m)
          m.from_node m.identity_public_key m.nonce now s)

  abort_turn :
      {bound : ℕ} (n : Node) (go : Bool) (m : SwapAbort)
      → Sound bound n
      → let r : Reply =
          if not go
          then (n, [])
          else if is_with_peer m.from_node (get m.proposal_id n.swaps.pending_swaps)
          then (release_aborted n m.proposal_id, [])
          else (record n { swaps = (remove_proposal n.swaps m.proposal_id).0 }, []) in
        Sound bound r.0
  unfolding remove_proposal
  abort_turn n false m s = s
  abort_turn n true m s =
      elim (Bool-cases (is_with_peer m.from_node (get m.proposal_id n.swaps.pending_swaps))) [
        | inl e ↦ rw e (release_aborted-Sound n m.proposal_id s)
        | inr e ↦ rw e s
      ]

  pub handle_abort-Sound :
      {bound : ℕ} (n : Node) (m : SwapAbort) (now : ℕ)
      → Sound bound n
      → Sound bound (handle_abort c n m now).0
  unfolding handle_abort note_peer_activity
  handle_abort-Sound n m now s =
      let turn =
        authenticate c (note_peer_activity n m.from_node now) (Abort.verify_signature c m)
          m.from_node m.identity_public_key m.nonce now in
      abort_turn turn.0 turn.1 m (
        authenticate-Sound c (note_peer_activity n m.from_node now) (Abort.verify_signature c m)
          m.from_node m.identity_public_key m.nonce now s)
