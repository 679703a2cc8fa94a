-- ===== src/Mesh/SwapProtocol/Steps.antt =====
-- Each handler keeps the invariant of `Inv`.
use static.Common.{
  ℕ, ◌≡◌, refl, inl, inr, Bool, true, false, none, some, [], ◌∷◌, ◌++◌, length, arith, ◌==◌, leb,
  Bool-cases, Option-cases, ◌⊎◌,
}
use static.HashMap.{Pick, get, insert, remove}
use static.HashMap.Sums.{get-Every}
use static.Storage.Crypto.{Crypto}
use static.Storage.Holder.{encrypted_chunk_size, has_chunk, total_bytes}
use static.Storage.Swap.Accept.{SwapAccept}
use static.Storage.Swap.Capacity.{StorageCapacity, can_accept, release_reserved}
use static.Storage.Swap.Capacity as Capacity
use static.Storage.Swap.Decision.{decide_on_swap}
use static.Storage.Swap.Proposal.{SwapProposal, proposal_id}
use static.Storage.Swap.Reasons.{Checked, accepted, rejected, no_capacity, SwapRejectReason}
use static.Storage.Swap.State.{
  trim, SwapState, PendingSwap, max_pending_swaps, remove_proposal, start_pending_swap,
  complete_swap, abort_swap,
}
use static.Mesh.SwapProtocol.{
  Node, note_peer_activity, check_maintenance_sender, release_aborted, begin_swap_proposal,
  count_of, answered, reject_with, prepare, reject_proposal, return_chunk, handle_proposal, adopt,
  reserve_return, authenticate, is_ready, settle, finalize_swap_if_ready,
}
use static.Mesh.SwapProtocol.Inv.{
  IsBacked, IsSound, release-IsSound, store-IsSound, reserve-IsSound, reserve_for-IsSound,
  insert-IsSound, reconcile-IsSound,
}

-- The invariant of a node that offers `bound` bytes.
abbrev pub Sound : ℕ → Node → Type 0
Sound bound n = IsSound bound n.swaps.pending_swaps n.capacity n.holder

release_aborted_absent :
    (n : Node) (pid : ℕ) → get pid n.swaps.pending_swaps ≡ none → release_aborted n pid ≡ n
unfolding release_aborted abort_swap
release_aborted_absent n pid e = ground (arith, e)

release_aborted_present :
    (n : Node) (pid : ℕ) (w : PendingSwap)
    → get pid n.swaps.pending_swaps ≡ some w
    → release_aborted n pid ≡ record n {
      swaps = record n.swaps {
        pending_swaps = remove pid n.swaps.pending_swaps;
        aborted_swaps = trim (n.swaps.aborted_swaps ++ (pid ∷ []));
      };
      capacity = release_reserved n.capacity w.reserved_bytes false;
    }
unfolding release_aborted abort_swap
release_aborted_present n pid w e = ground (arith, e)

-- An abort gives back what was reserved.
pub release_aborted-Sound :
    {bound : ℕ} (n : Node) (pid : ℕ) → Sound bound n → Sound bound (release_aborted n pid)
release_aborted-Sound n pid s = elim (Option-cases (get pid n.swaps.pending_swaps)) [
  | inl e ↦ rw (release_aborted_absent n pid e) s
  | inr (w, e) ↦
      rw (release_aborted_present n pid w e)
        (release-IsSound n.swaps.pending_swaps n.capacity n.holder s pid w e)
]

Checked-cases : (d : Checked) → (d ≡ accepted) ⊎ (r : SwapRejectReason) × (d ≡ rejected r)
Checked-cases accepted = inl refl
Checked-cases (rejected r) = inr (r, refl)

-- The node as a handler for a proposal finds it.
abbrev observed : Node → ℕ → ℕ → Node
observed n peer now = record n {
  peer_activity = insert peer now n.peer_activity;
  capacity = Capacity.reconcile n.capacity (total_bytes n.holder);
}

module _ (c : Crypto) where
  settle-Sound :
      {bound : ℕ} (n : Node) (pid : ℕ) (w : PendingSwap) (s : SwapState)
      → Sound bound n
      → get pid n.swaps.pending_swaps ≡ some w
      → w.received_their_chunk ≡ true
      → s.pending_swaps ≡ remove pid n.swaps.pending_swaps
      → Sound bound (settle c (record n { swaps = s }) w)
  unfolding settle has_chunk
  settle-Sound n pid w s v e r gone = elim (Option-cases (get w.their_chunk_id n.holder.chunks)) [
    | inl a ↦ rw (a, gone) (store-IsSound n.swaps.pending_swaps n.capacity n.holder v pid w e r a)
    | inr (d, a) ↦
        rw (a, gone) (release-IsSound n.swaps.pending_swaps n.capacity n.holder v pid w e)
  ]

  pub complete_swap_present :
      (s : SwapState) (pid : ℕ) (w : PendingSwap)
      → get pid s.pending_swaps ≡ some w
      → (complete_swap s pid).0.pending_swaps ≡ remove pid s.pending_swaps
  unfolding complete_swap
  complete_swap_present s pid w e = ground (arith, e)

  pub finalize_not_ready :
      (n : Node) (pid : ℕ)
      → is_ready c (get pid n.swaps.pending_swaps) ≡ false
      → finalize_swap_if_ready c n pid ≡ (n, false)
  unfolding finalize_swap_if_ready
  finalize_not_ready n pid e = ground (arith, e)

  pub finalize_ready :
      (n : Node) (pid : ℕ) (w : PendingSwap)
      → get pid n.swaps.pending_swaps ≡ some w
      → is_ready c (some w) ≡ true
      → finalize_swap_if_ready c n pid
        ≡ (settle c (record n { swaps = (complete_swap n.swaps pid).0 }) w, true)
  unfolding finalize_swap_if_ready complete_swap
  finalize_ready n pid w e r = ground (arith, e, r)

  pub finalize-Sound :
      {bound : ℕ} (n : Node) (pid : ℕ)
      → Sound bound n
      → Sound bound (finalize_swap_if_ready c n pid).0
  finalize-Sound n pid v = elim (Option-cases (get pid n.swaps.pending_swaps)) [
    | inl e ↦ rw (finalize_not_ready n pid (ground (arith, e))) v
    | inr (w, e) ↦ elim (Bool-cases (is_ready c (some w))) [
      | inl r ↦ rw (finalize_ready n pid w e r) (
          settle-Sound n pid w (complete_swap n.swaps pid).0 v e (ground (arith, r))
            (complete_swap_present n.swaps pid w e))
      | inr r ↦ rw (finalize_not_ready n pid (ground (arith, e, r))) v
    ]
  ]

  pub begin_swap_proposal-Sound :
      {bound : ℕ} (n : Node) (peer : ℕ) (p : SwapProposal) (now : ℕ)
      → Sound bound n
      → Sound bound (begin_swap_proposal c n peer p now).0
  unfolding begin_swap_proposal start_pending_swap
  begin_swap_proposal-Sound n peer p now s =
      insert-IsSound n.swaps.pending_swaps n.capacity n.holder s (proposal_id c p) _ refl (record {
        keyed = refl;
        known = λ h. absurd (h refl);
        reserved = λ h. absurd (ground (arith, h));
        full = λ h. absurd (ground (arith, h));
      })

  answered-IsBacked :
      (p : SwapProposal) (ret_id now : ℕ) → IsBacked (proposal_id c p) (answered c p ret_id now)
  answered-IsBacked p ret_id now = record {
    keyed = refl;
    known = λ h. refl;
    reserved = λ h. refl;
    full = λ h. absurd (ground (arith, h));
  }

  prepare-Sound :
      {bound : ℕ} (n : Node) (p : SwapProposal) (ret_id now fresh : ℕ)
      → Sound bound n
      → Sound bound (prepare c n p ret_id now fresh).0
  unfolding prepare start_pending_swap remove_proposal
  prepare-Sound n p ret_id now fresh s =
      elim (Bool-cases (leb max_pending_swaps (length n.swaps.pending_swaps))) [
        | inl e ↦ rw e s
        | inr e ↦
            rw e
              (elim (Bool-cases (
                can_accept n.capacity encrypted_chunk_size
                  (count_of p.from_node n.peer_chunk_counts))) [
                    | inl a ↦ rw a (
                        reserve-IsSound n.swaps.pending_swaps n.capacity n.holder s
                          (proposal_id c p) (count_of p.from_node n.peer_chunk_counts)
                          (answered c p ret_id now) a refl (answered-IsBacked p ret_id now))
                    | inr a ↦ rw a s
                  ])
      ]

  handle_proposal_rejected :
      (pick : Pick) (n : Node) (p : SwapProposal) (now fresh : ℕ) (r : SwapRejectReason)
      → let m = observed n p.from_node now in
        decide_on_swap c p m.capacity
            (count_of p.from_node m.peer_chunk_counts)
            encrypted_chunk_size
            now
          ≡ rejected r
        → handle_proposal c pick n p now fresh ≡ reject_proposal c m p r
  unfolding handle_proposal note_peer_activity
  handle_proposal_rejected pick n p now fresh r e = ground (arith, e)

  handle_proposal_accepted :
      (pick : Pick) (n : Node) (p : SwapProposal) (now fresh : ℕ)
      → let m = observed n p.from_node now in
        decide_on_swap c p m.capacity
            (count_of p.from_node m.peer_chunk_counts)
            encrypted_chunk_size
            now
          ≡ accepted
        → handle_proposal c pick n p now fresh ≡ (elim (return_chunk c pick m p) [
          | none ↦ (m, reject_with c m p no_capacity)
          | some ret_id ↦ prepare c m p ret_id now fresh
        ])
  unfolding handle_proposal note_peer_activity
  handle_proposal_accepted pick n p now fresh e = ground (arith, e)

  pub handle_proposal-Sound :
      {bound : ℕ} (pick : Pick) (n : Node) (p : SwapProposal) (now fresh : ℕ)
      → Sound bound n
      → Sound bound (handle_proposal c pick n p now fresh).0
  unfolding reject_proposal remove_proposal
  handle_proposal-Sound pick n p now fresh s =
      let m = observed n p.from_node now in
      let sound = reconcile-IsSound n.swaps.pending_swaps n.capacity n.holder s in
      elim (Checked-cases (
        decide_on_swap c p m.capacity (count_of p.from_node m.peer_chunk_counts)
          encrypted_chunk_size now)) [
            | inr (r, e) ↦ rw (handle_proposal_rejected pick n p now fresh r e) sound
            | inl e ↦
                rw (handle_proposal_accepted pick n p now fresh e)
                  (elim (Option-cases (return_chunk c pick m p)) [
                    | inl none_held ↦ rw none_held sound
                    | inr (ret_id, held) ↦ rw held (prepare-Sound m p ret_id now fresh sound)
                  ])
          ]

  pub authenticate-Sound :
      {bound : ℕ} (n : Node) (signed : Bool) (sender identity nonce now : ℕ)
      → Sound bound n
      → Sound bound (authenticate c n signed sender identity nonce now).0
  unfolding authenticate
  authenticate-Sound n signed sender identity nonce now s = elim (Bool-cases signed) [
    | inr e ↦ rw e s
    | inl e ↦ rw e (elim (Bool-cases (check_maintenance_sender n sender identity)) [
      | inr wrong ↦ rw wrong s
      | inl right ↦ rw right s
    ])
  ]

  adopt-IsBacked :
      (a : SwapAccept) (k : ℕ) (w : PendingSwap) → IsBacked k w → IsBacked k (adopt c a w)
  adopt-IsBacked a k w b = elim (Bool-cases (a.return_content_root == 0)) [
    | inl e ↦
        rw e (record { keyed = b.keyed; known = λ h. refl; reserved = λ h. refl; full = b.full })
    | inr e ↦
        rw e (record { keyed = b.keyed; known = λ h. refl; reserved = λ h. refl; full = b.full })
  ]

  pub reserved-adopt :
      (a : SwapAccept) (w : PendingSwap) → (adopt c a w).reserved_bytes ≡ encrypted_chunk_size
  reserved-adopt a w = elim (Bool-cases (a.return_content_root == 0)) [
    | inl e ↦ rw e refl
    | inr e ↦ rw e refl
  ]

  pub reserve_return-Sound :
      {bound : ℕ} (n : Node) (a : SwapAccept) (w : PendingSwap) (fresh : ℕ)
      → get a.proposal_id n.swaps.pending_swaps ≡ some w
      → Sound bound n
      → Sound bound (reserve_return c n a fresh).0
  unfolding reserve_return
  reserve_return-Sound n a w fresh e s =
      elim (Bool-cases (can_accept n.capacity encrypted_chunk_size 0)) [
        | inl admitted ↦ rw admitted (
            reserve_for-IsSound n.swaps.pending_swaps n.capacity n.holder s a.proposal_id 0
              (adopt c a) w admitted e (reserved-adopt a w)
              (adopt-IsBacked a a.proposal_id w
                (get-Every IsBacked a.proposal_id w n.swaps.pending_swaps e s.backed)))
        | inr full ↦ rw full (release_aborted-Sound n a.proposal_id s)
      ]
