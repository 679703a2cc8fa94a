-- ===== src/Mesh/SwapProtocol/Leak.antt =====
-- A second accept for a swap that has its reservation already.
use static.Common.{
  ℕ, ◌+◌, ◌<◌, ◌≡◌, refl, Bool, true, some, [], arith, u64_mod, if◌then◌else◌, not, ◌∙◌, ap, inl,
  inr, Bool-cases,
}
use static.HashMap.{get}
use static.HashMap.Sums.{sum_of-modify}
use static.Storage.Crypto.{Crypto}
use static.Storage.Holder.{encrypted_chunk_size}
use static.Storage.Swap.Accept as Accept
use static.Storage.Swap.Accept.{SwapAccept}
use static.Storage.Swap.Capacity.{StorageCapacity, can_accept, reserve}
use static.Storage.Swap.State.{SwapState, PendingSwap}
use static.Mesh.SwapProtocol.{
  Node, Reply, is_with_peer, handle_accept, reserve_return, authenticate, adopt, note_peer_activity,
  check_maintenance_sender,
}
use static.Mesh.SwapProtocol.Inv.{reserved_for}
use static.Mesh.SwapProtocol.Steps.{reserved-adopt}

module _ (c : Crypto) where
  reserve_return_again :
      (n : Node) (a : SwapAccept) (w : PendingSwap) (fresh : ℕ)
      → get a.proposal_id n.swaps.pending_swaps ≡ some w
      → w.reserved_bytes ≡ encrypted_chunk_size
      → can_accept n.capacity encrypted_chunk_size 0 ≡ true
      → n.capacity.reserved_bytes + encrypted_chunk_size < u64_mod
      → let n' = (reserve_return c n a fresh).0 in
        (n'.capacity.reserved_bytes ≡ n.capacity.reserved_bytes + encrypted_chunk_size)
        × (reserved_for n'.swaps.pending_swaps ≡ reserved_for n.swaps.pending_swaps)
  unfolding reserve_return reserve
  reserve_return_again n a w fresh e size fits room =
      let moved =
        sum_of-modify (λ v. v.reserved_bytes) a.proposal_id (adopt c a) w n.swaps.pending_swaps e in
      let now = reserved-adopt c a w in rw fits (omega arith, omega (arith, moved, now, size))

  authenticate_keeps :
      (n : Node) (signed : Bool) (sender identity nonce now : ℕ)
      → let m = (authenticate c n signed sender identity nonce now).0 in
        (m.swaps ≡ n.swaps) × (m.capacity ≡ n.capacity)
  unfolding authenticate
  authenticate_keeps n signed sender identity nonce now = elim (Bool-cases signed) [
    | inr e ↦ rw e (refl, refl)
    | inl e ↦ rw e (elim (Bool-cases (check_maintenance_sender n sender identity)) [
      | inr wrong ↦ rw wrong (refl, refl)
      | inl right ↦ rw right (refl, refl)
    ])
  ]

  go_on :
      (n : Node) (go : Bool) (a : SwapAccept) (fresh : ℕ)
      → go ≡ true
      → is_with_peer a.from_node (get a.proposal_id n.swaps.pending_swaps) ≡ true
      → let r : Reply =
          if not go
          then (n, [])
          else if is_with_peer a.from_node (get a.proposal_id n.swaps.pending_swaps)
          then reserve_return c n a fresh
          else (n, []) in
        r ≡ reserve_return c n a fresh
  go_on n go a fresh e p = rw (e, p) refl

  -- An authentic accept from the peer of a pending swap that holds a chunk's reservation already, when
  -- the node has room: the node reserves another chunk, while what its pending swaps have reserved, all
  -- that is ever released, stays the same.
  pub second_accept_leaks :
      (n : Node) (a : SwapAccept) (w : PendingSwap) (now fresh : ℕ)
      → (authenticate c
          (note_peer_activity n a.from_node now)
          (Accept.verify_signature c a)
          a.from_node
          a.identity_public_key
          a.nonce
          now).1
        ≡ true
      → get a.proposal_id n.swaps.pending_swaps ≡ some w
      → w.peer ≡ a.from_node
      → w.reserved_bytes ≡ encrypted_chunk_size
      → can_accept n.capacity encrypted_chunk_size 0 ≡ true
      → n.capacity.reserved_bytes + encrypted_chunk_size < u64_mod
      → let n' = (handle_accept c n a now fresh).0 in
        (n'.capacity.reserved_bytes ≡ n.capacity.reserved_bytes + encrypted_chunk_size)
        × (reserved_for n'.swaps.pending_swaps ≡ reserved_for n.swaps.pending_swaps)
  unfolding handle_accept note_peer_activity
  second_accept_leaks n a w now fresh authentic e peer size fits room =
      let turn =
        authenticate c (note_peer_activity n a.from_node now) (Accept.verify_signature c a)
          a.from_node a.identity_public_key a.nonce now in
      let (kept, counted) =
        authenticate_keeps (note_peer_activity n a.from_node now) (Accept.verify_signature c a)
          a.from_node a.identity_public_key a.nonce now in
      let swaps : turn.0.swaps ≡ n.swaps = kept in
      let capacity : turn.0.capacity ≡ n.capacity = counted in
      let found : get a.proposal_id turn.0.swaps.pending_swaps ≡ some w = rw swaps e in
      let (more, same) =
        reserve_return_again turn.0 a w fresh found size (rw capacity fits) (rw capacity room) in
      rw (go_on turn.0 turn.1 a fresh authentic (rw found (ground (arith, peer)))) (
        more ∙ ap (λ (q : StorageCapacity). q.reserved_bytes + encrypted_chunk_size) capacity,
        same ∙ ap (λ (q : SwapState). reserved_for q.pending_swaps) swaps,
      )
