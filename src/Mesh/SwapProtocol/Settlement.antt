-- ===== src/Mesh/SwapProtocol/Settlement.antt =====
-- What a commit does to a swap that is ready, and to one that is not: `finalize_swap_if_ready` of
-- crates/static-mesh/src/transport.rs.
use static.Common.{
  ℕ, ◌+◌, ◌-◌, ◌≡◌, refl, Bool, true, not, none, some, arith, add64, ==_refl, inl, inr, Bool-cases,
  if◌then◌else◌, false, ◌&&◌, ◌==◌, ap, ◌∙◌,
}
use static.HashMap.{HashMap, get}
use static.HashMap.Laws.{get-insert, get-remove}
use static.Storage.Crypto.{Crypto}
use static.Storage.Holder.{add_chunk, has_chunk}
use static.Storage.Swap.Capacity.{release_reserved}
use static.Storage.Swap.State.{SwapState, PendingSwap, complete_swap}
use static.Mesh.SwapProtocol.{Node, is_ready, finalize_swap_if_ready, settle, count_of}
use static.Mesh.SwapProtocol.Steps.{finalize_ready, finalize_not_ready, complete_swap_present}

-- The swap as the commit leaves it.
abbrev pub committed : PendingSwap → PendingSwap
committed w = record w { received_commit = true }

-- The chunks, the capacity, the counts and the leases are as they were.
abbrev pub Untouched : Node → Node → Type 0
Untouched n n' =
    (n'.holder ≡ n.holder)
    × (n'.capacity ≡ n.capacity)
    × (n'.peer_chunk_counts ≡ n.peer_chunk_counts)
    × (n'.lease_manager ≡ n.lease_manager)

-- The swap is gone and its reservation ended. If its chunk was held already, nothing else changes;
-- otherwise the chunk is held with the bytes that came in, the reserved bytes are stored bytes, and
-- one more chunk is counted for the peer.
abbrev pub Settles : Node → ℕ → PendingSwap → Node → Type 0
Settles n pid w n' =
    let is_new = not (has_chunk n.holder w.their_chunk_id) in
    (get pid n'.swaps.pending_swaps ≡ none)
    × (n'.capacity.reserved_bytes ≡ n.capacity.reserved_bytes - w.reserved_bytes)
    × (n'.capacity.current_bytes ≡ (
        if is_new
        then add64 n.capacity.current_bytes w.reserved_bytes
        else n.capacity.current_bytes))
    × ((id : ℕ)
        → get id n'.holder.chunks ≡ (
            if is_new && w.their_chunk_id == id
            then some w.their_chunk_data
            else get id n.holder.chunks))
    × ((peer : ℕ)
        → count_of peer n'.peer_chunk_counts ≡ (
            if is_new && w.peer == peer
            then count_of w.peer n.peer_chunk_counts + 1
            else count_of peer n.peer_chunk_counts))

-- The swap goes on, with the commit noted, and nothing is stored, counted or released.
abbrev pub Waits : Node → ℕ → PendingSwap → Node → Type 0
Waits n pid w n' = (get pid n'.swaps.pending_swaps ≡ some (committed w)) × Untouched n n'

-- What becomes of a swap by a commit, where it is ready or not.
abbrev pub Turn : Bool → Node → ℕ → PendingSwap → Node → Type 0
Turn true n pid w n' = Settles n pid w n'
Turn false n pid w n' = Waits n pid w n'

-- What a commit does is told by the chunks, the capacity and the counts before it.
pub Turn-same :
    (ready : Bool) (n : Node) (swaps : SwapState) (nonces activity : HashMap ℕ) (pid : ℕ)
    (w : PendingSwap) (n' : Node)
    → Turn ready
        (record n { swaps = swaps; maintenance_nonces = nonces; peer_activity = activity })
        pid
        w
        n'
    → Turn ready n pid w n'
Turn-same true n swaps nonces activity pid w n' t = t
Turn-same false n swaps nonces activity pid w n' t = t

module _ (c : Crypto) where
  settle-Settles :
      (n : Node) (pid : ℕ) (w : PendingSwap)
      → get pid n.swaps.pending_swaps ≡ none
      → Settles n pid w (settle c n w)
  unfolding settle add_chunk release_reserved
  settle-Settles n pid w gone = elim (Bool-cases (has_chunk n.holder w.their_chunk_id)) [
    | inl held ↦ rw held (gone, refl, refl, λ id. refl, λ peer. refl)
    | inr new ↦ rw new (
      gone,
      refl,
      refl,
      λ id. get-insert w.their_chunk_id id w.their_chunk_data n.holder.chunks,
      λ peer. ground (
        arith,
        get-insert w.peer peer (count_of w.peer n.peer_chunk_counts + 1) n.peer_chunk_counts,
      ),
    )
  ]

  pub finalize-Turn :
      (n : Node) (pid : ℕ) (w : PendingSwap) (ready : Bool)
      → get pid n.swaps.pending_swaps ≡ some (committed w)
      → is_ready c (some (committed w)) ≡ ready
      → Turn ready n pid w (finalize_swap_if_ready c n pid).0
  finalize-Turn n pid w true found ready =
      let gone : get pid (complete_swap n.swaps pid).0.pending_swaps ≡ none =
        rw (complete_swap_present c n.swaps pid (committed w) found)
          (ground (arith, ==_refl pid, get-remove pid pid n.swaps.pending_swaps)) in
      rw (finalize_ready c n pid (committed w) found ready)
        (settle-Settles (record n { swaps = (complete_swap n.swaps pid).0 }) pid (committed w) gone)
  finalize-Turn n pid w false found ready =
      rw (finalize_not_ready c n pid (ap (is_ready c) found ∙ ready))
        (found, (refl, refl, refl, refl))
