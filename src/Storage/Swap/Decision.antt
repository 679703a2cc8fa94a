-- ===== src/Storage/Swap/Decision.antt =====
-- crates/static-storage/src/swap.rs: the checks before a proposal is accepted.
use static.Common.{ℕ, leb, if◌then◌else◌}
use static.Storage.Crypto.{Crypto}
use static.Storage.Lease.{is_lease_valid}
use static.Storage.Swap.Reasons.{
  Checked, accepted, rejected, invalid_lease, too_many_from_peer, no_capacity,
}
use static.Storage.Swap.Proposal.{SwapProposal, verify_content_signature}
use static.Storage.Swap.Capacity.{StorageCapacity, can_accept}

unfoldable pub validate_swap_proposal : Crypto → SwapProposal → ℕ → Checked
validate_swap_proposal c p current_time =
    if is_lease_valid p.lease current_time
    then verify_content_signature c p
    else rejected invalid_lease

unfoldable pub decide_on_swap : Crypto → SwapProposal → StorageCapacity → ℕ → ℕ → ℕ → Checked
decide_on_swap c p capacity peer_chunks expected_chunk_size current_time =
    elim (validate_swap_proposal c p current_time) [
      | rejected reason ↦ rejected reason
      | accepted ↦
          if can_accept capacity expected_chunk_size peer_chunks
          then accepted
          else if leb capacity.max_chunks_per_peer peer_chunks
          then rejected too_many_from_peer
          else rejected no_capacity
    ]
