-- ===== src/Storage/Swap/Reasons.antt =====
-- crates/static-storage/src/swap.rs: why a swap is refused, and the refusal message.
use static.Common.{ℕ, Option, none, some, ◌==◌, if◌then◌else◌}

pub data SwapRejectReason : Type 0 where
  no_capacity too_many_from_peer invalid_chunk_size invalid_lease invalid_integrity_tag
        invalid_signature :
      SwapRejectReason

pub record SwapReject : Type 0 where
  pub from_node : ℕ
  pub proposal_id : ℕ
  pub reason : SwapRejectReason

-- `Ok(())` or the reason of a rejection.
pub data Checked : Type 0 where
  accepted : Checked
  rejected : SwapRejectReason → Checked

unfoldable pub create_swap_reject : ℕ → ℕ → SwapRejectReason → SwapReject
create_swap_reject from_node id reason = record {
  from_node = from_node;
  proposal_id = id;
  reason = reason;
}

-- `TryFrom<u8>`; any other byte is an error.
unfoldable pub reason_of_u8 : ℕ → Option SwapRejectReason
reason_of_u8 value =
    if value == 0
    then some no_capacity
    else if value == 1
    then some too_many_from_peer
    else if value == 2
    then some invalid_chunk_size
    else if value == 3
    then some invalid_lease
    else if value == 4
    then some invalid_integrity_tag
    else if value == 5
    then some invalid_signature
    else none
