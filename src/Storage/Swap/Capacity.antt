-- ===== src/Storage/Swap/Capacity.antt =====
-- crates/static-storage/src/swap.rs, `StorageCapacity`: how many bytes a node stores for others, and
-- how many it holds in reserve for swaps under way. Counters are `u64`.
use static.Common.{ℕ, ◌-◌, Bool, true, false, add64, ltb, leb, if◌then◌else◌}

pub record StorageCapacity : Type 0 where
  pub max_bytes : ℕ
  pub current_bytes : ℕ
  pub reserved_bytes : ℕ
  pub max_chunks_per_peer : ℕ

unfoldable pub new : ℕ → StorageCapacity
new max_bytes = record {
  max_bytes = max_bytes;
  current_bytes = 0;
  reserved_bytes = 0;
  max_chunks_per_peer = 100;
}

unfoldable pub can_accept : StorageCapacity → ℕ → ℕ → Bool
can_accept c chunk_size peer_chunks =
    if ltb c.max_bytes (add64 (add64 c.current_bytes c.reserved_bytes) chunk_size)
    then false
    else if leb c.max_chunks_per_peer peer_chunks
    then false
    else true

unfoldable pub record_accept : StorageCapacity → ℕ → StorageCapacity
record_accept c chunk_size = record c { current_bytes = add64 c.current_bytes chunk_size }

unfoldable pub record_remove : StorageCapacity → ℕ → StorageCapacity
record_remove c chunk_size = record c { current_bytes = c.current_bytes - chunk_size }

unfoldable pub reserve : StorageCapacity → ℕ → StorageCapacity
reserve c chunk_size = record c { reserved_bytes = add64 c.reserved_bytes chunk_size }

unfoldable pub release_reserved : StorageCapacity → ℕ → Bool → StorageCapacity
release_reserved c chunk_size store =
    let released = record c { reserved_bytes = c.reserved_bytes - chunk_size } in
    if store then record released { current_bytes = add64 c.current_bytes chunk_size } else released

unfoldable pub reconcile : StorageCapacity → ℕ → StorageCapacity
reconcile c actual_bytes = record c { current_bytes = actual_bytes }
