-- ===== src/Mesh/SwapProtocol/Inv.antt =====
-- What the handlers keep between the pending swaps, the storage capacity and the chunks held.
use static.Common.{
  ℕ, ◌+◌, ◌≤◌, ◌<◌, ◌≡◌, ◌≢◌, refl, true, false, none, some, length, arith, u64_mod,
}
use static.HashMap.{HashMap, get, insert, remove, modify, Distinct}
use static.HashMap.Laws.{insert-Distinct, remove-Distinct, modify-Distinct}
use static.HashMap.Sums.{
  sum_of, sum_of-remove_present, sum_of-insert-le, sum_of-insert_absent, sum_of-modify, Every,
  remove-Every, insert-Every, modify-Every_at, get-Every,
}
use static.Storage.Holder.{ChunkHolder, encrypted_chunk_size, add_chunk, total_bytes}
use static.Storage.Swap.Capacity.{StorageCapacity, can_accept, reserve, release_reserved, reconcile}
use static.Storage.Swap.State.{PendingSwap}

-- A pending swap stands under its own id. Once it knows which chunk comes back, a chunk's size is
-- reserved for it, and what it has received has that size.
pub record IsBacked (k : ℕ) (w : PendingSwap) : Type 0 where
  pub keyed : w.proposal_id ≡ k
  pub known : w.their_chunk_id ≢ 0 → w.reserved_bytes ≡ encrypted_chunk_size
  pub reserved : w.received_their_chunk ≡ true → w.reserved_bytes ≡ encrypted_chunk_size
  pub full : w.received_their_chunk ≡ true → length w.their_chunk_data ≡ encrypted_chunk_size

abbrev pub reserved_for : HashMap PendingSwap → ℕ
reserved_for m = sum_of (λ w. w.reserved_bytes) m

-- The reservations of the pending swaps are covered by the capacity's, the bytes it counts are those
-- of the chunks held, and both together fit the maximum, `bound`, which leaves a word room for one more chunk.
pub record IsSound (bound : ℕ) (m : HashMap PendingSwap) (c : StorageCapacity) (h : ChunkHolder)
    : Type 0 where
  pub distinct : Distinct m
  pub chunks_distinct : Distinct h.chunks
  pub covered : reserved_for m ≤ c.reserved_bytes
  pub exact : c.current_bytes ≡ total_bytes h
  pub within : c.current_bytes + c.reserved_bytes ≤ c.max_bytes
  pub fixed : c.max_bytes ≡ bound
  pub room : c.max_bytes + encrypted_chunk_size < u64_mod
  pub backed : Every IsBacked m

module _ {bound : ℕ} (m : HashMap PendingSwap) (c : StorageCapacity) (h : ChunkHolder)
    (s : IsSound bound m c h) where
  -- A swap that goes gives its reservation back.
  pub release-IsSound :
      (k : ℕ) (w : PendingSwap)
      → get k m ≡ some w
      → IsSound bound (remove k m) (release_reserved c w.reserved_bytes false) h
  unfolding release_reserved
  release-IsSound k w e = record {
    distinct = remove-Distinct k m s.distinct;
    chunks_distinct = s.chunks_distinct;
    covered = omega (arith, s.covered, sum_of-remove_present (λ w. w.reserved_bytes) k w m e);
    exact = s.exact;
    within = omega (arith, s.within);
    fixed = s.fixed;
    room = s.room;
    backed = remove-Every IsBacked k m s.backed;
  }

  -- A swap that completes turns its reservation into stored bytes.
  pub store-IsSound :
      (k : ℕ) (w : PendingSwap)
      → get k m ≡ some w
      → w.received_their_chunk ≡ true
      → get w.their_chunk_id h.chunks ≡ none
      → IsSound bound
          (remove k m)
          (release_reserved c w.reserved_bytes true)
          (add_chunk h w.their_chunk_id w.their_chunk_data 0)
  unfolding release_reserved add_chunk total_bytes
  store-IsSound k w e r a =
      let b = get-Every IsBacked k w m e s.backed in
      let size = b.reserved r in
      let filled = b.full r in
      let gone = sum_of-remove_present (λ w. w.reserved_bytes) k w m e in
      let bytes = sum_of-insert_absent length w.their_chunk_id w.their_chunk_data h.chunks a in
      record {
        distinct = remove-Distinct k m s.distinct;
        chunks_distinct =
            insert-Distinct w.their_chunk_id w.their_chunk_data h.chunks s.chunks_distinct;
        covered = omega (arith, s.covered, gone);
        exact = omega (arith, s.exact, s.within, s.room, s.covered, size, filled, bytes, gone);
        within = omega (arith, s.within, s.room, s.covered, size, gone);
        fixed = s.fixed;
        room = s.room;
        backed = remove-Every IsBacked k m s.backed;
      }

  -- A reservation that the capacity admits, for a swap that starts.
  pub reserve-IsSound :
      (k peer_chunks : ℕ) (w : PendingSwap)
      → can_accept c encrypted_chunk_size peer_chunks ≡ true
      → w.reserved_bytes ≡ encrypted_chunk_size
      → IsBacked k w
      → IsSound bound (insert k w m) (reserve c encrypted_chunk_size) h
  unfolding reserve can_accept
  reserve-IsSound k peer_chunks w a size b =
      let grown = sum_of-insert-le (λ w. w.reserved_bytes) k w m in
      record {
        distinct = insert-Distinct k w m s.distinct;
        chunks_distinct = s.chunks_distinct;
        covered = omega (arith, s.covered, s.within, s.room, grown, size);
        exact = s.exact;
        within = ground (arith, s.within, s.room, a);
        fixed = s.fixed;
        room = s.room;
        backed = insert-Every IsBacked k w m b s.backed;
      }

  -- A reservation that the capacity admits, for a swap under way.
  pub reserve_for-IsSound :
      (k peer_chunks : ℕ) (g : PendingSwap → PendingSwap) (w : PendingSwap)
      → can_accept c encrypted_chunk_size peer_chunks ≡ true
      → get k m ≡ some w
      → (g w).reserved_bytes ≡ encrypted_chunk_size
      → IsBacked k (g w)
      → IsSound bound (modify k g m) (reserve c encrypted_chunk_size) h
  unfolding reserve can_accept
  reserve_for-IsSound k peer_chunks g w a e size b =
      let grown = sum_of-modify (λ w. w.reserved_bytes) k g w m e in
      record {
        distinct = modify-Distinct k g m s.distinct;
        chunks_distinct = s.chunks_distinct;
        covered = omega (arith, s.covered, s.within, s.room, grown, size);
        exact = s.exact;
        within = ground (arith, s.within, s.room, a);
        fixed = s.fixed;
        room = s.room;
        backed = modify-Every_at IsBacked k g w m e b s.backed;
      }

  -- A swap that starts without a reservation.
  pub insert-IsSound :
      (k : ℕ) (w : PendingSwap)
      → w.reserved_bytes ≡ 0
      → IsBacked k w
      → IsSound bound (insert k w m) c h
  insert-IsSound k w size b =
      let grown = sum_of-insert-le (λ w. w.reserved_bytes) k w m in
      record {
        distinct = insert-Distinct k w m s.distinct;
        covered = omega (arith, s.covered, grown, size);
        chunks_distinct = s.chunks_distinct;
        exact = s.exact;
        within = s.within;
        fixed = s.fixed;
        room = s.room;
        backed = insert-Every IsBacked k w m b s.backed;
      }

  -- A rewriting of one swap that keeps its reservation.
  pub modify-IsSound :
      (k : ℕ) (g : PendingSwap → PendingSwap) (w : PendingSwap)
      → get k m ≡ some w
      → (g w).reserved_bytes ≡ w.reserved_bytes
      → IsBacked k (g w)
      → IsSound bound (modify k g m) c h
  modify-IsSound k g w e size b =
      let grown = sum_of-modify (λ w. w.reserved_bytes) k g w m e in
      record {
        distinct = modify-Distinct k g m s.distinct;
        covered = omega (arith, s.covered, grown, size);
        chunks_distinct = s.chunks_distinct;
        exact = s.exact;
        within = s.within;
        fixed = s.fixed;
        room = s.room;
        backed = modify-Every_at IsBacked k g w m e b s.backed;
      }

  -- The capacity's count of stored bytes is right already.
  pub reconcile-IsSound : IsSound bound m (reconcile c (total_bytes h)) h
  unfolding reconcile
  reconcile-IsSound = record {
    distinct = s.distinct;
    chunks_distinct = s.chunks_distinct;
    covered = s.covered;
    exact = refl;
    within = omega (arith, s.within, s.exact);
    fixed = s.fixed;
    room = s.room;
    backed = s.backed;
  }
