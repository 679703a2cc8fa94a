-- ===== src/Mesh/SwapProtocol/Timers.antt =====
-- The retrieval of a chunk and the timeout keep the invariant of `Inv`.
use static.Common.{
  ℕ, ◌≡◌, ◌≢◌, refl, sym, ◌∙◌, inl, inr, Bool, true, false, not, ◌&&◌, Option, none, some, List, [],
  ◌∷◌, length, arith, ◌==◌, ==_refl, if◌then◌else◌, Bool-cases, Option-cases, ◌++◌,
}
use static.HashMap.{get, remove}
use static.HashMap.Laws.{get-modify, remove_absent}
use static.HashMap.Sums.{get-Every}
use static.Storage.Crypto.{Crypto}
use static.Storage.Holder.{encrypted_chunk_size}
use static.Storage.Merkle.{verify_chunk}
use static.Storage.Swap.Capacity.{release_reserved}
use static.Storage.Swap.State.{
  SwapState, PendingSwap, receive_their_chunk, trim, mark_commit_sent, expire_pending_swaps,
  expire_ids, expired_ids,
}
use static.Mesh.SwapProtocol.{
  Node, finalize_swap_if_ready, waiting_for, buffer_chunk, handle_chunk_retrieval, release_expired,
  expire,
}
use static.Mesh.SwapProtocol.Inv.{IsBacked, release-IsSound, modify-IsSound}
use static.Mesh.SwapProtocol.Steps.{Sound, release_aborted-Sound, finalize-Sound}
use static.Mesh.SwapProtocol.Messages.{received-IsBacked, sent-IsBacked, waiting_for-some}

mark_commit_sent-Sound :
    {bound : ℕ} (n : Node) (pid : ℕ) (w : PendingSwap)
    → get pid n.swaps.pending_swaps ≡ some w
    → Sound bound n
    → Sound bound (record n { swaps = mark_commit_sent n.swaps pid })
unfolding mark_commit_sent
mark_commit_sent-Sound n pid w e s =
    modify-IsSound n.swaps.pending_swaps n.capacity n.holder s pid
      (λ v. record v { sent_commit = true }) w e refl
      (sent-IsBacked pid w (get-Every IsBacked pid w n.swaps.pending_swaps e s.backed))

-- The map after a chunk has come in.
abbrev buffered : Node → PendingSwap → List ℕ → Node
buffered n w bytes = record n { swaps = (receive_their_chunk n.swaps w.proposal_id bytes).0 }

module _ {bound : ℕ} (n : Node) (w : PendingSwap) (bytes : List ℕ)
    (found : get w.proposal_id n.swaps.pending_swaps ≡ some w)
    (size : length bytes ≡ encrypted_chunk_size) (known : w.their_chunk_id ≢ 0)
    (s : Sound bound n) where
  buffered-Sound : Sound bound (buffered n w bytes)
  unfolding receive_their_chunk
  buffered-Sound =
      modify-IsSound n.swaps.pending_swaps n.capacity n.holder s w.proposal_id
        (λ v. record v { their_chunk_data = bytes; received_their_chunk = true }) w found refl
        (received-IsBacked w.proposal_id w bytes size known
          (get-Every IsBacked w.proposal_id w n.swaps.pending_swaps found s.backed))

  get-buffered :
      get w.proposal_id (buffered n w bytes).swaps.pending_swaps
      ≡ some (record w { their_chunk_data = bytes; received_their_chunk = true })
  unfolding receive_their_chunk
  get-buffered = ground (
    arith,
    found,
    ==_refl w.proposal_id,
    get-modify w.proposal_id w.proposal_id
        (λ v. record v { their_chunk_data = bytes; received_their_chunk = true }) w
        n.swaps.pending_swaps found,
  )

  committed : Bool → SwapState
  committed already =
      let s = (buffered n w bytes).swaps in if already then s else mark_commit_sent s w.proposal_id

  committed-Sound : (already : Bool) → Sound bound (record n { swaps = committed already })
  unfolding committed
  committed-Sound true = buffered-Sound
  committed-Sound false =
      mark_commit_sent-Sound (buffered n w bytes) w.proposal_id
        (record w { their_chunk_data = bytes; received_their_chunk = true }) get-buffered
        buffered-Sound

  buffer_chunk_stored :
      (c : Crypto) (fresh : ℕ)
      → (buffer_chunk c n w bytes fresh).0.0
        ≡ (finalize_swap_if_ready c (record n { swaps = committed w.sent_commit }) w.proposal_id).0
  unfolding buffer_chunk committed receive_their_chunk
  buffer_chunk_stored c fresh = ground (arith, found, get-buffered)

  buffer_chunk-Sound : (c : Crypto) (fresh : ℕ) → Sound bound (buffer_chunk c n w bytes fresh).0.0
  buffer_chunk-Sound c fresh = rw (buffer_chunk_stored c fresh) (
      finalize-Sound c (record n { swaps = committed w.sent_commit }) w.proposal_id
        (committed-Sound w.sent_commit))

abbrev without_key : Node → ℕ → SwapState
without_key n k = record n.swaps {
  pending_swaps = remove k n.swaps.pending_swaps;
  aborted_swaps = trim (n.swaps.aborted_swaps ++ (k ∷ []));
}

module _ (c : Crypto) where
  -- What is retrieved has a known id: the id zero is the mark of a swap that expects no chunk yet.
  pub handle_chunk_retrieval-Sound :
      {bound : ℕ} (n : Node) (chunk_id : ℕ) (bytes : List ℕ) (fresh : ℕ)
      → chunk_id ≢ 0
      → Sound bound n
      → Sound bound (handle_chunk_retrieval c n chunk_id bytes fresh).0.0
  unfolding handle_chunk_retrieval
  handle_chunk_retrieval-Sound n chunk_id bytes fresh known s =
      elim (Bool-cases (length bytes == encrypted_chunk_size)) [
        | inr wrong ↦ rw wrong s
        | inl size ↦ rw size (elim (Option-cases (waiting_for c chunk_id n.swaps.pending_swaps)) [
          | inl idle ↦ rw idle s
          | inr (w, e) ↦
              let (found, same) =
                waiting_for-some c chunk_id n.swaps.pending_swaps w s.distinct s.backed e in
              rw e
                (elim (Bool-cases (
                  not (w.content_root == 0)
                  && not (verify_chunk c bytes w.merkle_proof w.content_root))) [
                    | inl forged ↦ rw forged (release_aborted-Sound n w.proposal_id s)
                    | inr genuine ↦ rw genuine (
                        buffer_chunk-Sound n w bytes found (ground (arith, size))
                          (λ z. known (sym same ∙ z)) s c fresh)
                  ])
        ])
      ]

  -- Removing a key and releasing what was reserved under it, whether there was an entry or not.
  expire_one-Sound :
      {bound : ℕ} (n : Node) (k : ℕ) (s : SwapState) (o : Option PendingSwap)
      → get k n.swaps.pending_swaps ≡ o
      → s.pending_swaps ≡ remove k n.swaps.pending_swaps
      → Sound bound n
      → Sound bound (record n {
        swaps = s;
        capacity = elim o [
          | none ↦ n.capacity
          | some w ↦ release_reserved n.capacity w.reserved_bytes false
        ];
      })
  expire_one-Sound n k s none e same v = rw (same, remove_absent k n.swaps.pending_swaps e) v
  expire_one-Sound n k s (some w) e same v =
      rw same (release-IsSound n.swaps.pending_swaps n.capacity n.holder v k w e)

  expire_ids_nil : (s : SwapState) → expire_ids s [] ≡ (s, [])
  unfolding expire_ids
  expire_ids_nil s = refl

  expire_ids_absent :
      (n : Node) (k : ℕ) (ids : List ℕ)
      → get k n.swaps.pending_swaps ≡ none
      → expire_ids n.swaps (k ∷ ids) ≡ expire_ids (without_key n k) ids
  unfolding expire_ids
  expire_ids_absent n k ids e = ground (arith, e)

  expire_ids_present :
      (n : Node) (k : ℕ) (ids : List ℕ) (w : PendingSwap)
      → get k n.swaps.pending_swaps ≡ some w
      → let (s, swaps) = expire_ids (without_key n k) ids in
        expire_ids n.swaps (k ∷ ids) ≡ (s, w ∷ swaps)
  unfolding expire_ids
  expire_ids_present n k ids w e = ground (arith, e)

  expire_ids-Sound :
      {bound : ℕ} (n : Node) (ids : List ℕ) (fresh : ℕ)
      → Sound bound n
      → let (s, expired) = expire_ids n.swaps ids in
        Sound bound (release_expired c (record n { swaps = s }) expired fresh).0
  unfolding release_expired
  expire_ids-Sound n [] fresh v = rw (expire_ids_nil n.swaps) v
  expire_ids-Sound n (k ∷ ids) fresh v = elim (Option-cases (get k n.swaps.pending_swaps)) [
    | inl e ↦ rw (expire_ids_absent n k ids e) (
        expire_ids-Sound (record n { swaps = without_key n k }) ids fresh
          (expire_one-Sound n k (without_key n k) none e refl v))
    | inr (w, e) ↦ rw (expire_ids_present n k ids w e) (
        expire_ids-Sound
          (record n {
            swaps = without_key n k;
            capacity = release_reserved n.capacity w.reserved_bytes false;
          })
          ids fresh (expire_one-Sound n k (without_key n k) (some w) e refl v))
  ]

  pub expire-Sound :
      {bound : ℕ} (n : Node) (now fresh : ℕ) → Sound bound n → Sound bound (expire c n now fresh).0
  unfolding expire expire_pending_swaps
  expire-Sound n now fresh v =
      expire_ids-Sound n (expired_ids n.swaps.pending_swaps now n.pending_swap_timeout_secs) fresh v
