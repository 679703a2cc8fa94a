-- ===== src/Storage/Verification.antt =====
-- crates/static-storage/src/verification.rs: challenges for a segment of a chunk, and
-- crates/static-node/src/runner.rs: how a holder answers one.
pub mod Possession
pub mod RoundTrip
use static.Common.{
  ℕ, zero, suc, ◌+◌, ◌*◌, ◌-◌, ◌%◌, Bool, true, false, not, Option, none, some, List, [], ◌∷◌, ◌++◌,
  map, length, be_bytes, from_be, slice, take, drop, ltb, leb, ◌==◌, if◌then◌else◌, u32_mod, min,
}
use static.HashMap.{get}
use static.Storage.Crypto.{Crypto}
use static.Storage.Lease.{Result, ok, err, StorageError, invalid_chunk_size}
use static.Storage.Holder.{ChunkHolder}
use static.Storage.Wire.{
  ◌>>=◌, refuse_if, take_array, take_bytes, take_limited, expect_type, flag_byte, sized,
  RouteHopInfo, ReturnRoute, append_return_route,
}

abbrev pub msg_verification_challenge : ℕ
msg_verification_challenge = 7

abbrev pub msg_verification_response : ℕ
msg_verification_response = 8

-- `SEGMENT_SIZE`, and `MAX_SEGMENT_DATA_SIZE`, which is it.
abbrev pub segment_size : ℕ
segment_size = 4096

pub record VerificationChallenge : Type 0 where
  pub chunk_id : ℕ
  pub segment_index : ℕ
  pub nonce : ℕ
  pub return_route : ReturnRoute

pub record VerificationResponse : Type 0 where
  pub chunk_id : ℕ
  pub segment_index : ℕ
  pub segment_data : List ℕ
  pub nonce : ℕ
  pub found : Bool

-- `data.chunks(SEGMENT_SIZE)`; a round takes at least a byte, so the length is fuel enough.
unfoldable pub segments : ℕ → List ℕ → List (List ℕ)
segments zero bytes = []
segments (suc fuel) [] = []
segments (suc fuel) (b ∷ bytes) =
    take segment_size (b ∷ bytes) ∷ segments fuel (drop segment_size (b ∷ bytes))

module _ (c : Crypto) where
  unfoldable pub compute_segment_hashes : List (List ℕ) → List (List ℕ)
  compute_segment_hashes chunks = map (λ bytes. map c.hash (segments (length bytes) bytes)) chunks

  unfoldable pub verify_segment_response : VerificationResponse → ℕ → Bool
  verify_segment_response response expected_hash =
      if not response.found then false else c.hash response.segment_data == expected_hash

unfoldable pub serialize_challenge : VerificationChallenge → List ℕ
serialize_challenge challenge =
    msg_verification_challenge
    ∷ (be_bytes 32 challenge.chunk_id
        ++ (be_bytes 4 challenge.segment_index
            ++ (be_bytes 32 challenge.nonce ++ append_return_route challenge.return_route)))

unfoldable pub take_hops : ℕ → List ℕ → ℕ → Result (List RouteHopInfo × ℕ)
take_hops zero bytes offset = ok ([], offset)
take_hops (suc n) bytes offset = do
  (public_key, offset) ← take_array 32 bytes offset
  (node_id, offset) ← take_array 16 bytes offset
  (hops, offset) ← take_hops n bytes offset
  ok (record { public_key = public_key; node_id = node_id } ∷ hops, offset)

unfoldable pub take_return_route : List ℕ → ℕ → Result (ReturnRoute × ℕ)
take_return_route bytes offset = do
  (hop_count, offset) ← take_array 4 bytes offset
  _ ← refuse_if (ltb 32 hop_count) (invalid_chunk_size 32 hop_count)
  (hops, offset) ← take_hops hop_count bytes offset
  (destination, offset) ← take_array 16 bytes offset
  ok (record { hops = hops; destination = destination }, offset)

unfoldable pub deserialize_challenge : List ℕ → Result VerificationChallenge
deserialize_challenge bytes = do
  _ ← expect_type msg_verification_challenge 1 bytes
  (chunk_id, offset) ← take_array 32 bytes 1
  (segment_index, offset) ← take_array 4 bytes offset
  (nonce, offset) ← take_array 32 bytes offset
  (return_route, offset) ← take_return_route bytes offset
  ok (record {
    chunk_id = chunk_id;
    segment_index = segment_index;
    nonce = nonce;
    return_route = return_route;
  })

unfoldable pub serialize_response : VerificationResponse → Result (List ℕ)
serialize_response resp =
    if ltb segment_size (length resp.segment_data)
    then err (invalid_chunk_size segment_size (length resp.segment_data))
    else ok (
        msg_verification_response
        ∷ (be_bytes 32 resp.chunk_id
            ++ (be_bytes 4 resp.segment_index
                ++ (be_bytes 32 resp.nonce
                    ++ (be_bytes 1 (flag_byte resp.found) ++ sized resp.segment_data)))))

unfoldable pub deserialize_response : List ℕ → Result VerificationResponse
deserialize_response bytes = do
  _ ← expect_type msg_verification_response 1 bytes
  (chunk_id, offset) ← take_array 32 bytes 1
  (segment_index, offset) ← take_array 4 bytes offset
  (nonce, offset) ← take_array 32 bytes offset
  (found, offset) ← take_array 1 bytes offset
  (segment_data, offset) ← take_limited segment_size bytes offset
  ok (record {
    chunk_id = chunk_id;
    segment_index = segment_index;
    segment_data = segment_data;
    nonce = nonce;
    found = found == 1;
  })

-- The segment of a held chunk, if the index lies within it.
abbrev pub segment_of : ℕ → Option (List ℕ) → Option (List ℕ)
segment_of index none = none
segment_of index (some bytes) =
    let start = index * segment_size in
    if leb (length bytes) start
    then none
    else some (slice bytes start (min (start + segment_size) (length bytes)))

abbrev pub answer : VerificationChallenge → Option (List ℕ) → VerificationResponse
answer challenge none = record {
  chunk_id = challenge.chunk_id;
  segment_index = challenge.segment_index;
  segment_data = [];
  nonce = challenge.nonce;
  found = false;
}
answer challenge (some segment) = record {
  chunk_id = challenge.chunk_id;
  segment_index = challenge.segment_index;
  segment_data = segment;
  nonce = challenge.nonce;
  found = true;
}

-- The response that a holder sends; its sending is left out.
unfoldable pub handle_verification_challenge :
    ChunkHolder → VerificationChallenge → VerificationResponse
handle_verification_challenge holder challenge =
    answer challenge (segment_of challenge.segment_index (get challenge.chunk_id holder.chunks))
