-- ===== src/Storage/Retrieval.antt =====
-- crates/static-storage/src/retrieval.rs: chunk requests and responses, their wire format, and the
-- answer of a node that holds chunks.
pub mod RoundTrip
pub mod Retriever
mod Examples
use static.Common.{
  ℕ, zero, suc, ◌+◌, ◌*◌, ◌%◌, Bool, true, false, not, ◌||◌, Option, none, some, List, [], ◌∷◌,
  ◌++◌, length, be_bytes, from_be, slice, drop, ltb, ◌==◌, if◌then◌else◌, u32_mod,
}
use static.HashMap.{get}
use static.Storage.Lease.{Result, ok, err, StorageError, invalid_chunk_size}
use static.Storage.Holder.{ChunkHolder}
use static.Storage.Wire.{
  ◌>>=◌, refuse_if, with_room, take_array, take_bytes, take_sized, expect_type, flag_byte, sized,
  RouteHopInfo, ReturnRoute, append_return_route,
}

abbrev pub msg_chunk_request : ℕ
msg_chunk_request = 1

abbrev pub msg_chunk_response : ℕ
msg_chunk_response = 2

abbrev pub max_retrieval_route_hops : ℕ
max_retrieval_route_hops = 32

abbrev pub max_serialized_surb_size : ℕ
max_serialized_surb_size = 16384

pub record ChunkRequest : Type 0 where
  pub chunk_id : ℕ
  pub return_route : ReturnRoute
  pub surb : Option (List ℕ)

pub record ChunkResponse : Type 0 where
  pub chunk_id : ℕ
  pub chunk_data : List ℕ
  pub found : Bool

-- The optional suffix: a marker, the length and the bytes.
unfoldable pub surb_suffix : Option (List ℕ) → List ℕ
surb_suffix none = []
surb_suffix (some surb) = be_bytes 1 1 ++ sized surb

unfoldable pub serialize_request : ChunkRequest → List ℕ
serialize_request req =
    msg_chunk_request
    ∷ (be_bytes 32 req.chunk_id ++ (append_return_route req.return_route ++ surb_suffix req.surb))

-- A hop, read after one check of its 48 bytes.
unfoldable pub read_hop : List ℕ → ℕ → Result (RouteHopInfo × ℕ)
read_hop bytes offset = with_room 48 bytes offset (
    ok (
      record {
        public_key = from_be (slice bytes offset (offset + 32));
        node_id = from_be (slice bytes (offset + 32) (offset + 48));
      },
      offset + 48,
    ))

unfoldable pub read_hops : ℕ → List ℕ → ℕ → Result (List RouteHopInfo × ℕ)
read_hops zero bytes offset = ok ([], offset)
read_hops (suc n) bytes offset = do
  (hop, offset) ← read_hop bytes offset
  (hops, offset) ← read_hops n bytes offset
  ok (hop ∷ hops, offset)

-- `data[offset..].iter().any(|&b| b != 0)`
unfoldable pub any_nonzero : List ℕ → Bool
any_nonzero [] = false
any_nonzero (b ∷ bytes) = not (b == 0) || any_nonzero bytes

-- What stands behind the destination, if it is not padding.
unfoldable pub read_surb : List ℕ → ℕ → Result (Option (List ℕ))
read_surb bytes offset =
    if ltb (length bytes) (offset + 5) || not (from_be (slice bytes offset (offset + 1)) == 1)
    then err (invalid_chunk_size (offset + 5) (length bytes))
    else (let surb_len = from_be (slice bytes (offset + 1) (offset + 5)) in
        if ltb max_serialized_surb_size surb_len || ltb (length bytes) (offset + 5 + surb_len)
        then err (invalid_chunk_size max_serialized_surb_size surb_len)
        else ok (some (slice bytes (offset + 5) (offset + 5 + surb_len))))

unfoldable pub take_surb : List ℕ → ℕ → Result (Option (List ℕ))
take_surb bytes offset = if any_nonzero (drop offset bytes) then read_surb bytes offset else ok none

unfoldable pub deserialize_request : List ℕ → Result ChunkRequest
deserialize_request bytes = do
  _ ← expect_type msg_chunk_request 1 bytes
  (chunk_id, offset) ← take_array 32 bytes 1
  (hop_count, offset) ← take_array 4 bytes offset
  _ ←
      refuse_if (ltb max_retrieval_route_hops hop_count)
        (invalid_chunk_size max_retrieval_route_hops hop_count)
  (hops, offset) ← read_hops hop_count bytes offset
  (destination, offset) ← take_array 16 bytes offset
  surb ← take_surb bytes offset
  ok (record {
    chunk_id = chunk_id;
    return_route = record { hops = hops; destination = destination };
    surb = surb;
  })

unfoldable pub serialize_response : ChunkResponse → List ℕ
serialize_response resp =
    msg_chunk_response
    ∷ (be_bytes 32 resp.chunk_id ++ (be_bytes 1 (flag_byte resp.found) ++ sized resp.chunk_data))

unfoldable pub deserialize_response : List ℕ → Result ChunkResponse
deserialize_response bytes = do
  _ ← expect_type msg_chunk_response 1 bytes
  (chunk_id, offset) ← take_array 32 bytes 1
  (found, offset) ← take_array 1 bytes offset
  (chunk_data, offset) ← take_sized bytes offset
  ok (record { chunk_id = chunk_id; chunk_data = chunk_data; found = found == 1 })

-- `ChunkHolder::handle_request`
abbrev pub answer : ℕ → Option (List ℕ) → Option ChunkResponse
answer chunk_id none = some (record { chunk_id = chunk_id; chunk_data = []; found = false })
answer chunk_id (some bytes) =
    some (record { chunk_id = chunk_id; chunk_data = bytes; found = true })

unfoldable pub handle_request : ChunkHolder → ChunkRequest → Option ChunkResponse
handle_request holder request = answer request.chunk_id (get request.chunk_id holder.chunks)
