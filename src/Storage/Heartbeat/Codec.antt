-- ===== src/Storage/Heartbeat/Codec.antt =====
-- crates/static-storage/src/heartbeat.rs: the wire format of heartbeats. The content id stays local.
pub mod RoundTrip
use static.Common.{
  ℕ, zero, suc, ◌+◌, ◌*◌, Bool, ◌||◌, Option, List, [], ◌∷◌, ◌++◌, length, be_bytes, from_be, slice,
  u32_mod, ltb, if◌then◌else◌, ◌%◌, ◌==◌, not,
}
use static.Storage.Lease.{Result, ok, err, StorageError, invalid_chunk_size}
use static.Storage.Heartbeat.{Heartbeat, concat_ids}

abbrev pub max_heartbeat_chunks : ℕ
max_heartbeat_chunks = 4096

abbrev pub msg_heartbeat : ℕ
msg_heartbeat = 10

unfoldable pub serialize : Heartbeat → List ℕ
serialize h =
    be_bytes 32 h.renewal_token
    ++ (be_bytes 8 h.new_expires_at
        ++ (be_bytes 4 (length h.chunk_ids % u32_mod)
            ++ (concat_ids h.chunk_ids
                ++ (be_bytes 32 h.nonce
                    ++ (be_bytes 32 h.content_pub_key
                        ++ (be_bytes 4 (length h.signature % u32_mod) ++ h.signature))))))

abbrev pub add_id : ℕ → Result (List ℕ) → Result (List ℕ)
add_id id (ok ids) = ok (id ∷ ids)
add_id id (err e) = err e

-- The loop over the chunk ids, from an offset.
unfoldable pub read_ids : List ℕ → ℕ → ℕ → Result (List ℕ)
read_ids bytes offset zero = ok []
read_ids bytes offset (suc n) =
    let rest = read_ids bytes (offset + 32) n in
    if ltb (length bytes) (offset + 32)
    then err (invalid_chunk_size (offset + 32) (length bytes))
    else add_id (from_be (slice bytes offset (offset + 32))) rest

-- What follows the chunk ids: nonce, key and signature.
unfoldable pub read_tail : List ℕ → ℕ → List ℕ → Result Heartbeat
read_tail bytes offset ids =
    if ltb (length bytes) (offset + 68)
    then err (invalid_chunk_size (offset + 68) (length bytes))
    else (let sig_len = from_be (slice bytes (offset + 64) (offset + 68)) in
        if ltb 64 sig_len || ltb (length bytes) (offset + 68 + sig_len)
        then err (invalid_chunk_size (offset + 68 + sig_len) (length bytes))
        else ok (record {
          content_id = 0;
          renewal_token = from_be (slice bytes 0 32);
          new_expires_at = from_be (slice bytes 32 40);
          chunk_ids = ids;
          nonce = from_be (slice bytes offset (offset + 32));
          signature = slice bytes (offset + 68) (offset + 68 + sig_len);
          content_pub_key = from_be (slice bytes (offset + 32) (offset + 64));
        }))

unfoldable pub deserialize : List ℕ → Result Heartbeat
deserialize bytes =
    if ltb (length bytes) 112
    then err (invalid_chunk_size 112 (length bytes))
    else (let count = from_be (slice bytes 40 44) in
        if ltb max_heartbeat_chunks count
        then err (invalid_chunk_size max_heartbeat_chunks count)
        else elim (read_ids bytes 44 count) [
          | err e ↦ err e
          | ok ids ↦ read_tail bytes (44 + 32 * count) ids
        ])

unfoldable pub wire_serialize : Heartbeat → List ℕ
wire_serialize h = msg_heartbeat ∷ serialize h

unfoldable pub wire_deserialize : List ℕ → Result Heartbeat
wire_deserialize [] = err (invalid_chunk_size msg_heartbeat 0)
wire_deserialize (b ∷ bytes) =
    if b == msg_heartbeat then deserialize bytes else err (invalid_chunk_size msg_heartbeat b)
