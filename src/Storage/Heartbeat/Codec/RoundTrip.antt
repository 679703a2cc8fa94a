-- ===== src/Storage/Heartbeat/Codec/RoundTrip.antt =====
-- A heartbeat that is sent is read back, all but its local content id.
use static.Common.{
  ℕ, ◌+◌, ◌*◌, ◌%◌, ◌^◌, ◌<◌, ◌≤◌, ◌≡◌, refl, ◌∙◌, List, [], ◌∷◌, ◌++◌, length, arith, be_bytes,
  from_be, slice, u32_mod, All, subst,
}
use mathlib.Core.List.{append_assoc}
use static.Storage.Lease.{ok}
use static.Storage.Heartbeat.{Heartbeat, concat_ids}
use static.Storage.Wire.Reading.{At, At-start, At-number, At-room, At-rest}
use static.Storage.Heartbeat.Codec.{
  serialize, deserialize, read_ids, read_tail, wire_serialize, wire_deserialize,
  max_heartbeat_chunks,
}

abbrev pub IsId : ℕ → Type 0
IsId id = id < 256 ^ 32

read_ids-concat_ids :
    (bytes rest : List ℕ) (ids : List ℕ) (start end : ℕ)
    → All IsId ids
    → At bytes start (concat_ids ids ++ rest)
    → end ≡ start + 32 * length ids
    → (read_ids bytes start (length ids) ≡ ok ids) × At bytes end rest
unfolding read_ids concat_ids
read_ids-concat_ids bytes rest [] start end fit at h =
    let same : end ≡ start = omega arith in (refl, rw same at)
read_ids-concat_ids bytes rest (id ∷ ids) start end fit at h =
    let at' = subst (At bytes start) (append_assoc (be_bytes 32 id) (concat_ids ids) rest) at in
    let (value, next) =
      At-number bytes (concat_ids ids ++ rest) 32 id start (start + 32) fit.0 at' refl in
    let (more, last) =
      read_ids-concat_ids bytes rest ids (start + 32) end fit.1 next (omega arith) in
    let room = At-room bytes (concat_ids ids ++ rest) (start + 32) next in
    (rw (value, more) (ground (arith, room)), last)

-- The fields fit their widths, and the counts the limits of the reader.
pub record IsWireable (h : Heartbeat) : Type 0 where
  pub token : h.renewal_token < 256 ^ 32
  pub expires : h.new_expires_at < 256 ^ 8
  pub count : length h.chunk_ids ≤ max_heartbeat_chunks
  pub ids : All IsId h.chunk_ids
  pub nonce : h.nonce < 256 ^ 32
  pub key : h.content_pub_key < 256 ^ 32
  pub signature : length h.signature ≤ 64

-- The reader of the tail, given what its slices hold.
read_tail-values :
    (bytes : List ℕ) (offset : ℕ) (h : Heartbeat)
    → offset + 68 + length h.signature ≡ length bytes
    → length h.signature ≤ 64
    → from_be (slice bytes 0 32) ≡ h.renewal_token
    → from_be (slice bytes 32 40) ≡ h.new_expires_at
    → from_be (slice bytes offset (offset + 32)) ≡ h.nonce
    → from_be (slice bytes (offset + 32) (offset + 64)) ≡ h.content_pub_key
    → from_be (slice bytes (offset + 64) (offset + 68)) ≡ length h.signature
    → slice bytes (offset + 68) (offset + 68 + length h.signature) ≡ h.signature
    → read_tail bytes offset h.chunk_ids ≡ ok (record h { content_id = 0 })
unfolding read_tail
read_tail-values bytes offset h room small token expires nonce key sig_len signature =
    rw (sig_len, signature, token, expires, nonce, key) (ground (arith, room, small))

deserialize-values :
    (bytes : List ℕ) (h : Heartbeat)
    → 112 ≤ length bytes
    → length h.chunk_ids ≤ max_heartbeat_chunks
    → from_be (slice bytes 40 44) ≡ length h.chunk_ids
    → read_ids bytes 44 (length h.chunk_ids) ≡ ok h.chunk_ids
    → deserialize bytes ≡ read_tail bytes (44 + 32 * length h.chunk_ids) h.chunk_ids
unfolding deserialize
deserialize-values bytes h long few count ids = rw (count, ids) (ground (arith, long, few))

deserialize-serialize_heartbeat :
    (h : Heartbeat) → IsWireable h → deserialize (serialize h) ≡ ok (record h { content_id = 0 })
unfolding serialize
deserialize-serialize_heartbeat h w =
    let n = length h.chunk_ids in
    let bytes = serialize h in
    let few : n % u32_mod ≡ n = omega (arith, w.count) in
    let short : length h.signature % u32_mod ≡ length h.signature = omega (arith, w.signature) in
    let (token, at_expires) =
      At-number bytes _ 32 h.renewal_token 0 32 w.token (At-start bytes) refl in
    let (expires, at_count) =
      At-number bytes _ 8 h.new_expires_at 32 40 w.expires at_expires refl in
    let (count, at_ids) = At-number bytes _ 4 (n % u32_mod) 40 44 (omega arith) at_count refl in
    let (ids, at_nonce) =
      read_ids-concat_ids bytes _ h.chunk_ids 44 (44 + 32 * n) w.ids at_ids refl in
    let (nonce, at_key) =
      At-number bytes _ 32 h.nonce (44 + 32 * n) (44 + 32 * n + 32) w.nonce at_nonce refl in
    let (key, at_length) =
      At-number bytes _ 32 h.content_pub_key (44 + 32 * n + 32) (44 + 32 * n + 64) w.key at_key
        (omega arith) in
    let (sig_len, at_signature) =
      At-number bytes h.signature 4 (length h.signature % u32_mod) (44 + 32 * n + 64)
        (44 + 32 * n + 68) (omega arith) at_length (omega arith) in
    let room = At-room bytes h.signature (44 + 32 * n + 68) at_signature in
    deserialize-values bytes h (omega (arith, room)) w.count (count ∙ few) ids
    ∙ read_tail-values bytes (44 + 32 * n) h room w.signature token expires nonce key
        (sig_len ∙ short) (At-rest bytes h.signature (44 + 32 * n + 68) at_signature)

-- A heartbeat whose fields fit their widths, with at most 4096 chunks and a signature of at most 64
-- bytes, is read back from the bytes it is sent as, except for its content id, which is not sent.
pub wire_deserialize-wire_serialize :
    (h : Heartbeat)
    → IsWireable h
    → wire_deserialize (wire_serialize h) ≡ ok (record h { content_id = 0 })
unfolding wire_deserialize wire_serialize
wire_deserialize-wire_serialize h w = deserialize-serialize_heartbeat h w
