-- ===== src/Storage/Gossip.antt =====
-- crates/static-storage/src/gossip.rs: reports of missing chunks on the wire.
use mathlib.Core.List.{append_assoc}
use static.Common.{
  ℕ, ◌+◌, ◌*◌, ◌%◌, ◌^◌, ◌<◌, ◌≡◌, refl, ap, ◌∙◌, subst, false, List, ◌∷◌, ◌++◌, length, be_bytes,
  ltb, arith, u32_mod,
}
use static.Storage.Lease.{Result, ok, invalid_chunk_size}
use static.Storage.Wire.{
  ◌>>=◌, refuse_if, take_array, expect_type, ReturnRoute, append_hops, append_return_route,
}
use static.Storage.Wire.Reading.{At, At-type, take_array-At, take_array-in, IsRoute}
use static.Storage.Retrieval.{read_hops}
use static.Storage.Retrieval.RoundTrip.{read_hops-At}

abbrev pub msg_missing_chunk_gossip : ℕ
msg_missing_chunk_gossip = 9

abbrev pub max_gossip_route_hops : ℕ
max_gossip_route_hops = 32

pub record MissingChunkGossip : Type 0 where
  pub content_id : ℕ
  pub chunk_id : ℕ
  pub timestamp : ℕ
  pub return_route : ReturnRoute

unfoldable pub serialize_gossip : MissingChunkGossip → List ℕ
serialize_gossip gossip =
    msg_missing_chunk_gossip
    ∷ (be_bytes 32 gossip.content_id
        ++ (be_bytes 32 gossip.chunk_id
            ++ (be_bytes 8 gossip.timestamp ++ append_return_route gossip.return_route)))

unfoldable pub deserialize_gossip : List ℕ → Result MissingChunkGossip
deserialize_gossip bytes = do
  _ ← expect_type msg_missing_chunk_gossip 1 bytes
  (content_id, offset) ← take_array 32 bytes 1
  (chunk_id, offset) ← take_array 32 bytes offset
  (timestamp, offset) ← take_array 8 bytes offset
  (hop_count, offset) ← take_array 4 bytes offset
  _ ←
      refuse_if (ltb max_gossip_route_hops hop_count)
        (invalid_chunk_size max_gossip_route_hops hop_count)
  (hops, offset) ← read_hops hop_count bytes offset
  (destination, offset) ← take_array 16 bytes offset
  ok (record {
    content_id = content_id;
    chunk_id = chunk_id;
    timestamp = timestamp;
    return_route = record { hops = hops; destination = destination };
  })

-- The fields fit their widths, and the route the limit of the reader.
pub record IsWireable (gossip : MissingChunkGossip) : Type 0 where
  pub content : gossip.content_id < 256 ^ 32
  pub chunk : gossip.chunk_id < 256 ^ 32
  pub time : gossip.timestamp < 256 ^ 8
  pub route : IsRoute gossip.return_route

-- A report within the limits is read back whatever padding follows it.
pub deserialize-serialize_gossip :
    (gossip : MissingChunkGossip) (pad : List ℕ)
    → IsWireable gossip
    → deserialize_gossip (serialize_gossip gossip ++ pad) ≡ ok gossip
unfolding serialize_gossip deserialize_gossip expect_type append_return_route
deserialize-serialize_gossip gossip pad w =
    let bytes = serialize_gossip gossip ++ pad in
    let route = gossip.return_route in
    let n = length route.hops in
    let same : n % u32_mod ≡ n = omega (arith, w.route.few) in
    let within : ltb max_gossip_route_hops n ≡ false = ground (arith, w.route.few) in
    let at = At-type msg_missing_chunk_gossip (_ ++ pad) in
    let (content, at_chunk) = take_array-in bytes _ pad 32 gossip.content_id 1 w.content at in
    let (chunk, at_time) = take_array-in bytes _ pad 32 gossip.chunk_id (1 + 32) w.chunk at_chunk in
    let (time, at_route) =
      take_array-in bytes _ pad 8 gossip.timestamp (1 + 32 + 32) w.time at_time in
    let o = 1 + 32 + 32 + 8 in
    let (count, at_hops) = take_array-in bytes _ pad 4 (n % u32_mod) o (omega arith) at_route in
    let at_hops' =
      subst (At bytes (o + 4))
        (append_assoc (append_hops route.hops) (be_bytes 16 route.destination) pad) at_hops in
    let (hops, at_destination) = read_hops-At bytes _ route.hops (o + 4) w.route.hops at_hops' in
    let (destination, at_pad) =
      take_array-At bytes pad 16 route.destination (o + 4 + 48 * n) w.route.destination
        at_destination in
    let hop_count : take_array 4 bytes o ≡ ok (n, o + 4) =
      count ∙ ap (λ (x : ℕ). ok (x, o + 4)) same in
    rw (content, chunk, time, hop_count, within, hops, destination) refl
