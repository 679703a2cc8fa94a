-- ===== src/Storage/Retrieval/RoundTrip.antt =====
-- Requests and responses for chunks that are sent are read back.
use static.Common.{
  ℕ, suc, ◌+◌, ◌*◌, ◌%◌, ◌^◌, ◌<◌, ◌≤◌, ◌≡◌, refl, ◌∙◌, ap, true, false, Option, none, some, List,
  [], ◌∷◌, ◌++◌, length, be_bytes, drop, ltb, u32_mod, arith, All, subst, length-append,
}
use mathlib.Core.List.{append_assoc}
use static.Storage.Lease.{ok}
use static.Storage.Wire.{
  take_array, expect_type, flag_byte, sized, RouteHopInfo, append_hops, append_return_route,
}
use static.Storage.Wire.Reading.{
  At, At-type, At-room, At-slice, At-number, take_array-in, take_sized-At, flag_found, flag_byte-lt,
  IsHop, IsRoute,
}
use static.Storage.Retrieval.{
  ChunkRequest, ChunkResponse, surb_suffix, serialize_request, read_hop, read_hops, any_nonzero,
  read_surb, take_surb, deserialize_request, serialize_response, deserialize_response,
  max_serialized_surb_size, max_retrieval_route_hops, msg_chunk_request, msg_chunk_response,
}

pub read_hops-At :
    (bytes rest : List ℕ) (hops : List RouteHopInfo) (start : ℕ)
    → All IsHop hops
    → At bytes start (append_hops hops ++ rest)
    → (read_hops (length hops) bytes start ≡ ok (hops, start + 48 * length hops))
      × At bytes (start + 48 * length hops) rest
unfolding read_hops read_hop append_hops
read_hops-At bytes rest [] start fits at =
    let same : start + 0 ≡ start = omega arith in (rw same refl, rw same at)
read_hops-At bytes rest (hop ∷ hops) start fits at =
    let at' =
      subst (At bytes start)
        (append_assoc (be_bytes 32 hop.public_key) (be_bytes 16 hop.node_id ++ append_hops hops)
          rest)
        at in
    let (key, at_id) = At-number bytes _ 32 hop.public_key start (start + 32) (fits.0).0 at' refl in
    let at_id' =
      subst (At bytes (start + 32)) (append_assoc (be_bytes 16 hop.node_id) (append_hops hops) rest)
        at_id in
    let (id, at_hops) =
      At-number bytes _ 16 hop.node_id (start + 32) (start + 48) (fits.0).1 at_id' (omega arith) in
    let (more, last) = read_hops-At bytes rest hops (start + 48) fits.1 at_hops in
    let end : start + 48 + 48 * length hops ≡ start + 48 * suc (length hops) = omega arith in
    let room = At-room bytes (append_hops hops ++ rest) (start + 48) at_hops in
    let fits_in : ltb (length bytes) (start + 48) ≡ false = ground (arith, room) in
    (rw (fits_in, key, id, more, end) refl, rw end at last)

-- The bytes of a SURB fit the reader's limit; without one, the padding is zero.
abbrev pub IsSuffix : Option (List ℕ) → List ℕ → Type 0
IsSuffix none pad = any_nonzero pad ≡ false
IsSuffix (some surb) pad = length surb ≤ max_serialized_surb_size

no_marker :
    (bytes pad : List ℕ) (start : ℕ)
    → any_nonzero pad ≡ false
    → At bytes start (surb_suffix none ++ pad)
    → any_nonzero (drop start bytes) ≡ false
unfolding At surb_suffix
no_marker bytes pad start zeros (e, l) = rw (e, zeros) refl

-- The marker of a suffix tells it from padding.
suffix_marker :
    (bytes pad surb : List ℕ) (start : ℕ)
    → At bytes start (surb_suffix (some surb) ++ pad)
    → any_nonzero (drop start bytes) ≡ true
unfolding At surb_suffix be_bytes any_nonzero
suffix_marker bytes pad surb start (e, l) = rw e refl

read_surb-At :
    (bytes pad surb : List ℕ) (start : ℕ)
    → length surb ≤ max_serialized_surb_size
    → At bytes start (surb_suffix (some surb) ++ pad)
    → read_surb bytes start ≡ ok (some surb)
unfolding read_surb surb_suffix sized
read_surb-At bytes pad surb start small at =
    let n = length surb in
    let same : n % u32_mod ≡ n = omega (arith, small) in
    let at' = subst (At bytes start) (append_assoc (be_bytes 1 1) _ pad) at in
    let (marker, at_sized) = At-number bytes _ 1 1 start (start + 1) (omega arith) at' refl in
    let at_sized' =
      subst (At bytes (start + 1)) (append_assoc (be_bytes 4 (n % u32_mod)) surb pad) at_sized in
    let (count, at_surb) =
      At-number bytes _ 4 (n % u32_mod) (start + 1) (start + 5) (omega arith) at_sized'
        (omega arith) in
    let value = At-slice bytes surb pad (start + 5) (start + 5 + n) at_surb refl in
    let room = At-room bytes (surb ++ pad) (start + 5) at_surb in
    let total = length-append surb pad in
    let long : ltb (length bytes) (start + 5) ≡ false = ground (arith, room) in
    let whole : ltb (length bytes) (start + 5 + n) ≡ false = ground (arith, room, total) in
    let within : ltb max_serialized_surb_size n ≡ false = ground (arith, small) in
    rw (marker, long, count, same, within, whole, value) refl

take_surb-At :
    (bytes pad : List ℕ) (surb : Option (List ℕ)) (start : ℕ)
    → IsSuffix surb pad
    → At bytes start (surb_suffix surb ++ pad)
    → take_surb bytes start ≡ ok surb
unfolding take_surb
take_surb-At bytes pad none start zeros at = rw (no_marker bytes pad start zeros at) refl
take_surb-At bytes pad (some surb) start small at =
    rw (suffix_marker bytes pad surb start at) (read_surb-At bytes pad surb start small at)

-- The fields of a request fit their widths, and its route the limit of the reader.
pub record IsWireable (req : ChunkRequest) (pad : List ℕ) : Type 0 where
  pub chunk : req.chunk_id < 256 ^ 32
  pub route : IsRoute req.return_route
  pub suffix : IsSuffix req.surb pad

-- A request whose fields fit their widths, with at most 32 hops and a SURB of at most 16 KiB, is
-- read back from a body that is padded; with zeros, if it has no SURB.
pub deserialize-serialize_request :
    (req : ChunkRequest) (pad : List ℕ)
    → IsWireable req pad
    → deserialize_request (serialize_request req ++ pad) ≡ ok req
unfolding serialize_request deserialize_request expect_type append_return_route
deserialize-serialize_request req pad w =
    let bytes = serialize_request req ++ pad in
    let route = req.return_route in
    let n = length route.hops in
    let same : n % u32_mod ≡ n = omega (arith, w.route.few) in
    let within : ltb max_retrieval_route_hops n ≡ false = ground (arith, w.route.few) in
    let suffix = surb_suffix req.surb in
    let at = At-type msg_chunk_request (_ ++ pad) in
    let (chunk, at_route) = take_array-in bytes _ pad 32 req.chunk_id 1 w.chunk at in
    let at_route' =
      subst (At bytes (1 + 32))
        (ap (λ (x : List ℕ). x ++ pad)
          (append_assoc (be_bytes 4 (n % u32_mod))
            (append_hops route.hops ++ be_bytes 16 route.destination) suffix))
        at_route in
    let (count, at_hops) =
      take_array-in bytes _ pad 4 (n % u32_mod) (1 + 32) (omega arith) at_route' in
    let at_hops' =
      subst (At bytes (1 + 32 + 4))
        (ap (λ (x : List ℕ). x ++ pad)
            (append_assoc (append_hops route.hops) (be_bytes 16 route.destination) suffix)
          ∙ append_assoc (append_hops route.hops) (be_bytes 16 route.destination ++ suffix) pad)
        at_hops in
    let (hops, at_destination) =
      read_hops-At bytes _ route.hops (1 + 32 + 4) w.route.hops at_hops' in
    let (destination, at_surb) =
      take_array-in bytes suffix pad 16 route.destination (1 + 32 + 4 + 48 * n) w.route.destination
        at_destination in
    let surb = take_surb-At bytes pad req.surb (1 + 32 + 4 + 48 * n + 16) w.suffix at_surb in
    let hop_count : take_array 4 bytes (1 + 32) ≡ ok (n, 1 + 32 + 4) =
      count ∙ ap (λ (x : ℕ). ok (x, 1 + 32 + 4)) same in
    rw (chunk, hop_count, within, hops, destination, surb) refl

-- A response is read back whatever padding follows it.
pub deserialize-serialize_chunk_response :
    (resp : ChunkResponse) (pad : List ℕ)
    → resp.chunk_id < 256 ^ 32
    → length resp.chunk_data < u32_mod
    → deserialize_response (serialize_response resp ++ pad) ≡ ok resp
unfolding serialize_response deserialize_response expect_type
deserialize-serialize_chunk_response resp pad fits small =
    let bytes = serialize_response resp ++ pad in
    let at = At-type msg_chunk_response (_ ++ pad) in
    let (chunk, at_found) = take_array-in bytes _ pad 32 resp.chunk_id 1 fits at in
    let (flag, at_data) =
      take_array-in bytes _ pad 1 (flag_byte resp.found) (1 + 32) (flag_byte-lt resp.found)
        at_found in
    let (value, at_pad) = take_sized-At bytes resp.chunk_data pad (1 + 32 + 1) small at_data in
    rw (chunk, flag, value, flag_found resp.found) refl
