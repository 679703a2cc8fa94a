-- ===== src/Storage/Verification/RoundTrip.antt =====
-- Challenges and responses that are sent are read back.
use static.Common.{
  ℕ, suc, ◌+◌, ◌*◌, ◌%◌, ◌^◌, ◌<◌, ◌≤◌, ◌≡◌, refl, false, List, [], ◌∷◌, ◌++◌, length, be_bytes,
  ltb, u32_mod, arith, All, subst,
}
use mathlib.Core.List.{append_assoc}
use static.Storage.Lease.{ok}
use static.Storage.Wire.{
  expect_type, flag_byte, sized, RouteHopInfo, ReturnRoute, append_hops, append_return_route,
}
use static.Storage.Wire.Reading.{
  At, At-type, take_array-At, take_array-in, take_limited-At, flag_found, flag_byte-lt, IsHop,
  IsRoute,
}
use static.Storage.Verification.{
  VerificationChallenge, VerificationResponse, take_hops, take_return_route, serialize_challenge,
  deserialize_challenge, serialize_response, deserialize_response, segment_size,
  msg_verification_challenge, msg_verification_response,
}

take_hops-At :
    (bytes rest : List ℕ) (hops : List RouteHopInfo) (start : ℕ)
    → All IsHop hops
    → At bytes start (append_hops hops ++ rest)
    → (take_hops (length hops) bytes start ≡ ok (hops, start + 48 * length hops))
      × At bytes (start + 48 * length hops) rest
unfolding take_hops append_hops
take_hops-At bytes rest [] start fits at =
    let same : start + 0 ≡ start = omega arith in (rw same refl, rw same at)
take_hops-At bytes rest (hop ∷ hops) start fits at =
    let at' =
      subst (At bytes start)
        (append_assoc (be_bytes 32 hop.public_key) (be_bytes 16 hop.node_id ++ append_hops hops)
          rest)
        at in
    let (key, at_id) = take_array-At bytes _ 32 hop.public_key start (fits.0).0 at' in
    let at_id' =
      subst (At bytes (start + 32)) (append_assoc (be_bytes 16 hop.node_id) (append_hops hops) rest)
        at_id in
    let (id, at_hops) = take_array-At bytes _ 16 hop.node_id (start + 32) (fits.0).1 at_id' in
    let (more, last) = take_hops-At bytes rest hops (start + 32 + 16) fits.1 at_hops in
    let end : start + 32 + 16 + 48 * length hops ≡ start + 48 * suc (length hops) = omega arith in
    (rw (key, id, more, end) refl, rw end at last)

take_return_route-At :
    (bytes pad : List ℕ) (route : ReturnRoute) (start : ℕ)
    → IsRoute route
    → At bytes start (append_return_route route ++ pad)
    → (end : ℕ) × (take_return_route bytes start ≡ ok (route, end))
unfolding take_return_route append_return_route
take_return_route-At bytes pad route start fits at =
    let n = length route.hops in
    let same : n % u32_mod ≡ n = omega (arith, fits.few) in
    let within : ltb 32 n ≡ false = ground (arith, fits.few) in
    let (count, at_hops) = take_array-in bytes _ pad 4 (n % u32_mod) start (omega arith) at in
    let at_hops' =
      subst (At bytes (start + 4))
        (append_assoc (append_hops route.hops) (be_bytes 16 route.destination) pad) at_hops in
    let (hops, at_destination) = take_hops-At bytes _ route.hops (start + 4) fits.hops at_hops' in
    let (destination, at_end) =
      take_array-At bytes pad 16 route.destination (start + 4 + 48 * n) fits.destination
        at_destination in
    (start + 4 + 48 * n + 16, rw (count, same, within, hops, destination) refl)

-- The fields of a challenge fit their widths, and its route the limit of the reader.
pub record IsWireable (challenge : VerificationChallenge) : Type 0 where
  pub chunk : challenge.chunk_id < 256 ^ 32
  pub index : challenge.segment_index < 256 ^ 4
  pub nonce : challenge.nonce < 256 ^ 32
  pub route : IsRoute challenge.return_route

-- A challenge whose fields fit their widths and whose route has at most 32 hops is read back from
-- the bytes it is sent as, whatever padding follows them.
pub deserialize-serialize_challenge :
    (challenge : VerificationChallenge) (pad : List ℕ)
    → IsWireable challenge
    → deserialize_challenge (serialize_challenge challenge ++ pad) ≡ ok challenge
unfolding serialize_challenge deserialize_challenge expect_type
deserialize-serialize_challenge challenge pad w =
    let bytes = serialize_challenge challenge ++ pad in
    let at = At-type msg_verification_challenge (_ ++ pad) in
    let (chunk, at_index) = take_array-in bytes _ pad 32 challenge.chunk_id 1 w.chunk at in
    let (index, at_nonce) =
      take_array-in bytes _ pad 4 challenge.segment_index (1 + 32) w.index at_index in
    let (nonce, at_route) =
      take_array-in bytes _ pad 32 challenge.nonce (1 + 32 + 4) w.nonce at_nonce in
    let (end, route) =
      take_return_route-At bytes pad challenge.return_route (1 + 32 + 4 + 32) w.route at_route in
    rw (chunk, index, nonce, route) refl

-- The fields of a response fit their widths.
pub record IsSendable (resp : VerificationResponse) : Type 0 where
  pub chunk : resp.chunk_id < 256 ^ 32
  pub index : resp.segment_index < 256 ^ 4
  pub nonce : resp.nonce < 256 ^ 32

-- A response of at most a segment is sent, and is read back whatever padding follows it.
pub deserialize-serialize_response :
    (resp : VerificationResponse) (pad : List ℕ)
    → IsSendable resp
    → length resp.segment_data ≤ segment_size
    → (bytes : List ℕ) × (serialize_response resp ≡ ok bytes)
      × (deserialize_response (bytes ++ pad) ≡ ok resp)
unfolding serialize_response deserialize_response expect_type
deserialize-serialize_response resp pad w small =
    let found = flag_byte resp.found in
    let message =
      msg_verification_response
      ∷ (be_bytes 32 resp.chunk_id
          ++ (be_bytes 4 resp.segment_index
              ++ (be_bytes 32 resp.nonce ++ (be_bytes 1 found ++ sized resp.segment_data)))) in
    let bytes = message ++ pad in
    let at = At-type msg_verification_response (_ ++ pad) in
    let (chunk, at_index) = take_array-in bytes _ pad 32 resp.chunk_id 1 w.chunk at in
    let (index, at_nonce) =
      take_array-in bytes _ pad 4 resp.segment_index (1 + 32) w.index at_index in
    let (nonce, at_found) = take_array-in bytes _ pad 32 resp.nonce (1 + 32 + 4) w.nonce at_nonce in
    let (flag, at_data) =
      take_array-in bytes _ pad 1 found (1 + 32 + 4 + 32) (flag_byte-lt resp.found) at_found in
    let (segment, at_pad) =
      take_limited-At segment_size bytes resp.segment_data pad (1 + 32 + 4 + 32 + 1) small
        (omega arith) at_data in
    let within : ltb segment_size (length resp.segment_data) ≡ false = ground (arith, small) in
    (message, rw within refl, rw (chunk, index, nonce, flag, segment, flag_found resp.found) refl)
