-- ===== src/Storage/Compute/RoundTrip.antt =====
-- Messages of remote computation that are sent are read back.
pub mod Messages
use static.Common.{
  ℕ, zero, suc, ◌+◌, ◌*◌, ◌%◌, ◌^◌, ◌<◌, ◌≤◌, ◌≡◌, refl, sym, ◌∙◌, ap, Bool, true, false, not, ◌||◌,
  Option, none, some, List, [], ◌∷◌, ◌++◌, length, be_bytes, from_be, slice, drop, ltb, ◌==◌,
  u32_mod, arith, All, subst, length-append, length-be_bytes,
}
use mathlib.Core.List.{append_assoc}
use static.Storage.Lease.{Result, ok, err}
use static.Storage.Wire.{
  ◌>>=◌, with_room, take_array, take_sized, expect_type, flag_byte, sized, RouteHopInfo,
  ReturnRoute, append_hops, append_return_route,
}
use static.Storage.Wire.Reading.{
  At, At-type, At-room, At-slice, At-number, At-next, take_array-At, take_array-in, take_limited-in,
  take_limited-At, take_sized-in, take_sized-At, IsHop, IsRoute, flag_found, flag_byte-lt,
}
use static.Storage.Compute.{
  ComputeRequest, ComputeResponse, PaymentRequest, PaymentConfirmation, Currency, monero, darkfi,
  navio, to_byte, from_byte, serialize_request, hop_at, hops_at, take_route, take_capped,
  deserialize_request, max_compute_input_size, max_compute_output_size, max_payment_address_size,
  max_payment_request_size, max_tx_hash_size, max_compute_route_hops, msg_compute_request,
  msg_compute_response, msg_payment_request, msg_payment_confirmation,
}
use static.Storage.Compute.Responses.{
  or_empty, serialize_response, take_counters, read_error, deserialize_response,
}
use static.Storage.Compute.Payments.{
  serialize_payment_request, serialize_payment_confirmation, or_failed, read_text,
  deserialize_payment_request, deserialize_payment_confirmation,
}

hops_at-At :
    (bytes rest : List ℕ) (hops : List RouteHopInfo) (start end : ℕ)
    → All IsHop hops
    → At bytes start (append_hops hops ++ rest)
    → end ≡ start + length hops * 48
    → (hops_at (length hops) bytes start ≡ hops) × At bytes end rest
unfolding hops_at hop_at append_hops
hops_at-At bytes rest [] start end fits at last =
    let same : end ≡ start = omega arith in (refl, rw same at)
hops_at-At bytes rest (hop ∷ hops) start end fits at last =
    let at' =
      subst (At bytes start)
        (append_assoc (be_bytes 32 hop.public_key) (be_bytes 16 hop.node_id ++ append_hops hops)
          rest)
        at in
    let (key, at_id) = At-number bytes _ 32 hop.public_key start (start + 32) (fits.0).0 at' refl in
    let at_id' =
      subst (At bytes (start + 32)) (append_assoc (be_bytes 16 hop.node_id) (append_hops hops) rest)
        at_id in
    let (id, at_hops) =
      At-number bytes _ 16 hop.node_id (start + 32) (start + 48) (fits.0).1 at_id' (omega arith) in
    let (more, final) =
      hops_at-At bytes rest hops (start + 48) end fits.1 at_hops (omega (arith, last)) in
    (rw (key, id, more) refl, final)

take_route-At :
    (bytes pad : List ℕ) (route : ReturnRoute) (start : ℕ)
    → IsRoute route
    → At bytes start (append_return_route route ++ pad)
    → let end = start + 4 + length route.hops * 48 + 16 in
      (take_route bytes start ≡ ok (route, end)) × At bytes end pad
unfolding take_route append_return_route
take_route-At bytes pad route start fits at =
    let n = length route.hops in
    let same : n % u32_mod ≡ n = omega (arith, fits.few) in
    let within : ltb max_compute_route_hops n ≡ false = ground (arith, fits.few) in
    let (count, at_hops) = take_array-in bytes _ pad 4 (n % u32_mod) start (omega arith) at in
    let at_hops' =
      subst (At bytes (start + 4))
        (append_assoc (append_hops route.hops) (be_bytes 16 route.destination) pad) at_hops in
    let (hops, at_destination) =
      hops_at-At bytes _ route.hops (start + 4) (start + 4 + n * 48) fits.hops at_hops' refl in
    let (destination, at_end) =
      At-number bytes pad 16 route.destination (start + 4 + n * 48) (start + 4 + n * 48 + 16)
        fits.destination at_destination refl in
    let room = At-room bytes pad (start + 4 + n * 48 + 16) at_end in
    let long : ltb (length bytes) (start + 4 + (n * 48 + 16)) ≡ false = ground (arith, room) in
    (rw (count, same, within, long, hops, destination) refl, at_end)

pub take_capped-At :
    (limit : ℕ) (bytes part pad : List ℕ) (start : ℕ)
    → length part ≤ limit
    → limit < u32_mod
    → At bytes start (sized part ++ pad)
    → take_capped limit bytes start ≡ ok part
unfolding take_capped
take_capped-At limit bytes part pad start few small at =
    let (value, next) = take_sized-At bytes part pad start (omega (arith, few, small)) at in
    let within : ltb limit (length part) ≡ false = ground (arith, few) in rw (value, within) refl

-- The fields of a request fit their widths and the limits of reader and writer.
pub record IsWireable (req : ComputeRequest) : Type 0 where
  pub from : req.from_node < 256 ^ 16
  pub content : req.module_content_id < 256 ^ 32
  pub key : req.module_content_pub_key < 256 ^ 32
  pub currency : req.currency < 256 ^ 1
  pub address : length req.payment_address ≤ max_payment_address_size
  pub request : req.request_id < 256 ^ 32
  pub route : IsRoute req.return_route
  pub input : length req.input_data ≤ max_compute_input_size

-- A compute request within the limits is sent, and is read back whatever padding follows it.
pub deserialize-serialize_compute_request :
    (req : ComputeRequest) (pad : List ℕ)
    → IsWireable req
    → (bytes : List ℕ) × (serialize_request req ≡ ok bytes)
      × (deserialize_request (bytes ++ pad) ≡ ok req)
unfolding serialize_request deserialize_request expect_type
deserialize-serialize_compute_request req pad w =
    let message =
      msg_compute_request
      ∷ (be_bytes 16 req.from_node
          ++ (be_bytes 32 req.module_content_id
              ++ (be_bytes 32 req.module_content_pub_key
                  ++ (be_bytes 1 req.currency
                      ++ (sized req.payment_address
                          ++ (be_bytes 32 req.request_id
                              ++ (append_return_route req.return_route
                                  ++ sized req.input_data))))))) in
    let bytes = message ++ pad in
    let o = 1 + 16 + 32 + 32 + 1 + 4 + length req.payment_address in
    let at = At-type msg_compute_request (_ ++ pad) in
    let (from, at_content) = take_array-in bytes _ pad 16 req.from_node 1 w.from at in
    let (content, at_key) =
      take_array-in bytes _ pad 32 req.module_content_id (1 + 16) w.content at_content in
    let (key, at_currency) =
      take_array-in bytes _ pad 32 req.module_content_pub_key (1 + 16 + 32) w.key at_key in
    let (currency, at_address) =
      take_array-in bytes _ pad 1 req.currency (1 + 16 + 32 + 32) w.currency at_currency in
    let (address, at_request) =
      take_limited-in max_payment_address_size bytes req.payment_address _ pad
        (1 + 16 + 32 + 32 + 1) w.address (omega arith) at_address in
    let (request, at_route) = take_array-in bytes _ pad 32 req.request_id o w.request at_request in
    let at_route' =
      subst (At bytes (o + 32))
        (append_assoc (append_return_route req.return_route) (sized req.input_data) pad) at_route in
    let (route, at_input) = take_route-At bytes _ req.return_route (o + 32) w.route at_route' in
    let input =
      take_capped-At max_compute_input_size bytes req.input_data pad _ w.input (omega arith)
        at_input in
    let small : ltb max_compute_input_size (length req.input_data) ≡ false =
      ground (arith, w.input) in
    let short : ltb max_payment_address_size (length req.payment_address) ≡ false =
      ground (arith, w.address) in
    (
      message,
      rw (small, short) refl,
      rw (from, content, key, currency, address, request, route, input) refl,
    )
