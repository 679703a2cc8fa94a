-- ===== src/Storage/Compute.antt =====
-- crates/static-storage/src/compute.rs: the messages of remote computation and its payment. A text is
-- its UTF-8 bytes; whether bytes are UTF-8 is a parameter.
pub mod Responses
pub mod Payments
pub mod RoundTrip
use static.Common.{
  ℕ, zero, suc, ◌+◌, ◌*◌, ◌%◌, Bool, true, false, not, ◌||◌, Option, none, some, List, [], ◌∷◌,
  ◌++◌, length, be_bytes, from_be, slice, ltb, ◌==◌, if◌then◌else◌,
}
use static.Storage.Lease.{Result, ok, err, StorageError, invalid_chunk_size, decryption_failed}
use static.Storage.Wire.{
  ◌>>=◌, refuse_if, with_room, take_array, take_bytes, take_limited, take_sized, expect_type,
  flag_byte, sized, RouteHopInfo, ReturnRoute, append_return_route,
}

abbrev pub msg_compute_request : ℕ
msg_compute_request = 3

abbrev pub msg_compute_response : ℕ
msg_compute_response = 4

abbrev pub msg_payment_request : ℕ
msg_payment_request = 5

abbrev pub msg_payment_confirmation : ℕ
msg_payment_confirmation = 6

abbrev pub max_compute_input_size : ℕ
max_compute_input_size = 32768

abbrev pub max_compute_output_size : ℕ
max_compute_output_size = 32768

abbrev pub max_payment_address_size : ℕ
max_payment_address_size = 1024

abbrev pub max_tx_hash_size : ℕ
max_tx_hash_size = 1024

abbrev pub max_payment_request_size : ℕ
max_payment_request_size = 2048

abbrev pub max_compute_route_hops : ℕ
max_compute_route_hops = 32

pub data Currency : Type 0 where
  monero : Currency
  darkfi : Currency
  navio : Currency

unfoldable pub to_byte : Currency → ℕ
to_byte monero = 0
to_byte darkfi = 1
to_byte navio = 2

unfoldable pub from_byte : ℕ → Option Currency
from_byte b =
    if b == 0
    then some monero
    else if b == 1
    then some darkfi
    else if b == 2
    then some navio
    else none

pub record ComputeRequest : Type 0 where
  pub from_node : ℕ
  pub module_content_id : ℕ
  pub module_content_pub_key : ℕ
  pub currency : ℕ
  pub payment_address : List ℕ
  pub request_id : ℕ
  pub return_route : ReturnRoute
  pub input_data : List ℕ

pub record ComputeResponse : Type 0 where
  pub request_id : ℕ
  pub output_data : List ℕ
  pub success : Bool
  pub error : Option (List ℕ)
  pub cpu_time_ms : ℕ
  pub memory_used : ℕ
  pub payment_required : Bool
  pub payment_request : List ℕ

pub record PaymentRequest : Type 0 where
  pub request_id : ℕ
  pub currency : Currency
  pub amount : ℕ
  pub address : List ℕ
  pub required_confirmations : ℕ

pub record PaymentConfirmation : Type 0 where
  pub request_id : ℕ
  pub tx_hash : List ℕ
  pub currency : Currency

unfoldable pub serialize_request : ComputeRequest → Result (List ℕ)
serialize_request req = do
  _ ←
      refuse_if (ltb max_compute_input_size (length req.input_data))
        (invalid_chunk_size max_compute_input_size (length req.input_data))
  _ ←
      refuse_if (ltb max_payment_address_size (length req.payment_address))
        (invalid_chunk_size max_payment_address_size (length req.payment_address))
  ok (
      msg_compute_request
      ∷ (be_bytes 16 req.from_node
          ++ (be_bytes 32 req.module_content_id
              ++ (be_bytes 32 req.module_content_pub_key
                  ++ (be_bytes 1 req.currency
                      ++ (sized req.payment_address
                          ++ (be_bytes 32 req.request_id
                              ++ (append_return_route req.return_route
                                  ++ sized req.input_data))))))))

-- A hop at an offset; its bytes were checked to be there.
unfoldable pub hop_at : List ℕ → ℕ → RouteHopInfo
hop_at bytes offset = record {
  public_key = from_be (slice bytes offset (offset + 32));
  node_id = from_be (slice bytes (offset + 32) (offset + 48));
}

unfoldable pub hops_at : ℕ → List ℕ → ℕ → List RouteHopInfo
hops_at zero bytes offset = []
hops_at (suc n) bytes offset = hop_at bytes offset ∷ hops_at n bytes (offset + 48)

unfoldable pub take_route : List ℕ → ℕ → Result (ReturnRoute × ℕ)
take_route bytes offset = do
  (hop_count, offset) ← take_array 4 bytes offset
  _ ←
      refuse_if (ltb max_compute_route_hops hop_count)
        (invalid_chunk_size max_compute_route_hops (length bytes))
  with_room (hop_count * 48 + 16) bytes offset (
      ok (
        record {
          hops = hops_at hop_count bytes offset;
          destination =
              from_be (slice bytes (offset + hop_count * 48) (offset + hop_count * 48 + 16));
        },
        offset + hop_count * 48 + 16,
      ))

-- A length and that many bytes, the limit checked after their presence.
unfoldable pub take_capped : ℕ → List ℕ → ℕ → Result (List ℕ)
take_capped limit bytes offset = do
  (part, offset) ← take_sized bytes offset
  _ ← refuse_if (ltb limit (length part)) (invalid_chunk_size limit (length part))
  ok part

unfoldable pub deserialize_request : List ℕ → Result ComputeRequest
deserialize_request bytes = do
  _ ← expect_type msg_compute_request msg_compute_request bytes
  (from_node, offset) ← take_array 16 bytes 1
  (module_content_id, offset) ← take_array 32 bytes offset
  (module_content_pub_key, offset) ← take_array 32 bytes offset
  (currency, offset) ← take_array 1 bytes offset
  (payment_address, offset) ← take_limited max_payment_address_size bytes offset
  (request_id, offset) ← take_array 32 bytes offset
  (return_route, offset) ← take_route bytes offset
  input_data ← take_capped max_compute_input_size bytes offset
  ok (record {
    from_node = from_node;
    module_content_id = module_content_id;
    module_content_pub_key = module_content_pub_key;
    currency = currency;
    payment_address = payment_address;
    request_id = request_id;
    return_route = return_route;
    input_data = input_data;
  })
