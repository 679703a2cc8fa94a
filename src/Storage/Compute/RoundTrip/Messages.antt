-- ===== src/Storage/Compute/RoundTrip/Messages.antt =====
-- Compute responses, payment quotes and payment confirmations that are sent are read back.
use static.Common.{
  ℕ, ◌+◌, ◌^◌, ◌<◌, ◌≤◌, ◌≡◌, ◌≢◌, refl, Bool, true, false, Option, none, some, List, [], ◌∷◌, ◌++◌,
  length, be_bytes, ltb, u32_mod, arith, subst,
}
use mathlib.Core.List.{append_assoc}
use static.Storage.Lease.{ok}
use static.Storage.Wire.{expect_type, flag_byte, sized}
use static.Storage.Wire.Reading.{
  At, At-type, At-room, At-number, take_array-At, take_array-in, take_limited-in, take_limited-At,
  take_sized-in, flag_found, flag_byte-lt,
}
use static.Storage.Compute.{
  ComputeResponse, PaymentRequest, PaymentConfirmation, Currency, monero, darkfi, navio, to_byte,
  from_byte, max_compute_output_size, max_payment_address_size, max_payment_request_size,
  max_tx_hash_size, msg_compute_response, msg_payment_request, msg_payment_confirmation,
}
use static.Storage.Compute.Responses.{
  or_empty, serialize_response, take_counters, read_error, deserialize_response,
}
use static.Storage.Compute.Payments.{
  serialize_payment_request, serialize_payment_confirmation, deserialize_payment_request,
  deserialize_payment_confirmation,
}
use static.Storage.Compute.RoundTrip.{take_capped-At}

from_byte-to_byte : (currency : Currency) → from_byte (to_byte currency) ≡ some currency
unfolding from_byte to_byte
from_byte-to_byte monero = refl
from_byte-to_byte darkfi = refl
from_byte-to_byte navio = refl

to_byte-lt : (currency : Currency) → to_byte currency < 256 ^ 1
unfolding to_byte
to_byte-lt monero = omega arith
to_byte-lt darkfi = omega arith
to_byte-lt navio = omega arith

take_counters-At :
    (bytes pad more : List ℕ) (a b start : ℕ)
    → a < 256 ^ 8
    → b < 256 ^ 8
    → At bytes start ((be_bytes 8 a ++ (be_bytes 8 b ++ more)) ++ pad)
    → (take_counters bytes start ≡ ok (a, b, start + 16)) × At bytes (start + 16) (more ++ pad)
unfolding take_counters
take_counters-At bytes pad more a b start fits_a fits_b at =
    let at' = subst (At bytes start) (append_assoc (be_bytes 8 a) (be_bytes 8 b ++ more) pad) at in
    let (first, at_b) = At-number bytes _ 8 a start (start + 8) fits_a at' refl in
    let at_b' = subst (At bytes (start + 8)) (append_assoc (be_bytes 8 b) more pad) at_b in
    let (second, at_more) =
      At-number bytes (more ++ pad) 8 b (start + 8) (start + 16) fits_b at_b' (omega arith) in
    let room = At-room bytes (more ++ pad) (start + 16) at_more in
    let long : ltb (length bytes) (start + 16) ≡ false = ground (arith, room) in
    (rw (long, first, second) refl, at_more)

-- A payment quote with a UTF-8 address of at most 1024 bytes is sent and read back, whatever padding
-- follows it.
pub deserialize-serialize_payment_request :
    (utf8 : List ℕ → Bool) (req : PaymentRequest) (pad : List ℕ)
    → req.request_id < 256 ^ 32
    → req.amount < 256 ^ 8
    → req.required_confirmations < 256 ^ 4
    → length req.address ≤ max_payment_address_size
    → utf8 req.address ≡ true
    → (bytes : List ℕ) × (serialize_payment_request req ≡ ok bytes)
      × (deserialize_payment_request utf8 (bytes ++ pad) ≡ ok req)
unfolding serialize_payment_request deserialize_payment_request expect_type
deserialize-serialize_payment_request utf8 req pad id amount confirmations short text =
    let message =
      msg_payment_request
      ∷ (be_bytes 32 req.request_id
          ++ (be_bytes 1 (to_byte req.currency)
              ++ (be_bytes 8 req.amount
                  ++ (sized req.address ++ be_bytes 4 req.required_confirmations)))) in
    let bytes = message ++ pad in
    let at = At-type msg_payment_request (_ ++ pad) in
    let (request, at_code) = take_array-in bytes _ pad 32 req.request_id 1 id at in
    let (code, at_amount) =
      take_array-in bytes _ pad 1 (to_byte req.currency) (1 + 32) (to_byte-lt req.currency)
        at_code in
    let (value, at_address) =
      take_array-in bytes _ pad 8 req.amount (1 + 32 + 1) amount at_amount in
    let (address, at_last) =
      take_limited-in max_payment_address_size bytes req.address _ pad (1 + 32 + 1 + 8) short
        (omega arith) at_address in
    let (last, at_pad) =
      take_array-At bytes pad 4 req.required_confirmations (1 + 32 + 1 + 8 + 4 + length req.address)
        confirmations at_last in
    let small : ltb max_payment_address_size (length req.address) ≡ false = ground (arith, short) in
    (
      message,
      rw small refl,
      rw (request, code, from_byte-to_byte req.currency, value, address, text, last) refl,
    )

-- A confirmation with a UTF-8 hash of at most 1024 bytes is sent and read back, whatever padding
-- follows it.
pub deserialize-serialize_payment_confirmation :
    (utf8 : List ℕ → Bool) (confirmation : PaymentConfirmation) (pad : List ℕ)
    → confirmation.request_id < 256 ^ 32
    → length confirmation.tx_hash ≤ max_tx_hash_size
    → utf8 confirmation.tx_hash ≡ true
    → (bytes : List ℕ) × (serialize_payment_confirmation confirmation ≡ ok bytes)
      × (deserialize_payment_confirmation utf8 (bytes ++ pad) ≡ ok confirmation)
unfolding serialize_payment_confirmation deserialize_payment_confirmation expect_type
deserialize-serialize_payment_confirmation utf8 confirmation pad id short text =
    let message =
      msg_payment_confirmation
      ∷ (be_bytes 32 confirmation.request_id
          ++ (be_bytes 1 (to_byte confirmation.currency) ++ sized confirmation.tx_hash)) in
    let bytes = message ++ pad in
    let at = At-type msg_payment_confirmation (_ ++ pad) in
    let (request, at_code) = take_array-in bytes _ pad 32 confirmation.request_id 1 id at in
    let (code, at_hash) =
      take_array-in bytes _ pad 1 (to_byte confirmation.currency) (1 + 32)
        (to_byte-lt confirmation.currency) at_code in
    let (hash, at_pad) =
      take_limited-At max_tx_hash_size bytes confirmation.tx_hash pad (1 + 32 + 1) short
        (omega arith) at_hash in
    let small : ltb max_tx_hash_size (length confirmation.tx_hash) ≡ false =
      ground (arith, short) in
    (
      message,
      rw small refl,
      rw (request, code, from_byte-to_byte confirmation.currency, hash, text) refl,
    )

-- The error of a response is no text, or one that is UTF-8 and not empty.
abbrev pub IsError : (List ℕ → Bool) → Option (List ℕ) → Type 0
IsError utf8 none = Unit {0}
IsError utf8 (some text) = (utf8 text ≡ true) × (length text ≢ 0) × (length text < u32_mod)

read_error-or_empty :
    (utf8 : List ℕ → Bool) (error : Option (List ℕ))
    → IsError utf8 error
    → (read_error utf8 (or_empty error) ≡ ok error) × (length (or_empty error) < u32_mod)
unfolding read_error
read_error-or_empty utf8 none h = (refl, omega arith)
read_error-or_empty utf8 (some []) (valid, full, fits) = absurd (full refl)
read_error-or_empty utf8 (some (b ∷ text)) (valid, full, fits) = (rw valid refl, fits)

-- The fields of a response fit their widths and the limits of reader and writer.
pub record IsSendable (utf8 : List ℕ → Bool) (resp : ComputeResponse) : Type 0 where
  pub request : resp.request_id < 256 ^ 32
  pub error : IsError utf8 resp.error
  pub cpu : resp.cpu_time_ms < 256 ^ 8
  pub memory : resp.memory_used < 256 ^ 8
  pub quote : length resp.payment_request ≤ max_payment_request_size
  pub output : length resp.output_data ≤ max_compute_output_size

-- A compute response within the limits, whose error is absent or a text that is not empty, is sent
-- and read back, whatever padding follows it.
pub deserialize-serialize_compute_response :
    (utf8 : List ℕ → Bool) (resp : ComputeResponse) (pad : List ℕ)
    → IsSendable utf8 resp
    → (bytes : List ℕ) × (serialize_response resp ≡ ok bytes)
      × (deserialize_response utf8 (bytes ++ pad) ≡ ok resp)
unfolding serialize_response deserialize_response expect_type
deserialize-serialize_compute_response utf8 resp pad w =
    let text = or_empty resp.error in
    let paid = flag_byte resp.payment_required in
    let message =
      msg_compute_response
      ∷ (be_bytes 32 resp.request_id
          ++ (be_bytes 1 (flag_byte resp.success)
              ++ (sized text
                  ++ (be_bytes 8 resp.cpu_time_ms
                      ++ (be_bytes 8 resp.memory_used
                          ++ (be_bytes 1 paid
                              ++ (sized resp.payment_request ++ sized resp.output_data))))))) in
    let bytes = message ++ pad in
    let o = 1 + 32 + 1 + 4 + length text in
    let (error, fits) = read_error-or_empty utf8 resp.error w.error in
    let at = At-type msg_compute_response (_ ++ pad) in
    let (request, at_success) = take_array-in bytes _ pad 32 resp.request_id 1 w.request at in
    let (success, at_error) =
      take_array-in bytes _ pad 1 (flag_byte resp.success) (1 + 32) (flag_byte-lt resp.success)
        at_success in
    let (read, at_counters) = take_sized-in bytes text _ pad (1 + 32 + 1) fits at_error in
    let (counters, at_paid) =
      take_counters-At bytes pad _ resp.cpu_time_ms resp.memory_used o w.cpu w.memory at_counters in
    let (payment, at_quote) =
      take_array-in bytes _ pad 1 paid (o + 16) (flag_byte-lt resp.payment_required) at_paid in
    let (quote, at_output) =
      take_limited-in max_payment_request_size bytes resp.payment_request _ pad (o + 16 + 1) w.quote
        (omega arith) at_quote in
    let output =
      take_capped-At max_compute_output_size bytes resp.output_data pad _ w.output (omega arith)
        at_output in
    let small : ltb max_compute_output_size (length resp.output_data) ≡ false =
      ground (arith, w.output) in
    let short : ltb max_payment_request_size (length resp.payment_request) ≡ false =
      ground (arith, w.quote) in
    (
      message,
      rw (small, short) refl,
      rw
          (
            request,
            success,
            read,
            error,
            counters,
            payment,
            quote,
            output,
            flag_found resp.success,
            flag_found resp.payment_required,
          )
          refl,
    )
