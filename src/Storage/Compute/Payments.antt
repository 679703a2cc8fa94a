-- ===== src/Storage/Compute/Payments.antt =====
-- crates/static-storage/src/compute.rs: the wire format of payment quotes and confirmations.
use static.Common.{
  ℕ, Bool, Option, none, some, List, ◌∷◌, ◌++◌, length, be_bytes, ltb, if◌then◌else◌,
}
use static.Storage.Lease.{Result, ok, err, invalid_chunk_size, decryption_failed}
use static.Storage.Wire.{◌>>=◌, refuse_if, take_array, take_limited, expect_type, sized}
use static.Storage.Compute.{
  msg_payment_request, msg_payment_confirmation, max_payment_address_size, max_tx_hash_size,
  to_byte, from_byte, PaymentRequest, PaymentConfirmation,
}

unfoldable pub serialize_payment_request : PaymentRequest → Result (List ℕ)
serialize_payment_request req = do
  _ ←
      refuse_if (ltb max_payment_address_size (length req.address))
        (invalid_chunk_size max_payment_address_size (length req.address))
  ok (
      msg_payment_request
      ∷ (be_bytes 32 req.request_id
          ++ (be_bytes 1 (to_byte req.currency)
              ++ (be_bytes 8 req.amount
                  ++ (sized req.address ++ be_bytes 4 req.required_confirmations)))))

unfoldable pub serialize_payment_confirmation : PaymentConfirmation → Result (List ℕ)
serialize_payment_confirmation confirmation = do
  _ ←
      refuse_if (ltb max_tx_hash_size (length confirmation.tx_hash))
        (invalid_chunk_size max_tx_hash_size (length confirmation.tx_hash))
  ok (
      msg_payment_confirmation
      ∷ (be_bytes 32 confirmation.request_id
          ++ (be_bytes 1 (to_byte confirmation.currency) ++ sized confirmation.tx_hash)))

-- `from_byte(..).ok_or(StorageError::DecryptionFailed)`
abbrev pub or_failed {ℓ} : {A : Type ℓ} → Option A → Result A
or_failed none = err decryption_failed
or_failed (some a) = ok a

-- Whether bytes are UTF-8 is the standard library's to say.
module _ (utf8 : List ℕ → Bool) where
  -- `String::from_utf8(..).map_err(|_| StorageError::DecryptionFailed)`
  abbrev pub read_text : List ℕ → Result (List ℕ)
  read_text bytes = if utf8 bytes then ok bytes else err decryption_failed

  unfoldable pub deserialize_payment_request : List ℕ → Result PaymentRequest
  deserialize_payment_request bytes = do
    _ ← expect_type msg_payment_request msg_payment_request bytes
    (request_id, offset) ← take_array 32 bytes 1
    (code, offset) ← take_array 1 bytes offset
    currency ← or_failed (from_byte code)
    (amount, offset) ← take_array 8 bytes offset
    (text, offset) ← take_limited max_payment_address_size bytes offset
    address ← read_text text
    (required_confirmations, offset) ← take_array 4 bytes offset
    ok (record {
      request_id = request_id;
      currency = currency;
      amount = amount;
      address = address;
      required_confirmations = required_confirmations;
    })

  unfoldable pub deserialize_payment_confirmation : List ℕ → Result PaymentConfirmation
  deserialize_payment_confirmation bytes = do
    _ ← expect_type msg_payment_confirmation msg_payment_confirmation bytes
    (request_id, offset) ← take_array 32 bytes 1
    (code, offset) ← take_array 1 bytes offset
    currency ← or_failed (from_byte code)
    (text, offset) ← take_limited max_tx_hash_size bytes offset
    tx_hash ← read_text text
    ok (record { request_id = request_id; tx_hash = tx_hash; currency = currency })
