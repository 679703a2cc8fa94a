-- ===== src/Storage/Compute/Responses.antt =====
-- crates/static-storage/src/compute.rs: the wire format of a compute response.
use static.Common.{
  ℕ, ◌+◌, Bool, Option, none, some, List, [], ◌∷◌, ◌++◌, length, be_bytes, from_be, slice, ltb,
  ◌==◌, if◌then◌else◌,
}
use static.Storage.Lease.{Result, ok, err, invalid_chunk_size, decryption_failed}
use static.Storage.Wire.{
  ◌>>=◌, refuse_if, with_room, take_array, take_limited, take_sized, expect_type, flag_byte, sized,
}
use static.Storage.Compute.{
  msg_compute_response, max_compute_output_size, max_payment_request_size, ComputeResponse,
  take_capped,
}

-- `resp.error.clone().unwrap_or_default()`
abbrev pub or_empty : Option (List ℕ) → List ℕ
or_empty none = []
or_empty (some text) = text

unfoldable pub serialize_response : ComputeResponse → Result (List ℕ)
serialize_response resp = do
  _ ←
      refuse_if (ltb max_compute_output_size (length resp.output_data))
        (invalid_chunk_size max_compute_output_size (length resp.output_data))
  _ ←
      refuse_if (ltb max_payment_request_size (length resp.payment_request))
        (invalid_chunk_size max_payment_request_size (length resp.payment_request))
  ok (
      msg_compute_response
      ∷ (be_bytes 32 resp.request_id
          ++ (be_bytes 1 (flag_byte resp.success)
              ++ (sized (or_empty resp.error)
                  ++ (be_bytes 8 resp.cpu_time_ms
                      ++ (be_bytes 8 resp.memory_used
                          ++ (be_bytes 1 (flag_byte resp.payment_required)
                              ++ (sized resp.payment_request ++ sized resp.output_data))))))))

-- Two `u64`, after one check of their 16 bytes.
unfoldable pub take_counters : List ℕ → ℕ → Result (ℕ × ℕ × ℕ)
take_counters bytes offset = with_room 16 bytes offset (
    ok (
      from_be (slice bytes offset (offset + 8)),
      from_be (slice bytes (offset + 8) (offset + 16)),
      offset + 16,
    ))

-- Whether bytes are UTF-8 is the standard library's to say.
module _ (utf8 : List ℕ → Bool) where
  -- No text for no bytes.
  unfoldable pub read_error : List ℕ → Result (Option (List ℕ))
  read_error [] = ok none
  read_error (b ∷ bytes) = if utf8 (b ∷ bytes) then ok (some (b ∷ bytes)) else err decryption_failed

  unfoldable pub deserialize_response : List ℕ → Result ComputeResponse
  deserialize_response bytes = do
    _ ← expect_type msg_compute_response msg_compute_response bytes
    (request_id, offset) ← take_array 32 bytes 1
    (success, offset) ← take_array 1 bytes offset
    (text, offset) ← take_sized bytes offset
    error ← read_error text
    (cpu_time_ms, memory_used, offset) ← take_counters bytes offset
    (payment_required, offset) ← take_array 1 bytes offset
    (payment_request, offset) ← take_limited max_payment_request_size bytes offset
    output_data ← take_capped max_compute_output_size bytes offset
    ok (record {
      request_id = request_id;
      output_data = output_data;
      success = success == 1;
      error = error;
      cpu_time_ms = cpu_time_ms;
      memory_used = memory_used;
      payment_required = payment_required == 1;
      payment_request = payment_request;
    })
