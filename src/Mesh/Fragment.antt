-- ===== src/Mesh/Fragment.antt =====
-- crates/static-mesh/src/fragment.rs: splitting a payload into fragments, and the layout of a
-- fragment in a Sphinx body. Reassembly is in the children.
pub mod Codec
pub mod Pieces
pub mod Reassembler
pub mod Manager
use static.Common.{
  ℕ, zero, suc, ◌+◌, ◌-◌, ◌*◌, ◌/◌, ◌%◌, ◌^◌, min, max, List, [], ◌∷◌, length, take, drop,
  replicate, slice, copy_from_slice, be_bytes, from_be, u32_mod, ltb, if◌then◌else◌,
}

-- `static_sphinx::BODY_SIZE`
abbrev pub body_size : ℕ
body_size = 1024

abbrev pub fragment_header_size : ℕ
fragment_header_size = 12

abbrev pub max_fragment_data : ℕ
max_fragment_data = body_size - fragment_header_size

abbrev pub max_fragments_per_message : ℕ
max_fragments_per_message = 2048

pub record Fragment : Type 0 where
  pub fragment_id : ℕ
  pub total_fragments : ℕ
  pub bytes : List ℕ

pub data FragmentError : Type 0 where
  too_short no_fragments : FragmentError
  missing_fragment : ℕ → FragmentError
  invalid_fragment_id too_many_fragments : FragmentError

pub data Result {ℓ} (A : Type ℓ) : Type ℓ where
  ok : A → Result A
  err : FragmentError → Result A

-- The rounds `i..i + n` of the loop.
unfoldable pub fragment_range : List ℕ → ℕ → ℕ → ℕ → List Fragment
fragment_range payload total i zero = []
fragment_range payload total i (suc n) =
    let start = i * max_fragment_data in
    let end = min (start + max_fragment_data) (length payload) in
    let piece = if ltb start (length payload) then slice payload start end else [] in
    record { fragment_id = i; total_fragments = total; bytes = piece }
    ∷ fragment_range payload total (suc i) n

-- The length of a `Vec` is below `2 ^ 63`, so its sum does not wrap; the cast to `u32` may.
abbrev pub total_of : List ℕ → ℕ
total_of payload = max ((length payload + max_fragment_data - 1) / max_fragment_data % u32_mod) 1

unfoldable pub fragment_payload : List ℕ → List Fragment
fragment_payload payload = fragment_range payload (total_of payload) 0 (total_of payload)

unfoldable pub serialize_fragment : Fragment → List ℕ
serialize_fragment f =
    let data_len = min (length f.bytes) max_fragment_data in
    let buf = copy_from_slice (replicate body_size 0) 0 (be_bytes 4 f.fragment_id) in
    let buf' = copy_from_slice buf 4 (be_bytes 4 f.total_fragments) in
    let buf'' = copy_from_slice buf' 8 (be_bytes 4 data_len) in
    copy_from_slice buf'' 12 (take data_len f.bytes)

unfoldable pub deserialize_fragment : List ℕ → Result Fragment
deserialize_fragment body =
    if ltb (length body) fragment_header_size
    then err too_short
    else (let data_end = fragment_header_size + from_be (slice body 8 12) in
        if ltb (length body) data_end
        then err too_short
        else ok (record {
          fragment_id = from_be (slice body 0 4);
          total_fragments = from_be (slice body 4 8);
          bytes = slice body fragment_header_size data_end;
        }))
