-- ===== src/Storage/Retrieval/Examples.antt =====
-- The theorems on files, retrieval, verification and remote computation at concrete values.
use static.Common.{
  get_elem?, ℕ, ◌+◌, ◌-◌, ◌≡◌, refl, ap, ◌≤◌, ◌∙◌, true, false, some, List, [], ◌∷◌, ◌++◌, length,
  arith, replicate, length-append, take, drop, take-append,
}
use static.HashMap.{get}
use static.Storage.Lease.{ok}
use static.Storage.Examples.{toy}
use static.Storage.Holder.{ChunkHolder}
use static.Storage.Wire.{ReturnRoute}
use static.Storage.Wire.Reading.{IsRoute}
use static.Storage.Verification.{
  segment_of, VerificationChallenge, handle_verification_challenge, verify_segment_response,
  compute_segment_hashes, segments,
}
use static.Storage.Verification.Possession.{get_elem?-segments, holder_passes}
use static.Storage.Files.{
  Cipher, CipherLaws, EncryptedChunk, chunk_size, pad_chunk, piece, encrypt_chunk, encrypt_pieces,
  encrypt_file, manifest_of,
}
use static.Storage.Files.RoundTrip.{length-pad_chunk}
use static.Storage.Retrieval.{ChunkRequest, serialize_request, deserialize_request}
use static.Storage.Retrieval.RoundTrip.{deserialize-serialize_request}
use static.Storage.Retrieval.Retriever.{new, start_retrieval, record_all, is_complete, assemble}
use static.Storage.Retrieval.Retriever.Assembly.{single-IsGenuine, retrieve_published}

-- A cipher that appends a tag of zeros.
abbrev tagged : Cipher
tagged = record {
  derive_chunk = λ key index. key + index;
  encrypt = λ key nonce plain. plain ++ replicate 16 0;
  decrypt = λ key nonce bytes. some (take (length bytes - 16) bytes);
  hash = λ bytes. length bytes;
}

take-tagged :
    (plain tag : List ℕ)
    → length tag ≡ 16
    → take (length (plain ++ tag) - 16) (plain ++ tag) ≡ plain
take-tagged plain tag h =
    take-append plain tag (length (plain ++ tag) - 16) (omega (arith, length-append plain tag, h))

tagged-laws : CipherLaws tagged
unfolding replicate
tagged-laws = record {
  length-encrypt = λ key nonce plain. length-append plain (replicate 16 0);
  decrypt-encrypt = λ key nonce plain. ap some (take-tagged plain (replicate 16 0) refl);
}

-- The chunk of the empty file.
abbrev only_bytes : List ℕ
only_bytes = tagged.encrypt 5 7 (pad_chunk (piece [] 0))

abbrev only_chunk : EncryptedChunk
only_chunk = record { id = tagged.hash only_bytes; bytes = only_bytes }

only_chunk_encrypted :
    encrypt_file tagged 5 7 [] ≡ ok (only_chunk ∷ [], manifest_of tagged 5 7 [] (only_chunk ∷ []))
unfolding encrypt_file encrypt_pieces encrypt_chunk take replicate
only_chunk_encrypted =
    let size : length only_bytes ≡ chunk_size + 16 =
      length-append (pad_chunk (piece [] 0)) (replicate 16 0)
      ∙ ap (λ (n : ℕ). n + 16) (length-pad_chunk (piece [] 0) (short_piece refl)) in
    rw size refl
  where
    short_piece : length (piece [] 0) ≡ 0 → length (piece [] 0) ≤ chunk_size
    short_piece e = omega (arith, e)

-- It comes twice.
abbrev arrivals : List EncryptedChunk
arrivals = only_chunk ∷ (only_chunk ∷ [])

retrieve_published_example :
    let r =
      record_all arrivals (start_retrieval (manifest_of tagged 5 7 [] (only_chunk ∷ [])) 5 new) in
    (is_complete r ≡ true) × (assemble tagged r ≡ ok [])
retrieve_published_example =
    retrieve_published tagged 5 7 [] (only_chunk ∷ []) arrivals
      (manifest_of tagged 5 7 [] (only_chunk ∷ [])) tagged-laws only_chunk_encrypted (refl, tt)
      (single-IsGenuine only_chunk, (single-IsGenuine only_chunk, tt)) (λ k h. ground (arith, h))

abbrev a_route : ReturnRoute
a_route = record { hops = record { public_key = 77; node_id = 5 } ∷ []; destination = 9 }

a_route-IsRoute : IsRoute a_route
a_route-IsRoute = record {
  hops = ((omega arith, omega arith), tt);
  few = omega arith;
  destination = omega arith;
}

abbrev a_request : ChunkRequest
a_request = record { chunk_id = 300; return_route = a_route; surb = some (1 ∷ (2 ∷ [])) }

deserialize-serialize_request_example :
    deserialize_request (serialize_request a_request ++ (0 ∷ (0 ∷ []))) ≡ ok a_request
deserialize-serialize_request_example =
    deserialize-serialize_request a_request (0 ∷ (0 ∷ []))
      (record { chunk = omega arith; route = a_route-IsRoute; suffix = omega arith })

abbrev small_chunk : List ℕ
small_chunk = 1 ∷ (2 ∷ (3 ∷ []))

abbrev a_challenge : VerificationChallenge
a_challenge = record { chunk_id = 300; segment_index = 0; nonce = 6; return_route = a_route }

abbrev a_holder : ChunkHolder
a_holder = record { chunks = (300, small_chunk) ∷ []; chunk_to_content = [] }

abbrev a_stranger : ChunkHolder
a_stranger = record { chunks = []; chunk_to_content = [] }

holder_passes_example :
    (verify_segment_response toy
        (handle_verification_challenge a_holder a_challenge)
        (toy.hash small_chunk)
      ≡ true)
    × (verify_segment_response toy
          (handle_verification_challenge a_stranger a_challenge)
          (toy.hash small_chunk)
        ≡ false)
unfolding get compute_segment_hashes segments take drop
holder_passes_example =
    holder_passes toy a_holder a_stranger a_challenge (small_chunk ∷ []) 0 (toy.hash small_chunk)
      small_chunk (toy.hash small_chunk ∷ []) refl refl refl refl refl

get_elem?-segments_example : get_elem? (segments 3 small_chunk) 0 ≡ segment_of 0 (some small_chunk)
get_elem?-segments_example = get_elem?-segments 3 0 small_chunk (omega arith)
