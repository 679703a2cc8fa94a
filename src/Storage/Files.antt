-- ===== src/Storage/Files.antt =====
-- crates/static-storage/src/lib.rs: a file as encrypted chunks. A chunk's key and the cipher are
-- parameters; a nonce `[u8; 12]` is the number of its bytes.
pub mod RoundTrip
use mathlib.Core.List.{reverse}
use static.Common.{
  ℕ, zero, suc, ◌+◌, ◌*◌, ◌-◌, ◌/◌, ◌≡◌, Option, none, some, List, [], ◌∷◌, ◌++◌, map, length,
  be_bytes, from_be, take, slice, replicate, copy_from_slice, min, max, ◌==◌, not, if◌then◌else◌,
}
use static.Storage.Lease.{Result, ok, err, StorageError, encryption_failed, decryption_failed}
use static.Storage.Wire.{◌>>=◌, refuse_if}

-- `master_key.derive(&format!("chunk:{}", index))` and the `encrypt` and `decrypt` of static-crypto,
-- over a key, a nonce and bytes; and `blake3::hash`.
pub record Cipher : Type 0 where
  pub derive_chunk : ℕ → ℕ → ℕ
  pub encrypt : ℕ → ℕ → List ℕ → List ℕ
  pub decrypt : ℕ → ℕ → List ℕ → Option (List ℕ)
  pub hash : List ℕ → ℕ

-- What ChaCha20-Poly1305 documents: a tag of 16 bytes, and that what is encrypted is decrypted.
pub record CipherLaws (c : Cipher) : Type 0 where
  pub length-encrypt :
      (key nonce : ℕ) (plain : List ℕ) → length (c.encrypt key nonce plain) ≡ length plain + 16
  pub decrypt-encrypt :
      (key nonce : ℕ) (plain : List ℕ)
      → c.decrypt key nonce (c.encrypt key nonce plain) ≡ some plain

abbrev pub chunk_size : ℕ
chunk_size = 1048576

pub record EncryptedChunk : Type 0 where
  pub id : ℕ
  pub bytes : List ℕ

pub record ContentManifest : Type 0 where
  pub content_id : ℕ
  pub encrypted_master_key : List ℕ
  pub chunk_ids : List ℕ
  pub original_size : ℕ
  pub data_shards : ℕ
  pub parity_shards : ℕ
  pub nonce : ℕ
  pub segment_hashes : List (List ℕ)

-- The nonce with its bytes 4..12 replaced by the index, lowest byte first.
unfoldable pub chunk_nonce : ℕ → ℕ → ℕ
chunk_nonce nonce index =
    from_be (copy_from_slice (be_bytes 12 nonce) 4 (reverse (be_bytes 8 index)))

unfoldable pub pad_chunk : List ℕ → List ℕ
pad_chunk plain =
    copy_from_slice (replicate chunk_size 0) 0 (take (min (length plain) chunk_size) plain)

abbrev or_failed : Option (List ℕ) → Result (List ℕ)
or_failed none = err decryption_failed
or_failed (some plain) = ok plain

unfoldable pub concat_ids : List ℕ → List ℕ
concat_ids [] = []
concat_ids (id ∷ ids) = be_bytes 32 id ++ concat_ids ids

-- The plaintext of a chunk number.
abbrev pub piece : List ℕ → ℕ → List ℕ
piece file_data i =
    slice file_data (i * chunk_size) (min (i * chunk_size + chunk_size) (length file_data))

abbrev pub count_chunks : List ℕ → ℕ
count_chunks file_data = max 1 ((length file_data + chunk_size - 1) / chunk_size)

-- `StreamingDecryptor`: the index of the next chunk, and the plaintext that is held. The zeroing of
-- memory is left out.
abbrev pub Stream : Type 0
Stream = ℕ × Option (List ℕ)

abbrev pub streamed : ℕ → Result (List ℕ) → Result (List ℕ) × Stream
streamed index (err e) = (err e, (index, none))
streamed index (ok plain) = (ok plain, (suc index, some plain))

module _ (c : Cipher) (master_key nonce : ℕ) where
  unfoldable pub encrypt_chunk : ℕ → List ℕ → Result EncryptedChunk
  encrypt_chunk index plain =
      let ciphertext =
        c.encrypt (c.derive_chunk master_key index) (chunk_nonce nonce index) (pad_chunk plain) in
      if not (length ciphertext == chunk_size + 16)
      then err encryption_failed
      else ok (record { id = c.hash ciphertext; bytes = ciphertext })

  unfoldable pub decrypt_chunk : ℕ → EncryptedChunk → Result (List ℕ)
  decrypt_chunk index chunk =
      or_failed (c.decrypt (c.derive_chunk master_key index) (chunk_nonce nonce index) chunk.bytes)

  -- The chunks `i..i + n`.
  unfoldable pub encrypt_pieces : List ℕ → ℕ → ℕ → Result (List EncryptedChunk)
  encrypt_pieces file_data i zero = ok []
  encrypt_pieces file_data i (suc n) = do
    chunk ← encrypt_chunk i (piece file_data i)
    chunks ← encrypt_pieces file_data (suc i) n
    ok (chunk ∷ chunks)

  abbrev pub manifest_of : List ℕ → List EncryptedChunk → ContentManifest
  manifest_of file_data chunks =
      let chunk_ids = map (λ (x : EncryptedChunk). x.id) chunks in
      record {
        content_id = c.hash (concat_ids chunk_ids);
        encrypted_master_key = [];
        chunk_ids = chunk_ids;
        original_size = length file_data;
        data_shards = 10;
        parity_shards = 5;
        nonce = nonce;
        segment_hashes = [];
      }

  unfoldable pub encrypt_file : List ℕ → Result (List EncryptedChunk × ContentManifest)
  encrypt_file file_data = do
    chunks ← encrypt_pieces file_data 0 (count_chunks file_data)
    ok (chunks, manifest_of file_data chunks)

  -- The loop of `decrypt_file`, at an index and what is decrypted so far.
  unfoldable pub decrypt_from : ContentManifest → ℕ → List ℕ → List EncryptedChunk → Result (List ℕ)
  decrypt_from manifest i result [] = ok result
  decrypt_from manifest i result (chunk ∷ chunks) = do
    plain ← decrypt_chunk i chunk
    let remaining = manifest.original_size - length result
    decrypt_from manifest (suc i) (result ++ take (min (length plain) remaining) plain) chunks

  unfoldable pub decrypt_file : List EncryptedChunk → ContentManifest → Result (List ℕ)
  decrypt_file chunks manifest = decrypt_from manifest 0 [] chunks

  unfoldable pub next_chunk : Stream → EncryptedChunk → Result (List ℕ) × Stream
  next_chunk s chunk = streamed s.0 (decrypt_chunk s.0 chunk)
