-- ===== src/Storage/Retrieval/Retriever.antt =====
-- crates/static-storage/src/retrieval.rs, `ContentRetriever`: which chunks have come, and the file that
-- they make up.
pub mod Pending
pub mod Assembly
use static.Common.{
  ℕ, Bool, true, false, Option, none, some, List, [], ◌∷◌, length, ◌==◌, ◌&&◌, if◌then◌else◌,
}
use static.HashMap.{HashMap, get, insert, remove, contains_key}
use static.Storage.Lease.{Result, ok, err, StorageError, content_not_found}
use static.Storage.Wire.{◌>>=◌}
use static.Storage.Files.{Cipher, EncryptedChunk, ContentManifest, decrypt_file}

pub record ContentRetriever : Type 0 where
  pub pending : HashMap Bool
  pub received : HashMap EncryptedChunk
  pub manifest : Option ContentManifest
  pub master_key : Option ℕ
  pub nonce : Option ℕ

abbrev pub new : ContentRetriever
new = record { pending = []; received = []; manifest = none; master_key = none; nonce = none }

unfoldable pub expect_ids : List ℕ → HashMap Bool → HashMap Bool
expect_ids [] pending = pending
expect_ids (id ∷ ids) pending = expect_ids ids (insert id true pending)

unfoldable pub start_retrieval : ContentManifest → ℕ → ContentRetriever → ContentRetriever
start_retrieval manifest master_key r = record {
  pending = expect_ids manifest.chunk_ids r.pending;
  received = r.received;
  manifest = some manifest;
  master_key = some master_key;
  nonce = some manifest.nonce;
}

-- Whether the chunk was expected, and the retriever after it.
unfoldable pub record_chunk : EncryptedChunk → ContentRetriever → Bool × ContentRetriever
record_chunk chunk r =
    if contains_key chunk.id r.pending
    then (
      true,
      record r { pending = remove chunk.id r.pending; received = insert chunk.id chunk r.received },
    )
    else (false, r)

abbrev pub has_all : ℕ → Option ContentManifest → Bool
has_all received none = false
has_all received (some manifest) = received == length manifest.chunk_ids

unfoldable pub is_complete : ContentRetriever → Bool
is_complete r = (length r.pending == 0) && has_all (length r.received) r.manifest

-- `ok_or(StorageError::ContentNotFound)`
abbrev pub found {ℓ} : {A : Type ℓ} → Option A → Result A
found none = err content_not_found
found (some a) = ok a

unfoldable pub collect : HashMap EncryptedChunk → List ℕ → Result (List EncryptedChunk)
collect received [] = ok []
collect received (id ∷ ids) = do
  chunk ← found (get id received)
  chunks ← collect received ids
  ok (chunk ∷ chunks)

unfoldable pub assemble : Cipher → ContentRetriever → Result (List ℕ)
assemble c r = do
  manifest ← found r.manifest
  master_key ← found r.master_key
  nonce ← found r.nonce
  chunks ← collect r.received manifest.chunk_ids
  decrypt_file c master_key nonce chunks manifest

-- Chunks that arrive one after another.
abbrev pub record_all : List EncryptedChunk → ContentRetriever → ContentRetriever
record_all [] r = r
record_all (chunk ∷ chunks) r = record_all chunks (record_chunk chunk r).1
