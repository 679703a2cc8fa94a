-- ===== src/Storage/Holder.antt =====
-- crates/static-storage/src/retrieval.rs, `ChunkHolder`: the chunks that a node stores.
use static.Common.{ℕ, Bool, List, [], length}
use static.HashMap.{HashMap, insert, remove, contains_key}
use static.HashMap.Sums.{sum_of}

-- `CHUNK_SIZE + 16`: an encrypted chunk with its tag.
abbrev pub encrypted_chunk_size : ℕ
encrypted_chunk_size = 1048592

pub record ChunkHolder : Type 0 where
  pub chunks : HashMap (List ℕ)
  pub chunk_to_content : HashMap ℕ

unfoldable pub new : ChunkHolder
new = record { chunks = []; chunk_to_content = [] }

unfoldable pub add_chunk : ChunkHolder → ℕ → List ℕ → ℕ → ChunkHolder
add_chunk h chunk_id bytes content_id = record {
  chunks = insert chunk_id bytes h.chunks;
  chunk_to_content = insert chunk_id content_id h.chunk_to_content;
}

unfoldable pub remove_chunk : ChunkHolder → ℕ → ChunkHolder
remove_chunk h chunk_id = record {
  chunks = remove chunk_id h.chunks;
  chunk_to_content = remove chunk_id h.chunk_to_content;
}

unfoldable pub has_chunk : ChunkHolder → ℕ → Bool
has_chunk h chunk_id = contains_key chunk_id h.chunks

-- The bytes of the chunks in memory, which a `u64` counts without wrapping.
unfoldable pub total_bytes : ChunkHolder → ℕ
total_bytes h = sum_of length h.chunks
