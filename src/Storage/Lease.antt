-- ===== src/Storage/Lease.antt =====
-- crates/static-storage/src/lib.rs: leases on chunks. Times are seconds, `u64`.
use static.Common.{
  ℕ, ◌≡◌, Bool, true, arith, add64, ltb, be_bytes, ◌==◌, ◌<◌, ◌+◌, if◌then◌else◌, u64_mod,
}
use static.Storage.Crypto.{Crypto}

pub record ChunkLease : Type 0 where
  pub chunk_id : ℕ
  pub expires_at : ℕ
  pub renewal_token : ℕ
  pub content_pub_key : ℕ

-- The cases of `StorageError` that the modelled code returns.
pub data StorageError : Type 0 where
  invalid_renewal_token : StorageError
  invalid_chunk_size : ℕ → ℕ → StorageError
  encryption_failed : StorageError
  decryption_failed : StorageError
  content_not_found : StorageError
  manifest_serialization_failed : StorageError
  manifest_decryption_failed : StorageError
  manifest_deserialization_failed : StorageError

pub data Result {ℓ} (A : Type ℓ) : Type ℓ where
  ok : A → Result A
  err : StorageError → Result A

-- `blake3(master_key.derive("lease_token"))`
abbrev pub lease_token : Crypto → ℕ → ℕ
lease_token c master_key = c.hash (be_bytes 32 (c.derive master_key "lease_token"))

unfoldable pub create_lease : Crypto → ℕ → ℕ → ℕ → ℕ → ChunkLease
create_lease c chunk_id master_key duration_secs current_time = record {
  chunk_id = chunk_id;
  expires_at = add64 current_time duration_secs;
  renewal_token = lease_token c master_key;
  content_pub_key = 0;
}

unfoldable pub verify_renewal_token : Crypto → ℕ → ℕ → ℕ → Bool
verify_renewal_token c chunk_id master_key token = lease_token c master_key == token

unfoldable pub is_lease_valid : ChunkLease → ℕ → Bool
is_lease_valid lease current_time = ltb current_time lease.expires_at

unfoldable pub refresh_lease : Crypto → ChunkLease → ℕ → ℕ → ℕ → Result ChunkLease
refresh_lease c lease master_key new_duration_secs current_time =
    if verify_renewal_token c lease.chunk_id master_key lease.renewal_token
    then ok (record lease { expires_at = add64 current_time new_duration_secs })
    else err invalid_renewal_token

-- A lease minted with a key is refreshed by the same key, at any later time, and is then valid until
-- the new end; chunk, token and owner stay. The sum of the new end must not wrap.
pub refresh-create :
    (c : Crypto) (chunk_id master_key duration start new_duration now later : ℕ)
    → now + new_duration < u64_mod
    → later < now + new_duration
    → let lease = create_lease c chunk_id master_key duration start in
      (l : ChunkLease) × (refresh_lease c lease master_key new_duration now ≡ ok l)
      × (is_lease_valid l later ≡ true)
      × (l.chunk_id ≡ chunk_id)
      × (l.renewal_token ≡ lease.renewal_token)
      × (l.content_pub_key ≡ lease.content_pub_key)
unfolding create_lease refresh_lease verify_renewal_token is_lease_valid
refresh-create c chunk_id master_key duration start new_duration now later fits before = (
  record (create_lease c chunk_id master_key duration start) {
    expires_at = add64 now new_duration;
  },
  ground arith,
  ground arith,
  ground arith,
  ground arith,
  ground arith,
)
