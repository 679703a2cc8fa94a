-- ===== src/Storage/HiddenService.antt =====
-- crates/static-storage/src/hidden_service.rs: manifests that are found and opened with a content's
-- public key. JSON is a parameter, as are the cipher and the derivation of keys.
use static.Common.{ℕ, ◌≡◌, refl, Option, none, some, List, map, be_bytes}
use static.Storage.Crypto.{Crypto}
use static.Storage.Lease.{
  Result, ok, err, StorageError, manifest_serialization_failed, manifest_decryption_failed,
  manifest_deserialization_failed,
}
use static.Storage.Wire.{◌>>=◌}
use static.Storage.Files.{Cipher, CipherLaws, ContentManifest}

pub record Hint : Type 0 where
  pub content_id : ℕ
  pub manifest_chunk_id : ℕ
  pub node_id_ranges : List (ℕ × ℕ)

pub record EncryptedManifest : Type 0 where
  pub ciphertext : List ℕ
  pub nonce : ℕ

-- `.map_err(|_| e)`
abbrev pub or_error {ℓ} : {A : Type ℓ} → StorageError → Option A → Result A
or_error e none = err e
or_error e (some a) = ok a

unfoldable pub create_hint : ℕ → ℕ → List ℕ → Hint
create_hint content_id manifest_chunk_id storing_node_ids = record {
  content_id = content_id;
  manifest_chunk_id = manifest_chunk_id;
  node_id_ranges = map (λ id. (id, id)) storing_node_ids;
}

module _ (c : Crypto) where
  unfoldable pub content_id_from_public : ℕ → ℕ
  content_id_from_public public_key = c.hash (be_bytes 32 public_key)

  unfoldable pub derive_symmetric_key : ℕ → ℕ
  derive_symmetric_key public_key = c.derive public_key "static-hidden-service-manifest"

-- `serde_json::to_vec` and `serde_json::from_slice` of a manifest.
pub record ManifestJson : Type 0 where
  pub to_vec : ContentManifest → Option (List ℕ)
  pub from_slice : List ℕ → Option ContentManifest

module _ (c : Crypto) (cipher : Cipher) (json : ManifestJson) where
  -- The nonce is drawn by the caller.
  unfoldable pub encrypt_manifest : ℕ → ContentManifest → ℕ → Result (EncryptedManifest × ℕ)
  encrypt_manifest nonce manifest content_public_key = do
    plaintext ← or_error manifest_serialization_failed (json.to_vec manifest)
    let key = derive_symmetric_key c content_public_key
    let ciphertext = cipher.encrypt key nonce plaintext
    ok (record { ciphertext = ciphertext; nonce = nonce }, c.hash ciphertext)

  unfoldable pub decrypt_manifest : EncryptedManifest → ℕ → Result ContentManifest
  decrypt_manifest sealed content_public_key = do
    let key = derive_symmetric_key c content_public_key
    plaintext ←
        or_error manifest_decryption_failed (cipher.decrypt key sealed.nonce sealed.ciphertext)
    or_error manifest_deserialization_failed (json.from_slice plaintext)

  -- A manifest that JSON can write and read is opened again with the public key it was encrypted for.
  pub decrypt_manifest-encrypt_manifest :
      (nonce : ℕ) (manifest : ContentManifest) (content_public_key : ℕ) (text : List ℕ)
      → CipherLaws cipher
      → json.to_vec manifest ≡ some text
      → json.from_slice text ≡ some manifest
      → (sealed : EncryptedManifest) × (encrypt_manifest nonce manifest content_public_key
          ≡ ok (sealed, c.hash sealed.ciphertext))
        × (decrypt_manifest sealed content_public_key ≡ ok manifest)
  unfolding encrypt_manifest decrypt_manifest
  decrypt_manifest-encrypt_manifest nonce manifest content_public_key text l written read =
      let key = derive_symmetric_key c content_public_key in
      (
        record { ciphertext = cipher.encrypt key nonce text; nonce = nonce },
        rw written refl,
        rw (l.decrypt-encrypt key nonce text, read) refl,
      )
