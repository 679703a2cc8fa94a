-- ===== src/Storage/Crypto.antt =====
-- What the storage crate calls of the libraries blake3, hkdf and ed25519-dalek. Keys, digests and
-- nonces are 32-byte arrays, that is numbers.
use Prim.Native.String.{String}
use static.Common.{ℕ, ◌^◌, ◌<◌, ◌≡◌, Bool, true, false, not, List, length, ◌==◌, if◌then◌else◌}

pub record Crypto : Type 0 where
  -- `blake3::hash`
  pub hash : List ℕ → ℕ
  -- `SymmetricKey::derive`, HKDF over a key and a context
  pub derive : ℕ → String → ℕ
  -- whether `VerifyingKey::from_bytes` accepts a public key
  pub key_parses : ℕ → Bool
  -- `verify`: a public key, a message, a signature of 64 bytes
  pub verify : ℕ → List ℕ → List ℕ → Bool
  -- `verifying_key().to_bytes()` and `sign(..).to_bytes()` of a signing key
  pub verifying_key : ℕ → ℕ
  pub sign : ℕ → List ℕ → List ℕ

-- What ed25519-dalek documents of a key pair, and that digests have 32 bytes.
pub record CryptoLaws (c : Crypto) : Type 0 where
  pub signature_length : (key : ℕ) (message : List ℕ) → length (c.sign key message) ≡ 64
  pub verifying_key_parses : (key : ℕ) → c.key_parses (c.verifying_key key) ≡ true
  pub verify-sign :
      (key : ℕ) (message : List ℕ)
      → c.verify (c.verifying_key key) message (c.sign key message) ≡ true
  pub hash-lt : (message : List ℕ) → c.hash message < 256 ^ 32

-- The check that every signed message of the crate makes: length, key, signature.
unfoldable pub check_signature : Crypto → ℕ → List ℕ → List ℕ → Bool
check_signature c public message signature =
    if not (length signature == 64)
    then false
    else if not (c.key_parses public)
    then false
    else c.verify public message signature

-- A message signed with a key passes the check against that key's public half.
pub check_signature-sign :
    (c : Crypto) (key : ℕ) (message : List ℕ)
    → CryptoLaws c
    → check_signature c (c.verifying_key key) message (c.sign key message) ≡ true
unfolding check_signature
check_signature-sign c key message l =
    rw (l.signature_length key message, l.verifying_key_parses key) (l.verify-sign key message)
