-- ===== src/Mesh/Handshake.antt =====
-- crates/static-mesh/src/wire.rs: the messages of the handshake on the wire, and the type byte in
-- front of a maintenance payload. The sizes of a public key and of a ciphertext of the key
-- encapsulation, which another library sets, are arguments, as is the random padding.
pub mod Identity
mod Examples
use mathlib.Core.List.{append_assoc}
use static.Common.{
  ℕ, ◌+◌, ◌%◌, ◌^◌, ◌<◌, ◌≤◌, ◌≡◌, ◌∙◌, refl, subst, false, not, ◌==◌, ◌||◌, Option, none, some,
  List, [], ◌∷◌, ◌++◌, length, be_bytes, from_be, slice, ltb, if◌then◌else◌, arith,
}
use static.Storage.Wire.Reading.{At, At-start, At-number, At-slice, At-next, At-room}

pub record Hello : Type 0 where
  pub eph_pub_key : ℕ
  pub eph_kem_pub_key : List ℕ
  pub nonce : ℕ

pub record Welcome : Type 0 where
  pub eph_pub_key : ℕ
  pub eph_kem_pub_key : List ℕ
  pub nonce : ℕ
  pub kem_ciphertext : List ℕ

pub record EncryptedIdentity : Type 0 where
  pub aead_nonce : ℕ
  pub ciphertext : List ℕ

pub data WireError : Type 0 where
  message_too_large : ℕ → ℕ → WireError
  invalid_message_type : ℕ → WireError
  buffer_too_short : ℕ → ℕ → WireError
  invalid_sphinx_packet : WireError

pub data Result {ℓ} (A : Type ℓ) : Type ℓ where
  ok : A → Result A
  err : WireError → Result A

-- A length as two bytes, cast to `u16`, and the part.
unfoldable pub short_sized : List ℕ → List ℕ
short_sized part = be_bytes 2 (length part % 65536) ++ part

unfoldable pub serialize_hello : Hello → List ℕ
serialize_hello hello =
    be_bytes 32 hello.eph_pub_key ++ (short_sized hello.eph_kem_pub_key ++ be_bytes 32 hello.nonce)

unfoldable pub deserialize_hello : ℕ → List ℕ → Result Hello
deserialize_hello kem_public_key_size bytes =
    if ltb (length bytes) 66
    then err (buffer_too_short 66 (length bytes))
    else (let kem_len = from_be (slice bytes 32 34) in
        if not (kem_len == kem_public_key_size)
        then err invalid_sphinx_packet
        else (if ltb (length bytes) (34 + kem_len + 32)
            then err (buffer_too_short (34 + kem_len + 32) (length bytes))
            else ok (record {
              eph_pub_key = from_be (slice bytes 0 32);
              eph_kem_pub_key = slice bytes 34 (34 + kem_len);
              nonce = from_be (slice bytes (34 + kem_len) (34 + kem_len + 32));
            })))

unfoldable pub serialize_welcome : Welcome → List ℕ
serialize_welcome welcome =
    be_bytes 32 welcome.eph_pub_key
    ++ (short_sized welcome.eph_kem_pub_key
        ++ (be_bytes 32 welcome.nonce ++ short_sized welcome.kem_ciphertext))

unfoldable pub deserialize_welcome : ℕ → ℕ → List ℕ → Result Welcome
deserialize_welcome kem_public_key_size kem_ciphertext_size bytes =
    if ltb (length bytes) 68
    then err (buffer_too_short 68 (length bytes))
    else (let kem_len = from_be (slice bytes 32 34) in
        if not (kem_len == kem_public_key_size)
        then err invalid_sphinx_packet
        else (if ltb (length bytes) (34 + kem_len + 32 + 2)
            then err (buffer_too_short (34 + kem_len + 32 + 2) (length bytes))
            else (let ct_off = 34 + kem_len + 32 in
                let ct_len = from_be (slice bytes ct_off (ct_off + 2)) in
                if not (ct_len == kem_ciphertext_size)
                then err invalid_sphinx_packet
                else (if ltb (length bytes) (ct_off + 2 + ct_len)
                    then err (buffer_too_short (ct_off + 2 + ct_len) (length bytes))
                    else ok (record {
                      eph_pub_key = from_be (slice bytes 0 32);
                      eph_kem_pub_key = slice bytes 34 (34 + kem_len);
                      nonce = from_be (slice bytes (34 + kem_len) (34 + kem_len + 32));
                      kem_ciphertext = slice bytes (ct_off + 2) (ct_off + 2 + ct_len);
                    })))))

unfoldable pub serialize_auth_identity : EncryptedIdentity → List ℕ
serialize_auth_identity enc = be_bytes 12 enc.aead_nonce ++ short_sized enc.ciphertext

unfoldable pub deserialize_auth_identity : List ℕ → Result EncryptedIdentity
deserialize_auth_identity bytes =
    if ltb (length bytes) 14
    then err (buffer_too_short 14 (length bytes))
    else (let ct_len = from_be (slice bytes 12 14) in
        if ct_len == 0 || ltb 4096 ct_len || ltb (length bytes) (14 + ct_len)
        then err (buffer_too_short (14 + ct_len) (length bytes))
        else ok (record {
          aead_nonce = from_be (slice bytes 0 12);
          ciphertext = slice bytes 14 (14 + ct_len);
        }))

-- The type byte of a maintenance payload.
unfoldable pub wrap_maintenance_payload : ℕ → List ℕ → List ℕ
wrap_maintenance_payload body_type payload = body_type ∷ payload

unfoldable pub split_maintenance_payload : List ℕ → Option (ℕ × List ℕ)
split_maintenance_payload [] = none
split_maintenance_payload (first ∷ rest) = some (first, rest)

-- A part and its length, read at an offset.
pub read_short_sized :
    (bytes part rest : List ℕ) (start : ℕ)
    → length part < 65536
    → At bytes start (short_sized part ++ rest)
    → (from_be (slice bytes start (start + 2)) ≡ length part)
      × (slice bytes (start + 2) (start + 2 + length part) ≡ part)
      × At bytes (start + 2 + length part) rest
unfolding short_sized
read_short_sized bytes part rest start fits at =
    let at' =
      subst (At bytes start) (append_assoc (be_bytes 2 (length part % 65536)) part rest) at in
    let (count, next) =
      At-number bytes (part ++ rest) 2 (length part % 65536) start (start + 2) (omega arith) at'
        refl in
    (
      count ∙ omega (arith, fits),
      At-slice bytes part rest (start + 2) (start + 2 + length part) next refl,
      At-next bytes part rest (start + 2) (start + 2 + length part) next refl,
    )

-- What a reader of the keys of a handshake finds: the two keys and the nonce.
read_keys :
    (bytes kem rest : List ℕ) (eph nonce : ℕ)
    → eph < 256 ^ 32
    → nonce < 256 ^ 32
    → length kem < 65536
    → At bytes 0 (be_bytes 32 eph ++ (short_sized kem ++ (be_bytes 32 nonce ++ rest)))
    → (from_be (slice bytes 0 32) ≡ eph)
      × (from_be (slice bytes 32 34) ≡ length kem)
      × (slice bytes 34 (34 + length kem) ≡ kem)
      × (from_be (slice bytes (34 + length kem) (34 + length kem + 32)) ≡ nonce)
      × At bytes (34 + length kem + 32) rest
read_keys bytes kem rest eph nonce eph_fits nonce_fits few at =
    let (eph_read, at_kem) = At-number bytes _ 32 eph 0 32 eph_fits at refl in
    let (count, kem_read, at_nonce) = read_short_sized bytes kem _ 32 few at_kem in
    let (nonce_read, at_rest) =
      At-number bytes rest 32 nonce (34 + length kem) (34 + length kem + 32) nonce_fits at_nonce
        refl in
    (eph_read, count, kem_read, nonce_read, at_rest)

-- A hello with a key of the right size is read back, whatever padding follows it.
pub deserialize-serialize_hello :
    (hello : Hello) (pad : List ℕ)
    → hello.eph_pub_key < 256 ^ 32
    → hello.nonce < 256 ^ 32
    → length hello.eph_kem_pub_key < 65536
    → deserialize_hello (length hello.eph_kem_pub_key) (serialize_hello hello ++ pad) ≡ ok hello
unfolding serialize_hello deserialize_hello
deserialize-serialize_hello hello pad eph_fits nonce_fits few =
    let bytes = serialize_hello hello ++ pad in
    let kem = hello.eph_kem_pub_key in
    let n = length kem in
    let layout : bytes
        ≡ be_bytes 32 hello.eph_pub_key ++ (short_sized kem ++ (be_bytes 32 hello.nonce ++ pad)) =
      simp append_assoc refl in
    let at = subst (At bytes 0) layout (At-start bytes) in
    let (eph, count, kem_read, nonce, at_pad) =
      read_keys bytes kem pad hello.eph_pub_key hello.nonce eph_fits nonce_fits few at in
    let room = At-room bytes pad (34 + n + 32) at_pad in
    let long : ltb (length bytes) 66 ≡ false = ground (arith, room) in
    let sized : not (n == n) ≡ false = ground arith in
    let whole : ltb (length bytes) (34 + n + 32) ≡ false = ground (arith, room) in
    rw (long, count, sized, whole, eph, kem_read, nonce) refl

-- A welcome with a key and a ciphertext of the right sizes is read back, whatever padding follows it.
pub deserialize-serialize_welcome :
    (welcome : Welcome) (pad : List ℕ)
    → welcome.eph_pub_key < 256 ^ 32
    → welcome.nonce < 256 ^ 32
    → length welcome.eph_kem_pub_key < 65536
    → length welcome.kem_ciphertext < 65536
    → deserialize_welcome
        (length welcome.eph_kem_pub_key)
        (length welcome.kem_ciphertext)
        (serialize_welcome welcome ++ pad)
      ≡ ok welcome
unfolding serialize_welcome deserialize_welcome
deserialize-serialize_welcome welcome pad eph_fits nonce_fits few few' =
    let bytes = serialize_welcome welcome ++ pad in
    let kem = welcome.eph_kem_pub_key in
    let sealed = welcome.kem_ciphertext in
    let n = length kem in
    let m = length sealed in
    let rest = short_sized sealed ++ pad in
    let layout : bytes
        ≡ be_bytes 32 welcome.eph_pub_key
          ++ (short_sized kem ++ (be_bytes 32 welcome.nonce ++ rest)) =
      simp append_assoc refl in
    let at = subst (At bytes 0) layout (At-start bytes) in
    let (eph, count, kem_read, nonce, at_sealed) =
      read_keys bytes kem rest welcome.eph_pub_key welcome.nonce eph_fits nonce_fits few at in
    let (count', sealed_read, at_pad) =
      read_short_sized bytes sealed pad (34 + n + 32) few' at_sealed in
    let room = At-room bytes pad (34 + n + 32 + 2 + m) at_pad in
    let long : ltb (length bytes) 68 ≡ false = ground (arith, room) in
    let sized : not (n == n) ≡ false = ground arith in
    let sized' : not (m == m) ≡ false = ground arith in
    let keys : ltb (length bytes) (34 + n + 32 + 2) ≡ false = ground (arith, room) in
    let whole : ltb (length bytes) (34 + n + 32 + 2 + m) ≡ false = ground (arith, room) in
    rw (long, count, sized, keys, count', sized', whole, eph, kem_read, nonce, sealed_read) refl

-- An encrypted identity of up to 4096 bytes is read back, whatever padding follows it.
pub deserialize-serialize_auth_identity :
    (enc : EncryptedIdentity) (pad : List ℕ)
    → enc.aead_nonce < 256 ^ 12
    → 0 < length enc.ciphertext
    → length enc.ciphertext ≤ 4096
    → deserialize_auth_identity (serialize_auth_identity enc ++ pad) ≡ ok enc
unfolding serialize_auth_identity deserialize_auth_identity
deserialize-serialize_auth_identity enc pad fits some_bytes few =
    let bytes = serialize_auth_identity enc ++ pad in
    let at =
      subst (At bytes 0)
        (append_assoc (be_bytes 12 enc.aead_nonce) (short_sized enc.ciphertext) pad)
        (At-start bytes) in
    let (nonce, at_text) = At-number bytes _ 12 enc.aead_nonce 0 12 fits at refl in
    let (count, text, at_pad) =
      read_short_sized bytes enc.ciphertext pad 12 (omega (arith, few)) at_text in
    let n = length enc.ciphertext in
    let room = At-room bytes pad (14 + n) at_pad in
    let long : ltb (length bytes) 14 ≡ false = ground (arith, room) in
    let whole : (n == 0 || ltb 4096 n || ltb (length bytes) (14 + n)) ≡ false =
      ground (arith, room, some_bytes, few) in
    rw (long, count, whole, nonce, text) refl
