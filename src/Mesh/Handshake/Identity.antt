-- ===== src/Mesh/Handshake/Identity.antt =====
-- crates/static-mesh/src/wire.rs: the signed `Handshake` that names a node, on the wire and verified.
use mathlib.Core.List.{append_assoc, append-nil}
use static.Common.{
  ℕ, ◌+◌, ◌^◌, ◌<◌, ◌≤◌, ◌≡◌, ◌∙◌, ap, refl, subst, true, false, not, Bool, ◌==◌, ◌||◌, Option,
  none, some, List, [], ◌++◌, length, be_bytes, from_be, slice, ltb, min, if◌then◌else◌, arith,
  take, drop, replicate, copy_from_slice, take_of_length-le,
}
use static.Storage.Crypto.{Crypto, CryptoLaws, check_signature, check_signature-sign}
use static.Storage.Wire.{flag_byte}
use static.Storage.Wire.Reading.{At, At-start, At-number, At-slice, At-next, At-room}
use static.Mesh.Handshake.{Result, ok, err, buffer_too_short, short_sized, read_short_sized}

pub record Handshake : Type 0 where
  pub node_id : ℕ
  pub public_key : ℕ
  pub kem_public_key : Option (List ℕ)
  pub compute_enabled : Bool
  pub compute_capacity : ℕ
  pub identity_public_key : ℕ
  pub nonce : ℕ
  pub signature : List ℕ

-- `kem_public_key.as_deref().unwrap_or(&[])`
abbrev pub kem_bytes : Option (List ℕ) → List ℕ
kem_bytes none = []
kem_bytes (some kem) = kem

unfoldable pub signing_bytes : Handshake → List ℕ
signing_bytes h =
    be_bytes 16 h.node_id
    ++ (be_bytes 32 h.public_key
        ++ (short_sized (kem_bytes h.kem_public_key)
            ++ (be_bytes 1 (flag_byte h.compute_enabled)
                ++ (be_bytes 1 h.compute_capacity
                    ++ (be_bytes 32 h.identity_public_key ++ be_bytes 32 h.nonce)))))

unfoldable pub sign : Crypto → ℕ → Handshake → Handshake
sign c key h =
    let named = record h { identity_public_key = c.verifying_key key } in
    record named { signature = c.sign key (signing_bytes named) }

abbrev pub wrong_kem_size : ℕ → Option (List ℕ) → Bool
wrong_kem_size kem_public_key_size none = false
wrong_kem_size kem_public_key_size (some kem) = not (length kem == kem_public_key_size)

unfoldable pub verify : Crypto → ℕ → Handshake → Bool
verify c kem_public_key_size h =
    if wrong_kem_size kem_public_key_size h.kem_public_key
    then false
    else check_signature c h.identity_public_key (signing_bytes h) h.signature

abbrev pub blank_signature : List ℕ
blank_signature = replicate 64 0

-- The signature in its 64 bytes, cut or filled with zeros.
unfoldable pub sig_array : List ℕ → List ℕ
sig_array signature = copy_from_slice blank_signature 0 (take (min (length signature) 64) signature)

unfoldable pub serialize_handshake : Handshake → List ℕ
serialize_handshake h =
    be_bytes 16 h.node_id
    ++ (be_bytes 32 h.public_key
        ++ (short_sized (kem_bytes h.kem_public_key)
            ++ (be_bytes 1 (flag_byte h.compute_enabled)
                ++ (be_bytes 1 h.compute_capacity
                    ++ (be_bytes 32 h.identity_public_key
                        ++ (be_bytes 32 h.nonce ++ sig_array h.signature))))))

abbrev pub kem_at : List ℕ → ℕ → Option (List ℕ)
kem_at bytes kem_len = if kem_len == 0 then none else some (slice bytes 50 (50 + kem_len))

unfoldable pub deserialize_handshake : List ℕ → Result Handshake
deserialize_handshake bytes =
    if ltb (length bytes) 180
    then err (buffer_too_short 180 (length bytes))
    else (let kem_len = from_be (slice bytes 48 50) in
        if ltb 4096 kem_len || ltb (length bytes) (50 + kem_len + 130)
        then err (buffer_too_short (50 + kem_len + 130) (length bytes))
        else (let offset = 50 + kem_len in
            if ltb (length bytes) (offset + 66 + 64)
            then err (buffer_too_short (offset + 66 + 64) (length bytes))
            else ok (record {
              node_id = from_be (slice bytes 0 16);
              public_key = from_be (slice bytes 16 48);
              kem_public_key = kem_at bytes kem_len;
              compute_enabled = from_be (slice bytes offset (offset + 1)) == 1;
              compute_capacity = from_be (slice bytes (offset + 1) (offset + 2));
              identity_public_key = from_be (slice bytes (offset + 2) (offset + 34));
              nonce = from_be (slice bytes (offset + 34) (offset + 66));
              signature = slice bytes (offset + 66) (offset + 66 + 64);
            })))

-- A key that is absent, or not empty and of at most 4096 bytes.
abbrev pub FitsKem : Option (List ℕ) → Type 0
FitsKem none = Unit {0}
FitsKem (some kem) = (0 < length kem) × (length kem ≤ 4096)

pub record IsWireable (h : Handshake) : Type 0 where
  pub node : h.node_id < 256 ^ 16
  pub key : h.public_key < 256 ^ 32
  pub kem : FitsKem h.kem_public_key
  pub capacity : h.compute_capacity < 256
  pub identity : h.identity_public_key < 256 ^ 32
  pub nonce : h.nonce < 256 ^ 32
  pub signature : length h.signature ≡ 64

kem-few : (kem : Option (List ℕ)) → FitsKem kem → length (kem_bytes kem) ≤ 4096
kem-few none w = omega arith
kem-few (some kem) (some_bytes, few) = few

kem_at-kem_bytes :
    (bytes : List ℕ) (kem : Option (List ℕ))
    → FitsKem kem
    → slice bytes 50 (50 + length (kem_bytes kem)) ≡ kem_bytes kem
    → kem_at bytes (length (kem_bytes kem)) ≡ kem
kem_at-kem_bytes bytes none w e = refl
kem_at-kem_bytes bytes (some kem) (some_bytes, few) e =
    let filled : (length kem == 0) ≡ false = ground (arith, some_bytes) in rw (filled, e) refl

flag_byte-lt : (b : Bool) → flag_byte b < 256
flag_byte-lt true = omega arith
flag_byte-lt false = omega arith

flag_byte-read : (b : Bool) → (flag_byte b == 1) ≡ b
flag_byte-read true = refl
flag_byte-read false = refl

sig_array-whole : (signature : List ℕ) → length signature ≡ 64 → sig_array signature ≡ signature
unfolding sig_array copy_from_slice take drop replicate
sig_array-whole signature e =
    let whole : take 64 signature ≡ signature = take_of_length-le 64 signature (omega (arith, e)) in
    let short : take (min (length signature) 64) signature ≡ signature =
      ap (λ (n : ℕ). take (min n 64) signature) e ∙ whole in
    let nothing : drop (0 + length signature) blank_signature ≡ [] = rw e refl in
    rw (short, nothing) (append-nil signature)

-- A handshake whose fields fit is read back, whatever follows it.
pub deserialize-serialize_handshake :
    (h : Handshake) (pad : List ℕ)
    → IsWireable h
    → deserialize_handshake (serialize_handshake h ++ pad) ≡ ok h
unfolding serialize_handshake deserialize_handshake
deserialize-serialize_handshake h pad w =
    let bytes = serialize_handshake h ++ pad in
    let kem = kem_bytes h.kem_public_key in
    let flag = flag_byte h.compute_enabled in
    let few = kem-few h.kem_public_key w.kem in
    let n = length kem in
    let o = 50 + n in
    let layout : bytes
        ≡ be_bytes 16 h.node_id
          ++ (be_bytes 32 h.public_key
              ++ (short_sized kem
                  ++ (be_bytes 1 flag
                      ++ (be_bytes 1 h.compute_capacity
                          ++ (be_bytes 32 h.identity_public_key
                              ++ (be_bytes 32 h.nonce ++ (h.signature ++ pad))))))) =
      rw (sig_array-whole h.signature w.signature) (simp append_assoc refl) in
    let at = subst (At bytes 0) layout (At-start bytes) in
    let (node, at_key) = At-number bytes _ 16 h.node_id 0 16 w.node at refl in
    let (key, at_kem) = At-number bytes _ 32 h.public_key 16 48 w.key at_key refl in
    let (count, kem_read, at_flag) = read_short_sized bytes kem _ 48 (omega (arith, few)) at_kem in
    let (flag_read, at_capacity) =
      At-number bytes _ 1 flag o (o + 1) (flag_byte-lt h.compute_enabled) at_flag refl in
    let (capacity, at_identity) =
      At-number bytes _ 1 h.compute_capacity (o + 1) (o + 2) w.capacity at_capacity (omega arith) in
    let (identity, at_nonce) =
      At-number bytes _ 32 h.identity_public_key (o + 2) (o + 34) w.identity at_identity
        (omega arith) in
    let (nonce, at_signature) =
      At-number bytes _ 32 h.nonce (o + 34) (o + 66) w.nonce at_nonce (omega arith) in
    let end : o + 66 + 64 ≡ o + 66 + length h.signature = omega (arith, w.signature) in
    let signature = At-slice bytes h.signature pad (o + 66) (o + 66 + 64) at_signature end in
    let at_pad = At-next bytes h.signature pad (o + 66) (o + 66 + 64) at_signature end in
    let room = At-room bytes pad (o + 66 + 64) at_pad in
    let long : ltb (length bytes) 180 ≡ false = ground (arith, room) in
    let whole : (ltb 4096 n || ltb (length bytes) (50 + n + 130)) ≡ false =
      ground (arith, room, few) in
    let signed : ltb (length bytes) (o + 66 + 64) ≡ false = ground (arith, room) in
    let kem_same = kem_at-kem_bytes bytes h.kem_public_key w.kem kem_read in
    let flag_same = flag_byte-read h.compute_enabled in
    rw
      (
        long, count, whole, signed, node, key, kem_same, flag_read, flag_same, capacity, identity,
        nonce, signature,
      )
      refl

-- A handshake that a node signs, its other fields within the limits and its key of the right size, is
-- read back from the wire and passes the check of its signature.
pub signed_handshake_verifies :
    (c : Crypto) (key : ℕ) (h : Handshake) (kem_public_key_size : ℕ) (pad : List ℕ)
    → CryptoLaws c
    → IsWireable (sign c key h)
    → wrong_kem_size kem_public_key_size h.kem_public_key ≡ false
    → (deserialize_handshake (serialize_handshake (sign c key h) ++ pad) ≡ ok (sign c key h))
      × (verify c kem_public_key_size (sign c key h) ≡ true)
unfolding sign verify signing_bytes
signed_handshake_verifies c key h kem_public_key_size pad l w sized = (
  deserialize-serialize_handshake (sign c key h) pad w,
  rw sized (
      check_signature-sign c key
        (signing_bytes (record h { identity_public_key = c.verifying_key key })) l),
)
