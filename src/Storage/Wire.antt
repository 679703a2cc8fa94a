-- ===== src/Storage/Wire.antt =====
-- The readers and writers that the codecs of crates/static-storage share: retrieval.rs, verification.rs
-- and compute.rs read a byte string from an offset on, and fail with the length that is missing.
pub mod Reading
use static.Common.{
  ℕ, ◌+◌, ◌%◌, Bool, List, [], ◌∷◌, ◌++◌, length, be_bytes, from_be, slice, ltb, ◌==◌,
  if◌then◌else◌, u32_mod,
}
use static.Storage.Lease.{Result, ok, err, StorageError, invalid_chunk_size}

-- The `?` operator.
infixl 5 ◌>>=◌
abbrev pub ◌>>=◌ {ℓ κ} : {A : Type ℓ} {B : Type κ} → Result A → (A → Result B) → Result B
ok a >>= f = f a
err e >>= f = err e

-- `if test { return Err(e) }`
abbrev pub refuse_if : Bool → StorageError → Result (Unit {0})
refuse_if test e = if test then err e else ok tt

-- The check that `n` bytes follow the offset.
abbrev pub with_room {ℓ} : {A : Type ℓ} → ℕ → List ℕ → ℕ → Result A → Result A
with_room n bytes offset r =
    if ltb (length bytes) (offset + n)
    then err (invalid_chunk_size (offset + n) (length bytes))
    else r

-- A fixed array, a word or a byte at the offset, and the offset behind it.
unfoldable pub take_array : ℕ → List ℕ → ℕ → Result (ℕ × ℕ)
take_array n bytes offset =
    with_room n bytes offset (ok (from_be (slice bytes offset (offset + n)), offset + n))

unfoldable pub take_bytes : ℕ → List ℕ → ℕ → Result (List ℕ × ℕ)
take_bytes n bytes offset =
    with_room n bytes offset (ok (slice bytes offset (offset + n), offset + n))

-- A length and that many bytes, the limit on the length checked before their presence.
unfoldable pub take_limited : ℕ → List ℕ → ℕ → Result (List ℕ × ℕ)
take_limited limit bytes offset = do
  (n, offset) ← take_array 4 bytes offset
  if ltb limit n then err (invalid_chunk_size limit n) else take_bytes n bytes offset

-- A length and that many bytes.
unfoldable pub take_sized : List ℕ → ℕ → Result (List ℕ × ℕ)
take_sized bytes offset = do (n, offset) ← take_array 4 bytes offset; take_bytes n bytes offset

-- The message type in front, with what an empty message is reported as.
unfoldable pub expect_type : ℕ → ℕ → List ℕ → Result (Unit {0})
expect_type msg empty_expected [] = err (invalid_chunk_size empty_expected 0)
expect_type msg empty_expected (b ∷ bytes) =
    if b == msg then ok tt else err (invalid_chunk_size msg b)

-- `if flag { 1 } else { 0 }`
abbrev pub flag_byte : Bool → ℕ
flag_byte flag = if flag then 1 else 0

unfoldable pub sized : List ℕ → List ℕ
sized part = be_bytes 4 (length part % u32_mod) ++ part

pub record RouteHopInfo : Type 0 where
  pub public_key : ℕ
  pub node_id : ℕ

pub record ReturnRoute : Type 0 where
  pub hops : List RouteHopInfo
  pub destination : ℕ

unfoldable pub append_hops : List RouteHopInfo → List ℕ
append_hops [] = []
append_hops (hop ∷ hops) =
    be_bytes 32 hop.public_key ++ (be_bytes 16 hop.node_id ++ append_hops hops)

-- `[hop_count 4][hops 48 each][destination 16]`
unfoldable pub append_return_route : ReturnRoute → List ℕ
append_return_route route =
    be_bytes 4 (length route.hops % u32_mod)
    ++ (append_hops route.hops ++ be_bytes 16 route.destination)
