-- ===== src/Mesh/Handshake/Examples.antt =====
-- A concrete handshake, signed and read back.
use static.Common.{◌≡◌, refl, true, some, [], ◌∷◌, ◌++◌, arith}
use static.Storage.Examples.{toy, toy-laws}
use static.Mesh.Handshake.{ok}
use static.Mesh.Handshake.Identity.{
  Handshake, sign, verify, serialize_handshake, deserialize_handshake, IsWireable,
  signed_handshake_verifies,
}

abbrev some_handshake : Handshake
some_handshake = record {
  node_id = 3;
  public_key = 103;
  kem_public_key = some (7 ∷ (8 ∷ []));
  compute_enabled = true;
  compute_capacity = 4;
  identity_public_key = 0;
  nonce = 17;
  signature = [];
}

signed-IsWireable : IsWireable (sign toy 21 some_handshake)
unfolding sign
signed-IsWireable = record {
  node = omega arith;
  key = omega arith;
  kem = (omega arith, omega arith);
  capacity = omega arith;
  identity = omega arith;
  nonce = omega arith;
  signature = toy-laws.signature_length 21 _;
}

signed_handshake_verifies_example :
    (deserialize_handshake (serialize_handshake (sign toy 21 some_handshake) ++ (0 ∷ (0 ∷ [])))
      ≡ ok (sign toy 21 some_handshake))
    × (verify toy 2 (sign toy 21 some_handshake) ≡ true)
signed_handshake_verifies_example =
    signed_handshake_verifies toy 21 some_handshake 2 (0 ∷ (0 ∷ [])) toy-laws signed-IsWireable refl
