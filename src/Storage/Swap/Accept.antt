-- ===== src/Storage/Swap/Accept.antt =====
-- crates/static-storage/src/swap.rs, `SwapAccept`: what its signature covers and how it is made.
use static.Common.{ℕ, Bool, Option, none, some, List, [], ◌++◌, be_bytes, ◌==◌, if◌then◌else◌}
use static.Storage.Crypto.{Crypto, check_signature}
use static.Storage.Lease.{ChunkLease, create_lease}
use static.Storage.Merkle.{MerkleProof}

pub record SwapAccept : Type 0 where
  pub from_node : ℕ
  pub chunk_id : ℕ
  pub lease : ChunkLease
  pub proposal_id : ℕ
  pub encrypted_master_key : List ℕ
  pub return_content_root : ℕ
  pub return_merkle_proof : MerkleProof
  pub return_content_signature : List ℕ
  pub nonce : ℕ
  pub identity_public_key : ℕ
  pub signature : List ℕ

unfoldable pub signing_bytes : SwapAccept → List ℕ
signing_bytes a =
    be_bytes 32 a.proposal_id
    ++ (be_bytes 16 a.from_node
        ++ (be_bytes 32 a.chunk_id ++ (be_bytes 32 a.return_content_root ++ be_bytes 32 a.nonce)))

unfoldable pub sign : Crypto → ℕ → ℕ → SwapAccept → SwapAccept
sign c key fresh a =
    let b = record a {
      identity_public_key = c.verifying_key key;
      nonce = if a.nonce == 0 then fresh else a.nonce;
    } in
    record b { signature = c.sign key (signing_bytes b) }

unfoldable pub verify_signature : Crypto → SwapAccept → Bool
verify_signature c a = check_signature c a.identity_public_key (signing_bytes a) a.signature

-- The last two arguments are the identity key, if one is given, and what the generator yields: the
-- nonce is drawn here, and again by `sign` should it be zero.
unfoldable pub create_signed_swap_accept :
    Crypto → ℕ → ℕ → ℕ → ℕ → ℕ → ℕ → MerkleProof → List ℕ → ℕ → Option ℕ → ℕ → ℕ → SwapAccept
create_signed_swap_accept c from_node chunk_id master_key id duration root proof content_sig now key
      nonce fresh =
    let a : SwapAccept = record {
      from_node = from_node;
      chunk_id = chunk_id;
      lease = create_lease c chunk_id master_key duration now;
      proposal_id = id;
      encrypted_master_key = [];
      return_content_root = root;
      return_merkle_proof = proof;
      return_content_signature = content_sig;
      nonce = nonce;
      identity_public_key = 0;
      signature = [];
    } in
    elim key [ none ↦ a | some k ↦ sign c k fresh a ]

unfoldable pub create_swap_accept : Crypto → ℕ → ℕ → ℕ → ℕ → ℕ → ℕ → ℕ → SwapAccept
create_swap_accept c from_node chunk_id master_key id duration now nonce =
    create_signed_swap_accept c from_node chunk_id master_key id duration 0
      (record { leaf_index = 0; siblings = [] }) [] now none nonce 0
