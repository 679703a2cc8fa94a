-- ===== src/Storage/Swap/Proposal.antt =====
-- crates/static-storage/src/swap.rs, `SwapProposal`: what its signature covers, its id, and how it is
-- made. Randomness and the clock are arguments.
use static.Common.{ℕ, Option, none, some, List, [], ◌++◌, be_bytes, ◌==◌, if◌then◌else◌}
use static.Storage.Crypto.{Crypto, check_signature}
use static.Storage.Lease.{ChunkLease, create_lease}
use static.Storage.Merkle.{MerkleProof}
use static.Storage.Swap.Reasons.{Checked, accepted, rejected, invalid_signature}

pub record SwapProposal : Type 0 where
  pub from_node : ℕ
  pub chunk_id : ℕ
  pub lease : ChunkLease
  pub encrypted_master_key : List ℕ
  pub content_root : ℕ
  pub merkle_proof : MerkleProof
  pub proposal_nonce : ℕ
  pub content_public_key : ℕ
  pub content_signature : List ℕ

unfoldable pub signing_bytes : SwapProposal → List ℕ
signing_bytes p =
    be_bytes 32 p.content_root
    ++ (be_bytes 32 p.chunk_id ++ (be_bytes 16 p.from_node ++ be_bytes 32 p.proposal_nonce))

abbrev with_nonce : SwapProposal → ℕ → ℕ → SwapProposal
with_nonce p public fresh = record p {
  content_public_key = public;
  proposal_nonce = if p.proposal_nonce == 0 then fresh else p.proposal_nonce;
}

unfoldable pub sign : Crypto → ℕ → ℕ → SwapProposal → SwapProposal
sign c key fresh p =
    let q = with_nonce p (c.verifying_key key) fresh in
    record q { content_signature = c.sign key (signing_bytes q) }

unfoldable pub verify_content_signature : Crypto → SwapProposal → Checked
verify_content_signature c p =
    if check_signature c p.content_public_key (signing_bytes p) p.content_signature
    then accepted
    else rejected invalid_signature

-- A digest of what is offered, by whom, until when, and of the nonce.
unfoldable pub proposal_id : Crypto → SwapProposal → ℕ
proposal_id c p = c.hash (
    be_bytes 32 p.chunk_id
    ++ (be_bytes 16 p.from_node
        ++ (be_bytes 32 p.content_root
            ++ (be_bytes 8 p.lease.expires_at ++ be_bytes 32 p.proposal_nonce))))

abbrev unsigned : Crypto → ℕ → ℕ → ℕ → ℕ → ℕ → MerkleProof → ℕ → ℕ → SwapProposal
unsigned c from_node chunk_id master_key duration content_root proof public now = record {
  from_node = from_node;
  chunk_id = chunk_id;
  lease = create_lease c chunk_id master_key duration now;
  encrypted_master_key = [];
  content_root = content_root;
  merkle_proof = proof;
  proposal_nonce = 0;
  content_public_key = public;
  content_signature = [];
}

-- The last two arguments are the signing key, if one is given, and what the generator yields.
unfoldable pub create_swap_proposal :
    Crypto → ℕ → ℕ → ℕ → ℕ → ℕ → MerkleProof → ℕ → ℕ → Option ℕ → ℕ → SwapProposal
create_swap_proposal c from_node chunk_id master_key duration content_root proof public now key
      fresh =
    let p = unsigned c from_node chunk_id master_key duration content_root proof public now in
    elim key [ none ↦ p | some k ↦ sign c k fresh p ]
