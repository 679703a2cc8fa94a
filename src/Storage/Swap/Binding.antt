-- ===== src/Storage/Swap/Binding.antt =====
-- What the signatures of the swap messages bind, and that a signed message passes its check.
use static.Common.{
  ℕ, ◌^◌, ◌<◌, ◌≡◌, refl, sym, ◌∙◌, ap, true, List, [], ◌∷◌, ◌++◌, length, arith, be_bytes, from_be,
  from_be-be_bytes, length-be_bytes,
}
use static.Storage.Crypto.{Crypto, CryptoLaws, check_signature-sign}
use static.Storage.Swap.Reasons.{accepted}
use static.Storage.Swap.Proposal as Proposal
use static.Storage.Swap.Proposal.{SwapProposal, proposal_id}
use static.Storage.Swap.Accept as Accept
use static.Storage.Swap.Accept.{SwapAccept}
use static.Storage.Swap.Commit as Commit
use static.Storage.Swap.Commit.{SwapCommit}
use static.Storage.Swap.Abort as Abort
use static.Storage.Swap.Abort.{SwapAbort}

-- Two parts of the same length are told apart by what they make up.
append_inj :
    (xs ys us vs : List ℕ) → length xs ≡ length us → xs ++ ys ≡ us ++ vs → (xs ≡ us) × (ys ≡ vs)
append_inj [] ys [] vs l e = (refl, e)
append_inj [] ys (u ∷ us) vs l e = absurd (omega (arith, l))
append_inj (x ∷ xs) ys [] vs l e = absurd (omega (arith, l))
append_inj (x ∷ xs) ys (u ∷ us) vs l e =
    let heads : x ≡ u = ground (arith, e) in
    let tails : xs ++ ys ≡ us ++ vs = ground (arith, e) in
    let (p, q) = append_inj xs ys us vs (omega (arith, l)) tails in (ground (arith, heads, p), q)

-- A number that fits the width is read back from its bytes.
be_bytes_inj : (n x y : ℕ) → x < 256 ^ n → y < 256 ^ n → be_bytes n x ≡ be_bytes n y → x ≡ y
be_bytes_inj n x y hx hy e =
    sym (from_be-be_bytes n x hx) ∙ (ap from_be e ∙ from_be-be_bytes n y hy)

-- One field of a fixed width in front.
field_inj :
    (n x y : ℕ) (xs ys : List ℕ)
    → x < 256 ^ n
    → y < 256 ^ n
    → be_bytes n x ++ xs ≡ be_bytes n y ++ ys
    → (x ≡ y) × (xs ≡ ys)
field_inj n x y xs ys hx hy e =
    let (p, q) =
      append_inj (be_bytes n x) xs (be_bytes n y) ys
        (length-be_bytes n x ∙ sym (length-be_bytes n y)) e in
    (be_bytes_inj n x y hx hy p, q)

-- The widths of the fields of a proposal.
abbrev pub InRange : SwapProposal → Type 0
InRange p =
    (p.content_root < 256 ^ 32)
    × (p.chunk_id < 256 ^ 32)
    × (p.from_node < 256 ^ 16)
    × (p.proposal_nonce < 256 ^ 32)

-- Two proposals whose fields fit their widths and whose signatures cover the same bytes agree on the
-- content's root, the chunk, the sender and the nonce.
pub signing_bytes_bind :
    (p q : SwapProposal)
    → InRange p
    → InRange q
    → Proposal.signing_bytes p ≡ Proposal.signing_bytes q
    → (p.content_root ≡ q.content_root)
      × (p.chunk_id ≡ q.chunk_id)
      × (p.from_node ≡ q.from_node)
      × (p.proposal_nonce ≡ q.proposal_nonce)
unfolding Proposal.signing_bytes
signing_bytes_bind p q (r, ch, f, n) (r', ch', f', n') e =
    let (roots, e₁) = field_inj 32 p.content_root q.content_root _ _ r r' e in
    let (chunks, e₂) = field_inj 32 p.chunk_id q.chunk_id _ _ ch ch' e₁ in
    let (nodes, e₃) = field_inj 16 p.from_node q.from_node _ _ f f' e₂ in
    (roots, chunks, nodes, be_bytes_inj 32 p.proposal_nonce q.proposal_nonce n n' e₃)

-- Each of the four messages passes its own check once it is signed, whatever its fields were: the
-- signature covers the nonce that signing chose, and the key that it wrote.
pub signed_messages_verify :
    (c : Crypto) (key fresh : ℕ)
    → CryptoLaws c
    → ((p : SwapProposal)
        → Proposal.verify_content_signature c (Proposal.sign c key fresh p) ≡ accepted)
      × ((a : SwapAccept) → Accept.verify_signature c (Accept.sign c key fresh a) ≡ true)
      × ((m : SwapCommit) → Commit.verify_signature c (Commit.sign c key fresh m) ≡ true)
      × ((m : SwapAbort) → Abort.verify_signature c (Abort.sign c key fresh m) ≡ true)
unfolding Proposal.sign Proposal.verify_content_signature Proposal.signing_bytes Accept.sign
    Accept.verify_signature Accept.signing_bytes Commit.sign Commit.verify_signature
    Commit.signing_bytes Abort.sign Abort.verify_signature Abort.signing_bytes
signed_messages_verify c key fresh l = (
  (λ p.
      rw (check_signature-sign c key (Proposal.signing_bytes (Proposal.sign c key fresh p)) l)
        refl),
  (λ a. check_signature-sign c key (Accept.signing_bytes (Accept.sign c key fresh a)) l),
  (λ m. check_signature-sign c key (Commit.signing_bytes (Commit.sign c key fresh m)) l),
  λ m. check_signature-sign c key (Abort.signing_bytes (Abort.sign c key fresh m)) l,
)

-- A commit and an abort without a reason that agree on the swap, the sender, the nonce, the key and the
-- signature: the one verifies exactly when the other does, since both signatures cover the same bytes.
pub commit_is_an_abort :
    (c : Crypto) (m : SwapCommit)
    → Abort.verify_signature c (record {
      proposal_id = m.proposal_id;
      from_node = m.from_node;
      reason = [];
      nonce = m.nonce;
      identity_public_key = m.identity_public_key;
      signature = m.signature;
    })
      ≡ Commit.verify_signature c m
unfolding Abort.verify_signature Commit.verify_signature Abort.signing_bytes Commit.signing_bytes
commit_is_an_abort c m = refl
