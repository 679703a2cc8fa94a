-- ===== src/Storage/Swap/Abort.antt =====
-- crates/static-storage/src/swap.rs, `SwapAbort`: what its signature covers and how it is made.
-- The reason is the bytes of its text.
use static.Common.{ℕ, Bool, Option, none, some, List, [], ◌++◌, be_bytes, ◌==◌, if◌then◌else◌}
use static.Storage.Crypto.{Crypto, check_signature}

pub record SwapAbort : Type 0 where
  pub proposal_id : ℕ
  pub from_node : ℕ
  pub reason : List ℕ
  pub nonce : ℕ
  pub identity_public_key : ℕ
  pub signature : List ℕ

unfoldable pub signing_bytes : SwapAbort → List ℕ
signing_bytes m =
    be_bytes 32 m.proposal_id ++ (be_bytes 16 m.from_node ++ (m.reason ++ be_bytes 32 m.nonce))

unfoldable pub sign : Crypto → ℕ → ℕ → SwapAbort → SwapAbort
sign c key fresh m =
    let n = record m {
      identity_public_key = c.verifying_key key;
      nonce = if m.nonce == 0 then fresh else m.nonce;
    } in
    record n { signature = c.sign key (signing_bytes n) }

unfoldable pub verify_signature : Crypto → SwapAbort → Bool
verify_signature c m = check_signature c m.identity_public_key (signing_bytes m) m.signature

-- The last two arguments are the identity key, if one is given, and what the generator yields.
unfoldable pub create_swap_abort : Crypto → ℕ → ℕ → List ℕ → Option ℕ → ℕ → ℕ → SwapAbort
create_swap_abort c id from_node reason key nonce fresh =
    let m : SwapAbort = record {
      proposal_id = id;
      from_node = from_node;
      reason = reason;
      nonce = nonce;
      identity_public_key = 0;
      signature = [];
    } in
    elim key [ none ↦ m | some k ↦ sign c k fresh m ]
