-- ===== src/Accounting/Challenge.antt =====
-- crates/static-accounting/src/lib.rs: challenges that prove the storage of a chunk.
use static.Common.{
  ℕ, ◌+◌, ◌<◌, ◌≡◌, ◌≢◌, not, List, ◌++◌, ltb, ◌==◌, if◌then◌else◌, add64, be_bytes, codes, arith,
  u64_mod, ==_refl, ap, ◌∙◌,
}
use static.Storage.Crypto.{Crypto}

pub record Challenge : Type 0 where
  pub chunk_id : ℕ
  pub nonce : ℕ
  pub issued_at : ℕ
  pub deadline : ℕ
  pub challenger : ℕ

pub record ChallengeProof : Type 0 where
  pub challenge : Challenge
  pub proof : ℕ

pub data AccountingError : Type 0 where
  challenge_expired : AccountingError
  proof_failed : AccountingError
  peer_not_found : AccountingError

-- `Result<(), AccountingError>`
pub data Verdict : Type 0 where
  valid : Verdict
  invalid : AccountingError → Verdict

-- The nonce is drawn by the caller, the time is read by it.
unfoldable pub create_challenge : ℕ → ℕ → ℕ → ℕ → ℕ → Challenge
create_challenge nonce now chunk_id challenger duration_secs = record {
  chunk_id = chunk_id;
  nonce = nonce;
  issued_at = now;
  deadline = add64 now duration_secs;
  challenger = challenger;
}

unfoldable pub proof_input : Challenge → List ℕ → List ℕ
proof_input challenge chunk_data =
    chunk_data ++ (be_bytes 32 challenge.nonce ++ codes "space_time_proof")

module _ (c : Crypto) where
  unfoldable pub create_proof : Challenge → List ℕ → ChallengeProof
  create_proof challenge chunk_data = record {
    challenge = challenge;
    proof = c.hash (proof_input challenge chunk_data);
  }

  unfoldable pub verify_proof : ChallengeProof → List ℕ → ℕ → Verdict
  verify_proof proof chunk_data current_time =
      if ltb proof.challenge.deadline current_time
      then invalid challenge_expired
      else if not (proof.proof == c.hash (proof_input proof.challenge chunk_data))
      then invalid proof_failed
      else valid

unfoldable pub verify_proof_deadline : ChallengeProof → ℕ → Verdict
verify_proof_deadline proof current_time =
    if ltb proof.challenge.deadline current_time then invalid challenge_expired else valid

-- A proof made over a chunk in answer to a challenge issued at `now` passes until the challenge's
-- time is over and is refused as expired from then on. A proof made over other bytes is refused in
-- either case, as failed or expired, if its digest is another.
pub verify_proof-create_proof :
    (c : Crypto) (nonce now chunk_id challenger duration_secs current_time : ℕ)
    → (chunk_data other_data : List ℕ) → (challenge : Challenge) → now + duration_secs < u64_mod
    → challenge ≡ create_challenge nonce now chunk_id challenger duration_secs
    → c.hash (proof_input challenge other_data) ≢ c.hash (proof_input challenge chunk_data)
    → (verify_proof c (create_proof c challenge chunk_data) chunk_data current_time
        ≡ (if ltb (now + duration_secs) current_time then invalid challenge_expired else valid))
      × (verify_proof c (create_proof c challenge other_data) chunk_data current_time ≡ (
          if ltb (now + duration_secs) current_time
          then invalid challenge_expired
          else invalid proof_failed))
unfolding verify_proof create_proof create_challenge
verify_proof-create_proof c nonce now chunk_id challenger duration_secs current_time chunk_data
      other_data challenge fits made differ =
    let same = ==_refl (c.hash (proof_input challenge chunk_data)) in
    let deadline : challenge.deadline ≡ now + duration_secs =
      ap (λ (x : Challenge). x.deadline) made ∙ omega (arith, fits) in
    (ground (arith, same, deadline), ground (arith, differ, deadline))
