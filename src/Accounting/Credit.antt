-- ===== src/Accounting/Credit.antt =====
-- crates/static-accounting/src/lib.rs: the credit of one peer. Counters are machine words that wrap as
-- in a release build; the `i64` net credit is its two's complement word. `f64` is a parameter.
use static.Common.{
  ℕ, ◌+◌, ◌%◌, ◌^◌, ◌*◌, ◌<◌, ◌≡◌, ◌≢◌, Bool, true, leb, ltb, ◌==◌, if◌then◌else◌, add32, add64,
  sub64, u32_mod, u64_mod,
}

-- What the crate uses of `f64`: infinity, two constants, `a as f64 / b as f64` and comparisons.
pub record Floats : Type 1 where
  pub F64 : Type 0
  pub infinity : F64
  pub half : F64
  pub one : F64
  pub quotient : ℕ → ℕ → F64
  pub lt : F64 → F64 → Bool
  pub le : F64 → F64 → Bool

-- What IEEE 754 says of them: infinity is largest, and a quotient of two `u32`, correctly rounded, is
-- below 0.5 exactly if the fraction is.
pub record FloatsLaws (f : Floats) : Type 0 where
  pub le-infinity : (x : f.F64) → f.le x f.infinity ≡ true
  pub lt-quotient-half :
      (a b : ℕ) → a < u32_mod → b < u32_mod → b ≢ 0 → f.lt (f.quotient a b) f.half ≡ ltb (2 * a) b

-- `a >= b` and `a > b` on `i64`, by the words.
abbrev sign_flip : ℕ → ℕ
sign_flip a = (a + 2 ^ 63) % u64_mod

unfoldable pub signed_ge : ℕ → ℕ → Bool
signed_ge a b = leb (sign_flip b) (sign_flip a)

unfoldable pub signed_gt : ℕ → ℕ → Bool
signed_gt a b = ltb (sign_flip b) (sign_flip a)

pub record PeerCredit : Type 0 where
  pub bytes_served : ℕ
  pub bytes_received : ℕ
  pub net_credit : ℕ
  pub last_interaction : ℕ
  pub successful_challenges : ℕ
  pub failed_challenges : ℕ
  pub prepaid_bytes : ℕ

abbrev pub new : PeerCredit
new = record {
  bytes_served = 0;
  bytes_received = 0;
  net_credit = 0;
  last_interaction = 0;
  successful_challenges = 0;
  failed_challenges = 0;
  prepaid_bytes = 0;
}

abbrev pub has_credit : ℕ → PeerCredit → Bool
has_credit needed c = signed_ge c.net_credit needed

abbrev pub has_prepaid : ℕ → PeerCredit → Bool
has_prepaid needed c = leb needed c.prepaid_bytes

abbrev pub effective_credit : PeerCredit → ℕ
effective_credit c = add64 c.net_credit c.prepaid_bytes

abbrev pub record_served : ℕ → ℕ → PeerCredit → PeerCredit
record_served bytes timestamp c = record c {
  bytes_served = add64 c.bytes_served bytes;
  net_credit = add64 c.net_credit bytes;
  last_interaction = timestamp;
}

abbrev pub record_received : ℕ → ℕ → PeerCredit → PeerCredit
record_received bytes timestamp c = record c {
  bytes_received = add64 c.bytes_received bytes;
  net_credit = sub64 c.net_credit bytes;
  last_interaction = timestamp;
}

abbrev pub record_challenge_success : ℕ → PeerCredit → PeerCredit
record_challenge_success timestamp c = record c {
  successful_challenges = add32 c.successful_challenges 1;
  last_interaction = timestamp;
}

abbrev pub record_challenge_failure : ℕ → PeerCredit → PeerCredit
record_challenge_failure timestamp c = record c {
  failed_challenges = add32 c.failed_challenges 1;
  last_interaction = timestamp;
}

abbrev pub total_challenges : PeerCredit → ℕ
total_challenges c = add32 c.successful_challenges c.failed_challenges

module _ (f : Floats) where
  unfoldable pub ratio : PeerCredit → f.F64
  ratio c = if c.bytes_received == 0 then f.infinity else f.quotient c.bytes_served c.bytes_received

  unfoldable pub challenge_success_rate : PeerCredit → f.F64
  challenge_success_rate c =
      if total_challenges c == 0
      then f.one
      else f.quotient c.successful_challenges (total_challenges c)
