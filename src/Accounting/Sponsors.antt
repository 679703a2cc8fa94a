-- ===== src/Accounting/Sponsors.antt =====
-- crates/static-accounting/src/lib.rs: the seed-only nodes that a node sponsors.
pub mod Laws
use static.Common.{
  contains, ℕ, ◌+◌, Bool, true, false, not, Option, none, some, List, [], ◌∷◌, ◌++◌, leb, ltb, ◌==◌,
  ◌||◌, if◌then◌else◌, add32, add64, is_some,
}
use static.HashMap.{HashMap, get, insert, modify, contains_key}
use static.HashMap.Sums.{sum_of}
use static.Accounting.State.{AccountingState, SponsoredSeedInfo}

abbrev pub max_sponsored_seeds : ℕ
max_sponsored_seeds = 5

pub data SponsorError : Type 0 where
  at_capacity : SponsorError
  rate_limited : SponsorError
  insufficient_stake : SponsorError
  misbehaving_seed : SponsorError

pub data Registered (S : Type 0) : Type 0 where
  registered : S → Registered S
  refused : SponsorError → Registered S

abbrev pub new_seed : ℕ → ℕ → ℕ → ℕ → SponsoredSeedInfo
new_seed node_id content_id prepaid now = record {
  node_id = node_id;
  content_ids = content_id ∷ [];
  total_prepaid = prepaid;
  heartbeats_received = 0;
  prepayment_renewals = 0;
  rate_violations = 0;
  last_seen = now;
  misbehaving = false;
}

abbrev pub renew : ℕ → ℕ → ℕ → SponsoredSeedInfo → SponsoredSeedInfo
renew content_id prepaid_bytes now info = record info {
  content_ids =
      if contains info.content_ids content_id
      then info.content_ids
      else info.content_ids ++ (content_id ∷ []);
  total_prepaid = add64 info.total_prepaid prepaid_bytes;
  prepayment_renewals = add32 info.prepayment_renewals 1;
  last_seen = now;
}

abbrev pub heard : ℕ → SponsoredSeedInfo → SponsoredSeedInfo
heard now info = record info {
  heartbeats_received = add64 info.heartbeats_received 1;
  last_seen = now;
}

abbrev pub violated : SponsoredSeedInfo → SponsoredSeedInfo
violated info = record info {
  rate_violations = add32 info.rate_violations 1;
  misbehaving = if leb 3 (add32 info.rate_violations 1) then true else info.misbehaving;
}

-- One for a seed that counts against the limit.
abbrev pub counted : SponsoredSeedInfo → ℕ
counted info = if info.misbehaving then 0 else 1

abbrev pub is_misbehaving : Option SponsoredSeedInfo → Bool
is_misbehaving none = false
is_misbehaving (some info) = info.misbehaving

abbrev pub is_healthy : Option SponsoredSeedInfo → Bool
is_healthy none = false
is_healthy (some info) = not info.misbehaving

module _ {F64 : Type 0} where
  unfoldable pub sponsor_seed_count : AccountingState F64 → ℕ
  sponsor_seed_count s = sum_of counted s.sponsored_seeds

  unfoldable pub can_sponsor : AccountingState F64 → Bool
  can_sponsor s = ltb (sponsor_seed_count s) max_sponsored_seeds

  unfoldable pub is_sponsored : ℕ → AccountingState F64 → Bool
  is_sponsored seed s = contains_key seed s.sponsored_seeds

  unfoldable pub register_sponsored_seed :
      ℕ → ℕ → ℕ → ℕ → AccountingState F64 → Registered (AccountingState F64)
  register_sponsored_seed seed content_id prepaid_bytes now s =
      if is_sponsored seed s
      then registered (record s {
        sponsored_seeds = modify seed (renew content_id prepaid_bytes now) s.sponsored_seeds;
      })
      else if not (can_sponsor s)
      then refused at_capacity
      else registered (record s {
        sponsored_seeds =
            insert seed (new_seed seed content_id prepaid_bytes now) s.sponsored_seeds;
      })

  unfoldable pub record_seed_heartbeat : ℕ → ℕ → AccountingState F64 → AccountingState F64
  record_seed_heartbeat seed now s = record s {
    sponsored_seeds = modify seed (heard now) s.sponsored_seeds;
  }

  unfoldable pub record_seed_violation : ℕ → AccountingState F64 → AccountingState F64
  record_seed_violation seed s = record s {
    sponsored_seeds = modify seed violated s.sponsored_seeds;
  }

  unfoldable pub is_seed_misbehaving : ℕ → AccountingState F64 → Bool
  is_seed_misbehaving seed s = is_misbehaving (get seed s.sponsored_seeds)

  unfoldable pub is_seed_healthy : ℕ → AccountingState F64 → Bool
  is_seed_healthy seed s = is_healthy (get seed s.sponsored_seeds)
