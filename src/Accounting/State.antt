-- ===== src/Accounting/State.antt =====
-- crates/static-accounting/src/lib.rs: `AccountingState`, the recording of traffic and challenges, and
-- the pruning of peers. The time that an operation reads is its argument `now`.
use static.Common.{
  ℕ, ◌-◌, ◌%◌, Bool, false, none, some, List, [], ltb, if◌then◌else◌, add64, sub64, u64_mod,
  saturating_add64,
}
use static.HashMap.{HashMap, get, insert, modify, retain, contains_key}
use static.HashMap.Sums.{sum_of}
use static.Accounting.Credit.{PeerCredit, signed_gt}
use static.Accounting.Credit

pub record SponsoredSeedInfo : Type 0 where
  pub node_id : ℕ
  pub content_ids : List ℕ
  pub total_prepaid : ℕ
  pub heartbeats_received : ℕ
  pub prepayment_renewals : ℕ
  pub rate_violations : ℕ
  pub last_seen : ℕ
  pub misbehaving : Bool

-- `prepayment_attempts` is keyed by the pair of a seed and a content, written as one number.
pub record AccountingState (F64 : Type 0) : Type 0 where
  pub total_bytes_served : ℕ
  pub total_bytes_received : ℕ
  pub peers : HashMap PeerCredit
  pub min_ratio : F64
  pub initial_credit : ℕ
  pub sponsored_seeds : HashMap SponsoredSeedInfo
  pub prepayment_attempts : HashMap ℕ
  pub peer_sync_times : HashMap ℕ

-- `entry(peer).or_insert_with(PeerCredit::new)`, and a change of what it gives.
unfoldable pub with_peer : ℕ → (PeerCredit → PeerCredit) → HashMap PeerCredit → HashMap PeerCredit
with_peer peer f m = if contains_key peer m then modify peer f m else insert peer (f Credit.new) m

-- A peer stays while its age is below the limit; `now - last_interaction` wraps on a later time.
abbrev pub stays : ℕ → ℕ → PeerCredit → Bool
stays now max_age_secs c = ltb (sub64 now c.last_interaction) max_age_secs

abbrev pub stays_with_grace : ℕ → ℕ → ℕ → ℕ → PeerCredit → Bool
stays_with_grace now max_age_secs threshold grace c =
    if ltb threshold (now - c.last_interaction)
    then ltb (now - c.last_interaction) (saturating_add64 max_age_secs grace)
    else ltb (now - c.last_interaction) max_age_secs

module _ {F64 : Type 0} where
  unfoldable pub record_served : ℕ → ℕ → ℕ → AccountingState F64 → AccountingState F64
  record_served now peer bytes s = record s {
    total_bytes_served = add64 s.total_bytes_served bytes;
    peers = with_peer peer (Credit.record_served bytes now) s.peers;
  }

  unfoldable pub record_received : ℕ → ℕ → ℕ → AccountingState F64 → AccountingState F64
  record_received now peer bytes s = record s {
    total_bytes_received = add64 s.total_bytes_received bytes;
    peers = with_peer peer (Credit.record_received bytes now) s.peers;
  }

  unfoldable pub record_challenge_success : ℕ → ℕ → AccountingState F64 → AccountingState F64
  record_challenge_success now peer s = record s {
    peers = with_peer peer (Credit.record_challenge_success now) s.peers;
  }

  unfoldable pub record_challenge_failure : ℕ → ℕ → AccountingState F64 → AccountingState F64
  record_challenge_failure now peer s = record s {
    peers = with_peer peer (Credit.record_challenge_failure now) s.peers;
  }

  unfoldable pub record_prepayment : ℕ → ℕ → AccountingState F64 → AccountingState F64
  record_prepayment peer bytes s = record s {
    peers = with_peer peer (λ c. record c { prepaid_bytes = add64 c.prepaid_bytes bytes }) s.peers;
  }

  -- The sum of `u64` counters wraps.
  unfoldable pub total_prepaid_bytes : AccountingState F64 → ℕ
  total_prepaid_bytes s = sum_of (λ c. c.prepaid_bytes) s.peers % u64_mod

  unfoldable pub effective_bytes_served : AccountingState F64 → ℕ
  effective_bytes_served s = saturating_add64 s.total_bytes_served (total_prepaid_bytes s)

  unfoldable pub has_excess_capacity : ℕ → AccountingState F64 → Bool
  has_excess_capacity threshold s =
      signed_gt (sub64 s.total_bytes_served s.total_bytes_received) threshold

  unfoldable pub prune_inactive_peers : ℕ → ℕ → AccountingState F64 → AccountingState F64
  prune_inactive_peers now max_age_secs s = record s {
    peers = retain (λ k c. stays now max_age_secs c) s.peers;
  }

  unfoldable pub prune_inactive_peers_with_grace :
      ℕ → ℕ → ℕ → ℕ → AccountingState F64 → AccountingState F64
  prune_inactive_peers_with_grace now max_age_secs threshold grace s = record s {
    peers = retain (λ k c. stays_with_grace now max_age_secs threshold grace c) s.peers;
  }

  unfoldable pub was_partitioned : ℕ → ℕ → ℕ → AccountingState F64 → Bool
  was_partitioned peer threshold current_time s = elim (get peer s.peers) [
    | none ↦ false
    | some c ↦ ltb threshold (current_time - c.last_interaction)
  ]

-- The default settings; the ratio 0.5 is a float.
abbrev pub new_state : {F64 : Type 0} → F64 → AccountingState F64
new_state half = record {
  total_bytes_served = 0;
  total_bytes_received = 0;
  peers = [];
  min_ratio = half;
  initial_credit = 1048576;
  sponsored_seeds = [];
  prepayment_attempts = [];
  peer_sync_times = [];
}
