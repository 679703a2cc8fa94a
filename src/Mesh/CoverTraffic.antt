-- ===== src/Mesh/CoverTraffic.antt =====
-- crates/static-mesh/src/lib.rs: the generator of cover traffic. An `Instant` is a number of
-- nanoseconds; `now` is an argument.
mod Examples
use static.Common.{
  ℕ, ◌+◌, ◌*◌, ◌-◌, ◌/◌, ◌%◌, ◌≡◌, ◌<◌, refl, Bool, List, [], ◌∷◌, ltb, leb, if◌then◌else◌, add64,
  u64_mod, max, arith,
}

pub data BandwidthTier : Type 0 where
  low : BandwidthTier
  standard : BandwidthTier
  high : BandwidthTier

unfoldable pub target_rate_bps : BandwidthTier → ℕ
target_rate_bps low = 51200
target_rate_bps standard = 512000
target_rate_bps high = 5242880

pub record CoverTrafficConfig : Type 0 where
  pub target_rate_bps : ℕ
  pub interval_ms : ℕ
  pub enabled : Bool
  pub tier : BandwidthTier
  pub use_hybrid : Bool

pub record CoverTrafficGenerator : Type 0 where
  pub config : CoverTrafficConfig
  pub bytes_this_interval : ℕ
  pub real_bytes_this_interval : ℕ
  pub cover_bytes_this_interval : ℕ
  pub total_bytes_sent : ℕ
  pub total_real_bytes_sent : ℕ
  pub total_cover_bytes_sent : ℕ
  pub last_reset : ℕ

unfoldable pub target_bytes_per_interval : CoverTrafficGenerator → ℕ
target_bytes_per_interval g = (g.config.target_rate_bps * g.config.interval_ms) % u64_mod / 1000

unfoldable pub record_real_traffic : ℕ → CoverTrafficGenerator → CoverTrafficGenerator
record_real_traffic bytes g = record g {
  bytes_this_interval = add64 g.bytes_this_interval bytes;
  real_bytes_this_interval = add64 g.real_bytes_this_interval bytes;
  total_bytes_sent = add64 g.total_bytes_sent bytes;
  total_real_bytes_sent = add64 g.total_real_bytes_sent bytes;
}

abbrev pub add_cover : ℕ → CoverTrafficGenerator → CoverTrafficGenerator
add_cover remaining g = record g {
  bytes_this_interval = add64 g.bytes_this_interval remaining;
  cover_bytes_this_interval = add64 g.cover_bytes_this_interval remaining;
  total_bytes_sent = add64 g.total_bytes_sent remaining;
  total_cover_bytes_sent = add64 g.total_cover_bytes_sent remaining;
}

unfoldable pub generate_cover_traffic : CoverTrafficGenerator → CoverTrafficGenerator × ℕ
generate_cover_traffic g =
    let remaining = target_bytes_per_interval g - g.bytes_this_interval in
    if ltb 0 remaining then (add_cover remaining g, remaining) else (g, 0)

unfoldable pub should_reset_interval : ℕ → CoverTrafficGenerator → Bool
should_reset_interval now g = leb (g.config.interval_ms * 1000000) (now - g.last_reset)

unfoldable pub reset_interval : ℕ → CoverTrafficGenerator → CoverTrafficGenerator
reset_interval now g = record g {
  bytes_this_interval = 0;
  real_bytes_this_interval = 0;
  cover_bytes_this_interval = 0;
  last_reset = now;
}

-- Real traffic, one packet after another.
abbrev pub record_all : List ℕ → CoverTrafficGenerator → CoverTrafficGenerator
record_all [] g = g
record_all (bytes ∷ packets) g = record_all packets (record_real_traffic bytes g)

abbrev pub total : List ℕ → ℕ
total [] = 0
total (bytes ∷ packets) = bytes + total packets

interval-record_all :
    (packets : List ℕ) (g : CoverTrafficGenerator)
    → g.bytes_this_interval + total packets < u64_mod
    → ((record_all packets g).bytes_this_interval ≡ g.bytes_this_interval + total packets)
      × (target_bytes_per_interval (record_all packets g) ≡ target_bytes_per_interval g)
unfolding record_real_traffic target_bytes_per_interval
interval-record_all [] g h = (omega arith, refl)
interval-record_all (bytes ∷ packets) g h =
    let (sum, target) =
      interval-record_all packets (record_real_traffic bytes g) (omega (arith, h)) in
    (omega (arith, sum, h), target)

bytes-generate_cover_traffic :
    (g : CoverTrafficGenerator)
    → g.bytes_this_interval < u64_mod
    → (generate_cover_traffic g).0.bytes_this_interval
      ≡ max (target_bytes_per_interval g) g.bytes_this_interval
unfolding generate_cover_traffic target_bytes_per_interval
bytes-generate_cover_traffic g h = ground (arith, h)

-- Whatever real packets, of less than 2^64 bytes together, are sent between a reset and the cover, the
-- interval carries its target, or the real traffic where that is more.
pub interval_is_filled :
    (now : ℕ) (packets : List ℕ) (g : CoverTrafficGenerator)
    → total packets < u64_mod
    → let sent = (generate_cover_traffic (record_all packets (reset_interval now g))).0 in
      sent.bytes_this_interval ≡ max (target_bytes_per_interval g) (total packets)
unfolding reset_interval target_bytes_per_interval
interval_is_filled now packets g h =
    let fresh = reset_interval now g in
    let (sum, target) = interval-record_all packets fresh (omega (arith, h)) in
    let sent : (record_all packets fresh).bytes_this_interval ≡ total packets =
      omega (arith, sum) in
    let filled = bytes-generate_cover_traffic (record_all packets fresh) (omega (arith, sent, h)) in
    rw (filled, target, sent) refl
