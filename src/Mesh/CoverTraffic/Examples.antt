-- ===== src/Mesh/CoverTraffic/Examples.antt =====
-- A concrete generator: 400 bytes of real traffic in an interval of 512.
use static.Common.{◌≡◌, true, [], ◌∷◌, max, arith}
use static.Mesh.CoverTraffic.{
  CoverTrafficGenerator, standard, target_bytes_per_interval, generate_cover_traffic,
  reset_interval, record_all, total, interval_is_filled,
}

abbrev generator : CoverTrafficGenerator
generator = record {
  config = record {
    target_rate_bps = 512000;
    interval_ms = 1;
    enabled = true;
    tier = standard;
    use_hybrid = true;
  };
  bytes_this_interval = 90;
  real_bytes_this_interval = 90;
  cover_bytes_this_interval = 0;
  total_bytes_sent = 90;
  total_real_bytes_sent = 90;
  total_cover_bytes_sent = 0;
  last_reset = 0;
}

interval_is_filled_example :
    (generate_cover_traffic
      (record_all (100 ∷ (300 ∷ [])) (reset_interval 1000000 generator))).0.bytes_this_interval
    ≡ max (target_bytes_per_interval generator) (total (100 ∷ (300 ∷ [])))
interval_is_filled_example = interval_is_filled 1000000 (100 ∷ (300 ∷ [])) generator (omega arith)
