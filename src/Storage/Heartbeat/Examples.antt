-- ===== src/Storage/Heartbeat/Examples.antt =====
-- A lease manager and heartbeats, and the theorems applied to them.
use static.Common.{
  ◌<◌, is_some, ℕ, ◌≡◌, refl, Bool, true, some, [], ◌∷◌, arith, ◌⊎◌, be_bytes, from_be_acc,
}
use static.HashMap.{get}
use static.Storage.Crypto.{check_signature}
use static.Storage.Examples.{toy}
use static.Storage.Lease.{ChunkLease, ok}
use static.Storage.Heartbeat.{
  Heartbeat, LeaseManager, err, replay_detected, sign, verify_signature, process_heartbeat,
  process_heartbeat_upsert, cleanup_nonces, signing_bytes, concat_ids,
}
use static.Storage.Heartbeat.Codec.{wire_serialize, wire_deserialize}
use static.Storage.Heartbeat.Codec.RoundTrip.{IsWireable, wire_deserialize-wire_serialize}
use static.Storage.Heartbeat.Owner.{Permits, Follows, capped, only_owner_renews}
use static.Storage.Heartbeat.Renewal.{process_heartbeat_renews}
use static.Storage.Heartbeat.Nonces.{heartbeat_replay_refused, old_heartbeat_sets_end_back}

abbrev unsigned : Heartbeat
unsigned = record {
  content_id = 77;
  renewal_token = 5;
  new_expires_at = 90000;
  chunk_ids = 9 ∷ [];
  nonce = 3;
  signature = [];
  content_pub_key = 0;
}

abbrev heartbeat : Heartbeat
heartbeat = sign toy 6 unsigned

abbrev lease : ChunkLease
lease = record { chunk_id = 9; expires_at = 200000; renewal_token = 5; content_pub_key = 6 }

abbrev manager : LeaseManager
manager = record {
  leases = (9, lease) ∷ [];
  content_chunks = [];
  seen_nonces = [];
  owned_content = [];
}

abbrev later_manager : LeaseManager
later_manager = record manager { seen_nonces = (3, 1000) ∷ [] }

abbrev holds_all : ℕ → Bool
holds_all id = true

heartbeat-signed : verify_signature toy heartbeat ≡ true
unfolding verify_signature sign check_signature signing_bytes concat_ids be_bytes from_be_acc
heartbeat-signed = refl

only_owner_renews_example :
    let after = get 9 (process_heartbeat_upsert toy manager heartbeat 1000 holds_all).0.leases in
    (after ≡ get 9 manager.leases)
    ⊎ ((verify_signature toy heartbeat ≡ true)
        × (holds_all 9 ≡ true)
        × Permits heartbeat (get 9 manager.leases)
        × Follows heartbeat (capped toy heartbeat 1000) after)
only_owner_renews_example = only_owner_renews toy manager heartbeat 1000 holds_all 9

heartbeat_replay_refused_example :
    let m' =
      cleanup_nonces (process_heartbeat_upsert toy manager heartbeat 1000 holds_all).0 50000 in
    process_heartbeat_upsert toy m' heartbeat 60000 holds_all ≡ (m', err (replay_detected 1000))
unfolding get sign
heartbeat_replay_refused_example =
    heartbeat_replay_refused toy manager heartbeat 1000 50000 60000 holds_all holds_all
      heartbeat-signed tt refl (omega arith) (omega arith)

old_heartbeat_sets_end_back_example :
    (get 9
        (process_heartbeat_upsert toy
          (cleanup_nonces later_manager 100000)
          heartbeat
          100000
          holds_all).0.leases
      ≡ some (record lease { expires_at = capped toy heartbeat 100000 }))
    × (capped toy heartbeat 100000 < lease.expires_at)
unfolding get sign
old_heartbeat_sets_end_back_example =
    old_heartbeat_sets_end_back toy later_manager heartbeat 100000 1000 9 holds_all lease
      heartbeat-signed (refl, tt) refl (omega arith) refl refl refl refl refl (omega arith)

abbrev sent : Heartbeat
sent = record unsigned { signature = 1 ∷ 2 ∷ []; chunk_ids = 9 ∷ 10 ∷ [] }

sent-IsWireable : IsWireable sent
sent-IsWireable = record {
  token = omega arith;
  expires = omega arith;
  count = omega arith;
  ids = (omega arith, (omega arith, tt));
  nonce = omega arith;
  key = omega arith;
  signature = omega arith;
}

wire_deserialize_example :
    wire_deserialize (wire_serialize sent) ≡ ok (record sent { content_id = 0 })
wire_deserialize_example = wire_deserialize-wire_serialize sent sent-IsWireable

process_heartbeat_renews_example :
    let after = get 9 (process_heartbeat toy manager heartbeat 1000).0.leases in
    (after ≡ get 9 manager.leases)
    ⊎ ((is_some (get 9 manager.leases) ≡ true)
        × Permits heartbeat (get 9 manager.leases)
        × Follows heartbeat heartbeat.new_expires_at after)
process_heartbeat_renews_example = process_heartbeat_renews toy manager heartbeat 1000 9
