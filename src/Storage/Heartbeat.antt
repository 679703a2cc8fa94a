-- ===== src/Storage/Heartbeat.antt =====
-- crates/static-storage/src/heartbeat.rs: heartbeats, by which the owner of a content renews the
-- leases on its chunks, and the lease manager that processes them. The set of chunks that a node
-- holds is its test of membership.
pub mod Codec
pub mod Owner
pub mod Nonces
pub mod Renewal
mod Examples
use static.Common.{
  ℕ, ◌+◌, ◌-◌, min, Bool, true, false, not, Option, none, some, List, [], ◌∷◌, ◌++◌, length,
  be_bytes, add64, saturating_add64, ltb, ◌==◌, if◌then◌else◌,
}
use static.HashMap.{HashMap, get, insert, remove, retain}
use static.Storage.Crypto.{Crypto, check_signature}
use static.Storage.Lease.{ChunkLease, create_lease, is_lease_valid}

abbrev pub default_lease_duration_secs : ℕ
default_lease_duration_secs = 86400

abbrev pub grace_period_secs : ℕ
grace_period_secs = 7200

pub record Heartbeat : Type 0 where
  pub content_id : ℕ
  pub renewal_token : ℕ
  pub new_expires_at : ℕ
  pub chunk_ids : List ℕ
  pub nonce : ℕ
  pub signature : List ℕ
  pub content_pub_key : ℕ

pub data HeartbeatError : Type 0 where
  replay_detected : ℕ → HeartbeatError
  invalid_token content_not_owned no_chunks invalid_signature : HeartbeatError

pub data Outcome {ℓ} (A : Type ℓ) : Type ℓ where
  ok : A → Outcome A
  err : HeartbeatError → Outcome A

unfoldable pub concat_ids : List ℕ → List ℕ
concat_ids [] = []
concat_ids (id ∷ ids) = be_bytes 32 id ++ concat_ids ids

unfoldable pub signing_bytes : Heartbeat → List ℕ
signing_bytes h = concat_ids h.chunk_ids ++ (be_bytes 8 h.new_expires_at ++ be_bytes 32 h.nonce)

-- What `LeaseManager` keeps; an owned content has its master key.
pub record LeaseManager : Type 0 where
  pub leases : HashMap ChunkLease
  pub content_chunks : HashMap (List ℕ)
  pub seen_nonces : HashMap ℕ
  pub owned_content : HashMap ℕ

unfoldable pub new : LeaseManager
new = record { leases = []; content_chunks = []; seen_nonces = []; owned_content = [] }

unfoldable pub register_owned_content : LeaseManager → ℕ → ℕ → List ℕ → LeaseManager
register_owned_content m content_id master_key chunk_ids = record m {
  owned_content = insert content_id master_key m.owned_content;
  content_chunks = insert content_id chunk_ids m.content_chunks;
}

unfoldable pub add_lease : LeaseManager → ℕ → ChunkLease → LeaseManager
add_lease m chunk_id lease = record m { leases = insert chunk_id lease m.leases }

unfoldable pub remove_lease : LeaseManager → ℕ → LeaseManager × Option ChunkLease
remove_lease m chunk_id = (record m { leases = remove chunk_id m.leases }, get chunk_id m.leases)

unfoldable pub is_valid : LeaseManager → ℕ → ℕ → Bool
is_valid m chunk_id current_time = elim (get chunk_id m.leases) [
  | none ↦ false
  | some lease ↦ is_lease_valid lease current_time
]

-- The ids of the leases that ended before the threshold, in the order of iteration.
unfoldable pub ended_before : HashMap ChunkLease → ℕ → List ℕ
ended_before [] threshold = []
ended_before ((id, lease) ∷ m) threshold =
    let rest = ended_before m threshold in
    if ltb lease.expires_at threshold then id ∷ rest else rest

unfoldable pub get_expired_chunks : LeaseManager → ℕ → List ℕ
get_expired_chunks m current_time = ended_before m.leases (current_time - grace_period_secs)

unfoldable pub cleanup_nonces : LeaseManager → ℕ → LeaseManager
cleanup_nonces m current_time = record m {
  seen_nonces =
      retain (λ _ time. ltb (current_time - default_lease_duration_secs) time) m.seen_nonces;
}

-- `match_lease_content_key`: the lease it leaves.
unfoldable pub match_lease_content_key : ChunkLease → Heartbeat → Outcome ChunkLease
match_lease_content_key lease h =
    if lease.content_pub_key == 0
    then ok (record lease { content_pub_key = h.content_pub_key })
    else if lease.content_pub_key == h.content_pub_key
    then ok lease
    else err invalid_signature

-- The refresh of one lease, after the checks of token and owner.
unfoldable pub refresh : ChunkLease → Heartbeat → ℕ → Outcome ChunkLease
refresh lease h expires_at =
    if lease.renewal_token == h.renewal_token
    then (elim (match_lease_content_key lease h) [
      | err e ↦ err e
      | ok l ↦ ok (record l { expires_at = expires_at })
    ])
    else err invalid_token

-- The lease that a heartbeat gives to a chunk without one.
abbrev pub first_lease : ℕ → Heartbeat → ℕ → ChunkLease
first_lease chunk_id h expires_at = record {
  chunk_id = chunk_id;
  expires_at = expires_at;
  renewal_token = h.renewal_token;
  content_pub_key = h.content_pub_key;
}

abbrev pub add_renewed : ℕ → Outcome (List ℕ) → Outcome (List ℕ)
add_renewed id (ok renewed) = ok (id ∷ renewed)
add_renewed id (err e) = err e

-- The loop of `process_heartbeat`. An error ends it, and what was renewed before stays.
unfoldable pub renew_chunks :
    Heartbeat → HashMap ChunkLease → List ℕ → HashMap ChunkLease × Outcome (List ℕ)
renew_chunks h leases [] = (leases, ok [])
renew_chunks h leases (id ∷ ids) = elim (get id leases) [
  | none ↦ renew_chunks h leases ids
  | some lease ↦ elim (refresh lease h h.new_expires_at) [
    | err e ↦ (leases, err e)
    | ok l ↦
        let (left, renewed) = renew_chunks h (insert id l leases) ids in
        (left, add_renewed id renewed)
  ]
]

-- One chunk in the loop of `process_heartbeat_upsert`.
unfoldable pub upsert : Heartbeat → ℕ → HashMap ChunkLease → ℕ → Outcome (HashMap ChunkLease)
upsert h expires_at leases id = elim (get id leases) [
  | none ↦ ok (insert id (first_lease id h expires_at) leases)
  | some lease ↦ elim (refresh lease h expires_at) [
    | err e ↦ err e
    | ok l ↦ ok (insert id l leases)
  ]
]

unfoldable pub upsert_chunks :
    Heartbeat → ℕ → (ℕ → Bool) → HashMap ChunkLease → List ℕ → HashMap ChunkLease × Outcome (List ℕ)
upsert_chunks h expires_at held leases [] = (leases, ok [])
upsert_chunks h expires_at held leases (id ∷ ids) = elim (held id) [
  | false ↦ upsert_chunks h expires_at held leases ids
  | true ↦ elim (upsert h expires_at leases id) [
    | err e ↦ (leases, err e)
    | ok next ↦
        let (left, renewed) = upsert_chunks h expires_at held next ids in
        (left, add_renewed id renewed)
  ]
]

module _ (c : Crypto) where
  unfoldable pub sign : ℕ → Heartbeat → Heartbeat
  sign key h =
      let owned = record h { content_pub_key = c.verifying_key key } in
      record owned { signature = c.sign key (signing_bytes owned) }

  unfoldable pub verify_signature : Heartbeat → Bool
  verify_signature h = check_signature c h.content_pub_key (signing_bytes h) h.signature

  unfoldable pub process_heartbeat : LeaseManager → Heartbeat → ℕ → LeaseManager × Outcome (List ℕ)
  process_heartbeat m h current_time =
      if not (verify_signature h)
      then (m, err invalid_signature)
      else elim (get h.nonce m.seen_nonces) [
        | some seen_time ↦ (m, err (replay_detected seen_time))
        | none ↦
            let (leases, renewed) = renew_chunks h m.leases h.chunk_ids in
            (
              record m { leases = leases; seen_nonces = insert h.nonce current_time m.seen_nonces },
              renewed,
            )
      ]

  unfoldable pub process_heartbeat_upsert :
      LeaseManager → Heartbeat → ℕ → (ℕ → Bool) → LeaseManager × Outcome (List ℕ)
  process_heartbeat_upsert m h current_time held =
      if not (verify_signature h)
      then (m, err invalid_signature)
      else elim (get h.nonce m.seen_nonces) [
        | some seen_time ↦ (m, err (replay_detected seen_time))
        | none ↦
            let expires_at =
              min h.new_expires_at (saturating_add64 current_time default_lease_duration_secs) in
            let (leases, renewed) = upsert_chunks h expires_at held m.leases h.chunk_ids in
            (
              record m { leases = leases; seen_nonces = insert h.nonce current_time m.seen_nonces },
              renewed,
            )
      ]

  -- The clock, and the nonce that `Heartbeat::new` draws, are the last two arguments.
  unfoldable pub create_heartbeat : LeaseManager → ℕ → ℕ → ℕ → ℕ → ℕ → Outcome Heartbeat
  create_heartbeat m content_id new_duration_secs signing_key now fresh =
      elim (get content_id m.owned_content) [
        | none ↦ err content_not_owned
        | some master_key ↦ elim (get content_id m.content_chunks) [
          | none ↦ err no_chunks
          | some [] ↦ err no_chunks
          | some (first ∷ rest) ↦
              let lease = create_lease c first master_key default_lease_duration_secs now in
              ok (
                sign signing_key (record {
                  content_id = content_id;
                  renewal_token = lease.renewal_token;
                  new_expires_at = add64 now new_duration_secs;
                  chunk_ids = first ∷ rest;
                  nonce = fresh;
                  signature = [];
                  content_pub_key = 0;
                }))
        ]
      ]
