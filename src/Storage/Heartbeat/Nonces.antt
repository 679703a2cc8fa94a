-- ===== src/Storage/Heartbeat/Nonces.antt =====
-- Heartbeats that come twice: within a day, and after their nonce is forgotten.
use static.Common.{
  ℕ, ◌+◌, ◌-◌, ◌≤◌, ◌<◌, ◌≡◌, ◌∙◌, Bool, true, none, some, [], ◌∷◌, arith, ltb, ==_refl,
}
use static.HashMap.{HashMap, get, insert, Distinct}
use static.HashMap.Laws.{get-insert, get-retain, insert-Distinct}
use static.Storage.Crypto.{Crypto}
use static.Storage.Lease.{ChunkLease}
use static.Storage.Heartbeat.{
  Heartbeat, LeaseManager, err, replay_detected, match_lease_content_key, refresh, upsert,
  upsert_chunks, verify_signature, process_heartbeat_upsert, cleanup_nonces,
  default_lease_duration_secs,
}
use static.Storage.Heartbeat.Owner.{capped}

module _ (c : Crypto) where
  seen_after :
      (m : LeaseManager) (h : Heartbeat) (now : ℕ) (held : ℕ → Bool)
      → verify_signature c h ≡ true
      → get h.nonce m.seen_nonces ≡ none
      → (process_heartbeat_upsert c m h now held).0.seen_nonces ≡ insert h.nonce now m.seen_nonces
  unfolding process_heartbeat_upsert
  seen_after m h now held e f = ground (arith, e, f)

  refused_if_seen :
      (m : LeaseManager) (h : Heartbeat) (now t : ℕ) (held : ℕ → Bool)
      → verify_signature c h ≡ true
      → get h.nonce m.seen_nonces ≡ some t
      → process_heartbeat_upsert c m h now held ≡ (m, err (replay_detected t))
  unfolding process_heartbeat_upsert
  refused_if_seen m h now t held e f = ground (arith, e, f)

  still_seen :
      (m : LeaseManager) (h : Heartbeat) (now cleaned : ℕ) (held : ℕ → Bool)
      → (process_heartbeat_upsert c m h now held).0.seen_nonces ≡ insert h.nonce now m.seen_nonces
      → Distinct m.seen_nonces
      → cleaned < now + default_lease_duration_secs
      → 0 < now
      → get h.nonce (cleanup_nonces (process_heartbeat_upsert c m h now held).0 cleaned).seen_nonces
        ≡ some now
  unfolding cleanup_nonces
  still_seen m h now cleaned held e d soon started = rw e (
      ground (
        arith,
        soon,
        started,
        ==_refl h.nonce,
        get-insert h.nonce h.nonce now m.seen_nonces,
        get-retain (λ _ time. ltb (cleaned - default_lease_duration_secs) time) h.nonce
            (insert h.nonce now m.seen_nonces) (insert-Distinct h.nonce now m.seen_nonces d),
      ))

  -- A heartbeat that was processed and comes again, after nonces were cleaned up less than a day later:
  -- it is refused as a replay of the first time, and changes nothing. The nonces seen stand once each.
  pub heartbeat_replay_refused :
      (m : LeaseManager) (h : Heartbeat) (now cleaned later : ℕ) (held held' : ℕ → Bool)
      → verify_signature c h ≡ true
      → Distinct m.seen_nonces
      → get h.nonce m.seen_nonces ≡ none
      → cleaned < now + default_lease_duration_secs
      → 0 < now
      → let m' = cleanup_nonces (process_heartbeat_upsert c m h now held).0 cleaned in
        process_heartbeat_upsert c m' h later held' ≡ (m', err (replay_detected now))
  heartbeat_replay_refused m h now cleaned later held held' signed distinct unseen soon started =
      refused_if_seen (cleanup_nonces (process_heartbeat_upsert c m h now held).0 cleaned) h later
        now held' signed
        (still_seen m h now cleaned held (seen_after m h now held signed unseen) distinct soon
          started)

  forgotten :
      (m : LeaseManager) (nonce t now : ℕ)
      → Distinct m.seen_nonces
      → get nonce m.seen_nonces ≡ some t
      → t + default_lease_duration_secs ≤ now
      → get nonce (cleanup_nonces m now).seen_nonces ≡ none
  unfolding cleanup_nonces
  forgotten m nonce t now d e old = ground (
    arith,
    e,
    old,
    get-retain (λ _ time. ltb (now - default_lease_duration_secs) time) nonce m.seen_nonces d,
  )

  sets_end :
      (h : Heartbeat) (expires_at : ℕ) (held : ℕ → Bool) (leases : HashMap ChunkLease) (id : ℕ)
      (lease : ChunkLease)
      → held id ≡ true
      → get id leases ≡ some lease
      → lease.renewal_token ≡ h.renewal_token
      → lease.content_pub_key ≡ h.content_pub_key
      → get id (upsert_chunks h expires_at held leases (id ∷ [])).0
        ≡ some (record lease { expires_at = expires_at })
  unfolding upsert_chunks upsert refresh match_lease_content_key
  sets_end h expires_at held leases id lease is_held found token key = ground (
    arith,
    is_held,
    found,
    token,
    key,
    ==_refl id,
    get-insert id id (record lease { expires_at = expires_at }) leases,
    get-insert id id (record lease { content_pub_key = h.content_pub_key; expires_at = expires_at })
        leases,
  )

  takes :
      (n : LeaseManager) (h : Heartbeat) (now id : ℕ) (held : ℕ → Bool)
      → verify_signature c h ≡ true
      → get h.nonce n.seen_nonces ≡ none
      → h.chunk_ids ≡ id ∷ []
      → get id (process_heartbeat_upsert c n h now held).0.leases
        ≡ get id (upsert_chunks h (capped c h now) held n.leases (id ∷ [])).0
  unfolding process_heartbeat_upsert
  takes n h now id held signed unseen one = ground (arith, signed, unseen, one)

  -- A heartbeat for one held chunk that was seen a day or more ago, after nonces are cleaned up, where
  -- the chunk's lease has its token and owner and ends after the time that the heartbeat names: it is
  -- taken again, and the lease then ends earlier than before, at the named time or a day from now,
  -- whichever is earlier.
  pub old_heartbeat_sets_end_back :
      (m : LeaseManager) (h : Heartbeat) (now seen id : ℕ) (held : ℕ → Bool) (lease : ChunkLease)
      → verify_signature c h ≡ true
      → Distinct m.seen_nonces
      → get h.nonce m.seen_nonces ≡ some seen
      → seen + default_lease_duration_secs ≤ now
      → h.chunk_ids ≡ id ∷ []
      → held id ≡ true
      → get id m.leases ≡ some lease
      → lease.renewal_token ≡ h.renewal_token
      → lease.content_pub_key ≡ h.content_pub_key
      → h.new_expires_at < lease.expires_at
      → (get id (process_heartbeat_upsert c (cleanup_nonces m now) h now held).0.leases
          ≡ some (record lease { expires_at = capped c h now }))
        × (capped c h now < lease.expires_at)
  unfolding cleanup_nonces
  old_heartbeat_sets_end_back m h now seen id held lease signed d e old one is_held found token key
        longer =
      (
        takes (cleanup_nonces m now) h now id held signed (forgotten m h.nonce seen now d e old) one
            ∙ sets_end h (capped c h now) held m.leases id lease is_held found token key,
        omega (arith, longer),
      )
