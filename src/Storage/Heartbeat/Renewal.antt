-- ===== src/Storage/Heartbeat/Renewal.antt =====
-- `process_heartbeat`, which renews the leases that are there and makes no new ones.
use static.Common.{
  ℕ, ◌≡◌, refl, subst, sym, ap, inl, inr, true, false, Option, none, some, List, [], ◌∷◌, arith,
  ◌==◌, Bool-cases, Option-cases, ◌⊎◌, is_some,
}
use static.HashMap.{HashMap, get, insert}
use static.HashMap.Laws.{get-insert}
use static.Storage.Crypto.{Crypto}
use static.Storage.Lease.{ChunkLease}
use static.Storage.Heartbeat.{
  Heartbeat, HeartbeatError, LeaseManager, ok, err, refresh, renew_chunks, verify_signature,
  process_heartbeat,
}
use static.Storage.Heartbeat.Owner.{
  Permits, Follows, Allowed, Allowed-step, refresh_ok, Outcome-cases,
}

module _ (h : Heartbeat) where
  -- The lease of a chunk is as it was, or was there and is renewed.
  abbrev Renewed : Option ChunkLease → Option ChunkLease → Type 0
  Renewed before after = Allowed h h.new_expires_at (is_some before) before after

  renew_absent :
      (leases : HashMap ChunkLease) (id : ℕ) (ids : List ℕ)
      → get id leases ≡ none
      → (renew_chunks h leases (id ∷ ids)).0 ≡ (renew_chunks h leases ids).0
  unfolding renew_chunks
  renew_absent leases id ids e = ground (arith, e)

  renew_fails :
      (leases : HashMap ChunkLease) (id : ℕ) (ids : List ℕ) (lease : ChunkLease)
      (x : HeartbeatError)
      → get id leases ≡ some lease
      → refresh lease h h.new_expires_at ≡ err x
      → (renew_chunks h leases (id ∷ ids)).0 ≡ leases
  unfolding renew_chunks
  renew_fails leases id ids lease x e f = ground (arith, e, f)

  renew_goes_on :
      (leases : HashMap ChunkLease) (id : ℕ) (ids : List ℕ) (lease l : ChunkLease)
      → get id leases ≡ some lease
      → refresh lease h h.new_expires_at ≡ ok l
      → (renew_chunks h leases (id ∷ ids)).0 ≡ (renew_chunks h (insert id l leases) ids).0
  unfolding renew_chunks
  renew_goes_on leases id ids lease l e f = ground (arith, e, f)

  was_there :
      (before : Option ChunkLease) (lease : ChunkLease) (now : Option ChunkLease)
      → now ≡ some lease
      → Renewed before now
      → is_some before ≡ true
  was_there before lease now e (inl same) = ground (arith, e, same)
  was_there before lease now e (inr (is_there, p, f)) = is_there

  renew_step :
      (start leases : HashMap ChunkLease) (id j : ℕ) (lease l : ChunkLease)
      → Renewed (get j start) (get j leases)
      → get id leases ≡ some lease
      → refresh lease h h.new_expires_at ≡ ok l
      → Renewed (get j start) (get j (insert id l leases))
  renew_step start leases id j lease l a e f = elim (Bool-cases (id == j)) [
    | inr other ↦
        let reads : get j (insert id l leases) ≡ get j leases =
          ground (arith, other, get-insert id j l leases) in
        rw reads a
    | inl here ↦
        let equal : id ≡ j = ground (arith, here) in
        let reads : get j (insert id l leases) ≡ some l =
          ground (arith, here, get-insert id j l leases) in
        let there : get j leases ≡ some lease = rw (sym equal) e in
        let (permits, follows) = refresh_ok lease l h h.new_expires_at f in
        rw reads (
          Allowed-step h h.new_expires_at (is_some (get j start)) (get j start) (get j leases) l a
            (was_there (get j start) lease (get j leases) there a)
            (subst (Permits h) (sym there) permits) follows)
  ]

  renew_chunks-Renewed :
      (start leases : HashMap ChunkLease) (ids : List ℕ)
      → ((j : ℕ) → Renewed (get j start) (get j leases))
      → (j : ℕ) → Renewed (get j start) (get j (renew_chunks h leases ids).0)
  unfolding renew_chunks
  renew_chunks-Renewed start leases [] a j = a j
  renew_chunks-Renewed start leases (id ∷ ids) a j = elim (Option-cases (get id leases)) [
    | inl e ↦ rw (renew_absent leases id ids e) (renew_chunks-Renewed start leases ids a j)
    | inr (lease, e) ↦ elim (Outcome-cases (refresh lease h h.new_expires_at)) [
      | inr (x, f) ↦ rw (renew_fails leases id ids lease x e f) (a j)
      | inl (l, f) ↦ rw (renew_goes_on leases id ids lease l e f) (
          renew_chunks-Renewed start (insert id l leases) ids
            (λ i. renew_step start leases id i lease l (a i) e f) j)
    ]
  ]

module _ (c : Crypto) where
  left_alone :
      (m : LeaseManager) (h : Heartbeat) (now : ℕ)
      → (verify_signature c h ≡ false) ⊎ ((t : ℕ) × (get h.nonce m.seen_nonces ≡ some t))
      → (process_heartbeat c m h now).0.leases ≡ m.leases
  unfolding process_heartbeat
  left_alone m h now (inl e) = rw e refl
  left_alone m h now (inr (t, e)) = ground (arith, e)

  loop_runs :
      (m : LeaseManager) (h : Heartbeat) (now : ℕ)
      → verify_signature c h ≡ true
      → get h.nonce m.seen_nonces ≡ none
      → (process_heartbeat c m h now).0.leases ≡ (renew_chunks h m.leases h.chunk_ids).0
  unfolding process_heartbeat
  loop_runs m h now e f = ground (arith, e, f)

  -- However `process_heartbeat` ends, the lease of every chunk is as before, or: there was one before,
  -- with the heartbeat's token and its owner's key or none, and the one that is there now has that token
  -- and key and ends when the heartbeat says. No lease is made and none is lost.
  pub process_heartbeat_renews :
      (m : LeaseManager) (h : Heartbeat) (now id : ℕ)
      → let after = get id (process_heartbeat c m h now).0.leases in
        (after ≡ get id m.leases)
        ⊎ ((is_some (get id m.leases) ≡ true)
            × Permits h (get id m.leases)
            × Follows h h.new_expires_at after)
  process_heartbeat_renews m h now id = elim (Bool-cases (verify_signature c h)) [
    | inr forged ↦ inl (ap (get id) (left_alone m h now (inl forged)))
    | inl signed ↦ elim (Option-cases (get h.nonce m.seen_nonces)) [
      | inr seen ↦ inl (ap (get id) (left_alone m h now (inr seen)))
      | inl unseen ↦
          rw (loop_runs m h now signed unseen)
            (renew_chunks-Renewed h m.leases m.leases h.chunk_ids (λ j. inl refl) id)
    ]
  ]
