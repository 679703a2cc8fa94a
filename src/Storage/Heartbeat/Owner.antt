-- ===== src/Storage/Heartbeat/Owner.antt =====
-- Which leases a heartbeat can change, and how.
use static.Common.{
  ℕ, ◌≡◌, refl, inl, inr, Bool, true, false, Option, none, some, List, [], ◌∷◌, arith, min, ◌==◌,
  Bool-cases, Option-cases, ◌⊎◌, subst, saturating_add64,
}
use static.HashMap.{HashMap, get, insert}
use static.HashMap.Laws.{get-insert}
use static.Storage.Crypto.{Crypto}
use static.Storage.Lease.{ChunkLease}
use static.Storage.Heartbeat.{
  Heartbeat, LeaseManager, Outcome, ok, err, HeartbeatError, match_lease_content_key, refresh,
  upsert, upsert_chunks, first_lease, verify_signature, process_heartbeat_upsert,
  default_lease_duration_secs,
}

-- The lease before, if there was one, has the token of the heartbeat, and its owner or none.
abbrev pub Permits : Heartbeat → Option ChunkLease → Type 0
Permits h none = Unit {0}
Permits h (some l) =
    (l.renewal_token ≡ h.renewal_token)
    × ((l.content_pub_key ≡ 0) ⊎ (l.content_pub_key ≡ h.content_pub_key))

-- The lease after has the token and the owner of the heartbeat, and ends when it should.
abbrev pub Follows : Heartbeat → ℕ → Option ChunkLease → Type 0
Follows h expires_at none = ⊥
Follows h expires_at (some l) =
    (l.renewal_token ≡ h.renewal_token)
    × (l.content_pub_key ≡ h.content_pub_key)
    × (l.expires_at ≡ expires_at)

-- A chunk's lease is as before, or the chunk is held and the change is one that the heartbeat may make.
abbrev pub Allowed : Heartbeat → ℕ → Bool → Option ChunkLease → Option ChunkLease → Type 0
Allowed h expires_at held before after =
    (after ≡ before) ⊎ ((held ≡ true) × (Permits h before) × (Follows h expires_at after))

pub refresh_ok :
    (lease l : ChunkLease) (h : Heartbeat) (expires_at : ℕ)
    → refresh lease h expires_at ≡ ok l
    → Permits h (some lease) × Follows h expires_at (some l)
unfolding refresh match_lease_content_key
refresh_ok lease l h expires_at e = ground (arith, e)

pub Outcome-cases {ℓ} :
    {A : Type ℓ} (o : Outcome A) → ((a : A) × (o ≡ ok a)) ⊎ ((x : HeartbeatError) × (o ≡ err x))
Outcome-cases (ok a) = inl (a, refl)
Outcome-cases (err x) = inr (x, refl)

module _ (h : Heartbeat) (expires_at : ℕ) where
  -- One chunk of the loop: an error changes nothing, and otherwise only that chunk's lease changes.
  Changes : HashMap ChunkLease → ℕ → HashMap ChunkLease → Type 0
  Changes leases id next =
      (l : ChunkLease) × (next ≡ insert id l leases)
      × (Permits h (get id leases))
      × (Follows h expires_at (some l))

  upsert-absent :
      (leases next : HashMap ChunkLease) (id : ℕ)
      → get id leases ≡ none
      → upsert h expires_at leases id ≡ ok next
      → next ≡ insert id (first_lease id h expires_at) leases
  unfolding upsert
  upsert-absent leases next id a e = ground (arith, a, e)

  upsert-present :
      (leases next : HashMap ChunkLease) (id : ℕ) (lease : ChunkLease)
      → get id leases ≡ some lease
      → upsert h expires_at leases id ≡ ok next
      → (l : ChunkLease) × (refresh lease h expires_at ≡ ok l) × (next ≡ insert id l leases)
  unfolding upsert
  upsert-present leases next id lease a e = elim (Outcome-cases (refresh lease h expires_at)) [
    | inl (l, r) ↦ (l, r, ground (arith, a, e, r))
    | inr (x, r) ↦ absurd (ground (arith, a, e, r))
  ]

  upsert-Changes :
      (leases next : HashMap ChunkLease) (id : ℕ)
      → upsert h expires_at leases id ≡ ok next
      → Changes leases id next
  unfolding Changes
  upsert-Changes leases next id e = elim (Option-cases (get id leases)) [
    | inl a ↦
        (first_lease id h expires_at, upsert-absent leases next id a e, rw a tt, (refl, refl, refl))
    | inr (lease, a) ↦
        let (l, r, same) = upsert-present leases next id lease a e in
        let (permits, follows) = refresh_ok lease l h expires_at r in
        (l, same, rw a permits, follows)
  ]

  -- A change that follows on an allowed one is allowed.
  pub Allowed-step :
      (held : Bool) (before now : Option ChunkLease) (l : ChunkLease)
      → Allowed h expires_at held before now
      → held ≡ true
      → Permits h now
      → Follows h expires_at (some l)
      → Allowed h expires_at held before (some l)
  Allowed-step held before now l (inl same) is_held p f = inr (is_held, subst (Permits h) same p, f)
  Allowed-step held before now l (inr (is_held, q, g)) _ p f = inr (is_held, q, f)

  skips :
      (held : ℕ → Bool) (leases : HashMap ChunkLease) (id : ℕ) (ids : List ℕ)
      → held id ≡ false
      → (upsert_chunks h expires_at held leases (id ∷ ids)).0
        ≡ (upsert_chunks h expires_at held leases ids).0
  unfolding upsert_chunks
  skips held leases id ids e = ground (arith, e)

  fails :
      (held : ℕ → Bool) (leases : HashMap ChunkLease) (id : ℕ) (ids : List ℕ) (x : HeartbeatError)
      → held id ≡ true
      → upsert h expires_at leases id ≡ err x
      → (upsert_chunks h expires_at held leases (id ∷ ids)).0 ≡ leases
  unfolding upsert_chunks
  fails held leases id ids x e f = ground (arith, e, f)

  goes_on :
      (held : ℕ → Bool) (leases next : HashMap ChunkLease) (id : ℕ) (ids : List ℕ)
      → held id ≡ true
      → upsert h expires_at leases id ≡ ok next
      → (upsert_chunks h expires_at held leases (id ∷ ids)).0
        ≡ (upsert_chunks h expires_at held next ids).0
  unfolding upsert_chunks
  goes_on held leases next id ids e f = ground (arith, e, f)

  one_step :
      (held : ℕ → Bool) (start leases next : HashMap ChunkLease) (id i : ℕ)
      → Allowed h expires_at (held i) (get i start) (get i leases)
      → Changes leases id next
      → held id ≡ true
      → Allowed h expires_at (held i) (get i start) (get i next)
  unfolding Changes
  one_step held start leases next id i a (l, same, permits, follows) is_held =
      elim (Bool-cases (id == i)) [
        | inl here ↦
            let equal : id ≡ i = ground (arith, here) in
            let reads : get i next ≡ some l =
              ground (arith, same, here, get-insert id i l leases) in
            rw reads (
              Allowed-step (held i) (get i start) (get i leases) l a
                (subst (λ k. held k ≡ true) equal is_held)
                (subst (λ k. Permits h (get k leases)) equal permits) follows)
        | inr other ↦
            let reads : get i next ≡ get i leases =
              ground (arith, same, other, get-insert id i l leases) in
            rw reads a
      ]

  upsert_chunks-Allowed :
      (held : ℕ → Bool) (start leases : HashMap ChunkLease) (ids : List ℕ)
      → ((j : ℕ) → Allowed h expires_at (held j) (get j start) (get j leases))
      → (j : ℕ)
      → Allowed h expires_at
          (held j)
          (get j start)
          (get j (upsert_chunks h expires_at held leases ids).0)
  unfolding upsert_chunks
  upsert_chunks-Allowed held start leases [] a j = a j
  upsert_chunks-Allowed held start leases (id ∷ ids) a j = elim (Bool-cases (held id)) [
    | inr skip ↦
        rw (skips held leases id ids skip) (upsert_chunks-Allowed held start leases ids a j)
    | inl is_held ↦ elim (Outcome-cases (upsert h expires_at leases id)) [
      | inr (x, e) ↦ rw (fails held leases id ids x is_held e) (a j)
      | inl (next, e) ↦ rw (goes_on held leases next id ids is_held e) (
          upsert_chunks-Allowed held start next ids
            (λ i.
              one_step held start leases next id i (a i) (upsert-Changes leases next id e) is_held)
            j)
    ]
  ]

module _ (c : Crypto) where
  -- Where a heartbeat's leases end: at the time it names, but not beyond a day from now.
  abbrev pub capped : Heartbeat → ℕ → ℕ
  capped h now = min h.new_expires_at (saturating_add64 now default_lease_duration_secs)

  refused :
      (m : LeaseManager) (h : Heartbeat) (now : ℕ) (held : ℕ → Bool) (id : ℕ)
      → verify_signature c h ≡ false
      → get id (process_heartbeat_upsert c m h now held).0.leases ≡ get id m.leases
  unfolding process_heartbeat_upsert
  refused m h now held id e = rw e refl

  replayed :
      (m : LeaseManager) (h : Heartbeat) (now : ℕ) (held : ℕ → Bool) (id t : ℕ)
      → get h.nonce m.seen_nonces ≡ some t
      → get id (process_heartbeat_upsert c m h now held).0.leases ≡ get id m.leases
  unfolding process_heartbeat_upsert
  replayed m h now held id t e = ground (arith, e)

  processed :
      (m : LeaseManager) (h : Heartbeat) (now : ℕ) (held : ℕ → Bool)
      → verify_signature c h ≡ true
      → get h.nonce m.seen_nonces ≡ none
      → (process_heartbeat_upsert c m h now held).0.leases
        ≡ (upsert_chunks h (capped h now) held m.leases h.chunk_ids).0
  unfolding process_heartbeat_upsert
  processed m h now held e f = ground (arith, e, f)

  -- Whatever a heartbeat says, and whether it is processed to the end, refused or stopped half-way, the
  -- lease of every chunk is as before, or: the heartbeat's signature verifies, the node holds the chunk,
  -- a lease that was there had the heartbeat's token and its owner's key or none, and the lease that is
  -- there now has that token and key and ends at the named time or a day from now, whichever is earlier.
  pub only_owner_renews :
      (m : LeaseManager) (h : Heartbeat) (now : ℕ) (held : ℕ → Bool) (id : ℕ)
      → let after = get id (process_heartbeat_upsert c m h now held).0.leases in
        (after ≡ get id m.leases)
        ⊎ ((verify_signature c h ≡ true)
            × (held id ≡ true)
            × Permits h (get id m.leases)
            × Follows h (capped h now) after)
  only_owner_renews m h now held id = elim (Bool-cases (verify_signature c h)) [
    | inr forged ↦ inl (refused m h now held id forged)
    | inl signed ↦ elim (Option-cases (get h.nonce m.seen_nonces)) [
      | inr (t, seen) ↦ inl (replayed m h now held id t seen)
      | inl unseen ↦ rw (processed m h now held signed unseen) (
          with_signature
            (upsert_chunks-Allowed h (capped h now) held m.leases m.leases h.chunk_ids
              (λ j. inl refl) id)
            signed)
    ]
  ]
    where
      with_signature :
          {after : Option ChunkLease}
          → Allowed h (capped h now) (held id) (get id m.leases) after
          → verify_signature c h ≡ true
          → (after ≡ get id m.leases)
            ⊎ ((verify_signature c h ≡ true)
                × (held id ≡ true)
                × Permits h (get id m.leases)
                × Follows h (capped h now) after)
      with_signature (inl same) signed = inl same
      with_signature (inr (is_held, p, f)) signed = inr (signed, is_held, p, f)
