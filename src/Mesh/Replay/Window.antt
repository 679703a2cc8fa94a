-- ===== src/Mesh/Replay/Window.antt =====
-- How long an accepted nonce is remembered while other nonces are checked.
use static.Common.{
  ℕ, suc, ◌+◌, ◌-◌, ◌≤◌, ◌<◌, ◌≡◌, refl, inl, inr, Bool, true, false, some, List, [], ◌∷◌, arith,
  length, leb, if◌then◌else◌, All, Bool-cases, Option-cases,
}
use static.HashMap.{HashMap, get, insert, retain, Distinct}
use static.HashMap.Laws.{get-insert, get-remove, get-retain}
use static.HashMap.Sums.{sum_of, sum_of-remove-le, sum_of-insert-le}
use static.Mesh.Replay.{
  handshake_nonce_ttl_secs, max_handshake_nonces, oldest, prune, evict_oldest, oldest-some,
  check_nonce, IsValid, prune-IsValid, check_nonce-IsValid,
}

-- The number of nonces that were checked at a time or later.
unfoldable pub count_since : ℕ → HashMap ℕ → ℕ
count_since t = sum_of (λ u. if leb t u then 1 else 0)

-- One check after another, each a time and a nonce.
unfoldable pub check_each : HashMap ℕ → List (ℕ × ℕ) → HashMap ℕ
check_each cache [] = cache
check_each cache ((now, nonce) ∷ checks) = check_each (check_nonce cache now nonce).0 checks

count_since-retain-le :
    (t : ℕ) (p : ℕ → ℕ → Bool) (m : HashMap ℕ) → count_since t (retain p m) ≤ count_since t m
unfolding count_since sum_of retain
count_since-retain-le t p [] = omega arith
count_since-retain-le t p ((k, u) ∷ m) = ground (arith, count_since-retain-le t p m)

count_since-evict_oldest-le :
    (t : ℕ) (m : HashMap ℕ) → count_since t (evict_oldest m) ≤ count_since t m
unfolding evict_oldest count_since
count_since-evict_oldest-le t m = elim (Bool-cases (leb max_handshake_nonces (length m))) [
  | inr room ↦ rw room (omega arith)
  | inl full ↦ elim (Option-cases (oldest m)) [
    | inl e ↦ rw (full, e) (omega arith)
    | inr ((k, u), e) ↦ rw (full, e) (sum_of-remove-le (λ u. if leb t u then 1 else 0) k m)
  ]
]

-- Where the oldest entry is of a time or later, all entries are.
count_since-oldest :
    (t k u : ℕ) (m : HashMap ℕ) → oldest m ≡ some (k, u) → t ≤ u → count_since t m ≡ length m
unfolding count_since sum_of oldest
count_since-oldest t k u [] e h = refl
count_since-oldest t k u ((j, w) ∷ []) e h = ground (arith, e, h)
count_since-oldest t k u ((j, w) ∷ x ∷ m) e h =
    let (i, v, e', _) = oldest-some (x ∷ m) (omega arith) in
    ground (arith, rw e' at e, h, count_since-oldest t i v (x ∷ m) e')

-- The oldest entry stands in the map.
get-oldest : (k u : ℕ) (m : HashMap ℕ) → Distinct m → oldest m ≡ some (k, u) → get k m ≡ some u
unfolding oldest get
get-oldest k u [] d e = absurd (ground arith)
get-oldest k u ((j, w) ∷ []) d e = ground (arith, e)
get-oldest k u ((j, w) ∷ x ∷ m) d e =
    let (i, v, e', _) = oldest-some (x ∷ m) (omega arith) in
    ground (arith, rw e' at e, d.0, get-oldest i v (x ∷ m) d.1 e')

-- A nonce of time `t` is not evicted while fewer than the bound are as young.
evict_oldest-keeps :
    (t nonce : ℕ) (m : HashMap ℕ)
    → Distinct m
    → get nonce m ≡ some t
    → count_since t m < max_handshake_nonces
    → get nonce (evict_oldest m) ≡ some t
unfolding evict_oldest
evict_oldest-keeps t nonce m d e few = elim (Bool-cases (leb max_handshake_nonces (length m))) [
  | inr room ↦ rw room e
  | inl full ↦ elim (Option-cases (oldest m)) [
    | inl o ↦ rw (full, o) e
    | inr ((k, u), o) ↦
        rw (full, o)
          (ground (
            arith,
            e,
            few,
            full,
            get-remove k nonce m,
            get-oldest k u m d o,
            count_since-oldest t k u m o,
          ))
  ]
]

get-prune :
    (t nonce now : ℕ) (m : HashMap ℕ)
    → IsValid m
    → get nonce m ≡ some t
    → now ≤ t + handshake_nonce_ttl_secs
    → get nonce (prune m now) ≡ some t
unfolding prune
get-prune t nonce now m v e soon =
    let p : ℕ → ℕ → Bool = λ _ ts. leb (now - ts) handshake_nonce_ttl_secs in
    let fresh : leb (now - t) handshake_nonce_ttl_secs ≡ true = ground (arith, soon) in
    rw (get-retain p nonce m v.distinct, e, fresh) refl

count_since-prune-le : (t now : ℕ) (m : HashMap ℕ) → count_since t (prune m now) ≤ count_since t m
unfolding prune
count_since-prune-le t now m =
    count_since-retain-le t (λ _ ts. leb (now - ts) handshake_nonce_ttl_secs) m

count_since-insert-le :
    (t k now : ℕ) (m : HashMap ℕ) → count_since t (insert k now m) ≤ suc (count_since t m)
unfolding count_since
count_since-insert-le t k now m =
    ground (arith, sum_of-insert-le (λ u. if leb t u then 1 else 0) k now m)

-- One check keeps a nonce that is at most five minutes old, while it is not the last of the bound, and
-- adds at most one young nonce.
check_nonce-keeps :
    (t nonce now other : ℕ) (m : HashMap ℕ)
    → IsValid m
    → get nonce m ≡ some t
    → now ≤ t + handshake_nonce_ttl_secs
    → count_since t m < max_handshake_nonces
    → (get nonce (check_nonce m now other).0 ≡ some t)
      × (count_since t (check_nonce m now other).0 ≤ suc (count_since t m))
unfolding check_nonce
check_nonce-keeps t nonce now other m v e soon few =
    let recent = prune m now in
    let valid = prune-IsValid m now v in
    let fewer = count_since-prune-le t now m in
    let kept = get-prune t nonce now m v e soon in
    let stays = evict_oldest-keeps t nonce recent valid.distinct kept (omega arith) in
    let evicted = count_since-evict_oldest-le t recent in
    let inserted = count_since-insert-le t other now (evict_oldest recent) in
    elim (Option-cases (get other recent)) [
      | inl unseen ↦ rw unseen (
        ground (arith, get-insert other nonce now (evict_oldest recent), stays, unseen, kept),
        omega arith,
      )
      | inr (when, seen) ↦ rw seen (kept, omega arith)
    ]

check_each-keeps :
    (t nonce : ℕ) (checks : List (ℕ × ℕ)) (m : HashMap ℕ)
    → IsValid m
    → get nonce m ≡ some t
    → All (λ e. e.0 ≤ t + handshake_nonce_ttl_secs) checks
    → count_since t m + length checks ≤ max_handshake_nonces
    → (get nonce (check_each m checks) ≡ some t) × IsValid (check_each m checks)
unfolding check_each
check_each-keeps t nonce [] m v e soon few = (e, v)
check_each-keeps t nonce ((now, other) ∷ checks) m v e soon few =
    let (kept, counted) = check_nonce-keeps t nonce now other m v e soon.0 (omega (arith, few)) in
    check_each-keeps t nonce checks (check_nonce m now other).0 (check_nonce-IsValid m now other v)
      kept soon.1 (omega (arith, few, counted))

-- What an accepting check leaves.
recorded_nonce :
    (cache : HashMap ℕ) (now nonce : ℕ)
    → (check_nonce cache now nonce).1 ≡ true
    → (get nonce (check_nonce cache now nonce).0 ≡ some now)
      × (count_since now (check_nonce cache now nonce).0 ≤ suc (count_since now cache))
unfolding check_nonce
recorded_nonce cache now nonce fresh =
    let recent = prune cache now in
    let fewer = count_since-prune-le now now cache in
    let evicted = count_since-evict_oldest-le now recent in
    let inserted = count_since-insert-le now nonce now (evict_oldest recent) in
    elim (Option-cases (get nonce recent)) [
      | inl unseen ↦
          rw unseen (ground (arith, get-insert nonce nonce now (evict_oldest recent)), omega arith)
      | inr (when, seen) ↦ absurd (ground (arith, rw seen at fresh))
    ]

refused :
    (m : HashMap ℕ) (t later nonce : ℕ)
    → IsValid m
    → get nonce m ≡ some t
    → later ≤ t + handshake_nonce_ttl_secs
    → (check_nonce m later nonce).1 ≡ false
unfolding check_nonce
refused m t later nonce v e soon = rw (get-prune t nonce later m v e soon) refl

-- A nonce that was accepted is refused within five minutes, whatever checks, of this nonce or of others,
-- come in between: at most five minutes later each, and not so many that they and the nonces that
-- were checked at that time or later already fill the cache of 4096.
pub replay_refused :
    (cache : HashMap ℕ) (now later nonce : ℕ) (checks : List (ℕ × ℕ))
    → IsValid cache
    → (check_nonce cache now nonce).1 ≡ true
    → All (λ e. e.0 ≤ now + handshake_nonce_ttl_secs) checks
    → suc (count_since now cache) + length checks ≤ max_handshake_nonces
    → later ≤ now + handshake_nonce_ttl_secs
    → (check_nonce (check_each (check_nonce cache now nonce).0 checks) later nonce).1 ≡ false
replay_refused cache now later nonce checks v fresh soon few in_time =
    let (found, counted) = recorded_nonce cache now nonce fresh in
    let (kept, valid) =
      check_each-keeps now nonce checks (check_nonce cache now nonce).0
        (check_nonce-IsValid cache now nonce v) found soon (omega (arith, few, counted)) in
    refused (check_each (check_nonce cache now nonce).0 checks) now later nonce valid kept in_time
