-- ===== src/Mesh/Replay.antt =====
-- crates/static-mesh/src/transport.rs: the replay caches of nonces (`check_handshake_nonce` and
-- `check_maintenance_nonce` have one text over two maps). A lock that another thread has poisoned is
-- not modelled. Times are seconds.
pub mod Window
use static.Common.{
  ℕ, ◌+◌, ◌-◌, ◌≤◌, ◌<◌, ◌≡◌, ◌≢◌, refl, inl, inr, Bool, true, false, Option, none, some, [], ◌∷◌,
  arith, length, leb, if◌then◌else◌, Option-cases, Bool-cases,
}
use static.HashMap.{HashMap, get, insert, remove, retain, contains_key, Distinct}
use static.HashMap.Laws.{
  get-insert, get-retain, retain-Distinct, insert-Distinct, remove-Distinct, length-retain-le,
  length-insert-le, length-remove-lt,
}

abbrev pub handshake_nonce_ttl_secs : ℕ
handshake_nonce_ttl_secs = 300

abbrev pub max_handshake_nonces : ℕ
max_handshake_nonces = 4096

-- `iter().min_by_key(|(_, ts)| **ts)`: of equal times the first, as iterated.
unfoldable pub oldest : HashMap ℕ → Option (ℕ × ℕ)
oldest [] = none
oldest ((k, t) ∷ m) = elim (oldest m) [
  | none ↦ some (k, t)
  | some (j, u) ↦ if leb t u then some (k, t) else some (j, u)
]

unfoldable pub prune : HashMap ℕ → ℕ → HashMap ℕ
prune cache now = retain (λ _ ts. leb (now - ts) handshake_nonce_ttl_secs) cache

-- At the bound the oldest entry makes room.
unfoldable pub evict_oldest : HashMap ℕ → HashMap ℕ
evict_oldest cache =
    if leb max_handshake_nonces (length cache)
    then elim (oldest cache) [ none ↦ cache | some (k, _) ↦ remove k cache ]
    else cache

unfoldable pub check_nonce : HashMap ℕ → ℕ → ℕ → HashMap ℕ × Bool
check_nonce cache now nonce =
    let recent = prune cache now in
    if contains_key nonce recent
    then (recent, false)
    else (insert nonce now (evict_oldest recent), true)

pub record IsValid (cache : HashMap ℕ) : Type 0 where
  pub distinct : Distinct cache
  pub bounded : length cache ≤ max_handshake_nonces

-- The oldest entry of a map that has entries is in the map.
pub oldest-some :
    (m : HashMap ℕ) → 0 < length m → (k : ℕ) × (t : ℕ) × (oldest m ≡ some (k, t)) × (get k m ≢ none)
unfolding oldest get
oldest-some [] h = absurd (omega arith)
oldest-some ((k, t) ∷ []) h = (k, t, refl, ground arith)
oldest-some ((k, t) ∷ (j, u) ∷ m) h = choose (oldest-some ((j, u) ∷ m) (omega arith))
  where
    choose :
        (i : ℕ) × (w : ℕ) × (oldest ((j, u) ∷ m) ≡ some (i, w)) × (get i ((j, u) ∷ m) ≢ none)
        → (i : ℕ) × (w : ℕ) × (oldest ((k, t) ∷ (j, u) ∷ m) ≡ some (i, w))
          × (get i ((k, t) ∷ (j, u) ∷ m) ≢ none)
    choose (i, w, e, p) = elim (Bool-cases (leb t w)) [
      | inl first ↦ (k, t, ground (arith, e, first), ground arith)
      | inr later ↦ (i, w, ground (arith, e, later), ground (arith, p))
    ]

pub evict_oldest-IsValid :
    (cache : HashMap ℕ)
    → IsValid cache
    → Distinct (evict_oldest cache) × (length (evict_oldest cache) < max_handshake_nonces)
unfolding evict_oldest
evict_oldest-IsValid cache v = elim (Bool-cases (leb max_handshake_nonces (length cache))) [
  | inl full ↦
      let (k, t, e, p) = oldest-some cache (ground arith) in
      elim (Option-cases (get k cache)) [
        | inl missing ↦ absurd (p missing)
        | inr (u, found) ↦
            rw (full, e)
              (
                remove-Distinct k cache v.distinct,
                omega (arith, v.bounded, length-remove-lt k u cache found),
              )
      ]
  | inr room ↦ rw room (v.distinct, ground arith)
]

pub prune-IsValid : (cache : HashMap ℕ) (now : ℕ) → IsValid cache → IsValid (prune cache now)
unfolding prune
prune-IsValid cache now v = record {
  distinct = retain-Distinct (λ _ ts. leb (now - ts) handshake_nonce_ttl_secs) cache v.distinct;
  bounded =
      omega (
        arith,
        v.bounded,
        length-retain-le (λ _ ts. leb (now - ts) handshake_nonce_ttl_secs) cache,
      );
}

-- The cache stays within its bound and holds each nonce once.
pub check_nonce-IsValid :
    (cache : HashMap ℕ) (now nonce : ℕ) → IsValid cache → IsValid (check_nonce cache now nonce).0
unfolding check_nonce
check_nonce-IsValid cache now nonce v = ground (
  arith,
  prune-IsValid cache now v,
  evict_oldest-IsValid (prune cache now) (prune-IsValid cache now v),
  insert-Distinct nonce now (evict_oldest (prune cache now)),
  length-insert-le nonce now (evict_oldest (prune cache now)),
)
