-- ===== src/Storage/Verification/Possession.antt =====
-- A node that holds a chunk answers every challenge for it.
use static.Common.{
  ℕ, zero, suc, ◌+◌, ◌*◌, ◌-◌, ◌≤◌, ◌<◌, ◌≡◌, refl, sym, ap, ◌∙◌, true, false, none, some, List, [],
  ◌∷◌, map, length, take, drop, leb, if◌then◌else◌, min, arith, get_elem?, length-drop, drop-drop,
  Bool-cases, inl, inr, ==_refl,
}
use static.HashMap.{get}
use static.Storage.Crypto.{Crypto}
use static.Storage.Holder.{ChunkHolder}
use static.Storage.Verification.{
  segment_size, segments, segment_of, compute_segment_hashes, verify_segment_response,
  handle_verification_challenge, VerificationChallenge,
}

take-min : (n m : ℕ) (bytes : List ℕ) → m ≡ min n (length bytes) → take m bytes ≡ take n bytes
unfolding take
take-min zero zero bytes e = refl
take-min zero (suc m) bytes e = absurd (omega arith)
take-min (suc n) zero [] e = refl
take-min (suc n) (suc m) [] e = refl
take-min (suc n) zero (b ∷ bytes) e = absurd (omega arith)
take-min (suc n) (suc m) (b ∷ bytes) e = ap (◌∷◌ b) (take-min n m bytes (omega arith))

-- The segment of an index, as a slice of fixed length.
segment_of-slice :
    (index : ℕ) (bytes : List ℕ)
    → segment_of index (some bytes) ≡ (
        if leb (length bytes) (index * segment_size)
        then none
        else some (take segment_size (drop (index * segment_size) bytes)))
segment_of-slice index bytes = elim (Bool-cases (leb (length bytes) (index * segment_size))) [
  | inl out ↦ rw out refl
  | inr within ↦
      let rest = drop (index * segment_size) bytes in
      let size = length-drop (index * segment_size) bytes in
      let count = min (index * segment_size + segment_size) (length bytes) - index * segment_size in
      let long : index * segment_size < length bytes = ground (arith, within) in
      rw (within, take-min segment_size count rest (omega (arith, size, long))) refl
]

none_of : (index : ℕ) → segment_of index (some []) ≡ none
none_of index = ground arith

drop_zero : (bytes : List ℕ) → drop 0 bytes ≡ bytes
unfolding drop
drop_zero bytes = refl

-- The next segment is that of the rest.
segment_of-drop :
    (index : ℕ) (bytes : List ℕ)
    → segment_of index (some (drop segment_size bytes)) ≡ segment_of (suc index) (some bytes)
segment_of-drop index bytes =
    let size = length-drop segment_size bytes in
    let start =
      drop-drop (index * segment_size) segment_size (suc index * segment_size) bytes
        (omega arith) in
    segment_of-slice index (drop segment_size bytes)
    ∙ (rw start (ground (arith, size)) ∙ sym (segment_of-slice (suc index) bytes))

-- The slices that the publisher hashes are the segments that a holder returns, and none is missing.
pub get_elem?-segments :
    (fuel index : ℕ) (bytes : List ℕ)
    → length bytes ≤ fuel
    → get_elem? (segments fuel bytes) index ≡ segment_of index (some bytes)
unfolding segments
get_elem?-segments zero index [] h = sym (none_of index)
get_elem?-segments zero index (b ∷ bytes) h = absurd (omega arith)
get_elem?-segments (suc fuel) index [] h = sym (none_of index)
get_elem?-segments (suc fuel) zero (b ∷ bytes) h =
    sym (segment_of-slice zero (b ∷ bytes) ∙ rw (drop_zero (b ∷ bytes)) (ground arith))
get_elem?-segments (suc fuel) (suc index) (b ∷ bytes) h =
    let size = length-drop segment_size (b ∷ bytes) in
    get_elem?-segments fuel index (drop segment_size (b ∷ bytes)) (omega arith)
    ∙ segment_of-drop index (b ∷ bytes)

get_elem?-map :
    {A B : Type 0} (f : A → B) (xs : List A) (i : ℕ) (y : B)
    → get_elem? (map f xs) i ≡ some y
    → (x : A) × (get_elem? xs i ≡ some x) × (f x ≡ y)
get_elem?-map f [] i y e = absurd (ground arith)
get_elem?-map f (x ∷ xs) zero y e = (x, refl, ground arith)
get_elem?-map f (x ∷ xs) (suc i) y e = get_elem?-map f xs i y e

-- A segment whose digest was published is what the holder of the chunk answers with.
published_segment :
    (c : Crypto) (index expected : ℕ) (bytes : List ℕ)
    → get_elem? (map c.hash (segments (length bytes) bytes)) index ≡ some expected
    → (segment : List ℕ) × (segment_of index (some bytes) ≡ some segment)
      × (c.hash segment ≡ expected)
published_segment c index expected bytes e =
    let (segment, found, digest) =
      get_elem?-map c.hash (segments (length bytes) bytes) index expected e in
    (segment, sym (get_elem?-segments (length bytes) index bytes (omega arith)) ∙ found, digest)

-- A node that holds a chunk of the content passes every challenge for a segment of it whose hash the
-- publisher computed; a node that does not hold the chunk passes none.
pub holder_passes :
    (c : Crypto) (holder stranger : ChunkHolder) (challenge : VerificationChallenge)
    → (chunks : List (List ℕ)) (number expected : ℕ) (bytes hashes : List ℕ)
    → get_elem? chunks number ≡ some bytes
    → get_elem? (compute_segment_hashes c chunks) number ≡ some hashes
    → get_elem? hashes challenge.segment_index ≡ some expected
    → get challenge.chunk_id holder.chunks ≡ some bytes
    → get challenge.chunk_id stranger.chunks ≡ none
    → (verify_segment_response c (handle_verification_challenge holder challenge) expected ≡ true)
      × (verify_segment_response c (handle_verification_challenge stranger challenge) expected
          ≡ false)
unfolding compute_segment_hashes verify_segment_response handle_verification_challenge
holder_passes c holder stranger challenge chunks number expected bytes hashes chunk published hash
      held missing =
    let (other, found, computed) =
      get_elem?-map (λ b. map c.hash (segments (length b) b)) chunks number hashes published in
    let same : other ≡ bytes = ground (arith, found, chunk) in
    let (segment, answered, digest) =
      published_segment c challenge.segment_index expected bytes (rw (sym same, computed) hash) in
    (rw (held, answered, digest) (==_refl expected), rw missing refl)
