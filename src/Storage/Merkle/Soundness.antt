-- ===== src/Storage/Merkle/Soundness.antt =====
-- Every proof that `generate_proofs` makes passes `verify_chunk`, whatever the hash function is.
use static.Common.{
  ℕ, zero, suc, ◌+◌, ◌/◌, ◌%◌, ◌≤◌, ◌<◌, ◌≡◌, refl, sym, ◌∙◌, ap, inl, inr, true, false, some, List,
  [], ◌∷◌, ◌++◌, map, length, arith, ltb, ◌==◌, ==_refl, if◌then◌else◌, Bool-cases, get_elem?,
  length-append,
}
use static.Storage.Crypto.{Crypto}
use static.Storage.Merkle.{
  MerkleProof, get_or, last, pad_level, sibling_index, leaf_hash, node_hash, hash_pairs, root_loop,
  compute_root, build_levels, sibling_path, proofs_from, generate_proofs, walk, verify_chunk,
}

get_or-append : (xs ys : List ℕ) (i : ℕ) → i < length xs → get_or (xs ++ ys) i 0 ≡ get_or xs i 0
get_or-append [] ys i h = absurd (omega arith)
get_or-append (x ∷ xs) ys zero h = refl
get_or-append (x ∷ xs) ys (suc i) h = get_or-append xs ys i (omega arith)

length-pad_level :
    (level : List ℕ)
    → (length (pad_level level) % 2 ≡ 0)
      × (length level ≤ length (pad_level level))
      × (length (pad_level level) ≤ suc (length level))
unfolding pad_level
length-pad_level level = elim (Bool-cases (length level % 2 == 1)) [
  | inl odd ↦ let l = length-append level (last level ∷ []) in rw odd (ground (arith, l, odd))
  | inr even ↦ rw even (ground (arith, even))
]

get_or-pad_level :
    (level : List ℕ) (i : ℕ) → i < length level → get_or (pad_level level) i 0 ≡ get_or level i 0
unfolding pad_level
get_or-pad_level level i h = elim (Bool-cases (length level % 2 == 1)) [
  | inl odd ↦ rw odd (get_or-append level (last level ∷ []) i h)
  | inr even ↦ rw even refl
]

sibling_index-two : (i : ℕ) → sibling_index (suc (suc i)) ≡ suc (suc (sibling_index i))
sibling_index-two i = ground arith

module _ (c : Crypto) where
  -- The parent of two siblings, the one at `i` given.
  abbrev parent : List ℕ → ℕ → ℕ
  parent level i =
      if i % 2 == 0
      then node_hash c (get_or level i 0) (get_or level (sibling_index i) 0)
      else node_hash c (get_or level (sibling_index i) 0) (get_or level i 0)

  parent-two :
      (x y : ℕ) (level : List ℕ) (i : ℕ) → parent (x ∷ y ∷ level) (suc (suc i)) ≡ parent level i
  parent-two x y level i =
      let same : suc (suc i) % 2 ≡ i % 2 = omega arith in rw (sibling_index-two i, same) refl

  get_or-hash_pairs :
      (level : List ℕ) (i : ℕ)
      → length level % 2 ≡ 0
      → i < length level
      → get_or (hash_pairs c level) (i / 2) 0 ≡ parent level i
  unfolding hash_pairs
  get_or-hash_pairs [] i even h = absurd (omega arith)
  get_or-hash_pairs (x ∷ []) i even h = absurd (omega arith)
  get_or-hash_pairs (x ∷ y ∷ level) zero even h = refl
  get_or-hash_pairs (x ∷ y ∷ level) (suc zero) even h = refl
  get_or-hash_pairs (x ∷ y ∷ level) (suc (suc i)) even h =
      let half : suc (suc i) / 2 ≡ suc (i / 2) = omega arith in
      rw (half, parent-two x y level i) (get_or-hash_pairs level i (omega arith) (omega arith))

  length-hash_pairs : (level : List ℕ) → length (hash_pairs c level) ≡ length level / 2
  unfolding hash_pairs
  length-hash_pairs [] = omega arith
  length-hash_pairs (x ∷ []) = omega arith
  length-hash_pairs (x ∷ y ∷ level) = omega (arith, length-hash_pairs level)

  -- The next level up, which is shorter.
  abbrev above : List ℕ → List ℕ
  above level = hash_pairs c (pad_level level)

  length-above :
      (level : List ℕ)
      → 1 < length level
      → (length (above level) < length level)
        × ((i : ℕ) → i < length level → i / 2 < length (above level))
  length-above level h =
      let (even, low, high) = length-pad_level level in
      let half = length-hash_pairs (pad_level level) in (omega arith, λ i l. omega (arith, l))

  walk_none : (h : ℕ) → walk c h 0 [] ≡ h
  unfolding walk
  walk_none h = refl

  walk-step :
      (level : List ℕ) (i : ℕ) (siblings : List ℕ)
      → i < length level
      → walk c (get_or level i 0) i (get_or (pad_level level) (sibling_index i) 0 ∷ siblings)
        ≡ walk c (get_or (above level) (i / 2) 0) (i / 2) siblings
  unfolding walk
  walk-step level i siblings h =
      let (even, low, high) = length-pad_level level in
      ap (λ (t : ℕ). walk c t (i / 2) siblings)
        (rw (sym (get_or-pad_level level i h))
          (sym (get_or-hash_pairs (pad_level level) i even (omega arith))))

  build_levels_more :
      (fuel : ℕ) (level : List ℕ)
      → ltb 1 (length level) ≡ true
      → let (levels, root) = build_levels c fuel (above level) in
        build_levels c (suc fuel) level ≡ (pad_level level ∷ levels, root)
  unfolding build_levels
  build_levels_more fuel level e = ground (arith, e)

  build_levels_one :
      (fuel : ℕ) (level : List ℕ)
      → ltb 1 (length level) ≡ false
      → build_levels c (suc fuel) level ≡ ([], get_or level 0 0)
  unfolding build_levels
  build_levels_one fuel level e = ground (arith, e)

  -- A walk up the levels ends at the root.
  walk-build_levels :
      (fuel : ℕ) (level : List ℕ) (i : ℕ)
      → length level ≤ fuel
      → i < length level
      → let (levels, root) = build_levels c fuel level in
        walk c (get_or level i 0) i (sibling_path c levels i) ≡ root
  unfolding sibling_path
  walk-build_levels zero level i f h = absurd (omega arith)
  walk-build_levels (suc fuel) level i f h = elim (Bool-cases (ltb 1 (length level))) [
    | inl more ↦
        let (shorter, inside) = length-above level (ground (arith, more)) in
        rw (build_levels_more fuel level more) (
          walk-step level i _ h
          ∙ walk-build_levels fuel (above level) (i / 2) (omega arith) (inside i h))
    | inr one ↦
        let first : i ≡ 0 = ground (arith, one) in
        rw (build_levels_one fuel level one, first) (walk_none (get_or level 0 0))
  ]

  root_loop_more :
      (fuel : ℕ) (level : List ℕ)
      → ltb 1 (length level) ≡ true
      → root_loop c (suc fuel) level ≡ root_loop c fuel (above level)
  unfolding root_loop
  root_loop_more fuel level e = ground (arith, e)

  root_loop_one :
      (fuel : ℕ) (level : List ℕ)
      → ltb 1 (length level) ≡ false
      → root_loop c (suc fuel) level ≡ get_or level 0 0
  unfolding root_loop
  root_loop_one fuel level e = ground (arith, e)

  root-nil : (level : List ℕ) → (build_levels c zero level).1 ≡ root_loop c zero level
  unfolding build_levels root_loop
  root-nil level = refl

  -- Both loops find the same root.
  root-build_levels :
      (fuel : ℕ) (level : List ℕ) → (build_levels c fuel level).1 ≡ root_loop c fuel level
  root-build_levels zero level = root-nil level
  root-build_levels (suc fuel) level = elim (Bool-cases (ltb 1 (length level))) [
    | inl more ↦
        rw (build_levels_more fuel level more, root_loop_more fuel level more)
          (root-build_levels fuel (above level))
    | inr one ↦ rw (build_levels_one fuel level one, root_loop_one fuel level one) refl
  ]

  get_or-map :
      (chunks : List (List ℕ)) (i : ℕ) (chunk : List ℕ)
      → get_elem? chunks i ≡ some chunk
      → (i < length chunks) × (get_or (map (leaf_hash c) chunks) i 0 ≡ leaf_hash c chunk)
  get_or-map [] i chunk e = absurd (ground (arith, e))
  get_or-map (x ∷ chunks) zero chunk e =
      let same : x ≡ chunk = ground (arith, e) in (omega arith, ap (leaf_hash c) same)
  get_or-map (x ∷ chunks) (suc i) chunk e =
      let (h, p) = get_or-map chunks i chunk e in (omega arith, p)

  get_elem?-proofs_from :
      (levels : List (List ℕ)) (start n i k : ℕ)
      → i < n
      → k ≡ start + i
      → get_elem? (proofs_from c levels start n) i
        ≡ some (record { leaf_index = k; siblings = sibling_path c levels k })
  unfolding proofs_from
  get_elem?-proofs_from levels start zero i k h e = absurd (omega arith)
  get_elem?-proofs_from levels start (suc n) zero k h e =
      let same : k ≡ start = omega arith in rw same refl
  get_elem?-proofs_from levels start (suc n) (suc i) k h e =
      get_elem?-proofs_from levels (suc start) n i k (omega arith) (omega arith)

  length-map : (chunks : List (List ℕ)) → length (map (leaf_hash c) chunks) ≡ length chunks
  length-map [] = refl
  length-map (x ∷ chunks) = omega (arith, length-map chunks)

  -- The `i`-th proof that is generated for a list of chunks verifies the `i`-th chunk against the root
  -- generated with it, which is the root that `compute_root` computes. This holds of every hash function
  -- and every number of chunks, powers of two or not.
  pub generated_proof_verifies :
      (chunks : List (List ℕ)) (i : ℕ) (chunk : List ℕ)
      → get_elem? chunks i ≡ some chunk
      → (proof : MerkleProof) × (get_elem? (generate_proofs c chunks).1 i ≡ some proof)
        × (verify_chunk c chunk proof (generate_proofs c chunks).0 ≡ true)
        × ((generate_proofs c chunks).0 ≡ compute_root c chunks)
  unfolding generate_proofs compute_root verify_chunk
  generated_proof_verifies [] i chunk e = absurd (ground (arith, e))
  generated_proof_verifies (x ∷ chunks) i chunk e =
      let n = length (x ∷ chunks) in
      let leaves = map (leaf_hash c) (x ∷ chunks) in
      let built = build_levels c n leaves in
      let (h, p) = get_or-map (x ∷ chunks) i chunk e in
      let size = length-map (x ∷ chunks) in
      let walked = walk-build_levels n leaves i (omega (arith, size)) (omega (arith, size)) in
      (
        record { leaf_index = i; siblings = sibling_path c built.0 i },
        get_elem?-proofs_from built.0 0 n i i h (omega arith),
        rw (sym p, walked) (==_refl built.1),
        root-build_levels n leaves,
      )
