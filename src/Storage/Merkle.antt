-- ===== src/Storage/Merkle.antt =====
-- crates/static-storage/src/integrity.rs: Merkle proofs over encrypted chunks. A chunk stands for its
-- data, and a hash for the number of its 32 bytes.
pub mod Soundness
use static.Common.{
  ℕ, zero, suc, ◌+◌, ◌-◌, ◌/◌, ◌%◌, Bool, true, false, List, [], ◌∷◌, ◌++◌, map, length, be_bytes,
  ltb, ◌==◌, if◌then◌else◌,
}
use static.Storage.Crypto.{Crypto}

pub record MerkleProof : Type 0 where
  pub leaf_index : ℕ
  pub siblings : List ℕ

-- `EMPTY_ROOT`
abbrev pub empty_root : ℕ
empty_root = 0

abbrev pub get_or : List ℕ → ℕ → ℕ → ℕ
get_or [] i d = d
get_or (x ∷ xs) zero d = x
get_or (x ∷ xs) (suc i) d = get_or xs i d

-- `*level.last()`, of a level that is not empty.
unfoldable pub last : List ℕ → ℕ
last [] = 0
last (x ∷ []) = x
last (x ∷ y ∷ xs) = last (y ∷ xs)

-- `if level.len() % 2 == 1 { level.push(last) }`
unfoldable pub pad_level : List ℕ → List ℕ
pad_level level = if length level % 2 == 1 then level ++ (last level ∷ []) else level

-- `idx ^ 1`
abbrev pub sibling_index : ℕ → ℕ
sibling_index idx = if idx % 2 == 0 then idx + 1 else idx - 1

module _ (c : Crypto) where
  unfoldable pub leaf_hash : List ℕ → ℕ
  leaf_hash bytes = c.hash bytes

  unfoldable pub node_hash : ℕ → ℕ → ℕ
  node_hash left right = c.hash (be_bytes 32 left ++ be_bytes 32 right)

  -- `level.chunks(2).map(..)` of a padded level; a pair with one element does not occur there.
  unfoldable pub hash_pairs : List ℕ → List ℕ
  hash_pairs [] = []
  hash_pairs (x ∷ []) = []
  hash_pairs (x ∷ y ∷ xs) = node_hash x y ∷ hash_pairs xs

  -- The loop of `compute_root`; each round halves the level, so its length is fuel enough.
  unfoldable pub root_loop : ℕ → List ℕ → ℕ
  root_loop zero level = get_or level 0 0
  root_loop (suc fuel) level = elim (ltb 1 (length level)) [
    | false ↦ get_or level 0 0
    | true ↦ root_loop fuel (hash_pairs (pad_level level))
  ]

  unfoldable pub compute_root : List (List ℕ) → ℕ
  compute_root [] = empty_root
  compute_root (chunk ∷ chunks) =
      root_loop (length (chunk ∷ chunks)) (map leaf_hash (chunk ∷ chunks))

  -- The loop of `generate_proofs`: the padded levels, and the root.
  unfoldable pub build_levels : ℕ → List ℕ → List (List ℕ) × ℕ
  build_levels zero level = ([], get_or level 0 0)
  build_levels (suc fuel) level = elim (ltb 1 (length level)) [
    | false ↦ ([], get_or level 0 0)
    | true ↦
        let (levels, root) = build_levels fuel (hash_pairs (pad_level level)) in
        (pad_level level ∷ levels, root)
  ]

  -- The siblings of a leaf, one for each level.
  unfoldable pub sibling_path : List (List ℕ) → ℕ → List ℕ
  sibling_path [] idx = []
  sibling_path (level ∷ levels) idx =
      get_or level (sibling_index idx) 0 ∷ sibling_path levels (idx / 2)

  -- The proofs of the leaves `i..i + n`.
  unfoldable pub proofs_from : List (List ℕ) → ℕ → ℕ → List MerkleProof
  proofs_from levels i zero = []
  proofs_from levels i (suc n) =
      record { leaf_index = i; siblings = sibling_path levels i } ∷ proofs_from levels (suc i) n

  unfoldable pub generate_proofs : List (List ℕ) → ℕ × List MerkleProof
  generate_proofs [] = (empty_root, [])
  generate_proofs (chunk ∷ chunks) =
      let n = length (chunk ∷ chunks) in
      let (levels, root) = build_levels n (map leaf_hash (chunk ∷ chunks)) in
      (root, proofs_from levels 0 n)

  unfoldable pub walk : ℕ → ℕ → List ℕ → ℕ
  walk current idx [] = current
  walk current idx (sibling ∷ siblings) =
      walk (if idx % 2 == 0 then node_hash current sibling else node_hash sibling current) (idx / 2)
        siblings

  unfoldable pub verify_chunk : List ℕ → MerkleProof → ℕ → Bool
  verify_chunk bytes proof root = walk (leaf_hash bytes) proof.leaf_index proof.siblings == root
