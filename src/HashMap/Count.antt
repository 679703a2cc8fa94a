-- ===== src/HashMap/Count.antt =====
-- Counting the entries of a map whose keys are bounded.
use static.Common.{
  ℕ, zero, suc, ◌≤◌, ◌<◌, ◌≡◌, ◌≢◌, inl, inr, none, some, [], ◌∷◌, arith, length, Option-cases,
}
use static.HashMap.{HashMap, get, remove, insert, Distinct, KeysBelow}
use static.HashMap.Laws.{get-remove, remove_absent, length-remove, remove-Distinct}

module _ {ℓ} {V : Type ℓ} where
  pub remove-KeysBelow : (k n : ℕ) (m : HashMap V) → KeysBelow n m → KeysBelow n (remove k m)
  unfolding remove
  remove-KeysBelow k n [] b = tt
  remove-KeysBelow k n ((i, w) ∷ m) b = ground (arith, remove-KeysBelow k n m b.1)

  pub insert-KeysBelow :
      (k n : ℕ) (v : V) (m : HashMap V) → k < n → KeysBelow n m → KeysBelow n (insert k v m)
  unfolding insert
  insert-KeysBelow k n v m h b = (h, remove-KeysBelow k n m b)

  pub KeysBelow-get : (n k : ℕ) (v : V) (m : HashMap V) → KeysBelow n m → get k m ≡ some v → k < n
  unfolding get
  KeysBelow-get n k v [] b e = cc
  KeysBelow-get n k v ((i, w) ∷ m) b e = ground (arith, KeysBelow-get n k v m b.1)

  -- Without its largest possible key a map's keys lie below that key.
  remove_last-KeysBelow : (n : ℕ) (m : HashMap V) → KeysBelow (suc n) m → KeysBelow n (remove n m)
  unfolding remove
  remove_last-KeysBelow n [] b = tt
  remove_last-KeysBelow n ((i, w) ∷ m) b = ground (arith, remove_last-KeysBelow n m b.1)

  pub length-le_of_KeysBelow : (n : ℕ) (m : HashMap V) → Distinct m → KeysBelow n m → length m ≤ n
  length-le_of_KeysBelow zero [] d b = omega arith
  length-le_of_KeysBelow zero ((i, w) ∷ m) d b = absurd (omega arith)
  length-le_of_KeysBelow (suc n) m d b = elim (Option-cases (get n m)) [
    | inl e ↦
        let r =
          length-le_of_KeysBelow n m d
            (rw (remove_absent n m e) at (remove_last-KeysBelow n m b)) in
        omega arith
    | inr (v, e) ↦ omega (
      arith,
      length-remove n v m d e,
      length-le_of_KeysBelow n (remove n m) (remove-Distinct n m d) (remove_last-KeysBelow n m b),
    )
  ]

  -- A map that lacks one of the keys below `n` has fewer than `n` entries.
  pub length-lt_of_missing :
      (n k : ℕ) (m : HashMap V) → Distinct m → KeysBelow n m → k < n → get k m ≡ none → length m < n
  length-lt_of_missing zero k m d b h e = absurd (omega arith)
  length-lt_of_missing (suc n) k m d b h e = elim (Option-cases (get n m)) [
    | inl e' ↦
        let r =
          length-le_of_KeysBelow n m d
            (rw (remove_absent n m e') at (remove_last-KeysBelow n m b)) in
        omega arith
    | inr (v, e') ↦ omega (
      arith,
      length-remove n v m d e',
      length-lt_of_missing n k (remove n m) (remove-Distinct n m d) (remove_last-KeysBelow n m b)
          (below k n v m h e e') (missing k n m e),
    )
  ]
    where
      below :
          (k n : ℕ) (v : V) (m : HashMap V) → k < suc n → get k m ≡ none → get n m ≡ some v → k < n
      below k n v m h e e' = ground arith

      missing : (k n : ℕ) (m : HashMap V) → get k m ≡ none → get k (remove n m) ≡ none
      missing k n m e = ground (arith, get-remove n k m)

  -- A map that has every key below `n` has at least `n` entries.
  pub le-length_of_present :
      (n : ℕ) (m : HashMap V) → Distinct m → ((k : ℕ) → k < n → get k m ≢ none) → n ≤ length m
  le-length_of_present zero m d all = omega arith
  le-length_of_present (suc n) m d all = elim (Option-cases (get n m)) [
    | inl e ↦ absurd (all n (omega arith) e)
    | inr (v, e) ↦ omega (
      arith,
      length-remove n v m d e,
      le-length_of_present n (remove n m) (remove-Distinct n m d) (λ k h. rest n m all k h),
    )
  ]
    where
      rest :
          (n : ℕ) (m : HashMap V)
          → ((k : ℕ) → k < suc n → get k m ≢ none)
          → (k : ℕ) → k < n
          → get k (remove n m) ≢ none
      rest n m all k h = ground (arith, get-remove n k m, all k (omega arith))
