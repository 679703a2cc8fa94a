-- ===== src/HashMap/Sums.antt =====
-- Sums over the entries of a map, and predicates that hold of every entry.
use static.Common.{
  ℕ, ◌+◌, ◌≤◌, ◌≡◌, refl, subst, none, some, [], ◌∷◌, arith, ◌==◌, Bool-cases, inl, inr,
}
use static.HashMap.{HashMap, get, remove, insert, modify, Distinct}
use static.HashMap.Laws.{remove_absent}

module _ {ℓ} {V : Type ℓ} where
  unfoldable pub sum_of : (V → ℕ) → HashMap V → ℕ
  sum_of f [] = 0
  sum_of f ((k, v) ∷ m) = f v + sum_of f m

  pub sum_of-remove-le : (f : V → ℕ) (k : ℕ) (m : HashMap V) → sum_of f (remove k m) ≤ sum_of f m
  unfolding sum_of remove
  sum_of-remove-le f k [] = omega arith
  sum_of-remove-le f k ((j, v) ∷ m) = ground (arith, sum_of-remove-le f k m)

  -- Taking an entry out takes at least its share out; exactly that, if keys are distinct.
  pub sum_of-remove_present :
      (f : V → ℕ) (k : ℕ) (v : V) (m : HashMap V)
      → get k m ≡ some v
      → sum_of f (remove k m) + f v ≤ sum_of f m
  unfolding sum_of remove get
  sum_of-remove_present f k v [] e = absurd (ground arith)
  sum_of-remove_present f k v ((j, w) ∷ m) e =
      ground (arith, sum_of-remove_present f k v m, sum_of-remove-le f k m)

  pub sum_of-remove :
      (f : V → ℕ) (k : ℕ) (v : V) (m : HashMap V)
      → Distinct m
      → get k m ≡ some v
      → sum_of f (remove k m) + f v ≡ sum_of f m
  unfolding sum_of remove get
  sum_of-remove f k v [] d e = absurd (ground arith)
  sum_of-remove f k v ((j, w) ∷ m) d e =
      ground (arith, sum_of-remove f k v m d.1, remove_absent k m)

  pub sum_of-insert-le :
      (f : V → ℕ) (k : ℕ) (v : V) (m : HashMap V) → sum_of f (insert k v m) ≤ f v + sum_of f m
  unfolding sum_of insert
  sum_of-insert-le f k v m = omega (arith, sum_of-remove-le f k m)

  pub sum_of-insert_absent :
      (f : V → ℕ) (k : ℕ) (v : V) (m : HashMap V)
      → get k m ≡ none
      → sum_of f (insert k v m) ≡ f v + sum_of f m
  unfolding sum_of insert
  sum_of-insert_absent f k v m e = rw (remove_absent k m e) refl

  -- Rewriting one entry changes the sum by that entry's change.
  pub sum_of-modify :
      (f : V → ℕ) (k : ℕ) (g : V → V) (v : V) (m : HashMap V)
      → get k m ≡ some v
      → sum_of f (modify k g m) + f v ≡ sum_of f m + f (g v)
  unfolding sum_of modify get
  sum_of-modify f k g v [] e = absurd (ground arith)
  sum_of-modify f k g v ((j, w) ∷ m) e = ground (arith, sum_of-modify f k g v m)

  -- A rewriting that keeps every entry's share keeps the sum.
  pub sum_of-modify_same :
      (f : V → ℕ) (k : ℕ) (g : V → V) (m : HashMap V)
      → ((v : V) → f (g v) ≡ f v)
      → sum_of f (modify k g m) ≡ sum_of f m
  unfolding sum_of modify
  sum_of-modify_same f k g [] h = refl
  sum_of-modify_same f k g ((j, w) ∷ m) h = ground (arith, h w, sum_of-modify_same f k g m h)

  -- A statement about every entry and its key.
  abbrev pub Every {κ} : (ℕ → V → Type κ) → HashMap V → Type κ
  Every P [] = Unit {κ}
  Every P ((k, v) ∷ m) = P k v × Every P m

  pub remove-Every {κ} :
      (P : ℕ → V → Type κ) (k : ℕ) (m : HashMap V) → Every P m → Every P (remove k m)
  unfolding remove
  remove-Every P k [] h = tt
  remove-Every P k ((j, w) ∷ m) h = elim (Bool-cases (j == k)) [
    | inl e ↦ rw e (remove-Every P k m h.1)
    | inr e ↦ rw e (h.0, remove-Every P k m h.1)
  ]

  pub insert-Every {κ} :
      (P : ℕ → V → Type κ) (k : ℕ) (v : V) (m : HashMap V)
      → P k v
      → Every P m
      → Every P (insert k v m)
  unfolding insert
  insert-Every P k v m p h = (p, remove-Every P k m h)

  pub modify-Every {κ} :
      (P : ℕ → V → Type κ) (k : ℕ) (g : V → V) (m : HashMap V)
      → ((j : ℕ) (v : V) → P j v → P j (g v))
      → Every P m
      → Every P (modify k g m)
  unfolding modify
  modify-Every P k g [] keep h = tt
  modify-Every P k g ((j, w) ∷ m) keep h = elim (Bool-cases (j == k)) [
    | inl e ↦ rw e (keep j w h.0, h.1)
    | inr e ↦ rw e (h.0, modify-Every P k g m keep h.1)
  ]

  pub get-Every {κ} :
      (P : ℕ → V → Type κ) (k : ℕ) (v : V) (m : HashMap V) → get k m ≡ some v → Every P m → P k v
  unfolding get
  get-Every P k v [] e h = absurd (ground arith)
  get-Every P k v ((j, w) ∷ m) e h = elim (Bool-cases (j == k)) [
    | inl here ↦
        let same_key : j ≡ k = ground arith in
        let same_value : w ≡ v = ground arith in
        subst (λ x. P k x) same_value (subst (λ i. P i w) same_key h.0)
    | inr there ↦ get-Every P k v m (ground arith) h.1
  ]

  -- Rewriting the entry of a key, where the new value passes.
  pub modify-Every_at {κ} :
      (P : ℕ → V → Type κ) (k : ℕ) (g : V → V) (v : V) (m : HashMap V)
      → get k m ≡ some v
      → P k (g v)
      → Every P m
      → Every P (modify k g m)
  unfolding modify get
  modify-Every_at P k g v [] e p h = tt
  modify-Every_at P k g v ((j, w) ∷ m) e p h = elim (Bool-cases (j == k)) [
    | inl here ↦
        let same_key : k ≡ j = ground arith in
        let same_value : v ≡ w = ground arith in
        rw here (subst (λ x. P j (g x)) same_value (subst (λ i. P i (g v)) same_key p), h.1)
    | inr there ↦ rw there (h.0, modify-Every_at P k g v m (ground arith) p h.1)
  ]
