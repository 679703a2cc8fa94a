-- ===== src/HashMap/Shuffled.antt =====
-- What a filtered list keeps when it is shuffled and cut.
use mathlib.Core.List.{Perm}
use static.Common.{
  ℕ, zero, suc, ◌≡◌, ◌≤◌, refl, sym, ap, ◌∙◌, Bool, true, List, [], ◌∷◌, length, filter, take, drop,
  ◌++◌, subst, take-append-drop, arith, All, Bool-cases, inl, inr,
}
use static.HashMap.Order.{filter-perm, length-perm}

module _ {ℓ} {A : Type ℓ} (p : A → Bool) where
  pub length-filter-le : (xs : List A) → length (filter p xs) ≤ length xs
  unfolding filter
  length-filter-le [] = omega arith
  length-filter-le (x ∷ xs) = ground (arith, length-filter-le xs)

  filter_twice : (xs : List A) → filter p (filter p xs) ≡ filter p xs
  unfolding filter
  filter_twice [] = refl
  filter_twice (x ∷ xs) = elim (Bool-cases (p x)) [
    | inl e ↦ rw (e, e) (ap (◌∷◌ x) (filter_twice xs))
    | inr e ↦ rw e (filter_twice xs)
  ]

  -- A list that loses nothing to a filter passes it.
  passes_of_filter : (xs : List A) → length (filter p xs) ≡ length xs → All (λ x. p x ≡ true) xs
  unfolding filter
  passes_of_filter [] h = tt
  passes_of_filter (x ∷ xs) h = elim (Bool-cases (p x)) [
    | inl e ↦ (e, passes_of_filter xs (ground (arith, e, h)))
    | inr e ↦ absurd (ground (arith, e, h, length-filter-le xs))
  ]

  pub passes_of_take :
      (n : ℕ) (xs : List A) → All (λ x. p x ≡ true) xs → All (λ x. p x ≡ true) (take n xs)
  unfolding take
  passes_of_take zero xs h = tt
  passes_of_take (suc n) [] h = tt
  passes_of_take (suc n) (x ∷ xs) h = (h.0, passes_of_take n xs h.1)

  -- What is cut off a shuffled list is drawn from the list without putting back.
  pub drawn_of_shuffled :
      (n : ℕ) (xs ys : List A)
      → Perm (filter p xs) ys
      → (rest : List A) × Perm (filter p xs) (take n ys ++ rest)
  drawn_of_shuffled n xs ys h =
      (drop n ys, subst (Perm (filter p xs)) (sym (take-append-drop n ys)) h)

  -- A shuffled filtered list passes the filter.
  pub passes_of_shuffled : (xs ys : List A) → Perm (filter p xs) ys → All (λ x. p x ≡ true) ys
  passes_of_shuffled xs ys h =
      let same = length-perm (filter-perm p h) in
      passes_of_filter ys (sym same ∙ (ap length (filter_twice xs) ∙ length-perm h))
