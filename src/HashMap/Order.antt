-- ===== src/HashMap/Order.antt =====
-- The keys of a map up to their order: what a queue of keys beside a map is compared with.
use mathlib.Core.Logic.Or
use mathlib.Core.Logic.{∥∥₁_elim}
use native.Mathlib.Nat.{ℕ_set}
use mathlib.Core.HLevel.{¬_prop}
use mathlib.Core.List as CoreList
use mathlib.Core.List.{Mem, Perm, Permᴰ, mem-cons, not-mem-nil}
use mathlib.Core.List.Perm
use static.Common.{
  ℕ, suc, ◌≡◌, ◌≢◌, refl, ap, ◌∙◌, inl, inr, Bool, true, not, none, some, List, [], ◌∷◌, arith,
  filter, length, ◌==◌, Bool-cases,
}
use static.HashMap.{HashMap, get, remove, keys, Distinct}
use static.HashMap.Laws.{remove_absent}

Bool-discrete : Discrete Bool
Bool-discrete = hlevel

filter-eq-decided {ℓ} :
    {A : Type ℓ} (p : A → Bool) (xs : List A)
    → filter p xs ≡ CoreList.filter (λ x. Bool-discrete (p x) true) xs
unfolding filter
filter-eq-decided p [] = refl
filter-eq-decided p (x ∷ xs) = ground (arith, filter-eq-decided p xs)

pub filter-perm {ℓ} :
    {A : Type ℓ} (p : A → Bool) {xs ys : List A} → Perm xs ys → Perm (filter p xs) (filter p ys)
filter-perm p {xs} {ys} h =
    rw (filter-eq-decided p xs, filter-eq-decided p ys)
      (Perm.filter (λ x. Bool-discrete (p x) true) h)

module _ {ℓ} {V : Type ℓ} where
  pub keys-remove :
      (k : ℕ) (m : HashMap V) → keys (remove k m) ≡ filter (λ j. not (j == k)) (keys m)
  unfolding remove filter
  keys-remove k [] = refl
  keys-remove k ((j, v) ∷ m) = ground (arith, keys-remove k m)

  pub mem-keys : (k : ℕ) (m : HashMap V) → Mem k (keys m) → get k m ≢ none
  unfolding get
  mem-keys k [] h = absurd (not-mem-nil h)
  mem-keys k ((j, v) ∷ m) h =
      Or.elim ¬_prop (mem-cons.0 h) (λ e. ground arith) (λ t. ground (arith, mem-keys k m t))

  pub keys-remove-perm :
      (k : ℕ) (v : V) (m : HashMap V)
      → Distinct m
      → get k m ≡ some v
      → Perm (keys m) (k ∷ keys (remove k m))
  unfolding get remove
  keys-remove-perm k v [] d e = absurd (ground arith)
  keys-remove-perm k v ((j, w) ∷ m) d e = elim (Bool-cases (j == k)) [
    | inl here ↦
        let same : j ≡ k = ground arith in
        rw (here, same, remove_absent k m (ground arith)) (Perm.refl (k ∷ keys m))
    | inr there ↦ rw there (
        Perm.trans (Perm.cons j (keys-remove-perm k v m d.1 (ground arith)))
          (Perm.swap k j (keys (remove k m))))
  ]

  pub length-keys : (m : HashMap V) → length (keys m) ≡ length m
  length-keys [] = refl
  length-keys (e ∷ m) = ap suc (length-keys m)

lengthᴰ-perm {ℓ} : {A : Type ℓ} {xs ys : List A} → Permᴰ xs ys → length xs ≡ length ys
lengthᴰ-perm Permᴰ.nil = refl
lengthᴰ-perm (Permᴰ.cons e d) = ap suc (lengthᴰ-perm d)
lengthᴰ-perm (Permᴰ.swap e f) = refl
lengthᴰ-perm (Permᴰ.trans d e) = lengthᴰ-perm d ∙ lengthᴰ-perm e

pub length-perm {ℓ} : {A : Type ℓ} {xs ys : List A} → Perm xs ys → length xs ≡ length ys
length-perm h = ∥∥₁_elim h (ℕ_set _ _) lengthᴰ-perm
