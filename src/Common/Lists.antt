-- ===== src/Common/Lists.antt =====
-- Lists measured and indexed by native numbers: the slice operations of the source.
use Prim.Native.Nat.{ℕ, zero, suc, ◌+◌, ◌-◌, ◌≤◌, min}
use mathlib.Core.Path.{◌≡◌, refl, sym, ap, ◌∙◌}
use mathlib.Core.Bool.{Bool, false, ◌||◌}
use mathlib.Core.List.{List, [], ◌∷◌, ◌++◌, append_assoc}
use mathlib.Core.Option.{Option, none, some}
use native.Mathlib.Omega.{arith}
use static.Common.Tests.{if◌then◌else◌, ◌==◌}

module _ {ℓ} {A : Type ℓ} where
  abbrev pub length : List A → ℕ
  length [] = 0
  length (x ∷ xs) = suc (length xs)

  abbrev pub get_elem? : List A → ℕ → Option A
  get_elem? [] i = none
  get_elem? (x ∷ xs) zero = some x
  get_elem? (x ∷ xs) (suc i) = get_elem? xs i

  unfoldable pub take : ℕ → List A → List A
  take zero xs = []
  take (suc n) [] = []
  take (suc n) (x ∷ xs) = x ∷ take n xs

  unfoldable pub drop : ℕ → List A → List A
  drop zero xs = xs
  drop (suc n) [] = []
  drop (suc n) (x ∷ xs) = drop n xs

  unfoldable pub replicate : ℕ → A → List A
  replicate zero a = []
  replicate (suc n) a = a ∷ replicate n a

  -- `iter().filter(..)`, and `Vec::retain`.
  unfoldable pub filter : (A → Bool) → List A → List A
  filter p [] = []
  filter p (x ∷ xs) = let rest = filter p xs in if p x then x ∷ rest else rest

  abbrev pub All {κ} : (A → Type κ) → List A → Type κ
  All P [] = Unit {κ}
  All P (x ∷ xs) = P x × All P xs

  pub length-append : (xs ys : List A) → length (xs ++ ys) ≡ length xs + length ys
  length-append [] ys = omega arith
  length-append (x ∷ xs) ys = omega (arith, length-append xs ys)

  pub length-take : (n : ℕ) (xs : List A) → length (take n xs) ≡ min n (length xs)
  unfolding take
  length-take zero xs = omega arith
  length-take (suc n) [] = omega arith
  length-take (suc n) (x ∷ xs) = omega (arith, length-take n xs)

  pub length-drop : (n : ℕ) (xs : List A) → length (drop n xs) ≡ length xs - n
  unfolding drop
  length-drop zero xs = omega arith
  length-drop (suc n) [] = omega arith
  length-drop (suc n) (x ∷ xs) = omega (arith, length-drop n xs)

  pub length-replicate : (n : ℕ) (a : A) → length (replicate n a) ≡ n
  unfolding replicate
  length-replicate zero a = refl
  length-replicate (suc n) a = ap suc (length-replicate n a)

  pub length-filter-le : (p : A → Bool) (xs : List A) → length (filter p xs) ≤ length xs
  unfolding filter
  length-filter-le p [] = omega arith
  length-filter-le p (x ∷ xs) = ground (arith, length-filter-le p xs)

  pub take_of_length-le :
      (count : ℕ) (bytes : List A) → length bytes ≤ count → take count bytes ≡ bytes
  unfolding take
  take_of_length-le zero [] fits = refl
  take_of_length-le (suc count) [] fits = refl
  take_of_length-le zero (b ∷ bytes) fits = absurd (omega arith)
  take_of_length-le (suc count) (b ∷ bytes) fits =
      let shorter = take_of_length-le count bytes (omega arith) in ap (◌∷◌ b) shorter

  pub take-append : (xs ys : List A) (n : ℕ) → n ≡ length xs → take n (xs ++ ys) ≡ xs
  unfolding take
  take-append [] ys zero e = refl
  take-append [] ys (suc n) e = absurd (omega arith)
  take-append (x ∷ xs) ys zero e = absurd (omega arith)
  take-append (x ∷ xs) ys (suc n) e = ap (◌∷◌ x) (take-append xs ys n (omega arith))

  pub drop-append : (xs ys : List A) (n : ℕ) → n ≡ length xs → drop n (xs ++ ys) ≡ ys
  unfolding drop
  drop-append [] ys zero e = refl
  drop-append [] ys (suc n) e = absurd (omega arith)
  drop-append (x ∷ xs) ys zero e = absurd (omega arith)
  drop-append (x ∷ xs) ys (suc n) e = drop-append xs ys n (omega arith)

  pub take-append-drop : (n : ℕ) (xs : List A) → take n xs ++ drop n xs ≡ xs
  unfolding take drop
  take-append-drop zero xs = refl
  take-append-drop (suc n) [] = refl
  take-append-drop (suc n) (x ∷ xs) = ap (◌∷◌ x) (take-append-drop n xs)

  pub drop_of_length-le : (n : ℕ) (xs : List A) → length xs ≤ n → drop n xs ≡ []
  unfolding drop
  drop_of_length-le zero [] h = refl
  drop_of_length-le zero (x ∷ xs) h = absurd (omega arith)
  drop_of_length-le (suc n) [] h = refl
  drop_of_length-le (suc n) (x ∷ xs) h = drop_of_length-le n xs (omega arith)

  pub drop-drop : (m n k : ℕ) (xs : List A) → k ≡ n + m → drop m (drop n xs) ≡ drop k xs
  unfolding drop
  drop-drop m zero k xs e = ap (λ (i : ℕ). drop i xs) (omega arith)
  drop-drop m (suc n) zero xs e = absurd (omega arith)
  drop-drop zero (suc n) (suc k) [] e = refl
  drop-drop (suc m) (suc n) (suc k) [] e = refl
  drop-drop m (suc n) (suc k) (x ∷ xs) e = drop-drop m n k xs (omega arith)

  pub replicate-add :
      (m n k : ℕ) (a : A) → k ≡ m + n → replicate k a ≡ replicate m a ++ replicate n a
  unfolding replicate
  replicate-add zero n k a e = ap (λ (i : ℕ). replicate i a) (omega arith)
  replicate-add (suc m) n zero a e = absurd (omega arith)
  replicate-add (suc m) n (suc k) a e = ap (◌∷◌ a) (replicate-add m n k a (omega arith))

  -- `&xs[start..end]`, for a range that the source has checked.
  abbrev pub slice : List A → ℕ → ℕ → List A
  slice xs start end = take (end - start) (drop start xs)

  -- A slice picks the part of a concatenation that stands at its bounds.
  pub slice-append :
      (xs ys zs : List A) (start end : ℕ)
      → start ≡ length xs
      → end ≡ start + length ys
      → slice (xs ++ (ys ++ zs)) start end ≡ ys
  slice-append xs ys zs start end s e =
      ap (take (end - start)) (drop-append xs (ys ++ zs) start s)
      ∙ take-append ys zs (end - start) (omega arith)

  -- `buf[start..start + src.len()].copy_from_slice(src)`.
  unfoldable pub copy_from_slice : List A → ℕ → List A → List A
  copy_from_slice buf start src = take start buf ++ (src ++ drop (start + length src) buf)

  pub copy_from_slice-append :
      (xs old src zs : List A) (start : ℕ)
      → start ≡ length xs
      → length old ≡ length src
      → copy_from_slice (xs ++ (old ++ zs)) start src ≡ xs ++ (src ++ zs)
  unfolding copy_from_slice
  copy_from_slice-append xs old src zs start s e =
      rw (take-append xs (old ++ zs) start s, ← append_assoc xs old zs)
        (ap (λ (t : List A). xs ++ (src ++ t))
          (drop-append (xs ++ old) zs (start + length src) (omega (arith, length-append xs old))))

  -- A slice behind a known first part is a slice of the rest.
  pub slice-append_right :
      (xs ys : List A) (start end start' end' : ℕ)
      → start' ≡ length xs + start
      → end' ≡ length xs + end
      → slice (xs ++ ys) start' end' ≡ slice ys start end
  slice-append_right xs ys start end start' end' s e =
      ap (take (end' - start')) (
        sym (drop-drop start (length xs) start' (xs ++ ys) s)
        ∙ ap (drop start) (drop-append xs ys (length xs) refl))
      ∙ ap (λ (n : ℕ). take n (drop start ys)) (omega arith)

  pub take-add : (m n k : ℕ) (xs : List A) → k ≡ m + n → take k xs ≡ take m xs ++ take n (drop m xs)
  unfolding take drop
  take-add zero n k xs e = ap (λ (i : ℕ). take i xs) (omega arith)
  take-add (suc m) n zero xs e = absurd (omega arith)
  take-add (suc m) zero (suc k) [] e = refl
  take-add (suc m) (suc n) (suc k) [] e = refl
  take-add (suc m) n (suc k) (x ∷ xs) e = ap (◌∷◌ x) (take-add m n k xs (omega arith))

  -- A count beyond the end takes everything.
  pub take-min : (n k : ℕ) (xs : List A) → k ≡ min n (length xs) → take k xs ≡ take n xs
  unfolding take
  take-min zero zero xs e = refl
  take-min zero (suc k) xs e = absurd (omega arith)
  take-min (suc n) zero [] e = refl
  take-min (suc n) (suc k) [] e = absurd (omega arith)
  take-min (suc n) zero (x ∷ xs) e = absurd (omega arith)
  take-min (suc n) (suc k) (x ∷ xs) e = ap (◌∷◌ x) (take-min n k xs (omega arith))

-- `Vec::contains`
abbrev pub contains : List ℕ → ℕ → Bool
contains [] x = false
contains (y ∷ ys) x = (y == x) || contains ys x
