-- ===== src/HashMap.antt =====
-- `std::collections::HashMap`, as the crates use it: an association list whose keys are numbers (a
-- machine word, or the number that a byte array spells). The order of the entries stands for the
-- unspecified iteration order. What depends on that order takes a `Pick`.
pub mod Laws
pub mod Count
pub mod Order
pub mod Sums
pub mod Shuffled
use static.Common.{
  ℕ, ◌%◌, ◌<◌, Bool, true, false, Option, none, some, List, [], ◌∷◌, map, ◌≡◌, length, get_elem?,
  is_some, leb, if◌then◌else◌, ◌==◌,
}

abbrev pub HashMap {ℓ} : Type ℓ → Type ℓ
HashMap V = List (ℕ × V)

module _ {ℓ} {V : Type ℓ} where
  -- `get`, `get_mut` and the indexing of a value that is then rewritten.
  unfoldable pub get : ℕ → HashMap V → Option V
  get k [] = none
  get k ((j, v) ∷ m) = if j == k then some v else get k m

  unfoldable pub remove : ℕ → HashMap V → HashMap V
  remove k [] = []
  remove k ((j, v) ∷ m) = let rest = remove k m in if j == k then rest else (j, v) ∷ rest

  unfoldable pub insert : ℕ → V → HashMap V → HashMap V
  insert k v m = (k, v) ∷ remove k m

  abbrev pub contains_key : ℕ → HashMap V → Bool
  contains_key k m = is_some (get k m)

  -- `if let Some(v) = m.get_mut(&k) { *v = f(*v) }`
  unfoldable pub modify : ℕ → (V → V) → HashMap V → HashMap V
  modify k f [] = []
  modify k f ((j, v) ∷ m) = if j == k then (j, f v) ∷ m else (j, v) ∷ modify k f m

  unfoldable pub retain : (ℕ → V → Bool) → HashMap V → HashMap V
  retain p [] = []
  retain p ((j, v) ∷ m) = let rest = retain p m in if p j v then (j, v) ∷ rest else rest

  abbrev pub keys : HashMap V → List ℕ
  keys = map λ e. e.0

  abbrev pub values : HashMap V → List V
  values = map λ e. e.1

  -- No key stands twice.
  abbrev pub Distinct : HashMap V → Type ℓ
  Distinct [] = Unit {ℓ}
  Distinct ((k, v) ∷ m) = (get k m ≡ none) × Distinct m

  -- Every key is below the bound.
  abbrev pub KeysBelow : ℕ → HashMap V → Type 0
  KeysBelow n [] = Unit {0}
  KeysBelow n ((k, v) ∷ m) = (k < n) × KeysBelow n m

-- Which entry the iterator of a map yields first: any number, taken modulo the map's length, so that
-- a map with entries has a first key whatever the choice is.
abbrev pub Pick : Type 0
Pick = List ℕ → ℕ

-- `m.keys().next().copied()`
unfoldable pub first_key {ℓ} : {V : Type ℓ} → Pick → HashMap V → Option ℕ
first_key pick m = get_elem? (keys m) (pick (keys m) % length m)

-- At the cap, one entry goes: `if m.len() >= cap { if let Some(k) = m.keys().next() .. m.remove(&k) }`
abbrev pub drop_first {ℓ} : {V : Type ℓ} → Option ℕ → HashMap V → HashMap V
drop_first none m = m
drop_first (some k) m = remove k m

unfoldable pub make_room {ℓ} : {V : Type ℓ} → ℕ → Pick → HashMap V → HashMap V
make_room cap pick m = if leb cap (length m) then drop_first (first_key pick m) m else m
