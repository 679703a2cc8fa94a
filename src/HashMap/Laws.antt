-- ===== src/HashMap/Laws.antt =====
-- What `get` reads after each operation of a map, and which operations keep the keys distinct.
use static.Common.{
  Bool-cases, Option-cases, inl, inr, leb, leb→le, ℕ, zero, suc, ◌%◌, ◌≤◌, ◌<◌, ◌≡◌, refl, ◌≢◌,
  Bool, Option, none, some, [], ◌∷◌, arith, length, get_elem?, if◌then◌else◌, ◌==◌,
}
use static.HashMap.{
  make_room, HashMap, get, remove, insert, modify, retain, keys, Distinct, Pick, first_key,
}

module _ {ℓ} {V : Type ℓ} where
  pub get-remove :
      (k j : ℕ) (m : HashMap V) → get j (remove k m) ≡ (if k == j then none else get j m)
  unfolding get remove
  get-remove k j [] = ground arith
  get-remove k j ((i, v) ∷ m) = ground (arith, get-remove k j m)

  pub get-insert :
      (k j : ℕ) (v : V) (m : HashMap V)
      → get j (insert k v m) ≡ (if k == j then some v else get j m)
  unfolding get insert
  get-insert k j v m = ground (arith, get-remove k j m)

  pub get-modify :
      (k j : ℕ) (f : V → V) (v : V) (m : HashMap V)
      → get k m ≡ some v
      → get j (modify k f m) ≡ (if k == j then some (f v) else get j m)
  unfolding get modify
  get-modify k j f v [] e = cc
  get-modify k j f v ((i, w) ∷ m) e = ground (arith, get-modify k j f v m)

  pub modify_absent : (k : ℕ) (f : V → V) (m : HashMap V) → get k m ≡ none → modify k f m ≡ m
  unfolding get modify
  modify_absent k f [] e = refl
  modify_absent k f ((i, w) ∷ m) e = ground (arith, modify_absent k f m)

  pub modify_fixed :
      (k : ℕ) (f : V → V) (v : V) (m : HashMap V) → get k m ≡ some v → f v ≡ v → modify k f m ≡ m
  unfolding get modify
  modify_fixed k f v [] e same = refl
  modify_fixed k f v ((i, w) ∷ m) e same = ground (arith, modify_fixed k f v m)

  pub length-modify : (k : ℕ) (f : V → V) (m : HashMap V) → length (modify k f m) ≡ length m
  unfolding modify
  length-modify k f [] = refl
  length-modify k f ((i, w) ∷ m) = ground (arith, length-modify k f m)

  pub remove_absent : (k : ℕ) (m : HashMap V) → get k m ≡ none → remove k m ≡ m
  unfolding get remove
  remove_absent k [] e = refl
  remove_absent k ((i, w) ∷ m) e = ground (arith, remove_absent k m)

  pub length-remove-le : (k : ℕ) (m : HashMap V) → length (remove k m) ≤ length m
  unfolding remove
  length-remove-le k [] = omega arith
  length-remove-le k ((i, w) ∷ m) = ground (arith, length-remove-le k m)

  -- Removing a key that is there leaves fewer entries; exactly one fewer, if keys are distinct.
  pub length-remove-lt :
      (k : ℕ) (v : V) (m : HashMap V) → get k m ≡ some v → length (remove k m) < length m
  unfolding get remove
  length-remove-lt k v [] e = cc
  length-remove-lt k v ((i, w) ∷ m) e = ground (arith, length-remove-le k m, length-remove-lt k v m)

  pub length-remove :
      (k : ℕ) (v : V) (m : HashMap V)
      → Distinct m
      → get k m ≡ some v
      → suc (length (remove k m)) ≡ length m
  unfolding get remove
  length-remove k v [] d e = cc
  length-remove k v ((i, w) ∷ m) d e = ground (arith, remove_absent k m, length-remove k v m d.1)

  pub remove-Distinct : (k : ℕ) (m : HashMap V) → Distinct m → Distinct (remove k m)
  unfolding remove
  remove-Distinct k [] d = tt
  remove-Distinct k ((i, w) ∷ m) d = ground (arith, get-remove k i m, remove-Distinct k m d.1)

  pub insert-Distinct : (k : ℕ) (v : V) (m : HashMap V) → Distinct m → Distinct (insert k v m)
  unfolding insert
  insert-Distinct k v m d = ground (arith, get-remove k k m, remove-Distinct k m d)

  pub length-insert-le : (k : ℕ) (v : V) (m : HashMap V) → length (insert k v m) ≤ suc (length m)
  unfolding insert
  length-insert-le k v m = omega (arith, length-remove-le k m)

  pub length-insert_present :
      (k : ℕ) (v w : V) (m : HashMap V)
      → Distinct m
      → get k m ≡ some w
      → length (insert k v m) ≡ length m
  unfolding insert
  length-insert_present k v w m d e = length-remove k w m d e

  pub length-insert_absent :
      (k : ℕ) (v : V) (m : HashMap V) → get k m ≡ none → length (insert k v m) ≡ suc (length m)
  unfolding insert
  length-insert_absent k v m e = ground (arith, remove_absent k m e)

  get-modify_cases :
      (k i : ℕ) (f : V → V) (m : HashMap V) → get i m ≡ none → get i (modify k f m) ≡ none
  unfolding get modify
  get-modify_cases k i f [] e = refl
  get-modify_cases k i f ((j, w) ∷ m) e = ground (arith, get-modify_cases k i f m)

  pub modify-Distinct : (k : ℕ) (f : V → V) (m : HashMap V) → Distinct m → Distinct (modify k f m)
  unfolding modify
  modify-Distinct k f [] d = tt
  modify-Distinct k f ((i, w) ∷ m) d =
      ground (arith, get-modify_cases k i f m, modify-Distinct k f m d.1)

  get-retain-none :
      (p : ℕ → V → Bool) (k : ℕ) (m : HashMap V) → get k m ≡ none → get k (retain p m) ≡ none
  unfolding get retain
  get-retain-none p k [] e = refl
  get-retain-none p k ((i, w) ∷ m) e = ground (arith, get-retain-none p k m)

  pub retain-Distinct : (p : ℕ → V → Bool) (m : HashMap V) → Distinct m → Distinct (retain p m)
  unfolding retain
  retain-Distinct p [] d = tt
  retain-Distinct p ((i, w) ∷ m) d = ground (arith, get-retain-none p i m, retain-Distinct p m d.1)

  pub length-retain-le : (p : ℕ → V → Bool) (m : HashMap V) → length (retain p m) ≤ length m
  unfolding retain
  length-retain-le p [] = omega arith
  length-retain-le p ((i, w) ∷ m) = ground (arith, length-retain-le p m)

  -- What `retain` leaves under a key: the entry, if it passes the test.
  abbrev pub kept : (ℕ → V → Bool) → ℕ → Option V → Option V
  kept p k none = none
  kept p k (some v) = if p k v then some v else none

  pub get-retain :
      (p : ℕ → V → Bool) (k : ℕ) (m : HashMap V)
      → Distinct m
      → get k (retain p m) ≡ kept p k (get k m)
  unfolding get retain
  get-retain p k [] d = refl
  get-retain p k ((i, w) ∷ m) d = ground (arith, get-retain-none p k m, get-retain p k m d.1)

  get_elem?-keys :
      (m : HashMap V) (i : ℕ)
      → i < length m
      → (k : ℕ) × (get_elem? (keys m) i ≡ some k) × (get k m ≢ none)
  unfolding get
  get_elem?-keys [] i h = absurd (omega arith)
  get_elem?-keys ((j, w) ∷ m) zero h = (j, refl, ground arith)
  get_elem?-keys ((j, w) ∷ m) (suc i) h =
      let (k, e, p) = get_elem?-keys m i (omega arith) in (k, e, ground arith)

  -- A map with entries has a first key, which it holds.
  pub first_key-some :
      (pick : Pick) (m : HashMap V)
      → 0 < length m
      → (k : ℕ) × (first_key pick m ≡ some k) × (get k m ≢ none)
  unfolding first_key
  first_key-some pick m h = get_elem?-keys m (pick (keys m) % length m) (omega arith)

  -- Room is made for one entry, and nothing goes below the cap.
  pub length-make_room-lt :
      (cap : ℕ) (pick : Pick) (m : HashMap V)
      → 0 < cap
      → length m ≤ cap
      → length (make_room cap pick m) < cap
  unfolding make_room
  length-make_room-lt cap pick m pos h = elim (Bool-cases (leb cap (length m))) [
    | inl full ↦
        let many = leb→le cap (length m) full in
        let (k, e, present) = first_key-some pick m (omega arith) in
        elim (Option-cases (get k m)) [
          | inl none_there ↦ absurd (present none_there)
          | inr (v, there) ↦ rw (full, e) (omega (arith, length-remove-lt k v m there))
        ]
    | inr free ↦ ground (arith, free)
  ]

  pub make_room_below :
      (cap : ℕ) (pick : Pick) (m : HashMap V) → length m < cap → make_room cap pick m ≡ m
  unfolding make_room
  make_room_below cap pick m h = ground (arith, h)
