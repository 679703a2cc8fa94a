-- ===== src/Storage/Rotation/Selection.antt =====
-- Which chunks an epoch selects, and how long the history grows.
use mathlib.Core.List.{Perm}
use native.Mathlib.Nat.{mul-le-mul_left}
use static.Common.{
  ℕ, ◌*◌, ◌/◌, ◌-◌, ◌≡◌, ◌≤◌, refl, sym, ap, ◌∙◌, Bool, true, not, some, List, ◌++◌, length, filter,
  min, ltb, arith, All, length-take, ==_refl,
}
use static.HashMap.{Pick, get, insert, make_room}
use static.HashMap.Laws.{get-insert, length-insert-le, length-make_room-lt}
use static.HashMap.Order.{length-perm}
use static.HashMap.Shuffled.{passes_of_take, passes_of_shuffled, drawn_of_shuffled}
use static.Storage.Rotation.{
  RotationConfig, RotationState, max_rotation_history, record_rotation, was_recently_rotated,
  select_chunks_for_rotation, is_recent,
}

abbrev pub is_eligible : RotationConfig → ℕ → RotationState → ℕ → Bool
is_eligible config current_time s id =
    not (was_recently_rotated id current_time config.epoch_duration_secs s)

-- However the shuffle falls, an epoch selects the configured share of the eligible chunks, rounded
-- down and at most all of them: they are drawn from the given chunks that were not rotated within the
-- epoch, each as often at most as it is given.
pub select_chunks_for_rotation_lem :
    (shuffle : List ℕ → List ℕ) (all_chunks : List ℕ) (config : RotationConfig)
    → (current_time : ℕ) (s : RotationState) → ((ids : List ℕ) → Perm ids (shuffle ids))
    → let selected = select_chunks_for_rotation shuffle all_chunks config current_time s in
      (length selected
        ≡ length (filter (is_eligible config current_time s) all_chunks)
          * min config.rotation_percentage 100
          / 100)
      × All (λ id. is_eligible config current_time s id ≡ true) selected
      × (rest : List ℕ) × Perm
          (filter (is_eligible config current_time s) all_chunks)
          (selected ++ rest)
unfolding select_chunks_for_rotation
select_chunks_for_rotation_lem shuffle all_chunks config current_time s permutes =
    let p = is_eligible config current_time s in
    let eligible = filter p all_chunks in
    let count = length eligible * min config.rotation_percentage 100 / 100 in
    let same = length-perm (permutes eligible) in
    let (rest, drawn) =
      drawn_of_shuffled p count all_chunks (shuffle eligible) (permutes eligible) in
    (
      length-take count (shuffle eligible)
          ∙ min_count eligible (shuffle eligible) (min config.rotation_percentage 100) (sym same)
              (omega arith),
      passes_of_take p count (shuffle eligible)
          (passes_of_shuffled p all_chunks (shuffle eligible) (permutes eligible)),
      rest,
      drawn,
    )
  where
    min_count :
        (eligible shuffled : List ℕ) (percent : ℕ)
        → length shuffled ≡ length eligible
        → percent ≤ 100
        → min (length eligible * percent / 100) (length shuffled) ≡ length eligible * percent / 100
    min_count eligible shuffled percent same small =
        omega (arith, same, mul-le-mul_left (length eligible) small)

-- The history stays within its bound, whichever entry goes for a new one, and a chunk that was just
-- recorded is not eligible again before the epoch is over.
pub record_rotation-bounded :
    (pick : Pick) (chunk_id now later epoch : ℕ) (s : RotationState)
    → length s.rotation_history ≤ max_rotation_history
    → (length (record_rotation pick chunk_id now s).rotation_history ≤ max_rotation_history)
      × (was_recently_rotated chunk_id later epoch (record_rotation pick chunk_id now s)
          ≡ ltb (later - now) epoch)
unfolding record_rotation was_recently_rotated
record_rotation-bounded pick chunk_id now later epoch s small =
    let room = make_room max_rotation_history pick s.rotation_history in
    let inserted = length-insert-le chunk_id now room in
    let free =
      length-make_room-lt max_rotation_history pick s.rotation_history (omega arith) small in
    let own : get chunk_id (insert chunk_id now room) ≡ some now =
      get-insert chunk_id chunk_id now room ∙ rw (==_refl chunk_id) refl in
    (omega (arith, inserted, free), ap (is_recent later epoch) own)
