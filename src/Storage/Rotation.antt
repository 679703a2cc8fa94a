-- ===== src/Storage/Rotation.antt =====
-- crates/static-storage/src/rotation.rs: which chunks move on, and what is cached. The shuffle is an
-- argument, and `Pick` the first key of the history.
pub mod Selection
use static.Common.{
  ℕ, suc, ◌*◌, ◌/◌, ◌-◌, Bool, true, false, not, Option, none, some, List, [], ◌∷◌, length, filter,
  take, min, ltb, leb, if◌then◌else◌, add64,
}
use static.HashMap.{HashMap, Pick, get, insert, remove, make_room}

pub record RotationConfig : Type 0 where
  pub enabled : Bool
  pub epoch_duration_secs : ℕ
  pub rotation_percentage : ℕ
  pub enable_caching : Bool
  pub max_cached_chunks : ℕ
  pub min_lease_remaining_secs : ℕ

abbrev pub max_rotation_history : ℕ
max_rotation_history = 10000

pub record RotationState : Type 0 where
  pub rotation_history : HashMap ℕ
  pub cached_chunks : HashMap ℕ
  pub last_epoch : ℕ
  pub total_rotations : ℕ
  pub total_cached : ℕ

unfoldable pub should_rotate : RotationConfig → ℕ → RotationState → Bool
should_rotate config current_time s =
    if not config.enabled
    then false
    else leb config.epoch_duration_secs (current_time - s.last_epoch)

unfoldable pub record_rotation : Pick → ℕ → ℕ → RotationState → RotationState
record_rotation pick chunk_id current_time s = record s {
  rotation_history =
      insert chunk_id current_time (make_room max_rotation_history pick s.rotation_history);
  total_rotations = add64 s.total_rotations 1;
}

unfoldable pub record_cache : ℕ → ℕ → RotationState → RotationState
record_cache chunk_id current_time s = record s {
  cached_chunks = insert chunk_id current_time s.cached_chunks;
  total_cached = add64 s.total_cached 1;
}

unfoldable pub remove_cache : ℕ → RotationState → RotationState
remove_cache chunk_id s = record s { cached_chunks = remove chunk_id s.cached_chunks }

abbrev pub is_recent : ℕ → ℕ → Option ℕ → Bool
is_recent current_time epoch_duration none = false
is_recent current_time epoch_duration (some rotation_time) =
    ltb (current_time - rotation_time) epoch_duration

unfoldable pub was_recently_rotated : ℕ → ℕ → ℕ → RotationState → Bool
was_recently_rotated chunk_id current_time epoch_duration s =
    is_recent current_time epoch_duration (get chunk_id s.rotation_history)

unfoldable pub select_chunks_for_rotation :
    (List ℕ → List ℕ) → List ℕ → RotationConfig → ℕ → RotationState → List ℕ
select_chunks_for_rotation shuffle all_chunks config current_time s =
    let eligible =
      filter (λ id. not (was_recently_rotated id current_time config.epoch_duration_secs s))
        all_chunks in
    take (length eligible * min config.rotation_percentage 100 / 100) (shuffle eligible)

-- `min_by_key`, the first of the least times.
abbrev pub least : HashMap ℕ → Option (ℕ × ℕ)
least [] = none
least ((id, time) ∷ m) = least_of id time (least m)
  where
    least_of : ℕ → ℕ → Option (ℕ × ℕ) → Option (ℕ × ℕ)
    least_of id time none = some (id, time)
    least_of id time (some e) = if leb time e.1 then some (id, time) else some e

unfoldable pub lru_cached_chunk : RotationState → Option ℕ
lru_cached_chunk s = map_key (least s.cached_chunks)
  where
    map_key : Option (ℕ × ℕ) → Option ℕ
    map_key none = none
    map_key (some e) = some e.0
