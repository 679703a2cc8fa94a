-- ===== src/Storage/Repair.antt =====
-- crates/static-storage/src/repair.rs: the health of a content, plans of repair and their tracking.
-- The two calls of the erasure code pass their arguments on.
pub mod Plans
mod Examples
use static.Common.{
  ℕ, Bool, true, false, not, ◌&&◌, Option, none, some, List, [], ◌∷◌, ◌++◌, map, length, filter,
  ltb, leb, if◌then◌else◌,
}
use static.HashMap.{HashMap, get, insert, remove, contains_key}
use static.Storage.Files.{ContentManifest}

abbrev pub min_chunk_copies : ℕ
min_chunk_copies = 3

pub record ChunkHealth : Type 0 where
  pub chunk_id : ℕ
  pub copy_count : ℕ
  pub needs_repair : Bool

pub record ContentHealth : Type 0 where
  pub content_id : ℕ
  pub chunk_health : List ChunkHealth
  pub is_healthy : Bool
  pub is_recoverable : Bool

abbrev pub or_zero : Option ℕ → ℕ
or_zero none = 0
or_zero (some n) = n

abbrev pub health_of : HashMap ℕ → ℕ → ChunkHealth
health_of copy_counts chunk_id =
    let count = or_zero (get chunk_id copy_counts) in
    record { chunk_id = chunk_id; copy_count = count; needs_repair = ltb count min_chunk_copies }

-- The loop over the chunks, which clears the flag on the first chunk that needs repair.
unfoldable pub check_chunks : HashMap ℕ → List ℕ → List ChunkHealth × Bool
check_chunks copy_counts [] = ([], true)
check_chunks copy_counts (id ∷ ids) =
    let rest = check_chunks copy_counts ids in
    let health = health_of copy_counts id in (health ∷ rest.0, not health.needs_repair && rest.1)

abbrev pub has_copy : ChunkHealth → Bool
has_copy h = ltb 0 h.copy_count

unfoldable pub check_content_health : ℕ → ContentManifest → HashMap ℕ → ContentHealth
check_content_health content_id manifest copy_counts =
    let checked = check_chunks copy_counts manifest.chunk_ids in
    record {
      content_id = content_id;
      chunk_health = checked.0;
      is_healthy = checked.1;
      is_recoverable = leb manifest.data_shards (length (filter has_copy checked.0));
    }

unfoldable pub get_chunks_needing_repair : ContentHealth → List ℕ
get_chunks_needing_repair health =
    map (λ (h : ChunkHealth). h.chunk_id)
      (filter (λ (h : ChunkHealth). h.needs_repair) health.chunk_health)

pub record RepairPlan : Type 0 where
  pub content_id : ℕ
  pub chunks_to_reconstruct : List ℕ
  pub chunks_to_redistribute : List ℕ
  pub target_copies : ℕ

unfoldable pub create_repair_plan : ContentHealth → ContentManifest → Option RepairPlan
create_repair_plan health manifest =
    if health.is_healthy
    then none
    else if not health.is_recoverable
    then none
    else some (record {
      content_id = health.content_id;
      chunks_to_reconstruct = get_chunks_needing_repair health;
      chunks_to_redistribute = manifest.chunk_ids;
      target_copies = min_chunk_copies;
    })

pub record RepairState : Type 0 where
  pub active_repairs : HashMap RepairPlan
  pub completed_repairs : List ℕ
  pub failed_repairs : List ℕ

abbrev pub new : RepairState
new = record { active_repairs = []; completed_repairs = []; failed_repairs = [] }

unfoldable pub start_repair : RepairPlan → RepairState → RepairState
start_repair plan s = record s { active_repairs = insert plan.content_id plan s.active_repairs }

unfoldable pub complete_repair : ℕ → RepairState → RepairState
complete_repair content_id s = record s {
  active_repairs = remove content_id s.active_repairs;
  completed_repairs = s.completed_repairs ++ (content_id ∷ []);
}

unfoldable pub fail_repair : ℕ → RepairState → RepairState
fail_repair content_id s = record s {
  active_repairs = remove content_id s.active_repairs;
  failed_repairs = s.failed_repairs ++ (content_id ∷ []);
}

abbrev pub is_being_repaired : ℕ → RepairState → Bool
is_being_repaired content_id s = contains_key content_id s.active_repairs
