-- ===== src/Storage/Repair/Examples.antt =====
-- The theorems on repair and rotation at concrete contents.
use mathlib.Core.List.{Perm}
use mathlib.Core.List.Perm
use static.Common.{◌++◌, ℕ, ◌*◌, ◌/◌, ◌≡◌, refl, true, List, [], ◌∷◌, length, filter, min, All}
use static.HashMap.{HashMap, get}
use static.Storage.Files.{ContentManifest}
use static.Storage.Repair.{
  RepairPlan, check_content_health, check_chunks, create_repair_plan, get_chunks_needing_repair,
}
use static.Storage.Repair.Plans.{scarce, create_repair_plan_lem}
use static.Storage.Rotation.{RotationConfig, RotationState, select_chunks_for_rotation}
use static.Storage.Rotation.Selection.{is_eligible, select_chunks_for_rotation_lem}

abbrev a_manifest : ContentManifest
a_manifest = record {
  content_id = 50;
  encrypted_master_key = [];
  chunk_ids = 1 ∷ (2 ∷ []);
  original_size = 2000000;
  data_shards = 1;
  parity_shards = 1;
  nonce = 7;
  segment_hashes = [];
}

abbrev reported : HashMap ℕ
reported = (1, 4) ∷ ((2, 1) ∷ [])

abbrev a_plan : RepairPlan
a_plan = record {
  content_id = 50;
  chunks_to_reconstruct = 2 ∷ [];
  chunks_to_redistribute = 1 ∷ (2 ∷ []);
  target_copies = 3;
}

create_repair_plan_example :
    (a_plan.chunks_to_reconstruct ≡ filter (scarce reported) a_manifest.chunk_ids)
    × (a_plan.chunks_to_redistribute ≡ a_manifest.chunk_ids)
    × (a_plan.content_id ≡ 50)
unfolding create_repair_plan check_content_health check_chunks get_chunks_needing_repair get filter
create_repair_plan_example = create_repair_plan_lem 50 a_manifest reported a_plan refl

abbrev config : RotationConfig
config = record {
  enabled = true;
  epoch_duration_secs = 86400;
  rotation_percentage = 50;
  enable_caching = true;
  max_cached_chunks = 100;
  min_lease_remaining_secs = 3600;
}

abbrev rotated : RotationState
rotated = record {
  rotation_history = (1, 100000) ∷ [];
  cached_chunks = [];
  last_epoch = 0;
  total_rotations = 1;
  total_cached = 0;
}

abbrev held : List ℕ
held = 1 ∷ (2 ∷ (3 ∷ []))

select_chunks_for_rotation_example :
    (length (select_chunks_for_rotation (λ ids. ids) held config 100010 rotated)
      ≡ length (filter (is_eligible config 100010 rotated) held) * min 50 100 / 100)
    × All
        (λ id. is_eligible config 100010 rotated id ≡ true)
        (select_chunks_for_rotation (λ ids. ids) held config 100010 rotated)
    × (rest : List ℕ) × Perm
        (filter (is_eligible config 100010 rotated) held)
        (select_chunks_for_rotation (λ ids. ids) held config 100010 rotated ++ rest)
select_chunks_for_rotation_example =
    select_chunks_for_rotation_lem (λ ids. ids) held config 100010 rotated Perm.refl
