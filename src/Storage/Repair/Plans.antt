-- ===== src/Storage/Repair/Plans.antt =====
-- When a plan of repair is made, and when it cannot be.
use static.Common.{
  ℕ, suc, ◌≡◌, ◌<◌, refl, sym, ap, ◌∙◌, Bool, true, false, not, none, some, List, [], ◌∷◌, map,
  length, filter, ltb, leb, if◌then◌else◌, arith, Bool-cases, inl, inr,
}
use mathlib.Core.Option.{some-injective}
use static.HashMap.{HashMap, get}
use static.HashMap.Shuffled.{length-filter-le}
use static.Storage.Files.{ContentManifest}
use static.Storage.Repair.{
  ChunkHealth, RepairPlan, has_copy, check_chunks, check_content_health, get_chunks_needing_repair,
  create_repair_plan, or_zero, min_chunk_copies,
}

length-check_chunks :
    (counts : HashMap ℕ) (ids : List ℕ) → length (check_chunks counts ids).0 ≡ length ids
unfolding check_chunks
length-check_chunks counts [] = refl
length-check_chunks counts (id ∷ ids) = ap suc (length-check_chunks counts ids)

-- A content with fewer chunks than its manifest has data shards gets no plan of repair, whatever
-- copies there are.
pub small_content_unrepaired :
    (content_id : ℕ) (manifest : ContentManifest) (copy_counts : HashMap ℕ)
    → length manifest.chunk_ids < manifest.data_shards
    → create_repair_plan (check_content_health content_id manifest copy_counts) manifest ≡ none
unfolding create_repair_plan check_content_health
small_content_unrepaired content_id manifest copy_counts few =
    let checked = (check_chunks copy_counts manifest.chunk_ids).0 in
    let all = length-check_chunks copy_counts manifest.chunk_ids in
    let some_held = length-filter-le has_copy checked in
    let unrecoverable : leb manifest.data_shards (length (filter has_copy checked)) ≡ false =
      ground (arith, few, all, some_held) in
    ground (arith, unrecoverable)

-- The ids below the minimum of copies, counted straight from the reports.
abbrev pub scarce : HashMap ℕ → ℕ → Bool
scarce copy_counts id = ltb (or_zero (get id copy_counts)) min_chunk_copies

needing-check_chunks :
    (counts : HashMap ℕ) (ids : List ℕ)
    → map
        (λ (h : ChunkHealth). h.chunk_id)
        (filter (λ (h : ChunkHealth). h.needs_repair) (check_chunks counts ids).0)
      ≡ filter (scarce counts) ids
unfolding check_chunks filter
needing-check_chunks counts [] = refl
needing-check_chunks counts (id ∷ ids) = elim (Bool-cases (scarce counts id)) [
  | inl e ↦ rw e (ap (◌∷◌ id) (needing-check_chunks counts ids))
  | inr e ↦ rw e (needing-check_chunks counts ids)
]

plan_made :
    (healthy recoverable : Bool) (made plan : RepairPlan)
    → (if healthy then none else if not recoverable then none else some made) ≡ some plan
    → made ≡ plan
plan_made true recoverable made plan e = absurd (ground (arith, e))
plan_made false false made plan e = absurd (ground (arith, e))
plan_made false true made plan e = some-injective made plan e

-- A plan that is made reconstructs exactly the chunks of the content with fewer than three reported
-- copies, in their order, and distributes all of its chunks again.
pub create_repair_plan_lem :
    (content_id : ℕ) (manifest : ContentManifest) (copy_counts : HashMap ℕ) (plan : RepairPlan)
    → create_repair_plan (check_content_health content_id manifest copy_counts) manifest ≡ some plan
    → (plan.chunks_to_reconstruct ≡ filter (scarce copy_counts) manifest.chunk_ids)
      × (plan.chunks_to_redistribute ≡ manifest.chunk_ids)
      × (plan.content_id ≡ content_id)
unfolding create_repair_plan check_content_health get_chunks_needing_repair
create_repair_plan_lem content_id manifest copy_counts plan e =
    let checked = check_chunks copy_counts manifest.chunk_ids in
    let same =
      plan_made checked.1 (leb manifest.data_shards (length (filter has_copy checked.0)))
        (record {
          content_id = content_id;
          chunks_to_reconstruct =
              map (λ (h : ChunkHealth). h.chunk_id)
                (filter (λ (h : ChunkHealth). h.needs_repair) checked.0);
          chunks_to_redistribute = manifest.chunk_ids;
          target_copies = min_chunk_copies;
        })
        plan e in
    (
      sym (ap (λ (p : RepairPlan). p.chunks_to_reconstruct) same)
          ∙ needing-check_chunks copy_counts manifest.chunk_ids,
      sym (ap (λ (p : RepairPlan). p.chunks_to_redistribute) same),
      sym (ap (λ (p : RepairPlan). p.content_id) same),
    )
