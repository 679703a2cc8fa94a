-- ===== src/Storage/Seeds.antt =====
-- crates/static-storage/src/heartbeat.rs, `SeedManager`: the nodes that may send the heartbeats of a
-- content. An address is the bytes of its text.
use static.Common.{
  ℕ, ◌≡◌, refl, inl, inr, Bool, true, false, not, Option, none, some, List, [], ◌∷◌, ◌++◌, map,
  filter, arith, ◌==◌, if◌then◌else◌, Bool-cases, Option-cases,
}
use static.HashMap.{HashMap, get, insert, modify}
use static.HashMap.Laws.{get-modify, modify_absent}

pub record SeedNodeConfig : Type 0 where
  pub node_id : ℕ
  pub address : List ℕ
  pub active : Bool

abbrev pub SeedManager : Type 0
SeedManager = HashMap (List SeedNodeConfig)

abbrev pub seeds_of : Option (List SeedNodeConfig) → List SeedNodeConfig
seeds_of none = []
seeds_of (some seeds) = seeds

unfoldable pub add_seed : SeedManager → ℕ → SeedNodeConfig → SeedManager
add_seed m content_id seed = insert content_id (seeds_of (get content_id m) ++ (seed ∷ [])) m

unfoldable pub get_active_seeds : SeedManager → ℕ → List SeedNodeConfig
get_active_seeds m content_id = filter (λ s. s.active) (seeds_of (get content_id m))

abbrev pub deactivate : ℕ → SeedNodeConfig → SeedNodeConfig
deactivate node_id s = if s.node_id == node_id then record s { active = false } else s

unfoldable pub mark_inactive : SeedManager → ℕ → ℕ → SeedManager
mark_inactive m content_id node_id = modify content_id (map (deactivate node_id)) m

unfoldable pub has_active_seeds : SeedManager → ℕ → Bool
has_active_seeds m content_id = elim (get_active_seeds m content_id) [ [] ↦ false | _ ∷ _ ↦ true ]

-- The loop of `get_orphaned_content` over the entries, each looked up in the whole map.
unfoldable pub orphans : SeedManager → SeedManager → List ℕ
orphans all [] = []
orphans all ((content_id, _) ∷ m) =
    let rest = orphans all m in if has_active_seeds all content_id then rest else content_id ∷ rest

unfoldable pub get_orphaned_content : SeedManager → List ℕ
get_orphaned_content m = orphans m m

filter-deactivate :
    (node_id : ℕ) (seeds : List SeedNodeConfig)
    → filter (λ s. s.active) (map (deactivate node_id) seeds)
      ≡ filter (λ s. not (s.node_id == node_id)) (filter (λ s. s.active) seeds)
unfolding filter
filter-deactivate node_id [] = refl
filter-deactivate node_id (s ∷ seeds) = ground (arith, filter-deactivate node_id seeds)

-- What `mark_inactive` leaves under a content.
seeds_of-mark_inactive :
    (m : SeedManager) (content_id node_id j : ℕ)
    → seeds_of (get j (mark_inactive m content_id node_id)) ≡ (
        if content_id == j
        then map (deactivate node_id) (seeds_of (get j m))
        else seeds_of (get j m))
unfolding mark_inactive
seeds_of-mark_inactive m content_id node_id j = elim (Option-cases (get content_id m)) [
  | inl a ↦
      rw (modify_absent content_id (map (deactivate node_id)) m a)
        (elim (Bool-cases (content_id == j)) [
          | inr other ↦ rw other refl
          | inl here ↦
              let same : j ≡ content_id = ground (arith, here) in
              let none_there : get j m ≡ none = rw same a in rw (here, none_there) refl
        ])
  | inr (seeds, e) ↦
      rw (get-modify content_id j (map (deactivate node_id)) seeds m e)
        (elim (Bool-cases (content_id == j)) [
          | inr other ↦ rw other refl
          | inl here ↦
              let same : j ≡ content_id = ground (arith, here) in
              let there : get j m ≡ some seeds = rw same e in rw (here, there) refl
        ])
]

-- Marking a node inactive for a content takes exactly that node's seeds from the content's active
-- seeds, in their order, and no other content's seeds change.
pub get_active_seeds-mark_inactive :
    (m : SeedManager) (content_id node_id j : ℕ)
    → get_active_seeds (mark_inactive m content_id node_id) j ≡ (
        if content_id == j
        then filter (λ s. not (s.node_id == node_id)) (get_active_seeds m j)
        else get_active_seeds m j)
unfolding get_active_seeds
get_active_seeds-mark_inactive m content_id node_id j =
    rw (seeds_of-mark_inactive m content_id node_id j) (elim (Bool-cases (content_id == j)) [
      | inl here ↦ rw here (filter-deactivate node_id (seeds_of (get j m)))
      | inr other ↦ rw other refl
    ])
