-- ===== src/Accounting/Sponsors/Laws.antt =====
-- The limit on sponsored seeds, and what three violations do.
use static.Common.{ℕ, ◌≤◌, ◌≡◌, refl, [], ◌∷◌, arith, Option-cases, inl, inr}
use static.HashMap.{HashMap, get, modify}
use static.HashMap.Sums.{sum_of, sum_of-insert_absent, sum_of-modify_same}
use static.Accounting.State.{AccountingState, SponsoredSeedInfo}
use static.Accounting.Sponsors.{
  registered, max_sponsored_seeds, new_seed, renew, heard, violated, counted, sponsor_seed_count,
  can_sponsor, is_sponsored, register_sponsored_seed, record_seed_heartbeat, record_seed_violation,
}

sum_of-modify-violated :
    (seed : ℕ) (m : HashMap SponsoredSeedInfo)
    → sum_of counted (modify seed violated m) ≤ sum_of counted m
unfolding sum_of modify
sum_of-modify-violated seed [] = omega arith
sum_of-modify-violated seed ((k, info) ∷ m) = ground (arith, sum_of-modify-violated seed m)

module _ {F64 : Type 0} where
  -- The changes that seeds bring about, one at a time.
  pub data Step : AccountingState F64 → AccountingState F64 → Type 0 where
    register :
        (seed content_id prepaid_bytes now : ℕ) (s t : AccountingState F64)
        → register_sponsored_seed seed content_id prepaid_bytes now s ≡ registered t
        → Step s t
    heartbeat : (seed now : ℕ) (s : AccountingState F64) → Step s (record_seed_heartbeat seed now s)
    violation : (seed : ℕ) (s : AccountingState F64) → Step s (record_seed_violation seed s)

  pub data Run : AccountingState F64 → AccountingState F64 → Type 0 where
    done : (s : AccountingState F64) → Run s s
    more : (s t u : AccountingState F64) → Step s t → Run t u → Run s u

  registered_count :
      (seed content_id prepaid_bytes now : ℕ) (s t : AccountingState F64)
      → register_sponsored_seed seed content_id prepaid_bytes now s ≡ registered t
      → sponsor_seed_count s ≤ max_sponsored_seeds
      → sponsor_seed_count t ≤ max_sponsored_seeds
  unfolding register_sponsored_seed is_sponsored can_sponsor sponsor_seed_count
  registered_count seed content_id prepaid_bytes now s t e small =
      let info = new_seed seed content_id prepaid_bytes now in
      let same =
        sum_of-modify_same counted seed (renew content_id prepaid_bytes now) s.sponsored_seeds
          (λ v. refl) in
      elim (Option-cases (get seed s.sponsored_seeds)) [
        | inl absent ↦
            let one_more = sum_of-insert_absent counted seed info s.sponsored_seeds absent in
            ground (arith, absent, one_more, small, e)
        | inr (v, present) ↦ ground (arith, present, same, small, e)
      ]

  step_count :
      (s t : AccountingState F64)
      → Step s t
      → sponsor_seed_count s ≤ max_sponsored_seeds
      → sponsor_seed_count t ≤ max_sponsored_seeds
  unfolding sponsor_seed_count record_seed_heartbeat record_seed_violation
  step_count s t (register seed content_id prepaid_bytes now _ _ e) small =
      registered_count seed content_id prepaid_bytes now s t e small
  step_count s t (heartbeat seed now _) small =
      omega (arith, sum_of-modify_same counted seed (heard now) s.sponsored_seeds (λ v. refl))
  step_count s t (violation seed _) small =
      omega (arith, sum_of-modify-violated seed s.sponsored_seeds)

  -- However registrations, heartbeats and violations follow one another, a node that sponsors at
  -- most five well-behaved seeds goes on to sponsor at most five.
  pub sponsor_seed_count-Run :
      (s t : AccountingState F64)
      → Run s t
      → sponsor_seed_count s ≤ max_sponsored_seeds
      → sponsor_seed_count t ≤ max_sponsored_seeds
  sponsor_seed_count-Run s t (done _) small = small
  sponsor_seed_count-Run s t (more _ u _ step run) small =
      sponsor_seed_count-Run u t run (step_count s u step small)
