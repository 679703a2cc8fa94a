-- ===== src/Accounting/Examples.antt =====
-- The accounting theorems at concrete values, over exact fractions for floats.
use static.Common.{
  ℕ, ◌*◌, ◌+◌, ◌-◌, ◌≤◌, ◌≡◌, false, length, List, refl, true, [], ◌∷◌, leb, ltb, arith,
  if◌then◌else◌,
}
use static.HashMap.{get, insert, remove}
use static.HashMap.Sums.{sum_of}
use static.Storage.Examples.{toy}
use static.Accounting.Credit.{Floats, FloatsLaws, PeerCredit}
use static.Accounting.Credit
use static.Storage.Crypto.{Crypto}
use static.Accounting.State.{AccountingState, SponsoredSeedInfo}
use static.Accounting.Service.{
  should_serve, serve_each, tit_for_tat_decision, failing_peer_denied, served_peer_served_again,
}
use static.Accounting.Sponsors.{
  register_sponsored_seed, is_sponsored, can_sponsor, record_seed_violation, sponsor_seed_count,
  new_seed, max_sponsored_seeds,
}
use static.Accounting.Sponsors.Laws.{Run, register, done, more, sponsor_seed_count-Run}
use static.Accounting.Prepayments.{
  check_prepay_rate_limit, record_prepay_attempt, check-record_prepay_attempt,
}
use static.Accounting.Reconcile.{reconcile, export_for_reconciliation}
use static.Accounting.Reconcile.Register.{reconcile-replay, replay}
use static.Accounting.Reconcile.Convergence.{
  reconcile_each, reconcile_idempotent, heal_agrees, stamp,
}
use static.Accounting.Challenge.{
  verify_proof, create_proof, create_challenge, proof_input, valid, invalid, challenge_expired,
  proof_failed, verify_proof-create_proof,
}

-- A fraction is a numerator and a denominator; infinity has the denominator 0.
abbrev fractions : Floats
fractions = record {
  F64 = ℕ × ℕ;
  infinity = (1, 0);
  half = (1, 2);
  one = (1, 1);
  quotient = λ a b. (a, b);
  lt = λ x y. ltb (x.0 * y.1) (y.0 * x.1);
  le = λ x y. leb (x.0 * y.1) (y.0 * x.1);
}

abbrev seed_info : SponsoredSeedInfo
seed_info = new_seed 21 8 500 100

abbrev credit_at : ℕ → ℕ → PeerCredit
credit_at served t = record Credit.new { bytes_served = served; last_interaction = t }

abbrev failing : PeerCredit
failing = record Credit.new { successful_challenges = 2; failed_challenges = 9 }

abbrev state : AccountingState (ℕ × ℕ)
state = record {
  total_bytes_served = 0;
  total_bytes_received = 0;
  peers = (1, credit_at 5 100) ∷ ((2, failing) ∷ []);
  min_ratio = (1, 2);
  initial_credit = 1048576;
  sponsored_seeds = (21, seed_info) ∷ [];
  prepayment_attempts = (7, 90) ∷ [];
  peer_sync_times = [];
}

abbrev other_state : AccountingState (ℕ × ℕ)
other_state = record state { peers = (3, credit_at 6 90) ∷ ((1, credit_at 8 120) ∷ []) }

fractions-laws : FloatsLaws fractions
fractions-laws = record {
  le-infinity = λ x. ground arith;
  lt-quotient-half = λ a b ha hb nonzero. ground arith;
}

failing_peer_denied_example : tit_for_tat_decision fractions (1, 4) 2 10 state ≡ false
unfolding get
failing_peer_denied_example =
    failing_peer_denied fractions (1, 4) 2 10 failing state fractions-laws refl (omega arith)
      (omega arith) (omega arith)

served_peer_served_again_example :
    should_serve fractions 3 1000000000 (serve_each 3 ((100, 1) ∷ ((101, 1000000000) ∷ [])) state)
    ≡ true
unfolding get
served_peer_served_again_example =
    served_peer_served_again fractions 3 1000000000 ((100, 1) ∷ ((101, 1000000000) ∷ [])) state
      fractions-laws refl (omega arith) (omega arith)

abbrev registered_state : AccountingState (ℕ × ℕ)
registered_state = record state {
  sponsored_seeds = (22, new_seed 22 9 700 110) ∷ ((21, seed_info) ∷ []);
}

registered-Run : Run state registered_state
unfolding register_sponsored_seed is_sponsored can_sponsor sponsor_seed_count get sum_of insert
    remove
registered-Run =
    more state registered_state registered_state (register 22 9 700 110 state registered_state refl)
      (done registered_state)

sponsor_seed_count-Run_example : sponsor_seed_count registered_state ≤ max_sponsored_seeds
unfolding sponsor_seed_count sum_of
sponsor_seed_count-Run_example =
    sponsor_seed_count-Run state registered_state registered-Run (omega arith)

thrice_violated : AccountingState (ℕ × ℕ)
thrice_violated =
    record_seed_violation 21 (record_seed_violation 21 (record_seed_violation 21 state))

check-record_prepay_attempt_example :
    (check_prepay_rate_limit 0 5 4000 (record_prepay_attempt (λ ks. 0) 0 5 100 state)
      ≡ leb 3600 (4000 - 100))
    × (check_prepay_rate_limit 0 7 4000 (record_prepay_attempt (λ ks. 0) 0 5 100 state)
        ≡ check_prepay_rate_limit 0 7 4000 state)
unfolding get
check-record_prepay_attempt_example =
    check-record_prepay_attempt (λ ks. 0) 0 5 0 7 100 4000 state (refl, tt) (omega arith)
      (omega arith) (omega arith)

reconcile-replay_example :
    get 1 (reconcile 130 other_state.peers state).peers
    ≡ replay 130 1 other_state.peers (get 1 state.peers)
reconcile-replay_example = reconcile-replay 130 1 other_state.peers state

abbrev a_later_batch : List (ℕ × List (ℕ × PeerCredit))
a_later_batch = (150, (3, credit_at 7 140) ∷ []) ∷ []

reconcile_idempotent_example :
    reconcile 900 other_state.peers
      (reconcile_each a_later_batch (reconcile 130 other_state.peers state))
    ≡ reconcile_each a_later_batch (reconcile 130 other_state.peers state)
reconcile_idempotent_example =
    reconcile_idempotent 130 900 other_state.peers a_later_batch state
      (omega arith, (omega arith, tt))

heal_agrees_example :
    stamp (get 1 (reconcile 130 (export_for_reconciliation other_state) state).peers)
    ≡ stamp (get 1 (reconcile 130 (export_for_reconciliation state) other_state).peers)
unfolding get
heal_agrees_example =
    heal_agrees 130 1 state other_state (refl, (refl, tt)) (refl, (refl, tt)) (refl, (refl, tt))
      (refl, (refl, tt))

abbrev two_chunk : List ℕ
two_chunk = 1 ∷ (2 ∷ [])

-- A digest that is the length.
abbrev sized : Crypto
sized = record toy { hash = λ bytes. length bytes }

verify_proof-create_proof_example :
    (verify_proof sized (create_proof sized (create_challenge 9 100 3 4 60) two_chunk) two_chunk 120
      ≡ (if ltb (100 + 60) 120 then invalid challenge_expired else valid))
    × (verify_proof sized (create_proof sized (create_challenge 9 100 3 4 60) []) two_chunk 120
        ≡ (if ltb (100 + 60) 120 then invalid challenge_expired else invalid proof_failed))
unfolding proof_input
verify_proof-create_proof_example =
    verify_proof-create_proof sized 9 100 3 4 60 120 two_chunk [] (create_challenge 9 100 3 4 60)
      (omega arith) refl (omega arith)
