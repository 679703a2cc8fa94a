-- ===== src/Accounting/Service.antt =====
-- crates/static-accounting/src/lib.rs: whom a node serves (`should_serve`, `tit_for_tat_decision`).
use static.Common.{
  ℕ, ◌+◌, ◌*◌, ◌^◌, ◌<◌, ◌≡◌, refl, Bool, true, false, ◌&&◌, ◌||◌, not, none, some, leb, ltb, ◌==◌,
  if◌then◌else◌, saturating_add64, u32_mod, arith, ◌∙◌, ap, Option, List, [], ◌∷◌, subst,
}
use static.HashMap.{get}
use static.HashMap.Laws.{get-insert, get-modify}
use static.Accounting.Credit.{
  Floats, FloatsLaws, PeerCredit, signed_gt, signed_ge, has_credit, has_prepaid, effective_credit,
  total_challenges, ratio, challenge_success_rate,
}
use static.Accounting.Credit
use static.Accounting.State.{AccountingState, record_served, with_peer}

-- Never served, and within base credit plus any prepaid extension.
abbrev pub goodwill : ℕ → ℕ → PeerCredit → Bool
goodwill initial requested_bytes c =
    (c.bytes_served == 0)
    && leb (saturating_add64 c.bytes_received requested_bytes)
        (saturating_add64 initial c.prepaid_bytes)

abbrev pub credit_ok : ℕ → ℕ → PeerCredit → Bool
credit_ok initial requested_bytes c =
    has_credit requested_bytes c
    || (has_prepaid requested_bytes c
        || (signed_gt (effective_credit c) 0 || goodwill initial requested_bytes c))

-- The bytes of a sequence of calls, each a time and a number of bytes.
abbrev pub total : List (ℕ × ℕ) → ℕ
total [] = 0
total ((now, bytes) ∷ calls) = bytes + total calls

abbrev pub serve_each :
    {F64 : Type 0} → ℕ → List (ℕ × ℕ) → AccountingState F64 → AccountingState F64
serve_each peer [] s = s
serve_each peer ((now, bytes) ∷ calls) s = serve_each peer calls (record_served now peer bytes s)

-- A peer to which so many bytes went, and of which nothing else is known.
pub record OnlyServed (n : ℕ) (c : PeerCredit) : Type 0 where
  pub served : c.bytes_served ≡ n
  pub credit : c.net_credit ≡ n
  pub received : c.bytes_received ≡ 0
  pub passed : c.successful_challenges ≡ 0
  pub failed : c.failed_challenges ≡ 0
  pub prepaid : c.prepaid_bytes ≡ 0

module _ (f : Floats) where
  -- The gate on failed challenges, which denies whatever the credit.
  unfoldable pub fails_challenges : PeerCredit → Bool
  fails_challenges c = ltb 10 (total_challenges c) && f.lt (challenge_success_rate f c) f.half

  unfoldable pub ratio_ok : f.F64 → ℕ → ℕ → PeerCredit → Bool
  ratio_ok min_ratio initial requested_bytes c =
      f.le min_ratio (ratio f c) || goodwill initial requested_bytes c

  -- The decision, given what is recorded of the peer.
  unfoldable pub serves : AccountingState f.F64 → ℕ → Option PeerCredit → Bool
  serves s requested_bytes none = leb requested_bytes s.initial_credit
  serves s requested_bytes (some c) =
      if fails_challenges c
      then false
      else credit_ok s.initial_credit requested_bytes c
        && ratio_ok s.min_ratio s.initial_credit requested_bytes c

  unfoldable pub should_serve : ℕ → ℕ → AccountingState f.F64 → Bool
  should_serve peer requested_bytes s = serves s requested_bytes (get peer s.peers)

  unfoldable pub tit_for_tat_decision : f.F64 → ℕ → ℕ → AccountingState f.F64 → Bool
  tit_for_tat_decision min_rate peer requested_bytes s =
      if not (should_serve peer requested_bytes s) then false else elim (get peer s.peers) [
        | none ↦ true
        | some c ↦ if f.lt (challenge_success_rate f c) min_rate then false else true
      ]

  fails_challenges-worse :
      (c : PeerCredit)
      → FloatsLaws f
      → 10 < c.successful_challenges + c.failed_challenges
      → c.successful_challenges + c.failed_challenges < u32_mod
      → c.successful_challenges < c.failed_challenges
      → fails_challenges c ≡ true
  unfolding fails_challenges challenge_success_rate
  fails_challenges-worse c l many few worse =
      let total : total_challenges c ≡ c.successful_challenges + c.failed_challenges =
        omega (arith, few) in
      let low =
        l.lt-quotient-half c.successful_challenges (total_challenges c) (omega arith) (omega arith)
          (omega arith) in
      let below : ltb (2 * c.successful_challenges) (total_challenges c) ≡ true = ground arith in
      ground (arith, low, below)

  -- A peer that failed more than half of more than ten challenges is served nothing, whatever its
  -- credit, its prepayments and the rate that the caller asks for.
  pub failing_peer_denied :
      (min_rate : f.F64) (peer requested_bytes : ℕ) (c : PeerCredit) (s : AccountingState f.F64)
      → FloatsLaws f
      → get peer s.peers ≡ some c
      → 10 < c.successful_challenges + c.failed_challenges
      → c.successful_challenges + c.failed_challenges < u32_mod
      → c.successful_challenges < c.failed_challenges
      → tit_for_tat_decision min_rate peer requested_bytes s ≡ false
  unfolding tit_for_tat_decision should_serve serves
  failing_peer_denied min_rate peer requested_bytes c s l e many few worse =
      let denied : serves s requested_bytes (some c) ≡ false =
        ground (arith, fails_challenges-worse c l many few worse) in
      rw (e, denied) refl

  -- Whoever has only ever been served, fewer than 2^63 bytes in total, is served every request.
  serves-OnlyServed :
      (requested_bytes n : ℕ) (c : PeerCredit) (s : AccountingState f.F64)
      → FloatsLaws f
      → OnlyServed n c
      → 0 < n
      → n < 2 ^ 63
      → serves s requested_bytes (some c) ≡ true
  unfolding serves fails_challenges ratio_ok ratio signed_gt
  serves-OnlyServed requested_bytes n c s l o some_bytes small =
      ground (arith, o.credit, o.received, o.passed, o.failed, o.prepaid, l.le-infinity s.min_ratio)

  serve_each-OnlyServed :
      (peer n : ℕ) (calls : List (ℕ × ℕ)) (c : PeerCredit) (s : AccountingState f.F64)
      → get peer s.peers ≡ some c
      → OnlyServed n c
      → n + total calls < 2 ^ 63
      → (c' : PeerCredit) × (get peer (serve_each peer calls s).peers ≡ some c')
        × OnlyServed (n + total calls) c'
  unfolding record_served with_peer
  serve_each-OnlyServed peer n [] c s e o small =
      (c, e, subst (λ k. OnlyServed k c) (omega arith) o)
  serve_each-OnlyServed peer n ((now, bytes) ∷ calls) c s e o small =
      let credit = Credit.record_served bytes now c in
      let found : get peer (record_served now peer bytes s).peers ≡ some credit =
        rw e (get-modify peer peer (Credit.record_served bytes now) c s.peers e ∙ ground arith) in
      let (c', e', o') =
        serve_each-OnlyServed peer (n + bytes) calls credit (record_served now peer bytes s) found
          (record {
            served = omega (arith, o.served, small);
            credit = omega (arith, o.credit, small);
            received = o.received;
            passed = o.passed;
            failed = o.failed;
            prepaid = o.prepaid;
          })
          (omega (arith, small)) in
      (c', e', subst (λ k. OnlyServed k c') (omega arith) o')

  -- A peer that is unknown at first and then only served, in however many calls, is served every
  -- request, though it never gave anything back, while the bytes of these calls are more than none and
  -- fewer than 2^63 in total: its traffic counts as its credit.
  pub served_peer_served_again :
      (peer requested_bytes : ℕ) (calls : List (ℕ × ℕ)) (s : AccountingState f.F64)
      → FloatsLaws f
      → get peer s.peers ≡ none
      → 0 < total calls
      → total calls < 2 ^ 63
      → should_serve peer requested_bytes (serve_each peer calls s) ≡ true
  unfolding should_serve record_served with_peer
  served_peer_served_again peer requested_bytes [] s l e some_bytes small = absurd (omega arith)
  served_peer_served_again peer requested_bytes ((now, bytes) ∷ calls) s l e some_bytes small =
      let credit = Credit.record_served bytes now Credit.new in
      let found : get peer (record_served now peer bytes s).peers ≡ some credit =
        rw e (get-insert peer peer credit s.peers ∙ ground arith) in
      let (c', e', o') =
        serve_each-OnlyServed peer bytes calls credit (record_served now peer bytes s) found
          (record {
            served = omega (arith, small);
            credit = omega (arith, small);
            received = refl;
            passed = refl;
            failed = refl;
            prepaid = refl;
          })
          small in
      ap (serves (serve_each peer ((now, bytes) ∷ calls) s) requested_bytes) e'
      ∙ serves-OnlyServed requested_bytes (bytes + total calls) c'
          (serve_each peer ((now, bytes) ∷ calls) s) l o' some_bytes small
