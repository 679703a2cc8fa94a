-- ===== src/Accounting/Prepayments.antt =====
-- crates/static-accounting/src/lib.rs: the limit on prepayments of one content.
use static.Common.{
  ℕ, ◌+◌, ◌*◌, ◌-◌, ◌^◌, ◌≤◌, ◌<◌, ◌≡◌, ◌≢◌, refl, Bool, true, false, ==_refl, Option, none, some,
  leb, ◌==◌, length, arith, ap, ◌∙◌,
}
use static.HashMap.{make_room, Pick, get, insert, retain, Distinct}
use static.HashMap.Laws.{
  length-make_room-lt, make_room_below, get-insert, length-insert-le, length-retain-le, get-retain,
  kept,
}
use static.Accounting.State.{AccountingState}

abbrev pub prepay_rate_limit_secs : ℕ
prepay_rate_limit_secs = 3600

abbrev pub max_prepay_attempts : ℕ
max_prepay_attempts = 1024

-- The key of a seed and a content: the bytes of the one before the bytes of the other.
abbrev pub attempt_key : ℕ → ℕ → ℕ
attempt_key seed content_id = seed * 256 ^ 32 + content_id

abbrev is_allowed : ℕ → Option ℕ → Bool
is_allowed now none = true
is_allowed now (some last) = leb prepay_rate_limit_secs (now - last)

-- Pruning drops what is older than a day.
abbrev pub is_recent : ℕ → ℕ → ℕ → Bool
is_recent now k ts = leb (now - ts) 86400

differ_test : (a b : ℕ) → a ≢ b → (a == b) ≡ false
differ_test a b h = ground arith

-- What is pruned was allowed anyway.
is_allowed-kept :
    (now later k : ℕ) (o : Option ℕ)
    → now ≤ later
    → is_allowed later (kept (is_recent now) k o) ≡ is_allowed later o
is_allowed-kept now later k none h = refl
is_allowed-kept now later k (some ts) h = ground (arith, h)

module _ {F64 : Type 0} where
  unfoldable pub check_prepay_rate_limit : ℕ → ℕ → ℕ → AccountingState F64 → Bool
  check_prepay_rate_limit from content_id now s =
      is_allowed now (get (attempt_key from content_id) s.prepayment_attempts)

  unfoldable pub record_prepay_attempt :
      Pick → ℕ → ℕ → ℕ → AccountingState F64 → AccountingState F64
  record_prepay_attempt pick from content_id now s = record s {
    prepayment_attempts =
        insert (attempt_key from content_id) now
          (make_room max_prepay_attempts pick (retain (is_recent now) s.prepayment_attempts));
  }

  -- The table of attempts is bounded: recording an attempt leaves at most 1024 entries, if there
  -- were at most 1024, whichever entry is evicted.
  pub length-record_prepay_attempt-le :
      (pick : Pick) (from content_id now : ℕ) (s : AccountingState F64)
      → length s.prepayment_attempts ≤ max_prepay_attempts
      → length (record_prepay_attempt pick from content_id now s).prepayment_attempts
        ≤ max_prepay_attempts
  unfolding record_prepay_attempt make_room
  length-record_prepay_attempt-le pick from content_id now s small =
      let recent = retain (is_recent now) s.prepayment_attempts in
      let fewer = length-retain-le (is_recent now) s.prepayment_attempts in
      let room : length (make_room max_prepay_attempts pick recent) < max_prepay_attempts =
        length-make_room-lt max_prepay_attempts pick recent (omega arith) (omega arith) in
      let inserted =
        length-insert-le (attempt_key from content_id) now
          (make_room max_prepay_attempts pick recent) in
      omega arith

  -- A seed may prepay a content again exactly when an hour has gone by since its last recorded
  -- attempt, and below the cap an attempt changes the answer for no other seed and content, since
  -- the attempts that are pruned are a day old.
  pub check-record_prepay_attempt :
      (pick : Pick) (from content_id other_seed other_content now later : ℕ)
      → (s : AccountingState F64) → Distinct s.prepayment_attempts
      → length s.prepayment_attempts < max_prepay_attempts
      → attempt_key from content_id ≢ attempt_key other_seed other_content
      → now ≤ later
      → (check_prepay_rate_limit from content_id later
            (record_prepay_attempt pick from content_id now s)
          ≡ leb prepay_rate_limit_secs (later - now))
        × (check_prepay_rate_limit other_seed other_content later
              (record_prepay_attempt pick from content_id now s)
            ≡ check_prepay_rate_limit other_seed other_content later s)
  unfolding check_prepay_rate_limit record_prepay_attempt
  check-record_prepay_attempt pick from content_id other_seed other_content now later s d small
        differ after =
      let here = attempt_key from content_id in
      let there = attempt_key other_seed other_content in
      let recent = retain (is_recent now) s.prepayment_attempts in
      let fewer = length-retain-le (is_recent now) s.prepayment_attempts in
      let room = make_room_below max_prepay_attempts pick recent (omega arith) in
      let table = insert here now (make_room max_prepay_attempts pick recent) in
      let own : get here table ≡ some now =
        get-insert here here now (make_room max_prepay_attempts pick recent)
        ∙ rw (==_refl here) refl in
      let other : get there table ≡ kept (is_recent now) there (get there s.prepayment_attempts) =
        get-insert here there now (make_room max_prepay_attempts pick recent)
        ∙ rw (differ_test here there differ, room)
            (get-retain (is_recent now) there s.prepayment_attempts d) in
      (
        ap (is_allowed later) own,
        ap (is_allowed later) other
            ∙ is_allowed-kept now later there (get there s.prepayment_attempts) after,
      )
