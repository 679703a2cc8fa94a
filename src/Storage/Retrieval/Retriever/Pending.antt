-- ===== src/Storage/Retrieval/Retriever/Pending.antt =====
-- The expected and the received chunks share out the ids of the manifest.
use static.Common.{
  ℕ, ◌+◌, ◌≡◌, ◌≢◌, refl, ◌∙◌, Bool, true, false, none, some, List, [], ◌∷◌, map, length, ◌==◌,
  if◌then◌else◌, arith, contains, Option-cases, inl, inr, ==_refl,
}
use static.HashMap.{HashMap, get, insert, remove, Distinct}
use static.HashMap.Laws.{
  get-insert, get-remove, length-remove, length-insert_absent, remove-Distinct, insert-Distinct,
}
use static.Storage.Files.{EncryptedChunk}
use static.Storage.Retrieval.Retriever.{ContentRetriever, expect_ids, record_chunk, record_all}

-- No id stands twice.
abbrev pub Different : List ℕ → Type 0
Different [] = Unit {0}
Different (id ∷ ids) = (contains ids id ≡ false) × Different ids

pub get-expect_ids :
    (ids : List ℕ) (k : ℕ) (p : HashMap Bool)
    → get k (expect_ids ids p) ≡ (if contains ids k then some true else get k p)
unfolding expect_ids
get-expect_ids [] k p = refl
get-expect_ids (id ∷ ids) k p =
    get-expect_ids ids k (insert id true p) ∙ ground (arith, get-insert id k true p)

expect_ids-Distinct : (ids : List ℕ) (p : HashMap Bool) → Distinct p → Distinct (expect_ids ids p)
unfolding expect_ids
expect_ids-Distinct [] p d = d
expect_ids-Distinct (id ∷ ids) p d =
    expect_ids-Distinct ids (insert id true p) (insert-Distinct id true p d)

length-expect_ids :
    (ids : List ℕ) (p : HashMap Bool)
    → Different ids
    → ((k : ℕ) → contains ids k ≡ true → get k p ≡ none)
    → length (expect_ids ids p) ≡ length ids + length p
unfolding expect_ids
length-expect_ids [] p d fresh = omega arith
length-expect_ids (id ∷ ids) p d fresh =
    let absent : get id p ≡ none = fresh id (ground (arith, ==_refl id)) in
    let rest =
      length-expect_ids ids (insert id true p) d.1
        (λ k h. still_fresh id ids p k d.0 h (fresh k (ground (arith, h)))) in
    omega (arith, rest, length-insert_absent id true p absent)
  where
    still_fresh :
        (id : ℕ) (ids : List ℕ) (p : HashMap Bool) (k : ℕ)
        → contains ids id ≡ false
        → contains ids k ≡ true
        → get k p ≡ none
        → get k (insert id true p) ≡ none
    still_fresh id ids p k out h e = ground (arith, get-insert id k true p, out, h, e)

-- What holds of a retriever that was started with the ids of a manifest.
pub record IsRetrieving (ids : List ℕ) (r : ContentRetriever) : Type 0 where
  pub pending_distinct : Distinct r.pending
  pub shared : length r.pending + length r.received ≡ length ids
  pub apart : (k : ℕ) → get k r.pending ≢ none → get k r.received ≡ none
  pub wanted : (k : ℕ) → get k r.pending ≢ none → contains ids k ≡ true
  pub kept : (k : ℕ) → contains ids k ≡ true → get k r.pending ≡ none → get k r.received ≢ none

pub started-IsRetrieving :
    (ids : List ℕ) (r : ContentRetriever)
    → Different ids
    → r.pending ≡ expect_ids ids []
    → r.received ≡ []
    → IsRetrieving ids r
unfolding get
started-IsRetrieving ids r d started nothing = record {
  pending_distinct = rw started (expect_ids-Distinct ids [] tt);
  shared = rw (started, nothing) (omega (arith, length-expect_ids ids [] d (λ k h. refl)));
  apart = λ k h. rw nothing refl;
  wanted = λ k h. wanted_lem ids k (rw started at h);
  kept = λ k h e. absurd (none_pending ids k h (rw started at e));
}
  where
    wanted_lem : (ids : List ℕ) (k : ℕ) → get k (expect_ids ids []) ≢ none → contains ids k ≡ true
    wanted_lem ids k h = ground (arith, get-expect_ids ids k [])

    none_pending : (ids : List ℕ) (k : ℕ) → contains ids k ≡ true → get k (expect_ids ids []) ≢ none
    none_pending ids k h = ground (arith, get-expect_ids ids k [])

record-IsRetrieving :
    (ids : List ℕ) (chunk : EncryptedChunk) (r : ContentRetriever)
    → IsRetrieving ids r
    → IsRetrieving ids (record_chunk chunk r).1
unfolding record_chunk
record-IsRetrieving ids chunk r inv = elim (Option-cases (get chunk.id r.pending)) [
  | inl absent ↦ rw absent inv
  | inr (v, present) ↦ rw present (moved ids chunk r v inv present)
]
  where
    moved :
        (ids : List ℕ) (chunk : EncryptedChunk) (r : ContentRetriever) (v : Bool)
        → IsRetrieving ids r
        → get chunk.id r.pending ≡ some v
        → IsRetrieving ids (record r {
          pending = remove chunk.id r.pending;
          received = insert chunk.id chunk r.received;
        })
    moved ids chunk r v inv present = record {
      pending_distinct = remove-Distinct chunk.id r.pending inv.pending_distinct;
      shared = omega (
        arith,
        length-remove chunk.id v r.pending inv.pending_distinct present,
        length-insert_absent chunk.id chunk r.received
            (inv.apart chunk.id (ground (arith, present))),
        inv.shared,
      );
      apart = λ k h. ground (
        arith,
        get-remove chunk.id k r.pending,
        get-insert chunk.id k chunk r.received,
        inv.apart k,
        h,
      );
      wanted = λ k h. ground (arith, get-remove chunk.id k r.pending, inv.wanted k, h);
      kept = λ k h e. ground (
        arith,
        get-remove chunk.id k r.pending,
        get-insert chunk.id k chunk r.received,
        inv.kept k h,
        e,
      );
    }

pub record_all-IsRetrieving :
    (ids : List ℕ) (arrivals : List EncryptedChunk) (r : ContentRetriever)
    → IsRetrieving ids r
    → IsRetrieving ids (record_all arrivals r)
record_all-IsRetrieving ids [] r inv = inv
record_all-IsRetrieving ids (chunk ∷ arrivals) r inv =
    record_all-IsRetrieving ids arrivals (record_chunk chunk r).1
      (record-IsRetrieving ids chunk r inv)

pending-record :
    (k : ℕ) (chunk : EncryptedChunk) (r : ContentRetriever)
    → get k (record_chunk chunk r).1.pending ≡ (if chunk.id == k then none else get k r.pending)
unfolding record_chunk
pending-record k chunk r = elim (Option-cases (get chunk.id r.pending)) [
  | inl absent ↦ rw absent (ground (arith, absent))
  | inr (v, present) ↦ rw present (get-remove chunk.id k r.pending)
]

-- An id whose chunk has arrived is pending no more.
pub pending-record_all :
    (arrivals : List EncryptedChunk) (k : ℕ) (r : ContentRetriever)
    → get k (record_all arrivals r).pending
      ≡ (if contains (map (λ (x : EncryptedChunk). x.id) arrivals) k then none else get k r.pending)
pending-record_all [] k r = refl
pending-record_all (chunk ∷ arrivals) k r =
    pending-record_all arrivals k (record_chunk chunk r).1
    ∙ ground (arith, pending-record k chunk r)

pub empty_of_absent : {V : Type 0} (m : HashMap V) → ((k : ℕ) → get k m ≡ none) → length m ≡ 0
unfolding get
empty_of_absent [] h = refl
empty_of_absent ((j, v) ∷ m) h = absurd (ground (arith, h j, ==_refl j))
