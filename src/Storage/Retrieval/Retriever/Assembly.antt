-- ===== src/Storage/Retrieval/Retriever/Assembly.antt =====
-- A file that was published is assembled from its chunks, in whatever order they come.
use static.Common.{
  ℕ, ◌+◌, ◌≡◌, refl, sym, ap, subst, ◌∙◌, Bool, true, false, Option, none, some, List, [], ◌∷◌, map,
  length, if◌then◌else◌, arith, contains, Option-cases, inl, inr, ==_refl, All,
}
use mathlib.Core.Option.{some-injective}
use static.HashMap.{HashMap, get}
use static.HashMap.Sums.{Every, insert-Every, get-Every}
use static.Storage.Lease.{Result, ok, err}
use static.Storage.Files.{
  Cipher, CipherLaws, EncryptedChunk, ContentManifest, encrypt_file, decrypt_file,
}
use static.Storage.Files.RoundTrip.{decrypt_file-encrypt_file}
use static.Storage.Retrieval.Retriever.{
  ContentRetriever, new, start_retrieval, record_chunk, record_all, expect_ids, is_complete,
  collect, assemble,
}
use static.Storage.Retrieval.Retriever.Pending.{
  Different, IsRetrieving, started-IsRetrieving, record_all-IsRetrieving, pending-record_all,
  get-expect_ids, empty_of_absent,
}

abbrev pub ids_of : List EncryptedChunk → List ℕ
ids_of = map λ (x : EncryptedChunk). x.id

-- The published chunks by their ids.
abbrev pub table_of : List EncryptedChunk → HashMap EncryptedChunk
table_of [] = []
table_of (chunk ∷ chunks) = (chunk.id, chunk) ∷ table_of chunks

-- A chunk that bears the id of a published one is that one.
pub IsGenuine : List EncryptedChunk → EncryptedChunk → Type 0
IsGenuine published a =
    (chunk : EncryptedChunk) → get a.id (table_of published) ≡ some chunk → chunk ≡ a

-- Of a single chunk, that chunk is genuine.
pub single-IsGenuine : (chunk : EncryptedChunk) → IsGenuine (chunk ∷ []) chunk
unfolding IsGenuine get
single-IsGenuine chunk other e = sym (some-injective chunk other (rw (==_refl chunk.id) at e))

-- What is kept for a chunk that came.
Kept : List EncryptedChunk → ℕ → EncryptedChunk → Type 0
Kept published k a = (a.id ≡ k) × IsGenuine published a

received-Kept :
    (published arrivals : List EncryptedChunk) (r : ContentRetriever)
    → All (IsGenuine published) arrivals
    → Every (Kept published) r.received
    → Every (Kept published) (record_all arrivals r).received
unfolding record_chunk Kept
received-Kept published [] r g inv = inv
received-Kept published (a ∷ arrivals) r g inv =
    received-Kept published arrivals (record_chunk a r).1 g.1 (one published a r g.0 inv)
  where
    one :
        (published : List EncryptedChunk) (a : EncryptedChunk) (r : ContentRetriever)
        → IsGenuine published a
        → Every (Kept published) r.received
        → Every (Kept published) (record_chunk a r).1.received
    one published a r g inv = elim (Option-cases (get a.id r.pending)) [
      | inl absent ↦ rw absent inv
      | inr (v, present) ↦
          rw present (insert-Every (Kept published) a.id a r.received (refl, g) inv)
    ]

get-table_of :
    (chunks : List EncryptedChunk) (k : ℕ) (chunk : EncryptedChunk)
    → get k (table_of chunks) ≡ some chunk
    → contains (ids_of chunks) k ≡ true
unfolding get
get-table_of [] k chunk e = absurd (ground arith)
get-table_of (x ∷ chunks) k chunk e = ground (arith, get-table_of chunks k chunk)

first_entry :
    (x : EncryptedChunk) (chunks : List EncryptedChunk) → get x.id (table_of (x ∷ chunks)) ≡ some x
unfolding get
first_entry x chunks = rw (==_refl x.id) refl

later_entry :
    (x : EncryptedChunk) (chunks : List EncryptedChunk) (k : ℕ) (chunk : EncryptedChunk)
    → contains (ids_of chunks) x.id ≡ false
    → get k (table_of chunks) ≡ some chunk
    → get k (table_of (x ∷ chunks)) ≡ some chunk
unfolding get
later_entry x chunks k chunk out e = ground (arith, get-table_of chunks k chunk e, out, e)

collect-table_of :
    (chunks : List EncryptedChunk) (received : HashMap EncryptedChunk)
    → Different (ids_of chunks)
    → ((k : ℕ) (chunk : EncryptedChunk)
        → get k (table_of chunks) ≡ some chunk
        → get k received ≡ some chunk)
    → collect received (ids_of chunks) ≡ ok chunks
unfolding collect
collect-table_of [] received d held = refl
collect-table_of (x ∷ chunks) received d held =
    let first = held x.id x (first_entry x chunks) in
    let rest =
      collect-table_of chunks received d.1
        (λ k chunk e. held k chunk (later_entry x chunks k chunk d.0 e)) in
    rw (first, rest) refl

-- Once nothing is pending, what was received under a published id is the published chunk.
received_published :
    (published : List EncryptedChunk) (r : ContentRetriever)
    → IsRetrieving (ids_of published) r
    → Every (Kept published) r.received
    → ((k : ℕ) → get k r.pending ≡ none)
    → (k : ℕ) (chunk : EncryptedChunk) → get k (table_of published) ≡ some chunk
    → get k r.received ≡ some chunk
unfolding Kept IsGenuine
received_published published r inv every empty k chunk e = elim (Option-cases (get k r.received)) [
  | inl absent ↦ absurd (inv.kept k (get-table_of published k chunk e) (empty k) absent)
  | inr (a, held) ↦
      let (own, genuine) = get-Every (Kept published) k a r.received held every in
      held ∙ ap some (sym (genuine chunk (rw own e)))
]

none_of_arrived :
    (came wanted : Bool) (o : Option Bool)
    → o ≡ (if wanted then some true else none)
    → (wanted ≡ true → came ≡ true)
    → (if came then none else o) ≡ none
none_of_arrived true wanted o e h = refl
none_of_arrived false true o e h = absurd (ground (arith, h refl))
none_of_arrived false false o e h = e

none_pending :
    (published arrivals : List EncryptedChunk) (manifest : ContentManifest) (master_key k : ℕ)
    → manifest.chunk_ids ≡ ids_of published
    → (contains (ids_of published) k ≡ true → contains (ids_of arrivals) k ≡ true)
    → get k (record_all arrivals (start_retrieval manifest master_key new)).pending ≡ none
unfolding start_retrieval get
none_pending published arrivals manifest master_key k listed came =
    pending-record_all arrivals k (start_retrieval manifest master_key new)
    ∙ none_of_arrived (contains (ids_of arrivals) k) (contains (ids_of published) k)
        (get k (expect_ids manifest.chunk_ids []))
        (ap (λ (ids : List ℕ). get k (expect_ids ids [])) listed
          ∙ get-expect_ids (ids_of published) k [])
        came

-- What the encryption of a file says of its chunks and manifest.
PublishedAs : Cipher → ℕ → ℕ → List ℕ → Result (List EncryptedChunk × ContentManifest) → Type 0
PublishedAs c master_key nonce file_data (err e) = Unit {0}
PublishedAs c master_key nonce file_data (ok (chunks, manifest)) =
    (decrypt_file c master_key nonce chunks manifest ≡ ok file_data)
    × (manifest.chunk_ids ≡ ids_of chunks)
    × (manifest.nonce ≡ nonce)

encrypt_file-PublishedAs :
    (c : Cipher) (master_key nonce : ℕ) (file_data : List ℕ)
    → CipherLaws c
    → PublishedAs c master_key nonce file_data (encrypt_file c master_key nonce file_data)
unfolding PublishedAs
encrypt_file-PublishedAs c master_key nonce file_data l =
    let (chunks, sealed, opened) = decrypt_file-encrypt_file c master_key nonce file_data l in
    subst (PublishedAs c master_key nonce file_data) (sym sealed) (opened, refl, refl)

settings-record :
    (chunk : EncryptedChunk) (r : ContentRetriever)
    → ((record_chunk chunk r).1.manifest ≡ r.manifest)
      × ((record_chunk chunk r).1.master_key ≡ r.master_key)
      × ((record_chunk chunk r).1.nonce ≡ r.nonce)
unfolding record_chunk
settings-record chunk r = elim (Option-cases (get chunk.id r.pending)) [
  | inl absent ↦ rw absent (refl, refl, refl)
  | inr (v, present) ↦ rw present (refl, refl, refl)
]

settings-record_all :
    (arrivals : List EncryptedChunk) (r : ContentRetriever)
    → ((record_all arrivals r).manifest ≡ r.manifest)
      × ((record_all arrivals r).master_key ≡ r.master_key)
      × ((record_all arrivals r).nonce ≡ r.nonce)
settings-record_all [] r = (refl, refl, refl)
settings-record_all (chunk ∷ arrivals) r =
    let (m, k, n) = settings-record_all arrivals (record_chunk chunk r).1 in
    let (first_m, first_k, first_n) = settings-record chunk r in
    (m ∙ first_m, k ∙ first_k, n ∙ first_n)

assembled :
    (c : Cipher) (r : ContentRetriever) (master_key nonce : ℕ) (file_data : List ℕ)
    → (published : List EncryptedChunk) (manifest : ContentManifest)
    → (r.manifest ≡ some manifest) × (r.master_key ≡ some master_key) × (r.nonce ≡ some nonce)
    → collect r.received manifest.chunk_ids ≡ ok published
    → decrypt_file c master_key nonce published manifest ≡ ok file_data
    → assemble c r ≡ ok file_data
unfolding assemble
assembled c r master_key nonce file_data published manifest (m, k, n) chunks opened =
    rw (m, k, n, chunks) opened

completed :
    (r : ContentRetriever) (manifest : ContentManifest)
    → r.manifest ≡ some manifest
    → length r.pending ≡ 0
    → length r.pending + length r.received ≡ length manifest.chunk_ids
    → is_complete r ≡ true
unfolding is_complete
completed r manifest m none_left shared =
    let all : length r.received ≡ length manifest.chunk_ids = omega (arith, none_left, shared) in
    rw (m, none_left, all) (==_refl (length manifest.chunk_ids))

-- A file that was published is retrieved: once a chunk for each of its ids has come, in any order,
-- any number of times and among any others, the retriever is complete and assembles the file,
-- provided that the ids differ and whatever comes under one of them is the published chunk.
pub retrieve_published :
    (c : Cipher) (master_key nonce : ℕ) (file_data : List ℕ)
    → (published arrivals : List EncryptedChunk) (manifest : ContentManifest) → CipherLaws c
    → encrypt_file c master_key nonce file_data ≡ ok (published, manifest)
    → Different (ids_of published)
    → All (IsGenuine published) arrivals
    → ((k : ℕ) → contains (ids_of published) k ≡ true → contains (ids_of arrivals) k ≡ true)
    → let r = record_all arrivals (start_retrieval manifest master_key new) in
      (is_complete r ≡ true) × (assemble c r ≡ ok file_data)
unfolding start_retrieval PublishedAs
retrieve_published c master_key nonce file_data published arrivals manifest l e different genuine
      complete =
    let ids = ids_of published in
    let start = start_retrieval manifest master_key new in
    let r = record_all arrivals start in
    let (opened, listed, same_nonce) =
      subst (PublishedAs c master_key nonce file_data) e
        (encrypt_file-PublishedAs c master_key nonce file_data l) in
    let inv = record_all-IsRetrieving ids arrivals start (
      started-IsRetrieving ids start different (ap (λ (x : List ℕ). expect_ids x []) listed)
        refl) in
    let empty : (k : ℕ) → get k r.pending ≡ none =
      λ k. none_pending published arrivals manifest master_key k listed (complete k) in
    let held =
      received_published published r inv (received-Kept published arrivals start genuine tt)
        empty in
    let (m, k, n) = settings-record_all arrivals start in
    let shared : length r.pending + length r.received ≡ length manifest.chunk_ids =
      inv.shared ∙ ap length (sym listed) in
    (
      completed r manifest m (empty_of_absent r.pending empty) shared,
      assembled c r master_key nonce file_data published manifest (m, k, n ∙ ap some same_nonce)
          (ap (collect r.received) listed ∙ collect-table_of published r.received different held)
          opened,
    )
