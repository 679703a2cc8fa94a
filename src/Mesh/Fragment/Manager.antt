-- ===== src/Mesh/Fragment/Manager.antt =====
-- crates/static-mesh/src/fragment.rs, `ReassemblyManager`: the table of sessions, bounded, with the
-- oldest evicted first. The clock is an argument of what reads it; message ids are `u64`.
pub mod Inv
pub mod Safety
pub mod Cleanup
use static.Common.{
  ℕ, Bool, true, false, not, ◌||◌, Option, none, some, List, [], ◌∷◌, ◌++◌, length, filter, ltb,
  leb, ◌==◌, if◌then◌else◌,
}
use static.HashMap.{HashMap, get, insert, remove, contains_key}
use static.Mesh.Fragment.{Fragment, max_fragments_per_message}
use static.Mesh.Fragment.Reassembler as Reassembler
use static.Mesh.Fragment.Reassembler.{Reassembler}

abbrev pub max_reassembler_messages : ℕ
max_reassembler_messages = 64

abbrev pub reassembler_timeout_secs : ℕ
reassembler_timeout_secs = 600

-- The head of `order` is the front of the queue.
pub record ReassemblyManager : Type 0 where
  pub sessions : HashMap Reassembler
  pub order : List ℕ

unfoldable pub new : ReassemblyManager
new = record { sessions = []; order = [] }

-- `retain(|kept| *kept != id)`
abbrev pub without : ℕ → List ℕ → List ℕ
without id = filter λ kept. not (kept == id)

-- Both steps of the eviction in `get_or_create`.
unfoldable pub evict : ReassemblyManager → ReassemblyManager
evict m =
    if leb max_reassembler_messages (length m.sessions)
    then elim m.order [
      | [] ↦ m
      | oldest ∷ rest ↦ record { sessions = remove oldest m.sessions; order = rest }
    ]
    else m

-- The manager that `get_or_create` leaves; the session it returns is the entry of `id`.
unfoldable pub get_or_create : ReassemblyManager → ℕ → ℕ → ReassemblyManager
get_or_create m now id =
    if contains_key id m.sessions
    then m
    else (let e = evict m in
        record {
          sessions = insert id (Reassembler.new now) e.sessions;
          order = e.order ++ (id ∷ []);
        })

-- What `add_fragment` tests before it creates a session.
abbrev pub out_of_range : Fragment → Bool
out_of_range f =
    (f.total_fragments == 0 || ltb max_fragments_per_message f.total_fragments)
    || leb f.total_fragments f.fragment_id

-- `none` is the panic of `expect("just inserted")`.
unfoldable pub add_fragment :
    ReassemblyManager → ℕ → ℕ → Fragment → Option (ReassemblyManager × Bool)
add_fragment m now id f =
    if out_of_range f
    then some (m, false)
    else (let c = get_or_create m now id in
        elim (get id c.sessions) [
          | none ↦ none
          | some r ↦
              let (r', added) = Reassembler.add_fragment r f in
              some (record c { sessions = insert id r' c.sessions }, added)
        ])

unfoldable pub remove_session : ReassemblyManager → ℕ → ReassemblyManager × Bool
remove_session m id =
    if contains_key id m.sessions
    then (record { sessions = remove id m.sessions; order = without id m.order }, true)
    else (m, false)

-- The ids of the sessions that have run out, in the order of iteration.
unfoldable pub expired_ids : HashMap Reassembler → ℕ → ℕ → List ℕ
expired_ids [] now timeout_secs = []
expired_ids ((id, r) ∷ m) now timeout_secs =
    let rest = expired_ids m now timeout_secs in
    if Reassembler.is_expired r now timeout_secs then id ∷ rest else rest

unfoldable pub drop_sessions : ReassemblyManager → List ℕ → ReassemblyManager
drop_sessions m [] = m
drop_sessions m (id ∷ ids) =
    drop_sessions (record { sessions = remove id m.sessions; order = without id m.order }) ids

unfoldable pub cleanup_expired : ReassemblyManager → ℕ → ℕ → ReassemblyManager × ℕ
cleanup_expired m now timeout_secs =
    let expired = expired_ids m.sessions now timeout_secs in
    (drop_sessions m expired, length expired)

unfoldable pub cleanup_expired_default : ReassemblyManager → ℕ → ReassemblyManager × ℕ
cleanup_expired_default m now = cleanup_expired m now reassembler_timeout_secs

-- The calls that a node makes, in any order and with any arguments.
pub data Call : Type 0 where
  adds : ℕ → ℕ → Fragment → Call
  removes : ℕ → Call
  cleans : ℕ → ℕ → Call

unfoldable pub step : ReassemblyManager → Call → Option ReassemblyManager
step m (adds now id f) = elim (add_fragment m now id f) [ none ↦ none | some (m', _) ↦ some m' ]
step m (removes id) = some (remove_session m id).0
step m (cleans now timeout_secs) = some (cleanup_expired m now timeout_secs).0

-- `none` as soon as one of the calls panics.
unfoldable pub run : ReassemblyManager → List Call → Option ReassemblyManager
run m [] = some m
run m (c ∷ cs) = elim (step m c) [ none ↦ none | some m' ↦ run m' cs ]
