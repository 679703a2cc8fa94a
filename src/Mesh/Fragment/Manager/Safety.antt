-- ===== src/Mesh/Fragment/Manager/Safety.antt =====
-- Every call keeps the table valid and none panics; a full table gives up its oldest session.
use mathlib.Core.List.{Perm, perm_append_singleton}
use mathlib.Core.List.Perm
use static.Common.{
  ℕ, ◌<◌, ◌≡◌, ◌≢◌, refl, sym, subst, inl, inr, Bool, false, none, some, List, [], ◌∷◌, ◌++◌, arith,
  length, Bool-cases, Option-cases,
}
use static.HashMap.{get, insert, remove, keys}
use static.HashMap.Laws.{
  get-insert, get-remove, insert-Distinct, length-insert_absent, length-remove-le,
  length-insert_present, remove_absent,
}
use static.HashMap.Order.{keys-remove-perm}
use static.Mesh.Fragment.{Fragment}
use static.Mesh.Fragment.Reassembler as Reassembler
use static.Mesh.Fragment.Reassembler.{Reassembler}
use static.Mesh.Fragment.Reassembler.Inv as Session
use static.Mesh.Fragment.Manager.{
  ReassemblyManager, max_reassembler_messages, without, evict, get_or_create, add_fragment,
  out_of_range, remove_session, drop_sessions, expired_ids, cleanup_expired, Call, adds, removes,
  cleans, step, run,
}
use static.Mesh.Fragment.Manager.Inv.{
  Tracked, IsValid, insert-Healthy, get-Healthy, drop-Tracked, front-Tracked, evict-Tracked,
}

evict-absent :
    (m : ReassemblyManager) (id : ℕ) → get id m.sessions ≡ none → get id (evict m).sessions ≡ none
unfolding evict
evict-absent m id e = by_order m.order refl
  where
    by_order : (o : List ℕ) → m.order ≡ o → get id (evict m).sessions ≡ none
    by_order [] q = ground arith
    by_order (oldest ∷ rest) q = ground (arith, get-remove oldest id m.sessions)

create-IsValid :
    (e : ReassemblyManager) (id : ℕ) (r : Reassembler)
    → Tracked e
    → length e.sessions < max_reassembler_messages
    → get id e.sessions ≡ none
    → Session.IsValid r
    → IsValid (record { sessions = insert id r e.sessions; order = e.order ++ (id ∷ []) })
unfolding insert
create-IsValid e id r t h a v = record {
  tracks = record {
    distinct = insert-Distinct id r e.sessions t.distinct;
    tracked =
        subst (λ s. Perm (e.order ++ (id ∷ [])) (id ∷ keys s)) (sym (remove_absent id e.sessions a))
          (Perm.trans (perm_append_singleton id e.order) (Perm.cons id t.tracked));
    healthy = insert-Healthy id r e.sessions v t.healthy;
  };
  bounded = omega (arith, length-insert_absent id r e.sessions a);
}

-- The session for an id is there afterwards: `expect("just inserted")` cannot fail.
pub get_or_create-IsValid :
    (m : ReassemblyManager) (now id : ℕ)
    → IsValid m
    → IsValid (get_or_create m now id) × (get id (get_or_create m now id).sessions ≢ none)
unfolding get_or_create
get_or_create-IsValid m now id v = elim (Option-cases (get id m.sessions)) [
  | inl e ↦
      let (t, h) = evict-Tracked m v in
      let a = evict-absent m id e in
      rw e (
        create-IsValid (evict m) id (Reassembler.new now) t h a (Session.new-IsValid now),
        ground (arith, get-insert id id (Reassembler.new now) (evict m).sessions),
      )
  | inr (r, e) ↦ rw e (v, ground arith)
]

update-IsValid :
    (m : ReassemblyManager) (id : ℕ) (r r' : Reassembler)
    → IsValid m
    → get id m.sessions ≡ some r
    → Session.IsValid r'
    → IsValid (record m { sessions = insert id r' m.sessions })
unfolding insert
update-IsValid m id r r' v e h = record {
  tracks = record {
    distinct = insert-Distinct id r' m.sessions v.tracks.distinct;
    tracked = Perm.trans v.tracks.tracked (keys-remove-perm id r m.sessions v.tracks.distinct e);
    healthy = insert-Healthy id r' m.sessions h v.tracks.healthy;
  };
  bounded = omega (arith, length-insert_present id r' r m.sessions v.tracks.distinct e, v.bounded);
}

-- Adding a fragment never panics and keeps the table valid.
pub add_fragment-IsValid :
    (m : ReassemblyManager) (now id : ℕ) (f : Fragment)
    → IsValid m
    → (m' : ReassemblyManager) × (b : Bool) × (add_fragment m now id f ≡ some (m', b)) × IsValid m'
unfolding add_fragment
add_fragment-IsValid m now id f v = elim (Bool-cases (out_of_range f)) [
  | inl bad ↦ (m, false, rw (bad, add_fragment) refl, v)
  | inr fine ↦
      let (valid, present) = get_or_create-IsValid m now id v in
      elim (Option-cases (get id (get_or_create m now id).sessions)) [
        | inl e ↦ absurd (present e)
        | inr (r, e) ↦ (
          record (get_or_create m now id) {
            sessions = insert id (Reassembler.add_fragment r f).0 (get_or_create m now id).sessions;
          },
          (Reassembler.add_fragment r f).1,
          rw (fine, e, add_fragment) refl,
          update-IsValid (get_or_create m now id) id r (Reassembler.add_fragment r f).0 valid e
              (Session.add_fragment-IsValid r f (get-Healthy id r _ valid.tracks.healthy e)),
        )
      ]
]

drop_sessions-IsValid :
    (m : ReassemblyManager) (ids : List ℕ) → IsValid m → IsValid (drop_sessions m ids)
unfolding drop_sessions
drop_sessions-IsValid m [] v = v
drop_sessions-IsValid m (id ∷ ids) v =
    drop_sessions-IsValid (record { sessions = remove id m.sessions; order = without id m.order })
      ids
      (record {
        tracks = drop-Tracked m id v.tracks;
        bounded = omega (arith, length-remove-le id m.sessions, v.bounded);
      })

step-IsValid :
    (m : ReassemblyManager) (c : Call)
    → IsValid m
    → (m' : ReassemblyManager) × (step m c ≡ some m') × IsValid m'
unfolding step remove_session cleanup_expired
step-IsValid m (adds now id f) v =
    let (m', b, e, v') = add_fragment-IsValid m now id f v in (m', rw (e, step) refl, v')
step-IsValid m (removes id) v = ((remove_session m id).0, refl, removed)
  where
    removed : IsValid (remove_session m id).0
    removed = ground (arith, drop-Tracked m id v.tracks, length-remove-le id m.sessions, v)
step-IsValid m (cleans now timeout_secs) v = (
  (cleanup_expired m now timeout_secs).0,
  refl,
  drop_sessions-IsValid m (expired_ids m.sessions now timeout_secs) v,
)

-- No sequence of calls panics, and the table is valid after it: at most 64 sessions, each within its
-- own bounds, and the queue names exactly those.
pub run-IsValid :
    (m : ReassemblyManager) (cs : List Call)
    → IsValid m
    → (m' : ReassemblyManager) × (run m cs ≡ some m') × IsValid m'
unfolding run
run-IsValid m [] v = (m, refl, v)
run-IsValid m (c ∷ cs) v =
    let (m', e, v') = step-IsValid m c v in
    let (m'', e', v'') = run-IsValid m' cs v' in (m'', rw (e, run) e', v'')

-- A full table gives up the session that it has had longest, for the new one, and no other.
pub get_or_create_evicts_oldest :
    (m : ReassemblyManager) (now id oldest : ℕ) (rest : List ℕ)
    → IsValid m
    → length m.sessions ≡ max_reassembler_messages
    → m.order ≡ oldest ∷ rest
    → get id m.sessions ≡ none
    → let m' = get_or_create m now id in
      (m'.order ≡ rest ++ (id ∷ []))
      × (get oldest m'.sessions ≡ none)
      × (get id m'.sessions ≡ some (Reassembler.new now))
      × ((k : ℕ) → k ≢ oldest → k ≢ id → get k m'.sessions ≡ get k m.sessions)
unfolding get_or_create evict
get_or_create_evicts_oldest m now id oldest rest v full e a =
    let (r, found, t) = front-Tracked m oldest rest e v.tracks in
    let new_id = get-insert id id (Reassembler.new now) (remove oldest m.sessions) in
    let gone = get-insert id oldest (Reassembler.new now) (remove oldest m.sessions) in
    (
      ground (arith, full, e, a),
      ground (arith, full, e, a, found, gone, get-remove oldest oldest m.sessions),
      ground (arith, full, e, a, new_id),
      λ k p q. ground (
        arith,
        full,
        e,
        a,
        get-insert id k (Reassembler.new now) (remove oldest m.sessions),
        get-remove oldest k m.sessions,
      ),
    )
