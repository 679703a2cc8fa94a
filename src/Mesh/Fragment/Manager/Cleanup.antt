-- ===== src/Mesh/Fragment/Manager/Cleanup.antt =====
-- `cleanup_expired`: which sessions go, and what the returned count is.
use static.Common.{
  ℕ, ◌+◌, ◌≡◌, refl, ◌∙◌, Bool, false, not, none, some, List, [], ◌∷◌, arith, length, All, ◌==◌,
  if◌then◌else◌,
}
use static.HashMap.{HashMap, get, remove, retain, Distinct}
use static.HashMap.Laws.{get-retain, remove_absent}
use static.Mesh.Fragment.Reassembler.{Reassembler, is_expired}
use static.Mesh.Fragment.Manager.{
  ReassemblyManager, without, drop_sessions, expired_ids, cleanup_expired,
}
use static.Mesh.Fragment.Manager.Inv.{IsValid}

remove_all : List ℕ → HashMap Reassembler → HashMap Reassembler
remove_all [] s = s
remove_all (id ∷ ids) s = remove_all ids (remove id s)

sessions-drop_sessions :
    (ids : List ℕ) (m : ReassemblyManager)
    → (drop_sessions m ids).sessions ≡ remove_all ids m.sessions
unfolding drop_sessions remove_all
sessions-drop_sessions [] m = refl
sessions-drop_sessions (id ∷ ids) m =
    sessions-drop_sessions ids
      (record { sessions = remove id m.sessions; order = without id m.order })

module _ (now timeout_secs : ℕ) where
  live : ℕ → Reassembler → Bool
  live id r = not (is_expired r now timeout_secs)

  -- An id that is not in the table is not among those that have run out.
  expired_ids_absent :
      (id : ℕ) (s : HashMap Reassembler)
      → get id s ≡ none
      → All (λ j. (j == id) ≡ false) (expired_ids s now timeout_secs)
  unfolding expired_ids get
  expired_ids_absent id [] e = tt
  expired_ids_absent id ((j, r) ∷ s) e = ground (arith, expired_ids_absent id s)

  remove_all-cons :
      (ids : List ℕ) (id : ℕ) (r : Reassembler) (s : HashMap Reassembler)
      → All (λ j. (j == id) ≡ false) ids
      → remove_all ids ((id, r) ∷ s) ≡ (id, r) ∷ remove_all ids s
  unfolding remove_all remove
  remove_all-cons [] id r s a = refl
  remove_all-cons (j ∷ ids) id r s a = ground (arith, remove_all-cons ids id r (remove j s) a.1)

  remove_all-expired_ids :
      (s : HashMap Reassembler)
      → Distinct s
      → remove_all (expired_ids s now timeout_secs) s ≡ retain live s
  unfolding remove_all expired_ids retain live remove
  remove_all-expired_ids [] d = refl
  remove_all-expired_ids ((id, r) ∷ s) d = ground (
    arith,
    remove_absent id s d.0,
    remove_all-expired_ids s d.1,
    remove_all-cons (expired_ids s now timeout_secs) id r s (expired_ids_absent id s d.0),
  )

  length-expired_ids :
      (s : HashMap Reassembler)
      → length (retain live s) + length (expired_ids s now timeout_secs) ≡ length s
  unfolding expired_ids retain live
  length-expired_ids [] = omega arith
  length-expired_ids ((id, r) ∷ s) = ground (arith, length-expired_ids s)

  -- Exactly the sessions that have run out go, and the count says how many they were.
  pub cleanup_expired_lem :
      (m : ReassemblyManager)
      → IsValid m
      → let (m', n) = cleanup_expired m now timeout_secs in
        ((id : ℕ) (r : Reassembler)
          → get id m.sessions ≡ some r
          → get id m'.sessions ≡ (if is_expired r now timeout_secs then none else some r))
        × ((id : ℕ) → get id m.sessions ≡ none → get id m'.sessions ≡ none)
        × (length m'.sessions + n ≡ length m.sessions)
  unfolding cleanup_expired live
  cleanup_expired_lem m v = rw after (
    (λ id r e. ground (arith, e, get-retain live id m.sessions v.tracks.distinct)),
    (λ id e. ground (arith, e, get-retain live id m.sessions v.tracks.distinct)),
    length-expired_ids m.sessions,
  )
    where
      after :
          (drop_sessions m (expired_ids m.sessions now timeout_secs)).sessions
          ≡ retain live m.sessions
      after =
          sessions-drop_sessions (expired_ids m.sessions now timeout_secs) m
          ∙ remove_all-expired_ids m.sessions v.tracks.distinct
