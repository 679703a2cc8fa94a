-- ===== src/Mesh/Fragment/Manager/Inv.antt =====
-- The invariant of the session table, for any calls: it stays bounded, the queue names exactly its
-- sessions, each once, and the `expect` in `get_or_create` cannot fail.
use mathlib.Core.List.{Mem, Perm, mem-cons_self}
use mathlib.Core.List.Perm
use static.Common.{
  ℕ, ◌≤◌, ◌<◌, ◌≡◌, refl, ap, subst, ◌∙◌, inl, inr, not, some, List, [], ◌∷◌, arith, length, All,
  ◌==◌, Bool-cases, Option-cases,
}
use static.HashMap.{HashMap, get, insert, remove, keys, Distinct}
use static.HashMap.Laws.{remove-Distinct, length-remove}
use static.HashMap.Order.{
  keys-remove, keys-remove-perm, mem-keys, filter-perm, length-keys, length-perm,
}
use static.Mesh.Fragment.Reassembler.{Reassembler}
use static.Mesh.Fragment.Reassembler.Inv as Session
use static.Mesh.Fragment.Manager.{ReassemblyManager, max_reassembler_messages, without, evict}

abbrev pub Healthy : ℕ × Reassembler → Type 0
Healthy e = Session.IsValid e.1

-- The queue and the table name the same sessions, and every session is valid.
pub record Tracked (m : ReassemblyManager) : Type 0 where
  pub distinct : Distinct m.sessions
  pub tracked : Perm m.order (keys m.sessions)
  pub healthy : All Healthy m.sessions

pub record IsValid (m : ReassemblyManager) : Type 0 where
  pub tracks : Tracked m
  pub bounded : length m.sessions ≤ max_reassembler_messages

remove-Healthy : (k : ℕ) (m : HashMap Reassembler) → All Healthy m → All Healthy (remove k m)
unfolding remove
remove-Healthy k [] h = tt
remove-Healthy k ((j, r) ∷ m) h = ground (arith, remove-Healthy k m h.1)

pub insert-Healthy :
    (k : ℕ) (r : Reassembler) (m : HashMap Reassembler)
    → Session.IsValid r
    → All Healthy m
    → All Healthy (insert k r m)
unfolding insert
insert-Healthy k r m v h = (v, remove-Healthy k m h)

pub get-Healthy :
    (k : ℕ) (r : Reassembler) (m : HashMap Reassembler)
    → All Healthy m
    → get k m ≡ some r
    → Session.IsValid r
unfolding get
get-Healthy k r [] h e = absurd (ground arith)
get-Healthy k r ((j, s) ∷ m) h e = elim (Bool-cases (j == k)) [
  | inl here ↦ subst Session.IsValid {x = s} {y = r} (ground arith) h.0
  | inr there ↦ get-Healthy k r m h.1 (ground arith)
]

length-order : {m : ReassemblyManager} → Tracked m → length m.order ≡ length m.sessions
length-order {m} t = length-perm t.tracked ∙ length-keys m.sessions

-- Dropping a session from the table and the queue.
pub drop-Tracked :
    (m : ReassemblyManager) (id : ℕ)
    → Tracked m
    → Tracked (record { sessions = remove id m.sessions; order = without id m.order })
drop-Tracked m id t = record {
  distinct = remove-Distinct id m.sessions t.distinct;
  tracked = rw (keys-remove id m.sessions) (filter-perm (λ j. not (j == id)) t.tracked);
  healthy = remove-Healthy id m.sessions t.healthy;
}

-- The eviction takes the front of the queue, which is in the table.
pub front-Tracked :
    (m : ReassemblyManager) (oldest : ℕ) (rest : List ℕ)
    → m.order ≡ oldest ∷ rest
    → Tracked m
    → (r : Reassembler) × (get oldest m.sessions ≡ some r)
      × Tracked (record { sessions = remove oldest m.sessions; order = rest })
front-Tracked m oldest rest e t = elim (Option-cases (get oldest m.sessions)) [
  | inl missing ↦ absurd (mem-keys oldest m.sessions listed missing)
  | inr (r, found) ↦ (
    r,
    found,
    record {
      distinct = remove-Distinct oldest m.sessions t.distinct;
      tracked =
          Perm.cons_inv
            (Perm.trans tracked (keys-remove-perm oldest r m.sessions t.distinct found));
      healthy = remove-Healthy oldest m.sessions t.healthy;
    },
  )
]
  where
    tracked : Perm (oldest ∷ rest) (keys m.sessions)
    tracked = rw e at t.tracked

    listed : Mem oldest (keys m.sessions)
    listed = (Perm.mem_iff tracked).0 mem-cons_self

-- After an eviction there is room for one more session.
pub evict-Tracked :
    (m : ReassemblyManager)
    → IsValid m
    → Tracked (evict m) × (length (evict m).sessions < max_reassembler_messages)
unfolding evict
evict-Tracked m v = by_order m.order refl
  where
    by_order :
        (o : List ℕ)
        → m.order ≡ o
        → Tracked (evict m) × (length (evict m).sessions < max_reassembler_messages)
    by_order [] e =
        let few : length m.sessions ≡ 0 = omega (arith, length-order v.tracks, ap length e) in
        ground (arith, v.tracks)
    by_order (oldest ∷ rest) e =
        let (r, found, t) = front-Tracked m oldest rest e v.tracks in
        ground (arith, length-remove oldest r m.sessions v.tracks.distinct found, t, v.tracks)
