-- ===== src/Mesh/Fragment/Reassembler/Inv.antt =====
-- The invariant of a `Reassembler`: what any sequence of fragments, forged ones included, leaves.
use static.Common.{
  ℕ, zero, suc, ◌+◌, ◌≤◌, ◌<◌, ◌≡◌, ◌≢◌, refl, inl, inr, true, Option, none, some, List, [], ◌∷◌,
  ◌++◌, arith, length, All, Option-cases,
}
use static.HashMap.{HashMap, get, insert, remove, Distinct, KeysBelow}
use static.HashMap.Laws.{insert-Distinct}
use static.HashMap.Count.{insert-KeysBelow, length-lt_of_missing}
use static.Mesh.Fragment.{Fragment, ok, max_fragment_data, max_fragments_per_message}
use static.Mesh.Fragment.Reassembler.{
  Reassembler, new, add_fragment, can_accept, is_complete, gather, reassemble, receive,
}

-- The announced total bounds the fragment numbers; without one nothing is stored.
abbrev pub FitsTotal : Option ℕ → HashMap (List ℕ) → Type 0
FitsTotal none m = m ≡ []
FitsTotal (some total) m = (0 < total) × (total ≤ max_fragments_per_message) × KeysBelow total m

abbrev pub Small : ℕ × List ℕ → Type 0
Small e = length e.1 ≤ max_fragment_data

pub record IsValid (r : Reassembler) : Type 0 where
  pub distinct : Distinct r.fragments
  pub fits : FitsTotal r.total_expected r.fragments
  pub small : All Small r.fragments

remove-Small : (k : ℕ) (m : HashMap (List ℕ)) → All Small m → All Small (remove k m)
unfolding remove
remove-Small k [] s = tt
remove-Small k ((j, d) ∷ m) s = ground (arith, remove-Small k m s.1)

insert-Small :
    (k : ℕ) (d : List ℕ) (m : HashMap (List ℕ))
    → length d ≤ max_fragment_data
    → All Small m
    → All Small (insert k d m)
unfolding insert
insert-Small k d m h s = (h, remove-Small k m s)

pub new-IsValid : (now : ℕ) → IsValid (new now)
unfolding new
new-IsValid now = record { distinct = tt; fits = refl; small = tt }

KeysBelow-empty : (n : ℕ) (m : HashMap (List ℕ)) → m ≡ [] → KeysBelow n m
KeysBelow-empty n m e = rw e tt

get_empty : (k : ℕ) (m : HashMap (List ℕ)) → m ≡ [] → get k m ≡ none
unfolding get
get_empty k m e = rw e refl

add_fragment_by_total :
    (o : Option ℕ) (r : Reassembler) (f : Fragment)
    → r.total_expected ≡ o
    → IsValid r
    → IsValid (add_fragment r f).0
unfolding add_fragment
add_fragment_by_total none r f e v = ground (
  arith,
  insert-Distinct f.fragment_id f.bytes r.fragments v.distinct,
  insert-KeysBelow f.fragment_id f.total_fragments f.bytes r.fragments,
  insert-Small f.fragment_id f.bytes r.fragments,
  KeysBelow-empty f.total_fragments r.fragments,
)
add_fragment_by_total (some t) r f e v = ground (
  arith,
  insert-Distinct f.fragment_id f.bytes r.fragments v.distinct,
  insert-KeysBelow f.fragment_id t f.bytes r.fragments,
  insert-Small f.fragment_id f.bytes r.fragments,
)

-- Adding a fragment, whatever it claims, keeps the session valid.
pub add_fragment-IsValid :
    (r : Reassembler) (f : Fragment) → IsValid r → IsValid (add_fragment r f).0
add_fragment-IsValid r f v = add_fragment_by_total r.total_expected r f refl v

-- Any sequence of fragments, forged and repeated ones included, keeps a valid session valid.
pub receive-IsValid : (r : Reassembler) (fs : List Fragment) → IsValid r → IsValid (receive r fs)
unfolding receive
receive-IsValid r [] v = v
receive-IsValid r (f ∷ fs) v = receive-IsValid (add_fragment r f).0 fs (add_fragment-IsValid r f v)

-- `can_accept` foretells the result of `add_fragment`.
pub can_accept-eq-add_fragment :
    (r : Reassembler) (f : Fragment) → IsValid r → can_accept r f ≡ (add_fragment r f).1
unfolding can_accept add_fragment get
can_accept-eq-add_fragment r f v = ground (arith, get_empty f.fragment_id r.fragments)

gather_total :
    (m : HashMap (List ℕ)) (i n : ℕ) (out : List ℕ)
    → ((k : ℕ) → k < i + n → get k m ≢ none)
    → (all : List ℕ) × (gather m i n out ≡ ok all)
unfolding gather
gather_total m i zero out h = (out, refl)
gather_total m i (suc n) out h = elim (Option-cases (get i m)) [
  | inl e ↦ absurd (h i (omega arith) e)
  | inr (d, e) ↦ rw (e, gather) (gather_total m (suc i) n (out ++ d) (λ k l. h k (omega arith)))
]

complete_by_total :
    (o : Option ℕ) (r : Reassembler)
    → r.total_expected ≡ o
    → IsValid r
    → is_complete r ≡ true
    → (payload : List ℕ) × (reassemble r ≡ ok payload)
unfolding is_complete reassemble
complete_by_total none r e v c = absurd (ground arith)
complete_by_total (some t) r e v c =
    rw (e, reassemble) (gather_total r.fragments 0 t [] (λ k l. present k (omega arith)))
  where
    fits : FitsTotal (some t) r.fragments
    fits = rw e at v.fits

    full : length r.fragments ≡ t
    full = ground arith

    present : (k : ℕ) → k < t → get k r.fragments ≢ none
    present k l = λ missing.
        omega (arith, full, length-lt_of_missing t k r.fragments v.distinct fits.2 l missing)

-- A session that reports to be complete can be reassembled: no fragment is missing.
pub reassemble_of_is_complete :
    (now : ℕ) (fs : List Fragment)
    → is_complete (receive (new now) fs) ≡ true
    → (payload : List ℕ) × (reassemble (receive (new now) fs) ≡ ok payload)
reassemble_of_is_complete now fs c =
    complete_by_total (receive (new now) fs).total_expected (receive (new now) fs) refl
      (receive-IsValid (new now) fs (new-IsValid now)) c
