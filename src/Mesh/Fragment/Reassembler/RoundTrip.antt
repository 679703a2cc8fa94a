-- ===== src/Mesh/Fragment/Reassembler/RoundTrip.antt =====
-- A payload comes back from its fragments, in whatever order and however often they arrive.
use mathlib.Core.HLevel.{¬_prop}
use mathlib.Core.Logic.Or
use mathlib.Core.List.{
  Mem, mem-cons, append-nil, append_assoc, not-mem-nil, mem-cons_self, mem-cons_of_mem,
}
use static.Common.{
  ℕ, zero, suc, ◌+◌, ◌*◌, ◌≤◌, ◌<◌, ◌≡◌, ◌≢◌, ◌↔◌, refl, sym, ap, ◌∙◌, ◌⊎◌, inl, inr, true, none,
  some, List, [], ◌∷◌, ◌++◌, arith, length, take, drop, All, take-add, drop-drop, take_of_length-le,
  if◌then◌else◌, ◌==◌, ==_iff, subst,
}
use static.HashMap.{HashMap, get}
use static.HashMap.Laws.{get-insert}
use static.HashMap.Count.{length-le_of_KeysBelow, le-length_of_present}
use static.Mesh.Fragment.{
  Fragment, ok, max_fragment_data, max_fragments_per_message, fragment_payload, total_of,
}
use static.Mesh.Fragment.Pieces.{
  piece, nth_fragment, mem-fragment_range, fragment_range-mem, total_of_bounds, length-piece-le,
}
use static.Mesh.Fragment.Reassembler.{
  Reassembler, new, store, add_fragment, is_complete, gather, reassemble, receive,
}
use static.Mesh.Fragment.Reassembler.Inv.{IsValid, FitsTotal, new-IsValid, add_fragment-IsValid}

-- The pieces, taken in order, are the bytes that they were cut from.
take_none : (payload : List ℕ) (i : ℕ) → take (0 * max_fragment_data) (drop i payload) ≡ []
unfolding take
take_none payload i = refl

drop_none : (payload : List ℕ) → drop (0 * max_fragment_data) payload ≡ payload
unfolding drop
drop_none payload = refl

next_piece :
    (payload : List ℕ) (i n : ℕ) (out : List ℕ)
    → (out ++ piece payload i)
        ++ take (n * max_fragment_data) (drop (suc i * max_fragment_data) payload)
      ≡ out ++ take (suc n * max_fragment_data) (drop (i * max_fragment_data) payload)
unfolding piece
next_piece payload i n out =
    append_assoc out (piece payload i)
      (take (n * max_fragment_data) (drop (suc i * max_fragment_data) payload))
    ∙ ap (◌++◌ out) (
        ap (λ (xs : List ℕ). piece payload i ++ take (n * max_fragment_data) xs)
          (sym (
            drop-drop max_fragment_data (i * max_fragment_data) (suc i * max_fragment_data) payload
              (omega arith)))
        ∙ sym (
            take-add max_fragment_data (n * max_fragment_data) (suc n * max_fragment_data)
              (drop (i * max_fragment_data) payload) (omega arith)))

gather_pieces :
    (payload : List ℕ) (m : HashMap (List ℕ)) (i n : ℕ) (out : List ℕ)
    → ((k : ℕ) → k < i + n → get k m ≡ some (piece payload k))
    → gather m i n out
      ≡ ok (out ++ take (n * max_fragment_data) (drop (i * max_fragment_data) payload))
unfolding gather
gather_pieces payload m i zero out h =
    ap (λ (t : List ℕ). ok t)
      (sym (append-nil out) ∙ ap (◌++◌ out) (sym (take_none payload (i * max_fragment_data))))
gather_pieces payload m i (suc n) out h =
    rw (h i (omega arith), gather)
      (gather_pieces payload m (suc i) n (out ++ piece payload i) (λ k l. h k (omega arith))
        ∙ ap (λ (t : List ℕ). ok t) (next_piece payload i n out))

abbrev FromPayload : List ℕ → ℕ → Fragment → Type 0
FromPayload payload t f = (f ≡ nth_fragment payload t f.fragment_id) × (f.fragment_id < t)

module _ (payload : List ℕ) (t : ℕ) (pos : 0 < t) (le : t ≤ max_fragments_per_message) where
  -- A session that has only seen fragments of this payload.
  record Honest (r : Reassembler) : Type 0 where
    valid : IsValid r
    total : (r.total_expected ≡ none) ⊎ (r.total_expected ≡ some t)
    agree : (k : ℕ) → (get k r.fragments ≡ none) ⊎ (get k r.fragments ≡ some (piece payload k))

  add_fragment-get :
      (r : Reassembler) (i k : ℕ)
      → Honest r
      → i < t
      → get k (add_fragment r (nth_fragment payload t i)).0.fragments
        ≡ (if i == k then some (piece payload i) else get k r.fragments)
  unfolding add_fragment store
  add_fragment-get r i k h l =
      ground
        (arith, get-insert i k (piece payload i) r.fragments, h.agree i, length-piece-le payload i)

  add_fragment-total :
      (r : Reassembler) (i : ℕ)
      → Honest r
      → i < t
      → (add_fragment r (nth_fragment payload t i)).0.total_expected ≡ some t
  unfolding add_fragment store
  add_fragment-total r i h l = ground (arith, length-piece-le payload i)

  add_fragment-Honest :
      (r : Reassembler) (i : ℕ)
      → Honest r
      → i < t
      → Honest (add_fragment r (nth_fragment payload t i)).0
  add_fragment-Honest r i h l = record {
    valid = add_fragment-IsValid r _ h.valid;
    total = inr (add_fragment-total r i h l);
    agree = λ k. ground (arith, add_fragment-get r i k h l, h.agree k);
  }

  -- After any fragments of the payload: the session is honest, it keeps what it had, and it holds
  -- each piece that has come.
  record Received (r : Reassembler) (fs : List Fragment) (s : Reassembler) : Type 0 where
    honest : Honest s
    keeps : (k : ℕ) → get k r.fragments ≢ none → get k s.fragments ≢ none
    holds : (k : ℕ) → Mem (nth_fragment payload t k) fs → get k s.fragments ≢ none
    knows : fs ≢ [] → s.total_expected ≡ some t
    still : r.total_expected ≡ some t → s.total_expected ≡ some t

  Received-cons :
      (f : Fragment) (fs : List Fragment) (r s : Reassembler)
      → FromPayload payload t f
      → Honest r
      → Received (add_fragment r f).0 fs s
      → Received r (f ∷ fs) s
  Received-cons f fs r s a h rest = record {
    honest = rest.honest;
    keeps = λ k e. rest.keeps k (ground (arith, now k));
    holds = λ k m.
        Or.elim ¬_prop (mem-cons.0 m)
          (λ e. rest.keeps k (ground (arith, now k, ap (λ (g : Fragment). g.fragment_id) e)))
          (λ m'. rest.holds k m');
    knows = λ _. rest.still total;
    still = λ _. rest.still total;
  }
    where
      now :
          (k : ℕ)
          → get k (add_fragment r f).0.fragments
            ≡ (if f.fragment_id == k then some (piece payload f.fragment_id) else get k r.fragments)
      now k =
          ap (λ (g : Fragment). get k (add_fragment r g).0.fragments) a.0
          ∙ add_fragment-get r f.fragment_id k h a.1

      total : (add_fragment r f).0.total_expected ≡ some t
      total =
          ap (λ (g : Fragment). (add_fragment r g).0.total_expected) a.0
          ∙ add_fragment-total r f.fragment_id h a.1

  receive-Received :
      (fs : List Fragment) (r : Reassembler)
      → All (FromPayload payload t) fs
      → Honest r
      → Received r fs (receive r fs)
  unfolding receive
  receive-Received [] r a h = record {
    honest = h;
    keeps = λ k e. e;
    holds = λ k m. absurd (not-mem-nil m);
    knows = λ ne. absurd (ne refl);
    still = λ e. e;
  }
  receive-Received (f ∷ fs) r a h = Received-cons f fs r (receive (add_fragment r f).0 fs) a.0 h (
      receive-Received fs (add_fragment r f).0 a.1 (
        subst (λ g. Honest (add_fragment r g).0) (sym a.0.0)
          (add_fragment-Honest r f.fragment_id h a.0.1)))

  new-Honest : (now : ℕ) → Honest (new now)
  unfolding new get
  new-Honest now = record { valid = new-IsValid now; total = inl refl; agree = λ k. inl refl }

  -- An honest session that knows the total and holds every piece gives the payload back.
  payload_of_full :
      (r : Reassembler)
      → Honest r
      → r.total_expected ≡ some t
      → ((k : ℕ) → k < t → get k r.fragments ≢ none)
      → length payload ≤ t * max_fragment_data
      → (is_complete r ≡ true) × (reassemble r ≡ ok payload)
  unfolding is_complete reassemble
  payload_of_full r h e all covers = (rw (e, is_complete) count, rw (e, reassemble) bytes)
    where
      fits : FitsTotal (some t) r.fragments
      fits = rw e at h.valid.fits

      count : (length r.fragments == t) ≡ true
      count = (==_iff (length r.fragments) t).1 (
          omega (
            arith,
            length-le_of_KeysBelow t r.fragments h.valid.distinct fits.2,
            le-length_of_present t r.fragments h.valid.distinct all,
          ))

      bytes : gather r.fragments 0 t [] ≡ ok payload
      bytes =
          gather_pieces payload r.fragments 0 t []
            (λ k l. ground (arith, all k (omega arith), h.agree k))
          ∙ ap (λ (xs : List ℕ). ok xs)
              (ap (take (t * max_fragment_data)) (drop_none payload)
                ∙ take_of_length-le (t * max_fragment_data) payload covers)

-- Every fragment of a list whose members are fragments of the payload is one of its pieces.
FromPayload-All :
    (payload : List ℕ) (fs : List Fragment)
    → ((f : Fragment) → Mem f fs → Mem f (fragment_payload payload))
    → All (FromPayload payload (total_of payload)) fs
FromPayload-All payload [] h = tt
FromPayload-All payload (f ∷ fs) h = (
  from (
      fragment_range-mem payload (total_of payload) 0 (total_of payload) f
        (unfold fragment_payload in h f mem-cons_self)),
  FromPayload-All payload fs (λ g m. h g (mem-cons_of_mem f m)),
)
  where
    from : {A : Type 0} {a b : ℕ} → A × (a < 0 + b) → A × (a < b)
    from r = (r.0, omega (arith, r.1))

-- Whatever the order in which a payload's fragments arrive, and however often each, the session is
-- complete at the end and gives the payload back.
pub reassemble_any_order :
    (payload : List ℕ) (arrived : List Fragment) (now : ℕ)
    → length payload ≤ max_fragments_per_message * max_fragment_data
    → ((f : Fragment) → Mem f arrived ↔ Mem f (fragment_payload payload))
    → let r = receive (new now) arrived in (is_complete r ≡ true) × (reassemble r ≡ ok payload)
reassemble_any_order payload arrived now h same =
    payload_of_full payload (total_of payload) (bounds.0) (bounds.1) (receive (new now) arrived)
      got.honest (got.knows some_arrived) (λ k l. got.holds k (comes k l)) bounds.2
  where
    bounds :
        (0 < total_of payload)
        × (total_of payload ≤ max_fragments_per_message)
        × (length payload ≤ total_of payload * max_fragment_data)
    bounds = total_of_bounds payload h

    got :
        Received payload
          (total_of payload)
          bounds.0
          bounds.1
          (new now)
          arrived
          (receive (new now) arrived)
    got =
        receive-Received payload (total_of payload) bounds.0 bounds.1 arrived (new now)
          (FromPayload-All payload arrived (λ f m. (same f).0 m))
          (new-Honest payload (total_of payload) bounds.0 bounds.1 now)

    comes : (k : ℕ) → k < total_of payload → Mem (nth_fragment payload (total_of payload) k) arrived
    comes k l = (same _).1 (
        unfold fragment_payload in
        mem-fragment_range payload (total_of payload) 0 (total_of payload) k (omega arith)
          (omega arith))

    some_arrived : arrived ≢ []
    some_arrived = λ e.
        not-mem-nil (subst (Mem (nth_fragment payload (total_of payload) 0)) e (comes 0 bounds.0))
