-- ===== src/Mesh/Fragment/Pieces.antt =====
-- `fragment_payload`: how many fragments a payload has, and which bytes each carries.
use mathlib.Core.HLevel.{×_prop}
use native.Mathlib.Bridge.{le_prop}
use mathlib.Core.Logic.Or
use mathlib.Core.List.{Mem, mem-cons, not-mem-nil, mem-cons_self, mem-cons_of_mem}
use static.Common.{
  ℕ, zero, suc, ◌+◌, ◌*◌, ◌≤◌, ◌<◌, ◌≡◌, refl, sym, ap, min, List, [], ◌∷◌, arith, length, take,
  drop, slice, length-drop, length-take, ◌==◌, take-min, take_of_length-le, drop_of_length-le, ltb,
  if◌then◌else◌, Bool-cases, inl, inr,
}
use static.Mesh.Fragment.{
  Fragment, max_fragment_data, max_fragments_per_message, fragment_range, total_of,
}

-- The bytes of the `i`-th fragment.
unfoldable pub piece : List ℕ → ℕ → List ℕ
piece payload i = take max_fragment_data (drop (i * max_fragment_data) payload)

abbrev pub nth_fragment : List ℕ → ℕ → ℕ → Fragment
nth_fragment payload total i = record {
  fragment_id = i;
  total_fragments = total;
  bytes = piece payload i;
}

-- The loop's bounds checks give that piece.
loop_piece :
    (payload : List ℕ) (start : ℕ)
    → (if ltb start (length payload)
        then slice payload start (min (start + max_fragment_data) (length payload))
        else [])
      ≡ take max_fragment_data (drop start payload)
loop_piece payload start = elim (Bool-cases (ltb start (length payload))) [
  | inl e ↦ rw e (
      take-min max_fragment_data _ (drop start payload) (ground (arith, length-drop start payload)))
  | inr e ↦
      rw (e, drop_of_length-le start payload (ground arith))
        (sym (take_of_length-le max_fragment_data [] (omega arith)))
]

fragment_range-nil : (payload : List ℕ) (total i : ℕ) → fragment_range payload total i zero ≡ []
unfolding fragment_range
fragment_range-nil payload total i = refl

fragment_range-step :
    (payload : List ℕ) (total i n : ℕ)
    → fragment_range payload total i (suc n)
      ≡ nth_fragment payload total i ∷ fragment_range payload total (suc i) n
unfolding fragment_range piece
fragment_range-step payload total i n =
    ap
      (λ (d : List ℕ).
        record { fragment_id = i; total_fragments = total; bytes = d }
        ∷ fragment_range payload total (suc i) n)
      (loop_piece payload (i * max_fragment_data))

pub mem-fragment_range :
    (payload : List ℕ) (total i n k : ℕ)
    → i ≤ k
    → k < i + n
    → Mem (nth_fragment payload total k) (fragment_range payload total i n)
mem-fragment_range payload total i zero k h l = absurd (omega arith)
mem-fragment_range payload total i (suc n) k h l =
    rw (fragment_range-step payload total i n) (elim (Bool-cases (i == k)) [
      | inl e ↦ let same : k ≡ i = ground arith in rw same mem-cons_self
      | inr e ↦
          mem-cons_of_mem _
            (mem-fragment_range payload total (suc i) n k (ground arith) (omega arith))
    ])

Fragment-set : IsSet Fragment
Fragment-set = hlevel

pub fragment_range-mem :
    (payload : List ℕ) (total i n : ℕ) (f : Fragment)
    → Mem f (fragment_range payload total i n)
    → (f ≡ nth_fragment payload total f.fragment_id) × (f.fragment_id < i + n)
fragment_range-mem payload total i zero f m =
    absurd (not-mem-nil {a = f} (rw (fragment_range-nil payload total i) at m))
fragment_range-mem payload total i (suc n) f m =
    Or.elim (×_prop (Fragment-set _ _) le_prop)
      (mem-cons.0 (rw (fragment_range-step payload total i n) at m))
      (λ e. (rw e refl, ground arith))
      (λ t. let r = fragment_range-mem payload total (suc i) n f t in (r.0, omega (arith, r.1)))

-- A payload within the receiver's limits has at most 2048 fragments, and they cover it.
pub total_of_bounds :
    (payload : List ℕ)
    → length payload ≤ max_fragments_per_message * max_fragment_data
    → (0 < total_of payload)
      × (total_of payload ≤ max_fragments_per_message)
      × (length payload ≤ total_of payload * max_fragment_data)
total_of_bounds payload h = omega arith

pub length-piece-le : (payload : List ℕ) (i : ℕ) → length (piece payload i) ≤ max_fragment_data
unfolding piece
length-piece-le payload i =
    omega (arith, length-take max_fragment_data (drop (i * max_fragment_data) payload))
