-- ===== src/Mesh/Fragment/Reassembler.antt =====
-- crates/static-mesh/src/fragment.rs, `Reassembler`: one message's fragments as they arrive. An
-- `Instant` is a number of nanoseconds, and the clock is an argument of what reads it.
pub mod Inv
pub mod RoundTrip
use static.Common.{
  ℕ, zero, suc, ◌+◌, ◌-◌, ◌*◌, ◌^◌, Bool, true, false, not, ◌&&◌, ◌||◌, Option, none, some, List,
  [], ◌∷◌, ◌++◌, length, ltb, leb, ◌==◌, if◌then◌else◌,
}
use static.HashMap.{HashMap, get, insert, contains_key}
use static.Mesh.Fragment.{
  Fragment, Result, ok, err, no_fragments, missing_fragment, max_fragment_data,
  max_fragments_per_message,
}

pub record Reassembler : Type 0 where
  pub total_expected : Option ℕ
  pub fragments : HashMap (List ℕ)
  pub created_at : ℕ

unfoldable pub new : ℕ → Reassembler
new now = record { total_expected = none; fragments = []; created_at = now }

-- The tests that `add_fragment` and `can_accept` begin with.
abbrev pub out_of_bounds : Fragment → Bool
out_of_bounds f =
    (f.total_fragments == 0 || ltb max_fragments_per_message f.total_fragments)
    || (leb f.total_fragments f.fragment_id || ltb max_fragment_data (length f.bytes))

store : Reassembler → Fragment → Reassembler × Bool
store r f =
    if contains_key f.fragment_id r.fragments
    then (r, false)
    else (record r { fragments = insert f.fragment_id f.bytes r.fragments }, true)

unfoldable pub add_fragment : Reassembler → Fragment → Reassembler × Bool
unfolding store
add_fragment r f = if out_of_bounds f then (r, false) else elim r.total_expected [
  | none ↦ store (record r { total_expected = some f.total_fragments }) f
  | some expected ↦ if expected == f.total_fragments then store r f else (r, false)
]

unfoldable pub contains_fragment : Reassembler → ℕ → Bool
contains_fragment r id = contains_key id r.fragments

unfoldable pub can_accept : Reassembler → Fragment → Bool
can_accept r f = if out_of_bounds f then false else elim r.total_expected [
  | none ↦ true
  | some expected ↦ expected == f.total_fragments && not (contains_key f.fragment_id r.fragments)
]

-- `elapsed() >= Duration::from_secs(timeout_secs)`; a clock behind `created_at` reads as no time.
unfoldable pub is_expired : Reassembler → ℕ → ℕ → Bool
is_expired r now timeout_secs = leb (timeout_secs * 10 ^ 9) (now - r.created_at)

unfoldable pub cleanup_expired : Reassembler → ℕ → ℕ → Reassembler × Bool
cleanup_expired r now timeout_secs =
    if is_expired r now timeout_secs
    then (record r { fragments = []; total_expected = none; created_at = now }, true)
    else (r, false)

unfoldable pub is_complete : Reassembler → Bool
is_complete r = elim r.total_expected [ some total ↦ length r.fragments == total | none ↦ false ]

unfoldable pub received_count : Reassembler → ℕ
received_count r = length r.fragments

-- The rounds `i..i + n` of the loop in `reassemble`.
unfoldable pub gather : HashMap (List ℕ) → ℕ → ℕ → List ℕ → Result (List ℕ)
gather m i zero out = ok out
gather m i (suc n) out = elim (get i m) [
  | none ↦ err (missing_fragment i)
  | some d ↦ gather m (suc i) n (out ++ d)
]

unfoldable pub reassemble : Reassembler → Result (List ℕ)
reassemble r = elim r.total_expected [
  | none ↦ err no_fragments
  | some total ↦ gather r.fragments 0 total []
]

-- The fragments that arrive, in order.
unfoldable pub receive : Reassembler → List Fragment → Reassembler
receive r [] = r
receive r (f ∷ fs) = receive (add_fragment r f).0 fs
