-- ===== src/Mesh/Examples.antt =====
-- Concrete payloads, tables and caches, and the theorems on fragments and nonces applied to them.
use mathlib.Core.List.{reverse, mem-reverse}
use mathlib.Core.List.Perm
use static.Common.{
  ℕ, zero, suc, ◌+◌, ◌≤◌, ◌≡◌, ◌≢◌, refl, true, false, some, none, List, [], ◌∷◌, ◌++◌, length,
  arith, replicate, length-replicate, All,
}
use static.HashMap.{HashMap, get, insert, remove, retain, keys, Distinct}
use static.Mesh.Fragment.{Fragment, ok, fragment_payload, serialize_fragment, deserialize_fragment}
use static.Mesh.Fragment.Codec.{deserialize-serialize}
use static.Mesh.Fragment.Reassembler as Reassembler
use static.Mesh.Fragment.Reassembler.{
  Reassembler, receive, is_complete, reassemble, can_accept, is_expired,
}
use static.Mesh.Fragment.Reassembler.Inv as Session
use static.Mesh.Fragment.Reassembler.Inv.{
  reassemble_of_is_complete, can_accept-eq-add_fragment, receive-IsValid,
}
use static.Mesh.Fragment.Reassembler.RoundTrip.{reassemble_any_order}
use static.Mesh.Fragment.Manager.{
  ReassemblyManager, Call, adds, removes, cleans, run, get_or_create,
}
use static.Mesh.Fragment.Manager.Inv as Table
use static.Mesh.Fragment.Manager.Safety.{run-IsValid, get_or_create_evicts_oldest}
use static.HashMap.Sums.{sum_of}
use static.Mesh.Replay.{check_nonce}
use static.Mesh.Replay.Window.{count_since, check_each, replay_refused}
use static.Mesh.Replay as Replay

abbrev small_fragment : Fragment
small_fragment = record { fragment_id = 1; total_fragments = 3; bytes = 10 ∷ 20 ∷ 30 ∷ [] }

deserialize-serialize_example :
    deserialize_fragment (serialize_fragment small_fragment) ≡ ok small_fragment
deserialize-serialize_example =
    deserialize-serialize small_fragment (omega arith) (omega arith) (omega arith)

-- A payload of two fragments.
abbrev long_payload : List ℕ
long_payload = replicate 1500 7

reassemble_any_order_example :
    let r = receive (Reassembler.new 0) (reverse (fragment_payload long_payload)) in
    (is_complete r ≡ true) × (reassemble r ≡ ok long_payload)
reassemble_any_order_example =
    reassemble_any_order long_payload (reverse (fragment_payload long_payload)) 0
      (omega (arith, length-replicate {A = ℕ} 1500 7)) (λ f. mem-reverse {a = f})

abbrev two_fragments : List Fragment
two_fragments =
    record { fragment_id = 1; total_fragments = 2; bytes = 9 ∷ [] }
    ∷ record { fragment_id = 0; total_fragments = 2; bytes = 8 ∷ [] }
    ∷ []

two_fragments_complete : is_complete (receive (Reassembler.new 0) two_fragments) ≡ true
unfolding receive is_complete Reassembler.new Reassembler.add_fragment get insert remove
two_fragments_complete = refl

-- A table with the sessions `0 .. n - 1`.
numbered : ℕ → HashMap Reassembler
numbered zero = []
numbered (suc n) = (n, Reassembler.new 0) ∷ numbered n

numbered-none : (n k : ℕ) → n ≤ k → get k (numbered n) ≡ none
unfolding numbered get
numbered-none zero k h = refl
numbered-none (suc n) k h = ground (arith, numbered-none n k)

numbered-Distinct : (n : ℕ) → Distinct (numbered n)
unfolding numbered
numbered-Distinct zero = tt
numbered-Distinct (suc n) = (numbered-none n n (omega arith), numbered-Distinct n)

length-numbered : (n : ℕ) → length (numbered n) ≡ n
unfolding numbered
length-numbered zero = refl
length-numbered (suc n) = omega (arith, length-numbered n)

numbered-Healthy : (n : ℕ) → All Table.Healthy (numbered n)
unfolding numbered
numbered-Healthy zero = tt
numbered-Healthy (suc n) = (Session.new-IsValid 0, numbered-Healthy n)

abbrev table_of : ℕ → ReassemblyManager
table_of n = record { sessions = numbered n; order = keys (numbered n) }

table_of-IsValid : (n : ℕ) → n ≤ 64 → Table.IsValid (table_of n)
table_of-IsValid n h = record {
  tracks = record {
    distinct = numbered-Distinct n;
    tracked = Perm.refl (keys (numbered n));
    healthy = numbered-Healthy n;
  };
  bounded = omega (arith, length-numbered n);
}

abbrev calls : List Call
calls = adds 5 1 small_fragment ∷ adds 6 2 small_fragment ∷ removes 1 ∷ cleans 900 300 ∷ []

run-IsValid_example :
    (m' : ReassemblyManager) × (run (table_of 3) calls ≡ some m') × Table.IsValid m'
run-IsValid_example = run-IsValid (table_of 3) calls (table_of-IsValid 3 (omega arith))

order-table_of : keys (numbered 64) ≡ 63 ∷ keys (numbered 63)
unfolding numbered
order-table_of = refl

get_or_create_evicts_oldest_example :
    let m' = get_or_create (table_of 64) 1 99 in
    (m'.order ≡ keys (numbered 63) ++ (99 ∷ []))
    × (get 63 m'.sessions ≡ none)
    × (get 99 m'.sessions ≡ some (Reassembler.new 1))
    × ((k : ℕ) → k ≢ 63 → k ≢ 99 → get k m'.sessions ≡ get k (numbered 64))
get_or_create_evicts_oldest_example =
    get_or_create_evicts_oldest (table_of 64) 1 99 63 (keys (numbered 63))
      (table_of-IsValid 64 (omega arith)) (length-numbered 64) order-table_of
      (numbered-none 64 99 (omega arith))

abbrev seen : HashMap ℕ
seen = (41, 1000) ∷ (42, 700) ∷ []

seen-IsValid : Replay.IsValid seen
unfolding get
seen-IsValid = record { distinct = (refl, (refl, tt)); bounded = omega arith }

nonce_is_fresh : (check_nonce seen 1001 43).1 ≡ true
unfolding check_nonce Replay.prune get retain
nonce_is_fresh = refl

abbrev checks_between : List (ℕ × ℕ)
checks_between = (1050, 43) ∷ (1100, 44) ∷ []

few_checks : suc (count_since 1001 seen) + length checks_between ≤ Replay.max_handshake_nonces
unfolding count_since sum_of
few_checks = omega arith

replay_refused_example :
    (check_nonce (check_each (check_nonce seen 1001 43).0 checks_between) 1200 43).1 ≡ false
replay_refused_example =
    replay_refused seen 1001 1200 43 checks_between seen-IsValid nonce_is_fresh
      (omega arith, (omega arith, tt)) few_checks (omega arith)
