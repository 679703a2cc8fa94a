-- ===== src/Mesh/Routing/Gossip.antt =====
-- crates/static-mesh/src/routing.rs: gossip of known nodes. `to_json` is `serde_json::to_vec`, or no
-- bytes where that fails; `kem_size` is the size of a KEM key of the cipher library.
use static.Common.{
  ℕ, suc, ◌+◌, ◌≡◌, ◌≤◌, ◌≢◌, refl, ap, ◌∙◌, Bool, true, false, not, ◌||◌, Option, none, some, List,
  [], ◌∷◌, ◌++◌, map, length, take, be_bytes, min, ltb, ◌==◌, if◌then◌else◌, arith, All, Bool-cases,
  inl, inr, length-take,
}
use static.HashMap.{HashMap, get, insert, values, contains_key}
use static.HashMap.Laws.{get-insert, length-insert_absent}
use static.Storage.Crypto.{Crypto, CryptoLaws, check_signature, check_signature-sign}
use static.Mesh.Routing.{KnownNode, PeerGossip, RoutingTable, Shuffle, add_node, max_gossip_peers}

-- A gossiped entry bears neither a KEM key nor an address.
abbrev pub stripped : KnownNode → KnownNode
stripped n = record n { address = []; kem_public_key = none }

unfoldable pub unsigned_gossip : Shuffle → ℕ → RoutingTable → PeerGossip
unsigned_gossip shuffle max_peers t = record {
  from_node = t.our_node_id;
  peers = map stripped (take (min max_peers max_gossip_peers) (shuffle (values t.nodes)));
  identity_public_key = 0;
  signature = [];
}

abbrev pub differs : ℕ → Option ℕ → Bool
differs key none = false
differs key (some stored) = not (stored == key)

-- The sender is known by another identity key.
abbrev pub is_impostor : PeerGossip → Option KnownNode → Bool
is_impostor gossip none = false
is_impostor gossip (some known) = differs gossip.identity_public_key known.identity_public_key

abbrev pub wrong_size : ℕ → Option (List ℕ) → Bool
wrong_size kem_size none = false
wrong_size kem_size (some kem) = not (length kem == kem_size)

abbrev pub is_skipped : ℕ → RoutingTable → KnownNode → Bool
is_skipped kem_size t peer =
    (peer.node_id == t.our_node_id)
    || (contains_key peer.node_id t.nodes
        || (ltb 256 (length peer.address) || wrong_size kem_size peer.kem_public_key))

-- The loop over the entries: the table, and how many are new.
unfoldable pub add_peers : ℕ → List KnownNode → RoutingTable → RoutingTable × ℕ
add_peers kem_size [] t = (t, 0)
add_peers kem_size (peer ∷ peers) t =
    let added = add_peers kem_size peers (add_node peer t) in
    let skipped = add_peers kem_size peers t in
    if is_skipped kem_size t peer then skipped else (added.0, suc added.1)

module _ (c : Crypto) (to_json : List KnownNode → List ℕ) where
  unfoldable pub signing_bytes : PeerGossip → List ℕ
  signing_bytes g = be_bytes 16 g.from_node ++ be_bytes 32 (c.hash (to_json g.peers))

  unfoldable pub sign : ℕ → PeerGossip → PeerGossip
  sign key g = record g {
    identity_public_key = c.verifying_key key;
    signature = c.sign key (signing_bytes g);
  }

  unfoldable pub verify : PeerGossip → Bool
  verify g =
      if ltb max_gossip_peers (length g.peers)
      then false
      else check_signature c g.identity_public_key (signing_bytes g) g.signature

  unfoldable pub create_signed_gossip : Shuffle → ℕ → ℕ → RoutingTable → PeerGossip
  create_signed_gossip shuffle max_peers key t = sign key (unsigned_gossip shuffle max_peers t)

  unfoldable pub process_gossip : ℕ → PeerGossip → RoutingTable → RoutingTable × ℕ
  process_gossip kem_size gossip t =
      if not (verify gossip)
      then (t, 0)
      else if is_impostor gossip (get gossip.from_node t.nodes)
      then (t, 0)
      else add_peers kem_size gossip.peers t

-- A peer that is not skipped is new and not ourselves.
fresh_peer :
    (kem_size : ℕ) (peer : KnownNode) (t : RoutingTable)
    → is_skipped kem_size t peer ≡ false
    → (add_node peer t ≡ record t { nodes = insert peer.node_id peer t.nodes })
      × (get peer.node_id t.nodes ≡ none)
      × (peer.node_id ≢ t.our_node_id)
unfolding add_node
fresh_peer kem_size peer t h =
    let other : (peer.node_id == t.our_node_id) ≡ false = ground (arith, h) in
    (rw other refl, ground (arith, h), ground (arith, other))

get-insert_fresh :
    (peer : KnownNode) (m : HashMap KnownNode) (k : ℕ) (n : KnownNode)
    → get peer.node_id m ≡ none
    → get k m ≡ some n
    → get k (insert peer.node_id peer m) ≡ some n
get-insert_fresh peer m k n absent e = ground (arith, get-insert peer.node_id k peer m, absent, e)

get-insert_other :
    (peer : KnownNode) (m : HashMap KnownNode) (k : ℕ)
    → peer.node_id ≢ k
    → get k (insert peer.node_id peer m) ≡ get k m
get-insert_other peer m k other = ground (arith, get-insert peer.node_id k peer m, other)

add_peers-keeps :
    (kem_size : ℕ) (peers : List KnownNode) (t : RoutingTable)
    → ((k : ℕ) (n : KnownNode)
        → get k t.nodes ≡ some n
        → get k (add_peers kem_size peers t).0.nodes ≡ some n)
      × (get t.our_node_id (add_peers kem_size peers t).0.nodes ≡ get t.our_node_id t.nodes)
      × (length (add_peers kem_size peers t).0.nodes
          ≡ length t.nodes + (add_peers kem_size peers t).1)
unfolding add_peers
add_peers-keeps kem_size [] t = (λ k n e. e, refl, omega arith)
add_peers-keeps kem_size (peer ∷ peers) t = elim (Bool-cases (is_skipped kem_size t peer)) [
  | inl skip ↦ rw skip (add_peers-keeps kem_size peers t)
  | inr fresh ↦
      let (added, absent, other) = fresh_peer kem_size peer t fresh in
      let larger = record t { nodes = insert peer.node_id peer t.nodes } in
      let (known, ours, count) = add_peers-keeps kem_size peers larger in
      let one_more = length-insert_absent peer.node_id peer t.nodes absent in
      rw (fresh, added)
        (
          λ k n e. known k n (get-insert_fresh peer t.nodes k n absent e),
          ours ∙ get-insert_other peer t.nodes t.our_node_id other,
          omega (arith, count, one_more),
        )
]

-- Whatever gossip says, processing it neither changes nor removes a node that is known, does not make
-- this node known to itself, and reports how many nodes the table has gained.
pub process_gossip-keeps :
    (c : Crypto) (to_json : List KnownNode → List ℕ) (kem_size : ℕ) (gossip : PeerGossip)
    → (t : RoutingTable) (k : ℕ) (n : KnownNode) → get k t.nodes ≡ some n
    → (get k (process_gossip c to_json kem_size gossip t).0.nodes ≡ some n)
      × (get t.our_node_id (process_gossip c to_json kem_size gossip t).0.nodes
          ≡ get t.our_node_id t.nodes)
      × (length (process_gossip c to_json kem_size gossip t).0.nodes
          ≡ length t.nodes + (process_gossip c to_json kem_size gossip t).1)
unfolding process_gossip
process_gossip-keeps c to_json kem_size gossip t k n h =
    let (known, ours, count) = add_peers-keeps kem_size gossip.peers t in
    elim (Bool-cases (verify c to_json gossip)) [
      | inr e ↦ rw e (h, refl, omega arith)
      | inl e ↦ elim (Bool-cases (is_impostor gossip (get gossip.from_node t.nodes))) [
        | inl i ↦ rw (e, i) (h, refl, omega arith)
        | inr i ↦ rw (e, i) (known k n h, ours, count)
      ]
    ]

length-map :
    (f : KnownNode → KnownNode) (nodes : List KnownNode) → length (map f nodes) ≡ length nodes
length-map f [] = refl
length-map f (n ∷ nodes) = ap suc (length-map f nodes)

-- What a node gossips of its table verifies, and names at most fifty nodes, without the KEM keys and
-- addresses that would map the network.
pub create_signed_gossip-verifies :
    (c : Crypto) (to_json : List KnownNode → List ℕ) (shuffle : Shuffle) (max_peers key : ℕ)
    → (t : RoutingTable) → CryptoLaws c
    → let g = create_signed_gossip c to_json shuffle max_peers key t in
      (verify c to_json g ≡ true)
      × (length g.peers ≤ max_gossip_peers)
      × All (λ (n : KnownNode). (n.address ≡ []) × (n.kem_public_key ≡ none)) g.peers
unfolding create_signed_gossip unsigned_gossip sign verify signing_bytes
create_signed_gossip-verifies c to_json shuffle max_peers key t l =
    let picked = take (min max_peers max_gossip_peers) (shuffle (values t.nodes)) in
    let few : length (map stripped picked) ≤ max_gossip_peers = omega (
      arith,
      length-map stripped picked,
      length-take (min max_peers max_gossip_peers) (shuffle (values t.nodes)),
    ) in
    let within : ltb max_gossip_peers (length (map stripped picked)) ≡ false =
      ground (arith, few) in
    (
      rw within (
          check_signature-sign c key (signing_bytes c to_json (unsigned_gossip shuffle max_peers t))
            l),
      few,
      all_stripped picked,
    )
  where
    all_stripped :
        (nodes : List KnownNode)
        → All (λ (n : KnownNode). (n.address ≡ []) × (n.kem_public_key ≡ none)) (map stripped nodes)
    all_stripped [] = tt
    all_stripped (n ∷ nodes) = ((refl, refl), all_stripped nodes)
