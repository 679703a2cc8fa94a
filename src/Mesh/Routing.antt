-- ===== src/Mesh/Routing.antt =====
-- crates/static-mesh/src/routing.rs: the table of known nodes, the routes built from it, and gossip.
-- `shuffle` and the JSON of a list of nodes are arguments.
pub mod Routes
pub mod Gossip
mod Examples
use static.Common.{
  ℕ, Bool, true, false, not, ◌&&◌, ◌||◌, Option, none, some, List, [], ◌∷◌, ◌++◌, map, length,
  filter, take, be_bytes, min, ltb, leb, ◌==◌, if◌then◌else◌, is_some, ◌+◌,
}
use static.HashMap.{HashMap, get, insert, remove, values, keys, contains_key}
use static.Storage.Crypto.{Crypto, check_signature}

abbrev pub max_gossip_peers : ℕ
max_gossip_peers = 50

abbrev pub min_hops : ℕ
min_hops = 3

pub record KnownNode : Type 0 where
  pub node_id : ℕ
  pub public_key : ℕ
  pub address : List ℕ
  pub kem_public_key : Option (List ℕ)
  pub compute_enabled : Bool
  pub compute_capacity : ℕ
  pub identity_public_key : Option ℕ

pub record PeerGossip : Type 0 where
  pub from_node : ℕ
  pub peers : List KnownNode
  pub identity_public_key : ℕ
  pub signature : List ℕ

pub record RoutingTable : Type 0 where
  pub our_node_id : ℕ
  pub nodes : HashMap KnownNode

pub record RouteHop : Type 0 where
  pub public_key : ℕ
  pub node_id : ℕ

pub record Route : Type 0 where
  pub hops : List RouteHop
  pub destination : ℕ

pub record HybridRouteHop : Type 0 where
  pub node_id : ℕ
  pub classical_public_key : ℕ
  pub kem_public_key : List ℕ

pub record HybridRoute : Type 0 where
  pub hops : List HybridRouteHop
  pub destination : ℕ

abbrev pub new : ℕ → RoutingTable
new our_node_id = record { our_node_id = our_node_id; nodes = [] }

unfoldable pub add_node : KnownNode → RoutingTable → RoutingTable
add_node node t =
    if not (node.node_id == t.our_node_id)
    then record t { nodes = insert node.node_id node t.nodes }
    else t

unfoldable pub remove_node : ℕ → RoutingTable → RoutingTable
remove_node node_id t = record t { nodes = remove node_id t.nodes }

abbrev pub get_node : ℕ → RoutingTable → Option KnownNode
get_node node_id t = get node_id t.nodes

abbrev pub Shuffle : Type 0
Shuffle = List KnownNode → List KnownNode

unfoldable pub random_route : Shuffle → ℕ → RoutingTable → Option (List KnownNode)
random_route shuffle hop_count t =
    if ltb (length t.nodes) hop_count
    then none
    else some (take hop_count (shuffle (values t.nodes)))

abbrev pub hop_of : KnownNode → RouteHop
hop_of n = record { public_key = n.public_key; node_id = n.node_id }

abbrev pub route_to : ℕ → ℕ → Option (List KnownNode) → Option Route
route_to destination dest_public_key none = none
route_to destination dest_public_key (some intermediates) = some (record {
  hops =
      map hop_of intermediates
      ++ (record { public_key = dest_public_key; node_id = destination } ∷ []);
  destination = destination;
})

unfoldable pub build_route_to : Shuffle → ℕ → ℕ → ℕ → RoutingTable → Option Route
build_route_to shuffle destination dest_public_key hop_count t =
    route_to destination dest_public_key (random_route shuffle hop_count t)

-- `nodes.last()`
abbrev pub last_node : List KnownNode → Option KnownNode
last_node [] = none
last_node (n ∷ []) = some n
last_node (n ∷ m ∷ nodes) = last_node (m ∷ nodes)

abbrev pub ending_at : List KnownNode → Option KnownNode → Option Route
ending_at nodes none = none
ending_at nodes (some last) = some (record { hops = map hop_of nodes; destination = last.node_id })

abbrev pub cover_over : Option (List KnownNode) → Option Route
cover_over none = none
cover_over (some nodes) = ending_at nodes (last_node nodes)

unfoldable pub build_cover_route : Shuffle → ℕ → RoutingTable → Option Route
build_cover_route shuffle hop_count t = cover_over (random_route shuffle hop_count t)

-- `kem_public_key.clone().unwrap_or_default()`
abbrev pub or_empty : Option (List ℕ) → List ℕ
or_empty none = []
or_empty (some key) = key

abbrev pub hybrid_hop_of : KnownNode → HybridRouteHop
hybrid_hop_of n = record {
  node_id = n.node_id;
  classical_public_key = n.public_key;
  kem_public_key = or_empty n.kem_public_key;
}

abbrev pub hybrid_over : ℕ → ℕ → List ℕ → List KnownNode → HybridRoute
hybrid_over destination dest_public_key dest_kem nodes = record {
  hops =
      map hybrid_hop_of nodes
      ++ (record {
        node_id = destination;
        classical_public_key = dest_public_key;
        kem_public_key = dest_kem;
      }
          ∷ []);
  destination = destination;
}

-- A node that may carry a packet of ours to the destination.
abbrev pub is_candidate : ℕ → ℕ → KnownNode → Bool
is_candidate destination ours n =
    not (n.node_id == destination) && (not (n.node_id == ours) && is_some n.kem_public_key)

unfoldable pub build_hybrid_route : Shuffle → ℕ → ℕ → List ℕ → RoutingTable → Option HybridRoute
build_hybrid_route shuffle destination dest_public_key dest_kem t =
    let candidates = filter (is_candidate destination t.our_node_id) (values t.nodes) in
    if ltb (length candidates) min_hops
    then none
    else some
        (hybrid_over destination dest_public_key dest_kem (take min_hops (shuffle candidates)))

-- `for n in &intermediates { if n.kem_public_key.is_none() { return None } }`
abbrev pub all_hybrid : List KnownNode → Bool
all_hybrid [] = true
all_hybrid (n ∷ nodes) = is_some n.kem_public_key && all_hybrid nodes

abbrev pub hybrid_to : ℕ → ℕ → List ℕ → Option (List KnownNode) → Option HybridRoute
hybrid_to destination dest_public_key dest_kem none = none
hybrid_to destination dest_public_key dest_kem (some nodes) =
    if all_hybrid nodes then some (hybrid_over destination dest_public_key dest_kem nodes) else none

unfoldable pub build_hybrid_route_to :
    Shuffle → ℕ → ℕ → List ℕ → ℕ → RoutingTable → Option HybridRoute
build_hybrid_route_to shuffle destination dest_public_key dest_kem hop_count t =
    hybrid_to destination dest_public_key dest_kem (random_route shuffle hop_count t)
