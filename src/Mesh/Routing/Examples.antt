-- ===== src/Mesh/Routing/Examples.antt =====
-- The routing theorems at concrete tables.
use mathlib.Core.List.Perm
use static.Common.{
  ℕ, ◌+◌, ◌≡◌, ◌<◌, ◌≤◌, ◌⊎◌, refl, false, Option, none, some, List, [], ◌∷◌, length,
}
use static.HashMap.{get}
use static.Storage.Examples.{toy}
use static.Mesh.Routing.{
  KnownNode, RoutingTable, PeerGossip, hybrid_over, build_hybrid_route, min_hops,
}
use static.Mesh.Routing.Routes.{IsTable, IsAnonymous, candidates_of, build_hybrid_route-IsAnonymous}
use static.Mesh.Routing.Gossip.{process_gossip, process_gossip-keeps}

abbrev node_with : ℕ → Option (List ℕ) → KnownNode
node_with id kem = record {
  node_id = id;
  public_key = 100 + id;
  address = [];
  kem_public_key = kem;
  compute_enabled = false;
  compute_capacity = 0;
  identity_public_key = none;
}

abbrev table : RoutingTable
table = record {
  our_node_id = 1;
  nodes =
      (2, node_with 2 (some []))
      ∷ ((3, node_with 3 (some [])) ∷ ((4, node_with 4 none) ∷ ((5, node_with 5 (some [])) ∷ [])));
}

table-IsTable : IsTable table
unfolding get
table-IsTable = record {
  distinct = (refl, (refl, (refl, (refl, tt))));
  keyed = (refl, (refl, (refl, (refl, tt))));
}

build_hybrid_route-IsAnonymous_example :
    (build_hybrid_route (λ nodes. nodes) 9 99 [] table ≡ none)
      × (length (candidates_of table 9) < min_hops)
    ⊎ (min_hops ≤ length (candidates_of table 9))
      × (nodes : List KnownNode) × (build_hybrid_route (λ nodes. nodes) 9 99 [] table
          ≡ some (hybrid_over 9 99 [] nodes))
      × IsAnonymous table 9 nodes
build_hybrid_route-IsAnonymous_example =
    build_hybrid_route-IsAnonymous (λ nodes. nodes) 9 99 [] table table-IsTable Perm.refl

abbrev a_gossip : PeerGossip
a_gossip = record {
  from_node = 2;
  peers = node_with 3 none ∷ (node_with 7 none ∷ []);
  identity_public_key = 8;
  signature = [];
}

process_gossip-keeps_example :
    (get 3 (process_gossip toy (λ nodes. []) 1184 a_gossip table).0.nodes
      ≡ some (node_with 3 (some [])))
    × (get 1 (process_gossip toy (λ nodes. []) 1184 a_gossip table).0.nodes ≡ get 1 table.nodes)
    × (length (process_gossip toy (λ nodes. []) 1184 a_gossip table).0.nodes
        ≡ length table.nodes + (process_gossip toy (λ nodes. []) 1184 a_gossip table).1)
unfolding get
process_gossip-keeps_example =
    process_gossip-keeps toy (λ nodes. []) 1184 a_gossip table 3 (node_with 3 (some [])) refl
