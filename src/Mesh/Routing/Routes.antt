-- ===== src/Mesh/Routing/Routes.antt =====
-- What every hybrid route guarantees to its sender.
use mathlib.Core.List.{Perm}
use static.Common.{
  ℕ, zero, suc, ◌≡◌, ◌≤◌, ◌<◌, refl, Bool, true, none, some, List, [], ◌∷◌, ◌++◌, length, filter,
  take, ltb, ◌==◌, if◌then◌else◌, is_some, ◌⊎◌, ltb→lt, arith, All, Bool-cases, inl, inr,
  length-take,
}
use static.HashMap.{HashMap, get, values, Distinct}
use static.HashMap.Sums.{Every}
use static.HashMap.Order.{filter-perm, length-perm}
use static.HashMap.Shuffled.{passes_of_take, passes_of_shuffled, drawn_of_shuffled}
use static.Mesh.Routing.{
  KnownNode, RoutingTable, Shuffle, is_candidate, hybrid_over, build_hybrid_route, min_hops,
}

-- How often a node stands in a list.
unfoldable pub occurrences : ℕ → List KnownNode → ℕ
occurrences k nodes = length (filter (λ n. n.node_id == k) nodes)

occurrences-take-le :
    (k n : ℕ) (nodes : List KnownNode) → occurrences k (take n nodes) ≤ occurrences k nodes
unfolding occurrences filter take
occurrences-take-le k zero nodes = omega arith
occurrences-take-le k (suc n) [] = omega arith
occurrences-take-le k (suc n) (x ∷ nodes) = ground (arith, occurrences-take-le k n nodes)

occurrences-filter-le :
    (k : ℕ) (p : KnownNode → Bool) (nodes : List KnownNode)
    → occurrences k (filter p nodes) ≤ occurrences k nodes
unfolding occurrences filter
occurrences-filter-le k p [] = omega arith
occurrences-filter-le k p (x ∷ nodes) = ground (arith, occurrences-filter-le k p nodes)

-- Every node stands under its id, once.
pub record IsTable (t : RoutingTable) : Type 0 where
  pub distinct : Distinct t.nodes
  pub keyed : Every (λ k (n : KnownNode). n.node_id ≡ k) t.nodes

occurrences-values :
    (k : ℕ) (m : HashMap KnownNode)
    → Distinct m
    → Every (λ k (n : KnownNode). n.node_id ≡ k) m
    → occurrences k (values m) ≤ (if is_some (get k m) then 1 else 0)
unfolding occurrences filter get
occurrences-values k [] d own = omega arith
occurrences-values k ((j, n) ∷ m) d own =
    ground (arith, occurrences-values k m d.1 own.1, own.0, d.0)

occurrences_le_one :
    (k : ℕ) (p : KnownNode → Bool) (t : RoutingTable) (shuffled : List KnownNode)
    → IsTable t
    → Perm (filter p (values t.nodes)) shuffled
    → occurrences k (take min_hops shuffled) ≤ 1
unfolding occurrences
occurrences_le_one k p t shuffled table perm =
    let once = occurrences-values k t.nodes table.distinct table.keyed in
    let few : occurrences k (values t.nodes) ≤ 1 = ground (arith, once) in
    let kept = occurrences-filter-le k p (values t.nodes) in
    let same = length-perm (filter-perm (λ (n : KnownNode). n.node_id == k) perm) in
    omega (arith, few, kept, same, occurrences-take-le k min_hops shuffled)

-- The nodes of the table that a route to the destination may go through.
abbrev pub candidates_of : RoutingTable → ℕ → List KnownNode
candidates_of t destination = filter (is_candidate destination t.our_node_id) (values t.nodes)

-- What a route through the nodes hides: three intermediates, drawn from the candidates of the table
-- without putting back, all different, each with a KEM key, none of them the sender or the destination.
pub record IsAnonymous (t : RoutingTable) (destination : ℕ) (nodes : List KnownNode) : Type 0 where
  pub hops : length nodes ≡ min_hops
  pub others : List KnownNode
  pub drawn : Perm (candidates_of t destination) (nodes ++ others)
  pub candidates : All (λ n. is_candidate destination t.our_node_id n ≡ true) nodes
  pub different : (k : ℕ) → occurrences k nodes ≤ 1

-- However the shuffle falls, in a table where every node stands under its id: with fewer than three
-- candidates (nodes of the table with a KEM key that are neither the sender nor the destination) there
-- is no hybrid route; otherwise there is one, through three different candidates drawn from the table,
-- and then to the destination.
pub build_hybrid_route-IsAnonymous :
    (shuffle : Shuffle) (destination dest_public_key : ℕ) (dest_kem : List ℕ) (t : RoutingTable)
    → IsTable t
    → ((nodes : List KnownNode) → Perm nodes (shuffle nodes))
    → (build_hybrid_route shuffle destination dest_public_key dest_kem t ≡ none)
        × (length (candidates_of t destination) < min_hops)
      ⊎ (min_hops ≤ length (candidates_of t destination))
        × (nodes : List KnownNode) × (build_hybrid_route shuffle destination dest_public_key
              dest_kem t
            ≡ some (hybrid_over destination dest_public_key dest_kem nodes))
        × IsAnonymous t destination nodes
unfolding build_hybrid_route
build_hybrid_route-IsAnonymous shuffle destination dest_public_key dest_kem t table permutes =
    let p = is_candidate destination t.our_node_id in
    let candidates = filter p (values t.nodes) in
    let perm = permutes candidates in
    let same = length-perm perm in
    elim (Bool-cases (ltb (length candidates) min_hops)) [
      | inl few ↦ inl (rw few refl, ltb→lt (length candidates) min_hops few)
      | inr enough ↦
          let many : min_hops ≤ length candidates = ground (arith, enough) in
          let (others, drawn) =
            drawn_of_shuffled p min_hops (values t.nodes) (shuffle candidates) perm in
          inr (
            many,
            take min_hops (shuffle candidates),
            rw enough refl,
            record {
              hops = omega (arith, length-take min_hops (shuffle candidates), same, many);
              others = others;
              drawn = drawn;
              candidates =
                  passes_of_take p min_hops (shuffle candidates)
                    (passes_of_shuffled p (values t.nodes) (shuffle candidates) perm);
              different = λ k. occurrences_le_one k p t (shuffle candidates) table perm;
            },
          )
    ]
