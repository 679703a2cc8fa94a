-- ===== src/Mesh/Peers.antt =====
-- crates/static-mesh/src/lib.rs: `Peer`, the operations of `MeshState` on its peers. An `Instant` and a
-- `Duration` are numbers of nanoseconds; `now` is an argument.
use static.Common.{
  ℕ, ◌+◌, ◌-◌, ◌≡◌, ◌≤◌, refl, Bool, true, false, not, Option, some, List, ltb, add64, arith,
  length, filter, map,
}
use static.HashMap.{HashMap, Distinct, get, insert, remove, modify, retain}
use static.HashMap.Laws.{get-modify, get-retain, modify-Distinct}
use static.Mesh.CoverTraffic.{BandwidthTier, CoverTrafficGenerator, record_real_traffic}

pub data PeerState : Type 0 where
  connected : PeerState
  disconnected : PeerState
  connecting : PeerState

pub record Peer : Type 0 where
  pub node_id : ℕ
  pub address : List ℕ
  pub state : PeerState
  pub tier : BandwidthTier
  pub last_seen : ℕ
  pub bytes_sent : ℕ
  pub bytes_received : ℕ

pub record MeshState : Type 0 where
  pub node_id : ℕ
  pub peers : HashMap Peer
  pub cover_traffic : CoverTrafficGenerator
  pub peer_timeout : ℕ

abbrev pub is_connected : PeerState → Bool
is_connected connected = true
is_connected disconnected = false
is_connected connecting = false

-- `Peer::new`
abbrev pub new : ℕ → ℕ → List ℕ → BandwidthTier → Peer
new now node_id address tier = record {
  node_id = node_id;
  address = address;
  state = disconnected;
  tier = tier;
  last_seen = now;
  bytes_sent = 0;
  bytes_received = 0;
}

abbrev pub mark_connected : ℕ → Peer → Peer
mark_connected now peer = record peer { state = connected; last_seen = now }

abbrev pub mark_disconnected : Peer → Peer
mark_disconnected peer = record peer { state = disconnected }

abbrev pub is_stale : ℕ → ℕ → Peer → Bool
is_stale now timeout peer = ltb timeout (now - peer.last_seen)

-- `Peer::record_sent` and `Peer::record_received`
abbrev pub count_sent : ℕ → ℕ → Peer → Peer
count_sent now bytes peer = record peer {
  bytes_sent = add64 peer.bytes_sent bytes;
  last_seen = now;
}

abbrev pub count_received : ℕ → ℕ → Peer → Peer
count_received now bytes peer = record peer {
  bytes_received = add64 peer.bytes_received bytes;
  last_seen = now;
}

unfoldable pub add_peer : ℕ → ℕ → List ℕ → BandwidthTier → MeshState → MeshState
add_peer now node_id address tier s = record s {
  peers = insert node_id (new now node_id address tier) s.peers;
}

unfoldable pub remove_peer : ℕ → MeshState → MeshState
remove_peer node_id s = record s { peers = remove node_id s.peers }

unfoldable pub get_peer : ℕ → MeshState → Option Peer
get_peer node_id s = get node_id s.peers

unfoldable pub connected_peers : MeshState → List ℕ
connected_peers s = map (λ e. e.0) (filter (λ e. is_connected e.1.state) s.peers)

unfoldable pub connected_count : MeshState → ℕ
connected_count s = length (filter (λ e. is_connected e.1.state) s.peers)

unfoldable pub prune_stale_peers : ℕ → MeshState → MeshState
prune_stale_peers now s = record s {
  peers = retain (λ k peer. not (is_stale now s.peer_timeout peer)) s.peers;
}

unfoldable pub record_sent : ℕ → ℕ → ℕ → MeshState → MeshState
record_sent now peer bytes s = record s {
  peers = modify peer (count_sent now bytes) s.peers;
  cover_traffic = record_real_traffic bytes s.cover_traffic;
}

unfoldable pub record_received : ℕ → ℕ → ℕ → MeshState → MeshState
record_received now peer bytes s = record s {
  peers = modify peer (count_received now bytes) s.peers;
}

-- A known peer from which something was received stays, with the bytes added, through every pruning
-- within the timeout, whatever its state.
pub received_peer_stays :
    (now later id bytes : ℕ) (peer : Peer) (s : MeshState)
    → Distinct s.peers
    → get_peer id s ≡ some peer
    → later ≤ now + s.peer_timeout
    → get_peer id (prune_stale_peers later (record_received now id bytes s))
      ≡ some (count_received now bytes peer)
unfolding get_peer prune_stale_peers record_received
received_peer_stays now later id bytes peer s d known h =
    let updated = modify id (count_received now bytes) s.peers in
    let p : ℕ → Peer → Bool = λ k q. not (is_stale later s.peer_timeout q) in
    let found : get id updated ≡ some (count_received now bytes peer) =
      ground (arith, get-modify id id (count_received now bytes) peer s.peers known) in
    let fresh : ltb s.peer_timeout (later - now) ≡ false = ground (arith, h) in
    rw (get-retain p id updated (modify-Distinct id _ s.peers d), found, fresh) refl
