-- ===== src/Mesh/SwapProtocol/Completion.antt =====
-- What the last message of a swap brings about.
use static.Common.{
  ℕ, ◌≡◌, refl, Bool, true, not, none, some, [], arith, ==_refl, inl, inr, Bool-cases,
  if◌then◌else◌, false, ◌&&◌, ap, ◌∙◌,
}
use static.HashMap.{HashMap, get}
use static.HashMap.Laws.{get-modify}
use static.Storage.Crypto.{Crypto}
use static.Storage.Swap.Commit as Commit
use static.Storage.Swap.Commit.{SwapCommit}
use static.Storage.Swap.State.{SwapState, PendingSwap, mark_commit_received}
use static.Mesh.SwapProtocol.{
  Node, Reply, is_with_peer, handle_commit, authenticate, finalize_swap_if_ready,
  note_peer_activity, check_maintenance_sender,
}
use static.Mesh.SwapProtocol.Settlement.{
  Untouched, Settles, Waits, committed, Turn, Turn-same, finalize-Turn,
}

-- What a commit brings about, and a second one after it: a swap that is ready is settled by the first
-- and not again by the second, and one that is not waits.
abbrev pub Outcome : Bool → Node → ℕ → PendingSwap → Node → Node → Type 0
Outcome true n pid w n' n'' = Settles n pid w n' × Untouched n' n''
Outcome false n pid w n' n'' = Waits n pid w n'

module _ (c : Crypto) where
  get-marked :
      (s : SwapState) (pid : ℕ) (w : PendingSwap)
      → get pid s.pending_swaps ≡ some w
      → get pid (mark_commit_received s pid).0.pending_swaps ≡ some (committed w)
  unfolding mark_commit_received
  get-marked s pid w e = ground (
    arith,
    ==_refl pid,
    get-modify pid pid (λ v. record v { received_commit = true }) w s.pending_swaps e,
  )

  -- The handler once the sender is known.
  abbrev respond : Node → Bool → SwapCommit → Reply
  respond n go m =
      if not go
      then (n, [])
      else if is_with_peer m.from_node (get m.proposal_id n.swaps.pending_swaps)
      then (
        (finalize_swap_if_ready c
            (record n { swaps = (mark_commit_received n.swaps m.proposal_id).0 }) m.proposal_id).0,
        [],
      )
      else (n, [])

  respond-Turn :
      (n₀ n : Node) (nonces : HashMap ℕ) (go : Bool) (m : SwapCommit) (w : PendingSwap)
      → n ≡ record n₀ { maintenance_nonces = nonces }
      → go ≡ true
      → get m.proposal_id n₀.swaps.pending_swaps ≡ some w
      → w.peer ≡ m.from_node
      → Turn (w.sent_commit && w.received_their_chunk) n₀ m.proposal_id w (respond n go m).0
  respond-Turn n₀ n nonces go m w same e found peer =
      let with_peer : is_with_peer m.from_node (get m.proposal_id n₀.swaps.pending_swaps) ≡ true =
        rw found (ground (arith, peer)) in
      let n' = record n₀ { maintenance_nonces = nonces } in
      let ready = w.sent_commit && w.received_their_chunk in
      let swaps = (mark_commit_received n₀.swaps m.proposal_id).0 in
      rw (same, e, with_peer)
        (Turn-same ready n₀ swaps nonces n₀.peer_activity m.proposal_id w _ (
          finalize-Turn c (record n' { swaps = swaps }) m.proposal_id w ready
            (get-marked n₀.swaps m.proposal_id w found) refl))

  respond-Untouched :
      (n₀ n : Node) (nonces : HashMap ℕ) (go : Bool) (m : SwapCommit)
      → n ≡ record n₀ { maintenance_nonces = nonces }
      → get m.proposal_id n₀.swaps.pending_swaps ≡ none
      → Untouched n₀ (respond n go m).0
  respond-Untouched n₀ n nonces false m same gone = rw same (refl, refl, refl, refl)
  respond-Untouched n₀ n nonces true m same gone = rw (same, gone) (refl, refl, refl, refl)

  only_nonces :
      (n : Node) (signed : Bool) (sender identity nonce now : ℕ)
      → let m = (authenticate c n signed sender identity nonce now).0 in
        m ≡ record n { maintenance_nonces = m.maintenance_nonces }
  unfolding authenticate
  only_nonces n signed sender identity nonce now = elim (Bool-cases signed) [
    | inr e ↦ rw e refl
    | inl e ↦ rw e (elim (Bool-cases (check_maintenance_sender n sender identity)) [
      | inr wrong ↦ rw wrong refl
      | inl right ↦ rw right refl
    ])
  ]

  handle_commit-Turn :
      (n : Node) (m : SwapCommit) (w : PendingSwap) (now : ℕ)
      → (authenticate c
          (note_peer_activity n m.from_node now)
          (Commit.verify_signature c m)
          m.from_node
          m.identity_public_key
          m.nonce
          now).1
        ≡ true
      → get m.proposal_id n.swaps.pending_swaps ≡ some w
      → w.peer ≡ m.from_node
      → Turn (w.sent_commit && w.received_their_chunk) n m.proposal_id w (handle_commit c n m now).0
  unfolding handle_commit note_peer_activity
  handle_commit-Turn n m w now authentic found peer =
      let turn =
        authenticate c (note_peer_activity n m.from_node now) (Commit.verify_signature c m)
          m.from_node m.identity_public_key m.nonce now in
      Turn-same (w.sent_commit && w.received_their_chunk) n n.swaps n.maintenance_nonces
        (note_peer_activity n m.from_node now).peer_activity m.proposal_id w _
        (respond-Turn (note_peer_activity n m.from_node now) turn.0 turn.0.maintenance_nonces turn.1
          m w
          (only_nonces (note_peer_activity n m.from_node now) (Commit.verify_signature c m)
            m.from_node m.identity_public_key m.nonce now)
          authentic found peer)

  handle_commit-Untouched :
      (n : Node) (m : SwapCommit) (now : ℕ)
      → get m.proposal_id n.swaps.pending_swaps ≡ none
      → Untouched n (handle_commit c n m now).0
  unfolding handle_commit note_peer_activity
  handle_commit-Untouched n m now gone =
      let turn =
        authenticate c (note_peer_activity n m.from_node now) (Commit.verify_signature c m)
          m.from_node m.identity_public_key m.nonce now in
      respond-Untouched (note_peer_activity n m.from_node now) turn.0 turn.0.maintenance_nonces
        turn.1 m
        (only_nonces (note_peer_activity n m.from_node now) (Commit.verify_signature c m)
          m.from_node m.identity_public_key m.nonce now)
        gone

  outcome :
      (ready : Bool) (n n' : Node) (pid : ℕ) (w : PendingSwap) (again : SwapCommit) (later : ℕ)
      → again.proposal_id ≡ pid
      → Turn ready n pid w n'
      → Outcome ready n pid w n' (handle_commit c n' again later).0
  outcome true n n' pid w again later same t = (
    t,
    handle_commit-Untouched n' again later (ap (λ id. get id n'.swaps.pending_swaps) same ∙ t.0),
  )
  outcome false n n' pid w again later same t = t

  -- An authentic commit from the peer of a pending swap. If our commit is sent and the peer's chunk has
  -- come in, the swap ends and its reservation with it; a chunk that is not held yet is stored with the
  -- bytes that came in, its reserved bytes become stored bytes and one more chunk is counted for the
  -- peer, while a chunk that is held stays as it is and nothing is counted; other chunks and other
  -- peers' counts stay, and a second commit for the swap, authentic or not, changes no chunk, capacity,
  -- count or lease. Otherwise the swap goes on with the commit noted, and none of these changes.
  pub commit_completes :
      (n : Node) (m again : SwapCommit) (w : PendingSwap) (now later : ℕ)
      → (authenticate c
          (note_peer_activity n m.from_node now)
          (Commit.verify_signature c m)
          m.from_node
          m.identity_public_key
          m.nonce
          now).1
        ≡ true
      → get m.proposal_id n.swaps.pending_swaps ≡ some w
      → w.peer ≡ m.from_node
      → again.proposal_id ≡ m.proposal_id
      → let n' = (handle_commit c n m now).0 in
        Outcome
          (w.sent_commit && w.received_their_chunk)
          n
          m.proposal_id
          w
          n'
          (handle_commit c n' again later).0
  commit_completes n m again w now later authentic found peer same =
      outcome (w.sent_commit && w.received_their_chunk) n (handle_commit c n m now).0 m.proposal_id
        w again later same (handle_commit-Turn n m w now authentic found peer)
