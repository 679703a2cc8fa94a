-- ===== src/Mesh/SwapProtocol/Safety.antt =====
-- Any sequence of messages, retrievals and timeouts.
use static.Common.{ℕ, ◌≤◌, ◌≢◌, List, [], ◌∷◌, arith, All}
use static.HashMap.{Pick}
use static.Storage.Crypto.{Crypto}
use static.Storage.Holder.{total_bytes}
use static.Storage.Swap.Abort.{SwapAbort}
use static.Storage.Swap.Accept.{SwapAccept}
use static.Storage.Swap.Commit.{SwapCommit}
use static.Storage.Swap.Proposal.{SwapProposal}
use static.Storage.Swap.Reasons.{SwapReject}
use static.Mesh.SwapProtocol.{
  Node, begin_swap_proposal, handle_proposal, handle_accept, handle_commit, handle_abort,
  handle_reject, handle_chunk_retrieval, expire,
}
use static.Mesh.SwapProtocol.Steps.{Sound, begin_swap_proposal-Sound, handle_proposal-Sound}
use static.Mesh.SwapProtocol.Messages.{
  handle_accept-Sound, handle_commit-Sound, handle_abort-Sound, handle_reject-Sound,
}
use static.Mesh.SwapProtocol.Timers.{handle_chunk_retrieval-Sound, expire-Sound}

-- What can happen to a node, with the clock and the generator's output at that time.
pub data Event : Type 0 where
  proposes : ℕ → SwapProposal → ℕ → Event
  gets_proposal : Pick → SwapProposal → ℕ → ℕ → Event
  gets_accept : SwapAccept → ℕ → ℕ → Event
  gets_commit : SwapCommit → ℕ → Event
  gets_abort : SwapAbort → ℕ → Event
  gets_reject : SwapReject → Event
  retrieves : ℕ → List ℕ → ℕ → Event
  times_out : ℕ → ℕ → Event

module _ (c : Crypto) where
  unfoldable pub step : Node → Event → Node
  step n (proposes peer p now) = (begin_swap_proposal c n peer p now).0
  step n (gets_proposal pick p now fresh) = (handle_proposal c pick n p now fresh).0
  step n (gets_accept a now fresh) = (handle_accept c n a now fresh).0
  step n (gets_commit m now) = (handle_commit c n m now).0
  step n (gets_abort m now) = (handle_abort c n m now).0
  step n (gets_reject m) = (handle_reject c n m).0
  step n (retrieves chunk_id bytes fresh) = (handle_chunk_retrieval c n chunk_id bytes fresh).0.0
  step n (times_out now fresh) = (expire c n now fresh).0

  unfoldable pub run : Node → List Event → Node
  run n [] = n
  run n (e ∷ es) = run (step n e) es

  -- A retrieved chunk has a nonzero id.
  abbrev pub Named : Event → Type 0
  Named (retrieves chunk_id bytes fresh) = chunk_id ≢ 0
  Named _ = Unit {0}

  step-Sound : {bound : ℕ} (n : Node) (e : Event) → Named e → Sound bound n → Sound bound (step n e)
  unfolding step
  step-Sound n (proposes peer p now) k s = begin_swap_proposal-Sound c n peer p now s
  step-Sound n (gets_proposal pick p now fresh) k s = handle_proposal-Sound c pick n p now fresh s
  step-Sound n (gets_accept a now fresh) k s = handle_accept-Sound c n a now fresh s
  step-Sound n (gets_commit m now) k s = handle_commit-Sound c n m now s
  step-Sound n (gets_abort m now) k s = handle_abort-Sound c n m now s
  step-Sound n (gets_reject m) k s = handle_reject-Sound c n m s
  step-Sound n (retrieves chunk_id bytes fresh) k s =
      handle_chunk_retrieval-Sound c n chunk_id bytes fresh k s
  step-Sound n (times_out now fresh) k s = expire-Sound c n now fresh s

  -- Whatever messages arrive, forged and repeated ones included, in whatever order with retrievals of
  -- chunks with nonzero ids and timeouts, a sound node stays sound: its count of stored bytes is right,
  -- and the reservations of its pending swaps are covered.
  pub run-Sound :
      {bound : ℕ} (n : Node) (es : List Event)
      → All Named es
      → Sound bound n
      → Sound bound (run n es)
  unfolding run
  run-Sound n [] k s = s
  run-Sound n (e ∷ es) k s = run-Sound (step n e) es k.1 (step-Sound n e k.0 s)

  -- Whatever messages arrive, forged and repeated ones included, in whatever order with retrievals of
  -- chunks with nonzero ids and with timeouts: a sound node that offers `bound` bytes never holds
  -- more than that.
  pub never_overcommits :
      (bound : ℕ) (n : Node) (es : List Event)
      → All Named es
      → Sound bound n
      → total_bytes (run n es).holder ≤ bound
  never_overcommits bound n es k s =
      let t = run-Sound n es k s in omega (arith, t.exact, t.within, t.fixed)
