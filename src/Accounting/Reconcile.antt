-- ===== src/Accounting/Reconcile.antt =====
-- crates/static-accounting/src/lib.rs: reconciliation with what another node exports.
pub mod Register
pub mod Convergence
use static.Common.{
  ℕ, ◌+◌, ◌^◌, Bool, ◌||◌, Option, none, some, List, [], ◌∷◌, leb, ltb, if◌then◌else◌, filter,
  saturating_add64,
}
use static.HashMap.{HashMap, get, insert, modify}
use static.Accounting.Credit.{PeerCredit}
use static.Accounting.State.{AccountingState}

abbrev pub reconcile_future_skew_secs : ℕ
reconcile_future_skew_secs = 300

abbrev pub max_accounting_bytes : ℕ
max_accounting_bytes = 2 ^ 60

-- An entry that is ignored: dated too far ahead, or absurd.
abbrev pub is_ignored : ℕ → PeerCredit → Bool
is_ignored now remote =
    ltb (saturating_add64 now reconcile_future_skew_secs) remote.last_interaction
    || (ltb max_accounting_bytes remote.bytes_served
        || (ltb max_accounting_bytes remote.bytes_received
            || ltb max_accounting_bytes remote.prepaid_bytes))

abbrev pub adopt : PeerCredit → PeerCredit → PeerCredit
adopt remote ours =
    if ltb ours.last_interaction remote.last_interaction
    then record ours {
      bytes_served = remote.bytes_served;
      bytes_received = remote.bytes_received;
      net_credit = remote.net_credit;
      prepaid_bytes = remote.prepaid_bytes;
      successful_challenges = remote.successful_challenges;
      failed_challenges = remote.failed_challenges;
      last_interaction = remote.last_interaction;
    }
    else ours

-- One pass of the loop, over a peer that is known or not.
abbrev pub merge_known :
    ℕ → PeerCredit → Option PeerCredit → HashMap PeerCredit → HashMap PeerCredit
merge_known peer_id remote none peers = insert peer_id remote peers
merge_known peer_id remote (some ours) peers = modify peer_id (adopt remote) peers

unfoldable pub merge : ℕ → ℕ → PeerCredit → HashMap PeerCredit → HashMap PeerCredit
merge now peer_id remote peers =
    if is_ignored now remote then peers else merge_known peer_id remote (get peer_id peers) peers

unfoldable pub merge_all : ℕ → List (ℕ × PeerCredit) → HashMap PeerCredit → HashMap PeerCredit
merge_all now [] peers = peers
merge_all now ((peer_id, remote) ∷ incoming) peers =
    merge_all now incoming (merge now peer_id remote peers)

abbrev or_zero : Option ℕ → ℕ
or_zero none = 0
or_zero (some t) = t

module _ {F64 : Type 0} where
  unfoldable pub reconcile : ℕ → List (ℕ × PeerCredit) → AccountingState F64 → AccountingState F64
  reconcile now incoming s = record s { peers = merge_all now incoming s.peers }

  unfoldable pub export_for_reconciliation : AccountingState F64 → List (ℕ × PeerCredit)
  export_for_reconciliation s = s.peers

  unfoldable pub export_reconciliation_delta : ℕ → AccountingState F64 → List (ℕ × PeerCredit)
  export_reconciliation_delta last_sync_time s =
      filter (λ e. leb last_sync_time (e.1).last_interaction) s.peers

  unfoldable pub mark_reconciled : ℕ → ℕ → AccountingState F64 → AccountingState F64
  mark_reconciled peer now_secs s = record s {
    peer_sync_times = insert peer now_secs s.peer_sync_times;
  }

  unfoldable pub last_sync_time : ℕ → AccountingState F64 → ℕ
  last_sync_time peer s = or_zero (get peer s.peer_sync_times)
