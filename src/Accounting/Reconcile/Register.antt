-- ===== src/Accounting/Reconcile/Register.antt =====
-- Reconciliation as one register per peer, to which the last writer's entry goes.
use static.Common.{
  ℕ, ◌≡◌, refl, ap, ◌∙◌, not, ◌&&◌, Option, none, some, List, [], ◌∷◌, ltb, ◌==◌, if◌then◌else◌,
  arith, Option-cases, Bool-cases, inl, inr,
}
use static.HashMap.{HashMap, get}
use static.HashMap.Laws.{get-insert, get-modify}
use static.Accounting.Credit.{PeerCredit}
use static.Accounting.State.{AccountingState}
use static.Accounting.Reconcile.{is_ignored, adopt, merge, merge_known, merge_all, reconcile}

-- A write to a register: the later entry stays, and the old one on equal times.
abbrev pub write : PeerCredit → Option PeerCredit → Option PeerCredit
write remote none = some remote
write remote (some ours) =
    some (if ltb ours.last_interaction remote.last_interaction then remote else ours)

-- The entries of a batch that are about a peer and not ignored are written in turn.
abbrev pub replay : ℕ → ℕ → List (ℕ × PeerCredit) → Option PeerCredit → Option PeerCredit
replay now peer [] r = r
replay now peer ((id, remote) ∷ batch) r =
    replay now peer batch
      (if (id == peer) && not (is_ignored now remote) then write remote r else r)

get-merge_known :
    (id peer : ℕ) (remote : PeerCredit) (m : HashMap PeerCredit)
    → get peer (merge_known id remote (get id m) m)
      ≡ (if id == peer then write remote (get peer m) else get peer m)
get-merge_known id peer remote m = elim (Option-cases (get id m)) [
  | inl absent ↦
      let known = get-insert id peer remote m in rw absent (ground (arith, absent, known))
  | inr (ours, present) ↦
      let known = get-modify id peer (adopt remote) ours m present in
      rw present (ground (arith, present, known))
]

pub get-merge :
    (now id peer : ℕ) (remote : PeerCredit) (m : HashMap PeerCredit)
    → get peer (merge now id remote m) ≡ (
        if (id == peer) && not (is_ignored now remote)
        then write remote (get peer m)
        else get peer m)
unfolding merge
get-merge now id peer remote m = elim (Bool-cases (is_ignored now remote)) [
  | inl out ↦ rw out (ground arith)
  | inr ok ↦ rw ok (get-merge_known id peer remote m ∙ ground arith)
]

pub get-merge_all :
    (now peer : ℕ) (batch : List (ℕ × PeerCredit)) (m : HashMap PeerCredit)
    → get peer (merge_all now batch m) ≡ replay now peer batch (get peer m)
unfolding merge_all
get-merge_all now peer [] m = refl
get-merge_all now peer ((id, remote) ∷ batch) m =
    get-merge_all now peer batch (merge now id remote m)
    ∙ ap (replay now peer batch) (get-merge now id peer remote m)

-- Reconciliation is, for every peer on its own, the writing of the batch's acceptable entries about
-- that peer to a register in which the entry with the latest time stays.
pub reconcile-replay :
    {F64 : Type 0} (now peer : ℕ) (batch : List (ℕ × PeerCredit)) (s : AccountingState F64)
    → get peer (reconcile now batch s).peers ≡ replay now peer batch (get peer s.peers)
unfolding reconcile
reconcile-replay now peer batch s = get-merge_all now peer batch s.peers
