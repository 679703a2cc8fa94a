-- ===== src/Accounting/Reconcile/Convergence.antt =====
-- Reconciling twice, and reconciling both ways.
use static.Common.{
  ℕ, ◌≤◌, saturating_add64, ◌≡◌, refl, sym, ap, ◌∙◌, Bool, true, false, not, ◌&&◌, Option, none,
  some, List, [], ◌∷◌, leb, ◌==◌, arith, Option-cases, Bool-cases, inl, inr, All, ==_refl,
}
use static.HashMap.{HashMap, get, Distinct}
use static.HashMap.Laws.{modify_fixed}
use static.Accounting.Credit.{PeerCredit}
use static.Accounting.State.{AccountingState}
use static.Accounting.Reconcile.{
  is_ignored, reconcile_future_skew_secs, adopt, merge, merge_known, merge_all, reconcile,
  export_for_reconciliation,
}
use static.Accounting.Reconcile.Register.{write, replay, get-merge, get-merge_all}

-- Whether a register holds an entry of that time or a later one.
abbrev pub covers : ℕ → Option PeerCredit → Bool
covers t none = false
covers t (some ours) = leb t ours.last_interaction

covers-write :
    (t : ℕ) (remote : PeerCredit) (r : Option PeerCredit)
    → covers t r ≡ true
    → covers t (write remote r) ≡ true
covers-write t remote none h = absurd (ground arith)
covers-write t remote (some ours) h = ground (arith, h)

covers-own :
    (remote : PeerCredit) (r : Option PeerCredit)
    → covers remote.last_interaction (write remote r) ≡ true
covers-own remote none = ground arith
covers-own remote (some ours) = ground arith

covers-replay :
    (now peer t : ℕ) (batch : List (ℕ × PeerCredit)) (r : Option PeerCredit)
    → covers t r ≡ true
    → covers t (replay now peer batch r) ≡ true
covers-replay now peer t [] r h = h
covers-replay now peer t ((id, remote) ∷ batch) r h =
    elim (Bool-cases ((id == peer) && not (is_ignored now remote))) [
      | inl e ↦ rw e (covers-replay now peer t batch (write remote r) (covers-write t remote r h))
      | inr e ↦ rw e (covers-replay now peer t batch r h)
    ]

-- Every acceptable entry of the batch is covered by what the map holds.
Settled : ℕ → HashMap PeerCredit → ℕ × PeerCredit → Type 0
Settled now m e = is_ignored now e.1 ≡ false → covers (e.1).last_interaction (get e.0 m) ≡ true

merge_fixed :
    (now id : ℕ) (remote : PeerCredit) (m : HashMap PeerCredit)
    → Settled now m (id, remote)
    → merge now id remote m ≡ m
unfolding merge Settled
merge_fixed now id remote m h = elim (Bool-cases (is_ignored now remote)) [
  | inl out ↦ rw out refl
  | inr ok ↦ rw ok (known now id remote m (h ok))
]
  where
    known :
        (now id : ℕ) (remote : PeerCredit) (m : HashMap PeerCredit)
        → covers remote.last_interaction (get id m) ≡ true
        → merge_known id remote (get id m) m ≡ m
    known now id remote m h = elim (Option-cases (get id m)) [
      | inl absent ↦ absurd (ground (arith, rw absent at h))
      | inr (ours, present) ↦
          let newest = rw present at h in
          rw present (modify_fixed id (adopt remote) ours m present (ground (arith, newest)))
    ]

merge_all_fixed :
    (now : ℕ) (batch : List (ℕ × PeerCredit)) (m : HashMap PeerCredit)
    → All (Settled now m) batch
    → merge_all now batch m ≡ m
unfolding merge_all
merge_all_fixed now [] m h = refl
merge_all_fixed now ((id, remote) ∷ batch) m h =
    rw (merge_fixed now id remote m h.0) (merge_all_fixed now batch m h.1)

merge_all-Settled :
    (now : ℕ) (batch : List (ℕ × PeerCredit)) (m : HashMap PeerCredit)
    → All (Settled now (merge_all now batch m)) batch
unfolding merge_all Settled
merge_all-Settled now [] m = tt
merge_all-Settled now ((id, remote) ∷ batch) m =
    let first = merge now id remote m in
    (
      λ ok.
          let written : get id first ≡ write remote (get id m) =
            get-merge now id id remote m ∙ rw (ok, ==_refl id) refl in
          let kept =
            covers-replay now id remote.last_interaction batch (write remote (get id m))
              (covers-own remote (get id m)) in
          rw (get-merge_all now id batch first, written) kept,
      merge_all-Settled now batch first,
    )

-- One reconciliation after another, each a time and a batch.
abbrev pub reconcile_each :
    {F64 : Type 0} → List (ℕ × List (ℕ × PeerCredit)) → AccountingState F64 → AccountingState F64
reconcile_each [] s = s
reconcile_each ((now, batch) ∷ rest) s = reconcile_each rest (reconcile now batch s)

-- An entry that is not dated too far ahead.
abbrev pub IsDated : ℕ → ℕ × PeerCredit → Type 0
IsDated now e = (e.1).last_interaction ≤ saturating_add64 now reconcile_future_skew_secs

covers-reconcile_each :
    {F64 : Type 0} (peer t : ℕ) (rest : List (ℕ × List (ℕ × PeerCredit)))
    → (s : AccountingState F64) → covers t (get peer s.peers) ≡ true
    → covers t (get peer (reconcile_each rest s).peers) ≡ true
unfolding reconcile
covers-reconcile_each peer t [] s h = h
covers-reconcile_each peer t ((now, batch) ∷ rest) s h =
    let kept = covers-replay now peer t batch (get peer s.peers) h in
    covers-reconcile_each peer t rest (reconcile now batch s)
      (rw (get-merge_all now peer batch s.peers) kept)

-- What is settled at one time stays settled, if no entry was dated too far ahead.
later-Settled :
    {F64 : Type 0} (now later : ℕ) (batch : List (ℕ × PeerCredit))
    → (rest : List (ℕ × List (ℕ × PeerCredit))) (s : AccountingState F64) → All (IsDated now) batch
    → All (Settled now s.peers) batch
    → All (Settled later (reconcile_each rest s).peers) batch
unfolding Settled
later-Settled now later [] rest s dated h = tt
later-Settled now later ((id, remote) ∷ batch) rest s dated h = (
  λ ok.
      let before : is_ignored now remote ≡ false = ground (arith, ok, dated.0) in
      covers-reconcile_each id remote.last_interaction rest s (h.0 before),
  later-Settled now later batch rest s dated.1 h.1,
)

-- A batch none of whose entries is dated too far ahead, reconciled a second time, then or at any other
-- time and whatever other batches were reconciled in between, changes nothing.
pub reconcile_idempotent :
    {F64 : Type 0} (now later : ℕ) (batch : List (ℕ × PeerCredit))
    → (between : List (ℕ × List (ℕ × PeerCredit))) (s : AccountingState F64)
    → All (IsDated now) batch
    → reconcile later batch (reconcile_each between (reconcile now batch s))
      ≡ reconcile_each between (reconcile now batch s)
unfolding reconcile
reconcile_idempotent now later batch between s dated =
    rw
      (merge_all_fixed later batch (reconcile_each between (reconcile now batch s)).peers (
        later-Settled now later batch between (reconcile now batch s) dated
          (merge_all-Settled now batch s.peers)))
      refl

-- What a whole exported table writes to one peer's register.
abbrev pub join : Option PeerCredit → Option PeerCredit → Option PeerCredit
join none r = r
join (some remote) r = write remote r

-- The time of a register.
abbrev pub stamp : Option PeerCredit → Option ℕ
stamp none = none
stamp (some c) = some c.last_interaction

abbrev pub IsAcceptable : ℕ → HashMap PeerCredit → Type 0
IsAcceptable now = All (λ (e : ℕ × PeerCredit). is_ignored now e.1 ≡ false)

replay-table :
    (now peer : ℕ) (m : HashMap PeerCredit) (r : Option PeerCredit)
    → Distinct m
    → IsAcceptable now m
    → replay now peer m r ≡ join (get peer m) r
unfolding get
replay-table now peer [] r d ok = refl
replay-table now peer ((id, remote) ∷ m) r d ok = elim (Bool-cases (id == peer)) [
  | inl here ↦
      let absent : get peer m ≡ none = ground (arith, here, d.0) in
      rw (here, ok.0)
        (replay-table now peer m (write remote r) d.1 ok.1
          ∙ ap (λ o. join o (write remote r)) absent)
  | inr there ↦ rw there (replay-table now peer m r d.1 ok.1)
]

stamp-join : (a b : Option PeerCredit) → stamp (join a b) ≡ stamp (join b a)
stamp-join none none = refl
stamp-join none (some y) = refl
stamp-join (some x) none = refl
stamp-join (some x) (some y) = ground arith

-- When a partition heals and two nodes each reconcile with the other's export, they agree on the
-- peers they know and on the time of each one's last interaction, provided that neither table has an
-- entry that the other ignores.
pub heal_agrees :
    {F64 : Type 0} (now peer : ℕ) (s t : AccountingState F64)
    → Distinct s.peers
    → Distinct t.peers
    → IsAcceptable now s.peers
    → IsAcceptable now t.peers
    → stamp (get peer (reconcile now (export_for_reconciliation t) s).peers)
      ≡ stamp (get peer (reconcile now (export_for_reconciliation s) t).peers)
unfolding reconcile export_for_reconciliation
heal_agrees now peer s t ds dt oks okt =
    ap stamp (merged now peer t.peers s.peers dt okt)
    ∙ (stamp-join (get peer t.peers) (get peer s.peers)
        ∙ sym (ap stamp (merged now peer s.peers t.peers ds oks)))
  where
    merged :
        (now peer : ℕ) (m n : HashMap PeerCredit)
        → Distinct m
        → IsAcceptable now m
        → get peer (merge_all now m n) ≡ join (get peer m) (get peer n)
    merged now peer m n d ok =
        get-merge_all now peer m n ∙ replay-table now peer m (get peer n) d ok
