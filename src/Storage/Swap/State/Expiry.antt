-- ===== src/Storage/Swap/State/Expiry.antt =====
-- `expire_pending_swaps`: which swaps go, and which are returned.
use static.Common.{
  ℕ, ◌-◌, ◌≡◌, refl, Bool, false, not, none, List, [], ◌∷◌, ◌++◌, arith, All, ltb, ◌==◌,
}
use static.HashMap.{HashMap, get, remove, retain, values, Distinct}
use static.HashMap.Laws.{get-retain, kept, remove_absent}
use static.Storage.Swap.State.{
  SwapState, PendingSwap, trim, expired_ids, expire_ids, expire_pending_swaps,
}

-- The fields that expiring a swap rewrites.
abbrev with : SwapState → HashMap PendingSwap → List ℕ → SwapState
with s m aborted = record s { pending_swaps = m; aborted_swaps = aborted }

module _ (now timeout_secs : ℕ) where
  -- The test of the source's filter.
  abbrev pub is_late : PendingSwap → Bool
  is_late w = ltb timeout_secs (now - w.started_at)

  expired_ids_absent :
      (id : ℕ) (m : HashMap PendingSwap)
      → get id m ≡ none
      → All (λ j. (j == id) ≡ false) (expired_ids m now timeout_secs)
  unfolding expired_ids get
  expired_ids_absent id [] e = tt
  expired_ids_absent id ((j, w) ∷ m) e = ground (arith, expired_ids_absent id m)

  -- An entry that is not to expire stays in front, and changes nothing else.
  expire_ids-cons :
      (s : SwapState) (ids : List ℕ) (id : ℕ) (w : PendingSwap) (m : HashMap PendingSwap)
      (a : List ℕ)
      → All (λ j. (j == id) ≡ false) ids
      → ((expire_ids (with s ((id, w) ∷ m) a) ids).0.pending_swaps
          ≡ (id, w) ∷ (expire_ids (with s m a) ids).0.pending_swaps)
        × ((expire_ids (with s ((id, w) ∷ m) a) ids).1 ≡ (expire_ids (with s m a) ids).1)
  unfolding expire_ids remove get
  expire_ids-cons s [] id w m a h = (refl, refl)
  expire_ids-cons s (j ∷ ids) id w m a h =
      ground (arith, h.0, expire_ids-cons s ids id w (remove j m) (trim (a ++ (j ∷ []))) h.1)

  expire_ids-expired_ids :
      (s : SwapState) (m : HashMap PendingSwap) (a : List ℕ)
      → Distinct m
      → let r = expire_ids (with s m a) (expired_ids m now timeout_secs) in
        (r.0.pending_swaps ≡ retain (λ _ w. not (is_late w)) m)
        × (r.1 ≡ values (retain (λ _ w. is_late w) m))
  unfolding expire_ids expired_ids retain remove get
  expire_ids-expired_ids s [] a d = (refl, refl)
  expire_ids-expired_ids s ((id, w) ∷ m) a d = ground (
    arith,
    remove_absent id m d.0,
    expire_ids-expired_ids s m a d.1,
    expire_ids-expired_ids s m (trim (a ++ (id ∷ []))) d.1,
    expire_ids-cons s (expired_ids m now timeout_secs) id w m a (expired_ids_absent id m d.0),
  )

  -- With distinct ids: the swaps pending for longer than the timeout are returned, in the map's order,
  -- and are gone; every other pending swap stays as it is.
  pub expire_pending_swaps_lem :
      (s : SwapState)
      → Distinct s.pending_swaps
      → let (s', expired) = expire_pending_swaps s now timeout_secs in
        (expired ≡ values (retain (λ _ w. is_late w) s.pending_swaps))
        × ((id : ℕ)
            → get id s'.pending_swaps ≡ kept (λ _ w. not (is_late w)) id (get id s.pending_swaps))
  unfolding expire_pending_swaps
  expire_pending_swaps_lem s d =
      let (left, gone) = expire_ids-expired_ids s s.pending_swaps s.aborted_swaps d in
      (gone, λ id. rw left (get-retain (λ _ w. not (is_late w)) id s.pending_swaps d))
