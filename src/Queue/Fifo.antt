-- ===== src/Queue/Fifo.antt =====
-- Who is served, and in which order, over any sequence of operations.
use cj_store.Prelude.{
  ℕ, suc, ◌+◌, ◌^◌, ◌≤◌, ◌<◌, ap, List, [], ◌∷◌, Result, ok, err, arith, length, String,
}
use cj_store.Serde.{Serde}
use cj_store.Queue.{
  OrderQueue, QueuePersist, QueuedOrder, QueueError, Request, World, new_order, add_at_path,
  pop_committed_at_path, cancel_at_path, panicked,
}
use cj_store.Queue.Effects.{
  Adds, Pops, Cancels, add_at_path-Adds, pop_committed_at_path-Pops, cancel_at_path-Cancels,
}
use cj_store.Queue.Runs.{
  Call, adds, pops, cancels, step, Rising, Rising-push, Rising-remove, wraps_not,
}

-- The identifiers rise strictly, from `lo` on.
abbrev pub Increasing : ℕ → List ℕ → Type 0
Increasing lo [] = Unit
Increasing lo (i ∷ is) = (lo ≤ i) × Increasing (i + 1) is

module _ {J : Type 0} (sd : Serde J QueuePersist) where
  -- The orders that one answer of `pop_committed` serves, by identifier.
  abbrev pub served_by : Result QueuedOrder QueueError → List ℕ → List ℕ
  served_by (ok o) is = o.id ∷ is
  served_by (err _) is = is

  -- The identifiers of the orders that the calls serve, in turn.
  unfoldable pub served : List (Call J) → World J → List ℕ
  unfolding step
  served [] w = []
  served (adds f r ∷ cs) w = served cs (step sd (adds f r) w)
  served (pops f i ∷ cs) w =
      served_by (pop_committed_at_path sd f i w).1 (served cs (step sd (pops f i) w))
  served (cancels f uuid i ∷ cs) w = served cs (step sd (cancels f uuid i) w)

  -- All that wait have identifiers from `lo` on, in rising order.
  abbrev pub Waits : ℕ → OrderQueue → Type 0
  Waits lo q = Rising lo q.orders q.next_id

  Adds-Waits :
      (lo : ℕ) (r : Request) (w : World J) (x : World J × Result (ℕ × ℕ) QueueError)
      → Waits lo w.0
      → w.0.next_id + 1 < 2 ^ 64
      → Adds sd r w x
      → Waits lo x.0.0 × (x.0.0.next_id ≤ w.0.next_id + 1)
  Adds-Waits lo r (q, d) ((q', d'), ok _) h room (e, _, _, _, _, _) = (
    rw (e, wraps_not q.next_id room) (Rising-push lo q.orders (new_order q.next_id r) h),
    omega (arith, ap (λ (p : OrderQueue). p.next_id) e, wraps_not q.next_id room),
  )
  Adds-Waits lo r (q, d) ((q', d'), err _) h room (e, _) = (rw e h, rw e (omega arith))

  Cancels-Waits :
      (lo : ℕ) (uuid : String) (i : ℕ) (w : World J) (x : World J × Result (Unit {0}) QueueError)
      → Waits lo w.0
      → Cancels sd uuid i w x
      → Waits lo x.0.0 × (x.0.0.next_id ≤ w.0.next_id + 1)
  Cancels-Waits lo uuid i (q, d) ((q', d'), ok _) h (before, o, after, e, e', _, _, n, _) =
      (rw (e', n) (Rising-remove lo before o after q.next_id (rw e at h)), omega arith)
  Cancels-Waits lo uuid i (q, d) ((q', d'), err panicked) h x = absurd x
  Cancels-Waits lo uuid i (q, d) ((q', d'), err _) h (e, _) = (rw e h, rw e (omega arith))

  -- A pop, by what the calls after it serve.
  Pops-Increasing :
      (lo i : ℕ) (cs : List (Call J)) (w : World J) (x : World J × Result QueuedOrder QueueError)
      → ((lo' : ℕ) (w' : World J)
          → Waits lo' w'.0
          → w'.0.next_id + length cs < 2 ^ 64
          → Increasing lo' (served cs w'))
      → Waits lo w.0
      → w.0.next_id + suc (length cs) < 2 ^ 64
      → Pops sd i w x
      → Increasing lo (served_by x.1 (served cs x.0))
  Pops-Increasing lo i cs (q, d) ((q', d'), ok o) ih h room (_, e, n, _) =
      let (first, h') : Rising lo (o ∷ q'.orders) q.next_id = rw e at h in
      (first, ih (o.id + 1) (q', d') (rw n h') (omega arith))
  Pops-Increasing lo i cs (q, d) ((q', d'), err _) ih h room (e, _) =
      ih lo (q', d') (rw e h) (rw e (omega arith))

  -- First come, first served, and nobody twice: over any calls, with any failures, the orders that
  -- are served have strictly rising identifiers, which `add` gives out in the order of arrival.
  pub served-Increasing :
      (cs : List (Call J)) (lo : ℕ) (w : World J)
      → Waits lo w.0
      → w.0.next_id + length cs < 2 ^ 64
      → Increasing lo (served cs w)
  unfolding served step
  served-Increasing [] lo w h room = tt
  served-Increasing (adds f r ∷ cs) lo w h room =
      let (h', n) =
        Adds-Waits lo r w (add_at_path sd f r w) h (omega arith) (add_at_path-Adds sd f r w) in
      served-Increasing cs lo (add_at_path sd f r w).0 h' (omega arith)
  served-Increasing (cancels f uuid i ∷ cs) lo w h room =
      let (h', n) =
        Cancels-Waits lo uuid i w (cancel_at_path sd f uuid i w) h
          (cancel_at_path-Cancels sd f uuid i w) in
      served-Increasing cs lo (cancel_at_path sd f uuid i w).0 h' (omega arith)
  served-Increasing (pops f i ∷ cs) lo w h room =
      Pops-Increasing lo i cs w (pop_committed_at_path sd f i w)
        (λ lo' w'. served-Increasing cs lo' w') h room (pop_committed_at_path-Pops sd f i w)
