-- ===== src/Queue/Runs.antt =====
-- The queue under any sequence of operations, with any failures of the file system.
use cj_store.Prelude.{
  ℕ, ◌+◌, ◌^◌, ◌≤◌, ◌<◌, ◌≡◌, refl, ap, sym, ◌∙◌, Bool, List, [], ◌∷◌, ◌++◌, Result, ok, err, some,
  inl, inr, arith, length, length-append, count_if, count_if-append, String, eq_iff,
}
use cj_store.Serde.{Serde}
use cj_store.Fsutil.{Siblings, Faults}
use cj_store.Queue.{
  OrderQueue, QueuePersist, QueuedOrder, QueueError, Request, World, new, new_order, pushed, is_of,
  max_queue_size, max_orders_per_user, user_order_count, add_at_path, pop_committed_at_path,
  cancel_at_path, panicked, u64_add, persisted,
}
use cj_store.Queue.Saves.{Kept, Saved}
use cj_store.Queue.Effects.{
  Adds, Pops, Cancels, add_at_path-Adds, pop_committed_at_path-Pops, cancel_at_path-Cancels,
}

-- The identifiers rise strictly along the line, from `lo` and below `hi`.
abbrev pub Rising : ℕ → List QueuedOrder → ℕ → Type 0
Rising lo [] hi = lo ≤ hi
Rising lo (o ∷ os) hi = (lo ≤ o.id) × Rising (o.id + 1) os hi

pub record IsValid (q : OrderQueue) : Type 0 where
  pub bounded : length q.orders ≤ max_queue_size
  pub fair : (uuid : String) → count_if (is_of uuid) q.orders ≤ max_orders_per_user
  pub rising : Rising 0 q.orders q.next_id

pub Rising-lower :
    (lo lo' : ℕ) (os : List QueuedOrder) (hi : ℕ) → lo ≤ lo' → Rising lo' os hi → Rising lo os hi
Rising-lower lo lo' [] hi l r = omega arith
Rising-lower lo lo' (o ∷ os) hi l r = (omega arith, r.1)

pub Rising-push :
    (lo : ℕ) (os : List QueuedOrder) (o : QueuedOrder)
    → Rising lo os o.id
    → Rising lo (os ++ o ∷ []) (o.id + 1)
Rising-push lo [] o r = (r, omega arith)
Rising-push lo (x ∷ xs) o r = (r.0, Rising-push (x.id + 1) xs o r.1)

pub Rising-remove :
    (lo : ℕ) (before : List QueuedOrder) (o : QueuedOrder) (after : List QueuedOrder) (hi : ℕ)
    → Rising lo (before ++ o ∷ after) hi
    → Rising lo (before ++ after) hi
Rising-remove lo [] o after hi r = Rising-lower lo (o.id + 1) after hi (omega arith) r.1
Rising-remove lo (x ∷ xs) o after hi r = (r.0, Rising-remove (x.id + 1) xs o after hi r.1)

length-remove :
    (before : List QueuedOrder) (o : QueuedOrder) (after : List QueuedOrder)
    → length (before ++ after) ≤ length (before ++ o ∷ after)
length-remove before o after =
    omega (arith, length-append before after, length-append before (o ∷ after))

count_if-remove :
    (p : QueuedOrder → Bool) (before : List QueuedOrder) (o : QueuedOrder)
    (after : List QueuedOrder)
    → count_if p (before ++ after) ≤ count_if p (before ++ o ∷ after)
count_if-remove p before o after =
    ground (arith, count_if-append p before after, count_if-append p before (o ∷ after))

pub new-IsValid : IsValid new
unfolding new
new-IsValid = record { bounded = omega arith; fair = λ _. omega arith; rising = omega arith }

pub wraps_not : (n : ℕ) → n + 1 < 2 ^ 64 → u64_add n 1 ≡ n + 1
wraps_not n h = omega arith

-- One more order keeps the limits that `add` has tested.
pushed-IsValid :
    (r : Request) (q : OrderQueue)
    → IsValid q
    → q.next_id + 1 < 2 ^ 64
    → length q.orders < max_queue_size
    → user_order_count r.user_uuid q < max_orders_per_user
    → IsValid (pushed r q)
unfolding user_order_count
pushed-IsValid r q v room l u = record {
  bounded = omega (arith, length-append q.orders (new_order q.next_id r ∷ []));
  fair = λ uuid. ground (
    arith,
    count_if-append (is_of uuid) q.orders (new_order q.next_id r ∷ []),
    v.fair uuid,
    eq_iff r.user_uuid uuid,
  );
  rising = rw (wraps_not q.next_id room) (Rising-push 0 q.orders (new_order q.next_id r) v.rising);
}

removed-IsValid :
    (q q' : OrderQueue) (before : List QueuedOrder) (o : QueuedOrder) (after : List QueuedOrder)
    → IsValid q
    → q.orders ≡ before ++ o ∷ after
    → q'.orders ≡ before ++ after
    → q'.next_id ≡ q.next_id
    → IsValid q'
removed-IsValid q q' before o after v e e' n = record {
  bounded = omega (arith, v.bounded, ap length e, ap length e', length-remove before o after);
  fair = λ uuid. omega (
    arith,
    v.fair uuid,
    ap (count_if (is_of uuid)) e,
    ap (count_if (is_of uuid)) e',
    count_if-remove (is_of uuid) before o after,
  );
  rising = rw (e', n) (Rising-remove 0 before o after q.next_id (rw e at v.rising));
}

-- A call of the queue, with what the file system answers to it.
pub data Call (J : Type 0) : Type 0 where
  adds : Faults J → Request → Call J
  pops : Faults J → ℕ → Call J
  cancels : Faults J → String → ℕ → Call J

module _ {J : Type 0} (sd : Serde J QueuePersist) where
  unfoldable pub step : Call J → World J → World J
  step (adds f r) w = (add_at_path sd f r w).0
  step (pops f i) w = (pop_committed_at_path sd f i w).0
  step (cancels f uuid i) w = (cancel_at_path sd f uuid i w).0

  unfoldable pub run : List (Call J) → World J → World J
  run [] w = w
  run (c ∷ cs) w = run cs (step c w)

  -- The file at the path, if there is one, is the text of the queue in memory.
  abbrev pub Tracks : World J → Type 0
  Tracks (q, d) = (j : J) → d.live ≡ some j → sd.to_string (persisted q) ≡ some j

  Saved-Tracks : (q : OrderQueue) (d : Siblings J) → Saved sd q d → Tracks (q, d)
  Saved-Tracks q d (j, t, l) k e = t ∙ sym l ∙ e

  Kept-Tracks :
      (q q' : OrderQueue) (d d' : Siblings J) → Tracks (q, d) → q' ≡ q → Kept d d' → Tracks (q', d')
  Kept-Tracks q q' d d' t e (inl k) j h = rw e (t j (sym k ∙ h))
  Kept-Tracks q q' d d' t e (inr (n, _)) j h = cc

  -- What one call does to a valid queue and its file.
  abbrev Next : World J → World J → Type 0
  Next w w' = IsValid w'.0 × (w'.0.next_id ≤ w.0.next_id + 1) × (Tracks w → Tracks w')

  Adds-Next :
      (r : Request) (w : World J) (x : World J × Result (ℕ × ℕ) QueueError)
      → IsValid w.0
      → w.0.next_id + 1 < 2 ^ 64
      → Adds sd r w x
      → Next w x.0
  Adds-Next r (q, d) ((q', d'), ok (id, place)) v room (e, _, _, l, u, s) = (
    rw e (pushed-IsValid r q v room l u),
    omega (arith, ap (λ (p : OrderQueue). p.next_id) e, wraps_not q.next_id room),
    λ _. Saved-Tracks q' d' s,
  )
  Adds-Next r (q, d) ((q', d'), err e) v room (same, k) =
      (rw same v, rw same (omega arith), λ t. Kept-Tracks q q' d d' t same k)

  Pops-Next :
      (i : ℕ) (w : World J) (x : World J × Result QueuedOrder QueueError)
      → IsValid w.0
      → Pops sd i w x
      → Next w x.0
  Pops-Next i (q, d) ((q', d'), ok o) v (_, e, n, s) =
      (removed-IsValid q q' [] o q'.orders v e refl n, omega arith, λ _. Saved-Tracks q' d' s)
  Pops-Next i (q, d) ((q', d'), err e) v (same, k) =
      (rw same v, rw same (omega arith), λ t. Kept-Tracks q q' d d' t same k)

  Cancels-Next :
      (uuid : String) (i : ℕ) (w : World J) (x : World J × Result (Unit {0}) QueueError)
      → IsValid w.0
      → Cancels sd uuid i w x
      → Next w x.0
  Cancels-Next uuid i (q, d) ((q', d'), ok _) v (before, o, after, e, e', _, _, n, s) =
      (removed-IsValid q q' before o after v e e' n, omega arith, λ _. Saved-Tracks q' d' s)
  Cancels-Next uuid i (q, d) ((q', d'), err panicked) v h = absurd h
  Cancels-Next uuid i (q, d) ((q', d'), err _) v (same, k) =
      (rw same v, rw same (omega arith), λ t. Kept-Tracks q q' d d' t same k)

  step-Next :
      (c : Call J) (w : World J) → IsValid w.0 → w.0.next_id + 1 < 2 ^ 64 → Next w (step c w)
  unfolding step
  step-Next (adds f r) w v room =
      Adds-Next r w (add_at_path sd f r w) v room (add_at_path-Adds sd f r w)
  step-Next (pops f i) w v room =
      Pops-Next i w (pop_committed_at_path sd f i w) v (pop_committed_at_path-Pops sd f i w)
  step-Next (cancels f uuid i) w v room =
      Cancels-Next uuid i w (cancel_at_path sd f uuid i w) v (cancel_at_path-Cancels sd f uuid i w)

  run_keeps :
      (cs : List (Call J)) (w : World J)
      → IsValid w.0
      → w.0.next_id + length cs < 2 ^ 64
      → IsValid (run cs w).0 × (Tracks w → Tracks (run cs w))
  unfolding run
  run_keeps [] w v room = (v, λ t. t)
  run_keeps (c ∷ cs) w v room =
      let (v', n, t) = step-Next c w v (omega arith) in
      let (v'', t') = run_keeps cs (step c w) v' (omega arith) in (v'', λ k. t' (t k))

  -- Any calls, with any failures, keep a valid queue valid: it has at most 128 orders and 8 of one
  -- player, and the identifiers rise along the line, as long as fewer than 2^64 were given.
  pub run-IsValid :
      (cs : List (Call J)) (w : World J)
      → IsValid w.0
      → w.0.next_id + length cs < 2 ^ 64
      → IsValid (run cs w).0
  run-IsValid cs w v room = (run_keeps cs w v room).0

  -- If the file was the text of the queue, then after any calls, with any failures, the file that
  -- stands at the path, if there is one, is the text of the queue in memory, as long as fewer than
  -- 2^64 identifiers were given.
  pub run-Tracks :
      (cs : List (Call J)) (w : World J)
      → IsValid w.0
      → w.0.next_id + length cs < 2 ^ 64
      → Tracks w
      → Tracks (run cs w)
  run-Tracks cs w v room = (run_keeps cs w v room).1
