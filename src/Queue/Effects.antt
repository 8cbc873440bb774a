-- ===== src/Queue/Effects.antt =====
-- One call of each operation of the queue: what it leaves in memory and on disk.
use cj_store.Prelude.{
  ℕ, ◌+◌, ◌≡◌, refl, ◌∙◌, if_split, leb, inl, inr, true, some, List, [], ◌∷◌, ◌++◌, ◌==◌, ==_iff,
  ◌<◌, leb-false, Result, ok, err, arith, any, insert_at-remove, remove, remove-position, position,
  eq_iff, Option-cases, length, length-append, pop_back-append, String,
}
use cj_store.Serde.{Serde}
use cj_store.Fsutil.{Siblings, Faults, IoError, invalid_data}
use cj_store.Queue.{
  OrderQueue, QueuePersist, QueuedOrder, QueueError, Request, World, new_order, pushed, unpushed,
  add_at_path, cancel_at_path, commit_cancel, remove_order, is_cancelled, panicked, commit_add,
  commit_pop, pop_front, pop_committed_at_path, max_queue_size, max_orders_per_user,
  user_order_count,
}
use cj_store.Queue.Saves.{Kept, Saved, save_to_ok, save_to_err}

-- The push and its rollback cancel, the identifier counter included.
unpushed-pushed : (r : Request) (q : OrderQueue) → unpushed q.next_id (pushed r q) ≡ q
unpushed-pushed r q = ground (arith, pop_back-append q.orders (new_order q.next_id r))

module _ {J : Type 0} (sd : Serde J QueuePersist) where
  -- What `add` may leave: the order at the end of the line, in memory and on disk, with its
  -- identifier and its place; or the queue as it was.
  abbrev pub Adds : Request → World J → World J × Result (ℕ × ℕ) QueueError → Type 0
  Adds r (q, d) ((q', d'), ok (id, place)) =
      (q' ≡ pushed r q)
      × (id ≡ q.next_id)
      × (place ≡ length q.orders + 1)
      × (length q.orders < max_queue_size)
      × (user_order_count r.user_uuid q < max_orders_per_user)
      × Saved sd q' d'
  Adds r (q, d) ((q', d'), err e) = (q' ≡ q) × Kept d d'

  commit_add-Adds :
      (r : Request) (q : OrderQueue) (d d' : Siblings J) (x : Result (Unit {0}) IoError)
      → (x ≡ ok tt → Saved sd (pushed r q) d')
      → ((e : IoError) → x ≡ err e → Kept d d')
      → length q.orders < max_queue_size
      → user_order_count r.user_uuid q < max_orders_per_user
      → Adds r (q, d) (commit_add sd q.next_id (pushed r q) (d', x))
  unfolding commit_add
  commit_add-Adds r q d d' (ok _) s k h u =
      (refl, refl, length-append q.orders _ ∙ omega arith, h, u, s refl)
  commit_add-Adds r q d d' (err e) s k h u = (unpushed-pushed r q, k e refl)

  -- `add` puts the order at the end of the line, in memory and on disk, with the next identifier
  -- and its place; or it refuses, the queue is as it was, and no written byte is lost.
  pub add_at_path-Adds :
      (f : Faults J) (r : Request) (w : World J) → Adds r w (add_at_path sd f r w)
  unfolding add_at_path
  add_at_path-Adds f r (q, d) =
      if_split (Adds r (q, d)) (leb max_queue_size (length q.orders)) (λ _. (refl, inl refl))
        λ h.
          if_split (Adds r (q, d)) (leb max_orders_per_user (user_order_count r.user_uuid q))
            (λ _. (refl, inl refl))
            λ u.
              commit_add-Adds r q d _ _ (save_to_ok sd f (pushed r q) d)
                (λ _. save_to_err sd f (pushed r q) d) (leb-false _ _ h) (leb-false _ _ u)

  -- What `pop_committed` may leave: the line without its first order, which is returned, saved; or
  -- the queue as it was.
  abbrev pub Pops : ℕ → World J → World J × Result QueuedOrder QueueError → Type 0
  Pops order_id (q, d) ((q', d'), ok o) =
      (o.id ≡ order_id) × (q.orders ≡ o ∷ q'.orders) × (q'.next_id ≡ q.next_id) × Saved sd q' d'
  Pops order_id (q, d) ((q', d'), err e) = (q' ≡ q) × Kept d d'

  commit_pop-Pops :
      (order_id : ℕ) (o : QueuedOrder) (q q' : OrderQueue) (d d' : Siblings J)
      (x : Result (Unit {0}) IoError)
      → o.id ≡ order_id
      → q.orders ≡ o ∷ q'.orders
      → q'.next_id ≡ q.next_id
      → (x ≡ ok tt → Saved sd q' d')
      → ((e : IoError) → x ≡ err e → Kept d d')
      → Pops order_id (q, d) (commit_pop sd o q q' (d', x))
  unfolding commit_pop
  commit_pop-Pops i o q q' d d' (ok _) h c n s k = (h, c, n, s refl)
  commit_pop-Pops i o q q' d d' (err invalid_data) h c n s k = (refl, k _ refl)
  commit_pop-Pops i o q q' d d' (err _) h c n s k = (refl, k _ refl)

  pop_front-Pops :
      (f : Faults J) (order_id : ℕ) (q : OrderQueue) (d : Siblings J) (l : List QueuedOrder)
      → q.orders ≡ l
      → Pops order_id (q, d) (pop_front sd f order_id l (q, d))
  unfolding pop_front
  pop_front-Pops f i q d [] h = (refl, inl refl)
  pop_front-Pops f i q d (o ∷ rest) h =
      let q' : OrderQueue = record q { orders = rest } in
      if_split (Pops i (q, d)) (o.id == i)
        (λ e.
          commit_pop-Pops i o q q' d _ _ ((==_iff o.id i).0 e) h refl (save_to_ok sd f q' d)
            (λ _. save_to_err sd f q' d))
        (λ _. (refl, inl refl))

  -- `pop_committed` serves the order at the head of the line, if it is the expected one and the
  -- shorter line was saved; otherwise the queue is as it was, and no written byte is lost.
  pub pop_committed_at_path-Pops :
      (f : Faults J) (order_id : ℕ) (w : World J)
      → Pops order_id w (pop_committed_at_path sd f order_id w)
  unfolding pop_committed_at_path
  pop_committed_at_path-Pops f i (q, d) = pop_front-Pops f i q d q.orders refl

  -- What `cancel` may leave: the line without one order, which the player owned, saved; or the
  -- queue as it was.
  abbrev pub Cancels : String → ℕ → World J → World J × Result (Unit {0}) QueueError → Type 0
  Cancels uuid order_id (q, d) ((q', d'), ok _) =
      (before : List QueuedOrder) × (o : QueuedOrder) × (after : List QueuedOrder) × (q.orders
        ≡ before ++ o ∷ after)
      × (q'.orders ≡ before ++ after)
      × (o.id ≡ order_id)
      × (o.user_uuid ≡ uuid)
      × (q'.next_id ≡ q.next_id)
      × Saved sd q' d'
  Cancels uuid order_id (q, d) ((q', d'), err panicked) = ⊥
  Cancels uuid order_id (q, d) ((q', d'), err _) = (q' ≡ q) × Kept d d'

  commit_cancel-Cancels :
      (uuid : String) (order_id pos : ℕ) (before after : List QueuedOrder) (o : QueuedOrder)
      (q : OrderQueue) (d d' : Siblings J) (x : Result (Unit {0}) IoError)
      → let q' : OrderQueue = record q { orders = before ++ after } in
        q.orders ≡ before ++ o ∷ after
        → remove q.orders pos ≡ some (o, before ++ after)
        → is_cancelled uuid order_id o ≡ true
        → (x ≡ ok tt → Saved sd q' d')
        → ((e : IoError) → x ≡ err e → Kept d d')
        → Cancels uuid order_id (q, d) (commit_cancel sd pos o q' (d', x))
  unfolding commit_cancel
  commit_cancel-Cancels uuid i pos before after o q d d' (ok _) split r t s k = (
    before,
    o,
    after,
    split,
    refl,
    ground (arith, t),
    ground (arith, t, eq_iff o.user_uuid uuid),
    refl,
    s refl,
  )
  commit_cancel-Cancels uuid i pos before after o q d d' (err e) split r t s k =
      (λ j. record q { orders = insert_at-remove q.orders pos o (before ++ after) r j }, k e refl)

  -- `cancel` takes out exactly one order, which has the identifier and belongs to the player, and
  -- saves the rest in its order; or the queue is as it was, also when the save failed after the
  -- removal. The `expect` of the source is never reached.
  pub cancel_at_path-Cancels :
      (f : Faults J) (uuid : String) (order_id : ℕ) (w : World J)
      → Cancels uuid order_id w (cancel_at_path sd f uuid order_id w)
  unfolding cancel_at_path
  cancel_at_path-Cancels f uuid i (q, d) =
      elim (Option-cases (position (is_cancelled uuid i) q.orders)) [
        | inl e ↦
            rw (e, cancel_at_path)
              (if_split (λ x. Cancels uuid i (q, d) ((q, d), err x)) (any (λ o. o.id == i) q.orders)
                (λ _. (refl, inl refl)) (λ _. (refl, inl refl)))
        | inr (pos, e) ↦
            let (before, o, after, split, r, t) =
              remove-position (is_cancelled uuid i) q.orders pos e in
            let q' : OrderQueue = record q { orders = before ++ after } in
            rw (e, r, cancel_at_path, remove_order)
              (commit_cancel-Cancels uuid i pos before after o q d _ _ split r t
                (save_to_ok sd f q' d) (λ _. save_to_err sd f q' d))
      ]
