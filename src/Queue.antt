-- ===== src/Queue.antt =====
-- src/store/queue.rs: the persistent first-in first-out order queue. An operation takes the queue
-- and the files beside `queue.json`, and gives both back. Rust's `VecDeque` is a list, `u64`
-- addition wraps, and a message to the player is a constructor.
pub mod Saves
pub mod Effects
pub mod Runs
pub mod Load
pub mod Fifo
pub mod View
use cj_store.Prelude.{
  ℕ, ◌+◌, ◌-◌, ◌*◌, ◌/◌, ◌%◌, ◌^◌, ◌≡◌, Bool, ◌&&◌, Option, none, some, List, [], ◌∷◌, ◌++◌, Result,
  ok, err, if◌then◌else◌, ltb, leb, ◌==◌, str_eq, String, length, position, remove, insert_at,
  pop_back, count_if, any,
}
use cj_store.Messages.{QueuedOrderType}
use cj_store.Serde.{Serde}
use cj_store.Fsutil.{Siblings, Faults, IoError, invalid_data, write_atomic}

pub record QueuedOrder : Type 0 where
  pub id : ℕ
  pub user_uuid : String
  pub username : String
  pub order_type : QueuedOrderType
  pub item : String
  pub quantity : ℕ
  pub queued_at : ℕ

pub record OrderQueue : Type 0 where
  pub orders : List QueuedOrder
  pub next_id : ℕ

-- The shape on disk.
pub record QueuePersist : Type 0 where
  pub orders : List QueuedOrder
  pub next_id : ℕ

abbrev pub max_orders_per_user : ℕ
max_orders_per_user = 8

abbrev pub max_queue_size : ℕ
max_queue_size = 128

abbrev pub u64_add : ℕ → ℕ → ℕ
u64_add a b = (a + b) % 2 ^ 64

unfoldable pub new : OrderQueue
new = record { orders = []; next_id = 1 }

abbrev pub is_of : String → QueuedOrder → Bool
is_of uuid o = str_eq o.user_uuid uuid

unfoldable pub user_order_count : String → OrderQueue → ℕ
user_order_count uuid q = count_if (is_of uuid) q.orders

-- The arguments of `add`, and the time that `QueuedOrder::new` reads.
pub record Request : Type 0 where
  pub user_uuid : String
  pub username : String
  pub order_type : QueuedOrderType
  pub item : String
  pub quantity : ℕ
  pub now : ℕ

abbrev pub new_order : ℕ → Request → QueuedOrder
new_order id r = record {
  id = id;
  user_uuid = r.user_uuid;
  username = r.username;
  order_type = r.order_type;
  item = r.item;
  quantity = r.quantity;
  queued_at = r.now;
}

-- The refusals of the operations, with the numbers that their messages show.
pub data QueueError : Type 0 where
  queue_full user_full : ℕ → QueueError
  unavailable empty_queue not_serialized not_persisted not_owner cancel_failed : QueueError
  head_changed : ℕ → ℕ → QueueError
  not_found : ℕ → QueueError
  -- the `expect` on a removal at a position that was just found
  panicked : QueueError

abbrev pub persisted : OrderQueue → QueuePersist
persisted q = record { orders = q.orders; next_id = q.next_id }

-- What is in memory and what the disk holds.
abbrev pub World : Type 0 → Type 0
World J = OrderQueue × Siblings J

-- `VecDeque::front`
front : List QueuedOrder → Option QueuedOrder
front [] = none
front (o ∷ _) = some o

unfoldable pub peek_front : OrderQueue → Option QueuedOrder
unfolding front
peek_front q = front q.orders

front-some :
    (l : List QueuedOrder) (o : QueuedOrder)
    → front l ≡ some o
    → (rest : List QueuedOrder) × (l ≡ o ∷ rest)
unfolding front
front-some [] o e = cc
front-some (p ∷ rest) o e = (rest, cc)

pub peek_front-some :
    (q : OrderQueue) (o : QueuedOrder)
    → peek_front q ≡ some o
    → (rest : List QueuedOrder) × (q.orders ≡ o ∷ rest)
unfolding peek_front
peek_front-some q o e = front-some q.orders o e

abbrev pub is_cancelled : String → ℕ → QueuedOrder → Bool
is_cancelled uuid order_id o = o.id == order_id && is_of uuid o

-- The push of `add`, with the identifier counter moved on.
abbrev pub pushed : Request → OrderQueue → OrderQueue
pushed r q = record {
  orders = q.orders ++ new_order q.next_id r ∷ [];
  next_id = u64_add q.next_id 1;
}

-- The rollback of that push.
abbrev pub unpushed : ℕ → OrderQueue → OrderQueue
unpushed id q = record {
  orders = pop_back q.orders;
  next_id = if q.next_id == u64_add id 1 then id else q.next_id;
}

module _ {J : Type 0} (sd : Serde J QueuePersist) where
  save_persist : Faults J → QueuePersist → Siblings J → Siblings J × Result (Unit {0}) IoError
  save_persist f p d = elim (sd.to_string p) [
    | none ↦ (d, err invalid_data)
    | some j ↦ write_atomic f j d
  ]

  unfoldable pub save_to :
      Faults J → OrderQueue → Siblings J → Siblings J × Result (Unit {0}) IoError
  unfolding save_persist
  save_to f q = save_persist f (persisted q)

  commit_add :
      ℕ → OrderQueue → Siblings J × Result (Unit {0}) IoError → World J × Result (ℕ × ℕ) QueueError
  commit_add id q (d, ok _) = ((q, d), ok (id, length q.orders))
  commit_add id q (d, err _) = ((unpushed id q, d), err unavailable)

  unfoldable pub add_at_path : Faults J → Request → World J → World J × Result (ℕ × ℕ) QueueError
  unfolding user_order_count save_to commit_add
  add_at_path f r (q, d) =
      if leb max_queue_size (length q.orders)
      then ((q, d), err (queue_full (length q.orders)))
      else if leb max_orders_per_user (user_order_count r.user_uuid q)
      then ((q, d), err (user_full (user_order_count r.user_uuid q)))
      else commit_add q.next_id (pushed r q) (save_to f (pushed r q) d)

  -- The queue in memory is cut only after its cut was saved.
  commit_pop :
      QueuedOrder
      → OrderQueue
      → OrderQueue
      → Siblings J × Result (Unit {0}) IoError
      → World J × Result QueuedOrder QueueError
  commit_pop o q q' (d, ok _) = ((q', d), ok o)
  commit_pop o q q' (d, err invalid_data) = ((q, d), err not_serialized)
  commit_pop o q q' (d, err _) = ((q, d), err not_persisted)

  pop_front : Faults J → ℕ → List QueuedOrder → World J → World J × Result QueuedOrder QueueError
  unfolding save_to commit_pop
  pop_front f order_id [] w = (w, err empty_queue)
  pop_front f order_id (o ∷ rest) (q, d) =
      let q' : OrderQueue = record q { orders = rest } in
      if o.id == order_id
      then commit_pop o q q' (save_to f q' d)
      else ((q, d), err (head_changed order_id o.id))

  unfoldable pub pop_committed_at_path :
      Faults J → ℕ → World J → World J × Result QueuedOrder QueueError
  unfolding pop_front
  pop_committed_at_path f order_id (q, d) = pop_front f order_id q.orders (q, d)

  -- On a failed save the order goes back to where it stood.
  commit_cancel :
      ℕ
      → QueuedOrder
      → OrderQueue
      → Siblings J × Result (Unit {0}) IoError
      → World J × Result (Unit {0}) QueueError
  commit_cancel pos o q (d, ok _) = ((q, d), ok tt)
  commit_cancel pos o q (d, err _) =
      ((record q { orders = insert_at pos o q.orders }, d), err cancel_failed)

  remove_order :
      Faults J
      → ℕ
      → Option (QueuedOrder × List QueuedOrder)
      → World J
      → World J × Result (Unit {0}) QueueError
  unfolding save_to commit_cancel
  remove_order f pos none w = (w, err panicked)
  remove_order f pos (some (o, rest)) (q, d) =
      let q' : OrderQueue = record q { orders = rest } in commit_cancel pos o q' (save_to f q' d)

  unfoldable pub cancel_at_path :
      Faults J → String → ℕ → World J → World J × Result (Unit {0}) QueueError
  unfolding remove_order
  cancel_at_path f uuid order_id (q, d) = elim (position (is_cancelled uuid order_id) q.orders) [
    | some pos ↦ remove_order f pos (remove q.orders pos) (q, d)
    | none ↦ (
      (q, d),
      err (if any (λ o. o.id == order_id) q.orders then not_owner else not_found order_id),
    )
  ]
