-- ===== src/Store/Handover.antt =====
-- The handover of an order from the queue to the trade.
use cj_store.Prelude.{
  ◌≡◌, refl, inl, Bool, true, false, Option, none, some, List, ◌∷◌, Result, ok, err,
}
use cj_store.Serde.{Serde}
use cj_store.Fsutil.{Siblings, IoError}
use cj_store.Queue.{
  QueuePersist, QueuedOrder, QueueError, World, peek_front, peek_front-some, pop_committed_at_path,
}
use cj_store.Queue.Saves.{Kept, Saved}
use cj_store.Queue.Effects.{Pops, pop_committed_at_path-Pops}
use cj_store.TradeState.{TradeState}
use cj_store.TradeState.Mirror.{persist_to_ok, Mirrored}
use cj_store.Store.{Store, OrderFaults, take_next, take_from, take_mirrored, take_popped}

module _ {J K : Type 0} (sq : Serde J QueuePersist) (st : Serde K TradeState) where
  -- What the step from the queue to the trade may leave.
  abbrev pub Takes : Store J K → Store J K × Bool → Type 0
  Takes s (s', true) =
      (o : QueuedOrder) × (s.order_queue.orders ≡ o ∷ s'.order_queue.orders)
      × (s'.current_trade ≡ some (TradeState.queued o))
      × (s'.processing_order ≡ true)
      × Saved sq s'.order_queue s'.queue_file
      × Mirrored st (TradeState.queued o) s'.trade_file
  Takes s (s', false) =
      (s'.order_queue ≡ s.order_queue)
      × (s'.current_trade ≡ s.current_trade)
      × (s'.processing_order ≡ s.processing_order)
      × Kept s.queue_file s'.queue_file

  take_popped-Takes :
      (f : OrderFaults J K) (o : QueuedOrder) (rest : List QueuedOrder) (s : Store J K)
      (d : Siblings K) (x : World J × Result QueuedOrder QueueError)
      → s.order_queue.orders ≡ o ∷ rest
      → Mirrored st (TradeState.queued o) d
      → Pops sq o.id (s.order_queue, s.queue_file) x
      → Takes s (take_popped sq st f o (record s { trade_file = d }) x)
  unfolding take_popped
  take_popped-Takes f o rest s d ((q, _), ok p) e m (_, split, _, saved) =
      (o, cc, refl, refl, saved, m)
  take_popped-Takes f o rest s d (_, err x) e m (same, kept) = (same, refl, refl, kept)

  take_mirrored-Takes :
      (f : OrderFaults J K) (o : QueuedOrder) (rest : List QueuedOrder) (s : Store J K)
      (d : Siblings K) (r : Result (Unit {0}) IoError)
      → s.order_queue.orders ≡ o ∷ rest
      → (r ≡ ok tt → Mirrored st (TradeState.queued o) d)
      → Takes s (take_mirrored sq st f o s (d, r))
  unfolding take_mirrored
  take_mirrored-Takes f o rest s d (ok _) e m =
      take_popped-Takes f o rest s d
        (pop_committed_at_path sq f.popped o.id (s.order_queue, s.queue_file)) e (m refl)
        (pop_committed_at_path-Pops sq f.popped o.id (s.order_queue, s.queue_file))
  take_mirrored-Takes f o rest s d (err _) e m = (refl, refl, refl, inl refl)

  take_from-Takes :
      (f : OrderFaults J K) (s : Store J K) (p : Option QueuedOrder)
      → peek_front s.order_queue ≡ p
      → Takes s (take_from sq st f s p)
  unfolding take_from
  take_from-Takes f s none e = (refl, refl, refl, inl refl)
  take_from-Takes f s (some o) e =
      let (rest, split) = peek_front-some s.order_queue o e in
      take_mirrored-Takes f o rest s _ _ split
        (persist_to_ok st f.mirrored (TradeState.queued o) s.trade_file)

  -- An order that leaves the queue was first in line; it is then on disk as the trade in flight,
  -- and the shorter queue is on disk too. Otherwise the queue in memory is as it was, and no
  -- written byte of it is lost.
  pub take_next-Takes : (f : OrderFaults J K) (s : Store J K) → Takes s (take_next sq st f s)
  unfolding take_next
  take_next-Takes f s = take_from-Takes f s (peek_front s.order_queue) refl
