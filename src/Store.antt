-- ===== src/Store.antt =====
-- src/store/mod.rs: the part of the store that takes an order from the queue, drives its trade and
-- records it on disk. An order's handler (store/orders.rs, store/handlers) changes the trade only
-- through `advance_trade`, and the queue not at all; it enters as the list of those calls.
pub mod Handover
pub mod Outcome
pub mod Operator
use cj_store.Prelude.{
  Bool, true, false, Option, none, some, List, [], ◌∷◌, Result, ok, err, if◌then◌else◌,
}
use cj_store.Serde.{Serde}
use cj_store.Fsutil.{Siblings, Faults, IoError}
use cj_store.Queue.{
  OrderQueue, QueuePersist, QueuedOrder, QueueError, World, peek_front, pop_committed_at_path,
  save_to,
}
use cj_store.TradeState.{TradeState, Transition, apply, is_terminal}
use cj_store.TradeState
use cj_store.TradeState.Mirror.{persist_to, clear_persisted_from}

-- The fields of `Store` that the orders' life needs, and the two files.
pub record Store (J K : Type 0) : Type 0 where
  pub order_queue : OrderQueue
  pub queue_file : Siblings J
  pub trade_file : Siblings K
  pub current_trade : Option TradeState
  pub processing_order : Bool
  pub dirty : Bool

-- What the file system answers while one order is processed: to the copy of the trade, to the
-- shorter queue, to the removal of the copy after a failed pop, in the handler, and at its end.
pub record OrderFaults (J K : Type 0) : Type 0 where
  pub mirrored : Faults K
  pub popped : Faults J
  pub cleared_orphan : Bool
  pub repersisted : Faults K
  pub cleared : Bool

module _ {J K : Type 0} (sq : Serde J QueuePersist) (st : Serde K TradeState) where
  -- A failed save of the trade is logged and nothing else.
  abbrev persisting : Faults K → TradeState → Store J K → Store J K
  persisting f t s = record s { trade_file = (persist_to st f t s.trade_file).0 }

  -- The trade is saved whether or not the transition was accepted.
  advance_from :
      Faults K → TradeState → Result TradeState TradeState.TransitionError → Store J K → Store J K
  advance_from f prev (ok t) s = record (persisting f t s) { current_trade = some t; dirty = true }
  advance_from f prev (err e) s = record (persisting f prev s) {
    current_trade = some prev;
    dirty = true;
  }

  advance_active : Faults K → Transition → Option TradeState → Store J K → Store J K
  unfolding advance_from
  advance_active f t none s = s
  advance_active f t (some prev) s = advance_from f prev (apply t prev) s

  unfoldable pub advance_trade : Faults K → Transition → Store J K → Store J K
  unfolding advance_active
  advance_trade f t s = advance_active f t s.current_trade s

  -- The calls that a handler makes, in turn.
  unfoldable pub handle : List (Faults K × Transition) → Store J K → Store J K
  handle [] s = s
  handle ((f, t) ∷ ts) s = handle ts (advance_trade f t s)

  -- The end of an order: a trade that did not come to its end stays on record; else it is cleared.
  cleared_with : Siblings K × Result (Unit {0}) IoError → Store J K → Store J K
  cleared_with (d, ok _) s = record s { trade_file = d; current_trade = none; dirty = true }
  cleared_with (d, err _) s = record s { trade_file = d; dirty = true }

  clear_finished : Bool → Store J K → Store J K
  unfolding cleared_with
  clear_finished removed s = cleared_with (clear_persisted_from st removed s.trade_file) s

  finish_trade : OrderFaults J K → Option TradeState → Store J K → Store J K
  unfolding clear_finished
  finish_trade f none s = clear_finished f.cleared s
  finish_trade f (some t) s =
      if is_terminal t
      then clear_finished f.cleared s
      else record (persisting f.repersisted t s) { dirty = true }

  unfoldable pub finish_order : OrderFaults J K → Store J K → Store J K
  unfolding finish_trade
  finish_order f s = finish_trade f s.current_trade (record s { processing_order = false })

  -- The step from the queue to the trade: the copy of the trade is on disk before the order leaves
  -- the queue. The flag says whether the order is now being processed.
  take_popped :
      OrderFaults J K
      → QueuedOrder
      → Store J K
      → World J × Result QueuedOrder QueueError
      → Store J K × Bool
  take_popped f o s ((q, d), ok _) = (
    record s {
      order_queue = q;
      queue_file = d;
      processing_order = true;
      current_trade = some (TradeState.new o);
    },
    true,
  )
  take_popped f o s ((q, d), err _) = (
    record s {
      order_queue = q;
      queue_file = d;
      trade_file = (clear_persisted_from st f.cleared_orphan s.trade_file).0;
    },
    false,
  )

  take_mirrored :
      OrderFaults J K
      → QueuedOrder
      → Store J K
      → Siblings K × Result (Unit {0}) IoError
      → Store J K × Bool
  unfolding take_popped
  take_mirrored f o s (d, ok _) =
      take_popped f o (record s { trade_file = d })
        (pop_committed_at_path sq f.popped o.id (s.order_queue, s.queue_file))
  take_mirrored f o s (d, err _) = (record s { trade_file = d }, false)

  take_from : OrderFaults J K → Store J K → Option QueuedOrder → Store J K × Bool
  unfolding take_mirrored
  take_from f s none = (s, false)
  take_from f s (some o) =
      take_mirrored f o s (persist_to st f.mirrored (TradeState.new o) s.trade_file)

  unfoldable pub take_next : OrderFaults J K → Store J K → Store J K × Bool
  unfolding peek_front take_from
  take_next f s = take_from f s (peek_front s.order_queue)

  unfoldable pub process_next_order :
      OrderFaults J K → List (Faults K × Transition) → Store J K → Store J K
  unfolding take_next handle finish_order
  process_next_order f calls s =
      let (s', taken) = take_next f s in if taken then finish_order f (handle calls s') else s'

  -- `ClearStuckOrder` of store/handlers/cli.rs.
  unfoldable pub clear_stuck_order : Bool → Faults J → Store J K → Store J K
  clear_stuck_order removed f s = record s {
    processing_order = false;
    current_trade = none;
    dirty = true;
    trade_file = (clear_persisted_from st removed s.trade_file).0;
    queue_file = (save_to sq f s.order_queue s.queue_file).0;
  }
