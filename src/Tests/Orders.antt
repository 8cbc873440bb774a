-- ===== src/Tests/Orders.antt =====
-- The queue and the store's loop.
use cj_store.Prelude.{◌≡◌, refl, true, false, none, some, ok, List, [], ◌∷◌, arith}
use cj_store.Prelude.Int.{pos}
use cj_store.Serde.{Serde}
use cj_store.Queue.{
  save_to, QueuePersist, World, add_at_path, pop_committed_at_path, cancel_at_path, new,
}
use cj_store.Queue.Effects.{
  Adds, Pops, Cancels, add_at_path-Adds, pop_committed_at_path-Pops, cancel_at_path-Cancels,
}
use cj_store.Queue.Runs.{
  IsValid, Call, adds, pops, cancels, run, Tracks, run-IsValid, run-Tracks, new-IsValid, step,
}
use cj_store.Queue.Fifo.{served, Increasing, served-Increasing}
use cj_store.Queue.Load.{LoadFaults, load_from, load_from-run}
use cj_store.Fsutil.{Faults, write_atomic}
use cj_store.TradeState.{TradeState, Transition, begins_withdrawal, begins_trading, commits}
use cj_store.Store.{Store, OrderFaults, clear_stuck_order, take_next, process_next_order}
use cj_store.Store.Operator.{clear_stuck_order-restarts}
use cj_store.TradeState.Mirror.{load_persisted_from}
use cj_store.TradeState.Mirror
use cj_store.Store.Handover.{Takes, take_next-Takes}
use cj_store.Store.Outcome.{Processes, process_next_order-Processes}
use cj_store.Tests.Fixtures.{
  works, fails_late, archives_never, archives_well, alone, plain, plain-IsFaithful, always,
  alex_order, two_orders, two_orders_text, two_orders_world, alex_request,
}

abbrev sq : Serde QueuePersist QueuePersist
sq = plain QueuePersist

abbrev st : Serde TradeState TradeState
st = plain TradeState

add_at_path-Adds_example :
    Adds sq alex_request two_orders_world
      (add_at_path sq (works two_orders_text) alex_request two_orders_world)
add_at_path-Adds_example = add_at_path-Adds sq (works two_orders_text) alex_request two_orders_world

pop_committed_at_path-Pops_example :
    Pops sq 1 two_orders_world (pop_committed_at_path sq (works two_orders_text) 1 two_orders_world)
pop_committed_at_path-Pops_example =
    pop_committed_at_path-Pops sq (works two_orders_text) 1 two_orders_world

cancel_at_path-Cancels_example :
    Cancels sq "steve-uuid" 2 two_orders_world
      (cancel_at_path sq (fails_late two_orders_text) "steve-uuid" 2 two_orders_world)
cancel_at_path-Cancels_example =
    cancel_at_path-Cancels sq (fails_late two_orders_text) "steve-uuid" 2 two_orders_world

-- An empty queue without a file, as at the first start.
abbrev empty_world : World QueuePersist
empty_world = (new, alone none)

empty_world-Tracks : Tracks sq empty_world
empty_world-Tracks j e = cc

-- Two players' orders, a cancellation, a write that fails late, and an order served.
abbrev calls : List (Call QueuePersist)
calls =
    adds (works two_orders_text) alex_request
    ∷ adds (works two_orders_text) (record alex_request { user_uuid = "steve-uuid" })
    ∷ cancels (fails_late two_orders_text) "steve-uuid" 2
    ∷ cancels (works two_orders_text) "alex-uuid" 1
    ∷ pops (works two_orders_text) 2
    ∷ []

run-IsValid_example : IsValid (run sq calls empty_world).0
run-IsValid_example = run-IsValid sq calls empty_world new-IsValid (unfold new in omega arith)

run-Tracks_example : Tracks sq (run sq calls empty_world)
run-Tracks_example =
    run-Tracks sq calls empty_world new-IsValid (unfold new in omega arith) empty_world-Tracks

served-Increasing_example : Increasing 0 (served sq calls empty_world)
served-Increasing_example =
    served-Increasing sq calls 0 empty_world (unfold new in omega arith) (unfold new in omega arith)

abbrev reads_well : LoadFaults QueuePersist
reads_well = record { readable = true; archiving = archives_well }

abbrev emptied : QueuePersist
emptied = record { orders = []; next_id = 3 }

load_from-run_example :
    load_from sq reads_well (run sq calls empty_world).1.live none
    ≡ (ok (run sq calls empty_world).0, some emptied, none)
load_from-run_example =
    load_from-run sq always (plain-IsFaithful QueuePersist) calls empty_world new-IsValid
      (unfold new in omega arith) empty_world-Tracks emptied
      (unfold write_atomic run step add_at_path cancel_at_path pop_committed_at_path new in refl)
      refl reads_well none refl

abbrev reads_never : LoadFaults QueuePersist
reads_never = record { readable = true; archiving = archives_never }

-- Two orders wait and no trade is in flight.
abbrev waiting : Store QueuePersist TradeState
waiting = record {
  order_queue = two_orders;
  queue_file = alone (some two_orders_text);
  trade_file = alone none;
  current_trade = none;
  processing_order = false;
  dirty = false;
}

abbrev all_well : OrderFaults QueuePersist TradeState
all_well = record {
  mirrored = works (TradeState.queued alex_order);
  popped = works two_orders_text;
  cleared_orphan = true;
  repersisted = works (TradeState.queued alex_order);
  cleared = true;
}

-- The handler of a purchase that goes well.
abbrev purchase : List (Faults TradeState × Transition)
purchase =
    (works (TradeState.queued alex_order), begins_withdrawal [])
    ∷ (works (TradeState.queued alex_order), begins_trading)
    ∷ (works (TradeState.queued alex_order), commits "cobblestone" (pos 64) 12)
    ∷ []

take_next-Takes_example : Takes sq st waiting (take_next sq st all_well waiting)
take_next-Takes_example = take_next-Takes sq st all_well waiting

process_next_order-Processes_example :
    Processes sq st all_well purchase waiting (process_next_order sq st all_well purchase waiting)
process_next_order-Processes_example = process_next_order-Processes sq st all_well purchase waiting

-- An order that is stuck while another one waits.
abbrev stuck : Store QueuePersist TradeState
stuck = record waiting {
  trade_file = alone (some (TradeState.queued alex_order));
  current_trade = some (TradeState.queued alex_order);
  processing_order = true;
}

abbrev trade_file_unread : Mirror.LoadFaults TradeState
trade_file_unread = record { readable = false; picked = false; archiving = archives_never }

abbrev released : Store QueuePersist TradeState
released = clear_stuck_order sq st true (works two_orders_text) stuck

clear_stuck_order-restarts_example :
    (released.current_trade ≡ none)
    × (released.processing_order ≡ false)
    × (released.order_queue ≡ stuck.order_queue)
    × ((load_from sq reads_well released.queue_file.live none).0 ≡ ok released.order_queue)
    × ((load_persisted_from st trade_file_unread released.trade_file.live none).0 ≡ ok none)
unfolding save_to
clear_stuck_order-restarts_example =
    clear_stuck_order-restarts sq st always (plain-IsFaithful QueuePersist) (works two_orders_text)
      stuck refl (unfold write_atomic in refl) reads_well trade_file_unread refl none none
