-- ===== src/Store/Operator.antt =====
-- The operator's command `ClearStuckOrder`.
use cj_store.Prelude.{◌≡◌, refl, ap, sym, ◌∙◌, Bool, true, false, Option, none, arith, ok, err}
use cj_store.Serde.{Serde, IsFaithful}
use cj_store.Fsutil.{Faults, IoError}
use cj_store.Queue.{QueuePersist, OrderQueue, persisted, save_to}
use cj_store.Queue
use cj_store.Queue.Load.{load_from, load_from-Saved}
use cj_store.Queue.Saves.{Kept, Saved, save_to_ok, save_to_err}
use cj_store.TradeState.{TradeState}
use cj_store.TradeState.Mirror.{clear_persisted_from, load_persisted_from, load_persisted_from-none}
use cj_store.TradeState
use cj_store.Store.{Store, clear_stuck_order}

module _ {J K : Type 0} (sq : Serde J QueuePersist) (st : Serde K TradeState) where
  -- What the order leaves.
  abbrev Clears : Bool → Faults J → Store J K → Store J K → Type 0
  Clears removed f s s' =
      (s'.current_trade ≡ none)
      × (s'.processing_order ≡ false)
      × (s'.order_queue ≡ s.order_queue)
      × (removed ≡ true → s'.trade_file.live ≡ none)
      × ((save_to sq f s.order_queue s.queue_file).1 ≡ ok tt → Saved sq s.order_queue s'.queue_file)
      × ((x : IoError)
          → (save_to sq f s.order_queue s.queue_file).1 ≡ err x
          → Kept s.queue_file s'.queue_file)

  cleared_file :
      (removed : Bool) (s : Store J K)
      → removed ≡ true
      → (clear_persisted_from st removed s.trade_file).0.live ≡ none
  unfolding clear_persisted_from
  cleared_file removed s h = ground (arith, h)

  -- After `ClearStuckOrder` the store is free and has no trade, no waiting order is lost in
  -- memory, the trade file is gone if it could be removed, and the queue has been saved: if
  -- that save succeeds the queue file holds the text of the queue, and if it fails no byte of the
  -- file is lost.
  clear_stuck_order-Clears :
      (removed : Bool) (f : Faults J) (s : Store J K)
      → Clears removed f s (clear_stuck_order sq st removed f s)
  unfolding clear_stuck_order
  clear_stuck_order-Clears removed f s = (
    refl,
    refl,
    refl,
    cleared_file removed s,
    save_to_ok sq f s.order_queue s.queue_file,
    λ x. save_to_err sq f s.order_queue s.queue_file,
  )

  -- After ClearStuckOrder, whose removal of the trade file and whose save of the queue succeed, the
  -- store is free, has no trade and all its waiting orders; and a crash right after it costs nothing:
  -- a start that can read the queue file finds the same queue, if the JSON library reads its values
  -- back exactly, and it finds no trade in flight.
  pub clear_stuck_order-restarts :
      (exact : QueuePersist → Bool)
      → IsFaithful sq exact
      → (f : Faults J) (s : Store J K) → exact (persisted s.order_queue) ≡ true
      → (save_to sq f s.order_queue s.queue_file).1 ≡ ok tt
      → (g : Queue.Load.LoadFaults J) (g' : TradeState.Mirror.LoadFaults K) → g.readable ≡ true
      → (archive : Option J) (archive' : Option K)
      → let s' = clear_stuck_order sq st true f s in
        (s'.current_trade ≡ none)
        × (s'.processing_order ≡ false)
        × (s'.order_queue ≡ s.order_queue)
        × ((load_from sq g s'.queue_file.live archive).0 ≡ ok s'.order_queue)
        × ((load_persisted_from st g' s'.trade_file.live archive').0 ≡ ok none)
  clear_stuck_order-restarts exact faithful f s fits written g g' can archive archive' =
      let s' = clear_stuck_order sq st true f s in
      let (no_trade, free, same, gone, saved, _) = clear_stuck_order-Clears true f s in
      (
        no_trade,
        free,
        same,
        load_from-Saved sq exact faithful s.order_queue s'.queue_file fits (saved written) g archive
              can
            ∙ ap ok (sym same),
        load_persisted_from-none st g' s'.trade_file.live archive' (gone refl),
      )
