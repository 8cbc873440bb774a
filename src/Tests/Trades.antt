-- ===== src/Tests/Trades.antt =====
-- The trade in flight and its copy on disk.
use cj_store.Prelude.{◌≡◌, refl, true, none, some, ok, List, [], ◌∷◌}
use cj_store.Prelude.Int.{pos}
use cj_store.Serde.{Serde}
use cj_store.Fsutil.{write_atomic}
use cj_store.TradeState.{
  TradeState, CompletedTrade, Transition, queued, committed, begins_withdrawal, begins_trading,
  commits, apply,
}
use cj_store.TradeState.Steps.{Runs, stop, next, Completes, committed-Completes}
use cj_store.TradeState.Mirror.{LoadFaults, persist_to, load_persisted_from, load-persist}
use cj_store.Tests.Fixtures.{
  works, archives_well, alone, plain, plain-IsFaithful, always, alex_order,
}

abbrev st : Serde TradeState TradeState
st = plain TradeState

abbrev sold : CompletedTrade
sold = record { order = alex_order; item = "cobblestone"; quantity = pos 64; currency_amount = 12 }

abbrev purchase : List Transition
purchase = begins_withdrawal [] ∷ begins_trading ∷ commits "cobblestone" (pos 64) 12 ∷ []

bought : Runs (queued alex_order) purchase (committed sold)
unfolding apply
bought = next refl (next refl (next refl stop))

committed-Completes_example : Completes purchase
committed-Completes_example = committed-Completes alex_order sold purchase bought

abbrev reads_well : LoadFaults TradeState
reads_well = record { readable = true; picked = true; archiving = archives_well }

load-persist_example :
    (load_persisted_from st reads_well
      (persist_to st (works (queued alex_order)) (queued alex_order) (alone none)).0.live
      none).0
    ≡ ok (some (queued alex_order))
load-persist_example =
    load-persist st always (plain-IsFaithful TradeState) (works (queued alex_order))
      (queued alex_order) (alone none) refl (unfold persist_to write_atomic in refl) reads_well none
      refl
