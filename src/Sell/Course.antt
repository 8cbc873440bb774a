-- ===== src/Sell/Course.antt =====
-- The course of a sale: which transitions of the trade it calls, and how it ends.
use cj_store.Prelude.{ℕ, ◌≡◌, ◌⊎◌, Bool, some}
use cj_store.Prelude.Int.{pos}
use cj_store.Float.{Float}
use cj_store.Types.{ItemId, Node}
use cj_store.Messages.{F64}
use cj_store.Queue.{QueuedOrder}
use cj_store.TradeState.{TradeState, rolled_back}
use cj_store.Ledger.{Map, Pair, lookup}
use cj_store.Shop.{Shop, Verdict, refused, too_large, accepted, update}
use cj_store.Course.{Keep}
use cj_store.Prices.{sell_payout_pure}
use cj_store.Sell.{SellPlan}

-- The pairs are as they were; or the payout was handed over and the items could not be put away, so
-- that the pair's reserve is less by the payout.
abbrev pub PaidOrUnchanged : ⦃f : Float F64⦄ → ItemId → F64 → Keep
PaidOrUnchanged ⦃f⦄ item total_payout v before after =
    (after ≡ before)
    ⊎ ((o : QueuedOrder) × (v ≡ rolled_back o "sell/deposit-failed")
        × (after
            ≡ update item
                (λ (p : Pair F64). record p {
                  currency_stock = f.sub p.currency_stock total_payout;
                })
                before))

-- The payout is the price of so many items, as quoted for the pair before the sale.
abbrev pub IsQuoted : ⦃f : Float F64⦄ → ItemId → ℕ → F64 → Map (Pair F64) → F64 → Type 0
IsQuoted item quantity fee pairs total_payout =
    (p : Pair F64) × (lookup item pairs ≡ some p)
    × (sell_payout_pure p.item_stock p.currency_stock (pos quantity) fee ≡ some total_payout)

abbrev pub QuotedOrUnchanged : ⦃f : Float F64⦄ → ItemId → ℕ → F64 → Keep
QuotedOrUnchanged item quantity fee v before after =
    (after ≡ before)
    ⊎ ((total_payout : F64) × IsQuoted item quantity fee before total_payout
        × PaidOrUnchanged item total_payout v before after)

module _ ⦃f : Float F64⦄ (save : Node → Bool) (o : QueuedOrder) (item : ItemId) where
  -- A verdict's payout is quoted.
  abbrev IsQuotedVerdict : ℕ → Shop → Verdict SellPlan → Type 0
  IsQuotedVerdict quantity sh refused = Unit {0}
  IsQuotedVerdict quantity sh too_large = Unit {0}
  IsQuotedVerdict quantity sh (accepted plan) =
      IsQuoted item quantity sh.fee sh.pairs plan.total_payout
