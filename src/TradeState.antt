-- ===== src/TradeState.antt =====
-- src/store/trade_state.rs: the states of the one trade in flight and its transitions. A phase and
-- the name of a transition are the texts that the log shows.
pub mod Phases
pub mod Steps
pub mod Mirror
use cj_store.Prelude.{Bool, true, false, List, String, Result, ok, err}
use cj_store.Prelude.Int.{ℤ}
use cj_store.Messages.{F64, TradeItem}
use cj_store.Types.{ChestTransfer}
use cj_store.Queue.{QueuedOrder}

pub record TransitionError : Type 0 where
  pub from : String
  pub to : String

pub record TradeResult : Type 0 where
  pub items_received : List TradeItem

pub record CompletedTrade : Type 0 where
  pub order : QueuedOrder
  pub item : String
  pub quantity : ℤ
  pub currency_amount : F64

pub data TradeState : Type 0 where
  queued : QueuedOrder → TradeState
  withdrawing trading : QueuedOrder → List ChestTransfer → TradeState
  depositing : QueuedOrder → TradeResult → List ChestTransfer → TradeState
  committed : CompletedTrade → TradeState
  rolled_back : QueuedOrder → String → TradeState

-- `TradeState::new`
abbrev pub new : QueuedOrder → TradeState
new = queued

unfoldable pub phase : TradeState → String
phase (queued _) = "queued"
phase (withdrawing _ _) = "withdrawing"
phase (trading _ _) = "trading"
phase (depositing _ _ _) = "depositing"
phase (committed _) = "committed"
phase (rolled_back _ _) = "rolled_back"

-- The answer of a transition.
abbrev pub Next : Type 0
Next = Result TradeState TransitionError

abbrev pub refuse : TradeState → String → Next
refuse s to = err (record { from = phase s; to = to })

unfoldable pub begin_withdrawal : List ChestTransfer → TradeState → Next
begin_withdrawal plan (queued order) = ok (withdrawing order plan)
begin_withdrawal plan other = refuse other "begin_withdrawal"

unfoldable pub begin_trading : TradeState → Next
begin_trading (withdrawing order plan) = ok (trading order plan)
begin_trading other = refuse other "begin_trading"

unfoldable pub begin_depositing : TradeResult → List ChestTransfer → TradeState → Next
begin_depositing r plan (trading order _) = ok (depositing order r plan)
begin_depositing r plan other = refuse other "begin_depositing"

abbrev pub completed : QueuedOrder → String → ℤ → F64 → TradeState
completed order item quantity currency =
    committed
      (record { order = order; item = item; quantity = quantity; currency_amount = currency })

unfoldable pub commit : String → ℤ → F64 → TradeState → Next
commit item quantity currency (trading order _) = ok (completed order item quantity currency)
commit item quantity currency (depositing order _ _) = ok (completed order item quantity currency)
commit item quantity currency other = refuse other "commit"

unfoldable pub rollback : String → TradeState → Next
rollback reason (queued order) = ok (rolled_back order reason)
rollback reason (withdrawing order _) = ok (rolled_back order reason)
rollback reason (trading order _) = ok (rolled_back order reason)
rollback reason (depositing order _ _) = ok (rolled_back order reason)
rollback reason (committed _) = err (record { from = "committed"; to = "rollback" })
rollback reason (rolled_back _ _) = err (record { from = "rolled_back"; to = "rollback" })

unfoldable pub is_terminal : TradeState → Bool
is_terminal (committed _) = true
is_terminal (rolled_back _ _) = true
is_terminal _ = false

unfoldable pub order : TradeState → QueuedOrder
order (queued o) = o
order (withdrawing o _) = o
order (trading o _) = o
order (depositing o _ _) = o
order (rolled_back o _) = o
order (committed c) = c.order

-- A call of one of the transitions.
pub data Transition : Type 0 where
  begins_withdrawal : List ChestTransfer → Transition
  begins_trading : Transition
  begins_depositing : TradeResult → List ChestTransfer → Transition
  commits : String → ℤ → F64 → Transition
  rolls_back : String → Transition

unfoldable pub apply : Transition → TradeState → Next
unfolding begin_withdrawal begin_trading begin_depositing commit rollback
apply (begins_withdrawal plan) = begin_withdrawal plan
apply begins_trading = begin_trading
apply (begins_depositing r plan) = begin_depositing r plan
apply (commits item quantity currency) = commit item quantity currency
apply (rolls_back reason) = rollback reason
