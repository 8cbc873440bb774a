-- ===== src/Buy.antt =====
-- src/store/orders.rs: `handle_buy_order`, a purchase from its validation to the ledger, with
-- `calculate_buy_cost` of src/store/pricing.rs, over any `f64` operations. The texts for the player
-- and the final save of an inconsistent store are not modelled.
pub mod Course
use cj_store.Prelude.{
  ℕ, ◌*◌, ◌-◌, ◌^◌, Bool, true, false, not, ◌&&◌, ◌||◌, Option, none, some, List, [], ◌∷◌, ◌++◌,
  String, Result, ok, err, if◌then◌else◌, str_eq, ltb,
}
use cj_store.Prelude.Int.{ℤ, pos, ◌+ℤ◌, ◌*ℤ◌, leb_ℤ, ltb_ℤ, eq_ℤ}
use cj_store.Float.{Float}
use cj_store.Types.{ItemId, ChestTransfer, Node, base_currency_item}
use cj_store.Messages.{F64, TradeItem}
use cj_store.Storage.{total_item_amount, simulate_withdraw_plan}
use cj_store.TradeState.{begins_withdrawal, begins_trading, commits, rolls_back}
use cj_store.Prices.{buy_cost_pure}
use cj_store.Rollback.{Desk, RollbackResult, deposit_transfers}
use cj_store.Rollback.Planning.{rollback_amount_to_storage}
use cj_store.Transfers.{withdrawal, TransferError, execute_chest_transfers}
use cj_store.Ledger.{User, Pair, Map, Books, Issue, lookup, assert_tradeable, assert_invariants}
use cj_store.Shop.{
  Shop, Answer, Verdict, refused, too_large, accepted, trade_offer_slots_per_side, diamonds_in,
  recorded, audited, Deal, TradeType, OrderError, invariant_violation, quantity_too_large,
  unknown_pair, unknown_user, TradeAnswer, received, rejected, no_answer_in_time, answer_dropped,
  not_sent, books, with_desk, mark_dirty, advance, request_trade, offer, mark_user, update,
  send_message_to_player, ensure_user_exists,
}

pub record BuyPlan : Type 0 where
  pub qty : ℤ
  pub total_cost : F64
  pub diamonds_to_offer : ℤ
  pub withdraw_plan : List ChestTransfer
  pub physical_stock : ℤ
  pub stack_size : ℤ

module _ ⦃f : Float F64⦄ (save : Node → Bool) where
  abbrev pub balance_of : Option (User F64) → F64
  balance_of none = f.nought
  balance_of (some u) = u.balance

  unfoldable pub diamonds_to_offer_for_buy : F64 → F64 → Option ℤ
  diamonds_to_offer_for_buy total_cost balance =
      let shortfall = f.sub total_cost balance in
      if f.le shortfall f.nought
      then some (pos 0)
      else if f.lt f.i32_limit (f.ceil shortfall)
      then none
      else some (f.to_i32 (f.ceil shortfall))

  -- The checks on a price and a pair that are there, up to the plan.
  unfoldable pub plan_buy : Shop → F64 → ItemId → ℤ → Pair F64 → F64 → ℤ → Verdict BuyPlan
  unfolding total_item_amount simulate_withdraw_plan
  plan_buy sh balance item qty p total_cost diamonds =
      let physical_stock = total_item_amount item sh.desk.depot.storage in
      let (plan, planned) = simulate_withdraw_plan item qty sh.desk.depot.storage in
      if not (f.is_finite total_cost)
        || f.le total_cost f.nought
        || ltb_ℤ physical_stock qty
        || ltb_ℤ p.item_stock qty
        || ltb_ℤ (pos trade_offer_slots_per_side *ℤ p.stack_size) qty
        || f.lt (f.add balance (f.of_i32 diamonds)) total_cost
        || not (eq_ℤ planned qty)
      then refused
      else accepted (record {
        qty = qty;
        total_cost = total_cost;
        diamonds_to_offer = diamonds;
        withdraw_plan = plan;
        physical_stock = physical_stock;
        stack_size = p.stack_size;
      })

  unfoldable pub judge_buy : Shop → String → ItemId → ℕ → Verdict BuyPlan
  unfolding lookup buy_cost_pure plan_buy diamonds_to_offer_for_buy
  judge_buy sh user_uuid item quantity = elim (lookup item sh.pairs) [
    | none ↦ refused
    | some p ↦
        (let balance = balance_of (lookup user_uuid sh.users) in
          if ltb (2 ^ 31 - 1) quantity
          then too_large
          else if leb_ℤ (pos quantity) (pos 0)
          then refused
          else elim (buy_cost_pure p.item_stock p.currency_stock (pos quantity) sh.fee) [
            | none ↦ refused
            | some total_cost ↦ elim (diamonds_to_offer_for_buy total_cost balance) [
              | none ↦ refused
              | some diamonds ↦ plan_buy sh balance item (pos quantity) p total_cost diamonds
            ]
          ])
  ]

  -- What the player owes beyond the diamonds given is taken from the balance; what the diamonds that
  -- reached the warehouse come to beyond the price is added to it.
  abbrev pub settle_balance : F64 → F64 → F64 → F64 → F64
  settle_balance total_cost given stored balance =
      let needed = f.sub total_cost given in
      let backed = f.greater (f.sub stored total_cost) f.nought in
      if f.lt f.nought needed
      then f.sub balance (f.lesser needed balance)
      else if f.lt f.nought backed
      then f.add balance backed
      else balance

  abbrev pub deduction : F64 → F64 → F64 → F64
  deduction total_cost given balance =
      let needed = f.sub total_cost given in
      if f.lt f.nought needed then f.lesser needed balance else f.nought

  -- The pair and the records after a purchase, and the repair of the books after it.
  abbrev pub booked : String → ItemId → BuyPlan → F64 → Shop → Shop
  booked user_uuid item plan paid sh =
      let stock = total_item_amount item sh.desk.depot.storage in
      let deal : Deal = record {
        trade_type = TradeType.buy;
        item = item;
        amount = plan.qty;
        amount_currency = plan.total_cost;
        user_uuid = user_uuid;
      } in
      recorded deal (record (mark_dirty sh) {
        pairs =
            update item
              (λ (p : Pair F64). record p {
                item_stock = stock;
                currency_stock = f.add p.currency_stock paid;
              })
              sh.pairs;
      })

  -- The books after a purchase.
  abbrev pub settled : String → String → BuyPlan → ℤ → ℤ → Shop → Shop
  settled player_name user_uuid plan given stored sh = mark_user user_uuid (record sh {
    users =
        update user_uuid
          (λ (u : User F64). record u {
            balance = settle_balance plan.total_cost (f.of_i32 given) (f.of_i32 stored) u.balance;
            username = player_name;
          })
          sh.users;
  })

  abbrev pub paid_for : String → BuyPlan → ℤ → ℤ → Shop → F64
  paid_for user_uuid plan given stored sh =
      let current = balance_of (lookup user_uuid sh.users) in
      f.add (f.of_i32 stored) (deduction plan.total_cost (f.of_i32 given) current)

  abbrev pub committed_shop : String → String → ItemId → BuyPlan → ℤ → ℤ → Shop → Shop
  committed_shop player_name user_uuid item plan given stored sh = audited (
      advance (commits item plan.qty plan.total_cost) (
        booked user_uuid item plan (paid_for user_uuid plan given stored sh)
          (settled player_name user_uuid plan given stored sh)))

  unfoldable pub commit_buy : String → String → ItemId → BuyPlan → ℤ → ℤ → Shop → Answer
  unfolding lookup update total_item_amount send_message_to_player audited
  commit_buy player_name user_uuid item plan given stored sh = elim (lookup user_uuid sh.users) [
    | none ↦ (sh, err (unknown_user user_uuid))
    | some _ ↦ elim (lookup item sh.pairs) [
      | none ↦
          (mark_dirty (settled player_name user_uuid plan given stored sh), err (unknown_pair item))
      | some _ ↦
          send_message_to_player (committed_shop player_name user_uuid item plan given stored sh)
    ]
  ]

  -- The diamonds go into the warehouse; how many of them arrived is given too.
  abbrev pub store_diamonds : ℤ → Desk → ℤ × Desk
  store_diamonds given d =
      let (r, d') = rollback_amount_to_storage save base_currency_item given (pos 64) d in
      if ltb_ℤ (pos 0) given then (r.items_returned, d') else (pos 0, d)

  -- Too little was paid: the items go back, and the diamonds that arrived are credited.
  abbrev pub credited : String → ℤ → Shop → Shop
  credited user_uuid amount sh =
      if ltb_ℤ (pos 0) amount
      then mark_user user_uuid (record sh {
        users =
            update user_uuid
              (λ (u : User F64). record u { balance = f.add u.balance (f.of_i32 amount) }) sh.users;
      })
      else sh

  abbrev pub short_shop : String → ItemId → BuyPlan → ℤ → Shop → Shop
  short_shop user_uuid item plan given sh =
      let back = (deposit_transfers plan.withdraw_plan item plan.stack_size sh.desk).1 in
      let (amount, d) = store_diamonds given back in credited user_uuid amount (with_desk d sh)

  unfoldable pub short_paid : String → ItemId → BuyPlan → ℤ → Shop → Answer
  unfolding deposit_transfers rollback_amount_to_storage update send_message_to_player
  short_paid user_uuid item plan given sh =
      send_message_to_player
        (advance (rolls_back "buy/insufficient-payment") (short_shop user_uuid item plan given sh))

  -- After the trade window.
  unfoldable pub settle_buy : String → String → ItemId → BuyPlan → ℤ → Shop → Answer
  unfolding commit_buy short_paid lookup rollback_amount_to_storage
  settle_buy player_name user_uuid item plan given sh =
      let balance = balance_of (lookup user_uuid sh.users) in
      let (stored, d) = store_diamonds given sh.desk in
      if f.lt (f.add (f.of_i32 given) balance) plan.total_cost
      then short_paid user_uuid item plan given sh
      else commit_buy player_name user_uuid item plan given stored (with_desk d sh)

  abbrev pub restored : ItemId → BuyPlan → Shop → Shop
  restored item plan sh =
      with_desk (deposit_transfers plan.withdraw_plan item plan.stack_size sh.desk).1 sh

  unfoldable pub trade_failed : ItemId → BuyPlan → Shop → Answer
  unfolding deposit_transfers send_message_to_player
  trade_failed item plan sh =
      send_message_to_player (advance (rolls_back "buy/trade-failed") (restored item plan sh))

  unfoldable pub traded : String → String → ItemId → BuyPlan → Shop → TradeAnswer → Answer
  unfolding settle_buy trade_failed diamonds_in
  traded player_name user_uuid item plan sh (received items) =
      settle_buy player_name user_uuid item plan (diamonds_in items) sh
  traded player_name user_uuid item plan sh (rejected _) = trade_failed item plan sh
  traded player_name user_uuid item plan sh no_answer_in_time = trade_failed item plan sh
  traded player_name user_uuid item plan sh answer_dropped = trade_failed item plan sh
  traded player_name user_uuid item plan sh not_sent = trade_failed item plan sh

  abbrev pub request_buy : ItemId → BuyPlan → Shop → Shop
  request_buy item plan sh =
      request_trade (record { item = item; amount = plan.qty } ∷ [])
        (offer base_currency_item plan.diamonds_to_offer) false false sh

  -- The items are on the bot, and the player is told the terms.
  abbrev pub offered : String → String → ItemId → BuyPlan → Answer → Answer
  offered player_name user_uuid item plan (sh, err e) = (sh, err e)
  offered player_name user_uuid item plan (sh, ok _) =
      traded player_name user_uuid item plan (advance begins_trading (request_buy item plan sh))
        sh.trade_answer

  abbrev pub withdrawn :
      String → String → ItemId → BuyPlan → Shop → Desk × Result (Unit {0}) TransferError → Answer
  withdrawn player_name user_uuid item plan sh (d, err _) =
      send_message_to_player (advance (rolls_back "buy/chest-withdrawal-failed") (with_desk d sh))
  withdrawn player_name user_uuid item plan sh (d, ok _) =
      offered player_name user_uuid item plan (send_message_to_player (with_desk d sh))

  unfoldable pub carry_out : String → String → ItemId → Shop → Verdict BuyPlan → Answer
  unfolding execute_chest_transfers send_message_to_player traded
  carry_out player_name user_uuid item sh refused = send_message_to_player sh
  carry_out player_name user_uuid item sh too_large = (sh, err quantity_too_large)
  carry_out player_name user_uuid item sh (accepted plan) =
      let sh' : Shop = advance (begins_withdrawal plan.withdraw_plan) sh in
      withdrawn player_name user_uuid item plan sh'
        (execute_chest_transfers plan.withdraw_plan item plan.stack_size withdrawal sh'.desk)

  abbrev pub gated :
      String → String → ItemId → ℕ → Shop → Result (Unit {0}) (List (Issue F64)) → Answer
  gated player_name user_uuid item quantity sh (err issues) = (sh, err (invariant_violation issues))
  gated player_name user_uuid item quantity sh (ok _) =
      let sh' : Shop = ensure_user_exists player_name user_uuid sh in
      carry_out player_name user_uuid item sh' (judge_buy sh' user_uuid item quantity)

  unfoldable pub handle_buy_order : String → String → ItemId → ℕ → Shop → Answer
  unfolding assert_tradeable ensure_user_exists judge_buy carry_out
  handle_buy_order player_name user_uuid item quantity sh =
      gated player_name user_uuid item quantity sh (assert_tradeable item user_uuid (books sh))
