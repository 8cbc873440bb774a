-- ===== src/Sell.antt =====
-- src/store/orders.rs: `handle_sell_order`, a sale from its validation to the ledger, with
-- `calculate_sell_payout` of src/store/pricing.rs, over any `f64` operations. Of a trade by
-- which items are handed back the outcome changes only the text for the player. The texts and the
-- final save of an inconsistent store are not modelled.
pub mod Course
use cj_store.Prelude.{
  ℕ, ◌^◌, ◌-◌, Bool, true, false, not, ◌||◌, Option, none, some, List, [], ◌∷◌, ◌++◌, String,
  Result, ok, err, if◌then◌else◌, str_eq, ltb,
}
use cj_store.Prelude.Int.{ℤ, pos, ◌*ℤ◌, leb_ℤ, ltb_ℤ, eq_ℤ}
use cj_store.Float.{Float}
use cj_store.Types.{ItemId, ChestTransfer, Node, base_currency_item}
use cj_store.Messages.{F64, TradeItem}
use cj_store.ItemNames.{strip_prefix, or_else}
use cj_store.Storage.{total_item_amount, simulate_withdraw_plan}
use cj_store.Storage.Foresee.{simulate_deposit_plan}
use cj_store.TradeState.{begins_withdrawal, begins_trading, begins_depositing, commits, rolls_back}
use cj_store.Prices.{sell_payout_pure}
use cj_store.Rollback.{Desk}
use cj_store.Rollback.Planning.{rollback_amount_to_storage}
use cj_store.Transfers.{withdrawal, depositing, TransferError, execute_chest_transfers}
use cj_store.Ledger.{User, Pair, Issue, lookup, assert_tradeable}
use cj_store.Shop.{
  Shop, Answer, Verdict, refused, too_large, accepted, Deal, TradeType, invariant_violation,
  quantity_too_large, unknown_pair, unknown_user, TradeAnswer, received, rejected,
  no_answer_in_time, answer_dropped, not_sent, trade_offer_slots_per_side, books, with_desk,
  mark_dirty, advance, request_trade, offer, mark_user, update, send_message_to_player, and_then,
  amount_in, recorded, ensure_user_exists, audited,
}

pub record SellPlan : Type 0 where
  pub qty : ℤ
  pub total_payout : F64
  pub whole_diamonds : ℤ
  pub fractional_diamonds : F64
  pub deposit_plan : List ChestTransfer
  pub stack_size : ℤ

-- `Bot::normalize_item_id`
unfoldable pub normalize_item_id : String → String
unfolding strip_prefix
normalize_item_id item = or_else (strip_prefix "minecraft:" item) item

unfoldable pub items_in : ItemId → List TradeItem → ℤ
unfolding amount_in normalize_item_id
items_in item = amount_in (λ i. str_eq (normalize_item_id i) (normalize_item_id item))

abbrev pub hand_back : ItemId → ℤ → Shop → Shop
hand_back item amount = request_trade (record { item = item; amount = amount } ∷ []) [] false false

abbrev pub request_sell : ItemId → SellPlan → Shop → Shop
request_sell item plan =
    request_trade (offer base_currency_item plan.whole_diamonds)
      (record { item = item; amount = plan.qty } ∷ []) true false

module _ ⦃f : Float F64⦄ where
  unfoldable pub split_sell_payout : F64 → Option (ℤ × F64)
  split_sell_payout total_payout =
      let whole = f.to_i32 (f.floor total_payout) in
      if f.lt f.i32_limit (f.floor total_payout)
      then none
      else some (whole, f.sub total_payout (f.of_i32 whole))

  abbrev pub sell_plan : ℤ → F64 → List ChestTransfer → ℤ → ℤ × F64 → SellPlan
  sell_plan qty total_payout plan stack_size (whole, fractional) = record {
    qty = qty;
    total_payout = total_payout;
    whole_diamonds = whole;
    fractional_diamonds = fractional;
    deposit_plan = plan;
    stack_size = stack_size;
  }

  -- The checks on a payout and a pair that are there, up to the plan.
  unfoldable pub plan_sell : Shop → ItemId → ℤ → Pair F64 → F64 → Verdict SellPlan
  unfolding simulate_deposit_plan split_sell_payout
  plan_sell sh item qty p total_payout =
      let (plan, planned) = simulate_deposit_plan item qty p.stack_size sh.desk.depot.storage in
      if not (f.is_finite total_payout)
        || f.le total_payout f.nought
        || f.lt p.currency_stock total_payout
        || ltb_ℤ (pos trade_offer_slots_per_side *ℤ p.stack_size) qty
        || ltb_ℤ planned qty
      then refused
      else elim (split_sell_payout total_payout) [
        | none ↦ refused
        | some parts ↦ accepted (sell_plan qty total_payout plan p.stack_size parts)
      ]

  unfoldable pub judge_sell : Shop → ItemId → ℕ → Verdict SellPlan
  unfolding lookup sell_payout_pure plan_sell
  judge_sell sh item quantity = elim (lookup item sh.pairs) [
    | none ↦ refused
    | some p ↦
        (if ltb (2 ^ 31 - 1) quantity
          then too_large
          else if leb_ℤ (pos quantity) (pos 0)
          then refused
          else elim (sell_payout_pure p.item_stock p.currency_stock (pos quantity) sh.fee) [
            | none ↦ refused
            | some total_payout ↦ plan_sell sh item (pos quantity) p total_payout
          ])
  ]

  -- The payout is debited from the pair's reserve.
  abbrev pub debited : ItemId → F64 → Shop → Shop
  debited item total_payout sh = record sh {
    pairs =
        update item
          (λ (p : Pair F64). record p { currency_stock = f.sub p.currency_stock total_payout })
          sh.pairs;
  }

  -- The part of the payout that is less than a diamond goes to the balance.
  abbrev pub credited_part : String → F64 → Shop → Shop
  credited_part user_uuid fractional sh =
      if f.lt f.nought fractional
      then mark_user user_uuid (record sh {
        users =
            update user_uuid (λ (u : User F64). record u { balance = f.add u.balance fractional })
              sh.users;
      })
      else sh

  -- The diamonds are with the player, but the items could not be put away.
  abbrev pub deposit_failed_shop : String → ItemId → SellPlan → Shop → Shop
  deposit_failed_shop user_uuid item plan sh = mark_dirty (
      credited_part user_uuid plan.fractional_diamonds
        (debited item plan.total_payout (hand_back item plan.qty sh)))

  abbrev pub credited_seller : String → String → SellPlan → Shop → Shop
  credited_seller player_name user_uuid plan sh = mark_user user_uuid (
      mark_dirty (record sh {
        users =
            update user_uuid
              (λ (u : User F64). record u {
                balance = f.add u.balance plan.fractional_diamonds;
                username = player_name;
              })
              sh.users;
      }))

  abbrev pub booked_sale : String → ItemId → SellPlan → Shop → Shop
  booked_sale user_uuid item plan sh =
      let stock = total_item_amount item sh.desk.depot.storage in
      recorded
        (record {
          trade_type = TradeType.sell;
          item = item;
          amount = plan.qty;
          amount_currency = plan.total_payout;
          user_uuid = user_uuid;
        })
        (mark_dirty (record sh {
          pairs =
              update item
                (λ (p : Pair F64). record p {
                  item_stock = stock;
                  currency_stock = f.sub p.currency_stock plan.total_payout;
                })
                sh.pairs;
        }))

  abbrev pub committed_sale : String → String → ItemId → SellPlan → Shop → Shop
  committed_sale player_name user_uuid item plan sh = audited (
      advance (commits item plan.qty plan.total_payout)
        (booked_sale user_uuid item plan (credited_seller player_name user_uuid plan sh)))

  unfoldable pub commit_sell : String → String → ItemId → SellPlan → Shop → Answer
  unfolding lookup update total_item_amount send_message_to_player audited
  commit_sell player_name user_uuid item plan sh = elim (lookup user_uuid sh.users) [
    | none ↦ (sh, err (unknown_user user_uuid))
    | some _ ↦ elim (lookup item sh.pairs) [
      | none ↦ (credited_seller player_name user_uuid plan sh, err (unknown_pair item))
      | some _ ↦ send_message_to_player (committed_sale player_name user_uuid item plan sh)
    ]
  ]

  unfoldable pub deposited :
      String → String → ItemId → SellPlan → Shop → Desk × Result (Unit {0}) TransferError → Answer
  unfolding update send_message_to_player commit_sell
  deposited player_name user_uuid item plan sh (d, err _) = send_message_to_player (
      advance (rolls_back "sell/deposit-failed")
        (deposit_failed_shop user_uuid item plan (with_desk d sh)))
  deposited player_name user_uuid item plan sh (d, ok _) =
      commit_sell player_name user_uuid item plan (with_desk d sh)

module _ ⦃f : Float F64⦄ (save : Node → Bool) where
  -- The diamonds that were for the player go back.
  abbrev pub diamonds_back : SellPlan → Shop → Shop
  diamonds_back plan sh =
      let (_, d) =
        rollback_amount_to_storage save base_currency_item plan.whole_diamonds (pos 64) sh.desk in
      with_desk d sh

  abbrev pub mismatched : ItemId → SellPlan → ℤ → Shop → Shop
  mismatched item plan given sh =
      let sh' : Shop = diamonds_back plan sh in
      if ltb_ℤ (pos 0) given then hand_back item given sh' else sh'

  -- After the trade window.
  unfoldable pub settle_sell : String → String → ItemId → SellPlan → List TradeItem → Shop → Answer
  unfolding items_in rollback_amount_to_storage send_message_to_player execute_chest_transfers
      deposited
  settle_sell player_name user_uuid item plan items sh =
      let given = items_in item items in
      let sh' : Shop =
        advance (begins_depositing (record { items_received = items }) plan.deposit_plan) sh in
      if not (eq_ℤ given plan.qty)
      then send_message_to_player
          (advance (rolls_back "sell/item-count-mismatch") (mismatched item plan given sh))
      else deposited player_name user_uuid item plan sh'
          (execute_chest_transfers plan.deposit_plan item plan.stack_size depositing sh'.desk)

  unfoldable pub sale_failed : SellPlan → Shop → Answer
  unfolding rollback_amount_to_storage send_message_to_player
  sale_failed plan sh =
      send_message_to_player (advance (rolls_back "sell/trade-failed") (diamonds_back plan sh))

  unfoldable pub sold : String → String → ItemId → SellPlan → Shop → TradeAnswer → Answer
  unfolding settle_sell sale_failed
  sold player_name user_uuid item plan sh (received items) =
      settle_sell player_name user_uuid item plan items sh
  sold player_name user_uuid item plan sh (rejected _) = sale_failed plan sh
  sold player_name user_uuid item plan sh no_answer_in_time = sale_failed plan sh
  sold player_name user_uuid item plan sh answer_dropped = sale_failed plan sh
  sold player_name user_uuid item plan sh not_sent = sale_failed plan sh

  abbrev pub trading_sell : String → String → ItemId → SellPlan → Shop → Answer
  trading_sell player_name user_uuid item plan sh =
      sold player_name user_uuid item plan (advance begins_trading (request_sell item plan sh))
        sh.trade_answer

  abbrev pub with_diamonds :
      String → String → ItemId → SellPlan → Shop → Desk × Result (Unit {0}) TransferError → Answer
  with_diamonds player_name user_uuid item plan sh (d, err _) =
      send_message_to_player
        (advance (rolls_back "sell/diamond-withdrawal-failed") (with_desk d sh))
  with_diamonds player_name user_uuid item plan sh (d, ok _) =
      trading_sell player_name user_uuid item plan (with_desk d sh)

  -- The whole diamonds of the payout come out of the warehouse.
  unfoldable pub fetch_payout : String → String → ItemId → SellPlan → Shop → Answer
  unfolding simulate_withdraw_plan execute_chest_transfers send_message_to_player sold
  fetch_payout player_name user_uuid item plan sh =
      let (diamond_plan, planned) =
        simulate_withdraw_plan base_currency_item plan.whole_diamonds sh.desk.depot.storage in
      if not (ltb_ℤ (pos 0) plan.whole_diamonds)
      then trading_sell player_name user_uuid item plan sh
      else if ltb_ℤ planned plan.whole_diamonds
      then send_message_to_player (advance (rolls_back "sell/insufficient-physical-diamonds") sh)
      else with_diamonds player_name user_uuid item plan sh
          (execute_chest_transfers diamond_plan base_currency_item (pos 64) withdrawal sh.desk)

  unfoldable pub carry_out_sell : String → String → ItemId → Shop → Verdict SellPlan → Answer
  unfolding send_message_to_player fetch_payout
  carry_out_sell player_name user_uuid item sh refused = send_message_to_player sh
  carry_out_sell player_name user_uuid item sh too_large = (sh, err quantity_too_large)
  carry_out_sell player_name user_uuid item sh (accepted plan) =
      and_then (send_message_to_player (advance (begins_withdrawal []) sh))
        (fetch_payout player_name user_uuid item plan)

  abbrev pub gated_sell :
      String → String → ItemId → ℕ → Shop → Result (Unit {0}) (List (Issue F64)) → Answer
  gated_sell player_name user_uuid item quantity sh (err issues) =
      (sh, err (invariant_violation issues))
  gated_sell player_name user_uuid item quantity sh (ok _) =
      let sh' : Shop = ensure_user_exists player_name user_uuid sh in
      carry_out_sell player_name user_uuid item sh' (judge_sell sh' item quantity)

  unfoldable pub handle_sell_order : String → String → ItemId → ℕ → Shop → Answer
  unfolding assert_tradeable ensure_user_exists judge_sell carry_out_sell
  handle_sell_order player_name user_uuid item quantity sh =
      gated_sell player_name user_uuid item quantity sh (assert_tradeable item user_uuid (books sh))
