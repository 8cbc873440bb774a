-- ===== src/Deposits.antt =====
-- src/store/handlers/deposit.rs: `handle_deposit_balance_queued`, diamonds of a player that go into
-- the warehouse and onto the balance, over any `f64` operations. The texts for the player and the
-- final save of an inconsistent store are not modelled.
pub mod Credits
use cj_store.Prelude.{
  Bool, true, false, not, ◌||◌, Option, none, some, List, [], ◌∷◌, String, Result, ok, err,
  if◌then◌else◌,
}
use cj_store.Prelude.Int.{ℤ, pos, leb_ℤ, ltb_ℤ}
use cj_store.Float.{Float}
use cj_store.Types.{Node, base_currency_item}
use cj_store.Messages.{F64, TradeItem}
use cj_store.TradeState.{begins_withdrawal, begins_trading, commits, rolls_back}
use cj_store.Rollback.{Desk, RollbackResult}
use cj_store.Rollback.Planning.{rollback_amount_to_storage}
use cj_store.Ledger.{User, Issue, lookup, assert_invariants}
use cj_store.Shop.{
  Shop, Answer, Deal, TradeType, invariant_violation, unknown_user, trade_unanswered, TradeAnswer,
  received, rejected, no_answer_in_time, answer_dropped, not_sent, books, with_desk, mark_dirty,
  advance, mark_user, update, send_message_to_player, and_then, request_trade, diamonds_in,
  max_trade_diamonds, recorded, ensure_user_exists, audited,
}

module _ ⦃f : Float F64⦄ where
  -- How many diamonds the player is asked for, at most; `none` for an amount that is refused.
  unfoldable pub diamonds_to_trade : Option F64 → Option ℤ
  diamonds_to_trade none = some (pos max_trade_diamonds)
  diamonds_to_trade (some amount) =
      if not (f.is_finite amount) || f.le amount f.nought
      then none
      else if ltb_ℤ (pos max_trade_diamonds) (f.to_i32 (f.ceil amount))
      then none
      else some (f.to_i32 (f.ceil amount))

  abbrev pub is_flexible : Option F64 → Bool
  is_flexible none = true
  is_flexible (some _) = false

  abbrev pub request_diamonds : Option F64 → ℤ → Shop → Shop
  request_diamonds amount diamonds =
      request_trade []
        (record {
          item = base_currency_item;
          amount = if is_flexible amount then pos 1 else diamonds;
        }
          ∷ [])
        false (is_flexible amount)

  abbrev pub with_balance : String → String → ℤ → Shop → Shop
  with_balance player_name user_uuid credited sh = mark_user user_uuid (
      mark_dirty (record sh {
        users =
            update user_uuid
              (λ (u : User F64). record u {
                balance = f.add u.balance (f.of_i32 credited);
                username = player_name;
              })
              sh.users;
      }))

  abbrev pub deposit_deal : String → ℤ → Deal
  deposit_deal user_uuid credited = record {
    trade_type = TradeType.deposit_balance;
    item = base_currency_item;
    amount = credited;
    amount_currency = f.of_i32 credited;
    user_uuid = user_uuid;
  }

  abbrev pub committed_deposit : String → String → ℤ → Shop → Shop
  committed_deposit player_name user_uuid credited sh = audited (
      advance (commits base_currency_item credited (f.of_i32 credited)) (
        recorded (deposit_deal user_uuid credited)
          (with_balance player_name user_uuid credited sh)))

  unfoldable pub commit_deposit : String → String → ℤ → Shop → Answer
  unfolding lookup update send_message_to_player audited
  commit_deposit player_name user_uuid credited sh = elim (lookup user_uuid sh.users) [
    | none ↦ (sh, err (unknown_user user_uuid))
    | some _ ↦ send_message_to_player (committed_deposit player_name user_uuid credited sh)
  ]

  -- Only what has reached the warehouse is credited.
  abbrev pub stored_deposit : String → String → Shop → RollbackResult × Desk → Answer
  stored_deposit player_name user_uuid sh (r, d) =
      if leb_ℤ r.items_returned (pos 0)
      then send_message_to_player (with_desk d sh)
      else commit_deposit player_name user_uuid r.items_returned (with_desk d sh)

module _ ⦃f : Float F64⦄ (save : Node → Bool) where
  unfoldable pub given_diamonds : String → String → ℤ → Shop → Answer
  unfolding send_message_to_player rollback_amount_to_storage commit_deposit
  given_diamonds player_name user_uuid given sh =
      if leb_ℤ given (pos 0)
      then send_message_to_player (advance (rolls_back "deposit/zero-diamonds") sh)
      else stored_deposit player_name user_uuid sh
          (rollback_amount_to_storage save base_currency_item given (pos 64) sh.desk)

  abbrev pub deposit_unanswered : TradeAnswer → Shop → Answer
  deposit_unanswered x sh =
      (advance (rolls_back "deposit/trade-error") sh, err (trade_unanswered x))

  unfoldable pub deposit_answered : String → String → Shop → TradeAnswer → Answer
  unfolding given_diamonds diamonds_in send_message_to_player
  deposit_answered player_name user_uuid sh (received items) =
      given_diamonds player_name user_uuid (diamonds_in items) sh
  deposit_answered player_name user_uuid sh (rejected _) = send_message_to_player sh
  deposit_answered player_name user_uuid sh no_answer_in_time =
      deposit_unanswered no_answer_in_time sh
  deposit_answered player_name user_uuid sh answer_dropped = deposit_unanswered answer_dropped sh
  deposit_answered player_name user_uuid sh not_sent = deposit_unanswered not_sent sh

  abbrev pub deposit_window : String → String → Option F64 → ℤ → Shop → Answer
  deposit_window player_name user_uuid amount diamonds sh =
      deposit_answered player_name user_uuid
        (request_diamonds amount diamonds
          (advance begins_trading (advance (begins_withdrawal []) sh)))
        sh.trade_answer

  abbrev pub deposit_asked : String → String → Option F64 → Shop → Option ℤ → Answer
  deposit_asked player_name user_uuid amount sh none = send_message_to_player sh
  deposit_asked player_name user_uuid amount sh (some diamonds) =
      and_then (send_message_to_player (ensure_user_exists player_name user_uuid sh))
        (deposit_window player_name user_uuid amount diamonds)

  abbrev pub gated_deposit :
      String → String → Option F64 → Shop → Result (Unit {0}) (List (Issue F64)) → Answer
  gated_deposit player_name user_uuid amount sh (err issues) =
      (sh, err (invariant_violation issues))
  gated_deposit player_name user_uuid amount sh (ok _) =
      deposit_asked player_name user_uuid amount sh (diamonds_to_trade amount)

  unfoldable pub handle_deposit_balance_queued : String → String → Option F64 → Shop → Answer
  unfolding assert_invariants diamonds_to_trade deposit_answered send_message_to_player
      ensure_user_exists
  handle_deposit_balance_queued player_name user_uuid amount sh =
      gated_deposit player_name user_uuid amount sh (assert_invariants false (books sh)).0
