-- ===== src/Withdrawals.antt =====
-- src/store/handlers/withdraw.rs: `handle_withdraw_balance_queued`, diamonds that a player takes out
-- of the balance, over any `f64` operations; two finite numbers are equal where neither is less. The
-- texts for the player and the final save of an inconsistent store are not modelled.
pub mod Debits
use cj_store.Prelude.{
  Bool, true, false, not, ◌&&◌, ◌||◌, Option, none, some, List, [], ◌∷◌, String, Result, ok, err,
  if◌then◌else◌,
}
use cj_store.Prelude.Int.{ℤ, pos, leb_ℤ, ltb_ℤ}
use cj_store.Float.{Float}
use cj_store.Types.{Node, base_currency_item}
use cj_store.Messages.{F64, TradeItem}
use cj_store.Storage.{simulate_withdraw_plan}
use cj_store.TradeState.{begins_withdrawal, begins_trading, commits, rolls_back}
use cj_store.Rollback.{Desk}
use cj_store.Rollback.Planning.{rollback_amount_to_storage}
use cj_store.Transfers.{withdrawal, TransferError, execute_chest_transfers}
use cj_store.Ledger.{User, Issue, lookup, assert_invariants}
use cj_store.Shop.{
  Shop, Answer, Deal, TradeType, OrderError, invariant_violation, unknown_user, trade_unanswered,
  chest_transfer_failed, TradeAnswer, received, rejected, no_answer_in_time, answer_dropped,
  not_sent, books, with_desk, mark_dirty, advance, mark_user, update, send_message_to_player,
  and_then, request_trade, max_trade_diamonds, recorded_as, ensure_user_exists, audited,
}

-- What is to be withdrawn: a refusal, or an amount, with a word on what it leaves out or without one.
pub data Wanted : Type 0 where
  refused : Wanted
  silently with_notice : F64 → Wanted

abbrev pub request_withdrawal : ℤ → Shop → Shop
request_withdrawal whole =
    request_trade (record { item = base_currency_item; amount = whole } ∷ []) [] false false

module _ ⦃f : Float F64⦄ where
  -- An amount is cut down to whole diamonds; without one it is the balance, up to the cap.
  unfoldable pub wanted : F64 → Option F64 → Wanted
  wanted balance (some amount) =
      if not (f.is_finite amount) || f.le amount f.nought
      then refused
      else if f.lt (f.floor amount) f.one
      then refused
      else if not (f.le (f.floor amount) amount && f.le amount (f.floor amount))
      then with_notice (f.floor amount)
      else silently (f.floor amount)
  wanted balance none =
      let cap = f.of_i32 (pos max_trade_diamonds) in
      let amount = f.lesser (f.floor balance) cap in
      if f.le (f.floor balance) f.nought
      then refused
      else if f.lt cap (f.floor balance)
      then with_notice amount
      else silently amount

  abbrev pub debited_user : String → String → F64 → Shop → Shop
  debited_user player_name user_uuid amount sh = mark_user user_uuid (
      mark_dirty (record sh {
        users =
            update user_uuid
              (λ (u : User F64). record u {
                balance = f.sub u.balance amount;
                username = player_name;
              })
              sh.users;
      }))

  abbrev pub withdraw_deal : String → ℤ → F64 → Deal
  withdraw_deal user_uuid whole currency = record {
    trade_type = TradeType.withdraw_balance;
    item = base_currency_item;
    amount = whole;
    amount_currency = currency;
    user_uuid = user_uuid;
  }

  abbrev pub committed_withdrawal : String → String → F64 → ℤ → Shop → Shop
  committed_withdrawal player_name user_uuid amount whole sh = audited (
      advance (commits base_currency_item whole amount) (
        recorded_as (withdraw_deal user_uuid whole amount)
          (withdraw_deal user_uuid whole (f.of_i32 whole))
          (debited_user player_name user_uuid amount sh)))

  -- The balance is read again for the message.
  abbrev pub balance_told : String → Shop → Option (User F64) → Answer
  balance_told user_uuid sh none = (sh, err (unknown_user user_uuid))
  balance_told user_uuid sh (some _) = send_message_to_player sh

  unfoldable pub commit_withdrawal : String → String → F64 → ℤ → Shop → Answer
  unfolding lookup update send_message_to_player audited
  commit_withdrawal player_name user_uuid amount whole sh = elim (lookup user_uuid sh.users) [
    | none ↦ (sh, err (unknown_user user_uuid))
    | some _ ↦
        (let sh' : Shop = committed_withdrawal player_name user_uuid amount whole sh in
          balance_told user_uuid sh' (lookup user_uuid sh'.users))
  ]

module _ ⦃f : Float F64⦄ (save : Node → Bool) where
  -- The diamonds did not reach the player: they go back into the warehouse.
  abbrev pub taken_back : String → ℤ → Shop → Shop
  taken_back reason whole sh =
      let (_, d) = rollback_amount_to_storage save base_currency_item whole (pos 64) sh.desk in
      advance (rolls_back reason) (with_desk d sh)

  unfoldable pub withdrawal_answered : String → String → F64 → ℤ → Shop → TradeAnswer → Answer
  unfolding commit_withdrawal rollback_amount_to_storage send_message_to_player
  withdrawal_answered player_name user_uuid amount whole sh (received _) =
      commit_withdrawal player_name user_uuid amount whole sh
  withdrawal_answered player_name user_uuid amount whole sh (rejected _) =
      send_message_to_player (taken_back "withdraw/trade-rejected" whole sh)
  withdrawal_answered player_name user_uuid amount whole sh no_answer_in_time =
      send_message_to_player (taken_back "withdraw/trade-timeout" whole sh)
  withdrawal_answered player_name user_uuid amount whole sh answer_dropped =
      send_message_to_player (taken_back "withdraw/channel-dropped" whole sh)
  withdrawal_answered player_name user_uuid amount whole sh not_sent =
      (taken_back "withdraw/trade-send-failed" whole sh, err (trade_unanswered not_sent))

  abbrev pub diamonds_pulled :
      String → String → F64 → ℤ → Shop → Desk × Result (Unit {0}) TransferError → Answer
  diamonds_pulled player_name user_uuid amount whole sh (d, err e) =
      and_then
        (send_message_to_player
          (advance (rolls_back "withdraw/chest-pull-failed") (with_desk d sh)))
        (λ (sh' : Shop). (sh', err (chest_transfer_failed e)))
  diamonds_pulled player_name user_uuid amount whole sh (d, ok _) =
      withdrawal_answered player_name user_uuid amount whole
        (request_withdrawal whole (advance begins_trading (with_desk d sh))) sh.trade_answer

  -- The player is told, and the diamonds come out of the warehouse.
  unfoldable pub pull_diamonds : String → String → F64 → ℤ → Shop → Answer
  unfolding simulate_withdraw_plan execute_chest_transfers send_message_to_player
      withdrawal_answered
  pull_diamonds player_name user_uuid amount whole sh =
      let sh' : Shop = advance (begins_withdrawal []) sh in
      let (plan, planned) = simulate_withdraw_plan base_currency_item whole sh.desk.depot.storage in
      if ltb_ℤ planned whole
      then send_message_to_player
          (advance (rolls_back "withdraw/insufficient-physical-diamonds") sh')
      else diamonds_pulled player_name user_uuid amount whole sh'
          (execute_chest_transfers plan base_currency_item (pos 64) withdrawal sh'.desk)

  -- The checks on the amount.
  unfoldable pub check_amount : String → String → F64 → F64 → Shop → Answer
  unfolding send_message_to_player pull_diamonds
  check_amount player_name user_uuid balance amount sh =
      let whole = f.to_i32 (f.floor amount) in
      if f.lt balance amount || ltb_ℤ (pos max_trade_diamonds) whole || leb_ℤ whole (pos 0)
      then send_message_to_player sh
      else and_then (send_message_to_player sh) (pull_diamonds player_name user_uuid amount whole)

  abbrev pub noticed : String → String → F64 → Shop → Wanted → Answer
  noticed player_name user_uuid balance sh refused = send_message_to_player sh
  noticed player_name user_uuid balance sh (silently amount) =
      check_amount player_name user_uuid balance amount sh
  noticed player_name user_uuid balance sh (with_notice amount) =
      and_then (send_message_to_player sh) (check_amount player_name user_uuid balance amount)

  unfoldable pub balance_checked : String → String → Option F64 → Shop → Option (User F64) → Answer
  unfolding send_message_to_player check_amount wanted
  balance_checked player_name user_uuid amount sh none = (sh, err (unknown_user user_uuid))
  balance_checked player_name user_uuid amount sh (some u) =
      noticed player_name user_uuid u.balance sh (wanted u.balance amount)

  abbrev pub gated_withdrawal :
      String → String → Option F64 → Shop → Result (Unit {0}) (List (Issue F64)) → Answer
  gated_withdrawal player_name user_uuid amount sh (err issues) =
      (sh, err (invariant_violation issues))
  gated_withdrawal player_name user_uuid amount sh (ok _) =
      let sh' : Shop = ensure_user_exists player_name user_uuid sh in
      balance_checked player_name user_uuid amount sh' (lookup user_uuid sh'.users)

  unfoldable pub handle_withdraw_balance_queued : String → String → Option F64 → Shop → Answer
  unfolding assert_invariants ensure_user_exists balance_checked lookup
  handle_withdraw_balance_queued player_name user_uuid amount sh =
      gated_withdrawal player_name user_uuid amount sh (assert_invariants false (books sh)).0
