-- ===== src/Buy/Course.antt =====
-- The course of a purchase: which transitions of the trade it calls, and how it ends.
use cj_store.Prelude.{
  ℕ, ◌≡◌, refl, inl, inr, Bool, List, String, Result, ok, err, if_split, Option-cases,
}
use cj_store.Prelude.Int.{ℤ, pos, ltb_ℤ}
use cj_store.Float.{Float}
use cj_store.Types.{ItemId, ChestTransfer, Node}
use cj_store.Messages.{F64}
use cj_store.Queue.{QueuedOrder}
use cj_store.TradeState.{
  queued, withdrawing, trading, begins_withdrawal, begins_trading, commits, apply, phase,
}
use cj_store.Rollback.{Desk, deposit_transfers}
use cj_store.Transfers.{TransferError, withdrawal, execute_chest_transfers}
use cj_store.Ledger.{Issue, lookup, assert_tradeable}
use cj_store.Shop.{
  Shop, diamonds_in, Answer, Verdict, refused, too_large, accepted, quantity_too_large,
  invariant_violation, unknown_user, unknown_pair, TradeAnswer, received, rejected,
  no_answer_in_time, answer_dropped, not_sent, books, with_desk, mark_dirty, advance,
  send_message_to_player, ensure_user_exists,
}
use cj_store.Course.{
  Keep, CourseFrom, Same, whisper-Same, then_course, unchanged_course, stays, rolled_course,
  committed_course, ensure_user_exists-Same,
}
use cj_store.Buy.{
  request_buy, BuyPlan, commit_buy, credited, short_paid, settle_buy, trade_failed, traded, offered,
  withdrawn, carry_out, gated, judge_buy, handle_buy_order, store_diamonds, balance_of, restored,
  short_shop, committed_shop, settled,
}

-- The pairs are as they were.
abbrev pub Unchanged : Keep
Unchanged v before after = after ≡ before

module _ ⦃f : Float F64⦄ (save : Node → Bool) (o : QueuedOrder) where
  trade_failed-Course :
      (item : ItemId) (plan : BuyPlan) (p : List ChestTransfer) (sh : Shop)
      → CourseFrom Unchanged (trading o p) sh (trade_failed save item plan sh)
  unfolding trade_failed apply
  trade_failed-Course item plan p sh =
      rolled_course Unchanged o (trading o p) "buy/trade-failed" sh (restored save item plan sh)
        refl refl (refl, refl)

  credited-Same :
      (user_uuid : String) (amount : ℤ) (sh : Shop) → Same sh (credited save user_uuid amount sh)
  credited-Same user_uuid amount sh =
      if_split (Same sh) (ltb_ℤ (pos 0) amount) (λ _. (refl, refl)) (λ _. (refl, refl))

  short_paid-Course :
      (user_uuid : String) (item : ItemId) (plan : BuyPlan) (given : ℤ) (p : List ChestTransfer)
      (sh : Shop)
      → CourseFrom Unchanged (trading o p) sh (short_paid save user_uuid item plan given sh)
  unfolding short_paid apply
  short_paid-Course user_uuid item plan given p sh =
      let back = (deposit_transfers plan.withdraw_plan item plan.stack_size sh.desk).1 in
      let (amount, d) = store_diamonds save given back in
      rolled_course Unchanged o (trading o p) "buy/insufficient-payment" sh
        (short_shop save user_uuid item plan given sh) refl refl
        (credited-Same user_uuid amount (with_desk d sh))

  commit_buy-Course :
      (player_name user_uuid : String) (item : ItemId) (plan : BuyPlan) (given stored : ℤ)
      (p : List ChestTransfer) (sh : Shop)
      → CourseFrom Unchanged
          (trading o p)
          sh
          (commit_buy save player_name user_uuid item plan given stored sh)
  unfolding commit_buy apply phase
  commit_buy-Course player_name user_uuid item plan given stored p sh =
      elim (Option-cases (lookup user_uuid sh.users)) [
        | inl missing ↦
            rw (missing, commit_buy)
              (stays Unchanged (trading o p) sh (sh, err (unknown_user user_uuid)) refl (refl, refl)
                (inr (inr (unknown_user user_uuid, refl))))
        | inr (u, there) ↦ elim (Option-cases (lookup item sh.pairs)) [
          | inl missing ↦
              rw (there, missing, commit_buy)
                (stays Unchanged (trading o p) sh
                  (
                    mark_dirty (settled save player_name user_uuid plan given stored sh),
                    err (unknown_pair item),
                  )
                  refl (refl, refl) (inr (inr (unknown_pair item, refl))))
          | inr (q, found) ↦
              rw (there, found, commit_buy)
                (committed_course Unchanged (commits item plan.qty plan.total_cost) (trading o p)
                  (record {
                    order = o;
                    item = item;
                    quantity = plan.qty;
                    currency_amount = plan.total_cost;
                  })
                  sh (committed_shop save player_name user_uuid item plan given stored sh) refl
                  refl)
        ]
      ]

  settle_buy-Course :
      (player_name user_uuid : String) (item : ItemId) (plan : BuyPlan) (given : ℤ)
      (p : List ChestTransfer) (sh : Shop)
      → CourseFrom Unchanged
          (trading o p)
          sh
          (settle_buy save player_name user_uuid item plan given sh)
  unfolding settle_buy
  settle_buy-Course player_name user_uuid item plan given p sh =
      let balance = balance_of save (lookup user_uuid sh.users) in
      let (stored, d) = store_diamonds save given sh.desk in
      if_split (CourseFrom Unchanged (trading o p) sh)
        (f.lt (f.add (f.of_i32 given) balance) plan.total_cost)
        {x = short_paid save user_uuid item plan given sh}
        {y = commit_buy save player_name user_uuid item plan given stored (with_desk d sh)}
        (λ _. short_paid-Course user_uuid item plan given p sh)
        (λ _.
          unchanged_course Unchanged (trading o p) sh (with_desk d sh)
            (commit_buy save player_name user_uuid item plan given stored (with_desk d sh))
            (refl, refl)
            (commit_buy-Course player_name user_uuid item plan given stored p (with_desk d sh)))

  traded-Course :
      (player_name user_uuid : String) (item : ItemId) (plan : BuyPlan) (p : List ChestTransfer)
      (sh : Shop) (x : TradeAnswer)
      → CourseFrom Unchanged (trading o p) sh (traded save player_name user_uuid item plan sh x)
  unfolding traded
  traded-Course player_name user_uuid item plan p sh (received items) =
      settle_buy-Course player_name user_uuid item plan (diamonds_in items) p sh
  traded-Course player_name user_uuid item plan p sh (rejected _) =
      trade_failed-Course item plan p sh
  traded-Course player_name user_uuid item plan p sh no_answer_in_time =
      trade_failed-Course item plan p sh
  traded-Course player_name user_uuid item plan p sh answer_dropped =
      trade_failed-Course item plan p sh
  traded-Course player_name user_uuid item plan p sh not_sent = trade_failed-Course item plan p sh

  offered-Course :
      (player_name user_uuid : String) (item : ItemId) (plan : BuyPlan) (p : List ChestTransfer)
      (sh : Shop) (x : Answer)
      → Same sh x.0
      → CourseFrom Unchanged (withdrawing o p) sh (offered save player_name user_uuid item plan x)
  unfolding apply
  offered-Course player_name user_uuid item plan p sh (sh', err e) same =
      stays Unchanged (withdrawing o p) sh (sh', err e) refl same (inr (inr (e, refl)))
  offered-Course player_name user_uuid item plan p sh (sh', ok _) same =
      let asked : Shop = request_buy save item plan sh' in
      then_course Unchanged begins_trading (withdrawing o p) (trading o p) sh asked
        (traded save player_name user_uuid item plan (advance begins_trading asked)
          sh'.trade_answer)
        refl same
        (traded-Course player_name user_uuid item plan p (advance begins_trading asked)
          sh'.trade_answer)

  withdrawn-Course :
      (player_name user_uuid : String) (item : ItemId) (plan : BuyPlan) (p : List ChestTransfer)
      (sh : Shop) (x : Desk × Result (Unit {0}) TransferError)
      → CourseFrom Unchanged
          (withdrawing o p)
          sh
          (withdrawn save player_name user_uuid item plan sh x)
  unfolding apply
  withdrawn-Course player_name user_uuid item plan p sh (d, err _) =
      rolled_course Unchanged o (withdrawing o p) "buy/chest-withdrawal-failed" sh (with_desk d sh)
        refl refl (refl, refl)
  withdrawn-Course player_name user_uuid item plan p sh (d, ok _) =
      offered-Course player_name user_uuid item plan p sh (send_message_to_player (with_desk d sh))
        (whisper-Same (with_desk d sh))

  carry_out-Course :
      (player_name user_uuid : String) (item : ItemId) (sh : Shop) (x : Verdict BuyPlan)
      → CourseFrom Unchanged (queued o) sh (carry_out save player_name user_uuid item sh x)
  unfolding carry_out apply phase
  carry_out-Course player_name user_uuid item sh refused =
      stays Unchanged (queued o) sh (send_message_to_player sh) refl (whisper-Same sh)
        (inr (inl refl))
  carry_out-Course player_name user_uuid item sh too_large =
      stays Unchanged (queued o) sh (sh, err quantity_too_large) refl (refl, refl) (inr (inl refl))
  carry_out-Course player_name user_uuid item sh (accepted plan) =
      let sh' : Shop = advance (begins_withdrawal plan.withdraw_plan) sh in
      let x = execute_chest_transfers plan.withdraw_plan item plan.stack_size withdrawal sh'.desk in
      then_course Unchanged (begins_withdrawal plan.withdraw_plan) (queued o)
        (withdrawing o plan.withdraw_plan) sh sh
        (withdrawn save player_name user_uuid item plan sh' x) refl (refl, refl)
        (withdrawn-Course player_name user_uuid item plan plan.withdraw_plan sh' x)

-- A purchase calls a chain of transitions of its order's trade, each of which is accepted, and it
-- ends in one of these ways: the trade is committed; or the pairs are as they were, and the trade is
-- rolled back, or was never begun, or the caller gets an error. So a purchase that returns without
-- an error and was begun has its trade in a terminal state.
pub handle_buy_order-Course :
    ⦃f : Float F64⦄ (save : Node → Bool) (o : QueuedOrder) (player_name user_uuid : String)
    (item : ItemId) (quantity : ℕ) (sh : Shop)
    → CourseFrom Unchanged
        (queued o)
        sh
        (handle_buy_order save player_name user_uuid item quantity sh)
unfolding handle_buy_order phase
handle_buy_order-Course save o player_name user_uuid item quantity sh =
    go (assert_tradeable item user_uuid (books sh))
  where
    go :
        (x : Result (Unit {0}) (List (Issue F64)))
        → CourseFrom Unchanged (queued o) sh (gated save player_name user_uuid item quantity sh x)
    go (err issues) =
        stays Unchanged (queued o) sh (sh, err (invariant_violation issues)) refl (refl, refl)
          (inr (inl refl))
    go (ok _) =
        let sh' : Shop = ensure_user_exists player_name user_uuid sh in
        let x = judge_buy save sh' user_uuid item quantity in
        unchanged_course Unchanged (queued o) sh sh'
          (carry_out save player_name user_uuid item sh' x)
          (ensure_user_exists-Same player_name user_uuid sh)
          (carry_out-Course save o player_name user_uuid item sh' x)
