-- ===== src/Tests/Counter.antt =====
-- Runs of a sale, a deposit and a withdrawal.
use cj_store.Prelude.{◌⊎◌, some, none, [], ◌∷◌, arith}
use cj_store.Prelude.Int.{pos, ◌+ℤ◌}
use cj_store.Shop.{Shop, received, ensure_user_exists, diamonds_in}
use cj_store.Deposits.{handle_deposit_balance_queued}
use cj_store.Deposits.Credits.{CreditEnd, handle_deposit_balance_queued-CreditEnd}
use cj_store.Withdrawals.{handle_withdraw_balance_queued}
use cj_store.Withdrawals.Debits.{DebitEnd, handle_withdraw_balance_queued-DebitEnd}
use cj_store.Tests.Shops.{whole_diamonds, shop, saves_all}

abbrev giving_shop : Shop
giving_shop = record shop {
  trade_answer = received (record { item = "diamond"; amount = pos 5 } ∷ []);
}

handle_deposit_balance_queued-CreditEnd_example :
    CreditEnd saves_all "Alex" "alex-uuid" giving_shop
      (handle_deposit_balance_queued saves_all "Alex" "alex-uuid" (some 5) giving_shop).0
    ⊎ CreditEnd saves_all "Alex" "alex-uuid"
        (ensure_user_exists "Alex" "alex-uuid" giving_shop)
        (handle_deposit_balance_queued saves_all "Alex" "alex-uuid" (some 5) giving_shop).0
unfolding diamonds_in ◌+ℤ◌
handle_deposit_balance_queued-CreditEnd_example =
    handle_deposit_balance_queued-CreditEnd saves_all "Alex" "alex-uuid" (some 5) giving_shop
      (omega arith)

handle_withdraw_balance_queued-DebitEnd_example :
    DebitEnd "Alex" "alex-uuid" none shop
      (handle_withdraw_balance_queued saves_all "Alex" "alex-uuid" none shop).0
    ⊎ DebitEnd "Alex" "alex-uuid" none
        (ensure_user_exists "Alex" "alex-uuid" shop)
        (handle_withdraw_balance_queued saves_all "Alex" "alex-uuid" none shop).0
handle_withdraw_balance_queued-DebitEnd_example =
    handle_withdraw_balance_queued-DebitEnd saves_all "Alex" "alex-uuid" none shop
