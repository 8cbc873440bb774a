-- ===== src/Tests/Purchases.antt =====
-- Runs of prices, audits and a purchase.
use cj_store.Prelude.{ℕ, ◌≡◌, ◌↔◌, true, false, some, [], ◌∷◌, All, ok}
use cj_store.Prelude.Int.{pos, leb_ℤ}
use cj_store.Types.{Node}
use cj_store.TradeState.{queued}
use cj_store.Prices.{buy_cost_pure, sell_payout_pure}
use cj_store.Prices.Quotes.{IsFee, HasReserves, IsPrice, quotes}
use cj_store.Ledger.{lookup, capacity_of, assert_tradeable, audit_state}
use cj_store.Ledger.Gate.{UserFine, PairFine, ItemChestFine, assert_tradeable-ok}
use cj_store.Ledger.Repair.{Repairs, audit_state-Repairs}
use cj_store.Ledger.Trim.{Records, Trims, trim_in_memory_to_caps, trim_in_memory_to_caps-Trims}
use cj_store.Buy.{handle_buy_order}
use cj_store.Course.{CourseFrom}
use cj_store.Buy.Course.{Unchanged, handle_buy_order-Course}
use cj_store.Tests.Fixtures.{alex_order, warehouse}
use cj_store.Tests.Shops.{whole_diamonds, alex_books, shop, saves_all}

-- Ten of a hundred items for 1000 diamonds in reserve.
quotes_example :
    ((buy_cost_pure {W = ℕ} (pos 100) 1000 (pos 10) 0 ≡ some 111) ↔ (
      IsFee {W = ℕ} 0
      × HasReserves {W = ℕ} (pos 100) 1000
      × (leb_ℤ (pos 10) (pos 0) ≡ false)
      × (leb_ℤ (pos 100) (pos 10) ≡ false)
      × IsPrice {W = ℕ}
          (whole_diamonds.mul
            (whole_diamonds.div (whole_diamonds.mul 1000 (whole_diamonds.of_i32 (pos 10))) (
              whole_diamonds.sub
                (whole_diamonds.of_i32 (pos 100))
                (whole_diamonds.of_i32 (pos 10))))
            (whole_diamonds.add whole_diamonds.one 0))
          111))
    × ((sell_payout_pure {W = ℕ} (pos 100) 1000 (pos 10) 0 ≡ some 111) ↔ (
        IsFee {W = ℕ} 0
        × HasReserves {W = ℕ} (pos 100) 1000
        × (leb_ℤ (pos 10) (pos 0) ≡ false)
        × IsPrice {W = ℕ}
            (whole_diamonds.mul
              (whole_diamonds.div (whole_diamonds.mul 1000 (whole_diamonds.of_i32 (pos 10))) (
                whole_diamonds.add
                  (whole_diamonds.of_i32 (pos 100))
                  (whole_diamonds.of_i32 (pos 10))))
              (whole_diamonds.sub whole_diamonds.one 0))
            111))
quotes_example = quotes (pos 100) 1000 (pos 10) 0 111

audit_state-Repairs_example : Repairs alex_books (audit_state true alex_books)
audit_state-Repairs_example = audit_state-Repairs alex_books

assert_tradeable-ok_example : (assert_tradeable "dirt" "alex-uuid" alex_books ≡ ok tt) ↔ (
    UserFine (lookup "alex-uuid" alex_books.users)
    × PairFine warehouse (lookup "dirt" alex_books.pairs)
    × All
        (λ (n : Node).
          All (ItemChestFine "dirt" (capacity_of (lookup "dirt" alex_books.pairs))) n.chests)
        warehouse.nodes)
assert_tradeable-ok_example = assert_tradeable-ok "dirt" "alex-uuid" alex_books

handle_buy_order-Course_example :
    CourseFrom Unchanged
      (queued alex_order)
      shop
      (handle_buy_order saves_all "Alex" "alex-uuid" "dirt" 3 shop)
handle_buy_order-Course_example =
    handle_buy_order-Course saves_all alex_order "Alex" "alex-uuid" "dirt" 3 shop

abbrev crowded : Records ℕ ℕ
crowded = record { orders = 1 ∷ 2 ∷ 3 ∷ []; trades = 4 ∷ 5 ∷ 6 ∷ 7 ∷ []; saved_trades_count = 3 }

-- Two orders stay of three, and two trades of four, of which the last is still to be written.
trim_in_memory_to_caps-Trims_example : Trims 2 2 crowded (trim_in_memory_to_caps 2 2 crowded)
trim_in_memory_to_caps-Trims_example = trim_in_memory_to_caps-Trims 2 2 crowded
