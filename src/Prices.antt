-- ===== src/Prices.antt =====
-- src/store/pricing.rs: the prices of the constant-product market, over any `f64` operations.
pub mod Quotes
use cj_store.Prelude.{Bool, true, false, not, ◌&&◌, ◌||◌, Option, none, some, if◌then◌else◌}
use cj_store.Prelude.Int.{ℤ, pos, leb_ℤ, ltb_ℤ}
use cj_store.Float.{Float}

module _ {ℓ} {W : Type ℓ} ⦃f : Float W⦄ where
  unfoldable pub validate_fee : W → Bool
  validate_fee fee = f.le f.nought fee && f.le fee f.one && f.is_finite fee

  unfoldable pub reserves_sufficient : ℤ → W → Bool
  reserves_sufficient item_stock currency_stock =
      ltb_ℤ (pos 0) item_stock && f.lt f.thousandth currency_stock

  -- The formulas, and the last test of both.
  abbrev pub buy_cost : ℤ → W → ℤ → W → W
  buy_cost item_stock y amount fee =
      let x = f.of_i32 item_stock in
      let dx = f.of_i32 amount in f.mul (f.div (f.mul y dx) (f.sub x dx)) (f.add f.one fee)

  abbrev pub sell_payout : ℤ → W → ℤ → W → W
  sell_payout item_stock y amount fee =
      let x = f.of_i32 item_stock in
      let dx = f.of_i32 amount in f.mul (f.div (f.mul y dx) (f.add x dx)) (f.sub f.one fee)

  abbrev pub if_positive : W → Option W
  if_positive c = if f.is_finite c && f.lt f.nought c then some c else none

  unfoldable pub buy_cost_pure : ℤ → W → ℤ → W → Option W
  unfolding validate_fee reserves_sufficient
  buy_cost_pure item_stock currency_stock amount fee =
      if not (validate_fee fee)
      then none
      else if not (reserves_sufficient item_stock currency_stock)
      then none
      else if leb_ℤ amount (pos 0) || leb_ℤ item_stock amount
      then none
      else if_positive (buy_cost item_stock currency_stock amount fee)

  unfoldable pub sell_payout_pure : ℤ → W → ℤ → W → Option W
  unfolding validate_fee reserves_sufficient
  sell_payout_pure item_stock currency_stock amount fee =
      if not (validate_fee fee)
      then none
      else if not (reserves_sufficient item_stock currency_stock)
      then none
      else if leb_ℤ amount (pos 0)
      then none
      else if_positive (sell_payout item_stock currency_stock amount fee)

  unfoldable pub indicative_spot_buy_price : ℤ → W → W → Option W
  unfolding buy_cost_pure
  indicative_spot_buy_price item_stock currency_stock fee =
      buy_cost_pure item_stock currency_stock (pos 1) fee

  unfoldable pub indicative_spot_sell_price : ℤ → W → W → Option W
  unfolding sell_payout_pure
  indicative_spot_sell_price item_stock currency_stock fee =
      sell_payout_pure item_stock currency_stock (pos 1) fee
