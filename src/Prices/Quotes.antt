-- ===== src/Prices/Quotes.antt =====
-- When a price is quoted, and which.
use cj_store.Prelude.{◌≡◌, ◌↔◌, refl, Bool, true, false, not, ◌&&◌, ◌||◌, none, some, if◌then◌else◌}
use cj_store.Prelude.Int.{ℤ, pos, leb_ℤ, ltb_ℤ}
use mathlib.Core.Option.{some-injective}
use cj_store.Float.{Float}
use cj_store.Prices.{
  validate_fee, reserves_sufficient, buy_cost, sell_payout, buy_cost_pure, sell_payout_pure,
}

-- A chain of tests gives `c` just when all of them are passed.
chain {ℓ} :
    {W : Type ℓ} (a b d e : Bool) (c p : W)
    → ((if not a
          then none
          else if not b
          then none
          else if d
          then none
          else if e
          then some c
          else none)
        ≡ some p)
      ↔ ((a ≡ true) × (b ≡ true) × (d ≡ false) × (e ≡ true) × (c ≡ p))
chain true true false true c p =
    (λ h. (refl, refl, refl, refl, some-injective _ _ h), λ (_, _, _, _, h). λ i. some (h i))
chain false b d e c p = (λ h. absurd (cc h), λ (h, _, _, _, _). absurd (cc h))
chain true false d e c p = (λ h. absurd (cc h), λ (_, h, _, _, _). absurd (cc h))
chain true true true e c p = (λ h. absurd (cc h), λ (_, _, h, _, _). absurd (cc h))
chain true true false false c p = (λ h. absurd (cc h), λ (_, _, _, h, _). absurd (cc h))

-- A conjunction of tests, taken apart and put together again.
both : (a b : Bool) → ((a && b) ≡ true) ↔ ((a ≡ true) × (b ≡ true))
both true b = (λ h. (refl, h), λ h. h.1)
both false b = (λ h. absurd (cc h), λ h. absurd (cc h.0))

three : (a b c : Bool) → ((a && b && c) ≡ true) ↔ ((a ≡ true) × (b ≡ true) × (c ≡ true))
three true b c =
    (λ h. let (x, y) = (both b c).0 h in (refl, x, y), λ (_, x, y). (both b c).1 (x, y))
three false b c = (λ h. absurd (cc h), λ h. absurd (cc h.0))

either : (a b : Bool) → ((a || b) ≡ false) ↔ ((a ≡ false) × (b ≡ false))
either true b = (λ h. absurd (cc h), λ h. absurd (cc h.0))
either false b = (λ h. (refl, h), λ h. h.1)

module _ {ℓ} {W : Type ℓ} ⦃f : Float W⦄ where
  -- A fee is a finite number from 0 to 1.
  abbrev pub IsFee : W → Type 0
  IsFee fee = (f.le f.nought fee ≡ true) × (f.le fee f.one ≡ true) × (f.is_finite fee ≡ true)

  -- There is an item at least, and more of the currency than a thousandth.
  abbrev pub HasReserves : ℤ → W → Type 0
  HasReserves x y = (ltb_ℤ (pos 0) x ≡ true) × (f.lt f.thousandth y ≡ true)

  abbrev pub IsPrice : W → W → Type ℓ
  IsPrice formula price =
      (f.is_finite formula ≡ true) × (f.lt f.nought formula ≡ true) × (formula ≡ price)

  IsFee-validate_fee : (fee : W) → (validate_fee fee ≡ true) ↔ IsFee fee
  unfolding validate_fee
  IsFee-validate_fee fee = three (f.le f.nought fee) (f.le fee f.one) (f.is_finite fee)

  has_reserves : (x : ℤ) (y : W) → (reserves_sufficient x y ≡ true) ↔ HasReserves x y
  unfolding reserves_sufficient
  has_reserves x y = both (ltb_ℤ (pos 0) x) (f.lt f.thousandth y)

  -- With `x` items and `y` of the currency in the reserve, a purchase of `n` items has the price
  -- y n / (x - n) (1 + fee) and their sale the price y n / (x + n) (1 - fee), in this order of the
  -- operations, just under these conditions: the fee is a finite number from 0 to 1, x is positive
  -- and y above 0.001, n is positive, for a purchase n is below x, and the price is finite and
  -- positive.
  pub quotes :
      (x : ℤ) (y : W) (n : ℤ) (fee price : W)
      → ((buy_cost_pure x y n fee ≡ some price) ↔ (
          IsFee fee
          × HasReserves x y
          × (leb_ℤ n (pos 0) ≡ false)
          × (leb_ℤ x n ≡ false)
          × IsPrice
              (f.mul
                (f.div (f.mul y (f.of_i32 n)) (f.sub (f.of_i32 x) (f.of_i32 n)))
                (f.add f.one fee))
              price))
        × ((sell_payout_pure x y n fee ≡ some price) ↔ (
            IsFee fee
            × HasReserves x y
            × (leb_ℤ n (pos 0) ≡ false)
            × IsPrice
                (f.mul
                  (f.div (f.mul y (f.of_i32 n)) (f.add (f.of_i32 x) (f.of_i32 n)))
                  (f.sub f.one fee))
                price))
  unfolding buy_cost_pure sell_payout_pure
  quotes x y n fee price =
      let cost = buy_cost x y n fee in
      let payout = sell_payout x y n fee in
      let b = chain (validate_fee fee) (reserves_sufficient x y) _ _ cost price in
      let s = chain (validate_fee fee) (reserves_sufficient x y) _ _ payout price in
      let amount = either (leb_ℤ n (pos 0)) (leb_ℤ x n) in
      let bought = both (f.is_finite cost) (f.lt f.nought cost) in
      let sold = both (f.is_finite payout) (f.lt f.nought payout) in
      (
        (
          λ h.
              let (v, r, a, p, e) = b.0 h in
              let (low, high) = amount.0 a in
              let (finite, positive) = bought.0 p in
              (
                (IsFee-validate_fee fee).0 v,
                (has_reserves x y).0 r,
                low,
                high,
                (finite, positive, e),
              ),
          λ (v, r, low, high, (finite, positive, e)). b.1 (
            (IsFee-validate_fee fee).1 v,
            (has_reserves x y).1 r,
            amount.1 (low, high),
            bought.1 (finite, positive),
            e,
          ),
        ),
        (
          λ h.
              let (v, r, a, p, e) = s.0 h in
              let (finite, positive) = sold.0 p in
              ((IsFee-validate_fee fee).0 v, (has_reserves x y).0 r, a, (finite, positive, e)),
          λ (v, r, a, (finite, positive, e)). s.1 (
            (IsFee-validate_fee fee).1 v,
            (has_reserves x y).1 r,
            a,
            sold.1 (finite, positive),
            e,
          ),
        ),
      )
