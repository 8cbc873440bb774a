-- ===== src/Backoff.antt =====
-- src/constants.rs: the delay between two attempts of the bot. The random byte is what `getrandom`
-- answered, `none` for its failure.
use native.Mathlib.Nat.{mul-le-mul_left, mul-le-mul_right, one-le-pow, pow-le-pow_right}
use cj_store.Prelude.{
  ℕ, suc, ◌+◌, ◌*◌, ◌/◌, ◌%◌, ◌-◌, ◌^◌, ◌≤◌, ◌<◌, ◌≡◌, Option, none, some, min, arith,
}

unfoldable pub exponential_backoff_delay : ℕ → ℕ → ℕ → ℕ
exponential_backoff_delay attempt base_ms max_ms =
    let delay = min (base_ms * 2 ^ min attempt 10) (2 ^ 64 - 1) in min delay max_ms

-- The random part, of which a byte stands for a share of 255.
abbrev rand_extra : Option ℕ → ℕ → ℕ
rand_extra (some byte) half = ((byte * half) % 2 ^ 64) / 255
rand_extra none half = half / 2

unfoldable pub exponential_backoff_delay_jittered : Option ℕ → ℕ → ℕ → ℕ → ℕ
exponential_backoff_delay_jittered random attempt base_ms max_ms =
    let delay = exponential_backoff_delay attempt base_ms max_ms in
    let half = delay / 2 in half + rand_extra random half

abbrev IsByte : Option ℕ → Type 0
IsByte (some byte) = byte < 256
IsByte none = Unit

share_below : (byte half : ℕ) → byte < 256 → byte * half ≤ 255 * half
share_below byte half h = mul-le-mul_right half (omega (arith, h))

share_exact : (byte half : ℕ) → byte < 256 → half < 2 ^ 56 → (byte * half) % 2 ^ 64 ≡ byte * half
share_exact byte half h small = omega (arith, share_below byte half h, small)

extra_below : (r : Option ℕ) (half : ℕ) → IsByte r → half < 2 ^ 56 → rand_extra r half ≤ half
extra_below (some byte) half h small =
    omega (arith, share_below byte half h, share_exact byte half h small)
extra_below none half _ _ = omega arith

delay_below : (a base m : ℕ) → exponential_backoff_delay a base m ≤ m
unfolding exponential_backoff_delay
delay_below a base m = omega arith

-- A further attempt multiplies by no less.
factor_grows : (a : ℕ) → 2 ^ min a 10 ≤ 2 ^ min (suc a) 10
factor_grows a = pow-le-pow_right (omega arith) (omega arith)

delay_grows :
    (a base m : ℕ) → exponential_backoff_delay a base m ≤ exponential_backoff_delay (suc a) base m
unfolding exponential_backoff_delay
delay_grows a base m = omega (arith, mul-le-mul_left base (factor_grows a))

base_kept : (a base m : ℕ) → m < 2 ^ 57 → min base m ≤ exponential_backoff_delay a base m
unfolding exponential_backoff_delay
base_kept a base m small =
    omega (arith, mul-le-mul_left base (one-le-pow (min a 10) 2 (omega arith)), small)

-- Whatever the random byte, and for a cap below 2 ^ 57 ms (above, the product of byte and half may
-- wrap), the delay lies between half the nominal delay and the nominal delay. The latter is at most
-- the cap, at least the base (or the cap, if that is less), and not less at the next attempt.
pub delay_bounds :
    (random : Option ℕ) (attempt base_ms max_ms : ℕ)
    → IsByte random
    → max_ms < 2 ^ 57
    → let nominal = exponential_backoff_delay attempt base_ms max_ms in
      let jittered = exponential_backoff_delay_jittered random attempt base_ms max_ms in
      (nominal / 2 ≤ jittered)
      × (jittered ≤ nominal)
      × (nominal ≤ max_ms)
      × (min base_ms max_ms ≤ nominal)
      × (nominal ≤ exponential_backoff_delay (suc attempt) base_ms max_ms)
unfolding exponential_backoff_delay_jittered
delay_bounds random attempt base_ms max_ms byte small =
    let capped = delay_below attempt base_ms max_ms in
    let half = exponential_backoff_delay attempt base_ms max_ms / 2 in
    let extra = extra_below random half byte (omega (arith, capped, small)) in
    (
      omega arith,
      omega (arith, extra),
      capped,
      base_kept attempt base_ms max_ms small,
      delay_grows attempt base_ms max_ms,
    )
