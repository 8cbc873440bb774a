-- ===== src/Float.antt =====
-- The operations on `f64` that the ledger uses. A theorem about them holds for any operations.
use cj_store.Prelude.{Bool}
use cj_store.Prelude.Int.{ℤ}

pub record Float {ℓ} (W : Type ℓ) : Type ℓ where
  pub nought : W
  pub one : W
  pub thousandth : W
  pub i32_limit : W
  pub add : W → W → W
  pub sub : W → W → W
  pub mul : W → W → W
  pub div : W → W → W
  pub lesser : W → W → W
  pub greater : W → W → W
  pub ceil : W → W
  pub floor : W → W
  pub lt : W → W → Bool
  pub le : W → W → Bool
  pub is_finite : W → Bool
  pub of_i32 : ℤ → W
  pub to_i32 : W → ℤ
