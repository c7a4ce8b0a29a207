-- ===== src/Base/Float.antt =====
-- Floating-point numbers, as the operations that the program uses. Nothing is assumed of them.
use mathlib.Core.Bool.{Bool}
use echofront.Base.Int.{ℤ}

-- `cast` is `as f64`, of an i64 or u64 value; a literal such as `100.0` is the cast of its integer,
-- which is exact.
pub record Float {ℓ} (W : Type ℓ) : Type ℓ where
  pub cast : ℤ → W
  pub mul : W → W → W
  pub div : W → W → W
  pub lt : W → W → Bool
