-- ===== src/Ewma.antt =====
-- src/ewma.rs: latency scores in integer milli units. The blend and the ejection line are computed
-- in 128 bits and saturate at the end of u64. `DistributionRow` is a
-- row of the report of the pool, over the floating-point numbers `W`.
pub mod Laws
use echofront.Base.{ℕ, ◌+◌, ◌-◌, ◌*◌, ◌/◌, ◌%◌, min, Bool, List, Option, none, some}
use echofront.Base.Words.{u128_mod, sat_mul_u64, u64_of_u128}

pub record EwmaConfig : Type 0 where
  pub alpha_milli : ℕ
  pub factor_milli : ℕ
  pub window_ms : ℕ
  pub min_samples : ℕ
  pub ejection_ms : ℕ
  pub reinstate_percent : ℕ
  pub ramp_window_ms : ℕ

pub record DistributionRow {ℓ} (W : Type ℓ) : Type ℓ where
  pub name : List ℕ
  pub served : ℕ
  pub served_share_pct : W
  pub expected_share_pct : W
  pub weight : ℕ
  pub ewma_milli : Option ℕ
  pub ejected : Bool
  pub ramp_percent : ℕ
  pub ewma_ejections : ℕ

-- `EwmaConfig::default`.
abbrev pub default_config : EwmaConfig
default_config = record {
  alpha_milli = 250;
  factor_milli = 3_000;
  window_ms = 2_000;
  min_samples = 8;
  ejection_ms = 1_500;
  reinstate_percent = 25;
  ramp_window_ms = 1_000;
}

unfoldable pub threshold_milli : EwmaConfig → ℕ → ℕ
threshold_milli c pool_mean_milli =
    u64_of_u128 ((pool_mean_milli * c.factor_milli) % u128_mod / 1_000)

-- The `Some(prev)` arm of `fold`.
unfoldable pub blend : EwmaConfig → ℕ → ℕ → ℕ
blend c sample_milli prev =
    let alpha = min c.alpha_milli 1_000 in
    let weighted =
      ((alpha * sample_milli) % u128_mod + ((1_000 - alpha) * prev) % u128_mod) % u128_mod in
    u64_of_u128 (weighted / 1_000)

unfoldable pub fold : EwmaConfig → Option ℕ → ℕ → ℕ
unfolding blend
fold c none latency_ms = sat_mul_u64 latency_ms 1_000
fold c (some prev) latency_ms = blend c (sat_mul_u64 latency_ms 1_000) prev
