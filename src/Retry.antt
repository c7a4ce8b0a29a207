-- ===== src/Retry.antt =====
-- src/retry.rs: the retry budget, a token bucket in milli tokens. Each new request deposits a
-- fraction of a token, each retry costs a whole one.
pub mod Bound
use echofront.Base.{ℕ, ◌≡◌, Bool, true, false, if◌then◌else◌}
use echofront.Base.Float.{Float}
use echofront.Base.Int.{ℤ, pos, ltb_ℤ, leb_ℤ}
use echofront.Base.Words.{add_u64, add_i64, sub_i64}

pub record RetryConfig : Type 0 where
  pub max_retries_per_request : ℕ
  pub deposit_milli : ℤ
  pub retry_cost_milli : ℤ
  pub max_milli : ℤ

-- `RetryConfig::default`.
abbrev pub default_config : RetryConfig
default_config = record {
  max_retries_per_request = 2;
  deposit_milli = pos 200;
  retry_cost_milli = pos 1_000;
  max_milli = pos 10_000;
}

pub record RetryBudget : Type 0 where
  pub cfg : RetryConfig
  pub tokens_milli : ℤ
  pub granted : ℕ
  pub denied : ℕ

-- `RetryBudget::new`: the bucket starts full.
unfoldable pub new : RetryConfig → RetryBudget
new cfg = record { cfg = cfg; tokens_milli = cfg.max_milli; granted = 0; denied = 0 }

-- `Ord::min` on i64.
abbrev min_i64 : ℤ → ℤ → ℤ
min_i64 a b = if ltb_ℤ b a then b else a

unfoldable pub on_request : RetryBudget → RetryBudget
on_request b = record b {
  tokens_milli = min_i64 (add_i64 b.tokens_milli b.cfg.deposit_milli) b.cfg.max_milli;
}

-- The new budget, and whether the retry is allowed.
unfoldable pub try_retry : RetryBudget → RetryBudget × Bool
try_retry b =
    if leb_ℤ b.cfg.retry_cost_milli b.tokens_milli
    then (
      record b {
        tokens_milli = sub_i64 b.tokens_milli b.cfg.retry_cost_milli;
        granted = add_u64 b.granted 1;
      },
      true,
    )
    else (record b { denied = add_u64 b.denied 1 }, false)

-- `tokens`: the bucket in whole tokens.
unfoldable pub tokens {ℓ} : {W : Type ℓ} → Float W → RetryBudget → W
tokens f b = f.div (f.cast b.tokens_milli) (f.cast (pos 1_000))
