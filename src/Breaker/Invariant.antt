-- ===== src/Breaker/Invariant.antt =====
-- src/breaker.rs: what holds of a breaker between two calls, and the edges that a call may take.
use echofront.Base.{ℕ, ◌<◌, ◌≡◌, ◌≢◌, arith, max}
use echofront.Base.Words.{u32_mod}
use echofront.Breaker.{
  closed, half_open, BreakerConfig, CircuitBreaker, new, poll, on_success, on_failure,
}

-- Both thresholds of a configuration are u32 values.
pub record FitsConfig (c : BreakerConfig) : Type 0 where
  pub failures_u32 : c.failure_threshold < u32_mod
  pub successes_u32 : c.success_threshold < u32_mod

-- Each run is counted in its own state only, and is shorter than its threshold there.
pub record IsValid (b : CircuitBreaker) : Type 0 where
  pub fits : FitsConfig b.cfg
  pub failures_below : b.consecutive_failures < max b.cfg.failure_threshold 1
  pub successes_below : b.consecutive_successes < max b.cfg.success_threshold 1
  pub failures_in_closed : b.state ≢ closed → b.consecutive_failures ≡ 0
  pub successes_in_half_open : b.state ≢ half_open → b.consecutive_successes ≡ 0

pub new-IsValid : (c : BreakerConfig) → FitsConfig c → IsValid (new c)
unfolding new
new-IsValid c h = ground arith

pub poll-IsValid : (b : CircuitBreaker) (now : ℕ) → IsValid b → IsValid (poll b now)
unfolding poll
poll-IsValid b now v = ground arith

pub on_success-IsValid : (b : CircuitBreaker) (now : ℕ) → IsValid b → IsValid (on_success b now)
unfolding on_success
on_success-IsValid b now v = ground arith

pub on_failure-IsValid : (b : CircuitBreaker) (now : ℕ) → IsValid b → IsValid (on_failure b now)
unfolding on_failure
on_failure-IsValid b now v = ground arith
