-- ===== src/Pool/Ranges.antt =====
-- src/pool.rs and src/breaker.rs: the numbers of a backend stay in the ranges of their machine types.
use echofront.Base.{ℕ, ◌<◌, Bool, true, false, List, Option, none, some, arith}
use echofront.Base.Words.{u32_mod, u64_mod, IsI64}
use echofront.Breaker
use echofront.Breaker.{CircuitBreaker, BreakerConfig}
use echofront.Ewma.{EwmaConfig, fold, blend}
use echofront.Pool.{Backend, HealthConfig, new_backend}
use echofront.Pool.Change.{timed_success}
use echofront.Pool.Health.{check_backend, judge_probe, probe_passed, probe_failed}
use echofront.Pool.Outcome.{failure_of, eject_outlier, success_of, fold_latency}
use echofront.Pool.Poll.{poll_backend, end_ejection, reinstate, ramp_up, judge, over_line}
use echofront.Upstream.{Upstream}

-- A time or an average, if there is one, is a u64.
abbrev pub IsNoted : Option ℕ → Type 0
IsNoted none = Unit {0}
IsNoted (some t) = t < u64_mod

pub record BreakerInRange (b : CircuitBreaker) : Type 0 where
  pub failures : b.consecutive_failures < u32_mod
  pub successes : b.consecutive_successes < u32_mod
  pub opened_at : b.opened_at < u64_mod
  pub trips : b.trips < u64_mod

poll-BreakerInRange :
    (b : CircuitBreaker) (now : ℕ) → BreakerInRange b → BreakerInRange (Breaker.poll b now)
unfolding Breaker.poll
poll-BreakerInRange b now v = ground arith

on_success-BreakerInRange :
    (b : CircuitBreaker) (now : ℕ) → BreakerInRange b → BreakerInRange (Breaker.on_success b now)
unfolding Breaker.on_success
on_success-BreakerInRange b now v = ground (arith, poll-BreakerInRange b now v)

on_failure-BreakerInRange :
    (b : CircuitBreaker) (now : ℕ)
    → now < u64_mod
    → BreakerInRange b
    → BreakerInRange (Breaker.on_failure b now)
unfolding Breaker.on_failure
on_failure-BreakerInRange b now h v = ground (arith, poll-BreakerInRange b now v)

-- A fold saturates at the end of u64.
fold-IsNoted :
    (cfg : EwmaConfig) (prev : Option ℕ) (latency : ℕ) → IsNoted (some (fold cfg prev latency))
unfolding fold blend
fold-IsNoted cfg none latency = omega arith
fold-IsNoted cfg (some prev) latency = omega arith

module _ {ℓ} {U : Type ℓ} where
  -- Each number of a backend is a value of its type.
  pub record InRange (b : Backend U) : Type 0 where
    pub weight : b.weight < u32_mod
    pub in_flight : b.in_flight < u32_mod
    pub probe_failures : b.probe_failures < u32_mod
    pub probe_successes : b.probe_successes < u32_mod
    pub last_probe : IsNoted b.last_probe
    pub outlier_failures : b.outlier_failures < u32_mod
    pub ejected_until : IsNoted b.ejected_until
    pub ejections : b.ejections < u64_mod
    pub breaker : BreakerInRange b.breaker
    pub current_weight : IsI64 b.current_weight
    pub served : b.served < u64_mod
    pub latency_ewma_milli : IsNoted b.latency_ewma_milli
    pub ewma_samples : b.ewma_samples < u32_mod
    pub over_since : IsNoted b.over_since
    pub over_since_samples : b.over_since_samples < u32_mod
    pub ewma_ejections : b.ewma_ejections < u64_mod
    pub ramp_percent : b.ramp_percent < u32_mod
    pub last_ramp_step : IsNoted b.last_ramp_step

  pub failure_of-InRange :
      (c : HealthConfig) (now : ℕ) (b : Backend U)
      → now < u64_mod
      → InRange b
      → InRange (failure_of c now b)
  unfolding failure_of eject_outlier
  failure_of-InRange c now b h v =
      ground (arith, on_failure-BreakerInRange b.breaker now h v.breaker)

  judge_probe-InRange :
      (health : HealthConfig) (live : Bool) (b : Backend U)
      → InRange b
      → InRange (judge_probe health live b)
  unfolding judge_probe probe_passed probe_failed
  judge_probe-InRange health true b v = ground arith
  judge_probe-InRange health false b v = ground arith

  pub check_backend-InRange :
      (upstream : Upstream U) (health : HealthConfig) (now : ℕ) (b : Backend U)
      → now < u64_mod
      → InRange b
      → InRange (check_backend upstream health now b)
  unfolding check_backend
  check_backend-InRange upstream health now b h v =
      let (live, u) = upstream.probe b.upstream in
      let probed : Backend U = record b { last_probe = some now; upstream = u } in
      ground (arith, judge_probe-InRange health live probed)

  success_of-InRange : (now : ℕ) (b : Backend U) → InRange b → InRange (success_of now b)
  unfolding success_of
  success_of-InRange now b v = ground (arith, on_success-BreakerInRange b.breaker now v.breaker)

  fold_latency-InRange :
      (cfg : EwmaConfig) (latency : ℕ) (b : Backend U)
      → InRange b
      → InRange (fold_latency cfg latency b)
  unfolding fold_latency
  fold_latency-InRange cfg latency b v =
      ground (arith, fold-IsNoted cfg b.latency_ewma_milli latency)

  pub timed_success-InRange :
      (ewma : Option EwmaConfig) (now latency : ℕ) (b : Backend U)
      → InRange b
      → InRange (timed_success ewma now latency b)
  timed_success-InRange none now latency b v = success_of-InRange now b v
  timed_success-InRange (some cfg) now latency b v =
      fold_latency-InRange cfg latency (success_of now b) (success_of-InRange now b v)

  end_ejection-InRange :
      (ewma : Option EwmaConfig) (now : ℕ) (b : Backend U)
      → now < u64_mod
      → InRange b
      → InRange (end_ejection ewma now b)
  unfolding end_ejection reinstate
  end_ejection-InRange none now b h v = ground arith
  end_ejection-InRange (some cfg) now b h v = ground arith

  ramp_up-InRange :
      (cfg : EwmaConfig) (now : ℕ) (b : Backend U)
      → now < u64_mod
      → InRange b
      → InRange (ramp_up cfg now b)
  unfolding ramp_up
  ramp_up-InRange cfg now b h v = ground arith

  judge-InRange :
      (cfg : EwmaConfig) (line now : ℕ) (b : Backend U)
      → now < u64_mod
      → InRange b
      → InRange (judge cfg line now b)
  unfolding judge over_line
  judge-InRange cfg line now b h v = ground arith

  polled-InRange :
      (now : ℕ) (b : Backend U)
      → InRange b
      → InRange (record b { breaker = Breaker.poll b.breaker now })
  polled-InRange now b v = ground (arith, poll-BreakerInRange b.breaker now v.breaker)

  pub poll_backend-InRange :
      (ewma : Option EwmaConfig) (line now : ℕ) (b : Backend U)
      → now < u64_mod
      → InRange b
      → InRange (poll_backend ewma line now b)
  unfolding poll_backend
  poll_backend-InRange none line now b h v =
      end_ejection-InRange none now _ h (polled-InRange now b v)
  poll_backend-InRange (some cfg) line now b h v = judge-InRange cfg line now _ h (
      ramp_up-InRange cfg now _ h
        (end_ejection-InRange (some cfg) now _ h (polled-InRange now b v)))

  pub new_backend-InRange :
      (name : List ℕ) (weight : ℕ) (u : U) (health : HealthConfig) (cfg : BreakerConfig)
      → weight < u32_mod
      → InRange (new_backend name weight u health cfg)
  unfolding new_backend Breaker.new
  new_backend-InRange name weight u health cfg h = ground arith
