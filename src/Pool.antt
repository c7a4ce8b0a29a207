-- ===== src/Pool.antt =====
-- src/pool.rs: the upstream pool of one service. This file has its data and the small operations;
-- its children have selection, polling, the outcomes of requests and the active probes.
pub mod Spelling
pub mod Select
pub mod Poll
pub mod Outcome
pub mod Health
pub mod Change
pub mod Polled
pub mod Tidy
pub mod Ejection
pub mod Latency
pub mod Probes
pub mod Report
pub mod Ranges
use echofront.Base.{
  ℕ, ◌+◌, ◌-◌, Bool, true, false, ◌&&◌, not, ltb, List, [], ◌∷◌, ◌++◌, Option, none, some, Exec, ok,
  panic, ◌>>=◌, modify,
}
use echofront.Base.Int.{ℤ, pos}
use echofront.Base.Words.{add_u32}
use echofront.Breaker
use echofront.Breaker.{CircuitBreaker, BreakerConfig, BreakerState, admits}
use echofront.Ewma.{EwmaConfig}
use echofront.HashRing
use echofront.HashRing.{ConsistentHashRing}

pub data Strategy : Type 0 where
  round_robin weighted least_connections consistent_hash : Strategy

pub record HealthConfig : Type 0 where
  pub probe_interval_ms : ℕ
  pub unhealthy_probe_threshold : ℕ
  pub healthy_probe_threshold : ℕ
  pub outlier_consecutive_failures : ℕ
  pub ejection_base_ms : ℕ
  pub start_healthy : Bool

-- `HealthConfig::default`.
abbrev pub default_health : HealthConfig
default_health = record {
  probe_interval_ms = 1_000;
  unhealthy_probe_threshold = 2;
  healthy_probe_threshold = 2;
  outlier_consecutive_failures = 5;
  ejection_base_ms = 5_000;
  start_healthy = true;
}

-- A backend whose upstream has the state `U`.
pub record Backend {ℓ} (U : Type ℓ) : Type ℓ where
  pub name : List ℕ
  pub weight : ℕ
  pub upstream : U
  pub in_flight : ℕ
  pub healthy : Bool
  pub probe_failures : ℕ
  pub probe_successes : ℕ
  pub last_probe : Option ℕ
  pub outlier_failures : ℕ
  pub ejected_until : Option ℕ
  pub ejections : ℕ
  pub breaker : CircuitBreaker
  pub current_weight : ℤ
  pub served : ℕ
  pub latency_ewma_milli : Option ℕ
  pub ewma_samples : ℕ
  pub over_since : Option ℕ
  pub over_since_samples : ℕ
  pub ewma_ejections : ℕ
  pub ramp_percent : ℕ
  pub last_ramp_step : Option ℕ

pub record Pool {ℓ} (U : Type ℓ) : Type ℓ where
  pub name : List ℕ
  pub backends : List (Backend U)
  pub strategy : Strategy
  pub health : HealthConfig
  pub rr_cursor : ℕ
  pub ring : ConsistentHashRing
  pub ring_signature : List ℕ
  pub ewma : Option EwmaConfig

module _ {ℓ} {U : Type ℓ} where
  -- `Backend::new`.
  unfoldable pub new_backend : List ℕ → ℕ → U → HealthConfig → BreakerConfig → Backend U
  unfolding Breaker.new
  new_backend name weight upstream health breaker_cfg = record {
    name = name;
    weight = weight;
    upstream = upstream;
    in_flight = 0;
    healthy = health.start_healthy;
    probe_failures = 0;
    probe_successes = 0;
    last_probe = none;
    outlier_failures = 0;
    ejected_until = none;
    ejections = 0;
    breaker = Breaker.new breaker_cfg;
    current_weight = pos 0;
    served = 0;
    latency_ewma_milli = none;
    ewma_samples = 0;
    over_since = none;
    over_since_samples = 0;
    ewma_ejections = 0;
    ramp_percent = 100;
    last_ramp_step = none;
  }

  unfoldable pub is_ejected : Backend U → ℕ → Bool
  is_ejected b now = elim b.ejected_until [ some until ↦ ltb now until | none ↦ false ]

  unfoldable pub is_available : Backend U → ℕ → Bool
  unfolding is_ejected admits
  is_available b now = b.healthy && not (is_ejected b now) && admits b.breaker now b.in_flight

  -- `Pool::new`.
  unfoldable pub new : List ℕ → Strategy → HealthConfig → Pool U
  unfolding HashRing.new
  new name strategy health = record {
    name = name;
    backends = [];
    strategy = strategy;
    health = health;
    rr_cursor = 0;
    ring = HashRing.new 160;
    ring_signature = [];
    ewma = none;
  }

  unfoldable pub set_strategy : Pool U → Strategy → Pool U
  set_strategy p s = record p { strategy = s }

  unfoldable pub add_backend : Pool U → Backend U → Pool U
  add_backend p backend = record p { backends = p.backends ++ backend ∷ []; ring_signature = [] }

  unfoldable pub enable_ewma : Pool U → EwmaConfig → Pool U
  enable_ewma p cfg = record p { ewma = some cfg }

  -- `self.backends[idx]` changed in place.
  unfoldable pub change : Pool U → ℕ → (Backend U → Backend U) → Exec (Pool U)
  change p idx f = do backends ← modify p.backends idx f; ok (record p { backends = backends })

  unfoldable pub begin : Pool U → ℕ → Exec (Pool U)
  unfolding change
  begin p idx = change p idx (λ b. record b { in_flight = add_u32 b.in_flight 1 })

  unfoldable pub end : Pool U → ℕ → Exec (Pool U)
  unfolding change
  end p idx = change p idx (λ b. record b { in_flight = b.in_flight - 1 })
