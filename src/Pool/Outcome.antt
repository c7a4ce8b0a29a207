-- ===== src/Pool/Outcome.antt =====
-- src/pool.rs: the outcomes of requests, fed back into a backend's health and circuit.
use echofront.Base.{ℕ, ◌&&◌, not, leb, if◌then◌else◌, Option, none, some, Exec, ok, ◌>>=◌}
use echofront.Base.Words.{add_u32, add_u64, sat_add_u64}
use echofront.Breaker
use echofront.Ewma
use echofront.Ewma.{EwmaConfig}
use echofront.Pool.{Pool, Backend, HealthConfig, change, is_ejected}

module _ {ℓ} {U : Type ℓ} where
  unfoldable pub success_of : ℕ → Backend U → Backend U
  unfolding Breaker.on_success
  success_of now b = record b {
    served = add_u64 b.served 1;
    outlier_failures = 0;
    breaker = Breaker.on_success b.breaker now;
  }

  unfoldable pub record_success : Pool U → ℕ → ℕ → Exec (Pool U)
  unfolding change success_of
  record_success p idx now = change p idx (success_of now)

  unfoldable pub fold_latency : EwmaConfig → ℕ → Backend U → Backend U
  unfolding Ewma.fold
  fold_latency cfg latency_ms b = record b {
    latency_ewma_milli = some (Ewma.fold cfg b.latency_ewma_milli latency_ms);
    ewma_samples = add_u32 b.ewma_samples 1;
  }

  -- The rest of `record_success_latency`, which needs the latency layer.
  unfoldable pub fold_if_on : Pool U → ℕ → ℕ → Option EwmaConfig → Exec (Pool U)
  unfolding change fold_latency
  fold_if_on p idx latency_ms none = ok p
  fold_if_on p idx latency_ms (some cfg) = change p idx (fold_latency cfg latency_ms)

  unfoldable pub record_success_latency : Pool U → ℕ → ℕ → ℕ → Exec (Pool U)
  unfolding record_success fold_if_on
  record_success_latency p idx now latency_ms = do
    p' ← record_success p idx now
    fold_if_on p' idx latency_ms p'.ewma

  -- `if b.outlier_failures >= outlier_threshold && !already_ejected`.
  unfoldable pub eject_outlier : HealthConfig → ℕ → Backend U → Backend U
  unfolding is_ejected
  eject_outlier health now b =
      if leb health.outlier_consecutive_failures b.outlier_failures && not (is_ejected b now)
      then record b {
        ejected_until = some (sat_add_u64 now health.ejection_base_ms);
        ejections = add_u64 b.ejections 1;
      }
      else b

  unfoldable pub failure_of : HealthConfig → ℕ → Backend U → Backend U
  unfolding Breaker.on_failure eject_outlier
  failure_of health now b = eject_outlier health now (record b {
    served = add_u64 b.served 1;
    breaker = Breaker.on_failure b.breaker now;
    outlier_failures = add_u32 b.outlier_failures 1;
  })

  unfoldable pub record_failure : Pool U → ℕ → ℕ → Exec (Pool U)
  unfolding change failure_of
  record_failure p idx now = change p idx (failure_of p.health now)
