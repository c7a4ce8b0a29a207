-- ===== src/Pool/Poll.antt =====
-- src/pool.rs, `poll`: breakers, the end of ejections, the reinstatement ramp and the latency
-- outliers, at the time that is given.
use echofront.Base.{
  ℕ, ◌+◌, ◌-◌, ◌/◌, ◌%◌, min, max, Bool, true, false, ◌&&◌, ltb, leb, if◌then◌else◌, List, [], ◌∷◌,
  map, Option, none, some,
}
use echofront.Base.Words.{add_u64, sat_add_u64, sat_mul_u32, u64_of_u128, u128_mod}
use echofront.Breaker
use echofront.Ewma.{EwmaConfig, threshold_milli}
use echofront.Pool.{Pool, Backend}

abbrev pub is_none {ℓ} : {A : Type ℓ} → Option A → Bool
is_none none = true
is_none (some a) = false

-- `unwrap_or` on a number.
abbrev pub get_or : Option ℕ → ℕ → ℕ
get_or none d = d
get_or (some a) d = a

-- A time that was noted, if any, lies at least `window` back.
abbrev pub elapsed : Option ℕ → ℕ → ℕ → Bool
elapsed none now window = true
elapsed (some since) now window = leb window (now - since)

-- Integer division that panics on zero is not met: the divisor is `n.max(1)`.
abbrev mean_of : ℕ × ℕ → ℕ
mean_of (sum, n) = u64_of_u128 (sum / max n 1)

module _ {ℓ} {U : Type ℓ} where
  -- The loop of `ewma_mean`: the sum and the count of the nodes with enough samples.
  pub tally_from : ℕ → ℕ × ℕ → List (Backend U) → ℕ × ℕ
  tally_from min_samples acc [] = acc
  tally_from min_samples (sum, n) (b ∷ backends) =
      tally_from min_samples
        (if leb min_samples b.ewma_samples
          then ((sum + get_or b.latency_ewma_milli 0) % u128_mod, (n + 1) % u128_mod)
          else (sum, n))
        backends

  unfoldable pub ewma_mean : Pool U → ℕ
  unfolding tally_from
  ewma_mean p = elim p.ewma [
    | none ↦ 0
    | some cfg ↦ mean_of (tally_from cfg.min_samples (0, 0) p.backends)
  ]

  -- A reinstated node comes back at partial weight when the latency layer is on.
  unfoldable pub reinstate : Option EwmaConfig → ℕ → Backend U → Backend U
  reinstate none now b = record b { ejected_until = none; outlier_failures = 0 }
  reinstate (some cfg) now b = record b {
    ejected_until = none;
    outlier_failures = 0;
    ramp_percent = min (max cfg.reinstate_percent 1) 100;
    last_ramp_step = some now;
  }

  unfoldable pub end_ejection : Option EwmaConfig → ℕ → Backend U → Backend U
  unfolding reinstate
  end_ejection ewma now b = elim b.ejected_until [
    | none ↦ b
    | some until ↦ if leb until now then reinstate ewma now b else b
  ]

  unfoldable pub ramp_up : EwmaConfig → ℕ → Backend U → Backend U
  ramp_up cfg now b =
      if is_none b.ejected_until
        && ltb b.ramp_percent 100
        && elapsed b.last_ramp_step now cfg.ramp_window_ms
      then record b {
        ramp_percent = min (sat_mul_u32 b.ramp_percent 2) 100;
        last_ramp_step = some now;
      }
      else b

  -- The node is over the line: the window opens, runs on, or ejects.
  unfoldable pub over_line : EwmaConfig → ℕ → Backend U → Backend U
  over_line cfg now b = elim b.over_since [
    | none ↦ record b { over_since = some now; over_since_samples = b.ewma_samples }
    | some since ↦
        if leb cfg.window_ms (now - since)
          && leb cfg.min_samples (b.ewma_samples - b.over_since_samples)
        then record b {
          ejected_until = some (sat_add_u64 now cfg.ejection_ms);
          ewma_ejections = add_u64 b.ewma_ejections 1;
          over_since = none;
        }
        else b
  ]

  unfoldable pub judge : EwmaConfig → ℕ → ℕ → Backend U → Backend U
  unfolding over_line
  judge cfg threshold now b =
      if is_none b.ejected_until
      then if leb cfg.min_samples b.ewma_samples && ltb threshold (get_or b.latency_ewma_milli 0)
        then over_line cfg now b
        else record b { over_since = none }
      else b

  -- The body of the loop, for one backend.
  unfoldable pub poll_backend : Option EwmaConfig → ℕ → ℕ → Backend U → Backend U
  unfolding Breaker.poll end_ejection ramp_up judge
  poll_backend ewma threshold now b =
      let b' = end_ejection ewma now (record b { breaker = Breaker.poll b.breaker now }) in
      elim ewma [ none ↦ b' | some cfg ↦ judge cfg threshold now (ramp_up cfg now b') ]

  -- The line of the pool, from the averages before the loop.
  unfoldable pub threshold : Pool U → ℕ
  unfolding ewma_mean threshold_milli
  threshold p = elim p.ewma [ none ↦ 0 | some cfg ↦ threshold_milli cfg (ewma_mean p) ]

  unfoldable pub poll : Pool U → ℕ → Pool U
  unfolding poll_backend threshold
  poll p now = record p { backends = map (poll_backend p.ewma (threshold p) now) p.backends }

  -- `poll` at the time that a clock shows.
  unfoldable poll_with {κ} : {C : Type κ} → (C → ℕ) → Pool U → C → Pool U
  unfolding poll
  poll_with now_millis p clock = poll p (now_millis clock)
