-- ===== src/Pool/Health.antt =====
-- src/pool.rs, `run_health_checks`: active probes at most once per interval, and the hysteresis
-- that flips a backend's health.
use echofront.Base.{
  ℕ, ◌-◌, Bool, true, false, ◌&&◌, not, leb, if◌then◌else◌, Option, none, some, map,
}
use echofront.Base.Words.{add_u32}
use echofront.Upstream.{Upstream}
use echofront.Pool.{Pool, Backend, HealthConfig}

abbrev pub due : Option ℕ → ℕ → ℕ → Bool
due none now interval = true
due (some t) now interval = leb interval (now - t)

module _ {ℓ} {U : Type ℓ} where
  -- The arm for a live probe.
  unfoldable pub probe_passed : HealthConfig → Backend U → Backend U
  probe_passed health b =
      let n = add_u32 b.probe_successes 1 in
      if not b.healthy && leb health.healthy_probe_threshold n
      then record b { probe_successes = 0; probe_failures = 0; healthy = true }
      else record b { probe_successes = n; probe_failures = 0 }

  -- The arm for a failed probe.
  unfoldable pub probe_failed : HealthConfig → Backend U → Backend U
  probe_failed health b =
      let n = add_u32 b.probe_failures 1 in
      if b.healthy && leb health.unhealthy_probe_threshold n
      then record b { probe_failures = 0; probe_successes = 0; healthy = false }
      else record b { probe_failures = n; probe_successes = 0 }

  -- The `if live`, on the backend whose probe time is noted.
  unfoldable pub judge_probe : HealthConfig → Bool → Backend U → Backend U
  unfolding probe_passed probe_failed
  judge_probe health live b = if live then probe_passed health b else probe_failed health b

  -- The body of the loop.
  unfoldable pub check_backend : Upstream U → HealthConfig → ℕ → Backend U → Backend U
  unfolding judge_probe
  check_backend upstream health now b =
      if due b.last_probe now health.probe_interval_ms
      then (let (live, u) = upstream.probe b.upstream in
          judge_probe health live (record b { last_probe = some now; upstream = u }))
      else b

  unfoldable pub run_health_checks : Upstream U → Pool U → ℕ → Pool U
  unfolding check_backend
  run_health_checks upstream p now = record p {
    backends = map (check_backend upstream p.health now) p.backends;
  }
