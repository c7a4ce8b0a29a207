-- ===== src/Pool/Probes.antt =====
-- src/pool.rs, `run_health_checks`: the hysteresis of the active probes, and their spacing.
use echofront.Base.{
  ℕ, zero, suc, ◌+◌, ◌<◌, ◌≡◌, inl, inr, refl, ap, Bool, true, false, ltb, leb, List, [], ◌∷◌, map,
  some, arith, Bool-cases,
}
use echofront.Base.Words.{u32_mod}
use echofront.Pool.{Pool, Backend, HealthConfig}
use echofront.Pool.Health.{
  probe_passed, probe_failed, judge_probe, check_backend, run_health_checks, due,
}
use echofront.Upstream.{Upstream}

module _ {ℓ} {U : Type ℓ} where
  -- The same result of the probe, `n` times in a row.
  unfoldable pub probed : HealthConfig → Bool → ℕ → Backend U → Backend U
  unfolding judge_probe
  probed health live zero b = b
  probed health live (suc n) b = judge_probe health live (probed health live n b)

  failing :
      (health : HealthConfig) (n : ℕ) (b : Backend U)
      → b.healthy ≡ true
      → b.probe_failures ≡ 0
      → n < health.unhealthy_probe_threshold
      → health.unhealthy_probe_threshold < u32_mod
      → ((probed health false n b).healthy ≡ true) × ((probed health false n b).probe_failures ≡ n)
  unfolding probed judge_probe probe_failed
  failing health zero b e f h w = (e, f)
  failing health (suc n) b e f h w =
      let (up, count) = failing health n b e f (omega arith) w in ground (arith, up, count)

  -- A healthy node without failed probes is taken out by exactly `unhealthy_probe_threshold` failed
  -- probes in a row: fewer leave it in, and a live probe among them starts the count anew.
  pub probes_take_out :
      (health : HealthConfig) (n : ℕ) (b : Backend U)
      → b.healthy ≡ true
      → b.probe_failures ≡ 0
      → n < health.unhealthy_probe_threshold
      → health.unhealthy_probe_threshold < u32_mod
      → ((probed health false n b).healthy ≡ true)
        × ((probed health false (n + 1) b).healthy ≡ ltb (n + 1) health.unhealthy_probe_threshold)
        × ((judge_probe health true (probed health false n b)).healthy ≡ true)
        × ((judge_probe health true (probed health false n b)).probe_failures ≡ 0)
  unfolding probed judge_probe probe_failed probe_passed
  probes_take_out health n b e f h w =
      let (up, count) = failing health n b e f h w in
      (up, ground (arith, up, count), ground (arith, up), ground (arith, up))

  passing :
      (health : HealthConfig) (n : ℕ) (b : Backend U)
      → b.healthy ≡ false
      → b.probe_successes ≡ 0
      → n < health.healthy_probe_threshold
      → health.healthy_probe_threshold < u32_mod
      → ((probed health true n b).healthy ≡ false) × ((probed health true n b).probe_successes ≡ n)
  unfolding probed judge_probe probe_passed
  passing health zero b e f h w = (e, f)
  passing health (suc n) b e f h w =
      let (down, count) = passing health n b e f (omega arith) w in ground (arith, down, count)

  -- An unhealthy node without live probes is brought back by exactly `healthy_probe_threshold` live
  -- probes in a row: fewer leave it out, and a failed probe among them starts the count anew.
  pub probes_bring_back :
      (health : HealthConfig) (n : ℕ) (b : Backend U)
      → b.healthy ≡ false
      → b.probe_successes ≡ 0
      → n < health.healthy_probe_threshold
      → health.healthy_probe_threshold < u32_mod
      → ((probed health true n b).healthy ≡ false)
        × ((probed health true (n + 1) b).healthy ≡ leb health.healthy_probe_threshold (n + 1))
        × ((judge_probe health false (probed health true n b)).healthy ≡ false)
        × ((judge_probe health false (probed health true n b)).probe_successes ≡ 0)
  unfolding probed judge_probe probe_failed probe_passed
  probes_bring_back health n b e f h w =
      let (down, count) = passing health n b e f h w in
      (down, ground (arith, down, count), ground (arith, down), ground (arith, down))

  last_probe-judge_probe :
      (health : HealthConfig) (live : Bool) (b : Backend U)
      → (judge_probe health live b).last_probe ≡ b.last_probe
  unfolding judge_probe probe_passed probe_failed
  last_probe-judge_probe health true b = ground arith
  last_probe-judge_probe health false b = ground arith

  just_probed :
      (upstream : Upstream U) (health : HealthConfig) (now : ℕ) (b : Backend U)
      → 0 < health.probe_interval_ms
      → b.last_probe ≡ some now
      → check_backend upstream health now b ≡ b
  unfolding check_backend
  just_probed upstream health now b h e =
      let early : due b.last_probe now health.probe_interval_ms ≡ false = rw e (ground arith) in
      rw early refl

  check_backend_idem :
      (upstream : Upstream U) (health : HealthConfig) (now : ℕ) (b : Backend U)
      → 0 < health.probe_interval_ms
      → check_backend upstream health now (check_backend upstream health now b)
        ≡ check_backend upstream health now b
  unfolding check_backend
  check_backend_idem upstream health now b h =
      elim (Bool-cases (due b.last_probe now health.probe_interval_ms)) [
        | inl y ↦ rw y (
            just_probed upstream health now _ h (
              last_probe-judge_probe health (upstream.probe b.upstream).0
                (record b { last_probe = some now; upstream = (upstream.probe b.upstream).1 })))
        | inr n ↦
            let same : check_backend upstream health now b ≡ b = rw n refl in
            ap (check_backend upstream health now) same
      ]

  -- However often it is called at one time, `run_health_checks` probes a node at most once, if the
  -- interval is not zero: a second call changes nothing.
  pub run_health_checks_idem :
      (upstream : Upstream U) (p : Pool U) (now : ℕ)
      → 0 < p.health.probe_interval_ms
      → run_health_checks upstream (run_health_checks upstream p now) now
        ≡ run_health_checks upstream p now
  unfolding run_health_checks
  run_health_checks_idem upstream p now h = ap (λ bs. record p { backends = bs }) (each p.backends)
    where
      each :
          (bs : List (Backend U))
          → map (check_backend upstream p.health now) (map (check_backend upstream p.health now) bs)
            ≡ map (check_backend upstream p.health now) bs
      each [] = refl
      each (b ∷ bs) = rw (check_backend_idem upstream p.health now b h, each bs) refl
