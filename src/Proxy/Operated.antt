-- ===== src/Proxy/Operated.antt =====
-- src/pool.rs and src/proxy.rs, `pool_mut`: any operation of a pool keeps the cached ring fitting, so
-- a program may call them in any order.
use echofront.Base.{
  ℕ, ◌≡◌, Bool, true, false, arith, inl, inr, refl, ltb, ltb→lt, Bool-cases, List, Option, some,
  Exec, ok, panic, length, index, index-lt,
}
use echofront.Ewma.{EwmaConfig}
use echofront.Http.{Request}
use echofront.Pool.{
  Pool, Backend, Strategy, HealthConfig, change, set_strategy, add_backend, enable_ewma, begin, end,
}
use echofront.Pool.Change.{
  timed_success, changed, change_lem, changed-RingFits, timed_success_name, failure_name,
  record_success_latency_lem,
}
use echofront.Pool.Outcome.{
  record_success, record_success_latency, record_failure, success_of, failure_of,
}
use echofront.Pool.Poll.{poll}
use echofront.Pool.Health.{
  run_health_checks, check_backend, judge_probe, probe_passed, probe_failed,
}
use echofront.Pool.Polled.{poll-RingFits}
use echofront.Pool.Select.{select}
use echofront.Pool.Select.Invariant.{select_safe}
use echofront.Pool.Select.Names.{RingFits-names, names-map}
use echofront.Pool.Select.Sticky.{RingFits}
use echofront.Proxy.{dispatch}
use echofront.Upstream.{Upstream, UpstreamReply}

module _ {ℓ} {U : Type ℓ} where
  -- One call of a method of `Pool` that changes it.
  pub data Operated (upstream : Upstream U) : Pool U → Pool U → Type ℓ where
    backend_added : (p : Pool U) (b : Backend U) → Operated upstream p (add_backend p b)
    strategy_set : (p : Pool U) (s : Strategy) → Operated upstream p (set_strategy p s)
    ewma_enabled : (p : Pool U) (cfg : EwmaConfig) → Operated upstream p (enable_ewma p cfg)
    polled : (p : Pool U) (now : ℕ) → Operated upstream p (poll p now)
    selected :
        (p p' : Pool U) (now : ℕ) (key : Option (List ℕ)) (exclude : List ℕ) (choice : Option ℕ)
        → select p now key exclude ≡ ok (p', choice)
        → Operated upstream p p'
    begun : (p p' : Pool U) (idx : ℕ) → begin p idx ≡ ok p' → Operated upstream p p'
    ended : (p p' : Pool U) (idx : ℕ) → end p idx ≡ ok p' → Operated upstream p p'
    succeeded :
        (p p' : Pool U) (idx now : ℕ) → record_success p idx now ≡ ok p' → Operated upstream p p'
    timed :
        (p p' : Pool U) (idx now latency : ℕ)
        → record_success_latency p idx now latency ≡ ok p'
        → Operated upstream p p'
    failed :
        (p p' : Pool U) (idx now : ℕ) → record_failure p idx now ≡ ok p' → Operated upstream p p'
    asked :
        (p p' : Pool U) (idx : ℕ) (req : Request) (reply : UpstreamReply)
        → dispatch upstream p idx req ≡ ok (reply, p')
        → Operated upstream p p'
    probed : (p : Pool U) (now : ℕ) → Operated upstream p (run_health_checks upstream p now)

  change-RingFits :
      (p p' : Pool U) (idx : ℕ) (f : Backend U → Backend U)
      → ((b : Backend U) → (f b).name ≡ b.name)
      → change p idx f ≡ ok p'
      → RingFits p
      → RingFits p'
  unfolding change
  change-RingFits p p' idx f h e fits = elim (Bool-cases (ltb idx (length p.backends))) [
    | inl y ↦
        let same : changed p idx f ≡ p' = cc (rw y at e) in
        rw (← same) (changed-RingFits p idx f h fits)
    | inr n ↦ cc (rw n at e)
  ]

  timed-RingFits :
      (p p' : Pool U) (idx now latency : ℕ)
      → record_success_latency p idx now latency ≡ ok p'
      → RingFits p
      → RingFits p'
  unfolding record_success_latency record_success change
  timed-RingFits p p' idx now latency e fits = elim (Bool-cases (ltb idx (length p.backends))) [
    | inl y ↦
        let f = timed_success p.ewma now latency in
        let same : changed p idx f ≡ p' =
          cc (record_success_latency_lem p idx now latency (ltb→lt idx _ y), e) in
        rw (← same) (changed-RingFits p idx f (timed_success_name p.ewma now latency) fits)
    | inr n ↦ cc (rw n at e)
  ]

  dispatch-RingFits :
      (upstream : Upstream U) (p p' : Pool U) (idx : ℕ) (req : Request) (reply : UpstreamReply)
      → dispatch upstream p idx req ≡ ok (reply, p')
      → RingFits p
      → RingFits p'
  unfolding dispatch
  dispatch-RingFits upstream p p' idx req reply e fits = go (index p.backends idx) refl
    where
      go : (m : Exec (Backend U)) → index p.backends idx ≡ m → RingFits p'
      go panic at = cc (rw at at e)
      go (ok b) at =
          let u = (upstream.send req b.upstream).1 in
          let same : changed p idx (λ b. record b { upstream = u }) ≡ p' = cc (
            rw (at, change_lem p idx (λ b. record b { upstream = u }) (index-lt p.backends idx at))
              at e) in
          rw (← same) (changed-RingFits p idx (λ b. record b { upstream = u }) (λ b. refl) fits)

  name-judge_probe :
      (health : HealthConfig) (live : Bool) (b : Backend U)
      → (judge_probe health live b).name ≡ b.name
  unfolding judge_probe probe_passed probe_failed
  name-judge_probe health true b = ground arith
  name-judge_probe health false b = ground arith

  pub name-check_backend :
      (upstream : Upstream U) (health : HealthConfig) (now : ℕ) (b : Backend U)
      → (check_backend upstream health now b).name ≡ b.name
  unfolding check_backend
  name-check_backend upstream health now b = ground (
    arith,
    name-judge_probe health (upstream.probe b.upstream).0
        (record b { last_probe = some now; upstream = (upstream.probe b.upstream).1 }),
  )

  pub checks-RingFits :
      (upstream : Upstream U) (p : Pool U) (now : ℕ)
      → RingFits p
      → RingFits (run_health_checks upstream p now)
  unfolding run_health_checks
  checks-RingFits upstream p now = RingFits-names p (run_health_checks upstream p now) refl refl (
      names-map (check_backend upstream p.health now) p.backends
        (name-check_backend upstream p.health now))

  pub Operated-RingFits :
      (upstream : Upstream U) (p p' : Pool U) → Operated upstream p p' → RingFits p → RingFits p'
  unfolding add_backend set_strategy enable_ewma begin end record_success record_failure
  Operated-RingFits upstream p p' (backend_added q b) f = record {
    vnodes_pos = f.vnodes_pos;
    built = λ n. absurd (n refl);
  }
  Operated-RingFits upstream p p' (strategy_set q s) f = record {
    vnodes_pos = f.vnodes_pos;
    built = f.built;
  }
  Operated-RingFits upstream p p' (ewma_enabled q cfg) f = record {
    vnodes_pos = f.vnodes_pos;
    built = f.built;
  }
  Operated-RingFits upstream p p' (polled q now) f = poll-RingFits p now f
  Operated-RingFits upstream p p' (selected q q' now key exclude choice e) f =
      let (p2, choice2, e2, sel, _) = select_safe p now key exclude f in
      let same : p2 ≡ p' = cc in rw (← same) sel.fits
  Operated-RingFits upstream p p' (begun q q' idx e) f = change-RingFits p p' idx _ (λ b. refl) e f
  Operated-RingFits upstream p p' (ended q q' idx e) f = change-RingFits p p' idx _ (λ b. refl) e f
  Operated-RingFits upstream p p' (succeeded q q' idx now e) f =
      change-RingFits p p' idx (success_of now) (λ b. unfold success_of in refl) e f
  Operated-RingFits upstream p p' (timed q q' idx now latency e) f =
      timed-RingFits p p' idx now latency e f
  Operated-RingFits upstream p p' (failed q q' idx now e) f =
      change-RingFits p p' idx (failure_of p.health now) (failure_name p.health now) e f
  Operated-RingFits upstream p p' (asked q q' idx req reply e) f =
      dispatch-RingFits upstream p p' idx req reply e f
  Operated-RingFits upstream p p' (probed q now) f = checks-RingFits upstream p now f
