-- ===== src/Pool/Tidy.antt =====
-- src/pool.rs: what holds of every backend between two requests, and outlasts each operation.
use echofront.Base.{ℕ, ◌≤◌, ◌≡◌, ◌∙◌, refl, Bool, true, false, List, Option, none, some, arith}
use echofront.Breaker
use echofront.Breaker.{BreakerConfig}
use echofront.Breaker.Invariant
use echofront.Breaker.Invariant.{
  FitsConfig, new-IsValid, poll-IsValid, on_success-IsValid, on_failure-IsValid,
}
use echofront.Ewma.{EwmaConfig}
use echofront.Pool.{Backend, HealthConfig, new_backend}
use echofront.Pool.Change.{timed_success}
use echofront.Pool.Health.{check_backend, judge_probe, probe_passed, probe_failed}
use echofront.Pool.Latency.{poll_backend-ramp}
use echofront.Pool.Outcome.{failure_of, eject_outlier, success_of, fold_latency}
use echofront.Pool.Poll.{poll_backend, end_ejection, reinstate, ramp_up, judge, over_line}
use echofront.Upstream.{Upstream}

module _ {ℓ} {U : Type ℓ} where
  -- The breaker is valid, no request is in flight, and the share is a percentage above zero.
  pub record IsTidy (b : Backend U) : Type 0 where
    pub breaker : Invariant.IsValid b.breaker
    pub idle : b.in_flight ≡ 0
    pub some_share : 1 ≤ b.ramp_percent
    pub whole_share : b.ramp_percent ≤ 100

  pub new_backend-IsTidy :
      (name : List ℕ) (weight : ℕ) (u : U) (health : HealthConfig) (cfg : BreakerConfig)
      → FitsConfig cfg
      → IsTidy (new_backend name weight u health cfg)
  unfolding new_backend
  new_backend-IsTidy name weight u health cfg h = record {
    breaker = new-IsValid cfg h;
    idle = refl;
    some_share = omega arith;
    whole_share = omega arith;
  }

  -- What an operation may change and stay tidy: anything but these three.
  alike :
      (b c : Backend U)
      → Invariant.IsValid c.breaker
      → c.in_flight ≡ b.in_flight
      → c.ramp_percent ≡ b.ramp_percent
      → IsTidy b
      → IsTidy c
  alike b c v f r t = record {
    breaker = v;
    idle = f ∙ t.idle;
    some_share = rw r t.some_share;
    whole_share = rw r t.whole_share;
  }

  failure_of_alike :
      (c : HealthConfig) (now : ℕ) (b : Backend U)
      → ((failure_of c now b).breaker ≡ Breaker.on_failure b.breaker now)
        × ((failure_of c now b).in_flight ≡ b.in_flight)
        × ((failure_of c now b).ramp_percent ≡ b.ramp_percent)
  unfolding failure_of eject_outlier
  failure_of_alike c now b = ground arith

  pub failure_of-IsTidy :
      (c : HealthConfig) (now : ℕ) (b : Backend U) → IsTidy b → IsTidy (failure_of c now b)
  failure_of-IsTidy c now b t =
      let (v, f, r) = failure_of_alike c now b in
      alike b (failure_of c now b) (rw v (on_failure-IsValid b.breaker now t.breaker)) f r t

  pub timed_success-IsTidy :
      (ewma : Option EwmaConfig) (now latency : ℕ) (b : Backend U)
      → IsTidy b
      → IsTidy (timed_success ewma now latency b)
  unfolding success_of fold_latency
  timed_success-IsTidy none now latency b t =
      alike b _ (on_success-IsValid b.breaker now t.breaker) refl refl t
  timed_success-IsTidy (some cfg) now latency b t =
      alike b _ (on_success-IsValid b.breaker now t.breaker) refl refl t

  judge_probe_alike :
      (health : HealthConfig) (live : Bool) (b : Backend U)
      → ((judge_probe health live b).breaker ≡ b.breaker)
        × ((judge_probe health live b).in_flight ≡ b.in_flight)
        × ((judge_probe health live b).ramp_percent ≡ b.ramp_percent)
  unfolding judge_probe probe_passed probe_failed
  judge_probe_alike health true b = ground arith
  judge_probe_alike health false b = ground arith

  check_backend_alike :
      (upstream : Upstream U) (health : HealthConfig) (now : ℕ) (b : Backend U)
      → ((check_backend upstream health now b).breaker ≡ b.breaker)
        × ((check_backend upstream health now b).in_flight ≡ b.in_flight)
        × ((check_backend upstream health now b).ramp_percent ≡ b.ramp_percent)
  unfolding check_backend
  check_backend_alike upstream health now b =
      let (live, u) = upstream.probe b.upstream in
      let probed : Backend U = record b { last_probe = some now; upstream = u } in
      ground (arith, judge_probe_alike health live probed)

  pub check_backend-IsTidy :
      (upstream : Upstream U) (health : HealthConfig) (now : ℕ) (b : Backend U)
      → IsTidy b
      → IsTidy (check_backend upstream health now b)
  check_backend-IsTidy upstream health now b t =
      let (v, f, r) = check_backend_alike upstream health now b in
      alike b (check_backend upstream health now b) (rw v t.breaker) f r t

  end_ejection_alike :
      (ewma : Option EwmaConfig) (now : ℕ) (b : Backend U)
      → ((end_ejection ewma now b).breaker ≡ b.breaker)
        × ((end_ejection ewma now b).in_flight ≡ b.in_flight)
  unfolding end_ejection reinstate
  end_ejection_alike none now b = ground arith
  end_ejection_alike (some cfg) now b = ground arith

  ramp_up_alike :
      (cfg : EwmaConfig) (now : ℕ) (b : Backend U)
      → ((ramp_up cfg now b).breaker ≡ b.breaker) × ((ramp_up cfg now b).in_flight ≡ b.in_flight)
  unfolding ramp_up
  ramp_up_alike cfg now b = ground arith

  judge_alike :
      (cfg : EwmaConfig) (line now : ℕ) (b : Backend U)
      → ((judge cfg line now b).breaker ≡ b.breaker)
        × ((judge cfg line now b).in_flight ≡ b.in_flight)
  unfolding judge over_line
  judge_alike cfg line now b = ground arith

  poll_backend_alike :
      (ewma : Option EwmaConfig) (line now : ℕ) (b : Backend U)
      → ((poll_backend ewma line now b).breaker ≡ Breaker.poll b.breaker now)
        × ((poll_backend ewma line now b).in_flight ≡ b.in_flight)
  unfolding poll_backend
  poll_backend_alike none line now b =
      end_ejection_alike none now (record b { breaker = Breaker.poll b.breaker now })
  poll_backend_alike (some cfg) line now b =
      let polled : Backend U = record b { breaker = Breaker.poll b.breaker now } in
      let back = end_ejection (some cfg) now polled in
      let (v, f) = end_ejection_alike (some cfg) now polled in
      let (v', f') = ramp_up_alike cfg now back in
      let (v'', f'') = judge_alike cfg line now (ramp_up cfg now back) in
      (v'' ∙ v' ∙ v, f'' ∙ f' ∙ f)

  pub poll_backend-IsTidy :
      (ewma : Option EwmaConfig) (line now : ℕ) (b : Backend U)
      → IsTidy b
      → IsTidy (poll_backend ewma line now b)
  poll_backend-IsTidy ewma line now b t =
      let (v, f) = poll_backend_alike ewma line now b in
      let ramp = poll_backend-ramp ewma line now b t.some_share t.whole_share in
      record {
        breaker = rw v (poll-IsValid b.breaker now t.breaker);
        idle = f ∙ t.idle;
        some_share = ramp.0;
        whole_share = ramp.1;
      }
