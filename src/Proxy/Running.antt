-- ===== src/Proxy/Running.antt =====
-- src/proxy.rs: what holds of a running engine. A proxy with its pools, its health checks and its
-- requests, counted, is followed from its start.
use echofront.Base.{
  ℕ, zero, suc, ◌+◌, ◌-◌, ◌*◌, ◌%◌, ◌≤◌, ◌<◌, ◌≡◌, refl, sym, ap, ◌∙◌, List, [], ◌∷◌, map, ok, All,
  All-map, All-append, All-mono, arith,
}
use echofront.Base.Int.{pos_part}
use echofront.Base.Words.{u32_mod}
use echofront.Breaker.{BreakerConfig}
use echofront.Breaker.Invariant.{FitsConfig}
use echofront.Http.{Request}
use echofront.Pool
use echofront.Pool.{
  Pool, Backend, Strategy, HealthConfig, set_strategy, add_backend, enable_ewma, new_backend,
}
use echofront.Ewma.{EwmaConfig}
use echofront.Pool.Health.{run_health_checks, check_backend}
use echofront.Pool.Select.Sticky.{RingFits}
use echofront.Pool.Select.Weights.{All-SameNodes}
use echofront.Pool.Tidy.{
  IsTidy, new_backend-IsTidy, failure_of-IsTidy, timed_success-IsTidy, check_backend-IsTidy,
  poll_backend-IsTidy,
}
use echofront.Proxy
use echofront.Proxy.{Proxy, HandleResult, set_sticky_header, add_pool, run_all_health_checks}
use echofront.Proxy.Handle.{handle}
use echofront.Proxy.Kept.{PoolsKept, handle_lem}
use echofront.Proxy.Promise.{insert_pool-All}
use echofront.Proxy.Operated.{checks-RingFits}
use echofront.Proxy.Reachable.{Built, Built-RingFits}
use echofront.Proxy.Trips.{Keeps}
use echofront.Retry
use echofront.Retry.{RetryBudget, RetryConfig, on_request, try_retry}
use echofront.Retry.Bound
use echofront.Retry.Bound.{Call, request, retry, requests, after, IsSensible, new-grants_bound}
use echofront.Router.{Route}
use echofront.Upstream.{Upstream}
use echofront.Proxy.Paid.{Paid, try_retry-Paid, on_request-Paid, cfg-run}

module _ {ℓ} {U : Type ℓ} where
  -- The pools that a program can build from new backends.
  pub data Assembled : Pool U → Type ℓ where
    empty :
        (name : List ℕ) (strategy : Strategy) (health : HealthConfig)
        → Assembled (Pool.new name strategy health)
    with_backend :
        (p : Pool U) (name : List ℕ) (weight : ℕ) (u : U) (health : HealthConfig)
        (cfg : BreakerConfig)
        → FitsConfig cfg
        → Assembled p
        → Assembled (add_backend p (new_backend name weight u health cfg))
    with_strategy : (p : Pool U) (s : Strategy) → Assembled p → Assembled (set_strategy p s)
    with_ewma : (p : Pool U) (cfg : EwmaConfig) → Assembled p → Assembled (enable_ewma p cfg)

  -- A proxy with the retry configuration `cfg` that has handled a number of requests.
  pub data Running (upstream : Upstream U) (cfg : RetryConfig) : ℕ → Proxy U → Type ℓ where
    started : (routes : List Route) → Running upstream cfg zero (Proxy.new routes cfg)
    header_set :
        (n : ℕ) (x : Proxy U) (header : List ℕ)
        → Running upstream cfg n x
        → Running upstream cfg n (set_sticky_header x header)
    pool_added :
        (n : ℕ) (x : Proxy U) (p : Pool U)
        → Running upstream cfg n x
        → Assembled p
        → Running upstream cfg n (add_pool x p)
    checked :
        (n : ℕ) (x : Proxy U) (now : ℕ)
        → Running upstream cfg n x
        → Running upstream cfg n (run_all_health_checks upstream x now)
    handled :
        (n : ℕ) (x x' : Proxy U) (now : ℕ) (req : Request) (r : HandleResult)
        → Running upstream cfg n x
        → x.budget.cfg.max_retries_per_request + 1 < u32_mod
        → handle upstream x now req ≡ ok (x', r)
        → Running upstream cfg (suc n) x'

  -- What the loop keeps of a running engine.
  loop_keeps : (cfg : RetryConfig) (n now : ℕ) → Keeps {U = U} now IsTidy (Paid cfg n)
  loop_keeps cfg n now = record {
    weighed = λ bs cs e _.
        All-SameNodes IsTidy
          (λ b w t. record {
            breaker = t.breaker;
            idle = t.idle;
            some_share = t.some_share;
            whole_share = t.whole_share;
          })
          bs cs e;
    asked = λ b u t. record {
      breaker = t.breaker;
      idle = idle_again b.in_flight t.idle;
      some_share = t.some_share;
      whole_share = t.whole_share;
    };
    failed = λ c. failure_of-IsTidy c now;
    succeeded = λ ewma. timed_success-IsTidy ewma now;
    spent = try_retry-Paid cfg n;
  }
    where
      idle_again : (n : ℕ) → n ≡ 0 → (n + 1) % u32_mod - 1 ≡ 0
      idle_again n h = omega arith

  pub Assembled-Built : (p : Pool U) → Assembled p → Built p
  Assembled-Built p (empty name strategy health) = Built.empty name strategy health
  Assembled-Built p' (with_backend p name weight u health cfg h a) =
      Built.with_backend p (new_backend name weight u health cfg) (Assembled-Built p a)
  Assembled-Built p' (with_strategy p s a) = Built.with_strategy p s (Assembled-Built p a)
  Assembled-Built p' (with_ewma p cfg a) = Built.with_ewma p cfg (Assembled-Built p a)

  Assembled-IsTidy : (p : Pool U) → Assembled p → All IsTidy p.backends
  unfolding Pool.new add_backend set_strategy enable_ewma
  Assembled-IsTidy p (empty name strategy health) = tt
  Assembled-IsTidy p' (with_backend p name weight u health cfg h a) =
      All-append IsTidy p.backends (new_backend name weight u health cfg ∷ [])
        (Assembled-IsTidy p a) (new_backend-IsTidy name weight u health cfg h, tt)
  Assembled-IsTidy p' (with_strategy p s a) = Assembled-IsTidy p a
  Assembled-IsTidy p' (with_ewma p cfg a) = Assembled-IsTidy p a

  checks-IsTidy :
      (upstream : Upstream U) (p : Pool U) (now : ℕ)
      → All IsTidy p.backends
      → All IsTidy (run_health_checks upstream p now).backends
  unfolding run_health_checks
  checks-IsTidy upstream p now a =
      All-map IsTidy (check_backend upstream p.health now)
        (check_backend-IsTidy upstream p.health now) p.backends a

  checks-kept :
      (upstream : Upstream U) (now : ℕ) (pools : List (List ℕ × Pool U))
      → All {A = List ℕ × Pool U} (λ e. RingFits e.1 × All IsTidy e.1.backends) pools
      → All {A = List ℕ × Pool U}
          (λ e. RingFits e.1 × All IsTidy e.1.backends)
          (map (λ e. (e.0, run_health_checks upstream e.1 now)) pools)
  checks-kept upstream now [] h = tt
  checks-kept upstream now (e ∷ pools) h = (
    (checks-RingFits upstream e.1 now h.0.0, checks-IsTidy upstream e.1 now h.0.1),
    checks-kept upstream now pools h.1,
  )

  -- The invariant of a running engine.
  record Engine (cfg : RetryConfig) (n : ℕ) (x : Proxy U) : Type ℓ where
    kept : PoolsKept IsTidy x
    paid : Paid cfg n x.budget x.total_retries

  Running-Engine :
      (upstream : Upstream U) (cfg : RetryConfig) (n : ℕ) (x : Proxy U)
      → Running upstream cfg n x
      → Engine cfg n x
  unfolding Proxy.new set_sticky_header add_pool run_all_health_checks Bound.run
  Running-Engine upstream cfg n x (started routes) = record {
    kept = tt;
    paid = ([], refl, unfold requests in refl, unfold Retry.new in refl);
  }
  Running-Engine upstream cfg n x' (header_set m x header run) =
      let e = Running-Engine upstream cfg m x run in record { kept = e.kept; paid = e.paid }
  Running-Engine upstream cfg n x' (pool_added m x p run a) =
      let e = Running-Engine upstream cfg m x run in
      record {
        kept =
            insert_pool-All (λ p. RingFits p × All IsTidy p.backends) p.name p x.pools
              (Built-RingFits p (Assembled-Built p a), Assembled-IsTidy p a) e.kept;
        paid = e.paid;
      }
  Running-Engine upstream cfg n x' (checked m x now run) =
      let e = Running-Engine upstream cfg m x run in
      record { kept = checks-kept upstream now x.pools e.kept; paid = e.paid }
  Running-Engine upstream cfg n x' (handled m x y now req r run fits done) =
      let e = Running-Engine upstream cfg m x run in
      let (z, s, done', kept, paid, _, _) =
        handle_lem IsTidy (Paid cfg (suc m)) now (loop_keeps cfg (suc m) now)
          (λ ewma line. poll_backend-IsTidy ewma line now) upstream x req fits e.kept
          (on_request-Paid cfg m x.budget x.total_retries e.paid) in
      let same : y ≡ z = cc in rw same (record { kept = kept; paid = paid })

  -- Between two requests, whatever the backends answered and whatever the times, every backend of a
  -- running engine has a valid breaker, no request in flight, and a share from 1 to 100 per cent.
  pub Running-IsTidy :
      (upstream : Upstream U) (cfg : RetryConfig) (n : ℕ) (x : Proxy U)
      → Running upstream cfg n x
      → All (λ e. All IsTidy e.1.backends) x.pools
  Running-IsTidy upstream cfg n x run =
      All-mono _ _ x.pools (λ e h. h.1) (Running-Engine upstream cfg n x run).kept

  -- The retries that a running engine has made are bounded by the budget: with a sensible
  -- configuration, their cost is at most a full bucket and the deposits of the `n` requests it has
  -- handled, whatever the backends answered.
  pub total_retries-bound :
      (upstream : Upstream U) (cfg : RetryConfig) (n : ℕ) (x : Proxy U)
      → Running upstream cfg n x
      → IsSensible cfg
      → x.total_retries * pos_part cfg.retry_cost_milli
        ≤ pos_part cfg.max_milli + n * pos_part cfg.deposit_milli
  total_retries-bound upstream cfg n x run h =
      let (calls, same, asked, granted) = (Running-Engine upstream cfg n x run).paid in
      let retries : x.total_retries ≡ (Bound.run (Retry.new cfg) calls).granted =
        sym granted ∙ ap (λ b. b.granted) same in
      rw (retries, ← asked) (new-grants_bound cfg calls h)

  -- A running engine handles one more request.
  pub Running-handle :
      (upstream : Upstream U) (cfg : RetryConfig) (n : ℕ) (x : Proxy U) (now : ℕ) (req : Request)
      → cfg.max_retries_per_request + 1 < u32_mod
      → Running upstream cfg n x
      → (x' : Proxy U) × (r : HandleResult) × (handle upstream x now req ≡ ok (x', r))
        × Running upstream cfg (suc n) x'
  Running-handle upstream cfg n x now req fits run =
      let e = Running-Engine upstream cfg n x run in
      let (calls, same, _, _) = e.paid in
      let kept : x.budget.cfg ≡ cfg =
        ap (λ b. b.cfg) same ∙ cfg-run (Retry.new cfg) calls ∙ unfold Retry.new in refl in
      let fits' : x.budget.cfg.max_retries_per_request + 1 < u32_mod = rw kept fits in
      let (x', r, done, _, _, _, _) =
        handle_lem IsTidy (Paid cfg (suc n)) now (loop_keeps cfg (suc n) now)
          (λ ewma line. poll_backend-IsTidy ewma line now) upstream x req fits' e.kept
          (on_request-Paid cfg n x.budget x.total_retries e.paid) in
      (x', r, done, handled n x x' now req r run fits' done)
