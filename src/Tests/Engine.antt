-- ===== src/Tests/Engine.antt =====
-- src/proxy.rs at a concrete input: a proxy with one service of two backends, the first of which
-- times out once.
use echofront.Base.{
  ℕ, ◌≡◌, refl, Bool, true, false, List, [], ◌∷◌, Option, none, some, Exec, ok, ◌>>=◌, map, arith,
  All, ◌*◌, ◌≤◌, ◌+◌,
}
use echofront.Base.Int.{◌+ℤ◌, pos_part}
use echofront.Base.Words.{wrap_i64}
use echofront.Breaker
use echofront.Http.{Request, bytes, get}
use echofront.Pool
use echofront.Pool.{
  Pool, Backend, round_robin, default_health, add_backend, new_backend, is_available,
}
use echofront.Proxy
use echofront.Proxy.{Proxy, Reply, HandleResult, add_pool}
use echofront.Proxy.Handle.{Trip, loop, depart, handle}
use echofront.Proxy.Ends.{loop_ends}
use echofront.Pool.Select.Sticky.{RingFits}
use echofront.Proxy.Handled.{PoolsFit, handle_safe}
use echofront.Proxy.Promise.{Handled}
use echofront.Proxy.Running.{Running, Running-IsTidy, total_retries-bound}
use echofront.Proxy.Running
use echofront.Pool.Tidy.{IsTidy}
use echofront.Breaker.Invariant.{FitsConfig}
use echofront.Proxy.Reachable.{
  Built, Built-RingFits, Reachable, started, pool_added, empty, with_backend, Reachable-PoolsFit,
  Reachable-handle,
}
use echofront.Retry
use echofront.Router.{Route, route}
use echofront.Tests.Nodes.{flaky}

abbrev pub routes : List Route
routes = record { host = none; path_prefix = bytes "/"; service = bytes "web" } ∷ []

abbrev pub request : Request
request = record {
  method = get;
  path = bytes "/";
  version = bytes "HTTP/1.1";
  headers = [];
  body = [];
}

abbrev first : Backend ℕ
unfolding new_backend
first = new_backend (bytes "a") 1 1 default_health Breaker.default_config

abbrev second : Backend ℕ
unfolding new_backend
second = new_backend (bytes "b") 1 0 default_health Breaker.default_config

abbrev web : Pool ℕ
unfolding Pool.new add_backend
web = add_backend (add_backend (Pool.new (bytes "web") round_robin default_health) first) second

abbrev web-Built : Built web
unfolding web first second
web-Built =
    with_backend (add_backend (Pool.new (bytes "web") round_robin default_health) first) second (
      with_backend (Pool.new (bytes "web") round_robin default_health) first
        (empty (bytes "web") round_robin default_health))

web-RingFits : RingFits web
web-RingFits = Built-RingFits web web-Built

abbrev gateway : Proxy ℕ
unfolding Proxy.new add_pool
gateway = add_pool (Proxy.new routes Retry.default_config) web

gateway-Reachable : Reachable flaky gateway
unfolding gateway web
gateway-Reachable =
    pool_added (Proxy.new routes Retry.default_config) web (started routes Retry.default_config)
      web-Built

Reachable-handle_example :
    (x' : Proxy ℕ) × (r : HandleResult) × (handle flaky gateway 100 request ≡ ok (x', r))
    × Reachable flaky x'
    × Handled (route gateway.routes request) gateway.budget.cfg.max_retries_per_request r
unfolding gateway Proxy.new add_pool Retry.new
Reachable-handle_example =
    Reachable-handle flaky gateway 100 request gateway-Reachable (omega arith)

handle_safe_test :
    (x' : Proxy ℕ) × (r : HandleResult) × (handle flaky gateway 100 request ≡ ok (x', r))
    × PoolsFit x'
    × Handled (route gateway.routes request) gateway.budget.cfg.max_retries_per_request r
unfolding gateway Proxy.new add_pool Retry.new
handle_safe_test =
    handle_safe flaky gateway 100 request (omega arith)
      (Reachable-PoolsFit flaky gateway gateway-Reachable)

-- The same proxy, followed through one request.
abbrev fits_default : FitsConfig Breaker.default_config
fits_default = record { failures_u32 = omega arith; successes_u32 = omega arith }

abbrev gateway-Running : Running flaky Retry.default_config 0 gateway
unfolding gateway web first second
gateway-Running =
    Running.pool_added 0 (Proxy.new routes Retry.default_config) web (Running.started routes) (
      Running.with_backend (add_backend (Pool.new (bytes "web") round_robin default_health) first)
        (bytes "b") 1 0 default_health Breaker.default_config fits_default
        (Running.with_backend (Pool.new (bytes "web") round_robin default_health) (bytes "a") 1 1
          default_health Breaker.default_config fits_default
          (Running.empty (bytes "web") round_robin default_health)))

loop_ends_example :
    (reply : Reply) × (t : Trip ℕ) × ((fuel : ℕ)
      → 3 ≤ fuel
      → loop fuel flaky 100 none request 2 (depart gateway web) ≡ ok (reply, t))
loop_ends_example = loop_ends flaky gateway web 100 none request 2 (omega arith) web-RingFits

after_request : Proxy ℕ
after_request = Reachable-handle_example.0

abbrev after_request-Running : Running flaky Retry.default_config 1 after_request
unfolding after_request gateway Proxy.new add_pool Retry.new
after_request-Running =
    let (x', r, done, _, _) = Reachable-handle_example in
    Running.handled 0 gateway x' 100 request r gateway-Running (omega arith) done

Running-IsTidy_example : All (λ e. All IsTidy e.1.backends) after_request.pools
Running-IsTidy_example =
    Running-IsTidy flaky Retry.default_config 1 after_request after_request-Running

total_retries-bound_example :
    after_request.total_retries * pos_part Retry.default_config.retry_cost_milli
    ≤ pos_part Retry.default_config.max_milli + 1 * pos_part Retry.default_config.deposit_milli
total_retries-bound_example =
    total_retries-bound flaky Retry.default_config 1 after_request after_request-Running (record {
      deposit_nonneg = omega arith;
      cost_positive = omega arith;
      max_nonneg = omega arith;
      fits_i64 = omega arith;
    })

-- The run itself: two attempts, and the answer of the second backend.
statuses : Exec (List (ℕ × Bool) × Option ℕ)
unfolding handle gateway web
statuses = handle flaky gateway 100 request >>= λ (x, r).
    ok (map (λ a. (a.backend, a.ok)) r.attempts, r.selected)

failover_test : statuses ≡ ok ((0, false) ∷ (1, true) ∷ [], some 0)
unfolding statuses is_available first wrap_i64 ◌+ℤ◌
failover_test = refl
