-- ===== src/Tests/Account.antt =====
-- src/proxy.rs at a concrete input: what a request counts when the only backend fails.
use echofront.Base.{All, ℕ, ◌≡◌, refl, Exec, ok, ◌>>=◌, arith, length}
use echofront.Base.Int.{◌+ℤ◌, ◌-ℤ◌}
use echofront.Base.Words.{wrap_i64, add_u64}
use echofront.Breaker
use echofront.Http.{bytes}
use echofront.Pool
use echofront.Pool.{Pool, round_robin, default_health, add_backend, new_backend, is_available}
use echofront.Proxy
use echofront.Proxy.{Proxy, HandleResult, add_pool, sticky_key}
use echofront.Proxy.Account.{handle-Settled, attempts-WasAvailable}
use echofront.Proxy.Handle.{handle}
use echofront.Proxy.Handled.{PoolsFit}
use echofront.Proxy.Promise.{WasAvailable, Settled}
use echofront.Proxy.Reachable.{
  Reachable, started, pool_added, empty, with_backend, Reachable-PoolsFit,
}
use echofront.Pool.Ranges.{new_backend-InRange}
use echofront.Proxy.Typed.{IsTyped, handle-IsTyped, add_pool-IsTyped, new-IsTyped}
use echofront.Retry
use echofront.Router.{route}
use echofront.Tests.Engine.{routes, request}
use echofront.Tests.Nodes.{flaky}

abbrev lonely : Pool ℕ
unfolding Pool.new add_backend new_backend
lonely =
    add_backend (Pool.new (bytes "web") round_robin default_health)
      (new_backend (bytes "a") 1 9 default_health Breaker.default_config)

abbrev outpost : Proxy ℕ
unfolding Proxy.new add_pool
outpost = add_pool (Proxy.new routes Retry.default_config) lonely

outpost-Reachable : Reachable flaky outpost
unfolding outpost lonely
outpost-Reachable =
    pool_added (Proxy.new routes Retry.default_config) lonely (started routes Retry.default_config)
      (with_backend (Pool.new (bytes "web") round_robin default_health)
        (new_backend (bytes "a") 1 9 default_health Breaker.default_config)
        (empty (bytes "web") round_robin default_health))

outpost-PoolsFit : PoolsFit outpost
outpost-PoolsFit = Reachable-PoolsFit flaky outpost outpost-Reachable

attempts-WasAvailable_example :
    (x' : Proxy ℕ) × (r : HandleResult) × (handle flaky outpost 100 request ≡ ok (x', r))
    × All (λ a. WasAvailable outpost 100 r.service a.backend) r.attempts
unfolding outpost Proxy.new add_pool Retry.new
attempts-WasAvailable_example =
    attempts-WasAvailable flaky outpost 100 request outpost-Reachable (omega arith)

handle-Settled_example :
    (x' : Proxy ℕ) × (r : HandleResult) × (handle flaky outpost 100 request ≡ ok (x', r))
    × (r.service ≡ route outpost.routes request)
    × Settled 100 (sticky_key outpost request) (add_u64 outpost.total_requests 1) outpost x' r
unfolding outpost Proxy.new add_pool Retry.new
handle-Settled_example = handle-Settled flaky outpost 100 request (omega arith) outpost-PoolsFit

-- One attempt, no failover, and yet one retry counted and paid.
counts : Exec (ℕ × ℕ × ℕ × ℕ)
unfolding handle outpost lonely
counts = handle flaky outpost 100 request >>= λ (x, r).
    ok (length r.attempts, x.total_failovers, x.total_retries, x.budget.granted)

lonely_test : counts ≡ ok (1, 0, 1, 1)
unfolding counts is_available wrap_i64 ◌+ℤ◌ ◌-ℤ◌
lonely_test = refl

outpost-IsTyped : IsTyped outpost
unfolding outpost lonely new_backend Proxy.new
outpost-IsTyped =
    add_pool-IsTyped (Proxy.new routes Retry.default_config) lonely
      (new_backend-InRange (bytes "a") 1 9 default_health Breaker.default_config (omega arith), tt)
      (new-IsTyped routes Retry.default_config (omega arith, omega arith))

handle-IsTyped_test :
    (x' : Proxy ℕ) × (r : HandleResult) × (handle flaky outpost 100 request ≡ ok (x', r))
    × PoolsFit x'
    × IsTyped x'
unfolding outpost Proxy.new add_pool Retry.new
handle-IsTyped_test =
    handle-IsTyped flaky outpost 100 request (omega arith) (omega arith) outpost-PoolsFit
      outpost-IsTyped
