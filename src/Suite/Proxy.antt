-- ===== src/Suite/Proxy.antt =====
-- src/proxy.rs, its tests.
use echofront.Base.{
  ℕ, zero, suc, ◌≡◌, refl, Bool, true, false, not, ◌&&◌, ◌||◌, ◌==◌, List, [], ◌∷◌, Option, none,
  some, Exec, ok, panic, ◌>>=◌, index, length,
}
use echofront.Base.Int.{◌+ℤ◌, ◌-ℤ◌}
use echofront.Base.Words.{wrap_i64}
use echofront.Breaker.{opened}
use echofront.HashRing.{mix64, fnv1a_64, lookup_from}
use echofront.HashRing.Map.{insert, first_from}
use echofront.Http.{Request, bytes, get, new_request, with_header, to_ascii_lowercase}
use echofront.Pool
use echofront.Pool.{
  Pool, Backend, round_robin, consistent_hash, default_health, add_backend, new_backend,
  is_available,
}
use echofront.Proxy
use echofront.Proxy.{
  Proxy, Reply, success, failure, ProxyError, no_route, HandleResult, result_status, succeeded,
  add_pool, pool_of,
}
use echofront.Proxy.Handle.{handle}
use echofront.Retry
use echofront.Router.{add, new_route}
use echofront.Suite.{all_of, same_state, same_choice}
use echofront.Suite.Pool.{backend}
use echofront.Upstream.{timeout, connection}
use echofront.Upstream.Mock.{
  MockUpstream, new_mock, push_many, always_failing, step_fail, mock, send_mock,
}

-- `proxy_with`.
abbrev proxy_with : Pool MockUpstream → Proxy MockUpstream
proxy_with pool =
    add_pool (Proxy.new (add [] (new_route none (bytes "/") pool.name)) Retry.default_config) pool

-- `Request::get(path).with_header("Host", "h")`.
abbrev request : List ℕ → Request
request path = with_header (new_request get path) (bytes "Host") (bytes "h")

abbrev retry_fails_over_to_healthy_backend : Exec Bool
retry_fails_over_to_healthy_backend = do
  let bad = push_many (new_mock (bytes "bad")) (step_fail timeout ∷ [])
  let pool =
      add_backend
        (add_backend (Pool.new (bytes "svc") round_robin default_health)
          (backend (bytes "bad") 1 bad))
        (backend (bytes "good") 1 (new_mock (bytes "good")))
  (proxy, res) ← handle mock (proxy_with pool) 0 (request (bytes "/"))
  first ← index res.attempts 0
  second ← index res.attempts 1
  ok (
      all_of (
        succeeded res
        ∷ (result_status res == 200)
        ∷ (length res.attempts == 2)
        ∷ not first.ok
        ∷ second.ok
        ∷ second.is_retry
        ∷ (proxy.total_failovers == 1)
        ∷ []))

retry_fails_over_to_healthy_backend_test : retry_fails_over_to_healthy_backend ≡ ok true
unfolding Pool.new add_backend new_backend Proxy.new add_pool add new_route Retry.new with_header
    new_request handle to_ascii_lowercase send_mock is_available wrap_i64 ◌+ℤ◌ ◌-ℤ◌ succeeded
    result_status
retry_fails_over_to_healthy_backend_test = refl

abbrev is_no_route : Reply → Bool
is_no_route (failure no_route) = true
is_no_route _ = false

abbrev no_route_returns_404 : Exec Bool
no_route_returns_404 = do
  let routes = add [] (new_route none (bytes "/only") (bytes "svc"))
  let proxy =
      add_pool (Proxy.new routes Retry.default_config)
        (Pool.new (bytes "svc") round_robin default_health)
  (_, res) ← handle mock proxy 0 (request (bytes "/other"))
  ok ((result_status res == 404) && is_no_route res.response)

no_route_returns_404_test : no_route_returns_404 ≡ ok true
unfolding Pool.new Proxy.new add_pool add new_route Retry.new with_header new_request handle
    to_ascii_lowercase wrap_i64 ◌+ℤ◌ result_status
no_route_returns_404_test = refl

-- `n` requests, and the status of the last.
abbrev last_status : ℕ → ℕ → Proxy MockUpstream → Exec (Proxy MockUpstream × ℕ)
last_status zero last proxy = ok (proxy, last)
last_status (suc n) last proxy = handle mock proxy 0 (request (bytes "/")) >>= λ (proxy', res).
    last_status n (result_status res) proxy'

abbrev all_unhealthy_returns_503 : Exec Bool
all_unhealthy_returns_503 = do
  let pool =
      add_backend (Pool.new (bytes "svc") round_robin default_health)
        (backend (bytes "bad") 1 (always_failing (bytes "bad") connection))
  (proxy, last) ← last_status 10 0 (proxy_with pool)
  elim (pool_of proxy (bytes "svc")) [
    | none ↦ panic
    | some p ↦ do
      b ← index p.backends 0
      ok (((last == 502) || (last == 503)) && same_state b.breaker.state opened)
  ]

all_unhealthy_returns_503_test : all_unhealthy_returns_503 ≡ ok true
unfolding Pool.new add_backend new_backend Proxy.new add_pool add new_route Retry.new with_header
    new_request handle to_ascii_lowercase send_mock is_available wrap_i64 ◌+ℤ◌ ◌-ℤ◌ result_status
    pool_of
all_unhealthy_returns_503_test = refl

-- `n` more requests of a session, each answered by the node that answered first.
abbrev stays : ℕ → Request → Option ℕ → Proxy MockUpstream → Exec Bool
stays zero req first proxy = ok true
stays (suc n) req first proxy = handle mock proxy 0 req >>= λ (proxy', res).
    stays n req first proxy' >>= λ rest. ok (same_choice res.selected first && rest)

abbrev sticky_key_routes_consistently : Exec Bool
sticky_key_routes_consistently = do
  let pool =
      add_backend
        (add_backend
          (add_backend (Pool.new (bytes "svc") consistent_hash default_health)
            (backend (bytes "a") 1 (new_mock (bytes "a"))))
          (backend (bytes "b") 1 (new_mock (bytes "b"))))
        (backend (bytes "c") 1 (new_mock (bytes "c")))
  let req = with_header (request (bytes "/")) (bytes "X-Session-Id") (bytes "user-777")
  (proxy, res) ← handle mock (proxy_with pool) 0 req
  stays 20 req res.selected proxy

sticky_key_routes_consistently_test : sticky_key_routes_consistently ≡ ok true
unfolding Pool.new add_backend new_backend Proxy.new add_pool add new_route Retry.new with_header
    new_request handle to_ascii_lowercase send_mock is_available wrap_i64 ◌+ℤ◌ ◌-ℤ◌ insert mix64
    fnv1a_64 lookup_from first_from
sticky_key_routes_consistently_test = refl
