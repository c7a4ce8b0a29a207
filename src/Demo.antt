-- ===== src/Demo.antt =====
-- src/bin/echofront.rs: the proxies and the requests of the command line's two scenarios.
-- `Print` has the choice between them and what they print.
pub mod Runs
pub mod Print
pub mod Shop
pub mod Spread
use echofront.Base.{
  ℕ, zero, suc, ◌%◌, List, [], ◌∷◌, ◌++◌, Option, none, some, Exec, ok, panic, ◌>>=◌, true, index,
}
use echofront.Base.Float.{Float}
use echofront.Breaker.{BreakerConfig}
use echofront.Clock
use echofront.Clock.{ManualClock, advance, now_millis}
use echofront.Ewma.{DistributionRow}
use echofront.Http.{Request, bytes, get, new_request, with_header}
use echofront.Pool
use echofront.Pool.{
  Pool, HealthConfig, Strategy, round_robin, weighted, least_connections, consistent_hash,
  new_backend, add_backend,
}
use echofront.Pool.Report.{distribution}
use echofront.Proxy
use echofront.Proxy.{Proxy, HandleResult, add_pool, decimal, find_pool, pool_of}
use echofront.Proxy.Handle.{handle}
use echofront.Retry
use echofront.Router.{Route, new_route, add}
use echofront.Upstream.{server_error}
use echofront.Upstream.Mock.{MockUpstream, new_mock, push_many, step_ok, step_fail, mock}

abbrev pub health_cfg : HealthConfig
health_cfg = record {
  probe_interval_ms = 1_000;
  unhealthy_probe_threshold = 2;
  healthy_probe_threshold = 2;
  outlier_consecutive_failures = 3;
  ejection_base_ms = 2_500;
  start_healthy = true;
}

abbrev pub breaker_cfg : BreakerConfig
breaker_cfg = record {
  failure_threshold = 5;
  success_threshold = 2;
  cooldown_ms = 3_000;
  half_open_max_calls = 2;
}

-- A scenario's proxy and its clock.
pub record Scene : Type 0 where
  pub proxy : Proxy MockUpstream
  pub clock : ManualClock

-- One node of the pool, as each is added.
unfoldable pub add_node : Pool MockUpstream → List ℕ → ℕ → MockUpstream → Pool MockUpstream
unfolding add_backend new_backend
add_node pool name weight up = add_backend pool (new_backend name weight up health_cfg breaker_cfg)

-- The one route, and the proxy with its one pool.
unfoldable pub shop : Pool MockUpstream → Scene
unfolding add new_route Proxy.new add_pool Clock.new
shop pool = record {
  proxy =
      add_pool
        (Proxy.new (add [] (new_route (some (bytes "shop.example.com")) (bytes "/") (bytes "shop")))
          Retry.default_config)
        pool;
  clock = Clock.new 0;
}

-- The loop of `build_proxy`.
unfoldable pub add_nodes : Pool MockUpstream → List (List ℕ × ℕ) → Pool MockUpstream
unfolding add_node
add_nodes pool [] = pool
add_nodes pool ((name, weight) ∷ backends) =
    add_nodes (add_node pool name weight (new_mock name)) backends

unfoldable pub build_proxy : Strategy → List (List ℕ × ℕ) → Scene
unfolding shop add_nodes Pool.new
build_proxy strategy backends =
    shop (add_nodes (Pool.new (bytes "shop") strategy health_cfg) backends)

-- The proxy of `demo`: C answers three times, then fails five times, and then answers again.
unfoldable pub demo_scene : Scene
unfolding shop add_node Pool.new
demo_scene =
    let c =
      push_many (push_many (new_mock (bytes "C")) (step_ok 200 ∷ step_ok 200 ∷ step_ok 200 ∷ [])) (
        step_fail (server_error 503)
        ∷ step_fail (server_error 503)
        ∷ step_fail (server_error 503)
        ∷ step_fail (server_error 503)
        ∷ step_fail (server_error 503)
        ∷ []) in
    let a =
      add_node (Pool.new (bytes "shop") round_robin health_cfg) (bytes "A") 1
        (new_mock (bytes "A")) in
    let b = add_node a (bytes "B") 1 (new_mock (bytes "B")) in shop (add_node b (bytes "C") 1 c)

-- The request of `send`, and the call.
unfoldable pub request_for : List ℕ → Option (List ℕ) → Request
unfolding new_request with_header
request_for path session =
    let req = with_header (new_request get path) (bytes "Host") (bytes "shop.example.com") in
    elim session [ none ↦ req | some s ↦ with_header req (bytes "X-Session-Id") s ]

unfoldable pub send : Scene → List ℕ → Option (List ℕ) → Exec (Scene × HandleResult)
unfolding handle request_for now_millis
send scene path session = do
  (proxy, res) ← handle mock scene.proxy (now_millis scene.clock) (request_for path session)
  ok (record scene { proxy = proxy }, res)

abbrev pub wait : ℕ → Scene → Scene
wait delta scene = record scene { clock = advance scene.clock delta }

-- A loop of `demo`, with `n` requests left from number `i` on, 50 ms apart.
unfoldable pub burst : ℕ → ℕ → List ℕ → Scene → Exec Scene
unfolding send advance decimal
burst zero i path scene = ok scene
burst (suc n) i path scene = do
  (scene', res) ← send (wait 50 scene) (path ++ decimal i) none
  burst n (suc i) path scene'

-- The first four steps of `demo`, each from its start.
abbrev pub calm : Exec Scene
calm = burst 6 0 (bytes "/catalog?p=") demo_scene

abbrev pub failing : Exec Scene
failing = calm >>= λ s. burst 15 0 (bytes "/checkout?o=") s

abbrev pub returned : Exec Scene
returned = failing >>= λ s. burst 15 0 (bytes "/cart?i=") (wait 2_600 s)

abbrev pub recovered : Exec Scene
recovered = returned >>= λ s. burst 15 0 (bytes "/catalog?r=") (wait 3_100 s)

-- `.map(|i| sticky.pool("shop").unwrap().backend(i).name.clone()).unwrap_or_default()`.
unfoldable pub node_name : Scene → Option ℕ → Exec (List ℕ)
unfolding find_pool
node_name scene none = ok []
node_name scene (some i) = elim (find_pool (bytes "shop") scene.proxy.pools) [
  | none ↦ panic
  | some pool ↦ do b ← index pool.backends i; ok b.name
]

-- The inner loop of the last step, with `n` requests of a user left and the node seen last.
unfoldable pub pinned : ℕ → List ℕ → Scene → List ℕ → Exec (Scene × List ℕ)
unfolding send node_name
pinned zero user scene seen = ok (scene, seen)
pinned (suc n) user scene seen = do
  (scene', res) ← send scene (bytes "/account") (some user)
  seen' ← node_name scene' res.selected
  pinned n user scene' seen'

-- The outer loop: the node of each user.
unfoldable pub sessions : List (List ℕ) → Scene → Exec (List (List ℕ))
unfolding pinned
sessions [] scene = ok []
sessions (user ∷ users) scene = do
  (scene', seen) ← pinned 3 user scene []
  nodes ← sessions users scene'
  ok (seen ∷ nodes)

-- The session of request `i` of `spread`.
unfoldable pub session_of : Strategy → ℕ → Option (List ℕ)
unfolding decimal
session_of consistent_hash i = some (bytes "user-" ++ decimal (i % 50))
session_of round_robin i = none
session_of weighted i = none
session_of least_connections i = none

-- The loop of `spread`, with `n` requests left from number `i` on.
unfoldable pub spread_from : ℕ → ℕ → Strategy → Scene → Exec Scene
unfolding send session_of
spread_from zero i strategy scene = ok scene
spread_from (suc n) i strategy scene = do
  (scene', res) ← send scene (bytes "/x") (session_of strategy i)
  spread_from n (suc i) strategy scene'

-- `spread` with any nodes and any number of requests, from the engine it builds to the rows it prints.
unfoldable pub spread_report {κ} :
    {W : Type κ} → Float W → ℕ → Strategy → List (List ℕ × ℕ) → Exec (List (DistributionRow W))
unfolding spread_from build_proxy pool_of distribution now_millis
spread_report f n strategy backends = do
  scene ← spread_from n 0 strategy (build_proxy strategy backends)
  elim (pool_of scene.proxy (bytes "shop")) [
    | none ↦ panic
    | some pool ↦ distribution f pool (now_millis scene.clock)
  ]

-- `spread`.
unfoldable pub spread {κ} : {W : Type κ} → Float W → Strategy → Exec (List (DistributionRow W))
unfolding spread_report
spread f strategy =
    spread_report f 6_000 strategy
      ((bytes "A", 1) ∷ (bytes "B", 1) ∷ (bytes "C", 3) ∷ (bytes "D", 1) ∷ [])
