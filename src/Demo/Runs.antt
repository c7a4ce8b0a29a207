-- ===== src/Demo/Runs.antt =====
-- src/bin/echofront.rs: the scenarios keep a running engine.
use mathlib.Core.Path.{subst}
use echofront.Base.{ℕ, zero, suc, ◌+◌, ◌≡◌, refl, List, [], ◌∷◌, Option, ok, arith}
use echofront.Breaker.Invariant.{FitsConfig}
use echofront.Demo.{
  Scene, add_node, add_nodes, shop, build_proxy, request_for, send, session_of, spread_from,
  health_cfg, breaker_cfg,
}
use echofront.Clock.{now_millis}
use echofront.Http.{bytes}
use echofront.Pool
use echofront.Pool.{Pool, Strategy}
use echofront.Proxy.{HandleResult}
use echofront.Proxy.Running.{Assembled, Running, Running-handle}
use echofront.Proxy.Running
use echofront.Retry
use echofront.Upstream.Mock.{MockUpstream, mock, new_mock}

breaker_cfg-FitsConfig : FitsConfig breaker_cfg
breaker_cfg-FitsConfig = record { failures_u32 = omega arith; successes_u32 = omega arith }

-- The scene's engine has handled `n` requests.
abbrev pub Runs : ℕ → Scene → Type 0
Runs n scene = Running mock Retry.default_config n scene.proxy

Runs-count : (m n : ℕ) (scene : Scene) → m ≡ n → Runs m scene → Runs n scene
Runs-count m n scene e run = subst (λ k. Runs k scene) e run

pub add_nodes-Assembled :
    (pool : Pool MockUpstream) (backends : List (List ℕ × ℕ))
    → Assembled pool
    → Assembled (add_nodes pool backends)
unfolding add_nodes add_node
add_nodes-Assembled pool [] a = a
add_nodes-Assembled pool ((name, weight) ∷ backends) a =
    add_nodes-Assembled (add_node pool name weight (new_mock name)) backends (
      Running.with_backend pool name weight (new_mock name) health_cfg breaker_cfg
        breaker_cfg-FitsConfig a)

build_proxy-Runs :
    (strategy : Strategy) (backends : List (List ℕ × ℕ)) → Runs 0 (build_proxy strategy backends)
unfolding build_proxy shop
build_proxy-Runs strategy backends = Running.pool_added 0 _ _ (Running.started _) (
    add_nodes-Assembled (Pool.new (bytes "shop") strategy health_cfg) backends
      (Running.empty (bytes "shop") strategy health_cfg))

send-Runs :
    (n : ℕ) (scene : Scene) (path : List ℕ) (session : Option (List ℕ))
    → Runs n scene
    → (scene' : Scene) × (r : HandleResult) × (send scene path session ≡ ok (scene', r))
      × Runs (suc n) scene'
unfolding send
send-Runs n scene path session run =
    let (x, r, done, run') =
      Running-handle mock Retry.default_config n scene.proxy (now_millis scene.clock)
        (request_for path session) (omega arith) run in
    (record scene { proxy = x }, r, rw done refl, run')

spread_from-Runs :
    (n i k : ℕ) (strategy : Strategy) (scene : Scene)
    → Runs k scene
    → (scene' : Scene) × (spread_from n i strategy scene ≡ ok scene') × Runs (k + n) scene'
unfolding spread_from
spread_from-Runs zero i k strategy scene run =
    (scene, refl, Runs-count k (k + 0) scene (omega arith) run)
spread_from-Runs (suc n) i k strategy scene run =
    let (next, r, sent, run') = send-Runs k scene (bytes "/x") (session_of strategy i) run in
    let (last, done, run'') = spread_from-Runs n (suc i) (suc k) strategy next run' in
    (last, rw sent done, Runs-count (suc k + n) (k + suc n) last (omega arith) run'')

-- The loop of `spread` runs to its end: for any strategy, any nodes with any weights and any number
-- of requests, no call of `handle` panics, and then there is a running engine that has handled all of
-- the requests.
pub spread-Runs :
    (strategy : Strategy) (backends : List (List ℕ × ℕ)) (n : ℕ)
    → (scene : Scene) × (spread_from n 0 strategy (build_proxy strategy backends) ≡ ok scene)
      × Runs n scene
spread-Runs strategy backends n =
    let (scene, done, run) =
      spread_from-Runs n 0 0 strategy (build_proxy strategy backends)
        (build_proxy-Runs strategy backends) in
    (scene, done, Runs-count (0 + n) n scene (omega arith) run)
