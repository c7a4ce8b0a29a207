-- ===== src/Demo/Shop.antt =====
-- src/bin/echofront.rs, `spread`: its engine, from how it is built and through its requests.
use mathlib.Core.List.{map-append, append_assoc, append-nil}
use echofront.Base.{
  ℕ, zero, suc, ◌+◌, ◌<◌, ◌≡◌, ◌≢◌, refl, ap, ◌∙◌, List, [], ◌∷◌, ◌++◌, map, Option, none, some, ok,
  length, All, All-append, arith,
}
use echofront.Base.Words.{add_u64, u64_mod}
use echofront.Breaker
use echofront.Clock.{now_millis}
use echofront.Demo.{
  Scene, add_node, add_nodes, shop, build_proxy, request_for, send, session_of, spread_from,
  health_cfg, breaker_cfg,
}
use echofront.Demo.Runs.{add_nodes-Assembled}
use echofront.Http.{bytes, with_header, header, host, to_ascii_lowercase}
use echofront.Http.Names.{new_response, with_body}
use echofront.Pool
use echofront.Pool.{Pool, Backend, Strategy, add_backend, new_backend}
use echofront.Proxy
use echofront.Proxy.{Proxy, HandleResult, add_pool, find_pool, insert_pool, pool_of}
use echofront.Proxy.Calm.{Calm, CalmPool, node_of, served_total}
use echofront.Proxy.Reachable.{Built-RingFits}
use echofront.Proxy.Running.{Assembled-Built}
use echofront.Proxy.Running
use echofront.Proxy.Steady.{Answers, handle_steady}
use echofront.Router.{Route, route, new_route, add}
use echofront.Upstream.Mock.{MockUpstream, mock, new_mock, send_mock, step_ok, pop_front, reply_of}

-- A mock with no script left, which answers 200.
abbrev pub Plain : MockUpstream → Type 0
Plain m = (m.script ≡ []) × (m.default ≡ step_ok 200)

mock-Answers : Answers mock Plain
unfolding send_mock
mock-Answers req m (no_script, answers_200) = (
  with_body (new_response 200) m.name,
  5,
  record m { script = []; calls = add_u64 m.calls 1 },
  ap
        (λ s. (
          reply_of m.name (pop_front s m.default).0,
          record m { script = (pop_front s m.default).1; calls = add_u64 m.calls 1 },
        ))
        no_script
      ∙ ap (λ d. (reply_of m.name d, record m { script = []; calls = add_u64 m.calls 1 }))
          answers_200,
  (refl, answers_200),
)

-- The routes of the scenarios.
abbrev pub shop_routes : List Route
unfolding add new_route
shop_routes = add [] (new_route (some (bytes "shop.example.com")) (bytes "/") (bytes "shop"))

-- Every request of `spread` goes to the shop.
routes_here :
    (session : Option (List ℕ))
    → route shop_routes (request_for (bytes "/x") session) ≡ some (bytes "shop")
unfolding shop_routes route request_for with_header header host to_ascii_lowercase
routes_here none = refl
routes_here (some s) = refl

-- The shop's nodes and what they served, after `k` requests; none was retried.
pub record Shop (backends : List (List ℕ × ℕ)) (k : ℕ) (scene : Scene) : Type 0 where
  pub pool : Pool MockUpstream
  pub found : find_pool (bytes "shop") scene.proxy.pools ≡ some pool
  pub calm : CalmPool Plain pool
  pub nodes : map node_of pool.backends ≡ backends
  pub total : served_total pool.backends ≡ k
  pub routes : scene.proxy.routes ≡ shop_routes
  pub retries : scene.proxy.total_retries ≡ 0
  pub failovers : scene.proxy.total_failovers ≡ 0

send-Shop :
    (backends : List (List ℕ × ℕ)) (k : ℕ) (scene : Scene) (session : Option (List ℕ))
    → Shop backends k scene
    → k + 1 < u64_mod
    → (scene' : Scene) × (r : HandleResult) × (send scene (bytes "/x") session ≡ ok (scene', r))
      × Shop backends (k + 1) scene'
unfolding send
send-Shop backends k scene session s h =
    let req = request_for (bytes "/x") session in
    let (x, r, done, t) =
      handle_steady mock Plain mock-Answers (now_millis scene.clock) req (bytes "shop") s.pool
        scene.proxy (ap (λ rs. route rs req) s.routes ∙ routes_here session) s.found s.calm
        (omega (arith, s.total, h)) in
    (
      record scene { proxy = x },
      r,
      rw done refl,
      (record {
        pool = t.pool;
        found = t.found;
        calm = t.calm;
        nodes = t.alike.same_nodes ∙ s.nodes;
        total = t.alike.total ∙ ap (λ n. n + 1) s.total;
        routes = t.same_routes ∙ s.routes;
        retries = t.retries ∙ s.retries;
        failovers = t.failovers ∙ s.failovers;
      }),
    )

pub spread_from-Shop :
    (n i k : ℕ) (strategy : Strategy) (backends : List (List ℕ × ℕ)) (scene : Scene)
    → Shop backends k scene
    → k + n < u64_mod
    → (scene' : Scene) × (m : ℕ) × (m ≡ k + n)
      × (spread_from n i strategy scene ≡ ok scene')
      × Shop backends m scene'
unfolding spread_from
spread_from-Shop zero i k strategy backends scene s h = (scene, k, omega arith, refl, s)
spread_from-Shop (suc n) i k strategy backends scene s h =
    let (next, r, sent, s') = send-Shop backends k scene (session_of strategy i) s (omega arith) in
    let (last, m, e, done, s'') =
      spread_from-Shop n (suc i) (k + 1) strategy backends next s' (omega arith) in
    (last, m, omega (arith, e), rw sent done, s'')

served_total-append :
    (bs cs : List (Backend MockUpstream))
    → served_total (bs ++ cs) ≡ served_total bs + served_total cs
served_total-append [] cs = omega arith
served_total-append (b ∷ bs) cs = omega (arith, served_total-append bs cs)

length-nodes : (bs : List (Backend MockUpstream)) → length (map node_of bs) ≡ length bs
length-nodes [] = refl
length-nodes (b ∷ bs) = ap suc (length-nodes bs)

-- A pool as it is built.
record Fresh (ns : List (List ℕ × ℕ)) (p : Pool MockUpstream) : Type 0 where
  calm : All (Calm Plain) p.backends
  plain : p.ewma ≡ none
  named : p.name ≡ bytes "shop"
  nodes : map node_of p.backends ≡ ns
  total : served_total p.backends ≡ 0

add_nodes-Fresh :
    (ns backends : List (List ℕ × ℕ)) (p : Pool MockUpstream)
    → All (λ e. e.1 ≢ 0) backends
    → Fresh ns p
    → Fresh (ns ++ backends) (add_nodes p backends)
unfolding add_nodes add_node add_backend new_backend
add_nodes-Fresh ns [] p h f = rw (append-nil ns) f
add_nodes-Fresh ns ((name, weight) ∷ backends) p h f =
    let b = new_backend name weight (new_mock name) health_cfg breaker_cfg in
    let f' : Fresh (ns ++ (name, weight) ∷ []) (add_node p name weight (new_mock name)) = record {
      calm = All-append (Calm Plain) p.backends (b ∷ []) f.calm (
        record {
          up = refl;
          free = refl;
          shut = unfold Breaker.new in refl;
          heavy = h.0;
          kind = (refl, refl);
        },
        tt,
      );
      plain = f.plain;
      named = f.named;
      nodes = map-append node_of p.backends (b ∷ []) ∙ ap (λ l. l ++ (name, weight) ∷ []) f.nodes;
      total = served_total-append p.backends (b ∷ []) ∙ omega (arith, f.total);
    } in
    rw (← append_assoc ns ((name, weight) ∷ []) backends) (
      add_nodes-Fresh (ns ++ (name, weight) ∷ []) backends (add_node p name weight (new_mock name))
        h.1 f')

pub build_proxy-Shop :
    (strategy : Strategy) (backends : List (List ℕ × ℕ))
    → 0 < length backends
    → All (λ e. e.1 ≢ 0) backends
    → Shop backends 0 (build_proxy strategy backends)
unfolding build_proxy shop shop_routes Proxy.new add_pool
build_proxy-Shop strategy backends some_node h =
    let start = Pool.new (bytes "shop") strategy health_cfg in
    let p = add_nodes start backends in
    let f = add_nodes-Fresh [] backends start h (
      unfold Pool.new in
      record { calm = tt; plain = refl; named = refl; nodes = refl; total = refl }) in
    let a = add_nodes-Assembled start backends (Running.empty (bytes "shop") strategy health_cfg) in
    record {
      pool = p;
      found =
          unfold insert_pool find_pool in ap (λ n. find_pool (bytes "shop") ((n, p) ∷ [])) f.named;
      calm = record {
        fits = Built-RingFits p (Assembled-Built p a);
        calm = f.calm;
        plain = f.plain;
        some_node = omega (arith, some_node, length-nodes p.backends, ap length f.nodes);
      };
      nodes = f.nodes;
      total = f.total;
      routes = refl;
      retries = refl;
      failovers = refl;
    }
