-- ===== src/Tests/Services.antt =====
-- src/proxy.rs, `service_names` on three pools.
use echofront.Base.{ℕ, ◌≡◌, refl, List, [], ◌∷◌, length}
use echofront.Demo.{health_cfg}
use echofront.Http.{bytes}
use echofront.Pool
use echofront.Pool.{round_robin}
use echofront.Proxy
use echofront.Proxy.{Proxy, add_pool, pool_of}
use echofront.Proxy.Services.{service_names, Ascending, listed, is_some, service_names_lem}
use echofront.Retry
use echofront.Upstream.Mock.{MockUpstream}

abbrev three_pools : Proxy MockUpstream
three_pools =
    add_pool
      (add_pool
        (add_pool (Proxy.new [] Retry.default_config)
          (Pool.new (bytes "shop") round_robin health_cfg))
        (Pool.new (bytes "api") round_robin health_cfg))
      (Pool.new (bytes "apis") round_robin health_cfg)

service_names_test : service_names three_pools ≡ bytes "api" ∷ bytes "apis" ∷ bytes "shop" ∷ []
unfolding service_names add_pool Proxy.new Pool.new
service_names_test = refl

service_names_lem_example :
    Ascending (service_names three_pools)
    × ((name : List ℕ)
        → listed name (service_names three_pools) ≡ is_some (pool_of three_pools name))
    × (length (service_names three_pools) ≡ length three_pools.pools)
service_names_lem_example = service_names_lem three_pools
