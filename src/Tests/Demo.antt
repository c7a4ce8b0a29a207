-- ===== src/Tests/Demo.antt =====
-- src/bin/echofront.rs: the walkthrough of `demo`, up to what each step says of node C; and `spread`.
use echofront.Base.{arith, ℕ, ◌≡◌, refl, Bool, true, false, List, [], ◌∷◌, map, ok, ◌>>=◌}
use echofront.HashRing.{mix64, fnv1a_64, lookup_from}
use echofront.HashRing.Map.{insert, first_from}
use echofront.Http.{bytes}
use echofront.Pool.{is_ejected, is_available}
use echofront.Upstream.Mock.{send_mock}
use echofront.Base.Words.{wrap_i64}
use echofront.Base.Int.{◌+ℤ◌, ◌-ℤ◌}
use echofront.Breaker.{BreakerState, closed, opened}
use echofront.Clock.{advance, now_millis}
use echofront.Demo.{
  Scene, demo_scene, burst, calm, failing, returned, recovered, spread_from, build_proxy, sessions,
  spread,
}
use echofront.Demo.Spread.{row_node, rows_total, spread_report-Served}
use echofront.Ewma.{DistributionRow}
use echofront.Tests.Report.{whole}
use echofront.Pool.{weighted, consistent_hash}

-- Of every node: is it ejected, the state of its breaker, and how many requests it served.
abbrev states : Scene → List (List (Bool × BreakerState × ℕ))
states scene =
    map
      (λ e.
        map (λ b. (is_ejected b (now_millis scene.clock), b.breaker.state, b.served)) e.1.backends)
      scene.proxy.pools

-- Spread out evenly; then C is ejected with its breaker closed; then its breaker is open; and then
-- it is back.
calm_test :
    (calm >>= λ s. ok (states s))
    ≡ ok (((false, closed, 2) ∷ (false, closed, 2) ∷ (false, closed, 2) ∷ []) ∷ [])
unfolding burst demo_scene is_ejected now_millis advance is_available send_mock wrap_i64 ◌+ℤ◌ ◌-ℤ◌
calm_test = refl

failing_test :
    (failing >>= λ s. ok (states s))
    ≡ ok (((false, closed, 8) ∷ (false, closed, 10) ∷ (true, closed, 6) ∷ []) ∷ [])
unfolding burst demo_scene is_ejected now_millis advance is_available send_mock wrap_i64 ◌+ℤ◌ ◌-ℤ◌
failing_test = refl

returned_test :
    (returned >>= λ s. ok (states s))
    ≡ ok (((false, closed, 15) ∷ (false, closed, 18) ∷ (false, opened, 8) ∷ []) ∷ [])
unfolding burst demo_scene is_ejected now_millis advance is_available send_mock wrap_i64 ◌+ℤ◌ ◌-ℤ◌
returned_test = refl

recovered_test :
    (recovered >>= λ s. ok (states s))
    ≡ ok (((false, closed, 20) ∷ (false, closed, 23) ∷ (false, closed, 13) ∷ []) ∷ [])
unfolding burst demo_scene is_ejected now_millis advance is_available send_mock wrap_i64 ◌+ℤ◌ ◌-ℤ◌
recovered_test = refl

-- The report of `spread` itself.
spread_report-Served_example :
    (rows : List (DistributionRow ℕ)) × (spread whole weighted ≡ ok rows)
    × (map row_node rows ≡ (bytes "A", 1) ∷ (bytes "B", 1) ∷ (bytes "C", 3) ∷ (bytes "D", 1) ∷ [])
    × (rows_total rows ≡ 6_000)
    × ((scene : Scene) × (spread_from 6_000 0 weighted (
            build_proxy weighted
              ((bytes "A", 1) ∷ (bytes "B", 1) ∷ (bytes "C", 3) ∷ (bytes "D", 1) ∷ []))
          ≡ ok scene)
        × (scene.proxy.total_retries ≡ 0)
        × (scene.proxy.total_failovers ≡ 0))
unfolding spread
spread_report-Served_example =
    spread_report-Served whole 6_000 weighted
      ((bytes "A", 1) ∷ (bytes "B", 1) ∷ (bytes "C", 3) ∷ (bytes "D", 1) ∷ []) (omega arith)
      (omega arith) (omega arith, (omega arith, (omega arith, (omega arith, tt))))

-- Where the six users of the last step end up.
sessions_test :
    sessions
      (bytes "alice"
        ∷ bytes "bob"
        ∷ bytes "carol"
        ∷ bytes "dave"
        ∷ bytes "erin"
        ∷ bytes "frank"
        ∷ [])
      (build_proxy consistent_hash
        ((bytes "A", 1) ∷ (bytes "B", 1) ∷ (bytes "C", 1) ∷ (bytes "D", 1) ∷ []))
    ≡ ok (bytes "A" ∷ bytes "A" ∷ bytes "D" ∷ bytes "B" ∷ bytes "B" ∷ bytes "C" ∷ [])
unfolding sessions build_proxy is_available send_mock wrap_i64 ◌+ℤ◌ ◌-ℤ◌ insert mix64 fnv1a_64
    lookup_from first_from
sessions_test = refl
