-- ===== src/Suite/Pool.antt =====
-- src/pool.rs, its tests.
use echofront.Base.{
  ℕ, zero, suc, ◌+◌, ◌-◌, ◌≡◌, refl, Bool, true, false, not, ◌&&◌, ◌==◌, ltb, if◌then◌else◌, List,
  [], ◌∷◌, list_eq, none, some, Exec, ok, panic, ◌>>=◌, index,
}
use echofront.Base.Int.{◌+ℤ◌, ◌-ℤ◌}
use echofront.Base.Words.{wrap_i64}
use echofront.Breaker
use echofront.Breaker.{opened}
use echofront.Http.{bytes, get, new_request}
use echofront.Pool
use echofront.Pool.{
  Pool, Backend, Strategy, round_robin, weighted, least_connections, default_health, add_backend,
  new_backend, begin, is_ejected, is_available,
}
use echofront.Pool.Health.{run_health_checks}
use echofront.Pool.Outcome.{record_failure}
use echofront.Pool.Poll.{poll}
use echofront.Pool.Select.{select}
use echofront.Proxy.{dispatch}
use echofront.Suite.{all_of, same_state, times}
use echofront.Upstream.{timeout, Outcome, answered, failed}
use echofront.Upstream.Mock.{
  MockUpstream, new_mock, push_many, push_probes, step_fail, mock, send_mock, probe_mock,
}

-- `Backend::new` with the default configurations.
abbrev pub backend : List ℕ → ℕ → MockUpstream → Backend MockUpstream
backend name weight up = new_backend name weight up default_health Breaker.default_config

-- `pool_with`.
abbrev pool_with : Strategy → List (List ℕ × ℕ) → Pool MockUpstream
pool_with strategy nodes = fill nodes (Pool.new (bytes "svc") strategy default_health)
  where
    fill : List (List ℕ × ℕ) → Pool MockUpstream → Pool MockUpstream
    fill [] p = p
    fill ((n, w) ∷ nodes) p = fill nodes (add_backend p (backend n w (new_mock n)))

abbrev trio : List (List ℕ × ℕ)
trio = (bytes "a", 1) ∷ (bytes "b", 1) ∷ (bytes "c", 1) ∷ []

abbrev duo : List (List ℕ × ℕ)
duo = (bytes "a", 1) ∷ (bytes "b", 1) ∷ []

-- `n` selections, each unwrapped.
abbrev picks : ℕ → ℕ → Pool MockUpstream → Exec (List ℕ)
picks zero now p = ok []
picks (suc n) now p = select p now none [] >>= λ (p', choice). elim choice [
  | none ↦ panic
  | some i ↦ picks n now p' >>= λ is. ok (i ∷ is)
]

-- `n` failures of node 0.
abbrev failures : ℕ → ℕ → Pool MockUpstream → Exec (Pool MockUpstream)
failures zero now p = ok p
failures (suc n) now p = record_failure p 0 now >>= λ p'. failures n now p'

abbrev round_robin_exact_cycle : Exec Bool
round_robin_exact_cycle = do
  is ← picks 6 0 (poll (pool_with round_robin trio) 0)
  ok (list_eq is (0 ∷ 1 ∷ 2 ∷ 0 ∷ 1 ∷ 2 ∷ []))

round_robin_exact_cycle_test : round_robin_exact_cycle ≡ ok true
unfolding Pool.new add_backend new_backend poll select is_available
round_robin_exact_cycle_test = refl

abbrev least_conn_prefers_idle : Exec Bool
least_conn_prefers_idle = do
  p1 ← begin (poll (pool_with least_connections trio) 0) 0
  p2 ← begin p1 0
  p3 ← begin p2 1
  is ← picks 1 0 p3
  ok (list_eq is (2 ∷ []))

least_conn_prefers_idle_test : least_conn_prefers_idle ≡ ok true
unfolding Pool.new add_backend new_backend poll select begin is_available
least_conn_prefers_idle_test = refl

abbrev open_breaker_is_never_selected : Exec Bool
open_breaker_is_never_selected = do
  p ← failures Breaker.default_config.failure_threshold 0 (pool_with round_robin duo)
  let p' = poll p 0
  b ← index p'.backends 0
  is ← picks 20 0 p'
  ok (same_state b.breaker.state opened && list_eq is (times 20 (λ is. 1 ∷ is) []))

open_breaker_is_never_selected_test : open_breaker_is_never_selected ≡ ok true
unfolding Pool.new add_backend new_backend poll select record_failure is_available
open_breaker_is_never_selected_test = refl

abbrev outlier_ejection_and_reinstatement : Exec Bool
outlier_ejection_and_reinstatement = do
  p ← failures default_health.outlier_consecutive_failures 100 (pool_with round_robin duo)
  let p' = poll p 100
  b ← index p'.backends 0
  (p'', choice) ← select p' 100 none []
  let t = 100 + default_health.ejection_base_ms + 10
  b' ← index (poll p'' t).backends 0
  ok (
      all_of (
        is_ejected b 100
        ∷ (b.ejections == 1)
        ∷ (elim choice [ none ↦ false | some i ↦ i == 1 ])
        ∷ not (is_ejected b' t)
        ∷ []))

outlier_ejection_and_reinstatement_test : outlier_ejection_and_reinstatement ≡ ok true
unfolding Pool.new add_backend new_backend poll select record_failure is_available is_ejected
outlier_ejection_and_reinstatement_test = refl

abbrev active_health_flips_unhealthy_then_recovers : Exec Bool
active_health_flips_unhealthy_then_recovers = do
  let up = push_probes (new_mock (bytes "a")) (false ∷ false ∷ [])
  let p = add_backend (Pool.new (bytes "svc") round_robin default_health) (backend (bytes "a") 1 up)
  let p0 = run_health_checks mock p 0
  let p2 = run_health_checks mock (run_health_checks mock p0 1_000) 2_000
  let p4 = run_health_checks mock (run_health_checks mock p2 3_000) 4_000
  b0 ← index p0.backends 0
  b2 ← index p2.backends 0
  b4 ← index p4.backends 0
  ok (all_of (b0.healthy ∷ not b2.healthy ∷ b4.healthy ∷ []))

active_health_flips_unhealthy_then_recovers_test :
    active_health_flips_unhealthy_then_recovers ≡ ok true
unfolding Pool.new add_backend new_backend run_health_checks probe_mock
active_health_flips_unhealthy_then_recovers_test = refl

abbrev is_err : Outcome → Bool
is_err (answered resp) = false
is_err (failed e) = true

abbrev dispatch_reaches_upstream : Exec Bool
dispatch_reaches_upstream = do
  let up = push_many (new_mock (bytes "a")) (step_fail timeout ∷ [])
  let p = add_backend (Pool.new (bytes "svc") round_robin default_health) (backend (bytes "a") 1 up)
  (p', choice) ← select (poll p 0) 0 none []
  elim choice [
    | none ↦ panic
    | some idx ↦ dispatch mock p' idx (new_request get (bytes "/")) >>= λ (reply, p'').
        ok (is_err reply.outcome)
  ]

dispatch_reaches_upstream_test : dispatch_reaches_upstream ≡ ok true
unfolding Pool.new add_backend new_backend poll select dispatch send_mock is_available
dispatch_reaches_upstream_test = refl

-- How often a node is among the picks.
abbrev count : ℕ → List ℕ → ℕ
count i [] = 0
count i (j ∷ is) = let n = count i is in if j == i then n + 1 else n

-- The fractions of the test, in picks: `frac` within 0.02 of a share is within 100 picks of it.
abbrev near : ℕ → ℕ → Bool
near n share = ltb (n - share) 100 && ltb (share - n) 100

abbrev weighted_distribution_matches_weights : Exec Bool
weighted_distribution_matches_weights = do
  is ←
      picks 5_000 0
        (poll (pool_with weighted ((bytes "a", 1) ∷ (bytes "b", 1) ∷ (bytes "c", 3) ∷ [])) 0)
  ok (near (count 2 is) 3_000 && near (count 0 is) 1_000)

weighted_distribution_matches_weights_test : weighted_distribution_matches_weights ≡ ok true
unfolding Pool.new add_backend new_backend poll select is_available wrap_i64 ◌+ℤ◌ ◌-ℤ◌
weighted_distribution_matches_weights_test = refl
