-- ===== src/Tests/Sticky.antt =====
-- A session at concrete inputs: src/proxy.rs on a pool that hashes, and src/pool.rs on a pool that
-- keeps the ring of an earlier selection.
use echofront.Base.{ℕ, ◌≡◌, ◌≢◌, refl, List, [], ◌∷◌, Option, none, some, Exec, ok, panic, arith}
use echofront.Breaker
use echofront.HashRing.{lookup, rebuild}
use echofront.HashRing.Map.{insert}
use echofront.Http.{Request, bytes, with_header, to_ascii_lowercase}
use echofront.Pool
use echofront.Pool.{Pool, consistent_hash, default_health, add_backend, new_backend, is_available}
use echofront.Pool.Poll.{poll}
use echofront.Pool.Select.{select, available_indices, members_of}
use echofront.Proxy
use echofront.Proxy.{Proxy, HandleResult, add_pool, find_pool, sticky_key}
use echofront.Proxy.Account.{handle-sticky}
use echofront.Proxy.Handle.{handle}
use echofront.Proxy.Reachable.{Reachable, started, pool_added, empty, with_backend}
use echofront.Proxy.Operated.{backend_added, selected}
use echofront.Proxy.Used.{Used, created, operated, consistent_hash_owner}
use echofront.Retry
use echofront.Router.{route}
use echofront.Tests.Engine.{routes, request}
use echofront.Tests.Nodes.{flaky}

abbrev ringed : Pool ℕ
unfolding Pool.new add_backend new_backend
ringed =
    add_backend
      (add_backend (Pool.new (bytes "web") consistent_hash default_health)
        (new_backend (bytes "a") 1 9 default_health Breaker.default_config))
      (new_backend (bytes "b") 1 0 default_health Breaker.default_config)

abbrev portal : Proxy ℕ
unfolding Proxy.new add_pool
portal = add_pool (Proxy.new routes Retry.default_config) ringed

portal-Reachable : Reachable flaky portal
unfolding portal ringed
portal-Reachable =
    pool_added (Proxy.new routes Retry.default_config) ringed (started routes Retry.default_config)
      (with_backend
        (add_backend (Pool.new (bytes "web") consistent_hash default_health)
          (new_backend (bytes "a") 1 9 default_health Breaker.default_config))
        (new_backend (bytes "b") 1 0 default_health Breaker.default_config)
        (with_backend (Pool.new (bytes "web") consistent_hash default_health)
          (new_backend (bytes "a") 1 9 default_health Breaker.default_config)
          (empty (bytes "web") consistent_hash default_health)))

abbrev alices_request : Request
alices_request = with_header request (bytes "X-Session-Id") (bytes "alice")

both_available : available_indices (poll ringed 100) 100 [] ≢ []
unfolding available_indices poll ringed is_available
both_available = λ e. cc

handle-sticky_example :
    (x' : Proxy ℕ) × (r : HandleResult) × (ms : List (ℕ × List ℕ)) × (handle flaky portal 100
        alices_request
      ≡ ok (x', r))
    × (members_of (poll ringed 100).backends (available_indices (poll ringed 100) 100 []) ≡ ok ms)
    × (r.selected ≡ lookup (rebuild ringed.ring ms) (bytes "alice"))
unfolding portal ringed Proxy.new add_pool Retry.new route sticky_key with_header to_ascii_lowercase
    find_pool
handle-sticky_example =
    handle-sticky flaky portal 100 alices_request (bytes "web") ringed (bytes "alice")
      portal-Reachable (omega arith) refl refl refl refl both_available

abbrev pool_after : Exec (Pool ℕ × Option ℕ) → Pool ℕ
pool_after (ok (p, choice)) = p
pool_after panic = ringed

abbrev choice_after : Exec (Pool ℕ × Option ℕ) → Option ℕ
choice_after (ok (p, choice)) = choice
choice_after panic = none

-- The pool after a selection that excluded the first of its two nodes.
abbrev cached : Pool ℕ
cached = pool_after (select ringed 100 (some (bytes "alice")) (0 ∷ []))

cached_test : cached.ring_signature ≡ 1 ∷ []
unfolding ringed select available_indices is_available insert
cached_test = refl

ringed-Used : Used flaky ringed
unfolding ringed
ringed-Used =
    let web = Pool.new (bytes "web") consistent_hash default_health in
    let a = new_backend (bytes "a") 1 9 default_health Breaker.default_config in
    let b = new_backend (bytes "b") 1 0 default_health Breaker.default_config in
    operated (add_backend web a) ringed
      (operated web (add_backend web a) (created (bytes "web") consistent_hash default_health)
        (backend_added web a))
      (backend_added (add_backend web a) b)

cached-Used : Used flaky cached
unfolding ringed select available_indices is_available insert
cached-Used = operated ringed cached ringed-Used (
    selected ringed cached 100 (some (bytes "alice")) (0 ∷ [])
      (choice_after (select ringed 100 (some (bytes "alice")) (0 ∷ []))) refl)

consistent_hash_owner_example :
    (p' : Pool ℕ) × (ms : List (ℕ × List ℕ)) × (id : ℕ) × (select cached 200
        (some (bytes "alice"))
        []
      ≡ ok (p', some id))
    × (members_of cached.backends (available_indices cached 200 []) ≡ ok ms)
    × (lookup (rebuild cached.ring ms) (bytes "alice") ≡ some id)
unfolding ringed select available_indices is_available insert
consistent_hash_owner_example =
    consistent_hash_owner flaky cached 200 (bytes "alice") [] cached-Used refl (λ e. cc)
