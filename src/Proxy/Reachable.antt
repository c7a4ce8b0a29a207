-- ===== src/Proxy/Reachable.antt =====
-- src/proxy.rs: the proxies that a program can reach with the engine's own operations.
use echofront.Base.{none, ap, ℕ, ◌+◌, ◌<◌, ◌≡◌, refl, List, [], ◌∷◌, map, some, ok, All, arith}
use echofront.Base.Words.{u32_mod}
use echofront.Ewma.{EwmaConfig}
use echofront.HashRing
use echofront.Http.{Request}
use echofront.Pool
use echofront.Pool.{Pool, Backend, Strategy, HealthConfig, set_strategy, add_backend, enable_ewma}
use echofront.Pool.Health.{run_health_checks}
use echofront.Pool.Select.Sticky.{RingFits}
use echofront.Proxy
use echofront.Proxy.{
  Proxy, HandleResult, set_sticky_header, add_pool, run_all_health_checks, pool_of, pool_mut,
  insert_pool,
}
use echofront.Proxy.Handle.{handle}
use echofront.Proxy.Handled.{PoolsFit, handle_safe}
use echofront.Proxy.Promise.{Handled, insert_pool-All, find_pool-All}
use echofront.Proxy.Operated.{Operated, Operated-RingFits, checks-RingFits}
use echofront.Retry.{RetryConfig}
use echofront.Router.{Route, route}
use echofront.Upstream.{Upstream}

module _ {ℓ} {U : Type ℓ} where
  -- The pools that a program can build.
  pub data Built : Pool U → Type ℓ where
    empty :
        (name : List ℕ) (strategy : Strategy) (health : HealthConfig)
        → Built (Pool.new name strategy health)
    with_backend : (p : Pool U) (b : Backend U) → Built p → Built (add_backend p b)
    with_strategy : (p : Pool U) (s : Strategy) → Built p → Built (set_strategy p s)
    with_ewma : (p : Pool U) (cfg : EwmaConfig) → Built p → Built (enable_ewma p cfg)

  -- The proxies that are reached from a new one.
  pub data Reachable (upstream : Upstream U) : Proxy U → Type ℓ where
    started :
        (routes : List Route) (retry : RetryConfig) → Reachable upstream (Proxy.new routes retry)
    header_set :
        (x : Proxy U) (header : List ℕ)
        → Reachable upstream x
        → Reachable upstream (set_sticky_header x header)
    pool_added :
        (x : Proxy U) (p : Pool U)
        → Reachable upstream x
        → Built p
        → Reachable upstream (add_pool x p)
    checked :
        (x : Proxy U) (now : ℕ)
        → Reachable upstream x
        → Reachable upstream (run_all_health_checks upstream x now)
    pool_changed :
        (x x' : Proxy U) (name : List ℕ) (p p' : Pool U)
        → Reachable upstream x
        → pool_of x name ≡ some p
        → Operated upstream p p'
        → pool_mut x name (λ _. p') ≡ some x'
        → Reachable upstream x'
    handled :
        (x x' : Proxy U) (now : ℕ) (req : Request) (r : HandleResult)
        → Reachable upstream x
        → x.budget.cfg.max_retries_per_request + 1 < u32_mod
        → handle upstream x now req ≡ ok (x', r)
        → Reachable upstream x'

  pub Built-RingFits : (p : Pool U) → Built p → RingFits p
  unfolding Pool.new add_backend set_strategy enable_ewma
  Built-RingFits p (empty name strategy health) = record {
    vnodes_pos = unfold HashRing.new in omega arith;
    built = λ n. absurd (n refl);
  }
  Built-RingFits p' (with_backend p b h) =
      let f = Built-RingFits p h in
      record { vnodes_pos = f.vnodes_pos; built = λ n. absurd (n refl) }
  Built-RingFits p' (with_strategy p s h) =
      let f = Built-RingFits p h in record { vnodes_pos = f.vnodes_pos; built = f.built }
  Built-RingFits p' (with_ewma p cfg h) =
      let f = Built-RingFits p h in record { vnodes_pos = f.vnodes_pos; built = f.built }

  checks-PoolsFit :
      (upstream : Upstream U) (now : ℕ) (pools : List (List ℕ × Pool U))
      → All (λ e. RingFits e.1) pools
      → All {A = List ℕ × Pool U}
          (λ e. RingFits e.1)
          (map (λ e. (e.0, run_health_checks upstream e.1 now)) pools)
  checks-PoolsFit upstream now [] h = tt
  checks-PoolsFit upstream now (e ∷ pools) h =
      (checks-RingFits upstream e.1 now h.0, checks-PoolsFit upstream now pools h.1)

  pool_mut_lem :
      (x : Proxy U) (name : List ℕ) (p : Pool U) (f : Pool U → Pool U)
      → pool_of x name ≡ some p
      → pool_mut x name f ≡ some (record x { pools = insert_pool name (f p) x.pools })
  unfolding pool_mut
  pool_mut_lem x name p f found =
      ap
        (λ o. elim o [
          | none ↦ none
          | some pool ↦ some (record x { pools = insert_pool name (f pool) x.pools })
        ])
        found

  pub Reachable-PoolsFit : (upstream : Upstream U) (x : Proxy U) → Reachable upstream x → PoolsFit x
  unfolding Proxy.new set_sticky_header add_pool run_all_health_checks pool_of
  Reachable-PoolsFit upstream x (started routes retry) = tt
  Reachable-PoolsFit upstream x' (header_set x header h) = Reachable-PoolsFit upstream x h
  Reachable-PoolsFit upstream x' (pool_added x p h b) =
      insert_pool-All RingFits p.name p x.pools (Built-RingFits p b)
        (Reachable-PoolsFit upstream x h)
  Reachable-PoolsFit upstream x' (checked x now h) =
      checks-PoolsFit upstream now x.pools (Reachable-PoolsFit upstream x h)
  Reachable-PoolsFit upstream x' (pool_changed x y name p p' h found op e) =
      let fit = Reachable-PoolsFit upstream x h in
      let fits =
        Operated-RingFits upstream p p' op (find_pool-All RingFits name x.pools fit found) in
      let same : record x { pools = insert_pool name p' x.pools } ≡ y =
        cc (pool_mut_lem x name p (λ _. p') found, e) in
      rw (← same) (insert_pool-All RingFits name p' x.pools fits fit)
  Reachable-PoolsFit upstream x' (handled x y now req r h m e) =
      let (z, s, done, fit, _) =
        handle_safe upstream x now req m (Reachable-PoolsFit upstream x h) in
      let same : y ≡ z = cc in rw same fit

  -- Whatever pools a program adds, whatever it does to a pool with the pool's operations, whatever
  -- health checks run and whatever requests came before, at whatever times and with whatever answers, `handle` returns without a panic, if the retries per
  -- request stay below 2^32 - 1. It makes at most `max_retries_per_request + 1` attempts, no two at
  -- the same backend; the backend it reports is the one of the first attempt; and the reply agrees
  -- with the attempts: a success comes from the last attempt and all before it failed, an error
  -- says whether there was no route, no backend to ask, or how many attempts failed.
  pub Reachable-handle :
      (upstream : Upstream U) (x : Proxy U) (now : ℕ) (req : Request)
      → Reachable upstream x
      → x.budget.cfg.max_retries_per_request + 1 < u32_mod
      → (x' : Proxy U) × (r : HandleResult) × (handle upstream x now req ≡ ok (x', r))
        × Reachable upstream x'
        × Handled (route x.routes req) x.budget.cfg.max_retries_per_request r
  Reachable-handle upstream x now req h m =
      let (x', r, done, fit, sound) =
        handle_safe upstream x now req m (Reachable-PoolsFit upstream x h) in
      (x', r, done, handled x x' now req r h m done, sound)
