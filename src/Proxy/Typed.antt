-- ===== src/Proxy/Typed.antt =====
-- src/proxy.rs, `handle`: every number of the engine stays in the range of its machine type.
use echofront.Base.{ℕ, ◌+◌, ◌<◌, ◌≡◌, List, [], ◌∷◌, ok, All, All-mono, All-map, arith, map}
use echofront.Base.Words.{u32_mod, u64_mod, IsI64, wrap_i64-IsI64}
use echofront.Base.Int.{◌+ℤ◌, ◌-ℤ◌}
use echofront.Http.{Request}
use echofront.Pool.{Pool, Backend}
use echofront.Pool.Health.{run_health_checks, check_backend}
use echofront.Pool.Ranges.{
  InRange, failure_of-InRange, timed_success-InRange, poll_backend-InRange, check_backend-InRange,
}
use echofront.Pool.Select.Available.{SameNodes, strip}
use echofront.Pool.Select.Sticky.{RingFits}
use echofront.Pool.Select.Weights.{HasWeight, All-SameNodes}
use echofront.Proxy
use echofront.Proxy.{Proxy, HandleResult, add_pool, run_all_health_checks}
use echofront.Proxy.Handle.{handle}
use echofront.Proxy.Handled.{PoolsFit}
use echofront.Proxy.Kept.{handle_lem}
use echofront.Proxy.Promise.{insert_pool-All}
use echofront.Proxy.Trips.{Keeps, counted, answered_by}
use echofront.Retry.{RetryBudget, RetryConfig, on_request, try_retry}
use echofront.Retry
use echofront.Router.{Route}
use echofront.Upstream.{Upstream}

All-both {ℓ κ κ'} :
    {A : Type ℓ} (P : A → Type κ) (Q : A → Type κ') (xs : List A)
    → All P xs
    → All Q xs
    → All (λ x. P x × Q x) xs
All-both P Q [] a b = tt
All-both P Q (x ∷ xs) a b = ((a.0, b.0), All-both P Q xs a.1 b.1)

-- The numbers of a budget, and the count of retries of its proxy.
pub record Counts (b : RetryBudget) (retries : ℕ) : Type 0 where
  pub cap : IsI64 b.cfg.max_milli
  pub tokens : IsI64 b.tokens_milli
  pub granted : b.granted < u64_mod
  pub denied : b.denied < u64_mod
  pub retried : retries < u64_mod

try_retry-Counts :
    (b : RetryBudget) (n : ℕ) → Counts b n → Counts (try_retry b).0 (counted (try_retry b).1 n)
unfolding try_retry
try_retry-Counts b n c = ground (arith, wrap_i64-IsI64 (b.tokens_milli -ℤ b.cfg.retry_cost_milli))

on_request-Counts : (b : RetryBudget) (n : ℕ) → Counts b n → Counts (on_request b) n
unfolding on_request
on_request-Counts b n c = ground (arith, wrap_i64-IsI64 (b.tokens_milli +ℤ b.cfg.deposit_milli))

module _ {ℓ} {U : Type ℓ} where
  -- A selection writes i64 values to current weights, and nothing else.
  weighed-InRange :
      (bs cs : List (Backend U))
      → SameNodes bs cs
      → (All HasWeight bs → All HasWeight cs)
      → All InRange bs
      → All InRange cs
  weighed-InRange bs cs e weights a =
      let rest =
        All-SameNodes (λ b. InRange (strip b)) (λ b w v. v) bs cs e
          (All-mono InRange (λ b. InRange (strip b)) bs strip-InRange a) in
      All-mono (λ b. InRange (strip b) × HasWeight b) InRange cs (λ b v. weighed b v.0 v.1)
        (All-both (λ b. InRange (strip b)) HasWeight cs rest
          (weights (All-mono InRange HasWeight bs (λ b v. v.current_weight) a)))
    where
      strip-InRange : (b : Backend U) → InRange b → InRange (strip b)
      strip-InRange b v = ground arith

      weighed : (b : Backend U) → InRange (strip b) → HasWeight b → InRange b
      weighed b v w = ground arith

  answered_by-InRange : (b : Backend U) (u : U) → InRange b → InRange (answered_by u b)
  answered_by-InRange b u v = ground arith

  loop_keeps : (now : ℕ) → now < u64_mod → Keeps {U = U} now InRange Counts
  loop_keeps now h = record {
    weighed = weighed-InRange;
    asked = λ b u. answered_by-InRange b u;
    failed = λ c b. failure_of-InRange c now b h;
    succeeded = λ ewma. timed_success-InRange ewma now;
    spent = try_retry-Counts;
  }

  -- Every number of a proxy is a value of its machine type.
  pub record IsTyped (x : Proxy U) : Type ℓ where
    pub backends : All (λ e. All InRange e.1.backends) x.pools
    pub counts : Counts x.budget x.total_retries
    pub requests : x.total_requests < u64_mod
    pub failovers : x.total_failovers < u64_mod

  -- `handle` keeps every number in the range of its machine type, at a time that is a u64, if every
  -- pool's cached ring fits its nodes and the retries per request stay below 2^32 - 1, whatever the
  -- backends answer: each count, average, time, weight and percentage of every backend and breaker,
  -- the tokens and counts of the budget, and the counts of the proxy.
  pub handle-IsTyped :
      (upstream : Upstream U) (x : Proxy U) (now : ℕ) (req : Request)
      → x.budget.cfg.max_retries_per_request + 1 < u32_mod
      → now < u64_mod
      → PoolsFit x
      → IsTyped x
      → (x' : Proxy U) × (r : HandleResult) × (handle upstream x now req ≡ ok (x', r))
        × PoolsFit x'
        × IsTyped x'
  handle-IsTyped upstream x now req m h fits typed =
      let (x', r, done, kept, counts, _, settled) =
        handle_lem InRange Counts now (loop_keeps now h)
          (λ ewma line b. poll_backend-InRange ewma line now b h) upstream x req m
          (All-both (λ e. RingFits e.1) (λ e. All InRange e.1.backends) x.pools fits typed.backends)
          (on_request-Counts x.budget x.total_retries typed.counts) in
      (
        x',
        r,
        done,
        All-mono _ _ x'.pools (λ e f. f.0) kept,
        record {
          backends = All-mono _ _ x'.pools (λ e f. f.1) kept;
          counts = counts;
          requests = rw settled.counted (omega arith);
          failovers = settled.failovers_u64 typed.failovers;
        },
      )

  -- The proxies to start from, and the other operations.
  pub new-IsTyped :
      (routes : List Route) (cfg : RetryConfig)
      → IsI64 cfg.max_milli
      → IsTyped (Proxy.new routes cfg)
  unfolding Proxy.new Retry.new
  new-IsTyped routes cfg h = record {
    backends = tt;
    counts = record {
      cap = h;
      tokens = h;
      granted = omega arith;
      denied = omega arith;
      retried = omega arith;
    };
    requests = omega arith;
    failovers = omega arith;
  }

  pub add_pool-IsTyped :
      (x : Proxy U) (p : Pool U) → All InRange p.backends → IsTyped x → IsTyped (add_pool x p)
  unfolding add_pool
  add_pool-IsTyped x p a typed = record {
    backends = insert_pool-All (λ p. All InRange p.backends) p.name p x.pools a typed.backends;
    counts = typed.counts;
    requests = typed.requests;
    failovers = typed.failovers;
  }

  checks-InRange :
      (upstream : Upstream U) (now : ℕ) (pools : List (List ℕ × Pool U))
      → now < u64_mod
      → All (λ e. All InRange e.1.backends) pools
      → All {A = List ℕ × Pool U}
          (λ e. All InRange e.1.backends)
          (map (λ e. (e.0, run_health_checks upstream e.1 now)) pools)
  unfolding run_health_checks
  checks-InRange upstream now [] h a = tt
  checks-InRange upstream now (e ∷ pools) h a = (
    All-map InRange (check_backend upstream e.1.health now)
        (λ b. check_backend-InRange upstream e.1.health now b h) e.1.backends a.0,
    checks-InRange upstream now pools h a.1,
  )

  pub checks-IsTyped :
      (upstream : Upstream U) (x : Proxy U) (now : ℕ)
      → now < u64_mod
      → IsTyped x
      → IsTyped (run_all_health_checks upstream x now)
  unfolding run_all_health_checks
  checks-IsTyped upstream x now h typed = record {
    backends = checks-InRange upstream now x.pools h typed.backends;
    counts = typed.counts;
    requests = typed.requests;
    failovers = typed.failovers;
  }
