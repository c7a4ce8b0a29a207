-- ===== src/Proxy/Kept.antt =====
-- src/proxy.rs, `handle`: it keeps its promises, and what its parts keep.
use echofront.Base.{
  [], sym, ℕ, suc, ◌+◌, ◌<◌, ◌≡◌, inl, inr, refl, ap, ◌∙◌, Exec, List, Option, none, some, ok,
  ◌>>=◌, All, All-map, All-mono, arith,
}
use echofront.Base.Words.{u32_mod, add_u64}
use echofront.Ewma.{EwmaConfig}
use echofront.Http.{Request}
use echofront.Pool.{Pool, Backend}
use echofront.Pool.Poll.{poll, poll_backend, threshold}
use echofront.Pool.Select.Invariant.{select_safe}
use echofront.Pool.Select.Sticky.{RingFits}
use echofront.Proxy.{Proxy, HandleResult, find_pool, sticky_key}
use echofront.Proxy.Handle.{depart, arrive, serve, routed, handle, unrouted}
use echofront.Proxy.Loop.{loop_lem}
use echofront.Proxy.Start.{depart-Sound}
use echofront.Pool.Polled.{poll-RingFits}
use echofront.Proxy.Trips.{Opening, Keeps}
use echofront.Retry.{on_request, RetryBudget}
use echofront.Router.{route}
use echofront.Upstream.{Upstream}
use echofront.Proxy.Promise.{
  Handled, enter, Settled, refused, selectable-WasAvailable, find_pool-All, find_pool-insert_pool,
  insert_pool-All,
}

module _ {ℓ} {U : Type ℓ} where
  -- Every pool's ring fits, and `P` holds of every backend.
  abbrev pub PoolsKept : (Backend U → Type 0) → Proxy U → Type ℓ
  PoolsKept P x = All (λ e. RingFits e.1 × All P e.1.backends) x.pools

module _ {ℓ} {U : Type ℓ} (P : Backend U → Type 0) (Q : RetryBudget → ℕ → Type 0) (now : ℕ)
    (k : Keeps now P Q)
    (polled : (ewma : Option EwmaConfig) (line : ℕ) (b : Backend U)
      → P b
      → P (poll_backend ewma line now b)) where
  poll-All : (p : Pool U) → All P p.backends → All P (poll p now).backends
  unfolding poll
  poll-All p =
      All-map P (poll_backend p.ewma (threshold p) now) (polled p.ewma (threshold p)) p.backends

  -- What a part of `handle` promises of its outcome.
  abbrev Settles :
      ℕ → Option (List ℕ) → Option (List ℕ) → Proxy U → Exec (Proxy U × HandleResult) → Type ℓ
  Settles requests key service x m =
      (x' : Proxy U) × (r : HandleResult) × (m ≡ ok (x', r))
      × PoolsKept P x'
      × Q x'.budget x'.total_retries
      × Handled service x.budget.cfg.max_retries_per_request r
      × Settled now key requests x x' r

  serve-some :
      (upstream : Upstream U) (x : Proxy U) (req : Request) (service : List ℕ) (pool : Pool U)
      → x.budget.cfg.max_retries_per_request + 1 < u32_mod
      → PoolsKept P x
      → (RingFits pool × All P pool.backends)
      → Q x.budget x.total_retries
      → find_pool service x.pools ≡ some pool
      → Settles x.total_requests
          (sticky_key x req)
          (some service)
          x
          (serve upstream x now req service (some pool))
  unfolding serve depart arrive
  serve-some upstream x req service pool m a f paid found =
      let most = x.budget.cfg.max_retries_per_request in
      let (q, choice, opens, _, _) =
        select_safe (poll pool now) now (sticky_key x req) [] (poll-RingFits pool now f.0) in
      let start : Opening U = record { pool = poll pool now; choice = choice } in
      let (reply, t, e, returned) =
        loop_lem P Q start (suc most) upstream (sticky_key x req) req (enter x now) k
          (depart x (poll pool now)) q opens m
          (depart-Sound P Q x (poll pool now) choice (enter x now) refl refl
            (poll-RingFits pool now f.0) (poll-All pool f.1) paid)
          (omega arith) in
      (
        (arrive x service (reply, t)).0,
        (arrive x service (reply, t)).1,
        ap (λ m. m >>= λ r. ok (arrive x service r)) e,
        insert_pool-All (λ p. RingFits p × All P p.backends) service t.pool x.pools
            (returned.fits, returned.kept) a,
        returned.paid,
        record {
          same_service = refl;
          within = omega (arith, returned.within);
          distinct = returned.distinct;
          flagged = returned.flagged;
          first = returned.first;
          agrees = inr returned.agrees;
        },
        record {
          available =
              All-mono _ _ t.attempts
                (λ a. selectable-WasAvailable x now service pool found a.backend)
                returned.available;
          chosen = inr (
            service,
            pool,
            q,
            refl,
            found,
            opens ∙ ap (λ i. ok (q, i)) (sym (returned.first ∙ returned.opened)),
          );
          counted = refl;
          failed_over = returned.failed_over;
          failovers_u64 = returned.failovers_u64;
          reason =
              inr (
                service,
                t.pool,
                refl,
                find_pool-insert_pool service t.pool x.pools,
                returned.cause,
              );
        },
      )

  routed_lem :
      (upstream : Upstream U) (x : Proxy U) (req : Request) (service : Option (List ℕ))
      → x.budget.cfg.max_retries_per_request + 1 < u32_mod
      → PoolsKept P x
      → Q x.budget x.total_retries
      → Settles x.total_requests (sticky_key x req) service x (routed upstream x now req service)
  unfolding routed serve
  routed_lem upstream x req none m a paid = (
    x,
    unrouted none,
    refl,
    a,
    paid,
    refused none x.budget.cfg.max_retries_per_request,
    record {
      available = tt;
      chosen = inl (tt, refl);
      counted = refl;
      failed_over = omega arith;
      failovers_u64 = λ h. h;
      reason = inl (refl, tt, omega arith);
    },
  )
  routed_lem upstream x req (some service) m a paid = go (find_pool service x.pools) refl
    where
      go :
          (found : Option (Pool U))
          → find_pool service x.pools ≡ found
          → Settles x.total_requests
              (sticky_key x req)
              (some service)
              x
              (routed upstream x now req (some service))
      go none e = (
        x,
        unrouted (some service),
        ap (serve upstream x now req service) e,
        a,
        paid,
        refused (some service) x.budget.cfg.max_retries_per_request,
        record {
          available = tt;
          chosen = inl (e, refl);
          counted = refl;
          failed_over = omega arith;
          failovers_u64 = λ h. h;
          reason = inl (refl, e, omega arith);
        },
      )
      go (some pool) e =
          let (x', r, done, fit, paid', handled, settled) =
            serve-some upstream x req service pool m a
              (find_pool-All (λ p. RingFits p × All P p.backends) service x.pools a e) paid e in
          (x', r, ap (serve upstream x now req service) e ∙ done, fit, paid', handled, settled)

  -- `handle` keeps what its parts keep, whatever the backends answer.
  pub handle_lem :
      (upstream : Upstream U) (x : Proxy U) (req : Request)
      → x.budget.cfg.max_retries_per_request + 1 < u32_mod
      → PoolsKept P x
      → Q (on_request x.budget) x.total_retries
      → Settles
          (add_u64 x.total_requests 1)
          (sticky_key x req)
          (route x.routes req)
          x
          (handle upstream x now req)
  unfolding handle on_request sticky_key
  handle_lem upstream x req m a paid =
      let entered : Proxy U = record x {
        total_requests = add_u64 x.total_requests 1;
        budget = on_request x.budget;
      } in
      let (x', r, done, kept, left, handled, settled) =
        routed_lem upstream entered req (route x.routes req) m a paid in
      (
        x',
        r,
        done,
        kept,
        left,
        handled,
        record {
          available = settled.available;
          chosen = settled.chosen;
          counted = settled.counted;
          failed_over = settled.failed_over;
          failovers_u64 = settled.failovers_u64;
          reason = settled.reason;
        },
      )
