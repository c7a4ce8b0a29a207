-- ===== src/Proxy/Account.antt =====
-- src/proxy.rs, `handle`: why it returned what it did, and what it counted.
use echofront.Base.{
  ℕ, ◌+◌, ◌<◌, ◌≡◌, ◌≢◌, inl, inr, sym, ap, ◌∙◌, List, [], none, some, ok, All, All-mono,
}
use echofront.Base.Words.{u32_mod, add_u64}
use echofront.Http.{Request}
use echofront.Pool.{Pool, consistent_hash}
use echofront.Pool.Poll.{poll}
use echofront.Pool.Polled.{poll-RingFits}
use echofront.Pool.Select.{select, members_of, available_indices}
use echofront.Pool.Select.Sticky.{RingFits}
use echofront.Pool.Select.Strategies.{consistent_hash_choice}
use echofront.HashRing.{lookup, rebuild}
use echofront.Proxy.{Proxy, HandleResult, sticky_key, find_pool}
use echofront.Proxy.Handle.{handle}
use echofront.Proxy.Handled.{PoolsFit, nothing, All-trivial}
use echofront.Proxy.Kept.{handle_lem}
use echofront.Proxy.Promise.{WasAvailable, Settled, Chosen, find_pool-All}
use echofront.Proxy.Reachable.{Reachable, Reachable-PoolsFit}
use echofront.Router.{route}
use echofront.Upstream.{Upstream}

module _ {ℓ} {U : Type ℓ} where
  -- `handle` gives an account of itself, if every pool's cached ring fits its nodes and the retries
  -- per request stay below 2^32 - 1. It counts one request, and a failover for each attempt but the
  -- first. It says that there is no route only when no route matched or the service has no pool. It
  -- fails otherwise only when no backend is left that it has not tried, is healthy, not ejected and
  -- admitted by its breaker (and has a weight, if the strategy is weighted), or it made
  -- `max_retries_per_request + 1` attempts, or the budget does not hold the cost of a retry. It
  -- counts a retry for each attempt but the first, and, when it stopped because no backend was left
  -- after an attempt, one more, which the budget paid and no attempt followed. All counts are modulo
  -- 2^64. Its attempts were at available backends, and the backend that it reports as selected is the
  -- first choice of the pool's strategy.
  pub handle-Settled :
      (upstream : Upstream U) (x : Proxy U) (now : ℕ) (req : Request)
      → x.budget.cfg.max_retries_per_request + 1 < u32_mod
      → PoolsFit x
      → (x' : Proxy U) × (r : HandleResult) × (handle upstream x now req ≡ ok (x', r))
        × (r.service ≡ route x.routes req)
        × Settled now (sticky_key x req) (add_u64 x.total_requests 1) x x' r
  handle-Settled upstream x now req m a =
      let (x', r, done, _, _, handled, settled) =
        handle_lem (λ _. Unit) (λ _ _. Unit) now (nothing now) (λ ewma line b p. tt) upstream x req
          m (All-mono _ _ x.pools (λ e f. (f, All-trivial e.1.backends)) a) tt in
      (x', r, done, handled.same_service, settled)

  -- No request goes to a backend that is out. Whatever pools a program adds, whatever it does to a
  -- pool with the pool's operations, whatever health checks run and whatever requests came before,
  -- every attempt of `handle` is at a backend of the service's pool that, once the pool is polled at
  -- that time, is healthy, not ejected, and admitted by its breaker, if the retries per request stay
  -- below 2^32 - 1.
  pub attempts-WasAvailable :
      (upstream : Upstream U) (x : Proxy U) (now : ℕ) (req : Request)
      → Reachable upstream x
      → x.budget.cfg.max_retries_per_request + 1 < u32_mod
      → (x' : Proxy U) × (r : HandleResult) × (handle upstream x now req ≡ ok (x', r))
        × All (λ a. WasAvailable x now r.service a.backend) r.attempts
  attempts-WasAvailable upstream x now req h m =
      let (x', r, done, _, settled) =
        handle-Settled upstream x now req m (Reachable-PoolsFit upstream x h) in
      (x', r, done, settled.available)

  -- The backend that `handle` reports as selected is the first choice of the pool's strategy: the one
  -- that `select` answers, with nothing excluded, on the service's pool polled at that time, for the
  -- request's value of the sticky header or, without one, its host. It is none exactly if there is
  -- no pool or `select` answers none, however the attempts end. This holds if every pool's cached
  -- ring fits its nodes and the retries per request stay below 2^32 - 1.
  pub handle-Chosen :
      (upstream : Upstream U) (x : Proxy U) (now : ℕ) (req : Request)
      → x.budget.cfg.max_retries_per_request + 1 < u32_mod
      → PoolsFit x
      → (x' : Proxy U) × (r : HandleResult) × (handle upstream x now req ≡ ok (x', r))
        × (r.service ≡ route x.routes req)
        × Chosen x now (sticky_key x req) r
  handle-Chosen upstream x now req m a =
      let (x', r, done, service, settled) = handle-Settled upstream x now req m a in
      (x', r, done, service, settled.chosen)

  -- Sessions stick: on a pool that hashes, whose nodes are available in part at least, the backend
  -- that `handle` reports as selected for a request with a key is the owner of the key on a ring
  -- built afresh from the nodes that are available once the pool is polled, whatever requests came
  -- before and whatever ring the pool had cached.
  pub handle-sticky :
      (upstream : Upstream U) (x : Proxy U) (now : ℕ) (req : Request) (name : List ℕ) (p : Pool U)
      (key : List ℕ)
      → Reachable upstream x
      → x.budget.cfg.max_retries_per_request + 1 < u32_mod
      → route x.routes req ≡ some name
      → find_pool name x.pools ≡ some p
      → p.strategy ≡ consistent_hash
      → sticky_key x req ≡ some key
      → available_indices (poll p now) now [] ≢ []
      → (x' : Proxy U) × (r : HandleResult) × (ms : List (ℕ × List ℕ)) × (handle upstream x now req
          ≡ ok (x', r))
        × (members_of (poll p now).backends (available_indices (poll p now) now []) ≡ ok ms)
        × (r.selected ≡ lookup (rebuild p.ring ms) key)
  unfolding poll
  handle-sticky upstream x now req name p key h m routed found hashes keyed some_left =
      let fit = Reachable-PoolsFit upstream x h in
      let (x', r, done, service, chosen) = handle-Chosen upstream x now req m fit in
      let fits = poll-RingFits p now (find_pool-All RingFits name x.pools fit found) in
      let (p', ms, id, picked, members, owner) =
        consistent_hash_choice (poll p now) now key [] hashes fits some_left in
      (x', r, ms, done, members, go r chosen (service ∙ routed) p' id picked ∙ sym owner)
    where
      go :
          (r : HandleResult)
          → Chosen x now (sticky_key x req) r
          → r.service ≡ some name
          → (p' : Pool U) (id : ℕ) → select (poll p now) now (some key) [] ≡ ok (p', some id)
          → r.selected ≡ some id
      go r (inl (none_found, _)) service p' id picked =
          let none_here : find_pool name x.pools ≡ none = rw service at none_found in cc
      go r (inr (s, q, after, same, found', choice)) service p' id picked =
          let same_name : s ≡ name = cc in
          let same_pool : q ≡ p = cc (found', found, ap (λ n. find_pool n x.pools) same_name) in
          let choice' : select (poll p now) now (some key) [] ≡ ok (after, r.selected) =
            rw (same_pool, keyed) at choice in
          cc
