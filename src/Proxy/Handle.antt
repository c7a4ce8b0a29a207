-- ===== src/Proxy/Handle.antt =====
-- src/proxy.rs, `handle`: route, select, send, feed the outcome back, and fail over. The loop runs
-- on fuel, one unit for each attempt; fuel that runs out counts as a panic.
use echofront.Base.{
  ℕ, zero, suc, true, false, ltb, if◌then◌else◌, List, [], ◌∷◌, ◌++◌, Option, none, some, Exec, ok,
  panic, ◌>>=◌, index,
}
use echofront.Base.Words.{add_u32, add_u64}
use echofront.Http.{Request}
use echofront.Pool.{Pool, begin, end}
use echofront.Pool.Outcome.{record_success_latency, record_failure}
use echofront.Pool.Poll.{poll}
use echofront.Pool.Select.{select}
use echofront.Proxy.{
  Proxy, ProxyError, no_route, no_healthy_upstream, all_attempts_failed, Reply, success, failure,
  Attempt, HandleResult, decimal, error_text, dispatch, sticky_key, find_pool, insert_pool,
}
use echofront.Retry.{RetryBudget, on_request, try_retry}
use echofront.Router.{route}
use echofront.Upstream.{Upstream, Outcome, answered, failed}

-- The variables of the loop.
pub record Trip {ℓ} (U : Type ℓ) : Type ℓ where
  pub pool : Pool U
  pub budget : RetryBudget
  pub attempts : List Attempt
  pub tried : List ℕ
  pub first_selected : Option ℕ
  pub attempt_no : ℕ
  pub total_retries : ℕ
  pub total_failovers : ℕ

-- How a round of the loop ends: it returns, or goes round again.
pub data Round {ℓ} (U : Type ℓ) : Type ℓ where
  finished : Reply → Trip U → Round U
  again : Trip U → Round U

-- The error when nothing can be selected.
abbrev pub exhausted : List Attempt → ℕ → ProxyError
exhausted [] attempt_no = no_healthy_upstream
exhausted (a ∷ attempts) attempt_no = all_attempts_failed attempt_no

abbrev pub or_first : Option ℕ → ℕ → Option ℕ
or_first none idx = some idx
or_first (some i) idx = some i

abbrev pub unrouted : Option (List ℕ) → HandleResult
unrouted service = record {
  service = service;
  selected = none;
  response = failure no_route;
  attempts = [];
}

module _ {ℓ} {U : Type ℓ} where
  -- The end of a round after a failure: give up, or spend a retry.
  unfoldable pub retry_or_stop : ℕ → Trip U → Round U
  unfolding try_retry
  retry_or_stop max_retries t =
      if ltb max_retries t.attempt_no
      then finished (failure (all_attempts_failed t.attempt_no)) t
      else (let (budget, allowed) = try_retry t.budget in
          if allowed
          then again (record t { budget = budget; total_retries = add_u64 t.total_retries 1 })
          else finished (failure (all_attempts_failed t.attempt_no)) (record t { budget = budget }))

  -- The `match reply.outcome`, for a reply of backend `idx`.
  unfoldable pub conclude : Outcome → ℕ → ℕ → List ℕ → ℕ → ℕ → Trip U → Exec (Round U)
  unfolding record_success_latency record_failure retry_or_stop decimal error_text
  conclude (answered resp) latency idx name now max_retries t = do
    pool ← record_success_latency t.pool idx now latency
    let a : Attempt = record {
      backend = idx;
      backend_name = name;
      ok = true;
      detail = decimal resp.status;
      latency_ms = latency;
      is_retry = ltb 0 t.attempt_no;
    }
    ok (finished (success resp) (record t { pool = pool; attempts = t.attempts ++ a ∷ [] }))
  conclude (failed e) latency idx name now max_retries t = do
    pool ← record_failure t.pool idx now
    let a : Attempt = record {
      backend = idx;
      backend_name = name;
      ok = false;
      detail = error_text e;
      latency_ms = latency;
      is_retry = ltb 0 t.attempt_no;
    }
    ok (
        retry_or_stop max_retries (record t {
          pool = pool;
          attempts = t.attempts ++ a ∷ [];
          tried = t.tried ++ idx ∷ [];
          attempt_no = add_u32 t.attempt_no 1;
        }))

  -- From the selection of `idx` on; the selected backend has the request in flight while it answers.
  unfoldable pub send_to : Upstream U → ℕ → Request → ℕ → ℕ → Trip U → Exec (Round U)
  unfolding begin end dispatch conclude
  send_to upstream now req max_retries idx t = do
    p1 ← begin t.pool idx
    (reply, p2) ← dispatch upstream p1 idx req
    b ← index p2.backends idx
    p3 ← end p2 idx
    conclude reply.outcome reply.latency_ms idx b.name now max_retries (record t {
      pool = p3;
      first_selected = or_first t.first_selected idx;
      total_failovers =
          if ltb 0 t.attempt_no then add_u64 t.total_failovers 1 else t.total_failovers;
    })

  -- The `let Some(idx) = .. else`.
  unfoldable pub go_on : Upstream U → ℕ → Request → ℕ → Trip U → Pool U × Option ℕ → Exec (Round U)
  unfolding send_to
  go_on upstream now req max_retries t (pool, none) =
      ok (finished (failure (exhausted t.attempts t.attempt_no)) (record t { pool = pool }))
  go_on upstream now req max_retries t (pool, some idx) =
      send_to upstream now req max_retries idx (record t { pool = pool })

  -- One round of the loop.
  unfoldable pub round : Upstream U → ℕ → Option (List ℕ) → Request → ℕ → Trip U → Exec (Round U)
  unfolding select go_on
  round upstream now key req max_retries t = do
    chosen ← select t.pool now key t.tried
    go_on upstream now req max_retries t chosen

  -- The loop.
  unfoldable pub loop :
      ℕ → Upstream U → ℕ → Option (List ℕ) → Request → ℕ → Trip U → Exec (Reply × Trip U)
  unfolding round
  loop zero upstream now key req max_retries t = panic
  loop (suc fuel) upstream now key req max_retries t = do
    r ← round upstream now key req max_retries t
    elim r [
      | finished reply t' ↦ ok (reply, t')
      | again t' ↦ loop fuel upstream now key req max_retries t'
    ]

  -- The variables as the loop is entered.
  unfoldable pub depart : Proxy U → Pool U → Trip U
  depart x pool = record {
    pool = pool;
    budget = x.budget;
    attempts = [];
    tried = [];
    first_selected = none;
    attempt_no = 0;
    total_retries = x.total_retries;
    total_failovers = x.total_failovers;
  }

  -- The proxy and the result after the loop.
  unfoldable pub arrive : Proxy U → List ℕ → Reply × Trip U → Proxy U × HandleResult
  unfolding insert_pool
  arrive x service (reply, t) = (
    record x {
      pools = insert_pool service t.pool x.pools;
      budget = t.budget;
      total_retries = t.total_retries;
      total_failovers = t.total_failovers;
    },
    record {
      service = some service;
      selected = t.first_selected;
      response = reply;
      attempts = t.attempts;
    },
  )

  -- From the route on; `max_retries + 1` attempts are the most that the loop makes.
  unfoldable pub serve :
      Upstream U → Proxy U → ℕ → Request → List ℕ → Option (Pool U) → Exec (Proxy U × HandleResult)
  unfolding poll loop round depart arrive sticky_key
  serve upstream x now req service none = ok (x, unrouted (some service))
  serve upstream x now req service (some pool) = do
    let max_retries = x.budget.cfg.max_retries_per_request
    r ←
        loop (suc max_retries) upstream now (sticky_key x req) req max_retries
          (depart x (poll pool now))
    ok (arrive x service r)

  unfoldable pub routed :
      Upstream U → Proxy U → ℕ → Request → Option (List ℕ) → Exec (Proxy U × HandleResult)
  unfolding serve find_pool
  routed upstream x now req none = ok (x, unrouted none)
  routed upstream x now req (some service) =
      serve upstream x now req service (find_pool service x.pools)

  -- `handle`, at the time that the clock shows.
  unfoldable pub handle : Upstream U → Proxy U → ℕ → Request → Exec (Proxy U × HandleResult)
  unfolding on_request routed route
  handle upstream x now req =
      routed upstream
        (record x { total_requests = add_u64 x.total_requests 1; budget = on_request x.budget }) now
        req (route x.routes req)
