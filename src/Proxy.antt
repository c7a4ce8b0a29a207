-- ===== src/Proxy.antt =====
-- src/proxy.rs: the orchestrator. The clock is read once for each call, so its time is an argument.
-- The map of pools is a list of entries by service name.
pub mod Handle
pub mod Send
pub mod Trips
pub mod Stop
pub mod Conclude
pub mod Start
pub mod Loop
pub mod Promise
pub mod Kept
pub mod Ends
pub mod Handled
pub mod Account
pub mod Typed
pub mod Operated
pub mod Services
pub mod Calm
pub mod Steady
pub mod Reachable
pub mod Used
pub mod Running
pub mod Paid
use echofront.Base.{
  ℕ, zero, suc, ◌+◌, ◌/◌, ◌%◌, Bool, true, false, ◌&&◌, ◌||◌, not, ltb, if◌then◌else◌, list_eq,
  List, [], ◌∷◌, ◌++◌, map, Option, none, some, Exec, ok, panic, ◌>>=◌, index, length,
}
use echofront.Base.Words.{add_u32, add_u64}
use echofront.Http.{Request, Response, bytes, header, host}
use echofront.Pool
use echofront.Pool.{Pool, Backend, change, begin, end}
use echofront.Pool.Health.{run_health_checks}
use echofront.Pool.Outcome.{record_success_latency, record_failure}
use echofront.Pool.Poll.{poll}
use echofront.Pool.Select.{select}
use echofront.Retry
use echofront.Retry.{RetryBudget, RetryConfig, on_request, try_retry}
use echofront.Router.{Route, route}
use echofront.Upstream.{
  Upstream, UpstreamReply, UpstreamError, Outcome, answered, failed, timeout, connection,
  server_error,
}

pub data ProxyError : Type 0 where
  no_route no_healthy_upstream : ProxyError
  all_attempts_failed : ℕ → ProxyError

-- `ProxyError::status`.
unfoldable pub error_status : ProxyError → ℕ
error_status no_route = 404
error_status no_healthy_upstream = 503
error_status (all_attempts_failed n) = 502

-- `Result<Response, ProxyError>`.
pub data Reply : Type 0 where
  success : Response → Reply
  failure : ProxyError → Reply

pub record Attempt : Type 0 where
  pub backend : ℕ
  pub backend_name : List ℕ
  pub ok : Bool
  pub detail : List ℕ
  pub latency_ms : ℕ
  pub is_retry : Bool

pub record HandleResult : Type 0 where
  pub service : Option (List ℕ)
  pub selected : Option ℕ
  pub response : Reply
  pub attempts : List Attempt

-- `HandleResult::status`.
unfoldable pub result_status : HandleResult → ℕ
unfolding error_status
result_status r = elim r.response [ success resp ↦ resp.status | failure e ↦ error_status e ]

pub record Proxy {ℓ} (U : Type ℓ) : Type ℓ where
  pub routes : List Route
  pub pools : List (List ℕ × Pool U)
  pub budget : RetryBudget
  pub sticky_header : List ℕ
  pub total_requests : ℕ
  pub total_retries : ℕ
  pub total_failovers : ℕ

-- `{n}` in a format string. Twenty digits hold every u64.
decimal_from : ℕ → ℕ → List ℕ
decimal_from zero n = []
decimal_from (suc digits) n =
    let rest = decimal_from digits (n / 10) in
    if ltb n 10 then (b'0' + n) ∷ [] else rest ++ (b'0' + n % 10) ∷ []

unfoldable pub decimal : ℕ → List ℕ
unfolding decimal_from
decimal n = decimal_from 20 n

-- `HandleResult::is_success`.
unfoldable pub succeeded : HandleResult → Bool
succeeded r = elim r.response [ success resp ↦ true | failure e ↦ false ]

-- `Display` of `ProxyError`.
unfoldable pub proxy_error_text : ProxyError → List ℕ
unfolding decimal
proxy_error_text no_route = bytes "no route matched"
proxy_error_text no_healthy_upstream = bytes "no healthy upstream"
proxy_error_text (all_attempts_failed n) = bytes "all " ++ decimal n ++ bytes " attempts failed"

-- `Display` of `UpstreamError`.
unfoldable pub error_text : UpstreamError → List ℕ
unfolding decimal
error_text timeout = bytes "timeout"
error_text connection = bytes "connection refused"
error_text (server_error s) = bytes "server error " ++ decimal s

module _ {ℓ} {U : Type ℓ} where
  -- `Proxy::new`.
  unfoldable pub new : List Route → RetryConfig → Proxy U
  unfolding Retry.new
  new routes retry = record {
    routes = routes;
    pools = [];
    budget = Retry.new retry;
    sticky_header = bytes "X-Session-Id";
    total_requests = 0;
    total_retries = 0;
    total_failovers = 0;
  }

  -- `HashMap::insert` and `get_mut`.
  unfoldable pub insert_pool : List ℕ → Pool U → List (List ℕ × Pool U) → List (List ℕ × Pool U)
  insert_pool name pool [] = (name, pool) ∷ []
  insert_pool name pool ((k, other) ∷ pools) =
      if list_eq k name then (k, pool) ∷ pools else (k, other) ∷ insert_pool name pool pools

  unfoldable pub find_pool : List ℕ → List (List ℕ × Pool U) → Option (Pool U)
  find_pool name [] = none
  find_pool name ((k, pool) ∷ pools) = if list_eq k name then some pool else find_pool name pools

  unfoldable pub set_sticky_header : Proxy U → List ℕ → Proxy U
  set_sticky_header x header = record x { sticky_header = header }

  unfoldable pub add_pool : Proxy U → Pool U → Proxy U
  unfolding insert_pool
  add_pool x pool = record x { pools = insert_pool pool.name pool x.pools }

  -- `pool`, and `pool_mut` with what is done to the pool through it.
  unfoldable pub pool_of : Proxy U → List ℕ → Option (Pool U)
  unfolding find_pool
  pool_of x name = find_pool name x.pools

  unfoldable pub pool_mut : Proxy U → List ℕ → (Pool U → Pool U) → Option (Proxy U)
  unfolding pool_of insert_pool
  pool_mut x name f = elim (pool_of x name) [
    | none ↦ none
    | some pool ↦ some (record x { pools = insert_pool name (f pool) x.pools })
  ]

  -- `run_health_checks` over every pool.
  unfoldable pub run_all_health_checks : Upstream U → Proxy U → ℕ → Proxy U
  unfolding run_health_checks
  run_all_health_checks upstream x now = record x {
    pools = map (λ e. (e.0, run_health_checks upstream e.1 now)) x.pools;
  }

  unfoldable pub sticky_key : Proxy U → Request → Option (List ℕ)
  unfolding header host
  sticky_key x req = elim (header req x.sticky_header) [ some v ↦ some v | none ↦ host req ]

  -- `Pool::dispatch`: the upstream's own state moves on.
  unfoldable pub dispatch : Upstream U → Pool U → ℕ → Request → Exec (UpstreamReply × Pool U)
  unfolding change
  dispatch upstream p idx req = do
    b ← index p.backends idx
    let (reply, u) = upstream.send req b.upstream
    p' ← change p idx (λ b. record b { upstream = u })
    ok (reply, p')
