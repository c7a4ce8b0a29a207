-- ===== src/Demo/Print.antt =====
-- src/bin/echofront.rs: the choice of the mode by `main`, and the lines that `usage`, `send` and
-- `print_pool_state` print. A width counts bytes, as the nodes and the services of the scenarios
-- have ASCII names.
use echofront.Base.{
  ℕ, zero, suc, ◌-◌, Bool, true, false, if◌then◌else◌, list_eq, List, [], ◌∷◌, ◌++◌, map, Option,
  none, some, Exec, ok, panic, length,
}
use echofront.Breaker.{BreakerState, closed, opened, half_open}
use echofront.Clock.{now_millis}
use echofront.Demo.{Scene}
use echofront.Http.{bytes}
use echofront.Pool.{Backend, Strategy, weighted, is_ejected}
use echofront.Pool.Spelling.{parse_strategy}
use echofront.Proxy.{Attempt, HandleResult, decimal, pool_of, result_status}
use echofront.Upstream.Mock.{MockUpstream}

-- The branches of `main`.
pub data Mode : Type 0 where
  demo usage : Mode
  spread : Strategy → Mode
  unknown : List ℕ → Mode

-- The strategy of the second argument.
unfoldable strategy_of : Option (List ℕ) → Strategy
unfolding parse_strategy
strategy_of none = weighted
strategy_of (some s) = elim (parse_strategy s) [ none ↦ weighted | some strat ↦ strat ]

-- `main` on its first and second arguments.
unfoldable pub mode_of : Option (List ℕ) → Option (List ℕ) → Mode
unfolding strategy_of
mode_of none second = demo
mode_of (some mode) second =
    if list_eq mode (bytes "demo")
    then demo
    else if list_eq mode (bytes "spread")
    then spread (strategy_of second)
    else if list_eq mode (bytes "help")
    then usage
    else if list_eq mode (bytes "-h")
    then usage
    else if list_eq mode (bytes "--help")
    then usage
    else unknown mode

unfoldable usage_lines : List (List ℕ)
usage_lines =
    bytes "echofront <demo|spread [strategy]|help>"
    ∷ bytes
        "  demo               resilience walkthrough: LB spread, ejection, breaker, failover, recovery"
    ∷ bytes "  spread <strategy>  distribution report for round-robin|weighted|least-conn|sticky"
    ∷ []

unfoldable spaces : ℕ → List ℕ
spaces zero = []
spaces (suc n) = 32 ∷ spaces n

-- `{:<w}` and `{:>w}`.
unfoldable left : ℕ → List ℕ → List ℕ
unfolding spaces
left w text = text ++ spaces (w - length text)

unfoldable right : ℕ → List ℕ → List ℕ
unfolding spaces
right w text = spaces (w - length text) ++ text

-- `Debug` for `BreakerState`.
unfoldable state_text : BreakerState → List ℕ
state_text closed = bytes "Closed"
state_text opened = bytes "Open"
state_text half_open = bytes "HalfOpen"

unfoldable bool_text : Bool → List ℕ
bool_text true = bytes "true"
bool_text false = bytes "false"

-- The format of `print_pool_state`.
unfoldable pool_line : List ℕ → List ℕ → List ℕ → List ℕ → List ℕ → List ℕ → List ℕ
unfolding left right
pool_line node healthy in_flight breaker ejected served =
    bytes "  "
    ++ left 6 node
    ++ bytes " "
    ++ right 8 healthy
    ++ bytes " "
    ++ right 7 in_flight
    ++ bytes " "
    ++ right 9 breaker
    ++ bytes " "
    ++ right 10 ejected
    ++ bytes " "
    ++ right 8 served

-- The loop's body.
unfoldable node_line : ℕ → Backend MockUpstream → List ℕ
unfolding pool_line state_text bool_text is_ejected decimal
node_line now b =
    pool_line b.name (bool_text b.healthy) (decimal b.in_flight) (state_text b.breaker.state)
      (if is_ejected b now then bytes "yes" else bytes "no") (decimal b.served)

unfoldable pub print_pool_state : Scene → List ℕ → Exec (List (List ℕ))
unfolding node_line pool_of now_millis
print_pool_state scene service = elim (pool_of scene.proxy service) [
  | none ↦ panic
  | some pool ↦ ok (
      pool_line (bytes "node") (bytes "healthy") (bytes "in_fl") (bytes "breaker") (bytes "ejected")
        (bytes "served")
      ∷ map (node_line (now_millis scene.clock)) pool.backends)
]

-- One entry of `send`'s trail.
unfoldable attempt_text : Attempt → List ℕ
attempt_text a =
    (if a.is_retry then bytes "retry->" else [])
    ++ a.backend_name
    ++ bytes "("
    ++ a.detail
    ++ bytes " "
    ++ (if a.ok then bytes "ok" else bytes "FAIL")
    ++ bytes ")"

-- `trail.join(" ")`.
unfoldable join : List (List ℕ) → List ℕ
join [] = []
join (t ∷ []) = t
join (t ∷ u ∷ ts) = t ++ bytes " " ++ join (u ∷ ts)

-- The line that `send` prints.
unfoldable pub send_line : List ℕ → HandleResult → List ℕ
unfolding join attempt_text result_status decimal
send_line path res =
    bytes "  "
    ++ decimal (result_status res)
    ++ bytes " "
    ++ path
    ++ bytes " -> "
    ++ elim res.service [ none ↦ bytes "no-route" | some service ↦ service ]
    ++ bytes "  ["
    ++ join (map attempt_text res.attempts)
    ++ bytes "]"
