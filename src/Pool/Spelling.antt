-- ===== src/Pool/Spelling.antt =====
-- src/pool.rs: the names of the strategies.
use echofront.Base.{
  ℕ, ◌≡◌, refl, ap, ◌∙◌, true, if◌then◌else◌, list_eq, list_eq→eq, List, [], ◌∷◌, map, Option, none,
  some,
}
use echofront.Http.{bytes, to_ascii_lowercase, eq_ignore_ascii_case}
use echofront.Pool.{Strategy, round_robin, weighted, least_connections, consistent_hash}

-- The arms of the `match` in `Strategy::parse`.
abbrev arms : List (List ℕ × Strategy)
arms =
    (bytes "round-robin", round_robin)
    ∷ (bytes "roundrobin", round_robin)
    ∷ (bytes "rr", round_robin)
    ∷ (bytes "weighted", weighted)
    ∷ (bytes "wrr", weighted)
    ∷ (bytes "least-conn", least_connections)
    ∷ (bytes "least-connections", least_connections)
    ∷ (bytes "leastconn", least_connections)
    ∷ (bytes "lc", least_connections)
    ∷ (bytes "consistent-hash", consistent_hash)
    ∷ (bytes "sticky", consistent_hash)
    ∷ (bytes "hash", consistent_hash)
    ∷ []

arm_of : List ℕ → List (List ℕ × Strategy) → Option Strategy
arm_of s [] = none
arm_of s ((name, strategy) ∷ rest) = if list_eq s name then some strategy else arm_of s rest

-- `Strategy::parse`.
unfoldable pub parse_strategy : List ℕ → Option Strategy
unfolding arm_of
parse_strategy s = arm_of (map to_ascii_lowercase s) arms

-- `Strategy::as_str`.
unfoldable pub strategy_name : Strategy → List ℕ
strategy_name round_robin = bytes "round-robin"
strategy_name weighted = bytes "weighted"
strategy_name least_connections = bytes "least-conn"
strategy_name consistent_hash = bytes "consistent-hash"

-- A name in lower case is read back.
parse_strategy-lower :
    (s : Strategy) → arm_of (map to_ascii_lowercase (strategy_name s)) arms ≡ some s
unfolding arm_of strategy_name to_ascii_lowercase
parse_strategy-lower round_robin = refl
parse_strategy-lower weighted = refl
parse_strategy-lower least_connections = refl
parse_strategy-lower consistent_hash = refl

-- The printed name of a strategy, in any mix of upper and lower case, is read as that strategy.
pub parse_strategy-name :
    (s : Strategy) (t : List ℕ)
    → eq_ignore_ascii_case t (strategy_name s) ≡ true
    → parse_strategy t ≡ some s
unfolding parse_strategy
parse_strategy-name s t h =
    ap (λ l. arm_of l arms)
      (list_eq→eq (map to_ascii_lowercase t) (map to_ascii_lowercase (strategy_name s)) h)
    ∙ parse_strategy-lower s
