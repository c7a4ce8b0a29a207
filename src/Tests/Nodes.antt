-- ===== src/Tests/Nodes.antt =====
-- src/pool.rs at concrete inputs.
use echofront.Base.{
  ℕ, zero, suc, ◌≤◌, ◌≡◌, ◌⊎◌, refl, true, false, ltb, leb, List, [], ◌∷◌, none, some, arith,
}
use echofront.Base.Int.{pos}
use echofront.Base.Words.{add_u64, sat_add_u64}
use echofront.Breaker
use echofront.Breaker.{closed}
use echofront.Ewma
use echofront.Http.{bytes}
use echofront.Pool.{Pool, Backend, round_robin, default_health}
use echofront.Pool.Ejection.{fail_at, ejected_once}
use echofront.Pool.Latency.{
  Sustained, poll_backend-ewma_ejections, poll_backend-ramp, poll_backend-ejects_again,
}
use echofront.Pool.Health.{judge_probe, run_health_checks}
use echofront.Pool.Outcome.{failure_of}
use echofront.Pool.Poll.{poll_backend}
use echofront.Pool.Probes.{probed, probes_take_out, probes_bring_back, run_health_checks_idem}
use echofront.Pool.Select.Sticky.{RingFits}
use echofront.Pool.{Strategy}
use echofront.Upstream.{Upstream, UpstreamReply, answered, failed, timeout}

-- An upstream that fails as many times as its state says, and then answers.
abbrev pub flaky : Upstream ℕ
flaky = record { send = λ req n. answer n; probe = λ n. (true, n) }
  where
    answer : ℕ → UpstreamReply × ℕ
    answer zero = (
      record {
        outcome = answered (record { status = 200; reason = bytes "OK"; headers = []; body = [] });
        latency_ms = 12;
      },
      0,
    )
    answer (suc n) = (record { outcome = failed timeout; latency_ms = 100 }, n)

-- A backend of a name and a weight with some requests in flight, whose next requests fail.
abbrev pub backend : List ℕ → ℕ → ℕ → ℕ → Backend ℕ
backend name weight in_flight failures = record {
  name = name;
  weight = weight;
  upstream = failures;
  in_flight = in_flight;
  healthy = true;
  probe_failures = 0;
  probe_successes = 0;
  last_probe = none;
  outlier_failures = 0;
  ejected_until = none;
  ejections = 0;
  breaker = record {
    cfg = Breaker.default_config;
    state = closed;
    consecutive_failures = 0;
    consecutive_successes = 0;
    opened_at = 0;
    trips = 0;
  };
  current_weight = pos 0;
  served = 0;
  latency_ewma_milli = some 9_000_000;
  ewma_samples = 40;
  over_since = some 1_000;
  over_since_samples = 20;
  ewma_ejections = 0;
  ramp_percent = 25;
  last_ramp_step = some 0;
}

abbrev pub node : Backend ℕ
node = backend (bytes "a") 3 1 1

-- Two nodes and a ring that was never built.
abbrev pub nodes_of : Strategy → Pool ℕ
nodes_of strategy = record {
  name = bytes "web";
  backends = node ∷ backend (bytes "b") 1 0 0 ∷ [];
  strategy = strategy;
  health = default_health;
  rr_cursor = 7;
  ring = record { vnodes = 2; ring = []; members = [] };
  ring_signature = [];
  ewma = none;
}

pub nodes_of-RingFits : (s : Strategy) → RingFits (nodes_of s)
nodes_of-RingFits s = record { vnodes_pos = omega arith; built = λ n. absurd (n refl) }

ejected_once_example :
    ((fail_at default_health (1 ∷ 2 ∷ 3 ∷ 4 ∷ []) node).ejected_until ≡ none)
    × ((fail_at default_health (1 ∷ 2 ∷ 3 ∷ 4 ∷ []) node).ejections ≡ 0)
    × ((fail_at default_health (6 ∷ 5_004 ∷ []) (
          failure_of default_health 5
            (fail_at default_health (1 ∷ 2 ∷ 3 ∷ 4 ∷ []) node))).ejected_until
        ≡ some (sat_add_u64 5 5_000))
    × ((fail_at default_health (6 ∷ 5_004 ∷ []) (
          failure_of default_health 5 (fail_at default_health (1 ∷ 2 ∷ 3 ∷ 4 ∷ []) node))).ejections
        ≡ add_u64 0 1)
ejected_once_example =
    ejected_once default_health (1 ∷ 2 ∷ 3 ∷ 4 ∷ []) (6 ∷ 5_004 ∷ []) 5 node refl refl (omega arith)
      (omega arith, (omega arith, tt))

poll_backend-ewma_ejections_example :
    ((poll_backend (some Ewma.default_config) 600_000 90_000 node).ewma_ejections ≡ 0)
    ⊎ Sustained Ewma.default_config 600_000 90_000 node
poll_backend-ewma_ejections_example =
    poll_backend-ewma_ejections Ewma.default_config 600_000 90_000 node

poll_backend-ramp_example :
    (1 ≤ (poll_backend (some Ewma.default_config) 600_000 90_000 node).ramp_percent)
    × ((poll_backend (some Ewma.default_config) 600_000 90_000 node).ramp_percent ≤ 100)
    × (((node.ejected_until ≡ none) → ⊥)
        ⊎ ((25 ≤ (poll_backend (some Ewma.default_config) 600_000 90_000 node).ramp_percent)
            × ((poll_backend (some Ewma.default_config) 600_000 90_000 node).ramp_percent ≤ 50)))
poll_backend-ramp_example =
    poll_backend-ramp (some Ewma.default_config) 600_000 90_000 node (omega arith) (omega arith)

probes_take_out_example :
    ((probed default_health false 1 node).healthy ≡ true)
    × ((probed default_health false 2 node).healthy ≡ ltb 2 2)
    × ((judge_probe default_health true (probed default_health false 1 node)).healthy ≡ true)
    × ((judge_probe default_health true (probed default_health false 1 node)).probe_failures ≡ 0)
probes_take_out_example =
    probes_take_out default_health 1 node refl refl (omega arith) (omega arith)

abbrev down_node : Backend ℕ
down_node = record node { healthy = false }

probes_bring_back_example :
    ((probed default_health true 1 down_node).healthy ≡ false)
    × ((probed default_health true 2 down_node).healthy ≡ leb 2 2)
    × ((judge_probe default_health false (probed default_health true 1 down_node)).healthy ≡ false)
    × ((judge_probe default_health false (probed default_health true 1 down_node)).probe_successes
        ≡ 0)
probes_bring_back_example =
    probes_bring_back default_health 1 down_node refl refl (omega arith) (omega arith)

run_health_checks_idem_example :
    run_health_checks flaky (run_health_checks flaky (nodes_of round_robin) 1_000) 1_000
    ≡ run_health_checks flaky (nodes_of round_robin) 1_000
run_health_checks_idem_example =
    run_health_checks_idem flaky (nodes_of round_robin) 1_000 (omega arith)

-- The failures that ejected it landed while its latency window was open.
abbrev returning_node : Backend ℕ
returning_node = record node { ejected_until = some 80_000 }

poll_backend-ejects_again_example :
    ((poll_backend (some Ewma.default_config) 600_000 90_000 returning_node).ejected_until
      ≡ some (sat_add_u64 90_000 Ewma.default_config.ejection_ms))
    × ((poll_backend (some Ewma.default_config) 600_000 90_000 returning_node).ewma_ejections
        ≡ add_u64 0 1)
poll_backend-ejects_again_example =
    poll_backend-ejects_again Ewma.default_config 600_000 90_000 80_000 1_000 returning_node refl
      (omega arith) refl (omega arith) (omega arith) (omega arith)
