-- ===== src/Tests/Guards.antt =====
-- src/breaker.rs, src/retry.rs and src/ewma.rs at concrete inputs.
use echofront.Base.{
  none, ◌+◌, ◌*◌, ◌≤◌, ◌<◌, ◌≡◌, ◌↔◌, ◌⊎◌, refl, true, false, List, [], ◌∷◌, ◌++◌, map, max, arith,
  some, ◌%◌,
}
use echofront.Base.Int.{pos}
use echofront.Base.Words.{u64_mod}
use echofront.Breaker
use echofront.Breaker.{CircuitBreaker, BreakerConfig, closed, opened, half_open, trip, admits}
use echofront.Breaker.Invariant.{FitsConfig, IsValid}
use echofront.Breaker.Reference.{
  Event, polled, succeeded, failed, run, Refines, reference_run, fresh, run-Refines,
}
use echofront.Breaker.Trial.{admits-poll_iff, trip_blocks, failures_trip, trial_ends}
use echofront.Ewma
use echofront.Ewma.{EwmaConfig, fold, threshold_milli}
use echofront.Ewma.Laws.{Within, averaged, averaged-Within}
use echofront.Retry
use echofront.Retry.{RetryBudget, try_retry}
use echofront.Retry.Bound
use echofront.Retry.Bound.{
  Call, request, retry, grants, requests, deposits, amount, cost, deposit, grants_bound,
  new-grants_bound, retry_returns,
}

abbrev fits_default : FitsConfig Breaker.default_config
fits_default = record { failures_u32 = omega arith; successes_u32 = omega arith }

-- Five failures, the cooldown, a trial that fails, another cooldown, and a trial that succeeds.
abbrev outage : List Event
outage =
    failed 1
    ∷ failed 2
    ∷ failed 3
    ∷ failed 4
    ∷ failed 5
    ∷ polled 5_005
    ∷ failed 5_006
    ∷ polled 10_006
    ∷ succeeded 10_007
    ∷ succeeded 10_008
    ∷ []

run-Refines_example :
    Refines Breaker.default_config
      (run (Breaker.new Breaker.default_config) outage)
      (reference_run Breaker.default_config (fresh Breaker.default_config) outage)
run-Refines_example = run-Refines Breaker.default_config outage fits_default

abbrev half_open_breaker : CircuitBreaker
half_open_breaker = record {
  cfg = Breaker.default_config;
  state = half_open;
  consecutive_failures = 0;
  consecutive_successes = 0;
  opened_at = 100;
  trips = 1;
}

abbrev closed_breaker : CircuitBreaker
closed_breaker = record {
  cfg = Breaker.default_config;
  state = closed;
  consecutive_failures = 3;
  consecutive_successes = 0;
  opened_at = 0;
  trips = 0;
}

closed_breaker-IsValid : IsValid closed_breaker
closed_breaker-IsValid = record {
  fits = fits_default;
  failures_below = omega arith;
  successes_below = omega arith;
  failures_in_closed = λ n. absurd (n refl);
  successes_in_half_open = λ n. refl;
}

half_open_breaker-IsValid : IsValid half_open_breaker
half_open_breaker-IsValid = record {
  fits = fits_default;
  failures_below = omega arith;
  successes_below = omega arith;
  failures_in_closed = λ n. refl;
  successes_in_half_open = λ n. refl;
}

admits-poll_iff_example : (admits (Breaker.poll half_open_breaker 200) 200 0 ≡ true) ↔ (
    ((Breaker.poll half_open_breaker 200).state ≡ closed)
    ⊎ (((Breaker.poll half_open_breaker 200).state ≡ half_open) × (0 < max 1 1)))
admits-poll_iff_example = admits-poll_iff half_open_breaker 200 0

trip_blocks_example :
    (run (trip closed_breaker 100) (failed 110 ∷ polled 200 ∷ []) ≡ trip closed_breaker 100)
    × (admits (run (trip closed_breaker 100) (failed 110 ∷ polled 200 ∷ [])) 300 0 ≡ false)
trip_blocks_example =
    trip_blocks closed_breaker 100 300 0 (failed 110 ∷ polled 200 ∷ [])
      (omega arith, (omega arith, tt)) (omega arith)

failures_trip_example :
    ((run closed_breaker (map failed (10 ∷ []))).state ≡ closed)
    × (run closed_breaker (map failed (10 ∷ 20 ∷ [])) ≡ trip closed_breaker 20)
failures_trip_example = failures_trip closed_breaker (10 ∷ []) 20 closed_breaker-IsValid refl refl

trial_ends_example :
    ((run half_open_breaker (map succeeded (10 ∷ []))).state ≡ half_open)
    × (run half_open_breaker (map succeeded (10 ∷ 20 ∷ [])) ≡ record half_open_breaker {
      state = closed;
      consecutive_failures = 0;
      consecutive_successes = 0;
    })
    × (run half_open_breaker (map succeeded (10 ∷ []) ++ failed 20 ∷ [])
        ≡ trip half_open_breaker 20)
trial_ends_example = trial_ends half_open_breaker (10 ∷ []) 20 half_open_breaker-IsValid refl refl

abbrev sensible_default : Bound.IsSensible Retry.default_config
sensible_default = record {
  deposit_nonneg = omega arith;
  cost_positive = omega arith;
  max_nonneg = omega arith;
  fits_i64 = omega arith;
}

abbrev budget : RetryBudget
budget = record { cfg = Retry.default_config; tokens_milli = pos 900; granted = 4; denied = 0 }

budget-IsValid : Bound.IsValid budget
budget-IsValid = record { sensible = sensible_default; no_debt = omega arith; capped = omega arith }

abbrev calls : List Call
calls = retry ∷ request ∷ retry ∷ retry ∷ []

grants_bound_example :
    (grants budget calls * cost budget + amount (Bound.run budget calls)
      ≤ amount budget + requests calls * deposit budget)
    × ((Bound.run budget calls).granted ≡ (4 + grants budget calls) % u64_mod)
grants_bound_example = grants_bound budget calls budget-IsValid (omega arith)

retry_returns_example : (try_retry (Bound.run budget (deposits 5))).1 ≡ true
retry_returns_example = retry_returns budget 5 budget-IsValid (omega arith) (omega arith)

averaged-Within_example :
    Within 10_000 90_000 (averaged Ewma.default_config (some 50_000) (10 ∷ 40 ∷ 90 ∷ 12 ∷ []))
averaged-Within_example =
    averaged-Within Ewma.default_config 10_000 90_000 (some 50_000) (10 ∷ 40 ∷ 90 ∷ 12 ∷ [])
      (omega arith) (omega arith, omega arith)
      (
        (omega arith, omega arith),
        (
          (omega arith, omega arith),
          ((omega arith, omega arith), ((omega arith, omega arith), tt)),
        ),
      )

-- The average itself, from the start: 25 per cent of each new sample.
averaged_test : averaged Ewma.default_config none (10 ∷ 40 ∷ 90 ∷ 12 ∷ []) ≡ some 29_718
unfolding fold
averaged_test = refl
