-- ===== src/Suite/Breaker.antt =====
-- src/breaker.rs, its tests.
use echofront.Base.{ℕ, ◌≡◌, refl, Bool, true, not, ◌==◌, [], ◌∷◌}
use echofront.Breaker
use echofront.Breaker.{
  BreakerConfig, CircuitBreaker, closed, opened, half_open, on_failure, on_success, poll,
  is_callable,
}
use echofront.Suite.{all_of, times, same_state}

-- `cfg`.
abbrev cfg : BreakerConfig
cfg = record {
  failure_threshold = 3;
  success_threshold = 2;
  cooldown_ms = 1_000;
  half_open_max_calls = 1;
}

-- The breaker after `n` failures at time 0.
abbrev failed : ℕ → CircuitBreaker
failed n = times n (λ b. on_failure b 0) (Breaker.new cfg)

abbrev closed_to_open_on_threshold : Bool
closed_to_open_on_threshold = all_of (
    same_state (Breaker.new cfg).state closed
    ∷ same_state (failed 2).state closed
    ∷ same_state (failed 3).state opened
    ∷ not (is_callable (failed 3) 0)
    ∷ [])

closed_to_open_on_threshold_test : closed_to_open_on_threshold ≡ true
unfolding Breaker.new on_failure is_callable
closed_to_open_on_threshold_test = refl

abbrev success_resets_failure_run : Bool
success_resets_failure_run =
    same_state (times 2 (λ b. on_failure b 0) (on_success (failed 2) 0)).state closed

success_resets_failure_run_test : success_resets_failure_run ≡ true
unfolding Breaker.new on_failure on_success
success_resets_failure_run_test = refl

abbrev open_to_half_open_after_cooldown : Bool
open_to_half_open_after_cooldown =
    let early = poll (failed 3) 999 in
    let late = poll early 1_000 in
    all_of (
      same_state (failed 3).state opened
      ∷ same_state early.state opened
      ∷ same_state late.state half_open
      ∷ is_callable late 1_000
      ∷ [])

open_to_half_open_after_cooldown_test : open_to_half_open_after_cooldown ≡ true
unfolding Breaker.new on_failure poll is_callable
open_to_half_open_after_cooldown_test = refl

abbrev half_open_closes_after_successes : Bool
half_open_closes_after_successes =
    let trial = on_success (poll (failed 3) 1_000) 1_000 in
    all_of
      (same_state trial.state half_open ∷ same_state (on_success trial 1_000).state closed ∷ [])

half_open_closes_after_successes_test : half_open_closes_after_successes ≡ true
unfolding Breaker.new on_failure on_success poll
half_open_closes_after_successes_test = refl

abbrev half_open_reopens_on_failure : Bool
half_open_reopens_on_failure =
    let trial = poll (failed 3) 1_000 in
    let again = on_failure trial 1_000 in
    all_of
      (same_state trial.state half_open ∷ same_state again.state opened ∷ (again.trips == 2) ∷ [])

half_open_reopens_on_failure_test : half_open_reopens_on_failure ≡ true
unfolding Breaker.new on_failure poll
half_open_reopens_on_failure_test = refl
