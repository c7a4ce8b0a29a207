-- ===== src/Suite/Numbers.antt =====
-- src/retry.rs, src/ewma.rs, src/rng.rs and src/clock.rs, their tests.
use echofront.Base.{
  ℕ, zero, suc, ◌+◌, ◌≡◌, refl, Bool, true, not, ◌&&◌, ◌==◌, ltb, leb, if◌then◌else◌, [], ◌∷◌, none,
  some, Exec, ok, ◌>>=◌,
}
use echofront.Base.Int.{◌+ℤ◌, ◌-ℤ◌}
use echofront.Base.Words.{wrap_i64}
use echofront.Clock
use echofront.Clock.{now_millis, advance, set}
use echofront.Ewma
use echofront.Ewma.{fold, threshold_milli}
use echofront.HashRing.{mix64}
use echofront.Retry
use echofront.Retry.{RetryBudget, on_request, try_retry}
use echofront.Rng
use echofront.Rng.{Rng, next_u64, below}
use echofront.Suite.{all_of, times}

-- `while b.try_retry() {}`, with room for as many retries as a full bucket pays for.
abbrev drain : ℕ → RetryBudget → RetryBudget
drain zero b = b
drain (suc n) b =
    let (b', allowed) = try_retry b in let rest = drain n b' in if allowed then rest else b'

abbrev drained : RetryBudget
drained = drain 11 (Retry.new Retry.default_config)

-- One request and one retry: the budget, and how many were allowed.
abbrev one_more : RetryBudget × ℕ → RetryBudget × ℕ
one_more (b, allowed) =
    let (b', granted) = try_retry (on_request b) in (b', if granted then allowed + 1 else allowed)

abbrev budget_caps_retry_rate : Bool
budget_caps_retry_rate =
    let (_, allowed) = times 100 one_more (Retry.new Retry.default_config, 0) in
    ltb allowed 60 && leb 20 allowed

budget_caps_retry_rate_test : budget_caps_retry_rate ≡ true
unfolding Retry.new on_request try_retry wrap_i64 ◌+ℤ◌ ◌-ℤ◌
budget_caps_retry_rate_test = refl

abbrev no_retry_once_drained : Bool
no_retry_once_drained = let (b, allowed) = try_retry drained in not allowed && leb 1 b.denied

no_retry_once_drained_test : no_retry_once_drained ≡ true
unfolding Retry.new try_retry wrap_i64 ◌-ℤ◌
no_retry_once_drained_test = refl

abbrev deposits_accumulate_then_spend : Bool
deposits_accumulate_then_spend =
    let (b, first) = try_retry (times 5 on_request drained) in first && not (try_retry b).1

deposits_accumulate_then_spend_test : deposits_accumulate_then_spend ≡ true
unfolding Retry.new on_request try_retry wrap_i64 ◌+ℤ◌ ◌-ℤ◌
deposits_accumulate_then_spend_test = refl

abbrev fold_seeds_then_smooths : Bool
fold_seeds_then_smooths =
    let a = fold Ewma.default_config none 100 in
    (a == 100_000) && (fold Ewma.default_config (some a) 0 == 75_000)

fold_seeds_then_smooths_test : fold_seeds_then_smooths ≡ true
unfolding fold
fold_seeds_then_smooths_test = refl

abbrev threshold_scales_mean : Bool
threshold_scales_mean =
    (threshold_milli Ewma.default_config 10_000 == 30_000)
    && (threshold_milli Ewma.default_config 0 == 0)

threshold_scales_mean_test : threshold_scales_mean ≡ true
unfolding threshold_milli
threshold_scales_mean_test = refl

abbrev manual_clock_advances_and_sets : Bool
manual_clock_advances_and_sets =
    let c = Clock.new 1_000 in
    let c' = advance c 500 in
    all_of
      ((now_millis c == 1_000) ∷ (now_millis c' == 1_500) ∷ (now_millis (set c' 42) == 42) ∷ [])

manual_clock_advances_and_sets_test : manual_clock_advances_and_sets ≡ true
unfolding Clock.new now_millis advance set
manual_clock_advances_and_sets_test = refl

-- Behind an `Rc`, the clock is the same one.
abbrev rc_clock_delegates : Bool
rc_clock_delegates = now_millis (Clock.new 7) == 7

rc_clock_delegates_test : rc_clock_delegates ≡ true
unfolding Clock.new now_millis
rc_clock_delegates_test = refl

-- `n` draws of two generators.
abbrev alike : ℕ → Rng → Rng → Bool
alike zero a b = true
alike (suc n) a b =
    let (x, a') = next_u64 a in let (y, b') = next_u64 b in (x == y) && alike n a' b'

abbrev deterministic_stream : Bool
deterministic_stream = alike 1_000 (Rng.new 12_345) (Rng.new 12_345)

deterministic_stream_test : deterministic_stream ≡ true
unfolding Rng.new next_u64 mix64
deterministic_stream_test = refl

-- `n` draws below 7.
abbrev bounded : ℕ → Rng → Exec Bool
bounded zero r = ok true
bounded (suc n) r = below r 7 >>= λ (x, r'). bounded n r' >>= λ rest. ok (ltb x 7 && rest)

abbrev below_is_bounded : Exec Bool
below_is_bounded = bounded 10_000 (Rng.new 1)

below_is_bounded_test : below_is_bounded ≡ ok true
unfolding Rng.new next_u64 below mix64
below_is_bounded_test = refl
