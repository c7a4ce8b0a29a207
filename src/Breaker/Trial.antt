-- ===== src/Breaker/Trial.antt =====
-- src/breaker.rs: when a breaker trips, how long it stays open, and how a trial ends.
use mathlib.Core.List.{map-append}
use echofront.Base.{
  ℕ, ◌+◌, ◌-◌, ◌<◌, ◌≡◌, ◌↔◌, ◌⊎◌, refl, ap, ◌∙◌, true, false, List, [], ◌∷◌, ◌++◌, map, arith, max,
  length, All,
}
use echofront.Breaker.{
  closed, opened, half_open, CircuitBreaker, poll, admits, trip, on_success, on_failure,
}
use echofront.Breaker.Invariant.{IsValid}
use echofront.Breaker.Reference.{Event, polled, succeeded, failed, time, step, run, step-IsValid}

-- A polled breaker admits one more call exactly when it is closed, or half open with fewer calls
-- in flight than the trial cap, which is never below one.
pub admits-poll_iff :
    (b : CircuitBreaker) (now in_flight : ℕ)
    → (admits (poll b now) now in_flight ≡ true) ↔ (
        ((poll b now).state ≡ closed)
        ⊎ (((poll b now).state ≡ half_open) × (in_flight < max b.cfg.half_open_max_calls 1)))
unfolding admits poll
admits-poll_iff b now in_flight = ground arith

step_cooling :
    (b : CircuitBreaker) (e : Event)
    → b.state ≡ opened
    → time e - b.opened_at < b.cfg.cooldown_ms
    → step b e ≡ b
unfolding step poll on_success on_failure
step_cooling b (polled now) s h = ground arith
step_cooling b (succeeded now) s h = ground arith
step_cooling b (failed now) s h = ground arith

run_cooling :
    (b : CircuitBreaker) (es : List Event)
    → b.state ≡ opened
    → All (λ e. time e - b.opened_at < b.cfg.cooldown_ms) es
    → run b es ≡ b
unfolding run
run_cooling b [] s h = refl
run_cooling b (e ∷ es) s h = rw (step_cooling b e s h.0) (run_cooling b es s h.1)

-- While the cooldown of a trip runs, the breaker is not callable, and nothing that is reported to
-- it extends or shortens the cooldown: whatever happens within `cooldown_ms` of the trip leaves it
-- as the trip left it, and it admits no call.
pub trip_blocks :
    (b : CircuitBreaker) (t now in_flight : ℕ) (es : List Event)
    → All (λ e. time e - t < b.cfg.cooldown_ms) es
    → now - t < b.cfg.cooldown_ms
    → (run (trip b t) es ≡ trip b t) × (admits (run (trip b t) es) now in_flight ≡ false)
trip_blocks b t now in_flight es h k =
    let same : run (trip b t) es ≡ trip b t = unfold trip in run_cooling (trip b t) es refl h in
    (same, rw same (closed_off b t now in_flight k))
  where
    closed_off :
        (b : CircuitBreaker) (t now in_flight : ℕ)
        → now - t < b.cfg.cooldown_ms
        → admits (trip b t) now in_flight ≡ false
    closed_off b t now in_flight k = unfold trip admits in ground arith

-- The breaker after `n` failures, or `n` trial successes, that change no state.
abbrev failing : CircuitBreaker → ℕ → CircuitBreaker
failing b n = record b { consecutive_failures = b.consecutive_failures + n }

abbrev recovering : CircuitBreaker → ℕ → CircuitBreaker
recovering b n = record b { consecutive_successes = b.consecutive_successes + n }

one_failure :
    (b : CircuitBreaker) (t : ℕ)
    → IsValid b
    → b.state ≡ closed
    → b.consecutive_failures + 1 < max b.cfg.failure_threshold 1
    → step b (failed t) ≡ failing b 1
unfolding step on_failure
one_failure b t v s h = ground arith

run_failures :
    (b : CircuitBreaker) (ts : List ℕ)
    → IsValid b
    → b.state ≡ closed
    → b.consecutive_failures + length ts < max b.cfg.failure_threshold 1
    → run b (map failed ts) ≡ failing b (length ts)
unfolding run
run_failures b [] v s h = ground arith
run_failures b (t ∷ ts) v s h =
    let one : step b (failed t) ≡ failing b 1 = one_failure b t v s (omega arith) in
    let v' : IsValid (failing b 1) = rw one at (step-IsValid b (failed t) v) in
    ap (λ c. run c (map failed ts)) one
    ∙ run_failures (failing b 1) ts v' s (omega arith)
    ∙ ap (λ n. record b { consecutive_failures = n }) (omega arith)

run-append : (b : CircuitBreaker) (es es' : List Event) → run b (es ++ es') ≡ run (run b es) es'
unfolding run
run-append b [] es' = refl
run-append b (e ∷ es) es' = run-append (step b e) es es'

last_failure :
    (b : CircuitBreaker) (n t : ℕ)
    → IsValid b
    → b.state ≡ closed
    → b.consecutive_failures + n + 1 ≡ max b.cfg.failure_threshold 1
    → step (failing b n) (failed t) ≡ trip b t
unfolding step on_failure trip
last_failure b n t v s h = ground arith

-- A closed breaker trips at the failure that completes a run of `failure_threshold` failures in a
-- row (one failure, if the threshold is zero), and not before: it stays closed until the last one,
-- and is then left as `trip` leaves it, open since that failure's time.
pub failures_trip :
    (b : CircuitBreaker) (ts : List ℕ) (t : ℕ)
    → IsValid b
    → b.state ≡ closed
    → b.consecutive_failures + length ts + 1 ≡ max b.cfg.failure_threshold 1
    → ((run b (map failed ts)).state ≡ closed) × (run b (map failed (ts ++ t ∷ [])) ≡ trip b t)
failures_trip b ts t v s h =
    let many : run b (map failed ts) ≡ failing b (length ts) =
      run_failures b ts v s (omega arith) in
    (
      ap (λ x. x.state) many ∙ s,
      rw (map-append, run-append, many) (unfold run in last_failure b (length ts) t v s h),
    )

one_success :
    (b : CircuitBreaker) (t : ℕ)
    → IsValid b
    → b.state ≡ half_open
    → b.consecutive_successes + 1 < max b.cfg.success_threshold 1
    → step b (succeeded t) ≡ recovering b 1
unfolding step on_success
one_success b t v s h = ground arith

run_successes :
    (b : CircuitBreaker) (ts : List ℕ)
    → IsValid b
    → b.state ≡ half_open
    → b.consecutive_successes + length ts < max b.cfg.success_threshold 1
    → run b (map succeeded ts) ≡ recovering b (length ts)
unfolding run
run_successes b [] v s h = ground arith
run_successes b (t ∷ ts) v s h =
    let one : step b (succeeded t) ≡ recovering b 1 = one_success b t v s (omega arith) in
    let v' : IsValid (recovering b 1) = rw one at (step-IsValid b (succeeded t) v) in
    ap (λ c. run c (map succeeded ts)) one
    ∙ run_successes (recovering b 1) ts v' s (omega arith)
    ∙ ap (λ n. record b { consecutive_successes = n }) (omega arith)

last_success :
    (b : CircuitBreaker) (n t : ℕ)
    → IsValid b
    → b.state ≡ half_open
    → b.consecutive_successes + n + 1 ≡ max b.cfg.success_threshold 1
    → step (recovering b n) (succeeded t)
      ≡ record b { state = closed; consecutive_failures = 0; consecutive_successes = 0 }
unfolding step on_success
last_success b n t v s h = ground arith

failed_trial :
    (b : CircuitBreaker) (n t : ℕ)
    → b.state ≡ half_open
    → step (recovering b n) (failed t) ≡ trip b t
unfolding step on_failure trip
failed_trial b n t s = ground arith

-- A trial lasts until `success_threshold` successes in a row (one, if the threshold is zero): the
-- breaker stays half open until the last of them, which closes it with both runs at zero, and a
-- failure in the last one's place reopens it for a fresh cooldown.
pub trial_ends :
    (b : CircuitBreaker) (ts : List ℕ) (t : ℕ)
    → IsValid b
    → b.state ≡ half_open
    → b.consecutive_successes + length ts + 1 ≡ max b.cfg.success_threshold 1
    → ((run b (map succeeded ts)).state ≡ half_open)
      × (run b (map succeeded (ts ++ t ∷ []))
          ≡ record b { state = closed; consecutive_failures = 0; consecutive_successes = 0 })
      × (run b (map succeeded ts ++ failed t ∷ []) ≡ trip b t)
trial_ends b ts t v s h =
    let many : run b (map succeeded ts) ≡ recovering b (length ts) =
      run_successes b ts v s (omega arith) in
    (
      ap (λ x. x.state) many ∙ s,
      rw (map-append, run-append, many) (unfold run in last_success b (length ts) t v s h),
      rw (run-append, many) (unfold run in failed_trial b (length ts) t s),
    )
