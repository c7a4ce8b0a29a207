-- ===== src/Breaker.antt =====
-- src/breaker.rs: the circuit breaker of one upstream, a state machine driven by the outcomes of
-- requests and by the clock, which is an argument of each call. `Invariant` has the invariant,
-- `Reference` the abstract machine, and `Trial` the runs that trip, block and close it.
pub mod Invariant
pub mod Reference
pub mod Trial
use echofront.Base.{ℕ, ◌-◌, Bool, true, false, ◌&&◌, not, ltb, leb, if◌then◌else◌, max}
use echofront.Base.Words.{add_u32, add_u64}

pub data BreakerState : Type 0 where
  closed opened half_open : BreakerState

pub record BreakerConfig : Type 0 where
  pub failure_threshold : ℕ
  pub success_threshold : ℕ
  pub cooldown_ms : ℕ
  pub half_open_max_calls : ℕ

-- `BreakerConfig::default`.
abbrev pub default_config : BreakerConfig
default_config = record {
  failure_threshold = 5;
  success_threshold = 2;
  cooldown_ms = 5_000;
  half_open_max_calls = 1;
}

pub record CircuitBreaker : Type 0 where
  pub cfg : BreakerConfig
  pub state : BreakerState
  pub consecutive_failures : ℕ
  pub consecutive_successes : ℕ
  pub opened_at : ℕ
  pub trips : ℕ

-- `CircuitBreaker::new`.
unfoldable pub new : BreakerConfig → CircuitBreaker
new cfg = record {
  cfg = cfg;
  state = closed;
  consecutive_failures = 0;
  consecutive_successes = 0;
  opened_at = 0;
  trips = 0;
}

-- `self.state == BreakerState::Open`.
abbrev is_open : BreakerState → Bool
is_open opened = true
is_open closed = false
is_open half_open = false

-- `now.saturating_sub(self.opened_at) >= self.cfg.cooldown_ms`.
abbrev cooled : CircuitBreaker → ℕ → Bool
cooled b now = leb b.cfg.cooldown_ms (now - b.opened_at)

unfoldable pub poll : CircuitBreaker → ℕ → CircuitBreaker
poll b now =
    if is_open b.state && cooled b now
    then record b { state = half_open; consecutive_successes = 0 }
    else b

unfoldable pub is_callable : CircuitBreaker → ℕ → Bool
is_callable b now = elim b.state [ closed ↦ true | half_open ↦ true | opened ↦ cooled b now ]

unfoldable pub admits : CircuitBreaker → ℕ → ℕ → Bool
unfolding is_callable
admits b now in_flight =
    if not (is_callable b now)
    then false
    else elim b.state [ half_open ↦ ltb in_flight (max b.cfg.half_open_max_calls 1) | _ ↦ true ]

unfoldable pub trip : CircuitBreaker → ℕ → CircuitBreaker
trip b now = record b {
  state = opened;
  opened_at = now;
  consecutive_failures = 0;
  consecutive_successes = 0;
  trips = add_u64 b.trips 1;
}

-- The `match` of `on_success`, on the polled breaker.
count_success : BreakerState → CircuitBreaker → CircuitBreaker
count_success closed b = record b { consecutive_failures = 0 }
count_success half_open b =
    let n = add_u32 b.consecutive_successes 1 in
    if leb b.cfg.success_threshold n
    then record b { state = closed; consecutive_failures = 0; consecutive_successes = 0 }
    else record b { consecutive_successes = n }
count_success opened b = b

unfoldable pub on_success : CircuitBreaker → ℕ → CircuitBreaker
unfolding poll count_success
on_success b now = let b' = poll b now in count_success b'.state b'

-- The `match` of `on_failure`, on the polled breaker.
count_failure : BreakerState → CircuitBreaker → ℕ → CircuitBreaker
unfolding trip
count_failure closed b now =
    let n = add_u32 b.consecutive_failures 1 in
    let b' = record b { consecutive_failures = n } in
    if leb b.cfg.failure_threshold n then trip b' now else b'
count_failure half_open b now = trip b now
count_failure opened b now = b

unfoldable pub on_failure : CircuitBreaker → ℕ → CircuitBreaker
unfolding poll count_failure
on_failure b now = let b' = poll b now in count_failure b'.state b' now
