-- ===== src/Breaker/Reference.antt =====
-- src/breaker.rs against an abstract machine that counts down instead of up and forgets the
-- counters of the other states. It is the specification that the breaker refines.
use echofront.Base.{ℕ, suc, ◌-◌, ◌%◌, ◌≡◌, refl, ◌∙◌, List, [], ◌∷◌, leb, if◌then◌else◌, arith, max}
use echofront.Base.Words.{u64_mod}
use echofront.Breaker.{
  closed, opened, half_open, BreakerState, BreakerConfig, CircuitBreaker, new, poll, on_success,
  on_failure,
}
use echofront.Breaker.Invariant.{
  FitsConfig, IsValid, new-IsValid, poll-IsValid, on_success-IsValid, on_failure-IsValid,
}

-- What a breaker is told, and when.
pub data Event : Type 0 where
  polled succeeded failed : ℕ → Event

abbrev pub time : Event → ℕ
time (polled now) = now
time (succeeded now) = now
time (failed now) = now

unfoldable pub step : CircuitBreaker → Event → CircuitBreaker
step b (polled now) = poll b now
step b (succeeded now) = on_success b now
step b (failed now) = on_failure b now

unfoldable pub run : CircuitBreaker → List Event → CircuitBreaker
run b [] = b
run b (e ∷ es) = run (step b e) es

pub step-IsValid : (b : CircuitBreaker) (e : Event) → IsValid b → IsValid (step b e)
unfolding step
step-IsValid b (polled now) v = poll-IsValid b now v
step-IsValid b (succeeded now) v = on_success-IsValid b now v
step-IsValid b (failed now) v = on_failure-IsValid b now v

pub run-IsValid : (b : CircuitBreaker) (es : List Event) → IsValid b → IsValid (run b es)
unfolding run
run-IsValid b [] v = v
run-IsValid b (e ∷ es) v = run-IsValid (step b e) es (step-IsValid b e v)

-- `accepting n`: closed, n more failures in a row trip it. `blocked t`: open since t.
-- `trial n`: n more successes close it.
pub data Phase : Type 0 where
  accepting blocked trial : ℕ → Phase

pub record Reference : Type 0 where
  pub phase : Phase
  pub openings : ℕ

abbrev expire : BreakerConfig → ℕ → Phase → Phase
expire c now (accepting n) = accepting n
expire c now (trial n) = trial n
expire c now (blocked since) =
    if leb c.cooldown_ms (now - since) then trial (max c.success_threshold 1) else blocked since

abbrev succeed : BreakerConfig → Reference → Phase → Reference
succeed c r (accepting n) = record r { phase = accepting (max c.failure_threshold 1) }
succeed c r (trial n) = record r {
  phase = if leb n 1 then accepting (max c.failure_threshold 1) else trial (n - 1);
}
succeed c r (blocked since) = record r { phase = blocked since }

abbrev fail : Reference → ℕ → Phase → Reference
fail r now (accepting n) =
    if leb n 1
    then record { phase = blocked now; openings = suc r.openings }
    else record r { phase = accepting (n - 1) }
fail r now (trial n) = record { phase = blocked now; openings = suc r.openings }
fail r now (blocked since) = record r { phase = blocked since }

unfoldable pub reference_step : BreakerConfig → Reference → Event → Reference
reference_step c r (polled now) = record r { phase = expire c now r.phase }
reference_step c r (succeeded now) = succeed c r (expire c now r.phase)
reference_step c r (failed now) = fail r now (expire c now r.phase)

unfoldable pub reference_run : BreakerConfig → Reference → List Event → Reference
reference_run c r [] = r
reference_run c r (e ∷ es) = reference_run c (reference_step c r e) es

abbrev phase_at : BreakerState → CircuitBreaker → Phase
phase_at closed b = accepting (max b.cfg.failure_threshold 1 - b.consecutive_failures)
phase_at opened b = blocked b.opened_at
phase_at half_open b = trial (max b.cfg.success_threshold 1 - b.consecutive_successes)

-- The breaker stands for a state of the reference machine under the configuration.
pub record Refines (c : BreakerConfig) (b : CircuitBreaker) (r : Reference) : Type 0 where
  pub valid : IsValid b
  pub same_config : b.cfg ≡ c
  pub same_phase : phase_at b.state b ≡ r.phase
  pub trips_counted : b.trips ≡ r.openings % u64_mod

abbrev pub fresh : BreakerConfig → Reference
fresh c = record { phase = accepting (max c.failure_threshold 1); openings = 0 }

new-Refines : (c : BreakerConfig) → FitsConfig c → Refines c (new c) (fresh c)
unfolding new
new-Refines c h = record {
  valid = new-IsValid c h;
  same_config = refl;
  same_phase = ground arith;
  trips_counted = refl;
}

step_state-Refines :
    (b : CircuitBreaker) (n : ℕ) (e : Event)
    → IsValid b
    → b.trips ≡ n % u64_mod
    → let r = reference_step b.cfg (record { phase = phase_at b.state b; openings = n }) e in
      ((step b e).cfg ≡ b.cfg)
      × (phase_at (step b e).state (step b e) ≡ r.phase)
      × ((step b e).trips ≡ r.openings % u64_mod)
unfolding step reference_step poll on_success on_failure
step_state-Refines b n (polled now) v h = ground arith
step_state-Refines b n (succeeded now) v h = ground arith
step_state-Refines b n (failed now) v h = ground arith

step-Refines :
    (c : BreakerConfig) (b : CircuitBreaker) (r : Reference) (e : Event)
    → Refines c b r
    → Refines c (step b e) (reference_step c r e)
step-Refines c b r e h =
    let r' : Reference = record { phase = phase_at b.state b; openings = r.openings } in
    let same : r' ≡ r = λ i. record { phase = h.same_phase i; openings = r.openings } in
    let (cfg_eq, phase_eq, trips_eq) = step_state-Refines b r.openings e h.valid h.trips_counted in
    record {
      valid = step-IsValid b e h.valid;
      same_config = cfg_eq ∙ h.same_config;
      same_phase = rw (← h.same_config, ← same) phase_eq;
      trips_counted = rw (← h.same_config, ← same) trips_eq;
    }

run_from-Refines :
    (c : BreakerConfig) (b : CircuitBreaker) (r : Reference) (es : List Event)
    → Refines c b r
    → Refines c (run b es) (reference_run c r es)
unfolding run reference_run
run_from-Refines c b r [] h = h
run_from-Refines c b r (e ∷ es) h =
    run_from-Refines c (step b e) (reference_step c r e) es (step-Refines c b r e h)

-- After any sequence of polls, successes and failures at any times, a new breaker stands for the
-- state that the reference machine reaches by the same sequence: the same state, the same count
-- left to the next change of state, the same opening time, and one trip for each opening modulo
-- 2^64. The thresholds are u32 values.
pub run-Refines :
    (c : BreakerConfig) (es : List Event)
    → FitsConfig c
    → Refines c (run (new c) es) (reference_run c (fresh c) es)
run-Refines c es h = run_from-Refines c (new c) (fresh c) es (new-Refines c h)
