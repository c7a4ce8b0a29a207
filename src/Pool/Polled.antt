-- ===== src/Pool/Polled.antt =====
-- src/pool.rs, `poll`: what it leaves alone.
use echofront.Base.{ℕ, ◌≡◌, refl, ◌∙◌, Option, none, some, arith}
use echofront.Breaker
use echofront.Ewma.{EwmaConfig}
use echofront.Pool.{Pool, Backend}
use echofront.Pool.Poll.{
  poll, poll_backend, threshold, end_ejection, reinstate, ramp_up, judge, over_line,
}
use echofront.Pool.Select.Names.{names-map, RingFits-names}
use echofront.Pool.Select.Sticky.{RingFits}

module _ {ℓ} {U : Type ℓ} where
  name-end_ejection :
      (ewma : Option EwmaConfig) (now : ℕ) (b : Backend U) → (end_ejection ewma now b).name ≡ b.name
  unfolding end_ejection reinstate
  name-end_ejection none now b = ground arith
  name-end_ejection (some cfg) now b = ground arith

  name-ramp_up : (cfg : EwmaConfig) (now : ℕ) (b : Backend U) → (ramp_up cfg now b).name ≡ b.name
  unfolding ramp_up
  name-ramp_up cfg now b = ground arith

  name-judge :
      (cfg : EwmaConfig) (line now : ℕ) (b : Backend U) → (judge cfg line now b).name ≡ b.name
  unfolding judge over_line
  name-judge cfg line now b = ground arith

  pub name-poll_backend :
      (ewma : Option EwmaConfig) (line now : ℕ) (b : Backend U)
      → (poll_backend ewma line now b).name ≡ b.name
  unfolding poll_backend
  name-poll_backend none line now b =
      name-end_ejection none now (record b { breaker = Breaker.poll b.breaker now })
  name-poll_backend (some cfg) line now b =
      let polled : Backend U = record b { breaker = Breaker.poll b.breaker now } in
      let back = end_ejection (some cfg) now polled in
      name-judge cfg line now (ramp_up cfg now back)
      ∙ name-ramp_up cfg now back
      ∙ name-end_ejection (some cfg) now polled

  pub poll-RingFits : (p : Pool U) (now : ℕ) → RingFits p → RingFits (poll p now)
  unfolding poll
  poll-RingFits p now = RingFits-names p (poll p now) refl refl (
      names-map (poll_backend p.ewma (threshold p) now) p.backends
        (name-poll_backend p.ewma (threshold p) now))
