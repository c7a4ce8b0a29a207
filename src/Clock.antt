-- ===== src/Clock.antt =====
-- src/clock.rs: the clock that a test drives by hand, and the clock of the machine.
use echofront.Base.{ℕ, Option, none, some}
use echofront.Base.Words.{sat_add_u64, u64_of_u128}

pub record ManualClock : Type 0 where
  pub now : ℕ

-- `ManualClock::new`, `advance`, `set` and `now_millis`.
unfoldable pub new : ℕ → ManualClock
new start_millis = record { now = start_millis }

unfoldable pub advance : ManualClock → ℕ → ManualClock
advance c delta = record c { now = sat_add_u64 c.now delta }

unfoldable pub set : ManualClock → ℕ → ManualClock
set c millis = record c { now = millis }

unfoldable pub now_millis : ManualClock → ℕ
now_millis c = c.now

-- `SystemClock::now_millis`, from the milliseconds that the machine shows since the epoch, or
-- nothing when it stands before the epoch.
unfoldable pub system_now_millis : Option ℕ → ℕ
system_now_millis none = 0
system_now_millis (some millis) = u64_of_u128 millis
