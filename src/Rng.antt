-- ===== src/Rng.antt =====
-- src/rng.rs: the generator of the demonstration and of the tests, `SplitMix64`.
pub mod Stream
use echofront.Base.{ℕ, ◌%◌, ◌/◌, ◌^◌, Bool, ◌==◌, if◌then◌else◌, Exec, ok, panic, ◌>>=◌}
use echofront.Base.Float.{Float}
use echofront.Base.Int.{pos}
use echofront.Base.Words.{add_u64}
use echofront.HashRing.{mix64}

pub record Rng : Type 0 where
  pub state : ℕ

-- `Rng::new`.
unfoldable pub new : ℕ → Rng
new seed = record { state = seed }

-- The three steps on `z` are those of `mix64`.
unfoldable pub next_u64 : Rng → ℕ × Rng
next_u64 r = let s = add_u64 r.state 0x9e37_79b9_7f4a_7c15 in (mix64 s, record r { state = s })

-- `%` panics on a zero bound.
unfoldable pub below : Rng → ℕ → Exec (ℕ × Rng)
below r bound = let (z, r') = next_u64 r in if bound == 0 then panic else ok (z % bound, r')

unfoldable pub index : Rng → ℕ → Exec (ℕ × Rng)
index r len = below r len

-- `unit`: the top 53 bits of a draw, over 2^53.
unfoldable pub unit {ℓ} : {W : Type ℓ} → Float W → Rng → W × Rng
unit f r =
    let (z, r') = next_u64 r in (f.div (f.cast (pos (z / 2 ^ 11))) (f.cast (pos (2 ^ 53))), r')

unfoldable pub chance {ℓ} : {W : Type ℓ} → Float W → W → Rng → Bool × Rng
unfolding unit
chance f p r = let (u, r') = unit f r in (f.lt u p, r')
