-- ===== src/Base/Words.antt =====
-- Rust's machine integers in a release build: plain operators wrap, `saturating_*` stop at the
-- end of the range. A value is a plain number (an integer for i64); its range is an invariant.
use Prim.Native.Nat.{ℕ, ◌+◌, ◌-◌, ◌*◌, ◌%◌, ◌^◌, ◌≤◌, ◌<◌, min}
use mathlib.Core.Path.{◌≡◌}
use native.Mathlib.Omega.{arith}
use echofront.Base.Tests.{ltb, if◌then◌else◌}
use echofront.Base.Int.{ℤ, pos, negsuc, ◌+ℤ◌, ◌-ℤ◌, pos_part, neg_part}

abbrev pub u32_mod : ℕ
u32_mod = 2 ^ 32

abbrev pub u64_mod : ℕ
u64_mod = 2 ^ 64

abbrev pub u128_mod : ℕ
u128_mod = 2 ^ 128

abbrev pub u64_max : ℕ
u64_max = 2 ^ 64 - 1

-- `a + b` on u32 and u64.
abbrev pub add_u32 : ℕ → ℕ → ℕ
add_u32 a b = (a + b) % u32_mod

abbrev pub add_u64 : ℕ → ℕ → ℕ
add_u64 a b = (a + b) % u64_mod

-- `saturating_add` on u64, `saturating_mul` on u32 and u64. `saturating_sub` is `-` on ℕ.
abbrev pub sat_add_u64 : ℕ → ℕ → ℕ
sat_add_u64 a b = min (a + b) u64_max

abbrev pub sat_mul_u64 : ℕ → ℕ → ℕ
sat_mul_u64 a b = min (a * b) u64_max

abbrev pub sat_mul_u32 : ℕ → ℕ → ℕ
sat_mul_u32 a b = min (a * b) (u32_mod - 1)

-- `u64::try_from(x).unwrap_or(u64::MAX)`.
abbrev pub u64_of_u128 : ℕ → ℕ
u64_of_u128 x = min x u64_max

-- The i64 that has the same 64 bits as the integer.
unfoldable pub wrap_i64 : ℤ → ℤ
wrap_i64 a =
    let w = (pos_part a + (u64_mod - neg_part a % u64_mod)) % u64_mod in
    if ltb w (2 ^ 63) then pos w else negsuc (u64_mod - w - 1)

-- `a + b` and `a - b` on i64.
abbrev pub add_i64 : ℤ → ℤ → ℤ
add_i64 a b = wrap_i64 (a +ℤ b)

abbrev pub sub_i64 : ℤ → ℤ → ℤ
sub_i64 a b = wrap_i64 (a -ℤ b)

-- The range of i64.
abbrev pub IsI64 : ℤ → Type 0
IsI64 a = (pos_part a < 2 ^ 63) × (neg_part a ≤ 2 ^ 63)

-- An integer in the range is left alone.
pub wrap_i64_lem : (a : ℤ) → IsI64 a → wrap_i64 a ≡ a
unfolding wrap_i64
wrap_i64_lem (pos n) h = ground arith
wrap_i64_lem (negsuc n) h = ground arith

pub wrap_i64-IsI64 : (a : ℤ) → IsI64 (wrap_i64 a)
unfolding wrap_i64
wrap_i64-IsI64 a = ground arith
