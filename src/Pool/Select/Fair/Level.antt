-- ===== src/Pool/Select/Fair/Level.antt =====
-- src/pool.rs, `select_weighted`: the current weight of a node, and what one visit and the payment
-- at the end make of it.
use echofront.Base.{ℕ, suc, ◌+◌, ◌*◌, ◌^◌, ◌≤◌, ◌<◌, ◌≡◌, arith}
use echofront.Base.Int.{ℤ, pos, negsuc, pos_part, neg_part, ◌+ℤ◌, ◌-ℤ◌, +ℤ_parts, -ℤ_parts}
use echofront.Base.Words.{wrap_i64, wrap_i64_lem, add_i64, sub_i64, IsI64}

-- The weight is what a node of score `s` with `c` picks is owed after `t` rounds.
abbrev pub Owed : ℕ → ℕ → ℕ → ℕ → ℤ → Type 0
Owed total t s c w = pos_part w + c * total ≡ neg_part w + t * s

-- The bounds of what is owed bound the weight.
pub Owed-IsI64 :
    (total t s c most : ℕ) (w : ℤ)
    → Owed total t s c w
    → c * total ≤ t * s + total
    → t * s ≤ c * total + most
    → most + total < 2 ^ 63
    → IsI64 w
Owed-IsI64 total t s c most (pos k) e lo hi fits = (omega (arith, e, hi, fits), omega arith)
Owed-IsI64 total t s c most (negsuc k) e lo hi fits = (omega arith, omega (arith, e, lo, fits))

-- The score is added as it is.
pub Owed-add :
    (total t s c most : ℕ) (w : ℤ)
    → Owed total t s c w
    → c * total < t * s + total
    → t * s ≤ c * total + most
    → s ≤ total
    → most + total + total < 2 ^ 63
    → Owed total (suc t) s c (add_i64 w (wrap_i64 (pos s)))
Owed-add total t s c most w e lo hi small fits =
    let score : wrap_i64 (pos s) ≡ pos s = wrap_i64_lem (pos s) (omega arith, omega arith) in
    let owed : Owed total (suc t) s c (w +ℤ pos s) = grind (arith, +ℤ_parts w (pos s), e) in
    let same = wrap_i64_lem (w +ℤ pos s) (
      Owed-IsI64 total (suc t) s c (most + total) (w +ℤ pos s) owed (grind arith) (grind arith)
        (omega (arith, fits))) in
    rw (score, same) owed

-- The total is taken as it is, from a node that is owed something.
pub Owed-sub :
    (total t s c most : ℕ) (w : ℤ)
    → Owed total t s c w
    → c * total < t * s
    → t * s ≤ c * total + most
    → most + total < 2 ^ 63
    → Owed total t s (suc c) (sub_i64 w (pos total))
Owed-sub total t s c most w e lo hi fits =
    let owed : Owed total t s (suc c) (w -ℤ pos total) = grind (arith, -ℤ_parts w (pos total), e) in
    let same =
      wrap_i64_lem (w -ℤ pos total) (
        Owed-IsI64 total t s (suc c) most (w -ℤ pos total) owed (grind arith) (grind arith) fits) in
    rw same owed
