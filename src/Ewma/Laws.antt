-- ===== src/Ewma/Laws.antt =====
-- src/ewma.rs: the moving average stays in the range of its samples, decays, and never wraps; the
-- ejection line is monotone.
use echofront.Base.{
  ℕ, ◌+◌, ◌-◌, ◌*◌, ◌/◌, ◌≤◌, ◌<◌, ◌≡◌, ap, min, max, arith, Option, none, some, List, [], ◌∷◌, All,
}
use echofront.Base.Words.{u64_max, u64_mod, sat_mul_u64}
use echofront.Ewma.{EwmaConfig, threshold_milli, blend, fold}

mul_mono : (a x y : ℕ) → x ≤ y → a * x ≤ a * y
mul_mono a x y h = grind arith

mul_mono_both : (x x' y y' : ℕ) → x ≤ x' → y ≤ y' → x * y ≤ x' * y'
mul_mono_both x x' y y' h k = omega (arith, mul_mono x y y' k, mul_mono y' x x' h)

-- A weighted mean of two numbers in thousandths, the weights `a` and `q`.
mean_bounds :
    (a q s p lo hi : ℕ)
    → a + q ≡ 1_000
    → lo ≤ s
    → lo ≤ p
    → s ≤ hi
    → p ≤ hi
    → (1_000 * lo ≤ a * s + q * p) × (a * s + q * p ≤ 1_000 * hi)
mean_bounds a q s p lo hi h ls lp sh ph =
    let all_lo = ap (λ (t : ℕ). t * lo) h in
    let all_hi = ap (λ (t : ℕ). t * hi) h in
    (
      omega (arith, all_lo, mul_mono a lo s ls, mul_mono q lo p lp),
      omega (arith, all_hi, mul_mono a s hi sh, mul_mono q p hi ph),
    )

abbrev alpha : EwmaConfig → ℕ
alpha c = min c.alpha_milli 1_000

split_alpha : (c : EwmaConfig) → alpha c + (1_000 - alpha c) ≡ 1_000
split_alpha c = omega arith

-- The wrapping 128-bit blend is the exact weighted mean, rounded down: no step of it overflows,
-- and the result fits u64.
blend_exact :
    (c : EwmaConfig) (sample prev : ℕ)
    → sample < u64_mod
    → prev < u64_mod
    → blend c sample prev ≡ (alpha c * sample + (1_000 - alpha c) * prev) / 1_000
unfolding blend
blend_exact c sample prev hs hp =
    let (low, high) =
      mean_bounds (alpha c) (1_000 - alpha c) sample prev 0 u64_max (omega arith) (omega arith)
        (omega arith) (omega arith) (omega arith) in
    omega (arith, high)

-- A fold lands between the old average and the sample, which saturates at the end of u64, both
-- ends included.
pub fold_between :
    (c : EwmaConfig) (prev latency : ℕ)
    → prev < u64_mod
    → (min prev (sat_mul_u64 latency 1_000) ≤ fold c (some prev) latency)
      × (fold c (some prev) latency ≤ max prev (sat_mul_u64 latency 1_000))
unfolding fold
fold_between c prev latency h =
    let s : ℕ = sat_mul_u64 latency 1_000 in
    let bounds =
      mean_bounds (alpha c) (1_000 - alpha c) s prev (min prev s) (max prev s) (omega arith)
        (omega arith) (omega arith) (omega arith) (omega arith) in
    rw (blend_exact c s prev (omega arith) h) (omega (arith, bounds.0), omega (arith, bounds.1))

-- The average after a run of latencies, from the average before it, if any.
abbrev pub averaged : EwmaConfig → Option ℕ → List ℕ → Option ℕ
averaged c start [] = start
averaged c start (latency ∷ latencies) = averaged c (some (fold c start latency)) latencies

-- No average yet, or one from `lo` to `hi`.
abbrev pub Within : ℕ → ℕ → Option ℕ → Type 0
Within lo hi none = Unit {0}
Within lo hi (some avg) = (lo ≤ avg) × (avg ≤ hi)

-- The average never leaves the range of the latencies that were seen: over any run of latencies
-- whose samples, in thousandths and saturated at the end of u64, are from `lo` to `hi`, with `hi`
-- below 2^64, an average that starts afresh, or from `lo` to `hi`, ends from `lo` to `hi` (or is
-- still none, if there were none), for any smoothing factor.
pub averaged-Within :
    (c : EwmaConfig) (lo hi : ℕ) (start : Option ℕ) (latencies : List ℕ)
    → hi < u64_mod
    → Within lo hi start
    → All (λ l. (lo ≤ sat_mul_u64 l 1_000) × (sat_mul_u64 l 1_000 ≤ hi)) latencies
    → Within lo hi (averaged c start latencies)
averaged-Within c lo hi start [] h w a = w
averaged-Within c lo hi none (l ∷ ls) h w a =
    averaged-Within c lo hi (some (fold c none l)) ls h (unfold fold in a.0) a.1
averaged-Within c lo hi (some prev) (l ∷ ls) h w a =
    let (above, below) = fold_between c prev l (omega (arith, w.1, h)) in
    averaged-Within c lo hi (some (fold c (some prev) l)) ls h
      (omega (arith, above, w.0, a.0.0), omega (arith, below, w.1, a.0.1)) a.1

-- With a smoothing factor above zero, a sample that lies a thousandth or more below the average
-- brings the average down: an adversarial sample does not stay.
pub fold_decays :
    (c : EwmaConfig) (prev latency : ℕ)
    → prev < u64_mod
    → 0 < c.alpha_milli
    → sat_mul_u64 latency 1_000 < prev
    → fold c (some prev) latency < prev
unfolding fold
fold_decays c prev latency h pos below =
    let s : ℕ = sat_mul_u64 latency 1_000 in
    let all = ap (λ (t : ℕ). t * prev) (split_alpha c) in
    rw (blend_exact c s prev (omega arith) h)
      (omega (arith, all, mul_mono (alpha c) (s + 1) prev (omega arith)))

-- A larger pool mean, or a larger factor, never gives a lower line.
pub threshold_milli_mono :
    (c c' : EwmaConfig) (mean mean' : ℕ)
    → mean' < u64_mod
    → c'.factor_milli < u64_mod
    → mean ≤ mean'
    → c.factor_milli ≤ c'.factor_milli
    → threshold_milli c mean ≤ threshold_milli c' mean'
unfolding threshold_milli
threshold_milli_mono c c' mean mean' hm hf h k =
    let wider = mul_mono_both mean mean' c.factor_milli c'.factor_milli h k in
    let fits = mul_mono_both mean' u64_max c'.factor_milli u64_max (omega arith) (omega arith) in
    omega (arith, wider, fits)
