-- ===== src/Pool/Ejection.antt =====
-- src/pool.rs, `record_failure`: when a node is ejected, and for how long.
use echofront.Base.{ℕ, ◌+◌, ◌<◌, ◌≡◌, refl, ap, ◌∙◌, List, [], ◌∷◌, none, some, length, All, arith}
use echofront.Base.Words.{add_u64, sat_add_u64, u32_mod}
use echofront.Pool.{Backend, HealthConfig, is_ejected}
use echofront.Pool.Outcome.{failure_of, eject_outlier}

module _ {ℓ} {U : Type ℓ} where
  -- Failures at these times, one after the other.
  unfoldable pub fail_at : HealthConfig → List ℕ → Backend U → Backend U
  fail_at health [] b = b
  fail_at health (now ∷ times) b = fail_at health times (failure_of health now b)

  one_below :
      (health : HealthConfig) (now : ℕ) (b : Backend U)
      → b.ejected_until ≡ none
      → b.outlier_failures + 1 < health.outlier_consecutive_failures
      → health.outlier_consecutive_failures < u32_mod
      → ((failure_of health now b).ejected_until ≡ none)
        × ((failure_of health now b).ejections ≡ b.ejections)
        × ((failure_of health now b).outlier_failures ≡ b.outlier_failures + 1)
  unfolding failure_of eject_outlier is_ejected
  one_below health now b e h w = ground arith

  one_ejected :
      (health : HealthConfig) (now until : ℕ) (b : Backend U)
      → b.ejected_until ≡ some until
      → now < until
      → ((failure_of health now b).ejected_until ≡ some until)
        × ((failure_of health now b).ejections ≡ b.ejections)
  unfolding failure_of eject_outlier is_ejected
  one_ejected health now until b e h = ground arith

  below_threshold :
      (health : HealthConfig) (times : List ℕ) (b : Backend U)
      → b.ejected_until ≡ none
      → b.outlier_failures + length times < health.outlier_consecutive_failures
      → health.outlier_consecutive_failures < u32_mod
      → ((fail_at health times b).ejected_until ≡ none)
        × ((fail_at health times b).ejections ≡ b.ejections)
        × ((fail_at health times b).outlier_failures ≡ b.outlier_failures + length times)
  unfolding fail_at failure_of eject_outlier is_ejected
  below_threshold health [] b e h w = (e, refl, omega arith)
  below_threshold health (now ∷ times) b e h w =
      let (until, count, failures) = one_below health now b e (omega (arith, h)) w in
      let (until', count', failures') =
        below_threshold health times (failure_of health now b) until (omega (arith, failures, h))
          w in
      (until', count' ∙ count, omega (arith, failures, failures'))

  at_threshold :
      (health : HealthConfig) (now : ℕ) (b : Backend U)
      → b.ejected_until ≡ none
      → b.outlier_failures + 1 ≡ health.outlier_consecutive_failures
      → health.outlier_consecutive_failures < u32_mod
      → ((failure_of health now b).ejected_until ≡ some (sat_add_u64 now health.ejection_base_ms))
        × ((failure_of health now b).ejections ≡ add_u64 b.ejections 1)
  unfolding failure_of eject_outlier is_ejected
  at_threshold health now b e h w = ground arith

  while_ejected :
      (health : HealthConfig) (times : List ℕ) (b : Backend U) (until : ℕ)
      → b.ejected_until ≡ some until
      → All (λ t. t < until) times
      → ((fail_at health times b).ejected_until ≡ some until)
        × ((fail_at health times b).ejections ≡ b.ejections)
  unfolding fail_at failure_of eject_outlier is_ejected
  while_ejected health [] b until e h = (e, refl)
  while_ejected health (now ∷ times) b until e (h, rest) =
      let (same, count) = one_ejected health now until b e h in
      let (same', count') = while_ejected health times (failure_of health now b) until same rest in
      (same', count' ∙ count)

  -- A node without an ejection is ejected by the failure that makes the count of consecutive
  -- failures reach the threshold, and not before: for `ejection_base_ms` from then on, and counted
  -- once, however many failures land before the cooldown ends.
  pub ejected_once :
      (health : HealthConfig) (before later : List ℕ) (now : ℕ) (b : Backend U)
      → b.ejected_until ≡ none
      → b.outlier_failures + length before + 1 ≡ health.outlier_consecutive_failures
      → health.outlier_consecutive_failures < u32_mod
      → All (λ t. t < sat_add_u64 now health.ejection_base_ms) later
      → ((fail_at health before b).ejected_until ≡ none)
        × ((fail_at health before b).ejections ≡ b.ejections)
        × ((fail_at health later (failure_of health now (fail_at health before b))).ejected_until
            ≡ some (sat_add_u64 now health.ejection_base_ms))
        × ((fail_at health later (failure_of health now (fail_at health before b))).ejections
            ≡ add_u64 b.ejections 1)
  ejected_once health before later now b e h w rest =
      let c = fail_at health before b in
      let (none_yet, count, failures) = below_threshold health before b e (omega (arith, h)) w in
      let (until, count') = at_threshold health now c none_yet (omega (arith, failures, h)) w in
      let (until', count'') = while_ejected health later (failure_of health now c) _ until rest in
      (none_yet, count, until', count'' ∙ count' ∙ ap (λ n. add_u64 n 1) count)
