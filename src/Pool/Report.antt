-- ===== src/Pool/Report.antt =====
-- src/pool.rs, `distribution`: what each node received, against its share of the weight that is
-- available now.
pub mod Shares
pub mod Rows
use echofront.Base.{
  ℕ, zero, suc, Bool, not, ◌&&◌, ltb, if◌then◌else◌, List, [], ◌∷◌, Exec, ok, panic, ◌>>=◌, index,
  contains,
}
use echofront.Base.Float.{Float}
use echofront.Base.Int.{ℤ, pos, ltb_ℤ}
use echofront.Base.Words.{add_i64, add_u64}
use echofront.Ewma.{DistributionRow}
use echofront.Pool.{Pool, Backend, is_available}
use echofront.Pool.Select.{available_indices, weighted_score}

module _ {ℓ} {U : Type ℓ} where
  -- The sum of `served`, from a number on.
  unfoldable pub served_from : ℕ → List (Backend U) → ℕ
  served_from total [] = total
  served_from total (b ∷ backends) = served_from (add_u64 total b.served) backends

  -- The sum of the scores of the nodes that are available, from a number on.
  unfoldable pub score_from : List (Backend U) → ℤ → List ℕ → Exec ℤ
  score_from backends total [] = ok total
  score_from backends total (i ∷ available) = do
    b ← index backends i
    score_from backends (add_i64 total (weighted_score b)) available

-- `100.0 * part as f64 / total as f64`.
unfoldable pub percent {κ} : {W : Type κ} → Float W → ℤ → ℤ → W
percent f part total = f.div (f.mul (f.cast (pos 100)) (f.cast part)) (f.cast total)

module _ {ℓ κ} {U : Type ℓ} {W : Type κ} (f : Float W) where
  -- The share of the weight that the node at an index should receive.
  unfoldable pub expected_share : ℤ → List ℕ → ℕ → Backend U → W
  unfolding percent weighted_score
  expected_share total_score available i b =
      if ltb_ℤ (pos 0) total_score && contains available i
      then percent f (weighted_score b) total_score
      else f.cast (pos 0)

  unfoldable pub served_share : ℕ → Backend U → W
  unfolding percent
  served_share total_served b =
      if ltb 0 total_served then percent f (pos b.served) (pos total_served) else f.cast (pos 0)

  -- The row of the node at an index.
  unfoldable pub row_of : ℕ → ℤ → List ℕ → ℕ → ℕ → Backend U → DistributionRow W
  unfolding expected_share served_share is_available
  row_of total_served total_score available now i b = record {
    name = b.name;
    served = b.served;
    served_share_pct = served_share total_served b;
    expected_share_pct = expected_share total_score available i b;
    weight = b.weight;
    ewma_milli = b.latency_ewma_milli;
    ejected = not (is_available b now);
    ramp_percent = b.ramp_percent;
    ewma_ejections = b.ewma_ejections;
  }

  -- The rows of the nodes from an index on.
  unfoldable pub rows_from : ℕ → ℤ → List ℕ → ℕ → ℕ → List (Backend U) → List (DistributionRow W)
  unfolding row_of
  rows_from total_served total_score available now i [] = []
  rows_from total_served total_score available now i (b ∷ backends) =
      row_of total_served total_score available now i b
      ∷ rows_from total_served total_score available now (suc i) backends

  unfoldable pub distribution : Pool U → ℕ → Exec (List (DistributionRow W))
  unfolding served_from score_from rows_from available_indices weighted_score
  distribution p now = do
    let total_served = served_from 0 p.backends
    let available = available_indices p now []
    total_score ← score_from p.backends (pos 0) available
    ok (rows_from total_served total_score available now 0 p.backends)
