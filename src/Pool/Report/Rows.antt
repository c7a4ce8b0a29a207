-- ===== src/Pool/Report/Rows.antt =====
-- src/pool.rs, `distribution`: what the rows of the report say.
use echofront.Base.{
  ℕ, zero, suc, ◌+◌, ◌≡◌, refl, sym, ap, ◌∙◌, true, false, not, ◌&&◌, List, [], ◌∷◌, none, ok,
  panic, ◌>>=◌, index, length, contains, arith,
}
use echofront.Base.Float.{Float}
use echofront.Base.Int.{ℤ, pos, ltb_ℤ}
use echofront.Ewma.{DistributionRow}
use echofront.Pool.{Pool, Backend, is_available}
use echofront.Pool.Report.{distribution, rows_from, row_of, percent, expected_share, served_from}
use echofront.Pool.Report.Shares.{visit_all-score_from}
use echofront.Pool.Select.{Tally, weighted_score, visit_all, available_indices}
use echofront.Pool.Select.Available.{selectable, contains-available_indices, available_indices-All}
use echofront.Pool.Select.Weighted.{visit_all_lem}

module _ {ℓ κ} {U : Type ℓ} {W : Type κ} (f : Float W) where
  index-rows_from :
      (served : ℕ) (score : ℤ) (available : List ℕ) (now i k : ℕ) (bs : List (Backend U))
      → index (rows_from f served score available now i bs) k
        ≡ (index bs k >>= λ b. ok (row_of f served score available now (i + k) b))
  unfolding rows_from
  index-rows_from served score available now i k [] = refl
  index-rows_from served score available now i zero (b ∷ bs) =
      ap (λ j. ok (row_of f served score available now j b)) (omega arith)
  index-rows_from served score available now i (suc k) (b ∷ bs) =
      index-rows_from served score available now (suc i) k bs
      ∙ ap (λ j. index bs k >>= λ b. ok (row_of f served score available now j b)) (omega arith)

  length-rows_from :
      (served : ℕ) (score : ℤ) (available : List ℕ) (now i : ℕ) (bs : List (Backend U))
      → length (rows_from f served score available now i bs) ≡ length bs
  unfolding rows_from
  length-rows_from served score available now i [] = refl
  length-rows_from served score available now i (b ∷ bs) =
      ap suc (length-rows_from served score available now (suc i) bs)

  -- What a row says of the node at an index, when a weighted selection adds up to `total`.
  pub record Reports (p : Pool U) (now : ℕ) (total : ℤ) (i : ℕ) (b : Backend U)
      (row : DistributionRow W) : Type κ where
    pub same_node : (row.name ≡ b.name) × (row.weight ≡ b.weight) × (row.served ≡ b.served)
    pub ejected : row.ejected ≡ not (selectable p.backends now [] i)
    pub no_share : selectable p.backends now [] i ≡ false → row.expected_share_pct ≡ f.cast (pos 0)
    pub no_total : ltb_ℤ (pos 0) total ≡ false → row.expected_share_pct ≡ f.cast (pos 0)
    pub share :
        selectable p.backends now [] i ≡ true
        → ltb_ℤ (pos 0) total ≡ true
        → row.expected_share_pct ≡ percent f (weighted_score b) total

  row_of-Reports :
      (p : Pool U) (now served : ℕ) (total : ℤ) (i : ℕ) (b : Backend U)
      → index p.backends i ≡ ok b
      → Reports p now total i b (row_of f served total (available_indices p now []) now i b)
  unfolding row_of expected_share
  row_of-Reports p now served total i b e =
      let listed = contains-available_indices p now [] i in
      record {
        same_node = (refl, refl, refl);
        ejected = ap not (
            sym (
              ap (λ m. elim m [ ok b ↦ not (contains [] i) && is_available b now | panic ↦ false ])
                e));
        no_share = λ h. rw (listed ∙ h) (ground arith);
        no_total = λ h. rw h refl;
        share = λ h h'. rw (h', listed ∙ h) refl;
      }

  -- The report and the weighted strategy agree. `distribution` returns, without a panic, one row for
  -- each node, in order. A row says that its node is ejected exactly when the node may not be
  -- selected at that time, and expects a share of zero for it then; the shares that it expects of
  -- the other nodes are their scores over the very total that a weighted selection at that time adds
  -- up, and zero if that total is not positive.
  pub distribution-Reports :
      (p : Pool U) (now : ℕ)
      → (rows : List (DistributionRow W)) × (s : Tally U) × (distribution f p now ≡ ok rows)
        × (visit_all
              (available_indices p now [])
              (record { best = none; total = pos 0; backends = p.backends })
            ≡ ok s)
        × (length rows ≡ length p.backends)
        × ((i : ℕ) (b : Backend U)
            → index p.backends i ≡ ok b
            → (row : DistributionRow W) × (index rows i ≡ ok row) × Reports p now s.total i b row)
  unfolding distribution
  distribution-Reports p now =
      let start : Tally U = record { best = none; total = pos 0; backends = p.backends } in
      let available = available_indices p now [] in
      let (s, e, _, _, _, _, _) =
        visit_all_lem available start (available_indices-All p now []) tt in
      let added = visit_all-score_from available start s (omega arith, omega arith) e in
      let served = served_from 0 p.backends in
      (
        rows_from f served s.total available now 0 p.backends,
        s,
        ap (λ m. m >>= λ t. ok (rows_from f served t available now 0 p.backends)) added,
        e,
        length-rows_from served s.total available now 0 p.backends,
        λ i b e'. (
          row_of f served s.total available now i b,
          index-rows_from served s.total available now 0 i p.backends
              ∙ rw e' (ap (λ j. ok (row_of f served s.total available now j b)) (omega arith)),
          row_of-Reports p now served s.total i b e',
        ),
      )
