-- ===== src/Pool/Report/Shares.antt =====
-- src/pool.rs, `distribution`: the report and the selection agree.
use echofront.Base.{
  ℕ, ◌*◌, ◌≡◌, ◌≢◌, ◌⊎◌, inl, inr, refl, sym, ap, ◌∙◌, false, ◌==◌, ==_iff, Bool-cases, List, [],
  ◌∷◌, map, Exec, ok, panic, ◌>>=◌, index, index-lt, update, modify_lem, arith,
}
use echofront.Base.Int.{ℤ, pos, ◌+ℤ◌}
use echofront.Base.Words.{add_i64, wrap_i64, IsI64, wrap_i64_lem, wrap_i64-IsI64}
use echofront.Pool.{Backend}
use echofront.Pool.Report.{score_from}
use echofront.Pool.Select.{Tally, weighted_score, weigh, visit, visit_all, challenge}
use echofront.Pool.Select.Available.{strip, SameNodes}
use echofront.Pool.Select.Fair.Visit.{scored, visit_to}
use echofront.Pool.Select.Names.{index-map}
use echofront.Pool.Select.Visited.{update-SameNodes}

-- An exec that has a value, and what it is.
Exec-cases {ℓ} : {A : Type ℓ} (m : Exec A) → ((a : A) × (m ≡ ok a)) ⊎ (m ≡ panic)
Exec-cases (ok a) = inl (a, refl)
Exec-cases panic = inr refl

heavy_weight : (w : ℕ) → (w == 0) ≡ false → w ≢ 0
heavy_weight w h = ground (arith, h)

module _ {ℓ} {U : Type ℓ} where
  -- A weight of zero adds nothing to the total.
  light_score :
      (b : Backend U) (total : ℤ)
      → b.weight ≡ 0
      → IsI64 total
      → add_i64 total (weighted_score b) ≡ total
  unfolding weighted_score ◌+ℤ◌
  light_score b total z h =
      let nought : b.weight * b.ramp_percent ≡ 0 = rw z (omega arith) in
      let none_added : wrap_i64 (pos (b.weight * b.ramp_percent)) ≡ pos 0 =
        rw nought (wrap_i64_lem (pos 0) (omega arith, omega arith)) in
      rw none_added (ground (arith, wrap_i64_lem total h))

  -- A visit adds the score of the node to the total, and changes a current weight at most.
  visit_total :
      (i : ℕ) (s s' : Tally U) (b : Backend U)
      → index s.backends i ≡ ok b
      → IsI64 s.total
      → visit i s ≡ ok s'
      → (s'.total ≡ add_i64 s.total (weighted_score b)) × SameNodes s.backends s'.backends
  unfolding visit weigh
  visit_total i s s' b e h v = elim (Bool-cases (b.weight == 0)) [
    | inl light ↦
        let same : s ≡ s' = cc (rw (e, visit) at v, light) in
        (
          ap (λ t. t.total) (sym same)
              ∙ sym (light_score b s.total ((==_iff b.weight 0).0 light) h),
          ap (λ t. map strip t.backends) (sym same),
        )
    | inr heavy ↦
        let moved = modify_lem s.backends i (scored b) (index-lt s.backends i e) in
        elim (Exec-cases (challenge (update s.backends i (scored b)) i s.best)) [
          | inl (best, c) ↦
              let same : s' ≡ record {
                best = best;
                total = add_i64 s.total (weighted_score b);
                backends = update s.backends i (scored b);
              } =
                cc (v, visit_to i s b best e (heavy_weight b.weight heavy) c) in
              (
                ap (λ t. t.total) same ∙ refl,
                ap (λ t. map strip t.backends) same
                    ∙ update-SameNodes s.backends i
                        (λ w. add_i64 w.current_weight (weighted_score b)),
              )
          | inr c ↦ let none_left : panic ≡ ok s' = rw (e, heavy, moved, c) at v in cc
        ]
  ]

  score_from-strip :
      (bs : List (Backend U)) (total : ℤ) (is : List ℕ)
      → score_from (map strip bs) total is ≡ score_from bs total is
  unfolding score_from weighted_score
  score_from-strip bs total [] = refl
  score_from-strip bs total (i ∷ is) = elim (Exec-cases (index bs i)) [
    | inl (b, e) ↦
        rw (index-map strip bs i, e) (score_from-strip bs (add_i64 total (weighted_score b)) is)
    | inr e ↦ rw (index-map strip bs i, e) refl
  ]

  score_from-SameNodes :
      (bs bs' : List (Backend U)) (total : ℤ) (is : List ℕ)
      → SameNodes bs bs'
      → score_from bs' total is ≡ score_from bs total is
  score_from-SameNodes bs bs' total is e =
      sym (score_from-strip bs' total is)
      ∙ ap (λ cs. score_from cs total is) e
      ∙ score_from-strip bs total is

  -- The loop of the selection comes to the total of the report.
  pub visit_all-score_from :
      (is : List ℕ) (s s' : Tally U)
      → IsI64 s.total
      → visit_all is s ≡ ok s'
      → score_from s.backends s.total is ≡ ok s'.total
  unfolding visit_all visit score_from
  visit_all-score_from [] s s' h v = ap (λ m. m >>= λ t. ok t.total) v
  visit_all-score_from (i ∷ is) s s' h v = elim (Exec-cases (index s.backends i)) [
    | inr e ↦ let none_left : panic ≡ ok s' = rw (visit, e) at v in cc
    | inl (b, e) ↦ elim (Exec-cases (visit i s)) [
      | inr e' ↦ let none_left : panic ≡ ok s' = rw e' at v in cc
      | inl (t, e') ↦
          let (moved, same) = visit_total i s t b e h e' in
          let rest =
            visit_all-score_from is t s' (rw moved (wrap_i64-IsI64 (s.total +ℤ weighted_score b)))
              (rw e' at v) in
          rw e (
            sym (
              score_from-SameNodes s.backends t.backends (add_i64 s.total (weighted_score b)) is
                same)
            ∙ ap (λ x. score_from t.backends x is) (sym moved)
            ∙ rest)
    ]
  ]
