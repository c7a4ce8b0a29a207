-- ===== src/Pool/Select/Fair/Visit.antt =====
-- src/pool.rs, `select_weighted`: the loop over the available nodes finds the one that is owed the
-- most.
use echofront.Base.{
  ℕ, suc, ◌+◌, ◌*◌, ◌^◌, ◌≤◌, ◌<◌, ◌≡◌, ◌≢◌, refl, ◌∙◌, true, false, ◌==◌, List, Option, ok, index,
  index-lt, update, index-update_self, modify_lem, arith,
}
use echofront.Base.Int.{ℤ, ltb_ℤ}
use echofront.Base.Words.{add_i64}
use echofront.Pool.{Backend}
use echofront.Pool.Select.{Tally, weighted_score, weigh, visit, challenge}
use echofront.Pool.Select.Fair.Level.{Owed, Owed-add}
use echofront.Pool.Select.Fair.Sums.{Tops}

-- What is owed to a node of small score is bounded.
pub record Room (s : ℕ → ℕ) (total t : ℕ) (c : ℕ → ℕ) (most j : ℕ) : Type 0 where
  pub low : c j * total < t * s j + total
  pub high : t * s j ≤ c j * total + most
  pub small : s j ≤ total

-- Whose weight is greater is owed more.
pub leads :
    (s : ℕ → ℕ) (total t : ℕ) (c : ℕ → ℕ) (i k : ℕ) (wi wk : ℤ)
    → Owed total t (s i) (c i) wi
    → Owed total t (s k) (c k) wk
    → (ltb_ℤ wk wi ≡ true → Tops s total t c i k) × (ltb_ℤ wk wi ≡ false → Tops s total t c k i)
leads s total t c i k wi wk ei ek = (λ h. ground (arith, ei, ek, h), λ h. ground (arith, ei, ek, h))

module _ {ℓ} {U : Type ℓ} where
  -- A node of score `s j` that is owed what it should after `t` rounds.
  pub record Node (s : ℕ → ℕ) (total t : ℕ) (c : ℕ → ℕ) (bs : List (Backend U)) (j : ℕ)
      : Type ℓ where
    pub node : Backend U
    pub here : index bs j ≡ ok node
    pub heavy : node.weight ≢ 0
    pub score : node.weight * node.ramp_percent ≡ s j
    pub owed : Owed total t (s j) (c j) node.current_weight

  pub Node-kept :
      {s : ℕ → ℕ} {total t : ℕ} {c : ℕ → ℕ} {bs bs' : List (Backend U)} {j : ℕ}
      → index bs' j ≡ index bs j
      → Node s total t c bs j
      → Node s total t c bs' j
  Node-kept e n = record {
    node = n.node;
    here = e ∙ n.here;
    heavy = n.heavy;
    score = n.score;
    owed = n.owed;
  }

  abbrev pub scored : Backend U → Backend U → Backend U
  scored b w = record w { current_weight = add_i64 w.current_weight (weighted_score b) }

  pub visit_to :
      (i : ℕ) (st : Tally U) (b : Backend U) (best : Option ℕ)
      → index st.backends i ≡ ok b
      → b.weight ≢ 0
      → challenge (update st.backends i (scored b)) i st.best ≡ ok best
      → visit i st
        ≡ ok (record {
          best = best;
          total = add_i64 st.total (weighted_score b);
          backends = update st.backends i (scored b);
        })
  unfolding visit weigh
  visit_to i st b best e heavy ch =
      let m = modify_lem st.backends i (scored b) (index-lt st.backends i e) in
      let h : (b.weight == 0) ≡ false = ground (arith, heavy) in rw e (rw h (rw m (rw ch refl)))

  -- The node visited has its score.
  pub Node-scored :
      (s : ℕ → ℕ) (total t : ℕ) (c : ℕ → ℕ) (most : ℕ) (bs : List (Backend U)) (i : ℕ)
      (n : Node s total t c bs i)
      → Room s total t c most i
      → most + total + total < 2 ^ 63
      → Node s total (suc t) c (update bs i (scored n.node)) i
  unfolding weighted_score
  Node-scored s total t c most bs i n room fits = record {
    node = scored n.node n.node;
    here = index-update_self bs i (scored n.node) n.here;
    heavy = n.heavy;
    score = n.score;
    owed = rw n.score (
        Owed-add total t (s i) (c i) most n.node.current_weight n.owed room.low room.high room.small
          fits);
  }
