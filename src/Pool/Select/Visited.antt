-- ===== src/Pool/Select/Visited.antt =====
-- src/pool.rs, `select_weighted`: one visit of its loop.
use echofront.Base.{
  ℕ, zero, suc, ◌<◌, ◌≡◌, ◌≢◌, ◌⊎◌, inl, inr, refl, sym, ap, ◌∙◌, Bool-cases, List, [], ◌∷◌, map,
  Option, none, some, ok, panic, index, index_total, modify_lem, update, length-update, length, All,
  arith, if◌then◌else◌, ◌==◌,
}
use echofront.Base.Int.{◌+ℤ◌, ℤ, ltb_ℤ}
use echofront.Base.Words.{add_i64}
use echofront.Pool.{Backend}
use echofront.Pool.Select.{Tally, weighted_score, weigh, visit, challenge}
use echofront.Pool.Select.Available.{strip, SameNodes}
use echofront.Pool.Select.Weights.{HasWeight, update-HasWeight}

-- A best node so far, if any, is in bounds.
abbrev pub InBounds : ℕ → Option ℕ → Type 0
InBounds n none = Unit {0}
InBounds n (some i) = i < n

best-InBounds_of :
    (n i : ℕ) (best best' : Option ℕ)
    → i < n
    → InBounds n best
    → (best' ≡ some i) ⊎ ((best' ≡ best) × (best ≢ none))
    → InBounds n best'
best-InBounds_of n i best best' h k (inl e) = rw e h
best-InBounds_of n i best best' h k (inr (e, _)) = rw e k

module _ {ℓ} {U : Type ℓ} where
  -- The configured weight at an index.
  abbrev pub weight_at : List (Backend U) → ℕ → ℕ
  weight_at bs i = elim (index bs i) [ ok b ↦ b.weight | panic ↦ 0 ]

  weight_at-strip : (bs : List (Backend U)) (i : ℕ) → weight_at (map strip bs) i ≡ weight_at bs i
  weight_at-strip [] i = refl
  weight_at-strip (b ∷ bs) zero = refl
  weight_at-strip (b ∷ bs) (suc i) = weight_at-strip bs i

  pub weight_at-SameNodes :
      (bs bs' : List (Backend U)) (i : ℕ) → SameNodes bs bs' → weight_at bs' i ≡ weight_at bs i
  weight_at-SameNodes bs bs' i e =
      sym (weight_at-strip bs' i) ∙ ap (λ x. weight_at x i) e ∙ weight_at-strip bs i

  pub update-SameNodes :
      (bs : List (Backend U)) (i : ℕ) (f : Backend U → ℤ)
      → SameNodes bs (update bs i (λ b. record b { current_weight = f b }))
  update-SameNodes [] i f = refl
  update-SameNodes (b ∷ bs) zero f = refl
  update-SameNodes (b ∷ bs) (suc i) f = ap (◌∷◌ (strip b)) (update-SameNodes bs i f)

  challenge_lem :
      (bs : List (Backend U)) (i : ℕ) (best : Option ℕ)
      → i < length bs
      → InBounds (length bs) best
      → (best' : Option ℕ) × (challenge bs i best ≡ ok best')
        × ((best' ≡ some i) ⊎ ((best' ≡ best) × (best ≢ none)))
  unfolding challenge
  challenge_lem bs i none h k = (some i, refl, inl refl)
  challenge_lem bs i (some j) h k =
      let (w, e) = index_total bs i h in
      let (holder, e') = index_total bs j k in
      (
        if ltb_ℤ holder.current_weight w.current_weight then some i else some j,
        ground (arith, e, e'),
        ground arith,
      )

  -- What one visit of the loop leaves: the same nodes, and a best node that is the old one, or the
  -- one visited if that has a weight.
  pub record Visited (i : ℕ) (s s' : Tally U) : Type ℓ where
    pub same_nodes : SameNodes s.backends s'.backends
    pub weights : All HasWeight s.backends → All HasWeight s'.backends
    pub same_length : length s'.backends ≡ length s.backends
    pub best_in_bounds : InBounds (length s'.backends) s'.best
    pub best_old_or_new :
        ((s'.best ≡ s.best) × ((weight_at s.backends i ≡ 0) ⊎ (s.best ≢ none)))
        ⊎ ((s'.best ≡ some i) × (weight_at s.backends i ≢ 0))

  weigh_lem :
      (i : ℕ) (b : Backend U) (s : Tally U)
      → i < length s.backends
      → InBounds (length s.backends) s.best
      → (s' : Tally U) × (weigh i b s ≡ ok s')
        × SameNodes s.backends s'.backends
        × (All HasWeight s.backends → All HasWeight s'.backends)
        × (length s'.backends ≡ length s.backends)
        × InBounds (length s'.backends) s'.best
        × ((s'.best ≡ some i) ⊎ ((s'.best ≡ s.best) × (s.best ≢ none)))
  unfolding weigh
  weigh_lem i b s h k =
      let score = weighted_score b in
      let f = λ (w : Backend U). record w { current_weight = add_i64 w.current_weight score } in
      let bs = update s.backends i f in
      let len : length bs ≡ length s.backends = length-update s.backends i f in
      let (best, e, won) = challenge_lem bs i s.best (rw len h) (rw len k) in
      (
        record { best = best; total = add_i64 s.total score; backends = bs },
        rw (modify_lem s.backends i f h) (ground (arith, e)),
        update-SameNodes s.backends i (λ w. add_i64 w.current_weight score),
        update-HasWeight s.backends i (λ w. w.current_weight +ℤ score),
        len,
        best-InBounds_of (length bs) i s.best best (rw len h) (rw len k) won,
        won,
      )

  pub visit_lem :
      (i : ℕ) (s : Tally U)
      → i < length s.backends
      → InBounds (length s.backends) s.best
      → (s' : Tally U) × (visit i s ≡ ok s') × Visited i s s'
  unfolding visit
  visit_lem i s h k =
      let (b, e) = index_total s.backends i h in
      elim (Bool-cases (b.weight == 0)) [
        | inl light ↦ (
          s,
          rw (e, visit) (rw light),
          (record {
            same_nodes = refl;
            weights = λ a. a;
            same_length = refl;
            best_in_bounds = k;
            best_old_or_new = inl (refl, inl (ground (arith, e, light)));
          }),
        )
        | inr heavy ↦
            let (s', e', same, fit, len, inb, won) = weigh_lem i b s h k in
            (
              s',
              rw (e, visit) (rw heavy e'),
              (record {
                same_nodes = same;
                weights = fit;
                same_length = len;
                best_in_bounds = inb;
                best_old_or_new = new_or_old won (ground (arith, e, heavy));
              }),
            )
      ]
    where
      new_or_old :
          {best : Option ℕ}
          → (best ≡ some i) ⊎ ((best ≡ s.best) × (s.best ≢ none))
          → weight_at s.backends i ≢ 0
          → ((best ≡ s.best) × ((weight_at s.backends i ≡ 0) ⊎ (s.best ≢ none)))
            ⊎ ((best ≡ some i) × (weight_at s.backends i ≢ 0))
      new_or_old (inl new) w = inr (new, w)
      new_or_old (inr (old, kept)) w = inl (old, inr kept)
