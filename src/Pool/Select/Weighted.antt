-- ===== src/Pool/Select/Weighted.antt =====
-- src/pool.rs, `select_weighted`: it never panics, changes current weights only, chooses an
-- available node of weight above zero, and finds no node only if there is none.
use echofront.Base.{
  ℕ, ◌<◌, ◌≡◌, ◌≢◌, ◌⊎◌, inl, inr, refl, sym, ◌∙◌, true, List, [], ◌∷◌, Option, none, some, ok,
  modify_lem, update, length, contains, All, All-mono, arith,
}
use echofront.Base.Int.{◌-ℤ◌, pos}
use echofront.Base.Words.{sub_i64}
use echofront.Pool.{Pool, Backend}
use echofront.Pool.Select.{Tally, visit_all, settle, select_weighted}
use echofront.Pool.Select.Available.{SameNodes}
use echofront.Pool.Select.Weights.{HasWeight, update-HasWeight}
use echofront.Pool.Select.Visited.{
  InBounds, Visited, visit_lem, weight_at, weight_at-SameNodes, update-SameNodes,
}

module _ {ℓ} {U : Type ℓ} where
  -- The outcome of the whole loop from a best node so far.
  abbrev Winner : List (Backend U) → List ℕ → Option ℕ → Option ℕ → Type 0
  Winner bs is best best' =
      ((best' ≡ best) × (All (λ i. weight_at bs i ≡ 0) is ⊎ (best ≢ none)))
      ⊎ ((i : ℕ) × (best' ≡ some i) × (contains is i ≡ true) × (weight_at bs i ≢ 0))

  Winner-visit :
      (i : ℕ) (is : List ℕ) (s m : Tally U) (best : Option ℕ)
      → Visited i s m
      → Winner m.backends is m.best best
      → Winner s.backends (i ∷ is) s.best best
  Winner-visit i is s m best v win = go win v.best_old_or_new
    where
      same : (j : ℕ) → weight_at m.backends j ≡ weight_at s.backends j
      same j = weight_at-SameNodes s.backends m.backends j v.same_nodes

      go :
          Winner m.backends is m.best best
          → ((m.best ≡ s.best) × ((weight_at s.backends i ≡ 0) ⊎ (s.best ≢ none)))
            ⊎ ((m.best ≡ some i) × (weight_at s.backends i ≢ 0))
          → Winner s.backends (i ∷ is) s.best best
      go (inr (j, e, c, w)) _ = inr (j, e, ground (arith, c), λ z. w (same j ∙ z))
      go (inl (e, none_heavy)) (inr (e', w)) = inr (i, e ∙ e', ground arith, w)
      go (inl (e, _)) (inl (e', inr kept)) = inl (e ∙ e', inr kept)
      go (inl (e, inr kept)) (inl (e', inl z)) = inl (e ∙ e', inr (λ n. kept (e' ∙ n)))
      go (inl (e, inl zs)) (inl (e', inl z)) =
          inl (e ∙ e', inl (z, All-mono _ _ is (λ j zj. sym (same j) ∙ zj) zs))

  pub visit_all_lem :
      (is : List ℕ) (s : Tally U)
      → All (λ i. i < length s.backends) is
      → InBounds (length s.backends) s.best
      → (s' : Tally U) × (visit_all is s ≡ ok s')
        × SameNodes s.backends s'.backends
        × (All HasWeight s.backends → All HasWeight s'.backends)
        × (length s'.backends ≡ length s.backends)
        × InBounds (length s'.backends) s'.best
        × Winner s.backends is s.best s'.best
  unfolding visit_all
  visit_all_lem [] s a k = (s, refl, refl, λ w. w, refl, k, inl (refl, inl tt))
  visit_all_lem (i ∷ is) s a k =
      let (m, e, v) = visit_lem i s a.0 k in
      let (s', e', same, fit, len, inb, win) =
        visit_all_lem is m (rw v.same_length a.1) v.best_in_bounds in
      (
        s',
        rw e e',
        same ∙ v.same_nodes,
        λ w. fit (v.weights w),
        len ∙ v.same_length,
        inb,
        Winner-visit i is s m s'.best v win,
      )

  settle_lem :
      (p : Pool U) (s : Tally U) (best : Option ℕ)
      → s.best ≡ best
      → InBounds (length s.backends) best
      → (bs : List (Backend U)) × (settle p s ≡ ok (record p { backends = bs }, best))
        × SameNodes s.backends bs
        × (All HasWeight s.backends → All HasWeight bs)
  unfolding settle
  settle_lem p s none e k = (s.backends, rw (e, settle), refl, λ w. w)
  settle_lem p s (some i) e k =
      let f = λ (w : Backend U). record w { current_weight = sub_i64 w.current_weight s.total } in
      (
        update s.backends i f,
        rw (e, settle, modify_lem s.backends i f k),
        update-SameNodes s.backends i (λ w. sub_i64 w.current_weight s.total),
        update-HasWeight s.backends i (λ w. w.current_weight -ℤ s.total),
      )

  -- On in-bounds indices `select_weighted` returns, with the pool as it was but for current
  -- weights: a listed node of weight above zero, or none if every listed node has weight zero.
  pub select_weighted_lem :
      (p : Pool U) (is : List ℕ)
      → All (λ i. i < length p.backends) is
      → (bs : List (Backend U)) × (best : Option ℕ) × (select_weighted p is
          ≡ ok (record p { backends = bs }, best))
        × SameNodes p.backends bs
        × (All HasWeight p.backends → All HasWeight bs)
        × (((best ≡ none) × All (λ i. weight_at p.backends i ≡ 0) is)
            ⊎ ((i : ℕ) × (best ≡ some i) × (contains is i ≡ true) × (weight_at p.backends i ≢ 0)))
  unfolding select_weighted
  select_weighted_lem p is a =
      let start : Tally U = record { best = none; total = pos 0; backends = p.backends } in
      let (s, e, same, fit, len, inb, win) = visit_all_lem is start a tt in
      let (bs, e', same', fit') = settle_lem p s s.best refl inb in
      (bs, s.best, rw e e', same' ∙ same, λ w. fit' (fit w), outcome win)
    where
      outcome :
          {best : Option ℕ}
          → Winner p.backends is none best
          → ((best ≡ none) × All (λ i. weight_at p.backends i ≡ 0) is)
            ⊎ ((i : ℕ) × (best ≡ some i) × (contains is i ≡ true) × (weight_at p.backends i ≢ 0))
      outcome (inl (e, inl z)) = inl (e, z)
      outcome (inl (e, inr kept)) = absurd (kept refl)
      outcome (inr w) = inr w
