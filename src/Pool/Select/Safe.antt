-- ===== src/Pool/Select/Safe.antt =====
-- src/pool.rs, `select`: the core invariant of the engine.
use echofront.Base.{
  ℕ, zero, suc, ◌%◌, ◌<◌, ◌≡◌, ◌≢◌, ◌⊎◌, inl, inr, refl, ap, true, List, [], ◌∷◌, Option, none,
  some, ok, ◌>>=◌, index, index_total, length, contains, All, arith,
}
use echofront.Base.Words.{add_u64}
use echofront.Pool.{Pool, Strategy, round_robin, weighted, least_connections, consistent_hash}
use echofront.Pool.Select.{select_by, chosen, select_round_robin}
use echofront.Pool.Select.Available.{SameNodes, Ascends}
use echofront.Pool.Select.Least.{select_least_conn_lem}
use echofront.Pool.Select.Weights.{HasWeight}
use echofront.Pool.Select.Visited.{weight_at}
use echofront.Pool.Select.Weighted.{select_weighted_lem}
use echofront.Pool.Select.Sticky.{RingFits, select_hash_lem}
use echofront.Pool.Select.Names.{RingFits-SameNodes}

index-contains : (xs : List ℕ) (k : ℕ) {i : ℕ} → index xs k ≡ ok i → contains xs i ≡ true
index-contains [] k e = cc
index-contains (x ∷ xs) zero e = ground arith
index-contains (x ∷ xs) (suc k) e = ground (arith, index-contains xs k e)

module _ {ℓ} {U : Type ℓ} where
  -- What a strategy returns for the available nodes `is`.
  pub record Picked (p : Pool U) (is : List ℕ) (p' : Pool U) (choice : Option ℕ) : Type ℓ where
    pub fits : RingFits p'
    pub same_nodes : SameNodes p.backends p'.backends
    pub weights : All HasWeight p.backends → All HasWeight p'.backends
    pub same_policy :
        (p'.strategy ≡ p.strategy)
        × (p'.health ≡ p.health)
        × (p'.ewma ≡ p.ewma)
        × (p'.name ≡ p.name)
    pub right :
        ((choice ≡ none) × (p.strategy ≡ weighted) × All (λ i. weight_at p.backends i ≡ 0) is)
        ⊎ ((i : ℕ) × (choice ≡ some i)
            × (contains is i ≡ true)
            × (p.strategy ≡ weighted → weight_at p.backends i ≢ 0))

  pub round_robin_lem :
      (p : Pool U) (first : ℕ) (rest : List ℕ)
      → (i : ℕ) × (select_round_robin p (first ∷ rest)
          ≡ ok (record p { rr_cursor = add_u64 p.rr_cursor 1 }, i))
        × (index (first ∷ rest) (p.rr_cursor % length (first ∷ rest)) ≡ ok i)
  unfolding select_round_robin
  round_robin_lem p first rest =
      let (i, e) = index_total (first ∷ rest) (p.rr_cursor % length (first ∷ rest)) (omega arith) in
      (i, rw e, e)

  cursor_moved :
      (p : Pool U) (first : ℕ) (rest : List ℕ) (i : ℕ)
      → (p.strategy ≡ weighted → ⊥)
      → RingFits p
      → index (first ∷ rest) (p.rr_cursor % length (first ∷ rest)) ≡ ok i
      → Picked p (first ∷ rest) (record p { rr_cursor = add_u64 p.rr_cursor 1 }) (some i)
  cursor_moved p first rest i other f e = record {
    fits = record { vnodes_pos = f.vnodes_pos; built = f.built };
    same_nodes = refl;
    weights = λ w. w;
    same_policy = (refl, refl, refl, refl);
    right = inr (i, refl, index-contains (first ∷ rest) _ e, λ w z. other w);
  }

  pub select_by_lem :
      (p : Pool U) (strategy : Strategy) (first : ℕ) (rest : List ℕ) (key : Option (List ℕ))
      → p.strategy ≡ strategy
      → RingFits p
      → All (λ i. i < length p.backends) (first ∷ rest)
      → Ascends 0 (first ∷ rest)
      → (p' : Pool U) × (choice : Option ℕ) × (select_by strategy p (first ∷ rest) key
          ≡ ok (p', choice))
        × Picked p (first ∷ rest) p' choice
  unfolding select_by
  select_by_lem p round_robin first rest key s f a up =
      let (i, e, picked) = round_robin_lem p first rest in
      (
        record p { rr_cursor = add_u64 p.rr_cursor 1 },
        some i,
        ap (λ m. m >>= λ r. ok (chosen r)) e,
        cursor_moved p first rest i (λ w. cc) f picked,
      )
  select_by_lem p weighted first rest key s f a up =
      let (bs, choice, e, same, fit, won) = select_weighted_lem p (first ∷ rest) a in
      (
        record p { backends = bs },
        choice,
        e,
        record {
          fits = RingFits-SameNodes p bs same f;
          same_nodes = same;
          weights = fit;
          same_policy = (refl, refl, refl, refl);
          right = weighted_right won;
        },
      )
    where
      weighted_right :
          {choice : Option ℕ}
          → ((choice ≡ none) × All (λ i. weight_at p.backends i ≡ 0) (first ∷ rest))
            ⊎ ((i : ℕ) × (choice ≡ some i)
                × (contains (first ∷ rest) i ≡ true)
                × (weight_at p.backends i ≢ 0))
          → ((choice ≡ none)
              × (p.strategy ≡ weighted)
              × All (λ i. weight_at p.backends i ≡ 0) (first ∷ rest))
            ⊎ ((i : ℕ) × (choice ≡ some i)
                × (contains (first ∷ rest) i ≡ true)
                × (p.strategy ≡ weighted → weight_at p.backends i ≢ 0))
      weighted_right (inl (e, z)) = inl (e, s, z)
      weighted_right (inr (i, e, c, w)) = inr (i, e, c, λ _. w)
  select_by_lem p least_connections first rest key s f a up =
      let (i, e, c, least) = select_least_conn_lem p first rest a up in
      (
        p,
        some i,
        ap (λ m. m >>= λ j. ok (p, some j)) e,
        record {
          fits = f;
          same_nodes = refl;
          weights = λ w. w;
          same_policy = (refl, refl, refl, refl);
          right = inr (i, refl, c, λ w z. cc);
        },
      )
  select_by_lem p consistent_hash first rest none s f a up =
      let (i, e, picked) = round_robin_lem p first rest in
      (
        record p { rr_cursor = add_u64 p.rr_cursor 1 },
        some i,
        ap (λ m. m >>= λ r. ok (chosen r)) e,
        cursor_moved p first rest i (λ w. cc) f picked,
      )
  select_by_lem p consistent_hash first rest (some key) s f a up =
      let (r, ms, i, e, fits, _, _, c) = select_hash_lem p first rest key f a in
      (
        record p { ring = r; ring_signature = first ∷ rest },
        some i,
        ap (λ m. m >>= λ x. ok (chosen x)) e,
        record {
          fits = fits;
          same_nodes = refl;
          weights = λ w. w;
          same_policy = (refl, refl, refl, refl);
          right = inr (i, refl, c, λ w z. cc);
        },
      )
