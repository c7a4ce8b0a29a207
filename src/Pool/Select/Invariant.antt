-- ===== src/Pool/Select/Invariant.antt =====
-- src/pool.rs: what `select` promises, for every strategy.
use echofront.Base.{
  ℕ, ◌≡◌, ◌≢◌, ◌⊎◌, inl, inr, refl, sym, ap, ◌∙◌, true, List, [], ◌∷◌, Option, none, some, ok,
  contains, All, All-contains,
}
use echofront.Pool.{Pool, weighted}
use echofront.Pool.Select.{select, select_from, available_indices}
use echofront.Pool.Select.Available.{
  selectable-SameNodes, selectable, contains-available_indices, available_indices-All,
  available_indices-Ascends, SameNodes,
}
use echofront.Pool.Select.Weights.{HasWeight}
use echofront.Pool.Select.Visited.{weight_at, weight_at-SameNodes}
use echofront.Pool.Select.Sticky.{RingFits}
use echofront.Pool.Select.Safe.{Picked, select_by_lem}

module _ {ℓ} {U : Type ℓ} where
  -- Every node that may be selected is useless to the strategy: it is weighted, and the node has
  -- weight zero.
  abbrev pub NoCapacity : Pool U → ℕ → List ℕ → Type 0
  NoCapacity p now exclude =
      (i : ℕ)
      → selectable p.backends now exclude i ≡ true
      → (p.strategy ≡ weighted) × (weight_at p.backends i ≡ 0)

  -- That outlasts a change of current weights, of the cursor and of the ring.
  pub NoCapacity-SameNodes :
      (p p' : Pool U) (now : ℕ) (exclude : List ℕ)
      → SameNodes p.backends p'.backends
      → p'.strategy ≡ p.strategy
      → NoCapacity p now exclude
      → NoCapacity p' now exclude
  NoCapacity-SameNodes p p' now exclude e s none_left i h =
      let (w, z) = none_left i (sym (selectable-SameNodes p p' now exclude i e) ∙ h) in
      (s ∙ w, weight_at-SameNodes p.backends p'.backends i e ∙ z)

  -- A node that may be selected, and has a weight if the strategy is weighted.
  abbrev pub GoodChoice : Pool U → ℕ → List ℕ → ℕ → Type 0
  GoodChoice p now exclude i =
      (selectable p.backends now exclude i ≡ true)
      × (p.strategy ≡ weighted → weight_at p.backends i ≢ 0)

  -- The pool after a selection: the same nodes and policy, and a ring that fits.
  pub record Selects (p p' : Pool U) : Type ℓ where
    pub fits : RingFits p'
    pub same_nodes : SameNodes p.backends p'.backends
    pub weights : All HasWeight p.backends → All HasWeight p'.backends
    pub same_policy :
        (p'.strategy ≡ p.strategy)
        × (p'.health ≡ p.health)
        × (p'.ewma ≡ p.ewma)
        × (p'.name ≡ p.name)

  choose :
      (p p' : Pool U) (now : ℕ) (exclude is : List ℕ) (choice : Option ℕ)
      → available_indices p now exclude ≡ is
      → Picked p is p' choice
      → ((choice ≡ none) × NoCapacity p now exclude)
        ⊎ ((i : ℕ) × (choice ≡ some i) × GoodChoice p now exclude i)
  choose p p' now exclude is choice e picked = go picked.right
    where
      listed : (i : ℕ) → contains is i ≡ selectable p.backends now exclude i
      listed i = ap (λ x. contains x i) (sym e) ∙ contains-available_indices p now exclude i

      go :
          ((choice ≡ none) × (p.strategy ≡ weighted) × All (λ i. weight_at p.backends i ≡ 0) is)
            ⊎ ((i : ℕ) × (choice ≡ some i)
                × (contains is i ≡ true)
                × (p.strategy ≡ weighted → weight_at p.backends i ≢ 0))
          → ((choice ≡ none) × NoCapacity p now exclude)
            ⊎ ((i : ℕ) × (choice ≡ some i) × GoodChoice p now exclude i)
      go (inl (n, w, z)) =
          inl (n, λ i s. (w, All-contains (λ j. weight_at p.backends j ≡ 0) is i z (listed i ∙ s)))
      go (inr (i, s, c, w)) = inr (i, s, (sym (listed i) ∙ c, w))

  select_available :
      (p : Pool U) (now : ℕ) (key : Option (List ℕ)) (exclude is : List ℕ)
      → available_indices p now exclude ≡ is
      → RingFits p
      → (p' : Pool U) × (choice : Option ℕ) × (select p now key exclude ≡ ok (p', choice))
        × Selects p p'
        × (((choice ≡ none) × NoCapacity p now exclude)
            ⊎ ((i : ℕ) × (choice ≡ some i) × GoodChoice p now exclude i))
  unfolding select
  select_available p now key exclude [] e f = (
    p,
    none,
    ap (select_from p key) e,
    record {
      fits = f;
      same_nodes = refl;
      weights = λ w. w;
      same_policy = (refl, refl, refl, refl);
    },
    inl (refl, λ i s. cc (s, contains-available_indices p now exclude i, ap (λ x. contains x i) e)),
  )
  select_available p now key exclude (i ∷ is) e f =
      let bounds = rw e at (available_indices-All p now exclude) in
      let up = rw e at (available_indices-Ascends p now exclude) in
      let (p', choice, done, picked) = select_by_lem p p.strategy i is key refl f bounds up in
      (
        p',
        choice,
        ap (select_from p key) e ∙ done,
        record {
          fits = picked.fits;
          same_nodes = picked.same_nodes;
          weights = picked.weights;
          same_policy = picked.same_policy;
        },
        choose p p' now exclude (i ∷ is) choice e picked,
      )

  -- `select` never panics. A node that it returns exists, is not excluded, and is healthy, not
  -- ejected and admitted by its breaker at that time (and has a weight above zero, if the strategy
  -- is weighted); it returns no node only when no node may be selected, or the strategy is weighted
  -- and all of them have weight zero. It changes nothing of the pool but current weights, the cursor
  -- and the ring, which keeps fitting.
  pub select_safe :
      (p : Pool U) (now : ℕ) (key : Option (List ℕ)) (exclude : List ℕ)
      → RingFits p
      → (p' : Pool U) × (choice : Option ℕ) × (select p now key exclude ≡ ok (p', choice))
        × Selects p p'
        × (((choice ≡ none) × NoCapacity p now exclude)
            ⊎ ((i : ℕ) × (choice ≡ some i) × GoodChoice p now exclude i))
  select_safe p now key exclude f =
      select_available p now key exclude (available_indices p now exclude) refl f
