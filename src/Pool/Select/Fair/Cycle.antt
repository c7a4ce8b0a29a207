-- ===== src/Pool/Select/Fair/Cycle.antt =====
-- src/pool.rs, `select_weighted`: many selections in a row.
use echofront.Base.{
  ℕ, zero, suc, ◌+◌, ◌*◌, ◌^◌, ◌≤◌, ◌<◌, ◌≡◌, ◌≢◌, refl, sym, ap, ◌∙◌, true, List, [], ◌∷◌, Option,
  some, ok, index, length, contains, All, All-contains, All-mono, arith,
}
use echofront.Base.Int.{pos}
use echofront.Pool.{Pool, Backend, weighted}
use echofront.Pool.Select.{select, select_from, select_by, select_weighted, available_indices}
use echofront.Pool.Select.Available.{
  Ascends, available_indices-SameNodes, available_indices-Ascends, available_indices-All,
}
use echofront.Pool.Select.Fair.Round.{Fair, round-Fair, All-tabulate}
use echofront.Pool.Select.Fair.Sums.{Behind, sum, bump, sum-exact}
use echofront.Pool.Select.Turns.{select_many, times}
use echofront.Pool.Select.Visited.{weight_at}
use echofront.Pool.Select.Weighted.{select_weighted_lem}

-- A node at its full share that has not been weighed yet.
pub record Fresh {ℓ} {U : Type ℓ} (bs : List (Backend U)) (j : ℕ) : Type ℓ where
  pub node : Backend U
  pub here : index bs j ≡ ok node
  pub heavy : node.weight ≢ 0
  pub full : node.ramp_percent ≡ 100
  pub level : node.current_weight ≡ pos 0

weighted_from {ℓ} :
    {U : Type ℓ} (p : Pool U) (key : Option (List ℕ)) (is : List ℕ)
    → p.strategy ≡ weighted
    → is ≢ []
    → select_from p key is ≡ select_weighted p is
unfolding select_from select_by
weighted_from p key [] w n = absurd (n refl)
weighted_from p key (i ∷ is) w n = ap (λ s. select_by s p (i ∷ is) key) w

sum-scale : (f : ℕ → ℕ) (m : ℕ) (is : List ℕ) → sum (λ j. m * f j) is ≡ m * sum f is
unfolding sum
sum-scale f m [] = omega arith
sum-scale f m (i ∷ is) = grind (arith, sum-scale f m is)

sum_zero : (is : List ℕ) → sum (λ _. 0) is ≡ 0
unfolding sum
sum_zero [] = refl
sum_zero (i ∷ is) = omega (arith, sum_zero is)

-- A whole number of shares bounds the picks.
quota : (c q total : ℕ) → c * total < q * total + total → c ≤ q
quota c q total h = grind arith

-- A node that is not ahead of its share after `m` cycles has its quota of picks at most.
share_quota : (c f m n : ℕ) → c * (100 * n) < (0 + m * n) * (100 * f) + 100 * n → c ≤ m * f
share_quota c f m n h =
    let same : (0 + m * n) * (100 * f) ≡ m * f * (100 * n) = omega arith in
    quota c (m * f) (100 * n) (rw same at h)

exact_picks :
    (f c : ℕ → ℕ) (m : ℕ) (is : List ℕ)
    → All (Behind (λ j. 100 * f j) (100 * sum f is) (0 + m * sum f is) c) is
    → sum c is ≡ 0 + m * sum f is
    → All (λ j. c j ≡ m * f j) is
exact_picks f c m is behind picked =
    sum-exact c (λ j. m * f j) is
      (All-mono _ _ is (λ j. share_quota (c j) (f j) m (sum f is)) behind)
      (picked ∙ omega arith ∙ sym (sum-scale f m is))

module _ {ℓ} {U : Type ℓ} (s : ℕ → ℕ) (total : ℕ) (is : List ℕ) (n : is ≢ []) (up : Ascends 0 is)
    (whole : sum s is ≡ total) (pay : 0 < total) (fits : (length is + 2) * total < 2 ^ 63) where
  select-Fair :
      (t : ℕ) (c : ℕ → ℕ) (p : Pool U) (now : ℕ) (key : Option (List ℕ)) (exclude : List ℕ)
      → p.strategy ≡ weighted
      → available_indices p now exclude ≡ is
      → Fair s total is t c p.backends
      → (k : ℕ) × (bs : List (Backend U)) × (select p now key exclude
          ≡ ok (record p { backends = bs }, some k))
        × (available_indices (record p { backends = bs }) now exclude ≡ is)
        × Fair s total is (suc t) (bump c k) bs
  unfolding select
  select-Fair t c p now key exclude w e f =
      let (k, bs, done, h, f') = round-Fair s total is t c up whole pay fits p n f in
      let (bs', best, done', same, _, _) =
        select_weighted_lem p is (rw e at (available_indices-All p now exclude)) in
      let same_bs : bs' ≡ bs = cc in
      (
        k,
        bs,
        ap (select_from p key) e ∙ weighted_from p key is w n ∙ done,
        available_indices-SameNodes p (record p { backends = bs }) now exclude (rw (← same_bs) same)
            ∙ e,
        f',
      )

  many-Fair :
      (m t : ℕ) (c : ℕ → ℕ) (p : Pool U) (now : ℕ) (key : Option (List ℕ)) (exclude : List ℕ)
      → p.strategy ≡ weighted
      → available_indices p now exclude ≡ is
      → Fair s total is t c p.backends
      → (p' : Pool U) × (choices : List (Option ℕ)) × (c' : ℕ → ℕ) × (select_many m p now key
            exclude
          ≡ ok (p', choices))
        × Fair s total is (t + m) c' p'.backends
        × ((j : ℕ) → c' j ≡ c j + times j choices)
  unfolding select_many
  many-Fair zero t c p now key exclude w e f =
      (p, [], c, refl, (let start : t + 0 ≡ t = omega arith in rw start f), λ j. omega arith)
  many-Fair (suc m) t c p now key exclude w e f =
      let (k, bs, done, e', f') = select-Fair t c p now key exclude w e f in
      let (p', choices, c', rest, fair, count) =
        many-Fair m (suc t) (bump c k) (record p { backends = bs }) now key exclude w e' f' in
      (
        p',
        some k ∷ choices,
        c',
        rw done (rw rest refl),
        (let moved : t + suc m ≡ suc t + m = omega arith in rw moved fair),
        λ j. ground (arith, count j),
      )

module _ {ℓ} {U : Type ℓ} where
  weight_at_lem :
      (bs : List (Backend U)) (j : ℕ) (b : Backend U)
      → index bs j ≡ ok b
      → weight_at bs j ≡ b.weight
  weight_at_lem bs j b e = ground (arith, e)

  weight_here :
      (bs : List (Backend U)) (j : ℕ) (b : Backend U)
      → index bs j ≡ ok b
      → b.ramp_percent ≡ 100
      → b.weight * b.ramp_percent ≡ 100 * weight_at bs j
  weight_here bs j b e full = rw (weight_at_lem bs j b e, full) (omega arith)

  weight_above : (bs : List (Backend U)) (j : ℕ) → Fresh bs j → 0 < weight_at bs j
  weight_above bs j f = omega (arith, weight_at_lem bs j f.node f.here, f.heavy)

  -- The nodes as they start.
  Fresh-Fair :
      (bs : List (Backend U)) (total : ℕ) (is : List ℕ)
      → 0 < total
      → All (Fresh bs) is
      → Fair (λ j. 100 * weight_at bs j) total is 0 (λ _. 0) bs
  Fresh-Fair bs total is pay a = record {
    nodes =
        All-mono (Fresh bs) _ is
          (λ j f. record {
            node = f.node;
            here = f.here;
            heavy = f.heavy;
            score = weight_here bs j f.node f.here f.full;
            owed = rw f.level (omega arith);
          })
          a;
    behind = All-tabulate _ is (λ j h. omega arith);
    picked = sum_zero is;
  }

  some_weight :
      (bs : List (Backend U)) (is : List ℕ)
      → is ≢ []
      → All (Fresh bs) is
      → 0 < 100 * sum (weight_at bs) is
  unfolding sum
  some_weight bs [] n a = absurd (n refl)
  some_weight bs (i ∷ is) n a = omega (arith, weight_above bs i a.0)

  -- The weighted strategy is exact over a cycle: while the available nodes stay the same, if each of
  -- them is at its full share, has a weight above zero and starts with no current weight, then in
  -- `m` times as many selections as their weights add up to, each is selected exactly `m` times its
  -- weight. The weights must add up to so little that current weights stay in an i64.
  pub weighted_fair :
      (p : Pool U) (now : ℕ) (key : Option (List ℕ)) (exclude : List ℕ) (m : ℕ)
      → p.strategy ≡ weighted
      → available_indices p now exclude ≢ []
      → All (Fresh p.backends) (available_indices p now exclude)
      → (length (available_indices p now exclude) + 2)
          * (100 * sum (weight_at p.backends) (available_indices p now exclude))
        < 2 ^ 63
      → (p' : Pool U) × (choices : List (Option ℕ)) × (select_many
            (m * sum (weight_at p.backends) (available_indices p now exclude))
            p
            now
            key
            exclude
          ≡ ok (p', choices))
        × ((i : ℕ)
            → contains (available_indices p now exclude) i ≡ true
            → times i choices ≡ m * weight_at p.backends i)
  weighted_fair p now key exclude m w n a fits =
      let is = available_indices p now exclude in
      let f = weight_at p.backends in
      let whole = sum-scale f 100 is in
      let pay = some_weight p.backends is n a in
      let (p', choices, c, done, fair, count) =
        many-Fair (λ j. 100 * f j) (100 * sum f is) is n (available_indices-Ascends p now exclude)
          whole pay fits (m * sum f is) 0 (λ _. 0) p now key exclude w refl
          (Fresh-Fair p.backends (100 * sum f is) is pay a) in
      let exact = exact_picks f c m is fair.behind fair.picked in
      (p', choices, done, λ i h. sym (count i ∙ omega arith) ∙ All-contains _ is i exact h)
