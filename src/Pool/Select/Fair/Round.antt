-- ===== src/Pool/Select/Fair/Round.antt =====
-- src/pool.rs, `select_weighted`: one selection keeps the picks of every node level with its share.
use echofront.Base.{
  ℕ, suc, ◌+◌, ◌*◌, ◌^◌, ◌≤◌, ◌<◌, ◌≡◌, ◌≢◌, refl, ap, ◌∙◌, true, ◌==◌, ==_iff, Bool-cases, inl,
  inr, List, [], ◌∷◌, none, some, ok, index-lt, update, index-update_self, index-update_ne,
  modify_lem, length, contains, All, All-contains, All-mono, arith,
}
use echofront.Base.Int.{ℤ, pos}
use echofront.Base.Words.{sub_i64}
use echofront.Pool.{Pool, Backend}
use echofront.Pool.Select.{Tally, settle, select_weighted}
use echofront.Pool.Select.Available.{Ascends}
use echofront.Pool.Select.Fair.Level.{Owed-sub}
use echofront.Pool.Select.Fair.Leader.{Swept, visit_all_leader}
use echofront.Pool.Select.Fair.Sums.{Behind, sum, bump, sum-bump, top_is_owed, owed_most}
use echofront.Pool.Select.Fair.Visit.{Room, Node}

bump_self : (c : ℕ → ℕ) (k : ℕ) → bump c k k ≡ suc (c k)
bump_self c k = ground arith

bump_ne : (c : ℕ → ℕ) (k j : ℕ) → k ≢ j → bump c k j ≡ c j
bump_ne c k j h = ground (arith, h)

pub All-tabulate {κ} :
    (P : ℕ → Type κ) (is : List ℕ) → ((j : ℕ) → contains is j ≡ true → P j) → All P is
All-tabulate P [] f = tt
All-tabulate P (i ∷ is) f = (f i (ground arith), All-tabulate P is (λ j c. f j (ground (arith, c))))

le-sum : (s : ℕ → ℕ) (is : List ℕ) (j : ℕ) → contains is j ≡ true → s j ≤ sum s is
unfolding sum
le-sum s [] j h = cc
le-sum s (i ∷ is) j h = elim (Bool-cases (i == j)) [
  | inl y ↦ let same : i ≡ j = (==_iff i j).0 y in rw same (omega arith)
  | inr n ↦ omega (arith, le-sum s is j (rw n at h))
]

-- What the other nodes are behind bounds what a node is owed.
Rooms :
    (s : ℕ → ℕ) (total t : ℕ) (c : ℕ → ℕ) (is : List ℕ)
    → sum s is ≡ total
    → sum c is ≡ t
    → All (Behind s total t c) is
    → All (Room s total t c (length is * total)) is
Rooms s total t c is whole picked behind = All-tabulate _ is (λ j h. record {
  low = All-contains (Behind s total t c) is j behind h;
  high =
      let most = owed_most s c t total j is behind h in omega (arith, rw (whole, picked) at most);
  small = rw (← whole) (le-sum s is j h);
})

Behind-bump :
    (s : ℕ → ℕ) (total t : ℕ) (c : ℕ → ℕ) (k j : ℕ)
    → c k * total < suc t * s k
    → Behind s total t c j
    → Behind s total (suc t) (bump c k) j
Behind-bump s total t c k j owed b = elim (Bool-cases (k == j)) [
  | inl y ↦
      let same : k ≡ j = (==_iff k j).0 y in
      let fair : c j * total < suc t * s j = rw (← same) owed in
      rw (← same) (rw (bump_self c k) (rw same (omega (arith, fair))))
  | inr n ↦
      let other : k ≢ j = (λ e. ground (arith, n, e)) in rw (bump_ne c k j other) (omega (arith, b))
]

module _ {ℓ} {U : Type ℓ} where
  -- The payment of the best node `k`.
  paid : List (Backend U) → ℕ → ℤ → List (Backend U)
  paid bs k due = update bs k (λ w. record w { current_weight = sub_i64 w.current_weight due })

  settle_to :
      (p : Pool U) (st : Tally U) (k : ℕ) (due : ℤ)
      → st.best ≡ some k
      → st.total ≡ due
      → k < length st.backends
      → settle p st ≡ ok (record p { backends = paid st.backends k due }, some k)
  unfolding settle paid
  settle_to p st k due e total h = rw (← total) (rw (e, settle, modify_lem st.backends k _ h))

module _ {ℓ} {U : Type ℓ} (s : ℕ → ℕ) (total : ℕ) (is : List ℕ) where
  -- After `t` rounds with the picks `c`, every node has the weight that it is owed, and none is
  -- ahead of its share by a whole pick.
  pub record Fair (t : ℕ) (c : ℕ → ℕ) (bs : List (Backend U)) : Type ℓ where
    pub nodes : All (Node s total t c bs) is
    pub behind : All (Behind s total t c) is
    pub picked : sum c is ≡ t

  module _ (t : ℕ) (c : ℕ → ℕ) (up : Ascends 0 is) (whole : sum s is ≡ total) (pay : 0 < total)
      (fits : (length is + 2) * total < 2 ^ 63) where
    Node-paid :
        (bs : List (Backend U)) (k : ℕ)
        → All (Behind s total t c) is
        → sum c is ≡ t
        → contains is k ≡ true
        → c k * total < suc t * s k
        → Node s total (suc t) c bs k
        → Node s total (suc t) (bump c k) (paid bs k (pos total)) k
    unfolding paid
    Node-paid bs k behind picked h owed n =
        let room = All-contains _ is k (Rooms s total t c is whole picked behind) h in
        record {
          node = record n.node { current_weight = sub_i64 n.node.current_weight (pos total) };
          here = index-update_self bs k _ n.here;
          heavy = n.heavy;
          score = n.score;
          owed = rw (bump_self c k) (
              Owed-sub total (suc t) (s k) (c k) (length is * total + total) n.node.current_weight
                n.owed owed (grind (arith, room.high, room.small)) (grind (arith, fits)));
        }

    Node-unpaid :
        (bs : List (Backend U)) (k j : ℕ)
        → k ≢ j
        → Node s total (suc t) c bs j
        → Node s total (suc t) (bump c k) (paid bs k (pos total)) j
    unfolding paid
    Node-unpaid bs k j ne n = record {
      node = n.node;
      here = index-update_ne bs k j _ ne ∙ n.here;
      heavy = n.heavy;
      score = n.score;
      owed = rw (bump_ne c k j ne) n.owed;
    }

    -- Once the best node has paid, the picks are fair again.
    Fair-settled :
        (st : Tally U) (start : Tally U) (k : ℕ)
        → All (Behind s total t c) is
        → sum c is ≡ t
        → contains is k ≡ true
        → Swept s total t c is start st k
        → Fair (suc t) (bump c k) (paid st.backends k (pos total))
    Fair-settled st start k behind picked h swept =
        let owed = top_is_owed s c t total k is swept.leads_all whole picked pay in
        let node : (j : ℕ)
            → contains is j ≡ true
            → Node s total (suc t) (bump c k) (paid st.backends k (pos total)) j =
          λ j hj. elim (Bool-cases (k == j)) [
            | inl y ↦
                let same : k ≡ j = (==_iff k j).0 y in
                rw (← same) (Node-paid st.backends k behind picked h owed swept.best_node)
            | inr n ↦
                Node-unpaid st.backends k j (λ e. ground (arith, n, e))
                  (All-contains _ is j swept.visited hj)
          ] in
        record {
          nodes = All-tabulate _ is node;
          behind = All-mono _ _ is (λ j. Behind-bump s total t c k j owed) behind;
          picked = sum-bump c k 0 is up h ∙ ap suc picked;
        }

    -- One selection picks a listed node, and is fair again.
    pub round-Fair :
        (p : Pool U)
        → is ≢ []
        → Fair t c p.backends
        → (k : ℕ) × (bs : List (Backend U)) × (select_weighted p is
            ≡ ok (record p { backends = bs }, some k))
          × (contains is k ≡ true)
          × Fair (suc t) (bump c k) bs
    unfolding select_weighted
    round-Fair p n f =
        let rooms = Rooms s total t c is whole f.picked f.behind in
        let start : Tally U = record { best = none; total = pos 0; backends = p.backends } in
        let (k, st, done, swept, h) =
          visit_all_leader s total t c (length is * total) (grind (arith, fits)) is start n up
            f.nodes rooms refl in
        let due : st.total ≡ pos total =
          swept.summed 0 refl (omega (arith, whole)) ∙ ap pos (omega (arith, whole)) in
        (
          k,
          paid st.backends k (pos total),
          rw done (
              settle_to p st k (pos total) swept.best due
                (index-lt st.backends k swept.best_node.here)),
          h,
          Fair-settled st start k f.behind f.picked h swept,
        )
