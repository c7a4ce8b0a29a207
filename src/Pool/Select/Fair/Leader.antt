-- ===== src/Pool/Select/Fair/Leader.antt =====
-- src/pool.rs, `select_weighted`: after the loop over the available nodes, the best node is owed at
-- least as much as any.
use echofront.Base.{
  ℕ, suc, ◌+◌, ◌^◌, ◌≤◌, ◌<◌, ◌≡◌, ◌≢◌, refl, ap, ◌∙◌, true, false, Bool-cases, ◌⊎◌, inl, inr, List,
  [], ◌∷◌, none, some, ok, index, update, index-update_ne, contains, All, All-mono, arith,
}
use echofront.Base.Int.{pos, ltb_ℤ}
use echofront.Base.Words.{add_i64, wrap_i64}
use echofront.Pool.{Backend}
use echofront.Pool.Select.{Tally, weighted_score, visit, visit_all, challenge}
use echofront.Pool.Select.Available.{Ascends}
use echofront.Pool.Select.Fair.Sums.{Tops, sum, Ascends-contains}
use echofront.Pool.Select.Fair.Visit.{Room, Node, Node-kept, Node-scored, scored, visit_to, leads}
use echofront.Pool.Select.Fair.Listed.{
  add_pos, Tops-trans, Ascends-ne, either_unlisted, leader_of, listed,
}

module _ {ℓ} {U : Type ℓ} (s : ℕ → ℕ) (total t : ℕ) (c : ℕ → ℕ) where
  -- The node `k` is the best so far: its score is added, and it leads `i`.
  record Step (i : ℕ) (st st' : Tally U) (k : ℕ) : Type ℓ where
    summed : st'.total ≡ add_i64 st.total (wrap_i64 (pos (s i)))
    others : (j : ℕ) → i ≢ j → index st'.backends j ≡ index st.backends j
    visited : Node s total (suc t) c st'.backends i
    best : st'.best ≡ some k
    best_node : Node s total (suc t) c st'.backends k
    leads_it : Tops s total (suc t) c k i

  -- What the loop leaves.
  pub record Swept (is : List ℕ) (st st' : Tally U) (k : ℕ) : Type ℓ where
    pub summed : (n : ℕ) → st.total ≡ pos n → n + sum s is ≤ total → st'.total ≡ pos (n + sum s is)
    pub others : (j : ℕ) → contains is j ≡ false → index st'.backends j ≡ index st.backends j
    pub visited : All (Node s total (suc t) c st'.backends) is
    pub best : st'.best ≡ some k
    pub best_node : Node s total (suc t) c st'.backends k
    pub leads_all : All (λ j. Tops s total (suc t) c k j) is

module _ {ℓ} {U : Type ℓ} (s : ℕ → ℕ) (total t : ℕ) (c : ℕ → ℕ) (most : ℕ)
    (fits : most + total + total < 2 ^ 63) where
  -- One visit, by what the challenge of the best node comes to.
  visit_step :
      (i k : ℕ) (st : Tally U) (n : Node s total t c st.backends i)
      → Room s total t c most i
      → challenge (update st.backends i (scored n.node)) i st.best ≡ ok (some k)
      → Node s total (suc t) c (update st.backends i (scored n.node)) k
      → Tops s total (suc t) c k i
      → (st' : Tally U) × (visit i st ≡ ok st') × Step s total t c i st st' k
  unfolding weighted_score
  visit_step i k st n room ch best leads = (
    record {
      best = some k;
      total = add_i64 st.total (weighted_score n.node);
      backends = update st.backends i (scored n.node);
    },
    visit_to i st n.node (some k) n.here n.heavy ch,
    record {
      summed = ap (λ x. add_i64 st.total (wrap_i64 (pos x))) n.score;
      others = λ j. index-update_ne st.backends i j (scored n.node);
      visited = Node-scored s total t c most st.backends i n room fits;
      best = refl;
      best_node = best;
      leads_it = leads;
    },
  )

  visit_first :
      (i : ℕ) (st : Tally U)
      → Node s total t c st.backends i
      → Room s total t c most i
      → st.best ≡ none
      → (st' : Tally U) × (visit i st ≡ ok st') × Step s total t c i st st' i
  unfolding challenge
  visit_first i st n room e =
      visit_step i i st n room (rw e refl) (Node-scored s total t c most st.backends i n room fits)
        (omega arith)

  visit_next :
      (i k : ℕ) (st : Tally U)
      → Node s total t c st.backends i
      → Room s total t c most i
      → st.best ≡ some k
      → i ≢ k
      → Node s total (suc t) c st.backends k
      → (k' : ℕ) × (st' : Tally U) × ((visit i st ≡ ok st') × Step s total t c i st st' k')
        × Tops s total (suc t) c k' k
        × ((k' ≡ i) ⊎ (k' ≡ k))
  unfolding challenge
  visit_next i k st n room e ne old =
      let bs = update st.backends i (scored n.node) in
      let new = Node-scored s total t c most st.backends i n room fits in
      let kept : Node s total (suc t) c bs k =
        Node-kept (index-update_ne st.backends i k (scored n.node) ne) old in
      let lead =
        leads s total (suc t) c i k new.node.current_weight kept.node.current_weight new.owed
          kept.owed in
      elim (Bool-cases (ltb_ℤ kept.node.current_weight new.node.current_weight)) [
        | inl more ↦
            let (st', done, step) =
              visit_step i i st n room (rw e (rw new.here (rw kept.here (rw more refl)))) new
                (omega arith) in
            (i, st', (done, step), lead.0 more, inl refl)
        | inr less ↦
            let (st', done, step) =
              visit_step i k st n room (rw e (rw new.here (rw kept.here (rw less refl)))) kept
                (lead.1 less) in
            (k, st', (done, step), omega arith, inr refl)
      ]

  Nodes-kept :
      (is : List ℕ) (n : ℕ) (c : ℕ → ℕ) (bs bs' : List (Backend U))
      → All (λ j. index bs' j ≡ index bs j) is
      → All (Node s total n c bs) is
      → All (Node s total n c bs') is
  Nodes-kept [] n c bs bs' e a = tt
  Nodes-kept (i ∷ is) n c bs bs' e a = (Node-kept e.0 a.0, Nodes-kept is n c bs bs' e.1 a.1)

  -- A first visit and a sweep of the rest are a sweep.
  Swept-cons :
      (i k k' : ℕ) (is : List ℕ) (st m st' : Tally U)
      → Ascends (suc i) is
      → Step s total t c i st m k
      → Swept s total t c is m st' k'
      → Tops s total (suc t) c k' k
      → Swept s total t c (i ∷ is) st st' k'
  unfolding sum
  Swept-cons i k k' is st m st' up step rest lead = record {
    summed = λ n e h.
        let first : m.total ≡ pos (n + s i) =
          step.summed
          ∙ ap (λ x. add_i64 x (wrap_i64 (pos (s i)))) e
          ∙ add_pos n (s i) (omega (arith, h, fits)) in
        rest.summed (n + s i) first (omega (arith, h)) ∙ ap pos (omega arith);
    others = λ j h. rest.others j (ground (arith, h)) ∙ step.others j (λ e. ground (arith, h, e));
    visited = (
      Node-kept (rest.others i (Ascends-contains (suc i) i is up (omega arith))) step.visited,
      rest.visited,
    );
    best = rest.best;
    best_node = rest.best_node;
    leads_all = (Tops-trans s total (suc t) c k' k i lead step.leads_it, rest.leads_all);
  }

  visit_rest :
      (is : List ℕ) (n k : ℕ) (st : Tally U)
      → Ascends n is
      → All (Node s total t c st.backends) is
      → All (Room s total t c most) is
      → st.best ≡ some k
      → contains is k ≡ false
      → Node s total (suc t) c st.backends k
      → (k' : ℕ) × (st' : Tally U) × (visit_all is st ≡ ok st')
        × Swept s total t c is st st' k'
        × Tops s total (suc t) c k' k
        × ((k' ≡ k) ⊎ (contains is k' ≡ true))
  unfolding visit_all sum
  visit_rest [] n k st up nodes rooms e new old = (
    k,
    st,
    refl,
    record {
      summed = λ n e h. e ∙ ap pos (omega arith);
      others = λ j h. refl;
      visited = tt;
      best = e;
      best_node = old;
      leads_all = tt;
    },
    omega arith,
    inl refl,
  )
  visit_rest (i ∷ is) n k st up nodes rooms e new old =
      let (k1, m, done, lead, who) =
        visit_next i k st nodes.0 rooms.0 e (λ same. ground (arith, new, same)) old in
      let others = All-mono _ _ is done.1.others (Ascends-ne i is (suc i) up.1 (omega arith)) in
      let (k', st', rest, swept, lead', who') =
        visit_rest is (suc i) k1 m up.1 (Nodes-kept is t c st.backends m.backends others nodes.1)
          rooms.1 done.1.best
          (either_unlisted is i k k1 who (Ascends-contains (suc i) i is up.1 (omega arith))
            (ground (arith, new)))
          done.1.best_node in
      (
        k',
        st',
        rw done.0 rest,
        Swept-cons i k1 k' is st m st' up.1 done.1 swept lead',
        Tops-trans s total (suc t) c k' k1 k lead' lead,
        leader_of is i k k1 k' who who',
      )

  visit_all_cons :
      (i : ℕ) (is : List ℕ) (st : Tally U)
      → Ascends 0 (i ∷ is)
      → All (Node s total t c st.backends) (i ∷ is)
      → All (Room s total t c most) (i ∷ is)
      → st.best ≡ none
      → (k : ℕ) × (st' : Tally U) × (visit_all (i ∷ is) st ≡ ok st')
        × Swept s total t c (i ∷ is) st st' k
        × (contains (i ∷ is) k ≡ true)
  unfolding visit_all
  visit_all_cons i is st up nodes rooms e =
      let (m, done, step) = visit_first i st nodes.0 rooms.0 e in
      let others = All-mono _ _ is step.others (Ascends-ne i is (suc i) up.1 (omega arith)) in
      let (k, st', rest, swept, lead, who) =
        visit_rest is (suc i) i m up.1 (Nodes-kept is t c st.backends m.backends others nodes.1)
          rooms.1 step.best (Ascends-contains (suc i) i is up.1 (omega arith)) step.best_node in
      (k, st', rw done rest, Swept-cons i i k is st m st' up.1 step swept lead, listed is i k who)

  -- The loop, from its start, on a list that is not empty.
  pub visit_all_leader :
      (is : List ℕ) (st : Tally U)
      → is ≢ []
      → Ascends 0 is
      → All (Node s total t c st.backends) is
      → All (Room s total t c most) is
      → st.best ≡ none
      → (k : ℕ) × (st' : Tally U) × (visit_all is st ≡ ok st')
        × Swept s total t c is st st' k
        × (contains is k ≡ true)
  visit_all_leader [] st n up nodes rooms e = absurd (n refl)
  visit_all_leader (i ∷ is) st n up nodes rooms e = visit_all_cons i is st up nodes rooms e
