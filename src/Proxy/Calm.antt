-- ===== src/Proxy/Calm.antt =====
-- src/proxy.rs: a pool whose nodes are all up, with closed breakers, and whose upstreams answer.
use echofront.Base.{
  ℕ, zero, suc, ◌+◌, ◌<◌, ◌≡◌, ◌≢◌, length-update, leb, if◌then◌else◌, inl, inr, refl, sym, ap, ◌∙◌,
  true, List, [], ◌∷◌, map, Option, none, some, ok, update, length, All, All-update, arith,
}
use echofront.Base.Words.{add_u64, u64_mod}
use echofront.Breaker
use echofront.Breaker.{CircuitBreaker, closed, is_callable, admits, on_success}
use echofront.Pool.{Pool, Backend, is_available, is_ejected}
use echofront.Pool.Change.{changed, changed-RingFits}
use echofront.Pool.Outcome.{success_of}
use echofront.Pool.Poll.{poll, poll_backend, end_ejection, reinstate}
use echofront.Pool.Select.{select}
use echofront.Pool.Select.Available.{strip, selectable, selectable-SameNodes}
use echofront.Pool.Select.Invariant.{select_safe}
use echofront.Pool.Select.Sticky.{RingFits}
use echofront.Pool.Select.Visited.{weight_at}
use echofront.Pool.Select.Weights.{All-SameNodes}
use echofront.Proxy.Start.{selectable_fresh}
use echofront.Proxy.Trips.{answered_by}

poll_closed : (b : CircuitBreaker) (now : ℕ) → b.state ≡ closed → Breaker.poll b now ≡ b
unfolding Breaker.poll
poll_closed b now e = rw e refl

on_success-closed :
    (b : CircuitBreaker) (now : ℕ) → b.state ≡ closed → (on_success b now).state ≡ closed
unfolding on_success
on_success-closed b now e = rw (poll_closed b now e) (rw e refl)

module _ {ℓ} {U : Type ℓ} where
  -- What a node is, and what the nodes served.
  abbrev pub node_of : Backend U → List ℕ × ℕ
  node_of b = (b.name, b.weight)

  abbrev pub served_total : List (Backend U) → ℕ
  served_total [] = 0
  served_total (b ∷ bs) = b.served + served_total bs

  served_total-strip : (bs : List (Backend U)) → served_total (map strip bs) ≡ served_total bs
  served_total-strip [] = refl
  served_total-strip (b ∷ bs) = ap (b.served +◌) (served_total-strip bs)

  nodes-strip : (bs : List (Backend U)) → map node_of (map strip bs) ≡ map node_of bs
  nodes-strip [] = refl
  nodes-strip (b ∷ bs) = ap (node_of b ∷◌) (nodes-strip bs)

  nodes-update :
      (bs : List (Backend U)) (i : ℕ) (f : Backend U → Backend U)
      → ((b : Backend U) → node_of (f b) ≡ node_of b)
      → map node_of (update bs i f) ≡ map node_of bs
  nodes-update [] i f h = refl
  nodes-update (b ∷ bs) zero f h = ap (λ n. n ∷ map node_of bs) (h b)
  nodes-update (b ∷ bs) (suc i) f h = ap (node_of b ∷◌) (nodes-update bs i f h)

  -- One node serves one request more.
  served_total-update :
      (bs : List (Backend U)) (i : ℕ) (f : Backend U → Backend U)
      → i < length bs
      → served_total bs + 1 < u64_mod
      → ((b : Backend U) → (f b).served ≡ add_u64 b.served 1)
      → served_total (update bs i f) ≡ served_total bs + 1
  served_total-update [] i f at h e = absurd (omega arith)
  served_total-update (b ∷ bs) zero f at h e = omega (arith, e b)
  served_total-update (b ∷ bs) (suc i) f at h e =
      omega (arith, served_total-update bs i f (omega arith) (omega arith) e)

  -- The same nodes, which served as much.
  pub record Alike (bs cs : List (Backend U)) (more : ℕ) : Type ℓ where
    pub same_nodes : map node_of cs ≡ map node_of bs
    pub total : served_total cs ≡ served_total bs + more

module _ {ℓ} {U : Type ℓ} (G : U → Type 0) where
  -- A node that is up, with a weight, whose upstream is of a kind.
  pub record Calm (b : Backend U) : Type 0 where
    pub up : b.healthy ≡ true
    pub free : b.ejected_until ≡ none
    pub shut : b.breaker.state ≡ closed
    pub heavy : b.weight ≢ 0
    pub kind : G b.upstream

  pub record CalmPool (p : Pool U) : Type ℓ where
    pub fits : RingFits p
    pub calm : All Calm p.backends
    pub plain : p.ewma ≡ none
    pub some_node : 0 < length p.backends

  is_available-Calm : (b : Backend U) (now : ℕ) → Calm b → is_available b now ≡ true
  unfolding is_available is_ejected admits is_callable
  is_available-Calm b now c = ground (arith, c.up, c.free, c.shut)

  poll_backend-Calm : (line now : ℕ) (b : Backend U) → Calm b → poll_backend none line now b ≡ b
  unfolding poll_backend end_ejection
  poll_backend-Calm line now b c =
      ap (λ br. end_ejection none now (record b { breaker = br }))
        (poll_closed b.breaker now c.shut)
      ∙ ap
          (λ o. elim o [
            | none ↦ b
            | some until ↦ if leb until now then reinstate none now b else b
          ])
          c.free

  map-Calm :
      (line now : ℕ) (bs : List (Backend U))
      → All Calm bs
      → map (poll_backend none line now) bs ≡ bs
  map-Calm line now [] a = refl
  map-Calm line now (b ∷ bs) a = cc (poll_backend-Calm line now b a.0, map-Calm line now bs a.1)

  -- Polling changes nothing.
  pub poll-CalmPool : (p : Pool U) (now : ℕ) → CalmPool p → poll p now ≡ p
  unfolding poll
  poll-CalmPool p now c =
      let same : (line : ℕ) → map (poll_backend p.ewma line now) p.backends ≡ p.backends =
        λ line. rw c.plain (map-Calm line now p.backends c.calm) in
      ap (λ bs. record p { backends = bs }) (same _)

  first_selectable :
      (bs : List (Backend U)) (now : ℕ)
      → All Calm bs
      → 0 < length bs
      → (selectable bs now [] 0 ≡ true) × (weight_at bs 0 ≢ 0)
  first_selectable [] now a h = absurd (omega arith)
  first_selectable (b ∷ bs) now a h = (rw (is_available-Calm b now a.0) refl, a.0.heavy)

  -- A selection finds a node, and leaves a pool of the same kind.
  pub select-CalmPool :
      (p : Pool U) (now : ℕ) (key : Option (List ℕ))
      → CalmPool p
      → (p' : Pool U) × (i : ℕ) × (select p now key [] ≡ ok (p', some i))
        × (i < length p'.backends)
        × CalmPool p'
        × Alike p.backends p'.backends 0
  select-CalmPool p now key c =
      let (p', choice, done, sel, found) = select_safe p now key [] c.fits in
      let kept =
        All-SameNodes Calm
          (λ b w h. record {
            up = h.up;
            free = h.free;
            shut = h.shut;
            heavy = h.heavy;
            kind = h.kind;
          })
          p.backends p'.backends sel.same_nodes c.calm in
      let (_, _, plain, _) = sel.same_policy in
      let (first, heavy) = first_selectable p.backends now c.calm c.some_node in
      elim found [
        | inl (nothing, none_left) ↦ absurd (heavy (none_left 0 first).1)
        | inr (i, chosen, good) ↦
            let here = selectable-SameNodes p p' now [] i sel.same_nodes ∙ good.0 in
            let (bound, _) = selectable_fresh p'.backends now [] i here in
            (
              p',
              i,
              rw (← chosen) done,
              bound,
              (record {
                fits = sel.fits;
                calm = kept;
                plain = plain ∙ c.plain;
                some_node = omega (arith, bound);
              }),
              (record {
                same_nodes =
                    sym (nodes-strip p'.backends)
                    ∙ ap (map node_of) sel.same_nodes
                    ∙ nodes-strip p.backends;
                total =
                    sym (served_total-strip p'.backends)
                    ∙ ap served_total sel.same_nodes
                    ∙ served_total-strip p.backends
                    ∙ omega arith;
              }),
            )
      ]

  -- A node that answered, and what its success left.
  abbrev pub replied_by : ℕ → U → Backend U → Backend U
  replied_by now u b = success_of now (answered_by u b)

  replied_by-Calm : (now : ℕ) (u : U) → G u → (b : Backend U) → Calm b → Calm (replied_by now u b)
  unfolding success_of
  replied_by-Calm now u g b c = record {
    up = c.up;
    free = c.free;
    shut = on_success-closed b.breaker now c.shut;
    heavy = c.heavy;
    kind = g;
  }

  -- A request that one node answers leaves a pool of the same kind, with one request served more.
  pub replied-CalmPool :
      (p : Pool U) (i now : ℕ) (u : U)
      → G u
      → i < length p.backends
      → served_total p.backends + 1 < u64_mod
      → CalmPool p
      → CalmPool (changed p i (replied_by now u))
        × Alike p.backends (changed p i (replied_by now u)).backends 1
  unfolding success_of
  replied-CalmPool p i now u g at h c = (
    record {
      fits = changed-RingFits p i (replied_by now u) (λ b. refl) c.fits;
      calm = All-update Calm (replied_by now u) (replied_by-Calm now u g) p.backends i c.calm;
      plain = c.plain;
      some_node = rw (length-update p.backends i (replied_by now u)) c.some_node;
    },
    record {
      same_nodes = nodes-update p.backends i (replied_by now u) (λ b. refl);
      total = served_total-update p.backends i (replied_by now u) at h (λ b. refl);
    },
  )
