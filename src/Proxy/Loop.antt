-- ===== src/Proxy/Loop.antt =====
-- src/proxy.rs: the loop of `handle` ends within its fuel, never panics, and keeps its invariant.
use echofront.Base.{
  ◌++◌, ℕ, zero, suc, ◌+◌, ◌≤◌, ◌<◌, ◌≡◌, ◌≢◌, ◌⊎◌, inl, inr, refl, sym, ap, ◌∙◌, true, false, List,
  [], ◌∷◌, Option, none, some, ok, ◌>>=◌, length, contains, All, All-update, length-update, arith,
}
use mathlib.Core.Path.{subst}
use echofront.Base.Words.{u32_mod}
use echofront.Retry.{RetryBudget}
use echofront.Http.{Request}
use echofront.Pool.{Pool, Backend}
use echofront.Pool.Change.{changed, changed-RingFits}
use echofront.Pool.Select.Available.{
  selectable-none, selectable-update_ne, selectable-SameNodes, selectable,
}
use echofront.Pool.Select.{select}
use echofront.Pool.Select.Invariant.{
  select_safe, Selects, NoCapacity, NoCapacity-SameNodes, GoodChoice,
}
use echofront.Proxy.{Attempt, Reply, failure}
use echofront.Proxy.Handle.{Trip, Round, finished, again, exhausted, round, loop, go_on}
use echofront.Proxy.Send.{send_to_lem}
use echofront.Proxy.Trips.{
  Opening, Opened, Opened-snoc, first_node, Entry, nodes, Keeps, answered_by, Sound, Returned,
  RoundSound,
}
use echofront.Proxy.Start.{selectable_fresh, same_length}
use echofront.Upstream.{Upstream}
use echofront.Proxy.Conclude.{conclude_lem}

module _ {ℓ} {U : Type ℓ} (P : Backend U → Type 0) (Q : RetryBudget → ℕ → Type 0)
    (start : Opening U) where
  -- A round never panics.
  round_lem :
      (upstream : Upstream U) (key : Option (List ℕ)) (req : Request) (c : Entry)
      (k : Keeps c.now P Q) (t : Trip U)
      → (q : Pool U) → select start.pool c.now key [] ≡ ok (q, start.choice)
      → c.max_retries + 1 < u32_mod
      → Sound P Q start c t
      → (r : Round U) × (round upstream c.now key req c.max_retries t ≡ ok r)
        × RoundSound P Q start c t r
  unfolding round go_on
  round_lem upstream key req c k t q opens m f =
      let (p, choice, e, sel, right) = select_safe t.pool c.now key t.tried f.fits in
      go p choice e sel right
    where
      kept_by : (p : Pool U) → Selects t.pool p → All P p.backends
      kept_by p sel = k.weighed t.pool.backends p.backends sel.same_nodes sel.weights f.kept

      was :
          (i : ℕ)
          → selectable t.pool.backends c.now t.tried i ≡ true
          → contains t.tried i ≡ false
          → selectable start.pool.backends c.now [] i ≡ true
      was i h new = sym (f.untouched i new) ∙ selectable-none t.pool.backends c.now t.tried i h

      others :
          (p : Pool U) (idx : ℕ) (g : Backend U → Backend U)
          → Selects t.pool p
          → (i : ℕ) → contains t.tried i ≡ false
          → idx ≢ i
          → selectable (changed p idx g).backends c.now [] i
            ≡ selectable start.pool.backends c.now [] i
      others p idx g sel i new ne =
          selectable-update_ne p.backends c.now [] idx i g ne
          ∙ selectable-SameNodes t.pool p c.now [] i sel.same_nodes
          ∙ f.untouched i new

      -- The first selection is the one that the call opens with.
      same_choice :
          (p : Pool U) (choice : Option ℕ)
          → t.attempts ≡ []
          → t.pool ≡ start.pool
          → select t.pool c.now key t.tried ≡ ok (p, choice)
          → choice ≡ start.choice
      same_choice p choice none_yet same_pool e =
          let untried : t.tried ≡ [] = f.tried_nodes ∙ ap nodes none_yet in cc

      opened_by :
          (p : Pool U) (i : ℕ)
          → select t.pool c.now key t.tried ≡ ok (p, some i)
          → (a : Attempt) → a.backend ≡ i
          → Opened start.choice (t.attempts ++ a ∷ [])
      opened_by p i e a at = elim f.opening [
        | inl (none_yet, same_pool) ↦
            (i, sym (same_choice p (some i) none_yet same_pool e), rw none_yet (ap some at))
        | inr o ↦ Opened-snoc start.choice t.attempts a o
      ]

      unopened :
          (p : Pool U)
          → select t.pool c.now key t.tried ≡ ok (p, none)
          → first_node t.attempts ≡ start.choice
      unopened p e = elim f.opening [
        | inl (none_yet, same_pool) ↦ rw none_yet (same_choice p none none_yet same_pool e)
        | inr (j, chosen, asked) ↦ asked ∙ sym chosen
      ]

      none_left :
          (p : Pool U)
          → Selects t.pool p
          → NoCapacity t.pool c.now t.tried
          → NoCapacity p c.now (nodes t.attempts)
      none_left p sel h =
          subst (NoCapacity p c.now) f.tried_nodes
            (NoCapacity-SameNodes t.pool p c.now t.tried sel.same_nodes sel.same_policy.0 h)

      go :
          (p : Pool U) (choice : Option ℕ)
          → select t.pool c.now key t.tried ≡ ok (p, choice)
          → Selects t.pool p
          → ((choice ≡ none) × NoCapacity t.pool c.now t.tried)
            ⊎ ((i : ℕ) × (choice ≡ some i) × GoodChoice t.pool c.now t.tried i)
          → (r : Round U) × (round upstream c.now key req c.max_retries t ≡ ok r)
            × RoundSound P Q start c t r
      go p none e sel (inr (i, e', _)) = cc
      go p none e sel (inl (_, h)) = (
        finished (failure (exhausted t.attempts t.attempt_no)) (record t { pool = p }),
        ap (λ m. m >>= go_on upstream c.now req c.max_retries t) e,
        record {
          fits = sel.fits;
          kept = kept_by p sel;
          paid = f.paid;
          flagged = f.flagged;
          distinct = f.distinct;
          within = ground (arith, f.within);
          first = f.first;
          agrees = (f.all_failed, ap (exhausted t.attempts) f.all_counted);
          opened = unopened p e;
          available = f.available;
          cause = inl (none_left p sel h, f.retried);
          failed_over = f.failed_over;
          failovers_u64 = f.failovers_u64;
        },
      )
      go p (some i) e sel (inl (n, _)) = cc
      go p (some i) e sel (inr (j, j_eq, good)) =
          let same_index : i ≡ j = cc in
          let (h, new) = selectable_fresh t.pool.backends c.now t.tried i (rw same_index good.0) in
          let h' : i < length p.backends =
            rw (← same_length t.pool.backends p.backends sel.same_nodes) h in
          let (reply, name, u, sent) =
            send_to_lem upstream req c.now c.max_retries i (record t { pool = p }) h' in
          let f' = answered_by u in
          let (r, done, sound) =
            conclude_lem P Q start upstream req reply.outcome reply.latency_ms i name c k t
              (changed p i f') m f (changed-RingFits p i f' (λ b. refl) sel.fits)
              (All-update P f' (λ b. k.asked b u) p.backends i (kept_by p sel))
              (rw (length-update p.backends i f') h') new (was i (rw same_index good.0) new)
              (others p i f' sel) (opened_by p i e) in
          (r, ap (λ m. m >>= go_on upstream c.now req c.max_retries t) e ∙ sent ∙ done, sound)

  -- Enough fuel for the attempts that are left.
  pub loop_lem :
      (fuel : ℕ) (upstream : Upstream U) (key : Option (List ℕ)) (req : Request) (c : Entry)
      (k : Keeps c.now P Q) (t : Trip U)
      → (q : Pool U) → select start.pool c.now key [] ≡ ok (q, start.choice)
      → c.max_retries + 1 < u32_mod
      → Sound P Q start c t
      → suc c.max_retries ≤ fuel + length t.attempts
      → (reply : Reply) × (t' : Trip U) × (loop fuel upstream c.now key req c.max_retries t
          ≡ ok (reply, t'))
        × Returned P Q start c reply t'
  unfolding loop
  loop_lem zero upstream key req c k t q opens m f h = absurd (omega (arith, f.within))
  loop_lem (suc fuel) upstream key req c k t q opens m f h =
      let (r, e, sound) = round_lem upstream key req c k t q opens m f in
      go (λ t' s h. loop_lem fuel upstream key req c k t' q opens m s h) r e sound
    where
      go :
          ((t' : Trip U)
            → Sound P Q start c t'
            → suc c.max_retries ≤ fuel + length t'.attempts
            → (reply : Reply) × (t'' : Trip U) × (loop fuel upstream c.now key req c.max_retries t'
                ≡ ok (reply, t''))
              × Returned P Q start c reply t'')
          → (r : Round U) → round upstream c.now key req c.max_retries t ≡ ok r
          → RoundSound P Q start c t r
          → (reply : Reply) × (t' : Trip U) × (loop
                (suc fuel)
                upstream
                c.now
                key
                req
                c.max_retries
                t
              ≡ ok (reply, t'))
            × Returned P Q start c reply t'
      go more (finished reply t') e sound = (reply, t', rw e refl, sound)
      go more (again t') e sound =
          let (reply, t'', done, returned) = more t' sound.0 (omega (arith, sound.1, h)) in
          (reply, t'', rw e done, returned)
