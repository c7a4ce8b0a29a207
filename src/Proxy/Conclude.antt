-- ===== src/Proxy/Conclude.antt =====
-- src/proxy.rs, `handle`: the end of a round, from the reply on.
use mathlib.Core.List.{map-append}
use echofront.Base.{
  ℕ, ◌+◌, ◌-◌, ◌<◌, ◌≡◌, ◌≢◌, refl, sym, ap, ◌∙◌, true, false, ltb, if◌then◌else◌, List, [], ◌∷◌,
  ◌++◌, ok, ◌>>=◌, length, length-append, contains, All-append, All, All-update, arith,
}
use echofront.Base.Words.{u32_mod, u64_mod, add_u32, add_u64}
use echofront.Retry.{RetryBudget}
use echofront.Http.{Request}
use echofront.Pool.{Pool, Backend}
use echofront.Pool.Change.{
  changed, record_failure_lem, record_success_latency_lem, changed-RingFits, failure_name,
  timed_success, timed_success_name,
}
use echofront.Pool.Outcome.{failure_of}
use echofront.Pool.Select.Available.{selectable, selectable-update_ne}
use echofront.Pool.Select.Sticky.{RingFits}
use echofront.Proxy.{success, all_attempts_failed, Attempt, decimal, error_text}
use echofront.Proxy.Handle.{Trip, Round, finished, exhausted, conclude, retry_or_stop}
use echofront.Proxy.Send.{replied}
use echofront.Proxy.Trips.{
  Opening, Opened, contains-snoc_false, Entry, MovedBy, Keeps, Flagged-snoc, Sound, RoundSound,
  Distinct, Distinct-snoc, first_node-snoc, nodes,
}
use echofront.Upstream.{Upstream, Outcome, answered, failed}
use echofront.Proxy.Stop.{retry_or_stop_lem}

exhausted-snoc :
    (attempts : List Attempt) (a : Attempt) (n : ℕ)
    → exhausted (attempts ++ a ∷ []) n ≡ all_attempts_failed n
exhausted-snoc [] a n = refl
exhausted-snoc (b ∷ attempts) a n = refl

nodes-snoc :
    (attempts : List Attempt) (a : Attempt)
    → nodes (attempts ++ a ∷ []) ≡ nodes attempts ++ a.backend ∷ []
nodes-snoc attempts a = map-append (λ a. a.backend) attempts (a ∷ [])

module _ {ℓ} {U : Type ℓ} (P : Backend U → Type 0) (Q : RetryBudget → ℕ → Type 0)
    (start : Opening U) where
  -- The variables once an attempt at a fresh node is noted.
  Distinct-nodes :
      (c : Entry) (s : Trip U) (a : Attempt)
      → Sound P Q start c s
      → contains s.tried a.backend ≡ false
      → Distinct (nodes (s.attempts ++ a ∷ []))
  Distinct-nodes c s a f h =
      rw (nodes-snoc s.attempts a)
        (Distinct-snoc (nodes s.attempts) a.backend f.distinct (rw f.tried_nodes at h))

  length_snoc : (s : Trip U) (a : Attempt) → length (s.attempts ++ a ∷ []) ≡ length s.attempts + 1
  length_snoc s a = length-append s.attempts (a ∷ [])

  -- The counts once an attempt is noted.
  note :
      (before after : ℕ) (s : Trip U) (a : Attempt)
      → MovedBy (length s.attempts) before after
      → MovedBy (length (s.attempts ++ a ∷ []) - 1) before after
  note before after s a h = omega (arith, h, length_snoc s a)

  over :
      {c : Entry} (s : Trip U) (a : Attempt)
      → Sound P Q start c s
      → MovedBy
          (length (s.attempts ++ a ∷ []) - 1)
          c.total_failovers
          (if ltb 0 s.attempt_no then add_u64 s.total_failovers 1 else s.total_failovers)
  over s a f = ground (arith, length_snoc s a, f.all_counted, f.failed_over)

  still :
      (s : Trip U)
      → s.total_failovers < u64_mod
      → (if ltb 0 s.attempt_no then add_u64 s.total_failovers 1 else s.total_failovers) < u64_mod
  still s h = ground arith

  pub conclude_lem :
      (upstream : Upstream U) (req : Request) (outcome : Outcome) (latency idx : ℕ) (name : List ℕ)
      (c : Entry) (k : Keeps c.now P Q) (s : Trip U) (pool : Pool U)
      → c.max_retries + 1 < u32_mod
      → Sound P Q start c s
      → RingFits pool
      → All P pool.backends
      → idx < length pool.backends
      → contains s.tried idx ≡ false
      → selectable start.pool.backends c.now [] idx ≡ true
      → ((i : ℕ)
          → contains s.tried i ≡ false
          → idx ≢ i
          → selectable pool.backends c.now [] i ≡ selectable start.pool.backends c.now [] i)
      → ((a : Attempt) → a.backend ≡ idx → Opened start.choice (s.attempts ++ a ∷ []))
      → (r : Round U) × (conclude outcome latency idx name c.now c.max_retries
            (replied upstream req s idx pool)
          ≡ ok r)
        × RoundSound P Q start c s r
  unfolding conclude
  conclude_lem upstream req (answered resp) latency idx name c k s pool m f fits all h new here
        others opens =
      let a : Attempt = record {
        backend = idx;
        backend_name = name;
        ok = true;
        detail = decimal resp.status;
        latency_ms = latency;
        is_retry = ltb 0 s.attempt_no;
      } in
      let p = changed pool idx (timed_success pool.ewma c.now latency) in
      let t = replied upstream req s idx pool in
      (
        finished (success resp) (record t { pool = p; attempts = s.attempts ++ a ∷ [] }),
        ap
            (λ m. m >>= λ q.
              ok (finished (success resp) (record t { pool = q; attempts = s.attempts ++ a ∷ [] })))
            (record_success_latency_lem pool idx c.now latency h),
        record {
          fits =
              changed-RingFits pool idx (timed_success pool.ewma c.now latency)
                (timed_success_name pool.ewma c.now latency) fits;
          kept =
              All-update P (timed_success pool.ewma c.now latency) (k.succeeded pool.ewma latency)
                pool.backends idx all;
          paid = f.paid;
          flagged = Flagged-snoc s.attempts a (ap (ltb 0) f.all_counted) f.flagged;
          distinct = Distinct-nodes c s a f new;
          within = ground (arith, length_snoc s a, f.within);
          first = first_node-snoc s.attempts a s.first_selected f.first;
          agrees = (s.attempts, a, refl, f.all_failed, refl);
          opened = (let (j, chosen, asked) = opens a refl in asked ∙ sym chosen);
          available =
              All-append (λ a. selectable start.pool.backends c.now [] a.backend ≡ true) s.attempts
                (a ∷ []) f.available (here, tt);
          cause = note _ _ s a f.retried;
          failed_over = over s a f;
          failovers_u64 = λ h. still s (f.failovers_u64 h);
        },
      )
  conclude_lem upstream req (failed e) latency idx name c k s pool m f fits all h new here others
        opens =
      let a : Attempt = record {
        backend = idx;
        backend_name = name;
        ok = false;
        detail = error_text e;
        latency_ms = latency;
        is_retry = ltb 0 s.attempt_no;
      } in
      let p = changed pool idx (failure_of pool.health c.now) in
      let next = λ (q : Pool U). record (replied upstream req s idx pool) {
        pool = q;
        attempts = s.attempts ++ a ∷ [];
        tried = s.tried ++ idx ∷ [];
        attempt_no = add_u32 s.attempt_no 1;
      } in
      (
        retry_or_stop c.max_retries (next p),
        ap (λ m. m >>= λ q. ok (retry_or_stop c.max_retries (next q)))
            (record_failure_lem pool idx c.now h),
        retry_or_stop_lem P Q start c k s (next p) (record {
          fits =
              changed-RingFits pool idx (failure_of pool.health c.now)
                (failure_name pool.health c.now) fits;
          kept =
              All-update P (failure_of pool.health c.now) (k.failed pool.health) pool.backends idx
                all;
          paid = f.paid;
          flagged = Flagged-snoc s.attempts a (ap (ltb 0) f.all_counted) f.flagged;
          tried_nodes = ap (λ xs. xs ++ idx ∷ []) f.tried_nodes ∙ sym (nodes-snoc s.attempts a);
          distinct = Distinct-nodes c s a f new;
          all_failed = All-append (λ a. a.ok ≡ false) s.attempts (a ∷ []) f.all_failed (refl, tt);
          all_counted = add_one s a f.all_counted (ground (arith, f.within));
          one_more = length_snoc s a;
          within = ground (arith, length_snoc s a, f.within);
          first = first_node-snoc s.attempts a s.first_selected f.first;
          opened = opens a refl;
          untouched = λ i n.
              let (n', ne) = contains-snoc_false s.tried idx i n in
              selectable-update_ne pool.backends c.now [] idx i (failure_of pool.health c.now) ne
              ∙ others i n' ne;
          available =
              All-append (λ a. selectable start.pool.backends c.now [] a.backend ≡ true) s.attempts
                (a ∷ []) f.available (here, tt);
          retried = note _ _ s a f.retried;
          failed_over = over s a f;
          failovers_u64 = λ h. still s (f.failovers_u64 h);
          error = exhausted-snoc s.attempts a (add_u32 s.attempt_no 1);
        }),
      )
    where
      add_one :
          (s : Trip U) (a : Attempt)
          → s.attempt_no ≡ length s.attempts
          → length s.attempts + 1 < u32_mod
          → add_u32 s.attempt_no 1 ≡ length (s.attempts ++ a ∷ [])
      add_one s a c h = ground (arith, length_snoc s a)
