-- ===== src/Proxy/Stop.antt =====
-- src/proxy.rs, `handle`: the end of a round after a failure, which gives up or spends a retry.
use echofront.Base.{
  ℕ, suc, ◌+◌, ◌-◌, ◌≤◌, ◌<◌, ◌≡◌, ◌⊎◌, inl, inr, refl, sym, ap, ◌∙◌, Bool, true, false, ltb,
  if◌then◌else◌, length, All, arith,
}
use mathlib.Core.Path.{subst}
use echofront.Base.Words.{u64_mod, add_u64}
use echofront.Retry.{RetryBudget, try_retry}
use echofront.Pool.{Backend}
use echofront.Pool.Select.Sticky.{RingFits}
use echofront.Proxy.{failure, all_attempts_failed}
use echofront.Proxy.Handle.{Trip, finished, again, exhausted, retry_or_stop}
use echofront.Proxy.Trips.{
  Opening, Opened, Untouched, WereAvailable, Entry, MovedBy, Refuses, Keeps, counted, Flagged,
  Returned, RoundSound, AllFailed, first_node, Distinct, nodes,
}

-- A budget that refuses is left as it was, but for the count.
refused : (b : RetryBudget) → (try_retry b).1 ≡ false → Refuses (try_retry b).0
unfolding try_retry
refused b e = ground (arith, e)

one_retry :
    (n m before after : ℕ)
    → MovedBy (n - 1) before after
    → n ≡ m + 1
    → MovedBy n before (add_u64 after 1)
one_retry n m before after h e = omega (arith, h, e)

module _ {ℓ} {U : Type ℓ} (P : Backend U → Type 0) (Q : RetryBudget → ℕ → Type 0)
    (start : Opening U) where
  -- The variables after a failure, before the budget is asked.
  pub record Failing (c : Entry) (s t : Trip U) : Type ℓ where
    pub fits : RingFits t.pool
    pub kept : All P t.pool.backends
    pub paid : Q t.budget t.total_retries
    pub tried_nodes : t.tried ≡ nodes t.attempts
    pub distinct : Distinct (nodes t.attempts)
    pub all_failed : AllFailed t.attempts
    pub flagged : Flagged t.attempts
    pub all_counted : t.attempt_no ≡ length t.attempts
    pub one_more : length t.attempts ≡ length s.attempts + 1
    pub within : length t.attempts ≤ suc c.max_retries
    pub first : t.first_selected ≡ first_node t.attempts
    pub opened : Opened start.choice t.attempts
    pub untouched : Untouched start.pool.backends c.now t.tried t.pool.backends
    pub available : WereAvailable start.pool.backends c.now t.attempts
    pub retried : MovedBy (length t.attempts - 1) c.total_retries t.total_retries
    pub failed_over : MovedBy (length t.attempts - 1) c.total_failovers t.total_failovers
    pub failovers_u64 : c.total_failovers < u64_mod → t.total_failovers < u64_mod
    pub error : exhausted t.attempts t.attempt_no ≡ all_attempts_failed t.attempt_no

  gives_up :
      (c : Entry) (s t : Trip U) (budget : RetryBudget)
      → Failing c s t
      → Q budget t.total_retries
      → (length t.attempts ≡ suc c.max_retries) ⊎ Refuses budget
      → Returned P Q start c
          (failure (all_attempts_failed t.attempt_no))
          (record t { budget = budget })
  gives_up c s t budget f paid why = record {
    fits = f.fits;
    kept = f.kept;
    paid = paid;
    flagged = f.flagged;
    distinct = f.distinct;
    within = f.within;
    first = f.first;
    agrees = (f.all_failed, sym f.error ∙ ap (exhausted t.attempts) f.all_counted);
    opened = (let (j, chosen, asked) = f.opened in asked ∙ sym chosen);
    available = f.available;
    cause = inr (why, f.retried);
    failed_over = f.failed_over;
    failovers_u64 = f.failovers_u64;
  }

  pub retry_or_stop_lem :
      (c : Entry) (k : Keeps c.now P Q) (s t : Trip U)
      → Failing c s t
      → RoundSound P Q start c s (retry_or_stop c.max_retries t)
  unfolding retry_or_stop
  retry_or_stop_lem c k s t f =
      decide (ltb c.max_retries t.attempt_no) (try_retry t.budget).1 refl refl
    where
      paid_for :
          (allowed : Bool)
          → (try_retry t.budget).1 ≡ allowed
          → Q (try_retry t.budget).0 (counted allowed t.total_retries)
      paid_for allowed e =
          subst (λ x. Q (try_retry t.budget).0 (counted x t.total_retries)) e
            (k.spent t.budget t.total_retries f.paid)

      decide :
          (over allowed : Bool)
          → ltb c.max_retries t.attempt_no ≡ over
          → (try_retry t.budget).1 ≡ allowed
          → RoundSound P Q start c s (
              if over
              then finished (failure (all_attempts_failed t.attempt_no)) t
              else (if allowed
                  then again (record t {
                    budget = (try_retry t.budget).0;
                    total_retries = add_u64 t.total_retries 1;
                  })
                  else finished
                      (failure (all_attempts_failed t.attempt_no))
                      (record t { budget = (try_retry t.budget).0 })))
      decide true allowed e e' =
          gives_up c s t t.budget f f.paid (inl (ground (arith, e, f.all_counted, f.within)))
      decide false true e e' = (
        record {
          fits = f.fits;
          kept = f.kept;
          paid = paid_for true e';
          flagged = f.flagged;
          tried_nodes = f.tried_nodes;
          distinct = f.distinct;
          all_failed = f.all_failed;
          all_counted = f.all_counted;
          within = ground (arith, e, f.all_counted);
          first = f.first;
          opening = inr f.opened;
          untouched = f.untouched;
          available = f.available;
          retried = one_retry _ _ _ _ f.retried f.one_more;
          failed_over = f.failed_over;
          failovers_u64 = f.failovers_u64;
        },
        f.one_more,
      )
      decide false false e e' =
          gives_up c s t (try_retry t.budget).0 f (paid_for false e') (inr (refused t.budget e'))
