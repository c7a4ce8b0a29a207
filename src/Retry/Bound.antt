-- ===== src/Retry/Bound.antt =====
-- src/retry.rs: how many retries the bucket can grant, and when it must grant one.
use echofront.Base.{
  ℕ, zero, suc, ◌+◌, ◌-◌, ◌*◌, ◌%◌, ◌≤◌, ◌<◌, ◌^◌, ◌≡◌, refl, ap, ◌∙◌, true, false, List, [], ◌∷◌,
  arith, min, if◌then◌else◌,
}
use echofront.Base.Int.{pos, ◌≤ℤ◌, pos_part, ◌+ℤ◌, ◌-ℤ◌}
use echofront.Base.Words.{wrap_i64_lem, u64_mod}
use echofront.Retry.{RetryConfig, RetryBudget, new, on_request, try_retry}

-- No amount is negative, a retry costs something, and a deposit on a full bucket fits i64.
pub record IsSensible (c : RetryConfig) : Type 0 where
  pub deposit_nonneg : pos 0 ≤ℤ c.deposit_milli
  pub cost_positive : pos 1 ≤ℤ c.retry_cost_milli
  pub max_nonneg : pos 0 ≤ℤ c.max_milli
  pub fits_i64 : pos_part c.max_milli + pos_part c.deposit_milli < 2 ^ 63

-- The bucket is never in debt and never over its cap.
pub record IsValid (b : RetryBudget) : Type 0 where
  pub sensible : IsSensible b.cfg
  pub no_debt : pos 0 ≤ℤ b.tokens_milli
  pub capped : b.tokens_milli ≤ℤ b.cfg.max_milli

pub new-IsValid : (c : RetryConfig) → IsSensible c → IsValid (new c)
unfolding new
new-IsValid c h = record { sensible = h; no_debt = h.max_nonneg; capped = omega arith }

-- The amount of a valid budget as a number.
abbrev pub amount : RetryBudget → ℕ
amount b = pos_part b.tokens_milli

abbrev pub deposit : RetryBudget → ℕ
deposit b = pos_part b.cfg.deposit_milli

abbrev pub cost : RetryBudget → ℕ
cost b = pos_part b.cfg.retry_cost_milli

-- A deposit adds its amount up to the cap, and changes nothing else.
on_request_lem :
    (b : RetryBudget)
    → IsValid b
    → on_request b
      ≡ record b { tokens_milli = pos (min (amount b + deposit b) (pos_part b.cfg.max_milli)) }
unfolding on_request ◌+ℤ◌
on_request_lem b v = ground (arith, wrap_i64_lem (b.tokens_milli +ℤ b.cfg.deposit_milli))

-- A retry is allowed exactly when the bucket holds its cost, which is then taken out.
try_retry_lem :
    (b : RetryBudget)
    → IsValid b
    → ((cost b ≤ amount b)
        → try_retry b ≡ (
          record b { tokens_milli = pos (amount b - cost b); granted = (b.granted + 1) % u64_mod },
          true,
        ))
      × ((amount b < cost b)
          → try_retry b ≡ (record b { denied = (b.denied + 1) % u64_mod }, false))
unfolding try_retry ◌-ℤ◌
try_retry_lem b v = ground (arith, wrap_i64_lem (b.tokens_milli -ℤ b.cfg.retry_cost_milli))

-- What the proxy does to its budget: it opens a request, or asks for a retry.
pub data Call : Type 0 where
  request retry : Call

unfoldable pub after : RetryBudget → Call → RetryBudget
after b request = on_request b
after b retry = (try_retry b).0

unfoldable pub run : RetryBudget → List Call → RetryBudget
run b [] = b
run b (c ∷ cs) = run (after b c) cs

-- How many of the calls open a request, and how many retries are allowed along the run.
unfoldable pub requests : List Call → ℕ
requests [] = 0
requests (request ∷ cs) = suc (requests cs)
requests (retry ∷ cs) = requests cs

abbrev allowed : RetryBudget → Call → ℕ
allowed b request = 0
allowed b retry = if (try_retry b).1 then 1 else 0

pub grants : RetryBudget → List Call → ℕ
grants b [] = 0
grants b (c ∷ cs) = allowed b c + grants (after b c) cs

pub after-IsValid : (b : RetryBudget) (c : Call) → IsValid b → IsValid (after b c)
unfolding after
after-IsValid b request v = ground (arith, on_request_lem b v)
after-IsValid b retry v = ground (arith, try_retry_lem b v)

pub run-IsValid : (b : RetryBudget) (cs : List Call) → IsValid b → IsValid (run b cs)
unfolding run
run-IsValid b [] v = v
run-IsValid b (c ∷ cs) v = run-IsValid (after b c) cs (after-IsValid b c v)

-- One call pays for what it allows, and keeps the configuration.
after_pays :
    (b : RetryBudget) (c : Call)
    → IsValid b
    → b.granted < u64_mod
    → (allowed b c * cost b + amount (after b c) ≤ amount b + requests (c ∷ []) * deposit b)
      × (deposit (after b c) ≡ deposit b)
      × (cost (after b c) ≡ cost b)
      × ((after b c).granted ≡ (b.granted + allowed b c) % u64_mod)
unfolding after requests
after_pays b request v g = ground (arith, on_request_lem b v)
after_pays b retry v g = ground (arith, try_retry_lem b v)

requests-cons : (c : Call) (cs : List Call) → requests (c ∷ cs) ≡ requests (c ∷ []) + requests cs
unfolding requests
requests-cons request cs = omega arith
requests-cons retry cs = omega arith

-- Two payments under the same prices add up.
add_payments :
    (a g left mid start r r' : ℕ) {k k' d d' : ℕ}
    → k' ≡ k
    → d' ≡ d
    → a * k + mid ≤ start + r * d
    → g * k' + left ≤ mid + r' * d'
    → (a + g) * k + left ≤ start + (r + r') * d
add_payments a g left mid start r r' p q h h' = let h'' = rw (p, q) at h' in omega (arith, h'')

-- From any valid budget, the retries that a run of calls is allowed cost no more than what the
-- bucket held and what its requests deposited, less what is left; `granted` counts them modulo
-- 2^64.
pub grants_bound :
    (b : RetryBudget) (cs : List Call)
    → IsValid b
    → b.granted < u64_mod
    → (grants b cs * cost b + amount (run b cs) ≤ amount b + requests cs * deposit b)
      × ((run b cs).granted ≡ (b.granted + grants b cs) % u64_mod)
unfolding run grants
grants_bound b [] v g = (omega arith, omega arith)
grants_bound b (c ∷ cs) v g =
    let (paid, dep, cst, grt) = after_pays b c v g in
    let (rest, count) = grants_bound (after b c) cs (after-IsValid b c v) (omega arith) in
    (rw requests-cons (add_payments _ _ _ _ _ _ _ cst dep paid rest), omega arith)

-- A new budget: `granted * cost` never exceeds the full bucket and the deposits of all requests,
-- `max + requests * deposit`, whatever the order of requests and retries.
pub new-grants_bound :
    (c : RetryConfig) (cs : List Call)
    → IsSensible c
    → (run (new c) cs).granted * pos_part c.retry_cost_milli
      ≤ pos_part c.max_milli + requests cs * pos_part c.deposit_milli
unfolding new
new-grants_bound c cs h =
    let (bound, count) = grants_bound (new c) cs (new-IsValid c h) (omega arith) in
    let few : (run (new c) cs).granted ≤ grants (new c) cs = omega arith in grind arith

abbrev pub deposits : ℕ → List Call
deposits zero = []
deposits (suc n) = request ∷ deposits n

run-deposits :
    (b : RetryBudget) (n : ℕ)
    → IsValid b
    → (min (amount b + n * deposit b) (pos_part b.cfg.max_milli) ≤ amount (run b (deposits n)))
      × ((run b (deposits n)).cfg ≡ b.cfg)
unfolding run after
run-deposits b zero v = (omega arith, refl)
run-deposits b (suc n) v =
    let full = on_request_lem b v in
    let (filled, same) = run-deposits (on_request b) n (after-IsValid b request v) in
    let dep = ap (λ x. n * deposit x) full in
    let cap = ap (λ x. pos_part x.cfg.max_milli) full in
    (omega (arith, filled, dep, cap, ap amount full), same ∙ ap (λ x. x.cfg) full)

-- However drained the bucket is, requests whose deposits add up to the cost of a retry (which fits
-- the bucket) bring the next retry back.
pub retry_returns :
    (b : RetryBudget) (n : ℕ)
    → IsValid b
    → cost b ≤ n * deposit b
    → cost b ≤ pos_part b.cfg.max_milli
    → (try_retry (run b (deposits n))).1 ≡ true
retry_returns b n v enough fits =
    let v' : IsValid (run b (deposits n)) = run-IsValid b (deposits n) v in
    let (filled, same) = run-deposits b n v in
    let paid : cost (run b (deposits n)) ≤ amount (run b (deposits n)) =
      rw same (omega (arith, filled)) in
    ap (λ r. r.1) ((try_retry_lem (run b (deposits n)) v').0 paid)
