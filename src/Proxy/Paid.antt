-- ===== src/Proxy/Paid.antt =====
-- src/proxy.rs and src/retry.rs: the budget of a running engine, as the calls on it left it.
use echofront.Base.{ℕ, suc, ◌+◌, ◌≡◌, refl, sym, ap, ◌∙◌, List, [], ◌∷◌, ◌++◌, arith}
use echofront.Proxy.Trips.{counted}
use echofront.Retry
use echofront.Retry.{RetryBudget, RetryConfig, on_request, try_retry}
use echofront.Retry.Bound
use echofront.Retry.Bound.{Call, request, retry, requests, after, IsSensible, new-grants_bound}

-- The budget is the one that a new budget becomes by the deposits of `n` requests and some retries,
-- of which it has granted `retries`.
abbrev pub Paid : RetryConfig → ℕ → RetryBudget → ℕ → Type 0
Paid cfg n b retries =
    (calls : List Call) × (b ≡ Bound.run (Retry.new cfg) calls)
    × (requests calls ≡ n)
    × (b.granted ≡ retries)

run-snoc :
    (b : RetryBudget) (calls : List Call) (c : Call)
    → Bound.run b (calls ++ c ∷ []) ≡ after (Bound.run b calls) c
unfolding Bound.run
run-snoc b [] c = refl
run-snoc b (d ∷ calls) c = run-snoc (after b d) calls c

requests-snoc :
    (calls : List Call) (c : Call) → requests (calls ++ c ∷ []) ≡ requests calls + requests (c ∷ [])
unfolding requests
requests-snoc [] c = omega arith
requests-snoc (request ∷ calls) c = omega (arith, requests-snoc calls c)
requests-snoc (retry ∷ calls) c = requests-snoc calls c

granted-try_retry : (b : RetryBudget) → (try_retry b).0.granted ≡ counted (try_retry b).1 b.granted
unfolding try_retry
granted-try_retry b = ground arith

pub try_retry-Paid :
    (cfg : RetryConfig) (n : ℕ) (b : RetryBudget) (retries : ℕ)
    → Paid cfg n b retries
    → Paid cfg n (try_retry b).0 (counted (try_retry b).1 retries)
unfolding after requests
try_retry-Paid cfg n b retries (calls, same, asked, granted) = (
  calls ++ retry ∷ [],
  ap (λ x. (try_retry x).0) same ∙ sym (run-snoc (Retry.new cfg) calls retry),
  omega (arith, requests-snoc calls retry, asked),
  granted-try_retry b ∙ ap (counted (try_retry b).1) granted,
)

pub on_request-Paid :
    (cfg : RetryConfig) (n : ℕ) (b : RetryBudget) (retries : ℕ)
    → Paid cfg n b retries
    → Paid cfg (suc n) (on_request b) retries
unfolding after requests on_request
on_request-Paid cfg n b retries (calls, same, asked, granted) = (
  calls ++ request ∷ [],
  ap on_request same ∙ sym (run-snoc (Retry.new cfg) calls request),
  omega (arith, requests-snoc calls request, asked),
  granted,
)

cfg-after : (b : RetryBudget) (c : Call) → (after b c).cfg ≡ b.cfg
unfolding after on_request try_retry
cfg-after b request = refl
cfg-after b retry = ground arith

pub cfg-run : (b : RetryBudget) (calls : List Call) → (Bound.run b calls).cfg ≡ b.cfg
unfolding Bound.run
cfg-run b [] = refl
cfg-run b (c ∷ calls) = cfg-run (after b c) calls ∙ cfg-after b c
