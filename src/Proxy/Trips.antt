-- ===== src/Proxy/Trips.antt =====
-- src/proxy.rs: what holds of the variables of the loop at the head of a round, and what holds when
-- the loop returns.
use echofront.Base.{
  ℕ, suc, ◌+◌, ◌≤◌, ◌<◌, ◌≡◌, ◌≢◌, ◌⊎◌, ◌%◌, refl, true, false, List, [], ◌∷◌, ◌++◌, map, Option,
  none, some, length, contains, All, All-append, Bool, ltb, ◌-◌, arith,
}
use echofront.Base.Int.{leb_ℤ}
use echofront.Base.Words.{add_u32, add_u64, u64_mod}
use echofront.Ewma.{EwmaConfig}
use echofront.Pool.{Pool, Backend, HealthConfig}
use echofront.Pool.Select.Available.{SameNodes, selectable}
use echofront.Pool.Select.Weights.{HasWeight}
use echofront.Pool.Select.Invariant.{NoCapacity}
use echofront.Pool.Change.{timed_success}
use echofront.Pool.Outcome.{failure_of}
use echofront.Retry.{RetryBudget, try_retry}
use echofront.Pool.Select.Sticky.{RingFits}
use echofront.Proxy.{Reply, success, failure, Attempt}
use echofront.Proxy.Handle.{Trip, Round, finished, again, exhausted, or_first}

-- No index twice.
abbrev pub Distinct : List ℕ → Type 0
Distinct [] = Unit {0}
Distinct (x ∷ xs) = (contains xs x ≡ false) × Distinct xs

contains-snoc :
    (xs : List ℕ) (x i : ℕ) → contains xs i ≡ false → x ≢ i → contains (xs ++ x ∷ []) i ≡ false
contains-snoc [] x i h n = ground arith
contains-snoc (y ∷ xs) x i h n = ground (arith, contains-snoc xs x i)

pub contains-snoc_false :
    (xs : List ℕ) (x i : ℕ) → contains (xs ++ x ∷ []) i ≡ false → (contains xs i ≡ false) × (x ≢ i)
contains-snoc_false [] x i h = ground arith
contains-snoc_false (y ∷ xs) x i h = ground (arith, contains-snoc_false xs x i)

pub Distinct-snoc :
    (xs : List ℕ) (i : ℕ) → Distinct xs → contains xs i ≡ false → Distinct (xs ++ i ∷ [])
Distinct-snoc [] i d h = (refl, tt)
Distinct-snoc (x ∷ xs) i d h =
    (contains-snoc xs i x d.0 (ground (arith, h)), Distinct-snoc xs i d.1 (ground (arith, h)))

-- The nodes that were asked, in order.
abbrev pub nodes : List Attempt → List ℕ
nodes = map λ a. a.backend

-- The node of the first attempt.
abbrev pub first_node : List Attempt → Option ℕ
first_node [] = none
first_node (a ∷ attempts) = some a.backend

abbrev pub AllFailed : List Attempt → Type 0
AllFailed = All λ a. a.ok ≡ false

-- Whether a retry was granted is counted.
abbrev pub counted : Bool → ℕ → ℕ
counted true n = add_u64 n 1
counted false n = n

-- A node that was asked: the request was in flight, the upstream answered, and it is no longer.
abbrev pub answered_by {ℓ} : {U : Type ℓ} → U → Backend U → Backend U
answered_by u b = record b { upstream = u; in_flight = add_u32 b.in_flight 1 - 1 }

-- `P` of a node, and `Q` of the budget and the count of retries, outlast whatever the loop does at a
-- time.
pub record Keeps {ℓ} {U : Type ℓ} (now : ℕ) (P : Backend U → Type 0) (Q : RetryBudget → ℕ → Type 0)
    : Type ℓ where
  pub weighed :
      (bs cs : List (Backend U))
      → SameNodes bs cs
      → (All HasWeight bs → All HasWeight cs)
      → All P bs
      → All P cs
  pub asked : (b : Backend U) (u : U) → P b → P (answered_by u b)
  pub failed : (c : HealthConfig) (b : Backend U) → P b → P (failure_of c now b)
  pub succeeded :
      (ewma : Option EwmaConfig) (latency : ℕ) (b : Backend U)
      → P b
      → P (timed_success ewma now latency b)
  pub spent : (b : RetryBudget) (n : ℕ) → Q b n → Q (try_retry b).0 (counted (try_retry b).1 n)

-- No attempt but the first is a retry.
abbrev pub Flagged : List Attempt → Type 0
Flagged [] = Unit {0}
Flagged (a ∷ attempts) = (a.is_retry ≡ false) × All (λ b. b.is_retry ≡ true) attempts

pub Flagged-snoc :
    (attempts : List Attempt) (a : Attempt)
    → a.is_retry ≡ ltb 0 (length attempts)
    → Flagged attempts
    → Flagged (attempts ++ a ∷ [])
Flagged-snoc [] a e f = (e, tt)
Flagged-snoc (b ∷ attempts) a e f =
    (f.0, All-append (λ b. b.is_retry ≡ true) attempts (a ∷ []) f.1 (ground (arith, e), tt))

-- How the reply agrees with the attempts: the last one succeeded and the others failed, or all of
-- them failed and the error says how many there were.
abbrev pub Agrees : Reply → List Attempt → Type 0
Agrees (success resp) attempts =
    (before : List Attempt) × (last : Attempt) × (attempts ≡ before ++ last ∷ [])
    × AllFailed before
    × (last.ok ≡ true)
Agrees (failure e) attempts = AllFailed attempts × (e ≡ exhausted attempts (length attempts))

-- A call of `handle` as it enters the loop: its time, the retries it is allowed, and the counts of
-- the proxy.
pub record Entry : Type 0 where
  pub now : ℕ
  pub max_retries : ℕ
  pub total_retries : ℕ
  pub total_failovers : ℕ

-- A count that has moved on by `n`, modulo 2^64.
abbrev pub MovedBy : ℕ → ℕ → ℕ → Type 0
MovedBy n before after = after % u64_mod ≡ (before + n) % u64_mod

-- The budget does not hold the cost of one more retry.
abbrev pub Refuses : RetryBudget → Type 0
Refuses b = leb_ℤ b.cfg.retry_cost_milli b.tokens_milli ≡ false

-- Why the loop returned, on the pool, the budget and the count of retries that it left. After a
-- success, each attempt but the first was a retry. After a failure, no node was left to ask, and
-- each attempt was followed by a retry; or the attempts were used up or the budget refused, and
-- each attempt but the last was followed by a retry.
abbrev pub Cause {ℓ} :
    {U : Type ℓ} → Entry → Reply → List Attempt → Pool U → RetryBudget → ℕ → Type 0
Cause c (success resp) attempts pool budget retries =
    MovedBy (length attempts - 1) c.total_retries retries
Cause c (failure e) attempts pool budget retries =
    (NoCapacity pool c.now (nodes attempts) × MovedBy (length attempts) c.total_retries retries)
    ⊎ (((length attempts ≡ suc c.max_retries) ⊎ Refuses budget)
        × MovedBy (length attempts - 1) c.total_retries retries)

-- The polled pool of a call, and what its first selection chooses.
pub record Opening {ℓ} (U : Type ℓ) : Type ℓ where
  pub pool : Pool U
  pub choice : Option ℕ

-- The first attempt was at the first choice.
abbrev pub Opened : Option ℕ → List Attempt → Type 0
Opened choice attempts = (j : ℕ) × (choice ≡ some j) × (first_node attempts ≡ some j)

pub Opened-snoc :
    (choice : Option ℕ) (attempts : List Attempt) (a : Attempt)
    → Opened choice attempts
    → Opened choice (attempts ++ a ∷ [])
Opened-snoc choice [] a (j, e, f) = cc
Opened-snoc choice (b ∷ attempts) a (j, e, f) = (j, e, f)

module _ {ℓ} {U : Type ℓ} (start : List (Backend U)) where
  -- A node that the call did not ask is as available as it was at its start.
  abbrev pub Untouched : ℕ → List ℕ → List (Backend U) → Type 0
  Untouched now tried bs =
      (i : ℕ) → contains tried i ≡ false → selectable bs now [] i ≡ selectable start now [] i

  -- Each node that was asked was available at the start of the call.
  abbrev pub WereAvailable : ℕ → List Attempt → Type 0
  WereAvailable now = All λ a. selectable start now [] a.backend ≡ true

module _ {ℓ} {U : Type ℓ} (P : Backend U → Type 0) (Q : RetryBudget → ℕ → Type 0)
    (start : Opening U) where
  -- The attempts so far all failed, at distinct nodes, which are the ones tried; they are counted,
  -- and there are no more of them than retries allowed.
  pub record Sound (c : Entry) (t : Trip U) : Type ℓ where
    pub fits : RingFits t.pool
    pub kept : All P t.pool.backends
    pub paid : Q t.budget t.total_retries
    pub tried_nodes : t.tried ≡ nodes t.attempts
    pub distinct : Distinct (nodes t.attempts)
    pub all_failed : AllFailed t.attempts
    pub flagged : Flagged t.attempts
    pub all_counted : t.attempt_no ≡ length t.attempts
    pub within : length t.attempts ≤ c.max_retries
    pub first : t.first_selected ≡ first_node t.attempts
    pub opening : ((t.attempts ≡ []) × (t.pool ≡ start.pool)) ⊎ Opened start.choice t.attempts
    pub untouched : Untouched start.pool.backends c.now t.tried t.pool.backends
    pub available : WereAvailable start.pool.backends c.now t.attempts
    pub retried : MovedBy (length t.attempts) c.total_retries t.total_retries
    pub failed_over : MovedBy (length t.attempts - 1) c.total_failovers t.total_failovers
    pub failovers_u64 : c.total_failovers < u64_mod → t.total_failovers < u64_mod

  -- What holds when the loop returns.
  pub record Returned (c : Entry) (reply : Reply) (t : Trip U) : Type ℓ where
    pub fits : RingFits t.pool
    pub kept : All P t.pool.backends
    pub paid : Q t.budget t.total_retries
    pub distinct : Distinct (nodes t.attempts)
    pub flagged : Flagged t.attempts
    pub within : length t.attempts ≤ suc c.max_retries
    pub first : t.first_selected ≡ first_node t.attempts
    pub agrees : Agrees reply t.attempts
    pub opened : first_node t.attempts ≡ start.choice
    pub available : WereAvailable start.pool.backends c.now t.attempts
    pub cause : Cause c reply t.attempts t.pool t.budget t.total_retries
    pub failed_over : MovedBy (length t.attempts - 1) c.total_failovers t.total_failovers
    pub failovers_u64 : c.total_failovers < u64_mod → t.total_failovers < u64_mod

  -- A round that goes on has made one more attempt.
  abbrev pub RoundSound : Entry → Trip U → Round U → Type ℓ
  RoundSound c t (finished reply t') = Returned c reply t'
  RoundSound c t (again t') = Sound c t' × (length t'.attempts ≡ length t.attempts + 1)

pub first_node-snoc :
    (attempts : List Attempt) (a : Attempt) (first : Option ℕ)
    → first ≡ first_node attempts
    → or_first first a.backend ≡ first_node (attempts ++ a ∷ [])
first_node-snoc [] a first e = rw e
first_node-snoc (b ∷ attempts) a first e = rw e
