-- ===== src/Proxy/Promise.antt =====
-- src/proxy.rs, `handle`: what it promises of its result, of its counts, and of why it returned.
use echofront.Base.{
  ℕ, ◌+◌, ◌≤◌, ◌<◌, ◌≡◌, ◌⊎◌, inl, inr, refl, list_eq, list_eq_refl, ◌-◌, Exec, List, [], ◌∷◌,
  Option, none, some, ok, length, All, true, false, panic, index, arith, Bool-cases,
}
use echofront.Base.Words.{u64_mod}
use echofront.Pool.{Pool, Backend, is_available}
use echofront.Pool.Poll.{poll}
use echofront.Pool.Select.{select}
use echofront.Pool.Select.Available.{selectable}
use echofront.Proxy.{Proxy, failure, no_route, HandleResult, find_pool, insert_pool}
use echofront.Proxy.Handle.{unrouted}
use echofront.Proxy.Trips.{Entry, MovedBy, Cause, Flagged, Agrees, Distinct, nodes, first_node}

-- What a handled request's result says, for a request whose service, if any, is `service`: at
-- most `max_retries + 1` attempts, at distinct nodes, the first of them being the one reported as
-- selected, all others being retries, and a reply that agrees with them.
pub record Handled (service : Option (List ℕ)) (max_retries : ℕ) (r : HandleResult) : Type 0 where
  pub same_service : r.service ≡ service
  pub within : length r.attempts ≤ max_retries + 1
  pub distinct : Distinct (nodes r.attempts)
  pub flagged : Flagged r.attempts
  pub first : r.selected ≡ first_node r.attempts
  pub agrees : ((r.response ≡ failure no_route) × (r.attempts ≡ [])) ⊎ Agrees r.response r.attempts

-- A call of `handle` on a proxy as it enters the loop.
abbrev pub enter {ℓ} : {U : Type ℓ} → Proxy U → ℕ → Entry
enter x now = record {
  now = now;
  max_retries = x.budget.cfg.max_retries_per_request;
  total_retries = x.total_retries;
  total_failovers = x.total_failovers;
}

-- No pool for the request: no route matched, or the route's service has no pool.
abbrev pub Unserved {ℓ} : {U : Type ℓ} → Proxy U → HandleResult → Type ℓ
Unserved x r = elim r.service [ none ↦ Unit | some service ↦ find_pool service x.pools ≡ none ]

-- Why a call returned what it did.
abbrev pub Reason {ℓ} : {U : Type ℓ} → ℕ → Proxy U → Proxy U → HandleResult → Type ℓ
Reason {U = U} now x x' r =
    ((r.response ≡ failure no_route) × Unserved x r × MovedBy 0 x.total_retries x'.total_retries)
    ⊎ ((service : List ℕ) × (pool : Pool U) × (r.service ≡ some service)
        × (find_pool service x'.pools ≡ some pool)
        × Cause (enter x now) r.response r.attempts pool x'.budget x'.total_retries)

-- The node at an index of the service's pool, once the pool is polled, is healthy, not ejected, and
-- admitted by its breaker.
abbrev pub WasAvailable {ℓ} : {U : Type ℓ} → Proxy U → ℕ → Option (List ℕ) → ℕ → Type ℓ
WasAvailable {U = U} x now service i =
    (name : List ℕ) × (pool : Pool U) × (b : Backend U) × (service ≡ some name)
    × (find_pool name x.pools ≡ some pool)
    × (index (poll pool now).backends i ≡ ok b)
    × (is_available b now ≡ true)

-- The backend reported as selected is the one that the service's pool, once polled, selects for the
-- request's key; if there is no pool, it is none.
abbrev pub Chosen {ℓ} : {U : Type ℓ} → Proxy U → ℕ → Option (List ℕ) → HandleResult → Type ℓ
Chosen {U = U} x now key r =
    (Unserved x r × (r.selected ≡ none))
    ⊎ ((name : List ℕ) × (pool : Pool U) × (after : Pool U) × (r.service ≡ some name)
        × (find_pool name x.pools ≡ some pool)
        × (select (poll pool now) now key [] ≡ ok (after, r.selected)))

-- What a call at a time, with a key, counts, and why it returned.
pub record Settled {ℓ} {U : Type ℓ} (now : ℕ) (key : Option (List ℕ)) (requests : ℕ)
    (x x' : Proxy U) (r : HandleResult) : Type ℓ where
  pub available : All (λ a. WasAvailable x now r.service a.backend) r.attempts
  pub chosen : Chosen x now key r
  pub counted : x'.total_requests ≡ requests
  pub failed_over : MovedBy (length r.attempts - 1) x.total_failovers x'.total_failovers
  pub failovers_u64 : x.total_failovers < u64_mod → x'.total_failovers < u64_mod
  pub reason : Reason now x x' r

pub refused :
    (service : Option (List ℕ)) (max_retries : ℕ) → Handled service max_retries (unrouted service)
refused service max_retries = record {
  same_service = refl;
  within = omega arith;
  distinct = tt;
  flagged = tt;
  first = refl;
  agrees = inl (refl, refl);
}

module _ {ℓ} {U : Type ℓ} where
  pub selectable-WasAvailable :
      (x : Proxy U) (now : ℕ) (name : List ℕ) (pool : Pool U)
      → find_pool name x.pools ≡ some pool
      → (i : ℕ) → selectable (poll pool now).backends now [] i ≡ true
      → WasAvailable x now (some name) i
  selectable-WasAvailable x now name pool found i h = go (index (poll pool now).backends i) refl h
    where
      go :
          (m : Exec (Backend U))
          → index (poll pool now).backends i ≡ m
          → elim m [ ok b ↦ is_available b now | panic ↦ false ] ≡ true
          → WasAvailable x now (some name) i
      go (ok b) at h = (name, pool, b, refl, found, at, h)
      go panic at h = cc

  pub find_pool-All {κ} :
      (R : Pool U → Type κ) (name : List ℕ) (pools : List (List ℕ × Pool U)) {p : Pool U}
      → All (λ e. R e.1) pools
      → find_pool name pools ≡ some p
      → R p
  unfolding find_pool
  find_pool-All R name [] a e = cc
  find_pool-All R name ((k, q) ∷ pools) {p} a e = elim (Bool-cases (list_eq k name)) [
    | inl y ↦ let same : q ≡ p = cc (rw y at e) in rw (← same) a.0
    | inr n ↦ find_pool-All R name pools a.1 (rw n at e)
  ]

  -- What was inserted is found.
  pub find_pool-insert_pool :
      (name : List ℕ) (p : Pool U) (pools : List (List ℕ × Pool U))
      → find_pool name (insert_pool name p pools) ≡ some p
  unfolding find_pool insert_pool
  find_pool-insert_pool name p [] = rw (list_eq_refl name) refl
  find_pool-insert_pool name p ((k, q) ∷ pools) = elim (Bool-cases (list_eq k name)) [
    | inl y ↦ rw (y, y) refl
    | inr n ↦ rw (n, n) (find_pool-insert_pool name p pools)
  ]

  pub insert_pool-All {κ} :
      (R : Pool U → Type κ) (name : List ℕ) (p : Pool U) (pools : List (List ℕ × Pool U))
      → R p
      → All (λ e. R e.1) pools
      → All (λ e. R e.1) (insert_pool name p pools)
  unfolding insert_pool
  insert_pool-All R name p [] f a = (f, tt)
  insert_pool-All R name p ((k, q) ∷ pools) f a = elim (Bool-cases (list_eq k name)) [
    | inl y ↦ rw y (f, a.1)
    | inr n ↦ rw n (a.0, insert_pool-All R name p pools f a.1)
  ]
