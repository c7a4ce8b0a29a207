-- ===== src/Pool/Select.antt =====
-- src/pool.rs, selection: `available_indices`, `select` and the four strategies. A panic is an
-- index out of range.
pub mod Available
pub mod Least
pub mod Visited
pub mod Weighted
pub mod Weights
pub mod Sticky
pub mod Names
pub mod Safe
pub mod Invariant
pub mod Strategies
pub mod Turns
pub mod Fair
use echofront.Base.{
  ℕ, suc, ◌+◌, ◌*◌, ◌%◌, Bool, true, false, ◌&&◌, not, ltb, ◌==◌, if◌then◌else◌, List, [], ◌∷◌, map,
  Option, none, some, Exec, ok, panic, ◌>>=◌, index, modify, length, contains, list_eq, ◌||◌,
}
use echofront.Base.Int.{ℤ, pos, ltb_ℤ}
use echofront.Base.Words.{add_u64, add_i64, sub_i64, wrap_i64}
use echofront.HashRing
use echofront.Pool.{
  Pool, Backend, Strategy, round_robin, weighted, least_connections, consistent_hash, is_available,
}

-- The variables of the loop of `select_weighted`.
pub record Tally {ℓ} (U : Type ℓ) : Type ℓ where
  pub best : Option ℕ
  pub total : ℤ
  pub backends : List (Backend U)

abbrev unwrap_or : Option ℕ → ℕ → ℕ
unwrap_or none d = d
unwrap_or (some a) d = a

module _ {ℓ} {U : Type ℓ} where
  -- The filter of `available_indices` over the backends from index `i` on.
  pub available_from : ℕ → ℕ → List ℕ → List (Backend U) → List ℕ
  available_from now i exclude [] = []
  available_from now i exclude (b ∷ backends) =
      let rest = available_from now (suc i) exclude backends in
      if not (contains exclude i) && is_available b now then i ∷ rest else rest

  unfoldable pub available_indices : Pool U → ℕ → List ℕ → List ℕ
  unfolding available_from
  available_indices p now exclude = available_from now 0 exclude p.backends

  unfoldable pub select_round_robin : Pool U → List ℕ → Exec (Pool U × ℕ)
  select_round_robin p available = do
    pick ← index available (p.rr_cursor % length available)
    ok (record p { rr_cursor = add_u64 p.rr_cursor 1 }, pick)

  unfoldable pub weighted_score : Backend U → ℤ
  weighted_score b = wrap_i64 (pos (b.weight * b.ramp_percent))

  -- The `match best` of the loop, for node `i`.
  unfoldable pub challenge : List (Backend U) → ℕ → Option ℕ → Exec (Option ℕ)
  challenge backends i none = ok (some i)
  challenge backends i (some b) = do
    w ← index backends i
    holder ← index backends b
    ok (if ltb_ℤ holder.current_weight w.current_weight then some i else some b)

  -- One round of the loop for a node of weight above zero.
  unfoldable pub weigh : ℕ → Backend U → Tally U → Exec (Tally U)
  unfolding weighted_score challenge
  weigh i b s = do
    let score = weighted_score b
    backends ←
        modify s.backends i (λ w. record w { current_weight = add_i64 w.current_weight score })
    best ← challenge backends i s.best
    ok (record { best = best; total = add_i64 s.total score; backends = backends })

  unfoldable pub visit : ℕ → Tally U → Exec (Tally U)
  unfolding weigh
  visit i s = do b ← index s.backends i; if b.weight == 0 then ok s else weigh i b s

  unfoldable pub visit_all : List ℕ → Tally U → Exec (Tally U)
  visit_all [] s = ok s
  visit_all (i ∷ available) s = do s' ← visit i s; visit_all available s'

  -- The node chosen pays the total.
  unfoldable pub settle : Pool U → Tally U → Exec (Pool U × Option ℕ)
  settle p s = elim s.best [
    | none ↦ ok (record p { backends = s.backends }, none)
    | some b ↦ do
      backends ←
          modify s.backends b (λ w. record w { current_weight = sub_i64 w.current_weight s.total })
      ok (record p { backends = backends }, some b)
  ]

  unfoldable pub select_weighted : Pool U → List ℕ → Exec (Pool U × Option ℕ)
  unfolding visit_all visit settle
  select_weighted p available = do
    s ← visit_all available (record { best = none; total = pos 0; backends = p.backends })
    settle p s

  -- The loop of `select_least_conn`.
  pub least_from : List (Backend U) → ℕ → List ℕ → Exec ℕ
  least_from backends best [] = ok best
  least_from backends best (i ∷ available) = do
    b ← index backends i
    holder ← index backends best
    least_from backends (if ltb b.in_flight holder.in_flight then i else best) available

  unfoldable pub select_least_conn : Pool U → List ℕ → Exec ℕ
  unfolding least_from
  select_least_conn p available = do
    first ← index available 0
    least_from p.backends first available

  pub members_of : List (Backend U) → List ℕ → Exec (List (ℕ × List ℕ))
  members_of backends [] = ok []
  members_of backends (i ∷ available) = do
    b ← index backends i
    members ← members_of backends available
    ok ((i, b.name) ∷ members)

  -- The ring is rebuilt when it was built for another set of nodes.
  unfoldable pub refresh_ring : Pool U → List ℕ → Exec (Pool U)
  unfolding members_of HashRing.rebuild HashRing.is_empty
  refresh_ring p available =
      if not (list_eq p.ring_signature available) || HashRing.is_empty p.ring
      then (do
        members ← members_of p.backends available
        ok (record p { ring = HashRing.rebuild p.ring members; ring_signature = available }))
      else ok p

  unfoldable pub select_hash : Pool U → List ℕ → Option (List ℕ) → Exec (Pool U × ℕ)
  unfolding select_round_robin refresh_ring HashRing.lookup
  select_hash p available none = select_round_robin p available
  select_hash p available (some key) = do
    p' ← refresh_ring p available
    first ← index available 0
    ok (p', unwrap_or (HashRing.lookup p'.ring key) first)

  abbrev chosen : Pool U × ℕ → Pool U × Option ℕ
  chosen (p, i) = (p, some i)

  -- The `match self.strategy`, on a list of available nodes that is not empty.
  unfoldable pub select_by : Strategy → Pool U → List ℕ → Option (List ℕ) → Exec (Pool U × Option ℕ)
  unfolding select_round_robin select_weighted select_least_conn select_hash
  select_by round_robin p available key = do r ← select_round_robin p available; ok (chosen r)
  select_by weighted p available key = select_weighted p available
  select_by least_connections p available key = do i ← select_least_conn p available; ok (p, some i)
  select_by consistent_hash p available key = do r ← select_hash p available key; ok (chosen r)

  -- The rest of `select`, from the indices of the available nodes.
  unfoldable pub select_from : Pool U → Option (List ℕ) → List ℕ → Exec (Pool U × Option ℕ)
  unfolding select_by
  select_from p key [] = ok (p, none)
  select_from p key (i ∷ rest) = select_by p.strategy p (i ∷ rest) key

  unfoldable pub select : Pool U → ℕ → Option (List ℕ) → List ℕ → Exec (Pool U × Option ℕ)
  unfolding available_indices select_from
  select p now key exclude = select_from p key (available_indices p now exclude)
