-- ===== src/Tests/Choices.antt =====
-- src/pool.rs, selection, at concrete inputs.
use echofront.Tests.Nodes.{backend, node, nodes_of, nodes_of-RingFits}
use echofront.Base.{
  ℕ, ◌≡◌, ◌⊎◌, refl, true, List, [], ◌∷◌, Option, none, some, ok, contains, arith, length, ◌*◌,
}
use echofront.Http.{bytes}
use echofront.Pool.{Pool, round_robin, weighted, least_connections, is_available}
use echofront.Pool.Select.{select, available_indices}
use echofront.Pool.Select.Invariant.{Selects, NoCapacity, GoodChoice, select_safe}
use echofront.Pool.Select.Least.{IsLeast}
use echofront.Pool.Select.Strategies.{least_connections_choice}
use echofront.Pool.Select.Turns.{select_many, times, round_robin_fair}
use echofront.Pool.Select.Fair.Cycle.{weighted_fair}
use echofront.Pool.Select.Fair.Sums.{sum}
use echofront.Pool.Select.Visited.{weight_at}

select_safe_example :
    (p' : Pool ℕ) × (choice : Option ℕ) × (select (nodes_of weighted) 500 none (1 ∷ [])
      ≡ ok (p', choice))
    × Selects (nodes_of weighted) p'
    × (((choice ≡ none) × NoCapacity (nodes_of weighted) 500 (1 ∷ []))
        ⊎ ((i : ℕ) × (choice ≡ some i) × GoodChoice (nodes_of weighted) 500 (1 ∷ []) i))
select_safe_example = select_safe (nodes_of weighted) 500 none (1 ∷ []) (nodes_of-RingFits weighted)

round_robin_fair_example :
    (p' : Pool ℕ) × (choices : List (Option ℕ)) × (select_many
        (3 * length (available_indices (nodes_of round_robin) 500 []))
        (nodes_of round_robin)
        500
        none
        []
      ≡ ok (p', choices))
    × ((i : ℕ)
        → contains (available_indices (nodes_of round_robin) 500 []) i ≡ true
        → times i choices ≡ 3)
round_robin_fair_example =
    round_robin_fair (nodes_of round_robin) 500 none [] 3 refl
      (unfold available_indices is_available in λ n. cc)
      (unfold available_indices is_available in omega arith)

-- Two nodes at their full share, of weights 3 and 1.
abbrev even_nodes : Pool ℕ
even_nodes = record (nodes_of weighted) {
  backends =
      record node { ramp_percent = 100 }
      ∷ record (backend (bytes "b") 1 0 0) { ramp_percent = 100 }
      ∷ [];
}

weighted_fair_example :
    (p' : Pool ℕ) × (choices : List (Option ℕ)) × (select_many
        (5 * sum (weight_at even_nodes.backends) (available_indices even_nodes 500 []))
        even_nodes
        500
        none
        []
      ≡ ok (p', choices))
    × ((i : ℕ)
        → contains (available_indices even_nodes 500 []) i ≡ true
        → times i choices ≡ 5 * weight_at even_nodes.backends i)
weighted_fair_example =
    weighted_fair even_nodes 500 none [] 5 refl (unfold available_indices is_available in λ n. cc)
      (unfold available_indices is_available in
        (
          record {
            node = record node { ramp_percent = 100 };
            here = refl;
            heavy = omega arith;
            full = refl;
            level = refl;
          },
          (
            record {
              node = record (backend (bytes "b") 1 0 0) { ramp_percent = 100 };
              here = refl;
              heavy = omega arith;
              full = refl;
              level = refl;
            },
            tt,
          ),
        ))
      (unfold available_indices is_available sum in omega arith)

least_connections_choice_example :
    (i : ℕ) × (select (nodes_of least_connections) 500 none []
      ≡ ok (nodes_of least_connections, some i))
    × (contains (available_indices (nodes_of least_connections) 500 []) i ≡ true)
    × IsLeast
        (nodes_of least_connections).backends
        i
        (available_indices (nodes_of least_connections) 500 [])
unfolding available_indices is_available
least_connections_choice_example =
    least_connections_choice (nodes_of least_connections) 500 none [] refl (λ e. cc)
