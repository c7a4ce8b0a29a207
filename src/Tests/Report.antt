-- ===== src/Tests/Report.antt =====
-- src/pool.rs at a concrete input: the report of a pool, in numbers rounded down.
use echofront.Base.{
  ℕ, ◌≡◌, refl, ◌*◌, ◌/◌, Bool, true, false, ltb, List, [], ◌∷◌, map, none, Exec, ok, ◌>>=◌, index,
  length,
}
use echofront.Base.Float.{Float}
use echofront.Base.Int.{pos, pos_part, ◌+ℤ◌}
use echofront.Base.Words.{wrap_i64}
use echofront.Breaker
use echofront.Ewma.{DistributionRow}
use echofront.Http.{bytes}
use echofront.Pool
use echofront.Pool.{Pool, Backend, weighted, default_health, add_backend, new_backend, is_available}
use echofront.Pool.Report.{distribution}
use echofront.Pool.Report.Rows.{Reports, distribution-Reports}
use echofront.Pool.Select.{Tally, visit_all, available_indices}

-- Whole numbers, rounded down.
abbrev pub whole : Float ℕ
whole = record { cast = pos_part; mul = λ a b. a * b; div = λ a b. a / b; lt = ltb }

abbrev node : List ℕ → ℕ → ℕ → Backend ℕ
unfolding new_backend
node name weight served = record (new_backend name weight 0 default_health Breaker.default_config) {
  served = served;
}

-- Three nodes, the second of them unhealthy.
abbrev trio : Pool ℕ
unfolding Pool.new add_backend
trio =
    add_backend
      (add_backend
        (add_backend (Pool.new (bytes "web") weighted default_health) (node (bytes "a") 3 10))
        (record (node (bytes "b") 5 30) { healthy = false }))
      (node (bytes "c") 1 0)

distribution-Reports_example :
    (rows : List (DistributionRow ℕ)) × (s : Tally ℕ) × (distribution whole trio 0 ≡ ok rows)
    × (visit_all
          (available_indices trio 0 [])
          (record { best = none; total = pos 0; backends = trio.backends })
        ≡ ok s)
    × (length rows ≡ length trio.backends)
    × ((i : ℕ) (b : Backend ℕ)
        → index trio.backends i ≡ ok b
        → (row : DistributionRow ℕ) × (index rows i ≡ ok row)
          × Reports whole trio 0 s.total i b row)
distribution-Reports_example = distribution-Reports whole trio 0

-- The shares received and expected, and whether the node is out.
shares : Exec (List (ℕ × ℕ × Bool))
unfolding distribution trio
shares = distribution whole trio 0 >>= λ rows.
    ok (map (λ r. (r.served_share_pct, r.expected_share_pct, r.ejected)) rows)

shares_test : shares ≡ ok ((25, 75, false) ∷ (75, 0, true) ∷ (0, 25, false) ∷ [])
unfolding shares wrap_i64 ◌+ℤ◌ node is_available
shares_test = refl
