-- ===== src/Demo/Spread.antt =====
-- src/bin/echofront.rs, `spread`: what its report says.
use echofront.Base.{
  ℕ, suc, ◌+◌, ◌<◌, ◌≡◌, ◌≢◌, refl, ap, ◌∙◌, List, [], ◌∷◌, map, none, some, Exec, ok, panic, ◌>>=◌,
  length, All, arith,
}
use echofront.Base.Float.{Float}
use echofront.Base.Int.{ℤ, pos}
use echofront.Base.Words.{u64_mod}
use echofront.Clock.{now_millis}
use echofront.Demo.{Scene, build_proxy, spread_from, spread_report}
use echofront.Ewma.{DistributionRow}
use echofront.Http.{bytes}
use echofront.Pool.{Pool, Backend, Strategy}
use echofront.Pool.Report.{distribution, score_from, rows_from, row_of, served_from}
use echofront.Pool.Report.Rows.{distribution-Reports}
use echofront.Pool.Select.{available_indices}
use echofront.Proxy.{find_pool, pool_of}
use echofront.Proxy.Calm.{node_of, served_total}
use echofront.Upstream.Mock.{MockUpstream}
use echofront.Demo.Shop.{spread_from-Shop, build_proxy-Shop}

-- What the rows of a report name, and what they add up to.
abbrev pub row_node {κ} : {W : Type κ} → DistributionRow W → List ℕ × ℕ
row_node row = (row.name, row.weight)

abbrev pub rows_total {κ} : {W : Type κ} → List (DistributionRow W) → ℕ
rows_total [] = 0
rows_total (row ∷ rows) = row.served + rows_total rows

module _ {κ} {W : Type κ} (f : Float W) where
  rows_from-nodes :
      (served : ℕ) (score : ℤ) (available : List ℕ) (now i : ℕ) (bs : List (Backend MockUpstream))
      → (map row_node (rows_from f served score available now i bs) ≡ map node_of bs)
        × (rows_total (rows_from f served score available now i bs) ≡ served_total bs)
  unfolding rows_from row_of
  rows_from-nodes served score available now i [] = (refl, refl)
  rows_from-nodes served score available now i (b ∷ bs) =
      let (ns, t) = rows_from-nodes served score available now (suc i) bs in
      (ap (node_of b ∷◌) ns, ap (b.served +◌) t)

  distribution-nodes :
      (p : Pool MockUpstream) (now : ℕ)
      → (rows : List (DistributionRow W)) × (distribution f p now ≡ ok rows)
        × (map row_node rows ≡ map node_of p.backends)
        × (rows_total rows ≡ served_total p.backends)
  unfolding distribution
  distribution-nodes p now =
      let (rows, tally, done, _, _, _) = distribution-Reports f p now in
      let (named, total) = go rows (score_from p.backends (pos 0) available) done in
      (rows, done, named, total)
    where
      available : List ℕ
      available = available_indices p now []

      go :
          (rows : List (DistributionRow W)) (m : Exec ℤ)
          → (m >>= λ t. ok (rows_from f (served_from 0 p.backends) t available now 0 p.backends))
            ≡ ok rows
          → (map row_node rows ≡ map node_of p.backends)
            × (rows_total rows ≡ served_total p.backends)
      go rows panic e = cc
      go rows (ok t) e =
          let same : rows_from f (served_from 0 p.backends) t available now 0 p.backends ≡ rows =
            cc in
          rw (← same) (rows_from-nodes (served_from 0 p.backends) t available now 0 p.backends)

  -- `spread`, with any strategy, any nodes of weight above zero, at least one, and any number of
  -- requests below 2^64, reaches the rows of its report without a panic; no request was retried or
  -- failed over; and the report has one row for each node, in order, with its name and weight, and
  -- what the nodes served adds up to the number of requests.
  pub spread_report-Served :
      (n : ℕ) (strategy : Strategy) (backends : List (List ℕ × ℕ))
      → n < u64_mod
      → 0 < length backends
      → All (λ e. e.1 ≢ 0) backends
      → (rows : List (DistributionRow W)) × (spread_report f n strategy backends ≡ ok rows)
        × (map row_node rows ≡ backends)
        × (rows_total rows ≡ n)
        × ((scene : Scene) × (spread_from n 0 strategy (build_proxy strategy backends) ≡ ok scene)
            × (scene.proxy.total_retries ≡ 0)
            × (scene.proxy.total_failovers ≡ 0))
  unfolding spread_report pool_of
  spread_report-Served n strategy backends h some_node heavy =
      let (scene, m, e, done, s) =
        spread_from-Shop n 0 0 strategy backends (build_proxy strategy backends)
          (build_proxy-Shop strategy backends some_node heavy) (omega (arith, h)) in
      let now = now_millis scene.clock in
      let (rows, reported, named, total) = distribution-nodes s.pool now in
      (
        rows,
        ap
              (λ (l : Exec Scene). l >>= λ (scene : Scene).
                elim (find_pool {U = MockUpstream} (bytes "shop") scene.proxy.pools)
                  as (λ _. Exec (List (DistributionRow W))) [
                    | none ↦ panic
                    | some pool ↦ distribution f pool (now_millis scene.clock)
                  ])
              done
            ∙ ap
                (λ o. elim o as (λ _. Exec (List (DistributionRow W))) [
                  | none ↦ panic
                  | some pool ↦ distribution f pool now
                ])
                s.found
            ∙ reported,
        named ∙ s.nodes,
        omega (arith, total, s.total, e),
        (scene, done, s.retries, s.failovers),
      )
