-- ===== src/Pool/Select/Least.antt =====
-- src/pool.rs, `select_least_conn`: the fewest requests in flight, ties to the lowest index.
use echofront.Base.{
  ℕ, suc, ◌≤◌, ◌<◌, ◌≡◌, inl, inr, refl, true, List, [], ◌∷◌, ok, panic, index, index_total, length,
  contains, All, arith, ltb, if◌then◌else◌, Bool-cases, ltb→lt, ◌∙◌,
}
use echofront.Pool.{Pool, Backend}
use echofront.Pool.Select.{least_from, select_least_conn}
use echofront.Pool.Select.Available.{Ascends}

Ascends-mono : (m n : ℕ) (is : List ℕ) → m ≤ n → Ascends n is → Ascends m is
Ascends-mono m n [] h a = tt
Ascends-mono m n (i ∷ is) h a = (omega arith, a.1)

module _ {ℓ} {U : Type ℓ} where
  -- The requests in flight at an index.
  abbrev pub load : List (Backend U) → ℕ → ℕ
  load bs i = elim (index bs i) [ ok b ↦ b.in_flight | panic ↦ 0 ]

  -- Index `j` is the first of the least loaded among the indices.
  abbrev pub IsLeast : List (Backend U) → ℕ → List ℕ → Type 0
  IsLeast bs j = All (λ i. (load bs j ≤ load bs i) × (i < j → load bs j < load bs i))

  least_from_step :
      (bs : List (Backend U)) (best i : ℕ) (is : List ℕ)
      → best < length bs
      → i < length bs
      → least_from bs best (i ∷ is)
        ≡ least_from bs (if ltb (load bs i) (load bs best) then i else best) is
  unfolding least_from
  least_from_step bs best i is h k =
      let (b, e) = index_total bs i k in
      let (holder, e') = index_total bs best h in ground (arith, e, e')

  -- The loop meets its first candidate a second time.
  least_from_again :
      (p : Pool U) (best : ℕ) (is : List ℕ)
      → best < length p.backends
      → select_least_conn p (best ∷ is) ≡ least_from p.backends best is
  unfolding select_least_conn
  least_from_again p best is h = let (b, e) = index_total p.backends best h in ground (arith, e)

  pub least_from-IsLeast :
      (bs : List (Backend U)) (best : ℕ) (is : List ℕ)
      → best < length bs
      → All (λ i. i < length bs) is
      → Ascends (suc best) is
      → (j : ℕ) × (least_from bs best is ≡ ok j)
        × (contains (best ∷ is) j ≡ true)
        × IsLeast bs j (best ∷ is)
  unfolding least_from
  least_from-IsLeast bs best [] h a s =
      (best, refl, ground arith, ((omega arith, λ k. omega arith), tt))
  least_from-IsLeast bs best (i ∷ is) h a s = elim (Bool-cases (ltb (load bs i) (load bs best))) [
    | inl lighter ↦
        let (j, e, mem, least) = least_from-IsLeast bs i is a.0 a.1 s.1 in
        let step = rw lighter at (least_from_step bs best i is h a.0) in
        let less = ltb→lt (load bs i) (load bs best) lighter in
        (
          j,
          step ∙ e,
          ground (arith, mem),
          ((omega (arith, least.0.0, less), λ k. omega (arith, least.0.0, less)), least),
        )
    | inr heavier ↦
        let (j, e, mem, least) =
          least_from-IsLeast bs best is h a.1
            (Ascends-mono (suc best) (suc i) is (omega arith) s.1) in
        let step = rw heavier at (least_from_step bs best i is h a.0) in
        let more : load bs best ≤ load bs i = ground (arith, heavier) in
        (
          j,
          step ∙ e,
          ground (arith, mem),
          (
            least.0,
            (
              (omega (arith, least.0.0, more), λ k. omega (arith, least.0.1 (omega arith), more)),
              least.1,
            ),
          ),
        )
  ]

  -- `select_least_conn` on in-bounds, ascending indices picks one of them, the first of the least
  -- loaded.
  pub select_least_conn_lem :
      (p : Pool U) (first : ℕ) (rest : List ℕ)
      → All (λ i. i < length p.backends) (first ∷ rest)
      → Ascends 0 (first ∷ rest)
      → (j : ℕ) × (select_least_conn p (first ∷ rest) ≡ ok j)
        × (contains (first ∷ rest) j ≡ true)
        × IsLeast p.backends j (first ∷ rest)
  select_least_conn_lem p first rest a s =
      let (j, e, mem, least) = least_from-IsLeast p.backends first rest a.0 a.1 s.1 in
      (j, least_from_again p first rest a.0 ∙ e, mem, least)
