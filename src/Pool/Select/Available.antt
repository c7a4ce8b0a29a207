-- ===== src/Pool/Select/Available.antt =====
-- src/pool.rs: which indices `available_indices` lists.
use echofront.Base.{
  ℕ, zero, suc, ◌+◌, ◌≤◌, ◌<◌, ◌≡◌, ◌≢◌, true, Exec, update, index-update_ne, refl, sym, ap, ◌∙◌,
  Bool, false, ◌&&◌, not, List, [], ◌∷◌, map, ok, panic, index, length, contains, All, arith,
}
use echofront.Base.Int.{pos}
use echofront.Pool.{Pool, Backend, is_available}
use echofront.Pool.Select.{available_from, available_indices}

-- The indices ascend from a bound on.
abbrev pub Ascends : ℕ → List ℕ → Type 0
Ascends n [] = Unit {0}
Ascends n (i ∷ is) = (n ≤ i) × Ascends (suc i) is

module _ {ℓ} {U : Type ℓ} where
  -- May the node at an index be selected: it exists, it is not excluded, and it is healthy, not
  -- ejected, and admitted by its breaker.
  abbrev pub selectable : List (Backend U) → ℕ → List ℕ → ℕ → Bool
  selectable backends now exclude i = elim (index backends i) [
    | ok b ↦ not (contains exclude i) && is_available b now
    | panic ↦ false
  ]

  available_from_below :
      (now i j : ℕ) (exclude : List ℕ) (bs : List (Backend U))
      → j < i
      → contains (available_from now i exclude bs) j ≡ false
  unfolding available_from
  available_from_below now i j exclude [] h = refl
  available_from_below now i j exclude (b ∷ bs) h =
      ground (arith, available_from_below now (suc i) j exclude bs)

  -- The indices from `i` on, the index in the rest of the list being `k`.
  available_from_lem :
      (now i j k : ℕ) (exclude : List ℕ) (bs : List (Backend U))
      → i + k ≡ j
      → contains (available_from now i exclude bs) j ≡ elim (index bs k) [
        | ok b ↦ not (contains exclude j) && is_available b now
        | panic ↦ false
      ]
  unfolding available_from
  available_from_lem now i j k exclude [] e = refl
  available_from_lem now i j zero exclude (b ∷ bs) e =
      let same : i ≡ j = omega arith in
      rw same (ground (arith, available_from_below now (suc j) j exclude bs))
  available_from_lem now i j (suc k) exclude (b ∷ bs) e =
      ground (arith, available_from_lem now (suc i) j k exclude bs)

  -- The list holds exactly the indices of the nodes that may be selected.
  pub contains-available_indices :
      (p : Pool U) (now : ℕ) (exclude : List ℕ) (i : ℕ)
      → contains (available_indices p now exclude) i ≡ selectable p.backends now exclude i
  unfolding available_indices
  contains-available_indices p now exclude i =
      available_from_lem now 0 i i exclude p.backends (omega arith)

  available_from-All :
      (now i n : ℕ) (exclude : List ℕ) (bs : List (Backend U))
      → i + length bs ≤ n
      → All (λ j. j < n) (available_from now i exclude bs)
  unfolding available_from
  available_from-All now i n exclude [] h = tt
  available_from-All now i n exclude (b ∷ bs) h =
      ground (arith, available_from-All now (suc i) n exclude bs)

  -- Every index is in bounds.
  pub available_indices-All :
      (p : Pool U) (now : ℕ) (exclude : List ℕ)
      → All (λ j. j < length p.backends) (available_indices p now exclude)
  unfolding available_indices
  available_indices-All p now exclude =
      available_from-All now 0 (length p.backends) exclude p.backends (omega arith)

  -- A backend without its current weight, the one field that selection changes.
  abbrev pub strip : Backend U → Backend U
  strip b = record b { current_weight = pos 0 }

  -- Two lists of backends that differ in current weights only.
  abbrev pub SameNodes : List (Backend U) → List (Backend U) → Type ℓ
  SameNodes bs bs' = map strip bs' ≡ map strip bs

  available_from-strip :
      (now i : ℕ) (exclude : List ℕ) (bs : List (Backend U))
      → available_from now i exclude (map strip bs) ≡ available_from now i exclude bs
  unfolding available_from is_available
  available_from-strip now i exclude [] = refl
  available_from-strip now i exclude (b ∷ bs) = rw (available_from-strip now (suc i) exclude bs)

  -- Nodes that differ in current weights only are available alike.
  pub available_indices-SameNodes :
      (p p' : Pool U) (now : ℕ) (exclude : List ℕ)
      → SameNodes p.backends p'.backends
      → available_indices p' now exclude ≡ available_indices p now exclude
  unfolding available_indices
  available_indices-SameNodes p p' now exclude e =
      sym (available_from-strip now 0 exclude p'.backends)
      ∙ ap (available_from now 0 exclude) e
      ∙ available_from-strip now 0 exclude p.backends

  pub selectable-SameNodes :
      (p p' : Pool U) (now : ℕ) (exclude : List ℕ) (i : ℕ)
      → SameNodes p.backends p'.backends
      → selectable p'.backends now exclude i ≡ selectable p.backends now exclude i
  selectable-SameNodes p p' now exclude i e =
      sym (contains-available_indices p' now exclude i)
      ∙ ap (λ is. contains is i) (available_indices-SameNodes p p' now exclude e)
      ∙ contains-available_indices p now exclude i

  -- A change of one node leaves the others as they were.
  pub selectable-update_ne :
      (bs : List (Backend U)) (now : ℕ) (exclude : List ℕ) (idx i : ℕ) (f : Backend U → Backend U)
      → idx ≢ i
      → selectable (update bs idx f) now exclude i ≡ selectable bs now exclude i
  selectable-update_ne bs now exclude idx i f n =
      ap (λ m. elim m [ ok b ↦ not (contains exclude i) && is_available b now | panic ↦ false ])
        (index-update_ne bs idx i f n)

  -- A node that may be selected, whatever is excluded, may be selected when nothing is.
  pub selectable-none :
      (bs : List (Backend U)) (now : ℕ) (exclude : List ℕ) (i : ℕ)
      → selectable bs now exclude i ≡ true
      → selectable bs now [] i ≡ true
  selectable-none bs now exclude i h = go (index bs i) h
    where
      go :
          (m : Exec (Backend U))
          → elim m [ ok b ↦ not (contains exclude i) && is_available b now | panic ↦ false ] ≡ true
          → elim m [ ok b ↦ is_available b now | panic ↦ false ] ≡ true
      go (ok b) h = ground (arith, h)
      go panic h = h

  available_from-Ascends :
      (now i n : ℕ) (exclude : List ℕ) (bs : List (Backend U))
      → n ≤ i
      → Ascends n (available_from now i exclude bs)
  unfolding available_from
  available_from-Ascends now i n exclude [] h = tt
  available_from-Ascends now i n exclude (b ∷ bs) h = ground (
    arith,
    available_from-Ascends now (suc i) (suc i) exclude bs,
    available_from-Ascends now (suc i) n exclude bs,
  )

  pub available_indices-Ascends :
      (p : Pool U) (now : ℕ) (exclude : List ℕ) → Ascends 0 (available_indices p now exclude)
  unfolding available_indices
  available_indices-Ascends p now exclude =
      available_from-Ascends now 0 0 exclude p.backends (omega arith)
