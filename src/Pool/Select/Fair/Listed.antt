-- ===== src/Pool/Select/Fair/Listed.antt =====
-- src/pool.rs, `select_weighted`: totals, leads and lists, for the loop over the available nodes.
use echofront.Base.{
  ℕ, suc, ◌+◌, ◌^◌, ◌<◌, ◌≡◌, ◌≢◌, ◌∙◌, true, false, ◌⊎◌, inl, inr, List, [], ◌∷◌, contains, All,
  arith,
}
use echofront.Base.Int.{pos, ◌+ℤ◌}
use echofront.Base.Words.{add_i64, wrap_i64, wrap_i64_lem}
use echofront.Pool.Select.Available.{Ascends}
use echofront.Pool.Select.Fair.Sums.{Tops}

-- The totals add up without wrapping.
pub add_pos : (m n : ℕ) → m + n < 2 ^ 63 → add_i64 (pos m) (wrap_i64 (pos n)) ≡ pos (m + n)
unfolding ◌+ℤ◌
add_pos m n h =
    let e : wrap_i64 (pos n) ≡ pos n = wrap_i64_lem (pos n) (omega arith, omega arith) in
    let e' : wrap_i64 (pos (m + n)) ≡ pos (m + n) =
      wrap_i64_lem (pos (m + n)) (omega arith, omega arith) in
    rw e (ground (arith, e'))

pub Tops-trans :
    (s : ℕ → ℕ) (total t : ℕ) (c : ℕ → ℕ) (a b d : ℕ)
    → Tops s total t c a b
    → Tops s total t c b d
    → Tops s total t c a d
Tops-trans s total t c a b d h k = omega (arith, h, k)

-- An element of a list is not one that the list does not have.
not_listed : (is : List ℕ) (i j : ℕ) → contains is i ≡ true → contains is j ≡ false → i ≢ j
not_listed is i j h k e = cc

pub Ascends-ne : (i : ℕ) (is : List ℕ) (n : ℕ) → Ascends n is → i < n → All (λ j. i ≢ j) is
Ascends-ne i [] n a h = tt
Ascends-ne i (j ∷ is) n a h =
    (omega (arith, a.0, h), Ascends-ne i is (suc j) a.1 (omega (arith, a.0, h)))

pub either_unlisted :
    (is : List ℕ) (i k j : ℕ)
    → (j ≡ i) ⊎ (j ≡ k)
    → contains is i ≡ false
    → contains is k ≡ false
    → contains is j ≡ false
either_unlisted is i k j (inl e) a b = rw e a
either_unlisted is i k j (inr e) a b = rw e b

-- Of two leaders in turn, the last is the first, the head or in the tail.
pub leader_of :
    (is : List ℕ) (i k k1 j : ℕ)
    → (k1 ≡ i) ⊎ (k1 ≡ k)
    → (j ≡ k1) ⊎ (contains is j ≡ true)
    → (j ≡ k) ⊎ (contains (i ∷ is) j ≡ true)
leader_of is i k k1 j (inl e) (inl e') = inr (ground (arith, e, e'))
leader_of is i k k1 j (inr e) (inl e') = inl (e' ∙ e)
leader_of is i k k1 j who (inr c) = inr (ground (arith, c))

pub listed : (is : List ℕ) (i j : ℕ) → (j ≡ i) ⊎ (contains is j ≡ true) → contains (i ∷ is) j ≡ true
listed is i j (inl e) = ground (arith, e)
listed is i j (inr c) = ground (arith, c)
