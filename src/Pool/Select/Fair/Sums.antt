-- ===== src/Pool/Select/Fair/Sums.antt =====
-- src/pool.rs, `select_weighted`: the arithmetic of smooth weighted round robin. After `t` rounds a
-- node of score `s j` that was picked `c j` times is owed `t * s j - c j * total`.
use echofront.Base.{
  ℕ, suc, ◌+◌, ◌*◌, ◌≤◌, ◌<◌, ◌≡◌, refl, true, false, ◌==◌, ==_iff, Bool-cases, ◌⊎◌, inl, inr,
  if◌then◌else◌, List, [], ◌∷◌, length, contains, All, arith,
}
use echofront.Pool.Select.Available.{Ascends}

-- The sum of a quantity over the listed nodes.
unfoldable pub sum : (ℕ → ℕ) → List ℕ → ℕ
sum f [] = 0
sum f (i ∷ is) = f i + sum f is

-- One more pick of `k`.
abbrev pub bump : (ℕ → ℕ) → ℕ → ℕ → ℕ
bump c k j = if k == j then suc (c j) else c j

-- After `t` rounds, `k` is owed at least as much as `j`.
abbrev pub Tops : (ℕ → ℕ) → ℕ → ℕ → (ℕ → ℕ) → ℕ → ℕ → Type 0
Tops s total t c k j = t * s j + c k * total ≤ t * s k + c j * total

-- No node is ahead of its share by a whole pick.
abbrev pub Behind : (ℕ → ℕ) → ℕ → ℕ → (ℕ → ℕ) → ℕ → Type 0
Behind s total t c j = c j * total < t * s j + total

sum_le :
    (s c : ℕ → ℕ) (t total : ℕ) (is : List ℕ)
    → All (λ j. t * s j ≤ c j * total) is
    → t * sum s is ≤ sum c is * total
unfolding sum
sum_le s c t total [] h = omega arith
sum_le s c t total (i ∷ is) h = grind (arith, sum_le s c t total is h.1)

sum-Behind :
    (s c : ℕ → ℕ) (t total : ℕ) (is : List ℕ)
    → All (Behind s total t c) is
    → sum c is * total ≤ t * sum s is + length is * total
unfolding sum
sum-Behind s c t total [] h = omega arith
sum-Behind s c t total (i ∷ is) h = grind (arith, sum-Behind s c t total is h.1)

-- A node is owed no more than what the others are ahead by.
pub owed_most :
    (s c : ℕ → ℕ) (t total j : ℕ) (is : List ℕ)
    → All (Behind s total t c) is
    → contains is j ≡ true
    → t * s j + sum c is * total ≤ c j * total + t * sum s is + length is * total
unfolding sum
owed_most s c t total j [] h e = cc
owed_most s c t total j (i ∷ is) h e = elim (Bool-cases (i == j)) [
  | inl y ↦
      let same : i ≡ j = (==_iff i j).0 y in
      let rest = sum-Behind s c t total is h.1 in rw same (grind (arith, rest))
  | inr n ↦ grind (arith, owed_most s c t total j is h.1 (rw n at e))
]

-- Were the node that is owed the most owed nothing, none would be owed anything.
owes_none :
    (s c : ℕ → ℕ) (t total k : ℕ) (is : List ℕ)
    → All (λ j. Tops s total t c k j) is
    → t * s k ≤ c k * total
    → All (λ j. t * s j ≤ c j * total) is
owes_none s c t total k [] h e = tt
owes_none s c t total k (i ∷ is) h e = (omega (arith, h.0, e), owes_none s c t total k is h.1 e)

pub top_is_owed :
    (s c : ℕ → ℕ) (t total k : ℕ) (is : List ℕ)
    → All (λ j. Tops s total (suc t) c k j) is
    → sum s is ≡ total
    → sum c is ≡ t
    → 0 < total
    → c k * total < suc t * s k
top_is_owed s c t total k is tops all picked some = elim (le_or_lt (suc t * s k) (c k * total)) [
  | inl none_owed ↦
      let few = sum_le s c (suc t) total is (owes_none s c (suc t) total k is tops none_owed) in
      absurd (behind few)
  | inr owed ↦ owed
]
  where
    le_or_lt : (a b : ℕ) → (a ≤ b) ⊎ (b < a)
    le_or_lt a b = ground arith

    behind : suc t * sum s is ≤ sum c is * total → ⊥
    behind few = absurd (less (rw (all, picked) at few))
      where
        less : suc t * total ≤ t * total → ⊥
        less h = grind arith

pub sum-bump_none :
    (c : ℕ → ℕ) (k : ℕ) (is : List ℕ) → contains is k ≡ false → sum (bump c k) is ≡ sum c is
unfolding sum
sum-bump_none c k [] h = refl
sum-bump_none c k (i ∷ is) h = ground (arith, sum-bump_none c k is)

pub Ascends-contains : (n k : ℕ) (is : List ℕ) → Ascends n is → k < n → contains is k ≡ false
Ascends-contains n k [] a h = refl
Ascends-contains n k (i ∷ is) a h = ground (arith, Ascends-contains (suc i) k is a.1)

pub sum-bump :
    (c : ℕ → ℕ) (k n : ℕ) (is : List ℕ)
    → Ascends n is
    → contains is k ≡ true
    → sum (bump c k) is ≡ suc (sum c is)
unfolding sum
sum-bump c k n [] a h = cc
sum-bump c k n (i ∷ is) a h =
    ground
      (arith, sum-bump_none c k is, Ascends-contains (suc i) k is a.1, sum-bump c k (suc i) is a.1)

sum_mono : (c q : ℕ → ℕ) (is : List ℕ) → All (λ j. c j ≤ q j) is → sum c is ≤ sum q is
unfolding sum
sum_mono c q [] h = omega arith
sum_mono c q (i ∷ is) h = omega (arith, h.0, sum_mono c q is h.1)

-- Counts that are at most their quotas and have the same sum are the quotas.
pub sum-exact :
    (c q : ℕ → ℕ) (is : List ℕ)
    → All (λ j. c j ≤ q j) is
    → sum c is ≡ sum q is
    → All (λ j. c j ≡ q j) is
unfolding sum
sum-exact c q [] h e = tt
sum-exact c q (i ∷ is) h e =
    let rest = sum_mono c q is h.1 in
    (omega (arith, h.0, rest, e), sum-exact c q is h.1 (omega (arith, h.0, rest, e)))
