-- ===== src/Pool/Select/Turns/Cycle.antt =====
-- src/pool.rs, `select_round_robin`: what a cursor that goes round a list meets.
use native.Mathlib.Nat.{mod-eq_of_lt, add-mod_right}
use echofront.Base.{
  ℕ, zero, suc, ◌+◌, ◌*◌, ◌%◌, ◌<◌, ◌≡◌, refl, ap, ◌∙◌, true, List, [], ◌∷◌, Exec, ok, panic, index,
  length, contains, ◌==◌, if◌then◌else◌, arith,
}
use echofront.Pool.Select.Available.{Ascends}

-- One if the result is `j`.
abbrev pub hit : ℕ → Exec ℕ → ℕ
hit j (ok i) = if i == j then 1 else 0
hit j panic = 0

-- How often a cursor that starts at `c` and makes `n` steps round the list meets `j`.
unfoldable pub hits : ℕ → List ℕ → ℕ → ℕ → ℕ
hits j is c zero = 0
hits j is c (suc n) = hit j (index is (c % length is)) + hits j is (suc c) n

abbrev pub occurs : ℕ → List ℕ → ℕ
occurs j [] = 0
occurs j (i ∷ is) = hit j (ok i) + occurs j is

-- Equal counts and equal places meet as often.
hits-cong : (j : ℕ) (is : List ℕ) {c d m n : ℕ} → c ≡ d → m ≡ n → hits j is c m ≡ hits j is d n
hits-cong j is e e' = rw (e, e') refl

hits-add :
    (j : ℕ) (is : List ℕ) (c m n : ℕ) → hits j is c (m + n) ≡ hits j is c m + hits j is (c + m) n
unfolding hits
hits-add j is c zero n =
    hits-cong j is {c = c} {d = c + 0} {m = 0 + n} {n = n} (omega arith) (omega arith) ∙ omega arith
hits-add j is c (suc m) n =
    let place : hits j is (suc c + m) n ≡ hits j is (c + suc m) n =
      hits-cong j is (omega arith) refl in
    let count : hits j is c (suc m + n) ≡ hits j is c (suc (m + n)) =
      hits-cong j is {m = suc m + n} {n = suc (m + n)} refl (omega arith) in
    count ∙ omega (arith, hits-add j is (suc c) m n, place)

-- From `d` on, the list is `xs`.
hits-suffix :
    (j : ℕ) (is xs : List ℕ) (d : ℕ)
    → d + length xs ≡ length is
    → ((k : ℕ) → index is (d + k) ≡ index xs k)
    → hits j is d (length xs) ≡ occurs j xs
unfolding hits
hits-suffix j is [] d l same = refl
hits-suffix j is (x ∷ xs) d l same =
    let rest =
      hits-suffix j is xs (suc d) (omega (arith, l)) (λ k.
        let next : suc d + k ≡ d + suc k = omega arith in ap (index is) next ∙ same (suc k)) in
    let place : d % length is ≡ d + 0 = mod-eq_of_lt (omega (arith, l)) ∙ omega arith in
    let here : index is (d % length is) ≡ ok x = ap (index is) place ∙ same 0 in
    rw (here, rest) refl

hits-cycle : (j : ℕ) (is : List ℕ) (c : ℕ) → hits j is c (length is) ≡ occurs j is
unfolding hits
hits-cycle j is zero = hits-suffix j is is 0 (omega arith) (λ k. ap (index is) (omega arith))
hits-cycle j is (suc c) =
    let n = length is in
    let first : hits j is c (suc n) ≡ hit j (index is (c % n)) + hits j is (suc c) n = refl in
    let last : hits j is c (n + 1) ≡ hits j is c n + (hit j (index is ((c + n) % n)) + 0) =
      hits-add j is c n 1 in
    let both : hits j is c (suc n) ≡ hits j is c (n + 1) =
      hits-cong j is {m = suc n} {n = n + 1} refl (omega arith) in
    let again : hit j (index is ((c + n) % n)) ≡ hit j (index is (c % n)) =
      ap (λ k. hit j (index is k)) (add-mod_right c n) in
    omega (arith, first, last, both, again, hits-cycle j is c)

pub hits-cycles : (j : ℕ) (is : List ℕ) (c m : ℕ) → hits j is c (m * length is) ≡ m * occurs j is
unfolding hits
hits-cycles j is c zero =
    hits-cong j is {c = c} {m = 0 * length is} {n = 0} refl (omega arith) ∙ omega arith
hits-cycles j is c (suc m) =
    let turns : suc m * length is ≡ length is + m * length is = omega arith in
    hits-cong j is refl turns
    ∙ hits-add j is c (length is) (m * length is)
    ∙ omega (arith, hits-cycle j is c, hits-cycles j is (c + length is) m)

occurs_none : (i n : ℕ) (is : List ℕ) → Ascends n is → i < n → occurs i is ≡ 0
occurs_none i n [] a h = refl
occurs_none i n (j ∷ is) a h = grind (arith, occurs_none i (suc j) is a.1)

pub occurs-Ascends : (i n : ℕ) (is : List ℕ) → Ascends n is → contains is i ≡ true → occurs i is ≡ 1
occurs-Ascends i n [] a c = cc
occurs-Ascends i n (j ∷ is) a c =
    ground (arith, occurs_none i (suc j) is a.1, occurs-Ascends i (suc j) is a.1)
