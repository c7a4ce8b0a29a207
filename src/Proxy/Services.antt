-- ===== src/Proxy/Services.antt =====
-- src/proxy.rs, `service_names`: the pools by name, in the order of their bytes.
use echofront.Base.{
  ℕ, ◌≡◌, refl, ap, ◌∙◌, Bool, true, false, ◌&&◌, ◌||◌, ltb, ◌==◌, if◌then◌else◌, list_eq, suc,
  length, List, [], ◌∷◌, Option, none, some, map, arith,
}
use echofront.Pool.{Pool}
use echofront.Proxy.{Proxy, find_pool, pool_of}

-- The order of `String`: by bytes, and a prefix first.
unfoldable text_le : List ℕ → List ℕ → Bool
text_le [] ys = true
text_le (x ∷ xs) [] = false
text_le (x ∷ xs) (y ∷ ys) = ltb x y || (x == y && text_le xs ys)

-- `sort`.
unfoldable put_name : List ℕ → List (List ℕ) → List (List ℕ)
unfolding text_le
put_name name [] = name ∷ []
put_name name (n ∷ ns) =
    let rest = put_name name ns in if text_le name n then name ∷ n ∷ ns else n ∷ rest

unfoldable sort : List (List ℕ) → List (List ℕ)
unfolding put_name
sort [] = []
sort (n ∷ ns) = put_name n (sort ns)

module _ {ℓ} {U : Type ℓ} where
  unfoldable pub service_names : Proxy U → List (List ℕ)
  unfolding sort
  service_names x = sort (map (λ e. e.0) x.pools)

-- Is a name among these?
abbrev pub listed : List ℕ → List (List ℕ) → Bool
listed name [] = false
listed name (n ∷ ns) = list_eq n name || listed name ns

-- The head of the list is not below the name.
pub Above : List ℕ → List (List ℕ) → Type 0
Above name [] = Unit {0}
Above name (n ∷ ns) = text_le name n ≡ true

-- Every name is at most the next.
pub Ascending : List (List ℕ) → Type 0
unfolding Above
Ascending [] = Unit {0}
Ascending (n ∷ ns) = Above n ns × Ascending ns

text_le_total : (xs ys : List ℕ) → text_le xs ys ≡ false → text_le ys xs ≡ true
unfolding text_le
text_le_total [] ys h = ground arith
text_le_total (x ∷ xs) [] h = refl
text_le_total (x ∷ xs) (y ∷ ys) h = ground (arith, h, text_le_total xs ys)

Above-put_name :
    (n name : List ℕ) (ns : List (List ℕ))
    → text_le n name ≡ true
    → Above n ns
    → Above n (put_name name ns)
unfolding Above put_name
Above-put_name n name [] h a = h
Above-put_name n name (m ∷ ns) h a =
    elim (text_le name m) as (λ b. Above n (if b then name ∷ m ∷ ns else m ∷ put_name name ns)) [
      | true ↦ h
      | false ↦ a
    ]

put_name-Ascending :
    (name : List ℕ) (ns : List (List ℕ)) → Ascending ns → Ascending (put_name name ns)
unfolding Ascending Above put_name
put_name-Ascending name [] a = (tt, tt)
put_name-Ascending name (n ∷ ns) a = go (text_le name n) refl (put_name-Ascending name ns a.1)
  where
    go :
        (b : Bool)
        → text_le name n ≡ b
        → Ascending (put_name name ns)
        → Ascending (if b then name ∷ n ∷ ns else n ∷ put_name name ns)
    go true e rest = (e, a)
    go false e rest = (Above-put_name n name ns (text_le_total name n e) a.0, rest)

sort-Ascending : (ns : List (List ℕ)) → Ascending (sort ns)
unfolding sort Ascending
sort-Ascending [] = tt
sort-Ascending (n ∷ ns) = put_name-Ascending n (sort ns) (sort-Ascending ns)

listed-put_name :
    (name m : List ℕ) (ns : List (List ℕ)) → listed name (put_name m ns) ≡ listed name (m ∷ ns)
unfolding put_name
listed-put_name name m [] = refl
listed-put_name name m (n ∷ ns) = ground (arith, listed-put_name name m ns)

listed-sort : (name : List ℕ) (ns : List (List ℕ)) → listed name (sort ns) ≡ listed name ns
unfolding sort
listed-sort name [] = refl
listed-sort name (n ∷ ns) =
    listed-put_name name n (sort ns) ∙ ap (list_eq n name ||◌) (listed-sort name ns)

length-put_name : (name : List ℕ) (ns : List (List ℕ)) → length (put_name name ns) ≡ suc (length ns)
unfolding put_name
length-put_name name [] = refl
length-put_name name (n ∷ ns) = ground (arith, length-put_name name ns)

length-sort : (ns : List (List ℕ)) → length (sort ns) ≡ length ns
unfolding sort
length-sort [] = refl
length-sort (n ∷ ns) = length-put_name n (sort ns) ∙ ap suc (length-sort ns)

abbrev pub is_some {ℓ} : {A : Type ℓ} → Option A → Bool
is_some none = false
is_some (some a) = true

module _ {ℓ} {U : Type ℓ} where
  listed-find_pool :
      (name : List ℕ) (pools : List (List ℕ × Pool U))
      → listed name (map (λ e. e.0) pools) ≡ is_some (find_pool name pools)
  unfolding find_pool
  listed-find_pool name [] = refl
  listed-find_pool name ((k, pool) ∷ pools) = ground (arith, listed-find_pool name pools)

  length-names : (pools : List (List ℕ × Pool U)) → length (map (λ e. e.0) pools) ≡ length pools
  length-names [] = refl
  length-names (e ∷ pools) = ap suc (length-names pools)

  -- The names that `service_names` lists are in ascending order of their bytes, they are exactly those
  -- that `pool` finds a pool for, and there are as many as there are pools.
  pub service_names_lem :
      (x : Proxy U)
      → Ascending (service_names x)
        × ((name : List ℕ) → listed name (service_names x) ≡ is_some (pool_of x name))
        × (length (service_names x) ≡ length x.pools)
  unfolding service_names pool_of
  service_names_lem x =
      let names = map (λ e. e.0) x.pools in
      (
        sort-Ascending names,
        λ name. listed-sort name names ∙ listed-find_pool name x.pools,
        length-sort names ∙ length-names x.pools,
      )
