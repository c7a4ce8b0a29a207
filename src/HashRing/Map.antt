-- ===== src/HashRing/Map.antt =====
-- src/hashring.rs: the operations of `BTreeMap<u64, usize>` that the ring uses, on the entries in
-- ascending order of the keys.
use echofront.Base.{
  ℕ, ◌≤◌, ◌<◌, ◌≡◌, refl, List, [], ◌∷◌, Option, none, some, ltb, leb, ◌==◌, if◌then◌else◌, arith,
  Bool-cases, Option-cases, inl, inr,
}

-- `insert`: a key that is present has its value replaced.
unfoldable pub insert : ℕ → ℕ → List (ℕ × ℕ) → List (ℕ × ℕ)
insert k v [] = (k, v) ∷ []
insert k v ((j, w) ∷ m) =
    if ltb k j then (k, v) ∷ (j, w) ∷ m else if k == j then (k, v) ∷ m else (j, w) ∷ insert k v m

-- `range(h..).next()`: the first entry at `h` or after it.
unfoldable pub first_from : ℕ → List (ℕ × ℕ) → Option (ℕ × ℕ)
first_from h [] = none
first_from h ((k, v) ∷ m) = if leb h k then some (k, v) else first_from h m

-- The value at a key.
unfoldable pub get : ℕ → List (ℕ × ℕ) → Option ℕ
get k [] = none
get k ((j, w) ∷ m) = if k == j then some w else get k m

-- The keys ascend, from above a bound on.
abbrev pub Above : ℕ → List (ℕ × ℕ) → Type 0
Above n [] = Unit {0}
Above n ((k, v) ∷ m) = (n < k) × Above k m

-- The keys ascend.
abbrev pub IsSorted : List (ℕ × ℕ) → Type 0
IsSorted [] = Unit {0}
IsSorted ((k, v) ∷ m) = Above k m

insert-Above : (n k v : ℕ) (m : List (ℕ × ℕ)) → n < k → Above n m → Above n (insert k v m)
unfolding insert
insert-Above n k v [] h a = (h, tt)
insert-Above n k v ((j, w) ∷ m) h a = ground (arith, insert-Above j k v m)

pub insert-IsSorted : (k v : ℕ) (m : List (ℕ × ℕ)) → IsSorted m → IsSorted (insert k v m)
unfolding insert
insert-IsSorted k v [] s = tt
insert-IsSorted k v ((j, w) ∷ m) s = ground (arith, insert-Above j k v m)

get_below : (n k : ℕ) (m : List (ℕ × ℕ)) → Above n m → k ≤ n → get k m ≡ none
unfolding get
get_below n k [] a h = refl
get_below n k ((j, w) ∷ m) a h = ground (arith, get_below j k m)

-- An insertion changes the value at its key only.
pub get-insert :
    (i k v : ℕ) (m : List (ℕ × ℕ)) → get i (insert k v m) ≡ (if i == k then some v else get i m)
unfolding get insert
get-insert i k v [] = refl
get-insert i k v ((j, w) ∷ m) = ground (arith, get-insert i k v m)

Above-IsSorted : (n : ℕ) (m : List (ℕ × ℕ)) → Above n m → IsSorted m
Above-IsSorted n [] a = tt
Above-IsSorted n ((k, v) ∷ m) a = a.1

-- What the first entry from `h` on is, in terms of `get`.
pub record IsFirst (h : ℕ) (m : List (ℕ × ℕ)) (k v : ℕ) : Type 0 where
  pub at_or_after : h ≤ k
  pub present : get k m ≡ some v
  pub none_before : (j : ℕ) → h ≤ j → j < k → get j m ≡ none

pub first_from-IsFirst :
    (h : ℕ) (m : List (ℕ × ℕ)) {k v : ℕ}
    → IsSorted m
    → first_from h m ≡ some (k, v)
    → IsFirst h m k v
unfolding first_from get
first_from-IsFirst h [] s e = cc
first_from-IsFirst h ((j, w) ∷ m) {k} {v} s e = elim (Bool-cases (leb h j)) [
  | inl here ↦ record {
    at_or_after = ground arith;
    present = ground arith;
    none_before = λ i hi lt. ground (arith, get_below j i m s);
  }
  | inr later ↦
      let rest : IsFirst h m k v = first_from-IsFirst h m (Above-IsSorted j m s) (ground arith) in
      record {
        at_or_after = rest.at_or_after;
        present = ground (arith, rest.present, rest.at_or_after);
        none_before = λ i hi lt. ground (arith, rest.none_before i hi lt);
      }
]

pub first_from-eq-none :
    (h j : ℕ) (m : List (ℕ × ℕ)) → first_from h m ≡ none → h ≤ j → get j m ≡ none
unfolding first_from get
first_from-eq-none h j [] e hj = refl
first_from-eq-none h j ((i, w) ∷ m) e hj = ground (arith, first_from-eq-none h j m)

-- `IsFirst` determines the first entry.
pub IsFirst-first_from :
    (h : ℕ) (m : List (ℕ × ℕ)) (k v : ℕ)
    → IsSorted m
    → IsFirst h m k v
    → first_from h m ≡ some (k, v)
IsFirst-first_from h m k v s f = elim (Option-cases (first_from h m)) [
  | inl e ↦ cc (first_from-eq-none h k m e f.at_or_after, f.present)
  | inr ((k', v'), e) ↦
      let f' : IsFirst h m k' v' = first_from-IsFirst h m s e in
      ground (
        arith,
        e,
        f.present,
        f.at_or_after,
        f'.present,
        f'.at_or_after,
        f.none_before k' f'.at_or_after,
        f'.none_before k f.at_or_after,
      )
]
