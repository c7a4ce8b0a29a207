-- ===== src/HashRing/Successor.antt =====
-- src/hashring.rs: the clockwise walk of `lookup`, in terms of the values at the points.
use echofront.Base.{ℕ, ◌≤◌, ◌≡◌, ◌≢◌, ◌⊎◌, inl, inr, List, [], ◌∷◌, none, some, arith, Option-cases}
use echofront.HashRing.{lookup_from}
use echofront.HashRing.Map.{
  get, first_from, IsSorted, IsFirst, first_from-IsFirst, first_from-eq-none, IsFirst-first_from,
}

-- The point `k` is the first one clockwise from `h`: the first at or after `h`, or the very first
-- of the ring if there is none.
abbrev pub IsClockwise : ℕ → List (ℕ × ℕ) → ℕ → ℕ → Type 0
IsClockwise h m k v = IsFirst h m k v ⊎ (((j : ℕ) → h ≤ j → get j m ≡ none) × IsFirst 0 m k v)

wrapped :
    (h : ℕ) (m : List (ℕ × ℕ)) (v : ℕ)
    → IsSorted m
    → first_from h m ≡ none
    → lookup_from h m ≡ some v
    → (k : ℕ) × IsFirst 0 m k v
unfolding lookup_from first_from
wrapped h [] v s n e = cc
wrapped h ((k, w) ∷ m) v s n e = (k, first_from-IsFirst 0 ((k, w) ∷ m) s (ground arith))

-- `lookup_from` returns the owner of a clockwise first point.
pub lookup_from-IsClockwise :
    (h : ℕ) (m : List (ℕ × ℕ)) (v : ℕ)
    → IsSorted m
    → lookup_from h m ≡ some v
    → (k : ℕ) × IsClockwise h m k v
unfolding lookup_from
lookup_from-IsClockwise h m v s e = elim (Option-cases (first_from h m)) [
  | inl n ↦ let (k, f) = wrapped h m v s n e in (k, inr (λ j. first_from-eq-none h j m n, f))
  | inr ((k, w), f) ↦ (k, inl (first_from-IsFirst h m s (ground arith)))
]

first_from_nothing :
    (h : ℕ) (m : List (ℕ × ℕ))
    → IsSorted m
    → ((j : ℕ) → h ≤ j → get j m ≡ none)
    → first_from h m ≡ none
first_from_nothing h m s nothing = elim (Option-cases (first_from h m)) [
  | inl n ↦ n
  | inr ((k, w), f) ↦
      let found : IsFirst h m k w = first_from-IsFirst h m s f in
      cc (nothing k found.at_or_after, found.present)
]

wrapped_back :
    (h k v : ℕ) (m : List (ℕ × ℕ))
    → IsSorted m
    → first_from h m ≡ none
    → IsFirst 0 m k v
    → lookup_from h m ≡ some v
unfolding lookup_from first_from
wrapped_back h k v [] s n f = cc (IsFirst-first_from 0 [] k v s f)
wrapped_back h k v ((j, w) ∷ m) s n f = ground (arith, IsFirst-first_from 0 ((j, w) ∷ m) k v s f)

-- `IsClockwise` determines what `lookup_from` returns.
pub IsClockwise-lookup_from :
    (h : ℕ) (m : List (ℕ × ℕ)) (k v : ℕ)
    → IsSorted m
    → IsClockwise h m k v
    → lookup_from h m ≡ some v
unfolding lookup_from
IsClockwise-lookup_from h m k v s (inl f) = rw (IsFirst-first_from h m k v s f, lookup_from)
IsClockwise-lookup_from h m k v s (inr (nothing, f)) =
    wrapped_back h k v m s (first_from_nothing h m s nothing) f

-- Two rings agree on the points of every member but `x`, and the second has no point that is free
-- in the first.
pub record Without (x : ℕ) (m m' : List (ℕ × ℕ)) : Type 0 where
  pub kept : (k v : ℕ) → get k m ≡ some v → v ≢ x → get k m' ≡ some v
  pub still_free : (k : ℕ) → get k m ≡ none → get k m' ≡ none

Without-IsFirst :
    (x h k v : ℕ) (m m' : List (ℕ × ℕ))
    → Without x m m'
    → v ≢ x
    → IsFirst h m k v
    → IsFirst h m' k v
Without-IsFirst x h k v m m' w n f = record {
  at_or_after = f.at_or_after;
  present = w.kept k v f.present n;
  none_before = λ j hj lt. w.still_free j (f.none_before j hj lt);
}

-- A key that does not belong to `x` stays where it is.
pub lookup_from-Without :
    (x h v : ℕ) (m m' : List (ℕ × ℕ))
    → IsSorted m
    → IsSorted m'
    → Without x m m'
    → v ≢ x
    → lookup_from h m ≡ some v
    → lookup_from h m' ≡ some v
lookup_from-Without x h v m m' s s' w n e = stay (lookup_from-IsClockwise h m v s e)
  where
    stay : (k : ℕ) × IsClockwise h m k v → lookup_from h m' ≡ some v
    stay (k, inl f) = IsClockwise-lookup_from h m' k v s' (inl (Without-IsFirst x h k v m m' w n f))
    stay (k, inr (nothing, f)) =
        IsClockwise-lookup_from h m' k v s'
          (inr (λ j hj. w.still_free j (nothing j hj), Without-IsFirst x 0 k v m m' w n f))
