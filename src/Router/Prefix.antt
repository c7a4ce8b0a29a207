-- ===== src/Router/Prefix.antt =====
-- src/router.rs, `path_prefix_matches`: prefixes end at a segment boundary.
use echofront.Base.{
  ℕ, ◌≡◌, ◌↔◌, ◌⊎◌, inl, inr, refl, Bool, true, false, ◌||◌, ◌==◌, if◌then◌else◌, list_eq, List, [],
  ◌∷◌, ◌++◌, Option, none, some, length, get_elem?, arith, Bool-cases,
}
use echofront.Router.{before_query, starts_with, ends_with_slash, path_prefix_matches}

-- What follows a prefix starts a new segment: it is nothing, or starts with a slash, or comes after
-- a slash.
abbrev pub AtBoundary : List ℕ → List ℕ → Type 0
AtBoundary prefix [] = Unit {0}
AtBoundary prefix (c ∷ rest) = (c ≡ b'/') ⊎ (ends_with_slash prefix ≡ true)

starts_with→append :
    (prefix path : List ℕ)
    → starts_with prefix path ≡ true
    → (rest : List ℕ) × (path ≡ prefix ++ rest)
unfolding starts_with
starts_with→append [] path h = (path, refl)
starts_with→append (c ∷ prefix) [] h = cc
starts_with→append (c ∷ prefix) (d ∷ path) h =
    let (rest, e) = starts_with→append prefix path (ground (arith, h)) in
    let same : d ≡ c = ground (arith, h) in (rest, rw (same, e) refl)

starts_with-append : (prefix rest : List ℕ) → starts_with prefix (prefix ++ rest) ≡ true
unfolding starts_with
starts_with-append [] rest = refl
starts_with-append (c ∷ prefix) rest = ground (arith, starts_with-append prefix rest)

-- The test on the byte after the prefix.
abbrev at_boundary : List ℕ → Option ℕ → Bool
at_boundary prefix none = true
at_boundary prefix (some c) = c == b'/' || ends_with_slash prefix

get_elem?-append_length :
    (prefix rest : List ℕ) → get_elem? (prefix ++ rest) (length prefix) ≡ get_elem? rest 0
get_elem?-append_length [] rest = refl
get_elem?-append_length (c ∷ prefix) rest = get_elem?-append_length prefix rest

at_boundary_iff :
    (prefix rest : List ℕ) → (at_boundary prefix (get_elem? rest 0) ≡ true) ↔ AtBoundary prefix rest
at_boundary_iff prefix [] = (λ _. tt, λ _. refl)
at_boundary_iff prefix (c ∷ rest) = ground arith

test_on_head :
    (prefix head : List ℕ)
    → ((if starts_with prefix head
          then at_boundary prefix (get_elem? head (length prefix))
          else false)
        ≡ true)
      ↔ ((rest : List ℕ) × (head ≡ prefix ++ rest) × AtBoundary prefix rest)
test_on_head prefix head = (there, back)
  where
    there :
        (if starts_with prefix head
            then at_boundary prefix (get_elem? head (length prefix))
            else false)
          ≡ true
        → (rest : List ℕ) × (head ≡ prefix ++ rest) × AtBoundary prefix rest
    there h = elim (Bool-cases (starts_with prefix head)) [
      | inl y ↦
          let (rest, e) = starts_with→append prefix head y in
          (
            rest,
            e,
            (at_boundary_iff prefix rest).0 (rw (y, e, get_elem?-append_length prefix rest) at h),
          )
      | inr n ↦ cc (rw n at h)
    ]

    back :
        (rest : List ℕ) × (head ≡ prefix ++ rest) × AtBoundary prefix rest
        → (if starts_with prefix head
            then at_boundary prefix (get_elem? head (length prefix))
            else false)
          ≡ true
    back (rest, e, a) =
        rw (e, starts_with-append prefix rest, get_elem?-append_length prefix rest)
          ((at_boundary_iff prefix rest).1 a)

-- A prefix other than `/` matches a path exactly when the path without its query is the prefix
-- followed by something that starts a new segment.
pub path_prefix_matches_iff :
    (prefix path : List ℕ)
    → list_eq prefix (b'/' ∷ []) ≡ false
    → (path_prefix_matches prefix path ≡ true)
      ↔ ((rest : List ℕ) × (before_query path ≡ prefix ++ rest) × AtBoundary prefix rest)
unfolding path_prefix_matches
path_prefix_matches_iff prefix path h = rw h (test_on_head prefix (before_query path))
