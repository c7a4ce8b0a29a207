-- ===== src/Router.antt =====
-- src/router.rs: which service handles a request. Texts are their UTF-8 bytes.
pub mod Prefix
pub mod Choice
use echofront.Base.{
  ℕ, Bool, true, false, ◌&&◌, ◌||◌, ltb, ◌==◌, if◌then◌else◌, list_eq, List, [], ◌∷◌, ◌++◌, map,
  Option, none, some, length, get_elem?,
}
use echofront.Http.{Request, host, eq_ignore_ascii_case, to_ascii_lowercase}

pub record Route : Type 0 where
  pub host : Option (List ℕ)
  pub path_prefix : List ℕ
  pub service : List ℕ

-- `Route::new`: the host is kept in lower case.
unfoldable pub new_route : Option (List ℕ) → List ℕ → List ℕ → Route
unfolding to_ascii_lowercase
new_route host path_prefix service = record {
  host = elim host [ none ↦ none | some h ↦ some (map to_ascii_lowercase h) ];
  path_prefix = path_prefix;
  service = service;
}

-- `path.split('?').next()`.
unfoldable pub before_query : List ℕ → List ℕ
before_query [] = []
before_query (c ∷ path) = let rest = before_query path in if c == b'?' then [] else c ∷ rest

unfoldable pub starts_with : List ℕ → List ℕ → Bool
starts_with [] path = true
starts_with (c ∷ prefix) [] = false
starts_with (c ∷ prefix) (d ∷ path) = c == d && starts_with prefix path

-- `prefix.ends_with('/')`.
unfoldable pub ends_with_slash : List ℕ → Bool
ends_with_slash [] = false
ends_with_slash (c ∷ []) = c == b'/'
ends_with_slash (c ∷ d ∷ s) = ends_with_slash (d ∷ s)

unfoldable pub path_prefix_matches : List ℕ → List ℕ → Bool
unfolding before_query starts_with ends_with_slash
path_prefix_matches prefix path =
    if list_eq prefix (b'/' ∷ [])
    then true
    else if starts_with prefix (before_query path)
    then elim (get_elem? (before_query path) (length prefix)) [
      | none ↦ true
      | some c ↦ c == b'/' || ends_with_slash prefix
    ]
    else false

-- The test of `matches` on the host.
unfoldable pub host_matches : Option (List ℕ) → Option (List ℕ) → Bool
unfolding to_ascii_lowercase
host_matches none requested = true
host_matches (some h) none = false
host_matches (some h) (some requested) = eq_ignore_ascii_case requested h

unfoldable pub matches : Route → Request → Bool
unfolding host_matches host path_prefix_matches
matches r req = host_matches r.host (host req) && path_prefix_matches r.path_prefix req.path

abbrev pub is_some {ℓ} : {A : Type ℓ} → Option A → Bool
is_some none = false
is_some (some a) = true

-- The order of `(path_prefix.len(), host.is_some())`: does `r` come strictly before `s`.
unfoldable pub key_lt : Route → Route → Bool
key_lt r s =
    if length r.path_prefix == length s.path_prefix
    then (elim r.host [ none ↦ is_some s.host | some h ↦ false ])
    else ltb (length r.path_prefix) (length s.path_prefix)

-- `max_by_key` keeps the later of two that are equal.
abbrev pub later_max : Option Route → Route → Route
later_max none r = r
later_max (some best) r = if key_lt r best then best else r

-- `filter(..).max_by_key(..)`, from the best route so far.
unfoldable pub best_route : Request → Option Route → List Route → Option Route
unfolding matches key_lt
best_route req best [] = best
best_route req best (r ∷ routes) =
    best_route req (if matches r req then some (later_max best r) else best) routes

unfoldable pub route : List Route → Request → Option (List ℕ)
unfolding best_route key_lt matches
route routes req = elim (best_route req none routes) [ none ↦ none | some r ↦ some r.service ]

-- `Router::add`.
unfoldable pub add : List Route → Route → List Route
add routes r = routes ++ r ∷ []
