-- ===== src/Router/Choice.antt =====
-- src/router.rs: which route wins.
use mathlib.Core.List.{append_assoc, append-nil}
use echofront.Base.{
  ◌≡◌, ◌⊎◌, inl, inr, refl, ap, Bool, true, false, ◌&&◌, ◌||◌, not, if◌then◌else◌, List, [], ◌∷◌,
  ◌++◌, Option, none, some, All, All-append, All-mono, arith,
}
use echofront.Http.{Request}
use echofront.Router.{Route, matches, key_lt, later_max, best_route, route}

key_lt_neg_trans : (r s t : Route) → key_lt r t ≡ false → key_lt s r ≡ false → key_lt s t ≡ false
unfolding key_lt
key_lt_neg_trans r s t a b = ground arith

key_lt_mixed : (r s t : Route) → key_lt t r ≡ true → key_lt s r ≡ false → key_lt s t ≡ false
unfolding key_lt
key_lt_mixed r s t a b = ground arith

key_lt_irrefl : (r : Route) → key_lt r r ≡ false
unfolding key_lt
key_lt_irrefl r = ground arith

-- `r` matches, at its place among the routes; no matching route before it has a greater key, and
-- every matching route after it has a smaller one.
abbrev pub IsWinner : Request → Route → List Route → List Route → Type 0
IsWinner req r before after =
    (matches r req ≡ true)
    × All (λ s. (matches s req && key_lt r s) ≡ false) before
    × All (λ s. (not (matches s req) || key_lt s r) ≡ true) after

-- The best route among those seen.
abbrev pub Wins : Request → List Route → Option Route → Type 0
Wins req seen none = All (λ s. matches s req ≡ false) seen
Wins req seen (some r) =
    (before : List Route) × (after : List Route) × (seen ≡ before ++ r ∷ after)
    × IsWinner req r before after

passed_before :
    (req : Request) (r s t : Route)
    → key_lt s r ≡ false
    → (matches t req && key_lt r t) ≡ false
    → (matches t req && key_lt s t) ≡ false
passed_before req r s t e h = ground (arith, key_lt_neg_trans r s t)

passed_after :
    (req : Request) (r s t : Route)
    → key_lt s r ≡ false
    → (not (matches t req) || key_lt t r) ≡ true
    → (matches t req && key_lt s t) ≡ false
passed_after req r s t e h = ground (arith, key_lt_mixed r s t)

-- A matching route that is not below the winner takes its place.
takes_over :
    (req : Request) (r s : Route) (before after : List Route)
    → IsWinner req r before after
    → matches s req ≡ true
    → key_lt s r ≡ false
    → IsWinner req s (before ++ r ∷ after) []
takes_over req r s before after (m, lower, upper) e k = (
  e,
  All-append (λ t. (matches t req && key_lt s t) ≡ false) before (r ∷ after)
      (All-mono _ (λ t. (matches t req && key_lt s t) ≡ false) before
        (λ t. passed_before req r s t k) lower)
      (
        ground (arith, k),
        All-mono _ (λ t. (matches t req && key_lt s t) ≡ false) after
            (λ t. passed_after req r s t k) upper,
      ),
  tt,
)

-- A route that does not match, or is below the winner, changes nothing.
stays :
    (req : Request) (r s : Route) (before after : List Route)
    → IsWinner req r before after
    → (not (matches s req) || key_lt s r) ≡ true
    → Wins req ((before ++ r ∷ after) ++ s ∷ []) (some r)
stays req r s before after (m, lower, upper) e = (
  before,
  after ++ s ∷ [],
  append_assoc before (r ∷ after) (s ∷ []),
  (
    m,
    lower,
    All-append (λ t. (not (matches t req) || key_lt t r) ≡ true) after (s ∷ []) upper (e, tt),
  ),
)

-- The new route against the best so far.
abbrev Compares : Option Route → Route → Bool → Type 0
Compares none s k = Unit {0}
Compares (some r) s k = key_lt s r ≡ k

Wins-step :
    (req : Request) (seen : List Route) (best : Option Route) (s : Route) (m k : Bool)
    → matches s req ≡ m
    → Compares best s k
    → Wins req seen best
    → Wins req (seen ++ s ∷ []) (if m then some (later_max best s) else best)
Wins-step req seen none s true k e c w = (
  seen,
  [],
  refl,
  (
    e,
    All-mono _ (λ t. (matches t req && key_lt s t) ≡ false) seen (λ t h. ground (arith, h)) w,
    tt,
  ),
)
Wins-step req seen none s false k e c w =
    All-append (λ t. matches t req ≡ false) seen (s ∷ []) w (e, tt)
Wins-step req seen (some r) s true true e c (before, after, place, won) =
    rw (c, place) (stays req r s before after won (ground (arith, c)))
Wins-step req seen (some r) s true false e c (before, after, place, won) =
    rw (c, place) ((before ++ r ∷ after, [], refl, takes_over req r s before after won e c))
Wins-step req seen (some r) s false k e c (before, after, place, won) =
    rw place (stays req r s before after won (ground (arith, e)))

compared : (best : Option Route) (s : Route) → Bool
compared none s = false
compared (some r) s = key_lt s r

compared_lem : (best : Option Route) (s : Route) → Compares best s (compared best s)
unfolding compared key_lt
compared_lem none s = tt
compared_lem (some r) s = refl

best_route_lem :
    (req : Request) (seen : List Route) (best : Option Route) (routes : List Route)
    → Wins req seen best
    → Wins req (seen ++ routes) (best_route req best routes)
unfolding best_route
best_route_lem req seen best [] w = rw (append-nil seen) w
best_route_lem req seen best (r ∷ routes) w = rw (← append_assoc seen (r ∷ []) routes) (
    best_route_lem req (seen ++ r ∷ []) _ routes
      (Wins-step req seen best r (matches r req) (compared best r) refl (compared_lem best r) w))

-- `route` answers with the service of the route that wins among all routes: it matches, no matching
-- route has a greater key (a longer prefix, or as long a prefix and a host where the winner has
-- none), and of those with the same key it is the last one. It answers nothing only when no
-- route matches.
pub route-IsWinner :
    (routes : List Route) (req : Request)
    → ((route routes req ≡ none) × All (λ s. matches s req ≡ false) routes)
      ⊎ ((r : Route) × (before : List Route) × (after : List Route) × (routes ≡ before ++ r ∷ after)
          × (route routes req ≡ some r.service)
          × IsWinner req r before after)
unfolding route
route-IsWinner routes req =
    go (best_route req none routes) refl (best_route_lem req [] none routes tt)
  where
    go :
        (best : Option Route)
        → best_route req none routes ≡ best
        → Wins req routes best
        → ((route routes req ≡ none) × All (λ s. matches s req ≡ false) routes)
          ⊎ ((r : Route) × (before : List Route) × (after : List Route) × (routes
                ≡ before ++ r ∷ after)
              × (route routes req ≡ some r.service)
              × IsWinner req r before after)
    go none e w = inl (ap (λ b. elim b [ none ↦ none | some r ↦ some r.service ]) e, w)
    go (some r) e (before, after, place, won) =
        inr (
          r,
          before,
          after,
          place,
          ap (λ b. elim b [ none ↦ none | some r ↦ some r.service ]) e,
          won,
        )
