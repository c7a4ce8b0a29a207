-- ===== src/Tests/Places.antt =====
-- src/hashring.rs and src/router.rs at concrete inputs.
use echofront.Base.{
  ℕ, ◌≡◌, ◌↔◌, ◌⊎◌, refl, true, false, List, [], ◌∷◌, ◌++◌, map, none, some, All, contains, arith,
}
use echofront.HashRing.{ConsistentHashRing, rebuild, lookup, lookup_from, mix64, fnv1a_64}
use echofront.HashRing.Map.{insert, first_from}
use echofront.HashRing.Members.{rebuild_removed, rebuild_added}
use echofront.HashRing.Owners.{lookup-rebuild_total}
use echofront.Http.{Request, bytes, get}
use echofront.Router.{Route, route, matches, path_prefix_matches, before_query}
use echofront.Router.Choice.{IsWinner, route-IsWinner}
use echofront.Router.Prefix.{AtBoundary, path_prefix_matches_iff}

abbrev ring : ConsistentHashRing
ring = record { vnodes = 2; ring = []; members = [] }

abbrev before : List (ℕ × List ℕ)
before = (0, bytes "a") ∷ []

abbrev after : List (ℕ × List ℕ)
after = (2, bytes "c") ∷ []

abbrev member : List ℕ
member = bytes "b"

abbrev key : List ℕ
key = bytes "user-7"

abbrev steady_key : List ℕ
steady_key = bytes "user-1"

rebuild_removed_example : lookup (rebuild ring (before ++ after)) steady_key ≡ some 0
unfolding lookup rebuild insert mix64 fnv1a_64 lookup_from first_from
rebuild_removed_example = rebuild_removed ring 1 member before after steady_key 0 refl (λ e. cc)

rebuild_added_test : ◌≡◌ {A = ℕ} 1 0 ⊎ ◌≡◌ {A = ℕ} 1 1
unfolding lookup rebuild insert mix64 fnv1a_64 lookup_from first_from
rebuild_added_test = rebuild_added ring 1 member before after key 0 1 refl refl

lookup-rebuild_total_example :
    (id : ℕ) × (lookup (rebuild ring (before ++ after)) key ≡ some id)
    × (contains (map (λ m. m.0) (before ++ after)) id ≡ true)
lookup-rebuild_total_example =
    lookup-rebuild_total ring (before ++ after) key (omega arith) (λ e. cc)

abbrev request : Request
request = record {
  method = get;
  path = bytes "/api/users?page=2";
  version = bytes "HTTP/1.1";
  headers = (bytes "Host", bytes "Shop.example") ∷ [];
  body = [];
}

abbrev everything : Route
everything = record { host = none; path_prefix = bytes "/"; service = bytes "web" }

abbrev api : Route
api = record { host = none; path_prefix = bytes "/api"; service = bytes "api" }

abbrev shop_api : Route
shop_api = record {
  host = some (bytes "shop.example");
  path_prefix = bytes "/api";
  service = bytes "shop";
}

abbrev routes : List Route
routes = shop_api ∷ api ∷ everything ∷ []

route-IsWinner_example :
    ((route routes request ≡ none) × All (λ s. matches s request ≡ false) routes)
    ⊎ ((r : Route) × (before : List Route) × (after : List Route) × (routes ≡ before ++ r ∷ after)
        × (route routes request ≡ some r.service)
        × IsWinner request r before after)
route-IsWinner_example = route-IsWinner routes request

path_prefix_matches_iff_example :
    (path_prefix_matches (bytes "/api") (bytes "/api/users?page=2") ≡ true) ↔ (
      (rest : List ℕ) × (before_query (bytes "/api/users?page=2") ≡ bytes "/api" ++ rest)
      × AtBoundary (bytes "/api") rest)
path_prefix_matches_iff_example =
    path_prefix_matches_iff (bytes "/api") (bytes "/api/users?page=2") refl
