-- ===== src/Suite/Router.antt =====
-- src/router.rs, its tests.
use echofront.Base.{ℕ, ◌≡◌, refl, Bool, true, List, [], ◌∷◌, none, some}
use echofront.Http.{Request, bytes, get, new_request, with_header, to_ascii_lowercase}
use echofront.Router.{route, add, new_route}
use echofront.Suite.{all_of, is_text, is_missing}

-- `req`.
abbrev req : List ℕ → List ℕ → Request
req host path = with_header (new_request get path) (bytes "Host") host

abbrev longest_prefix_wins : Bool
longest_prefix_wins =
    let r =
      add
        (add (add [] (new_route none (bytes "/") (bytes "root")))
          (new_route none (bytes "/api") (bytes "api")))
        (new_route none (bytes "/api/v2") (bytes "apiv2")) in
    all_of (
      is_text (route r (req (bytes "h") (bytes "/"))) (bytes "root")
      ∷ is_text (route r (req (bytes "h") (bytes "/api/users"))) (bytes "api")
      ∷ is_text (route r (req (bytes "h") (bytes "/api/v2/things"))) (bytes "apiv2")
      ∷ [])

longest_prefix_wins_test : longest_prefix_wins ≡ true
unfolding add route new_route new_request with_header to_ascii_lowercase
longest_prefix_wins_test = refl

abbrev host_scoping : Bool
host_scoping =
    let r =
      add (add [] (new_route (some (bytes "a.example.com")) (bytes "/") (bytes "svc_a")))
        (new_route (some (bytes "b.example.com")) (bytes "/") (bytes "svc_b")) in
    all_of (
      is_text (route r (req (bytes "a.example.com") (bytes "/x"))) (bytes "svc_a")
      ∷ is_text (route r (req (bytes "b.example.com") (bytes "/x"))) (bytes "svc_b")
      ∷ is_missing (route r (req (bytes "c.example.com") (bytes "/x")))
      ∷ [])

host_scoping_test : host_scoping ≡ true
unfolding add route new_route new_request with_header to_ascii_lowercase
host_scoping_test = refl

abbrev prefix_boundary : Bool
prefix_boundary =
    let r = add [] (new_route none (bytes "/api") (bytes "api")) in
    all_of (
      is_missing (route r (req (bytes "h") (bytes "/apixyz")))
      ∷ is_text (route r (req (bytes "h") (bytes "/api"))) (bytes "api")
      ∷ is_text (route r (req (bytes "h") (bytes "/api?q=1"))) (bytes "api")
      ∷ [])

prefix_boundary_test : prefix_boundary ≡ true
unfolding add route new_route new_request with_header to_ascii_lowercase
prefix_boundary_test = refl

abbrev no_match : Bool
no_match = is_missing (
    route (add [] (new_route none (bytes "/only") (bytes "svc")))
      (req (bytes "h") (bytes "/other")))

no_match_test : no_match ≡ true
unfolding add route new_route new_request with_header to_ascii_lowercase
no_match_test = refl
