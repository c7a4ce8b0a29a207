-- ===== src/Suite/Wire.antt =====
-- src/http.rs, its tests.
use echofront.Base.{◌≡◌, refl, Bool, true, false, not, ◌&&◌, [], ◌∷◌, list_eq}
use echofront.Http.{
  Request, Method, get, post, bytes, header, host, is_idempotent, is_success, is_server_error,
  to_ascii_lowercase,
}
use echofront.Http.Names.{new_response, as_str}
use echofront.Http.Parse.{
  Parsed, parsed, rejected, empty, malformed_request_line, malformed_header, parse,
}
use echofront.Suite.{all_of, is_text}

-- `unwrap`, followed by assertions.
abbrev parses : Parsed Request → (Request → Bool) → Bool
parses (parsed req) f = f req
parses (rejected e) f = false

abbrev same_method : Method → Method → Bool
same_method m n = list_eq (as_str m) (as_str n)

abbrev parses_request_line_and_headers : Bool
parses_request_line_and_headers =
    parses
      (parse (bytes "GET /api/users?id=3 HTTP/1.1\r\nHost: api.example.com\r\nAccept: */*\r\n\r\n"))
      (λ req. all_of (
        same_method req.method get
        ∷ list_eq req.path (bytes "/api/users?id=3")
        ∷ list_eq req.version (bytes "HTTP/1.1")
        ∷ is_text (host req) (bytes "api.example.com")
        ∷ is_text (header req (bytes "accept")) (bytes "*/*")
        ∷ []))

parses_request_line_and_headers_test : parses_request_line_and_headers ≡ true
unfolding parse as_str header host to_ascii_lowercase
parses_request_line_and_headers_test = refl

abbrev parses_body : Bool
parses_body =
    parses (parse (bytes "POST /submit HTTP/1.1\r\nHost: h\r\nContent-Length: 5\r\n\r\nhello"))
      (λ req. same_method req.method post && list_eq req.body (bytes "hello"))

parses_body_test : parses_body ≡ true
unfolding parse as_str
parses_body_test = refl

abbrev tolerates_lf_only : Bool
tolerates_lf_only =
    parses (parse (bytes "GET / HTTP/1.1\nHost: h\n\n"))
      (λ req. list_eq req.path (bytes "/") && is_text (host req) (bytes "h"))

tolerates_lf_only_test : tolerates_lf_only ≡ true
unfolding parse host to_ascii_lowercase
tolerates_lf_only_test = refl

abbrev is_empty_error : Parsed Request → Bool
is_empty_error (parsed req) = false
is_empty_error (rejected empty) = true
is_empty_error (rejected malformed_request_line) = false
is_empty_error (rejected (malformed_header l)) = false

abbrev rejects_empty : Bool
rejects_empty = is_empty_error (parse [])

rejects_empty_test : rejects_empty ≡ true
unfolding parse
rejects_empty_test = refl

abbrev idempotency : Bool
idempotency = is_idempotent get && not (is_idempotent post)

idempotency_test : idempotency ≡ true
unfolding is_idempotent
idempotency_test = refl

abbrev response_classification : Bool
response_classification = all_of (
    is_success (new_response 200)
    ∷ not (is_success (new_response 500))
    ∷ is_server_error (new_response 503)
    ∷ [])

response_classification_test : response_classification ≡ true
unfolding is_success is_server_error new_response
response_classification_test = refl
