-- ===== src/Http/Names.antt =====
-- src/http.rs: the names of methods and of statuses.
use echofront.Base.{
  ℕ, Bool, true, false, ◌∙◌, ◌≡◌, refl, ◌==◌, if◌then◌else◌, list_eq, list_eq→eq, List, [], ◌∷◌,
  All,
}
use echofront.Http.{Method, get, post, put, delete, patch, head, options, other, Response, bytes}

-- `Method::as_str`.
unfoldable pub as_str : Method → List ℕ
as_str get = bytes "GET"
as_str post = bytes "POST"
as_str put = bytes "PUT"
as_str delete = bytes "DELETE"
as_str patch = bytes "PATCH"
as_str head = bytes "HEAD"
as_str options = bytes "OPTIONS"
as_str (other s) = s

-- The arms of the `match` in `Method::parse`.
abbrev arms : List (List ℕ × Method)
arms =
    (bytes "GET", get)
    ∷ (bytes "POST", post)
    ∷ (bytes "PUT", put)
    ∷ (bytes "DELETE", delete)
    ∷ (bytes "PATCH", patch)
    ∷ (bytes "HEAD", head)
    ∷ (bytes "OPTIONS", options)
    ∷ []

first_arm : List ℕ → List (List ℕ × Method) → Method
first_arm s [] = other s
first_arm s ((name, m) ∷ rest) = if list_eq name s then m else first_arm s rest

-- `Method::parse`.
unfoldable pub parse_method : List ℕ → Method
unfolding first_arm
parse_method s = first_arm s arms

-- The texts of the `match` in `reason_phrase`.
phrases : List (ℕ × List ℕ)
phrases =
    (200, bytes "OK")
    ∷ (201, bytes "Created")
    ∷ (204, bytes "No Content")
    ∷ (301, bytes "Moved Permanently")
    ∷ (302, bytes "Found")
    ∷ (304, bytes "Not Modified")
    ∷ (400, bytes "Bad Request")
    ∷ (401, bytes "Unauthorized")
    ∷ (403, bytes "Forbidden")
    ∷ (404, bytes "Not Found")
    ∷ (429, bytes "Too Many Requests")
    ∷ (500, bytes "Internal Server Error")
    ∷ (502, bytes "Bad Gateway")
    ∷ (503, bytes "Service Unavailable")
    ∷ (504, bytes "Gateway Timeout")
    ∷ []

phrase_of : ℕ → List (ℕ × List ℕ) → List ℕ
phrase_of status [] = bytes "Unknown"
phrase_of status ((s, text) ∷ rest) = if s == status then text else phrase_of status rest

unfoldable pub reason_phrase : ℕ → List ℕ
unfolding phrases phrase_of
reason_phrase status = phrase_of status phrases

-- `Response::new` and `Response::with_body`.
unfoldable pub new_response : ℕ → Response
unfolding reason_phrase
new_response status = record {
  status = status;
  reason = reason_phrase status;
  headers = [];
  body = [];
}

unfoldable pub with_body : Response → List ℕ → Response
with_body r body = record r { body = body }

as_str-first_arm :
    (s : List ℕ) (rest : List (List ℕ × Method))
    → All (λ arm. as_str arm.1 ≡ arm.0) rest
    → as_str (first_arm s rest) ≡ s
unfolding first_arm as_str
as_str-first_arm s [] h = refl
as_str-first_arm s ((name, m) ∷ rest) h = go (as_str-first_arm s rest h.1) (list_eq name s) refl
  where
    go :
        as_str (first_arm s rest) ≡ s
        → (b : Bool) → list_eq name s ≡ b
        → as_str (if b then m else first_arm s rest) ≡ s
    go later true e = h.0 ∙ list_eq→eq name s e
    go later false e = later

-- Printing a method that was read gives back its text: reading loses nothing, whatever the method.
pub as_str-parse_method : (s : List ℕ) → as_str (parse_method s) ≡ s
unfolding as_str parse_method
as_str-parse_method s =
    as_str-first_arm s arms (refl, (refl, (refl, (refl, (refl, (refl, (refl, tt)))))))
