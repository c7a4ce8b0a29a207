-- ===== src/Http.antt =====
-- src/http.rs: requests and responses, as far as the engine routes on them. A `String` is its UTF-8
-- bytes.
pub mod Names
pub mod Parse
use Prim.Native.Char.{code}
use Prim.Native.String.{String}
use echofront.Base.{
  ℕ, ◌+◌, Bool, true, false, ◌&&◌, ltb, leb, if◌then◌else◌, list_eq, List, [], ◌∷◌, ◌++◌, Option,
  none, some, map,
}

-- The bytes of an ASCII literal.
abbrev pub bytes : String → List ℕ
bytes String.[] = []
bytes (String.◌∷◌ c s) = code c ∷ bytes s

pub data Method : Type 0 where
  get post put delete patch head options : Method
  other : List ℕ → Method

pub record Request : Type 0 where
  pub method : Method
  pub path : List ℕ
  pub version : List ℕ
  pub headers : List (List ℕ × List ℕ)
  pub body : List ℕ

pub record Response : Type 0 where
  pub status : ℕ
  pub reason : List ℕ
  pub headers : List (List ℕ × List ℕ)
  pub body : List ℕ

-- `u8::to_ascii_lowercase`.
unfoldable pub to_ascii_lowercase : ℕ → ℕ
to_ascii_lowercase c = if leb b'A' c && leb c b'Z' then c + 32 else c

-- `str::eq_ignore_ascii_case`.
abbrev pub eq_ignore_ascii_case : List ℕ → List ℕ → Bool
eq_ignore_ascii_case s t = list_eq (map to_ascii_lowercase s) (map to_ascii_lowercase t)

-- `Request::new` and `Request::with_header`.
unfoldable pub new_request : Method → List ℕ → Request
new_request method path = record {
  method = method;
  path = path;
  version = bytes "HTTP/1.1";
  headers = [];
  body = [];
}

unfoldable pub with_header : Request → List ℕ → List ℕ → Request
with_header r name value = record r { headers = r.headers ++ (name, value) ∷ [] }

-- The search of `header`: the first match wins.
pub find_header : List ℕ → List (List ℕ × List ℕ) → Option (List ℕ)
find_header name [] = none
find_header name ((k, v) ∷ headers) =
    if eq_ignore_ascii_case k name then some v else find_header name headers

unfoldable pub header : Request → List ℕ → Option (List ℕ)
unfolding find_header to_ascii_lowercase
header r name = find_header name r.headers

unfoldable pub host : Request → Option (List ℕ)
unfolding header
host r = header r (bytes "Host")

-- `Request::probe`.
unfoldable pub probe_request : Request
unfolding new_request
probe_request = new_request head (bytes "/healthz")

unfoldable pub is_idempotent : Method → Bool
is_idempotent get = true
is_idempotent head = true
is_idempotent put = true
is_idempotent delete = true
is_idempotent options = true
is_idempotent post = false
is_idempotent patch = false
is_idempotent (other s) = false

unfoldable pub is_success : Response → Bool
is_success r = leb 200 r.status && ltb r.status 400

unfoldable pub is_server_error : Response → Bool
is_server_error r = leb 500 r.status
