-- ===== src/Http/Parse/Text.antt =====
-- Requests as they are written, for src/http.rs, `Request::parse`.
use echofront.Base.{ℕ, ◌≡◌, ◌≢◌, false, List, [], ◌∷◌, ◌++◌, All}
use echofront.Http.Parse.{is_whitespace, trim}

-- A request as text: its parts are lists of code points.
pub record RequestText : Type 0 where
  pub method : List ℕ
  pub path : List ℕ
  pub version : List ℕ
  pub headers : List (List ℕ × List ℕ)
  pub body : List ℕ

abbrev pub crlf : List ℕ → List ℕ
crlf s = b'\r' ∷ b'\n' ∷ s

abbrev pub header_text : List ℕ × List ℕ → List ℕ → List ℕ
header_text (name, value) s = name ++ (b':' ∷ b' ' ∷ (value ++ s))

-- The headers, each on a line of its own after the one before.
abbrev pub headers_text : List (List ℕ × List ℕ) → List ℕ
headers_text [] = []
headers_text (h ∷ headers) = crlf (header_text h (headers_text headers))

abbrev pub line_text : RequestText → List ℕ
line_text r = r.method ++ (b' ' ∷ (r.path ++ (b' ' ∷ r.version)))

-- The request as it is sent.
unfoldable pub render : RequestText → List ℕ
render r = (line_text r ++ headers_text r.headers) ++ crlf (crlf r.body)

-- No line end in it.
abbrev pub OneLine : List ℕ → Type 0
OneLine = All λ c. (c ≢ b'\r') × (c ≢ b'\n')

-- A word: something, without white space.
abbrev pub IsWord : List ℕ → Type 0
IsWord s = (s ≢ []) × All (λ c. is_whitespace c ≡ false) s

-- A header whose name has no colon, and neither part white space at its ends.
abbrev pub IsHeader : List ℕ × List ℕ → Type 0
IsHeader (name, value) =
    OneLine name
    × OneLine value
    × All (λ c. c ≢ b':') name
    × (trim name ≡ name)
    × (trim value ≡ value)

pub record IsText (r : RequestText) : Type 0 where
  pub method : IsWord r.method
  pub path : IsWord r.path
  pub version : IsWord r.version
  pub headers : All IsHeader r.headers
